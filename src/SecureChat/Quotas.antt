-- ===== src/SecureChat/Quotas.antt =====
-- The quotas on restore blobs: `POST /restore-blobs` of apps/secure-chat/src/routes/secure-chat.ts.
use mathlib.Core.Path.{subst}
use philosophy_app.Prelude.{
  ℕ, ◌+◌, ◌≤◌, ◌≡◌, inl, inr, Bool, true, false, ◌&&◌, Option, List, [], ◌∷◌, arith, ◌==◌, leb,
  Bool-cases, find_row, count_rows, delete_rows, count_rows-delete_rows,
}
use philosophy_app.Http.{ok, refuse, bind-ok, ok-injective, refuse-ok, rate_limited, parse_body}
use philosophy_app.Access.{Ctx, require_auth}
use philosophy_app.SecureChat.{
  RestoreBlob, SecureTables, Limits, assert_size, get_my_device, require_secure_member,
  assert_target_device_member,
}
use philosophy_app.SecureChat.Couriers.{
  BlobBody, outstanding_to, outstanding_pair, insert_blob, upload_blob, owned_blob, delete_blob,
  purge_restore_blobs,
}

-- The quotas hold at a time: of each pair of devices, and of each target.
pub record IsWithin (limits : Limits) (now : ℕ) (rows : List RestoreBlob) : Type 0 where
  pub pairs :
      (from target : ℕ)
      → count_rows (outstanding_pair from target now) rows ≤ limits.max_blobs_per_pair
  pub targets :
      (target : ℕ) → count_rows (outstanding_to target now) rows ≤ limits.max_blobs_per_target

-- Requests in the order of their times, one after the other. `other` writes elsewhere.
pub data Since (limits : Limits) (s : SecureTables) (start : ℕ) : SecureTables → ℕ → Type 0 where
  begun : Since limits s start s start
  uploads :
      {u v : SecureTables} {at : ℕ} (c : Ctx) (body : Option BlobBody) (fresh now : ℕ)
      → Since limits s start u at
      → at ≤ now
      → upload_blob limits u c body fresh now ≡ ok v
      → Since limits s start v now
  deletes :
      {u v : SecureTables} {at : ℕ} (c : Ctx) (blob_id now : ℕ)
      → Since limits s start u at
      → at ≤ now
      → delete_blob u c blob_id ≡ ok v
      → Since limits s start v now
  purges :
      {u : SecureTables} {at : ℕ} (now : ℕ)
      → Since limits s start u at
      → at ≤ now
      → Since limits s start (purge_restore_blobs u now) now
  other :
      {u v : SecureTables} {at : ℕ} (now : ℕ)
      → Since limits s start u at
      → at ≤ now
      → v.restore_blobs ≡ u.restore_blobs
      → Since limits s start v now

count_weaker :
    (p q : RestoreBlob → Bool) (rows : List RestoreBlob)
    → ((x : RestoreBlob) → p x ≡ true → q x ≡ true)
    → count_rows p rows ≤ count_rows q rows
count_weaker p q [] weaker = omega arith
count_weaker p q (x ∷ xs) weaker = elim (Bool-cases (p x)) [
  | inl holds ↦ rw (holds, weaker x holds) (omega (arith, count_weaker p q xs weaker))
  | inr fails ↦ rw fails (omega (arith, count_weaker p q xs weaker))
]

count_one_more :
    (p : RestoreBlob → Bool) (x : RestoreBlob) (rows : List RestoreBlob) (cap : ℕ)
    → count_rows p rows ≤ cap
    → (p x ≡ true → count_rows p rows + 1 ≤ cap)
    → count_rows p (x ∷ rows) ≤ cap
count_one_more p x rows cap fits room = elim (Bool-cases (p x)) [
  | inl holds ↦ rw holds (omega (arith, room holds))
  | inr fails ↦ rw fails (omega arith)
]

later-IsWithin :
    (limits : Limits) (at now : ℕ) (rows : List RestoreBlob)
    → at ≤ now
    → IsWithin limits at rows
    → IsWithin limits now rows
later-IsWithin limits at now rows le old = record {
  pairs = λ from target. omega (
    arith,
    count_weaker (outstanding_pair from target now) (outstanding_pair from target at) rows
        (λ x h. ground arith),
    old.pairs from target,
  );
  targets = λ target. omega (
    arith,
    count_weaker (outstanding_to target now) (outstanding_to target at) rows (λ x h. ground arith),
    old.targets target,
  );
}

grown-IsWithin :
    (limits : Limits) (now : ℕ) (new : RestoreBlob) (rows : List RestoreBlob)
    → IsWithin limits now rows
    → leb limits.max_blobs_per_pair
        (count_rows (outstanding_pair new.from_device_id new.target_device_id now) rows)
      ≡ false
    → leb limits.max_blobs_per_target (count_rows (outstanding_to new.target_device_id now) rows)
      ≡ false
    → IsWithin limits now (new ∷ rows)
grown-IsWithin limits now new rows old pair_room target_room = record {
  pairs = λ from target.
      count_one_more (outstanding_pair from target now) new rows limits.max_blobs_per_pair
        (old.pairs from target)
        (λ mine.
          let from_same : new.from_device_id ≡ from = ground arith in
          let target_same : new.target_device_id ≡ target = ground arith in
          let moved =
            subst
              (λ (i : ℕ).
                leb limits.max_blobs_per_pair
                  (count_rows (outstanding_pair i new.target_device_id now) rows)
                ≡ false)
              from_same pair_room in
          let room =
            subst
              (λ (j : ℕ).
                leb limits.max_blobs_per_pair (count_rows (outstanding_pair from j now) rows)
                ≡ false)
              target_same moved in
          ground arith);
  targets = λ target.
      count_one_more (outstanding_to target now) new rows limits.max_blobs_per_target
        (old.targets target)
        (λ mine.
          let target_same : new.target_device_id ≡ target = ground arith in
          let room =
            subst
              (λ (j : ℕ).
                leb limits.max_blobs_per_target (count_rows (outstanding_to j now) rows) ≡ false)
              target_same target_room in
          ground arith);
}

insert-IsWithin :
    (limits : Limits) (project_id : ℕ) (body : BlobBody) (bytes fresh now : ℕ)
    (rows : List RestoreBlob) {rows' : List RestoreBlob}
    → insert_blob limits rows project_id body bytes fresh now rows ≡ ok rows'
    → IsWithin limits now rows
    → IsWithin limits now rows'
unfolding insert_blob
insert-IsWithin limits project_id body bytes fresh now rows h old =
    let (u, free_pair, h1) =
      bind-ok {A = Unit}
        (refuse
          (leb limits.max_blobs_per_pair
            (count_rows (outstanding_pair body.from_device_id body.target_device_id now) rows))
          rate_limited)
        _ h in
    let (v, free_target, h2) =
      bind-ok {A = Unit}
        (refuse
          (leb limits.max_blobs_per_target
            (count_rows (outstanding_to body.target_device_id now) rows))
          rate_limited)
        _ h1 in
    subst (IsWithin limits now) (ok-injective h2)
      (grown-IsWithin limits now _ rows old (refuse-ok _ _ free_pair) (refuse-ok _ _ free_target))

deleted-IsWithin :
    (limits : Limits) (now : ℕ) (p : RestoreBlob → Bool) (rows : List RestoreBlob)
    → IsWithin limits now rows
    → IsWithin limits now (delete_rows p rows)
deleted-IsWithin limits now p rows old = record {
  pairs = λ from target. omega (
    arith,
    old.pairs from target,
    count_rows-delete_rows (outstanding_pair from target now) p rows,
  );
  targets = λ target.
      omega (arith, old.targets target, count_rows-delete_rows (outstanding_to target now) p rows);
}

upload_blob-IsWithin :
    (limits : Limits) (t : SecureTables) (c : Ctx) (body : Option BlobBody) (fresh now : ℕ)
    {t' : SecureTables}
    → upload_blob limits t c body fresh now ≡ ok t'
    → IsWithin limits now t.restore_blobs
    → IsWithin limits now t'.restore_blobs
unfolding upload_blob
upload_blob-IsWithin limits t c body fresh now {t'} h0 old =
    let (auth, from0, h1) = bind-ok (require_auth c) _ h0 in
    let (request, from1, h2) = bind-ok (parse_body body) _ h1 in
    let (from, from2, h3) =
      bind-ok (get_my_device t c.project_id auth.user_id request.from_device_id) _ h2 in
    let (caller, from3, h4) =
      bind-ok (require_secure_member t c.project_id request.conversation_id auth.user_id) _ h3 in
    let (u, from4, h5) =
      bind-ok {A = Unit}
        (assert_target_device_member t c.project_id request.conversation_id
          request.target_device_id)
        _ h4 in
    let (bytes, from5, h6) =
      bind-ok (assert_size request.blob limits.max_restore_blob_bytes) _ h5 in
    let (rows, from6, h7) =
      bind-ok
        (insert_blob limits t.restore_blobs c.project_id request bytes fresh now t.restore_blobs) _
        h6 in
    subst (λ (x : SecureTables). IsWithin limits now x.restore_blobs) (ok-injective h7)
      (insert-IsWithin limits c.project_id request bytes fresh now t.restore_blobs from6 old)

delete_blob-IsWithin :
    (limits : Limits) (t : SecureTables) (c : Ctx) (blob_id now : ℕ) {t' : SecureTables}
    → delete_blob t c blob_id ≡ ok t'
    → IsWithin limits now t.restore_blobs
    → IsWithin limits now t'.restore_blobs
unfolding delete_blob
delete_blob-IsWithin limits t c blob_id now {t'} h0 old =
    let (auth, from0, h1) = bind-ok (require_auth c) _ h0 in
    let (row, from1, h2) =
      bind-ok
        (owned_blob t c.project_id auth.user_id (
          find_row (λ (b : RestoreBlob). b.project_id == c.project_id && b.id == blob_id)
            t.restore_blobs))
        _ h1 in
    subst (λ (x : SecureTables). IsWithin limits now x.restore_blobs) (ok-injective h2)
      (deleted-IsWithin limits now (λ (b : RestoreBlob). b.id == row.id) t.restore_blobs old)

-- Where no two uploads overlap, at the time of each request no pair of devices and no target has more
-- blobs that have not expired than its quota, if that is so at the start.
pub Since-IsWithin :
    (limits : Limits) (s : SecureTables) (start : ℕ) (t : SecureTables) (now : ℕ)
    → IsWithin limits start s.restore_blobs
    → Since limits s start t now
    → IsWithin limits now t.restore_blobs
unfolding purge_restore_blobs
Since-IsWithin limits s start t now old begun = old
Since-IsWithin limits s start t now old (uploads {u} {at = at} c body fresh _ before le h) =
    upload_blob-IsWithin limits u c body fresh now h (
      later-IsWithin limits at now u.restore_blobs le
        (Since-IsWithin limits s start u at old before))
Since-IsWithin limits s start t now old (deletes {u} {at = at} c blob_id _ before le h) =
    delete_blob-IsWithin limits u c blob_id now h (
      later-IsWithin limits at now u.restore_blobs le
        (Since-IsWithin limits s start u at old before))
Since-IsWithin limits s start t now old (purges {u} {at = at} _ before le) =
    deleted-IsWithin limits now (λ (b : RestoreBlob). leb b.expires_at now) u.restore_blobs
      (later-IsWithin limits at now u.restore_blobs le
        (Since-IsWithin limits s start u at old before))
Since-IsWithin limits s start t now old (other {u} {at = at} _ before le kept) = rw kept (
    later-IsWithin limits at now u.restore_blobs le (Since-IsWithin limits s start u at old before))
