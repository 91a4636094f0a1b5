-- ===== src/SecureChat/Epochs/Order.antt =====
-- Which commits a conversation accepts: the guard on `currentEpoch` in
-- apps/secure-chat/src/routes/secure-chat.ts.
use mathlib.Core.Path.{subst}
use philosophy_app.Prelude.{
  has_row-update_rows, ℕ, ◌≤◌, ◌<◌, ◌≡◌, refl, sym, ◌∙◌, inl, inr, Bool, true, false, List, [], ◌∷◌,
  arith, ltb, Bool-cases, has_row, update_rows, All, All-update_rows,
}
use philosophy_app.Http.{err, ok, guard, bind-ok, guard-ok, epoch_conflict, database_error}
use philosophy_app.SecureChat.{Conversation, SecureTables, Limits, int8_limit}
use philosophy_app.SecureChat.Groups.{
  AddBody, bump_epoch, one_behind, conversation_id_is, add_transaction, remove_transaction,
}
use philosophy_app.SecureChat.Steps.{Reach, here, next}
use philosophy_app.SecureChat.Steps.Changes.{
  Change, SameLog, aside, stocked, spent, opened, grew, shrank, Step-Change,
}
use philosophy_app.SecureChat.Epochs.Linear.{IsLinear, every_one_behind}
use philosophy_app.SecureChat.Epochs.{
  set_epoch, Advance, Opening, create-Opening, add-Advance, remove-Advance,
}

-- The conversation exists and has reached the epoch.
pub record Passed (id e : ℕ) (t : SecureTables) : Type 0 where
  pub exists : has_row (conversation_id_is id) t.conversations ≡ true
  pub at_least :
      All
        (λ (r : Conversation). conversation_id_is id r ≡ true → e ≤ r.current_epoch)
        t.conversations

Advance-Passed : (id e : ℕ) (t t' : SecureTables) → Advance t t' → Passed id e t → Passed id e t'
Advance-Passed id e t t' a old = record {
  exists =
      rw
        (
          a.advanced,
          has_row-update_rows (conversation_id_is id) (one_behind a.id a.epoch) (set_epoch a.epoch)
              t.conversations (λ x. refl),
        )
        old.exists;
  at_least = rw a.advanced (
      All-update_rows _ (one_behind a.id a.epoch) (set_epoch a.epoch) t.conversations
        (λ x behind below mine. let reached = below mine in ground arith) old.at_least);
}

clash :
    (id : ℕ) (new : Conversation) (rows : List Conversation) {A : Type 0}
    → conversation_id_is id new ≡ true
    → has_row (conversation_id_is new.id) rows ≡ false
    → has_row (conversation_id_is id) rows ≡ true
    → A
clash id new rows mine absent exists =
    let here : new.id ≡ id = ground arith in
    let gone = subst (λ i. has_row (conversation_id_is i) rows ≡ false) here absent in
    absurd (cc (sym gone ∙ exists))

Opening-Passed : (id e : ℕ) (t t' : SecureTables) → Opening t t' → Passed id e t → Passed id e t'
Opening-Passed id e t t' o old = record {
  exists = rw (o.inserted, old.exists) (ground arith);
  at_least =
      rw o.inserted
        ((λ mine. clash id o.new t.conversations mine o.absent old.exists), old.at_least);
}

SameLog-Passed : (id e : ℕ) (t t' : SecureTables) → SameLog t t' → Passed id e t → Passed id e t'
SameLog-Passed id e t t' same old = record {
  exists = rw same.conversations_kept old.exists;
  at_least = rw same.conversations_kept old.at_least;
}

Change-Passed : (id e : ℕ) (t t' : SecureTables) → Change t t' → Passed id e t → Passed id e t'
Change-Passed id e t t' (aside same keys) old = SameLog-Passed id e t t' same old
Change-Passed id e t t' (stocked dev now packages h same) old = SameLog-Passed id e t t' same old
Change-Passed id e t t' (spent user_id now r) old = record {
  exists = old.exists;
  at_least = old.at_least;
}
Change-Passed id e t t' (opened project_id me body fresh now h) old =
    Opening-Passed id e t t' (create-Opening t project_id me body fresh now h) old
Change-Passed id e t t' (grew project_id id' body bytes h) old =
    Advance-Passed id e t t' (add-Advance t project_id id' body bytes h) old
Change-Passed id e t t' (shrank project_id id' target e' bytes now h) old =
    Advance-Passed id e t t' (remove-Advance t project_id id' target e' bytes now h) old

Reach-Passed :
    (limits : Limits) (id e : ℕ) (s t : SecureTables)
    → Reach limits s t
    → Passed id e s
    → Passed id e t
Reach-Passed limits id e s t here old = old
Reach-Passed limits id e s t (next {u} steps last) old =
    Change-Passed id e u t (Step-Change limits u last) (Reach-Passed limits id e s u steps old)

-- A commit of the epoch that a transaction has accepted.
pub data Accepted (t : SecureTables) (id e : ℕ) : SecureTables → Type 0 where
  by_add :
      {t' : SecureTables} (project_id : ℕ) (body : AddBody) (bytes : ℕ)
      → body.commit_body.epoch ≡ e
      → add_transaction t project_id id body bytes ≡ ok t'
      → Accepted t id e t'
  by_remove :
      {t' : SecureTables} (project_id target bytes now : ℕ)
      → remove_transaction t project_id id target e bytes now ≡ ok t'
      → Accepted t id e t'

bumped_at_least :
    (id e : ℕ) (rows : List Conversation)
    → All (λ (r : Conversation). conversation_id_is id r ≡ true → one_behind id e r ≡ true) rows
    → All
        (λ (r : Conversation). conversation_id_is id r ≡ true → e ≤ r.current_epoch)
        (update_rows (one_behind id e) (set_epoch e) rows)
bumped_at_least id e [] a = tt
bumped_at_least id e (x ∷ xs) (at, later) = elim (Bool-cases (one_behind id e x)) [
  | inl behind ↦ rw behind ((λ mine. omega arith), bumped_at_least id e xs later)
  | inr off ↦ rw off ((λ mine. absurd (cc (sym off ∙ at mine))), bumped_at_least id e xs later)
]

has_row_weaker :
    (p q : Conversation → Bool) (xs : List Conversation)
    → ((x : Conversation) → p x ≡ true → q x ≡ true)
    → has_row p xs ≡ true
    → has_row q xs ≡ true
has_row_weaker p q [] w h = h
has_row_weaker p q (x ∷ xs) w h = elim (Bool-cases (p x)) [
  | inl holds ↦ rw (w x holds)
  | inr fails ↦ rw (has_row_weaker p q xs w (rw fails at h)) (ground arith)
]

Advance-reached : (t t' : SecureTables) (a : Advance t t') → IsLinear t → Passed a.id a.epoch t'
Advance-reached t t' a old = record {
  exists =
      rw
        (
          a.advanced,
          has_row-update_rows (conversation_id_is a.id) (one_behind a.id a.epoch)
              (set_epoch a.epoch) t.conversations (λ x. refl),
        )
        (has_row_weaker (one_behind a.id a.epoch) (conversation_id_is a.id) t.conversations
          (λ x h. ground arith) a.behind);
  at_least = rw a.advanced (
      bumped_at_least a.id a.epoch t.conversations
        (every_one_behind t.conversations a.id a.epoch (old.unique a.id) a.behind));
}

none_behind :
    (id e e' : ℕ) (rows : List Conversation)
    → e' ≤ e
    → All (λ (r : Conversation). conversation_id_is id r ≡ true → e ≤ r.current_epoch) rows
    → has_row (one_behind id e') rows ≡ false
none_behind id e e' [] le a = refl
none_behind id e e' (x ∷ xs) le (at, later) = elim (Bool-cases (conversation_id_is id x)) [
  | inl mine ↦ let reached = at mine in rw (none_behind id e e' xs le later) (ground arith)
  | inr other ↦ rw (other, none_behind id e e' xs le later)
]

stale_bump :
    (u : SecureTables) (id e e' : ℕ)
    → Passed id e u
    → e' ≤ e
    → e' < int8_limit
    → bump_epoch u id e' ≡ err epoch_conflict
unfolding bump_epoch
stale_bump u id e e' passed le fits =
    let fits' : ltb e' int8_limit ≡ true = ground arith in
    rw (fits', none_behind id e e' u.conversations le passed.at_least)

bump_fits :
    (t : SecureTables) (id e : ℕ) {b : SecureTables} → bump_epoch t id e ≡ ok b → e < int8_limit
unfolding bump_epoch
bump_fits t id e h =
    let (u, fits, h1) = bind-ok {A = Unit} (guard (ltb e int8_limit) database_error) _ h in
    let fits' : ltb e int8_limit ≡ true = guard-ok _ _ fits in ground arith

commit_reached :
    (t t' : SecureTables) (id e : ℕ)
    → IsLinear t
    → Accepted t id e t'
    → Passed id e t' × (e < int8_limit)
unfolding add_transaction remove_transaction add-Advance remove-Advance
commit_reached t t' id e old (by_add project_id body bytes at h) =
    let (b, stepped, h1) = bind-ok (bump_epoch t id body.commit_body.epoch) _ h in
    (
      subst (λ k. Passed id k t') at
          (Advance-reached t t' (add-Advance t project_id id body bytes h) old),
      omega (arith, bump_fits t id body.commit_body.epoch stepped),
    )
commit_reached t t' id e old (by_remove project_id target bytes now h) =
    let (b, stepped, h1) = bind-ok (bump_epoch t id e) _ h in
    (
      Advance-reached t t' (remove-Advance t project_id id target e bytes now h) old,
      bump_fits t id e stepped,
    )

-- Once a commit has been accepted for an epoch of a conversation, in every later state each commit of
-- that conversation for the same or an earlier epoch, be it to add or to remove, is answered by the
-- epoch conflict, so that of commits that race for one epoch one is accepted.
pub epoch_taken_once :
    (limits : Limits) (t t' u : SecureTables) (id e : ℕ)
    → IsLinear t
    → Accepted t id e t'
    → Reach limits t' u
    → (project_id bytes : ℕ) (body : AddBody) → body.commit_body.epoch ≤ e
    → (add_transaction u project_id id body bytes ≡ err epoch_conflict)
      × ((target now : ℕ)
          → remove_transaction u project_id id target body.commit_body.epoch bytes now
            ≡ err epoch_conflict)
unfolding add_transaction remove_transaction
epoch_taken_once limits t t' u id e old accepted steps project_id bytes body le =
    let (passed, fits) = commit_reached t t' id e old accepted in
    let refused =
      stale_bump u id e body.commit_body.epoch (Reach-Passed limits id e t' u steps passed) le
        (omega arith) in
    (rw refused, λ target now. rw refused)
