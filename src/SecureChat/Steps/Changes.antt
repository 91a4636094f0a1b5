-- ===== src/SecureChat/Steps/Changes.antt =====
-- What each writing request of apps/secure-chat/src/routes/secure-chat.ts changes of the log of commits
-- and of the key packages.
use mathlib.Core.Path.{subst}
use philosophy_app.Prelude.{
  ℕ, ◌≡◌, refl, ap, Bool, not, ◌&&◌, ◌||◌, ◌+◌, ◌==◌, ltb, find_row, Option, List,
}
use philosophy_app.Http.{
  ok, parse_body, guard, refuse, bind-ok, ok-injective, found_or, device_mismatch,
  epoch_out_of_range, database_error, not_admin, device_not_found, key_packages_exhausted,
}
use philosophy_app.Roles.{UuidText, printed, text_eq}
use philosophy_app.Access.{Ctx, require_auth}
use philosophy_app.SecureChat.{
  Device, KeyPackage, SecureTables, Limits, assert_size, get_my_device, get_secure_conversation,
  require_secure_member, assert_target_device_member, my_device, live_device, int8_limit,
  RestoreBlob,
}
use philosophy_app.SecureChat.Devices.{
  DeviceBody, register_device, revoke_device, PackageBody, insert_packages, publish_key_packages,
  assert_sizes, claimable, oldest, Claimed, spend, claim_key_package,
}
use philosophy_app.SecureChat.Groups.{
  AddBody, CommitBody, CreateBody, add_transaction, add_member, remove_transaction, remove_member,
  create_transaction, create_conversation, mark_read, assert_welcomes, assert_space_for, is_admin,
}
use philosophy_app.SecureChat.Messages.{MessageBody, send_message, epoch_window}
use philosophy_app.SecureChat.Couriers.{
  BackupBody, put_backup, BlobBody, upload_blob, delete_blob, purge_restore_blobs, insert_blob,
  owned_blob,
}
use philosophy_app.SecureChat.Steps.{
  Step, registered, revoked, published, claimed, backed_up, uploaded, deleted, purged, created,
  added, raced_add, removed, raced_remove, marked, sent,
}

-- The conversations and the log of handshakes are as before.
pub record SameLog (t t' : SecureTables) : Type 0 where
  pub conversations_kept : t'.conversations ≡ t.conversations
  pub handshakes_kept : t'.handshakes ≡ t.handshakes
  pub next_seq_kept : t'.next_seq ≡ t.next_seq

abbrev pub SameKeys : SecureTables → SecureTables → Type 0
SameKeys t t' = t'.key_packages ≡ t.key_packages

-- What a step does to the log and to the key packages.
pub data Change (t : SecureTables) : SecureTables → Type 0 where
  aside : {t' : SecureTables} → SameLog t t' → SameKeys t t' → Change t t'
  stocked :
      {t' : SecureTables} (dev : Device) (now : ℕ) (packages : List (ℕ × PackageBody))
      → insert_packages dev now packages t.key_packages ≡ ok t'.key_packages
      → SameLog t t'
      → Change t t'
  spent : (user_id now : ℕ) (r : KeyPackage) → Change t (spend t user_id now r)
  opened :
      {t' : SecureTables} (project_id me : ℕ) (body : CreateBody) (fresh now : ℕ)
      → create_transaction t project_id me body fresh now ≡ ok t'
      → Change t t'
  grew :
      {t' : SecureTables} (project_id id : ℕ) (body : AddBody) (bytes : ℕ)
      → add_transaction t project_id id body bytes ≡ ok t'
      → Change t t'
  shrank :
      {t' : SecureTables} (project_id id target epoch bytes now : ℕ)
      → remove_transaction t project_id id target epoch bytes now ≡ ok t'
      → Change t t'

finish : (t : SecureTables) {s t' : SecureTables} → ok s ≡ ok t' → Change t s → Change t t'
finish t h made = let same = ok-injective h in subst (Change t) same made

-- Each handler by what it writes.
module _ (limits : Limits) (t : SecureTables) (c : Ctx) where
  register-Change :
      {t' : SecureTables} (body : Option DeviceBody) (fresh now : ℕ)
      → register_device limits t c body fresh now ≡ ok t'
      → Change t t'
  unfolding register_device
  register-Change body fresh now h0 =
      let (auth, from0, h1) = bind-ok (require_auth c) _ h0 in
      let (device, from1, h2) = bind-ok (parse_body body) _ h1 in
      let (sig, from2, h3) =
        bind-ok (assert_size device.signature_public_key limits.max_handshake_bytes) _ h2 in
      let (cred, from3, h4) =
        bind-ok (assert_size device.credential limits.max_handshake_bytes) _ h3 in
      finish t h4 (
        aside (record { conversations_kept = refl; handshakes_kept = refl; next_seq_kept = refl })
          refl)

  revoke-Change :
      {t' : SecureTables} (device_id now : ℕ)
      → revoke_device t c device_id now ≡ ok t'
      → Change t t'
  unfolding revoke_device
  revoke-Change device_id now h0 =
      let (auth, from0, h1) = bind-ok (require_auth c) _ h0 in
      let (dev, from1, h2) = bind-ok (get_my_device t c.project_id auth.user_id device_id) _ h1 in
      finish t h2 (
        aside (record { conversations_kept = refl; handshakes_kept = refl; next_seq_kept = refl })
          refl)

  backup-Change :
      {t' : SecureTables} (body : Option BackupBody) (fresh : ℕ)
      → put_backup limits t c body fresh ≡ ok t'
      → Change t t'
  unfolding put_backup
  backup-Change body fresh h0 =
      let (auth, from0, h1) = bind-ok (require_auth c) _ h0 in
      let (request, from1, h2) = bind-ok (parse_body body) _ h1 in
      let (blob, from2, h3) = bind-ok (assert_size request.blob limits.max_handshake_bytes) _ h2 in
      finish t h3 (
        aside (record { conversations_kept = refl; handshakes_kept = refl; next_seq_kept = refl })
          refl)

  upload-Change :
      {t' : SecureTables} (body : Option BlobBody) (fresh now : ℕ)
      → upload_blob limits t c body fresh now ≡ ok t'
      → Change t t'
  unfolding upload_blob
  upload-Change body fresh now h0 =
      let (auth, from0, h1) = bind-ok (require_auth c) _ h0 in
      let (request, from1, h2) = bind-ok (parse_body body) _ h1 in
      let (from, from2, h3) =
        bind-ok (get_my_device t c.project_id auth.user_id request.from_device_id) _ h2 in
      let (caller, from3, h4) =
        bind-ok (require_secure_member t c.project_id request.conversation_id auth.user_id) _ h3 in
      let (u, from4, h5) =
        bind-ok {A = Unit}
          (assert_target_device_member t c.project_id request.conversation_id
            request.target_device_id)
          _ h4 in
      let (bytes, from5, h6) =
        bind-ok (assert_size request.blob limits.max_restore_blob_bytes) _ h5 in
      let (rows, from6, h7) =
        bind-ok
          (insert_blob limits t.restore_blobs c.project_id request bytes fresh now t.restore_blobs)
          _ h6 in
      finish t h7 (
        aside (record { conversations_kept = refl; handshakes_kept = refl; next_seq_kept = refl })
          refl)

  delete-Change : {t' : SecureTables} (blob_id : ℕ) → delete_blob t c blob_id ≡ ok t' → Change t t'
  unfolding delete_blob
  delete-Change blob_id h0 =
      let (auth, from0, h1) = bind-ok (require_auth c) _ h0 in
      let (row, from1, h2) =
        bind-ok
          (owned_blob t c.project_id auth.user_id (
            find_row (λ (b : RestoreBlob). b.project_id == c.project_id && b.id == blob_id)
              t.restore_blobs))
          _ h1 in
      finish t h2 (
        aside (record { conversations_kept = refl; handshakes_kept = refl; next_seq_kept = refl })
          refl)

  mark-Change : {t' : SecureTables} (id now : ℕ) → mark_read t c id now ≡ ok t' → Change t t'
  unfolding mark_read
  mark-Change id now h0 =
      let (auth, from0, h1) = bind-ok (require_auth c) _ h0 in
      let (convo, from1, h2) = bind-ok (get_secure_conversation t c.project_id id) _ h1 in
      let (caller, from2, h3) =
        bind-ok (require_secure_member t c.project_id convo.id auth.user_id) _ h2 in
      finish t h3 (
        aside (record { conversations_kept = refl; handshakes_kept = refl; next_seq_kept = refl })
          refl)

  send-Change :
      {t' : SecureTables} (id : ℕ) (body : Option MessageBody) (fresh now : ℕ)
      → send_message limits t c id body fresh now ≡ ok t'
      → Change t t'
  unfolding send_message
  send-Change id body fresh now h0 =
      let (auth, from0, h1) = bind-ok (require_auth c) _ h0 in
      let (convo, from1, h2) = bind-ok (get_secure_conversation t c.project_id id) _ h1 in
      let (caller, from2, h3) =
        bind-ok (require_secure_member t c.project_id convo.id auth.user_id) _ h2 in
      let (request, from3, h4) = bind-ok (parse_body body) _ h3 in
      let (dev, from4, h5) =
        bind-ok
          (found_or device_mismatch
            (find_row (my_device c.project_id auth.user_id request.sender_device_id) t.devices))
          _ h4 in
      let (u, from5, h6) =
        bind-ok {A = Unit}
          (refuse (ltb (convo.current_epoch + epoch_window) request.epoch) epoch_out_of_range) _
          h5 in
      let (bytes, from6, h7) =
        bind-ok (assert_size request.ciphertext limits.max_message_bytes) _ h6 in
      let (u, from7, h8) =
        bind-ok {A = Unit} (guard (ltb request.epoch int8_limit) database_error) _ h7 in
      finish t h8 (
        aside (record { conversations_kept = refl; handshakes_kept = refl; next_seq_kept = refl })
          refl)

  publish-Change :
      {t' : SecureTables} (device_id : ℕ) (body : Option (List (ℕ × PackageBody))) (now : ℕ)
      → publish_key_packages limits t c device_id body now ≡ ok t'
      → Change t t'
  unfolding publish_key_packages
  publish-Change device_id body now h0 =
      let (auth, from0, h1) = bind-ok (require_auth c) _ h0 in
      let (dev, from1, h2) = bind-ok (get_my_device t c.project_id auth.user_id device_id) _ h1 in
      let (packages, from2, h3) = bind-ok (parse_body body) _ h2 in
      let (u, from3, h4) = bind-ok {A = Unit} (assert_sizes limits packages) _ h3 in
      let (rows, from4, h5) = bind-ok (insert_packages dev now packages t.key_packages) _ h4 in
      finish t h5 (
        stocked dev now packages from4
          (record { conversations_kept = refl; handshakes_kept = refl; next_seq_kept = refl }))

  create-Change :
      {t' : SecureTables} (body : Option CreateBody) (fresh now : ℕ)
      → create_conversation limits t c body fresh now ≡ ok t'
      → Change t t'
  unfolding create_conversation
  create-Change body fresh now h0 =
      let (auth, from0, h1) = bind-ok (require_auth c) _ h0 in
      let (request, from1, h2) = bind-ok (parse_body body) _ h1 in
      let (u, from2, h3) =
        bind-ok {A = Unit} (assert_space_for t c.project_id auth.user_id request) _ h2 in
      let (u, from3, h4) = bind-ok {A = Unit} (assert_welcomes limits request.welcomes) _ h3 in
      opened c.project_id auth.user_id request fresh now h4

  add-Change :
      {t' : SecureTables} (id : ℕ) (body : Option AddBody)
      → add_member limits t c id body ≡ ok t'
      → Change t t'
  unfolding add_member
  add-Change id body h0 =
      let (auth, from0, h1) = bind-ok (require_auth c) _ h0 in
      let (convo, from1, h2) = bind-ok (get_secure_conversation t c.project_id id) _ h1 in
      let (caller, from2, h3) =
        bind-ok (require_secure_member t c.project_id convo.id auth.user_id) _ h2 in
      let (u, from3, h4) = bind-ok {A = Unit} (guard (is_admin caller) not_admin) _ h3 in
      let (request, from4, h5) = bind-ok (parse_body body) _ h4 in
      let (bytes, from5, h6) =
        bind-ok (assert_size request.commit_body.payload limits.max_handshake_bytes) _ h5 in
      let (u, from6, h7) = bind-ok {A = Unit} (assert_welcomes limits request.welcomes) _ h6 in
      grew c.project_id convo.id request bytes h7

  remove-Change :
      {t' : SecureTables} (id : ℕ) (target : UuidText) (body : Option CommitBody) (now : ℕ)
      → remove_member limits t c id target body now ≡ ok t'
      → Change t t'
  unfolding remove_member
  remove-Change id target body now h0 =
      let (auth, from0, h1) = bind-ok (require_auth c) _ h0 in
      let (convo, from1, h2) = bind-ok (get_secure_conversation t c.project_id id) _ h1 in
      let (caller, from2, h3) =
        bind-ok (require_secure_member t c.project_id convo.id auth.user_id) _ h2 in
      let (u, from3, h4) =
        bind-ok {A = Unit}
          (guard (text_eq target (printed auth.user_id) || is_admin caller) not_admin) _ h3 in
      let (request, from4, h5) = bind-ok (parse_body body) _ h4 in
      let (bytes, from5, h6) =
        bind-ok (assert_size request.payload limits.max_handshake_bytes) _ h5 in
      shrank c.project_id convo.id target.uuid request.epoch bytes now h6

  claim-Change :
      {t' : SecureTables} (device_id : ℕ) (locked : KeyPackage → Bool) (now : ℕ)
      (given : KeyPackage) (nudge : Option ℕ)
      → claim_key_package t c device_id locked now
        ≡ ok (record { tables = t'; key_package = given; nudge = nudge })
      → Change t t'
  unfolding claim_key_package
  claim-Change device_id locked now given nudge h0 =
      let (auth, from0, h1) = bind-ok (require_auth c) _ h0 in
      let (dev, from1, h2) =
        bind-ok
          (found_or device_not_found (find_row (live_device c.project_id device_id) t.devices)) _
          h1 in
      let (r, from2, h3) =
        bind-ok
          (found_or key_packages_exhausted (
            oldest (λ (r : KeyPackage). claimable device_id now r && not (locked r))
              t.key_packages))
          _ h2 in
      subst (Change t) (ap (λ (x : Claimed). x.tables) (ok-injective h3)) (spent auth.user_id now r)

pub Step-Change :
    (limits : Limits) (t : SecureTables) {t' : SecureTables} → Step limits t t' → Change t t'
unfolding purge_restore_blobs
Step-Change limits t (registered c body fresh now h) = register-Change limits t c body fresh now h
Step-Change limits t (revoked c device_id now h) = revoke-Change limits t c device_id now h
Step-Change limits t (published c device_id body now h) =
    publish-Change limits t c device_id body now h
Step-Change limits t (claimed c device_id locked now given nudge h) =
    claim-Change limits t c device_id locked now given nudge h
Step-Change limits t (backed_up c body fresh h) = backup-Change limits t c body fresh h
Step-Change limits t (uploaded c body fresh now h) = upload-Change limits t c body fresh now h
Step-Change limits t (deleted c blob_id h) = delete-Change limits t c blob_id h
Step-Change limits t (purged now) =
    aside (record { conversations_kept = refl; handshakes_kept = refl; next_seq_kept = refl }) refl
Step-Change limits t (created c body fresh now h) = create-Change limits t c body fresh now h
Step-Change limits t (added c id body h) = add-Change limits t c id body h
Step-Change limits t (raced_add project_id id body bytes h) = grew project_id id body bytes h
Step-Change limits t (removed c id target body now h) =
    remove-Change limits t c id target body now h
Step-Change limits t (raced_remove project_id id target epoch bytes now h) =
    shrank project_id id target epoch bytes now h
Step-Change limits t (marked c id now h) = mark-Change limits t c id now h
Step-Change limits t (sent c id body fresh now h) = send-Change limits t c id body fresh now h
