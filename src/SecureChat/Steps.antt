-- ===== src/SecureChat/Steps.antt =====
-- The requests of apps/secure-chat/src/routes/secure-chat.ts that write, as a step relation, and what
-- each writes of the log of commits and of the key packages (Steps.Changes). The transactions that order commits are
-- steps of their own too: a handler runs one with what it has read before other requests.
pub mod Changes
use mathlib.Core.Path.{subst}
use philosophy_app.Prelude.{
  ℕ, ◌≡◌, refl, ap, Bool, not, ◌&&◌, ◌||◌, ◌+◌, ◌==◌, ltb, find_row, Option, some, none, List,
}
use philosophy_app.Http.{
  Result, ok, err, ◌>>=◌, parse_body, guard, refuse, bind-ok, ok-injective, found_or,
  device_mismatch, epoch_out_of_range, database_error, not_admin, device_not_found,
  key_packages_exhausted,
}
use philosophy_app.Roles.{UuidText}
use philosophy_app.Access.{Ctx, require_auth}
use philosophy_app.SecureChat.{
  Device, KeyPackage, SecureTables, Limits, assert_size, get_my_device, get_secure_conversation,
  require_secure_member, assert_target_device_member,
}
use philosophy_app.SecureChat.Devices.{
  DeviceBody, register_device, revoke_device, PackageBody, insert_packages, publish_key_packages,
  assert_sizes, claimable, oldest, Claimed, spend, claim_key_package,
}
use philosophy_app.SecureChat.Groups.{
  AddBody, CommitBody, CreateBody, add_transaction, add_member, remove_transaction, remove_member,
  create_transaction, create_conversation, mark_read, assert_welcomes, assert_space_for, is_admin,
}
use philosophy_app.SecureChat.Messages.{MessageBody, send_message, epoch_window}
use philosophy_app.SecureChat.Couriers.{
  BackupBody, put_backup, BlobBody, upload_blob, delete_blob, purge_restore_blobs, insert_blob,
  owned_blob,
}

pub data Step (limits : Limits) (t : SecureTables) : SecureTables → Type 0 where
  registered :
      {t' : SecureTables} (c : Ctx) (body : Option DeviceBody) (fresh now : ℕ)
      → register_device limits t c body fresh now ≡ ok t'
      → Step limits t t'
  revoked :
      {t' : SecureTables} (c : Ctx) (device_id now : ℕ)
      → revoke_device t c device_id now ≡ ok t'
      → Step limits t t'
  published :
      {t' : SecureTables} (c : Ctx) (device_id : ℕ) (body : Option (List (ℕ × PackageBody)))
      (now : ℕ)
      → publish_key_packages limits t c device_id body now ≡ ok t'
      → Step limits t t'
  claimed :
      {t' : SecureTables} (c : Ctx) (device_id : ℕ) (locked : KeyPackage → Bool) (now : ℕ)
      (package_given : KeyPackage) (nudge : Option ℕ)
      → claim_key_package t c device_id locked now
        ≡ ok (record { tables = t'; key_package = package_given; nudge = nudge })
      → Step limits t t'
  backed_up :
      {t' : SecureTables} (c : Ctx) (body : Option BackupBody) (fresh : ℕ)
      → put_backup limits t c body fresh ≡ ok t'
      → Step limits t t'
  uploaded :
      {t' : SecureTables} (c : Ctx) (body : Option BlobBody) (fresh now : ℕ)
      → upload_blob limits t c body fresh now ≡ ok t'
      → Step limits t t'
  deleted :
      {t' : SecureTables} (c : Ctx) (blob_id : ℕ)
      → delete_blob t c blob_id ≡ ok t'
      → Step limits t t'
  purged : (now : ℕ) → Step limits t (purge_restore_blobs t now)
  created :
      {t' : SecureTables} (c : Ctx) (body : Option CreateBody) (fresh now : ℕ)
      → create_conversation limits t c body fresh now ≡ ok t'
      → Step limits t t'
  added :
      {t' : SecureTables} (c : Ctx) (id : ℕ) (body : Option AddBody)
      → add_member limits t c id body ≡ ok t'
      → Step limits t t'
  raced_add :
      {t' : SecureTables} (project_id id : ℕ) (body : AddBody) (bytes : ℕ)
      → add_transaction t project_id id body bytes ≡ ok t'
      → Step limits t t'
  removed :
      {t' : SecureTables} (c : Ctx) (id : ℕ) (target : UuidText) (body : Option CommitBody)
      (now : ℕ)
      → remove_member limits t c id target body now ≡ ok t'
      → Step limits t t'
  raced_remove :
      {t' : SecureTables} (project_id id target epoch bytes now : ℕ)
      → remove_transaction t project_id id target epoch bytes now ≡ ok t'
      → Step limits t t'
  marked :
      {t' : SecureTables} (c : Ctx) (id now : ℕ) → mark_read t c id now ≡ ok t' → Step limits t t'
  sent :
      {t' : SecureTables} (c : Ctx) (id : ℕ) (body : Option MessageBody) (fresh now : ℕ)
      → send_message limits t c id body fresh now ≡ ok t'
      → Step limits t t'

pub data Reach (limits : Limits) (t : SecureTables) : SecureTables → Type 0 where
  here : Reach limits t t
  next : {u v : SecureTables} → Reach limits t u → Step limits u v → Reach limits t v
