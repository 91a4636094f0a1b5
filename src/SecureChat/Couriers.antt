-- ===== src/SecureChat/Couriers.antt =====
-- Key backups and restore blobs: the handlers under `/key-backup` and `/restore-blobs` of
-- apps/secure-chat/src/routes/secure-chat.ts, and the purge of apps/secure-chat/src/app.ts.
use philosophy_app.Prelude.{
  ℕ, Bool, true, false, ◌&&◌, Option, none, some, List, ◌∷◌, ◌+◌, ◌*◌, ◌==◌, ltb, leb, find_row,
  update_rows, delete_rows, count_rows,
}
use philosophy_app.Http.{
  backup_not_found, restore_blob_not_found, rate_limited, Result, ok, err, ◌>>=◌, ◌>>◌, refuse,
  guard, found_or, parse_body,
}
use philosophy_app.Access.{Ctx, require_auth}
use philosophy_app.SecureChat.{
  KeyBackup, RestoreBlob, SecureTables, Limits, Payload, assert_size, get_my_device,
  caller_owns_device, require_secure_member, assert_target_device_member,
}

pub record BackupBody : Type 0 where
  pub device_id : Option ℕ
  pub blob : Payload
  pub nonce : Payload
  pub kdf : ℕ
  pub kdf_params : ℕ
  pub cipher : ℕ
  pub version : ℕ

-- `is not distinct from`
abbrev pub not_distinct : Option ℕ → Option ℕ → Bool
not_distinct none none = true
not_distinct (some a) (some b) = a == b
not_distinct _ _ = false

abbrev pub backup_of : ℕ → ℕ → Option ℕ → KeyBackup → Bool
backup_of project_id user_id device_id b =
    b.project_id == project_id && (b.user_id == user_id && not_distinct b.device_id device_id)

-- `PUT /key-backup`
unfoldable pub put_backup :
    Limits → SecureTables → Ctx → Option BackupBody → ℕ → Result SecureTables
unfolding assert_size
put_backup limits t c body fresh = do
  auth ← require_auth c
  request ← parse_body body
  blob ← assert_size request.blob limits.max_handshake_bytes
  let write = λ (b : KeyBackup). record b {
    blob = blob;
    nonce = request.nonce.bytes;
    kdf = request.kdf;
    kdf_params = request.kdf_params;
    cipher = request.cipher;
    version = request.version;
  }
  ok (record t {
    key_backups =
        elim (find_row (backup_of c.project_id auth.user_id request.device_id) t.key_backups) [
          | some existing ↦ update_rows (λ (b : KeyBackup). b.id == existing.id) write t.key_backups
          | none ↦
              record {
                id = fresh;
                project_id = c.project_id;
                user_id = auth.user_id;
                device_id = request.device_id;
                blob = blob;
                nonce = request.nonce.bytes;
                kdf = request.kdf;
                kdf_params = request.kdf_params;
                cipher = request.cipher;
                version = request.version;
              }
              ∷ t.key_backups
        ];
  })

-- `GET /key-backup`
unfoldable pub get_backup : SecureTables → Ctx → Option ℕ → Result KeyBackup
get_backup t c device_id = do
  auth ← require_auth c
  found_or backup_not_found (find_row (backup_of c.project_id auth.user_id device_id) t.key_backups)

pub record BlobBody : Type 0 where
  pub conversation_id : ℕ
  pub from_device_id : ℕ
  pub target_device_id : ℕ
  pub blob : Payload

abbrev pub outstanding_to : ℕ → ℕ → RestoreBlob → Bool
outstanding_to target_device_id now b =
    b.target_device_id == target_device_id && ltb now b.expires_at

abbrev pub outstanding_pair : ℕ → ℕ → ℕ → RestoreBlob → Bool
outstanding_pair from_device_id target_device_id now b =
    b.from_device_id == from_device_id && outstanding_to target_device_id now b

-- What the handler does after its checks on devices and members: the two quotas and the insert, with
-- the rows that the counts see and the rows that the insert finds.
unfoldable pub insert_blob :
    Limits
    → List RestoreBlob
    → ℕ
    → BlobBody
    → ℕ
    → ℕ
    → ℕ
    → List RestoreBlob
    → Result (List RestoreBlob)
insert_blob limits seen project_id body bytes fresh now rows = do
  refuse
      (leb limits.max_blobs_per_pair
        (count_rows (outstanding_pair body.from_device_id body.target_device_id now) seen))
      rate_limited
  refuse
      (leb limits.max_blobs_per_target (count_rows (outstanding_to body.target_device_id now) seen))
      rate_limited
  ok (
      record {
        id = fresh;
        project_id = project_id;
        conversation_id = body.conversation_id;
        from_device_id = body.from_device_id;
        target_device_id = body.target_device_id;
        blob = bytes;
        expires_at = now + limits.restore_blob_ttl * 1000;
      }
      ∷ rows)

-- `POST /restore-blobs`
unfoldable pub upload_blob :
    Limits → SecureTables → Ctx → Option BlobBody → ℕ → ℕ → Result SecureTables
unfolding get_my_device require_secure_member assert_target_device_member assert_size insert_blob
upload_blob limits t c body fresh now = do
  auth ← require_auth c
  request ← parse_body body
  from ← get_my_device t c.project_id auth.user_id request.from_device_id
  caller ← require_secure_member t c.project_id request.conversation_id auth.user_id
  assert_target_device_member t c.project_id request.conversation_id request.target_device_id
  bytes ← assert_size request.blob limits.max_restore_blob_bytes
  rows ← insert_blob limits t.restore_blobs c.project_id request bytes fresh now t.restore_blobs
  ok (record t { restore_blobs = rows })

abbrev pub owned_blob : SecureTables → ℕ → ℕ → Option RestoreBlob → Result RestoreBlob
owned_blob t project_id user_id none = err restore_blob_not_found
owned_blob t project_id user_id (some row) = do
  guard (caller_owns_device t project_id user_id row.target_device_id) restore_blob_not_found
  ok row

-- `GET /restore-blobs/:blobId`
unfoldable pub get_blob : SecureTables → Ctx → ℕ → ℕ → Result RestoreBlob
unfolding caller_owns_device
get_blob t c blob_id now = do
  auth ← require_auth c
  owned_blob t c.project_id auth.user_id (
      find_row
        (λ (b : RestoreBlob).
          b.project_id == c.project_id && (b.id == blob_id && ltb now b.expires_at))
        t.restore_blobs)

-- `DELETE /restore-blobs/:blobId`
unfoldable pub delete_blob : SecureTables → Ctx → ℕ → Result SecureTables
unfolding caller_owns_device
delete_blob t c blob_id = do
  auth ← require_auth c
  row ← owned_blob t c.project_id auth.user_id (
      find_row (λ (b : RestoreBlob). b.project_id == c.project_id && b.id == blob_id)
        t.restore_blobs)
  ok (record t {
    restore_blobs = delete_rows (λ (b : RestoreBlob). b.id == row.id) t.restore_blobs;
  })

-- `POST /internal/cron/purge-restore-blobs`, past the guard on the secret.
unfoldable pub purge_restore_blobs : SecureTables → ℕ → SecureTables
purge_restore_blobs t now = record t {
  restore_blobs = delete_rows (λ (b : RestoreBlob). leb b.expires_at now) t.restore_blobs;
}
