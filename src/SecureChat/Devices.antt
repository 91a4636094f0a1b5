-- ===== src/SecureChat/Devices.antt =====
-- Devices and one-time key packages: the handlers under `/devices` of
-- apps/secure-chat/src/routes/secure-chat.ts. An id in a request's list of packages is the one that the
-- database draws for the row. The answer of a handler that only writes is left out.
use philosophy_app.Prelude.{
  ℕ, Bool, true, ◌&&◌, Option, none, some, List, [], ◌∷◌, ◌==◌, ltb, if◌then◌else◌, has_row,
  find_row, update_rows, select_rows, count_rows, is_none, not,
}
use philosophy_app.Http.{
  device_not_found, key_packages_exhausted, database_error, missing_user, Result, ok, ◌>>=◌, ◌>>◌,
  refuse, found_or, parse_body,
}
use philosophy_app.Access.{Ctx, require_auth}
use philosophy_app.SecureChat.{
  Device, KeyPackage, SecureTables, Limits, Payload, assert_size, live_device, get_my_device,
}

pub record DeviceBody : Type 0 where
  pub device_id : ℕ
  pub display_name : Option ℕ
  pub signature_public_key : Payload
  pub credential : Payload
  pub ciphersuite : ℕ

abbrev pub registered_as : ℕ → ℕ → Device → Bool
registered_as user_id device_id d = d.user_id == user_id && d.device_id == device_id

-- `insert … on conflict (user_id, device_id) do update`
unfoldable pub upsert_device : ℕ → ℕ → DeviceBody → ℕ → ℕ → ℕ → ℕ → List Device → List Device
upsert_device project_id me body sig cred fresh now rows =
    if has_row (registered_as me body.device_id) rows
    then update_rows (registered_as me body.device_id)
        (λ (d : Device). record d {
          signature_public_key = sig;
          credential = cred;
          ciphersuite = body.ciphersuite;
          display_name = body.display_name;
          revoked_at = none;
        })
        rows
    else record {
      id = fresh;
      project_id = project_id;
      user_id = me;
      device_id = body.device_id;
      display_name = body.display_name;
      signature_public_key = sig;
      credential = cred;
      ciphersuite = body.ciphersuite;
      revoked_at = none;
      created_at = now;
    }
      ∷ rows

-- `POST /devices`
unfoldable pub register_device :
    Limits → SecureTables → Ctx → Option DeviceBody → ℕ → ℕ → Result SecureTables
unfolding upsert_device assert_size
register_device limits t c body fresh now = do
  auth ← require_auth c
  device ← parse_body body
  sig ← assert_size device.signature_public_key limits.max_handshake_bytes
  cred ← assert_size device.credential limits.max_handshake_bytes
  ok (record t {
    devices = upsert_device c.project_id auth.user_id device sig cred fresh now t.devices;
  })

-- `GET /devices`, in no particular order.
unfoldable pub get_devices : SecureTables → Ctx → Option ℕ → Result (List Device)
get_devices t c user_id = do
  auth ← require_auth c
  user ← found_or missing_user user_id
  ok (
      select_rows
        (λ (d : Device).
          d.project_id == c.project_id && (d.user_id == user && is_none d.revoked_at))
        t.devices)

-- `DELETE /devices/:deviceId`
unfoldable pub revoke_device : SecureTables → Ctx → ℕ → ℕ → Result SecureTables
unfolding get_my_device
revoke_device t c device_id now = do
  auth ← require_auth c
  dev ← get_my_device t c.project_id auth.user_id device_id
  ok (record t {
    devices =
        update_rows (λ (d : Device). d.id == dev.id)
          (λ (d : Device). record d { revoked_at = some now }) t.devices;
  })

pub record PackageBody : Type 0 where
  pub key_package_ref : ℕ
  pub key_package : Payload
  pub ciphersuite : ℕ
  pub expires_at : Option ℕ

-- `body.keyPackages.map`, which throws at the first package that is too large.
unfoldable pub assert_sizes : Limits → List (ℕ × PackageBody) → Result (Unit {0})
assert_sizes limits [] = ok tt
assert_sizes limits ((id, kp) ∷ rest) = do
  bytes ← assert_size kp.key_package limits.max_handshake_bytes
  assert_sizes limits rest

abbrev pub same_ref : ℕ → ℕ → KeyPackage → Bool
same_ref device_id ref r = r.device_id == device_id && r.key_package_ref == ref

abbrev pub package_id : ℕ → KeyPackage → Bool
package_id id r = r.id == id

-- `insert … on conflict (device_id, key_package_ref) do nothing`, for one package. A primary key that
-- is taken fails.
unfoldable pub insert_package :
    Device → ℕ → ℕ → PackageBody → List KeyPackage → Result (List KeyPackage)
insert_package dev now id kp rows =
    if has_row (same_ref dev.id kp.key_package_ref) rows then ok rows else do
      refuse (has_row (package_id id) rows) database_error
      ok (
          record {
            id = id;
            project_id = dev.project_id;
            device_id = dev.id;
            key_package_ref = kp.key_package_ref;
            key_package = kp.key_package.bytes;
            ciphersuite = kp.ciphersuite;
            consumed_at = none;
            consumed_by_user_id = none;
            expires_at = kp.expires_at;
            created_at = now;
          }
          ∷ rows)

unfoldable pub insert_packages :
    Device → ℕ → List (ℕ × PackageBody) → List KeyPackage → Result (List KeyPackage)
insert_packages dev now [] rows = ok rows
insert_packages dev now ((id, kp) ∷ rest) rows = do
  grown ← insert_package dev now id kp rows
  insert_packages dev now rest grown

-- `POST /devices/:deviceId/key-packages`
unfoldable pub publish_key_packages :
    Limits → SecureTables → Ctx → ℕ → Option (List (ℕ × PackageBody)) → ℕ → Result SecureTables
unfolding get_my_device assert_sizes insert_packages
publish_key_packages limits t c device_id body now = do
  auth ← require_auth c
  dev ← get_my_device t c.project_id auth.user_id device_id
  packages ← parse_body body
  assert_sizes limits packages
  rows ← insert_packages dev now packages t.key_packages
  ok (record t { key_packages = rows })

abbrev pub unexpired : ℕ → Option ℕ → Bool
unexpired now none = true
unexpired now (some expires_at) = ltb now expires_at

-- A package that can be claimed: not consumed and not expired.
abbrev pub claimable : ℕ → ℕ → KeyPackage → Bool
claimable device_id now r =
    r.device_id == device_id && (is_none r.consumed_at && unexpired now r.expires_at)

-- `GET /devices/:deviceId/key-packages/count`
unfoldable pub count_key_packages : SecureTables → Ctx → ℕ → ℕ → Result ℕ
unfolding get_my_device
count_key_packages t c device_id now = do
  auth ← require_auth c
  dev ← get_my_device t c.project_id auth.user_id device_id
  ok (count_rows (claimable dev.id now) t.key_packages)

abbrev pub older : KeyPackage → Option KeyPackage → KeyPackage
older r none = r
older r (some s) = if ltb r.created_at s.created_at then r else s

-- `order by created_at asc limit 1`. Among packages of one time the database may choose another.
unfoldable pub oldest : (KeyPackage → Bool) → List KeyPackage → Option KeyPackage
oldest p [] = none
oldest p (r ∷ rs) = let rest = oldest p rs in if p r then some (older r rest) else rest

abbrev pub consume : ℕ → ℕ → KeyPackage → KeyPackage
consume user_id now r = record r { consumed_at = some now; consumed_by_user_id = some user_id }

abbrev pub key_package_low_water : ℕ
key_package_low_water = 5

-- What a claim leaves: the tables, the package, and the count that its device is told when it is low.
pub record Claimed : Type 0 where
  pub tables : SecureTables
  pub key_package : KeyPackage
  pub nudge : Option ℕ

abbrev pub spend : SecureTables → ℕ → ℕ → KeyPackage → SecureTables
spend t user_id now r = record t {
  key_packages = update_rows (package_id r.id) (consume user_id now) t.key_packages;
}

abbrev pub low_nudge : ℕ → Option ℕ
low_nudge available = if ltb available key_package_low_water then some available else none

-- `POST /devices/:deviceId/key-packages/claim`. `locked` holds of the rows that other transactions have
-- locked: `skip locked` passes over them.
unfoldable pub claim_key_package : SecureTables → Ctx → ℕ → (KeyPackage → Bool) → ℕ → Result Claimed
unfolding oldest
claim_key_package t c device_id locked now = do
  auth ← require_auth c
  dev ← found_or device_not_found (find_row (live_device c.project_id device_id) t.devices)
  r ←
      found_or key_packages_exhausted
        (oldest (λ (r : KeyPackage). claimable device_id now r && not (locked r)) t.key_packages)
  let spent = spend t auth.user_id now r
  ok (record {
    tables = spent;
    key_package = consume auth.user_id now r;
    nudge = low_nudge (count_rows (claimable device_id now) spent.key_packages);
  })
