-- ===== src/Roles.antt =====
-- apps/api/src/lib/project-roles.ts and apps/api/src/routes/roles.ts: the grants of a project and
-- the 30 second cache of a profile's roles.
pub mod Owners
pub mod Cache
pub mod Staleness
use philosophy_app.Prelude.{
  ℕ, ◌+◌, ◌-◌, Bool, true, false, not, ◌&&◌, ◌||◌, Option, none, some, List, [], ◌∷◌, map, ltb, leb,
  ◌==◌, if◌then◌else◌, has_row, find_row, select_rows, delete_rows, length, is_some,
}
use philosophy_app.Http.{
  Failure, unauthorized, owner_only, admin_only, settings_read_only, roles_user_not_found,
  roles_invalid_user, roles_invalid_role, last_owner, invalid_body, Result, ok, err, ◌>>=◌, ◌>>◌,
  refuse, guard,
}
use philosophy_app.Auth.{AuthContext}

pub data ProjectRole : Type 0 where
  owner admin steward : ProjectRole

abbrev pub role_eq : ProjectRole → ProjectRole → Bool
role_eq owner owner = true
role_eq admin admin = true
role_eq steward steward = true
role_eq _ _ = false

-- A text that the uuid pattern accepts: the uuid that it denotes, and which spelling of it. The
-- database compares the uuid; JavaScript compares the text. Spelling 0 is the lower-case one, in
-- which the driver returns every uuid.
pub record UuidText : Type 0 where
  pub uuid : ℕ
  pub spelling : ℕ

abbrev pub printed : ℕ → UuidText
printed id = record { uuid = id; spelling = 0 }

-- `===` on two texts
abbrev pub text_eq : UuidText → UuidText → Bool
text_eq a b = a.uuid == b.uuid && a.spelling == b.spelling

pub record RoleRow : Type 0 where
  pub project_id : ℕ
  pub profile_id : ℕ
  pub role : ProjectRole
  pub granted_by_id : ℕ
  pub created_at : ℕ

-- The key is the text `projectId:profileId`.
pub record CacheEntry : Type 0 where
  pub key_project : ℕ
  pub key_profile : UuidText
  pub roles : List ProjectRole
  pub at : ℕ

pub record RoleStore : Type 0 where
  pub rows : List RoleRow
  pub cache : List CacheEntry

abbrev pub ttl_ms : ℕ
ttl_ms = 30000

unfoldable pub is_project_owner : AuthContext → Bool
is_project_owner a = a.is_operator || a.is_project_owner

unfoldable pub is_project_admin : AuthContext → Bool
is_project_admin a = a.is_operator || (a.is_project_owner || a.is_project_admin)

unfoldable pub require_project_owner : AuthContext → Result (Unit {0})
unfolding is_project_owner
require_project_owner a = guard (is_project_owner a) owner_only

unfoldable pub require_project_admin : AuthContext → Result (Unit {0})
unfolding is_project_admin
require_project_admin a = guard (is_project_admin a) admin_only

unfoldable pub assert_settings_writable : AuthContext → Result (Unit {0})
assert_settings_writable a = refuse a.settings_readonly settings_read_only

abbrev pub has_key : ℕ → UuidText → CacheEntry → Bool
has_key project_id profile_id e = e.key_project == project_id && text_eq e.key_profile profile_id

-- The roles of the rows, as the `Set` that `has` reads.
abbrev pub roles_of : ℕ → ℕ → List RoleRow → List ProjectRole
roles_of project_id profile_id rows =
    map (λ (r : RoleRow). r.role)
      (select_rows (λ (r : RoleRow). r.project_id == project_id && r.profile_id == profile_id) rows)

-- A map's `set` replaces the entry of its key.
get_fresh_roles : ℕ → UuidText → ℕ → RoleStore → List ProjectRole × RoleStore
get_fresh_roles project_id profile_id now s =
    let roles = roles_of project_id profile_id.uuid s.rows in
    (
      roles,
      record s {
        cache =
            record { key_project = project_id; key_profile = profile_id; roles = roles; at = now }
            ∷ delete_rows (has_key project_id profile_id) s.cache;
      },
    )

-- Where the clock has gone back the source's difference is negative, and this one 0: both are below
-- the bound.
unfoldable pub get_project_roles : ℕ → UuidText → ℕ → RoleStore → List ProjectRole × RoleStore
unfolding get_fresh_roles
get_project_roles project_id profile_id now s =
    elim (find_row (has_key project_id profile_id) s.cache) [
      | none ↦ get_fresh_roles project_id profile_id now s
      | some hit ↦
          if ltb (now - hit.at) ttl_ms
          then (hit.roles, s)
          else get_fresh_roles project_id profile_id now s
    ]

unfoldable pub invalidate_project_roles : ℕ → UuidText → RoleStore → RoleStore
invalidate_project_roles project_id profile_id s = record s {
  cache = delete_rows (has_key project_id profile_id) s.cache;
}

abbrev pub is_grant : ℕ → ℕ → ProjectRole → RoleRow → Bool
is_grant project_id profile_id role r =
    r.project_id == project_id && (r.profile_id == profile_id && role_eq r.role role)

-- `on conflict do nothing` on (project, profile, role)
unfoldable pub grant_project_role : ℕ → UuidText → ProjectRole → ℕ → ℕ → RoleStore → RoleStore
unfolding invalidate_project_roles
grant_project_role project_id profile_id role granted_by_id now s =
    let rows =
      if has_row (is_grant project_id profile_id.uuid role) s.rows
      then s.rows
      else record {
        project_id = project_id;
        profile_id = profile_id.uuid;
        role = role;
        granted_by_id = granted_by_id;
        created_at = now;
      }
        ∷ s.rows in
    invalidate_project_roles project_id profile_id (record s { rows = rows })

abbrev pub is_owner_row : ℕ → RoleRow → Bool
is_owner_row project_id r = r.project_id == project_id && role_eq r.role owner

abbrev pub drop_grant : ℕ → UuidText → ProjectRole → RoleStore → RoleStore
drop_grant project_id profile_id role s = record s {
  rows = delete_rows (is_grant project_id profile_id.uuid role) s.rows;
}

-- The owner rows are locked, so the check and the delete are one step. The test on the locked rows
-- is one of texts; the delete compares uuids.
unfoldable pub revoke_project_role : ℕ → UuidText → ProjectRole → RoleStore → Result RoleStore
unfolding invalidate_project_roles
revoke_project_role project_id profile_id owner s = do
  let owners = select_rows (is_owner_row project_id) s.rows
  let target_is_owner = has_row (λ (o : RoleRow). text_eq (printed o.profile_id) profile_id) owners
  refuse (target_is_owner && leb (length owners) 1) last_owner
  ok (invalidate_project_roles project_id profile_id (drop_grant project_id profile_id owner s))
revoke_project_role project_id profile_id admin s =
    ok (invalidate_project_roles project_id profile_id (drop_grant project_id profile_id admin s))
revoke_project_role project_id profile_id steward s =
    ok (invalidate_project_roles project_id profile_id (drop_grant project_id profile_id steward s))

-- `POST /roles`. `body` is what the schema makes of the request: none where it does not validate.
-- `profiles` holds the (project, profile) pairs of the profiles table.
unfoldable pub post_roles :
    ℕ
    → AuthContext
    → Option (UuidText × ProjectRole)
    → List (ℕ × ℕ)
    → ℕ
    → RoleStore
    → Result RoleStore
unfolding require_project_owner grant_project_role
post_roles project_id auth none profiles now s = do require_project_owner auth; err invalid_body
post_roles project_id auth (some (user_id, role)) profiles now s = do
  require_project_owner auth
  guard (has_row (λ (p : ℕ × ℕ). p.0 == project_id && p.1 == user_id.uuid) profiles)
      roles_user_not_found
  ok (grant_project_role project_id user_id role auth.user_id now s)

-- `DELETE /roles/:userId/:role`. A path segment that the uuid pattern, or the list of roles, does
-- not accept is none.
unfoldable pub delete_roles :
    ℕ → AuthContext → Option UuidText → Option ProjectRole → RoleStore → Result RoleStore
unfolding require_project_owner revoke_project_role
delete_roles project_id auth none role s = do require_project_owner auth; err roles_invalid_user
delete_roles project_id auth (some user_id) none s = do
  require_project_owner auth
  err roles_invalid_role
delete_roles project_id auth (some user_id) (some role) s = do
  require_project_owner auth
  revoke_project_role project_id user_id role s
