-- ===== src/Tests/Roles.antt =====
-- The theorems on role grants, on a project of one owner.
use philosophy_app.Prelude.{ℕ, ◌≡◌, refl, some, [], ◌∷◌, arith, true, false}
use philosophy_app.Http.{ok}
use philosophy_app.Auth.{AuthContext, TokenRole}
use philosophy_app.Roles.{
  ProjectRole, printed, RoleRow, RoleStore, get_project_roles, post_roles, delete_roles,
}
use philosophy_app.Roles.Owners.{
  owners, IsUnique, HasOwner, granted, here, next, Reach-HasOwner, alias_drops_last_owner,
}
use philosophy_app.Prelude.{List, [], ◌∷◌, arith}
use philosophy_app.Roles.Staleness.{
  Moment, Episode, begun, looked, elsewhere, Some, Recent, now_rows, get_project_roles-Recent,
}

abbrev owner_auth : AuthContext
owner_auth = record {
  user_id = 7;
  project_id = some 1;
  role = TokenRole.visitor;
  is_operator = false;
  is_project_owner = true;
  is_project_admin = false;
  is_steward = false;
  settings_readonly = false;
}

abbrev grant_row : ℕ → ProjectRole → RoleRow
grant_row profile_id role = record {
  project_id = 1;
  profile_id = profile_id;
  role = role;
  granted_by_id = 7;
  created_at = 3;
}

abbrev owned : RoleStore
owned = record { rows = grant_row 7 ProjectRole.owner ∷ []; cache = [] }

abbrev two_roles : RoleStore
two_roles = record {
  rows = grant_row 8 ProjectRole.steward ∷ grant_row 7 ProjectRole.owner ∷ [];
  cache =
      record {
        key_project = 1;
        key_profile = printed 8;
        roles = ProjectRole.steward ∷ [];
        at = 100;
      }
      ∷ [];
}

one-IsUnique : IsUnique (grant_row 7 ProjectRole.owner ∷ [])
one-IsUnique p u ProjectRole.owner = ground arith
one-IsUnique p u ProjectRole.admin = ground arith
one-IsUnique p u ProjectRole.steward = ground arith

Reach-HasOwner_example : HasOwner 1 (record two_roles { cache = [] })
unfolding post_roles
Reach-HasOwner_example =
    Reach-HasOwner {p = 1} {s = owned} {t = record two_roles { cache = [] }}
      (next {t = owned} {v = record two_roles { cache = [] }} here (
        granted {s = owned} {t = record two_roles { cache = [] }} owner_auth (printed 8)
          ProjectRole.steward ((1, 8) ∷ []) 3 refl refl))
      (one-IsUnique, omega arith)

alias_drops_last_owner_example :
    (t : RoleStore) × (delete_roles 1 owner_auth
        (some (record { uuid = 7; spelling = 1 }))
        (some ProjectRole.owner)
        owned
      ≡ ok t)
    × (owners 1 t.rows ≡ 0)
alias_drops_last_owner_example =
    alias_drops_last_owner 1 owner_auth (record { uuid = 7; spelling = 1 }) owned refl
      (λ e. omega (arith, e)) refl refl

abbrev late_past : List Moment
late_past =
    record { at = 200; rows = [] }
    ∷ (record { at = 100; rows = two_roles.rows }
        ∷ (record { at = 100; rows = two_roles.rows } ∷ []))

abbrev late_store : RoleStore
late_store =
    record (get_project_roles 1 (printed 8) 100 (record { rows = two_roles.rows; cache = [] })).1 {
      rows = [];
    }

-- The lookup at 100 fills the cache, another instance takes the roles at 200, and 20 seconds later the
-- cache still answers them.
late_moments : Episode 200 late_past late_store
late_moments =
    elsewhere 200 [] (looked 100 1 (printed 8) (begun 100 two_roles.rows) (omega arith))
      (omega arith)

get_project_roles-Recent_example :
    Some
      (Recent 20200 1 8 (get_project_roles 1 (printed 8) 20200 late_store).0)
      (now_rows 20200 late_store ∷ late_past)
get_project_roles-Recent_example =
    get_project_roles-Recent 200 20200 1 (printed 8) late_past late_store late_moments (omega arith)
