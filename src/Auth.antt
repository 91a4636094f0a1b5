-- ===== src/Auth.antt =====
-- packages/core/src/middleware/auth.ts, packages/core/src/lib/suspensions.ts (the read path without
-- Redis) and the AuthContext of packages/contract/src/types.ts. `verified` is what the JWT library
-- makes of the bearer token: none for a missing or invalid one.
pub mod Wall
use Prim.Native.String.{String}
use text.Mathlib.Text.{◌==◌ as str_eq, starts_with}
use philosophy_app.Prelude.{
  ℕ, Bool, true, false, not, ◌&&◌, ◌||◌, Option, none, some, List, [], ◌∷◌, ltb, leb, ◌==◌,
  if◌then◌else◌, has_row,
}
use philosophy_app.Http.{
  Failure, unauthorized, suspended, Result, ok, err, ◌>>=◌, ◌>>◌, refuse, guard,
}

pub data TokenRole : Type 0 where
  admin moderator visitor : TokenRole

pub record AuthContext : Type 0 where
  pub user_id : ℕ
  pub project_id : Option ℕ
  pub role : TokenRole
  pub is_operator : Bool
  pub is_project_owner : Bool
  pub is_project_admin : Bool
  pub is_steward : Bool
  pub settings_readonly : Bool

pub record Suspension : Type 0 where
  pub profile_id : ℕ
  pub start_date : ℕ
  pub end_date : Option ℕ

abbrev pub ends_after : ℕ → Option ℕ → Bool
ends_after now none = true
ends_after now (some end_date) = ltb now end_date

unfoldable pub is_active_suspension : ℕ → Suspension → Bool
is_active_suspension now s = leb s.start_date now && ends_after now s.end_date

-- The rows are selected by profile, then tested with `rows.some`.
unfoldable pub has_active_suspension_db : List Suspension → ℕ → ℕ → Bool
unfolding is_active_suspension
has_active_suspension_db rows profile_id now =
    has_row (λ (s : Suspension). s.profile_id == profile_id && is_active_suspension now s) rows

unfoldable pub enforce_authed : Option AuthContext → List Suspension → ℕ → Result AuthContext
enforce_authed none rows now = err unauthorized
enforce_authed (some auth) rows now = do
  refuse
      (not (auth.is_operator || auth.is_project_owner)
        && has_active_suspension_db rows auth.user_id now)
      suspended
  ok auth

abbrev pub allowlist_exact : List String
allowlist_exact =
    "/oauth/authorize" ∷ "/oauth/callback" ∷ "/projects/lean"
    ∷ "/push-notifications/vapid-public-key" ∷ "/crypto/sign-testing-jwt/v2" ∷ []

abbrev pub allowlist_prefixes : List String
allowlist_prefixes = "/auth/" ∷ "/public/" ∷ []

unfoldable pub is_wall_allowlisted : String → Bool
is_wall_allowlisted rel_path =
    has_row (λ (p : String). str_eq p rel_path) allowlist_exact
    || has_row (λ (p : String). starts_with rel_path p) allowlist_prefixes

-- A token minted for another project does not pass; one with no `pid` claim does.
abbrev pub bound_to : Option ℕ → ℕ → Bool
bound_to none project_id = true
bound_to (some pid) project_id = pid == project_id

-- The result is `c.var.auth` for the handler. `rel_path` is what `projectRelativePath` makes of the
-- request's path.
unfoldable pub auth_wall :
    String → Bool → ℕ → Option AuthContext → List Suspension → ℕ → Result (Option AuthContext)
auth_wall rel_path is_read_request project_id verified rows now =
    if is_wall_allowlisted rel_path || is_read_request then ok verified else (do
      auth ← enforce_authed verified rows now
      guard (bound_to auth.project_id project_id) unauthorized
      ok (some auth))
