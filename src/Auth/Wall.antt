-- ===== src/Auth/Wall.antt =====
-- What the wall of packages/core/src/middleware/auth.ts lets through.
use Prim.Native.String.{String}
use philosophy_app.Prelude.{ℕ, ◌≤◌, ◌<◌, ◌≡◌, ◌⊎◌, true, some, List, All}
use philosophy_app.Auth.{AuthContext, Suspension}

-- A suspension that has begun, and has not ended: a null end date is no end.
abbrev pub Covers : ℕ → Suspension → Type 0
Covers now s = (s.start_date ≤ now) × ((e : ℕ) → s.end_date ≡ some e → now < e)

-- No suspension of the profile is in force.
abbrev pub IsClear : List Suspension → ℕ → ℕ → Type 0
IsClear rows user_id now = All (λ s. s.profile_id ≡ user_id → ¬ Covers now s) rows

-- What a request must bring: a token of this project, or one minted before tokens named a project,
-- of a profile that is an operator, an owner or free of suspensions.
abbrev pub MayPass : AuthContext → ℕ → List Suspension → ℕ → Type 0
MayPass auth project_id rows now =
    ((p : ℕ) → auth.project_id ≡ some p → p ≡ project_id)
    × ((auth.is_operator ≡ true) ⊎ ((auth.is_project_owner ≡ true) ⊎ IsClear rows auth.user_id now))
