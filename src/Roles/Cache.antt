-- ===== src/Roles/Cache.antt =====
-- The cache of `getProjectRoles` in apps/api/src/lib/project-roles.ts does not hide a revocation that
-- was made through `revokeProjectRole` of the same instance.
use philosophy_app.Prelude.{
  ℕ, ◌≡◌, inl, inr, Bool, List, [], ◌∷◌, arith, Bool-cases, delete_rows, has_row, All,
}
use philosophy_app.Http.{ok}
use philosophy_app.Roles.{
  ProjectRole, owner, admin, steward, role_eq, UuidText, RoleStore, revoke_project_role,
  invalidate_project_roles, drop_grant,
}

pub All-delete_rows {ℓ} :
    {A : Type ℓ} (P : A → Type 0) (q : A → Bool) (xs : List A) → All P xs → All P (delete_rows q xs)
All-delete_rows P q [] h = tt
All-delete_rows P q (x ∷ xs) (p, h) = elim (Bool-cases (q x)) [
  | inl gone ↦ rw gone (All-delete_rows P q xs h)
  | inr kept ↦ rw kept (p, All-delete_rows P q xs h)
]

pub revoke_rows :
    (p : ℕ) (u : UuidText) (role : ProjectRole) (s : RoleStore) {t : RoleStore}
    → revoke_project_role p u role s ≡ ok t
    → t ≡ invalidate_project_roles p u (drop_grant p u role s)
unfolding revoke_project_role
revoke_rows p u owner s e = ground arith
revoke_rows p u admin s e = ground arith
revoke_rows p u steward s e = ground arith

abbrev pub holds : ProjectRole → List ProjectRole → Bool
holds role roles = has_row (role_eq role) roles
