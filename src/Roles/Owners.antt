-- ===== src/Roles/Owners.antt =====
-- A project keeps an owner: the guard of `revokeProjectRole` in apps/api/src/lib/project-roles.ts.
use mathlib.Core.Path.{subst}
use philosophy_app.Prelude.{
  ℕ, ◌+◌, ◌≤◌, ◌<◌, ◌≡◌, ◌≢◌, refl, inl, inr, true, false, some, List, [], ◌∷◌, arith, Bool-cases,
  count_rows, delete_rows, select_rows, has_row, length-select_rows,
}
use philosophy_app.Http.{ok}
use philosophy_app.Auth.{AuthContext}
use philosophy_app.Roles.{
  ProjectRole, owner, admin, steward, role_eq, UuidText, printed, text_eq, RoleRow, RoleStore,
  is_grant, is_owner_row, grant_project_role, revoke_project_role, post_roles, delete_roles,
  invalidate_project_roles, drop_grant,
}

abbrev pub owners : ℕ → List RoleRow → ℕ
owners project_id rows = count_rows (is_owner_row project_id) rows

-- The unique constraint on (project, profile, role).
abbrev pub IsUnique : List RoleRow → Type 0
IsUnique rows =
    (project_id profile_id : ℕ) (role : ProjectRole)
    → count_rows (is_grant project_id profile_id role) rows ≤ 1

owners-delete_rows :
    (p u : ℕ) (rows : List RoleRow)
    → owners p (delete_rows (is_grant p u owner) rows) + count_rows (is_grant p u owner) rows
      ≡ owners p rows
owners-delete_rows p u [] = omega arith
owners-delete_rows p u (r ∷ rows) = ground (arith, owners-delete_rows p u rows)

owners-delete_other :
    (p u q : ℕ) (role : ProjectRole) (rows : List RoleRow)
    → role ≢ owner
    → owners p (delete_rows (is_grant q u role) rows) ≡ owners p rows
owners-delete_other p u q role [] h = refl
owners-delete_other p u q role (r ∷ rows) h = ground (arith, owners-delete_other p u q role rows h)

count-delete_rows :
    (p u q v : ℕ) (r₁ r₂ : ProjectRole) (rows : List RoleRow)
    → count_rows (is_grant p u r₁) (delete_rows (is_grant q v r₂) rows)
      ≤ count_rows (is_grant p u r₁) rows
count-delete_rows p u q v r₁ r₂ [] = omega arith
count-delete_rows p u q v r₁ r₂ (r ∷ rows) = elim (Bool-cases (is_grant q v r₂ r)) [
  | inl gone ↦ rw gone (omega (arith, count-delete_rows p u q v r₁ r₂ rows))
  | inr kept ↦ rw kept (omega (arith, count-delete_rows p u q v r₁ r₂ rows))
]

not_target_count :
    (p : ℕ) (u : UuidText) (rows : List RoleRow)
    → u.spelling ≡ 0
    → has_row
        (λ (o : RoleRow). text_eq (printed o.profile_id) u)
        (select_rows (is_owner_row p) rows)
      ≡ false
    → count_rows (is_grant p u.uuid owner) rows ≡ 0
not_target_count p u [] s h = refl
not_target_count p u (r ∷ rows) s h = ground (arith, not_target_count p u rows s)

-- The delete of one owner grant, where grants are unique, takes at most one owner.
revoke_owner_keeps :
    (p : ℕ) (u : UuidText) (s : RoleStore) {t : RoleStore}
    → u.spelling ≡ 0
    → IsUnique s.rows
    → 0 < owners p s.rows
    → revoke_project_role p u owner s ≡ ok t
    → 0 < owners p t.rows
unfolding revoke_project_role
revoke_owner_keeps p u s sp unique some_owner e = ground (
  arith,
  owners-delete_rows p u.uuid s.rows,
  unique p u.uuid owner,
  length-select_rows (is_owner_row p) s.rows,
  not_target_count p u s.rows sp,
)

delete_roles_keeps :
    (p : ℕ) (auth : AuthContext) (u : UuidText) (role : ProjectRole) (s : RoleStore) {t : RoleStore}
    → u.spelling ≡ 0
    → IsUnique s.rows
    → 0 < owners p s.rows
    → delete_roles p auth (some u) (some role) s ≡ ok t
    → 0 < owners p t.rows
unfolding delete_roles
delete_roles_keeps p auth u owner s {t} sp unique h e =
    revoke_owner_keeps p u s {t = t} sp unique h (ground arith)
delete_roles_keeps p auth u admin s sp unique h e =
    unfold revoke_project_role in ground (arith, owners-delete_other p u.uuid p admin s.rows)
delete_roles_keeps p auth u steward s sp unique h e =
    unfold revoke_project_role in ground (arith, owners-delete_other p u.uuid p steward s.rows)

delete_roles-IsUnique :
    (p : ℕ) (auth : AuthContext) (u : UuidText) (role : ProjectRole) (s : RoleStore) {t : RoleStore}
    → IsUnique s.rows
    → delete_roles p auth (some u) (some role) s ≡ ok t
    → IsUnique t.rows
unfolding delete_roles revoke_project_role
delete_roles-IsUnique p auth u owner s unique e q v r =
    ground (arith, unique q v r, count-delete_rows q v p u.uuid r owner s.rows)
delete_roles-IsUnique p auth u admin s unique e q v r =
    ground (arith, unique q v r, count-delete_rows q v p u.uuid r admin s.rows)
delete_roles-IsUnique p auth u steward s unique e q v r =
    ground (arith, unique q v r, count-delete_rows q v p u.uuid r steward s.rows)

no_row_count :
    (p u : ℕ) (role : ProjectRole) (rows : List RoleRow)
    → has_row (is_grant p u role) rows ≡ false
    → count_rows (is_grant p u role) rows ≡ 0
no_row_count p u role [] h = refl
no_row_count p u role (r ∷ rows) h = ground (arith, no_row_count p u role rows)

role_eq_sound : (a b : ProjectRole) → role_eq a b ≡ true → a ≡ b
role_eq_sound owner owner h = refl
role_eq_sound admin admin h = refl
role_eq_sound steward steward h = refl
role_eq_sound _ _ h = cc

grant-IsUnique :
    (p : ℕ) (u : UuidText) (role : ProjectRole) (by now : ℕ) (s : RoleStore)
    → IsUnique s.rows
    → IsUnique (grant_project_role p u role by now s).rows
unfolding grant_project_role
grant-IsUnique p u role by now s unique q v r =
    elim (Bool-cases (has_row (is_grant p u.uuid role) s.rows)) [
      | inl there ↦ rw there (unique q v r)
      | inr absent ↦ elim (Bool-cases (role_eq role r)) [
        | inl same ↦
            let e = role_eq_sound role r same in
            rw absent (ground (arith, unique q v r, no_row_count p u.uuid role s.rows absent))
        | inr other ↦ rw absent (ground (arith, unique q v r))
      ]
    ]

-- One request on the grants of a project that succeeds, in the spelling that the server prints.
pub data Step (p : ℕ) : RoleStore → RoleStore → Type 0 where
  granted :
      {s t : RoleStore} (auth : AuthContext) (u : UuidText) (role : ProjectRole)
      (profiles : List (ℕ × ℕ)) (now : ℕ)
      → u.spelling ≡ 0
      → post_roles p auth (some (u, role)) profiles now s ≡ ok t
      → Step p s t
  revoked :
      {s t : RoleStore} (auth : AuthContext) (u : UuidText) (role : ProjectRole)
      → u.spelling ≡ 0
      → delete_roles p auth (some u) (some role) s ≡ ok t
      → Step p s t

pub data Reach (p : ℕ) (s : RoleStore) : RoleStore → Type 0 where
  here : Reach p s s
  next : {t v : RoleStore} → Reach p s t → Step p t v → Reach p s v

abbrev pub HasOwner : ℕ → RoleStore → Type 0
HasOwner p s = IsUnique s.rows × (0 < owners p s.rows)

grant_keeps_owner :
    (p : ℕ) (u : UuidText) (role : ProjectRole) (by now : ℕ) (s : RoleStore)
    → 0 < owners p s.rows
    → 0 < owners p (grant_project_role p u role by now s).rows
unfolding grant_project_role
grant_keeps_owner p u role by now s h = ground arith

post_roles-HasOwner :
    (p : ℕ) (auth : AuthContext) (u : UuidText) (role : ProjectRole) (profiles : List (ℕ × ℕ))
    (now : ℕ) (s : RoleStore) {t : RoleStore}
    → HasOwner p s
    → post_roles p auth (some (u, role)) profiles now s ≡ ok t
    → HasOwner p t
unfolding post_roles
post_roles-HasOwner p auth u role profiles now s {t} (unique, h) e =
    let same : grant_project_role p u role auth.user_id now s ≡ t = ground arith in
    subst (HasOwner p) same (
      grant-IsUnique p u role auth.user_id now s unique,
      grant_keeps_owner p u role auth.user_id now s h,
    )

Step-HasOwner : {p : ℕ} {s t : RoleStore} → Step p s t → HasOwner p s → HasOwner p t
Step-HasOwner {p} (granted {s} auth u role profiles now sp e) h =
    post_roles-HasOwner p auth u role profiles now s h e
Step-HasOwner {p} (revoked {s} {t} auth u role sp e) (unique, h) = (
  delete_roles-IsUnique p auth u role s {t = t} unique e,
  delete_roles_keeps p auth u role s {t = t} sp unique h e,
)

-- A project that has an owner, and no grant twice, still has both after any sequence of successful
-- grants and revocations in which user ids are spelled as the server prints them.
pub Reach-HasOwner : {p : ℕ} {s t : RoleStore} → Reach p s t → HasOwner p s → HasOwner p t
Reach-HasOwner here h = h
Reach-HasOwner (next r st) h = Step-HasOwner st (Reach-HasOwner r h)

alias_not_found :
    (u : UuidText) (rows : List RoleRow)
    → u.spelling ≢ 0
    → has_row (λ (o : RoleRow). text_eq (printed o.profile_id) u) rows ≡ false
alias_not_found u [] h = refl
alias_not_found u (r ∷ rows) h = ground (arith, alias_not_found u rows h)

-- An owner's request that spells the id of the project's only owner in another way than the server
-- prints it passes the last-owner check, and leaves the project with no owner.
pub alias_drops_last_owner :
    (p : ℕ) (auth : AuthContext) (u : UuidText) (s : RoleStore)
    → auth.is_project_owner ≡ true
    → u.spelling ≢ 0
    → owners p s.rows ≡ 1
    → count_rows (is_grant p u.uuid owner) s.rows ≡ 1
    → (t : RoleStore) × (delete_roles p auth (some u) (some owner) s ≡ ok t) × (owners p t.rows ≡ 0)
unfolding delete_roles revoke_project_role
alias_drops_last_owner p auth u s own alias one his = (
  invalidate_project_roles p u (drop_grant p u owner s),
  ground (arith, alias_not_found u (select_rows (is_owner_row p) s.rows) alias),
  omega (arith, owners-delete_rows p u.uuid s.rows),
)
