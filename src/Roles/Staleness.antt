-- ===== src/Roles/Staleness.antt =====
-- How old an answer of the cache of `getProjectRoles` in apps/api/src/lib/project-roles.ts may be, where
-- other instances of the server change the rows too.
use mathlib.Core.Path.{subst}
use philosophy_app.Prelude.{
  ℕ, ◌+◌, ◌-◌, ◌≤◌, ◌<◌, ◌≡◌, refl, sym, ◌∙◌, ◌⊎◌, inl, inr, List, [], ◌∷◌, arith, Bool-cases,
  Option-cases, find_row, find_row_sound, All, All-find_row, ltb,
}
use philosophy_app.Http.{ok}
use philosophy_app.Roles.{
  ProjectRole, UuidText, RoleRow, CacheEntry, RoleStore, has_key, roles_of, get_fresh_roles,
  get_project_roles, grant_project_role, revoke_project_role, invalidate_project_roles, ttl_ms,
}
use philosophy_app.Roles.Cache.{All-delete_rows, revoke_rows}

-- What the rows were at a time.
pub record Moment : Type 0 where
  pub at : ℕ
  pub rows : List RoleRow

abbrev pub now_rows : ℕ → RoleStore → Moment
now_rows now s = record { at = now; rows = s.rows }

-- An episode of one instance up to a time, with what the rows were, the last moment first: it starts with an
-- empty cache, and `elsewhere` is another instance that changes the rows in any way.
pub data Episode : ℕ → List Moment → RoleStore → Type 0 where
  begun :
      (now : ℕ) (rows : List RoleRow)
      → Episode now (record { at = now; rows = rows } ∷ []) (record { rows = rows; cache = [] })
  looked :
      {clock : ℕ} {past : List Moment} {s : RoleStore} (now p : ℕ) (u : UuidText)
      → Episode clock past s
      → clock ≤ now
      → Episode now (now_rows now s ∷ past) (get_project_roles p u now s).1
  granted :
      {clock : ℕ} {past : List Moment} {s : RoleStore} (now p : ℕ) (u : UuidText)
      (role : ProjectRole) (by : ℕ)
      → Episode clock past s
      → clock ≤ now
      → Episode now
          (now_rows now (grant_project_role p u role by now s) ∷ past)
          (grant_project_role p u role by now s)
  revoked :
      {clock : ℕ} {past : List Moment} {s t : RoleStore} (now p : ℕ) (u : UuidText)
      (role : ProjectRole)
      → Episode clock past s
      → clock ≤ now
      → revoke_project_role p u role s ≡ ok t
      → Episode now (now_rows now t ∷ past) t
  elsewhere :
      {clock : ℕ} {past : List Moment} {s : RoleStore} (now : ℕ) (rows : List RoleRow)
      → Episode clock past s
      → clock ≤ now
      → Episode now (record { at = now; rows = rows } ∷ past) (record s { rows = rows })

abbrev pub Some : (Moment → Type 0) → List Moment → Type 0
Some P [] = ⊥
Some P (m ∷ past) = P m ⊎ Some P past

Some-map :
    (P Q : Moment → Type 0) (past : List Moment)
    → ((m : Moment) → P m → Q m)
    → Some P past
    → Some Q past
Some-map P Q [] f h = absurd h
Some-map P Q (m ∷ past) f (inl h) = inl (f m h)
Some-map P Q (m ∷ past) f (inr h) = inr (Some-map P Q past f h)

-- The entry holds what the rows were at its time.
abbrev Read : CacheEntry → Moment → Type 0
Read e m = (m.at ≡ e.at) × (e.roles ≡ roles_of e.key_project e.key_profile.uuid m.rows)

abbrev Dated : ℕ → List Moment → CacheEntry → Type 0
Dated clock past e = (e.at ≤ clock) × Some (Read e) past

Dated-later :
    (clock now : ℕ) (past : List Moment) (m : Moment) (cache : List CacheEntry)
    → clock ≤ now
    → All (Dated clock past) cache
    → All (Dated now (m ∷ past)) cache
Dated-later clock now past m [] le a = tt
Dated-later clock now past m (e ∷ cache) le ((at, read), later) =
    ((omega (arith, at, le), inr read), Dated-later clock now past m cache le later)

look-Dated :
    (clock now p : ℕ) (u : UuidText) (past : List Moment) (s : RoleStore)
    → clock ≤ now
    → All (Dated clock past) s.cache
    → All (Dated now (now_rows now s ∷ past)) (get_project_roles p u now s).1.cache
unfolding get_project_roles get_fresh_roles
look-Dated clock now p u past s le a =
    let older = Dated-later clock now past (now_rows now s) s.cache le a in
    let fresh : All (Dated now (now_rows now s ∷ past)) (get_fresh_roles p u now s).1.cache = (
      (omega arith, inl (refl, refl)),
      All-delete_rows (Dated now (now_rows now s ∷ past)) (has_key p u) s.cache older,
    ) in
    elim (Option-cases (find_row (has_key p u) s.cache)) [
      | inl missed ↦ rw (missed, get_project_roles) fresh
      | inr (hit, found) ↦ elim (Bool-cases (ltb (now - hit.at) ttl_ms)) [
        | inl young ↦ rw (found, get_project_roles) (rw young older)
        | inr old ↦ rw (found, get_project_roles) (rw old fresh)
      ]
    ]

Episode-Dated :
    {clock : ℕ} {past : List Moment} {s : RoleStore}
    → Episode clock past s
    → All (Dated clock past) s.cache
unfolding grant_project_role invalidate_project_roles
Episode-Dated (begun now rows) = tt
Episode-Dated (looked {clock} {past} {s} now p u run le) =
    look-Dated clock now p u past s le (Episode-Dated run)
Episode-Dated (granted {clock} {past} {s} now p u role by run le) =
    let m = now_rows now (grant_project_role p u role by now s) in
    All-delete_rows (Dated now (m ∷ past)) (has_key p u) s.cache
      (Dated-later clock now past m s.cache le (Episode-Dated run))
Episode-Dated (revoked {clock} {past} {s} {t} now p u role run le e) =
    let m = now_rows now t in
    subst (λ (x : RoleStore). All (Dated now (m ∷ past)) x.cache)
      (sym (revoke_rows p u role s {t = t} e))
      (All-delete_rows (Dated now (m ∷ past)) (has_key p u) s.cache
        (Dated-later clock now past m s.cache le (Episode-Dated run)))
Episode-Dated (elsewhere {clock} {past} {s} now rows run le) =
    Dated-later clock now past (record { at = now; rows = rows }) s.cache le (Episode-Dated run)

-- The roles were these at a moment that is less than the cache's time to live ago.
abbrev pub Recent : ℕ → ℕ → ℕ → List ProjectRole → Moment → Type 0
Recent now p u roles m = (m.at ≤ now) × (now < m.at + ttl_ms) × (roles ≡ roles_of p u m.rows)

-- However lookups, grants and revocations follow each other in one instance that starts with an empty
-- cache, each on its own, under whatever spellings of ids, and however other instances change the rows in
-- between, as long as the clock does not go back: a lookup answers what the rows say now or said less than
-- 30 seconds ago.
pub get_project_roles-Recent :
    (clock now p : ℕ) (u : UuidText) (past : List Moment) (s : RoleStore)
    → Episode clock past s
    → clock ≤ now
    → Some (Recent now p u.uuid (get_project_roles p u now s).0) (now_rows now s ∷ past)
unfolding get_project_roles get_fresh_roles
get_project_roles-Recent clock now p u past s run le =
    elim (Option-cases (find_row (has_key p u) s.cache)) [
      | inl missed ↦ inl (omega arith, omega arith, rw (missed, get_project_roles))
      | inr (hit, found) ↦ elim (Bool-cases (ltb (now - hit.at) ttl_ms)) [
        | inr old ↦ inl (omega arith, omega arith, rw (found, get_project_roles) (rw old))
        | inl young ↦
            let (at, read) =
              All-find_row (Dated clock past) (has_key p u) s.cache {x = hit} (Episode-Dated run)
                found in
            let key = find_row_sound (has_key p u) s.cache {x = hit} found in
            let same_p : hit.key_project ≡ p = ground arith in
            let same_u : hit.key_profile.uuid ≡ u.uuid = ground arith in
            inr (
              Some-map (Read hit) (Recent now p u.uuid (get_project_roles p u now s).0) past
                (λ m (when, roles). (
                  omega (arith, at, le, when),
                  ground (arith, when),
                  rw (found, get_project_roles) (rw young (roles ∙ (rw (same_p, same_u)))),
                ))
                read)
      ]
    ]
