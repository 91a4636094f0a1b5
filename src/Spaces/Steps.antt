-- ===== src/Spaces/Steps.antt =====
-- Reparenting and deletion keep every space below a root, in apps/api/src/routes/spaces.ts.
use mathlib.Core.Path.{subst}
use philosophy_app.Prelude.{
  ℕ, suc, not, ◌&&◌, arith, ◌+◌, ◌≡◌, refl, sym, ap, ◌∙◌, inl, inr, Bool, true, false, Option, none,
  some, List, [], ◌==◌, ltb, Bool-cases, find_row, has_row, update_rows, length, some_eq,
  has_row_of_found, ==_refl,
}
use philosophy_app.Http.{
  ok, guard, refuse, bind-ok, ok-injective, refuse-ok, found_or, found_or-ok, parse_body,
  rejected_by_webhook, database_error, bad_parent, space_cycle, too_deep, not_space_owner,
}
use philosophy_app.Access.{Ctx, require_auth}
use philosophy_app.Roles.{UuidText, printed, text_eq}
use philosophy_app.Spaces.{
  got_row, SpaceParam, SpaceRow, SpaceTables, space_id_is, get_space, require_space_role,
  only_admin,
}
use philosophy_app.Spaces.Tree.{
  cycle_walk, answer, would_create_cycle, Move, stays, to_root, under, PatchBody, live_row,
  max_space_depth, same_parent, checked_move, decide_move, patch_columns, moved, sets_nothing,
  recount_children, slug_taken, patch_space, delete_space,
}
use philosophy_app.Spaces.Ancestry.{exists, Tall, IsRooted, Avoids, start-Avoids, chain_from}
use philosophy_app.Spaces.Loops.{walk_from}
use philosophy_app.Spaces.Rooted.{Preserves, Tall-same, Avoids-kept, update-IsRooted, move-IsRooted}
use philosophy_app.Spaces.Growth.{live-exists, recount-Preserves, recount-IsRooted}

-- The parents that a move may name: there, and not below the space.
abbrev Sound : List SpaceRow → ℕ → Move → Type 0
Sound rows s stays = Unit
Sound rows s to_root = Unit
Sound rows s (under p d) = (k : ℕ) × Tall rows k (some p) × Avoids rows s k (some p)

passed_walk :
    (rows : List SpaceRow) (s : ℕ) (u : UuidText) (k : ℕ)
    → (u.uuid == s) ≡ false
    → Tall rows k (some u.uuid)
    → would_create_cycle rows s u ≡ false
    → Avoids rows s k (some u.uuid)
unfolding would_create_cycle
passed_walk rows s u k away above off =
    let (b, runs) = walk_from rows s u in
    let no : b ≡ false = cc (sym (ap answer runs) ∙ off) in
    start-Avoids rows (suc (suc (length rows))) s u k away above (
      subst (λ (x : Bool). cycle_walk rows (suc (suc (suc (length rows)))) s [] (some u) ≡ some x)
        no runs)

-- The parent spells the space's own id in another way than the server prints it.
abbrev pub is_alias : ℕ → Option (Option UuidText) → Bool
is_alias id (some (some u)) = u.uuid == id && not (u.spelling == 0)
is_alias id _ = false

not_own :
    (u : UuidText) (s : ℕ)
    → is_alias s (some (some u)) ≡ false
    → text_eq u (printed s) ≡ false
    → (u.uuid == s) ≡ false
not_own u s plain other = ground (arith, plain, other)

checked-Sound :
    (t : SpaceTables) (project_id : ℕ) (space : SpaceRow) (q : Option UuidText) {m : Move}
    → IsRooted t.spaces
    → is_alias space.base.id (some q) ≡ false
    → checked_move t project_id space q ≡ ok m
    → Sound t.spaces space.base.id m
unfolding checked_move
checked-Sound t project_id space none {m} rooted plain h =
    subst (Sound t.spaces space.base.id) (ok-injective h) tt
checked-Sound t project_id space (some p) {m} rooted plain h =
    let (u, from0, h1) =
      bind-ok {A = Unit} (refuse (text_eq p (printed space.base.id)) space_cycle) _ h in
    let (parent, from1, h2) =
      bind-ok (found_or bad_parent (find_row (live_row project_id p.uuid) t.spaces)) _ h1 in
    let (v, from2, h3) =
      bind-ok {A = Unit} (refuse (would_create_cycle t.spaces space.base.id p) space_cycle) _ h2 in
    let (w, from3, h4) =
      bind-ok {A = Unit} (refuse (ltb max_space_depth (parent.depth + 1)) too_deep) _ h3 in
    let there =
      live-exists project_id p.uuid t.spaces {r = parent} (found_or-ok bad_parent _ from1) in
    let (k, above) = chain_from t.spaces p.uuid rooted there in
    let away = not_own p space.base.id plain (refuse-ok _ space_cycle from0) in
    subst (Sound t.spaces space.base.id) (ok-injective h4)
      (k, above, passed_walk t.spaces space.base.id p k away above (refuse-ok _ space_cycle from2))

decide-Sound :
    (t : SpaceTables) (project_id : ℕ) (space : SpaceRow) (q : Option (Option UuidText)) {m : Move}
    → IsRooted t.spaces
    → is_alias space.base.id q ≡ false
    → decide_move t project_id space q ≡ ok m
    → Sound t.spaces space.base.id m
unfolding decide_move
decide-Sound t project_id space none {m} rooted plain h =
    subst (Sound t.spaces space.base.id) (ok-injective h) tt
decide-Sound t project_id space (some q) {m} rooted plain h =
    elim (Bool-cases (same_parent q space.parent_space_id)) [
      | inl same ↦ subst (Sound t.spaces space.base.id) (ok-injective (rw same at h)) tt
      | inr other ↦ checked-Sound t project_id space q rooted plain (rw other at h)
    ]

Sound-kept :
    (rows rows' : List SpaceRow) (s : ℕ) (m : Move)
    → Preserves rows rows'
    → Sound rows s m
    → Sound rows' s m
Sound-kept rows rows' s stays kept ok_move = tt
Sound-kept rows rows' s to_root kept ok_move = tt
Sound-kept rows rows' s (under p d) kept (k, above, off) = (
  k,
  Tall-same rows rows' k (some p) kept.0 kept.1 above,
  Avoids-kept rows rows' s k (some p) kept above off,
)

moved-IsRooted :
    (rows : List SpaceRow) (s : ℕ) (m : Move) (body : PatchBody)
    → exists rows s ≡ true
    → Sound rows s m
    → IsRooted rows
    → IsRooted (update_rows (space_id_is s) (λ (r : SpaceRow). moved m (patch_columns body r)) rows)
moved-IsRooted rows s stays body e ok_move rooted =
    update-IsRooted (space_id_is s) (patch_columns body) rows (λ x r. refl) (λ r. refl) rooted
moved-IsRooted rows s to_root body e ok_move rooted =
    move-IsRooted s none (λ (r : SpaceRow). moved to_root (patch_columns body r)) rows (λ x r. refl)
      (λ r. refl) e 0 tt tt rooted
moved-IsRooted rows s (under p d) body e (k, above, off) rooted =
    move-IsRooted s (some p) (λ (r : SpaceRow). moved (under p d) (patch_columns body r)) rows
      (λ x r. refl) (λ r. refl) e k above off rooted

got-exists :
    (t : SpaceTables) (project_id : ℕ) (param : SpaceParam) {space : SpaceRow}
    → get_space t project_id param ≡ ok space
    → exists t.spaces space.base.id ≡ true
got-exists t project_id param {space} h =
    let (q, found, _, _) = got_row t project_id param {space = space} h in
    has_row_of_found q (space_id_is space.base.id) t.spaces {x = space} found
      (==_refl space.base.id)

-- The body names no space, or not by an alias.
abbrev pub names_alias : ℕ → Option PatchBody → Bool
names_alias id none = false
names_alias id (some body) = is_alias id body.parent_space_id

plain_request :
    (id : ℕ) (body : Option PatchBody) (request : PatchBody)
    → parse_body body ≡ ok request
    → names_alias id body ≡ false
    → is_alias id request.parent_space_id ≡ false
plain_request id none request h plain = absurd (cc h)
plain_request id (some b) request h plain =
    subst (λ (x : PatchBody). is_alias id x.parent_space_id ≡ false) (ok-injective h) plain

pub patch-IsRooted :
    (t : SpaceTables) (c : Ctx) (param : SpaceParam) (body : Option PatchBody) (valid : Bool)
    {target : SpaceRow} {t' : SpaceTables}
    → get_space t c.project_id param ≡ ok target
    → names_alias target.base.id body ≡ false
    → patch_space t c param body valid ≡ ok t'
    → IsRooted t.spaces
    → IsRooted t'.spaces
unfolding patch_space
patch-IsRooted t c param body valid {target} {t'} got plain h rooted =
    let (auth, from0, h1) = bind-ok (require_auth c) _ h in
    let (space, from1, h2) = bind-ok (get_space t c.project_id param) _ h1 in
    let (role, from2, h3) =
      bind-ok (require_space_role t c.project_id auth space only_admin) _ h2 in
    let (request, from3, h4) = bind-ok (parse_body body) _ h3 in
    let (u, from4, h5) = bind-ok {A = Unit} (guard valid rejected_by_webhook) _ h4 in
    let (move, from5, h6) =
      bind-ok (decide_move t c.project_id space request.parent_space_id) _ h5 in
    let (v, from6, h7) =
      bind-ok {A = Unit} (refuse (sets_nothing request move) database_error) _ h6 in
    let (w, from7, h8) =
      bind-ok {A = Unit}
        (refuse (has_row (slug_taken c.project_id space.base.id request.slug) t.spaces)
          database_error)
        _ h7 in
    let rows = recount_children move space.parent_space_id t.spaces in
    let kept = recount-Preserves move space.parent_space_id t.spaces in
    let there = kept.0 space.base.id (got-exists t c.project_id param {space = space} from1) in
    let same : target ≡ space = ok-injective (sym got ∙ from1) in
    let plain_here = subst (λ (x : SpaceRow). names_alias x.base.id body ≡ false) same plain in
    let sound =
      decide-Sound t c.project_id space request.parent_space_id {m = move} rooted
        (plain_request space.base.id body request from3 plain_here) from5 in
    subst (λ (s : SpaceTables). IsRooted s.spaces) (ok-injective h8)
      (moved-IsRooted rows space.base.id move request there
        (Sound-kept t.spaces rows space.base.id move kept sound)
        (recount-IsRooted move space.parent_space_id t.spaces rooted))

pub delete-IsRooted :
    (t : SpaceTables) (c : Ctx) (param : SpaceParam) (now : ℕ) {t' : SpaceTables}
    → delete_space t c param now ≡ ok t'
    → IsRooted t.spaces
    → IsRooted t'.spaces
unfolding delete_space
delete-IsRooted t c param now {t'} h rooted =
    let (auth, from0, h1) = bind-ok (require_auth c) _ h in
    let (space, from1, h2) = bind-ok (get_space t c.project_id param) _ h1 in
    let (u, from2, h3) =
      bind-ok {A = Unit} (guard (some_eq space.base.user_id auth.user_id) not_space_owner) _ h2 in
    subst (λ (s : SpaceTables). IsRooted s.spaces) (ok-injective h3)
      (update-IsRooted (space_id_is space.base.id)
        (λ (r : SpaceRow). record r { base = record r.base { deleted_at = some now } }) t.spaces
        (λ x r. refl) (λ r. refl) rooted)
