-- ===== src/Spaces/Growth.antt =====
-- A new space of apps/api/src/routes/spaces.ts stands below a space that is there, or below none.
use mathlib.Core.Path.{subst}
use philosophy_app.Prelude.{
  ℕ, ◌+◌, ◌-◌, ◌≡◌, refl, sym, ◌∙◌, inl, inr, Bool, true, false, Option, none, some, List, [], ◌∷◌,
  arith, ◌==◌, Bool-cases, find_row, has_row, All, find_row_sound, has_row_of_found,
}
use philosophy_app.Http.{
  ok, guard, refuse, bind-ok, ok-injective, refuse-ok, found_or, found_or-ok, parse_body,
  rejected_by_webhook, database_error, bad_parent,
}
use philosophy_app.Auth.{AuthContext}
use philosophy_app.Access.{Ctx, require_auth}
use philosophy_app.Spaces.{SpaceRow, SpaceTables, space_id_is, has_profile}
use philosophy_app.Spaces.Tree.{
  parent_of, Move, stays, to_root, under, SpaceBody, live_row, new_depth, taken_row, count_child,
  uncount_child, new_row, create_space, recount_children,
}
use philosophy_app.Spaces.Ancestry.{exists, Tall, IsRooted, chain_from}
use philosophy_app.Spaces.Rooted.{Preserves, Tall-same, update-Preserves, update-IsRooted}

stay_in :
    (row : SpaceRow) (rows : List SpaceRow) (x : ℕ)
    → exists rows x ≡ true
    → exists (row ∷ rows) x ≡ true
stay_in row rows x e = elim (Bool-cases (row.base.id == x)) [
  | inl mine ↦ rw mine
  | inr other ↦ rw (other, e)
]

same_in :
    (row : SpaceRow) (rows : List SpaceRow) (x : ℕ)
    → exists rows row.base.id ≡ false
    → exists rows x ≡ true
    → parent_of (row ∷ rows) x ≡ parent_of rows x
same_in row rows x fresh e = elim (Bool-cases (row.base.id == x)) [
  | inl mine ↦
      let here : row.base.id ≡ x = ground arith in
      absurd (cc (sym (subst (λ (y : ℕ). exists rows y ≡ false) here fresh) ∙ e))
  | inr other ↦ rw (other, parent_of)
]

Tall-in :
    (row : SpaceRow) (rows : List SpaceRow) (n : ℕ) (c : Option ℕ)
    → exists rows row.base.id ≡ false
    → Tall rows n c
    → Tall (row ∷ rows) n c
Tall-in row rows n c fresh =
    Tall-same rows (row ∷ rows) n c (stay_in row rows) (λ x e. same_in row rows x fresh e)

grown :
    (row : SpaceRow) (rows xs : List SpaceRow)
    → exists rows row.base.id ≡ false
    → All (λ (r : SpaceRow). (n : ℕ) × Tall rows n r.parent_space_id) xs
    → All (λ (r : SpaceRow). (n : ℕ) × Tall (row ∷ rows) n r.parent_space_id) xs
grown row rows [] fresh a = tt
grown row rows (x ∷ xs) fresh ((n, at), later) =
    ((n, Tall-in row rows n x.parent_space_id fresh at), grown row rows xs fresh later)

-- A new row below a row that is there, or below none.
insert-IsRooted :
    (row : SpaceRow) (rows : List SpaceRow)
    → exists rows row.base.id ≡ false
    → (k : ℕ) × Tall rows k row.parent_space_id
    → IsRooted rows
    → IsRooted (row ∷ rows)
insert-IsRooted row rows fresh (k, above) rooted =
    ((k, Tall-in row rows k row.parent_space_id fresh above), grown row rows rows fresh rooted)

untaken :
    (project_id id : ℕ) (slug : Option ℕ) (short_id : ℕ) (rows : List SpaceRow)
    → has_row (taken_row project_id id slug short_id) rows ≡ false
    → exists rows id ≡ false
untaken project_id id slug short_id [] h = refl
untaken project_id id slug short_id (r ∷ rows) h = elim (Bool-cases (r.base.id == id)) [
  | inl mine ↦ absurd (cc (rw mine at h))
  | inr other ↦ elim (Bool-cases (taken_row project_id id slug short_id r)) [
    | inl hit ↦ absurd (cc (rw hit at h))
    | inr free ↦ rw other (untaken project_id id slug short_id rows (rw free at h))
  ]
]

count-IsRooted :
    (q : Option ℕ) (rows : List SpaceRow) → IsRooted rows → IsRooted (count_child q rows)
count-IsRooted none rows rooted = rooted
count-IsRooted (some p) rows rooted =
    update-IsRooted (space_id_is p)
      (λ (r : SpaceRow). record r { child_spaces_count = r.child_spaces_count + 1 }) rows
      (λ x r. refl) (λ r. refl) rooted

uncount-IsRooted :
    (q : Option ℕ) (rows : List SpaceRow) → IsRooted rows → IsRooted (uncount_child q rows)
uncount-IsRooted none rows rooted = rooted
uncount-IsRooted (some p) rows rooted =
    update-IsRooted (space_id_is p)
      (λ (r : SpaceRow). record r { child_spaces_count = r.child_spaces_count - 1 }) rows
      (λ x r. refl) (λ r. refl) rooted

pub live-exists :
    (project_id id : ℕ) (rows : List SpaceRow) {r : SpaceRow}
    → find_row (live_row project_id id) rows ≡ some r
    → exists rows id ≡ true
live-exists project_id id rows {r} found =
    let holds = find_row_sound (live_row project_id id) rows {x = r} found in
    has_row_of_found (live_row project_id id) (space_id_is id) rows {x = r} found
      (ground (arith, holds))

-- The parent of a new space is there.
depth_parent :
    (t : SpaceTables) (project_id : ℕ) (auth : AuthContext) (q : Option ℕ) {d : ℕ}
    → new_depth t project_id auth q ≡ ok d
    → IsRooted t.spaces
    → (k : ℕ) × Tall t.spaces k q
unfolding new_depth
depth_parent t project_id auth none h rooted = (0, tt)
depth_parent t project_id auth (some p) h rooted =
    let (parent, from, rest) =
      bind-ok (found_or bad_parent (find_row (live_row project_id p) t.spaces)) _ h in
    chain_from t.spaces p rooted
      (live-exists project_id p t.spaces {r = parent} (found_or-ok bad_parent _ from))

pub create-IsRooted :
    (t : SpaceTables) (c : Ctx) (body : Option SpaceBody) (valid : Bool) (fresh short_id : ℕ)
    {t' : SpaceTables}
    → create_space t c body valid fresh short_id ≡ ok t'
    → IsRooted t.spaces
    → IsRooted t'.spaces
unfolding create_space
create-IsRooted t c body valid fresh short_id {t'} h rooted =
    let (auth, from0, h1) = bind-ok (require_auth c) _ h in
    let (request, from1, h2) = bind-ok (parse_body body) _ h1 in
    let (u, from2, h3) = bind-ok {A = Unit} (guard valid rejected_by_webhook) _ h2 in
    let (depth, from3, h4) = bind-ok (new_depth t c.project_id auth request.parent_space_id) _ h3 in
    let (v, from4, h5) =
      bind-ok {A = Unit}
        (refuse (has_row (taken_row c.project_id fresh request.slug short_id) t.spaces)
          database_error)
        _ h4 in
    let (w, from5, h6) =
      bind-ok {A = Unit} (guard (has_profile t auth.user_id) database_error) _ h5 in
    let free =
      untaken c.project_id fresh request.slug short_id t.spaces
        (refuse-ok _ database_error from4) in
    let row = new_row c.project_id auth.user_id request depth fresh short_id in
    let above = depth_parent t c.project_id auth request.parent_space_id {d = depth} from3 rooted in
    subst (λ (s : SpaceTables). IsRooted s.spaces) (ok-injective h6)
      (update-IsRooted (space_id_is fresh)
        (λ (r : SpaceRow). record r { members_count = r.members_count + 1 })
        (count_child request.parent_space_id (row ∷ t.spaces)) (λ x r. refl) (λ r. refl)
        (count-IsRooted request.parent_space_id (row ∷ t.spaces)
          (insert-IsRooted row t.spaces free above rooted)))

count-Preserves : (q : Option ℕ) (rows : List SpaceRow) → Preserves rows (count_child q rows)
count-Preserves none rows = (λ x e. e, λ x e. refl)
count-Preserves (some p) rows =
    update-Preserves (space_id_is p)
      (λ (r : SpaceRow). record r { child_spaces_count = r.child_spaces_count + 1 }) rows
      (λ x r. refl) (λ r. refl)

uncount-Preserves : (q : Option ℕ) (rows : List SpaceRow) → Preserves rows (uncount_child q rows)
uncount-Preserves none rows = (λ x e. e, λ x e. refl)
uncount-Preserves (some p) rows =
    update-Preserves (space_id_is p)
      (λ (r : SpaceRow). record r { child_spaces_count = r.child_spaces_count - 1 }) rows
      (λ x r. refl) (λ r. refl)

pub recount-Preserves :
    (m : Move) (old : Option ℕ) (rows : List SpaceRow)
    → Preserves rows (recount_children m old rows)
recount-Preserves stays old rows = (λ x e. e, λ x e. refl)
recount-Preserves to_root old rows = uncount-Preserves old rows
recount-Preserves (under p d) old rows =
    let less = uncount-Preserves old rows in
    let more = count-Preserves (some p) (uncount_child old rows) in
    (λ x e. more.0 x (less.0 x e), λ x e. more.1 x (less.0 x e) ∙ less.1 x e)

pub recount-IsRooted :
    (m : Move) (old : Option ℕ) (rows : List SpaceRow)
    → IsRooted rows
    → IsRooted (recount_children m old rows)
recount-IsRooted stays old rows rooted = rooted
recount-IsRooted to_root old rows rooted = uncount-IsRooted old rows rooted
recount-IsRooted (under p d) old rows rooted =
    count-IsRooted (some p) (uncount_child old rows) (uncount-IsRooted old rows rooted)
