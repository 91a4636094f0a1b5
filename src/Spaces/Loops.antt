-- ===== src/Spaces/Loops.antt =====
-- The two loops of apps/api/src/routes/spaces.ts that walk up the tree end.
use mathlib.Core.Path.{subst}
use philosophy_app.Prelude.{
  ℕ, zero, suc, ◌+◌, ◌≤◌, ◌≡◌, refl, ap, sym, ◌∙◌, inl, inr, Bool, true, false, not, Option, none,
  some, List, [], ◌∷◌, arith, ◌==◌, Bool-cases, Option-cases, find_row, count_rows, All,
  All-find_row, find_row_sound, length, has_row_of_find, ==_refl,
}
use philosophy_app.Http.{ok, guard-ok}
use philosophy_app.Access.{Ctx, assert_space_visible, space_visible_to_viewer}
use philosophy_app.Roles.{UuidText, printed, text_eq}
use philosophy_app.Spaces.{
  got_row, SpaceParam, SpaceRow, SpaceTables, gate_tables, space_id_is, get_space,
}
use philosophy_app.Spaces.Tree.{as_printed, parent_of, contains, cycle_walk, climb, breadcrumb}
use philosophy_app.Spaces.Ancestry.{exists, Tall, IsRooted, found_parent}

abbrev unseen : List UuidText → SpaceRow → Bool
unseen seen r = not (contains seen (printed r.base.id))

unseen_fewer :
    (rows : List SpaceRow) (seen : List UuidText) (x : UuidText)
    → count_rows (unseen (x ∷ seen)) rows ≤ count_rows (unseen seen) rows
unfolding contains
unseen_fewer [] seen x = omega arith
unseen_fewer (r ∷ rows) seen x =
    let rest = unseen_fewer rows seen x in
    elim (Bool-cases (contains seen (printed r.base.id))) [
      | inl old ↦ rw old (ground arith)
      | inr new ↦ rw new (ground arith)
    ]

unseen_shrinks :
    (rows : List SpaceRow) (seen : List UuidText) (x : ℕ)
    → exists rows x ≡ true
    → contains seen (printed x) ≡ false
    → count_rows (unseen (printed x ∷ seen)) rows + 1 ≤ count_rows (unseen seen) rows
unfolding contains
unseen_shrinks [] seen x e new = absurd (cc e)
unseen_shrinks (r ∷ rows) seen x e new = elim (Bool-cases (r.base.id == x)) [
  | inl mine ↦
      let here : r.base.id ≡ x = ground arith in
      let fewer = unseen_fewer rows seen (printed x) in rw (here, new, ==_refl x) (omega arith)
  | inr other ↦
      let rest = unseen_shrinks rows seen x (rw other at e) new in
      elim (Bool-cases (contains seen (printed r.base.id))) [
        | inl old ↦ rw old (ground arith)
        | inr fresh ↦ rw fresh (ground arith)
      ]
]

absent_parent : (rows : List SpaceRow) (x : ℕ) → exists rows x ≡ false → parent_of rows x ≡ none
absent_parent rows x e = elim (Option-cases (find_row (space_id_is x) rows)) [
  | inl missing ↦ rw (missing, parent_of)
  | inr (r, found) ↦ absurd (cc (sym e ∙ has_row_of_find (space_id_is x) rows found))
]

-- The rounds that a walk from here needs.
abbrev weight : List SpaceRow → List UuidText → Option ℕ → ℕ
weight rows seen none = 1
weight rows seen (some x) = count_rows (unseen seen) rows + 2

weight-le :
    (rows : List SpaceRow) (seen : List UuidText) (c : Option ℕ)
    → weight rows seen c ≤ count_rows (unseen seen) rows + 2
weight-le rows seen none = omega arith
weight-le rows seen (some x) = omega arith

walk_answers :
    (rows : List SpaceRow) (fuel s : ℕ) (seen : List UuidText) (c : Option ℕ)
    → weight rows seen c ≤ fuel
    → (b : Bool) × (cycle_walk rows fuel s seen (as_printed c) ≡ some b)
unfolding cycle_walk
walk_answers rows zero s seen none enough = absurd (omega arith)
walk_answers rows zero s seen (some x) enough = absurd (omega arith)
walk_answers rows (suc fuel) s seen none enough = (false, refl)
walk_answers rows (suc fuel) s seen (some x) enough =
    elim (Bool-cases (text_eq (printed x) (printed s))) [
      | inl met ↦ (true, rw met)
      | inr off ↦ elim (Bool-cases (contains seen (printed x))) [
        | inl again ↦ (false, rw (off, again))
        | inr new ↦
            let rest : (b : Bool) × (cycle_walk rows fuel s (printed x ∷ seen)
                    (as_printed (parent_of rows x))
                  ≡ some b) =
              elim (Bool-cases (exists rows x)) [
                | inl row ↦ walk_answers rows fuel s (printed x ∷ seen) (parent_of rows x) (
                    omega (
                      arith,
                      weight-le rows (printed x ∷ seen) (parent_of rows x),
                      unseen_shrinks rows seen x row new,
                    ))
                | inr dangling ↦
                    walk_answers rows fuel s (printed x ∷ seen) (parent_of rows x)
                      (rw (absent_parent rows x dangling) (omega arith))
              ] in
            (rest.0, rw (off, new) rest.1)
      ]
    ]

unseen-le-length :
    (rows : List SpaceRow) (seen : List UuidText) → count_rows (unseen seen) rows ≤ length rows
unseen-le-length [] seen = omega arith
unseen-le-length (r ∷ rows) seen =
    let rest = unseen-le-length rows seen in
    elim (Bool-cases (contains seen (printed r.base.id))) [
      | inl old ↦ rw old (omega arith)
      | inr new ↦ rw new (omega arith)
    ]

pub walk_from :
    (rows : List SpaceRow) (space_id : ℕ) (new_parent_id : UuidText)
    → (b : Bool) × (cycle_walk rows (suc (suc (suc (length rows)))) space_id [] (some new_parent_id)
        ≡ some b)
unfolding cycle_walk contains
walk_from rows space_id new_parent_id =
    let rest =
      walk_answers rows (suc (suc (length rows))) space_id (new_parent_id ∷ [])
        (parent_of rows new_parent_id.uuid)
        (omega (
          arith,
          weight-le rows (new_parent_id ∷ []) (parent_of rows new_parent_id.uuid),
          unseen-le-length rows (new_parent_id ∷ []),
        )) in
    elim (Bool-cases (text_eq new_parent_id (printed space_id))) [
      | inl met ↦ (true, rw met)
      | inr off ↦ (rest.0, rw off rest.1)
    ]

-- The loop of the cycle check ends by itself in every table, whatever parents the rows name and whether or
-- not they hold a cycle already: two rounds more than there are rows are enough where the request spells
-- the new parent as the server prints it, and three in every spelling.
pub cycle_walk_ends :
    (rows : List SpaceRow) (space_id : ℕ) (new_parent_id : UuidText)
    → ((b : Bool) × (cycle_walk rows
            (suc (suc (length rows)))
            space_id
            []
            (some (printed new_parent_id.uuid))
          ≡ some b))
      × ((b : Bool) × (cycle_walk rows
              (suc (suc (suc (length rows))))
              space_id
              []
              (some new_parent_id)
            ≡ some b))
cycle_walk_ends rows space_id new_parent_id = (
  walk_answers rows (suc (suc (length rows))) space_id [] (some new_parent_id.uuid)
      (omega (arith, unseen-le-length rows [])),
  walk_from rows space_id new_parent_id,
)

-- The test that the loop makes: it asks for privacy, and not whether the space has been deleted.
abbrev pub Passes : SpaceTables → Ctx → SpaceRow → Type 0
Passes t c r = space_visible_to_viewer (gate_tables t) c r.base ≡ true

-- Each space is the parent of the next one, and the last one is the space asked for.
abbrev pub LeadsTo : ℕ → List SpaceRow → Type 0
LeadsTo id [] = ⊥
LeadsTo id (r ∷ []) = r.base.id ≡ id
LeadsTo id (p ∷ (r ∷ rows)) = (r.parent_space_id ≡ some p.base.id) × LeadsTo id (r ∷ rows)

module _ (t : SpaceTables) (c : Ctx) (fuel : ℕ) (current : SpaceRow) (chain : List SpaceRow) where
  climb_root : current.parent_space_id ≡ none → climb t c (suc fuel) current chain ≡ some chain
  unfolding climb
  climb_root root = rw root

  module _ (x : ℕ) (up : current.parent_space_id ≡ some x) where
    climb_missing :
        find_row (space_id_is x) t.spaces ≡ none → climb t c (suc fuel) current chain ≡ some chain
    unfolding climb
    climb_missing missing = rw (up, missing, climb)

    climb_hidden :
        (p : SpaceRow)
        → find_row (space_id_is x) t.spaces ≡ some p
        → space_visible_to_viewer (gate_tables t) c p.base ≡ false
        → climb t c (suc fuel) current chain ≡ some chain
    unfolding climb
    climb_hidden p found hidden = rw (up, found, hidden, climb)

    climb_higher :
        (p : SpaceRow)
        → find_row (space_id_is x) t.spaces ≡ some p
        → space_visible_to_viewer (gate_tables t) c p.base ≡ true
        → climb t c (suc fuel) current chain ≡ climb t c fuel p (p ∷ chain)
    unfolding climb
    climb_higher p found shown = rw (up, found, shown, climb)

climb_ends :
    (t : SpaceTables) (c : Ctx) (n id : ℕ) (current : SpaceRow) (chain : List SpaceRow)
    → Tall t.spaces n current.parent_space_id
    → All (Passes t c) (current ∷ chain)
    → LeadsTo id (current ∷ chain)
    → (out : List SpaceRow) × (climb t c (suc n) current (current ∷ chain) ≡ some out)
      × All (Passes t c) out
      × LeadsTo id out
climb_ends t c zero id current chain tall seen leads = elim (Option-cases current.parent_space_id) [
  | inl root ↦ (current ∷ chain, climb_root t c 0 current (current ∷ chain) root, seen, leads)
  | inr (x, up) ↦ absurd (subst (Tall t.spaces 0) up tall)
]
climb_ends t c (suc n) id current chain tall seen leads =
    elim (Option-cases current.parent_space_id) [
      | inl root ↦
          (current ∷ chain, climb_root t c (suc n) current (current ∷ chain) root, seen, leads)
      | inr (x, up) ↦ elim (Option-cases (find_row (space_id_is x) t.spaces)) [
        | inl missing ↦ (
          current ∷ chain,
          climb_missing t c (suc n) current (current ∷ chain) x up missing,
          seen,
          leads,
        )
        | inr (p, found) ↦ elim (Bool-cases (space_visible_to_viewer (gate_tables t) c p.base)) [
          | inr hidden ↦ (
            current ∷ chain,
            climb_hidden t c (suc n) current (current ∷ chain) x up p found hidden,
            seen,
            leads,
          )
          | inl shown ↦
              let below = subst (Tall t.spaces (suc n)) up tall in
              let mine = find_row_sound (space_id_is x) t.spaces {x = p} found in
              let here : x ≡ p.base.id = ground arith in
              let linked : current.parent_space_id ≡ some p.base.id =
                up ∙ ap (λ (y : ℕ). some y) here in
              let higher =
                climb_ends t c n id p (current ∷ chain)
                  (subst (Tall t.spaces n) (found_parent t.spaces x found) below.1) (shown, seen)
                  (linked, leads) in
              (
                higher.0,
                climb_higher t c (suc n) current (current ∷ chain) x up p found shown ∙ higher.1,
                higher.2,
                higher.3,
              )
        ]
      ]
    ]

-- Where every space stands below a root, the loop of the breadcrumb ends for a space that the caller sees:
-- there is a number of rounds after which the handler answers. In its answer each space is the parent of
-- the next one, the last one is the space asked for, and each passes the visibility test, which a
-- deleted space passes too.
pub breadcrumb_ends :
    (t : SpaceTables) (c : Ctx) (param : SpaceParam) {space : SpaceRow}
    → IsRooted t.spaces
    → get_space t c.project_id param ≡ ok space
    → assert_space_visible (gate_tables t) c space.base ≡ ok tt
    → (fuel : ℕ) × (out : List SpaceRow) × (breadcrumb t c fuel param ≡ ok (some out))
      × All (Passes t c) out
      × LeadsTo space.base.id out
unfolding breadcrumb assert_space_visible
breadcrumb_ends t c param {space} rooted found seen =
    let (q, row, _, _) = got_row t c.project_id param {space = space} found in
    let (n, above) =
      All-find_row (λ (y : SpaceRow). (k : ℕ) × Tall t.spaces k y.parent_space_id) q t.spaces
        {x = space} rooted row in
    let shown : Passes t c space = guard-ok _ _ (unfold assert_space_visible in seen) in
    let (out, runs, passed, leads) =
      climb_ends t c n space.base.id space [] above (shown, tt) refl in
    (suc n, out, rw (found, seen, runs), passed, leads)
