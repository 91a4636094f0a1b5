-- ===== src/Spaces/Ancestry.antt =====
-- Chains of parents, and what the cycle check of apps/api/src/routes/spaces.ts finds out about them.
use mathlib.Core.Path.{subst}
use philosophy_app.Prelude.{
  ℕ, zero, suc, ◌<◌, ◌≡◌, refl, sym, ap, inl, inr, Bool, true, false, Option, none, some, List, [],
  ◌∷◌, arith, ◌==◌, Bool-cases, find_row, has_row, All, find_row_of_has, All-find_row,
}
use philosophy_app.Roles.{UuidText, printed, text_eq}
use philosophy_app.Spaces.{SpaceRow, space_id_is}
use philosophy_app.Spaces.Tree.{as_printed, parent_of, contains, cycle_walk}

abbrev pub exists : List SpaceRow → ℕ → Bool
exists rows x = has_row (space_id_is x) rows

-- The chain from here has this many spaces, all of them rows, and ends at a root.
abbrev pub Tall : List SpaceRow → ℕ → Option ℕ → Type 0
Tall rows zero none = Unit
Tall rows zero (some x) = ⊥
Tall rows (suc n) none = ⊥
Tall rows (suc n) (some x) = (exists rows x ≡ true) × Tall rows n (parent_of rows x)

-- Every space stands below a root: parents exist, and no space is above itself.
abbrev pub IsRooted : List SpaceRow → Type 0
IsRooted rows = All (λ (r : SpaceRow). (n : ℕ) × Tall rows n r.parent_space_id) rows

pub found_parent :
    (rows : List SpaceRow) (x : ℕ) {p : SpaceRow}
    → find_row (space_id_is x) rows ≡ some p
    → parent_of rows x ≡ p.parent_space_id
found_parent rows x found = rw (found, parent_of)

pub chain_from :
    (rows : List SpaceRow) (x : ℕ)
    → IsRooted rows
    → exists rows x ≡ true
    → (n : ℕ) × Tall rows n (some x)
chain_from rows x rooted e =
    let (r, found) = find_row_of_has (space_id_is x) rows e in
    let (n, above) =
      All-find_row (λ (y : SpaceRow). (k : ℕ) × Tall rows k y.parent_space_id) (space_id_is x) rows
        {x = r} rooted found in
    (suc n, (e, subst (Tall rows n) (sym (found_parent rows x found)) above))

-- The space is not on the chain.
abbrev pub Avoids : List SpaceRow → ℕ → ℕ → Option ℕ → Type 0
Avoids rows s zero c = Unit
Avoids rows s (suc n) none = Unit
Avoids rows s (suc n) (some x) = ((x == s) ≡ false) × Avoids rows s n (parent_of rows x)

Tall-unique :
    (rows : List SpaceRow) (m n : ℕ) (c : Option ℕ) → Tall rows m c → Tall rows n c → m ≡ n
Tall-unique rows zero zero c a b = refl
Tall-unique rows zero (suc n) none a b = absurd b
Tall-unique rows zero (suc n) (some x) a b = absurd a
Tall-unique rows (suc m) zero none a b = absurd a
Tall-unique rows (suc m) zero (some x) a b = absurd b
Tall-unique rows (suc m) (suc n) none a b = absurd a
Tall-unique rows (suc m) (suc n) (some x) a b =
    ap (λ k. suc k) (Tall-unique rows m n (parent_of rows x) a.1 b.1)

-- Printed texts are equal where their uuids are.
pub same_text : (u : UuidText) (x : ℕ) → text_eq u (printed x) ≡ true → u.uuid ≡ x
same_text u x e = ground arith

pub other_text : (x y : ℕ) → text_eq (printed x) (printed y) ≡ false → (x == y) ≡ false
other_text x y e = ground arith

contains-All :
    (P : ℕ → Type 0) (ys : List UuidText) (x : ℕ)
    → contains ys (printed x) ≡ true
    → All (λ (y : UuidText). P y.uuid) ys
    → P x
unfolding contains
contains-All P [] x h a = absurd (cc h)
contains-All P (y ∷ ys) x h (at, later) = elim (Bool-cases (text_eq y (printed x))) [
  | inl same ↦ subst P (same_text y x same) at
  | inr other ↦ contains-All P ys x (rw other at h) later
]

-- The spaces that the walk has seen are further down.
abbrev pub Lower : List SpaceRow → ℕ → UuidText → Type 0
Lower rows n y = (m : ℕ) → Tall rows m (some y.uuid) → n < m

Lower-weaker :
    (rows : List SpaceRow) (n : ℕ) (seen : List UuidText)
    → All (Lower rows (suc n)) seen
    → All (Lower rows n) seen
Lower-weaker rows n [] a = tt
Lower-weaker rows n (y ∷ ys) (at, later) =
    (λ m t. omega (arith, at m t), Lower-weaker rows n ys later)

-- A walk up a chain that ends, which answers that there is no cycle, has not met the space.
pub walk-Avoids :
    (rows : List SpaceRow) (fuel s : ℕ) (seen : List UuidText) (n : ℕ) (c : Option ℕ)
    → Tall rows n c
    → All (Lower rows n) seen
    → cycle_walk rows fuel s seen (as_printed c) ≡ some false
    → Avoids rows s n c
unfolding cycle_walk
walk-Avoids rows fuel s seen zero c t a h = tt
walk-Avoids rows fuel s seen (suc n) none t a h = tt
walk-Avoids rows zero s seen (suc n) (some x) t a h = absurd (cc h)
walk-Avoids rows (suc fuel) s seen (suc n) (some x) t a h =
    elim (Bool-cases (text_eq (printed x) (printed s))) [
      | inl met ↦ absurd (cc (rw (cycle_walk, met) at h))
      | inr off ↦ elim (Bool-cases (contains seen (printed x))) [
        | inl again ↦ absurd (
            omega (
              arith,
              contains-All (λ (y : ℕ). (m : ℕ) → Tall rows m (some y) → suc n < m) seen x again a
                  (suc n) t,
            ))
        | inr new ↦ (
          other_text x s off,
          walk-Avoids rows fuel s (printed x ∷ seen) n (parent_of rows x) t.1
              (
                λ m higher. omega (arith, Tall-unique rows m (suc n) (some x) higher t),
                Lower-weaker rows n seen a,
              )
              (rw (cycle_walk, off, new) at h),
        )
      ]
    ]

-- The same where the walk starts at a text of any spelling, which spells another uuid than the space's.
pub start-Avoids :
    (rows : List SpaceRow) (fuel s : ℕ) (u : UuidText) (n : ℕ)
    → (u.uuid == s) ≡ false
    → Tall rows n (some u.uuid)
    → cycle_walk rows (suc fuel) s [] (some u) ≡ some false
    → Avoids rows s n (some u.uuid)
unfolding cycle_walk contains
start-Avoids rows fuel s u zero away t h = tt
start-Avoids rows fuel s u (suc n) away t h = elim (Bool-cases (text_eq u (printed s))) [
  | inl met ↦ absurd (cc (rw (cycle_walk, met) at h))
  | inr off ↦ (
    away,
    walk-Avoids rows fuel s (u ∷ []) n (parent_of rows u.uuid) t.1
        (λ m higher. omega (arith, Tall-unique rows m (suc n) (some u.uuid) higher t), tt)
        (rw (cycle_walk, off, contains) at h),
  )
]

-- A chain that avoids a space is as tall in other tables that keep its spaces and their parents.
pub Tall-kept :
    (rows rows' : List SpaceRow) (s n : ℕ) (c : Option ℕ)
    → ((x : ℕ) → exists rows x ≡ true → exists rows' x ≡ true)
    → ((x : ℕ) → exists rows x ≡ true → (x == s) ≡ false → parent_of rows' x ≡ parent_of rows x)
    → Avoids rows s n c
    → Tall rows n c
    → Tall rows' n c
Tall-kept rows rows' s zero none stay same off t = tt
Tall-kept rows rows' s zero (some x) stay same off t = absurd t
Tall-kept rows rows' s (suc n) none stay same off t = absurd t
Tall-kept rows rows' s (suc n) (some x) stay same off t = (
  stay x t.0,
  subst (Tall rows' n) (sym (same x t.0 off.0))
      (Tall-kept rows rows' s n (parent_of rows x) stay same off.1 t.1),
)

-- Where one space has a new parent with a chain of its own, every chain still ends.
pub Tall-moved :
    (rows rows' : List SpaceRow) (s : ℕ)
    → ((x : ℕ) → exists rows x ≡ true → exists rows' x ≡ true)
    → ((x : ℕ) → exists rows x ≡ true → (x == s) ≡ false → parent_of rows' x ≡ parent_of rows x)
    → (k : ℕ) → Tall rows' k (some s)
    → (n : ℕ) (c : Option ℕ) → Tall rows n c
    → (m : ℕ) × Tall rows' m c
Tall-moved rows rows' s stay same k moved zero none t = (0, tt)
Tall-moved rows rows' s stay same k moved zero (some x) t = absurd t
Tall-moved rows rows' s stay same k moved (suc n) none t = absurd t
Tall-moved rows rows' s stay same k moved (suc n) (some x) t = elim (Bool-cases (x == s)) [
  | inl at ↦
      let here : s ≡ x = ground arith in (k, subst (λ (y : ℕ). Tall rows' k (some y)) here moved)
  | inr off ↦
      let (m, above) = Tall-moved rows rows' s stay same k moved n (parent_of rows x) t.1 in
      (suc m, (stay x t.0, subst (Tall rows' m) (sym (same x t.0 off)) above))
]
