-- ===== src/Spaces/Rooted.antt =====
-- Updates of the rows of spaces of apps/api/src/routes/spaces.ts, and the chains of parents.
use mathlib.Core.Path.{subst}
use philosophy_app.Prelude.{
  ℕ, zero, suc, ◌≡◌, sym, ◌∙◌, inl, inr, Bool, true, false, Option, none, some, List, [], ◌∷◌,
  arith, ◌==◌, Bool-cases, Option-cases, find_row, update_rows, All, has_row-update_rows,
  find_row-update_rows, find_row_of_has, find_row_sound,
}
use philosophy_app.Spaces.{SpaceRow, space_id_is}
use philosophy_app.Spaces.Tree.{parent_of}
use philosophy_app.Spaces.Ancestry.{exists, Tall, IsRooted, Avoids, Tall-kept, Tall-moved}

pub Tall-same :
    (rows rows' : List SpaceRow) (n : ℕ) (c : Option ℕ)
    → ((x : ℕ) → exists rows x ≡ true → exists rows' x ≡ true)
    → ((x : ℕ) → exists rows x ≡ true → parent_of rows' x ≡ parent_of rows x)
    → Tall rows n c
    → Tall rows' n c
Tall-same rows rows' zero none stay same t = tt
Tall-same rows rows' zero (some x) stay same t = absurd t
Tall-same rows rows' (suc n) none stay same t = absurd t
Tall-same rows rows' (suc n) (some x) stay same t = (
  stay x t.0,
  subst (Tall rows' n) (sym (same x t.0)) (Tall-same rows rows' n (parent_of rows x) stay same t.1),
)

-- An update that keeps the parent of the rows with the id.
parent_kept :
    (p : SpaceRow → Bool) (f : SpaceRow → SpaceRow) (rows : List SpaceRow) (x : ℕ)
    → ((r : SpaceRow) → space_id_is x (f r) ≡ space_id_is x r)
    → ((r : SpaceRow)
        → p r ≡ true
        → space_id_is x r ≡ true
        → (f r).parent_space_id ≡ r.parent_space_id)
    → parent_of (update_rows p f rows) x ≡ parent_of rows x
parent_kept p f rows x ids same =
    let mapped = find_row-update_rows (space_id_is x) p f rows (λ r _. ids r) in
    elim (Option-cases (find_row (space_id_is x) rows)) [
      | inl missing ↦ rw (mapped, missing, parent_of)
      | inr (r, found) ↦ elim (Bool-cases (p r)) [
        | inl holds ↦
            rw (mapped, found, holds, parent_of)
              (same r holds (find_row_sound (space_id_is x) rows {x = r} found))
        | inr fails ↦ rw (mapped, found, fails, parent_of)
      ]
    ]

parent_set :
    (s : ℕ) (q : Option ℕ) (f : SpaceRow → SpaceRow) (rows : List SpaceRow)
    → ((r : SpaceRow) → space_id_is s (f r) ≡ space_id_is s r)
    → ((r : SpaceRow) → (f r).parent_space_id ≡ q)
    → exists rows s ≡ true
    → parent_of (update_rows (space_id_is s) f rows) s ≡ q
parent_set s q f rows ids new e =
    let mapped = find_row-update_rows (space_id_is s) (space_id_is s) f rows (λ r _. ids r) in
    let (r, found) = find_row_of_has (space_id_is s) rows e in
    let mine = find_row_sound (space_id_is s) rows {x = r} found in
    rw (mapped, found, mine, parent_of) (new r)

-- Rows under an update: what each new row needs.
updated_all :
    (p : SpaceRow → Bool) (f : SpaceRow → SpaceRow) (rows rows' xs : List SpaceRow)
    → ((n : ℕ) (c : Option ℕ) → Tall rows n c → (m : ℕ) × Tall rows' m c)
    → ((r : SpaceRow) (n : ℕ)
        → Tall rows n r.parent_space_id
        → p r ≡ true
        → (m : ℕ) × Tall rows' m (f r).parent_space_id)
    → All (λ (r : SpaceRow). (n : ℕ) × Tall rows n r.parent_space_id) xs
    → All (λ (r : SpaceRow). (n : ℕ) × Tall rows' n r.parent_space_id) (update_rows p f xs)
updated_all p f rows rows' [] rest new a = tt
updated_all p f rows rows' (x ∷ xs) rest new ((n, at), later) = elim (Bool-cases (p x)) [
  | inl holds ↦ rw holds (new x n at holds, updated_all p f rows rows' xs rest new later)
  | inr fails ↦ rw fails (rest n x.parent_space_id at, updated_all p f rows rows' xs rest new later)
]

-- Tables that keep the spaces of others, with their parents.
abbrev pub Preserves : List SpaceRow → List SpaceRow → Type 0
Preserves rows rows' =
    ((x : ℕ) → exists rows x ≡ true → exists rows' x ≡ true)
    × ((x : ℕ) → exists rows x ≡ true → parent_of rows' x ≡ parent_of rows x)

pub Avoids-kept :
    (rows rows' : List SpaceRow) (s n : ℕ) (c : Option ℕ)
    → Preserves rows rows'
    → Tall rows n c
    → Avoids rows s n c
    → Avoids rows' s n c
Avoids-kept rows rows' s zero c kept t off = tt
Avoids-kept rows rows' s (suc n) none kept t off = tt
Avoids-kept rows rows' s (suc n) (some x) kept t off = (
  off.0,
  subst (Avoids rows' s n) (sym (kept.1 x t.0))
      (Avoids-kept rows rows' s n (parent_of rows x) kept t.1 off.1),
)

pub update-Preserves :
    (p : SpaceRow → Bool) (f : SpaceRow → SpaceRow) (rows : List SpaceRow)
    → ((x : ℕ) (r : SpaceRow) → space_id_is x (f r) ≡ space_id_is x r)
    → ((r : SpaceRow) → (f r).parent_space_id ≡ r.parent_space_id)
    → Preserves rows (update_rows p f rows)
update-Preserves p f rows ids same = (
  λ x e. has_row-update_rows (space_id_is x) p f rows (ids x) ∙ e,
  λ x e. parent_kept p f rows x (ids x) (λ r _ _. same r),
)

-- An update that changes no parent.
pub update-IsRooted :
    (p : SpaceRow → Bool) (f : SpaceRow → SpaceRow) (rows : List SpaceRow)
    → ((x : ℕ) (r : SpaceRow) → space_id_is x (f r) ≡ space_id_is x r)
    → ((r : SpaceRow) → (f r).parent_space_id ≡ r.parent_space_id)
    → IsRooted rows
    → IsRooted (update_rows p f rows)
update-IsRooted p f rows ids same rooted =
    let rows' = update_rows p f rows in
    let (stay, parents) = update-Preserves p f rows ids same in
    let tall =
      λ (n : ℕ) (c : Option ℕ) (t : Tall rows n c). Tall-same rows rows' n c stay parents t in
    updated_all p f rows rows' rows (λ n c t. (n, tall n c t))
      (λ r n t _. (n, subst (Tall rows' n) (sym (same r)) (tall n r.parent_space_id t))) rooted

apart :
    (r : SpaceRow) (x s : ℕ)
    → space_id_is s r ≡ true
    → space_id_is x r ≡ true
    → (x == s) ≡ false
    → ⊥
apart r x s at_s at_x away = ground arith

-- A space that gets a parent whose chain does not come by it.
pub move-IsRooted :
    (s : ℕ) (q : Option ℕ) (f : SpaceRow → SpaceRow) (rows : List SpaceRow)
    → ((x : ℕ) (r : SpaceRow) → space_id_is x (f r) ≡ space_id_is x r)
    → ((r : SpaceRow) → (f r).parent_space_id ≡ q)
    → exists rows s ≡ true
    → (k : ℕ) → Tall rows k q
    → Avoids rows s k q
    → IsRooted rows
    → IsRooted (update_rows (space_id_is s) f rows)
move-IsRooted s q f rows ids new e k above off rooted =
    let rows' = update_rows (space_id_is s) f rows in
    let stay = λ (x : ℕ) (h : exists rows x ≡ true).
      has_row-update_rows (space_id_is x) (space_id_is s) f rows (ids x) ∙ h in
    let same = λ (x : ℕ) (h : exists rows x ≡ true) (away : (x == s) ≡ false).
      parent_kept (space_id_is s) f rows x (ids x)
        (λ r at_s at_x. absurd (apart r x s at_s at_x away)) in
    let higher : Tall rows' k q = Tall-kept rows rows' s k q stay same off above in
    let up : Tall rows' (suc k) (some s) =
      (stay s e, subst (Tall rows' k) (sym (parent_set s q f rows (ids s) new e)) higher) in
    updated_all (space_id_is s) f rows rows' rows (Tall-moved rows rows' s stay same (suc k) up)
      (λ r n t _. (k, subst (Tall rows' k) (sym (new r)) higher)) rooted
