-- ===== src/Prelude/Rows.antt =====
-- A table as the list of its rows, with the statements that the handlers run on it. A row is
-- inserted at the head; no theorem depends on the order of rows that the code leaves open.
use Prim.Native.Nat.{ℕ, suc, ◌+◌}
use mathlib.Core.Path.{◌≡◌, refl, subst}
use mathlib.Core.Logic.{inl, inr}
use mathlib.Core.Bool.{Bool, true, false, ◌||◌}
use mathlib.Core.Option.{Option, none, some}
use mathlib.Core.List.{List, [], ◌∷◌}
use native.Mathlib.Omega.{arith}
use philosophy_app.Prelude.Tests.{if◌then◌else◌, Bool-cases}

module _ {ℓ} {A : Type ℓ} where
  abbrev pub length : List A → ℕ
  length [] = 0
  length (x ∷ xs) = suc (length xs)

  -- `select … where p limit 1`
  abbrev pub find_row : (A → Bool) → List A → Option A
  find_row p [] = none
  find_row p (x ∷ xs) = if p x then some x else find_row p xs

  -- `select … where p`
  abbrev pub select_rows : (A → Bool) → List A → List A
  select_rows p [] = []
  select_rows p (x ∷ xs) = if p x then x ∷ select_rows p xs else select_rows p xs

  -- `exists (select 1 … where p)`, and `Array.prototype.some`
  abbrev pub has_row : (A → Bool) → List A → Bool
  has_row p [] = false
  has_row p (x ∷ xs) = p x || has_row p xs

  -- `select count(*) … where p`
  abbrev pub count_rows : (A → Bool) → List A → ℕ
  count_rows p [] = 0
  count_rows p (x ∷ xs) = (if p x then 1 else 0) + count_rows p xs

  -- `update … set f where p`
  abbrev pub update_rows : (A → Bool) → (A → A) → List A → List A
  update_rows p f [] = []
  update_rows p f (x ∷ xs) = (if p x then f x else x) ∷ update_rows p f xs

  -- `delete … where p`
  abbrev pub delete_rows : (A → Bool) → List A → List A
  delete_rows p [] = []
  delete_rows p (x ∷ xs) = if p x then delete_rows p xs else x ∷ delete_rows p xs

  abbrev pub All {κ} : (A → Type κ) → List A → Type κ
  All P [] = Unit
  All P (x ∷ xs) = P x × All P xs

module _ {ℓ} {A : Type ℓ} where
  pub length-select_rows :
      (p : A → Bool) (xs : List A) → length (select_rows p xs) ≡ count_rows p xs
  length-select_rows p [] = refl
  length-select_rows p (x ∷ xs) = elim (Bool-cases (p x)) [
    | inl yes_p ↦ rw yes_p (omega (arith, length-select_rows p xs))
    | inr no_p ↦ rw no_p (omega (arith, length-select_rows p xs))
  ]

  pub has_row_of_find :
      (p : A → Bool) (xs : List A) {x : A} → find_row p xs ≡ some x → has_row p xs ≡ true
  has_row_of_find p [] h = cc
  has_row_of_find p (x ∷ xs) {x = y} h = elim (Bool-cases (p x)) [
    | inl holds_p ↦ rw holds_p
    | inr fails_p ↦ rw fails_p (has_row_of_find p xs {x = y} (rw fails_p at h))
  ]

  pub find_row_of_has :
      (p : A → Bool) (xs : List A) → has_row p xs ≡ true → (x : A) × (find_row p xs ≡ some x)
  find_row_of_has p [] h = cc
  find_row_of_has p (x ∷ xs) h = elim (Bool-cases (p x)) [
    | inl holds_p ↦ (x, rw holds_p)
    | inr fails_p ↦ rw fails_p (find_row_of_has p xs (rw fails_p at h))
  ]

  -- The row that a query returns satisfies it.
  pub find_row_sound : (p : A → Bool) (xs : List A) {x : A} → find_row p xs ≡ some x → p x ≡ true
  find_row_sound p [] h = cc
  find_row_sound p (x ∷ xs) {x = y} h = elim (Bool-cases (p x)) [
    | inl holds_p ↦ let same : x ≡ y = cc (rw holds_p at h) in subst (λ z. p z ≡ true) same holds_p
    | inr fails_p ↦ find_row_sound p xs {x = y} (rw fails_p at h)
  ]

  pub find_row-delete_rows : (p : A → Bool) (xs : List A) → find_row p (delete_rows p xs) ≡ none
  find_row-delete_rows p [] = refl
  find_row-delete_rows p (x ∷ xs) = elim (Bool-cases (p x)) [
    | inl holds_p ↦ rw holds_p (find_row-delete_rows p xs)
    | inr fails_p ↦ rw (fails_p, fails_p) (find_row-delete_rows p xs)
  ]

  pub has_row_of_found :
      (p q : A → Bool) (xs : List A) {x : A}
      → find_row p xs ≡ some x
      → q x ≡ true
      → has_row q xs ≡ true
  has_row_of_found p q [] h k = cc
  has_row_of_found p q (y ∷ xs) {x} h k = elim (Bool-cases (p y)) [
    | inl holds_p ↦
        let same : x ≡ y = cc (rw holds_p at h) in
        let true_y : q y ≡ true = subst (λ z. q z ≡ true) same k in rw true_y
    | inr fails_p ↦
        let later : has_row q xs ≡ true = has_row_of_found p q xs {x = x} (rw fails_p at h) k in
        elim (Bool-cases (q y)) [ inl at_y ↦ rw at_y | inr off_y ↦ rw (off_y, later) ]
  ]

  -- An update of every row that a test holds of, after which it holds of none.
  pub find_row-update_out :
      (q p : A → Bool) (f : A → A) (xs : List A)
      → ((x : A) → p x ≡ false → q x ≡ false)
      → ((x : A) → q (f x) ≡ false)
      → find_row q (update_rows p f xs) ≡ none
  find_row-update_out q p f [] covers out = refl
  find_row-update_out q p f (x ∷ xs) covers out = elim (Bool-cases (p x)) [
    | inl holds_p ↦ rw (holds_p, out x, find_row-update_out q p f xs covers out)
    | inr fails_p ↦ rw (fails_p, covers x fails_p, find_row-update_out q p f xs covers out)
  ]

  pub unmatched_rows :
      (p q : A → Bool) (xs : List A)
      → ((x : A) → p x ≡ false → q x ≡ false)
      → find_row p xs ≡ none
      → has_row q xs ≡ false
  unmatched_rows p q [] weaker h = refl
  unmatched_rows p q (x ∷ xs) weaker h = elim (Bool-cases (p x)) [
    | inl holds_p ↦ absurd (cc (rw holds_p at h))
    | inr fails_p ↦ rw (weaker x fails_p, unmatched_rows p q xs weaker (rw fails_p at h))
  ]

  pub has_row-update_rows :
      (q p : A → Bool) (f : A → A) (xs : List A)
      → ((x : A) → q (f x) ≡ q x)
      → has_row q (update_rows p f xs) ≡ has_row q xs
  has_row-update_rows q p f [] same = refl
  has_row-update_rows q p f (x ∷ xs) same = elim (Bool-cases (p x)) [
    | inl holds_p ↦ rw (holds_p, same x, has_row-update_rows q p f xs same)
    | inr fails_p ↦ rw (fails_p, has_row-update_rows q p f xs same)
  ]
