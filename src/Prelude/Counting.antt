-- ===== src/Prelude/Counting.antt =====
-- How the statements on a table change the number of rows that satisfy a test.
use mathlib.Core.Path.{◌≡◌, refl, ap, fun_ext, subst}
use mathlib.Core.Bool.{Bool, true, false}
use mathlib.Core.Logic.{inl, inr}
use mathlib.Core.Option
use mathlib.Core.Option.{Option, none, some}
use mathlib.Core.List.{List, [], ◌∷◌}
use native.Mathlib.Omega.{arith}
use Prim.Native.Nat.{◌≤◌, ◌<◌}
use philosophy_app.Prelude.Tests.{if◌then◌else◌, Bool-cases}
use philosophy_app.Prelude.Rows.{
  count_rows, find_row, has_row, update_rows, delete_rows, select_rows, All,
}

module _ {ℓ} {A : Type ℓ} where
  pub count_rows_ext :
      (p q : A → Bool) (xs : List A) → ((x : A) → p x ≡ q x) → count_rows p xs ≡ count_rows q xs
  count_rows_ext p q xs h = ap (λ r. count_rows r xs) (fun_ext h)

  pub find_row_ext :
      (p q : A → Bool) (xs : List A) → ((x : A) → p x ≡ q x) → find_row p xs ≡ find_row q xs
  find_row_ext p q xs h = ap (λ r. find_row r xs) (fun_ext h)

  pub count_rows-none : (p : A → Bool) (xs : List A) → find_row p xs ≡ none → count_rows p xs ≡ 0
  count_rows-none p [] h = refl
  count_rows-none p (x ∷ xs) h = elim (Bool-cases (p x)) [
    | inl holds ↦ cc (rw holds at h)
    | inr fails ↦ rw fails (omega (arith, count_rows-none p xs (rw fails at h)))
  ]

  pub count_rows_absent : (p : A → Bool) (xs : List A) → has_row p xs ≡ false → count_rows p xs ≡ 0
  count_rows_absent p [] h = refl
  count_rows_absent p (x ∷ xs) h = elim (Bool-cases (p x)) [
    | inl holds ↦ cc (rw holds at h)
    | inr fails ↦ rw fails (omega (arith, count_rows_absent p xs (rw fails at h)))
  ]

  pub count_rows_found :
      (p : A → Bool) (xs : List A) {x : A} → find_row p xs ≡ some x → 0 < count_rows p xs
  count_rows_found p [] h = cc
  count_rows_found p (y ∷ xs) {x} h = elim (Bool-cases (p y)) [
    | inl holds ↦ rw holds (omega arith)
    | inr fails ↦ rw fails (omega (arith, count_rows_found p xs {x = x} (rw fails at h)))
  ]

  pub count_rows_zero-find :
      (p : A → Bool) (xs : List A) → count_rows p xs ≡ 0 → find_row p xs ≡ none
  count_rows_zero-find p [] h = refl
  count_rows_zero-find p (x ∷ xs) h = elim (Bool-cases (p x)) [
    | inl holds ↦ absurd (omega (arith, rw holds at h))
    | inr fails ↦ rw fails (count_rows_zero-find p xs (omega (arith, rw fails at h)))
  ]

  -- An update that no counted row is affected by.
  pub count_rows-update_rows :
      (q p : A → Bool) (f : A → A) (xs : List A)
      → ((x : A) → p x ≡ true → q (f x) ≡ q x)
      → count_rows q (update_rows p f xs) ≡ count_rows q xs
  count_rows-update_rows q p f [] h = refl
  count_rows-update_rows q p f (x ∷ xs) h = elim (Bool-cases (p x)) [
    | inl holds ↦ rw (holds, h x holds) (omega (arith, count_rows-update_rows q p f xs h))
    | inr fails ↦ rw fails (omega (arith, count_rows-update_rows q p f xs h))
  ]

  pub update_rows_absent :
      (p : A → Bool) (f : A → A) (xs : List A) → count_rows p xs ≡ 0 → update_rows p f xs ≡ xs
  update_rows_absent p f [] h = refl
  update_rows_absent p f (x ∷ xs) h = elim (Bool-cases (p x)) [
    | inl holds ↦ absurd (omega (arith, rw holds at h))
    | inr fails ↦
        rw fails (ap (λ l. x ∷ l) (update_rows_absent p f xs (omega (arith, rw fails at h))))
  ]

  pub count_rows-delete_rows :
      (q p : A → Bool) (xs : List A) → count_rows q (delete_rows p xs) ≤ count_rows q xs
  count_rows-delete_rows q p [] = omega arith
  count_rows-delete_rows q p (x ∷ xs) = elim (Bool-cases (p x)) [
    | inl holds ↦ rw holds (omega (arith, count_rows-delete_rows q p xs))
    | inr fails ↦ rw fails (omega (arith, count_rows-delete_rows q p xs))
  ]

  -- A delete that no counted row is affected by.
  pub count_rows-delete_other :
      (q p : A → Bool) (xs : List A)
      → ((x : A) → p x ≡ true → q x ≡ false)
      → count_rows q (delete_rows p xs) ≡ count_rows q xs
  count_rows-delete_other q p [] h = refl
  count_rows-delete_other q p (x ∷ xs) h = elim (Bool-cases (p x)) [
    | inl holds ↦ rw (holds, h x holds) (omega (arith, count_rows-delete_other q p xs h))
    | inr fails ↦ rw fails (omega (arith, count_rows-delete_other q p xs h))
  ]

  pub count_rows_of_find :
      (p g : A → Bool) (xs : List A) {x : A}
      → find_row g xs ≡ some x
      → p x ≡ true
      → 0 < count_rows p xs
  count_rows_of_find p g [] h k = cc
  count_rows_of_find p g (y ∷ xs) {x} h k = elim (Bool-cases (g y)) [
    | inl holds ↦
        let same : x ≡ y = cc (rw holds at h) in
        let true_y : p y ≡ true = subst (λ z. p z ≡ true) same k in rw true_y (omega arith)
    | inr fails ↦ omega (arith, count_rows_of_find p g xs {x = x} (rw fails at h) k)
  ]

  -- An update by a key that one row at most has, where that row is still counted as before.
  pub count_rows-update_found :
      (q p g : A → Bool) (f : A → A) (xs : List A) {x : A}
      → count_rows p xs ≤ 1
      → find_row g xs ≡ some x
      → p x ≡ true
      → q (f x) ≡ q x
      → count_rows q (update_rows p f xs) ≡ count_rows q xs
  count_rows-update_found q p g f [] u h k e = cc
  count_rows-update_found q p g f (y ∷ xs) {x} u h k e = elim (Bool-cases (g y)) [
    | inl holds ↦
        let same : x ≡ y = cc (rw holds at h) in
        let true_y : p y ≡ true = subst (λ z. p z ≡ true) same k in
        let kept : q (f y) ≡ q y = subst (λ z. q (f z) ≡ q z) same e in
        rw (true_y, kept, update_rows_absent p f xs (omega (arith, rw true_y at u)))
    | inr fails ↦
        let later : find_row g xs ≡ some x = rw fails at h in
        elim (Bool-cases (p y)) [
          | inl twice ↦
              absurd (omega (arith, count_rows_of_find p g xs {x = x} later k, rw twice at u))
          | inr other ↦ rw other (
              omega (
                arith,
                count_rows-update_found q p g f xs {x = x} (omega (arith, rw other at u)) later k e,
              ))
        ]
  ]

  -- A search through an update that does not change what the search tests.
  pub find_row-update_rows :
      (q p : A → Bool) (f : A → A) (xs : List A)
      → ((x : A) → p x ≡ true → q (f x) ≡ q x)
      → find_row q (update_rows p f xs) ≡ Option.map (λ x. if p x then f x else x) (find_row q xs)
  find_row-update_rows q p f [] h = refl
  find_row-update_rows q p f (x ∷ xs) h = elim (Bool-cases (p x)) [
    | inl holds ↦ elim (Bool-cases (q x)) [
      | inl wanted ↦ rw (holds, h x holds, wanted) (rw holds)
      | inr skipped ↦ rw (holds, h x holds, skipped) (find_row-update_rows q p f xs h)
    ]
    | inr fails ↦ elim (Bool-cases (q x)) [
      | inl wanted ↦ rw (fails, wanted) (rw fails)
      | inr skipped ↦ rw (fails, skipped) (find_row-update_rows q p f xs h)
    ]
  ]

module _ {ℓ κ} {A : Type ℓ} (P : A → Type κ) where
  pub All-update_rows :
      (p : A → Bool) (f : A → A) (xs : List A)
      → ((x : A) → p x ≡ true → P x → P (f x))
      → All P xs
      → All P (update_rows p f xs)
  All-update_rows p f [] h a = tt
  All-update_rows p f (x ∷ xs) h (here, later) = elim (Bool-cases (p x)) [
    | inl holds ↦ rw holds (h x holds here, All-update_rows p f xs h later)
    | inr fails ↦ rw fails (here, All-update_rows p f xs h later)
  ]

  pub All-delete_rows : (p : A → Bool) (xs : List A) → All P xs → All P (delete_rows p xs)
  All-delete_rows p [] a = tt
  All-delete_rows p (x ∷ xs) (here, later) = elim (Bool-cases (p x)) [
    | inl holds ↦ rw holds (All-delete_rows p xs later)
    | inr fails ↦ rw fails (here, All-delete_rows p xs later)
  ]

  pub All-find_row : (p : A → Bool) (xs : List A) {x : A} → All P xs → find_row p xs ≡ some x → P x
  All-find_row p [] a h = cc
  All-find_row p (y ∷ xs) {x} (here, later) h = elim (Bool-cases (p y)) [
    | inl holds ↦ let same : y ≡ x = cc (rw holds at h) in subst P same here
    | inr fails ↦ All-find_row p xs {x = x} later (rw fails at h)
  ]

  All-of_zero : (p : A → Bool) (xs : List A) → count_rows p xs ≡ 0 → All (λ y. p y ≡ true → P y) xs
  All-of_zero p [] h = tt
  All-of_zero p (y ∷ xs) h = elim (Bool-cases (p y)) [
    | inl holds ↦ absurd (omega (arith, rw holds at h))
    | inr fails ↦ (λ e. cc, All-of_zero p xs (omega (arith, rw fails at h)))
  ]

  -- What holds of the one row of a key holds of every row of the key.
  pub All-of_unique :
      (p g : A → Bool) (xs : List A) {x : A}
      → count_rows p xs ≤ 1
      → find_row g xs ≡ some x
      → p x ≡ true
      → P x
      → All (λ y. p y ≡ true → P y) xs
  All-of_unique p g [] u h k px = tt
  All-of_unique p g (y ∷ xs) {x} u h k px = elim (Bool-cases (g y)) [
    | inl holds ↦
        let same : x ≡ y = cc (rw holds at h) in
        let true_y : p y ≡ true = subst (λ z. p z ≡ true) same k in
        (λ _. subst P same px, All-of_zero p xs (omega (arith, rw true_y at u)))
    | inr fails ↦
        let later : find_row g xs ≡ some x = rw fails at h in
        elim (Bool-cases (p y)) [
          | inl twice ↦
              absurd (omega (arith, count_rows_of_find p g xs {x = x} later k, rw twice at u))
          | inr other ↦
              (λ e. cc, All-of_unique p g xs {x = x} (omega (arith, rw other at u)) later k px)
        ]
  ]

module _ {ℓ} {A : Type ℓ} where
  -- An update of rows that a selection does not hold, before or after.
  pub select_rows-update_rows :
      (q p : A → Bool) (f : A → A) (xs : List A)
      → All (λ x. p x ≡ true → (q x ≡ false) × (q (f x) ≡ false)) xs
      → select_rows q (update_rows p f xs) ≡ select_rows q xs
  select_rows-update_rows q p f [] a = refl
  select_rows-update_rows q p f (x ∷ xs) (here, later) =
      let ih = select_rows-update_rows q p f xs later in
      elim (Bool-cases (p x)) [
        | inl holds ↦ let (old, new) = here holds in rw (holds, new, old) ih
        | inr fails ↦ elim (Bool-cases (q x)) [
          | inl kept ↦ rw (fails, kept) (ap (λ l. x ∷ l) ih)
          | inr out ↦ rw (fails, out) ih
        ]
      ]

  pub select_rows-delete_rows :
      (q p : A → Bool) (xs : List A)
      → All (λ x. p x ≡ true → q x ≡ false) xs
      → select_rows q (delete_rows p xs) ≡ select_rows q xs
  select_rows-delete_rows q p [] a = refl
  select_rows-delete_rows q p (x ∷ xs) (here, later) =
      let ih = select_rows-delete_rows q p xs later in
      elim (Bool-cases (p x)) [
        | inl holds ↦ rw (holds, here holds) ih
        | inr fails ↦ elim (Bool-cases (q x)) [
          | inl kept ↦ rw (fails, kept) (ap (λ l. x ∷ l) ih)
          | inr out ↦ rw (fails, out) ih
        ]
      ]
