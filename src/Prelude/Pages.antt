-- ===== src/Prelude/Pages.antt =====
-- `order by … limit`: rows in order, and the first rows of a list.
use Prim.Native.Nat.{ℕ, zero, suc, ◌<◌}
use mathlib.Core.Path.{◌≡◌, refl, ap}
use native.Mathlib.Omega.{arith}
use mathlib.Core.Bool.{Bool, true, false}
use mathlib.Core.List.{List, [], ◌∷◌}
use philosophy_app.Prelude.Tests.{if◌then◌else◌, ltb}
use philosophy_app.Prelude.Rows.{length}

module _ {ℓ} {A : Type ℓ} where
  abbrev pub take : ℕ → List A → List A
  take zero xs = []
  take (suc n) [] = []
  take (suc n) (x ∷ xs) = x ∷ take n xs

  -- The rows before which `r` comes stand after it.
  abbrev pub insert_row : (A → A → Bool) → A → List A → List A
  insert_row before r [] = r ∷ []
  insert_row before r (x ∷ xs) = if before r x then r ∷ (x ∷ xs) else x ∷ insert_row before r xs

  -- `order by`
  abbrev pub sort_rows : (A → A → Bool) → List A → List A
  sort_rows before [] = []
  sort_rows before (x ∷ xs) = insert_row before x (sort_rows before xs)

-- The answer of a handler that asks for one row more than it gives.
pub record Page {ℓ} (A : Type ℓ) : Type ℓ where
  pub rows : List A
  pub has_more : Bool

module _ {ℓ} {A : Type ℓ} where
  pub take-take : (n : ℕ) (xs : List A) → take n (take (suc n) xs) ≡ take n xs
  take-take zero xs = refl
  take-take (suc n) [] = refl
  take-take (suc n) (x ∷ xs) = ap (λ l. x ∷ l) (take-take n xs)

  -- Where no row is left over, the first rows are all.
  pub take_whole : (n : ℕ) (xs : List A) → ltb n (length (take (suc n) xs)) ≡ false → take n xs ≡ xs
  take_whole zero [] h = refl
  take_whole zero (x ∷ xs) h = absurd cc
  take_whole (suc n) [] h = refl
  take_whole (suc n) (x ∷ xs) h = ap (λ l. x ∷ l) (take_whole n xs (ground arith))

  pub take_some :
      (n : ℕ) (xs : List A)
      → 0 < n
      → ltb n (length (take (suc n) xs)) ≡ true
      → 0 < length (take n xs)
  take_some zero xs pos h = pos
  take_some (suc n) [] pos h = absurd (ground arith)
  take_some (suc n) (x ∷ xs) pos h = omega arith
