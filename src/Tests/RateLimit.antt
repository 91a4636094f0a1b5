-- ===== src/Tests/RateLimit.antt =====
-- The limiter, with two hits a second.
use philosophy_app.Prelude.{◌≡◌, ◌≤◌, refl, List, [], ◌∷◌, arith}
use philosophy_app.RateLimit.{Window, current_window, hit, sweep}
use philosophy_app.RateLimit.Windows.{allowed_for, window_bound, sweep_unseen}

abbrev old_window : List Window
old_window = record { key = 1; count = 9; reset_at = 100 } ∷ []

window_bound_example :
    allowed_for 1 2 1000 ((1, 200) ∷ (1, 300) ∷ (4, 310) ∷ (1, 400) ∷ []) old_window ≤ 2
unfolding current_window
window_bound_example =
    window_bound 1 2 1000 200 ((1, 300) ∷ (4, 310) ∷ (1, 400) ∷ []) old_window refl
      (λ e. omega arith, (λ e. omega arith, (λ e. omega arith, tt)))

sweep_unseen_example : (hit 1 2 1000 200 (sweep 150 old_window)).0 ≡ (hit 1 2 1000 200 old_window).0
sweep_unseen_example = sweep_unseen 1 2 1000 150 200 old_window (omega arith) (omega arith)
