-- ===== src/RateLimit.antt =====
-- apps/api/src/lib/rate-limit.ts: the fixed-window limiter with the store in memory. The map of
-- windows is a list with one entry for a key; a key is a number.
pub mod Windows
use philosophy_app.Prelude.{
  ℕ, ◌+◌, ◌-◌, ◌*◌, ◌/◌, max, Bool, Option, none, some, List, [], ◌∷◌, ◌==◌, leb, if◌then◌else◌,
  find_row, delete_rows,
}

pub record Window : Type 0 where
  pub key : ℕ
  pub count : ℕ
  pub reset_at : ℕ

pub record RateResult : Type 0 where
  pub allowed : Bool
  pub limit : ℕ
  pub remaining : ℕ
  pub retry_after_sec : ℕ

abbrev pub of_key : ℕ → Window → Bool
of_key key w = w.key == key

abbrev pub fresh_window : ℕ → ℕ → ℕ → Window
fresh_window key window_ms now = record { key = key; count = 0; reset_at = now + window_ms }

-- The window that a hit counts in.
unfoldable pub current_window : ℕ → ℕ → ℕ → List Window → Window
current_window key window_ms now windows = elim (find_row (of_key key) windows) [
  | none ↦ fresh_window key window_ms now
  | some w ↦ if leb w.reset_at now then fresh_window key window_ms now else w
]

abbrev pub counted : Window → Window
counted w = record w { count = w.count + 1 }

-- `Math.ceil(ms / 1000)`, of a number that is not negative.
abbrev pub ceil_sec : ℕ → ℕ
ceil_sec ms = (ms + 999) / 1000

abbrev pub rate_result : ℕ → ℕ → Window → RateResult
rate_result limit now w = record {
  allowed = leb w.count limit;
  limit = limit;
  remaining = limit - w.count;
  retry_after_sec = max 1 (ceil_sec (w.reset_at - now));
}

unfoldable pub hit : ℕ → ℕ → ℕ → ℕ → List Window → RateResult × List Window
unfolding current_window
hit key limit window_ms now windows =
    let w = counted (current_window key window_ms now windows) in
    (rate_result limit now w, w ∷ delete_rows (of_key key) windows)

unfoldable pub sweep : ℕ → List Window → List Window
sweep now windows = delete_rows (λ (w : Window). leb w.reset_at now) windows
