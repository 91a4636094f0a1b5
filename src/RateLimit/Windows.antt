-- ===== src/RateLimit/Windows.antt =====
-- How many hits the limiter of apps/api/src/lib/rate-limit.ts lets through in one window, and what a
-- sweep changes.
use mathlib.Core.Path.{subst}
use philosophy_app.Prelude.{
  ℕ, ◌+◌, ◌-◌, ◌≤◌, ◌<◌, ◌≡◌, refl, sym, ap, ◌∙◌, inl, inr, Bool, true, false, ◌&&◌, none, some,
  List, [], ◌∷◌, arith, ◌==◌, ==_refl, leb, Bool-cases, Option-cases, find_row, find_row_sound,
  count_rows, count_rows_zero-find, count_rows-delete_rows, delete_rows, All, if◌then◌else◌,
}
use philosophy_app.RateLimit.{
  Window, of_key, fresh_window, current_window, counted, rate_result, hit, sweep,
}

find_row-delete_other :
    (k key : ℕ) (rows : List Window)
    → (key == k) ≡ false
    → find_row (of_key k) (delete_rows (of_key key) rows) ≡ find_row (of_key k) rows
find_row-delete_other k key [] off = refl
find_row-delete_other k key (w ∷ rows) off =
    let ih = find_row-delete_other k key rows off in
    elim (Bool-cases (w.key == key)) [
      | inl gone ↦ let miss : (w.key == k) ≡ false = ground arith in rw (gone, miss) ih
      | inr kept ↦ elim (Bool-cases (w.key == k)) [
        | inl mine ↦ rw (kept, mine) refl
        | inr other ↦ rw (kept, other) ih
      ]
    ]

-- The hits on the key `k` that are let through, in a sequence of hits (key, time).
abbrev pub allowed_for : ℕ → ℕ → ℕ → List (ℕ × ℕ) → List Window → ℕ
allowed_for k limit window_ms [] windows = 0
allowed_for k limit window_ms ((key, now) ∷ rest) windows =
    (if key == k && (hit key limit window_ms now windows).0.allowed then 1 else 0)
    + allowed_for k limit window_ms rest (hit key limit window_ms now windows).1

-- The hits on `k` come before the time.
abbrev pub Before : ℕ → ℕ → List (ℕ × ℕ) → Type 0
Before k time hits = All (λ (h : ℕ × ℕ). h.0 ≡ k → h.1 < time) hits

current_open :
    (k window_ms now : ℕ) (windows : List Window) {w : Window}
    → find_row (of_key k) windows ≡ some w
    → now < w.reset_at
    → current_window k window_ms now windows ≡ w
unfolding current_window
current_open k window_ms now windows {w} found early =
    let open_now : leb w.reset_at now ≡ false = ground arith in
    rw (current_window, found, open_now) refl

one_more :
    (n limit rest : ℕ)
    → rest ≤ limit - (n + 1)
    → (if leb (n + 1) limit then 1 else 0) + rest ≤ limit - n
one_more n limit rest h = ground arith

current_key :
    (key window_ms now : ℕ) (windows : List Window)
    → (current_window key window_ms now windows).key ≡ key
unfolding current_window
current_key key window_ms now windows = elim (Option-cases (find_row (of_key key) windows)) [
  | inl none_yet ↦ rw (current_window, none_yet) refl
  | inr (w, found) ↦
      let self : (w.key == key) ≡ true = find_row_sound (of_key key) windows {x = w} found in
      elim (Bool-cases (leb w.reset_at now)) [
        | inl over ↦ rw (current_window, found, over) refl
        | inr running ↦ rw (current_window, found, running) (ground arith)
      ]
]

-- The window `w` of the key counts the hits to come.
within_window :
    (k limit window_ms : ℕ) (hits : List (ℕ × ℕ)) (windows : List Window) (w : Window)
    → find_row (of_key k) windows ≡ some w
    → w.key ≡ k
    → Before k w.reset_at hits
    → allowed_for k limit window_ms hits windows ≤ limit - w.count
unfolding hit
within_window k limit window_ms [] windows w found own before = omega arith
within_window k limit window_ms ((key, now) ∷ rest) windows w found own (first, later) =
    elim (Bool-cases (key == k)) [
      | inl mine ↦
          let same : key ≡ k = ground arith in
          let self : (w.key == k) ≡ true = ground arith in
          let here : current_window k window_ms now windows ≡ w =
            current_open k window_ms now windows {w = w} found (first same) in
          let next =
            within_window k limit window_ms rest (counted w ∷ delete_rows (of_key k) windows)
              (counted w) (rw self refl) own later in
          subst (λ z. allowed_for k limit window_ms ((z, now) ∷ rest) windows ≤ limit - w.count)
            (sym same) (rw (here, ==_refl k) (one_more w.count limit _ next))
      | inr other ↦
          let away : ((current_window key window_ms now windows).key == k) ≡ false =
            rw (current_key key window_ms now windows) other in
          let next =
            within_window k limit window_ms rest (hit key limit window_ms now windows).1 w
              (rw away (find_row-delete_other k key windows other ∙ found)) own later in
          rw other (omega (arith, next))
    ]

-- Where a hit on a key opens a window, no more than `limit` hits on the key pass, that one counted,
-- before the window ends, whatever hits on other keys lie between.
pub window_bound :
    (k limit window_ms now : ℕ) (rest : List (ℕ × ℕ)) (windows : List Window)
    → current_window k window_ms now windows ≡ fresh_window k window_ms now
    → Before k (now + window_ms) rest
    → allowed_for k limit window_ms ((k, now) ∷ rest) windows ≤ limit
unfolding hit
window_bound k limit window_ms now rest windows opens before =
    let next =
      within_window k limit window_ms rest
        (counted (fresh_window k window_ms now) ∷ delete_rows (of_key k) windows)
        (counted (fresh_window k window_ms now)) (rw (==_refl k) refl) refl before in
    rw (opens, ==_refl k) (omega (arith, one_more 0 limit _ next))

abbrev expired : ℕ → Window → Bool
expired now w = leb w.reset_at now

swept_none :
    (key now : ℕ) (rows : List Window)
    → count_rows (of_key key) rows ≡ 0
    → find_row (of_key key) (delete_rows (expired now) rows) ≡ none
swept_none key now rows h =
    count_rows_zero-find (of_key key) (delete_rows (expired now) rows)
      (omega (arith, count_rows-delete_rows (of_key key) (expired now) rows, h))

current_swept :
    (key window_ms now later : ℕ) (rows : List Window)
    → now ≤ later
    → count_rows (of_key key) rows ≤ 1
    → current_window key window_ms later (delete_rows (expired now) rows)
      ≡ current_window key window_ms later rows
unfolding current_window
current_swept key window_ms now later [] le one = refl
current_swept key window_ms now later (w ∷ rows) le one = elim (Bool-cases (w.key == key)) [
  | inl mine ↦
      let alone : count_rows (of_key key) rows ≡ 0 = omega (arith, rw mine at one) in
      elim (Bool-cases (leb w.reset_at now)) [
        | inl gone ↦
            let over : leb w.reset_at later ≡ true = ground arith in
            rw (current_window, gone, mine, over, swept_none key now rows alone) refl
        | inr kept ↦ rw (current_window, kept, mine) refl
      ]
  | inr other ↦
      let ih = current_swept key window_ms now later rows le (omega (arith, rw other at one)) in
      elim (Bool-cases (leb w.reset_at now)) [
        | inl gone ↦ rw (current_window, gone, other) ih
        | inr kept ↦ rw (current_window, kept, other) ih
      ]
]

-- A sweep changes no answer: a hit at the time of the sweep or later is answered as without it, where
-- the map has one window at most for the key.
pub sweep_unseen :
    (key limit window_ms now later : ℕ) (windows : List Window)
    → now ≤ later
    → count_rows (of_key key) windows ≤ 1
    → (hit key limit window_ms later (sweep now windows)).0
      ≡ (hit key limit window_ms later windows).0
unfolding hit sweep
sweep_unseen key limit window_ms now later windows le one =
    ap (λ w. rate_result limit later (counted w))
      (current_swept key window_ms now later windows le one)
