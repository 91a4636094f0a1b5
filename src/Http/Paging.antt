-- ===== src/Http/Paging.antt =====
-- The `limit` of a query and the page that it cuts, as the handlers of
-- apps/secure-chat/src/routes/secure-chat.ts do it.
use philosophy_app.Prelude.{
  ℕ, zero, suc, min, ◌-◌, Bool, true, false, List, ltb, length, take, Page,
}
use philosophy_app.Http.{Result, ok, ◌>>=◌}

-- `Number(q)` for a query parameter: absent also where it is no number, and `below n` for the number
-- that is n + 1 under zero. Fractions are left out.
pub data LimitQuery : Type 0 where
  absent : LimitQuery
  whole below : ℕ → LimitQuery

-- The limit of a page: a number of rows, or n + 1 under zero.
pub data Limit : Type 0 where
  rows_up_to under_zero : ℕ → Limit

abbrev pub or_default : ℕ → ℕ → ℕ
or_default usual zero = usual
or_default usual (suc n) = suc n

-- `Math.min(Number(q) || usual, most)`
abbrev pub clamp_limit : ℕ → ℕ → LimitQuery → Limit
clamp_limit usual most absent = rows_up_to (min usual most)
clamp_limit usual most (whole n) = rows_up_to (min (or_default usual n) most)
clamp_limit usual most (below n) = under_zero n

abbrev pub above_zero : LimitQuery → Bool
above_zero (below n) = false
above_zero _ = true

-- What the query builder and the database answer to `limit(-n)`, which is theirs to say: some rows of
-- the query, or a failure.
abbrev pub ShortQuery : Type 1
ShortQuery = (A : Type 0) → ℕ → List A → Result (List A)

-- `rows.slice(0, -n)`
abbrev pub drop_last : {A : Type 0} → ℕ → List A → List A
drop_last n xs = take (length xs - n) xs

-- `limit(limit + 1)`, then `rows.slice(0, limit)` and `rows.length > limit`.
abbrev pub page_of : {A : Type 0} → ShortQuery → Limit → List A → Result (Page A)
page_of short (rows_up_to limit) xs =
    let fetched = take (suc limit) xs in
    ok (record { rows = take limit fetched; has_more = ltb limit (length fetched) })
page_of {A} short (under_zero n) xs = do
  fetched ← short A n xs
  ok (record { rows = drop_last (suc n) fetched; has_more = true })
