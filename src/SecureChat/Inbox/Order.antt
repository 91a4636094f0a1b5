-- ===== src/SecureChat/Inbox/Order.antt =====
-- Rows in the order of their numbers, and the rows after a cursor.
use mathlib.Core.List.{append-nil}
use philosophy_app.Prelude.{
  ℕ, zero, suc, ◌≤◌, ◌<◌, ◌≡◌, refl, ap, ◌∙◌, inl, inr, Bool, true, false, ◌&&◌, List, [], ◌∷◌,
  ◌++◌, arith, ltb, if◌then◌else◌, Bool-cases, select_rows, take, sort_rows, insert_row, All,
}
use philosophy_app.SecureChat.{Handshake}
use philosophy_app.SecureChat.Messages.{lower_seq}
use philosophy_app.SecureChat.Epochs.{Descending}

-- Rows of ever higher numbers, all above a bound.
abbrev pub Ascending : ℕ → List Handshake → Type 0
Ascending bound [] = Unit
Ascending bound (h ∷ hs) = (bound < h.seq) × Ascending h.seq hs

-- The cursor after a page: the number of its last row.
abbrev pub last_seq : ℕ → List Handshake → ℕ
last_seq since [] = since
last_seq since (h ∷ hs) = last_seq h.seq hs

abbrev pub Below : ℕ → List Handshake → Type 0
Below bound = All (λ (h : Handshake). h.seq < bound)

-- What sorting does to rows of ever lower numbers.
abbrev pub reversed : List Handshake → List Handshake
reversed [] = []
reversed (h ∷ hs) = reversed hs ++ (h ∷ [])

insert_last :
    (h : Handshake) (xs : List Handshake)
    → Below h.seq xs
    → insert_row lower_seq h xs ≡ xs ++ (h ∷ [])
insert_last h [] b = refl
insert_last h (x ∷ xs) (at, later) =
    let after : lower_seq h x ≡ false = ground arith in
    rw after (ap (λ l. x ∷ l) (insert_last h xs later))

Below-snoc :
    (bound : ℕ) (xs : List Handshake) (h : Handshake)
    → Below bound xs
    → h.seq < bound
    → Below bound (xs ++ (h ∷ []))
Below-snoc bound [] h b lt = (lt, tt)
Below-snoc bound (x ∷ xs) h (at, later) lt = (at, Below-snoc bound xs h later lt)

Descending-weaker :
    (low high : ℕ) (hs : List Handshake) → low ≤ high → Descending low hs → Descending high hs
Descending-weaker low high [] le d = tt
Descending-weaker low high (h ∷ hs) le (at, later) = (omega arith, later)

pub reversed-Below :
    (bound : ℕ) (hs : List Handshake) → Descending bound hs → Below bound (reversed hs)
reversed-Below bound [] d = tt
reversed-Below bound (h ∷ hs) (at, later) =
    Below-snoc bound (reversed hs) h
      (reversed-Below bound hs (Descending-weaker h.seq bound hs (omega arith) later)) at

pub sort-eq-reversed :
    (bound : ℕ) (hs : List Handshake) → Descending bound hs → sort_rows lower_seq hs ≡ reversed hs
sort-eq-reversed bound [] d = refl
sort-eq-reversed bound (h ∷ hs) (at, later) =
    ap (insert_row lower_seq h) (sort-eq-reversed h.seq hs later)
    ∙ insert_last h (reversed hs) (reversed-Below h.seq hs later)

pub Descending-select :
    (p : Handshake → Bool) (bound : ℕ) (hs : List Handshake)
    → Descending bound hs
    → Descending bound (select_rows p hs)
Descending-select p bound [] d = tt
Descending-select p bound (h ∷ hs) (at, later) = elim (Bool-cases (p h)) [
  | inl holds ↦ rw holds (at, Descending-select p h.seq hs later)
  | inr fails ↦ rw fails (
      Descending-weaker h.seq bound (select_rows p hs) (omega arith)
        (Descending-select p h.seq hs later))
]

select-snoc :
    (p : Handshake → Bool) (xs : List Handshake) (h : Handshake)
    → select_rows p (xs ++ (h ∷ [])) ≡ select_rows p xs ++ (if p h then h ∷ [] else [])
select-snoc p [] h = elim (Bool-cases (p h)) [ inl holds ↦ rw holds | inr fails ↦ rw fails ]
select-snoc p (x ∷ xs) h = elim (Bool-cases (p x)) [
  | inl holds ↦ rw holds (ap (λ l. x ∷ l) (select-snoc p xs h))
  | inr fails ↦ rw fails (select-snoc p xs h)
]

pub select-reversed :
    (p : Handshake → Bool) (hs : List Handshake)
    → select_rows p (reversed hs) ≡ reversed (select_rows p hs)
select-reversed p [] = refl
select-reversed p (h ∷ hs) = select-snoc p (reversed hs) h ∙ (elim (Bool-cases (p h)) [
  | inl holds ↦ rw (holds, select-reversed p hs)
  | inr fails ↦ rw (fails, select-reversed p hs) (append-nil _)
])

pub select-select :
    (p q r : Handshake → Bool) (hs : List Handshake)
    → ((h : Handshake) → r h ≡ (p h && q h))
    → select_rows q (select_rows p hs) ≡ select_rows r hs
select-select p q r [] both = refl
select-select p q r (h ∷ hs) both = elim (Bool-cases (p h)) [
  | inl holds ↦ elim (Bool-cases (q h)) [
    | inl wanted ↦ rw (both h, holds, wanted) (ap (λ l. h ∷ l) (select-select p q r hs both))
    | inr other ↦ rw (both h, holds, other) (select-select p q r hs both)
  ]
  | inr fails ↦ rw (both h, fails) (select-select p q r hs both)
]

Ascending-snoc :
    (bound : ℕ) (xs : List Handshake) (h : Handshake)
    → Ascending bound xs
    → Below h.seq xs
    → bound < h.seq
    → Ascending bound (xs ++ (h ∷ []))
Ascending-snoc bound [] h a b lt = (lt, tt)
Ascending-snoc bound (x ∷ xs) h (at, later) (below, rest) lt =
    (at, Ascending-snoc x.seq xs h later rest below)

abbrev pub Above : ℕ → List Handshake → Type 0
Above bound = All (λ (h : Handshake). bound < h.seq)

pub reversed-Ascending :
    (low high : ℕ) (hs : List Handshake)
    → Descending high hs
    → Above low hs
    → Ascending low (reversed hs)
reversed-Ascending low high [] d a = tt
reversed-Ascending low high (h ∷ hs) (at, later) (above, rest) =
    Ascending-snoc low (reversed hs) h (reversed-Ascending low h.seq hs later rest)
      (reversed-Below h.seq hs later) above

pub select-Above :
    (p : Handshake → Bool) (low : ℕ) (hs : List Handshake)
    → ((h : Handshake) → p h ≡ true → low < h.seq)
    → Above low (select_rows p hs)
select-Above p low [] above = tt
select-Above p low (h ∷ hs) above = elim (Bool-cases (p h)) [
  | inl holds ↦ rw holds (above h holds, select-Above p low hs above)
  | inr fails ↦ rw fails (select-Above p low hs above)
]

abbrev pub after_cursor : ℕ → Handshake → Bool
after_cursor cursor h = ltb cursor h.seq

-- Rows above a bound all stand after a cursor that is not past the bound.
select_all :
    (cursor low : ℕ) (xs : List Handshake)
    → cursor ≤ low
    → Ascending low xs
    → select_rows (after_cursor cursor) xs ≡ xs
select_all cursor low [] le a = refl
select_all cursor low (x ∷ xs) le (at, later) =
    let after : ltb cursor x.seq ≡ true = ground arith in
    rw after (ap (λ l. x ∷ l) (select_all cursor x.seq xs (omega arith) later))

pub last_seq-le :
    (low n : ℕ) (xs : List Handshake) → Ascending low xs → low ≤ last_seq low (take n xs)
last_seq-le low zero xs a = omega arith
last_seq-le low (suc n) [] a = omega arith
last_seq-le low (suc n) (x ∷ xs) (at, later) = omega (arith, last_seq-le x.seq n xs later)

-- The first rows, followed by the rows after the last of them, are all.
pub take_resume :
    (low n : ℕ) (xs : List Handshake)
    → Ascending low xs
    → take n xs ++ select_rows (after_cursor (last_seq low (take n xs))) xs ≡ xs
take_resume low zero xs a = select_all low low xs (omega arith) a
take_resume low (suc n) [] a = refl
take_resume low (suc n) (x ∷ xs) (at, later) =
    let passed = last_seq-le x.seq n xs later in
    let skipped : ltb (last_seq x.seq (take n xs)) x.seq ≡ false = ground arith in
    rw skipped (ap (λ l. x ∷ l) (take_resume x.seq n xs later))

-- The cursor after the first rows comes before every number that is past all rows and past the old cursor.
pub last_seq-lt :
    (low n top m : ℕ) (xs : List Handshake)
    → low < m
    → top ≤ m
    → Below top xs
    → last_seq low (take n xs) < m
last_seq-lt low zero top m xs lt le b = lt
last_seq-lt low (suc n) top m [] lt le b = lt
last_seq-lt low (suc n) top m (x ∷ xs) lt le (at, later) =
    last_seq-lt x.seq n top m xs (omega (arith, at, le)) le later
