-- ===== src/Events/Capacity.antt =====
-- How the RSVP handlers of apps/api/src/routes/events.ts keep the number of going guests within an
-- event's capacity.
use mathlib.Core.Path.{subst}
use philosophy_app.Prelude.{
  ℕ, ◌+◌, ◌≤◌, ◌<◌, ◌≡◌, refl, inl, inr, true, false, ◌&&◌, some, List, [], ◌∷◌, arith, ◌==◌, ltb,
  ==_refl, Bool-cases, Option-cases, find_row, count_rows, update_rows, has_row, if◌then◌else◌,
  count_rows_absent, update_rows_absent, count_rows-update_rows, find_row_of_has, has_row_of_find,
}
use philosophy_app.Http.{ok}
use philosophy_app.Events.{EventRow, EventRsvp, EventTables, RsvpStatus, going, can_rsvp_going}
use philosophy_app.Events.Rsvp.{
  is_going, own_rsvp, going_row, set_rsvp, upsert_rsvp, effective_going, going_transaction,
}

abbrev pub going_count : List EventRsvp → ℕ → ℕ
going_count rows event_id = count_rows (going_row event_id) rows

-- The unique key of `event_rsvps`.
abbrev pub OneEach : List EventRsvp → Type 0
OneEach rows = (event_id user_id : ℕ) → count_rows (own_rsvp event_id user_id) rows ≤ 1

-- One row of an event becomes going.
count_set_going :
    (e u : ℕ) (rows : List EventRsvp) {x : EventRsvp}
    → count_rows (own_rsvp e u) rows ≤ 1
    → find_row (own_rsvp e u) rows ≡ some x
    → going_count (update_rows (own_rsvp e u) (set_rsvp going) rows) e
      ≡ (if is_going x.status then going_count rows e else going_count rows e + 1)
count_set_going e u [] one found = cc
count_set_going e u (y ∷ rows) {x} one found = elim (Bool-cases (own_rsvp e u y)) [
  | inl mine ↦
      let same : y ≡ x = cc (rw mine at found) in
      let here : (y.event_id == e) ≡ true = ground arith in
      let alone : update_rows (own_rsvp e u) (set_rsvp going) rows ≡ rows =
        update_rows_absent (own_rsvp e u) (set_rsvp going) rows (omega (arith, rw mine at one)) in
      subst
        (λ z.
          going_count (update_rows (own_rsvp e u) (set_rsvp going) (y ∷ rows)) e
          ≡ (if is_going z.status then going_count (y ∷ rows) e else going_count (y ∷ rows) e + 1))
        same
        (elim (Bool-cases (is_going y.status)) [
          | inl was ↦ rw (mine, alone, here, was) (omega arith)
          | inr was_not ↦ rw (mine, alone, here, was_not) (omega arith)
        ])
  | inr other ↦
      let ih =
        count_set_going e u rows {x = x} (omega (arith, rw other at one)) (rw other at found) in
      elim (Bool-cases (is_going x.status)) [
        | inl was ↦ rw (other, was) (omega (arith, rw was at ih))
        | inr was_not ↦ rw (other, was_not) (omega (arith, rw was_not at ih))
      ]
]

effective_le :
    (e u : ℕ) (rows : List EventRsvp)
    → OneEach rows
    → going_count (upsert_rsvp e u going rows) e ≤ effective_going rows e u + 1
unfolding upsert_rsvp effective_going
effective_le e u rows one = elim (Option-cases (find_row (own_rsvp e u) rows)) [
  | inl fresh ↦ elim (Bool-cases (has_row (own_rsvp e u) rows)) [
    | inl there ↦ let (x, found) = find_row_of_has (own_rsvp e u) rows there in absurd cc
    | inr absent ↦ rw (upsert_rsvp, effective_going, fresh, absent, ==_refl e) (omega arith)
  ]
  | inr (x, found) ↦
      let there : has_row (own_rsvp e u) rows ≡ true =
        has_row_of_find (own_rsvp e u) rows {x = x} found in
      let ih = count_set_going e u rows {x = x} (one e u) found in
      elim (Bool-cases (is_going x.status)) [
        | inl was ↦
            rw (upsert_rsvp, effective_going, found, there, was) (omega (arith, rw was at ih))
        | inr was_not ↦
            rw (upsert_rsvp, effective_going, found, there, was_not)
              (omega (arith, rw was_not at ih))
      ]
]

-- After a going RSVP that succeeds, the event has at most as many going guests as the capacity that
-- the handler has read, whatever it had before, if each user has one RSVP at most for an event.
pub going-within_capacity :
    (t t' : EventTables) (row : EventRow) (user_id n : ℕ)
    → OneEach t.rsvps
    → row.capacity ≡ some n
    → going_transaction t row user_id ≡ ok t'
    → going_count t'.rsvps row.id ≤ n
unfolding going_transaction can_rsvp_going
going-within_capacity t t' row user_id n one cap h =
    elim (Bool-cases (ltb (effective_going t.rsvps row.id user_id) n)) [
      | inl room ↦
          let le = effective_le row.id user_id t.rsvps one in
          let less : effective_going t.rsvps row.id user_id < n = ground arith in
          let stored : upsert_rsvp row.id user_id going t.rsvps ≡ t'.rsvps =
            cc (rw (going_transaction, cap, room) at h) in
          rw (← stored) (omega (arith, le, less))
      | inr full ↦ absurd (cc (rw (going_transaction, cap, full) at h))
    ]

count_set_other :
    (e e' u : ℕ) (status : RsvpStatus) (rows : List EventRsvp)
    → is_going status ≡ false
    → going_count (update_rows (own_rsvp e u) (set_rsvp status) rows) e' ≤ going_count rows e'
count_set_other e e' u status [] h = omega arith
count_set_other e e' u status (y ∷ rows) h =
    let ih = count_set_other e e' u status rows h in
    elim (Bool-cases (own_rsvp e u y)) [
      | inl mine ↦ elim (Bool-cases (y.event_id == e')) [
        | inl here ↦ rw (mine, here, h) (omega (arith, ih))
        | inr away ↦ rw (mine, away) (omega (arith, ih))
      ]
      | inr other ↦ rw other (omega (arith, ih))
    ]

-- Writing an answer other than going adds no going guest to any event, and one for another event
-- changes no count of this one.
pub upsert_count_le :
    (e e' u : ℕ) (status : RsvpStatus) (rows : List EventRsvp)
    → is_going status ≡ false
    → going_count (upsert_rsvp e u status rows) e' ≤ going_count rows e'
unfolding upsert_rsvp
upsert_count_le e e' u status rows h = elim (Bool-cases (has_row (own_rsvp e u) rows)) [
  | inl there ↦ rw (upsert_rsvp, there) (count_set_other e e' u status rows h)
  | inr absent ↦ elim (Bool-cases (e == e')) [
    | inl same ↦ rw (upsert_rsvp, absent, same, h) (omega arith)
    | inr off ↦ rw (upsert_rsvp, absent, off) (omega arith)
  ]
]

pub upsert_count_away :
    (e e' u : ℕ) (status : RsvpStatus) (rows : List EventRsvp)
    → (e == e') ≡ false
    → going_count (upsert_rsvp e u status rows) e' ≡ going_count rows e'
unfolding upsert_rsvp
upsert_count_away e e' u status rows off = elim (Bool-cases (has_row (own_rsvp e u) rows)) [
  | inl there ↦
      rw (upsert_rsvp, there)
        (count_rows-update_rows (going_row e') (own_rsvp e u) (set_rsvp status) rows
          (λ x mine. (let gone : (x.event_id == e') ≡ false = ground arith in rw gone refl)))
  | inr absent ↦ rw (upsert_rsvp, absent, off) (omega arith)
]

pub upsert-OneEach :
    (e u : ℕ) (status : RsvpStatus) (rows : List EventRsvp)
    → OneEach rows
    → OneEach (upsert_rsvp e u status rows)
unfolding upsert_rsvp
upsert-OneEach e u status rows one e' u' = elim (Bool-cases (has_row (own_rsvp e u) rows)) [
  | inl there ↦
      rw
        (
          upsert_rsvp,
          there,
          count_rows-update_rows (own_rsvp e' u') (own_rsvp e u) (set_rsvp status) rows
              (λ x mine. refl),
        )
        (one e' u')
  | inr absent ↦ elim (Bool-cases (e == e' && u == u')) [
    | inl same ↦
        let here : e ≡ e' = ground arith in
        let who : u ≡ u' = ground arith in
        rw (upsert_rsvp, absent, same)
          (omega (arith, count_rows_absent (own_rsvp e' u') rows (rw (← here, ← who) absent)))
    | inr off ↦ rw (upsert_rsvp, absent, off) (omega (arith, one e' u'))
  ]
]
