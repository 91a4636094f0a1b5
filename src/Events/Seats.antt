-- ===== src/Events/Seats.antt =====
-- Sequences of the requests of apps/api/src/routes/events.ts that change the RSVPs of an event whose
-- own row stays as it is, with the read of the row and the transaction taken apart.
use mathlib.Core.Path.{subst}
use philosophy_app.Prelude.{
  ℕ, ◌≤◌, ◌≡◌, sym, ap, ◌∙◌, inl, inr, Bool, not, ◌&&◌, ◌||◌, Option, some, List, arith, ◌==◌, ltb,
  Bool-cases, Option-cases, find_row, delete_rows, All, All-find_row, count_rows-delete_rows,
  is_none,
}
use philosophy_app.Http.{bind-ok, rsvp_closed, maybe_not_allowed, ok, refuse}
use philosophy_app.Auth.{AuthContext}
use philosophy_app.Access.{require_auth, Ctx}
use philosophy_app.Events.{
  EventRow, EventRsvp, EventTables, Listed, of_user, RsvpStatus, going, can_rsvp_going,
  get_event_or_404, assert_can_view_event,
}
use philosophy_app.Events.Rsvp.{
  parsed_status, is_cancelled, is_going, is_maybe, own_rsvp, going_row, upsert_rsvp,
  effective_going, going_transaction, write_rsvp, rsvp, withdraw_rsvp,
}
use philosophy_app.Events.Manage.{managed, parsed, delete_invites}
use philosophy_app.Events.Capacity.{
  going_count, OneEach, going-within_capacity, upsert_count_le, upsert_count_away, upsert-OneEach,
}

-- A row, if it is that of the event, has the capacity.
abbrev pub CapacityOf : ℕ → ℕ → EventRow → Type 0
CapacityOf e n row = row.id ≡ e → row.capacity ≡ some n

-- One request on the RSVPs. `raced` is a transaction whose row was read at an earlier time.
pub data Step (e n : ℕ) (t t' : EventTables) : Type 0 where
  answered :
      (c : Ctx) (event_id : ℕ) (body : Option RsvpStatus) (now : ℕ)
      → rsvp t c event_id body now ≡ ok t'
      → Step e n t t'
  raced :
      (row : EventRow) (user_id : ℕ) (status : RsvpStatus)
      → CapacityOf e n row
      → write_rsvp t row user_id status ≡ ok t'
      → Step e n t t'
  withdrew : (c : Ctx) (event_id : ℕ) → withdraw_rsvp t c event_id ≡ ok t' → Step e n t t'
  uninvited :
      (c : Ctx) (event_id : ℕ) (body : Option ℕ)
      → delete_invites t c event_id body ≡ ok t'
      → Step e n t t'

pub data Reach (e n : ℕ) (t : EventTables) : EventTables → Type 0 where
  here : Reach e n t t
  next : {t' v : EventTables} → Reach e n t t' → Step e n t' v → Reach e n t v

pub record IsSeated (e n : ℕ) (t : EventTables) : Type 0 where
  pub one_each : OneEach t.rsvps
  pub within : going_count t.rsvps e ≤ n
  pub capacity : All (CapacityOf e n) t.events

found_capacity :
    (e n : ℕ) (t : EventTables) (c : Ctx) (event_id : ℕ) {row : EventRow}
    → All (CapacityOf e n) t.events
    → get_event_or_404 t c event_id ≡ ok row
    → CapacityOf e n row
unfolding get_event_or_404
found_capacity e n t c event_id {row} all h =
    elim (Option-cases (
      find_row
        (λ (x : EventRow).
          x.project_id == c.project_id && (x.id == event_id && is_none x.deleted_at))
        t.events)) [
          | inl missing ↦ absurd (cc (rw (get_event_or_404, missing) at h))
          | inr (x, found) ↦
              let same : x ≡ row = cc (rw (get_event_or_404, found) at h) in
              subst (CapacityOf e n) same
                (All-find_row (CapacityOf e n) _ t.events {x = x} all found)
        ]

abbrev stored : EventTables → EventRow → ℕ → RsvpStatus → EventTables
stored t row user_id status = record t { rsvps = upsert_rsvp row.id user_id status t.rsvps }

transaction_stored :
    (t t' : EventTables) (row : EventRow) (user_id : ℕ)
    → going_transaction t row user_id ≡ ok t'
    → stored t row user_id going ≡ t'
unfolding going_transaction
transaction_stored t t' row user_id h =
    elim (Bool-cases (can_rsvp_going (effective_going t.rsvps row.id user_id) row.capacity)) [
      | inl room ↦ cc (rw (going_transaction, room) at h)
      | inr full ↦ absurd (cc (rw (going_transaction, full) at h))
    ]

stored-IsSeated :
    (e n : ℕ) (t : EventTables) (row : EventRow) (user_id : ℕ) (status : RsvpStatus)
    → going_count (upsert_rsvp row.id user_id status t.rsvps) e ≤ n
    → IsSeated e n t
    → IsSeated e n (stored t row user_id status)
stored-IsSeated e n t row user_id status fits old = record {
  one_each = upsert-OneEach row.id user_id status t.rsvps old.one_each;
  within = fits;
  capacity = old.capacity;
}

going-IsSeated :
    (e n : ℕ) (t t' : EventTables) (row : EventRow) (user_id : ℕ)
    → CapacityOf e n row
    → going_transaction t row user_id ≡ ok t'
    → IsSeated e n t
    → IsSeated e n t'
going-IsSeated e n t t' row user_id cap h old =
    let same = transaction_stored t t' row user_id h in
    subst (IsSeated e n) same (
      stored-IsSeated e n t row user_id going
        (elim (Bool-cases (row.id == e)) [
          | inl mine ↦
              let here : row.id ≡ e = ground arith in
              subst (λ i. going_count (upsert_rsvp row.id user_id going t.rsvps) i ≤ n) here
                (going-within_capacity t (stored t row user_id going) row user_id n old.one_each
                  (cap here) (h ∙ ap (λ x. ok x) (sym same)))
          | inr off ↦ rw (upsert_count_away row.id e user_id going t.rsvps off) old.within
        ])
        old)

write-IsSeated :
    (e n : ℕ) (t t' : EventTables) (row : EventRow) (user_id : ℕ) (status : RsvpStatus)
    → CapacityOf e n row
    → write_rsvp t row user_id status ≡ ok t'
    → IsSeated e n t
    → IsSeated e n t'
unfolding write_rsvp
write-IsSeated e n t t' row user_id status cap h old = elim (Bool-cases (is_going status)) [
  | inl goes ↦ going-IsSeated e n t t' row user_id cap (rw (write_rsvp, goes) at h) old
  | inr stays ↦
      let same : stored t row user_id status ≡ t' = cc (rw (write_rsvp, stays) at h) in
      subst (IsSeated e n) same (
        stored-IsSeated e n t row user_id status
          (omega (arith, upsert_count_le row.id e user_id status t.rsvps stays, old.within)) old)
]

deleted-IsSeated :
    (e n : ℕ) (t : EventTables) (p : EventRsvp → Bool) (invites : List Listed)
    → IsSeated e n t
    → IsSeated e n (record t { rsvps = delete_rows p t.rsvps; invites = invites })
deleted-IsSeated e n t p invites old = record {
  one_each =
      λ e' u'. omega (arith, old.one_each e' u', count_rows-delete_rows (own_rsvp e' u') p t.rsvps);
  within = omega (arith, old.within, count_rows-delete_rows (going_row e) p t.rsvps);
  capacity = old.capacity;
}

-- What a handler that answers an RSVP has read and written.
rsvp_written :
    (t t' : EventTables) (c : Ctx) (event_id : ℕ) (body : Option RsvpStatus) (now : ℕ)
    → rsvp t c event_id body now ≡ ok t'
    → (row : EventRow) × (user_id : ℕ) × (status : RsvpStatus) × (get_event_or_404 t c event_id
        ≡ ok row)
      × (write_rsvp t row user_id status ≡ ok t')
unfolding rsvp
rsvp_written t t' c event_id body now h =
    let (auth, signed, h1) = bind-ok {A = AuthContext} (require_auth c) _ h in
    let (row, found, h2) = bind-ok {A = EventRow} (get_event_or_404 t c event_id) _ h1 in
    let (seen, visible, h3) = bind-ok {A = Unit} (assert_can_view_event t c row) _ h2 in
    let (status, valid, h4) = bind-ok (parsed_status body) _ h3 in
    let (u1, opened, h5) =
      bind-ok {A = Unit} (refuse (is_cancelled row.status || ltb row.start_time now) rsvp_closed) _
        h4 in
    let (u2, allowed, h6) =
      bind-ok {A = Unit} (refuse (is_maybe status && not row.allow_maybe) maybe_not_allowed) _ h5 in
    (row, auth.user_id, status, found, h6)

withdrawn :
    (t t' : EventTables) (c : Ctx) (event_id : ℕ)
    → withdraw_rsvp t c event_id ≡ ok t'
    → (p : EventRsvp → Bool) × (record t { rsvps = delete_rows p t.rsvps } ≡ t')
unfolding withdraw_rsvp
withdrawn t t' c event_id h =
    let (auth, signed, h1) = bind-ok {A = AuthContext} (require_auth c) _ h in
    let (row, found, h2) = bind-ok {A = EventRow} (get_event_or_404 t c event_id) _ h1 in
    let (seen, visible, h3) = bind-ok {A = Unit} (assert_can_view_event t c row) _ h2 in
    (own_rsvp row.id auth.user_id, cc h3)

uninvited_rows :
    (t t' : EventTables) (c : Ctx) (event_id : ℕ) (body : Option ℕ)
    → delete_invites t c event_id body ≡ ok t'
    → (p : EventRsvp → Bool) × (invites : List Listed) × (record t {
      rsvps = delete_rows p t.rsvps;
      invites = invites;
    }
        ≡ t')
unfolding delete_invites
uninvited_rows t t' c event_id body h =
    let (row, allowed, h1) = bind-ok {A = EventRow} (managed t c event_id) _ h in
    let (user_id, valid, h2) = bind-ok (parsed body) _ h1 in
    (own_rsvp row.id user_id, delete_rows (of_user row.id user_id) t.invites, cc h2)

Step-IsSeated : (e n : ℕ) {t t' : EventTables} → Step e n t t' → IsSeated e n t → IsSeated e n t'
Step-IsSeated e n {t} {t'} (answered c event_id body now h) old =
    let (row, user_id, status, found, written) = rsvp_written t t' c event_id body now h in
    write-IsSeated e n t t' row user_id status
      (found_capacity e n t c event_id {row = row} old.capacity found) written old
Step-IsSeated e n {t} {t'} (raced row user_id status cap h) old =
    write-IsSeated e n t t' row user_id status cap h old
Step-IsSeated e n {t} {t'} (withdrew c event_id h) old =
    let (p, same) = withdrawn t t' c event_id h in
    subst (IsSeated e n) same (deleted-IsSeated e n t p t.invites old)
Step-IsSeated e n {t} {t'} (uninvited c event_id body h) old =
    let (p, invites, same) = uninvited_rows t t' c event_id body h in
    subst (IsSeated e n) same (deleted-IsSeated e n t p invites old)

-- However RSVPs, withdrawals and withdrawn invites follow each other, with transactions whose row was
-- read earlier among them: if a user has one RSVP at most for an event, and the event with its
-- capacity n, which no request changes, has at most n going guests, then the same holds afterwards.
pub Reach-IsSeated :
    (e n : ℕ) {t t' : EventTables} → Reach e n t t' → IsSeated e n t → IsSeated e n t'
Reach-IsSeated e n here old = old
Reach-IsSeated e n (next r st) old = Step-IsSeated e n st (Reach-IsSeated e n r old)
