-- ===== src/Events/Rsvp.antt =====
-- The RSVP handlers of apps/api/src/routes/events.ts. `going_transaction` is what runs under the lock
-- of the event's row, with the row that the handler has read before it.
use philosophy_app.Prelude.{
  ℕ, ◌-◌, Bool, true, false, not, ◌&&◌, ◌||◌, Option, none, some, List, ◌∷◌, ◌==◌, ltb,
  if◌then◌else◌, has_row, find_row, count_rows, update_rows, delete_rows, select_rows,
}
use philosophy_app.Http.{
  invalid_body, rsvp_closed, maybe_not_allowed, capacity_full, guest_list_hidden, Result, ok, err,
  ◌>>=◌, ◌>>◌, refuse, guard,
}
use philosophy_app.Access.{Ctx, require_auth}
use philosophy_app.Events.{
  EventRow, EventStatus, EventRsvp, EventTables, RsvpStatus, going, maybe, not_going,
  can_rsvp_going, get_event_or_404, assert_can_view_event, is_host_or_admin,
}

abbrev pub is_going : RsvpStatus → Bool
is_going going = true
is_going _ = false

abbrev pub is_maybe : RsvpStatus → Bool
is_maybe maybe = true
is_maybe _ = false

abbrev pub is_cancelled : EventStatus → Bool
is_cancelled EventStatus.cancelled = true
is_cancelled EventStatus.active = false

abbrev pub own_rsvp : ℕ → ℕ → EventRsvp → Bool
own_rsvp event_id user_id r = r.event_id == event_id && r.user_id == user_id

abbrev pub going_row : ℕ → EventRsvp → Bool
going_row event_id r = r.event_id == event_id && is_going r.status

abbrev pub set_rsvp : RsvpStatus → EventRsvp → EventRsvp
set_rsvp status r = record r { status = status }

-- `insert … on conflict (event_id, user_id) do update set status`
unfoldable pub upsert_rsvp : ℕ → ℕ → RsvpStatus → List EventRsvp → List EventRsvp
upsert_rsvp event_id user_id status rows =
    if has_row (own_rsvp event_id user_id) rows
    then update_rows (own_rsvp event_id user_id) (set_rsvp status) rows
    else record { event_id = event_id; user_id = user_id; status = status } ∷ rows

unfoldable pub effective_going : List EventRsvp → ℕ → ℕ → ℕ
effective_going rows event_id user_id = elim (find_row (own_rsvp event_id user_id) rows) [
  | none ↦ count_rows (going_row event_id) rows
  | some mine ↦
      if is_going mine.status
      then count_rows (going_row event_id) rows - 1
      else count_rows (going_row event_id) rows
]

unfoldable pub going_transaction : EventTables → EventRow → ℕ → Result EventTables
unfolding effective_going can_rsvp_going upsert_rsvp
going_transaction t row user_id = do
  guard (can_rsvp_going (effective_going t.rsvps row.id user_id) row.capacity) capacity_full
  ok (record t { rsvps = upsert_rsvp row.id user_id going t.rsvps })

unfoldable pub write_rsvp : EventTables → EventRow → ℕ → RsvpStatus → Result EventTables
unfolding going_transaction upsert_rsvp
write_rsvp t row user_id status =
    if is_going status
    then going_transaction t row user_id
    else ok (record t { rsvps = upsert_rsvp row.id user_id status t.rsvps })

abbrev pub parsed_status : Option RsvpStatus → Result RsvpStatus
parsed_status none = err invalid_body
parsed_status (some status) = ok status

-- `POST /:eventId/rsvp`. A body that does not validate is none.
unfoldable pub rsvp : EventTables → Ctx → ℕ → Option RsvpStatus → ℕ → Result EventTables
unfolding get_event_or_404 assert_can_view_event write_rsvp
rsvp t c event_id body now = do
  auth ← require_auth c
  row ← get_event_or_404 t c event_id
  seen ← assert_can_view_event t c row
  status ← parsed_status body
  refuse (is_cancelled row.status || ltb row.start_time now) rsvp_closed
  refuse (is_maybe status && not row.allow_maybe) maybe_not_allowed
  write_rsvp t row auth.user_id status

-- `DELETE /:eventId/rsvp`
unfoldable pub withdraw_rsvp : EventTables → Ctx → ℕ → Result EventTables
unfolding get_event_or_404 assert_can_view_event
withdraw_rsvp t c event_id = do
  auth ← require_auth c
  row ← get_event_or_404 t c event_id
  seen ← assert_can_view_event t c row
  ok (record t { rsvps = delete_rows (own_rsvp row.id auth.user_id) t.rsvps })

abbrev pub status_eq : RsvpStatus → RsvpStatus → Bool
status_eq going going = true
status_eq maybe maybe = true
status_eq not_going not_going = true
status_eq _ _ = false

-- `GET /:eventId/rsvps` without the pages. The filter is one that the schema accepts, or none.
unfoldable pub get_rsvps : EventTables → Ctx → ℕ → Option RsvpStatus → Result (List EventRsvp)
unfolding get_event_or_404 assert_can_view_event is_host_or_admin
get_rsvps t c event_id filter = do
  row ← get_event_or_404 t c event_id
  seen ← assert_can_view_event t c row
  refuse (not (is_host_or_admin t c row.id) && not row.guest_list_visible) guest_list_hidden
  ok (
      select_rows
        (λ (r : EventRsvp).
          r.event_id == row.id && elim filter [ none ↦ true | some s ↦ status_eq r.status s ])
        t.rsvps)
