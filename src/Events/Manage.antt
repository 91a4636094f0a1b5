-- ===== src/Events/Manage.antt =====
-- The handlers of apps/api/src/routes/events.ts that a host or an admin runs: invites, hosts, cancel
-- and delete. A body that does not validate is none.
use philosophy_app.Prelude.{
  ℕ, Bool, Option, none, some, List, [], ◌∷◌, ◌==◌, if◌then◌else◌, has_row, update_rows,
  delete_rows, select_rows,
}
use philosophy_app.Http.{invalid_body, Result, ok, err, ◌>>=◌}
use philosophy_app.Access.{require_auth, Ctx}
use philosophy_app.Events.{
  EventRow, EventStatus, EventRsvp, EventTables, Listed, of_event, of_user, get_event_or_404,
  require_event_manage, assert_profiles_in_project,
}
use philosophy_app.Events.Rsvp.{own_rsvp}

-- `insert … on conflict do nothing`
abbrev pub add_listed : ℕ → ℕ → List Listed → List Listed
add_listed event_id user_id rows =
    if has_row (of_user event_id user_id) rows
    then rows
    else record { event_id = event_id; user_id = user_id } ∷ rows

-- What every handler here starts with.
unfoldable pub managed : EventTables → Ctx → ℕ → Result EventRow
unfolding get_event_or_404 require_event_manage
managed t c event_id = do
  auth ← require_auth c
  row ← get_event_or_404 t c event_id
  allowed ← require_event_manage t c row.id
  ok row

abbrev pub parsed : Option ℕ → Result ℕ
parsed none = err invalid_body
parsed (some user_id) = ok user_id

-- `POST /:eventId/invites`
unfoldable pub post_invites : EventTables → Ctx → ℕ → Option ℕ → Result EventTables
unfolding managed assert_profiles_in_project
post_invites t c event_id body = do
  row ← managed t c event_id
  user_id ← parsed body
  known ← assert_profiles_in_project t c.project_id (user_id ∷ [])
  ok (record t { invites = add_listed row.id user_id t.invites })

-- `DELETE /:eventId/invites`
unfoldable pub delete_invites : EventTables → Ctx → ℕ → Option ℕ → Result EventTables
unfolding managed
delete_invites t c event_id body = do
  row ← managed t c event_id
  user_id ← parsed body
  ok (record t {
    invites = delete_rows (of_user row.id user_id) t.invites;
    rsvps = delete_rows (own_rsvp row.id user_id) t.rsvps;
  })

-- `GET /:eventId/invites` without the pages
unfoldable pub get_invites : EventTables → Ctx → ℕ → Result (List Listed)
unfolding managed
get_invites t c event_id = do
  row ← managed t c event_id
  ok (select_rows (of_event row.id) t.invites)

-- `POST /:eventId/hosts`
unfoldable pub post_hosts : EventTables → Ctx → ℕ → Option ℕ → Result EventTables
unfolding managed assert_profiles_in_project
post_hosts t c event_id body = do
  row ← managed t c event_id
  user_id ← parsed body
  known ← assert_profiles_in_project t c.project_id (user_id ∷ [])
  ok (record t { hosts = add_listed row.id user_id t.hosts })

-- `DELETE /:eventId/hosts`
unfoldable pub delete_hosts : EventTables → Ctx → ℕ → Option ℕ → Result EventTables
unfolding managed
delete_hosts t c event_id body = do
  row ← managed t c event_id
  user_id ← parsed body
  ok (record t { hosts = delete_rows (of_user row.id user_id) t.hosts })

abbrev pub by_event_id : ℕ → EventRow → Bool
by_event_id id e = e.id == id

-- `POST /:eventId/cancel`
unfoldable pub cancel_event : EventTables → Ctx → ℕ → Result EventTables
unfolding managed
cancel_event t c event_id = do
  row ← managed t c event_id
  ok (record t {
    events =
        update_rows (by_event_id row.id) (λ e. record e { status = EventStatus.cancelled })
          t.events;
  })

-- The foreign keys take the rows of the event with it.
abbrev pub hard_delete : ℕ → EventTables → EventTables
hard_delete id t = record t {
  events = delete_rows (by_event_id id) t.events;
  rsvps = delete_rows (λ (r : EventRsvp). r.event_id == id) t.rsvps;
  invites = delete_rows (of_event id) t.invites;
  hosts = delete_rows (of_event id) t.hosts;
}

abbrev pub soft_delete : ℕ → ℕ → EventTables → EventTables
soft_delete id now t = record t {
  events = update_rows (by_event_id id) (λ e. record e { deleted_at = some now }) t.events;
}

-- `DELETE /:eventId`. `hard` is `CONTENT_DELETE_MODE`.
unfoldable pub delete_event : EventTables → Ctx → ℕ → Bool → ℕ → Result EventTables
unfolding managed
delete_event t c event_id hard now = do
  row ← managed t c event_id
  ok (if hard then hard_delete row.id t else soft_delete row.id now t)
