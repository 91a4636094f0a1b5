-- ===== src/Connections.antt =====
-- apps/api/src/routes/connections.ts: friend requests between the profiles of a project, and the
-- notifications that they leave. Each handler runs as one step here; `Connections.Races` takes the
-- read and the write of a request apart.
pub mod Rows
pub mod Invariant
pub mod Changes
pub mod Steps
pub mod Laws
pub mod Races
use Prim.Native.String.{String}
use philosophy_app.Prelude.{
  ℕ, Bool, true, false, not, ◌&&◌, ◌||◌, Option, none, some, List, [], ◌∷◌, ◌==◌, if◌then◌else◌,
  has_row, find_row, count_rows, update_rows, delete_rows,
}
use philosophy_app.Http.{
  Failure, no_profile, invalid_id, missing_target, connect_self, already_connected, already_pending,
  connection_not_found, connection_not_pending, invalid_body, database_error, Result, ok, err,
  ◌>>=◌, ◌>>◌, refuse, guard,
}
use philosophy_app.Roles.{UuidText, printed, text_eq}

pub data Status : Type 0 where
  pending connected declined : Status

pub record Connection : Type 0 where
  pub id : ℕ
  pub project_id : ℕ
  pub requester_id : ℕ
  pub addressee_id : ℕ
  pub status : Status
  pub message : Option String
  pub created_at : ℕ
  pub responded_at : Option ℕ

pub record Profile : Type 0 where
  pub id : ℕ
  pub project_id : ℕ

pub data NoticeKind : Type 0 where
  connection_request connection_accepted : NoticeKind

pub record Notice : Type 0 where
  pub recipient_id : ℕ
  pub kind : NoticeKind
  pub connection_id : ℕ
  pub actor_id : ℕ

pub record Store : Type 0 where
  pub connections : List Connection
  pub profiles : List Profile
  pub notices : List Notice

abbrev pub is_pending : Status → Bool
is_pending pending = true
is_pending _ = false

abbrev pub is_connected : Status → Bool
is_connected connected = true
is_connected _ = false

-- What the handlers answer.
pub data Reply : Type 0 where
  requested accepted reopened : ℕ → Reply
  was_declined : ℕ → Reply
  removed : ℕ → Reply

pub data Action : Type 0 where
  disconnect withdraw decline : Action

-- The profile of the token's user.
unfoldable pub me : Store → ℕ → Result Profile
me s user_id = elim (find_row (λ (p : Profile). p.id == user_id) s.profiles) [
  | none ↦ err no_profile
  | some p ↦ ok p
]

-- `uuidParam`: a path segment that the pattern refuses is none.
abbrev pub uuid_param : Option UuidText → Result UuidText
uuid_param none = err invalid_id
uuid_param (some v) = ok v

-- The row joins the two users, in either direction.
abbrev pub joins : ℕ → ℕ → ℕ → Connection → Bool
joins project_id a b r =
    r.project_id == project_id
    && ((r.requester_id == a && r.addressee_id == b)
        || (r.requester_id == b && r.addressee_id == a))

unfoldable pub between : Store → ℕ → ℕ → ℕ → Option Connection
between s project_id a b = find_row (joins project_id a b) s.connections

abbrev pub by_id : ℕ → Connection → Bool
by_id id r = r.id == id

-- `notifyOnConnectionRequest` and `notifyOnConnectionAccept`: the actor's profile exists, since the
-- handler has just read it.
abbrev pub notify : NoticeKind → ℕ → ℕ → ℕ → Store → Store
notify kind recipient_id actor_id connection_id s = record s {
  notices =
      record {
        recipient_id = recipient_id;
        kind = kind;
        connection_id = connection_id;
        actor_id = actor_id;
      }
      ∷ s.notices;
}

abbrev pub respond : Status → ℕ → Connection → Connection
respond status now r = record r { status = status; responded_at = some now }

abbrev pub set_status : Status → ℕ → ℕ → Store → Store
set_status status id now s = record s {
  connections = update_rows (by_id id) (respond status now) s.connections;
}

-- The constraints of the table: the target exists, the ends differ, and no other row has the same
-- project, requester and addressee.
abbrev pub same_edge : ℕ → ℕ → ℕ → Connection → Bool
same_edge project_id requester_id addressee_id r =
    r.project_id == project_id && (r.requester_id == requester_id && r.addressee_id == addressee_id)

unfoldable pub constraints : Store → ℕ → ℕ → ℕ → (Connection → Bool) → Result (Unit {0})
constraints s project_id requester_id addressee_id other = do
  guard (has_row (λ (p : Profile). p.id == addressee_id) s.profiles) database_error
  refuse (requester_id == addressee_id) database_error
  refuse
      (has_row (λ (r : Connection). other r && same_edge project_id requester_id addressee_id r)
        s.connections)
      database_error

-- A message that is not sent leaves the column as it is.
abbrev pub sent_or : Option String → Option String → Option String
sent_or old none = old
sent_or old (some text) = some text

abbrev pub reopen : ℕ → ℕ → Option String → ℕ → Connection → Connection
reopen requester_id addressee_id message now r = record r {
  requester_id = requester_id;
  addressee_id = addressee_id;
  status = pending;
  message = sent_or r.message message;
  created_at = now;
  responded_at = none;
}

-- Any row but the one that is updated.
abbrev pub other_than : ℕ → Connection → Bool
other_than id r = not (r.id == id)

-- The branch of a request where a row joins the two already.
unfoldable pub request_existing :
    Store → Profile → ℕ → Option String → ℕ → Connection → Result (Store × Reply)
unfolding constraints
request_existing s self target message now existing = elim existing.status [
  | connected ↦ err already_connected
  | pending ↦
      if existing.requester_id == self.id
      then err already_pending
      else ok (
        notify connection_accepted target self.id existing.id
            (set_status connected existing.id now s),
        accepted existing.id,
      )
  | declined ↦ (do
    constraints s self.project_id self.id target (other_than existing.id)
    ok (
      notify connection_request target self.id existing.id (record s {
        connections =
            update_rows (by_id existing.id) (reopen self.id target message now) s.connections;
      }),
      reopened existing.id,
    ))
]

-- The insert of a fresh pending request. `fresh` is the id that the database draws.
unfoldable pub insert_request : Store → Profile → ℕ → Option String → ℕ → ℕ → Result (Store × Reply)
unfolding constraints
insert_request s self target message now fresh = do
  constraints s self.project_id self.id target (λ _. true)
  ok (
    notify connection_request target self.id fresh (record s {
      connections =
          record {
            id = fresh;
            project_id = self.project_id;
            requester_id = self.id;
            addressee_id = target;
            status = pending;
            message = message;
            created_at = now;
            responded_at = none;
          }
          ∷ s.connections;
    }),
    requested fresh,
  )

-- What both request handlers do once the target and the message are known.
unfoldable pub request_between :
    Store → Profile → ℕ → Option String → ℕ → ℕ → Result (Store × Reply)
unfolding between request_existing insert_request
request_between s self target message now fresh = elim (between s self.project_id self.id target) [
  | some existing ↦ request_existing s self target message now existing
  | none ↦ insert_request s self target message now fresh
]

-- `POST /users/:userId/connection`. `body` is what the schema makes of the request: none where it
-- does not validate, otherwise the message.
unfoldable pub post_connection :
    Store → ℕ → Option UuidText → Option (Option String) → ℕ → ℕ → Result (Store × Reply)
unfolding me request_between
post_connection s user_id param body now fresh = do
  self ← me s user_id
  target ← uuid_param param
  refuse (text_eq target (printed self.id)) connect_self
  message ← elim body [ none ↦ err invalid_body | some m ↦ ok m ]
  request_between s self target.uuid message now fresh

-- The `targetUserId`, or else `userId`, of a body.
pub data Target : Type 0 where
  missing malformed : Target
  uuid_text : UuidText → Target

-- `POST /connections/requests`. A target that is no uuid fails in the database.
unfoldable pub post_requests :
    Store → ℕ → Target → Option (Option String) → ℕ → ℕ → Result (Store × Reply)
unfolding me request_between
post_requests s user_id missing body now fresh = do self ← me s user_id; err missing_target
post_requests s user_id malformed body now fresh = do
  self ← me s user_id
  elim body [ none ↦ err invalid_body | some m ↦ err database_error ]
post_requests s user_id (uuid_text target) body now fresh = do
  self ← me s user_id
  refuse (text_eq target (printed self.id)) connect_self
  message ← elim body [ none ↦ err invalid_body | some m ↦ ok m ]
  request_between s self target.uuid message now fresh

pub data Direction : Type 0 where
  sent received : Direction

-- What `GET /users/:userId/connection` answers.
pub data StatusView : Type 0 where
  nothing : StatusView
  linked : ℕ → StatusView
  waiting refused : Direction → ℕ → StatusView

abbrev pub direction : ℕ → Connection → Direction
direction self_id r = if r.requester_id == self_id then sent else received

unfoldable pub status_view : ℕ → Option Connection → StatusView
status_view self_id none = nothing
status_view self_id (some r) = elim r.status [
  | connected ↦ linked r.id
  | pending ↦ waiting (direction self_id r) r.id
  | declined ↦ refused (direction self_id r) r.id
]

unfoldable pub get_connection : Store → ℕ → Option UuidText → Result StatusView
unfolding me between status_view
get_connection s user_id param = do
  self ← me s user_id
  target ← uuid_param param
  ok (status_view self.id (between s self.project_id self.id target.uuid))

abbrev pub delete_by_id : ℕ → Store → Store
delete_by_id id s = record s { connections = delete_rows (by_id id) s.connections }

-- `DELETE /users/:userId/connection`
unfoldable pub delete_connection : Store → ℕ → Option UuidText → Result (Store × ℕ × Action)
unfolding me between
delete_connection s user_id param = do
  self ← me s user_id
  target ← uuid_param param
  elim (between s self.project_id self.id target.uuid) [
    | none ↦ err connection_not_found
    | some r ↦ ok (
      delete_by_id r.id s,
      r.id,
      (if is_connected r.status
          then disconnect
          else (if r.requester_id == self.id then withdraw else decline)),
    )
  ]

-- The user is one of the two ends.
abbrev pub touches : ℕ → Connection → Bool
touches user_id r = r.addressee_id == user_id || r.requester_id == user_id

-- `PATCH /connections/:id/accept`. The update does not name the row's status.
unfoldable pub accept_connection : Store → ℕ → Option UuidText → ℕ → Result (Store × Reply)
unfolding me
accept_connection s user_id param now = do
  self ← me s user_id
  conn_id ← uuid_param param
  elim (find_row (λ (r : Connection). r.id == conn_id.uuid && touches self.id r) s.connections) [
    | none ↦ err connection_not_found
    | some r ↦
        if is_connected r.status
        then ok (s, accepted r.id)
        else ok (
          notify connection_accepted
              (if r.requester_id == self.id then r.addressee_id else r.requester_id) self.id r.id
              (set_status connected r.id now s),
          accepted r.id,
        )
  ]

abbrev pub declinable : ℕ → ℕ → Connection → Bool
declinable id self_id r = r.id == id && (r.addressee_id == self_id && is_pending r.status)

-- `PATCH /connections/:id/decline`: one conditional update, which reports the rows that it changed.
unfoldable pub decline_connection : Store → ℕ → Option UuidText → ℕ → Result (Store × Reply)
unfolding me
decline_connection s user_id param now = do
  self ← me s user_id
  conn_id ← uuid_param param
  guard (has_row (declinable conn_id.uuid self.id) s.connections) connection_not_pending
  ok (
    record s {
      connections =
          update_rows (declinable conn_id.uuid self.id) (respond declined now) s.connections;
    },
    was_declined conn_id.uuid,
  )

-- `DELETE /connections/:id`
unfoldable pub delete_connection_by_id : Store → ℕ → Option UuidText → Result (Store × Reply)
unfolding me
delete_connection_by_id s user_id param = do
  self ← me s user_id
  conn_id ← uuid_param param
  elim (find_row (λ (r : Connection). r.id == conn_id.uuid && touches self.id r) s.connections) [
    | none ↦ err connection_not_found
    | some r ↦ ok (delete_by_id r.id s, removed r.id)
  ]

abbrev pub connected_row : ℕ → ℕ → Connection → Bool
connected_row project_id user_id r =
    r.project_id == project_id
    && (is_connected r.status && (r.requester_id == user_id || r.addressee_id == user_id))

unfoldable pub connected_count : Store → ℕ → ℕ → ℕ
connected_count s project_id user_id = count_rows (connected_row project_id user_id) s.connections
