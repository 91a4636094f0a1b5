-- ===== src/Events.antt =====
-- apps/api/src/lib/events-policy.ts and apps/api/src/routes/events.ts: who sees and who manages an
-- event. A row keeps the columns that a decision reads; texts, images, the location and the metadata
-- are not modelled. `Events.Rsvp` and `Events.Manage` hold the handlers.
pub mod Rsvp
pub mod Manage
pub mod Gate
pub mod Capacity
pub mod Seats
pub mod Live
pub mod Roster
use philosophy_app.Prelude.{
  ℕ, Bool, true, false, not, ◌&&◌, ◌||◌, Option, none, some, List, [], ◌∷◌, map, ◌==◌, ltb, leb,
  length, if◌then◌else◌, has_row, find_row, select_rows, some_eq, is_none,
}
use philosophy_app.Http.{
  Failure, event_not_found, not_visible, not_host, invalid_user, Result, ok, err, ◌>>=◌, ◌>>◌,
  refuse, guard,
}
use philosophy_app.Auth.{AuthContext}
use philosophy_app.Access.{
  Space, SpaceMember, Tables, Ctx, ModerationStatus, is_active, is_admin_ctx, uid_of, live_space,
  reads_anyone, assert_can_read_space, removed_policy, should_hide, exclude_removed_sql,
}
use philosophy_app.Connections.{Profile}

pub data EventVisibility : Type 0 where
  public members invite : EventVisibility

pub data EventStatus : Type 0 where
  active cancelled : EventStatus

pub record EventRow : Type 0 where
  pub id : ℕ
  pub project_id : ℕ
  pub start_time : ℕ
  pub end_time : Option ℕ
  pub space_id : Option ℕ
  pub visibility : EventVisibility
  pub status : EventStatus
  pub allow_maybe : Bool
  pub guest_list_visible : Bool
  pub capacity : Option ℕ
  pub moderation_status : Option ModerationStatus
  pub deleted_at : Option ℕ

pub data RsvpStatus : Type 0 where
  going maybe not_going : RsvpStatus

pub record EventRsvp : Type 0 where
  pub event_id : ℕ
  pub user_id : ℕ
  pub status : RsvpStatus

-- A row of `event_hosts` or of `event_invites`.
pub record Listed : Type 0 where
  pub event_id : ℕ
  pub user_id : ℕ

pub record EventTables : Type 0 where
  pub events : List EventRow
  pub rsvps : List EventRsvp
  pub invites : List Listed
  pub hosts : List Listed
  pub profiles : List Profile
  pub access : Tables

-- Capacity caps `going` only.
unfoldable pub can_rsvp_going : ℕ → Option ℕ → Bool
can_rsvp_going going_count none = true
can_rsvp_going going_count (some capacity) = ltb going_count capacity

unfoldable pub is_event_host : List ℕ → Option ℕ → Bool
is_event_host host_ids none = false
is_event_host host_ids (some user_id) = has_row (λ (h : ℕ). h == user_id) host_ids

unfoldable pub would_orphan_hosts : List ℕ → ℕ → Bool
would_orphan_hosts host_ids removing_user_id =
    leb (length host_ids) 1 && has_row (λ (h : ℕ). h == removing_user_id) host_ids

unfoldable pub can_view_event : EventVisibility → Bool → Bool → Bool → Bool
can_view_event visibility is_member is_invited true = true
can_view_event public is_member is_invited false = true
can_view_event members is_member is_invited false = is_member
can_view_event invite is_member is_invited false = is_invited

unfoldable pub get_event_or_404 : EventTables → Ctx → ℕ → Result EventRow
get_event_or_404 t c id =
    elim (find_row
      (λ (e : EventRow). e.project_id == c.project_id && (e.id == id && is_none e.deleted_at))
      t.events) [ none ↦ err event_not_found | some row ↦ ok row ]

abbrev pub of_event : ℕ → Listed → Bool
of_event event_id h = h.event_id == event_id

abbrev pub of_user : ℕ → ℕ → Listed → Bool
of_user event_id user_id h = h.event_id == event_id && h.user_id == user_id

unfoldable pub load_host_ids : EventTables → ℕ → List ℕ
load_host_ids t event_id = map (λ (h : Listed). h.user_id) (select_rows (of_event event_id) t.hosts)

-- The space's owner; a deleted space has one too.
abbrev pub owns_space : List Space → ℕ → ℕ → Bool
owns_space spaces space_id uid = elim (find_row (λ (s : Space). s.id == space_id) spaces) [
  | none ↦ false
  | some s ↦ some_eq s.user_id uid
]

abbrev pub active_in : ℕ → ℕ → SpaceMember → Bool
active_in space_id uid m = m.space_id == space_id && (m.user_id == uid && is_active m.status)

-- The part of `isMemberForEvent` for a signed-in caller.
abbrev pub is_member_user : Tables → Option ℕ → ℕ → Bool
is_member_user t none uid = true
is_member_user t (some space_id) uid =
    has_row (active_in space_id uid) t.space_members || owns_space t.spaces space_id uid

unfoldable pub is_member_for_event : Tables → Ctx → EventRow → Bool
is_member_for_event t c row = elim (uid_of c.auth) [
  | none ↦ false
  | some uid ↦ is_member_user t row.space_id uid
]

unfoldable pub is_invited : EventTables → ℕ → Option ℕ → Bool
is_invited t event_id none = false
is_invited t event_id (some user_id) = has_row (of_user event_id user_id) t.invites

-- Every id is a profile of the project.
unfoldable pub assert_profiles_in_project : EventTables → ℕ → List ℕ → Result (Unit {0})
assert_profiles_in_project t project_id user_ids =
    refuse
      (has_row
        (λ (i : ℕ).
          not (has_row (λ (p : Profile). p.project_id == project_id && p.id == i) t.profiles))
        user_ids)
      invalid_user

-- The space of the event is live, asked of everyone but an admin.
abbrev pub assert_live_space : Tables → Ctx → Option ℕ → Result (Unit {0})
assert_live_space t c none = ok tt
assert_live_space t c (some space_id) =
    elim (find_row (live_space c.project_id space_id) t.spaces) [
      | none ↦ err event_not_found
      | some s ↦ ok tt
    ]

unfoldable pub is_host_or_admin : EventTables → Ctx → ℕ → Bool
unfolding is_admin_ctx is_event_host load_host_ids
is_host_or_admin t c event_id =
    is_admin_ctx c.auth || is_event_host (load_host_ids t event_id) (uid_of c.auth)

unfoldable pub assert_can_view_event : EventTables → Ctx → EventRow → Result (Unit {0})
unfolding removed_policy should_hide is_admin_ctx assert_can_read_space is_host_or_admin
    can_view_event is_member_for_event is_invited
assert_can_view_event t c row = do
  refuse (should_hide (removed_policy c) row.moderation_status) event_not_found
  if is_admin_ctx c.auth then ok tt else assert_live_space t.access c row.space_id
  assert_can_read_space t.access c row.space_id c.project_id
  guard
      (can_view_event row.visibility (is_member_for_event t.access c row)
        (is_invited t row.id (uid_of c.auth)) (is_host_or_admin t c row.id))
      not_visible

-- `GET /:eventId`
unfoldable pub get_event : EventTables → Ctx → ℕ → Result EventRow
unfolding get_event_or_404 assert_can_view_event
get_event t c id = do row ← get_event_or_404 t c id; seen ← assert_can_view_event t c row; ok row

-- `requireEventManage(c, await loadHostIds(row.id))`
unfoldable pub require_event_manage : EventTables → Ctx → ℕ → Result (Unit {0})
unfolding is_host_or_admin
require_event_manage t c event_id = guard (is_host_or_admin t c event_id) not_host

-- `spaceReadable` of the list.
unfoldable pub space_readable : Tables → Option ℕ → Option ℕ → Bool
space_readable t uid none = true
space_readable t none (some space_id) =
    has_row
      (λ (s : Space).
        s.id == space_id && (is_none s.deleted_at && reads_anyone s.reading_permission))
      t.spaces
space_readable t (some uid) (some space_id) =
    has_row
      (λ (s : Space).
        s.id == space_id
        && (is_none s.deleted_at
            && (reads_anyone s.reading_permission
                || (some_eq s.user_id uid || has_row (active_in s.id uid) t.space_members))))
      t.spaces

-- The list's branch `visibility = 'members'`, for a signed-in caller.
abbrev pub member_branch : Tables → Option ℕ → ℕ → Bool
member_branch t none uid = true
member_branch t (some space_id) uid =
    has_row (active_in space_id uid) t.space_members
    || has_row (λ (s : Space). s.id == space_id && some_eq s.user_id uid) t.spaces

abbrev pub is_public : EventVisibility → Bool
is_public public = true
is_public _ = false

abbrev pub is_members : EventVisibility → Bool
is_members members = true
is_members _ = false

abbrev pub is_invite : EventVisibility → Bool
is_invite invite = true
is_invite _ = false

-- The list's visibility predicate for a caller who is not an admin.
unfoldable pub visible_to : EventTables → Option ℕ → EventRow → Bool
unfolding space_readable
visible_to t none row = space_readable t.access none row.space_id && is_public row.visibility
visible_to t (some uid) row =
    space_readable t.access (some uid) row.space_id
    && (is_public row.visibility
        || ((is_members row.visibility && member_branch t.access row.space_id uid)
            || ((is_invite row.visibility && has_row (of_user row.id uid) t.invites)
                || has_row (of_user row.id uid) t.hosts)))

-- Not concluded for longer than the four days after which the list drops an event.
abbrev pub recent : ℕ → EventRow → Bool
recent cutoff row = elim row.end_time [ none ↦ true | some end_time ↦ leb cutoff end_time ]

-- The predicate of `GET /` without the filters that a caller asks for. `cutoff` is four days ago.
unfoldable pub event_listed : EventTables → Ctx → ℕ → EventRow → Bool
unfolding removed_policy exclude_removed_sql is_admin_ctx visible_to
event_listed t c cutoff row =
    (row.project_id == c.project_id && is_none row.deleted_at)
    && (recent cutoff row
        && (exclude_removed_sql (removed_policy c) row.moderation_status
            && (is_admin_ctx c.auth || visible_to t (uid_of c.auth) row)))
