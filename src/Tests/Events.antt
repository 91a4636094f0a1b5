-- ===== src/Tests/Events.antt =====
-- The theorems on events, on one event with one seat.
use philosophy_app.Prelude.{ℕ, ◌≡◌, ◌≤◌, ◌<◌, refl, none, some, List, [], ◌∷◌, arith, true, false}
use philosophy_app.Http.{ok, is_ok}
use philosophy_app.Auth.{AuthContext, TokenRole}
use philosophy_app.Access.{
  Space, SpaceMember, Ctx, ReadingPermission, PostingPermission, Visibility, MemberRole,
  MemberStatus,
}
use philosophy_app.Events.{
  EventRow, EventStatus, EventVisibility, EventRsvp, RsvpStatus, EventTables, event_listed,
  get_event, get_event_or_404, would_orphan_hosts, load_host_ids,
}
use philosophy_app.Events.Rsvp.{rsvp, going_transaction}
use philosophy_app.Events.Manage.{delete_hosts}
use philosophy_app.Events.Live.{Reactions, ReactionType, react, total, react_counts}
use philosophy_app.Events.Capacity.{going_count, OneEach, going-within_capacity}
use philosophy_app.Events.Seats.{IsSeated, here, next, answered, Reach-IsSeated}
use philosophy_app.Events.Gate.{listed-get_event}
use philosophy_app.Events.Roster.{last_host_removed}

abbrev user : ℕ → AuthContext
user id = record {
  user_id = id;
  project_id = some 1;
  role = TokenRole.visitor;
  is_operator = false;
  is_project_owner = false;
  is_project_admin = false;
  is_steward = false;
  settings_readonly = false;
}

abbrev by : ℕ → Ctx
by id = record { project_id = 1; auth = some (user id) }

abbrev seminar : EventRow
seminar = record {
  id = 5;
  project_id = 1;
  start_time = 100;
  end_time = none;
  space_id = some 9;
  visibility = EventVisibility.members;
  status = EventStatus.active;
  allow_maybe = true;
  guest_list_visible = true;
  capacity = some 1;
  moderation_status = none;
  deleted_at = none;
}

abbrev club : Space
club = record {
  id = 9;
  project_id = 1;
  user_id = some 1;
  reading_permission = ReadingPermission.members;
  posting_permission = PostingPermission.members;
  visibility = Visibility.public;
  deleted_at = none;
}

abbrev club_member : SpaceMember
club_member = record {
  project_id = 1;
  space_id = 9;
  user_id = 2;
  role = MemberRole.member;
  status = MemberStatus.active;
}

abbrev tables : List EventRsvp → EventTables
tables rsvps = record {
  events = seminar ∷ [];
  rsvps = rsvps;
  invites = record { event_id = 5; user_id = 2 } ∷ [];
  hosts = record { event_id = 5; user_id = 1 } ∷ [];
  profiles = record { id = 1; project_id = 1 } ∷ record { id = 2; project_id = 1 } ∷ [];
  access = record {
    spaces = club ∷ [];
    space_members = club_member ∷ [];
    entities = [];
    comments = [];
  };
}

abbrev booked : EventTables
booked = tables (record { event_id = 5; user_id = 2; status = RsvpStatus.going } ∷ [])

none-OneEach : OneEach []
none-OneEach e u = omega arith

going-within_capacity_example : going_count booked.rsvps 5 ≤ 1
unfolding going_transaction
going-within_capacity_example =
    going-within_capacity (tables []) booked seminar 2 1 none-OneEach refl refl

Reach-IsSeated_example : IsSeated 5 1 booked
unfolding rsvp
Reach-IsSeated_example =
    Reach-IsSeated 5 1 {t = tables []} {t' = booked}
      (next {t' = tables []} {v = booked} here (answered (by 2) 5 (some RsvpStatus.going) 50 refl))
      (record { one_each = none-OneEach; within = omega arith; capacity = (λ e. refl, tt) })

listed-get_event_example : event_listed booked (by 2) 0 seminar ≡ is_ok (get_event booked (by 2) 5)
unfolding get_event_or_404
listed-get_event_example =
    listed-get_event booked (by 2) 0 5 {row = seminar} refl refl (refl, tt)
      (λ sid e. (λ k. refl, tt)) ((λ k. refl, tt), tt)

last_host_removed_example :
    (would_orphan_hosts (load_host_ids booked 5) 1 ≡ true)
    × (t' : EventTables) × (delete_hosts booked (by 1) 5 (some 1) ≡ ok t')
    × (load_host_ids t' 5 ≡ [])
unfolding get_event_or_404 load_host_ids
last_host_removed_example = last_host_removed booked (by 1) (user 1) 5 seminar refl refl refl

abbrev emptied : EventTables
emptied = record (tables []) { invites = [] }

abbrev seen : Reactions
seen = record { upvotes = 2; fire = 1; insights = 0 }

react_counts_example :
    (total (react ReactionType.fire none false seen) ≡ 4)
    × (react ReactionType.fire
          (some ReactionType.fire)
          true
          (react ReactionType.fire none false seen)
        ≡ seen)
    × (0 < 2 → total (react ReactionType.fire (some ReactionType.upvotes) false seen) ≡ 3)
react_counts_example = react_counts ReactionType.fire ReactionType.upvotes seen
