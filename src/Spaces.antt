-- ===== src/Spaces.antt =====
-- Spaces and their members: the tables and the checks of apps/api/src/routes/spaces.ts, with the
-- triggers of apps/api/drizzle/0002_triggers.sql that keep the counters. Texts and files are left out,
-- and the settings of digests have a table of their own. A slug and a short id are texts, and texts
-- are numbers.
pub mod Tree
pub mod Members
pub mod Settings
pub mod Lists
pub mod Permissions
pub mod Ancestry
pub mod Loops
pub mod Rooted
pub mod Growth
pub mod Steps
pub mod Reach
pub mod Counts
pub mod Exact
pub mod Headcount
pub mod Tally
use philosophy_app.Prelude.{
  ℕ, suc, ◌+◌, ◌-◌, Bool, true, false, ◌&&◌, ◌||◌, Option, none, some, List, [], ◌∷◌, map, ◌==◌,
  if◌then◌else◌, find_row, has_row, update_rows, some_eq, is_none, ◌≡◌, refl, arith, find_row_sound,
  ==_refl,
}
use philosophy_app.Http.{
  space_not_found, insufficient_role, Result, ok, err, guard, ◌>>=◌, ◌>>◌, found_or, found_or-ok,
  database_error,
}
use philosophy_app.Auth.{AuthContext}
use philosophy_app.Roles.{is_project_admin}
use philosophy_app.Access.{
  Space, SpaceMember, MemberRole, admin, moderator, member, MemberStatus, ModerationStatus, Entity,
  Tables, is_active, live_space,
}
use philosophy_app.Connections.{Profile}

-- A row of `spaces`: `base` has the columns that the gates read.
pub record SpaceRow : Type 0 where
  pub base : Space
  pub slug : Option ℕ
  pub short_id : ℕ
  pub require_join_approval : Bool
  pub parent_space_id : Option ℕ
  pub depth : ℕ
  pub members_count : ℕ
  pub child_spaces_count : ℕ

-- A row of `comments`, with the columns that its moderation reads and writes.
pub record CommentRow : Type 0 where
  pub id : ℕ
  pub project_id : ℕ
  pub entity_id : ℕ
  pub moderation_status : Option ModerationStatus

pub record SpaceTables : Type 0 where
  pub spaces : List SpaceRow
  pub members : List SpaceMember
  pub profiles : List Profile
  pub entities : List Entity
  pub comments : List CommentRow

-- The tables as the gates of Access read them.
abbrev pub gate_tables : SpaceTables → Tables
gate_tables t = record {
  spaces = map (λ (r : SpaceRow). r.base) t.spaces;
  space_members = t.members;
  entities = t.entities;
  comments = [];
}

abbrev pub space_id_is : ℕ → SpaceRow → Bool
space_id_is id r = r.base.id == id

-- The segment of a path that names a space: a text that spells a uuid, or another.
pub data SpaceParam : Type 0 where
  no_uuid : SpaceParam
  spells : ℕ → ℕ → SpaceParam

-- `getSpace`. The query compares the segment with the id, the slug and the short id, and the database
-- fails on a text that is no uuid.
unfoldable pub get_space : SpaceTables → ℕ → SpaceParam → Result SpaceRow
get_space t project_id no_uuid = err database_error
get_space t project_id (spells id text) = found_or space_not_found (
    find_row
      (λ (r : SpaceRow).
        r.base.project_id == project_id
        && ((r.base.id == id || (some_eq r.slug text || r.short_id == text))
            && is_none r.base.deleted_at))
      t.spaces)

live_parts : (a b c e : Bool) → (a && (b && c)) ≡ true → e ≡ true → (a && (e && c)) ≡ true
live_parts true true true true h k = refl
live_parts true true false e h k = absurd (cc h)
live_parts true false c e h k = absurd (cc h)
live_parts false b c e h k = absurd (cc h)
live_parts a b c false h k = absurd (cc k)

-- The row that it finds is a live one of the project.
pub got_row :
    (t : SpaceTables) (project_id : ℕ) (param : SpaceParam) {space : SpaceRow}
    → get_space t project_id param ≡ ok space
    → (q : SpaceRow → Bool) × (find_row q t.spaces ≡ some space)
      × (space.base.project_id ≡ project_id)
      × (live_space project_id space.base.id space.base ≡ true)
unfolding get_space
got_row t project_id no_uuid got = absurd (cc got)
got_row t project_id (spells id text) {space} got =
    let found = found_or-ok space_not_found _ got in
    let holds = find_row_sound _ t.spaces {x = space} found in
    (
      _,
      found,
      ground arith,
      live_parts (space.base.project_id == project_id)
          (space.base.id == id || (some_eq space.slug text || space.short_id == text))
          (is_none space.base.deleted_at) (space.base.id == space.base.id) holds
          (==_refl space.base.id),
    )

abbrev pub member_row : ℕ → ℕ → ℕ → SpaceMember → Bool
member_row project_id space_id user_id m =
    m.project_id == project_id && (m.space_id == space_id && m.user_id == user_id)

-- `membershipOf`
unfoldable pub membership_of : SpaceTables → ℕ → ℕ → ℕ → Option SpaceMember
membership_of t project_id space_id user_id =
    find_row (member_row project_id space_id user_id) t.members

-- The foreign key of a user.
abbrev pub has_profile : SpaceTables → ℕ → Bool
has_profile t user_id = has_row (λ (p : Profile). p.id == user_id) t.profiles

-- A membership that is active, with a role that the test admits.
abbrev pub role_of_member : (MemberRole → Bool) → Option SpaceMember → Result MemberRole
role_of_member roles none = err insufficient_role
role_of_member roles (some m) = do
  guard (is_active m.status && roles m.role) insufficient_role
  ok m.role

-- `requireSpaceRole`
unfoldable pub require_space_role :
    SpaceTables → ℕ → AuthContext → SpaceRow → (MemberRole → Bool) → Result MemberRole
unfolding is_project_admin membership_of
require_space_role t project_id auth space roles =
    if is_project_admin auth || some_eq space.base.user_id auth.user_id
    then ok admin
    else role_of_member roles (membership_of t project_id space.base.id auth.user_id)

abbrev pub only_admin : MemberRole → Bool
only_admin admin = true
only_admin _ = false

abbrev pub admin_or_moderator : MemberRole → Bool
admin_or_moderator member = false
admin_or_moderator _ = true

-- `members_count` changes by the trigger `on_space_member_change`.
abbrev pub bump_members : ℕ → List SpaceRow → List SpaceRow
bump_members space_id rows =
    update_rows (space_id_is space_id)
      (λ (r : SpaceRow). record r { members_count = r.members_count + 1 }) rows

-- `greatest(0, members_count - 1)`
abbrev pub drop_member : ℕ → List SpaceRow → List SpaceRow
drop_member space_id rows =
    update_rows (space_id_is space_id)
      (λ (r : SpaceRow). record r { members_count = r.members_count - 1 }) rows

-- The trigger on one row that is inserted, updated or deleted: its status before and after.
abbrev pub on_member_change : ℕ → Bool → Bool → List SpaceRow → List SpaceRow
on_member_change space_id true true rows = rows
on_member_change space_id false false rows = rows
on_member_change space_id false true rows = bump_members space_id rows
on_member_change space_id true false rows = drop_member space_id rows
