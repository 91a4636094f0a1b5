-- ===== src/Spaces/Members.antt =====
-- The members of a space and the moderation of what stands in it, in
-- apps/api/src/routes/spaces.ts. The trigger `on_space_member_change` of
-- apps/api/drizzle/0002_triggers.sql runs on every row of `space_members` that changes.
use philosophy_app.Prelude.{
  ℕ, Bool, true, false, ◌&&◌, Option, some, List, [], ◌∷◌, ◌==◌, if◌then◌else◌, has_row,
  update_rows, delete_rows, count_rows, some_eq,
}
use philosophy_app.Http.{
  Result, ok, ◌>>=◌, ◌>>◌, guard, parse_body, database_error, member_not_found, entity_not_in_space,
  comment_not_found,
}
use philosophy_app.Access.{
  SpaceMember, MemberRole, MemberStatus, pending, active, rejected, Ctx, require_auth, is_active,
  ModerationStatus, Entity,
}
use philosophy_app.Spaces.{
  SpaceParam, SpaceRow, SpaceTables, CommentRow, space_id_is, get_space, require_space_role,
  only_admin, admin_or_moderator, has_profile, on_member_change,
}

-- The rows of the count that a request makes: active, and joined with their profile.
abbrev pub counted_member : SpaceTables → ℕ → ℕ → SpaceMember → Bool
counted_member t project_id space_id m =
    (m.project_id == project_id && (m.space_id == space_id && is_active m.status))
    && has_profile t m.user_id

abbrev pub real_count : SpaceTables → ℕ → ℕ → ℕ
real_count t project_id space_id = count_rows (counted_member t project_id space_id) t.members

-- `update(spaces).set({ membersCount: realCount })`
abbrev pub recount : ℕ → ℕ → SpaceTables → SpaceTables
recount project_id space_id t = record t {
  spaces =
      update_rows (space_id_is space_id)
        (λ (r : SpaceRow). record r { members_count = real_count t project_id space_id }) t.spaces;
}

-- The key of the upsert, and the rows that the requests of the moderators change.
abbrev pub member_key : ℕ → ℕ → SpaceMember → Bool
member_key space_id user_id m = m.space_id == space_id && m.user_id == user_id

-- The trigger on the rows that a statement changes, with their status after it.
abbrev pub count_changes :
    (SpaceMember → Bool)
    → (SpaceMember → Bool)
    → ℕ
    → List SpaceMember
    → List SpaceRow
    → List SpaceRow
count_changes p then_active space_id [] rows = rows
count_changes p then_active space_id (m ∷ ms) rows =
    let rest = count_changes p then_active space_id ms rows in
    if p m then on_member_change space_id (is_active m.status) (then_active m) rest else rest

-- `update(space_members)` with its trigger.
unfoldable pub update_members :
    SpaceTables → ℕ → (SpaceMember → Bool) → (SpaceMember → SpaceMember) → SpaceTables
update_members t space_id p f = record t {
  members = update_rows p f t.members;
  spaces =
      count_changes p (λ (m : SpaceMember). is_active (f m).status) space_id t.members t.spaces;
}

-- `delete(space_members)` with its trigger.
unfoldable pub delete_members : SpaceTables → ℕ → (SpaceMember → Bool) → SpaceTables
delete_members t space_id p = record t {
  members = delete_rows p t.members;
  spaces = count_changes p (λ (m : SpaceMember). false) space_id t.members t.spaces;
}

-- The upsert of `POST /:id/join`.
unfoldable pub upsert_join : SpaceTables → ℕ → ℕ → ℕ → MemberStatus → SpaceTables
unfolding update_members
upsert_join t project_id space_id user_id status =
    if has_row (member_key space_id user_id) t.members
    then update_members t space_id (member_key space_id user_id)
        (λ (m : SpaceMember). record m { status = status; role = MemberRole.member })
    else record t {
      members =
          record {
            project_id = project_id;
            space_id = space_id;
            user_id = user_id;
            role = MemberRole.member;
            status = status;
          }
          ∷ t.members;
      spaces = on_member_change space_id false (is_active status) t.spaces;
    }

abbrev pub join_status : Bool → MemberStatus
join_status true = pending
join_status false = active

-- `POST /:id/join`
unfoldable pub join_space : SpaceTables → Ctx → SpaceParam → Result SpaceTables
unfolding get_space upsert_join
join_space t c param = do
  auth ← require_auth c
  space ← get_space t c.project_id param
  guard (has_profile t auth.user_id) database_error
  ok (
      recount c.project_id space.base.id (
        upsert_join t c.project_id space.base.id auth.user_id
          (join_status space.require_join_approval)))

abbrev pub own_membership : ℕ → ℕ → ℕ → SpaceMember → Bool
own_membership project_id space_id user_id m =
    m.project_id == project_id && (m.space_id == space_id && m.user_id == user_id)

-- `DELETE /:id/leave`
unfoldable pub leave_space : SpaceTables → Ctx → SpaceParam → Result SpaceTables
unfolding get_space delete_members
leave_space t c param = do
  auth ← require_auth c
  space ← get_space t c.project_id param
  ok (
      recount c.project_id space.base.id
        (delete_members t space.base.id (own_membership c.project_id space.base.id auth.user_id)))

-- `DELETE /:id/members/:memberId`
unfoldable pub remove_member : SpaceTables → Ctx → SpaceParam → ℕ → Result SpaceTables
unfolding get_space require_space_role delete_members
remove_member t c param member_id = do
  auth ← require_auth c
  space ← get_space t c.project_id param
  role ← require_space_role t c.project_id auth space admin_or_moderator
  ok (delete_members t space.base.id (member_key space.base.id member_id))

-- `PATCH /:id/members/:memberId/role`
unfoldable pub change_role :
    SpaceTables → Ctx → SpaceParam → ℕ → Option MemberRole → Result SpaceTables
unfolding get_space require_space_role update_members
change_role t c param member_id body = do
  auth ← require_auth c
  space ← get_space t c.project_id param
  role ← require_space_role t c.project_id auth space only_admin
  new_role ← parse_body body
  guard (has_row (member_key space.base.id member_id) t.members) member_not_found
  ok (
      update_members t space.base.id (member_key space.base.id member_id)
        (λ (m : SpaceMember). record m { role = new_role }))

-- `PATCH /:id/members/:memberId/approve`, `…/decline` and `…/unban`, which differ in the status.
unfoldable pub set_status : SpaceTables → Ctx → SpaceParam → ℕ → MemberStatus → Result SpaceTables
unfolding get_space require_space_role update_members
set_status t c param member_id status = do
  auth ← require_auth c
  space ← get_space t c.project_id param
  role ← require_space_role t c.project_id auth space admin_or_moderator
  guard (has_row (member_key space.base.id member_id) t.members) member_not_found
  ok (
      update_members t space.base.id (member_key space.base.id member_id)
        (λ (m : SpaceMember). record m { status = status }))

-- `PATCH /:id/members/:memberId/approve`
abbrev pub approve_member : SpaceTables → Ctx → SpaceParam → ℕ → Result SpaceTables
approve_member t c param member_id = set_status t c param member_id active

-- `PATCH /:id/members/:memberId/decline`
abbrev pub decline_member : SpaceTables → Ctx → SpaceParam → ℕ → Result SpaceTables
decline_member t c param member_id = set_status t c param member_id rejected

-- `PATCH /:id/members/:memberId/unban`
abbrev pub unban_member : SpaceTables → Ctx → SpaceParam → ℕ → Result SpaceTables
unban_member t c param member_id = set_status t c param member_id active

abbrev pub entity_in_space : ℕ → ℕ → ℕ → Entity → Bool
entity_in_space project_id entity_id space_id e =
    e.project_id == project_id && (e.id == entity_id && some_eq e.space_id space_id)

-- `PATCH /:id/entities/:entityId/moderation`
unfoldable pub moderate_entity :
    SpaceTables → Ctx → SpaceParam → ℕ → Option ModerationStatus → Result SpaceTables
unfolding get_space require_space_role
moderate_entity t c param entity_id body = do
  auth ← require_auth c
  space ← get_space t c.project_id param
  role ← require_space_role t c.project_id auth space admin_or_moderator
  status ← parse_body body
  guard (has_row (entity_in_space c.project_id entity_id space.base.id) t.entities)
      entity_not_in_space
  ok (record t {
    entities =
        update_rows (entity_in_space c.project_id entity_id space.base.id)
          (λ (e : Entity). record e { moderation_status = some status }) t.entities;
  })

abbrev pub comment_key : ℕ → ℕ → CommentRow → Bool
comment_key project_id comment_id r = r.project_id == project_id && r.id == comment_id

-- `PATCH /:id/comments/:commentId/moderation`: the statement does not ask for the space.
unfoldable pub moderate_comment :
    SpaceTables → Ctx → SpaceParam → ℕ → Option ModerationStatus → Result SpaceTables
unfolding get_space require_space_role
moderate_comment t c param comment_id body = do
  auth ← require_auth c
  space ← get_space t c.project_id param
  role ← require_space_role t c.project_id auth space admin_or_moderator
  status ← parse_body body
  guard (has_row (comment_key c.project_id comment_id) t.comments) comment_not_found
  ok (record t {
    comments =
        update_rows (comment_key c.project_id comment_id)
          (λ (r : CommentRow). record r { moderation_status = some status }) t.comments;
  })
