-- ===== src/Access.antt =====
-- Who may read, post and discover: apps/api/src/lib/space-access.ts, space-visibility.ts,
-- moderation-visibility.ts and public-access.ts. A SQL predicate is a Boolean function of the row.
pub mod Reading
pub mod Exposure
use philosophy_app.Prelude.{
  ℕ, Bool, true, false, not, ◌&&◌, ◌||◌, Option, none, some, List, [], ◌∷◌, ◌==◌, if◌then◌else◌,
  has_row, find_row, some_eq, is_none, is_some,
}
use philosophy_app.Http.{
  Failure, unauthorized, members_only, not_a_space_member, posting_restricted, space_not_found,
  entity_not_found, Result, ok, err, ◌>>=◌, ◌>>◌, refuse, guard,
}
use philosophy_app.Auth.{AuthContext}
use philosophy_app.Roles.{is_project_admin}

pub data ReadingPermission : Type 0 where
  anyone members : ReadingPermission

pub data PostingPermission : Type 0 where
  anyone members admins : PostingPermission

pub data Visibility : Type 0 where
  public unlisted private : Visibility

pub data MemberRole : Type 0 where
  admin moderator member : MemberRole

pub data MemberStatus : Type 0 where
  pending active banned rejected : MemberStatus

pub record Space : Type 0 where
  pub id : ℕ
  pub project_id : ℕ
  pub user_id : Option ℕ
  pub reading_permission : ReadingPermission
  pub posting_permission : PostingPermission
  pub visibility : Visibility
  pub deleted_at : Option ℕ

pub record SpaceMember : Type 0 where
  pub project_id : ℕ
  pub space_id : ℕ
  pub user_id : ℕ
  pub role : MemberRole
  pub status : MemberStatus

pub data ModerationStatus : Type 0 where
  approved removed : ModerationStatus

pub record Entity : Type 0 where
  pub id : ℕ
  pub project_id : ℕ
  pub space_id : Option ℕ
  pub foreign_id : Option ℕ
  pub is_public : Bool
  pub is_draft : Option Bool
  pub moderation_status : Option ModerationStatus
  pub deleted_at : Option ℕ

pub record Comment : Type 0 where
  pub id : ℕ
  pub project_id : ℕ
  pub entity_id : ℕ

pub record Tables : Type 0 where
  pub spaces : List Space
  pub space_members : List SpaceMember
  pub entities : List Entity
  pub comments : List Comment

-- `c.var`: the project of the request and its verified token, null for an anonymous caller.
pub record Ctx : Type 0 where
  pub project_id : ℕ
  pub auth : Option AuthContext

abbrev pub is_active : MemberStatus → Bool
is_active active = true
is_active _ = false

-- `c.var.auth && isProjectAdmin(c.var.auth)`
unfoldable pub is_admin_ctx : Option AuthContext → Bool
unfolding is_project_admin
is_admin_ctx none = false
is_admin_ctx (some a) = is_project_admin a

-- `c.var.auth?.userId`
abbrev pub uid_of : Option AuthContext → Option ℕ
uid_of none = none
uid_of (some a) = some a.user_id

-- `requireAuth`
abbrev pub require_auth : Ctx → Result AuthContext
require_auth c = elim c.auth [ none ↦ err unauthorized | some a ↦ ok a ]

abbrev pub active_member_row : ℕ → ℕ → ℕ → SpaceMember → Bool
active_member_row project_id space_id user_id m =
    m.project_id == project_id
    && (m.space_id == space_id && (m.user_id == user_id && is_active m.status))

unfoldable pub is_owner_or_active_member : Tables → ℕ → ℕ → ℕ → Option ℕ → Bool
is_owner_or_active_member t project_id space_id user_id owner_id =
    some_eq owner_id user_id
    || has_row (active_member_row project_id space_id user_id) t.space_members

abbrev pub live_space : ℕ → ℕ → Space → Bool
live_space project_id space_id s =
    s.project_id == project_id && (s.id == space_id && is_none s.deleted_at)

abbrev pub reads_anyone : ReadingPermission → Bool
reads_anyone anyone = true
reads_anyone members = false

-- The part of `assertCanReadSpace` after the space has been found.
unfoldable pub may_read_found : Tables → Ctx → ℕ → ℕ → Space → Bool
unfolding is_owner_or_active_member
may_read_found t c project_id space_id s =
    reads_anyone s.reading_permission || elim (uid_of c.auth) [
      | none ↦ false
      | some uid ↦ is_owner_or_active_member t project_id space_id uid s.user_id
    ]

-- A space that is unknown or deleted does not gate.
unfoldable pub assert_can_read_space : Tables → Ctx → Option ℕ → ℕ → Result (Unit {0})
unfolding is_admin_ctx may_read_found
assert_can_read_space t c none project_id = ok tt
assert_can_read_space t c (some space_id) project_id =
    if is_admin_ctx c.auth
    then ok tt
    else elim (find_row (live_space project_id space_id) t.spaces) [
      | none ↦ ok tt
      | some s ↦ guard (may_read_found t c project_id space_id s) members_only
    ]

unfoldable pub assert_can_read_entity : Tables → Ctx → ℕ → Result (Unit {0})
unfolding assert_can_read_space
assert_can_read_entity t c entity_id =
    if is_admin_ctx c.auth
    then ok tt
    else elim (find_row (λ (e : Entity). e.project_id == c.project_id && e.id == entity_id)
        t.entities) [ none ↦ ok tt | some e ↦ assert_can_read_space t c e.space_id c.project_id ]

unfoldable pub assert_can_read_comment : Tables → Ctx → ℕ → Result (Unit {0})
unfolding assert_can_read_entity
assert_can_read_comment t c comment_id =
    if is_admin_ctx c.auth
    then ok tt
    else elim (find_row (λ (m : Comment). m.project_id == c.project_id && m.id == comment_id)
        t.comments) [ none ↦ ok tt | some m ↦ assert_can_read_entity t c m.entity_id ]

-- May an active member of this role post?
abbrev pub role_may_post : PostingPermission → MemberRole → Bool
role_may_post PostingPermission.admins member = false
role_may_post _ _ = true

-- The part of `assertCanPostInSpace` for a caller with a token, who is the owner or else a member.
unfoldable pub member_post : Tables → Ctx → Space → ℕ → ℕ → Result (Unit {0})
member_post t c s space_id uid =
    if some_eq s.user_id uid
    then ok tt
    else elim (find_row (active_member_row c.project_id space_id uid) t.space_members) [
      | none ↦ err not_a_space_member
      | some m ↦ guard (role_may_post s.posting_permission m.role) posting_restricted
    ]

-- The part of `assertCanPostInSpace` for a space that does not let anyone post.
unfoldable pub assert_member_may_post : Tables → Ctx → Space → ℕ → Result (Unit {0})
unfolding member_post
assert_member_may_post t c s space_id = elim (uid_of c.auth) [
  | none ↦ err not_a_space_member
  | some uid ↦ member_post t c s space_id uid
]

abbrev pub posts_anyone : PostingPermission → Bool
posts_anyone PostingPermission.anyone = true
posts_anyone _ = false

unfoldable pub assert_can_post_in_space : Tables → Ctx → Option ℕ → Result (Unit {0})
unfolding assert_member_may_post is_admin_ctx
assert_can_post_in_space t c none = ok tt
assert_can_post_in_space t c (some space_id) =
    if is_admin_ctx c.auth
    then ok tt
    else elim (find_row (live_space c.project_id space_id) t.spaces) [
      | none ↦ ok tt
      | some s ↦
          if posts_anyone s.posting_permission then ok tt else assert_member_may_post t c s space_id
    ]

-- `or s.user_id = … or exists (select 1 from space_members …)`; empty for an anonymous caller. The
-- SQL does not name the project here.
abbrev pub member_clause : Tables → Option ℕ → Space → Bool
member_clause t none s = false
member_clause t (some uid) s =
    some_eq s.user_id uid
    || has_row (λ (m : SpaceMember). m.space_id == s.id && (m.user_id == uid && is_active m.status))
        t.space_members

-- The predicate on the `space_id` of a row of the feed; an admin's list is unfiltered.
unfoldable pub readable_entities_filter : Tables → Ctx → Option ℕ → Bool
unfolding is_admin_ctx
readable_entities_filter t c none = true
readable_entities_filter t c (some space_id) =
    is_admin_ctx c.auth
    || has_row
        (λ (s : Space).
          s.id == space_id
          && (is_none s.deleted_at
              && (reads_anyone s.reading_permission || member_clause t (uid_of c.auth) s)))
        t.spaces

abbrev pub is_public : Visibility → Bool
is_public public = true
is_public _ = false

abbrev pub is_private : Visibility → Bool
is_private private = true
is_private _ = false

-- The predicate of the space lists and of search.
unfoldable pub discoverable_spaces_sql : Tables → Ctx → Space → Bool
unfolding is_admin_ctx
discoverable_spaces_sql t c s =
    is_admin_ctx c.auth || (is_public s.visibility || member_clause t (uid_of c.auth) s)

unfoldable pub space_visible_to_viewer : Tables → Ctx → Space → Bool
unfolding is_admin_ctx
space_visible_to_viewer t c s =
    not (is_private s.visibility)
    || (is_admin_ctx c.auth || elim (uid_of c.auth) [
      | none ↦ false
      | some uid ↦
          some_eq s.user_id uid || has_row (active_member_row c.project_id s.id uid) t.space_members
    ])

unfoldable pub assert_space_visible : Tables → Ctx → Space → Result (Unit {0})
unfolding space_visible_to_viewer
assert_space_visible t c s = guard (space_visible_to_viewer t c s) space_not_found

unfoldable pub assert_space_visible_by_id : Tables → Ctx → ℕ → Result (Unit {0})
unfolding assert_space_visible
assert_space_visible_by_id t c space_id =
    elim (find_row (live_space c.project_id space_id) t.spaces) [
      | none ↦ err space_not_found
      | some s ↦ assert_space_visible t c s
    ]

-- `removedPolicy(c).privileged`
unfoldable pub removed_policy : Ctx → Bool
unfolding is_admin_ctx
removed_policy c = is_admin_ctx c.auth

abbrev pub is_removed : Option ModerationStatus → Bool
is_removed (some removed) = true
is_removed _ = false

-- The predicate on a row of a list: `is null or <> 'removed'`, or no predicate.
unfoldable pub exclude_removed_sql : Bool → Option ModerationStatus → Bool
exclude_removed_sql privileged none = true
exclude_removed_sql privileged (some removed) = privileged
exclude_removed_sql privileged (some approved) = true

unfoldable pub should_hide : Bool → Option ModerationStatus → Bool
should_hide privileged moderation_status = not privileged && is_removed moderation_status

abbrev pub is_true : Option Bool → Bool
is_true (some true) = true
is_true _ = false

-- The ladder, on an entity and the space that the join has found.
unfoldable pub is_internet_public : Entity → Option Space → Bool
is_internet_public e space =
    if not e.is_public || (is_some e.deleted_at || is_true e.is_draft)
    then false
    else (if is_removed e.moderation_status then false else (elim e.space_id [
      | none ↦ true
      | some id ↦ elim space [
        | none ↦ false
        | some s ↦ is_none s.deleted_at && reads_anyone s.reading_permission
      ]
    ]))

-- `left join spaces on spaces.id = entities.space_id and spaces.project_id = …`; a deleted space joins.
abbrev pub joined_space : Tables → ℕ → Option ℕ → Option Space
joined_space t project_id none = none
joined_space t project_id (some space_id) =
    find_row (λ (s : Space). s.id == space_id && s.project_id == project_id) t.spaces

-- The row that the query returns, gated; every miss is the same failure.
unfoldable pub load_gated : Tables → ℕ → (Entity → Bool) → Result Entity
unfolding is_internet_public
load_gated t project_id predicate =
    elim (find_row (λ (e : Entity). e.project_id == project_id && predicate e) t.entities) [
      | none ↦ err entity_not_found
      | some e ↦
          if is_internet_public e (joined_space t project_id e.space_id)
          then ok e
          else err entity_not_found
    ]

-- A malformed id is none.
unfoldable pub assert_entity_internet_public : Tables → ℕ → Option ℕ → Result Entity
unfolding load_gated
assert_entity_internet_public t project_id none = err entity_not_found
assert_entity_internet_public t project_id (some entity_id) =
    load_gated t project_id (λ (e : Entity). e.id == entity_id)

unfoldable pub assert_foreign_id_internet_public : Tables → ℕ → ℕ → Result Entity
unfolding load_gated
assert_foreign_id_internet_public t project_id foreign_id =
    load_gated t project_id (λ (e : Entity). some_eq e.foreign_id foreign_id)
