-- ===== src/Spaces/Tree.antt =====
-- The tree of spaces: creation, reparenting, deletion and the breadcrumb, in
-- apps/api/src/routes/spaces.ts.
use philosophy_app.Prelude.{
  ℕ, zero, suc, ◌+◌, ◌-◌, Bool, true, false, not, ◌&&◌, ◌||◌, Option, none, some, List, [], ◌∷◌,
  ◌==◌, ltb, if◌then◌else◌, find_row, has_row, update_rows, length, some_eq, is_none,
}
use philosophy_app.Http.{
  space_cycle, bad_parent, too_deep, not_space_owner, rejected_by_webhook, database_error, Result,
  ok, ◌>>=◌, ◌>>◌, refuse, guard, found_or, parse_body,
}
use philosophy_app.Auth.{AuthContext}
use philosophy_app.Roles.{UuidText, printed, text_eq}
use philosophy_app.Access.{
  MemberRole, MemberStatus, ReadingPermission, PostingPermission, Visibility, Ctx, require_auth,
  assert_space_visible, space_visible_to_viewer,
}
use philosophy_app.Spaces.{
  SpaceParam, SpaceRow, SpaceTables, gate_tables, space_id_is, get_space, require_space_role,
  only_admin, bump_members, has_profile,
}

abbrev pub max_space_depth : ℕ
max_space_depth = 5

abbrev pub live_row : ℕ → ℕ → SpaceRow → Bool
live_row project_id id r =
    r.base.project_id == project_id && (r.base.id == id && is_none r.base.deleted_at)

-- The parent of the row with the id: none for a root, and where there is no such row.
abbrev pub parent_of : List SpaceRow → ℕ → Option ℕ
parent_of rows id = elim (find_row (space_id_is id) rows) [
  | none ↦ none
  | some r ↦ r.parent_space_id
]

-- The database prints the ids that it returns.
abbrev pub as_printed : Option ℕ → Option UuidText
as_printed none = none
as_printed (some id) = some (printed id)

unfoldable pub contains : List UuidText → UuidText → Bool
contains [] x = false
contains (y ∷ ys) x = text_eq y x || contains ys x

-- The loop of `wouldCreateCycle`, with the rounds left. None means that they ran out. The tests compare
-- texts, and the query compares uuids.
unfoldable pub cycle_walk : List SpaceRow → ℕ → ℕ → List UuidText → Option UuidText → Option Bool
unfolding contains
cycle_walk rows zero space_id seen current = none
cycle_walk rows (suc fuel) space_id seen none = some false
cycle_walk rows (suc fuel) space_id seen (some x) =
    let rest = cycle_walk rows fuel space_id (x ∷ seen) (as_printed (parent_of rows x.uuid)) in
    if text_eq x (printed space_id) then some true else if contains seen x then some false else rest

abbrev pub answer : Option Bool → Bool
answer none = false
answer (some b) = b

-- `wouldCreateCycle`, with three rounds more than there are rows.
unfoldable pub would_create_cycle : List SpaceRow → ℕ → UuidText → Bool
unfolding cycle_walk
would_create_cycle rows space_id new_parent_id =
    answer (cycle_walk rows (suc (suc (suc (length rows)))) space_id [] (some new_parent_id))

-- Where a space goes.
pub data Move : Type 0 where
  stays to_root : Move
  under : ℕ → ℕ → Move

pub record SpaceBody : Type 0 where
  pub slug : Option ℕ
  pub reading_permission : Option ReadingPermission
  pub posting_permission : Option PostingPermission
  pub visibility : Option Visibility
  pub require_join_approval : Option Bool
  pub parent_space_id : Option ℕ

abbrev pub given_or {ℓ} : {A : Type ℓ} → A → Option A → A
given_or usual none = usual
given_or usual (some x) = x

-- The depth of a new space, after the checks on its parent.
unfoldable pub new_depth : SpaceTables → ℕ → AuthContext → Option ℕ → Result ℕ
unfolding require_space_role
new_depth t project_id auth none = ok 0
new_depth t project_id auth (some parent_id) = do
  parent ← found_or bad_parent (find_row (live_row project_id parent_id) t.spaces)
  role ← require_space_role t project_id auth parent only_admin
  refuse (ltb max_space_depth (parent.depth + 1)) too_deep
  ok (parent.depth + 1)

-- The unique indexes on the slug and on the short id, and the primary key.
abbrev pub taken_row : ℕ → ℕ → Option ℕ → ℕ → SpaceRow → Bool
taken_row project_id id slug short_id r =
    r.base.id == id
    || (r.base.project_id == project_id
        && (r.short_id == short_id || elim slug [ none ↦ false | some s ↦ some_eq r.slug s ]))

abbrev pub count_child : Option ℕ → List SpaceRow → List SpaceRow
count_child none rows = rows
count_child (some parent_id) rows =
    update_rows (space_id_is parent_id)
      (λ (r : SpaceRow). record r { child_spaces_count = r.child_spaces_count + 1 }) rows

-- `greatest(0, child_spaces_count - 1)`
abbrev pub uncount_child : Option ℕ → List SpaceRow → List SpaceRow
uncount_child none rows = rows
uncount_child (some parent_id) rows =
    update_rows (space_id_is parent_id)
      (λ (r : SpaceRow). record r { child_spaces_count = r.child_spaces_count - 1 }) rows

-- The row of a new space. Its members are counted when the creator joins.
abbrev pub new_row : ℕ → ℕ → SpaceBody → ℕ → ℕ → ℕ → SpaceRow
new_row project_id user_id body depth fresh short_id = record {
  base = record {
    id = fresh;
    project_id = project_id;
    user_id = some user_id;
    reading_permission = given_or ReadingPermission.anyone body.reading_permission;
    posting_permission = given_or PostingPermission.members body.posting_permission;
    visibility = given_or Visibility.public body.visibility;
    deleted_at = none;
  };
  slug = body.slug;
  short_id = short_id;
  require_join_approval = given_or false body.require_join_approval;
  parent_space_id = body.parent_space_id;
  depth = depth;
  members_count = 0;
  child_spaces_count = 0;
}

-- `POST /`. `valid` is what the validation webhook answers, `short_id` the short id that is drawn.
unfoldable pub create_space :
    SpaceTables → Ctx → Option SpaceBody → Bool → ℕ → ℕ → Result SpaceTables
unfolding new_depth
create_space t c body valid fresh short_id = do
  auth ← require_auth c
  request ← parse_body body
  guard valid rejected_by_webhook
  depth ← new_depth t c.project_id auth request.parent_space_id
  refuse (has_row (taken_row c.project_id fresh request.slug short_id) t.spaces) database_error
  guard (has_profile t auth.user_id) database_error
  ok (record t {
    spaces = bump_members fresh (
        count_child request.parent_space_id
          (new_row c.project_id auth.user_id request depth fresh short_id ∷ t.spaces));
    members =
        record {
          project_id = c.project_id;
          space_id = fresh;
          user_id = auth.user_id;
          role = MemberRole.admin;
          status = MemberStatus.active;
        }
        ∷ t.members;
  })

-- `body.parentSpaceId === space.parentSpaceId`
abbrev pub same_parent : Option UuidText → Option ℕ → Bool
same_parent none none = true
same_parent (some a) (some b) = text_eq a (printed b)
same_parent _ _ = false

-- The part of `PATCH /:id` that decides where the space goes, for a parent that has changed. The tests
-- compare texts, and the query compares uuids.
unfoldable pub checked_move : SpaceTables → ℕ → SpaceRow → Option UuidText → Result Move
unfolding would_create_cycle
checked_move t project_id space none = ok to_root
checked_move t project_id space (some new_parent_id) = do
  refuse (text_eq new_parent_id (printed space.base.id)) space_cycle
  parent ← found_or bad_parent (find_row (live_row project_id new_parent_id.uuid) t.spaces)
  refuse (would_create_cycle t.spaces space.base.id new_parent_id) space_cycle
  refuse (ltb max_space_depth (parent.depth + 1)) too_deep
  ok (under new_parent_id.uuid (parent.depth + 1))

unfoldable pub decide_move : SpaceTables → ℕ → SpaceRow → Option (Option UuidText) → Result Move
unfolding checked_move
decide_move t project_id space none = ok stays
decide_move t project_id space (some parent) =
    if same_parent parent space.parent_space_id
    then ok stays
    else checked_move t project_id space parent

-- `other_columns` says whether the body gives a name, a description or metadata.
pub record PatchBody : Type 0 where
  pub slug : Option (Option ℕ)
  pub reading_permission : Option ReadingPermission
  pub posting_permission : Option PostingPermission
  pub visibility : Option Visibility
  pub require_join_approval : Option Bool
  pub parent_space_id : Option (Option UuidText)
  pub other_columns : Bool

-- The columns of the patch but the parent and the depth.
abbrev pub patch_columns : PatchBody → SpaceRow → SpaceRow
patch_columns body r = record r {
  base = record r.base {
    reading_permission = given_or r.base.reading_permission body.reading_permission;
    posting_permission = given_or r.base.posting_permission body.posting_permission;
    visibility = given_or r.base.visibility body.visibility;
  };
  slug = given_or r.slug body.slug;
  require_join_approval = given_or r.require_join_approval body.require_join_approval;
}

abbrev pub moved : Move → SpaceRow → SpaceRow
moved stays r = r
moved to_root r = record r { parent_space_id = none; depth = 0 }
moved (under parent_id depth) r = record r { parent_space_id = some parent_id; depth = depth }

abbrev pub is_given {ℓ} : {A : Type ℓ} → Option A → Bool
is_given none = false
is_given (some x) = true

abbrev pub stays_put : Move → Bool
stays_put stays = true
stays_put _ = false

-- An update that sets no column throws.
abbrev pub sets_nothing : PatchBody → Move → Bool
sets_nothing body move =
    stays_put move
    && not (
        is_given body.slug
        || (is_given body.reading_permission
            || (is_given body.posting_permission
                || (is_given body.visibility
                    || (is_given body.require_join_approval || body.other_columns)))))

-- The counters of the old and of the new parent.
abbrev pub recount_children : Move → Option ℕ → List SpaceRow → List SpaceRow
recount_children stays old rows = rows
recount_children to_root old rows = uncount_child old rows
recount_children (under parent_id depth) old rows =
    count_child (some parent_id) (uncount_child old rows)

abbrev pub slug_taken : ℕ → ℕ → Option (Option ℕ) → SpaceRow → Bool
slug_taken project_id id (some (some s)) r =
    r.base.project_id == project_id && (not (r.base.id == id) && some_eq r.slug s)
slug_taken project_id id _ r = false

-- `PATCH /:id`
unfoldable pub patch_space :
    SpaceTables → Ctx → SpaceParam → Option PatchBody → Bool → Result SpaceTables
unfolding get_space require_space_role decide_move
patch_space t c param body valid = do
  auth ← require_auth c
  space ← get_space t c.project_id param
  role ← require_space_role t c.project_id auth space only_admin
  request ← parse_body body
  guard valid rejected_by_webhook
  move ← decide_move t c.project_id space request.parent_space_id
  refuse (sets_nothing request move) database_error
  refuse (has_row (slug_taken c.project_id space.base.id request.slug) t.spaces) database_error
  ok (record t {
    spaces =
        update_rows (space_id_is space.base.id)
          (λ (r : SpaceRow). moved move (patch_columns request r))
          (recount_children move space.parent_space_id t.spaces);
  })

-- `DELETE /:id`
unfoldable pub delete_space : SpaceTables → Ctx → SpaceParam → ℕ → Result SpaceTables
unfolding get_space
delete_space t c param now = do
  auth ← require_auth c
  space ← get_space t c.project_id param
  guard (some_eq space.base.user_id auth.user_id) not_space_owner
  ok (record t {
    spaces =
        update_rows (space_id_is space.base.id)
          (λ (r : SpaceRow). record r { base = record r.base { deleted_at = some now } }) t.spaces;
  })

-- The loop of the breadcrumb: the chain so far has the last ancestor first.
unfoldable pub climb : SpaceTables → Ctx → ℕ → SpaceRow → List SpaceRow → Option (List SpaceRow)
climb t c zero current chain = none
climb t c (suc fuel) current chain = elim current.parent_space_id [
  | none ↦ some chain
  | some parent_id ↦ elim (find_row (space_id_is parent_id) t.spaces) [
    | none ↦ some chain
    | some p ↦ elim (space_visible_to_viewer (gate_tables t) c p.base) [
      | false ↦ some chain
      | true ↦ climb t c fuel p (p ∷ chain)
    ]
  ]
]

-- `GET /:id/breadcrumb`, with the rounds that its loop may take.
unfoldable pub breadcrumb : SpaceTables → Ctx → ℕ → SpaceParam → Result (Option (List SpaceRow))
unfolding get_space assert_space_visible climb
breadcrumb t c fuel param = do
  space ← get_space t c.project_id param
  assert_space_visible (gate_tables t) c space.base
  ok (climb t c fuel space (space ∷ []))
