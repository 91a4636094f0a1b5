-- ===== src/Spaces/Settings.antt =====
-- The rules of a space, the resolution of reports, and what a caller is told about the own membership, in
-- apps/api/src/routes/spaces.ts. Titles and other texts are numbers, and so are the orders of rules,
-- which the code lets be below zero.
use philosophy_app.Prelude.{
  ℕ, suc, Bool, true, false, not, ◌&&◌, ◌||◌, Option, none, some, List, [], ◌∷◌, ◌==◌,
  if◌then◌else◌, find_row, has_row, select_rows, update_rows, delete_rows, some_eq, leb,
}
use philosophy_app.Prelude.Pages.{sort_rows}
use philosophy_app.Http.{Result, ok, ◌>>=◌, ◌>>◌, guard, found_or, parse_body, rule_not_found}
use philosophy_app.Access.{
  Space, SpaceMember, MemberRole, MemberStatus, PostingPermission, Ctx, require_auth, is_active,
  assert_space_visible, assert_space_visible_by_id, reads_anyone, posts_anyone,
}
use philosophy_app.Spaces.{
  SpaceParam, SpaceRow, SpaceTables, gate_tables, get_space, membership_of, require_space_role,
  only_admin, admin_or_moderator,
}

-- A row of `space_rules`.
pub record Rule : Type 0 where
  pub id : ℕ
  pub project_id : ℕ
  pub space_id : ℕ
  pub title : ℕ
  pub description : Option ℕ
  pub order : ℕ
  pub last_approved_by : Option ℕ

pub record RuleBody : Type 0 where
  pub title : ℕ
  pub description : Option ℕ
  pub order : Option ℕ

pub record RulePatch : Type 0 where
  pub title : Option ℕ
  pub description : Option (Option ℕ)
  pub order : Option ℕ

abbrev pub keep_or {ℓ} : {A : Type ℓ} → A → Option A → A
keep_or old none = old
keep_or old (some new) = new

abbrev pub lower_order : Rule → Rule → Bool
lower_order a b = leb a.order b.order

abbrev pub rules_of : ℕ → Rule → Bool
rules_of space_id r = r.space_id == space_id

abbrev pub rule_key : ℕ → ℕ → Rule → Bool
rule_key space_id rule_id r = r.space_id == space_id && r.id == rule_id

-- `GET /:id/rules`
unfoldable pub get_rules : SpaceTables → List Rule → Ctx → ℕ → Result (List Rule)
unfolding assert_space_visible_by_id
get_rules t rules c space_id = do
  assert_space_visible_by_id (gate_tables t) c space_id
  ok (
      sort_rows lower_order
        (select_rows (λ (r : Rule). r.project_id == c.project_id && r.space_id == space_id) rules))

-- `POST /:id/rules`
unfoldable pub create_rule :
    SpaceTables → List Rule → Ctx → SpaceParam → Option RuleBody → ℕ → Result (List Rule)
unfolding get_space require_space_role
create_rule t rules c param body fresh = do
  auth ← require_auth c
  space ← get_space t c.project_id param
  role ← require_space_role t c.project_id auth space only_admin
  request ← parse_body body
  ok (
      record {
        id = fresh;
        project_id = c.project_id;
        space_id = space.base.id;
        title = request.title;
        description = request.description;
        order = keep_or 0 request.order;
        last_approved_by = some auth.user_id;
      }
      ∷ rules)

-- The updates of a reordering, the first rule first. They run at once in the code; their rows differ
-- where the ids do.
unfoldable pub number_rules : ℕ → ℕ → List ℕ → List Rule → List Rule
number_rules space_id i [] rules = rules
number_rules space_id i (rule_id ∷ ids) rules =
    number_rules space_id (suc i) ids
      (update_rows (rule_key space_id rule_id) (λ (r : Rule). record r { order = i }) rules)

-- `PATCH /:id/rules/reorder`: the new rows and the list that the caller gets.
unfoldable pub reorder_rules :
    SpaceTables → List Rule → Ctx → SpaceParam → Option (List ℕ) → Result (List Rule × List Rule)
unfolding get_space require_space_role number_rules
reorder_rules t rules c param body = do
  auth ← require_auth c
  space ← get_space t c.project_id param
  role ← require_space_role t c.project_id auth space only_admin
  ids ← parse_body body
  ok (
    number_rules space.base.id 0 ids rules,
    sort_rows lower_order
        (select_rows (rules_of space.base.id) (number_rules space.base.id 0 ids rules)),
  )

-- `GET /:id/rules/:ruleId`
unfoldable pub get_rule : SpaceTables → List Rule → Ctx → ℕ → ℕ → Result Rule
unfolding assert_space_visible_by_id
get_rule t rules c space_id rule_id = do
  assert_space_visible_by_id (gate_tables t) c space_id
  found_or rule_not_found (find_row (rule_key space_id rule_id) rules)

-- `PATCH /:id/rules/:ruleId`. The schema refuses a body without a field.
unfoldable pub update_rule :
    SpaceTables → List Rule → Ctx → SpaceParam → ℕ → Option RulePatch → Result (List Rule)
unfolding get_space require_space_role
update_rule t rules c param rule_id body = do
  auth ← require_auth c
  space ← get_space t c.project_id param
  role ← require_space_role t c.project_id auth space only_admin
  request ← parse_body body
  guard (has_row (rule_key space.base.id rule_id) rules) rule_not_found
  ok (
      update_rows (rule_key space.base.id rule_id)
        (λ (r : Rule). record r {
          title = keep_or r.title request.title;
          description = keep_or r.description request.description;
          order = keep_or r.order request.order;
        })
        rules)

-- `DELETE /:id/rules/:ruleId`
unfoldable pub delete_rule : SpaceTables → List Rule → Ctx → SpaceParam → ℕ → Result (List Rule)
unfolding get_space require_space_role
delete_rule t rules c param rule_id = do
  auth ← require_auth c
  space ← get_space t c.project_id param
  role ← require_space_role t c.project_id auth space only_admin
  guard (has_row (rule_key space.base.id rule_id) rules) rule_not_found
  ok (delete_rows (rule_key space.base.id rule_id) rules)

-- A row of `reports`.
pub record Report : Type 0 where
  pub project_id : ℕ
  pub on_comment : Bool
  pub target_id : ℕ
  pub space_id : Option ℕ
  pub resolved_at : Option ℕ
  pub resolved_by_id : Option ℕ

-- `PATCH /:id/reports/entity/:entityId`, and `…/comment/:commentId` where `comment` is true.
unfoldable pub resolve_reports :
    Bool → SpaceTables → List Report → Ctx → SpaceParam → ℕ → ℕ → Result (List Report)
unfolding get_space require_space_role
resolve_reports comment t reports c param target_id now = do
  auth ← require_auth c
  space ← get_space t c.project_id param
  role ← require_space_role t c.project_id auth space admin_or_moderator
  ok (
      update_rows
        (λ (r : Report).
          r.project_id == c.project_id
          && (some_eq r.space_id space.base.id
              && ((if comment then r.on_comment else not r.on_comment)
                  && r.target_id == target_id)))
        (λ (r : Report). record r { resolved_at = some now; resolved_by_id = some auth.user_id })
        reports)

-- What `GET /:id/membership/me` answers.
pub record Membership : Type 0 where
  pub is_member : Bool
  pub role : Option MemberRole
  pub status : Option MemberStatus
  pub can_post : Bool
  pub can_moderate : Bool
  pub can_read : Bool
  pub is_admin : Bool
  pub is_moderator : Bool

abbrev pub is_admin_role : MemberRole → Bool
is_admin_role MemberRole.admin = true
is_admin_role _ = false

abbrev pub is_moderator_role : MemberRole → Bool
is_moderator_role MemberRole.moderator = true
is_moderator_role _ = false

abbrev pub posts_admins : PostingPermission → Bool
posts_admins PostingPermission.admins = true
posts_admins _ = false

-- The answer to the owner, who needs no row.
abbrev pub owner_membership : Membership
owner_membership = record {
  is_member = true;
  role = some MemberRole.admin;
  status = some MemberStatus.active;
  can_post = true;
  can_moderate = true;
  can_read = true;
  is_admin = true;
  is_moderator = true;
}

-- The answer to a caller without a row.
abbrev pub stranger_membership : Space → Membership
stranger_membership s = record {
  is_member = false;
  role = none;
  status = none;
  can_post = posts_anyone s.posting_permission;
  can_moderate = false;
  can_read = reads_anyone s.reading_permission;
  is_admin = false;
  is_moderator = false;
}

-- The answer to a caller with a row.
abbrev pub row_membership : Space → SpaceMember → Membership
row_membership s m =
    let is_admin = is_active m.status && is_admin_role m.role in
    let is_mod = is_active m.status && is_moderator_role m.role in
    record {
      is_member = is_active m.status;
      role = some m.role;
      status = some m.status;
      can_post =
          is_active m.status && (not (posts_admins s.posting_permission) || (is_admin || is_mod));
      can_moderate = is_admin || is_mod;
      can_read = reads_anyone s.reading_permission || is_active m.status;
      is_admin = is_admin;
      is_moderator = is_mod;
    }

unfoldable pub membership_answer :
    SpaceTables → Ctx → SpaceRow → Option SpaceMember → Result Membership
unfolding assert_space_visible
membership_answer t c space none = do
  assert_space_visible (gate_tables t) c space.base
  ok (stranger_membership space.base)
membership_answer t c space (some m) = ok (row_membership space.base m)

-- `GET /:id/membership/me`
unfoldable pub membership_me : SpaceTables → Ctx → SpaceParam → Result Membership
unfolding get_space membership_of membership_answer
membership_me t c param = do
  auth ← require_auth c
  space ← get_space t c.project_id param
  if some_eq space.base.user_id auth.user_id
      then ok owner_membership
      else membership_answer t c space (membership_of t c.project_id space.base.id auth.user_id)
