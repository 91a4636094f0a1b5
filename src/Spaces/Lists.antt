-- ===== src/Spaces/Lists.antt =====
-- The reads of apps/api/src/routes/spaces.ts, and the settings of the digest. The order and the pages of
-- lists are left out: a list is all the rows that its query selects, next to the total that it tells.
use philosophy_app.Prelude.{
  ℕ, Bool, true, false, not, ◌&&◌, ◌||◌, Option, none, some, List, ◌==◌, find_row, has_row,
  select_rows, count_rows, update_rows, some_eq, is_none,
}
use philosophy_app.Http.{
  Result, ok, err, ◌>>=◌, ◌>>◌, refuse, found_or, space_not_found, database_error, invalid_body,
}
use philosophy_app.Access.{
  SpaceMember, MemberRole, MemberStatus, Ctx, require_auth, uid_of, active_member_row,
  assert_space_visible, assert_space_visible_by_id, discoverable_spaces_sql,
}
use philosophy_app.Spaces.{
  SpaceParam, SpaceRow, SpaceTables, gate_tables, get_space, membership_of, require_space_role,
  only_admin, has_profile,
}
use philosophy_app.Spaces.Tree.{is_given}
use philosophy_app.Spaces.Members.{real_count}

abbrev pub slug_row : ℕ → ℕ → SpaceRow → Bool
slug_row project_id slug r = r.base.project_id == project_id && some_eq r.slug slug

-- `GET /by-short-id`
unfoldable pub by_short_id : SpaceTables → Ctx → Option ℕ → Result SpaceRow
unfolding assert_space_visible
by_short_id t c none = err invalid_body
by_short_id t c (some short_id) = do
  row ← found_or space_not_found (
      find_row
        (λ (r : SpaceRow).
          r.base.project_id == c.project_id
          && (r.short_id == short_id && is_none r.base.deleted_at))
        t.spaces)
  assert_space_visible (gate_tables t) c row.base
  ok row

-- `GET /by-slug`
unfoldable pub by_slug : SpaceTables → Ctx → Option ℕ → Result SpaceRow
unfolding assert_space_visible
by_slug t c none = err invalid_body
by_slug t c (some slug) = do
  row ← found_or space_not_found (
      find_row (λ (r : SpaceRow). slug_row c.project_id slug r && is_none r.base.deleted_at)
        t.spaces)
  assert_space_visible (gate_tables t) c row.base
  ok row

-- `GET /check-slug`: a deleted space keeps its slug.
abbrev pub check_slug : SpaceTables → Ctx → Option ℕ → Result Bool
check_slug t c none = err invalid_body
check_slug t c (some slug) = ok (not (has_row (slug_row c.project_id slug) t.spaces))

pub record Listing {ℓ} (A : Type ℓ) : Type ℓ where
  pub rows : List A
  pub total : ℕ

-- `GET /user-spaces`: the memberships of the caller in spaces that are not deleted. The total counts the
-- memberships in deleted spaces too.
unfoldable pub user_spaces : SpaceTables → Ctx → Result (Listing SpaceMember)
user_spaces t c = do
  auth ← require_auth c
  ok (record {
    rows =
        select_rows
          (λ (m : SpaceMember).
            (m.project_id == c.project_id && m.user_id == auth.user_id)
            && has_row (λ (r : SpaceRow). r.base.id == m.space_id && is_none r.base.deleted_at)
                t.spaces)
          t.members;
    total =
        count_rows (λ (m : SpaceMember). m.project_id == c.project_id && m.user_id == auth.user_id)
          t.members;
  })

abbrev pub mutual_row : SpaceTables → ℕ → ℕ → ℕ → SpaceRow → Bool
mutual_row t project_id me other r =
    (r.base.project_id == project_id && is_none r.base.deleted_at)
    && (has_row (active_member_row project_id r.base.id me) t.members
        && has_row (active_member_row project_id r.base.id other) t.members)

-- `GET /mutual/:userId`
unfoldable pub mutual_spaces : SpaceTables → Ctx → ℕ → Result (Listing SpaceRow)
mutual_spaces t c other = do
  auth ← require_auth c
  ok (record {
    rows = select_rows (mutual_row t c.project_id auth.user_id other) t.spaces;
    total = count_rows (mutual_row t c.project_id auth.user_id other) t.spaces;
  })

pub record SpaceView : Type 0 where
  pub space : SpaceRow
  pub is_member : Option Bool

abbrev pub holds_row : SpaceTables → ℕ → ℕ → Option ℕ → Option Bool
holds_row t project_id space_id none = none
holds_row t project_id space_id (some uid) =
    some (is_given (membership_of t project_id space_id uid))

-- `GET /:id`: any row makes a member here, whatever its status.
unfoldable pub get_one : SpaceTables → Ctx → SpaceParam → Result SpaceView
unfolding get_space assert_space_visible
get_one t c param = do
  space ← get_space t c.project_id param
  assert_space_visible (gate_tables t) c space.base
  ok (record {
    space = record space { members_count = real_count t c.project_id space.base.id };
    is_member = holds_row t c.project_id space.base.id (uid_of c.auth);
  })

abbrev pub child_row : SpaceTables → Ctx → ℕ → SpaceRow → Bool
child_row t c parent r =
    (r.base.project_id == c.project_id
      && (some_eq r.parent_space_id parent && is_none r.base.deleted_at))
    && discoverable_spaces_sql (gate_tables t) c r.base

-- `GET /:id/children`
unfoldable pub children : SpaceTables → Ctx → ℕ → Result (Listing SpaceRow)
unfolding assert_space_visible_by_id
children t c parent = do
  assert_space_visible_by_id (gate_tables t) c parent
  ok (record {
    rows = select_rows (child_row t c parent) t.spaces;
    total = count_rows (child_row t c parent) t.spaces;
  })

abbrev pub listed_member :
    Ctx → ℕ → (MemberStatus → Bool) → (MemberRole → Bool) → SpaceMember → Bool
listed_member c space_id statuses roles m =
    (m.project_id == c.project_id && m.space_id == space_id) && (statuses m.status && roles m.role)

-- `GET /:id/members`, with what its filters let through.
unfoldable pub get_members :
    SpaceTables
    → Ctx
    → ℕ
    → (MemberStatus → Bool)
    → (MemberRole → Bool)
    → Result (Listing SpaceMember)
unfolding assert_space_visible_by_id
get_members t c space_id statuses roles = do
  assert_space_visible_by_id (gate_tables t) c space_id
  ok (record {
    rows =
        select_rows
          (λ (m : SpaceMember).
            listed_member c space_id statuses roles m && has_profile t m.user_id)
          t.members;
    total = count_rows (listed_member c space_id statuses roles) t.members;
  })

abbrev pub in_team : MemberRole → Bool
in_team MemberRole.member = false
in_team _ = true

-- `GET /:id/team`: of every status.
unfoldable pub get_team : SpaceTables → Ctx → ℕ → Result (List SpaceMember)
unfolding assert_space_visible_by_id
get_team t c space_id = do
  assert_space_visible_by_id (gate_tables t) c space_id
  ok (
      select_rows
        (λ (m : SpaceMember).
          listed_member c space_id (λ s. true) in_team m && has_profile t m.user_id)
        t.members)

-- The columns of a space's digest.
pub record Digest : Type 0 where
  pub space_id : ℕ
  pub enabled : Bool
  pub webhook_url : Option ℕ
  pub webhook_secret : Option ℕ
  pub schedule_hour : Option ℕ
  pub timezone : Option ℕ

pub record DigestBody : Type 0 where
  pub enabled : Option Bool
  pub webhook_url : Option (Option ℕ)
  pub webhook_secret : Option (Option ℕ)
  pub schedule_hour : Option (Option ℕ)
  pub timezone : Option (Option ℕ)

abbrev pub set_or {ℓ} : {A : Type ℓ} → A → Option A → A
set_or old none = old
set_or old (some new) = new

-- The secret leaves the server as a mask: `mask` stands for the dots.
abbrev pub masked : ℕ → Digest → Digest
masked mask d = record d {
  webhook_secret = elim d.webhook_secret [ none ↦ none | some s ↦ some mask ];
}

-- `GET /:id/digest-config`
unfoldable pub get_digest : SpaceTables → List Digest → ℕ → Ctx → SpaceParam → Result Digest
unfolding get_space require_space_role
get_digest t digests mask c param = do
  auth ← require_auth c
  space ← get_space t c.project_id param
  role ← require_space_role t c.project_id auth space only_admin
  d ← found_or space_not_found (find_row (λ (d : Digest). d.space_id == space.base.id) digests)
  ok (masked mask d)

-- An update that sets no column throws.
abbrev pub digest_unset : DigestBody → Bool
digest_unset body = not (
    is_given body.enabled
    || (is_given body.webhook_url
        || (is_given body.webhook_secret
            || (is_given body.schedule_hour || is_given body.timezone))))

-- `PATCH /:id/digest-config`: no schema looks at the body.
unfoldable pub patch_digest :
    SpaceTables → List Digest → Ctx → SpaceParam → DigestBody → Result (List Digest)
unfolding get_space require_space_role
patch_digest t digests c param body = do
  auth ← require_auth c
  space ← get_space t c.project_id param
  role ← require_space_role t c.project_id auth space only_admin
  refuse (digest_unset body) database_error
  ok (
      update_rows (λ (d : Digest). d.space_id == space.base.id)
        (λ (d : Digest). record d {
          enabled = set_or d.enabled body.enabled;
          webhook_url = set_or d.webhook_url body.webhook_url;
          webhook_secret = set_or d.webhook_secret body.webhook_secret;
          schedule_hour = set_or d.schedule_hour body.schedule_hour;
          timezone = set_or d.timezone body.timezone;
        })
        digests)
