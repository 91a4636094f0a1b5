-- ===== src/Events/Gate.antt =====
-- The list of apps/api/src/routes/events.ts against `GET /:eventId`.
use mathlib.Core.Path.{fun_ext, subst}
use philosophy_app.Prelude.{
  ℕ, ◌≡◌, refl, sym, ap, ◌∙◌, inl, inr, Bool, true, false, not, ◌&&◌, ◌||◌, Option, none, some,
  List, [], ◌∷◌, map, arith, ◌==◌, Bool-cases, Option-cases, find_row, has_row, select_rows,
  find_row_sound, All, All-find_row, some_eq, is_none,
}
use philosophy_app.Http.{Result, ok, err, is_ok, guard, refuse, ◌>>=◌, event_not_found, not_visible}
use philosophy_app.Auth.{AuthContext}
use philosophy_app.Access.{
  Space, Tables, Ctx, ModerationStatus, is_admin_ctx, uid_of, live_space, reads_anyone, is_removed,
  assert_can_read_space, removed_policy, should_hide, exclude_removed_sql, readable_entities_filter,
  member_clause,
}
use philosophy_app.Access.Reading.{IdsUnique, MembersOf, filter-gate}
use philosophy_app.Events.{
  EventVisibility, EventRow, EventTables, Listed, can_view_event, is_event_host, of_event, of_user,
  load_host_ids, owns_space, active_in, is_member_user, is_member_for_event, is_invited,
  assert_live_space, is_host_or_admin, assert_can_view_event, space_readable, member_branch,
  is_public, is_members, is_invite, visible_to, recent, event_listed, get_event, get_event_or_404,
}

view_algebra :
    (v : EventVisibility) (m i h : Bool)
    → (is_public v || ((is_members v && m) || ((is_invite v && i) || h))) ≡ can_view_event v m i h
unfolding can_view_event
view_algebra EventVisibility.public m i true = refl
view_algebra EventVisibility.public m i false = refl
view_algebra EventVisibility.members true i true = refl
view_algebra EventVisibility.members false i true = refl
view_algebra EventVisibility.members true i false = refl
view_algebra EventVisibility.members false i false = refl
view_algebra EventVisibility.invite m true true = refl
view_algebra EventVisibility.invite m false true = refl
view_algebra EventVisibility.invite m true false = refl
view_algebra EventVisibility.invite m false false = refl

view_anonymous : (v : EventVisibility) → is_public v ≡ can_view_event v false false false
unfolding can_view_event
view_anonymous EventVisibility.public = refl
view_anonymous EventVisibility.members = refl
view_anonymous EventVisibility.invite = refl

hosts_agree :
    (e u : ℕ) (rows : List Listed)
    → has_row (of_user e u) rows
      ≡ has_row
          (λ (h : ℕ). h == u)
          (map (λ (h : Listed). h.user_id) (select_rows (of_event e) rows))
hosts_agree e u [] = refl
hosts_agree e u (h ∷ rows) = elim (Bool-cases (h.event_id == e)) [
  | inl here ↦ rw here (ap (λ b. h.user_id == u || b) (hosts_agree e u rows))
  | inr away ↦ rw away (hosts_agree e u rows)
]

absent_owner :
    (sid uid : ℕ) (rows : List Space)
    → has_row (λ (x : Space). x.id == sid) rows ≡ false
    → has_row (λ (s : Space). s.id == sid && some_eq s.user_id uid) rows ≡ false
absent_owner sid uid [] h = refl
absent_owner sid uid (s ∷ rows) h = ground (arith, absent_owner sid uid rows)

or_false : (b : Bool) → (b || false) ≡ b
or_false true = refl
or_false false = refl

owner_agree :
    (sid uid : ℕ) (rows : List Space)
    → IdsUnique rows
    → has_row (λ (s : Space). s.id == sid && some_eq s.user_id uid) rows ≡ owns_space rows sid uid
owner_agree sid uid [] u = refl
owner_agree sid uid (s ∷ rows) (fresh, u) = elim (Bool-cases (s.id == sid)) [
  | inl mine ↦
      let same : s.id ≡ sid = ground arith in
      let gone = absent_owner sid uid rows (rw (← same) fresh) in
      rw (owns_space, mine, gone) (or_false (some_eq s.user_id uid))
  | inr other ↦ rw (owns_space, other) (owner_agree sid uid rows u)
]

member_agree :
    (t : Tables) (sp : Option ℕ) (uid : ℕ)
    → IdsUnique t.spaces
    → member_branch t sp uid ≡ is_member_user t sp uid
member_agree t none uid unique = refl
member_agree t (some sid) uid unique =
    ap (λ b. has_row (active_in sid uid) t.space_members || b) (owner_agree sid uid t.spaces unique)

-- A space of the id, if there is one, is the project's.
abbrev pub SpaceOf : ℕ → ℕ → List Space → Type 0
SpaceOf project_id sid rows = All (λ (s : Space). s.id ≡ sid → s.project_id ≡ project_id) rows

no_live :
    (p sid : ℕ) (q : Space → Bool) (rows : List Space)
    → SpaceOf p sid rows
    → find_row (live_space p sid) rows ≡ none
    → has_row (λ (s : Space). s.id == sid && (is_none s.deleted_at && q s)) rows ≡ false
no_live p sid q [] own h = refl
no_live p sid q (s ∷ rows) (here, later) h = elim (Bool-cases (live_space p sid s)) [
  | inl hit ↦ cc (rw hit at h)
  | inr miss ↦
      let ih = no_live p sid q rows later (rw miss at h) in
      elim (Bool-cases (s.id == sid)) [
        | inl mine ↦
            let project : s.project_id ≡ p = here (ground arith) in
            let dead : is_none s.deleted_at ≡ false = ground arith in rw (mine, dead) ih
        | inr other ↦ rw other ih
      ]
]

is_ok-bind :
    {B : Type 0} (m : Result (Unit {0})) (k : Result B)
    → is_ok (m >>= λ _. k) ≡ (is_ok m && is_ok k)
is_ok-bind (ok tt) k = refl
is_ok-bind (err e) k = refl

is_ok-guard : (b : Bool) → is_ok (guard b not_visible) ≡ b
is_ok-guard true = refl
is_ok-guard false = refl

-- The space clause of the list is the feed's.
readable-filter :
    (t : Tables) (c : Ctx) (auth : Option AuthContext) (sp : Option ℕ)
    → c.auth ≡ auth
    → is_admin_ctx auth ≡ false
    → space_readable t (uid_of auth) sp ≡ readable_entities_filter t c sp
unfolding space_readable readable_entities_filter
readable-filter t c none none e plain = refl
readable-filter t c (some a) none e plain = refl
readable-filter t c none (some sid) e plain =
    rw (e, plain)
      (ap (λ q. has_row q t.spaces)
        (fun_ext (λ (s : Space).
          ap (λ b. s.id == sid && (is_none s.deleted_at && b))
            (sym (or_false (reads_anyone s.reading_permission))))))
readable-filter t c (some a) (some sid) e plain = rw (e, plain) refl

-- The two gates on the space of an event, for a caller who is not an admin.
abbrev space_gates : Tables → Ctx → Option ℕ → Result (Unit {0})
space_gates t c sp = assert_live_space t c sp >>= λ _. assert_can_read_space t c sp c.project_id

dead_space :
    (t : Tables) (c : Ctx) (sid : ℕ)
    → find_row (live_space c.project_id sid) t.spaces ≡ none
    → assert_live_space t c (some sid) ≡ err event_not_found
dead_space t c sid dead = rw (assert_live_space, dead) refl

live_gate :
    (t : Tables) (c : Ctx) (sid : ℕ) {s : Space}
    → find_row (live_space c.project_id sid) t.spaces ≡ some s
    → assert_live_space t c (some sid) ≡ ok tt
live_gate t c sid found = rw (assert_live_space, found) refl

readable-gates :
    (t : Tables) (c : Ctx) (sp : Option ℕ)
    → is_admin_ctx c.auth ≡ false
    → IdsUnique t.spaces
    → ((sid : ℕ) → sp ≡ some sid → SpaceOf c.project_id sid t.spaces)
    → All (λ (s : Space). MembersOf s t.space_members) t.spaces
    → space_readable t (uid_of c.auth) sp ≡ is_ok (space_gates t c sp)
unfolding assert_can_read_space space_readable readable_entities_filter
readable-gates t c none plain unique own members = refl
readable-gates t c (some sid) plain unique own members =
    elim (Option-cases (find_row (live_space c.project_id sid) t.spaces)) [
      | inl dead ↦
          readable-filter t c c.auth (some sid) refl plain
          ∙ rw (readable_entities_filter, plain, dead_space t c sid dead)
              (no_live c.project_id sid
                (λ (s : Space).
                  reads_anyone s.reading_permission || member_clause t (uid_of c.auth) s)
                t.spaces (own sid refl) dead)
      | inr (s, found) ↦
          readable-filter t c c.auth (some sid) refl plain
          ∙ filter-gate t c sid {s = s} unique
              (All-find_row (λ x. MembersOf x t.space_members) (live_space c.project_id sid)
                t.spaces {x = s} members found)
              found
          ∙ rw (live_gate t c sid {s = s} found) refl
    ]

-- The part of the list's predicate that depends on the visibility, for a signed-in caller.
seen_by_user :
    (t : EventTables) (uid : ℕ) (row : EventRow)
    → IdsUnique t.access.spaces
    → (is_public row.visibility
        || ((is_members row.visibility && member_branch t.access row.space_id uid)
            || ((is_invite row.visibility && has_row (of_user row.id uid) t.invites)
                || has_row (of_user row.id uid) t.hosts)))
      ≡ can_view_event row.visibility
          (is_member_user t.access row.space_id uid)
          (is_invited t row.id (some uid))
          (is_event_host (load_host_ids t row.id) (some uid))
unfolding is_invited is_event_host load_host_ids
seen_by_user t uid row unique =
    rw (hosts_agree row.id uid t.hosts, member_agree t.access row.space_id uid unique)
      (view_algebra row.visibility _ _ _)

-- The visibility predicate of the list, for a caller who is not an admin.
visible-gates :
    (t : EventTables) (c : Ctx) (row : EventRow)
    → is_admin_ctx c.auth ≡ false
    → IdsUnique t.access.spaces
    → ((sid : ℕ) → row.space_id ≡ some sid → SpaceOf c.project_id sid t.access.spaces)
    → All (λ (s : Space). MembersOf s t.access.space_members) t.access.spaces
    → visible_to t (uid_of c.auth) row ≡ (
        is_ok (space_gates t.access c row.space_id)
        && can_view_event row.visibility
            (is_member_for_event t.access c row)
            (is_invited t row.id (uid_of c.auth))
            (is_host_or_admin t c row.id))
unfolding visible_to is_member_for_event is_host_or_admin is_invited is_event_host
visible-gates t c row plain unique own members =
    let gates = readable-gates t.access c row.space_id plain unique own members in
    elim (Option-cases (uid_of c.auth)) [
      | inl anonymous ↦
          rw (← gates, plain, visible_to, is_member_for_event, is_invited, is_event_host, anonymous)
            (ap (λ b. space_readable t.access none row.space_id && b)
              (view_anonymous row.visibility))
      | inr (uid, signed) ↦
          rw (← gates, plain, visible_to, is_member_for_event, is_invited, is_event_host, signed)
            (ap (λ b. space_readable t.access (some uid) row.space_id && b)
              (seen_by_user t uid row unique))
    ]

gate_chain :
    (b g : Bool) (m n : Result (Unit {0}))
    → is_ok (refuse b event_not_found >>= λ _. m >>= λ _. n >>= λ _. guard g not_visible)
      ≡ (not b && (is_ok (m >>= λ _. n) && g))
gate_chain true g m n = refl
gate_chain false g (err e) n = refl
gate_chain false g (ok u) (err e) = refl
gate_chain false g (ok u) (ok v) = is_ok-guard g

live_event :
    (p id : ℕ) (x : EventRow)
    → (x.project_id == p && (x.id == id && is_none x.deleted_at)) ≡ true
    → (x.project_id ≡ p) × (x.deleted_at ≡ none)
live_event p id x h = (ground arith, ground arith)

admin_reads :
    (t : Tables) (c : Ctx) (sp : Option ℕ)
    → is_admin_ctx c.auth ≡ true
    → assert_can_read_space t c sp c.project_id ≡ ok tt
unfolding assert_can_read_space
admin_reads t c none god = refl
admin_reads t c (some sid) god = rw god refl

not_removed : (m : Option ModerationStatus) → exclude_removed_sql false m ≡ not (is_removed m)
unfolding exclude_removed_sql
not_removed none = refl
not_removed (some ModerationStatus.removed) = refl
not_removed (some ModerationStatus.approved) = refl

keeps_all : (m : Option ModerationStatus) → exclude_removed_sql true m ≡ true
unfolding exclude_removed_sql
keeps_all none = refl
keeps_all (some ModerationStatus.removed) = refl
keeps_all (some ModerationStatus.approved) = refl

is_ok-keep : (m : Result (Unit {0})) (row : EventRow) → is_ok (m >>= λ _. ok row) ≡ is_ok m
is_ok-keep (ok u) row = refl
is_ok-keep (err e) row = refl

view-listed :
    (t : EventTables) (c : Ctx) (row : EventRow)
    → IdsUnique t.access.spaces
    → ((sid : ℕ) → row.space_id ≡ some sid → SpaceOf c.project_id sid t.access.spaces)
    → All (λ (s : Space). MembersOf s t.access.space_members) t.access.spaces
    → (exclude_removed_sql (removed_policy c) row.moderation_status
        && (is_admin_ctx c.auth || visible_to t (uid_of c.auth) row))
      ≡ is_ok (assert_can_view_event t c row)
unfolding assert_can_view_event removed_policy should_hide is_host_or_admin can_view_event
view-listed t c row unique own members = elim (Bool-cases (is_admin_ctx c.auth)) [
  | inl god ↦
      rw (god, keeps_all row.moderation_status, admin_reads t.access c row.space_id god) refl
  | inr plain ↦
      rw (visible-gates t c row plain unique own members, plain, not_removed row.moderation_status)
        (sym (
          gate_chain (is_removed row.moderation_status) _
            (assert_live_space t.access c row.space_id)
            (assert_can_read_space t.access c row.space_id c.project_id)))
]

get_event_found :
    (t : EventTables) (c : Ctx) (id : ℕ) {row : EventRow}
    → get_event_or_404 t c id ≡ ok row
    → (row.project_id ≡ c.project_id) × (row.deleted_at ≡ none)
unfolding get_event_or_404
get_event_found t c id {row} h =
    elim (Option-cases (
      find_row
        (λ (x : EventRow). x.project_id == c.project_id && (x.id == id && is_none x.deleted_at))
        t.events)) [
          | inl missing ↦ absurd (cc (rw (get_event_or_404, missing) at h))
          | inr (x, found) ↦
              let same : x ≡ row = cc (rw (get_event_or_404, found) at h) in
              let hit : (x.project_id == c.project_id && (x.id == id && is_none x.deleted_at))
                  ≡ true =
                find_row_sound
                  (λ (x : EventRow).
                    x.project_id == c.project_id && (x.id == id && is_none x.deleted_at))
                  t.events {x = x} found in
              subst (λ (z : EventRow). (z.project_id ≡ c.project_id) × (z.deleted_at ≡ none)) same
                (live_event c.project_id id x hit)
        ]

-- An event that is found by its id and did not end more than four days ago: the list keeps its row
-- exactly where `GET /:eventId` returns it, whoever asks. The conditions are the keys: the ids of
-- spaces are unique, the event's space, if it exists, is the project's, and a member's row has the
-- project of its space.
pub listed-get_event :
    (t : EventTables) (c : Ctx) (cutoff id : ℕ) {row : EventRow}
    → get_event_or_404 t c id ≡ ok row
    → recent cutoff row ≡ true
    → IdsUnique t.access.spaces
    → ((sid : ℕ) → row.space_id ≡ some sid → SpaceOf c.project_id sid t.access.spaces)
    → All (λ (s : Space). MembersOf s t.access.space_members) t.access.spaces
    → event_listed t c cutoff row ≡ is_ok (get_event t c id)
unfolding get_event event_listed assert_can_view_event removed_policy should_hide
    exclude_removed_sql
listed-get_event t c cutoff id {row} found fresh unique own members =
    let (project, alive) = get_event_found t c id {row = row} found in
    let kept : (row.project_id == c.project_id && is_none row.deleted_at) ≡ true = ground arith in
    rw (kept, fresh, found)
      (view-listed t c row unique own members
        ∙ sym (is_ok-keep (assert_can_view_event t c row) row))
