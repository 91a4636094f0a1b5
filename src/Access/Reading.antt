-- ===== src/Access/Reading.antt =====
-- The read and post gates of apps/api/src/lib/space-access.ts and the discovery rules of
-- apps/api/src/lib/space-visibility.ts, one against the other.
use mathlib.Core.Path.{ap₂, subst}
use philosophy_app.Prelude.{
  ℕ, ◌≡◌, refl, sym, ap, ◌⊎◌, inl, inr, Bool, true, false, ◌&&◌, ◌||◌, Option, none, some, List, [],
  ◌∷◌, arith, ◌==◌, Bool-cases, Option-cases, find_row, has_row, has_row_of_find, All, some_eq,
  is_none,
}
use philosophy_app.Http.{ok, is_ok, members_only, guard}
use philosophy_app.Access.{
  Space, SpaceMember, Tables, Ctx, posts_anyone, is_active, is_admin_ctx, uid_of, active_member_row,
  live_space, reads_anyone, is_owner_or_active_member, may_read_found, assert_can_read_space,
  member_post, assert_member_may_post, assert_can_post_in_space, member_clause,
  readable_entities_filter, discoverable_spaces_sql, space_visible_to_viewer, unlisted,
}

-- The primary key of the spaces table.
abbrev pub IdsUnique : List Space → Type 0
IdsUnique [] = Unit
IdsUnique (s ∷ rows) = (has_row (λ (x : Space). x.id == s.id) rows ≡ false) × IdsUnique rows

-- A membership row belongs to the project of its space.
abbrev pub MembersOf : Space → List SpaceMember → Type 0
MembersOf s rows = All (λ (m : SpaceMember). m.space_id ≡ s.id → m.project_id ≡ s.project_id) rows

absent_key :
    (sid : ℕ) (q : Space → Bool) (rows : List Space)
    → has_row (λ (x : Space). x.id == sid) rows ≡ false
    → has_row (λ (x : Space). x.id == sid && q x) rows ≡ false
absent_key sid q [] h = refl
absent_key sid q (s ∷ rows) h = ground (arith, absent_key sid q rows)

pub find_live_facts :
    (p sid : ℕ) (rows : List Space) {s : Space}
    → find_row (live_space p sid) rows ≡ some s
    → (s.project_id ≡ p) × (s.id ≡ sid) × (s.deleted_at ≡ none)
find_live_facts p sid [] h = cc
find_live_facts p sid (x ∷ rows) {s} h = elim (Bool-cases (live_space p sid x)) [
  | inl match ↦ ground arith
  | inr other ↦ find_live_facts p sid rows {s = s} (ground arith)
]

absent_find :
    (p sid : ℕ) (rows : List Space)
    → has_row (λ (x : Space). x.id == sid) rows ≡ false
    → find_row (live_space p sid) rows ≡ none
absent_find p sid [] h = refl
absent_find p sid (x ∷ rows) h = ground (arith, absent_find p sid rows)

-- Under the primary key an `exists` over the live spaces of one id tests the space that is found.
has_row_of_live :
    (p sid : ℕ) (q : Space → Bool) (rows : List Space) {s : Space}
    → IdsUnique rows
    → find_row (live_space p sid) rows ≡ some s
    → has_row (λ (x : Space). x.id == sid && (is_none x.deleted_at && q x)) rows ≡ q s
has_row_of_live p sid q [] u h = cc
has_row_of_live p sid q (x ∷ rows) {s} (fresh, u) h = elim (Bool-cases (x.id == sid)) [
  | inl match ↦
      let same : x.id ≡ sid = ground arith in
      let gone : has_row (λ (y : Space). y.id == sid) rows ≡ false = rw (← same) fresh in
      ground (
        arith,
        absent_key sid (λ (y : Space). is_none y.deleted_at && q y) rows gone,
        absent_find p sid rows gone,
      )
  | inr other ↦ rw other (has_row_of_live p sid q rows {s = s} u (ground arith))
]

member_rows_agree :
    (s : Space) (uid : ℕ) (rows : List SpaceMember)
    → MembersOf s rows
    → has_row
        (λ (m : SpaceMember). m.space_id == s.id && (m.user_id == uid && is_active m.status))
        rows
      ≡ has_row (active_member_row s.project_id s.id uid) rows
member_rows_agree s uid [] h = refl
member_rows_agree s uid (m ∷ rows) (own, h) = elim (Bool-cases (m.space_id == s.id)) [
  | inl match ↦
      let same : m.project_id ≡ s.project_id = own (ground arith) in
      ground (arith, member_rows_agree s uid rows h)
  | inr other ↦ ground (arith, member_rows_agree s uid rows h)
]

member_clause-gate :
    (t : Tables) (o : Option ℕ) (s : Space)
    → MembersOf s t.space_members
    → member_clause t o s ≡ elim o [
      | none ↦ false
      | some uid ↦ is_owner_or_active_member t s.project_id s.id uid s.user_id
    ]
unfolding is_owner_or_active_member
member_clause-gate t none s h = refl
member_clause-gate t (some uid) s h =
    ap (λ b. some_eq s.user_id uid || b) (member_rows_agree s uid t.space_members h)

filter_found :
    (t : Tables) (c : Ctx) (s : Space)
    → MembersOf s t.space_members
    → (reads_anyone s.reading_permission || member_clause t (uid_of c.auth) s)
      ≡ may_read_found t c s.project_id s.id s
unfolding may_read_found
filter_found t c s own =
    ap (λ b. reads_anyone s.reading_permission || b) (member_clause-gate t (uid_of c.auth) s own)

guard-is_ok : (b : Bool) → b ≡ is_ok (guard b members_only)
guard-is_ok true = refl
guard-is_ok false = refl

-- For a live space of the caller's project the feed's predicate keeps an entity exactly where the single
-- read of that entity's space is let through, whoever asks. The conditions are that the ids of spaces
-- are unique, and that the membership rows of the space name the space's project: the feed's SQL does
-- not test the project of a membership, and the gate does.
pub filter-gate :
    (t : Tables) (c : Ctx) (sid : ℕ) {s : Space}
    → IdsUnique t.spaces
    → MembersOf s t.space_members
    → find_row (live_space c.project_id sid) t.spaces ≡ some s
    → readable_entities_filter t c (some sid)
      ≡ is_ok (assert_can_read_space t c (some sid) c.project_id)
unfolding readable_entities_filter assert_can_read_space
filter-gate t c sid {s} unique own found =
    let (ep, es, _) = find_live_facts c.project_id sid t.spaces {s = s} found in
    elim (Bool-cases (is_admin_ctx c.auth)) [
      | inl god ↦ rw god
      | inr plain ↦
          rw
            (
              plain,
              found,
              has_row_of_live c.project_id sid
                  (λ (x : Space).
                    reads_anyone x.reading_permission || member_clause t (uid_of c.auth) x)
                  t.spaces {s = s} unique found,
              filter_found t c s own,
              ap₂ (λ a b. may_read_found t c a b s) (sym ep) (sym es),
            )
            (guard-is_ok _)
    ]

member_row_reads :
    (t : Tables) (c : Ctx) (s : Space) (sid uid : ℕ)
    → member_post t c s sid uid ≡ ok tt
    → (some_eq s.user_id uid || has_row (active_member_row c.project_id sid uid) t.space_members)
      ≡ true
unfolding member_post
member_row_reads t c s sid uid h =
    elim (Option-cases (find_row (active_member_row c.project_id sid uid) t.space_members)) [
      | inl missing ↦ elim (Bool-cases (some_eq s.user_id uid)) [
        | inl owns ↦ rw owns
        | inr stranger ↦ cc (rw (stranger, missing) at h)
      ]
      | inr (m, found) ↦
          rw
            (has_row_of_find (active_member_row c.project_id sid uid) t.space_members {x = m} found)
            (ground arith)
    ]

member_may_read :
    (t : Tables) (c : Ctx) (s : Space) (sid : ℕ)
    → assert_member_may_post t c s sid ≡ ok tt
    → may_read_found t c c.project_id sid s ≡ true
unfolding assert_member_may_post may_read_found is_owner_or_active_member
member_may_read t c s sid h = elim (Option-cases (uid_of c.auth)) [
  | inl anonymous ↦ cc (rw (anonymous, assert_member_may_post) at h)
  | inr (uid, e) ↦
      rw e
        (rw (member_row_reads t c s sid uid (rw (e, assert_member_may_post) at h)) (ground arith))
]

-- Whoever may post in a live space that restricts posting may read it.
pub post-read :
    (t : Tables) (c : Ctx) (sid : ℕ) {s : Space}
    → find_row (live_space c.project_id sid) t.spaces ≡ some s
    → posts_anyone s.posting_permission ≡ false
    → assert_can_post_in_space t c (some sid) ≡ ok tt
    → assert_can_read_space t c (some sid) c.project_id ≡ ok tt
unfolding assert_can_post_in_space assert_can_read_space
post-read t c sid {s} found strict posted = elim (Bool-cases (is_admin_ctx c.auth)) [
  | inl god ↦ rw god
  | inr plain ↦ rw (plain, found, member_may_read t c s sid (rw (plain, found, strict) at posted))
]

-- For a space of the caller's project whose membership rows name that project: if a list or a search
-- shows it, the single read shows it, and if only the single read shows it, it is an unlisted one. The
-- list's SQL does not test the project of a membership, and the single read does.
pub discoverable-visible :
    (t : Tables) (c : Ctx) (s : Space)
    → MembersOf s t.space_members
    → s.project_id ≡ c.project_id
    → (discoverable_spaces_sql t c s ≡ true → space_visible_to_viewer t c s ≡ true)
      × (space_visible_to_viewer t c s ≡ true
          → (discoverable_spaces_sql t c s ≡ true) ⊎ (s.visibility ≡ unlisted))
unfolding discoverable_spaces_sql space_visible_to_viewer is_owner_or_active_member
discoverable-visible t c s own same =
    let gate : member_clause t (uid_of c.auth) s ≡ elim (uid_of c.auth) [
      | none ↦ false
      | some uid ↦ is_owner_or_active_member t c.project_id s.id uid s.user_id
    ] =
      subst
        (λ q. member_clause t (uid_of c.auth) s ≡ elim (uid_of c.auth) [
          | none ↦ false
          | some uid ↦ is_owner_or_active_member t q s.id uid s.user_id
        ])
        same (member_clause-gate t (uid_of c.auth) s own) in
    (λ h. ground (arith, gate), λ h. ground (arith, gate))
