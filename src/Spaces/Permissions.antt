-- ===== src/Spaces/Permissions.antt =====
-- What `GET /:id/membership/me` of apps/api/src/routes/spaces.ts promises, and the gates of
-- apps/api/src/lib/space-access.ts.
use mathlib.Core.Path.{subst}
use philosophy_app.Prelude.{
  ℕ, ◌≤◌, ◌≡◌, refl, sym, ap, ◌∙◌, inl, inr, Bool, true, false, not, ◌||◌, Option, none, some, List,
  [], ◌∷◌, map, arith, ◌==◌, if◌then◌else◌, Bool-cases, find_row, count_rows, has_row_of_find,
  ==_refl, some_eq, count_rows_of_find,
}
use philosophy_app.Http.{Result, ok, is_ok, bind-ok, ok-injective}
use philosophy_app.Auth.{AuthContext}
use philosophy_app.Access.{
  Space, SpaceMember, MemberRole, PostingPermission, Ctx, is_active, assert_space_visible,
  reads_anyone, posts_anyone, active_member_row, live_space, is_owner_or_active_member,
  may_read_found, assert_can_read_space, role_may_post, member_post, assert_member_may_post,
  assert_can_post_in_space, is_admin_ctx, admin, moderator, member,
}
use philosophy_app.Spaces.{
  got_row, SpaceParam, SpaceRow, SpaceTables, gate_tables, get_space, membership_of, member_row,
  space_id_is,
}
use philosophy_app.Spaces.Settings.{
  Membership, owner_membership, row_membership, membership_answer, membership_me, posts_admins,
  is_admin_role, is_moderator_role,
}

-- The first row of a key that is active is the first active row of the key.
first_active :
    (project_id space_id user_id : ℕ) (ms : List SpaceMember) {m : SpaceMember}
    → find_row (member_row project_id space_id user_id) ms ≡ some m
    → is_active m.status ≡ true
    → find_row (active_member_row project_id space_id user_id) ms ≡ some m
first_active project_id space_id user_id [] found act = absurd (cc found)
first_active project_id space_id user_id (x ∷ ms) {m} found act =
    elim (Bool-cases (member_row project_id space_id user_id x)) [
      | inl mine ↦
          let same : x ≡ m = cc (rw mine at found) in
          let act_x : is_active x.status ≡ true =
            subst (λ (y : SpaceMember). is_active y.status ≡ true) (sym same) act in
          let hit : active_member_row project_id space_id user_id x ≡ true = ground arith in
          rw hit (ap (λ (y : SpaceMember). some y) same)
      | inr other ↦
          let missed : active_member_row project_id space_id user_id x ≡ false = ground arith in
          rw missed (first_active project_id space_id user_id ms {m = m} (rw other at found) act)
    ]

-- The gates find the space that the handler found, where its id is on one row.
gated :
    (q : SpaceRow → Bool) (project_id s : ℕ) (rows : List SpaceRow) {space : SpaceRow}
    → count_rows (space_id_is s) rows ≤ 1
    → find_row q rows ≡ some space
    → live_space project_id s space.base ≡ true
    → space_id_is s space ≡ true
    → find_row (live_space project_id s) (map (λ (r : SpaceRow). r.base) rows) ≡ some space.base
gated q project_id s [] unique found live here = absurd (cc found)
gated q project_id s (r ∷ rows) {space} unique found live here = elim (Bool-cases (q r)) [
  | inl holds ↦
      let same : r ≡ space = cc (rw holds at found) in
      let live_r : live_space project_id s r.base ≡ true =
        subst (λ (z : SpaceRow). live_space project_id s z.base ≡ true) (sym same) live in
      rw live_r (ap (λ (z : SpaceRow). some z.base) same)
  | inr fails ↦
      let later : find_row q rows ≡ some space = rw fails at found in
      elim (Bool-cases (r.base.id == s)) [
        | inl mine ↦
            let again = count_rows_of_find (space_id_is s) q rows {x = space} later here in
            absurd (omega (arith, rw mine at unique, again))
        | inr other ↦
            let dead : live_space project_id s r.base ≡ false = ground arith in
            rw dead (
              gated q project_id s rows {space = space} (omega (arith, rw other at unique)) later
                live here)
      ]
]

abbrev pub called_by : ℕ → AuthContext → Ctx
called_by project_id auth = record { project_id = project_id; auth = some auth }

-- What the gates see of a space.
module _ (t : SpaceTables) (project_id : ℕ) (auth : AuthContext) (s : Space)
    (found : find_row (live_space project_id s.id) (gate_tables t).spaces ≡ some s) where
  abbrev Posts : Type 0
  Posts = assert_can_post_in_space (gate_tables t) (called_by project_id auth) (some s.id) ≡ ok tt

  abbrev Reads : Type 0
  Reads =
      assert_can_read_space (gate_tables t) (called_by project_id auth) (some s.id) project_id
      ≡ ok tt

  post_open : posts_anyone s.posting_permission ≡ true → Posts
  unfolding assert_can_post_in_space
  post_open opened = elim (Bool-cases (is_admin_ctx (some auth))) [
    | inl admin_caller ↦ rw admin_caller
    | inr plain ↦ rw (plain, found, opened)
  ]

  post_passed :
      member_post (gate_tables t) (called_by project_id auth) s s.id auth.user_id ≡ ok tt → Posts
  unfolding assert_can_post_in_space assert_member_may_post
  post_passed passed = elim (Bool-cases (is_admin_ctx (some auth))) [
    | inl admin_caller ↦ rw admin_caller
    | inr plain ↦ elim (Bool-cases (posts_anyone s.posting_permission)) [
      | inl opened ↦ rw (plain, found, opened)
      | inr closed ↦ rw (plain, found, closed) passed
    ]
  ]

  read_passed :
      may_read_found (gate_tables t) (called_by project_id auth) project_id s.id s ≡ true → Reads
  unfolding assert_can_read_space
  read_passed passed = elim (Bool-cases (is_admin_ctx (some auth))) [
    | inl admin_caller ↦ rw admin_caller
    | inr plain ↦ rw (plain, found, passed)
  ]

  -- An owner passes both gates.
  owner_passes : some_eq s.user_id auth.user_id ≡ true → Posts × Reads
  unfolding member_post may_read_found is_owner_or_active_member
  owner_passes owns = (
    post_passed (rw owns),
    read_passed (elim (Bool-cases (reads_anyone s.reading_permission)) [
      | inl opened ↦ rw opened
      | inr closed ↦ rw (closed, owns)
    ]),
  )

  stranger_reads : reads_anyone s.reading_permission ≡ true → Reads
  unfolding may_read_found
  stranger_reads opened = read_passed (rw opened)

  module _ (m : SpaceMember)
      (row : find_row (active_member_row project_id s.id auth.user_id) t.members ≡ some m) where
    member_posts : role_may_post s.posting_permission m.role ≡ true → Posts
    unfolding member_post
    member_posts may = post_passed (elim (Bool-cases (some_eq s.user_id auth.user_id)) [
      | inl owns ↦ rw owns
      | inr other ↦ rw (other, row, may)
    ])

    member_reads : Reads
    unfolding may_read_found is_owner_or_active_member
    member_reads =
        let there =
          has_row_of_find (active_member_row project_id s.id auth.user_id) t.members {x = m} row in
        read_passed (elim (Bool-cases (reads_anyone s.reading_permission)) [
          | inl opened ↦ rw opened
          | inr closed ↦ elim (Bool-cases (some_eq s.user_id auth.user_id)) [
            | inl owns ↦ rw (closed, owns)
            | inr other ↦ rw (closed, other, there)
          ]
        ])

role_post :
    (pp : PostingPermission) (role : MemberRole)
    → (not (posts_admins pp) || (is_admin_role role || is_moderator_role role))
      ≡ role_may_post pp role
role_post PostingPermission.anyone admin = refl
role_post PostingPermission.anyone moderator = refl
role_post PostingPermission.anyone member = refl
role_post PostingPermission.members admin = refl
role_post PostingPermission.members moderator = refl
role_post PostingPermission.members member = refl
role_post PostingPermission.admins admin = refl
role_post PostingPermission.admins moderator = refl
role_post PostingPermission.admins member = refl

promise {ℓ} :
    {A : Type ℓ} (said : Bool) (gate : Result A)
    → (said ≡ true → is_ok gate ≡ true)
    → (not said || is_ok gate) ≡ true
promise false gate keeps = refl
promise true gate keeps = keeps refl

-- Where the answer says that the caller may post or read, the gates of the other routes let the caller.
abbrev pub Honest : SpaceTables → Ctx → SpaceRow → Membership → Type 0
Honest t c space v =
    ((not v.can_post || is_ok (assert_can_post_in_space (gate_tables t) c (some space.base.id)))
      ≡ true)
    × ((not v.can_read
          || is_ok (assert_can_read_space (gate_tables t) c (some space.base.id) c.project_id))
        ≡ true)

left_holds : (a b : Bool) → b ≡ false → (a || b) ≡ true → a ≡ true
left_holds true b off either = refl
left_holds false b off either = absurd (cc (sym off ∙ either))

row-Honest :
    (t : SpaceTables) (project_id : ℕ) (auth : AuthContext) (space : SpaceRow) (m : SpaceMember)
    → find_row (live_space project_id space.base.id) (gate_tables t).spaces ≡ some space.base
    → find_row (member_row project_id space.base.id auth.user_id) t.members ≡ some m
    → Honest t (called_by project_id auth) space (row_membership space.base m)
row-Honest t project_id auth space m found row = elim (Bool-cases (is_active m.status)) [
  | inr idle ↦ (
    promise _
        (assert_can_post_in_space (gate_tables t) (called_by project_id auth) (some space.base.id))
        (λ said. absurd (cc (rw idle at said))),
    promise _
        (assert_can_read_space (gate_tables t) (called_by project_id auth) (some space.base.id)
          project_id)
        (λ said.
          ap is_ok (stranger_reads t project_id auth space.base found (left_holds _ _ idle said))),
  )
  | inl act ↦
      let active_row =
        first_active project_id space.base.id auth.user_id t.members {m = m} row act in
      (
        promise _
            (assert_can_post_in_space (gate_tables t) (called_by project_id auth)
              (some space.base.id))
            (λ said. ap is_ok (
              member_posts t project_id auth space.base found m active_row
                (sym (role_post space.base.posting_permission m.role) ∙ (rw act at said)))),
        promise _
            (assert_can_read_space (gate_tables t) (called_by project_id auth) (some space.base.id)
              project_id)
            (λ said. ap is_ok (member_reads t project_id auth space.base found m active_row)),
      )
]

answer-Honest :
    (t : SpaceTables) (project_id : ℕ) (auth : AuthContext) (space : SpaceRow)
    (o : Option SpaceMember) {v : Membership}
    → find_row (live_space project_id space.base.id) (gate_tables t).spaces ≡ some space.base
    → find_row (member_row project_id space.base.id auth.user_id) t.members ≡ o
    → membership_answer t (called_by project_id auth) space o ≡ ok v
    → Honest t (called_by project_id auth) space v
unfolding membership_answer
answer-Honest t project_id auth space none {v} found row h =
    let c = called_by project_id auth in
    let (u, from0, h1) =
      bind-ok {A = Unit} (assert_space_visible (gate_tables t) c space.base) _ h in
    subst (Honest t c space) (ok-injective h1) (
      promise _ (assert_can_post_in_space (gate_tables t) c (some space.base.id))
          (λ said. ap is_ok (post_open t project_id auth space.base found said)),
      promise _ (assert_can_read_space (gate_tables t) c (some space.base.id) project_id)
          (λ said. ap is_ok (stranger_reads t project_id auth space.base found said)),
    )
answer-Honest t project_id auth space (some m) {v} found row h =
    subst (Honest t (called_by project_id auth) space) (ok-injective h)
      (row-Honest t project_id auth space m found row)

-- What a caller with a token is told about a space whose id is on one row is kept: where the answer says
-- that the caller may post, the gate on posting lets the caller pass, and where it says that the caller may
-- read, the gate on reading does.
pub membership_me-Honest :
    (t : SpaceTables) (project_id : ℕ) (param : SpaceParam) (auth : AuthContext) {space : SpaceRow}
    {v : Membership}
    → get_space t project_id param ≡ ok space
    → count_rows (space_id_is space.base.id) t.spaces ≤ 1
    → membership_me t (called_by project_id auth) param ≡ ok v
    → Honest t (called_by project_id auth) space v
unfolding membership_me membership_of
membership_me-Honest t project_id param auth {space} {v} got unique h =
    let c = called_by project_id auth in
    let (q, row, _, live) = got_row t project_id param {space = space} got in
    let found =
      gated q project_id space.base.id t.spaces {space = space} unique row live
        (==_refl space.base.id) in
    let (own, from0, h1) = bind-ok (get_space t project_id param) _ h in
    let same : own ≡ space = ok-injective (sym from0 ∙ got) in
    let h2 =
      subst
        (λ (x : SpaceRow).
          (if some_eq x.base.user_id auth.user_id
            then ok owner_membership
            else membership_answer t c x (membership_of t project_id x.base.id auth.user_id))
          ≡ ok v)
        same h1 in
    elim (Bool-cases (some_eq space.base.user_id auth.user_id)) [
      | inl owns ↦
          let (may_post, may_read) = owner_passes t project_id auth space.base found owns in
          subst (Honest t c space) (ok-injective (rw owns at h2))
            (ap is_ok may_post, ap is_ok may_read)
      | inr other ↦
          answer-Honest t project_id auth space
            (membership_of t project_id space.base.id auth.user_id) found refl (rw other at h2)
    ]
