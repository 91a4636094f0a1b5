-- ===== src/Spaces/Tally.antt =====
-- The counters of members after sequences of the requests on members of
-- apps/api/src/routes/spaces.ts.
use mathlib.Core.Path.{subst}
use philosophy_app.Prelude.{
  ℕ, ◌+◌, ◌-◌, ◌≡◌, refl, sym, ◌∙◌, inl, inr, Bool, true, false, Option, List, [], ◌∷◌, arith, ◌==◌,
  Bool-cases, has_row, All, All-find_row,
}
use philosophy_app.Http.{
  ok, guard, bind-ok, ok-injective, parse_body, database_error, member_not_found, guard-ok,
}
use philosophy_app.Access.{Ctx, require_auth, SpaceMember, MemberRole, MemberStatus, is_active}
use philosophy_app.Spaces.{
  got_row, SpaceParam, SpaceRow, SpaceTables, space_id_is, get_space, require_space_role,
  only_admin, admin_or_moderator, has_profile, on_member_change,
}
use philosophy_app.Spaces.Members.{
  count_changes, real_count, recount, update_members, delete_members, upsert_join, join_status,
  join_space, own_membership, leave_space, member_key, remove_member, change_role, set_status,
}
use philosophy_app.Spaces.Exact.{
  IsCounted, update-IsCounted, delete-IsCounted, upsert-IsCounted, in_key,
}
use philosophy_app.Spaces.Headcount.{
  Placed, IsPlaced, recount-IsCounted, spaces_updated, members_updated, members_deleted,
}

-- One request on members, by any caller.
pub data MemberStep (t : SpaceTables) : SpaceTables → Type 0 where
  joining :
      {t' : SpaceTables} (c : Ctx) (param : SpaceParam)
      → join_space t c param ≡ ok t'
      → MemberStep t t'
  leaving :
      {t' : SpaceTables} (c : Ctx) (param : SpaceParam)
      → leave_space t c param ≡ ok t'
      → MemberStep t t'
  expelling :
      {t' : SpaceTables} (c : Ctx) (param : SpaceParam) (member_id : ℕ)
      → remove_member t c param member_id ≡ ok t'
      → MemberStep t t'
  promoting :
      {t' : SpaceTables} (c : Ctx) (param : SpaceParam) (member_id : ℕ) (body : Option MemberRole)
      → change_role t c param member_id body ≡ ok t'
      → MemberStep t t'
  deciding :
      {t' : SpaceTables} (c : Ctx) (param : SpaceParam) (member_id : ℕ) (status : MemberStatus)
      → set_status t c param member_id status ≡ ok t'
      → MemberStep t t'

pub data MemberSteps (t : SpaceTables) : SpaceTables → Type 0 where
  start : MemberSteps t t
  after : {u v : SpaceTables} → MemberSteps t u → MemberStep u v → MemberSteps t v

-- The counters are exact, and members stand in the project of their space.
abbrev pub IsTallied : (ℕ → ℕ) → SpaceTables → Type 0
IsTallied owner t = IsPlaced owner t × IsCounted t

abbrev Owned : (ℕ → ℕ) → List SpaceRow → Type 0
Owned owner rows = All (λ (r : SpaceRow). r.base.project_id ≡ owner r.base.id) rows

change-Owned :
    (owner : ℕ → ℕ) (s : ℕ) (b a : Bool) (rows : List SpaceRow)
    → Owned owner rows
    → Owned owner (on_member_change s b a rows)
change-Owned owner s true true rows o = o
change-Owned owner s false false rows o = o
change-Owned owner s false true rows o =
    spaces_updated owner (space_id_is s)
      (λ (r : SpaceRow). record r { members_count = r.members_count + 1 }) rows (λ r. refl) o
change-Owned owner s true false rows o =
    spaces_updated owner (space_id_is s)
      (λ (r : SpaceRow). record r { members_count = r.members_count - 1 }) rows (λ r. refl) o

changes-Owned :
    (owner : ℕ → ℕ) (p now_active : SpaceMember → Bool) (s : ℕ) (ms : List SpaceMember)
    (rows : List SpaceRow)
    → Owned owner rows
    → Owned owner (count_changes p now_active s ms rows)
changes-Owned owner p now_active s [] rows o = o
changes-Owned owner p now_active s (m ∷ ms) rows o =
    let rest = changes-Owned owner p now_active s ms rows o in
    elim (Bool-cases (p m)) [
      | inl hit ↦ rw hit (
          change-Owned owner s (is_active m.status) (now_active m)
            (count_changes p now_active s ms rows) rest)
      | inr miss ↦ rw miss rest
    ]

recount-IsTallied :
    (owner : ℕ → ℕ) (t : SpaceTables) (p s : ℕ)
    → owner s ≡ p
    → IsTallied owner t
    → IsTallied owner (recount p s t)
recount-IsTallied owner t p s here ((owned, placed), counted) = (
  (
    spaces_updated owner (space_id_is s)
        (λ (r : SpaceRow). record r { members_count = real_count t p s }) t.spaces (λ r. refl)
        owned,
    placed,
  ),
  recount-IsCounted owner t p s here placed counted,
)

update-IsTallied :
    (owner : ℕ → ℕ) (t : SpaceTables) (s u : ℕ) (f : SpaceMember → SpaceMember)
    → ((m : SpaceMember) → (f m).space_id ≡ m.space_id)
    → ((m : SpaceMember) → Placed owner t m → Placed owner t (f m))
    → IsTallied owner t
    → IsTallied owner (update_members t s (member_key s u) f)
unfolding update_members
update-IsTallied owner t s u f keeps places ((owned, placed), counted) = (
  (
    changes-Owned owner (member_key s u) (λ (m : SpaceMember). is_active (f m).status) s t.members
        t.spaces owned,
    members_updated (Placed owner t) (member_key s u) f t.members places placed,
  ),
  update-IsCounted t s (member_key s u) f (in_key s u) keeps counted,
)

delete-IsTallied :
    (owner : ℕ → ℕ) (t : SpaceTables) (s : ℕ) (p : SpaceMember → Bool)
    → ((m : SpaceMember) → p m ≡ true → (m.space_id == s) ≡ true)
    → IsTallied owner t
    → IsTallied owner (delete_members t s p)
unfolding delete_members
delete-IsTallied owner t s p inside ((owned, placed), counted) = (
  (
    changes-Owned owner p (λ (m : SpaceMember). false) s t.members t.spaces owned,
    members_deleted (Placed owner t) p t.members placed,
  ),
  delete-IsCounted t s p inside counted,
)

upsert-IsTallied :
    (owner : ℕ → ℕ) (t : SpaceTables) (p s u : ℕ) (status : MemberStatus)
    → p ≡ owner s
    → has_profile t u ≡ true
    → IsTallied owner t
    → IsTallied owner (upsert_join t p s u status)
unfolding upsert_join
upsert-IsTallied owner t p s u status here profile ((owned, placed), counted) =
    elim (Bool-cases (has_row (member_key s u) t.members)) [
      | inl there ↦ rw there (
          update-IsTallied owner t s u
            (λ (m : SpaceMember). record m { status = status; role = MemberRole.member })
            (λ m. refl) (λ m placed_m. placed_m) ((owned, placed), counted))
      | inr new ↦
          let all = upsert-IsCounted t p s u status counted in
          rw new (
            (
              change-Owned owner s false (is_active status) t.spaces owned,
              ((here, profile), placed),
            ),
            rw new at all,
          )
    ]

got-owner :
    (owner : ℕ → ℕ) (t : SpaceTables) (p : ℕ) (param : SpaceParam) {space : SpaceRow}
    → get_space t p param ≡ ok space
    → Owned owner t.spaces
    → owner space.base.id ≡ p
got-owner owner t p param {space} got owned =
    let (q, row, same, _) = got_row t p param {space = space} got in
    sym (
      All-find_row (λ (r : SpaceRow). r.base.project_id ≡ owner r.base.id) q t.spaces {x = space}
        owned row)
    ∙ same

own_key : (p s u : ℕ) (m : SpaceMember) → own_membership p s u m ≡ true → (m.space_id == s) ≡ true
own_key p s u m key = ground arith

tallied :
    (owner : ℕ → ℕ) (t : SpaceTables) {t' : SpaceTables}
    → ok t ≡ ok t'
    → IsTallied owner t
    → IsTallied owner t'
tallied owner t h holds = subst (IsTallied owner) (ok-injective h) holds

step-IsTallied :
    (owner : ℕ → ℕ) {t t' : SpaceTables} → MemberStep t t' → IsTallied owner t → IsTallied owner t'
unfolding join_space leave_space remove_member change_role set_status
step-IsTallied owner {t} (joining c param h) holds =
    let (auth, from0, h1) = bind-ok (require_auth c) _ h in
    let (space, from1, h2) = bind-ok (get_space t c.project_id param) _ h1 in
    let (u, from2, h3) =
      bind-ok {A = Unit} (guard (has_profile t auth.user_id) database_error) _ h2 in
    let status = join_status space.require_join_approval in
    let added = upsert_join t c.project_id space.base.id auth.user_id status in
    let here = got-owner owner t c.project_id param {space = space} from1 holds.0.0 in
    tallied owner (recount c.project_id space.base.id added) h3 (
      recount-IsTallied owner added c.project_id space.base.id here (
        upsert-IsTallied owner t c.project_id space.base.id auth.user_id status (sym here)
          (guard-ok _ database_error from2) holds))
step-IsTallied owner {t} (leaving c param h) holds =
    let (auth, from0, h1) = bind-ok (require_auth c) _ h in
    let (space, from1, h2) = bind-ok (get_space t c.project_id param) _ h1 in
    let s = space.base.id in
    let mine = own_membership c.project_id s auth.user_id in
    let fewer = delete_members t s mine in
    let here = got-owner owner t c.project_id param {space = space} from1 holds.0.0 in
    tallied owner (recount c.project_id s fewer) h2 (
      recount-IsTallied owner fewer c.project_id s here
        (delete-IsTallied owner t s mine (own_key c.project_id s auth.user_id) holds))
step-IsTallied owner {t} (expelling c param member_id h) holds =
    let (auth, from0, h1) = bind-ok (require_auth c) _ h in
    let (space, from1, h2) = bind-ok (get_space t c.project_id param) _ h1 in
    let (role, from2, h3) =
      bind-ok (require_space_role t c.project_id auth space admin_or_moderator) _ h2 in
    let key = member_key space.base.id member_id in
    tallied owner (delete_members t space.base.id key) h3
      (delete-IsTallied owner t space.base.id key (in_key space.base.id member_id) holds)
step-IsTallied owner {t} (promoting c param member_id body h) holds =
    let (auth, from0, h1) = bind-ok (require_auth c) _ h in
    let (space, from1, h2) = bind-ok (get_space t c.project_id param) _ h1 in
    let (role, from2, h3) =
      bind-ok (require_space_role t c.project_id auth space only_admin) _ h2 in
    let (new_role, from3, h4) = bind-ok (parse_body body) _ h3 in
    let key = member_key space.base.id member_id in
    let (u, from4, h5) = bind-ok {A = Unit} (guard (has_row key t.members) member_not_found) _ h4 in
    let f : SpaceMember → SpaceMember = λ m. record m { role = new_role } in
    tallied owner (update_members t space.base.id key f) h5
      (update-IsTallied owner t space.base.id member_id f (λ m. refl) (λ m placed. placed) holds)
step-IsTallied owner {t} (deciding c param member_id status h) holds =
    let (auth, from0, h1) = bind-ok (require_auth c) _ h in
    let (space, from1, h2) = bind-ok (get_space t c.project_id param) _ h1 in
    let (role, from2, h3) =
      bind-ok (require_space_role t c.project_id auth space admin_or_moderator) _ h2 in
    let key = member_key space.base.id member_id in
    let (u, from3, h4) = bind-ok {A = Unit} (guard (has_row key t.members) member_not_found) _ h3 in
    let f : SpaceMember → SpaceMember = λ m. record m { status = status } in
    tallied owner (update_members t space.base.id key f) h4
      (update-IsTallied owner t space.base.id member_id f (λ m. refl) (λ m placed. placed) holds)

-- Where the counter of every space is the number of its active members, every member has a profile and
-- every member row names the project of its space, it stays so under every sequence of joins, leaves,
-- removals, changes of role and decisions on members, one after the other. Some of them leave the
-- counter to the trigger, and some write a count of their own.
pub steps-IsTallied :
    (owner : ℕ → ℕ) {t t' : SpaceTables} → MemberSteps t t' → IsTallied owner t → IsTallied owner t'
steps-IsTallied owner start holds = holds
steps-IsTallied owner (after before step) holds =
    step-IsTallied owner step (steps-IsTallied owner before holds)
