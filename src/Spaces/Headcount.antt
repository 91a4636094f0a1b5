-- ===== src/Spaces/Headcount.antt =====
-- The two ways in which apps/api/src/routes/spaces.ts keeps the counters of members, the trigger and the
-- count that a join or a leave makes, agree.
use mathlib.Core.Path.{subst}
use philosophy_app.Prelude.{
  ℕ, ◌+◌, ◌≡◌, refl, sym, ap, ◌∙◌, inl, inr, Bool, true, List, [], ◌∷◌, arith, ◌==◌, Bool-cases,
  count_rows, update_rows, delete_rows, All, ==_refl,
}
use philosophy_app.Access.{SpaceMember, is_active}
use philosophy_app.Spaces.{SpaceRow, SpaceTables, has_profile}
use philosophy_app.Spaces.Members.{counted_member, real_count, recount}
use philosophy_app.Spaces.Counts.{at, Counts-same, Counts-set, active_in}
use philosophy_app.Spaces.Exact.{IsCounted, opened, settled}

-- A member has a profile, and stands in the project of the space.
abbrev pub Placed : (ℕ → ℕ) → SpaceTables → SpaceMember → Type 0
Placed owner t m = (m.project_id ≡ owner m.space_id) × (has_profile t m.user_id ≡ true)

-- The projects of spaces and members are those that the function names, and members have profiles.
abbrev pub IsPlaced : (ℕ → ℕ) → SpaceTables → Type 0
IsPlaced owner t =
    All (λ (r : SpaceRow). r.base.project_id ≡ owner r.base.id) t.spaces
    × All (Placed owner t) t.members

same_count :
    (owner : ℕ → ℕ) (t : SpaceTables) (s : ℕ) (ms : List SpaceMember)
    → All (Placed owner t) ms
    → count_rows (counted_member t (owner s) s) ms ≡ count_rows (active_in s) ms
same_count owner t s [] placed = refl
same_count owner t s (m ∷ ms) ((project, profile), later) =
    let rest = same_count owner t s ms later in
    elim (Bool-cases (m.space_id == s)) [
      | inl here ↦
          let at_s : m.space_id ≡ s = ground arith in
          let mine : (m.project_id == owner s) ≡ true =
            ap (λ (x : ℕ). x == owner s) (project ∙ ap owner at_s) ∙ ==_refl (owner s) in
          elim (Bool-cases (is_active m.status)) [
            | inl act ↦ rw (mine, here, act, profile) (ap (λ (n : ℕ). 1 + n) rest)
            | inr idle ↦ rw (mine, here, idle) (ap (λ (n : ℕ). 0 + n) rest)
          ]
      | inr other ↦ elim (Bool-cases (m.project_id == owner s)) [
        | inl mine ↦ rw (mine, other) (ap (λ (n : ℕ). 0 + n) rest)
        | inr foreign ↦ rw (foreign, other) (ap (λ (n : ℕ). 0 + n) rest)
      ]
    ]

pub recount-IsCounted :
    (owner : ℕ → ℕ) (t : SpaceTables) (p s : ℕ)
    → owner s ≡ p
    → All (Placed owner t) t.members
    → IsCounted t
    → IsCounted (recount p s t)
recount-IsCounted owner t p s here placed counted =
    let g : ℕ → ℕ = λ x. count_rows (active_in x) t.members in
    let exact : real_count t p s ≡ g s =
      subst (λ (q : ℕ). real_count t q s ≡ g s) here (same_count owner t s t.members placed) in
    Counts-same (at s (real_count t p s) g) g (recount p s t).spaces
      (settled s (real_count t p s) g g exact (λ x off. refl))
      (Counts-set s (g s) (real_count t p s) g
        (λ (r : SpaceRow). record r { members_count = real_count t p s }) t.spaces (λ r. refl)
        (λ r h. refl) (Counts-same g (at s (g s) g) t.spaces (opened s (g s) g refl) counted))

-- Statements that keep the project of the rows.
pub spaces_updated :
    (owner : ℕ → ℕ) (p : SpaceRow → Bool) (f : SpaceRow → SpaceRow) (rows : List SpaceRow)
    → ((r : SpaceRow) → (f r).base ≡ r.base)
    → All (λ (r : SpaceRow). r.base.project_id ≡ owner r.base.id) rows
    → All (λ (r : SpaceRow). r.base.project_id ≡ owner r.base.id) (update_rows p f rows)
spaces_updated owner p f [] same a = tt
spaces_updated owner p f (r ∷ rows) same (now, later) =
    let rest = spaces_updated owner p f rows same later in
    elim (Bool-cases (p r)) [
      | inl hit ↦
          rw hit (ap (λ b. b.project_id) (same r) ∙ now ∙ ap (λ b. owner b.id) (sym (same r)), rest)
      | inr miss ↦ rw miss (now, rest)
    ]

pub members_updated :
    (P : SpaceMember → Type 0) (p : SpaceMember → Bool) (f : SpaceMember → SpaceMember)
    (ms : List SpaceMember)
    → ((m : SpaceMember) → P m → P (f m))
    → All P ms
    → All P (update_rows p f ms)
members_updated P p f [] keeps a = tt
members_updated P p f (m ∷ ms) keeps (now, later) =
    let rest = members_updated P p f ms keeps later in
    elim (Bool-cases (p m)) [
      | inl hit ↦ rw hit (keeps m now, rest)
      | inr miss ↦ rw miss (now, rest)
    ]

pub members_deleted :
    (P : SpaceMember → Type 0) (p : SpaceMember → Bool) (ms : List SpaceMember)
    → All P ms
    → All P (delete_rows p ms)
members_deleted P p [] a = tt
members_deleted P p (m ∷ ms) (now, later) =
    let rest = members_deleted P p ms later in
    elim (Bool-cases (p m)) [ inl hit ↦ rw hit rest | inr miss ↦ rw miss (now, rest) ]
