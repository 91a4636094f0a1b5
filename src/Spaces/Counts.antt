-- ===== src/Spaces/Counts.antt =====
-- How the trigger `on_space_member_change` moves the counters of members that
-- apps/api/src/routes/spaces.ts and the trigger keep.
use mathlib.Core.Path.{subst}
use philosophy_app.Prelude.{
  ℕ, ◌+◌, ◌-◌, ◌≡◌, refl, sym, ap, ◌∙◌, inl, inr, Bool, true, false, ◌&&◌, List, [], ◌∷◌, arith,
  ◌==◌, if◌then◌else◌, Bool-cases, count_rows, update_rows, delete_rows, All,
}
use philosophy_app.Access.{SpaceMember, is_active}
use philosophy_app.Spaces.{SpaceRow, space_id_is, on_member_change}
use philosophy_app.Spaces.Members.{count_changes}

-- The counters of the rows are given by this function of their ids.
abbrev pub Counts : (ℕ → ℕ) → List SpaceRow → Type 0
Counts g rows = All (λ (r : SpaceRow). r.members_count ≡ g r.base.id) rows

-- The function with another value at one id.
abbrev pub at : ℕ → ℕ → (ℕ → ℕ) → ℕ → ℕ
at s n g x = if x == s then n else g x

abbrev pub one : Bool → ℕ
one b = if b then 1 else 0

pub Counts-same :
    (g h : ℕ → ℕ) (rows : List SpaceRow) → ((x : ℕ) → g x ≡ h x) → Counts g rows → Counts h rows
Counts-same g h [] same a = tt
Counts-same g h (r ∷ rows) same (now, later) =
    (now ∙ same r.base.id, Counts-same g h rows same later)

pub Counts-set :
    (s m n : ℕ) (g : ℕ → ℕ) (f : SpaceRow → SpaceRow) (rows : List SpaceRow)
    → ((r : SpaceRow) → (f r).base.id ≡ r.base.id)
    → ((r : SpaceRow) → r.members_count ≡ m → (f r).members_count ≡ n)
    → Counts (at s m g) rows
    → Counts (at s n g) (update_rows (space_id_is s) f rows)
Counts-set s m n g f [] ids new a = tt
Counts-set s m n g f (r ∷ rows) ids new (now, later) =
    let rest = Counts-set s m n g f rows ids new later in
    elim (Bool-cases (r.base.id == s)) [
      | inl mine ↦ rw (mine, ids r, mine) (new r (rw mine at now), rest)
      | inr other ↦ rw (other, other) (rw other at now, rest)
    ]

change-Counts :
    (s n : ℕ) (g : ℕ → ℕ) (before after : Bool) (rows : List SpaceRow)
    → Counts (at s (n + one before) g) rows
    → Counts (at s (n + one after) g) (on_member_change s before after rows)
change-Counts s n g true true rows a = a
change-Counts s n g false false rows a = a
change-Counts s n g false true rows a =
    Counts-set s (n + 0) (n + 1) g
      (λ (r : SpaceRow). record r { members_count = r.members_count + 1 }) rows (λ r. refl)
      (λ r h. omega (arith, h)) a
change-Counts s n g true false rows a =
    Counts-set s (n + 1) (n + 0) g
      (λ (r : SpaceRow). record r { members_count = r.members_count - 1 }) rows (λ r. refl)
      (λ r h. omega (arith, h)) a

pub insert-Counts :
    (s n : ℕ) (g : ℕ → ℕ) (after : Bool) (rows : List SpaceRow)
    → Counts (at s n g) rows
    → Counts (at s (n + one after) g) (on_member_change s false after rows)
insert-Counts s n g after rows a =
    change-Counts s n g false after rows (
      Counts-same (at s n g) (at s (n + 0) g) rows (λ x. ap (λ (k : ℕ). at s k g x) (omega arith))
        a)

-- The rows that the trigger counts for a space.
abbrev pub active_in : ℕ → SpaceMember → Bool
active_in s m = m.space_id == s && is_active m.status

active_inside :
    (s : ℕ) (m : SpaceMember) → (m.space_id == s) ≡ true → active_in s m ≡ is_active m.status
active_inside s m inside = rw inside

recast :
    (s : ℕ) (g : ℕ → ℕ) (rows : List SpaceRow) {m n : ℕ}
    → m ≡ n
    → Counts (at s m g) rows
    → Counts (at s n g) rows
recast s g rows e a = subst (λ (k : ℕ). Counts (at s k g) rows) e a

shift : (k a b : ℕ) → k + (a + b) ≡ (k + a) + b
shift k a b = omega arith

swap : (k a b c : ℕ) → a ≡ c → (k + a) + b ≡ (k + b) + c
swap k a b c e = omega (arith, e)

join : (k a b c : ℕ) → a ≡ c → (k + b) + c ≡ k + (a + b)
join k a b c e = omega (arith, e)

-- The members of the space after an update of the rows of a test, which all stand in it.
pub update-Counts :
    (s k : ℕ) (g : ℕ → ℕ) (p : SpaceMember → Bool) (f : SpaceMember → SpaceMember)
    (ms : List SpaceMember) (rows : List SpaceRow)
    → ((m : SpaceMember) → p m ≡ true → (m.space_id == s) ≡ true)
    → ((m : SpaceMember) → (f m).space_id ≡ m.space_id)
    → Counts (at s (k + count_rows (active_in s) ms) g) rows
    → Counts
        (at s (k + count_rows (active_in s) (update_rows p f ms)) g)
        (count_changes p (λ (m : SpaceMember). is_active (f m).status) s ms rows)
update-Counts s k g p f [] rows inside keeps a = a
update-Counts s k g p f (m ∷ ms) rows inside keeps a =
    let old = one (active_in s m) in
    let total' = count_rows (active_in s) (update_rows p f ms) in
    let changed = count_changes p (λ (x : SpaceMember). is_active (f x).status) s ms rows in
    let rest : Counts (at s ((k + old) + total') g) changed =
      update-Counts s (k + old) g p f ms rows inside keeps
        (recast s g rows (shift k old (count_rows (active_in s) ms)) a) in
    elim (Bool-cases (p m)) [
      | inl hit ↦
          let was : old ≡ one (is_active m.status) = ap one (active_inside s m (inside m hit)) in
          let same : ((f m).space_id == s) ≡ true =
            ap (λ (x : ℕ). x == s) (keeps m) ∙ inside m hit in
          let is : one (active_in s (f m)) ≡ one (is_active (f m).status) =
            ap one (active_inside s (f m) same) in
          rw hit (
            recast s g (on_member_change s (is_active m.status) (is_active (f m).status) changed)
              (join k (one (active_in s (f m))) total' (one (is_active (f m).status)) is)
              (change-Counts s (k + total') g (is_active m.status) (is_active (f m).status) changed
                (recast s g changed (swap k old total' (one (is_active m.status)) was) rest)))
      | inr miss ↦ rw miss (recast s g changed (sym (shift k old total')) rest)
    ]

-- The members of the space after the rows of a test, which all stand in it, are deleted.
pub delete-Counts :
    (s k : ℕ) (g : ℕ → ℕ) (p : SpaceMember → Bool) (ms : List SpaceMember) (rows : List SpaceRow)
    → ((m : SpaceMember) → p m ≡ true → (m.space_id == s) ≡ true)
    → Counts (at s (k + count_rows (active_in s) ms) g) rows
    → Counts
        (at s (k + count_rows (active_in s) (delete_rows p ms)) g)
        (count_changes p (λ (m : SpaceMember). false) s ms rows)
delete-Counts s k g p [] rows inside a = a
delete-Counts s k g p (m ∷ ms) rows inside a =
    let old = one (active_in s m) in
    let total' = count_rows (active_in s) (delete_rows p ms) in
    let changed = count_changes p (λ (x : SpaceMember). false) s ms rows in
    let rest : Counts (at s ((k + old) + total') g) changed =
      delete-Counts s (k + old) g p ms rows inside
        (recast s g rows (shift k old (count_rows (active_in s) ms)) a) in
    elim (Bool-cases (p m)) [
      | inl hit ↦
          let was : old ≡ one (is_active m.status) = ap one (active_inside s m (inside m hit)) in
          let zero_more : (k + total') + 0 ≡ k + total' = omega arith in
          rw hit (
            recast s g (on_member_change s (is_active m.status) false changed) zero_more (
              change-Counts s (k + total') g (is_active m.status) false changed
                (recast s g changed (swap k old total' (one (is_active m.status)) was) rest)))
      | inr miss ↦ rw miss (recast s g changed (sym (shift k old total')) rest)
    ]
