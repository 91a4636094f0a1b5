-- ===== src/Spaces/Exact.antt =====
-- The counters of members stay exact under the requests on members of apps/api/src/routes/spaces.ts.
use philosophy_app.Prelude.{
  ℕ, ◌+◌, ◌≡◌, refl, sym, ap, ◌∙◌, inl, inr, Bool, true, false, List, [], ◌∷◌, arith, ◌==◌,
  if◌then◌else◌, Bool-cases, has_row, count_rows, update_rows, delete_rows, ==_refl,
}
use philosophy_app.Access.{SpaceMember, MemberRole, MemberStatus, is_active}
use philosophy_app.Spaces.{SpaceTables, on_member_change}
use philosophy_app.Spaces.Members.{update_members, delete_members, upsert_join, member_key}
use philosophy_app.Spaces.Counts.{
  Counts, at, one, Counts-same, insert-Counts, active_in, update-Counts, delete-Counts,
}

-- The counter of every space is the number of its active members.
abbrev pub IsCounted : SpaceTables → Type 0
IsCounted t = Counts (λ (x : ℕ). count_rows (active_in x) t.members) t.spaces

away :
    (m : SpaceMember) (x s : ℕ)
    → (m.space_id == s) ≡ true
    → (x == s) ≡ false
    → active_in x m ≡ false
away m x s at_s off = elim (Bool-cases (m.space_id == x)) [
  | inl at_x ↦ absurd (ground arith)
  | inr not_x ↦ rw not_x
]

update_elsewhere :
    (x s : ℕ) (p : SpaceMember → Bool) (f : SpaceMember → SpaceMember) (ms : List SpaceMember)
    → (x == s) ≡ false
    → ((m : SpaceMember) → p m ≡ true → (m.space_id == s) ≡ true)
    → ((m : SpaceMember) → (f m).space_id ≡ m.space_id)
    → count_rows (active_in x) ms ≡ count_rows (active_in x) (update_rows p f ms)
update_elsewhere x s p f [] off inside keeps = refl
update_elsewhere x s p f (m ∷ ms) off inside keeps =
    let rest = update_elsewhere x s p f ms off inside keeps in
    elim (Bool-cases (p m)) [
      | inl hit ↦
          let there : ((f m).space_id == s) ≡ true =
            ap (λ (y : ℕ). y == s) (keeps m) ∙ inside m hit in
          rw (hit, away m x s (inside m hit) off, away (f m) x s there off)
            (ap (λ (n : ℕ). 0 + n) rest)
      | inr miss ↦ rw miss (ap (λ (n : ℕ). (if active_in x m then 1 else 0) + n) rest)
    ]

delete_elsewhere :
    (x s : ℕ) (p : SpaceMember → Bool) (ms : List SpaceMember)
    → (x == s) ≡ false
    → ((m : SpaceMember) → p m ≡ true → (m.space_id == s) ≡ true)
    → count_rows (active_in x) ms ≡ count_rows (active_in x) (delete_rows p ms)
delete_elsewhere x s p [] off inside = refl
delete_elsewhere x s p (m ∷ ms) off inside =
    let rest = delete_elsewhere x s p ms off inside in
    elim (Bool-cases (p m)) [
      | inl hit ↦ rw (hit, away m x s (inside m hit) off) (omega (arith, rest))
      | inr miss ↦ rw miss (ap (λ (n : ℕ). (if active_in x m then 1 else 0) + n) rest)
    ]

-- A function of ids, and the function with its own value at one of them.
pub opened : (s n : ℕ) (g : ℕ → ℕ) → n ≡ g s → (x : ℕ) → g x ≡ at s n g x
opened s n g e x = elim (Bool-cases (x == s)) [
  | inl here ↦ let same : s ≡ x = ground arith in rw here (sym (e ∙ ap g same))
  | inr off ↦ rw off
]

pub settled :
    (s n : ℕ) (g h : ℕ → ℕ)
    → n ≡ h s
    → ((x : ℕ) → (x == s) ≡ false → g x ≡ h x)
    → (x : ℕ) → at s n g x ≡ h x
settled s n g h e elsewhere x = elim (Bool-cases (x == s)) [
  | inl here ↦ let same : s ≡ x = ground arith in rw here (e ∙ ap h same)
  | inr off ↦ rw off (elsewhere x off)
]

pub update-IsCounted :
    (t : SpaceTables) (s : ℕ) (p : SpaceMember → Bool) (f : SpaceMember → SpaceMember)
    → ((m : SpaceMember) → p m ≡ true → (m.space_id == s) ≡ true)
    → ((m : SpaceMember) → (f m).space_id ≡ m.space_id)
    → IsCounted t
    → IsCounted (update_members t s p f)
unfolding update_members
update-IsCounted t s p f inside keeps counted =
    let g : ℕ → ℕ = λ x. count_rows (active_in x) t.members in
    let h : ℕ → ℕ = λ x. count_rows (active_in x) (update_rows p f t.members) in
    Counts-same (at s (0 + h s) g) h (update_members t s p f).spaces
      (settled s (0 + h s) g h (omega arith)
        (λ x off. update_elsewhere x s p f t.members off inside keeps))
      (update-Counts s 0 g p f t.members t.spaces inside keeps
        (Counts-same g (at s (0 + g s) g) t.spaces (opened s (0 + g s) g (omega arith)) counted))

pub delete-IsCounted :
    (t : SpaceTables) (s : ℕ) (p : SpaceMember → Bool)
    → ((m : SpaceMember) → p m ≡ true → (m.space_id == s) ≡ true)
    → IsCounted t
    → IsCounted (delete_members t s p)
unfolding delete_members
delete-IsCounted t s p inside counted =
    let g : ℕ → ℕ = λ x. count_rows (active_in x) t.members in
    let h : ℕ → ℕ = λ x. count_rows (active_in x) (delete_rows p t.members) in
    Counts-same (at s (0 + h s) g) h (delete_members t s p).spaces
      (settled s (0 + h s) g h (omega arith) (λ x off. delete_elsewhere x s p t.members off inside))
      (delete-Counts s 0 g p t.members t.spaces inside
        (Counts-same g (at s (0 + g s) g) t.spaces (opened s (0 + g s) g (omega arith)) counted))

exchange : (a b : ℕ) → a + b ≡ b + a
exchange a b = omega arith

pub in_key :
    (s user_id : ℕ) (m : SpaceMember) → member_key s user_id m ≡ true → (m.space_id == s) ≡ true
in_key s user_id m key = ground arith

pub upsert-IsCounted :
    (t : SpaceTables) (project_id s user_id : ℕ) (status : MemberStatus)
    → IsCounted t
    → IsCounted (upsert_join t project_id s user_id status)
unfolding upsert_join
upsert-IsCounted t project_id s user_id status counted =
    elim (Bool-cases (has_row (member_key s user_id) t.members)) [
      | inl there ↦ rw there (
          update-IsCounted t s (member_key s user_id)
            (λ (m : SpaceMember). record m { status = status; role = MemberRole.member })
            (in_key s user_id) (λ m. refl) counted)
      | inr new ↦
          let m : SpaceMember = record {
            project_id = project_id;
            space_id = s;
            user_id = user_id;
            role = MemberRole.member;
            status = status;
          } in
          let g : ℕ → ℕ = λ x. count_rows (active_in x) t.members in
          let h : ℕ → ℕ = λ x. count_rows (active_in x) (m ∷ t.members) in
          rw new (
            Counts-same (at s (g s + one (is_active status)) g) h
              (on_member_change s false (is_active status) t.spaces)
              (settled s (g s + one (is_active status)) g h
                (rw (==_refl s) (exchange (g s) (one (is_active status))))
                (λ x off. rw (away m x s (==_refl s) off) (omega arith)))
              (insert-Counts s (g s) g (is_active status) t.spaces
                (Counts-same g (at s (g s) g) t.spaces (opened s (g s) g refl) counted)))
    ]
