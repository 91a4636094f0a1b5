-- ===== src/Steward/Outcomes.antt =====
-- How a case of apps/api/src/routes/steward.ts ends: by an escalation, or by an update that sets its
-- outcome.
use Prim.Native.String.{String}
use mathlib.Core.Path.{subst}
use philosophy_app.Prelude.{
  ℕ, ◌≡◌, ◌≢◌, refl, inl, inr, true, false, Option, none, some, List, [], ◌∷◌, arith, Bool-cases,
  update_rows, All,
}
use philosophy_app.Http.{ok}
use philosophy_app.Auth.{AuthContext}
use philosophy_app.Steward.{
  SubjectType, entity, comment, message, closed, Outcome, escalated, CaseRow, StewardConfig,
  require_steward, get_case,
}
use philosophy_app.Steward.Cases.{
  Content, Contents, CaseStore, is_case, of_type, is_content, moderate, remove_subject, subject_of,
  escalate_row, escalate,
}
use philosophy_app.Steward.Update.{
  PatchBody, sets_outcome, sets_something, is_escalated, patch_case, outcome_eq,
}
use philosophy_app.Steward.Lifecycle.{escalate_facts}

moderated-All :
    (p id actor : ℕ) (rows : List Content)
    → All
        (λ (c : Content). is_content p id c ≡ true → c.is_removed ≡ true)
        (moderate p id actor rows)
moderated-All p id actor [] = tt
moderated-All p id actor (c ∷ rows) = elim (Bool-cases (is_content p id c)) [
  | inl hit ↦ rw hit (λ e. refl, moderated-All p id actor rows)
  | inr miss ↦ rw miss (λ e. cc, moderated-All p id actor rows)
]

removed_of_type :
    (type : SubjectType) (p id actor : ℕ) (c : Contents)
    → All
        (λ (x : Content). is_content p id x ≡ true → x.is_removed ≡ true)
        (of_type type (remove_subject type p id actor c))
removed_of_type entity p id actor c = moderated-All p id actor c.entities
removed_of_type comment p id actor c = moderated-All p id actor c.comments
removed_of_type message p id actor c = moderated-All p id actor c.messages

closed-All :
    (p id now : ℕ) (reason : String) (rows : List CaseRow)
    → All
        (λ (r : CaseRow). is_case p id r ≡ true → (r.state ≡ closed) × (r.outcome ≡ some escalated))
        (update_rows (is_case p id) (escalate_row now reason) rows)
closed-All p id now reason [] = tt
closed-All p id now reason (r ∷ rows) = elim (Bool-cases (is_case p id r)) [
  | inl hit ↦ rw hit (λ e. (refl, refl), closed-All p id now reason rows)
  | inr miss ↦ rw miss (λ e. cc, closed-All p id now reason rows)
]

-- After an escalation that succeeds, the content that its case names is removed, and the case is
-- closed as escalated.
pub escalate_removes :
    (s t : CaseStore) (cfg : StewardConfig) (p : ℕ) (auth : AuthContext) (id : ℕ)
    (body : Option String) (now : ℕ)
    → escalate s cfg p auth id body now ≡ ok t
    → (row : CaseRow) × (type : SubjectType) × (subject_id : ℕ) × (get_case s.cases p id ≡ ok row)
      × (subject_of row ≡ ok (type, subject_id))
      × All
          (λ (c : Content). is_content p subject_id c ≡ true → c.is_removed ≡ true)
          (of_type type t.contents)
      × All
          (λ (r : CaseRow).
            is_case p row.id r ≡ true → (r.state ≡ closed) × (r.outcome ≡ some escalated))
          t.cases
escalate_removes s t cfg p auth id body now h =
    let (row, type, subject_id, reason, found, named, same) =
      escalate_facts s t cfg p auth id body now h in
    (
      row,
      type,
      subject_id,
      found,
      named,
      subst
          (λ (z : CaseStore).
            All (λ (c : Content). is_content p subject_id c ≡ true → c.is_removed ≡ true)
              (of_type type z.contents))
          same (removed_of_type type p subject_id auth.user_id s.contents),
      subst
          (λ (z : CaseStore).
            All
              (λ (r : CaseRow).
                is_case p row.id r ≡ true → (r.state ≡ closed) × (r.outcome ≡ some escalated))
              z.cases)
          same (closed-All p row.id now reason s.cases),
    )

steward_passes : (auth : AuthContext) → auth.is_steward ≡ true → require_steward auth ≡ ok tt
unfolding require_steward
steward_passes auth trusted = ground arith

outcome_eq_refl : (o : Outcome) → outcome_eq o o ≡ true
outcome_eq_refl Outcome.repaired = refl
outcome_eq_refl Outcome.separated = refl
outcome_eq_refl Outcome.protective_action = refl
outcome_eq_refl Outcome.escalated = refl
outcome_eq_refl Outcome.dismissed = refl

-- A body that names an outcome only.
abbrev pub only_outcome : Outcome → PatchBody
only_outcome o = record {
  state = none;
  assigned_to_id = none;
  asymmetry = none;
  outcome = some o;
  resolution_note = none;
}

-- An update that names, and names only, the outcome that the case has already changes nothing, also
-- where the case has been opened again since.
pub same_outcome_ignored :
    (s : CaseStore) (cfg : StewardConfig) (p : ℕ) (auth : AuthContext) (id : ℕ) (o : Outcome)
    (now : ℕ) (row : CaseRow)
    → auth.is_steward ≡ true
    → get_case s.cases p id ≡ ok row
    → row.outcome ≡ some o
    → o ≢ escalated
    → patch_case s cfg p auth id (some (only_outcome o)) now ≡ ok s
unfolding patch_case
same_outcome_ignored s cfg p auth id o now row trusted found had ne =
    let kept : sets_outcome (only_outcome o) row ≡ false = rw (had, outcome_eq_refl o) refl in
    let plain : is_escalated (some o) ≡ false = ground arith in
    let nothing : sets_something (only_outcome o) row ≡ false = rw kept refl in
    rw (steward_passes auth trusted, plain, found, nothing) refl
