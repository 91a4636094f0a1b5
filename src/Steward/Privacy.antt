-- ===== src/Steward/Privacy.antt =====
-- What the notifications of apps/api/src/lib/notifications.ts tell the respondent of a case.
use philosophy_app.Prelude.{
  ℕ, ◌≡◌, ◌≢◌, refl, sym, ap, ◌∙◌, inl, inr, false, ◌&&◌, Option, none, some, List, [], ◌++◌, arith,
  ◌==◌, Bool-cases, Option-cases, select_rows,
}
use philosophy_app.Steward.{
  Outcome, NotifyPolicy, power_aware, symmetric, resolution_only, CaseKind, StewardNote, CaseCtx,
  is_closing, affects_respondent, complainant_stage, complainant_notes, respondent_notes,
  steward_case_recipients,
}

-- The notifications that a user receives.
abbrev pub sent_to : ℕ → List StewardNote → List StewardNote
sent_to user_id notes = select_rows (λ (n : StewardNote). n.recipient_id == user_id) notes

-- A case with another complainant.
abbrev pub accused_by : Option ℕ → CaseCtx → CaseCtx
accused_by c ctx = record ctx { complainant_id = c }

other_complainant :
    (policy : NotifyPolicy) (kind : CaseKind) (outcome : Option Outcome) (ctx : CaseCtx) (r : ℕ)
    (c : Option ℕ) (rest : List StewardNote)
    → c ≢ some r
    → sent_to r (complainant_notes policy kind outcome (accused_by c ctx) ++ rest) ≡ sent_to r rest
unfolding complainant_notes
other_complainant policy kind outcome ctx r none rest ne = refl
other_complainant policy kind outcome ctx r (some c) rest ne =
    let off : (c == r) ≡ false = ground arith in
    elim (Bool-cases (complainant_stage policy kind)) [
      | inl told ↦ rw (told, off) refl
      | inr silent ↦ rw silent refl
    ]

respondent_notes_same :
    (policy : NotifyPolicy) (kind : CaseKind) (outcome : Option Outcome) (ctx : CaseCtx)
    (c d : Option ℕ)
    → respondent_notes policy kind outcome (accused_by c ctx)
      ≡ respondent_notes policy kind outcome (accused_by d ctx)
unfolding respondent_notes
respondent_notes_same power_aware kind outcome ctx c d = refl
respondent_notes_same symmetric kind outcome ctx c d = refl
respondent_notes_same resolution_only kind outcome ctx c d = refl

-- What a user is told about a case does not depend on who complained, under every policy, at every
-- stage and with every outcome, as long as the user is not the one who complained.
pub recipients_hide_complainant :
    (policy : NotifyPolicy) (kind : CaseKind) (outcome : Option Outcome) (ctx : CaseCtx) (r : ℕ)
    (c d : Option ℕ)
    → c ≢ some r
    → d ≢ some r
    → sent_to r (steward_case_recipients policy kind outcome (accused_by c ctx))
      ≡ sent_to r (steward_case_recipients policy kind outcome (accused_by d ctx))
unfolding steward_case_recipients
recipients_hide_complainant policy kind outcome ctx r c d nc nd =
    other_complainant policy kind outcome ctx r c _ nc
    ∙ ap (λ l. sent_to r l) (respondent_notes_same policy kind outcome ctx c d)
    ∙ sym (other_complainant policy kind outcome ctx r d _ nd)

silent_respondent :
    (policy : NotifyPolicy) (kind : CaseKind) (outcome : Option Outcome) (ctx : CaseCtx)
    → policy ≢ symmetric
    → (is_closing kind && affects_respondent outcome) ≡ false
    → respondent_notes policy kind outcome ctx ≡ []
unfolding respondent_notes
silent_respondent symmetric kind outcome ctx ne calm = absurd (ne refl)
silent_respondent power_aware kind outcome ctx ne calm = elim (Option-cases ctx.respondent_id) [
  | inl nobody ↦ rw nobody refl
  | inr (r, there) ↦ rw (there, calm) refl
]
silent_respondent resolution_only kind outcome ctx ne calm = elim (Option-cases ctx.respondent_id) [
  | inl nobody ↦ rw nobody refl
  | inr (r, there) ↦ rw (there, calm) refl
]

-- Under a policy other than the symmetric one, whoever did not complain is told nothing unless the
-- case closes with an outcome that acts on the content.
pub respondent_untold :
    (policy : NotifyPolicy) (kind : CaseKind) (outcome : Option Outcome) (ctx : CaseCtx) (r : ℕ)
    → policy ≢ symmetric
    → (is_closing kind && affects_respondent outcome) ≡ false
    → ctx.complainant_id ≢ some r
    → sent_to r (steward_case_recipients policy kind outcome ctx) ≡ []
unfolding steward_case_recipients
respondent_untold policy kind outcome ctx r ne calm other =
    other_complainant policy kind outcome ctx r ctx.complainant_id _ other
    ∙ ap (λ l. sent_to r l) (silent_respondent policy kind outcome ctx ne calm)
