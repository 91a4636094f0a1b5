-- ===== src/Steward/Cases.antt =====
-- The handlers of apps/api/src/routes/steward.ts that change a case: open, note and escalate; `Steward.Update` is the
-- update.
-- A body that does not validate is none. The newest event of the timeline stands first; its `meta`
-- is not modelled.
use Prim.Native.String.{String}
use philosophy_app.Prelude.{
  ℕ, Bool, true, false, ◌&&◌, Option, none, some, List, ◌∷◌, ◌++◌, ◌==◌, find_row, has_row,
  update_rows, or_else, is_none,
}
use philosophy_app.Http.{
  invalid_body, report_not_found, no_subject, subject_not_found, Result, ok, err, ◌>>=◌, guard,
}
use philosophy_app.Auth.{AuthContext}
use philosophy_app.Steward.{
  SubjectType, entity, comment, message, opened, closed, Outcome, escalated, CaseRow, StewardConfig,
  CaseKind, on_opened, on_closed, StewardNote, CaseCtx, steward_case_recipients, require_steward,
  get_case,
}
use philosophy_app.Steward.Mediation.{Mediation, close_mediation_for_case}

pub data EventKind : Type 0 where
  opening note state_change assignment asymmetry_set outcome_set escalation : EventKind

pub record CaseEvent : Type 0 where
  pub case_id : ℕ
  pub actor_id : ℕ
  pub kind : EventKind
  pub body : Option String

pub record Report : Type 0 where
  pub id : ℕ
  pub project_id : ℕ
  pub reporter_id : Option ℕ
  pub target_type : SubjectType
  pub target_id : ℕ
  pub space_id : Option ℕ
  pub resolved_at : Option ℕ
  pub resolved_by_id : Option ℕ

-- A row of the entities, the comments or the chat messages, with its moderation.
pub record Content : Type 0 where
  pub id : ℕ
  pub project_id : ℕ
  pub is_removed : Bool
  pub moderated_by_id : Option ℕ

pub record Contents : Type 0 where
  pub entities : List Content
  pub comments : List Content
  pub messages : List Content

pub record CaseStore : Type 0 where
  pub cases : List CaseRow
  pub events : List CaseEvent
  pub reports : List Report
  pub contents : Contents
  pub notes : List StewardNote
  pub mediation : Mediation

abbrev pub add_event : ℕ → ℕ → EventKind → Option String → CaseStore → CaseStore
add_event case_id actor_id kind body s = record s {
  events = record { case_id = case_id; actor_id = actor_id; kind = kind; body = body } ∷ s.events;
}

-- `notifyStewardCaseEvent`
abbrev pub notify_case : StewardConfig → CaseKind → Option Outcome → CaseCtx → CaseStore → CaseStore
notify_case cfg kind outcome ctx s = record s {
  notes = steward_case_recipients cfg.notify_policy kind outcome ctx ++ s.notes;
}

abbrev pub ctx_of : CaseRow → Option SubjectType → CaseCtx
ctx_of row subject_type = record {
  case_id = row.id;
  complainant_id = row.complainant_id;
  respondent_id = row.respondent_id;
  subject_type = subject_type;
}

abbrev pub wind_down : StewardConfig → ℕ → ℕ → CaseStore → CaseStore
wind_down cfg project_id case_id s = record s {
  mediation = close_mediation_for_case cfg.mediation_on_close project_id case_id s.mediation;
}

pub record OpenBody : Type 0 where
  pub respondent_id : Option ℕ
  pub complainant_id : Option ℕ
  pub subject_type : Option SubjectType
  pub subject_id : Option ℕ
  pub report_id : Option ℕ
  pub space_id : Option ℕ
  pub summary : Option String

-- What a report supplies where the body is silent.
abbrev pub seeded : OpenBody → Report → OpenBody
seeded body rep = record body {
  subject_type = or_else body.subject_type (some rep.target_type);
  subject_id = or_else body.subject_id (some rep.target_id);
  space_id = or_else body.space_id rep.space_id;
  complainant_id = or_else body.complainant_id rep.reporter_id;
}

unfoldable pub with_report : CaseStore → ℕ → OpenBody → Result OpenBody
with_report s project_id body = elim body.report_id [
  | none ↦ ok body
  | some report_id ↦
      elim (find_row (λ (r : Report). r.project_id == project_id && r.id == report_id) s.reports) [
        | none ↦ err report_not_found
        | some rep ↦ ok (seeded body rep)
      ]
]

abbrev pub text_or_empty : Option String → String
text_or_empty none = ""
text_or_empty (some t) = t

abbrev pub new_case : ℕ → ℕ → ℕ → OpenBody → CaseRow
new_case project_id actor_id fresh body = record {
  id = fresh;
  project_id = project_id;
  report_id = body.report_id;
  complainant_id = body.complainant_id;
  respondent_id = body.respondent_id;
  subject_type = body.subject_type;
  subject_id = body.subject_id;
  space_id = body.space_id;
  summary = text_or_empty body.summary;
  state = opened;
  outcome = none;
  asymmetry = false;
  resolution_note = none;
  opened_by_id = actor_id;
  assigned_to_id = none;
  closed_at = none;
}

abbrev pub parsed_body {ℓ} : {A : Type ℓ} → Option A → Result A
parsed_body none = err invalid_body
parsed_body (some body) = ok body

-- What an opening leaves.
abbrev pub opened_store : CaseStore → StewardConfig → ℕ → ℕ → OpenBody → ℕ → CaseStore
opened_store s cfg project_id actor_id full fresh =
    let row = new_case project_id actor_id fresh full in
    notify_case cfg on_opened none (ctx_of row row.subject_type)
      (add_event fresh actor_id opening full.summary (record s { cases = row ∷ s.cases }))

-- `POST /cases`. `fresh` is the id that the database draws.
unfoldable pub open_case :
    CaseStore → StewardConfig → ℕ → AuthContext → Option OpenBody → ℕ → Result CaseStore
unfolding require_steward with_report
open_case s cfg project_id auth body fresh = do
  allowed ← require_steward auth
  given ← parsed_body body
  full ← with_report s project_id given
  ok (opened_store s cfg project_id auth.user_id full fresh)

abbrev pub is_case : ℕ → ℕ → CaseRow → Bool
is_case project_id id r = r.project_id == project_id && r.id == id

-- `POST /cases/:id/notes`
unfoldable pub post_note : CaseStore → ℕ → AuthContext → ℕ → Option String → Result CaseStore
unfolding require_steward get_case
post_note s project_id auth id body = do
  allowed ← require_steward auth
  text ← parsed_body body
  row ← get_case s.cases project_id id
  ok (add_event row.id auth.user_id note (some text) s)

abbrev pub of_type : SubjectType → Contents → List Content
of_type entity c = c.entities
of_type comment c = c.comments
of_type message c = c.messages

abbrev pub is_content : ℕ → ℕ → Content → Bool
is_content project_id id c = c.project_id == project_id && c.id == id

abbrev pub moderate : ℕ → ℕ → ℕ → List Content → List Content
moderate project_id id actor_id rows =
    update_rows (is_content project_id id)
      (λ c. record c { is_removed = true; moderated_by_id = some actor_id }) rows

abbrev pub remove_subject : SubjectType → ℕ → ℕ → ℕ → Contents → Contents
remove_subject entity p id actor c = record c { entities = moderate p id actor c.entities }
remove_subject comment p id actor c = record c { comments = moderate p id actor c.comments }
remove_subject message p id actor c = record c { messages = moderate p id actor c.messages }

abbrev pub resolve_report : ℕ → Option ℕ → ℕ → ℕ → List Report → List Report
resolve_report project_id none actor_id now rows = rows
resolve_report project_id (some report_id) actor_id now rows =
    update_rows
      (λ (r : Report). r.project_id == project_id && (r.id == report_id && is_none r.resolved_at))
      (λ r. record r { resolved_at = some now; resolved_by_id = some actor_id }) rows

abbrev pub subject_of : CaseRow → Result (SubjectType × ℕ)
subject_of row = elim row.subject_type [
  | none ↦ err no_subject
  | some type ↦ elim row.subject_id [ none ↦ err no_subject | some id ↦ ok (type, id) ]
]

abbrev pub escalate_row : ℕ → String → CaseRow → CaseRow
escalate_row now reason r = record r {
  outcome = some escalated;
  state = closed;
  closed_at = some now;
  resolution_note = some reason;
}

-- What an escalation leaves once the content has been found.
abbrev pub escalated_store :
    CaseStore → StewardConfig → ℕ → ℕ → CaseRow → SubjectType → ℕ → String → ℕ → CaseStore
escalated_store s cfg project_id actor row type subject_id reason now =
    wind_down cfg project_id row.id (
      notify_case cfg on_closed (some escalated) (ctx_of row row.subject_type) (
        add_event row.id actor escalation (some reason) (record s {
          cases = update_rows (is_case project_id row.id) (escalate_row now reason) s.cases;
          contents = remove_subject type project_id subject_id actor s.contents;
          reports = resolve_report project_id row.report_id actor now s.reports;
        })))

-- `POST /cases/:id/escalate`. `reason` is what `body.reason?.trim() || …` comes to.
unfoldable pub escalate :
    CaseStore → StewardConfig → ℕ → AuthContext → ℕ → Option String → ℕ → Result CaseStore
unfolding require_steward get_case
escalate s cfg project_id auth id body now = do
  allowed ← require_steward auth
  reason ← parsed_body body
  row ← get_case s.cases project_id id
  subject ← subject_of row
  there ←
      guard (has_row (is_content project_id subject.1) (of_type subject.0 s.contents))
        subject_not_found
  ok (escalated_store s cfg project_id auth.user_id row subject.0 subject.1 reason now)
