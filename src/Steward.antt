-- ===== src/Steward.antt =====
-- Steward cases: apps/api/src/routes/steward.ts, the notification policy of apps/api/src/lib/
-- notifications.ts and the settings of apps/api/src/lib/steward-config.ts. `Steward.Mediation` is
-- apps/api/src/lib/mediation.ts, `Steward.Cases` holds the handlers.
pub mod Mediation
pub mod Cases
pub mod Update
pub mod Privacy
pub mod WindDown
pub mod Lifecycle
pub mod Outcomes
use Prim.Native.String.{String}
use philosophy_app.Prelude.{
  ℕ, Bool, true, false, not, ◌&&◌, ◌||◌, Option, none, some, List, [], ◌∷◌, ◌++◌, map, ◌==◌,
  if◌then◌else◌, find_row,
}
use philosophy_app.Http.{
  Failure, steward_forbidden, case_not_found, Result, ok, err, ◌>>=◌, ◌>>◌, guard,
}
use philosophy_app.Auth.{AuthContext}
use philosophy_app.Roles.{is_project_admin}

pub data SubjectType : Type 0 where
  entity comment message : SubjectType

pub data CaseState : Type 0 where
  opened in_mediation closed : CaseState

pub data Outcome : Type 0 where
  repaired separated protective_action escalated dismissed : Outcome

pub record CaseRow : Type 0 where
  pub id : ℕ
  pub project_id : ℕ
  pub report_id : Option ℕ
  pub complainant_id : Option ℕ
  pub respondent_id : Option ℕ
  pub subject_type : Option SubjectType
  pub subject_id : Option ℕ
  pub space_id : Option ℕ
  pub summary : String
  pub state : CaseState
  pub outcome : Option Outcome
  pub asymmetry : Bool
  pub resolution_note : Option String
  pub opened_by_id : ℕ
  pub assigned_to_id : Option ℕ
  pub closed_at : Option ℕ

pub data NotifyPolicy : Type 0 where
  power_aware symmetric resolution_only : NotifyPolicy

pub data MediationMode : Type 0 where
  caucus hybrid : MediationMode

pub data MediationOnClose : Type 0 where
  archive_read_only lock_leave leave_open : MediationOnClose

pub record StewardConfig : Type 0 where
  pub notify_policy : NotifyPolicy
  pub mediation_mode : MediationMode
  pub mediation_on_close : MediationOnClose

-- The `kind` of a case's announcement: opened, in mediation, closed.
pub data CaseKind : Type 0 where
  on_opened on_mediation on_closed : CaseKind

pub data NoteType : Type 0 where
  case_opened case_in_mediation case_resolved content_removed mediation_invite : NoteType

-- A notification. The last four fields are its metadata; a field that it does not carry is none.
pub record StewardNote : Type 0 where
  pub recipient_id : ℕ
  pub type : NoteType
  pub case_id : Option ℕ
  pub outcome : Option Outcome
  pub subject_type : Option SubjectType
  pub conversation_id : Option ℕ

-- `StewardCaseCtx`
pub record CaseCtx : Type 0 where
  pub case_id : ℕ
  pub complainant_id : Option ℕ
  pub respondent_id : Option ℕ
  pub subject_type : Option SubjectType

abbrev pub case_type : CaseKind → NoteType
case_type on_opened = case_opened
case_type on_mediation = case_in_mediation
case_type on_closed = case_resolved

abbrev pub affects_respondent : Option Outcome → Bool
affects_respondent (some escalated) = true
affects_respondent (some protective_action) = true
affects_respondent _ = false

abbrev pub is_closing : CaseKind → Bool
is_closing on_closed = true
is_closing _ = false

abbrev pub complainant_stage : NotifyPolicy → CaseKind → Bool
complainant_stage resolution_only kind = is_closing kind
complainant_stage _ kind = true

abbrev pub case_note : CaseCtx → CaseKind → Option Outcome → ℕ → StewardNote
case_note ctx kind outcome recipient_id = record {
  recipient_id = recipient_id;
  type = case_type kind;
  case_id = some ctx.case_id;
  outcome = outcome;
  subject_type = none;
  conversation_id = none;
}

unfoldable pub complainant_notes :
    NotifyPolicy → CaseKind → Option Outcome → CaseCtx → List StewardNote
complainant_notes policy kind outcome ctx = elim ctx.complainant_id [
  | none ↦ []
  | some c ↦ if complainant_stage policy kind then case_note ctx kind outcome c ∷ [] else []
]

-- The content-framed notice: no case and no complainant.
abbrev pub content_note : CaseCtx → Option Outcome → ℕ → StewardNote
content_note ctx outcome recipient_id = record {
  recipient_id = recipient_id;
  type = content_removed;
  case_id = none;
  outcome = outcome;
  subject_type = ctx.subject_type;
  conversation_id = none;
}

abbrev pub framed_content : CaseKind → Option Outcome → CaseCtx → ℕ → List StewardNote
framed_content kind outcome ctx r =
    if is_closing kind && affects_respondent outcome then content_note ctx outcome r ∷ [] else []

unfoldable pub respondent_notes :
    NotifyPolicy → CaseKind → Option Outcome → CaseCtx → List StewardNote
respondent_notes symmetric kind outcome ctx = elim ctx.respondent_id [
  | none ↦ []
  | some r ↦ case_note ctx kind outcome r ∷ []
]
respondent_notes power_aware kind outcome ctx = elim ctx.respondent_id [
  | none ↦ []
  | some r ↦ framed_content kind outcome ctx r
]
respondent_notes resolution_only kind outcome ctx = elim ctx.respondent_id [
  | none ↦ []
  | some r ↦ framed_content kind outcome ctx r
]

-- `stewardCaseRecipients`
unfoldable pub steward_case_recipients :
    NotifyPolicy → CaseKind → Option Outcome → CaseCtx → List StewardNote
unfolding complainant_notes respondent_notes
steward_case_recipients policy kind outcome ctx =
    complainant_notes policy kind outcome ctx ++ respondent_notes policy kind outcome ctx

unfoldable pub require_steward : AuthContext → Result (Unit {0})
unfolding is_project_admin
require_steward a = guard (is_project_admin a || a.is_steward) steward_forbidden

unfoldable pub get_case : List CaseRow → ℕ → ℕ → Result CaseRow
get_case cases project_id id =
    elim (find_row (λ (r : CaseRow). r.project_id == project_id && r.id == id) cases) [
      | none ↦ err case_not_found
      | some row ↦ ok row
    ]
