-- ===== src/Tests/Steward.antt =====
-- The theorems on steward cases, on one case about a comment.
use philosophy_app.Prelude.{
  ℕ, ◌≡◌, ◌⊎◌, refl, Option, none, some, List, [], ◌∷◌, ◌++◌, arith, true, false, All, has_row,
}
use philosophy_app.Http.{ok}
use philosophy_app.Auth.{AuthContext, TokenRole}
use philosophy_app.Steward.{
  SubjectType, CaseState, Outcome, CaseRow, NotifyPolicy, MediationMode, MediationOnClose,
  StewardConfig, CaseKind, CaseCtx, get_case, steward_case_recipients,
}
use philosophy_app.Steward.Cases.{
  CaseEvent, EventKind, Content, CaseStore, escalated_store, escalate, post_note, add_event,
  is_case, is_content, of_type, subject_of,
}
use philosophy_app.Steward.Privacy.{
  sent_to, accused_by, recipients_hide_complainant, respondent_untold,
}
use philosophy_app.Steward.Mediation.{Mediation, Channel, close_mediation_for_case}
use philosophy_app.Steward.WindDown.{of_case, wind_down_locks}
use philosophy_app.Steward.Lifecycle.{
  here, next, took_down, noted, IsDated, is_escalation, Reach-IsDated, timeline_grows,
}
use philosophy_app.Steward.Outcomes.{escalate_removes}

abbrev steward_auth : AuthContext
steward_auth = record {
  user_id = 9;
  project_id = some 1;
  role = TokenRole.visitor;
  is_operator = false;
  is_project_owner = false;
  is_project_admin = false;
  is_steward = true;
  settings_readonly = false;
}

abbrev config : StewardConfig
config = record {
  notify_policy = NotifyPolicy.power_aware;
  mediation_mode = MediationMode.hybrid;
  mediation_on_close = MediationOnClose.archive_read_only;
}

abbrev quarrel : Option Outcome → CaseRow
quarrel outcome = record {
  id = 20;
  project_id = 1;
  report_id = none;
  complainant_id = some 2;
  respondent_id = some 3;
  subject_type = some SubjectType.comment;
  subject_id = some 30;
  space_id = none;
  summary = "";
  state = CaseState.opened;
  outcome = outcome;
  asymmetry = false;
  resolution_note = none;
  opened_by_id = 9;
  assigned_to_id = none;
  closed_at = none;
}

abbrev ctx : CaseCtx
ctx = record {
  case_id = 20;
  complainant_id = some 2;
  respondent_id = some 3;
  subject_type = some SubjectType.comment;
}

abbrev caseload : Option Outcome → CaseStore
caseload outcome = record {
  cases = quarrel outcome ∷ [];
  events = [];
  reports = [];
  contents = record {
    entities = [];
    comments = record { id = 30; project_id = 1; is_removed = false; moderated_by_id = none } ∷ [];
    messages = [];
  };
  notes = [];
  mediation = record { channels = []; members = []; system_messages = [] };
}

abbrev taken_down : CaseStore
taken_down =
    escalated_store (caseload none) config 1 9 (quarrel none) SubjectType.comment 30 "harm" 50

abbrev remarked : CaseStore
remarked = add_event 20 9 EventKind.note (some "called both") taken_down

recipients_hide_complainant_example :
    sent_to 3 (
      steward_case_recipients NotifyPolicy.symmetric CaseKind.on_opened none
        (accused_by (some 2) ctx))
    ≡ sent_to 3 (
        steward_case_recipients NotifyPolicy.symmetric CaseKind.on_opened none
          (accused_by (some 4) ctx))
recipients_hide_complainant_example =
    recipients_hide_complainant NotifyPolicy.symmetric CaseKind.on_opened none ctx 3 (some 2)
      (some 4) (λ e. ground arith) (λ e. ground arith)

respondent_untold_example :
    sent_to 3 (steward_case_recipients NotifyPolicy.power_aware CaseKind.on_opened none ctx) ≡ []
respondent_untold_example =
    respondent_untold NotifyPolicy.power_aware CaseKind.on_opened none ctx 3 (λ e. cc) refl
      (λ e. ground arith)

Reach-IsDated_example : All IsDated remarked.cases
unfolding escalate post_note
Reach-IsDated_example =
    Reach-IsDated {s = caseload none} {t = remarked}
      (next {t = taken_down} {u = remarked}
        (next {t = caseload none} {u = taken_down} here
          (took_down config 1 steward_auth 20 (some "harm") 50 refl))
        (noted 1 steward_auth 20 (some "called both") refl))
      (refl, tt)

timeline_grows_example :
    (added : List CaseEvent) × (taken_down.events ≡ added ++ [])
    × ((taken_down.contents ≡ (caseload none).contents) ⊎ (has_row is_escalation added ≡ true))
unfolding escalate
timeline_grows_example =
    timeline_grows {s = caseload none} {t = taken_down}
      (took_down config 1 steward_auth 20 (some "harm") 50 refl)

escalate_removes_example :
    (row : CaseRow) × (type : SubjectType) × (subject_id : ℕ) × (get_case (caseload none).cases 1 20
      ≡ ok row)
    × (subject_of row ≡ ok (type, subject_id))
    × All
        (λ (c : Content). is_content 1 subject_id c ≡ true → c.is_removed ≡ true)
        (of_type type taken_down.contents)
    × All
        (λ (r : CaseRow).
          is_case 1 row.id r ≡ true
          → (r.state ≡ CaseState.closed) × (r.outcome ≡ some Outcome.escalated))
        taken_down.cases
unfolding escalate
escalate_removes_example =
    escalate_removes (caseload none) taken_down config 1 steward_auth 20 (some "harm") 50 refl

abbrev rooms : Mediation
rooms = record {
  channels = record { id = 70; project_id = 1; steward_case_id = 20; admins_only = false } ∷ [];
  members = record { conversation_id = 70; user_id = 3; is_admin = false; is_active = true } ∷ [];
  system_messages = [];
}

wind_down_locks_example :
    All
      (λ (c : Channel). of_case 1 20 c ≡ true → c.admins_only ≡ true)
      (close_mediation_for_case MediationOnClose.lock_leave 1 20 rooms).channels
wind_down_locks_example = wind_down_locks MediationOnClose.lock_leave 1 20 rooms (λ e. cc)
