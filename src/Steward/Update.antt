-- ===== src/Steward/Update.antt =====
-- `PATCH /cases/:id` of apps/api/src/routes/steward.ts: state, assignee, asymmetry, outcome and note.
use Prim.Native.String.{String}
use philosophy_app.Prelude.{
  ℕ, Bool, true, false, not, ◌&&◌, ◌||◌, Option, none, some, List, [], ◌∷◌, ◌++◌, ◌==◌,
  if◌then◌else◌, update_rows, or_else, is_some,
}
use philosophy_app.Http.{use_escalate, Result, ok, ◌>>=◌, refuse}
use philosophy_app.Auth.{AuthContext}
use philosophy_app.Steward.{
  CaseState, opened, in_mediation, closed, Outcome, repaired, separated, protective_action,
  escalated, dismissed, CaseRow, StewardConfig, on_mediation, on_closed, require_steward, get_case,
}
use philosophy_app.Steward.Cases.{
  EventKind, state_change, assignment, asymmetry_set, outcome_set, CaseEvent, CaseStore,
  notify_case, ctx_of, wind_down, parsed_body, is_case,
}

-- A field that the body does not name is none; an assignee may be set to null.
pub record PatchBody : Type 0 where
  pub state : Option CaseState
  pub assigned_to_id : Option (Option ℕ)
  pub asymmetry : Option Bool
  pub outcome : Option Outcome
  pub resolution_note : Option String

abbrev pub state_eq : CaseState → CaseState → Bool
state_eq opened opened = true
state_eq in_mediation in_mediation = true
state_eq closed closed = true
state_eq _ _ = false

abbrev pub outcome_eq : Outcome → Outcome → Bool
outcome_eq repaired repaired = true
outcome_eq separated separated = true
outcome_eq protective_action protective_action = true
outcome_eq escalated escalated = true
outcome_eq dismissed dismissed = true
outcome_eq _ _ = false

abbrev pub same_outcome : Option Outcome → Outcome → Bool
same_outcome none o = false
same_outcome (some p) o = outcome_eq p o

abbrev pub same_id : Option ℕ → Option ℕ → Bool
same_id none none = true
same_id (some a) (some b) = a == b
same_id _ _ = false

abbrev pub bool_eq : Bool → Bool → Bool
bool_eq true b = b
bool_eq false b = not b

abbrev pub sets_assignee : PatchBody → CaseRow → Bool
sets_assignee body row = elim body.assigned_to_id [
  | none ↦ false
  | some a ↦ not (same_id a row.assigned_to_id)
]

abbrev pub sets_asymmetry : PatchBody → CaseRow → Bool
sets_asymmetry body row = elim body.asymmetry [
  | none ↦ false
  | some b ↦ not (bool_eq b row.asymmetry)
]

abbrev pub sets_outcome : PatchBody → CaseRow → Bool
sets_outcome body row = elim body.outcome [
  | none ↦ false
  | some o ↦ not (same_outcome row.outcome o)
]

-- The `else` of the outcome.
abbrev pub sets_state : PatchBody → CaseRow → Bool
sets_state body row =
    not (sets_outcome body row)
    && elim body.state [ none ↦ false | some s ↦ not (state_eq s row.state) ]

abbrev pub sets_something : PatchBody → CaseRow → Bool
sets_something body row =
    sets_assignee body row
    || (sets_asymmetry body row
        || (is_some body.resolution_note || (sets_outcome body row || sets_state body row)))

abbrev pub given {ℓ} : {A : Type ℓ} → Option A → A → A
given none b = b
given (some a) b = a

abbrev pub is_closed : CaseState → Bool
is_closed closed = true
is_closed _ = false

abbrev pub is_mediated : CaseState → Bool
is_mediated in_mediation = true
is_mediated _ = false

-- The columns of `set`, and those that it does not name.
abbrev pub patched : PatchBody → CaseRow → ℕ → CaseRow → CaseRow
patched body row now r = record r {
  assigned_to_id =
      if sets_assignee body row
      then given body.assigned_to_id r.assigned_to_id
      else r.assigned_to_id;
  asymmetry = if sets_asymmetry body row then given body.asymmetry r.asymmetry else r.asymmetry;
  resolution_note = or_else body.resolution_note r.resolution_note;
  outcome = if sets_outcome body row then body.outcome else r.outcome;
  state =
      if sets_outcome body row
      then closed
      else (if sets_state body row then given body.state r.state else r.state);
  closed_at =
      if sets_outcome body row
      then some now
      else (if sets_state body row
          then (if is_closed (given body.state r.state) then some now else none)
          else r.closed_at);
}

abbrev pub event_if : Bool → ℕ → ℕ → EventKind → Option String → List CaseEvent
event_if b case_id actor_id kind body =
    if b
    then record { case_id = case_id; actor_id = actor_id; kind = kind; body = body } ∷ []
    else []

-- The events of one update, the newest first.
abbrev pub patch_events : PatchBody → CaseRow → ℕ → List CaseEvent
patch_events body row actor =
    event_if (sets_outcome body row) row.id actor outcome_set body.resolution_note
    ++ (event_if (sets_state body row) row.id actor state_change none
        ++ (event_if (sets_asymmetry body row) row.id actor asymmetry_set none
            ++ event_if (sets_assignee body row) row.id actor assignment none))

-- The notifications, and the wind-down of a case that closes with an outcome.
abbrev pub announce : StewardConfig → ℕ → PatchBody → CaseRow → CaseStore → CaseStore
announce cfg project_id body row s =
    if sets_outcome body row
    then wind_down cfg project_id row.id
        (notify_case cfg on_closed body.outcome (ctx_of row row.subject_type) s)
    else (if sets_state body row && is_mediated (given body.state row.state)
        then notify_case cfg on_mediation none (ctx_of row none) s
        else s)

abbrev pub patched_store : CaseStore → StewardConfig → ℕ → ℕ → PatchBody → CaseRow → ℕ → CaseStore
patched_store s cfg project_id actor body row now = announce cfg project_id body row (record s {
  cases = update_rows (is_case project_id row.id) (patched body row now) s.cases;
  events = patch_events body row actor ++ s.events;
})

abbrev pub is_escalated : Option Outcome → Bool
is_escalated (some escalated) = true
is_escalated _ = false

unfoldable pub patch_case :
    CaseStore → StewardConfig → ℕ → AuthContext → ℕ → Option PatchBody → ℕ → Result CaseStore
unfolding require_steward get_case
patch_case s cfg project_id auth id body now = do
  allowed ← require_steward auth
  patch ← parsed_body body
  other ← refuse (is_escalated patch.outcome) use_escalate
  row ← get_case s.cases project_id id
  ok (
      if sets_something patch row
      then patched_store s cfg project_id auth.user_id patch row now
      else s)
