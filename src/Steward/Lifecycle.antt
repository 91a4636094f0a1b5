-- ===== src/Steward/Lifecycle.antt =====
-- What the handlers of apps/api/src/routes/steward.ts keep of a case, its timeline and the content.
use Prim.Native.String.{String}
use mathlib.Core.Path.{subst}
use philosophy_app.Prelude.{
  ℕ, ◌≡◌, refl, sym, ◌⊎◌, inl, inr, Bool, true, false, ◌&&◌, Option, some, List, [], ◌∷◌, ◌++◌,
  Bool-cases, has_row, is_some, update_rows, All, All-update_rows, if◌then◌else◌,
}
use philosophy_app.Http.{ok, guard, refuse, bind-ok, subject_not_found, use_escalate}
use philosophy_app.Auth.{AuthContext}
use philosophy_app.Steward.{SubjectType, CaseRow, StewardConfig, require_steward, get_case}
use philosophy_app.Steward.Cases.{
  EventKind, escalation, CaseEvent, CaseStore, OpenBody, with_report, parsed_body, open_case,
  opened_store, add_event, is_case, post_note, of_type, is_content, subject_of, escalate_row,
  escalated_store, escalate,
}
use philosophy_app.Steward.Update.{
  PatchBody, sets_outcome, sets_state, sets_something, given, is_closed, is_mediated, patched,
  patch_events, announce, patched_store, is_escalated, patch_case,
}

-- A request on the cases of a project that succeeds.
pub data Step (s t : CaseStore) : Type 0 where
  started :
      (cfg : StewardConfig) (p : ℕ) (auth : AuthContext) (body : Option OpenBody) (fresh : ℕ)
      → open_case s cfg p auth body fresh ≡ ok t
      → Step s t
  noted :
      (p : ℕ) (auth : AuthContext) (id : ℕ) (body : Option String)
      → post_note s p auth id body ≡ ok t
      → Step s t
  updated :
      (cfg : StewardConfig) (p : ℕ) (auth : AuthContext) (id : ℕ) (body : Option PatchBody)
      (now : ℕ)
      → patch_case s cfg p auth id body now ≡ ok t
      → Step s t
  took_down :
      (cfg : StewardConfig) (p : ℕ) (auth : AuthContext) (id : ℕ) (body : Option String) (now : ℕ)
      → escalate s cfg p auth id body now ≡ ok t
      → Step s t

pub data Reach (s : CaseStore) : CaseStore → Type 0 where
  here : Reach s s
  next : {t u : CaseStore} → Reach s t → Step t u → Reach s u

-- A case has a closing date exactly while it is closed.
abbrev pub IsDated : CaseRow → Type 0
IsDated r = is_closed r.state ≡ is_some r.closed_at

abbrev pub is_escalation : CaseEvent → Bool
is_escalation e = elim e.kind [ escalation ↦ true | _ ↦ false ]

-- What a step leaves: dated cases, a timeline that has grown, and content that changed only where an
-- escalation was recorded.
pub record Effect (s t : CaseStore) : Type 0 where
  pub dated : All IsDated s.cases → All IsDated t.cases
  pub added : List CaseEvent
  pub appended : t.events ≡ added ++ s.events
  pub removal : (t.contents ≡ s.contents) ⊎ (has_row is_escalation added ≡ true)

none-Effect : (s : CaseStore) → Effect s s
none-Effect s = record { dated = λ h. h; added = []; appended = refl; removal = inl refl }

open-Effect :
    (s t : CaseStore) (cfg : StewardConfig) (p : ℕ) (auth : AuthContext) (body : Option OpenBody)
    (fresh : ℕ)
    → open_case s cfg p auth body fresh ≡ ok t
    → Effect s t
unfolding open_case
open-Effect s t cfg p auth body fresh h =
    let (u, allowed, h1) = bind-ok {A = Unit} (require_steward auth) _ h in
    let (given_body, valid, h2) = bind-ok (parsed_body body) _ h1 in
    let (full, seeded_from, h3) = bind-ok (with_report s p given_body) _ h2 in
    let same : opened_store s cfg p auth.user_id full fresh ≡ t = cc h3 in
    subst (Effect s) same
      (record { dated = λ old. (refl, old); added = _ ∷ []; appended = refl; removal = inl refl })

note-Effect :
    (s t : CaseStore) (p : ℕ) (auth : AuthContext) (id : ℕ) (body : Option String)
    → post_note s p auth id body ≡ ok t
    → Effect s t
unfolding post_note
note-Effect s t p auth id body h =
    let (u, allowed, h1) = bind-ok {A = Unit} (require_steward auth) _ h in
    let (text, valid, h2) = bind-ok (parsed_body body) _ h1 in
    let (row, found, h3) = bind-ok (get_case s.cases p id) _ h2 in
    let same : add_event row.id auth.user_id EventKind.note (some text) s ≡ t = cc h3 in
    subst (Effect s) same
      (record { dated = λ old. old; added = _ ∷ []; appended = refl; removal = inl refl })

-- What an escalation that succeeds has read and left.
pub escalate_facts :
    (s t : CaseStore) (cfg : StewardConfig) (p : ℕ) (auth : AuthContext) (id : ℕ)
    (body : Option String) (now : ℕ)
    → escalate s cfg p auth id body now ≡ ok t
    → (row : CaseRow) × (type : SubjectType) × (subject_id : ℕ) × (reason : String) × (get_case
          s.cases p id
        ≡ ok row)
      × (subject_of row ≡ ok (type, subject_id))
      × (escalated_store s cfg p auth.user_id row type subject_id reason now ≡ t)
unfolding escalate
escalate_facts s t cfg p auth id body now h =
    let (u, allowed, h1) = bind-ok {A = Unit} (require_steward auth) _ h in
    let (reason, valid, h2) = bind-ok (parsed_body body) _ h1 in
    let (row, found, h3) = bind-ok (get_case s.cases p id) _ h2 in
    let (subject, named, h4) = bind-ok {A = SubjectType × ℕ} (subject_of row) _ h3 in
    let (v, there, h5) =
      bind-ok {A = Unit}
        (guard (has_row (is_content p subject.1) (of_type subject.0 s.contents)) subject_not_found)
        _ h4 in
    (row, subject.0, subject.1, reason, found, named, cc h5)

escalate-Effect :
    (s t : CaseStore) (cfg : StewardConfig) (p : ℕ) (auth : AuthContext) (id : ℕ)
    (body : Option String) (now : ℕ)
    → escalate s cfg p auth id body now ≡ ok t
    → Effect s t
escalate-Effect s t cfg p auth id body now h =
    let (row, type, subject_id, reason, found, named, same) =
      escalate_facts s t cfg p auth id body now h in
    subst (Effect s) same (record {
      dated = λ old.
          All-update_rows IsDated (is_case p row.id) (escalate_row now reason) s.cases
            (λ x e k. refl) old;
      added = _ ∷ [];
      appended = refl;
      removal = inr refl;
    })

patched-IsDated :
    (body : PatchBody) (row : CaseRow) (now : ℕ) (r : CaseRow)
    → IsDated r
    → IsDated (patched body row now r)
patched-IsDated body row now r old = elim (Bool-cases (sets_outcome body row)) [
  | inl closes ↦ rw closes refl
  | inr open_still ↦ elim (Bool-cases (sets_state body row)) [
    | inl moves ↦ elim (Bool-cases (is_closed (given body.state r.state))) [
      | inl shut ↦ rw (moves, open_still, shut) refl
      | inr ajar ↦ rw (moves, open_still, ajar) refl
    ]
    | inr stays ↦ rw (stays, open_still) old
  ]
]

announce_keeps :
    (cfg : StewardConfig) (p : ℕ) (body : PatchBody) (row : CaseRow) (s : CaseStore)
    → ((announce cfg p body row s).cases ≡ s.cases)
      × ((announce cfg p body row s).events ≡ s.events)
      × ((announce cfg p body row s).contents ≡ s.contents)
announce_keeps cfg p body row s = elim (Bool-cases (sets_outcome body row)) [
  | inl closes ↦ rw closes (refl, refl, refl)
  | inr open_still ↦
      elim (Bool-cases (sets_state body row && is_mediated (given body.state row.state))) [
        | inl mediates ↦ rw (mediates, open_still) (refl, refl, refl)
        | inr quiet ↦ rw (quiet, open_still) (refl, refl, refl)
      ]
]

patched-Effect :
    (s : CaseStore) (cfg : StewardConfig) (p actor : ℕ) (body : PatchBody) (row : CaseRow) (now : ℕ)
    → Effect s (patched_store s cfg p actor body row now)
patched-Effect s cfg p actor body row now =
    let (cases, events, contents) = announce_keeps cfg p body row (record s {
      cases = update_rows (is_case p row.id) (patched body row now) s.cases;
      events = patch_events body row actor ++ s.events;
    }) in
    record {
      dated = λ old. subst (All IsDated) (sym cases) (
          All-update_rows IsDated (is_case p row.id) (patched body row now) s.cases
            (λ x e k. patched-IsDated body row now x k) old);
      added = patch_events body row actor;
      appended = events;
      removal = inl contents;
    }

patch-Effect :
    (s t : CaseStore) (cfg : StewardConfig) (p : ℕ) (auth : AuthContext) (id : ℕ)
    (body : Option PatchBody) (now : ℕ)
    → patch_case s cfg p auth id body now ≡ ok t
    → Effect s t
unfolding patch_case
patch-Effect s t cfg p auth id body now h =
    let (u, allowed, h1) = bind-ok {A = Unit} (require_steward auth) _ h in
    let (patch, valid, h2) = bind-ok (parsed_body body) _ h1 in
    let (v, other, h3) =
      bind-ok {A = Unit} (refuse (is_escalated patch.outcome) use_escalate) _ h2 in
    let (row, found, h4) = bind-ok (get_case s.cases p id) _ h3 in
    let same : (if sets_something patch row
          then patched_store s cfg p auth.user_id patch row now
          else s)
        ≡ t =
      cc h4 in
    subst (Effect s) same (elim (Bool-cases (sets_something patch row)) [
      | inl some_change ↦ rw some_change (patched-Effect s cfg p auth.user_id patch row now)
      | inr no_change ↦ rw no_change (none-Effect s)
    ])

Step-Effect : {s t : CaseStore} → Step s t → Effect s t
Step-Effect {s} {t} (started cfg p auth body fresh h) = open-Effect s t cfg p auth body fresh h
Step-Effect {s} {t} (noted p auth id body h) = note-Effect s t p auth id body h
Step-Effect {s} {t} (updated cfg p auth id body now h) = patch-Effect s t cfg p auth id body now h
Step-Effect {s} {t} (took_down cfg p auth id body now h) =
    escalate-Effect s t cfg p auth id body now h

-- However the requests on cases follow each other, if every case has a closing date exactly while it
-- is closed, then the same holds afterwards.
pub Reach-IsDated : {s t : CaseStore} → Reach s t → All IsDated s.cases → All IsDated t.cases
Reach-IsDated here h = h
Reach-IsDated (next r st) h = (Step-Effect st).dated (Reach-IsDated r h)

-- A request on the cases only adds to the timeline, and changes content only if it adds an
-- escalation.
pub timeline_grows :
    {s t : CaseStore}
    → Step s t
    → (added : List CaseEvent) × (t.events ≡ added ++ s.events)
      × ((t.contents ≡ s.contents) ⊎ (has_row is_escalation added ≡ true))
timeline_grows st = let effect = Step-Effect st in (effect.added, effect.appended, effect.removal)
