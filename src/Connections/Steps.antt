-- ===== src/Connections/Steps.antt =====
-- The handlers of apps/api/src/routes/connections.ts as steps: what each does to the rows, and to
-- whose.
use mathlib.Core.Path.{subst}
use Prim.Native.String.{String}
use philosophy_app.Prelude.{
  ℕ, ◌≡◌, refl, inl, inr, Bool, true, false, ◌&&◌, Option, none, some, List, [], ◌∷◌, arith, ◌==◌,
  ==_refl, Bool-cases, Option-cases, find_row, has_row, find_row_sound, All, select_rows,
  All-of_unique,
}
use philosophy_app.Http.{ok}
use philosophy_app.Roles.{UuidText}
use philosophy_app.Connections.{
  Status, pending, connected, declined, Connection, Profile, Store, Reply, Action, Target, missing,
  malformed, uuid_text, joins, by_id, other_than, request_existing, insert_request, request_between,
  post_connection, post_requests, delete_connection, accept_connection, decline_connection,
  delete_connection_by_id, declinable, touches, is_connected,
}
use philosophy_app.Connections.Invariant.{IsSound, constraints-ne}
use philosophy_app.Connections.Changes.{
  Own, Change, unchanged, responded, deleted, reasked, inserted, foreign, Change-IsSound,
  Change-foreign,
}

-- A row found among those of a user is the only one of its id.
Own-row :
    (u : ℕ) (g : Connection → Bool) (rows : List Connection) {r : Connection}
    → IsSound rows
    → find_row g rows ≡ some r
    → touches u r ≡ true
    → Own u (by_id r.id) rows
Own-row u g rows {r} h found mine =
    All-of_unique (λ x. touches u x ≡ true) (by_id r.id) g rows {x = r} (h.one_id r.id) found
      (==_refl r.id) mine

joins-touches : (p u t : ℕ) (r : Connection) → joins p u t r ≡ true → touches u r ≡ true
joins-touches p u t r h = ground arith

All-true : (P : Connection → Type 0) (xs : List Connection) → ((x : Connection) → P x) → All P xs
All-true P [] f = tt
All-true P (x ∷ xs) f = (f x, All-true P xs f)

me_id :
    (s : Store) (user_id : ℕ) {self : Profile}
    → find_row (λ (p : Profile). p.id == user_id) s.profiles ≡ some self
    → self.id ≡ user_id
me_id s user_id {self} found =
    let hit : (self.id == user_id) ≡ true =
      find_row_sound (λ (p : Profile). p.id == user_id) s.profiles {x = self} found in
    ground arith

existing-Change :
    (s : Store) (self : Profile) (target : ℕ) (m : Option String) (now : ℕ) (r : Connection)
    {t : Store} {rep : Reply}
    → IsSound s.connections
    → find_row (joins self.project_id self.id target) s.connections ≡ some r
    → request_existing s self target m now r ≡ ok (t, rep)
    → Change self.id s.connections t.connections
unfolding request_existing
existing-Change s self target m now r {t} sound found h = go r.status refl
  where
    own : Own self.id (by_id r.id) s.connections
    own = Own-row self.id (joins self.project_id self.id target) s.connections {r = r} sound found (
        joins-touches self.project_id self.id target r
          (find_row_sound (joins self.project_id self.id target) s.connections {x = r} found))

    go : (status : Status) → r.status ≡ status → Change self.id s.connections t.connections
    go connected e = absurd (ground arith)
    go pending e = responded (by_id r.id) connected now own (ground arith)
    go declined e =
        reasked self.project_id target m now r own
          (constraints-ne s self.project_id self.id target (other_than r.id) (ground arith)) found
          (ground arith)

insert-Change :
    (s : Store) (self : Profile) (target : ℕ) (m : Option String) (now fresh : ℕ) {t : Store}
    {rep : Reply}
    → has_row (by_id fresh) s.connections ≡ false
    → find_row (joins self.project_id self.id target) s.connections ≡ none
    → insert_request s self target m now fresh ≡ ok (t, rep)
    → Change self.id s.connections t.connections
unfolding insert_request
insert-Change s self target m now fresh new_id free h =
    inserted
      (record {
        id = fresh;
        project_id = self.project_id;
        requester_id = self.id;
        addressee_id = target;
        status = pending;
        message = m;
        created_at = now;
        responded_at = none;
      })
      refl (constraints-ne s self.project_id self.id target (λ _. true) (ground arith)) new_id free
      (ground arith)

request-Change :
    (s : Store) (self : Profile) (target : ℕ) (m : Option String) (now fresh : ℕ) {t : Store}
    {rep : Reply}
    → IsSound s.connections
    → has_row (by_id fresh) s.connections ≡ false
    → request_between s self target m now fresh ≡ ok (t, rep)
    → Change self.id s.connections t.connections
unfolding request_between
request-Change s self target m now fresh {t} {rep} sound new_id h =
    elim (Option-cases (find_row (joins self.project_id self.id target) s.connections)) [
      | inl free ↦
          insert-Change s self target m now fresh {t = t} {rep = rep} new_id free
            (rw (free, request_between) at h)
      | inr (r, found) ↦
          existing-Change s self target m now r {t = t} {rep = rep} sound found
            (rw (found, request_between) at h)
    ]

-- A request that succeeds is one of the user's own profile.
abbrev RequestOf : Store → ℕ → ℕ → ℕ → Store × Reply → Type 0
RequestOf s user_id now fresh x =
    (self : Profile) × (target : ℕ) × (m : Option String) × (self.id ≡ user_id)
    × (request_between s self target m now fresh ≡ ok x)

post_connection_request :
    (s : Store) (user_id : ℕ) (param : Option UuidText) (body : Option (Option String))
    (now fresh : ℕ) {x : Store × Reply}
    → post_connection s user_id param body now fresh ≡ ok x
    → RequestOf s user_id now fresh x
unfolding post_connection
post_connection_request s user_id none body now fresh h = absurd (ground arith)
post_connection_request s user_id (some target) none now fresh h = absurd (ground arith)
post_connection_request s user_id (some target) (some m) now fresh h =
    elim (Option-cases (find_row (λ (p : Profile). p.id == user_id) s.profiles)) [
      | inl stranger ↦ absurd (ground arith)
      | inr (self, found) ↦
          (self, target.uuid, m, me_id s user_id {self = self} found, ground arith)
    ]

post_requests_request :
    (s : Store) (user_id : ℕ) (target : Target) (body : Option (Option String)) (now fresh : ℕ)
    {x : Store × Reply}
    → post_requests s user_id target body now fresh ≡ ok x
    → RequestOf s user_id now fresh x
unfolding post_requests
post_requests_request s user_id missing body now fresh h = absurd (ground arith)
post_requests_request s user_id malformed body now fresh h = absurd (ground arith)
post_requests_request s user_id (uuid_text target) none now fresh h = absurd (ground arith)
post_requests_request s user_id (uuid_text target) (some m) now fresh h =
    elim (Option-cases (find_row (λ (p : Profile). p.id == user_id) s.profiles)) [
      | inl stranger ↦ absurd (ground arith)
      | inr (self, found) ↦
          (self, target.uuid, m, me_id s user_id {self = self} found, ground arith)
    ]

RequestOf-Change :
    (s : Store) (user_id now fresh : ℕ) {t : Store} {rep : Reply}
    → IsSound s.connections
    → has_row (by_id fresh) s.connections ≡ false
    → RequestOf s user_id now fresh (t, rep)
    → Change user_id s.connections t.connections
RequestOf-Change s user_id now fresh {t} {rep} sound new_id (self, target, m, own, h) =
    subst (λ u. Change u s.connections t.connections) own
      (request-Change s self target m now fresh {t = t} {rep = rep} sound new_id h)

delete_connection-Change :
    (s : Store) (user_id : ℕ) (param : Option UuidText) {t : Store} {i : ℕ} {a : Action}
    → IsSound s.connections
    → delete_connection s user_id param ≡ ok (t, i, a)
    → Change user_id s.connections t.connections
unfolding delete_connection
delete_connection-Change s user_id none {t} sound h = absurd (ground arith)
delete_connection-Change s user_id (some target) {t} sound h =
    elim (Option-cases (find_row (λ (p : Profile). p.id == user_id) s.profiles)) [
      | inl stranger ↦ absurd (ground arith)
      | inr (self, known) ↦
          elim (Option-cases (find_row (joins self.project_id self.id target.uuid) s.connections)) [
            | inl missed ↦ absurd (ground arith)
            | inr (r, found) ↦
                subst (λ u. Change u s.connections t.connections)
                  (me_id s user_id {self = self} known)
                  (deleted (by_id r.id)
                    (Own-row self.id (joins self.project_id self.id target.uuid) s.connections
                      {r = r} sound found
                      (joins-touches self.project_id self.id target.uuid r (
                        find_row_sound (joins self.project_id self.id target.uuid) s.connections
                          {x = r} found)))
                    (ground arith))
          ]
    ]

touching_row :
    (s : Store) (user_id id : ℕ) (self : Profile) {r : Connection}
    → IsSound s.connections
    → find_row (λ (p : Profile). p.id == user_id) s.profiles ≡ some self
    → find_row (λ (r : Connection). r.id == id && touches self.id r) s.connections ≡ some r
    → Own user_id (by_id r.id) s.connections
touching_row s user_id id self {r} sound known found =
    let hit : (r.id == id && touches self.id r) ≡ true =
      find_row_sound (λ (r : Connection). r.id == id && touches self.id r) s.connections {x = r}
        found in
    subst (λ u. Own u (by_id r.id) s.connections) (me_id s user_id {self = self} known)
      (Own-row self.id (λ (r : Connection). r.id == id && touches self.id r) s.connections {r = r}
        sound found (ground arith))

delete_by_id-Change :
    (s : Store) (user_id : ℕ) (param : Option UuidText) {t : Store} {rep : Reply}
    → IsSound s.connections
    → delete_connection_by_id s user_id param ≡ ok (t, rep)
    → Change user_id s.connections t.connections
unfolding delete_connection_by_id
delete_by_id-Change s user_id none sound h = absurd (ground arith)
delete_by_id-Change s user_id (some i) sound h =
    elim (Option-cases (find_row (λ (p : Profile). p.id == user_id) s.profiles)) [
      | inl stranger ↦ absurd (ground arith)
      | inr (self, known) ↦
          elim (Option-cases
            (find_row (λ (r : Connection). r.id == i.uuid && touches self.id r) s.connections)) [
              | inl missed ↦ absurd (ground arith)
              | inr (r, found) ↦
                  deleted (by_id r.id)
                    (touching_row s user_id i.uuid self {r = r} sound known found) (ground arith)
            ]
    ]

accept-Change :
    (s : Store) (user_id : ℕ) (param : Option UuidText) (now : ℕ) {t : Store} {rep : Reply}
    → IsSound s.connections
    → accept_connection s user_id param now ≡ ok (t, rep)
    → Change user_id s.connections t.connections
unfolding accept_connection
accept-Change s user_id none now sound h = absurd (ground arith)
accept-Change s user_id (some i) now sound h =
    elim (Option-cases (find_row (λ (p : Profile). p.id == user_id) s.profiles)) [
      | inl stranger ↦ absurd (ground arith)
      | inr (self, known) ↦
          elim (Option-cases
            (find_row (λ (r : Connection). r.id == i.uuid && touches self.id r) s.connections)) [
              | inl missed ↦ absurd (ground arith)
              | inr (r, found) ↦ elim (Bool-cases (is_connected r.status)) [
                | inl already ↦ unchanged (ground arith)
                | inr waiting_for ↦
                    responded (by_id r.id) connected now
                      (touching_row s user_id i.uuid self {r = r} sound known found) (ground arith)
              ]
            ]
    ]

declinable-touches : (id u : ℕ) (x : Connection) → declinable id u x ≡ true → touches u x ≡ true
declinable-touches id u x h = ground arith

decline-Change :
    (s : Store) (user_id : ℕ) (param : Option UuidText) (now : ℕ) {t : Store} {rep : Reply}
    → decline_connection s user_id param now ≡ ok (t, rep)
    → Change user_id s.connections t.connections
unfolding decline_connection
decline-Change s user_id none now h = absurd (ground arith)
decline-Change s user_id (some i) now {t} h =
    elim (Option-cases (find_row (λ (p : Profile). p.id == user_id) s.profiles)) [
      | inl stranger ↦ absurd (ground arith)
      | inr (self, known) ↦
          subst (λ u. Change u s.connections t.connections) (me_id s user_id {self = self} known)
            (responded (declinable i.uuid self.id) declined now
              (All-true _ s.connections (declinable-touches i.uuid self.id)) (ground arith))
    ]

-- One request of the user `u` that succeeds, of any kind. An insert draws an id that no row has.
pub data Step (u : ℕ) (s t : Store) : Type 0 where
  asked :
      (param : Option UuidText) (body : Option (Option String)) (now fresh : ℕ) (rep : Reply)
      → has_row (by_id fresh) s.connections ≡ false
      → post_connection s u param body now fresh ≡ ok (t, rep)
      → Step u s t
  asked_by_body :
      (target : Target) (body : Option (Option String)) (now fresh : ℕ) (rep : Reply)
      → has_row (by_id fresh) s.connections ≡ false
      → post_requests s u target body now fresh ≡ ok (t, rep)
      → Step u s t
  dropped :
      (param : Option UuidText) (i : ℕ) (a : Action)
      → delete_connection s u param ≡ ok (t, i, a)
      → Step u s t
  dropped_by_id :
      (param : Option UuidText) (rep : Reply)
      → delete_connection_by_id s u param ≡ ok (t, rep)
      → Step u s t
  took :
      (param : Option UuidText) (now : ℕ) (rep : Reply)
      → accept_connection s u param now ≡ ok (t, rep)
      → Step u s t
  turned_down :
      (param : Option UuidText) (now : ℕ) (rep : Reply)
      → decline_connection s u param now ≡ ok (t, rep)
      → Step u s t

pub data Reach (s : Store) : Store → Type 0 where
  here : Reach s s
  next : {u : ℕ} {t v : Store} → Reach s t → Step u t v → Reach s v

Step-Change :
    {u : ℕ} {s t : Store}
    → IsSound s.connections
    → Step u s t
    → Change u s.connections t.connections
Step-Change {u} {s} {t} sound (asked param body now fresh rep new_id e) =
    RequestOf-Change s u now fresh {t = t} {rep = rep} sound new_id
      (post_connection_request s u param body now fresh e)
Step-Change {u} {s} {t} sound (asked_by_body target body now fresh rep new_id e) =
    RequestOf-Change s u now fresh {t = t} {rep = rep} sound new_id
      (post_requests_request s u target body now fresh e)
Step-Change {u} {s} {t} sound (dropped param i a e) =
    delete_connection-Change s u param {t = t} {i = i} {a = a} sound e
Step-Change {u} {s} {t} sound (dropped_by_id param rep e) =
    delete_by_id-Change s u param {t = t} {rep = rep} sound e
Step-Change {u} {s} {t} sound (took param now rep e) =
    accept-Change s u param now {t = t} {rep = rep} sound e
Step-Change {u} {s} {t} sound (turned_down param now rep e) =
    decline-Change s u param now {t = t} {rep = rep} e

-- However the handlers run one after the other, if the ids are a key, one row at most joins two
-- users of a project and nobody is joined to himself, then the same holds afterwards.
pub Reach-IsSound : {s t : Store} → Reach s t → IsSound s.connections → IsSound t.connections
Reach-IsSound here h = h
Reach-IsSound (next r st) h =
    let before = Reach-IsSound r h in Change-IsSound (Step-Change before st) before

-- From a sound table, a request of a user that succeeds leaves every row that does not have him at
-- an end as it was, and in the same order.
pub Step-foreign :
    {u : ℕ} {s t : Store}
    → IsSound s.connections
    → Step u s t
    → select_rows (foreign u) t.connections ≡ select_rows (foreign u) s.connections
Step-foreign sound st = Change-foreign (Step-Change sound st)
