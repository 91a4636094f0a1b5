-- ===== src/Connections/Laws.antt =====
-- What the handlers of apps/api/src/routes/connections.ts answer and leave, for the two users of a
-- connection.
use Prim.Native.String.{String}
use philosophy_app.Prelude.{
  ℕ, ◌≡◌, ◌≢◌, refl, sym, ap, ◌∙◌, inl, inr, true, false, ◌&&◌, Option, none, some, List, ◌∷◌,
  arith, ◌==◌, ==_refl, Option-cases, find_row, find_row_sound, find_row_ext,
}
use philosophy_app.Http.{ok}
use philosophy_app.Roles.{UuidText}
use philosophy_app.Connections.{
  Status, pending, connected, declined, Connection, Profile, Store, Reply, joins, between, me,
  request_existing, insert_request, request_between, post_connection, accept_connection, set_status,
  touches, is_connected, notify, NoticeKind,
}
use philosophy_app.Connections.Invariant.{constraints-ne}
use philosophy_app.Connections.{
  StatusView, nothing, linked, waiting, refused, Direction, sent, received, get_connection,
  status_view, direction, requested, accepted,
}

abbrev pub opposite : Direction → Direction
opposite sent = received
opposite received = sent

abbrev pub seen_from_other : StatusView → StatusView
seen_from_other nothing = nothing
seen_from_other (linked i) = linked i
seen_from_other (waiting d i) = waiting (opposite d) i
seen_from_other (refused d i) = refused (opposite d) i

between_same : (s : Store) (p a b : ℕ) → between s p a b ≡ between s p b a
unfolding between
between_same s p a b = find_row_ext (joins p a b) (joins p b a) s.connections (λ x. ground arith)

direction-opposite :
    (p a b : ℕ) (r : Connection)
    → a ≢ b
    → joins p a b r ≡ true
    → direction b r ≡ opposite (direction a r)
direction-opposite p a b r ne h = ground arith

status_view_opposite :
    (p a b : ℕ) (r : Connection) (status : Status)
    → r.status ≡ status
    → a ≢ b
    → joins p a b r ≡ true
    → status_view b (some r) ≡ seen_from_other (status_view a (some r))
unfolding status_view
status_view_opposite p a b r connected e ne h = rw e refl
status_view_opposite p a b r pending e ne h = rw (e, direction-opposite p a b r ne h) refl
status_view_opposite p a b r declined e ne h = rw (e, direction-opposite p a b r ne h) refl

views_opposite :
    (s : Store) (p a b : ℕ)
    → a ≢ b
    → status_view b (between s p b a) ≡ seen_from_other (status_view a (between s p a b))
unfolding between status_view
views_opposite s p a b ne = elim (Option-cases (find_row (joins p a b) s.connections)) [
  | inl free ↦ rw (between_same s p b a, between, free) refl
  | inr (r, found) ↦
      rw (between_same s p b a, between, found)
        (status_view_opposite p a b r r.status refl ne
          (find_row_sound (joins p a b) s.connections {x = r} found))
]

-- Two distinct users of one project who ask for the connection between them are told the same: the
-- same row, with sent and received exchanged.
pub views_agree :
    (s : Store) (a b : Profile) (at_b at_a : UuidText)
    → find_row (λ (p : Profile). p.id == a.id) s.profiles ≡ some a
    → find_row (λ (p : Profile). p.id == b.id) s.profiles ≡ some b
    → a.project_id ≡ b.project_id
    → a.id ≢ b.id
    → at_b.uuid ≡ b.id
    → at_a.uuid ≡ a.id
    → (v : StatusView) × (get_connection s a.id (some at_b) ≡ ok v)
      × (get_connection s b.id (some at_a) ≡ ok (seen_from_other v))
unfolding get_connection me
views_agree s a b at_b at_a known_a known_b same ne to_b to_a = (
  status_view a.id (between s a.project_id a.id b.id),
  rw (known_a, me, to_b) refl,
  rw (known_b, me, to_a, sym same) (ap (λ v. ok v) (views_opposite s a.project_id a.id b.id ne)),
)

existing_not_requested :
    (s : Store) (self : Profile) (target : ℕ) (m : Option String) (now : ℕ) (r : Connection)
    (status : Status)
    → r.status ≡ status
    → {t : Store} {i : ℕ} → request_existing s self target m now r ≢ ok (t, requested i)
unfolding request_existing
existing_not_requested s self target m now r connected e h = ground arith
existing_not_requested s self target m now r pending e h = ground arith
existing_not_requested s self target m now r declined e h = ground arith

pub inserted_row :
    (s : Store) (self : Profile) (target : ℕ) (m : Option String) (now fresh i : ℕ) {t : Store}
    → insert_request s self target m now fresh ≡ ok (t, requested i)
    → (i ≡ fresh)
      × (self.id ≢ target)
      × (t.profiles ≡ s.profiles)
      × (t.connections
          ≡ record {
            id = fresh;
            project_id = self.project_id;
            requester_id = self.id;
            addressee_id = target;
            status = pending;
            message = m;
            created_at = now;
            responded_at = none;
          }
            ∷ s.connections)
unfolding insert_request
inserted_row s self target m now fresh i {t} h = (
  ground arith,
  constraints-ne s self.project_id self.id target (λ _. true) (ground arith),
  ground arith,
  ground arith,
)

-- What a request that inserts leaves.
requested_row :
    (s : Store) (self : Profile) (target : ℕ) (m : Option String) (now fresh i : ℕ) {t : Store}
    → request_between s self target m now fresh ≡ ok (t, requested i)
    → (i ≡ fresh)
      × (self.id ≢ target)
      × (t.profiles ≡ s.profiles)
      × (t.connections
          ≡ record {
            id = fresh;
            project_id = self.project_id;
            requester_id = self.id;
            addressee_id = target;
            status = pending;
            message = m;
            created_at = now;
            responded_at = none;
          }
            ∷ s.connections)
unfolding request_between
requested_row s self target m now fresh i {t} h =
    elim (Option-cases (find_row (joins self.project_id self.id target) s.connections)) [
      | inl free ↦
          inserted_row s self target m now fresh i {t = t} (rw (free, request_between) at h)
      | inr (r, found) ↦ absurd (
          existing_not_requested s self target m now r r.status refl {t = t} {i = i}
            (rw (found, request_between) at h))
    ]

post_request :
    (s : Store) (self : Profile) (target : UuidText) (m : Option String) (now fresh : ℕ)
    {x : Store × Reply}
    → find_row (λ (p : Profile). p.id == self.id) s.profiles ≡ some self
    → post_connection s self.id (some target) (some m) now fresh ≡ ok x
    → request_between s self target.uuid m now fresh ≡ ok x
unfolding post_connection
post_request s self target m now fresh known h = ground arith

request_post :
    (s : Store) (self : Profile) (target : UuidText) (m : Option String) (now fresh : ℕ)
    → find_row (λ (p : Profile). p.id == self.id) s.profiles ≡ some self
    → target.uuid ≢ self.id
    → post_connection s self.id (some target) (some m) now fresh
      ≡ request_between s self target.uuid m now fresh
unfolding post_connection
request_post s self target m now fresh known ne = ground arith

abbrev connected_store : Store → ℕ → ℕ → ℕ → ℕ → Store
connected_store s i now target self_id =
    notify NoticeKind.connection_accepted target self_id i (set_status connected i now s)

answer_row :
    (s : Store) (self : Profile) (target : ℕ) (m : Option String) (now fresh : ℕ) (r : Connection)
    (rest : List Connection)
    → s.connections ≡ r ∷ rest
    → r.project_id ≡ self.project_id
    → r.requester_id ≡ target
    → r.addressee_id ≡ self.id
    → r.status ≡ pending
    → self.id ≢ target
    → request_between s self target m now fresh
      ≡ ok (connected_store s r.id now target self.id, accepted r.id)
unfolding request_between request_existing between
answer_row s self target m now fresh r rest head project from to waits ne =
    let hit : joins self.project_id self.id target r ≡ true = ground arith in
    let other : (r.requester_id == self.id) ≡ false = ground arith in
    let here : between s self.project_id self.id target ≡ some r = rw (head, hit) refl in
    rw (request_between, here, request_existing, waits, other) refl

view_row :
    (s : Store) (self : Profile) (target : UuidText) (r : Connection) (rest : List Connection)
    (now x y : ℕ)
    → find_row (λ (p : Profile). p.id == self.id) s.profiles ≡ some self
    → s.connections ≡ r ∷ rest
    → joins self.project_id self.id target.uuid r ≡ true
    → get_connection (connected_store s r.id now x y) self.id (some target) ≡ ok (linked r.id)
unfolding get_connection me between status_view
view_row s self target r rest now x y known head hit =
    rw (known, me, head, ==_refl r.id) (rw hit refl)

-- Two users of one project: after a request of the one for the other that was stored, a request of
-- the other for the first connects them, and both are told so.
pub crossing_requests_connect :
    (s s' : Store) (a b : Profile) (at_b at_a : UuidText) (m m' : Option String)
    (now now' fresh fresh' i : ℕ)
    → find_row (λ (p : Profile). p.id == a.id) s.profiles ≡ some a
    → find_row (λ (p : Profile). p.id == b.id) s.profiles ≡ some b
    → a.project_id ≡ b.project_id
    → at_b.uuid ≡ b.id
    → at_a.uuid ≡ a.id
    → post_connection s a.id (some at_b) (some m) now fresh ≡ ok (s', requested i)
    → (t : Store) × (post_connection s' b.id (some at_a) (some m') now' fresh' ≡ ok (t, accepted i))
      × (get_connection t a.id (some at_b) ≡ ok (linked i))
      × (get_connection t b.id (some at_a) ≡ ok (linked i))
crossing_requests_connect s s' a b at_b at_a m m' now now' fresh fresh' i known_a known_b same to_b
      to_a posted =
    let (drawn, ne, profiles, rows) =
      requested_row s a at_b.uuid m now fresh i {t = s'}
        (post_request s a at_b m now fresh {x = (s', requested i)} known_a posted) in
    let r : Connection = record {
      id = fresh;
      project_id = a.project_id;
      requester_id = a.id;
      addressee_id = at_b.uuid;
      status = pending;
      message = m;
      created_at = now;
      responded_at = none;
    } in
    let there_a : find_row (λ (p : Profile). p.id == a.id) s'.profiles ≡ some a =
      rw profiles known_a in
    let there_b : find_row (λ (p : Profile). p.id == b.id) s'.profiles ≡ some b =
      rw profiles known_b in
    (
      connected_store s' fresh now' at_a.uuid b.id,
      request_post s' b at_a m' now' fresh' there_b (λ e. ground arith)
          ∙ answer_row s' b at_a.uuid m' now' fresh' r s.connections rows same (sym to_a) to_b refl
              (λ e. ground arith)
          ∙ ap (λ j. ok (connected_store s' fresh now' at_a.uuid b.id, accepted j)) (sym drawn),
      view_row s' a at_b r s.connections now' at_a.uuid b.id there_a rows (ground arith)
          ∙ ap (λ j. ok (linked j)) (sym drawn),
      view_row s' b at_a r s.connections now' at_a.uuid b.id there_b rows (ground arith)
          ∙ ap (λ j. ok (linked j)) (sym drawn),
    )

-- Whoever sent a request that is still pending, or that was declined, can accept it himself: the
-- handler does not ask which end the user is.
pub requester_accepts_own :
    (s : Store) (self : Profile) (i : UuidText) (now : ℕ) (r : Connection)
    → find_row (λ (p : Profile). p.id == self.id) s.profiles ≡ some self
    → find_row (λ (r : Connection). r.id == i.uuid && touches self.id r) s.connections ≡ some r
    → r.requester_id ≡ self.id
    → is_connected r.status ≡ false
    → accept_connection s self.id (some i) now
      ≡ ok (
        notify NoticeKind.connection_accepted r.addressee_id self.id r.id
            (set_status connected r.id now s),
        accepted r.id,
      )
unfolding accept_connection me
requester_accepts_own s self i now r known found mine waits = ground arith
