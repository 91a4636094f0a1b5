-- ===== src/Connections/Races.antt =====
-- Requests of apps/api/src/routes/connections.ts that run at the same time: the handler reads whether
-- a row joins the two users, and inserts afterwards, in a statement of its own.
use Prim.Native.String.{String}
use philosophy_app.Prelude.{
  ℕ, ◌≡◌, refl, sym, inl, inr, true, false, ◌&&◌, Option, none, List, [], ◌∷◌, arith, ◌==◌, ==_refl,
  Bool-cases, find_row, count_rows, has_row, count_rows-none,
}
use philosophy_app.Http.{ok}
use philosophy_app.Connections.{
  pending, Connection, Profile, Store, joins, between, constraints, same_edge, insert_request,
  notify, NoticeKind,
}
use philosophy_app.Connections.{requested}
use philosophy_app.Connections.Laws.{inserted_row}

-- No row joins the two, so no row has the one edge between them.
no_edge :
    (p a b : ℕ) (rows : List Connection)
    → find_row (joins p a b) rows ≡ none
    → has_row (λ (r : Connection). true && same_edge p b a r) rows ≡ false
no_edge p a b [] free = refl
no_edge p a b (r ∷ rows) free = elim (Bool-cases (joins p a b r)) [
  | inl hit ↦ cc (rw hit at free)
  | inr miss ↦
      let off : same_edge p b a r ≡ false = ground arith in
      rw off (no_edge p a b rows (rw miss at free))
]

abbrev requested_row_of : Profile → ℕ → Option String → ℕ → ℕ → Connection
requested_row_of self target m now fresh = record {
  id = fresh;
  project_id = self.project_id;
  requester_id = self.id;
  addressee_id = target;
  status = pending;
  message = m;
  created_at = now;
  responded_at = none;
}

insert_passes :
    (s : Store) (self : Profile) (target : ℕ) (m : Option String) (now fresh : ℕ)
    → constraints s self.project_id self.id target (λ _. true) ≡ ok tt
    → insert_request s self target m now fresh
      ≡ ok (
        notify NoticeKind.connection_request target self.id fresh
            (record s { connections = requested_row_of self target m now fresh ∷ s.connections }),
        requested fresh,
      )
unfolding insert_request
insert_passes s self target m now fresh passes = rw passes refl

-- Two users of one project, neither of whom is joined to the other, send each other a request, and
-- both handlers have looked for a row before either inserts. If the first insert passes, then the
-- second passes as well, since the unique constraint names the direction: two rows join the two.
pub racing_requests_double :
    (s s' : Store) (a b : Profile) (m m' : Option String) (now now' fresh fresh' i : ℕ)
    → has_row (λ (p : Profile). p.id == a.id) s.profiles ≡ true
    → a.project_id ≡ b.project_id
    → between s a.project_id a.id b.id ≡ none
    → insert_request s a b.id m now fresh ≡ ok (s', requested i)
    → (t : Store) × (insert_request s' b a.id m' now' fresh' ≡ ok (t, requested fresh'))
      × (count_rows (joins a.project_id a.id b.id) t.connections ≡ 2)
unfolding constraints between
racing_requests_double s s' a b m m' now now' fresh fresh' i known same free inserted_first =
    let (drawn, ne, profiles, rows) = inserted_row s a b.id m now fresh i {t = s'} inserted_first in
    let there : has_row (λ (p : Profile). p.id == a.id) s'.profiles ≡ true = rw profiles known in
    let clear : has_row (λ (r : Connection). true && same_edge b.project_id b.id a.id r)
          s.connections
        ≡ false =
      rw (sym same) (no_edge a.project_id a.id b.id s.connections free) in
    let forth : (a.id == b.id) ≡ false = ground arith in
    let back : (b.id == a.id) ≡ false = ground arith in
    let none_yet : count_rows (joins a.project_id a.id b.id) s.connections ≡ 0 =
      count_rows-none (joins a.project_id a.id b.id) s.connections free in
    let passes : constraints s' b.project_id b.id a.id (λ _. true) ≡ ok tt =
      rw (rows, sym same) (rw (there, back, forth, clear, ==_refl a.project_id) refl) in
    let two : joins a.project_id a.id b.id (requested_row_of b a.id m' now' fresh') ≡ true =
      ground arith in
    let one : joins a.project_id a.id b.id (requested_row_of a b.id m now fresh) ≡ true =
      ground arith in
    (
      _,
      insert_passes s' b a.id m' now' fresh' passes,
      rw rows (rw (two, one) (omega (arith, none_yet))),
    )
