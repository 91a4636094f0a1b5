-- ===== src/Events/Roster.antt =====
-- What removing a host or an invite of apps/api/src/routes/events.ts takes away.
use mathlib.Core.Path.{subst}
use philosophy_app.Prelude.{
  ℕ, ◌≡◌, refl, ap, ◌∙◌, inl, inr, Bool, true, false, ◌||◌, some, List, [], ◌∷◌, map, ◌==◌, ==_refl,
  Bool-cases, has_row, select_rows, delete_rows,
}
use philosophy_app.Http.{ok, bind-ok}
use philosophy_app.Auth.{AuthContext}
use philosophy_app.Access.{require_auth, Ctx, is_admin_ctx}
use philosophy_app.Events.{
  EventRow, EventRsvp, EventTables, Listed, of_event, of_user, load_host_ids, is_event_host,
  is_host_or_admin, would_orphan_hosts, get_event_or_404, require_event_manage, is_invited,
}
use philosophy_app.Events.Rsvp.{own_rsvp}
use philosophy_app.Events.Manage.{managed, delete_hosts, delete_invites}

absent_after_delete :
    (e u : ℕ) (rows : List Listed) → has_row (of_user e u) (delete_rows (of_user e u) rows) ≡ false
absent_after_delete e u [] = refl
absent_after_delete e u (h ∷ rows) = elim (Bool-cases (of_user e u h)) [
  | inl hit ↦ rw hit (absent_after_delete e u rows)
  | inr miss ↦ rw (miss, miss) (absent_after_delete e u rows)
]

no_rsvp_after_delete :
    (e u : ℕ) (rows : List EventRsvp)
    → has_row (own_rsvp e u) (delete_rows (own_rsvp e u) rows) ≡ false
no_rsvp_after_delete e u [] = refl
no_rsvp_after_delete e u (r ∷ rows) = elim (Bool-cases (own_rsvp e u r)) [
  | inl hit ↦ rw hit (no_rsvp_after_delete e u rows)
  | inr miss ↦ rw (miss, miss) (no_rsvp_after_delete e u rows)
]

host_ids_after_delete :
    (e u : ℕ) (rows : List Listed)
    → map (λ (h : Listed). h.user_id) (select_rows (of_event e) (delete_rows (of_user e u) rows))
      ≡ delete_rows
          (λ (i : ℕ). i == u)
          (map (λ (h : Listed). h.user_id) (select_rows (of_event e) rows))
host_ids_after_delete e u [] = refl
host_ids_after_delete e u (h ∷ rows) = elim (Bool-cases (h.event_id == e)) [
  | inl here ↦ elim (Bool-cases (h.user_id == u)) [
    | inl him ↦ rw (here, him) (host_ids_after_delete e u rows)
    | inr another ↦
        rw (here, another, here) (ap (λ l. h.user_id ∷ l) (host_ids_after_delete e u rows))
  ]
  | inr away ↦ rw (away, away) (host_ids_after_delete e u rows)
]

or_true : (b : Bool) → (b || true) ≡ true
or_true true = refl
or_true false = refl

host_manages :
    (t : EventTables) (c : Ctx) (a : AuthContext) (id : ℕ) (row : EventRow)
    → c.auth ≡ some a
    → get_event_or_404 t c id ≡ ok row
    → is_event_host (load_host_ids t row.id) (some a.user_id) ≡ true
    → managed t c id ≡ ok row
unfolding managed require_event_manage is_host_or_admin
host_manages t c a id row signed found hosts =
    rw (signed, found, hosts, or_true (is_admin_ctx (some a))) refl

-- A signed-in caller who is the only host of an event can remove himself: the request succeeds though
-- `would_orphan_hosts` holds, and leaves the event without a host.
pub last_host_removed :
    (t : EventTables) (c : Ctx) (a : AuthContext) (id : ℕ) (row : EventRow)
    → c.auth ≡ some a
    → get_event_or_404 t c id ≡ ok row
    → load_host_ids t row.id ≡ a.user_id ∷ []
    → (would_orphan_hosts (load_host_ids t row.id) a.user_id ≡ true)
      × (t' : EventTables) × (delete_hosts t c id (some a.user_id) ≡ ok t')
      × (load_host_ids t' row.id ≡ [])
unfolding load_host_ids would_orphan_hosts delete_hosts managed require_event_manage
    is_host_or_admin is_event_host
last_host_removed t c a id row signed found sole =
    let self : (a.user_id == a.user_id) ≡ true = ==_refl a.user_id in
    let manages : managed t c id ≡ ok row =
      host_manages t c a id row signed found (rw (is_event_host, sole) (rw self refl)) in
    (
      rw (would_orphan_hosts, sole) (rw self refl),
      record t { hosts = delete_rows (of_user row.id a.user_id) t.hosts },
      rw (delete_hosts, manages) refl,
      host_ids_after_delete row.id a.user_id t.hosts ∙ rw sole (rw self refl),
    )

-- Once a host or admin has withdrawn the invite of a user, the user is not invited to the event and
-- has no RSVP for it.
pub uninvited_out :
    (t t' : EventTables) (c : Ctx) (id user_id : ℕ)
    → delete_invites t c id (some user_id) ≡ ok t'
    → (row : EventRow) × (get_event_or_404 t c id ≡ ok row)
      × (is_invited t' row.id (some user_id) ≡ false)
      × (has_row (own_rsvp row.id user_id) t'.rsvps ≡ false)
unfolding delete_invites managed is_invited
uninvited_out t t' c id user_id h =
    let (row, allowed, h1) = bind-ok {A = EventRow} (managed t c id) _ h in
    let (auth, signed, k1) = bind-ok {A = AuthContext} (require_auth c) _ allowed in
    let (row', found, k2) = bind-ok {A = EventRow} (get_event_or_404 t c id) _ k1 in
    let (u, may, k3) = bind-ok {A = Unit} (require_event_manage t c row'.id) _ k2 in
    let same : row' ≡ row = cc k3 in
    let new : (record t {
      invites = delete_rows (of_user row.id user_id) t.invites;
      rsvps = delete_rows (own_rsvp row.id user_id) t.rsvps;
    })
        ≡ t' =
      cc h1 in
    (
      row,
      found ∙ ap (λ x. ok x) same,
      subst (λ (z : EventTables). is_invited z row.id (some user_id) ≡ false) new
          (absent_after_delete row.id user_id t.invites),
      subst (λ (z : EventTables). has_row (own_rsvp row.id user_id) z.rsvps ≡ false) new
          (no_rsvp_after_delete row.id user_id t.rsvps),
    )
