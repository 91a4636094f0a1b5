-- ===== src/Access/Exposure.antt =====
-- What the anonymous surface of apps/api/src/lib/public-access.ts gives away.
use mathlib.Core.Path.{subst}
use philosophy_app.Prelude.{
  ℕ, ◌≡◌, ◌≢◌, refl, ap, inl, inr, Bool, true, false, ◌&&◌, Option, none, some, List, [], ◌∷◌,
  arith, ◌==◌, Bool-cases, Option-cases, find_row, find_row_sound, delete_rows,
}
use philosophy_app.Http.{ok}
use philosophy_app.Access.{
  Space, Entity, Tables, Ctx, live_space, reads_anyone, assert_can_read_space, should_hide,
  is_removed, is_internet_public, joined_space, load_gated, is_admin_ctx, may_read_found,
  removed_policy,
}
use philosophy_app.Access.Reading.{IdsUnique}

-- A caller with no token.
abbrev pub anonymous : ℕ → Ctx
anonymous project_id = record { project_id = project_id; auth = none }

-- The join finds the live space, where one has the id at all.
find_joined :
    (p sid : ℕ) (rows : List Space) {s : Space}
    → IdsUnique rows
    → find_row (λ (x : Space). x.id == sid && x.project_id == p) rows ≡ some s
    → s.deleted_at ≡ none
    → find_row (live_space p sid) rows ≡ some s
find_joined p sid [] u h live = cc
find_joined p sid (x ∷ rows) {s} (fresh, u) h live =
    elim (Bool-cases (x.id == sid && x.project_id == p)) [
      | inl match ↦ ground arith
      | inr other ↦
          let later = find_joined p sid rows {s = s} u (ground arith) live in ground (arith, later)
    ]

load_gated_facts :
    (t : Tables) (p : ℕ) (predicate : Entity → Bool) {e : Entity}
    → load_gated t p predicate ≡ ok e
    → (find_row (λ (x : Entity). x.project_id == p && predicate x) t.entities ≡ some e)
      × (is_internet_public e (joined_space t p e.space_id) ≡ true)
unfolding load_gated
load_gated_facts t p predicate {e} h =
    elim (Option-cases (find_row (λ (x : Entity). x.project_id == p && predicate x) t.entities)) [
      | inl missed ↦ cc (rw (missed, load_gated) at h)
      | inr (x, found) ↦ elim (Bool-cases (is_internet_public x (joined_space t p x.space_id))) [
        | inl shown ↦
            let same : x ≡ e = cc (rw (shown) at (rw (found, load_gated) at h)) in
            (
              rw found (ap some same),
              subst (λ y. is_internet_public y (joined_space t p y.space_id) ≡ true) same shown,
            )
        | inr closed ↦ cc (rw (closed) at (rw (found, load_gated) at h))
      ]
    ]

public_space :
    (e : Entity) (o : Option Space) (sid : ℕ)
    → is_internet_public e o ≡ true
    → e.space_id ≡ some sid
    → (s : Space) × (o ≡ some s)
      × (s.deleted_at ≡ none)
      × (reads_anyone s.reading_permission ≡ true)
unfolding is_internet_public
public_space e none sid h k = ground arith
public_space e (some s) sid h k = (s, refl, ground arith, ground arith)

space_readable :
    (t : Tables) (p : ℕ) (e : Entity)
    → IdsUnique t.spaces
    → is_internet_public e (joined_space t p e.space_id) ≡ true
    → assert_can_read_space t (anonymous p) e.space_id p ≡ ok tt
unfolding assert_can_read_space is_admin_ctx may_read_found
space_readable t p e unique h = elim (Option-cases e.space_id) [
  | inl nowhere ↦ rw nowhere
  | inr (sid, there) ↦
      let (s, joined, live, open_to_all) =
        public_space e (joined_space t p e.space_id) sid h there in
      let found = find_joined p sid t.spaces {s = s} unique (rw there at joined) live in
      rw (there, found, open_to_all)
]

published :
    (e : Entity) (o : Option Space)
    → is_internet_public e o ≡ true
    → (e.is_public ≡ true)
      × (e.deleted_at ≡ none)
      × (e.is_draft ≢ some true)
      × (is_removed e.moderation_status ≡ false)
unfolding is_internet_public
published e o h = (
  ground arith,
  ground arith,
  λ k. ground arith,
  elim (Bool-cases (is_removed e.moderation_status)) [ inl r ↦ ground arith | inr k ↦ k ],
)

-- What the anonymous surface returns is published, neither deleted, a draft nor removed, and in a
-- space, if it has one, that a caller with no token may read by the gate of the walled surface.
pub load_gated-public :
    (t : Tables) (p : ℕ) (predicate : Entity → Bool) {e : Entity}
    → IdsUnique t.spaces
    → load_gated t p predicate ≡ ok e
    → (e.is_public ≡ true)
      × (e.deleted_at ≡ none)
      × (e.is_draft ≢ some true)
      × (should_hide (removed_policy (anonymous p)) e.moderation_status ≡ false)
      × (assert_can_read_space t (anonymous p) e.space_id p ≡ ok tt)
      × (e.project_id ≡ p)
unfolding should_hide removed_policy
load_gated-public t p predicate {e} unique h =
    let (found, shown) = load_gated_facts t p predicate {e = e} h in
    let mine =
      find_row_sound (λ (x : Entity). x.project_id == p && predicate x) t.entities {x = e} found in
    let flags = published e (joined_space t p e.space_id) shown in
    (flags.0, flags.1, flags.2, flags.3, space_readable t p e unique shown, ground arith)

-- The tables without the rows of one entity.
abbrev pub without : Tables → ℕ → ℕ → Tables
without t p id = record t {
  entities = delete_rows (λ (x : Entity). x.project_id == p && x.id == id) t.entities;
}
