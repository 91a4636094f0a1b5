-- ===== src/Connections/Invariant.antt =====
-- What every handler of apps/api/src/routes/connections.ts keeps, run one after the other.
use Prim.Native.String.{String}
use philosophy_app.Prelude.{
  ℕ, ◌≤◌, ◌≡◌, ◌≢◌, refl, inl, inr, Bool, true, false, Option, none, some, List, ◌∷◌, arith,
  ==_refl, Bool-cases, find_row, count_rows, update_rows, delete_rows, has_row, count_rows_ext,
  count_rows-none, count_rows_absent, count_rows-update_rows, count_rows-update_found,
  find_row_sound, All, All-update_rows, All-delete_rows, count_rows-delete_rows,
}
use philosophy_app.Http.{ok}
use philosophy_app.Connections.{
  Status, Connection, Store, joins, by_id, reopen, respond, constraints,
}
use philosophy_app.Connections.Rows.{joins_same}

-- The ids are a key, one row at most joins two users of a project, and nobody is joined to himself.
pub record IsSound (rows : List Connection) : Type 0 where
  pub one_id : (i : ℕ) → count_rows (by_id i) rows ≤ 1
  pub one_pair : (p a b : ℕ) → count_rows (joins p a b) rows ≤ 1
  pub no_self : All (λ (r : Connection). r.requester_id ≢ r.addressee_id) rows

pub respond-IsSound :
    (p : Connection → Bool) (status : Status) (now : ℕ) (rows : List Connection)
    → IsSound rows
    → IsSound (update_rows p (respond status now) rows)
respond-IsSound p status now rows h = record {
  one_id = λ i.
      rw (count_rows-update_rows (by_id i) p (respond status now) rows (λ x e. refl)) (h.one_id i);
  one_pair = λ q a b.
      rw (count_rows-update_rows (joins q a b) p (respond status now) rows (λ x e. refl))
        (h.one_pair q a b);
  no_self = All-update_rows _ p (respond status now) rows (λ x e d. d) h.no_self;
}

pub delete-IsSound :
    (p : Connection → Bool) (rows : List Connection) → IsSound rows → IsSound (delete_rows p rows)
delete-IsSound p rows h = record {
  one_id = λ i. omega (arith, h.one_id i, count_rows-delete_rows (by_id i) p rows);
  one_pair = λ q a b. omega (arith, h.one_pair q a b, count_rows-delete_rows (joins q a b) p rows);
  no_self = All-delete_rows _ p rows h.no_self;
}

joins-reopen :
    (p q a b s t : ℕ) (m : Option String) (now : ℕ) (r : Connection)
    → joins p s t r ≡ true
    → joins q a b (reopen s t m now r) ≡ joins q a b r
joins-reopen p q a b s t m now r h = ground arith

pub reopen-IsSound :
    (p s t : ℕ) (m : Option String) (now : ℕ) (rows : List Connection) {r : Connection}
    → s ≢ t
    → find_row (joins p s t) rows ≡ some r
    → IsSound rows
    → IsSound (update_rows (by_id r.id) (reopen s t m now) rows)
reopen-IsSound p s t m now rows {r} ne found h = record {
  one_id = λ i.
      rw (count_rows-update_rows (by_id i) (by_id r.id) (reopen s t m now) rows (λ x e. refl))
        (h.one_id i);
  one_pair = λ q a b.
      rw
        (count_rows-update_found (joins q a b) (by_id r.id) (joins p s t) (reopen s t m now) rows
          {x = r} (h.one_id r.id) found (==_refl r.id)
          (joins-reopen p q a b s t m now r (find_row_sound (joins p s t) rows {x = r} found)))
        (h.one_pair q a b);
  no_self = All-update_rows _ (by_id r.id) (reopen s t m now) rows (λ x e d. ne) h.no_self;
}

pub insert-IsSound :
    (r : Connection) (rows : List Connection)
    → r.requester_id ≢ r.addressee_id
    → has_row (by_id r.id) rows ≡ false
    → find_row (joins r.project_id r.requester_id r.addressee_id) rows ≡ none
    → IsSound rows
    → IsSound (r ∷ rows)
insert-IsSound r rows ne fresh free h = record {
  one_id = λ i. elim (Bool-cases (by_id i r)) [
    | inl mine ↦
        let same : i ≡ r.id = ground arith in
        rw (mine) (omega (arith, count_rows_absent (by_id i) rows (rw same fresh)))
    | inr other ↦ rw other (omega (arith, h.one_id i))
  ];
  one_pair = λ q a b. elim (Bool-cases (joins q a b r)) [
    | inl mine ↦ rw mine (
        omega (
          arith,
          count_rows-none _ rows free,
          count_rows_ext (joins q a b) (joins r.project_id r.requester_id r.addressee_id) rows
              (λ x. joins_same r.project_id q a b r x (ground arith) mine),
        ))
    | inr other ↦ rw other (omega (arith, h.one_pair q a b))
  ];
  no_self = (ne, h.no_self);
}

pub constraints-ne :
    (s : Store) (p a b : ℕ) (other : Connection → Bool) → constraints s p a b other ≡ ok tt → a ≢ b
unfolding constraints
constraints-ne s p a b other h e = ground arith
