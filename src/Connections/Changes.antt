-- ===== src/Connections/Changes.antt =====
-- What each handler of apps/api/src/routes/connections.ts does to the rows, and to whose.
use mathlib.Core.Path.{subst}
use Prim.Native.String.{String}
use philosophy_app.Prelude.{
  ℕ, ◌≡◌, ◌≢◌, refl, sym, ap, ◌∙◌, Bool, true, false, not, Option, none, some, List, [], ◌∷◌, arith,
  find_row, update_rows, delete_rows, has_row, All, select_rows, select_rows-update_rows,
  select_rows-delete_rows,
}
use philosophy_app.Connections.{Status, Connection, joins, by_id, reopen, respond, touches}
use philosophy_app.Connections.Invariant.{
  IsSound, respond-IsSound, delete-IsSound, reopen-IsSound, insert-IsSound,
}

-- Every row of a change by a key is a row of the user.
abbrev pub Own : ℕ → (Connection → Bool) → List Connection → Type 0
Own u p rows = All (λ (x : Connection). p x ≡ true → touches u x ≡ true) rows

-- The ways in which a request of the user `u` changes the rows.
pub data Change (u : ℕ) (rows new : List Connection) : Type 0 where
  unchanged : new ≡ rows → Change u rows new
  responded :
      (p : Connection → Bool) (status : Status) (now : ℕ)
      → Own u p rows
      → new ≡ update_rows p (respond status now) rows
      → Change u rows new
  deleted : (p : Connection → Bool) → Own u p rows → new ≡ delete_rows p rows → Change u rows new
  reasked :
      (p t : ℕ) (m : Option String) (now : ℕ) (r : Connection)
      → Own u (by_id r.id) rows
      → u ≢ t
      → find_row (joins p u t) rows ≡ some r
      → new ≡ update_rows (by_id r.id) (reopen u t m now) rows
      → Change u rows new
  inserted :
      (r : Connection)
      → r.requester_id ≡ u
      → r.requester_id ≢ r.addressee_id
      → has_row (by_id r.id) rows ≡ false
      → find_row (joins r.project_id r.requester_id r.addressee_id) rows ≡ none
      → new ≡ r ∷ rows
      → Change u rows new

pub Change-IsSound :
    {u : ℕ} {rows new : List Connection} → Change u rows new → IsSound rows → IsSound new
Change-IsSound (unchanged e) h = subst IsSound (sym e) h
Change-IsSound {rows} (responded p status now own e) h =
    subst IsSound (sym e) (respond-IsSound p status now rows h)
Change-IsSound {rows} (deleted p own e) h = subst IsSound (sym e) (delete-IsSound p rows h)
Change-IsSound {u} {rows} (reasked p t m now r own ne found e) h =
    subst IsSound (sym e) (reopen-IsSound p u t m now rows {r = r} ne found h)
Change-IsSound {rows} (inserted r his ne fresh free e) h =
    subst IsSound (sym e) (insert-IsSound r rows ne fresh free h)

-- The row has the user at neither end.
abbrev pub foreign : ℕ → Connection → Bool
foreign u r = not (touches u r)

own_not_foreign : (u : ℕ) (x : Connection) → touches u x ≡ true → foreign u x ≡ false
own_not_foreign u x h = ground arith

All-map {ℓ} :
    {A : Type ℓ} (P Q : A → Type 0) (xs : List A) → ((x : A) → P x → Q x) → All P xs → All Q xs
All-map P Q [] f a = tt
All-map P Q (x ∷ xs) f (here, later) = (f x here, All-map P Q xs f later)

pub Change-foreign :
    {u : ℕ} {rows new : List Connection}
    → Change u rows new
    → select_rows (foreign u) new ≡ select_rows (foreign u) rows
Change-foreign {u} (unchanged e) = ap (select_rows (foreign u)) e
Change-foreign {u} {rows} (responded p status now own e) =
    ap (select_rows (foreign u)) e
    ∙ select_rows-update_rows (foreign u) p (respond status now) rows
        (All-map _ _ rows (λ x o k. (own_not_foreign u x (o k), own_not_foreign u x (o k))) own)
Change-foreign {u} {rows} (deleted p own e) =
    ap (select_rows (foreign u)) e
    ∙ select_rows-delete_rows (foreign u) p rows
        (All-map _ _ rows (λ x o k. own_not_foreign u x (o k)) own)
Change-foreign {u} {rows} (reasked p t m now r own ne found e) =
    ap (select_rows (foreign u)) e
    ∙ select_rows-update_rows (foreign u) (by_id r.id) (reopen u t m now) rows (
        All-map _ _ rows
          (λ x o k.
            (own_not_foreign u x (o k), own_not_foreign u (reopen u t m now x) (ground arith)))
          own)
Change-foreign {u} {rows} (inserted r his ne fresh free e) =
    let mine : foreign u r ≡ false = ground arith in ap (select_rows (foreign u)) e ∙ rw mine refl
