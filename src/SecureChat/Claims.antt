-- ===== src/SecureChat/Claims.antt =====
-- Key packages are handed out once: `POST /devices/:deviceId/key-packages/claim` of
-- apps/secure-chat/src/routes/secure-chat.ts.
use mathlib.Core.Path.{subst}
use philosophy_app.Prelude.{
  ℕ, ◌≡◌, ◌≢◌, ◌⊎◌, refl, sym, ap, ◌∙◌, inl, inr, Bool, true, false, not, ◌&&◌, Option, some, none,
  List, [], ◌∷◌, arith, ltb, Bool-cases, find_row, has_row, update_rows, All, has_row-update_rows,
  All-update_rows, is_none, ==_refl,
}
use philosophy_app.Http.{
  ok, refuse, bind-ok, ok-injective, refuse-ok, found_or-ok, database_error, found_or,
  device_not_found, key_packages_exhausted,
}
use philosophy_app.Access.{Ctx, require_auth}
use philosophy_app.SecureChat.{Device, KeyPackage, SecureTables, Limits, live_device}
use philosophy_app.SecureChat.Devices.{
  PackageBody, same_ref, package_id, insert_package, insert_packages, claimable, older, oldest,
  consume, Claimed, spend, claim_key_package,
}
use philosophy_app.SecureChat.Steps.{Reach, here, next}
use philosophy_app.SecureChat.Steps.Changes.{
  Change, aside, stocked, spent, opened, grew, shrank, Step-Change,
}
use philosophy_app.SecureChat.Epochs.{add-Advance, remove-Advance, create-Opening}

older-cases : (x : KeyPackage) (o : Option KeyPackage) → (older x o ≡ x) ⊎ (o ≡ some (older x o))
older-cases x none = inl refl
older-cases x (some s) = elim (Bool-cases (ltb x.created_at s.created_at)) [
  | inl before ↦ inl (rw before)
  | inr after ↦ inr (rw after)
]

-- What holds of the package that a claim picks: it is a row, and it satisfies the test.
oldest_found :
    (p q : KeyPackage → Bool) (rows : List KeyPackage) {r : KeyPackage}
    → oldest p rows ≡ some r
    → q r ≡ true
    → (p r ≡ true) × (has_row q rows ≡ true)
unfolding oldest
oldest_found p q [] h k = cc
oldest_found p q (x ∷ xs) {r} h k = elim (Bool-cases (p x)) [
  | inl holds ↦
      let same : older x (oldest p xs) ≡ r = cc (rw holds at h) in
      elim (older-cases x (oldest p xs)) [
        | inl first ↦
            let here : x ≡ r = sym first ∙ same in
            let at : q x ≡ true = subst (λ z. q z ≡ true) (sym here) k in
            (subst (λ z. p z ≡ true) here holds, rw at)
        | inr later ↦
            let rest = oldest_found p q xs {r = r} (later ∙ ap (λ z. some z) same) k in
            (rest.0, rw rest.1 (ground arith))
      ]
  | inr fails ↦
      let rest = oldest_found p q xs {r = r} (rw fails at h) k in (rest.0, rw rest.1 (ground arith))
]

-- The package with the id is there and has been handed out.
abbrev SpentRows : ℕ → List KeyPackage → Type 0
SpentRows id rows =
    (has_row (package_id id) rows ≡ true)
    × All (λ (r : KeyPackage). package_id id r ≡ true → is_none r.consumed_at ≡ false) rows

consumed_used :
    (id user_id now : ℕ) (rows : List KeyPackage)
    → All
        (λ (r : KeyPackage). package_id id r ≡ true → is_none r.consumed_at ≡ false)
        (update_rows (package_id id) (consume user_id now) rows)
consumed_used id user_id now [] = tt
consumed_used id user_id now (x ∷ xs) = elim (Bool-cases (package_id id x)) [
  | inl mine ↦ rw mine (λ at. refl, consumed_used id user_id now xs)
  | inr other ↦ rw other (λ at. absurd (cc (sym other ∙ at)), consumed_used id user_id now xs)
]

spend-Spent :
    (t : SecureTables) (user_id now : ℕ) (r : KeyPackage)
    → has_row (package_id r.id) t.key_packages ≡ true
    → SpentRows r.id (spend t user_id now r).key_packages
spend-Spent t user_id now r found = (
  has_row-update_rows (package_id r.id) (package_id r.id) (consume user_id now) t.key_packages
        (λ x. refl)
      ∙ found,
  consumed_used r.id user_id now t.key_packages,
)

insert_package-Spent :
    (id : ℕ) (dev : Device) (now fresh : ℕ) (kp : PackageBody) (rows : List KeyPackage)
    {grown : List KeyPackage}
    → insert_package dev now fresh kp rows ≡ ok grown
    → SpentRows id rows
    → SpentRows id grown
unfolding insert_package
insert_package-Spent id dev now fresh kp rows {grown} h old =
    elim (Bool-cases (has_row (same_ref dev.id kp.key_package_ref) rows)) [
      | inl known ↦ subst (SpentRows id) (ok-injective (rw (insert_package, known) at h)) old
      | inr unknown ↦
          let (u, free, h1) =
            bind-ok {A = Unit} (refuse (has_row (package_id fresh) rows) database_error) _
              (rw (insert_package, unknown) at h) in
          subst (SpentRows id) (ok-injective h1) (
            rw old.0 (ground arith),
            (
              λ mine.
                  let here : fresh ≡ id = ground arith in
                  let gone =
                    subst (λ (i : ℕ). has_row (package_id i) rows ≡ false) here
                      (refuse-ok _ _ free) in
                  absurd (cc (sym gone ∙ old.0)),
              old.1,
            ),
          )
    ]

insert_packages-Spent :
    (id : ℕ) (dev : Device) (now : ℕ) (packages : List (ℕ × PackageBody)) (rows : List KeyPackage)
    {grown : List KeyPackage}
    → insert_packages dev now packages rows ≡ ok grown
    → SpentRows id rows
    → SpentRows id grown
unfolding insert_packages
insert_packages-Spent id dev now [] rows h old = subst (SpentRows id) (ok-injective h) old
insert_packages-Spent id dev now ((fresh, kp) ∷ rest) rows h old =
    let (next_rows, one, h1) = bind-ok (insert_package dev now fresh kp rows) _ h in
    insert_packages-Spent id dev now rest next_rows h1
      (insert_package-Spent id dev now fresh kp rows one old)

-- A later claim changes no package that has been handed out into one that has not.
spend-SpentRows :
    (id user_id now : ℕ) (t : SecureTables) (r : KeyPackage)
    → SpentRows id t.key_packages
    → SpentRows id (spend t user_id now r).key_packages
spend-SpentRows id user_id now t r old = (
  has_row-update_rows (package_id id) (package_id r.id) (consume user_id now) t.key_packages
        (λ x. refl)
      ∙ old.0,
  All-update_rows _ (package_id r.id) (consume user_id now) t.key_packages
      (λ x picked used mine. refl) old.1,
)

Change-Spent :
    (id : ℕ) (t t' : SecureTables)
    → Change t t'
    → SpentRows id t.key_packages
    → SpentRows id t'.key_packages
Change-Spent id t t' (aside same keys) old = rw keys old
Change-Spent id t t' (stocked dev now packages h same) old =
    insert_packages-Spent id dev now packages t.key_packages h old
Change-Spent id t t' (spent user_id now r) old = spend-SpentRows id user_id now t r old
Change-Spent id t t' (opened project_id me body fresh now h) old =
    rw (create-Opening t project_id me body fresh now h).keys_kept old
Change-Spent id t t' (grew project_id id' body bytes h) old =
    rw (add-Advance t project_id id' body bytes h).keys_kept old
Change-Spent id t t' (shrank project_id id' target e bytes now h) old =
    rw (remove-Advance t project_id id' target e bytes now h).keys_kept old

Reach-Spent :
    (limits : Limits) (id : ℕ) (s t : SecureTables)
    → Reach limits s t
    → SpentRows id s.key_packages
    → SpentRows id t.key_packages
Reach-Spent limits id s t here old = old
Reach-Spent limits id s t (next {u} steps last) old =
    Change-Spent id u t (Step-Change limits u last) (Reach-Spent limits id s u steps old)

and_left : (a b : Bool) → (a && b) ≡ true → a ≡ true
and_left true b h = refl
and_left false b h = h

-- What a claim that succeeds has picked and left.
record Picked (t : SecureTables) (device_id now : ℕ) (x : Claimed) : Type 0 where
  row : KeyPackage
  user_id : ℕ
  open_row : claimable device_id now row ≡ true
  present : (q : KeyPackage → Bool) → q row ≡ true → has_row q t.key_packages ≡ true
  spent_row : x.tables ≡ spend t user_id now row
  handed : x.key_package ≡ consume user_id now row

claim-Picked :
    (t : SecureTables) (c : Ctx) (device_id : ℕ) (locked : KeyPackage → Bool) (now : ℕ)
    {x : Claimed}
    → claim_key_package t c device_id locked now ≡ ok x
    → Picked t device_id now x
unfolding claim_key_package
claim-Picked t c device_id locked now {x} h =
    let (auth, from0, h1) = bind-ok (require_auth c) _ h in
    let (dev, from1, h2) =
      bind-ok (found_or device_not_found (find_row (live_device c.project_id device_id) t.devices))
        _ h1 in
    let (r, from2, h3) =
      bind-ok
        (found_or key_packages_exhausted
          (oldest (λ (r : KeyPackage). claimable device_id now r && not (locked r)) t.key_packages))
        _ h2 in
    let same = ok-injective h3 in
    let found = λ (q : KeyPackage → Bool).
      oldest_found (λ (r : KeyPackage). claimable device_id now r && not (locked r)) q
        t.key_packages {r = r} (found_or-ok _ _ from2) in
    record {
      row = r;
      user_id = auth.user_id;
      open_row =
          and_left (claimable device_id now r) (not (locked r))
            (found (package_id r.id) (==_refl r.id)).0;
      present = λ q at. (found q at).1;
      spent_row = ap (λ (y : Claimed). y.tables) (sym same);
      handed = ap (λ (y : Claimed). y.key_package) (sym same);
    }

none_unused :
    (id : ℕ) (rows : List KeyPackage)
    → All (λ (r : KeyPackage). package_id id r ≡ true → is_none r.consumed_at ≡ false) rows
    → has_row (λ (r : KeyPackage). package_id id r && is_none r.consumed_at) rows ≡ false
none_unused id [] a = refl
none_unused id (x ∷ xs) (at, later) = elim (Bool-cases (package_id id x)) [
  | inl mine ↦ rw (mine, at mine, none_unused id xs later)
  | inr other ↦ rw (other, none_unused id xs later)
]

-- A key package that a claim has handed out is handed out by no later claim, on whatever device and
-- by whomever, after any sequence of requests and whatever rows are locked.
pub claimed_once :
    (limits : Limits) (t u : SecureTables) (c c' : Ctx) (device_id device_id' : ℕ)
    (locked locked' : KeyPackage → Bool) (now now' : ℕ) (first second : Claimed)
    → claim_key_package t c device_id locked now ≡ ok first
    → Reach limits first.tables u
    → claim_key_package u c' device_id' locked' now' ≡ ok second
    → second.key_package.id ≢ first.key_package.id
claimed_once limits t u c c' device_id device_id' locked locked' now now' first second h steps h'
      same =
    let one = claim-Picked t c device_id locked now h in
    let two = claim-Picked u c' device_id' locked' now' h' in
    let used = Reach-Spent limits one.row.id first.tables u steps (
      rw one.spent_row (
        spend-Spent t one.user_id now one.row
          (one.present (package_id one.row.id) (==_refl one.row.id)))) in
    let ids : two.row.id ≡ one.row.id =
      sym (ap (λ (r : KeyPackage). r.id) two.handed)
      ∙ same
      ∙ ap (λ (r : KeyPackage). r.id) one.handed in
    let fresh : is_none two.row.consumed_at ≡ true = ground (arith, two.open_row) in
    let again =
      two.present (λ (r : KeyPackage). package_id one.row.id r && is_none r.consumed_at)
        (rw fresh (ground arith)) in
    absurd (cc (sym again ∙ none_unused one.row.id u.key_packages used.1))
