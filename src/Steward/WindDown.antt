-- ===== src/Steward/WindDown.antt =====
-- What closing a case does to its channels: `closeMediationForCase` of apps/api/src/lib/mediation.ts.
use philosophy_app.Prelude.{
  ℕ, ◌≡◌, ◌≢◌, refl, inl, inr, Bool, true, false, ◌&&◌, ◌||◌, List, [], ◌∷◌, ◌==◌, ==_refl,
  Bool-cases, has_row, select_rows, All, All-update_rows,
}
use philosophy_app.Steward.{MediationOnClose, archive_read_only, lock_leave, leave_open}
use philosophy_app.Steward.Mediation.{
  Channel, Mediation, lock_channel, close_channel, close_channels, close_mediation_for_case,
}

All-zip :
    (P Q R : Channel → Type 0) (xs : List Channel)
    → ((x : Channel) → P x → Q x → R x)
    → All P xs
    → All Q xs
    → All R xs
All-zip P Q R [] f a b = tt
All-zip P Q R (x ∷ xs) f (p, ps) (q, qs) = (f x p q, All-zip P Q R xs f ps qs)

-- A property that locking keeps, the loop keeps.
close_channels-All :
    (P : Channel → Type 0) (on_close : MediationOnClose) (chosen : List Channel) (m : Mediation)
    → ((c : Channel) → P c → P (record c { admins_only = true }))
    → All P m.channels
    → All P (close_channels on_close chosen m).channels
close_channels-All P on_close [] m keeps a = a
close_channels-All P on_close (d ∷ rest) m keeps a =
    close_channels-All P on_close rest (close_channel on_close d.id m) keeps (
      All-update_rows P (λ (c : Channel). c.id == d.id) (λ c. record c { admins_only = true })
        m.channels (λ c e p. keeps c p) a)

lock_channel-All :
    (id : ℕ) (rows : List Channel)
    → All (λ (c : Channel). (c.id == id) ≡ true → c.admins_only ≡ true) (lock_channel id rows)
lock_channel-All id [] = tt
lock_channel-All id (c ∷ rows) = elim (Bool-cases (c.id == id)) [
  | inl hit ↦ rw hit (λ e. refl, lock_channel-All id rows)
  | inr miss ↦ rw miss (λ e. cc, lock_channel-All id rows)
]

All-vacuous :
    (P : Channel → Type 0) (rows : List Channel) → All (λ (c : Channel). false ≡ true → P c) rows
All-vacuous P [] = tt
All-vacuous P (c ∷ rows) = (λ e. cc, All-vacuous P rows)

chosen_locked :
    (on_close : MediationOnClose) (chosen : List Channel) (m : Mediation)
    → All
        (λ (c : Channel).
          has_row (λ (d : Channel). c.id == d.id) chosen ≡ true → c.admins_only ≡ true)
        (close_channels on_close chosen m).channels
chosen_locked on_close [] m = All-vacuous _ m.channels
chosen_locked on_close (d ∷ rest) m =
    let after = close_channel on_close d.id m in
    All-zip _ _ _ (close_channels on_close rest after).channels
      (λ c here later e. elim (Bool-cases (c.id == d.id)) [
        | inl hit ↦ here hit
        | inr miss ↦ later (rw miss at e)
      ])
      (close_channels-All (λ (c : Channel). (c.id == d.id) ≡ true → c.admins_only ≡ true) on_close
        rest after (λ c p e. refl) (lock_channel-All d.id m.channels))
      (chosen_locked on_close rest after)

All-each :
    (P Q : Channel → Type 0) (xs : List Channel) → ((x : Channel) → P x → Q x) → All P xs → All Q xs
All-each P Q [] f a = tt
All-each P Q (x ∷ xs) f (p, ps) = (f x p, All-each P Q xs f ps)

or_later : (a b : Bool) → b ≡ true → (a || b) ≡ true
or_later true b e = refl
or_later false b e = e

selected_chosen :
    (q : Channel → Bool) (rows : List Channel)
    → All
        (λ (c : Channel).
          q c ≡ true → has_row (λ (d : Channel). c.id == d.id) (select_rows q rows) ≡ true)
        rows
selected_chosen q [] = tt
selected_chosen q (x ∷ rows) = elim (Bool-cases (q x)) [
  | inl taken ↦ rw taken (
    λ e. rw (==_refl x.id) refl,
    All-each _ _ rows
        (λ c later k. rw taken (
          or_later (c.id == x.id) (has_row (λ (d : Channel). c.id == d.id) (select_rows q rows))
            (later k)))
        (selected_chosen q rows),
  )
  | inr left_out ↦
      rw left_out
        (λ e. cc, All-each _ _ rows (λ c later k. rw left_out (later k)) (selected_chosen q rows))
]

abbrev pub of_case : ℕ → ℕ → Channel → Bool
of_case project_id case_id c = c.project_id == project_id && c.steward_case_id == case_id

locked_after :
    (on_close : MediationOnClose) (p id : ℕ) (m : Mediation)
    → All
        (λ (c : Channel). of_case p id c ≡ true → c.admins_only ≡ true)
        (close_channels on_close (select_rows (of_case p id) m.channels) m).channels
locked_after on_close p id m =
    let chosen = select_rows (of_case p id) m.channels in
    All-zip _ _ _ (close_channels on_close chosen m).channels (λ c mine locked e. locked (mine e))
      (close_channels-All
        (λ (c : Channel).
          of_case p id c ≡ true → has_row (λ (d : Channel). c.id == d.id) chosen ≡ true)
        on_close chosen m (λ c k. k) (selected_chosen (of_case p id) m.channels))
      (chosen_locked on_close chosen m)

-- Unless the project leaves channels open, the wind-down of a case leaves every channel of the case
-- with posting restricted to admins.
pub wind_down_locks :
    (on_close : MediationOnClose) (p id : ℕ) (m : Mediation)
    → on_close ≢ leave_open
    → All
        (λ (c : Channel). of_case p id c ≡ true → c.admins_only ≡ true)
        (close_mediation_for_case on_close p id m).channels
unfolding close_mediation_for_case
wind_down_locks leave_open p id m ne = absurd (ne refl)
wind_down_locks archive_read_only p id m ne = locked_after archive_read_only p id m
wind_down_locks lock_leave p id m ne = locked_after lock_leave p id m
