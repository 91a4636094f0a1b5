-- ===== src/Http.antt =====
-- packages/core/src/http/errors.ts: an `ApiError` is the value of a failed handler. One constructor
-- for each code that the modelled handlers throw; `too_large` stands for every 413.
pub mod Paging
use philosophy_app.Prelude.{Bool, true, false, Option, none, some, ◌≡◌, refl}

pub data Failure : Type 0 where
  invalid_body : Failure
  unauthorized suspended : Failure
  owner_only admin_only settings_read_only steward_forbidden : Failure
  roles_user_not_found roles_invalid_user roles_invalid_role last_owner : Failure
  members_only not_a_space_member posting_restricted space_not_found : Failure
  entity_not_found : Failure
  no_profile invalid_id missing_target connect_self already_connected already_pending : Failure
  connection_not_found connection_not_pending : Failure
  event_not_found not_visible not_host rsvp_closed maybe_not_allowed capacity_full : Failure
  invalid_user guest_list_hidden : Failure
  case_not_found report_not_found use_escalate no_subject subject_not_found : Failure
  no_parties joint_not_allowed steward_user_not_found : Failure
  device_not_found backup_not_found missing_user key_packages_exhausted conversation_not_found
        not_a_member not_admin :
      Failure
  space_cycle bad_parent too_deep insufficient_role not_space_owner rejected_by_webhook : Failure
  member_not_found entity_not_in_space comment_not_found rule_not_found : Failure
  epoch_conflict epoch_out_of_range device_mismatch duplicate_group too_large : Failure
  channel_needs_space space_only_channel restore_target_not_member restore_blob_not_found : Failure
  rate_limited database_error : Failure

-- What a handler answers: a thrown failure, or a value.
pub data Result {ℓ} (A : Type ℓ) : Type ℓ where
  err : Failure → Result A
  ok : A → Result A

abbrev pub is_ok {ℓ} : {A : Type ℓ} → Result A → Bool
is_ok (err e) = false
is_ok (ok a) = true

-- `if (b) throw e`
abbrev pub refuse : Bool → Failure → Result (Unit {0})
refuse true e = err e
refuse false e = ok tt

-- `if (!b) throw e`
abbrev pub guard : Bool → Failure → Result (Unit {0})
guard false e = err e
guard true e = ok tt

module _ {ℓ κ} {A : Type ℓ} {B : Type κ} where
  infixl 5 ◌>>=◌
  abbrev pub ◌>>=◌ : Result A → (A → Result B) → Result B
  err thrown >>= rest = err thrown
  ok value >>= rest = rest value

infixl 5 ◌>>◌
abbrev pub ◌>>◌ {κ} : {B : Type κ} → Result (Unit {0}) → Result B → Result B
check >> rest = check >>= λ _. rest

-- `parseBody`: a body that does not validate is none.
abbrev pub parse_body {ℓ} : {A : Type ℓ} → Option A → Result A
parse_body none = err invalid_body
parse_body (some body) = ok body

-- A query that has to find its row.
abbrev pub found_or {ℓ} : {A : Type ℓ} → Failure → Option A → Result A
found_or missing none = err missing
found_or missing (some row) = ok row

-- A chain that succeeds, taken apart at its first step.
pub bind-ok {ℓ κ} :
    {A : Type ℓ} {B : Type κ} (check : Result A) (rest : A → Result B) {answer : B}
    → (check >>= rest) ≡ ok answer
    → (value : A) × (check ≡ ok value) × (rest value ≡ ok answer)
bind-ok (err thrown) rest h = absurd cc
bind-ok (ok value) rest h = (value, refl, h)

pub ok-injective {ℓ} : {A : Type ℓ} {a b : A} → ok a ≡ ok b → a ≡ b
ok-injective h = cc h

pub guard-ok : (b : Bool) (e : Failure) {u : Unit {0}} → guard b e ≡ ok u → b ≡ true
guard-ok true e h = refl
guard-ok false e h = absurd cc

pub refuse-ok : (b : Bool) (e : Failure) {u : Unit {0}} → refuse b e ≡ ok u → b ≡ false
refuse-ok true e h = absurd cc
refuse-ok false e h = refl

pub found_or-ok {ℓ} :
    {A : Type ℓ} (e : Failure) (o : Option A) {a : A} → found_or e o ≡ ok a → o ≡ some a
found_or-ok e none h = absurd cc
found_or-ok e (some x) h = cc
