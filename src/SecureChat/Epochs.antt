-- ===== src/SecureChat/Epochs.antt =====
-- The order of the commits that apps/secure-chat/src/routes/secure-chat.ts keeps by the epoch of a
-- conversation.
pub mod Linear
pub mod Order
use mathlib.Core.Option
use mathlib.Core.Path.{subst}
use mathlib.Core.Path.{subst}
use philosophy_app.Prelude.{
  ◌<◌, arith, none, ltb, false, ℕ, ◌+◌, ◌≤◌, ◌≡◌, refl, sym, ap, ◌∙◌, inl, inr, Bool, true, ◌&&◌,
  Option, some, none, List, [], ◌∷◌, arith, ◌==◌, ltb, if◌then◌else◌, Bool-cases, Option-cases,
  find_row, has_row, count_rows, update_rows, All, find_row_of_has, All-of_unique, All-find_row,
  count_rows-update_rows, count_rows_absent, count_rows_of_find, count_rows-none,
  find_row-update_rows, find_row_sound, count_rows_zero-find,
}
use philosophy_app.Http.{
  Result, ok, ◌>>=◌, guard, refuse, bind-ok, ok-injective, guard-ok, refuse-ok, epoch_conflict,
  database_error, duplicate_group,
}
use philosophy_app.SecureChat.{
  Conversation, Handshake, HandshakeKind, welcome, commit, SecureTables, Limits, int8_limit,
}
use philosophy_app.SecureChat.Groups.{
  WelcomeBody, AddBody, CreateBody, push_handshake, push_welcomes, storable, bump_epoch, one_behind,
  conversation_id_is, has_profile, upsert_member, member_of, leave, add_transaction,
  remove_transaction, create_transaction, initial_epoch, taken_group, insert_members,
}
use philosophy_app.SecureChat.Steps.{Step, Reach, here, next}
use philosophy_app.SecureChat.Steps.Changes.{
  Change, SameLog, aside, stocked, spent, opened, grew, shrank, Step-Change,
}

abbrev pub is_commit : HandshakeKind → Bool
is_commit commit = true
is_commit _ = false

abbrev pub commit_in : ℕ → Handshake → Bool
commit_in id h = is_commit h.kind && h.conversation_id == id

-- The epochs of the commits of a conversation, the last first.
abbrev pub commit_epochs : ℕ → List Handshake → List ℕ
commit_epochs id [] = []
commit_epochs id (h ∷ hs) =
    if commit_in id h then h.epoch ∷ commit_epochs id hs else commit_epochs id hs

pub welcomes_conversations :
    (t : SecureTables) (project_id id : ℕ) (ws : List WelcomeBody)
    → (push_welcomes t project_id id ws).conversations ≡ t.conversations
unfolding push_welcomes
welcomes_conversations t project_id id [] = refl
welcomes_conversations t project_id id (w ∷ ws) =
    welcomes_conversations
      (push_handshake t project_id id welcome w.epoch w.payload.bytes (some w.target_device_id))
      project_id id ws

pub welcomes_commits :
    (t : SecureTables) (project_id id j : ℕ) (ws : List WelcomeBody)
    → commit_epochs j (push_welcomes t project_id id ws).handshakes ≡ commit_epochs j t.handshakes
unfolding push_welcomes
welcomes_commits t project_id id j [] = refl
welcomes_commits t project_id id j (w ∷ ws) =
    welcomes_commits
      (push_handshake t project_id id welcome w.epoch w.payload.bytes (some w.target_device_id))
      project_id id j ws

abbrev pub set_epoch : ℕ → Conversation → Conversation
set_epoch e r = record r { current_epoch = e }

welcomes_keys :
    (t : SecureTables) (project_id id : ℕ) (ws : List WelcomeBody)
    → (push_welcomes t project_id id ws).key_packages ≡ t.key_packages
unfolding push_welcomes
welcomes_keys t project_id id [] = refl
welcomes_keys t project_id id (w ∷ ws) =
    welcomes_keys
      (push_handshake t project_id id welcome w.epoch w.payload.bytes (some w.target_device_id))
      project_id id ws

-- Rows of ever lower numbers, all below a bound.
abbrev pub Descending : ℕ → List Handshake → Type 0
Descending bound [] = Unit
Descending bound (h ∷ hs) = (h.seq < bound) × Descending h.seq hs

-- The log has the last row first, and the sequence is past all its rows.
abbrev pub IsNumbered : SecureTables → Type 0
IsNumbered t = Descending t.next_seq t.handshakes

welcomes-IsNumbered :
    (t : SecureTables) (project_id id : ℕ) (ws : List WelcomeBody)
    → IsNumbered t
    → IsNumbered (push_welcomes t project_id id ws)
unfolding push_welcomes push_handshake
welcomes-IsNumbered t project_id id [] n = n
welcomes-IsNumbered t project_id id (w ∷ ws) n =
    welcomes-IsNumbered
      (push_handshake t project_id id welcome w.epoch w.payload.bytes (some w.target_device_id))
      project_id id ws (omega arith, n)

-- A conversation whose epoch has been advanced, with the commit that advanced it.
pub record Advance (t t' : SecureTables) : Type 0 where
  pub id : ℕ
  pub epoch : ℕ
  pub behind : has_row (one_behind id epoch) t.conversations ≡ true
  pub advanced :
      t'.conversations ≡ update_rows (one_behind id epoch) (set_epoch epoch) t.conversations
  pub recorded :
      (j : ℕ)
      → commit_epochs j t'.handshakes
        ≡ (if id == j then epoch ∷ commit_epochs j t.handshakes else commit_epochs j t.handshakes)
  pub keys_kept : t'.key_packages ≡ t.key_packages
  pub numbered : IsNumbered t → IsNumbered t'

-- What a successful bump has found and left.
pub bumped :
    (t : SecureTables) (id e : ℕ) {b : SecureTables}
    → bump_epoch t id e ≡ ok b
    → (has_row (one_behind id e) t.conversations ≡ true)
      × (record t { conversations = update_rows (one_behind id e) (set_epoch e) t.conversations }
          ≡ b)
unfolding bump_epoch
bumped t id e h =
    let (u, fits, h1) = bind-ok {A = Unit} (guard (ltb e int8_limit) database_error) _ h in
    let (v, found, h2) =
      bind-ok {A = Unit} (guard (has_row (one_behind id e) t.conversations) epoch_conflict) _ h1 in
    (guard-ok _ _ found, ok-injective h2)

record_commit :
    (t : SecureTables) (project_id id e bytes : ℕ) (j : ℕ)
    → commit_epochs j (push_handshake t project_id id commit e bytes none).handshakes
      ≡ (if id == j then e ∷ commit_epochs j t.handshakes else commit_epochs j t.handshakes)
unfolding push_handshake
record_commit t project_id id e bytes j = refl

pub add-Advance :
    (t : SecureTables) (project_id id : ℕ) (body : AddBody) (bytes : ℕ) {t' : SecureTables}
    → add_transaction t project_id id body bytes ≡ ok t'
    → Advance t t'
unfolding add_transaction push_handshake
add-Advance t project_id id body bytes {t'} h =
    let e = body.commit_body.epoch in
    let (b, stepped, h1) = bind-ok (bump_epoch t id e) _ h in
    let (u, known, h2) =
      bind-ok {A = Unit} (guard (has_profile t body.user_id) database_error) _ h1 in
    let joined : SecureTables = record b {
      members = upsert_member project_id id body.user_id e b.members;
    } in
    let logged = push_handshake joined project_id id commit e bytes none in
    let (v, stored, h3) =
      bind-ok {A = Unit} (guard (storable logged body.welcomes) database_error) _ h2 in
    let (found, same_b) = bumped t id e stepped in
    let same : push_welcomes logged project_id id body.welcomes ≡ t' = ok-injective h3 in
    record {
      id = id;
      epoch = e;
      behind = found;
      advanced =
          ap (λ (x : SecureTables). x.conversations) (sym same)
          ∙ welcomes_conversations logged project_id id body.welcomes
          ∙ ap (λ (x : SecureTables). x.conversations) (sym same_b);
      recorded = λ j.
          ap (λ (x : SecureTables). commit_epochs j x.handshakes) (sym same)
          ∙ welcomes_commits logged project_id id j body.welcomes
          ∙ ap
              (λ (x : SecureTables).
                if id == j then e ∷ commit_epochs j x.handshakes else commit_epochs j x.handshakes)
              (sym same_b);
      keys_kept =
          ap (λ (x : SecureTables). x.key_packages) (sym same)
          ∙ welcomes_keys logged project_id id body.welcomes
          ∙ ap (λ (x : SecureTables). x.key_packages) (sym same_b);
      numbered = λ n. subst IsNumbered same (
          welcomes-IsNumbered logged project_id id body.welcomes
            (omega arith, subst IsNumbered same_b n));
    }

pub remove-Advance :
    (t : SecureTables) (project_id id target e bytes now : ℕ) {t' : SecureTables}
    → remove_transaction t project_id id target e bytes now ≡ ok t'
    → Advance t t'
unfolding remove_transaction push_handshake
remove-Advance t project_id id target e bytes now {t'} h =
    let (b, stepped, h1) = bind-ok (bump_epoch t id e) _ h in
    let (found, same_b) = bumped t id e stepped in
    let left : SecureTables = record b {
      members = update_rows (member_of id target) (leave now) b.members;
    } in
    let same : push_handshake left project_id id commit e bytes none ≡ t' = ok-injective h1 in
    record {
      id = id;
      epoch = e;
      behind = found;
      advanced =
          ap (λ (x : SecureTables). x.conversations) (sym same)
          ∙ ap (λ (x : SecureTables). x.conversations) (sym same_b);
      recorded = λ j.
          ap (λ (x : SecureTables). commit_epochs j x.handshakes) (sym same)
          ∙ ap
              (λ (x : SecureTables).
                if id == j then e ∷ commit_epochs j x.handshakes else commit_epochs j x.handshakes)
              (sym same_b);
      keys_kept =
          ap (λ (x : SecureTables). x.key_packages) (sym same)
          ∙ ap (λ (x : SecureTables). x.key_packages) (sym same_b);
      numbered = λ n. subst IsNumbered same (omega arith, subst IsNumbered same_b n);
    }

-- A conversation that has been inserted, with no commit.
pub record Opening (t t' : SecureTables) : Type 0 where
  pub new : Conversation
  pub absent : has_row (conversation_id_is new.id) t.conversations ≡ false
  pub inserted : t'.conversations ≡ new ∷ t.conversations
  pub recorded : (j : ℕ) → commit_epochs j t'.handshakes ≡ commit_epochs j t.handshakes
  pub keys_kept : t'.key_packages ≡ t.key_packages
  pub numbered : IsNumbered t → IsNumbered t'

pub create-Opening :
    (t : SecureTables) (project_id me : ℕ) (body : CreateBody) (fresh now : ℕ) {t' : SecureTables}
    → create_transaction t project_id me body fresh now ≡ ok t'
    → Opening t t'
unfolding create_transaction
create-Opening t project_id me body fresh now {t'} h =
    let (u, fits, h1) =
      bind-ok {A = Unit} (guard (ltb (initial_epoch body.welcomes) int8_limit) database_error) _
        h in
    let (v, free, h2) =
      bind-ok {A = Unit}
        (refuse (has_row (conversation_id_is fresh) t.conversations) duplicate_group) _ h1 in
    let (w, other, h3) =
      bind-ok {A = Unit}
        (refuse (has_row (taken_group project_id body.mls_group_id) t.conversations)
          duplicate_group)
        _ h2 in
    let (rows, entered, h4) =
      bind-ok (insert_members t project_id fresh me (me ∷ body.member_user_ids) t.members) _ h3 in
    let new : Conversation = record {
      id = fresh;
      project_id = project_id;
      kind = body.kind;
      mls_group_id = body.mls_group_id;
      space_id = body.space_id;
      current_epoch = initial_epoch body.welcomes;
      name = body.name;
      created_by_id = some me;
      last_message_at = none;
      created_at = now;
    } in
    let opened_tables : SecureTables = record t {
      conversations = new ∷ t.conversations;
      members = rows;
    } in
    let (x, stored, h5) =
      bind-ok {A = Unit} (guard (storable opened_tables body.welcomes) database_error) _ h4 in
    let same = ok-injective h5 in
    record {
      new = new;
      absent = refuse-ok _ _ free;
      inserted =
          ap (λ (x : SecureTables). x.conversations) (sym same)
          ∙ welcomes_conversations opened_tables project_id fresh body.welcomes;
      recorded = λ j.
          ap (λ (x : SecureTables). commit_epochs j x.handshakes) (sym same)
          ∙ welcomes_commits opened_tables project_id fresh j body.welcomes;
      keys_kept =
          ap (λ (x : SecureTables). x.key_packages) (sym same)
          ∙ welcomes_keys opened_tables project_id fresh body.welcomes;
      numbered = λ n.
          subst IsNumbered same
            (welcomes-IsNumbered opened_tables project_id fresh body.welcomes n);
    }
