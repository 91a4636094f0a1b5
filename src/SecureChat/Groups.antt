-- ===== src/SecureChat/Groups.antt =====
-- Conversations and their membership: the handlers under `/conversations` of
-- apps/secure-chat/src/routes/secure-chat.ts that order the MLS commits. An insert that breaks a
-- foreign key, a unique index or the range of a column fails as `database_error`, unless the handler
-- names it.
mod Statements
unfoldable pub use Statements.*
use philosophy_app.Prelude.{
  ℕ, Bool, true, false, ◌&&◌, ◌||◌, Option, none, some, List, [], ◌∷◌, ◌+◌, suc, max, ◌==◌, ltb,
  if◌then◌else◌, has_row, update_rows, is_some,
}
use philosophy_app.Http.{
  not_admin, epoch_conflict, duplicate_group, channel_needs_space, space_only_channel,
  database_error, Result, ok, err, ◌>>=◌, ◌>>◌, refuse, guard, parse_body,
}
use philosophy_app.Roles.{UuidText, printed, text_eq}
use philosophy_app.Access.{Ctx, require_auth}
use philosophy_app.Connections.{Profile}
use philosophy_app.SecureChat.{
  Device, Conversation, ConversationType, channel, ConversationMember, admin, member, HandshakeKind,
  welcome, commit, SecureTables, Limits, Payload, int8_limit, assert_size, get_secure_conversation,
  require_secure_member, assert_space_access,
}

abbrev pub is_admin : ConversationMember → Bool
is_admin m = elim m.role [ admin ↦ true | member ↦ false ]

pub record CommitBody : Type 0 where
  pub payload : Payload
  pub epoch : ℕ

pub record AddBody : Type 0 where
  pub user_id : ℕ
  pub commit_body : CommitBody
  pub welcomes : List WelcomeBody

-- The transaction of `POST /conversations/:id/members`.
unfoldable pub add_transaction : SecureTables → ℕ → ℕ → AddBody → ℕ → Result SecureTables
unfolding bump_epoch upsert_member push_handshake storable push_welcomes
add_transaction t project_id id body bytes = do
  bumped ← bump_epoch t id body.commit_body.epoch
  guard (has_profile t body.user_id) database_error
  let joined = record bumped {
    members = upsert_member project_id id body.user_id body.commit_body.epoch bumped.members;
  }
  insert_welcomes (push_handshake joined project_id id commit body.commit_body.epoch bytes none)
      project_id id body.welcomes

-- `POST /conversations/:id/members`
unfoldable pub add_member : Limits → SecureTables → Ctx → ℕ → Option AddBody → Result SecureTables
unfolding get_secure_conversation require_secure_member assert_size assert_welcomes add_transaction
add_member limits t c id body = do
  auth ← require_auth c
  convo ← get_secure_conversation t c.project_id id
  caller ← require_secure_member t c.project_id convo.id auth.user_id
  guard (is_admin caller) not_admin
  request ← parse_body body
  bytes ← assert_size request.commit_body.payload limits.max_handshake_bytes
  assert_welcomes limits request.welcomes
  add_transaction t c.project_id convo.id request bytes

abbrev pub leave : ℕ → ConversationMember → ConversationMember
leave now m = record m { is_active = false; left_at = some now }

-- The transaction of `DELETE /conversations/:id/members/:userId`.
unfoldable pub remove_transaction : SecureTables → ℕ → ℕ → ℕ → ℕ → ℕ → ℕ → Result SecureTables
unfolding bump_epoch push_handshake
remove_transaction t project_id id target new_epoch bytes now = do
  bumped ← bump_epoch t id new_epoch
  let left = record bumped {
    members = update_rows (member_of id target) (leave now) bumped.members;
  }
  ok (push_handshake left project_id id commit new_epoch bytes none)

-- `DELETE /conversations/:id/members/:userId`
unfoldable pub remove_member :
    Limits → SecureTables → Ctx → ℕ → UuidText → Option CommitBody → ℕ → Result SecureTables
unfolding get_secure_conversation require_secure_member assert_size remove_transaction
remove_member limits t c id target body now = do
  auth ← require_auth c
  convo ← get_secure_conversation t c.project_id id
  caller ← require_secure_member t c.project_id convo.id auth.user_id
  guard (text_eq target (printed auth.user_id) || is_admin caller) not_admin
  request ← parse_body body
  bytes ← assert_size request.payload limits.max_handshake_bytes
  remove_transaction t c.project_id convo.id target.uuid request.epoch bytes now

pub record CreateBody : Type 0 where
  pub kind : ConversationType
  pub mls_group_id : ℕ
  pub space_id : Option ℕ
  pub name : Option ℕ
  pub member_user_ids : List ℕ
  pub welcomes : List WelcomeBody

abbrev pub is_channel : ConversationType → Bool
is_channel channel = true
is_channel _ = false

abbrev pub assert_channel_space : SecureTables → ℕ → ℕ → Option ℕ → Result (Unit {0})
assert_channel_space t project_id me none = err channel_needs_space
assert_channel_space t project_id me (some space_id) = assert_space_access t project_id space_id me

-- A space is given for a channel, whose members the caller is one of, and for nothing else.
abbrev pub assert_space_for : SecureTables → ℕ → ℕ → CreateBody → Result (Unit {0})
assert_space_for t project_id me body =
    if is_channel body.kind
    then assert_channel_space t project_id me body.space_id
    else refuse (is_some body.space_id) space_only_channel

-- `welcomeValues.reduce`
pub initial_epoch : List WelcomeBody → ℕ
initial_epoch [] = 0
initial_epoch (w ∷ ws) = max w.epoch (initial_epoch ws)

abbrev pub taken_group : ℕ → ℕ → Conversation → Bool
taken_group project_id mls_group_id r = r.project_id == project_id && r.mls_group_id == mls_group_id

-- The rows of the members, the caller's as admin. The user ids are a set, and every one is a profile.
pub insert_members :
    SecureTables → ℕ → ℕ → ℕ → List ℕ → List ConversationMember → Result (List ConversationMember)
insert_members t project_id id me [] rows = ok rows
insert_members t project_id id me (u ∷ us) rows = do
  guard (has_profile t u) database_error
  insert_members t project_id id me us (
      if has_row (member_of id u) rows
      then rows
      else record {
        project_id = project_id;
        conversation_id = id;
        user_id = u;
        role = if u == me then admin else member;
        is_active = true;
        joined_at_epoch = some 0;
        last_read_at = none;
        left_at = none;
      }
        ∷ rows)

-- The transaction of `POST /conversations`. The unique index on the group is an answer of its own.
unfoldable pub create_transaction : SecureTables → ℕ → ℕ → CreateBody → ℕ → ℕ → Result SecureTables
unfolding initial_epoch insert_members storable push_welcomes
create_transaction t project_id me body fresh now = do
  guard (ltb (initial_epoch body.welcomes) int8_limit) database_error
  refuse (has_row (conversation_id_is fresh) t.conversations) duplicate_group
  refuse (has_row (taken_group project_id body.mls_group_id) t.conversations) duplicate_group
  rows ← insert_members t project_id fresh me (me ∷ body.member_user_ids) t.members
  let created = record t {
    conversations =
        record {
          id = fresh;
          project_id = project_id;
          kind = body.kind;
          mls_group_id = body.mls_group_id;
          space_id = body.space_id;
          current_epoch = initial_epoch body.welcomes;
          name = body.name;
          created_by_id = some me;
          last_message_at = none;
          created_at = now;
        }
        ∷ t.conversations;
    members = rows;
  }
  insert_welcomes created project_id fresh body.welcomes

-- `POST /conversations`
unfoldable pub create_conversation :
    Limits → SecureTables → Ctx → Option CreateBody → ℕ → ℕ → Result SecureTables
unfolding assert_space_access assert_welcomes create_transaction
create_conversation limits t c body fresh now = do
  auth ← require_auth c
  request ← parse_body body
  assert_space_for t c.project_id auth.user_id request
  assert_welcomes limits request.welcomes
  create_transaction t c.project_id auth.user_id request fresh now

-- `POST /conversations/:id/read`
unfoldable pub mark_read : SecureTables → Ctx → ℕ → ℕ → Result SecureTables
unfolding get_secure_conversation require_secure_member
mark_read t c id now = do
  auth ← require_auth c
  convo ← get_secure_conversation t c.project_id id
  caller ← require_secure_member t c.project_id convo.id auth.user_id
  ok (record t {
    members =
        update_rows (member_of convo.id auth.user_id)
          (λ (m : ConversationMember). record m { last_read_at = some now }) t.members;
  })
