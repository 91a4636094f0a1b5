-- ===== src/SecureChat/Groups/Statements.antt =====
-- The statements that the handlers on conversations run: inserts into the log of handshakes, the
-- optimistic update of the epoch, and the upsert of a member, in
-- apps/secure-chat/src/routes/secure-chat.ts.
use philosophy_app.Prelude.{
  ℕ, Bool, true, ◌&&◌, Option, none, some, List, [], ◌∷◌, ◌+◌, suc, ◌==◌, ltb, if◌then◌else◌,
  has_row, update_rows,
}
use philosophy_app.Http.{epoch_conflict, database_error, Result, ok, ◌>>=◌, ◌>>◌, guard}
use philosophy_app.Connections.{Profile}
use philosophy_app.SecureChat.{
  Device, Conversation, ConversationMember, member, HandshakeKind, welcome, SecureTables, Limits,
  Payload, int8_limit, assert_size,
}

pub record WelcomeBody : Type 0 where
  pub target_device_id : ℕ
  pub payload : Payload
  pub epoch : ℕ

-- `body.welcomes.map`, which throws at the first welcome that is too large.
unfoldable pub assert_welcomes : Limits → List WelcomeBody → Result (Unit {0})
unfolding assert_size
assert_welcomes limits [] = ok tt
assert_welcomes limits (w ∷ ws) = do
  bytes ← assert_size w.payload limits.max_handshake_bytes
  assert_welcomes limits ws

abbrev pub has_profile : SecureTables → ℕ → Bool
has_profile t user_id = has_row (λ (p : Profile). p.id == user_id) t.profiles

-- The device of a welcome exists, also where it is revoked, and the epoch fits its column.
unfoldable pub storable : SecureTables → List WelcomeBody → Bool
storable t [] = true
storable t (w ∷ ws) =
    has_row (λ (d : Device). d.id == w.target_device_id) t.devices
    && ltb w.epoch int8_limit
    && storable t ws

-- `insert(secureHandshakeMessages)`: the sequence gives the row its number.
unfoldable pub push_handshake :
    SecureTables → ℕ → ℕ → HandshakeKind → ℕ → ℕ → Option ℕ → SecureTables
push_handshake t project_id conversation_id kind epoch payload target = record t {
  handshakes =
      record {
        seq = t.next_seq;
        project_id = project_id;
        conversation_id = conversation_id;
        kind = kind;
        epoch = epoch;
        payload = payload;
        sender_device_id = none;
        target_device_id = target;
      }
      ∷ t.handshakes;
  next_seq = suc t.next_seq;
}

unfoldable pub push_welcomes : SecureTables → ℕ → ℕ → List WelcomeBody → SecureTables
unfolding push_handshake
push_welcomes t project_id conversation_id [] = t
push_welcomes t project_id conversation_id (w ∷ ws) =
    push_welcomes
      (push_handshake t project_id conversation_id welcome w.epoch w.payload.bytes
        (some w.target_device_id))
      project_id conversation_id ws

abbrev pub insert_welcomes : SecureTables → ℕ → ℕ → List WelcomeBody → Result SecureTables
insert_welcomes t project_id conversation_id ws = do
  guard (storable t ws) database_error
  ok (push_welcomes t project_id conversation_id ws)

abbrev pub conversation_id_is : ℕ → Conversation → Bool
conversation_id_is id r = r.id == id

-- `id = convo.id and current_epoch = newEpoch - 1`, with `newEpoch - 1` as the integer that it is.
abbrev pub one_behind : ℕ → ℕ → Conversation → Bool
one_behind id new_epoch r = r.id == id && r.current_epoch + 1 == new_epoch

-- `update(secureConversations).set({ currentEpoch: newEpoch })`, which has to find its row.
unfoldable pub bump_epoch : SecureTables → ℕ → ℕ → Result SecureTables
bump_epoch t id new_epoch = do
  guard (ltb new_epoch int8_limit) database_error
  guard (has_row (one_behind id new_epoch) t.conversations) epoch_conflict
  ok (record t {
    conversations =
        update_rows (one_behind id new_epoch)
          (λ (r : Conversation). record r { current_epoch = new_epoch }) t.conversations;
  })

abbrev pub member_of : ℕ → ℕ → ConversationMember → Bool
member_of conversation_id user_id m = m.conversation_id == conversation_id && m.user_id == user_id

-- `on conflict (conversation_id, user_id) do update`: a member who comes back keeps the role.
unfoldable pub upsert_member : ℕ → ℕ → ℕ → ℕ → List ConversationMember → List ConversationMember
upsert_member project_id conversation_id user_id new_epoch rows =
    if has_row (member_of conversation_id user_id) rows
    then update_rows (member_of conversation_id user_id)
        (λ (m : ConversationMember). record m {
          is_active = true;
          left_at = none;
          joined_at_epoch = some new_epoch;
        })
        rows
    else record {
      project_id = project_id;
      conversation_id = conversation_id;
      user_id = user_id;
      role = member;
      is_active = true;
      joined_at_epoch = some new_epoch;
      last_read_at = none;
      left_at = none;
    }
      ∷ rows
