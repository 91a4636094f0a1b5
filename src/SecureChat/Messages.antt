-- ===== src/SecureChat/Messages.antt =====
-- Ciphertexts, the lists of conversations and messages, and the inbox of handshakes of a device:
-- apps/secure-chat/src/routes/secure-chat.ts.
use philosophy_app.Prelude.{
  ℕ, Bool, true, ◌&&◌, ◌||◌, Option, none, some, List, [], ◌∷◌, ◌+◌, ◌==◌, ltb, if◌then◌else◌,
  has_row, find_row, select_rows, count_rows, is_none, some_eq, sort_rows, Page,
}
use philosophy_app.Http.{
  device_mismatch, epoch_out_of_range, database_error, Result, ok, ◌>>=◌, ◌>>◌, refuse, guard,
  found_or, parse_body,
}
use philosophy_app.Http.Paging.{LimitQuery, ShortQuery, clamp_limit, page_of}
use philosophy_app.Access.{Ctx, require_auth}
use philosophy_app.SecureChat.{
  Conversation, ConversationMember, SecureMessage, Handshake, SecureTables, Limits, Payload,
  int8_limit, assert_size, my_device, get_my_device, get_secure_conversation, require_secure_member,
}
use philosophy_app.SecureChat.Groups.{conversation_id_is}

abbrev pub epoch_window : ℕ
epoch_window = 1000

pub record MessageBody : Type 0 where
  pub ciphertext : Payload
  pub epoch : ℕ
  pub sender_device_id : ℕ
  pub content_type : Option ℕ

-- `POST /conversations/:id/messages`. No content type stands for "application".
unfoldable pub send_message :
    Limits → SecureTables → Ctx → ℕ → Option MessageBody → ℕ → ℕ → Result SecureTables
unfolding get_secure_conversation require_secure_member assert_size
send_message limits t c id body fresh now = do
  auth ← require_auth c
  convo ← get_secure_conversation t c.project_id id
  caller ← require_secure_member t c.project_id convo.id auth.user_id
  request ← parse_body body
  dev ←
      found_or device_mismatch
        (find_row (my_device c.project_id auth.user_id request.sender_device_id) t.devices)
  refuse (ltb (convo.current_epoch + epoch_window) request.epoch) epoch_out_of_range
  bytes ← assert_size request.ciphertext limits.max_message_bytes
  guard (ltb request.epoch int8_limit) database_error
  ok (record t {
    messages =
        record {
          id = fresh;
          project_id = c.project_id;
          conversation_id = convo.id;
          sender_user_id = some auth.user_id;
          sender_device_id = some dev.id;
          epoch = request.epoch;
          ciphertext = bytes;
          content_type = request.content_type;
          created_at = now;
        }
        ∷ t.messages;
  })

abbrev pub earlier_than : Option ℕ → ℕ → Bool
earlier_than none at = true
earlier_than (some before) at = ltb at before

abbrev pub newer_message : SecureMessage → SecureMessage → Bool
newer_message a b = ltb b.created_at a.created_at || (a.created_at == b.created_at && ltb b.id a.id)

-- `GET /conversations/:id/messages`
unfoldable pub get_messages :
    ShortQuery → SecureTables → Ctx → ℕ → LimitQuery → Option ℕ → Result (Page SecureMessage)
unfolding get_secure_conversation require_secure_member
get_messages short t c id limit before = do
  auth ← require_auth c
  convo ← get_secure_conversation t c.project_id id
  caller ← require_secure_member t c.project_id convo.id auth.user_id
  page_of short (clamp_limit 20 100 limit) (
      sort_rows newer_message (
        select_rows
          (λ (m : SecureMessage). m.conversation_id == convo.id && earlier_than before m.created_at)
          t.messages))

abbrev pub active_count : SecureTables → ℕ → ℕ
active_count t id =
    count_rows (λ (m : ConversationMember). m.conversation_id == id && m.is_active) t.members

-- `GET /conversations/:id`: the row, the caller's membership and the number of active members.
unfoldable pub get_conversation :
    SecureTables → Ctx → ℕ → Result (Conversation × ConversationMember × ℕ)
unfolding get_secure_conversation require_secure_member
get_conversation t c id = do
  auth ← require_auth c
  convo ← get_secure_conversation t c.project_id id
  caller ← require_secure_member t c.project_id convo.id auth.user_id
  ok (convo, caller, active_count t convo.id)

-- `coalesce(last_message_at, created_at)`
abbrev pub recent : Conversation → ℕ
recent r = elim r.last_message_at [ none ↦ r.created_at | some at ↦ at ]

-- The inner join of memberships with their conversations, before the cursor.
pub join_conversations :
    SecureTables → Option ℕ → List ConversationMember → List (Conversation × ConversationMember)
join_conversations t cursor [] = []
join_conversations t cursor (m ∷ ms) =
    let rest = join_conversations t cursor ms in
    elim (find_row (conversation_id_is m.conversation_id) t.conversations) [
      | none ↦ rest
      | some r ↦ if earlier_than cursor (recent r) then (r, m) ∷ rest else rest
    ]

abbrev pub unread_count : SecureTables → Conversation → ConversationMember → ℕ
unread_count t r m =
    count_rows
      (λ (x : SecureMessage).
        x.conversation_id == r.id
        && elim m.last_read_at [ none ↦ true | some at ↦ ltb at x.created_at ])
      t.messages

pub record ConversationView : Type 0 where
  pub conversation : Conversation
  pub current_member : ConversationMember
  pub member_count : ℕ
  pub unread : ℕ

pub view_rows : SecureTables → List (Conversation × ConversationMember) → List ConversationView
view_rows t [] = []
view_rows t ((r, m) ∷ rest) =
    record {
      conversation = r;
      current_member = m;
      member_count = active_count t r.id;
      unread = unread_count t r m;
    }
    ∷ view_rows t rest

-- `GET /conversations`
unfoldable pub get_conversations :
    ShortQuery → SecureTables → Ctx → LimitQuery → Option ℕ → Result (Page ConversationView)
unfolding join_conversations view_rows
get_conversations short t c limit cursor = do
  auth ← require_auth c
  let mine =
      select_rows
        (λ (m : ConversationMember).
          m.project_id == c.project_id && (m.user_id == auth.user_id && m.is_active))
        t.members
  page ← page_of short (clamp_limit 20 100 limit) (
      sort_rows
        (λ (a : Conversation × ConversationMember) (b : Conversation × ConversationMember).
          ltb (recent b.0) (recent a.0))
        (join_conversations t cursor mine))
  ok (record { rows = view_rows t page.rows; has_more = page.has_more })

-- A broadcast in a conversation of which the caller is an active member.
abbrev pub broadcast_to : SecureTables → ℕ → ℕ → Handshake → Bool
broadcast_to t project_id user_id h =
    is_none h.target_device_id
    && has_row
        (λ (m : ConversationMember).
          m.project_id == project_id
          && (m.user_id == user_id && (m.is_active && m.conversation_id == h.conversation_id)))
        t.members

abbrev pub delivered_to : SecureTables → ℕ → ℕ → ℕ → ℕ → Handshake → Bool
delivered_to t project_id user_id device_id since h =
    h.project_id == project_id
    && (ltb since h.seq
        && (some_eq h.target_device_id device_id || broadcast_to t project_id user_id h))

abbrev pub lower_seq : Handshake → Handshake → Bool
lower_seq a b = ltb a.seq b.seq

-- What the query of `GET /devices/:deviceId/handshakes` selects, in its order.
unfoldable pub inbox : SecureTables → ℕ → ℕ → ℕ → ℕ → List Handshake
inbox t project_id user_id device_id since =
    sort_rows lower_seq
      (select_rows (delivered_to t project_id user_id device_id since) t.handshakes)

-- `GET /devices/:deviceId/handshakes`. A cursor that is missing or no integer is 0.
unfoldable pub poll_handshakes :
    ShortQuery → SecureTables → Ctx → ℕ → ℕ → LimitQuery → Result (Page Handshake)
unfolding get_my_device inbox
poll_handshakes short t c device_id since limit = do
  auth ← require_auth c
  dev ← get_my_device t c.project_id auth.user_id device_id
  page_of short (clamp_limit 100 500 limit) (inbox t c.project_id auth.user_id dev.id since)
