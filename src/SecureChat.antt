-- ===== src/SecureChat.antt =====
-- The tables of packages/core/src/db/schema/secure-chat.ts and the look-ups that the handlers of
-- apps/secure-chat/src/routes/secure-chat.ts share. The `updated_at` columns, which nothing reads, are
-- left out. Keys, credentials and ciphertexts are opaque: a number names their bytes.
pub mod Devices
pub mod Groups
pub mod Messages
pub mod Couriers
pub mod Steps
pub mod Epochs
pub mod Leaving
pub mod Claims
pub mod Quotas
pub mod Inbox
use philosophy_app.Prelude.{
  ℕ, Bool, false, ◌&&◌, ◌||◌, some_eq, Option, none, some, List, ◌==◌, ltb, has_row, find_row,
  is_none,
}
use philosophy_app.Http.{
  device_not_found, conversation_not_found, not_a_member, too_large, space_not_found,
  not_a_space_member, restore_target_not_member, Result, ok, err, ◌>>◌, refuse, guard, found_or,
}
use philosophy_app.Access.{Space, SpaceMember, is_active}
use philosophy_app.Connections.{Profile}

pub record Device : Type 0 where
  pub id : ℕ
  pub project_id : ℕ
  pub user_id : ℕ
  pub device_id : ℕ
  pub display_name : Option ℕ
  pub signature_public_key : ℕ
  pub credential : ℕ
  pub ciphersuite : ℕ
  pub revoked_at : Option ℕ
  pub created_at : ℕ

pub record KeyPackage : Type 0 where
  pub id : ℕ
  pub project_id : ℕ
  pub device_id : ℕ
  pub key_package_ref : ℕ
  pub key_package : ℕ
  pub ciphersuite : ℕ
  pub consumed_at : Option ℕ
  pub consumed_by_user_id : Option ℕ
  pub expires_at : Option ℕ
  pub created_at : ℕ

pub data ConversationType : Type 0 where
  dm group channel : ConversationType

pub record Conversation : Type 0 where
  pub id : ℕ
  pub project_id : ℕ
  pub kind : ConversationType
  pub mls_group_id : ℕ
  pub space_id : Option ℕ
  pub current_epoch : ℕ
  pub name : Option ℕ
  pub created_by_id : Option ℕ
  pub last_message_at : Option ℕ
  pub created_at : ℕ

pub data SecureRole : Type 0 where
  admin member : SecureRole

pub record ConversationMember : Type 0 where
  pub project_id : ℕ
  pub conversation_id : ℕ
  pub user_id : ℕ
  pub role : SecureRole
  pub is_active : Bool
  pub joined_at_epoch : Option ℕ
  pub last_read_at : Option ℕ
  pub left_at : Option ℕ

pub record SecureMessage : Type 0 where
  pub id : ℕ
  pub project_id : ℕ
  pub conversation_id : ℕ
  pub sender_user_id : Option ℕ
  pub sender_device_id : Option ℕ
  pub epoch : ℕ
  pub ciphertext : ℕ
  pub content_type : Option ℕ
  pub created_at : ℕ

-- No handler writes a proposal.
pub data HandshakeKind : Type 0 where
  welcome commit proposal : HandshakeKind

pub record Handshake : Type 0 where
  pub seq : ℕ
  pub project_id : ℕ
  pub conversation_id : ℕ
  pub kind : HandshakeKind
  pub epoch : ℕ
  pub payload : ℕ
  pub sender_device_id : Option ℕ
  pub target_device_id : Option ℕ

pub record KeyBackup : Type 0 where
  pub id : ℕ
  pub project_id : ℕ
  pub user_id : ℕ
  pub device_id : Option ℕ
  pub blob : ℕ
  pub nonce : ℕ
  pub kdf : ℕ
  pub kdf_params : ℕ
  pub cipher : ℕ
  pub version : ℕ

pub record RestoreBlob : Type 0 where
  pub id : ℕ
  pub project_id : ℕ
  pub conversation_id : ℕ
  pub from_device_id : ℕ
  pub target_device_id : ℕ
  pub blob : ℕ
  pub expires_at : ℕ

-- `next_seq` is the sequence that numbers the handshakes.
pub record SecureTables : Type 0 where
  pub devices : List Device
  pub key_packages : List KeyPackage
  pub conversations : List Conversation
  pub members : List ConversationMember
  pub messages : List SecureMessage
  pub handshakes : List Handshake
  pub next_seq : ℕ
  pub key_backups : List KeyBackup
  pub restore_blobs : List RestoreBlob
  pub profiles : List Profile
  pub spaces : List Space
  pub space_members : List SpaceMember

-- The limits of packages/core/src/lib/env.ts.
pub record Limits : Type 0 where
  pub max_message_bytes : ℕ
  pub max_handshake_bytes : ℕ
  pub max_restore_blob_bytes : ℕ
  pub restore_blob_ttl : ℕ
  pub max_blobs_per_pair : ℕ
  pub max_blobs_per_target : ℕ

-- A base64 text, as what Node makes of it: its bytes and how many they are.
pub record Payload : Type 0 where
  pub bytes : ℕ
  pub size : ℕ

-- `assertSize`
unfoldable pub assert_size : Payload → ℕ → Result ℕ
assert_size b64 cap = do refuse (ltb cap b64.size) too_large; ok b64.bytes

-- The values of PostgreSQL's `bigint` that are not negative: a larger epoch fails in the database.
abbrev pub int8_limit : ℕ
int8_limit = 9223372036854775808

abbrev pub my_device : ℕ → ℕ → ℕ → Device → Bool
my_device project_id user_id device_id d =
    d.project_id == project_id
    && (d.id == device_id && (d.user_id == user_id && is_none d.revoked_at))

abbrev pub live_device : ℕ → ℕ → Device → Bool
live_device project_id device_id d =
    d.project_id == project_id && (d.id == device_id && is_none d.revoked_at)

-- `getMyDevice`
unfoldable pub get_my_device : SecureTables → ℕ → ℕ → ℕ → Result Device
get_my_device t project_id user_id device_id =
    found_or device_not_found (find_row (my_device project_id user_id device_id) t.devices)

-- `callerOwnsDevice`
unfoldable pub caller_owns_device : SecureTables → ℕ → ℕ → ℕ → Bool
caller_owns_device t project_id user_id device_id =
    has_row (my_device project_id user_id device_id) t.devices

-- `getSecureConversation`
unfoldable pub get_secure_conversation : SecureTables → ℕ → ℕ → Result Conversation
get_secure_conversation t project_id conversation_id = found_or conversation_not_found (
    find_row (λ (r : Conversation). r.project_id == project_id && r.id == conversation_id)
      t.conversations)

abbrev pub active_member : ℕ → ℕ → ℕ → ConversationMember → Bool
active_member project_id conversation_id user_id m =
    m.project_id == project_id
    && (m.conversation_id == conversation_id && (m.user_id == user_id && m.is_active))

-- `requireSecureMember`
unfoldable pub require_secure_member : SecureTables → ℕ → ℕ → ℕ → Result ConversationMember
require_secure_member t project_id conversation_id user_id =
    found_or not_a_member (find_row (active_member project_id conversation_id user_id) t.members)

-- `assertTargetDeviceMember`
unfoldable pub assert_target_device_member : SecureTables → ℕ → ℕ → ℕ → Result (Unit {0})
assert_target_device_member t project_id conversation_id target_device_id =
    elim (find_row (live_device project_id target_device_id) t.devices) [
      | none ↦ err restore_target_not_member
      | some dev ↦
          guard (has_row (active_member project_id conversation_id dev.user_id) t.members)
            restore_target_not_member
    ]

-- The one row of the caller in the space, where its status is active.
abbrev pub joined : List SpaceMember → ℕ → ℕ → ℕ → Bool
joined rows project_id space_id user_id =
    elim (find_row
      (λ (m : SpaceMember).
        m.project_id == project_id && (m.space_id == space_id && m.user_id == user_id))
      rows) [ none ↦ false | some m ↦ is_active m.status ]

-- `assertSpaceAccess`: apps/secure-chat/src/lib/space-access.ts. It does not ask whether the space is
-- deleted.
unfoldable pub assert_space_access : SecureTables → ℕ → ℕ → ℕ → Result (Unit {0})
assert_space_access t project_id space_id user_id =
    elim (find_row (λ (s : Space). s.project_id == project_id && s.id == space_id) t.spaces) [
      | none ↦ err space_not_found
      | some space ↦
          guard
            (some_eq space.user_id user_id || joined t.space_members project_id space_id user_id)
            not_a_space_member
    ]
