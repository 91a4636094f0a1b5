-- ===== src/Tests/SecureChat.antt =====
-- The theorems on secure chat, on one conversation of two users.
use philosophy_app.Prelude.{
  List, All, zero, suc, Option, ℕ, ◌≡◌, ◌≢◌, ◌<◌, ◌++◌, refl, none, some, [], ◌∷◌, arith, true,
  false, Page, length,
}
use philosophy_app.Http.{database_error, ok, err, is_ok, epoch_conflict}
use philosophy_app.Auth.{AuthContext, TokenRole}
use philosophy_app.Roles.{printed}
use philosophy_app.Http.Paging.{LimitQuery, whole, ShortQuery}
use philosophy_app.Access.{Ctx}
use philosophy_app.SecureChat.{
  get_secure_conversation, require_secure_member, Device, KeyPackage, Conversation,
  ConversationType, ConversationMember, SecureRole, Handshake, HandshakeKind, SecureTables, Limits,
  Payload,
}
use philosophy_app.SecureChat.Devices.{Claimed, claim_key_package}
use philosophy_app.SecureChat.Groups.{
  AddBody, CommitBody, CreateBody, create_conversation, remove_member, remove_transaction,
  add_transaction,
}
use philosophy_app.SecureChat.Messages.{
  MessageBody, send_message, get_messages, get_conversation, delivered_to, inbox, poll_handshakes,
}
use philosophy_app.SecureChat.Couriers.{BlobBody, upload_blob}
use philosophy_app.SecureChat.Steps.{Reach, here, next, created, removed}
use philosophy_app.SecureChat.Epochs.Linear.{IsLinear, Reach-IsLinear}
use philosophy_app.SecureChat.Epochs.Order.{by_remove, epoch_taken_once}
use philosophy_app.SecureChat.Leaving.{leave_accepted, removed_out}
use philosophy_app.SecureChat.Claims.{claimed_once}
use philosophy_app.SecureChat.Quotas.{IsWithin, begun, uploads, Since-IsWithin}
use philosophy_app.SecureChat.Inbox.{poll_resumes}
use philosophy_app.SecureChat.Inbox.Order.{Ascending}

abbrev user : ℕ → AuthContext
user id = record {
  user_id = id;
  project_id = some 1;
  role = TokenRole.visitor;
  is_operator = false;
  is_project_owner = false;
  is_project_admin = false;
  is_steward = false;
  settings_readonly = false;
}

abbrev by : ℕ → Ctx
by id = record { project_id = 1; auth = some (user id) }

abbrev limits : Limits
limits = record {
  max_message_bytes = 100;
  max_handshake_bytes = 100;
  max_restore_blob_bytes = 100;
  restore_blob_ttl = 900;
  max_blobs_per_pair = 1;
  max_blobs_per_target = 2;
}

abbrev bytes : Payload
bytes = record { bytes = 7; size = 10 }

abbrev device : ℕ → ℕ → Device
device id user_id = record {
  id = id;
  project_id = 1;
  user_id = user_id;
  device_id = 1;
  display_name = none;
  signature_public_key = 0;
  credential = 0;
  ciphersuite = 1;
  revoked_at = none;
  created_at = 0;
}

abbrev key_package : ℕ → ℕ → KeyPackage
key_package id at = record {
  id = id;
  project_id = 1;
  device_id = 12;
  key_package_ref = id;
  key_package = 0;
  ciphersuite = 1;
  consumed_at = none;
  consumed_by_user_id = none;
  expires_at = none;
  created_at = at;
}

abbrev start : SecureTables
start = record {
  devices = device 11 1 ∷ device 12 2 ∷ [];
  key_packages = key_package 31 8 ∷ key_package 32 9 ∷ [];
  conversations = [];
  members = [];
  messages = [];
  handshakes = [];
  next_seq = 1;
  key_backups = [];
  restore_blobs = [];
  profiles = record { id = 1; project_id = 1 } ∷ record { id = 2; project_id = 1 } ∷ [];
  spaces = [];
  space_members = [];
}

abbrev create_body : CreateBody
create_body = record {
  kind = ConversationType.dm;
  mls_group_id = 77;
  space_id = none;
  name = none;
  member_user_ids = 2 ∷ [];
  welcomes = record { target_device_id = 12; payload = bytes; epoch = 1 } ∷ [];
}

abbrev chat : ℕ → Conversation
chat epoch = record {
  id = 5;
  project_id = 1;
  kind = ConversationType.dm;
  mls_group_id = 77;
  space_id = none;
  current_epoch = epoch;
  name = none;
  created_by_id = some 1;
  last_message_at = none;
  created_at = 100;
}

abbrev membership : ℕ → SecureRole → ConversationMember
membership user_id role = record {
  project_id = 1;
  conversation_id = 5;
  user_id = user_id;
  role = role;
  is_active = true;
  joined_at_epoch = some 0;
  last_read_at = none;
  left_at = none;
}

abbrev handshake : ℕ → HandshakeKind → ℕ → Option ℕ → Handshake
handshake seq kind epoch target = record {
  seq = seq;
  project_id = 1;
  conversation_id = 5;
  kind = kind;
  epoch = epoch;
  payload = 7;
  sender_device_id = none;
  target_device_id = target;
}

abbrev opened : SecureTables
opened = record start {
  conversations = chat 1 ∷ [];
  members = membership 2 SecureRole.member ∷ membership 1 SecureRole.admin ∷ [];
  handshakes = handshake 1 HandshakeKind.welcome 1 (some 12) ∷ [];
  next_seq = 2;
}

abbrev commit_body : ℕ → CommitBody
commit_body epoch = record { payload = bytes; epoch = epoch }

-- The tables after the second user has left at epoch 2.
abbrev left : SecureTables
left = record opened {
  conversations = chat 2 ∷ [];
  members =
      record (membership 2 SecureRole.member) { is_active = false; left_at = some 200 }
      ∷ membership 1 SecureRole.admin
      ∷ [];
  handshakes =
      handshake 2 HandshakeKind.commit 2 none ∷ handshake 1 HandshakeKind.welcome 1 (some 12) ∷ [];
  next_seq = 3;
}

create_runs : create_conversation limits start (by 1) (some create_body) 5 100 ≡ ok opened
unfolding create_conversation
create_runs = refl

leave_runs : remove_member limits opened (by 2) 5 (printed 2) (some (commit_body 2)) 200 ≡ ok left
unfolding remove_member
leave_runs = refl

start-IsLinear : IsLinear start
start-IsLinear = record { unique = λ id. omega arith; linked = λ id. refl }

run : Reach limits start left
run =
    next (next here (created (by 1) (some create_body) 5 100 create_runs))
      (removed (by 2) 5 (printed 2) (some (commit_body 2)) 200 leave_runs)

Reach-IsLinear_example : IsLinear left
Reach-IsLinear_example = Reach-IsLinear limits start left start-IsLinear run

opened-IsLinear : IsLinear opened
opened-IsLinear =
    Reach-IsLinear limits start opened start-IsLinear
      (next here (created (by 1) (some create_body) 5 100 create_runs))

leave_transaction_runs : remove_transaction opened 1 5 2 2 7 200 ≡ ok left
unfolding remove_transaction
leave_transaction_runs = refl

abbrev late_add : AddBody
late_add = record {
  user_id = 2;
  commit_body = commit_body 2;
  welcomes = record { target_device_id = 12; payload = bytes; epoch = 2 } ∷ [];
}

accepted_once_example :
    (add_transaction left 1 5 late_add 7 ≡ err epoch_conflict)
    × ((target now : ℕ) → remove_transaction left 1 5 target 2 7 now ≡ err epoch_conflict)
accepted_once_example =
    epoch_taken_once limits opened left left 5 2 opened-IsLinear
      (by_remove 1 2 7 200 leave_transaction_runs) here 1 7 late_add (omega arith)

gets_chat : get_secure_conversation opened 1 5 ≡ ok (chat 1)
unfolding get_secure_conversation
gets_chat = refl

gets_member : require_secure_member opened 1 5 2 ≡ ok (membership 2 SecureRole.member)
unfolding require_secure_member
gets_member = refl

leave_accepted_example :
    (t' : SecureTables) × (remove_member limits opened
        (by 2)
        5
        (printed 2)
        (some (commit_body 2))
        200
      ≡ ok t')
leave_accepted_example =
    leave_accepted limits opened (by 2) 5 200 (commit_body 2) refl gets_chat gets_member
      (omega arith) refl (omega arith)

removed_out_example :
    ((post : Option MessageBody) (fresh at : ℕ)
      → is_ok (send_message limits left (by 2) 5 post fresh at) ≡ false)
    × ((short : ShortQuery) (limit : LimitQuery) (before : Option ℕ)
        → is_ok (get_messages short left (by 2) 5 limit before) ≡ false)
    × (is_ok (get_conversation left (by 2) 5) ≡ false)
    × ((h : Handshake) (device_id since : ℕ)
        → h.conversation_id ≡ 5
        → h.target_device_id ≡ none
        → delivered_to left 1 2 device_id since h ≡ false)
removed_out_example =
    removed_out limits opened left (by 2) 5 (printed 2) (some (commit_body 2)) 200 leave_runs (by 2)
      (user 2) refl refl

abbrev claimed_row : KeyPackage → ℕ → KeyPackage
claimed_row r now = record r { consumed_at = some now; consumed_by_user_id = some 1 }

abbrev first_claim : Claimed
first_claim = record {
  tables = record start {
    key_packages = claimed_row (key_package 31 8) 50 ∷ key_package 32 9 ∷ [];
  };
  key_package = claimed_row (key_package 31 8) 50;
  nudge = some 1;
}

abbrev second_claim : Claimed
second_claim = record {
  tables = record start {
    key_packages = claimed_row (key_package 31 8) 50 ∷ claimed_row (key_package 32 9) 60 ∷ [];
  };
  key_package = claimed_row (key_package 32 9) 60;
  nudge = some 0;
}

first_runs : claim_key_package start (by 1) 12 (λ r. false) 50 ≡ ok first_claim
unfolding claim_key_package
first_runs = refl

second_runs : claim_key_package first_claim.tables (by 1) 12 (λ r. false) 60 ≡ ok second_claim
unfolding claim_key_package
second_runs = refl

claimed_once_example : ◌≢◌ {A = ℕ} 32 31
claimed_once_example =
    claimed_once limits start first_claim.tables (by 1) (by 1) 12 12 (λ r. false) (λ r. false) 50 60
      first_claim second_claim first_runs here second_runs

abbrev blob_body : BlobBody
blob_body = record { conversation_id = 5; from_device_id = 11; target_device_id = 12; blob = bytes }

abbrev uploaded_tables : SecureTables
uploaded_tables = record opened {
  restore_blobs =
      record {
        id = 41;
        project_id = 1;
        conversation_id = 5;
        from_device_id = 11;
        target_device_id = 12;
        blob = 7;
        expires_at = 900300;
      }
      ∷ [];
}

upload_runs : upload_blob limits opened (by 1) (some blob_body) 41 300 ≡ ok uploaded_tables
unfolding upload_blob
upload_runs = refl

Since-IsWithin_example : IsWithin limits 300 uploaded_tables.restore_blobs
Since-IsWithin_example =
    Since-IsWithin limits opened 200 uploaded_tables 300
      (record { pairs = λ from target. omega arith; targets = λ target. omega arith })
      (uploads (by 1) (some blob_body) 41 300 begun (omega arith) upload_runs)

abbrev inbox_page : Page Handshake
inbox_page = record { rows = handshake 1 HandshakeKind.welcome 1 (some 12) ∷ []; has_more = false }

-- A limit of zero answers no row, and one below zero fails.
abbrev no_rows : ShortQuery
no_rows A zero xs = ok []
no_rows A (suc n) xs = err database_error

poll_runs : poll_handshakes no_rows left (by 2) 12 0 (whole 1) ≡ ok inbox_page
unfolding poll_handshakes
poll_runs = refl

poll_resumes_example :
    (inbox_page.rows ++ inbox left 1 2 12 1 ≡ inbox left 1 2 12 0)
    × Ascending 0 (inbox left 1 2 12 0)
    × (inbox_page.has_more ≡ false → inbox_page.rows ≡ inbox left 1 2 12 0)
    × (inbox_page.has_more ≡ true → 0 < length inbox_page.rows)
    × ((u : SecureTables)
        → Reach limits left u
        → (added : List Handshake) × (u.handshakes ≡ added ++ left.handshakes)
          × All (λ (h : Handshake). 0 < h.seq → 1 < h.seq) added)
poll_resumes_example =
    poll_resumes no_rows limits start left (by 2) 12 0 (whole 1) inbox_page (user 2) tt run refl
      refl poll_runs
