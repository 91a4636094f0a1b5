-- ===== src/SecureChat/Leaving.antt =====
-- Leaving a conversation: `DELETE /conversations/:id/members/:userId` of
-- apps/secure-chat/src/routes/secure-chat.ts, and what the one who has left is refused.
use mathlib.Core.Path.{subst}
use philosophy_app.Prelude.{
  ℕ, ◌+◌, ◌≤◌, ◌<◌, ◌≡◌, sym, ap, ◌∙◌, inl, inr, Bool, true, false, ◌&&◌, ◌||◌, Option, some, none,
  arith, ◌==◌, ltb, Option-cases, find_row, has_row, update_rows, find_row_sound, has_row_of_found,
  find_row-update_out, unmatched_rows, some_eq, ==_refl,
}
use philosophy_app.Http.{
  Result, ok, ◌>>=◌, is_ok, guard, bind-ok, ok-injective, not_admin, parse_body, found_or-ok,
}
use philosophy_app.Auth.{AuthContext}
use philosophy_app.Roles.{UuidText, printed, text_eq}
use philosophy_app.Http.Paging.{LimitQuery, ShortQuery}
use philosophy_app.Access.{Ctx, require_auth}
use philosophy_app.SecureChat.{
  Conversation, ConversationMember, Handshake, commit, SecureTables, Limits, int8_limit,
  assert_size, get_secure_conversation, require_secure_member, active_member,
}
use philosophy_app.SecureChat.Groups.{
  CommitBody, push_handshake, bump_epoch, one_behind, member_of, leave, is_admin,
  remove_transaction, remove_member,
}
use philosophy_app.SecureChat.Messages.{
  MessageBody, send_message, get_messages, get_conversation, delivered_to, broadcast_to,
}

-- The tables after a user has left a conversation.
left_tables : SecureTables → ℕ → ℕ → ℕ → ℕ → CommitBody → SecureTables
left_tables t project_id id user_id now body =
    push_handshake
      (record t {
        conversations =
            update_rows (one_behind id body.epoch)
              (λ (r : Conversation). record r { current_epoch = body.epoch }) t.conversations;
        members = update_rows (member_of id user_id) (leave now) t.members;
      })
      project_id id commit body.epoch body.payload.bytes none

-- An active member whose commit has the next epoch, within the range of the column, and whose payload
-- is within the limit can always leave under the printed id: whatever the role, the handler answers with
-- new tables.
pub leave_accepted :
    (limits : Limits) (t : SecureTables) (c : Ctx) (id now : ℕ) (body : CommitBody)
    {auth : AuthContext} {convo : Conversation} {caller : ConversationMember}
    → c.auth ≡ some auth
    → get_secure_conversation t c.project_id id ≡ ok convo
    → require_secure_member t c.project_id convo.id auth.user_id ≡ ok caller
    → body.payload.size ≤ limits.max_handshake_bytes
    → body.epoch ≡ convo.current_epoch + 1
    → body.epoch < int8_limit
    → (t' : SecureTables) × (remove_member limits t c id (printed auth.user_id) (some body) now
        ≡ ok t')
unfolding remove_member remove_transaction bump_epoch assert_size left_tables
    get_secure_conversation
leave_accepted limits t c id now body {auth} {convo} {caller} signed found joined small at fits =
    let sized : ltb limits.max_handshake_bytes body.payload.size ≡ false = ground arith in
    let ranged : ltb body.epoch int8_limit ≡ true = ground arith in
    let behind : has_row (one_behind convo.id body.epoch) t.conversations ≡ true =
      has_row_of_found _ (one_behind convo.id body.epoch) t.conversations
        (found_or-ok _ _ (unfold get_secure_conversation in found)) (ground arith) in
    (
      left_tables t c.project_id convo.id auth.user_id now body,
      rw (signed, found, joined, ==_refl auth.user_id, sized, ranged, behind),
    )

abbrev Gone : SecureTables → ℕ → ℕ → Type 0
Gone t id user_id = (p : ℕ) → find_row (active_member p id user_id) t.members ≡ none

removed-Gone :
    (t : SecureTables) (project_id id target e bytes now : ℕ) {t' : SecureTables}
    → remove_transaction t project_id id target e bytes now ≡ ok t'
    → Gone t' id target
unfolding remove_transaction push_handshake
removed-Gone t project_id id target e bytes now {t'} h p =
    let (b, stepped, h1) = bind-ok (bump_epoch t id e) _ h in
    ap (λ (x : SecureTables). find_row (active_member p id target) x.members)
      (sym (ok-injective h1))
    ∙ find_row-update_out (active_member p id target) (member_of id target) (leave now) b.members
        (λ x off. ground arith) (λ x. ground arith)

-- The head of each handler on a conversation, for a caller who is gone from it.
absent_refused {ℓ} :
    {A : Type ℓ} (t : SecureTables) (project_id id user_id : ℕ)
    (rest : Conversation → ConversationMember → Result A)
    → Gone t id user_id
    → is_ok (
        get_secure_conversation t project_id id >>= λ convo.
        require_secure_member t project_id convo.id user_id >>= λ caller. rest convo caller)
      ≡ false
unfolding get_secure_conversation require_secure_member
absent_refused t project_id id user_id rest gone =
    elim (Option-cases
      (find_row (λ (r : Conversation). r.project_id == project_id && r.id == id) t.conversations)) [
        | inl missing ↦ rw missing
        | inr (r, found) ↦
            let sound =
              find_row_sound (λ (x : Conversation). x.project_id == project_id && x.id == id)
                t.conversations found in
            let here : r.id ≡ id = ground arith in rw (found, here, gone project_id)
      ]

conversation_id_found :
    (t : SecureTables) (project_id id : ℕ) {convo : Conversation}
    → get_secure_conversation t project_id id ≡ ok convo
    → convo.id ≡ id
unfolding get_secure_conversation
conversation_id_found t project_id id {convo} h =
    let sound =
      find_row_sound (λ (x : Conversation). x.project_id == project_id && x.id == id)
        t.conversations {x = convo} (found_or-ok _ _ h) in
    ground arith

unheard :
    (t : SecureTables) (project_id id user_id : ℕ) (h : Handshake)
    → h.conversation_id ≡ id
    → find_row (active_member project_id id user_id) t.members ≡ none
    → broadcast_to t project_id user_id h ≡ false
unheard t project_id id user_id h at gone =
    let absent =
      unmatched_rows (active_member project_id id user_id)
        (λ (m : ConversationMember).
          m.project_id == project_id
          && (m.user_id == user_id && (m.is_active && m.conversation_id == h.conversation_id)))
        t.members (λ x off. ground arith) gone in
    rw absent (ground arith)

undelivered :
    (here later : Bool) (addressee : Option ℕ) (device_id : ℕ) (heard : Bool)
    → addressee ≡ none
    → heard ≡ false
    → (here && (later && (some_eq addressee device_id || heard))) ≡ false
undelivered here later addressee device_id heard open_to_all silent =
    rw (open_to_all, silent) (ground arith)

-- After a removal that succeeds, by an admin or by the user's own leave, the user's requests to post to
-- the conversation, to list its messages and to read it fail, whatever they hold, and none of its
-- broadcast handshakes is delivered to the user any more, from any cursor and to any device.
pub removed_out :
    (limits : Limits) (t t' : SecureTables) (c : Ctx) (id : ℕ) (target : UuidText)
    (body : Option CommitBody) (now : ℕ)
    → remove_member limits t c id target body now ≡ ok t'
    → (c' : Ctx) (auth' : AuthContext) → c'.auth ≡ some auth'
    → auth'.user_id ≡ target.uuid
    → ((post : Option MessageBody) (fresh at : ℕ)
        → is_ok (send_message limits t' c' id post fresh at) ≡ false)
      × ((short : ShortQuery) (limit : LimitQuery) (before : Option ℕ)
          → is_ok (get_messages short t' c' id limit before) ≡ false)
      × (is_ok (get_conversation t' c' id) ≡ false)
      × ((h : Handshake) (device_id since : ℕ)
          → h.conversation_id ≡ id
          → h.target_device_id ≡ none
          → delivered_to t' c'.project_id target.uuid device_id since h ≡ false)
unfolding remove_member send_message get_messages get_conversation
removed_out limits t t' c id target body now h0 c' auth' signed mine =
    let (auth, from0, h1) = bind-ok (require_auth c) _ h0 in
    let (convo, found, h2) = bind-ok (get_secure_conversation t c.project_id id) _ h1 in
    let (caller, from2, h3) =
      bind-ok (require_secure_member t c.project_id convo.id auth.user_id) _ h2 in
    let (u, from3, h4) =
      bind-ok {A = Unit}
        (guard (text_eq target (printed auth.user_id) || is_admin caller) not_admin) _ h3 in
    let (request, from4, h5) = bind-ok (parse_body body) _ h4 in
    let (bytes, from5, h6) =
      bind-ok (assert_size request.payload limits.max_handshake_bytes) _ h5 in
    let gone : Gone t' convo.id target.uuid =
      removed-Gone t c.project_id convo.id target.uuid request.epoch bytes now h6 in
    let gone' : Gone t' id auth'.user_id =
      subst (λ (i : ℕ). Gone t' i auth'.user_id) (conversation_id_found t c.project_id id found)
        (subst (λ (u : ℕ). Gone t' convo.id u) (sym mine) gone) in
    (
      λ post fresh at. rw signed (absent_refused t' c'.project_id id auth'.user_id _ gone'),
      λ short limit before. rw signed (absent_refused t' c'.project_id id auth'.user_id _ gone'),
      rw signed (absent_refused t' c'.project_id id auth'.user_id _ gone'),
      λ h device_id since at_id broadcast.
          let silent : broadcast_to t' c'.project_id target.uuid h ≡ false =
            unheard t' c'.project_id id target.uuid h at_id
              (subst (λ (u : ℕ). Gone t' id u) mine gone' c'.project_id) in
          undelivered (h.project_id == c'.project_id) (ltb since h.seq) h.target_device_id device_id
            (broadcast_to t' c'.project_id target.uuid h) broadcast silent,
    )
