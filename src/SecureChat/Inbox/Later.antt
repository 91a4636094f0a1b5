-- ===== src/SecureChat/Inbox/Later.antt =====
-- What the log of handshakes of apps/secure-chat/src/routes/secure-chat.ts gains while requests run.
use mathlib.Core.Path.{subst}
use mathlib.Core.List.{append_assoc}
use philosophy_app.Prelude.{
  ℕ, ◌≤◌, ◌≡◌, refl, sym, ap, ◌∙◌, Option, some, none, List, [], ◌∷◌, ◌++◌, arith, ltb, has_row,
  update_rows, All,
}
use philosophy_app.Http.{ok, guard, refuse, bind-ok, ok-injective, database_error, duplicate_group}
use philosophy_app.SecureChat.{
  Handshake, HandshakeKind, welcome, commit, SecureTables, Limits, int8_limit,
}
use philosophy_app.SecureChat.Groups.{
  WelcomeBody, AddBody, CreateBody, push_handshake, push_welcomes, storable, bump_epoch,
  conversation_id_is, has_profile, upsert_member, member_of, leave, add_transaction,
  remove_transaction, create_transaction, initial_epoch, taken_group, insert_members,
}
use philosophy_app.SecureChat.Epochs.{bumped}
use philosophy_app.SecureChat.Steps.{Reach, here, next}
use philosophy_app.SecureChat.Steps.Changes.{
  Change, aside, stocked, spent, opened, grew, shrank, Step-Change,
}

abbrev pub FromOn : ℕ → List Handshake → Type 0
FromOn floor = All (λ (h : Handshake). floor ≤ h.seq)

-- The log has its old rows still, below new ones, whose numbers the old sequence had not drawn.
abbrev pub Extends : SecureTables → SecureTables → Type 0
Extends t u =
    (added : List Handshake) × (u.handshakes ≡ added ++ t.handshakes)
    × FromOn t.next_seq added
    × (t.next_seq ≤ u.next_seq)

FromOn-weaker : (low high : ℕ) (hs : List Handshake) → low ≤ high → FromOn high hs → FromOn low hs
FromOn-weaker low high [] le a = tt
FromOn-weaker low high (h ∷ hs) le (at, later) =
    (omega (arith, at, le), FromOn-weaker low high hs le later)

FromOn-append :
    (floor : ℕ) (xs ys : List Handshake)
    → FromOn floor xs
    → FromOn floor ys
    → FromOn floor (xs ++ ys)
FromOn-append floor [] ys a b = b
FromOn-append floor (x ∷ xs) ys (at, later) b = (at, FromOn-append floor xs ys later b)

same-Extends :
    (t u : SecureTables) → u.handshakes ≡ t.handshakes → u.next_seq ≡ t.next_seq → Extends t u
same-Extends t u log seq = ([], log, tt, omega (arith, seq))

Extends-trans : (t u v : SecureTables) → Extends t u → Extends u v → Extends t v
Extends-trans t u v (xs, e, a, le) (ys, f, b, le') = (
  ys ++ xs,
  f ∙ ap (λ l. ys ++ l) e ∙ sym (append_assoc ys xs t.handshakes),
  FromOn-append t.next_seq ys xs (FromOn-weaker t.next_seq u.next_seq ys le b) a,
  omega (arith, le, le'),
)

push-Extends :
    (t : SecureTables) (project_id id : ℕ) (kind : HandshakeKind) (e bytes : ℕ) (o : Option ℕ)
    → Extends t (push_handshake t project_id id kind e bytes o)
unfolding push_handshake
push-Extends t project_id id kind e bytes o = (
  record {
    seq = t.next_seq;
    project_id = project_id;
    conversation_id = id;
    kind = kind;
    epoch = e;
    payload = bytes;
    sender_device_id = none;
    target_device_id = o;
  }
      ∷ [],
  refl,
  (omega arith, tt),
  omega arith,
)

welcomes-Extends :
    (t : SecureTables) (project_id id : ℕ) (ws : List WelcomeBody)
    → Extends t (push_welcomes t project_id id ws)
unfolding push_welcomes
welcomes-Extends t project_id id [] = same-Extends t t refl refl
welcomes-Extends t project_id id (w ∷ ws) =
    let first =
      push_handshake t project_id id welcome w.epoch w.payload.bytes (some w.target_device_id) in
    Extends-trans t first (push_welcomes first project_id id ws)
      (push-Extends t project_id id welcome w.epoch w.payload.bytes (some w.target_device_id))
      (welcomes-Extends first project_id id ws)

bump-Extends :
    (t : SecureTables) (id e : ℕ) {b : SecureTables} → bump_epoch t id e ≡ ok b → Extends t b
bump-Extends t id e {b} h =
    let (found, same) = bumped t id e h in
    same-Extends t b (ap (λ (x : SecureTables). x.handshakes) (sym same))
      (ap (λ (x : SecureTables). x.next_seq) (sym same))

add-Extends :
    (t : SecureTables) (project_id id : ℕ) (body : AddBody) (bytes : ℕ) {t' : SecureTables}
    → add_transaction t project_id id body bytes ≡ ok t'
    → Extends t t'
unfolding add_transaction
add-Extends t project_id id body bytes {t'} h =
    let e = body.commit_body.epoch in
    let (b, stepped, h1) = bind-ok (bump_epoch t id e) _ h in
    let (u, known, h2) =
      bind-ok {A = Unit} (guard (has_profile t body.user_id) database_error) _ h1 in
    let joined : SecureTables = record b {
      members = upsert_member project_id id body.user_id e b.members;
    } in
    let logged = push_handshake joined project_id id commit e bytes none in
    let (v, stored, h3) =
      bind-ok {A = Unit} (guard (storable logged body.welcomes) database_error) _ h2 in
    subst (Extends t) (ok-injective h3) (
      Extends-trans t b (push_welcomes logged project_id id body.welcomes)
        (bump-Extends t id e {b = b} stepped)
        (Extends-trans joined logged (push_welcomes logged project_id id body.welcomes)
          (push-Extends joined project_id id commit e bytes none)
          (welcomes-Extends logged project_id id body.welcomes)))

remove-Extends :
    (t : SecureTables) (project_id id target e bytes now : ℕ) {t' : SecureTables}
    → remove_transaction t project_id id target e bytes now ≡ ok t'
    → Extends t t'
unfolding remove_transaction
remove-Extends t project_id id target e bytes now {t'} h =
    let (b, stepped, h1) = bind-ok (bump_epoch t id e) _ h in
    let left : SecureTables = record b {
      members = update_rows (member_of id target) (leave now) b.members;
    } in
    subst (Extends t) (ok-injective h1) (
      Extends-trans t b (push_handshake left project_id id commit e bytes none)
        (bump-Extends t id e {b = b} stepped) (push-Extends left project_id id commit e bytes none))

create-Extends :
    (t : SecureTables) (project_id me : ℕ) (body : CreateBody) (fresh now : ℕ) {t' : SecureTables}
    → create_transaction t project_id me body fresh now ≡ ok t'
    → Extends t t'
unfolding create_transaction
create-Extends t project_id me body fresh now {t'} h =
    let (u, fits, h1) =
      bind-ok {A = Unit} (guard (ltb (initial_epoch body.welcomes) int8_limit) database_error) _
        h in
    let (v, free, h2) =
      bind-ok {A = Unit}
        (refuse (has_row (conversation_id_is fresh) t.conversations) duplicate_group) _ h1 in
    let (w, other, h3) =
      bind-ok {A = Unit}
        (refuse (has_row (taken_group project_id body.mls_group_id) t.conversations)
          duplicate_group)
        _ h2 in
    let (rows, entered, h4) =
      bind-ok (insert_members t project_id fresh me (me ∷ body.member_user_ids) t.members) _ h3 in
    let created : SecureTables = record t {
      conversations =
          record {
            id = fresh;
            project_id = project_id;
            kind = body.kind;
            mls_group_id = body.mls_group_id;
            space_id = body.space_id;
            current_epoch = initial_epoch body.welcomes;
            name = body.name;
            created_by_id = some me;
            last_message_at = none;
            created_at = now;
          }
          ∷ t.conversations;
      members = rows;
    } in
    let (x, stored, h5) =
      bind-ok {A = Unit} (guard (storable created body.welcomes) database_error) _ h4 in
    subst (Extends t) (ok-injective h5) (welcomes-Extends created project_id fresh body.welcomes)

Change-Extends : (t u : SecureTables) → Change t u → Extends t u
Change-Extends t u (aside same keys) = same-Extends t u same.handshakes_kept same.next_seq_kept
Change-Extends t u (stocked dev now packages h same) =
    same-Extends t u same.handshakes_kept same.next_seq_kept
Change-Extends t u (spent user_id now r) = same-Extends t u refl refl
Change-Extends t u (opened project_id me body fresh now h) =
    create-Extends t project_id me body fresh now h
Change-Extends t u (grew project_id id body bytes h) = add-Extends t project_id id body bytes h
Change-Extends t u (shrank project_id id target e bytes now h) =
    remove-Extends t project_id id target e bytes now h

pub Reach-Extends : (limits : Limits) (s t : SecureTables) → Reach limits s t → Extends s t
Reach-Extends limits s t here = same-Extends s s refl refl
Reach-Extends limits s t (next {u} steps last) =
    Extends-trans s u t (Reach-Extends limits s u steps)
      (Change-Extends u t (Step-Change limits u last))
