-- ===== src/SecureChat/Epochs/Linear.antt =====
-- The commits of a conversation form one line, whatever requests race: the optimistic update of
-- `currentEpoch` in apps/secure-chat/src/routes/secure-chat.ts.
use mathlib.Core.Path.{subst}
use philosophy_app.Prelude.{
  All, ℕ, ◌+◌, ◌≤◌, ◌≡◌, refl, sym, inl, inr, true, false, Option, some, none, List, [], ◌∷◌, arith,
  ◌==◌, if◌then◌else◌, Bool-cases, Option-cases, find_row, has_row, count_rows, update_rows,
  find_row_of_has, All-of_unique, All-find_row, count_rows-update_rows, count_rows_absent,
  count_rows_of_find, count_rows-none, find_row-update_rows, find_row_sound, count_rows_zero-find,
}
use philosophy_app.SecureChat.{Conversation, SecureTables, Limits}
use philosophy_app.SecureChat.Groups.{one_behind, conversation_id_is}
use philosophy_app.SecureChat.Steps.{Reach, here, next}
use philosophy_app.SecureChat.Steps.Changes.{
  Change, SameLog, aside, stocked, spent, opened, grew, shrank, Step-Change,
}
use philosophy_app.SecureChat.Epochs.{
  commit_epochs, set_epoch, Advance, Opening, create-Opening, add-Advance, remove-Advance,
}

-- Each commit follows one of the epoch before its own.
abbrev pub Chain : ℕ → List ℕ → Type 0
Chain x [] = Unit
Chain x (y ∷ ys) = (y + 1 ≡ x) × Chain y ys

-- The commits of a conversation that exists lead without a gap to its epoch.
abbrev pub Linked : Option Conversation → List ℕ → Type 0
Linked none log = log ≡ []
Linked (some r) [] = Unit
Linked (some r) (x ∷ xs) = (x ≡ r.current_epoch) × Chain x xs

pub record IsLinear (t : SecureTables) : Type 0 where
  pub unique : (id : ℕ) → count_rows (conversation_id_is id) t.conversations ≤ 1
  pub linked :
      (id : ℕ)
      → Linked (find_row (conversation_id_is id) t.conversations) (commit_epochs id t.handshakes)

-- Where ids are unique, every row of the id is one whose epoch is one behind.
pub every_one_behind :
    (rows : List Conversation) (id e : ℕ)
    → count_rows (conversation_id_is id) rows ≤ 1
    → has_row (one_behind id e) rows ≡ true
    → All (λ (r : Conversation). conversation_id_is id r ≡ true → one_behind id e r ≡ true) rows
every_one_behind rows id e unique behind =
    let (x, at_x) = find_row_of_has (one_behind id e) rows behind in
    let px = find_row_sound (one_behind id e) rows at_x in
    All-of_unique (λ (y : Conversation). one_behind id e y ≡ true) (conversation_id_is id)
      (one_behind id e) rows {x = x} unique at_x (ground arith) px

found_behind :
    (rows : List Conversation) (id e : ℕ) {r : Conversation}
    → count_rows (conversation_id_is id) rows ≤ 1
    → has_row (one_behind id e) rows ≡ true
    → find_row (conversation_id_is id) rows ≡ some r
    → one_behind id e r ≡ true
found_behind rows id e {r} unique behind found =
    All-find_row (λ (y : Conversation). conversation_id_is id y ≡ true → one_behind id e y ≡ true)
      (conversation_id_is id) rows {x = r} (every_one_behind rows id e unique behind) found
      (find_row_sound (conversation_id_is id) rows found)

extends-Chain :
    (r : Conversation) (id e : ℕ) (log : List ℕ)
    → one_behind id e r ≡ true
    → Linked (some r) log
    → Chain e log
extends-Chain r id e [] b l = tt
extends-Chain r id e (x ∷ xs) b (at, chain) = (ground arith, chain)

advance-Linked :
    (rows : List Conversation) (log : List ℕ) (id e j : ℕ)
    → count_rows (conversation_id_is id) rows ≤ 1
    → has_row (one_behind id e) rows ≡ true
    → Linked (find_row (conversation_id_is j) rows) log
    → Linked
        (find_row (conversation_id_is j) (update_rows (one_behind id e) (set_epoch e) rows))
        (if id == j then e ∷ log else log)
advance-Linked rows log id e j unique behind old =
    let map_found =
      find_row-update_rows (conversation_id_is j) (one_behind id e) (set_epoch e) rows
        (λ x _. refl) in
    rw map_found (elim (Bool-cases (id == j)) [
      | inl same ↦
          let here : id ≡ j = ground arith in
          let (x, at_x) = find_row_of_has (one_behind id e) rows behind in
          elim (Option-cases (find_row (conversation_id_is j) rows)) [
            | inl missing ↦
                let px = find_row_sound (one_behind id e) rows at_x in
                absurd (
                  omega (
                    arith,
                    count_rows_of_find (conversation_id_is j) (one_behind id e) rows {x = x} at_x
                        (ground arith),
                    count_rows-none (conversation_id_is j) rows missing,
                  ))
            | inr (r, found) ↦
                let b : one_behind id e r ≡ true =
                  found_behind rows id e unique behind
                    (subst (λ i. find_row (conversation_id_is i) rows ≡ some r) (sym here) found) in
                rw (same, found, b)
                  (refl, extends-Chain r id e log b (subst (λ o. Linked o log) found old))
          ]
      | inr off ↦ elim (Option-cases (find_row (conversation_id_is j) rows)) [
        | inl missing ↦ rw (off, missing) (subst (λ o. Linked o log) missing old)
        | inr (r, found) ↦
            let is_j : conversation_id_is j r ≡ true =
              find_row_sound (conversation_id_is j) rows found in
            let away : one_behind id e r ≡ false = ground arith in
            rw (off, found, away) (subst (λ o. Linked o log) found old)
      ]
    ])

Advance-IsLinear : (t t' : SecureTables) → Advance t t' → IsLinear t → IsLinear t'
Advance-IsLinear t t' a old = record {
  unique = λ j.
      rw
        (
          a.advanced,
          count_rows-update_rows (conversation_id_is j) (one_behind a.id a.epoch)
              (set_epoch a.epoch) t.conversations (λ x _. refl),
        )
        (old.unique j);
  linked = λ j.
      rw (a.advanced, a.recorded j)
        (advance-Linked t.conversations (commit_epochs j t.handshakes) a.id a.epoch j
          (old.unique a.id) a.behind (old.linked j));
}

SameLog-IsLinear : (t t' : SecureTables) → SameLog t t' → IsLinear t → IsLinear t'
SameLog-IsLinear t t' same old = record {
  unique = λ j. rw same.conversations_kept (old.unique j);
  linked = λ j. rw (same.conversations_kept, same.handshakes_kept) (old.linked j);
}

-- A conversation that has just been inserted has no commits.
open-Linked :
    (t : SecureTables) (new : Conversation) (j : ℕ)
    → IsLinear t
    → has_row (conversation_id_is new.id) t.conversations ≡ false
    → (count_rows (conversation_id_is j) (new ∷ t.conversations) ≤ 1)
      × Linked
          (find_row (conversation_id_is j) (new ∷ t.conversations))
          (commit_epochs j t.handshakes)
open-Linked t new j old absent = elim (Bool-cases (new.id == j)) [
  | inl same ↦
      let here : new.id ≡ j = ground arith in
      let none_yet : count_rows (conversation_id_is j) t.conversations ≡ 0 =
        count_rows_absent (conversation_id_is j) t.conversations
          (subst (λ i. has_row (conversation_id_is i) t.conversations ≡ false) here absent) in
      let empty : commit_epochs j t.handshakes ≡ [] =
        subst (λ o. Linked o (commit_epochs j t.handshakes))
          (count_rows_zero-find (conversation_id_is j) t.conversations none_yet) (old.linked j) in
      rw (same, empty) (omega (arith, none_yet), tt)
  | inr off ↦ rw off (omega (arith, old.unique j), old.linked j)
]

Opening-IsLinear : (t t' : SecureTables) → Opening t t' → IsLinear t → IsLinear t'
Opening-IsLinear t t' o old = record {
  unique = λ j. rw o.inserted (open-Linked t o.new j old o.absent).0;
  linked = λ j. rw (o.inserted, o.recorded j) (open-Linked t o.new j old o.absent).1;
}

Change-IsLinear : (t t' : SecureTables) → Change t t' → IsLinear t → IsLinear t'
Change-IsLinear t t' (aside same keys) old = SameLog-IsLinear t t' same old
Change-IsLinear t t' (stocked dev now packages h same) old = SameLog-IsLinear t t' same old
Change-IsLinear t t' (spent user_id now r) old = record { unique = old.unique; linked = old.linked }
Change-IsLinear t t' (opened project_id me body fresh now h) old =
    Opening-IsLinear t t' (create-Opening t project_id me body fresh now h) old
Change-IsLinear t t' (grew project_id id body bytes h) old =
    Advance-IsLinear t t' (add-Advance t project_id id body bytes h) old
Change-IsLinear t t' (shrank project_id id target e bytes now h) old =
    Advance-IsLinear t t' (remove-Advance t project_id id target e bytes now h) old

-- Whatever sequence of requests runs, with transactions of handlers that have read earlier states
-- among them, conversation ids stay unique, the commits in the log of each conversation have
-- consecutive epochs that end at its current epoch, so that no two have the same, and no commit is
-- logged for a conversation that does not exist.
pub Reach-IsLinear :
    (limits : Limits) (s t : SecureTables) → IsLinear s → Reach limits s t → IsLinear t
Reach-IsLinear limits s t old here = old
Reach-IsLinear limits s t old (next {u} steps last) =
    Change-IsLinear u t (Step-Change limits u last) (Reach-IsLinear limits s u old steps)
