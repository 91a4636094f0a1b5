-- ===== src/Events/Live.antt =====
-- The reactions to the messages of a live debate in apps/api/src/routes/events.ts, which the server
-- keeps in memory. A reaction type that is not one of the three is not modelled.
use philosophy_app.Prelude.{
  ℕ, ◌+◌, ◌-◌, ◌≡◌, ◌<◌, Bool, true, false, ◌&&◌, Option, none, some, List, arith, ◌==◌, ltb,
  find_row, update_rows, if◌then◌else◌,
}

pub data ReactionType : Type 0 where
  upvotes fire insights : ReactionType

pub record Reactions : Type 0 where
  pub upvotes : ℕ
  pub fire : ℕ
  pub insights : ℕ

pub record EventMessage : Type 0 where
  pub id : ℕ
  pub event_id : ℕ
  pub reactions : Reactions

abbrev pub count_of : ReactionType → Reactions → ℕ
count_of ReactionType.upvotes r = r.upvotes
count_of ReactionType.fire r = r.fire
count_of ReactionType.insights r = r.insights

abbrev pub set_count : ReactionType → ℕ → Reactions → Reactions
set_count ReactionType.upvotes n r = record r { upvotes = n }
set_count ReactionType.fire n r = record r { fire = n }
set_count ReactionType.insights n r = record r { insights = n }

abbrev pub type_eq : ReactionType → ReactionType → Bool
type_eq ReactionType.upvotes ReactionType.upvotes = true
type_eq ReactionType.fire ReactionType.fire = true
type_eq ReactionType.insights ReactionType.insights = true
type_eq _ _ = false

abbrev pub is_prev : Option ReactionType → ReactionType → Bool
is_prev none type = false
is_prev (some p) type = type_eq p type

abbrev pub drop_prev : Option ReactionType → Reactions → Reactions
drop_prev none r = r
drop_prev (some p) r = if ltb 0 (count_of p r) then set_count p (count_of p r - 1) r else r

-- The body of `react` for a message that is there. `cleared` is `activeReaction === null`.
unfoldable pub react : ReactionType → Option ReactionType → Bool → Reactions → Reactions
react type prev cleared r =
    if is_prev prev type && cleared
    then set_count type (count_of type r - 1) r
    else set_count type (count_of type (drop_prev prev r) + 1) (drop_prev prev r)

abbrev pub is_message : ℕ → ℕ → EventMessage → Bool
is_message event_id message_id m = m.event_id == event_id && m.id == message_id

-- `POST /:eventId/messages/:messageId/react`. A message that is missing is no failure. The ids of
-- messages are drawn at random, and one message at most has an id.
unfoldable pub post_react :
    ℕ
    → ℕ
    → ReactionType
    → Option ReactionType
    → Bool
    → List EventMessage
    → List EventMessage × Option Reactions
unfolding react
post_react event_id message_id type prev cleared messages =
    elim (find_row (is_message event_id message_id) messages) [
      | none ↦ (messages, none)
      | some m ↦ (
        update_rows (is_message event_id message_id)
            (λ x. record x { reactions = react type prev cleared m.reactions }) messages,
        some (react type prev cleared m.reactions),
      )
    ]

abbrev pub total : Reactions → ℕ
total r = r.upvotes + r.fire + r.insights

-- A first reaction adds one to the total; taking it back restores every count; and a change from a
-- reaction that has been counted keeps the total.
pub react_counts :
    (type other : ReactionType) (r : Reactions)
    → (total (react type none false r) ≡ total r + 1)
      × (react type (some type) true (react type none false r) ≡ r)
      × (0 < count_of other r → total (react type (some other) false r) ≡ total r)
unfolding react
react_counts ReactionType.upvotes ReactionType.upvotes r =
    (ground arith, ground arith, λ h. ground arith)
react_counts ReactionType.upvotes ReactionType.fire r =
    (ground arith, ground arith, λ h. ground arith)
react_counts ReactionType.upvotes ReactionType.insights r =
    (ground arith, ground arith, λ h. ground arith)
react_counts ReactionType.fire ReactionType.upvotes r =
    (ground arith, ground arith, λ h. ground arith)
react_counts ReactionType.fire ReactionType.fire r = (ground arith, ground arith, λ h. ground arith)
react_counts ReactionType.fire ReactionType.insights r =
    (ground arith, ground arith, λ h. ground arith)
react_counts ReactionType.insights ReactionType.upvotes r =
    (ground arith, ground arith, λ h. ground arith)
react_counts ReactionType.insights ReactionType.fire r =
    (ground arith, ground arith, λ h. ground arith)
react_counts ReactionType.insights ReactionType.insights r =
    (ground arith, ground arith, λ h. ground arith)
