-- ===== src/SecureChat/Inbox.antt =====
-- The cursor of the inbox of handshakes: `GET /devices/:deviceId/handshakes` of
-- apps/secure-chat/src/routes/secure-chat.ts.
pub mod Order
pub mod Later
use mathlib.Core.Path.{subst}
use mathlib.Core.List.{append-nil, append_assoc}
use philosophy_app.Prelude.{
  find_row_sound, take-take, take_whole, take_some, ℕ, zero, suc, ◌+◌, ◌≤◌, ◌<◌, ◌≡◌, refl, sym, ap,
  ◌∙◌, inl, inr, Bool, true, false, ◌&&◌, ◌||◌, Option, some, none, List, [], ◌∷◌, ◌++◌, arith,
  ◌==◌, ltb, if◌then◌else◌, Bool-cases, find_row, select_rows, has_row, length, take, sort_rows,
  insert_row, Page, All, min, some_eq,
}
use philosophy_app.Http.{Result, ok, ◌>>=◌, bind-ok, ok-injective, found_or-ok}
use philosophy_app.Auth.{AuthContext}
use philosophy_app.Http.Paging.{
  LimitQuery, absent, whole, below, Limit, rows_up_to, ShortQuery, clamp_limit, above_zero, page_of,
}
use philosophy_app.Access.{Ctx, require_auth}
use philosophy_app.SecureChat.{Handshake, SecureTables, Limits, get_my_device, my_device}
use philosophy_app.SecureChat.Groups.{WelcomeBody, push_handshake, push_welcomes}
use philosophy_app.SecureChat.Messages.{
  broadcast_to, delivered_to, lower_seq, inbox, poll_handshakes,
}
use philosophy_app.SecureChat.Epochs.{
  Descending, IsNumbered, add-Advance, remove-Advance, create-Opening,
}
use philosophy_app.SecureChat.Inbox.Order.{
  Ascending, last_seq, reversed, sort-eq-reversed, Descending-select, select-reversed,
  select-select, reversed-Ascending, select-Above, after_cursor, take_resume, last_seq-le, Below,
  reversed-Below, last_seq-lt,
}
use philosophy_app.SecureChat.Inbox.Later.{FromOn, Reach-Extends}
use philosophy_app.SecureChat.Steps.{Reach, here, next}
use philosophy_app.SecureChat.Steps.Changes.{
  Change, aside, stocked, spent, opened, grew, shrank, Step-Change,
}

Change-IsNumbered : (t t' : SecureTables) → Change t t' → IsNumbered t → IsNumbered t'
Change-IsNumbered t t' (aside same keys) n = rw (same.next_seq_kept, same.handshakes_kept) n
Change-IsNumbered t t' (stocked dev now packages h same) n =
    rw (same.next_seq_kept, same.handshakes_kept) n
Change-IsNumbered t t' (spent user_id now r) n = n
Change-IsNumbered t t' (opened project_id me body fresh now h) n =
    (create-Opening t project_id me body fresh now h).numbered n
Change-IsNumbered t t' (grew project_id id body bytes h) n =
    (add-Advance t project_id id body bytes h).numbered n
Change-IsNumbered t t' (shrank project_id id target e bytes now h) n =
    (remove-Advance t project_id id target e bytes now h).numbered n

Reach-IsNumbered :
    (limits : Limits) (s t : SecureTables) → Reach limits s t → IsNumbered s → IsNumbered t
Reach-IsNumbered limits s t here n = n
Reach-IsNumbered limits s t (next {u} steps last) n =
    Change-IsNumbered u t (Step-Change limits u last) (Reach-IsNumbered limits s u steps n)

cut :
    (ours : Bool) (since cursor seq : ℕ) (mine : Bool)
    → since ≤ cursor
    → (ours && (ltb cursor seq && mine)) ≡ ((ours && (ltb since seq && mine)) && ltb cursor seq)
cut ours since cursor seq mine le = ground arith

module _ (t : SecureTables) (project_id user_id device_id : ℕ) (numbered : IsNumbered t) where
  selected : ℕ → List Handshake
  selected since = select_rows (delivered_to t project_id user_id device_id since) t.handshakes

  inbox-reversed :
      (since : ℕ) → inbox t project_id user_id device_id since ≡ reversed (selected since)
  unfolding inbox selected
  inbox-reversed since = sort-eq-reversed t.next_seq (selected since) (
      Descending-select (delivered_to t project_id user_id device_id since) t.next_seq t.handshakes
        numbered)

  inbox-Ascending : (since : ℕ) → Ascending since (inbox t project_id user_id device_id since)
  unfolding selected
  inbox-Ascending since = rw (inbox-reversed since) (
      reversed-Ascending since t.next_seq (selected since)
        (Descending-select (delivered_to t project_id user_id device_id since) t.next_seq
          t.handshakes numbered)
        (select-Above (delivered_to t project_id user_id device_id since) since t.handshakes
          (λ h delivered. ground arith)))

  inbox-Below : (since : ℕ) → Below t.next_seq (inbox t project_id user_id device_id since)
  unfolding selected
  inbox-Below since = rw (inbox-reversed since) (
      reversed-Below t.next_seq (selected since) (
        Descending-select (delivered_to t project_id user_id device_id since) t.next_seq
          t.handshakes numbered))

  -- The rows after a later cursor are those rows of the inbox that stand after it.
  inbox_after :
      (since cursor : ℕ)
      → since ≤ cursor
      → inbox t project_id user_id device_id cursor
        ≡ select_rows (after_cursor cursor) (inbox t project_id user_id device_id since)
  unfolding selected
  inbox_after since cursor le =
      inbox-reversed cursor
      ∙ ap reversed (
          sym (
            select-select (delivered_to t project_id user_id device_id since) (after_cursor cursor)
              (delivered_to t project_id user_id device_id cursor) t.handshakes
              (λ h.
                cut (h.project_id == project_id) since cursor h.seq
                  (some_eq h.target_device_id device_id || broadcast_to t project_id user_id h)
                  le)))
      ∙ sym (select-reversed (after_cursor cursor) (selected since))
      ∙ ap (select_rows (after_cursor cursor)) (sym (inbox-reversed since))

-- A limit that is not below zero takes one row at least.
limit_pos :
    (limit : LimitQuery)
    → above_zero limit ≡ true
    → (n : ℕ) × (0 < n) × (clamp_limit 100 500 limit ≡ rows_up_to n)
limit_pos absent up = (100, omega arith, refl)
limit_pos (whole zero) up = (100, omega arith, refl)
limit_pos (whole (suc n)) up = (min (suc n) 500, omega arith, refl)
limit_pos (below n) up = absurd (cc up)

-- Rows that no number of the old sequence has, past the old cursor, are past the new one.
ahead :
    (since n top : ℕ) (xs added : List Handshake)
    → Below top xs
    → FromOn top added
    → All (λ (h : Handshake). since < h.seq → last_seq since (take n xs) < h.seq) added
ahead since n top xs [] b f = tt
ahead since n top xs (h ∷ added) b (at, later) =
    (λ past. last_seq-lt since n top h.seq xs past at b, ahead since n top xs added b later)

-- Requests run one after the other, and the log has falling numbers, the last row first, all below the
-- next number of the sequence. In every state that the requests lead to from there, and for a limit that
-- is absent or a whole number not below zero: the page that a poll answers, followed by what the inbox of
-- the same state holds after the page's last row, is what that inbox holds after the old cursor, in the
-- order of strictly rising numbers; a page that says that there is no more is all of it, and one that
-- says that there is more is not empty. In every state that later requests lead to, the log has its old
-- rows still, and each row that it has gained and that is past the old cursor is past the page's last row
-- too, so the new cursor does not pass it over.
pub poll_resumes :
    (short : ShortQuery) (limits : Limits) (s t : SecureTables) (c : Ctx) (device_id since : ℕ)
    (limit : LimitQuery) (page : Page Handshake) (auth : AuthContext)
    → IsNumbered s
    → Reach limits s t
    → c.auth ≡ some auth
    → above_zero limit ≡ true
    → poll_handshakes short t c device_id since limit ≡ ok page
    → (page.rows ++ inbox t c.project_id auth.user_id device_id (last_seq since page.rows)
        ≡ inbox t c.project_id auth.user_id device_id since)
      × Ascending since (inbox t c.project_id auth.user_id device_id since)
      × (page.has_more ≡ false → page.rows ≡ inbox t c.project_id auth.user_id device_id since)
      × (page.has_more ≡ true → 0 < length page.rows)
      × ((u : SecureTables)
          → Reach limits t u
          → (added : List Handshake) × (u.handshakes ≡ added ++ t.handshakes)
            × All (λ (h : Handshake). since < h.seq → last_seq since page.rows < h.seq) added)
unfolding poll_handshakes get_my_device
poll_resumes short limits s t c device_id since limit page auth start steps signed up h0 =
    let numbered = Reach-IsNumbered limits s t steps start in
    let (dev, found, h1) =
      bind-ok (get_my_device t c.project_id auth.user_id device_id) _
        (rw (poll_handshakes, signed) at h0) in
    let (n, pos, at_n) = limit_pos limit up in
    let sound =
      find_row_sound (my_device c.project_id auth.user_id device_id) t.devices {x = dev}
        (found_or-ok _ _ found) in
    let same_id : dev.id ≡ device_id = ground arith in
    let xs = inbox t c.project_id auth.user_id device_id since in
    let cut_page : List Handshake → Page Handshake = λ ys. record {
      rows = take n (take (suc n) ys);
      has_more = ltb n (length (take (suc n) ys));
    } in
    let h2 =
      subst
        (λ (l : Limit). page_of short l (inbox t c.project_id auth.user_id dev.id since) ≡ ok page)
        at_n h1 in
    let same : cut_page xs ≡ page =
      subst (λ (i : ℕ). cut_page (inbox t c.project_id auth.user_id i since) ≡ page) same_id
        (ok-injective h2) in
    let rising = inbox-Ascending t c.project_id auth.user_id device_id numbered since in
    subst
      (λ (x : Page Handshake).
        (x.rows ++ inbox t c.project_id auth.user_id device_id (last_seq since x.rows) ≡ xs)
        × Ascending since xs
        × (x.has_more ≡ false → x.rows ≡ xs)
        × (x.has_more ≡ true → 0 < length x.rows)
        × ((u : SecureTables)
            → Reach limits t u
            → (added : List Handshake) × (u.handshakes ≡ added ++ t.handshakes)
              × All (λ (h : Handshake). since < h.seq → last_seq since x.rows < h.seq) added))
      same
      (
        rw (take-take n xs) (
            ap (λ l. take n xs ++ l)
              (inbox_after t c.project_id auth.user_id device_id numbered since _
                (last_seq-le since n xs rising))
            ∙ take_resume since n xs rising),
        rising,
        λ last. take-take n xs ∙ take_whole n xs last,
        λ more. rw (take-take n xs) (take_some n xs pos more),
        λ u later.
            let (added, gained, from_on, _) = Reach-Extends limits t u later in
            (
              added,
              gained,
              rw (take-take n xs) (
                  ahead since n t.next_seq xs added
                    (inbox-Below t c.project_id auth.user_id device_id numbered since) from_on),
            ),
      )
