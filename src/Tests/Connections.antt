-- ===== src/Tests/Connections.antt =====
-- The theorems on connections, on a project of four profiles.
use philosophy_app.Prelude.{
  ℕ, ◌≡◌, refl, Option, none, some, List, [], ◌∷◌, arith, count_rows, select_rows,
}
use philosophy_app.Http.{ok}
use philosophy_app.Roles.{printed}
use philosophy_app.Connections.{
  StatusView, Connection, Status, Profile, Store, Notice, NoticeKind, requested, accepted, linked,
  post_connection, accept_connection, get_connection, insert_request, joins, between,
}
use philosophy_app.Connections.Invariant.{IsSound, insert-IsSound}
use philosophy_app.Connections.Changes.{foreign}
use philosophy_app.Connections.Steps.{asked, took, here, next, Reach-IsSound, Step-foreign}
use philosophy_app.Connections.Laws.{views_agree, crossing_requests_connect, seen_from_other}
use philosophy_app.Connections.Races.{racing_requests_double}

abbrev alice : Profile
alice = record { id = 1; project_id = 1 }

abbrev bob : Profile
bob = record { id = 2; project_id = 1 }

abbrev row_of : ℕ → ℕ → ℕ → Status → ℕ → Option ℕ → Connection
row_of id from to status created responded = record {
  id = id;
  project_id = 1;
  requester_id = from;
  addressee_id = to;
  status = status;
  message = none;
  created_at = created;
  responded_at = responded;
}

abbrev note : ℕ → NoticeKind → ℕ → ℕ → Notice
note to kind id from = record {
  recipient_id = to;
  kind = kind;
  connection_id = id;
  actor_id = from;
}

abbrev store : List Connection → List Notice → Store
store rows notices = record {
  connections = rows;
  profiles =
      alice ∷ bob ∷ record { id = 3; project_id = 1 } ∷ record { id = 4; project_id = 1 } ∷ [];
  notices = notices;
}

abbrev asked_note : Notice
asked_note = note 2 NoticeKind.connection_request 10 1

abbrev start : Store
start = store [] []

abbrev pending_store : Store
pending_store = store (row_of 10 1 2 Status.pending 5 none ∷ []) (asked_note ∷ [])

abbrev linked_store : Store
linked_store =
    store (row_of 10 1 2 Status.connected 5 (some 6) ∷ [])
      (note 1 NoticeKind.connection_accepted 10 2 ∷ asked_note ∷ [])

empty-IsSound : IsSound []
empty-IsSound = record { one_id = λ i. omega arith; one_pair = λ p a b. omega arith; no_self = tt }

Reach-IsSound_example : IsSound linked_store.connections
unfolding post_connection accept_connection
Reach-IsSound_example =
    Reach-IsSound {s = start} {t = linked_store}
      (next {u = 2} {t = pending_store} {v = linked_store}
        (next {u = 1} {t = start} {v = pending_store} here
          (asked (some (printed 2)) (some none) 5 10 (requested 10) refl refl))
        (took (some (printed 10)) 6 (accepted 10) refl))
      empty-IsSound

abbrev others : List Connection
others = row_of 7 3 4 Status.pending 1 none ∷ []

Step-foreign_example :
    select_rows (foreign 1) (row_of 10 1 2 Status.pending 5 none ∷ others)
    ≡ select_rows (foreign 1) others
unfolding post_connection
Step-foreign_example =
    Step-foreign {u = 1} {s = store others []}
      {t = store (row_of 10 1 2 Status.pending 5 none ∷ others) (asked_note ∷ [])}
      (insert-IsSound (row_of 7 3 4 Status.pending 1 none) [] (λ e. omega (arith, e)) refl refl
        empty-IsSound)
      (asked (some (printed 2)) (some none) 5 10 (requested 10) refl refl)

crossing_requests_connect_example :
    (t : Store) × (post_connection pending_store 2 (some (printed 1)) (some none) 6 11
      ≡ ok (t, accepted 10))
    × (get_connection t 1 (some (printed 2)) ≡ ok (linked 10))
    × (get_connection t 2 (some (printed 1)) ≡ ok (linked 10))
unfolding post_connection
crossing_requests_connect_example =
    crossing_requests_connect start pending_store alice bob (printed 2) (printed 1) none none 5 6 10
      11 10 refl refl refl refl refl refl

views_agree_example :
    (v : StatusView) × (get_connection pending_store 1 (some (printed 2)) ≡ ok v)
    × (get_connection pending_store 2 (some (printed 1)) ≡ ok (seen_from_other v))
views_agree_example =
    views_agree pending_store alice bob (printed 2) (printed 1) refl refl refl
      (λ e. omega (arith, e)) refl refl

racing_requests_double_example :
    (t : Store) × (insert_request pending_store bob 1 none 6 11 ≡ ok (t, requested 11))
    × (count_rows (joins 1 1 2) t.connections ≡ 2)
unfolding insert_request between
racing_requests_double_example =
    racing_requests_double start pending_store alice bob none none 5 6 10 11 10 refl refl refl refl
