-- ===== src/Connections/Rows.antt =====
-- How the statements of apps/api/src/routes/connections.ts change the rows that join two users.
use philosophy_app.Prelude.{ℕ, ◌≡◌, true, arith}
use philosophy_app.Connections.{Connection, joins}

-- A row that joins two users is found by exactly the queries for the same two.
pub joins_same :
    (p q a b : ℕ) (r x : Connection)
    → joins p r.requester_id r.addressee_id r ≡ true
    → joins q a b r ≡ true
    → joins q a b x ≡ joins p r.requester_id r.addressee_id x
joins_same p q a b r x own h = ground arith
