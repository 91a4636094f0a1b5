-- ===== src/Lib.antt =====
-- Verification of the community server of this repository: a Hono application (apps/api) over
-- PostgreSQL, with the authentication middleware of packages/core.
--
-- A request passes the wall (Auth), which hands the handler the token's context. The handlers ask the
-- role grants (Roles) and the gates on spaces, entities and moderation (Access), and then read and
-- write their tables (Connections, Events, Steward, Spaces).
--
-- How the code is modelled. A handler is a function from the tables, the token's context and what the
-- schema makes of the request to a `Result`: the failure that the code throws, or the new tables with
-- the answer. A table is the list of its rows (Prelude.Rows), a SQL predicate a Boolean function of a
-- row, an `exists` subquery `has_row`, an update or a delete `update_rows` or `delete_rows`. A uuid is
-- a number; where the code compares texts, `Roles.UuidText` adds the spelling. Time is a number that
-- the caller supplies, and so is the id that the database draws for an insert. A body or path segment
-- that the validation refuses is `none`.
--
-- - Prelude: tests on numbers, tables as lists of rows, and how statements change counts of rows.
-- - Http: packages/core/src/http/errors.ts, the failures and the monad of handlers; Http.Paging has the
--   limits of pages.
-- - Auth: packages/core/src/middleware/auth.ts (`authWall`, `enforceAuthed`) and lib/suspensions.ts;
--   Auth.Wall says what passes.
-- - Roles: apps/api/src/lib/project-roles.ts and routes/roles.ts; Roles.Owners is about the last
--   owner, Roles.Cache and Roles.Staleness about the 30 second cache.
-- - Access: apps/api/src/lib/space-access.ts, space-visibility.ts, moderation-visibility.ts and
--   public-access.ts; Access.Reading compares the gates, Access.Exposure is about the anonymous
--   surface.
-- - Connections: apps/api/src/routes/connections.ts. Invariant holds the well-formed tables, Changes
--   the ways in which rows change, Steps the handlers one after the other, Laws the answers, Races two
--   handlers at a time.
-- - Events: apps/api/src/routes/events.ts and lib/events-policy.ts. Rsvp and Manage hold the handlers,
--   Gate compares the list with the single read, Capacity and Seats are about the seats, Roster about
--   hosts and invites, Live about the reactions of a live debate.
-- - Steward: apps/api/src/routes/steward.ts, with the policy of lib/notifications.ts and the settings
--   of lib/steward-config.ts. Mediation is the wind-down of lib/mediation.ts, Cases and Update hold
--   the handlers, Privacy is about notifications, Lifecycle about cases, timeline and
--   content, Outcomes about their ends, WindDown about the channels of a closed case.
-- - RateLimit: apps/api/src/lib/rate-limit.ts, the limiter with the store in memory; Windows is about
--   the hits of one window and about sweeps.
-- - SecureChat: apps/secure-chat/src/routes/secure-chat.ts and lib/space-access.ts, the delivery service
--   for encrypted conversations. Devices, Groups, Messages and Couriers hold the handlers, Steps the
--   sequences of requests and what each changes. Epochs is about the order of commits, Claims about
--   key packages, Leaving about members who go, Inbox about the cursor of handshakes, Quotas about
--   restore blobs.
-- - Spaces: apps/api/src/routes/spaces.ts, with the triggers of apps/api/drizzle/0002_triggers.sql. Tree,
--   Members, Settings and Lists hold the handlers. Ancestry is about chains of parents, Loops about the two loops
--   that walk up them, Rooted, Growth and Steps about what requests do to them, Reach about sequences
--   of requests, Counts, Exact, Headcount and Tally about the counters of members, Permissions about
--   what a caller is told and the gates.
-- - Tests: each theorem applied to a small table.
--
-- All functions are total by structural recursion. Two loops of Spaces walk up the parents and have the
-- rounds that they may take as an argument: the cycle check has three more than there are rows,
-- and the breadcrumb as many as its caller gives. Spaces.Loops shows that rounds enough exist.
--
-- Not modelled: the verification of tokens (the JWT library; its answer is a parameter), the answer of
-- the query builder to a limit below one row (a parameter too), the Redis
-- index of suspensions and the Redis store of the limiter, pages and orders of lists but the inbox of
-- secure chat, texts, images and locations, notifications but the ones of connections and of steward
-- cases, websockets, the other routes of apps/api, and the user interfaces.
pub mod Prelude
pub mod Http
pub mod Auth
pub mod Roles
pub mod Access
pub mod Connections
pub mod Events
pub mod Steward
pub mod RateLimit
pub mod SecureChat
pub mod Spaces
pub mod Tests
