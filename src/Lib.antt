-- ===== src/Lib.antt =====
-- A verification library for reservacIA, the reservation service of a restaurant (FastAPI over
-- SQLite). Agents call its routes to manage rooms, tables, reservations and reviews; every change of
-- a reservation queues messages to the guest, which a worker hands to a provider.
--
-- The parts and the files that model them:
--   * Base and its children: lists, options, Boolean tests, SELECT, UPDATE and DELETE on lists of rows,
--     ORDER BY as a stable insertion sort, pairwise relations, texts as lists of code points.
--   * Clock: datetimes as app/crud.py and app/models.py use them, in microseconds.
--   * Model: the rows of app/db.py, a database as one list per table with its AUTOINCREMENT counter,
--     the settings, and the world outside (clock, random source, time zone, strftime) as parameters.
--     Model.Payloads: the request bodies of app/models.py after validation.
--   * Monad: Python statements as functions from a state to a result and a state. An exception does
--     not undo what was done before it; with_connection (app/db.py, connection) rolls back. Monad.Leads
--     is a logic for what holds whatever a method answers, Monad.Succeeds one for methods that return.
--   * Codes: app/codes.py.
--   * Notifications: app/notifications. Templates, Queue, Worker are the code; Claiming, Attempts, Tick
--     and Runs are proofs, Runs with the runs of the queue.
--   * Crud: app/crud.py. Lookup, Conflict, Rooms, Tables, Reservations and Reviews follow its sections;
--     each function keeps its name, and a long one is divided at its comments into named steps.
--   * Middleware: app/middleware.py, the rate limit (Window is the bucket of one key), the body-size cap
--     and the classification of the audit log.
--   * Http: requests, answers and headers as Starlette has them, and the methods of Python's str.
--   * App: app/main.py, the chain of middlewares round the routes, each with its dispatch method of
--     app/middleware.py or app/security.py, and the handler of unhandled exceptions. Networks is the
--     allowlist, over the module ipaddress as a parameter.
--   * Migration: `_backfill_confirmation_codes` of app/db.py.
--   * Scripts: scripts/. SeedTables is scripts/seed_tables.py; of its children, Rows, Choice, Rounds and
--     Placed follow its loops and Again its second run. SeedRooms is scripts/seed_rooms.py, Spanish
--     scripts/backfill_spanish.py.
--   * Routers: app/routers, one file per router, with the route's function names. Laws and Feedback are
--     proofs, Feedback with the runs of requests for reviews. Auth is app/routers/auth.py and
--     debug.py, over the tokens of Security.
--   * Security: app/security.py, the tokens, with PyJWT as a parameter, and require_agent.
--   * Bookings: what app/crud.py has to keep of the bookings (Valid), and the proofs that its
--     operations keep it. Reach has the runs of requests; Quiet and Reminders are about the messages
--     that the operations queue and cancel. Calendar is the abstract view, bookings by number
--     without rows, codes or messages; Refines and Plans relate the requests to it.
--   * Overlap: create_reservation when requests overlap. A request reads to choose a table, reads to
--     choose a code, and writes, in three steps; Serial, Consistent and Race are proofs.
--   * Samples and Tests: small inputs, and the theorems at them.
--
-- How the code is rendered. Ids and counts are natural numbers. A row is looked up by the first match
-- in rowid order; a constraint that fails is the exception that the code turns it into. ORDER BY on
-- stored times compares the texts: by wall clock, then by offset. `datetime('now')` and
-- `datetime.now(...)` each take the next reading of a clock, of which nothing is assumed. Two datetimes
-- of the restaurant's zone are compared by wall clock and all others as instants, as Python does.
-- Arithmetic before year 1 is an OverflowError; the end of year 9999 is not modelled. The random source
-- gives indices, taken modulo the length of the alphabet. `str.upper` acts on ASCII letters. Texts are
-- not limited in length, and the monotonic clock of the rate limit counts whole microseconds.
--
-- Bounds and fuel. `_generate_unique_code` tries eight codes, as the code does, and then raises; the
-- backfill of codes tries eight for a row and then leaves it; the printing of a number divides by ten
-- once more than its value, which is enough as each division makes it smaller. All other loops are
-- recursion on lists.
--
-- Not modelled: validation by Pydantic and FastAPI, lifespan, the inclusion of routers and /docs in
-- app/main.py, the DDL of app/db.py, the notifiers, scripts/seed.py and import_resenas.py, the texts of
-- error details, an append to the audit log that fails, and connections that overlap, but for requests
-- to book (Overlap): all others are served one after the other.
pub mod Base
pub mod Clock
pub mod Model
pub mod Monad
pub mod Crud
pub mod Codes
pub mod Notifications
pub mod Security
pub mod Http
pub mod App
pub mod Migration
pub mod Scripts
pub mod Middleware
pub mod Routers
pub mod Bookings
pub mod Overlap
mod Samples
mod Tests
