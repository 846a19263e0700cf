-- ===== src/Overlap.antt =====
-- `create_reservation` of app/crud.py when requests overlap. sqlite3 begins a transaction at the first
-- INSERT: the SELECTs before it read what is committed, and other writers wait from it to the commit.
-- So a request reads to choose a table, reads to choose a code, and writes, each in one step; between
-- its steps come those of the others. All SELECTs of a step read one database.
pub mod Consistent
pub mod Serial
pub mod Race
use reservac_ia.Base.{ℕ, ◌≡◌, none, some, List, [], ◌∷◌, ◌++◌, Text}
use reservac_ia.Model.{Env, Db}
use reservac_ia.Model.Payloads.{ReservationCreate}
use reservac_ia.Monad.{
  State, Result, ok, err, Action, pure, gets, query, or_raise, assertion_error, with_connection,
  ◌>>=◌, ◌>>◌,
}
use reservac_ia.Crud.Lookup.{ReservationOut, get_reservation}
use reservac_ia.Crud.Conflict.{resolve_table_for}
use reservac_ia.Crud.Reservations.{generate_unique_code, insert_reservation, announce_created}

-- From the INSERT on.
unfoldable pub write_booking : Env → ReservationCreate → ℕ → Text → Action ReservationOut
write_booking env body table_id code = do
  id ← insert_reservation env body table_id code
  found ← gets (λ db. get_reservation db id)
  row ← or_raise assertion_error found
  announce_created env row
  pure row

-- How far a request has come: with its table, its code, or its answer.
pub data Flight : Type 0 where
  arrived : ReservationCreate → Flight
  placed : ReservationCreate → (table_id : ℕ) → Flight
  coded : ReservationCreate → (table_id : ℕ) → (code : Text) → Flight
  answered : Result ReservationOut → Flight

abbrev pub go_on : {A : Type 0} → (A → Flight) → Result A × State → Flight × State
go_on f x = elim x.0 [ ok a ↦ (f a, x.1) | err e ↦ (Flight.answered (err e), x.1) ]

-- The next step of a request; an exception ends its connection.
unfoldable pub advance : Env → Flight → State → Flight × State
unfolding write_booking
advance env (Flight.arrived body) s = go_on (Flight.placed body) (
    query
      (λ db.
        resolve_table_for env.zone db body.table_id (some body.party_size) body.reservation_at none)
      s)
advance env (Flight.placed body table_id) s =
    go_on (Flight.coded body table_id) (with_connection (generate_unique_code env) s)
advance env (Flight.coded body table_id code) s =
    go_on (λ out. Flight.answered (ok out))
      (with_connection (write_booking env body table_id code) s)
advance env (Flight.answered r) s = (Flight.answered r, s)

-- The requests that are being served, and what they share.
pub record Service : Type 0 where
  pub state : State
  pub flights : List Flight

abbrev pub service : Flight × State → (before after : List Flight) → Service
service x before after = record { state = x.1; flights = before ++ x.0 ∷ after }

-- The runs from a state: a request comes in, or one of those in flight takes its next step.
pub data Overlaps (env : Env) (start : State) : Service → Type 0 where
  idle : Overlaps env start (record { state = start; flights = [] })
  arrives :
      (w : Service) (body : ReservationCreate)
      → Overlaps env start w
      → Overlaps env start (service (Flight.arrived body, w.state) w.flights [])
  moves :
      (f : Flight) (s : State) (before after : List Flight)
      → Overlaps env start (service (f, s) before after)
      → Overlaps env start (service (advance env f s) before after)
