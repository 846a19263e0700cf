-- ===== src/Overlap/Serial.antt =====
-- A request whose steps come one after the other is `create_reservation` in one connection.
use reservac_ia.Base.{◌≡◌, refl, ap, Text, ℕ}
use reservac_ia.Model.{Env}
use reservac_ia.Model.Payloads.{ReservationCreate}
use reservac_ia.Monad.{State, Result, ok, err, and_then, with_connection}
use reservac_ia.Crud.Lookup.{ReservationOut}
use reservac_ia.Crud.Reservations.{generate_unique_code, book}
use reservac_ia.Bookings.Frame.{generate_unique_code-Leads}
use reservac_ia.Overlap.{Flight, advance, go_on, write_booking}

-- A flight and its state after two more steps.
abbrev pub twice : Env → Flight × State → Flight × State
twice env x = advance env (advance env x.0 x.1).0 (advance env x.0 x.1).1

abbrev pub answer : Result ReservationOut × State → Flight × State
answer x = (Flight.answered x.0, x.1)

module _ (env : Env) (body : ReservationCreate) (s : State) where
  -- The last step, after a state with the same database.
  written :
      (table_id : ℕ) (code : Text) (t : State)
      → t.db ≡ s.db
      → advance env (Flight.coded body table_id code) t
        ≡ answer (with_connection (λ _. write_booking env body table_id code t) s)
  unfolding advance
  written table_id code t e =
      by_cases (write_booking env body table_id code t).0 (write_booking env body table_id code t).1
    where
      by_cases :
          (r : Result ReservationOut) (u : State)
          → go_on (λ out. Flight.answered (ok out)) (with_connection (λ _. (r, u)) t)
            ≡ answer (with_connection (λ _. (r, u)) s)
      by_cases (ok out) u = refl
      by_cases (err x) u = ap (λ d. (Flight.answered (err x), record u { db = d })) e

  coded :
      (table_id : ℕ) (r : Result Text) (t : State)
      → t.db ≡ s.db
      → (let x = go_on (Flight.coded body table_id) (with_connection (λ _. (r, t)) s) in
          advance env x.0 x.1)
        ≡ answer
            (with_connection (λ _. and_then r (λ code. write_booking env body table_id code) t) s)
  unfolding advance
  coded table_id (ok code) t e = written table_id code t e
  coded table_id (err x) t e = refl

  pub placed :
      (r : Result ℕ)
      → twice env (go_on (Flight.placed body) (r, s))
        ≡ answer (with_connection (λ _. and_then r (book env body) s) s)
  unfolding advance book write_booking
  placed (ok table_id) =
      let same = generate_unique_code-Leads env {P = λ db. db ≡ s.db} in
      coded table_id (generate_unique_code env s).0 (generate_unique_code env s).1 (same.run s refl)
  placed (err x) = refl
