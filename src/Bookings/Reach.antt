-- ===== src/Bookings/Reach.antt =====
-- Every database that requests can make of the empty one: the routes that write to rooms, tables and
-- reservations, one request after the other, whatever each answers.
use reservac_ia.Base.{ℕ, ◌≡◌, Option, none, some, Bool, not, Text}
use reservac_ia.Model.{Env, Db, empty_db}
use reservac_ia.Model.Payloads.{
  RoomCreate, RoomUpdate, TableCreate, TableUpdate, ReservationCreate, ReservationUpdate,
}
use reservac_ia.Monad.{Exn, State, Action, with_connection, http_error, gets, raise_if, ◌>>=◌, ◌>>◌}
use reservac_ia.Monad.Leads.{
  Leads, bind-Preserves, with_connection-Leads, or_raise-Leads, raise_if-Leads, gets-Leads,
  pure-Leads,
}
use reservac_ia.Crud.Lookup.{ReservationOut, get_reservation}
use reservac_ia.Crud.Rooms.{create_room, update_room, delete_room}
use reservac_ia.Crud.Tables.{create_table, update_table, delete_table}
use reservac_ia.Crud.Reservations.{create_reservation, update_reservation, cancel_reservation}
use reservac_ia.Routers.Status.{translate, conflict_on_domain, conflict_on_reservation, or_404}
use reservac_ia.Routers.Rooms
use reservac_ia.Routers.Tables
use reservac_ia.Routers.Reservations
use reservac_ia.Routers.Reservations.{checked_update, checked_cancel, enforce_verify_phone}
use reservac_ia.Bookings.Valid.{IsValid, IsValid-stable}
use reservac_ia.Bookings.Create.{create_reservation-IsValid}
use reservac_ia.Bookings.Update.{update_reservation-IsValid}
use reservac_ia.Bookings.Cancel.{cancel_reservation-IsValid}
use reservac_ia.Bookings.Tables.{create_table-IsValid, delete_table-IsValid}
use reservac_ia.Bookings.TableUpdate.{update_table-IsValid}
use reservac_ia.Bookings.Rooms.{create_room-Stable, update_room-Stable, delete_room-Stable}

-- The requests that write to the rooms, tables and reservations.
pub data Request : Type 0 where
  post_room : RoomCreate → Request
  patch_room : ℕ → RoomUpdate → Request
  remove_room : ℕ → Request
  post_table : TableCreate → Request
  patch_table : ℕ → TableUpdate → Request
  remove_table : ℕ → Request
  post_reservation : ReservationCreate → Request
  patch_reservation : ℕ → ReservationUpdate → Request
  cancel_reservation_at : ℕ → Option Text → Request

-- The state that the route of a request leaves.
unfoldable pub serve : Env → Request → State → State
serve env (post_room body) s = (Rooms.create env body s).1
serve env (patch_room i body) s = (Rooms.update env i body s).1
serve env (remove_room i) s = (Rooms.delete i s).1
serve env (post_table body) s = (Tables.create env body s).1
serve env (patch_table i body) s = (Tables.update env i body s).1
serve env (remove_table i) s = (Tables.delete i s).1
serve env (post_reservation body) s = (Reservations.create env body s).1
serve env (patch_reservation i body) s = (Reservations.update env i body s).1
serve env (cancel_reservation_at i claimed) s = (Reservations.cancel env i claimed s).1

-- The states that a run of requests from an empty database passes through.
pub data Reach (env : Env) : State → Type 0 where
  started : (s : State) → s.db ≡ empty_db → Reach env s
  served : (s : State) (request : Request) → Reach env s → Reach env (serve env request s)

module _ {P : Db → Type 0} where
  translate-Leads :
      {A : Type 0} (f : Exn → Exn) (m : Action A) → Leads P P m → Leads P P (translate f m)
  translate-Leads f m h = record { run = h.run }

  -- A route that opens a connection, translates a refusal and answers 404 for None.
  pub route-Leads :
      {A : Type 0} (f : Exn → Exn) (m : Action (Option A))
      → Leads P P m
      → Leads P P (translate f (with_connection m) >>= λ row. or_404 row)
  route-Leads f m h =
      bind-Preserves _ _ (translate-Leads f (with_connection m) (with_connection-Leads m h))
        (λ row. or_raise-Leads (http_error 404) row)

  pub delete-Leads :
      (f : Exn → Exn) (m : Action Bool)
      → Leads P P m
      → Leads P P (translate f (with_connection m) >>= λ b. raise_if (not b) (http_error 404))
  delete-Leads f m h =
      bind-Preserves _ _ (translate-Leads f (with_connection m) (with_connection-Leads m h))
        (λ b. raise_if-Leads (not b) (http_error 404))

  enforce_verify_phone-Leads :
      (out : ReservationOut) (claimed : Option Text) → Leads P P (enforce_verify_phone out claimed)
  unfolding enforce_verify_phone
  enforce_verify_phone-Leads out none = pure-Leads tt
  enforce_verify_phone-Leads out (some claimed) = raise_if-Leads _ _

  -- The lookup and the check of the phone before an operation on a reservation.
  pub guarded-Leads :
      {A : Type 0} (i : ℕ) (claimed : Option Text) (m : Action A)
      → Leads P P m
      → Leads P P (
          gets (λ db. get_reservation db i) >>= λ row.
          or_404 row >>= λ existing. enforce_verify_phone existing claimed >> m)
  guarded-Leads i claimed m h = bind-Preserves _ _ (gets-Leads (λ db. get_reservation db i)) λ row.
      bind-Preserves _ _ (or_raise-Leads (http_error 404) row)
        λ existing. bind-Preserves _ _ (enforce_verify_phone-Leads existing claimed) (λ _. h)

module _ (env : Env) where
  abbrev Valid : Db → Type 0
  Valid = IsValid env.zone

  update-Leads : (i : ℕ) (body : ReservationUpdate) → Leads Valid Valid (checked_update env i body)
  unfolding checked_update
  update-Leads i body =
      guarded-Leads i body.verify_phone (update_reservation env i body)
        (record { run = update_reservation-IsValid env i body })

  cancel-Leads : (i : ℕ) (claimed : Option Text) → Leads Valid Valid (checked_cancel env i claimed)
  unfolding checked_cancel
  cancel-Leads i claimed =
      guarded-Leads i claimed (cancel_reservation env i)
        (record { run = cancel_reservation-IsValid env i })

  pub serve-IsValid :
      (request : Request) (s : State)
      → IsValid env.zone s.db
      → IsValid env.zone (serve env request s).db
  unfolding serve Rooms.create Rooms.update Rooms.delete Tables.create Tables.update Tables.delete
      Reservations.create Reservations.update Reservations.cancel
  serve-IsValid (post_room body) s v =
      (with_connection-Leads (create_room env body)
          (record { run = create_room-Stable env (IsValid-stable env.zone) body })).run
        s v
  serve-IsValid (patch_room i body) s v =
      (route-Leads conflict_on_domain (update_room env i body)
          (record { run = update_room-Stable env (IsValid-stable env.zone) i body })).run
        s v
  serve-IsValid (remove_room i) s v =
      (delete-Leads conflict_on_domain (delete_room i)
          (record { run = delete_room-Stable env (IsValid-stable env.zone) i })).run
        s v
  serve-IsValid (post_table body) s v =
      (with_connection-Leads (create_table env body)
          (record { run = create_table-IsValid env body })).run
        s v
  serve-IsValid (patch_table i body) s v =
      (route-Leads conflict_on_domain (update_table i body)
          (record { run = update_table-IsValid env i body })).run
        s v
  serve-IsValid (remove_table i) s v =
      (delete-Leads conflict_on_domain (delete_table i)
          (record { run = delete_table-IsValid env i })).run
        s v
  serve-IsValid (post_reservation body) s v =
      (with_connection-Leads (create_reservation env body)
          (record { run = create_reservation-IsValid env body })).run
        s v
  serve-IsValid (patch_reservation i body) s v =
      (route-Leads conflict_on_reservation (checked_update env i body) (update-Leads i body)).run s
        v
  serve-IsValid (cancel_reservation_at i claimed) s v =
      (bind-Preserves _ _
          (with_connection-Leads (checked_cancel env i claimed) (cancel-Leads i claimed))
          (λ row. or_raise-Leads (http_error 404) row)).run
        s v

  empty-IsValid : IsValid env.zone empty_db
  empty-IsValid = record {
    apart = tt;
    below = tt;
    stamped = tt;
    seated = tt;
    distinct = tt;
    tables_below = tt;
  }

  -- Every database that a run of requests to the routes for rooms, tables and reservations makes
  -- of the empty one is valid: apart bookings, seated parties, stored times with an offset,
  -- distinct ids and codes, ids below the counters.
  pub Reach-IsValid : (s : State) → Reach env s → IsValid env.zone s.db
  Reach-IsValid _ (started s e) = rw e empty-IsValid
  Reach-IsValid _ (served s request r) = serve-IsValid request s (Reach-IsValid s r)
