-- ===== src/Tests/Overlap.antt =====
-- The theorems on overlapping requests, on a database with two bookings and two requests at once.
use reservac_ia.Base.{ltb, ◌≡◌, refl, false, true, [], ◌∷◌, arith}
use reservac_ia.Clock.{parse_ts, abs_difference, iso, ensure_aware, minus_delta, is_later}
use reservac_ia.Monad.{State, ok}
use reservac_ia.Samples.{sample_env, sample_zone, sample_db, sample_state, request, booked}
use reservac_ia.Codes.{pick_symbol, generate_go, generate_code}
use reservac_ia.Notifications.Templates.{render, format_code, filling, format, decimal, room_name}
use reservac_ia.Notifications.Queue.{enqueue, insert_notification}
use reservac_ia.Crud.Lookup.{ReservationOut, get_reservation, attach_table, get_table, attach_room}
use reservac_ia.Crud.Conflict.{
  conflict_window, table_has_conflict, resolve_table_for, find_available_table, candidates,
  check_table,
}
use reservac_ia.Crud.Reservations.{
  generate_unique_code, code_loop, keep_or_retry, insert_reservation, announce_created, book,
  enqueue_notification, now_local, reminder_time_for, code_taken,
}
use reservac_ia.Bookings.Valid.{clash}
use reservac_ia.Bookings.Announced.{drawn}
use reservac_ia.Tests.Bookings.{sample-IsValid}
use reservac_ia.Overlap.{Flight, advance, service, Overlaps}
use reservac_ia.Overlap.Serial.{twice}
use reservac_ia.Overlap.Race.{Bookable, first_booked, overlapping-clash}

-- One request has chosen its table when another comes in.
abbrev placed_one : Flight × State
placed_one = advance sample_env (Flight.arrived (request 2 20)) sample_state

placed_run :
    Overlaps sample_env sample_state (service placed_one [] (Flight.arrived (request 3 20) ∷ []))
placed_run =
    Overlaps.moves (Flight.arrived (request 2 20)) sample_state []
      (Flight.arrived (request 3 20) ∷ [])
      (Overlaps.arrives _ (request 3 20) (Overlaps.arrives _ (request 2 20) Overlaps.idle))

abbrev coded_run :
    Overlaps sample_env sample_state
      (service (twice sample_env placed_one) [] (Flight.arrived (request 3 20) ∷ []))
coded_run = Overlaps.moves _ _ [] _ (Overlaps.moves _ _ [] _ placed_run)

third_chosen :
    Bookable sample_env sample_state (request 2 20) 3
    × Bookable sample_env sample_state (request 3 20) 3
unfolding resolve_table_for find_available_table candidates table_has_conflict check_table parse_ts
    abs_difference iso attach_room
third_chosen = ((refl, omega arith, omega arith), (refl, omega arith, omega arith))

fresh_codes :
    (code_taken sample_db (drawn sample_env 0 6) ≡ false)
    × (code_taken
          (first_booked sample_env sample_state sample-IsValid
            (request 2 20)
            (request 3 20)
            3
            third_chosen.0
            third_chosen.1).db
          (drawn sample_env
            (first_booked sample_env sample_state sample-IsValid
              (request 2 20)
              (request 3 20)
              3
              third_chosen.0
              third_chosen.1).draws
            6)
        ≡ false)
unfolding book generate_unique_code code_loop keep_or_retry generate_code generate_go pick_symbol
    insert_reservation get_reservation attach_table get_table attach_room announce_created
    enqueue_notification now_local reminder_time_for render format_code filling format decimal
    room_name enqueue insert_notification parse_ts iso ensure_aware minus_delta is_later
fresh_codes = (refl, refl)

same_evening :
    ltb
      (abs_difference
        (parse_ts sample_zone (iso (request 2 20).reservation_at))
        (parse_ts sample_zone (iso (request 3 20).reservation_at)))
      conflict_window
    ≡ true
unfolding abs_difference parse_ts iso
same_evening = refl

overlapping-clash_example :
    (t : State) × (x : ReservationOut) × (y : ReservationOut) × Overlaps sample_env sample_state
      (record { state = t; flights = Flight.answered (ok x) ∷ Flight.answered (ok y) ∷ [] })
    × (t.db.reservations ≡ booked 1 1 2 19 ∷ booked 2 2 3 19 ∷ x.reservation ∷ y.reservation ∷ [])
    × (clash sample_zone x.reservation y.reservation ≡ true)
overlapping-clash_example =
    overlapping-clash sample_env sample_state sample-IsValid (request 2 20) (request 3 20) 3
      third_chosen.0 third_chosen.1 same_evening fresh_codes.0 fresh_codes.1
