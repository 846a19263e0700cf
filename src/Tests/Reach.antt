-- ===== src/Tests/Reach.antt =====
-- The theorems on reachable databases, after three requests.
use mathlib.Core.Option
use reservac_ia.Base.{ℕ, ◌≤◌, ◌≡◌, ◌≢◌, refl, true, Option, none, some, arith, codes}
use reservac_ia.Clock.{parse_ts, abs_difference, iso, ensure_aware, minus_delta, is_later}
use reservac_ia.Model.{Table, Reservation}
use reservac_ia.Monad.{State}
use reservac_ia.Samples.{sample_env, empty_state, sample_table, request, booked}
use reservac_ia.Codes.{pick_symbol, generate_go, generate_code}
use reservac_ia.Notifications.Templates.{render, format_code, filling, format, decimal, room_name}
use reservac_ia.Notifications.Queue.{enqueue, insert_notification}
use reservac_ia.Crud.Lookup.{
  reservation_row, table_row, get_reservation, attach_table, get_table, attach_room,
}
use reservac_ia.Crud.Conflict.{
  table_has_conflict, resolve_table_for, find_available_table, candidates, check_table,
  conflict_window, is_booking_of,
}
use reservac_ia.Crud.Tables.{create_table}
use reservac_ia.Crud.Reservations.{
  generate_unique_code, code_loop, keep_or_retry, insert_reservation, announce_created, book,
  create_reservation, enqueue_notification, now_local, reminder_time_for,
}
use reservac_ia.Routers.Status.{conflict_on_domain, conflict_on_reservation}
use reservac_ia.Routers.Tables
use reservac_ia.Routers.Reservations
use reservac_ia.Bookings.Reach.{Request, Reach, serve, Reach-IsValid}
use reservac_ia.Bookings.Valid.{IsValid}
use reservac_ia.Bookings.Headline.{no_double_booking, party_seated, codes_differ}

abbrev with_table : State
with_table = serve sample_env (Request.post_table sample_table) empty_state

abbrev with_one : State
with_one = serve sample_env (Request.post_reservation (request 3 19)) with_table

abbrev with_two : State
with_two = serve sample_env (Request.post_reservation (request 2 22)) with_one

with_two-Reach : Reach sample_env with_two
with_two-Reach = Reach.served _ _ (Reach.served _ _ (Reach.served _ _ (Reach.started _ refl)))

abbrev row_or : Reservation → Option Reservation → Reservation
row_or d none = d
row_or d (some r) = r

abbrev row_at : ℕ → Reservation
row_at i = row_or (booked 0 0 0 0) (reservation_row with_two.db i)

rows_found :
    (reservation_row with_two.db 1 ≡ some (row_at 1))
    × (reservation_row with_two.db 2 ≡ some (row_at 2))
    × (is_booking_of 1 (row_at 1) ≡ true)
    × (is_booking_of 1 (row_at 2) ≡ true)
    × ((row_at 1).confirmation_code ≡ some (codes "ACDEFG"))
    × ((row_at 2).confirmation_code ≡ some (codes "HJKMNP"))
unfolding serve Tables.create create_table get_table attach_room Reservations.create
    create_reservation resolve_table_for find_available_table candidates table_has_conflict
    check_table book generate_unique_code code_loop keep_or_retry generate_code generate_go
    pick_symbol insert_reservation get_reservation attach_table announce_created
    enqueue_notification now_local reminder_time_for enqueue insert_notification render format_code
    filling format decimal room_name parse_ts abs_difference iso ensure_aware minus_delta is_later
    Option.bind conflict_on_domain conflict_on_reservation
rows_found = (refl, refl, refl, refl, refl, refl)

no_double_booking_example :
    conflict_window
    ≤ abs_difference
        (parse_ts sample_env.zone (row_at 1).reservation_at)
        (parse_ts sample_env.zone (row_at 2).reservation_at)
no_double_booking_example =
    no_double_booking sample_env with_two with_two-Reach 1 2 1 (row_at 1) (row_at 2) (rows_found.0)
      (rows_found.1) (λ e. absurd (omega (arith, e))) (rows_found.2) (rows_found.3)

party_seated_example :
    (t : Table) × (table_row with_two.db 1 ≡ some t) × ((row_at 1).party_size ≤ t.capacity)
party_seated_example =
    party_seated sample_env with_two with_two-Reach 1 1 (row_at 1) (rows_found.0) (rows_found.2)

codes_differ_example : codes "ACDEFG" ≢ codes "HJKMNP"
codes_differ_example =
    codes_differ sample_env with_two with_two-Reach 1 2 (row_at 1) (row_at 2) (codes "ACDEFG")
      (codes "HJKMNP") (rows_found.0) (rows_found.1) (λ e. absurd (omega (arith, e))) (rows_found.4)
      (rows_found.5)

Reach-IsValid_example : IsValid sample_env.zone with_two.db
Reach-IsValid_example = Reach-IsValid sample_env with_two with_two-Reach
