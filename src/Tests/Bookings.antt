-- ===== src/Tests/Bookings.antt =====
-- The theorems on the bookings, on the small database of `Samples`.
use reservac_ia.Base.{ℕ, ◌≡◌, refl, true, false, none, some, arith, codes}
use reservac_ia.Clock.{parse_ts, abs_difference, iso}
use reservac_ia.Model.{Env, Table}
use reservac_ia.Model.Payloads.{ReservationCreate, ReservationUpdate}
use reservac_ia.Monad.{State, ok}
use reservac_ia.Samples.{
  sample_env, sample_settings, sample_db, sample_state, sample_zone, request, evening, booked,
  table_of, new_capacity,
}
use reservac_ia.Codes.{pick_symbol, normalize_code, upper}
use reservac_ia.Notifications.Templates.{format_code}
use reservac_ia.Crud.Lookup.{TableOut, attach_room, get_reservation}
use reservac_ia.Crud.Conflict.{
  table_has_conflict, find_available_table, candidates, candidate_le, to_candidate,
  resolve_table_for,
}
use reservac_ia.Crud.Tables.{update_table}
use reservac_ia.Crud.Reservations.{
  create_reservation, update_reservation, cancel_reservation, code_taken, get_reservation_by_code,
}
use reservac_ia.Notifications.Queue.{ids}
use reservac_ia.Bookings.Valid.{IsValid}
use reservac_ia.Bookings.Quiet.{HasMessages, suppressed-no_message}
use reservac_ia.Bookings.TableUpdate.{update_table-IsValid}
use reservac_ia.Bookings.Announced.{drawn}
use reservac_ia.Bookings.Booked.{create_reservation-books}
use reservac_ia.Bookings.Inserted.{IsBooked}
use reservac_ia.Bookings.Best.{find_available_table-best}
use reservac_ia.Bookings.Placing.{Placeable, resolve_table_for-Placeable}
use reservac_ia.Bookings.ByCode.{get_reservation_by_code-shown}
use reservac_ia.Monad.Succeeds.{Succeeds}

pub sample-IsValid : IsValid sample_zone sample_db
unfolding parse_ts abs_difference
sample-IsValid = record {
  apart = (((λ e. absurd (omega (arith, e)), refl, refl), tt), (tt, tt));
  below = (omega arith, (omega arith, tt));
  stamped = (refl, (refl, tt));
  seated = (refl, (refl, tt));
  distinct =
      ((
        (λ e. absurd (omega (arith, e)), (λ e. absurd (omega (arith, e)), tt)),
        ((λ e. absurd (omega (arith, e)), tt), (tt, tt)),
      ));
  tables_below = (omega arith, (omega arith, (omega arith, tt)));
}

update_table-IsValid_example :
    IsValid sample_zone (update_table 2 (new_capacity 3) sample_state).1.db
update_table-IsValid_example =
    update_table-IsValid sample_env 2 (new_capacity 3) sample_state sample-IsValid

third_free :
    (table_has_conflict sample_zone sample_db 3 (evening 20) none ≡ false)
    × (code_taken sample_db (drawn sample_env 0 6) ≡ false)
unfolding table_has_conflict parse_ts abs_difference iso pick_symbol
third_free = (refl, refl)

create_reservation-books_example :
    (best : Table) × (candidate_le
        (to_candidate sample_db best)
        (to_candidate sample_db (table_of 3 4))
      ≡ true)
    × Succeeds
        (create_reservation sample_env (request 2 20))
        sample_state
        (IsBooked sample_env (request 2 20) best.id sample_state)
create_reservation-books_example =
    create_reservation-books sample_env (request 2 20) sample_state (table_of 3 4) sample-IsValid
      refl refl (omega arith) (third_free.0) (omega arith) (third_free.1) (omega arith)

find_available_table-best_example :
    (best : TableOut) × (find_available_table sample_zone sample_db (some 2) (evening 20) none
      ≡ some best)
    × (candidate_le (to_candidate sample_db best.table) (to_candidate sample_db (table_of 3 4))
        ≡ true)
find_available_table-best_example =
    find_available_table-best sample_zone sample_db 2 (evening 20) none (table_of 3 4) refl
      (omega arith) (third_free.0)

third_chosen : resolve_table_for sample_zone sample_db none (some 2) (evening 20) none ≡ ok 3
unfolding resolve_table_for find_available_table candidates table_has_conflict parse_ts
    abs_difference attach_room
third_chosen = refl

resolve_table_for-Placeable_example : Placeable sample_zone sample_db 2 (evening 20) none 3
resolve_table_for-Placeable_example =
    resolve_table_for-Placeable sample_zone sample_db 2 (evening 20) none none 3
      sample-IsValid.distinct third_chosen

code_shown :
    (normalize_code (codes "ACDEF3") ≡ codes "ACDEF3")
    × (format_code (some (codes "ACDEF3")) ≡ ok (codes "ACD-EF3"))
unfolding normalize_code format_code upper
code_shown = (refl, refl)

get_reservation_by_code-shown_example :
    get_reservation_by_code sample_db (codes "ACD-EF3") ≡ get_reservation sample_db 1
get_reservation_by_code-shown_example =
    get_reservation_by_code-shown sample_zone sample_db 1 (booked 1 1 2 19) (codes "ACDEF3")
      (codes "ACD-EF3") sample-IsValid refl refl (code_shown.0) (code_shown.1)

abbrev quiet_env : Env
quiet_env = record sample_env { settings = sample_settings true }

-- A booking made before the switch was turned on, with its two messages.
abbrev with_messages : State
with_messages = (create_reservation sample_env (request 2 20) sample_state).1

suppressed-no_message_example :
    ((body : ReservationCreate)
      → HasMessages
          (ids with_messages.db.notifications)
          (create_reservation quiet_env body with_messages).1.db)
    × ((i : ℕ) (body : ReservationUpdate)
        → HasMessages
            (ids with_messages.db.notifications)
            (update_reservation quiet_env i body with_messages).1.db)
    × ((i : ℕ)
        → HasMessages
            (ids with_messages.db.notifications)
            (cancel_reservation quiet_env i with_messages).1.db)
suppressed-no_message_example = suppressed-no_message quiet_env with_messages refl
