-- ===== src/Crud/Reservations/Queries.antt =====
-- The queries for reservations in app/crud.py.
use mathlib.Core.Option
use reservac_ia.Base.{
  ℕ, Bool, true, false, ◌&&◌, ◌||◌, not, Option, none, some, List, map, leb, opt_eq, take, find,
  select, order_by, if◌then◌else◌, Text, text_eq,
}
use reservac_ia.Clock.{iso_le}
use reservac_ia.Model.{Db, Reservation, ReservationStatus, is_confirmed}
use reservac_ia.Codes.{normalize_code}
use reservac_ia.Crud.Lookup.{ReservationOut, attach_table}
use reservac_ia.Crud.Reservations.Enqueue.{code_is}

unfoldable pub get_reservation_by_code : Db → Text → Option ReservationOut
get_reservation_by_code db raw_code =
    Option.map (attach_table db) (find (code_is (normalize_code raw_code)) db.reservations)

abbrev pub phone_is : Option Text → Reservation → Bool
phone_is none r = true
phone_is (some phone) r = text_eq r.phone phone

abbrev pub status_is : Option ReservationStatus → Reservation → Bool
status_is none r = true
status_is (some ReservationStatus.confirmed) r = is_confirmed r.status
status_is (some ReservationStatus.cancelled) r = not (is_confirmed r.status)

abbrev pub table_is : Option ℕ → Reservation → Bool
table_is none r = true
table_is (some table_id) r = opt_eq r.table_id (some table_id)

abbrev pub is_listed : Option Text → Option ReservationStatus → Option ℕ → Reservation → Bool
is_listed phone status table_id r = phone_is phone r && (status_is status r && table_is table_id r)

-- `ORDER BY reservation_at ASC, id ASC`, on the stored texts.
abbrev pub by_time : Reservation → Reservation → Bool
by_time a b =
    if iso_le a.reservation_at b.reservation_at
    then not (iso_le b.reservation_at a.reservation_at) || leb a.id b.id
    else false

abbrev pub limited : Option ℕ → List Reservation → List Reservation
limited none rs = rs
limited (some limit) rs = take limit rs

unfoldable pub list_reservations :
    Db
    → (phone : Option Text) (status : Option ReservationStatus) (table_id limit : Option ℕ)
    → List ReservationOut
list_reservations db phone status table_id limit =
    map (attach_table db)
      (limited limit (order_by by_time (select (is_listed phone status table_id) db.reservations)))
