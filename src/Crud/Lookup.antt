-- ===== src/Crud/Lookup.antt =====
-- The lookups by id of app/crud.py, and the nesting of a room in a table and of a table in a
-- reservation.
use mathlib.Core.Option
use reservac_ia.Base.{ℕ, suc, ◌≡◌, Option, none, some, ◌==◌, find}
use reservac_ia.Model.{Db, Room, Table, Reservation}

-- A table's dict with its nested "room".
pub record TableOut : Type 0 where
  pub table : Table
  pub room : Option Room

-- A reservation's dict with its nested "table".
pub record ReservationOut : Type 0 where
  pub reservation : Reservation
  pub table : Option TableOut

abbrev pub room_row : Db → ℕ → Option Room
room_row db room_id = find (λ r. r.id == room_id) db.rooms

abbrev pub table_row : Db → ℕ → Option Table
table_row db table_id = find (λ t. t.id == table_id) db.tables

abbrev pub reservation_row : Db → ℕ → Option Reservation
reservation_row db reservation_id = find (λ r. r.id == reservation_id) db.reservations

pub get_room : Db → ℕ → Option Room
get_room db room_id = room_row db room_id

-- The key where it is truthy: neither None nor 0.
abbrev pub truthy : Option ℕ → Option ℕ
truthy (some (suc n)) = some (suc n)
truthy _ = none

unfoldable pub attach_room : Db → Table → TableOut
unfolding get_room Option.bind
attach_room db t = record { table = t; room = Option.bind (truthy t.room_id) (get_room db) }

unfoldable pub get_table : Db → ℕ → Option TableOut
unfolding attach_room
get_table db table_id = Option.map (attach_room db) (table_row db table_id)

unfoldable pub attach_table : Db → Reservation → ReservationOut
unfolding get_table Option.bind
attach_table db r = record {
  reservation = r;
  table = Option.bind (truthy r.table_id) (get_table db);
}

unfoldable pub get_reservation : Db → ℕ → Option ReservationOut
unfolding attach_table
get_reservation db reservation_id = Option.map (attach_table db) (reservation_row db reservation_id)

pub get_reservation-found :
    (db : Db) (i : ℕ) (r : Reservation)
    → reservation_row db i ≡ some r
    → get_reservation db i ≡ some (attach_table db r)
unfolding get_reservation attach_table
get_reservation-found db i r e = rw e
