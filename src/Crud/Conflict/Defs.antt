-- ===== src/Crud/Conflict/Defs.antt =====
-- Conflict detection, availability and the choice of a table (app/crud.py).
use mathlib.Core.Option
use reservac_ia.Base.{
  ℕ, ◌*◌, Bool, true, false, not, ◌&&◌, ◌||◌, Option, none, some, List, map, ltb, leb, ◌==◌, opt_eq,
  if◌then◌else◌, select, find, count_where, any, order_by,
}
use reservac_ia.Clock.{hour, DateTime, ZoneInfo, parse_ts, abs_difference}
use reservac_ia.Model.{Db, Table, Reservation, is_confirmed}
use reservac_ia.Monad.{
  Result, ok, err, reservation_error, type_error, table_missing, too_large, has_conflict, no_table,
}
use reservac_ia.Crud.Lookup.{TableOut, attach_room, get_table}

abbrev pub conflict_window : ℕ
conflict_window = 2 * hour

-- `table_id = ? AND status = 'confirmed'`
abbrev pub is_booking_of : ℕ → Reservation → Bool
is_booking_of table_id r = opt_eq r.table_id (some table_id) && is_confirmed r.status

-- The loop body of `table_has_conflict`: the excluded row is passed over.
abbrev pub is_near : ZoneInfo → DateTime → Option ℕ → Reservation → Bool
is_near zone at exclude r =
    not (opt_eq exclude (some r.id))
    && ltb (abs_difference (parse_ts zone r.reservation_at) at) conflict_window

unfoldable pub table_has_conflict : ZoneInfo → Db → ℕ → DateTime → Option ℕ → Bool
table_has_conflict zone db table_id at exclude =
    any (is_near zone at exclude) (select (is_booking_of table_id) db.reservations)

-- `capacity >= ?`; a comparison with NULL is not true.
abbrev pub seats : Option ℕ → Table → Bool
seats none t = false
seats (some party_size) t = leb party_size t.capacity

abbrev pub filter_seats : Option ℕ → Table → Bool
filter_seats none t = true
filter_seats (some party_size) t = leb party_size t.capacity

abbrev pub filter_room : Option ℕ → Table → Bool
filter_room none t = true
filter_room (some room_id) t = opt_eq t.room_id (some room_id)

-- `ORDER BY capacity ASC, id ASC`
abbrev pub by_capacity : Table → Table → Bool
by_capacity a b = ltb a.capacity b.capacity || a.capacity == b.capacity && leb a.id b.id

unfoldable pub find_all_available_tables :
    ZoneInfo → Db → DateTime → (party_size room_id : Option ℕ) → List TableOut
find_all_available_tables zone db at party_size room_id = map (attach_room db) (
    select (λ t. not (table_has_conflict zone db t.id at none))
      (order_by by_capacity
        (select (λ t. filter_seats party_size t && filter_room room_id t) db.tables)))

-- A row of the candidates' query, with its subselect.
pub record Candidate : Type 0 where
  pub table : Table
  pub load : ℕ

abbrev pub load_of : Db → ℕ → ℕ
load_of db table_id = count_where (is_booking_of table_id) db.reservations

abbrev pub to_candidate : Db → Table → Candidate
to_candidate db t = record { table = t; load = load_of db t.id }

-- `ORDER BY capacity ASC, load ASC, id ASC`
abbrev pub candidate_le : Candidate → Candidate → Bool
candidate_le a b =
    ltb a.table.capacity b.table.capacity
    || a.table.capacity == b.table.capacity
      && (ltb a.load b.load || a.load == b.load && leb a.table.id b.table.id)

unfoldable pub candidates : Db → Option ℕ → List Candidate
candidates db party_size =
    order_by candidate_le (map (to_candidate db) (select (seats party_size) db.tables))

unfoldable pub find_available_table :
    ZoneInfo → Db → (party_size : Option ℕ) → DateTime → (exclude : Option ℕ) → Option TableOut
find_available_table zone db party_size at exclude =
    Option.map (λ c. attach_room db c.table)
      (find (λ c. not (table_has_conflict zone db c.table.id at exclude))
        (candidates db party_size))

-- The checks of a requested table that exists. Comparing with a party of None is a TypeError.
unfoldable pub check_table :
    ZoneInfo → Db → ℕ → Table → (party_size : Option ℕ) → DateTime → (exclude : Option ℕ) → Result ℕ
check_table zone db table_id t none at exclude = err type_error
check_table zone db table_id t (some party_size) at exclude =
    if ltb t.capacity party_size
    then err (reservation_error (too_large t.table_number t.capacity party_size))
    else if table_has_conflict zone db table_id at exclude
    then err (reservation_error (has_conflict t.table_number))
    else ok table_id

-- `_resolve_table_for`
unfoldable pub resolve_table_for :
    ZoneInfo → Db → (requested party_size : Option ℕ) → DateTime → (exclude : Option ℕ) → Result ℕ
unfolding check_table
resolve_table_for zone db (some table_id) party_size at exclude = elim (get_table db table_id) [
  | none ↦ err (reservation_error (table_missing table_id))
  | some t ↦ check_table zone db table_id t.table party_size at exclude
]
resolve_table_for zone db none party_size at exclude =
    elim (find_available_table zone db party_size at exclude) [
      | none ↦ err (reservation_error (no_table party_size at))
      | some chosen ↦ ok chosen.table.id
    ]
