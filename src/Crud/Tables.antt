-- ===== src/Crud/Tables.antt =====
-- Tables in app/crud.py.
use reservac_ia.Base.{
  ℕ, suc, ltb, Bool, true, false, not, ◌&&◌, ◌||◌, Option, none, some, List, [], ◌∷◌, ◌++◌, map,
  leb, ◌==◌, opt_eq, is_some, if◌then◌else◌, select, any, count_where, update_where, delete_where,
  order_by, Text, text_eq,
}
use reservac_ia.Model.{Env, Db, Table, Reservation}
use reservac_ia.Model.Payloads.{Field, TableCreate, TableUpdate, is_set, get_nullable, get_required}
use reservac_ia.Monad.{
  domain_error, room_missing, table_number_exists, table_clash, table_in_use, shrink_refused,
  type_error, Result, ok, err, Action, pure, raise_if, gets, query, modify, or_raise, now, ◌>>=◌,
  ◌>>◌,
}
use reservac_ia.Crud.Lookup.{TableOut, room_row, table_row, attach_room, get_table}
use reservac_ia.Crud.Conflict.{by_capacity, filter_room, is_booking_of}

-- `ORDER BY capacity ASC, id ASC`, with and without the room filter.
unfoldable pub list_tables : Db → (room_id : Option ℕ) → List TableOut
list_tables db room_id =
    map (attach_room db) (order_by by_capacity (select (filter_room room_id) db.tables))

abbrev pub room_exists : Db → Option ℕ → Bool
room_exists db none = true
room_exists db (some room_id) = is_some (room_row db room_id)

abbrev pub id_or_zero : Option ℕ → ℕ
id_or_zero none = 0
id_or_zero (some n) = n

abbrev pub table_number_taken : Text → List Table → Bool
table_number_taken n tables = any (λ t. text_eq t.table_number n) tables

-- `CHECK (capacity BETWEEN 2 AND 12)`
abbrev pub capacity_allowed : ℕ → Bool
capacity_allowed c = leb 2 c && leb c 12

abbrev pub new_table : ℕ → TableCreate → ℕ → Table
new_table id body now_at = record {
  id = id;
  table_number = body.table_number;
  capacity = body.capacity;
  room_id = body.room_id;
  created_at = now_at;
}

abbrev pub add_table : Table → Db → Db
add_table t db = record db { tables = db.tables ++ t ∷ []; table_seq = suc db.table_seq }

unfoldable pub create_table : Env → TableCreate → Action (Option TableOut)
create_table env body = do
  known ← gets (λ db. room_exists db body.room_id)
  raise_if (not known) (domain_error (room_missing (id_or_zero body.room_id)))
  taken ← gets (λ db. table_number_taken body.table_number db.tables)
  raise_if (taken || not (capacity_allowed body.capacity))
      (domain_error (table_number_exists body.table_number))
  now_at ← now env
  id ← gets (λ db. suc db.table_seq)
  modify (add_table (new_table id body now_at))
  gets (λ db. get_table db id)

-- Confirmed reservations of the table with more guests than `capacity`.
abbrev pub oversized : ℕ → ℕ → Reservation → Bool
oversized table_id capacity r = is_booking_of table_id r && ltb capacity r.party_size

-- The guard against shrinking; `None < int` is a TypeError.
unfoldable pub check_capacity : Db → ℕ → Table → Field ℕ → Result (Unit {0})
check_capacity db table_id existing Field.unset = ok tt
check_capacity db table_id existing Field.null = err type_error
check_capacity db table_id existing (Field.value capacity) =
    let stranded = count_where (oversized table_id capacity) db.reservations in
    if ltb capacity existing.capacity && ltb 0 stranded
    then err (domain_error (shrink_refused capacity stranded))
    else ok tt

unfoldable pub check_room : Db → Field ℕ → Result (Unit {0})
check_room db (Field.value room_id) =
    if is_some (room_row db room_id) then ok tt else err (domain_error (room_missing room_id))
check_room db _ = ok tt

abbrev pub changed_table : Table → TableUpdate → Text → ℕ → Table
changed_table existing body table_number capacity = record existing {
  table_number = table_number;
  capacity = capacity;
  room_id = get_nullable body.room_id existing.room_id;
}

abbrev pub other_tables : ℕ → Db → List Table
other_tables table_id db = delete_where (λ t. t.id == table_id) db.tables

abbrev pub put_table : ℕ → Table → Db → Db
put_table table_id t db = record db {
  tables = update_where (λ x. x.id == table_id) (λ _. t) db.tables;
}

-- The UPDATE; every IntegrityError is reported as a clash of numbers.
unfoldable pub write_table : ℕ → TableUpdate → Table → Action (Option TableOut)
write_table table_id body existing = do
  table_number ←
      or_raise (domain_error table_clash) (get_required body.table_number existing.table_number)
  capacity ← or_raise (domain_error table_clash) (get_required body.capacity existing.capacity)
  taken ← gets (λ db. table_number_taken table_number (other_tables table_id db))
  raise_if (taken || not (capacity_allowed capacity)) (domain_error table_clash)
  modify (put_table table_id (changed_table existing body table_number capacity))
  gets (λ db. get_table db table_id)

unfoldable pub change_table : ℕ → TableUpdate → Table → Action (Option TableOut)
unfolding write_table check_capacity check_room
change_table table_id body existing = do
  query (λ db. check_capacity db table_id existing body.capacity)
  query (λ db. check_room db body.room_id)
  write_table table_id body existing

unfoldable pub update_table : ℕ → TableUpdate → Action (Option TableOut)
unfolding change_table
update_table table_id body = do
  row ← gets (λ db. get_table db table_id)
  elim row [
    | none ↦ pure none
    | some existing ↦
        if is_set body.table_number || (is_set body.capacity || is_set body.room_id)
        then change_table table_id body existing.table
        else pure (some existing)
  ]

abbrev pub at_table : ℕ → Reservation → Bool
at_table table_id r = opt_eq r.table_id (some table_id)

abbrev pub remove_table : ℕ → Db → Db
remove_table table_id db = record db { tables = delete_where (λ t. t.id == table_id) db.tables }

unfoldable pub delete_table : ℕ → Action Bool
delete_table table_id = do
  row ← gets (λ db. table_row db table_id)
  in_use ← gets (λ db. count_where (at_table table_id) db.reservations)
  elim row [
    | none ↦ pure false
    | some existing ↦ do
      raise_if (ltb 0 in_use) (domain_error (table_in_use existing.table_number in_use))
      modify (remove_table table_id)
      pure true
  ]
