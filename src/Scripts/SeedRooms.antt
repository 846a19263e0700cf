-- ===== src/Scripts/SeedRooms.antt =====
-- scripts/seed_rooms.py: the four rooms, and a room for every table that has none.
pub mod Rounds
pub mod Laws
use reservac_ia.Base.{
  ℕ, zero, suc, ◌+◌, ◌%◌, Bool, true, false, Option, none, some, List, [], ◌∷◌, ◌++◌, length, ltb,
  ◌==◌, if◌then◌else◌, update_where, Text, text_eq, codes,
}
use reservac_ia.Model.{Env, Db, Table, Room}
use reservac_ia.Model.Payloads.{RoomCreate}
use reservac_ia.Monad.{
  integrity_error, runtime_error, Action, pure, raise_if, gets, modify, or_raise, now, ◌>>=◌, ◌>>◌,
}
use reservac_ia.Crud.Lookup.{table_row}
use reservac_ia.Crud.Rooms.{room_name_taken, new_room, add_room}

-- `ROOMS`: names with descriptions.
abbrev pub room_rows : List (Text × Text)
room_rows =
    (codes "Bar", codes "Stools and high-tops along the bar")
    ∷ (codes "Booths", codes "Banquette seating along the wall")
    ∷ (codes "Dining Room 1", codes "Main dining room — varied table sizes, hosts private parties")
    ∷ (
      codes "Dining Room 2",
      codes "Secondary dining room — varied table sizes, hosts larger groups",
    )
    ∷ []

-- `_room_id_by_name(...)[name]`: in the dict the last row of a name counts; none is a missing key.
unfoldable pub room_id_by_name : List Room → Text → Option ℕ
room_id_by_name [] name = none
room_id_by_name (r ∷ rooms) name =
    let rest = room_id_by_name rooms name in
    elim rest [ some i ↦ some i | none ↦ if text_eq r.name name then some r.id else none ]

-- One INSERT of `executemany`, with its UNIQUE.
unfoldable pub insert_room : Env → Text × Text → Action (Unit {0})
insert_room env row = do
  taken ← gets (λ db. room_name_taken row.0 db.rooms)
  raise_if taken integrity_error
  now_at ← now env
  id ← gets (λ db. suc db.room_seq)
  modify (add_room (new_room id (record { name = row.0; description = some row.1 }) now_at))

unfoldable pub insert_rooms : Env → List (Text × Text) → Action (Unit {0})
unfolding insert_room
insert_rooms env [] = pure tt
insert_rooms env (row ∷ rows) = do insert_room env row; insert_rooms env rows

unfoldable pub ensure_rooms : Env → Action ℕ
ensure_rooms env = do
  existing ← gets (λ db. length db.rooms)
  if ltb 0 existing then pure 0 else (do insert_rooms env room_rows; pure (length room_rows))

-- The entries of `plan` for the ids of a range, in its order.
unfoldable pub range_plan : (first count : ℕ) → (ℕ → ℕ) → List (ℕ × ℕ)
range_plan first zero room_of = []
range_plan first (suc count) room_of = (first, room_of first) ∷ range_plan (suc first) count room_of

-- The dict `plan`, as the ids of tables and rooms in the order of insertion.
unfoldable pub plan : (bar booths dining_one dining_two : ℕ) → List (ℕ × ℕ)
unfolding range_plan
plan bar booths dining_one dining_two =
    let by_parity : ℕ → ℕ = λ tid. if tid % 2 == 1 then dining_one else dining_two in
    range_plan 1 10 (λ _. bar)
    ++ range_plan 11 12 (λ _. booths)
    ++ range_plan 23 10 by_parity
    ++ range_plan 33 10 by_parity
    ++ (43, dining_one)
      ∷ (45, dining_one)
      ∷ (47, dining_one)
      ∷ (44, dining_two)
      ∷ (46, dining_two)
      ∷ (48, dining_two)
      ∷ (49, dining_two)
      ∷ (50, dining_one)
      ∷ []

abbrev pub set_room : ℕ → Table → Table
set_room room_id t = record t { room_id = some room_id }

abbrev pub assign_room : (tid room_id : ℕ) → Db → Db
assign_room tid room_id db = record db {
  tables = update_where (λ t. t.id == tid) (set_room room_id) db.tables;
}

-- The rest of a round, with the row and its room: the counts of those assigned and skipped.
unfoldable pub settle_room : (tid room_id : ℕ) → Option ℕ → (assigned skipped : ℕ) → Action (ℕ × ℕ)
settle_room tid room_id none assigned skipped = do
  modify (assign_room tid room_id)
  pure (suc assigned, skipped)
settle_room tid room_id (some room) assigned skipped = pure (assigned, suc skipped)

unfoldable pub settle_table :
    (tid room_id : ℕ) → Option Table → (assigned skipped : ℕ) → Action (ℕ × ℕ)
unfolding settle_room
settle_table tid room_id none assigned skipped = pure (assigned, suc skipped)
settle_table tid room_id (some t) assigned skipped =
    settle_room tid room_id t.room_id assigned skipped

-- The loop over the plan.
unfoldable pub assign_rows : List (ℕ × ℕ) → (assigned skipped : ℕ) → Action (ℕ × ℕ)
unfolding settle_table
assign_rows [] assigned skipped = pure (assigned, skipped)
assign_rows ((tid, room_id) ∷ entries) assigned skipped = do
  row ← gets (λ db. table_row db tid)
  counts ← settle_table tid room_id row assigned skipped
  assign_rows entries counts.0 counts.1

unfoldable pub assign_tables : Action (ℕ × ℕ)
assign_tables = do
  rooms ← gets (λ db. db.rooms)
  bar ← or_raise runtime_error (room_id_by_name rooms (codes "Bar"))
  booths ← or_raise runtime_error (room_id_by_name rooms (codes "Booths"))
  dining_one ← or_raise runtime_error (room_id_by_name rooms (codes "Dining Room 1"))
  dining_two ← or_raise runtime_error (room_id_by_name rooms (codes "Dining Room 2"))
  assign_rows (plan bar booths dining_one dining_two) 0 0

-- What `main` does in its connection before it prints.
unfoldable pub seed_rooms : Env → Action (ℕ × ℕ × ℕ)
seed_rooms env = do
  inserted ← ensure_rooms env
  counts ← assign_tables
  pure (inserted, counts.0, counts.1)
