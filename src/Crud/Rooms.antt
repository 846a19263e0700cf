-- ===== src/Crud/Rooms.antt =====
-- Rooms in app/crud.py.
use reservac_ia.Base.{
  ℕ, suc, ltb, Bool, true, false, ◌||◌, Option, none, some, List, [], ◌∷◌, ◌++◌, leb, ◌==◌, opt_eq,
  if◌then◌else◌, any, count_where, update_where, delete_where, order_by, Text, text_eq,
}
use reservac_ia.Model.{Env, Db, Room, Table}
use reservac_ia.Model.Payloads.{RoomCreate, RoomUpdate, is_set, get_nullable, get_required}
use reservac_ia.Monad.{
  domain_error, room_name_exists, room_clash, room_in_use, Action, pure, raise_if, gets, modify,
  or_raise, now, ◌>>=◌, ◌>>◌,
}
use reservac_ia.Crud.Lookup.{room_row}

-- `ORDER BY id ASC`
abbrev pub room_le : Room → Room → Bool
room_le a b = leb a.id b.id

unfoldable pub list_rooms : Db → List Room
list_rooms db = order_by room_le db.rooms

-- `name TEXT NOT NULL UNIQUE`
abbrev pub room_name_taken : Text → List Room → Bool
room_name_taken name rooms = any (λ r. text_eq r.name name) rooms

abbrev pub new_room : ℕ → RoomCreate → ℕ → Room
new_room id body now_at = record {
  id = id;
  name = body.name;
  description = body.description;
  created_at = now_at;
  updated_at = now_at;
}

abbrev pub add_room : Room → Db → Db
add_room r db = record db { rooms = db.rooms ++ r ∷ []; room_seq = suc db.room_seq }

unfoldable pub create_room : Env → RoomCreate → Action (Option Room)
create_room env body = do
  taken ← gets (λ db. room_name_taken body.name db.rooms)
  raise_if taken (domain_error (room_name_exists body.name))
  now_at ← now env
  id ← gets (λ db. suc db.room_seq)
  modify (add_room (new_room id body now_at))
  gets (λ db. room_row db id)

abbrev pub changed_room : Room → RoomUpdate → Text → ℕ → Room
changed_room existing body name now_at = record existing {
  name = name;
  description = get_nullable body.description existing.description;
  updated_at = now_at;
}

abbrev pub other_rooms : ℕ → Db → List Room
other_rooms room_id db = delete_where (λ r. r.id == room_id) db.rooms

abbrev pub put_room : ℕ → Room → Db → Db
put_room room_id r db = record db { rooms = update_where (λ x. x.id == room_id) (λ _. r) db.rooms }

-- The UPDATE; a NULL name and a name of another room are IntegrityErrors, reported alike.
unfoldable pub write_room : Env → ℕ → RoomUpdate → Room → Action (Option Room)
write_room env room_id body existing = do
  name ← or_raise (domain_error room_clash) (get_required body.name existing.name)
  taken ← gets (λ db. room_name_taken name (other_rooms room_id db))
  raise_if taken (domain_error room_clash)
  now_at ← now env
  modify (put_room room_id (changed_room existing body name now_at))
  gets (λ db. room_row db room_id)

unfoldable pub update_room : Env → ℕ → RoomUpdate → Action (Option Room)
unfolding write_room
update_room env room_id body = do
  row ← gets (λ db. room_row db room_id)
  elim row [
    | none ↦ pure none
    | some existing ↦
        if is_set body.name || is_set body.description
        then write_room env room_id body existing
        else pure (some existing)
  ]

abbrev pub in_room : ℕ → Table → Bool
in_room room_id t = opt_eq t.room_id (some room_id)

abbrev pub remove_room : ℕ → Db → Db
remove_room room_id db = record db { rooms = delete_where (λ r. r.id == room_id) db.rooms }

unfoldable pub delete_room : ℕ → Action Bool
delete_room room_id = do
  row ← gets (λ db. room_row db room_id)
  in_use ← gets (λ db. count_where (in_room room_id) db.tables)
  elim row [
    | none ↦ pure false
    | some existing ↦ do
      raise_if (ltb 0 in_use) (domain_error (room_in_use existing.name in_use))
      modify (remove_room room_id)
      pure true
  ]
