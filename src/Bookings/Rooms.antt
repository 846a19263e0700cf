-- ===== src/Bookings/Rooms.antt =====
-- The operations on rooms of app/crud.py, and the tables and reservations.
use reservac_ia.Base.{ℕ, refl, ◌||◌, Option-cases, Bool-cases, inl, inr, ltb, count_where}
use reservac_ia.Model.{Env, Db, Room}
use reservac_ia.Model.Payloads.{RoomCreate, RoomUpdate, get_required, is_set}
use reservac_ia.Monad.{State}
use reservac_ia.Crud.Lookup.{room_row}
use reservac_ia.Crud.Rooms.{
  create_room, update_room, delete_room, write_room, room_name_taken, other_rooms, in_room,
}
use reservac_ia.Bookings.Frame.{IsStable}

module _ (env : Env) {P : Db → Type 0} (stable : IsStable P) where
  pub create_room-Stable :
      (body : RoomCreate) (s : State) → P s.db → P (create_room env body s).1.db
  unfolding create_room
  create_room-Stable body s p = elim (Bool-cases (room_name_taken body.name s.db.rooms)) [
    | inl e ↦ rw e p
    | inr e ↦ rw e (stable s.db _ (refl, refl, refl, refl) p)
  ]

  write_room-Stable :
      (i : ℕ) (body : RoomUpdate) (old : Room) (s : State)
      → P s.db
      → P (write_room env i body old s).1.db
  unfolding write_room
  write_room-Stable i body old s p = elim (Option-cases (get_required body.name old.name)) [
    | inl e ↦ rw e p
    | inr (name, e) ↦ elim (Bool-cases (room_name_taken name (other_rooms i s.db))) [
      | inl f ↦ rw (e, f) p
      | inr f ↦ rw (e, f) (stable s.db _ (refl, refl, refl, refl) p)
    ]
  ]

  pub update_room-Stable :
      (i : ℕ) (body : RoomUpdate) (s : State) → P s.db → P (update_room env i body s).1.db
  unfolding update_room
  update_room-Stable i body s p = elim (Option-cases (room_row s.db i)) [
    | inl e ↦ rw e p
    | inr (old, e) ↦ elim (Bool-cases (is_set body.name || is_set body.description)) [
      | inl b ↦ rw (e, b) (write_room-Stable i body old s p)
      | inr b ↦ rw (e, b) p
    ]
  ]

  pub delete_room-Stable : (i : ℕ) (s : State) → P s.db → P (delete_room i s).1.db
  unfolding delete_room
  delete_room-Stable i s p = elim (Option-cases (room_row s.db i)) [
    | inl e ↦ rw e p
    | inr (old, e) ↦ elim (Bool-cases (ltb 0 (count_where (in_room i) s.db.tables))) [
      | inl f ↦ rw (e, f) p
      | inr f ↦ rw (e, f) (stable s.db _ (refl, refl, refl, refl) p)
    ]
  ]
