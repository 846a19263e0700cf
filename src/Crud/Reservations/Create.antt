-- ===== src/Crud/Reservations/Create.antt =====
-- `create_reservation` of app/crud.py.
use reservac_ia.Base.{ℕ, suc, Bool, not, ◌&&◌, none, some, [], ◌∷◌, ◌++◌, ltb, is_some, Text}
use reservac_ia.Clock.{iso}
use reservac_ia.Model.{Env, Db, Reservation, ReservationStatus, NotificationKind}
use reservac_ia.Model.Payloads.{ReservationCreate}
use reservac_ia.Monad.{
  integrity_error, assertion_error, Action, pure, raise_if, gets, modify, or_raise, query, now,
  ◌>>=◌, ◌>>◌,
}
use reservac_ia.Crud.Lookup.{ReservationOut, table_row, get_reservation}
use reservac_ia.Crud.Conflict.{resolve_table_for}
use reservac_ia.Crud.Reservations.Enqueue.{
  code_taken, generate_unique_code, enqueue_notification, now_local, reminder_time_for,
}

abbrev pub new_reservation : ℕ → ReservationCreate → ℕ → Text → ℕ → Reservation
new_reservation id body table_id code now_at = record {
  id = id;
  phone = body.phone;
  customer_name = body.customer_name;
  party_size = body.party_size;
  reservation_at = iso body.reservation_at;
  notes = body.notes;
  status = ReservationStatus.confirmed;
  table_id = some table_id;
  confirmation_code = some code;
  created_at = now_at;
  updated_at = now_at;
}

-- `party_size > 0`, the reference to a table, and the unique index on codes.
abbrev pub reservation_constraints : Db → ℕ → ℕ → Text → Bool
reservation_constraints db party_size table_id code =
    ltb 0 party_size && (is_some (table_row db table_id) && not (code_taken db code))

abbrev pub add_reservation : Reservation → Db → Db
add_reservation r db = record db {
  reservations = db.reservations ++ r ∷ [];
  reservation_seq = suc db.reservation_seq;
}

unfoldable pub insert_reservation : Env → ReservationCreate → ℕ → Text → Action ℕ
insert_reservation env body table_id code = do
  admitted ← gets (λ db. reservation_constraints db body.party_size table_id code)
  raise_if (not admitted) integrity_error
  now_at ← now env
  id ← gets (λ db. suc db.reservation_seq)
  modify (add_reservation (new_reservation id body table_id code now_at))
  pure id

-- The two messages of a new reservation.
unfoldable pub announce_created : Env → ReservationOut → Action (Unit {0})
announce_created env row = do
  at ← now_local env
  enqueue_notification env row NotificationKind.created at
  remind_at ← reminder_time_for env row
  enqueue_notification env row NotificationKind.reminder remind_at

-- What follows once a table is chosen.
unfoldable pub book : Env → ReservationCreate → ℕ → Action ReservationOut
book env body table_id = do
  code ← generate_unique_code env
  id ← insert_reservation env body table_id code
  found ← gets (λ db. get_reservation db id)
  row ← or_raise assertion_error found
  announce_created env row
  pure row

unfoldable pub create_reservation : Env → ReservationCreate → Action ReservationOut
create_reservation env body = do
  table_id ← query (λ db.
      resolve_table_for env.zone db body.table_id (some body.party_size) body.reservation_at none)
  book env body table_id
