-- ===== src/Routers/Rooms.antt =====
-- app/routers/rooms.py.
use reservac_ia.Base.{ℕ, not, Option, some, List}
use reservac_ia.Model.{Env, Room}
use reservac_ia.Model.Payloads.{RoomCreate, RoomUpdate}
use reservac_ia.Monad.{Action, http_error, with_connection, gets, raise_if, ◌>>=◌, ◌>>◌}
use reservac_ia.Crud.Lookup.{TableOut, get_room}
use reservac_ia.Crud.Rooms.{list_rooms, create_room, update_room, delete_room}
use reservac_ia.Crud.Tables.{list_tables}
use reservac_ia.Routers.Status.{conflict_on_domain, translate, or_404}

unfoldable pub list_all : Action (List Room)
list_all = with_connection (gets list_rooms)

unfoldable pub create : Env → RoomCreate → Action (Option Room)
create env body = translate conflict_on_domain (with_connection (create_room env body))

unfoldable pub get_one : ℕ → Action Room
get_one room_id = do row ← with_connection (gets (λ db. get_room db room_id)); or_404 row

unfoldable pub update : Env → ℕ → RoomUpdate → Action Room
update env room_id body = do
  updated ← translate conflict_on_domain (with_connection (update_room env room_id body))
  or_404 updated

unfoldable pub delete : ℕ → Action (Unit {0})
delete room_id = do
  deleted ← translate conflict_on_domain (with_connection (delete_room room_id))
  raise_if (not deleted) (http_error 404)

unfoldable pub list_tables_in_room : ℕ → Action (List TableOut)
list_tables_in_room room_id = with_connection (do
  row ← gets (λ db. get_room db room_id)
  or_404 row
  gets (λ db. list_tables db (some room_id)))
