-- ===== src/Routers/Tables.antt =====
-- app/routers/tables.py.
use reservac_ia.Base.{ℕ, not, Option, none, some, List}
use reservac_ia.Clock.{RawDateTime, ensure_aware}
use reservac_ia.Model.{Env, ReservationStatus}
use reservac_ia.Model.Payloads.{TableCreate, TableUpdate}
use reservac_ia.Monad.{Action, http_error, with_connection, gets, raise_if, ◌>>=◌, ◌>>◌}
use reservac_ia.Crud.Lookup.{TableOut, ReservationOut, get_table}
use reservac_ia.Crud.Conflict.{find_all_available_tables}
use reservac_ia.Crud.Tables.{list_tables, create_table, update_table, delete_table}
use reservac_ia.Crud.Reservations.{list_reservations}
use reservac_ia.Routers.Status.{conflict_on_domain, translate, or_404}

unfoldable pub list_all : Option ℕ → Action (List TableOut)
list_all room_id = with_connection (gets (λ db. list_tables db room_id))

unfoldable pub create : Env → TableCreate → Action (Option TableOut)
create env body = translate conflict_on_domain (with_connection (create_table env body))

unfoldable pub list_available :
    Env → RawDateTime → (party_size room_id : Option ℕ) → Action (List TableOut)
list_available env at party_size room_id = with_connection (
    gets
      (λ db. find_all_available_tables env.zone db (ensure_aware env.zone at) party_size room_id))

unfoldable pub get_one : ℕ → Action TableOut
get_one table_id = do row ← with_connection (gets (λ db. get_table db table_id)); or_404 row

unfoldable pub update : Env → ℕ → TableUpdate → Action TableOut
update env table_id body = do
  updated ← translate conflict_on_domain (with_connection (update_table table_id body))
  or_404 updated

unfoldable pub delete : ℕ → Action (Unit {0})
delete table_id = do
  deleted ← translate conflict_on_domain (with_connection (delete_table table_id))
  raise_if (not deleted) (http_error 404)

unfoldable pub list_reservations_for_table :
    ℕ → Option ReservationStatus → Action (List ReservationOut)
list_reservations_for_table table_id status = with_connection (do
  row ← gets (λ db. get_table db table_id)
  or_404 row
  gets (λ db. list_reservations db none status (some table_id) none))
