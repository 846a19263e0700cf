-- ===== src/Routers/Reservations.antt =====
-- app/routers/reservations.py.
use reservac_ia.Base.{ℕ, not, Option, none, some, List, Text, text_eq}
use reservac_ia.Model.{Env, ReservationStatus}
use reservac_ia.Model.Payloads.{ReservationCreate, ReservationUpdate}
use reservac_ia.Monad.{Action, http_error, pure, raise_if, with_connection, gets, ◌>>=◌, ◌>>◌}
use reservac_ia.Crud.Lookup.{ReservationOut, get_reservation}
use reservac_ia.Crud.Reservations.{
  list_reservations, get_reservation_by_code, create_reservation, update_reservation,
  cancel_reservation,
}
use reservac_ia.Routers.Status.{conflict_on_reservation, translate, or_404}

-- Five rows at most.
unfoldable pub list_all :
    Option Text → Option ReservationStatus → Option ℕ → Action (List ReservationOut)
list_all phone status table_id =
    with_connection (gets (λ db. list_reservations db phone status table_id (some 5)))

unfoldable pub get_by_code : Text → Action ReservationOut
get_by_code code = do
  row ← with_connection (gets (λ db. get_reservation_by_code db code))
  or_404 row

unfoldable pub get_one : ℕ → Action ReservationOut
get_one reservation_id = do
  row ← with_connection (gets (λ db. get_reservation db reservation_id))
  or_404 row

unfoldable pub create : Env → ReservationCreate → Action ReservationOut
create env body = translate conflict_on_reservation (with_connection (create_reservation env body))

-- `_enforce_verify_phone`
unfoldable pub enforce_verify_phone : ReservationOut → Option Text → Action (Unit {0})
enforce_verify_phone existing none = pure tt
enforce_verify_phone existing (some claimed) =
    raise_if (not (text_eq claimed existing.reservation.phone)) (http_error 403)

-- The body of the `with connection()` of `update`.
unfoldable pub checked_update : Env → ℕ → ReservationUpdate → Action (Option ReservationOut)
unfolding enforce_verify_phone
checked_update env reservation_id body = do
  row ← gets (λ db. get_reservation db reservation_id)
  existing ← or_404 row
  enforce_verify_phone existing body.verify_phone
  update_reservation env reservation_id body

unfoldable pub update : Env → ℕ → ReservationUpdate → Action ReservationOut
unfolding checked_update
update env reservation_id body = do
  updated ←
      translate conflict_on_reservation (with_connection (checked_update env reservation_id body))
  or_404 updated

-- The body of the `with connection()` of `cancel`; `claimed` is None where the request has no body.
unfoldable pub checked_cancel : Env → ℕ → (claimed : Option Text) → Action (Option ReservationOut)
unfolding enforce_verify_phone
checked_cancel env reservation_id claimed = do
  row ← gets (λ db. get_reservation db reservation_id)
  existing ← or_404 row
  enforce_verify_phone existing claimed
  cancel_reservation env reservation_id

unfoldable pub cancel : Env → ℕ → (claimed : Option Text) → Action ReservationOut
unfolding checked_cancel
cancel env reservation_id claimed = do
  row ← with_connection (checked_cancel env reservation_id claimed)
  or_404 row
