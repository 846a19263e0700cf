-- ===== src/Crud/Reservations/Cancel.antt =====
-- `cancel_reservation` of app/crud.py.
use reservac_ia.Base.{ℕ, Option, none, some, ◌==◌, if◌then◌else◌, update_where}
use reservac_ia.Model.{Env, Db, Reservation, ReservationStatus, NotificationKind, is_confirmed}
use reservac_ia.Monad.{assertion_error, Action, pure, gets, modify, or_raise, now, ◌>>=◌, ◌>>◌}
use reservac_ia.Crud.Lookup.{ReservationOut, get_reservation}
use reservac_ia.Notifications.Queue.{cancel_pending_reminders_for}
use reservac_ia.Crud.Reservations.Enqueue.{enqueue_notification, now_local}

abbrev pub set_cancelled : ℕ → Reservation → Reservation
set_cancelled now_at r = record r { status = ReservationStatus.cancelled; updated_at = now_at }

abbrev pub cancel_row : ℕ → ℕ → Db → Db
cancel_row reservation_id now_at db = record db {
  reservations = update_where (λ r. r.id == reservation_id) (set_cancelled now_at) db.reservations;
}

unfoldable pub cancel_existing : Env → ℕ → Action ReservationOut
cancel_existing env reservation_id = do
  now_at ← now env
  modify (cancel_row reservation_id now_at)
  found ← gets (λ db. get_reservation db reservation_id)
  cancelled ← or_raise assertion_error found
  at ← now_local env
  enqueue_notification env cancelled NotificationKind.cancelled at
  cancel_pending_reminders_for env reservation_id
  pure cancelled

-- None where the reservation does not exist; one that is cancelled already is returned as it is.
unfoldable pub cancel_reservation : Env → ℕ → Action (Option ReservationOut)
cancel_reservation env reservation_id = do
  row ← gets (λ db. get_reservation db reservation_id)
  elim row [
    | none ↦ pure none
    | some existing ↦
        if is_confirmed existing.reservation.status
        then (do out ← cancel_existing env reservation_id; pure (some out))
        else pure (some existing)
  ]
