-- ===== src/Routers/Notifications.antt =====
-- app/routers/notifications.py.
use reservac_ia.Base.{ℕ, Option, none, some, List, Text}
use reservac_ia.Clock.{RawDateTime, ensure_aware, at_zone}
use reservac_ia.Model.{Env, Notification, NotificationKind, NotificationStatus}
use reservac_ia.Model.Payloads.{NotificationCreate}
use reservac_ia.Monad.{
  Action, assertion_error, pure, with_connection, gets, now, or_raise, ◌>>=◌, ◌>>◌,
}
use reservac_ia.Crud.Lookup.{get_reservation}
use reservac_ia.Notifications.Queue.{enqueue, get_notification, list_notifications}
use reservac_ia.Routers.Status.{or_404}

-- The first connection: the reservation, if one is named, exists.
unfoldable pub check_reservation : Option ℕ → Action (Unit {0})
check_reservation none = pure tt
check_reservation (some reservation_id) =
    with_connection (do row ← gets (λ db. get_reservation db reservation_id); or_404 row; pure tt)

-- A missing `scheduled_at` is now, and a naive one is local.
unfoldable pub send_at : Env → Option RawDateTime → Action RawDateTime
send_at env none = do u ← now env; pure (RawDateTime.aware_at (at_zone env.zone u))
send_at env (some at) = pure (RawDateTime.aware_at (ensure_aware env.zone at))

unfoldable pub create : Env → NotificationCreate → Action Notification
unfolding check_reservation send_at
create env body = do
  check_reservation body.reservation_id
  at ← send_at env body.scheduled_at
  row ← with_connection (do
    new_id ← enqueue env body.reservation_id NotificationKind.custom body.phone at body.body
    id ← or_raise assertion_error new_id
    gets (λ db. get_notification db id))
  or_raise assertion_error row

unfoldable pub list_all :
    (phone : Option Text) (reservation_id : Option ℕ) (status : Option NotificationStatus)
    → (kind : Option NotificationKind) (limit offset : ℕ) → Action (List Notification)
list_all phone reservation_id status kind limit offset =
    with_connection
      (gets (λ db. list_notifications db phone reservation_id status kind limit offset))

unfoldable pub get_one : ℕ → Action Notification
get_one notification_id = do
  row ← with_connection (gets (λ db. get_notification db notification_id))
  or_404 row
