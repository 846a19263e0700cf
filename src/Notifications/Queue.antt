-- ===== src/Notifications/Queue.antt =====
-- app/notifications/queue.py: the notifications table as a durable queue.
mod Rows
unfoldable pub use Rows.*
use reservac_ia.Base.{
  ℕ, suc, ◌+◌, ◌*◌, not, ◌&&◌, Option, none, some, List, [], ◌∷◌, ◌++◌, leb, opt_eq, if◌then◌else◌,
  select, find, count_where, update_where, order_by, take, drop, Text,
}
use reservac_ia.Clock.{second, RawDateTime, ensure_aware, instant}
use reservac_ia.Model.{Env, Db, Notification, NotificationKind, NotificationStatus, kind_eq}
use reservac_ia.Monad.{integrity_error, Action, pure, raise_if, gets, modify, now, ◌>>=◌, ◌>>◌}

-- The INSERT of a pending row.
unfoldable pub insert_notification : Env → Option ℕ → NotificationKind → Text → ℕ → Text → Action ℕ
insert_notification env reservation_id kind phone scheduled_at body = do
  known ← gets (λ db. reference_exists db reservation_id)
  raise_if (not known) integrity_error
  now_at ← now env
  id ← gets (λ db. suc db.notification_seq)
  modify (λ db. record db {
    notifications =
        db.notifications
        ++ new_notification id reservation_id kind phone scheduled_at body now_at ∷ [];
    notification_seq = suc db.notification_seq;
  })
  pure id

-- The kill switch drops every kind but `custom`.
unfoldable pub enqueue :
    Env → Option ℕ → NotificationKind → Text → RawDateTime → Text → Action (Option ℕ)
unfolding insert_notification
enqueue env reservation_id kind phone scheduled_at body =
    if env.settings.suppress_notifications && not (kind_eq kind NotificationKind.custom)
    then pure none
    else do
      let at = instant (ensure_aware env.zone scheduled_at)
      id ← insert_notification env reservation_id kind phone at body
      pure (some id)

unfoldable pub cancel_pending_reminders_for : Env → ℕ → Action ℕ
cancel_pending_reminders_for env reservation_id = do
  now_at ← now env
  rowcount ← gets (λ db. count_where (is_pending_reminder_of reservation_id) db.notifications)
  modify (λ db. record db {
    notifications =
        update_where (is_pending_reminder_of reservation_id) (to_cancelled now_at) db.notifications;
  })
  pure rowcount

-- The UPDATE of the claimed rows and the SELECT of what they are now; with no row due, neither.
unfoldable pub claim : Env → List ℕ → Action (List Notification)
claim env [] = pure []
claim env (i ∷ rest) = do
  now_at ← now env
  modify (λ db. record db {
    notifications = update_where (id_in (i ∷ rest)) (to_in_flight now_at) db.notifications;
  })
  gets (λ db. select (id_in (i ∷ rest)) db.notifications)

-- `_now_utc_iso()` is read for the SELECT, and `datetime('now')` for the UPDATE.
unfoldable pub pick_due : Env → ℕ → Option NotificationKind → Action (List Notification)
unfolding due_ids claim
pick_due env limit only_kind = do
  now_iso ← now env
  due ← gets (λ db. due_ids now_iso only_kind limit db.notifications)
  claim env due

unfoldable pub mark_sent : Env → ℕ → Action (Unit {0})
mark_sent env notification_id = do
  now_at ← now env
  modify (λ db. record db {
    notifications = update_where (has_id notification_id) (to_sent now_at) db.notifications;
  })

unfoldable pub mark_failed : Env → ℕ → Text → Action (Unit {0})
mark_failed env notification_id error = do
  now_at ← now env
  modify (λ db. record db {
    notifications = update_where (has_id notification_id) (to_failed error now_at) db.notifications;
  })

unfoldable pub retry_later : Env → ℕ → Text → ℕ → Action (Unit {0})
unfolding backoff
retry_later env notification_id error attempts = do
  now_utc ← now env
  let next_at = now_utc + backoff attempts * second
  now_at ← now env
  modify (λ db. record db {
    notifications =
        update_where (has_id notification_id) (to_retry error next_at now_at) db.notifications;
  })

unfoldable pub mark_failed_or_retry : Env → ℕ → Text → (max_attempts : ℕ) → Action (Unit {0})
unfolding mark_failed retry_later
mark_failed_or_retry env notification_id error max_attempts = do
  row ← gets (λ db. find (has_id notification_id) db.notifications)
  elim row [
    | none ↦ pure tt
    | some n ↦
        if leb max_attempts n.attempts
        then mark_failed env notification_id error
        else retry_later env notification_id error n.attempts
  ]

unfoldable pub get_notification : Db → ℕ → Option Notification
get_notification db notification_id = find (has_id notification_id) db.notifications

unfoldable pub list_for_reservation : Db → ℕ → List Notification
list_for_reservation db reservation_id =
    order_by by_id (select (λ n. opt_eq n.reservation_id (some reservation_id)) db.notifications)

unfoldable pub list_notifications :
    Db
    → (phone : Option Text) (reservation_id : Option ℕ) (status : Option NotificationStatus)
    → (kind : Option NotificationKind) (limit offset : ℕ) → List Notification
list_notifications db phone reservation_id status kind limit offset = take limit (
    drop offset (
      order_by newest_first (
        select
          (λ n.
            filter_phone phone n
            && (filter_reservation reservation_id n
                && (filter_status status n && filter_kind kind n)))
          db.notifications)))
