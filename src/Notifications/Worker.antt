-- ===== src/Notifications/Worker.antt =====
-- app/notifications/worker.py: one tick of the worker.
use reservac_ia.Base.{ℕ, ◌+◌, Option, none, some, List, [], ◌∷◌, Text, Bool, true, false}
use reservac_ia.Model.{Env, Notification, NotificationKind}
use reservac_ia.Monad.{ok, Action, pure, with_connection, ◌>>=◌, ◌>>◌}
use reservac_ia.Notifications.Queue.{pick_due, mark_sent, mark_failed_or_retry}

-- `notifier.send(phone=..., body=...)`: none where it returns, and `str(exc)` where it raises. The
-- provider is outside: it may answer otherwise at each reading of the clock.
abbrev pub Notifier : Type 0
Notifier = (reading : ℕ) (phone body : Text) → Option Text

abbrev pub send : Notifier → Text → Text → Action (Option Text)
send notifier phone body s = (ok (notifier s.reads phone body), s)

abbrev pub batch_limit : ℕ
batch_limit = 20

unfoldable pub only_kind_of : Bool → Option NotificationKind
only_kind_of true = some NotificationKind.custom
only_kind_of false = none

-- What follows a `send`; the answer is how many rows it counts as sent.
unfoldable pub settle : Env → Notification → Option Text → Action ℕ
settle env row none = do with_connection (mark_sent env row.id); pure 1
settle env row (some error) = do
  with_connection (mark_failed_or_retry env row.id error env.settings.notification_max_attempts)
  pure 0

unfoldable pub dispatch : Env → Notifier → List Notification → Action ℕ
unfolding settle
dispatch env notifier [] = pure 0
dispatch env notifier (row ∷ due) = do
  answer ← send notifier row.phone row.body
  sent ← settle env row answer
  rest ← dispatch env notifier due
  pure (sent + rest)

unfoldable pub process_batch : Env → Notifier → Action ℕ
unfolding dispatch only_kind_of
process_batch env notifier = do
  due ←
      with_connection (pick_due env batch_limit (only_kind_of env.settings.suppress_notifications))
  dispatch env notifier due
