-- ===== src/Tests/Runs.antt =====
-- The theorems on runs of the queue and of the reviews, after a few steps.
use reservac_ia.Base.{◌*◌, ◌≤◌, ◌≡◌, refl, Option, none, some, arith, codes, find}
use reservac_ia.Clock.{RawDateTime, day, ensure_aware}
use reservac_ia.Model.{Notification, NotificationKind}
use reservac_ia.Model.Payloads.{ReviewCreate}
use reservac_ia.Monad.{State}
use reservac_ia.Samples.{sample_env, empty_state, failing, message}
use reservac_ia.Notifications.Queue.{
  enqueue, insert_notification, pick_due, claim, due_ids, mark_failed_or_retry, mark_failed,
  retry_later, has_id,
}
use reservac_ia.Notifications.Worker.{process_batch, dispatch, settle, only_kind_of}
use reservac_ia.Notifications.Runs.{QueueRun, attempts_bounded}
use reservac_ia.Crud.Reviews.Sound.{IsSound}
use reservac_ia.Routers.Feedback.{ReviewRequest, Served, serve_review, Served-IsSound}

-- A message that is due, and a tick in which the provider refuses it.
abbrev with_message : State
with_message =
    (enqueue sample_env none NotificationKind.custom (codes "+34600")
      (RawDateTime.naive_at (10 * day)) (codes "Hola") empty_state).1

abbrev after_tick : State
after_tick = (process_batch sample_env failing with_message).1

after_tick-QueueRun : QueueRun sample_env after_tick
after_tick-QueueRun =
    QueueRun.ticked _ failing
      (QueueRun.enqueued _ none NotificationKind.custom _ _ _ (QueueRun.started _ refl))

abbrev notification_or : Notification → Option Notification → Notification
notification_or d none = d
notification_or d (some n) = n

abbrev tried : Notification
tried = notification_or (message 0) (find (has_id 1) after_tick.db.notifications)

tried_once : (find (has_id 1) after_tick.db.notifications ≡ some tried) × (tried.attempts ≡ 1)
unfolding enqueue insert_notification pick_due claim due_ids mark_failed_or_retry mark_failed
    retry_later process_batch dispatch settle only_kind_of ensure_aware
tried_once = (refl, refl)

attempts_bounded_example : tried.attempts ≤ 5
attempts_bounded_example =
    attempts_bounded sample_env after_tick 1 tried (omega arith) after_tick-QueueRun (tried_once.0)

abbrev sample_review : ReviewCreate
sample_review = record {
  reviewer_name = codes "Ana";
  reviewer_city = none;
  rating = 5;
  body = codes "Muy rico";
}

Served-IsSound_example :
    IsSound (serve_review sample_env (ReviewRequest.post_review sample_review) empty_state).db
Served-IsSound_example =
    Served-IsSound sample_env
      (serve_review sample_env (ReviewRequest.post_review sample_review) empty_state)
      (Served.served empty_state (ReviewRequest.post_review sample_review)
        (Served.started empty_state refl))
