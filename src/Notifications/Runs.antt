-- ===== src/Notifications/Runs.antt =====
-- Runs of app/notifications/queue.py: what is enqueued and cancelled, the ticks of the worker, and
-- whatever else happens to the other tables in between.
use reservac_ia.Base.{
  ℕ, suc, ◌≤◌, ◌≡◌, refl, true, not, ◌&&◌, Option, some, All-imp, All-snoc, All-update_where_keep,
  Pairwise-snoc, Bool-cases, inl, inr, arith, Text, find, find-All, ◌≢◌,
}
use reservac_ia.Clock.{RawDateTime, instant, ensure_aware}
use reservac_ia.Model.{Env, Notification, NotificationKind, kind_eq, empty_db}
use reservac_ia.Monad.{State}
use reservac_ia.Notifications.Queue.{
  enqueue, insert_notification, reference_exists, cancel_pending_reminders_for,
  is_pending_reminder_of, to_cancelled, new_notification, has_id,
}
use reservac_ia.Notifications.Worker.{Notifier, process_batch}
use reservac_ia.Notifications.Attempts.{
  InBudget, within, process_batch-InBudget, keep_ids, keep_below,
}

pub data QueueRun (env : Env) : State → Type 0 where
  started : (s : State) → s.db ≡ empty_db → QueueRun env s
  enqueued :
      (s : State) (i : Option ℕ) (kind : NotificationKind) (phone : Text) (at : RawDateTime)
      (body : Text)
      → QueueRun env s
      → QueueRun env (enqueue env i kind phone at body s).1
  cancelled :
      (s : State) (i : ℕ) → QueueRun env s → QueueRun env (cancel_pending_reminders_for env i s).1
  ticked :
      (s : State) (notifier : Notifier)
      → QueueRun env s
      → QueueRun env (process_batch env notifier s).1
  elsewhere :
      (s t : State)
      → QueueRun env s
      → t.db.notifications ≡ s.db.notifications
      → t.db.notification_seq ≡ s.db.notification_seq
      → QueueRun env t

module _ (env : Env) where
  abbrev max_attempts : ℕ
  max_attempts = env.settings.notification_max_attempts

  enqueue-InBudget :
      (i : Option ℕ) (kind : NotificationKind) (phone : Text) (at : RawDateTime) (body : Text)
      (s : State)
      → 1 ≤ max_attempts
      → InBudget max_attempts s.db
      → InBudget max_attempts (enqueue env i kind phone at body s).1.db
  unfolding enqueue insert_notification
  enqueue-InBudget i kind phone at body s one b =
      elim (Bool-cases
        (env.settings.suppress_notifications && not (kind_eq kind NotificationKind.custom))) [
          | inl quiet ↦ rw quiet b
          | inr loud ↦ elim (Bool-cases (reference_exists s.db i)) [
            | inr missing ↦ rw (loud, missing) b
            | inl known ↦
                let n =
                  new_notification (suc s.db.notification_seq) i kind phone
                    (instant (ensure_aware env.zone at)) body (env.clock s.reads) in
                rw (loud, known)
                  (record {
                    distinct =
                        Pairwise-snoc (λ a b. a.id ≢ b.id) s.db.notifications n b.distinct
                          (All-imp _ _ (λ x h. omega arith) s.db.notifications b.below);
                    attempts =
                        All-snoc (λ x. within max_attempts x ≡ true) s.db.notifications n b.attempts
                          (ground arith);
                    below =
                        All-snoc (λ x. x.id ≤ suc s.db.notification_seq) s.db.notifications n
                          (All-imp _ _ (λ x h. omega arith) s.db.notifications b.below)
                          (omega arith);
                  })
          ]
        ]

  cancel_pending-InBudget :
      (i : ℕ) (s : State)
      → InBudget max_attempts s.db
      → InBudget max_attempts (cancel_pending_reminders_for env i s).1.db
  unfolding cancel_pending_reminders_for
  cancel_pending-InBudget i s b = record {
    distinct =
        keep_ids env (is_pending_reminder_of i) (to_cancelled (env.clock s.reads))
          s.db.notifications (λ n. refl) b.distinct;
    attempts =
        All-update_where_keep (λ n. within max_attempts n ≡ true) (is_pending_reminder_of i)
          (to_cancelled (env.clock s.reads)) s.db.notifications (λ n w. ground arith) b.attempts;
    below =
        keep_below env (is_pending_reminder_of i) (to_cancelled (env.clock s.reads))
          s.db.notification_seq s.db.notifications (λ n. refl) b.below;
  }

  pub QueueRun-InBudget :
      (s : State) → 1 ≤ max_attempts → QueueRun env s → InBudget max_attempts s.db
  QueueRun-InBudget _ one (started s e) = rw e (record { distinct = tt; attempts = tt; below = tt })
  QueueRun-InBudget _ one (enqueued s i kind phone at body run) =
      enqueue-InBudget i kind phone at body s one (QueueRun-InBudget s one run)
  QueueRun-InBudget _ one (cancelled s i run) =
      cancel_pending-InBudget i s (QueueRun-InBudget s one run)
  QueueRun-InBudget _ one (ticked s notifier run) =
      process_batch-InBudget env notifier s (QueueRun-InBudget s one run)
  QueueRun-InBudget _ one (elsewhere s t run rows seq) =
      let b = QueueRun-InBudget s one run in
      record {
        distinct = rw rows b.distinct;
        attempts = rw rows b.attempts;
        below = rw (rows, seq) b.below;
      }

  -- With notification_max_attempts at least 1, in every database that a run of enqueues,
  -- cancellations of reminders, ticks of the worker with any provider, and changes of other tables
  -- makes of the empty one, a row that is found by its id has been tried at most
  -- notification_max_attempts times.
  pub attempts_bounded :
      (s : State) (i : ℕ) (n : Notification)
      → 1 ≤ max_attempts
      → QueueRun env s
      → find (has_id i) s.db.notifications ≡ some n
      → n.attempts ≤ max_attempts
  attempts_bounded s i n one run e =
      let b = QueueRun-InBudget s one run in
      let w : within max_attempts n ≡ true =
        find-All (λ x. within max_attempts x ≡ true) (has_id i) s.db.notifications {x = n}
          b.attempts e in
      ground (arith, w)
