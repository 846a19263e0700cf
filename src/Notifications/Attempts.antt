-- ===== src/Notifications/Attempts.antt =====
-- The attempts of the rows of the queue under a tick of app/notifications/worker.py.
use reservac_ia.Base.{
  ◌≤◌, ℕ, suc, ◌+◌, ◌<◌, ◌≡◌, ◌≢◌, refl, Bool, true, not, ◌&&◌, ◌||◌, Option, none, some, List, [],
  ◌∷◌, ==_iff, find, update_where, All, All-imp, All-update_where, All-update_where_keep,
  Option-cases, Bool-cases, inl, inr, arith, ltb, leb, Pairwise-update_where, DistinctIds, Text,
  find_self, subst,
}
use reservac_ia.Model.{Env, Db, Notification, NotificationKind}
use reservac_ia.Monad.{State}
use reservac_ia.Monad.Leads.{Leads, bind-Preserves, with_connection-Leads, pure-Leads}
use reservac_ia.Notifications.Queue.{
  is_due, is_pending, due_ids, id_in, claim, pick_due, to_in_flight, has_id, to_sent, to_failed,
  to_retry, mark_sent, mark_failed, retry_later, mark_failed_or_retry,
}
use reservac_ia.Notifications.Claiming.{due_ids-due}
use reservac_ia.Notifications.Worker.{
  Notifier, send, settle, dispatch, process_batch, only_kind_of, batch_limit,
}

-- A pending row has an attempt left.
abbrev pub within : ℕ → Notification → Bool
within max_attempts n =
    leb n.attempts max_attempts && (not (is_pending n) || ltb n.attempts max_attempts)

pub record InBudget (max_attempts : ℕ) (db : Db) : Type 0 where
  pub distinct : DistinctIds (λ n. n.id) db.notifications
  pub attempts : All (λ n. within max_attempts n ≡ true) db.notifications
  pub below : All (λ n. n.id ≤ db.notification_seq) db.notifications

module _ (env : Env) where
  abbrev max_attempts : ℕ
  max_attempts = env.settings.notification_max_attempts

  abbrev Budget : Db → Type 0
  Budget = InBudget max_attempts

  -- An UPDATE that keeps the ids.
  pub keep_ids :
      (p : Notification → Bool) (f : Notification → Notification) (rows : List Notification)
      → ((n : Notification) → (f n).id ≡ n.id)
      → DistinctIds (λ n. n.id) rows
      → DistinctIds (λ n. n.id) (update_where p f rows)
  keep_ids p f rows same d =
      Pairwise-update_where (λ a b. a.id ≢ b.id) p f (λ x y n. rw (same x) n)
        (λ x y n. rw (same y) n) rows d

  pub keep_below :
      (p : Notification → Bool) (f : Notification → Notification) (seq : ℕ)
      (rows : List Notification)
      → ((n : Notification) → (f n).id ≡ n.id)
      → All (λ n. n.id ≤ seq) rows
      → All (λ n. n.id ≤ seq) (update_where p f rows)
  keep_below p f seq rows same h =
      All-update_where_keep (λ n. n.id ≤ seq) p f rows (λ n k. rw (same n) k) h

  claim-InBudget :
      (now_at limit : ℕ) (kind : Option NotificationKind) (s : State)
      → Budget s.db
      → Budget (claim env (due_ids now_at kind limit s.db.notifications) s).1.db
  unfolding claim
  claim-InBudget now_at limit kind s b =
      go (due_ids now_at kind limit s.db.notifications)
        (due_ids-due now_at kind limit s.db.notifications b.distinct)
    where
      go :
          (claimed : List ℕ)
          → All (λ n. id_in claimed n ≡ true → is_due now_at kind n ≡ true) s.db.notifications
          → Budget (claim env claimed s).1.db
      go [] h = b
      go (i ∷ rest) h = record {
        distinct =
            keep_ids (id_in (i ∷ rest)) (to_in_flight (env.clock s.reads)) s.db.notifications
              (λ n. refl) b.distinct;
        attempts =
            All-update_where (λ n. within max_attempts n ≡ true) (id_in (i ∷ rest))
              (to_in_flight (env.clock s.reads)) s.db.notifications
              (started s.db.notifications h b.attempts) b.attempts;
        below =
            keep_below (id_in (i ∷ rest)) (to_in_flight (env.clock s.reads)) s.db.notification_seq
              s.db.notifications (λ n. refl) b.below;
      }
        where
          started :
              (rows : List Notification)
              → All (λ n. id_in (i ∷ rest) n ≡ true → is_due now_at kind n ≡ true) rows
              → All (λ n. within max_attempts n ≡ true) rows
              → All
                  (λ n.
                    id_in (i ∷ rest) n ≡ true
                    → within max_attempts (to_in_flight (env.clock s.reads) n) ≡ true)
                  rows
          started [] d w = tt
          started (n ∷ rows) d w = ((λ t. let due = d.0 t in ground (arith)), started rows d.1 w.1)

  pick_due-Leads :
      (limit : ℕ) (kind : Option NotificationKind) → Leads Budget Budget (pick_due env limit kind)
  unfolding pick_due
  pick_due-Leads limit kind = record {
    run = λ s b. claim-InBudget (env.clock s.reads) limit kind (record s { reads = suc s.reads }) b;
  }

  mark_sent-Leads : (i : ℕ) → Leads Budget Budget (mark_sent env i)
  unfolding mark_sent
  mark_sent-Leads i = record {
    run = λ s b. record {
      distinct =
          keep_ids (has_id i) (to_sent (env.clock s.reads)) s.db.notifications (λ n. refl)
            b.distinct;
      attempts =
          All-update_where_keep (λ n. within max_attempts n ≡ true) (has_id i)
            (to_sent (env.clock s.reads)) s.db.notifications (λ n w. ground arith) b.attempts;
      below =
          keep_below (has_id i) (to_sent (env.clock s.reads)) s.db.notification_seq
            s.db.notifications (λ n. refl) b.below;
    };
  }

  mark_failed-Leads : (i : ℕ) (error : Text) → Leads Budget Budget (mark_failed env i error)
  unfolding mark_failed
  mark_failed-Leads i error = record {
    run = λ s b. record {
      distinct =
          keep_ids (has_id i) (to_failed error (env.clock s.reads)) s.db.notifications (λ n. refl)
            b.distinct;
      attempts =
          All-update_where_keep (λ n. within max_attempts n ≡ true) (has_id i)
            (to_failed error (env.clock s.reads)) s.db.notifications (λ n w. ground arith)
            b.attempts;
      below =
          keep_below (has_id i) (to_failed error (env.clock s.reads)) s.db.notification_seq
            s.db.notifications (λ n. refl) b.below;
    };
  }

  -- With distinct ids, the rows of an id are the one that the lookup finds.
  the_row :
      (i : ℕ) (n : Notification) (rows : List Notification)
      → DistinctIds (λ x. x.id) rows
      → find (has_id i) rows ≡ some n
      → All (λ y. has_id i y ≡ true → y ≡ n) rows
  the_row i n rows d e =
      All-imp _ _
        (λ y own t.
          let same : y.id ≡ i = (==_iff _ _).0 t in
          let again : find (has_id i) rows ≡ some y =
            subst (λ j. find (has_id j) rows ≡ some y) same own in
          cc)
        rows (find_self (λ x. x.id) rows d)

  retry_later-InBudget :
      (i : ℕ) (error : Text) (n : Notification) (s : State)
      → Budget s.db
      → find (has_id i) s.db.notifications ≡ some n
      → n.attempts < max_attempts
      → Budget (retry_later env i error n.attempts s).1.db
  unfolding retry_later
  retry_later-InBudget i error n s b e left = record {
    distinct = keep_ids (has_id i) _ s.db.notifications (λ x. refl) b.distinct;
    attempts =
        All-update_where (λ x. within max_attempts x ≡ true) (has_id i) _ s.db.notifications
          (All-imp _ _ (λ y h t. retried y (h t) 0 0) s.db.notifications
            (the_row i n s.db.notifications b.distinct e))
          b.attempts;
    below = keep_below (has_id i) _ s.db.notification_seq s.db.notifications (λ x. refl) b.below;
  }
    where
      retried :
          (y : Notification)
          → y ≡ n
          → (next_at now_at : ℕ) → within max_attempts (to_retry error next_at now_at y) ≡ true
      retried y same next_at now_at =
          let same_attempts : y.attempts ≡ n.attempts = cc in ground (arith)

  mark_failed_or_retry-InBudget :
      (i : ℕ) (error : Text) (s : State)
      → Budget s.db
      → Budget (mark_failed_or_retry env i error max_attempts s).1.db
  unfolding mark_failed_or_retry
  mark_failed_or_retry-InBudget i error s b =
      elim (Option-cases (find (has_id i) s.db.notifications)) [
        | inl e ↦ rw e b
        | inr (n, e) ↦ elim (Bool-cases (leb max_attempts n.attempts)) [
          | inl f ↦ rw (e, f) ((mark_failed-Leads i error).run s b)
          | inr f ↦ rw (e, f) (retry_later-InBudget i error n s b e (ground arith))
        ]
      ]

  settle-Leads :
      (row : Notification) (answer : Option Text) → Leads Budget Budget (settle env row answer)
  unfolding settle
  settle-Leads row none =
      bind-Preserves _ _ (with_connection-Leads (mark_sent env row.id) (mark_sent-Leads row.id))
        (λ _. pure-Leads 1)
  settle-Leads row (some error) =
      bind-Preserves _ _
        (with_connection-Leads (mark_failed_or_retry env row.id error max_attempts)
          (record { run = mark_failed_or_retry-InBudget row.id error }))
        (λ _. pure-Leads 0)

  module _ (notifier : Notifier) where
    dispatch-Leads : (due : List Notification) → Leads Budget Budget (dispatch env notifier due)
    unfolding dispatch
    dispatch-Leads [] = pure-Leads 0
    dispatch-Leads (row ∷ due) =
        bind-Preserves (send notifier row.phone row.body) _ (record { run = λ s b. b })
          λ answer.
            bind-Preserves _ _ (settle-Leads row answer)
              λ sent. bind-Preserves _ _ (dispatch-Leads due) (λ rest. pure-Leads (sent + rest))

    -- A tick of the worker, whatever the provider answers, keeps the ids of the queue distinct and
    -- not above the counter, the attempts of every row within notification_max_attempts and those
    -- of every pending row below it.
    pub process_batch-InBudget :
        (s : State) → Budget s.db → Budget (process_batch env notifier s).1.db
    unfolding process_batch
    process_batch-InBudget s b =
        (bind-Preserves _ _
            (with_connection-Leads
              (pick_due env batch_limit (only_kind_of env.settings.suppress_notifications))
              (pick_due-Leads batch_limit (only_kind_of env.settings.suppress_notifications)))
            dispatch-Leads).run
          s b
