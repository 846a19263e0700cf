-- ===== src/Notifications/Tick.antt =====
-- What a tick of app/notifications/worker.py answers, and the delays between attempts.
use reservac_ia.Base.{
  ℕ, zero, suc, ◌+◌, ◌*◌, ◌^◌, min, ◌≤◌, ◌≡◌, refl, true, false, Option, none, some, List, [], ◌∷◌,
  length, map, Option-cases, Bool-cases, inl, inr, arith, leb, find, DistinctIds, Text,
}
use reservac_ia.Model.{Env, Notification}
use reservac_ia.Monad.{State, Result, ok, pure, with_connection, ◌>>=◌, ◌>>◌}
use reservac_ia.Notifications.Queue.{
  has_id, pick_due, mark_sent, mark_failed, retry_later, mark_failed_or_retry, backoff,
  to_in_flight,
}
use reservac_ia.Notifications.Claiming.{pick_due-claims}
use reservac_ia.Notifications.Worker.{
  Notifier, settle, dispatch, process_batch, only_kind_of, batch_limit,
}

power_pos : (n : ℕ) → 1 ≤ 2 ^ n
power_pos zero = omega arith
power_pos (suc n) = omega (arith, power_pos n)

min_cases : (a b : ℕ) → leb a b ≡ true → min a b ≡ a
min_cases a b h = ground arith

min_cases_other : (a b : ℕ) → leb a b ≡ false → min a b ≡ b
min_cases_other a b h = ground arith

-- The delay before another attempt is at least a minute and at most an hour.
backoff_bounds : (attempts : ℕ) → (60 ≤ backoff attempts) × (backoff attempts ≤ 3600)
unfolding backoff
backoff_bounds attempts = let p = power_pos attempts in ground arith

pub backoff_doubles : (attempts : ℕ) → backoff (suc attempts) ≡ min (2 * backoff attempts) 3600
unfolding backoff
backoff_doubles attempts = ground arith

module _ (env : Env) where
  mark_failed_or_retry-ok :
      (i : ℕ) (error : Text) (max_attempts : ℕ) (s : State)
      → (mark_failed_or_retry env i error max_attempts s).0 ≡ ok tt
  unfolding mark_failed_or_retry mark_failed retry_later
  mark_failed_or_retry-ok i error max_attempts s =
      elim (Option-cases (find (has_id i) s.db.notifications)) [
        | inl e ↦ rw e refl
        | inr (n, e) ↦ elim (Bool-cases (leb max_attempts n.attempts)) [
          | inl f ↦ rw (e, f) refl
          | inr f ↦ rw (e, f) refl
        ]
      ]

  connected :
      {r : Result (Unit {0})} (sent : ℕ) (s s' : State)
      → r ≡ ok tt
      → ((with_connection (λ _. (r, s')) >> pure sent) s).0 ≡ ok sent
  connected sent s s' e = rw e refl

  settle-ok :
      (row : Notification) (answer : Option Text) (s : State)
      → (sent : ℕ) × ((settle env row answer s).0 ≡ ok sent) × (sent ≤ 1)
  unfolding settle mark_sent
  settle-ok row none s = (1, refl, omega arith)
  settle-ok row (some error) s =
      let max_attempts = env.settings.notification_max_attempts in
      (
        0,
        connected 0 s (mark_failed_or_retry env row.id error max_attempts s).1
            (mark_failed_or_retry-ok row.id error max_attempts s),
        omega arith,
      )

  module _ (notifier : Notifier) where
    dispatch-ok :
        (due : List Notification) (s : State)
        → (sent : ℕ) × ((dispatch env notifier due s).0 ≡ ok sent) × (sent ≤ length due)
    unfolding dispatch
    dispatch-ok [] s = (0, refl, omega arith)
    dispatch-ok (row ∷ due) s =
        let (k, e, b) = settle-ok row (notifier s.reads row.phone row.body) s in
        let (n, f, c) =
          dispatch-ok due (settle env row (notifier s.reads row.phone row.body) s).1 in
        (k + n, rw (e, f) refl, omega arith)

    length-map :
        (f : Notification → Notification) (rows : List Notification)
        → length (map f rows) ≡ length rows
    length-map f [] = refl
    length-map f (n ∷ rows) = omega (arith, length-map f rows)

    after_pick :
        (claimed : List Notification) (t : ℕ) (r : Result (List Notification)) (s s' : State)
        → r ≡ ok (map (to_in_flight t) claimed)
        → length claimed ≤ batch_limit
        → (sent : ℕ) × (((with_connection (λ _. (r, s')) >>= dispatch env notifier) s).0 ≡ ok sent)
          × (sent ≤ batch_limit)
    after_pick claimed t r s s' e h =
        let (n, f, c) = dispatch-ok (map (to_in_flight t) claimed) s' in
        (n, rw e f, omega (arith, c, h, length-map (to_in_flight t) claimed))

    -- With distinct ids in the queue, a tick of the worker returns, without an exception, whatever
    -- the provider raises, and counts at most twenty rows as sent.
    pub process_batch-ok :
        (s : State)
        → DistinctIds (λ n. n.id) s.db.notifications
        → (sent : ℕ) × ((process_batch env notifier s).0 ≡ ok sent) × (sent ≤ batch_limit)
    unfolding process_batch
    process_batch-ok s d =
        let kind = only_kind_of env.settings.suppress_notifications in
        let (claimed, e, due, h) = pick_due-claims env batch_limit kind s d in
        after_pick claimed (env.clock (suc s.reads)) (pick_due env batch_limit kind s).0 s
          (pick_due env batch_limit kind s).1 e h
