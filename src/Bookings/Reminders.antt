-- ===== src/Bookings/Reminders.antt =====
-- The reminders of a reservation that `cancel_reservation` of app/crud.py cancels.
use reservac_ia.Base.{
  ℕ, ◌≡◌, refl, true, false, Option, some, All, All-update_where_cases, arith, subst, sym,
}
use reservac_ia.Model.{Env, Db, Reservation, NotificationKind, is_confirmed}
use reservac_ia.Monad.{
  State, Result, Action, ok, err, assertion_error, gets, modify, or_raise, now, pure, ◌>>=◌, ◌>>◌,
  and_then,
}
use reservac_ia.Crud.Lookup.{
  ReservationOut, get_reservation, reservation_row, attach_table, get_reservation-found,
}
use reservac_ia.Crud.Reservations.{
  cancel_reservation, cancel_existing, enqueue_notification, now_local, cancel_row,
}
use reservac_ia.Notifications.Queue.{
  cancel_pending_reminders_for, is_pending_reminder_of, to_cancelled,
}

abbrev pub NoReminder : ℕ → Db → Type 0
NoReminder i db = All (λ n. is_pending_reminder_of i n ≡ false) db.notifications

-- Where a method succeeds, its database has `P`.
record Ends {A : Type 0} (P : Db → Type 0) (m : Action A) : Type 0 where
  run : (s : State) (a : A) → (m s).0 ≡ ok a → P (m s).1.db

and_then-Ends :
    {A B : Type 0} (P : Db → Type 0) (r : Result A) (f : A → Action B) (s : State) (b : B)
    → ((a : A) → Ends P (f a))
    → (and_then r f s).0 ≡ ok b
    → P (and_then r f s).1.db
and_then-Ends P (ok a) f s b h e = (h a).run s b e
and_then-Ends P (err x) f s b h e = absurd (cc)

-- It is enough that the last statement ends so.
bind-Ends :
    {A B : Type 0} {P : Db → Type 0} (m : Action A) (f : A → Action B)
    → ((a : A) → Ends P (f a))
    → Ends P (m >>= f)
bind-Ends {P = P} m f h = record { run = λ s b e. and_then-Ends P (m s).0 f (m s).1 b h e }

answer-Ends :
    {A : Type 0} {P : Db → Type 0} (m : Action A)
    → Ends P m
    → Ends P (m >>= λ a. pure {A = Option A} (some a))
answer-Ends {P = P} m h = record { run = λ s b e. go (m s).0 (m s).1 (λ a q. h.run s a q) e }
  where
    go :
        {A : Type 0} (r : Result A) (s' : State) {b : Option A}
        → ((a : A) → r ≡ ok a → P s'.db)
        → (and_then r (λ a. pure {A = Option A} (some a)) s').0 ≡ ok b
        → P (and_then r (λ a. pure {A = Option A} (some a)) s').1.db
    go (ok a) s' h e = h a refl
    go (err x) s' h e = absurd (cc)

module _ (env : Env) (i : ℕ) where
  cancel_pending-Ends :
      (out : ReservationOut) → Ends (NoReminder i) (cancel_pending_reminders_for env i >> pure out)
  unfolding cancel_pending_reminders_for
  cancel_pending-Ends out = record {
    run = λ s a e.
        All-update_where_cases (λ n. is_pending_reminder_of i n ≡ false) (is_pending_reminder_of i)
          (to_cancelled (env.clock s.reads)) (λ n t. ground arith) (λ n f. f) s.db.notifications;
  }

  cancel_existing-Ends : Ends (NoReminder i) (cancel_existing env i)
  unfolding cancel_existing
  cancel_existing-Ends = bind-Ends (now env) _ λ now_at.
      bind-Ends (modify (cancel_row i now_at)) _ λ _.
        bind-Ends (gets (λ db. get_reservation db i)) _ λ found.
          bind-Ends (or_raise assertion_error found) _ λ cancelled.
            bind-Ends (now_local env) _ λ at.
              bind-Ends (enqueue_notification env cancelled NotificationKind.cancelled at) _
                λ _. cancel_pending-Ends cancelled

  cancel_reservation-run :
      (s : State) (r : Reservation)
      → reservation_row s.db i ≡ some r
      → is_confirmed r.status ≡ true
      → cancel_reservation env i s
        ≡ (cancel_existing env i >>= λ out. pure {A = Option ReservationOut} (some out)) s
  unfolding cancel_reservation attach_table
  cancel_reservation-run s r e c = rw (get_reservation-found s.db i r e, c) refl

  -- Where cancelling a confirmed reservation succeeds, no reminder of it is pending afterwards.
  pub cancel_reservation-NoReminder :
      (s : State) (r : Reservation) (out : Option ReservationOut)
      → reservation_row s.db i ≡ some r
      → is_confirmed r.status ≡ true
      → (cancel_reservation env i s).0 ≡ ok out
      → NoReminder i (cancel_reservation env i s).1.db
  cancel_reservation-NoReminder s r out e c h =
      let run = cancel_reservation-run s r e c in
      subst (λ q. NoReminder i q.1.db) (sym run)
        ((answer-Ends (cancel_existing env i) cancel_existing-Ends).run s out
          (subst (λ q. q.0 ≡ ok out) run h))
