-- ===== src/Bookings/Frame.antt =====
-- What the operations on the queue and the drawing of codes leave alone: tables and reservations.
use reservac_ia.Base.{ℕ, zero, suc, ◌≡◌, refl, Option, Bool, true, false, [], ◌∷◌, Text, arith}
use reservac_ia.Clock.{DateTime, RawDateTime}
use reservac_ia.Model.{Env, Db, NotificationKind}
use reservac_ia.Monad.{State, Action, ◌>>=◌}
use reservac_ia.Monad.Leads.{Leads, bind-Preserves, gets-Leads, pure-Leads, draw-Leads}
use reservac_ia.Codes.{generate_code, generate_go, pick_symbol}
use reservac_ia.Crud.Lookup.{ReservationOut}
use reservac_ia.Notifications.Queue.{enqueue, cancel_pending_reminders_for}
use reservac_ia.Crud.Reservations.{
  code_loop, code_taken, keep_or_retry, generate_unique_code, enqueue_notification, now_local,
  reminder_time_for, announce_created, announce_move, reschedule_reminder,
}

abbrev pub Keeps : Db → Db → Type 0
Keeps db db' =
    (db'.tables ≡ db.tables)
    × (db'.reservations ≡ db.reservations)
    × (db'.reservation_seq ≡ db.reservation_seq)
    × (db'.table_seq ≡ db.table_seq)

-- A property of the tables and reservations only.
abbrev pub IsStable : (Db → Type 0) → Type 0
IsStable P = (db db' : Db) → Keeps db db' → P db → P db'

module _ (env : Env) where
  enqueue-Keeps :
      (i : Option ℕ) (kind : NotificationKind) (phone : Text) (at : RawDateTime) (body : Text)
      (s : State)
      → Keeps s.db (enqueue env i kind phone at body s).1.db
  unfolding enqueue
  enqueue-Keeps i kind phone at body s = ground arith

  enqueue_notification-Keeps :
      (out : ReservationOut) (kind : NotificationKind) (at : DateTime) (s : State)
      → Keeps s.db (enqueue_notification env out kind at s).1.db
  unfolding enqueue_notification enqueue
  enqueue_notification-Keeps out kind at s = ground arith

  reminder_time_for-Keeps :
      (out : ReservationOut) (s : State) → Keeps s.db (reminder_time_for env out s).1.db
  unfolding reminder_time_for
  reminder_time_for-Keeps out s = ground arith

  module _ {P : Db → Type 0} (stable : IsStable P) where
    pub enqueue_notification-Leads :
        (out : ReservationOut) (kind : NotificationKind) (at : DateTime)
        → Leads P P (enqueue_notification env out kind at)
    enqueue_notification-Leads out kind at = record {
      run = λ s. stable s.db _ (enqueue_notification-Keeps out kind at s);
    }

    pub cancel_pending_reminders_for-Leads :
        (i : ℕ) → Leads P P (cancel_pending_reminders_for env i)
    unfolding cancel_pending_reminders_for
    cancel_pending_reminders_for-Leads i = record {
      run = λ s. stable s.db _ (refl, refl, refl, refl);
    }

    pub now_local-Leads : Leads P P (now_local env)
    unfolding now_local
    now_local-Leads = record { run = λ s p. p }

    reminder_time_for-Leads : (out : ReservationOut) → Leads P P (reminder_time_for env out)
    reminder_time_for-Leads out = record {
      run = λ s. stable s.db _ (reminder_time_for-Keeps out s);
    }

    announce_reminder-Leads :
        (out : ReservationOut)
        → Leads P P (
            reminder_time_for env out >>= λ at.
            enqueue_notification env out NotificationKind.reminder at)
    announce_reminder-Leads out =
        bind-Preserves _ _ (reminder_time_for-Leads out)
          (λ at. enqueue_notification-Leads out NotificationKind.reminder at)

    pub announce_created-Leads : (out : ReservationOut) → Leads P P (announce_created env out)
    unfolding announce_created
    announce_created-Leads out = bind-Preserves _ _ now_local-Leads λ at.
        bind-Preserves _ _ (enqueue_notification-Leads out NotificationKind.created at)
          (λ _. announce_reminder-Leads out)

    pub announce_move-Leads : (out : ReservationOut) → Leads P P (announce_move env out)
    unfolding announce_move
    announce_move-Leads out =
        bind-Preserves _ _ now_local-Leads
          (λ at. enqueue_notification-Leads out NotificationKind.updated at)

    pub reschedule_reminder-Leads :
        (i : ℕ) (out : ReservationOut) → Leads P P (reschedule_reminder env i out)
    unfolding reschedule_reminder
    reschedule_reminder-Leads i out =
        bind-Preserves _ _ (cancel_pending_reminders_for-Leads i) (λ _. announce_reminder-Leads out)

  module _ {P : Db → Type 0} where
    generate_go-Leads : (n : ℕ) → Leads P P (generate_go env n)
    unfolding generate_go
    generate_go-Leads zero = pure-Leads []
    generate_go-Leads (suc n) =
        bind-Preserves _ _ (draw-Leads env)
          λ i. bind-Preserves _ _ (generate_go-Leads n) (λ rest. pure-Leads (pick_symbol i ∷ rest))

    pub generate_code-Leads : Leads P P (generate_code env)
    unfolding generate_code
    generate_code-Leads = generate_go-Leads 6

    keep_or_retry-Leads :
        (taken : Bool) (code : Text) {again : Action Text}
        → Leads P P again
        → Leads P P (keep_or_retry taken code again)
    unfolding keep_or_retry
    keep_or_retry-Leads true code h = h
    keep_or_retry-Leads false code h = pure-Leads code

    code_loop-Leads : (n : ℕ) → Leads P P (code_loop env n)
    unfolding code_loop generate_code
    code_loop-Leads zero = record { run = λ s p. p }
    code_loop-Leads (suc n) = bind-Preserves _ _ (generate_go-Leads 6) λ code.
        bind-Preserves _ _ (gets-Leads (λ db. code_taken db code))
          (λ taken. keep_or_retry-Leads taken code (code_loop-Leads n))

    pub generate_unique_code-Leads : Leads P P (generate_unique_code env)
    unfolding generate_unique_code
    generate_unique_code-Leads = code_loop-Leads 8
