-- ===== src/Bookings/Quiet.antt =====
-- The kill switch of the notifications (app/notifications/queue.py, enqueue) and app/crud.py.
use reservac_ia.Base.{
  ℕ, ◌≡◌, refl, ap, ◌∙◌, sym, subst, Bool, true, false, Option, some, List, [], ◌∷◌, if◌then◌else◌,
  update_where, Option-cases, Bool-cases, inl, inr, arith,
}
use reservac_ia.Clock.{DateTime}
use reservac_ia.Model.{Env, Db, Reservation, Notification, NotificationKind, kind_eq, is_confirmed}
use reservac_ia.Model.Payloads.{Field, get_nullable, ReservationCreate, ReservationUpdate, is_set}
use reservac_ia.Monad.{State, Action, assertion_error, pure, gets, modify, ◌>>=◌}
use reservac_ia.Monad.Leads.{
  Leads, bind-Preserves, gets-Leads, pure-Leads, now-Leads, or_raise-Leads, query-Leads,
  lift_bind-Leads,
}
use reservac_ia.Notifications.Queue.{
  enqueue, cancel_pending_reminders_for, ids, is_pending_reminder_of, to_cancelled,
}
use reservac_ia.Crud.Lookup.{ReservationOut, get_reservation, reservation_row, attach_table}
use reservac_ia.Crud.Reservations.{
  enqueue_notification, now_local, reminder_time_for, announce_created, announce_move,
  reschedule_reminder, announce_updated, moves, is_noop, insert_reservation,
  reservation_constraints, book, create_reservation, write_change, table_reference_exists,
  changed_row, resolved_table, apply_change, new_time, update_existing, update_reservation,
  cancel_existing, cancel_row, cancel_reservation,
}
use reservac_ia.Bookings.Frame.{generate_unique_code-Leads}

-- The messages of the queue, by their ids in the order of the rows.
abbrev pub HasMessages : List ℕ → Db → Type 0
HasMessages l db = ids db.notifications ≡ l

ids-cancelled :
    (i u : ℕ) (rows : List Notification)
    → ids (update_where (is_pending_reminder_of i) (to_cancelled u) rows) ≡ ids rows
ids-cancelled i u [] = refl
ids-cancelled i u (n ∷ rows) = elim (Bool-cases (is_pending_reminder_of i n)) [
  | inl e ↦ rw e (ap (λ t. n.id ∷ t) (ids-cancelled i u rows))
  | inr e ↦ rw e (ap (λ t. n.id ∷ t) (ids-cancelled i u rows))
]

module _ (env : Env) (quiet : env.settings.suppress_notifications ≡ true) where
  enqueue_notification-quiet :
      (out : ReservationOut) (kind : NotificationKind) (at : DateTime) (s : State)
      → kind_eq kind NotificationKind.custom ≡ false
      → (enqueue_notification env out kind at s).1.db ≡ s.db
  unfolding enqueue_notification enqueue
  enqueue_notification-quiet out kind at s k = ground arith

  reminder_time_for-quiet :
      (out : ReservationOut) (s : State) → (reminder_time_for env out s).1.db ≡ s.db
  unfolding reminder_time_for
  reminder_time_for-quiet out s = ground arith

  module _ (l : List ℕ) where
    abbrev Quiet : {A : Type 0} → Action A → Type 0
    Quiet m = Leads (HasMessages l) (HasMessages l) m

    same : {A : Type 0} (m : Action A) → ((s : State) → (m s).1.db ≡ s.db) → Quiet m
    same m h = record { run = λ s p. subst (HasMessages l) (sym (h s)) p }

    enqueue_notification-Quiet :
        (out : ReservationOut) (kind : NotificationKind) (at : DateTime)
        → kind_eq kind NotificationKind.custom ≡ false
        → Quiet (enqueue_notification env out kind at)
    enqueue_notification-Quiet out kind at k =
        same _ (λ s. enqueue_notification-quiet out kind at s k)

    now_local-Quiet : Quiet (now_local env)
    unfolding now_local
    now_local-Quiet = record { run = λ s p. p }

    announce_reminder-Quiet :
        (out : ReservationOut)
        → Quiet (
            reminder_time_for env out >>= λ at.
            enqueue_notification env out NotificationKind.reminder at)
    announce_reminder-Quiet out =
        bind-Preserves _ _ (same _ (reminder_time_for-quiet out))
          (λ at. enqueue_notification-Quiet out NotificationKind.reminder at refl)

    announce_created-Quiet : (out : ReservationOut) → Quiet (announce_created env out)
    unfolding announce_created
    announce_created-Quiet out = bind-Preserves _ _ now_local-Quiet λ at.
        bind-Preserves _ _ (enqueue_notification-Quiet out NotificationKind.created at refl)
          (λ _. announce_reminder-Quiet out)

    insert_reservation-Quiet :
        (body : ReservationCreate) (table_id : ℕ) (code : List ℕ)
        → Quiet (insert_reservation env body table_id code)
    unfolding insert_reservation
    insert_reservation-Quiet body table_id code = record {
      run = λ s p. elim (Bool-cases (reservation_constraints s.db body.party_size table_id code)) [
        | inl e ↦ rw e p
        | inr e ↦ rw e p
      ];
    }

    book-Quiet : (body : ReservationCreate) (table_id : ℕ) → Quiet (book env body table_id)
    unfolding book
    book-Quiet body table_id = bind-Preserves _ _ (generate_unique_code-Leads env) λ code.
        bind-Preserves _ _ (insert_reservation-Quiet body table_id code) λ id.
          bind-Preserves _ _ (gets-Leads (λ db. get_reservation db id)) λ found.
            bind-Preserves _ _ (or_raise-Leads assertion_error found)
              λ row. bind-Preserves _ _ (announce_created-Quiet row) (λ _. pure-Leads row)

    create_reservation-Quiet : (body : ReservationCreate) → Quiet (create_reservation env body)
    unfolding create_reservation
    create_reservation-Quiet body =
        query-Leads _ (book env body) (λ s table_id p e. (book-Quiet body table_id).run s p)
          (λ db p. p)

    cancel_pending_reminders_for-Quiet : (i : ℕ) → Quiet (cancel_pending_reminders_for env i)
    unfolding cancel_pending_reminders_for
    cancel_pending_reminders_for-Quiet i = record {
      run = λ s p. ids-cancelled i (env.clock s.reads) s.db.notifications ∙ p;
    }

    when-Quiet : (b : Bool) {m : Action (Unit {0})} → Quiet m → Quiet (if b then m else pure tt)
    when-Quiet true h = h
    when-Quiet false h = pure-Leads tt

    announce_updated-Quiet :
        (i : ℕ) (out : ReservationOut) (body : ReservationUpdate)
        → Quiet (announce_updated env i out body)
    unfolding announce_updated announce_move reschedule_reminder
    announce_updated-Quiet i out body =
        bind-Preserves _ _
          (when-Quiet (moves body) (
            bind-Preserves _ _ now_local-Quiet
              (λ at. enqueue_notification-Quiet out NotificationKind.updated at refl)))
          (λ _. when-Quiet (is_set body.reservation_at) (
            bind-Preserves _ _ (cancel_pending_reminders_for-Quiet i)
              (λ _. announce_reminder-Quiet out)))

    module _ (i : ℕ) (existing : Reservation) (body : ReservationUpdate) where
      write_change-Quiet : (table_id : Field ℕ) → Quiet (write_change env i existing body table_id)
      unfolding write_change
      write_change-Quiet table_id = record {
        run = λ s p.
            elim (Bool-cases
              (table_reference_exists s.db (get_nullable table_id existing.table_id))) [
                | inr e ↦ rw e p
                | inl e ↦
                    elim (Option-cases (changed_row existing body table_id (env.clock s.reads))) [
                      | inl n ↦ rw (e, n) p
                      | inr (row, n) ↦ rw (e, n) p
                    ]
              ];
      }

      apply_change-Quiet : (table_id : Field ℕ) → Quiet (apply_change env i existing body table_id)
      unfolding apply_change
      apply_change-Quiet table_id = bind-Preserves _ _ (write_change-Quiet table_id) λ _.
          bind-Preserves _ _ (gets-Leads (λ db. get_reservation db i)) λ found.
            bind-Preserves _ _ (or_raise-Leads assertion_error found)
              λ out. bind-Preserves _ _ (announce_updated-Quiet i out body) (λ _. pure-Leads out)

      conclude :
          (b : Bool) (table_id : Field ℕ)
          → Quiet (
              if b
              then gets (λ db. attach_table db existing)
              else apply_change env i existing body table_id)
      conclude true table_id = gets-Leads (λ db. attach_table db existing)
      conclude false table_id = apply_change-Quiet table_id

      update_existing-Quiet : Quiet (update_existing env i body existing)
      unfolding update_existing
      update_existing-Quiet =
          lift_bind-Leads (new_time env existing body.reservation_at) _
            (λ at _.
              query-Leads (λ db. resolved_table env db i existing body at) _
                (λ s table_id p _. (conclude (is_noop body) table_id).run s p) (λ db p. p))
            (λ db p. p)

      updated_out-Quiet : Quiet (
          update_existing env i body existing >>= λ out.
          pure {A = Option ReservationOut} (some out))
      updated_out-Quiet = bind-Preserves _ _ update_existing-Quiet (λ out. pure-Leads (some out))

    cancel_existing-Quiet : (i : ℕ) → Quiet (cancel_existing env i)
    unfolding cancel_existing
    cancel_existing-Quiet i = bind-Preserves _ _ (now-Leads env) λ now_at.
        bind-Preserves (modify (cancel_row i now_at)) _ (record { run = λ s p. p })
          λ _. bind-Preserves _ _ (gets-Leads (λ db. get_reservation db i)) λ found.
            bind-Preserves _ _ (or_raise-Leads assertion_error found) λ out.
              bind-Preserves _ _ now_local-Quiet λ at.
                bind-Preserves _ _
                  (enqueue_notification-Quiet out NotificationKind.cancelled at refl)
                  λ _.
                    bind-Preserves _ _ (cancel_pending_reminders_for-Quiet i) (λ _. pure-Leads out)

    cancelled_out-Quiet :
        (i : ℕ)
        → Quiet (cancel_existing env i >>= λ out. pure {A = Option ReservationOut} (some out))
    cancelled_out-Quiet i =
        bind-Preserves _ _ (cancel_existing-Quiet i) (λ out. pure-Leads (some out))

  update_reservation-quiet :
      (i : ℕ) (body : ReservationUpdate) (s : State)
      → HasMessages (ids s.db.notifications) (update_reservation env i body s).1.db
  unfolding update_reservation
  update_reservation-quiet i body s = elim (Option-cases (reservation_row s.db i)) [
    | inl e ↦ rw e refl
    | inr (existing, e) ↦
        rw e ((updated_out-Quiet (ids s.db.notifications) i existing body).run s refl)
  ]

  cancel_reservation-quiet :
      (i : ℕ) (s : State) → HasMessages (ids s.db.notifications) (cancel_reservation env i s).1.db
  unfolding cancel_reservation
  cancel_reservation-quiet i s = elim (Option-cases (get_reservation s.db i)) [
    | inl e ↦ rw e refl
    | inr (out, e) ↦ elim (Bool-cases (is_confirmed out.reservation.status)) [
      | inl c ↦ rw (e, c) ((cancelled_out-Quiet (ids s.db.notifications) i).run s refl)
      | inr c ↦ rw (e, c) refl
    ]
  ]

-- While suppress_notifications is on, creating, changing or cancelling a reservation, whatever it
-- answers, adds no row to the queue of messages and takes none away.
pub suppressed-no_message :
    (env : Env) (s : State)
    → env.settings.suppress_notifications ≡ true
    → ((body : ReservationCreate)
        → HasMessages (ids s.db.notifications) (create_reservation env body s).1.db)
      × ((i : ℕ) (body : ReservationUpdate)
          → HasMessages (ids s.db.notifications) (update_reservation env i body s).1.db)
      × ((i : ℕ) → HasMessages (ids s.db.notifications) (cancel_reservation env i s).1.db)
suppressed-no_message env s quiet = (
  λ body. (create_reservation-Quiet env quiet (ids s.db.notifications) body).run s refl,
  λ i body. update_reservation-quiet env quiet i body s,
  λ i. cancel_reservation-quiet env quiet i s,
)
