-- ===== src/Bookings/Cancel.antt =====
-- `cancel_reservation` of app/crud.py, and the validity of the bookings.
use reservac_ia.Base.{
  ℕ, ◌≤◌, Bool, Option, some, List, ◌==◌, All, All-update_where_keep, Option-cases, Bool-cases, inl,
  inr, refl, Pairwise-update_where, arith,
}
use reservac_ia.Model.{Env, Db, Table, Reservation, NotificationKind, is_confirmed}
use reservac_ia.Monad.{State, pure, modify, assertion_error, ◌>>=◌}
use reservac_ia.Monad.Leads.{
  Leads, bind-Preserves, gets-Leads, now-Leads, pure-Leads, or_raise-Leads,
}
use reservac_ia.Crud.Lookup.{ReservationOut, get_reservation}
use reservac_ia.Crud.Reservations.{cancel_reservation, cancel_existing, cancel_row, set_cancelled}
use reservac_ia.Bookings.Frame.{
  IsStable, now_local-Leads, enqueue_notification-Leads, cancel_pending_reminders_for-Leads,
}
use reservac_ia.Bookings.Valid.{IsValid, IsValid-stable, Apart, IsSeated, HasOffset}

IsSeated-cancelled :
    (now_at : ℕ) (tables : List Table) (r : Reservation)
    → IsSeated tables r
    → IsSeated tables (set_cancelled now_at r)
IsSeated-cancelled now_at tables r h = ground arith

-- Cancelling only takes a booking away.
cancel_row-IsValid :
    (env : Env) (i now_at : ℕ) (db : Db)
    → IsValid env.zone db
    → IsValid env.zone (cancel_row i now_at db)
cancel_row-IsValid env i now_at db v = record {
  apart =
      Pairwise-update_where (Apart env.zone) named (set_cancelled now_at)
        (λ x y h. (h.0, ground arith, ground arith)) (λ x y h. (h.0, refl, h.2)) db.reservations
        v.apart;
  below = keep (λ r. r.id ≤ db.reservation_seq) (λ r h. h) v.below;
  stamped = keep (HasOffset env.zone) (λ r h. h) v.stamped;
  seated = keep (IsSeated db.tables) (IsSeated-cancelled now_at db.tables) v.seated;
  distinct = v.distinct;
  tables_below = v.tables_below;
}
  where
    named : Reservation → Bool
    named r = r.id == i

    keep :
        (P : Reservation → Type 0)
        → ((r : Reservation) → P r → P (set_cancelled now_at r))
        → All P db.reservations
        → All P (cancel_row i now_at db).reservations
    keep P f h = All-update_where_keep P named (set_cancelled now_at) db.reservations f h

cancel_row-Leads :
    (env : Env) (i now_at : ℕ)
    → Leads (IsValid env.zone) (IsValid env.zone) (modify (cancel_row i now_at))
cancel_row-Leads env i now_at = record { run = λ s v. cancel_row-IsValid env i now_at s.db v }

cancel_existing-Leads :
    (env : Env) (i : ℕ) → Leads (IsValid env.zone) (IsValid env.zone) (cancel_existing env i)
unfolding cancel_existing
cancel_existing-Leads env i = bind-Preserves _ _ (now-Leads env) λ now_at.
    bind-Preserves _ _ (cancel_row-Leads env i now_at) λ _.
      bind-Preserves _ _ (gets-Leads (λ db. get_reservation db i)) λ found.
        bind-Preserves _ _ (or_raise-Leads assertion_error found) λ out.
          bind-Preserves _ _ (now_local-Leads env stable) λ at.
            bind-Preserves _ _
              (enqueue_notification-Leads env stable out NotificationKind.cancelled at)
              λ _.
                bind-Preserves _ _ (cancel_pending_reminders_for-Leads env stable i)
                  (λ _. pure-Leads out)
  where
    stable : IsStable (IsValid env.zone)
    stable = IsValid-stable env.zone

cancelled_out :
    (env : Env) (i : ℕ)
    → Leads
        (IsValid env.zone)
        (IsValid env.zone)
        (cancel_existing env i >>= λ out. pure {A = Option ReservationOut} (some out))
cancelled_out env i =
    bind-Preserves _ _ (cancel_existing-Leads env i) (λ out. pure-Leads (some out))

-- Cancelling a reservation, whatever it answers, keeps the bookings valid.
pub cancel_reservation-IsValid :
    (env : Env) (i : ℕ) (s : State)
    → IsValid env.zone s.db
    → IsValid env.zone (cancel_reservation env i s).1.db
unfolding cancel_reservation
cancel_reservation-IsValid env i s v = elim (Option-cases (get_reservation s.db i)) [
  | inl e ↦ rw e v
  | inr (out, e) ↦ elim (Bool-cases (is_confirmed out.reservation.status)) [
    | inl c ↦ rw (e, c) ((cancelled_out env i).run s v)
    | inr c ↦ rw (e, c) v
  ]
]
