-- ===== src/Bookings/Update.antt =====
-- The course of `update_reservation` of app/crud.py, and the validity of the bookings.
use reservac_ia.Base.{
  ℕ, ◌≡◌, Bool, true, false, Option, some, subst, Option-cases, Bool-cases, inl, inr, arith,
  if◌then◌else◌,
}
use reservac_ia.Clock.{DateTime}
use reservac_ia.Model.{Env, Db, Reservation}
use reservac_ia.Model.Payloads.{Field, ReservationUpdate, is_set, get_nullable}
use reservac_ia.Monad.{State, Action, ok, pure, gets, assertion_error, ◌>>=◌}
use reservac_ia.Monad.Leads.{
  Leads, bind-Leads, bind-Preserves, query-Leads, lift_bind-Leads, gets-Leads, pure-Leads,
  or_raise-Leads,
}
use reservac_ia.Crud.Lookup.{ReservationOut, reservation_row, get_reservation, attach_table}
use reservac_ia.Crud.Reservations.{
  put_reservation, update_reservation, update_existing, apply_change, write_change,
  announce_updated, new_time, is_noop, moves, changed_row, table_reference_exists,
}
use reservac_ia.Bookings.Frame.{IsStable, announce_move-Leads, reschedule_reminder-Leads}
use reservac_ia.Bookings.Valid.{IsValid, IsValid-stable}
use reservac_ia.Bookings.Placing.{Placeable}
use reservac_ia.Bookings.Change.{
  Changed, Resolved, resolved_table-Resolved, changed_row-Changed, unmoved-IsValid, moved-IsValid,
}

pub announce_updated-Leads :
    {P : Db → Type 0} (env : Env)
    → IsStable P
    → (i : ℕ) (out : ReservationOut) (body : ReservationUpdate)
    → Leads P P (announce_updated env i out body)
unfolding announce_updated
announce_updated-Leads {P} env stable i out body =
    bind-Preserves _ _ (when (moves body) (announce_move-Leads env stable out))
      (λ _. when (is_set body.reservation_at) (reschedule_reminder-Leads env stable i out))
  where
    when : (b : Bool) {m : Action (Unit {0})} → Leads P P m → Leads P P (if b then m else pure tt)
    when true h = h
    when false h = pure-Leads tt

module _ (env : Env) (i : ℕ) (existing : Reservation) (body : ReservationUpdate) (at : DateTime)
    (timed : new_time env existing body.reservation_at ≡ ok at) where
  record CanWrite (table_id : Field ℕ) (db : Db) : Type 0 where
    valid : IsValid env.zone db
    found : reservation_row db i ≡ some existing
    resolved : Resolved env db i existing body valid found at table_id

  written-IsValid :
      (table_id : Field ℕ) (row : Reservation) (db : Db)
      → CanWrite table_id db
      → Changed existing body table_id row
      → IsValid env.zone (put_reservation i row db)
  written-IsValid table_id row db w c = elim w.resolved [
    | inl (m, e) ↦
        unmoved-IsValid env db i existing body w.valid w.found row
          (subst (λ f. Changed existing body f row) e c) m
    | inr (t, p, e, party, placed) ↦
        let same : p ≡ row.party_size = ground (arith, c.party) in
        moved-IsValid env db i existing body w.valid w.found row t at
          (subst (λ f. Changed existing body f row) e c) timed
          (subst (λ q. Placeable env.zone db q at (some i) t) same placed)
  ]

  write_change-Leads :
      (table_id : Field ℕ)
      → Leads (CanWrite table_id) (IsValid env.zone) (write_change env i existing body table_id)
  unfolding write_change
  write_change-Leads table_id = record {
    run = λ s w.
        elim (Bool-cases (table_reference_exists s.db (get_nullable table_id existing.table_id))) [
          | inr e ↦ rw e w.valid
          | inl e ↦ elim (Option-cases (changed_row existing body table_id (env.clock s.reads))) [
            | inl n ↦ rw (e, n) w.valid
            | inr (row, n) ↦
                rw (e, n)
                  (written-IsValid table_id row s.db w
                    (changed_row-Changed existing body table_id (env.clock s.reads) row n))
          ]
        ];
  }

  apply_change-Leads :
      (table_id : Field ℕ)
      → Leads (CanWrite table_id) (IsValid env.zone) (apply_change env i existing body table_id)
  unfolding apply_change
  apply_change-Leads table_id =
      bind-Leads _ _ (write_change-Leads table_id)
        (λ _. bind-Preserves _ _ (gets-Leads (λ db. get_reservation db i)) λ found.
          bind-Preserves _ _ (or_raise-Leads assertion_error found) λ out.
            bind-Preserves _ _ (announce_updated-Leads env (IsValid-stable env.zone) i out body)
              (λ _. pure-Leads out))
        (λ db v. v)

  -- The end of the update, once the table is settled.
  conclude :
      (table_id : Field ℕ) (s : State)
      → CanWrite table_id s.db
      → IsValid env.zone
          ((if is_noop body
              then gets (λ db. attach_table db existing)
              else apply_change env i existing body table_id)
            s).1.db
  conclude table_id s w = elim (Bool-cases (is_noop body)) [
    | inl e ↦ rw e w.valid
    | inr e ↦ rw e ((apply_change-Leads table_id).run s w)
  ]

abbrev Known : Env → ℕ → Reservation → Db → Type 0
Known env i existing db = IsValid env.zone db × (reservation_row db i ≡ some existing)

update_existing-Leads :
    (env : Env) (i : ℕ) (body : ReservationUpdate) (existing : Reservation)
    → Leads (Known env i existing) (IsValid env.zone) (update_existing env i body existing)
unfolding update_existing
update_existing-Leads env i body existing =
    lift_bind-Leads (new_time env existing body.reservation_at) _
      (λ at timed.
        query-Leads _ _
          (λ s table_id k e. conclude env i existing body at timed table_id s (record {
            valid = k.0;
            found = k.1;
            resolved = resolved_table-Resolved env s.db i existing body k.0 k.1 at table_id e;
          }))
          (λ db k. k.0))
      (λ db k. k.0)

updated_out :
    (env : Env) (i : ℕ) (body : ReservationUpdate) (existing : Reservation)
    → Leads
        (Known env i existing)
        (IsValid env.zone)
        (update_existing env i body existing >>= λ out. pure {A = Option ReservationOut} (some out))
updated_out env i body existing =
    bind-Leads _ _ (update_existing-Leads env i body existing) (λ out. pure-Leads (some out))
      (λ db v. v)

pub update_reservation-IsValid :
    (env : Env) (i : ℕ) (body : ReservationUpdate) (s : State)
    → IsValid env.zone s.db
    → IsValid env.zone (update_reservation env i body s).1.db
unfolding update_reservation
update_reservation-IsValid env i body s v = elim (Option-cases (reservation_row s.db i)) [
  | inl e ↦ rw e v
  | inr (existing, e) ↦ rw e ((updated_out env i body existing).run s (v, e))
]
