-- ===== src/Bookings/Refines.antt =====
-- The routes of app/routers over app/crud.py as steps of the calendar.
use reservac_ia.Base.{
  ℕ, suc, ◌≡◌, ◌≢◌, refl, sym, ap, ◌∙◌, subst, Bool, true, false, Option, none, some, List, [], ◌∷◌,
  ◌++◌, ◌==◌, ==_iff, find, find-some, find-All, update_where, Bool-cases, Option-cases, inl, inr,
  arith, if◌then◌else◌, Text,
}
use reservac_ia.Clock.{ZoneInfo, instant, parse_ts, is_local}
use reservac_ia.Clock.Laws.{abs_difference_fixed}
use reservac_ia.Model.{Env, Db, Reservation, NotificationKind, is_confirmed}
use reservac_ia.Model.Payloads.{ReservationCreate, ReservationUpdate, Field, get_nullable}
use reservac_ia.Monad.{Action, pure, gets, modify, assertion_error, ◌>>=◌}
use reservac_ia.Monad.Leads.{
  Leads, bind-Leads, bind-Preserves, query-Leads, lift_bind-Leads, gets-Leads, pure-Leads,
  now-Leads, or_raise-Leads,
}
use reservac_ia.Crud.Lookup.{ReservationOut, reservation_row, get_reservation, attach_table}
use reservac_ia.Crud.Conflict.{is_booking_of}
use reservac_ia.Crud.Reservations.{
  create_reservation, book, insert_reservation, reservation_constraints, update_reservation,
  update_existing, apply_change, write_change, table_reference_exists, changed_row, resolved_table,
  new_time, is_noop, cancel_reservation, cancel_existing, cancel_row, set_cancelled,
}
use reservac_ia.Bookings.Frame.{
  IsStable, generate_unique_code-Leads, announce_created-Leads, enqueue_notification-Leads,
  now_local-Leads, cancel_pending_reminders_for-Leads,
}
use reservac_ia.Bookings.Valid.{IsValid, HasOffset}
use reservac_ia.Bookings.Change.{changed_row-Changed}
use reservac_ia.Bookings.Update.{announce_updated-Leads}
use reservac_ia.Bookings.Headline.{IsValid-distance}
use reservac_ia.Bookings.Calendar.{Booking, IsFree, booking_of, calendar}

-- The row behind a booking.
booking-row :
    (zone : ZoneInfo) (o : Option Reservation) (b : Booking)
    → booking_of zone o ≡ some b
    → (r : Reservation) × (o ≡ some r)
      × (is_booking_of b.table r ≡ true)
      × (b.at ≡ instant (parse_ts zone r.reservation_at))
booking-row zone none b e = absurd (cc)
booking-row zone (some r) b e = (r, refl, ground arith, ground arith)

pub calendar-IsFree :
    (zone : ZoneInfo) (db : Db) → IsValid zone db → (i : ℕ) → IsFree (calendar zone db) i
calendar-IsFree zone db v i j b e n f g t =
    let (x, row_x, of_x, at_x) = booking-row zone (reservation_row db i) b f in
    let (y, row_y, of_y, at_y) = booking-row zone (reservation_row db j) e g in
    let far =
      IsValid-distance zone db i j b.table x y v row_x row_y n of_x
        (subst (λ k. is_booking_of k y ≡ true) (sym t) of_y) in
    let local : is_local (parse_ts zone x.reservation_at).tz ≡ false =
      find-All (HasOffset zone) (λ r. r.id == i) db.reservations v.stamped row_x in
    omega (
      arith,
      far,
      abs_difference_fixed (parse_ts zone x.reservation_at) (parse_ts zone y.reservation_at) local,
      at_x,
      at_y,
    )

-- Only the row with number `i` may differ.
abbrev pub OnlyAt : ℕ → List Reservation → Db → Type 0
OnlyAt i rows db = (j : ℕ) → i ≢ j → reservation_row db j ≡ find (λ r. r.id == j) rows

pub OnlyAt-stable : (i : ℕ) (rows : List Reservation) → IsStable (OnlyAt i rows)
OnlyAt-stable i rows db db' k h j n = ap (find (λ r. r.id == j)) k.1 ∙ h j n

find-snoc :
    (j : ℕ) (rows : List Reservation) (r : Reservation)
    → r.id ≢ j
    → find (λ x. x.id == j) (rows ++ r ∷ []) ≡ find (λ x. x.id == j) rows
find-snoc j [] r n = ground arith
find-snoc j (x ∷ rows) r n = ground (arith, find-snoc j rows r n)

find-put :
    (i j : ℕ) (f : Reservation → Reservation) (rows : List Reservation)
    → ((x : Reservation) → (x.id == i) ≡ true → (f x).id ≡ i)
    → i ≢ j
    → find (λ x. x.id == j) (update_where (λ x. x.id == i) f rows) ≡ find (λ x. x.id == j) rows
find-put i j f [] keep n = refl
find-put i j f (x ∷ rows) keep n = ground (arith, find-put i j f rows keep n, keep x)

module _ (env : Env) (rows : List Reservation) where
  module _ (seq : ℕ) (body : ReservationCreate) where
    abbrev Untouched : Db → Type 0
    Untouched db = (db.reservations ≡ rows) × (db.reservation_seq ≡ seq)

    Untouched-OnlyAt : (db : Db) → Untouched db → OnlyAt (suc seq) rows db
    Untouched-OnlyAt db h j n = ap (find (λ r. r.id == j)) h.0

    insert_reservation-Leads :
        (table_id : ℕ) (code : Text)
        → Leads Untouched (OnlyAt (suc seq) rows) (insert_reservation env body table_id code)
    unfolding insert_reservation
    insert_reservation-Leads table_id code = record {
      run = λ s h. elim (Bool-cases (reservation_constraints s.db body.party_size table_id code)) [
        | inr e ↦ rw e (Untouched-OnlyAt s.db h)
        | inl e ↦ rw e (λ j n.
            find-snoc j s.db.reservations _ (λ q. n (ap suc (sym h.1) ∙ q))
            ∙ ap (find (λ r. r.id == j)) h.0)
      ];
    }

    book-Leads : (table_id : ℕ) → Leads Untouched (OnlyAt (suc seq) rows) (book env body table_id)
    unfolding book
    book-Leads table_id =
        bind-Leads _ _ (generate_unique_code-Leads env)
          (λ code.
            bind-Leads _ _ (insert_reservation-Leads table_id code)
              (λ id. bind-Preserves _ _ (gets-Leads (λ db. get_reservation db id)) λ found.
                bind-Preserves _ _ (or_raise-Leads assertion_error found) λ row.
                  bind-Preserves _ _ (announce_created-Leads env (OnlyAt-stable (suc seq) rows) row)
                    (λ _. pure-Leads row))
              (λ db h. h))
          Untouched-OnlyAt

    pub create_reservation-OnlyAt :
        Leads Untouched (OnlyAt (suc seq) rows) (create_reservation env body)
    unfolding create_reservation
    create_reservation-OnlyAt =
        query-Leads _ (book env body) (λ s table_id h e. (book-Leads table_id).run s h)
          Untouched-OnlyAt

  module _ (i : ℕ) where
    abbrev Same : {A : Type 0} → Action A → Type 0
    Same m = Leads (OnlyAt i rows) (OnlyAt i rows) m

    stable : IsStable (OnlyAt i rows)
    stable = OnlyAt-stable i rows

    module _ (body : ReservationUpdate) (existing : Reservation) (id : existing.id ≡ i) where
      write_change-Same : (table_id : Field ℕ) → Same (write_change env i existing body table_id)
      unfolding write_change
      write_change-Same table_id = record {
        run = λ s p.
            elim (Bool-cases
              (table_reference_exists s.db (get_nullable table_id existing.table_id))) [
                | inr e ↦ rw e p
                | inl e ↦
                    elim (Option-cases (changed_row existing body table_id (env.clock s.reads))) [
                      | inl n ↦ rw (e, n) p
                      | inr (row, n) ↦
                          let c =
                            changed_row-Changed existing body table_id (env.clock s.reads) row n in
                          rw (e, n)
                            (λ j m.
                              find-put i j (λ _. row) s.db.reservations (λ x _. c.id ∙ id) m
                              ∙ p j m)
                    ]
              ];
      }

      apply_change-Same : (table_id : Field ℕ) → Same (apply_change env i existing body table_id)
      unfolding apply_change
      apply_change-Same table_id = bind-Preserves _ _ (write_change-Same table_id) λ _.
          bind-Preserves _ _ (gets-Leads (λ db. get_reservation db i)) λ found.
            bind-Preserves _ _ (or_raise-Leads assertion_error found) λ out.
              bind-Preserves _ _ (announce_updated-Leads env stable i out body)
                (λ _. pure-Leads out)

      conclude :
          (b : Bool) (table_id : Field ℕ)
          → Same (
              if b
              then gets (λ db. attach_table db existing)
              else apply_change env i existing body table_id)
      conclude true table_id = gets-Leads (λ db. attach_table db existing)
      conclude false table_id = apply_change-Same table_id

      update_existing-Same : Same (update_existing env i body existing)
      unfolding update_existing
      update_existing-Same =
          lift_bind-Leads (new_time env existing body.reservation_at) _
            (λ at _.
              query-Leads (λ db. resolved_table env db i existing body at) _
                (λ s table_id p _. (conclude (is_noop body) table_id).run s p) (λ db p. p))
            (λ db p. p)

      updated_out : Same (
          update_existing env i body existing >>= λ out.
          pure {A = Option ReservationOut} (some out))
      updated_out = bind-Preserves _ _ update_existing-Same (λ out. pure-Leads (some out))

    pub update_reservation-OnlyAt :
        (body : ReservationUpdate) → Same (update_reservation env i body)
    unfolding update_reservation
    update_reservation-OnlyAt body = record {
      run = λ s p. elim (Option-cases (reservation_row s.db i)) [
        | inl e ↦ rw e p
        | inr (existing, e) ↦
            let id : existing.id ≡ i =
              (==_iff _ _).0 (find-some (λ r. r.id == i) s.db.reservations e) in
            rw e ((updated_out body existing id).run s p)
      ];
    }

    cancel_existing-Same : Same (cancel_existing env i)
    unfolding cancel_existing
    cancel_existing-Same = bind-Preserves _ _ (now-Leads env) λ now_at.
        bind-Preserves (modify (cancel_row i now_at)) _
          (record {
            run = λ s p j m.
                find-put i j (set_cancelled now_at) s.db.reservations (λ x t. (==_iff _ _).0 t) m
                ∙ p j m;
          })
          λ _. bind-Preserves _ _ (gets-Leads (λ db. get_reservation db i)) λ found.
            bind-Preserves _ _ (or_raise-Leads assertion_error found) λ out.
              bind-Preserves _ _ (now_local-Leads env stable) λ at.
                bind-Preserves _ _
                  (enqueue_notification-Leads env stable out NotificationKind.cancelled at)
                  λ _.
                    bind-Preserves _ _ (cancel_pending_reminders_for-Leads env stable i)
                      (λ _. pure-Leads out)

    cancelled_out :
        Same (cancel_existing env i >>= λ out. pure {A = Option ReservationOut} (some out))
    cancelled_out = bind-Preserves _ _ cancel_existing-Same (λ out. pure-Leads (some out))

    pub cancel_reservation-OnlyAt : Same (cancel_reservation env i)
    unfolding cancel_reservation
    cancel_reservation-OnlyAt = record {
      run = λ s p. elim (Option-cases (get_reservation s.db i)) [
        | inl e ↦ rw e p
        | inr (out, e) ↦ elim (Bool-cases (is_confirmed out.reservation.status)) [
          | inl c ↦ rw (e, c) (cancelled_out.run s p)
          | inr c ↦ rw (e, c) p
        ]
      ];
    }
