-- ===== src/Overlap/Consistent.antt =====
-- What overlapping requests to book leave sound.
use reservac_ia.Base.{
  ℕ, suc, ◌≤◌, ◌≡◌, ◌≢◌, refl, sym, ap, ◌∙◌, subst, false, none, some, List, [], ◌∷◌, ◌++◌, ◌==◌,
  find, All, All-imp, All-both, All-snoc, Pairwise, Pairwise-snoc, DistinctIds, any-false,
  Bool-cases, inl, inr, arith, Text,
}
use reservac_ia.Clock.{ZoneInfo, iso, parse_ts}
use reservac_ia.Model.{Env, Db, Table, Reservation}
use reservac_ia.Model.Payloads.{ReservationCreate}
use reservac_ia.Monad.{State, Result, ok, err, assertion_error}
use reservac_ia.Monad.Leads.{
  Leads, bind-Preserves, gets-Leads, pure-Leads, or_raise-Leads, with_connection-Leads,
}
use reservac_ia.Crud.Lookup.{get_reservation}
use reservac_ia.Crud.Conflict.{resolve_table_for}
use reservac_ia.Crud.Reservations.{
  insert_reservation, new_reservation, add_reservation, code_taken, code_is,
  reservation_constraints,
}
use reservac_ia.Bookings.Frame.{IsStable, announce_created-Leads, generate_unique_code-Leads}
use reservac_ia.Bookings.Placing.{resolve_table_for-Placeable}
use reservac_ia.Bookings.Valid.{IsValid, IsSeated, HasOffset, code_in}
use reservac_ia.Overlap.{Flight, go_on, advance, write_booking, Service, service, Overlaps}

-- Two rows have other ids and other codes.
abbrev pub Differ : Reservation → Reservation → Type 0
Differ a b = (a.id ≢ b.id) × (code_in b.confirmation_code a ≡ false)

-- A valid database, but that bookings of one table may clash.
pub record IsConsistent (zone : ZoneInfo) (tables : List Table) (db : Db) : Type 0 where
  pub differ : Pairwise Differ db.reservations
  pub below : All (λ r. r.id ≤ db.reservation_seq) db.reservations
  pub stamped : All (HasOffset zone) db.reservations
  pub seated : All (IsSeated tables) db.reservations
  pub same_tables : db.tables ≡ tables

Pairwise-imp :
    {R S : Reservation → Reservation → Type 0} (rows : List Reservation)
    → ((a b : Reservation) → R a b → S a b)
    → Pairwise R rows
    → Pairwise S rows
Pairwise-imp [] f h = tt
Pairwise-imp (r ∷ rows) f h = (All-imp _ _ (λ x a. f r x a) rows h.0, Pairwise-imp rows f h.1)

pub IsValid-IsConsistent :
    (zone : ZoneInfo) (db : Db) → IsValid zone db → IsConsistent zone db.tables db
IsValid-IsConsistent zone db v = record {
  differ = Pairwise-imp db.reservations (λ a b h. (h.0, h.2)) v.apart;
  below = v.below;
  stamped = v.stamped;
  seated = v.seated;
  same_tables = refl;
}

module _ (env : Env) (tables : List Table) where
  abbrev Kept : Db → Type 0
  Kept db = IsConsistent env.zone tables db

  Kept-stable : IsStable Kept
  Kept-stable db db' (ts, reservations, seq, table_seq) v = record {
    differ = rw reservations v.differ;
    below = rw (reservations, seq) v.below;
    stamped = rw reservations v.stamped;
    seated = rw reservations v.seated;
    same_tables = ts ∙ v.same_tables;
  }

  -- The table is there and has the seats.
  abbrev Seats : ReservationCreate → ℕ → Type 0
  Seats body i =
      (t : Table) × (find (λ x. x.id == i) tables ≡ some t) × (body.party_size ≤ t.capacity)

  module _ (body : ReservationCreate) (table_id : ℕ) (code : Text)
      (seats : Seats body table_id) where
    abbrev inserted : ℕ → ℕ → Reservation
    inserted now_at seq = new_reservation (suc seq) body table_id code now_at

    add-Kept :
        (now_at : ℕ) (db : Db)
        → Kept db
        → code_taken db code ≡ false
        → Kept (add_reservation (inserted now_at db.reservation_seq) db)
    unfolding parse_ts iso
    add-Kept now_at db v fresh =
        let rows = db.reservations in
        let r = inserted now_at db.reservation_seq in
        record {
          differ = Pairwise-snoc Differ rows r v.differ (
              All-imp _ _ (λ x h. (λ e. let le = h.0 in omega arith, h.1)) rows
                (All-both _ _ rows v.below (any-false (code_is code) rows fresh)));
          below =
              All-snoc (λ x. x.id ≤ suc db.reservation_seq) rows r
                (All-imp _ _ (λ x h. omega arith) rows v.below) (omega arith);
          stamped = All-snoc (HasOffset env.zone) rows r v.stamped refl;
          seated =
              All-snoc (IsSeated tables) rows r v.seated
                (let (t, found, fits) = seats in ground arith);
          same_tables = v.same_tables;
        }

    insert-Leads : Leads Kept Kept (insert_reservation env body table_id code)
    unfolding insert_reservation
    insert-Leads = record {
      run = λ s h. elim (Bool-cases (reservation_constraints s.db body.party_size table_id code)) [
        | inl e ↦ rw e (add-Kept (env.clock s.reads) s.db h (ground arith))
        | inr e ↦ rw e h
      ];
    }

    write_booking-Leads : Leads Kept Kept (write_booking env body table_id code)
    unfolding write_booking
    write_booking-Leads = bind-Preserves _ _ insert-Leads (λ id.
        bind-Preserves _ _ (gets-Leads (λ db. get_reservation db id)) λ found.
          bind-Preserves _ _ (or_raise-Leads assertion_error found) λ row.
            bind-Preserves _ _ (announce_created-Leads env Kept-stable row) (λ _. pure-Leads row))

  -- A table that a request has chosen seats its party.
  abbrev Holds : Flight → Type 0
  Holds (Flight.arrived body) = Unit
  Holds (Flight.placed body table_id) = Seats body table_id
  Holds (Flight.coded body table_id code) = Seats body table_id
  Holds (Flight.answered r) = Unit

  -- Going on with what a step has found.
  go_on-Holds :
      {A : Type 0} (f : A → Flight) (r : Result A) (s : State)
      → ((a : A) → r ≡ ok a → Holds (f a))
      → Kept s.db
      → Holds (go_on f (r, s)).0 × Kept (go_on f (r, s)).1.db
  go_on-Holds f (ok a) s h k = (h a refl, k)
  go_on-Holds f (err e) s h k = (tt, k)

  advance-Holds :
      (f : Flight) (s : State)
      → DistinctIds (λ t. t.id) tables
      → Holds f
      → Kept s.db
      → Holds (advance env f s).0 × Kept (advance env f s).1.db
  unfolding advance
  advance-Holds (Flight.arrived body) s d h k =
      go_on-Holds (Flight.placed body)
        (resolve_table_for env.zone s.db body.table_id (some body.party_size) body.reservation_at
          none)
        s
        (λ i e.
          let p =
            resolve_table_for-Placeable env.zone s.db body.party_size body.reservation_at none
              body.table_id i (subst (DistinctIds (λ t. t.id)) (sym k.same_tables) d) e in
          (p.table, ap (find (λ x. x.id == i)) (sym k.same_tables) ∙ p.found, p.fits))
        k
  advance-Holds (Flight.placed body table_id) s d h k =
      let m = with_connection-Leads {P = Kept} _ (generate_unique_code-Leads env) in
      go_on-Holds (Flight.coded body table_id) _ _ (λ c e. h) (m.run s k)
  advance-Holds (Flight.coded body table_id code) s d h k =
      let m = with_connection-Leads {P = Kept} _ (write_booking-Leads body table_id code h) in
      go_on-Holds (λ out. Flight.answered (ok out)) _ _ (λ c e. tt) (m.run s k)
  advance-Holds (Flight.answered r) s d h k = (tt, k)

All-one :
    (P : Flight → Type 0) (before : List Flight) (f : Flight) (after : List Flight)
    → All P (before ++ f ∷ after)
    → P f
All-one P [] f after h = h.0
All-one P (b ∷ before) f after h = All-one P before f after h.1

All-put :
    (P : Flight → Type 0) (before : List Flight) (f g : Flight) (after : List Flight)
    → All P (before ++ f ∷ after)
    → P g
    → All P (before ++ g ∷ after)
All-put P [] f g after h k = (k, h.1)
All-put P (b ∷ before) f g after h k = (h.0, All-put P before f g after h.1 k)

module _ (env : Env) (start : State) (v : IsValid env.zone start.db) where
  run-Holds :
      (w : Service)
      → Overlaps env start w
      → All (Holds env start.db.tables) w.flights × IsConsistent env.zone start.db.tables w.state.db
  run-Holds _ Overlaps.idle = (tt, IsValid-IsConsistent env.zone start.db v)
  run-Holds _ (Overlaps.arrives w body r) =
      let (h, k) = run-Holds w r in
      (All-snoc (Holds env start.db.tables) w.flights (Flight.arrived body) h tt, k)
  run-Holds _ (Overlaps.moves f s before after r) =
      let (h, k) = run-Holds (service (f, s) before after) r in
      let (g, l) =
        advance-Holds env start.db.tables f s v.distinct
          (All-one (Holds env start.db.tables) before f after h) k in
      (All-put (Holds env start.db.tables) before f (advance env f s).0 after h g, l)

  pub Overlaps-IsConsistent :
      (w : Service) → Overlaps env start w → IsConsistent env.zone start.db.tables w.state.db
  Overlaps-IsConsistent w r = (run-Holds w r).1
