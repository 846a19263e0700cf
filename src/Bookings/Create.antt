-- ===== src/Bookings/Create.antt =====
-- `create_reservation` of app/crud.py, and the validity of the bookings.
use reservac_ia.Base.{
  ℕ, suc, ◌≤◌, ◌≡◌, refl, false, ◌&&◌, none, List, [], ◌∷◌, Text, All, All-snoc, All-imp,
  Pairwise-snoc, any-false, any-select-false, Bool-cases, inl, inr, arith,
}
use reservac_ia.Clock.{iso, parse_ts}
use reservac_ia.Clock.Laws.{iso-Denotes}
use reservac_ia.Model.{Env, Db, Reservation}
use reservac_ia.Model.Payloads.{ReservationCreate}
use reservac_ia.Monad.{State, pure, gets, or_raise, assertion_error, ◌>>=◌, ◌>>◌}
use reservac_ia.Monad.Leads.{
  Leads, bind-Leads, bind-Preserves, query-Leads, gets-Leads, pure-Leads, or_raise-Leads,
}
use reservac_ia.Crud.Lookup.{get_reservation}
use reservac_ia.Crud.Conflict.{table_has_conflict, is_near, is_booking_of}
use reservac_ia.Crud.Reservations.{
  create_reservation, book, announce_created, insert_reservation, new_reservation, add_reservation,
  code_taken, code_is, reservation_constraints,
}
use reservac_ia.Bookings.Frame.{IsStable, announce_created-Leads, generate_unique_code-Leads}
use reservac_ia.Bookings.Placing.{Placeable, resolve_table_for-Placeable}
use reservac_ia.Bookings.Valid.{IsValid, IsValid-stable, Apart, IsSeated, HasOffset, clash_free}

module _ (env : Env) (body : ReservationCreate) where
  -- A valid database in which the chosen table can take the request.
  abbrev CanBook : ℕ → Db → Type 0
  CanBook table_id db =
      IsValid env.zone db × Placeable env.zone db body.party_size body.reservation_at none table_id

  CanBook-stable : (table_id : ℕ) → IsStable (CanBook table_id)
  unfolding table_has_conflict
  CanBook-stable table_id db db' k (v, p) = (
    IsValid-stable env.zone db db' k v,
    record {
      table = p.table;
      found = rw k.0 p.found;
      fits = p.fits;
      free = rw (k.1, table_has_conflict) p.free;
    },
  )

  Apart-new :
      (table_id now_at seq : ℕ) (code : Text) (xs : List Reservation)
      → All (λ x. x.id ≤ seq) xs
      → All (HasOffset env.zone) xs
      → All
          (λ x. (is_booking_of table_id x && is_near env.zone body.reservation_at none x) ≡ false)
          xs
      → All (λ x. code_is code x ≡ false) xs
      → All (λ x. Apart env.zone x (new_reservation (suc seq) body table_id code now_at)) xs
  Apart-new table_id now_at seq code [] b s n c = tt
  Apart-new table_id now_at seq code (x ∷ xs) b s n c = (
    (
      λ e. omega arith,
      clash_free env.zone table_id body.reservation_at none x
          (new_reservation (suc seq) body table_id code now_at)
          (iso-Denotes env.zone body.reservation_at) s.0 refl refl n.0,
      c.0,
    ),
    Apart-new table_id now_at seq code xs b.1 s.1 n.1 c.1,
  )

  module _ (table_id : ℕ) (code : Text) where
    abbrev inserted : ℕ → ℕ → Reservation
    inserted now_at seq = new_reservation (suc seq) body table_id code now_at

    add_reservation-IsValid :
        (now_at : ℕ) (db : Db)
        → CanBook table_id db
        → code_taken db code ≡ false
        → IsValid env.zone (add_reservation (inserted now_at db.reservation_seq) db)
    unfolding table_has_conflict parse_ts iso
    add_reservation-IsValid now_at db (v, p) fresh = record {
      apart =
          Pairwise-snoc (Apart env.zone) db.reservations (inserted now_at db.reservation_seq)
            v.apart
            (Apart-new table_id now_at db.reservation_seq code db.reservations v.below v.stamped
              (any-select-false (is_near env.zone body.reservation_at none) (is_booking_of table_id)
                db.reservations p.free)
              (any-false (code_is code) db.reservations fresh));
      below =
          All-snoc (λ r. r.id ≤ suc db.reservation_seq) db.reservations
            (inserted now_at db.reservation_seq)
            (All-imp _ _ (λ r h. omega arith) db.reservations v.below) (omega arith);
      stamped =
          All-snoc (HasOffset env.zone) db.reservations (inserted now_at db.reservation_seq)
            v.stamped refl;
      seated =
          All-snoc (IsSeated db.tables) db.reservations (inserted now_at db.reservation_seq)
            v.seated (ground (arith, p.found, p.fits));
      distinct = v.distinct;
      tables_below = v.tables_below;
    }

    insert_reservation-Leads :
        Leads (CanBook table_id) (IsValid env.zone) (insert_reservation env body table_id code)
    unfolding insert_reservation
    insert_reservation-Leads = record {
      run = λ s h. elim (Bool-cases (reservation_constraints s.db body.party_size table_id code)) [
        | inl e ↦ rw e (add_reservation-IsValid (env.clock s.reads) s.db h (ground arith))
        | inr e ↦ rw e h.0
      ];
    }

    pub finish-Leads : Leads (CanBook table_id) (IsValid env.zone) (
        insert_reservation env body table_id code >>= λ id.
        gets (λ db. get_reservation db id) >>= λ found.
        or_raise assertion_error found >>= λ row. announce_created env row >> pure row)
    finish-Leads =
        bind-Leads _ _ insert_reservation-Leads
          (λ id. bind-Preserves _ _ (gets-Leads (λ db. get_reservation db id)) λ found.
            bind-Preserves _ _ (or_raise-Leads assertion_error found) λ row.
              bind-Preserves _ _ (announce_created-Leads env (IsValid-stable env.zone) row)
                (λ _. pure-Leads row))
          (λ db v. v)

  book-Leads : (table_id : ℕ) → Leads (CanBook table_id) (IsValid env.zone) (book env body table_id)
  unfolding book
  book-Leads table_id =
      bind-Leads _ _ (generate_unique_code-Leads env) (finish-Leads table_id) (λ db h. h.0)

  create_reservation-Leads :
      Leads (IsValid env.zone) (IsValid env.zone) (create_reservation env body)
  unfolding create_reservation
  create_reservation-Leads =
      query-Leads _ (book env body)
        (λ s table_id v e. (book-Leads table_id).run s (
          v,
          resolve_table_for-Placeable env.zone s.db body.party_size body.reservation_at none
              body.table_id table_id v.distinct e,
        ))
        (λ db v. v)

-- Creating a reservation, whatever it answers, keeps the bookings valid.
pub create_reservation-IsValid :
    (env : Env) (body : ReservationCreate) (s : State)
    → IsValid env.zone s.db
    → IsValid env.zone (create_reservation env body s).1.db
create_reservation-IsValid env body s v = (create_reservation-Leads env body).run s v
