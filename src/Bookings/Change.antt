-- ===== src/Bookings/Change.antt =====
-- The row that `update_reservation` of app/crud.py writes, and the validity of the bookings.
use reservac_ia.Base.{
  ℕ, ◌≤◌, ◌≡◌, refl, false, ◌&&◌, Option, none, some, List, [], ◌∷◌, ◌==◌, All, All-imp,
  All-update_where_keep, Pairwise-put, find-others, find-All, any-select-false, Bool-cases, ◌⊎◌,
  inl, inr, arith,
}
use reservac_ia.Clock.{DateTime, iso, parse_ts}
use reservac_ia.Clock.Laws.{Denotes, iso-Denotes}
use reservac_ia.Model.{Env, Db, Reservation}
use reservac_ia.Model.Payloads.{Field, ReservationUpdate, get_nullable, get_required, is_set}
use reservac_ia.Monad.{bind_result-eq-ok, Result, ok, err}
use reservac_ia.Crud.Lookup.{reservation_row}
use reservac_ia.Crud.Conflict.{table_has_conflict, is_near, is_booking_of, resolve_table_for}
use reservac_ia.Crud.Reservations.{
  changed_row, iso_field, put_reservation, new_time, resolved_table, resolve_change, or_reassign,
  moves,
}
use reservac_ia.Bookings.Placing.{Placeable, resolve_table_for-Placeable, resolve_table_for-none}
use reservac_ia.Bookings.Valid.{IsValid, Apart, Apart-comm, IsSeated, HasOffset, clash_free}

-- The columns of a changed row.
pub record Changed (existing : Reservation) (body : ReservationUpdate) (table_id : Field ℕ)
    (row : Reservation) : Type 0 where
  pub id : row.id ≡ existing.id
  pub status : row.status ≡ existing.status
  pub code : row.confirmation_code ≡ existing.confirmation_code
  pub table : row.table_id ≡ get_nullable table_id existing.table_id
  pub at : row.reservation_at ≡ iso_field body.reservation_at existing.reservation_at
  pub party : get_required body.party_size existing.party_size ≡ some row.party_size

pub changed_row-Changed :
    (existing : Reservation) (body : ReservationUpdate) (table_id : Field ℕ) (now_at : ℕ)
    (row : Reservation)
    → changed_row existing body table_id now_at ≡ some row
    → Changed existing body table_id row
unfolding changed_row
changed_row-Changed existing body table_id now_at row e = record {
  id = ground arith;
  status = ground arith;
  code = ground arith;
  table = ground arith;
  at = ground arith;
  party = ground arith;
}

-- A successful reassignment is one of the two attempts.
or_reassign_cases :
    (f : Option ℕ → Result ℕ) (requested : Option ℕ) {t : ℕ}
    → or_reassign (f requested) (f none) ≡ ok t
    → (r : Option ℕ) × (f r ≡ ok t)
or_reassign_cases f requested {t} h = go (f requested) refl
  where
    go : (first : Result ℕ) → f requested ≡ first → (r : Option ℕ) × (f r ≡ ok t)
    go (ok u) e = (requested, ground arith)
    go (err x) e = (none, ground arith)

module _ (env : Env) (db : Db) (i : ℕ) (existing : Reservation) (body : ReservationUpdate)
    (valid : IsValid env.zone db) (found : reservation_row db i ≡ some existing) where
  -- The new time, and what it says of the stored text.
  new_time-Denotes :
      (row : Reservation) (table_id : Field ℕ) (at : DateTime)
      → Changed existing body table_id row
      → new_time env existing body.reservation_at ≡ ok at
      → Denotes env.zone row.reservation_at at
  unfolding new_time
  new_time-Denotes row table_id at c e x h = ground (arith, iso-Denotes env.zone at x h)

  row-HasOffset :
      (row : Reservation) (table_id : Field ℕ)
      → Changed existing body table_id row
      → HasOffset env.zone row
  unfolding parse_ts iso
  row-HasOffset row table_id c =
      ground (arith, find-All (HasOffset env.zone) _ db.reservations valid.stamped found)

  -- A change without move: the row stands where it stood.
  unmoved-Apart :
      (row y : Reservation)
      → Changed existing body body.table_id row
      → moves body ≡ false
      → Apart env.zone existing y
      → Apart env.zone row y
  unmoved-Apart row y c m h =
      (ground (arith, h.0), ground (arith, h.1, c.status), ground (arith, c.code, h.2))

  -- A moved row has no conflict near its new time.
  moved-Apart :
      (row y : Reservation) (table_id : ℕ) (at : DateTime)
      → Changed existing body (Field.value table_id) row
      → Denotes env.zone row.reservation_at at
      → HasOffset env.zone y
      → (y.id == i) ≡ false
      → (is_booking_of table_id y && is_near env.zone at (some i) y) ≡ false
      → Apart env.zone existing y
      → Apart env.zone row y
  moved-Apart row y table_id at c d h other f apart =
      let (ids, _, codes) = Apart-comm env.zone existing y apart in
      Apart-comm env.zone y row (
        ground (arith, ids),
        clash_free env.zone table_id at (some i) y row d h c.table (ground arith) f,
        ground (arith, codes, c.code),
      )

  moved-All :
      (row : Reservation) (table_id : ℕ) (at : DateTime)
      → Changed existing body (Field.value table_id) row
      → Denotes env.zone row.reservation_at at
      → (ys : List Reservation) → All (HasOffset env.zone) ys
      → All (λ y. (is_booking_of table_id y && is_near env.zone at (some i) y) ≡ false) ys
      → All (λ y. (y.id == i) ≡ false → Apart env.zone existing y) ys
      → All (λ y. (y.id == i) ≡ false → Apart env.zone row y) ys
  moved-All row table_id at c d [] h f a = tt
  moved-All row table_id at c d (y ∷ ys) h f a = (
    λ other. moved-Apart row y table_id at c d h.0 other f.0 (a.0 other),
    moved-All row table_id at c d ys h.1 f.1 a.1,
  )

  -- The row in the place of the old one.
  put-IsValid :
      (row : Reservation) (table_id : Field ℕ)
      → Changed existing body table_id row
      → All (λ y. (y.id == i) ≡ false → Apart env.zone row y) db.reservations
      → IsSeated db.tables row
      → IsValid env.zone (put_reservation i row db)
  put-IsValid row table_id c apart seated = record {
    apart =
        Pairwise-put (Apart env.zone) (λ x. x.id == i) row (Apart-comm env.zone)
          (λ x y p q h. ground (arith, h.0)) db.reservations valid.apart apart;
    below =
        all (λ r. r.id ≤ db.reservation_seq)
          (ground
            (arith, find-All (λ r. r.id ≤ db.reservation_seq) _ db.reservations valid.below found))
          valid.below;
    stamped = all (HasOffset env.zone) (row-HasOffset row table_id c) valid.stamped;
    seated = all (IsSeated db.tables) seated valid.seated;
    distinct = valid.distinct;
    tables_below = valid.tables_below;
  }
    where
      all :
          (P : Reservation → Type 0)
          → P row
          → All P db.reservations
          → All P (put_reservation i row db).reservations
      all P p h = All-update_where_keep P (λ x. x.id == i) (λ _. row) db.reservations (λ _ _. p) h

  others : All (λ y. (y.id == i) ≡ false → Apart env.zone existing y) db.reservations
  others =
      find-others (Apart env.zone) (Apart-comm env.zone) (λ x. x.id == i) db.reservations existing
        valid.apart found

  pub unmoved-IsValid :
      (row : Reservation)
      → Changed existing body body.table_id row
      → moves body ≡ false
      → IsValid env.zone (put_reservation i row db)
  unmoved-IsValid row c m =
      put-IsValid row body.table_id c
        (All-imp _ _ (λ y h n. unmoved-Apart row y c m (h n)) db.reservations others)
        (ground (arith, find-All (IsSeated db.tables) _ db.reservations valid.seated found))

  pub moved-IsValid :
      (row : Reservation) (table_id : ℕ) (at : DateTime)
      → Changed existing body (Field.value table_id) row
      → new_time env existing body.reservation_at ≡ ok at
      → Placeable env.zone db row.party_size at (some i) table_id
      → IsValid env.zone (put_reservation i row db)
  unfolding table_has_conflict
  moved-IsValid row table_id at c e p =
      put-IsValid row (Field.value table_id) c
        (moved-All row table_id at c (new_time-Denotes row (Field.value table_id) at c e)
          db.reservations valid.stamped
          (any-select-false (is_near env.zone at (some i)) (is_booking_of table_id) db.reservations
            p.free)
          others)
        (ground (arith, c.table, p.found, p.fits))

  -- What the choice of a table for a change has established.
  abbrev pub Resolved : DateTime → Field ℕ → Type 0
  Resolved at table_id =
      (moves body ≡ false) × (table_id ≡ body.table_id)
      ⊎ ((t : ℕ) × (p : ℕ) × (table_id ≡ Field.value t)
          × (get_nullable body.party_size (some existing.party_size) ≡ some p)
          × Placeable env.zone db p at (some i) t)

  resolve_party :
      (requested party : Option ℕ) (at : DateTime) (t : ℕ)
      → resolve_table_for env.zone db requested party at (some i) ≡ ok t
      → (p : ℕ) × (party ≡ some p) × Placeable env.zone db p at (some i) t
  resolve_party requested none at t h =
      absurd (resolve_table_for-none env.zone db at (some i) requested t h)
  resolve_party requested (some p) at t h =
      (p, refl, resolve_table_for-Placeable env.zone db p at (some i) requested t valid.distinct h)

  resolve_change_cases :
      (at : DateTime) (t : ℕ)
      → resolve_change env db i existing body at ≡ ok t
      → (requested : Option ℕ) × (resolve_table_for env.zone db requested
            (get_nullable body.party_size (some existing.party_size))
            at
            (some i)
          ≡ ok t)
  unfolding resolve_change
  resolve_change_cases at t h = elim (Bool-cases (is_set body.table_id)) [
    | inl e ↦ (get_nullable body.table_id existing.table_id, ground arith)
    | inr e ↦
        or_reassign_cases
          (λ r.
            resolve_table_for env.zone db r
              (get_nullable body.party_size (some existing.party_size)) at (some i))
          (get_nullable body.table_id existing.table_id) (rw e at h)
  ]

  pub resolved_table-Resolved :
      (at : DateTime) (table_id : Field ℕ)
      → resolved_table env db i existing body at ≡ ok table_id
      → Resolved at table_id
  unfolding resolved_table
  resolved_table-Resolved at table_id h = elim (Bool-cases (moves body)) [
    | inl m ↦
        let (t, e, q) =
          bind_result-eq-ok (resolve_change env db i existing body at) (λ t. ok (Field.value t))
            (rw m at h) in
        let (r, e') = resolve_change_cases at t e in
        let (p, party, placed) =
          resolve_party r (get_nullable body.party_size (some existing.party_size)) at t e' in
        inr (t, p, cc, party, placed)
    | inr m ↦ inl (m, ground arith)
  ]
