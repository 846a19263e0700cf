-- ===== src/Bookings/Headline.antt =====
-- What validity says of any two rows of a reachable database (app/crud.py, app/routers).
use reservac_ia.Base.{
  ℕ, ◌≤◌, ◌≡◌, ◌≢◌, refl, true, false, Option, none, some, ◌==◌, ==_iff, Bool-cases, Option-cases,
  inl, inr, find-some, find-All, find-others, arith, Text, text_eq_refl,
}
use reservac_ia.Clock.{ZoneInfo, parse_ts, abs_difference}
use reservac_ia.Model.{Env, Db, Table, Reservation}
use reservac_ia.Monad.{State}
use reservac_ia.Crud.Lookup.{reservation_row, table_row}
use reservac_ia.Crud.Conflict.{conflict_window, is_booking_of}
use reservac_ia.Bookings.Valid.{IsValid, Apart, Apart-comm, clash, is_seated_at, IsSeated}
use reservac_ia.Bookings.Reach.{Reach, Reach-IsValid}

-- Two rows under different ids stand apart.
IsValid-Apart :
    (zone : ZoneInfo) (db : Db) (i j : ℕ) (a b : Reservation)
    → IsValid zone db
    → reservation_row db i ≡ some a
    → reservation_row db j ≡ some b
    → i ≢ j
    → Apart zone a b
IsValid-Apart zone db i j a b v e f n =
    find-All (λ y. (y.id == i) ≡ false → Apart zone a y) (λ y. y.id == j) db.reservations {x = b}
      (find-others (Apart zone) (Apart-comm zone) (λ y. y.id == i) db.reservations a v.apart e) f
      other
  where
    b_id : b.id ≡ j
    b_id = (==_iff _ _).0 (find-some (λ y. y.id == j) db.reservations {x = b} f)

    other : (b.id == i) ≡ false
    other = elim (Bool-cases (b.id == i)) [
      | inl t ↦ let same : b.id ≡ i = (==_iff _ _).0 t in absurd (n (omega (arith, same, b_id)))
      | inr q ↦ q
    ]

-- Two bookings of one table under different ids are two hours apart.
pub IsValid-distance :
    (zone : ZoneInfo) (db : Db) (i j table_id : ℕ) (a b : Reservation)
    → IsValid zone db
    → reservation_row db i ≡ some a
    → reservation_row db j ≡ some b
    → i ≢ j
    → is_booking_of table_id a ≡ true
    → is_booking_of table_id b ≡ true
    → conflict_window
      ≤ abs_difference (parse_ts zone a.reservation_at) (parse_ts zone b.reservation_at)
IsValid-distance zone db i j table_id a b v e f n p q =
    let apart = IsValid-Apart zone db i j a b v e f n in distance b.table_id refl apart.1
  where
    distance :
        (o : Option ℕ)
        → b.table_id ≡ o
        → clash zone a b ≡ false
        → conflict_window
          ≤ abs_difference (parse_ts zone a.reservation_at) (parse_ts zone b.reservation_at)
    distance none g h = absurd (ground arith)
    distance (some t) g h = ground arith

module _ (env : Env) (s : State) (reach : Reach env s) where
  -- In every database that a run of requests to the routes for rooms, tables and reservations
  -- makes of the empty one, whatever each request answers, two different confirmed reservations of
  -- the same table are at least two hours apart.
  pub no_double_booking :
      (i j table_id : ℕ) (a b : Reservation)
      → reservation_row s.db i ≡ some a
      → reservation_row s.db j ≡ some b
      → i ≢ j
      → is_booking_of table_id a ≡ true
      → is_booking_of table_id b ≡ true
      → conflict_window
        ≤ abs_difference (parse_ts env.zone a.reservation_at) (parse_ts env.zone b.reservation_at)
  no_double_booking i j table_id a b =
      IsValid-distance env.zone s.db i j table_id a b (Reach-IsValid env s reach)

  -- In every such reachable database two different reservations that have confirmation codes have
  -- different ones.
  pub codes_differ :
      (i j : ℕ) (a b : Reservation) (c d : Text)
      → reservation_row s.db i ≡ some a
      → reservation_row s.db j ≡ some b
      → i ≢ j
      → a.confirmation_code ≡ some c
      → b.confirmation_code ≡ some d
      → c ≢ d
  codes_differ i j a b c d e f n p q same =
      let apart = IsValid-Apart env.zone s.db i j a b (Reach-IsValid env s reach) e f n in
      ground (arith, apart.2, text_eq_refl c)

  -- In every such reachable database the table of a confirmed reservation exists and has at least
  -- as many seats as the party has guests.
  pub party_seated :
      (i table_id : ℕ) (a : Reservation)
      → reservation_row s.db i ≡ some a
      → is_booking_of table_id a ≡ true
      → (t : Table) × (table_row s.db table_id ≡ some t) × (a.party_size ≤ t.capacity)
  party_seated i table_id a e p =
      let v = Reach-IsValid env s reach in
      let seated =
        find-All (IsSeated s.db.tables) (λ y. y.id == i) s.db.reservations {x = a} v.seated e in
      go a.table_id refl seated
    where
      go :
          (o : Option ℕ)
          → a.table_id ≡ o
          → is_seated_at s.db.tables o a ≡ true
          → (t : Table) × (table_row s.db table_id ≡ some t) × (a.party_size ≤ t.capacity)
      go none g h = absurd (ground arith)
      go (some j) g h =
          let same : j ≡ table_id = ground arith in
          elim (Option-cases (table_row s.db table_id)) [
            | inl m ↦ absurd (ground arith)
            | inr (t, m) ↦ (t, m, ground arith)
          ]
