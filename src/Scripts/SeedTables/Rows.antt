-- ===== src/Scripts/SeedTables/Rows.antt =====
-- What `usage` of scripts/seed_tables.py knows of the rows: the answer to every question for a free
-- table.
use mathlib.Core.List.{append-nil, append_assoc}
use reservac_ia.Base.{
  ℕ, ◌≡◌, refl, sym, ap, ◌∙◌, subst, Bool, true, false, ◌&&◌, ◌||◌, Option, none, some, List, [],
  ◌∷◌, ◌++◌, ltb, ◌==◌, ==_iff, select, find, find-All, find-some, any, any-snoc, All, All-imp,
  Bool-cases, Option-cases, inl, inr, arith,
}
use reservac_ia.Clock.{
  ZoneInfo, DateTime, IsoText, Suffix, RawDateTime, is_local, parse_ts, abs_difference,
}
use reservac_ia.Clock.Laws.{abs_difference_comm}
use reservac_ia.Model.{Db, Table, Reservation}
use reservac_ia.Monad.{ok, err, bind_result, key_error}
use reservac_ia.Crud.Conflict.{conflict_window, is_booking_of, is_near, table_has_conflict}
use reservac_ia.Bookings.Valid.{HasOffset, IsSeated}
use reservac_ia.Scripts.SeedTables.{
  parse_raw, raw_difference, any_near, Usage, times_of, times_or_key_error, append_time, record_use,
  is_assigned, note_at, note_row, note_rows,
}

-- A stored text with an offset reads the same here as in app/crud.py.
pub parse_raw-stamped :
    (zone : ZoneInfo) (r : Reservation)
    → HasOffset zone r
    → parse_raw r.reservation_at ≡ RawDateTime.aware_at (parse_ts zone r.reservation_at)
unfolding parse_raw parse_ts
parse_raw-stamped zone r h = go r.reservation_at.suffix r.reservation_at refl h
  where
    go :
        (x : Suffix) (t : IsoText)
        → t.suffix ≡ x
        → is_local (parse_ts zone t).tz ≡ false
        → parse_raw t ≡ RawDateTime.aware_at (parse_ts zone t)
    go Suffix.naive t e h = absurd (ground arith)
    go Suffix.zulu t e h = rw e refl
    go (Suffix.numeric o) t e h = rw e refl

any_near-snoc :
    (at d : DateTime) (times : List RawDateTime) (b : Bool)
    → any_near (RawDateTime.aware_at at) times ≡ ok b
    → any_near (RawDateTime.aware_at at) (times ++ RawDateTime.aware_at d ∷ [])
      ≡ ok (b || ltb (abs_difference at d) conflict_window)
unfolding any_near raw_difference
any_near-snoc at d [] b e = ground arith
any_near-snoc at d (RawDateTime.naive_at w ∷ times) b e = absurd (cc)
any_near-snoc at d (RawDateTime.aware_at c ∷ times) b e =
    elim (Bool-cases (ltb (abs_difference at c) conflict_window)) [
      | inl t ↦ let k : ok true ≡ ok b = rw t at e in ground arith
      | inr n ↦
          let k : any_near (RawDateTime.aware_at at) times ≡ ok b = rw n at e in
          rw n (any_near-snoc at d times b k)
    ]

-- The dict after an append.
times_of-append :
    (i : ℕ) (at : RawDateTime) (usage : List Usage) {times : List RawDateTime}
    → times_of i usage ≡ some times
    → times_of i (append_time i at usage) ≡ some (times ++ at ∷ [])
times_of-append i at [] e = absurd (cc)
times_of-append i at (u ∷ usage) {times} e =
    ground (arith, times_of-append i at usage {times = times})

times_of-append_ne :
    (i j : ℕ) (at : RawDateTime) (usage : List Usage)
    → (i == j) ≡ false
    → times_of j (append_time i at usage) ≡ times_of j usage
times_of-append_ne i j at [] n = refl
times_of-append_ne i j at (u ∷ usage) n = ground (arith, times_of-append_ne i j at usage n)

pub times-found :
    (i : ℕ) (usage : List Usage) {times : List RawDateTime}
    → times_of i usage ≡ some times
    → times_or_key_error i usage ≡ ok times
times-found i usage e = ap (λ o. elim o [ none ↦ err key_error | some ts ↦ ok ts ]) e

pub record_use-found :
    (i : ℕ) (at : RawDateTime) (usage : List Usage) {times : List RawDateTime}
    → times_of i usage ≡ some times
    → record_use i at usage ≡ ok (append_time i at usage)
unfolding record_use
record_use-found i at usage e =
    ap (λ r. bind_result r (λ _. ok (append_time i at usage))) (times-found i usage e)

module _ (zone : ZoneInfo) where
  abbrev pub near_at : DateTime → Reservation → Bool
  near_at at x = ltb (abs_difference at (parse_ts zone x.reservation_at)) conflict_window

  -- A confirmed reservation of the table near the time.
  abbrev pub taken : List Reservation → ℕ → DateTime → Bool
  taken rows i at = any (λ x. is_booking_of i x && near_at at x) rows

  pub taken-conflict :
      (db : Db) (i : ℕ) (at : DateTime)
      → table_has_conflict zone db i at none ≡ taken db.reservations i at
  unfolding table_has_conflict
  taken-conflict db i at = go db.reservations
    where
      go :
          (rows : List Reservation)
          → any (is_near zone at none) (select (is_booking_of i) rows) ≡ taken rows i at
      go [] = refl
      go (x ∷ rows) =
          ground (arith, go rows, abs_difference_comm (parse_ts zone x.reservation_at) at)

  pub taken-free :
      (db : Db) (i : ℕ) (at : DateTime) (exclude : Option ℕ)
      → taken db.reservations i at ≡ false
      → table_has_conflict zone db i at exclude ≡ false
  unfolding table_has_conflict
  taken-free db i at exclude f = go db.reservations f
    where
      go :
          (rows : List Reservation)
          → taken rows i at ≡ false
          → any (is_near zone at exclude) (select (is_booking_of i) rows) ≡ false
      go [] f = refl
      go (x ∷ rows) f =
          ground (arith, go rows, abs_difference_comm (parse_ts zone x.reservation_at) at)

  -- The dict has the table, and its times answer as the rows do.
  pub record Tracks (rows : List Reservation) (usage : List Usage) (i : ℕ) : Type 0 where
    pub times : List RawDateTime
    pub found : times_of i usage ≡ some times
    pub answers : (at : DateTime) → any_near (RawDateTime.aware_at at) times ≡ ok (taken rows i at)

  abbrev pub TracksAll : List Reservation → List Usage → List Table → Type 0
  TracksAll rows usage tables = All (λ t. Tracks rows usage t.id) tables

  -- A booking of one table at one time is added to the rows and to the dict.
  pub Tracks-append :
      (rows after : List Reservation) (usage : List Usage) (i : ℕ) (d : DateTime)
      → ((j : ℕ) (at : DateTime)
          → taken after j at
            ≡ (taken rows j at || (i == j) && ltb (abs_difference at d) conflict_window))
      → (j : ℕ) → Tracks rows usage j
      → Tracks after (append_time i (RawDateTime.aware_at d) usage) j
  Tracks-append rows after usage i d grows j h = elim (Bool-cases (i == j)) [
    | inl t ↦
        let same : i ≡ j = (==_iff _ _).0 t in
        record {
          times = h.times ++ RawDateTime.aware_at d ∷ [];
          found =
              subst
                (λ k.
                  times_of k (append_time i (RawDateTime.aware_at d) usage)
                  ≡ some (h.times ++ RawDateTime.aware_at d ∷ []))
                same
                (times_of-append i (RawDateTime.aware_at d) usage
                  (subst (λ k. times_of k usage ≡ some h.times) (sym same) h.found));
          answers = λ at.
              any_near-snoc at d h.times (taken rows j at) (h.answers at)
              ∙ ap ok (sym (grows j at ∙ ground arith));
        }
    | inr n ↦ record {
      times = h.times;
      found = times_of-append_ne i j (RawDateTime.aware_at d) usage n ∙ h.found;
      answers = λ at. h.answers at ∙ ap ok (sym (grows j at ∙ ground arith));
    }
  ]

  -- The loop over the assigned rows.
  module _ (tables : List Table) where
    note_row-TracksAll :
        (rows : List Reservation) (usage : List Usage) (r : Reservation)
        → is_assigned r ≡ true
        → HasOffset zone r
        → IsSeated tables r
        → TracksAll rows usage tables
        → (after : List Usage) × (note_row r usage ≡ ok after)
          × TracksAll (rows ++ r ∷ []) after tables
    unfolding record_use
    note_row-TracksAll rows usage r a o seated h = elim (Option-cases r.table_id) [
      | inl e ↦ absurd (ground arith)
      | inr (i, e) ↦
          let at = parse_ts zone r.reservation_at in
          let raw : parse_raw r.reservation_at ≡ RawDateTime.aware_at at =
            parse_raw-stamped zone r o in
          let (t, found) = table i e in
          let named : t.id ≡ i = (==_iff _ _).0 (find-some (λ x. x.id == i) tables found) in
          let entry : Tracks rows usage i =
            subst (Tracks rows usage) named
              (find-All (λ x. Tracks rows usage x.id) (λ x. x.id == i) tables h found) in
          (
            append_time i (RawDateTime.aware_at at) usage,
            ap (λ o. note_at o (parse_raw r.reservation_at) usage) e
                ∙ ap (λ x. note_at (some i) x usage) raw
                ∙ record_use-found i (RawDateTime.aware_at at) usage entry.found,
            All-imp _ _ (λ t. Tracks-append rows (rows ++ r ∷ []) usage i at (grows i e) t.id)
                tables h,
          )
    ]
      where
        table :
            (i : ℕ) → r.table_id ≡ some i → (t : Table) × (find (λ x. x.id == i) tables ≡ some t)
        table i e = elim (Option-cases (find (λ x. x.id == i) tables)) [
          | inl n ↦ absurd (ground arith)
          | inr p ↦ p
        ]

        grows :
            (i : ℕ)
            → r.table_id ≡ some i
            → (j : ℕ) (at : DateTime)
            → taken (rows ++ r ∷ []) j at ≡ (
                taken rows j at
                || (i == j)
                  && ltb (abs_difference at (parse_ts zone r.reservation_at)) conflict_window)
        grows i e j at = any-snoc (λ x. is_booking_of j x && near_at at x) rows r ∙ ground arith

    pub note_rows-TracksAll :
        (rows more : List Reservation) (usage : List Usage)
        → All (λ r. is_assigned r ≡ true) more
        → All (HasOffset zone) more
        → All (IsSeated tables) more
        → TracksAll rows usage tables
        → (after : List Usage) × (note_rows more usage ≡ ok after)
          × TracksAll (rows ++ more) after tables
    unfolding note_rows
    note_rows-TracksAll rows [] usage a o s h = (usage, refl, rw (append-nil rows) h)
    note_rows-TracksAll rows (r ∷ more) usage a o s h =
        let (u, e, k) = note_row-TracksAll rows usage r a.0 o.0 s.0 h in
        let (v, f, l) = note_rows-TracksAll (rows ++ r ∷ []) more u a.1 o.1 s.1 k in
        (v, rw e f, subst (λ l. TracksAll l v tables) (append_assoc rows (r ∷ []) more) l)
