-- ===== src/Scripts/SeedTables/Rounds.antt =====
-- The rounds of `backfill_assignments` of scripts/seed_tables.py, and the validity of the bookings.
use reservac_ia.Base.{
  ℕ, suc, ◌≡◌, refl, sym, ap, ◌∙◌, subst, true, false, ◌&&◌, ◌||◌, ◌⊎◌, inl, inr, none, some, List,
  ◌∷◌, leb, ltb, ◌==◌, ==_iff, find_self, any, any-update, count_where, count-update,
  update-constant, find-update_ne, All, All-imp, All-both, All-update_where_split, DistinctIds,
  Bool-cases, arith,
}
use reservac_ia.Clock.{DateTime, RawDateTime, parse_ts, abs_difference}
use reservac_ia.Model.{Env, Db, Table, Reservation}
use reservac_ia.Model.Payloads.{Field, ReservationUpdate}
use reservac_ia.Crud.Lookup.{reservation_row}
use reservac_ia.Crud.Conflict.{conflict_window, is_booking_of}
use reservac_ia.Crud.Reservations.{put_reservation, new_time}
use reservac_ia.Bookings.Valid.{IsValid, valid-DistinctIds}
use reservac_ia.Bookings.Placing.{Placeable}
use reservac_ia.Bookings.Change.{Changed, moved-IsValid}
use reservac_ia.Scripts.SeedTables.{Usage, append_time, is_unassigned, set_table, assign_table}
use reservac_ia.Scripts.SeedTables.Rows.{TracksAll, Tracks-append, taken, taken-free, near_at}
use reservac_ia.Scripts.SeedTables.Choice.{Takes}

-- The UPDATE as a change of the one field.
abbrev table_only : ℕ → ReservationUpdate
table_only i = record {
  verify_phone = none;
  phone = Field.unset;
  customer_name = Field.unset;
  party_size = Field.unset;
  reservation_at = Field.unset;
  notes = Field.unset;
  table_id = Field.value i;
}

abbrev Listed : List Reservation → Reservation → Type 0
Listed rest x = any (λ r. r.id == x.id) rest ≡ true

module _ (env : Env) where
  -- Every table that seats the party has a booking near the time.
  abbrev pub Blocked : Db → Reservation → Type 0
  Blocked db x =
      All
        (λ t.
          leb x.party_size t.capacity ≡ true
          → taken env.zone db.reservations t.id (parse_ts env.zone x.reservation_at) ≡ true)
        db.tables

  abbrev Waits : Db → Reservation → Type 0
  Waits db r = (reservation_row db r.id ≡ some r) × (is_unassigned r ≡ true)

  -- Before each round, with the rows still to come.
  pub record Inv (rest : List Reservation) (usage : List Usage) (db : Db) : Type 0 where
    pub valid : IsValid env.zone db
    pub tracks : TracksAll env.zone db.reservations usage db.tables
    pub waiting : All (Waits db) rest
    pub distinct : DistinctIds (λ r. r.id) rest
    pub left : All (λ x. is_unassigned x ≡ true → Listed rest x ⊎ Blocked db x) db.reservations

  -- A row of the table is the row that its id finds.
  module _ (db : Db) (v : IsValid env.zone db) where
    pub rows_found : All (λ x. reservation_row db x.id ≡ some x) db.reservations
    rows_found =
        find_self (λ r. r.id) db.reservations (valid-DistinctIds env.zone db.reservations v.apart)

  module _ (r : Reservation) (rest : List Reservation) (usage : List Usage) (db : Db)
      (inv : Inv (r ∷ rest) usage db) where
    -- A round that finds no table.
    pub skip-Inv : Blocked db r → Inv rest usage db
    skip-Inv b = record {
      valid = inv.valid;
      tracks = inv.tracks;
      waiting = inv.waiting.1;
      distinct = inv.distinct.1;
      left =
          All-imp _ _ (λ x h. still x h.0 h.1) db.reservations
            (All-both _ _ db.reservations (rows_found db inv.valid) inv.left);
    }
      where
        still :
            (x : Reservation)
            → reservation_row db x.id ≡ some x
            → (is_unassigned x ≡ true → Listed (r ∷ rest) x ⊎ Blocked db x)
            → is_unassigned x ≡ true
            → Listed rest x ⊎ Blocked db x
        still x e h u = elim (Bool-cases (r.id == x.id)) [
          | inl t ↦
              let id : r.id ≡ x.id = (==_iff _ _).0 t in
              let found : some r ≡ some x = sym inv.waiting.0.0 ∙ ap (reservation_row db) id ∙ e in
              let same : r ≡ x = cc in inr (subst (Blocked db) same b)
          | inr n ↦ elim (h u) [ inl l ↦ inl (rw n at l) | inr k ↦ inr k ]
        ]

    -- A round that places the row at a free table.
    module _ (t : Table) (takes : Takes env.zone db inv.valid r t)
        (free : taken env.zone db.reservations t.id (parse_ts env.zone r.reservation_at) ≡ false)
        (now_at : ℕ) where
      abbrev after : Db
      after = assign_table r.id t.id now_at db

      abbrev at : DateTime
      at = parse_ts env.zone r.reservation_at

      ids : DistinctIds (λ x. x.id) db.reservations
      ids = valid-DistinctIds env.zone db.reservations inv.valid.apart

      grows :
          (j : ℕ) (d : DateTime)
          → taken env.zone after.reservations j d ≡ (
              taken env.zone db.reservations j d
              || (t.id == j) && ltb (abs_difference d at) conflict_window)
      grows j d =
          any-update (λ x. x.id) r.id (set_table t.id now_at) r
            (λ x. is_booking_of j x && near_at env.zone d x) db.reservations ids inv.waiting.0.0
            (let u = inv.waiting.0.1 in ground arith)
          ∙ (let u = inv.waiting.0.1 in ground arith)

      constant : put_reservation r.id (set_table t.id now_at r) db ≡ after
      constant =
          ap (λ rows. record db { reservations = rows })
            (sym (
              update-constant (λ x. x.id) r.id (set_table t.id now_at) r db.reservations ids
                inv.waiting.0.0))

      changed : Changed r (table_only t.id) (Field.value t.id) (set_table t.id now_at r)
      changed = record {
        id = refl;
        status = refl;
        code = refl;
        table = refl;
        at = refl;
        party = refl;
      }

      placeable : Placeable env.zone db r.party_size at (some r.id) t.id
      placeable = record {
        table = t;
        found = takes.0;
        fits = takes.1;
        free = taken-free env.zone db t.id at (some r.id) free;
      }

      after-IsValid : IsValid env.zone after
      unfolding new_time
      after-IsValid = subst (IsValid env.zone) constant (
          moved-IsValid env db r.id r (table_only t.id) inv.valid inv.waiting.0.0
            (set_table t.id now_at r) t.id at changed refl placeable)

      Blocked-after : (x : Reservation) → Blocked db x → Blocked after x
      Blocked-after x h =
          All-imp _ _
            (λ u b l.
              grows u.id (parse_ts env.zone x.reservation_at) ∙ (let k = b l in ground arith))
            db.tables h

      pub place-Inv : Inv rest (append_time t.id (RawDateTime.aware_at at) usage) after
      place-Inv = record {
        valid = after-IsValid;
        tracks =
            All-imp _ _
              (λ u.
                Tracks-append env.zone db.reservations after.reservations usage t.id at grows u.id)
              db.tables inv.tracks;
        waiting =
            All-imp _ _
              (λ q h. (
                find-update_ne (λ x. x.id) r.id (set_table t.id now_at) q.id (λ x. refl) h.1
                      db.reservations
                    ∙ h.0.0,
                h.0.1,
              ))
              rest (All-both _ _ rest inv.waiting.1 inv.distinct.0);
        distinct = inv.distinct.1;
        left =
            All-update_where_split _ (λ x. x.id == r.id) (set_table t.id now_at) db.reservations
              (All-imp _ _ (λ x _ _ u. absurd (ground arith)) db.reservations inv.left)
              (All-imp _ _ (λ x h n u. moved x (h u) n) db.reservations inv.left);
      }
        where
          moved :
              (x : Reservation)
              → Listed (r ∷ rest) x ⊎ Blocked db x
              → (x.id == r.id) ≡ false
              → Listed rest x ⊎ Blocked after x
          moved x (inl l) n = inl (ground arith)
          moved x (inr b) n = inr (Blocked-after x b)

      pub place-count :
          suc (count_where is_unassigned after.reservations)
          ≡ count_where is_unassigned db.reservations
      place-count =
          count-update (λ x. x.id) r.id (set_table t.id now_at) r is_unassigned db.reservations ids
            inv.waiting.0.0 inv.waiting.0.1 (ground arith)
