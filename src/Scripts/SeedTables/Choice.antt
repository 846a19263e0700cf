-- ===== src/Scripts/SeedTables/Choice.antt =====
-- The table that a round of scripts/seed_tables.py chooses, and the dict that the rounds start from.
use reservac_ia.Base.{
  ℕ, ◌≤◌, ◌≡◌, refl, ap, ◌∙◌, true, false, ◌&&◌, Option, none, some, List, [], ◌∷◌, map, leb,
  leb→le, ==_refl, select, any-select, All, All-imp, All-select, select_holds, All-order_by,
  All-of-order_by, All-of-select, All-both, order_by, find_self, Bool-cases, inl, inr, arith,
  if◌then◌else◌,
}
use reservac_ia.Clock.{ZoneInfo, DateTime, RawDateTime}
use reservac_ia.Model.{Db, Table, Reservation}
use reservac_ia.Monad.{ok, bind_result}
use reservac_ia.Crud.Lookup.{table_row}
use reservac_ia.Crud.Conflict.{by_capacity, is_booking_of}
use reservac_ia.Bookings.Valid.{IsValid}
use reservac_ia.Scripts.SeedTables.{
  any_near, Usage, times_of, is_assigned, no_use, note_rows, choose, fitting, fitting_le,
}
use reservac_ia.Scripts.SeedTables.Rows.{
  Tracks, TracksAll, taken, near_at, note_rows-TracksAll, times-found,
}

module _ (zone : ZoneInfo) (rows : List Reservation) (usage : List Usage) (at : DateTime) where
  -- What `choose` finds among the tables: each has a booking near the time, or one has none.
  pub data Choice (P : Table → Type 0) (ts : List Table) : Option ℕ → Type 0 where
    none_free : All (λ t. taken zone rows t.id at ≡ true) ts → Choice P ts none
    free_table : (t : Table) → P t → taken zone rows t.id at ≡ false → Choice P ts (some t.id)

  choose-step :
      (t : Table) (ts : List Table)
      → Tracks zone rows usage t.id
      → choose usage (RawDateTime.aware_at at) (t ∷ ts) ≡ (
          if taken zone rows t.id at
          then choose usage (RawDateTime.aware_at at) ts
          else ok (some t.id))
  unfolding choose
  choose-step t ts h =
      ap
        (λ x. bind_result x (λ times.
          bind_result (any_near (RawDateTime.aware_at at) times)
            (λ near. if near then choose usage (RawDateTime.aware_at at) ts else ok (some t.id))))
        (times-found t.id usage h.found)
      ∙ ap
          (λ x.
            bind_result x
              (λ near. if near then choose usage (RawDateTime.aware_at at) ts else ok (some t.id)))
          (h.answers at)

  pub choose-Choice :
      (P : Table → Type 0) (ts : List Table)
      → TracksAll zone rows usage ts
      → All P ts
      → (o : Option ℕ) × (choose usage (RawDateTime.aware_at at) ts ≡ ok o) × Choice P ts o
  unfolding choose
  choose-Choice P [] h k = (none, refl, none_free tt)
  choose-Choice P (t ∷ ts) h k =
      let step = choose-step t ts h.0 in
      elim (Bool-cases (taken zone rows t.id at)) [
        | inr f ↦ (some t.id, step ∙ rw f refl, free_table t k.0 f)
        | inl b ↦ let (o, e, c) = choose-Choice P ts h.1 k.1 in (o, step ∙ rw b e, later t ts b o c)
      ]
    where
      later :
          (t : Table) (ts : List Table)
          → taken zone rows t.id at ≡ true
          → (o : Option ℕ) → Choice P ts o
          → Choice P (t ∷ ts) o
      later t ts b _ (none_free a) = none_free (b, a)
      later t ts b _ (free_table u p f) = free_table u p f

module _ (zone : ZoneInfo) (db : Db) (v : IsValid zone db) where
  -- A table that can take the party of a row.
  abbrev pub Takes : Reservation → Table → Type 0
  Takes r t = (table_row db t.id ≡ some t) × (r.party_size ≤ t.capacity)

  abbrev ordered : List Table
  ordered = order_by by_capacity db.tables

  pub fitting-Takes :
      (usage : List Usage) (r : Reservation) → All (Takes r) (fitting ordered usage r)
  fitting-Takes usage r =
      All-order_by (Takes r) (fitting_le usage) (select (λ t. leb r.party_size t.capacity) ordered)
        (All-imp _ _ (λ t h. (h.0, leb→le _ _ h.1))
          (select (λ t. leb r.party_size t.capacity) ordered)
          (All-both _ _ (select (λ t. leb r.party_size t.capacity) ordered)
            (All-select _ (λ t. leb r.party_size t.capacity) ordered
              (All-order_by _ by_capacity db.tables (find_self (λ t. t.id) db.tables v.distinct)))
            (select_holds (λ t. leb r.party_size t.capacity) ordered)))

  pub fitting-TracksAll :
      (rows : List Reservation) (usage : List Usage) (r : Reservation)
      → TracksAll zone rows usage db.tables
      → TracksAll zone rows usage (fitting ordered usage r)
  fitting-TracksAll rows usage r h =
      All-order_by (λ t. Tracks zone rows usage t.id) (fitting_le usage)
        (select (λ t. leb r.party_size t.capacity) ordered)
        (All-select _ (λ t. leb r.party_size t.capacity) ordered
          (All-order_by _ by_capacity db.tables h))

  -- What holds of every fitting table, for every table of the database that seats the party.
  pub All-of-fitting :
      (P : Table → Type 0) (usage : List Usage) (r : Reservation)
      → All P (fitting ordered usage r)
      → All (λ t. leb r.party_size t.capacity ≡ true → P t) db.tables
  All-of-fitting P usage r h = All-of-order_by _ by_capacity db.tables (
      All-of-select P (λ t. leb r.party_size t.capacity) ordered
        (All-of-order_by P (fitting_le usage) (select (λ t. leb r.party_size t.capacity) ordered)
          h))

  abbrev Unused : List Table → Table → Type 0
  Unused ts u = times_of u.id (map no_use ts) ≡ some []

  Unused-cons : (t u : Table) (ts : List Table) → Unused ts u → Unused (t ∷ ts) u
  Unused-cons t u ts h = ground arith

  all-Unused : (ts : List Table) → All (Unused ts) ts
  all-Unused [] = tt
  all-Unused (t ∷ ts) =
      (rw (==_refl t.id) refl, All-imp _ _ (λ u h. Unused-cons t u ts h) ts (all-Unused ts))

  start-TracksAll : TracksAll zone [] (map no_use ordered) db.tables
  unfolding any_near
  start-TracksAll =
      All-imp _ _ (λ t h. record { times = []; found = h; answers = λ at. refl }) db.tables
        (All-of-order_by (Unused ordered) by_capacity db.tables (all-Unused ordered))

  Tracks-assigned :
      (usage : List Usage) (i : ℕ)
      → Tracks zone (select is_assigned db.reservations) usage i
      → Tracks zone db.reservations usage i
  Tracks-assigned usage i h = record {
    times = h.times;
    found = h.found;
    answers = λ at.
        h.answers at
        ∙ ap ok (
            any-select (λ x. is_booking_of i x && near_at zone at x) is_assigned
              (λ x b. ground arith) db.reservations);
  }

  -- The dict after the loop over the assigned rows.
  pub note_rows-usage :
      (usage : List Usage) × (note_rows (select is_assigned db.reservations) (map no_use ordered)
        ≡ ok usage)
      × TracksAll zone db.reservations usage db.tables
  note_rows-usage =
      let (usage, e, h) =
        note_rows-TracksAll zone db.tables [] (select is_assigned db.reservations)
          (map no_use ordered) (select_holds is_assigned db.reservations)
          (All-select _ is_assigned db.reservations v.stamped)
          (All-select _ is_assigned db.reservations v.seated) start-TracksAll in
      (usage, e, All-imp _ _ (λ t k. Tracks-assigned usage t.id k) db.tables h)
