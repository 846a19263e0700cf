-- ===== src/Scripts/SeedRooms/Laws.antt =====
-- What scripts/seed_rooms.py leaves, and its second run.
use reservac_ia.Base.{
  ℕ, ◌+◌, ◌<◌, ◌≡◌, refl, sym, ap, ◌∙◌, subst, true, false, some, is_some, List, [], length,
  count_where, select, select_holds, find_self, ltb, All, All-imp, All-select, All-both, ◌⊎◌, inl,
  inr, Option-cases, codes, arith,
}
use reservac_ia.Model.{Env, Db, Room}
use reservac_ia.Monad.{State, Action, ok, pure, ◌>>=◌}
use reservac_ia.Monad.Succeeds.{Succeeds, bind-Succeeds, weaken-Succeeds, same-Succeeds}
use reservac_ia.Crud.Lookup.{table_row}
use reservac_ia.Bookings.Valid.{IsValid, IsValid-stable}
use reservac_ia.Scripts.SeedRooms.{
  room_rows, room_id_by_name, insert_room, insert_rooms, ensure_rooms, range_plan, plan,
  assign_rows, assign_tables, seed_rooms,
}
use reservac_ia.Scripts.SeedRooms.Rounds.{
  Rooms, Covered, Assigned, is_roomless, assign_rows-Succeeds, assign_rows-Covered,
}

-- The rooms that the plan names are there.
abbrev pub IsFurnished : List Room → Type 0
IsFurnished rooms =
    (0 < length rooms) × All (λ row. is_some (room_id_by_name rooms row.0) ≡ true) room_rows

-- The ids of the tables that the plan gives a room.
abbrev pub planned : List (ℕ × ℕ)
planned = plan 0 0 0 0

-- What the script promises: the bookings stay valid, every table of the plan has a room, those that
-- had one are as they were, and the counts are of the tables that got a room and of the others.
pub record Furnished (env : Env) (before : Db) (counts : ℕ × ℕ) (after : Db) : Type 0 where
  pub valid : IsValid env.zone after
  pub furnished : IsFurnished after.rooms
  pub covered : All (Covered after) planned
  pub kept :
      All (λ t. table_row after t.id ≡ some t) (select (λ t. is_some t.room_id) before.tables)
  pub counted :
      counts.0 + count_where is_roomless after.tables ≡ count_where is_roomless before.tables
  pub sum : counts.0 + counts.1 ≡ 50

module _ (env : Env) where
  planned-any : (a b c d : ℕ) (db : Db) → All (Covered db) (plan a b c d) → All (Covered db) planned
  unfolding plan range_plan
  planned-any a b c d db h = h

  planned-all : (a b c d : ℕ) (db : Db) → All (Covered db) planned → All (Covered db) (plan a b c d)
  unfolding plan range_plan
  planned-all a b c d db h = h

  plan-length : (a b c d : ℕ) → length (plan a b c d) ≡ 50
  unfolding plan range_plan
  plan-length a b c d = refl

  -- With the rooms there, the loop over the plan.
  planned_run :
      (s : State)
      → IsFurnished s.db.rooms
      → (a : ℕ) × (b : ℕ) × (c : ℕ) × (d : ℕ) × (assign_tables s ≡ assign_rows (plan a b c d) 0 0 s)
  unfolding assign_tables
  planned_run s (some_room, (bar, (booths, (one, (two, _))))) =
      elim (Option-cases (room_id_by_name s.db.rooms (codes "Bar"))) [
        | inl e ↦ absurd (ground arith)
        | inr (a, ea) ↦ elim (Option-cases (room_id_by_name s.db.rooms (codes "Booths"))) [
          | inl e ↦ absurd (ground arith)
          | inr (b, eb) ↦ elim (Option-cases (room_id_by_name s.db.rooms (codes "Dining Room 1"))) [
            | inl e ↦ absurd (ground arith)
            | inr (c, ec) ↦
                elim (Option-cases (room_id_by_name s.db.rooms (codes "Dining Room 2"))) [
                  | inl e ↦ absurd (ground arith)
                  | inr (d, ed) ↦ (a, b, c, d, rw (ea, eb, ec, ed) refl)
                ]
          ]
        ]
      ]

  -- The four rooms, in a database without rooms.
  abbrev Furnishes : State → ℕ → State → Type 0
  Furnishes s n t =
      (t.db.tables ≡ s.db.tables)
      × (t.db.reservations ≡ s.db.reservations)
      × (t.db.reservation_seq ≡ s.db.reservation_seq)
      × (t.db.table_seq ≡ s.db.table_seq)
      × IsFurnished t.db.rooms

  insert_rooms-Succeeds :
      (s : State)
      → s.db.rooms ≡ []
      → Succeeds (insert_rooms env room_rows) s (λ _ t. Furnishes s 4 t)
  unfolding insert_rooms insert_room room_id_by_name
  insert_rooms-Succeeds s e =
      let bare : Db = record s.db { rooms = [] } in
      let same : s ≡ record s { db = bare } =
        ap (λ rs. record s { db = record s.db { rooms = rs } }) e in
      subst (λ x. Succeeds (insert_rooms env room_rows) x (λ _ t. Furnishes x 4 t)) (sym same)
        (record {
          answer = tt;
          run = refl;
          post = (refl, refl, refl, refl, (omega arith, (refl, (refl, (refl, (refl, tt))))));
        })

  ensure_rooms-Succeeds :
      (s : State)
      → (s.db.rooms ≡ []) ⊎ IsFurnished s.db.rooms
      → Succeeds (ensure_rooms env) s (Furnishes s)
  unfolding ensure_rooms
  ensure_rooms-Succeeds s (inl e) =
      let fill : Action ℕ = insert_rooms env room_rows >>= λ _. pure (length room_rows) in
      let none_there : ltb 0 (length s.db.rooms) ≡ false = ap (λ rs. ltb 0 (length rs)) e in
      same-Succeeds (ensure_rooms env) fill s _ (rw none_there refl) (
        bind-Succeeds (insert_rooms env room_rows) _ s (λ _ t. Furnishes s 4 t) _
          (insert_rooms-Succeeds s e) (λ _ t h. record { answer = 4; run = refl; post = h }))
  ensure_rooms-Succeeds s (inr f) =
      let there : ltb 0 (length s.db.rooms) ≡ true = let l = f.0 in ground arith in
      record { answer = 0; run = rw there refl; post = rw there (refl, refl, refl, refl, f) }

  kept_rows :
      (before after : Db) (n : ℕ)
      → IsValid env.zone before
      → Rooms env before after n
      → All (λ t. table_row after t.id ≡ some t) (select (λ t. is_some t.room_id) before.tables)
  kept_rows before after n v h =
      let roomed = select (λ t. is_some t.room_id) before.tables in
      All-imp _ _ (λ t k. h.keeps t.id t k.0 k.1) roomed
        (All-both _ _ roomed
          (All-select _ (λ t. is_some t.room_id) before.tables
            (find_self (λ t. t.id) before.tables v.distinct))
          (select_holds (λ t. is_some t.room_id) before.tables))

  assign_tables-Succeeds :
      (s : State)
      → IsValid env.zone s.db
      → IsFurnished s.db.rooms
      → Succeeds assign_tables s (λ counts t. Furnished env s.db counts t.db)
  assign_tables-Succeeds s v f =
      let (a, b, c, d, run) = planned_run s f in
      same-Succeeds assign_tables (assign_rows (plan a b c d) 0 0) s _ run (
        weaken-Succeeds _ s (Assigned env (plan a b c d) 0 0 s) _
          (assign_rows-Succeeds env (plan a b c d) 0 0 s v)
          (λ counts t (n, rooms, covered, added, sum). record {
            valid = rooms.valid;
            furnished = subst IsFurnished (sym rooms.same_rooms) f;
            covered = planned-any a b c d t.db covered;
            kept = kept_rows s.db t.db n v rooms;
            counted = omega (arith, rooms.counted, added);
            sum = omega (arith, sum, plan-length a b c d);
          }))

  -- On a valid database that has no rooms, or the four that the plan names, seed_rooms returns;
  -- the database is valid after it; every table of the plan that exists has a room; a table that
  -- had one is as it was; and the counts, which add up to the fifty entries of the plan, are of
  -- the tables that got a room and of the other entries.
  pub seed_rooms-Succeeds :
      (s : State)
      → IsValid env.zone s.db
      → (s.db.rooms ≡ []) ⊎ IsFurnished s.db.rooms
      → Succeeds (seed_rooms env) s (λ counts t. Furnished env s.db (counts.1, counts.2) t.db)
  unfolding seed_rooms
  seed_rooms-Succeeds s v rooms =
      bind-Succeeds (ensure_rooms env) _ s (Furnishes s) _ (ensure_rooms-Succeeds s rooms)
        (λ n t (ts, rs, seq, table_seq, f).
          bind-Succeeds assign_tables (λ counts. pure (n, counts.0, counts.1)) t
            (λ counts u. Furnished env t.db counts u.db) _
            (assign_tables-Succeeds t (IsValid-stable env.zone s.db t.db (ts, rs, seq, table_seq) v)
              f)
            (λ counts u h. record {
              answer = (n, counts.0, counts.1);
              run = refl;
              post = record {
                valid = h.valid;
                furnished = h.furnished;
                covered = h.covered;
                kept =
                    subst
                      (λ x.
                        All (λ y. table_row u.db y.id ≡ some y) (select (λ y. is_some y.room_id) x))
                      ts h.kept;
                counted = h.counted ∙ ap (count_where is_roomless) ts;
                sum = h.sum;
              };
            }))

  -- On a database that has the four rooms, and where every table of the plan that exists has a
  -- room, a run of seed_rooms changes nothing, adds no room and counts all fifty entries of the
  -- plan as skipped.
  pub seed_rooms-again :
      (s : State)
      → IsFurnished s.db.rooms
      → All (Covered s.db) planned
      → seed_rooms env s ≡ (ok (0, 0, 50), s)
  unfolding seed_rooms ensure_rooms
  seed_rooms-again s f covered =
      let (a, b, c, d, run) = planned_run s f in
      let there : ltb 0 (length s.db.rooms) ≡ true = let l = f.0 in ground arith in
      let rounds =
        assign_rows-Covered env (plan a b c d) 0 s (planned-all a b c d s.db covered)
        ∙ ap (λ n. (ok (0, n), s)) (omega (arith, plan-length a b c d)) in
      rw (there, run, rounds) refl
