-- ===== src/Scripts/SeedRooms/Rounds.antt =====
-- The loop of `assign_tables` in scripts/seed_rooms.py.
use reservac_ia.Base.{
  ℕ, suc, ◌+◌, ◌≡◌, ◌≢◌, refl, sym, ap, ◌∙◌, subst, Bool, true, not, Option, none, some, is_some,
  List, [], ◌∷◌, length, ◌==◌, count_where, count-update, update-constant, find-some,
  find-update_ne, All, All-intro, Option-cases, inl, inr, ==_iff, arith,
}
use native.Mathlib.Decide.{ℕ_discrete}
use reservac_ia.Model.{Env, Db, Table}
use reservac_ia.Monad.{State, ok, ◌>>=◌}
use reservac_ia.Monad.Succeeds.{Succeeds, bind-Succeeds, weaken-Succeeds, same-Succeeds}
use reservac_ia.Crud.Lookup.{table_row}
use reservac_ia.Crud.Tables.{put_table}
use reservac_ia.Bookings.Valid.{IsValid}
use reservac_ia.Bookings.Tables.{put_table-IsValid, find-put_self}
use reservac_ia.Scripts.SeedRooms.{set_room, assign_room, settle_room, settle_table, assign_rows}

abbrev pub is_roomless : Table → Bool
is_roomless t = not (is_some t.room_id)

-- A table that is there has a room.
abbrev pub has_room : Option Table → Bool
has_room none = true
has_room (some t) = is_some t.room_id

abbrev pub Covered : Db → ℕ × ℕ → Type 0
Covered db entry = has_room (table_row db entry.0) ≡ true

module _ (env : Env) where
  -- From one database to another, `n` tables get a room, and nothing else changes.
  pub record Rooms (before after : Db) (n : ℕ) : Type 0 where
    pub valid : IsValid env.zone after
    pub keeps :
        (j : ℕ) (t : Table)
        → table_row before j ≡ some t
        → is_some t.room_id ≡ true
        → table_row after j ≡ some t
    pub absent : (j : ℕ) → table_row before j ≡ none → table_row after j ≡ none
    pub counted : n + count_where is_roomless after.tables ≡ count_where is_roomless before.tables
    pub same_rows : after.reservations ≡ before.reservations
    pub same_rooms : after.rooms ≡ before.rooms

  pub Rooms-refl : (db : Db) → IsValid env.zone db → Rooms db db 0
  Rooms-refl db v = record {
    valid = v;
    keeps = λ j t f h. f;
    absent = λ j f. f;
    counted = omega arith;
    same_rows = refl;
    same_rooms = refl;
  }

  pub Rooms-trans : (a b c : Db) (m n : ℕ) → Rooms a b m → Rooms b c n → Rooms a c (m + n)
  Rooms-trans a b c m n h k = record {
    valid = k.valid;
    keeps = λ j t f r. k.keeps j t (h.keeps j t f r) r;
    absent = λ j f. k.absent j (h.absent j f);
    counted = omega (arith, h.counted, k.counted);
    same_rows = k.same_rows ∙ h.same_rows;
    same_rooms = k.same_rooms ∙ h.same_rooms;
  }

  -- A table keeps the room that it has.
  Rooms-Covered :
      (a b : Db) (n : ℕ) (entry : ℕ × ℕ) → Rooms a b n → Covered a entry → Covered b entry
  Rooms-Covered a b n entry h c = elim (Option-cases (table_row a entry.0)) [
    | inl e ↦ rw (h.absent entry.0 e) refl
    | inr (t, e) ↦ let r : is_some t.room_id ≡ true = ground arith in rw (h.keeps entry.0 t e r) r
  ]

  -- The UPDATE of a table without a room.
  module _ (tid room_id : ℕ) (t : Table) (db : Db) (v : IsValid env.zone db)
      (found : table_row db tid ≡ some t) (empty : t.room_id ≡ none) where
    abbrev after : Db
    after = assign_room tid room_id db

    the_id : t.id ≡ tid
    the_id = (==_iff _ _).0 (find-some (λ x. x.id == tid) db.tables {x = t} found)

    same_put : after ≡ put_table tid (set_room room_id t) db
    same_put =
        ap (λ ts. record db { tables = ts })
          (update-constant (λ x. x.id) tid (set_room room_id) t db.tables v.distinct found)

    other_row : (j : ℕ) → tid ≢ j → table_row after j ≡ table_row db j
    other_row j n = find-update_ne (λ x. x.id) tid (set_room room_id) j (λ x. refl) n db.tables

    assign_room-Rooms : Rooms db after 1
    assign_room-Rooms = record {
      valid = subst (IsValid env.zone) (sym same_put) (
          put_table-IsValid env tid (set_room room_id t) t db v found the_id
            (All-intro _ (λ r m k. k) db.reservations));
      keeps = λ j x f r. elim (ℕ_discrete tid j) [
        | yes e ↦
            let same : some t ≡ some x = sym found ∙ ap (table_row db) e ∙ f in
            absurd (ground arith)
        | no n ↦ other_row j n ∙ f
      ];
      absent = λ j f. elim (ℕ_discrete tid j) [
        | yes e ↦ let same : some t ≡ none = sym found ∙ ap (table_row db) e ∙ f in absurd (cc)
        | no n ↦ other_row j n ∙ f
      ];
      counted = omega (
        arith,
        count-update (λ x. x.id) tid (set_room room_id) t is_roomless db.tables v.distinct found
            (ground arith) refl,
      );
      same_rows = refl;
      same_rooms = refl;
    }

    assign_room-Covered : Covered after (tid, room_id)
    assign_room-Covered =
        ap (λ d. has_room (table_row d tid)) same_put
        ∙ ap has_room (find-put_self tid (set_room room_id t) db.tables {old = t} the_id found)

  -- A round: a table more with a room, or one more skipped.
  abbrev Round : ℕ × ℕ → (assigned skipped : ℕ) → State → ℕ × ℕ → State → Type 0
  Round entry assigned skipped s counts t =
      (n : ℕ) × Rooms s.db t.db n
      × Covered t.db entry
      × (counts.0 ≡ assigned + n)
      × (counts.0 + counts.1 ≡ suc (assigned + skipped))

  settle_table-Succeeds :
      (entry : ℕ × ℕ) (o : Option Table) (assigned skipped : ℕ) (s : State)
      → IsValid env.zone s.db
      → table_row s.db entry.0 ≡ o
      → Succeeds
          (settle_table entry.0 entry.1 o assigned skipped)
          s
          (Round entry assigned skipped s)
  unfolding settle_table settle_room
  settle_table-Succeeds entry none assigned skipped s v f = record {
    answer = (assigned, suc skipped);
    run = refl;
    post = (0, Rooms-refl s.db v, rw f refl, omega arith, omega arith);
  }
  settle_table-Succeeds entry (some t) assigned skipped s v f = elim (Option-cases t.room_id) [
    | inl e ↦ record {
      answer = (suc assigned, skipped);
      run = rw e refl;
      post = rw e (
        1,
        assign_room-Rooms entry.0 entry.1 t s.db v f e,
        assign_room-Covered entry.0 entry.1 t s.db v f e,
        omega arith,
        omega arith,
      );
    }
    | inr (r, e) ↦ record {
      answer = (assigned, suc skipped);
      run = rw e refl;
      post = rw e (0, Rooms-refl s.db v, rw (f, e) refl, omega arith, omega arith);
    }
  ]

  -- After the loop.
  abbrev pub Assigned : List (ℕ × ℕ) → (assigned skipped : ℕ) → State → ℕ × ℕ → State → Type 0
  Assigned entries assigned skipped s counts t =
      (n : ℕ) × Rooms s.db t.db n
      × All (Covered t.db) entries
      × (counts.0 ≡ assigned + n)
      × (counts.0 + counts.1 ≡ length entries + (assigned + skipped))

  pub assign_rows-Succeeds :
      (entries : List (ℕ × ℕ)) (assigned skipped : ℕ) (s : State)
      → IsValid env.zone s.db
      → Succeeds (assign_rows entries assigned skipped) s (Assigned entries assigned skipped s)
  unfolding assign_rows
  assign_rows-Succeeds [] assigned skipped s v = record {
    answer = (assigned, skipped);
    run = refl;
    post = (0, Rooms-refl s.db v, tt, omega arith, omega arith);
  }
  assign_rows-Succeeds (entry ∷ entries) assigned skipped s v =
      same-Succeeds _
        (settle_table entry.0 entry.1 (table_row s.db entry.0) assigned skipped >>= λ counts.
          assign_rows entries counts.0 counts.1)
        s (Assigned (entry ∷ entries) assigned skipped s) refl
        (bind-Succeeds (settle_table entry.0 entry.1 (table_row s.db entry.0) assigned skipped)
          (λ counts. assign_rows entries counts.0 counts.1) s (Round entry assigned skipped s)
          (Assigned (entry ∷ entries) assigned skipped s)
          (settle_table-Succeeds entry (table_row s.db entry.0) assigned skipped s v refl)
          (λ counts t (m, step, covered, added, sum).
            weaken-Succeeds (assign_rows entries counts.0 counts.1) t
              (Assigned entries counts.0 counts.1 t) _
              (assign_rows-Succeeds entries counts.0 counts.1 t step.valid)
              (λ final u (n, rest, all, more, total). (
                m + n,
                Rooms-trans s.db t.db u.db m n step rest,
                (Rooms-Covered t.db u.db n entry rest covered, all),
                omega (arith, added, more),
                omega (arith, sum, total),
              ))))

  -- Rounds in which every table that is there has a room.
  pub assign_rows-Covered :
      (entries : List (ℕ × ℕ)) (skipped : ℕ) (s : State)
      → All (Covered s.db) entries
      → assign_rows entries 0 skipped s ≡ (ok (0, length entries + skipped), s)
  unfolding assign_rows settle_table settle_room
  assign_rows-Covered [] skipped s c = ap (λ n. (ok (0, n), s)) (omega arith)
  assign_rows-Covered (entry ∷ entries) skipped s c =
      let rest : assign_rows entries 0 (suc skipped) s
          ≡ (ok (0, length (entry ∷ entries) + skipped), s) =
        assign_rows-Covered entries (suc skipped) s c.1 ∙ ap (λ n. (ok (0, n), s)) (omega arith) in
      elim (Option-cases (table_row s.db entry.0)) [
        | inl e ↦ rw e rest
        | inr (t, e) ↦ elim (Option-cases t.room_id) [
          | inl r ↦ absurd (let here = c.0 in ground arith)
          | inr (room, r) ↦ rw (e, r) rest
        ]
      ]
