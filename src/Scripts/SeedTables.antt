-- ===== src/Scripts/SeedTables.antt =====
-- scripts/seed_tables.py: the fifty tables, and tables for reservations that have none.
pub mod Rows
pub mod Choice
pub mod Rounds
pub mod Placed
pub mod Backfill
pub mod Ensure
pub mod Again
use reservac_ia.Base.{
  ℕ, zero, suc, ◌+◌, ◌/◌, ◌%◌, Bool, true, false, not, ◌&&◌, ◌||◌, Option, none, some, List, [],
  ◌∷◌, ◌++◌, map, length, ltb, leb, ◌==◌, opt_eq, is_some, if◌then◌else◌, select, update_where,
  order_by, Text,
}
use reservac_ia.Clock.{
  DateTime, IsoText, Suffix, Offset, Tz, RawDateTime, gap, abs_difference, iso_le,
}
use reservac_ia.Model.{Env, Db, Table, Reservation, is_confirmed}
use reservac_ia.Monad.{
  Result, ok, err, bind_result, integrity_error, type_error, runtime_error, key_error, Action, pure,
  lift, raise_if, gets, query, modify, now, ◌>>=◌, ◌>>◌,
}
use reservac_ia.Crud.Conflict.{conflict_window, by_capacity}
use reservac_ia.Crud.Tables.{table_number_taken, capacity_allowed, add_table}

-- `DISTRIBUTION`: capacities, with the number of tables of each.
abbrev pub distribution : List (ℕ × ℕ)
distribution = (2, 16) ∷ (4, 16) ∷ (6, 10) ∷ (8, 5) ∷ (10, 2) ∷ (12, 1) ∷ []

-- `f"T{seq:02d}"`, for numbers of at most two digits.
abbrev pub table_name : ℕ → Text
table_name seq = b'T' ∷ (b'0' + seq / 10) ∷ (b'0' + seq % 10) ∷ []

-- The rows of one capacity, numbered from `seq`.
unfoldable pub rows_of : (seq capacity count : ℕ) → List (Text × ℕ)
rows_of seq capacity zero = []
rows_of seq capacity (suc count) = (table_name seq, capacity) ∷ rows_of (suc seq) capacity count

unfoldable pub seed_rows : ℕ → List (ℕ × ℕ) → List (Text × ℕ)
unfolding rows_of
seed_rows seq [] = []
seed_rows seq ((capacity, count) ∷ rest) =
    rows_of seq capacity count ++ seed_rows (seq + count) rest

abbrev pub seeded_table : ℕ → Text → ℕ → ℕ → Table
seeded_table id table_number capacity now_at = record {
  id = id;
  table_number = table_number;
  capacity = capacity;
  room_id = none;
  created_at = now_at;
}

-- One INSERT of `executemany`, with its UNIQUE and CHECK.
unfoldable pub insert_table : Env → Text × ℕ → Action (Unit {0})
insert_table env row = do
  taken ← gets (λ db. table_number_taken row.0 db.tables)
  raise_if (taken || not (capacity_allowed row.1)) integrity_error
  now_at ← now env
  id ← gets (λ db. suc db.table_seq)
  modify (add_table (seeded_table id row.0 row.1 now_at))

unfoldable pub insert_tables : Env → List (Text × ℕ) → Action (Unit {0})
unfolding insert_table
insert_tables env [] = pure tt
insert_tables env (row ∷ rows) = do insert_table env row; insert_tables env rows

unfoldable pub ensure_tables : Env → Action ℕ
ensure_tables env = do
  existing ← gets (λ db. length db.tables)
  if ltb 0 existing then pure 0 else (do
    insert_tables env (seed_rows 1 distribution)
    pure (length (seed_rows 1 distribution)))

-- `_parse_ts` of the script, which leaves a text without an offset naive.
unfoldable pub parse_raw : IsoText → RawDateTime
parse_raw t = elim t.suffix [
  | Suffix.naive ↦ RawDateTime.naive_at t.wall
  | Suffix.zulu ↦
      RawDateTime.aware_at (record { wall = t.wall; offset = Offset.east 0; tz = Tz.fixed })
  | Suffix.numeric o ↦ RawDateTime.aware_at (record { wall = t.wall; offset = o; tz = Tz.fixed })
]

-- `abs(a - b)`; none is the TypeError of a naive and an aware datetime.
unfoldable pub raw_difference : RawDateTime → RawDateTime → Option ℕ
raw_difference (RawDateTime.naive_at a) (RawDateTime.naive_at b) = some (gap a b)
raw_difference (RawDateTime.aware_at a) (RawDateTime.aware_at b) = some (abs_difference a b)
raw_difference _ _ = none

-- `any(abs(at - existing_at) < CONFLICT_WINDOW for ...)`
unfoldable pub any_near : RawDateTime → List RawDateTime → Result Bool
any_near at [] = ok false
any_near at (existing ∷ times) =
    let rest = any_near at times in
    elim (raw_difference at existing) [
      | none ↦ err type_error
      | some d ↦ if ltb d conflict_window then ok true else rest
    ]

-- An entry of the dict `usage`.
pub record Usage : Type 0 where
  pub table_id : ℕ
  pub times : List RawDateTime

-- `usage[table_id]`; none is the KeyError.
abbrev pub times_of : ℕ → List Usage → Option (List RawDateTime)
times_of i [] = none
times_of i (u ∷ usage) = if u.table_id == i then some u.times else times_of i usage

abbrev pub times_or_key_error : ℕ → List Usage → Result (List RawDateTime)
times_or_key_error i usage = elim (times_of i usage) [ none ↦ err key_error | some ts ↦ ok ts ]

abbrev pub append_time : ℕ → RawDateTime → List Usage → List Usage
append_time i at usage =
    update_where (λ u. u.table_id == i) (λ u. record u { times = u.times ++ at ∷ [] }) usage

-- `usage[table_id].append(at)`
unfoldable pub record_use : ℕ → RawDateTime → List Usage → Result (List Usage)
record_use i at usage = bind_result (times_or_key_error i usage) (λ _. ok (append_time i at usage))

-- `status = 'confirmed' AND table_id IS NOT NULL`
abbrev pub is_assigned : Reservation → Bool
is_assigned r = is_confirmed r.status && is_some r.table_id

abbrev pub is_unassigned : Reservation → Bool
is_unassigned r = is_confirmed r.status && not (is_some r.table_id)

abbrev pub no_use : Table → Usage
no_use t = record { table_id = t.id; times = [] }

-- One round of the loop over the assigned rows; the query leaves no other.
abbrev pub note_at : Option ℕ → RawDateTime → List Usage → Result (List Usage)
note_at none at usage = ok usage
note_at (some i) at usage = record_use i at usage

abbrev pub note_row : Reservation → List Usage → Result (List Usage)
note_row r usage = note_at r.table_id (parse_raw r.reservation_at) usage

-- The loop over the assigned rows.
unfoldable pub note_rows : List Reservation → List Usage → Result (List Usage)
unfolding record_use
note_rows [] usage = ok usage
note_rows (r ∷ rows) usage = bind_result (note_row r usage) (λ u. note_rows rows u)

-- The keys of `usage` are the ids of the tables, so the `len(usage[...])` of the sort is there.
abbrev pub load_in : List Usage → Table → ℕ
load_in usage t = elim (times_of t.id usage) [ none ↦ 0 | some ts ↦ length ts ]

-- The key `(capacity, len(usage[id]), id)`
abbrev pub fitting_le : List Usage → Table → Table → Bool
fitting_le usage a b =
    ltb a.capacity b.capacity
    || a.capacity == b.capacity
      && (ltb (load_in usage a) (load_in usage b)
          || load_in usage a == load_in usage b && leb a.id b.id)

-- The first fitting table without a use near the time.
unfoldable pub choose : List Usage → RawDateTime → List Table → Result (Option ℕ)
unfolding any_near
choose usage at [] = ok none
choose usage at (t ∷ ts) =
    let rest = choose usage at ts in
    bind_result (times_or_key_error t.id usage)
      (λ times. bind_result (any_near at times) (λ near. if near then rest else ok (some t.id)))

abbrev pub fitting : List Table → List Usage → Reservation → List Table
fitting tables usage r =
    order_by (fitting_le usage) (select (λ t. leb r.party_size t.capacity) tables)

abbrev pub set_table : ℕ → ℕ → Reservation → Reservation
set_table table_id now_at r = record r { table_id = some table_id; updated_at = now_at }

abbrev pub assign_table : (reservation_id table_id now_at : ℕ) → Db → Db
assign_table reservation_id table_id now_at db = record db {
  reservations =
      update_where (λ r. r.id == reservation_id) (set_table table_id now_at) db.reservations;
}

-- The variables of the loop.
pub record Progress : Type 0 where
  pub usage : List Usage
  pub assigned : ℕ
  pub skipped : ℕ

-- The end of a round: the UPDATE and the bookkeeping.
unfoldable pub settle_row : Env → Reservation → Progress → Option ℕ → Action Progress
settle_row env r p none = pure (record p { skipped = suc p.skipped })
settle_row env r p (some chosen) = do
  now_at ← now env
  modify (assign_table r.id chosen now_at)
  usage ← lift (record_use chosen (parse_raw r.reservation_at) p.usage)
  pure (record { usage = usage; assigned = suc p.assigned; skipped = p.skipped })

unfoldable pub place_rows : Env → List Table → List Reservation → Progress → Action Progress
unfolding settle_row choose
place_rows env tables [] p = pure p
place_rows env tables (r ∷ rows) p = do
  chosen ← lift (choose p.usage (parse_raw r.reservation_at) (fitting tables p.usage r))
  next ← settle_row env r p chosen
  place_rows env tables rows next

-- `ORDER BY reservation_at ASC, id ASC`
abbrev pub by_time : Reservation → Reservation → Bool
by_time a b =
    iso_le a.reservation_at b.reservation_at
    && (not (iso_le b.reservation_at a.reservation_at) || leb a.id b.id)

unfoldable pub backfill_assignments : Env → Action (ℕ × ℕ)
backfill_assignments env = do
  tables ← gets (λ db. order_by by_capacity db.tables)
  raise_if (length tables == 0) runtime_error
  usage ← query (λ db. note_rows (select is_assigned db.reservations) (map no_use tables))
  unassigned ← gets (λ db. order_by by_time (select is_unassigned db.reservations))
  p ← place_rows env tables unassigned (record { usage = usage; assigned = 0; skipped = 0 })
  pure (p.assigned, p.skipped)

-- What `main` does in its connection; the counts that it prints of the rows are left out.
unfoldable pub seed_tables : Env → Action (ℕ × ℕ × ℕ)
seed_tables env = do
  inserted ← ensure_tables env
  counts ← backfill_assignments env
  pure (inserted, counts.0, counts.1)
