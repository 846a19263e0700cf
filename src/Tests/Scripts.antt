-- ===== src/Tests/Scripts.antt =====
-- The theorems on the scripts and the migration, on small databases.
use reservac_ia.Base.{ℕ, ◌+◌, ◌<◌, ◌≡◌, refl, none, [], ◌∷◌, arith, length}
use reservac_ia.Clock.{parse_ts}
use reservac_ia.Model.{empty_db, Reservation}
use reservac_ia.Monad.{State, ok}
use reservac_ia.Monad.Succeeds.{Succeeds}
use reservac_ia.Samples.{sample_env, sample_zone, booked}
use reservac_ia.Codes.{pick_symbol}
use reservac_ia.Bookings.Valid.{IsValid}
use reservac_ia.Scripts.SeedTables.{seed_tables}
use reservac_ia.Scripts.SeedTables.Backfill.{Backfilled}
use reservac_ia.Scripts.SeedTables.Ensure.{seed_tables-Succeeds}
use reservac_ia.Scripts.SeedTables.Again.{seed_tables-again}
use reservac_ia.Migration.{backfill_confirmation_codes}
use reservac_ia.Migration.Laws.{
  CodesFilled, count_null, IsFresh, backfill_confirmation_codes-Succeeds,
  backfill_confirmation_codes-all,
}

-- Two reservations from before there were tables and codes.
abbrev old_row : ℕ → Reservation
old_row id = record (booked id 0 4 19) { table_id = none; confirmation_code = none }

abbrev old_state : State
old_state = record {
  db = record empty_db { reservations = old_row 1 ∷ old_row 2 ∷ []; reservation_seq = 2 };
  reads = 0;
  draws = 0;
}

old-IsValid : IsValid sample_zone old_state.db
unfolding parse_ts
old-IsValid = record {
  apart = (((λ e. absurd (omega (arith, e)), refl, refl), tt), (tt, tt));
  below = (omega arith, (omega arith, tt));
  stamped = (refl, (refl, tt));
  seated = (refl, (refl, tt));
  distinct = tt;
  tables_below = tt;
}

seed_tables-Succeeds_example : Succeeds (seed_tables sample_env) old_state (λ counts t.
    Backfilled sample_env old_state.db (counts.1, counts.2) t.db
    × (length t.db.tables ≡ length old_state.db.tables + counts.0)
    × (0 < length t.db.tables))
seed_tables-Succeeds_example = seed_tables-Succeeds sample_env old_state old-IsValid

-- The first run.
first_run : Succeeds (seed_tables sample_env) old_state (λ counts t.
    Backfilled sample_env old_state.db (counts.1, counts.2) t.db
    × (length t.db.tables ≡ length old_state.db.tables + counts.0)
    × (0 < length t.db.tables))
first_run = seed_tables-Succeeds sample_env old_state old-IsValid

abbrev seeded : State
seeded = (seed_tables sample_env old_state).1

seed_tables-again_example : seed_tables sample_env seeded ≡ (ok (0, 0, first_run.answer.2), seeded)
seed_tables-again_example =
    seed_tables-again sample_env seeded first_run.post.0.valid old_state.db
      (first_run.answer.1, first_run.answer.2) first_run.post.0 first_run.post.2

backfill_confirmation_codes-Succeeds_example :
    Succeeds
      (backfill_confirmation_codes sample_env)
      old_state
      (λ n t. CodesFilled sample_env old_state.db n t.db)
backfill_confirmation_codes-Succeeds_example =
    backfill_confirmation_codes-Succeeds sample_env old_state old-IsValid (refl, (refl, tt))

draws-IsFresh : IsFresh sample_env old_state.db (old_row 1 ∷ old_row 2 ∷ []) 0
unfolding pick_symbol
draws-IsFresh = (refl, (refl, tt))

backfill_confirmation_codes-all_example :
    ((backfill_confirmation_codes sample_env old_state).0 ≡ ok 2)
    × (count_null (backfill_confirmation_codes sample_env old_state).1.db ≡ 0)
backfill_confirmation_codes-all_example =
    backfill_confirmation_codes-all sample_env old_state old-IsValid (refl, (refl, tt))
      draws-IsFresh
