-- ===== src/Tests/SeedRooms.antt =====
-- The theorems on scripts/seed_rooms.py, on a database with three tables and no rooms.
use reservac_ia.Base.{◌≡◌, refl, inl}
use reservac_ia.Monad.{State, ok}
use reservac_ia.Monad.Succeeds.{Succeeds}
use reservac_ia.Samples.{sample_env, sample_state}
use reservac_ia.Tests.Bookings.{sample-IsValid}
use reservac_ia.Scripts.SeedRooms.{seed_rooms}
use reservac_ia.Scripts.SeedRooms.Laws.{Furnished, seed_rooms-Succeeds, seed_rooms-again}

seed_rooms-Succeeds_example :
    Succeeds
      (seed_rooms sample_env)
      sample_state
      (λ counts t. Furnished sample_env sample_state.db (counts.1, counts.2) t.db)
seed_rooms-Succeeds_example = seed_rooms-Succeeds sample_env sample_state sample-IsValid (inl refl)

furnishing :
    Succeeds
      (seed_rooms sample_env)
      sample_state
      (λ counts t. Furnished sample_env sample_state.db (counts.1, counts.2) t.db)
furnishing = seed_rooms-Succeeds sample_env sample_state sample-IsValid (inl refl)

abbrev with_rooms : State
with_rooms = (seed_rooms sample_env sample_state).1

seed_rooms-again_example : seed_rooms sample_env with_rooms ≡ (ok (0, 0, 50), with_rooms)
seed_rooms-again_example =
    seed_rooms-again sample_env with_rooms furnishing.post.furnished furnishing.post.covered
