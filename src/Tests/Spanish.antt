-- ===== src/Tests/Spanish.antt =====
-- The theorem on scripts/backfill_spanish.py, for a guest with two names to correct and a note.
use reservac_ia.Base.{◌≡◌, refl, some, [], ◌∷◌, List, map, codes, arith}
use reservac_ia.Model.{Reservation, empty_db}
use reservac_ia.Monad.{State, ok}
use reservac_ia.Samples.{sample_zone, booked}
use reservac_ia.Scripts.Spanish.{backfill_spanish, fix_name, get_or_self, words, parts, join}
use reservac_ia.Scripts.Spanish.Laws.{
  corrected, tallied, none_fixed, with_rows, backfill_spanish-twice,
}

abbrev english : List Reservation
english =
    record (booked 1 1 2 19) {
      customer_name = codes "Andres  Jimenez";
      notes = some (codes "window seat");
    }
    ∷ booked 2 2 3 19
    ∷ []

abbrev english_state : State
english_state = record {
  db = record empty_db { reservations = english; reservation_seq = 2 };
  reads = 0;
  draws = 0;
}

name_fixed : fix_name (codes "Andres  Jimenez") ≡ codes "Andrés Jiménez"
unfolding fix_name get_or_self words parts join
name_fixed = refl

backfill_spanish-twice_example :
    (backfill_spanish sample_zone english_state ≡ (
      ok (tallied sample_zone english none_fixed),
      with_rows english_state (map (corrected sample_zone) english),
    ))
    × (backfill_spanish sample_zone (with_rows english_state (map (corrected sample_zone) english))
        ≡ (ok none_fixed, with_rows english_state (map (corrected sample_zone) english)))
backfill_spanish-twice_example =
    backfill_spanish-twice sample_zone english_state
      ((λ e. absurd (omega (arith, e)), tt), (tt, tt))
