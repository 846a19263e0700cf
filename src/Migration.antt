-- ===== src/Migration.antt =====
-- app/db.py: the codes that `_migrate` gives to reservations from before there were codes.
pub mod Rounds
pub mod Laws
use reservac_ia.Base.{
  ℕ, zero, suc, Bool, true, false, not, ◌&&◌, Option, none, some, List, [], ◌∷◌, ◌==◌, is_some,
  if◌then◌else◌, select, any, update_where, Text,
}
use reservac_ia.Model.{Env, Db, Reservation}
use reservac_ia.Monad.{Action, pure, gets, modify, ◌>>=◌, ◌>>◌}
use reservac_ia.Codes.{generate_code}
use reservac_ia.Crud.Reservations.{code_is}

-- `confirmation_code IS NULL`
abbrev pub has_no_code : Reservation → Bool
has_no_code r = not (is_some r.confirmation_code)

-- The unique index refuses a code that another row has.
abbrev pub code_refused : ℕ → Text → Db → Bool
code_refused id code db = any (λ x. not (x.id == id) && code_is code x) db.reservations

abbrev pub set_code : Text → Reservation → Reservation
set_code code r = record r { confirmation_code = some code }

abbrev pub put_code : ℕ → Text → Db → Db
put_code id code db = record db {
  reservations = update_where (λ x. x.id == id) (set_code code) db.reservations;
}

-- The end of a try: the UPDATE, or `continue` on the IntegrityError. The answer is whether it wrote.
unfoldable pub write_code : ℕ → Text → Bool → Action Bool → Action Bool
write_code id code true again = again
write_code id code false again = do modify (put_code id code); pure true

-- The `for _ in range(8)` loop, on the tries left.
unfoldable pub try_codes : Env → (id tries : ℕ) → Action Bool
unfolding write_code
try_codes env id zero = pure false
try_codes env id (suc tries) = do
  code ← generate_code env
  refused ← gets (code_refused id code)
  let again = try_codes env id tries
  write_code id code refused again

unfoldable pub backfill_rows : Env → List Reservation → (updated : ℕ) → Action ℕ
unfolding try_codes
backfill_rows env [] updated = pure updated
backfill_rows env (r ∷ rows) updated = do
  wrote ← try_codes env r.id 8
  backfill_rows env rows (if wrote then suc updated else updated)

-- `_backfill_confirmation_codes`
unfoldable pub backfill_confirmation_codes : Env → Action ℕ
backfill_confirmation_codes env = do
  has_null ← gets (λ db. any has_no_code db.reservations)
  if has_null
      then (do nulls ← gets (λ db. select has_no_code db.reservations); backfill_rows env nulls 0)
      else pure 0
