-- ===== src/Monad.antt =====
-- Python statements over the database: state that outlives an exception, and `with connection()`,
-- which commits or rolls back (app/db.py).
pub mod Leads
pub mod Succeeds
use reservac_ia.Base.{ℕ, suc, ◌≡◌, refl, Bool, true, false, Option, none, some, arith, Text}
use reservac_ia.Clock.{DateTime}
use reservac_ia.Model.{Db, Env}

-- The refusals, with the values that their messages are made from. (`existing` names the clash that
-- an update reports without saying with what.)
pub data Reason : Type 0 where
  room_name_exists table_number_exists : Text → Reason
  room_clash table_clash : Reason
  room_missing table_missing : ℕ → Reason
  room_in_use table_in_use : (name : Text) (in_use : ℕ) → Reason
  shrink_refused : (capacity oversized : ℕ) → Reason
  too_large : (table_number : Text) (capacity party_size : ℕ) → Reason
  has_conflict : (table_number : Text) → Reason
  no_table : (party_size : Option ℕ) (at : DateTime) → Reason

pub data Exn : Type 0 where
  reservation_error domain_error : Reason → Exn
  integrity_error type_error attribute_error runtime_error overflow_error : Exn
  assertion_error value_error key_error index_error : Exn
  http_error : (status : ℕ) → Exn

pub data Result (A : Type 0) : Type 0 where
  ok : A → Result A
  err : Exn → Result A

-- `reads` and `draws` count how often the clock and the random source have been asked.
pub record State : Type 0 where
  pub db : Db
  pub reads : ℕ
  pub draws : ℕ

abbrev pub Action : Type 0 → Type 0
Action A = State → Result A × State

module _ {A : Type 0} where
  abbrev pub pure : A → Action A
  pure a s = (ok a, s)

  abbrev pub raise : Exn → Action A
  raise e s = (err e, s)

  abbrev pub lift : Result A → Action A
  lift r s = (r, s)

  abbrev pub gets : (Db → A) → Action A
  gets f s = (ok (f s.db), s)

  abbrev pub query : (Db → Result A) → Action A
  query f s = (f s.db, s)

  abbrev pub or_raise : Exn → Option A → Action A
  or_raise e none = raise e
  or_raise e (some a) = pure a

  -- `with connection() as conn: body`
  abbrev pub with_connection : Action A → Action A
  with_connection body s =
      let (r, s') = body s in
      elim r [ ok a ↦ (ok a, s') | err e ↦ (err e, record s' { db = s.db }) ]

infixl 5 ◌>>=◌ ◌>>◌
abbrev pub and_then : {A B : Type 0} → Result A → (A → Action B) → Action B
and_then (ok a) f = f a
and_then (err e) f = raise e

abbrev pub ◌>>=◌ : {A B : Type 0} → Action A → (A → Action B) → Action B
m >>= f = λ s. let (r, s') = m s in and_then r f s'

abbrev pub ◌>>◌ : {A B : Type 0} → Action A → Action B → Action B
m >> k = m >>= λ _. k

abbrev pub bind_result : {A B : Type 0} → Result A → (A → Result B) → Result B
bind_result (ok a) f = f a
bind_result (err e) f = err e

pub bind_result-eq-ok :
    {A B : Type 0} (r : Result A) (f : A → Result B) {b : B}
    → bind_result r f ≡ ok b
    → (a : A) × (r ≡ ok a) × (f a ≡ ok b)
bind_result-eq-ok (ok a) f h = (a, refl, h)
bind_result-eq-ok (err e) f h = cc

abbrev pub modify : (Db → Db) → Action (Unit {0})
modify f s = (ok tt, record s { db = f s.db })

abbrev pub raise_if : Bool → Exn → Action (Unit {0})
raise_if true e = raise e
raise_if false e = pure tt

-- `datetime.now(...)`, also SQLite's `datetime('now')`: the next reading of the clock.
abbrev pub now : Env → Action ℕ
now env s = (ok (env.clock s.reads), record s { reads = suc s.reads })

-- One `secrets.choice`, as an index.
abbrev pub draw : Env → Action ℕ
draw env s = (ok (env.choice s.draws), record s { draws = suc s.draws })

-- An exception inside `with connection()` leaves the database as it was.
pub with_connection_rolls_back :
    {A : Type 0} (body : Action A) (s : State) {e : Exn}
    → (with_connection body s).0 ≡ err e
    → (with_connection body s).1.db ≡ s.db
with_connection_rolls_back body s h = ground arith
