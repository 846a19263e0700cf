-- ===== src/Monad/Leads.antt =====
-- A small program logic: whatever a method answers, an exception included, it takes databases with
-- `P` to databases with `Q`.
use reservac_ia.Base.{◌≡◌, refl, Bool, true, false, Option, none, some}
use reservac_ia.Model.{Db, Env}
use reservac_ia.Monad.{
  Exn, Result, ok, err, State, Action, pure, lift, gets, query, or_raise, raise_if, now, draw,
  with_connection, and_then, ◌>>=◌, ◌>>◌,
}

pub record Leads {A : Type 0} (P Q : Db → Type 0) (m : Action A) : Type 0 where
  pub run : (s : State) → P s.db → Q (m s).1.db

and_then-run :
    {A B : Type 0} (Q R : Db → Type 0) (f : A → Action B) (r : Result A) (s : State)
    → ((a : A) → Leads Q R (f a))
    → ((db : Db) → Q db → R db)
    → Q s.db
    → R (and_then r f s).1.db
and_then-run Q R f (ok a) s g h q = (g a).run s q
and_then-run Q R f (err e) s g h q = h s.db q

-- Past a guard its condition is known to be false.
pub raise_if-run :
    {B : Type 0} (R : Db → Type 0) (b : Bool) (e : Exn) (k : Action B) (s : State)
    → R s.db
    → (b ≡ false → R (k s).1.db)
    → R ((raise_if b e >> k) s).1.db
raise_if-run R true e k s h g = h
raise_if-run R false e k s h g = g refl

-- So for a value that may be missing.
pub or_raise-run :
    {A B : Type 0} (R : Db → Type 0) (e : Exn) (o : Option A) (f : A → Action B) (s : State)
    → R s.db
    → ((a : A) → o ≡ some a → R (f a s).1.db)
    → R ((or_raise e o >>= f) s).1.db
or_raise-run R e none f s h g = h
or_raise-run R e (some a) f s h g = g a refl

pub query-run :
    {A B : Type 0} (R : Db → Type 0) (q : Db → Result A) (f : A → Action B) (s : State)
    → R s.db
    → ((a : A) → q s.db ≡ ok a → R (f a s).1.db)
    → R ((query q >>= f) s).1.db
query-run {A} R q f s h g = by_cases (q s.db) refl
  where
    by_cases : (r : Result A) → q s.db ≡ r → R (and_then r f s).1.db
    by_cases (ok a) e = g a e
    by_cases (err x) e = h

module _ {A B : Type 0} where
  -- The rule for two statements; what the first leaves must do where it raises.
  pub bind-Leads :
      {P Q R : Db → Type 0} (m : Action A) (f : A → Action B)
      → Leads P Q m
      → ((a : A) → Leads Q R (f a))
      → ((db : Db) → Q db → R db)
      → Leads P R (m >>= f)
  bind-Leads {P} {Q} {R} m f hm hf weaken = record {
    run = λ s p. and_then-run Q R f (m s).0 (m s).1 hf weaken (hm.run s p);
  }

  -- An invariant of both parts is one of the whole.
  pub bind-Preserves :
      {P : Db → Type 0} (m : Action A) (f : A → Action B)
      → Leads P P m
      → ((a : A) → Leads P P (f a))
      → Leads P P (m >>= f)
  bind-Preserves m f hm hf = bind-Leads m f hm hf (λ db p. p)

  -- After a query its value is known to come from a database with `P`.
  pub query-Leads :
      {P R : Db → Type 0} (q : Db → Result A) (f : A → Action B)
      → ((s : State) (a : A) → P s.db → q s.db ≡ ok a → R (f a s).1.db)
      → ((db : Db) → P db → R db)
      → Leads P R (query q >>= f)
  query-Leads {P} {R} q f go weaken = record {
    run = λ s p. query-run R q f s (weaken s.db p) (λ a e. go s a p e);
  }

  -- So for a value that does not come from the database.
  pub lift_bind-Leads :
      {P R : Db → Type 0} (r : Result A) (f : A → Action B)
      → ((a : A) → r ≡ ok a → Leads P R (f a))
      → ((db : Db) → P db → R db)
      → Leads P R (lift r >>= f)
  lift_bind-Leads (ok a) f g weaken = record { run = (g a refl).run }
  lift_bind-Leads (err e) f g weaken = record { run = λ s p. weaken s.db p }

-- Statements that only read.
module _ {P : Db → Type 0} where
  pub gets-Leads : {A : Type 0} (f : Db → A) → Leads P P (gets f)
  gets-Leads f = record { run = λ s p. p }

  pub pure-Leads : {A : Type 0} (a : A) → Leads P P (pure a)
  pure-Leads a = record { run = λ s p. p }

  pub now-Leads : (env : Env) → Leads P P (now env)
  now-Leads env = record { run = λ s p. p }

  pub draw-Leads : (env : Env) → Leads P P (draw env)
  draw-Leads env = record { run = λ s p. p }

  pub lift-Leads : {A : Type 0} (r : Result A) → Leads P P (lift r)
  lift-Leads r = record { run = λ s p. p }

  pub or_raise-Leads : {A : Type 0} (e : Exn) (o : Option A) → Leads P P (or_raise e o)
  or_raise-Leads e none = record { run = λ s p. p }
  or_raise-Leads e (some a) = record { run = λ s p. p }

pub raise_if-Leads : {P : Db → Type 0} (b : Bool) (e : Exn) → Leads P P (raise_if b e)
raise_if-Leads true e = record { run = λ s p. p }
raise_if-Leads false e = record { run = λ s p. p }

after_connection :
    {A : Type 0} (P : Db → Type 0) (r : Result A) (s s' : State)
    → P s.db
    → P s'.db
    → P (with_connection (λ _. (r, s')) s).1.db
after_connection P (ok a) s s' p q = q
after_connection P (err e) s s' p q = p

pub with_connection-Leads :
    {P : Db → Type 0} {A : Type 0} (m : Action A) → Leads P P m → Leads P P (with_connection m)
with_connection-Leads {P} m h = record {
  run = λ s p. after_connection P (m s).0 s (m s).1 p (h.run s p);
}

-- Where `Q` holds before as well, a roll back keeps it.
pub with_connection_either :
    {P Q : Db → Type 0} {A : Type 0} (m : Action A)
    → Leads P Q m
    → ((db : Db) → P db → Q db)
    → Leads P Q (with_connection m)
with_connection_either {P} {Q} m h weaken = record {
  run = λ s p. after_connection Q (m s).0 s (m s).1 (weaken s.db p) (h.run s p);
}
