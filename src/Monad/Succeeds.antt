-- ===== src/Monad/Succeeds.antt =====
-- Total correctness: from this state the method returns, and what it returns and leaves has `Q`.
use reservac_ia.Base.{◌≡◌, refl, ap, ◌∙◌, Bool, false, Option, some, subst, sym}
use reservac_ia.Monad.{
  Exn, Result, ok, err, State, Action, lift, or_raise, raise_if, and_then, with_connection, ◌>>=◌,
}

pub record Succeeds {A : Type 0} (m : Action A) (s : State) (Q : A → State → Type 0) : Type 0 where
  pub answer : A
  pub run : (m s).0 ≡ ok answer
  pub post : Q answer (m s).1

and_then-Succeeds :
    {A B : Type 0} (f : A → Action B) (s : State) (R : B → State → Type 0) (r : Result A) (a : A)
    → r ≡ ok a
    → Succeeds (f a) s R
    → (b : B) × ((and_then r f s).0 ≡ ok b) × R b (and_then r f s).1
and_then-Succeeds f s R (ok x) a e h =
    let same : x ≡ a = cc in
    let here = subst (λ y. Succeeds (f y) s R) (sym same) h in (here.answer, here.run, here.post)
and_then-Succeeds f s R (err x) a e h = absurd (cc)

pub bind-Succeeds :
    {A B : Type 0} (m : Action A) (f : A → Action B) (s : State) (Q : A → State → Type 0)
    (R : B → State → Type 0)
    → Succeeds m s Q
    → ((a : A) (t : State) → Q a t → Succeeds (f a) t R)
    → Succeeds (m >>= f) s R
bind-Succeeds m f s Q R h g =
    let (b, run, post) =
      and_then-Succeeds f (m s).1 R (m s).0 h.answer h.run (g h.answer (m s).1 h.post) in
    record { answer = b; run = run; post = post }

pub weaken-Succeeds :
    {A : Type 0} (m : Action A) (s : State) (Q R : A → State → Type 0)
    → Succeeds m s Q
    → ((a : A) (t : State) → Q a t → R a t)
    → Succeeds m s R
weaken-Succeeds m s Q R h g = record {
  answer = h.answer;
  run = h.run;
  post = g h.answer (m s).1 h.post;
}

-- A value that is there is passed on.
pub or_raise-Succeeds :
    {A : Type 0} (e : Exn) (o : Option A) (a : A) (s : State)
    → o ≡ some a
    → Succeeds (or_raise e o) s (λ x t. (x ≡ a) × (t ≡ s))
or_raise-Succeeds e o a s h =
    subst (λ x. Succeeds (or_raise e x) s (λ x t. (x ≡ a) × (t ≡ s))) (sym h)
      (record { answer = a; run = refl; post = (refl, refl) })

pub raise_if-Succeeds :
    (b : Bool) (e : Exn) (s : State) → b ≡ false → Succeeds (raise_if b e) s (λ _ t. t ≡ s)
raise_if-Succeeds b e s h =
    subst (λ x. Succeeds (raise_if x e) s (λ _ t. t ≡ s)) (sym h)
      (record { answer = tt; run = refl; post = refl })

-- A result that is there is passed on.
pub lift-Succeeds :
    {A B : Type 0} (r : Result A) (a : A) (f : A → Action B) (s : State) (R : B → State → Type 0)
    → r ≡ ok a
    → Succeeds (f a) s R
    → Succeeds (lift r >>= f) s R
lift-Succeeds r a f s R e h = subst (λ x. Succeeds (lift x >>= f) s R) (sym e) h

-- A method that does here what another does.
pub same-Succeeds :
    {A : Type 0} (m k : Action A) (s : State) (Q : A → State → Type 0)
    → m s ≡ k s
    → Succeeds k s Q
    → Succeeds m s Q
same-Succeeds m k s Q e h = record {
  answer = h.answer;
  run = ap (λ x. x.0) e ∙ h.run;
  post = subst (λ x. Q h.answer x.1) (sym e) h.post;
}

-- What returns is committed.
pub with_connection-Succeeds :
    {A : Type 0} (m : Action A) (s : State) (Q : A → State → Type 0)
    → Succeeds m s Q
    → Succeeds (with_connection m) s Q
with_connection-Succeeds {A} m s Q h =
    same-Succeeds (with_connection m) _ s Q refl (by_cases (m s).0 (m s).1 h.run h.post)
  where
    by_cases :
        (r : Result A) (t : State)
        → r ≡ ok h.answer
        → Q h.answer t
        → Succeeds (with_connection (λ _. (r, t))) s Q
    by_cases (ok a) t e q = record { answer = h.answer; run = e; post = q }
    by_cases (err x) t e q = absurd (cc)
