-- ===== src/Base/Select.antt =====
-- SELECT, UPDATE and DELETE over a list of rows in rowid order, with Boolean conditions.
use Prim.Native.Nat.{ℕ, suc}
use mathlib.Core.Path.{◌≡◌, refl}
use mathlib.Core.Logic.{inl, inr}
use mathlib.Core.Bool.{Bool, true, false, ◌||◌}
use mathlib.Core.Option.{Option, none, some}
use mathlib.Core.List.{List, [], ◌∷◌}
use native.Mathlib.Omega.{arith}
use reservac_ia.Base.Tests.{if◌then◌else◌, Bool-cases}
use reservac_ia.Base.Lists.{length, All, All-imp}

module _ {ℓ} {A : Type ℓ} where
  -- `SELECT ... WHERE p`
  abbrev pub select : (A → Bool) → List A → List A
  select p [] = []
  select p (x ∷ xs) = if p x then x ∷ select p xs else select p xs

  -- `SELECT ... WHERE p` with `fetchone`
  abbrev pub find : (A → Bool) → List A → Option A
  find p [] = none
  find p (x ∷ xs) = if p x then some x else find p xs

  -- `SELECT COUNT(*) ... WHERE p`
  abbrev pub count_where : (A → Bool) → List A → ℕ
  count_where p [] = 0
  count_where p (x ∷ xs) = if p x then suc (count_where p xs) else count_where p xs

  -- Python's `any` over a generator
  abbrev pub any : (A → Bool) → List A → Bool
  any p [] = false
  any p (x ∷ xs) = p x || any p xs

  -- `UPDATE ... SET f WHERE p`
  abbrev pub update_where : (A → Bool) → (A → A) → List A → List A
  update_where p f [] = []
  update_where p f (x ∷ xs) = (if p x then f x else x) ∷ update_where p f xs

  -- `DELETE ... WHERE p`
  abbrev pub delete_where : (A → Bool) → List A → List A
  delete_where p [] = []
  delete_where p (x ∷ xs) = if p x then delete_where p xs else x ∷ delete_where p xs

  pub find-some : (p : A → Bool) (xs : List A) {x : A} → find p xs ≡ some x → p x ≡ true
  find-some p [] e = cc
  find-some p (y ∷ xs) {x} e = ground (arith, find-some p xs {x = x})

  pub find-All {κ} :
      (P : A → Type κ) (p : A → Bool) (xs : List A) {x : A} → All P xs → find p xs ≡ some x → P x
  find-All P p [] h e = absurd (cc)
  find-All P p (y ∷ xs) {x} h e = elim (Bool-cases (p y)) [
    | inl t ↦ rw (← some_inj (rw t at e)) h.0
    | inr f ↦ find-All P p xs h.1 (rw f at e)
  ]
    where
      some_inj : {a b : A} → some a ≡ some b → a ≡ b
      some_inj q = cc

  pub find-none : (p : A → Bool) (xs : List A) → find p xs ≡ none → All (λ x. p x ≡ false) xs
  find-none p [] e = tt
  find-none p (x ∷ xs) e = ground (arith, find-none p xs)

  pub any-false : (p : A → Bool) (xs : List A) → any p xs ≡ false → All (λ x. p x ≡ false) xs
  any-false p [] e = tt
  any-false p (x ∷ xs) e = ground (arith, any-false p xs)

  pub All-any-false : (p : A → Bool) (xs : List A) → All (λ x. p x ≡ false) xs → any p xs ≡ false
  All-any-false p [] h = refl
  All-any-false p (x ∷ xs) h = ground (arith, All-any-false p xs h.1)

  pub count_where_zero :
      (p : A → Bool) (xs : List A) → count_where p xs ≡ 0 → All (λ x. p x ≡ false) xs
  count_where_zero p [] e = tt
  count_where_zero p (x ∷ xs) e = ground (arith, count_where_zero p xs)

  pub length-update_where :
      (p : A → Bool) (f : A → A) (xs : List A) → length (update_where p f xs) ≡ length xs
  length-update_where p f [] = refl
  length-update_where p f (x ∷ xs) = omega (arith, length-update_where p f xs)

  pub All-select {κ} :
      (P : A → Type κ) (p : A → Bool) (xs : List A) → All P xs → All P (select p xs)
  All-select P p [] h = tt
  All-select P p (x ∷ xs) h = elim (Bool-cases (p x)) [
    | inl t ↦ rw t (h.0, All-select P p xs h.1)
    | inr f ↦ rw f (All-select P p xs h.1)
  ]

  pub select_holds : (p : A → Bool) (xs : List A) → All (λ x. p x ≡ true) (select p xs)
  select_holds p [] = tt
  select_holds p (x ∷ xs) = elim (Bool-cases (p x)) [
    | inl t ↦ rw t (t, select_holds p xs)
    | inr f ↦ rw f (select_holds p xs)
  ]

  pub All-delete_where {κ} :
      (P : A → Type κ) (p : A → Bool) (xs : List A) → All P xs → All P (delete_where p xs)
  All-delete_where P p [] h = tt
  All-delete_where P p (x ∷ xs) h = elim (Bool-cases (p x)) [
    | inl t ↦ rw t (All-delete_where P p xs h.1)
    | inr f ↦ rw f (h.0, All-delete_where P p xs h.1)
  ]

  -- What every row has after an UPDATE: the changed rows by `f`, the others as they were.
  pub All-update_where {κ} :
      (P : A → Type κ) (p : A → Bool) (f : A → A) (xs : List A)
      → All (λ x. p x ≡ true → P (f x)) xs
      → All P xs
      → All P (update_where p f xs)
  All-update_where P p f [] g h = tt
  All-update_where P p f (x ∷ xs) g h = elim (Bool-cases (p x)) [
    | inl t ↦ rw t (g.0 t, All-update_where P p f xs g.1 h.1)
    | inr e ↦ rw e (h.0, All-update_where P p f xs g.1 h.1)
  ]

  -- An UPDATE where every row comes to have `P`, changed or not.
  pub All-update_where_cases {κ} :
      (P : A → Type κ) (p : A → Bool) (f : A → A)
      → ((x : A) → p x ≡ true → P (f x))
      → ((x : A) → p x ≡ false → P x)
      → (xs : List A) → All P (update_where p f xs)
  All-update_where_cases P p f g h [] = tt
  All-update_where_cases P p f g h (x ∷ xs) = elim (Bool-cases (p x)) [
    | inl t ↦ rw t (g x t, All-update_where_cases P p f g h xs)
    | inr e ↦ rw e (h x e, All-update_where_cases P p f g h xs)
  ]

  -- An assignment that keeps `P` keeps it of all rows.
  pub All-update_where_keep {κ} :
      (P : A → Type κ) (p : A → Bool) (f : A → A) (xs : List A)
      → ((x : A) → P x → P (f x))
      → All P xs
      → All P (update_where p f xs)
  All-update_where_keep P p f xs g h =
      All-update_where P p f xs (All-imp P (λ x. p x ≡ true → P (f x)) (λ x q _. g x q) xs h) h
