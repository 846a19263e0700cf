-- ===== src/Base/Updates.antt =====
-- An UPDATE of the one row with an id, and what a query finds after it; queries over a part of the rows.
use Prim.Native.Nat.{ℕ, suc}
use mathlib.Core.Path.{◌≡◌, refl, sym, ap, subst}
use mathlib.Core.Logic.{◌≢◌, inl, inr}
use mathlib.Core.Bool.{Bool, true, false, ◌||◌}
use mathlib.Core.Option.{some}
use mathlib.Core.List.{List, [], ◌∷◌, ◌++◌}
use native.Mathlib.Omega.{arith}
use reservac_ia.Base.Tests.{◌==◌, Bool-cases, if◌then◌else◌}
use reservac_ia.Base.Lists.{All, All-imp, length}
use reservac_ia.Base.Select.{select, find, any, count_where, update_where, All-select}
use reservac_ia.Base.Order.{insert_by, order_by, All-insert_by, All-order_by}
use reservac_ia.Base.Pairs.{Pairwise, DistinctIds}

module _ {ℓ} {A : Type ℓ} where
  pub any-snoc : (p : A → Bool) (xs : List A) (y : A) → any p (xs ++ y ∷ []) ≡ (any p xs || p y)
  any-snoc p [] y = ground arith
  any-snoc p (x ∷ xs) y = ground (arith, any-snoc p xs y)

  -- Rows that a query leaves out anyway may be left out before.
  pub any-select :
      (q p : A → Bool)
      → ((x : A) → q x ≡ true → p x ≡ true)
      → (xs : List A) → any q (select p xs) ≡ any q xs
  any-select q p f [] = refl
  any-select q p f (x ∷ xs) = elim (Bool-cases (q x)) [
    | inl t ↦ rw (f x t, t) refl
    | inr e ↦ ground (arith, any-select q p f xs)
  ]

  pub count_none : (p : A → Bool) (xs : List A) → any p xs ≡ false → count_where p xs ≡ 0
  count_none p [] e = refl
  count_none p (x ∷ xs) e = ground (arith, count_none p xs)

  pub length-select : (p : A → Bool) (xs : List A) → length (select p xs) ≡ count_where p xs
  length-select p [] = refl
  length-select p (x ∷ xs) = ground (arith, length-select p xs)

  length-insert_by :
      (le : A → A → Bool) (x : A) (ys : List A) → length (insert_by le x ys) ≡ suc (length ys)
  length-insert_by le x [] = refl
  length-insert_by le x (y ∷ ys) = ground (arith, length-insert_by le x ys)

  pub length-order_by : (le : A → A → Bool) (xs : List A) → length (order_by le xs) ≡ length xs
  length-order_by le [] = refl
  length-order_by le (x ∷ xs) =
      omega (arith, length-insert_by le x (order_by le xs), length-order_by le xs)

  -- What holds of every selected row, back to the table.
  pub All-of-select {κ} :
      (P : A → Type κ) (p : A → Bool) (xs : List A)
      → All P (select p xs)
      → All (λ x. p x ≡ true → P x) xs
  All-of-select P p [] h = tt
  All-of-select P p (x ∷ xs) h = elim (Bool-cases (p x)) [
    | inl t ↦ let k : All P (x ∷ select p xs) = rw t at h in (λ _. k.0, All-of-select P p xs k.1)
    | inr e ↦ let k : All P (select p xs) = rw e at h in (λ q. absurd (cc), All-of-select P p xs k)
  ]

  pub All-to-select {κ} :
      (P : A → Type κ) (p : A → Bool) (xs : List A)
      → All (λ x. p x ≡ true → P x) xs
      → All P (select p xs)
  All-to-select P p [] h = tt
  All-to-select P p (x ∷ xs) h = elim (Bool-cases (p x)) [
    | inl t ↦ rw t (h.0 t, All-to-select P p xs h.1)
    | inr e ↦ rw e (All-to-select P p xs h.1)
  ]

  pub All-both {κ μ} :
      (P : A → Type κ) (Q : A → Type μ) (xs : List A)
      → All P xs
      → All Q xs
      → All (λ x. P x × Q x) xs
  All-both P Q [] h k = tt
  All-both P Q (x ∷ xs) h k = ((h.0, k.0), All-both P Q xs h.1 k.1)

  -- An UPDATE, by what is known of the rows that it changes and of those that it does not.
  pub All-update_where_split {κ} :
      (P : A → Type κ) (p : A → Bool) (f : A → A) (xs : List A)
      → All (λ x. p x ≡ true → P (f x)) xs
      → All (λ x. p x ≡ false → P x) xs
      → All P (update_where p f xs)
  All-update_where_split P p f [] g h = tt
  All-update_where_split P p f (x ∷ xs) g h = elim (Bool-cases (p x)) [
    | inl t ↦ rw t (g.0 t, All-update_where_split P p f xs g.1 h.1)
    | inr e ↦ rw e (h.0 e, All-update_where_split P p f xs g.1 h.1)
  ]

module _ {ℓ κ} {A : Type ℓ} (R : A → A → Type κ) where
  pub Pairwise-select : (p : A → Bool) (xs : List A) → Pairwise R xs → Pairwise R (select p xs)
  Pairwise-select p [] h = tt
  Pairwise-select p (x ∷ xs) h = elim (Bool-cases (p x)) [
    | inl t ↦ rw t (All-select (R x) p xs h.0, Pairwise-select p xs h.1)
    | inr f ↦ rw f (Pairwise-select p xs h.1)
  ]

  module _ (le : A → A → Bool) (symmetric : (x y : A) → R x y → R y x) where
    Pairwise-insert_by :
        (x : A) (ys : List A) → All (R x) ys → Pairwise R ys → Pairwise R (insert_by le x ys)
    Pairwise-insert_by x [] h k = (tt, tt)
    Pairwise-insert_by x (y ∷ ys) h k = elim (Bool-cases (le x y)) [
      | inl t ↦ rw t (h, k)
      | inr f ↦
          rw f
            (All-insert_by (R y) le x ys (symmetric x y h.0) k.0, Pairwise-insert_by x ys h.1 k.1)
    ]

    pub Pairwise-order_by : (xs : List A) → Pairwise R xs → Pairwise R (order_by le xs)
    Pairwise-order_by [] h = tt
    Pairwise-order_by (x ∷ xs) h =
        Pairwise-insert_by x (order_by le xs) (All-order_by (R x) le xs h.0)
          (Pairwise-order_by xs h.1)

-- The UPDATE of the row with id `i`, where ids are distinct and `x` is that row.
module _ {ℓ} {A : Type ℓ} (id_of : A → ℕ) (i : ℕ) (f : A → A) where
  abbrev named : A → Bool
  named x = id_of x == i

  pub untouched : (xs : List A) → All (λ y. named y ≡ false) xs → update_where named f xs ≡ xs
  untouched [] h = refl
  untouched (x ∷ xs) h = rw (h.0) (ap (λ t. x ∷ t) (untouched xs h.1))

  no_other :
      (x : A) (xs : List A)
      → named x ≡ true
      → All (λ y. id_of x ≢ id_of y) xs
      → All (λ y. named y ≡ false) xs
  no_other x xs t h = All-imp _ _ (λ y n. other y n) xs h
    where
      other : (y : A) → id_of x ≢ id_of y → named y ≡ false
      other y n = ground arith

  -- The list with the found row in sight.
  module _ (x : A) where
    abbrev Finds : List A → Type ℓ
    Finds xs = find named xs ≡ some x

    -- By the position of the row: at the head, with no other behind, or further on.
    pub by_position {κ} :
        (P : List A → List A → Type κ)
        → ((xs : List A) → P (x ∷ xs) (f x ∷ xs))
        → ((y : A) (xs ys : List A) → P xs ys → P (y ∷ xs) (y ∷ ys))
        → (xs : List A) → DistinctIds id_of xs
        → Finds xs
        → P xs (update_where named f xs)
    by_position P here later [] d e = absurd (cc)
    by_position P here later (y ∷ ys) d e = elim (Bool-cases (named y)) [
      | inl t ↦
          let first : some y ≡ some x = rw t at e in
          let same : x ≡ y = cc in
          let rest = no_other y ys t d.0 in
          rw (t, untouched ys rest)
            (subst (λ z. P (y ∷ ys) (f z ∷ ys)) same
              (subst (λ z. P (z ∷ ys) (f x ∷ ys)) same (here ys)))
      | inr n ↦
          let next : Finds ys = rw n at e in
          rw n (later y ys (update_where named f ys) (by_position P here later ys d.1 next))
    ]

    pub any-update :
        (p : A → Bool) (xs : List A)
        → DistinctIds id_of xs
        → Finds xs
        → p x ≡ false
        → any p (update_where named f xs) ≡ (any p xs || p (f x))
    any-update p xs d e n =
        by_position (λ before after. any p after ≡ (any p before || p (f x))) (λ ys. ground arith)
          (λ y ys zs h. ground arith) xs d e

    pub count-update :
        (p : A → Bool) (xs : List A)
        → DistinctIds id_of xs
        → Finds xs
        → p x ≡ true
        → p (f x) ≡ false
        → suc (count_where p (update_where named f xs)) ≡ count_where p xs
    count-update p xs d e t n =
        by_position (λ before after. suc (count_where p after) ≡ count_where p before)
          (λ ys. ground arith) (λ y ys zs h. ground arith) xs d e

    -- The UPDATE writes one row.
    pub update-constant :
        (xs : List A)
        → DistinctIds id_of xs
        → Finds xs
        → update_where named f xs ≡ update_where named (λ _. f x) xs
    update-constant [] d e = refl
    update-constant (y ∷ ys) d e = elim (Bool-cases (named y)) [
      | inl t ↦
          let first : some y ≡ some x = rw t at e in
          let same : y ≡ x = cc in
          let rest = no_other y ys t d.0 in
          rw (t, untouched ys rest, same) (ap (λ t. f x ∷ t) (sym (constant ys rest)))
      | inr n ↦
          let next : Finds ys = rw n at e in rw n (ap (λ t. y ∷ t) (update-constant ys d.1 next))
    ]
      where
        constant :
            (zs : List A) → All (λ y. named y ≡ false) zs → update_where named (λ _. f x) zs ≡ zs
        constant [] h = refl
        constant (z ∷ zs) h = rw (h.0) (ap (λ t. z ∷ t) (constant zs h.1))

  -- A row under another id is found as before.
  pub find-update_ne :
      (j : ℕ)
      → ((x : A) → id_of (f x) ≡ id_of x)
      → i ≢ j
      → (xs : List A)
      → find (λ y. id_of y == j) (update_where named f xs) ≡ find (λ y. id_of y == j) xs
  find-update_ne j keep n [] = refl
  find-update_ne j keep n (x ∷ xs) = elim (Bool-cases (named x)) [
    | inl t ↦
        let there : (id_of (f x) == j) ≡ false = let k = keep x in ground arith in
        let here : (id_of x == j) ≡ false = ground arith in
        rw (t, there, here) (find-update_ne j keep n xs)
    | inr e ↦ rw e (ap (λ t. if id_of x == j then some x else t) (find-update_ne j keep n xs))
  ]
