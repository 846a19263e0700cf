-- ===== src/Base/Order.antt =====
-- ORDER BY: a stable insertion sort by a Boolean "comes before or ties".
use mathlib.Core.Path.{◌≡◌}
use mathlib.Core.Logic.{inl, inr}
use mathlib.Core.Bool.{Bool, true, false}
use mathlib.Core.List.{List, [], ◌∷◌}
use reservac_ia.Base.Tests.{if◌then◌else◌, Bool-cases}
use reservac_ia.Base.Lists.{All, All-imp}

module _ {ℓ} {A : Type ℓ} where
  abbrev pub insert_by : (A → A → Bool) → A → List A → List A
  insert_by le x [] = x ∷ []
  insert_by le x (y ∷ ys) = if le x y then x ∷ y ∷ ys else y ∷ insert_by le x ys

  abbrev pub order_by : (A → A → Bool) → List A → List A
  order_by le [] = []
  order_by le (x ∷ xs) = insert_by le x (order_by le xs)

  abbrev pub IsOrdered : (A → A → Bool) → List A → Type ℓ
  IsOrdered le [] = Unit
  IsOrdered le (x ∷ xs) = All (λ y. le x y ≡ true) xs × IsOrdered le xs

  pub All-insert_by {κ} :
      (P : A → Type κ) (le : A → A → Bool) (x : A) (ys : List A)
      → P x
      → All P ys
      → All P (insert_by le x ys)
  All-insert_by P le x [] p h = (p, tt)
  All-insert_by P le x (y ∷ ys) p h = elim (Bool-cases (le x y)) [
    | inl t ↦ rw t (p, h)
    | inr f ↦ rw f (h.0, All-insert_by P le x ys p h.1)
  ]

  pub All-order_by {κ} :
      (P : A → Type κ) (le : A → A → Bool) (xs : List A) → All P xs → All P (order_by le xs)
  All-order_by P le [] h = tt
  All-order_by P le (x ∷ xs) h =
      All-insert_by P le x (order_by le xs) h.0 (All-order_by P le xs h.1)

  -- What holds of every row of the ordered list holds of every row of the given one.
  pub All-of-insert_by {κ} :
      (P : A → Type κ) (le : A → A → Bool) (x : A) (ys : List A)
      → All P (insert_by le x ys)
      → P x × All P ys
  All-of-insert_by P le x [] h = h
  All-of-insert_by P le x (y ∷ ys) h = elim (Bool-cases (le x y)) [
    | inl t ↦ let k : All P (x ∷ y ∷ ys) = rw t at h in (k.0, k.1)
    | inr f ↦
        let k : All P (y ∷ insert_by le x ys) = rw f at h in
        let (px, rest) = All-of-insert_by P le x ys k.1 in (px, (k.0, rest))
  ]

  pub All-of-order_by {κ} :
      (P : A → Type κ) (le : A → A → Bool) (xs : List A) → All P (order_by le xs) → All P xs
  All-of-order_by P le [] h = tt
  All-of-order_by P le (x ∷ xs) h =
      let (px, rest) = All-of-insert_by P le x (order_by le xs) h in
      (px, All-of-order_by P le xs rest)

  module _ (le : A → A → Bool) (total : (x y : A) → le x y ≡ false → le y x ≡ true)
      (trans : (x y z : A) → le x y ≡ true → le y z ≡ true → le x z ≡ true) where
    insert_by-IsOrdered : (x : A) (ys : List A) → IsOrdered le ys → IsOrdered le (insert_by le x ys)
    insert_by-IsOrdered x [] h = (tt, tt)
    insert_by-IsOrdered x (y ∷ ys) h = elim (Bool-cases (le x y)) [
      | inl t ↦ rw t ((t, All-imp _ _ (λ z q. trans x y z t q) ys h.0), h)
      | inr f ↦ rw f (
        All-insert_by (λ z. le y z ≡ true) le x ys (total x y f) h.0,
        insert_by-IsOrdered x ys h.1,
      )
    ]

    pub order_by-IsOrdered : (xs : List A) → IsOrdered le (order_by le xs)
    order_by-IsOrdered [] = tt
    order_by-IsOrdered (x ∷ xs) = insert_by-IsOrdered x (order_by le xs) (order_by-IsOrdered xs)
