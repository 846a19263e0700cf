-- ===== src/Base/Least.antt =====
-- The first row of an ordered list that passes a test.
use mathlib.Core.Path.{◌≡◌}
use mathlib.Core.Logic.{inl, inr}
use mathlib.Core.Bool.{Bool, true}
use mathlib.Core.Option.{some}
use mathlib.Core.List.{List, [], ◌∷◌, map}
use reservac_ia.Base.Tests.{Bool-cases}
use reservac_ia.Base.Lists.{All, All-imp}
use reservac_ia.Base.Order.{IsOrdered}
use reservac_ia.Base.Select.{select, find}

module _ {ℓ} {A : Type ℓ} (le : A → A → Bool) (reflexive : (x : A) → le x x ≡ true)
    (p : A → Bool) where
  pub find-least :
      (xs : List A) (x : A)
      → IsOrdered le xs
      → find p xs ≡ some x
      → All (λ y. p y ≡ true → le x y ≡ true) xs
  find-least [] x h e = tt
  find-least (y ∷ ys) x h e = elim (Bool-cases (p y)) [
    | inl t ↦
        let here : some y ≡ some x = rw t at e in
        let same : y ≡ x = cc in
        (λ _. rw same (reflexive x), All-imp _ _ (λ z q _. rw (← same) q) ys h.0)
    | inr f ↦
        let rest : find p ys ≡ some x = rw f at e in (λ q. absurd (cc), find-least ys x h.1 rest)
  ]

-- From the rows of a query with WHERE, and a computed column, back to the table's.
pub All-of-map-select {ℓ κ μ} :
    {A : Type ℓ} {B : Type κ} (P : B → Type μ) (f : A → B) (p : A → Bool) (xs : List A)
    → All P (map f (select p xs))
    → All (λ x. p x ≡ true → P (f x)) xs
All-of-map-select P f p [] h = tt
All-of-map-select P f p (x ∷ xs) h = elim (Bool-cases (p x)) [
  | inl t ↦
      let k : All P (map f (x ∷ select p xs)) = rw t at h in
      (λ _. k.0, All-of-map-select P f p xs k.1)
  | inr e ↦
      let k : All P (map f (select p xs)) = rw e at h in
      (λ q. absurd (cc), All-of-map-select P f p xs k)
]
