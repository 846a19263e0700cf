-- ===== src/Base/Pairs.antt =====
-- A relation between any two rows of a list, under INSERT, UPDATE and DELETE.
use Prim.Native.Nat.{ℕ}
use mathlib.Core.Path.{◌≡◌, subst}
use mathlib.Core.Logic.{◌≢◌, inl, inr}
use mathlib.Core.Bool.{Bool, true, false, ◌&&◌}
use mathlib.Core.Option.{some}
use mathlib.Core.List.{List, [], ◌∷◌, ◌++◌}
use native.Mathlib.Omega.{arith}
use reservac_ia.Base.Tests.{◌==◌, ==_refl, ==_iff, Bool-cases}
use reservac_ia.Base.Lists.{All, All-imp, All-snoc}
use reservac_ia.Base.Select.{
  select, find, find-All, any, update_where, delete_where, All-delete_where,
}

module _ {ℓ κ} {A : Type ℓ} (R : A → A → Type κ) where
  abbrev pub Pairwise : List A → Type κ
  Pairwise [] = Unit
  Pairwise (x ∷ xs) = All (R x) xs × Pairwise xs

  pub Pairwise-snoc :
      (xs : List A) (y : A) → Pairwise xs → All (λ x. R x y) xs → Pairwise (xs ++ y ∷ [])
  Pairwise-snoc [] y p h = (tt, tt)
  Pairwise-snoc (x ∷ xs) y p h = (All-snoc (R x) xs y p.0 h.0, Pairwise-snoc xs y p.1 h.1)

  pub Pairwise-delete_where :
      (p : A → Bool) (xs : List A) → Pairwise xs → Pairwise (delete_where p xs)
  Pairwise-delete_where p [] h = tt
  Pairwise-delete_where p (x ∷ xs) h = elim (Bool-cases (p x)) [
    | inl t ↦ rw t (Pairwise-delete_where p xs h.1)
    | inr f ↦ rw f (All-delete_where (R x) p xs h.0, Pairwise-delete_where p xs h.1)
  ]

  -- An UPDATE that keeps the relation for each changed side keeps it for all.
  module _ (p : A → Bool) (f : A → A) (left : (x y : A) → R x y → R (f x) y)
      (right : (x y : A) → R x y → R x (f y)) where
    update_right : (x : A) (xs : List A) → All (R x) xs → All (R x) (update_where p f xs)
    update_right x [] h = tt
    update_right x (y ∷ ys) h = elim (Bool-cases (p y)) [
      | inl t ↦ rw t (right x y h.0, update_right x ys h.1)
      | inr e ↦ rw e (h.0, update_right x ys h.1)
    ]

    pub Pairwise-update_where : (xs : List A) → Pairwise xs → Pairwise (update_where p f xs)
    Pairwise-update_where [] h = tt
    Pairwise-update_where (x ∷ xs) h = elim (Bool-cases (p x)) [
      | inl t ↦ rw t (
        update_right (f x) xs (All-imp (R x) (R (f x)) (left x) xs h.0),
        Pairwise-update_where xs h.1,
      )
      | inr e ↦ rw e (update_right x xs h.0, Pairwise-update_where xs h.1)
    ]

  -- Putting a new row in the place of the one row that `p` names.
  module _ (p : A → Bool) (r : A) (symmetric : (x y : A) → R x y → R y x)
      (one : (x y : A) → p x ≡ true → p y ≡ true → R x y → ⊥) where
    others : (x : A) (xs : List A) → p x ≡ true → All (R x) xs → All (λ y. p y ≡ false) xs
    others x [] t h = tt
    others x (y ∷ ys) t h = elim (Bool-cases (p y)) [
      | inl u ↦ absurd (one x y t u h.0)
      | inr e ↦ (e, others x ys t h.1)
    ]

    put_right :
        (x : A) (xs : List A) → All (R x) xs → R x r → All (R x) (update_where p (λ _. r) xs)
    put_right x [] h q = tt
    put_right x (y ∷ ys) h q = elim (Bool-cases (p y)) [
      | inl t ↦ rw t (q, put_right x ys h.1 q)
      | inr e ↦ rw e (h.0, put_right x ys h.1 q)
    ]

    put_head :
        (xs : List A)
        → All (λ y. p y ≡ false) xs
        → All (λ y. p y ≡ false → R r y) xs
        → All (R r) (update_where p (λ _. r) xs)
    put_head [] n h = tt
    put_head (y ∷ ys) n h = rw (n.0) (h.0 n.0, put_head ys n.1 h.1)

    pub Pairwise-put :
        (xs : List A)
        → Pairwise xs
        → All (λ y. p y ≡ false → R r y) xs
        → Pairwise (update_where p (λ _. r) xs)
    Pairwise-put [] h g = tt
    Pairwise-put (x ∷ xs) h g = elim (Bool-cases (p x)) [
      | inl t ↦ rw t (put_head xs (others x xs t h.0) g.1, Pairwise-put xs h.1 g.1)
      | inr e ↦ rw e (put_right x xs h.0 (symmetric r x (g.0 e)), Pairwise-put xs h.1 g.1)
    ]

-- Rows with distinct ids: the lookup by id finds the row itself.
module _ {ℓ} {A : Type ℓ} (id_of : A → ℕ) where
  abbrev pub DistinctIds : List A → Type 0
  DistinctIds = Pairwise (λ a b. id_of a ≢ id_of b)

  find_later :
      (x : A) (xs ys : List A)
      → All (λ y. id_of x ≢ id_of y) ys
      → All (λ y. find (λ z. id_of z == id_of y) xs ≡ some y) ys
      → All (λ y. find (λ z. id_of z == id_of y) (x ∷ xs) ≡ some y) ys
  find_later x xs [] n h = tt
  find_later x xs (y ∷ ys) n h = (
    elim (Bool-cases (id_of x == id_of y)) [
      | inl e ↦ absurd (n.0 ((==_iff _ _).0 e))
      | inr e ↦ rw e h.0
    ],
    find_later x xs ys n.1 h.1,
  )

  pub find_self :
      (xs : List A) → DistinctIds xs → All (λ y. find (λ z. id_of z == id_of y) xs ≡ some y) xs
  find_self [] h = tt
  find_self (x ∷ xs) h = (rw (==_refl (id_of x)), find_later x xs xs h.0 (find_self xs h.1))

pub any-select-false {ℓ} :
    {A : Type ℓ} (p q : A → Bool) (xs : List A)
    → any p (select q xs) ≡ false
    → All (λ x. (q x && p x) ≡ false) xs
any-select-false p q [] h = tt
any-select-false p q (x ∷ xs) h = ground (arith, any-select-false p q xs)

-- The row that a lookup finds stands in the relation to every row that the lookup passes over.
module _ {ℓ κ} {A : Type ℓ} (R : A → A → Type κ) (symmetric : (x y : A) → R x y → R y x)
    (p : A → Bool) where
  pub find-others :
      (xs : List A) (r : A) → Pairwise R xs → find p xs ≡ some r → All (λ y. p y ≡ false → R r y) xs
  find-others [] r h e = tt
  find-others (x ∷ xs) r h e = elim (Bool-cases (p x)) [
    | inl t ↦
        let here : some x ≡ some r = rw t at e in
        let same : x ≡ r = cc in (λ f. cc, All-imp _ _ (λ y q _. subst (λ z. R z y) same q) xs h.0)
    | inr f ↦
        let rest : find p xs ≡ some r = rw f at e in
        (λ _. symmetric x r (find-All (R x) p xs h.0 rest), find-others xs r h.1 rest)
  ]
