-- ===== src/Middleware/Expiry.antt =====
-- Expired hits of the bucket of one key (app/middleware.py, `_SlidingWindow.hit`).
use reservac_ia.Base.{
  ℕ, ◌+◌, ◌≤◌, ◌≡◌, refl, sym, ap, Bool, true, false, List, [], ◌∷◌, ◌++◌, ltb, leb, length, select,
  All, All-snoc, IsOrdered, Bool-cases, inl, inr, arith,
}
use reservac_ia.Middleware.Window.{expire}

abbrev pub recent : (window now : ℕ) → ℕ → Bool
recent window now t = leb now (t + window)

module _ (window : ℕ) where
  -- On an ascending bucket the expired hits are a prefix.
  All-recent :
      (now t : ℕ) (bucket : List ℕ)
      → recent window now t ≡ true
      → All (λ u. leb t u ≡ true) bucket
      → select (recent window now) bucket ≡ bucket
  All-recent now t [] r h = refl
  All-recent now t (u ∷ bucket) r h =
      let here : recent window now u ≡ true = let le = h.0 in ground (arith) in
      rw here (ap (λ b. u ∷ b) (All-recent now t bucket r h.1))

  pub expire-select :
      (now : ℕ) (bucket : List ℕ)
      → IsOrdered leb bucket
      → expire window now bucket ≡ select (recent window now) bucket
  unfolding expire
  expire-select now [] h = refl
  expire-select now (t ∷ bucket) h = elim (Bool-cases (ltb (t + window) now)) [
    | inl e ↦
        let old : recent window now t ≡ false = ground arith in
        rw (e, old) (expire-select now bucket h.1)
    | inr e ↦
        let new : recent window now t ≡ true = ground arith in
        rw (e, new) (ap (λ b. t ∷ b) (sym (All-recent now t bucket new h.0)))
  ]

  pub select-recent :
      (last now : ℕ) (history : List ℕ)
      → last ≤ now
      → select (recent window now) (select (recent window last) history)
        ≡ select (recent window now) history
  select-recent last now [] h = refl
  select-recent last now (t ∷ history) h = elim (Bool-cases (recent window now t)) [
    | inl e ↦
        let before : recent window last t ≡ true = ground arith in
        rw (before, e) (ap (λ b. t ∷ b) (select-recent last now history h))
    | inr e ↦ elim (Bool-cases (recent window last t)) [
      | inl f ↦ rw (f, e) (select-recent last now history h)
      | inr f ↦ rw (f, e) (select-recent last now history h)
    ]
  ]

  pub select-snoc :
      (now : ℕ) (history : List ℕ)
      → select (recent window now) (history ++ now ∷ [])
        ≡ select (recent window now) history ++ now ∷ []
  select-snoc now [] = let here : recent window now now ≡ true = ground arith in rw here refl
  select-snoc now (t ∷ history) = elim (Bool-cases (recent window now t)) [
    | inl e ↦ rw e (ap (λ b. t ∷ b) (select-snoc now history))
    | inr e ↦ rw e (select-snoc now history)
  ]

  pub length-expire :
      (now : ℕ) (bucket : List ℕ) → length (expire window now bucket) ≤ length bucket
  unfolding expire
  length-expire now [] = omega arith
  length-expire now (t ∷ bucket) = elim (Bool-cases (ltb (t + window) now)) [
    | inl e ↦ rw e (omega (arith, length-expire now bucket))
    | inr e ↦ rw e (omega arith)
  ]

  pub IsOrdered-expire :
      (now : ℕ) (bucket : List ℕ) → IsOrdered leb bucket → IsOrdered leb (expire window now bucket)
  unfolding expire
  IsOrdered-expire now [] h = tt
  IsOrdered-expire now (t ∷ bucket) h = elim (Bool-cases (ltb (t + window) now)) [
    | inl e ↦ rw e (IsOrdered-expire now bucket h.1)
    | inr e ↦ rw e h
  ]

  pub All-expire :
      (P : ℕ → Type 0) (now : ℕ) (bucket : List ℕ) → All P bucket → All P (expire window now bucket)
  unfolding expire
  All-expire P now [] h = tt
  All-expire P now (t ∷ bucket) h = elim (Bool-cases (ltb (t + window) now)) [
    | inl e ↦ rw e (All-expire P now bucket h.1)
    | inr e ↦ rw e h
  ]

pub IsOrdered-snoc :
    (bucket : List ℕ) (now : ℕ)
    → IsOrdered leb bucket
    → All (λ t. t ≤ now) bucket
    → IsOrdered leb (bucket ++ now ∷ [])
IsOrdered-snoc [] now h k = (tt, tt)
IsOrdered-snoc (t ∷ bucket) now h k = (
  All-snoc (λ u. leb t u ≡ true) bucket now h.0 (let le = k.0 in ground arith),
  IsOrdered-snoc bucket now h.1 k.1,
)
