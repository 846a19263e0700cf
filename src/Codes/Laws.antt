-- ===== src/Codes/Laws.antt =====
-- Laws of app/codes.py: generated codes, and normal forms.
use reservac_ia.Base.{
  ℕ, zero, suc, ◌%◌, ◌<◌, ◌≡◌, refl, ap, true, false, [], ◌∷◌, ◌++◌, All, length, ◌==◌, ==_iff,
  Bool-cases, inl, inr, arith, subst, sym, Text, take, drop, ◌∙◌,
}
use reservac_ia.Model.{Env}
use reservac_ia.Monad.{State, ok}
use reservac_ia.Codes.{
  alphabet, nth, pick_symbol, generate_go, generate_code, upper, is_separator, normalize_code,
  contains, all, is_well_formed,
}

-- A symbol is a capital or a digit, and no separator.
abbrev Symbol : ℕ → Type 0
Symbol c = (contains c alphabet ≡ true) × (upper c ≡ c) × (is_separator c ≡ false)

alphabet-Symbol : All Symbol alphabet
unfolding upper
alphabet-Symbol = search

contains-All : (P : ℕ → Type 0) (c : ℕ) (s : Text) → All P s → contains c s ≡ true → P c
contains-All P c [] h e = absurd (cc)
contains-All P c (d ∷ s) h e = elim (Bool-cases (d == c)) [
  | inl t ↦ subst P ((==_iff d c).0 t) h.0
  | inr f ↦ contains-All P c s h.1 (ground arith)
]

nth-All : (P : ℕ → Type 0) (i : ℕ) (s : Text) → All P s → i < length s → P (nth s i)
nth-All P i [] h k = absurd (omega arith)
nth-All P zero (c ∷ s) h k = h.0
nth-All P (suc i) (c ∷ s) h k = nth-All P i s h.1 (omega arith)

pick_symbol-Symbol : (i : ℕ) → Symbol (pick_symbol i)
unfolding pick_symbol
pick_symbol-Symbol i = nth-All Symbol (i % 27) alphabet alphabet-Symbol (omega arith)

-- Symbols are left as they are.
normalize-symbols : (s : Text) → All Symbol s → normalize_code s ≡ s
unfolding normalize_code
normalize-symbols [] h = refl
normalize-symbols (c ∷ s) h = rw (h.0.1, h.0.2) (ap (λ t. c ∷ t) (normalize-symbols s h.1))

all-symbols : (s : Text) → All Symbol s → all (λ c. contains c alphabet) s ≡ true
all-symbols [] h = refl
all-symbols (c ∷ s) h = rw (h.0.0) (all-symbols s h.1)

module _ (env : Env) where
  generate_go-symbols :
      (n : ℕ) (s : State)
      → (code : Text) × ((generate_go env n s).0 ≡ ok code) × (length code ≡ n) × All Symbol code
  unfolding generate_go
  generate_go-symbols zero s = ([], refl, refl, tt)
  generate_go-symbols (suc n) s =
      let (code, e, l, h) = generate_go-symbols n (record s { draws = suc s.draws }) in
      let c = pick_symbol (env.choice s.draws) in
      (c ∷ code, rw e refl, omega (arith, l), (pick_symbol-Symbol (env.choice s.draws), h))

  -- generate_code always returns a code, which is well formed and is its own normal form, whatever
  -- the random source gives.
  pub generate_code-IsWellFormed :
      (s : State)
      → (code : Text) × ((generate_code env s).0 ≡ ok code)
        × (is_well_formed code ≡ true)
        × (normalize_code code ≡ code)
  unfolding generate_code is_well_formed
  generate_code-IsWellFormed s =
      let (code, e, l, h) = generate_go-symbols 6 s in
      let same = normalize-symbols code h in (code, e, rw (same, l) (all-symbols code h), same)

upper-twice : (c : ℕ) → upper (upper c) ≡ upper c
unfolding upper
upper-twice c = ground arith

-- Normalising a code a second time changes nothing.
normalize_code-idempotent : (raw : Text) → normalize_code (normalize_code raw) ≡ normalize_code raw
unfolding normalize_code
normalize_code-idempotent [] = refl
normalize_code-idempotent (c ∷ raw) = elim (Bool-cases (is_separator (upper c))) [
  | inl t ↦ rw t (normalize_code-idempotent raw)
  | inr f ↦ rw (f, upper-twice c, f) (ap (λ t. upper c ∷ t) (normalize_code-idempotent raw))
]

-- Separators do not matter, wherever they stand.
normalize-append : (s t : Text) → normalize_code (s ++ t) ≡ normalize_code s ++ normalize_code t
unfolding normalize_code
normalize-append [] t = refl
normalize-append (c ∷ s) t = elim (Bool-cases (is_separator (upper c))) [
  | inl e ↦ rw e (normalize-append s t)
  | inr e ↦ rw e (ap (λ r. upper c ∷ r) (normalize-append s t))
]

take-drop : (n : ℕ) (s : Text) → take n s ++ drop n s ≡ s
take-drop zero s = refl
take-drop (suc n) [] = refl
take-drop (suc n) (c ∷ s) = ap (λ r. c ∷ r) (take-drop n s)

pub normalize-dashed :
    (n : ℕ) (s : Text) → normalize_code (take n s ++ b'-' ∷ drop n s) ≡ normalize_code s
unfolding normalize_code
normalize-dashed n s =
    normalize-append (take n s) (b'-' ∷ drop n s)
    ∙ sym (normalize-append (take n s) (drop n s))
    ∙ ap normalize_code (take-drop n s)
