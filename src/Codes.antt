-- ===== src/Codes.antt =====
-- app/codes.py: confirmation codes.
pub mod Laws
use reservac_ia.Base.{
  ℕ, zero, suc, ◌-◌, ◌%◌, Bool, true, false, ◌&&◌, ◌||◌, not, leb, ◌==◌, if◌then◌else◌, Option,
  none, some, List, [], ◌∷◌, map, length, select, any, Text, codes,
}
use reservac_ia.Model.{Env}
use reservac_ia.Monad.{Action, pure, draw, ◌>>=◌}

abbrev pub alphabet : Text
alphabet = codes "ACDEFGHJKMNPQRSTWXYZ2345679"

abbrev pub code_length : ℕ
code_length = 6

-- `secrets.choice` picks an index below the length of its argument.
abbrev pub nth : Text → ℕ → ℕ
nth [] i = 0
nth (c ∷ s) zero = c
nth (c ∷ s) (suc i) = nth s i

unfoldable pub pick_symbol : ℕ → ℕ
pick_symbol i = nth alphabet (i % 27)

unfoldable pub generate_go : Env → ℕ → Action Text
generate_go env zero = pure []
generate_go env (suc n) = do i ← draw env; rest ← generate_go env n; pure (pick_symbol i ∷ rest)

unfoldable pub generate_code : Env → Action Text
unfolding generate_go
generate_code env = generate_go env code_length

-- `str.upper` on the letters of ASCII.
unfoldable pub upper : ℕ → ℕ
upper c = if leb b'a' c && leb c b'z' then c - 32 else c

abbrev pub is_separator : ℕ → Bool
is_separator c = c == b'-' || c == b' '

unfoldable pub normalize_code : Text → Text
unfolding upper
normalize_code raw = select (λ c. not (is_separator c)) (map upper raw)

abbrev pub contains : ℕ → Text → Bool
contains c s = any (λ d. d == c) s

abbrev pub all : (ℕ → Bool) → Text → Bool
all p [] = true
all p (c ∷ s) = p c && all p s

unfoldable pub is_well_formed : Text → Bool
is_well_formed raw =
    length (normalize_code raw) == code_length
    && all (λ c. contains c alphabet) (normalize_code raw)
