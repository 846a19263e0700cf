-- ===== src/Http.antt =====
-- What the middlewares see of a request and make of a response (Starlette), and Python's texts.
use reservac_ia.Base.{
  ℕ, ◌+◌, ◌-◌, ◌*◌, Bool, true, false, not, ◌&&◌, ◌||◌, Option, none, some, List, [], ◌∷◌, ◌++◌,
  map, leb, ◌==◌, if◌then◌else◌, any, Text, text_eq,
}

-- Absent headers with a default are that default. The clocks are read as the request is served.
pub record Request : Type 0 where
  pub path : Text
  pub method : Text
  pub client : Option Text
  pub authorization : Text
  pub user_agent : Text
  pub content_length : Option Text
  pub monotonic : ℕ
  pub utc : ℕ

-- The status and the headers that the program sets.
pub record Response : Type 0 where
  pub status : ℕ
  pub headers : List (Text × Text)

abbrev pub json_response : ℕ → Response
json_response status = record { status = status; headers = [] }

-- `str.lower` on the letters of ASCII.
abbrev pub lower : ℕ → ℕ
lower c = if leb b'A' c && leb c b'Z' then c + 32 else c

abbrev pub same_header : Text → Text → Bool
same_header a b = text_eq (map lower a) (map lower b)

abbrev pub has_header : Text → List (Text × Text) → Bool
has_header name headers = any (λ h. same_header h.0 name) headers

-- `MutableHeaders.setdefault`
abbrev pub set_default : Text × Text → Response → Response
set_default h r = if has_header h.0 r.headers then r else record r { headers = r.headers ++ h ∷ [] }

-- White space of ASCII, as `str.strip` and `str.split` take it.
abbrev pub is_space : ℕ → Bool
is_space c = c == b' ' || leb 9 c && leb c 13 || leb 28 c && leb c 31

unfoldable pub lstrip : Text → Text
lstrip [] = []
lstrip (c ∷ s) = let rest = lstrip s in if is_space c then rest else c ∷ s

abbrev pub no_text : Text → Bool
no_text [] = true
no_text (c ∷ s) = false

unfoldable pub rstrip : Text → Text
rstrip [] = []
rstrip (c ∷ s) = let rest = rstrip s in if is_space c && no_text rest then [] else c ∷ rest

unfoldable pub strip : Text → Text
unfolding lstrip rstrip
strip s = rstrip (lstrip s)

abbrev pub is_blank : Text → Bool
is_blank s = no_text (strip s)

abbrev pub onto_head : ℕ → List Text → List Text
onto_head c [] = (c ∷ []) ∷ []
onto_head c (part ∷ parts) = (c ∷ part) ∷ parts

-- `str.split(sep)` for a separator of one character
unfoldable pub split_on : ℕ → Text → List Text
split_on sep [] = [] ∷ []
split_on sep (c ∷ s) = let rest = split_on sep s in if c == sep then [] ∷ rest else onto_head c rest

-- `s.split(sep, 1)[1]`, where the separator occurs.
unfoldable pub after_first : ℕ → Text → Text
after_first sep [] = []
after_first sep (c ∷ s) = let rest = after_first sep s in if c == sep then s else rest

abbrev pub is_digit : ℕ → Bool
is_digit c = leb b'0' c && leb c b'9'

-- `str.isdigit`
abbrev all_digits : Text → Bool
all_digits [] = true
all_digits (c ∷ s) = is_digit c && all_digits s

abbrev pub isdigit : Text → Bool
isdigit s = not (no_text s) && all_digits s

-- The digits of `int(...)`, with single underscores between digits.
unfoldable pub int_digits : (after_digit : Bool) (acc : ℕ) → Text → Option ℕ
int_digits true acc [] = some acc
int_digits false acc [] = none
int_digits after_digit acc (c ∷ s) =
    let digit = int_digits true (acc * 10 + (c - b'0')) s in
    let skipped = int_digits false acc s in
    if is_digit c then digit else (if after_digit && c == b'_' then skipped else none)

with_sign : Bool → Option ℕ → Option (Bool × ℕ)
with_sign minus none = none
with_sign minus (some n) = some (minus, n)

signed : Text → Option (Bool × ℕ)
unfolding int_digits with_sign
signed [] = none
signed (c ∷ s) =
    if c == b'-'
    then with_sign true (int_digits false 0 s)
    else (if c == b'+'
        then with_sign false (int_digits false 0 s)
        else with_sign false (int_digits false 0 (c ∷ s)))

-- `int(text)`: whether there is a minus, and the magnitude; none is the ValueError.
unfoldable pub int_of : Text → Option (Bool × ℕ)
unfolding signed strip
int_of text = signed (strip text)
