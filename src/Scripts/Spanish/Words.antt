-- ===== src/Scripts/Spanish/Words.antt =====
-- The texts of scripts/backfill_spanish.py: a second correction changes nothing.
use reservac_ia.Base.{
  ℕ, ◌≡◌, refl, ap, ◌∙◌, Bool, true, false, not, ◌&&◌, Option, none, some, List, [], ◌∷◌, ◌++◌, map,
  All, All-imp, All-both, All-select, select_holds, Bool-cases, ◌⊎◌, inl, inr, Text, text_eq,
  text_eq→eq, any, any-false, arith,
}
use reservac_ia.Http.{is_space, no_text, onto_head}
use reservac_ia.Scripts.Spanish.{
  name_fixes, note_fixes, get_or_self, parts, words, join, fix_name, fix_note,
}

abbrev no_space : Text → Bool
no_space [] = true
no_space (c ∷ s) = not (is_space c) && no_space s

-- A word has a letter and no white space.
abbrev is_word : Text → Bool
is_word w = not (no_text w) && no_space w

-- What holds of every correction, and of the text itself, holds of what it becomes.
get_or_self-All :
    (P : Text → Type 0) (fixes : List (Text × Text)) (key : Text)
    → All (λ e. P e.1) fixes
    → P key
    → P (get_or_self fixes key)
unfolding get_or_self
get_or_self-All P [] key h k = k
get_or_self-All P (e ∷ fixes) key h k = elim (Bool-cases (text_eq e.0 key)) [
  | inl t ↦ rw t (h.0)
  | inr n ↦ rw n (get_or_self-All P fixes key h.1 k)
]

get_or_self-either :
    (P : Text → Type 0) (fixes : List (Text × Text)) (key : Text)
    → All (λ e. P e.1) fixes
    → (get_or_self fixes key ≡ key) ⊎ P (get_or_self fixes key)
get_or_self-either P fixes key h =
    get_or_self-All (λ t. (t ≡ key) ⊎ P t) fixes key (All-imp _ _ (λ e p. inr p) fixes h) (inl refl)

get_or_self-twice :
    (fixes : List (Text × Text)) (key : Text)
    → All (λ e. get_or_self fixes e.1 ≡ e.1) fixes
    → get_or_self fixes (get_or_self fixes key) ≡ get_or_self fixes key
get_or_self-twice fixes key h =
    elim (get_or_self-either (λ t. get_or_self fixes t ≡ t) fixes key h) [
      | inl same ↦ ap (get_or_self fixes) same
      | inr still ↦ still
    ]

-- No correction of a table is a text that the table corrects.
settled :
    (fixes : List (Text × Text))
    → any (λ e. not (text_eq (get_or_self fixes e.1) e.1)) fixes ≡ false
    → All (λ e. get_or_self fixes e.1 ≡ e.1) fixes
settled fixes h =
    All-imp _ _ (λ e k. text_eq→eq (get_or_self fixes e.1) e.1 (ground arith)) fixes
      (any-false (λ e. not (text_eq (get_or_self fixes e.1) e.1)) fixes h)

names_settled : All (λ e. get_or_self name_fixes e.1 ≡ e.1) name_fixes
unfolding get_or_self
names_settled = settled name_fixes refl

notes_settled : All (λ e. get_or_self note_fixes e.1 ≡ e.1) note_fixes
unfolding get_or_self
notes_settled = settled note_fixes refl

names_words : All (λ e. is_word e.1 ≡ true) name_fixes
names_words =
    All-imp (λ e. not (is_word e.1) ≡ false) (λ e. is_word e.1 ≡ true) (λ e k. ground arith)
      name_fixes (any-false (λ e. not (is_word e.1)) name_fixes refl)

-- Splitting what has been joined.
parts-append : (w s : Text) → no_space w ≡ true → parts (w ++ b' ' ∷ s) ≡ w ∷ parts s
unfolding parts
parts-append [] s h = refl
parts-append (c ∷ w) s h =
    let rest = parts-append w s (ground arith) in
    let letter : is_space c ≡ false = ground arith in rw (letter, rest) refl

parts-word : (w : Text) → no_space w ≡ true → parts w ≡ w ∷ []
unfolding parts
parts-word [] h = refl
parts-word (c ∷ w) h =
    let rest = parts-word w (ground arith) in
    let letter : is_space c ≡ false = ground arith in rw (letter, rest) refl

words-join : (ws : List Text) → All (λ w. is_word w ≡ true) ws → words (join ws) ≡ ws
unfolding words join parts
words-join [] h = refl
words-join (w ∷ []) h =
    let one = parts-word w (let k = h.0 in ground arith) in
    let there : no_text w ≡ false = let k = h.0 in ground arith in rw (one, there) refl
words-join (w ∷ v ∷ ws) h =
    let first = parts-append w (join (v ∷ ws)) (let k = h.0 in ground arith) in
    let there : no_text w ≡ false = let k = h.0 in ground arith in
    rw (first, there) (ap (λ t. w ∷ t) (words-join (v ∷ ws) h.1))

onto_head-All :
    (c : ℕ) (ps : List Text)
    → is_space c ≡ false
    → All (λ w. no_space w ≡ true) ps
    → All (λ w. no_space w ≡ true) (onto_head c ps)
onto_head-All c [] n h = (rw n refl, tt)
onto_head-All c (p ∷ ps) n h = (rw n (h.0), h.1)

parts-All : (s : Text) → All (λ w. no_space w ≡ true) (parts s)
unfolding parts
parts-All [] = (refl, tt)
parts-All (c ∷ s) = elim (Bool-cases (is_space c)) [
  | inl t ↦ rw t (refl, parts-All s)
  | inr n ↦ rw n (onto_head-All c (parts s) n (parts-All s))
]

words-All : (s : Text) → All (λ w. is_word w ≡ true) (words s)
unfolding words
words-All s =
    All-imp _ _ (λ w h. let p = h.0 in let q = h.1 in ground arith) (words s)
      (All-both _ _ (words s) (select_holds (λ w. not (no_text w)) (parts s))
        (All-select _ (λ w. not (no_text w)) (parts s) (parts-All s)))

fixed-All :
    (ws : List Text)
    → All (λ w. is_word w ≡ true) ws
    → All (λ w. is_word w ≡ true) (map (get_or_self name_fixes) ws)
fixed-All [] h = tt
fixed-All (w ∷ ws) h =
    (get_or_self-All (λ t. is_word t ≡ true) name_fixes w names_words h.0, fixed-All ws h.1)

map-twice :
    (ws : List Text)
    → map (get_or_self name_fixes) (map (get_or_self name_fixes) ws)
      ≡ map (get_or_self name_fixes) ws
map-twice [] = refl
map-twice (w ∷ ws) =
    rw (get_or_self-twice name_fixes w names_settled)
      (ap (λ t. get_or_self name_fixes w ∷ t) (map-twice ws))

pub fix_name-twice : (name : Text) → fix_name (fix_name name) ≡ fix_name name
unfolding fix_name
fix_name-twice name =
    ap (λ ws. join (map (get_or_self name_fixes) ws))
      (words-join (map (get_or_self name_fixes) (words name))
        (fixed-All (words name) (words-All name)))
    ∙ ap join (map-twice (words name))

pub fix_note-twice : (note : Option Text) → fix_note (fix_note note) ≡ fix_note note
unfolding fix_note
fix_note-twice none = refl
fix_note-twice (some note) = ap some (get_or_self-twice note_fixes note notes_settled)
