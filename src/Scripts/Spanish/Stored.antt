-- ===== src/Scripts/Spanish/Stored.antt =====
-- The tests by which scripts/backfill_spanish.py compares stored values.
use reservac_ia.Base.{
  ◌≡◌, refl, ap, ◌∙◌, true, ==_refl, ==_iff, Option, none, some, Text, text_eq→eq, text_eq_refl,
  arith,
}
use reservac_ia.Clock.{Offset, Suffix, IsoText}
use reservac_ia.Scripts.Spanish.{note_eq, suffix_eq, iso_eq}

-- The tests of the stored values are equality.
pub note_eq→eq : (a b : Option Text) → note_eq a b ≡ true → a ≡ b
note_eq→eq none none h = refl
note_eq→eq (some a) (some b) h = ap some (text_eq→eq a b h)
note_eq→eq none (some b) h = absurd (cc)
note_eq→eq (some a) none h = absurd (cc)

pub note_eq_refl : (a : Option Text) → note_eq a a ≡ true
note_eq_refl none = refl
note_eq_refl (some a) = text_eq_refl a

suffix_eq→eq : (a b : Suffix) → suffix_eq a b ≡ true → a ≡ b
suffix_eq→eq Suffix.naive Suffix.naive h = refl
suffix_eq→eq Suffix.zulu Suffix.zulu h = refl
suffix_eq→eq (Suffix.numeric (Offset.east a)) (Suffix.numeric (Offset.east b)) h =
    ap (λ n. Suffix.numeric (Offset.east n)) ((==_iff a b).0 h)
suffix_eq→eq (Suffix.numeric (Offset.west a)) (Suffix.numeric (Offset.west b)) h =
    ap (λ n. Suffix.numeric (Offset.west n)) ((==_iff a b).0 h)
suffix_eq→eq _ _ h = absurd (cc)

pub suffix_eq_refl : (a : Suffix) → suffix_eq a a ≡ true
suffix_eq_refl Suffix.naive = refl
suffix_eq_refl Suffix.zulu = refl
suffix_eq_refl (Suffix.numeric (Offset.east a)) = ==_refl a
suffix_eq_refl (Suffix.numeric (Offset.west a)) = ==_refl a

pub iso_eq→eq : (a b : IsoText) → iso_eq a b ≡ true → a ≡ b
iso_eq→eq a b h =
    let walls : a.wall ≡ b.wall = (==_iff a.wall b.wall).0 (ground arith) in
    let suffixes = suffix_eq→eq a.suffix b.suffix (ground arith) in
    ap (λ w. record { wall = w; suffix = a.suffix }) walls
    ∙ ap (λ x. record { wall = b.wall; suffix = x }) suffixes
