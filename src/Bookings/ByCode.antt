-- ===== src/Bookings/ByCode.antt =====
-- `get_reservation_by_code` of app/crud.py on a code as app/notifications/templates.py shows it.
use reservac_ia.Base.{
  ℕ, ◌≡◌, refl, ap, ◌∙◌, sym, Bool, true, false, some, List, [], ◌∷◌, ◌==◌, find, All, All-imp,
  find-others, Bool-cases, inl, inr, arith, Text, text_eq_refl, length, take, drop, ◌++◌,
}
use reservac_ia.Clock.{ZoneInfo}
use reservac_ia.Model.{Db, Reservation}
use reservac_ia.Monad.{ok}
use reservac_ia.Codes.{normalize_code}
use reservac_ia.Codes.Laws.{normalize-dashed}
use reservac_ia.Notifications.Templates.{format_code}
use reservac_ia.Crud.Lookup.{reservation_row, get_reservation, attach_table}
use reservac_ia.Crud.Reservations.{code_is, get_reservation_by_code}
use reservac_ia.Bookings.Valid.{IsValid, Apart, Apart-comm}

normalize-format :
    (raw text : Text) → format_code (some raw) ≡ ok text → normalize_code text ≡ normalize_code raw
unfolding format_code
normalize-format raw text e = elim (Bool-cases (length raw == 6)) [
  | inl t ↦
      let shown : take 3 raw ++ b'-' ∷ drop 3 raw ≡ text = ground (arith) in
      ap normalize_code (sym shown) ∙ normalize-dashed 3 raw
  | inr f ↦ let shown : raw ≡ text = ground (arith) in ap normalize_code (sym shown)
]

-- A lookup by another condition that only this row meets.
find-by :
    (p q : Reservation → Bool) (rows : List Reservation) (r : Reservation)
    → All (λ y. q y ≡ false → p y ≡ false) rows
    → find q rows ≡ some r
    → p r ≡ true
    → find p rows ≡ some r
find-by p q [] r h e t = cc
find-by p q (x ∷ rows) r h e t = elim (Bool-cases (q x)) [
  | inl y ↦ let here : some x ≡ some r = rw y at e in let same : x ≡ r = cc in rw (same, t) refl
  | inr n ↦ rw (h.0 n) (find-by p q rows r h.1 (rw n at e) t)
]

-- In a valid database, looking up the text in which a message shows a normalised confirmation code
-- gives the reservation with that code.
pub get_reservation_by_code-shown :
    (zone : ZoneInfo) (db : Db) (i : ℕ) (r : Reservation) (code text : Text)
    → IsValid zone db
    → reservation_row db i ≡ some r
    → r.confirmation_code ≡ some code
    → normalize_code code ≡ code
    → format_code (some code) ≡ ok text
    → get_reservation_by_code db text ≡ get_reservation db i
unfolding get_reservation_by_code get_reservation attach_table
get_reservation_by_code-shown zone db i r code text v e c n f =
    let looked : normalize_code text ≡ code = normalize-format code text f ∙ n in
    rw (looked, found, e) refl
  where
    only :
        (y : Reservation)
        → ((y.id == i) ≡ false → Apart zone r y)
        → (y.id == i) ≡ false
        → code_is code y ≡ false
    only y h q = let other = Apart-comm zone r y (h q) in ground (arith, other.2, c)

    found : find (code_is code) db.reservations ≡ some r
    found =
        find-by (code_is code) (λ y. y.id == i) db.reservations r
          (All-imp _ _ only db.reservations (
            find-others (Apart zone) (Apart-comm zone) (λ y. y.id == i) db.reservations r v.apart
              e))
          e (rw c (text_eq_refl code))
