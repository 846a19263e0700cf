-- ===== src/Bookings/Valid.antt =====
-- What the restaurant relies on in the rows of app/crud.py: apart bookings, seated parties, unique
-- ids and codes.
use reservac_ia.Base.{
  All-imp, [], ◌∷◌, ℕ, ◌≤◌, ◌≡◌, refl, ◌≢◌, Bool, true, false, not, ◌&&◌, ◌||◌, Option, none, some,
  List, ltb, leb, ◌==◌, opt_eq, text_eq, find, All, Pairwise, DistinctIds, Text, arith, sym,
  text_eq→eq, text_eq_refl, Bool-cases, inl, inr,
}
use reservac_ia.Clock.{ZoneInfo, DateTime, parse_ts, abs_difference, is_local}
use reservac_ia.Clock.Laws.{abs_difference_comm, Denotes}
use reservac_ia.Model.{Db, Table, Reservation, is_confirmed}
use reservac_ia.Crud.Conflict.{conflict_window, is_booking_of, is_near}
use reservac_ia.Crud.Reservations.{code_is}
use reservac_ia.Bookings.Frame.{IsStable}

abbrev pub near : ZoneInfo → Reservation → Reservation → Bool
near zone a b =
    ltb (abs_difference (parse_ts zone a.reservation_at) (parse_ts zone b.reservation_at))
      conflict_window

abbrev pub same_table : Option ℕ → Reservation → Bool
same_table none a = false
same_table (some t) a = is_booking_of t a

-- Two confirmed reservations of one table, less than the window apart.
abbrev pub clash : ZoneInfo → Reservation → Reservation → Bool
clash zone a b = is_confirmed b.status && (same_table b.table_id a && near zone a b)

abbrev pub code_in : Option Text → Reservation → Bool
code_in none a = false
code_in (some c) a = code_is c a

abbrev pub Apart : ZoneInfo → Reservation → Reservation → Type 0
Apart zone a b = (a.id ≢ b.id) × (clash zone a b ≡ false) × (code_in b.confirmation_code a ≡ false)

abbrev pub fits : Option Table → Reservation → Bool
fits none r = false
fits (some t) r = not (is_confirmed r.status) || leb r.party_size t.capacity

-- The table of a reservation exists, and seats the party while it is confirmed.
abbrev pub is_seated_at : List Table → Option ℕ → Reservation → Bool
is_seated_at tables none r = true
is_seated_at tables (some i) r = fits (find (λ t. t.id == i) tables) r

abbrev pub IsSeated : List Table → Reservation → Type 0
IsSeated tables r = is_seated_at tables r.table_id r ≡ true

abbrev pub HasOffset : ZoneInfo → Reservation → Type 0
HasOffset zone r = is_local (parse_ts zone r.reservation_at).tz ≡ false

pub record IsValid (zone : ZoneInfo) (db : Db) : Type 0 where
  pub apart : Pairwise (Apart zone) db.reservations
  pub below : All (λ r. r.id ≤ db.reservation_seq) db.reservations
  pub stamped : All (HasOffset zone) db.reservations
  pub seated : All (IsSeated db.tables) db.reservations
  pub distinct : DistinctIds (λ t. t.id) db.tables
  pub tables_below : All (λ t. t.id ≤ db.table_seq) db.tables

pub IsValid-stable : (zone : ZoneInfo) → IsStable (IsValid zone)
IsValid-stable zone db db' (tables, reservations, seq, table_seq) v = record {
  apart = rw reservations v.apart;
  below = rw (reservations, seq) v.below;
  stamped = rw reservations v.stamped;
  seated = rw (reservations, tables) v.seated;
  distinct = rw tables v.distinct;
  tables_below = rw (tables, table_seq) v.tables_below;
}

clash_comm : (zone : ZoneInfo) (a b : Reservation) → clash zone a b ≡ false → clash zone b a ≡ false
clash_comm zone a b h =
    ground
      (arith, abs_difference_comm (parse_ts zone a.reservation_at) (parse_ts zone b.reservation_at))

text_eq_comm : (s t : Text) → text_eq s t ≡ false → text_eq t s ≡ false
text_eq_comm s t h = elim (Bool-cases (text_eq t s)) [
  | inl e ↦ let p = text_eq→eq t s e in ground (arith, text_eq_refl s)
  | inr e ↦ e
]

code_in_comm :
    (a b : Reservation)
    → code_in b.confirmation_code a ≡ false
    → code_in a.confirmation_code b ≡ false
code_in_comm a b h = go a.confirmation_code b.confirmation_code refl refl
  where
    go :
        (c d : Option Text)
        → a.confirmation_code ≡ c
        → b.confirmation_code ≡ d
        → code_in a.confirmation_code b ≡ false
    go none d e f = rw e
    go (some c) none e f = ground arith
    go (some c) (some d) e f = ground (arith, text_eq_comm c d)

pub Apart-comm : (zone : ZoneInfo) (a b : Reservation) → Apart zone a b → Apart zone b a
Apart-comm zone a b h = (λ e. h.0 (sym e), clash_comm zone a b h.1, code_in_comm a b h.2)

-- A reservation moved to a table that has no conflict near its time clashes with no other.
pub clash_free :
    (zone : ZoneInfo) (table_id : ℕ) (at : DateTime) (exclude : Option ℕ) (x r : Reservation)
    → Denotes zone r.reservation_at at
    → HasOffset zone x
    → r.table_id ≡ some table_id
    → opt_eq exclude (some x.id) ≡ false
    → (is_booking_of table_id x && is_near zone at exclude x) ≡ false
    → clash zone x r ≡ false
clash_free zone table_id at exclude x r d h t other f =
    ground (arith, d (parse_ts zone x.reservation_at) h)

pub valid-DistinctIds :
    (zone : ZoneInfo) (rows : List Reservation)
    → Pairwise (Apart zone) rows
    → DistinctIds (λ r. r.id) rows
valid-DistinctIds zone [] h = tt
valid-DistinctIds zone (r ∷ rows) h =
    (All-imp _ _ (λ x a. a.0) rows h.0, valid-DistinctIds zone rows h.1)
