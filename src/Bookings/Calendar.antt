-- ===== src/Bookings/Calendar.antt =====
-- What the reservations of app/crud.py promise, without rows, codes, texts or messages: a calendar of
-- bookings by their number, which is changed at one number at a time.
use reservac_ia.Base.{ℕ, ◌≤◌, ◌≡◌, ◌≢◌, sym, ap, ◌∙◌, Option, none, some, if◌then◌else◌, arith}
use reservac_ia.Clock.{ZoneInfo, gap, instant, parse_ts}
use reservac_ia.Clock.Laws.{gap_comm}
use reservac_ia.Model.{Db, Reservation, is_confirmed}
use reservac_ia.Crud.Conflict.{conflict_window}
use reservac_ia.Crud.Lookup.{reservation_row}
use native.Mathlib.Decide.{ℕ_discrete}

pub record Booking : Type 0 where
  pub table : ℕ
  pub at : ℕ
  pub party : ℕ

abbrev pub Calendar : Type 0
Calendar = ℕ → Option Booking

-- The booking with number `i` keeps two hours from all others of its table.
abbrev pub IsFree : Calendar → ℕ → Type 0
IsFree c i =
    (j : ℕ) (b e : Booking)
    → i ≢ j
    → c i ≡ some b
    → c j ≡ some e
    → b.table ≡ e.table
    → conflict_window ≤ gap b.at e.at

-- The one step: a number gets a booking that is free, or none.
pub data Step (c d : Calendar) : Type 0 where
  set_at : (i : ℕ) → ((j : ℕ) → i ≢ j → d j ≡ c j) → IsFree d i → Step c d

-- The calendars that steps make of the empty one.
pub data Planned : Calendar → Type 0 where
  nothing : (c : Calendar) → ((i : ℕ) → c i ≡ none) → Planned c
  next : (c d : Calendar) → Planned c → Step c d → Planned d

-- Every planned calendar keeps all bookings apart.
pub Planned-IsFree : (c : Calendar) → Planned c → (i : ℕ) → IsFree c i
Planned-IsFree _ (nothing c h) i j b e n f g t = let k = h i in cc
Planned-IsFree _ (next c d p (set_at k same free)) i j b e n f g t = elim (ℕ_discrete k i) [
  | yes k_i ↦ free j b e (λ q. n (sym k_i ∙ q)) (ap d k_i ∙ f) g t
  | no other ↦ elim (ℕ_discrete k j) [
    | yes k_j ↦
        let far = free i e b other (ap d k_j ∙ g) f (sym t) in
        omega (arith, far, gap_comm b.at e.at)
    | no third ↦ Planned-IsFree c p i j b e n (sym (same i other) ∙ f) (sym (same j third) ∙ g) t
  ]
]

-- The calendar of a database.
abbrev pub booking_at : ZoneInfo → Reservation → ℕ → Booking
booking_at zone r table_id = record {
  table = table_id;
  at = instant (parse_ts zone r.reservation_at);
  party = r.party_size;
}

abbrev pub placed : ZoneInfo → Reservation → Option ℕ → Option Booking
placed zone r none = none
placed zone r (some table_id) = some (booking_at zone r table_id)

abbrev pub booking_of : ZoneInfo → Option Reservation → Option Booking
booking_of zone none = none
booking_of zone (some r) = if is_confirmed r.status then placed zone r r.table_id else none

abbrev pub calendar : ZoneInfo → Db → Calendar
calendar zone db i = booking_of zone (reservation_row db i)
