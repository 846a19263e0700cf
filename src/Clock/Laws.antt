-- ===== src/Clock/Laws.antt =====
-- Laws of dates and times: the round trip through a stored text, and distances.
use reservac_ia.Base.{ℕ, ◌≡◌, refl, arith, false}
use reservac_ia.Clock.{
  DateTime, ZoneInfo, IsoText, Tz, instant, iso, parse_ts, abs_difference, gap, is_local,
}

-- A stored text reads back as the same instant, now with a fixed offset.
pub parse_ts-iso :
    (zone : ZoneInfo) (dt : DateTime)
    → parse_ts zone (iso dt) ≡ record { wall = dt.wall; offset = dt.offset; tz = Tz.fixed }
unfolding parse_ts iso
parse_ts-iso zone dt = refl

pub abs_difference_comm : (a b : DateTime) → abs_difference a b ≡ abs_difference b a
unfolding abs_difference
abs_difference_comm a b = ground arith

-- Against a fixed offset the distance is that of the instants.
pub abs_difference_fixed :
    (a b : DateTime) → is_local a.tz ≡ false → abs_difference a b ≡ gap (instant a) (instant b)
unfolding abs_difference
abs_difference_fixed a b h = ground arith

pub gap_comm : (a b : ℕ) → gap a b ≡ gap b a
gap_comm a b = omega arith

-- A text stands for a time: seen from any fixed offset it is as far away.
abbrev pub Denotes : ZoneInfo → IsoText → DateTime → Type 0
Denotes zone text at =
    (x : DateTime)
    → is_local x.tz ≡ false
    → abs_difference x (parse_ts zone text) ≡ abs_difference x at

pub iso-Denotes : (zone : ZoneInfo) (dt : DateTime) → Denotes zone (iso dt) dt
unfolding abs_difference parse_ts iso
iso-Denotes zone dt x h = ground arith
