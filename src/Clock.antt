-- ===== src/Clock.antt =====
-- Dates and times as app/crud.py and app/models.py use them (`datetime`, `timedelta`, `ZoneInfo`).
-- Unit: microseconds. A wall clock counts from the first day of year 1; an instant counts from one
-- day before that in UTC, so that every offset (less than a day) leaves it a natural number.
pub mod Laws
use reservac_ia.Base.{
  ℕ, ◌+◌, ◌-◌, ◌*◌, ◌≤◌, ◌≡◌, Bool, true, false, ◌&&◌, ◌||◌, ltb, leb, ◌==◌, if◌then◌else◌, Option,
  none, some,
}

abbrev pub second : ℕ
second = 1_000_000

abbrev pub hour : ℕ
hour = 3600 * second

abbrev pub day : ℕ
day = 24 * hour

-- `utcoffset()`: `+hh:mm` or `-hh:mm` in an ISO text.
pub data Offset : Type 0 where
  east west : ℕ → Offset

-- What `isoformat` appends, and what may stand at the end of a stored text.
pub data Suffix : Type 0 where
  naive zulu : Suffix
  numeric : Offset → Suffix

-- An ISO-8601 text, taken apart into its wall clock and its suffix.
pub record IsoText : Type 0 where
  pub wall : ℕ
  pub suffix : Suffix

-- The identity of `tzinfo`: the restaurant's `ZoneInfo`, or a fixed offset from a text.
pub data Tz : Type 0 where
  restaurant fixed : Tz

-- An aware datetime.
pub record DateTime : Type 0 where
  pub wall : ℕ
  pub offset : Offset
  pub tz : Tz

-- A datetime as a request brings it, before `_ensure_aware`.
pub data RawDateTime : Type 0 where
  naive_at : ℕ → RawDateTime
  aware_at : DateTime → RawDateTime

abbrev pub to_instant : ℕ → Offset → ℕ
to_instant wall (Offset.east e) = wall + day - e
to_instant wall (Offset.west w) = wall + day + w

abbrev pub instant : DateTime → ℕ
instant dt = to_instant dt.wall dt.offset

-- `ZoneInfo(settings.timezone)`, from the standard library and the system's tz database.
pub record ZoneInfo : Type 0 where
  -- `utcoffset` of a wall clock with `fold=0`
  pub utcoffset : ℕ → Offset
  -- `fromutc`: the wall clock and its offset at an instant
  pub from_utc : ℕ → ℕ × Offset
  -- documented: the conversion from UTC denotes the same instant (from the second day of year 1 on)
  pub from_utc_same : (u : ℕ) → 2 * day ≤ u → to_instant (from_utc u).0 (from_utc u).1 ≡ u

abbrev pub localize : ZoneInfo → ℕ → DateTime
localize zone wall = record { wall = wall; offset = zone.utcoffset wall; tz = Tz.restaurant }

-- `datetime.now(tz=ZoneInfo(...))` when the clock reads `u`, and `astimezone(tz)`.
abbrev pub at_zone : ZoneInfo → ℕ → DateTime
at_zone zone u = record {
  wall = (zone.from_utc u).0;
  offset = (zone.from_utc u).1;
  tz = Tz.restaurant;
}

-- models.py `_ensure_aware`
unfoldable pub ensure_aware : ZoneInfo → RawDateTime → DateTime
ensure_aware zone (RawDateTime.naive_at wall) = localize zone wall
ensure_aware zone (RawDateTime.aware_at dt) = dt

-- crud.py `_iso`
unfoldable pub iso : DateTime → IsoText
iso dt = record { wall = dt.wall; suffix = Suffix.numeric dt.offset }

parse_suffix : ZoneInfo → ℕ → Suffix → DateTime
parse_suffix zone wall Suffix.naive = localize zone wall
parse_suffix zone wall Suffix.zulu = record { wall = wall; offset = Offset.east 0; tz = Tz.fixed }
parse_suffix zone wall (Suffix.numeric o) = record { wall = wall; offset = o; tz = Tz.fixed }

-- crud.py `_parse_ts`
unfoldable pub parse_ts : ZoneInfo → IsoText → DateTime
unfolding parse_suffix
parse_ts zone t = parse_suffix zone t.wall t.suffix

abbrev pub is_local : Tz → Bool
is_local Tz.restaurant = true
is_local Tz.fixed = false

-- Python compares and subtracts wall clocks where both sides have the same `tzinfo` object, and
-- instants elsewhere. (Two fixed offsets are equal or give the instants.)
abbrev pub by_wall : DateTime → DateTime → Bool
by_wall a b = is_local a.tz && is_local b.tz

abbrev pub reading : Bool → DateTime → ℕ
reading true dt = dt.wall
reading false dt = instant dt

-- `abs(a - b)`
abbrev pub gap : ℕ → ℕ → ℕ
gap a b = (a - b) + (b - a)

unfoldable pub abs_difference : DateTime → DateTime → ℕ
abs_difference a b = gap (reading (by_wall a b) a) (reading (by_wall a b) b)

-- `a > b`
unfoldable pub is_later : DateTime → DateTime → Bool
is_later a b = ltb (reading (by_wall a b) b) (reading (by_wall a b) a)

-- `dt - timedelta(...)`: wall-clock arithmetic; `none` is the OverflowError before year 1.
pub shift_offset : ZoneInfo → Tz → ℕ → Offset → Offset
shift_offset zone Tz.restaurant wall o = zone.utcoffset wall
shift_offset zone Tz.fixed wall o = o

unfoldable pub minus_delta : ZoneInfo → DateTime → ℕ → Option DateTime
unfolding shift_offset
minus_delta zone dt delta =
    if leb delta dt.wall
    then some (record {
      wall = dt.wall - delta;
      offset = shift_offset zone dt.tz (dt.wall - delta) dt.offset;
      tz = dt.tz;
    })
    else none

-- The order of two stored texts as SQLite compares them: by wall clock, then `+` before `-`, then
-- by the digits of the offset. A text with no suffix comes first, and `Z` last.
abbrev suffix_rank : Suffix → ℕ
suffix_rank Suffix.naive = 0
suffix_rank (Suffix.numeric (Offset.east e)) = 1 + e
suffix_rank (Suffix.numeric (Offset.west w)) = 1 + day + w
suffix_rank Suffix.zulu = 1 + 2 * day

unfoldable pub iso_le : IsoText → IsoText → Bool
iso_le a b =
    ltb a.wall b.wall || a.wall == b.wall && leb (suffix_rank a.suffix) (suffix_rank b.suffix)
