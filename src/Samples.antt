-- ===== src/Samples.antt =====
-- Small databases and settings for tests and for the instances of the theorems.
use reservac_ia.Base.{
  ℕ, ◌+◌, ◌-◌, ◌*◌, ◌≤◌, ◌≡◌, Bool, false, none, some, [], ◌∷◌, ◌++◌, codes, Option, Text, arith,
}
use reservac_ia.Clock.{hour, day, Offset, DateTime, Tz, Suffix, ZoneInfo, to_instant}
use reservac_ia.Model.{
  Env, Settings, Db, empty_db, Table, Reservation, ReservationStatus, Notification,
  NotificationKind, NotificationStatus,
}
use reservac_ia.Model.Payloads.{
  Field, TableCreate, TableUpdate, ReservationCreate, ReservationUpdate,
}
use reservac_ia.Monad.{State, Result, ok, err}

-- A zone two hours east of UTC, without daylight saving.
abbrev pub from_utc_east : ℕ → ℕ × Offset
from_utc_east u = (u + 2 * hour - day, Offset.east (2 * hour))

pub from_utc_east_same :
    (u : ℕ) → 2 * day ≤ u → to_instant (from_utc_east u).0 (from_utc_east u).1 ≡ u
from_utc_east_same u h = omega arith

abbrev pub sample_zone : ZoneInfo
sample_zone = record {
  utcoffset = λ w. Offset.east (2 * hour);
  from_utc = from_utc_east;
  from_utc_same = from_utc_east_same;
}

abbrev pub sample_settings : Bool → Settings
sample_settings suppress = record {
  reminder_lead_hours = 24;
  suppress_notifications = suppress;
  notification_max_attempts = 5;
  date_format = codes "%d/%m/%Y";
  time_format = codes "%H:%M";
}

-- The n-th reading of the clock is noon of day 100, and n microseconds.
abbrev pub sample_env : Env
sample_env = record {
  clock = λ n. 100 * day + 12 * hour + n;
  choice = λ n. n;
  zone = sample_zone;
  strftime = λ fmt wall. fmt;
  settings = sample_settings false;
}

abbrev pub table_of : ℕ → ℕ → Table
table_of id capacity = record {
  id = id;
  table_number = b'T' ∷ (b'0' + id) ∷ [];
  capacity = capacity;
  room_id = none;
  created_at = 0;
}

abbrev pub evening : ℕ → DateTime
evening h = record { wall = 110 * day + h * hour; offset = Offset.east (2 * hour); tz = Tz.fixed }

abbrev pub booked : ℕ → ℕ → ℕ → ℕ → Reservation
booked id table_id party_size h = record {
  id = id;
  phone = codes "+34600111222";
  customer_name = codes "Ana";
  party_size = party_size;
  reservation_at = record {
    wall = 110 * day + h * hour;
    suffix = Suffix.numeric (Offset.east (2 * hour));
  };
  notes = none;
  status = ReservationStatus.confirmed;
  table_id = some table_id;
  confirmation_code = some (codes "ACDEF" ++ (b'2' + id) ∷ []);
  created_at = 0;
  updated_at = 0;
}

-- Three tables; the first two are booked at 19h.
abbrev pub sample_db : Db
sample_db = record empty_db {
  tables = table_of 1 2 ∷ table_of 2 4 ∷ table_of 3 4 ∷ [];
  table_seq = 3;
  reservations = booked 1 1 2 19 ∷ booked 2 2 3 19 ∷ [];
  reservation_seq = 2;
}

abbrev pub sample_state : State
sample_state = record { db = sample_db; reads = 0; draws = 0 }

abbrev pub request : ℕ → ℕ → ReservationCreate
request party_size h = record {
  phone = codes "+34600333444";
  customer_name = codes "Luis";
  party_size = party_size;
  reservation_at = evening h;
  notes = none;
  table_id = none;
}

-- A conflict-free change of the first booking, to nine in the evening.
abbrev pub nothing_changed : ReservationUpdate
nothing_changed = record {
  verify_phone = none;
  phone = Field.unset;
  customer_name = Field.unset;
  party_size = Field.unset;
  reservation_at = Field.unset;
  notes = Field.unset;
  table_id = Field.unset;
}

abbrev pub moved_to : ℕ → ReservationUpdate
moved_to h = record nothing_changed { reservation_at = Field.value (evening h) }

-- An empty database, and three requests: a table for four, and two bookings for it, at seven and at
-- ten in the evening.
abbrev pub empty_state : State
empty_state = record { db = empty_db; reads = 0; draws = 0 }

abbrev pub sample_table : TableCreate
sample_table = record { table_number = codes "T1"; capacity = 4; room_id = none }

abbrev pub new_capacity : ℕ → TableUpdate
new_capacity n = record {
  table_number = Field.unset;
  capacity = Field.value n;
  room_id = Field.unset;
}

abbrev pub with_phone : Text → ReservationUpdate
with_phone phone = record nothing_changed { verify_phone = some phone }

abbrev pub message : ℕ → Notification
message id = record {
  id = id;
  reservation_id = some id;
  kind = NotificationKind.reminder;
  phone = codes "+34600111222";
  scheduled_at = 99 * day;
  status = NotificationStatus.pending;
  attempts = id;
  last_error = none;
  body = codes "Hola";
  sent_at = none;
  created_at = 0;
  updated_at = 0;
}

-- Two reminders are due.
abbrev pub sample_queue : State
sample_queue = record sample_state {
  db = record sample_db { notifications = message 1 ∷ message 2 ∷ []; notification_seq = 2 };
}

-- A provider that never accepts.
abbrev pub failing : ℕ → Text → Text → Option Text
failing reading phone body = some (codes "unreachable")

abbrev pub answer_or : {A : Type 0} → A → Result A → A
answer_or d (ok a) = a
answer_or d (err e) = d
