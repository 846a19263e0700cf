-- ===== src/Model.antt =====
-- The rows of the database (app/db.py, SCHEMA and _migrate), the settings (app/config.py) and the
-- world outside the program. `Model.Payloads` holds the request bodies of app/models.py.
pub mod Payloads
use reservac_ia.Base.{ℕ, Bool, true, false, ◌==◌, Option, List, [], Text}
use reservac_ia.Clock.{IsoText, ZoneInfo}

pub record Room : Type 0 where
  pub id : ℕ
  pub name : Text
  pub description : Option Text
  pub created_at : ℕ
  pub updated_at : ℕ

pub record Table : Type 0 where
  pub id : ℕ
  pub table_number : Text
  pub capacity : ℕ
  pub room_id : Option ℕ
  pub created_at : ℕ

pub data ReservationStatus : Type 0 where
  confirmed cancelled : ReservationStatus

pub record Reservation : Type 0 where
  pub id : ℕ
  pub phone : Text
  pub customer_name : Text
  pub party_size : ℕ
  pub reservation_at : IsoText
  pub notes : Option Text
  pub status : ReservationStatus
  pub table_id : Option ℕ
  pub confirmation_code : Option Text
  pub created_at : ℕ
  pub updated_at : ℕ

pub record Review : Type 0 where
  pub id : ℕ
  pub reviewer_name : Text
  pub reviewer_city : Option Text
  pub rating : ℕ
  pub body : Text
  pub created_at : ℕ
  pub updated_at : ℕ

pub data AuthorRole : Type 0 where
  restaurant customer : AuthorRole

pub record ReviewComment : Type 0 where
  pub id : ℕ
  pub review_id : ℕ
  pub author_role : AuthorRole
  pub author_name : Text
  pub body : Text
  pub created_at : ℕ
  pub updated_at : ℕ

pub data NotificationKind : Type 0 where
  created updated cancelled reminder custom : NotificationKind

pub data NotificationStatus : Type 0 where
  pending in_flight sent failed cancelled : NotificationStatus

-- `scheduled_at` is a UTC text; all have one offset, so their order as texts is that of instants.
pub record Notification : Type 0 where
  pub id : ℕ
  pub reservation_id : Option ℕ
  pub kind : NotificationKind
  pub phone : Text
  pub scheduled_at : ℕ
  pub status : NotificationStatus
  pub attempts : ℕ
  pub last_error : Option Text
  pub body : Text
  pub sent_at : Option ℕ
  pub created_at : ℕ
  pub updated_at : ℕ

-- Rows in rowid order, and for each table the last id that AUTOINCREMENT gave out.
pub record Db : Type 0 where
  pub rooms : List Room
  pub room_seq : ℕ
  pub tables : List Table
  pub table_seq : ℕ
  pub reservations : List Reservation
  pub reservation_seq : ℕ
  pub reviews : List Review
  pub review_seq : ℕ
  pub review_comments : List ReviewComment
  pub review_comment_seq : ℕ
  pub notifications : List Notification
  pub notification_seq : ℕ

abbrev pub empty_db : Db
empty_db = record {
  rooms = [];
  room_seq = 0;
  tables = [];
  table_seq = 0;
  reservations = [];
  reservation_seq = 0;
  reviews = [];
  review_seq = 0;
  review_comments = [];
  review_comment_seq = 0;
  notifications = [];
  notification_seq = 0;
}

pub record Settings : Type 0 where
  pub reminder_lead_hours : ℕ
  pub suppress_notifications : Bool
  pub notification_max_attempts : ℕ
  pub date_format : Text
  pub time_format : Text

-- What the program reads from outside: the clock's n-th reading (an instant), the n-th draw of
-- `secrets.choice` (an index), the time zone, `strftime` of a local wall clock, and the settings.
pub record Env : Type 0 where
  pub clock : ℕ → ℕ
  pub choice : ℕ → ℕ
  pub zone : ZoneInfo
  pub strftime : Text → ℕ → Text
  pub settings : Settings

abbrev pub is_confirmed : ReservationStatus → Bool
is_confirmed ReservationStatus.confirmed = true
is_confirmed ReservationStatus.cancelled = false

abbrev pub kind_code : NotificationKind → ℕ
kind_code NotificationKind.created = 0
kind_code NotificationKind.updated = 1
kind_code NotificationKind.cancelled = 2
kind_code NotificationKind.reminder = 3
kind_code NotificationKind.custom = 4

abbrev pub kind_eq : NotificationKind → NotificationKind → Bool
kind_eq a b = kind_code a == kind_code b

abbrev pub notification_status_code : NotificationStatus → ℕ
notification_status_code NotificationStatus.pending = 0
notification_status_code NotificationStatus.in_flight = 1
notification_status_code NotificationStatus.sent = 2
notification_status_code NotificationStatus.failed = 3
notification_status_code NotificationStatus.cancelled = 4

abbrev pub notification_status_eq : NotificationStatus → NotificationStatus → Bool
notification_status_eq a b = notification_status_code a == notification_status_code b
