-- ===== src/Model/Payloads.antt =====
-- The request bodies of app/models.py after validation. A field of an update body is absent, an
-- explicit `null`, or a value: `model_dump(exclude_unset=True)` keeps the last two.
use reservac_ia.Base.{ℕ, Bool, true, false, Option, none, some, Text}
use reservac_ia.Clock.{DateTime, RawDateTime}
use reservac_ia.Model.{AuthorRole}

pub data Field (A : Type 0) : Type 0 where
  unset null : Field A
  value : A → Field A

abbrev pub is_set : {A : Type 0} → Field A → Bool
is_set Field.unset = false
is_set Field.null = true
is_set (Field.value _) = true

-- `changes.get(key, stored)` where the column may be NULL.
abbrev pub get_nullable : {A : Type 0} → Field A → Option A → Option A
get_nullable Field.unset stored = stored
get_nullable Field.null stored = none
get_nullable (Field.value a) stored = some a

-- The new value of a NOT NULL column; `none` is the IntegrityError.
abbrev pub get_required : {A : Type 0} → Field A → A → Option A
get_required Field.unset stored = some stored
get_required Field.null stored = none
get_required (Field.value a) stored = some a

pub record RoomCreate : Type 0 where
  pub name : Text
  pub description : Option Text

pub record RoomUpdate : Type 0 where
  pub name : Field Text
  pub description : Field Text

pub record TableCreate : Type 0 where
  pub table_number : Text
  pub capacity : ℕ
  pub room_id : Option ℕ

pub record TableUpdate : Type 0 where
  pub table_number : Field Text
  pub capacity : Field ℕ
  pub room_id : Field ℕ

pub record ReservationCreate : Type 0 where
  pub phone : Text
  pub customer_name : Text
  pub party_size : ℕ
  pub reservation_at : DateTime
  pub notes : Option Text
  pub table_id : Option ℕ

pub record ReservationUpdate : Type 0 where
  pub verify_phone : Option Text
  pub phone : Field Text
  pub customer_name : Field Text
  pub party_size : Field ℕ
  pub reservation_at : Field DateTime
  pub notes : Field Text
  pub table_id : Field ℕ

pub record ReviewCreate : Type 0 where
  pub reviewer_name : Text
  pub reviewer_city : Option Text
  pub rating : ℕ
  pub body : Text

pub record ReviewUpdate : Type 0 where
  pub reviewer_name : Field Text
  pub reviewer_city : Field Text
  pub rating : Field ℕ
  pub body : Field Text

pub record ReviewCommentCreate : Type 0 where
  pub author_role : AuthorRole
  pub author_name : Text
  pub body : Text

pub record ReviewCommentUpdate : Type 0 where
  pub body : Field Text

pub record NotificationCreate : Type 0 where
  pub phone : Text
  pub body : Text
  pub scheduled_at : Option RawDateTime
  pub reservation_id : Option ℕ
