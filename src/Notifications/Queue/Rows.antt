-- ===== src/Notifications/Queue/Rows.antt =====
-- The conditions and assignments of the SQL statements in app/notifications/queue.py.
use reservac_ia.Base.{
  ℕ, ◌+◌, ◌*◌, ◌^◌, min, Bool, true, ◌&&◌, ◌||◌, Option, none, some, List, map, ltb, leb, ◌==◌,
  opt_eq, is_some, select, any, order_by, take, Text, text_eq,
}
use reservac_ia.Model.{
  Db, Notification, NotificationKind, NotificationStatus, kind_eq, notification_status_eq,
}
use reservac_ia.Crud.Lookup.{reservation_row}

-- `reservation_id REFERENCES reservations(id)`
abbrev pub reference_exists : Db → Option ℕ → Bool
reference_exists db none = true
reference_exists db (some i) = is_some (reservation_row db i)

abbrev pub new_notification : ℕ → Option ℕ → NotificationKind → Text → ℕ → Text → ℕ → Notification
new_notification id reservation_id kind phone scheduled_at body now_at = record {
  id = id;
  reservation_id = reservation_id;
  kind = kind;
  phone = phone;
  scheduled_at = scheduled_at;
  status = NotificationStatus.pending;
  attempts = 0;
  last_error = none;
  body = body;
  sent_at = none;
  created_at = now_at;
  updated_at = now_at;
}

abbrev pub is_pending : Notification → Bool
is_pending n = notification_status_eq n.status NotificationStatus.pending

abbrev pub is_pending_reminder_of : ℕ → Notification → Bool
is_pending_reminder_of reservation_id n =
    opt_eq n.reservation_id (some reservation_id)
    && (kind_eq n.kind NotificationKind.reminder && is_pending n)

abbrev pub to_cancelled : ℕ → Notification → Notification
to_cancelled now_at n = record n { status = NotificationStatus.cancelled; updated_at = now_at }

abbrev pub filter_kind : Option NotificationKind → Notification → Bool
filter_kind none n = true
filter_kind (some kind) n = kind_eq n.kind kind

abbrev pub is_due : ℕ → Option NotificationKind → Notification → Bool
is_due now_at only_kind n = is_pending n && (leb n.scheduled_at now_at && filter_kind only_kind n)

-- `ORDER BY scheduled_at ASC, id ASC`
abbrev pub by_schedule : Notification → Notification → Bool
by_schedule a b =
    ltb a.scheduled_at b.scheduled_at || a.scheduled_at == b.scheduled_at && leb a.id b.id

abbrev pub ids : List Notification → List ℕ
ids = map (λ n. n.id)

-- `id IN (...)`
abbrev pub id_in : List ℕ → Notification → Bool
id_in claimed n = any (λ i. i == n.id) claimed

unfoldable pub due_ids : ℕ → Option NotificationKind → ℕ → List Notification → List ℕ
due_ids now_at only_kind limit rows =
    ids (take limit (order_by by_schedule (select (is_due now_at only_kind) rows)))

abbrev pub to_in_flight : ℕ → Notification → Notification
to_in_flight now_at n = record n {
  status = NotificationStatus.in_flight;
  attempts = n.attempts + 1;
  updated_at = now_at;
}

abbrev pub to_sent : ℕ → Notification → Notification
to_sent now_at n = record n {
  status = NotificationStatus.sent;
  sent_at = some now_at;
  updated_at = now_at;
  last_error = none;
}

abbrev pub has_id : ℕ → Notification → Bool
has_id i n = n.id == i

abbrev pub to_failed : Text → ℕ → Notification → Notification
to_failed error now_at n = record n {
  status = NotificationStatus.failed;
  last_error = some (take 1000 error);
  updated_at = now_at;
}

abbrev pub to_retry : Text → ℕ → ℕ → Notification → Notification
to_retry error next_at now_at n = record n {
  status = NotificationStatus.pending;
  last_error = some (take 1000 error);
  scheduled_at = next_at;
  updated_at = now_at;
}

-- In seconds.
unfoldable pub backoff : ℕ → ℕ
backoff attempts = min (60 * 2 ^ attempts) 3600

-- `list_for_reservation`; the rows are in the order of their ids.
abbrev pub by_id : Notification → Notification → Bool
by_id a b = leb a.id b.id

abbrev pub filter_phone : Option Text → Notification → Bool
filter_phone none n = true
filter_phone (some phone) n = text_eq n.phone phone

abbrev pub filter_reservation : Option ℕ → Notification → Bool
filter_reservation none n = true
filter_reservation (some i) n = opt_eq n.reservation_id (some i)

abbrev pub filter_status : Option NotificationStatus → Notification → Bool
filter_status none n = true
filter_status (some status) n = notification_status_eq n.status status

-- `ORDER BY id DESC`
abbrev pub newest_first : Notification → Notification → Bool
newest_first a b = leb b.id a.id
