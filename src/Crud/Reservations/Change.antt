-- ===== src/Crud/Reservations/Change.antt =====
-- `update_reservation` of app/crud.py.
use reservac_ia.Base.{
  ℕ, ltb, Bool, true, not, ◌||◌, Option, none, some, ◌==◌, is_some, if◌then◌else◌, update_where,
}
use reservac_ia.Clock.{DateTime, IsoText, iso, parse_ts}
use reservac_ia.Model.{Env, Db, Reservation, NotificationKind}
use reservac_ia.Model.Payloads.{Field, is_set, get_nullable, get_required, ReservationUpdate}
use reservac_ia.Monad.{
  reservation_error, integrity_error, attribute_error, assertion_error, Result, ok, err,
  bind_result, Action, pure, raise_if, lift, gets, query, modify, or_raise, now, ◌>>=◌, ◌>>◌,
}
use reservac_ia.Crud.Lookup.{
  ReservationOut, reservation_row, table_row, attach_table, get_reservation,
}
use reservac_ia.Crud.Conflict.{resolve_table_for}
use reservac_ia.Notifications.Queue.{cancel_pending_reminders_for}
use reservac_ia.Crud.Reservations.Enqueue.{enqueue_notification, now_local, reminder_time_for}

-- `except ReservationError`
abbrev pub or_reassign : Result ℕ → Result ℕ → Result ℕ
or_reassign (ok t) other = ok t
or_reassign (err (reservation_error _)) other = other
or_reassign (err e) other = err e

-- `changes.get("reservation_at", ...)`, parsed if it is the stored text. `_parse_ts(None)` is an
-- AttributeError.
unfoldable pub new_time : Env → Reservation → Field DateTime → Result DateTime
new_time env existing Field.unset = ok (parse_ts env.zone existing.reservation_at)
new_time env existing Field.null = err attribute_error
new_time env existing (Field.value at) = ok at

abbrev pub moves : ReservationUpdate → Bool
moves body = is_set body.party_size || (is_set body.reservation_at || is_set body.table_id)

-- The table of a changed reservation. One that no longer serves is exchanged for another, unless the
-- request names it.
unfoldable pub resolve_change : Env → Db → ℕ → Reservation → ReservationUpdate → DateTime → Result ℕ
resolve_change env db reservation_id existing body new_at =
    let party = get_nullable body.party_size (some existing.party_size) in
    let requested = get_nullable body.table_id existing.table_id in
    let exclude = some reservation_id in
    let first = resolve_table_for env.zone db requested party new_at exclude in
    let other = resolve_table_for env.zone db none party new_at exclude in
    if is_set body.table_id then first else or_reassign first other

-- `changes["table_id"] = resolved`
unfoldable pub resolved_table :
    Env → Db → ℕ → Reservation → ReservationUpdate → DateTime → Result (Field ℕ)
resolved_table env db reservation_id existing body new_at =
    if moves body
    then bind_result (resolve_change env db reservation_id existing body new_at)
        (λ t. ok (Field.value t))
    else ok body.table_id

-- A foreign key that is not NULL names a row.
abbrev pub table_reference_exists : Db → Option ℕ → Bool
table_reference_exists db none = true
table_reference_exists db (some t) = is_some (table_row db t)

abbrev pub iso_field : Field DateTime → IsoText → IsoText
iso_field Field.unset stored = stored
iso_field Field.null stored = stored
iso_field (Field.value at) stored = iso at

-- The row after the UPDATE; `none` is the IntegrityError of a NOT NULL column or of the CHECK.
unfoldable pub changed_row : Reservation → ReservationUpdate → Field ℕ → ℕ → Option Reservation
changed_row existing body table_id now_at = elim (get_required body.phone existing.phone) [
  | none ↦ none
  | some phone ↦ elim (get_required body.customer_name existing.customer_name) [
    | none ↦ none
    | some customer_name ↦ elim (get_required body.party_size existing.party_size) [
      | none ↦ none
      | some party_size ↦
          if ltb 0 party_size
          then some (record existing {
            phone = phone;
            customer_name = customer_name;
            party_size = party_size;
            reservation_at = iso_field body.reservation_at existing.reservation_at;
            notes = get_nullable body.notes existing.notes;
            table_id = get_nullable table_id existing.table_id;
            updated_at = now_at;
          })
          else none
    ]
  ]
]

abbrev pub put_reservation : ℕ → Reservation → Db → Db
put_reservation reservation_id r db = record db {
  reservations = update_where (λ x. x.id == reservation_id) (λ x. r) db.reservations;
}

unfoldable pub write_change :
    Env → ℕ → Reservation → ReservationUpdate → Field ℕ → Action (Unit {0})
write_change env reservation_id existing body table_id = do
  known ← gets (λ db. table_reference_exists db (get_nullable table_id existing.table_id))
  raise_if (not known) integrity_error
  now_at ← now env
  row ← or_raise integrity_error (changed_row existing body table_id now_at)
  modify (put_reservation reservation_id row)

unfoldable pub announce_move : Env → ReservationOut → Action (Unit {0})
announce_move env updated = do
  at ← now_local env
  enqueue_notification env updated NotificationKind.updated at

-- The old reminder is no longer accurate: it is cancelled, and a new one queued.
unfoldable pub reschedule_reminder : Env → ℕ → ReservationOut → Action (Unit {0})
reschedule_reminder env reservation_id updated = do
  cancel_pending_reminders_for env reservation_id
  remind_at ← reminder_time_for env updated
  enqueue_notification env updated NotificationKind.reminder remind_at

-- The messages of a change: `updated` if a notable field moved, and a new reminder for a new time.
unfoldable pub announce_updated : Env → ℕ → ReservationOut → ReservationUpdate → Action (Unit {0})
unfolding announce_move reschedule_reminder
announce_updated env reservation_id updated body = do
  if moves body then announce_move env updated else pure tt
  if is_set body.reservation_at then reschedule_reminder env reservation_id updated else pure tt

-- `not changes`, after `verify_phone` has been taken out.
abbrev pub is_noop : ReservationUpdate → Bool
is_noop body =
    not (is_set body.phone || (is_set body.customer_name || (is_set body.notes || moves body)))

unfoldable pub apply_change :
    Env → ℕ → Reservation → ReservationUpdate → Field ℕ → Action ReservationOut
apply_change env reservation_id existing body table_id = do
  write_change env reservation_id existing body table_id
  found ← gets (λ db. get_reservation db reservation_id)
  updated ← or_raise assertion_error found
  announce_updated env reservation_id updated body
  pure updated

unfoldable pub update_existing : Env → ℕ → ReservationUpdate → Reservation → Action ReservationOut
update_existing env reservation_id body existing = do
  new_at ← lift (new_time env existing body.reservation_at)
  table_id ← query (λ db. resolved_table env db reservation_id existing body new_at)
  if is_noop body
      then gets (λ db. attach_table db existing)
      else apply_change env reservation_id existing body table_id

-- None where the reservation does not exist.
unfoldable pub update_reservation : Env → ℕ → ReservationUpdate → Action (Option ReservationOut)
update_reservation env reservation_id body = do
  row ← gets (λ db. reservation_row db reservation_id)
  elim row [
    | none ↦ pure none
    | some existing ↦ do out ← update_existing env reservation_id body existing; pure (some out)
  ]
