-- ===== src/Tests/Queue.antt =====
-- The theorems on the queue, with two due reminders, and on the routes, the codes and the limits.
use mathlib.Core.Option
use reservac_ia.Base.{
  ℕ, ◌*◌, ◌≤◌, ◌≡◌, refl, true, Option, none, List, [], ◌∷◌, arith, codes, length, select,
  DistinctIds, Text,
}
use reservac_ia.Clock.{second, parse_ts, ensure_aware}
use reservac_ia.Monad.{ok, err, http_error}
use reservac_ia.Samples.{
  sample_env, sample_state, sample_queue, failing, request, booked, with_phone, answer_or,
}
use reservac_ia.Codes.{generate_code, is_well_formed, normalize_code}
use reservac_ia.Codes.Laws.{generate_code-IsWellFormed}
use reservac_ia.Notifications.Queue.{enqueue, insert_notification, cancel_pending_reminders_for}
use reservac_ia.Notifications.Templates.{render, format_code, filling, format, decimal, room_name}
use reservac_ia.Crud.Conflict.{resolve_table_for, find_available_table, candidates}
use reservac_ia.Routers.Status.{conflict_on_reservation}
use reservac_ia.Notifications.Attempts.{InBudget, process_batch-InBudget}
use reservac_ia.Notifications.Worker.{process_batch, batch_limit}
use reservac_ia.Notifications.Tick.{process_batch-ok}
use reservac_ia.Crud.Lookup.{ReservationOut, get_reservation, attach_table, get_table, attach_room}
use reservac_ia.Crud.Reservations.{
  create_reservation, cancel_reservation, cancel_existing, enqueue_notification, now_local,
}
use reservac_ia.Bookings.Reminders.{NoReminder, cancel_reservation-NoReminder}
use reservac_ia.Middleware.Window.{Verdict, hit, expire, refuse}
use reservac_ia.Middleware.Expiry.{recent}
use reservac_ia.Middleware.Limit.{Run, accepted-in-window, retry_after-accepted}
use reservac_ia.Routers.Reservations
use reservac_ia.Routers.Laws.{update_forbidden}

queue_distinct : DistinctIds (λ n. n.id) sample_queue.db.notifications
queue_distinct = (((λ e. absurd (omega (arith, e))), tt), (tt, tt))

queue-InBudget : InBudget 5 sample_queue.db
queue-InBudget = record {
  distinct = queue_distinct;
  attempts = (refl, (refl, tt));
  below = (omega arith, (omega arith, tt));
}

process_batch-InBudget_example : InBudget 5 (process_batch sample_env failing sample_queue).1.db
process_batch-InBudget_example =
    process_batch-InBudget sample_env failing sample_queue queue-InBudget

process_batch-ok_example :
    (sent : ℕ) × ((process_batch sample_env failing sample_queue).0 ≡ ok sent)
    × (sent ≤ batch_limit)
process_batch-ok_example = process_batch-ok sample_env failing sample_queue queue_distinct

generate_code-IsWellFormed_example :
    (code : Text) × ((generate_code sample_env sample_state).0 ≡ ok code)
    × (is_well_formed code ≡ true)
    × (normalize_code code ≡ code)
generate_code-IsWellFormed_example = generate_code-IsWellFormed sample_env sample_state

abbrev one_run_history : List ℕ
one_run_history = 5 * second ∷ []

one_hit : Run 1 (60 * second) (5 * second ∷ []) (5 * second ∷ []) (5 * second)
unfolding hit expire
one_hit = Run.served [] [] 0 (5 * second) Run.started (omega arith)

accepted-in-window_example :
    length (select (recent (60 * second) (5 * second)) (5 * second ∷ [])) ≤ 1
accepted-in-window_example =
    accepted-in-window 1 (60 * second) (5 * second ∷ []) (5 * second ∷ []) (5 * second) one_hit

second_refused : (hit 1 (60 * second) (10 * second) (5 * second ∷ [])).0 ≡ Verdict.retry_after 56
unfolding hit expire refuse
second_refused = refl

retry_after-accepted_example :
    (hit 1 (60 * second) (66 * second) (hit 1 (60 * second) (10 * second) (5 * second ∷ [])).1).0
    ≡ Verdict.accepted
retry_after-accepted_example =
    retry_after-accepted 1 (60 * second) (5 * second ∷ []) (5 * second ∷ []) (5 * second)
      (10 * second) (66 * second) 56 one_hit (omega arith) second_refused (omega arith)

update_forbidden_example :
    Reservations.update sample_env 1 (with_phone (codes "+34611")) sample_state
    ≡ (err (http_error 403), sample_state)
update_forbidden_example =
    update_forbidden sample_env 1 (booked 1 1 2 19) (codes "+34611") (with_phone (codes "+34611"))
      sample_state refl refl refl

cancelled_answer : Option ReservationOut
cancelled_answer = answer_or none (cancel_reservation sample_env 1 sample_queue).0

cancelled : (cancel_reservation sample_env 1 sample_queue).0 ≡ ok cancelled_answer
unfolding cancel_reservation cancel_existing get_reservation attach_table get_table attach_room
    enqueue_notification now_local enqueue insert_notification render format_code filling format
    decimal room_name parse_ts ensure_aware cancel_pending_reminders_for Option.bind
    cancelled_answer
cancelled = refl

cancel_reservation-NoReminder_example :
    NoReminder 1 (cancel_reservation sample_env 1 sample_queue).1.db
cancel_reservation-NoReminder_example =
    cancel_reservation-NoReminder sample_env 1 sample_queue (booked 1 1 2 19) cancelled_answer refl
      refl cancelled

too_many : (Reservations.create sample_env (request 5 20) sample_state).0 ≡ err (http_error 409)
unfolding Reservations.create create_reservation resolve_table_for find_available_table candidates
    conflict_on_reservation
too_many = refl
