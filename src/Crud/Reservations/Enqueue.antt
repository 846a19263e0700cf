-- ===== src/Crud/Reservations/Enqueue.antt =====
-- Confirmation codes that are not taken, and the queueing of a reservation's messages.
use reservac_ia.Base.{
  ℕ, zero, suc, ◌*◌, Bool, true, false, none, some, if◌then◌else◌, any, Text, text_eq,
}
use reservac_ia.Clock.{hour, DateTime, RawDateTime, at_zone, parse_ts, minus_delta, is_later}
use reservac_ia.Model.{Env, Db, Reservation, NotificationKind}
use reservac_ia.Monad.{
  runtime_error, overflow_error, Action, pure, raise, lift, gets, or_raise, now, ◌>>=◌, ◌>>◌,
}
use reservac_ia.Codes.{generate_code}
use reservac_ia.Crud.Lookup.{ReservationOut}
use reservac_ia.Notifications.Templates.{render}
use reservac_ia.Notifications.Queue.{enqueue}

abbrev pub code_is : Text → Reservation → Bool
code_is code r = elim r.confirmation_code [ none ↦ false | some c ↦ text_eq c code ]

abbrev pub code_taken : Db → Text → Bool
code_taken db code = any (code_is code) db.reservations

-- A taken code is drawn again.
unfoldable pub keep_or_retry : Bool → Text → Action Text → Action Text
keep_or_retry true code again = again
keep_or_retry false code again = pure code

-- The `for _ in range(8)` loop, on the rounds left.
unfoldable pub code_loop : Env → ℕ → Action Text
unfolding keep_or_retry
code_loop env zero = raise runtime_error
code_loop env (suc rounds) = do
  code ← generate_code env
  taken ← gets (λ db. code_taken db code)
  let again = code_loop env rounds
  keep_or_retry taken code again

-- `_generate_unique_code`
unfoldable pub generate_unique_code : Env → Action Text
unfolding code_loop
generate_unique_code env = code_loop env 8

-- `_enqueue_notification`
unfoldable pub enqueue_notification :
    Env → ReservationOut → NotificationKind → DateTime → Action (Unit {0})
enqueue_notification env out kind scheduled_at = do
  body ← lift (render env kind out)
  let r = out.reservation
  enqueue env (some r.id) kind r.phone (RawDateTime.aware_at scheduled_at) body
  pure tt

-- `_now_local`
unfoldable pub now_local : Env → Action DateTime
now_local env = do u ← now env; pure (at_zone env.zone u)

-- `_reminder_time_for`: the lead before the reservation, never in the past.
unfoldable pub reminder_time_for : Env → ReservationOut → Action DateTime
unfolding now_local
reminder_time_for env out = do
  let at = parse_ts env.zone out.reservation.reservation_at
  target ←
      or_raise overflow_error (minus_delta env.zone at (env.settings.reminder_lead_hours * hour))
  now_at ← now_local env
  pure (if is_later target now_at then target else now_at)
