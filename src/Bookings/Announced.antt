-- ===== src/Bookings/Announced.antt =====
-- The steps of `create_reservation` of app/crud.py after the table: the code, and the two messages.
use reservac_ia.Base.{
  ℕ, zero, suc, ◌*◌, ◌≤◌, ◌≡◌, refl, ap, ◌∙◌, false, not, ◌&&◌, none, some, List, [], ◌∷◌, ◌++◌,
  ◌==◌, find, All, Bool-cases, inl, inr, if◌then◌else◌, arith, Text, length, take, drop,
}
use reservac_ia.Clock.{hour, DateTime, RawDateTime, parse_ts, minus_delta}
use reservac_ia.Model.{Env, Reservation, NotificationKind, kind_eq}
use reservac_ia.Monad.{State, ok, lift, or_raise, overflow_error}
use reservac_ia.Monad.Succeeds.{Succeeds, bind-Succeeds, or_raise-Succeeds, weaken-Succeeds}
use reservac_ia.Codes.{pick_symbol, generate_go, generate_code}
use reservac_ia.Notifications.Templates.{
  render, format_code, format, filling, created_template, updated_template, cancelled_template,
  reminder_template,
}
use reservac_ia.Notifications.Queue.{enqueue, insert_notification}
use reservac_ia.Crud.Lookup.{ReservationOut, reservation_row}
use reservac_ia.Crud.Reservations.{
  code_taken, generate_unique_code, code_loop, keep_or_retry, announce_created,
  enqueue_notification, now_local, reminder_time_for,
}

-- The code that the next draws make.
abbrev pub drawn : Env → (draws n : ℕ) → Text
drawn env draws zero = []
drawn env draws (suc n) = pick_symbol (env.choice draws) ∷ drawn env (suc draws) n

pub find-new :
    (rows : List Reservation) (seq : ℕ) (r : Reservation)
    → All (λ x. x.id ≤ seq) rows
    → r.id ≡ suc seq
    → find (λ x. x.id == suc seq) (rows ++ r ∷ []) ≡ some r
find-new [] seq r h e = ground arith
find-new (x ∷ rows) seq r h e =
    let other : (x.id == suc seq) ≡ false = let le = h.0 in ground arith in
    rw other (find-new rows seq r h.1 e)

module _ (env : Env) where
  pub generate_unique_code-Succeeds :
      (s : State)
      → code_taken s.db (drawn env s.draws 6) ≡ false
      → Succeeds
          (generate_unique_code env)
          s
          (λ code t. (code ≡ drawn env s.draws 6) × (t.db ≡ s.db))
  unfolding generate_unique_code code_loop generate_code generate_go keep_or_retry
  generate_unique_code-Succeeds s fresh = record {
    answer = drawn env s.draws 6;
    run = rw fresh refl;
    post = rw fresh (refl, refl);
  }

  -- A message for a reservation that is there.
  enqueue-Succeeds :
      (i : ℕ) (kind : NotificationKind) (phone body : Text) (at : RawDateTime) (r : Reservation)
      (s : State)
      → reservation_row s.db i ≡ some r
      → Succeeds
          (enqueue env (some i) kind phone at body)
          s
          (λ _ t. t.db.reservations ≡ s.db.reservations)
  unfolding enqueue insert_notification
  enqueue-Succeeds i kind phone body at r s e =
      elim (Bool-cases
        (env.settings.suppress_notifications && not (kind_eq kind NotificationKind.custom))) [
          | inl quiet ↦ record { answer = none; run = rw quiet refl; post = rw quiet refl }
          | inr loud ↦ record {
            answer = some (suc s.db.notification_seq);
            run = rw (loud, e) refl;
            post = rw (loud, e) refl;
          }
        ]

  abbrev shown : Text → Text
  shown raw = if length raw == 6 then take 3 raw ++ b'-' ∷ drop 3 raw else raw

  render-code :
      (kind : NotificationKind) (out : ReservationOut) (c : Text)
      → out.reservation.confirmation_code ≡ some c
      → kind_eq kind NotificationKind.custom ≡ false
      → (text : Text) × (render env kind out ≡ ok text)
  unfolding render format_code
  render-code NotificationKind.created out c e k =
      (format (filling env out (shown c)) created_template, rw e refl)
  render-code NotificationKind.updated out c e k =
      (format (filling env out (shown c)) updated_template, rw e refl)
  render-code NotificationKind.cancelled out c e k =
      (format (filling env out (shown c)) cancelled_template, rw e refl)
  render-code NotificationKind.reminder out c e k =
      (format (filling env out (shown c)) reminder_template, rw e refl)
  render-code NotificationKind.custom out c e k = absurd (ground arith)

  module _ (i : ℕ) (r : Reservation) (c : Text) where
    -- The rows that the messages must find.
    abbrev Stored : List Reservation → State → Type 0
    Stored rows t = t.db.reservations ≡ rows

    abbrev Finds : List Reservation → Type 0
    Finds rows = find (λ x. x.id == i) rows ≡ some r

    enqueue_notification-Succeeds :
        (out : ReservationOut) (kind : NotificationKind) (at : DateTime) (rows : List Reservation)
        (s : State)
        → out.reservation ≡ r
        → r.id ≡ i
        → r.confirmation_code ≡ some c
        → kind_eq kind NotificationKind.custom ≡ false
        → Finds rows
        → Stored rows s
        → Succeeds (enqueue_notification env out kind at) s (λ _ t. Stored rows t)
    unfolding enqueue_notification
    enqueue_notification-Succeeds out kind at rows s o e code k f h =
        let (body, rendered) = render-code kind out c (ap (λ x. x.confirmation_code) o ∙ code) k in
        bind-Succeeds (lift (render env kind out)) _ s (λ x t. t ≡ s) (λ _ t. Stored rows t)
          (record { answer = body; run = rendered; post = refl })
          λ x t q.
            bind-Succeeds
              (enqueue env (some out.reservation.id) kind out.reservation.phone
                (RawDateTime.aware_at at) x)
              _ t (λ _ u. Stored rows u) (λ _ u. Stored rows u)
              (weaken-Succeeds _ t (λ _ u. u.db.reservations ≡ t.db.reservations)
                (λ _ u. Stored rows u)
                (enqueue-Succeeds out.reservation.id kind out.reservation.phone x
                  (RawDateTime.aware_at at) r t (found out t q o e f h))
                (λ _ u g. g ∙ ap (λ y. y.db.reservations) q ∙ h))
              (λ _ u g. record { answer = tt; run = refl; post = g })
      where
        found :
            (out : ReservationOut) (t : State)
            → t ≡ s
            → out.reservation ≡ r
            → r.id ≡ i
            → Finds rows
            → Stored rows s
            → reservation_row t.db out.reservation.id ≡ some r
        found out t q o e f h =
            ap (λ rs. find (λ x. x.id == out.reservation.id) rs) (ap (λ y. y.db.reservations) q ∙ h)
            ∙ ap (λ j. find (λ x. x.id == j) rows) (ap (λ x. x.id) o ∙ e)
            ∙ f

    now_local-Succeeds :
        (rows : List Reservation) (s : State)
        → Stored rows s
        → Succeeds (now_local env) s (λ _ t. Stored rows t)
    unfolding now_local
    now_local-Succeeds rows s h = record { answer = _; run = refl; post = h }

    reminder_time_for-Succeeds :
        (out : ReservationOut) (target : DateTime) (rows : List Reservation) (s : State)
        → minus_delta env.zone
            (parse_ts env.zone out.reservation.reservation_at)
            (env.settings.reminder_lead_hours * hour)
          ≡ some target
        → Stored rows s
        → Succeeds (reminder_time_for env out) s (λ _ t. Stored rows t)
    unfolding reminder_time_for now_local
    reminder_time_for-Succeeds out target rows s early h =
        bind-Succeeds (or_raise overflow_error _) _ s (λ x t. (x ≡ target) × (t ≡ s))
          (λ _ t. Stored rows t) (or_raise-Succeeds overflow_error _ target s early)
          (λ x t q. record { answer = _; run = refl; post = ap (λ y. y.db.reservations) q.1 ∙ h })

    pub announce_created-Succeeds :
        (out : ReservationOut) (target : DateTime) (rows : List Reservation) (s : State)
        → out.reservation ≡ r
        → r.id ≡ i
        → r.confirmation_code ≡ some c
        → minus_delta env.zone
            (parse_ts env.zone out.reservation.reservation_at)
            (env.settings.reminder_lead_hours * hour)
          ≡ some target
        → Finds rows
        → Stored rows s
        → Succeeds (announce_created env out) s (λ _ t. Stored rows t)
    unfolding announce_created
    announce_created-Succeeds out target rows s o e code early f h =
        bind-Succeeds (now_local env) _ s (λ _ t. Stored rows t) (λ _ t. Stored rows t)
          (now_local-Succeeds rows s h)
          λ at t q.
            bind-Succeeds (enqueue_notification env out NotificationKind.created at) _ t
              (λ _ u. Stored rows u) (λ _ u. Stored rows u)
              (enqueue_notification-Succeeds out NotificationKind.created at rows t o e code refl f
                q)
              λ _ u p.
                bind-Succeeds (reminder_time_for env out) _ u (λ _ v. Stored rows v)
                  (λ _ v. Stored rows v) (reminder_time_for-Succeeds out target rows u early p)
                  λ remind_at v w.
                    enqueue_notification-Succeeds out NotificationKind.reminder remind_at rows v o e
                      code refl f w
