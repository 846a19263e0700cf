-- ===== src/Routers/Laws.antt =====
-- Refusals by the routes of app/routers/reservations.py.
use reservac_ia.Base.{ℕ, ◌≡◌, refl, ap, ◌∙◌, false, Option, some, Text, text_eq}
use reservac_ia.Model.{Env, Reservation}
use reservac_ia.Model.Payloads.{ReservationCreate, ReservationUpdate}
use reservac_ia.Monad.{
  Exn, http_error, Result, ok, err, State, Action, with_connection, with_connection_rolls_back,
  ◌>>=◌, ◌>>◌, gets,
}
use reservac_ia.Crud.Lookup.{
  ReservationOut, reservation_row, get_reservation, attach_table, get_reservation-found,
}
use reservac_ia.Crud.Reservations.{create_reservation, update_reservation, cancel_reservation}
use reservac_ia.Routers.Status.{translate, conflict_on_reservation, translated, or_404}
use reservac_ia.Routers.Reservations.{
  create, update, cancel, checked_update, checked_cancel, enforce_verify_phone,
}

translated_err :
    {A : Type 0} (f : Exn → Exn) (r : Result A) {e : Exn}
    → translated f r ≡ err e
    → (x : Exn) × (r ≡ err x)
translated_err f (ok a) h = absurd (cc)
translated_err f (err x) h = (x, refl)

-- A POST of a reservation that is answered with an exception leaves the database as it was.
create-err :
    (env : Env) (body : ReservationCreate) (s : State) (e : Exn)
    → (create env body s).0 ≡ err e
    → (create env body s).1.db ≡ s.db
unfolding create
create-err env body s e h =
    let (x, q) =
      translated_err conflict_on_reservation (with_connection (create_reservation env body) s).0
        {e = e} h in
    with_connection_rolls_back (create_reservation env body) s {e = x} q

enforce_verify_phone-mismatch :
    (r : ReservationOut) (claimed : Text) (s : State)
    → text_eq claimed r.reservation.phone ≡ false
    → enforce_verify_phone r (some claimed) s ≡ (err (http_error 403), s)
unfolding enforce_verify_phone
enforce_verify_phone-mismatch r claimed s n = rw n

module _ (env : Env) (i : ℕ) (r : Reservation) (claimed : Text) where
  -- What stands between the lookup and the operation.
  guard : {A : Type 0} → Option Text → Action A → Action A
  guard given m = gets (λ db. get_reservation db i) >>= λ row.
      or_404 row >>= λ existing. enforce_verify_phone existing given >> m

  guard-mismatch :
      {A : Type 0} (m : Action A) (s : State)
      → reservation_row s.db i ≡ some r
      → text_eq claimed r.phone ≡ false
      → guard (some claimed) m s ≡ (err (http_error 403), s)
  unfolding guard attach_table
  guard-mismatch m s e n = rw (
    get_reservation-found s.db i r e,
    enforce_verify_phone-mismatch (attach_table s.db r) claimed s n,
  )

  -- A change of an existing reservation with a verify_phone other than its phone is answered 403
  -- and leaves the state as it was.
  pub update_forbidden :
      (body : ReservationUpdate) (s : State)
      → reservation_row s.db i ≡ some r
      → body.verify_phone ≡ some claimed
      → text_eq claimed r.phone ≡ false
      → update env i body s ≡ (err (http_error 403), s)
  unfolding update checked_update conflict_on_reservation guard
  update_forbidden body s e p n =
      let refused : checked_update env i body s ≡ (err (http_error 403), s) =
        ap (λ given. guard given (update_reservation env i body) s) p
        ∙ guard-mismatch (update_reservation env i body) s e n in
      ap
        (λ q.
          (translate conflict_on_reservation (with_connection (λ _. q)) >>= λ row. or_404 row) s)
        refused

  -- A cancellation of an existing reservation with a verify_phone other than its phone is answered
  -- 403 and leaves the state as it was.
  cancel_forbidden :
      (s : State)
      → reservation_row s.db i ≡ some r
      → text_eq claimed r.phone ≡ false
      → cancel env i (some claimed) s ≡ (err (http_error 403), s)
  unfolding cancel checked_cancel guard
  cancel_forbidden s e n =
      ap (λ q. (with_connection (λ _. q) >>= λ row. or_404 row) s)
        (guard-mismatch (cancel_reservation env i) s e n)
