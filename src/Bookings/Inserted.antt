-- ===== src/Bookings/Inserted.antt =====
-- The row that `create_reservation` of app/crud.py inserts, read back and announced.
use reservac_ia.Base.{
  ℕ, suc, ◌*◌, ◌≤◌, ◌≡◌, refl, sym, ap, ◌∙◌, true, Option, some, [], ◌∷◌, ◌++◌, ◌==◌, Option-cases,
  find, All, inl, inr, arith, Text,
}
use reservac_ia.Clock.{hour, ZoneInfo, DateTime, iso, parse_ts, minus_delta}
use reservac_ia.Model.{Env, Reservation}
use reservac_ia.Model.Payloads.{ReservationCreate}
use reservac_ia.Monad.{State, Action, pure, gets, or_raise, assertion_error, ◌>>=◌, ◌>>◌}
use reservac_ia.Monad.Succeeds.{Succeeds, bind-Succeeds, or_raise-Succeeds}
use reservac_ia.Crud.Lookup.{
  ReservationOut, reservation_row, get_reservation, attach_table, get_reservation-found,
}
use reservac_ia.Crud.Reservations.{
  new_reservation, reservation_constraints, add_reservation, insert_reservation, announce_created,
}
use reservac_ia.Bookings.Announced.{drawn, find-new, announce_created-Succeeds}

minus_delta-some :
    (zone : ZoneInfo) (dt : DateTime) (delta : ℕ)
    → delta ≤ dt.wall
    → (target : DateTime) × (minus_delta zone (parse_ts zone (iso dt)) delta ≡ some target)
unfolding minus_delta parse_ts iso
minus_delta-some zone dt delta h =
    elim (Option-cases (minus_delta zone (parse_ts zone (iso dt)) delta)) [
      | inl n ↦ absurd (ground arith)
      | inr found ↦ found
    ]

-- What a successful booking leaves: one more row, as the request says, under a new id and the code
-- that was drawn.
abbrev pub IsBooked : Env → ReservationCreate → ℕ → State → ReservationOut → State → Type 0
IsBooked env body table_id s out t =
    (t.db.reservations ≡ s.db.reservations ++ out.reservation ∷ [])
    × (out.reservation
        ≡ new_reservation (suc s.db.reservation_seq) body table_id (drawn env s.draws 6)
            out.reservation.created_at)

module _ (env : Env) (body : ReservationCreate) (table_id : ℕ) where
  pub insert_reservation-Succeeds :
      (code : Text) (s : State)
      → reservation_constraints s.db body.party_size table_id code ≡ true
      → Succeeds (insert_reservation env body table_id code) s (λ id t.
        (id ≡ suc s.db.reservation_seq)
        × (t.db
            ≡ add_reservation
                (new_reservation (suc s.db.reservation_seq) body table_id code (env.clock s.reads))
                s.db))
  unfolding insert_reservation
  insert_reservation-Succeeds code s ok_row = record {
    answer = suc s.db.reservation_seq;
    run = rw ok_row refl;
    post = rw ok_row (refl, refl);
  }

  -- After the row is in: it is read back, and announced.
  abbrev pub announced : ReservationOut → Action ReservationOut
  announced row = announce_created env row >> pure row

  abbrev pub read_row : Option ReservationOut → Action ReservationOut
  read_row found = or_raise assertion_error found >>= announced

  abbrev pub read_back : ℕ → Action ReservationOut
  read_back id = gets (λ db. get_reservation db id) >>= read_row

  pub finish-Succeeds :
      (s t : State) (r : Reservation)
      → All (λ x. x.id ≤ s.db.reservation_seq) s.db.reservations
      → env.settings.reminder_lead_hours * hour ≤ body.reservation_at.wall
      → r
        ≡ new_reservation
            (suc s.db.reservation_seq)
            body
            table_id
            (drawn env s.draws 6)
            r.created_at
      → t.db ≡ add_reservation r s.db
      → Succeeds (read_back (suc s.db.reservation_seq)) t (IsBooked env body table_id s)
  unfolding attach_table
  finish-Succeeds s t r below early made stored =
      let i = suc s.db.reservation_seq in
      let rows = s.db.reservations ++ r ∷ [] in
      let id : r.id ≡ i = ap (λ x. x.id) made in
      let finds = find-new s.db.reservations s.db.reservation_seq r below id in
      let at_rows : t.db.reservations ≡ rows = ap (λ d. d.reservations) stored in
      let row : reservation_row t.db i ≡ some r = ap (find (λ x. x.id == i)) at_rows ∙ finds in
      let (target, lead) =
        minus_delta-some env.zone body.reservation_at (env.settings.reminder_lead_hours * hour)
          early in
      let out = attach_table t.db r in
      bind-Succeeds (gets (λ db. get_reservation db i)) read_row t
        (λ found u. (found ≡ some out) × (u ≡ t)) (IsBooked env body table_id s)
        (record { answer = _; run = refl; post = (get_reservation-found t.db i r row, refl) })
        λ found u p.
          bind-Succeeds (or_raise assertion_error found) announced u (λ x v. (x ≡ out) × (v ≡ u))
            (IsBooked env body table_id s) (or_raise-Succeeds assertion_error found out u p.0)
            λ x v q.
              let is_r : x.reservation ≡ r = ap (λ y. y.reservation) q.0 in
              let stored_v : v.db.reservations ≡ rows =
                ap (λ y. y.db.reservations) q.1 ∙ ap (λ y. y.db.reservations) p.1 ∙ at_rows in
              bind-Succeeds (announce_created env x) (λ _. pure x) v
                (λ _ w. w.db.reservations ≡ rows) (IsBooked env body table_id s)
                (announce_created-Succeeds env i r (drawn env s.draws 6) x target rows v is_r id
                  (ap (λ y. y.confirmation_code) made)
                  (ap
                      (λ y.
                        minus_delta env.zone (parse_ts env.zone y.reservation_at)
                          (env.settings.reminder_lead_hours * hour))
                      (is_r ∙ made)
                    ∙ lead)
                  finds stored_v)
                λ _ w k. record {
                  answer = x;
                  run = refl;
                  post = (
                    k ∙ ap (λ y. s.db.reservations ++ y ∷ []) (sym is_r),
                    is_r
                        ∙ made
                        ∙ ap
                            (λ y.
                              new_reservation i body table_id (drawn env s.draws 6) y.created_at)
                            (sym is_r),
                  );
                }
