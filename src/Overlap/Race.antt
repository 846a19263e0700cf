-- ===== src/Overlap/Race.antt =====
-- Two requests to book that overlap.
use reservac_ia.Base.{
  ℕ, ◌*◌, ◌≤◌, ◌<◌, ◌≡◌, refl, ap, ◌∙◌, subst, true, false, none, some, is_some, [], ◌∷◌, ◌++◌,
  ◌==◌, ==_refl, find, ltb, List,
}
use reservac_ia.Clock.{hour, iso, parse_ts, abs_difference}
use reservac_ia.Model.{Env, Reservation}
use reservac_ia.Model.Payloads.{ReservationCreate}
use reservac_ia.Monad.{State, ok, with_connection}
use reservac_ia.Monad.Succeeds.{with_connection-Succeeds}
use reservac_ia.Crud.Lookup.{ReservationOut, table_row}
use reservac_ia.Crud.Conflict.{conflict_window, resolve_table_for}
use reservac_ia.Crud.Reservations.{book, code_taken, new_reservation}
use reservac_ia.Bookings.Valid.{IsValid, clash}
use reservac_ia.Bookings.Placing.{resolve_table_for-Placeable}
use reservac_ia.Bookings.Announced.{drawn}
use reservac_ia.Bookings.Booked.{book-Succeeds}
use reservac_ia.Overlap.{Flight, advance, go_on, service, Overlaps}
use reservac_ia.Overlap.Consistent.{Overlaps-IsConsistent}
use reservac_ia.Overlap.Serial.{twice, answer, placed}

append_two :
    (rows : List Reservation) (x y : Reservation) → (rows ++ x ∷ []) ++ y ∷ [] ≡ rows ++ x ∷ y ∷ []
append_two [] x y = refl
append_two (r ∷ rows) x y = ap (λ xs. r ∷ xs) (append_two rows x y)

-- A request that can be booked at the table, for its size and time.
abbrev pub Bookable : Env → State → ReservationCreate → ℕ → Type 0
Bookable env s body table_id =
    (resolve_table_for env.zone s.db body.table_id (some body.party_size) body.reservation_at none
      ≡ ok table_id)
    × (0 < body.party_size)
    × (env.settings.reminder_lead_hours * hour ≤ body.reservation_at.wall)

module _ (env : Env) (s : State) (v : IsValid env.zone s.db) where
  two_moves :
      (x : Flight × State) (before after : List Flight)
      → Overlaps env s (service x before after)
      → Overlaps env s (service (twice env x) before after)
  two_moves x before after r =
      Overlaps.moves (advance env x.0 x.1).0 (advance env x.0 x.1).1 before after
        (Overlaps.moves x.0 x.1 before after r)

  resolves :
      (body : ReservationCreate) (table_id : ℕ)
      → Bookable env s body table_id
      → advance env (Flight.arrived body) s ≡ (Flight.placed body table_id, s)
  unfolding advance
  resolves body table_id h = ap (λ r. go_on (Flight.placed body) (r, s)) h.0

  module _ (a b : ReservationCreate) (i : ℕ) (can_a : Bookable env s a i)
      (can_b : Bookable env s b i) where
    -- Both choose their table before either has booked.
    both_placed : Overlaps env s (service (Flight.placed a i, s) [] (Flight.placed b i ∷ []))
    both_placed =
        let r = Overlaps.arrives _ b (Overlaps.arrives _ a Overlaps.idle) in
        let first = Overlaps.moves (Flight.arrived a) s [] (Flight.arrived b ∷ []) r in
        let one =
          subst (λ x. Overlaps env s (service x [] (Flight.arrived b ∷ []))) (resolves a i can_a)
            first in
        let second = Overlaps.moves (Flight.arrived b) s (Flight.placed a i ∷ []) [] one in
        subst (λ x. Overlaps env s (service x (Flight.placed a i ∷ []) [])) (resolves b i can_b)
          second

    abbrev pub first_booked : State
    first_booked = (with_connection (book env a i) s).1

    one_booked :
        Overlaps env s
          (service (answer (with_connection (book env a i) s)) [] (Flight.placed b i ∷ []))
    one_booked =
        subst (λ x. Overlaps env s (service x [] (Flight.placed b i ∷ []))) (placed env a s (ok i))
          (two_moves (Flight.placed a i, s) [] (Flight.placed b i ∷ []) both_placed)

    two_booked : Overlaps env s (
        service
          (answer (with_connection (book env b i) first_booked))
          (Flight.answered (with_connection (book env a i) s).0 ∷ [])
          [])
    two_booked =
        let before = Flight.answered (with_connection (book env a i) s).0 ∷ [] in
        subst (λ x. Overlaps env s (service x before [])) (placed env b first_booked (ok i))
          (two_moves (Flight.placed b i, first_booked) before [] one_booked)

    -- The rows of two requests for one table near each other.
    rows-clash :
        (x y : Reservation) (m n k l : ℕ) (c d : _)
        → ltb
            (abs_difference
              (parse_ts env.zone (iso a.reservation_at))
              (parse_ts env.zone (iso b.reservation_at)))
            conflict_window
          ≡ true
        → x ≡ new_reservation m a i c k
        → y ≡ new_reservation n b i d l
        → clash env.zone x y ≡ true
    rows-clash x y m n k l c d near e f = rw (e, f, ==_refl i) near

    -- Where two requests, less than two hours apart, resolve to one table in the same valid
    -- database, for parties of at least one, with reminders that do not reach before year 1 and
    -- codes that are not taken when they are drawn, there is an interleaving of their steps in
    -- which both are answered with a reservation, and the two rows that it adds clash.
    pub overlapping-clash :
        ltb
            (abs_difference
              (parse_ts env.zone (iso a.reservation_at))
              (parse_ts env.zone (iso b.reservation_at)))
            conflict_window
          ≡ true
        → code_taken s.db (drawn env s.draws 6) ≡ false
        → code_taken first_booked.db (drawn env first_booked.draws 6) ≡ false
        → (t : State) × (x : ReservationOut) × (y : ReservationOut) × Overlaps env s
            (record { state = t; flights = Flight.answered (ok x) ∷ Flight.answered (ok y) ∷ [] })
          × (t.db.reservations ≡ s.db.reservations ++ x.reservation ∷ y.reservation ∷ [])
          × (clash env.zone x.reservation y.reservation ≡ true)
    overlapping-clash near fresh_a fresh_b =
        let p =
          resolve_table_for-Placeable env.zone s.db a.party_size a.reservation_at none a.table_id i
            v.distinct can_a.0 in
        let there : is_some (table_row s.db i) ≡ true = rw (p.found) refl in
        let x =
          with_connection-Succeeds (book env a i) s _
            (book-Succeeds env a i s v.below there can_a.1 fresh_a can_a.2) in
        let now = Overlaps-IsConsistent env s v _ one_booked in
        let still : is_some (table_row first_booked.db i) ≡ true =
          ap (λ ts. is_some (find (λ t. t.id == i) ts)) now.same_tables ∙ there in
        let y =
          with_connection-Succeeds (book env b i) first_booked _
            (book-Succeeds env b i first_booked now.below still can_b.1 fresh_b can_b.2) in
        let t = (with_connection (book env b i) first_booked).1 in
        (
          t,
          x.answer,
          y.answer,
          subst
              (λ r. Overlaps env s (record {
                state = t;
                flights = Flight.answered r ∷ Flight.answered (ok y.answer) ∷ [];
              }))
              x.run
              (subst
                (λ r. Overlaps env s (record {
                  state = t;
                  flights =
                      Flight.answered (with_connection (book env a i) s).0 ∷ Flight.answered r ∷ [];
                }))
                y.run two_booked),
          y.post.0
              ∙ ap (λ rows. rows ++ y.answer.reservation ∷ []) x.post.0
              ∙ append_two s.db.reservations x.answer.reservation y.answer.reservation,
          rows-clash x.answer.reservation y.answer.reservation _ _ _ _ _ _ near x.post.1 y.post.1,
        )
