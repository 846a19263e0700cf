-- ===== src/Bookings/Booked.antt =====
-- When `create_reservation` of app/crud.py succeeds, and what it then leaves.
use reservac_ia.Base.{
  ℕ, suc, ◌*◌, ◌≤◌, ◌<◌, ◌≡◌, refl, sym, ap, ◌∙◌, subst, true, false, Option, none, some, is_some,
  All, arith,
}
use reservac_ia.Clock.{hour, ZoneInfo, DateTime}
use reservac_ia.Model.{Env, Db, Table}
use reservac_ia.Model.Payloads.{ReservationCreate}
use reservac_ia.Monad.{State, ok, query, ◌>>=◌}
use reservac_ia.Monad.Succeeds.{Succeeds, bind-Succeeds}
use reservac_ia.Crud.Lookup.{TableOut, table_row}
use reservac_ia.Crud.Conflict.{
  find_available_table, resolve_table_for, candidate_le, to_candidate, table_has_conflict,
}
use reservac_ia.Crud.Reservations.{
  code_taken, generate_unique_code, new_reservation, reservation_constraints, add_reservation,
  insert_reservation, book, create_reservation,
}
use reservac_ia.Bookings.Valid.{IsValid}
use reservac_ia.Bookings.Best.{find_available_table-best}
use reservac_ia.Bookings.Placing.{resolve_table_for-Placeable}
use reservac_ia.Bookings.Announced.{drawn, generate_unique_code-Succeeds}
use reservac_ia.Bookings.Inserted.{
  IsBooked, insert_reservation-Succeeds, read_back, finish-Succeeds,
}

module _ (env : Env) (body : ReservationCreate) (table_id : ℕ) where
  pub book-Succeeds :
      (s : State)
      → All (λ r. r.id ≤ s.db.reservation_seq) s.db.reservations
      → is_some (table_row s.db table_id) ≡ true
      → 0 < body.party_size
      → code_taken s.db (drawn env s.draws 6) ≡ false
      → env.settings.reminder_lead_hours * hour ≤ body.reservation_at.wall
      → Succeeds (book env body table_id) s (IsBooked env body table_id s)
  unfolding book
  book-Succeeds s below table party fresh early =
      bind-Succeeds (generate_unique_code env)
        (λ code. insert_reservation env body table_id code >>= (read_back env body table_id)) s
        (λ code t. (code ≡ drawn env s.draws 6) × (t.db ≡ s.db)) (IsBooked env body table_id s)
        (generate_unique_code-Succeeds env s fresh)
        λ code t p.
          let admitted : reservation_constraints t.db body.party_size table_id code ≡ true =
            rw (p.0, p.1) (ground arith) in
          bind-Succeeds (insert_reservation env body table_id code) (read_back env body table_id) t
            (λ id u.
              (id ≡ suc t.db.reservation_seq)
              × (u.db
                  ≡ add_reservation
                      (new_reservation (suc t.db.reservation_seq) body table_id code
                        (env.clock t.reads))
                      t.db))
            (IsBooked env body table_id s)
            (insert_reservation-Succeeds env body table_id code t admitted)
            λ id u q.
              let made =
                new_reservation (suc s.db.reservation_seq) body table_id (drawn env s.draws 6)
                  (env.clock t.reads) in
              let stored : u.db ≡ add_reservation made s.db =
                q.1
                ∙ ap
                    (λ d.
                      add_reservation
                        (new_reservation (suc d.reservation_seq) body table_id code
                          (env.clock t.reads))
                        d)
                    p.1
                ∙ ap
                    (λ c.
                      add_reservation
                        (new_reservation (suc s.db.reservation_seq) body table_id c
                          (env.clock t.reads))
                        s.db)
                    p.0 in
              let same_id : id ≡ suc s.db.reservation_seq =
                q.0 ∙ ap (λ d. suc d.reservation_seq) p.1 in
              subst
                (λ j. Succeeds ((read_back env body table_id) j) u (IsBooked env body table_id s))
                (sym same_id) (finish-Succeeds env body table_id s u made below early refl stored)

  pub create_reservation-Succeeds :
      (s : State)
      → IsValid env.zone s.db
      → resolve_table_for env.zone s.db body.table_id
          (some body.party_size)
          body.reservation_at
          none
        ≡ ok table_id
      → 0 < body.party_size
      → code_taken s.db (drawn env s.draws 6) ≡ false
      → env.settings.reminder_lead_hours * hour ≤ body.reservation_at.wall
      → Succeeds (create_reservation env body) s (IsBooked env body table_id s)
  unfolding create_reservation
  create_reservation-Succeeds s v resolved party fresh early =
      bind-Succeeds
        (query (λ db.
          resolve_table_for env.zone db body.table_id (some body.party_size) body.reservation_at
            none))
        (book env body) s (λ i t. (i ≡ table_id) × (t ≡ s)) (IsBooked env body table_id s)
        (record { answer = table_id; run = resolved; post = (refl, refl) })
        λ i t p.
          subst (λ j. Succeeds (book env body j) t (IsBooked env body table_id s)) (sym p.0)
            (subst (λ u. Succeeds (book env body table_id) u (IsBooked env body table_id s))
              (sym p.1) (book-Succeeds s v.below exists party fresh early))
    where
      exists : is_some (table_row s.db table_id) ≡ true
      exists =
          let place =
            resolve_table_for-Placeable env.zone s.db body.party_size body.reservation_at none
              body.table_id table_id v.distinct resolved in
          rw (place.found) refl

auto_resolved :
    (zone : ZoneInfo) (db : Db) (requested party_size : Option ℕ) (at : DateTime)
    (exclude : Option ℕ) (best : TableOut)
    → requested ≡ none
    → find_available_table zone db party_size at exclude ≡ some best
    → resolve_table_for zone db requested party_size at exclude ≡ ok best.table.id
unfolding resolve_table_for
auto_resolved zone db (some i) party_size at exclude best auto found = absurd (ground arith)
auto_resolved zone db none party_size at exclude best auto found = ground arith

-- In a valid database, a request that names no table, for a party of at least one, succeeds
-- whenever some table has the seats and no conflict, the code that is drawn first is not taken and
-- the reminder lead does not reach before year 1: it appends just one row, with the new id, the
-- values of the request, the drawn code and a table that comes no later than that one by capacity,
-- load and id.
pub create_reservation-books :
    (env : Env) (body : ReservationCreate) (s : State) (t : Table)
    → IsValid env.zone s.db
    → body.table_id ≡ none
    → table_row s.db t.id ≡ some t
    → body.party_size ≤ t.capacity
    → table_has_conflict env.zone s.db t.id body.reservation_at none ≡ false
    → 0 < body.party_size
    → code_taken s.db (drawn env s.draws 6) ≡ false
    → env.settings.reminder_lead_hours * hour ≤ body.reservation_at.wall
    → (best : Table) × (candidate_le (to_candidate s.db best) (to_candidate s.db t) ≡ true)
      × Succeeds (create_reservation env body) s (IsBooked env body best.id s)
create_reservation-books env body s t v auto row room free party fresh early =
    let (best, found, least) =
      find_available_table-best env.zone s.db body.party_size body.reservation_at none t row room
        free in
    let resolved : resolve_table_for env.zone s.db body.table_id (some body.party_size)
          body.reservation_at none
        ≡ ok best.table.id =
      auto_resolved env.zone s.db body.table_id (some body.party_size) body.reservation_at none best
        auto found in
    (
      best.table,
      least,
      create_reservation-Succeeds env body best.table.id s v resolved party fresh early,
    )
