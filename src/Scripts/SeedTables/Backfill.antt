-- ===== src/Scripts/SeedTables/Backfill.antt =====
-- What `backfill_assignments` of scripts/seed_tables.py leaves.
use reservac_ia.Base.{
  ℕ, ◌+◌, ◌<◌, ◌≡◌, refl, sym, ◌∙◌, true, false, inl, none, some, List, [], ◌∷◌, ◌==◌, any, select,
  length, length-order_by, length-select, All, All-imp, All-order_by, All-of-order_by, All-select,
  select_holds, All-both, All-to-select, All-of-select, order_by, Pairwise-select,
  Pairwise-order_by, arith, ==_refl,
}
use reservac_ia.Clock.{parse_ts}
use reservac_ia.Model.{Env, Db, Reservation}
use reservac_ia.Monad.{State, pure, Action, ◌>>=◌}
use reservac_ia.Monad.Succeeds.{Succeeds, bind-Succeeds, same-Succeeds}
use reservac_ia.Crud.Conflict.{by_capacity, seats, table_has_conflict}
use reservac_ia.Bookings.Valid.{IsValid, valid-DistinctIds}
use reservac_ia.Scripts.SeedTables.{
  Usage, Progress, is_unassigned, place_rows, by_time, backfill_assignments,
}
use reservac_ia.Scripts.SeedTables.Rows.{TracksAll, taken-conflict}
use reservac_ia.Scripts.SeedTables.Choice.{note_rows-usage}
use reservac_ia.Scripts.SeedTables.Rounds.{Inv, rows_found}
use reservac_ia.Scripts.SeedTables.Placed.{Placed, count_unassigned, place_rows-Succeeds}

-- What the script promises: the bookings stay valid, no table is missed that a reservation without
-- one could take, and the two counts are of the rows that got a table and of those that did not.
pub record Backfilled (env : Env) (before : Db) (counts : ℕ × ℕ) (after : Db) : Type 0 where
  pub valid : IsValid env.zone after
  pub complete :
      All
        (λ x.
          All
            (λ table.
              table_has_conflict env.zone after table.id (parse_ts env.zone x.reservation_at) none
              ≡ true)
            (select (seats (some x.party_size)) after.tables))
        (select is_unassigned after.reservations)
  pub counted : counts.0 + counts.1 ≡ count_unassigned before
  pub skipped : counts.1 ≡ count_unassigned after

abbrev ListedIn : List Reservation → Reservation → Type 0
ListedIn rows x = any (λ r. r.id == x.id) rows ≡ true

all_listed : (rows : List Reservation) → All (ListedIn rows) rows
all_listed [] = tt
all_listed (r ∷ rows) =
    (rw (==_refl r.id) refl, All-imp _ _ (λ x h. ground arith) rows (all_listed rows))

module _ (env : Env) where
  -- The rows before the first round.
  start-Inv :
      (db : Db) (v : IsValid env.zone db) (usage : List Usage)
      → TracksAll env.zone db.reservations usage db.tables
      → Inv env (order_by by_time (select is_unassigned db.reservations)) usage db
  start-Inv db v usage tracks = record {
    valid = v;
    tracks = tracks;
    waiting = All-order_by _ by_time (select is_unassigned db.reservations) (
        All-both _ _ (select is_unassigned db.reservations)
          (All-select _ is_unassigned db.reservations (rows_found env db v))
          (select_holds is_unassigned db.reservations));
    distinct =
        Pairwise-order_by _ by_time (λ x y n e. n (sym e)) (select is_unassigned db.reservations)
          (Pairwise-select _ is_unassigned db.reservations
            (valid-DistinctIds env.zone db.reservations v.apart));
    left =
        All-imp _ _ (λ x h u. inl (h u)) db.reservations
          (All-of-select (ListedIn rows) is_unassigned db.reservations (
            All-of-order_by (ListedIn rows) by_time (select is_unassigned db.reservations)
              (all_listed rows)));
  }
    where
      rows : List Reservation
      rows = order_by by_time (select is_unassigned db.reservations)

  module _ (s : State) (v : IsValid env.zone s.db) where
    -- The end of the script, from what the rounds leave.
    placed-Backfilled :
        (p : Progress) (t : State)
        → Placed env s.db.tables 0
            (count_unassigned s.db)
            (0 + 0 + length (order_by by_time (select is_unassigned s.db.reservations)))
            p
            t.db
        → Backfilled env s.db (p.assigned, p.skipped) t.db
    placed-Backfilled p t h = record {
      valid = h.valid;
      complete = All-to-select _ is_unassigned t.db.reservations (
          All-imp _ _
            (λ x b u. All-to-select _ (seats (some x.party_size)) t.db.tables (
              All-imp _ _
                (λ table k l.
                  taken-conflict env.zone t.db table.id (parse_ts env.zone x.reservation_at) ∙ k l)
                t.db.tables (b u)))
            t.db.reservations h.blocked);
      counted = omega (
        arith,
        h.sum,
        length-order_by by_time (select is_unassigned s.db.reservations),
        length-select is_unassigned s.db.reservations,
      );
      skipped = omega (
        arith,
        h.sum,
        h.assigned,
        length-order_by by_time (select is_unassigned s.db.reservations),
        length-select is_unassigned s.db.reservations,
      );
    }

    pub backfill_assignments-Succeeds :
        0 < length s.db.tables
        → Succeeds
            (backfill_assignments env)
            s
            (λ counts t. Backfilled env s.db counts t.db × (t.db.tables ≡ s.db.tables))
    unfolding backfill_assignments
    backfill_assignments-Succeeds some_table =
        let (usage, e, tracks) = note_rows-usage env.zone s.db v in
        let p : Progress = record { usage = usage; assigned = 0; skipped = 0 } in
        let ordered = order_by by_capacity s.db.tables in
        let rows = order_by by_time (select is_unassigned s.db.reservations) in
        let finish : Progress → Action (ℕ × ℕ) = λ p. pure (p.assigned, p.skipped) in
        let there : (length ordered == 0) ≡ false =
          let l = length-order_by by_capacity s.db.tables in ground arith in
        same-Succeeds (backfill_assignments env) (place_rows env ordered rows p >>= finish) s _
          (rw (there, e) refl)
          (bind-Succeeds (place_rows env ordered rows p) finish s
            (λ q t. Placed env s.db.tables 0 (count_unassigned s.db) (0 + 0 + length rows) q t.db) _
            (place_rows-Succeeds env rows p s (start-Inv s.db v usage tracks))
            (λ q t h. record {
              answer = _;
              run = refl;
              post = (placed-Backfilled q t h, h.same_tables);
            }))
