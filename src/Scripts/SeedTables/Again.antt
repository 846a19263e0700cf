-- ===== src/Scripts/SeedTables/Again.antt =====
-- A second run of scripts/seed_tables.py.
use reservac_ia.Base.{
  ℕ, suc, ◌+◌, ◌<◌, ◌≡◌, refl, ap, ◌∙◌, true, false, Option, none, some, List, [], ◌∷◌, ltb, ◌==◌,
  select, order_by, length, length-order_by, All, All-order_by, All-select, All-both, All-of-select,
  length-select, find-All, arith,
}
use reservac_ia.Clock.{parse_ts}
use reservac_ia.Model.{Env, Db, Reservation}
use reservac_ia.Monad.{State, ok}
use reservac_ia.Crud.Conflict.{by_capacity, seats, table_has_conflict}
use reservac_ia.Bookings.Valid.{IsValid, HasOffset}
use reservac_ia.Scripts.SeedTables.{
  Usage, parse_raw, choose, fitting, settle_row, place_rows, is_unassigned, by_time,
  backfill_assignments, ensure_tables, seed_tables,
}
use reservac_ia.Scripts.SeedTables.Rows.{TracksAll, taken-conflict, parse_raw-stamped}
use reservac_ia.Scripts.SeedTables.Choice.{
  Choice, choose-Choice, Takes, fitting-Takes, fitting-TracksAll, note_rows-usage,
}
use reservac_ia.Scripts.SeedTables.Backfill.{Backfilled}

module _ (env : Env) (s : State) (v : IsValid env.zone s.db) where
  -- Each table that seats the party has a booking near the time.
  abbrev Full : Reservation → Type 0
  Full x =
      All
        (λ t.
          table_has_conflict env.zone s.db t.id (parse_ts env.zone x.reservation_at) none ≡ true)
        (select (seats (some x.party_size)) s.db.tables)

  abbrev Stuck : Reservation → Type 0
  Stuck x = HasOffset env.zone x × Full x

  module _ (usage : List Usage)
      (tracks : TracksAll env.zone s.db.reservations usage s.db.tables) where
    choose-none :
        (r : Reservation)
        → Stuck r
        → choose usage
            (parse_raw r.reservation_at)
            (fitting (order_by by_capacity s.db.tables) usage r)
          ≡ ok none
    choose-none r h =
        let at = parse_ts env.zone r.reservation_at in
        let ts = fitting (order_by by_capacity s.db.tables) usage r in
        let (o, e, c) =
          choose-Choice env.zone s.db.reservations usage at (Takes env.zone s.db v r) ts
            (fitting-TracksAll env.zone s.db v s.db.reservations usage r tracks)
            (fitting-Takes env.zone s.db v usage r) in
        ap (λ x. choose usage x ts) (parse_raw-stamped env.zone r h.0) ∙ e ∙ ap ok (no_table o c)
      where
        no_table :
            (o : Option ℕ)
            → Choice env.zone s.db.reservations usage
                (parse_ts env.zone r.reservation_at)
                (Takes env.zone s.db v r)
                (fitting (order_by by_capacity s.db.tables) usage r)
                o
            → o ≡ none
        no_table _ (Choice.none_free a) = refl
        no_table _ (Choice.free_table t takes free) =
            let conflict : table_has_conflict env.zone s.db t.id
                  (parse_ts env.zone r.reservation_at) none
                ≡ true =
              find-All _ (λ x. x.id == t.id) s.db.tables
                (All-of-select _ (seats (some r.party_size)) s.db.tables h.1) takes.0
                (let fits = takes.1 in ground arith) in
            let same = taken-conflict env.zone s.db t.id (parse_ts env.zone r.reservation_at) in
            absurd (ground arith)

    -- Rounds that place nothing.
    place_rows-Stuck :
        (rows : List Reservation) (assigned skipped : ℕ)
        → All Stuck rows
        → place_rows env
            (order_by by_capacity s.db.tables)
            rows
            (record { usage = usage; assigned = assigned; skipped = skipped })
            s
          ≡ (ok (record { usage = usage; assigned = assigned; skipped = skipped + length rows }), s)
    unfolding place_rows settle_row
    place_rows-Stuck [] assigned skipped h =
        ap (λ n. (ok (record { usage = usage; assigned = assigned; skipped = n }), s)) (omega arith)
    place_rows-Stuck (r ∷ rows) assigned skipped h = rw (choose-none r h.0) (
        place_rows-Stuck rows assigned (suc skipped) h.1
        ∙ ap (λ n. (ok (record { usage = usage; assigned = assigned; skipped = n }), s))
            (omega arith))

  -- On a valid database that the script has left, with a table in it, a second run changes
  -- nothing: it adds no table, gives no reservation a table and counts as skipped the same ones.
  pub seed_tables-again :
      (before : Db) (counts : ℕ × ℕ)
      → Backfilled env before counts s.db
      → 0 < length s.db.tables
      → seed_tables env s ≡ (ok (0, 0, counts.1), s)
  unfolding seed_tables ensure_tables backfill_assignments
  seed_tables-again before counts b some_table =
      let (usage, e, tracks) = note_rows-usage env.zone s.db v in
      let rows = order_by by_time (select is_unassigned s.db.reservations) in
      let stuck = All-order_by Stuck by_time (select is_unassigned s.db.reservations) (
        All-both _ _ (select is_unassigned s.db.reservations)
          (All-select _ is_unassigned s.db.reservations v.stamped) b.complete) in
      let round = place_rows-Stuck usage tracks rows 0 0 stuck in
      let there : ltb 0 (length s.db.tables) ≡ true = ground arith in
      let ordered : (length (order_by by_capacity s.db.tables) == 0) ≡ false =
        let l = length-order_by by_capacity s.db.tables in ground arith in
      let left : 0 + length rows ≡ counts.1 = omega (
        arith,
        length-order_by by_time (select is_unassigned s.db.reservations),
        length-select is_unassigned s.db.reservations,
        b.skipped,
      ) in
      rw (there, ordered, e, round) (ap (λ n. (ok (0, 0, n), s)) left)
