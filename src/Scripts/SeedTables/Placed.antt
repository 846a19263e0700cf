-- ===== src/Scripts/SeedTables/Placed.antt =====
-- The rounds of `backfill_assignments` of scripts/seed_tables.py.
use reservac_ia.Base.{
  ℕ, suc, ◌+◌, ◌≡◌, refl, ap, ◌∙◌, subst, true, ◌⊎◌, inl, inr, Option, List, [], ◌∷◌, ◌==◌, any,
  count_where, length, All, All-imp, order_by, find-All, arith,
}
use reservac_ia.Clock.{RawDateTime, parse_ts}
use reservac_ia.Model.{Env, Db, Table, Reservation}
use reservac_ia.Monad.{State, ok}
use reservac_ia.Monad.Succeeds.{Succeeds, bind-Succeeds, weaken-Succeeds, lift-Succeeds}
use reservac_ia.Crud.Conflict.{by_capacity}
use reservac_ia.Bookings.Valid.{IsValid, HasOffset}
use reservac_ia.Scripts.SeedTables.{
  parse_raw, record_use, append_time, Progress, is_unassigned, choose, fitting, settle_row,
  place_rows,
}
use reservac_ia.Scripts.SeedTables.Rows.{Tracks, taken, parse_raw-stamped, record_use-found}
use reservac_ia.Scripts.SeedTables.Choice.{
  Choice, choose-Choice, Takes, fitting-Takes, fitting-TracksAll, All-of-fitting,
}
use reservac_ia.Scripts.SeedTables.Rounds.{Inv, Blocked, skip-Inv, place-Inv, place-count}

abbrev pub count_unassigned : Db → ℕ
count_unassigned db = count_where is_unassigned db.reservations

module _ (env : Env) where
  -- After the rounds, compared with before: what is left is blocked, and the counts add up.
  pub record Placed (tables : List Table) (done unassigned : ℕ) (total : ℕ) (q : Progress) (db : Db)
      : Type 0 where
    pub valid : IsValid env.zone db
    pub same_tables : db.tables ≡ tables
    pub blocked : All (λ x. is_unassigned x ≡ true → Blocked env db x) db.reservations
    pub assigned : q.assigned + count_unassigned db ≡ done + unassigned
    pub sum : q.assigned + q.skipped ≡ total

  -- One round, by what is chosen.
  settle-Succeeds :
      (r : Reservation) (rest : List Reservation) (p : Progress) (s : State) (o : Option ℕ)
      → (inv : Inv env (r ∷ rest) p.usage s.db)
      → Choice env.zone s.db.reservations p.usage
          (parse_ts env.zone r.reservation_at)
          (Takes env.zone s.db inv.valid r)
          (fitting (order_by by_capacity s.db.tables) p.usage r)
          o
      → Succeeds (settle_row env r p o) s (λ q t.
        Inv env rest q.usage t.db
        × (t.db.tables ≡ s.db.tables)
        × (q.assigned + count_unassigned t.db ≡ p.assigned + count_unassigned s.db)
        × (q.assigned + q.skipped ≡ suc (p.assigned + p.skipped)))
  unfolding settle_row
  settle-Succeeds r rest p s _ inv (Choice.none_free h) = record {
    answer = record p { skipped = suc p.skipped };
    run = refl;
    post = (
      skip-Inv env r rest p.usage s.db inv (
          All-of-fitting env.zone s.db inv.valid
            (λ t. taken env.zone s.db.reservations t.id (parse_ts env.zone r.reservation_at) ≡ true)
            p.usage r h),
      refl,
      refl,
      omega arith,
    );
  }
  settle-Succeeds r rest p s _ inv (Choice.free_table t takes free) =
      let at = parse_ts env.zone r.reservation_at in
      let stamped : HasOffset env.zone r =
        find-All (HasOffset env.zone) (λ x. x.id == r.id) s.db.reservations inv.valid.stamped
          inv.waiting.0.0 in
      let entry =
        find-All (λ u. Tracks env.zone s.db.reservations p.usage u.id) (λ u. u.id == t.id)
          s.db.tables inv.tracks takes.0 in
      let noted : record_use t.id (parse_raw r.reservation_at) p.usage
          ≡ ok (append_time t.id (RawDateTime.aware_at at) p.usage) =
        ap (λ x. record_use t.id x p.usage) (parse_raw-stamped env.zone r stamped)
        ∙ record_use-found t.id (RawDateTime.aware_at at) p.usage entry.found in
      let count = place-count env r rest p.usage s.db inv t takes free (env.clock s.reads) in
      record {
        answer = record {
          usage = append_time t.id (RawDateTime.aware_at at) p.usage;
          assigned = suc p.assigned;
          skipped = p.skipped;
        };
        run = rw noted refl;
        post = rw noted (
          place-Inv env r rest p.usage s.db inv t takes free (env.clock s.reads),
          refl,
          omega (arith, count),
          omega arith,
        );
      }

  pub place_rows-Succeeds :
      (rows : List Reservation) (p : Progress) (s : State)
      → Inv env rows p.usage s.db
      → Succeeds (place_rows env (order_by by_capacity s.db.tables) rows p) s (λ q t.
        Placed s.db.tables p.assigned
          (count_unassigned s.db)
          (p.assigned + p.skipped + length rows)
          q
          t.db)
  unfolding place_rows
  place_rows-Succeeds [] p s inv = record {
    answer = p;
    run = refl;
    post = record {
      valid = inv.valid;
      same_tables = refl;
      blocked = All-imp _ _ (λ x h u. none_listed x (h u)) s.db.reservations inv.left;
      assigned = refl;
      sum = omega arith;
    };
  }
    where
      none_listed :
          (x : Reservation)
          → (any {A = Reservation} (λ r. r.id == x.id) [] ≡ true) ⊎ Blocked env s.db x
          → Blocked env s.db x
      none_listed x (inl l) = absurd (cc)
      none_listed x (inr b) = b
  place_rows-Succeeds (r ∷ rows) p s inv =
      let at = parse_ts env.zone r.reservation_at in
      let ts = fitting (order_by by_capacity s.db.tables) p.usage r in
      let stamped : HasOffset env.zone r =
        find-All (HasOffset env.zone) (λ x. x.id == r.id) s.db.reservations inv.valid.stamped
          inv.waiting.0.0 in
      let (o, e, c) =
        choose-Choice env.zone s.db.reservations p.usage at (Takes env.zone s.db inv.valid r) ts
          (fitting-TracksAll env.zone s.db inv.valid s.db.reservations p.usage r inv.tracks)
          (fitting-Takes env.zone s.db inv.valid p.usage r) in
      lift-Succeeds (choose p.usage (parse_raw r.reservation_at) ts) o _ s
        (λ q t.
          Placed s.db.tables p.assigned (count_unassigned s.db)
            (p.assigned + p.skipped + suc (length rows)) q t.db)
        (ap (λ x. choose p.usage x ts) (parse_raw-stamped env.zone r stamped) ∙ e)
        (bind-Succeeds (settle_row env r p o) _ s
          (λ q t.
            Inv env rows q.usage t.db
            × (t.db.tables ≡ s.db.tables)
            × (q.assigned + count_unassigned t.db ≡ p.assigned + count_unassigned s.db)
            × (q.assigned + q.skipped ≡ suc (p.assigned + p.skipped)))
          _ (settle-Succeeds r rows p s o inv c)
          (λ q t h.
            weaken-Succeeds (place_rows env (order_by by_capacity s.db.tables) rows q) t _ _
              (subst
                (λ tables. Succeeds (place_rows env (order_by by_capacity tables) rows q) t (λ x u.
                  Placed t.db.tables q.assigned (count_unassigned t.db)
                    (q.assigned + q.skipped + length rows) x u.db))
                h.1 (place_rows-Succeeds rows q t h.0))
              (λ x u k. record {
                valid = k.valid;
                same_tables = k.same_tables ∙ h.1;
                blocked = k.blocked;
                assigned = k.assigned ∙ h.2;
                sum = omega (arith, k.sum, h.3);
              })))
