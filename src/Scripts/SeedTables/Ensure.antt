-- ===== src/Scripts/SeedTables/Ensure.antt =====
-- `ensure_tables` of scripts/seed_tables.py, and the course of its `main`.
use reservac_ia.Base.{
  ℕ, ◌+◌, ◌<◌, ◌≡◌, refl, sym, ap, ◌∙◌, subst, Bool, true, false, not, ◌&&◌, ◌||◌, none, List, [],
  ◌∷◌, ltb, count_where, length, length-append, any-snoc, All, All-imp, All-both, Bool-cases, inl,
  inr, arith, Text, text_eq,
}
use reservac_ia.Model.{Env, Table}
use reservac_ia.Model.Payloads.{TableCreate}
use reservac_ia.Monad.{State, Action, pure, ◌>>=◌}
use reservac_ia.Monad.Succeeds.{Succeeds, bind-Succeeds, weaken-Succeeds, same-Succeeds}
use reservac_ia.Crud.Tables.{table_number_taken, capacity_allowed}
use reservac_ia.Bookings.Valid.{IsValid}
use reservac_ia.Bookings.Tables.{add_table-IsValid}
use reservac_ia.Scripts.SeedTables.{
  distribution, seed_rows, rows_of, insert_table, insert_tables, ensure_tables,
  backfill_assignments, seed_tables, is_unassigned,
}
use reservac_ia.Scripts.SeedTables.Backfill.{Backfilled, backfill_assignments-Succeeds}

-- Rows that an INSERT admits one after the other.
abbrev Row : Type 0
Row = Text × ℕ

abbrev is_new : Row → List Row → Bool
is_new row [] = true
is_new row (r ∷ rows) = not (text_eq row.0 r.0) && is_new row rows

abbrev admissible : List Row → Bool
admissible [] = true
admissible (row ∷ rows) = capacity_allowed row.1 && (is_new row rows && admissible rows)

abbrev Fresh : List Table → Row → Type 0
Fresh tables row = table_number_taken row.0 tables ≡ false

is_new-All :
    (row : Row) (rows : List Row)
    → is_new row rows ≡ true
    → All (λ r. text_eq row.0 r.0 ≡ false) rows
is_new-All row [] h = tt
is_new-All row (r ∷ rows) h = (ground arith, is_new-All row rows (ground arith))

module _ (env : Env) where
  abbrev Grown : State → ℕ → State → Type 0
  Grown s n t =
      IsValid env.zone t.db
      × (length t.db.tables ≡ length s.db.tables + n)
      × (t.db.reservations ≡ s.db.reservations)

  insert_table-Succeeds :
      (row : Row) (s : State)
      → IsValid env.zone s.db
      → capacity_allowed row.1 ≡ true
      → Fresh s.db.tables row
      → Succeeds (insert_table env row) s (λ _ t.
        Grown s 1 t
        × ((n : Text)
            → table_number_taken n t.db.tables
              ≡ (table_number_taken n s.db.tables || text_eq row.0 n)))
  unfolding insert_table
  insert_table-Succeeds row s v a f =
      let body : TableCreate = record { table_number = row.0; capacity = row.1; room_id = none } in
      record {
        answer = tt;
        run = rw (f, a) refl;
        post =
            rw (f, a)
              (
                (
                  add_table-IsValid env body (env.clock s.reads) s.db v,
                  length-append s.db.tables _,
                  refl,
                ),
                λ n. any-snoc (λ t. text_eq t.table_number n) s.db.tables _,
              );
      }

  insert_tables-Succeeds :
      (rows : List Row) (s : State)
      → IsValid env.zone s.db
      → admissible rows ≡ true
      → All (Fresh s.db.tables) rows
      → Succeeds (insert_tables env rows) s (λ _ t. Grown s (length rows) t)
  unfolding insert_tables
  insert_tables-Succeeds [] s v a f = record {
    answer = tt;
    run = refl;
    post = (v, omega arith, refl);
  }
  insert_tables-Succeeds (row ∷ rows) s v a f =
      bind-Succeeds (insert_table env row) _ s
        (λ _ t.
          Grown s 1 t
          × ((n : Text)
              → table_number_taken n t.db.tables
                ≡ (table_number_taken n s.db.tables || text_eq row.0 n)))
        _ (insert_table-Succeeds row s v (ground arith) f.0)
        (λ _ t h.
          weaken-Succeeds (insert_tables env rows) t (λ _ u. Grown t (length rows) u) _
            (insert_tables-Succeeds rows t h.0.0 (ground arith) (
              All-imp _ _ (λ r k. h.1 r.0 ∙ (let p = k.0 in let q = k.1 in ground arith)) rows
                (All-both _ _ rows f.1 (is_new-All row rows (ground arith)))))
            (λ _ u k. (k.0, omega (arith, k.1, h.0.1), k.2 ∙ h.0.2)))

  none_taken : (rows : List Row) → All (Fresh []) rows
  none_taken [] = tt
  none_taken (row ∷ rows) = (refl, none_taken rows)

  seed_rows-admissible : admissible (seed_rows 1 distribution) ≡ true
  unfolding seed_rows rows_of
  seed_rows-admissible = refl

  seed_rows-length : length (seed_rows 1 distribution) ≡ 50
  unfolding seed_rows rows_of
  seed_rows-length = refl

  no_rows : (tables : List Table) → ltb 0 (length tables) ≡ false → tables ≡ []
  no_rows [] h = refl
  no_rows (t ∷ ts) h = absurd (ground arith)

  -- The tables that are there, or the fifty.
  ensure_tables-Succeeds :
      (s : State)
      → IsValid env.zone s.db
      → Succeeds (ensure_tables env) s (λ n t. Grown s n t × (0 < length t.db.tables))
  unfolding ensure_tables
  ensure_tables-Succeeds s v = elim (Bool-cases (ltb 0 (length s.db.tables))) [
    | inl e ↦ record {
      answer = 0;
      run = rw e refl;
      post = rw e ((v, omega arith, refl), ground arith);
    }
    | inr e ↦
        let rows = seed_rows 1 distribution in
        let empty = no_rows s.db.tables e in
        let fill : Action ℕ = insert_tables env rows >>= λ _. pure (length rows) in
        same-Succeeds (ensure_tables env) fill s _ (rw e refl) (
          bind-Succeeds (insert_tables env rows) (λ _. pure (length rows)) s
            (λ _ t. Grown s (length rows) t) _
            (insert_tables-Succeeds rows s v seed_rows-admissible
              (subst (λ ts. All (Fresh ts) rows) (sym empty) (none_taken rows)))
            (λ _ t h. record {
              answer = length rows;
              run = refl;
              post = (h, omega (arith, h.1, seed_rows-length));
            }))
  ]

  -- On a valid database, seed_tables returns; the database is valid after it and has tables; each
  -- confirmed reservation that is left without a table has a booking near its time on every table
  -- that seats it; and the counts are of the new tables, of the reservations that got a table and
  -- of those left without one.
  pub seed_tables-Succeeds :
      (s : State)
      → IsValid env.zone s.db
      → Succeeds (seed_tables env) s (λ counts t.
        Backfilled env s.db (counts.1, counts.2) t.db
        × (length t.db.tables ≡ length s.db.tables + counts.0)
        × (0 < length t.db.tables))
  unfolding seed_tables
  seed_tables-Succeeds s v =
      bind-Succeeds (ensure_tables env) _ s (λ n t. Grown s n t × (0 < length t.db.tables)) _
        (ensure_tables-Succeeds s v)
        (λ n t h.
          bind-Succeeds (backfill_assignments env) (λ counts. pure (n, counts.0, counts.1)) t
            (λ counts u. Backfilled env t.db counts u.db × (u.db.tables ≡ t.db.tables)) _
            (backfill_assignments-Succeeds env t h.0.0 h.1)
            (λ counts u k. record {
              answer = (n, counts.0, counts.1);
              run = refl;
              post = (
                record {
                  valid = k.0.valid;
                  complete = k.0.complete;
                  counted = k.0.counted ∙ ap (count_where is_unassigned) h.0.2;
                  skipped = k.0.skipped;
                },
                ap length k.1 ∙ h.0.1,
                subst (λ ts. 0 < length ts) (sym k.1) h.1,
              );
            }))
