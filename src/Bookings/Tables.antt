-- ===== src/Bookings/Tables.antt =====
-- `create_table` and `delete_table` of app/crud.py, and the validity of the bookings.
use reservac_ia.Base.{
  ℕ, suc, ◌≤◌, ◌≡◌, ◌≢◌, refl, true, false, not, ◌||◌, Option, none, some, List, [], ◌∷◌, ◌++◌,
  ◌==◌, find, All, All-imp, All-snoc, All-delete_where, All-update_where_keep, Pairwise-put,
  Pairwise-snoc, Pairwise-delete_where, find-All, update_where, delete_where, count_where_zero,
  Option-cases, Bool-cases, inl, inr, arith, ltb, sym, ==_iff, ==_refl, find-some, All-intro,
  count_where,
}
use reservac_ia.Model.{Env, Db, Table, Reservation}
use reservac_ia.Model.Payloads.{TableCreate}
use native.Mathlib.Decide.{ℕ_discrete}
use reservac_ia.Monad.{State}
use reservac_ia.Crud.Lookup.{table_row}
use reservac_ia.Crud.Tables.{
  room_exists, table_number_taken, capacity_allowed, create_table, delete_table, add_table,
  new_table, put_table, remove_table, at_table,
}
use reservac_ia.Bookings.Valid.{IsValid, IsSeated, fits, is_seated_at}

-- Looking a table up after each kind of change.
module _ (i : ℕ) (t : Table) where
  find-put_ne :
      (j : ℕ) (ts : List Table)
      → t.id ≡ i
      → j ≢ i
      → find (λ x. x.id == j) (update_where (λ x. x.id == i) (λ _. t) ts) ≡ find (λ x. x.id == j) ts
  find-put_ne j [] e n = refl
  find-put_ne j (x ∷ ts) e n = ground (arith, find-put_ne j ts e n)

  pub find-put_self :
      (ts : List Table) {old : Table}
      → t.id ≡ i
      → find (λ x. x.id == i) ts ≡ some old
      → find (λ x. x.id == i) (update_where (λ x. x.id == i) (λ _. t) ts) ≡ some t
  find-put_self [] e f = cc
  find-put_self (x ∷ ts) {old} e f = ground (arith, find-put_self ts {old = old} e)

find-delete_ne :
    (i j : ℕ) (ts : List Table)
    → j ≢ i
    → find (λ x. x.id == j) (delete_where (λ x. x.id == i) ts) ≡ find (λ x. x.id == j) ts
find-delete_ne i j [] n = refl
find-delete_ne i j (x ∷ ts) n = ground (arith, find-delete_ne i j ts n)

find-snoc :
    (j : ℕ) (ts : List Table) (t : Table) {old : Table}
    → find (λ x. x.id == j) ts ≡ some old
    → find (λ x. x.id == j) (ts ++ t ∷ []) ≡ some old
find-snoc j [] t e = cc
find-snoc j (x ∷ ts) t {old} e = ground (arith, find-snoc j ts t {old = old})

-- A reservation stays seated where the lookup of its table still seats it.
IsSeated-by :
    (before after : List Table) (r : Reservation)
    → ((j : ℕ) (old : Table)
        → r.table_id ≡ some j
        → find (λ x. x.id == j) before ≡ some old
        → fits (some old) r ≡ true
        → fits (find (λ x. x.id == j) after) r ≡ true)
    → IsSeated before r
    → IsSeated after r
IsSeated-by before after r keep h = go r.table_id refl h
  where
    go :
        (o : Option ℕ)
        → r.table_id ≡ o
        → is_seated_at before o r ≡ true
        → is_seated_at after o r ≡ true
    go none e b = refl
    go (some j) e b = elim (Option-cases (find (λ x. x.id == j) before)) [
      | inl n ↦ absurd (ground arith)
      | inr (old, f) ↦ keep j old e f (ground arith)
    ]

module _ (env : Env) where
  pub add_table-IsValid :
      (body : TableCreate) (now_at : ℕ) (db : Db)
      → IsValid env.zone db
      → IsValid env.zone (add_table (new_table (suc db.table_seq) body now_at) db)
  add_table-IsValid body now_at db v =
      let t = new_table (suc db.table_seq) body now_at in
      record {
        apart = v.apart;
        below = v.below;
        stamped = v.stamped;
        seated =
            All-imp _ _
              (λ r.
                IsSeated-by db.tables (db.tables ++ t ∷ []) r
                  (λ j old e f h. rw (find-snoc j db.tables t f) h))
              db.reservations v.seated;
        distinct =
            Pairwise-snoc (λ a b. a.id ≢ b.id) db.tables t v.distinct
              (All-imp _ _ (λ x h. omega arith) db.tables v.tables_below);
        tables_below =
            All-snoc (λ x. x.id ≤ suc db.table_seq) db.tables t
              (All-imp _ _ (λ x h. omega arith) db.tables v.tables_below) (omega arith);
      }

  -- Creating a table, whatever it answers, keeps the bookings valid.
  pub create_table-IsValid :
      (body : TableCreate) (s : State)
      → IsValid env.zone s.db
      → IsValid env.zone (create_table env body s).1.db
  unfolding create_table
  create_table-IsValid body s v = elim (Bool-cases (not (room_exists s.db body.room_id))) [
    | inl e ↦ rw e v
    | inr e ↦
        elim (Bool-cases (
          table_number_taken body.table_number s.db.tables
          || not (capacity_allowed body.capacity))) [
            | inl f ↦ rw (e, f) v
            | inr f ↦ rw (e, f) (add_table-IsValid body (env.clock s.reads) s.db v)
          ]
  ]

  remove_table-IsValid :
      (i : ℕ) (db : Db)
      → IsValid env.zone db
      → All (λ r. at_table i r ≡ false) db.reservations
      → IsValid env.zone (remove_table i db)
  remove_table-IsValid i db v free = record {
    apart = v.apart;
    below = v.below;
    stamped = v.stamped;
    seated = still_seated db.reservations free v.seated;
    distinct = Pairwise-delete_where (λ a b. a.id ≢ b.id) (λ t. t.id == i) db.tables v.distinct;
    tables_below =
        All-delete_where (λ t. t.id ≤ db.table_seq) (λ t. t.id == i) db.tables v.tables_below;
  }
    where
      keep :
          (r : Reservation)
          → at_table i r ≡ false
          → (j : ℕ) (old : Table) → r.table_id ≡ some j
          → find (λ x. x.id == j) db.tables ≡ some old
          → fits (some old) r ≡ true
          → fits (find (λ x. x.id == j) (delete_where (λ x. x.id == i) db.tables)) r ≡ true
      keep r n j old e f h =
          let other : j ≢ i = ground arith in rw (find-delete_ne i j db.tables other, f) h

      still_seated :
          (rs : List Reservation)
          → All (λ r. at_table i r ≡ false) rs
          → All (IsSeated db.tables) rs
          → All (IsSeated (delete_where (λ x. x.id == i) db.tables)) rs
      still_seated [] n h = tt
      still_seated (r ∷ rs) n h =
          (IsSeated-by db.tables _ r (keep r n.0) h.0, still_seated rs n.1 h.1)

  -- Deleting a table, whatever it answers, keeps the bookings valid: no reservation is left at a
  -- table that does not exist.
  pub delete_table-IsValid :
      (i : ℕ) (s : State) → IsValid env.zone s.db → IsValid env.zone (delete_table i s).1.db
  unfolding delete_table
  delete_table-IsValid i s v = elim (Option-cases (table_row s.db i)) [
    | inl e ↦ rw e v
    | inr (t, e) ↦ elim (Bool-cases (ltb 0 (count_where (at_table i) s.db.reservations))) [
      | inl f ↦ rw (e, f) v
      | inr f ↦
          let none_left = count_where_zero (at_table i) s.db.reservations (ground arith) in
          rw (e, f) (remove_table-IsValid i s.db v none_left)
    ]
  ]

  pub put_table-IsValid :
      (i : ℕ) (t old : Table) (db : Db)
      → IsValid env.zone db
      → table_row db i ≡ some old
      → t.id ≡ i
      → All
          (λ r. at_table i r ≡ true → fits (some old) r ≡ true → fits (some t) r ≡ true)
          db.reservations
      → IsValid env.zone (put_table i t db)
  put_table-IsValid i t old db v f e keep = record {
    apart = v.apart;
    below = v.below;
    stamped = v.stamped;
    seated = still_seated db.reservations keep v.seated;
    distinct =
        Pairwise-put (λ a b. a.id ≢ b.id) (λ x. x.id == i) t (λ x y n q. n (sym q))
          (λ x y p q n. n (ground arith)) db.tables v.distinct
          (All-intro (λ y. (y.id == i) ≡ false → t.id ≢ y.id) (λ y n. other_id y n) db.tables);
    tables_below =
        All-update_where_keep (λ x. x.id ≤ db.table_seq) (λ x. x.id == i) (λ _. t) db.tables
          (λ x h. new_below) v.tables_below;
  }
    where
      other_id : (y : Table) → (y.id == i) ≡ false → t.id ≢ y.id
      other_id y n q = absurd (ground arith)

      old_id : old.id ≡ i
      old_id = (==_iff _ _).0 (find-some (λ x. x.id == i) db.tables {x = old} f)

      new_below : t.id ≤ db.table_seq
      new_below =
          let h : old.id ≤ db.table_seq =
            find-All (λ x. x.id ≤ db.table_seq) (λ x. x.id == i) db.tables {x = old} v.tables_below
              f in
          omega (arith, h, old_id, e)

      kept :
          (r : Reservation)
          → (at_table i r ≡ true → fits (some old) r ≡ true → fits (some t) r ≡ true)
          → (j : ℕ) (u : Table) → r.table_id ≡ some j
          → find (λ x. x.id == j) db.tables ≡ some u
          → fits (some u) r ≡ true
          → fits (find (λ x. x.id == j) (update_where (λ x. x.id == i) (λ _. t) db.tables)) r ≡ true
      kept r k j u q g h = elim (ℕ_discrete j i) [
        | yes same ↦
            let old_fits : fits (some old) r ≡ true = ground (arith) in
            rw (same, find-put_self i t db.tables {old = old} e f)
              (k (rw (q, same) (==_refl i)) old_fits)
        | no other ↦ rw (find-put_ne i t j db.tables e other, g) h
      ]

      still_seated :
          (rs : List Reservation)
          → All (λ r. at_table i r ≡ true → fits (some old) r ≡ true → fits (some t) r ≡ true) rs
          → All (IsSeated db.tables) rs
          → All (IsSeated (update_where (λ x. x.id == i) (λ _. t) db.tables)) rs
      still_seated [] k h = tt
      still_seated (r ∷ rs) k h =
          (IsSeated-by db.tables _ r (kept r k.0) h.0, still_seated rs k.1 h.1)
