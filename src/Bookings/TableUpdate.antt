-- ===== src/Bookings/TableUpdate.antt =====
-- `update_table` of app/crud.py with its capacity guard, and the validity of the bookings.
use reservac_ia.Base.{
  ℕ, ◌≡◌, true, false, not, ◌&&◌, ◌||◌, some, List, ◌==◌, All, All-imp, count_where_zero,
  Option-cases, Bool-cases, inl, inr, arith, ltb, ==_iff, find-some, All-intro, count_where,
}
use reservac_ia.Model.{Env, Db, Table, Reservation}
use reservac_ia.Model.Payloads.{Field, TableUpdate, get_required, is_set}
use reservac_ia.Monad.Leads.{query-run}
use reservac_ia.Monad.{State, ok, query, ◌>>◌}
use reservac_ia.Crud.Lookup.{table_row, get_table, attach_room}
use reservac_ia.Crud.Tables.{
  table_number_taken, capacity_allowed, update_table, change_table, write_table, check_capacity,
  check_room, changed_table, oversized, at_table, other_tables,
}
use reservac_ia.Bookings.Valid.{IsValid, fits}
use reservac_ia.Bookings.Tables.{put_table-IsValid}

module _ (env : Env) where
  -- What the capacity guard lets through leaves every booked party seated.
  still_fits :
      (old t : Table) (i capacity : ℕ) (rs : List Reservation)
      → t.capacity ≡ capacity
      → (ltb capacity old.capacity && ltb 0 (count_where (oversized i capacity) rs)) ≡ false
      → All (λ r. at_table i r ≡ true → fits (some old) r ≡ true → fits (some t) r ≡ true) rs
  still_fits old t i capacity rs e h = elim (Bool-cases (ltb capacity old.capacity)) [
    | inl smaller ↦
        All-imp _ _ (λ r n m k. ground arith) rs
          (count_where_zero (oversized i capacity) rs (ground arith))
    | inr bigger ↦
        All-intro (λ r. at_table i r ≡ true → fits (some old) r ≡ true → fits (some t) r ≡ true)
          (λ r m k. ground arith) rs
  ]

  abbrev Allows : ℕ → Table → Field ℕ → Db → Type 0
  Allows i old capacity db =
      (t : Table)
      → get_required capacity old.capacity ≡ some t.capacity
      → All (λ r. at_table i r ≡ true → fits (some old) r ≡ true → fits (some t) r ≡ true)
          db.reservations

  check_capacity-Allows :
      (i : ℕ) (old : Table) (capacity : Field ℕ) (db : Db)
      → check_capacity db i old capacity ≡ ok tt
      → Allows i old capacity db
  unfolding check_capacity
  check_capacity-Allows i old Field.unset db e t c =
      All-intro _ (λ r m k. ground arith) db.reservations
  check_capacity-Allows i old Field.null db e t c = absurd (ground arith)
  check_capacity-Allows i old (Field.value capacity) db e t c =
      still_fits old t i capacity db.reservations (ground arith) (ground arith)

  write_table-IsValid :
      (i : ℕ) (body : TableUpdate) (old : Table) (s : State)
      → IsValid env.zone s.db
      → table_row s.db i ≡ some old
      → Allows i old body.capacity s.db
      → IsValid env.zone (write_table i body old s).1.db
  unfolding write_table
  write_table-IsValid i body old s v f allows =
      elim (Option-cases (get_required body.table_number old.table_number)) [
        | inl e ↦ rw e v
        | inr (number, e) ↦ elim (Option-cases (get_required body.capacity old.capacity)) [
          | inl c ↦ rw (e, c) v
          | inr (capacity, c) ↦
              elim (Bool-cases (
                table_number_taken number (other_tables i s.db)
                || not (capacity_allowed capacity))) [
                  | inl g ↦ rw (e, c, g) v
                  | inr g ↦
                      let t = changed_table old body number capacity in
                      rw (e, c, g)
                        (put_table-IsValid env i t old s.db v f
                          ((==_iff _ _).0 (find-some (λ x. x.id == i) s.db.tables {x = old} f))
                          (allows t c))
                ]
        ]
      ]

  change_table-IsValid :
      (i : ℕ) (body : TableUpdate) (old : Table) (s : State)
      → IsValid env.zone s.db
      → table_row s.db i ≡ some old
      → IsValid env.zone (change_table i body old s).1.db
  unfolding change_table
  change_table-IsValid i body old s v f =
      query-run (IsValid env.zone) (λ db. check_capacity db i old body.capacity)
        (λ _. query (λ db. check_room db body.room_id) >> write_table i body old) s v
        λ _ e.
          query-run (IsValid env.zone) (λ db. check_room db body.room_id)
            (λ _. write_table i body old) s v
            λ _ _.
              write_table-IsValid i body old s v f
                (check_capacity-Allows i old body.capacity s.db e)

  -- Changing a table, whatever it answers, keeps the bookings valid; a smaller capacity never
  -- leaves a confirmed party without seats.
  pub update_table-IsValid :
      (i : ℕ) (body : TableUpdate) (s : State)
      → IsValid env.zone s.db
      → IsValid env.zone (update_table i body s).1.db
  unfolding update_table get_table attach_room
  update_table-IsValid i body s v = elim (Option-cases (table_row s.db i)) [
    | inl e ↦ rw e v
    | inr (old, e) ↦
        elim (Bool-cases
          (is_set body.table_number || (is_set body.capacity || is_set body.room_id))) [
            | inl b ↦ rw (e, b) (change_table-IsValid i body old s v e)
            | inr b ↦ rw (e, b) v
          ]
  ]
