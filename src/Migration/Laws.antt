-- ===== src/Migration/Laws.antt =====
-- What `_backfill_confirmation_codes` of app/db.py leaves.
use reservac_ia.Base.{
  ℕ, suc, ◌+◌, ◌≡◌, ◌≢◌, refl, sym, ap, ◌∙◌, Bool, true, false, none, some, List, [], ◌∷◌, ◌==◌,
  is_some, if◌then◌else◌, select, select_holds, length, length-select, count_none, any, count_where,
  count-update, find-update_ne, find_self, All, All-imp, All-both, All-select,
  All-update_where_keep, DistinctIds, Pairwise-select, Bool-cases, inl, inr, arith,
}
use reservac_ia.Model.{Env, Db, Reservation}
use reservac_ia.Monad.{State, ok}
use reservac_ia.Bookings.Announced.{drawn}
use reservac_ia.Monad.Succeeds.{Succeeds, bind-Succeeds, weaken-Succeeds, same-Succeeds}
use reservac_ia.Codes.{is_well_formed, generate_code, generate_go}
use reservac_ia.Crud.Lookup.{reservation_row}
use reservac_ia.Bookings.Valid.{IsValid, valid-DistinctIds}
use reservac_ia.Migration.{
  has_no_code, code_refused, set_code, put_code, write_code, try_codes, backfill_rows,
  backfill_confirmation_codes,
}
use reservac_ia.Migration.Rounds.{Tried, try_codes-Tried, put_code-IsValid}

abbrev pub has_code : Reservation → Bool
has_code r = is_some r.confirmation_code

-- A code that a row has is one that the program could have made.
abbrev pub is_formed : Reservation → Bool
is_formed r = elim r.confirmation_code [ none ↦ true | some c ↦ is_well_formed c ]

abbrev pub count_null : Db → ℕ
count_null db = count_where has_no_code db.reservations

abbrev Finds : Db → Reservation → Type 0
Finds db r = reservation_row db r.id ≡ some r

module _ (env : Env) where
  -- Before each row, with the rows to come and the rows to keep.
  record Inv (kept rest : List Reservation) (db : Db) : Type 0 where
    valid : IsValid env.zone db
    formed : All (λ r. is_formed r ≡ true) db.reservations
    keeps : All (λ r. Finds db r × (has_code r ≡ true)) kept
    waiting : All (λ r. Finds db r × (has_no_code r ≡ true)) rest
    distinct : DistinctIds (λ r. r.id) rest

  -- Rows under other ids are found as before.
  Finds-put :
      (r x : Reservation) (code : List ℕ) (db : Db)
      → r.id ≢ x.id
      → Finds db x
      → Finds (put_code r.id code db) x
  Finds-put r x code db n h =
      find-update_ne (λ y. y.id) r.id (set_code code) x.id (λ y. refl) n db.reservations ∙ h

  differ :
      (r x : Reservation) (db : Db)
      → Finds db r
      → has_no_code r ≡ true
      → Finds db x
      → has_code x ≡ true
      → r.id ≢ x.id
  differ r x db f n g c e =
      let both : some r ≡ some x = sym f ∙ ap (reservation_row db) e ∙ g in
      let same : r ≡ x = cc in ground arith

  step-Inv :
      (kept rest : List Reservation) (r : Reservation) (db : Db) (b : Bool) (after : Db)
      → Inv kept (r ∷ rest) db
      → Tried r.id db b after
      → Inv kept rest after × ((if b then 1 else 0) + count_null after ≡ count_null db)
  step-Inv kept rest r db _ _ inv (Tried.wrote code formed admitted) = (
    record {
      valid = put_code-IsValid env db inv.valid r inv.waiting.0.0 code admitted;
      formed =
          All-update_where_keep _ (λ x. x.id == r.id) (set_code code) db.reservations
            (λ x _. formed) inv.formed;
      keeps =
          All-imp _ _
            (λ x h. (
              Finds-put r x code db (differ r x db inv.waiting.0.0 inv.waiting.0.1 h.0 h.1) h.0,
              h.1,
            ))
            kept inv.keeps;
      waiting =
          All-imp _ _ (λ x h. (Finds-put r x code db h.1 h.0.0, h.0.1)) rest
            (All-both _ _ rest inv.waiting.1 inv.distinct.0);
      distinct = inv.distinct.1;
    },
    omega (
      arith,
      count-update (λ x. x.id) r.id (set_code code) r has_no_code db.reservations
          (valid-DistinctIds env.zone db.reservations inv.valid.apart) inv.waiting.0.0
          inv.waiting.0.1 refl,
    ),
  )
  step-Inv kept rest r db _ _ inv Tried.left = (
    record {
      valid = inv.valid;
      formed = inv.formed;
      keeps = inv.keeps;
      waiting = inv.waiting.1;
      distinct = inv.distinct.1;
    },
    omega arith,
  )

  backfill_rows-Succeeds :
      (kept rows : List Reservation) (updated : ℕ) (s : State)
      → Inv kept rows s.db
      → Succeeds
          (backfill_rows env rows updated)
          s
          (λ n t. Inv kept [] t.db × (n + count_null t.db ≡ updated + count_null s.db))
  unfolding backfill_rows
  backfill_rows-Succeeds kept [] updated s inv = record {
    answer = updated;
    run = refl;
    post = (inv, refl);
  }
  backfill_rows-Succeeds kept (r ∷ rows) updated s inv =
      bind-Succeeds (try_codes env r.id 8) _ s (λ b t. Tried r.id s.db b t.db) _
        (try_codes-Tried env r.id 8 s.db s refl)
        (λ b t h.
          let (next, count) = step-Inv kept rows r s.db b t.db inv h in
          weaken-Succeeds (backfill_rows env rows (if b then suc updated else updated)) t _ _
            (backfill_rows-Succeeds kept rows (if b then suc updated else updated) t next)
            (λ n u k. (k.0, ground (arith, k.1, count))))

-- What the backfill promises, from the database before to the one after.
pub record CodesFilled (env : Env) (before : Db) (updated : ℕ) (after : Db) : Type 0 where
  pub valid : IsValid env.zone after
  pub formed : All (λ r. is_formed r ≡ true) after.reservations
  pub kept : All (λ r. reservation_row after r.id ≡ some r) (select has_code before.reservations)
  pub counted : updated + count_null after ≡ count_null before

-- On a valid database whose codes are well formed, the backfill of codes returns; the database is
-- valid after it, with codes that are well formed and unique; a reservation that had a code is as
-- it was; and the count is of the reservations that got one.
pub backfill_confirmation_codes-Succeeds :
    (env : Env) (s : State)
    → IsValid env.zone s.db
    → All (λ r. is_formed r ≡ true) s.db.reservations
    → Succeeds (backfill_confirmation_codes env) s (λ n t. CodesFilled env s.db n t.db)
unfolding backfill_confirmation_codes
backfill_confirmation_codes-Succeeds env s v f =
    let ids = valid-DistinctIds env.zone s.db.reservations v.apart in
    let found = find_self (λ r. r.id) s.db.reservations ids in
    let kept = select has_code s.db.reservations in
    let nulls = select has_no_code s.db.reservations in
    let keeps =
      All-both _ _ kept (All-select _ has_code s.db.reservations found)
        (select_holds has_code s.db.reservations) in
    let waits =
      All-both _ _ nulls (All-select _ has_no_code s.db.reservations found)
        (select_holds has_no_code s.db.reservations) in
    elim (Bool-cases (any has_no_code s.db.reservations)) [
      | inr e ↦ record {
        answer = 0;
        run = rw e refl;
        post = rw e (record {
          valid = v;
          formed = f;
          kept = All-imp _ _ (λ r h. h.0) kept keeps;
          counted = omega arith;
        });
      }
      | inl e ↦
          same-Succeeds (backfill_confirmation_codes env) (backfill_rows env nulls 0) s _
            (rw e refl)
            (weaken-Succeeds (backfill_rows env nulls 0) s _ _
              (backfill_rows-Succeeds env kept nulls 0 s (record {
                valid = v;
                formed = f;
                keeps = keeps;
                waiting = waits;
                distinct = Pairwise-select _ has_no_code s.db.reservations ids;
              }))
              (λ n t h. record {
                valid = h.0.valid;
                formed = h.0.formed;
                kept = All-imp _ _ (λ r k. k.0) kept h.0.keeps;
                counted = omega (arith, h.1);
              }))
    ]

-- No code that is drawn first for a row is refused, from the draw with number `n` on.
abbrev pub IsFresh : Env → Db → List Reservation → (n : ℕ) → Type 0
IsFresh env db [] n = Unit
IsFresh env db (r ∷ rows) n =
    (code_refused r.id (drawn env n 6) db ≡ false)
    × IsFresh env (put_code r.id (drawn env n 6) db) rows (suc (suc (suc (suc (suc (suc n))))))

backfill_rows-all :
    (env : Env) (rows : List Reservation) (updated : ℕ) (s : State)
    → IsFresh env s.db rows s.draws
    → (backfill_rows env rows updated s).0 ≡ ok (updated + length rows)
unfolding backfill_rows try_codes write_code generate_code generate_go
backfill_rows-all env [] updated s f = ap ok (omega arith)
backfill_rows-all env (r ∷ rows) updated s f =
    let code = drawn env s.draws 6 in
    let t : State = record {
      db = put_code r.id code s.db;
      reads = s.reads;
      draws = suc (suc (suc (suc (suc (suc s.draws)))));
    } in
    rw (f.0) (backfill_rows-all env rows (suc updated) t f.1 ∙ ap ok (omega arith))

-- In a valid database whose codes are well formed, where no code that is drawn first for a row is
-- refused, the backfill of codes returns the number of the reservations without a code and leaves
-- none of them.
pub backfill_confirmation_codes-all :
    (env : Env) (s : State)
    → IsValid env.zone s.db
    → All (λ r. is_formed r ≡ true) s.db.reservations
    → IsFresh env s.db (select has_no_code s.db.reservations) s.draws
    → ((backfill_confirmation_codes env s).0 ≡ ok (count_null s.db))
      × (count_null (backfill_confirmation_codes env s).1.db ≡ 0)
unfolding backfill_confirmation_codes
backfill_confirmation_codes-all env s v f fresh =
    let h = backfill_confirmation_codes-Succeeds env s v f in
    let run : (backfill_confirmation_codes env s).0 ≡ ok (count_null s.db) =
      elim (Bool-cases (any has_no_code s.db.reservations)) [
        | inr e ↦ rw e (ap ok (sym (count_none has_no_code s.db.reservations e)))
        | inl e ↦ rw e (
            backfill_rows-all env (select has_no_code s.db.reservations) 0 s fresh
            ∙ ap ok (omega (arith, length-select has_no_code s.db.reservations)))
      ] in
    let same : ok h.answer ≡ ok (count_null s.db) = sym h.run ∙ run in
    let n : h.answer ≡ count_null s.db = cc in (run, omega (arith, h.post.counted, n))
