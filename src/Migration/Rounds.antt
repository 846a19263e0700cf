-- ===== src/Migration/Rounds.antt =====
-- One row of `_backfill_confirmation_codes` of app/db.py.
use reservac_ia.Base.{
  ℕ, zero, suc, ◌≤◌, ◌≡◌, refl, sym, ap, ◌∙◌, subst, Bool, true, false, not, ◌&&◌, some, ◌==◌,
  find-All, find-others, update-constant, update_where, All, All-imp, All-both,
  All-update_where_keep, any-false, Pairwise-put, Bool-cases, inl, inr, arith, Text,
}
use reservac_ia.Model.{Env, Db, Reservation}
use reservac_ia.Monad.{State, gets, ◌>>=◌}
use reservac_ia.Monad.Succeeds.{Succeeds, bind-Succeeds, same-Succeeds}
use reservac_ia.Crud.Lookup.{reservation_row}
use reservac_ia.Crud.Reservations.{code_is}
use reservac_ia.Codes.{generate_code}
use reservac_ia.Codes.{is_well_formed}
use reservac_ia.Codes.Laws.{generate_code-IsWellFormed}
use reservac_ia.Bookings.Valid.{IsValid, Apart, Apart-comm, IsSeated, HasOffset}
use reservac_ia.Bookings.Frame.{generate_code-Leads}
use reservac_ia.Bookings.Valid.{valid-DistinctIds}
use reservac_ia.Migration.{code_refused, set_code, put_code, write_code, try_codes}

module _ (env : Env) (db : Db) (v : IsValid env.zone db) (r : Reservation)
    (found : reservation_row db r.id ≡ some r) (code : Text)
    (admitted : code_refused r.id code db ≡ false) where
  new_code-Apart :
      (y : Reservation)
      → (not (y.id == r.id) && code_is code y) ≡ false
      → Apart env.zone r y
      → (y.id == r.id) ≡ false
      → Apart env.zone (set_code code r) y
  new_code-Apart y c a n =
      Apart-comm env.zone y (set_code code r)
        (let (ids, clash, codes) = Apart-comm env.zone r y a in (ids, clash, ground arith))

  abbrev put : Db
  put = record db {
    reservations = update_where (λ x. x.id == r.id) (λ _. set_code code r) db.reservations;
  }

  put-IsValid : IsValid env.zone put
  put-IsValid = record {
    apart =
        Pairwise-put (Apart env.zone) (λ x. x.id == r.id) (set_code code r) (Apart-comm env.zone)
          (λ x y p q h. ground (arith, h.0)) db.reservations v.apart
          (All-imp _ _ (λ y h n. new_code-Apart y h.0 (h.1 n) n) db.reservations
            (All-both _ _ db.reservations
              (any-false (λ x. not (x.id == r.id) && code_is code x) db.reservations admitted)
              (find-others (Apart env.zone) (Apart-comm env.zone) (λ x. x.id == r.id)
                db.reservations r v.apart found)));
    below =
        keep (λ x. x.id ≤ db.reservation_seq)
          (find-All (λ x. x.id ≤ db.reservation_seq) _ db.reservations v.below found) v.below;
    stamped =
        keep (HasOffset env.zone) (find-All (HasOffset env.zone) _ db.reservations v.stamped found)
          v.stamped;
    seated =
        keep (IsSeated db.tables)
          (let h = find-All (IsSeated db.tables) _ db.reservations v.seated found in ground arith)
          v.seated;
    distinct = v.distinct;
    tables_below = v.tables_below;
  }
    where
      keep :
          (P : Reservation → Type 0)
          → P (set_code code r)
          → All P db.reservations
          → All P put.reservations
      keep P p h =
          All-update_where_keep P (λ x. x.id == r.id) (λ _. set_code code r) db.reservations
            (λ _ _. p) h

  pub put_code-IsValid : IsValid env.zone (put_code r.id code db)
  put_code-IsValid =
      subst (IsValid env.zone)
        (ap (λ rows. record db { reservations = rows })
          (sym (
            update-constant (λ x. x.id) r.id (set_code code) r db.reservations
              (valid-DistinctIds env.zone db.reservations v.apart) found)))
        put-IsValid

generate_code-Succeeds :
    (env : Env) (s : State)
    → Succeeds (generate_code env) s (λ code t. (is_well_formed code ≡ true) × (t.db ≡ s.db))
generate_code-Succeeds env s =
    let (code, run, formed, _) = generate_code-IsWellFormed env s in
    record {
      answer = code;
      run = run;
      post = (formed, (generate_code-Leads env {P = λ db. db ≡ s.db}).run s refl);
    }

-- What the tries for one row make of the database.
pub data Tried (id : ℕ) (db : Db) : Bool → Db → Type 0 where
  wrote :
      (code : Text)
      → is_well_formed code ≡ true
      → code_refused id code db ≡ false
      → Tried id db true (put_code id code db)
  left : Tried id db false db

pub try_codes-Tried :
    (env : Env) (id tries : ℕ) (db : Db) (s : State)
    → s.db ≡ db
    → Succeeds (try_codes env id tries) s (λ b t. Tried id db b t.db)
unfolding try_codes write_code
try_codes-Tried env id zero db s e = record {
  answer = false;
  run = refl;
  post = subst (Tried id db false) (sym e) left;
}
try_codes-Tried env id (suc tries) db s e =
    bind-Succeeds (generate_code env) _ s (λ code t. (is_well_formed code ≡ true) × (t.db ≡ s.db)) _
      (generate_code-Succeeds env s)
      (λ code t h. choose (λ u f. try_codes-Tried env id tries db u f) code t h.0 (h.1 ∙ e))
  where
    choose :
        ((u : State) → u.db ≡ db → Succeeds (try_codes env id tries) u (λ b t. Tried id db b t.db))
        → (code : Text) (t : State) → is_well_formed code ≡ true
        → t.db ≡ db
        → Succeeds
            (gets (code_refused id code) >>= λ refused.
              write_code id code refused (try_codes env id tries))
            t
            (λ b u. Tried id db b u.db)
    choose again code t formed same = elim (Bool-cases (code_refused id code t.db)) [
      | inl r ↦ same-Succeeds _ (try_codes env id tries) t _ (rw r refl) (again t same)
      | inr n ↦ record {
        answer = true;
        run = rw n refl;
        post = rw n (
            subst (λ d. Tried id db true (put_code id code d)) (sym same)
              (wrote code formed (ap (code_refused id code) (sym same) ∙ n)));
      }
    ]
