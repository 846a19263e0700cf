-- ===== src/Scripts/Spanish/Laws.antt =====
-- What scripts/backfill_spanish.py leaves, and its second run.
use reservac_ia.Base.{
  ◌≡◌, ◌≢◌, refl, sym, ap, ◌∙◌, Bool, true, false, ◌||◌, List, [], ◌∷◌, ◌++◌, map, ◌==◌,
  if◌then◌else◌, All, All-imp, All-snoc, All-both, DistinctIds, count_where, ◌+◌, update_where,
  untouched, Bool-cases, inl, inr, ==_refl, text_eq_refl, text_eq→eq, arith,
}
use reservac_ia.Clock.{ZoneInfo, iso}
use reservac_ia.Model.{Reservation}
use reservac_ia.Monad.{State, ok}
use reservac_ia.Scripts.Spanish.{
  fix_name, fix_note, reinterpret_as_madrid, name_changes, note_changes, time_changes, set_fixes,
  Fixed, count_fixes, write_fixes, fix_rows, backfill_spanish,
}
use reservac_ia.Scripts.Spanish.Stored.{note_eq→eq, note_eq_refl, iso_eq→eq, suffix_eq_refl}
use reservac_ia.Scripts.Spanish.Words.{fix_name-twice, fix_note-twice}

abbrev pub none_fixed : Fixed
none_fixed = record { names = 0; notes = 0; times = 0 }

abbrev pub with_rows : State → List Reservation → State
with_rows s rows = record s { db = record s.db { reservations = rows } }

module _ (zone : ZoneInfo) where
  -- A reservation with its three values corrected.
  abbrev pub corrected : Reservation → Reservation
  corrected r = record r {
    customer_name = fix_name r.customer_name;
    notes = fix_note r.notes;
    reservation_at = reinterpret_as_madrid zone r.reservation_at;
  }

  abbrev changes : Reservation → Bool
  changes r = name_changes r || (note_changes r || time_changes zone r)

  -- A conditional assignment of a value that differs.
  chosen :
      {A : Type 0} (b : Bool) (new old : A)
      → (b ≡ false → new ≡ old)
      → (if b then new else old) ≡ new
  chosen true new old h = refl
  chosen false new old h = sym (h refl)

  name_same :
      (r : Reservation) → name_changes r ≡ false → fix_name r.customer_name ≡ r.customer_name
  name_same r h = text_eq→eq (fix_name r.customer_name) r.customer_name (ground arith)

  note_same : (r : Reservation) → note_changes r ≡ false → fix_note r.notes ≡ r.notes
  note_same r h = note_eq→eq (fix_note r.notes) r.notes (ground arith)

  time_same :
      (r : Reservation)
      → time_changes zone r ≡ false
      → reinterpret_as_madrid zone r.reservation_at ≡ r.reservation_at
  time_same r h =
      iso_eq→eq (reinterpret_as_madrid zone r.reservation_at) r.reservation_at (ground arith)

  set_fixes-corrected : (r : Reservation) → set_fixes zone r r ≡ corrected r
  set_fixes-corrected r =
      rw
        (
          chosen (name_changes r) (fix_name r.customer_name) r.customer_name (name_same r),
          chosen (note_changes r) (fix_note r.notes) r.notes (note_same r),
          chosen (time_changes zone r) (reinterpret_as_madrid zone r.reservation_at)
              r.reservation_at (time_same r),
        )
        refl

  unchanged : (r : Reservation) → changes r ≡ false → r ≡ corrected r
  unchanged r h =
      let name = name_same r (ground arith) in
      let note = note_same r (ground arith) in
      let time = time_same r (ground arith) in rw (name, note, time) refl

  corrected-twice : (r : Reservation) → corrected (corrected r) ≡ corrected r
  unfolding reinterpret_as_madrid iso
  corrected-twice r = rw (fix_name-twice r.customer_name, fix_note-twice r.notes) refl

  still : (r : Reservation) → corrected r ≡ r → changes r ≡ false
  still r h =
      let name : fix_name r.customer_name ≡ r.customer_name = ap (λ x. x.customer_name) h in
      let note : fix_note r.notes ≡ r.notes = ap (λ x. x.notes) h in
      let time : reinterpret_as_madrid zone r.reservation_at ≡ r.reservation_at =
        ap (λ x. x.reservation_at) h in
      rw
        (
          name,
          note,
          time,
          text_eq_refl r.customer_name,
          note_eq_refl r.notes,
          ==_refl r.reservation_at.wall,
          suffix_eq_refl r.reservation_at.suffix,
        )
        refl

  update-middle :
      (r : Reservation) (f : Reservation → Reservation) (done rest : List Reservation)
      → All (λ x. (x.id == r.id) ≡ false) done
      → All (λ x. (x.id == r.id) ≡ false) rest
      → update_where (λ x. x.id == r.id) f (done ++ r ∷ rest) ≡ done ++ f r ∷ rest
  update-middle r f [] rest d h =
      rw (==_refl r.id) (ap (λ xs. f r ∷ xs) (untouched (λ x. x.id) r.id f rest h))
  update-middle r f (x ∷ done) rest d h =
      rw (d.0) (ap (λ xs. x ∷ xs) (update-middle r f done rest d.1 h))

  append_one :
      (done rest : List Reservation) (x : Reservation) → (done ++ x ∷ []) ++ rest ≡ done ++ x ∷ rest
  append_one [] rest x = refl
  append_one (d ∷ done) rest x = ap (λ xs. d ∷ xs) (append_one done rest x)

  -- The rows that are done have other ids.
  abbrev AwayFrom : List Reservation → Reservation → Type 0
  AwayFrom done r = All (λ x. (x.id == r.id) ≡ false) done

  write-done :
      (r : Reservation) (done rest : List Reservation) (s : State)
      → AwayFrom done r
      → All (λ x. (x.id == r.id) ≡ false) rest
      → write_fixes zone r (changes r) (with_rows s (done ++ r ∷ rest))
        ≡ (ok tt, with_rows s (done ++ corrected r ∷ rest))
  unfolding write_fixes
  write-done r done rest s d h = elim (Bool-cases (changes r)) [
    | inl t ↦ rw t (
        ap (λ rows. (ok tt, with_rows s rows))
          (update-middle r (set_fixes zone r) done rest d h
            ∙ ap (λ x. done ++ x ∷ rest) (set_fixes-corrected r)))
    | inr n ↦ rw n (ap (λ x. (ok tt, with_rows s (done ++ x ∷ rest))) (unchanged r n))
  ]

  -- The counts after some more rows.
  abbrev pub tallied : List Reservation → Fixed → Fixed
  tallied rows fixed = record {
    names = fixed.names + count_where name_changes rows;
    notes = fixed.notes + count_where note_changes rows;
    times = fixed.times + count_where (time_changes zone) rows;
  }

  tallied-one :
      (r : Reservation) (rows : List Reservation) (fixed : Fixed)
      → tallied rows (count_fixes zone r fixed) ≡ tallied (r ∷ rows) fixed
  tallied-one r rows fixed =
      let names : (count_fixes zone r fixed).names + count_where name_changes rows
          ≡ fixed.names + count_where name_changes (r ∷ rows) =
        ground arith in
      let notes : (count_fixes zone r fixed).notes + count_where note_changes rows
          ≡ fixed.notes + count_where note_changes (r ∷ rows) =
        ground arith in
      let times : (count_fixes zone r fixed).times + count_where (time_changes zone) rows
          ≡ fixed.times + count_where (time_changes zone) (r ∷ rows) =
        ground arith in
      rw (names, notes, times) refl

  tallied-none : (fixed : Fixed) → fixed ≡ tallied [] fixed
  tallied-none fixed =
      let names : fixed.names + 0 ≡ fixed.names = omega arith in
      let notes : fixed.notes + 0 ≡ fixed.notes = omega arith in
      let times : fixed.times + 0 ≡ fixed.times = omega arith in rw (names, notes, times) refl

  other_ids :
      (r : Reservation) (rows : List Reservation)
      → All (λ x. r.id ≢ x.id) rows
      → All (λ x. (x.id == r.id) ≡ false) rows
  other_ids r rows h = All-imp _ (λ x. (x.id == r.id) ≡ false) (λ x n. ground arith) rows h

  fix_rows-run :
      (done rest : List Reservation) (fixed : Fixed) (s : State)
      → DistinctIds (λ r. r.id) rest
      → All (AwayFrom done) rest
      → fix_rows zone rest fixed (with_rows s (done ++ rest))
        ≡ (ok (tallied rest fixed), with_rows s (done ++ map corrected rest))
  unfolding fix_rows
  fix_rows-run done [] fixed s d a = ap (λ f. (ok f, with_rows s (done ++ []))) (tallied-none fixed)
  fix_rows-run done (r ∷ rest) fixed s d a =
      let next = fix_rows-run (done ++ corrected r ∷ []) rest (count_fixes zone r fixed) s d.1 (
        All-imp _ _
          (λ x h.
            All-snoc (λ y. (y.id == x.id) ≡ false) done (corrected r) h.0
              (let n = h.1 in ground arith))
          rest (All-both _ _ rest a.1 d.0)) in
      rw (write-done r done rest s a.0 (other_ids r rest d.0)) (
        ap (λ rows. fix_rows zone rest (count_fixes zone r fixed) (with_rows s rows))
          (sym (append_one done rest (corrected r)))
        ∙ next
        ∙ ap (λ rows. (ok (tallied rest (count_fixes zone r fixed)), with_rows s rows))
            (append_one done (map corrected rest) (corrected r))
        ∙ ap (λ f. (ok f, with_rows s (done ++ corrected r ∷ map corrected rest)))
            (tallied-one r rest fixed))

  -- Rows that are as they should be.
  fix_rows-still :
      (rows : List Reservation) (fixed : Fixed) (s : State)
      → All (λ r. corrected r ≡ r) rows
      → fix_rows zone rows fixed s ≡ (ok fixed, s)
  unfolding fix_rows write_fixes
  fix_rows-still [] fixed s h = refl
  fix_rows-still (r ∷ rows) fixed s h =
      let none_changes = still r h.0 in
      let name : name_changes r ≡ false = ground arith in
      let note : note_changes r ≡ false = ground arith in
      let time : time_changes zone r ≡ false = ground arith in
      rw (name, note, time) (fix_rows-still rows fixed s h.1)

  all_corrected : (rows : List Reservation) → All (λ r. corrected r ≡ r) (map corrected rows)
  all_corrected [] = tt
  all_corrected (r ∷ rows) = (corrected-twice r, all_corrected rows)

  nothing_away : (rows : List Reservation) → All (AwayFrom []) rows
  nothing_away [] = tt
  nothing_away (r ∷ rows) = (tt, nothing_away rows)

  -- With distinct ids, backfill_spanish gives every reservation its corrected name, note and time,
  -- changes nothing else and counts the values that it changes; a second run changes nothing and
  -- counts none.
  pub backfill_spanish-twice :
      (s : State)
      → DistinctIds (λ r. r.id) s.db.reservations
      → (backfill_spanish zone s ≡ (
        ok (tallied s.db.reservations none_fixed),
        with_rows s (map corrected s.db.reservations),
      ))
        × (backfill_spanish zone (with_rows s (map corrected s.db.reservations))
            ≡ (ok none_fixed, with_rows s (map corrected s.db.reservations)))
  unfolding backfill_spanish
  backfill_spanish-twice s d = (
    fix_rows-run [] s.db.reservations none_fixed s d (nothing_away s.db.reservations),
    fix_rows-still (map corrected s.db.reservations) none_fixed
        (with_rows s (map corrected s.db.reservations)) (all_corrected s.db.reservations),
  )
