-- ===== src/Bookings/Placing.antt =====
-- The table that `_resolve_table_for` of app/crud.py returns.
use reservac_ia.Base.{
  ℕ, ◌≤◌, ◌≡◌, refl, ◌≢◌, select, Bool, true, false, not, Option, none, some, List, [], ◌∷◌, map,
  subst, find, All, All-select, select_holds, All-order_by, find-some, find-All, find_self,
  DistinctIds, Option-cases, inl, inr, arith, leb→le,
}
use reservac_ia.Clock.{ZoneInfo, DateTime}
use reservac_ia.Model.{Db, Table}
use reservac_ia.Monad.{ok}
use reservac_ia.Crud.Lookup.{table_row, get_table}
use reservac_ia.Crud.Conflict.{
  Candidate, candidates, candidate_le, to_candidate, seats, check_table, find_available_table,
  resolve_table_for, table_has_conflict,
}

-- The table exists, seats the party, and has no confirmed reservation near the time.
pub record Placeable (zone : ZoneInfo) (db : Db) (party_size : ℕ) (at : DateTime)
    (exclude : Option ℕ) (table_id : ℕ) : Type 0 where
  pub table : Table
  pub found : table_row db table_id ≡ some table
  pub fits : party_size ≤ table.capacity
  pub free : table_has_conflict zone db table_id at exclude ≡ false

module _ (zone : ZoneInfo) (db : Db) (party_size : ℕ) (at : DateTime) (exclude : Option ℕ) where
  check_table-Placeable :
      (i j : ℕ) (t : Table)
      → table_row db i ≡ some t
      → check_table zone db i t (some party_size) at exclude ≡ ok j
      → Placeable zone db party_size at exclude j
  unfolding check_table
  check_table-Placeable i j t e h = record {
    table = t;
    found = ground arith;
    fits = ground arith;
    free = ground arith;
  }

  abbrev IsCandidate : Candidate → Type 0
  IsCandidate c = (table_row db c.table.id ≡ some c.table) × (party_size ≤ c.table.capacity)

  to_candidate-IsCandidate :
      (ts : List Table)
      → All (λ t. table_row db t.id ≡ some t) ts
      → All (λ t. seats (some party_size) t ≡ true) ts
      → All IsCandidate (map (to_candidate db) ts)
  to_candidate-IsCandidate [] h k = tt
  to_candidate-IsCandidate (t ∷ ts) h k =
      ((h.0, leb→le _ _ k.0), to_candidate-IsCandidate ts h.1 k.1)

  candidates-IsCandidate :
      DistinctIds (λ t. t.id) db.tables → All IsCandidate (candidates db (some party_size))
  unfolding candidates
  candidates-IsCandidate d = All-order_by IsCandidate candidate_le _ (
      to_candidate-IsCandidate _
        (All-select _ (seats (some party_size)) db.tables (find_self (λ t. t.id) db.tables d))
        (select_holds (seats (some party_size)) db.tables))

  abbrev is_free : Candidate → Bool
  is_free c = not (table_has_conflict zone db c.table.id at exclude)

  -- The first candidate without a conflict.
  abbrev chosen : Option Candidate
  chosen = find is_free (candidates db (some party_size))

  chosen-Placeable :
      (c : Candidate)
      → DistinctIds (λ t. t.id) db.tables
      → chosen ≡ some c
      → Placeable zone db party_size at exclude c.table.id
  chosen-Placeable c d e =
      let (found, fits) =
        find-All IsCandidate is_free (candidates db (some party_size)) (candidates-IsCandidate d)
          e in
      record {
        table = c.table;
        found = found;
        fits = fits;
        free = not_true (find-some is_free (candidates db (some party_size)) e);
      }
    where
      not_true : {b : Bool} → not b ≡ true → b ≡ false
      not_true {b} h = ground arith

  -- With distinct table ids, a table that _resolve_table_for returns, asked for or chosen, exists,
  -- seats the party and has no confirmed reservation within two hours of the time, but for the
  -- excluded one.
  pub resolve_table_for-Placeable :
      (requested : Option ℕ) (j : ℕ)
      → DistinctIds (λ t. t.id) db.tables
      → resolve_table_for zone db requested (some party_size) at exclude ≡ ok j
      → Placeable zone db party_size at exclude j
  unfolding resolve_table_for get_table find_available_table
  resolve_table_for-Placeable (some i) j d h = elim (Option-cases (table_row db i)) [
    | inl e ↦ absurd (ground arith)
    | inr (t, e) ↦ check_table-Placeable i j t e (ground arith)
  ]
  resolve_table_for-Placeable none j d h = elim (Option-cases chosen) [
    | inl e ↦ absurd (ground arith)
    | inr (c, e) ↦
        let same : c.table.id ≡ j = ground arith in
        subst (Placeable zone db party_size at exclude) same (chosen-Placeable c d e)
  ]

-- With a party of None no table is ever chosen.
module _ (zone : ZoneInfo) (db : Db) (at : DateTime) (exclude : Option ℕ) where
  select-none : (ts : List Table) → select (seats none) ts ≡ []
  select-none [] = refl
  select-none (t ∷ ts) = select-none ts

  find_available_table-none : find_available_table zone db none at exclude ≡ none
  unfolding find_available_table candidates
  find_available_table-none = rw (select-none db.tables)

  check_table-none : (i j : ℕ) (t : Table) → check_table zone db i t none at exclude ≢ ok j
  unfolding check_table
  check_table-none i j t h = cc

  pub resolve_table_for-none :
      (requested : Option ℕ) (j : ℕ) → resolve_table_for zone db requested none at exclude ≢ ok j
  unfolding resolve_table_for get_table
  resolve_table_for-none (some i) j h = elim (Option-cases (table_row db i)) [
    | inl e ↦ ground arith
    | inr (t, e) ↦ check_table-none i j t (ground arith)
  ]
  resolve_table_for-none none j h = ground (arith, find_available_table-none)
