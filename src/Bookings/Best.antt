-- ===== src/Bookings/Best.antt =====
-- The table that `find_available_table` of app/crud.py picks.
use reservac_ia.Base.{
  ℕ, ◌≤◌, ◌≡◌, refl, Bool, true, false, not, Option, some, List, ◌==◌, find, All, All-order_by,
  All-of-order_by, All-of-map-select, [], ◌∷◌, subst, order_by-IsOrdered, find-least, find-All,
  find-none, Option-cases, inl, inr, arith, map, select, IsOrdered,
}
use reservac_ia.Clock.{ZoneInfo, DateTime}
use reservac_ia.Model.{Db, Table}
use reservac_ia.Crud.Lookup.{TableOut, table_row, attach_room}
use reservac_ia.Crud.Conflict.{
  Candidate, candidates, candidate_le, to_candidate, seats, find_available_table,
  table_has_conflict,
}

candidate_le_total : (x y : Candidate) → candidate_le x y ≡ false → candidate_le y x ≡ true
candidate_le_total x y h = ground arith

candidate_le_trans :
    (x y z : Candidate)
    → candidate_le x y ≡ true
    → candidate_le y z ≡ true
    → candidate_le x z ≡ true
candidate_le_trans x y z h k = ground arith

candidate_le_refl : (x : Candidate) → candidate_le x x ≡ true
candidate_le_refl x = ground arith

module _ (zone : ZoneInfo) (db : Db) (party_size : ℕ) (at : DateTime) (exclude : Option ℕ) where
  abbrev is_free : Candidate → Bool
  is_free c = not (table_has_conflict zone db c.table.id at exclude)

  candidates-IsOrdered : IsOrdered candidate_le (candidates db (some party_size))
  unfolding candidates
  candidates-IsOrdered =
      order_by-IsOrdered candidate_le candidate_le_total candidate_le_trans
        (map (to_candidate db) (select (seats (some party_size)) db.tables))

  -- From all the candidates to one table.
  of_candidates :
      (P : Candidate → Type 0) (t : Table)
      → All P (candidates db (some party_size))
      → table_row db t.id ≡ some t
      → party_size ≤ t.capacity
      → P (to_candidate db t)
  unfolding candidates
  of_candidates P t h e k =
      find-All (λ x. seats (some party_size) x ≡ true → P (to_candidate db x)) (λ x. x.id == t.id)
        db.tables {x = t}
        (All-of-map-select P (to_candidate db) (seats (some party_size)) db.tables (
          All-of-order_by P candidate_le
            (map (to_candidate db) (select (seats (some party_size)) db.tables)) h))
        e (ground arith)

  candidate-table : All (λ c. c ≡ to_candidate db c.table) (candidates db (some party_size))
  unfolding candidates
  candidate-table =
      All-order_by (λ c. c ≡ to_candidate db c.table) candidate_le
        (map (to_candidate db) (select (seats (some party_size)) db.tables))
        (mapped (select (seats (some party_size)) db.tables))
    where
      mapped : (ts : List Table) → All (λ c. c ≡ to_candidate db c.table) (map (to_candidate db) ts)
      mapped [] = tt
      mapped (t ∷ ts) = (refl, mapped ts)

  -- Whenever some table in the database seats the party and has no conflict near the time,
  -- find_available_table finds a table, and one that comes no later than that table in the order
  -- by capacity, load and id.
  pub find_available_table-best :
      (t : Table)
      → table_row db t.id ≡ some t
      → party_size ≤ t.capacity
      → table_has_conflict zone db t.id at exclude ≡ false
      → (best : TableOut) × (find_available_table zone db (some party_size) at exclude ≡ some best)
        × (candidate_le (to_candidate db best.table) (to_candidate db t) ≡ true)
  unfolding find_available_table attach_room
  find_available_table-best t e k f =
      elim (Option-cases (find is_free (candidates db (some party_size)))) [
        | inl n ↦ absurd (
            taken (
              of_candidates (λ c. is_free c ≡ false) t
                (find-none is_free (candidates db (some party_size)) n) e k))
        | inr (c, g) ↦
            let least =
              of_candidates (λ y. is_free y ≡ true → candidate_le c y ≡ true) t
                (find-least candidate_le candidate_le_refl is_free (candidates db (some party_size))
                  c candidates-IsOrdered g)
                e k in
            let own : c ≡ to_candidate db c.table =
              find-All (λ x. x ≡ to_candidate db x.table) is_free (candidates db (some party_size))
                {x = c} candidate-table g in
            (
              attach_room db c.table,
              rw g,
              subst (λ x. candidate_le x (to_candidate db t) ≡ true) own (least (rw f)),
            )
      ]
    where
      taken : not (table_has_conflict zone db t.id at exclude) ≡ false → ⊥
      taken h = ground arith
