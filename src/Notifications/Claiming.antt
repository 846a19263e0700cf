-- ===== src/Notifications/Claiming.antt =====
-- The rows that `pick_due` of app/notifications/queue.py claims.
use reservac_ia.Base.{
  ℕ, suc, ◌+◌, ◌≤◌, ◌≡◌, ◌≢◌, refl, Bool, true, false, ◌||◌, Option, some, List, [], ◌∷◌, ◌==◌,
  ==_iff, map, select, find, take, length, update_where, order_by, All, All-imp, All-select,
  All-order_by, All-take, find_self, select_holds, DistinctIds, Bool-cases, inl, inr, arith, subst,
  length-take-le, ap,
}
use reservac_ia.Model.{Env, Notification, NotificationKind}
use reservac_ia.Monad.{State, ok}
use reservac_ia.Notifications.Queue.{
  is_due, due_ids, ids, id_in, by_schedule, claim, pick_due, to_in_flight,
}

-- A claimed id belongs to a due row, and to no other row.
module _ (now_at : ℕ) (kind : Option NotificationKind) where
  abbrev IsDueIn : List Notification → Notification → Type 0
  IsDueIn rows m = (find (λ z. z.id == m.id) rows ≡ some m) × (is_due now_at kind m ≡ true)

  id_in-due :
      (rows ms : List Notification) (n : Notification)
      → All (IsDueIn rows) ms
      → find (λ z. z.id == n.id) rows ≡ some n
      → id_in (ids ms) n ≡ true
      → is_due now_at kind n ≡ true
  id_in-due rows [] n h e t = absurd (cc)
  id_in-due rows (m ∷ ms) n h e t = elim (Bool-cases (m.id == n.id)) [
    | inl q ↦
        let same : m.id ≡ n.id = (==_iff _ _).0 q in
        let found : find (λ z. z.id == n.id) rows ≡ some m =
          subst (λ i. find (λ z. z.id == i) rows ≡ some m) same h.0.0 in
        let row : m ≡ n = cc in subst (λ x. is_due now_at kind x ≡ true) row h.0.1
    | inr q ↦ id_in-due rows ms n h.1 e (ground arith)
  ]

  both :
      (rows ms : List Notification)
      → All (λ m. find (λ z. z.id == m.id) rows ≡ some m) ms
      → All (λ m. is_due now_at kind m ≡ true) ms
      → All (IsDueIn rows) ms
  both rows [] h k = tt
  both rows (m ∷ ms) h k = ((h.0, k.0), both rows ms h.1 k.1)

  pub due_ids-due :
      (limit : ℕ) (rows : List Notification)
      → DistinctIds (λ n. n.id) rows
      → All
          (λ n. id_in (due_ids now_at kind limit rows) n ≡ true → is_due now_at kind n ≡ true)
          rows
  unfolding due_ids
  due_ids-due limit rows d =
      All-imp _ _
        (λ n e t.
          id_in-due rows (take limit (order_by by_schedule (select (is_due now_at kind) rows))) n
            (All-take (IsDueIn rows) limit (order_by by_schedule (select (is_due now_at kind) rows))
              (All-order_by (IsDueIn rows) by_schedule (select (is_due now_at kind) rows) (
                both rows (select (is_due now_at kind) rows)
                  (All-select _ (is_due now_at kind) rows own)
                  (select_holds (is_due now_at kind) rows))))
            e t)
        rows own
    where
      own : All (λ y. find (λ z. z.id == y.id) rows ≡ some y) rows
      own = find_self (λ n. n.id) rows d

-- No more rows than ids.
select_or :
    (p q : Notification → Bool) (rows : List Notification)
    → length (select (λ n. p n || q n) rows) ≤ length (select p rows) + length (select q rows)
select_or p q [] = omega arith
select_or p q (n ∷ rows) = ground (arith, select_or p q rows)

no_other :
    (i : ℕ) (n : Notification) (rows : List Notification)
    → i ≡ n.id
    → All (λ m. n.id ≢ m.id) rows
    → select (λ m. i == m.id) rows ≡ []
no_other i n [] e h = refl
no_other i n (m ∷ rows) e h = ground (arith, no_other i n rows)

one_by_id :
    (i : ℕ) (rows : List Notification)
    → DistinctIds (λ n. n.id) rows
    → length (select (λ n. i == n.id) rows) ≤ 1
one_by_id i [] d = omega arith
one_by_id i (n ∷ rows) d = elim (Bool-cases (i == n.id)) [
  | inl e ↦ rw (e, no_other i n rows ((==_iff _ _).0 e) d.0) (omega arith)
  | inr e ↦ rw e (one_by_id i rows d.1)
]

nothing : (rows : List Notification) → select (λ n. false) rows ≡ []
nothing [] = refl
nothing (n ∷ rows) = nothing rows

length-select-ids :
    (claimed : List ℕ) (rows : List Notification)
    → DistinctIds (λ n. n.id) rows
    → length (select (id_in claimed) rows) ≤ length claimed
length-select-ids [] rows d = rw (nothing rows) (omega arith)
length-select-ids (i ∷ claimed) rows d = omega (
  arith,
  select_or (λ n. i == n.id) (id_in claimed) rows,
  one_by_id i rows d,
  length-select-ids claimed rows d,
)

length-ids : (ms : List Notification) → length (ids ms) ≡ length ms
length-ids [] = refl
length-ids (m ∷ ms) = omega (arith, length-ids ms)

length-due_ids :
    (now_at : ℕ) (kind : Option NotificationKind) (limit : ℕ) (rows : List Notification)
    → length (due_ids now_at kind limit rows) ≤ limit
unfolding due_ids
length-due_ids now_at kind limit rows = omega (
  arith,
  length-ids (take limit (order_by by_schedule (select (is_due now_at kind) rows))),
  length-take-le limit (order_by by_schedule (select (is_due now_at kind) rows)),
)

select-in_flight :
    (claimed : List ℕ) (t : ℕ) (rows : List Notification)
    → select (id_in claimed) (update_where (id_in claimed) (to_in_flight t) rows)
      ≡ map (to_in_flight t) (select (id_in claimed) rows)
select-in_flight claimed t [] = refl
select-in_flight claimed t (n ∷ rows) = elim (Bool-cases (id_in claimed n)) [
  | inl e ↦ rw (e, e) (ap (λ ms. to_in_flight t n ∷ ms) (select-in_flight claimed t rows))
  | inr e ↦ rw (e, e) (select-in_flight claimed t rows)
]

select_due :
    (now_at : ℕ) (kind : Option NotificationKind) (claimed : List ℕ) (rows : List Notification)
    → All (λ n. id_in claimed n ≡ true → is_due now_at kind n ≡ true) rows
    → All (λ n. is_due now_at kind n ≡ true) (select (id_in claimed) rows)
select_due now_at kind claimed [] h = tt
select_due now_at kind claimed (n ∷ rows) h = elim (Bool-cases (id_in claimed n)) [
  | inl e ↦ rw e (h.0 e, select_due now_at kind claimed rows h.1)
  | inr e ↦ rw e (select_due now_at kind claimed rows h.1)
]

module _ (env : Env) (limit : ℕ) (kind : Option NotificationKind) (s : State) where
  abbrev picked : List ℕ
  picked = due_ids (env.clock s.reads) kind limit s.db.notifications

  claim-rows :
      (claimed : List ℕ) (t : State)
      → (claim env claimed t).0
        ≡ ok (map (to_in_flight (env.clock t.reads)) (select (id_in claimed) t.db.notifications))
  unfolding claim
  claim-rows [] t = rw (nothing t.db.notifications)
  claim-rows (i ∷ claimed) t =
      rw (select-in_flight (i ∷ claimed) (env.clock t.reads) t.db.notifications)

  pub pick_due-claims :
      DistinctIds (λ n. n.id) s.db.notifications
      → (claimed : List Notification) × ((pick_due env limit kind s).0
          ≡ ok (map (to_in_flight (env.clock (suc s.reads))) claimed))
        × All (λ n. is_due (env.clock s.reads) kind n ≡ true) claimed
        × (length claimed ≤ limit)
  unfolding pick_due
  pick_due-claims d = (
    select (id_in picked) s.db.notifications,
    claim-rows picked (record s { reads = suc s.reads }),
    select_due (env.clock s.reads) kind picked s.db.notifications
        (due_ids-due (env.clock s.reads) kind limit s.db.notifications d),
    omega (
      arith,
      length-select-ids picked s.db.notifications d,
      length-due_ids (env.clock s.reads) kind limit s.db.notifications,
    ),
  )
