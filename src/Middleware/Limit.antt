-- ===== src/Middleware/Limit.antt =====
-- Runs of hits of one key of the sliding window of app/middleware.py.
use reservac_ia.Base.{
  ℕ, ◌+◌, ◌-◌, ◌*◌, ◌/◌, ◌≤◌, ◌<◌, ◌≡◌, refl, sym, ap, ◌∙◌, subst, true, false, List, [], ◌∷◌, ◌++◌,
  ltb, leb, length, select, All, All-imp, All-snoc, IsOrdered, length-append, Bool-cases, inl, inr,
  arith,
}
use reservac_ia.Clock.{second}
use reservac_ia.Middleware.Window.{Verdict, hit, expire, refuse, at_least_one}
use reservac_ia.Middleware.Expiry.{
  recent, expire-select, select-recent, select-snoc, length-expire, IsOrdered-expire, All-expire,
  IsOrdered-snoc,
}

abbrev pub record_hit : Verdict → ℕ → List ℕ → List ℕ
record_hit Verdict.accepted now history = history ++ now ∷ []
record_hit _ now history = history

-- A run of hits at times that do not decrease: the times of all accepted ones, the bucket and the
-- time of the last hit.
pub data Run (limit window : ℕ) : List ℕ → List ℕ → ℕ → Type 0 where
  started : Run limit window [] [] 0
  served :
      (history bucket : List ℕ) (last now : ℕ)
      → Run limit window history bucket last
      → last ≤ now
      → Run limit window
          (record_hit (hit limit window now bucket).0 now history)
          (hit limit window now bucket).1
          now

-- The bucket holds just the accepted hits of the window, in order, and no more than the limit.
record Holds (limit window : ℕ) (history bucket : List ℕ) (last : ℕ) : Type 0 where
  exact : bucket ≡ select (recent window last) history
  ordered : IsOrdered leb bucket
  past : All (λ t. t ≤ last) bucket
  small : length bucket ≤ limit

module _ (limit window : ℕ) where
  expire-Holds :
      (history bucket : List ℕ) (last now : ℕ)
      → last ≤ now
      → Holds limit window history bucket last
      → Holds limit window history (expire window now bucket) now
  expire-Holds history bucket last now le h = record {
    exact =
        expire-select window now bucket h.ordered
        ∙ ap (select (recent window now)) h.exact
        ∙ select-recent window last now history le;
    ordered = IsOrdered-expire window now bucket h.ordered;
    past =
        All-expire window (λ t. t ≤ now) now bucket
          (All-imp _ _ (λ t k. omega (arith, k, le)) bucket h.past);
    small = omega (arith, h.small, length-expire window now bucket);
  }

  accept-Holds :
      (history bucket : List ℕ) (now : ℕ)
      → length bucket < limit
      → Holds limit window history bucket now
      → Holds limit window (history ++ now ∷ []) (bucket ++ now ∷ []) now
  accept-Holds history bucket now room h = record {
    exact = ap (λ b. b ++ now ∷ []) h.exact ∙ sym (select-snoc window now history);
    ordered = IsOrdered-snoc bucket now h.ordered h.past;
    past = All-snoc (λ t. t ≤ now) bucket now h.past (omega arith);
    small = omega (arith, length-append bucket (now ∷ []));
  }

  refused-history :
      (now : ℕ) (bucket history : List ℕ)
      → record_hit (refuse window now bucket) now history ≡ history
  unfolding refuse
  refused-history now [] history = refl
  refused-history now (t ∷ bucket) history = refl

  hit-Holds :
      (history bucket : List ℕ) (last now : ℕ)
      → last ≤ now
      → Holds limit window history bucket last
      → Holds limit window
          (record_hit (hit limit window now bucket).0 now history)
          (hit limit window now bucket).1
          now
  unfolding hit
  hit-Holds history bucket last now le h =
      let expired = expire-Holds history bucket last now le h in
      elim (Bool-cases (leb limit (length (expire window now bucket)))) [
        | inl e ↦ rw (e, refused-history now (expire window now bucket) history) expired
        | inr e ↦ rw e (accept-Holds history (expire window now bucket) now (ground arith) expired)
      ]

  Run-Holds :
      {history bucket : List ℕ} {now : ℕ}
      → Run limit window history bucket now
      → Holds limit window history bucket now
  Run-Holds started = record { exact = refl; ordered = tt; past = tt; small = omega arith }
  Run-Holds (served history bucket last now run le) =
      hit-Holds history bucket last now le (Run-Holds run)

  -- After every run of hits of one key at times that do not decrease, no more than limit of all
  -- the accepted ones lie in the window that ends at the last hit.
  pub accepted-in-window :
      (history bucket : List ℕ) (now : ℕ)
      → Run limit window history bucket now
      → length (select (recent window now) history) ≤ limit
  accepted-in-window history bucket now run =
      let h = Run-Holds run in subst (λ b. length b ≤ limit) h.exact h.small

  waited :
      (now later r t : ℕ)
      → t ≤ now
      → at_least_one ((window - (now - t)) / second + 1) ≡ r
      → now + r * second ≤ later
      → ltb (t + window) later ≡ true
  waited now later r t le e w = ground arith

  refused-then-accepted :
      (now later r : ℕ) (kept : List ℕ)
      → All (λ t. t ≤ now) kept
      → length kept ≤ limit
      → refuse window now kept ≡ Verdict.retry_after r
      → now + r * second ≤ later
      → (hit limit window later kept).0 ≡ Verdict.accepted
  unfolding refuse hit expire
  refused-then-accepted now later r [] past small e w = absurd (cc)
  refused-then-accepted now later r (t ∷ kept) past small e w =
      let wait : at_least_one ((window - (now - t)) / second + 1) ≡ r = ground arith in
      let left = waited now later r t past.0 wait w in
      let room : leb limit (length (expire window later kept)) ≡ false =
        let n = length-expire window later kept in ground arith in
      rw (left, room) refl

  -- After such a run, a client that is refused and waits for the seconds of Retry-After, with no
  -- hit in between, is accepted.
  pub retry_after-accepted :
      (history bucket : List ℕ) (last now later r : ℕ)
      → Run limit window history bucket last
      → last ≤ now
      → (hit limit window now bucket).0 ≡ Verdict.retry_after r
      → now + r * second ≤ later
      → (hit limit window later (hit limit window now bucket).1).0 ≡ Verdict.accepted
  unfolding hit
  retry_after-accepted history bucket last now later r run le e w =
      let h = expire-Holds history bucket last now le (Run-Holds run) in
      elim (Bool-cases (leb limit (length (expire window now bucket)))) [
        | inl f ↦ rw f (
            refused-then-accepted now later r (expire window now bucket) h.past h.small (rw f at e)
              w)
        | inr f ↦ absurd (impossible (rw f at e))
      ]
    where
      impossible : Verdict.accepted ≡ Verdict.retry_after r → ⊥
      impossible q = cc
