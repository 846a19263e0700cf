-- ===== src/Middleware/Window.antt =====
-- `_SlidingWindow.hit` of app/middleware.py on the bucket of one key. `time.monotonic()` is in
-- microseconds, whole ones, and so is the window.
use reservac_ia.Base.{ℕ, ◌+◌, ◌-◌, ◌/◌, List, [], ◌∷◌, ◌++◌, ltb, leb, if◌then◌else◌, length}
use reservac_ia.Clock.{second}

pub data Verdict : Type 0 where
  accepted : Verdict
  retry_after : ℕ → Verdict
  index_error : Verdict

-- `while bucket and bucket[0] < cutoff: bucket.popleft()`
unfoldable pub expire : (window now : ℕ) → List ℕ → List ℕ
expire window now [] = []
expire window now (t ∷ bucket) =
    if ltb (t + window) now then expire window now bucket else t ∷ bucket

abbrev pub at_least_one : ℕ → ℕ
at_least_one n = if leb 1 n then n else 1

-- The seconds until the oldest hit leaves the window; an empty bucket has no oldest hit.
unfoldable pub refuse : (window now : ℕ) → List ℕ → Verdict
refuse window now [] = Verdict.index_error
refuse window now (t ∷ bucket) =
    Verdict.retry_after (at_least_one ((window - (now - t)) / second + 1))

unfoldable pub hit : (limit window now : ℕ) → List ℕ → Verdict × List ℕ
unfolding expire refuse
hit limit window now bucket =
    let recent = expire window now bucket in
    if leb limit (length recent)
    then (refuse window now recent, recent)
    else (Verdict.accepted, recent ++ now ∷ [])
