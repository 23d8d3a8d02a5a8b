-- ===== src/RateLimit.antt =====
-- Per-caller request limiting: `RateLimiter` of backend/ontology_platform/rate_limiter.py.
-- A moment is a number of ticks of the monotonic clock, `tick` of them to a second; the window
-- is given in ticks. `hit <= moment - window` is written `hit + window <= moment`.
pub mod Log
pub mod Window
pub mod Bound
pub mod Retry
use aletheia_onto.Base.{
  ℕ, ◌+◌, ◌-◌, ◌/◌, max, Bool, true, false, Option, none, some, List, [], ◌∷◌, ◌++◌, length, leb,
  if◌then◌else◌, Text, Dict, lookup, lookup_or, insert, erase,
}

pub record RateLimiter : Type 0 where
  pub max_requests : ℕ
  pub window : ℕ
  pub hits : Dict (List ℕ)

-- `while hits and hits[0] <= cutoff: hits.popleft()`
unfoldable pub expire : ℕ → ℕ → List ℕ → List ℕ
expire window moment [] = []
expire window moment (hit ∷ hits) =
    if leb (hit + window) moment then expire window moment hits else hit ∷ hits

-- The deque of a key, after the expiry that `is_allowed` and `remaining` both begin with.
unfoldable pub fresh : RateLimiter → Text → ℕ → List ℕ
fresh l key moment = expire l.window moment (lookup_or [] key l.hits)

unfoldable pub is_allowed : RateLimiter → Text → ℕ → RateLimiter × Bool
is_allowed l key moment =
    let hits = fresh l key moment in
    if leb l.max_requests (length hits)
    then (record l { hits = insert key hits l.hits }, false)
    else (record l { hits = insert key (hits ++ moment ∷ []) l.hits }, true)

unfoldable pub remaining : RateLimiter → Text → ℕ → RateLimiter × ℕ
remaining l key moment = elim (lookup key l.hits) [
  | none ↦ (l, l.max_requests)
  | some _ ↦
      let hits = fresh l key moment in
      (record l { hits = insert key hits l.hits }, l.max_requests - length hits)
]

-- `max(1, int(window - (moment - oldest)) + 1)`. A difference below 0 gives 1 here and there.
unfoldable pub wait_for : ℕ → ℕ → ℕ → ℕ → ℕ
wait_for tick window moment oldest = max 1 ((window - (moment - oldest)) / tick + 1)

unfoldable pub retry_after : ℕ → RateLimiter → Text → ℕ → ℕ
unfolding wait_for
retry_after tick l key moment = elim (lookup_or [] key l.hits) [
  | [] ↦ 0
  | oldest ∷ _ ↦ wait_for tick l.window moment oldest
]

unfoldable pub forget : RateLimiter → Text → RateLimiter
forget l key = record l { hits = erase key l.hits }

unfoldable pub tracked_keys : RateLimiter → ℕ
tracked_keys l = length l.hits
