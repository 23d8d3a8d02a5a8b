-- ===== src/RateLimit/Retry.antt =====
-- Waiting as long as `retry_after` says: `RateLimiter.retry_after` of
-- backend/ontology_platform/rate_limiter.py.
use aletheia_onto.Base.{
  ℕ, ◌+◌, ◌-◌, ◌*◌, ◌≤◌, ◌<◌, ◌≡◌, true, false, List, [], ◌∷◌, arith, length, leb, Text, lookup_or,
  insert, lookup_or-insert, ==-refl, length-insert-le, ◌++◌, All, Bool-cases, inl, inr,
}
use native.Mathlib.Nat.{div-add-mod, mod-lt}
use aletheia_onto.RateLimit.{
  RateLimiter, expire, fresh, is_allowed, remaining, tracked_keys, wait_for, retry_after,
}

length-expire-le : (window t : ℕ) (hits : List ℕ) → length (expire window t hits) ≤ length hits
unfolding expire
length-expire-le window t [] = omega arith
length-expire-le window t (h ∷ hs) = ground (arith, length-expire-le window t hs)

-- The wait takes the oldest hit out of the window.
wait_for-enough :
    (tick window t oldest : ℕ)
    → 0 < tick
    → oldest ≤ t
    → oldest + window ≤ t + wait_for tick window t oldest * tick
unfolding wait_for
wait_for-enough tick window t oldest pos le =
    let a = window - (t - oldest) in grind (arith, div-add-mod a tick, mod-lt a pos)

-- A key holds no more hits than the limit, none of them in the future.
pub record Fits (l : RateLimiter) (key : Text) (t : ℕ) : Type 0 where
  pub bounded : length (lookup_or [] key l.hits) ≤ l.max_requests
  pub past : All (λ h. h ≤ t) (lookup_or [] key l.hits)

expire-past :
    (window s t : ℕ) (hits : List ℕ)
    → All (λ h. h ≤ t) hits
    → All (λ h. h ≤ t) (expire window s hits)
unfolding expire
expire-past window s t [] a = tt
expire-past window s t (h ∷ hs) a = elim (Bool-cases (leb (h + window) s)) [
  | inl old ↦ rw old (expire-past window s t hs a.1)
  | inr new ↦ rw new a
]

-- The refreshed log of the key, once it is stored.
fresh-stored :
    (l : RateLimiter) (key : Text) (hits : List ℕ) (t : ℕ)
    → fresh (record l { hits = insert key hits l.hits }) key t ≡ expire l.window t hits
unfolding fresh
fresh-stored l key hits t = rw (lookup_or-insert [] key key hits l.hits, ==-refl key)

allowed_of_room :
    (l : RateLimiter) (key : Text) (t : ℕ)
    → length (fresh l key t) < l.max_requests
    → (is_allowed l key t).1 ≡ true
unfolding is_allowed
allowed_of_room l key t room = ground arith

-- Once the oldest hit has left the window, a hit fewer is held.
expire_room :
    (window t oldest : ℕ) (hits : List ℕ)
    → oldest + window ≤ t
    → length (expire window t (oldest ∷ hits)) ≤ length hits
unfolding expire
expire_room window t oldest hits le = ground (arith, length-expire-le window t hits)

stored_wait :
    (tick : ℕ) (l : RateLimiter) (key : Text) (t oldest : ℕ) (hits : List ℕ)
    → retry_after tick (record l { hits = insert key (oldest ∷ hits) l.hits }) key t
      ≡ wait_for tick l.window t oldest
unfolding retry_after
stored_wait tick l key t oldest hits =
    rw (lookup_or-insert [] key key (oldest ∷ hits) l.hits, ==-refl key, retry_after)

refused_state :
    (l : RateLimiter) (key : Text) (t : ℕ)
    → (is_allowed l key t).1 ≡ false
    → (is_allowed l key t).0 ≡ record l { hits = insert key (fresh l key t) l.hits }
unfolding is_allowed
refused_state l key t e = ground arith

module _ (tick : ℕ) (positive : 0 < tick) (l : RateLimiter) (key : Text) (t : ℕ)
    (some_limit : 0 < l.max_requests) where
  -- The limiter with a log for the key, after the wait that it announces.
  abbrev stored : List ℕ → RateLimiter
  stored hits = record l { hits = insert key hits l.hits }

  stored_allowed :
      (hits : List ℕ)
      → length hits ≤ l.max_requests
      → All (λ h. h ≤ t) hits
      → (is_allowed (stored hits) key (t + retry_after tick (stored hits) key t * tick)).1 ≡ true
  stored_allowed [] fits past =
      let t' = t + retry_after tick (stored []) key t * tick in
      allowed_of_room (stored []) key t'
        (rw (fresh-stored l key [] t') (omega (arith, length-expire-le l.window t' [])))
  stored_allowed (oldest ∷ hits) fits past =
      let t' = t + retry_after tick (stored (oldest ∷ hits)) key t * tick in
      let out : oldest + l.window ≤ t' =
        rw (stored_wait tick l key t oldest hits)
          (wait_for-enough tick l.window t oldest positive past.0) in
      allowed_of_room (stored (oldest ∷ hits)) key t' (
        rw (fresh-stored l key (oldest ∷ hits) t')
          (omega (arith, expire_room l.window t' oldest hits out)))

  -- A refused request is let through after the announced wait, if the key makes no other request in
  -- between: for a positive tick and a positive limit, a key that holds no more hits than the limit
  -- and none in the future.
  pub refused_then_allowed :
      Fits l key t
      → (is_allowed l key t).1 ≡ false
      → let l' : RateLimiter = (is_allowed l key t).0 in
        (is_allowed l' key (t + retry_after tick l' key t * tick)).1 ≡ true
  refused_then_allowed f refused =
      rw (refused_state l key t refused) (stored_allowed (fresh l key t) fresh_fits fresh_past)
    where
      fresh_fits : length (fresh l key t) ≤ l.max_requests
      fresh_fits =
          unfold fresh in
          omega (arith, f.bounded, length-expire-le l.window t (lookup_or [] key l.hits))

      fresh_past : All (λ h. h ≤ t) (fresh l key t)
      fresh_past = unfold fresh in expire-past l.window t t (lookup_or [] key l.hits) f.past

-- Neither operation ever drops a key, however long its window has been empty.
pub tracked_keys-le :
    (l : RateLimiter) (key : Text) (t : ℕ)
    → (tracked_keys l ≤ tracked_keys (is_allowed l key t).0)
      × (tracked_keys l ≤ tracked_keys (remaining l key t).0)
unfolding tracked_keys is_allowed remaining
tracked_keys-le l key t = (
  ground (
    arith,
    length-insert-le key (fresh l key t) l.hits,
    length-insert-le key (fresh l key t ++ t ∷ []) l.hits,
  ),
  ground (arith, length-insert-le key (fresh l key t) l.hits),
)
