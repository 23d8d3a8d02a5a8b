-- ===== src/RateLimit/Window.antt =====
-- The limiter against an ideal one that keeps every granted request and counts those inside the
-- window: `is_allowed` and `remaining` of backend/ontology_platform/rate_limiter.py.
use aletheia_onto.Base.{
  ℕ, ◌-◌, ◌≤◌, ◌<◌, ◌≡◌, refl, sym, Bool, true, false, List, [], ◌∷◌, ◌++◌, arith, length, ltb, leb,
  if◌then◌else◌, Text, none, lookup, lookup_or, insert, ◌==◌, Option-cases, inl, inr, Bool-cases,
  ==→eq, ==-refl, ap, lookup_or_absent, lookup_or-insert,
}
use aletheia_onto.RateLimit.{RateLimiter, expire, fresh, is_allowed, remaining}
use aletheia_onto.RateLimit.Log.{
  count_recent, IsLog, expire-expire, expire-snoc, length-expire, IsLog-snoc, IsLog-later,
}

pub data Call : Type 0 where
  allow : Text → ℕ → Call
  peek : Text → ℕ → Call

pub data Answer : Type 0 where
  verdict : Bool → Answer
  left : ℕ → Answer

abbrev pub moment_of : Call → ℕ
moment_of (allow _ t) = t
moment_of (peek _ t) = t

-- The clock does not run backwards.
abbrev pub InOrder : ℕ → List Call → Type 0
InOrder now [] = Unit
InOrder now (c ∷ cs) = (now ≤ moment_of c) × InOrder (moment_of c) cs

-- The calls, one after the other, with the answers.
unfoldable pub run : RateLimiter → List Call → List Answer
run l [] = []
run l (allow key t ∷ cs) = let (l', ok) = is_allowed l key t in verdict ok ∷ run l' cs
run l (peek key t ∷ cs) = let (l', n) = remaining l key t in left n ∷ run l' cs

-- The granted requests of one key, oldest first.
unfoldable pub moments : Text → List (Text × ℕ) → List ℕ
moments key [] = []
moments key ((k, t) ∷ history) =
    let rest = moments key history in if key == k then t ∷ rest else rest

module _ (limit window : ℕ) where
  unfoldable pub used : List (Text × ℕ) → Text → ℕ → ℕ
  used history key t = count_recent window t (moments key history)

  unfoldable pub grant : List (Text × ℕ) → Text → ℕ → List (Text × ℕ)
  grant history key t = if ltb (used history key t) limit then history ++ (key, t) ∷ [] else history

  -- The ideal limiter: a request passes exactly if fewer than `limit` granted requests of its key
  -- are still inside the window.
  unfoldable pub ideal : List (Text × ℕ) → List Call → List Answer
  ideal history [] = []
  ideal history (allow key t ∷ cs) =
      verdict (ltb (used history key t) limit) ∷ ideal (grant history key t) cs
  ideal history (peek key t ∷ cs) = left (limit - used history key t) ∷ ideal history cs

  unfoldable pub granted : List (Text × ℕ) → List Call → List (Text × ℕ)
  granted history [] = history
  granted history (allow key t ∷ cs) = granted (grant history key t) cs
  granted history (peek key t ∷ cs) = granted history cs

  -- What the limiter holds for a key is the part of the history that an earlier moment kept.
  pub record Tracks (l : RateLimiter) (history : List (Text × ℕ)) (now : ℕ) : Type 0 where
    pub same_limit : l.max_requests ≡ limit
    pub same_window : l.window ≡ window
    pub ordered : (key : Text) → IsLog now (moments key history)
    pub held :
        (key : Text)
        → (seen : ℕ) × (seen ≤ now)
          × (lookup_or [] key l.hits ≡ expire window seen (moments key history))

pub moments-snoc :
    (key k : Text) (t : ℕ) (history : List (Text × ℕ))
    → moments key (history ++ (k, t) ∷ [])
      ≡ (if key == k then moments key history ++ t ∷ [] else moments key history)
unfolding moments
moments-snoc key k t [] = ground arith
moments-snoc key k t (e ∷ history) = ground (arith, moments-snoc key k t history)

module _ (limit window : ℕ) (positive : 0 < window) (l : RateLimiter) (history : List (Text × ℕ))
    (now : ℕ) (tr : Tracks limit window l history now) (key : Text) (t : ℕ) (later : now ≤ t) where
  fresh-moments : fresh l key t ≡ expire window t (moments key history)
  unfolding fresh
  fresh-moments =
      let (seen, le, e) = tr.held key in
      rw (tr.same_window, e) (expire-expire window seen t (moments key history) (omega arith))

  length-fresh : length (fresh l key t) ≡ used limit window history key t
  unfolding used
  length-fresh =
      rw fresh-moments (length-expire window now t (moments key history) (tr.ordered key))

  pub is_allowed_verdict : (is_allowed l key t).1 ≡ ltb (used limit window history key t) limit
  unfolding is_allowed
  is_allowed_verdict = ground (arith, length-fresh, tr.same_limit)

  fresh_absent : lookup key l.hits ≡ none → fresh l key t ≡ []
  unfolding fresh expire
  fresh_absent e = rw (lookup_or_absent [] key l.hits e)

  remaining_answer : (remaining l key t).1 ≡ limit - used limit window history key t
  unfolding remaining
  remaining_answer = elim (Option-cases (lookup key l.hits)) [
    | inl e ↦ rw (e, remaining) (omega (arith, ap length (fresh_absent e), length-fresh))
    | inr (hits, e) ↦ rw (e, remaining) (omega (arith, length-fresh))
  ]

  -- What the two operations leave behind: the refreshed log of the key, and the rest as it was.
  module _ (kept : List ℕ) (history' : List (Text × ℕ)) where
    stored-Tracks :
        ((k : Text) → IsLog t (moments k history'))
        → kept ≡ expire window t (moments key history')
        → ((k : Text) → (k == key) ≡ false → moments k history' ≡ moments k history)
        → Tracks limit window (record l { hits = insert key kept l.hits }) history' t
    stored-Tracks ordered e others = record {
      same_limit = tr.same_limit;
      same_window = tr.same_window;
      ordered = ordered;
      held = λ k. elim (Bool-cases (k == key)) [
        | inl same ↦ (
          t,
          omega arith,
          let eq : k ≡ key = ==→eq k key same in
              rw (lookup_or-insert [] k key kept l.hits, same, eq) e,
        )
        | inr other ↦
            let (seen, le, h) = tr.held k in
            (seen, omega arith, rw (lookup_or-insert [] k key kept l.hits, other, others k other) h)
      ];
    }

  later-IsLog : (k : Text) → IsLog t (moments k history)
  later-IsLog k = IsLog-later now t (moments k history) later (tr.ordered k)

  snoc-IsLog : (k : Text) → IsLog t (moments k (history ++ (key, t) ∷ []))
  snoc-IsLog k = elim (Bool-cases (k == key)) [
    | inl same ↦
        rw (moments-snoc k key t history, same)
          (IsLog-snoc now t (moments k history) later (tr.ordered k))
    | inr other ↦ rw (moments-snoc k key t history, other) (later-IsLog k)
  ]

  kept-snoc : fresh l key t ++ t ∷ [] ≡ expire window t (moments key (history ++ (key, t) ∷ []))
  kept-snoc =
      rw (moments-snoc key key t history, ==-refl key, fresh-moments)
        (sym (expire-snoc window t (moments key history) positive))

  pub is_allowed-Tracks :
      Tracks limit window (is_allowed l key t).0 (grant limit window history key t) t
  unfolding is_allowed grant
  is_allowed-Tracks = elim (Bool-cases (ltb (used limit window history key t) limit)) [
    | inl room ↦
        let e : leb l.max_requests (length (fresh l key t)) ≡ false =
          ground (arith, length-fresh, tr.same_limit) in
        rw (room, e)
          (stored-Tracks (fresh l key t ++ t ∷ []) (history ++ (key, t) ∷ []) snoc-IsLog kept-snoc
            (λ k other. rw (moments-snoc k key t history, other)))
    | inr full ↦
        let e : leb l.max_requests (length (fresh l key t)) ≡ true =
          ground (arith, length-fresh, tr.same_limit) in
        rw (full, e)
          (stored-Tracks (fresh l key t) history later-IsLog fresh-moments (λ k other. refl))
  ]

  later-Tracks : Tracks limit window l history t
  later-Tracks = record {
    same_limit = tr.same_limit;
    same_window = tr.same_window;
    ordered = later-IsLog;
    held = λ k. let (seen, le, h) = tr.held k in (seen, omega arith, h);
  }

  pub remaining-Tracks : Tracks limit window (remaining l key t).0 history t
  unfolding remaining
  remaining-Tracks = elim (Option-cases (lookup key l.hits)) [
    | inl e ↦ rw (e, remaining) later-Tracks
    | inr (hits, e) ↦
        rw (e, remaining)
          (stored-Tracks (fresh l key t) history later-IsLog fresh-moments (λ k other. refl))
  ]

module _ (limit window : ℕ) (positive : 0 < window) where
  -- For a positive window, from any state that agrees with a history of granted requests, and for
  -- calls whose moments do not decrease, every answer of `is_allowed` and of `remaining` is that of
  -- the ideal limiter, which counts the granted requests of the key inside the window.
  pub run-ideal :
      (calls : List Call) {l : RateLimiter} {history : List (Text × ℕ)} (now : ℕ)
      → Tracks limit window l history now
      → InOrder now calls
      → run l calls ≡ ideal limit window history calls
  unfolding run ideal
  run-ideal [] now tr o = refl
  run-ideal (allow key t ∷ cs) {l} {history} now tr o =
      rw (is_allowed_verdict limit window positive l history now tr key t o.0) (
        ap (◌∷◌ (verdict (ltb (used limit window history key t) limit)))
          (run-ideal cs t (is_allowed-Tracks limit window positive l history now tr key t o.0) o.1))
  run-ideal (peek key t ∷ cs) {l} {history} now tr o =
      rw (remaining_answer limit window positive l history now tr key t o.0) (
        ap (◌∷◌ (left (limit - used limit window history key t)))
          (run-ideal cs t (remaining-Tracks limit window positive l history now tr key t o.0) o.1))

module _ (limit window : ℕ) where
  -- A new limiter: `__init__`.
  unfoldable pub start : RateLimiter
  start = record { max_requests = limit; window = window; hits = [] }

  pub start-Tracks : (now : ℕ) → Tracks limit window start [] now
  unfolding start moments expire
  start-Tracks now = record {
    same_limit = refl;
    same_window = refl;
    ordered = λ k. tt;
    held = λ k. (now, omega arith, refl);
  }
