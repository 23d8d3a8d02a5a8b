-- ===== src/RateLimit/Bound.antt =====
-- No window holds more granted requests of a key than the limit: `RateLimiter.is_allowed` of
-- backend/ontology_platform/rate_limiter.py.
use aletheia_onto.Base.{
  ℕ, ◌≤◌, ◌<◌, ◌≡◌, refl, sym, ◌∙◌, ap, subst, true, false, List, [], ◌∷◌, ◌++◌, arith, ltb, Text,
  ◌==◌, if◌then◌else◌, inl, inr, Bool-cases, ltb→lt, ==→eq,
}
use aletheia_onto.RateLimit.{RateLimiter, is_allowed, remaining}
use aletheia_onto.RateLimit.Log.{count_inside, inside-snoc_bound}
use aletheia_onto.RateLimit.Window.{
  Call, allow, peek, InOrder, moments, used, grant, granted, moments-snoc, Tracks,
  is_allowed_verdict, is_allowed-Tracks, remaining-Tracks, start, start-Tracks,
}

module _ (limit window : ℕ) (key : Text) (t : ℕ) where
  abbrev IsBounded : List (Text × ℕ) → Type 0
  IsBounded history = count_inside window t (moments key history) ≤ limit

  grant-IsBounded :
      (k : Text) (s : ℕ) (history : List (Text × ℕ))
      → IsBounded history
      → IsBounded (grant limit window history k s)
  unfolding grant used
  grant-IsBounded k s history h = elim (Bool-cases (ltb (used limit window history k s) limit)) [
    | inr full ↦ rw full h
    | inl room ↦ elim (Bool-cases (key == k)) [
      | inl same ↦
          rw (room, moments-snoc key k s history, same)
            (inside-snoc_bound window limit t s (moments key history)
              (rw (==→eq key k same) (ltb→lt _ _ room)) h)
      | inr other ↦ rw (room, moments-snoc key k s history, other) h
    ]
  ]

  granted-IsBounded :
      (calls : List Call) (history : List (Text × ℕ))
      → IsBounded history
      → IsBounded (granted limit window history calls)
  unfolding granted
  granted-IsBounded [] history h = h
  granted-IsBounded (allow k s ∷ cs) history h =
      granted-IsBounded cs (grant limit window history k s) (grant-IsBounded k s history h)
  granted-IsBounded (peek k s ∷ cs) history h = granted-IsBounded cs history h

-- The requests that the limiter lets pass, in their order.
unfoldable pub passed : RateLimiter → List Call → List (Text × ℕ)
passed l [] = []
passed l (allow key t ∷ cs) =
    let rest = passed (is_allowed l key t).0 cs in
    if (is_allowed l key t).1 then (key, t) ∷ rest else rest
passed l (peek key t ∷ cs) = passed (remaining l key t).0 cs

snoc-append :
    (history : List (Text × ℕ)) (e : Text × ℕ) (rest : List (Text × ℕ))
    → (history ++ e ∷ []) ++ rest ≡ history ++ e ∷ rest
snoc-append [] e rest = refl
snoc-append (x ∷ history) e rest = ap (◌∷◌ x) (snoc-append history e rest)

append_none : (history : List (Text × ℕ)) → history ++ [] ≡ history
append_none [] = refl
append_none (x ∷ history) = ap (◌∷◌ x) (append_none history)

module _ (limit window : ℕ) (positive : 0 < window) where
  -- What the limiter lets pass is what the ideal one grants.
  passed-granted :
      (calls : List Call) (l : RateLimiter) (history : List (Text × ℕ)) (now : ℕ)
      → Tracks limit window l history now
      → InOrder now calls
      → history ++ passed l calls ≡ granted limit window history calls
  unfolding passed granted
  passed-granted [] l history now tr o = append_none history
  passed-granted (allow key t ∷ cs) l history now tr o =
      let same = is_allowed_verdict limit window positive l history now tr key t o.0 in
      let ih =
        passed-granted cs (is_allowed l key t).0 (grant limit window history key t) t
          (is_allowed-Tracks limit window positive l history now tr key t o.0) o.1 in
      elim (Bool-cases (ltb (used limit window history key t) limit)) [
        | inl room ↦
            let grown : grant limit window history key t ≡ history ++ (key, t) ∷ [] =
              unfold grant in rw room refl in
            let here : (is_allowed l key t).1 ≡ true = same ∙ room in
            rw here (
              sym (snoc-append history (key, t) (passed (is_allowed l key t).0 cs))
              ∙ (ap (λ h. h ++ passed (is_allowed l key t).0 cs) (sym grown) ∙ ih))
        | inr full ↦
            let kept : grant limit window history key t ≡ history = unfold grant in rw full refl in
            let here : (is_allowed l key t).1 ≡ false = same ∙ full in
            rw here (ap (λ h. h ++ passed (is_allowed l key t).0 cs) (sym kept) ∙ ih)
      ]
  passed-granted (peek key t ∷ cs) l history now tr o =
      passed-granted cs (remaining l key t).0 history t
        (remaining-Tracks limit window positive l history now tr key t o.0) o.1

  -- From a new limiter with a positive window, and for calls of `is_allowed` and `remaining` whose
  -- moments do not decrease, every window that ends at any moment `t` holds at most `limit` of the
  -- requests of a key that `is_allowed` let pass.
  pub start_bounded :
      (key : Text) (t now : ℕ) (calls : List Call)
      → InOrder now calls
      → count_inside window t (moments key (passed (start limit window) calls)) ≤ limit
  start_bounded key t now calls o =
      subst (λ h. count_inside window t (moments key h) ≤ limit)
        (sym (passed-granted calls (start limit window) [] now (start-Tracks limit window now) o))
        (granted-IsBounded limit window key t calls [] nothing)
    where
      nothing : count_inside window t (moments key []) ≤ limit
      nothing = unfold moments count_inside in omega arith
