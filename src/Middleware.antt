-- ===== src/Middleware.antt =====
-- Which limiter a request meets: `RateLimitMiddleware.decide` of
-- backend/ontology_platform/rate_limiter.py. The three clock readings of one decision are
-- arguments, and `client:auth` is the function `auth_key`.
use aletheia_onto.Base.{
  ℕ, ◌<◌, ◌≡◌, sym, subst, ◌++◌, Bool, true, not, ◌&&◌, List, [], ◌∷◌, arith, ltb, if◌then◌else◌,
  Text, any,
}
use aletheia_onto.Policy.{Route, codes, slash, same_route, normalize, is_public}
use aletheia_onto.Policy.Prefix.{IsBare, normalize-v1, normalize-api}
use aletheia_onto.RateLimit.{RateLimiter, is_allowed, remaining, retry_after}

abbrev pub authentication_paths : List Route
authentication_paths = codes "/auth/login" ∷ codes "/auth/sso/login" ∷ []

pub record Middleware : Type 0 where
  pub general : RateLimiter
  pub authentication : RateLimiter

pub record RateLimitDecision : Type 0 where
  pub allowed : Bool
  pub limit : ℕ
  pub remaining : ℕ
  pub retry_after : ℕ

abbrev pub pass : RateLimitDecision
pass = record { allowed = true; limit = 0; remaining = 0; retry_after = 0 }

unfoldable pub is_authentication : Route → Bool
is_authentication p = any (same_route (normalize p)) authentication_paths

-- The clock readings of `is_allowed`, `remaining` and `retry_after`.
pub record Clock : Type 0 where
  pub first : ℕ
  pub second : ℕ
  pub third : ℕ

module _ (tick : ℕ) (auth_key : Text → Text) where
  -- The last statement of `decide`, with the limiter as it is afterwards.
  unfoldable pub consult : RateLimiter → Text → Clock → RateLimiter × RateLimitDecision
  consult l key clock =
      let (l', allowed) = is_allowed l key clock.first in
      let (l'', left) = remaining l' key clock.second in
      (
        l'',
        record {
          allowed = allowed;
          limit = l.max_requests;
          remaining = left;
          retry_after = if allowed then 0 else retry_after tick l'' key clock.third;
        },
      )

  unfoldable pub decide : Middleware → Route → Text → Clock → Middleware × RateLimitDecision
  decide m p client clock =
      if is_authentication p && ltb 0 m.authentication.max_requests
      then (let (l, d) = consult m.authentication (auth_key client) clock in
          (record m { authentication = l }, d))
      else (if ltb 0 m.general.max_requests && not (is_public p)
          then (let (l, d) = consult m.general client clock in (record m { general = l }, d))
          else (m, pass))

  login_meets_authentication :
      (m : Middleware) (p : Route) (client : Text) (clock : Clock)
      → is_authentication p ≡ true
      → 0 < m.authentication.max_requests
      → let (l, d) = consult m.authentication (auth_key client) clock in
        decide m p client clock ≡ (record m { authentication = l }, d)
  unfolding decide
  login_meets_authentication m p client clock e pos = ground arith

  -- The login limit cannot be avoided by the spelling of the path: while it is set, a login path
  -- under the prefix `/v1` or `/api` is decided as the bare path is, by the login limiter.
  pub decide-prefix :
      (m : Middleware) (p : Route) (client : Text) (clock : Clock)
      → IsBare (slash ∷ p)
      → is_authentication (slash ∷ p) ≡ true
      → 0 < m.authentication.max_requests
      → let (l, d) = consult m.authentication (auth_key client) clock in
        (decide m (slash ∷ p) client clock ≡ (record m { authentication = l }, d))
        × (decide m (codes "/v1" ++ slash ∷ p) client clock ≡ (record m { authentication = l }, d))
        × (decide m (codes "/api" ++ slash ∷ p) client clock ≡ (record m { authentication = l }, d))
  unfolding is_authentication
  decide-prefix m p client clock bare login set =
      let listed = λ (q : Route). any (same_route q) authentication_paths ≡ true in
      (
        login_meets_authentication m (slash ∷ p) client clock login set,
        login_meets_authentication m (codes "/v1" ++ slash ∷ p) client clock
            (subst listed (sym (normalize-v1 p bare)) login) set,
        login_meets_authentication m (codes "/api" ++ slash ∷ p) client clock
            (subst listed (sym (normalize-api p bare)) login) set,
      )
