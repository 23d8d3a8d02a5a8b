-- ===== src/Tests/Traffic.antt =====
-- Examples for rate_limiter.py, access_policy.py, pagination.py, cache.py and connection_pool.py of
-- backend/ontology_platform.
use aletheia_onto.Base.{
  ℕ, ◌+◌, ◌*◌, ◌/◌, ◌≤◌, ◌≡◌, refl, Bool, true, false, none, some, List, [], ◌∷◌, ◌++◌, drop, arith,
  Text, All, ltb, if◌then◌else◌, ◌⊎◌,
}
use aletheia_onto.RateLimit.{RateLimiter, fresh, expire, is_allowed, retry_after}
use aletheia_onto.RateLimit.Log.{count_inside}
use aletheia_onto.RateLimit.Window.{
  moments, Call, allow, peek, run, ideal, start, start-Tracks, run-ideal,
}
use aletheia_onto.RateLimit.Bound.{passed, start_bounded}
use aletheia_onto.RateLimit.Retry.{refused_then_allowed}
use aletheia_onto.Policy.{
  Route, codes, slash, Rule, cap_admin, cap_write, applies, required_capability,
  strip_version_prefix, strip_from, strip_one, after_prefix, normalize, strip_or_root,
  strip_slashes, same_route,
}
use aletheia_onto.Policy.Match.{FirstAt, required_capability_cases}
use aletheia_onto.Policy.Prefix.{IsBare}
use aletheia_onto.Middleware.{Middleware, Clock, consult, decide, is_authentication, decide-prefix}
use aletheia_onto.Page.{selects, resolve_cursor, bounds_of, present, min_of, cursor_block}
use aletheia_onto.Page.Walk.{walk, walk-drop}
use aletheia_onto.Page.Keyset.{matching, next_page}
use aletheia_onto.Cache.{SimpleCache, get, set}
use aletheia_onto.Cache.Invariant.{IsValid}
use aletheia_onto.Cache.Reads.{get-set}
use aletheia_onto.Pool.{ConnectionPool}
use aletheia_onto.Pool.Keyed.{Keeps}

abbrev calls : List Call
calls = allow 7 1 ∷ allow 7 2 ∷ allow 7 3 ∷ peek 7 3 ∷ allow 7 12 ∷ []

run-ideal_example : run (start 2 10) calls ≡ ideal 2 10 [] calls
run-ideal_example =
    run-ideal 2 10 (omega arith) calls 0 (start-Tracks 2 10 0)
      (omega arith, (omega arith, (omega arith, (omega arith, (omega arith, tt)))))

start_bounded_example : count_inside 10 3 (moments 7 (passed (start 2 10) calls)) ≤ 2
start_bounded_example =
    start_bounded 2 10 (omega arith) 7 3 0 calls
      (omega arith, (omega arith, (omega arith, (omega arith, (omega arith, tt)))))

abbrev busy : RateLimiter
busy = record { max_requests = 2; window = 100; hits = (7, 10 ∷ 20 ∷ []) ∷ [] }

refused_then_allowed_example :
    (is_allowed
      (is_allowed busy 7 30).0
      7
      (30 + retry_after 10 (is_allowed busy 7 30).0 7 30 * 10)).1
    ≡ true
unfolding is_allowed fresh expire
refused_then_allowed_example =
    refused_then_allowed 10 (omega arith) busy 7 30 (omega arith)
      (record { bounded = omega arith; past = (omega arith, (omega arith, tt)) }) refl

abbrev write_rule : Rule
write_rule = record { methods = 1 ∷ []; pattern = 5; capability = cap_write; description = 0 }

-- A pattern that fits every path.
abbrev every : Text → Route → Bool
every pattern q = true

required_capability_cases_example :
    (All (λ r. applies every 1 (normalize (codes "/rules")) r ≡ false) (write_rule ∷ [])
      × (required_capability every [] (write_rule ∷ []) 1 (codes "/rules") ≡ cap_admin))
    ⊎ ((rule : Rule) × FirstAt (applies every 1 (normalize (codes "/rules"))) (write_rule ∷ []) rule
        × (required_capability every [] (write_rule ∷ []) 1 (codes "/rules") ≡ rule.capability))
required_capability_cases_example =
    required_capability_cases every [] (write_rule ∷ []) 1 (codes "/rules")

abbrev rules_path : Route
rules_path = codes "rules"

rules-IsBare : IsBare (slash ∷ rules_path)
unfolding strip_version_prefix strip_from strip_one after_prefix
rules-IsBare = refl

abbrev five : List ℕ
five = 5 ∷ 4 ∷ 3 ∷ 2 ∷ 1 ∷ []

walk-drop_example : walk 5 five 2 1 ≡ some (drop 1 five)
walk-drop_example = walk-drop 4 five 2 1 (omega arith) (omega arith)

next_page_example : matching (some 4) ((9 ∷ 8 ∷ []) ++ five) ≡ drop 2 five
unfolding selects resolve_cursor cursor_block bounds_of present min_of
next_page_example =
    next_page five (9 ∷ 8 ∷ []) 1 6 5 4 (4 ∷ 3 ∷ 2 ∷ 1 ∷ []) refl
      (
        (omega arith, (omega arith, (omega arith, (omega arith, tt)))),
        (
          (omega arith, (omega arith, (omega arith, tt))),
          ((omega arith, (omega arith, tt)), ((omega arith, tt), (tt, tt))),
        ),
      )
      refl (omega arith, (omega arith, tt))

abbrev small : SimpleCache ℕ
small = record {
  max_size = 2;
  default_ttl = 10;
  entries =
      (1, record { timestamp = 0; value = 11 }) ∷ (2, record { timestamp = 0; value = 22 }) ∷ [];
}

small-IsValid : IsValid small
small-IsValid = record { distinct = (refl, (refl, tt)); bounded = omega arith }

get-set_example : (get (set small 1 33 none 5) 1 14).1 ≡ (if ltb 14 (5 + 10) then some 33 else none)
get-set_example = get-set small 1 33 none 5 small-IsValid 14 (omega arith)

abbrev login_path : Route
login_path = codes "auth/login"

login-IsBare : IsBare (slash ∷ login_path)
unfolding strip_version_prefix strip_from strip_one after_prefix
login-IsBare = refl

abbrev strict : Middleware
strict = record {
  general = record { max_requests = 60; window = 60; hits = [] };
  authentication = record { max_requests = 1; window = 60; hits = [] };
}

abbrev clock : Clock
clock = record { first = 1; second = 1; third = 1 }

-- The key of a client's logins.
abbrev login_key : Text → Text
login_key client = client + 1000

decide-prefix_example :
    let (l, d) = consult 1 login_key strict.authentication 1007 clock in
    (decide 1 login_key strict (slash ∷ login_path) 7 clock
      ≡ (record strict { authentication = l }, d))
    × (decide 1 login_key strict (codes "/v1" ++ slash ∷ login_path) 7 clock
        ≡ (record strict { authentication = l }, d))
    × (decide 1 login_key strict (codes "/api" ++ slash ∷ login_path) 7 clock
        ≡ (record strict { authentication = l }, d))
unfolding is_authentication normalize strip_or_root strip_slashes strip_version_prefix strip_from
    strip_one after_prefix same_route
decide-prefix_example =
    decide-prefix 1 login_key strict login_path 7 clock login-IsBare refl (omega arith)

-- Connections are numbered, and `n` was opened for the key `n / 10`.
abbrev OpenedFor : ℕ → Text → Type 0
OpenedFor conn key = conn / 10 ≡ key

abbrev pool : ConnectionPool ℕ
pool = record { size = 2; idle = []; opened = 0; reused = 0; closed = [] }

pool-Keeps : Keeps OpenedFor pool
pool-Keeps = record { kept = λ key. tt; capped = λ key. omega arith }

abbrev healthy : ℕ → Bool
healthy conn = true
