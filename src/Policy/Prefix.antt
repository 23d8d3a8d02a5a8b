-- ===== src/Policy/Prefix.antt =====
-- A transport prefix does not change what a path needs: `strip_version_prefix` and `is_public` of
-- backend/ontology_platform/access_policy.py.
use aletheia_onto.Base.{◌≡◌, ap, sym, ◌∙◌, refl, Bool, List, ◌∷◌, ◌++◌, Text, arith}
use aletheia_onto.Policy.{
  Route, codes, slash, strip_version_prefix, strip_from, strip_one, after_prefix, starts_with,
  same_route, strip_or_root, first_capability, normalize, is_listed, is_under, is_public, Rule,
  required_capability,
}

-- A path that carries no transport prefix.
abbrev pub IsBare : Route → Type 0
IsBare p = strip_version_prefix p ≡ p

strip-v1 : (p : Route) → strip_version_prefix (codes "/v1" ++ slash ∷ p) ≡ slash ∷ p
unfolding strip_version_prefix strip_from strip_one after_prefix
strip-v1 p = refl

strip-api : (p : Route) → strip_version_prefix (codes "/api" ++ slash ∷ p) ≡ slash ∷ p
unfolding strip_version_prefix strip_from strip_one after_prefix
strip-api p = refl

module _ (p : Route) (bare : IsBare (slash ∷ p)) where
  pub normalize-v1 : normalize (codes "/v1" ++ slash ∷ p) ≡ normalize (slash ∷ p)
  unfolding normalize
  normalize-v1 = ap strip_or_root (strip-v1 p ∙ sym bare)

  pub normalize-api : normalize (codes "/api" ++ slash ∷ p) ≡ normalize (slash ∷ p)
  unfolding normalize
  normalize-api = ap strip_or_root (strip-api p ∙ sym bare)

  -- A path that carries no transport prefix needs under `/v1` and under `/api` the capability that
  -- it needs without, whatever the rules and the pattern matcher are.
  pub required_capability-prefix :
      (matches : Text → Route → Bool) (plugin builtin : List Rule) (method : Text)
      → let needed = required_capability matches plugin builtin method in
        (needed (codes "/v1" ++ slash ∷ p) ≡ needed (slash ∷ p))
        × (needed (codes "/api" ++ slash ∷ p) ≡ needed (slash ∷ p))
  unfolding required_capability
  required_capability-prefix matches plugin builtin method =
      let f = first_capability matches (plugin ++ builtin) method in
      (ap f normalize-v1, ap f normalize-api)

  -- A path that carries no transport prefix is public under `/v1` or `/api` exactly if its bare
  -- form is listed: the paths of the browser shell are not.
  pub is_public-prefix :
      (is_public (codes "/v1" ++ slash ∷ p) ≡ is_listed (normalize (slash ∷ p)))
      × (is_public (codes "/api" ++ slash ∷ p) ≡ is_listed (normalize (slash ∷ p)))
  unfolding is_public is_under starts_with after_prefix same_route
  is_public-prefix = (ground (arith, normalize-v1), ground (arith, normalize-api))
