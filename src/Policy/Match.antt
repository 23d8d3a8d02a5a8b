-- ===== src/Policy/Match.antt =====
-- First match wins, and no match means admin: `required_capability` and `register_route_policy`
-- of backend/ontology_platform/access_policy.py.
use aletheia_onto.Base.{
  ◌≡◌, refl, Bool, true, false, List, [], ◌∷◌, ◌++◌, All, find, any, ◌⊎◌, inl, inr, none, some,
  Text, arith, Option-cases, Bool-cases, ap,
}
use aletheia_onto.Policy.{
  Route, normalize, Rule, cap_admin, applies, first_capability, required_capability, register,
  same_methods,
}

module _ {ℓ} {A : Type ℓ} (p : A → Bool) where
  -- The parts of a list that a successful search tells apart.
  pub record FirstAt (xs : List A) (x : A) : Type ℓ where
    pub before : List A
    pub after : List A
    pub splits : xs ≡ before ++ x ∷ after
    pub passed_over : All (λ y. p y ≡ false) before
    pub passes : p x ≡ true

  pub find-none : (xs : List A) → find p xs ≡ none → All (λ y. p y ≡ false) xs
  find-none [] e = tt
  find-none (x ∷ xs) e = elim (Bool-cases (p x)) [
    | inl hit ↦ absurd (ground arith)
    | inr miss ↦ (miss, find-none xs (ground arith))
  ]

  pub find-some : (xs : List A) (x : A) → find p xs ≡ some x → FirstAt xs x
  find-some [] x e = absurd (ground arith)
  find-some (y ∷ xs) x e = elim (Bool-cases (p y)) [
    | inl hit ↦ record {
      before = [];
      after = xs;
      splits = ground arith;
      passed_over = tt;
      passes = ground arith;
    }
    | inr miss ↦
        let rest = find-some xs x (ground arith) in
        record {
          before = y ∷ rest.before;
          after = rest.after;
          splits = ap (◌∷◌ y) rest.splits;
          passed_over = (miss, rest.passed_over);
          passes = rest.passes;
        }
  ]

  pub find-append : (xs ys : List A) → any p xs ≡ true → find p (xs ++ ys) ≡ find p (xs ++ [])
  find-append [] ys e = absurd (ground arith)
  find-append (x ∷ xs) ys e = ground (arith, find-append xs ys)

module _ (matches : Text → Route → Bool) (plugin builtin : List Rule) (method : Text)
    (p : Route) where
  -- Either no rule of the plugins or of the table applies and the request needs the admin
  -- capability, or the first rule that applies, plugins first, gives the capability.
  pub required_capability_cases :
      let rules = plugin ++ builtin in
      let test = applies matches method (normalize p) in
      let needed = required_capability matches plugin builtin method p in
      (All (λ r. test r ≡ false) rules × (needed ≡ cap_admin))
      ⊎ ((rule : Rule) × FirstAt test rules rule × (needed ≡ rule.capability))
  unfolding required_capability
  required_capability_cases =
      let test = applies matches method (normalize p) in
      elim (Option-cases (find test (plugin ++ builtin))) [
        | inl e ↦ inl (find-none test (plugin ++ builtin) e, rw (e, first_capability))
        | inr (rule, e) ↦
            inr (rule, find-some test (plugin ++ builtin) rule e, rw (e, first_capability))
      ]

  -- Where some rule of a plugin applies, the capability is the one that the plugins alone give: the
  -- built-in table has no say, also where it asks for more.
  pub plugin_decides :
      any (applies matches method (normalize p)) plugin ≡ true
      → required_capability matches plugin builtin method p
        ≡ required_capability matches plugin [] method p
  unfolding required_capability
  plugin_decides e =
      rw (first_capability, find-append (applies matches method (normalize p)) plugin builtin e)

same_methods_refl : (ms : List Text) → same_methods ms ms ≡ true
unfolding same_methods
same_methods_refl [] = refl
same_methods_refl (m ∷ ms) = ground (arith, same_methods_refl ms)

-- Registering a rule a second time changes nothing, whatever rules are registered.
pub register-register :
    (rule : Rule) (rules : List Rule) → register rule (register rule rules) ≡ register rule rules
unfolding register
register-register rule [] = ground (arith, same_methods_refl rule.methods)
register-register rule (r ∷ rules) =
    ground (arith, same_methods_refl rule.methods, register-register rule rules)
