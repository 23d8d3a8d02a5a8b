-- ===== src/Kernel/Verdict/Approved.antt =====
-- When `_decision_from_results` of backend/ontology_platform/semantic_kernel.py approves an instance
-- and when it blocks it.
use aletheia_onto.Base.{
  Text, is_set, ◌≡◌, ◌↔◌, refl, List, [], ◌∷◌, Bool, true, false, not, ◌&&◌, Option, none, some,
  arith, keep, contains, All, Bool-cases, inl, inr,
}
use aletheia_onto.Model.{BusinessRule}
use aletheia_onto.Kernel.Order.{is_empty, order_rules_by_dependency}
use aletheia_onto.Kernel.Verdict.{
  RuleResult, approved, unsatisfied_dependencies, decision_passed, assess_rule, assess_rules,
  decision_from_results, failed_results, assess,
}

module _ (evaluate : BusinessRule → Bool × Option Text) where
  -- The sandbox passes every rule without an error, and the prerequisites of each are codes of
  -- rules before it.
  abbrev pub Clean : List Text → List BusinessRule → Type 0
  Clean seen [] = Unit
  Clean seen (rule ∷ rules) =
      (evaluate rule ≡ (true, none))
      × All (λ c. is_set c ≡ true → contains c seen ≡ true) rule.depends_on
      × Clean (rule.code ∷ seen) rules

  pub decision_passed_iff : (e : Bool × Option Text) → (decision_passed e ≡ true → e ≡ (true, none))
  decision_passed_iff (true, none) h = refl
  decision_passed_iff (false, none) h = absurd (ground arith)
  decision_passed_iff (p, some e) h = absurd (ground arith)

  All-satisfied :
      (deps seen : List Text)
      → is_empty (keep (λ c. is_set c && not (contains c seen)) deps) ≡ true
      → All (λ c. is_set c ≡ true → contains c seen ≡ true) deps
  All-satisfied [] seen h = tt
  All-satisfied (d ∷ deps) seen h = elim (Bool-cases (is_set d)) [
    | inr e ↦ (λ s. absurd (ground (arith, s, e)), All-satisfied deps seen (rw e at h))
    | inl e ↦ elim (Bool-cases (contains d seen)) [
      | inl f ↦ (λ s. f, All-satisfied deps seen (rw (e, f) at h))
      | inr f ↦ absurd (ground (arith, e, f, h))
    ]
  ]

  none_unsatisfied :
      (deps seen : List Text)
      → All (λ c. is_set c ≡ true → contains c seen ≡ true) deps
      → is_empty (keep (λ c. is_set c && not (contains c seen)) deps) ≡ true
  none_unsatisfied [] seen a = refl
  none_unsatisfied (d ∷ deps) seen a = elim (Bool-cases (is_set d)) [
    | inr e ↦ rw e (none_unsatisfied deps seen a.1)
    | inl e ↦ rw (e, a.0 e) (none_unsatisfied deps seen a.1)
  ]

  pub passed_only_if :
      (seen : List Text) (rule : BusinessRule)
      → (assess_rule evaluate seen rule).passed ≡ true
      → (evaluate rule ≡ (true, none))
        × All (λ c. is_set c ≡ true → contains c seen ≡ true) rule.depends_on
  unfolding assess_rule unsatisfied_dependencies
  passed_only_if seen rule h = elim (Bool-cases (is_empty (unsatisfied_dependencies rule seen))) [
    | inl e ↦
        (decision_passed_iff (evaluate rule) (rw e at h), All-satisfied rule.depends_on seen e)
    | inr e ↦ absurd (ground (arith, e, h))
  ]

  pub passed_if :
      (seen : List Text) (rule : BusinessRule)
      → evaluate rule ≡ (true, none)
      → All (λ c. is_set c ≡ true → contains c seen ≡ true) rule.depends_on
      → (assess_rule evaluate seen rule).passed ≡ true
  unfolding assess_rule unsatisfied_dependencies
  passed_if seen rule e a = rw (none_unsatisfied rule.depends_on seen a, e) refl

  pub none_failed→Clean :
      (seen : List Text) (rules : List BusinessRule)
      → is_empty (failed_results (assess_rules evaluate seen rules)) ≡ true
      → Clean seen rules
  unfolding assess_rules
  none_failed→Clean seen [] h = tt
  none_failed→Clean seen (rule ∷ rules) h =
      elim (Bool-cases (assess_rule evaluate seen rule).passed) [
        | inl e ↦
            let (ok_rule, ok_deps) = passed_only_if seen rule e in
            (ok_rule, ok_deps, none_failed→Clean (rule.code ∷ seen) rules (rw e at h))
        | inr e ↦ absurd (ground (arith, e, h))
      ]

  pub Clean→none_failed :
      (seen : List Text) (rules : List BusinessRule)
      → Clean seen rules
      → is_empty (failed_results (assess_rules evaluate seen rules)) ≡ true
  unfolding assess_rules
  Clean→none_failed seen [] c = refl
  Clean→none_failed seen (rule ∷ rules) c =
      let (passes, deps, rest) = c in
      rw (passed_if seen rule passes deps) (Clean→none_failed (rule.code ∷ seen) rules rest)

  pub approved→none_failed :
      (failed : List RuleResult)
      → (decision_from_results failed).status ≡ approved
      → is_empty failed ≡ true
  unfolding decision_from_results
  approved→none_failed failed h = ground arith

  pub none_failed→approved :
      (failed : List RuleResult)
      → is_empty failed ≡ true
      → (decision_from_results failed).status ≡ approved
  unfolding decision_from_results
  none_failed→approved failed h = ground arith

  -- An instance is approved exactly when the sandbox passes every rule without an error and each
  -- rule's prerequisites are among the rules evaluated before it; a rule that cannot be evaluated
  -- or whose prerequisite is missing keeps the instance from being approved.
  pub approved_iff :
      (rules : List BusinessRule)
      → ((assess evaluate rules).status ≡ approved) ↔ Clean [] (order_rules_by_dependency rules)
  unfolding assess
  approved_iff rules =
      let ordered = order_rules_by_dependency rules in
      let failed = failed_results (assess_rules evaluate [] ordered) in
      (
        λ h. none_failed→Clean [] ordered (approved→none_failed failed h),
        λ c. none_failed→approved failed (Clean→none_failed [] ordered c),
      )
