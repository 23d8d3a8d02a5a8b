-- ===== src/Kernel/Verdict/Ordered.antt =====
-- The verdict of backend/ontology_platform/semantic_kernel.py does not depend on the order in which
-- the rules are stored: rules that pass are approved, a blocking rule that does not pass blocks.
use mathlib.Core.Logic.{∥∥₁_elim}
use mathlib.Core.List.{Mem, eq-or-mem_of_mem-cons, not-mem-nil}
use mathlib.Core.List.Perm
use aletheia_onto.Base.{
  ℕ, Text, is_set, length, ◌≡◌, ◌<◌, refl, ap, subst, List, [], ◌∷◌, Bool, true, false, not, ◌&&◌,
  Option, none, arith, keep, any, contains, if◌then◌else◌, All, Bool-cases, inl, inr, ◌==◌, ==→eq,
}
use aletheia_onto.Model.{BusinessRule}
use aletheia_onto.Kernel.Order.{codes, pending, is_empty, order_rules_by_dependency}
use aletheia_onto.Kernel.Order.Respect.{Respects, order_from-All, order_rules_by_dependency-Perm}
use aletheia_onto.Kernel.Order.Acyclic.{order_rules_by_dependency-Respects}
use aletheia_onto.Kernel.Verdict.{
  approved, blocked, is_blocking, unsatisfied_dependencies, decision_passed, assess_rule,
  assess_rules, decision_from_results, failed_results, assess,
}
use aletheia_onto.Kernel.Verdict.Approved.{Clean, approved_iff}

module _ (evaluate : BusinessRule → Bool × Option Text) where
  -- A rule that passes, with dependencies that are codes of the rules and of smaller rank.
  abbrev pub Sound : (Text → ℕ) → List Text → BusinessRule → Type 0
  Sound rank known rule =
      (evaluate rule ≡ (true, none))
      × All (λ c. (rank c < rank rule.code) × (contains c known ≡ true)) rule.depends_on

  deps_placed :
      (rank : Text → ℕ) (known placed : List Text) (code : Text) (deps : List Text)
      → All (λ c. (rank c < rank code) × (contains c known ≡ true)) deps
      → is_empty (keep (λ c. contains c known && (not (contains c placed) && not (c == code))) deps)
        ≡ true
      → All (λ c. is_set c ≡ true → contains c placed ≡ true) deps
  deps_placed rank known placed code [] a h = tt
  deps_placed rank known placed code (d ∷ deps) a h =
      let (lt, k) = a.0 in
      elim (Bool-cases (d == code)) [
        | inl e ↦ absurd (let same = ap rank (==→eq d code e) in omega arith)
        | inr e ↦ elim (Bool-cases (contains d placed)) [
          | inl f ↦ (λ s. f, deps_placed rank known placed code deps a.1 (rw (k, f) at h))
          | inr f ↦ absurd (ground (arith, e, f, k, h))
        ]
      ]

  Respects→Clean :
      (rank : Text → ℕ) (known placed : List Text) (rules : List BusinessRule)
      → All (Sound rank known) rules
      → Respects known placed rules
      → Clean evaluate placed rules
  unfolding pending
  Respects→Clean rank known placed [] a r = tt
  Respects→Clean rank known placed (rule ∷ rules) a r =
      let (passes, deps) = a.0 in
      (
        passes,
        deps_placed rank known placed rule.code rule.depends_on deps r.0,
        Respects→Clean rank known (rule.code ∷ placed) rules a.1 r.1,
      )

  dep_ranks :
      (rank : Text → ℕ) (known : List Text) (n : ℕ) (deps : List Text)
      → All (λ c. (rank c < n) × (contains c known ≡ true)) deps
      → All (λ c. rank c < n) deps
  dep_ranks rank known n [] a = tt
  dep_ranks rank known n (d ∷ deps) a = let (lt, k) = a.0 in (lt, dep_ranks rank known n deps a.1)

  Sound-Ranked :
      (rank : Text → ℕ) (known : List Text) (rules : List BusinessRule)
      → All (Sound rank known) rules
      → All (λ rule. All (λ c. rank c < rank rule.code) rule.depends_on) rules
  Sound-Ranked rank known [] a = tt
  Sound-Ranked rank known (rule ∷ rules) a =
      let (passes, deps) = a.0 in
      (
        dep_ranks rank known (rank rule.code) rule.depends_on deps,
        Sound-Ranked rank known rules a.1,
      )

  -- An instance whose rules all pass in the sandbox is approved, in whatever order the rules are
  -- stored, when the dependencies have no cycle and are codes of these rules.
  pub assess-approved :
      (rank : Text → ℕ) (rules : List BusinessRule)
      → All (Sound rank (codes rules)) rules
      → (assess evaluate rules).status ≡ approved
  unfolding order_rules_by_dependency
  assess-approved rank rules sound =
      let ordered = order_rules_by_dependency rules in
      (approved_iff evaluate rules).1 (
        Respects→Clean rank (codes rules) [] ordered
          (order_from-All (Sound rank (codes rules)) (codes rules) (length rules) rules [] sound)
          (order_rules_by_dependency-Respects rank rules
            (Sound-Ranked rank (codes rules) rules sound)))

  is_prop : (b : Bool) → IsProp (b ≡ true)
  is_prop b = hlevel

  here :
      (rule : BusinessRule) (rules : List BusinessRule) (satisfied : List Text)
      → is_blocking rule.severity ≡ true
      → decision_passed (evaluate rule) ≡ false
      → any
          (λ r. is_blocking r.severity)
          (failed_results (assess_rules evaluate satisfied (rule ∷ rules)))
        ≡ true
  unfolding assess_rules assess_rule
  here rule rules satisfied severe fails =
      elim (Bool-cases (is_empty (unsatisfied_dependencies rule satisfied))) [
        | inl e ↦ rw (e, fails, severe) refl
        | inr e ↦ rw (e, severe) refl
      ]

  further :
      (rule : BusinessRule) (rules : List BusinessRule) (satisfied : List Text)
      → (let result = assess_rule evaluate satisfied rule in
          any
            (λ r. is_blocking r.severity)
            (failed_results (
              assess_rules evaluate
                (if result.passed then rule.code ∷ satisfied else satisfied)
                rules))
          ≡ true)
      → any
          (λ r. is_blocking r.severity)
          (failed_results (assess_rules evaluate satisfied (rule ∷ rules)))
        ≡ true
  unfolding assess_rules
  further rule rules satisfied h = ground (arith, h)

  blocking_failed :
      (rule : BusinessRule) (rules : List BusinessRule) (satisfied : List Text)
      → is_blocking rule.severity ≡ true
      → decision_passed (evaluate rule) ≡ false
      → Mem rule rules
      → any (λ r. is_blocking r.severity) (failed_results (assess_rules evaluate satisfied rules))
        ≡ true
  unfolding assess_rules assess_rule
  blocking_failed rule [] satisfied severe fails m = absurd (not-mem-nil m)
  blocking_failed rule (r ∷ rules) satisfied severe fails m =
      ∥∥₁_elim
        {P = any (λ x. is_blocking x.severity)
            (failed_results (assess_rules evaluate satisfied (r ∷ rules)))
          ≡ true}
        (eq-or-mem_of_mem-cons m)
        (is_prop (
          any (λ x. is_blocking x.severity)
            (failed_results (assess_rules evaluate satisfied (r ∷ rules)))))
        (λ c. elim c [
          | inl e ↦
              here r rules satisfied (subst (λ x. is_blocking x.severity ≡ true) e severe)
                (subst (λ x. decision_passed (evaluate x) ≡ false) e fails)
          | inr n ↦
              let result = assess_rule evaluate satisfied r in
              further r rules satisfied (
                blocking_failed rule rules (if result.passed then r.code ∷ satisfied else satisfied)
                  severe fails n)
        ])

  -- An instance with a blocking rule that the sandbox does not pass, or on which it raises, is
  -- blocked, wherever the rule stands and whatever the other rules are.
  pub assess_blocked :
      (rule : BusinessRule) (rules : List BusinessRule)
      → Mem rule rules
      → is_blocking rule.severity ≡ true
      → decision_passed (evaluate rule) ≡ false
      → (assess evaluate rules).status ≡ blocked
  unfolding assess decision_from_results
  assess_blocked rule rules m severe fails =
      let here = (Perm.mem_iff (order_rules_by_dependency-Perm rules)).0 m in
      ground (arith, blocking_failed rule (order_rules_by_dependency rules) [] severe fails here)
