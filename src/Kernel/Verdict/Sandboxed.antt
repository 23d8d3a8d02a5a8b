-- ===== src/Kernel/Verdict/Sandboxed.antt =====
-- The rule loop of backend/ontology_platform/semantic_kernel.py over the sandbox of
-- backend/ontology_platform/rule_sandbox.py.
use mathlib.Core.Logic.{∥∥₁_elim}
use mathlib.Core.List.{Mem, eq-or-mem_of_mem-cons, not-mem-nil}
use mathlib.Core.List.Perm
use aletheia_onto.Base.{
  ◌≡◌, sym, ap, subst, Bool, true, Option, none, some, List, [], ◌∷◌, arith, Text, Dict, inl, inr,
}
use aletheia_onto.Model.{BusinessRule}
use aletheia_onto.Kernel.Order.{order_rules_by_dependency}
use aletheia_onto.Kernel.Order.Respect.{order_rules_by_dependency-Perm}
use aletheia_onto.Kernel.Verdict.{approved, decision_passed, assess}
use aletheia_onto.Kernel.Verdict.Approved.{Clean, decision_passed_iff, approved_iff}
use aletheia_onto.Registry.{Registry}
use aletheia_onto.Sandbox.{SandboxError, Python, evaluate_rule_expression}
use aletheia_onto.Sandbox.Verdict.{Passes, evaluate_rule_expression_passes}

-- The text of an error, which `_describe_evaluation_failure` chooses.
abbrev pub described : (SandboxError → Text) → Bool × Option SandboxError → Bool × Option Text
described describe (passed, none) = (passed, none)
described describe (passed, some e) = (passed, some (describe e))

described-none :
    (describe : SandboxError → Text) (answer : Bool × Option SandboxError)
    → described describe answer ≡ (true, none)
    → answer ≡ (true, none)
described-none describe (passed, none) h = ap (λ (x : Bool × Option Text). (x.0, none)) h
described-none describe (passed, some e) h = absurd (ground (arith, h))

module _ (evaluate : BusinessRule → Bool × Option Text) where
  Clean-Mem :
      (rule : BusinessRule) (seen : List Text) (rules : List BusinessRule)
      → Clean evaluate seen rules
      → Mem rule rules
      → decision_passed (evaluate rule) ≡ true
  Clean-Mem rule seen [] c m = absurd (not-mem-nil m)
  Clean-Mem rule seen (r ∷ rules) c m =
      ∥∥₁_elim {P = decision_passed (evaluate rule) ≡ true} (eq-or-mem_of_mem-cons m)
        (is_prop (decision_passed (evaluate rule)))
        (λ o. elim o [
          | inl e ↦
              subst (λ x. decision_passed (evaluate x) ≡ true) (sym e) (ap decision_passed c.0)
          | inr n ↦ Clean-Mem rule (r.code ∷ seen) rules c.2 n
        ])
    where
      is_prop : (b : Bool) → IsProp (b ≡ true)
      is_prop b = hlevel

module _ {V : Type 0} (python : Python V) (r : Registry) (context : Dict V)
    (describe : SandboxError → Text) where
  -- The evaluation that `assess_instance` calls for each rule.
  abbrev pub sandboxed : BusinessRule → Bool × Option Text
  sandboxed rule = described describe (evaluate_rule_expression python r rule.expression context)

  -- If an instance is approved over the sandbox, then the expression of every one of its rules
  -- parses to a safe tree, and the evaluation of that tree in the instance's context returned a
  -- value that counts as true.
  pub approved_rules_pass :
      (rules : List BusinessRule) (rule : BusinessRule)
      → Mem rule rules
      → (assess sandboxed rules).status ≡ approved
      → Passes python r rule.expression context
  approved_rules_pass rules rule m h =
      let clean = (approved_iff sandboxed rules).0 h in
      let here = (Perm.mem_iff (order_rules_by_dependency-Perm rules)).0 m in
      let passed = Clean-Mem sandboxed rule [] (order_rules_by_dependency rules) clean here in
      let answer = evaluate_rule_expression python r rule.expression context in
      (evaluate_rule_expression_passes python r rule.expression context).0
        (described-none describe answer (decision_passed_iff sandboxed (sandboxed rule) passed))
