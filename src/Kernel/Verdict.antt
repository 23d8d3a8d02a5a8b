-- ===== src/Kernel/Verdict.antt =====
-- The rule loop of `assess_instance` of backend/ontology_platform/semantic_kernel.py, with
-- `_unsatisfied_dependencies` and `_decision_from_results`.
pub mod Approved
pub mod Ordered
pub mod Sandboxed
use aletheia_onto.Base.{
  ℕ, Text, is_set, List, [], ◌∷◌, Bool, true, false, not, ◌&&◌, Option, none, some, keep, any,
  contains, if◌then◌else◌,
}
use aletheia_onto.Model.{BusinessRule, Severity, info, warning, blocking}
use aletheia_onto.Kernel.Order.{is_empty, order_rules_by_dependency}

-- Why a rule was not evaluated to a verdict: the prerequisites that did not pass, or the error of
-- the sandbox.
pub data EvaluationError : Type 0 where
  prerequisites : List Text → EvaluationError
  raised : Text → EvaluationError

pub record RuleResult : Type 0 where
  pub rule_code : Text
  pub severity : Severity
  pub passed : Bool
  pub evaluation_error : Option EvaluationError

pub data DecisionStatus : Type 0 where
  approved review blocked : DecisionStatus

pub data RecommendationCode : Type 0 where
  blocked_unevaluable recommend_blocked review_unevaluable recommend_review recommend_approved :
      RecommendationCode

pub record Decision : Type 0 where
  pub status : DecisionStatus
  pub recommendation_code : RecommendationCode

abbrev pub is_blocking : Severity → Bool
is_blocking blocking = true
is_blocking warning = false
is_blocking info = false

-- `result["skipped"]`: `error is not None`.
abbrev pub skipped : RuleResult → Bool
skipped r = elim r.evaluation_error [ none ↦ false | some e ↦ true ]

unfoldable pub unsatisfied_dependencies : BusinessRule → List Text → List Text
unsatisfied_dependencies rule satisfied =
    keep (λ c. is_set c && not (contains c satisfied)) rule.depends_on

-- The sandbox's answer, as the loop records it.
abbrev pub decision_passed : Bool × Option Text → Bool
decision_passed (passed, none) = passed
decision_passed (passed, some e) = false

abbrev pub error_of : Bool × Option Text → Option EvaluationError
error_of (passed, none) = none
error_of (passed, some e) = some (raised e)

module _ (evaluate : BusinessRule → Bool × Option Text) where
  -- The loop's body for one rule.
  unfoldable pub assess_rule : List Text → BusinessRule → RuleResult
  assess_rule satisfied rule =
      let blocked_by = unsatisfied_dependencies rule satisfied in
      if is_empty blocked_by
      then record {
        rule_code = rule.code;
        severity = rule.severity;
        passed = decision_passed (evaluate rule);
        evaluation_error = error_of (evaluate rule);
      }
      else record {
        rule_code = rule.code;
        severity = rule.severity;
        passed = false;
        evaluation_error = some (prerequisites blocked_by);
      }

  -- `for rule in rules`, with the codes that passed so far.
  unfoldable pub assess_rules : List Text → List BusinessRule → List RuleResult
  assess_rules satisfied [] = []
  assess_rules satisfied (rule ∷ rules) =
      let r = assess_rule satisfied rule in
      r ∷ assess_rules (if r.passed then rule.code ∷ satisfied else satisfied) rules

unfoldable pub decision_from_results : List RuleResult → Decision
decision_from_results failed =
    if any (λ r. is_blocking r.severity) failed
    then (if any skipped failed
        then record { status = blocked; recommendation_code = blocked_unevaluable }
        else record { status = blocked; recommendation_code = recommend_blocked })
    else if is_empty failed
    then record { status = approved; recommendation_code = recommend_approved }
    else if any skipped failed
    then record { status = review; recommendation_code = review_unevaluable }
    else record { status = review; recommendation_code = recommend_review }

abbrev pub failed_results : List RuleResult → List RuleResult
failed_results results = keep (λ r. not r.passed) results

-- The rules that the query selected for an object, ordered, evaluated and decided.
unfoldable pub assess : (BusinessRule → Bool × Option Text) → List BusinessRule → Decision
unfolding order_rules_by_dependency
assess evaluate rules =
    decision_from_results
      (failed_results (assess_rules evaluate [] (order_rules_by_dependency rules)))
