-- ===== src/Tests/Rule.antt =====
-- Examples for backend/ontology_platform/rule_sandbox.py and backend/ontology_platform/registry.py.
use mathlib.Core.List.{mem-cons_self}
use aletheia_onto.Base.{
  ℕ, ◌+◌, ◌≡◌, ◌↔◌, ◌≢◌, refl, Bool, true, false, none, some, List, [], ◌∷◌, ◌==◌, if◌then◌else◌,
  Text, Dict, lookup, ok, err,
}
use aletheia_onto.Model.{BusinessRule}
use aletheia_onto.Kernel.Order.{order_rules_by_dependency, order_from, round, pending}
use aletheia_onto.Kernel.Verdict.{
  unsatisfied_dependencies, assess_rule, assess_rules, decision_from_results, assess,
}
use aletheia_onto.Kernel.Verdict.Sandboxed.{approved_rules_pass}
use aletheia_onto.Tests.Meaning.{rule_of}
use aletheia_onto.Registry.{Registry, register, names, insert_name}
use aletheia_onto.Registry.Entries.{register_all}
use aletheia_onto.Sandbox.Tree.{
  Node, nil, cons, name, attribute, call, allowed, expression, size, children, append_nodes,
}
use aletheia_onto.Sandbox.{
  Python, Validation, as_raised, not_parsed, forbidden_call, out_of_fuel, check_node,
  validate_queue, validate_ast, insert_reference, references_queue, unknown_names,
  validate_rule_expression, update_functions, allowed_names, evaluate_expression_value,
  evaluate_rule_expression,
}
use aletheia_onto.Sandbox.Walk.{IsSafe, validate_ast_iff}
use aletheia_onto.Sandbox.Verdict.{Passes, evaluate_rule_expression_passes, validated_rule_runs}

-- `sum` is 60, registered as the object 1; the name 30 is a column.
abbrev functions : Registry
functions = record { aliases = (61, 60) ∷ []; entries = (60, 1) ∷ [] }

-- `x > sum(x)`
abbrev comparison : Node
comparison = expression (
    allowed 20
      (cons (name 30) (cons (allowed 21 nil) (cons (call (name 60) (cons (name 30) nil) nil) nil))))

-- `x.__class__()`
abbrev escape : Node
escape = expression (call (attribute (name 30) 40) nil nil)

abbrev internal : Text → Bool
internal attr = attr == 40

-- The text 7 is the text 5 with a space in front, which does not parse.
abbrev python : Python ℕ
python = record {
  parse = λ text. if text == 5 then some comparison else if text == 6 then some escape else none;
  is_internal = internal;
  run = λ tree context. elim (lookup 30 context) [ none ↦ err 9 | some v ↦ ok v ];
  function = λ i. i + 100;
  none_name = 50;
  none_value = 0;
  truthy = λ v. if v == 0 then false else true;
}

-- A column that has the name of a function.
abbrev columns : Dict ℕ
columns = (30, 8) ∷ (60, 9) ∷ []

validate_ast_iff_example :
    ((validate_ast internal (60 ∷ []) comparison ≡ ok tt) ↔ IsSafe internal (60 ∷ []) comparison)
    × (validate_ast internal (60 ∷ []) comparison ≢ err out_of_fuel)
validate_ast_iff_example = validate_ast_iff internal (60 ∷ []) comparison

escape_refused : validate_ast internal (60 ∷ []) escape ≡ err forbidden_call
unfolding validate_ast validate_queue check_node size children append_nodes
escape_refused = refl

evaluate_rule_expression_passes_example :
    (evaluate_rule_expression python functions 5 columns ≡ (true, none))
    ↔ Passes python functions 5 columns
evaluate_rule_expression_passes_example = evaluate_rule_expression_passes python functions 5 columns

comparison_passes : evaluate_rule_expression python functions 5 columns ≡ (true, none)
unfolding evaluate_rule_expression evaluate_expression_value validate_ast validate_queue check_node
    children append_nodes allowed_names update_functions size names insert_name
comparison_passes = refl

abbrev stripped : Text → Text
stripped text = if text == 7 then 5 else text

abbrev found_valid : Validation
found_valid = record { referenced = 30 ∷ []; unknown = [] }

comparison_valid :
    validate_rule_expression stripped python.parse internal (names functions.entries) 50 5 none
    ≡ ok found_valid
unfolding validate_rule_expression validate_ast validate_queue check_node children append_nodes
    references_queue insert_reference unknown_names size names insert_name
comparison_valid = refl

validated_rule_runs_example :
    (tree : Node) × (python.parse 5 ≡ some tree)
    × (evaluate_expression_value python functions 5 columns
        ≡ as_raised (python.run tree (allowed_names (λ i. i + 100) 50 0 functions columns)))
validated_rule_runs_example =
    validated_rule_runs python functions 5 columns stripped none found_valid refl comparison_valid

-- With a leading space the same rule is found valid, and never passes.
spaced_rule_valid :
    validate_rule_expression stripped python.parse internal (names functions.entries) 50 7 none
    ≡ ok found_valid
unfolding validate_rule_expression validate_ast validate_queue check_node children append_nodes
    references_queue insert_reference unknown_names size names insert_name
spaced_rule_valid = refl

spaced_rule_fails : evaluate_rule_expression python functions 7 columns ≡ (false, some not_parsed)
unfolding evaluate_rule_expression evaluate_expression_value
spaced_rule_fails = refl

-- A plugin that takes the name of `sum` is refused, another one is kept.
abbrev plugins : List (Text × ℕ)
plugins = (60, 2) ∷ (70, 3) ∷ []

abbrev lower : Text → Text
lower text = if text == 80 then 70 else text

-- A function that is registered with a capital letter is not found under the name it was given.
capital_name_lost :
    validate_ast internal
      (names (register_all lower functions ((80, 4) ∷ [])).entries)
      (expression (call (name 80) nil nil))
    ≡ err forbidden_call
unfolding register_all register validate_ast validate_queue check_node children append_nodes size
    names insert_name
capital_name_lost = refl

-- A rule with the expression 5.
abbrev positive : BusinessRule
positive = record (rule_of 1 100 [] 0) { expression = 5 }

approved_rules_pass_example : Passes python functions 5 columns
unfolding assess assess_rules assess_rule unsatisfied_dependencies decision_from_results
    order_rules_by_dependency order_from round pending evaluate_rule_expression
    evaluate_expression_value validate_ast validate_queue check_node children append_nodes
    allowed_names update_functions size names insert_name
approved_rules_pass_example =
    approved_rules_pass python functions columns (λ e. 9) (positive ∷ []) positive mem-cons_self
      refl
