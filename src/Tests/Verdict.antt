-- ===== src/Tests/Verdict.antt =====
-- An example for `assess_instance` of backend/ontology_platform/semantic_kernel.py: the object 100
-- inherits a blocking rule from its parent 200.
use mathlib.Core.List.{mem-cons_self}
use aletheia_onto.Base.{Text, ◌≡◌, refl, Bool, true, Option, none, some, List, [], ◌∷◌}
use aletheia_onto.Model.{Model, BusinessObject, BusinessRule, RuleStatus, Severity}
use aletheia_onto.Hierarchy.{parent_code, climb, ancestors_of, inherited_rule_scopes}
use aletheia_onto.Hierarchy.Expand.{insert_sorted, sort_by_code, rule_declarations}
use aletheia_onto.Hierarchy.Expand.Rules.{declares, overrides}
use aletheia_onto.Kernel.Verdict.{blocked}
use aletheia_onto.Kernel.Select.{is_in_force, assess_instance}
use aletheia_onto.Kernel.Select.InForce.{assess_instance_blocked}

abbrev verified : BusinessRule
verified = record {
  id = 1;
  ontology_id = 1;
  code = 7;
  name = 0;
  rule_type = 1;
  scope_object_code = 200;
  expression = 1;
  severity = Severity.blocking;
  status = RuleStatus.published;
  priority = 5;
  effective_start = some 10;
  effective_end = none;
  depends_on = [];
  overrides = 0;
}

abbrev hint : BusinessRule
hint = record verified {
  id = 2;
  code = 8;
  scope_object_code = 100;
  severity = Severity.info;
  effective_start = none;
}

abbrev two_objects : List BusinessObject
two_objects =
    record {
      id = 1;
      ontology_id = 1;
      code = 100;
      name = 0;
      parent_object_code = 200;
      is_confirmed = true;
    }
    ∷ record {
      id = 2;
      ontology_id = 1;
      code = 200;
      name = 0;
      parent_object_code = 0;
      is_confirmed = true;
    }
    ∷ []

abbrev inheriting : Model
inheriting = record {
  ontologies = [];
  objects = two_objects;
  attributes = [];
  rules = verified ∷ hint ∷ [];
  mappings = [];
  audit_log = [];
}

-- No expression can be evaluated.
abbrev broken : BusinessRule → Bool × Option Text
broken rule = (true, some 9)

assess_instance_blocked_example : (assess_instance broken inheriting 1 100 12).status ≡ blocked
unfolding is_in_force inherited_rule_scopes ancestors_of climb parent_code rule_declarations
    sort_by_code insert_sorted declares overrides
assess_instance_blocked_example =
    assess_instance_blocked broken inheriting 1 100 12 verified mem-cons_self refl refl refl refl
      refl
