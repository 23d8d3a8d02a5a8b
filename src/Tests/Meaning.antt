-- ===== src/Tests/Meaning.antt =====
-- Examples for type_hierarchy.py, semantic_kernel.py and governance.py of backend/ontology_platform.
use mathlib.Core.List.{Perm, mem-cons_self}
use aletheia_onto.Base.{
  ◌≤◌, ◌≡◌, ◌↔◌, refl, Bool, true, false, not, ◌&&◌, Option, none, some, List, [], ◌∷◌, arith, any,
  length, min, Text, ◌==◌, if◌then◌else◌,
}
use aletheia_onto.Model.{
  Model, Ontology, OntologyStatus, BusinessObject, BusinessRule, RuleStatus, Severity,
  SemanticMapping, MappingStatus,
}
use aletheia_onto.Hierarchy.{
  parent_code, declare_subtype, check_parent, refuse_cycle, walk_up, set_parent, ancestors_of,
  inherited_rule_scopes, max_hierarchy_depth,
}
use aletheia_onto.Hierarchy.Chain.{IsLineage, Depth, top, below, ancestors_of_nearest}
use aletheia_onto.Hierarchy.Cycle.{Rooted, root, declare_subtype-Rooted}
use aletheia_onto.Hierarchy.Expand.{expand, rule_declarations}
use aletheia_onto.Hierarchy.Expand.Rules.{declares, overrides, has_code, expand_rule}
use aletheia_onto.Kernel.Order.{codes, order_rules_by_dependency}
use aletheia_onto.Kernel.Order.Respect.{Respects, order_rules_by_dependency-Perm}
use aletheia_onto.Kernel.Order.Acyclic.{order_rules_by_dependency-Respects}
use aletheia_onto.Kernel.Verdict.{assess, approved, blocked}
use aletheia_onto.Kernel.Verdict.Approved.{Clean, approved_iff}
use aletheia_onto.Kernel.Verdict.Ordered.{assess-approved, assess_blocked}
use aletheia_onto.Model.{Action}
use aletheia_onto.Governance.{
  pending_count, confirmed_count, count_mappings, update_mapping, set_published, confirm_objects,
  check_publishable, write_published, review_semantic_mapping, publish_ontology,
}
use aletheia_onto.Governance.Published.{
  HasReviewed, Steps, done, next, publish, review_one, Steps-HasReviewed,
}

-- A rule of the object 100 or 200 with its dependencies.
abbrev pub rule_of : Text → Text → List Text → Text → BusinessRule
rule_of code scope depends_on overrides = record {
  id = code;
  ontology_id = 1;
  code = code;
  name = code;
  rule_type = 1;
  scope_object_code = scope;
  expression = 1;
  severity = Severity.blocking;
  status = RuleStatus.published;
  priority = 0;
  effective_start = none;
  effective_end = none;
  depends_on = depends_on;
  overrides = overrides;
}

abbrev late : BusinessRule
late = rule_of 2 100 (1 ∷ []) 0

abbrev early : BusinessRule
early = rule_of 1 200 [] 0

abbrev pub two_rules : List BusinessRule
two_rules = late ∷ early ∷ []

-- Every expression passes.
abbrev passing : BusinessRule → Bool × Option Text
passing rule = (true, none)

-- The expression of the rule 1 raises.
abbrev raising : BusinessRule → Bool × Option Text
raising rule = (true, if rule.code == 1 then some 9 else none)

order_rules_by_dependency-Perm_example : Perm two_rules (order_rules_by_dependency two_rules)
order_rules_by_dependency-Perm_example = order_rules_by_dependency-Perm two_rules

order_rules_by_dependency-Respects_example :
    Respects (codes two_rules) [] (order_rules_by_dependency two_rules)
order_rules_by_dependency-Respects_example =
    order_rules_by_dependency-Respects (λ c. c) two_rules ((omega arith, tt), (tt, tt))

approved_iff_example :
    ((assess raising two_rules).status ≡ approved)
    ↔ Clean raising [] (order_rules_by_dependency two_rules)
approved_iff_example = approved_iff raising two_rules

assess-approved_example : (assess passing two_rules).status ≡ approved
assess-approved_example =
    assess-approved passing (λ c. c) two_rules ((refl, ((omega arith, refl), tt)), ((refl, tt), tt))

assess_blocked_example : (assess raising (early ∷ late ∷ [])).status ≡ blocked
assess_blocked_example = assess_blocked raising early (early ∷ late ∷ []) mem-cons_self refl refl

-- The ontology 1, in which the object 100 has the parent 200.
abbrev pub party : BusinessObject
party = record {
  id = 2;
  ontology_id = 1;
  code = 200;
  name = 0;
  parent_object_code = 0;
  is_confirmed = false;
}

abbrev pub customer : BusinessObject
customer = record {
  id = 1;
  ontology_id = 1;
  code = 100;
  name = 0;
  parent_object_code = 200;
  is_confirmed = false;
}

abbrev orphan : BusinessObject
orphan = record customer { parent_object_code = 0 }

abbrev mapping : SemanticMapping
mapping = record {
  id = 5;
  ontology_id = 1;
  target_ref = 0;
  status = MappingStatus.pending;
  evidence = 0;
  reviewer = 0;
}

abbrev pub model_with : List BusinessObject → OntologyStatus → MappingStatus → Model
model_with objects status mapped = record {
  ontologies = record { id = 1; name = 1; domain = 1; version = 1; status = status } ∷ [];
  objects = objects;
  attributes =
      record { object_id = 1; code = 31; required = true }
      ∷ record { object_id = 2; code = 31; required = false }
      ∷ [];
  rules = two_rules;
  mappings = record mapping { status = mapped } ∷ [];
  audit_log = [];
}

abbrev customers : Model
customers = model_with (customer ∷ party ∷ []) OntologyStatus.draft MappingStatus.pending

customer-Depth : Depth (parent_code customers.objects 1) 100 1
unfolding parent_code
customer-Depth = below (λ e. absurd (omega arith)) (top refl)

ancestors_of_nearest_example :
    IsLineage (parent_code customers.objects 1) 100 (ancestors_of customers.objects 1 100)
    × (length (ancestors_of customers.objects 1 100) ≡ min 1 max_hierarchy_depth)
ancestors_of_nearest_example = ancestors_of_nearest customers.objects 1 100 1 customer-Depth

expand_rule_example : has_code 1 (expand customers 1 100).rules ≡ (
    any
      (λ s. declares 1 (rule_declarations customers.rules 1 s))
      (inherited_rule_scopes customers.objects 1 100)
    && not (
        any
          (λ s. overrides 1 (rule_declarations customers.rules 1 s))
          (inherited_rule_scopes customers.objects 1 100)))
expand_rule_example = expand_rule customers 1 100 1

abbrev separate : Model
separate = model_with (orphan ∷ party ∷ []) OntologyStatus.draft MappingStatus.pending

abbrev declared : Model
declared = record customers {
  audit_log = record { actor = 3; action = Action.declare_subtype; target = 100 } ∷ [];
}

separate-Rooted : (c : Text) → Rooted (parent_code separate.objects 1) c
unfolding parent_code
separate-Rooted c = root (ground arith)

declare_subtype-Rooted_example : Rooted (parent_code declared.objects 1) 100
unfolding declare_subtype check_parent refuse_cycle walk_up parent_code set_parent
declare_subtype-Rooted_example =
    declare_subtype-Rooted separate 1 100 200 3 declared ((λ e. omega arith, tt), (tt, tt))
      separate-Rooted refl 100

no_join : Text → Text → Text
no_join evidence note = evidence

abbrev open_model : Model
open_model = model_with (orphan ∷ []) OntologyStatus.draft MappingStatus.pending

open_model-HasReviewed : HasReviewed open_model
open_model-HasReviewed id o ho po = absurd (ground (arith, ho, po))

abbrev after_review : Model
after_review = record open_model {
  mappings = record mapping { status = MappingStatus.confirmed; reviewer = 4 } ∷ [];
  audit_log = record { actor = 4; action = Action.review_semantic_mapping; target = 5 } ∷ [];
}

abbrev after_publication : Model
after_publication = record after_review {
  ontologies =
      record { id = 1; name = 1; domain = 1; version = 1; status = OntologyStatus.published } ∷ [];
  objects = record orphan { is_confirmed = true } ∷ [];
  audit_log =
      record { actor = 4; action = Action.publish_ontology; target = 1 } ∷ after_review.audit_log;
}

two-Steps : Steps no_join open_model after_publication
unfolding review_semantic_mapping update_mapping publish_ontology check_publishable write_published
    count_mappings set_published confirm_objects
two-Steps =
    next (review_one 5 MappingStatus.confirmed 4 0 refl)
      (next (publish after_review 0 false 1 4 refl) done)

abbrev published_row : Ontology
published_row = record {
  id = 1;
  name = 1;
  domain = 1;
  version = 1;
  status = OntologyStatus.published;
}

Steps-HasReviewed_example :
    (pending_count after_publication.mappings 1 ≡ 0)
    × (1 ≤ confirmed_count after_publication.mappings 1)
Steps-HasReviewed_example =
    Steps-HasReviewed no_join open_model after_publication two-Steps open_model-HasReviewed 1
      published_row refl refl
