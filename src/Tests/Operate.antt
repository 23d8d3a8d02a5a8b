-- ===== src/Tests/Operate.antt =====
-- Examples for backend/ontology_platform/automation.py.
use aletheia_onto.Base.{◌≡◌, ◌⊎◌, refl, Bool, true, false, none, some, [], ◌∷◌, Result, ok}
use aletheia_onto.Model.{OntologyStatus, MappingStatus}
use aletheia_onto.Hierarchy.{inherited_rule_scopes, ancestors_of, parent_code}
use aletheia_onto.Hierarchy.Expand.{expand, rule_declarations}
use aletheia_onto.Kernel.Order.{round, pending}
use aletheia_onto.Kernel.Verdict.{
  approved, assess, decision_from_results, assess_rules, assess_rule, unsatisfied_dependencies,
}
use aletheia_onto.Kernel.Select.{assess_instance, goes_first}
use aletheia_onto.Registry.{try_get}
use aletheia_onto.Automation.{
  Operation, DataSource, executed, allow_automation, workflow_terminated,
  blocked_by_semantic_kernel, instance_assessment, operation_preflight, operation_execution,
  ExecutionRequest, Platform, OperationError, Surroundings, Preflight, preflight_operation,
  Execution, execute_operation,
}
use aletheia_onto.Automation.Gate.{Allows, execute_operation-calls}
use aletheia_onto.Automation.Recorded.{Trail, execute_operation-Closes}
use aletheia_onto.Tests.Meaning.{model_with, customer, party}
use aletheia_onto.Workflow.Seed.{cancelled}
use aletheia_onto.Tests.Access.{one_instance}

abbrev around : Surroundings
around = record {
  today = 20260101;
  build_runtime = λ ontology_id object_code instance_id. some (λ rule. (true, none));
  guards = λ expression ontology_id object_code instance_id. ok (true, none);
  spelling = λ text. text ∷ [];
  numbered = λ s. elim s [ [] ↦ 0 | c ∷ rest ↦ c ];
  render_path = λ path instance_id payload. path;
  scheme = λ address. 7;
  normalize = λ name. name;
  executors = record { aliases = []; entries = (7, 1) ∷ [] };
  execute = λ executor request. ok 200;
}

abbrev submit_operation : Operation
submit_operation = record {
  data_source_id = 3;
  operation_code = 11;
  method = 1;
  path = 2;
  semantic_action = 4;
}

abbrev erp : DataSource
erp = record { id = 3; api_base_url = 5; api_headers = [] }

abbrev platform : Platform
platform = record {
  model = model_with (customer ∷ party ∷ []) OntologyStatus.published MappingStatus.confirmed;
  operations = submit_operation ∷ [];
  sources = erp ∷ [];
  workflows = one_instance;
  decisions = [];
  audit = [];
  calls = [];
}

abbrev run : Bool → Platform × Result OperationError Execution
run dry_run = execute_operation around platform 1 3 11 50 100 [] 9 dry_run

abbrev finished : Execution
finished = record { is_executed = true; status = executed; remote = some 200 }

answer : (run false).1 ≡ ok finished
unfolding execute_operation assess_instance assess decision_from_results assess_rules
    inherited_rule_scopes ancestors_of parent_code goes_first expand rule_declarations round pending
    assess_rule unsatisfied_dependencies try_get
answer = refl

records :
    (run false).0.decisions
    ≡ instance_assessment approved
      ∷ operation_preflight approved true allow_automation
      ∷ operation_execution executed true allow_automation
      ∷ []
unfolding execute_operation assess_instance assess decision_from_results assess_rules
    inherited_rule_scopes ancestors_of parent_code goes_first expand rule_declarations round pending
    assess_rule unsatisfied_dependencies try_get
records = refl

execute_operation-calls_example :
    ((run false).0.calls ≡ [])
    ⊎ ((p : Preflight) × (request : ExecutionRequest) × (false ≡ false)
        × Allows around platform 1 3 11 50 100 p
        × ((run false).0.calls ≡ request ∷ []))
execute_operation-calls_example = execute_operation-calls around platform 1 3 11 50 100 [] 9 false

execute_operation-Closes_example :
    (p : Preflight) × (preflight_operation around platform 1 3 11 50 100 ≡ ok p)
    × Trail platform p 9 false (run false).0 finished
unfolding execute_operation assess_instance assess decision_from_results assess_rules
    inherited_rule_scopes ancestors_of parent_code goes_first expand rule_declarations round pending
    assess_rule unsatisfied_dependencies try_get
execute_operation-Closes_example =
    execute_operation-Closes around platform 1 3 11 50 100 [] 9 false (run false).0 finished refl

-- An approved instance whose workflow has been cancelled: the preflight does not allow, and its
-- record says that it does.
abbrev cancelled_platform : Platform
cancelled_platform = record platform {
  workflows = record one_instance {
    instances =
        record {
          id = 2;
          workflow_id = 1;
          object_code = 100;
          instance_id = 50;
          current_state = cancelled;
        }
        ∷ [];
  };
}

cancelled_records :
    (execute_operation around cancelled_platform 1 3 11 50 100 [] 9 false).0.decisions
    ≡ instance_assessment approved
      ∷ operation_preflight approved true workflow_terminated
      ∷ operation_execution blocked_by_semantic_kernel false workflow_terminated
      ∷ []
unfolding execute_operation assess_instance assess decision_from_results assess_rules
    inherited_rule_scopes ancestors_of parent_code goes_first expand rule_declarations round pending
    assess_rule unsatisfied_dependencies try_get
cancelled_records = refl
