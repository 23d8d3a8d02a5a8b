-- ===== src/Tests/Access.antt =====
-- Examples for workflow_permission.py of backend/ontology_platform.
use aletheia_onto.Base.{
  ℕ, ◌≡◌, ◌⊎◌, refl, true, false, Option, none, some, List, [], ◌∷◌, find, Text, is_set, ok, err,
  ◌==◌,
}
use aletheia_onto.Workflow.{
  WorkflowDefinition, WorkflowTransition, InstanceWorkflow, Workflows, Sandbox, action_not_allowed,
  instance_of, transition_of, definition_of, transition_instance, guard_result, evaluate_guard,
  set_state, get_available_actions,
}
use aletheia_onto.Workflow.History.{IsValid}
use aletheia_onto.Workflow.Serve.{
  Call, create, enter, move, delete, serve, no_workflows, reachable-IsValid,
}
use aletheia_onto.Workflow.Moves.{transition_instance_moves, unlisted_action_refused}
use aletheia_onto.Permission.{
  Operation, PermissionRole, PermissionPolicy, Permissions, policy_for, grants, check_permission,
  apply_policy, ToolDefinition, ToolAuthorization,
}
use aletheia_onto.Permission.Allowed.{Governs, check_permission_allowed}

-- A sandbox that passes every expression.
abbrev lenient : Sandbox
lenient expression ontology_id object_code instance_id = ok (true, none)

abbrev history_calls : List Call
history_calls =
    create 1 100 1
    ∷ enter 1 100 50
    ∷ move 1 50 11 3
    ∷ move 1 50 99 3
    ∷ create 1 200 1
    ∷ delete 1
    ∷ []

reachable-IsValid_example : IsValid (serve lenient 20 21 no_workflows history_calls)
reachable-IsValid_example = reachable-IsValid lenient 20 21 history_calls

abbrev submit : WorkflowTransition
submit = record {
  workflow_id = 1;
  from_state = 1;
  to_state = 2;
  action_code = 11;
  guard_expression = 8;
}

abbrev draft_row : InstanceWorkflow
draft_row = record {
  id = 2;
  workflow_id = 1;
  object_code = 100;
  instance_id = 50;
  current_state = 1;
}

abbrev pub one_instance : Workflows
one_instance = record {
  definitions = record { id = 1; ontology_id = 1; object_code = 100; initial_state = 1 } ∷ [];
  states = [];
  transitions = submit ∷ [];
  instances = draft_row ∷ [];
  history = [];
  next_id = 3;
}

abbrev submitted : Workflows
submitted = record one_instance {
  instances = record draft_row { current_state = 2 } ∷ [];
  history =
      record { instance_workflow_id = 2; from_state = 1; to_state = 2; action_code = 11; actor = 3 }
      ∷ [];
}

transition_instance_moves_example :
    (i : InstanceWorkflow) × (t : WorkflowTransition) × (instance_of one_instance 1 50 ≡ some i)
    × (transition_of one_instance 1 i.current_state 11 ≡ some t)
    × ((is_set t.guard_expression ≡ false)
        ⊎ ((w : WorkflowDefinition) × (definition_of one_instance 1 ≡ some w)
            × (lenient t.guard_expression w.ontology_id w.object_code 50 ≡ ok (true, none))))
    × (instance_of submitted 1 50 ≡ some (record i { current_state = t.to_state }))
unfolding transition_instance guard_result evaluate_guard set_state
transition_instance_moves_example =
    transition_instance_moves lenient one_instance 1 50 11 3 submitted refl

unlisted_action_refused_example :
    transition_instance lenient one_instance 1 50 12 3 ≡ err action_not_allowed
unfolding get_available_actions
unlisted_action_refused_example =
    unlisted_action_refused lenient one_instance 1 50 12 3 draft_row refl refl

abbrev reader : PermissionPolicy
reader = record {
  role_id = 1;
  ontology_id = 1;
  object_code = 100;
  can_read = true;
  can_write = false;
  can_execute = false;
  can_delete = false;
  filter_expression = 8;
}

abbrev anywhere : PermissionPolicy
anywhere = record reader { ontology_id = 0; can_write = true }

abbrev analyst : PermissionRole
analyst = record { id = 1; code = 60 }

abbrev permissions : Permissions
permissions = record { roles = analyst ∷ []; policies = anywhere ∷ reader ∷ [] }

abbrev no_object_known : Text → Option ℕ
no_object_known code = none

abbrev first : Option ℕ
first = some 1

check_permission_allowed_example :
    (role : PermissionRole) × (policy : PermissionPolicy) × (asked : ℕ) × (resolved : ℕ) × (find
        (λ r. r.code == 60)
        permissions.roles
      ≡ some role)
    × ((first ≡ some asked) ⊎ ((first ≡ none) × (asked ≡ 0)))
    × ((first ≡ some resolved)
        ⊎ ((first ≡ none)
            × ((no_object_known 100 ≡ some resolved)
                ⊎ ((no_object_known 100 ≡ none) × (resolved ≡ 0)))))
    × Governs permissions role.id 100 asked policy
    × (grants policy Operation.read ≡ true)
    × ((is_set policy.filter_expression ≡ false)
        ⊎ ((is_set 50 ≡ false)
            ⊎ (lenient policy.filter_expression resolved 100 50 ≡ ok (true, none))))
unfolding check_permission policy_for apply_policy evaluate_guard
check_permission_allowed_example =
    check_permission_allowed lenient no_object_known permissions 60 100 Operation.read first 50 refl

abbrev calculator : ToolDefinition
calculator = record { id = 4; code = 70; requires_review = false }

abbrev revoked : ToolAuthorization
revoked = record { role_id = 1; tool_id = 4; allowed = false; max_calls_per_hour = 100 }
