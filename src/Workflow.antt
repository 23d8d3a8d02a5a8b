-- ===== src/Workflow.antt =====
-- The state machines of backend/ontology_platform/workflow_permission.py: workflows, their states
-- and transitions, the instances in them and their history. The columns that no operation tests
-- (descriptions, colours, sort orders, time stamps, metadata) are left out, and so is the mirror of
-- a state change in the event stream, which is written after the commit and whose failure is only
-- logged.
-- The sandbox over an instance's data is the parameter `sandbox`: it raises or answers whether the
-- expression passed, with the error of one that could not be evaluated.
pub mod Seed
pub mod Linked
pub mod History
pub mod Serve
pub mod Moves
use aletheia_onto.Base.{
  ℕ, suc, Bool, true, false, not, Option, none, some, List, [], ◌∷◌, ◌++◌, map, ◌==◌, ◌&&◌,
  if◌then◌else◌, Text, is_set, contains, keep, find, Result, ok, err, ◌>>=◌, ◌>>◌, raise_if,
  or_raise,
}

pub record WorkflowDefinition : Type 0 where
  pub id : ℕ
  pub ontology_id : ℕ
  pub object_code : Text
  pub initial_state : Text

pub record WorkflowState : Type 0 where
  pub workflow_id : ℕ
  pub code : Text
  pub is_terminal : Bool

-- The guard expression is stored without the blanks around it.
pub record WorkflowTransition : Type 0 where
  pub workflow_id : ℕ
  pub from_state : Text
  pub to_state : Text
  pub action_code : Text
  pub guard_expression : Text

pub record InstanceWorkflow : Type 0 where
  pub id : ℕ
  pub workflow_id : ℕ
  pub object_code : Text
  pub instance_id : Text
  pub current_state : Text

pub record WorkflowHistory : Type 0 where
  pub instance_workflow_id : ℕ
  pub from_state : Text
  pub to_state : Text
  pub action_code : Text
  pub actor : Text

-- The tables. Instances are newest first, the history is in the order of its ids, and `next_id`
-- is above every id that a row of `workflow_definition` or `instance_workflow` has had.
pub record Workflows : Type 0 where
  pub definitions : List WorkflowDefinition
  pub states : List WorkflowState
  pub transitions : List WorkflowTransition
  pub instances : List InstanceWorkflow
  pub history : List WorkflowHistory
  pub next_id : ℕ

pub data WorkflowError : Type 0 where
  no_workflow already_entered not_in_workflow action_not_allowed guard_not_passed : WorkflowError
  not_unique foreign_key unknown_initial_state : WorkflowError

-- `_evaluate_guard`: whether the guard passed and whether it was evaluated.
pub record GuardResult : Type 0 where
  pub passed : Bool
  pub evaluated : Bool

abbrev pub Sandbox : Type 0
Sandbox = Text → ℕ → Text → Text → Result Text (Bool × Option Text)

abbrev pub guard_answer : Result Text (Bool × Option Text) → GuardResult
guard_answer (err e) = record { passed = false; evaluated = false }
guard_answer (ok (passed, some e)) = record { passed = false; evaluated = false }
guard_answer (ok (passed, none)) = record { passed = passed; evaluated = true }

unfoldable pub evaluate_guard : Sandbox → Text → ℕ → Text → Text → GuardResult
evaluate_guard sandbox expression ontology_id object_code instance_id =
    if is_set object_code
    then guard_answer (sandbox expression ontology_id object_code instance_id)
    else record { passed = false; evaluated = false }

abbrev pub definition_of : Workflows → ℕ → Option WorkflowDefinition
definition_of s workflow_id = find (λ w. w.id == workflow_id) s.definitions

abbrev pub is_instance : ℕ → Text → InstanceWorkflow → Bool
is_instance workflow_id instance_id i =
    (i.workflow_id == workflow_id) && (i.instance_id == instance_id)

abbrev pub instance_of : Workflows → ℕ → Text → Option InstanceWorkflow
instance_of s workflow_id instance_id = find (is_instance workflow_id instance_id) s.instances

abbrev pub is_transition : ℕ → Text → Text → WorkflowTransition → Bool
is_transition workflow_id from_state action_code t =
    (t.workflow_id == workflow_id)
    && ((t.from_state == from_state) && (t.action_code == action_code))

abbrev pub transition_of : Workflows → ℕ → Text → Text → Option WorkflowTransition
transition_of s workflow_id from_state action_code =
    find (is_transition workflow_id from_state action_code) s.transitions

abbrev pub is_some {ℓ} : {A : Type ℓ} → Option A → Bool
is_some none = false
is_some (some a) = true

unfoldable pub add_workflow_state : Workflows → WorkflowState → Result WorkflowError Workflows
add_workflow_state s new = do
  w ← or_raise (definition_of s new.workflow_id) foreign_key
  raise_if
      (is_some (find (λ x. (x.workflow_id == new.workflow_id) && (x.code == new.code)) s.states))
      not_unique
  ok (record s { states = s.states ++ new ∷ [] })

unfoldable pub add_workflow_transition :
    Workflows → WorkflowTransition → Result WorkflowError Workflows
add_workflow_transition s new = do
  w ← or_raise (definition_of s new.workflow_id) foreign_key
  raise_if (is_some (transition_of s new.workflow_id new.from_state new.action_code)) not_unique
  ok (record s { transitions = s.transitions ++ new ∷ [] })

unfoldable pub enter_workflow :
    Workflows → ℕ → Text → Text → Text → Text → Result WorkflowError Workflows
enter_workflow s workflow_id object_code instance_id init system = do
  w ← or_raise (definition_of s workflow_id) no_workflow
  raise_if (is_some (instance_of s workflow_id instance_id)) already_entered
  ok (record s {
    instances =
        record {
          id = s.next_id;
          workflow_id = workflow_id;
          object_code = object_code;
          instance_id = instance_id;
          current_state = w.initial_state;
        }
        ∷ s.instances;
    history =
        s.history
        ++ record {
          instance_workflow_id = s.next_id;
          from_state = 0;
          to_state = w.initial_state;
          action_code = init;
          actor = system;
        }
          ∷ [];
    next_id = suc s.next_id;
  })

unfoldable pub get_available_actions : Workflows → ℕ → Text → List WorkflowTransition
get_available_actions s workflow_id instance_id = elim (instance_of s workflow_id instance_id) [
  | none ↦ []
  | some i ↦
      keep (λ t. (t.workflow_id == workflow_id) && (t.from_state == i.current_state)) s.transitions
]

-- `update instance_workflow set current_state = ? where id = ?`
unfoldable pub set_state : ℕ → Text → List InstanceWorkflow → List InstanceWorkflow
set_state id state [] = []
set_state id state (i ∷ instances) =
    (if i.id == id then record i { current_state = state } else i) ∷ set_state id state instances

-- The guard of a transition, `none` if it has none.
unfoldable pub guard_result : Sandbox → Workflows → ℕ → Text → Text → Option GuardResult
unfolding evaluate_guard
guard_result sandbox s workflow_id instance_id guard =
    if is_set guard
    then some (elim (definition_of s workflow_id) [
      | none ↦ evaluate_guard sandbox guard 0 0 instance_id
      | some w ↦ evaluate_guard sandbox guard w.ontology_id w.object_code instance_id
    ])
    else none

abbrev pub is_refused : Option GuardResult → Bool
is_refused none = false
is_refused (some g) = not g.passed

unfoldable pub transition_instance :
    Sandbox → Workflows → ℕ → Text → Text → Text → Result WorkflowError Workflows
unfolding guard_result set_state
transition_instance sandbox s workflow_id instance_id action_code actor = do
  i ← or_raise (instance_of s workflow_id instance_id) not_in_workflow
  t ← or_raise (transition_of s workflow_id i.current_state action_code) action_not_allowed
  raise_if (is_refused (guard_result sandbox s workflow_id instance_id t.guard_expression))
      guard_not_passed
  ok (record s {
    instances = set_state i.id t.to_state s.instances;
    history =
        s.history
        ++ record {
          instance_workflow_id = i.id;
          from_state = i.current_state;
          to_state = t.to_state;
          action_code = action_code;
          actor = actor;
        }
          ∷ [];
  })

abbrev pub rows_of : Workflows → ℕ → List ℕ
rows_of s workflow_id = map (λ i. i.id) (keep (λ i. i.workflow_id == workflow_id) s.instances)

-- The rows that the delete statements and the cascade leave; the count that goes into the audit
-- log is left out.
unfoldable pub delete_workflow : Workflows → ℕ → Result WorkflowError Workflows
delete_workflow s workflow_id = do
  w ← or_raise (definition_of s workflow_id) no_workflow
  ok (record s {
    definitions = keep (λ d. not (d.id == workflow_id)) s.definitions;
    states = keep (λ x. not (x.workflow_id == workflow_id)) s.states;
    transitions = keep (λ t. not (t.workflow_id == workflow_id)) s.transitions;
    instances = keep (λ i. not (i.workflow_id == workflow_id)) s.instances;
    history = keep (λ h. not (contains h.instance_workflow_id (rows_of s workflow_id))) s.history;
  })

-- `get_instance_history`
unfoldable pub get_instance_history : Workflows → ℕ → Text → List WorkflowHistory
get_instance_history s workflow_id instance_id = elim (instance_of s workflow_id instance_id) [
  | none ↦ []
  | some i ↦ keep (λ h. h.instance_workflow_id == i.id) s.history
]
