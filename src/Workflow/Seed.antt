-- ===== src/Workflow/Seed.antt =====
-- `create_workflow` of backend/ontology_platform/workflow_permission.py with the states and the
-- transitions that it seeds. The codes are numbered in the order in which they appear.
use aletheia_onto.Base.{
  ℕ, suc, Bool, true, false, not, List, [], ◌∷◌, ◌++◌, ◌==◌, ◌&&◌, if◌then◌else◌, Text, find, any,
  Result, ok, ◌>>=◌, ◌>>◌, raise_if,
}
use aletheia_onto.Workflow.{
  WorkflowState, WorkflowTransition, Workflows, WorkflowError, not_unique, unknown_initial_state,
  is_some, is_transition,
}

abbrev pub draft : Text
draft = 1

abbrev pub pending_review : Text
pending_review = 2

abbrev pub approved : Text
approved = 3

abbrev pub rejected : Text
rejected = 4

abbrev pub active : Text
active = 5

abbrev pub completed : Text
completed = 6

abbrev pub cancelled : Text
cancelled = 7

abbrev pub default_state : ℕ → Text → Bool → WorkflowState
default_state workflow_id code is_terminal = record {
  workflow_id = workflow_id;
  code = code;
  is_terminal = is_terminal;
}

unfoldable pub default_states : ℕ → List WorkflowState
default_states workflow_id =
    default_state workflow_id draft false
    ∷ default_state workflow_id pending_review false
    ∷ default_state workflow_id approved false
    ∷ default_state workflow_id rejected true
    ∷ default_state workflow_id active false
    ∷ default_state workflow_id completed true
    ∷ default_state workflow_id cancelled true
    ∷ []

abbrev pub default_transition : ℕ → Text → Text → Text → WorkflowTransition
default_transition workflow_id from_state to_state action_code = record {
  workflow_id = workflow_id;
  from_state = from_state;
  to_state = to_state;
  action_code = action_code;
  guard_expression = 0;
}

-- `submit`, `approve`, `reject`, `revise`, `activate`, `complete` and `cancel` are 11 to 17.
unfoldable pub default_transitions : ℕ → List WorkflowTransition
default_transitions workflow_id =
    default_transition workflow_id draft pending_review 11
    ∷ default_transition workflow_id pending_review approved 12
    ∷ default_transition workflow_id pending_review rejected 13
    ∷ default_transition workflow_id rejected draft 14
    ∷ default_transition workflow_id approved active 15
    ∷ default_transition workflow_id active completed 16
    ∷ default_transition workflow_id active cancelled 17
    ∷ []

-- Insertions whose error is suppressed: a row that breaks the unique constraint is skipped.
unfoldable pub insert_states : List WorkflowState → List WorkflowState → List WorkflowState
insert_states [] states = states
insert_states (new ∷ more) states = insert_states more (
    if any (λ x. (x.workflow_id == new.workflow_id) && (x.code == new.code)) states
    then states
    else states ++ new ∷ [])

unfoldable pub insert_transitions :
    List WorkflowTransition → List WorkflowTransition → List WorkflowTransition
insert_transitions [] transitions = transitions
insert_transitions (new ∷ more) transitions = insert_transitions more (
    if any (is_transition new.workflow_id new.from_state new.action_code) transitions
    then transitions
    else transitions ++ new ∷ [])

unfoldable pub seed_default_states :
    ℕ → Text → List WorkflowState → Result WorkflowError (List WorkflowState)
unfolding default_states insert_states
seed_default_states workflow_id initial_state states = do
  raise_if (not (any (λ x. x.code == initial_state) (default_states workflow_id)))
      unknown_initial_state
  ok (insert_states (default_states workflow_id) states)

unfoldable pub create_workflow : Workflows → ℕ → Text → Text → Result WorkflowError Workflows
unfolding seed_default_states default_transitions insert_transitions
create_workflow s ontology_id object_code initial_state = do
  raise_if
      (is_some (
        find (λ w. (w.ontology_id == ontology_id) && (w.object_code == object_code)) s.definitions))
      not_unique
  states ← seed_default_states s.next_id initial_state s.states
  ok (record s {
    definitions =
        s.definitions
        ++ record {
          id = s.next_id;
          ontology_id = ontology_id;
          object_code = object_code;
          initial_state = initial_state;
        }
          ∷ [];
    states = states;
    transitions = insert_transitions (default_transitions s.next_id) s.transitions;
    next_id = suc s.next_id;
  })
