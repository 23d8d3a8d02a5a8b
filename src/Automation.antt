-- ===== src/Automation.antt =====
-- Automation behind the verdict: backend/ontology_platform/automation.py, with the records that
-- backend/ontology_platform/decisions.py keeps. A text is a number whose spelling is a parameter;
-- the reading of an instance, the rendering of a path, the scheme of an address and the executors
-- are parameters too. Of a record the columns that the code tests are kept; its id, which is
-- random, and its sentences are left out. The requests that were handed to an executor stand in
-- the state, in their order.
pub mod Gate
pub mod Recorded
use aletheia_onto.Base.{
  ℕ, Bool, true, false, not, Option, none, some, List, [], ◌∷◌, ◌++◌, find, ◌==◌, ◌&&◌, ◌||◌,
  if◌then◌else◌, Text, Dict, is_set, Result, ok, err, ◌>>=◌, ◌>>◌, raise_if, or_raise,
}
use aletheia_onto.Model.{Model, BusinessRule}
use aletheia_onto.InstanceKey.Strings.{Str, split_once}
use aletheia_onto.Kernel.Verdict.{Decision, DecisionStatus, approved, review, blocked}
use aletheia_onto.Kernel.Select.{assess_instance}
use aletheia_onto.Workflow.{
  Sandbox, Workflows, WorkflowDefinition, WorkflowTransition, InstanceWorkflow, instance_of,
  get_available_actions, transition_instance,
}
use aletheia_onto.Workflow.Seed.{completed, cancelled}
use aletheia_onto.Policy.{starts_with}
use aletheia_onto.Registry.{Registry, try_get}

-- A row of `source_api`.
pub record Operation : Type 0 where
  pub data_source_id : ℕ
  pub operation_code : Text
  pub method : Text
  pub path : Text
  pub semantic_action : Text

-- A row of `data_source`.
pub record DataSource : Type 0 where
  pub id : ℕ
  pub api_base_url : Text
  pub api_headers : Dict Text

pub data NextAction : Type 0 where
  allow_automation block_and_require_correction route_to_human_review : NextAction
  workflow_terminated : NextAction

pub data ExecutionStatus : Type 0 where
  executed ready_for_execution blocked_by_semantic_kernel : ExecutionStatus

-- A row of `decision_record`, by its type.
pub data DecisionRecord : Type 0 where
  instance_assessment : DecisionStatus → DecisionRecord
  operation_preflight : DecisionStatus → Bool → NextAction → DecisionRecord
  operation_execution : ExecutionStatus → Bool → NextAction → DecisionRecord

-- A row of `audit_log` of an assessment, a preflight or an execution.
pub data AuditEntry : Type 0 where
  assessment_entry : Text → Text → DecisionStatus → AuditEntry
  preflight_entry : Text → Bool → DecisionStatus → AuditEntry
  execution_entry : Text → Text → ExecutionStatus → DecisionStatus → NextAction → AuditEntry

pub record ExecutionPlan : Type 0 where
  pub method : Text
  pub path : Text
  pub semantic_action : Text
  pub payload : Dict Text

pub record ExecutionRequest : Type 0 where
  pub target : Text
  pub plan : ExecutionPlan
  pub headers : Dict Text

pub record Platform : Type 0 where
  pub model : Model
  pub operations : List Operation
  pub sources : List DataSource
  pub workflows : Workflows
  pub decisions : List DecisionRecord
  pub audit : List AuditEntry
  pub calls : List ExecutionRequest

pub data OperationError : Type 0 where
  no_operation no_object_code unreadable_instance no_source no_base_url unsupported : OperationError
  remote_failed : Text → OperationError

-- The reading of an instance gives the evaluation of a rule in its context, or raises. An
-- executor, by its identity, answers or raises.
pub record Surroundings : Type 0 where
  pub today : Text
  pub build_runtime : ℕ → Text → Text → Option (BusinessRule → Bool × Option Text)
  pub guards : Sandbox
  pub spelling : Text → Str
  pub numbered : Str → Text
  pub render_path : Text → Text → Dict Text → Text
  pub scheme : Text → Text
  pub normalize : Text → Text
  pub executors : Registry
  pub execute : ℕ → ExecutionRequest → Result Text ℕ

abbrev pub is_operation : ℕ → Text → Operation → Bool
is_operation data_source_id operation_code o =
    (o.data_source_id == data_source_id) && (o.operation_code == operation_code)

-- `rsplit(c, 1)[0]`, if the text has the character.
unfoldable pub before_last : ℕ → Str → Option Str
before_last c [] = none
before_last c (x ∷ s) = elim (before_last c s) [
  | some start ↦ some (x ∷ start)
  | none ↦ if x == c then some [] else none
]

abbrev pub dot : ℕ
dot = 46

abbrev pub underscore : ℕ
underscore = 95

-- `_infer_object_code`
unfoldable pub infer_object_code : Surroundings → Text → Text → Option Text
unfolding before_last
infer_object_code w semantic_action operation_code =
    elim (split_once dot (w.spelling semantic_action)) [
      | some (start, rest) ↦ some (w.numbered start)
      | none ↦ elim (before_last underscore (w.spelling operation_code)) [
        | none ↦ none
        | some start ↦ some (w.numbered start)
      ]
    ]

-- `object_code or _infer_object_code(...)`
abbrev pub resolved_object_code : Surroundings → Text → Operation → Option Text
resolved_object_code w object_code operation =
    if is_set object_code
    then some object_code
    else infer_object_code w operation.semantic_action operation.operation_code

abbrev pub is_workflow_of : ℕ → Text → WorkflowDefinition → Bool
is_workflow_of ontology_id object_code d =
    (d.ontology_id == ontology_id) && (d.object_code == object_code)

-- `_check_workflow_state`: the state of the instance, if it has entered the object's workflow.
unfoldable pub check_workflow_state : Workflows → ℕ → Text → Text → Option Text
check_workflow_state s ontology_id object_code instance_id =
    elim (find (is_workflow_of ontology_id object_code) s.definitions) [
      | none ↦ none
      | some d ↦ elim (instance_of s d.id instance_id) [
        | none ↦ none
        | some i ↦ some i.current_state
      ]
    ]

abbrev pub is_terminated : Option Text → Bool
is_terminated none = false
is_terminated (some state) = (state == cancelled) || (state == completed)

abbrev pub is_approved : DecisionStatus → Bool
is_approved approved = true
is_approved review = false
is_approved blocked = false

abbrev pub next_action : DecisionStatus → NextAction
next_action approved = allow_automation
next_action blocked = block_and_require_correction
next_action review = route_to_human_review

-- What a preflight answers.
pub record Preflight : Type 0 where
  pub operation : Operation
  pub object_code : Text
  pub instance_id : Text
  pub allowed : Bool
  pub decision : DecisionStatus
  pub next : NextAction

abbrev pub preflight_of : Operation → Text → Text → DecisionStatus → Option Text → Preflight
preflight_of operation object_code instance_id decision state = record {
  operation = operation;
  object_code = object_code;
  instance_id = instance_id;
  allowed = is_approved decision && not (is_terminated state);
  decision = decision;
  next = if is_terminated state then workflow_terminated else next_action decision;
}

-- The rows of a preflight, those of its assessment first. Its own rows keep whether the kernel
-- approves, not whether the preflight allows. Nothing is written before the last test.
abbrev pub with_preflight : Preflight → Platform → Platform
with_preflight p s = record s {
  decisions =
      s.decisions
      ++ instance_assessment p.decision
        ∷ operation_preflight p.decision (is_approved p.decision) p.next
        ∷ [];
  audit =
      s.audit
      ++ assessment_entry p.object_code p.instance_id p.decision
        ∷ preflight_entry p.operation.operation_code (is_approved p.decision) p.decision
        ∷ [];
}

unfoldable pub preflight_operation :
    Surroundings → Platform → ℕ → ℕ → Text → Text → Text → Result OperationError Preflight
unfolding infer_object_code check_workflow_state
preflight_operation w s ontology_id data_source_id operation_code instance_id object_code = do
  operation ← or_raise (find (is_operation data_source_id operation_code) s.operations) no_operation
  resolved ← or_raise (resolved_object_code w object_code operation) no_object_code
  evaluate ← or_raise (w.build_runtime ontology_id resolved instance_id) unreadable_instance
  ok (
      preflight_of operation resolved instance_id
        (assess_instance evaluate s.model ontology_id resolved w.today).status
        (check_workflow_state s.workflows ontology_id resolved instance_id))

-- `operation_code in action_code`
unfoldable pub is_part : Str → Str → Bool
is_part part [] = starts_with part []
is_part part (c ∷ s) = starts_with part (c ∷ s) || is_part part s

-- `_try_workflow_transition`, which swallows every error: the workflows afterwards.
unfoldable pub try_workflow_transition :
    Surroundings → Workflows → ℕ → Text → Text → Text → Text → Workflows
unfolding is_part
try_workflow_transition w s ontology_id object_code instance_id operation_code actor =
    elim (find (is_workflow_of ontology_id object_code) s.definitions) [
      | none ↦ s
      | some d ↦
          elim (find (λ t. is_part (w.spelling operation_code) (w.spelling t.action_code))
            (get_available_actions s d.id instance_id)) [
              | none ↦ s
              | some t ↦
                  elim (transition_instance w.guards s d.id instance_id t.action_code actor) [
                    | ok s' ↦ s'
                    | err e ↦ s
                  ]
            ]
    ]

pub record Execution : Type 0 where
  pub is_executed : Bool
  pub status : ExecutionStatus
  pub remote : Option ℕ

-- The record and the audit row with which every execution that returns ends.
abbrev pub with_execution : Preflight → Text → ExecutionStatus → Platform → Platform
with_execution p actor status s = record s {
  decisions = s.decisions ++ operation_execution status p.allowed p.next ∷ [];
  audit = s.audit ++ execution_entry actor p.operation.operation_code status p.decision p.next ∷ [];
}

abbrev pub plan_of : Surroundings → Preflight → Text → Dict Text → ExecutionPlan
plan_of w p instance_id payload = record {
  method = p.operation.method;
  path = w.render_path p.operation.path instance_id payload;
  semantic_action = p.operation.semantic_action;
  payload = payload;
}

unfoldable pub resolve_executor : Surroundings → Text → Result OperationError ℕ
resolve_executor w target = do
  raise_if (not (is_set (w.scheme target))) unsupported
  or_raise (try_get w.normalize w.executors (w.scheme target)) unsupported

-- The source, whose address selects the executor.
unfoldable pub source_and_executor :
    Surroundings → Platform → ℕ → Result OperationError (DataSource × ℕ)
unfolding resolve_executor
source_and_executor w s data_source_id = do
  source ← or_raise (find (λ d. d.id == data_source_id) s.sources) no_source
  raise_if (not (is_set source.api_base_url)) no_base_url
  executor ← resolve_executor w source.api_base_url
  ok (source, executor)

abbrev pub with_call : ExecutionRequest → Platform → Platform
with_call request s = record s { calls = s.calls ++ request ∷ [] }

abbrev pub with_transition : Surroundings → ℕ → Text → Text → Text → Text → Platform → Platform
with_transition w ontology_id object_code instance_id operation_code actor s = record s {
  workflows =
      try_workflow_transition w s.workflows ontology_id object_code instance_id operation_code
        actor;
}

-- The call of an executor; one that raises leaves neither a record nor a transition.
unfoldable pub call_executor :
    Surroundings
    → Platform
    → Preflight
    → ℕ
    → Text
    → Text
    → ℕ
    → ExecutionRequest
    → Platform × Result OperationError Execution
unfolding try_workflow_transition
call_executor w s p ontology_id instance_id actor executor request =
    elim (w.execute executor request) [
      | err e ↦ (with_call request s, err (remote_failed e))
      | ok answer ↦ (
        with_execution p actor executed (
            with_transition w ontology_id p.object_code instance_id p.operation.operation_code actor
              (with_call request s)),
        ok (record { is_executed = true; status = executed; remote = some answer }),
      )
    ]

-- What follows the preflight.
unfoldable pub execute_preflighted :
    Surroundings
    → Platform
    → Preflight
    → ℕ
    → ℕ
    → Text
    → Dict Text
    → Text
    → Bool
    → Platform × Result OperationError Execution
unfolding source_and_executor call_executor
execute_preflighted w s p ontology_id data_source_id instance_id payload actor dry_run =
    if not p.allowed
    then (
      with_execution p actor blocked_by_semantic_kernel s,
      ok (record { is_executed = false; status = blocked_by_semantic_kernel; remote = none }),
    )
    else if dry_run
    then (
      with_execution p actor ready_for_execution s,
      ok (record { is_executed = false; status = ready_for_execution; remote = none }),
    )
    else elim (source_and_executor w s data_source_id) [
      | err e ↦ (s, err e)
      | ok (source, executor) ↦ call_executor w s p ontology_id instance_id actor executor (record {
        target = source.api_base_url;
        plan = plan_of w p instance_id payload;
        headers = source.api_headers;
      })
    ]

-- What a preflight has written stays when the execution raises.
unfoldable pub execute_operation :
    Surroundings
    → Platform
    → ℕ
    → ℕ
    → Text
    → Text
    → Text
    → Dict Text
    → Text
    → Bool
    → Platform × Result OperationError Execution
unfolding preflight_operation execute_preflighted
execute_operation w s ontology_id data_source_id operation_code instance_id object_code payload
      actor dry_run =
    elim (preflight_operation w s ontology_id data_source_id operation_code instance_id
      object_code) [
        | err e ↦ (s, err e)
        | ok p ↦
            execute_preflighted w (with_preflight p s) p ontology_id data_source_id instance_id
              payload actor dry_run
      ]
