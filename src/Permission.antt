-- ===== src/Permission.antt =====
-- Object permissions and tool authorizations: backend/ontology_platform/workflow_permission.py.
-- Creating a role or a tool inserts a row under a unique code. Descriptions and schemas are left
-- out, and so is the log of tool executions.
pub mod Upsert
pub mod Allowed
use aletheia_onto.Base.{
  ℕ, Bool, true, false, not, Option, none, some, List, [], ◌∷◌, ◌++◌, find, ◌==◌, ◌&&◌,
  if◌then◌else◌, Text, is_set,
}
use aletheia_onto.Workflow.{Sandbox, GuardResult, evaluate_guard}

pub data Operation : Type 0 where
  read write execute delete other : Operation

pub record PermissionRole : Type 0 where
  pub id : ℕ
  pub code : Text

pub record PermissionPolicy : Type 0 where
  pub role_id : ℕ
  pub ontology_id : ℕ
  pub object_code : Text
  pub can_read : Bool
  pub can_write : Bool
  pub can_execute : Bool
  pub can_delete : Bool
  pub filter_expression : Text

pub record Permissions : Type 0 where
  pub roles : List PermissionRole
  pub policies : List PermissionPolicy

abbrev pub is_policy : ℕ → Text → ℕ → PermissionPolicy → Bool
is_policy role_id object_code ontology_id p =
    (p.role_id == role_id) && ((p.object_code == object_code) && (p.ontology_id == ontology_id))

abbrev pub policy_at : List PermissionPolicy → ℕ → Text → ℕ → Option PermissionPolicy
policy_at policies role_id object_code ontology_id =
    find (is_policy role_id object_code ontology_id) policies

-- The update where a row of the key exists, the insertion where none does.
unfoldable pub put_policy : PermissionPolicy → List PermissionPolicy → List PermissionPolicy
put_policy new [] = new ∷ []
put_policy new (p ∷ policies) =
    if is_policy new.role_id new.object_code new.ontology_id p
    then new ∷ policies
    else p ∷ put_policy new policies

-- The tables after the call, and the row that it returns.
unfoldable pub upsert_permission_policy :
    Permissions → PermissionPolicy → Permissions × Option PermissionPolicy
unfolding put_policy
upsert_permission_policy s new =
    let policies = put_policy new s.policies in
    (
      record s { policies = policies },
      find (λ p. (p.role_id == new.role_id) && (p.object_code == new.object_code)) policies,
    )

-- `bool(policy[f"can_{operation}"])`, false for an operation without a column.
abbrev pub grants : PermissionPolicy → Operation → Bool
grants p read = p.can_read
grants p write = p.can_write
grants p execute = p.can_execute
grants p delete = p.can_delete
grants p other = false

abbrev pub or_else {ℓ} : {A : Type ℓ} → Option A → Option A → Option A
or_else none b = b
or_else (some a) b = some a

-- `ontology_id in (?, 0) order by ontology_id desc`, the first row.
unfoldable pub policy_for : List PermissionPolicy → ℕ → Text → ℕ → Option PermissionPolicy
policy_for policies role_id object_code ontology_id =
    or_else (policy_at policies role_id object_code ontology_id)
      (policy_at policies role_id object_code 0)

pub record PermissionResult : Type 0 where
  pub allowed : Bool
  pub filter_applied : Bool

abbrev pub denied : PermissionResult
denied = record { allowed = false; filter_applied = false }

abbrev pub id_or_zero : Option ℕ → ℕ
id_or_zero none = 0
id_or_zero (some n) = n

-- What a policy that was found answers; `resolved` is the ontology that the filter is evaluated in.
unfoldable pub apply_policy :
    Sandbox → PermissionPolicy → Text → Operation → ℕ → Text → PermissionResult
unfolding evaluate_guard
apply_policy sandbox policy object_code operation resolved instance_id =
    let allowed = grants policy operation in
    if not allowed
    then denied
    else if not (is_set policy.filter_expression)
    then record { allowed = true; filter_applied = false }
    else if not (is_set instance_id)
    then record { allowed = true; filter_applied = false }
    else record {
      allowed =
          (evaluate_guard sandbox policy.filter_expression resolved object_code instance_id).passed;
      filter_applied = true;
    }

-- The ontology that a row filter is evaluated in.
abbrev pub filter_ontology : (Text → Option ℕ) → Text → Option ℕ → ℕ
filter_ontology resolve object_code none = id_or_zero (resolve object_code)
filter_ontology resolve object_code (some n) = n

-- `resolve` stands for `_resolve_policy_ontology`, the newest ontology that has the object.
unfoldable pub check_permission :
    Sandbox
    → (Text → Option ℕ)
    → Permissions
    → Text
    → Text
    → Operation
    → Option ℕ
    → Text
    → PermissionResult
unfolding policy_for apply_policy
check_permission sandbox resolve s role_code object_code operation ontology_id instance_id =
    elim (find (λ r. r.code == role_code) s.roles) [
      | none ↦ denied
      | some role ↦ elim (policy_for s.policies role.id object_code (id_or_zero ontology_id)) [
        | none ↦ denied
        | some policy ↦
            apply_policy sandbox policy object_code operation
              (filter_ontology resolve object_code ontology_id) instance_id
      ]
    ]

pub record ToolDefinition : Type 0 where
  pub id : ℕ
  pub code : Text
  pub requires_review : Bool

pub record ToolAuthorization : Type 0 where
  pub role_id : ℕ
  pub tool_id : ℕ
  pub allowed : Bool
  pub max_calls_per_hour : ℕ

abbrev pub is_authorization : ℕ → ℕ → ToolAuthorization → Bool
is_authorization role_id tool_id a = (a.role_id == role_id) && (a.tool_id == tool_id)

unfoldable pub authorize_tool : ToolAuthorization → List ToolAuthorization → List ToolAuthorization
authorize_tool new [] = new ∷ []
authorize_tool new (a ∷ rest) =
    if is_authorization new.role_id new.tool_id a then new ∷ rest else a ∷ authorize_tool new rest

unfoldable pub check_tool_authorization :
    List PermissionRole → List ToolDefinition → List ToolAuthorization → Text → Text → Bool
check_tool_authorization roles tools authorizations role_code tool_code =
    elim (find (λ r. r.code == role_code) roles) [
      | none ↦ false
      | some role ↦ elim (find (λ t. t.code == tool_code) tools) [
        | none ↦ false
        | some tool ↦ elim (find (is_authorization role.id tool.id) authorizations) [
          | none ↦ false
          | some a ↦ a.allowed
        ]
      ]
    ]
