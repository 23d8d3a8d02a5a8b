-- ===== src/Permission/Upsert.antt =====
-- Writing a policy or an authorization of backend/ontology_platform/workflow_permission.py and
-- reading it back.
use aletheia_onto.Base.{
  ℕ, ◌≡◌, refl, sym, true, some, List, [], ◌∷◌, find, ◌==◌, ==-refl, Bool-cases, inl, inr,
}
use aletheia_onto.Permission.{
  PermissionRole, PermissionPolicy, is_policy, policy_at, put_policy, policy_for, ToolDefinition,
  ToolAuthorization, is_authorization, authorize_tool, check_tool_authorization,
}

self_policy : (p : PermissionPolicy) → is_policy p.role_id p.object_code p.ontology_id p ≡ true
self_policy p = rw (==-refl p.role_id, ==-refl p.object_code, ==-refl p.ontology_id) refl

policy_at-put_policy :
    (new : PermissionPolicy) (ps : List PermissionPolicy)
    → policy_at (put_policy new ps) new.role_id new.object_code new.ontology_id ≡ some new
unfolding put_policy
policy_at-put_policy new [] = rw (self_policy new) refl
policy_at-put_policy new (p ∷ ps) =
    elim (Bool-cases (is_policy new.role_id new.object_code new.ontology_id p)) [
      | inl e ↦ rw (e, self_policy new) refl
      | inr e ↦ rw (e, e) (policy_at-put_policy new ps)
    ]

-- A policy that was written is the one that applies to its role, object and ontology, whatever
-- policies there were, one for any ontology included.
pub policy_for-put_policy :
    (new : PermissionPolicy) (policies : List PermissionPolicy)
    → policy_for (put_policy new policies) new.role_id new.object_code new.ontology_id ≡ some new
unfolding policy_for
policy_for-put_policy new policies = rw (policy_at-put_policy new policies) refl

find-authorize_tool :
    (new : ToolAuthorization) (rest : List ToolAuthorization)
    → find (is_authorization new.role_id new.tool_id) (authorize_tool new rest) ≡ some new
unfolding authorize_tool
find-authorize_tool new [] = rw (==-refl new.role_id, ==-refl new.tool_id) refl
find-authorize_tool new (a ∷ rest) =
    elim (Bool-cases (is_authorization new.role_id new.tool_id a)) [
      | inl e ↦ rw (e, ==-refl new.role_id, ==-refl new.tool_id) refl
      | inr e ↦ rw (e, e) (find-authorize_tool new rest)
    ]

found :
    (new : ToolAuthorization) (rest : List ToolAuthorization) (role_id tool_id : ℕ)
    → new.role_id ≡ role_id
    → new.tool_id ≡ tool_id
    → find (is_authorization role_id tool_id) (authorize_tool new rest) ≡ some new
found new rest role_id tool_id same_role same_tool =
    rw (sym same_role, sym same_tool) (find-authorize_tool new rest)

-- An authorization that was written decides whether the role may call the tool.
pub check-authorize_tool :
    (roles : List PermissionRole) (tools : List ToolDefinition)
    (authorizations : List ToolAuthorization) (role : PermissionRole) (tool : ToolDefinition)
    (new : ToolAuthorization)
    → find (λ r. r.code == role.code) roles ≡ some role
    → find (λ t. t.code == tool.code) tools ≡ some tool
    → new.role_id ≡ role.id
    → new.tool_id ≡ tool.id
    → check_tool_authorization roles tools (authorize_tool new authorizations) role.code tool.code
      ≡ new.allowed
unfolding check_tool_authorization
check-authorize_tool roles tools authorizations role tool new known_role known_tool same_role
      same_tool =
    rw
      (
        check_tool_authorization,
        known_role,
        known_tool,
        found new authorizations role.id tool.id same_role same_tool,
      )
      refl
