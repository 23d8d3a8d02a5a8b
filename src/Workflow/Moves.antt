-- ===== src/Workflow/Moves.antt =====
-- What `transition_instance` of backend/ontology_platform/workflow_permission.py lets through.
use aletheia_onto.Base.{
  ℕ, ◌≡◌, ◌⊎◌, refl, subst, Bool, true, false, Option, none, some, List, [], ◌∷◌, arith, keep, find,
  any, ◌==◌, ==-refl, ◌&&◌, Text, is_set, Bool-cases, Option-cases, inl, inr, Result, ok, err,
  raise_if_returned, or_raise_returned,
}
use aletheia_onto.Workflow.{
  WorkflowDefinition, WorkflowTransition, InstanceWorkflow, Workflows, action_not_allowed,
  guard_answer, evaluate_guard, Sandbox, is_instance, instance_of, is_transition, transition_of,
  is_refused, guard_result, set_state, transition_instance, definition_of, get_available_actions,
}

find-set_state :
    (workflow_id : ℕ) (instance_id state : Text) (is : List InstanceWorkflow) (i : InstanceWorkflow)
    → find (is_instance workflow_id instance_id) is ≡ some i
    → find (is_instance workflow_id instance_id) (set_state i.id state is)
      ≡ some (record i { current_state = state })
unfolding set_state
find-set_state workflow_id instance_id state [] i h = absurd (ground arith)
find-set_state workflow_id instance_id state (x ∷ is) i h =
    elim (Bool-cases (is_instance workflow_id instance_id x)) [
      | inl e ↦
          let same : some x ≡ some i = rw e at h in
          let eq : x ≡ i = ground arith in
          subst
            (λ (y : InstanceWorkflow).
              find (is_instance workflow_id instance_id) (set_state y.id state (x ∷ is))
              ≡ some (record y { current_state = state }))
            eq (rw (==-refl x.id, e) refl)
      | inr e ↦
          let rest = find-set_state workflow_id instance_id state is i (rw e at h) in
          elim (Bool-cases (x.id == i.id)) [ inl f ↦ rw (f, e) rest | inr f ↦ rw (f, e) rest ]
    ]

pub answer_passed :
    (r : Result Text (Bool × Option Text)) → (guard_answer r).passed ≡ true → r ≡ ok (true, none)
answer_passed (err e) h = absurd (ground arith)
answer_passed (ok (true, none)) h = refl
answer_passed (ok (false, none)) h = absurd (ground arith)
answer_passed (ok (p, some e)) h = absurd (ground arith)

guard_passed :
    (sandbox : Sandbox) (s : Workflows) (workflow_id : ℕ) (instance_id guard : Text)
    → is_refused (guard_result sandbox s workflow_id instance_id guard) ≡ false
    → (is_set guard ≡ false)
      ⊎ ((w : WorkflowDefinition) × (definition_of s workflow_id ≡ some w)
          × (sandbox guard w.ontology_id w.object_code instance_id ≡ ok (true, none)))
unfolding guard_result evaluate_guard
guard_passed sandbox s workflow_id instance_id guard h = elim (Bool-cases (is_set guard)) [
  | inr unset ↦ inl unset
  | inl set ↦ elim (Option-cases (definition_of s workflow_id)) [
    | inl e ↦ absurd (ground (arith, e, set, h))
    | inr (w, e) ↦ elim (Bool-cases (is_set w.object_code)) [
      | inr f ↦ absurd (ground (arith, e, set, f, h))
      | inl f ↦ inr (
        w,
        e,
        answer_passed (sandbox guard w.ontology_id w.object_code instance_id)
            (ground (arith, e, set, f, h)),
      )
    ]
  ]
]

-- A transition that goes through is declared from the instance's current state for this action,
-- its guard, if it has one, was evaluated on the instance's data and passed without an error, and
-- the instance is then in the transition's target state.
pub transition_instance_moves :
    (sandbox : Sandbox) (s : Workflows) (workflow_id : ℕ) (instance_id action_code actor : Text)
    (s' : Workflows)
    → transition_instance sandbox s workflow_id instance_id action_code actor ≡ ok s'
    → (i : InstanceWorkflow) × (t : WorkflowTransition) × (instance_of s workflow_id instance_id
        ≡ some i)
      × (transition_of s workflow_id i.current_state action_code ≡ some t)
      × ((is_set t.guard_expression ≡ false)
          ⊎ ((w : WorkflowDefinition) × (definition_of s workflow_id ≡ some w)
              × (sandbox t.guard_expression w.ontology_id w.object_code instance_id
                  ≡ ok (true, none))))
      × (instance_of s' workflow_id instance_id ≡ some (record i { current_state = t.to_state }))
unfolding transition_instance
transition_instance_moves sandbox s workflow_id instance_id action_code actor s' h =
    let (i, found, h₁) = or_raise_returned (instance_of s workflow_id instance_id) _ _ s' h in
    let (t, allowed, h₂) =
      or_raise_returned (transition_of s workflow_id i.current_state action_code) _ _ s' h₁ in
    let (passed, h₃) =
      raise_if_returned
        (is_refused (guard_result sandbox s workflow_id instance_id t.guard_expression)) _ _ s'
        h₂ in
    let instances : s'.instances ≡ set_state i.id t.to_state s.instances = ground (arith, h₃) in
    (
      i,
      t,
      found,
      allowed,
      guard_passed sandbox s workflow_id instance_id t.guard_expression passed,
      rw instances (find-set_state workflow_id instance_id t.to_state s.instances i found),
    )

not_listed :
    (workflow_id : ℕ) (state action_code : Text) (ts : List WorkflowTransition)
    → any
        (λ t. t.action_code == action_code)
        (keep (λ t. (t.workflow_id == workflow_id) && (t.from_state == state)) ts)
      ≡ false
    → find (is_transition workflow_id state action_code) ts ≡ none
not_listed workflow_id state action_code [] h = refl
not_listed workflow_id state action_code (t ∷ ts) h =
    elim (Bool-cases (t.workflow_id == workflow_id)) [
      | inr e ↦ rw e (not_listed workflow_id state action_code ts (rw e at h))
      | inl e ↦ elim (Bool-cases (t.from_state == state)) [
        | inr f ↦ rw (e, f) (not_listed workflow_id state action_code ts (rw (e, f) at h))
        | inl f ↦ elim (Bool-cases (t.action_code == action_code)) [
          | inl g ↦ absurd (ground (arith, e, f, g, h))
          | inr g ↦ rw (e, f, g) (not_listed workflow_id state action_code ts (rw (e, f, g) at h))
        ]
      ]
    ]

-- An action that `get_available_actions` does not list for an instance in the workflow is refused
-- as not allowed in its state.
pub unlisted_action_refused :
    (sandbox : Sandbox) (s : Workflows) (workflow_id : ℕ) (instance_id action_code actor : Text)
    (i : InstanceWorkflow)
    → instance_of s workflow_id instance_id ≡ some i
    → any (λ t. t.action_code == action_code) (get_available_actions s workflow_id instance_id)
      ≡ false
    → transition_instance sandbox s workflow_id instance_id action_code actor
      ≡ err action_not_allowed
unfolding transition_instance get_available_actions
unlisted_action_refused sandbox s workflow_id instance_id action_code actor i found unlisted =
    let listed : get_available_actions s workflow_id instance_id
        ≡ keep (λ t. (t.workflow_id == workflow_id) && (t.from_state == i.current_state))
            s.transitions =
      rw (found, get_available_actions) refl in
    let absent = subst (λ ts. any (λ t. t.action_code == action_code) ts ≡ false) listed unlisted in
    rw (found, not_listed workflow_id i.current_state action_code s.transitions absent) refl
