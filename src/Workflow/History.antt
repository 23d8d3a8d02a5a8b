-- ===== src/Workflow/History.antt =====
-- Whatever calls are made on the workflows of backend/ontology_platform/workflow_permission.py, the
-- history of an instance leads from its entry to its current state.
use aletheia_onto.Base.{
  ℕ, suc, ◌≤◌, ◌<◌, ◌≡◌, refl, sym, subst, Bool, some, List, [], ◌∷◌, ◌++◌, arith, keep, find, ◌==◌,
  ==→eq, Text, All, Bool-cases, inl, inr, ok, raise_if_returned, or_raise_returned, All-map₂,
  All-snoc, keep-snoc_in, keep-snoc_out, keep_none,
}
use aletheia_onto.Workflow.{
  InstanceWorkflow, WorkflowHistory, Workflows, Sandbox, is_instance, instance_of, transition_of,
  is_some, is_refused, guard_result, set_state, enter_workflow, transition_instance, definition_of,
}
use aletheia_onto.Workflow.Linked.{Linked, Linked-snoc, entries_of}

-- The ids of the rows decrease, from below `bound`.
abbrev pub Descending : ℕ → List InstanceWorkflow → Type 0
Descending bound [] = Unit
Descending bound (i ∷ instances) = (i.id < bound) × Descending i.id instances

-- The history of each instance leads from the empty state to its current state, and every row and
-- entry has an id that was given out.
pub record IsValid (s : Workflows) : Type 0 where
  pub linked : All (λ i. Linked 0 (entries_of i.id s.history) i.current_state) s.instances
  pub entries : All (λ h. h.instance_workflow_id < s.next_id) s.history
  pub descending : Descending s.next_id s.instances

pub Descending-All :
    (bound : ℕ) (is : List InstanceWorkflow) → Descending bound is → All (λ i. i.id < bound) is
Descending-All bound [] d = tt
Descending-All bound (i ∷ is) d = (
  d.0,
  All-map₂ (λ j lt t. omega arith) is (Descending-All i.id is d.1) (Descending-All i.id is d.1),
)

pub Descending-weaken :
    (a b : ℕ) (is : List InstanceWorkflow) → a ≤ b → Descending a is → Descending b is
Descending-weaken a b [] le d = tt
Descending-weaken a b (i ∷ is) le d = (omega arith, d.1)

pub Descending-keep :
    (p : InstanceWorkflow → Bool) (bound : ℕ) (is : List InstanceWorkflow)
    → Descending bound is
    → Descending bound (keep p is)
Descending-keep p bound [] d = tt
Descending-keep p bound (i ∷ is) d = elim (Bool-cases (p i)) [
  | inl e ↦ rw e (d.0, Descending-keep p i.id is d.1)
  | inr e ↦ rw e (Descending-keep p bound is (Descending-weaken i.id bound is (omega arith) d.1))
]

Descending-set_state :
    (id : ℕ) (state : Text) (bound : ℕ) (is : List InstanceWorkflow)
    → Descending bound is
    → Descending bound (set_state id state is)
unfolding set_state
Descending-set_state id state bound [] d = tt
Descending-set_state id state bound (i ∷ is) d = elim (Bool-cases (i.id == id)) [
  | inl e ↦ rw e (d.0, Descending-set_state id state i.id is d.1)
  | inr e ↦ rw e (d.0, Descending-set_state id state i.id is d.1)
]

-- What holds of all rows holds of the one that a query finds.
found_All :
    (P : InstanceWorkflow → Type 0) (p : InstanceWorkflow → Bool) (is : List InstanceWorkflow)
    (i : InstanceWorkflow)
    → All P is
    → find p is ≡ some i
    → P i
found_All P p [] i a h = absurd (ground arith)
found_All P p (x ∷ is) i a h = elim (Bool-cases (p x)) [
  | inl e ↦ let same : some x ≡ some i = rw e at h in subst P (ground arith) a.0
  | inr e ↦ found_All P p is i a.1 (rw e at h)
]

-- A new row has no entries, and its first entry is not one of another row.
enter-Linked :
    (n : ℕ) (h : WorkflowHistory) (is : List InstanceWorkflow) (hs : List WorkflowHistory)
    → h.instance_workflow_id ≡ n
    → All (λ i. i.id < n) is
    → All (λ i. Linked 0 (entries_of i.id hs) i.current_state) is
    → All (λ i. Linked 0 (entries_of i.id (hs ++ h ∷ [])) i.current_state) is
enter-Linked n h is hs e below linked =
    All-map₂
      (λ i lt l.
        subst (λ xs. Linked 0 xs i.current_state)
          (sym (keep-snoc_out (λ g. g.instance_workflow_id == i.id) h hs (ground arith))) l)
      is below linked

first_entry :
    (n : ℕ) (h : WorkflowHistory) (hs : List WorkflowHistory)
    → h.instance_workflow_id ≡ n
    → All (λ g. g.instance_workflow_id < n) hs
    → entries_of n (hs ++ h ∷ []) ≡ h ∷ []
first_entry n h hs e below =
    rw
      (
        keep-snoc_in (λ g. g.instance_workflow_id == n) h hs (ground arith),
        keep_none (λ g. g.instance_workflow_id == n) hs
            (All-map₂ (λ g lt t. ground (arith, lt)) hs below below),
      )
      refl

-- A move of the row `id` from the state that it is in.
move-Linked :
    (id : ℕ) (current : Text) (h : WorkflowHistory) (is : List InstanceWorkflow)
    (hs : List WorkflowHistory)
    → h.instance_workflow_id ≡ id
    → h.from_state ≡ current
    → Linked 0 (entries_of id hs) current
    → All (λ i. Linked 0 (entries_of i.id hs) i.current_state) is
    → All
        (λ i. Linked 0 (entries_of i.id (hs ++ h ∷ [])) i.current_state)
        (set_state id h.to_state is)
unfolding set_state
move-Linked id current h [] hs e f l linked = tt
move-Linked id current h (i ∷ is) hs e f l linked = elim (Bool-cases (i.id == id)) [
  | inl same ↦
      let here = Linked-snoc 0 current (entries_of id hs) h l f in
      let shape = keep-snoc_in (λ g. g.instance_workflow_id == id) h hs (ground arith) in
      rw (same, ==→eq i.id id same, shape) (here, move-Linked id current h is hs e f l linked.1)
  | inr other ↦
      let shape = keep-snoc_out (λ g. g.instance_workflow_id == i.id) h hs (ground arith) in
      rw (other, shape) (linked.0, move-Linked id current h is hs e f l linked.1)
]

pub enter_workflow-IsValid :
    (s : Workflows) (workflow_id : ℕ) (object_code instance_id init system : Text) (s' : Workflows)
    → IsValid s
    → enter_workflow s workflow_id object_code instance_id init system ≡ ok s'
    → IsValid s'
unfolding enter_workflow
enter_workflow-IsValid s workflow_id object_code instance_id init system s' valid h =
    let (w, found, h₁) = or_raise_returned (definition_of s workflow_id) _ _ s' h in
    let (absent, h₂) =
      raise_if_returned (is_some (instance_of s workflow_id instance_id)) _ _ s' h₁ in
    let entry : WorkflowHistory = record {
      instance_workflow_id = s.next_id;
      from_state = 0;
      to_state = w.initial_state;
      action_code = init;
      actor = system;
    } in
    let row : InstanceWorkflow = record {
      id = s.next_id;
      workflow_id = workflow_id;
      object_code = object_code;
      instance_id = instance_id;
      current_state = w.initial_state;
    } in
    let below = Descending-All s.next_id s.instances valid.descending in
    let after : IsValid (record s {
      instances = row ∷ s.instances;
      history = s.history ++ entry ∷ [];
      next_id = suc s.next_id;
    }) =
      record {
        linked = (
          subst (λ xs. Linked 0 xs w.initial_state)
              (sym (first_entry s.next_id entry s.history refl valid.entries)) (refl, refl),
          enter-Linked s.next_id entry s.instances s.history refl below valid.linked,
        );
        entries =
            All-snoc (λ g. g.instance_workflow_id < suc s.next_id) entry s.history
              (All-map₂ (λ g lt t. omega arith) s.history valid.entries valid.entries)
              (omega arith);
        descending = (omega arith, valid.descending);
      } in
    subst IsValid (ground (arith, h₂)) after

pub transition_instance-IsValid :
    (sandbox : Sandbox) (s : Workflows) (workflow_id : ℕ) (instance_id action_code actor : Text)
    (s' : Workflows)
    → IsValid s
    → transition_instance sandbox s workflow_id instance_id action_code actor ≡ ok s'
    → IsValid s'
unfolding transition_instance
transition_instance-IsValid sandbox s workflow_id instance_id action_code actor s' valid h =
    let (i, found, h₁) = or_raise_returned (instance_of s workflow_id instance_id) _ _ s' h in
    let (t, allowed, h₂) =
      or_raise_returned (transition_of s workflow_id i.current_state action_code) _ _ s' h₁ in
    let (passed, h₃) =
      raise_if_returned
        (is_refused (guard_result sandbox s workflow_id instance_id t.guard_expression)) _ _ s'
        h₂ in
    let entry : WorkflowHistory = record {
      instance_workflow_id = i.id;
      from_state = i.current_state;
      to_state = t.to_state;
      action_code = action_code;
      actor = actor;
    } in
    let below = Descending-All s.next_id s.instances valid.descending in
    let query = is_instance workflow_id instance_id in
    let here =
      found_All (λ x. Linked 0 (entries_of x.id s.history) x.current_state) query s.instances i
        valid.linked found in
    let lt = found_All (λ x. x.id < s.next_id) query s.instances i below found in
    let after : IsValid (record s {
      instances = set_state i.id t.to_state s.instances;
      history = s.history ++ entry ∷ [];
    }) =
      record {
        linked =
            move-Linked i.id i.current_state entry s.instances s.history refl refl here
              valid.linked;
        entries =
            All-snoc (λ g. g.instance_workflow_id < s.next_id) entry s.history valid.entries lt;
        descending = Descending-set_state i.id t.to_state s.next_id s.instances valid.descending;
      } in
    subst IsValid (ground (arith, h₃)) after
