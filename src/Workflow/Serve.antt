-- ===== src/Workflow/Serve.antt =====
-- Sequences of calls on the workflows of backend/ontology_platform/workflow_permission.py; one that
-- raises changes nothing.
use aletheia_onto.Base.{
  ℕ, ◌≤◌, ◌<◌, ◌≡◌, refl, sym, subst, false, not, List, [], ◌∷◌, arith, map, keep, find, contains,
  ◌==◌, ==→eq, ◌&&◌, Text, All, Bool-cases, inl, inr, Result, ok, err, raise_if_returned,
  or_raise_returned, bind_returned, All-map₂, All-keep, All-kept, keep-keep,
}
use aletheia_onto.Workflow.{
  WorkflowState, WorkflowTransition, InstanceWorkflow, WorkflowHistory, Workflows, WorkflowError,
  Sandbox, is_some, enter_workflow, transition_instance, delete_workflow, rows_of,
  add_workflow_state, add_workflow_transition, definition_of, transition_of,
}
use aletheia_onto.Workflow.Seed.{create_workflow, seed_default_states}
use aletheia_onto.Workflow.Linked.{Linked, entries_of}
use aletheia_onto.Workflow.History.{
  Descending, Descending-weaken, Descending-All, Descending-keep, IsValid, enter_workflow-IsValid,
  transition_instance-IsValid,
}

abbrev rows : ℕ → List InstanceWorkflow → List ℕ
rows workflow_id is = map (λ i. i.id) (keep (λ i. i.workflow_id == workflow_id) is)

not_row :
    (n workflow_id : ℕ) (is : List InstanceWorkflow)
    → All (λ i. i.id < n) is
    → contains n (rows workflow_id is) ≡ false
not_row n workflow_id [] a = refl
not_row n workflow_id (i ∷ is) a = elim (Bool-cases (i.workflow_id == workflow_id)) [
  | inl e ↦ rw e (let lt = a.0 in ground (arith, not_row n workflow_id is a.1))
  | inr e ↦ rw e (not_row n workflow_id is a.1)
]

-- No row of another workflow is among the rows of a deleted one.
retained :
    (workflow_id bound : ℕ) (is : List InstanceWorkflow)
    → Descending bound is
    → All
        (λ i. (i.workflow_id == workflow_id) ≡ false → contains i.id (rows workflow_id is) ≡ false)
        is
retained workflow_id bound [] d = tt
retained workflow_id bound (i ∷ is) d =
    let below = Descending-All i.id is d.1 in
    (
      λ other. rw other (not_row i.id workflow_id is below),
      All-map₂ (λ j keeps lt other. skip i j is (keeps other) lt) is
          (retained workflow_id i.id is d.1) below,
    )
  where
    skip :
        (i j : InstanceWorkflow) (is : List InstanceWorkflow)
        → contains j.id (rows workflow_id is) ≡ false
        → j.id < i.id
        → contains j.id (rows workflow_id (i ∷ is)) ≡ false
    skip i j is absent lt = elim (Bool-cases (i.workflow_id == workflow_id)) [
      | inl e ↦ rw e (ground (arith, absent, lt))
      | inr e ↦ rw e absent
    ]

delete_workflow-IsValid :
    (s : Workflows) (workflow_id : ℕ) (s' : Workflows)
    → IsValid s
    → delete_workflow s workflow_id ≡ ok s'
    → IsValid s'
unfolding delete_workflow
delete_workflow-IsValid s workflow_id s' valid h =
    let (w, found, h₁) = or_raise_returned (definition_of s workflow_id) _ _ s' h in
    let stays =
      λ (g : WorkflowHistory). not (contains g.instance_workflow_id (rows_of s workflow_id)) in
    let others = λ (i : InstanceWorkflow). not (i.workflow_id == workflow_id) in
    let kept =
      All-map₂
        (λ i keeps l other.
          subst (λ xs. Linked 0 xs i.current_state)
            (sym (
              keep-keep (λ g. g.instance_workflow_id == i.id) stays s.history
                (λ g same.
                  rw (==→eq g.instance_workflow_id i.id same, keeps (ground (arith, other))) refl)))
            l)
        s.instances (retained workflow_id s.next_id s.instances valid.descending) valid.linked in
    let after : IsValid (record s {
      definitions = keep (λ d. not (d.id == workflow_id)) s.definitions;
      states = keep (λ x. not (x.workflow_id == workflow_id)) s.states;
      transitions = keep (λ t. not (t.workflow_id == workflow_id)) s.transitions;
      instances = keep others s.instances;
      history = keep stays s.history;
    }) =
      record {
        linked =
            All-kept (λ i. Linked 0 (entries_of i.id (keep stays s.history)) i.current_state) others
              s.instances kept;
        entries = All-keep (λ g. g.instance_workflow_id < s.next_id) stays s.history valid.entries;
        descending = Descending-keep others s.next_id s.instances valid.descending;
      } in
    subst IsValid (ground (arith, h₁)) after

-- The calls that touch neither instances nor history.
same-IsValid :
    (s s' : Workflows)
    → s'.instances ≡ s.instances
    → s'.history ≡ s.history
    → s.next_id ≤ s'.next_id
    → IsValid s
    → IsValid s'
same-IsValid s s' is hs le valid = record {
  linked = rw (is, hs) valid.linked;
  entries = rw hs (All-map₂ (λ g lt t. omega arith) s.history valid.entries valid.entries);
  descending = rw is (Descending-weaken s.next_id s'.next_id s.instances le valid.descending);
}

module _ (s : Workflows) (s' : Workflows) (valid : IsValid s) where
  create_workflow-IsValid :
      (ontology_id : ℕ) (object_code initial_state : Text)
      → create_workflow s ontology_id object_code initial_state ≡ ok s'
      → IsValid s'
  unfolding create_workflow
  create_workflow-IsValid ontology_id object_code initial_state h =
      let taken = is_some (
        find (λ w. (w.ontology_id == ontology_id) && (w.object_code == object_code))
          s.definitions) in
      let (fresh, h₁) = raise_if_returned taken _ _ s' h in
      let (states, seeded, h₂) =
        bind_returned (seed_default_states s.next_id initial_state s.states) _ s' h₁ in
      same-IsValid s s' (ground (arith, h₂)) (ground (arith, h₂)) (ground (arith, h₂)) valid

  add_workflow_state-IsValid : (new : WorkflowState) → add_workflow_state s new ≡ ok s' → IsValid s'
  unfolding add_workflow_state
  add_workflow_state-IsValid new h =
      let (w, there, h₀) = or_raise_returned (definition_of s new.workflow_id) _ _ s' h in
      let taken =
        is_some (find (λ x. (x.workflow_id == new.workflow_id) && (x.code == new.code)) s.states) in
      let (fresh, h₁) = raise_if_returned taken _ _ s' h₀ in
      same-IsValid s s' (ground (arith, h₁)) (ground (arith, h₁)) (ground (arith, h₁)) valid

  add_workflow_transition-IsValid :
      (new : WorkflowTransition) → add_workflow_transition s new ≡ ok s' → IsValid s'
  unfolding add_workflow_transition
  add_workflow_transition-IsValid new h =
      let (w, there, h₀) = or_raise_returned (definition_of s new.workflow_id) _ _ s' h in
      let taken = is_some (transition_of s new.workflow_id new.from_state new.action_code) in
      let (fresh, h₁) = raise_if_returned taken _ _ s' h₀ in
      same-IsValid s s' (ground (arith, h₁)) (ground (arith, h₁)) (ground (arith, h₁)) valid

pub data Call : Type 0 where
  create : ℕ → Text → Text → Call
  add_state : WorkflowState → Call
  add_transition : WorkflowTransition → Call
  enter : ℕ → Text → Text → Call
  move : ℕ → Text → Text → Text → Call
  delete : ℕ → Call

-- The calls by their handlers; `init` and `system` are the words that an entry is recorded with.
abbrev pub perform : Sandbox → Text → Text → Workflows → Call → Result WorkflowError Workflows
perform sandbox init system s (create ontology_id object_code initial_state) =
    create_workflow s ontology_id object_code initial_state
perform sandbox init system s (add_state new) = add_workflow_state s new
perform sandbox init system s (add_transition new) = add_workflow_transition s new
perform sandbox init system s (enter workflow_id object_code instance_id) =
    enter_workflow s workflow_id object_code instance_id init system
perform sandbox init system s (move workflow_id instance_id action_code actor) =
    transition_instance sandbox s workflow_id instance_id action_code actor
perform sandbox init system s (delete workflow_id) = delete_workflow s workflow_id

abbrev pub or_unchanged : Workflows → Result WorkflowError Workflows → Workflows
or_unchanged s (ok s') = s'
or_unchanged s (err e) = s

unfoldable pub serve : Sandbox → Text → Text → Workflows → List Call → Workflows
serve sandbox init system s [] = s
serve sandbox init system s (call ∷ calls) =
    serve sandbox init system (or_unchanged s (perform sandbox init system s call)) calls

unfoldable pub no_workflows : Workflows
no_workflows = record {
  definitions = [];
  states = [];
  transitions = [];
  instances = [];
  history = [];
  next_id = 1;
}

module _ (sandbox : Sandbox) (init system : Text) where
  perform-IsValid :
      (s : Workflows) (call : Call) (s' : Workflows)
      → IsValid s
      → perform sandbox init system s call ≡ ok s'
      → IsValid s'
  perform-IsValid s (create o c i) s' valid h = create_workflow-IsValid s s' valid o c i h
  perform-IsValid s (add_state new) s' valid h = add_workflow_state-IsValid s s' valid new h
  perform-IsValid s (add_transition new) s' valid h =
      add_workflow_transition-IsValid s s' valid new h
  perform-IsValid s (enter w o i) s' valid h = enter_workflow-IsValid s w o i init system s' valid h
  perform-IsValid s (move w i a actor) s' valid h =
      transition_instance-IsValid sandbox s w i a actor s' valid h
  perform-IsValid s (delete w) s' valid h = delete_workflow-IsValid s w s' valid h

  or_unchanged-IsValid :
      (s : Workflows) (call : Call) (r : Result WorkflowError Workflows)
      → perform sandbox init system s call ≡ r
      → IsValid s
      → IsValid (or_unchanged s r)
  or_unchanged-IsValid s call (ok s') h valid = perform-IsValid s call s' valid h
  or_unchanged-IsValid s call (err e) h valid = valid

  serve-IsValid :
      (calls : List Call) (s : Workflows) → IsValid s → IsValid (serve sandbox init system s calls)
  unfolding serve
  serve-IsValid [] s valid = valid
  serve-IsValid (call ∷ calls) s valid =
      serve-IsValid calls (or_unchanged s (perform sandbox init system s call))
        (or_unchanged-IsValid s call (perform sandbox init system s call) refl valid)

  -- After any sequence of calls from empty tables (creations, declarations, entries, moves and
  -- deletions, those that raise changing nothing), the history of every instance leads without a
  -- gap from the empty state to its current state, rows have decreasing ids and every entry
  -- belongs to an id that was given out.
  pub reachable-IsValid :
      (calls : List Call) → IsValid (serve sandbox init system no_workflows calls)
  unfolding no_workflows
  reachable-IsValid calls =
      serve-IsValid calls no_workflows (record { linked = tt; entries = tt; descending = tt })
