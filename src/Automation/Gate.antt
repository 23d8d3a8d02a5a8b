-- ===== src/Automation/Gate.antt =====
-- What backend/ontology_platform/automation.py lets out to the traditional system.
use aletheia_onto.Base.{
  ℕ, ◌≡◌, ◌⊎◌, inl, inr, refl, ◌∙◌, ap, subst, Bool, true, false, not, Option, none, some, [], ◌∷◌,
  ◌++◌, arith, find, ◌&&◌, Bool-cases, Text, Dict, Result, ok, err, or_raise_returned,
}
use aletheia_onto.Model.{BusinessRule}
use aletheia_onto.Kernel.Verdict.{DecisionStatus, approved, review, blocked}
use aletheia_onto.Kernel.Select.{assess_instance}
use aletheia_onto.Automation.{
  DataSource, blocked_by_semantic_kernel, ready_for_execution, with_execution, ExecutionRequest,
  Platform, OperationError, Surroundings, is_operation, resolved_object_code, check_workflow_state,
  is_terminated, is_approved, Preflight, preflight_of, with_preflight, preflight_operation, plan_of,
  source_and_executor, call_executor, execute_preflighted, execute_operation,
}

-- The kernel approves the instance, and its workflow, if it has entered one, has not ended.
pub record IsCleared (w : Surroundings) (s : Platform) (ontology_id : ℕ) (resolved : Text)
    (instance_id : Text) : Type 0 where
  pub evaluate : BusinessRule → Bool × Option Text
  pub read : w.build_runtime ontology_id resolved instance_id ≡ some evaluate
  pub verdict : (assess_instance evaluate s.model ontology_id resolved w.today).status ≡ approved
  pub running :
      is_terminated (check_workflow_state s.workflows ontology_id resolved instance_id) ≡ false

approved_of : (d : DecisionStatus) → is_approved d ≡ true → d ≡ approved
approved_of approved h = refl
approved_of review h = absurd (ground (arith, h))
approved_of blocked h = absurd (ground (arith, h))

pub Result-cases {ℓ κ} :
    {E : Type κ} {A : Type ℓ} (r : Result E A) → ((a : A) × (r ≡ ok a)) ⊎ ((e : E) × (r ≡ err e))
Result-cases (ok a) = inl (a, refl)
Result-cases (err e) = inr (e, refl)

call_executor-calls :
    (w : Surroundings) (s : Platform) (p : Preflight) (ontology_id : ℕ) (instance_id actor : Text)
    (executor : ℕ) (request : ExecutionRequest)
    → (call_executor w s p ontology_id instance_id actor executor request).0.calls
      ≡ s.calls ++ request ∷ []
unfolding call_executor
call_executor-calls w s p ontology_id instance_id actor executor request =
    elim (Result-cases (w.execute executor request)) [
      | inl (answer, e) ↦ rw (call_executor, e) refl
      | inr (x, e) ↦ rw (call_executor, e) refl
    ]

-- The four ends of an execution.
module _ (w : Surroundings) (s : Platform) (p : Preflight) (ontology_id data_source_id : ℕ)
    (instance_id : Text) (payload : Dict Text) (actor : Text) (dry_run : Bool) where
  pub refused :
      p.allowed ≡ false
      → execute_preflighted w s p ontology_id data_source_id instance_id payload actor dry_run ≡ (
        with_execution p actor blocked_by_semantic_kernel s,
        ok (record { is_executed = false; status = blocked_by_semantic_kernel; remote = none }),
      )
  unfolding execute_preflighted
  refused denied = rw denied refl

  pub planned :
      p.allowed ≡ true
      → dry_run ≡ true
      → execute_preflighted w s p ontology_id data_source_id instance_id payload actor dry_run ≡ (
        with_execution p actor ready_for_execution s,
        ok (record { is_executed = false; status = ready_for_execution; remote = none }),
      )
  unfolding execute_preflighted
  planned allows dry = rw (allows, dry) refl

  pub unresolved :
      (e : OperationError)
      → p.allowed ≡ true
      → dry_run ≡ false
      → source_and_executor w s data_source_id ≡ err e
      → execute_preflighted w s p ontology_id data_source_id instance_id payload actor dry_run
        ≡ (s, err e)
  unfolding execute_preflighted
  unresolved e allows real h = rw (execute_preflighted, allows, real, h) refl

  abbrev pub request_of : DataSource → ExecutionRequest
  request_of source = record {
    target = source.api_base_url;
    plan = plan_of w p instance_id payload;
    headers = source.api_headers;
  }

  pub resolved_to :
      (source : DataSource) (executor : ℕ)
      → p.allowed ≡ true
      → dry_run ≡ false
      → source_and_executor w s data_source_id ≡ ok (source, executor)
      → execute_preflighted w s p ontology_id data_source_id instance_id payload actor dry_run
        ≡ call_executor w s p ontology_id instance_id actor executor (request_of source)
  unfolding execute_preflighted
  resolved_to source executor allows real h = simp (execute_preflighted, allows, real, h)

  execute_preflighted-calls :
      ((execute_preflighted w s p ontology_id data_source_id instance_id payload actor
          dry_run).0.calls
        ≡ s.calls)
      ⊎ ((request : ExecutionRequest) × (dry_run ≡ false)
          × (p.allowed ≡ true)
          × ((execute_preflighted w s p ontology_id data_source_id instance_id payload actor
                dry_run).0.calls
              ≡ s.calls ++ request ∷ []))
  execute_preflighted-calls = elim (Bool-cases p.allowed) [
    | inr denied ↦ inl (rw (refused denied) refl)
    | inl allows ↦ elim (Bool-cases dry_run) [
      | inl dry ↦ inl (rw (planned allows dry) refl)
      | inr real ↦ elim (Result-cases (source_and_executor w s data_source_id)) [
        | inr (e, h) ↦ inl (rw (unresolved e allows real h) refl)
        | inl ((source, executor), h) ↦ inr (
          request_of source,
          real,
          allows,
          rw (resolved_to source executor allows real h) (
              call_executor-calls w s p ontology_id instance_id actor executor (request_of source)),
        )
      ]
    ]
  ]

module _ (w : Surroundings) (s : Platform) (ontology_id data_source_id : ℕ)
    (operation_code instance_id object_code : Text) where
  -- What allows: the approval, and a workflow that has not ended.
  abbrev pub Allows : Preflight → Type 0
  Allows p =
      (find (is_operation data_source_id operation_code) s.operations ≡ some p.operation)
      × (resolved_object_code w object_code p.operation ≡ some p.object_code)
      × IsCleared w s ontology_id p.object_code instance_id

  preflight_operation_allowed :
      (p : Preflight)
      → preflight_operation w s ontology_id data_source_id operation_code instance_id object_code
        ≡ ok p
      → p.allowed ≡ true
      → Allows p
  unfolding preflight_operation
  preflight_operation_allowed p h allowed =
      let (o, there, h₁) =
        or_raise_returned (find (is_operation data_source_id operation_code) s.operations) _ _ p
          h in
      let (code, resolved, h₂) =
        or_raise_returned (resolved_object_code w object_code o) _ _ p h₁ in
      let (evaluate, read, h₃) =
        or_raise_returned (w.build_runtime ontology_id code instance_id) _ _ p h₂ in
      let verdict = (assess_instance evaluate s.model ontology_id code w.today).status in
      let state = check_workflow_state s.workflows ontology_id code instance_id in
      let same : preflight_of o code instance_id verdict state ≡ p = ground (arith, h₃) in
      let fine : (is_approved verdict && not (is_terminated state)) ≡ true =
        ap (λ (q : Preflight). q.allowed) same ∙ allowed in
      subst (λ (q : Preflight). Allows q) same
        (
          there,
          resolved,
          record {
            evaluate = evaluate;
            read = read;
            verdict = approved_of verdict (ground (arith, fine));
            running = ground (arith, fine);
          },
        )

  pub stopped :
      (payload : Dict Text) (actor : Text) (dry_run : Bool) (e : OperationError)
      → preflight_operation w s ontology_id data_source_id operation_code instance_id object_code
        ≡ err e
      → execute_operation w s ontology_id data_source_id operation_code instance_id object_code
          payload actor dry_run
        ≡ (s, err e)
  unfolding execute_operation
  stopped payload actor dry_run e h = rw (execute_operation, h) refl

  pub went_on :
      (payload : Dict Text) (actor : Text) (dry_run : Bool) (p : Preflight)
      → preflight_operation w s ontology_id data_source_id operation_code instance_id object_code
        ≡ ok p
      → execute_operation w s ontology_id data_source_id operation_code instance_id object_code
          payload actor dry_run
        ≡ execute_preflighted w
            (with_preflight p s)
            p
            ontology_id
            data_source_id
            instance_id
            payload
            actor
            dry_run
  unfolding execute_operation
  went_on payload actor dry_run p h = rw (execute_operation, h) refl

  -- At most one request is handed to an executor, and none unless the execution is no dry run,
  -- the operation is a declared one, the kernel approves the instance of the operation's object
  -- on the day, and the instance's workflow, if it has entered one, is neither completed nor
  -- cancelled. Otherwise the requests stay as they were, whatever the executors do.
  pub execute_operation-calls :
      (payload : Dict Text) (actor : Text) (dry_run : Bool)
      → ((execute_operation w s ontology_id data_source_id operation_code instance_id object_code
            payload actor dry_run).0.calls
          ≡ s.calls)
        ⊎ ((p : Preflight) × (request : ExecutionRequest) × (dry_run ≡ false)
            × Allows p
            × ((execute_operation w s ontology_id data_source_id operation_code instance_id
                  object_code payload actor dry_run).0.calls
                ≡ s.calls ++ request ∷ []))
  execute_operation-calls payload actor dry_run =
      elim (Result-cases (
        preflight_operation w s ontology_id data_source_id operation_code instance_id
          object_code)) [
            | inr (e, h) ↦ inl (rw (stopped payload actor dry_run e h) refl)
            | inl (p, h) ↦
                elim (execute_preflighted-calls w (with_preflight p s) p ontology_id data_source_id
                  instance_id payload actor dry_run) [
                    | inl same ↦ inl (rw (went_on payload actor dry_run p h) same)
                    | inr (request, real, allows, called) ↦ inr (
                      p,
                      request,
                      real,
                      preflight_operation_allowed p h allows,
                      rw (went_on payload actor dry_run p h) called,
                    )
                  ]
          ]
