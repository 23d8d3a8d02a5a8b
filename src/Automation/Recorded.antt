-- ===== src/Automation/Recorded.antt =====
-- The trail that an execution of backend/ontology_platform/automation.py leaves.
use mathlib.Core.List.{append_assoc}
use aletheia_onto.Base.{
  ℕ, ◌≡◌, inl, inr, refl, sym, ◌∙◌, ap, subst, Bool, true, false, not, none, some, [], ◌∷◌, arith,
  ◌++◌, Bool-cases, Text, Dict, Result, ok, err, if◌then◌else◌,
}
use aletheia_onto.Automation.{
  ExecutionStatus, executed, ready_for_execution, blocked_by_semantic_kernel, operation_execution,
  instance_assessment, operation_preflight, assessment_entry, preflight_entry, is_approved,
  execution_entry, ExecutionRequest, Platform, OperationError, Surroundings, Preflight,
  with_preflight, preflight_operation, Execution, with_execution, with_call, with_transition,
  source_and_executor, call_executor, execute_preflighted, execute_operation,
}
use aletheia_onto.Automation.Gate.{
  Result-cases, refused, planned, unresolved, request_of, resolved_to, stopped, went_on,
}

-- How an execution that returns ends.
abbrev pub ending : Bool → Bool → ExecutionStatus
ending allowed dry_run =
    if not allowed
    then blocked_by_semantic_kernel
    else if dry_run
    then ready_for_execution
    else executed

-- One record and one audit row, with the status of the answer.
abbrev pub Closes : Platform → Preflight → Text → Bool → Platform → Execution → Type 0
Closes s p actor dry_run s' r =
    (r.status ≡ ending p.allowed dry_run)
    × (s'.decisions ≡ s.decisions ++ operation_execution r.status p.allowed p.next ∷ [])
    × (s'.audit
        ≡ s.audit
          ++ execution_entry actor p.operation.operation_code r.status p.decision p.next ∷ [])

module _ (w : Surroundings) (s : Platform) (p : Preflight) (ontology_id data_source_id : ℕ)
    (instance_id : Text) (payload : Dict Text) (actor : Text) (dry_run : Bool) where
  -- A run that gives this answer.
  abbrev Gives : Platform × Result OperationError Execution → Type 0
  Gives answer = (r : Execution) → answer.1 ≡ ok r → Closes s p actor dry_run answer.0 r

  closed :
      (t : Platform) (answer r : Execution)
      → answer.status ≡ ending p.allowed dry_run
      → t.decisions ≡ s.decisions
      → t.audit ≡ s.audit
      → answer ≡ r
      → Closes s p actor dry_run (with_execution p actor answer.status t) r
  closed t answer r end ds audits same =
      subst (λ (x : Execution). Closes s p actor dry_run (with_execution p actor answer.status t) x)
        same (end, rw ds refl, rw audits refl)

  call_executor-Closes :
      (executor : ℕ) (request : ExecutionRequest)
      → p.allowed ≡ true
      → dry_run ≡ false
      → Gives (call_executor w s p ontology_id instance_id actor executor request)
  unfolding call_executor
  call_executor-Closes executor request allows real =
      elim (Result-cases (w.execute executor request)) [
        | inr (x, e) ↦ rw (call_executor, e) (λ r h. absurd (ground (arith, h)))
        | inl (answer, e) ↦
            rw (call_executor, e)
              (λ r h.
                closed
                  (with_transition w ontology_id p.object_code instance_id
                    p.operation.operation_code actor (with_call request s))
                  (record { is_executed = true; status = executed; remote = some answer }) r
                  (rw (allows, real) refl) refl refl (ground (arith, h)))
      ]

  execute_preflighted-Closes :
      Gives (execute_preflighted w s p ontology_id data_source_id instance_id payload actor dry_run)
  execute_preflighted-Closes = elim (Bool-cases p.allowed) [
    | inr denied ↦
        rw (refused w s p ontology_id data_source_id instance_id payload actor dry_run denied)
          (λ r h.
            closed s
              (record { is_executed = false; status = blocked_by_semantic_kernel; remote = none }) r
              (rw denied refl) refl refl (ground (arith, h)))
    | inl allows ↦ elim (Bool-cases dry_run) [
      | inl dry ↦
          rw (planned w s p ontology_id data_source_id instance_id payload actor dry_run allows dry)
            (λ r h.
              closed s (record { is_executed = false; status = ready_for_execution; remote = none })
                r (rw (allows, dry) refl) refl refl (ground (arith, h)))
      | inr real ↦ elim (Result-cases (source_and_executor w s data_source_id)) [
        | inr (e, h) ↦
            rw
              (unresolved w s p ontology_id data_source_id instance_id payload actor dry_run e
                allows real h)
              (λ r g. absurd (ground (arith, g)))
        | inl ((source, executor), h) ↦
            rw
              (resolved_to w s p ontology_id data_source_id instance_id payload actor dry_run source
                executor allows real h)
              (call_executor-Closes executor
                (request_of w s p ontology_id data_source_id instance_id payload actor dry_run
                  source)
                allows real)
      ]
    ]
  ]

-- What an execution with this preflight adds: three decision records and three audit rows.
abbrev pub Trail : Platform → Preflight → Text → Bool → Platform → Execution → Type 0
Trail s p actor dry_run s' r =
    (r.status ≡ ending p.allowed dry_run)
    × (s'.decisions
        ≡ s.decisions
          ++ instance_assessment p.decision
            ∷ operation_preflight p.decision (is_approved p.decision) p.next
            ∷ operation_execution r.status p.allowed p.next
            ∷ [])
    × (s'.audit
        ≡ s.audit
          ++ assessment_entry p.object_code p.instance_id p.decision
            ∷ preflight_entry p.operation.operation_code (is_approved p.decision) p.decision
            ∷ execution_entry actor p.operation.operation_code r.status p.decision p.next
            ∷ [])

Closes-Trail :
    (s : Platform) (p : Preflight) (actor : Text) (dry_run : Bool) (s' : Platform) (r : Execution)
    → Closes (with_preflight p s) p actor dry_run s' r
    → Trail s p actor dry_run s' r
Closes-Trail s p actor dry_run s' r (end, ds, audits) =
    (end, ds ∙ append_assoc s.decisions _ _, audits ∙ append_assoc s.audit _ _)

-- An execution that returns, whether it was refused, planned or carried out, has passed through a
-- preflight and adds to the decision records exactly that of the assessment, that of the
-- preflight and its own, and to the audit log the three rows of assessment, preflight and
-- execution. The preflight's rows keep whether the kernel approved, that of the execution whether
-- the preflight allowed. The status is `executed` if the preflight allows it and it is no dry run,
-- `ready_for_execution` in a dry run that is allowed, and otherwise `blocked_by_semantic_kernel`.
pub execute_operation-Closes :
    (w : Surroundings) (s : Platform) (ontology_id data_source_id : ℕ)
    (operation_code instance_id object_code : Text) (payload : Dict Text) (actor : Text)
    (dry_run : Bool) (s' : Platform) (r : Execution)
    → execute_operation w s ontology_id data_source_id operation_code instance_id object_code
        payload actor dry_run
      ≡ (s', ok r)
    → (p : Preflight) × (preflight_operation w s ontology_id data_source_id operation_code
          instance_id object_code
        ≡ ok p)
      × Trail s p actor dry_run s' r
execute_operation-Closes w s ontology_id data_source_id operation_code instance_id object_code
      payload actor dry_run s' r h =
    elim (Result-cases
      (preflight_operation w s ontology_id data_source_id operation_code instance_id object_code)) [
        | inr (e, failed) ↦
            let ended =
              stopped w s ontology_id data_source_id operation_code instance_id object_code payload
                actor dry_run e failed in
            let same : (s', ok r) ≡ (s, err e) = sym h ∙ ended in
            absurd
              (ground (arith, ap (λ (x : Platform × Result OperationError Execution). x.1) same))
        | inl (p, passed) ↦
            let on =
              went_on w s ontology_id data_source_id operation_code instance_id object_code payload
                actor dry_run p passed in
            (
              p,
              passed,
              Closes-Trail s p actor dry_run s' r (
                  subst
                    (λ (x : Platform × Result OperationError Execution).
                      (q : Execution)
                      → x.1 ≡ ok q
                      → Closes (with_preflight p s) p actor dry_run x.0 q)
                    (sym on ∙ h)
                    (execute_preflighted-Closes w (with_preflight p s) p ontology_id data_source_id
                      instance_id payload actor dry_run)
                    r refl),
            )
      ]
