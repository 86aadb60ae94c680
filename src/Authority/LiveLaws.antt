-- ===== src/Authority/LiveLaws.antt =====
-- What an event of a live attempt keeps of the attempt and of its task.
use hermes_quant_agent.Prelude.{
  ◌==◌, option_eq, text_eq, true, false, ◌≡◌, ◌≢◌, arith, some, is_some,
}
use hermes_quant_agent.Prelude.Ensures.{Ensures, bind, done, skip, checked, branch}
use hermes_quant_agent.States.Machine.{
  awaiting_domain_gate, reconciling, TaskState, AttemptState, task_state_eq,
}
use hermes_quant_agent.Contract.Values.{passed, gate_outcome_eq, completed, terminal_outcome_eq}
use hermes_quant_agent.Contract.Command.{
  ObserveSubmission, ObserveRun, ObserveProviderEvidence, ObserveGate3, LinkResult, EnterDomainGate,
  ResolveDomainGate, BeginReconcile, RequestStop, CompleteAttempt,
}
use hermes_quant_agent.Authority.Store.{Attempt, Task, Bindings}
use hermes_quant_agent.Authority.Invariant.{is_ended, is_closed, past_plan, past_formula}
use hermes_quant_agent.Authority.Transitions.{
  transition_task-cases, transition_task-eq, transition_attempt-eq,
}
use hermes_quant_agent.Authority.AttemptEvents.{
  Focus, on_submission_observed, on_run_observed, on_provider_evidence_observed, on_gate3_observed,
  on_result_linked, on_domain_gate_entered, on_domain_gate_resolved, gate_passed, gate_rejected,
}
use hermes_quant_agent.Authority.StopEvents.{
  on_reconcile_started, on_stop_requested, on_attempt_completed,
}

-- The attempt keeps its identity, and gets an outcome exactly when it ends.
pub record AttemptKeeps (x y : Attempt) : Type 0 where
  pub same_ref : y.attempt_ref ≡ x.attempt_ref
  pub same_number : y.attempt_number ≡ x.attempt_number
  pub same_payload : y.payload_ref ≡ x.payload_ref
  pub outcome : is_some y.terminal_outcome ≡ is_ended y.state

-- The task keeps its plan and its human gates, and moves past no gate.
pub record TaskKeeps (t u : Task) : Type 0 where
  pub same_attempts : u.attempts ≡ t.attempts
  pub same_ref : u.task_ref ≡ t.task_ref
  pub same_version : u.version ≡ t.version
  pub same_requires : u.requires_formula_confirmation ≡ t.requires_formula_confirmation
  pub same_plan_digest : u.plan_digest ≡ t.plan_digest
  pub same_plan_version : u.plan_version ≡ t.plan_version
  pub same_note : u.plan_confirmation_note_digest ≡ t.plan_confirmation_note_digest
  pub same_gate1 : u.gate1_ref ≡ t.gate1_ref
  pub same_source : u.gate1_source_digest ≡ t.gate1_source_digest
  pub same_gate1_note : u.gate1_note_digest ≡ t.gate1_note_digest
  pub outcome : is_some u.terminal_outcome ≡ is_closed u.state
  pub not_completed : u.terminal_outcome ≢ some completed
  pub plan_gate : past_plan u.state ≡ true → past_plan t.state ≡ true
  pub formula_gate : past_formula u.state ≡ true → past_formula t.state ≡ true

-- What an event leaves, of an attempt that was open and a task that was not closed.
pub record FocusKeeps (t : Task) (x : Attempt) (f : Focus) : Type 0 where
  pub attempt : AttemptKeeps x f.attempt
  pub task : TaskKeeps t f.task
  pub closing : is_closed f.task.state ≡ true → is_ended f.attempt.state ≡ true

module _ (b : Bindings) (t : Task) (x : Attempt)
    (open_attempt : is_some x.terminal_outcome ≡ is_ended x.state)
    (open_x : is_ended x.state ≡ false)
    (task_outcome : is_some t.terminal_outcome ≡ is_closed t.state)
    (open_task : is_closed t.state ≡ false) where
  pub on_submission_observed-keeps :
      (d : ObserveSubmission) → Ensures (FocusKeeps t x) (on_submission_observed b t x d)
  unfolding on_submission_observed
  on_submission_observed-keeps d =
      skip _ _ (skip _ _ (skip _ _ (skip _ _ (bind _ _ λ b' _. done (ground arith)))))

  pub on_run_observed-keeps : (d : ObserveRun) → Ensures (FocusKeeps t x) (on_run_observed b t x d)
  unfolding on_run_observed
  on_run_observed-keeps d = skip _ _ (
      skip _ _ (
        skip _ _ (
          skip _ _ (
            skip _ _ (
              skip _ _ (
                bind _ _ λ b' _. bind _ _ λ y hy. bind _ _ λ u hu. done (
                  ground (
                    arith,
                    transition_attempt-eq x AttemptState.running y,
                    transition_task-cases t TaskState.running,
                  ))))))))

  pub on_provider_evidence_observed-keeps :
      (d : ObserveProviderEvidence)
      → Ensures (FocusKeeps t x) (on_provider_evidence_observed b t x d)
  unfolding on_provider_evidence_observed
  on_provider_evidence_observed-keeps d =
      skip _ _ (skip _ _ (skip _ _ (skip _ _ (bind _ _ λ b' _. done (ground arith)))))

  pub on_gate3_observed-keeps :
      (d : ObserveGate3) → Ensures (FocusKeeps t x) (on_gate3_observed b t x d)
  unfolding on_gate3_observed
  on_gate3_observed-keeps d =
      skip _ _ (skip _ _ (skip _ _ (skip _ _ (skip _ _ (skip _ _ (done (ground arith)))))))

  pub on_result_linked-keeps :
      (d : LinkResult) → Ensures (FocusKeeps t x) (on_result_linked b t x d)
  unfolding on_result_linked
  on_result_linked-keeps d =
      skip _ _ (skip _ _ (skip _ _ (skip _ _ (skip _ _ (bind _ _ λ b' _. done (ground arith))))))

  pub on_domain_gate_entered-keeps :
      (d : EnterDomainGate) → Ensures (FocusKeeps t x) (on_domain_gate_entered b t x d)
  unfolding on_domain_gate_entered
  on_domain_gate_entered-keeps d = skip _ _ (
      skip _ _ (
        checked _ _ _ λ here. skip _ _ (
          bind _ _ λ b' _.
            bind _ _ λ u hu. done (ground (arith, transition_task-eq t awaiting_domain_gate u)))))

  pub on_domain_gate_resolved-keeps :
      (d : ResolveDomainGate) → Ensures (FocusKeeps t x) (on_domain_gate_resolved b t x d)
  unfolding on_domain_gate_resolved
  on_domain_gate_resolved-keeps d = skip _ _ (
      skip _ _ (
        checked _ _ _ λ here.
          branch (d.outcome == passed) (gate_passed b t x) (gate_rejected b t x)
            (λ _. bind _ _ λ u hu. done (ground (arith, transition_task-eq t TaskState.running u)))
            (λ _. bind _ _ λ y hy. bind _ _ λ u hu. done (
              ground (
                arith,
                transition_attempt-eq x AttemptState.terminal y,
                transition_task-eq t TaskState.terminal u,
              )))))

  pub on_reconcile_started-keeps :
      (d : BeginReconcile) → Ensures (FocusKeeps t x) (on_reconcile_started b t x d)
  unfolding on_reconcile_started
  on_reconcile_started-keeps d =
      skip _ _
        (skip _ _ (bind _ _ λ y hy. done (ground (arith, transition_attempt-eq x reconciling y))))

  pub on_stop_requested-keeps :
      (d : RequestStop) → Ensures (FocusKeeps t x) (on_stop_requested b t x d)
  unfolding on_stop_requested
  on_stop_requested-keeps d = skip _ _ (
      skip _ _ (
        skip _ _ (
          skip _ _ (
            bind _ _ λ b' _. bind _ _ λ y hy.
              done (ground (arith, transition_attempt-eq x AttemptState.stop_requested y))))))

  pub on_attempt_completed-keeps :
      (d : CompleteAttempt) → Ensures (FocusKeeps t x) (on_attempt_completed b t x d)
  unfolding on_attempt_completed
  on_attempt_completed-keeps d = skip _ _ (
      skip _ _ (
        skip _ _ (
          bind _ _ λ y hy. done (ground (arith, transition_attempt-eq x AttemptState.terminal y)))))
