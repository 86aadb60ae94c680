-- ===== src/Authority/AttemptEvents.antt =====
-- The branches of `_reduce_existing_event` for events of one attempt, up to its domain gate. Each
-- returns the indexes, the task and the attempt that the branch leaves; the attempt's reference is
-- the record's `attempt_ref`.
use hermes_quant_agent.Prelude.{
  [], ◌∷◌, ◌++◌, not, ◌&&◌, ◌||◌, some, text, text_eq, option_eq, nat_eq, ◌==◌, contains, is_none,
  is_some, if◌then◌else◌,
}
use hermes_quant_agent.Prelude.Outcome.{ok, check, refuse, ◌>>=◌, ◌>>◌}
use hermes_quant_agent.Patterns.{safe_ref, is_hex_of_length}
use hermes_quant_agent.States.Machine.{
  TaskState, AttemptState, planned, reconciling, ready, awaiting_domain_gate, task_state_eq,
  attempt_state_eq,
}
use hermes_quant_agent.Contract.Values.{
  passed, pending, rejected, domain_gate_rejected, gate_outcome_eq,
}
use hermes_quant_agent.Contract.Command.{
  ObserveSubmission, ObserveRun, ObserveProviderEvidence, ObserveGate3, LinkResult, EnterDomainGate,
  ResolveDomainGate,
}
use hermes_quant_agent.Authority.Errors.{
  Checked, workflow_binding_conflict, workflow_invalid_transition, workflow_journal_corrupt,
  workflow_plan_conflict,
}
use hermes_quant_agent.Authority.Store.{
  Attempt, Task, Bindings, command_refs, run_refs, provider_evidence_refs, result_refs, gate_refs,
  candidate_refs, role_binding, run_binding, evidence_binding, manifest_binding, submission, domain,
}
use hermes_quant_agent.Authority.Bindings.{bind_global, require_global_binding}
use hermes_quant_agent.Authority.Checks.{
  transition_task, transition_attempt, validate_attempt_ref, validate_run_binding, same_plan,
}

-- What a branch leaves of the indexes, the task and the attempt.
pub record Focus : Type 0 where
  pub bindings : Bindings
  pub task : Task
  pub attempt : Attempt

-- `submission_observed`
unfoldable pub on_submission_observed :
    Bindings → Task → Attempt → ObserveSubmission → Checked Focus
on_submission_observed bindings task attempt d = do
  validate_attempt_ref d.attempt_ref attempt.attempt_ref
  check (safe_ref d.command_ref (text "command:")) workflow_journal_corrupt
  check
      ((attempt.state == planned || attempt.state == reconciling)
        && is_none attempt.submission_command_ref)
      workflow_binding_conflict
  refuse ((task.state == ready || task.state == TaskState.running) && not (same_plan attempt task))
      workflow_plan_conflict
  bindings' ←
      bind_global command_refs d.command_ref
        (role_binding task.task_ref attempt.attempt_ref submission) bindings
  ok (record {
    bindings = bindings';
    task = task;
    attempt = record attempt { submission_command_ref = some d.command_ref };
  })

-- `run_observed`
unfoldable pub on_run_observed : Bindings → Task → Attempt → ObserveRun → Checked Focus
on_run_observed bindings task attempt d = do
  validate_attempt_ref d.attempt_ref attempt.attempt_ref
  check (safe_ref d.command_ref (text "command:") && safe_ref d.run_ref (text "run:"))
      workflow_journal_corrupt
  check (attempt.submission_command_ref == some d.command_ref) workflow_binding_conflict
  check (is_none attempt.run_ref) workflow_binding_conflict
  check (attempt.state == planned || attempt.state == reconciling) workflow_invalid_transition
  require_global_binding command_refs d.command_ref
      (role_binding task.task_ref attempt.attempt_ref submission) bindings
  bindings' ←
      bind_global run_refs d.run_ref
        (run_binding task.task_ref attempt.attempt_ref (some d.command_ref)) bindings
  moved ← transition_attempt attempt AttemptState.running
  task' ← (if task.state == ready then transition_task task TaskState.running else ok task)
  ok (record {
    bindings = bindings';
    task = task';
    attempt = record moved { run_ref = some d.run_ref };
  })

-- `provider_evidence_observed`
unfoldable pub on_provider_evidence_observed :
    Bindings → Task → Attempt → ObserveProviderEvidence → Checked Focus
on_provider_evidence_observed bindings task attempt d = do
  validate_run_binding attempt d.attempt_ref d.run_ref attempt.attempt_ref
  check (safe_ref d.provider_evidence_ref (text "provider-evidence:")) workflow_journal_corrupt
  refuse (contains d.provider_evidence_ref attempt.provider_evidence_refs) workflow_binding_conflict
  require_global_binding run_refs d.run_ref
      (run_binding task.task_ref attempt.attempt_ref attempt.submission_command_ref) bindings
  bindings' ←
      bind_global provider_evidence_refs d.provider_evidence_ref
        (evidence_binding task.task_ref attempt.attempt_ref d.run_ref) bindings
  ok (record {
    bindings = bindings';
    task = task;
    attempt = record attempt {
      provider_evidence_refs = attempt.provider_evidence_refs ++ d.provider_evidence_ref ∷ [];
    };
  })

-- `gate3_observed`
unfoldable pub on_gate3_observed : Bindings → Task → Attempt → ObserveGate3 → Checked Focus
on_gate3_observed bindings task attempt d = do
  validate_run_binding attempt d.attempt_ref d.run_ref attempt.attempt_ref
  check
      (is_some attempt.plan_digest
        && (attempt.domain_gate_ref == some d.gate_ref)
        && (attempt.domain_gate_outcome == some passed)
        && (task.gate1_candidate_ref == some d.candidate_ref)
        && (task.gate1_manifest_digest == some d.manifest_digest)
        && safe_ref d.final_receipt_ref (text "result:")
        && contains d.final_receipt_ref attempt.result_refs
        && is_hex_of_length 40 d.base_commit)
      workflow_journal_corrupt
  refuse (contains d.gate_ref task.gate3_refs) workflow_binding_conflict
  require_global_binding gate_refs d.gate_ref
      (role_binding task.task_ref attempt.attempt_ref domain) bindings
  require_global_binding result_refs d.final_receipt_ref
      (evidence_binding task.task_ref attempt.attempt_ref d.run_ref) bindings
  require_global_binding candidate_refs d.candidate_ref (manifest_binding d.manifest_digest)
      bindings
  ok (record {
    bindings = bindings;
    task = record task { gate3_refs = task.gate3_refs ++ d.gate_ref ∷ [] };
    attempt = record attempt {
      gate3_refs = attempt.gate3_refs ++ d.gate_ref ∷ [];
      gate3_entries =
          attempt.gate3_entries
          ++ record {
            run_ref = d.run_ref;
            gate_ref = d.gate_ref;
            candidate_ref = d.candidate_ref;
            manifest_digest = d.manifest_digest;
            final_receipt_ref = d.final_receipt_ref;
            base_commit = d.base_commit;
          }
            ∷ [];
    };
  })

-- `result_linked`
unfoldable pub on_result_linked : Bindings → Task → Attempt → LinkResult → Checked Focus
on_result_linked bindings task attempt d = do
  validate_run_binding attempt d.attempt_ref d.run_ref attempt.attempt_ref
  check (is_some attempt.plan_digest) workflow_plan_conflict
  check (safe_ref d.result_ref (text "result:")) workflow_journal_corrupt
  refuse (contains d.result_ref task.result_refs) workflow_binding_conflict
  require_global_binding run_refs d.run_ref
      (run_binding task.task_ref attempt.attempt_ref attempt.submission_command_ref) bindings
  bindings' ←
      bind_global result_refs d.result_ref
        (evidence_binding task.task_ref attempt.attempt_ref d.run_ref) bindings
  ok (record {
    bindings = bindings';
    task = record task { result_refs = task.result_refs ++ d.result_ref ∷ [] };
    attempt = record attempt { result_refs = attempt.result_refs ++ d.result_ref ∷ [] };
  })

-- `domain_gate_entered`
unfoldable pub on_domain_gate_entered : Bindings → Task → Attempt → EnterDomainGate → Checked Focus
on_domain_gate_entered bindings task attempt d = do
  validate_attempt_ref d.attempt_ref attempt.attempt_ref
  check (safe_ref d.gate_ref (text "gate:")) workflow_journal_corrupt
  check (attempt.state == AttemptState.running && task.state == TaskState.running)
      workflow_invalid_transition
  check (is_none attempt.domain_gate_ref) workflow_binding_conflict
  bindings' ←
      bind_global gate_refs d.gate_ref (role_binding task.task_ref attempt.attempt_ref domain)
        bindings
  moved ← transition_task task awaiting_domain_gate
  ok (record {
    bindings = bindings';
    task = moved;
    attempt = record attempt {
      domain_gate_ref = some d.gate_ref;
      domain_gate_outcome = some pending;
    };
  })

unfoldable pub gate_passed : Bindings → Task → Attempt → Checked Focus
gate_passed bindings task attempt = do
  moved ← transition_task task TaskState.running
  ok (record {
    bindings = bindings;
    task = moved;
    attempt = record attempt { domain_gate_outcome = some passed };
  })

unfoldable pub gate_rejected : Bindings → Task → Attempt → Checked Focus
gate_rejected bindings task attempt = do
  ended ← transition_attempt attempt AttemptState.terminal
  moved ← transition_task task TaskState.terminal
  ok (record {
    bindings = bindings;
    task = record moved { terminal_outcome = some domain_gate_rejected };
    attempt = record ended {
      terminal_outcome = some domain_gate_rejected;
      domain_gate_outcome = some rejected;
    };
  })

-- `domain_gate_resolved`
unfoldable pub on_domain_gate_resolved :
    Bindings → Task → Attempt → ResolveDomainGate → Checked Focus
unfolding gate_passed gate_rejected
on_domain_gate_resolved bindings task attempt d = do
  validate_attempt_ref d.attempt_ref attempt.attempt_ref
  check (attempt.domain_gate_ref == some d.gate_ref) workflow_binding_conflict
  check (task.state == awaiting_domain_gate && (d.outcome == passed || d.outcome == rejected))
      workflow_invalid_transition
  if d.outcome == passed
      then gate_passed bindings task attempt
      else gate_rejected bindings task attempt
