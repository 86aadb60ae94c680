-- ===== src/Contract/Validity.antt =====
-- The `__post_init__` of every command class.
use hermes_quant_agent.Prelude.{Text, text, ◌==◌}
use hermes_quant_agent.Prelude.Outcome.{ok, ◌>>◌}
use hermes_quant_agent.Patterns.{is_hex_of_length}
use hermes_quant_agent.Contract.Values.{completed, terminal_outcome_eq}
use hermes_quant_agent.Contract.Command.{
  StartResearch, ExistingTask, TaskCommand, Command, continue_research, bind_research_claim,
  propose_plan, revise_plan, request_plan_confirmation, confirm_plan, confirm_formula,
  bind_candidate_manifest, observe_submission, observe_run, observe_provider_evidence,
  observe_gate3, link_result, enter_domain_gate, resolve_domain_gate, begin_reconcile,
  resolve_reconcile, request_stop, observe_stop, complete_attempt, complete_task, expire_intent,
  observe_payload_tombstone, start_research, on_task,
}
use hermes_quant_agent.Contract.Validation.{
  invalid_digest, invalid_value, Validated, need, Unicode, validate_identifier, validate_ref,
  validate_optional_ref, validate_payload_ref, validate_digest, validate_positive_version,
  validate_plan_version, validate_note, validate_plan, is_final_resolution, is_known_reason,
  validate_resolution, is_stop_end, is_stop_outcome, is_task_outcome, validate_completion,
  validate_expiry, validate_attempt, validate_run, validate_gate,
}

-- `StartResearch.__post_init__`
unfoldable pub validate_start : StartResearch → Validated
validate_start c = do
  validate_ref c.workspace_ref (text "workspace_ref") (text "workspace:")
  validate_ref c.managed_session_ref (text "managed_session_ref") (text "session:")
  validate_payload_ref c.payload_ref

-- The `__post_init__` of each class of commands for a task that exists, behind that of
-- `_ExistingTaskOperation`.
unfoldable pub validate_task_command : Unicode → TaskCommand → Validated
validate_task_command u (continue_research c) = validate_payload_ref c.payload_ref
validate_task_command u (bind_research_claim c) = do
  validate_attempt c.attempt_ref
  validate_payload_ref c.payload_ref
  validate_digest c.research_claim_digest (text "research_claim_digest")
validate_task_command u (propose_plan c) = validate_plan c
validate_task_command u (revise_plan c) = validate_plan c
validate_task_command u (request_plan_confirmation c) = do
  validate_plan_version c.plan_version
  validate_digest c.plan_digest (text "plan_digest")
validate_task_command u (confirm_plan c) = do
  validate_plan_version c.plan_version
  validate_digest c.plan_digest (text "plan_digest")
  validate_note u c.confirmation_note
validate_task_command u (confirm_formula c) = do
  validate_gate c.gate_ref
  validate_digest c.reviewed_source_digest (text "reviewed_source_digest")
  validate_note u c.confirmation_note
validate_task_command u (bind_candidate_manifest c) = do
  validate_gate c.gate_ref
  validate_ref c.candidate_ref (text "candidate_ref") (text "candidate:")
  validate_digest c.manifest_digest (text "manifest_digest")
validate_task_command u (observe_submission c) = do
  validate_attempt c.attempt_ref
  validate_ref c.command_ref (text "command_ref") (text "command:")
validate_task_command u (observe_run c) = do
  validate_attempt c.attempt_ref
  validate_ref c.command_ref (text "command_ref") (text "command:")
  validate_run c.run_ref
validate_task_command u (observe_provider_evidence c) = do
  validate_attempt c.attempt_ref
  validate_run c.run_ref
  validate_ref c.provider_evidence_ref (text "provider_evidence_ref") (text "provider-evidence:")
validate_task_command u (observe_gate3 c) = do
  validate_attempt c.attempt_ref
  validate_run c.run_ref
  validate_gate c.gate_ref
  validate_ref c.candidate_ref (text "candidate_ref") (text "candidate:")
  validate_digest c.manifest_digest (text "manifest_digest")
  validate_ref c.final_receipt_ref (text "final_receipt_ref") (text "result:")
  need (is_hex_of_length 40 c.base_commit) invalid_digest (text "base_commit")
validate_task_command u (link_result c) = do
  validate_attempt c.attempt_ref
  validate_run c.run_ref
  validate_ref c.result_ref (text "result_ref") (text "result:")
validate_task_command u (enter_domain_gate c) = do
  validate_attempt c.attempt_ref
  validate_gate c.gate_ref
validate_task_command u (resolve_domain_gate c) = do
  validate_attempt c.attempt_ref
  validate_gate c.gate_ref
  need (is_final_resolution c.outcome) invalid_value (text "outcome")
validate_task_command u (begin_reconcile c) = do
  validate_attempt c.attempt_ref
  need (is_known_reason c.reason_code) invalid_value (text "reason_code")
validate_task_command u (resolve_reconcile c) = do
  validate_attempt c.attempt_ref
  validate_digest c.observation_digest (text "observation_digest")
  validate_resolution c.resolved_state c.terminal_outcome
validate_task_command u (request_stop c) = do
  validate_attempt c.attempt_ref
  validate_run c.run_ref
  validate_ref c.stop_command_ref (text "stop_command_ref") (text "command:")
validate_task_command u (observe_stop c) = do
  validate_attempt c.attempt_ref
  validate_ref c.stop_command_ref (text "stop_command_ref") (text "command:")
  need (is_stop_outcome c.outcome) invalid_value (text "outcome")
  validate_digest c.observation_digest (text "observation_digest")
  need (is_stop_end c.outcome c.actual_terminal_outcome) invalid_value
      (text "actual_terminal_outcome")
validate_task_command u (complete_attempt c) = do
  validate_attempt c.attempt_ref
  need (c.terminal_outcome == completed) invalid_value (text "terminal_outcome")
  validate_optional_ref c.run_ref (text "run_ref") (text "run:")
  validate_optional_ref c.provider_evidence_ref (text "provider_evidence_ref")
      (text "provider-evidence:")
validate_task_command u (complete_task c) = do
  need (is_task_outcome c.terminal_outcome) invalid_value (text "terminal_outcome")
  validate_completion c
-- the internal mutations have their own check
validate_task_command u (expire_intent c) = ok tt
validate_task_command u (observe_payload_tombstone c) = ok tt

-- `_ExistingTaskOperation.__post_init__`
unfoldable pub validate_existing_task : Text → ExistingTask → Validated
validate_existing_task operation_id e = do
  validate_identifier operation_id (text "operation_id")
  validate_ref e.task_ref (text "task_ref") (text "task:")
  validate_positive_version e.expected_version

unfoldable pub validate_on_task : Unicode → Text → ExistingTask → TaskCommand → Validated
unfolding validate_existing_task validate_task_command
validate_on_task u operation_id e (expire_intent c) = validate_expiry operation_id e c
validate_on_task u operation_id e (observe_payload_tombstone c) = validate_expiry operation_id e c
validate_on_task u operation_id e c = do
  validate_existing_task operation_id e
  validate_task_command u c

-- the `__post_init__` of a command
unfoldable pub validate_command : Unicode → Command → Validated
unfolding validate_start validate_on_task
validate_command u command = elim command.request [
  | start_research c ↦ do
    validate_identifier command.operation_id (text "operation_id")
    validate_start c
  | on_task e c ↦ validate_on_task u command.operation_id e c
]
