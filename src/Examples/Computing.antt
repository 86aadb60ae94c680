-- ===== src/Examples/Computing.antt =====
-- Names everything that a run computes with, for tests by evaluation: `unfolding computing`.
use hermes_quant_agent.Authority.Apply.{
  record_bytes, journal_bytes, projection_bytes, append_record, is_oversized,
  repair_disposable_projection, last_sha256, next_version, command_record, apply_new, apply_again,
  apply_command, canonical_command_digest, apply, replayed_receipt, operation_receipt,
}
use hermes_quant_agent.Authority.AttemptEvents.{
  on_submission_observed, on_run_observed, on_provider_evidence_observed, on_gate3_observed,
  on_result_linked, on_domain_gate_entered, gate_passed, gate_rejected, on_domain_gate_resolved,
}
use hermes_quant_agent.Authority.Bindings.{set_binding, bind_global, require_global_binding}
use hermes_quant_agent.Authority.Checks.{
  last, latest, matching, only, find_attempt, is_latest, replace, store_attempt, transition_task,
  transition_attempt, positive, safe_optional_digest, safe_optional_ref, validate_attempt_creation,
  validate_plan_fields, validate_plan_binding, validate_attempt_ref, validate_run_binding,
  gate1_complete, same_plan, member, non_empty, gate3_agrees, validate_formula_gates,
  validate_research_attempt, validate_completed_attempt,
}
use hermes_quant_agent.Authority.Digests.{
  digest_of, generated_ref, generated_task_ref, generated_attempt_ref,
}
use hermes_quant_agent.Authority.Document.{
  object_fields, object, event_data, record_members, unhashed_document, record_document,
}
use hermes_quant_agent.Authority.Event.{event_type}
use hermes_quant_agent.Authority.Expiry.{
  expiry_can_terminalize, record_payload_tombstone, on_intent_expired,
}
use hermes_quant_agent.Authority.Journal.{
  semantic_event_id, unhashed_record, build_record, safe_attempt, is_valid_record, validate_record,
  as_corrupt, replay_step, replay_from, replay,
}
use hermes_quant_agent.Authority.Plan.{
  payload_digest_from_ref, plan_start, plan_continue, plan_claim, check_expiry, plan_latest,
  plan_attempt, plan_live, plan_for_task, existing_task, plan_event,
}
use hermes_quant_agent.Authority.PlanEvents.{
  next_plan_version, with_plan, on_plan, on_plan_confirmation_requested, on_plan_confirmed,
  on_formula_confirmed, on_candidate_manifest_bound, all_terminal, on_task_completed,
}
use hermes_quant_agent.Authority.ProjectionDocument.{
  attempt_document, task_document, binding_document, projection_document,
}
use hermes_quant_agent.Authority.Receipts.{chain_end}
use hermes_quant_agent.Authority.Reduce.{
  new_task, reduce_research_started, on_live_attempt, on_tombstone_observed, require_attempt_ref,
  reduce_attempt_event, reduce_existing_event, is_tombstone_observation, require_task,
  reduce_existing, reduce_event, receipt_of, commit, reduce,
}
use hermes_quant_agent.Authority.StopEvents.{
  reconcile_check, on_reconcile_started, resolve, is_resolved_state, on_reconcile_resolved,
  on_stop_requested, last_ref, stop_ends, stop_unknown, stop_effect, on_stop_observed,
  on_attempt_completed,
}
use hermes_quant_agent.Authority.Store.{
  Namespace-discrete, Binding-discrete, namespace_eq, binding_eq,
}
use hermes_quant_agent.Authority.TaskEvents.{
  new_attempt, payload_index_binding, on_research_claim_bound, on_research_continued,
}
use hermes_quant_agent.Authority.Versions.{version_of, count_for}
use hermes_quant_agent.Clock.{padded, month_day, date, timestamp}
use hermes_quant_agent.Contract.Documents.{
  optional_outcome, task_command_members, task_command_kind, request_kind, request_members,
  command_to_document,
}
use hermes_quant_agent.Contract.Validation.{
  need, is_blank, all_printable, validate_identifier, validate_ref, validate_optional_ref,
  validate_payload_ref, validate_digest, validate_positive_version, validate_plan_version,
  validate_note, is_terminal_outcome, validate_plan, is_final_resolution, is_known_reason,
  validate_resolution, is_stop_end, is_stop_outcome, is_task_outcome, validate_completion,
  validate_expiry, validate_attempt, validate_run, validate_gate,
}
use hermes_quant_agent.Contract.Validity.{
  validate_start, validate_task_command, validate_existing_task, validate_on_task, validate_command,
}
use hermes_quant_agent.Contract.Values.{
  TerminalOutcome-discrete, GateOutcome-discrete, StopOutcome-discrete, terminal_outcome_eq,
  gate_outcome_eq, stop_outcome_eq, terminal_outcome_text, gate_outcome_text, stop_outcome_text,
  reason_text, resolved_state_text,
}
use hermes_quant_agent.Json.{
  decimal, escape, quote, text_le, sort_members, join_comma, members, optional_str, optional_num,
  optional_bool, canonical_text, canonical_items, canonical_fields,
}
use hermes_quant_agent.Patterns.{
  is_alnum, is_one_of, all_chars, is_name, is_identifier, is_hex, is_hex_of_length, safe_digest,
  strip_prefix, holds_of, safe_ref, safe_event_ref, is_payload_ref,
}
use hermes_quant_agent.Prelude.Dict.{get, put}
use hermes_quant_agent.Prelude.{option_eq, bool_eq}
use hermes_quant_agent.Prelude.Outcome.{◌>>=◌}
use hermes_quant_agent.Prelude.{nat_eq, text_eq, utf8_length}
use hermes_quant_agent.States.{
  transitions, transitions_for, validate_state, successors, validate_transition,
}
use hermes_quant_agent.States.Machine.{
  TaskState-discrete, AttemptState-discrete, task_state_eq, attempt_state_eq, task_state_text,
  attempt_state_text,
}
use hermes_quant_agent.Examples.Hash.{owner, checksum}
use hermes_quant_agent.Examples.Run.{
  task_1, attempt_1, attempt_2, continue_command, tombstone_command, planning, researching,
  apply_all,
}
use hermes_quant_agent.Prelude.{ℕ_discrete}

unfoldable pub computing : Unit {0}
unfolding record_bytes journal_bytes projection_bytes append_record is_oversized
    repair_disposable_projection last_sha256 next_version command_record apply_new apply_again
    apply_command canonical_command_digest apply replayed_receipt operation_receipt
    on_submission_observed on_run_observed on_provider_evidence_observed on_gate3_observed
    on_result_linked on_domain_gate_entered gate_passed gate_rejected on_domain_gate_resolved
    set_binding bind_global require_global_binding last latest matching only find_attempt is_latest
    replace store_attempt transition_task transition_attempt positive safe_optional_digest
    safe_optional_ref validate_attempt_creation validate_plan_fields validate_plan_binding
    validate_attempt_ref validate_run_binding gate1_complete same_plan member non_empty gate3_agrees
    validate_formula_gates validate_research_attempt validate_completed_attempt digest_of
    generated_ref generated_task_ref generated_attempt_ref object_fields object optional_outcome
    event_data record_members unhashed_document record_document event_type expiry_can_terminalize
    record_payload_tombstone on_intent_expired semantic_event_id unhashed_record build_record
    safe_attempt is_valid_record validate_record as_corrupt replay_step replay_from replay
    payload_digest_from_ref plan_start plan_continue plan_claim check_expiry plan_latest
    plan_attempt plan_live plan_for_task existing_task plan_event next_plan_version with_plan
    on_plan on_plan_confirmation_requested on_plan_confirmed on_formula_confirmed
    on_candidate_manifest_bound all_terminal on_task_completed attempt_document task_document
    binding_document projection_document chain_end new_task reduce_research_started on_live_attempt
    on_tombstone_observed require_attempt_ref reduce_attempt_event reduce_existing_event
    is_tombstone_observation require_task reduce_existing reduce_event receipt_of commit reduce
    reconcile_check on_reconcile_started resolve is_resolved_state on_reconcile_resolved
    on_stop_requested last_ref stop_ends stop_unknown stop_effect on_stop_observed
    on_attempt_completed Namespace-discrete Binding-discrete namespace_eq binding_eq new_attempt
    payload_index_binding on_research_claim_bound on_research_continued version_of count_for padded
    month_day date timestamp task_command_members task_command_kind request_kind request_members
    command_to_document need is_blank all_printable validate_identifier validate_ref
    validate_optional_ref validate_payload_ref validate_digest validate_positive_version
    validate_plan_version validate_note is_terminal_outcome validate_plan is_final_resolution
    is_known_reason validate_resolution is_stop_end is_stop_outcome is_task_outcome
    validate_completion validate_expiry validate_attempt validate_run validate_gate validate_start
    validate_task_command validate_existing_task validate_on_task validate_command
    TerminalOutcome-discrete GateOutcome-discrete StopOutcome-discrete terminal_outcome_eq
    gate_outcome_eq stop_outcome_eq terminal_outcome_text gate_outcome_text stop_outcome_text
    reason_text resolved_state_text decimal escape quote text_le sort_members join_comma members
    optional_str optional_num optional_bool canonical_text canonical_items canonical_fields is_alnum
    is_one_of all_chars is_name is_identifier is_hex is_hex_of_length safe_digest strip_prefix
    holds_of safe_ref safe_event_ref is_payload_ref get put option_eq bool_eq ◌>>=◌ nat_eq text_eq
    utf8_length TaskState-discrete AttemptState-discrete task_state_eq attempt_state_eq
    task_state_text attempt_state_text transitions transitions_for validate_state successors
    validate_transition owner checksum task_1 attempt_1 attempt_2 continue_command tombstone_command
    planning researching apply_all ℕ_discrete
computing = tt
