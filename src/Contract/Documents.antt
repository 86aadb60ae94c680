-- ===== src/Contract/Documents.antt =====
-- `command_to_document` and `_expiry_command_document`: the canonical document of a command, whose
-- digest is the operation's. The fields are those of the class, base classes first; the order does
-- not matter, since the members are sorted.
use hermes_quant_agent.Prelude.{List, [], ◌∷◌, Option, none, some, Text, text}
use hermes_quant_agent.Json.{Json, Fields, null, num, str, bool, obj, end, field, optional_str}
use hermes_quant_agent.Clock.{timestamp}
use hermes_quant_agent.Contract.Values.{
  TerminalOutcome, terminal_outcome_text, gate_outcome_text, stop_outcome_text, reason_text,
  resolved_state_text,
}
use hermes_quant_agent.Contract.Command.{
  Plan, ExpiryMutation, TaskCommand, Request, Command, continue_research, bind_research_claim,
  propose_plan, revise_plan, request_plan_confirmation, confirm_plan, confirm_formula,
  bind_candidate_manifest, observe_submission, observe_run, observe_provider_evidence,
  observe_gate3, link_result, enter_domain_gate, resolve_domain_gate, begin_reconcile,
  resolve_reconcile, request_stop, observe_stop, complete_attempt, complete_task, expire_intent,
  observe_payload_tombstone, start_research, on_task,
}

abbrev Members : Type 0
Members = List (Text × Json)

unfoldable pub optional_outcome : Option TerminalOutcome → Json
optional_outcome none = null
optional_outcome (some o) = str (terminal_outcome_text o)

plan_members : Plan → Members
plan_members c =
    (text "plan_version", num c.plan_version)
    ∷ (text "plan_digest", str c.plan_digest)
    ∷ (text "plan_source_ref", str c.plan_source_ref)
    ∷ (text "requires_formula_confirmation", bool c.requires_formula_confirmation)
    ∷ []

tombstone_members : ExpiryMutation → Members
tombstone_members c =
    (text "attempt_ref", str c.attempt_ref)
    ∷ (text "payload_ref", str c.payload_ref)
    ∷ (text "tombstone_event_ref", str c.tombstone_event_ref)
    ∷ (text "tombstone_digest", str c.tombstone_digest)
    ∷ []

-- the fields that `_ExistingTaskOperation` does not have
unfoldable pub task_command_members : TaskCommand → Members
unfolding optional_outcome plan_members tombstone_members
task_command_members (continue_research c) =
    (text "payload_ref", str c.payload_ref)
    ∷ (text "intent_expires_at", str (timestamp c.intent_expires_at))
    ∷ []
task_command_members (bind_research_claim c) =
    (text "attempt_ref", str c.attempt_ref)
    ∷ (text "payload_ref", str c.payload_ref)
    ∷ (text "research_claim_digest", str c.research_claim_digest)
    ∷ []
task_command_members (propose_plan c) = plan_members c
task_command_members (revise_plan c) = plan_members c
task_command_members (request_plan_confirmation c) =
    (text "plan_version", num c.plan_version) ∷ (text "plan_digest", str c.plan_digest) ∷ []
task_command_members (confirm_plan c) =
    (text "plan_version", num c.plan_version)
    ∷ (text "plan_digest", str c.plan_digest)
    ∷ (text "confirmation_note", str c.confirmation_note)
    ∷ []
task_command_members (confirm_formula c) =
    (text "gate_ref", str c.gate_ref)
    ∷ (text "reviewed_source_digest", str c.reviewed_source_digest)
    ∷ (text "confirmation_note", str c.confirmation_note)
    ∷ []
task_command_members (bind_candidate_manifest c) =
    (text "gate_ref", str c.gate_ref)
    ∷ (text "candidate_ref", str c.candidate_ref)
    ∷ (text "manifest_digest", str c.manifest_digest)
    ∷ []
task_command_members (observe_submission c) =
    (text "attempt_ref", str c.attempt_ref) ∷ (text "command_ref", str c.command_ref) ∷ []
task_command_members (observe_run c) =
    (text "attempt_ref", str c.attempt_ref)
    ∷ (text "command_ref", str c.command_ref)
    ∷ (text "run_ref", str c.run_ref)
    ∷ []
task_command_members (observe_provider_evidence c) =
    (text "attempt_ref", str c.attempt_ref)
    ∷ (text "run_ref", str c.run_ref)
    ∷ (text "provider_evidence_ref", str c.provider_evidence_ref)
    ∷ []
task_command_members (observe_gate3 c) =
    (text "attempt_ref", str c.attempt_ref)
    ∷ (text "run_ref", str c.run_ref)
    ∷ (text "gate_ref", str c.gate_ref)
    ∷ (text "candidate_ref", str c.candidate_ref)
    ∷ (text "manifest_digest", str c.manifest_digest)
    ∷ (text "final_receipt_ref", str c.final_receipt_ref)
    ∷ (text "base_commit", str c.base_commit)
    ∷ []
task_command_members (link_result c) =
    (text "attempt_ref", str c.attempt_ref)
    ∷ (text "run_ref", str c.run_ref)
    ∷ (text "result_ref", str c.result_ref)
    ∷ []
task_command_members (enter_domain_gate c) =
    (text "attempt_ref", str c.attempt_ref) ∷ (text "gate_ref", str c.gate_ref) ∷ []
task_command_members (resolve_domain_gate c) =
    (text "attempt_ref", str c.attempt_ref)
    ∷ (text "gate_ref", str c.gate_ref)
    ∷ (text "outcome", str (gate_outcome_text c.outcome))
    ∷ []
task_command_members (begin_reconcile c) =
    (text "attempt_ref", str c.attempt_ref)
    ∷ (text "reason_code", str (reason_text c.reason_code))
    ∷ []
task_command_members (resolve_reconcile c) =
    (text "attempt_ref", str c.attempt_ref)
    ∷ (text "resolved_state", str (resolved_state_text c.resolved_state))
    ∷ (text "observation_digest", str c.observation_digest)
    ∷ (text "terminal_outcome", optional_outcome c.terminal_outcome)
    ∷ []
task_command_members (request_stop c) =
    (text "attempt_ref", str c.attempt_ref)
    ∷ (text "run_ref", str c.run_ref)
    ∷ (text "stop_command_ref", str c.stop_command_ref)
    ∷ []
task_command_members (observe_stop c) =
    (text "attempt_ref", str c.attempt_ref)
    ∷ (text "stop_command_ref", str c.stop_command_ref)
    ∷ (text "outcome", str (stop_outcome_text c.outcome))
    ∷ (text "observation_digest", str c.observation_digest)
    ∷ (text "actual_terminal_outcome", optional_outcome c.actual_terminal_outcome)
    ∷ []
task_command_members (complete_attempt c) =
    (text "attempt_ref", str c.attempt_ref)
    ∷ (text "terminal_outcome", str (terminal_outcome_text c.terminal_outcome))
    ∷ (text "run_ref", optional_str c.run_ref)
    ∷ (text "provider_evidence_ref", optional_str c.provider_evidence_ref)
    ∷ []
task_command_members (complete_task c) =
    (text "terminal_outcome", str (terminal_outcome_text c.terminal_outcome))
    ∷ (text "run_ref", optional_str c.run_ref)
    ∷ (text "provider_evidence_ref", optional_str c.provider_evidence_ref)
    ∷ []
task_command_members (expire_intent c) = tombstone_members c
task_command_members (observe_payload_tombstone c) = tombstone_members c

-- `_command_kind`, and the kinds of `_expiry_command_document`
unfoldable pub task_command_kind : TaskCommand → Text
task_command_kind (continue_research c) = text "workflow.continue_research"
task_command_kind (bind_research_claim c) = text "workflow.bind_research_claim"
task_command_kind (propose_plan c) = text "workflow.propose_plan"
task_command_kind (revise_plan c) = text "workflow.revise_plan"
task_command_kind (request_plan_confirmation c) = text "workflow.request_plan_confirmation"
task_command_kind (confirm_plan c) = text "workflow.confirm_plan"
task_command_kind (confirm_formula c) = text "workflow.confirm_formula"
task_command_kind (bind_candidate_manifest c) = text "workflow.bind_candidate_manifest"
task_command_kind (observe_submission c) = text "workflow.observe_submission"
task_command_kind (observe_run c) = text "workflow.observe_run"
task_command_kind (observe_provider_evidence c) = text "workflow.observe_provider_evidence"
task_command_kind (observe_gate3 c) = text "workflow.observe_gate3"
task_command_kind (link_result c) = text "workflow.link_result"
task_command_kind (enter_domain_gate c) = text "workflow.enter_domain_gate"
task_command_kind (resolve_domain_gate c) = text "workflow.resolve_domain_gate"
task_command_kind (begin_reconcile c) = text "workflow.begin_reconcile"
task_command_kind (resolve_reconcile c) = text "workflow.resolve_reconcile"
task_command_kind (request_stop c) = text "workflow.request_stop"
task_command_kind (observe_stop c) = text "workflow.observe_stop"
task_command_kind (complete_attempt c) = text "workflow.complete_attempt"
task_command_kind (complete_task c) = text "workflow.complete_task"
task_command_kind (expire_intent c) = text "workflow.expire_intent"
task_command_kind (observe_payload_tombstone c) = text "workflow.observe_payload_tombstone"

unfoldable pub request_kind : Request → Text
unfolding task_command_kind
request_kind (start_research c) = text "workflow.start_research"
request_kind (on_task e c) = task_command_kind c

unfoldable pub request_members : Request → Members
unfolding task_command_members
request_members (start_research c) =
    (text "workspace_ref", str c.workspace_ref)
    ∷ (text "managed_session_ref", str c.managed_session_ref)
    ∷ (text "payload_ref", str c.payload_ref)
    ∷ (text "intent_expires_at", str (timestamp c.intent_expires_at))
    ∷ []
request_members (on_task e c) =
    (text "task_ref", str e.task_ref)
    ∷ (text "expected_version", num e.expected_version)
    ∷ task_command_members c

document_fields : Members → Fields
document_fields [] = end
document_fields ((key, value) ∷ rest) = field key value (document_fields rest)

-- `command_to_document`, `_expiry_command_document`
unfoldable pub command_to_document : Command → Json
unfolding request_kind request_members document_fields
command_to_document command = obj (
    document_fields (
      (text "schema_version", num 2)
      ∷ (text "kind", str (request_kind command.request))
      ∷ (text "operation_id", str command.operation_id)
      ∷ request_members command.request))
