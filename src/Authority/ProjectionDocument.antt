-- ===== src/Authority/ProjectionDocument.antt =====
-- The JSON document of the projection, which `_projection_bytes` measures and `_write_projection`
-- publishes.
use hermes_quant_agent.Prelude.{ℕ, List, [], ◌∷◌, Option, none, some, Text, text}
use hermes_quant_agent.Prelude.Dict.{Dict}
use hermes_quant_agent.Json.{
  Json, Items, null, num, str, nil, cons, optional_str, optional_num, optional_bool,
}
use hermes_quant_agent.Clock.{timestamp}
use hermes_quant_agent.Contract.Values.{gate_outcome_text, stop_outcome_text, reason_text}
use hermes_quant_agent.States.Machine.{task_state_text, attempt_state_text}
use hermes_quant_agent.Contract.Documents.{optional_outcome}
use hermes_quant_agent.Authority.Document.{object}
use hermes_quant_agent.Authority.Store.{
  Gate3Entry, Attempt, Task, Namespace, Role, Binding, Receipt, Operation, Projection, command_refs,
  run_refs, provider_evidence_refs, result_refs, gate_refs, tombstone_event_refs,
  payload_tombstone_observations, candidate_refs, payload_refs, submission, stop, gate1, domain,
  role_binding, run_binding, evidence_binding, manifest_binding, tombstone_binding,
  observation_binding, payload_binding,
}

texts : List Text → Items
texts [] = nil
texts (s ∷ rest) = cons (str s) (texts rest)

values : {A : Type 0} → (A → Json) → List A → Items
values f [] = nil
values f (a ∷ rest) = cons (f a) (values f rest)

entries : {A : Type 0} → (A → Json) → Dict Text A → List (Text × Json)
entries f [] = []
entries f ((key, a) ∷ rest) = (key, f a) ∷ entries f rest

optional : {A : Type 0} → (A → Text) → Option A → Json
optional f none = null
optional f (some a) = str (f a)

gate3_document : Gate3Entry → Json
gate3_document g = object (
    (text "run_ref", str g.run_ref)
    ∷ (text "gate_ref", str g.gate_ref)
    ∷ (text "candidate_ref", str g.candidate_ref)
    ∷ (text "manifest_digest", str g.manifest_digest)
    ∷ (text "final_receipt_ref", str g.final_receipt_ref)
    ∷ (text "base_commit", str g.base_commit)
    ∷ [])

unfoldable pub attempt_document : Attempt → Json
unfolding texts values optional gate3_document
attempt_document a = object (
    (text "attempt_ref", str a.attempt_ref)
    ∷ (text "attempt_number", num a.attempt_number)
    ∷ (text "state", str (attempt_state_text a.state))
    ∷ (text "payload_ref", str a.payload_ref)
    ∷ (text "payload_digest", str a.payload_digest)
    ∷ (text "intent_expires_at", str (timestamp a.intent_expires_at))
    ∷ (text "creation_operation_id", str a.creation_operation_id)
    ∷ (text "creation_operation_digest", str a.creation_operation_digest)
    ∷ (text "creation_event_id", str a.creation_event_id)
    ∷ (text "payload_tombstone_event_ref", optional_str a.payload_tombstone_event_ref)
    ∷ (text "payload_tombstone_digest", optional_str a.payload_tombstone_digest)
    ∷ (text "payload_tombstone_operation_id", optional_str a.payload_tombstone_operation_id)
    ∷ (text "payload_tombstone_operation_digest", optional_str a.payload_tombstone_operation_digest)
    ∷ (
      text "payload_tombstone_workflow_event_id",
      optional_str a.payload_tombstone_workflow_event_id,
    )
    ∷ (text "research_claim_digest", optional_str a.research_claim_digest)
    ∷ (text "plan_version", optional_num a.plan_version)
    ∷ (text "plan_digest", optional_str a.plan_digest)
    ∷ (text "plan_source_ref", optional_str a.plan_source_ref)
    ∷ (text "submission_command_ref", optional_str a.submission_command_ref)
    ∷ (text "run_ref", optional_str a.run_ref)
    ∷ (text "provider_evidence_refs", Json.arr (texts a.provider_evidence_refs))
    ∷ (text "gate3_refs", Json.arr (texts a.gate3_refs))
    ∷ (text "gate3_entries", Json.arr (values gate3_document a.gate3_entries))
    ∷ (text "result_refs", Json.arr (texts a.result_refs))
    ∷ (text "domain_gate_ref", optional_str a.domain_gate_ref)
    ∷ (text "domain_gate_outcome", optional gate_outcome_text a.domain_gate_outcome)
    ∷ (text "stop_command_ref", optional_str a.stop_command_ref)
    ∷ (text "stop_outcome", optional stop_outcome_text a.stop_outcome)
    ∷ (text "stop_observation_digest", optional_str a.stop_observation_digest)
    ∷ (text "reconcile_reason", optional reason_text a.reconcile_reason)
    ∷ (text "terminal_observation_digest", optional_str a.terminal_observation_digest)
    ∷ (text "terminal_outcome", optional_outcome a.terminal_outcome)
    ∷ [])

unfoldable pub task_document : Task → Json
unfolding texts values attempt_document
task_document t = object (
    (text "task_ref", str t.task_ref)
    ∷ (text "workspace_ref", str t.workspace_ref)
    ∷ (text "managed_session_ref", str t.managed_session_ref)
    ∷ (text "version", num t.version)
    ∷ (text "state", str (task_state_text t.state))
    ∷ (text "plan_version", optional_num t.plan_version)
    ∷ (text "plan_digest", optional_str t.plan_digest)
    ∷ (text "plan_source_ref", optional_str t.plan_source_ref)
    ∷ (text "requires_formula_confirmation", optional_bool t.requires_formula_confirmation)
    ∷ (text "plan_confirmation_note_digest", optional_str t.plan_confirmation_note_digest)
    ∷ (text "gate1_ref", optional_str t.gate1_ref)
    ∷ (text "gate1_source_digest", optional_str t.gate1_source_digest)
    ∷ (text "gate1_note_digest", optional_str t.gate1_note_digest)
    ∷ (text "gate1_candidate_ref", optional_str t.gate1_candidate_ref)
    ∷ (text "gate1_manifest_digest", optional_str t.gate1_manifest_digest)
    ∷ (text "gate3_refs", Json.arr (texts t.gate3_refs))
    ∷ (text "result_refs", Json.arr (texts t.result_refs))
    ∷ (text "research_claim_digest", optional_str t.research_claim_digest)
    ∷ (text "terminal_outcome", optional_outcome t.terminal_outcome)
    ∷ (text "attempts", Json.arr (values attempt_document t.attempts))
    ∷ [])

role_text : Role → Text
role_text submission = text "submission"
role_text stop = text "stop"
role_text gate1 = text "gate1"
role_text domain = text "domain"

unfoldable pub binding_document : Binding → Json
unfolding role_text
binding_document (role_binding task_ref attempt_ref role) = object (
    (text "task_ref", str task_ref)
    ∷ (text "attempt_ref", str attempt_ref)
    ∷ (text "role", str (role_text role))
    ∷ [])
binding_document (run_binding task_ref attempt_ref command_ref) = object (
    (text "task_ref", str task_ref)
    ∷ (text "attempt_ref", str attempt_ref)
    ∷ (text "command_ref", optional_str command_ref)
    ∷ [])
binding_document (evidence_binding task_ref attempt_ref run_ref) = object (
    (text "task_ref", str task_ref)
    ∷ (text "attempt_ref", str attempt_ref)
    ∷ (text "run_ref", str run_ref)
    ∷ [])
binding_document (manifest_binding manifest_digest) =
    object ((text "manifest_digest", str manifest_digest) ∷ [])
binding_document (tombstone_binding attempt_ref payload_ref tombstone_digest) = object (
    (text "attempt_ref", str attempt_ref)
    ∷ (text "payload_ref", str payload_ref)
    ∷ (text "tombstone_digest", str tombstone_digest)
    ∷ [])
binding_document
      (observation_binding owner workspace session task attempt payload event digest operation
        operation_digest workflow_event kind) =
    object (
      (text "owner_user_id", str owner)
      ∷ (text "workspace_ref", str workspace)
      ∷ (text "managed_session_ref", str session)
      ∷ (text "task_ref", str task)
      ∷ (text "attempt_ref", str attempt)
      ∷ (text "payload_ref", str payload)
      ∷ (text "tombstone_event_ref", str event)
      ∷ (text "tombstone_digest", str digest)
      ∷ (text "operation_id", str operation)
      ∷ (text "operation_digest", str operation_digest)
      ∷ (text "workflow_event_id", str workflow_event)
      ∷ (text "workflow_event_type", str kind)
      ∷ [])
binding_document
      (payload_binding owner workspace session task attempt operation operation_digest event) =
    object (
      (text "owner_user_id", str owner)
      ∷ (text "workspace_ref", str workspace)
      ∷ (text "managed_session_ref", str session)
      ∷ (text "task_ref", str task)
      ∷ (text "attempt_ref", str attempt)
      ∷ (text "creation_operation_id", str operation)
      ∷ (text "creation_operation_digest", str operation_digest)
      ∷ (text "creation_event_id", str event)
      ∷ [])

receipt_document : Receipt → Json
receipt_document r = object (
    (text "operation_id", str r.operation_id)
    ∷ (text "operation_digest", str r.operation_digest)
    ∷ (text "event_id", str r.event_id)
    ∷ (text "task_ref", str r.task_ref)
    ∷ (text "task_version", num r.task_version)
    ∷ (text "attempt_ref", optional_str r.attempt_ref)
    ∷ [])

operation_document : Operation → Json
unfolding receipt_document
operation_document o = object (
    (text "operation_digest", str o.operation_digest)
    ∷ (text "receipt", receipt_document o.receipt)
    ∷ [])

namespace_document : Projection → Namespace → Json
unfolding entries binding_document
namespace_document p n = object (entries binding_document (p.bindings n))

-- the dict that `_replay` starts from and `_reduce` changes
unfoldable pub projection_document : Text → ℕ → Projection → Json
unfolding entries operation_document namespace_document task_document
projection_document owner_user_id schema_version p = object (
    (text "schema_version", num schema_version)
    ∷ (text "owner_user_id", str owner_user_id)
    ∷ (text "last_sequence", num p.last_sequence)
    ∷ (text "last_record_sha256", optional_str p.last_record_sha256)
    ∷ (text "operations", object (entries operation_document p.operations))
    ∷ (
      text "bindings",
      object (
          (text "command_refs", namespace_document p command_refs)
          ∷ (text "run_refs", namespace_document p run_refs)
          ∷ (text "provider_evidence_refs", namespace_document p provider_evidence_refs)
          ∷ (text "result_refs", namespace_document p result_refs)
          ∷ (text "gate_refs", namespace_document p gate_refs)
          ∷ (text "tombstone_event_refs", namespace_document p tombstone_event_refs)
          ∷ (
            text "payload_tombstone_observations",
            namespace_document p payload_tombstone_observations,
          )
          ∷ (text "candidate_refs", namespace_document p candidate_refs)
          ∷ (text "payload_refs", namespace_document p payload_refs)
          ∷ []),
    )
    ∷ (text "tasks", object (entries task_document p.tasks))
    ∷ [])
