-- ===== src/Authority/Expiry.antt =====
-- Expiry of an intent: `_expiry_can_terminalize`, `_record_payload_tombstone`, `intent_expired`.
use hermes_quant_agent.Prelude.{
  Bool, ◌&&◌, some, Text, text_eq, option_eq, nat_eq, ◌==◌, is_none, leb,
}
use hermes_quant_agent.Prelude.Outcome.{ok, check, ◌>>=◌, ◌>>◌}
use hermes_quant_agent.Patterns.{safe_digest, safe_event_ref}
use hermes_quant_agent.States.Machine.{
  TaskState, AttemptState, planned, task_state_eq, attempt_state_eq,
}
use hermes_quant_agent.Contract.Values.{intent_expired, terminal_outcome_eq}
use hermes_quant_agent.Contract.Command.{ExpiryMutation}
use hermes_quant_agent.Authority.Errors.{
  Checked, workflow_binding_conflict, workflow_expiry_requires_reconcile,
  workflow_intent_not_expired, workflow_journal_corrupt,
}
use hermes_quant_agent.Authority.Event.{Record, event_type}
use hermes_quant_agent.Authority.Store.{
  Attempt, Task, Bindings, tombstone_event_refs, payload_tombstone_observations, tombstone_binding,
  observation_binding,
}
use hermes_quant_agent.Authority.Bindings.{bind_global}
use hermes_quant_agent.Authority.Checks.{
  is_latest, transition_task, transition_attempt, validate_attempt_ref,
}
use hermes_quant_agent.Authority.AttemptEvents.{Focus}

-- `_expiry_can_terminalize`
unfoldable pub expiry_can_terminalize : Task → Attempt → Bool
expiry_can_terminalize task attempt =
    is_latest task attempt
    && attempt.state == planned
    && is_none attempt.submission_command_ref
    && is_none attempt.run_ref
    && is_none attempt.stop_command_ref

-- `_record_payload_tombstone`
unfoldable pub record_payload_tombstone :
    Text → Bindings → Task → Attempt → Record → ExpiryMutation → Checked Focus
record_payload_tombstone owner bindings task attempt r d = do
  validate_attempt_ref d.attempt_ref attempt.attempt_ref
  check (attempt.payload_ref == d.payload_ref) workflow_binding_conflict
  check (safe_event_ref d.tombstone_event_ref && safe_digest d.tombstone_digest)
      workflow_journal_corrupt
  check (leb attempt.intent_expires_at r.occurred_at) workflow_intent_not_expired
  bindings' ←
      bind_global tombstone_event_refs d.tombstone_event_ref
        (tombstone_binding attempt.attempt_ref d.payload_ref d.tombstone_digest) bindings
  bindings'' ←
      bind_global payload_tombstone_observations attempt.attempt_ref
        (observation_binding owner task.workspace_ref task.managed_session_ref task.task_ref
          attempt.attempt_ref d.payload_ref d.tombstone_event_ref d.tombstone_digest r.operation_id
          r.operation_digest r.event_id (event_type r.event))
        bindings'
  check
      (is_none attempt.payload_tombstone_event_ref
        && is_none attempt.payload_tombstone_digest
        && is_none attempt.payload_tombstone_operation_id
        && is_none attempt.payload_tombstone_operation_digest
        && is_none attempt.payload_tombstone_workflow_event_id)
      workflow_binding_conflict
  ok (record {
    bindings = bindings'';
    task = task;
    attempt = record attempt {
      payload_tombstone_event_ref = some d.tombstone_event_ref;
      payload_tombstone_digest = some d.tombstone_digest;
      payload_tombstone_operation_id = some r.operation_id;
      payload_tombstone_operation_digest = some r.operation_digest;
      payload_tombstone_workflow_event_id = some r.event_id;
    };
  })

-- `intent_expired`
unfoldable pub on_intent_expired :
    Text → Bindings → Task → Attempt → Record → ExpiryMutation → Checked Focus
on_intent_expired owner bindings task attempt r d = do
  check (expiry_can_terminalize task attempt) workflow_expiry_requires_reconcile
  marked ← record_payload_tombstone owner bindings task attempt r d
  ended ← transition_attempt marked.attempt AttemptState.terminal
  moved ← transition_task task TaskState.terminal
  ok (record {
    bindings = marked.bindings;
    task = record moved { terminal_outcome = some intent_expired };
    attempt = record ended { terminal_outcome = some intent_expired };
  })
