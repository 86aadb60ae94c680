-- ===== src/Authority/Contexts.antt =====
-- `_expiry_context`: what the journal says of the evidence of an expired payload.
use hermes_quant_agent.Prelude.{
  ℕ, ◌-◌, List, [], ◌∷◌, ◌++◌, Bool, true, false, ◌&&◌, Option, none, some, Text, text, text_eq,
  option_eq, nat_eq, ◌==◌, is_none, is_some, leb, if◌then◌else◌,
}
use hermes_quant_agent.Prelude.Dict.{Dict, get}
use hermes_quant_agent.Prelude.Outcome.{Done, ok, err, check, refuse, ◌>>=◌, ◌>>◌}
use hermes_quant_agent.Json.{str, num, obj, end, field}
use hermes_quant_agent.Contract.Command.{
  ExistingTask, ExpiryMutation, expire_intent, observe_payload_tombstone, on_task, Command,
}
use hermes_quant_agent.Contract.Validation.{Validated, validate_expiry}
use hermes_quant_agent.Authority.Errors.{
  Checked, workflow_attempt_not_found, workflow_journal_corrupt, workflow_binding_conflict,
  workflow_invalid_internal_expiry,
}
use hermes_quant_agent.Authority.Store.{
  Attempt, Task, Binding, payload_refs, payload_tombstone_observations, observation_binding,
  payload_binding, Operation, Projection, binding_eq,
}
use hermes_quant_agent.Authority.Digests.{Authority, digest_of}
use hermes_quant_agent.Authority.Checks.{matching}
use hermes_quant_agent.Authority.Expiry.{expiry_can_terminalize}
use hermes_quant_agent.Authority.Journal.{replay, current_schema}
use hermes_quant_agent.Authority.Apply.{
  Files, WorkflowReceipt, repair_disposable_projection, canonical_command_digest,
}

-- `ExpiryTombstoneEvidence`
pub record Evidence : Type 0 where
  pub owner_user_id : Text
  pub workspace_ref : Text
  pub managed_session_ref : Text
  pub attempt_ref : Text
  pub payload_ref : Text
  pub tombstone_event_ref : Text
  pub tombstone_digest : Text

-- `_expiry_operation_id`
unfoldable pub expiry_operation_id : Authority → Evidence → Text
expiry_operation_id a e =
    text "payload-tombstone-"
    ++ digest_of a.digests (
        obj (
          field (text "schema_version") (num current_schema) (
            field (text "owner_user_id") (str a.owner_user_id) (
              field (text "attempt_ref") (str e.attempt_ref) (
                field (text "payload_ref") (str e.payload_ref) (
                  field (text "tombstone_event_ref") (str e.tombstone_event_ref)
                    (field (text "tombstone_digest") (str e.tombstone_digest) end)))))))

-- The tasks' attempts with the reference.
unfoldable pub pairs_with : Task → List Attempt → List (Task × Attempt)
pairs_with task [] = []
pairs_with task (x ∷ xs) = (task, x) ∷ pairs_with task xs

unfoldable pub matches : Text → Dict Text Task → List (Task × Attempt)
matches attempt_ref [] = []
matches attempt_ref ((_, task) ∷ tasks) =
    pairs_with task (matching attempt_ref task.attempts) ++ matches attempt_ref tasks

unfoldable pub only_match : List (Task × Attempt) → Checked (Task × Attempt)
only_match [] = err workflow_attempt_not_found
only_match (x ∷ []) = ok x
only_match (x ∷ y ∷ rest) = err workflow_journal_corrupt

-- `_ExpiryMutation.__post_init__`
unfoldable pub checked_expiry : Validated → Checked Done
checked_expiry (ok _) = ok tt
checked_expiry (err _) = err workflow_invalid_internal_expiry

-- The internal mutation, of the one kind or the other.
unfoldable pub expiry_command : Text → Text → ℕ → Bool → ExpiryMutation → Checked Command
expiry_command operation_id task_ref expected_version terminalize d = do
  let task : ExistingTask = record { task_ref = task_ref; expected_version = expected_version }
  checked_expiry (validate_expiry operation_id task d)
  ok (record {
    operation_id = operation_id;
    request = on_task task (if terminalize then expire_intent d else observe_payload_tombstone d);
  })

unfoldable pub mutation_of : Evidence → ExpiryMutation
mutation_of e = record {
  attempt_ref = e.attempt_ref;
  payload_ref = e.payload_ref;
  tombstone_event_ref = e.tombstone_event_ref;
  tombstone_digest = e.tombstone_digest;
}

-- `command_types.get(observation["workflow_event_type"])`: whether it is the expiry
unfoldable pub terminalizes : Text → Checked Bool
terminalizes event_type =
    if event_type == text "intent_expired"
    then ok true
    else if event_type == text "payload_tombstone_observed"
    then ok false
    else err workflow_journal_corrupt

unfoldable pub require_operation : Option Operation → Checked Operation
require_operation none = err workflow_journal_corrupt
require_operation (some o) = ok o

-- `_expiry_receipt_from_projection`, for the observation's event, digest and operation
unfoldable pub expiry_receipt :
    Authority
    → Projection
    → Task
    → Attempt
    → Evidence
    → Text
    → Text
    → Text
    → Text
    → Checked WorkflowReceipt
expiry_receipt a p task attempt e operation_id operation_digest event_id event_type = do
  operation ← require_operation (get operation_id p.operations)
  let r = operation.receipt
  check
      (operation.operation_digest == operation_digest
        && r.event_id == event_id
        && r.task_ref == task.task_ref
        && r.attempt_ref == some attempt.attempt_ref
        && leb 2 r.task_version
        && attempt.payload_tombstone_event_ref == some e.tombstone_event_ref
        && attempt.payload_tombstone_digest == some e.tombstone_digest
        && attempt.payload_tombstone_operation_id == some operation_id
        && attempt.payload_tombstone_operation_digest == some operation_digest
        && attempt.payload_tombstone_workflow_event_id == some event_id)
      workflow_journal_corrupt
  terminal ← terminalizes event_type
  command ←
      expiry_command operation_id task.task_ref (r.task_version - 1) terminal
        (record (mutation_of e) {
          attempt_ref = attempt.attempt_ref;
          payload_ref = attempt.payload_ref;
        })
  check (canonical_command_digest a.digests command == operation.operation_digest)
      workflow_journal_corrupt
  ok (record { receipt = r; replayed = true })

-- What `_expiry_context` finds: the receipt, or the task, its version and whether the attempt may end.
pub data Context : Type 0 where
  consumed : WorkflowReceipt → Context
  pending : Text → ℕ → Bool → Context

unfoldable pub pending_context :
    Authority → Projection → Task → Attempt → Evidence → Checked Context
pending_context a p task attempt e = do
  check
      (is_none attempt.payload_tombstone_event_ref
        && is_none attempt.payload_tombstone_digest
        && is_none attempt.payload_tombstone_operation_id
        && is_none attempt.payload_tombstone_operation_digest
        && is_none attempt.payload_tombstone_workflow_event_id)
      workflow_journal_corrupt
  refuse (is_some (get (expiry_operation_id a e) p.operations)) workflow_binding_conflict
  ok (pending task.task_ref task.version (expiry_can_terminalize task attempt))

-- The observation of the attempt, if there is one; one of another shape is not written by the reduction.
unfoldable pub observed_context :
    Authority → Projection → Task → Attempt → Evidence → Option Binding → Checked Context
observed_context a p task attempt e none = pending_context a p task attempt e
observed_context a p task attempt e
      (some (
        observation_binding owner workspace session task_ref ref payload event digest op op_digest
          id kind)) =
    do
      check
          (owner == e.owner_user_id
            && workspace == e.workspace_ref
            && session == e.managed_session_ref
            && ref == e.attempt_ref
            && payload == e.payload_ref
            && event == e.tombstone_event_ref
            && digest == e.tombstone_digest)
          workflow_binding_conflict
      receipt ← expiry_receipt a p task attempt e op op_digest id kind
      ok (consumed receipt)
observed_context a p task attempt e (some _) = err workflow_journal_corrupt

-- The files after `_expiry_context`, and what it returns.
pub record InContext : Type 0 where
  pub files : Files
  pub context : Context

-- `_expiry_context`; a root that does not exist has no attempt
unfoldable pub expiry_context : Authority → Files → Evidence → Checked InContext
expiry_context a files e = do
  p ← replay a files.journal
  repaired ← repair_disposable_projection a files p
  (task, attempt) ← only_match (matches e.attempt_ref p.tasks)
  check
      (e.owner_user_id == a.owner_user_id
        && e.workspace_ref == task.workspace_ref
        && e.managed_session_ref == task.managed_session_ref
        && e.payload_ref == attempt.payload_ref)
      workflow_binding_conflict
  check
      (get e.payload_ref (p.bindings payload_refs)
        == some (
            payload_binding a.owner_user_id task.workspace_ref task.managed_session_ref
              task.task_ref attempt.attempt_ref attempt.creation_operation_id
              attempt.creation_operation_digest attempt.creation_event_id))
      workflow_journal_corrupt
  context ←
      observed_context a p task attempt e
        (get e.attempt_ref (p.bindings payload_tombstone_observations))
  ok (record { files = repaired; context = context })
