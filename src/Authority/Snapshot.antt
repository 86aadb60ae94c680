-- ===== src/Authority/Snapshot.antt =====
-- `snapshot`: what a reader sees of a task.
use hermes_quant_agent.Prelude.{ℕ, List, Bool, Option, Text, text, text_eq, map}
use hermes_quant_agent.Prelude.Dict.{get}
use hermes_quant_agent.Prelude.Outcome.{ok, check, ◌>>=◌, ◌>>◌}
use hermes_quant_agent.Patterns.{safe_ref}
use hermes_quant_agent.Contract.Values.{TerminalOutcome, GateOutcome, StopOutcome, Reason}
use hermes_quant_agent.States.Machine.{TaskState, AttemptState}
use hermes_quant_agent.Authority.Errors.{Checked, workflow_invalid_ref}
use hermes_quant_agent.Authority.Store.{Gate3Entry, Attempt, Task}
use hermes_quant_agent.Authority.Digests.{Authority}
use hermes_quant_agent.Authority.Journal.{replay}
use hermes_quant_agent.Authority.Plan.{existing_task}
use hermes_quant_agent.Authority.Apply.{Files, repair_disposable_projection}

-- `AttemptSnapshot`; a `Gate3Snapshot` has the fields of the entry
pub record AttemptSnapshot : Type 0 where
  pub attempt_ref : Text
  pub attempt_number : ℕ
  pub state : AttemptState
  pub payload_ref : Text
  pub payload_digest : Text
  pub intent_expires_at : ℕ
  pub payload_tombstone_event_ref : Option Text
  pub payload_tombstone_digest : Option Text
  pub plan_version : Option ℕ
  pub plan_digest : Option Text
  pub plan_source_ref : Option Text
  pub submission_command_ref : Option Text
  pub run_ref : Option Text
  pub provider_evidence_refs : List Text
  pub gate3_refs : List Text
  pub gate3_bindings : List Gate3Entry
  pub result_refs : List Text
  pub domain_gate_ref : Option Text
  pub domain_gate_outcome : Option GateOutcome
  pub stop_command_ref : Option Text
  pub stop_outcome : Option StopOutcome
  pub stop_observation_digest : Option Text
  pub reconcile_reason : Option Reason
  pub terminal_observation_digest : Option Text
  pub terminal_outcome : Option TerminalOutcome
  pub research_claim_digest : Option Text

-- `WorkflowSnapshot`
pub record WorkflowSnapshot : Type 0 where
  pub owner_user_id : Text
  pub workspace_ref : Text
  pub managed_session_ref : Text
  pub task_ref : Text
  pub version : ℕ
  pub state : TaskState
  pub plan_version : Option ℕ
  pub plan_digest : Option Text
  pub plan_source_ref : Option Text
  pub requires_formula_confirmation : Option Bool
  pub plan_confirmation_note_digest : Option Text
  pub gate1_ref : Option Text
  pub gate1_source_digest : Option Text
  pub gate1_note_digest : Option Text
  pub gate1_candidate_ref : Option Text
  pub gate1_manifest_digest : Option Text
  pub gate3_refs : List Text
  pub result_refs : List Text
  pub terminal_outcome : Option TerminalOutcome
  pub attempts : List AttemptSnapshot
  pub research_claim_digest : Option Text

-- the `AttemptSnapshot` of an attempt
unfoldable pub attempt_snapshot : Attempt → AttemptSnapshot
attempt_snapshot x = record {
  attempt_ref = x.attempt_ref;
  attempt_number = x.attempt_number;
  state = x.state;
  payload_ref = x.payload_ref;
  payload_digest = x.payload_digest;
  intent_expires_at = x.intent_expires_at;
  payload_tombstone_event_ref = x.payload_tombstone_event_ref;
  payload_tombstone_digest = x.payload_tombstone_digest;
  plan_version = x.plan_version;
  plan_digest = x.plan_digest;
  plan_source_ref = x.plan_source_ref;
  submission_command_ref = x.submission_command_ref;
  run_ref = x.run_ref;
  provider_evidence_refs = x.provider_evidence_refs;
  gate3_refs = x.gate3_refs;
  gate3_bindings = x.gate3_entries;
  result_refs = x.result_refs;
  domain_gate_ref = x.domain_gate_ref;
  domain_gate_outcome = x.domain_gate_outcome;
  stop_command_ref = x.stop_command_ref;
  stop_outcome = x.stop_outcome;
  stop_observation_digest = x.stop_observation_digest;
  reconcile_reason = x.reconcile_reason;
  terminal_observation_digest = x.terminal_observation_digest;
  terminal_outcome = x.terminal_outcome;
  research_claim_digest = x.research_claim_digest;
}

-- `_snapshot_from_task`
unfoldable pub snapshot_from_task : Text → Task → WorkflowSnapshot
unfolding attempt_snapshot
snapshot_from_task owner t = record {
  owner_user_id = owner;
  workspace_ref = t.workspace_ref;
  managed_session_ref = t.managed_session_ref;
  task_ref = t.task_ref;
  version = t.version;
  state = t.state;
  plan_version = t.plan_version;
  plan_digest = t.plan_digest;
  plan_source_ref = t.plan_source_ref;
  requires_formula_confirmation = t.requires_formula_confirmation;
  plan_confirmation_note_digest = t.plan_confirmation_note_digest;
  gate1_ref = t.gate1_ref;
  gate1_source_digest = t.gate1_source_digest;
  gate1_note_digest = t.gate1_note_digest;
  gate1_candidate_ref = t.gate1_candidate_ref;
  gate1_manifest_digest = t.gate1_manifest_digest;
  gate3_refs = t.gate3_refs;
  result_refs = t.result_refs;
  terminal_outcome = t.terminal_outcome;
  attempts = map attempt_snapshot t.attempts;
  research_claim_digest = t.research_claim_digest;
}

-- `snapshot`: the files it leaves, and the snapshot
unfoldable pub snapshot : Authority → Files → Text → Checked (Files × WorkflowSnapshot)
unfolding snapshot_from_task
snapshot a files task_ref = do
  check (safe_ref task_ref (text "task:")) workflow_invalid_ref
  p ← replay a files.journal
  repaired ← repair_disposable_projection a files p
  task ← existing_task (get task_ref p.tasks)
  ok (repaired, snapshot_from_task a.owner_user_id task)
