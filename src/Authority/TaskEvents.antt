-- ===== src/Authority/TaskEvents.antt =====
-- The branches of `_reduce_existing_event` for events of the task as a whole. Each returns the
-- indexes and the task that the branch leaves.
use hermes_quant_agent.Prelude.{
  ◌+◌, [], ◌∷◌, ◌++◌, not, ◌&&◌, ◌||◌, none, some, Text, text, text_eq, option_eq, nat_eq, ◌==◌,
  contains, is_none, ltb, length, map,
}
use hermes_quant_agent.Prelude.Outcome.{ok, check, refuse, ◌>>=◌, ◌>>◌}
use hermes_quant_agent.Patterns.{safe_digest}
use hermes_quant_agent.States.Machine.{
  TaskState, AttemptState, ready, planned, task_state_eq, attempt_state_eq,
}
use hermes_quant_agent.Contract.Values.{terminal_outcome_eq}
use hermes_quant_agent.Authority.Errors.{
  Checked, workflow_attempt_not_terminal, workflow_binding_conflict, workflow_intent_expired,
  workflow_invalid_transition, workflow_plan_conflict,
}
use hermes_quant_agent.Authority.Digests.{Authority, generated_attempt_ref}
use hermes_quant_agent.Authority.Event.{
  AttemptCreation, PlanFields, ResearchClaimBound, ResearchContinued, Record,
}
use hermes_quant_agent.Authority.Store.{
  Attempt, Task, Binding, Bindings, payload_refs, payload_binding,
}
use hermes_quant_agent.Authority.Bindings.{bind_global}
use hermes_quant_agent.Authority.Checks.{
  latest, find_attempt, is_latest, store_attempt, validate_attempt_creation, validate_plan_fields,
  is_true, gate1_complete,
}

-- What a branch of the reduction leaves of the indexes and of the task.
pub record Change : Type 0 where
  pub bindings : Bindings
  pub task : Task

-- `_new_attempt`
unfoldable pub new_attempt : AttemptCreation → PlanFields → Record → Attempt
new_attempt d plan r = record {
  attempt_ref = d.attempt_ref;
  attempt_number = d.attempt_number;
  state = planned;
  payload_ref = d.payload_ref;
  payload_digest = d.payload_digest;
  intent_expires_at = d.intent_expires_at;
  creation_operation_id = r.operation_id;
  creation_operation_digest = r.operation_digest;
  creation_event_id = r.event_id;
  payload_tombstone_event_ref = none;
  payload_tombstone_digest = none;
  payload_tombstone_operation_id = none;
  payload_tombstone_operation_digest = none;
  payload_tombstone_workflow_event_id = none;
  research_claim_digest = none;
  plan_version = plan.plan_version;
  plan_digest = plan.plan_digest;
  plan_source_ref = plan.plan_source_ref;
  submission_command_ref = none;
  run_ref = none;
  provider_evidence_refs = [];
  gate3_refs = [];
  gate3_entries = [];
  result_refs = [];
  domain_gate_ref = none;
  domain_gate_outcome = none;
  stop_command_ref = none;
  stop_outcome = none;
  stop_observation_digest = none;
  reconcile_reason = none;
  terminal_observation_digest = none;
  terminal_outcome = none;
}

-- `_payload_index_binding`, given the record's attempt
unfoldable pub payload_index_binding : Text → Record → Text → Text → Text → Binding
payload_index_binding owner r attempt_ref workspace_ref managed_session_ref =
    payload_binding owner workspace_ref managed_session_ref r.task_ref attempt_ref r.operation_id
      r.operation_digest r.event_id

-- `research_claim_bound`
unfoldable pub on_research_claim_bound : Bindings → Task → ResearchClaimBound → Checked Change
on_research_claim_bound bindings task d = do
  attempt ← find_attempt task d.attempt_ref
  check
      (is_latest task attempt
        && (attempt.attempt_number == 1)
        && (attempt.state == planned)
        && (attempt.payload_ref == d.payload_ref)
        && (attempt.payload_digest == d.payload_digest)
        && (d.payload_ref == text "payload:sha256:" ++ d.payload_digest)
        && safe_digest d.research_claim_digest
        && is_none attempt.research_claim_digest
        && (is_none task.research_claim_digest
            || task.research_claim_digest == some d.research_claim_digest))
      workflow_binding_conflict
  let claimed = record attempt { research_claim_digest = some d.research_claim_digest }
  let task' = record (store_attempt claimed task) {
    research_claim_digest = some d.research_claim_digest;
  }
  ok (record { bindings = bindings; task = task' })

-- `research_continued`
unfoldable pub on_research_continued :
    Authority → Bindings → Task → Record → ResearchContinued → Checked Change
unfolding new_attempt payload_index_binding
on_research_continued a bindings task r d = do
  check (task.state == ready || task.state == TaskState.running) workflow_invalid_transition
  previous ← latest task
  check (previous.state == AttemptState.terminal) workflow_attempt_not_terminal
  refuse (is_true task.requires_formula_confirmation && not (gate1_complete task))
      workflow_binding_conflict
  check
      ((d.plan.plan_version == task.plan_version)
        && (d.plan.plan_digest == task.plan_digest)
        && (d.plan.plan_source_ref == task.plan_source_ref))
      workflow_plan_conflict
  let number = length task.attempts + 1
  validate_attempt_creation d.creation r.attempt_ref number
  validate_plan_fields d.plan
  check (d.creation.attempt_ref == generated_attempt_ref a task.task_ref number r.operation_digest)
      workflow_binding_conflict
  check (ltb r.occurred_at d.creation.intent_expires_at) workflow_intent_expired
  refuse (contains d.creation.attempt_ref (map (λ (x : Attempt). x.attempt_ref) task.attempts))
      workflow_binding_conflict
  bindings' ←
      bind_global payload_refs d.creation.payload_ref
        (payload_index_binding a.owner_user_id r d.creation.attempt_ref task.workspace_ref
          task.managed_session_ref)
        bindings
  let continued = record (new_attempt d.creation d.plan r) {
    research_claim_digest = task.research_claim_digest;
  }
  ok (record {
    bindings = bindings';
    task = record task { attempts = task.attempts ++ continued ∷ [] };
  })
