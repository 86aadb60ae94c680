-- ===== src/Authority/Reduce.antt =====
-- `_reduce`: one record of the journal changes the projection.
use hermes_quant_agent.Prelude.{
  ◌+◌, [], ◌∷◌, Bool, true, false, not, ◌&&◌, ◌||◌, Option, none, some, Text, text, text_eq,
  option_eq, nat_eq, ◌==◌, is_some, ltb,
}
use hermes_quant_agent.Prelude.Dict.{get, put}
use hermes_quant_agent.Prelude.Outcome.{ok, err, check, refuse, ◌>>=◌, ◌>>◌}
use hermes_quant_agent.Patterns.{safe_ref}
use hermes_quant_agent.States.Machine.{
  TaskState, AttemptState, draft, task_state_eq, attempt_state_eq,
}
use hermes_quant_agent.Authority.Errors.{
  Checked, workflow_binding_conflict, workflow_duplicate_operation,
  workflow_expiry_requires_terminal, workflow_intent_expired, workflow_journal_corrupt,
  workflow_stale_version, workflow_terminal_immutable, workflow_terminal_or_missing_task,
  workflow_unknown_event,
}
use hermes_quant_agent.Authority.Event.{
  PlanFields, ResearchStarted, Record, Event, research_started, research_continued,
  research_claim_bound, plan_proposed, plan_revised, plan_confirmation_requested, plan_confirmed,
  formula_confirmed, candidate_manifest_bound, task_completed, submission_observed, run_observed,
  provider_evidence_observed, gate3_observed, result_linked, domain_gate_entered,
  domain_gate_resolved, reconcile_started, reconcile_resolved, stop_requested, stop_observed,
  attempt_completed, intent_expired, payload_tombstone_observed,
}
use hermes_quant_agent.Authority.Store.{Attempt, Task, Bindings, Projection, Receipt, payload_refs}
use hermes_quant_agent.Authority.Digests.{Authority, generated_task_ref, generated_attempt_ref}
use hermes_quant_agent.Authority.Bindings.{bind_global}
use hermes_quant_agent.Authority.Checks.{find_attempt, store_attempt, validate_attempt_creation}
use hermes_quant_agent.Authority.TaskEvents.{
  Change, new_attempt, payload_index_binding, on_research_claim_bound, on_research_continued,
}
use hermes_quant_agent.Authority.PlanEvents.{
  on_plan, on_plan_confirmation_requested, on_plan_confirmed, on_formula_confirmed,
  on_candidate_manifest_bound, on_task_completed,
}
use hermes_quant_agent.Authority.AttemptEvents.{
  Focus, on_submission_observed, on_run_observed, on_provider_evidence_observed, on_gate3_observed,
  on_result_linked, on_domain_gate_entered, on_domain_gate_resolved,
}
use hermes_quant_agent.Authority.StopEvents.{
  on_reconcile_started, on_reconcile_resolved, on_stop_requested, on_stop_observed,
  on_attempt_completed,
}
use hermes_quant_agent.Authority.Expiry.{
  expiry_can_terminalize, record_payload_tombstone, on_intent_expired,
}

abbrev pub no_plan : PlanFields
no_plan = record { plan_version = none; plan_digest = none; plan_source_ref = none }

-- the task that `research_started` creates
unfoldable pub new_task : Record → ResearchStarted → Task
unfolding new_attempt
new_task r d = record {
  task_ref = r.task_ref;
  workspace_ref = d.workspace_ref;
  managed_session_ref = d.managed_session_ref;
  version = 1;
  state = draft;
  plan_version = none;
  plan_digest = none;
  plan_source_ref = none;
  requires_formula_confirmation = none;
  plan_confirmation_note_digest = none;
  gate1_ref = none;
  gate1_source_digest = none;
  gate1_note_digest = none;
  gate1_candidate_ref = none;
  gate1_manifest_digest = none;
  gate3_refs = [];
  result_refs = [];
  research_claim_digest = none;
  terminal_outcome = none;
  attempts = new_attempt d.creation no_plan r ∷ [];
}

-- `_reduce_research_started`
unfoldable pub reduce_research_started :
    Authority → Projection → Record → ResearchStarted → Checked Change
unfolding new_task payload_index_binding
reduce_research_started a p r d = do
  refuse (not (r.task_version == 1) || is_some (get r.task_ref p.tasks)) workflow_journal_corrupt
  let task_ref = generated_task_ref a r.operation_id r.operation_digest
  let attempt_ref = generated_attempt_ref a task_ref 1 r.operation_digest
  check
      ((r.task_ref == task_ref)
        && (r.attempt_ref == some attempt_ref)
        && (d.creation.attempt_ref == attempt_ref))
      workflow_binding_conflict
  check
      (safe_ref d.workspace_ref (text "workspace:")
        && safe_ref d.managed_session_ref (text "session:"))
      workflow_journal_corrupt
  validate_attempt_creation d.creation r.attempt_ref 1
  check (ltb r.occurred_at d.creation.intent_expires_at) workflow_intent_expired
  bindings' ←
      bind_global payload_refs d.creation.payload_ref
        (payload_index_binding a.owner_user_id r attempt_ref d.workspace_ref d.managed_session_ref)
        p.bindings
  ok (record { bindings = bindings'; task = new_task r d })

-- The branches of `_reduce_existing_event` behind the check that the attempt is not terminal.
unfoldable pub on_live_attempt :
    Authority → Bindings → Task → Attempt → Record → Event → Checked Focus
on_live_attempt a b t x r (submission_observed d) = on_submission_observed b t x d
on_live_attempt a b t x r (run_observed d) = on_run_observed b t x d
on_live_attempt a b t x r (provider_evidence_observed d) = on_provider_evidence_observed b t x d
on_live_attempt a b t x r (gate3_observed d) = on_gate3_observed b t x d
on_live_attempt a b t x r (result_linked d) = on_result_linked b t x d
on_live_attempt a b t x r (domain_gate_entered d) = on_domain_gate_entered b t x d
on_live_attempt a b t x r (domain_gate_resolved d) = on_domain_gate_resolved b t x d
on_live_attempt a b t x r (reconcile_started d) = on_reconcile_started b t x d
on_live_attempt a b t x r (reconcile_resolved d) = on_reconcile_resolved b t x d
on_live_attempt a b t x r (stop_requested d) = on_stop_requested b t x d
on_live_attempt a b t x r (stop_observed d) = on_stop_observed b t x d
on_live_attempt a b t x r (attempt_completed d) = on_attempt_completed b t x d
on_live_attempt a b t x r (intent_expired d) = on_intent_expired a.owner_user_id b t x r d
on_live_attempt a b t x r _ = err workflow_unknown_event

-- `payload_tombstone_observed`, for an attempt that may have ended
unfoldable pub on_tombstone_observed :
    Authority → Bindings → Task → Attempt → Record → Event → Checked Focus
on_tombstone_observed a b t x r (payload_tombstone_observed d) = do
  refuse (expiry_can_terminalize t x) workflow_expiry_requires_terminal
  record_payload_tombstone a.owner_user_id b t x r d
on_tombstone_observed a b t x r e = do
  refuse (x.state == AttemptState.terminal) workflow_terminal_immutable
  on_live_attempt a b t x r e

unfoldable pub require_attempt_ref : Option Text → Checked Text
require_attempt_ref none = err workflow_journal_corrupt
require_attempt_ref (some ref) = ok ref

-- The part of `_reduce_existing_event` for events of one attempt: the write goes to the attempt
-- inside the task.
unfoldable pub reduce_attempt_event : Authority → Bindings → Task → Record → Event → Checked Change
unfolding require_attempt_ref
reduce_attempt_event a b t r e = do
  attempt_ref ← require_attempt_ref r.attempt_ref
  attempt ← find_attempt t attempt_ref
  after ← on_tombstone_observed a b t attempt r e
  ok (record { bindings = after.bindings; task = store_attempt after.attempt after.task })

-- `_reduce_existing_event`
unfoldable pub reduce_existing_event : Authority → Bindings → Task → Record → Event → Checked Change
reduce_existing_event a b t r (research_claim_bound d) = on_research_claim_bound b t d
reduce_existing_event a b t r (research_continued d) = on_research_continued a b t r d
reduce_existing_event a b t r (plan_proposed d) = on_plan false b t d
reduce_existing_event a b t r (plan_revised d) = on_plan true b t d
reduce_existing_event a b t r (plan_confirmation_requested d) = on_plan_confirmation_requested b t d
reduce_existing_event a b t r (plan_confirmed d) = on_plan_confirmed b t d
reduce_existing_event a b t r (formula_confirmed d) = on_formula_confirmed b t d
reduce_existing_event a b t r (candidate_manifest_bound d) = on_candidate_manifest_bound b t d
reduce_existing_event a b t r (task_completed d) = on_task_completed b t d
reduce_existing_event a b t r e = reduce_attempt_event a b t r e

-- `event_type == "payload_tombstone_observed"`
unfoldable pub is_tombstone_observation : Event → Bool
is_tombstone_observation (payload_tombstone_observed d) = true
is_tombstone_observation _ = false

unfoldable pub require_task : Option Task → Checked Task
require_task none = err workflow_terminal_or_missing_task
require_task (some task) = ok task

-- The `else` of `_reduce`: an event of a task that exists.
unfoldable pub reduce_existing : Authority → Projection → Record → Checked Change
unfolding is_tombstone_observation require_task
reduce_existing a p r = do
  task ← require_task (get r.task_ref p.tasks)
  refuse (task.state == TaskState.terminal && not (is_tombstone_observation r.event))
      workflow_terminal_or_missing_task
  check (r.task_version == task.version + 1) workflow_stale_version
  change ← reduce_existing_event a p.bindings task r r.event
  ok (record { bindings = change.bindings; task = record change.task { version = r.task_version } })

unfoldable pub reduce_event : Authority → Projection → Record → Event → Checked Change
reduce_event a p r (research_started d) = reduce_research_started a p r d
reduce_event a p r e = reduce_existing a p r

unfoldable pub receipt_of : Record → Receipt
receipt_of r = record {
  operation_id = r.operation_id;
  operation_digest = r.operation_digest;
  event_id = r.event_id;
  task_ref = r.task_ref;
  task_version = r.task_version;
  attempt_ref = r.attempt_ref;
}

-- what `_reduce` writes once the event is accepted
unfoldable pub commit : Projection → Record → Change → Projection
unfolding receipt_of
commit p r change = record {
  last_sequence = r.sequence;
  last_record_sha256 = some r.record_sha256;
  operations =
      put r.operation_id (record { operation_digest = r.operation_digest; receipt = receipt_of r })
        p.operations;
  bindings = change.bindings;
  tasks = put r.task_ref change.task p.tasks;
}

-- `_reduce`
unfoldable pub reduce : Authority → Projection → Record → Checked Projection
reduce a p r = do
  refuse (is_some (get r.operation_id p.operations)) workflow_duplicate_operation
  change ← reduce_event a p r r.event
  ok (commit p r change)
