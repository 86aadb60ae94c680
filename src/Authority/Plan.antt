-- ===== src/Authority/Plan.antt =====
-- `_plan_event`: the event that a command asks for, before it is checked by the reduction.
use hermes_quant_agent.Prelude.{
  ℕ, ◌+◌, not, ◌&&◌, ◌||◌, Option, none, some, Text, text, text_eq, option_eq, nat_eq, ◌==◌,
  is_some, ltb, leb, length, if◌then◌else◌,
}
use hermes_quant_agent.Prelude.Dict.{get}
use hermes_quant_agent.Prelude.Outcome.{Done, ok, err, check, refuse, ◌>>=◌, ◌>>◌}
use hermes_quant_agent.Patterns.{strip_prefix, safe_digest}
use hermes_quant_agent.States.Machine.{TaskState, planned, task_state_eq, attempt_state_eq}
use hermes_quant_agent.Contract.Command.{
  StartResearch, ContinueResearch, BindResearchClaim, ExpiryMutation, TaskCommand, Command,
  continue_research, bind_research_claim, propose_plan, revise_plan, request_plan_confirmation,
  confirm_plan, confirm_formula, bind_candidate_manifest, observe_submission, observe_run,
  observe_provider_evidence, observe_gate3, link_result, enter_domain_gate, resolve_domain_gate,
  begin_reconcile, resolve_reconcile, request_stop, observe_stop, complete_attempt, complete_task,
  expire_intent, observe_payload_tombstone, start_research, on_task,
}
use hermes_quant_agent.Authority.Errors.{
  Checked, invalid_ref, type_error, workflow_intent_expired, workflow_binding_conflict,
  workflow_task_not_found, workflow_stale_version, workflow_intent_not_expired,
  workflow_terminal_immutable,
}
use hermes_quant_agent.Authority.Event.{
  Event, research_started, research_continued, research_claim_bound, plan_proposed, plan_revised,
  plan_confirmation_requested, plan_confirmed, formula_confirmed, candidate_manifest_bound,
  task_completed, submission_observed, run_observed, provider_evidence_observed, gate3_observed,
  result_linked, domain_gate_entered, domain_gate_resolved, reconcile_started, reconcile_resolved,
  stop_requested, stop_observed, attempt_completed, intent_expired, payload_tombstone_observed,
}
use hermes_quant_agent.Authority.Store.{Task, Projection}
use hermes_quant_agent.Authority.Digests.{Authority, generated_task_ref, generated_attempt_ref}
use hermes_quant_agent.Authority.Checks.{latest, find_attempt, is_latest}

-- What `_plan_event` returns; the event holds its `data`.
pub record Planned : Type 0 where
  pub event : Event
  pub task_ref : Text
  pub attempt_ref : Option Text

digest_or_fail : Option Text → Checked Text
digest_or_fail none = err invalid_ref
digest_or_fail (some d) = if safe_digest d then ok d else err invalid_ref

-- `payload_digest_from_ref`
unfoldable pub payload_digest_from_ref : Text → Checked Text
unfolding digest_or_fail
payload_digest_from_ref payload_ref =
    digest_or_fail (strip_prefix (text "payload:sha256:") payload_ref)

-- the branch of `StartResearch`
unfoldable pub plan_start :
    Authority → Projection → StartResearch → Text → Text → ℕ → Checked Planned
plan_start a p c operation_id operation_digest occurred_at = do
  refuse (leb c.intent_expires_at occurred_at) workflow_intent_expired
  let task_ref = generated_task_ref a operation_id operation_digest
  let attempt_ref = generated_attempt_ref a task_ref 1 operation_digest
  refuse (is_some (get task_ref p.tasks)) workflow_binding_conflict
  payload_digest ← payload_digest_from_ref c.payload_ref
  ok (record {
    event = research_started (record {
      workspace_ref = c.workspace_ref;
      managed_session_ref = c.managed_session_ref;
      creation = record {
        attempt_ref = attempt_ref;
        attempt_number = 1;
        payload_ref = c.payload_ref;
        payload_digest = payload_digest;
        intent_expires_at = c.intent_expires_at;
      };
    });
    task_ref = task_ref;
    attempt_ref = some attempt_ref;
  })

-- the branch of `ContinueResearch`
unfoldable pub plan_continue : Authority → Task → ContinueResearch → Text → ℕ → Checked Planned
plan_continue a task c operation_digest occurred_at = do
  refuse (leb c.intent_expires_at occurred_at) workflow_intent_expired
  let number = length task.attempts + 1
  let attempt_ref = generated_attempt_ref a task.task_ref number operation_digest
  payload_digest ← payload_digest_from_ref c.payload_ref
  ok (record {
    event = research_continued (record {
      creation = record {
        attempt_ref = attempt_ref;
        attempt_number = number;
        payload_ref = c.payload_ref;
        payload_digest = payload_digest;
        intent_expires_at = c.intent_expires_at;
      };
      plan = record {
        plan_version = task.plan_version;
        plan_digest = task.plan_digest;
        plan_source_ref = task.plan_source_ref;
      };
    });
    task_ref = task.task_ref;
    attempt_ref = some attempt_ref;
  })

-- the branch of `BindResearchClaim`
unfoldable pub plan_claim : Task → BindResearchClaim → Checked Planned
plan_claim task c = do
  attempt ← find_attempt task c.attempt_ref
  refuse
      (not (is_latest task attempt)
        || not (attempt.attempt_number == 1)
        || not (attempt.state == planned)
        || not (attempt.payload_ref == c.payload_ref)
        || is_some attempt.submission_command_ref
        || is_some attempt.research_claim_digest
        || (is_some task.research_claim_digest
            && not (task.research_claim_digest == some c.research_claim_digest)))
      workflow_binding_conflict
  payload_digest ← payload_digest_from_ref c.payload_ref
  ok (record {
    event = research_claim_bound (record {
      attempt_ref = c.attempt_ref;
      payload_ref = c.payload_ref;
      payload_digest = payload_digest;
      research_claim_digest = c.research_claim_digest;
    });
    task_ref = task.task_ref;
    attempt_ref = some c.attempt_ref;
  })

-- what both expiry mutations check of their attempt
unfoldable pub check_expiry : Task → ExpiryMutation → ℕ → Checked Done
check_expiry task c occurred_at = do
  attempt ← find_attempt task c.attempt_ref
  check (attempt.payload_ref == c.payload_ref) workflow_binding_conflict
  refuse (ltb occurred_at attempt.intent_expires_at) workflow_intent_not_expired

-- an event for `task["attempts"][-1]["attempt_ref"]`
unfoldable pub plan_latest : Task → Event → Checked Planned
plan_latest task event = do
  attempt ← latest task
  ok (record { event = event; task_ref = task.task_ref; attempt_ref = some attempt.attempt_ref })

-- an event for the attempt that the command names
unfoldable pub plan_attempt : Task → Text → Event → Checked Planned
plan_attempt task attempt_ref event =
    ok (record { event = event; task_ref = task.task_ref; attempt_ref = some attempt_ref })

-- The branches behind the checks of the task's state and version.
unfoldable pub plan_live : Authority → Task → TaskCommand → Text → ℕ → Checked Planned
unfolding plan_continue plan_claim check_expiry plan_latest plan_attempt
plan_live a t (continue_research c) digest now = plan_continue a t c digest now
plan_live a t (bind_research_claim c) digest now = plan_claim t c
plan_live a t (propose_plan c) digest now = plan_latest t (plan_proposed c)
plan_live a t (revise_plan c) digest now = plan_latest t (plan_revised c)
plan_live a t (request_plan_confirmation c) digest now =
    plan_latest t (plan_confirmation_requested c)
plan_live a t (confirm_plan c) digest now = plan_latest t (
    plan_confirmed (record {
      plan_version = c.plan_version;
      plan_digest = c.plan_digest;
      confirmation_note_digest = a.digests.sha256 c.confirmation_note;
    }))
plan_live a t (confirm_formula c) digest now = plan_latest t (
    formula_confirmed (record {
      gate_ref = c.gate_ref;
      reviewed_source_digest = c.reviewed_source_digest;
      confirmation_note_digest = a.digests.sha256 c.confirmation_note;
    }))
plan_live a t (bind_candidate_manifest c) digest now = plan_latest t (candidate_manifest_bound c)
plan_live a t (observe_submission c) digest now =
    plan_attempt t c.attempt_ref (submission_observed c)
plan_live a t (observe_run c) digest now = plan_attempt t c.attempt_ref (run_observed c)
plan_live a t (observe_provider_evidence c) digest now =
    plan_attempt t c.attempt_ref (provider_evidence_observed c)
plan_live a t (observe_gate3 c) digest now = plan_attempt t c.attempt_ref (gate3_observed c)
plan_live a t (link_result c) digest now = plan_attempt t c.attempt_ref (result_linked c)
plan_live a t (enter_domain_gate c) digest now =
    plan_attempt t c.attempt_ref (domain_gate_entered c)
plan_live a t (resolve_domain_gate c) digest now =
    plan_attempt t c.attempt_ref (domain_gate_resolved c)
plan_live a t (begin_reconcile c) digest now = plan_attempt t c.attempt_ref (reconcile_started c)
plan_live a t (resolve_reconcile c) digest now = plan_attempt t c.attempt_ref (reconcile_resolved c)
plan_live a t (request_stop c) digest now = plan_attempt t c.attempt_ref (stop_requested c)
plan_live a t (observe_stop c) digest now = plan_attempt t c.attempt_ref (stop_observed c)
plan_live a t (complete_attempt c) digest now = plan_attempt t c.attempt_ref (attempt_completed c)
plan_live a t (complete_task c) digest now = plan_latest t (task_completed c)
plan_live a t (expire_intent c) digest now = do
  check_expiry t c now
  plan_attempt t c.attempt_ref (intent_expired c)
plan_live a t (observe_payload_tombstone c) digest now = err type_error

-- The command of a task that exists: a tombstone may be observed for a task that has ended.
unfoldable pub plan_for_task : Authority → Task → ℕ → TaskCommand → Text → ℕ → Checked Planned
plan_for_task a t expected_version (observe_payload_tombstone c) digest now = do
  check (expected_version == t.version) workflow_stale_version
  check_expiry t c now
  plan_attempt t c.attempt_ref (payload_tombstone_observed c)
plan_for_task a t expected_version c digest now = do
  refuse (t.state == TaskState.terminal) workflow_terminal_immutable
  check (expected_version == t.version) workflow_stale_version
  plan_live a t c digest now

unfoldable pub existing_task : Option Task → Checked Task
existing_task none = err workflow_task_not_found
existing_task (some task) = ok task

-- `_plan_event`
unfoldable pub plan_event : Authority → Projection → Command → Text → ℕ → Checked Planned
unfolding existing_task
plan_event a p command digest now = elim command.request [
  | start_research c ↦ plan_start a p c command.operation_id digest now
  | on_task e c ↦ existing_task (get e.task_ref p.tasks) >>= λ task.
      plan_for_task a task e.expected_version c digest now
]
