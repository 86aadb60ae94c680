-- ===== src/Authority/StopEvents.antt =====
-- The branches of `_reduce_existing_event` that reconcile, stop, complete or expire an attempt.
use hermes_quant_agent.Prelude.{
  List, [], ◌∷◌, Bool, true, false, not, ◌&&◌, ◌||◌, Option, none, some, Text, text, text_eq,
  option_eq, nat_eq, ◌==◌, is_none, is_some, if◌then◌else◌,
}
use hermes_quant_agent.Prelude.Outcome.{Done, ok, err, check, refuse, ◌>>=◌, ◌>>◌}
use hermes_quant_agent.Patterns.{safe_ref, safe_digest}
use hermes_quant_agent.States.Machine.{
  AttemptState, planned, reconciling, stop_requested, awaiting_domain_gate, task_state_eq,
  attempt_state_eq,
}
use hermes_quant_agent.Contract.Values.{
  TerminalOutcome, completed, failed, cancelled, stopped, StopOutcome, requested, confirmed,
  already_terminal, outcome_unknown, Reason, submission_outcome_unknown, run_outcome_unknown,
  stop_outcome_unknown, authority_recovery, ResolvedState, terminal_outcome_eq,
}
use hermes_quant_agent.Contract.Command.{
  BeginReconcile, ResolveReconcile, RequestStop, ObserveStop, CompleteAttempt,
}
use hermes_quant_agent.Authority.Errors.{
  Checked, workflow_binding_conflict, workflow_invalid_transition, workflow_journal_corrupt,
}
use hermes_quant_agent.Authority.Store.{
  Attempt, Task, Bindings, command_refs, run_refs, role_binding, run_binding, stop,
}
use hermes_quant_agent.Authority.Bindings.{bind_global, require_global_binding}
use hermes_quant_agent.Authority.Checks.{
  transition_attempt, validate_attempt_ref, truthy, validate_completed_attempt,
}
use hermes_quant_agent.Authority.AttemptEvents.{Focus}

-- what each reason to reconcile needs of the attempt
unfoldable pub reconcile_check : Attempt → Reason → Checked Done
reconcile_check attempt submission_outcome_unknown =
    check (attempt.state == planned && is_none attempt.submission_command_ref)
      workflow_binding_conflict
reconcile_check attempt run_outcome_unknown =
    check (is_some attempt.submission_command_ref && is_none attempt.run_ref)
      workflow_binding_conflict
reconcile_check attempt stop_outcome_unknown =
    check (is_some attempt.stop_command_ref && attempt.state == stop_requested)
      workflow_binding_conflict
reconcile_check attempt authority_recovery =
    check
      (truthy attempt.submission_command_ref
        || truthy attempt.run_ref
        || truthy attempt.stop_command_ref)
      workflow_binding_conflict
reconcile_check attempt (Reason.other s) = err workflow_journal_corrupt

-- `reconcile_started`
unfoldable pub on_reconcile_started : Bindings → Task → Attempt → BeginReconcile → Checked Focus
unfolding reconcile_check
on_reconcile_started bindings task attempt d = do
  validate_attempt_ref d.attempt_ref attempt.attempt_ref
  reconcile_check attempt d.reason_code
  moved ← transition_attempt attempt reconciling
  ok (record {
    bindings = bindings;
    task = task;
    attempt = record moved { reconcile_reason = some d.reason_code };
  })

-- the attempt when an observation resolved that it runs, or ended
unfoldable pub resolve : Attempt → Text → ResolvedState → Option TerminalOutcome → Checked Attempt
resolve attempt observation ResolvedState.running outcome = do
  check (is_some attempt.run_ref) workflow_binding_conflict
  moved ← transition_attempt attempt AttemptState.running
  check (is_none outcome) workflow_journal_corrupt
  ok (record moved { reconcile_reason = none })
resolve attempt observation ResolvedState.terminal outcome = do
  moved ← transition_attempt attempt AttemptState.terminal
  check (outcome == some failed || outcome == some cancelled) workflow_invalid_transition
  ok (record moved {
    reconcile_reason = none;
    terminal_outcome = outcome;
    terminal_observation_digest = some observation;
  })
resolve attempt observation (ResolvedState.other s) outcome = err workflow_invalid_transition

unfoldable pub is_resolved_state : ResolvedState → Bool
is_resolved_state (ResolvedState.other s) = false
is_resolved_state _ = true

-- `reconcile_resolved`
unfoldable pub on_reconcile_resolved : Bindings → Task → Attempt → ResolveReconcile → Checked Focus
unfolding resolve is_resolved_state
on_reconcile_resolved bindings task attempt d = do
  validate_attempt_ref d.attempt_ref attempt.attempt_ref
  check (attempt.state == reconciling && is_resolved_state d.resolved_state)
      workflow_invalid_transition
  check (safe_digest d.observation_digest) workflow_journal_corrupt
  resolved ← resolve attempt d.observation_digest d.resolved_state d.terminal_outcome
  ok (record { bindings = bindings; task = task; attempt = resolved })

-- `stop_requested`
unfoldable pub on_stop_requested : Bindings → Task → Attempt → RequestStop → Checked Focus
on_stop_requested bindings task attempt d = do
  validate_attempt_ref d.attempt_ref attempt.attempt_ref
  check ((attempt.run_ref == some d.run_ref) && safe_ref d.stop_command_ref (text "command:"))
      workflow_binding_conflict
  check (is_none attempt.stop_command_ref) workflow_binding_conflict
  require_global_binding run_refs d.run_ref
      (run_binding task.task_ref attempt.attempt_ref attempt.submission_command_ref) bindings
  bindings' ←
      bind_global command_refs d.stop_command_ref
        (role_binding task.task_ref attempt.attempt_ref stop) bindings
  moved ← transition_attempt attempt stop_requested
  ok (record {
    bindings = bindings';
    task = task;
    attempt = record moved {
      stop_command_ref = some d.stop_command_ref;
      stop_outcome = some requested;
    };
  })

-- the last provider evidence, if there is one
unfoldable pub last_ref : List Text → Option Text
last_ref [] = none
last_ref (x ∷ []) = some x
last_ref (x ∷ y ∷ rest) = last_ref (y ∷ rest)

-- a stop that ended the attempt with `actual`
unfoldable pub stop_ends : Task → Attempt → Option TerminalOutcome → Checked Attempt
unfolding last_ref
stop_ends task attempt actual = do
  check
      (actual == some completed
        || actual == some failed
        || actual == some cancelled
        || actual == some stopped)
      workflow_journal_corrupt
  (if actual == some completed
      then validate_completed_attempt task attempt attempt.run_ref
          (last_ref attempt.provider_evidence_refs) false
      else ok tt)
  moved ← transition_attempt attempt AttemptState.terminal
  ok (record moved { terminal_outcome = actual })

-- a stop whose outcome is not known
unfoldable pub stop_unknown : Attempt → Checked Attempt
stop_unknown attempt = do
  moved ←
      (if attempt.state == stop_requested
        then transition_attempt attempt reconciling
        else if attempt.state == reconciling
        then ok attempt
        else err workflow_invalid_transition)
  ok (record moved { reconcile_reason = some stop_outcome_unknown })

unfoldable pub stop_effect : Task → Attempt → StopOutcome → Option TerminalOutcome → Checked Attempt
unfolding stop_ends stop_unknown
stop_effect task attempt outcome_unknown actual = stop_unknown attempt
stop_effect task attempt confirmed actual = do
  check (actual == some stopped) workflow_binding_conflict
  stop_ends task attempt actual
stop_effect task attempt already_terminal actual = stop_ends task attempt actual
stop_effect task attempt requested actual = err workflow_journal_corrupt
stop_effect task attempt (StopOutcome.other s) actual = err workflow_journal_corrupt

-- `stop_observed`
unfoldable pub on_stop_observed : Bindings → Task → Attempt → ObserveStop → Checked Focus
unfolding stop_effect
on_stop_observed bindings task attempt d = do
  validate_attempt_ref d.attempt_ref attempt.attempt_ref
  check ((attempt.stop_command_ref == some d.stop_command_ref) && safe_digest d.observation_digest)
      workflow_binding_conflict
  observed ← stop_effect task attempt d.outcome d.actual_terminal_outcome
  ok (record {
    bindings = bindings;
    task = task;
    attempt = record observed {
      stop_outcome = some d.outcome;
      stop_observation_digest = some d.observation_digest;
    };
  })

-- `attempt_completed`
unfoldable pub on_attempt_completed : Bindings → Task → Attempt → CompleteAttempt → Checked Focus
on_attempt_completed bindings task attempt d = do
  validate_attempt_ref d.attempt_ref attempt.attempt_ref
  refuse (not (d.terminal_outcome == completed) || task.state == awaiting_domain_gate)
      workflow_binding_conflict
  validate_completed_attempt task attempt d.run_ref d.provider_evidence_ref false
  moved ← transition_attempt attempt AttemptState.terminal
  ok (record {
    bindings = bindings;
    task = task;
    attempt = record moved { terminal_outcome = some d.terminal_outcome };
  })
