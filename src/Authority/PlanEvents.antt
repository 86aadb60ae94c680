-- ===== src/Authority/PlanEvents.antt =====
-- The events of a task's plan, of its human gates and of its end.
use hermes_quant_agent.Prelude.{
  ℕ, ◌+◌, List, [], ◌∷◌, Bool, true, not, ◌&&◌, ◌||◌, Option, none, some, text, text_eq, option_eq,
  nat_eq, ◌==◌, is_none, if◌then◌else◌,
}
use hermes_quant_agent.Prelude.Outcome.{ok, err, check, refuse, ◌>>=◌, ◌>>◌}
use hermes_quant_agent.Patterns.{safe_ref, safe_digest}
use hermes_quant_agent.States.Machine.{
  TaskState, AttemptState, plan_proposed, awaiting_plan_confirmation, awaiting_formula_confirmation,
  ready, task_state_eq, attempt_state_eq,
}
use hermes_quant_agent.Contract.Values.{completed, terminal_outcome_eq}
use hermes_quant_agent.Contract.Command.{
  Plan, RequestPlanConfirmation, BindCandidateManifest, CompleteTask,
}
use hermes_quant_agent.Authority.Errors.{
  Checked, workflow_attempt_not_terminal, workflow_binding_conflict, workflow_invalid_transition,
  workflow_journal_corrupt, workflow_plan_conflict,
}
use hermes_quant_agent.Authority.Event.{PlanConfirmed, FormulaConfirmed}
use hermes_quant_agent.Authority.Store.{
  Attempt, Task, Bindings, candidate_refs, gate_refs, run_refs, role_binding, run_binding,
  manifest_binding, gate1,
}
use hermes_quant_agent.Authority.Bindings.{bind_global, require_global_binding}
use hermes_quant_agent.Authority.Checks.{
  latest, transition_task, validate_plan_binding, is_true, validate_completed_attempt,
}
use hermes_quant_agent.Authority.TaskEvents.{Change}

-- `expected_plan_version`
unfoldable pub next_plan_version : Bool → Option ℕ → Checked ℕ
next_plan_version revised none = if revised then err workflow_plan_conflict else ok 1
next_plan_version revised (some version) =
    if revised then ok (version + 1) else err workflow_plan_conflict

-- A new plan voids every confirmation of the one before it.
unfoldable pub with_plan : Plan → Task → Task
with_plan d task = record task {
  plan_version = some d.plan_version;
  plan_digest = some d.plan_digest;
  plan_source_ref = some d.plan_source_ref;
  requires_formula_confirmation = some d.requires_formula_confirmation;
  plan_confirmation_note_digest = none;
  gate1_ref = none;
  gate1_source_digest = none;
  gate1_note_digest = none;
  gate1_candidate_ref = none;
  gate1_manifest_digest = none;
}

-- `plan_proposed`, and `plan_revised` if `revised`
unfoldable pub on_plan : Bool → Bindings → Task → Plan → Checked Change
unfolding next_plan_version with_plan
on_plan revised bindings task d = do
  expected ← next_plan_version revised task.plan_version
  check (d.plan_version == expected) workflow_plan_conflict
  check (safe_digest d.plan_digest) workflow_journal_corrupt
  attempt ← latest task
  check (safe_ref d.plan_source_ref (text "run:") && (attempt.run_ref == some d.plan_source_ref))
      workflow_plan_conflict
  refuse (revised && not (attempt.state == AttemptState.terminal)) workflow_attempt_not_terminal
  require_global_binding run_refs d.plan_source_ref
      (run_binding task.task_ref attempt.attempt_ref attempt.submission_command_ref) bindings
  moved ← (if task.state == plan_proposed then ok task else transition_task task plan_proposed)
  ok (record { bindings = bindings; task = with_plan d moved })

-- `plan_confirmation_requested`
unfoldable pub on_plan_confirmation_requested :
    Bindings → Task → RequestPlanConfirmation → Checked Change
on_plan_confirmation_requested bindings task d = do
  validate_plan_binding task d.plan_version d.plan_digest
  moved ← transition_task task awaiting_plan_confirmation
  ok (record { bindings = bindings; task = moved })

-- `plan_confirmed`
unfoldable pub on_plan_confirmed : Bindings → Task → PlanConfirmed → Checked Change
on_plan_confirmed bindings task d = do
  validate_plan_binding task d.plan_version d.plan_digest
  check (safe_digest d.confirmation_note_digest) workflow_journal_corrupt
  check (task.state == awaiting_plan_confirmation) workflow_invalid_transition
  let noted = record task { plan_confirmation_note_digest = some d.confirmation_note_digest }
  moved ←
      transition_task noted (
        if is_true task.requires_formula_confirmation then awaiting_formula_confirmation else ready)
  ok (record { bindings = bindings; task = moved })

-- `formula_confirmed`
unfoldable pub on_formula_confirmed : Bindings → Task → FormulaConfirmed → Checked Change
on_formula_confirmed bindings task d = do
  check
      (safe_ref d.gate_ref (text "gate:")
        && safe_digest d.reviewed_source_digest
        && safe_digest d.confirmation_note_digest)
      workflow_journal_corrupt
  check (task.state == awaiting_formula_confirmation) workflow_invalid_transition
  attempt ← latest task
  bindings' ←
      bind_global gate_refs d.gate_ref (role_binding task.task_ref attempt.attempt_ref gate1)
        bindings
  let confirmed = record task {
    gate1_ref = some d.gate_ref;
    gate1_source_digest = some d.reviewed_source_digest;
    gate1_note_digest = some d.confirmation_note_digest;
  }
  moved ← transition_task confirmed ready
  ok (record { bindings = bindings'; task = moved })

-- `candidate_manifest_bound`
unfoldable pub on_candidate_manifest_bound :
    Bindings → Task → BindCandidateManifest → Checked Change
on_candidate_manifest_bound bindings task d = do
  check
      ((task.gate1_ref == some d.gate_ref)
        && (task.state == ready || task.state == TaskState.running)
        && safe_ref d.candidate_ref (text "candidate:")
        && safe_digest d.manifest_digest)
      workflow_binding_conflict
  check (is_none task.gate1_candidate_ref) workflow_binding_conflict
  attempt ← latest task
  require_global_binding gate_refs d.gate_ref (role_binding task.task_ref attempt.attempt_ref gate1)
      bindings
  bindings' ←
      bind_global candidate_refs d.candidate_ref (manifest_binding d.manifest_digest) bindings
  ok (record {
    bindings = bindings';
    task = record task {
      gate1_candidate_ref = some d.candidate_ref;
      gate1_manifest_digest = some d.manifest_digest;
    };
  })

-- `any(item["state"] != "terminal" for item in task["attempts"])` is false
unfoldable pub all_terminal : List Attempt → Bool
all_terminal [] = true
all_terminal (a ∷ rest) = (a.state == AttemptState.terminal) && all_terminal rest

-- `task_completed`
unfoldable pub on_task_completed : Bindings → Task → CompleteTask → Checked Change
unfolding all_terminal
on_task_completed bindings task d = do
  check (all_terminal task.attempts) workflow_attempt_not_terminal
  attempt ← latest task
  check (attempt.terminal_outcome == some d.terminal_outcome) workflow_binding_conflict
  (if d.terminal_outcome == completed
      then validate_completed_attempt task attempt d.run_ref d.provider_evidence_ref true
      else check (is_none d.run_ref && is_none d.provider_evidence_ref) workflow_journal_corrupt)
  moved ← transition_task task TaskState.terminal
  ok (record {
    bindings = bindings;
    task = record moved { terminal_outcome = some d.terminal_outcome };
  })
