-- ===== src/Authority/Checks.antt =====
-- The checks that the reductions share: `_attempt`, `_transition`, the `_validate_…` methods.
use hermes_quant_agent.Prelude.{
  ℕ, List, [], ◌∷◌, Bool, true, false, ◌&&◌, ◌||◌, Option, none, some, Text, text, text_eq,
  option_eq, nat_eq, ◌==◌, contains, is_none, is_some, ltb, if◌then◌else◌, ◌++◌,
}
use hermes_quant_agent.Prelude.Outcome.{accepts, Done, ok, err, check, refuse, ◌>>◌}
use hermes_quant_agent.Patterns.{safe_ref, safe_digest}
use hermes_quant_agent.States.{validate_transition}
use hermes_quant_agent.States.Machine.{
  TaskState, AttemptState, task_state_text, attempt_state_text, task_state_eq, attempt_state_eq,
}
use hermes_quant_agent.Contract.Values.{passed, gate_outcome_eq}
use hermes_quant_agent.Authority.Errors.{
  Checked, index_error, workflow_attempt_not_found, workflow_invalid_transition,
  workflow_journal_corrupt, workflow_plan_conflict, workflow_binding_conflict,
}
use hermes_quant_agent.Authority.Event.{AttemptCreation, PlanFields}
use hermes_quant_agent.Authority.Store.{Gate3Entry, Attempt, Task}

-- `task["attempts"][-1]`
unfoldable pub last : List Attempt → Checked Attempt
last [] = err index_error
last (a ∷ []) = ok a
last (a ∷ b ∷ rest) = last (b ∷ rest)

unfoldable pub latest : Task → Checked Attempt
unfolding last
latest task = last task.attempts

-- `[attempt for attempt in task["attempts"] if attempt["attempt_ref"] == attempt_ref]`
unfoldable pub matching : Text → List Attempt → List Attempt
matching attempt_ref [] = []
matching attempt_ref (a ∷ rest) =
    let found = matching attempt_ref rest in
    if a.attempt_ref == attempt_ref then a ∷ found else found

unfoldable pub only : List Attempt → Checked Attempt
only (a ∷ []) = ok a
only _ = err workflow_attempt_not_found

-- `_attempt`
unfoldable pub find_attempt : Task → Text → Checked Attempt
unfolding matching only
find_attempt task attempt_ref = only (matching attempt_ref task.attempts)

-- `attempt is task["attempts"][-1]`, for an attempt that `_attempt` found: its reference is unique
-- in the task, so identity is equality of references.
unfoldable pub is_latest : Task → Attempt → Bool
unfolding latest
is_latest task attempt = elim (latest task) [
  | ok a ↦ a.attempt_ref == attempt.attempt_ref
  | err e ↦ false
]

-- The attempt is an object inside the task: a write to it is a write to the list.
unfoldable pub replace : Attempt → List Attempt → List Attempt
replace attempt [] = []
replace attempt (a ∷ rest) =
    (if a.attempt_ref == attempt.attempt_ref then attempt else a) ∷ replace attempt rest

unfoldable pub store_attempt : Attempt → Task → Task
unfolding replace
store_attempt attempt task = record task { attempts = replace attempt task.attempts }

-- `_transition_task`
unfoldable pub transition_task : Task → TaskState → Checked Task
transition_task task destination =
    if accepts
      (validate_transition (text "task") (task_state_text task.state) (task_state_text destination))
    then ok (record task { state = destination })
    else err workflow_invalid_transition

-- `_transition_attempt`
unfoldable pub transition_attempt : Attempt → AttemptState → Checked Attempt
transition_attempt attempt destination =
    if accepts (
      validate_transition (text "attempt") (attempt_state_text attempt.state)
        (attempt_state_text destination))
    then ok (record attempt { state = destination })
    else err workflow_invalid_transition

unfoldable pub positive : Option ℕ → Bool
positive none = false
positive (some n) = ltb 0 n

unfoldable pub safe_optional_digest : Option Text → Bool
safe_optional_digest none = false
safe_optional_digest (some d) = safe_digest d

unfoldable pub safe_optional_ref : Option Text → Text → Bool
safe_optional_ref none prefix = false
safe_optional_ref (some r) prefix = safe_ref r prefix

-- `_validate_attempt_creation`, without the plan fields
unfoldable pub validate_attempt_creation : AttemptCreation → Option Text → ℕ → Checked Done
validate_attempt_creation d record_attempt_ref expected_number =
    check
      (safe_ref d.attempt_ref (text "attempt:")
        && (some d.attempt_ref == record_attempt_ref)
        && (d.attempt_number == expected_number)
        && safe_ref d.payload_ref (text "payload:sha256:")
        && safe_digest d.payload_digest
        && (d.payload_ref == text "payload:sha256:" ++ d.payload_digest))
      workflow_journal_corrupt

-- The plan fields of `_validate_attempt_creation`, which a continuation holds and a start does not
unfoldable pub validate_plan_fields : PlanFields → Checked Done
unfolding positive safe_optional_digest safe_optional_ref
validate_plan_fields d =
    check
      (positive d.plan_version
        && safe_optional_digest d.plan_digest
        && safe_optional_ref d.plan_source_ref (text "run:"))
      workflow_journal_corrupt

-- `_validate_plan_binding`
unfoldable pub validate_plan_binding : Task → ℕ → Text → Checked Done
validate_plan_binding task plan_version plan_digest =
    check ((some plan_version == task.plan_version) && (some plan_digest == task.plan_digest))
      workflow_plan_conflict

-- `_validate_attempt_ref`
unfoldable pub validate_attempt_ref : Text → Text → Checked Done
validate_attempt_ref data_attempt_ref attempt_ref =
    check (data_attempt_ref == attempt_ref) workflow_binding_conflict

-- `_validate_run_binding`
unfoldable pub validate_run_binding : Attempt → Text → Text → Text → Checked Done
unfolding validate_attempt_ref
validate_run_binding attempt data_attempt_ref data_run_ref attempt_ref = do
  validate_attempt_ref data_attempt_ref attempt_ref
  check (attempt.run_ref == some data_run_ref) workflow_binding_conflict

-- the truth value of a field that holds a `bool` or `None`
abbrev pub is_true : Option Bool → Bool
is_true none = false
is_true (some b) = b

-- the truth value of a field that holds a `str` or `None`
abbrev pub truthy : Option Text → Bool
truthy none = false
truthy (some []) = false
truthy (some (c ∷ s)) = true

-- The human gate on the formula, and its candidate, are recorded.
unfoldable pub gate1_complete : Task → Bool
gate1_complete task =
    is_some task.gate1_ref
    && is_some task.gate1_source_digest
    && is_some task.gate1_note_digest
    && is_some task.gate1_candidate_ref
    && is_some task.gate1_manifest_digest

unfoldable pub same_plan : Attempt → Task → Bool
same_plan attempt task =
    (attempt.plan_version == task.plan_version)
    && (attempt.plan_digest == task.plan_digest)
    && (attempt.plan_source_ref == task.plan_source_ref)

unfoldable pub member : Option Text → List Text → Bool
member none refs = false
member (some ref) refs = contains ref refs

unfoldable pub non_empty : List Text → Bool
non_empty [] = false
non_empty (x ∷ xs) = true

-- `gate3 = attempt["gate3_entries"][0]` with its comparisons, after `len(…) == 1`
unfoldable pub gate3_agrees : Task → Attempt → Option Text → List Gate3Entry → Bool
gate3_agrees task attempt run_ref (g ∷ []) =
    (some g.run_ref == run_ref)
    && (some g.gate_ref == attempt.domain_gate_ref)
    && (some g.candidate_ref == task.gate1_candidate_ref)
    && (some g.manifest_digest == task.gate1_manifest_digest)
    && contains g.final_receipt_ref attempt.result_refs
gate3_agrees task attempt run_ref _ = false

-- The part of `_validate_completed_attempt` about a task that requires formula confirmation.
unfoldable pub validate_formula_gates : Task → Attempt → Option Text → Checked Done
validate_formula_gates task attempt run_ref =
    check
      (gate1_complete task
        && is_some attempt.domain_gate_ref
        && (attempt.domain_gate_outcome == some passed)
        && gate3_agrees task attempt run_ref attempt.gate3_entries)
      workflow_binding_conflict

-- The part of `_validate_completed_attempt` about an attempt that carries a plan.
unfoldable pub validate_research_attempt : Task → Attempt → Option Text → Checked Done
unfolding same_plan non_empty
validate_research_attempt task attempt run_ref = do
  check (same_plan attempt task && non_empty attempt.result_refs) workflow_plan_conflict
  if is_true task.requires_formula_confirmation
      then validate_formula_gates task attempt run_ref
      else ok tt

-- `_validate_completed_attempt`
unfoldable pub validate_completed_attempt :
    Task → Attempt → Option Text → Option Text → Bool → Checked Done
unfolding member
validate_completed_attempt task attempt run_ref provider_evidence_ref task_terminal = do
  check
      ((attempt.run_ref == run_ref) && member provider_evidence_ref attempt.provider_evidence_refs)
      workflow_binding_conflict
  if is_some attempt.plan_digest then validate_research_attempt task attempt run_ref else ok tt
  refuse
      (task_terminal
        && (is_none attempt.plan_digest
            || is_none task.plan_confirmation_note_digest
            || is_none task.plan_version
            || is_none task.plan_digest
            || is_none task.plan_source_ref))
      workflow_plan_conflict
