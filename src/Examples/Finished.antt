-- ===== src/Examples/Finished.antt =====
-- The run of Examples/Run is accepted, and what it ends with.
use hermes_quant_agent.Prelude.{
  [], ◌++◌, Bool, true, false, ◌≡◌, ◌≢◌, refl, arith, Option, none, some, Text, text_eq, ◌==◌,
}
use hermes_quant_agent.Prelude.Dict.{get}
use hermes_quant_agent.Prelude.Outcome.{ok, err}
use hermes_quant_agent.Contract.Values.{completed}
use hermes_quant_agent.States.Machine.{draft}
use hermes_quant_agent.Authority.Errors.{AuthorityError, Checked}
use hermes_quant_agent.Authority.Store.{Task, Projection}
use hermes_quant_agent.Authority.Apply.{Files}
use hermes_quant_agent.Authority.Journal.{replay, empty_projection}
use hermes_quant_agent.Authority.Invariant.{is_closed}
use hermes_quant_agent.Examples.Hash.{owner}
use hermes_quant_agent.Examples.Computing.{computing}
use hermes_quant_agent.Examples.Run.{no_files, task_1, planning, researching, apply_all}

unfoldable pub is_ok : {A : Type 0} → Checked A → Bool
is_ok (ok a) = true
is_ok (err e) = false

unfoldable pub or_else : {A : Type 0} → A → Checked A → A
or_else d (ok a) = a
or_else d (err e) = d

pub ok-or_else : {A : Type 0} (d : A) (m : Checked A) → is_ok m ≡ true → m ≡ ok (or_else d m)
unfolding is_ok or_else
ok-or_else d (ok a) h = refl
ok-or_else d (err e) h = cc

pub unequal : (s t : Text) → (s == t) ≡ false → s ≢ t
unequal s t h = λ e. ground arith

-- The whole run is accepted.
run-ok : is_ok (apply_all no_files 10 (planning ++ researching)) ≡ true
unfolding is_ok computing
run-ok = refl

unfoldable pub finished : Files
finished = or_else no_files (apply_all no_files 10 (planning ++ researching))

finished-ok : is_ok (replay owner finished.journal) ≡ true
unfolding is_ok or_else finished computing
finished-ok = refl

unfoldable pub finished_projection : Projection
finished_projection = or_else empty_projection (replay owner finished.journal)

pub finished-replays : replay owner finished.journal ≡ ok finished_projection
unfolding finished_projection
finished-replays = ok-or_else empty_projection (replay owner finished.journal) finished-ok

unfoldable pub task_or : Option Task → Checked Task
task_or none = err AuthorityError.workflow_task_not_found
task_or (some t) = ok t

abbrev pub any_task : Task
any_task = record {
  task_ref = [];
  workspace_ref = [];
  managed_session_ref = [];
  version = 0;
  state = draft;
  plan_version = none;
  plan_digest = none;
  plan_source_ref = none;
  requires_formula_confirmation = none;
  plan_confirmation_note_digest = none;
  gate1_ref = none;
  gate1_source_digest = none;
  gate1_note_digest = none;
  gate1_candidate_ref = none;
  gate1_manifest_digest = none;
  gate3_refs = [];
  result_refs = [];
  research_claim_digest = none;
  terminal_outcome = none;
  attempts = [];
}

unfoldable pub finished_task : Task
finished_task = or_else any_task (task_or (get task_1 finished_projection.tasks))

some_task : (o : Option Task) → is_ok (task_or o) ≡ true → o ≡ some (or_else any_task (task_or o))
unfolding is_ok task_or or_else
some_task none h = cc
some_task (some t) h = refl

finished_task-ok : is_ok (task_or (get task_1 finished_projection.tasks)) ≡ true
unfolding is_ok task_or or_else finished finished_projection computing
finished_task-ok = refl

pub finished-task : get task_1 finished_projection.tasks ≡ some finished_task
unfolding finished_task
finished-task = some_task (get task_1 finished_projection.tasks) finished_task-ok

pub finished-completed : finished_task.terminal_outcome ≡ some completed
unfolding task_or or_else finished finished_projection finished_task computing
finished-completed = refl

pub finished-closed : is_closed finished_task.state ≡ true
unfolding task_or or_else finished finished_projection finished_task computing
finished-closed = refl
