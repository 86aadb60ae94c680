-- ===== src/States/Machine.antt =====
-- The states of a task and of an attempt as data types, and their texts.
use hermes_quant_agent.Prelude.{Text, text, Eq}

pub data TaskState : Type 0 where
  draft plan_proposed awaiting_plan_confirmation awaiting_formula_confirmation : TaskState
  ready running awaiting_domain_gate terminal : TaskState

pub data AttemptState : Type 0 where
  planned running reconciling stop_requested terminal : AttemptState

unfoldable pub TaskState-discrete : Discrete TaskState
TaskState-discrete = hlevel

unfoldable pub AttemptState-discrete : Discrete AttemptState
AttemptState-discrete = hlevel

instance unfoldable pub task_state_eq : Eq TaskState
unfolding TaskState-discrete
task_state_eq = record { dec = TaskState-discrete }

instance unfoldable pub attempt_state_eq : Eq AttemptState
unfolding AttemptState-discrete
attempt_state_eq = record { dec = AttemptState-discrete }

unfoldable pub task_state_text : TaskState → Text
task_state_text draft = text "draft"
task_state_text plan_proposed = text "plan_proposed"
task_state_text awaiting_plan_confirmation = text "awaiting_plan_confirmation"
task_state_text awaiting_formula_confirmation = text "awaiting_formula_confirmation"
task_state_text ready = text "ready"
task_state_text TaskState.running = text "running"
task_state_text awaiting_domain_gate = text "awaiting_domain_gate"
task_state_text TaskState.terminal = text "terminal"

unfoldable pub attempt_state_text : AttemptState → Text
attempt_state_text planned = text "planned"
attempt_state_text AttemptState.running = text "running"
attempt_state_text reconciling = text "reconciling"
attempt_state_text stop_requested = text "stop_requested"
attempt_state_text AttemptState.terminal = text "terminal"
