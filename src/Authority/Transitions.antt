-- ===== src/Authority/Transitions.antt =====
-- The two results of `_transition_task` and `_transition_attempt`.
use hermes_quant_agent.Prelude.{◌≡◌, ◌⊎◌, arith}
use hermes_quant_agent.Prelude.Outcome.{ok, err}
use hermes_quant_agent.States.Machine.{TaskState, AttemptState}
use hermes_quant_agent.Authority.Errors.{workflow_invalid_transition}
use hermes_quant_agent.Authority.Store.{Attempt, Task}
use hermes_quant_agent.Authority.Checks.{transition_task, transition_attempt}

pub transition_attempt-cases :
    (x : Attempt) (s : AttemptState)
    → (transition_attempt x s ≡ ok (record x { state = s }))
      ⊎ (transition_attempt x s ≡ err workflow_invalid_transition)
unfolding transition_attempt
transition_attempt-cases x s = ground arith

pub transition_task-cases :
    (t : Task) (s : TaskState)
    → (transition_task t s ≡ ok (record t { state = s }))
      ⊎ (transition_task t s ≡ err workflow_invalid_transition)
unfolding transition_task
transition_task-cases t s = ground arith

pub transition_attempt-eq :
    (x : Attempt) (s : AttemptState) (y : Attempt)
    → transition_attempt x s ≡ ok y
    → y ≡ record x { state = s }
transition_attempt-eq x s y h = ground (arith, transition_attempt-cases x s)

pub transition_task-eq :
    (t : Task) (s : TaskState) (u : Task) → transition_task t s ≡ ok u → u ≡ record t { state = s }
transition_task-eq t s u h = ground (arith, transition_task-cases t s)
