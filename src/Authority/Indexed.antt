-- ===== src/Authority/Indexed.antt =====
-- Each task of the projection stands under its own reference, and the references are well formed.
use hermes_quant_agent.Prelude.{
  ℕ, List, [], ◌∷◌, true, ◌≡◌, sym, subst, arith, Option, Text, text, text_eq, option_eq, nat_eq,
  All,
}
use hermes_quant_agent.Prelude.Outcome.{ok}
use hermes_quant_agent.Patterns.{safe_ref}
use hermes_quant_agent.States.Machine.{TaskState, task_state_eq, attempt_state_eq}
use hermes_quant_agent.Authority.Event.{AttemptCreation}
use hermes_quant_agent.Authority.Store.{Attempt, Task}
use hermes_quant_agent.Authority.Checks.{
  matching, replace, transition_task, validate_attempt_creation,
}
use hermes_quant_agent.Authority.Transitions.{transition_task-eq}
use hermes_quant_agent.Authority.AttemptEvents.{Focus}

abbrev pub HasSafeRef : Attempt → Type 0
HasSafeRef x = safe_ref x.attempt_ref (text "attempt:") ≡ true

-- A task under its reference.
pub record IsIndexed (ref : Text) (t : Task) : Type 0 where
  pub key : t.task_ref ≡ ref
  pub safe : safe_ref ref (text "task:") ≡ true
  pub attempts : All HasSafeRef t.attempts

-- What of the attempts and the references an event of one attempt keeps.
pub record Placed (t : Task) (x : Attempt) (f : Focus) : Type 0 where
  pub same_task : f.task.task_ref ≡ t.task_ref
  pub same_attempts : f.task.attempts ≡ t.attempts
  pub same_ref : f.attempt.attempt_ref ≡ x.attempt_ref

pub replace-All :
    (y : Attempt) (l : List Attempt)
    → HasSafeRef y
    → All HasSafeRef l
    → All HasSafeRef (replace y l)
unfolding replace
replace-All y [] h k = tt
replace-All y (a ∷ l) h k = ground (arith, replace-All y l)

pub matching-All :
    (ref : Text) (l : List Attempt) {x : Attempt} {rest : List Attempt}
    → matching ref l ≡ x ∷ rest
    → All HasSafeRef l
    → HasSafeRef x
unfolding matching
matching-All ref [] m h = cc
matching-All ref (a ∷ l) {x} {rest} m h = ground (arith, matching-All ref l {x = x} {rest = rest})

pub creation_safe :
    (d : AttemptCreation) (ref : Option Text) (n : ℕ) {v : Unit {0}}
    → validate_attempt_creation d ref n ≡ ok v
    → safe_ref d.attempt_ref (text "attempt:") ≡ true
unfolding validate_attempt_creation
creation_safe d ref n h = ground arith

pub moved-IsIndexed :
    {ref : Text} (t : Task) (s : TaskState) (u : Task)
    → transition_task t s ≡ ok u
    → t.task_ref ≡ ref
    → safe_ref ref (text "task:") ≡ true
    → All HasSafeRef t.attempts
    → IsIndexed ref u
moved-IsIndexed {ref} t s u h k f l =
    subst (IsIndexed ref) (sym (transition_task-eq t s u h))
      (record { key = k; safe = f; attempts = l })
