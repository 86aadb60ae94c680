-- ===== src/Authority/TaskLaws.antt =====
-- Every event of a task keeps the task sound.
use hermes_quant_agent.Prelude.{
  List, ℕ, ◌+◌, [], ◌∷◌, ◌++◌, Bool, true, false, ◌≡◌, refl, arith, Option, some, is_some, Text,
  text_eq, option_eq, nat_eq, if◌then◌else◌, length,
}
use hermes_quant_agent.Prelude.Outcome.{Done, ok, ◌>>=◌}
use hermes_quant_agent.Prelude.Ensures.{Ensures, bind, done, skip, checked}
use hermes_quant_agent.States.Machine.{
  TaskState, plan_proposed, awaiting_plan_confirmation, awaiting_formula_confirmation, ready,
  task_state_eq, attempt_state_eq,
}
use hermes_quant_agent.Contract.Command.{
  Plan, RequestPlanConfirmation, BindCandidateManifest, CompleteTask,
}
use hermes_quant_agent.Authority.Event.{
  AttemptCreation, ResearchClaimBound, ResearchContinued, PlanConfirmed, FormulaConfirmed, Record,
}
use hermes_quant_agent.Authority.Digests.{Authority}
use hermes_quant_agent.Authority.Store.{Attempt, Task, Bindings}
use hermes_quant_agent.Authority.Checks.{
  gate1_complete, validate_research_attempt, validate_formula_gates, validate_completed_attempt,
  latest, find_attempt, store_attempt, transition_task, is_true, validate_attempt_creation,
}
use hermes_quant_agent.Authority.Invariant.{is_ended, is_closed, IsSound, HasEvidence, AllEnded}
use hermes_quant_agent.Authority.AttemptLists.{
  append-OnlyLastOpen, append-NumberedFrom, append-OutcomesAgree,
}
use hermes_quant_agent.Authority.Transitions.{transition_task-cases, transition_task-eq}
use hermes_quant_agent.Authority.StoreLaws.{store_attempt-same}
use hermes_quant_agent.Authority.TaskEvents.{
  Change, new_attempt, on_research_claim_bound, on_research_continued,
}
use hermes_quant_agent.Authority.PlanEvents.{
  on_plan, on_plan_confirmation_requested, on_plan_confirmed, on_formula_confirmed,
  on_candidate_manifest_bound, all_terminal, on_task_completed,
}

abbrev pub SoundTask : Change → Type 0
SoundTask c = IsSound c.task

-- The state after the confirmation of the plan is one past that gate, and not past the formula's
-- unless no formula has to be confirmed.
confirmed-IsSound :
    (t : Task)
    → IsSound t
    → is_closed t.state ≡ false
    → (note : Text) (u : Task) (c : Bool) → is_true t.requires_formula_confirmation ≡ c
    → transition_task
        (record t { plan_confirmation_note_digest = some note })
        (if c then awaiting_formula_confirmation else ready)
      ≡ ok u
    → IsSound u
confirmed-IsSound t s o note u true e h = ground (
  arith,
  transition_task-eq (record t { plan_confirmation_note_digest = some note })
      awaiting_formula_confirmation u,
)
confirmed-IsSound t s o note u false e h =
    ground
      (arith, transition_task-eq (record t { plan_confirmation_note_digest = some note }) ready u)

claimed-IsSound :
    (t : Task)
    → IsSound t
    → (ref : Text) (x : Attempt) → find_attempt t ref ≡ ok x
    → (digest : Text)
    → IsSound (record (store_attempt (record x { research_claim_digest = some digest }) t) {
      research_claim_digest = some digest;
    })
unfolding gate1_complete store_attempt
claimed-IsSound t s ref x found digest =
    let k : IsSound (store_attempt (record x { research_claim_digest = some digest }) t) =
      store_attempt-same t s ref x found (record x { research_claim_digest = some digest }) refl
        refl refl refl in
    record {
      open_last = k.open_last;
      numbered = k.numbered;
      outcomes = k.outcomes;
      outcome = k.outcome;
      closed = k.closed;
      plan_confirmed = k.plan_confirmed;
      formula_confirmed = k.formula_confirmed;
      completed_gates = k.completed_gates;
    }

pub creation_number :
    (d : AttemptCreation) (ref : Option Text) (n : ℕ) {v : Done}
    → validate_attempt_creation d ref n ≡ ok v
    → d.attempt_number ≡ n
unfolding validate_attempt_creation
creation_number d ref n h = ground arith

-- A new, open attempt at the end of a task whose last attempt has ended.
appended-IsSound :
    (t : Task)
    → IsSound t
    → is_closed t.state ≡ false
    → (x : Attempt) → latest t ≡ ok x
    → is_ended x.state ≡ true
    → (y : Attempt) → y.attempt_number ≡ length t.attempts + 1
    → is_ended y.state ≡ false
    → is_some y.terminal_outcome ≡ false
    → IsSound (record t { attempts = t.attempts ++ y ∷ [] })
unfolding latest gate1_complete
appended-IsSound t s open_task x hx ended y n e o = record {
  open_last = append-OnlyLastOpen y t.attempts {x = x} hx ended s.open_last;
  numbered = append-NumberedFrom y 1 t.attempts (omega arith) s.numbered;
  outcomes = append-OutcomesAgree y t.attempts (cc) s.outcomes;
  outcome = s.outcome;
  closed = λ c. cc;
  plan_confirmed = s.plan_confirmed;
  formula_confirmed = s.formula_confirmed;
  completed_gates = s.completed_gates;
}

formula_gates_complete :
    (t : Task) (x : Attempt) (run : Option Text) {v : Done}
    → validate_formula_gates t x run ≡ ok v
    → gate1_complete t ≡ true
unfolding validate_formula_gates
formula_gates_complete t x run h = ground arith

research_attempt_gates :
    (t : Task) (x : Attempt) (run : Option Text) {v : Done}
    → validate_research_attempt t x run ≡ ok v
    → is_true t.requires_formula_confirmation ≡ true
    → gate1_complete t ≡ true
unfolding validate_research_attempt ◌>>=◌
research_attempt_gates t x run {v} h q = ground (arith, formula_gates_complete t x run {v = v})

-- What the check of a completed task has seen.
completed_evidence :
    (t : Task) (x : Attempt) (run evidence : Option Text) {v : Done}
    → validate_completed_attempt t x run evidence true ≡ ok v
    → HasEvidence t
unfolding validate_completed_attempt ◌>>=◌
completed_evidence t x run evidence {v} h = ground (arith, research_attempt_gates t x run {v = tt})

all_terminal-AllEnded : (l : List Attempt) → all_terminal l ≡ true → AllEnded l
unfolding all_terminal
all_terminal-AllEnded [] h = tt
all_terminal-AllEnded (x ∷ l) h = ground (arith, all_terminal-AllEnded l)

module _ (b : Bindings) (t : Task) (s : IsSound t) (open_task : is_closed t.state ≡ false) where
  pub on_plan_confirmation_requested_sound :
      (d : RequestPlanConfirmation) → Ensures SoundTask (on_plan_confirmation_requested b t d)
  unfolding on_plan_confirmation_requested
  on_plan_confirmation_requested_sound d =
      skip _ _
        (bind _ _ λ u hu. done (ground (arith, transition_task-eq t awaiting_plan_confirmation u)))

  pub on_plan_confirmed_sound : (d : PlanConfirmed) → Ensures SoundTask (on_plan_confirmed b t d)
  unfolding on_plan_confirmed
  on_plan_confirmed_sound d = skip _ _ (
      skip _ _ (
        skip _ _ (
          bind _ _
            λ u hu. done (confirmed-IsSound t s open_task d.confirmation_note_digest u _ refl hu))))

  pub on_formula_confirmed_sound :
      (d : FormulaConfirmed) → Ensures SoundTask (on_formula_confirmed b t d)
  unfolding on_formula_confirmed
  on_formula_confirmed_sound d = skip _ _ (
      checked _ _ _ λ here. bind _ _ λ x hx. bind _ _ λ b' _. bind _ _ λ u hu. done (
        ground (
          arith,
          transition_task-eq
              (record t {
                gate1_ref = some d.gate_ref;
                gate1_source_digest = some d.reviewed_source_digest;
                gate1_note_digest = some d.confirmation_note_digest;
              })
              ready u,
        )))

  pub on_candidate_manifest_bound_sound :
      (d : BindCandidateManifest) → Ensures SoundTask (on_candidate_manifest_bound b t d)
  unfolding on_candidate_manifest_bound
  on_candidate_manifest_bound_sound d =
      skip _ _ (skip _ _ (bind _ _ λ x hx. skip _ _ (bind _ _ λ b' _. done (ground arith))))

  pub on_plan_sound : (revised : Bool) (d : Plan) → Ensures SoundTask (on_plan revised b t d)
  unfolding on_plan
  on_plan_sound revised d = bind _ _ λ v hv. skip _ _ (
      skip _ _ (
        bind _ _ λ x hx. skip _ _ (
          skip _ _ (
            skip _ _
              (bind _ _ λ u hu. done (ground (arith, transition_task-cases t plan_proposed)))))))

  pub on_research_claim_bound_sound :
      (d : ResearchClaimBound) → Ensures SoundTask (on_research_claim_bound b t d)
  unfolding on_research_claim_bound
  on_research_claim_bound_sound d =
      bind _ _
        λ x hx. skip _ _ (done (claimed-IsSound t s d.attempt_ref x hx d.research_claim_digest))

  pub on_task_completed_sound : (d : CompleteTask) → Ensures SoundTask (on_task_completed b t d)
  unfolding on_task_completed gate1_complete
  on_task_completed_sound d = checked _ _ _ λ ended. bind _ _ λ x hx. skip _ _ (
      bind _ _ λ v hv. bind _ _ λ u hu. done (
        ground (
          arith,
          transition_task-eq t TaskState.terminal u,
          all_terminal-AllEnded t.attempts,
          completed_evidence t x d.run_ref d.provider_evidence_ref {v = v},
        )))

  pub on_research_continued_sound :
      (a : Authority) (r : Record) (d : ResearchContinued)
      → Ensures SoundTask (on_research_continued a b t r d)
  unfolding on_research_continued new_attempt
  on_research_continued_sound a r d = checked _ _ _ λ here. bind _ _ λ x hx. checked _ _ _ λ ended.
      skip _ _ (
        skip _ _ (
          bind _ _ λ v hv. skip _ _ (
            skip _ _ (
              skip _ _ (
                skip _ _ (
                  bind _ _ λ b' _. done (
                    appended-IsSound t s open_task x hx (ground arith) _
                      (creation_number d.creation r.attempt_ref (length t.attempts + 1) {v = v} hv)
                      refl refl)))))))
