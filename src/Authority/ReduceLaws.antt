-- ===== src/Authority/ReduceLaws.antt =====
-- Every record that `_reduce` accepts keeps every task sound.
use hermes_quant_agent.Prelude.{
  ℕ, true, false, not, ◌≡◌, refl, ◌&&◌, arith, Option, none, some, Text, text_eq, nat_eq, ◌==◌,
}
use hermes_quant_agent.Prelude.Dict.{get, get-put}
use hermes_quant_agent.Prelude.Outcome.{ok}
use hermes_quant_agent.Prelude.Ensures.{Ensures, bind, done, skip, refused}
use hermes_quant_agent.States.Machine.{TaskState, AttemptState, task_state_eq, attempt_state_eq}
use hermes_quant_agent.Authority.Event.{
  Record, Event, ResearchStarted, research_started, research_continued, research_claim_bound,
  plan_proposed, plan_revised, plan_confirmation_requested, plan_confirmed, formula_confirmed,
  candidate_manifest_bound, task_completed, payload_tombstone_observed,
}
use hermes_quant_agent.Authority.Store.{Attempt, Task, Bindings, Projection}
use hermes_quant_agent.Authority.Digests.{Authority}
use hermes_quant_agent.Authority.Checks.{gate1_complete, find_attempt, store_attempt}
use hermes_quant_agent.Authority.Invariant.{is_closed, IsSound}
use hermes_quant_agent.Authority.AttemptEvents.{Focus}
use hermes_quant_agent.Authority.LiveLaws.{FocusKeeps}
use hermes_quant_agent.Authority.StopLaws.{
  TombstoneKeeps, record_payload_tombstone-keeps, on_live_attempt-keeps,
}
use hermes_quant_agent.Authority.StoreLaws.{
  find_attempt-outcome, store_attempt-live, store_attempt-same,
}
use hermes_quant_agent.Authority.TaskEvents.{Change}
use hermes_quant_agent.Authority.TaskLaws
use hermes_quant_agent.Authority.TaskLaws.{SoundTask, creation_number}
use hermes_quant_agent.Authority.Reduce.{
  new_task, reduce_research_started, on_live_attempt, on_tombstone_observed, reduce_attempt_event,
  reduce_existing_event, is_tombstone_observation, reduce_existing, reduce_event, commit, reduce,
  require_task,
}

module _ (a : Authority) (b : Bindings) (t : Task) (s : IsSound t) (r : Record) where
  live-IsSound :
      (e : Event) (ref : Text) (x : Attempt) (f : Focus)
      → find_attempt t ref ≡ ok x
      → is_closed t.state ≡ false
      → (x.state == AttemptState.terminal) ≡ false
      → on_live_attempt a b t x r e ≡ ok f
      → IsSound (store_attempt f.attempt f.task)
  live-IsSound e ref x f found o live h =
      let k : FocusKeeps t x f =
        (on_live_attempt-keeps a b t x r e (find_attempt-outcome t s ref x found) (ground arith)
            s.outcome o).returns
          f h in
      store_attempt-live t s ref x found f (ground arith) k

  tombstone-IsSound :
      (e : Event) (ref : Text) (x : Attempt) (f : Focus)
      → find_attempt t ref ≡ ok x
      → TombstoneKeeps t x f
      → IsSound (store_attempt f.attempt f.task)
  tombstone-IsSound e ref x f found k = rw k.same_task (
      store_attempt-same t s ref x found f.attempt k.same_ref k.same_number k.same_state
        k.same_outcome)

  observed-IsSound :
      (e : Event) (ref : Text) (x : Attempt)
      → find_attempt t ref ≡ ok x
      → (is_tombstone_observation e ≡ false → is_closed t.state ≡ false)
      → Ensures
          (λ (f : Focus). IsSound (store_attempt f.attempt f.task))
          (on_tombstone_observed a b t x r e)
  unfolding on_tombstone_observed is_tombstone_observation
  observed-IsSound (payload_tombstone_observed d) ref x found o = skip _ _ (record {
    returns = λ f h.
        tombstone-IsSound (payload_tombstone_observed d) ref x f found
          ((record_payload_tombstone-keeps a.owner_user_id b t x r d).returns f h);
  })
  observed-IsSound e ref x found o =
      refused _ _ _ λ live. record { returns = λ f h. live-IsSound e ref x f found (o refl) live h }

  attempt_event_sound :
      (e : Event)
      → (is_tombstone_observation e ≡ false → is_closed t.state ≡ false)
      → Ensures SoundTask (reduce_attempt_event a b t r e)
  unfolding reduce_attempt_event
  attempt_event_sound e o = bind _ _ λ ref _.
      bind _ _ λ x found. bind _ _ λ f h. done ((observed-IsSound e ref x found o).returns f h)

  pub existing_event_sound :
      (e : Event)
      → (is_tombstone_observation e ≡ false → is_closed t.state ≡ false)
      → Ensures SoundTask (reduce_existing_event a b t r e)
  unfolding reduce_existing_event is_tombstone_observation
  existing_event_sound (research_claim_bound d) o =
      TaskLaws.on_research_claim_bound_sound b t s (o refl) d
  existing_event_sound (research_continued d) o =
      TaskLaws.on_research_continued_sound b t s (o refl) a r d
  existing_event_sound (plan_proposed d) o = TaskLaws.on_plan_sound b t s (o refl) false d
  existing_event_sound (plan_revised d) o = TaskLaws.on_plan_sound b t s (o refl) true d
  existing_event_sound (plan_confirmation_requested d) o =
      TaskLaws.on_plan_confirmation_requested_sound b t s (o refl) d
  existing_event_sound (plan_confirmed d) o = TaskLaws.on_plan_confirmed_sound b t s (o refl) d
  existing_event_sound (formula_confirmed d) o =
      TaskLaws.on_formula_confirmed_sound b t s (o refl) d
  existing_event_sound (candidate_manifest_bound d) o =
      TaskLaws.on_candidate_manifest_bound_sound b t s (o refl) d
  existing_event_sound (task_completed d) o = TaskLaws.on_task_completed_sound b t s (o refl) d
  existing_event_sound (payload_tombstone_observed d) o =
      attempt_event_sound (payload_tombstone_observed d) o
  existing_event_sound e o = attempt_event_sound e (λ _. o refl)

-- Every task of the projection is sound.
pub record IsSoundProjection (p : Projection) : Type 0 where
  pub each : (ref : Text) (t : Task) → get ref p.tasks ≡ some t → IsSound t

with_version : (t : Task) (n : ℕ) → IsSound t → IsSound (record t { version = n })
unfolding gate1_complete
with_version t n s = record {
  open_last = s.open_last;
  numbered = s.numbered;
  outcomes = s.outcomes;
  outcome = s.outcome;
  closed = s.closed;
  plan_confirmed = s.plan_confirmed;
  completed_gates = s.completed_gates;
  formula_confirmed = s.formula_confirmed;
}

pub require_task-get : (o : Option Task) {t : Task} → require_task o ≡ ok t → o ≡ some t
unfolding require_task
require_task-get none h = cc
require_task-get (some u) h = cc

pub open_unless_tombstone :
    (t : Task) (e : Event)
    → (t.state == TaskState.terminal && not (is_tombstone_observation e)) ≡ false
    → is_tombstone_observation e ≡ false
    → is_closed t.state ≡ false
open_unless_tombstone t e h n = ground arith

new_task-IsSound :
    (r : Record) (d : ResearchStarted) → d.creation.attempt_number ≡ 1 → IsSound (new_task r d)
unfolding new_task
new_task-IsSound r d n = ground arith

module _ (a : Authority) (p : Projection) (s : IsSoundProjection p) (r : Record) where
  existing_sound : Ensures SoundTask (reduce_existing a p r)
  unfolding reduce_existing
  existing_sound = bind _ _ λ t found. refused _ _ _ λ o. skip _ _ (
      bind _ _ λ c h. done (
        with_version c.task r.task_version (
          (existing_event_sound a p.bindings t (s.each r.task_ref t (require_task-get _ found)) r
              r.event (open_unless_tombstone t r.event o)).returns
            c h)))

  started_sound : (d : ResearchStarted) → Ensures SoundTask (reduce_research_started a p r d)
  unfolding reduce_research_started
  started_sound d = skip _ _ (
      skip _ _ (
        skip _ _ (
          bind _ _ λ v hv. skip _ _ (
            bind _ _ λ b' _. done (
              let n : d.creation.attempt_number ≡ 1 =
                creation_number d.creation r.attempt_ref 1 {v = v} hv in
              new_task-IsSound r d n)))))

  event_sound : (e : Event) → Ensures SoundTask (reduce_event a p r e)
  unfolding reduce_event
  event_sound (research_started d) = started_sound d
  event_sound e = existing_sound

  commit_sound : (c : Change) → IsSound c.task → IsSoundProjection (commit p r c)
  unfolding commit
  commit_sound c h = record {
    each = λ ref t g. ground (arith, get-put ref r.task_ref c.task p.tasks, s.each ref t);
  }

  -- Whatever record is accepted, the projection stays sound.
  pub reduce-IsSoundProjection : Ensures IsSoundProjection (reduce a p r)
  unfolding reduce
  reduce-IsSoundProjection =
      skip _ _ (bind _ _ λ c h. done (commit_sound c ((event_sound r.event).returns c h)))
