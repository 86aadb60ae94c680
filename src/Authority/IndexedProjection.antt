-- ===== src/Authority/IndexedProjection.antt =====
-- Every record that `_reduce` accepts keeps every task of the projection under its reference.
use hermes_quant_agent.Prelude.{
  true, ◌≡◌, refl, arith, some, Text, text, text_eq, option_eq, nat_eq,
}
use hermes_quant_agent.Prelude.Dict.{get, get-put}
use hermes_quant_agent.Prelude.Ensures.{Ensures, bind, done, skip, refused}
use hermes_quant_agent.Patterns.{safe_ref}
use hermes_quant_agent.States.Machine.{task_state_eq, attempt_state_eq}
use hermes_quant_agent.Authority.Digests.{Authority}
use hermes_quant_agent.Authority.Event.{Record, Event, ResearchStarted, research_started}
use hermes_quant_agent.Authority.Store.{Task, Projection}
use hermes_quant_agent.Authority.TaskEvents.{Change, new_attempt}
use hermes_quant_agent.Authority.ReduceLaws.{
  IsSoundProjection, require_task-get, open_unless_tombstone,
}
use hermes_quant_agent.Authority.Reduce.{
  new_task, reduce_research_started, reduce_existing, reduce_event, commit, reduce,
}
use hermes_quant_agent.Authority.Indexed.{IsIndexed, creation_safe}
use hermes_quant_agent.Authority.IndexedLaws.{existing_event-IsIndexed}

-- Every task of the projection stands under its reference.
pub record IsIndexedProjection (p : Projection) : Type 0 where
  pub each : (ref : Text) (t : Task) → get ref p.tasks ≡ some t → IsIndexed ref t

module _ (a : Authority) (p : Projection) (s : IsSoundProjection p) (i : IsIndexedProjection p)
    (r : Record) (safe : safe_ref r.task_ref (text "task:") ≡ true) where
  existing-IsIndexed : Ensures (λ (c : Change). IsIndexed r.task_ref c.task) (reduce_existing a p r)
  unfolding reduce_existing
  existing-IsIndexed = bind _ _ λ t found. refused _ _ _ λ o. skip _ _ (
      bind _ _ λ c h.
        let here : get r.task_ref p.tasks ≡ some t = require_task-get _ found in
        let k : IsIndexed r.task_ref c.task =
          (existing_event-IsIndexed a p.bindings r.task_ref t (s.each r.task_ref t here)
              (i.each r.task_ref t here) r r.event (open_unless_tombstone t r.event o)).returns
            c h in
        done (record { key = k.key; safe = k.safe; attempts = k.attempts }))

  started-IsIndexed :
      (d : ResearchStarted)
      → Ensures (λ (c : Change). IsIndexed r.task_ref c.task) (reduce_research_started a p r d)
  unfolding reduce_research_started new_task new_attempt
  started-IsIndexed d = skip _ _ (
      skip _ _ (
        skip _ _ (
          bind _ _ λ v hv. skip _ _ (
            bind _ _ λ b' _. done (record {
              key = refl;
              safe = safe;
              attempts = (creation_safe d.creation r.attempt_ref 1 {v = v} hv, tt);
            })))))

  event-IsIndexed :
      (e : Event) → Ensures (λ (c : Change). IsIndexed r.task_ref c.task) (reduce_event a p r e)
  unfolding reduce_event
  event-IsIndexed (research_started d) = started-IsIndexed d
  event-IsIndexed e = existing-IsIndexed

  commit_indexed : (c : Change) → IsIndexed r.task_ref c.task → IsIndexedProjection (commit p r c)
  unfolding commit
  commit_indexed c h = record {
    each = λ ref t g. ground (arith, get-put ref r.task_ref c.task p.tasks, i.each ref t);
  }

  -- An accepted record whose task reference is well formed keeps every task under its reference,
  -- and every attempt under a well-formed one.
  pub reduce-IsIndexedProjection : Ensures IsIndexedProjection (reduce a p r)
  unfolding reduce
  reduce-IsIndexedProjection =
      skip _ _ (bind _ _ λ c h. done (commit_indexed c ((event-IsIndexed r.event).returns c h)))
