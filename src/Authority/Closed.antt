-- ===== src/Authority/Closed.antt =====
-- A task that has ended takes no event but the observation of a payload's tombstone, and that
-- changes no end.
use hermes_quant_agent.Prelude.{
  ℕ, List, [], ◌∷◌, map, true, false, not, ◌&&◌, ◌≡◌, inl, inr, ap, refl, sym, ◌∙◌, subst, arith,
  Option, some, Text, text_eq, nat_eq, ◌==◌, Bool-cases,
}
use hermes_quant_agent.Prelude.Dict.{get, get-put}
use hermes_quant_agent.Prelude.Outcome.{ok}
use hermes_quant_agent.Prelude.Ensures.{Ensures, bind, done, skip, refused}
use hermes_quant_agent.States.Machine.{TaskState, AttemptState, task_state_eq}
use hermes_quant_agent.Contract.Values.{TerminalOutcome}
use hermes_quant_agent.Authority.Digests.{Authority}
use hermes_quant_agent.Authority.Event.{
  Record, Event, ResearchStarted, research_started, payload_tombstone_observed,
}
use hermes_quant_agent.Authority.Store.{Attempt, Task, Bindings, Projection}
use hermes_quant_agent.Authority.Checks.{matching, replace, find_attempt, store_attempt}
use hermes_quant_agent.Authority.Invariant.{is_closed}
use hermes_quant_agent.Authority.AttemptLists.{find_attempt-matching, matching-ref, replace_absent}
use hermes_quant_agent.Authority.AttemptEvents.{Focus}
use hermes_quant_agent.Authority.TaskEvents.{Change}
use hermes_quant_agent.Authority.StopLaws.{TombstoneKeeps, record_payload_tombstone-keeps}
use hermes_quant_agent.Authority.ReduceLaws.{require_task-get}
use hermes_quant_agent.Authority.Reduce.{
  reduce_research_started, on_tombstone_observed, reduce_attempt_event, reduce_existing_event,
  is_tombstone_observation, reduce_existing, reduce_event, commit, reduce,
}

-- How an attempt ended: its reference, number, state and outcome.
abbrev pub end_of : Attempt → Text × ℕ × AttemptState × Option TerminalOutcome
end_of x = (x.attempt_ref, x.attempt_number, x.state, x.terminal_outcome)

-- All that may differ are the version and the tombstones of the attempts.
pub record StaysClosed (t u : Task) : Type 0 where
  pub same_task : u ≡ record t { version = u.version; attempts = u.attempts }
  pub same_ends : map end_of u.attempts ≡ map end_of t.attempts

replace-ends :
    (y x : Attempt) (l : List Attempt)
    → matching y.attempt_ref l ≡ x ∷ []
    → end_of y ≡ end_of x
    → map end_of (replace y l) ≡ map end_of l
unfolding matching replace
replace-ends y x [] m e = refl
replace-ends y x (a ∷ l) m e = ground (arith, replace-ends y x l, replace_absent y l)

module _ (a : Authority) (b : Bindings) (t : Task) (r : Record) where
  tombstone_closed :
      (e : Event) (ref : Text) (x : Attempt)
      → find_attempt t ref ≡ ok x
      → is_tombstone_observation e ≡ true
      → Ensures
          (λ (f : Focus). StaysClosed t (store_attempt f.attempt f.task))
          (on_tombstone_observed a b t x r e)
  unfolding on_tombstone_observed is_tombstone_observation store_attempt
  tombstone_closed (payload_tombstone_observed d) ref x found h = skip _ _ (record {
    returns = λ f hf.
        let k : TombstoneKeeps t x f =
          (record_payload_tombstone-keeps a.owner_user_id b t x r d).returns f hf in
        let m : matching ref t.attempts ≡ x ∷ [] = find_attempt-matching t ref found in
        let same : x.attempt_ref ≡ ref = matching-ref ref t.attempts {x = x} {rest = []} m in
        let ends : end_of f.attempt ≡ end_of x =
          rw (k.same_ref, k.same_number, k.same_state, k.same_outcome) refl in
        rw k.same_task (record {
          same_task = refl;
          same_ends =
              replace-ends f.attempt x t.attempts
                (subst (λ (z : Text). matching z t.attempts ≡ x ∷ []) (sym (k.same_ref ∙ same)) m)
                ends;
        });
  })
  tombstone_closed e ref x found h = cc

  attempt_event_closed :
      (e : Event)
      → is_tombstone_observation e ≡ true
      → Ensures (λ (c : Change). StaysClosed t c.task) (reduce_attempt_event a b t r e)
  unfolding reduce_attempt_event
  attempt_event_closed e h = bind _ _ λ ref _.
      bind _ _ λ x found. bind _ _ λ f hf. done ((tombstone_closed e ref x found h).returns f hf)

  existing_event_closed :
      (e : Event)
      → is_tombstone_observation e ≡ true
      → Ensures (λ (c : Change). StaysClosed t c.task) (reduce_existing_event a b t r e)
  unfolding reduce_existing_event is_tombstone_observation
  existing_event_closed (payload_tombstone_observed d) h =
      attempt_event_closed (payload_tombstone_observed d) refl
  existing_event_closed e h = cc

only_tombstone :
    (t : Task) (e : Event)
    → is_closed t.state ≡ true
    → (t.state == TaskState.terminal && not (is_tombstone_observation e)) ≡ false
    → is_tombstone_observation e ≡ true
only_tombstone t e c h = ground arith

with_version : (t u : Task) (n : ℕ) → StaysClosed t u → StaysClosed t (record u { version = n })
with_version t u n k = record {
  same_task = ap (λ (z : Task). record z { version = n }) k.same_task;
  same_ends = k.same_ends;
}

module _ (a : Authority) (p : Projection) (r : Record) (t : Task)
    (closed : is_closed t.state ≡ true) where
  existing_closed :
      get r.task_ref p.tasks ≡ some t
      → Ensures (λ (c : Change). StaysClosed t c.task) (reduce_existing a p r)
  unfolding reduce_existing
  existing_closed here = bind _ _ λ u found. refused _ _ _ λ o. skip _ _ (
      bind _ _ λ c h.
        let same : u ≡ t = ground (arith, require_task-get (get r.task_ref p.tasks) found) in
        let k : StaysClosed u c.task =
          (existing_event_closed a p.bindings u r r.event
              (only_tombstone u r.event (rw same closed) o)).returns
            c h in
        done (
          with_version t c.task r.task_version (subst (λ (z : Task). StaysClosed z c.task) same k)))

  started_closed :
      (d : ResearchStarted)
      → get r.task_ref p.tasks ≡ some t
      → Ensures (λ (c : Change). StaysClosed t c.task) (reduce_research_started a p r d)
  unfolding reduce_research_started
  started_closed d here = refused _ _ _ λ h. absurd (ground arith)

  event_closed :
      (e : Event)
      → get r.task_ref p.tasks ≡ some t
      → Ensures (λ (c : Change). StaysClosed t c.task) (reduce_event a p r e)
  unfolding reduce_event
  event_closed (research_started d) here = started_closed d here
  event_closed e here = existing_closed here

  commit_closed :
      (c : Change) (ref : Text)
      → (get r.task_ref p.tasks ≡ some t → StaysClosed t c.task)
      → get ref p.tasks ≡ some t
      → (u : Task) × (get ref (commit p r c).tasks ≡ some u) × StaysClosed t u
  unfolding commit
  commit_closed c ref k found = elim (Bool-cases (ref == r.task_ref)) [
    | inl same ↦ (c.task, ground (arith, get-put ref r.task_ref c.task p.tasks), k (ground arith))
    | inr other ↦ (
      t,
      ground (arith, get-put ref r.task_ref c.task p.tasks),
      record { same_task = refl; same_ends = refl },
    )
  ]

  -- Whatever record is accepted, a task that has ended keeps every field but its version and its
  -- attempts, and its attempts keep their references, numbers, states and outcomes.
  pub reduce-StaysClosed :
      (ref : Text)
      → get ref p.tasks ≡ some t
      → Ensures
          (λ (q : Projection). (u : Task) × (get ref q.tasks ≡ some u) × StaysClosed t u)
          (reduce a p r)
  unfolding reduce
  reduce-StaysClosed ref found = skip _ _ (
      bind _ _
        λ c h. done (commit_closed c ref (λ here. (event_closed r.event here).returns c h) found))
