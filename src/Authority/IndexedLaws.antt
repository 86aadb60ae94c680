-- ===== src/Authority/IndexedLaws.antt =====
-- Every event keeps its task under its reference, and its attempts under well-formed ones.
use hermes_quant_agent.Prelude.{
  [], ◌∷◌, Bool, true, false, ◌≡◌, ap, refl, ◌∙◌, arith, some, Text, text, text_eq, option_eq,
  nat_eq, All-append,
}
use hermes_quant_agent.Prelude.Outcome.{ok}
use hermes_quant_agent.Prelude.Ensures.{Ensures, bind, done, skip, refused}
use hermes_quant_agent.Patterns.{safe_ref}
use hermes_quant_agent.States.Machine.{
  TaskState, awaiting_plan_confirmation, ready, task_state_eq, attempt_state_eq,
}
use hermes_quant_agent.Contract.Command.{Plan}
use hermes_quant_agent.Authority.Digests.{Authority}
use hermes_quant_agent.Authority.Event.{
  Record, Event, ResearchContinued, research_continued, research_claim_bound, plan_proposed,
  plan_revised, plan_confirmation_requested, plan_confirmed, formula_confirmed,
  candidate_manifest_bound, task_completed, payload_tombstone_observed,
}
use hermes_quant_agent.Authority.Store.{Attempt, Task, Bindings}
use hermes_quant_agent.Authority.Checks.{find_attempt, store_attempt}
use hermes_quant_agent.Authority.Transitions.{transition_task-cases, transition_task-eq}
use hermes_quant_agent.Authority.AttemptLists.{find_attempt-matching}
use hermes_quant_agent.Authority.AttemptEvents.{Focus}
use hermes_quant_agent.Authority.TaskEvents.{
  Change, new_attempt, on_research_claim_bound, on_research_continued,
}
use hermes_quant_agent.Authority.PlanEvents.{
  on_plan, on_plan_confirmation_requested, on_plan_confirmed, on_formula_confirmed,
  on_candidate_manifest_bound, on_task_completed, with_plan,
}
use hermes_quant_agent.Authority.Invariant.{is_closed, IsSound}
use hermes_quant_agent.Authority.LiveLaws.{FocusKeeps}
use hermes_quant_agent.Authority.StopLaws.{
  TombstoneKeeps, record_payload_tombstone-keeps, on_live_attempt-keeps,
}
use hermes_quant_agent.Authority.StoreLaws.{find_attempt-outcome}
use hermes_quant_agent.Authority.Reduce.{
  on_tombstone_observed, reduce_attempt_event, reduce_existing_event, is_tombstone_observation,
}
use hermes_quant_agent.Authority.Indexed.{
  HasSafeRef, IsIndexed, Placed, replace-All, matching-All, creation_safe, moved-IsIndexed,
}

module _ (a : Authority) (b : Bindings) (ref : Text) (t : Task) (s : IsSound t)
    (i : IsIndexed ref t) (r : Record) where
  observed-Placed :
      (e : Event) (at : Text) (x : Attempt)
      → find_attempt t at ≡ ok x
      → (is_tombstone_observation e ≡ false → is_closed t.state ≡ false)
      → Ensures (Placed t x) (on_tombstone_observed a b t x r e)
  unfolding on_tombstone_observed is_tombstone_observation
  observed-Placed (payload_tombstone_observed d) at x found o = skip _ _ (record {
    returns = λ f h.
        let k : TombstoneKeeps t x f =
          (record_payload_tombstone-keeps a.owner_user_id b t x r d).returns f h in
        record {
          same_task = ap (λ (z : Task). z.task_ref) k.same_task;
          same_attempts = ap (λ (z : Task). z.attempts) k.same_task;
          same_ref = k.same_ref;
        };
  })
  observed-Placed e at x found o = refused _ _ _ λ live. record {
    returns = λ f h.
        let k : FocusKeeps t x f =
          (on_live_attempt-keeps a b t x r e (find_attempt-outcome t s at x found) (ground arith)
              s.outcome (o refl)).returns
            f h in
        record {
          same_task = k.task.same_ref;
          same_attempts = k.task.same_attempts;
          same_ref = k.attempt.same_ref;
        };
  }

  Placed-IsIndexed :
      (at : Text) (x : Attempt) (f : Focus)
      → find_attempt t at ≡ ok x
      → Placed t x f
      → IsIndexed ref (store_attempt f.attempt f.task)
  unfolding store_attempt
  Placed-IsIndexed at x f found k =
      let was : HasSafeRef x =
        matching-All at t.attempts {x = x} {rest = []} (find_attempt-matching t at found)
          i.attempts in
      record {
        key = k.same_task ∙ i.key;
        safe = i.safe;
        attempts = rw k.same_attempts (
            replace-All f.attempt t.attempts
              (ap (λ (z : Text). safe_ref z (text "attempt:")) k.same_ref ∙ was) i.attempts);
      }

  attempt_event-IsIndexed :
      (e : Event)
      → (is_tombstone_observation e ≡ false → is_closed t.state ≡ false)
      → Ensures (λ (c : Change). IsIndexed ref c.task) (reduce_attempt_event a b t r e)
  unfolding reduce_attempt_event
  attempt_event-IsIndexed e o = bind _ _ λ at _. bind _ _ λ x found.
      bind _ _
        λ f h. done (Placed-IsIndexed at x f found ((observed-Placed e at x found o).returns f h))

  plan-IsIndexed :
      (revised : Bool) (d : Plan)
      → Ensures (λ (c : Change). IsIndexed ref c.task) (on_plan revised b t d)
  unfolding on_plan with_plan
  plan-IsIndexed revised d = bind _ _ λ v hv. skip _ _ (
      skip _ _ (
        bind _ _ λ x hx. skip _ _ (
          skip _ _ (
            skip _ _ (
              bind _ _
                λ u hu. done (ground (arith, transition_task-cases t TaskState.plan_proposed)))))))

  continued-IsIndexed :
      (d : ResearchContinued)
      → Ensures (λ (c : Change). IsIndexed ref c.task) (on_research_continued a b t r d)
  unfolding on_research_continued new_attempt
  continued-IsIndexed d = skip _ _ (
      bind _ _ λ x hx. skip _ _ (
        skip _ _ (
          skip _ _ (
            bind _ _ λ v hv. skip _ _ (
              skip _ _ (
                skip _ _ (
                  skip _ _ (
                    bind _ _ λ b' _. done (record {
                      key = i.key;
                      safe = i.safe;
                      attempts =
                          All-append HasSafeRef t.attempts (_ ∷ []) i.attempts
                            (creation_safe d.creation r.attempt_ref _ {v = v} hv, tt);
                    })))))))))

  claimed-IsIndexed :
      (at : Text) (x : Attempt)
      → find_attempt t at ≡ ok x
      → (digest : Text)
      → IsIndexed ref (record (store_attempt (record x { research_claim_digest = some digest }) t) {
        research_claim_digest = some digest;
      })
  claimed-IsIndexed at x found digest =
      let y : Attempt = record x { research_claim_digest = some digest } in
      let k : IsIndexed ref (store_attempt y t) =
        Placed-IsIndexed at x (record { bindings = b; task = t; attempt = y }) found
          (record { same_task = refl; same_attempts = refl; same_ref = refl }) in
      record { key = k.key; safe = k.safe; attempts = k.attempts }

  pub existing_event-IsIndexed :
      (e : Event)
      → (is_tombstone_observation e ≡ false → is_closed t.state ≡ false)
      → Ensures (λ (c : Change). IsIndexed ref c.task) (reduce_existing_event a b t r e)
  unfolding reduce_existing_event is_tombstone_observation on_research_claim_bound
      on_plan_confirmation_requested on_plan_confirmed on_formula_confirmed
      on_candidate_manifest_bound on_task_completed
  existing_event-IsIndexed (research_claim_bound d) o =
      bind _ _
        λ x found. skip _ _ (done (claimed-IsIndexed d.attempt_ref x found d.research_claim_digest))
  existing_event-IsIndexed (research_continued d) o = continued-IsIndexed d
  existing_event-IsIndexed (plan_proposed d) o = plan-IsIndexed false d
  existing_event-IsIndexed (plan_revised d) o = plan-IsIndexed true d
  existing_event-IsIndexed (plan_confirmation_requested d) o =
      skip _ _
        (bind _ _ λ u hu. done (ground (arith, transition_task-eq t awaiting_plan_confirmation u)))
  existing_event-IsIndexed (plan_confirmed d) o = skip _ _ (
      skip _ _ (
        skip _ _ (
          bind _ _ λ u hu. done (
            moved-IsIndexed
              (record t { plan_confirmation_note_digest = some d.confirmation_note_digest }) _ u hu
              i.key i.safe i.attempts))))
  existing_event-IsIndexed (formula_confirmed d) o = skip _ _ (
      skip _ _ (
        bind _ _ λ x _. bind _ _ λ b' _. bind _ _ λ u hu. done (
          ground (
            arith,
            transition_task-eq
                (record t {
                  gate1_ref = some d.gate_ref;
                  gate1_source_digest = some d.reviewed_source_digest;
                  gate1_note_digest = some d.confirmation_note_digest;
                })
                ready u,
          ))))
  existing_event-IsIndexed (candidate_manifest_bound d) o =
      skip _ _ (skip _ _ (bind _ _ λ x _. skip _ _ (bind _ _ λ b' _. done (ground arith))))
  existing_event-IsIndexed (task_completed d) o = skip _ _ (
      bind _ _ λ x _. skip _ _ (
        skip _ _
          (bind _ _ λ u hu. done (ground (arith, transition_task-eq t TaskState.terminal u)))))
  existing_event-IsIndexed (payload_tombstone_observed d) o =
      attempt_event-IsIndexed (payload_tombstone_observed d) o
  existing_event-IsIndexed e o = attempt_event-IsIndexed e (λ _. o refl)
