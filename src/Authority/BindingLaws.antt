-- ===== src/Authority/BindingLaws.antt =====
-- No accepted record takes a binding away, or changes one.
use hermes_quant_agent.Prelude.{Bool, true, false, Text, option_eq, text_eq, ◌==◌}
use hermes_quant_agent.Prelude.Ensures.{Ensures, bind, done, fails, skip, branch}
use hermes_quant_agent.Contract.Values.{passed, gate_outcome_eq}
use hermes_quant_agent.Contract.Command.{ExpiryMutation, Plan}
use hermes_quant_agent.Authority.Digests.{Authority}
use hermes_quant_agent.Authority.Event.{
  Record, Event, ResearchStarted, research_started, research_continued, research_claim_bound,
  plan_proposed, plan_revised, plan_confirmation_requested, plan_confirmed, formula_confirmed,
  candidate_manifest_bound, task_completed, submission_observed, run_observed,
  provider_evidence_observed, gate3_observed, result_linked, domain_gate_entered,
  domain_gate_resolved, reconcile_started, reconcile_resolved, stop_requested, stop_observed,
  attempt_completed, intent_expired, payload_tombstone_observed,
}
use hermes_quant_agent.Authority.Store.{Attempt, Task, Bindings, Projection}
use hermes_quant_agent.Authority.Bindings.{
  Extends, Extends-refl, Extends-trans, bind_global-Extends,
}
use hermes_quant_agent.Authority.TaskEvents.{Change, on_research_claim_bound, on_research_continued}
use hermes_quant_agent.Authority.PlanEvents.{
  on_plan, on_plan_confirmation_requested, on_plan_confirmed, on_formula_confirmed,
  on_candidate_manifest_bound, on_task_completed,
}
use hermes_quant_agent.Authority.AttemptEvents.{
  Focus, on_submission_observed, on_run_observed, on_provider_evidence_observed, on_gate3_observed,
  on_result_linked, on_domain_gate_entered, on_domain_gate_resolved, gate_passed, gate_rejected,
}
use hermes_quant_agent.Authority.StopEvents.{
  on_reconcile_started, on_reconcile_resolved, on_stop_requested, on_stop_observed,
  on_attempt_completed,
}
use hermes_quant_agent.Authority.Expiry.{record_payload_tombstone, on_intent_expired}
use hermes_quant_agent.Authority.Reduce.{
  reduce_research_started, on_live_attempt, on_tombstone_observed, reduce_attempt_event,
  reduce_existing_event, reduce_existing, reduce_event, commit, reduce,
}

abbrev FocusExtends : Bindings → Focus → Type 0
FocusExtends b f = Extends f.bindings b

abbrev ChangeExtends : Bindings → Change → Type 0
ChangeExtends b c = Extends c.bindings b

module _ (b : Bindings) (t : Task) where
  tombstone-Extends :
      (owner : Text) (x : Attempt) (r : Record) (d : ExpiryMutation)
      → Ensures (FocusExtends b) (record_payload_tombstone owner b t x r d)
  unfolding record_payload_tombstone
  tombstone-Extends owner x r d = skip _ _ (
      skip _ _ (
        skip _ _ (
          skip _ _ (
            bind _ _ λ b' h. bind _ _ λ b'' h'. skip _ _ (
              done (
                Extends-trans (bind_global-Extends _ _ _ b' h')
                  (bind_global-Extends _ _ _ b h)))))))

  live-Extends :
      (a : Authority) (x : Attempt) (r : Record) (e : Event)
      → Ensures (FocusExtends b) (on_live_attempt a b t x r e)
  unfolding on_live_attempt on_submission_observed on_run_observed on_provider_evidence_observed
      on_gate3_observed on_result_linked on_domain_gate_entered on_domain_gate_resolved gate_passed
      gate_rejected on_reconcile_started on_reconcile_resolved on_stop_requested on_stop_observed
      on_attempt_completed on_intent_expired
  live-Extends a x r (submission_observed d) =
      skip _ _
        (skip _ _ (skip _ _ (skip _ _ (bind _ _ λ b' h. done (bind_global-Extends _ _ _ b h)))))
  live-Extends a x r (run_observed d) = skip _ _ (
      skip _ _ (
        skip _ _ (
          skip _ _ (
            skip _ _ (
              skip _ _ (
                bind _ _ λ b' h.
                  bind _ _ λ y hy. bind _ _ λ u hu. done (bind_global-Extends _ _ _ b h)))))))
  live-Extends a x r (provider_evidence_observed d) =
      skip _ _
        (skip _ _ (skip _ _ (skip _ _ (bind _ _ λ b' h. done (bind_global-Extends _ _ _ b h)))))
  live-Extends a x r (gate3_observed d) =
      skip _ _ (skip _ _ (skip _ _ (skip _ _ (skip _ _ (skip _ _ (done (Extends-refl b)))))))
  live-Extends a x r (result_linked d) = skip _ _ (
      skip _ _
        (skip _ _ (skip _ _ (skip _ _ (bind _ _ λ b' h. done (bind_global-Extends _ _ _ b h))))))
  live-Extends a x r (domain_gate_entered d) = skip _ _ (
      skip _ _ (
        skip _ _
          (skip _ _ (bind _ _ λ b' h. bind _ _ λ u hu. done (bind_global-Extends _ _ _ b h)))))
  live-Extends a x r (domain_gate_resolved d) = skip _ _ (
      skip _ _ (
        skip _ _ (
          branch (d.outcome == passed) (gate_passed b t x) (gate_rejected b t x)
            (λ _. bind _ _ λ u hu. done (Extends-refl b))
            (λ _. bind _ _ λ y hy. bind _ _ λ u hu. done (Extends-refl b)))))
  live-Extends a x r (reconcile_started d) =
      skip _ _ (skip _ _ (bind _ _ λ y hy. done (Extends-refl b)))
  live-Extends a x r (reconcile_resolved d) =
      skip _ _ (skip _ _ (skip _ _ (bind _ _ λ y hy. done (Extends-refl b))))
  live-Extends a x r (stop_requested d) = skip _ _ (
      skip _ _ (
        skip _ _
          (skip _ _ (bind _ _ λ b' h. bind _ _ λ y hy. done (bind_global-Extends _ _ _ b h)))))
  live-Extends a x r (stop_observed d) =
      skip _ _ (skip _ _ (bind _ _ λ y hy. done (Extends-refl b)))
  live-Extends a x r (attempt_completed d) =
      skip _ _ (skip _ _ (skip _ _ (bind _ _ λ y hy. done (Extends-refl b))))
  live-Extends a x r (intent_expired d) = skip _ _ (
      bind _ _ λ m hm.
        bind _ _
          λ y hy. bind _ _ λ u hu. done ((tombstone-Extends a.owner_user_id x r d).returns m hm))
  live-Extends a x r _ = fails

  attempt-Extends :
      (a : Authority) (x : Attempt) (r : Record) (e : Event)
      → Ensures (FocusExtends b) (on_tombstone_observed a b t x r e)
  unfolding on_tombstone_observed
  attempt-Extends a x r (payload_tombstone_observed d) =
      skip _ _ (tombstone-Extends a.owner_user_id x r d)
  attempt-Extends a x r e = skip _ _ (live-Extends a x r e)

  attempt_event-Extends :
      (a : Authority) (r : Record) (e : Event)
      → Ensures (ChangeExtends b) (reduce_attempt_event a b t r e)
  unfolding reduce_attempt_event
  attempt_event-Extends a r e =
      bind _ _ λ ref _. bind _ _ λ x _. bind _ _ λ f h. done ((attempt-Extends a x r e).returns f h)

  plan-Extends : (revised : Bool) (d : Plan) → Ensures (ChangeExtends b) (on_plan revised b t d)
  unfolding on_plan
  plan-Extends revised d = bind _ _ λ v _. skip _ _ (
      skip _ _
        (bind _ _ λ x _. skip _ _ (skip _ _ (skip _ _ (bind _ _ λ u _. done (Extends-refl b))))))

  existing_event-Extends :
      (a : Authority) (r : Record) (e : Event)
      → Ensures (ChangeExtends b) (reduce_existing_event a b t r e)
  unfolding reduce_existing_event on_research_claim_bound on_research_continued
      on_plan_confirmation_requested on_plan_confirmed on_formula_confirmed
      on_candidate_manifest_bound on_task_completed
  existing_event-Extends a r (research_claim_bound d) =
      bind _ _ λ x _. skip _ _ (done (Extends-refl b))
  existing_event-Extends a r (research_continued d) = skip _ _ (
      bind _ _ λ x _. skip _ _ (
        skip _ _ (
          skip _ _ (
            skip _ _ (
              skip _ _ (
                skip _ _ (
                  skip _ _ (skip _ _ (bind _ _ λ b' h. done (bind_global-Extends _ _ _ b h))))))))))
  existing_event-Extends a r (plan_proposed d) = plan-Extends false d
  existing_event-Extends a r (plan_revised d) = plan-Extends true d
  existing_event-Extends a r (plan_confirmation_requested d) =
      skip _ _ (bind _ _ λ u _. done (Extends-refl b))
  existing_event-Extends a r (plan_confirmed d) =
      skip _ _ (skip _ _ (skip _ _ (bind _ _ λ u _. done (Extends-refl b))))
  existing_event-Extends a r (formula_confirmed d) = skip _ _ (
      skip _ _
        (bind _ _ λ x _. bind _ _ λ b' h. bind _ _ λ u _. done (bind_global-Extends _ _ _ b h)))
  existing_event-Extends a r (candidate_manifest_bound d) =
      skip _ _ (
        skip _ _ (bind _ _ λ x _. skip _ _ (bind _ _ λ b' h. done (bind_global-Extends _ _ _ b h))))
  existing_event-Extends a r (task_completed d) =
      skip _ _ (bind _ _ λ x _. skip _ _ (skip _ _ (bind _ _ λ u _. done (Extends-refl b))))
  existing_event-Extends a r e = attempt_event-Extends a r e

module _ (a : Authority) (p : Projection) (r : Record) where
  existing-Extends : Ensures (ChangeExtends p.bindings) (reduce_existing a p r)
  unfolding reduce_existing
  existing-Extends = bind _ _ λ t _. skip _ _ (
      skip _ _
        (bind _ _ λ c h. done ((existing_event-Extends p.bindings t a r r.event).returns c h)))

  started-Extends :
      (d : ResearchStarted) → Ensures (ChangeExtends p.bindings) (reduce_research_started a p r d)
  unfolding reduce_research_started
  started-Extends d = skip _ _ (
      skip _ _ (
        skip _ _
          (skip _ _ (skip _ _ (bind _ _ λ b' h. done (bind_global-Extends _ _ _ p.bindings h))))))

  event-Extends : (e : Event) → Ensures (ChangeExtends p.bindings) (reduce_event a p r e)
  unfolding reduce_event
  event-Extends (research_started d) = started-Extends d
  event-Extends e = existing-Extends

  -- Whatever record is accepted, every external reference that was bound stays bound to the same
  -- document.
  pub reduce-Extends : Ensures (λ (q : Projection). Extends q.bindings p.bindings) (reduce a p r)
  unfolding reduce commit
  reduce-Extends = skip _ _ (bind _ _ λ c h. done ((event-Extends r.event).returns c h))
