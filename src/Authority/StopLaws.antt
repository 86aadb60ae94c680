-- ===== src/Authority/StopLaws.antt =====
-- What the events of a live attempt that reconcile, stop or expire it keep, and so every event of a live attempt.
use hermes_quant_agent.Prelude.{option_eq, text_eq, false, ◌≡◌, arith, Option, is_some, Text}
use hermes_quant_agent.Prelude.Ensures.{Ensures, bind, done, fails, skip, checked}
use hermes_quant_agent.States.Machine.{reconciling, TaskState, AttemptState, task_state_eq}
use hermes_quant_agent.Contract.Values.{
  gate_outcome_eq, terminal_outcome_eq, TerminalOutcome, StopOutcome, ResolvedState, confirmed,
  already_terminal, outcome_unknown, requested,
}
use hermes_quant_agent.Contract.Command.{ResolveReconcile, ObserveStop, ExpiryMutation}
use hermes_quant_agent.Authority.Digests.{Authority}
use hermes_quant_agent.Authority.Reduce.{on_live_attempt}
use hermes_quant_agent.Authority.Event.{
  Event, submission_observed, run_observed, provider_evidence_observed, gate3_observed,
  result_linked, domain_gate_entered, domain_gate_resolved, reconcile_started, reconcile_resolved,
  stop_requested, stop_observed, attempt_completed, intent_expired, Record,
}
use hermes_quant_agent.Authority.Store.{Attempt, Task, Bindings}
use hermes_quant_agent.Authority.Invariant.{is_ended, is_closed}
use hermes_quant_agent.Authority.Transitions.{
  transition_attempt-cases, transition_task-eq, transition_attempt-eq,
}
use hermes_quant_agent.Authority.AttemptEvents.{Focus}
use hermes_quant_agent.Authority.StopEvents.{
  resolve, on_reconcile_resolved, stop_ends, stop_unknown, stop_effect, on_stop_observed,
}
use hermes_quant_agent.Authority.Expiry.{record_payload_tombstone, on_intent_expired}
use hermes_quant_agent.Authority.LiveLaws.{
  AttemptKeeps, FocusKeeps, on_submission_observed-keeps, on_run_observed-keeps,
  on_provider_evidence_observed-keeps, on_gate3_observed-keeps, on_result_linked-keeps,
  on_domain_gate_entered-keeps, on_domain_gate_resolved-keeps, on_reconcile_started-keeps,
  on_stop_requested-keeps, on_attempt_completed-keeps,
}

module _ (b : Bindings) (t : Task) (x : Attempt)
    (open_attempt : is_some x.terminal_outcome ≡ is_ended x.state)
    (open_x : is_ended x.state ≡ false)
    (task_outcome : is_some t.terminal_outcome ≡ is_closed t.state)
    (open_task : is_closed t.state ≡ false) where
  resolve-keeps :
      (o : Text) (s : ResolvedState) (out : Option TerminalOutcome)
      → Ensures (AttemptKeeps x) (resolve x o s out)
  unfolding resolve
  resolve-keeps o ResolvedState.running out = skip _ _ (
      bind _ _
        λ y hy. skip _ _ (done (ground (arith, transition_attempt-eq x AttemptState.running y))))
  resolve-keeps o ResolvedState.terminal out = bind _ _ λ y hy.
      checked _ _ _ λ c. done (ground (arith, transition_attempt-eq x AttemptState.terminal y))
  resolve-keeps o (ResolvedState.other s) out = fails

  on_reconcile_resolved-keeps :
      (d : ResolveReconcile) → Ensures (FocusKeeps t x) (on_reconcile_resolved b t x d)
  unfolding on_reconcile_resolved
  on_reconcile_resolved-keeps d = skip _ _ (
      skip _ _ (
        skip _ _ (
          bind _ _ λ y hy.
            done (let k : AttemptKeeps x y = (resolve-keeps _ _ _).returns y hy in ground arith))))

  stop_ends-keeps :
      (actual : Option TerminalOutcome) → Ensures (AttemptKeeps x) (stop_ends t x actual)
  unfolding stop_ends
  stop_ends-keeps actual = checked _ _ _ λ c.
      skip _ _
        (bind _ _ λ y hy. done (ground (arith, transition_attempt-eq x AttemptState.terminal y)))

  stop_unknown-keeps : Ensures (AttemptKeeps x) (stop_unknown x)
  unfolding stop_unknown
  stop_unknown-keeps =
      bind _ _ λ y hy. done (ground (arith, transition_attempt-cases x reconciling))

  stop_effect-keeps :
      (o : StopOutcome) (actual : Option TerminalOutcome)
      → Ensures (AttemptKeeps x) (stop_effect t x o actual)
  unfolding stop_effect
  stop_effect-keeps outcome_unknown actual = stop_unknown-keeps
  stop_effect-keeps confirmed actual = skip _ _ (stop_ends-keeps actual)
  stop_effect-keeps already_terminal actual = stop_ends-keeps actual
  stop_effect-keeps requested actual = fails
  stop_effect-keeps (StopOutcome.other s) actual = fails

  on_stop_observed-keeps : (d : ObserveStop) → Ensures (FocusKeeps t x) (on_stop_observed b t x d)
  unfolding on_stop_observed
  on_stop_observed-keeps d = skip _ _ (
      skip _ _ (
        bind _ _ λ y hy.
          done (let k : AttemptKeeps x y = (stop_effect-keeps _ _).returns y hy in ground arith)))

-- A tombstone marks the attempt and leaves all else.
pub record TombstoneKeeps (t : Task) (x : Attempt) (f : Focus) : Type 0 where
  pub same_task : f.task ≡ t
  pub same_ref : f.attempt.attempt_ref ≡ x.attempt_ref
  pub same_number : f.attempt.attempt_number ≡ x.attempt_number
  pub same_payload : f.attempt.payload_ref ≡ x.payload_ref
  pub same_state : f.attempt.state ≡ x.state
  pub same_outcome : f.attempt.terminal_outcome ≡ x.terminal_outcome

pub record_payload_tombstone-keeps :
    (owner : Text) (b : Bindings) (t : Task) (x : Attempt) (r : Record) (d : ExpiryMutation)
    → Ensures (TombstoneKeeps t x) (record_payload_tombstone owner b t x r d)
unfolding record_payload_tombstone
record_payload_tombstone-keeps owner b t x r d = skip _ _ (
    skip _ _
      (skip _ _ (skip _ _ (bind _ _ λ b' _. bind _ _ λ b'' _. skip _ _ (done (ground arith))))))

on_intent_expired-keeps :
    (owner : Text) (b : Bindings) (t : Task) (x : Attempt) (r : Record) (d : ExpiryMutation)
    → Ensures (FocusKeeps t x) (on_intent_expired owner b t x r d)
unfolding on_intent_expired
on_intent_expired-keeps owner b t x r d = skip _ _ (
    bind _ _ λ m hm. bind _ _ λ y hy. bind _ _ λ u hu. done (
      let k : TombstoneKeeps t x m =
        (record_payload_tombstone-keeps owner b t x r d).returns m hm in
      ground (
        arith,
        transition_attempt-eq m.attempt AttemptState.terminal y,
        transition_task-eq t TaskState.terminal u,
      )))

-- Every event of an open attempt of an open task.
pub on_live_attempt-keeps :
    (a : Authority) (b : Bindings) (t : Task) (x : Attempt) (r : Record) (e : Event)
    → is_some x.terminal_outcome ≡ is_ended x.state
    → is_ended x.state ≡ false
    → is_some t.terminal_outcome ≡ is_closed t.state
    → is_closed t.state ≡ false
    → Ensures (FocusKeeps t x) (on_live_attempt a b t x r e)
unfolding on_live_attempt
on_live_attempt-keeps a b t x r (submission_observed d) p q s v =
    on_submission_observed-keeps b t x p q s v d
on_live_attempt-keeps a b t x r (run_observed d) p q s v = on_run_observed-keeps b t x p q s v d
on_live_attempt-keeps a b t x r (provider_evidence_observed d) p q s v =
    on_provider_evidence_observed-keeps b t x p q s v d
on_live_attempt-keeps a b t x r (gate3_observed d) p q s v = on_gate3_observed-keeps b t x p q s v d
on_live_attempt-keeps a b t x r (result_linked d) p q s v = on_result_linked-keeps b t x p q s v d
on_live_attempt-keeps a b t x r (domain_gate_entered d) p q s v =
    on_domain_gate_entered-keeps b t x p q s v d
on_live_attempt-keeps a b t x r (domain_gate_resolved d) p q s v =
    on_domain_gate_resolved-keeps b t x p q s v d
on_live_attempt-keeps a b t x r (reconcile_started d) p q s v =
    on_reconcile_started-keeps b t x p q s v d
on_live_attempt-keeps a b t x r (reconcile_resolved d) p q s v =
    on_reconcile_resolved-keeps b t x p q s v d
on_live_attempt-keeps a b t x r (stop_requested d) p q s v = on_stop_requested-keeps b t x p q s v d
on_live_attempt-keeps a b t x r (stop_observed d) p q s v = on_stop_observed-keeps b t x p q s v d
on_live_attempt-keeps a b t x r (attempt_completed d) p q s v =
    on_attempt_completed-keeps b t x p q s v d
on_live_attempt-keeps a b t x r (intent_expired d) p q s v =
    on_intent_expired-keeps a.owner_user_id b t x r d
on_live_attempt-keeps a b t x r _ p q s v = fails
