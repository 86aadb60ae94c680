-- ===== src/Authority/StoreLaws.antt =====
-- Writing an attempt back into a sound task leaves a sound task.
use hermes_quant_agent.Prelude.{[], ◌∷◌, false, ◌≡◌, sym, ◌∙◌, subst, arith, is_some, Text}
use hermes_quant_agent.Prelude.Outcome.{ok}
use hermes_quant_agent.Authority.Store.{Attempt, Task}
use hermes_quant_agent.Authority.Checks.{gate1_complete, matching, find_attempt, store_attempt}
use hermes_quant_agent.Authority.Invariant.{is_ended, IsSound}
use hermes_quant_agent.Authority.AttemptLists.{
  find_attempt-matching, matching-ref, matching-OutcomesAgree, matching-AllEnded,
  replace-OnlyLastOpen, replace-NumberedFrom, replace-OutcomesAgree, replace-AllEnded,
  replace-AllEnded_keep,
}
use hermes_quant_agent.Authority.AttemptEvents.{Focus}
use hermes_quant_agent.Authority.LiveLaws.{FocusKeeps}

module _ (t : Task) (s : IsSound t) (ref : Text) (x : Attempt)
    (found : find_attempt t ref ≡ ok x) where
  here : (y : Attempt) → y.attempt_ref ≡ x.attempt_ref → matching y.attempt_ref t.attempts ≡ x ∷ []
  here y e =
      let m : matching ref t.attempts ≡ x ∷ [] = find_attempt-matching t ref found in
      let r : x.attempt_ref ≡ ref = matching-ref ref t.attempts {x = x} {rest = []} m in
      subst (λ (q : Text). matching q t.attempts ≡ x ∷ []) (sym r ∙ sym e) m

  pub find_attempt-outcome : is_some x.terminal_outcome ≡ is_ended x.state
  find_attempt-outcome =
      matching-OutcomesAgree ref t.attempts {x = x} {rest = []} (find_attempt-matching t ref found)
        s.outcomes

  -- An attempt that an open task had open, and that an event left as `FocusKeeps` says.
  pub store_attempt-live :
      (f : Focus)
      → is_ended x.state ≡ false
      → FocusKeeps t x f
      → IsSound (store_attempt f.attempt f.task)
  unfolding store_attempt
  store_attempt-live f o k =
      let y : Attempt = f.attempt in
      let at : matching y.attempt_ref t.attempts ≡ x ∷ [] = here y k.attempt.same_ref in
      record {
        open_last =
            rw k.task.same_attempts
              (replace-OnlyLastOpen y t.attempts {x = x} at (λ e. cc) s.open_last);
        numbered =
            rw k.task.same_attempts
              (replace-NumberedFrom y 1 t.attempts {x = x} at k.attempt.same_number s.numbered);
        outcomes =
            rw k.task.same_attempts
              (replace-OutcomesAgree y t.attempts k.attempt.outcome s.outcomes);
        outcome = k.task.outcome;
        closed = λ c.
            rw k.task.same_attempts
              (replace-AllEnded y t.attempts {x = x} at o (k.closing c) s.open_last);
        plan_confirmed = ground arith;
        formula_confirmed = ground arith;
        completed_gates = λ c. absurd (k.task.not_completed c);
      }

  -- A write that leaves the attempt's state and outcome.
  pub store_attempt-same :
      (y : Attempt)
      → y.attempt_ref ≡ x.attempt_ref
      → y.attempt_number ≡ x.attempt_number
      → y.state ≡ x.state
      → y.terminal_outcome ≡ x.terminal_outcome
      → IsSound (store_attempt y t)
  unfolding store_attempt gate1_complete
  store_attempt-same y r n e o =
      let at : matching y.attempt_ref t.attempts ≡ x ∷ [] = here y r in
      record {
        open_last = replace-OnlyLastOpen y t.attempts {x = x} at (λ h. ground arith) s.open_last;
        numbered = replace-NumberedFrom y 1 t.attempts {x = x} at n s.numbered;
        outcomes = replace-OutcomesAgree y t.attempts (rw (o, e) find_attempt-outcome) s.outcomes;
        outcome = s.outcome;
        closed = λ c.
            replace-AllEnded_keep y t.attempts
              (rw e (
                matching-AllEnded ref t.attempts {x = x} {rest = []}
                  (find_attempt-matching t ref found) (s.closed c)))
              (s.closed c);
        plan_confirmed = s.plan_confirmed;
        formula_confirmed = s.formula_confirmed;
        completed_gates = s.completed_gates;
      }
