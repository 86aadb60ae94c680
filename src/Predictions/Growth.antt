-- ===== src/Predictions/Growth.antt =====
-- hqa/predictions.py: what later events can change of a prediction.
use hermes_quant_agent.Prelude.{
  same_text, ◌≡◌, refl, ◌∙◌, subst, arith, [], ◌∷◌, List, true, false, some, none, Text, text_eq,
  ◌==◌, Option, is_some, inl, inr, Bool-cases,
}
use hermes_quant_agent.Prelude.Dict.{Dict, get, put, get-put}
use hermes_quant_agent.Prelude.Ensures.{Ensures, bind, done, fails, skip, refused}
use hermes_quant_agent.Predictions.{
  Scored, LedgerEvent, prediction_created, prediction_scored, unknown, Outside, PredictionState,
}
use hermes_quant_agent.Predictions.Values.{prediction_id}
use hermes_quant_agent.Predictions.Ledger.{
  Reduced, state_from_created, state_from_scored, require_state, on_created, on_scored,
  reduce_event, reduce_from,
}
use hermes_quant_agent.Predictions.Consistent.{require_state-eq-ok}

-- The prediction stays, and a score that it has stays.
pub record Follows (x y : PredictionState) : Type 0 where
  pub same_prediction : y.created ≡ x.created
  pub same_score : is_some x.scored ≡ true → y.scored ≡ x.scored

-- Each state is still there, and follows what it was.
unfoldable pub Extends : Dict Text PredictionState → Dict Text PredictionState → Type 0
Extends before after =
    (id : Text) (x : PredictionState)
    → get id before ≡ some x
    → (y : PredictionState) × (get id after ≡ some y) × Follows x y

itself : (x : PredictionState) → Follows x x
itself x = record { same_prediction = refl; same_score = λ _. refl }

not_both :
    (id : Text) (states : Dict Text PredictionState) {x : PredictionState} {P : Type 0}
    → is_some (get id states) ≡ false
    → get id states ≡ some x
    → P
not_both id states fresh found = absurd (ground (arith, fresh, found))

one_state : (o : Option PredictionState) {x y : PredictionState} → o ≡ some x → o ≡ some y → x ≡ y
one_state none h k = cc
one_state (some z) h k = cc

-- A score on a state that had none.
scored_once :
    (state : PredictionState) (event : Scored)
    → is_some state.scored ≡ false
    → Follows state (state_from_scored state event)
unfolding state_from_scored
scored_once state event h = record { same_prediction = refl; same_score = λ k. cc }

put-Extends :
    (key : Text) (z : PredictionState) (states : Dict Text PredictionState)
    → ((x : PredictionState) → get key states ≡ some x → Follows x z)
    → Extends states (put key z states)
unfolding Extends
put-Extends key z states keeps id x h = elim (Bool-cases (id == key)) [
  | inl same ↦ (
    z,
    ground (arith, get-put id key z states, same),
    keeps x (subst (λ k. get k states ≡ some x) (same_text id key same) h),
  )
  | inr differ ↦ (x, ground (arith, get-put id key z states, differ, h), itself x)
]

reduce_event-Extends :
    (outside : Outside) (event : LedgerEvent) (ledger : Reduced)
    → Ensures
        (λ (after : Reduced). Extends ledger.states after.states)
        (reduce_event outside event ledger)
unfolding reduce_event on_created on_scored
reduce_event-Extends outside (prediction_created event) ledger = skip _ _ (
    refused (is_some (get event.id ledger.states)) _ _ λ fresh.
      bind (prediction_id event.id) _ λ (day, n) h. skip _ _ (
        skip _ _ (
          done (
            put-Extends event.id (state_from_created event) ledger.states
              λ x found. not_both event.id ledger.states fresh found))))
reduce_event-Extends outside (prediction_scored event) ledger = bind _ _ λ p _.
    bind (require_state event.id ledger.states) _ λ state found.
      refused (is_some state.scored) _ _ λ unscored. skip _ _ (
        done (
          put-Extends event.id (state_from_scored state event) ledger.states λ x h.
            subst (λ w. Follows w (state_from_scored state event))
              (one_state (get event.id ledger.states)
                (require_state-eq-ok event.id ledger.states found) h)
              (scored_once state event unscored)))
reduce_event-Extends outside unknown ledger = fails

then_Extends : (a b c : Dict Text PredictionState) → Extends a b → Extends b c → Extends a c
unfolding Extends
then_Extends a b c p q id x h =
    let (y, found, f) = p id x h in
    let (z, last, g) = q id y found in
    (
      z,
      last,
      record {
        same_prediction = g.same_prediction ∙ f.same_prediction;
        same_score = λ s. g.same_score (rw (f.same_score s) s) ∙ f.same_score s;
      },
    )

-- The events that follow in a file that reduce accepts leave every prediction as it is, and leave
-- its score as it is once it has one.
pub reduce_from-Extends :
    (outside : Outside) (events : List LedgerEvent) (ledger : Reduced)
    → Ensures
        (λ (after : Reduced). Extends ledger.states after.states)
        (reduce_from outside ledger events)
unfolding reduce_from Extends
reduce_from-Extends outside [] ledger = done (λ id x h. (x, h, itself x))
reduce_from-Extends outside (event ∷ events) ledger =
    bind (reduce_event outside event ledger) _ λ middle h. record {
      returns = λ after k.
          then_Extends ledger.states middle.states after.states
            ((reduce_event-Extends outside event ledger).returns middle h)
            ((reduce_from-Extends outside events middle).returns after k);
    }
