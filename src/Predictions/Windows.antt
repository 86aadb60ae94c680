-- ===== src/Predictions/Windows.antt =====
-- hqa/predictions.py: the dates of a score that the ledger holds.
use hermes_quant_agent.Prelude.{
  ◌≡◌, refl, arith, [], ◌∷◌, List, true, false, some, none, Text, text_eq, nat_eq, Option,
}
use hermes_quant_agent.Prelude.Dict.{Dict, put}
use hermes_quant_agent.Prelude.Outcome.{Result, Done, ok, err}
use hermes_quant_agent.Prelude.Ensures.{Ensures, bind, done, fails, skip, checked, refused}
use hermes_quant_agent.Predictions.{
  LedgerError, Created, Scored, LedgerEvent, prediction_created, prediction_scored, unknown,
  Outside, PredictionState,
}
use hermes_quant_agent.Predictions.Values.{strict_date, completed_session_cutoff, prediction_id}
use hermes_quant_agent.Predictions.Validation.{text_less, resolution_end, validate_scored_event}
use hermes_quant_agent.Predictions.Ledger.{
  Reduced, empty_ledger, state_from_created, state_from_scored, require_state, on_created,
  on_scored, reduce_event, reduce_from, reduce, as_corrupt,
}
use hermes_quant_agent.Predictions.Numbering.{strict_date-eq-ok}

module _ (outside : Outside) where
  -- The score of a prediction is later than the prediction, and its outcome lies between the horizon and
  -- ten days after it, in a session that was complete when it was scored.
  pub record IsTimely (created : Created) (event : Scored) : Type 0 where
    pub later : text_less created.created_at event.scored_at ≡ true
    pub not_early : text_less event.outcome_session_date created.horizon_date ≡ false
    pub cutoff : Text
    pub cutoff_known : completed_session_cutoff outside.market_day event.scored_at ≡ ok cutoff
    pub complete : text_less cutoff event.outcome_session_date ≡ false
    pub last_day : Text
    pub last_known : resolution_end created.horizon_date ≡ ok last_day
    pub not_late : text_less last_day event.outcome_session_date ≡ false

  unfoldable pub ScoreIsTimely : Created → Option Scored → Type 0
  ScoreIsTimely created none = Unit
  ScoreIsTimely created (some event) = IsTimely created event

  unfoldable pub AllTimely : Dict Text PredictionState → Type 0
  AllTimely [] = Unit
  AllTimely ((_, state) ∷ states) = ScoreIsTimely state.created state.scored × AllTimely states

  validate_scored_event-IsTimely :
      (event : Scored) (created : Created)
      → Ensures (λ _. IsTimely created event) (validate_scored_event outside event created)
  unfolding validate_scored_event
  validate_scored_event-IsTimely event created = skip _ _ (
      bind (prediction_id event.id) _ λ p h. skip _ _ (
        checked (text_less created.created_at event.scored_at) _ _ λ later.
          bind (strict_date event.outcome_session_date) _ λ day known.
            refused (text_less day created.horizon_date) _ _ λ not_early.
              bind (completed_session_cutoff outside.market_day event.scored_at) _
                λ cutoff cutoff_known. refused (text_less cutoff day) _ _ λ complete.
                  bind (resolution_end created.horizon_date) _ λ last_day last_known.
                    refused (text_less last_day day) _ _ λ not_late.
                      let same = (strict_date-eq-ok event.outcome_session_date).returns day known in
                      record {
                        returns = λ _ _. record {
                          later = later;
                          not_early = rw same not_early;
                          cutoff = cutoff;
                          cutoff_known = cutoff_known;
                          complete = rw same complete;
                          last_day = last_day;
                          last_known = last_known;
                          not_late = rw same not_late;
                        };
                      }))

  AllTimely-put :
      (id : Text) (x : PredictionState) (states : Dict Text PredictionState)
      → ScoreIsTimely x.created x.scored
      → AllTimely states
      → AllTimely (put id x states)
  unfolding AllTimely put
  AllTimely-put id x [] t a = (t, tt)
  AllTimely-put id x ((key, y) ∷ states) t a = ground (arith, AllTimely-put id x states)

  as_corrupt-eq-ok : (m : Result LedgerError Done) → as_corrupt m ≡ ok tt → m ≡ ok tt
  unfolding as_corrupt
  as_corrupt-eq-ok (ok u) h = refl
  as_corrupt-eq-ok (err e) h = cc

  reduce_event-AllTimely :
      (event : LedgerEvent) (ledger : Reduced)
      → AllTimely ledger.states
      → Ensures (λ (after : Reduced). AllTimely after.states) (reduce_event outside event ledger)
  unfolding reduce_event on_created on_scored state_from_created state_from_scored ScoreIsTimely
  reduce_event-AllTimely (prediction_created event) ledger a = skip _ _ (
      refused _ _ _ λ _. bind (prediction_id event.id) _ λ (day, n) h.
        skip _ _
          (skip _ _ (done (AllTimely-put event.id (state_from_created event) ledger.states tt a))))
  reduce_event-AllTimely (prediction_scored event) ledger a = bind _ _ λ p _.
      bind (require_state event.id ledger.states) _ λ state found. skip _ _ (
        bind (as_corrupt (validate_scored_event outside event state.created)) _ λ _ valid. done (
          AllTimely-put event.id (state_from_scored state event) ledger.states
            ((validate_scored_event-IsTimely event state.created).returns tt
              (as_corrupt-eq-ok (validate_scored_event outside event state.created) valid))
            a))
  reduce_event-AllTimely unknown ledger a = fails

  reduce_from-AllTimely :
      (events : List LedgerEvent) (ledger : Reduced)
      → AllTimely ledger.states
      → Ensures (λ (after : Reduced). AllTimely after.states) (reduce_from outside ledger events)
  unfolding reduce_from
  reduce_from-AllTimely [] ledger a = done a
  reduce_from-AllTimely (event ∷ events) ledger a =
      bind (reduce_event outside event ledger) _ λ after h.
        reduce_from-AllTimely events after ((reduce_event-AllTimely event ledger a).returns after h)

  -- In every file that reduce accepts, each score is later than its prediction, and its outcome
  -- session is not before the horizon, not after the last day of the resolution window, and not
  -- after the session that was complete when it was scored.
  pub reduce-AllTimely :
      (events : List LedgerEvent) {ledger : Reduced}
      → reduce outside events ≡ ok ledger
      → AllTimely ledger.states
  unfolding reduce AllTimely empty_ledger
  reduce-AllTimely events {ledger} h =
      (reduce_from-AllTimely events empty_ledger tt).returns ledger h
