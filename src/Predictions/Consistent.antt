-- ===== src/Predictions/Consistent.antt =====
-- hqa/predictions.py: what `_reduce` keeps true of the states, the request ids and the day sequences that it
-- gathers.
use hermes_quant_agent.Prelude.{
  ℕ, ◌+◌, ◌≤◌, ◌≡◌, refl, sym, ◌∙◌, arith, [], ◌∷◌, List, Bool, true, false, ◌||◌, some, none,
  if◌then◌else◌, Text, text_eq, nat_eq, ◌==◌, is_some,
}
use hermes_quant_agent.Prelude.Dict.{Dict, get, put, get-put}
use hermes_quant_agent.Prelude.Outcome.{ok}
use hermes_quant_agent.Prelude.Ensures.{Ensures, bind, done, fails, skip, checked, refused}
use hermes_quant_agent.Predictions.{
  Created, Scored, LedgerEvent, prediction_created, prediction_scored, unknown, Outside,
  PredictionState,
}
use hermes_quant_agent.Predictions.Values.{prediction_id}
use hermes_quant_agent.Predictions.Ledger.{
  Reduced, empty_ledger, state_from_created, state_from_scored, sequence_of, require_state,
  on_created, on_scored, reduce_event, reduce_from, reduce, sequence_on, maximum, last_sequence,
}
use hermes_quant_agent.Predictions.Numbering.{IsNumber, prediction_id-IsNumber}

-- Some state belongs to the request.
unfoldable pub asks : Text → Dict Text PredictionState → Bool
asks r [] = false
asks r ((_, state) ∷ states) = state.created.request_id == r || asks r states

-- No two states belong to the same request.
unfoldable pub Distinct : Dict Text PredictionState → Type 0
Distinct [] = Unit
Distinct ((_, state) ∷ states) = (asks state.created.request_id states ≡ false) × Distinct states

pub record IsConsistent (ledger : Reduced) : Type 0 where
  pub sequences :
      (day : Text) → last_sequence day ledger.states ≡ sequence_of day ledger.day_sequences
  pub requests : (r : Text) → is_some (get r ledger.request_ids) ≡ asks r ledger.states
  pub distinct : Distinct ledger.states

pub last_sequence-put :
    (day id : Text) (x : PredictionState) (states : Dict Text PredictionState)
    → last_sequence day (put id x states) ≡ maximum (sequence_on day id) (last_sequence day states)
unfolding last_sequence put maximum
last_sequence-put day id x [] = refl
last_sequence-put day id x ((key, y) ∷ states) = ground (arith, last_sequence-put day id x states)

pub sequence_on-le-last :
    (day id : Text) (states : Dict Text PredictionState) {x : PredictionState}
    → get id states ≡ some x
    → sequence_on day id ≤ last_sequence day states
unfolding last_sequence get maximum
sequence_on-le-last day id [] h = cc
sequence_on-le-last day id ((key, y) ∷ states) {x} h =
    ground (arith, sequence_on-le-last day id states {x = x})

module _ (id : Text) (x : PredictionState) where
  pub asks-put_new :
      (r : Text) (states : Dict Text PredictionState)
      → get id states ≡ none
      → asks r (put id x states) ≡ (asks r states || x.created.request_id == r)
  unfolding asks put get
  asks-put_new r [] h = ground arith
  asks-put_new r ((key, y) ∷ states) h = ground (arith, asks-put_new r states)

  pub asks-put_same :
      (r : Text) (states : Dict Text PredictionState) {old : PredictionState}
      → get id states ≡ some old
      → x.created.request_id ≡ old.created.request_id
      → asks r (put id x states) ≡ asks r states
  unfolding asks put get
  asks-put_same r [] h e = cc
  asks-put_same r ((key, y) ∷ states) {old} h e = ground (arith, asks-put_same r states {old = old})

  Distinct-put_new :
      (states : Dict Text PredictionState)
      → get id states ≡ none
      → asks x.created.request_id states ≡ false
      → Distinct states
      → Distinct (put id x states)
  unfolding asks put get Distinct
  Distinct-put_new [] h a d = (refl, tt)
  Distinct-put_new ((key, y) ∷ states) h a d =
      ground (arith, Distinct-put_new states, asks-put_new y.created.request_id states)

  Distinct-put_same :
      (states : Dict Text PredictionState) {old : PredictionState}
      → get id states ≡ some old
      → x.created.request_id ≡ old.created.request_id
      → Distinct states
      → Distinct (put id x states)
  unfolding asks put get Distinct
  Distinct-put_same [] h e d = cc
  Distinct-put_same ((key, y) ∷ states) {old} h e d = ground (
    arith,
    Distinct-put_same states {old = old},
    asks-put_same y.created.request_id states {old = old},
  )

sequence_of-put :
    (d day : Text) (n : ℕ) (sequences : Dict Text ℕ)
    → sequence_of d (put day n sequences) ≡ (if d == day then n else sequence_of d sequences)
unfolding sequence_of
sequence_of-put d day n sequences = ground (arith, get-put d day n sequences)

next_sequence :
    (ledger : Reduced) (id : Text) (x : PredictionState) (day : Text) (n : ℕ)
    → IsNumber id (day, n)
    → (n == sequence_of day ledger.day_sequences + 1) ≡ true
    → IsConsistent ledger
    → (d : Text)
    → last_sequence d (put id x ledger.states) ≡ sequence_of d (put day n ledger.day_sequences)
unfolding IsNumber maximum
next_sequence ledger id x day n (_, _, here, elsewhere) h c d = ground (
  arith,
  last_sequence-put d id x ledger.states,
  sequence_of-put d day n ledger.day_sequences,
  c.sequences d,
  here,
  elsewhere d,
)

next_request :
    (ledger : Reduced) (id : Text) (x : PredictionState)
    → is_some (get id ledger.states) ≡ false
    → IsConsistent ledger
    → (r : Text)
    → is_some (get r (put x.created.request_id id ledger.request_ids))
      ≡ asks r (put id x ledger.states)
next_request ledger id x h c r = ground (
  arith,
  get-put r x.created.request_id id ledger.request_ids,
  asks-put_new id x r ledger.states,
  c.requests r,
)

pub absent :
    (id : Text) (states : Dict Text PredictionState)
    → is_some (get id states) ≡ false
    → get id states ≡ none
absent id states h = ground arith

pub on_created-IsConsistent :
    (outside : Outside) (event : Created) (ledger : Reduced)
    → IsConsistent ledger
    → Ensures IsConsistent (on_created outside event ledger)
unfolding on_created state_from_created
on_created-IsConsistent outside event ledger c = skip _ _ (
    refused (is_some (get event.id ledger.states)) _ _ λ fresh.
      bind (prediction_id event.id) _ λ (day, n) h. checked _ _ _ λ next.
        refused (is_some (get event.request_id ledger.request_ids)) _ _ λ unasked.
          let x : PredictionState = state_from_created event in
          done (record {
            sequences =
                next_sequence ledger event.id x day n
                  ((prediction_id-IsNumber event.id).returns (day, n) h) next c;
            requests = next_request ledger event.id x fresh c;
            distinct =
                Distinct-put_new event.id x ledger.states (absent event.id ledger.states fresh)
                  (sym (c.requests event.request_id) ∙ unasked) c.distinct;
          }))

pub require_state-eq-ok :
    (id : Text) (states : Dict Text PredictionState) {state : PredictionState}
    → require_state id states ≡ ok state
    → get id states ≡ some state
unfolding require_state
require_state-eq-ok id states h = ground (arith, h)

-- A state that is replaced by one of the same request.
replaced :
    (ledger : Reduced) (id : Text) (x old : PredictionState)
    → get id ledger.states ≡ some old
    → x.created.request_id ≡ old.created.request_id
    → IsConsistent ledger
    → IsConsistent (record ledger { states = put id x ledger.states })
unfolding maximum
replaced ledger id x old found same c = record {
  sequences = λ day. ground (
    arith,
    last_sequence-put day id x ledger.states,
    sequence_on-le-last day id ledger.states {x = old} found,
    c.sequences day,
  );
  requests = λ r. c.requests r ∙ sym (asks-put_same id x r ledger.states {old = old} found same);
  distinct = Distinct-put_same id x ledger.states {old = old} found same c.distinct;
}

pub on_scored-IsConsistent :
    (outside : Outside) (event : Scored) (ledger : Reduced)
    → IsConsistent ledger
    → Ensures IsConsistent (on_scored outside event ledger)
unfolding on_scored state_from_scored
on_scored-IsConsistent outside event ledger c = bind _ _ λ p _.
    bind (require_state event.id ledger.states) _ λ state found.
      refused (is_some state.scored) _ _ λ unscored. skip _ _ (
        done (
          replaced ledger event.id (state_from_scored state event) state
            (require_state-eq-ok event.id ledger.states found) refl c))

pub reduce_event-IsConsistent :
    (outside : Outside) (event : LedgerEvent) (ledger : Reduced)
    → IsConsistent ledger
    → Ensures IsConsistent (reduce_event outside event ledger)
unfolding reduce_event
reduce_event-IsConsistent outside (prediction_created event) ledger c =
    on_created-IsConsistent outside event ledger c
reduce_event-IsConsistent outside (prediction_scored event) ledger c =
    on_scored-IsConsistent outside event ledger c
reduce_event-IsConsistent outside unknown ledger c = fails

reduce_from-IsConsistent :
    (outside : Outside) (events : List LedgerEvent) (ledger : Reduced)
    → IsConsistent ledger
    → Ensures IsConsistent (reduce_from outside ledger events)
unfolding reduce_from
reduce_from-IsConsistent outside [] ledger c = done c
reduce_from-IsConsistent outside (event ∷ events) ledger c =
    bind (reduce_event outside event ledger) _ λ after h.
      reduce_from-IsConsistent outside events after
        ((reduce_event-IsConsistent outside event ledger c).returns after h)

empty-IsConsistent : IsConsistent empty_ledger
unfolding empty_ledger last_sequence sequence_of get asks Distinct
empty-IsConsistent = record { sequences = λ day. refl; requests = λ r. refl; distinct = tt }

-- Whatever file reduce accepts, for each day the greatest sequence among the ids of the states is
-- the one that is recorded for the day, a request id is recorded exactly if a state belongs to it,
-- and no two states belong to the same request.
pub reduce-IsConsistent :
    (outside : Outside) (events : List LedgerEvent) {ledger : Reduced}
    → reduce outside events ≡ ok ledger
    → IsConsistent ledger
unfolding reduce
reduce-IsConsistent outside events {ledger} h =
    (reduce_from-IsConsistent outside events empty_ledger empty-IsConsistent).returns ledger h
