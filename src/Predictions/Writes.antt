-- ===== src/Predictions/Writes.antt =====
-- hqa/predictions.py: the files that one call of `create` or one score leaves can be read.
use hermes_quant_agent.Prelude.{
  ℕ, ◌≡◌, refl, [], ◌∷◌, List, Bool, true, false, some, none, if◌then◌else◌, Text, text_eq, Option,
}
use hermes_quant_agent.Prelude.Dict.{Dict, put}
use hermes_quant_agent.Prelude.Outcome.{Result, ok, err, ◌>>=◌}
use hermes_quant_agent.Prelude.Ensures.{Ensures, bind, done, fails, skip}
use hermes_quant_agent.Predictions.{
  LedgerError, Value, Created, Scored, LedgerEvent, prediction_scored, Outside, PredictionState,
}
use hermes_quant_agent.Predictions.Values.{prediction_id}
use hermes_quant_agent.Predictions.Intent.{Preview, preview}
use hermes_quant_agent.Predictions.Prices.{Prepared, prepare_normalized}
use hermes_quant_agent.Predictions.Validation.{validate_scored_event}
use hermes_quant_agent.Predictions.Ledger.{
  Reduced, as_corrupt, require_state, state_from_scored, on_scored, reduce_event, reduce,
}
use hermes_quant_agent.Predictions.Creation.{
  Written, Ran, opened, kept, create_locked, create_prepared, create_unless_found, seen_request,
  create_previewed, create,
}
use hermes_quant_agent.Predictions.Scoring.{
  Evidence, Row, scored_event, score_current, score_locked, score_file, commit_score,
}
use hermes_quant_agent.Predictions.Reconcile.{attempt_score}
use hermes_quant_agent.Predictions.Appends.{reduce-snoc, create_locked-IsKept}

module _ (outside : Outside) where
  -- The events are those of a ledger.
  unfoldable pub CanRead : List LedgerEvent → Type 0
  CanRead events = (ledger : Reduced) × (reduce outside events ≡ ok ledger)

  scored-id :
      (event : Scored) (created : Created)
      → Ensures
          (λ _. (p : Text × ℕ) × (prediction_id event.id ≡ ok p))
          (validate_scored_event outside event created)
  unfolding validate_scored_event
  scored-id event created =
      skip _ _ (bind (prediction_id event.id) _ λ p h. record { returns = λ _ _. (p, h) })

  on_scored-ok :
      (event : Scored) (ledger : Reduced) (state : PredictionState) (p : Text × ℕ)
      → prediction_id event.id ≡ ok p
      → require_state event.id ledger.states ≡ ok state
      → state.scored ≡ none
      → validate_scored_event outside event state.created ≡ ok tt
      → (after : Reduced) × (on_scored outside event ledger ≡ ok after)
  unfolding on_scored ◌>>=◌ as_corrupt
  on_scored-ok event ledger state p h found unscored valid = (
    record ledger { states = put event.id (state_from_scored state event) ledger.states },
    rw (h, found, unscored, valid),
  )

  score_current-CanRead :
      (event : Scored) (events : List LedgerEvent) (ledger : Reduced) (state : PredictionState)
      → reduce outside events ≡ ok ledger
      → require_state event.id ledger.states ≡ ok state
      → (done_before : Option Scored) → state.scored ≡ done_before
      → Ensures
          (λ (w : Written Row). CanRead w.events)
          (score_current outside event events state done_before)
  unfolding score_current CanRead reduce_event
  score_current-CanRead event events ledger state readable found (some past) e =
      done (ledger, readable)
  score_current-CanRead event events ledger state readable found none e =
      bind (validate_scored_event outside event state.created) _ λ _ valid.
        let (p, h) = (scored-id event state.created).returns _ valid in
        let (after, taken) = on_scored-ok event ledger state p h found e valid in
        done (after, reduce-snoc outside (prediction_scored event) events readable taken)

  score_locked-CanRead :
      (event : Scored) (events : List LedgerEvent)
      → Ensures (λ (w : Written Row). CanRead w.events) (score_locked outside event events)
  unfolding score_locked
  score_locked-CanRead event [] = fails
  score_locked-CanRead event (first ∷ events) =
      bind (reduce outside (first ∷ events)) _ λ ledger readable.
        bind (require_state event.id ledger.states) _ λ state found.
          score_current-CanRead event (first ∷ events) ledger state readable found state.scored refl

  -- A file, or none, that holds a ledger.
  unfoldable pub IsReadable : Option (List LedgerEvent) → Type 0
  IsReadable file = CanRead (opened file)

  kept-IsReadable :
      {A : Type 0} (events : List LedgerEvent) (m : Result LedgerError (Written A))
      → CanRead events
      → Ensures (λ (w : Written A). CanRead w.events) m
      → IsReadable (kept events m).file
  unfolding kept IsReadable opened
  kept-IsReadable events (err e) r k = r
  kept-IsReadable events (ok w) r k = k.returns w refl

  locked-CanRead :
      (p : Preview) (prepared : Prepared) (events : List LedgerEvent)
      → Ensures
          (λ (w : Written PredictionState). CanRead w.events)
          (create_locked outside p prepared events)
  unfolding CanRead
  locked-CanRead p prepared events = record {
    returns = λ w h.
        let k = (create_locked-IsKept outside p prepared events).returns w h in
        (k.ledger, k.readable);
  }

  prepared-IsReadable :
      (p : Preview) (file : Option (List LedgerEvent)) (m : Result LedgerError Prepared)
      → IsReadable file
      → IsReadable (create_prepared outside p file m).file
  unfolding create_prepared IsReadable
  prepared-IsReadable p file (err e) r = r
  prepared-IsReadable p file (ok prepared) r =
      kept-IsReadable (opened file) (create_locked outside p prepared (opened file)) r
        (locked-CanRead p prepared (opened file))

  unless_found-IsReadable :
      (now : Text) (p : Preview) (file : Option (List LedgerEvent))
      (m : Result LedgerError (Option PredictionState))
      → IsReadable file
      → IsReadable (create_unless_found outside now p file m).file
  unfolding create_unless_found
  unless_found-IsReadable now p file (err e) r = r
  unless_found-IsReadable now p file (ok (some x)) r = r
  unless_found-IsReadable now p file (ok none) r =
      prepared-IsReadable p file (prepare_normalized outside now p.prediction_request) r

  previewed-IsReadable :
      (now : Text) (seen file : Option (List LedgerEvent)) (m : Result LedgerError Preview)
      → IsReadable file
      → IsReadable (create_previewed outside now seen file m).file
  unfolding create_previewed
  previewed-IsReadable now seen file (err e) r = r
  previewed-IsReadable now seen file (ok p) r =
      unless_found-IsReadable now p file (seen_request outside p seen) r

  pub create-IsReadable :
      (now : Text) (seen file : Option (List LedgerEvent)) (request : Dict Text Value)
      → IsReadable file
      → IsReadable (create outside now seen file request).file
  unfolding create
  create-IsReadable now seen file request r =
      previewed-IsReadable now seen file (preview outside request) r

  score_file-IsReadable :
      (event : Scored) (file : Option (List LedgerEvent))
      → IsReadable file
      → IsReadable (score_file outside event file).file
  unfolding score_file IsReadable opened
  score_file-IsReadable event none r = r
  score_file-IsReadable event (some events) r =
      kept-IsReadable events (score_locked outside event events) r
        (score_locked-CanRead event events)

  either-IsReadable :
      (b : Bool) (x y : Ran Row)
      → IsReadable x.file
      → IsReadable y.file
      → IsReadable (if b then x else y).file
  either-IsReadable true x y p q = p
  either-IsReadable false x y p q = q

  pub attempt-IsReadable :
      (as_of cutoff : Text) (state : PredictionState) (file : Option (List LedgerEvent))
      (m : Result LedgerError (Option Evidence))
      → IsReadable file
      → IsReadable (attempt_score outside as_of cutoff state file m).file
  unfolding attempt_score commit_score
  attempt-IsReadable as_of cutoff state file (err e) r = r
  attempt-IsReadable as_of cutoff state file (ok none) r = r
  attempt-IsReadable as_of cutoff state file (ok (some evidence)) r =
      either-IsReadable _ _ _
        (score_file-IsReadable (scored_event outside state.created evidence as_of) file r) r
