-- ===== src/Predictions/Readable.antt =====
-- hqa/predictions.py: the ledger stays readable, whatever `create` and `reconcile_due` do and raise.
use hermes_quant_agent.Prelude.{ℕ, [], ◌∷◌, List, Text, text_eq, Option}
use hermes_quant_agent.Prelude.Dict.{Dict}
use hermes_quant_agent.Prelude.Outcome.{Result, ok, err}
use hermes_quant_agent.Predictions.{LedgerError, Value, LedgerEvent, Outside, PredictionState}
use hermes_quant_agent.Predictions.Creation.{Ran, create}
use hermes_quant_agent.Predictions.Scoring.{Row, read_scoring_evidence}
use hermes_quant_agent.Predictions.Reconcile.{
  score_one, add_row, score_then, score_all, Selection, select_due, reconcile_selected,
  reconcile_due,
}
use hermes_quant_agent.Predictions.Writes.{IsReadable, create-IsReadable, attempt-IsReadable}

module _ (outside : Outside) where
  score_then-IsReadable :
      (m : Result LedgerError Row) (file : Option (List LedgerEvent))
      (more : Option (List LedgerEvent) → Ran (List Row))
      → IsReadable outside file
      → IsReadable outside (more file).file
      → IsReadable outside (score_then m file more).file
  unfolding score_then add_row
  score_then-IsReadable (err e) file more r k = r
  score_then-IsReadable (ok row) file more r k = k

  score_all-IsReadable :
      (as_of cutoff : Text) (states : List PredictionState) (file : Option (List LedgerEvent))
      → IsReadable outside file
      → IsReadable outside (score_all outside as_of cutoff states file).file
  unfolding score_all score_one
  score_all-IsReadable as_of cutoff [] file r = r
  score_all-IsReadable as_of cutoff (state ∷ states) file r =
      let ran = score_one outside as_of cutoff state file in
      let kept_readable =
        attempt-IsReadable outside as_of cutoff state file
          (read_scoring_evidence outside state.created cutoff) r in
      score_then-IsReadable ran.outcome ran.file (score_all outside as_of cutoff states)
        kept_readable (score_all-IsReadable as_of cutoff states ran.file kept_readable)

  selected-IsReadable :
      (file : Option (List LedgerEvent)) (m : Result LedgerError Selection)
      → IsReadable outside file
      → IsReadable outside (reconcile_selected outside file m).file
  unfolding reconcile_selected
  selected-IsReadable file (err e) r = r
  selected-IsReadable file (ok s) r = score_all-IsReadable s.as_of s.cutoff s.selected file r

  reconcile_due-IsReadable :
      (as_of : Text) (limit : ℕ) (cursor : Option Text) (file : Option (List LedgerEvent))
      → IsReadable outside file
      → IsReadable outside (reconcile_due outside as_of limit cursor file).file
  unfolding reconcile_due
  reconcile_due-IsReadable as_of limit cursor file r =
      selected-IsReadable file (select_due outside as_of limit cursor file) r

  -- The files that calls make of a file: each call may return or raise, and `seen` may be any file that
  -- another process has left by then.
  pub data Calls : Option (List LedgerEvent) → Option (List LedgerEvent) → Type 0 where
    none_yet : {file : Option (List LedgerEvent)} → Calls file file
    created :
        {file last : Option (List LedgerEvent)} (now : Text) (seen : Option (List LedgerEvent))
        (request : Dict Text Value)
        → Calls (create outside now seen file request).file last
        → Calls file last
    reconciled :
        {file last : Option (List LedgerEvent)} (as_of : Text) (limit : ℕ) (cursor : Option Text)
        → Calls (reconcile_due outside as_of limit cursor file).file last
        → Calls file last

  -- From a file that reduce accepts, any sequence of calls of create and reconcile_due, whether
  -- they return or raise, leaves a file that reduce accepts. The file that create reads before its
  -- lock may be any.
  pub Calls-IsReadable :
      {file last : Option (List LedgerEvent)}
      → Calls file last
      → IsReadable outside file
      → IsReadable outside last
  Calls-IsReadable none_yet r = r
  Calls-IsReadable {file} (created now seen request calls) r =
      Calls-IsReadable calls (create-IsReadable outside now seen file request r)
  Calls-IsReadable {file} (reconciled as_of limit cursor calls) r =
      Calls-IsReadable calls (reconcile_due-IsReadable as_of limit cursor file r)
