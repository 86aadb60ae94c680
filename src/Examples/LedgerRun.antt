-- ===== src/Examples/LedgerRun.antt =====
-- A prediction that is created and scored, and the theorems of the ledger at that run.
use hermes_quant_agent.Prelude.{List, [], true, ◌≡◌, refl, none, text, text_eq, length}
use hermes_quant_agent.Prelude.Outcome.{ok}
use hermes_quant_agent.Prelude.Ensures.{Ensures}
use hermes_quant_agent.Predictions.{Normalized, LedgerEvent, PredictionState}
use hermes_quant_agent.Predictions.Values.{prediction_id}
use hermes_quant_agent.Predictions.Intent.{Preview, preview}
use hermes_quant_agent.Predictions.Prices.{Prepared}
use hermes_quant_agent.Predictions.Ledger.{Reduced, empty_ledger, reduce, reduce_from}
use hermes_quant_agent.Predictions.Creation.{opened, create_locked, prepare, create}
use hermes_quant_agent.Predictions.Reconcile.{Report}
use hermes_quant_agent.Predictions.Retries.{create-retry}
use hermes_quant_agent.Predictions.Numbering.{IsNumber, prediction_id-IsNumber}
use hermes_quant_agent.Predictions.Consistent.{IsConsistent, reduce-IsConsistent}
use hermes_quant_agent.Predictions.Appends.{IsKept, create_locked-IsKept}
use hermes_quant_agent.Predictions.Readable.{Calls, Calls-IsReadable}
use hermes_quant_agent.Predictions.Writes.{CanRead, IsReadable}
use hermes_quant_agent.Predictions.Windows.{AllTimely, reduce-AllTimely}
use hermes_quant_agent.Predictions.Growth.{Extends, reduce_from-Extends}
use hermes_quant_agent.Predictions.Batches.{Counts, reconcile_due-Counts}
use hermes_quant_agent.Examples.LedgerComputing.{ledger_computing}
use hermes_quant_agent.Examples.LedgerInput.{
  history, outside, request, created, reconciled, is_ok, or_else, ok-or_else, no_price, no_state,
  no_report,
}

created-is_ok : is_ok created.outcome ≡ true
unfolding is_ok created outside history ledger_computing
created-is_ok = refl

first : PredictionState
first = or_else no_state created.outcome

created-ok : created.outcome ≡ ok first
unfolding first
created-ok = ok-or_else no_state created.outcome created-is_ok

create-retry_example :
    create outside (text "2024-03-11T12:00:00Z") created.file created.file request
    ≡ record { outcome = ok first; file = created.file }
unfolding created
create-retry_example =
    create-retry outside (text "2024-03-10T12:00:00Z") (text "2024-03-11T12:00:00Z") none request
      {x = first} created-ok

-- The prediction is scored.
score-runs : (or_else no_report reconciled.outcome).remaining_due_count ≡ 0
unfolding is_ok or_else no_report no_state no_price reconciled created outside history
    ledger_computing
score-runs = refl

reconciled-is_ok : is_ok reconciled.outcome ≡ true
unfolding is_ok reconciled created outside history ledger_computing
reconciled-is_ok = refl

report : Report
report = or_else no_report reconciled.outcome

reconciled-ok : reconciled.outcome ≡ ok report
unfolding report
reconciled-ok = ok-or_else no_report reconciled.outcome reconciled-is_ok

reconcile_due-Counts_example : Counts outside 5 report
unfolding reconciled
reconcile_due-Counts_example =
    reconcile_due-Counts outside (text "2024-03-20T00:00:00Z") 5 none created.file {report = report}
      reconciled-ok

no_file-IsReadable : IsReadable outside none
unfolding IsReadable CanRead opened reduce reduce_from
no_file-IsReadable = (empty_ledger, refl)

both_calls : Calls outside none reconciled.file
unfolding reconciled created
both_calls =
    Calls.created (text "2024-03-10T12:00:00Z") none request
      (Calls.reconciled (text "2024-03-20T00:00:00Z") 5 none Calls.none_yet)

Calls-IsReadable_example : IsReadable outside reconciled.file
Calls-IsReadable_example = Calls-IsReadable outside both_calls no_file-IsReadable

events : List LedgerEvent
events = opened reconciled.file

two-events : length events ≡ 2
unfolding events reconciled created outside history ledger_computing
two-events = refl

reduced-is_ok : is_ok (reduce outside events) ≡ true
unfolding is_ok events reconciled created outside history ledger_computing
reduced-is_ok = refl

ledger : Reduced
ledger = or_else empty_ledger (reduce outside events)

reduced-ok : reduce outside events ≡ ok ledger
unfolding ledger
reduced-ok = ok-or_else empty_ledger (reduce outside events) reduced-is_ok

reduce-IsConsistent_example : IsConsistent ledger
reduce-IsConsistent_example = reduce-IsConsistent outside events {ledger = ledger} reduced-ok

reduce-AllTimely_example : AllTimely outside ledger.states
reduce-AllTimely_example = reduce-AllTimely outside events {ledger = ledger} reduced-ok

reduce_from-Extends_example :
    Ensures
      (λ (after : Reduced). Extends empty_ledger.states after.states)
      (reduce_from outside empty_ledger events)
reduce_from-Extends_example = reduce_from-Extends outside events empty_ledger

prediction_id-IsNumber_example :
    Ensures (IsNumber (text "2024-03-10-001")) (prediction_id (text "2024-03-10-001"))
prediction_id-IsNumber_example = prediction_id-IsNumber (text "2024-03-10-001")

-- the previewed request and what is prepared for it
no_normalized : Normalized
no_normalized = record {
  symbol = [];
  subject = [];
  direction = [];
  horizon_date = [];
  confidence = 0;
  range = none;
  flat_threshold_pct = 0;
  falsifier = [];
  rationale = [];
  request_id = none;
}

previewed : Preview
unfolding no_normalized
previewed =
    or_else (record { request_id = []; intent_sha256 = []; prediction_request = no_normalized })
      (preview outside request)

prepared : Prepared
unfolding no_price
prepared =
    or_else (record { created_at = []; entry_price = no_price; returns = none })
      (prepare outside (text "2024-03-10T12:00:00Z") request)

create_locked-IsKept_example :
    Ensures (IsKept outside previewed) (create_locked outside previewed prepared [])
create_locked-IsKept_example = create_locked-IsKept outside previewed prepared []
