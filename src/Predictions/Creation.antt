-- ===== src/Predictions/Creation.antt =====
-- hqa/predictions.py: `PredictionLedger.prepare` and `create`. Another process may append between the
-- first reading of the file and the lock, so the two readings are two arguments.
use hermes_quant_agent.Prelude.{List, [], ◌∷◌, ◌++◌, Option, none, some, Text, text, text_eq}
use hermes_quant_agent.Prelude.Dict.{Dict}
use hermes_quant_agent.Prelude.Outcome.{Result, ok, err, ◌>>=◌, ◌>>◌}
use hermes_quant_agent.Predictions.{
  LedgerError, Value, Created, LedgerEvent, prediction_created, Outside, PredictionState,
}
use hermes_quant_agent.Predictions.Values.{day_prefix}
use hermes_quant_agent.Predictions.Request.{market_timezone, schema_version}
use hermes_quant_agent.Predictions.Intent.{low_of, high_of, Preview, preview}
use hermes_quant_agent.Predictions.Prices.{Prepared, prepare_normalized}
use hermes_quant_agent.Predictions.Validation.{session_policy, validate_created_event}
use hermes_quant_agent.Predictions.Ledger.{
  Reduced, reduce, values, find_existing_request, next_id, list, state_from_created,
}

-- The event that `create` appends.
unfoldable pub created_event : Text → Preview → Prepared → Created
created_event id preview prepared =
    let request = preview.prediction_request in
    record {
      schema_version = schema_version;
      id = id;
      revision = 1;
      request_id = preview.request_id;
      intent_sha256 = preview.intent_sha256;
      created_at = prepared.created_at;
      subject_kind = text "us_equity";
      subject = request.subject;
      symbol = request.symbol;
      direction = request.direction;
      confidence = request.confidence;
      horizon_date = request.horizon_date;
      flat_threshold_pct = request.flat_threshold_pct;
      range_low = low_of request.range;
      range_high = high_of request.range;
      range_return_low = low_of prepared.returns;
      range_return_high = high_of prepared.returns;
      falsifier = request.falsifier;
      rationale = request.rationale;
      market_timezone = market_timezone;
      outcome_session_policy = session_policy;
      entry_price = prepared.entry_price;
    }

-- What a call returns, and the events of the file after it.
pub record Written (A : Type 0) : Type 0 where
  pub result : A
  pub events : List LedgerEvent

-- What a call returns or raises, and the file after it; `none` is a file that does not exist.
pub record Ran (A : Type 0) : Type 0 where
  pub outcome : Result LedgerError A
  pub file : Option (List LedgerEvent)

unfoldable pub append_created :
    Outside → Created → List LedgerEvent → Result LedgerError (Written PredictionState)
append_created outside event events = do
  validate_created_event outside event
  ok (record {
    result = state_from_created event;
    events = events ++ prediction_created event ∷ [];
  })

unfoldable pub create_or_find :
    Outside
    → Preview
    → Prepared
    → List LedgerEvent
    → Reduced
    → Option PredictionState
    → Result LedgerError (Written PredictionState)
create_or_find outside preview prepared events ledger (some existing) =
    ok (record { result = existing; events = events })
create_or_find outside preview prepared events ledger none =
    let id = next_id ledger.states (day_prefix prepared.created_at) in
    append_created outside (created_event id preview prepared) events

-- The body of `create` under the exclusive lock.
unfoldable pub create_locked :
    Outside → Preview → Prepared → List LedgerEvent → Result LedgerError (Written PredictionState)
create_locked outside preview prepared events = do
  ledger ← reduce outside events
  existing ← find_existing_request preview.request_id preview.intent_sha256 (values ledger.states)
  create_or_find outside preview prepared events ledger existing

-- `PredictionLedger.prepare`
unfoldable pub prepare : Outside → Text → Dict Text Value → Result LedgerError Prepared
prepare outside now request = do
  previewed ← preview outside request
  prepare_normalized outside now previewed.prediction_request

-- The events of the file that `_locked(create=True)` opens.
unfoldable pub opened : Option (List LedgerEvent) → List LedgerEvent
opened none = []
opened (some events) = events

-- On an error the file has been opened, and stays as it was then.
unfoldable pub kept : {A : Type 0} → List LedgerEvent → Result LedgerError (Written A) → Ran A
kept events (err e) = record { outcome = err e; file = some events }
kept events (ok written) = record { outcome = ok written.result; file = some written.events }

unfoldable pub create_prepared :
    Outside
    → Preview
    → Option (List LedgerEvent)
    → Result LedgerError Prepared
    → Ran PredictionState
create_prepared outside preview file (err e) = record { outcome = err e; file = file }
create_prepared outside preview file (ok prepared) =
    kept (opened file) (create_locked outside preview prepared (opened file))

unfoldable pub create_unless_found :
    Outside
    → Text
    → Preview
    → Option (List LedgerEvent)
    → Result LedgerError (Option PredictionState)
    → Ran PredictionState
create_unless_found outside now preview file (err e) = record { outcome = err e; file = file }
create_unless_found outside now preview file (ok (some existing)) = record {
  outcome = ok existing;
  file = file;
}
create_unless_found outside now preview file (ok none) =
    create_prepared outside preview file (prepare_normalized outside now preview.prediction_request)

-- The first search of `create`, in the file as it is read before the lock.
unfoldable pub seen_request :
    Outside → Preview → Option (List LedgerEvent) → Result LedgerError (Option PredictionState)
seen_request outside preview seen = do
  rows ← list outside none none seen
  find_existing_request preview.request_id preview.intent_sha256 rows

unfoldable pub create_previewed :
    Outside
    → Text
    → Option (List LedgerEvent)
    → Option (List LedgerEvent)
    → Result LedgerError Preview
    → Ran PredictionState
create_previewed outside now seen file (err e) = record { outcome = err e; file = file }
create_previewed outside now seen file (ok preview) =
    create_unless_found outside now preview file (seen_request outside preview seen)

-- `PredictionLedger.create`: `seen` is the file at the first reading, `file` the one under the lock
unfoldable pub create :
    Outside
    → Text
    → Option (List LedgerEvent)
    → Option (List LedgerEvent)
    → Dict Text Value
    → Ran PredictionState
create outside now seen file request =
    create_previewed outside now seen file (preview outside request)
