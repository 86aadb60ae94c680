-- ===== src/Predictions.antt =====
-- hqa/predictions.py: the ledger of predictions. A prediction is created with the entry price of its
-- symbol and is scored once, after its horizon; both are events that are appended to one file.
pub mod Values
pub mod Request
pub mod Intent
pub mod Prices
pub mod Validation
pub mod Ledger
pub mod Creation
pub mod Scoring
pub mod Reconcile
pub mod Numbering
pub mod Consistent
pub mod Appends
pub mod Retries
pub mod Writes
pub mod Readable
pub mod Windows
pub mod Growth
pub mod Batches
use hermes_quant_agent.Prelude.{ℕ, List, Bool, Option, Text}
use hermes_quant_agent.Floats.{Float}

-- The codes of `PredictionLedgerError`; `overflow` is Python's own `OverflowError`, for a date
-- outside the calendar.
pub data LedgerError : Type 0 where
  prediction_invalid_request prediction_ledger_corrupt prediction_idempotency_conflict : LedgerError
  prediction_ledger_io_error prediction_entry_price_unavailable : LedgerError
  prediction_history_contract_invalid prediction_history_unavailable : LedgerError
  prediction_entry_session_missing prediction_outcome_session_unavailable : LedgerError
  prediction_scoring_evidence_invalid overflow : LedgerError

-- A value of a request: what `json.loads` may give for a field. An integer stands as the float
-- that it converts to, and as infinity if it has none.
pub data Value : Type 0 where
  null : Value
  flag : Bool → Value
  number : Float → Value
  string : Text → Value
  composite : Value

-- What `_normalize_request` returns.
pub record Normalized : Type 0 where
  pub symbol : Text
  pub subject : Text
  pub direction : Text
  pub horizon_date : Text
  pub confidence : Float
  -- `range_low` and `range_high`, which are supplied together
  pub range : Option (Float × Float)
  pub flat_threshold_pct : Float
  pub falsifier : Text
  pub rationale : Text
  pub request_id : Option Text

-- `entry_price`
pub record EntryPrice : Type 0 where
  pub session_date : Text
  pub close : Float
  pub provider : Text
  pub source : Text
  pub interval : Text
  pub adjustment : Text
  pub fetched_at : Text
  pub payload_sha256 : Text

-- The event `prediction_created`.
pub record Created : Type 0 where
  pub schema_version : Text
  pub id : Text
  pub revision : ℕ
  pub request_id : Text
  pub intent_sha256 : Text
  pub created_at : Text
  pub subject_kind : Text
  pub subject : Text
  pub symbol : Text
  pub direction : Text
  pub confidence : Float
  pub horizon_date : Text
  pub flat_threshold_pct : Float
  pub range_low : Option Float
  pub range_high : Option Float
  pub range_return_low : Option Float
  pub range_return_high : Option Float
  pub falsifier : Text
  pub rationale : Text
  pub market_timezone : Text
  pub outcome_session_policy : Text
  pub entry_price : EntryPrice

-- `price_evidence`
pub record PriceEvidence : Type 0 where
  pub provider : Text
  pub source : Text
  pub interval : Text
  pub adjustment : Text
  pub fetched_at : Text
  pub payload_sha256 : Text
  pub start : Text
  pub end : Text

-- The event `prediction_scored`.
pub record Scored : Type 0 where
  pub schema_version : Text
  pub id : Text
  pub revision : ℕ
  pub score_id : Text
  pub scored_at : Text
  pub scoring_entry_close : Float
  pub outcome_session_date : Text
  pub outcome_close : Float
  pub outcome_return : Float
  pub outcome_direction : Text
  pub direction_correct : Bool
  pub direction_brier : Float
  pub range_hit : Option Bool
  pub price_evidence : PriceEvidence

-- A line of the file; `unknown` is an object of another type or shape.
pub data LedgerEvent : Type 0 where
  prediction_created : Created → LedgerEvent
  prediction_scored : Scored → LedgerEvent
  unknown : LedgerEvent

-- A row of a price history.
pub record PriceRow : Type 0 where
  pub date : Text
  pub close : Float

-- What the price command and `historical_risk.parse_price_snapshot` make of a request. A snapshot
-- has a row.
pub data History : Type 0 where
  failed contract_invalid : History
  snapshot : PriceRow → List PriceRow → Text → Text → History

-- What the ledger takes from outside the file: the price command, the timezone database, the hash
-- and the C library's `pow(x, 2)`, and how Python writes a float.
pub record Outside : Type 0 where
  pub run_history : Text → Text → Text → History
  pub market_day : ℕ → ℕ
  pub sha256 : Text → Text
  pub square : Float → Float
  pub float_text : Float → Text

-- An entry of the reduced ledger: `_state_from_created` until it is scored, and then
-- `_state_from_scored`.
pub record PredictionState : Type 0 where
  pub created : Created
  pub scored : Option Scored
