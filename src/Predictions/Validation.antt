-- ===== src/Predictions/Validation.antt =====
-- hqa/predictions.py: `_validate_created_event` and `_validate_scored_event`. The fields of an event
-- are those of its record, so only their values are checked.
use hermes_quant_agent.Prelude.{
  ℕ, ◌-◌, ◌++◌, [], ◌∷◌, Bool, true, false, not, ◌&&◌, Option, none, some, Text, text, text_eq,
  nat_eq, bool_eq, option_eq, ltb, ◌==◌, is_none, if◌then◌else◌,
}
use hermes_quant_agent.Prelude.Dict.{Dict}
use hermes_quant_agent.Prelude.Outcome.{Result, Done, err, ◌>>=◌, ◌>>◌, check, refuse}
use hermes_quant_agent.Json.{text_le}
use hermes_quant_agent.Patterns.{safe_digest}
use hermes_quant_agent.Floats.{Float, float_zero, float_one, same, at_most, minus, is_close}
use hermes_quant_agent.Predictions.{
  LedgerError, Value, null, number, string, Normalized, EntryPrice, Created, PriceEvidence, Scored,
  Outside,
}
use hermes_quant_agent.Predictions.Values.{
  invalid, strict_date, from_isoformat, date_after, prediction_id, utc_timestamp,
  completed_session_cutoff, day_prefix, finite_float,
}
use hermes_quant_agent.Predictions.Request.{
  market_timezone, schema_version, is_request_id, normalize_request,
}
use hermes_quant_agent.Predictions.Intent.{intent_sha256, low_of, high_of}
use hermes_quant_agent.Predictions.Prices.{outcome_direction, return_on, check_horizon}

abbrev pub session_policy : Text
session_policy = text "first_observed_session_on_or_after_horizon"

-- 1e-12
abbrev tolerance : Float
tolerance = 4427486594234968593

-- `s < t` for texts
unfoldable pub text_less : Text → Text → Bool
text_less s t = not (text_le t s)

-- `min(s, t)`
unfoldable pub text_min : Text → Text → Text
text_min s t = if text_less t s then t else s

abbrev optional_number : Option Float → Value
optional_number none = null
optional_number (some x) = number x

abbrev same_optional : Option Float → Option Float → Bool
same_optional none none = true
same_optional none (some y) = false
same_optional (some x) none = false
same_optional (some x) (some y) = same x y

-- The request that `_validate_created_event` makes of an event.
unfoldable pub request_of : Created → Dict Text Value
request_of event =
    (text "symbol", string event.symbol)
    ∷ (text "subject", string event.subject)
    ∷ (text "direction", string event.direction)
    ∷ (text "horizon_date", string event.horizon_date)
    ∷ (text "confidence", number event.confidence)
    ∷ (text "range_low", optional_number event.range_low)
    ∷ (text "range_high", optional_number event.range_high)
    ∷ (text "flat_threshold_pct", number event.flat_threshold_pct)
    ∷ (text "falsifier", string event.falsifier)
    ∷ (text "rationale", string event.rationale)
    ∷ (text "request_id", string event.request_id)
    ∷ []

-- Each field is what the normalization makes of it.
unfoldable pub is_canonical : Created → Normalized → Bool
is_canonical event normalized =
    event.symbol == normalized.symbol
    && event.subject == normalized.subject
    && event.direction == normalized.direction
    && event.horizon_date == normalized.horizon_date
    && same event.confidence normalized.confidence
    && same_optional event.range_low (low_of normalized.range)
    && same_optional event.range_high (high_of normalized.range)
    && same event.flat_threshold_pct normalized.flat_threshold_pct
    && event.falsifier == normalized.falsifier
    && event.rationale == normalized.rationale
    && some event.request_id == normalized.request_id

-- A text that `_utc_timestamp` leaves as it is.
unfoldable pub canonical_timestamp : Text → Result LedgerError Done
canonical_timestamp value = do canonical ← utc_timestamp value; check (value == canonical) invalid

-- `range_return_low` or `range_return_high` against the bound that it belongs to
unfoldable pub check_return : Option Float → Option Float → Float → Result LedgerError Done
check_return actual none close = check (is_none actual) invalid
check_return none (some bound) close = err invalid
check_return (some actual) (some bound) close = do
  actual ← finite_float false actual
  check (is_close tolerance actual (return_on bound close)) invalid

unfoldable pub from_futu : Text → Text → Text → Text → Bool
from_futu provider source interval adjustment =
    provider == text "futu"
    && source == text "futu"
    && interval == text "1d"
    && adjustment == text "qfq"

unfoldable pub validate_envelope : Created → Result LedgerError Done
validate_envelope event = do
  check (event.schema_version == schema_version && event.revision == 1) invalid
  check (is_request_id event.request_id) invalid
  check (safe_digest event.intent_sha256) invalid
  canonical_timestamp event.created_at
  (id_day, _) ← prediction_id event.id
  check (id_day == day_prefix event.created_at) invalid
  check (event.subject_kind == text "us_equity") invalid

-- `_completed_session_cutoff`, read as a day
unfoldable pub cutoff_day : (ℕ → ℕ) → Text → Result LedgerError ℕ
cutoff_day market_day as_of = do
  cutoff ← completed_session_cutoff market_day as_of
  from_isoformat cutoff

unfoldable pub validate_sessions : (ℕ → ℕ) → EntryPrice → Text → Text → Result LedgerError Done
validate_sessions market_day evidence horizon created_at = do
  entry_date ← from_isoformat evidence.session_date
  horizon_date ← from_isoformat horizon
  cutoff_date ← cutoff_day market_day created_at
  refuse (ltb cutoff_date entry_date) invalid
  refuse (ltb 7 (cutoff_date - entry_date)) invalid
  check_horizon entry_date horizon_date

unfoldable pub validate_entry : (ℕ → ℕ) → Created → Normalized → Result LedgerError Done
validate_entry market_day event normalized = do
  let evidence = event.entry_price
  session_date ← strict_date evidence.session_date
  entry_close ← finite_float true evidence.close
  validate_sessions market_day evidence normalized.horizon_date event.created_at
  check_return event.range_return_low (low_of normalized.range) entry_close
  check_return event.range_return_high (high_of normalized.range) entry_close
  check (from_futu evidence.provider evidence.source evidence.interval evidence.adjustment) invalid
  canonical_timestamp evidence.fetched_at
  check (safe_digest evidence.payload_sha256) invalid

-- `_validate_created_event`
unfoldable pub validate_created_event : Outside → Created → Result LedgerError Done
validate_created_event outside event = do
  validate_envelope event
  normalized ← normalize_request (request_of event)
  check (is_canonical event normalized) invalid
  check (intent_sha256 outside normalized == event.intent_sha256) invalid
  check (event.market_timezone == market_timezone) invalid
  check (event.outcome_session_policy == session_policy) invalid
  validate_entry outside.market_day event normalized

-- `state["range_return_low"] <= outcome_return <= state["range_return_high"]`, or `None` without a
-- range; the bounds of a validated state are both there or both missing
unfoldable pub range_hit_of : Created → Float → Option Bool
range_hit_of created outcome_return = elim created.range_return_low [
  | none ↦ none
  | some low ↦ elim created.range_return_high [
    | none ↦ some false
    | some high ↦ some (at_most low outcome_return && at_most outcome_return high)
  ]
]

-- `(state["confidence"] - int(correct)) ** 2`
unfoldable pub brier_of : Outside → Float → Bool → Float
brier_of outside confidence correct =
    outside.square (minus confidence (if correct then float_one else float_zero))

-- `f"{id}@{outcome_date}:futu:qfq"`
unfoldable pub score_id_of : Text → Text → Text
score_id_of id outcome_date = id ++ b'@' ∷ (outcome_date ++ text ":futu:qfq")

-- The last day that may hold the outcome: `_MAX_OUTCOME_RESOLUTION_DAYS` is 10.
unfoldable pub resolution_end : Text → Result LedgerError Text
resolution_end horizon = do horizon_date ← from_isoformat horizon; date_after horizon_date 10

-- The numbers of a score against the prices and the forecast.
unfoldable pub validate_numbers : Outside → Scored → Created → Result LedgerError Done
validate_numbers outside event created = do
  scoring_entry ← finite_float true event.scoring_entry_close
  outcome_close ← finite_float true event.outcome_close
  outcome_return ← finite_float false event.outcome_return
  check (is_close tolerance outcome_return (return_on outcome_close scoring_entry)) invalid
  let expected = outcome_direction outcome_return created.flat_threshold_pct
  check (event.outcome_direction == expected) invalid
  let correct = expected == created.direction
  check (event.direction_correct == correct) invalid
  brier ← finite_float false event.direction_brier
  check (is_close tolerance brier (brier_of outside created.confidence correct)) invalid
  check (event.range_hit == range_hit_of created outcome_return) invalid

unfoldable pub validate_evidence :
    PriceEvidence → Created → Text → Text → Text → Result LedgerError Done
validate_evidence evidence created outcome_date cutoff last_day = do
  check (from_futu evidence.provider evidence.source evidence.interval evidence.adjustment) invalid
  canonical_timestamp evidence.fetched_at
  check (safe_digest evidence.payload_sha256) invalid
  start ← strict_date evidence.start
  check (start == created.entry_price.session_date) invalid
  evidence_end ← strict_date evidence.end
  refuse (text_less evidence_end outcome_date) invalid
  check (evidence_end == text_min cutoff last_day) invalid

-- `_validate_scored_event`
unfoldable pub validate_scored_event : Outside → Scored → Created → Result LedgerError Done
validate_scored_event outside event created = do
  check (event.schema_version == schema_version && event.revision == 2 && event.id == created.id)
      invalid
  (_, _) ← prediction_id event.id
  canonical_timestamp event.scored_at
  check (text_less created.created_at event.scored_at) invalid
  outcome_date ← strict_date event.outcome_session_date
  refuse (text_less outcome_date created.horizon_date) invalid
  cutoff ← completed_session_cutoff outside.market_day event.scored_at
  refuse (text_less cutoff outcome_date) invalid
  last_day ← resolution_end created.horizon_date
  refuse (text_less last_day outcome_date) invalid
  validate_numbers outside event created
  check (event.score_id == score_id_of created.id outcome_date) invalid
  validate_evidence event.price_evidence created outcome_date cutoff last_day
