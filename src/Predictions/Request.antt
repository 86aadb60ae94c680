-- ===== src/Predictions/Request.antt =====
-- hqa/predictions.py: `_normalize_request`.
use hermes_quant_agent.Prelude.{
  List, [], ◌∷◌, Bool, true, false, not, ◌&&◌, ◌||◌, Option, none, some, Text, text, text_eq, leb,
  length, contains, is_some, if◌then◌else◌,
}
use hermes_quant_agent.Prelude.Dict.{Dict, get}
use hermes_quant_agent.Prelude.Outcome.{Result, ok, err, ◌>>=◌, ◌>>◌, check, refuse}
use hermes_quant_agent.Patterns.{all_chars, is_name, strip_prefix}
use hermes_quant_agent.Texts.{strip, upper}
use hermes_quant_agent.Floats.{Float, float_zero, float_one, less, at_most}
use hermes_quant_agent.Predictions.{
  LedgerError, Value, null, flag, number, string, composite, Normalized,
}
use hermes_quant_agent.Predictions.Values.{invalid, strict_date, finite_number, text_field}

-- `_MARKET_TIMEZONE` and `_SCHEMA_VERSION`
abbrev pub market_timezone : Text
market_timezone = text "America/New_York"

abbrev pub schema_version : Text
schema_version = text "1.0"

-- 0.005
abbrev default_flat_threshold : Float
default_flat_threshold = 4572414629676717179

-- `_SYMBOL_PATTERN`: `[A-Z][A-Z0-9.-]{0,15}`
unfoldable pub is_symbol : Text → Bool
is_symbol [] = false
is_symbol (c ∷ s) =
    leb b'A' c
    && leb c b'Z'
    && all_chars
        (λ d. leb b'A' d && leb d b'Z' || leb b'-' d && leb d b'.' || leb b'0' d && leb d b'9') s
    && leb (length s) 15

-- `_REQUEST_ID_PATTERN`: `[A-Za-z0-9][A-Za-z0-9._:/-]{0,199}`
unfoldable pub is_request_id : Text → Bool
is_request_id = is_name (text "._:/-") 199

abbrev allowed_directions : List Text
allowed_directions = text "up" ∷ text "down" ∷ text "flat" ∷ []

abbrev allowed_fields : List Text
allowed_fields =
    text "symbol"
    ∷ text "subject"
    ∷ text "direction"
    ∷ text "horizon_date"
    ∷ text "confidence"
    ∷ text "range_low"
    ∷ text "range_high"
    ∷ text "flat_threshold_pct"
    ∷ text "falsifier"
    ∷ text "rationale"
    ∷ text "request_id"
    ∷ []

unfoldable pub all_allowed : Dict Text Value → Bool
all_allowed [] = true
all_allowed ((key, _) ∷ rest) = contains key allowed_fields && all_allowed rest

-- `request.get(key, default)`
unfoldable pub value_or : Value → Text → Dict Text Value → Value
value_or default key request = elim (get key request) [ none ↦ default | some value ↦ value ]

unfoldable pub symbol_of : Value → Result LedgerError Text
symbol_of (string raw) =
    let symbol = upper (strip raw) in
    check (is_symbol symbol && not (is_some (strip_prefix (text "US.") symbol))) invalid
    >> ok symbol
symbol_of null = err invalid
symbol_of (flag b) = err invalid
symbol_of (number x) = err invalid
symbol_of composite = err invalid

unfoldable pub direction_of : Value → Result LedgerError Text
direction_of (string direction) =
    check (contains direction allowed_directions) invalid >> ok direction
direction_of null = err invalid
direction_of (flag b) = err invalid
direction_of (number x) = err invalid
direction_of composite = err invalid

-- `_strict_date` of a value
unfoldable pub date_field : Value → Result LedgerError Text
date_field (string s) = strict_date s
date_field null = err invalid
date_field (flag b) = err invalid
date_field (number x) = err invalid
date_field composite = err invalid

unfoldable pub request_id_of : Value → Result LedgerError (Option Text)
request_id_of null = ok none
request_id_of (string s) = check (is_request_id s) invalid >> ok (some s)
request_id_of (flag b) = err invalid
request_id_of (number x) = err invalid
request_id_of composite = err invalid

unfoldable pub confidence_of : Value → Result LedgerError Float
confidence_of value = do
  confidence ← finite_number false value
  refuse (less confidence float_zero || less float_one confidence) invalid
  ok confidence

unfoldable pub threshold_of : Value → Result LedgerError Float
threshold_of value = do
  threshold ← finite_number true value
  refuse (at_most float_one threshold) invalid
  ok threshold

abbrev is_null : Value → Bool
is_null null = true
is_null (flag b) = false
is_null (number x) = false
is_null (string s) = false
is_null composite = false

-- the two bounds, after it is known that both are there
unfoldable pub bounds_of : Value → Value → Result LedgerError (Option (Float × Float))
bounds_of low high = do
  low ← finite_number true low
  high ← finite_number true high
  refuse (at_most high low) invalid
  ok (some (low, high))

unfoldable pub range_of : Value → Value → Result LedgerError (Option (Float × Float))
range_of low high =
    let both = bounds_of low high in
    if is_null low
    then (if is_null high then ok none else err invalid)
    else if is_null high
    then err invalid
    else both

-- `_normalize_request`
unfoldable pub normalize_request : Dict Text Value → Result LedgerError Normalized
normalize_request request = do
  check (all_allowed request) invalid
  symbol ← symbol_of (value_or null (text "symbol") request)
  direction ← direction_of (value_or null (text "direction") request)
  confidence ← confidence_of (value_or null (text "confidence") request)
  flat_threshold_pct ←
      threshold_of (value_or (number default_flat_threshold) (text "flat_threshold_pct") request)
  range ←
      range_of (value_or null (text "range_low") request)
        (value_or null (text "range_high") request)
  request_id ← request_id_of (value_or null (text "request_id") request)
  subject ← text_field true 200 (value_or (string symbol) (text "subject") request)
  horizon_date ← date_field (value_or null (text "horizon_date") request)
  falsifier ← text_field true 1000 (value_or null (text "falsifier") request)
  rationale ← text_field false 4000 (value_or (string []) (text "rationale") request)
  ok (record {
    symbol = symbol;
    subject = subject;
    direction = direction;
    horizon_date = horizon_date;
    confidence = confidence;
    range = range;
    flat_threshold_pct = flat_threshold_pct;
    falsifier = falsifier;
    rationale = rationale;
    request_id = request_id;
  })
