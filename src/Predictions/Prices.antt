-- ===== src/Predictions/Prices.antt =====
-- hqa/predictions.py: the returns and the direction of a price pair, and the entry price of a
-- prediction (`_read_entry_price`, `_prepare_normalized`).
use hermes_quant_agent.Prelude.{
  ℕ, ◌-◌, List, [], ◌∷◌, false, Option, none, some, Text, text, ltb, leb, if◌then◌else◌,
}
use hermes_quant_agent.Prelude.Outcome.{Result, Done, ok, err, ◌>>=◌, ◌>>◌, refuse}
use hermes_quant_agent.Floats.{Float, float_one, divide, minus, less, opposite}
use hermes_quant_agent.Predictions.{
  LedgerError, prediction_entry_price_unavailable, prediction_history_contract_invalid, Normalized,
  EntryPrice, PriceRow, History, failed, contract_invalid, snapshot, Outside,
}
use hermes_quant_agent.Predictions.Values.{
  invalid, from_isoformat, date_before, utc_timestamp, completed_session_cutoff, finite_float,
}

-- `_outcome_direction`
unfoldable pub outcome_direction : Float → Float → Text
outcome_direction outcome_return flat_threshold_pct =
    if less flat_threshold_pct outcome_return
    then text "up"
    else if less outcome_return (opposite flat_threshold_pct)
    then text "down"
    else text "flat"

-- `price / base - 1.0`
unfoldable pub return_on : Float → Float → Float
return_on price base = minus (divide price base) float_one

-- `range_return_low` and `range_return_high`
unfoldable pub range_returns :
    Option (Float × Float) → Float → Result LedgerError (Option (Float × Float))
range_returns none close = ok none
range_returns (some (low, high)) close = do
  low ← finite_float false (return_on low close)
  high ← finite_float false (return_on high close)
  ok (some (low, high))

-- `rows[-1]`
unfoldable pub last_row : PriceRow → List PriceRow → PriceRow
last_row row [] = row
last_row row (next ∷ rows) = last_row next rows

unfoldable pub entry_price_of : History → Result LedgerError EntryPrice
entry_price_of failed = err prediction_entry_price_unavailable
entry_price_of contract_invalid = err prediction_history_contract_invalid
entry_price_of (snapshot row rows fetched_at payload_sha256) = do
  fetched_at ← utc_timestamp fetched_at
  ok (record {
    session_date = (last_row row rows).date;
    close = (last_row row rows).close;
    provider = text "futu";
    source = text "futu";
    interval = text "1d";
    adjustment = text "qfq";
    fetched_at = fetched_at;
    payload_sha256 = payload_sha256;
  })

-- What `_prepare_normalized` adds to a previewed request.
pub record Prepared : Type 0 where
  pub created_at : Text
  pub entry_price : EntryPrice
  pub returns : Option (Float × Float)

-- `_MAX_ENTRY_STALENESS_DAYS` is 7 and `_MAX_HORIZON_DAYS` is 489; an entry after the cutoff is not
-- stale, and the difference of an earlier horizon is never taken.
unfoldable pub check_horizon : ℕ → ℕ → Result LedgerError Done
check_horizon entry_date horizon_date =
    refuse (leb horizon_date entry_date) invalid
    >> refuse (ltb 489 (horizon_date - entry_date)) invalid

module _ (outside : Outside) where
  -- `_read_entry_price`
  unfoldable pub read_entry_price : Text → Text → Text → Result LedgerError EntryPrice
  read_entry_price symbol start end = entry_price_of (outside.run_history symbol start end)

  -- `_prepare_normalized`; `_ENTRY_LOOKBACK_DAYS` is 10
  unfoldable pub prepare_normalized : Text → Normalized → Result LedgerError Prepared
  prepare_normalized now normalized = do
    created_at ← utc_timestamp now
    cutoff ← completed_session_cutoff outside.market_day created_at
    cutoff_date ← from_isoformat cutoff
    start ← date_before cutoff_date 10
    entry_price ← read_entry_price normalized.symbol start cutoff
    entry_date ← from_isoformat entry_price.session_date
    refuse (ltb 7 (cutoff_date - entry_date)) prediction_entry_price_unavailable
    horizon_date ← from_isoformat normalized.horizon_date
    check_horizon entry_date horizon_date
    returns ← range_returns normalized.range entry_price.close
    ok (record { created_at = created_at; entry_price = entry_price; returns = returns })
