-- ===== src/Examples/LedgerComputing.antt =====
-- Names everything that the ledger of predictions computes with, for tests by evaluation.
use hermes_quant_agent.Prelude.{ℕ_discrete, text_eq, nat_eq, bool_eq, option_eq, take, drop}
use hermes_quant_agent.Prelude.Dict.{get, put}
use hermes_quant_agent.Prelude.Outcome.{◌>>=◌}
use hermes_quant_agent.Json.{escape, text_le, decimal, join_comma, decimal_from}
use hermes_quant_agent.Clock.{padded, month_day, date, timestamp}
use hermes_quant_agent.Patterns.{
  is_alnum, is_one_of, all_chars, is_name, is_hex, is_hex_of_length, safe_digest, strip_prefix,
  holds_of,
}
use hermes_quant_agent.Examples.Hash.{checksum}
use hermes_quant_agent.Floats.{
  is_negative, magnitude, opposite, is_finite, is_nan, rank, less, at_most, same, rounded, divide,
  times, minus, is_close,
}
use hermes_quant_agent.Texts.{
  is_space, strip_left, strip_right, strip, upper_char, upper, is_unicode, ascii_escape,
  ascii_quote,
}
use hermes_quant_agent.Dates.{
  is_digit, read_digits, read_char, is_leap, days_in_month, day_number, valid_date, read_date,
  whole, parse_date, read_time, read_seconds, or_keep, skip_fraction, shifted, read_zone,
  parse_timestamp,
}
use hermes_quant_agent.Predictions.Values.{
  strict_date, or_error, from_isoformat, date_after, date_before, after_dash, split_id, int_of,
  three_digits, render_id, prediction_id, timestamp_text, instant_of, utc_timestamp,
  completed_session_cutoff, day_prefix, finite_float, finite_number, normalized_text, text_field,
}
use hermes_quant_agent.Predictions.Request.{
  is_symbol, is_request_id, all_allowed, value_or, symbol_of, direction_of, date_field,
  request_id_of, confidence_of, threshold_of, bounds_of, range_of, normalize_request,
}
use hermes_quant_agent.Predictions.Intent.{
  json_object, float_or_null, intent_sha256, request_id_or_intent, preview_of, preview,
}
use hermes_quant_agent.Predictions.Prices.{
  outcome_direction, return_on, range_returns, last_row, entry_price_of, check_horizon,
  read_entry_price, prepare_normalized,
}
use hermes_quant_agent.Predictions.Validation.{
  text_less, text_min, request_of, is_canonical, canonical_timestamp, check_return, from_futu,
  validate_envelope, cutoff_day, validate_sessions, validate_entry, validate_created_event,
  range_hit_of, brier_of, score_id_of, resolution_end, validate_numbers, validate_evidence,
  validate_scored_event,
}
use hermes_quant_agent.Predictions.Ledger.{
  empty_ledger, as_corrupt, state_from_created, state_from_scored, sequence_of, require_state,
  on_created, on_scored, reduce_event, reduce_from, reduce, values, find_existing_request,
  sequence_in, sequence_on, maximum, last_sequence, next_id, created_before, insert_by, sorted_by,
  keep, since_of, read_states, list,
}
use hermes_quant_agent.Predictions.Creation.{
  created_event, append_created, create_or_find, create_locked, prepare, opened, kept,
  create_prepared, create_unless_found, seen_request, create_previewed, create,
}
use hermes_quant_agent.Predictions.Scoring.{
  first_row, rows_of, entry_row, no_outcome, evidence_of, read_rows, read_scoring_evidence,
  scored_event, score_current, score_locked, score_file, commit_score,
}
use hermes_quant_agent.Predictions.Reconcile.{
  split_bar, parse_cursor, pair_le, is_due, due_of, cursor_at, next_cursor, attempt_score, recover,
  score_one, add_row, score_then, score_all, select_due, is_unavailable, report_of,
  reconcile_selected, reconcile_due,
}
use hermes_quant_agent.Dates

unfoldable pub ledger_computing : Unit {0}
unfolding Dates.◌>>=◌ is_negative magnitude opposite is_finite is_nan rank less at_most same rounded
    divide times minus is_close is_space strip_left strip_right strip upper_char upper is_unicode
    ascii_escape ascii_quote is_digit read_digits read_char is_leap days_in_month day_number
    valid_date read_date whole parse_date read_time read_seconds or_keep skip_fraction shifted
    read_zone parse_timestamp strict_date or_error from_isoformat date_after date_before after_dash
    split_id int_of three_digits render_id prediction_id timestamp_text instant_of utc_timestamp
    completed_session_cutoff day_prefix finite_float finite_number normalized_text text_field
    is_symbol is_request_id all_allowed value_or symbol_of direction_of date_field request_id_of
    confidence_of threshold_of bounds_of range_of normalize_request json_object float_or_null
    intent_sha256 request_id_or_intent preview_of preview outcome_direction return_on range_returns
    last_row entry_price_of check_horizon read_entry_price prepare_normalized text_less text_min
    request_of is_canonical canonical_timestamp check_return from_futu validate_envelope cutoff_day
    validate_sessions validate_entry validate_created_event range_hit_of brier_of score_id_of
    resolution_end validate_numbers validate_evidence validate_scored_event empty_ledger as_corrupt
    state_from_created state_from_scored sequence_of require_state on_created on_scored reduce_event
    reduce_from reduce values find_existing_request sequence_in sequence_on maximum last_sequence
    next_id created_before insert_by sorted_by keep since_of read_states list created_event
    append_created create_or_find create_locked prepare opened kept create_prepared
    create_unless_found seen_request create_previewed create first_row rows_of entry_row no_outcome
    evidence_of read_rows read_scoring_evidence scored_event score_current score_locked score_file
    commit_score split_bar parse_cursor pair_le is_due due_of cursor_at next_cursor attempt_score
    recover score_one add_row score_then score_all select_due is_unavailable report_of
    reconcile_selected reconcile_due ℕ_discrete text_eq nat_eq bool_eq option_eq take drop get put
    ◌>>=◌ escape text_le decimal join_comma decimal_from padded month_day date timestamp is_alnum
    is_one_of all_chars is_name is_hex is_hex_of_length safe_digest strip_prefix holds_of checksum
ledger_computing = tt
