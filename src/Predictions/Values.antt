-- ===== src/Predictions/Values.antt =====
-- hqa/predictions.py: dates, timestamps, prediction ids, numbers and texts.
use hermes_quant_agent.Prelude.{
  ℕ, ◌+◌, ◌-◌, ◌*◌, ◌/◌, ◌%◌, [], ◌∷◌, ◌++◌, Bool, true, false, not, ◌&&◌, ◌||◌, Option, none, some,
  Text, text_eq, length, take, drop, ltb, leb, nat_eq, ◌==◌, is_some, if◌then◌else◌,
}
use hermes_quant_agent.Prelude.Outcome.{Result, ok, err, ◌>>=◌, ◌>>◌, check, refuse}
use hermes_quant_agent.Json.{decimal}
use hermes_quant_agent.Clock
use hermes_quant_agent.Clock.{padded}
use hermes_quant_agent.Dates.{parse_date, parse_timestamp, is_digit}
use hermes_quant_agent.Patterns.{all_chars}
use hermes_quant_agent.Texts.{strip, is_unicode}
use hermes_quant_agent.Floats.{Float, float_zero, is_finite, less}
use hermes_quant_agent.Predictions.{
  LedgerError, prediction_invalid_request, overflow, Value, null, flag, number, string, composite,
}

-- `_invalid`
abbrev pub invalid : LedgerError
invalid = prediction_invalid_request

-- `_strict_date` of a text, which it returns as it is
unfoldable pub strict_date : Text → Result LedgerError Text
strict_date value = check (is_some (parse_date value)) invalid >> ok value

unfoldable pub or_error {ℓ} : {A : Type ℓ} → LedgerError → Option A → Result LedgerError A
or_error e none = err e
or_error e (some a) = ok a

-- `date.fromisoformat`
unfoldable pub from_isoformat : Text → Result LedgerError ℕ
from_isoformat value = or_error invalid (parse_date value)

-- `(day + timedelta(days=n)).isoformat()`
unfoldable pub date_after : ℕ → ℕ → Result LedgerError Text
date_after day n = if leb (day + n) 3652058 then ok (Clock.date (day + n)) else err overflow

-- `(day - timedelta(days=n)).isoformat()`
unfoldable pub date_before : ℕ → ℕ → Result LedgerError Text
date_before day n = if leb n day then ok (Clock.date (day - n)) else err overflow

unfoldable pub after_dash : Text → Text → Option (Text × Text)
after_dash day [] = none
after_dash day (c ∷ digits) = if c == b'-' then some (day, digits) else none

-- The day of ten characters and the digits after it.
unfoldable pub split_id : Text → Option (Text × Text)
split_id value = after_dash (take 10 value) (drop 10 value)

-- `int(digits)`
unfoldable pub int_of : ℕ → Text → ℕ
int_of acc [] = acc
int_of acc (c ∷ s) = int_of (acc * 10 + (c - b'0')) s

-- `f"{n:03d}"`
unfoldable pub three_digits : ℕ → Text
three_digits n = if ltb n 1000 then padded 3 n else decimal n

-- `f"{day}-{sequence:03d}"`
unfoldable pub render_id : Text → ℕ → Text
render_id day sequence = day ++ b'-' ∷ three_digits sequence

-- `_prediction_id`: `_ID_PATTERN` has 3 to 12 digits after the date
unfoldable pub prediction_id : Text → Result LedgerError (Text × ℕ)
prediction_id value = do
  (day, digits) ← or_error invalid (split_id value)
  check (all_chars is_digit digits && leb 3 (length digits) && leb (length digits) 12) invalid
  day ← strict_date day
  let sequence = int_of 0 digits
  refuse (ltb sequence 1 || not (digits == three_digits sequence)) invalid
  ok (day, sequence)

-- `strftime("%Y-%m-%dT%H:%M:%SZ")`
unfoldable pub timestamp_text : ℕ → Text
timestamp_text instant =
    let seconds = instant % 86400 in
    Clock.date (instant / 86400)
    ++ b'T'
      ∷ (padded 2 (seconds / 3600)
          ++ b':' ∷ (padded 2 (seconds / 60 % 60) ++ b':' ∷ (padded 2 (seconds % 60) ++ b'Z' ∷ [])))

-- The instant of `_parse_aware_timestamp(value).astimezone(timezone.utc)`.
unfoldable pub instant_of : Text → Result LedgerError ℕ
instant_of value = do parsed ← or_error invalid (parse_timestamp value); or_error invalid parsed

-- `_utc_timestamp`
unfoldable pub utc_timestamp : Text → Result LedgerError Text
utc_timestamp value = do instant ← instant_of value; ok (timestamp_text instant)

-- `_completed_session_cutoff`: the day before the day in New York
unfoldable pub completed_session_cutoff : (ℕ → ℕ) → Text → Result LedgerError Text
completed_session_cutoff market_day as_of = do
  instant ← instant_of as_of
  check (leb 1 (market_day instant)) invalid
  ok (Clock.date (market_day instant - 1))

-- `value[:10]`
unfoldable pub day_prefix : Text → Text
day_prefix value = take 10 value

-- `_finite_number` of a float
unfoldable pub finite_float : Bool → Float → Result LedgerError Float
finite_float positive x = check (is_finite x && (not positive || less float_zero x)) invalid >> ok x

-- `_finite_number`
unfoldable pub finite_number : Bool → Value → Result LedgerError Float
finite_number positive (number x) = finite_float positive x
finite_number positive null = err invalid
finite_number positive (flag b) = err invalid
finite_number positive (string s) = err invalid
finite_number positive composite = err invalid

-- What `_text` does with a text.
unfoldable pub normalized_text : Bool → ℕ → Text → Result LedgerError Text
normalized_text required max_length s =
    let normalized = strip s in
    refuse (required && normalized == []) invalid
    >> refuse (ltb max_length (length normalized)) invalid
    >> check (is_unicode normalized) invalid
    >> ok normalized

-- `_text`
unfoldable pub text_field : Bool → ℕ → Value → Result LedgerError Text
text_field required max_length (string s) = normalized_text required max_length s
text_field true max_length null = err invalid
text_field false max_length null = ok []
text_field required max_length (flag b) = err invalid
text_field required max_length (number x) = err invalid
text_field required max_length composite = err invalid
