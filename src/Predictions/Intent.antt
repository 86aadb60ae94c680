-- ===== src/Predictions/Intent.antt =====
-- hqa/predictions.py: the digest of an intent, and `PredictionLedger.preview`.
use hermes_quant_agent.Prelude.{◌∷◌, [], ◌++◌, List, Option, none, some, Text, text, text_eq}
use hermes_quant_agent.Prelude.Dict.{Dict}
use hermes_quant_agent.Prelude.Outcome.{Result, ok, ◌>>=◌}
use hermes_quant_agent.Json.{join_comma}
use hermes_quant_agent.Texts.{ascii_quote}
use hermes_quant_agent.Floats.{Float}
use hermes_quant_agent.Predictions.{LedgerError, Value, Normalized, Outside}
use hermes_quant_agent.Predictions.Request.{normalize_request}

-- `{...}` of the members, whose keys stand in order
unfoldable pub json_object : List (Text × Text) → Text
json_object ms = b'{' ∷ (join_comma (rendered ms) ++ b'}' ∷ [])
  where
    rendered : List (Text × Text) → List Text
    rendered [] = []
    rendered ((key, value) ∷ rest) = (ascii_quote key ++ b':' ∷ value) ∷ rendered rest

abbrev pub low_of : Option (Float × Float) → Option Float
low_of none = none
low_of (some (low, high)) = some low

abbrev pub high_of : Option (Float × Float) → Option Float
high_of none = none
high_of (some (low, high)) = some high

-- What `preview` returns: the request, with the request id filled in, and the digest.
pub record Preview : Type 0 where
  pub request_id : Text
  pub intent_sha256 : Text
  pub prediction_request : Normalized

module _ (outside : Outside) where
  unfoldable pub float_or_null : Option Float → Text
  float_or_null none = text "null"
  float_or_null (some x) = outside.float_text x

  -- `_intent_sha256`: `_payload_sha256` of the request without its `request_id`
  unfoldable pub intent_sha256 : Normalized → Text
  intent_sha256 normalized = outside.sha256 (
      json_object (
        (text "confidence", outside.float_text normalized.confidence)
        ∷ (text "direction", ascii_quote normalized.direction)
        ∷ (text "falsifier", ascii_quote normalized.falsifier)
        ∷ (text "flat_threshold_pct", outside.float_text normalized.flat_threshold_pct)
        ∷ (text "horizon_date", ascii_quote normalized.horizon_date)
        ∷ (text "range_high", float_or_null (high_of normalized.range))
        ∷ (text "range_low", float_or_null (low_of normalized.range))
        ∷ (text "rationale", ascii_quote normalized.rationale)
        ∷ (text "subject", ascii_quote normalized.subject)
        ∷ (text "symbol", ascii_quote normalized.symbol)
        ∷ []))

  -- `normalized["request_id"] or f"intent:{intent_sha256}"`; an accepted id is not empty
  unfoldable pub request_id_or_intent : Option Text → Text → Text
  request_id_or_intent none digest = text "intent:" ++ digest
  request_id_or_intent (some request_id) digest = request_id

  unfoldable pub preview_of : Normalized → Preview
  preview_of normalized =
      let digest = intent_sha256 normalized in
      let request_id = request_id_or_intent normalized.request_id digest in
      record {
        request_id = request_id;
        intent_sha256 = digest;
        prediction_request = record normalized { request_id = some request_id };
      }

  -- `PredictionLedger.preview`
  unfoldable pub preview : Dict Text Value → Result LedgerError Preview
  preview request = do normalized ← normalize_request request; ok (preview_of normalized)
