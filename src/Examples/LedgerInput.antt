-- ===== src/Examples/LedgerInput.antt =====
-- A request for a prediction, and the prices and the clock of its run.
use hermes_quant_agent.Prelude.{
  ◌/◌, List, [], ◌∷◌, Bool, true, false, ◌≡◌, refl, none, Text, text, text_eq, ◌==◌, if◌then◌else◌,
}
use hermes_quant_agent.Prelude.Dict.{Dict}
use hermes_quant_agent.Prelude.Outcome.{Result, ok, err}
use hermes_quant_agent.Json.{decimal}
use hermes_quant_agent.Floats.{times}
use hermes_quant_agent.Predictions.{
  Value, number, string, EntryPrice, PriceRow, History, snapshot, Outside, PredictionState,
}
use hermes_quant_agent.Predictions.Creation.{Ran, create}
use hermes_quant_agent.Predictions.Reconcile.{Report, reconcile_due}
use hermes_quant_agent.Examples.Hash.{checksum}

-- 100.0 and 110.0
abbrev rows : List PriceRow
rows =
    record { date = text "2024-03-08"; close = 4636737291354636288 }
    ∷ record { date = text "2024-03-15"; close = 4637440978796412928 }
    ∷ []

abbrev session : PriceRow
session = record { date = text "2024-03-08"; close = 4636737291354636288 }

unfoldable pub history : Text → History
history end =
    if end == text "2024-03-09"
    then snapshot session [] (text "2024-03-10T11:00:00Z") (checksum [])
    else snapshot session (record { date = text "2024-03-15"; close = 4637440978796412928 } ∷ [])
        (text "2024-03-20T11:00:00Z") (checksum [])

-- The market's day is that of UTC.
unfoldable pub outside : Outside
unfolding history checksum
outside = record {
  run_history = λ symbol start end. history end;
  market_day = λ instant. instant / 86400;
  sha256 = checksum;
  square = λ x. times x x;
  float_text = decimal;
}

-- 0.6 as the confidence
abbrev pub request : Dict Text Value
request =
    (text "symbol", string (text " aapl"))
    ∷ (text "direction", string (text "up"))
    ∷ (text "horizon_date", string (text "2024-03-15"))
    ∷ (text "confidence", number 4603579539098121011)
    ∷ (text "falsifier", string (text "a miss"))
    ∷ []

unfoldable pub created : Ran PredictionState
created = create outside (text "2024-03-10T12:00:00Z") none none request

-- the call that scores it
unfoldable pub reconciled : Ran Report
unfolding created
reconciled = reconcile_due outside (text "2024-03-20T00:00:00Z") 5 none created.file

unfoldable pub is_ok {ℓ κ} : {E : Type κ} {A : Type ℓ} → Result E A → Bool
is_ok (ok a) = true
is_ok (err e) = false

unfoldable pub or_else {ℓ κ} : {E : Type κ} {A : Type ℓ} → A → Result E A → A
or_else d (ok a) = a
or_else d (err e) = d

pub ok-or_else {ℓ κ} :
    {E : Type κ} {A : Type ℓ} (d : A) (m : Result E A) → is_ok m ≡ true → m ≡ ok (or_else d m)
unfolding is_ok or_else
ok-or_else d (ok a) h = refl
ok-or_else d (err e) h = cc

unfoldable pub no_price : EntryPrice
no_price = record {
  session_date = [];
  close = 0;
  provider = [];
  source = [];
  interval = [];
  adjustment = [];
  fetched_at = [];
  payload_sha256 = [];
}

unfoldable pub no_state : PredictionState
unfolding no_price
no_state = record {
  created = record {
    schema_version = [];
    id = [];
    revision = 0;
    request_id = [];
    intent_sha256 = [];
    created_at = [];
    subject_kind = [];
    subject = [];
    symbol = [];
    direction = [];
    confidence = 0;
    horizon_date = [];
    flat_threshold_pct = 0;
    range_low = none;
    range_high = none;
    range_return_low = none;
    range_return_high = none;
    falsifier = [];
    rationale = [];
    market_timezone = [];
    outcome_session_policy = [];
    entry_price = no_price;
  };
  scored = none;
}

unfoldable pub no_report : Report
no_report = record {
  degraded = false;
  as_of = [];
  completed_session_cutoff = [];
  due_count = 0;
  processed_count = 0;
  remaining_due_count = 0;
  next_cursor = none;
  results = [];
}
