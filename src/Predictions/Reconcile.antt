-- ===== src/Predictions/Reconcile.antt =====
-- hqa/predictions.py: `_parse_cursor` and `PredictionLedger.reconcile_due`. The calls of one run are not
-- interleaved with those of another process.
use hermes_quant_agent.Prelude.{
  ℕ, List, [], ◌∷◌, ◌++◌, Bool, true, false, not, ◌&&◌, Option, none, some, Text, text_eq, nat_eq,
  ltb, leb, length, take, ◌==◌, if◌then◌else◌,
}
use hermes_quant_agent.Prelude.Outcome.{Result, ok, err, ◌>>=◌, ◌>>◌, check}
use hermes_quant_agent.Json.{text_le}
use hermes_quant_agent.Predictions.{
  LedgerError, prediction_history_contract_invalid, prediction_history_unavailable,
  prediction_entry_session_missing, prediction_outcome_session_unavailable,
  prediction_scoring_evidence_invalid, LedgerEvent, Outside, PredictionState,
}
use hermes_quant_agent.Predictions.Values.{
  invalid, strict_date, or_error, prediction_id, utc_timestamp, completed_session_cutoff,
}
use hermes_quant_agent.Predictions.Ledger.{open_status, list, keep, sorted_by}
use hermes_quant_agent.Predictions.Creation.{Ran}
use hermes_quant_agent.Predictions.Scoring.{
  Evidence, Row, not_ready, unavailable, read_scoring_evidence, commit_score,
}

-- `value.split("|", 1)` of a text with one bar
unfoldable pub split_bar : Text → Option (Text × Text)
split_bar value = cut [] value
  where
    bar_free : Text → Bool
    bar_free [] = true
    bar_free (c ∷ s) = not (c == b'|') && bar_free s

    cut : Text → Text → Option (Text × Text)
    cut before [] = none
    cut before (c ∷ s) =
        let later = cut (before ++ c ∷ []) s in
        if c == b'|' then (if bar_free s then some (before, s) else none) else later

-- `_parse_cursor`
unfoldable pub parse_cursor : Option Text → Result LedgerError (Option (Text × Text))
parse_cursor none = ok none
parse_cursor (some cursor) = do
  (horizon, id) ← or_error invalid (split_bar cursor)
  horizon ← strict_date horizon
  (_, _) ← prediction_id id
  ok (some (horizon, id))

-- `(a, b) <= (c, d)` for pairs of texts
unfoldable pub pair_le : Text × Text → Text × Text → Bool
pair_le (a, b) (c, d) = if a == c then text_le b d else text_le a c

-- The key `(horizon_date, id)`.
abbrev pub due_key : PredictionState → Text × Text
due_key state = (state.created.horizon_date, state.created.id)

-- `row["horizon_date"] <= cutoff`
unfoldable pub is_due : Text → PredictionState → Bool
is_due cutoff state = text_le state.created.horizon_date cutoff

abbrev pub is_after : Option (Text × Text) → PredictionState → Bool
is_after none state = true
is_after (some key) state = not (pair_le (due_key state) key)

-- The due predictions in order.
unfoldable pub due_of : Text → List PredictionState → List PredictionState
due_of cutoff rows = sorted_by (λ a b. pair_le (due_key a) (due_key b)) (keep (is_due cutoff) rows)

-- `f"{last['horizon_date']}|{last['id']}"` of the last selected row
unfoldable pub cursor_at : List PredictionState → Option Text
cursor_at [] = none
cursor_at (state ∷ []) = some (state.created.horizon_date ++ b'|' ∷ state.created.id)
cursor_at (_ ∷ next ∷ rest) = cursor_at (next ∷ rest)

unfoldable pub next_cursor : List PredictionState → List PredictionState → Option Text
next_cursor candidates selected =
    if ltb (length selected) (length candidates) then cursor_at selected else none

-- `_RECOVERABLE_RECONCILE_ERROR_CODES`
abbrev pub is_recoverable : LedgerError → Bool
is_recoverable prediction_entry_session_missing = true
is_recoverable prediction_history_contract_invalid = true
is_recoverable prediction_history_unavailable = true
is_recoverable prediction_outcome_session_unavailable = true
is_recoverable prediction_scoring_evidence_invalid = true
is_recoverable _ = false

-- One prediction of the loop, before its errors are caught.
unfoldable pub attempt_score :
    Outside
    → Text
    → Text
    → PredictionState
    → Option (List LedgerEvent)
    → Result LedgerError (Option Evidence)
    → Ran Row
attempt_score outside as_of cutoff state file (err e) = record { outcome = err e; file = file }
attempt_score outside as_of cutoff state file (ok none) = record {
  outcome = ok (not_ready state.created.id);
  file = file;
}
attempt_score outside as_of cutoff state file (ok (some evidence)) =
    commit_score outside state.created evidence as_of file

-- The recoverable errors are rows.
unfoldable pub recover : Text → Result LedgerError Row → Result LedgerError Row
recover id (ok row) = ok row
recover id (err e) = if is_recoverable e then ok (unavailable id e) else err e

-- One round of the loop.
unfoldable pub score_one :
    Outside → Text → Text → PredictionState → Option (List LedgerEvent) → Ran Row
score_one outside as_of cutoff state file =
    let ran =
      attempt_score outside as_of cutoff state file
        (read_scoring_evidence outside state.created cutoff) in
    record ran { outcome = recover state.created.id ran.outcome }

unfoldable pub add_row : Row → Ran (List Row) → Ran (List Row)
add_row row later = record later { outcome = later.outcome >>= λ rows. ok (row ∷ rows) }

-- An error ends the loop.
unfoldable pub score_then :
    Result LedgerError Row
    → Option (List LedgerEvent)
    → (Option (List LedgerEvent) → Ran (List Row))
    → Ran (List Row)
score_then (err e) file more = record { outcome = err e; file = file }
score_then (ok row) file more = add_row row (more file)

-- The loop over the selected predictions.
unfoldable pub score_all :
    Outside → Text → Text → List PredictionState → Option (List LedgerEvent) → Ran (List Row)
score_all outside as_of cutoff [] file = record { outcome = ok []; file = file }
score_all outside as_of cutoff (state ∷ states) file =
    let ran = score_one outside as_of cutoff state file in
    score_then ran.outcome ran.file (score_all outside as_of cutoff states)

-- What the loop works on.
pub record Selection : Type 0 where
  pub as_of : Text
  pub cutoff : Text
  pub due : List PredictionState
  pub candidates : List PredictionState
  pub selected : List PredictionState

-- What `reconcile_due` returns.
pub record Report : Type 0 where
  pub degraded : Bool
  pub as_of : Text
  pub completed_session_cutoff : Text
  pub due_count : ℕ
  pub processed_count : ℕ
  pub remaining_due_count : ℕ
  pub next_cursor : Option Text
  pub results : List Row

-- The part of `reconcile_due` before its loop.
unfoldable pub select_due :
    Outside → Text → ℕ → Option Text → Option (List LedgerEvent) → Result LedgerError Selection
select_due outside as_of limit cursor file = do
  check (leb 1 limit && leb limit 25) invalid
  key ← parse_cursor cursor
  as_of ← utc_timestamp as_of
  cutoff ← completed_session_cutoff outside.market_day as_of
  rows ← list outside (some open_status) none file
  let due = due_of cutoff rows
  let candidates = keep (is_after key) due
  ok (record {
    as_of = as_of;
    cutoff = cutoff;
    due = due;
    candidates = candidates;
    selected = take limit candidates;
  })

unfoldable pub is_unavailable : List Row → Bool
is_unavailable [] = false
is_unavailable (unavailable id e ∷ rows) = true
is_unavailable (_ ∷ rows) = is_unavailable rows

-- The part of `reconcile_due` after its loop.
unfoldable pub report_of :
    Outside → Selection → Option (List LedgerEvent) → List Row → Result LedgerError Report
report_of outside selection file results = do
  rows ← list outside (some open_status) none file
  ok (record {
    degraded = is_unavailable results;
    as_of = selection.as_of;
    completed_session_cutoff = selection.cutoff;
    due_count = length selection.due;
    processed_count = length selection.selected;
    remaining_due_count = length (keep (is_due selection.cutoff) rows);
    next_cursor = next_cursor selection.candidates selection.selected;
    results = results;
  })

unfoldable pub reconcile_selected :
    Outside → Option (List LedgerEvent) → Result LedgerError Selection → Ran Report
reconcile_selected outside file (err e) = record { outcome = err e; file = file }
reconcile_selected outside file (ok selection) =
    let ran = score_all outside selection.as_of selection.cutoff selection.selected file in
    record { outcome = ran.outcome >>= report_of outside selection ran.file; file = ran.file }

-- `PredictionLedger.reconcile_due`
unfoldable pub reconcile_due :
    Outside → Text → ℕ → Option Text → Option (List LedgerEvent) → Ran Report
reconcile_due outside as_of limit cursor file =
    reconcile_selected outside file (select_due outside as_of limit cursor file)
