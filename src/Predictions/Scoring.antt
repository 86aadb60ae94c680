-- ===== src/Predictions/Scoring.antt =====
-- hqa/predictions.py: `_read_scoring_evidence` and `_commit_score`.
use hermes_quant_agent.Prelude.{
  List, [], ◌∷◌, ◌++◌, Bool, Option, none, some, Text, text, text_eq, ◌==◌, if◌then◌else◌,
}
use hermes_quant_agent.Prelude.Outcome.{Result, ok, err, ◌>>=◌, ◌>>◌}
use hermes_quant_agent.Json.{text_le}
use hermes_quant_agent.Floats.{Float, is_finite}
use hermes_quant_agent.Predictions.{
  LedgerError, prediction_history_contract_invalid, prediction_history_unavailable,
  prediction_entry_session_missing, prediction_outcome_session_unavailable,
  prediction_scoring_evidence_invalid, Created, PriceEvidence, Scored, LedgerEvent,
  prediction_scored, PriceRow, History, failed, contract_invalid, snapshot, Outside,
  PredictionState,
}
use hermes_quant_agent.Predictions.Values.{utc_timestamp}
use hermes_quant_agent.Predictions.Request.{schema_version}
use hermes_quant_agent.Predictions.Prices.{outcome_direction, return_on}
use hermes_quant_agent.Predictions.Validation.{
  text_less, text_min, range_hit_of, brier_of, score_id_of, resolution_end, validate_scored_event,
}
use hermes_quant_agent.Predictions.Ledger.{corrupt, reduce, require_state}
use hermes_quant_agent.Predictions.Creation.{Written, Ran, kept}

-- What `_read_scoring_evidence` returns.
pub record Evidence : Type 0 where
  pub scoring_entry_close : Float
  pub outcome_session_date : Text
  pub outcome_close : Float
  pub price_evidence : PriceEvidence

-- `next((row for row in rows if p(row)), None)`
unfoldable pub first_row : (PriceRow → Bool) → List PriceRow → Option PriceRow
first_row p [] = none
first_row p (row ∷ rows) = let rest = first_row p rows in if p row then some row else rest

unfoldable pub rows_of : History → Result LedgerError (List PriceRow × Text × Text)
rows_of failed = err prediction_history_unavailable
rows_of contract_invalid = err prediction_history_contract_invalid
rows_of (snapshot row rows fetched_at payload_sha256) = ok (row ∷ rows, fetched_at, payload_sha256)

unfoldable pub entry_row : Text → List PriceRow → Result LedgerError PriceRow
entry_row entry_date rows = elim (first_row (λ row. row.date == entry_date) rows) [
  | none ↦ err prediction_entry_session_missing
  | some row ↦ ok row
]

-- No session on or after the horizon: too late at the end of the window, not yet before.
unfoldable pub no_outcome : Text → Text → Result LedgerError (Option Evidence)
no_outcome end max_end =
    if text_le max_end end then err prediction_outcome_session_unavailable else ok none

unfoldable pub evidence_of :
    Text → Text → Text → Text → PriceRow → PriceRow → Result LedgerError (Option Evidence)
evidence_of fetched_at payload_sha256 start end entry outcome = do
  fetched_at ← utc_timestamp fetched_at
  ok (
      some (record {
        scoring_entry_close = entry.close;
        outcome_session_date = outcome.date;
        outcome_close = outcome.close;
        price_evidence = record {
          provider = text "futu";
          source = text "futu";
          interval = text "1d";
          adjustment = text "qfq";
          fetched_at = fetched_at;
          payload_sha256 = payload_sha256;
          start = start;
          end = end;
        };
      }))

unfoldable pub read_rows : Outside → Created → Text → Text → Result LedgerError (Option Evidence)
read_rows outside created end max_end = do
  let entry_date = created.entry_price.session_date
  (rows, fetched_at, payload_sha256) ← rows_of (outside.run_history created.symbol entry_date end)
  entry ← entry_row entry_date rows
  elim (first_row (λ row. text_le created.horizon_date row.date) rows) [
    | none ↦ no_outcome end max_end
    | some outcome ↦ evidence_of fetched_at payload_sha256 entry_date end entry outcome
  ]

-- `_read_scoring_evidence`
unfoldable pub read_scoring_evidence :
    Outside → Created → Text → Result LedgerError (Option Evidence)
read_scoring_evidence outside created cutoff = do
  max_end ← resolution_end created.horizon_date
  let end = text_min cutoff max_end
  let evidence = read_rows outside created end max_end
  if text_less end created.horizon_date then ok none else evidence

-- A row of the results of `reconcile_due`.
pub data Row : Type 0 where
  not_ready : Text → Row
  scored already_scored : Text → Text → Row
  unavailable : Text → LedgerError → Row

-- The event that `_commit_score` appends.
unfoldable pub scored_event : Outside → Created → Evidence → Text → Scored
scored_event outside created evidence scored_at =
    let outcome_return = return_on evidence.outcome_close evidence.scoring_entry_close in
    let direction = outcome_direction outcome_return created.flat_threshold_pct in
    let correct = direction == created.direction in
    record {
      schema_version = schema_version;
      id = created.id;
      revision = 2;
      score_id = score_id_of created.id evidence.outcome_session_date;
      scored_at = scored_at;
      scoring_entry_close = evidence.scoring_entry_close;
      outcome_session_date = evidence.outcome_session_date;
      outcome_close = evidence.outcome_close;
      outcome_return = outcome_return;
      outcome_direction = direction;
      direction_correct = correct;
      direction_brier = brier_of outside created.confidence correct;
      range_hit = range_hit_of created outcome_return;
      price_evidence = evidence.price_evidence;
    }

-- The event against the state that is current under the lock.
unfoldable pub score_current :
    Outside
    → Scored
    → List LedgerEvent
    → PredictionState
    → Option Scored
    → Result LedgerError (Written Row)
score_current outside event events current (some done) =
    ok (record { result = already_scored event.id done.outcome_session_date; events = events })
score_current outside event events current none = do
  validate_scored_event outside event current.created
  ok (record {
    result = scored event.id event.outcome_session_date;
    events = events ++ prediction_scored event ∷ [];
  })

-- The body of `_commit_score` under the exclusive lock, on a file that exists.
unfoldable pub score_locked : Outside → Scored → List LedgerEvent → Result LedgerError (Written Row)
score_locked outside event [] = err corrupt
score_locked outside event (first ∷ events) = do
  ledger ← reduce outside (first ∷ events)
  current ← require_state event.id ledger.states
  score_current outside event (first ∷ events) current current.scored

unfoldable pub score_file : Outside → Scored → Option (List LedgerEvent) → Ran Row
score_file outside event none = record { outcome = err corrupt; file = none }
score_file outside event (some events) = kept events (score_locked outside event events)

-- `_commit_score`
unfoldable pub commit_score :
    Outside → Created → Evidence → Text → Option (List LedgerEvent) → Ran Row
commit_score outside created evidence scored_at file =
    let event = scored_event outside created evidence scored_at in
    let written = score_file outside event file in
    if is_finite event.outcome_return
    then written
    else record { outcome = err prediction_scoring_evidence_invalid; file = file }
