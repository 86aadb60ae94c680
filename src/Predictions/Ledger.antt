-- ===== src/Predictions/Ledger.antt =====
-- hqa/predictions.py: `_reduce`, `_find_existing_request`, `_next_id` and `PredictionLedger.list`. The file
-- is the list of its events.
use hermes_quant_agent.Prelude.{
  ℕ, ◌+◌, List, [], ◌∷◌, Bool, true, not, ◌&&◌, Option, none, some, Text, text_eq, nat_eq, ltb, leb,
  length, ◌==◌, is_some, if◌then◌else◌,
}
use hermes_quant_agent.Prelude.Dict.{Dict, get, put}
use hermes_quant_agent.Prelude.Outcome.{Result, ok, err, ◌>>=◌, ◌>>◌, check, refuse}
use hermes_quant_agent.Json.{text_le}
use hermes_quant_agent.Dates.{is_digit}
use hermes_quant_agent.Patterns.{all_chars}
use hermes_quant_agent.Predictions.{
  LedgerError, prediction_invalid_request, prediction_ledger_corrupt,
  prediction_idempotency_conflict, Created, Scored, LedgerEvent, prediction_created,
  prediction_scored, unknown, Outside, PredictionState,
}
use hermes_quant_agent.Predictions.Values.{
  split_id, int_of, render_id, prediction_id, utc_timestamp,
}
use hermes_quant_agent.Predictions.Validation.{validate_created_event, validate_scored_event}

-- `_corrupt`
abbrev pub corrupt : LedgerError
corrupt = prediction_ledger_corrupt

-- What `_reduce` gathers.
pub record Reduced : Type 0 where
  pub states : Dict Text PredictionState
  pub request_ids : Dict Text Text
  pub day_sequences : Dict Text ℕ

unfoldable pub empty_ledger : Reduced
empty_ledger = record { states = []; request_ids = []; day_sequences = [] }

abbrev corrupted : LedgerError → LedgerError
corrupted prediction_invalid_request = corrupt
corrupted e = e

-- `if exc.code == "prediction_invalid_request": raise _corrupt(exc.message)`
unfoldable pub as_corrupt {ℓ} : {A : Type ℓ} → Result LedgerError A → Result LedgerError A
as_corrupt (ok a) = ok a
as_corrupt (err e) = err (corrupted e)

-- `_state_from_created`
unfoldable pub state_from_created : Created → PredictionState
state_from_created event = record { created = event; scored = none }

-- `_state_from_scored`
unfoldable pub state_from_scored : PredictionState → Scored → PredictionState
state_from_scored state event = record state { scored = some event }

-- `day_sequences.get(day, 0)`
unfoldable pub sequence_of : Text → Dict Text ℕ → ℕ
sequence_of day sequences = elim (get day sequences) [ none ↦ 0 | some n ↦ n ]

unfoldable pub require_state : Text → Dict Text PredictionState → Result LedgerError PredictionState
require_state id states = elim (get id states) [ none ↦ err corrupt | some state ↦ ok state ]

unfoldable pub on_created : Outside → Created → Reduced → Result LedgerError Reduced
on_created outside event ledger = do
  as_corrupt (validate_created_event outside event)
  refuse (is_some (get event.id ledger.states)) corrupt
  (id_day, id_sequence) ← prediction_id event.id
  check (id_sequence == sequence_of id_day ledger.day_sequences + 1) corrupt
  refuse (is_some (get event.request_id ledger.request_ids)) corrupt
  ok (record {
    states = put event.id (state_from_created event) ledger.states;
    request_ids = put event.request_id event.id ledger.request_ids;
    day_sequences = put id_day id_sequence ledger.day_sequences;
  })

unfoldable pub on_scored : Outside → Scored → Reduced → Result LedgerError Reduced
on_scored outside event ledger = do
  (_, _) ← as_corrupt (prediction_id event.id)
  state ← require_state event.id ledger.states
  refuse (is_some state.scored) corrupt
  as_corrupt (validate_scored_event outside event state.created)
  ok (record ledger { states = put event.id (state_from_scored state event) ledger.states })

unfoldable pub reduce_event : Outside → LedgerEvent → Reduced → Result LedgerError Reduced
reduce_event outside (prediction_created event) ledger = on_created outside event ledger
reduce_event outside (prediction_scored event) ledger = on_scored outside event ledger
reduce_event outside unknown ledger = err corrupt

unfoldable pub reduce_from : Outside → Reduced → List LedgerEvent → Result LedgerError Reduced
reduce_from outside ledger [] = ok ledger
reduce_from outside ledger (event ∷ events) =
    reduce_event outside event ledger >>= λ after. reduce_from outside after events

-- `_reduce`
unfoldable pub reduce : Outside → List LedgerEvent → Result LedgerError Reduced
reduce outside events = reduce_from outside empty_ledger events

unfoldable pub values : Dict Text PredictionState → List PredictionState
values [] = []
values ((_, state) ∷ rest) = state ∷ values rest

-- `_find_existing_request`
unfoldable pub find_existing_request :
    Text → Text → List PredictionState → Result LedgerError (Option PredictionState)
find_existing_request request_id intent_sha256 [] = ok none
find_existing_request request_id intent_sha256 (state ∷ states) =
    let rest = find_existing_request request_id intent_sha256 states in
    if not (state.created.request_id == request_id)
    then rest
    else if not (state.created.intent_sha256 == intent_sha256)
    then err prediction_idempotency_conflict
    else ok (some state)

unfoldable pub sequence_in : Text → Option (Text × Text) → ℕ
sequence_in day none = 0
sequence_in day (some (id_day, digits)) =
    if id_day == day && all_chars is_digit digits && leb 3 (length digits) && leb (length digits) 12
    then int_of 0 digits
    else 0

-- The sequence of an id of that day: `_ID_PATTERN.fullmatch`, then `int(match.group(2))`. The day is a
-- date, so an id with that day has digits where the pattern wants them.
unfoldable pub sequence_on : Text → Text → ℕ
sequence_on day id = sequence_in day (split_id id)

unfoldable pub maximum : ℕ → ℕ → ℕ
maximum a b = if ltb a b then b else a

-- `max(sequences, default=0)`
unfoldable pub last_sequence : Text → Dict Text PredictionState → ℕ
last_sequence day [] = 0
last_sequence day ((id, _) ∷ rest) = maximum (sequence_on day id) (last_sequence day rest)

-- `_next_id`
unfoldable pub next_id : Dict Text PredictionState → Text → Text
next_id states day = render_id day (last_sequence day states + 1)

-- The key `(created_at, id)`.
unfoldable pub created_before : PredictionState → PredictionState → Bool
created_before a b =
    if a.created.created_at == b.created.created_at
    then text_le a.created.id b.created.id
    else text_le a.created.created_at b.created.created_at

unfoldable pub insert_by {ℓ} : {A : Type ℓ} → (A → A → Bool) → A → List A → List A
insert_by le a [] = a ∷ []
insert_by le a (b ∷ bs) = let rest = insert_by le a bs in if le a b then a ∷ b ∷ bs else b ∷ rest

-- `sorted`, which keeps the order of equal elements
unfoldable pub sorted_by {ℓ} : {A : Type ℓ} → (A → A → Bool) → List A → List A
sorted_by le [] = []
sorted_by le (a ∷ rest) = insert_by le a (sorted_by le rest)

unfoldable pub keep {ℓ} : {A : Type ℓ} → (A → Bool) → List A → List A
keep p [] = []
keep p (a ∷ more) = let rest = keep p more in if p a then a ∷ rest else rest

pub data Status : Type 0 where
  open_status scored_status : Status

-- `row["status"] == status`
abbrev pub has_status : Option Status → PredictionState → Bool
has_status none state = true
has_status (some open_status) state = not (is_some state.scored)
has_status (some scored_status) state = is_some state.scored

abbrev pub is_since : Option Text → PredictionState → Bool
is_since none state = true
is_since (some since) state = text_le since state.created.created_at

unfoldable pub since_of : Option Text → Result LedgerError (Option Text)
since_of none = ok none
since_of (some since) = do timestamp ← utc_timestamp since; ok (some timestamp)

-- `_read_events`: `none` is a file that does not exist, and one that exists holds a line
unfoldable pub read_states :
    Outside → Option (List LedgerEvent) → Result LedgerError (Dict Text PredictionState)
read_states outside none = ok []
read_states outside (some []) = err corrupt
read_states outside (some (event ∷ events)) = do
  ledger ← reduce outside (event ∷ events)
  ok ledger.states

-- `PredictionLedger.list`
unfoldable pub list :
    Outside
    → Option Status
    → Option Text
    → Option (List LedgerEvent)
    → Result LedgerError (List PredictionState)
list outside status since file = do
  since ← since_of since
  states ← read_states outside file
  let rows = sorted_by created_before (values states)
  ok (keep (is_since since) (keep (has_status status) rows))
