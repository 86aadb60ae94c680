-- ===== src/Authority/Events.antt =====
-- `events`: the public events of a task, page by page.
use hermes_quant_agent.Prelude.{
  ℕ, ◌+◌, List, [], ◌∷◌, map, Bool, true, ◌&&◌, Option, none, some, Text, text, text_eq, ◌==◌,
  is_some, leb, ltb, length, take, drop, if◌then◌else◌,
}
use hermes_quant_agent.Prelude.Dict.{get}
use hermes_quant_agent.Prelude.Outcome.{ok, err, check, ◌>>=◌, ◌>>◌}
use hermes_quant_agent.Patterns.{safe_ref, safe_event_ref}
use hermes_quant_agent.Authority.Errors.{
  Checked, workflow_event_cursor_stale, workflow_invalid_cursor, workflow_invalid_limit,
  workflow_invalid_ref, workflow_task_not_found,
}
use hermes_quant_agent.Authority.Event.{Event, Record}
use hermes_quant_agent.Authority.Digests.{Authority}
use hermes_quant_agent.Authority.Journal.{replay}
use hermes_quant_agent.Authority.Apply.{Files, repair_disposable_projection}

-- `WorkflowEvent`; the event holds its type and its `data`
pub record WorkflowEvent : Type 0 where
  pub sequence : ℕ
  pub event_id : Text
  pub operation_id : Text
  pub operation_digest : Text
  pub task_ref : Text
  pub task_version : ℕ
  pub event : Event
  pub occurred_at : ℕ

-- `_public_event`
unfoldable pub public_event : Record → WorkflowEvent
public_event r = record {
  sequence = r.sequence;
  event_id = r.event_id;
  operation_id = r.operation_id;
  operation_digest = r.operation_digest;
  task_ref = r.task_ref;
  task_version = r.task_version;
  event = r.event;
  occurred_at = r.occurred_at;
}

-- `WorkflowEventPage`
pub record WorkflowEventPage : Type 0 where
  pub events : List WorkflowEvent
  pub next_after_event_id : Option Text
  pub has_more : Bool

-- `[record for record in records if record["task_ref"] == task_ref]`
unfoldable pub records_of : Text → List Record → List Record
records_of task_ref [] = []
records_of task_ref (r ∷ rest) =
    let found = records_of task_ref rest in if r.task_ref == task_ref then r ∷ found else found

-- the indexes, from `n` on, of the records with an event id
unfoldable pub indexes_of : Text → ℕ → List Record → List ℕ
indexes_of event_id n [] = []
indexes_of event_id n (r ∷ rest) =
    let found = indexes_of event_id (n + 1) rest in
    if r.event_id == event_id then n ∷ found else found

unfoldable pub after_only : List ℕ → Checked ℕ
after_only (i ∷ []) = ok (i + 1)
after_only _ = err workflow_event_cursor_stale

-- where the page starts
unfoldable pub page_start : Option Text → List Record → Checked ℕ
unfolding indexes_of after_only
page_start none records = ok 0
page_start (some event_id) records = after_only (indexes_of event_id 0 records)

-- `events[-1].event_id if events else after_event_id`
unfoldable pub next_cursor : Option Text → List WorkflowEvent → Option Text
next_cursor after [] = after
next_cursor after (e ∷ rest) = next_cursor (some e.event_id) rest

unfoldable pub page_of : Option Text → ℕ → List Record → Checked WorkflowEventPage
unfolding page_start public_event next_cursor
page_of after limit records = do
  start ← page_start after records
  let selected = take limit (drop start records)
  let events = map public_event selected
  ok (record {
    events = events;
    next_after_event_id = next_cursor after events;
    has_more = ltb (start + length selected) (length records);
  })

unfoldable pub safe_cursor : Option Text → Bool
safe_cursor none = true
safe_cursor (some event_id) = safe_event_ref event_id

-- `events`: the files it leaves, and the page
unfoldable pub events :
    Authority → Files → Text → Option Text → ℕ → Checked (Files × WorkflowEventPage)
unfolding records_of page_of safe_cursor
events a files task_ref after limit = do
  check (safe_ref task_ref (text "task:")) workflow_invalid_ref
  check (leb 1 limit && leb limit 1000) workflow_invalid_limit
  check (safe_cursor after) workflow_invalid_cursor
  p ← replay a files.journal
  repaired ← repair_disposable_projection a files p
  check (is_some (get task_ref p.tasks)) workflow_task_not_found
  page ← page_of after limit (records_of task_ref files.journal)
  ok (repaired, page)
