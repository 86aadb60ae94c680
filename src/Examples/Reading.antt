-- ===== src/Examples/Reading.antt =====
-- Two pages of the events of the run of Examples/Run.
use hermes_quant_agent.Prelude.{
  ℕ, ◌+◌, List, [], ◌∷◌, ◌++◌, map, Bool, true, false, ◌≡◌, ◌≢◌, refl, Option, none, some, Text,
  take, drop,
}
use hermes_quant_agent.Prelude.Outcome.{ok}
use hermes_quant_agent.Authority.Apply.{Files}
use hermes_quant_agent.Authority.Events.{
  WorkflowEvent, WorkflowEventPage, public_event, records_of, events,
}
use hermes_quant_agent.Authority.Paging.{StartsAfter}
use hermes_quant_agent.Authority.Pages.{events-consecutive}
use hermes_quant_agent.Examples.Hash.{owner}
use hermes_quant_agent.Examples.Computing.{computing}
use hermes_quant_agent.Examples.Finished.{is_ok, or_else, ok-or_else}
use hermes_quant_agent.Examples.Run.{no_files, task_1, planning, apply_all}

-- the run up to its second command
short : Files
short = or_else no_files (apply_all no_files 10 (take 2 planning))

no_page : Files × WorkflowEventPage
no_page = (no_files, record { events = []; next_after_event_id = none; has_more = false })

first : Files × WorkflowEventPage
first = or_else no_page (events owner short task_1 none 1)

first-is_ok : is_ok (events owner short task_1 none 1) ≡ true
unfolding is_ok or_else short events computing take drop
first-is_ok = refl

first-ok : events owner short task_1 none 1 ≡ ok first
unfolding first
first-ok = ok-or_else no_page (events owner short task_1 none 1) first-is_ok

cursor_of : Option Text → Text
cursor_of none = []
cursor_of (some c) = c

cursor : Text
cursor = cursor_of first.1.next_after_event_id

first-next : first.1.next_after_event_id ≡ some cursor
unfolding is_ok or_else short events computing first cursor cursor_of take drop
first-next = refl

is_empty : List WorkflowEvent → Bool
is_empty [] = true
is_empty (e ∷ l) = false

full : (l : List WorkflowEvent) → is_empty l ≡ false → l ≢ []
unfolding is_empty
full [] h = cc
full (e ∷ l) h = λ q. cc

first-full : is_empty first.1.events ≡ false
unfolding is_empty is_ok or_else short events computing take drop first
first-full = refl

second : Files × WorkflowEventPage
second = or_else no_page (events owner first.0 task_1 (some cursor) 1)

second-is_ok : is_ok (events owner first.0 task_1 (some cursor) 1) ≡ true
unfolding is_ok or_else short events computing first cursor cursor_of take drop
second-is_ok = refl

second-ok : events owner first.0 task_1 (some cursor) 1 ≡ ok second
unfolding second
second-ok = ok-or_else no_page (events owner first.0 task_1 (some cursor) 1) second-is_ok

events-consecutive_example :
    (start : ℕ) × StartsAfter none start (records_of task_1 short.journal)
    × (first.1.events ++ second.1.events
        ≡ map public_event (take (1 + 1) (drop start (records_of task_1 short.journal))))
events-consecutive_example =
    events-consecutive owner short task_1 none 1 1 cursor first second first-ok
      (full first.1.events first-full) first-next second-ok
