-- ===== src/Authority/Pages.antt =====
-- `events` over one journal: what a page holds, and pages that follow each other.
use hermes_quant_agent.Prelude.{
  ℕ, ◌+◌, List, [], ◌++◌, map, ◌≡◌, ◌≢◌, sym, ap, ◌∙◌, Option, some, Text, take, drop,
}
use hermes_quant_agent.Prelude.Outcome.{ok}
use hermes_quant_agent.Prelude.Ensures.{Ensures, bind, done, skip}
use hermes_quant_agent.Authority.Event.{Record}
use hermes_quant_agent.Authority.Digests.{Authority}
use hermes_quant_agent.Authority.Apply.{Files}
use hermes_quant_agent.Authority.Persisted.{Repaired, repair-Repaired}
use hermes_quant_agent.Authority.Events.{
  WorkflowEventPage, public_event, records_of, page_of, events,
}
use hermes_quant_agent.Authority.Paging.{StartsAfter, page_of-consecutive}

-- What `events` leaves and returns.
record Paged (files : Files) (task_ref : Text) (after : Option Text) (limit : ℕ)
    (out : Files × WorkflowEventPage) : Type 0 where
  journal : out.0.journal ≡ files.journal
  page : page_of after limit (records_of task_ref files.journal) ≡ ok out.1

events-Paged :
    (a : Authority) (files : Files) (task_ref : Text) (after : Option Text) (limit : ℕ)
    → Ensures (Paged files task_ref after limit) (events a files task_ref after limit)
unfolding events
events-Paged a files task_ref after limit = skip _ _ (
    skip _ _ (
      skip _ _ (
        bind _ _ λ p _. bind _ _ λ out h. skip _ _ (
          bind _ _ λ page hp. done (
            let k : Repaired a files p out = repair-Repaired a files p h in
            record { journal = ap (λ (z : Files). z.journal) k.files_eq; page = hp })))))

-- Where a page has events and the read with its cursor, from the files that it left, is accepted,
-- the second page goes on where the first ended: the two together hold what one page of both
-- sizes, from the start of the first, holds of the public events of the task.
pub events-consecutive :
    (a : Authority) (files : Files) (task_ref : Text) (after : Option Text) (limit more : ℕ)
    (c : Text) (x y : Files × WorkflowEventPage)
    → events a files task_ref after limit ≡ ok x
    → x.1.events ≢ []
    → x.1.next_after_event_id ≡ some c
    → events a x.0 task_ref (some c) more ≡ ok y
    → (start : ℕ) × StartsAfter after start (records_of task_ref files.journal)
      × (x.1.events ++ y.1.events
          ≡ map public_event (take (limit + more) (drop start (records_of task_ref files.journal))))
events-consecutive a files task_ref after limit more c x y h ne next g =
    let p : Paged files task_ref after limit x =
      (events-Paged a files task_ref after limit).returns x h in
    let q : Paged x.0 task_ref (some c) more y =
      (events-Paged a x.0 task_ref (some c) more).returns y g in
    page_of-consecutive after limit more c (records_of task_ref files.journal) x.1 y.1 p.page ne
      next
      (ap (λ (j : List Record). page_of (some c) more (records_of task_ref j)) (sym p.journal)
        ∙ q.page)
