-- ===== src/Authority/Versions.antt =====
-- A task's version is the number of its records in the journal.
use hermes_quant_agent.Prelude.{
  ℕ, suc, ◌+◌, ◌≤◌, List, [], ◌∷◌, ◌≡◌, sym, subst, arith, Option, none, some, Text, text_eq,
  nat_eq, ◌==◌, if◌then◌else◌, length,
}
use hermes_quant_agent.Prelude.Dict.{get, get-put}
use hermes_quant_agent.Prelude.Outcome.{ok, >>=-eq-ok}
use hermes_quant_agent.Prelude.Ensures.{Ensures, bind, done, skip, checked, refused}
use hermes_quant_agent.Authority.Digests.{Authority}
use hermes_quant_agent.Authority.Event.{Record, Event, ResearchStarted, research_started}
use hermes_quant_agent.Authority.Store.{Task, Projection}
use hermes_quant_agent.Authority.TaskEvents.{Change}
use hermes_quant_agent.Authority.ReduceLaws.{require_task-get}
use hermes_quant_agent.Authority.Reduce.{
  new_task, reduce_research_started, reduce_existing, reduce_event, commit, reduce,
}
use hermes_quant_agent.Authority.Journal.{replay_step, replay_from, replay, empty_projection}
use hermes_quant_agent.Authority.Replay.{Accepted, replay_step-Accepted}
use hermes_quant_agent.Authority.Receipts.{Reduced, reduce-Reduced}

-- the version of a task, `0` where there is no task
unfoldable pub version_of : Option Task → ℕ
version_of none = 0
version_of (some t) = t.version

-- the number of records of a task
unfoldable pub count_for : Text → List Record → ℕ
count_for ref [] = 0
count_for ref (r ∷ rest) = let n = count_for ref rest in if ref == r.task_ref then suc n else n

module _ (a : Authority) (p : Projection) (r : Record) where
  started_version :
      (d : ResearchStarted)
      → Ensures
          (λ (c : Change). c.task.version ≡ version_of (get r.task_ref p.tasks) + 1)
          (reduce_research_started a p r d)
  unfolding reduce_research_started new_task version_of
  started_version d =
      refused _ _ _ λ fresh.
        skip _ _ (skip _ _ (bind _ _ λ v _. skip _ _ (bind _ _ λ b' _. done (ground arith))))

  existing_version :
      Ensures
        (λ (c : Change). c.task.version ≡ version_of (get r.task_ref p.tasks) + 1)
        (reduce_existing a p r)
  unfolding reduce_existing version_of
  existing_version = bind _ _ λ t found. skip _ _ (
      checked _ _ _ λ same.
        bind _ _ λ c _. done (ground (arith, require_task-get (get r.task_ref p.tasks) {t = t})))

  event_version :
      (e : Event)
      → Ensures
          (λ (c : Change). c.task.version ≡ version_of (get r.task_ref p.tasks) + 1)
          (reduce_event a p r e)
  unfolding reduce_event
  event_version (research_started d) = started_version d
  event_version e = existing_version

  commit_version :
      (c : Change)
      → c.task.version ≡ version_of (get r.task_ref p.tasks) + 1
      → (ref : Text)
      → version_of (get ref (commit p r c).tasks)
        ≡ version_of (get ref p.tasks) + (if ref == r.task_ref then 1 else 0)
  unfolding commit version_of
  commit_version c h ref = ground (arith, get-put ref r.task_ref c.task p.tasks)

  reduce_version :
      {q : Projection}
      → reduce a p r ≡ ok q
      → (ref : Text)
      → version_of (get ref q.tasks)
        ≡ version_of (get ref p.tasks) + (if ref == r.task_ref then 1 else 0)
  reduce_version {q} h ref =
      let k : Reduced a p r q = reduce-Reduced a p r h in
      subst
        (λ (z : Projection).
          version_of (get ref z.tasks)
          ≡ version_of (get ref p.tasks) + (if ref == r.task_ref then 1 else 0))
        (sym k.result)
        (commit_version k.change ((event_version r.event).returns k.change k.event) ref)

replay_from-version :
    (a : Authority) (p : Projection) (n : ℕ) (previous : Option Text) (records : List Record)
    (ref : Text) {q : Projection}
    → replay_from a p n previous records ≡ ok q
    → version_of (get ref q.tasks) ≡ version_of (get ref p.tasks) + count_for ref records
unfolding replay_from count_for
replay_from-version a p n previous [] ref {q} h =
    let same : p ≡ q = cc in
    subst (λ (z : Projection). version_of (get ref z.tasks) ≡ version_of (get ref p.tasks) + 0) same
      (omega arith)
replay_from-version a p n previous (r ∷ rest) ref {q} h =
    let (after, stepped, remaining) = >>=-eq-ok (replay_step a p n previous r) _ h in
    let accepted : Accepted a p n previous r after =
      replay_step-Accepted a p n previous r stepped in
    ground (
      arith,
      reduce_version a p r accepted.reduced ref,
      replay_from-version a after (n + 1) (some r.record_sha256) rest ref {q = q} remaining,
    )

-- In the projection of an accepted journal the version of the task at a reference, counted as 0
-- where there is no task, is the number of records that the journal holds for that reference.
pub replay-version :
    (a : Authority) (records : List Record) (ref : Text) {p : Projection}
    → replay a records ≡ ok p
    → version_of (get ref p.tasks) ≡ count_for ref records
unfolding replay version_of get
replay-version a records ref {p} h =
    let k : version_of (get ref p.tasks) ≡ 0 + count_for ref records =
      replay_from-version a empty_projection 1 none records ref h in
    omega (arith, k)

pub count_for-bound : (ref : Text) (records : List Record) → count_for ref records ≤ length records
unfolding count_for
count_for-bound ref [] = omega arith
count_for-bound ref (r ∷ rest) = ground (arith, count_for-bound ref rest)
