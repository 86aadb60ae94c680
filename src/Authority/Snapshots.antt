-- ===== src/Authority/Snapshots.antt =====
-- What a snapshot of a task says of the journal.
use hermes_quant_agent.Prelude.{
  List, [], ◌∷◌, map, true, ◌≡◌, ap, ◌∙◌, arith, Option, some, is_some, Text, text_eq,
}
use hermes_quant_agent.Prelude.Dict.{get}
use hermes_quant_agent.Prelude.Ensures.{Ensures, bind, done, skip}
use hermes_quant_agent.Authority.Store.{Attempt, Task}
use hermes_quant_agent.Authority.Digests.{Authority}
use hermes_quant_agent.Authority.Invariant.{is_ended, is_closed, past_plan, OnlyLastOpen, IsSound}
use hermes_quant_agent.Authority.Apply.{Files}
use hermes_quant_agent.Authority.Planning.{existing_task-get}
use hermes_quant_agent.Authority.Versions.{version_of, count_for, replay-version}
use hermes_quant_agent.Authority.Drafting.{replay-IsKept}
use hermes_quant_agent.Authority.Persisted.{Repaired, repair-Repaired}
use hermes_quant_agent.Authority.Snapshot.{
  AttemptSnapshot, WorkflowSnapshot, attempt_snapshot, snapshot_from_task, snapshot,
}

-- Only the last attempt may be open.
abbrev pub OnlyLastRuns : List AttemptSnapshot → Type 0
OnlyLastRuns [] = ⊥
OnlyLastRuns (x ∷ []) = Unit
OnlyLastRuns (x ∷ y ∷ rest) = (is_ended x.state ≡ true) × OnlyLastRuns (y ∷ rest)

-- A snapshot that agrees with the journal.
pub record IsFaithful (files : Files) (task_ref : Text) (out : Files × WorkflowSnapshot)
    : Type 0 where
  pub journal : out.0.journal ≡ files.journal
  pub task : out.1.task_ref ≡ task_ref
  pub version : out.1.version ≡ count_for task_ref files.journal
  pub outcome : is_some out.1.terminal_outcome ≡ is_closed out.1.state
  pub plan_confirmed :
      past_plan out.1.state ≡ true → is_some out.1.plan_confirmation_note_digest ≡ true
  pub attempts : OnlyLastRuns out.1.attempts

snapshots-open : (l : List Attempt) → OnlyLastOpen l → OnlyLastRuns (map attempt_snapshot l)
unfolding attempt_snapshot
snapshots-open [] h = h
snapshots-open (x ∷ []) h = tt
snapshots-open (x ∷ y ∷ l) h = (h.0, snapshots-open (y ∷ l) h.1)

version_found : {o : Option Task} (t : Task) → o ≡ some t → t.version ≡ version_of o
unfolding version_of
version_found {o} t h = ground arith

-- A snapshot that is returned leaves the journal as it is, is of the task that was asked for, has
-- the number of its records as version, an outcome exactly when the task has ended, a recorded
-- confirmation of the plan where its state is past that gate, and at most its last attempt open.
pub snapshot-IsFaithful :
    (a : Authority) (files : Files) (task_ref : Text)
    → Ensures (IsFaithful files task_ref) (snapshot a files task_ref)
unfolding snapshot snapshot_from_task
snapshot-IsFaithful a files task_ref = skip _ _ (
    bind _ _ λ p accepted. bind _ _ λ out h. bind _ _ λ t ht. done (
      let found : get task_ref p.tasks ≡ some t = existing_task-get _ ht in
      let kept = replay-IsKept a files.journal accepted in
      let s : IsSound t = kept.sound.each task_ref t found in
      let k : Repaired a files p out = repair-Repaired a files p h in
      let counted : version_of (get task_ref p.tasks) ≡ count_for task_ref files.journal =
        replay-version a files.journal task_ref accepted in
      record {
        journal = ap (λ (z : Files). z.journal) k.files_eq;
        task = (kept.indexed.each task_ref t found).key;
        version = version_found t found ∙ counted;
        outcome = s.outcome;
        plan_confirmed = s.plan_confirmed;
        attempts = snapshots-open t.attempts s.open_last;
      }))
