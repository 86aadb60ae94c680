-- ===== src/Examples/Witnesses.antt =====
-- The theorems about a journal at the run of Examples/Run.
use hermes_quant_agent.Prelude.{true, ◌≡◌, refl, text_eq}
use hermes_quant_agent.Prelude.Dict.{get}
use hermes_quant_agent.Authority.Invariant.{HasEvidence}
use hermes_quant_agent.Authority.ReduceLaws.{IsSoundProjection}
use hermes_quant_agent.Authority.Replay.{replay-IsSoundProjection, replay-HasEvidence}
use hermes_quant_agent.Authority.Receipts.{Summarizes, replay-Summarizes}
use hermes_quant_agent.Authority.Versions.{version_of, count_for, replay-version}
use hermes_quant_agent.Authority.Drafting.{IsKept, replay-IsKept}
use hermes_quant_agent.Prelude.Ensures.{Ensures}
use hermes_quant_agent.Authority.Snapshot.{snapshot}
use hermes_quant_agent.Authority.Snapshots.{IsFaithful, snapshot-IsFaithful}
use hermes_quant_agent.Examples.Computing.{computing}
use hermes_quant_agent.Examples.Hash.{owner}
use hermes_quant_agent.Examples.Run.{task_1}
use hermes_quant_agent.Examples.Finished.{
  is_ok, or_else, finished, finished_projection, finished-replays, finished_task, finished-task,
  finished-completed,
}

replay-IsSoundProjection_example : IsSoundProjection finished_projection
replay-IsSoundProjection_example = replay-IsSoundProjection owner finished.journal finished-replays

replay-HasEvidence_example : HasEvidence finished_task
replay-HasEvidence_example =
    replay-HasEvidence owner finished.journal task_1 finished_task finished-replays finished-task
      finished-completed

replay-Summarizes_example : Summarizes finished_projection finished.journal
replay-Summarizes_example = replay-Summarizes owner finished.journal finished-replays

replay-version_example :
    version_of (get task_1 finished_projection.tasks) ≡ count_for task_1 finished.journal
replay-version_example = replay-version owner finished.journal task_1 finished-replays

replay-IsKept_example : IsKept finished_projection
replay-IsKept_example = replay-IsKept owner finished.journal finished-replays

snapshot-IsFaithful_example : Ensures (IsFaithful finished task_1) (snapshot owner finished task_1)
snapshot-IsFaithful_example = snapshot-IsFaithful owner finished task_1

-- The finished task can be read.
finished-snapshot : is_ok (snapshot owner finished task_1) ≡ true
unfolding is_ok or_else finished computing snapshot
finished-snapshot = refl
