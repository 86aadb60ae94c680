-- ===== src/Authority.antt =====
-- hqa/workflow_authority.py: the append-only journal of research workflow events, the projection
-- that replays it, and the application of a command.
pub mod Errors
pub mod Event
pub mod Store
pub mod Bindings
pub mod Digests
pub mod Checks
pub mod TaskEvents
pub mod PlanEvents
pub mod AttemptEvents
pub mod StopEvents
pub mod Expiry
pub mod Reduce
pub mod Document
pub mod Journal
pub mod Plan
pub mod ProjectionDocument
pub mod Apply
pub mod Contexts
pub mod Tombstones
pub mod Batches
pub mod Reports
pub mod Events
pub mod Paging
pub mod Replay
pub mod Receipts
pub mod BindingLaws
pub mod Closed
pub mod Versions
pub mod Indexed
pub mod IndexedLaws
pub mod IndexedProjection
pub mod Planning
pub mod Identifiers
pub mod Recorded
pub mod Persisted
pub mod Replayed
pub mod Retries
pub mod Consumption
pub mod Exclusive
pub mod Pages
pub mod Snapshot
pub mod Snapshots
pub mod Backups
pub mod Restoring
pub mod Drafting
pub mod Invariant
pub mod AttemptLists
pub mod Transitions
pub mod LiveLaws
pub mod StopLaws
pub mod StoreLaws
pub mod TaskLaws
pub mod ReduceLaws
