-- ===== src/Authority/Apply.antt =====
-- `_apply_command` and the reading operations of `WorkflowAuthority`, over the two files of its root:
-- the journal, as its records, and the projection, as its text. The lock, which makes each call one
-- step, and the failures of the file system are not modelled.
use hermes_quant_agent.Prelude.{
  ℕ, ◌+◌, ◌*◌, List, [], ◌∷◌, ◌++◌, Bool, true, false, Option, none, some, Text, text_eq, nat_eq,
  ◌==◌, leb, ltb, length, if◌then◌else◌, utf8_length,
}
use hermes_quant_agent.Prelude.Dict.{get}
use hermes_quant_agent.Prelude.Outcome.{ok, err, check, refuse, ◌>>=◌, ◌>>◌}
use hermes_quant_agent.Patterns.{is_identifier}
use hermes_quant_agent.Json.{canonical_text}
use hermes_quant_agent.Contract.Documents.{command_to_document}
use hermes_quant_agent.Contract.Command.{Command, Request, start_research, on_task}
use hermes_quant_agent.Authority.Errors.{
  Checked, workflow_idempotency_conflict, workflow_event_quota, workflow_record_quota,
  workflow_journal_quota, workflow_projection_quota, workflow_invalid_operation,
}
use hermes_quant_agent.Authority.Event.{Record}
use hermes_quant_agent.Authority.Store.{Receipt, Operation, Projection}
use hermes_quant_agent.Authority.Digests.{Authority, Digests, digest_of}
use hermes_quant_agent.Authority.Document.{record_document}
use hermes_quant_agent.Authority.ProjectionDocument.{projection_document}
use hermes_quant_agent.Authority.Journal.{build_record, replay, current_schema}
use hermes_quant_agent.Authority.Reduce.{reduce, receipt_of}
use hermes_quant_agent.Authority.Plan.{plan_event, existing_task}

-- `_MAX_EVENTS`, `_MAX_RECORD_BYTES`, `_MAX_JOURNAL_BYTES`, `_MAX_PROJECTION_BYTES`
abbrev pub max_events : ℕ
max_events = 100000

abbrev pub max_record_bytes : ℕ
max_record_bytes = 64 * 1024

abbrev pub max_journal_bytes : ℕ
max_journal_bytes = 64 * 1024 * 1024

abbrev pub max_projection_bytes : ℕ
max_projection_bytes = 64 * 1024 * 1024

-- `_canonical_bytes(record) + b"\n"`
unfoldable pub record_bytes : Record → ℕ
unfolding utf8_length
record_bytes r = utf8_length (canonical_text (record_document r)) + 1

unfoldable pub journal_bytes : List Record → ℕ
unfolding record_bytes
journal_bytes [] = 0
journal_bytes (r ∷ rest) = record_bytes r + journal_bytes rest

-- The files of the root; the projection's is absent before the first command.
pub record Files : Type 0 where
  pub journal : List Record
  pub projection : Option Text

-- `_projection_bytes`
unfoldable pub projection_bytes : Authority → Projection → Checked Text
unfolding utf8_length
projection_bytes a p =
    let content = canonical_text (projection_document a.owner_user_id current_schema p) in
    if ltb max_projection_bytes (utf8_length content)
    then err workflow_projection_quota
    else ok content

-- `_append_record`
unfoldable pub append_record : Record → List Record → Checked (List Record)
unfolding journal_bytes
append_record r journal = do
  refuse (ltb max_record_bytes (record_bytes r)) workflow_record_quota
  refuse (ltb max_journal_bytes (journal_bytes journal + record_bytes r)) workflow_journal_quota
  ok (journal ++ r ∷ [])

-- The limit of `_read_secure_entry` on the projection's file.
unfoldable pub is_oversized : Option Text → Bool
is_oversized none = false
is_oversized (some content) = ltb max_projection_bytes (utf8_length content)

-- `_repair_disposable_projection`: a projection file that differs is written again.
unfoldable pub repair_disposable_projection : Authority → Files → Projection → Checked Files
unfolding projection_bytes is_oversized
repair_disposable_projection a files p = do
  expected ← projection_bytes a p
  refuse (is_oversized files.projection) workflow_projection_quota
  ok (record files { projection = some expected })

-- `records[-1]["record_sha256"] if records else None`
unfoldable pub last_sha256 : List Record → Option Text
last_sha256 [] = none
last_sha256 (r ∷ []) = some r.record_sha256
last_sha256 (r ∷ s ∷ rest) = last_sha256 (s ∷ rest)

-- `WorkflowReceipt`
pub record WorkflowReceipt : Type 0 where
  pub receipt : Receipt
  pub replayed : Bool

pub record Applied : Type 0 where
  pub files : Files
  pub result : WorkflowReceipt

-- `1`, or the version after the task's
unfoldable pub next_version : Projection → Text → Request → Checked ℕ
next_version p task_ref (start_research c) = ok 1
next_version p task_ref (on_task e c) = do
  task ← existing_task (get task_ref p.tasks)
  ok (task.version + 1)

-- the record that `_apply_command` builds
unfoldable pub command_record :
    Authority → List Record → Projection → Command → Text → ℕ → Checked Record
unfolding next_version last_sha256
command_record a records p command digest now = do
  event ← plan_event a p command digest now
  task_version ← next_version p event.task_ref command.request
  ok (
      build_record a (record {
        sequence = length records + 1;
        previous_record_sha256 = last_sha256 records;
        operation_id = command.operation_id;
        operation_digest = digest;
        task_ref = event.task_ref;
        attempt_ref = event.attempt_ref;
        task_version = task_version;
        event = event.event;
        occurred_at = now;
      }))

-- what `_apply_command` does for a new operation
unfoldable pub apply_new : Authority → Files → Projection → Command → Text → ℕ → Checked Applied
unfolding command_record append_record projection_bytes
apply_new a files p command digest now = do
  refuse (leb max_events (length files.journal)) workflow_event_quota
  r ← command_record a files.journal p command digest now
  candidate ← reduce a p r
  content ← projection_bytes a candidate
  journal' ← append_record r files.journal
  ok (record {
    files = record { journal = journal'; projection = some content };
    result = record { receipt = receipt_of r; replayed = false };
  })

-- what `_apply_command` does for an operation that it has applied
unfoldable pub apply_again : Authority → Files → Projection → Operation → Text → Checked Applied
unfolding repair_disposable_projection
apply_again a files p existing digest = do
  check (existing.operation_digest == digest) workflow_idempotency_conflict
  repaired ← repair_disposable_projection a files p
  ok (record { files = repaired; result = record { receipt = existing.receipt; replayed = true } })

-- `_apply_command`
unfoldable pub apply_command : Authority → Files → Command → Text → ℕ → Checked Applied
unfolding apply_new apply_again
apply_command a files command digest now = do
  p ← replay a files.journal
  elim (get command.operation_id p.operations) [
    | some existing ↦ apply_again a files p existing digest
    | none ↦ apply_new a files p command digest now
  ]

-- `canonical_command_digest`, `_canonical_expiry_command_digest`
unfoldable pub canonical_command_digest : Digests → Command → Text
unfolding digest_of
canonical_command_digest d command = digest_of d (command_to_document command)

-- `apply`, and `_apply_expiry_mutation` for the two internal mutations
unfoldable pub apply : Authority → Files → Command → ℕ → Checked Applied
unfolding apply_command canonical_command_digest
apply a files command now =
    apply_command a files command (canonical_command_digest a.digests command) now

unfoldable pub replayed_receipt : Option Operation → Option WorkflowReceipt
replayed_receipt none = none
replayed_receipt (some o) = some (record { receipt = o.receipt; replayed = true })

-- what `operation_receipt` leaves and returns
pub record Read : Type 0 where
  pub files : Files
  pub result : Option WorkflowReceipt

-- `operation_receipt`
unfoldable pub operation_receipt : Authority → Files → Text → Checked Read
unfolding repair_disposable_projection replayed_receipt
operation_receipt a files operation_id = do
  check (is_identifier operation_id) workflow_invalid_operation
  p ← replay a files.journal
  repaired ← repair_disposable_projection a files p
  ok (record { files = repaired; result = replayed_receipt (get operation_id p.operations) })
