-- ===== src/Authority/Backups.antt =====
-- `rebuild_projection`, `reverse_audit`, `backup` and `restore`.
use hermes_quant_agent.Prelude.{
  ℕ, ◌*◌, List, [], ◌∷◌, ◌++◌, ◌&&◌, Option, none, some, Text, text, text_eq, nat_eq, ◌==◌, ltb,
  length, if◌then◌else◌, utf8_length,
}
use hermes_quant_agent.Prelude.Outcome.{ok, err, check, refuse, ◌>>=◌, ◌>>◌}
use hermes_quant_agent.Patterns.{safe_digest}
use hermes_quant_agent.Json.{num, str, arr, Items, nil, cons, obj, end, field, Json, canonical_text}
use hermes_quant_agent.Authority.Errors.{
  Checked, workflow_backup_corrupt, workflow_backup_quota, workflow_restore_conflict,
  workflow_projection_quota,
}
use hermes_quant_agent.Authority.Event.{Record}
use hermes_quant_agent.Authority.Document.{record_document}
use hermes_quant_agent.Authority.Store.{
  Namespace, command_refs, run_refs, provider_evidence_refs, result_refs, gate_refs,
  tombstone_event_refs, payload_tombstone_observations, candidate_refs, payload_refs, Projection,
}
use hermes_quant_agent.Authority.Digests.{Authority}
use hermes_quant_agent.Authority.Journal.{replay, current_schema}
use hermes_quant_agent.Authority.Apply.{is_oversized, Files, projection_bytes}

pub data Status : Type 0 where
  consistent projection_missing projection_mismatch : Status

-- `_audit_document`
pub record Audit : Type 0 where
  pub status : Status
  pub owner_user_id : Text
  pub event_count : ℕ
  pub task_count : ℕ
  pub operation_count : ℕ
  pub binding_counts : List (Namespace × ℕ)
  pub last_record_sha256 : Option Text
  pub projection_sha256 : Text

unfoldable pub binding_counts_of : Projection → List Namespace → List (Namespace × ℕ)
binding_counts_of p [] = []
binding_counts_of p (n ∷ ns) = (n, length (p.bindings n)) ∷ binding_counts_of p ns

unfoldable pub audit_document : Authority → Projection → Status → Checked Audit
audit_document a p status = do
  content ← projection_bytes a p
  ok (record {
    status = status;
    owner_user_id = a.owner_user_id;
    event_count = p.last_sequence;
    task_count = length p.tasks;
    operation_count = length p.operations;
    binding_counts = binding_counts_of p (
        command_refs ∷ run_refs ∷ provider_evidence_refs ∷ result_refs ∷ gate_refs
        ∷ tombstone_event_refs ∷ payload_tombstone_observations ∷ candidate_refs ∷ payload_refs
        ∷ []);
    last_record_sha256 = p.last_record_sha256;
    projection_sha256 = a.digests.sha256 content;
  })

-- The files after a call, and the audit that it returns.
pub record Audited : Type 0 where
  pub files : Files
  pub audit : Audit

unfoldable pub rebuild_projection : Authority → Files → Checked Audited
rebuild_projection a files = do
  p ← replay a files.journal
  content ← projection_bytes a p
  audit ← audit_document a p consistent
  ok (record { files = record files { projection = some content }; audit = audit })

unfoldable pub status_of : Option Text → Text → Status
status_of none expected = projection_missing
status_of (some actual) expected = if actual == expected then consistent else projection_mismatch

unfoldable pub reverse_audit : Authority → Files → Checked Audit
reverse_audit a files = do
  p ← replay a files.journal
  expected ← projection_bytes a p
  refuse (is_oversized files.projection) workflow_projection_quota
  audit_document a p (status_of files.projection expected)

-- `b"".join(_canonical_bytes(record) + b"\n" for record in records)`
unfoldable pub journal_text : List Record → Text
journal_text [] = []
journal_text (r ∷ rs) = canonical_text (record_document r) ++ b'\n' ∷ journal_text rs

-- `backup_document`
pub record Backup : Type 0 where
  pub schema_version : ℕ
  pub kind : Text
  pub owner_user_id : Text
  pub event_count : ℕ
  pub journal_sha256 : Text
  pub projection_sha256 : Text
  pub records : List Record

unfoldable pub record_items : List Record → Items
record_items [] = nil
record_items (r ∷ rs) = cons (record_document r) (record_items rs)

unfoldable pub backup_json : Backup → Json
backup_json b = obj (
    field (text "schema_version") (num b.schema_version) (
      field (text "kind") (str b.kind) (
        field (text "owner_user_id") (str b.owner_user_id) (
          field (text "event_count") (num b.event_count) (
            field (text "journal_sha256") (str b.journal_sha256) (
              field (text "projection_sha256") (str b.projection_sha256)
                (field (text "records") (arr (record_items b.records)) end)))))))

abbrev pub backup_kind : Text
backup_kind = text "workflow_authority_backup"

-- `_MAX_BACKUP_BYTES`
abbrev pub max_backup_bytes : ℕ
max_backup_bytes = 72 * 1024 * 1024

-- `backup`: the document that it writes. What it returns are members of the document and its digest.
unfoldable pub backup : Authority → Files → Checked Backup
backup a files = do
  p ← replay a files.journal
  content ← projection_bytes a p
  let document : Backup = record {
    schema_version = current_schema;
    kind = backup_kind;
    owner_user_id = a.owner_user_id;
    event_count = length files.journal;
    journal_sha256 = a.digests.sha256 (journal_text files.journal);
    projection_sha256 = a.digests.sha256 content;
    records = files.journal;
  }
  refuse (ltb max_backup_bytes (utf8_length (canonical_text (backup_json document))))
      workflow_backup_quota
  ok document

-- `_read_backup`, for a document that is read back from its canonical bytes
unfoldable pub read_backup : Authority → Backup → Checked Backup
read_backup a b = do
  check
      (b.schema_version == current_schema
        && b.kind == backup_kind
        && b.owner_user_id == a.owner_user_id
        && b.event_count == length b.records
        && safe_digest b.journal_sha256
        && safe_digest b.projection_sha256)
      workflow_backup_corrupt
  ok b

-- The files of the root that `restore` finds, where each may be absent.
pub record Root : Type 0 where
  pub journal : Option (List Record)
  pub projection : Option Text

pub record Restored : Type 0 where
  pub root : Root
  pub audit : Audit

unfoldable pub restore_into : Authority → Backup → Projection → Text → Root → Checked Restored
restore_into a b p content root = elim root.journal [
  | some existing ↦ do
    q ← replay a existing
    check (a.digests.sha256 (journal_text existing) == b.journal_sha256) workflow_restore_conflict
    existing_content ← projection_bytes a q
    check (a.digests.sha256 existing_content == b.projection_sha256) workflow_restore_conflict
    audit ← audit_document a q consistent
    ok (record {
      root = record { journal = some existing; projection = some existing_content };
      audit = audit;
    })
  | none ↦ elim root.projection [
    | some other ↦ err workflow_restore_conflict
    | none ↦ do
      audit ← audit_document a p consistent
      ok (record {
        root = record { journal = some b.records; projection = some content };
        audit = audit;
      })
  ]
]

unfoldable pub restore : Authority → Root → Backup → Checked Restored
restore a root source = do
  b ← read_backup a source
  p ← replay a b.records
  content ← projection_bytes a p
  check (a.digests.sha256 content == b.projection_sha256) workflow_backup_corrupt
  check (a.digests.sha256 (journal_text b.records) == b.journal_sha256) workflow_backup_corrupt
  restore_into a b p content root
