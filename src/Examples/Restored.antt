-- ===== src/Examples/Restored.antt =====
-- A backup of the files after a task's start, restored.
use hermes_quant_agent.Prelude.{true, ◌≡◌, refl, none}
use hermes_quant_agent.Prelude.Outcome.{ok, ◌>>=◌}
use hermes_quant_agent.Prelude.Ensures.{Ensures}
use hermes_quant_agent.Authority.Errors.{Checked}
use hermes_quant_agent.Authority.Backups.{
  Audited, binding_counts_of, audit_document, rebuild_projection, reverse_audit, journal_text,
  record_items, backup_json, backup, read_backup, Restored, restore_into, restore,
}
use hermes_quant_agent.Authority.Restoring.{RestoresTo, backup-RestoresTo, rebuild_projection-audit}
use hermes_quant_agent.Examples.Hash.{owner}
use hermes_quant_agent.Examples.Computing.{computing}
use hermes_quant_agent.Examples.Finished.{is_ok}
use hermes_quant_agent.Examples.Expired.{files_of, started_files}

backup_and_restore : Checked Restored
backup_and_restore = do
  b ← backup owner started_files
  restore owner (record { journal = none; projection = none }) b

restored-is_ok : is_ok backup_and_restore ≡ true
unfolding is_ok files_of started_files backup_and_restore binding_counts_of audit_document
    journal_text record_items backup_json backup read_backup restore_into restore computing
restored-is_ok = refl

backup-RestoresTo_example : Ensures (RestoresTo owner started_files) (backup owner started_files)
backup-RestoresTo_example = backup-RestoresTo owner started_files

rebuild_projection-audit_example :
    Ensures
      (λ (x : Audited).
        (x.files.journal ≡ started_files.journal) × (reverse_audit owner x.files ≡ ok x.audit))
      (rebuild_projection owner started_files)
rebuild_projection-audit_example = rebuild_projection-audit owner started_files
