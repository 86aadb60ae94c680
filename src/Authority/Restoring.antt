-- ===== src/Authority/Restoring.antt =====
-- Backups restore to what they were made of, and a rebuilt projection passes the audit.
use hermes_quant_agent.Prelude.{
  ◌≡◌, refl, ap, ◌∙◌, arith, List, Bool, true, false, Option, none, some, Text, text_eq, nat_eq,
  ◌==◌, length,
}
use hermes_quant_agent.Prelude.Outcome.{refuse, ok, check, >>=-ok}
use hermes_quant_agent.Prelude.Ensures.{Ensures, bind, done, refused}
use hermes_quant_agent.Authority.Errors.{AuthorityError}
use hermes_quant_agent.Authority.Event.{Record}
use hermes_quant_agent.Authority.Store.{Projection}
use hermes_quant_agent.Authority.Digests.{Authority}
use hermes_quant_agent.Authority.Journal.{replay, current_schema}
use hermes_quant_agent.Authority.Apply.{Files, projection_bytes}
use hermes_quant_agent.Authority.Persisted.{projection_bytes-small}
use hermes_quant_agent.Authority.Backups.{
  Status, consistent, Audit, Audited, audit_document, rebuild_projection, status_of, reverse_audit,
  journal_text, Backup, backup_kind, backup, read_backup, Root, Restored, restore_into, restore,
}

same_text : (s : Text) → (s == s) ≡ true
same_text s = ground arith

check-ok : (c : Bool) (e : AuthorityError) → c ≡ true → check c e ≡ ok tt
check-ok true e h = refl
check-ok false e h = cc

-- The audit of the projection with the bytes.
audit_with-eq-ok :
    (a : Authority) (p : Projection) (content : Text)
    → projection_bytes a p ≡ ok content
    → (audit : Audit) × (audit_document a p consistent ≡ ok audit)
unfolding audit_document
audit_with-eq-ok a p content bytes = (_, >>=-ok (projection_bytes a p) _ bytes refl)

refuse-ok : (c : Bool) (e : AuthorityError) → c ≡ false → refuse c e ≡ ok tt
refuse-ok true e h = cc
refuse-ok false e h = refl

-- The document that `backup` makes.
abbrev document : Authority → List Record → Text → Backup
document a journal content = record {
  schema_version = current_schema;
  kind = backup_kind;
  owner_user_id = a.owner_user_id;
  event_count = length journal;
  journal_sha256 = a.digests.sha256 (journal_text journal);
  projection_sha256 = a.digests.sha256 content;
  records = journal;
}

-- What `restore` leaves and returns.
abbrev pub restored : List Record → Text → Audit → Restored
restored journal content audit = record {
  root = record { journal = some journal; projection = some content };
  audit = audit;
}

status_of-same : (content : Text) → status_of (some content) content ≡ consistent
unfolding status_of
status_of-same content = ground (arith, same_text content)

module _ (a : Authority) (journal : List Record) (p : Projection) (content : Text)
    (accepted : replay a journal ≡ ok p) (bytes : projection_bytes a p ≡ ok content) where
  read_backup-document :
      read_backup a (document a journal content) ≡ ok (document a journal content)
  unfolding read_backup
  read_backup-document =
      >>=-ok _ _
        (check-ok _ _ (
          ground (
            arith,
            a.digests.sha256_hex (journal_text journal),
            a.digests.sha256_hex content,
            same_text a.owner_user_id,
            same_text backup_kind,
          )))
        refl

  restore_into-absent :
      (audit : Audit)
      → audit_document a p consistent ≡ ok audit
      → restore_into a
          (document a journal content)
          p
          content
          (record { journal = none; projection = none })
        ≡ ok (restored journal content audit)
  unfolding restore_into
  restore_into-absent audit h = >>=-ok _ _ h refl

  restore_into-same :
      (audit : Audit) (projection : Option Text)
      → audit_document a p consistent ≡ ok audit
      → restore_into a
          (document a journal content)
          p
          content
          (record { journal = some journal; projection = projection })
        ≡ ok (restored journal content audit)
  unfolding restore_into
  restore_into-same audit projection h = >>=-ok _ _ accepted (
      >>=-ok _ _ (check-ok _ _ (same_text _))
        (>>=-ok _ _ bytes (>>=-ok _ _ (check-ok _ _ (same_text _)) (>>=-ok _ _ h refl))))

  restore-document :
      (root : Root) {r : Restored}
      → restore_into a (document a journal content) p content root ≡ ok r
      → restore a root (document a journal content) ≡ ok r
  unfolding restore
  restore-document root h = >>=-ok _ _ read_backup-document (
      >>=-ok _ _ accepted (
        >>=-ok _ _ bytes
          (>>=-ok _ _ (check-ok _ _ (same_text _)) (>>=-ok _ _ (check-ok _ _ (same_text _)) h))))

-- What a backup restores to: the journal with the bytes of its projection, in an empty root, and in one that has
-- the journal with any projection file.
pub record RestoresTo (a : Authority) (files : Files) (b : Backup) : Type 0 where
  pub p : Projection
  pub accepted : replay a files.journal ≡ ok p
  pub content : Text
  pub bytes : projection_bytes a p ≡ ok content
  pub audit : Audit
  pub absent :
      restore a (record { journal = none; projection = none }) b
      ≡ ok (restored files.journal content audit)
  pub same :
      (projection : Option Text)
      → restore a (record { journal = some files.journal; projection = projection }) b
        ≡ ok (restored files.journal content audit)

-- A backup of files restores to the journal of those files with the bytes of its projection, both
-- in an empty root and in a root that holds the same journal with any projection file or none.
pub backup-RestoresTo :
    (a : Authority) (files : Files) → Ensures (RestoresTo a files) (backup a files)
unfolding backup
backup-RestoresTo a files = bind (replay a files.journal) _ λ p accepted.
    bind (projection_bytes a p) _ λ content bytes. refused _ _ _ λ small.
      let (audit, audited) = audit_with-eq-ok a p content bytes in
      done (record {
        p = p;
        accepted = accepted;
        content = content;
        bytes = bytes;
        audit = audit;
        absent =
            restore-document a files.journal p content accepted bytes _
              (restore_into-absent a files.journal p content accepted bytes audit audited);
        same = λ projection.
            restore-document a files.journal p content accepted bytes _
              (restore_into-same a files.journal p content accepted bytes audit projection audited);
      })

-- The files that rebuild_projection leaves have the journal that it found, and reverse_audit
-- returns for them the audit that rebuild_projection returned.
pub rebuild_projection-audit :
    (a : Authority) (files : Files)
    → Ensures
        (λ (x : Audited).
          (x.files.journal ≡ files.journal) × (reverse_audit a x.files ≡ ok x.audit))
        (rebuild_projection a files)
unfolding rebuild_projection reverse_audit status_of
rebuild_projection-audit a files = bind (replay a files.journal) _ λ p accepted.
    bind (projection_bytes a p) _ λ content bytes.
      bind (audit_document a p consistent) _ λ audit audited. done (
        refl,
        >>=-ok _ _ accepted (
            >>=-ok _ _ bytes (
              >>=-ok _ _ (refuse-ok _ _ (projection_bytes-small a p content bytes))
                (ap (λ (z : Status). audit_document a p z) (status_of-same content) ∙ audited))),
      )
