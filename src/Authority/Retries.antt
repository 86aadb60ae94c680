-- ===== src/Authority/Retries.antt =====
-- `apply`: a retry, a reused operation id, and what is appended to the journal.
use hermes_quant_agent.Prelude.{
  ℕ, [], ◌∷◌, ◌++◌, true, false, ◌≡◌, ◌≢◌, ◌⊎◌, inl, inr, refl, sym, ap, ◌∙◌, arith, Option, none,
  some, Text, text_eq,
}
use hermes_quant_agent.Prelude.Dict.{get}
use hermes_quant_agent.Prelude.Outcome.{ok, err, ◌>>=◌, >>=-ok, >>=-eq-ok}
use hermes_quant_agent.Prelude.Ensures.{Ensures, bind, done, skip}
use hermes_quant_agent.Patterns.{safe_digest}
use hermes_quant_agent.Contract.Command.{Command}
use hermes_quant_agent.Contract.Validation.{Unicode}
use hermes_quant_agent.Contract.Validity.{validate_command}
use hermes_quant_agent.Authority.Errors.{Checked, workflow_idempotency_conflict}
use hermes_quant_agent.Authority.Event.{Record}
use hermes_quant_agent.Authority.Store.{Receipt, Operation, Projection}
use hermes_quant_agent.Authority.Digests.{Authority, digest_of}
use hermes_quant_agent.Authority.Reduce.{receipt_of}
use hermes_quant_agent.Authority.Journal.{replay}
use hermes_quant_agent.Authority.Apply.{
  Files, Applied, apply_new, apply_again, apply_command, canonical_command_digest, apply,
}
use hermes_quant_agent.Authority.Persisted.{
  IsPersisted, apply_command-IsPersisted, append_record-eq, Repaired, repair-Repaired,
}
use hermes_quant_agent.Authority.Replayed.{apply_command-retry}

digest-safe :
    (a : Authority) (c : Command) → safe_digest (canonical_command_digest a.digests c) ≡ true
unfolding canonical_command_digest digest_of
digest-safe a c = a.digests.sha256_hex _

-- A valid command that apply accepted can be sent again, at any instant, to the files that it
-- left: the files do not change and the first receipt is returned, marked as replayed.
pub apply-retry :
    (a : Authority) (files : Files) (u : Unicode) (c : Command) (now later : ℕ) (x : Applied)
    → validate_command u c ≡ ok tt
    → apply a files c now ≡ ok x
    → apply a x.files c later
      ≡ ok (record {
        files = x.files;
        result = record { receipt = x.result.receipt; replayed = true };
      })
unfolding apply
apply-retry a files u c now later x valid h =
    apply_command-retry a files u c _ now later x valid (digest-safe a c) h

-- The journal that an accepted valid command leaves is accepted by replay, the projection file
-- holds exactly the bytes of the replayed projection, and that projection holds the receipt that
-- was returned, under the command's digest.
pub apply-IsPersisted :
    (a : Authority) (files : Files) (u : Unicode) (c : Command) (now : ℕ) (x : Applied)
    → validate_command u c ≡ ok tt
    → apply a files c now ≡ ok x
    → IsPersisted a c (canonical_command_digest a.digests c) x
unfolding apply
apply-IsPersisted a files u c now x valid h =
    apply_command-IsPersisted a files u c _ now x valid (digest-safe a c) h

again_conflict :
    (a : Authority) (files : Files) (p : Projection) (o : Operation) (digest : Text)
    → o.operation_digest ≢ digest
    → apply_again a files p o digest ≡ err workflow_idempotency_conflict
unfolding apply_again ◌>>=◌
again_conflict a files p o digest h = ground arith

either_conflict :
    (a : Authority) (files : Files) (p : Projection) (c : Command) (digest other : Text) (now : ℕ)
    (receipt : Receipt) (o : Option Operation)
    → o ≡ some (record { operation_digest = digest; receipt = receipt })
    → digest ≢ other
    → elim o as (λ z. Checked Applied) [
      | some existing ↦ apply_again a files p existing other
      | none ↦ apply_new a files p c other now
    ]
      ≡ err workflow_idempotency_conflict
either_conflict a files p c digest other now receipt none e h = cc
either_conflict a files p c digest other now receipt (some existing) e h =
    let same : existing.operation_digest ≡ digest = cc in
    again_conflict a files p existing other (λ k. h (sym same ∙ k))

-- A command that is sent to the files that an accepted valid command left, with the same operation
-- id but another digest, is refused with workflow_idempotency_conflict.
pub apply-conflict :
    (a : Authority) (files : Files) (u : Unicode) (c d : Command) (now later : ℕ) (x : Applied)
    → validate_command u c ≡ ok tt
    → apply a files c now ≡ ok x
    → d.operation_id ≡ c.operation_id
    → canonical_command_digest a.digests c ≢ canonical_command_digest a.digests d
    → apply a x.files d later ≡ err workflow_idempotency_conflict
unfolding apply apply_command
apply-conflict a files u c d now later x valid h id other =
    let k : IsPersisted a c (canonical_command_digest a.digests c) x =
      apply_command-IsPersisted a files u c _ now x valid (digest-safe a c) h in
    >>=-ok (replay a x.files.journal) _ k.replayed (
      either_conflict a x.files k.p d (canonical_command_digest a.digests c) _ later
        x.result.receipt _ (ap (λ (i : Text). get i k.p.operations) id ∙ k.operation) other)

abbrev AppendedTo : Files → Applied → Type 0
AppendedTo files x =
    (x.files.journal ≡ files.journal × x.result.replayed ≡ true)
    ⊎ ((r : Record) × (x.files.journal ≡ files.journal ++ r ∷ [])
        × (x.result ≡ record { receipt = receipt_of r; replayed = false }))

new_appended :
    (a : Authority) (files : Files) (p : Projection) (c : Command) (digest : Text) (now : ℕ)
    → Ensures (AppendedTo files) (apply_new a files p c digest now)
unfolding apply_new
new_appended a files p c digest now = skip _ _ (
    bind _ _ λ r _. bind _ _ λ q _.
      bind _ _
        λ content _. bind _ _ λ journal h. done (inr (r, append_record-eq r files.journal h, refl)))

again_appended :
    (a : Authority) (files : Files) (p : Projection) (o : Operation) (digest : Text)
    → Ensures (AppendedTo files) (apply_again a files p o digest)
unfolding apply_again
again_appended a files p o digest = skip _ _ (
    bind _ _ λ out h. done (
      let k : Repaired a files p out = repair-Repaired a files p h in
      inl (ap (λ (z : Files). z.journal) k.files_eq, refl)))

either_appended :
    (a : Authority) (files : Files) (p : Projection) (c : Command) (digest : Text) (now : ℕ)
    (o : Option Operation)
    → Ensures (AppendedTo files) (elim o [
      | some existing ↦ apply_again a files p existing digest
      | none ↦ apply_new a files p c digest now
    ])
either_appended a files p c digest now none = new_appended a files p c digest now
either_appended a files p c digest now (some o) = again_appended a files p o digest

-- An accepted command either leaves the journal as it is and says that it was replayed, or adds
-- one record at the end and returns the receipt of that record.
pub apply-appends :
    (a : Authority) (files : Files) (c : Command) (now : ℕ) (x : Applied)
    → apply a files c now ≡ ok x
    → (x.files.journal ≡ files.journal × x.result.replayed ≡ true)
      ⊎ ((r : Record) × (x.files.journal ≡ files.journal ++ r ∷ [])
          × (x.result ≡ record { receipt = receipt_of r; replayed = false }))
unfolding apply apply_command
apply-appends a files c now x h =
    let (p, accepted, rest) = >>=-eq-ok (replay a files.journal) _ h in
    (either_appended a files p c _ now (get c.operation_id p.operations)).returns x rest
