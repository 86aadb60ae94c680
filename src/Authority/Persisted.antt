-- ===== src/Authority/Persisted.antt =====
-- What `_apply_command` leaves in the files, and what a retry of it returns.
use hermes_quant_agent.Prelude.{
  ℕ, ◌+◌, ◌≤◌, List, [], ◌∷◌, ◌++◌, true, false, false, ◌≡◌, refl, sym, ap, ◌∙◌, arith, Option,
  none, some, Text, text_eq, leb, length, ◌==◌,
}
use hermes_quant_agent.Prelude.Dict.{get, get-put_self}
use hermes_quant_agent.Prelude.Outcome.{refuse, ok, ◌>>=◌, >>=-eq-ok}
use hermes_quant_agent.Prelude.Ensures.{Ensures, bind, done, checked, refused}
use hermes_quant_agent.Patterns.{safe_digest}
use hermes_quant_agent.Contract.Command.{Command}
use hermes_quant_agent.Contract.Validation.{Unicode}
use hermes_quant_agent.Contract.Validity.{validate_command}
use hermes_quant_agent.Authority.Event.{Record}
use hermes_quant_agent.Authority.Store.{Operation, Projection}
use hermes_quant_agent.Authority.Errors.{workflow_projection_quota}
use hermes_quant_agent.Authority.Digests.{Authority}
use hermes_quant_agent.Authority.TaskEvents.{Change}
use hermes_quant_agent.Authority.Reduce.{reduce, commit, receipt_of}
use hermes_quant_agent.Authority.Journal.{
  Draft, build_record, unhashed_record, is_valid_record, replay,
}
use hermes_quant_agent.Authority.Apply.{
  max_events, is_oversized, Files, projection_bytes, append_record, repair_disposable_projection,
  Applied, apply_new, apply_again, apply_command,
}
use hermes_quant_agent.Authority.Receipts.{Reduced, reduce-Reduced, chain_end, chain_end-none}
use hermes_quant_agent.Authority.Versions.{version_of, count_for, replay-version, count_for-bound}
use hermes_quant_agent.Authority.Recorded.{build_record-is_valid_record, replay_from-snoc}
use hermes_quant_agent.Authority.Drafting.{replay-IsKept, Drafted, command_record-Drafted}

-- The files that a successful command leaves: the journal is accepted again, the projection's file
-- holds the journal's projection, and that holds the receipt that was returned.
pub record IsPersisted (a : Authority) (c : Command) (digest : Text) (x : Applied) : Type 0 where
  pub p : Projection
  pub replayed : replay a x.files.journal ≡ ok p
  pub content : Text
  pub bytes : projection_bytes a p ≡ ok content
  pub published : x.files.projection ≡ some content
  pub operation :
      get c.operation_id p.operations
      ≡ some (record { operation_digest = digest; receipt = x.result.receipt })

commit-operation :
    (p : Projection) (r : Record) (c : Change)
    → get r.operation_id (commit p r c).operations
      ≡ some (record { operation_digest = r.operation_digest; receipt = receipt_of r })
unfolding commit
commit-operation p r c = get-put_self r.operation_id _ p.operations

built-operation :
    (a : Authority) (d : Draft)
    → ((build_record a d).operation_id ≡ d.operation_id)
      × ((build_record a d).operation_digest ≡ d.operation_digest)
unfolding build_record unhashed_record
built-operation a d = (refl, refl)

-- What a repair leaves.
pub record Repaired (a : Authority) (files : Files) (p : Projection) (out : Files) : Type 0 where
  pub content : Text
  pub bytes : projection_bytes a p ≡ ok content
  pub files_eq : out ≡ record files { projection = some content }

pub repair-Repaired :
    (a : Authority) (files : Files) (p : Projection) {out : Files}
    → repair_disposable_projection a files p ≡ ok out
    → Repaired a files p out
unfolding repair_disposable_projection
repair-Repaired a files p h =
    let (content, bytes, rest) = >>=-eq-ok (projection_bytes a p) _ h in
    let (_, _, last) =
      >>=-eq-ok (refuse (is_oversized files.projection) workflow_projection_quota) _ rest in
    record { content = content; bytes = bytes; files_eq = cc }

-- The bytes of a projection are within the limit of its file.
pub projection_bytes-small :
    (a : Authority) (p : Projection) (content : Text)
    → projection_bytes a p ≡ ok content
    → is_oversized (some content) ≡ false
unfolding projection_bytes is_oversized
projection_bytes-small a p content h = ground (arith, h)

same_operation :
    (o : Operation) (digest : Text)
    → (o.operation_digest == digest) ≡ true
    → o ≡ record { operation_digest = digest; receipt = o.receipt }
same_operation o digest h =
    let e : o.operation_digest ≡ digest = ground arith in
    ap (λ (g : Text). record { operation_digest = g; receipt = o.receipt }) e

pub append_record-eq :
    (r : Record) (journal : List Record) {out : List Record}
    → append_record r journal ≡ ok out
    → out ≡ journal ++ r ∷ []
unfolding append_record ◌>>=◌
append_record-eq r journal h = ground arith

module _ (a : Authority) (files : Files) (p : Projection) (u : Unicode) (c : Command)
    (digest : Text) (now : ℕ) (accepted : replay a files.journal ≡ ok p)
    (valid : validate_command u c ≡ ok tt) (safe : safe_digest digest ≡ true) where
  versions_bounded :
      leb max_events (length files.journal) ≡ false
      → (ref : Text) → version_of (get ref p.tasks) ≤ max_events
  versions_bounded quota ref =
      let counted : version_of (get ref p.tasks) ≡ count_for ref files.journal =
        replay-version a files.journal ref accepted in
      ground (arith, count_for-bound ref files.journal)

  snoc_accepted :
      (r : Record) (q : Projection)
      → Drafted a files.journal c digest r
      → reduce a p r ≡ ok q
      → replay a (files.journal ++ r ∷ []) ≡ ok q
  unfolding replay
  snoc_accepted r q d reduced =
      let ends : d.draft.previous_record_sha256 ≡ chain_end none files.journal =
        d.previous ∙ sym (chain_end-none files.journal) in
      let at : d.draft.sequence ≡ 1 + length files.journal = omega (arith, d.sequence) in
      let own : is_valid_record a (build_record a d.draft) d.draft.sequence
            d.draft.previous_record_sha256
          ≡ true =
        build_record-is_valid_record a d.draft d.well in
      replay_from-snoc a _ 1 none files.journal r accepted (rw (d.built, sym at, sym ends) own)
        reduced

  operation_kept :
      (r : Record) (q : Projection)
      → Drafted a files.journal c digest r
      → reduce a p r ≡ ok q
      → get c.operation_id q.operations
        ≡ some (record { operation_digest = digest; receipt = receipt_of r })
  operation_kept r q d reduced =
      let k : Reduced a p r q = reduce-Reduced a p r reduced in
      let id : r.operation_id ≡ c.operation_id =
        ap (λ (z : Record). z.operation_id) d.built
        ∙ (built-operation a d.draft).0
        ∙ d.operation_id in
      let same : r.operation_digest ≡ digest =
        ap (λ (z : Record). z.operation_digest) d.built
        ∙ (built-operation a d.draft).1
        ∙ d.operation_digest in
      ap (λ (i : Text). get i q.operations) (sym id)
      ∙ ap (λ (z : Projection). get r.operation_id z.operations) k.result
      ∙ commit-operation p r k.change
      ∙ ap (λ (g : Text). some (record { operation_digest = g; receipt = receipt_of r })) same

  new-IsPersisted : Ensures (IsPersisted a c digest) (apply_new a files p c digest now)
  unfolding apply_new
  new-IsPersisted = refused _ _ _ λ quota. bind _ _ λ r drafted. bind _ _ λ q reduced.
      bind _ _ λ content bytes. bind _ _ λ journal appended. done (
        let d : Drafted a files.journal c digest r =
          command_record-Drafted a files.journal p u c digest now
            (replay-IsKept a files.journal accepted).indexed (versions_bounded quota) valid safe
            drafted in
        record {
          p = q;
          replayed = rw (append_record-eq r files.journal appended) (snoc_accepted r q d reduced);
          content = content;
          bytes = bytes;
          published = refl;
          operation = operation_kept r q d reduced;
        })

  again-IsPersisted :
      (existing : Operation)
      → get c.operation_id p.operations ≡ some existing
      → Ensures (IsPersisted a c digest) (apply_again a files p existing digest)
  unfolding apply_again
  again-IsPersisted existing found = checked _ _ _ λ same. bind _ _ λ out h. done (
      let k : Repaired a files p out = repair-Repaired a files p h in
      record {
        p = p;
        replayed = ap (λ (z : Files). replay a z.journal) k.files_eq ∙ accepted;
        content = k.content;
        bytes = k.bytes;
        published = ap (λ (z : Files). z.projection) k.files_eq;
        operation = found ∙ ap some (same_operation existing digest same);
      })

  either-IsPersisted :
      (o : Option Operation)
      → get c.operation_id p.operations ≡ o
      → Ensures (IsPersisted a c digest) (elim o [
        | some existing ↦ apply_again a files p existing digest
        | none ↦ apply_new a files p c digest now
      ])
  either-IsPersisted none h = new-IsPersisted
  either-IsPersisted (some existing) h = again-IsPersisted existing h

-- A valid command that is applied leaves files that are read back to the projection that holds its
-- receipt, whether it is new or replayed.
pub apply_command-IsPersisted :
    (a : Authority) (files : Files) (u : Unicode) (c : Command) (digest : Text) (now : ℕ)
    (x : Applied)
    → validate_command u c ≡ ok tt
    → safe_digest digest ≡ true
    → apply_command a files c digest now ≡ ok x
    → IsPersisted a c digest x
unfolding apply_command
apply_command-IsPersisted a files u c digest now x valid safe h =
    let (p, accepted, rest) = >>=-eq-ok (replay a files.journal) _ h in
    (either-IsPersisted a files p u c digest now accepted valid safe _ refl).returns x rest
