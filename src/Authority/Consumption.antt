-- ===== src/Authority/Consumption.antt =====
-- What `_consume_expiry_tombstone` returns is recorded in the files that it leaves.
use hermes_quant_agent.Prelude.{
  ℕ, zero, suc, ◌+◌, ◌≡◌, refl, ap, ◌∙◌, Bool, true, false, Option, none, some, Text, text_eq,
  if◌then◌else◌,
}
use hermes_quant_agent.Prelude.Dict.{get}
use hermes_quant_agent.Prelude.Outcome.{ok, err}
use hermes_quant_agent.Prelude.Ensures.{Ensures, bind, done, fails, skip, branch}
use hermes_quant_agent.Contract.Command.{
  ExistingTask, ExpiryMutation, Command, expire_intent, observe_payload_tombstone,
}
use hermes_quant_agent.Contract.Validation.{Validated, Unicode, validate_expiry}
use hermes_quant_agent.Contract.Validity.{validate_on_task, validate_command}
use hermes_quant_agent.Authority.Errors.{Checked}
use hermes_quant_agent.Authority.Store.{
  Attempt, Task, Binding, observation_binding, Operation, Projection,
}
use hermes_quant_agent.Authority.Digests.{Authority}
use hermes_quant_agent.Authority.Journal.{replay}
use hermes_quant_agent.Authority.Apply.{
  Files, WorkflowReceipt, Applied, projection_bytes, repair_disposable_projection,
  canonical_command_digest, apply,
}
use hermes_quant_agent.Authority.Persisted.{IsPersisted, Repaired, repair-Repaired}
use hermes_quant_agent.Authority.Retries.{apply-IsPersisted}
use hermes_quant_agent.Authority.Contexts.{
  Evidence, Context, consumed, pending, InContext, checked_expiry, expiry_command, mutation_of,
  terminalizes, require_operation, expiry_receipt, pending_context, observed_context, only_match,
  matches, expiry_context,
}
use hermes_quant_agent.Authority.Tombstones.{
  is_race, unless_race, Meanwhile, after_context, rounds, consume_expiry_tombstone,
}

-- The projection holds the receipt.
pub record HoldsReceipt (p : Projection) (receipt : WorkflowReceipt) : Type 0 where
  pub operation_id : Text
  pub operation : Operation
  pub found : get operation_id p.operations ≡ some operation
  pub same : operation.receipt ≡ receipt.receipt

-- The files are read back to a projection that the projection's file holds.
pub record IsReadBack (a : Authority) (files : Files) (p : Projection) : Type 0 where
  pub replayed : replay a files.journal ≡ ok p
  pub content : Text
  pub bytes : projection_bytes a p ≡ ok content
  pub published : files.projection ≡ some content

-- What the consumption of one evidence leaves.
pub record IsConsumed (a : Authority) (x : Applied) : Type 0 where
  pub p : Projection
  pub files : IsReadBack a x.files p
  pub receipt : HoldsReceipt p x.result

no_characters : Unicode
no_characters = record { is_space = λ c. false; is_printable = λ c. false }

checked_expiry-ok : (v : Validated) → checked_expiry v ≡ ok tt → v ≡ ok tt
unfolding checked_expiry
checked_expiry-ok (ok _) h = refl
checked_expiry-ok (err v) h = cc

on_task-valid :
    (u : Unicode) (id : Text) (task : ExistingTask) (terminalize : Bool) (d : ExpiryMutation)
    → validate_expiry id task d ≡ ok tt
    → validate_on_task u id task
        (if terminalize then expire_intent d else observe_payload_tombstone d)
      ≡ ok tt
unfolding validate_on_task
on_task-valid u id task true d h = h
on_task-valid u id task false d h = h

expiry_command-valid :
    (u : Unicode) (id task_ref : Text) (version : ℕ) (terminalize : Bool) (d : ExpiryMutation)
    → Ensures
        (λ (c : Command). validate_command u c ≡ ok tt)
        (expiry_command id task_ref version terminalize d)
unfolding expiry_command validate_command
expiry_command-valid u id task_ref version terminalize d =
    bind (checked_expiry _) _
      λ t h. done (on_task-valid u id _ terminalize d (checked_expiry-ok _ h))

require_operation-some :
    (o : Option Operation) → Ensures (λ (x : Operation). o ≡ some x) (require_operation o)
unfolding require_operation
require_operation-some none = fails
require_operation-some (some o) = done refl

module _ (a : Authority) (e : Evidence) where
  expiry_receipt-HoldsReceipt :
      (p : Projection) (task : Task) (attempt : Attempt) (op op_digest id kind : Text)
      → Ensures (HoldsReceipt p) (expiry_receipt a p task attempt e op op_digest id kind)
  unfolding expiry_receipt
  expiry_receipt-HoldsReceipt p task attempt op op_digest id kind =
      bind (require_operation _) _ λ o found. skip _ _ (
        bind (terminalizes kind) _ λ terminal _. bind (expiry_command _ _ _ _ _) _ λ command _.
          skip _ _ (
            done (record {
              operation_id = op;
              operation = o;
              found = (require_operation-some _).returns o found;
              same = refl;
            })))

  -- A receipt that a context has is held.
  unfoldable InProjection : Projection → Context → Type 0
  InProjection p (consumed receipt) = HoldsReceipt p receipt
  InProjection p (pending task_ref version terminalize) = Unit

  observed_context-InProjection :
      (p : Projection) (task : Task) (attempt : Attempt) (o : Option Binding)
      → Ensures (InProjection p) (observed_context a p task attempt e o)
  unfolding observed_context pending_context InProjection
  observed_context-InProjection p task attempt none = skip _ _ (skip _ _ (done tt))
  observed_context-InProjection p task attempt
        (some (
          observation_binding owner workspace session task_ref ref payload event digest op op_digest
            id kind)) =
      skip _ _ (
        bind (expiry_receipt a p task attempt e op op_digest id kind) _ λ receipt h.
          done
            ((expiry_receipt-HoldsReceipt p task attempt op op_digest id kind).returns receipt h))
  observed_context-InProjection p task attempt (some _) = fails

  -- The files after a context, and its receipt.
  record IsContext (c : InContext) : Type 0 where
    p : Projection
    files : IsReadBack a c.files p
    context : InProjection p c.context

  expiry_context-IsContext : (files : Files) → Ensures IsContext (expiry_context a files e)
  unfolding expiry_context
  expiry_context-IsContext files = bind (replay a files.journal) _ λ p accepted.
      bind (repair_disposable_projection a files p) _ λ repaired r.
        bind (only_match (matches e.attempt_ref p.tasks)) _ λ (task, attempt) _. skip _ _ (
          skip _ _ (
            bind (observed_context a p task attempt e _) _ λ c h.
              let k : Repaired a files p repaired = repair-Repaired a files p r in
              done (record {
                p = p;
                files = record {
                  replayed = ap (λ (z : Files). replay a z.journal) k.files_eq ∙ accepted;
                  content = k.content;
                  bytes = k.bytes;
                  published = ap (λ (z : Files). z.projection) k.files_eq;
                };
                context = (observed_context-InProjection p task attempt _).returns c h;
              })))

  -- A mutation that is accepted at once is recorded.
  apply-IsConsumed :
      (files : Files) (command : Command) (now : ℕ)
      → validate_command no_characters command ≡ ok tt
      → Ensures (IsConsumed a) (apply a files command now)
  apply-IsConsumed files command now valid = record {
    returns = λ x h.
        let k : IsPersisted a command (canonical_command_digest a.digests command) x =
          apply-IsPersisted a files no_characters command now x valid h in
        record {
          p = k.p;
          files = record {
            replayed = k.replayed;
            content = k.content;
            bytes = k.bytes;
            published = k.published;
          };
          receipt = record {
            operation_id = command.operation_id;
            operation = _;
            found = k.operation;
            same = refl;
          };
        };
  }

  unless_race-Ensures :
      {P : Applied → Type 0} (m again : Checked Applied)
      → Ensures P m
      → Ensures P again
      → Ensures P (unless_race m again)
  unfolding unless_race
  unless_race-Ensures (ok x) again h k = h
  unless_race-Ensures (err c) again h k = branch (is_race c) again (err c) (λ _. k) (λ _. fails)

  module _ (meanwhile : Meanwhile) where
    after_context-IsConsumed :
        (lock : ℕ) (p : Projection) (c : Context) (files : Files) (again : Files → Checked Applied)
        → IsReadBack a files p
        → InProjection p c
        → ((others : Files) → Ensures (IsConsumed a) (again others))
        → Ensures (IsConsumed a) (after_context a meanwhile e lock c files again)
    unfolding after_context InProjection
    after_context-IsConsumed lock p (consumed receipt) files again h held k =
        done (record { p = p; files = h; receipt = held })
    after_context-IsConsumed lock p (pending task_ref version terminalize) files again h held k =
        bind (expiry_command _ task_ref version terminalize (mutation_of e)) _ λ command m.
          unless_race-Ensures _ _
            (apply-IsConsumed _ command _ (
              (expiry_command-valid no_characters _ task_ref version terminalize _).returns command
                m))
            (k _)

    rounds-IsConsumed :
        (n lock : ℕ) (files : Files) → Ensures (IsConsumed a) (rounds a meanwhile e n lock files)
    unfolding rounds
    rounds-IsConsumed zero lock files = fails
    rounds-IsConsumed (suc n) lock files =
        bind (expiry_context a (meanwhile.others lock files) e) _ λ c h.
          let k = (expiry_context-IsContext (meanwhile.others lock files)).returns c h in
          after_context-IsConsumed (lock + 1) k.p c.context c.files
            (rounds a meanwhile e n (lock + 2)) k.files k.context (rounds-IsConsumed n (lock + 2))

-- Whatever other processes do to the files before each lock, when consume_expiry_tombstone
-- returns, the journal that it leaves is accepted by replay, the projection file holds the bytes
-- of the replayed projection, and that projection holds the receipt that was returned.
pub consume_expiry_tombstone-IsConsumed :
    (a : Authority) (meanwhile : Meanwhile) (files : Files) (e : Evidence)
    → Ensures (IsConsumed a) (consume_expiry_tombstone a meanwhile files e)
unfolding consume_expiry_tombstone
consume_expiry_tombstone-IsConsumed a meanwhile files e = rounds-IsConsumed a e meanwhile 4 0 files
