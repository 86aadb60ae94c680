-- ===== src/Authority/Replayed.antt =====
-- A command that was applied, sent again.
use hermes_quant_agent.Prelude.{
  false, sym, subst, ℕ, true, ◌≡◌, ap, ◌∙◌, arith, Option, none, some, Text, text_eq,
}
use hermes_quant_agent.Prelude.Outcome.{ok, ◌>>=◌, >>=-ok}
use hermes_quant_agent.Patterns.{safe_digest}
use hermes_quant_agent.Contract.Command.{Command}
use hermes_quant_agent.Contract.Validation.{Unicode}
use hermes_quant_agent.Contract.Validity.{validate_command}
use hermes_quant_agent.Authority.Errors.{Checked}
use hermes_quant_agent.Authority.Store.{Receipt, Operation, Projection}
use hermes_quant_agent.Authority.Digests.{Authority}
use hermes_quant_agent.Authority.Journal.{replay}
use hermes_quant_agent.Authority.Apply.{
  is_oversized, Files, projection_bytes, repair_disposable_projection, Applied, apply_new,
  apply_again, apply_command,
}
use hermes_quant_agent.Authority.Persisted.{
  projection_bytes-small, IsPersisted, apply_command-IsPersisted,
}

again_ok :
    (a : Authority) (files : Files) (p : Projection) (receipt : Receipt) (digest content : Text)
    → projection_bytes a p ≡ ok content
    → files.projection ≡ some content
    → apply_again a files p (record { operation_digest = digest; receipt = receipt }) digest
      ≡ ok (record { files = files; result = record { receipt = receipt; replayed = true } })
unfolding apply_again repair_disposable_projection ◌>>=◌
again_ok a files p receipt digest content h k =
    let small : is_oversized files.projection ≡ false =
      subst (λ (o : Option Text). is_oversized o ≡ false) (sym k)
        (projection_bytes-small a p content h) in
    ground (arith, h, k, small)

either_again :
    (a : Authority) (files : Files) (p : Projection) (c : Command) (digest : Text) (now : ℕ)
    (receipt : Receipt) (content : Text) (o : Option Operation)
    → projection_bytes a p ≡ ok content
    → files.projection ≡ some content
    → o ≡ some (record { operation_digest = digest; receipt = receipt })
    → elim o as (λ z. Checked Applied) [
      | some existing ↦ apply_again a files p existing digest
      | none ↦ apply_new a files p c digest now
    ]
      ≡ ok (record { files = files; result = record { receipt = receipt; replayed = true } })
either_again a files p c digest now receipt content none h k e = cc
either_again a files p c digest now receipt content (some existing) h k e =
    let same : existing ≡ record { operation_digest = digest; receipt = receipt } = cc in
    ap (λ (z : Operation). apply_again a files p z digest) same
    ∙ again_ok a files p receipt digest content h k

-- A command that was applied can be sent again, at any time: the files stay as they are, and the
-- receipt is the first one, marked as replayed.
pub apply_command-retry :
    (a : Authority) (files : Files) (u : Unicode) (c : Command) (digest : Text) (now later : ℕ)
    (x : Applied)
    → validate_command u c ≡ ok tt
    → safe_digest digest ≡ true
    → apply_command a files c digest now ≡ ok x
    → apply_command a x.files c digest later
      ≡ ok (record {
        files = x.files;
        result = record { receipt = x.result.receipt; replayed = true };
      })
unfolding apply_command
apply_command-retry a files u c digest now later x valid safe h =
    let k : IsPersisted a c digest x =
      apply_command-IsPersisted a files u c digest now x valid safe h in
    >>=-ok (replay a x.files.journal) _ k.replayed (
      either_again a x.files k.p c digest later x.result.receipt k.content _ k.bytes k.published
        k.operation)
