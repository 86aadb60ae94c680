-- ===== src/Authority/Tombstones.antt =====
-- `_consume_expiry_tombstone`: its rounds. Each takes two locks, and another process may write before each of them.
use hermes_quant_agent.Prelude.{
  ℕ, zero, suc, ◌+◌, Bool, true, false, text_eq, option_eq, nat_eq, if◌then◌else◌,
}
use hermes_quant_agent.Prelude.Outcome.{ok, err, ◌>>=◌}
use hermes_quant_agent.Authority.Errors.{
  AuthorityError, Checked, workflow_stale_version, workflow_terminal_immutable,
  workflow_idempotency_conflict, workflow_expiry_requires_reconcile,
  workflow_expiry_requires_terminal,
}
use hermes_quant_agent.Authority.Store.{binding_eq}
use hermes_quant_agent.Authority.Digests.{Authority}
use hermes_quant_agent.Authority.Apply.{Files, Applied, apply}
use hermes_quant_agent.Authority.Contexts.{
  Evidence, Context, consumed, pending, expiry_operation_id, expiry_command, mutation_of,
  expiry_context,
}

-- `retryable_races`
abbrev pub is_race : AuthorityError → Bool
is_race workflow_stale_version = true
is_race workflow_terminal_immutable = true
is_race workflow_idempotency_conflict = true
is_race workflow_expiry_requires_reconcile = true
is_race workflow_expiry_requires_terminal = true
is_race _ = false

-- A race is tried again.
unfoldable pub unless_race : Checked Applied → Checked Applied → Checked Applied
unless_race (ok applied) again = ok applied
unless_race (err e) again = if is_race e then again else err e

-- What other processes do to the files before a lock, by its number, and what the clock then shows.
pub record Meanwhile : Type 0 where
  pub others : ℕ → Files → Files
  pub now : ℕ → ℕ

module _ (a : Authority) (meanwhile : Meanwhile) (e : Evidence) where
  -- A round after its context, with what the next rounds would do.
  unfoldable pub after_context : ℕ → Context → Files → (Files → Checked Applied) → Checked Applied
  after_context lock (consumed receipt) files again =
      ok (record { files = files; result = receipt })
  after_context lock (pending task_ref version terminalize) files again = do
    command ← expiry_command (expiry_operation_id a e) task_ref version terminalize (mutation_of e)
    let found = meanwhile.others lock files
    unless_race (apply a found command (meanwhile.now lock)) (again found)

  -- The loop of `_consume_expiry_tombstone`, with the rounds that are left and the number of the lock.
  unfoldable pub rounds : ℕ → ℕ → Files → Checked Applied
  rounds zero lock files = err workflow_stale_version
  rounds (suc n) lock files = do
    c ← expiry_context a (meanwhile.others lock files) e
    after_context (lock + 1) c.context c.files (rounds n (lock + 2))

-- `_consume_expiry_tombstone`: `range(4)`
unfoldable pub consume_expiry_tombstone : Authority → Meanwhile → Files → Evidence → Checked Applied
consume_expiry_tombstone a meanwhile files e = rounds a meanwhile e 4 0 files
