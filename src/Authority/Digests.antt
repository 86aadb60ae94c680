-- ===== src/Authority/Digests.antt =====
-- What the authority hashes: generated references, event ids, operation digests and the hash chain
-- of the journal. SHA-256 is a parameter.
use hermes_quant_agent.Prelude.{ℕ, ◌≡◌, ◌++◌, true, Text, text}
use hermes_quant_agent.Patterns.{safe_digest}
use hermes_quant_agent.Json.{Json, Items, num, str, arr, nil, cons, canonical_text}

-- `hashlib.sha256(text.encode("utf-8")).hexdigest()`, which is 64 hexadecimal digits.
pub record Digests : Type 0 where
  pub sha256 : Text → Text
  pub sha256_hex : (s : Text) → safe_digest (sha256 s) ≡ true

-- An authority: its owner, and the digests that it computes.
pub record Authority : Type 0 where
  pub owner_user_id : Text
  pub digests : Digests

-- `_sha256(_canonical_bytes(value))`
unfoldable pub digest_of : Digests → Json → Text
digest_of d value = d.sha256 (canonical_text value)

-- `_generated_ref`
unfoldable pub generated_ref : Digests → Text → Items → Text
unfolding digest_of
generated_ref d prefix parts = prefix ++ digest_of d (arr parts)

-- the task's reference, generated from the operation that starts it
unfoldable pub generated_task_ref : Authority → Text → Text → Text
unfolding generated_ref
generated_task_ref a operation_id operation_digest =
    generated_ref a.digests (text "task:")
      (cons (str a.owner_user_id) (cons (str operation_id) (cons (str operation_digest) nil)))

unfoldable pub generated_attempt_ref : Authority → Text → ℕ → Text → Text
unfolding generated_ref
generated_attempt_ref a task_ref number operation_digest =
    generated_ref a.digests (text "attempt:")
      (cons (str task_ref) (cons (num number) (cons (str operation_digest) nil)))
