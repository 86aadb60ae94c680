-- ===== src/Examples/Expired.antt =====
-- The batch of Authority/Batches at the payload of an attempt that is only planned, given twice.
use hermes_quant_agent.Prelude.{[], ◌∷◌, true, ◌≡◌, refl, text, ◌&&◌, ◌==◌, nat_eq, Bool, ℕ, false}
use hermes_quant_agent.Prelude.Outcome.{ok, err}
use hermes_quant_agent.Prelude.Ensures.{Ensures}
use hermes_quant_agent.Authority.Errors.{Checked}
use hermes_quant_agent.Authority.Apply.{Files, Applied, apply}
use hermes_quant_agent.Authority.Tombstones.{
  Meanwhile, unless_race, after_context, rounds, consume_expiry_tombstone,
}
use hermes_quant_agent.Authority.Contexts.{
  checked_expiry, Evidence, expiry_operation_id, pairs_with, matches, only_match, expiry_command,
  mutation_of, terminalizes, require_operation, expiry_receipt, pending_context, observed_context,
  expiry_context,
}
use hermes_quant_agent.Authority.Batches.{
  same_evidence, seen_in, see, unique_from, nothing_seen, later, consume_all, count_receipts,
  Report, consume_expiry_tombstones,
}
use hermes_quant_agent.Authority.Consumption.{IsConsumed, consume_expiry_tombstone-IsConsumed}
use hermes_quant_agent.Contract.Validation.{validate_expiry}
use hermes_quant_agent.Authority.Reports.{
  OncePerAttempt, unique_from-OncePerAttempt, Balances, consume_expiry_tombstones-Balances,
}
use hermes_quant_agent.Examples.Hash.{owner}
use hermes_quant_agent.Examples.Computing.{computing}
use hermes_quant_agent.Examples.Run.{no_files, payload_1, digest_1, start_command, attempt_1}

unfoldable pub files_of : Checked Applied → Files
files_of (ok applied) = applied.files
files_of (err e) = no_files

-- the files after the task's start
unfoldable pub started_files : Files
started_files = files_of (apply owner no_files start_command 10)

-- No other process writes, and the intent has expired.
alone : Meanwhile
alone = record { others = λ lock files. files; now = λ lock. 2000 }

evidence : Evidence
evidence = record {
  owner_user_id = text "owner-1";
  workspace_ref = text "workspace:w";
  managed_session_ref = text "session:s";
  attempt_ref = attempt_1;
  payload_ref = payload_1;
  tombstone_event_ref =
      text "event:3333333333333333333333333333333333333333333333333333333333333333";
  tombstone_digest = digest_1;
}

-- Whether a report has the counts.
has_counts : ℕ → ℕ → Checked Report → Bool
has_counts consumed replayed (ok r) = r.consumed_count == consumed && r.replayed_count == replayed
has_counts consumed replayed (err e) = false

consumed-has_counts :
    has_counts 1 0
      (consume_expiry_tombstones owner alone started_files (evidence ∷ evidence ∷ []) 10)
    ≡ true
unfolding has_counts started_files files_of alone evidence expiry_operation_id pairs_with matches
    only_match expiry_command mutation_of terminalizes require_operation expiry_receipt
    pending_context observed_context checked_expiry expiry_context unless_race after_context rounds
    consume_expiry_tombstone same_evidence seen_in see unique_from nothing_seen later consume_all
    count_receipts consume_expiry_tombstones validate_expiry computing
consumed-has_counts = refl

unique_from-OncePerAttempt_example :
    Ensures OncePerAttempt (unique_from owner nothing_seen (evidence ∷ evidence ∷ []))
unique_from-OncePerAttempt_example = unique_from-OncePerAttempt owner (evidence ∷ evidence ∷ [])

consume_expiry_tombstones-Balances_example :
    Ensures
      (Balances (evidence ∷ evidence ∷ []) 10)
      (consume_expiry_tombstones owner alone started_files (evidence ∷ evidence ∷ []) 10)
consume_expiry_tombstones-Balances_example =
    consume_expiry_tombstones-Balances owner alone started_files (evidence ∷ evidence ∷ []) 10

consume_expiry_tombstone-IsConsumed_example :
    Ensures (IsConsumed owner) (consume_expiry_tombstone owner alone started_files evidence)
consume_expiry_tombstone-IsConsumed_example =
    consume_expiry_tombstone-IsConsumed owner alone started_files evidence
