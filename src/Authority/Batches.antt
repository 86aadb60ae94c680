-- ===== src/Authority/Batches.antt =====
-- hqa/workflow_authority.py, `consume_expiry_tombstones`: a batch less its duplicates, consumed one by one.
use hermes_quant_agent.Prelude.{
  ℕ, suc, ◌+◌, List, [], ◌∷◌, Bool, true, false, ◌&&◌, ◌||◌, Option, none, some, Text, text_eq,
  bool_eq, ◌==◌, leb, ltb, length, if◌then◌else◌,
}
use hermes_quant_agent.Prelude.Dict.{Dict, get, put}
use hermes_quant_agent.Prelude.Outcome.{ok, check, refuse, ◌>>=◌, ◌>>◌}
use hermes_quant_agent.Authority.Errors.{Checked, workflow_binding_conflict, workflow_batch_quota}
use hermes_quant_agent.Authority.Digests.{Authority}
use hermes_quant_agent.Authority.Apply.{Files, WorkflowReceipt}
use hermes_quant_agent.Authority.Tombstones.{Meanwhile, consume_expiry_tombstone}
use hermes_quant_agent.Authority.Contexts.{Evidence}

-- `evidence == other`, field by field
unfoldable pub same_evidence : Evidence → Evidence → Bool
same_evidence x y =
    x.owner_user_id == y.owner_user_id
    && x.workspace_ref == y.workspace_ref
    && x.managed_session_ref == y.managed_session_ref
    && x.attempt_ref == y.attempt_ref
    && x.payload_ref == y.payload_ref
    && x.tombstone_event_ref == y.tombstone_event_ref
    && x.tombstone_digest == y.tombstone_digest

-- One index: whether the key holds the same evidence; another one is a conflict.
unfoldable pub seen_in : Evidence → Option Evidence → Checked Bool
seen_in e none = ok false
seen_in e (some existing) = check (same_evidence existing e) workflow_binding_conflict >> ok true

-- `seen_events`, `seen_attempts` and `seen_payloads`
pub record Seen : Type 0 where
  pub events : Dict Text Evidence
  pub attempts : Dict Text Evidence
  pub payloads : Dict Text Evidence

unfoldable pub see : Evidence → Seen → Seen
see e seen = record {
  events = put e.tombstone_event_ref e seen.events;
  attempts = put e.attempt_ref e seen.attempts;
  payloads = put e.payload_ref e seen.payloads;
}

-- The evidence that is left of a batch.
unfoldable pub unique_from : Authority → Seen → List Evidence → Checked (List Evidence)
unique_from a seen [] = ok []
unique_from a seen (e ∷ evidences) = do
  check (e.owner_user_id == a.owner_user_id) workflow_binding_conflict
  event ← seen_in e (get e.tombstone_event_ref seen.events)
  attempt ← seen_in e (get e.attempt_ref seen.attempts)
  payload ← seen_in e (get e.payload_ref seen.payloads)
  unique ← unique_from a (see e seen) evidences
  ok (if event || attempt || payload then unique else e ∷ unique)

unfoldable pub nothing_seen : Seen
nothing_seen = record { events = []; attempts = []; payloads = [] }

-- The next evidence comes after the eight locks of the one before.
unfoldable pub later : Meanwhile → Meanwhile
later m = record { others = λ lock. m.others (lock + 8); now = λ lock. m.now (lock + 8) }

-- What the consumption of several leaves and returns.
pub record Consumed : Type 0 where
  pub files : Files
  pub receipts : List WorkflowReceipt

unfoldable pub consume_all : Authority → Meanwhile → Files → List Evidence → Checked Consumed
consume_all a meanwhile files [] = ok (record { files = files; receipts = [] })
consume_all a meanwhile files (e ∷ evidences) = do
  applied ← consume_expiry_tombstone a meanwhile files e
  rest ← consume_all a (later meanwhile) applied.files evidences
  ok (record { files = rest.files; receipts = applied.result ∷ rest.receipts })

-- `sum(receipt.replayed == replayed for receipt in receipts)`
unfoldable pub count_receipts : Bool → List WorkflowReceipt → ℕ
count_receipts replayed [] = 0
count_receipts replayed (r ∷ rs) =
    let rest = count_receipts replayed rs in if r.replayed == replayed then suc rest else rest

-- `ExpiryTombstoneConsumeReport`, and the files after the call
pub record Report : Type 0 where
  pub files : Files
  pub receipts : List WorkflowReceipt
  pub consumed_count : ℕ
  pub replayed_count : ℕ

unfoldable pub consume_expiry_tombstones :
    Authority → Meanwhile → Files → List Evidence → ℕ → Checked Report
consume_expiry_tombstones a meanwhile files evidences limit = do
  check (leb 1 limit && leb limit 1000) workflow_batch_quota
  refuse (ltb limit (length evidences)) workflow_batch_quota
  unique ← unique_from a nothing_seen evidences
  done_all ← consume_all a meanwhile files unique
  ok (record {
    files = done_all.files;
    receipts = done_all.receipts;
    consumed_count = count_receipts false done_all.receipts;
    replayed_count = count_receipts true done_all.receipts;
  })
