-- ===== src/Authority/Receipts.antt =====
-- The receipts that the projection of an accepted journal holds: one for each record.
use hermes_quant_agent.Prelude.{
  ℕ, ◌+◌, List, [], ◌∷◌, ◌++◌, map, true, ◌≡◌, ap, refl, sym, ◌∙◌, arith, Option, none, some,
  is_some, Text, text_eq, length, subst,
}
use hermes_quant_agent.Prelude.Dict.{Dict, get, put}
use hermes_quant_agent.Prelude.Outcome.{ok, refuse, >>=-eq-ok}
use hermes_quant_agent.Authority.Event.{Record}
use hermes_quant_agent.Authority.Store.{Operation, Projection}
use hermes_quant_agent.Authority.Digests.{Authority}
use hermes_quant_agent.Authority.TaskEvents.{Change}
use hermes_quant_agent.Authority.Reduce.{reduce, commit, receipt_of, reduce_event}
use hermes_quant_agent.Authority.Journal.{
  replay_step, replay_from, replay, is_valid_record, empty_projection,
}
use hermes_quant_agent.Authority.Replay.{Accepted, replay_step-Accepted}
use hermes_quant_agent.Authority.Apply.{last_sha256}

-- Inversion of an accepted record.
pub record Reduced (a : Authority) (p : Projection) (r : Record) (q : Projection) : Type 0 where
  pub fresh : get r.operation_id p.operations ≡ none
  pub change : Change
  pub event : reduce_event a p r r.event ≡ ok change
  pub result : q ≡ commit p r change

pub reduce-Reduced :
    (a : Authority) (p : Projection) (r : Record) {q : Projection}
    → reduce a p r ≡ ok q
    → Reduced a p r q
unfolding reduce
reduce-Reduced a p r h =
    let (u, fresh, rest) = >>=-eq-ok (refuse (is_some (get r.operation_id p.operations)) _) _ h in
    let (change, event, done) = >>=-eq-ok (reduce_event a p r r.event) _ rest in
    record { fresh = ground arith; change = change; event = event; result = cc }

-- the entry of `projection["operations"]` that a record writes
abbrev pub operation_of : Record → Text × Operation
operation_of r =
    (r.operation_id, record { operation_digest = r.operation_digest; receipt = receipt_of r })

-- A new key goes to the end of a dict.
put-fresh :
    {A : Type 0} (k : Text) (v : A) (d : Dict Text A)
    → get k d ≡ none
    → put k v d ≡ d ++ (k, v) ∷ []
unfolding get put
put-fresh k v [] h = refl
put-fresh k v (e ∷ d) h = ground (arith, put-fresh k v d)

commit-operations :
    (p : Projection) (r : Record) (c : Change)
    → get r.operation_id p.operations ≡ none
    → (commit p r c).operations ≡ p.operations ++ operation_of r ∷ []
unfolding commit
commit-operations p r c h = put-fresh r.operation_id _ p.operations h

append_assoc : {A : Type 0} (x : A) (xs ys : List A) → (xs ++ x ∷ []) ++ ys ≡ xs ++ x ∷ ys
append_assoc x [] ys = refl
append_assoc x (y ∷ xs) ys = ap (λ l. y ∷ l) (append_assoc x xs ys)

-- what the chain ends with, after records that follow `previous`
unfoldable pub chain_end : Option Text → List Record → Option Text
chain_end previous [] = previous
chain_end previous (r ∷ rest) = chain_end (some r.record_sha256) rest

chain_end-last_sha256 :
    (previous : Option Text) (r : Record) (rest : List Record)
    → chain_end previous (r ∷ rest) ≡ last_sha256 (r ∷ rest)
unfolding chain_end last_sha256
chain_end-last_sha256 previous r [] = refl
chain_end-last_sha256 previous r (s ∷ rest) = chain_end-last_sha256 (some r.record_sha256) s rest

pub chain_end-none : (records : List Record) → chain_end none records ≡ last_sha256 records
unfolding chain_end last_sha256
chain_end-none [] = refl
chain_end-none (r ∷ rest) = chain_end-last_sha256 none r rest

-- `q` is `p` with the records counted, their receipts added and the chain's end moved.
pub record Tracks (p : Projection) (n : ℕ) (previous : Option Text) (records : List Record)
    (q : Projection) : Type 0 where
  pub operations : q.operations ≡ p.operations ++ map operation_of records
  pub last_sequence : q.last_sequence + 1 ≡ n + length records
  pub last_record_sha256 : q.last_record_sha256 ≡ chain_end previous records

valid-sequence :
    (a : Authority) (r : Record) (n : ℕ) (previous : Option Text)
    → is_valid_record a r n previous ≡ true
    → r.sequence ≡ n
unfolding is_valid_record
valid-sequence a r n previous h = ground arith

append_nil : {A : Type 0} (xs : List A) → xs ++ [] ≡ xs
append_nil [] = refl
append_nil (x ∷ xs) = ap (λ l. x ∷ l) (append_nil xs)

commit-last :
    (p : Projection) (r : Record) (c : Change)
    → ((commit p r c).last_sequence ≡ r.sequence)
      × ((commit p r c).last_record_sha256 ≡ some r.record_sha256)
unfolding commit
commit-last p r c = (refl, refl)

replay_from-Tracks :
    (a : Authority) (p : Projection) (n : ℕ) (previous : Option Text) (records : List Record)
    {q : Projection}
    → p.last_sequence + 1 ≡ n
    → p.last_record_sha256 ≡ previous
    → replay_from a p n previous records ≡ ok q
    → Tracks p n previous records q
unfolding replay_from chain_end
replay_from-Tracks a p n previous [] {q} hn hp h =
    let same : p ≡ q = cc in
    subst (λ (z : Projection). Tracks p n previous [] z) same
      (record {
        operations = sym (append_nil p.operations);
        last_sequence = omega arith;
        last_record_sha256 = hp;
      })
replay_from-Tracks a p n previous (r ∷ rest) {q} hn hp h =
    let (after, stepped, remaining) = >>=-eq-ok (replay_step a p n previous r) _ h in
    let accepted : Accepted a p n previous r after =
      replay_step-Accepted a p n previous r stepped in
    let reduced : Reduced a p r after = reduce-Reduced a p r accepted.reduced in
    let operations : after.operations ≡ p.operations ++ operation_of r ∷ [] =
      ap (λ (z : Projection). z.operations) reduced.result
      ∙ commit-operations p r reduced.change reduced.fresh in
    let sequence : after.last_sequence ≡ r.sequence =
      ap (λ (z : Projection). z.last_sequence) reduced.result
      ∙ (commit-last p r reduced.change).0 in
    let sha : after.last_record_sha256 ≡ some r.record_sha256 =
      ap (λ (z : Projection). z.last_record_sha256) reduced.result
      ∙ (commit-last p r reduced.change).1 in
    let first : r.sequence ≡ n = valid-sequence a r n previous accepted.valid in
    let k : Tracks after (n + 1) (some r.record_sha256) rest q =
      replay_from-Tracks a after (n + 1) (some r.record_sha256) rest (omega arith) sha remaining in
    record {
      operations =
          k.operations
          ∙ ap (λ l. l ++ map operation_of rest) operations
          ∙ append_assoc (operation_of r) p.operations (map operation_of rest);
      last_sequence = omega (arith, k.last_sequence);
      last_record_sha256 = k.last_record_sha256;
    }

-- What the projection of an accepted journal says of the journal.
pub record Summarizes (p : Projection) (records : List Record) : Type 0 where
  pub operations : p.operations ≡ map operation_of records
  pub last_sequence : p.last_sequence ≡ length records
  pub last_record_sha256 : p.last_record_sha256 ≡ last_sha256 records

-- The projection of an accepted journal holds exactly one operation for each record in the order
-- of the journal, with the record's digest and receipt, counts the records, and ends with the
-- digest of the last record.
pub replay-Summarizes :
    (a : Authority) (records : List Record) {p : Projection}
    → replay a records ≡ ok p
    → Summarizes p records
unfolding replay
replay-Summarizes a records {p} h =
    let k : Tracks empty_projection 1 none records p =
      replay_from-Tracks a empty_projection 1 none records refl refl h in
    record {
      operations = k.operations;
      last_sequence = omega (arith, k.last_sequence);
      last_record_sha256 = k.last_record_sha256 ∙ chain_end-none records;
    }
