-- ===== src/Authority/Recorded.antt =====
-- The record that `_build_record` makes passes `_validate_record` when the journal is read again.
use hermes_quant_agent.Prelude.{
  ℕ, ◌+◌, ◌-◌, ◌^◌, ◌≤◌, List, [], ◌∷◌, ◌++◌, true, ◌≡◌, refl, subst, arith, Option, some, Text,
  text, text_eq, option_eq, nat_eq, length,
}
use hermes_quant_agent.Prelude.Outcome.{ok, ◌>>=◌, >>=-eq-ok, >>=-ok}
use hermes_quant_agent.Patterns.{safe_ref, safe_digest, safe_event_ref, is_identifier}
use hermes_quant_agent.Patterns.Laws.{safe_event_ref-append}
use hermes_quant_agent.Json.{Json}
use hermes_quant_agent.Authority.Event.{Record, event_type}
use hermes_quant_agent.Authority.Store.{Projection}
use hermes_quant_agent.Authority.Digests.{Digests, Authority, digest_of}
use hermes_quant_agent.Authority.Document.{unhashed_document, record_members}
use hermes_quant_agent.Authority.Reduce.{reduce}
use hermes_quant_agent.Authority.Journal.{
  Draft, current_schema, semantic_event_id, unhashed_record, build_record, safe_attempt,
  is_valid_record, validate_record, as_corrupt, replay_step, replay_from,
}
use hermes_quant_agent.Authority.Receipts.{chain_end}

-- What a draft needs for that.
pub record WellDrafted (d : Draft) : Type 0 where
  pub digest : safe_digest d.operation_digest ≡ true
  pub operation : is_identifier d.operation_id ≡ true
  pub task : safe_ref d.task_ref (text "task:") ≡ true
  pub attempt : safe_attempt d.attempt_ref ≡ true
  pub positive : 1 ≤ d.task_version
  pub bounded : d.task_version ≤ 2 ^ 63 - 1
  pub kind : is_identifier (event_type d.event) ≡ true

digest_of-safe : (d : Digests) (j : Json) → safe_digest (digest_of d j) ≡ true
unfolding digest_of
digest_of-safe d j = d.sha256_hex _

event_id-safe :
    (a : Authority) (o g t e : Text) → safe_event_ref (semantic_event_id a o g t e) ≡ true
unfolding semantic_event_id
event_id-safe a o g t e = safe_event_ref-append _ (digest_of-safe a.digests _)

-- The digest does not depend on the field that holds it.
rehash :
    (a : Authority) (d : Draft)
    → digest_of a.digests (unhashed_document (build_record a d)) ≡ (build_record a d).record_sha256
unfolding build_record unhashed_document record_members
rehash a d = refl

valid_fields :
    (a : Authority) (r : Record) (n : ℕ) (previous : Option Text)
    → r.schema_version ≡ current_schema
    → r.sequence ≡ n
    → r.previous_record_sha256 ≡ previous
    → r.owner_user_id ≡ a.owner_user_id
    → safe_event_ref r.event_id ≡ true
    → safe_digest r.operation_digest ≡ true
    → safe_digest r.record_sha256 ≡ true
    → is_identifier r.operation_id ≡ true
    → safe_ref r.task_ref (text "task:") ≡ true
    → safe_attempt r.attempt_ref ≡ true
    → 1 ≤ r.task_version
    → r.task_version ≤ 2 ^ 63 - 1
    → is_identifier (event_type r.event) ≡ true
    → r.event_id
      ≡ semantic_event_id a r.operation_id r.operation_digest r.task_ref (event_type r.event)
    → digest_of a.digests (unhashed_document r) ≡ r.record_sha256
    → is_valid_record a r n previous ≡ true
unfolding is_valid_record
valid_fields a r n previous h1 h2 h3 h4 h5 h6 h7 h8 h9 h10 h11 h12 h13 h14 h15 = ground arith

-- A record that is built from a well-formed draft passes the validation of the replay at its own
-- sequence number and predecessor.
pub build_record-is_valid_record :
    (a : Authority) (d : Draft)
    → WellDrafted d
    → is_valid_record a (build_record a d) d.sequence d.previous_record_sha256 ≡ true
unfolding build_record unhashed_record
build_record-is_valid_record a d w =
    valid_fields a (build_record a d) d.sequence d.previous_record_sha256 refl refl refl refl
      (event_id-safe a d.operation_id d.operation_digest d.task_ref (event_type d.event)) w.digest
      (digest_of-safe a.digests _) w.operation w.task w.attempt w.positive w.bounded w.kind refl
      (rehash a d)

replay_step-ok :
    (a : Authority) (p : Projection) (n : ℕ) (previous : Option Text) (r : Record) {q : Projection}
    → is_valid_record a r n previous ≡ true
    → reduce a p r ≡ ok q
    → replay_step a p n previous r ≡ ok q
unfolding replay_step validate_record as_corrupt ◌>>=◌
replay_step-ok a p n previous r h k = ground arith

-- A journal that is accepted stays so with a valid record that the reduction accepts.
pub replay_from-snoc :
    (a : Authority) (p : Projection) (n : ℕ) (previous : Option Text) (records : List Record)
    (r : Record) {q s : Projection}
    → replay_from a p n previous records ≡ ok q
    → is_valid_record a r (n + length records) (chain_end previous records) ≡ true
    → reduce a q r ≡ ok s
    → replay_from a p n previous (records ++ r ∷ []) ≡ ok s
unfolding replay_from chain_end
replay_from-snoc a p n previous [] r {q} {s} h v k =
    let same : q ≡ p = cc in
    let here : n + 0 ≡ n = omega arith in
    >>=-ok (replay_step a p n previous r) _
      (replay_step-ok a p n previous r
        (subst (λ (m : ℕ). is_valid_record a r m previous ≡ true) here v)
        (subst (λ (z : Projection). reduce a z r ≡ ok s) same k))
      refl
replay_from-snoc a p n previous (x ∷ rest) r {q} {s} h v k =
    let (after, stepped, remaining) = >>=-eq-ok (replay_step a p n previous x) _ h in
    let there : n + length (x ∷ rest) ≡ n + 1 + length rest = omega arith in
    >>=-ok (replay_step a p n previous x) _ stepped (
      replay_from-snoc a after (n + 1) (some x.record_sha256) rest r remaining
        (subst (λ (m : ℕ). is_valid_record a r m (chain_end (some x.record_sha256) rest) ≡ true)
          there v)
        k)
