-- ===== src/Authority/Reports.antt =====
-- `consume_expiry_tombstones`: what is left of a batch, and what the report says of it.
use hermes_quant_agent.Prelude.{
  ℕ, suc, ◌+◌, ◌≤◌, ◌≡◌, refl, ap, arith, List, [], ◌∷◌, Bool, true, false, ◌||◌, Option, none,
  some, text_eq, bool_eq, All, ◌==◌, length, if◌then◌else◌,
}
use hermes_quant_agent.Prelude.Dict.{get, get-put}
use hermes_quant_agent.Prelude.Outcome.{ok, ◌>>=◌}
use hermes_quant_agent.Prelude.Ensures.{Ensures, bind, done, skip, checked, refused}
use hermes_quant_agent.Authority.Digests.{Authority}
use hermes_quant_agent.Authority.Apply.{Files, WorkflowReceipt}
use hermes_quant_agent.Authority.Tombstones.{Meanwhile, consume_expiry_tombstone}
use hermes_quant_agent.Authority.Contexts.{Evidence}
use hermes_quant_agent.Authority.Batches.{
  seen_in, Seen, see, unique_from, nothing_seen, later, Consumed, consume_all, count_receipts,
  Report, consume_expiry_tombstones,
}

count_receipts-sum :
    (rs : List WorkflowReceipt) → count_receipts false rs + count_receipts true rs ≡ length rs
unfolding count_receipts
count_receipts-sum [] = omega arith
count_receipts-sum (r ∷ rs) = ground (arith, count_receipts-sum rs)

unique_from-length :
    (a : Authority) (seen : Seen) (evidences : List Evidence)
    → Ensures
        (λ (unique : List Evidence). length unique ≤ length evidences)
        (unique_from a seen evidences)
unfolding unique_from
unique_from-length a seen [] = done (omega arith)
unique_from-length a seen (e ∷ evidences) = skip _ _ (
    bind (seen_in e _) _ λ event _. bind (seen_in e _) _ λ attempt _.
      bind (seen_in e _) _ λ payload _. bind (unique_from a (see e seen) evidences) _ λ unique h.
        done (
          shorter (event || attempt || payload) e unique (length evidences)
            ((unique_from-length a (see e seen) evidences).returns unique h)))
  where
    shorter :
        (b : Bool) (x : Evidence) (xs : List Evidence) (n : ℕ)
        → length xs ≤ n
        → length (if b then xs else x ∷ xs) ≤ suc n
    shorter b x xs n h = ground (arith, h)

-- An evidence whose attempt is new to the index.
abbrev Fresh : Seen → Evidence → Type 0
Fresh seen x = get x.attempt_ref seen.attempts ≡ none

-- Each attempt occurs once.
unfoldable pub OncePerAttempt : List Evidence → Type 0
OncePerAttempt [] = Unit
OncePerAttempt (x ∷ xs) =
    All (λ (y : Evidence). (y.attempt_ref == x.attempt_ref) ≡ false) xs × OncePerAttempt xs

Fresh-see :
    (seen : Seen) (e : Evidence) (xs : List Evidence)
    → All (Fresh (see e seen)) xs
    → All (Fresh seen) xs × All (λ (y : Evidence). (y.attempt_ref == e.attempt_ref) ≡ false) xs
unfolding see
Fresh-see seen e [] h = (tt, tt)
Fresh-see seen e (x ∷ xs) (fresh, rest) =
    let (old, other) = Fresh-see seen e xs rest in
    (
      (ground (arith, fresh, get-put x.attempt_ref e.attempt_ref e seen.attempts), old),
      (ground (arith, fresh, get-put x.attempt_ref e.attempt_ref e seen.attempts), other),
    )

seen_in-fresh : (e : Evidence) (o : Option Evidence) → seen_in e o ≡ ok false → o ≡ none
unfolding seen_in ◌>>=◌
seen_in-fresh e none h = refl
seen_in-fresh e (some x) h = ground (arith, h)

-- The evidences of the rest of a batch that an index leaves.
abbrev Left : Seen → List Evidence → Type 0
Left seen unique = All (Fresh seen) unique × OncePerAttempt unique

-- An evidence joins those of the rest of its batch, unless an index has it.
left :
    (seen : Seen) (e : Evidence) (unique : List Evidence) (event attempt payload : Bool)
    → seen_in e (get e.attempt_ref seen.attempts) ≡ ok attempt
    → All (Fresh seen) unique
    → All (λ (y : Evidence). (y.attempt_ref == e.attempt_ref) ≡ false) unique
    → OncePerAttempt unique
    → Left seen (if event || attempt || payload then unique else e ∷ unique)
unfolding OncePerAttempt
left seen e unique true attempt payload found old other once = (old, once)
left seen e unique false true payload found old other once = (old, once)
left seen e unique false false true found old other once = (old, once)
left seen e unique false false false found old other once =
    ((seen_in-fresh e _ found, old), (other, once))

unique_from-Left :
    (a : Authority) (seen : Seen) (evidences : List Evidence)
    → Ensures (Left seen) (unique_from a seen evidences)
unfolding unique_from OncePerAttempt
unique_from-Left a seen [] = done (tt, tt)
unique_from-Left a seen (e ∷ evidences) = skip _ _ (
    bind (seen_in e _) _ λ event _.
      bind (seen_in e (get e.attempt_ref seen.attempts)) _ λ attempt found.
        bind (seen_in e _) _ λ payload _. bind (unique_from a (see e seen) evidences) _ λ unique h.
          let (fresh, once) = (unique_from-Left a (see e seen) evidences).returns unique h in
          let (old, other) = Fresh-see seen e unique fresh in
          done (left seen e unique event attempt payload found old other once))

-- Of a batch that it accepts, unique_from leaves evidences of different attempts.
pub unique_from-OncePerAttempt :
    (a : Authority) (evidences : List Evidence)
    → Ensures OncePerAttempt (unique_from a nothing_seen evidences)
unique_from-OncePerAttempt a evidences = record {
  returns = λ unique h.
      let (fresh, once) = (unique_from-Left a nothing_seen evidences).returns unique h in once;
}

consume_all-length :
    (a : Authority) (meanwhile : Meanwhile) (files : Files) (evidences : List Evidence)
    → Ensures
        (λ (c : Consumed). length c.receipts ≡ length evidences)
        (consume_all a meanwhile files evidences)
unfolding consume_all
consume_all-length a meanwhile files [] = done refl
consume_all-length a meanwhile files (e ∷ evidences) =
    bind (consume_expiry_tombstone a meanwhile files e) _ λ applied _.
      bind (consume_all a (later meanwhile) applied.files evidences) _ λ rest h.
        done
          (ap suc ((consume_all-length a (later meanwhile) applied.files evidences).returns rest h))

-- What a report says of a batch.
pub record Balances (evidences : List Evidence) (limit : ℕ) (report : Report) : Type 0 where
  pub counted : report.consumed_count + report.replayed_count ≡ length report.receipts
  pub given : length report.receipts ≤ length evidences
  pub limited : length evidences ≤ limit
  pub small : limit ≤ 1000

-- Whatever other processes do meanwhile, a report of consume_expiry_tombstones counts each receipt
-- once, as consumed or as replayed, and has at most as many receipts as evidences were given,
-- which are at most the limit and thus at most 1000.
pub consume_expiry_tombstones-Balances :
    (a : Authority) (meanwhile : Meanwhile) (files : Files) (evidences : List Evidence) (limit : ℕ)
    → Ensures
        (Balances evidences limit)
        (consume_expiry_tombstones a meanwhile files evidences limit)
unfolding consume_expiry_tombstones
consume_expiry_tombstones-Balances a meanwhile files evidences limit = checked _ _ _ λ range.
    refused _ _ _ λ few. bind (unique_from a nothing_seen evidences) _ λ unique u.
      bind (consume_all a meanwhile files unique) _ λ c k.
        let all = (consume_all-length a meanwhile files unique).returns c k in
        let fewer = (unique_from-length a nothing_seen evidences).returns unique u in
        done (record {
          counted = count_receipts-sum c.receipts;
          given = omega (arith, all, fewer);
          limited = ground (arith, few);
          small = ground (arith, range);
        })
