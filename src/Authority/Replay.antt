-- ===== src/Authority/Replay.antt =====
-- What holds of the projection of a journal that `_replay` accepts.
use hermes_quant_agent.Prelude.{
  ℕ, ◌+◌, List, [], ◌∷◌, true, ◌≡◌, subst, arith, Option, none, some, Text, text_eq, nat_eq,
}
use hermes_quant_agent.Prelude.Dict.{get}
use hermes_quant_agent.Prelude.Outcome.{ok, err, ◌>>=◌, >>=-eq-ok}
use hermes_quant_agent.Prelude.Ensures.{done}
use hermes_quant_agent.Contract.Values.{completed}
use hermes_quant_agent.Authority.Errors.{Checked}
use hermes_quant_agent.Authority.Event.{Record}
use hermes_quant_agent.Authority.Store.{Task, Projection}
use hermes_quant_agent.Authority.Digests.{Authority}
use hermes_quant_agent.Authority.Reduce.{reduce}
use hermes_quant_agent.Authority.Journal.{
  empty_projection, as_corrupt, is_valid_record, validate_record, replay_step, replay_from, replay,
}
use hermes_quant_agent.Authority.Invariant.{HasEvidence}
use hermes_quant_agent.Authority.ReduceLaws.{IsSoundProjection, reduce-IsSoundProjection}

-- What one accepted round of the loop has checked and done.
pub record Accepted (a : Authority) (p : Projection) (n : ℕ) (previous : Option Text) (r : Record)
    (q : Projection) : Type 0 where
  pub valid : is_valid_record a r n previous ≡ true
  pub reduced : reduce a p r ≡ ok q

as_corrupt-ok : (m : Checked Projection) {q : Projection} → as_corrupt m ≡ ok q → m ≡ ok q
unfolding as_corrupt
as_corrupt-ok (ok p) h = h
as_corrupt-ok (err e) h = cc

module _ (a : Authority) where
  pub replay_step-Accepted :
      (p : Projection) (n : ℕ) (previous : Option Text) (r : Record) {q : Projection}
      → replay_step a p n previous r ≡ ok q
      → Accepted a p n previous r q
  unfolding replay_step validate_record ◌>>=◌
  replay_step-Accepted p n previous r {q} h =
      ground (arith, as_corrupt-ok (validate_record a r n previous >>= λ _. reduce a p r) {q = q})

  -- A property of the projection that every accepted record keeps holds after the loop.
  pub replay_from-keeps :
      (P : Projection → Type 0)
      → ((p : Projection) (n : ℕ) (previous : Option Text) (r : Record) (q : Projection)
          → Accepted a p n previous r q
          → P p
          → P q)
      → (p : Projection) (n : ℕ) (previous : Option Text) (records : List Record) {q : Projection}
      → P p
      → replay_from a p n previous records ≡ ok q
      → P q
  unfolding replay_from
  replay_from-keeps P step p n previous [] base h = subst P (cc) base
  replay_from-keeps P step p n previous (r ∷ rest) base h =
      let (after, stepped, remaining) = >>=-eq-ok (replay_step a p n previous r) _ h in
      replay_from-keeps P step after (n + 1) (some r.record_sha256) rest
        (step p n previous r after (replay_step-Accepted p n previous r stepped) base) remaining

  pub empty-IsSoundProjection : IsSoundProjection empty_projection
  unfolding get
  empty-IsSoundProjection = record { each = λ ref t h. cc }

  -- Every task of the projection of an accepted journal is sound: only its last attempt may be
  -- open, attempts are numbered from 1, an attempt or task has an outcome exactly when it has
  -- ended, all attempts of an ended task have ended, and no task is past a human gate that is not
  -- recorded.
  pub replay-IsSoundProjection :
      (records : List Record) {p : Projection} → replay a records ≡ ok p → IsSoundProjection p
  unfolding replay
  replay-IsSoundProjection records h =
      replay_from-keeps IsSoundProjection
        (λ p n previous r q accepted s.
          (reduce-IsSoundProjection a p s r).returns q accepted.reduced)
        empty_projection 1 none records empty-IsSoundProjection h

  -- A task of an accepted journal that ended as completed has a plan with version, digest and
  -- source, a recorded human confirmation of the plan, and, where the plan requires it, the
  -- complete human gate on the formula with its candidate.
  pub replay-HasEvidence :
      (records : List Record) {p : Projection} (ref : Text) (t : Task)
      → replay a records ≡ ok p
      → get ref p.tasks ≡ some t
      → t.terminal_outcome ≡ some completed
      → HasEvidence t
  replay-HasEvidence records ref t h found done =
      ((replay-IsSoundProjection records h).each ref t found).completed_gates done
