-- ===== src/Authority/Drafting.antt =====
-- The record that `_apply_command` builds for a valid command is well formed.
use hermes_quant_agent.Prelude.{
  ℕ, ◌+◌, ◌≤◌, List, true, ◌≡◌, refl, arith, Option, none, Text, text, text_eq, length,
}
use hermes_quant_agent.Prelude.Dict.{get}
use hermes_quant_agent.Prelude.Outcome.{ok, ◌>>=◌, >>=-eq-ok}
use hermes_quant_agent.Patterns.{safe_ref, safe_digest}
use hermes_quant_agent.Contract.Command.{Command, Request, start_research, on_task}
use hermes_quant_agent.Contract.Validation.{Unicode}
use hermes_quant_agent.Contract.Validity.{validate_command}
use hermes_quant_agent.Authority.Event.{Record}
use hermes_quant_agent.Authority.Store.{Projection}
use hermes_quant_agent.Authority.Digests.{Authority}
use hermes_quant_agent.Authority.Journal.{
  Draft, build_record, replay, empty_projection, is_valid_record,
}
use hermes_quant_agent.Authority.Plan.{plan_event, existing_task}
use hermes_quant_agent.Authority.Apply.{max_events, last_sha256, next_version, command_record}
use hermes_quant_agent.Authority.Versions.{version_of}
use hermes_quant_agent.Authority.ReduceLaws.{IsSoundProjection, reduce-IsSoundProjection}
use hermes_quant_agent.Authority.IndexedProjection.{IsIndexedProjection, reduce-IsIndexedProjection}
use hermes_quant_agent.Authority.Replay.{Accepted, replay_from-keeps, empty-IsSoundProjection}
use hermes_quant_agent.Authority.Planning.{WellPlanned, plan_event-WellPlanned}
use hermes_quant_agent.Authority.Identifiers.{validate_command-identifier}
use hermes_quant_agent.Authority.Recorded.{WellDrafted}

-- What a journal's projection keeps: sound tasks, under their references.
pub record IsKept (p : Projection) : Type 0 where
  pub sound : IsSoundProjection p
  pub indexed : IsIndexedProjection p

valid-task :
    (a : Authority) (r : Record) (n : ℕ) (previous : Option Text)
    → is_valid_record a r n previous ≡ true
    → safe_ref r.task_ref (text "task:") ≡ true
unfolding is_valid_record
valid-task a r n previous h = ground arith

step-IsKept :
    (a : Authority) (p : Projection) (n : ℕ) (previous : Option Text) (r : Record) (q : Projection)
    → Accepted a p n previous r q
    → IsKept p
    → IsKept q
step-IsKept a p n previous r q h k = record {
  sound = (reduce-IsSoundProjection a p k.sound r).returns q h.reduced;
  indexed =
      (reduce-IsIndexedProjection a p k.sound k.indexed r
          (valid-task a r n previous h.valid)).returns
        q h.reduced;
}

empty-IsIndexedProjection : IsIndexedProjection empty_projection
unfolding get
empty-IsIndexedProjection = record { each = λ ref t h. cc }

-- The tasks of the projection of an accepted journal are sound, stand under their own well-formed
-- references, and their attempts have well-formed references.
pub replay-IsKept :
    (a : Authority) (records : List Record) {p : Projection} → replay a records ≡ ok p → IsKept p
unfolding replay
replay-IsKept a records h =
    replay_from-keeps a IsKept (step-IsKept a) empty_projection 1 none records
      (record { sound = empty-IsSoundProjection a; indexed = empty-IsIndexedProjection }) h

next_version-bounds :
    (p : Projection) (ref : Text) (q : Request) (m : ℕ) {v : ℕ}
    → next_version p ref q ≡ ok v
    → version_of (get ref p.tasks) ≤ m
    → (1 ≤ v) × (v ≤ m + 1)
unfolding next_version version_of ◌>>=◌ existing_task
next_version-bounds p ref (start_research c) m h b = ground arith
next_version-bounds p ref (on_task e c) m h b = ground arith

-- What `command_record` returns.
pub record Drafted (a : Authority) (records : List Record) (c : Command) (digest : Text)
    (r : Record) : Type 0 where
  pub draft : Draft
  pub well : WellDrafted draft
  pub built : r ≡ build_record a draft
  pub sequence : draft.sequence ≡ length records + 1
  pub previous : draft.previous_record_sha256 ≡ last_sha256 records
  pub operation_id : draft.operation_id ≡ c.operation_id
  pub operation_digest : draft.operation_digest ≡ digest

pub command_record-Drafted :
    (a : Authority) (records : List Record) (p : Projection) (u : Unicode) (c : Command)
    (digest : Text) (now : ℕ) {r : Record}
    → IsIndexedProjection p
    → ((ref : Text) → version_of (get ref p.tasks) ≤ max_events)
    → validate_command u c ≡ ok tt
    → safe_digest digest ≡ true
    → command_record a records p c digest now ≡ ok r
    → Drafted a records c digest r
unfolding command_record
command_record-Drafted a records p u c digest now {r} i b valid safe h =
    let (e, planned, rest) = >>=-eq-ok (plan_event a p c digest now) _ h in
    let (v, versioned, last) = >>=-eq-ok (next_version p e.task_ref c.request) _ rest in
    let k : WellPlanned e = (plan_event-WellPlanned a p i u digest now c valid).returns e planned in
    let bounds : (1 ≤ v) × (v ≤ max_events + 1) =
      next_version-bounds p e.task_ref c.request max_events versioned (b e.task_ref) in
    record {
      draft = record {
        sequence = length records + 1;
        previous_record_sha256 = last_sha256 records;
        operation_id = c.operation_id;
        operation_digest = digest;
        task_ref = e.task_ref;
        attempt_ref = e.attempt_ref;
        task_version = v;
        event = e.event;
        occurred_at = now;
      };
      well = record {
        digest = safe;
        operation = validate_command-identifier u c valid;
        task = k.task;
        attempt = k.attempt;
        positive = bounds.0;
        bounded = omega (arith, bounds.1);
        kind = k.kind;
      };
      built = cc;
      sequence = refl;
      previous = refl;
      operation_id = refl;
      operation_digest = refl;
    }
