-- ===== src/Authority/Exclusive.antt =====
-- Optimistic concurrency: of the commands made for one version of a task, one is recorded.
use hermes_quant_agent.Prelude.{
  ℕ, suc, List, [], ◌∷◌, ◌++◌, true, false, ◌≡◌, inl, inr, refl, sym, ap, ◌∙◌, arith, Option, none,
  some, Text, text_eq, Bool-cases, nat_eq,
}
use hermes_quant_agent.Prelude.Dict.{get}
use hermes_quant_agent.Prelude.Outcome.{ok, >>=-eq-ok}
use hermes_quant_agent.Prelude.Ensures.{Ensures, bind, done, fails, skip, checked}
use hermes_quant_agent.Contract.Command.{
  ExistingTask, TaskCommand, on_task, continue_research, bind_research_claim, propose_plan,
  revise_plan, request_plan_confirmation, confirm_plan, confirm_formula, bind_candidate_manifest,
  observe_submission, observe_run, observe_provider_evidence, observe_gate3, link_result,
  enter_domain_gate, resolve_domain_gate, begin_reconcile, resolve_reconcile, request_stop,
  observe_stop, complete_attempt, complete_task, expire_intent, observe_payload_tombstone,
}
use hermes_quant_agent.Authority.Event.{Record, Event}
use hermes_quant_agent.Authority.Store.{Task, Operation, Projection}
use hermes_quant_agent.Authority.Digests.{Authority}
use hermes_quant_agent.Authority.Journal.{Draft, build_record, unhashed_record, replay}
use hermes_quant_agent.Authority.Plan.{
  Planned, plan_continue, plan_claim, plan_latest, plan_attempt, plan_live, plan_for_task,
  existing_task, plan_event,
}
use hermes_quant_agent.Authority.Apply.{
  Files, Applied, command_record, apply_new, apply_again, apply_command, apply,
}
use hermes_quant_agent.Authority.Versions.{version_of, count_for, replay-version}
use hermes_quant_agent.Authority.Planning.{existing_task-get}
use hermes_quant_agent.Authority.Persisted.{append_record-eq}
use hermes_quant_agent.Authority.Drafting.{replay-IsKept}

-- A command for a task is planned only at the task's version, and as an event of that task.
record PlannedAt (t : Task) (n : ℕ) (e : Planned) : Type 0 where
  same_version : n ≡ t.version
  same_task : e.task_ref ≡ t.task_ref

abbrev ForTask : Task → Planned → Type 0
ForTask t e = e.task_ref ≡ t.task_ref

module _ (a : Authority) (t : Task) (digest : Text) (now : ℕ) where
  latest_task : (e : Event) → Ensures (ForTask t) (plan_latest t e)
  unfolding plan_latest
  latest_task e = bind _ _ λ x _. done refl

  attempt_task : (s : Text) (e : Event) → Ensures (ForTask t) (plan_attempt t s e)
  unfolding plan_attempt
  attempt_task s e = done refl

  live_task : (c : TaskCommand) → Ensures (ForTask t) (plan_live a t c digest now)
  unfolding plan_live plan_continue plan_claim
  live_task (continue_research c) = skip _ _ (bind _ _ λ d _. done refl)
  live_task (bind_research_claim c) = bind _ _ λ y _. skip _ _ (bind _ _ λ d _. done refl)
  live_task (propose_plan c) = latest_task _
  live_task (revise_plan c) = latest_task _
  live_task (request_plan_confirmation c) = latest_task _
  live_task (confirm_plan c) = latest_task _
  live_task (confirm_formula c) = latest_task _
  live_task (bind_candidate_manifest c) = latest_task _
  live_task (complete_task c) = latest_task _
  live_task (expire_intent c) = skip _ _ (attempt_task _ _)
  live_task (observe_payload_tombstone c) = fails
  live_task (observe_submission c) = attempt_task _ _
  live_task (observe_run c) = attempt_task _ _
  live_task (observe_provider_evidence c) = attempt_task _ _
  live_task (observe_gate3 c) = attempt_task _ _
  live_task (link_result c) = attempt_task _ _
  live_task (enter_domain_gate c) = attempt_task _ _
  live_task (resolve_domain_gate c) = attempt_task _ _
  live_task (begin_reconcile c) = attempt_task _ _
  live_task (resolve_reconcile c) = attempt_task _ _
  live_task (request_stop c) = attempt_task _ _
  live_task (observe_stop c) = attempt_task _ _
  live_task (complete_attempt c) = attempt_task _ _

  task_at : (n : ℕ) (c : TaskCommand) → Ensures (PlannedAt t n) (plan_for_task a t n c digest now)
  unfolding plan_for_task
  task_at n (observe_payload_tombstone c) = checked _ _ _ λ same. skip _ _ (record {
    returns =
        λ e h. record { same_version = ground arith; same_task = (attempt_task _ _).returns e h };
  })
  task_at n c = skip _ _ (
      checked _ _ _ λ same. record {
        returns =
            λ e h. record { same_version = ground arith; same_task = (live_task c).returns e h };
      })

-- What a new record says of the command that made it.
pub record RecordedAt (files : Files) (p : Projection) (e : ExistingTask) (x : Applied)
    : Type 0 where
  pub task : Task
  pub found : get e.task_ref p.tasks ≡ some task
  pub same_version : e.expected_version ≡ task.version
  pub r : Record
  pub journal : x.files.journal ≡ files.journal ++ r ∷ []
  pub same_task : r.task_ref ≡ task.task_ref

built-task : (a : Authority) (d : Draft) → (build_record a d).task_ref ≡ d.task_ref
unfolding build_record unhashed_record
built-task a d = refl

module _ (a : Authority) (files : Files) (p : Projection) (id : Text) (e : ExistingTask)
    (k : TaskCommand) (digest : Text) (now : ℕ) where
  command_at :
      Ensures
        (λ (r : Record).
          (t : Task) × (get e.task_ref p.tasks ≡ some t)
          × (e.expected_version ≡ t.version)
          × (r.task_ref ≡ t.task_ref))
        (command_record a files.journal p
          (record { operation_id = id; request = on_task e k })
          digest
          now)
  unfolding command_record plan_event
  command_at = bind _ _ λ planned hp. bind _ _ λ v _. done (
      let (t, found, ht) = >>=-eq-ok (existing_task (get e.task_ref p.tasks)) _ hp in
      let q : PlannedAt t e.expected_version planned =
        (task_at a t digest now e.expected_version k).returns planned ht in
      (t, existing_task-get _ found, q.same_version, built-task a _ ∙ q.same_task))

  new_at :
      Ensures
        (RecordedAt files p e)
        (apply_new a files p (record { operation_id = id; request = on_task e k }) digest now)
  unfolding apply_new
  new_at = skip _ _ (
      bind _ _ λ r hr. bind _ _ λ q _. bind _ _ λ content _. bind _ _ λ j hj. done (
        let (t, found, same, at) = command_at.returns r hr in
        record {
          task = t;
          found = found;
          same_version = same;
          r = r;
          journal = append_record-eq r files.journal hj;
          same_task = at;
        }))

  either_at :
      (o : Option Operation)
      → Ensures
          (λ (x : Applied). x.result.replayed ≡ false → RecordedAt files p e x)
          (elim o [
            | some existing ↦ apply_again a files p existing digest
            | none ↦
                apply_new a files p (record { operation_id = id; request = on_task e k }) digest now
          ])
  unfolding apply_again
  either_at none = record { returns = λ x h _. new_at.returns x h }
  either_at (some o) = skip _ _ (bind _ _ λ out _. done λ fresh. absurd (cc))

count_for-snoc :
    (ref : Text) (records : List Record) (r : Record)
    → r.task_ref ≡ ref
    → count_for ref (records ++ r ∷ []) ≡ suc (count_for ref records)
unfolding count_for
count_for-snoc ref [] r h = ground arith
count_for-snoc ref (s ∷ rest) r h = ground (arith, count_for-snoc ref rest r)

version_some : (t : Task) → version_of (some t) ≡ t.version
unfolding version_of
version_some t = refl

-- What the success of a command that was not replayed says of the journal before and after it.
record Counted (files : Files) (e : ExistingTask) (x : Applied) : Type 0 where
  before : e.expected_version ≡ count_for e.task_ref files.journal
  after : count_for e.task_ref x.files.journal ≡ suc (count_for e.task_ref files.journal)

apply-Counted :
    (a : Authority) (files : Files) (id : Text) (e : ExistingTask) (k : TaskCommand) (now : ℕ)
    (x : Applied)
    → apply a files (record { operation_id = id; request = on_task e k }) now ≡ ok x
    → x.result.replayed ≡ false
    → Counted files e x
unfolding apply apply_command
apply-Counted a files id e k now x h fresh =
    let (p, accepted, rest) = >>=-eq-ok (replay a files.journal) _ h in
    let q : RecordedAt files p e x = (either_at a files p id e k _ now _).returns x rest fresh in
    let key : q.task.task_ref ≡ e.task_ref =
      ((replay-IsKept a files.journal accepted).indexed.each e.task_ref q.task q.found).key in
    let counted : version_of (get e.task_ref p.tasks) ≡ count_for e.task_ref files.journal =
      replay-version a files.journal e.task_ref accepted in
    record {
      before = q.same_version ∙ sym (ap version_of q.found ∙ version_some q.task) ∙ counted;
      after =
          ap (count_for e.task_ref) q.journal
          ∙ count_for-snoc e.task_ref files.journal q.r (q.same_task ∙ key);
    }

-- When a command for a version of a task was recorded, a command for the same version of the task
-- that is sent next, to the files that the first left, is a replay if it is accepted: the two do
-- not both make a record.
pub apply-exclusive :
    (a : Authority) (files : Files) (id id' : Text) (e : ExistingTask) (k l : TaskCommand)
    (now later : ℕ) (x y : Applied)
    → apply a files (record { operation_id = id; request = on_task e k }) now ≡ ok x
    → x.result.replayed ≡ false
    → apply a x.files (record { operation_id = id'; request = on_task e l }) later ≡ ok y
    → y.result.replayed ≡ true
apply-exclusive a files id id' e k l now later x y h fresh g = elim (Bool-cases y.result.replayed) [
  | inl again ↦ again
  | inr recorded ↦
      let first : Counted files e x = apply-Counted a files id e k now x h fresh in
      let second : Counted x.files e y = apply-Counted a x.files id' e l later y g recorded in
      absurd (omega (arith, first.before, first.after, second.before))
]
