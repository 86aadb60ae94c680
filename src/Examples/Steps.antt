-- ===== src/Examples/Steps.antt =====
-- The theorems about a command, a record and a draft at steps of the run of Examples/Run.
use hermes_quant_agent.Prelude.{
  [], ◌∷◌, ◌++◌, true, false, ◌≡◌, ◌≢◌, refl, arith, none, some, text, text_eq, ◌==◌,
}
use hermes_quant_agent.Prelude.Dict.{get}
use hermes_quant_agent.Prelude.Outcome.{ok, err}
use hermes_quant_agent.Prelude.Ensures.{Ensures}
use hermes_quant_agent.Contract.Command.{
  Command, ExistingTask, TaskCommand, start_research, on_task, observe_submission,
}
use hermes_quant_agent.Contract.Validation.{Unicode}
use hermes_quant_agent.Contract.Validity.{validate_command}
use hermes_quant_agent.Authority.Errors.{workflow_idempotency_conflict}
use hermes_quant_agent.Authority.Event.{Record}
use hermes_quant_agent.Authority.Store.{Task, Projection}
use hermes_quant_agent.Authority.Bindings.{Extends}
use hermes_quant_agent.Authority.Reduce.{reduce, receipt_of}
use hermes_quant_agent.Authority.Apply.{Applied, canonical_command_digest, apply}
use hermes_quant_agent.Authority.Journal.{Draft, build_record, is_valid_record}
use hermes_quant_agent.Authority.Plan.{plan_event}
use hermes_quant_agent.Authority.Closed.{StaysClosed, reduce-StaysClosed}
use hermes_quant_agent.Authority.BindingLaws.{reduce-Extends}
use hermes_quant_agent.Authority.Drafting.{replay-IsKept}
use hermes_quant_agent.Authority.Planning.{WellPlanned, plan_event-WellPlanned}
use hermes_quant_agent.Authority.Recorded.{WellDrafted, build_record-is_valid_record}
use hermes_quant_agent.Authority.Persisted.{IsPersisted}
use hermes_quant_agent.Authority.Retries.{
  apply-retry, apply-IsPersisted, apply-conflict, apply-appends,
}
use hermes_quant_agent.Authority.Exclusive.{apply-exclusive}
use hermes_quant_agent.Examples.Hash.{owner}
use hermes_quant_agent.Examples.Computing.{computing}
use hermes_quant_agent.Examples.Run.{
  no_files, payload_1, start_command, task_1, attempt_1, tombstone_command,
}
use hermes_quant_agent.Examples.Finished.{
  is_ok, or_else, ok-or_else, unequal, finished, finished_projection, finished-replays,
  finished_task, finished-task, finished-closed,
}
use hermes_quant_agent.Prelude.{leb, ◌⊎◌, nat_eq}
use hermes_quant_agent.Authority.Event.{payload_tombstone_observed}
use hermes_quant_agent.Examples.Run.{digest_1}

-- A first command.
nothing : Applied
nothing = record {
  files = no_files;
  result = record {
    receipt = record {
      operation_id = [];
      operation_digest = [];
      event_id = [];
      task_ref = [];
      task_version = 0;
      attempt_ref = none;
    };
    replayed = true;
  };
}

ascii : Unicode
ascii = record { is_space = λ c. c == 32; is_printable = λ c. leb 32 c }

started : Applied
started = or_else nothing (apply owner no_files start_command 10)

started-is_ok : is_ok (apply owner no_files start_command 10) ≡ true
unfolding is_ok computing
started-is_ok = refl

started-ok : apply owner no_files start_command 10 ≡ ok started
unfolding started
started-ok = ok-or_else nothing (apply owner no_files start_command 10) started-is_ok

start-valid : validate_command ascii start_command ≡ ok tt
unfolding computing ascii
start-valid = refl

apply-retry_example :
    apply owner started.files start_command 500
    ≡ ok (record {
      files = started.files;
      result = record { receipt = started.result.receipt; replayed = true };
    })
apply-retry_example =
    apply-retry owner no_files ascii start_command 10 500 started start-valid started-ok

apply-IsPersisted_example :
    IsPersisted owner start_command (canonical_command_digest owner.digests start_command) started
apply-IsPersisted_example =
    apply-IsPersisted owner no_files ascii start_command 10 started start-valid started-ok

-- the first operation id with another workspace
other_command : Command
other_command = record {
  operation_id = text "op-1";
  request = start_research (record {
    workspace_ref = text "workspace:v";
    managed_session_ref = text "session:s";
    payload_ref = payload_1;
    intent_expires_at = 1000;
  });
}

other-digest :
    canonical_command_digest owner.digests start_command
    ≢ canonical_command_digest owner.digests other_command
unfolding computing other_command
other-digest = unequal _ _ refl

other-operation : other_command.operation_id ≡ start_command.operation_id
unfolding other_command
other-operation = refl

apply-conflict_example :
    apply owner started.files other_command 500 ≡ err workflow_idempotency_conflict
apply-conflict_example =
    apply-conflict owner no_files ascii start_command other_command 10 500 started start-valid
      started-ok other-operation other-digest

apply-appends_example :
    (started.files.journal ≡ no_files.journal × started.result.replayed ≡ true)
    ⊎ ((r : Record) × (started.files.journal ≡ no_files.journal ++ r ∷ [])
        × (started.result ≡ record { receipt = receipt_of r; replayed = false }))
apply-appends_example = apply-appends owner no_files start_command 10 started started-ok

-- Two commands for the first version of the task: the second is the first one again.
version_1 : ExistingTask
version_1 = record { task_ref = task_1; expected_version = 1 }

submit : TaskCommand
submit = observe_submission (record { attempt_ref = attempt_1; command_ref = text "command:c1" })

submit_command : Command
submit_command = record { operation_id = text "op-2"; request = on_task version_1 submit }

submitted : Applied
submitted = or_else nothing (apply owner started.files submit_command 20)

submitted-is_ok : is_ok (apply owner started.files submit_command 20) ≡ true
unfolding is_ok or_else started submit_command submit version_1 computing
submitted-is_ok = refl

submitted-ok : apply owner started.files submit_command 20 ≡ ok submitted
unfolding submitted
submitted-ok = ok-or_else nothing (apply owner started.files submit_command 20) submitted-is_ok

submitted-new : submitted.result.replayed ≡ false
unfolding or_else started submitted submit_command submit version_1 computing
submitted-new = refl

resubmitted : Applied
resubmitted = or_else nothing (apply owner submitted.files submit_command 30)

resubmitted-is_ok : is_ok (apply owner submitted.files submit_command 30) ≡ true
unfolding is_ok or_else started submitted submit_command submit version_1 computing
resubmitted-is_ok = refl

resubmitted-ok : apply owner submitted.files submit_command 30 ≡ ok resubmitted
unfolding resubmitted
resubmitted-ok =
    ok-or_else nothing (apply owner submitted.files submit_command 30) resubmitted-is_ok

apply-exclusive_example : resubmitted.result.replayed ≡ true
unfolding submit_command
apply-exclusive_example =
    apply-exclusive owner started.files (text "op-2") (text "op-2") version_1 submit submit 20 30
      submitted resubmitted submitted-ok submitted-new resubmitted-ok

-- the record of a tombstone of the task that has ended
draft_1 : Draft
draft_1 = record {
  sequence = 16;
  previous_record_sha256 = none;
  operation_id = text "op-16";
  operation_digest = canonical_command_digest owner.digests tombstone_command;
  task_ref = task_1;
  attempt_ref = some attempt_1;
  task_version = 16;
  event = payload_tombstone_observed (record {
    attempt_ref = attempt_1;
    payload_ref = payload_1;
    tombstone_event_ref =
        text "event:3333333333333333333333333333333333333333333333333333333333333333";
    tombstone_digest = digest_1;
  });
  occurred_at = 2000;
}

tombstone_record : Record
tombstone_record = build_record owner draft_1

tombstone-reduced : is_ok (reduce owner finished_projection tombstone_record) ≡ true
unfolding is_ok or_else finished finished_projection draft_1 tombstone_record computing
tombstone-reduced = refl

reduce-StaysClosed_example :
    Ensures
      (λ (q : Projection). (u : Task) × (get task_1 q.tasks ≡ some u) × StaysClosed finished_task u)
      (reduce owner finished_projection tombstone_record)
reduce-StaysClosed_example =
    reduce-StaysClosed owner finished_projection tombstone_record finished_task finished-closed
      task_1 finished-task

reduce-Extends_example :
    Ensures
      (λ (q : Projection). Extends q.bindings finished_projection.bindings)
      (reduce owner finished_projection tombstone_record)
reduce-Extends_example = reduce-Extends owner finished_projection tombstone_record

draft-WellDrafted : WellDrafted draft_1
unfolding draft_1 computing
draft-WellDrafted = record {
  digest = refl;
  operation = refl;
  task = refl;
  attempt = refl;
  positive = omega arith;
  bounded = omega arith;
  kind = refl;
}

build_record-is_valid_record_example :
    is_valid_record owner
      (build_record owner draft_1)
      draft_1.sequence
      draft_1.previous_record_sha256
    ≡ true
build_record-is_valid_record_example = build_record-is_valid_record owner draft_1 draft-WellDrafted

plan_event-WellPlanned_example : Ensures WellPlanned (
    plan_event owner finished_projection start_command
      (canonical_command_digest owner.digests start_command)
      10)
plan_event-WellPlanned_example =
    plan_event-WellPlanned owner finished_projection
      (replay-IsKept owner finished.journal finished-replays).indexed ascii
      (canonical_command_digest owner.digests start_command) 10 start_command start-valid
