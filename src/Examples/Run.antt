-- ===== src/Examples/Run.antt =====
-- A research task from its start to its end: a planning attempt, the human confirmation of the plan,
-- and an attempt that links a result.
use hermes_quant_agent.Prelude.{ℕ, ◌+◌, List, [], ◌∷◌, false, none, some, Text, text, text_eq}
use hermes_quant_agent.Prelude.Outcome.{ok, ◌>>=◌}
use hermes_quant_agent.Contract.Values.{completed}
use hermes_quant_agent.Contract.Command.{
  TaskCommand, Command, start_research, on_task, continue_research, propose_plan,
  request_plan_confirmation, confirm_plan, observe_submission, observe_run,
  observe_provider_evidence, link_result, complete_attempt, complete_task,
  observe_payload_tombstone,
}
use hermes_quant_agent.Authority.Errors.{Checked}
use hermes_quant_agent.Authority.Digests.{generated_task_ref, generated_attempt_ref}
use hermes_quant_agent.Authority.Apply.{Files, apply, canonical_command_digest}
use hermes_quant_agent.Examples.Hash.{owner}

abbrev pub digest_1 : Text
digest_1 = text "1111111111111111111111111111111111111111111111111111111111111111"

abbrev pub payload_1 : Text
payload_1 = text "payload:sha256:1111111111111111111111111111111111111111111111111111111111111111"

abbrev pub payload_2 : Text
payload_2 = text "payload:sha256:2222222222222222222222222222222222222222222222222222222222222222"

abbrev pub no_files : Files
no_files = record { journal = []; projection = none }

abbrev pub start_command : Command
start_command = record {
  operation_id = text "op-1";
  request = start_research (record {
    workspace_ref = text "workspace:w";
    managed_session_ref = text "session:s";
    payload_ref = payload_1;
    intent_expires_at = 1000;
  });
}

-- the task that the first command starts
unfoldable pub task_1 : Text
unfolding generated_task_ref canonical_command_digest
task_1 =
    generated_task_ref owner (text "op-1") (canonical_command_digest owner.digests start_command)

-- the first attempt
unfoldable pub attempt_1 : Text
unfolding generated_attempt_ref canonical_command_digest task_1
attempt_1 =
    generated_attempt_ref owner task_1 1 (canonical_command_digest owner.digests start_command)

abbrev pub later_command : Text → ℕ → TaskCommand → Command
later_command id version c = record {
  operation_id = id;
  request = on_task (record { task_ref = task_1; expected_version = version }) c;
}

unfoldable pub continue_command : Command
continue_command =
    later_command (text "op-9") 8
      (continue_research (record { payload_ref = payload_2; intent_expires_at = 1000 }))

unfoldable pub attempt_2 : Text
unfolding generated_attempt_ref canonical_command_digest task_1 continue_command
attempt_2 =
    generated_attempt_ref owner task_1 2 (canonical_command_digest owner.digests continue_command)

-- the commands of the planning attempt
unfoldable pub planning : List Command
planning =
    start_command
    ∷ later_command (text "op-2") 1
        (observe_submission (record { attempt_ref = attempt_1; command_ref = text "command:c1" }))
    ∷ later_command (text "op-3") 2 (
        observe_run (record {
          attempt_ref = attempt_1;
          command_ref = text "command:c1";
          run_ref = text "run:r1";
        }))
    ∷ later_command (text "op-4") 3 (
        observe_provider_evidence (record {
          attempt_ref = attempt_1;
          run_ref = text "run:r1";
          provider_evidence_ref = text "provider-evidence:e1";
        }))
    ∷ later_command (text "op-5") 4 (
        propose_plan (record {
          plan_version = 1;
          plan_digest = digest_1;
          plan_source_ref = text "run:r1";
          requires_formula_confirmation = false;
        }))
    ∷ later_command (text "op-6") 5
        (request_plan_confirmation (record { plan_version = 1; plan_digest = digest_1 }))
    ∷ later_command (text "op-7") 6 (
        confirm_plan
          (record { plan_version = 1; plan_digest = digest_1; confirmation_note = text "agreed" }))
    ∷ later_command (text "op-8") 7 (
        complete_attempt (record {
          attempt_ref = attempt_1;
          terminal_outcome = completed;
          run_ref = some (text "run:r1");
          provider_evidence_ref = some (text "provider-evidence:e1");
        }))
    ∷ []

-- the commands of the attempt that follows the plan
unfoldable pub researching : List Command
unfolding continue_command
researching =
    continue_command
    ∷ later_command (text "op-10") 9
        (observe_submission (record { attempt_ref = attempt_2; command_ref = text "command:c2" }))
    ∷ later_command (text "op-11") 10 (
        observe_run (record {
          attempt_ref = attempt_2;
          command_ref = text "command:c2";
          run_ref = text "run:r2";
        }))
    ∷ later_command (text "op-12") 11 (
        observe_provider_evidence (record {
          attempt_ref = attempt_2;
          run_ref = text "run:r2";
          provider_evidence_ref = text "provider-evidence:e2";
        }))
    ∷ later_command (text "op-13") 12 (
        link_result (record {
          attempt_ref = attempt_2;
          run_ref = text "run:r2";
          result_ref = text "result:f1";
        }))
    ∷ later_command (text "op-14") 13 (
        complete_attempt (record {
          attempt_ref = attempt_2;
          terminal_outcome = completed;
          run_ref = some (text "run:r2");
          provider_evidence_ref = some (text "provider-evidence:e2");
        }))
    ∷ later_command (text "op-15") 14 (
        complete_task (record {
          terminal_outcome = completed;
          run_ref = some (text "run:r2");
          provider_evidence_ref = some (text "provider-evidence:e2");
        }))
    ∷ []

-- the observation of the first payload's tombstone, for the task that has ended
unfoldable pub tombstone_command : Command
unfolding attempt_1
tombstone_command = later_command (text "op-16") 15 (
    observe_payload_tombstone (record {
      attempt_ref = attempt_1;
      payload_ref = payload_1;
      tombstone_event_ref =
          text "event:3333333333333333333333333333333333333333333333333333333333333333";
      tombstone_digest = digest_1;
    }))

-- The commands one after the other, at instants from `now` on.
unfoldable pub apply_all : Files → ℕ → List Command → Checked Files
apply_all files now [] = ok files
apply_all files now (c ∷ rest) = apply owner files c now >>= λ x. apply_all x.files (now + 1) rest
