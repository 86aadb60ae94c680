-- ===== src/Authority/Store.antt =====
-- The projection: the tasks with their attempts, the operations, and the indexes of bound refs.
use hermes_quant_agent.Prelude.{ℕ, Bool, Option, List, Text, Eq, text_eq, option_eq}
use hermes_quant_agent.Prelude.Dict.{Dict}
use hermes_quant_agent.Contract.Values.{TerminalOutcome, GateOutcome, StopOutcome, Reason}
use hermes_quant_agent.States.Machine.{TaskState, AttemptState}

pub record Gate3Entry : Type 0 where
  pub run_ref : Text
  pub gate_ref : Text
  pub candidate_ref : Text
  pub manifest_digest : Text
  pub final_receipt_ref : Text
  pub base_commit : Text

pub record Attempt : Type 0 where
  pub attempt_ref : Text
  pub attempt_number : ℕ
  pub state : AttemptState
  pub payload_ref : Text
  pub payload_digest : Text
  pub intent_expires_at : ℕ
  pub creation_operation_id : Text
  pub creation_operation_digest : Text
  pub creation_event_id : Text
  pub payload_tombstone_event_ref : Option Text
  pub payload_tombstone_digest : Option Text
  pub payload_tombstone_operation_id : Option Text
  pub payload_tombstone_operation_digest : Option Text
  pub payload_tombstone_workflow_event_id : Option Text
  pub research_claim_digest : Option Text
  pub plan_version : Option ℕ
  pub plan_digest : Option Text
  pub plan_source_ref : Option Text
  pub submission_command_ref : Option Text
  pub run_ref : Option Text
  pub provider_evidence_refs : List Text
  pub gate3_refs : List Text
  pub gate3_entries : List Gate3Entry
  pub result_refs : List Text
  pub domain_gate_ref : Option Text
  pub domain_gate_outcome : Option GateOutcome
  pub stop_command_ref : Option Text
  pub stop_outcome : Option StopOutcome
  pub stop_observation_digest : Option Text
  pub reconcile_reason : Option Reason
  pub terminal_observation_digest : Option Text
  pub terminal_outcome : Option TerminalOutcome

pub record Task : Type 0 where
  pub task_ref : Text
  pub workspace_ref : Text
  pub managed_session_ref : Text
  pub version : ℕ
  pub state : TaskState
  pub plan_version : Option ℕ
  pub plan_digest : Option Text
  pub plan_source_ref : Option Text
  pub requires_formula_confirmation : Option Bool
  pub plan_confirmation_note_digest : Option Text
  pub gate1_ref : Option Text
  pub gate1_source_digest : Option Text
  pub gate1_note_digest : Option Text
  pub gate1_candidate_ref : Option Text
  pub gate1_manifest_digest : Option Text
  pub gate3_refs : List Text
  pub result_refs : List Text
  pub research_claim_digest : Option Text
  pub terminal_outcome : Option TerminalOutcome
  pub attempts : List Attempt

-- The keys of `projection["bindings"]`.
pub data Namespace : Type 0 where
  command_refs run_refs provider_evidence_refs result_refs gate_refs : Namespace
  tombstone_event_refs payload_tombstone_observations candidate_refs payload_refs : Namespace

pub data Role : Type 0 where
  submission stop gate1 domain : Role

-- The documents that the indexes hold, one constructor for each set of keys, in the order of the
-- source. Absent `role` or `command_ref` cannot be confused: the constructors differ.
pub data Binding : Type 0 where
  -- task_ref, attempt_ref, role
  role_binding : Text → Text → Role → Binding
  -- task_ref, attempt_ref, command_ref
  run_binding : Text → Text → Option Text → Binding
  -- task_ref, attempt_ref, run_ref
  evidence_binding : Text → Text → Text → Binding
  -- manifest_digest
  manifest_binding : Text → Binding
  -- attempt_ref, payload_ref, tombstone_digest
  tombstone_binding : Text → Text → Text → Binding
  -- owner_user_id, workspace_ref, managed_session_ref, task_ref, attempt_ref, payload_ref,
  -- tombstone_event_ref, tombstone_digest, operation_id, operation_digest, workflow_event_id,
  -- workflow_event_type
  observation_binding :
      Text → Text → Text → Text → Text → Text → Text → Text → Text → Text → Text → Text → Binding
  -- owner_user_id, workspace_ref, managed_session_ref, task_ref, attempt_ref,
  -- creation_operation_id, creation_operation_digest, creation_event_id
  payload_binding : Text → Text → Text → Text → Text → Text → Text → Text → Binding

unfoldable pub Namespace-discrete : Discrete Namespace
Namespace-discrete = hlevel

unfoldable pub Binding-discrete : Discrete Binding
unfolding text_eq option_eq
Binding-discrete = hlevel text_eq.dec

instance unfoldable pub namespace_eq : Eq Namespace
unfolding Namespace-discrete
namespace_eq = record { dec = Namespace-discrete }

instance unfoldable pub binding_eq : Eq Binding
unfolding Binding-discrete
binding_eq = record { dec = Binding-discrete }

abbrev pub Bindings : Type 0
Bindings = Namespace → Dict Text Binding

pub record Receipt : Type 0 where
  pub operation_id : Text
  pub operation_digest : Text
  pub event_id : Text
  pub task_ref : Text
  pub task_version : ℕ
  pub attempt_ref : Option Text

pub record Operation : Type 0 where
  pub operation_digest : Text
  pub receipt : Receipt

pub record Projection : Type 0 where
  pub last_sequence : ℕ
  pub last_record_sha256 : Option Text
  pub operations : Dict Text Operation
  pub bindings : Bindings
  pub tasks : Dict Text Task
