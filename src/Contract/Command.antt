-- ===== src/Contract/Command.antt =====
-- The commands of hqa/workflow_contract.py, one record of fields for each class, and the two
-- internal expiry mutations of hqa/workflow_authority.py. An event's `data` holds the same fields
-- as its command where the two agree, and then shares the record.
use hermes_quant_agent.Prelude.{ℕ, Bool, Option, Text}
use hermes_quant_agent.Contract.Values.{
  TerminalOutcome, GateOutcome, StopOutcome, Reason, ResolvedState,
}

-- `StartResearch`, without the operation's id. A timestamp is the instant that it stands for, in
-- microseconds.
pub record StartResearch : Type 0 where
  pub workspace_ref : Text
  pub managed_session_ref : Text
  pub payload_ref : Text
  pub intent_expires_at : ℕ

pub record ContinueResearch : Type 0 where
  pub payload_ref : Text
  pub intent_expires_at : ℕ

pub record BindResearchClaim : Type 0 where
  pub attempt_ref : Text
  pub payload_ref : Text
  pub research_claim_digest : Text

-- `ProposePlan` and `RevisePlan`
pub record Plan : Type 0 where
  pub plan_version : ℕ
  pub plan_digest : Text
  pub plan_source_ref : Text
  pub requires_formula_confirmation : Bool

pub record RequestPlanConfirmation : Type 0 where
  pub plan_version : ℕ
  pub plan_digest : Text

pub record ConfirmPlan : Type 0 where
  pub plan_version : ℕ
  pub plan_digest : Text
  pub confirmation_note : Text

pub record ConfirmFormula : Type 0 where
  pub gate_ref : Text
  pub reviewed_source_digest : Text
  pub confirmation_note : Text

pub record BindCandidateManifest : Type 0 where
  pub gate_ref : Text
  pub candidate_ref : Text
  pub manifest_digest : Text

pub record ObserveSubmission : Type 0 where
  pub attempt_ref : Text
  pub command_ref : Text

pub record ObserveRun : Type 0 where
  pub attempt_ref : Text
  pub command_ref : Text
  pub run_ref : Text

pub record ObserveProviderEvidence : Type 0 where
  pub attempt_ref : Text
  pub run_ref : Text
  pub provider_evidence_ref : Text

pub record ObserveGate3 : Type 0 where
  pub attempt_ref : Text
  pub run_ref : Text
  pub gate_ref : Text
  pub candidate_ref : Text
  pub manifest_digest : Text
  pub final_receipt_ref : Text
  pub base_commit : Text

pub record LinkResult : Type 0 where
  pub attempt_ref : Text
  pub run_ref : Text
  pub result_ref : Text

pub record EnterDomainGate : Type 0 where
  pub attempt_ref : Text
  pub gate_ref : Text

pub record ResolveDomainGate : Type 0 where
  pub attempt_ref : Text
  pub gate_ref : Text
  pub outcome : GateOutcome

pub record BeginReconcile : Type 0 where
  pub attempt_ref : Text
  pub reason_code : Reason

pub record ResolveReconcile : Type 0 where
  pub attempt_ref : Text
  pub resolved_state : ResolvedState
  pub observation_digest : Text
  pub terminal_outcome : Option TerminalOutcome

pub record RequestStop : Type 0 where
  pub attempt_ref : Text
  pub run_ref : Text
  pub stop_command_ref : Text

pub record ObserveStop : Type 0 where
  pub attempt_ref : Text
  pub stop_command_ref : Text
  pub outcome : StopOutcome
  pub observation_digest : Text
  pub actual_terminal_outcome : Option TerminalOutcome

pub record CompleteAttempt : Type 0 where
  pub attempt_ref : Text
  pub terminal_outcome : TerminalOutcome
  pub run_ref : Option Text
  pub provider_evidence_ref : Option Text

pub record CompleteTask : Type 0 where
  pub terminal_outcome : TerminalOutcome
  pub run_ref : Option Text
  pub provider_evidence_ref : Option Text

-- `_ExpiryMutation`, whose two subclasses differ only in kind
pub record ExpiryMutation : Type 0 where
  pub attempt_ref : Text
  pub payload_ref : Text
  pub tombstone_event_ref : Text
  pub tombstone_digest : Text

-- `_ExistingTaskOperation`
pub record ExistingTask : Type 0 where
  pub task_ref : Text
  pub expected_version : ℕ

-- A command for a task that exists.
pub data TaskCommand : Type 0 where
  continue_research : ContinueResearch → TaskCommand
  bind_research_claim : BindResearchClaim → TaskCommand
  propose_plan : Plan → TaskCommand
  revise_plan : Plan → TaskCommand
  request_plan_confirmation : RequestPlanConfirmation → TaskCommand
  confirm_plan : ConfirmPlan → TaskCommand
  confirm_formula : ConfirmFormula → TaskCommand
  bind_candidate_manifest : BindCandidateManifest → TaskCommand
  observe_submission : ObserveSubmission → TaskCommand
  observe_run : ObserveRun → TaskCommand
  observe_provider_evidence : ObserveProviderEvidence → TaskCommand
  observe_gate3 : ObserveGate3 → TaskCommand
  link_result : LinkResult → TaskCommand
  enter_domain_gate : EnterDomainGate → TaskCommand
  resolve_domain_gate : ResolveDomainGate → TaskCommand
  begin_reconcile : BeginReconcile → TaskCommand
  resolve_reconcile : ResolveReconcile → TaskCommand
  request_stop : RequestStop → TaskCommand
  observe_stop : ObserveStop → TaskCommand
  complete_attempt : CompleteAttempt → TaskCommand
  complete_task : CompleteTask → TaskCommand
  expire_intent : ExpiryMutation → TaskCommand
  observe_payload_tombstone : ExpiryMutation → TaskCommand

pub data Request : Type 0 where
  start_research : StartResearch → Request
  on_task : ExistingTask → TaskCommand → Request

-- `WorkflowCommand`, and the `_ExpiryMutation`s that share its path
pub record Command : Type 0 where
  pub operation_id : Text
  pub request : Request
