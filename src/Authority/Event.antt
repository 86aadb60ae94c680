-- ===== src/Authority/Event.antt =====
-- The events of the journal with their `data`, and a journal record.
use hermes_quant_agent.Prelude.{ℕ, Option, Text, text}
use hermes_quant_agent.Contract.Command.{
  Plan, RequestPlanConfirmation, BindCandidateManifest, ObserveSubmission, ObserveRun,
  ObserveProviderEvidence, ObserveGate3, LinkResult, EnterDomainGate, ResolveDomainGate,
  BeginReconcile, ResolveReconcile, RequestStop, ObserveStop, CompleteAttempt, CompleteTask,
  ExpiryMutation,
}

-- The fields that create an attempt.
pub record AttemptCreation : Type 0 where
  pub attempt_ref : Text
  pub attempt_number : ℕ
  pub payload_ref : Text
  pub payload_digest : Text
  pub intent_expires_at : ℕ

pub record ResearchStarted : Type 0 where
  pub workspace_ref : Text
  pub managed_session_ref : Text
  pub creation : AttemptCreation

-- The plan fields may be `None` in a document; the reduction then refuses it.
pub record PlanFields : Type 0 where
  pub plan_version : Option ℕ
  pub plan_digest : Option Text
  pub plan_source_ref : Option Text

pub record ResearchContinued : Type 0 where
  pub creation : AttemptCreation
  pub plan : PlanFields

pub record ResearchClaimBound : Type 0 where
  pub attempt_ref : Text
  pub payload_ref : Text
  pub payload_digest : Text
  pub research_claim_digest : Text

pub record PlanConfirmed : Type 0 where
  pub plan_version : ℕ
  pub plan_digest : Text
  pub confirmation_note_digest : Text

pub record FormulaConfirmed : Type 0 where
  pub gate_ref : Text
  pub reviewed_source_digest : Text
  pub confirmation_note_digest : Text

-- `event_type` with its `data`
pub data Event : Type 0 where
  research_started : ResearchStarted → Event
  research_continued : ResearchContinued → Event
  research_claim_bound : ResearchClaimBound → Event
  plan_proposed : Plan → Event
  plan_revised : Plan → Event
  plan_confirmation_requested : RequestPlanConfirmation → Event
  plan_confirmed : PlanConfirmed → Event
  formula_confirmed : FormulaConfirmed → Event
  candidate_manifest_bound : BindCandidateManifest → Event
  task_completed : CompleteTask → Event
  submission_observed : ObserveSubmission → Event
  run_observed : ObserveRun → Event
  provider_evidence_observed : ObserveProviderEvidence → Event
  gate3_observed : ObserveGate3 → Event
  result_linked : LinkResult → Event
  domain_gate_entered : EnterDomainGate → Event
  domain_gate_resolved : ResolveDomainGate → Event
  reconcile_started : BeginReconcile → Event
  reconcile_resolved : ResolveReconcile → Event
  stop_requested : RequestStop → Event
  stop_observed : ObserveStop → Event
  attempt_completed : CompleteAttempt → Event
  intent_expired : ExpiryMutation → Event
  payload_tombstone_observed : ExpiryMutation → Event
  -- any other event type
  unknown_event : Text → Event

unfoldable pub event_type : Event → Text
event_type (research_started d) = text "research_started"
event_type (research_continued d) = text "research_continued"
event_type (research_claim_bound d) = text "research_claim_bound"
event_type (plan_proposed d) = text "plan_proposed"
event_type (plan_revised d) = text "plan_revised"
event_type (plan_confirmation_requested d) = text "plan_confirmation_requested"
event_type (plan_confirmed d) = text "plan_confirmed"
event_type (formula_confirmed d) = text "formula_confirmed"
event_type (candidate_manifest_bound d) = text "candidate_manifest_bound"
event_type (task_completed d) = text "task_completed"
event_type (submission_observed d) = text "submission_observed"
event_type (run_observed d) = text "run_observed"
event_type (provider_evidence_observed d) = text "provider_evidence_observed"
event_type (gate3_observed d) = text "gate3_observed"
event_type (result_linked d) = text "result_linked"
event_type (domain_gate_entered d) = text "domain_gate_entered"
event_type (domain_gate_resolved d) = text "domain_gate_resolved"
event_type (reconcile_started d) = text "reconcile_started"
event_type (reconcile_resolved d) = text "reconcile_resolved"
event_type (stop_requested d) = text "stop_requested"
event_type (stop_observed d) = text "stop_observed"
event_type (attempt_completed d) = text "attempt_completed"
event_type (intent_expired d) = text "intent_expired"
event_type (payload_tombstone_observed d) = text "payload_tombstone_observed"
event_type (unknown_event name) = name

-- A record of the journal. `schema_version` and the digests are those of the document.
pub record Record : Type 0 where
  pub schema_version : ℕ
  pub sequence : ℕ
  pub event_id : Text
  pub operation_id : Text
  pub operation_digest : Text
  pub owner_user_id : Text
  pub task_ref : Text
  pub attempt_ref : Option Text
  pub task_version : ℕ
  pub event : Event
  pub occurred_at : ℕ
  pub previous_record_sha256 : Option Text
  pub record_sha256 : Text
