-- ===== src/Authority/Errors.antt =====
-- The codes of `WorkflowAuthorityError` that the modelled code raises, and Python's `IndexError`.
use hermes_quant_agent.Prelude.Outcome.{Result}

pub data AuthorityError : Type 0 where
  workflow_idempotency_conflict workflow_event_quota workflow_intent_expired : AuthorityError
  workflow_binding_conflict workflow_task_not_found workflow_stale_version : AuthorityError
  workflow_intent_not_expired workflow_terminal_immutable workflow_duplicate_operation :
      AuthorityError
  workflow_terminal_or_missing_task workflow_journal_corrupt workflow_invalid_transition :
      AuthorityError
  workflow_attempt_not_terminal workflow_plan_conflict workflow_attempt_not_found : AuthorityError
  workflow_expiry_requires_terminal workflow_expiry_requires_reconcile : AuthorityError
  workflow_unknown_event workflow_invalid_ref workflow_invalid_cursor : AuthorityError
  workflow_event_cursor_stale workflow_invalid_operation workflow_invalid_limit : AuthorityError
  workflow_batch_quota workflow_record_quota workflow_journal_quota : AuthorityError
  workflow_projection_quota workflow_invalid_internal_expiry : AuthorityError
  workflow_backup_corrupt workflow_backup_quota workflow_restore_conflict : AuthorityError
  -- `WorkflowContractError("invalid_ref")`
  invalid_ref : AuthorityError
  -- `TypeError("unknown workflow mutation")`
  type_error : AuthorityError
  -- `task["attempts"][-1]` of an empty list
  index_error : AuthorityError

abbrev pub Checked {ℓ} : Type ℓ → Type ℓ
Checked A = Result AuthorityError A
