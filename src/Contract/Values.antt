-- ===== src/Contract/Values.antt =====
-- The closed sets of text values of hqa/workflow_contract.py and hqa/workflow_authority.py. Each type
-- has a case for any other text, which a journal record could hold.
use hermes_quant_agent.Prelude.{Text, text, Eq, text_eq}

-- `terminal_outcome`, `actual_terminal_outcome`
pub data TerminalOutcome : Type 0 where
  completed failed cancelled stopped domain_gate_rejected intent_expired : TerminalOutcome
  other : Text → TerminalOutcome

-- the outcome of a domain gate
pub data GateOutcome : Type 0 where
  pending passed rejected : GateOutcome
  other : Text → GateOutcome

-- the outcome of a stop request
pub data StopOutcome : Type 0 where
  requested confirmed already_terminal outcome_unknown : StopOutcome
  other : Text → StopOutcome

-- `reason_code`
pub data Reason : Type 0 where
  submission_outcome_unknown run_outcome_unknown stop_outcome_unknown authority_recovery : Reason
  other : Text → Reason

-- `resolved_state`
pub data ResolvedState : Type 0 where
  running terminal : ResolvedState
  other : Text → ResolvedState

unfoldable pub TerminalOutcome-discrete : Discrete TerminalOutcome
unfolding text_eq
TerminalOutcome-discrete = hlevel text_eq.dec

unfoldable pub GateOutcome-discrete : Discrete GateOutcome
unfolding text_eq
GateOutcome-discrete = hlevel text_eq.dec

unfoldable pub StopOutcome-discrete : Discrete StopOutcome
unfolding text_eq
StopOutcome-discrete = hlevel text_eq.dec

instance unfoldable pub terminal_outcome_eq : Eq TerminalOutcome
unfolding TerminalOutcome-discrete
terminal_outcome_eq = record { dec = TerminalOutcome-discrete }

instance unfoldable pub gate_outcome_eq : Eq GateOutcome
unfolding GateOutcome-discrete
gate_outcome_eq = record { dec = GateOutcome-discrete }

instance unfoldable pub stop_outcome_eq : Eq StopOutcome
unfolding StopOutcome-discrete
stop_outcome_eq = record { dec = StopOutcome-discrete }

unfoldable pub terminal_outcome_text : TerminalOutcome → Text
terminal_outcome_text completed = text "completed"
terminal_outcome_text failed = text "failed"
terminal_outcome_text cancelled = text "cancelled"
terminal_outcome_text stopped = text "stopped"
terminal_outcome_text domain_gate_rejected = text "domain_gate_rejected"
terminal_outcome_text intent_expired = text "intent_expired"
terminal_outcome_text (TerminalOutcome.other s) = s

unfoldable pub gate_outcome_text : GateOutcome → Text
gate_outcome_text pending = text "pending"
gate_outcome_text passed = text "passed"
gate_outcome_text rejected = text "rejected"
gate_outcome_text (GateOutcome.other s) = s

unfoldable pub stop_outcome_text : StopOutcome → Text
stop_outcome_text requested = text "requested"
stop_outcome_text confirmed = text "confirmed"
stop_outcome_text already_terminal = text "already_terminal"
stop_outcome_text outcome_unknown = text "outcome_unknown"
stop_outcome_text (StopOutcome.other s) = s

unfoldable pub reason_text : Reason → Text
reason_text submission_outcome_unknown = text "submission_outcome_unknown"
reason_text run_outcome_unknown = text "run_outcome_unknown"
reason_text stop_outcome_unknown = text "stop_outcome_unknown"
reason_text authority_recovery = text "authority_recovery"
reason_text (Reason.other s) = s

unfoldable pub resolved_state_text : ResolvedState → Text
resolved_state_text running = text "running"
resolved_state_text terminal = text "terminal"
resolved_state_text (ResolvedState.other s) = s
