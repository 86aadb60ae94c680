-- ===== src/Contract/Validation.antt =====
-- The validation that every command runs when it is made (`__post_init__`), with the code and the
-- field of the first failure. The classes of Unicode characters that `str.strip` and
-- `str.isprintable` use are parameters. The types of the fields, and the normal form of timestamps,
-- hold by the types of the records.
use hermes_quant_agent.Prelude.{
  ℕ, ◌-◌, ◌^◌, [], ◌∷◌, Bool, true, false, not, ◌&&◌, ◌||◌, Option, none, some, Text, text, text_eq,
  option_eq, nat_eq, ◌==◌, is_none, leb, if◌then◌else◌, utf8_length,
}
use hermes_quant_agent.Prelude.Outcome.{Result, Done, check, ◌>>◌}
use hermes_quant_agent.Patterns.{
  is_identifier, safe_digest, safe_ref, safe_event_ref, is_payload_ref,
}
use hermes_quant_agent.Contract.Values.{
  TerminalOutcome, GateOutcome, StopOutcome, Reason, ResolvedState, completed, failed, cancelled,
  stopped, passed, rejected, confirmed, already_terminal, outcome_unknown, terminal_outcome_eq,
  gate_outcome_eq,
}
use hermes_quant_agent.Contract.Command.{Plan, CompleteTask, ExpiryMutation, ExistingTask}

pub data Code : Type 0 where
  invalid_identifier invalid_ref invalid_digest invalid_version invalid_note invalid_value : Code
  -- `WorkflowAuthorityError("workflow_invalid_internal_expiry")`
  invalid_internal_expiry : Code

-- `WorkflowContractError`
pub record Violation : Type 0 where
  pub code : Code
  pub field : Text

abbrev pub Validated : Type 0
Validated = Result Violation Done

-- `_fail` unless `b`
unfoldable pub need : Bool → Code → Text → Validated
need b code field = check b (record { code = code; field = field })

-- What Python knows of Unicode characters.
pub record Unicode : Type 0 where
  pub is_space : ℕ → Bool
  pub is_printable : ℕ → Bool

-- `not s.strip()`
unfoldable pub is_blank : Unicode → Text → Bool
is_blank u [] = true
is_blank u (c ∷ s) = u.is_space c && is_blank u s

-- `s.isprintable()`
unfoldable pub all_printable : Unicode → Text → Bool
all_printable u [] = true
all_printable u (c ∷ s) = u.is_printable c && all_printable u s

unfoldable pub validate_identifier : Text → Text → Validated
unfolding need
validate_identifier value field = need (is_identifier value) invalid_identifier field

unfoldable pub validate_ref : Text → Text → Text → Validated
unfolding need
validate_ref value field prefix = need (safe_ref value prefix) invalid_ref field

-- `_validate_ref` of a field that may hold `None`
unfoldable pub validate_optional_ref : Option Text → Text → Text → Validated
unfolding need validate_ref
validate_optional_ref none field prefix = need false invalid_ref field
validate_optional_ref (some value) field prefix = validate_ref value field prefix

unfoldable pub validate_payload_ref : Text → Validated
unfolding need
validate_payload_ref value =
    need (is_payload_ref (text "payload:sha256:") value) invalid_ref (text "payload_ref")

unfoldable pub validate_digest : Text → Text → Validated
unfolding need
validate_digest value field = need (safe_digest value) invalid_digest field

unfoldable pub validate_positive_version : ℕ → Validated
unfolding need
validate_positive_version value =
    need (leb 1 value && leb value (2 ^ 63 - 1)) invalid_version (text "expected_version")

unfoldable pub validate_plan_version : ℕ → Validated
unfolding need
validate_plan_version value =
    need (leb 1 value && leb value (2 ^ 31 - 1)) invalid_version (text "plan_version")

-- `_validate_note`
unfoldable pub validate_note : Unicode → Text → Validated
unfolding need is_blank all_printable utf8_length
validate_note u value =
    need (not (is_blank u value) && all_printable u value && leb (utf8_length value) 2000)
      invalid_note (text "confirmation_note")

-- `_validate_terminal_outcome`
unfoldable pub is_terminal_outcome : TerminalOutcome → Bool
is_terminal_outcome (TerminalOutcome.other s) = false
is_terminal_outcome _ = true

-- `ProposePlan.__post_init__`, `RevisePlan.__post_init__`
unfoldable pub validate_plan : Plan → Validated
unfolding validate_plan_version validate_digest validate_ref
validate_plan c = do
  validate_plan_version c.plan_version
  validate_digest c.plan_digest (text "plan_digest")
  validate_ref c.plan_source_ref (text "plan_source_ref") (text "run:")

unfoldable pub is_final_resolution : GateOutcome → Bool
is_final_resolution passed = true
is_final_resolution rejected = true
is_final_resolution _ = false

unfoldable pub is_known_reason : Reason → Bool
is_known_reason (Reason.other s) = false
is_known_reason _ = true

-- the end of `ResolveReconcile.__post_init__`
unfoldable pub validate_resolution : ResolvedState → Option TerminalOutcome → Validated
unfolding need is_terminal_outcome
validate_resolution (ResolvedState.other s) outcome =
    need false invalid_value (text "resolved_state")
validate_resolution ResolvedState.running outcome =
    need (is_none outcome) invalid_value (text "terminal_outcome")
validate_resolution ResolvedState.terminal none = need false invalid_value (text "terminal_outcome")
validate_resolution ResolvedState.terminal (some outcome) =
    need (is_terminal_outcome outcome) invalid_value (text "terminal_outcome")

-- the end of `ObserveStop.__post_init__`
unfoldable pub is_stop_end : StopOutcome → Option TerminalOutcome → Bool
is_stop_end outcome_unknown actual = is_none actual
is_stop_end confirmed actual = actual == some stopped
is_stop_end already_terminal actual =
    actual == some completed
    || actual == some failed
    || actual == some cancelled
    || actual == some stopped
is_stop_end _ actual = false

unfoldable pub is_stop_outcome : StopOutcome → Bool
is_stop_outcome confirmed = true
is_stop_outcome already_terminal = true
is_stop_outcome outcome_unknown = true
is_stop_outcome _ = false

unfoldable pub is_task_outcome : TerminalOutcome → Bool
is_task_outcome completed = true
is_task_outcome failed = true
is_task_outcome cancelled = true
is_task_outcome stopped = true
is_task_outcome _ = false

-- the end of `CompleteTask.__post_init__`
unfoldable pub validate_completion : CompleteTask → Validated
unfolding need validate_optional_ref
validate_completion c =
    if c.terminal_outcome == completed
    then (do
      validate_optional_ref c.run_ref (text "run_ref") (text "run:")
      validate_optional_ref c.provider_evidence_ref (text "provider_evidence_ref")
          (text "provider-evidence:"))
    else need (is_none c.run_ref && is_none c.provider_evidence_ref) invalid_value
        (text "terminal_evidence")

-- `_ExpiryMutation.__post_init__`
unfoldable pub validate_expiry : Text → ExistingTask → ExpiryMutation → Validated
unfolding need
validate_expiry operation_id e c =
    need
      (is_identifier operation_id
        && safe_ref e.task_ref (text "task:")
        && (leb 1 e.expected_version && leb e.expected_version (2 ^ 63 - 1))
        && safe_ref c.attempt_ref (text "attempt:")
        && safe_ref c.payload_ref (text "payload:sha256:")
        && safe_event_ref c.tombstone_event_ref
        && safe_digest c.tombstone_digest)
      invalid_internal_expiry []

unfoldable pub validate_attempt : Text → Validated
unfolding validate_ref
validate_attempt value = validate_ref value (text "attempt_ref") (text "attempt:")

unfoldable pub validate_run : Text → Validated
unfolding validate_ref
validate_run value = validate_ref value (text "run_ref") (text "run:")

unfoldable pub validate_gate : Text → Validated
unfolding validate_ref
validate_gate value = validate_ref value (text "gate_ref") (text "gate:")
