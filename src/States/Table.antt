-- ===== src/States/Table.antt =====
-- `_TRANSITIONS` of hqa/agent_workspace_states.py: for each kind of entity, each state with the
-- states that may follow it.
use hermes_quant_agent.Prelude.{[], ◌∷◌, List, Text, text}
use hermes_quant_agent.Prelude.Dict.{Dict}

abbrev pub task_transitions : Dict Text (List Text)
task_transitions =
    (text "draft", text "plan_proposed" ∷ text "terminal" ∷ [])
    ∷ (text "plan_proposed", text "awaiting_plan_confirmation" ∷ text "terminal" ∷ [])
    ∷ (
      text "awaiting_plan_confirmation",
      text "plan_proposed"
          ∷ text "awaiting_formula_confirmation"
          ∷ text "ready"
          ∷ text "terminal"
          ∷ [],
    )
    ∷ (
      text "awaiting_formula_confirmation",
      text "plan_proposed" ∷ text "ready" ∷ text "terminal" ∷ [],
    )
    ∷ (text "ready", text "plan_proposed" ∷ text "running" ∷ text "terminal" ∷ [])
    ∷ (text "running", text "plan_proposed" ∷ text "awaiting_domain_gate" ∷ text "terminal" ∷ [])
    ∷ (text "awaiting_domain_gate", text "running" ∷ text "terminal" ∷ [])
    ∷ (text "terminal", [])
    ∷ []

abbrev pub attempt_transitions : Dict Text (List Text)
attempt_transitions =
    (
      text "planned",
      text "running" ∷ text "reconciling" ∷ text "stop_requested" ∷ text "terminal" ∷ [],
    )
    ∷ (text "running", text "reconciling" ∷ text "stop_requested" ∷ text "terminal" ∷ [])
    ∷ (text "reconciling", text "running" ∷ text "stop_requested" ∷ text "terminal" ∷ [])
    ∷ (text "stop_requested", text "reconciling" ∷ text "terminal" ∷ [])
    ∷ (text "terminal", [])
    ∷ []

abbrev pub submission_command_transitions : Dict Text (List Text)
submission_command_transitions =
    (text "queued", text "leased" ∷ text "cancelled" ∷ [])
    ∷ (
      text "leased",
      text "queued" ∷ text "delivered" ∷ text "outcome_unknown" ∷ text "failed" ∷ [],
    )
    ∷ (text "delivered", text "succeeded" ∷ text "failed" ∷ [])
    ∷ (text "outcome_unknown", text "delivered" ∷ text "succeeded" ∷ text "failed" ∷ [])
    ∷ (text "succeeded", [])
    ∷ (text "failed", [])
    ∷ (text "cancelled", [])
    ∷ []

abbrev pub hermes_run_transitions : Dict Text (List Text)
hermes_run_transitions =
    (text "queued", text "running" ∷ text "stopping" ∷ text "failed" ∷ text "cancelled" ∷ [])
    ∷ (
      text "running",
      text "waiting_for_approval"
          ∷ text "stopping"
          ∷ text "completed"
          ∷ text "failed"
          ∷ text "cancelled"
          ∷ [],
    )
    ∷ (
      text "waiting_for_approval",
      text "running" ∷ text "stopping" ∷ text "failed" ∷ text "cancelled" ∷ [],
    )
    ∷ (text "stopping", text "completed" ∷ text "failed" ∷ text "cancelled" ∷ [])
    ∷ (text "completed", [])
    ∷ (text "failed", [])
    ∷ (text "cancelled", [])
    ∷ []

abbrev pub command_approval_transitions : Dict Text (List Text)
command_approval_transitions =
    (text "pending", text "allowed_once" ∷ text "denied" ∷ text "expired" ∷ [])
    ∷ (text "allowed_once", [])
    ∷ (text "denied", [])
    ∷ (text "expired", [])
    ∷ []

abbrev pub stop_target_transitions : Dict Text (List Text)
stop_target_transitions =
    (
      text "requested",
      text "confirmed" ∷ text "already_terminal" ∷ text "not_applicable" ∷ text "unknown" ∷ [],
    )
    ∷ (text "unknown", text "confirmed" ∷ text "already_terminal" ∷ text "not_applicable" ∷ [])
    ∷ (text "confirmed", [])
    ∷ (text "already_terminal", [])
    ∷ (text "not_applicable", [])
    ∷ []

abbrev pub stop_overall_transitions : Dict Text (List Text)
stop_overall_transitions =
    (text "requested", text "reconciling" ∷ text "stopped" ∷ text "already_terminal" ∷ [])
    ∷ (text "reconciling", text "stopped" ∷ text "already_terminal" ∷ [])
    ∷ (text "stopped", [])
    ∷ (text "already_terminal", [])
    ∷ []

-- `_TRANSITIONS`
unfoldable pub transitions : Dict Text (Dict Text (List Text))
transitions =
    (text "task", task_transitions)
    ∷ (text "attempt", attempt_transitions)
    ∷ (text "submission_command", submission_command_transitions)
    ∷ (text "hermes_run", hermes_run_transitions)
    ∷ (text "command_approval", command_approval_transitions)
    ∷ (text "stop_target", stop_target_transitions)
    ∷ (text "stop_overall", stop_overall_transitions)
    ∷ []
