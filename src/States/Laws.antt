-- ===== src/States/Laws.antt =====
-- Chains of accepted transitions, and the states that end them.
use hermes_quant_agent.Prelude.{[], List, true, ◌≡◌, Text}
use hermes_quant_agent.Prelude.Dict.{Dict}
use hermes_quant_agent.Prelude.Outcome.{ok, accepts}
use hermes_quant_agent.States.{transitions_for, successors, validate_transition}

-- A chain of transitions that `validate_transition` accepts.
pub data Chain (kind : Text) : Text → Text → Type 0 where
  here : {a : Text} → Chain kind a a
  step :
      {a b c : Text}
      → accepts (validate_transition kind a b) ≡ true
      → Chain kind b c
      → Chain kind a c

-- `kind` is a kind of entity, `a` is one of its states and has no successor.
abbrev pub IsFinal : Text → Text → Type 0
IsFinal kind a =
    (machine : Dict Text (List Text)) × (transitions_for kind ≡ ok machine)
    × (successors a machine ≡ [])
