-- ===== src/States.antt =====
-- hqa/agent_workspace_states.py: the closed state sets of the workspace entities, the check of one
-- transition, and the write-once link of a result.
mod Table
pub mod Machine
pub mod Laws
pub mod Links
pub mod Endings
use hermes_quant_agent.Prelude.{
  ℕ, [], ◌∷◌, List, Bool, ◌&&◌, not, Option, none, some, Text, text, text_eq, option_eq, ◌==◌,
  contains, is_some, is_none,
}
use hermes_quant_agent.Prelude.Dict.{Dict, get}
use hermes_quant_agent.Prelude.Outcome.{Result, Done, ok, err, ◌>>=◌, ◌>>◌, check, refuse}
use hermes_quant_agent.Patterns.{is_name, strip_prefix, holds_of}
unfoldable pub use Table.{transitions}

-- `WorkspaceStateError`: a stable code and the field that it is about.
pub record StateError : Type 0 where
  pub code : Text
  pub field : Text

abbrev pub state_error : Text → Text → StateError
state_error code field = record { code = code; field = field }

-- `_transitions_for`
unfoldable pub transitions_for : Text → Result StateError (Dict Text (List Text))
transitions_for kind = elim (get kind transitions) [
  | none ↦ err (state_error (text "unknown_kind") (text "kind"))
  | some machine ↦ ok machine
]

-- `_validate_state`
unfoldable pub validate_state : Dict Text (List Text) → Text → Text → Result StateError Done
validate_state machine state field =
    check (is_some (get state machine)) (state_error (text "unknown_state") field)

unfoldable pub validate_entity_state : Text → Text → Result StateError Done
unfolding transitions_for validate_state
validate_entity_state kind state = do
  machine ← transitions_for kind
  validate_state machine state (text "state")

-- `transitions[before]`, read after `before` was validated
unfoldable pub successors : Text → Dict Text (List Text) → List Text
successors before machine = elim (get before machine) [ none ↦ [] | some after ↦ after ]

unfoldable pub validate_transition : Text → Text → Text → Result StateError Done
unfolding transitions_for validate_state successors
validate_transition kind before after = do
  machine ← transitions_for kind
  validate_state machine before (text "before")
  validate_state machine after (text "after")
  refuse (before == after) (state_error (text "same_state") (text "after"))
  check (contains after (successors before machine))
      (state_error (text "invalid_transition") (text "after"))

-- `_RESULT_REF_RE`: `result:[A-Za-z0-9][A-Za-z0-9._:-]{0,192}\Z`
unfoldable pub is_result_ref : Text → Bool
unfolding is_name strip_prefix holds_of
is_result_ref value = holds_of (is_name (text "._:-") 192) (strip_prefix (text "result:") value)

-- `_validate_result_ref`
unfoldable pub validate_result_ref : Text → Text → Result StateError Done
unfolding is_result_ref
validate_result_ref value field =
    check (is_result_ref value) (state_error (text "invalid_result_ref") field)

unfoldable pub validate_existing : Option Text → Result StateError Done
unfolding validate_result_ref
validate_existing none = ok tt
validate_existing (some existing) = validate_result_ref existing (text "existing_ref")

unfoldable pub validate_result_link_append : Option Text → Text → Result StateError Text
unfolding validate_existing validate_result_ref
validate_result_link_append existing_ref proposed_ref = do
  validate_existing existing_ref
  validate_result_ref proposed_ref (text "proposed_ref")
  refuse (is_some existing_ref && not (existing_ref == some proposed_ref))
      (state_error (text "result_link_rebind") (text "result_ref"))
  ok proposed_ref
