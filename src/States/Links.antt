-- ===== src/States/Links.antt =====
-- A result link is written once: replaying a link is accepted, another link is refused.
use hermes_quant_agent.Prelude.{
  [], ◌∷◌, List, ◌≡◌, arith, Option, some, Text, text, text_eq, option_eq, ◌==◌, if◌then◌else◌,
  true,
}
use hermes_quant_agent.Prelude.Outcome.{Result, ok, err, ◌>>=◌}
use hermes_quant_agent.States.{StateError, state_error, is_result_ref, validate_result_link_append}

-- A caller that keeps the link which the check returned, over a list of proposals.
unfoldable pub link_all : Option Text → List Text → Result StateError (Option Text)
link_all existing [] = ok existing
link_all existing (proposed ∷ rest) =
    validate_result_link_append existing proposed >>= λ link. link_all (some link) rest

-- With a valid link in place, a proposal is accepted exactly when it equals the link; another
-- valid reference is refused as a rebind, and an invalid one as invalid.
pub validate_result_link_append_linked :
    (link proposed : Text)
    → is_result_ref link ≡ true
    → validate_result_link_append (some link) proposed ≡ (
        if proposed == link
        then ok link
        else if is_result_ref proposed
        then err (state_error (text "result_link_rebind") (text "result_ref"))
        else err (state_error (text "invalid_result_ref") (text "proposed_ref")))
unfolding validate_result_link_append ◌>>=◌
validate_result_link_append_linked link proposed h = ground arith
