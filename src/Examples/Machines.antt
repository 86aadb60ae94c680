-- ===== src/Examples/Machines.antt =====
-- The theorems about the result links at concrete links.
use hermes_quant_agent.Prelude.{true, ◌≡◌, refl, some, text, text_eq, option_eq}
use hermes_quant_agent.Prelude.Outcome.{ok, err, ◌>>=◌}
use hermes_quant_agent.Patterns.{is_name, is_alnum, is_one_of, all_chars, strip_prefix, holds_of}
use hermes_quant_agent.States.{state_error, is_result_ref, validate_result_link_append}
use hermes_quant_agent.States.Links.{validate_result_link_append_linked}

link-valid : is_result_ref (text "result:f1") ≡ true
unfolding is_result_ref is_name is_alnum is_one_of all_chars strip_prefix holds_of
link-valid = refl

linked :
    validate_result_link_append (some (text "result:f1")) (text "result:f2")
    ≡ err (state_error (text "result_link_rebind") (text "result_ref"))
unfolding validate_result_link_append is_result_ref is_name is_alnum is_one_of all_chars
    strip_prefix holds_of ◌>>=◌ text_eq option_eq
linked = refl

validate_result_link_append_linked_example :
    validate_result_link_append (some (text "result:f1")) (text "result:f1") ≡ ok (text "result:f1")
unfolding text_eq
validate_result_link_append_linked_example =
    validate_result_link_append_linked (text "result:f1") (text "result:f1") link-valid
