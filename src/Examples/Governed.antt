-- ===== src/Examples/Governed.antt =====
-- The theorems of research governance and of the machine review policy at concrete inputs.
use hermes_quant_agent.Prelude.{
  ℕ, ◌+◌, ◌-◌, ◌<◌, ◌≡◌, ◌↔◌, refl, List, [], ◌∷◌, Bool, true, false, some, Text, text, text_eq,
  nat_eq,
}
use hermes_quant_agent.Prelude.Dict.{Dict, get}
use hermes_quant_agent.Prelude.Outcome.{ok, ◌>>=◌}
use hermes_quant_agent.Prelude.Ensures.{Ensures}
use hermes_quant_agent.Clock
use hermes_quant_agent.Dates.{parse_date}
use hermes_quant_agent.Floats.{
  float_one, magnitude, is_negative, is_finite, is_nan, rank, less, at_most,
}
use hermes_quant_agent.States.{transitions, validate_entity_state}
use hermes_quant_agent.States.Endings.{Ends, validate_entity_state-Ends}
use hermes_quant_agent.Governance.Holdout.{
  holdout_days, holdout_note, Reserves, effective_backtest_end, effective_backtest_end-Reserves,
}
use hermes_quant_agent.Governance.Gate.{Setting, flag, Criterion, check_strategy}
use hermes_quant_agent.Governance.Permits.{Permits, check_strategy-Permits}
use hermes_quant_agent.Policy.{
  has_duplicate, all_in, universe_refused, numeric_valid, reason, reasons_against,
  LoadedFactorAutomationPolicy, FactorAutomationEvidence, evaluate_factor_automation_policy,
}
use hermes_quant_agent.Policy.Loading.{
  PolicyValue, Outside, without_dots, is_symbol, all_symbols, symbols, positive_int, within,
  bounded_float, required_flag, keys, fields_match, load_factor_automation_policy,
}
use hermes_quant_agent.Policy.Conditions.{Meets, evaluate_factor_automation_policy-Meets}
use hermes_quant_agent.Policy.Verdicts.{IsBacked, load-evaluate_factor_automation_policy}
use hermes_quant_agent.Examples.LedgerInput.{is_ok, or_else, ok-or_else}
use hermes_quant_agent.Examples.Computing.{computing}

draft-ok : validate_entity_state (text "task") (text "draft") ≡ ok tt
unfolding validate_entity_state transitions computing
draft-ok = refl

validate_entity_state-Ends_example : Ends (text "task") (text "draft")
validate_entity_state-Ends_example =
    validate_entity_state-Ends (text "task") (text "draft") draft-ok

effective_backtest_end-Reserves_example :
    ((result : Text × Text)
      → effective_backtest_end (text "2023-01-01") (text "2024-01-01") false ≡ ok result
      → Reserves (text "2023-01-01") (text "2024-01-01") result)
    × ((first last : ℕ)
        → parse_date (text "2023-01-01") ≡ some first
        → parse_date (text "2024-01-01") ≡ some last
        → first + holdout_days < last
        → effective_backtest_end (text "2023-01-01") (text "2024-01-01") false
          ≡ ok (Clock.date (last - holdout_days), holdout_note))
effective_backtest_end-Reserves_example =
    effective_backtest_end-Reserves (text "2023-01-01") (text "2024-01-01")

abbrev config : Dict Text Setting
config =
    (text "sharpe", Setting.integer false 1)
    ∷ (
      text "risk_envelope",
      Setting.object
          (text "per_order_max_notional" ∷ text "symbol_whitelist" ∷ text "daily_loss_cap" ∷ []),
    )
    ∷ (text "kill_switch_enabled", flag true)
    ∷ (text "review_on_drawdown", flag true)
    ∷ (text "paper_days_completed", Setting.integer false 31)
    ∷ []

check_strategy-Permits_example :
    Ensures (λ (r : Bool × List Criterion). r.0 ≡ true → Permits config) (check_strategy config)
check_strategy-Permits_example = check_strategy-Permits config

-- The character tables on the symbols below, and a digest.
policy_outside : Outside
policy_outside = record { upper = λ s. s; is_alnum = λ s. true; policy_digest = λ d. text "digest" }

abbrev document : Dict Text PolicyValue
document =
    (text "schema_version", PolicyValue.string (text "hqa.factor_automation_policy/v1"))
    ∷ (text "default_universe", PolicyValue.strings (text "SPY" ∷ []))
    ∷ (text "universe_allowlist", PolicyValue.strings (text "SPY" ∷ text "QQQ" ∷ []))
    ∷ (text "minimum_sample_rows", PolicyValue.integer 250 0)
    ∷ (text "minimum_out_of_sample_rows", PolicyValue.integer 60 0)
    ∷ (text "minimum_data_coverage_ratio", PolicyValue.float 4606281698874543309)
    ∷ (text "minimum_transaction_cost_bps", PolicyValue.float 4617315517961601024)
    ∷ (text "maximum_absolute_drawdown", PolicyValue.float 4599075939470750515)
    ∷ (text "maximum_turnover", PolicyValue.float 4617315517961601024)
    ∷ (text "require_lookahead_static_check", PolicyValue.flag true)
    ∷ []

abbrev evidence : FactorAutomationEvidence
evidence = record {
  universe = text "QQQ" ∷ text "SPY" ∷ [];
  sample_rows = 500;
  out_of_sample_rows = 100;
  data_coverage_ratio = float_one;
  transaction_cost_bps = 4617315517961601024;
  max_drawdown = 4599075939470750515;
  turnover = float_one;
  lookahead_static_check_passed = true;
}

no_policy : LoadedFactorAutomationPolicy
no_policy = record {
  policy = record {
    default_universe = [];
    universe_allowlist = [];
    minimum_sample_rows = 0;
    minimum_out_of_sample_rows = 0;
    minimum_data_coverage_ratio = 0;
    minimum_transaction_cost_bps = 0;
    maximum_absolute_drawdown = 0;
    maximum_turnover = 0;
    require_lookahead_static_check = false;
  };
  policy_digest = [];
}

-- Names what the loading and the verdict compute with.
policy_computing : Unit {0}
unfolding without_dots is_symbol all_symbols symbols positive_int within bounded_float required_flag
    keys fields_match load_factor_automation_policy has_duplicate all_in universe_refused
    numeric_valid reason reasons_against evaluate_factor_automation_policy magnitude is_negative
    is_finite is_nan rank less at_most text_eq nat_eq get ◌>>=◌ policy_outside
policy_computing = tt

loaded : LoadedFactorAutomationPolicy
loaded = or_else no_policy (load_factor_automation_policy policy_outside document)

loaded-is_ok : is_ok (load_factor_automation_policy policy_outside document) ≡ true
unfolding is_ok policy_computing
loaded-is_ok = refl

loaded-ok : load_factor_automation_policy policy_outside document ≡ ok loaded
unfolding loaded
loaded-ok =
    ok-or_else no_policy (load_factor_automation_policy policy_outside document) loaded-is_ok

accepted-runs : (evaluate_factor_automation_policy loaded evidence).accepted ≡ true
unfolding loaded or_else policy_computing
accepted-runs = refl

evaluate_factor_automation_policy-Meets_example :
    ((evaluate_factor_automation_policy loaded evidence).accepted ≡ true)
    ↔ Meets loaded.policy evidence
evaluate_factor_automation_policy-Meets_example =
    evaluate_factor_automation_policy-Meets policy_outside document {loaded = loaded} evidence
      loaded-ok

load-evaluate_factor_automation_policy_example : IsBacked loaded.policy evidence
load-evaluate_factor_automation_policy_example =
    load-evaluate_factor_automation_policy policy_outside document {loaded = loaded} evidence
      loaded-ok accepted-runs
