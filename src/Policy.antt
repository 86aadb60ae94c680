-- ===== src/Policy.antt =====
-- hqa/factor_automation_policy.py: the machine review policy of factor automation, how it is loaded and what it
-- accepts.
pub mod Loading
pub mod Verdicts
pub mod Conditions
use hermes_quant_agent.Prelude.{
  ℕ, List, [], ◌∷◌, ◌++◌, Bool, true, false, not, ◌&&◌, ◌||◌, Text, text, text_eq, ltb, ◌==◌,
  contains, if◌then◌else◌,
}
use hermes_quant_agent.Floats.{Float, float_one, is_finite, magnitude, less, at_most}

-- `FactorAutomationPolicy`, less its constant schema version
pub record FactorAutomationPolicy : Type 0 where
  pub default_universe : List Text
  pub universe_allowlist : List Text
  pub minimum_sample_rows : ℕ
  pub minimum_out_of_sample_rows : ℕ
  pub minimum_data_coverage_ratio : Float
  pub minimum_transaction_cost_bps : Float
  pub maximum_absolute_drawdown : Float
  pub maximum_turnover : Float
  pub require_lookahead_static_check : Bool

pub record LoadedFactorAutomationPolicy : Type 0 where
  pub policy : FactorAutomationPolicy
  pub policy_digest : Text

-- `FactorAutomationEvidence`; a negative number of rows stands as 0
pub record FactorAutomationEvidence : Type 0 where
  pub universe : List Text
  pub sample_rows : ℕ
  pub out_of_sample_rows : ℕ
  pub data_coverage_ratio : Float
  pub transaction_cost_bps : Float
  pub max_drawdown : Float
  pub turnover : Float
  pub lookahead_static_check_passed : Bool

pub record FactorAutomationDecision : Type 0 where
  pub accepted : Bool
  pub reasons : List Text
  pub policy_digest : Text
  pub universe : List Text

-- `len(set(values)) != len(values)`
unfoldable pub has_duplicate : List Text → Bool
has_duplicate [] = false
has_duplicate (x ∷ xs) = contains x xs || has_duplicate xs

-- every value is in the list
unfoldable pub all_in : List Text → List Text → Bool
all_in allowed [] = true
all_in allowed (x ∷ xs) = contains x allowed && all_in allowed xs

abbrev pub is_empty {ℓ} : {A : Type ℓ} → List A → Bool
is_empty [] = true
is_empty (x ∷ xs) = false

unfoldable pub universe_refused : FactorAutomationPolicy → List Text → Bool
universe_refused policy universe =
    is_empty universe || has_duplicate universe || not (all_in policy.universe_allowlist universe)

unfoldable pub numeric_valid : FactorAutomationEvidence → Bool
numeric_valid evidence =
    is_finite evidence.data_coverage_ratio
    && is_finite evidence.transaction_cost_bps
    && is_finite evidence.max_drawdown
    && is_finite evidence.turnover

-- `if refused: reasons.append(reason)`
unfoldable pub reason : Bool → Text → List Text → List Text
reason refused name later = if refused then name ∷ later else later

-- The reasons in the order in which they are appended.
unfoldable pub reasons_against : FactorAutomationPolicy → FactorAutomationEvidence → List Text
reasons_against policy evidence =
    let valid = numeric_valid evidence in
    reason (universe_refused policy evidence.universe) (text "universe_not_allowlisted") (
      reason (ltb evidence.sample_rows policy.minimum_sample_rows)
        (text "sample_rows_below_minimum")
        (reason (ltb evidence.out_of_sample_rows policy.minimum_out_of_sample_rows)
          (text "out_of_sample_rows_below_minimum")
          (reason
            (not valid
              || not (
                  at_most policy.minimum_data_coverage_ratio evidence.data_coverage_ratio
                  && at_most evidence.data_coverage_ratio float_one))
            (text "data_coverage_below_minimum")
            (reason
              (not valid || less evidence.transaction_cost_bps policy.minimum_transaction_cost_bps)
              (text "transaction_cost_assumption_too_low")
              (reason
                (not valid
                  || less policy.maximum_absolute_drawdown (magnitude evidence.max_drawdown))
                (text "max_drawdown_exceeded")
                (reason (not valid || less policy.maximum_turnover evidence.turnover)
                  (text "turnover_exceeded")
                  (reason
                    (policy.require_lookahead_static_check
                      && not evidence.lookahead_static_check_passed)
                    (text "lookahead_static_check_failed") [])))))))

unfoldable pub evaluate_factor_automation_policy :
    LoadedFactorAutomationPolicy → FactorAutomationEvidence → FactorAutomationDecision
evaluate_factor_automation_policy loaded evidence =
    let reasons = reasons_against loaded.policy evidence in
    record {
      accepted = is_empty reasons;
      reasons = reasons;
      policy_digest = loaded.policy_digest;
      universe = evidence.universe;
    }
