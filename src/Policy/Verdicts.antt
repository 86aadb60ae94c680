-- ===== src/Policy/Verdicts.antt =====
-- hqa/factor_automation_policy.py: what an accepted evidence satisfies under a loaded policy.
use hermes_quant_agent.Prelude.{
  ◌≤◌, ◌<◌, ◌≡◌, ◌↔◌, refl, arith, List, Bool, true, false, Text, text_eq, Option, none, some,
}
use hermes_quant_agent.Prelude.Dict.{Dict}
use hermes_quant_agent.Prelude.Outcome.{ok}
use hermes_quant_agent.Prelude.Ensures.{Ensures, bind, done, fails, skip, checked}
use hermes_quant_agent.Floats.{Float, float_zero, float_one, magnitude, less, at_most}
use hermes_quant_agent.Policy.{
  FactorAutomationPolicy, LoadedFactorAutomationPolicy, FactorAutomationEvidence, has_duplicate,
  all_in, is_empty, universe_refused, numeric_valid, reason, reasons_against,
  evaluate_factor_automation_policy,
}
use hermes_quant_agent.Policy.Loading.{
  PolicyValue, flag, integer, float, string, strings, other, Outside, symbols, positive_int,
  bounded_float, required_flag, load_factor_automation_policy, within,
}

-- The tests of the evaluation, one by one.
pub record Passes (policy : FactorAutomationPolicy) (evidence : FactorAutomationEvidence)
    : Type 0 where
  pub some_symbol : is_empty evidence.universe ≡ false
  pub no_duplicate : has_duplicate evidence.universe ≡ false
  pub allowed : all_in policy.universe_allowlist evidence.universe ≡ true
  pub sample : policy.minimum_sample_rows ≤ evidence.sample_rows
  pub out_of_sample : policy.minimum_out_of_sample_rows ≤ evidence.out_of_sample_rows
  pub finite : numeric_valid evidence ≡ true
  pub covered : at_most policy.minimum_data_coverage_ratio evidence.data_coverage_ratio ≡ true
  pub ratio : at_most evidence.data_coverage_ratio float_one ≡ true
  pub cost : less evidence.transaction_cost_bps policy.minimum_transaction_cost_bps ≡ false
  pub drawdown : less policy.maximum_absolute_drawdown (magnitude evidence.max_drawdown) ≡ false
  pub turnover : less policy.maximum_turnover evidence.turnover ≡ false
  pub lookahead :
      policy.require_lookahead_static_check ≡ true → evidence.lookahead_static_check_passed ≡ true

-- A reason that is first is missing exactly if its test fails.
reason-empty :
    (refused : Bool) (name : Text) (later : List Text)
    → (is_empty (reason refused name later) ≡ true) ↔ ((refused ≡ false) × (is_empty later ≡ true))
unfolding reason
reason-empty true name later = (λ h. cc, λ h. cc)
reason-empty false name later = (λ h. (refl, h), λ h. h.1)

module _ (policy : FactorAutomationPolicy) (evidence : FactorAutomationEvidence) where
  passes : is_empty (reasons_against policy evidence) ≡ true → Passes policy evidence
  unfolding reasons_against universe_refused
  passes h =
      let (universe, h1) = (reason-empty _ _ _).0 h in
      let (sample, h2) = (reason-empty _ _ _).0 h1 in
      let (out, h3) = (reason-empty _ _ _).0 h2 in
      let (coverage, h4) = (reason-empty _ _ _).0 h3 in
      let (cost, h5) = (reason-empty _ _ _).0 h4 in
      let (drawdown, h6) = (reason-empty _ _ _).0 h5 in
      let (turnover, h7) = (reason-empty _ _ _).0 h6 in
      let (lookahead, _) = (reason-empty _ _ _).0 h7 in
      record {
        some_symbol = ground (arith, universe);
        no_duplicate = ground (arith, universe);
        allowed = ground (arith, universe);
        sample = ground (arith, sample);
        out_of_sample = ground (arith, out);
        finite = ground (arith, cost);
        covered = ground (arith, coverage);
        ratio = ground (arith, coverage);
        cost = ground (arith, cost);
        drawdown = ground (arith, drawdown);
        turnover = ground (arith, turnover);
        lookahead = λ required. ground (arith, lookahead, required);
      }

  no_reason : Passes policy evidence → is_empty (reasons_against policy evidence) ≡ true
  unfolding reasons_against universe_refused
  no_reason m = (reason-empty _ _ _).1 (
    ground (arith, m.some_symbol, m.no_duplicate, m.allowed),
    (reason-empty _ _ _).1 (
      ground (arith, m.sample),
      (reason-empty _ _ _).1 (
        ground (arith, m.out_of_sample),
        (reason-empty _ _ _).1 (
          ground (arith, m.finite, m.covered, m.ratio),
          (reason-empty _ _ _).1 (
            ground (arith, m.finite, m.cost),
            (reason-empty _ _ _).1 (
              ground (arith, m.finite, m.drawdown),
              (reason-empty _ _ _).1 (
                ground (arith, m.finite, m.turnover),
                (reason-empty _ _ _).1 (ground (arith, m.lookahead), refl),
              ),
            ),
          ),
        ),
      ),
    ),
  )

pub evaluate_factor_automation_policy-Passes :
    (loaded : LoadedFactorAutomationPolicy) (evidence : FactorAutomationEvidence)
    → ((evaluate_factor_automation_policy loaded evidence).accepted ≡ true)
      ↔ Passes loaded.policy evidence
unfolding evaluate_factor_automation_policy
evaluate_factor_automation_policy-Passes loaded evidence =
    (passes loaded.policy evidence, no_reason loaded.policy evidence)

-- What the loaded policy is known to be.
pub record IsSane (policy : FactorAutomationPolicy) : Type 0 where
  pub default_allowed : all_in policy.universe_allowlist policy.default_universe ≡ true
  pub sample : 0 < policy.minimum_sample_rows
  pub out_of_sample : 0 < policy.minimum_out_of_sample_rows
  pub coverage : less float_zero policy.minimum_data_coverage_ratio ≡ true
  pub drawdown : at_most policy.maximum_absolute_drawdown float_one ≡ true

positive_int-pos : (v : Option PolicyValue) → Ensures (λ n. 0 < n) (positive_int v)
unfolding positive_int
positive_int-pos (some (integer n x)) = checked _ _ _ λ h. done (ground (arith, h))
positive_int-pos (some (flag b)) = fails
positive_int-pos (some (float x)) = fails
positive_int-pos (some (string s)) = fails
positive_int-pos (some (strings values)) = fails
positive_int-pos (some other) = fails
positive_int-pos none = fails

within-bounds :
    (maximum x : Float)
    → Ensures
        (λ y. (less float_zero y ≡ true) × (at_most y maximum ≡ true))
        (within false maximum x)
unfolding within
within-bounds maximum x = checked _ _ _ λ h. done (ground (arith, h))

bounded_float-bounds :
    (maximum : Float) (v : Option PolicyValue)
    → Ensures
        (λ y. (less float_zero y ≡ true) × (at_most y maximum ≡ true))
        (bounded_float false maximum v)
unfolding bounded_float
bounded_float-bounds maximum (some (integer n x)) = within-bounds maximum x
bounded_float-bounds maximum (some (float x)) = within-bounds maximum x
bounded_float-bounds maximum (some (flag b)) = fails
bounded_float-bounds maximum (some (string s)) = fails
bounded_float-bounds maximum (some (strings values)) = fails
bounded_float-bounds maximum (some other) = fails
bounded_float-bounds maximum none = fails

load-IsSane :
    (outside : Outside) (document : Dict Text PolicyValue)
    → Ensures
        (λ (loaded : LoadedFactorAutomationPolicy). IsSane loaded.policy)
        (load_factor_automation_policy outside document)
unfolding load_factor_automation_policy
load-IsSane outside document = skip _ _ (
    skip _ _ (
      bind (symbols outside _) _ λ default _. bind (symbols outside _) _ λ allowlist _.
        checked _ _ _ λ allowed. bind (required_flag _) _ λ lookahead _.
          bind (positive_int _) _ λ sample s. bind (positive_int _) _ λ out o.
            bind (bounded_float _ _ _) _ λ coverage c. bind (bounded_float _ _ _) _ λ cost _.
              bind (bounded_float _ _ _) _ λ drawdown d. bind (bounded_float _ _ _) _ λ turnover _.
                done (record {
                  default_allowed = allowed;
                  sample = (positive_int-pos _).returns sample s;
                  out_of_sample = (positive_int-pos _).returns out o;
                  coverage = ((bounded_float-bounds _ _).returns coverage c).0;
                  drawdown = ((bounded_float-bounds _ _).returns drawdown d).1;
                })))

-- What a machine review needs, whatever the policy file holds.
pub record IsBacked (policy : FactorAutomationPolicy) (evidence : FactorAutomationEvidence)
    : Type 0 where
  pub some_symbol : is_empty evidence.universe ≡ false
  pub no_duplicate : has_duplicate evidence.universe ≡ false
  pub allowed : all_in policy.universe_allowlist evidence.universe ≡ true
  pub sample : 0 < evidence.sample_rows
  pub out_of_sample : 0 < evidence.out_of_sample_rows
  pub coverage : less float_zero evidence.data_coverage_ratio ≡ true
  pub drawdown : less float_one (magnitude evidence.max_drawdown) ≡ false

less-at_most : (x y z : Float) → less x y ≡ true → at_most y z ≡ true → less x z ≡ true
unfolding less at_most
less-at_most x y z h k = ground (arith, h, k)

less-at_most_refused : (x y z : Float) → less x y ≡ false → at_most x z ≡ true → less z y ≡ false
unfolding less at_most
less-at_most_refused x y z h k = ground (arith, h, k)

-- An evidence that is accepted under a policy that was loaded has some symbol and none twice, all
-- of them in the allowlist, some rows in the sample and out of it, a positive coverage, and a
-- drawdown that is not above 1.
pub load-evaluate_factor_automation_policy :
    (outside : Outside) (document : Dict Text PolicyValue) {loaded : LoadedFactorAutomationPolicy}
    (evidence : FactorAutomationEvidence)
    → load_factor_automation_policy outside document ≡ ok loaded
    → (evaluate_factor_automation_policy loaded evidence).accepted ≡ true
    → IsBacked loaded.policy evidence
load-evaluate_factor_automation_policy outside document {loaded} evidence h accepted =
    let sane = (load-IsSane outside document).returns loaded h in
    let m = (evaluate_factor_automation_policy-Passes loaded evidence).0 accepted in
    record {
      some_symbol = m.some_symbol;
      no_duplicate = m.no_duplicate;
      allowed = m.allowed;
      sample = omega (arith, sane.sample, m.sample);
      out_of_sample = omega (arith, sane.out_of_sample, m.out_of_sample);
      coverage =
          less-at_most float_zero loaded.policy.minimum_data_coverage_ratio
            evidence.data_coverage_ratio sane.coverage m.covered;
      drawdown =
          less-at_most_refused loaded.policy.maximum_absolute_drawdown
            (magnitude evidence.max_drawdown) float_one m.drawdown sane.drawdown;
    }
