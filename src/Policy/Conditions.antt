-- ===== src/Policy/Conditions.antt =====
-- hqa/factor_automation_policy.py: the conditions of an accepted evidence, in terms of lists and numbers.
use hermes_quant_agent.Prelude.{
  ◌≤◌, ◌<◌, ◌≡◌, ◌≢◌, ◌↔◌, ◌⊎◌, inl, inr, refl, arith, List, [], ◌∷◌, Bool, true, false, Text,
  text_eq, Option, none, some, All, ◌==◌, contains, same_text, Bool-cases,
}
use hermes_quant_agent.Prelude.Dict.{Dict}
use hermes_quant_agent.Prelude.Outcome.{ok}
use hermes_quant_agent.Prelude.Ensures.{Ensures, bind, done, fails, skip, checked}
use hermes_quant_agent.Floats.{
  Float, float_one, magnitude, infinity, is_finite, is_nan, rank, less, at_most,
}
use hermes_quant_agent.Policy.{
  FactorAutomationPolicy, LoadedFactorAutomationPolicy, FactorAutomationEvidence, has_duplicate,
  all_in, is_empty, numeric_valid, evaluate_factor_automation_policy,
}
use hermes_quant_agent.Policy.Loading.{
  PolicyValue, flag, integer, float, string, strings, other, Outside, symbols, positive_int,
  bounded_float, required_flag, load_factor_automation_policy, within,
}
use hermes_quant_agent.Policy.Verdicts.{Passes, evaluate_factor_automation_policy-Passes}

-- The value stands in the list.
unfoldable pub IsIn : Text → List Text → Type 0
IsIn x [] = ⊥
IsIn x (y ∷ ys) = (x ≡ y) ⊎ IsIn x ys

-- Nothing stands twice in the list.
unfoldable pub IsDistinct : List Text → Type 0
unfolding IsIn
IsDistinct [] = Unit
IsDistinct (x ∷ xs) = (¬ (IsIn x xs)) × IsDistinct xs

-- The pattern of a number, neither an infinity nor a NaN.
abbrev pub IsNumber : Float → Type 0
IsNumber x = magnitude x < infinity

-- The conditions of the policy. Numbers are compared by their ranks, which are in the order of the values.
pub record Meets (policy : FactorAutomationPolicy) (evidence : FactorAutomationEvidence)
    : Type 0 where
  pub some_symbol : evidence.universe ≢ []
  pub distinct : IsDistinct evidence.universe
  pub allowed : All (λ (x : Text). IsIn x policy.universe_allowlist) evidence.universe
  pub sample : policy.minimum_sample_rows ≤ evidence.sample_rows
  pub out_of_sample : policy.minimum_out_of_sample_rows ≤ evidence.out_of_sample_rows
  pub coverage_number : IsNumber evidence.data_coverage_ratio
  pub cost_number : IsNumber evidence.transaction_cost_bps
  pub drawdown_number : IsNumber evidence.max_drawdown
  pub turnover_number : IsNumber evidence.turnover
  pub covered : rank policy.minimum_data_coverage_ratio ≤ rank evidence.data_coverage_ratio
  pub ratio : rank evidence.data_coverage_ratio ≤ rank float_one
  pub cost : rank policy.minimum_transaction_cost_bps ≤ rank evidence.transaction_cost_bps
  pub drawdown : rank (magnitude evidence.max_drawdown) ≤ rank policy.maximum_absolute_drawdown
  pub turnover : rank evidence.turnover ≤ rank policy.maximum_turnover
  pub lookahead :
      policy.require_lookahead_static_check ≡ true → evidence.lookahead_static_check_passed ≡ true

same_self : (x : Text) → (x == x) ≡ true
same_self x = ground arith

contains-IsIn : (x : Text) (xs : List Text) → contains x xs ≡ true → IsIn x xs
unfolding IsIn
contains-IsIn x [] h = cc
contains-IsIn x (y ∷ ys) h = elim (Bool-cases (x == y)) [
  | inl same ↦ inl (same_text x y same)
  | inr differ ↦ inr (contains-IsIn x ys (ground (arith, h, differ)))
]

IsIn-contains : (x : Text) (xs : List Text) → IsIn x xs → contains x xs ≡ true
unfolding IsIn
IsIn-contains x [] i = absurd i
IsIn-contains x (y ∷ ys) (inl same) = ground (arith, same, same_self x)
IsIn-contains x (y ∷ ys) (inr i) = ground (arith, IsIn-contains x ys i)

distinct : (xs : List Text) → has_duplicate xs ≡ false → IsDistinct xs
unfolding has_duplicate IsDistinct
distinct [] h = tt
distinct (x ∷ xs) h =
    (λ i. ground (arith, h, IsIn-contains x xs i), distinct xs (ground (arith, h)))

no_duplicate : (xs : List Text) → IsDistinct xs → has_duplicate xs ≡ false
unfolding has_duplicate IsDistinct
no_duplicate [] d = refl
no_duplicate (x ∷ xs) (new, d) = elim (Bool-cases (contains x xs)) [
  | inl again ↦ absurd (new (contains-IsIn x xs again))
  | inr once ↦ ground (arith, once, no_duplicate xs d)
]

all_in-All :
    (allowed xs : List Text) → all_in allowed xs ≡ true → All (λ (x : Text). IsIn x allowed) xs
unfolding all_in
all_in-All allowed [] h = tt
all_in-All allowed (x ∷ xs) h =
    (contains-IsIn x allowed (ground (arith, h)), all_in-All allowed xs (ground (arith, h)))

All-all_in :
    (allowed xs : List Text) → All (λ (x : Text). IsIn x allowed) xs → all_in allowed xs ≡ true
unfolding all_in
All-all_in allowed [] h = refl
All-all_in allowed (x ∷ xs) (i, rest) =
    ground (arith, IsIn-contains x allowed i, All-all_in allowed xs rest)

-- The thresholds of a loaded policy are numbers.
pub record HasNumbers (policy : FactorAutomationPolicy) : Type 0 where
  pub coverage : IsNumber policy.minimum_data_coverage_ratio
  pub cost : IsNumber policy.minimum_transaction_cost_bps
  pub drawdown : IsNumber policy.maximum_absolute_drawdown
  pub turnover : IsNumber policy.maximum_turnover

within-IsNumber :
    (inclusive : Bool) (maximum x : Float) → Ensures IsNumber (within inclusive maximum x)
unfolding within is_finite
within-IsNumber inclusive maximum x = checked _ _ _ λ h. done (ground (arith, h))

bounded_float-IsNumber :
    (inclusive : Bool) (maximum : Float) (v : Option PolicyValue)
    → Ensures IsNumber (bounded_float inclusive maximum v)
unfolding bounded_float
bounded_float-IsNumber inclusive maximum (some (integer n x)) = within-IsNumber inclusive maximum x
bounded_float-IsNumber inclusive maximum (some (float x)) = within-IsNumber inclusive maximum x
bounded_float-IsNumber inclusive maximum (some (flag b)) = fails
bounded_float-IsNumber inclusive maximum (some (string s)) = fails
bounded_float-IsNumber inclusive maximum (some (strings values)) = fails
bounded_float-IsNumber inclusive maximum (some other) = fails
bounded_float-IsNumber inclusive maximum none = fails

load-HasNumbers :
    (outside : Outside) (document : Dict Text PolicyValue)
    → Ensures
        (λ (loaded : LoadedFactorAutomationPolicy). HasNumbers loaded.policy)
        (load_factor_automation_policy outside document)
unfolding load_factor_automation_policy
load-HasNumbers outside document = skip _ _ (
    skip _ _ (
      bind (symbols outside _) _ λ default _. bind (symbols outside _) _ λ allowlist _.
        checked _ _ _ λ allowed. bind (required_flag _) _ λ lookahead _.
          bind (positive_int _) _ λ sample _. bind (positive_int _) _ λ out _.
            bind (bounded_float _ _ _) _ λ coverage c. bind (bounded_float _ _ _) _ λ cost k.
              bind (bounded_float _ _ _) _ λ drawdown d. bind (bounded_float _ _ _) _ λ turnover t.
                done (record {
                  coverage = (bounded_float-IsNumber _ _ _).returns coverage c;
                  cost = (bounded_float-IsNumber _ _ _).returns cost k;
                  drawdown = (bounded_float-IsNumber _ _ _).returns drawdown d;
                  turnover = (bounded_float-IsNumber _ _ _).returns turnover t;
                })))

-- On numbers the comparisons of floats are those of the ranks.
at_most-rank : (x y : Float) → at_most x y ≡ true → rank x ≤ rank y
unfolding at_most
at_most-rank x y h = ground (arith, h)

rank-at_most : (x y : Float) → IsNumber x → IsNumber y → rank x ≤ rank y → at_most x y ≡ true
unfolding at_most is_nan
rank-at_most x y m n h = ground (arith, m, n, h)

less-rank : (x y : Float) → IsNumber x → IsNumber y → less x y ≡ false → rank y ≤ rank x
unfolding less is_nan
less-rank x y m n h = ground (arith, m, n, h)

rank-less : (x y : Float) → rank y ≤ rank x → less x y ≡ false
unfolding less
rank-less x y h = ground (arith, h)

magnitude-IsNumber : (x : Float) → IsNumber x → IsNumber (magnitude x)
unfolding magnitude
magnitude-IsNumber x h = omega (arith, h)

float_one-IsNumber : IsNumber float_one
unfolding magnitude
float_one-IsNumber = omega arith

numbers :
    (evidence : FactorAutomationEvidence)
    → numeric_valid evidence ≡ true
    → IsNumber evidence.data_coverage_ratio
      × IsNumber evidence.transaction_cost_bps
      × IsNumber evidence.max_drawdown
      × IsNumber evidence.turnover
unfolding numeric_valid is_finite
numbers evidence h = (ground (arith, h), ground (arith, h), ground (arith, h), ground (arith, h))

not_empty : (xs : List Text) → is_empty xs ≡ false → xs ≢ []
not_empty [] h = cc
not_empty (x ∷ xs) h = λ e. cc

empty_not : (xs : List Text) → xs ≢ [] → is_empty xs ≡ false
empty_not [] h = absurd (h refl)
empty_not (x ∷ xs) h = refl

module _ (policy : FactorAutomationPolicy) (evidence : FactorAutomationEvidence)
    (thresholds : HasNumbers policy) where
  meets : Passes policy evidence → Meets policy evidence
  meets m =
      let (ratio, cost, drawdown, turnover) = numbers evidence m.finite in
      record {
        some_symbol = not_empty evidence.universe m.some_symbol;
        distinct = distinct evidence.universe m.no_duplicate;
        allowed = all_in-All policy.universe_allowlist evidence.universe m.allowed;
        sample = m.sample;
        out_of_sample = m.out_of_sample;
        coverage_number = ratio;
        cost_number = cost;
        drawdown_number = drawdown;
        turnover_number = turnover;
        covered = at_most-rank _ _ m.covered;
        ratio = at_most-rank _ _ m.ratio;
        cost = less-rank _ _ cost thresholds.cost m.cost;
        drawdown =
            less-rank _ _ thresholds.drawdown (magnitude-IsNumber evidence.max_drawdown drawdown)
              m.drawdown;
        turnover = less-rank _ _ thresholds.turnover turnover m.turnover;
        lookahead = m.lookahead;
      }

  passes : Meets policy evidence → Passes policy evidence
  unfolding numeric_valid is_finite
  passes m = record {
    some_symbol = empty_not evidence.universe m.some_symbol;
    no_duplicate = no_duplicate evidence.universe m.distinct;
    allowed = All-all_in policy.universe_allowlist evidence.universe m.allowed;
    sample = m.sample;
    out_of_sample = m.out_of_sample;
    finite = ground (arith, m.coverage_number, m.cost_number, m.drawdown_number, m.turnover_number);
    covered = rank-at_most _ _ thresholds.coverage m.coverage_number m.covered;
    ratio = rank-at_most _ _ m.coverage_number float_one-IsNumber m.ratio;
    cost = rank-less _ _ m.cost;
    drawdown = rank-less _ _ m.drawdown;
    turnover = rank-less _ _ m.turnover;
    lookahead = m.lookahead;
  }

-- Under a policy that was loaded, an evidence is accepted exactly if its universe is not empty,
-- has no symbol twice and only symbols of the allowlist, its rows are at least the minima, its
-- coverage, cost, drawdown and turnover are neither infinite nor NaN and lie on the allowed sides
-- of the thresholds, and the lookahead check passed where it is required.
pub evaluate_factor_automation_policy-Meets :
    (outside : Outside) (document : Dict Text PolicyValue) {loaded : LoadedFactorAutomationPolicy}
    (evidence : FactorAutomationEvidence)
    → load_factor_automation_policy outside document ≡ ok loaded
    → ((evaluate_factor_automation_policy loaded evidence).accepted ≡ true)
      ↔ Meets loaded.policy evidence
evaluate_factor_automation_policy-Meets outside document {loaded} evidence h =
    let thresholds = (load-HasNumbers outside document).returns loaded h in
    let (one, other_way) = evaluate_factor_automation_policy-Passes loaded evidence in
    (
      λ accepted. meets loaded.policy evidence thresholds (one accepted),
      λ m. other_way (passes loaded.policy evidence thresholds m),
    )
