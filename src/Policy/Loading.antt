-- ===== src/Policy/Loading.antt =====
-- hqa/factor_automation_policy.py: `load_factor_automation_policy` from the decoded document. Reading and
-- decoding the file is outside, and gives a document whose fields have different names.
use hermes_quant_agent.Prelude.{
  ℕ, List, [], ◌∷◌, Bool, true, false, not, ◌&&◌, Option, none, some, Text, text, text_eq, ltb, leb,
  ◌==◌, if◌then◌else◌,
}
use hermes_quant_agent.Prelude.Dict.{Dict, get}
use hermes_quant_agent.Prelude.Outcome.{Result, ok, err, ◌>>=◌, ◌>>◌, check}
use hermes_quant_agent.Floats.{Float, float_zero, float_one, is_finite, less, at_most}
use hermes_quant_agent.Policy.{LoadedFactorAutomationPolicy, has_duplicate, all_in, is_empty}

-- A value of the document. An integer stands with the float that it converts to.
pub data PolicyValue : Type 0 where
  flag : Bool → PolicyValue
  integer : ℕ → Float → PolicyValue
  float : Float → PolicyValue
  string : Text → PolicyValue
  strings : List Text → PolicyValue
  other : PolicyValue

-- `FactorAutomationPolicyError`
pub data PolicyError : Type 0 where
  policy_error : PolicyError

-- What Python's character tables and its JSON and hash libraries make of a text and of a document.
pub record Outside : Type 0 where
  pub upper : Text → Text
  pub is_alnum : Text → Bool
  pub policy_digest : Dict Text PolicyValue → Text

-- `symbol.replace(".", "")`
unfoldable pub without_dots : Text → Text
without_dots [] = []
without_dots (c ∷ s) =
    let rest = without_dots s in if leb c b'.' && leb b'.' c then rest else c ∷ rest

module _ (outside : Outside) where
  unfoldable pub is_symbol : Text → Bool
  is_symbol symbol =
      not (is_empty symbol)
      && symbol == outside.upper symbol
      && outside.is_alnum (without_dots symbol)

  unfoldable pub all_symbols : List Text → Bool
  all_symbols [] = true
  all_symbols (x ∷ xs) = is_symbol x && all_symbols xs

  -- `_symbols`
  unfoldable pub symbols : Option PolicyValue → Result PolicyError (List Text)
  symbols (some (strings values)) =
      check (not (is_empty values) && all_symbols values && not (has_duplicate values)) policy_error
      >> ok values
  symbols (some (flag b)) = err policy_error
  symbols (some (integer n x)) = err policy_error
  symbols (some (float x)) = err policy_error
  symbols (some (string s)) = err policy_error
  symbols (some other) = err policy_error
  symbols none = err policy_error

-- `_positive_int`
unfoldable pub positive_int : Option PolicyValue → Result PolicyError ℕ
positive_int (some (integer n x)) = check (ltb 0 n) policy_error >> ok n
positive_int (some (flag b)) = err policy_error
positive_int (some (float x)) = err policy_error
positive_int (some (string s)) = err policy_error
positive_int (some (strings values)) = err policy_error
positive_int (some other) = err policy_error
positive_int none = err policy_error

unfoldable pub within : Bool → Float → Float → Result PolicyError Float
within inclusive maximum x =
    let lower_ok = if inclusive then at_most float_zero x else less float_zero x in
    check (is_finite x && lower_ok && at_most x maximum) policy_error >> ok x

-- `_bounded_float` with the minimum 0, which it may include
unfoldable pub bounded_float : Bool → Float → Option PolicyValue → Result PolicyError Float
bounded_float inclusive maximum (some (integer n x)) = within inclusive maximum x
bounded_float inclusive maximum (some (float x)) = within inclusive maximum x
bounded_float inclusive maximum (some (flag b)) = err policy_error
bounded_float inclusive maximum (some (string s)) = err policy_error
bounded_float inclusive maximum (some (strings values)) = err policy_error
bounded_float inclusive maximum (some other) = err policy_error
bounded_float inclusive maximum none = err policy_error

unfoldable pub required_flag : Option PolicyValue → Result PolicyError Bool
required_flag (some (flag b)) = ok b
required_flag (some (integer n x)) = err policy_error
required_flag (some (float x)) = err policy_error
required_flag (some (string s)) = err policy_error
required_flag (some (strings values)) = err policy_error
required_flag (some other) = err policy_error
required_flag none = err policy_error

abbrev pub is_text : Text → Option PolicyValue → Bool
is_text expected (some (string s)) = s == expected
is_text expected (some (flag b)) = false
is_text expected (some (integer n x)) = false
is_text expected (some (float x)) = false
is_text expected (some (strings values)) = false
is_text expected (some other) = false
is_text expected none = false

-- `_POLICY_FIELDS`
abbrev policy_fields : List Text
policy_fields =
    text "schema_version"
    ∷ text "default_universe"
    ∷ text "universe_allowlist"
    ∷ text "minimum_sample_rows"
    ∷ text "minimum_out_of_sample_rows"
    ∷ text "minimum_data_coverage_ratio"
    ∷ text "minimum_transaction_cost_bps"
    ∷ text "maximum_absolute_drawdown"
    ∷ text "maximum_turnover"
    ∷ text "require_lookahead_static_check"
    ∷ []

unfoldable pub keys : Dict Text PolicyValue → List Text
keys [] = []
keys ((key, _) ∷ rest) = key ∷ keys rest

-- `set(document) != _POLICY_FIELDS`, as two inclusions
unfoldable pub fields_match : Dict Text PolicyValue → Bool
fields_match document = all_in policy_fields (keys document) && all_in (keys document) policy_fields

-- 10000.0 and 1000000.0
abbrev ten_thousand : Float
ten_thousand = 4666723172467343360

abbrev million : Float
million = 4696837146684686336

unfoldable pub load_factor_automation_policy :
    Outside → Dict Text PolicyValue → Result PolicyError LoadedFactorAutomationPolicy
load_factor_automation_policy outside document = do
  check (fields_match document) policy_error
  check (is_text (text "hqa.factor_automation_policy/v1") (get (text "schema_version") document))
      policy_error
  default_universe ← symbols outside (get (text "default_universe") document)
  universe_allowlist ← symbols outside (get (text "universe_allowlist") document)
  check (all_in universe_allowlist default_universe) policy_error
  require_lookahead ← required_flag (get (text "require_lookahead_static_check") document)
  sample_rows ← positive_int (get (text "minimum_sample_rows") document)
  out_of_sample_rows ← positive_int (get (text "minimum_out_of_sample_rows") document)
  coverage ← bounded_float false float_one (get (text "minimum_data_coverage_ratio") document)
  cost ← bounded_float true ten_thousand (get (text "minimum_transaction_cost_bps") document)
  drawdown ← bounded_float false float_one (get (text "maximum_absolute_drawdown") document)
  turnover ← bounded_float true million (get (text "maximum_turnover") document)
  ok (record {
    policy = record {
      default_universe = default_universe;
      universe_allowlist = universe_allowlist;
      minimum_sample_rows = sample_rows;
      minimum_out_of_sample_rows = out_of_sample_rows;
      minimum_data_coverage_ratio = coverage;
      minimum_transaction_cost_bps = cost;
      maximum_absolute_drawdown = drawdown;
      maximum_turnover = turnover;
      require_lookahead_static_check = require_lookahead;
    };
    policy_digest = outside.policy_digest document;
  })
