-- ===== src/Governance/Gate.antt =====
-- hqa/gate.py: the criteria that a strategy's configuration must meet.
use hermes_quant_agent.Prelude.{
  ℕ, List, [], ◌∷◌, ◌++◌, Bool, true, false, not, ◌&&◌, ◌||◌, Option, none, some, Text, text,
  text_eq, nat_eq, option_eq, leb, ◌==◌, is_some, contains, if◌then◌else◌,
}
use hermes_quant_agent.Floats.{Float, magnitude, at_most}
use hermes_quant_agent.Patterns.{strip_prefix}
use hermes_quant_agent.Prelude.Dict.{Dict, get}
use hermes_quant_agent.Prelude.Outcome.{Result, ok, err, ◌>>=◌}

-- A value of the configuration: an integer with its sign and its magnitude, an array with its elements, where
-- `none` is one that is no text, an object with its keys.
pub data Setting : Type 0 where
  null : Setting
  flag : Bool → Setting
  integer : Bool → ℕ → Setting
  real : Float → Setting
  string : Text → Setting
  array : List (Option Text) → Setting
  object : List Text → Setting

-- `TypeError`
pub data GateError : Type 0 where
  type_error : GateError

-- One element of the results.
pub record Criterion : Type 0 where
  pub criterion : Text
  pub passed : Bool
  pub detail : Text

abbrev pub required_envelope_keys : List Text
required_envelope_keys =
    text "per_order_max_notional" ∷ text "symbol_whitelist" ∷ text "daily_loss_cap" ∷ []

abbrev pub is_empty {ℓ} : {A : Type ℓ} → List A → Bool
is_empty [] = true
is_empty (x ∷ xs) = false

-- `bool(value)`
abbrev pub is_set : Setting → Bool
is_set null = false
is_set (flag b) = b
is_set (integer negative n) = not (n == 0)
is_set (real x) = not (magnitude x == 0)
is_set (string s) = not (is_empty s)
is_set (array elements) = not (is_empty elements)
is_set (object keys) = not (is_empty keys)

-- the same of a value that may be missing, which reads as `None`
abbrev pub truthy : Option Setting → Bool
truthy none = false
truthy (some v) = is_set v

-- `value is True`
abbrev pub is_true : Option Setting → Bool
is_true none = false
is_true (some null) = false
is_true (some (flag b)) = b
is_true (some (integer negative n)) = false
is_true (some (real x)) = false
is_true (some (string s)) = false
is_true (some (array elements)) = false
is_true (some (object keys)) = false

-- `cfg.get("risk_envelope") or {}`
unfoldable pub envelope_of : Option Setting → Setting
envelope_of none = object []
envelope_of (some v) = if is_set v then v else object []

-- `key in s`
unfoldable pub is_part : Text → Text → Bool
is_part key [] = is_some (strip_prefix key [])
is_part key (c ∷ s) = let rest = is_part key s in is_some (strip_prefix key (c ∷ s)) || rest

-- `key in envelope`: a key of an object, an element of an array, a part of a text
unfoldable pub is_in_envelope : Text → Setting → Result GateError Bool
is_in_envelope key (object keys) = ok (contains key keys)
is_in_envelope key (array elements) = ok (contains (some key) elements)
is_in_envelope key (string s) = ok (is_part key s)
is_in_envelope key null = err type_error
is_in_envelope key (flag b) = err type_error
is_in_envelope key (integer negative n) = err type_error
is_in_envelope key (real x) = err type_error

-- `[k for k in REQUIRED_ENVELOPE_KEYS if k not in envelope]`
unfoldable pub missing_from : Setting → List Text → Result GateError (List Text)
missing_from envelope [] = ok []
missing_from envelope (key ∷ keys) = do
  present ← is_in_envelope key envelope
  rest ← missing_from envelope keys
  ok (if present then rest else key ∷ rest)

quoted : List Text → Text
quoted [] = []
quoted (key ∷ []) = b'\'' ∷ (key ++ b'\'' ∷ [])
quoted (key ∷ next ∷ keys) = b'\'' ∷ (key ++ b'\'' ∷ b',' ∷ b' ' ∷ quoted (next ∷ keys))

-- `f"missing: {missing}" if missing else "ok"`
unfoldable pub envelope_detail : List Text → Text
unfolding quoted
envelope_detail [] = text "ok"
envelope_detail (key ∷ keys) = text "missing: [" ++ (quoted (key ∷ keys) ++ b']' ∷ [])

-- `30.0`
abbrev pub thirty : Float
thirty = 4629137466983448576

-- `cfg.get("paper_days_completed", 0) >= 30`
unfoldable pub paper_month : Option Setting → Result GateError Bool
paper_month none = ok false
paper_month (some (integer negative n)) = ok (not negative && leb 30 n)
paper_month (some (real x)) = ok (at_most thirty x)
paper_month (some (flag b)) = ok false
paper_month (some null) = err type_error
paper_month (some (string s)) = err type_error
paper_month (some (array elements)) = err type_error
paper_month (some (object keys)) = err type_error

abbrev pub add : Text → Bool → Text → Criterion
add criterion passed detail = record { criterion = criterion; passed = passed; detail = detail }

-- `all(r["passed"] for r in results)`
unfoldable pub all_passed : List Criterion → Bool
all_passed [] = true
all_passed (r ∷ results) = r.passed && all_passed results

unfoldable pub check_strategy : Dict Text Setting → Result GateError (Bool × List Criterion)
check_strategy cfg = do
  let has_baseline = truthy (get (text "backtest_run_id") cfg) || is_some (get (text "sharpe") cfg)
  missing ← missing_from (envelope_of (get (text "risk_envelope") cfg)) required_envelope_keys
  month ← paper_month (get (text "paper_days_completed") cfg)
  let results =
      add (text "backtest_baseline") has_baseline (text "needs backtest_run_id or sharpe")
      ∷ add (text "risk_envelope") (is_empty missing) (envelope_detail missing)
      ∷ add (text "kill_switch_hook") (is_true (get (text "kill_switch_enabled") cfg))
          (text "needs kill_switch_enabled=true")
      ∷ add (text "review_hook") (is_true (get (text "review_on_drawdown") cfg))
          (text "needs review_on_drawdown=true")
      ∷ add (text "paper_month") month (text "needs paper_days_completed >= 30 (D-21)")
      ∷ []
  ok (all_passed results, results)
