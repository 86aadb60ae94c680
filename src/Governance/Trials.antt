-- ===== src/Governance/Trials.antt =====
-- hqa/trials.py: the trial log of a factor and the warning that is read from its count.
use hermes_quant_agent.Prelude.{
  ℕ, suc, List, [], ◌∷◌, ◌++◌, Bool, false, Option, none, some, Text, text, text_eq, option_eq, ltb,
  ◌==◌, if◌then◌else◌,
}
use hermes_quant_agent.Prelude.Dict.{Dict, get, put}
use hermes_quant_agent.Json.{decimal}
use hermes_quant_agent.Texts.{strip}
use hermes_quant_agent.Governance.Lines.{contents, split_lines, is_newline}

-- A value of a record: a text, or another.
pub data Field : Type 0 where
  string : Text → Field
  other : Field

-- What `json.loads` makes of a line.
pub data Line : Type 0 where
  object : Dict Text Field → Line
  invalid not_object : Line

-- `json.dumps(entry, ensure_ascii=False)` and `json.loads`, the latter with the errors that are caught.
pub record Codec : Type 0 where
  pub dumps : Dict Text Field → Text
  pub loads : Text → Line

abbrev pub overfit_threshold : ℕ
overfit_threshold = 3

-- `entry`
unfoldable pub trial_entry : Text → Dict Text Field → Dict Text Field
trial_entry factor_id trial = put (text "factor_id") (string factor_id) trial

-- `append_trial`
unfoldable pub append_trial : Codec → Text → Dict Text Field → Option Text → Option Text
append_trial codec factor_id trial log =
    some (contents log ++ (codec.dumps (trial_entry factor_id trial) ++ b'\n' ∷ []))

abbrev pub is_factor : Text → Option Field → Bool
is_factor factor_id (some (string s)) = s == factor_id
is_factor factor_id (some other) = false
is_factor factor_id none = false

unfoldable pub counts : Text → Line → Bool
counts factor_id (object entry) = is_factor factor_id (get (text "factor_id") entry)
counts factor_id invalid = false
counts factor_id not_object = false

-- Whether a line of the file counts; a blank one does not.
unfoldable pub counts_line : Codec → Text → Text → Bool
counts_line codec factor_id [] = false
counts_line codec factor_id (c ∷ s) = counts factor_id (codec.loads (c ∷ s))

unfoldable pub count_lines : Codec → Text → List Text → ℕ
count_lines codec factor_id [] = 0
count_lines codec factor_id (line ∷ lines) =
    let rest = count_lines codec factor_id lines in
    if counts_line codec factor_id (strip line) then suc rest else rest

-- `count_trials`
unfoldable pub count_trials : Codec → Text → Option Text → ℕ
count_trials codec factor_id none = 0
count_trials codec factor_id (some s) = count_lines codec factor_id (split_lines is_newline s)

-- the text of `_WARNING_TEMPLATE` after the factor
abbrev pub warning_tail : Text
warning_tail = text " — 回测结果可信度随迭代次数下降；参考 D-21/复盘库，考虑 holdout --final 或收手"

-- `overfit_warning`
unfoldable pub overfit_warning : Text → ℕ → ℕ → Text
overfit_warning factor_id n threshold =
    if ltb n threshold
    then []
    else text "OVERFIT WARNING: trial "
      ++ (decimal n ++ (text " for " ++ (factor_id ++ warning_tail)))
