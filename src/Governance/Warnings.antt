-- ===== src/Governance/Warnings.antt =====
-- hqa/trials.py: the trials that are appended to a log are counted, and warned of.
use hermes_quant_agent.Prelude.{
  ℕ, ◌+◌, ◌≡◌, refl, ◌∙◌, ap, arith, List, [], ◌∷◌, ◌++◌, true, Option, none, some, Text, text, All,
  text_eq, nat_eq, length, ◌<◌, ◌↔◌, ◌==◌,
}
use hermes_quant_agent.Prelude.Dict.{Dict, get-put_self}
use hermes_quant_agent.Texts.{strip}
use hermes_quant_agent.Governance.Lines.{
  contents, split_lines, is_newline, is_ended, in_one_line, split_lines-append, split_lines-line,
  is_ended-line, newline-ends,
}
use hermes_quant_agent.Governance.Trials.{
  Field, string, Line, object, Codec, trial_entry, append_trial, counts, counts_line, count_lines,
  count_trials, overfit_warning,
}

-- The entry of a trial is written as one line, without space around it, that is read back.
pub record IsLine (codec : Codec) (factor_id : Text) (trial : Dict Text Field) : Type 0 where
  pub one_line : in_one_line is_newline (codec.dumps (trial_entry factor_id trial)) ≡ true
  pub stripped :
      strip (codec.dumps (trial_entry factor_id trial)) ≡ codec.dumps (trial_entry factor_id trial)
  pub some_text : (c : ℕ) × (s : Text) × (codec.dumps (trial_entry factor_id trial) ≡ c ∷ s)
  pub read_back :
      codec.loads (codec.dumps (trial_entry factor_id trial)) ≡ object (trial_entry factor_id trial)

module _ (codec : Codec) where
  count_lines-append :
      (factor_id : Text) (xs ys : List Text)
      → count_lines codec factor_id (xs ++ ys)
        ≡ count_lines codec factor_id xs + count_lines codec factor_id ys
  unfolding count_lines
  count_lines-append factor_id [] ys = omega arith
  count_lines-append factor_id (line ∷ xs) ys = ground (arith, count_lines-append factor_id xs ys)

  counted_text :
      (factor_id s : Text) (line : Line)
      → ((c : ℕ) × (t : Text) × (s ≡ c ∷ t))
      → codec.loads s ≡ line
      → counts_line codec factor_id s ≡ counts factor_id line
  unfolding counts_line
  counted_text factor_id [] line (c, t, e) h = cc
  counted_text factor_id (c ∷ s) line e h = ap (counts factor_id) h

  counts-trial :
      (factor_id other_id : Text) (trial : Dict Text Field)
      → counts other_id (object (trial_entry factor_id trial)) ≡ (factor_id == other_id)
  unfolding counts trial_entry
  counts-trial f g trial = rw (get-put_self (text "factor_id") (string f) trial)

  -- The line of a trial counts for its factor.
  written :
      (factor_id : Text) (trial : Dict Text Field)
      → IsLine codec factor_id trial
      → count_lines codec factor_id
          (split_lines is_newline (codec.dumps (trial_entry factor_id trial) ++ b'\n' ∷ []))
        ≡ 1
  unfolding count_lines
  written f trial h =
      let line = codec.dumps (trial_entry f trial) in
      let counted : counts_line codec f line ≡ (f == f) =
        counted_text f line (object (trial_entry f trial)) h.some_text h.read_back
        ∙ counts-trial f f trial in
      ap (count_lines codec f) (split_lines-line is_newline line b'\n' h.one_line newline-ends)
      ∙ ground (arith, h.stripped, counted)

  count_trials-eq :
      (factor_id : Text) (log : Option Text)
      → count_trials codec factor_id log
        ≡ count_lines codec factor_id (split_lines is_newline (contents log))
  unfolding count_trials contents count_lines split_lines
  count_trials-eq f none = refl
  count_trials-eq f (some s) = refl

  append_trial-count :
      (factor_id : Text) (trial : Dict Text Field) (log : Option Text)
      → is_ended is_newline (contents log) ≡ true
      → IsLine codec factor_id trial
      → count_trials codec factor_id (append_trial codec factor_id trial log)
        ≡ count_trials codec factor_id log + 1
  unfolding append_trial count_trials
  append_trial-count f trial log ended h =
      let line = codec.dumps (trial_entry f trial) ++ b'\n' ∷ [] in
      ap (count_lines codec f) (split_lines-append is_newline (contents log) line ended)
      ∙ count_lines-append f (split_lines is_newline (contents log)) (split_lines is_newline line)
      ∙ omega (arith, written f trial h, count_trials-eq f log)

  append_trial-ended :
      (factor_id : Text) (trial : Dict Text Field) (log : Option Text)
      → is_ended is_newline (contents (append_trial codec factor_id trial log)) ≡ true
  unfolding append_trial contents
  append_trial-ended f trial log = is_ended-line is_newline (contents log) _ b'\n' newline-ends

-- `append_trial` for each of the trials
unfoldable pub append_all : Codec → Text → List (Dict Text Field) → Option Text → Option Text
append_all codec factor_id [] log = log
append_all codec factor_id (trial ∷ trials) log =
    append_all codec factor_id trials (append_trial codec factor_id trial log)

append_all-count :
    (codec : Codec) (factor_id : Text) (trials : List (Dict Text Field)) (log : Option Text)
    → is_ended is_newline (contents log) ≡ true
    → All (IsLine codec factor_id) trials
    → count_trials codec factor_id (append_all codec factor_id trials log)
      ≡ count_trials codec factor_id log + length trials
unfolding append_all
append_all-count codec f [] log ended h = omega arith
append_all-count codec f (trial ∷ trials) log ended (one, rest) = omega (
  arith,
  append_all-count codec f trials (append_trial codec f trial log)
      (append_trial-ended codec f trial log) rest,
  append_trial-count codec f trial log ended one,
)

-- After trials of a factor, each written in one line that is read back, are appended to a log
-- whose last line is ended, the warning for the factor is empty exactly if the trials that the log
-- had and those that were appended are together fewer than the threshold.
pub append_trial-warning :
    (codec : Codec) (factor_id : Text) (trials : List (Dict Text Field)) (log : Option Text)
    (threshold : ℕ)
    → is_ended is_newline (contents log) ≡ true
    → All (IsLine codec factor_id) trials
    → (overfit_warning factor_id
          (count_trials codec factor_id (append_all codec factor_id trials log))
          threshold
        ≡ [])
      ↔ (count_trials codec factor_id log + length trials < threshold)
unfolding overfit_warning
append_trial-warning codec f trials log threshold ended h =
    ground (arith, append_all-count codec f trials log ended h)
