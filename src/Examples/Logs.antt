-- ===== src/Examples/Logs.antt =====
-- The logs of hqa/trials.py and hqa/reviewlog.py with codecs that know the lines of the examples.
use hermes_quant_agent.Prelude.{
  ◌+◌, ◌<◌, ◌≡◌, ◌↔◌, refl, sym, subst, arith, [], ◌∷◌, true, Option, none, some, Text, text,
  text_eq, nat_eq, option_eq, ◌==◌, length, take, if◌then◌else◌,
}
use hermes_quant_agent.Prelude.Dict.{Dict, get, put}
use hermes_quant_agent.Prelude.Outcome.{ok, ◌>>=◌}
use hermes_quant_agent.Clock.{padded}
use hermes_quant_agent.Patterns.{all_chars, strip_prefix}
use hermes_quant_agent.Texts.{strip, strip_left, strip_right, is_space}
use hermes_quant_agent.Predictions.Values.{render_id, three_digits}
use hermes_quant_agent.Governance.Lines.{
  contents, split_lines, is_newline, is_separator, is_ended, in_one_line,
}
use hermes_quant_agent.Governance.Trials
use hermes_quant_agent.Governance.Trials.{Field, trial_entry, count_trials, overfit_warning}
use hermes_quant_agent.Governance.Warnings
use hermes_quant_agent.Governance.Warnings.{append_all, append_trial-warning}
use hermes_quant_agent.Governance.Reviews.{
  Entry, Codec, load_from, read_line, read_lines, load_entries, append_entry, find_fingerprint,
  count_day, Draft, draft_entry, known_draft, next_entry_id, draft_unless_known, new_draft,
}
use hermes_quant_agent.Governance.Filing.{IsLine}
use hermes_quant_agent.Governance.Drafts.{
  Edits, no_file, drafted, CanBeFiled, IsFiled, new_draft-IsFiled,
}

abbrev trial_line : Text
trial_line = text "{'factor_id': 'f'}"

trial_codec : Trials.Codec
trial_codec = record {
  dumps = λ entry. trial_line;
  loads = λ line.
      if line == trial_line
      then Trials.object ((text "factor_id", Field.string (text "f")) ∷ [])
      else Trials.invalid;
}

trial-IsLine : Warnings.IsLine trial_codec (text "f") []
unfolding trial_codec trial_entry put in_one_line is_newline all_chars strip strip_left strip_right
    is_space text_eq nat_eq
trial-IsLine = record {
  one_line = refl;
  stripped = refl;
  some_text = (_, _, refl);
  read_back = refl;
}

none-ended : is_ended is_newline (contents none) ≡ true
unfolding is_ended contents
none-ended = refl

append_trial-warning_example :
    (overfit_warning
        (text "f")
        (count_trials trial_codec
          (text "f")
          (append_all trial_codec (text "f") ([] ∷ [] ∷ []) none))
        3
      ≡ [])
    ↔ (count_trials trial_codec (text "f") none + length {A = Dict Text Field} ([] ∷ [] ∷ []) < 3)
append_trial-warning_example =
    append_trial-warning trial_codec (text "f") ([] ∷ [] ∷ []) none 3 none-ended
      (trial-IsLine, (trial-IsLine, tt))

abbrev first_draft : Draft
first_draft = record {
  kind = text "drawdown";
  event = text "loss";
  entry_data = text "{}";
  source = text "paper";
  ts = text "2024-03-10T12:00:00Z";
  fingerprint = some (text "a");
}

abbrev second_draft : Draft
second_draft = record first_draft { fingerprint = some (text "b") }

abbrev first_id : Text
first_id = text "2024-03-10-001"

review_codec : Codec
review_codec = record {
  dumps = λ entry. if entry.id == first_id then text "{first}" else text "{second}";
  loads = λ line.
      if line == text "{first}"
      then some (draft_entry first_id first_draft)
      else some (draft_entry (text "2024-03-10-002") second_draft);
}

-- Names what the log computes with.
log_computing : Unit {0}
unfolding review_codec draft_entry next_entry_id render_id three_digits count_day strip_prefix
    contents split_lines is_separator in_one_line all_chars strip strip_left strip_right is_space
    read_line read_lines load_entries load_from append_entry find_fingerprint known_draft
    draft_unless_known new_draft put get text_eq nat_eq option_eq ◌>>=◌ take padded
log_computing = tt

first-IsLine : IsLine review_codec (draft_entry first_id first_draft)
unfolding log_computing
first-IsLine = record { one_line = refl; not_blank = refl; read_back = refl }

second-IsLine : IsLine review_codec (draft_entry (text "2024-03-10-002") second_draft)
unfolding log_computing
second-IsLine = record { one_line = refl; not_blank = refl; read_back = refl }

review_log : Option Text
review_log = append_entry review_codec (draft_entry first_id first_draft) none

read_first : load_entries review_codec none ≡ ok []
unfolding log_computing
read_first = refl

read_second :
    load_entries review_codec review_log ≡ ok ((first_id, draft_entry first_id first_draft) ∷ [])
unfolding review_log log_computing
read_second = refl

first-CanBeFiled : CanBeFiled review_codec first_draft none
unfolding log_computing
first-CanBeFiled entries h =
    let e : entries ≡ [] = cc read_first in
    subst (λ d. IsLine review_codec (draft_entry (next_entry_id (text "2024-03-10") d) first_draft))
      (sym e) first-IsLine

second-CanBeFiled : CanBeFiled review_codec second_draft review_log
unfolding log_computing
second-CanBeFiled entries h =
    let e : entries ≡ (first_id, draft_entry first_id first_draft) ∷ [] = cc read_second in
    subst
      (λ d. IsLine review_codec (draft_entry (next_entry_id (text "2024-03-10") d) second_draft))
      (sym e) second-IsLine

first-returned : new_draft review_codec first_draft none ≡ ok (first_id, review_log)
unfolding review_log log_computing
first-returned = refl

edited : Edits review_codec review_log
edited =
    drafted {file = none} first_draft first_id (omega arith) first-CanBeFiled first-returned no_file

new_draft-IsFiled_example :
    (entries : Dict Text Entry) × (result : Text × Option Text) × (load_entries review_codec
        review_log
      ≡ ok entries)
    × (new_draft review_codec second_draft review_log ≡ ok result)
    × IsFiled review_codec second_draft review_log entries result
new_draft-IsFiled_example =
    new_draft-IsFiled review_codec edited second_draft (omega arith) second-CanBeFiled
