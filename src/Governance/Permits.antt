-- ===== src/Governance/Permits.antt =====
-- hqa/gate.py: what a configuration that passes the gate has.
use hermes_quant_agent.Prelude.{
  List, [], ◌∷◌, ◌++◌, Bool, true, false, ◌&&◌, ◌||◌, ◌≡◌, refl, ap, ◌∙◌, arith, Option, inl, inr,
  Bool-cases, same_text, none, some, Text, text, text_eq, nat_eq, option_eq, ◌==◌, is_some,
  contains, if◌then◌else◌, ◌≤◌,
}
use hermes_quant_agent.Floats.{at_most}
use hermes_quant_agent.Patterns.{strip_prefix}
use hermes_quant_agent.Patterns.Laws.{strip_prefix-eq-some}
use hermes_quant_agent.Prelude.Dict.{Dict, get}
use hermes_quant_agent.Prelude.Outcome.{ok, err}
use hermes_quant_agent.Prelude.Ensures.{Ensures, bind, done}
use hermes_quant_agent.Governance.Gate.{
  Setting, null, flag, integer, real, string, array, object, type_error, Criterion,
  required_envelope_keys, is_empty, is_set, truthy, is_true, envelope_of, is_part, is_in_envelope,
  missing_from, thirty, paper_month, all_passed, check_strategy,
}

-- The name is a key of an object, an element of an array, or a part of a text.
unfoldable pub Provides : Text → Option Setting → Type 0
Provides key (some (object keys)) = contains key keys ≡ true
Provides key (some (array elements)) = contains (some key) elements ≡ true
Provides key (some (string s)) = (before : Text) × (after : Text) × (s ≡ before ++ (key ++ after))
Provides key (some null) = ⊥
Provides key (some (flag b)) = ⊥
Provides key (some (integer negative n)) = ⊥
Provides key (some (real x)) = ⊥
Provides key none = ⊥

-- The value is a number that is at least 30.
unfoldable pub IsPaperMonth : Option Setting → Type 0
IsPaperMonth (some (integer negative n)) = (negative ≡ false) × (30 ≤ n)
IsPaperMonth (some (real x)) = at_most thirty x ≡ true
IsPaperMonth (some (object keys)) = ⊥
IsPaperMonth (some (array elements)) = ⊥
IsPaperMonth (some (string s)) = ⊥
IsPaperMonth (some null) = ⊥
IsPaperMonth (some (flag b)) = ⊥
IsPaperMonth none = ⊥

-- What a configuration must have.
pub record Permits (cfg : Dict Text Setting) : Type 0 where
  pub baseline :
      (truthy (get (text "backtest_run_id") cfg) || is_some (get (text "sharpe") cfg)) ≡ true
  pub envelope :
      (key : Text)
      → contains key required_envelope_keys ≡ true
      → Provides key (get (text "risk_envelope") cfg)
  pub kill_switch : get (text "kill_switch_enabled") cfg ≡ some (flag true)
  pub review : get (text "review_on_drawdown") cfg ≡ some (flag true)
  pub days : IsPaperMonth (get (text "paper_days_completed") cfg)

is_true-eq : (v : Option Setting) → is_true v ≡ true → v ≡ some (flag true)
is_true-eq (some (flag b)) h = rw h
is_true-eq (some null) h = cc
is_true-eq (some (integer negative n)) h = cc
is_true-eq (some (real x)) h = cc
is_true-eq (some (string s)) h = cc
is_true-eq (some (array elements)) h = cc
is_true-eq (some (object keys)) h = cc
is_true-eq none h = cc

prefix-part :
    (key s : Text) → is_some (strip_prefix key s) ≡ true → (after : Text) × (s ≡ key ++ after)
prefix-part key s h = at (strip_prefix key s) refl h
  where
    at :
        (o : Option Text)
        → strip_prefix key s ≡ o
        → is_some o ≡ true
        → (after : Text) × (s ≡ key ++ after)
    at (some after) e h = (after, strip_prefix-eq-some key s after e)
    at none e h = cc

is_part-eq :
    (key s : Text)
    → is_part key s ≡ true
    → (before : Text) × (after : Text) × (s ≡ before ++ (key ++ after))
unfolding is_part
is_part-eq key [] h = let (after, e) = prefix-part key [] h in ([], after, e)
is_part-eq key (c ∷ s) h = elim (Bool-cases (is_some (strip_prefix key (c ∷ s)))) [
  | inl here ↦ let (after, e) = prefix-part key (c ∷ s) here in ([], after, e)
  | inr not_here ↦
      let (before, after, e) = is_part-eq key s (ground (arith, h, not_here)) in
      (c ∷ before, after, ap (◌∷◌ c) e)
]

-- What is no container holds no name, whether or not it is replaced by the empty object.
refuses :
    (key : Text) (b : Bool) (v : Setting)
    → is_in_envelope key v ≡ err type_error
    → is_in_envelope key (if b then v else object []) ≡ ok true
    → ⊥
unfolding is_in_envelope
refuses key true v e h = cc
refuses key false v e h = cc

is_in_envelope-Provides :
    (key : Text) (v : Option Setting)
    → is_in_envelope key (envelope_of v) ≡ ok true
    → Provides key v
unfolding is_in_envelope envelope_of Provides
is_in_envelope-Provides key none h = cc
is_in_envelope-Provides key (some null) h = cc
is_in_envelope-Provides key (some (flag true)) h = cc
is_in_envelope-Provides key (some (flag false)) h = cc
is_in_envelope-Provides key (some (integer negative n)) h =
    refuses key (is_set (integer negative n)) (integer negative n) refl h
is_in_envelope-Provides key (some (real x)) h = refuses key (is_set (real x)) (real x) refl h
is_in_envelope-Provides key (some (string [])) h = cc
is_in_envelope-Provides key (some (string (c ∷ s))) h = is_part-eq key (c ∷ s) (cc)
is_in_envelope-Provides key (some (array [])) h = cc
is_in_envelope-Provides key (some (array (x ∷ xs))) h = cc
is_in_envelope-Provides key (some (object [])) h = cc
is_in_envelope-Provides key (some (object (x ∷ xs))) h = cc

first_or_rest :
    (envelope : Setting) (k key : Text) (keys rest : List Text) (present : Bool)
    → is_in_envelope k envelope ≡ ok present
    → (is_empty rest ≡ true → contains key keys ≡ true → is_in_envelope key envelope ≡ ok true)
    → is_empty (if present then rest else k ∷ rest) ≡ true
    → contains key (k ∷ keys) ≡ true
    → is_in_envelope key envelope ≡ ok true
first_or_rest envelope k key keys rest false p later e c = cc
first_or_rest envelope k key keys rest true p later e c = elim (Bool-cases (key == k)) [
  | inl same ↦ ap (λ (x : Text). is_in_envelope x envelope) (same_text key k same) ∙ p
  | inr differ ↦ later e (ground (arith, c, differ))
]

none_missing :
    (envelope : Setting) (keys : List Text) (key : Text)
    → Ensures
        (λ (missing : List Text).
          is_empty missing ≡ true
          → contains key keys ≡ true
          → is_in_envelope key envelope ≡ ok true)
        (missing_from envelope keys)
unfolding missing_from
none_missing envelope [] key = done (λ e c. cc)
none_missing envelope (k ∷ keys) key = bind (is_in_envelope k envelope) _ λ present p.
    bind (missing_from envelope keys) _ λ rest r. done (
      first_or_rest envelope k key keys rest present p
        ((none_missing envelope keys key).returns rest r))

paper_month-true : (v : Option Setting) → paper_month v ≡ ok true → IsPaperMonth v
unfolding paper_month IsPaperMonth
paper_month-true none h = cc
paper_month-true (some (integer negative n)) h = (ground (arith, h), ground (arith, h))
paper_month-true (some (real x)) h = cc
paper_month-true (some (flag b)) h = cc
paper_month-true (some null) h = cc
paper_month-true (some (string s)) h = cc
paper_month-true (some (array elements)) h = cc
paper_month-true (some (object keys)) h = cc

five :
    (a b c d e : Bool)
    → (a && (b && (c && (d && (e && true))))) ≡ true
    → (a ≡ true) × (b ≡ true) × (c ≡ true) × (d ≡ true) × (e ≡ true)
five a b c d e h = ground arith

-- A configuration that check_strategy passes has a backtest baseline, a risk envelope with each of
-- the required names as a key, as an element or as a part of a text, its kill switch and its
-- review hook on, and a number of paper days that is at least 30.
pub check_strategy-Permits :
    (cfg : Dict Text Setting)
    → Ensures (λ (r : Bool × List Criterion). r.0 ≡ true → Permits cfg) (check_strategy cfg)
unfolding check_strategy all_passed
check_strategy-Permits cfg =
    let envelope = envelope_of (get (text "risk_envelope") cfg) in
    bind (missing_from envelope required_envelope_keys) _ λ missing found.
      bind (paper_month (get (text "paper_days_completed") cfg)) _ λ month known. done λ p.
        let (baseline, complete, kill, review, days) = five _ (is_empty missing) _ _ month p in
        record {
          baseline = baseline;
          envelope = λ key required. is_in_envelope-Provides key (get (text "risk_envelope") cfg) (
              (none_missing envelope required_envelope_keys key).returns missing found complete
                required);
          kill_switch = is_true-eq (get (text "kill_switch_enabled") cfg) kill;
          review = is_true-eq (get (text "review_on_drawdown") cfg) review;
          days = paper_month-true (get (text "paper_days_completed") cfg) (known ∙ ap ok days);
        }
