-- ===== src/Predictions/Numbering.antt =====
-- hqa/predictions.py: the ids `YYYY-MM-DD-NNN`, as `_prediction_id` and `_next_id` read them and as they are
-- written.
use hermes_quant_agent.Prelude.{
  ℕ, zero, suc, ◌+◌, ◌*◌, ◌-◌, ◌/◌, ◌%◌, ◌<◌, ◌≤◌, ◌≡◌, ◌≢◌, refl, sym, ap, ◌∙◌, arith, [], ◌∷◌,
  ◌++◌, true, false, some, none, ◌&&◌, ◌||◌, not, subst, Text, text_eq, nat_eq, ltb, leb, length,
  take, drop, ◌==◌, Option,
}
use hermes_quant_agent.Prelude.Outcome.{ok}
use hermes_quant_agent.Prelude.Ensures.{Ensures, bind, done, skip, checked, refused}
use hermes_quant_agent.Predictions.{LedgerError}
use hermes_quant_agent.Dates.{is_digit}
use hermes_quant_agent.Patterns.{all_chars}
use hermes_quant_agent.Json.{decimal, decimal_from}
use hermes_quant_agent.Clock.{padded}
use hermes_quant_agent.Predictions.Values.{
  invalid, or_error, strict_date, after_dash, split_id, int_of, three_digits, render_id,
  prediction_id,
}
use hermes_quant_agent.Predictions.Ledger.{sequence_in, sequence_on}

int_of-snoc :
    (acc : ℕ) (s : Text) (c : ℕ) → int_of acc (s ++ c ∷ []) ≡ int_of acc s * 10 + (c - b'0')
unfolding int_of
int_of-snoc acc [] c = refl
int_of-snoc acc (d ∷ s) c = int_of-snoc (acc * 10 + (d - b'0')) s c

int_of-decimal_from : (fuel n : ℕ) → n < fuel → int_of 0 (decimal_from fuel n) ≡ n
unfolding decimal_from int_of
int_of-decimal_from zero n h = absurd (omega arith)
int_of-decimal_from (suc fuel) n h = ground (
  arith,
  int_of-snoc 0 (decimal_from fuel (n / 10)) (b'0' + n % 10),
  int_of-decimal_from fuel (n / 10),
)

-- `int(f"{n:03d}") == n`
pub int_of-three_digits : (n : ℕ) → int_of 0 (three_digits n) ≡ n
unfolding three_digits padded int_of decimal
int_of-three_digits n = ground (arith, int_of-decimal_from (n + 1) n)

append_cancel : (s t u : Text) → s ++ t ≡ s ++ u → t ≡ u
append_cancel [] t u h = h
append_cancel (c ∷ s) t u h = append_cancel s t u (cc)

pub render_id_injective : (day : Text) (n m : ℕ) → render_id day n ≡ render_id day m → n ≡ m
unfolding render_id
render_id_injective day n m h =
    let tails : b'-' ∷ three_digits n ≡ b'-' ∷ three_digits m = append_cancel day _ _ h in
    let same : three_digits n ≡ three_digits m = cc in
    sym (int_of-three_digits n) ∙ ap (int_of 0) same ∙ int_of-three_digits m

take-drop : (n : ℕ) (s : Text) → take n s ++ drop n s ≡ s
unfolding take drop
take-drop n [] = refl
take-drop zero (c ∷ s) = refl
take-drop (suc n) (c ∷ s) = ap (λ t. c ∷ t) (take-drop n s)

after_dash-eq-some :
    (front back day digits : Text)
    → after_dash front back ≡ some (day, digits)
    → (front ≡ day) × (back ≡ b'-' ∷ digits)
unfolding after_dash
after_dash-eq-some front [] day digits h = cc
after_dash-eq-some front (c ∷ back) day digits h = ground arith

split_id-eq-some :
    (value day digits : Text) → split_id value ≡ some (day, digits) → value ≡ day ++ b'-' ∷ digits
unfolding split_id
split_id-eq-some value day digits h =
    let parts = after_dash-eq-some (take 10 value) (drop 10 value) day digits h in
    sym (take-drop 10 value) ∙ cc

or_error-eq-ok :
    {A : Type 0} (e : LedgerError) (o : Option A) {a : A} → or_error e o ≡ ok a → o ≡ some a
unfolding or_error
or_error-eq-ok e none h = cc
or_error-eq-ok e (some b) h = cc

pub strict_date-eq-ok : (value : Text) → Ensures (λ day. value ≡ day) (strict_date value)
unfolding strict_date
strict_date-eq-ok value = skip _ _ (done refl)

numbered :
    (day digits value : Text)
    → split_id value ≡ some (day, digits)
    → (all_chars is_digit digits && leb 3 (length digits) && leb (length digits) 12) ≡ true
    → sequence_on day value ≡ int_of 0 digits
unfolding sequence_on sequence_in
numbered day digits value h c = rw h (ground (arith, c))

elsewhere :
    (day other digits value : Text)
    → split_id value ≡ some (day, digits)
    → other ≢ day
    → sequence_on other value ≡ 0
unfolding sequence_on sequence_in
elsewhere day other digits value h n = rw h (ground (arith, n))

-- What `_prediction_id` returns for a text.
unfoldable pub IsNumber : Text → Text × ℕ → Type 0
IsNumber value (day, n) =
    (value ≡ render_id day n)
    × (1 ≤ n)
    × (sequence_on day value ≡ n)
    × ((other : Text) → other ≢ day → sequence_on other value ≡ 0)

canonical :
    (digits : Text) (n : ℕ)
    → (ltb n 1 || not (digits == three_digits n)) ≡ false
    → (1 ≤ n) × (digits ≡ three_digits n)
canonical digits n r = ground arith

split_id-IsNumber :
    (value day digits : Text)
    → split_id value ≡ some (day, digits)
    → (all_chars is_digit digits && leb 3 (length digits) && leb (length digits) 12) ≡ true
    → (ltb (int_of 0 digits) 1 || not (digits == three_digits (int_of 0 digits))) ≡ false
    → IsNumber value (day, int_of 0 digits)
unfolding render_id IsNumber
split_id-IsNumber value day digits h c r =
    let (positive, same) = canonical digits (int_of 0 digits) r in
    (
      split_id-eq-some value day digits h ∙ ap (λ s. day ++ b'-' ∷ s) same,
      positive,
      numbered day digits value h c,
      λ other n. elsewhere day other digits value h n,
    )

-- An accepted id is the text that its day and its sequence make, its sequence is counted from 1
-- and is the one that next_id reads in it for that day, and next_id reads none in it for another
-- day.
pub prediction_id-IsNumber : (value : Text) → Ensures (IsNumber value) (prediction_id value)
unfolding prediction_id
prediction_id-IsNumber value = bind (or_error invalid (split_id value)) _ λ (day, digits) h.
    checked _ _ _ λ c. bind (strict_date day) _ λ later e. refused _ _ _ λ r. done (
      subst (λ d. IsNumber value (d, int_of 0 digits)) ((strict_date-eq-ok day).returns later e)
        (split_id-IsNumber value day digits (or_error-eq-ok invalid (split_id value) h) c r))
