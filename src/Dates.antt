-- ===== src/Dates.antt =====
-- `date.fromisoformat` and `datetime.fromisoformat` on the extended format, for hqa/predictions.py and
-- hqa/holdout.py. A day is a number, day 0 being 0001-01-01; an instant is a number of seconds since
-- that day.
use hermes_quant_agent.Prelude.{
  ℕ, zero, suc, ◌+◌, ◌-◌, ◌*◌, ◌/◌, ◌%◌, [], ◌∷◌, Bool, not, ◌&&◌, ◌||◌, Option, none, some, Text,
  ltb, leb, nat_eq, ◌==◌, ◌≡◌, refl, if◌then◌else◌,
}

infixl 5 ◌>>=◌
-- A chain of readers that may fail.
unfoldable pub ◌>>=◌ {ℓ κ} : {A : Type ℓ} {B : Type κ} → Option A → (A → Option B) → Option B
none >>= f = none
some a >>= f = f a

unfoldable pub is_digit : ℕ → Bool
is_digit c = leb b'0' c && leb c b'9'

-- `n` digits, read after `acc`, and the rest of the text
unfoldable pub read_digits : ℕ → ℕ → Text → Option (ℕ × Text)
unfolding is_digit
read_digits zero acc s = some (acc, s)
read_digits (suc n) acc [] = none
read_digits (suc n) acc (c ∷ s) =
    let rest = read_digits n (acc * 10 + (c - b'0')) s in if is_digit c then rest else none

unfoldable pub read_char : ℕ → Text → Option Text
read_char d [] = none
read_char d (c ∷ s) = if c == d then some s else none

unfoldable pub is_leap : ℕ → Bool
is_leap y = y % 4 == 0 && (not (y % 100 == 0) || y % 400 == 0)

unfoldable pub days_in_month : ℕ → ℕ → ℕ
unfolding is_leap
days_in_month y m =
    if m == 2
    then (if is_leap y then 29 else 28)
    else if m == 4 || m == 6 || m == 9 || m == 11
    then 30
    else 31

-- the days of the year before the month
days_before_month : ℕ → ℕ → ℕ
unfolding days_in_month
days_before_month y zero = 0
days_before_month y (suc m) = if leb m 0 then 0 else days_before_month y m + days_in_month y m

unfoldable pub day_number : ℕ → ℕ → ℕ → ℕ
unfolding days_before_month
day_number y m d =
    (y - 1) * 365 + (y - 1) / 4 - (y - 1) / 100 + (y - 1) / 400 + days_before_month y m + (d - 1)

unfoldable pub valid_date : ℕ → ℕ → ℕ → Bool
unfolding days_in_month
valid_date y m d = leb 1 y && leb 1 m && leb m 12 && leb 1 d && leb d (days_in_month y m)

-- a date at the start of the text, and the rest
unfoldable pub read_date : Text → Option (ℕ × Text)
unfolding read_digits read_char valid_date day_number
read_date s = do
  (y, s) ← read_digits 4 0 s
  s ← read_char b'-' s
  (m, s) ← read_digits 2 0 s
  s ← read_char b'-' s
  (d, s) ← read_digits 2 0 s
  if valid_date y m d then some (day_number y m d, s) else none

-- what is read if nothing is left
unfoldable pub whole {ℓ} : {A : Type ℓ} → Option (A × Text) → Option A
whole none = none
whole (some (a, [])) = some a
whole (some (a, c ∷ s)) = none

-- `date.fromisoformat` of a text `YYYY-MM-DD`
unfoldable pub parse_date : Text → Option ℕ
unfolding read_date whole
parse_date s = whole (read_date s)

unfoldable pub read_time : Text → Option (ℕ × Text)
unfolding read_digits read_char
read_time s = do
  (h, s) ← read_digits 2 0 s
  s ← read_char b':' s
  (m, s) ← read_digits 2 0 s
  if leb h 23 && leb m 59 then some (h * 3600 + m * 60, s) else none

unfoldable pub read_seconds : Text → Option (ℕ × Text)
unfolding read_digits read_char
read_seconds s = do
  s ← read_char b':' s
  (seconds, s) ← read_digits 2 0 s
  if leb seconds 59 then some (seconds, s) else none

unfoldable pub or_keep : Text → Option (ℕ × Text) → Text
or_keep s none = s
or_keep s (some (n, rest)) = rest

-- Six or three digits of a second, which the whole seconds do not depend on.
unfoldable pub skip_fraction : Text → Text
unfolding read_digits or_keep
skip_fraction [] = []
skip_fraction (c ∷ s) =
    if c == b'.' then or_keep (or_keep (c ∷ s) (read_digits 3 0 s)) (read_digits 6 0 s) else c ∷ s

-- The instant in UTC, if the clock that shows `local` is `offset` seconds ahead of it or behind it.
unfoldable pub shifted : Bool → ℕ → ℕ → Option ℕ
shifted ahead local offset =
    if not ahead
    then (if ltb (local + offset) 315537897600 then some (local + offset) else none)
    else if leb offset local
    then some (local - offset)
    else none

-- `Z` or `+HH:MM` or `-HH:MM`, to the end of the text; the outer `none` is a text that is not a
-- timestamp with a timezone, the inner one an instant out of range.
unfoldable pub read_zone : ℕ → Text → Option (Option ℕ)
unfolding whole read_time shifted
read_zone local [] = none
read_zone local (c ∷ s) =
    if c == b'Z'
    then whole (some (some local, s))
    else if c == b'+' || c == b'-'
    then (whole (read_time s) >>= λ offset. some (shifted (c == b'+') local offset))
    else none

-- `datetime.fromisoformat` of a text `YYYY-MM-DDTHH:MM:SS`, with or without a fraction, and a timezone
unfoldable pub parse_timestamp : Text → Option (Option ℕ)
unfolding read_date read_char read_time read_seconds skip_fraction read_zone
parse_timestamp s = do
  (day, s) ← read_date s
  s ← read_char b'T' s
  (minutes, s) ← read_time s
  (seconds, s) ← read_seconds s
  read_zone (day * 86400 + minutes + seconds) (skip_fraction s)

parse_date_runs :
    parse_date (b'2' ∷ b'0' ∷ b'2' ∷ b'4' ∷ b'-' ∷ b'0' ∷ b'3' ∷ b'-' ∷ b'0' ∷ b'1' ∷ [])
    ≡ some 738945
unfolding parse_date read_date whole read_digits read_char valid_date day_number days_before_month
    days_in_month is_leap is_digit nat_eq ◌>>=◌
parse_date_runs = refl
