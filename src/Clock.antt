-- ===== src/Clock.antt =====
-- The text that `normalize_timestamp` (hqa/workflow_contract.py) gives an instant:
-- `strftime("%Y-%m-%dT%H:%M:%S.%fZ")` of a UTC `datetime`. An instant is a number of microseconds
-- since the start of year 1, so the order of instants is the order of `datetime`s.
use hermes_quant_agent.Prelude.{
  ℕ, zero, suc, ◌+◌, ◌-◌, ◌*◌, ◌/◌, ◌%◌, List, [], ◌∷◌, ◌++◌, Bool, not, ◌&&◌, ◌||◌, Text, ltb,
  nat_eq, ◌==◌, if◌then◌else◌,
}

-- `n` in `width` digits
unfoldable pub padded : ℕ → ℕ → Text
padded zero n = []
padded (suc width) n = padded width (n / 10) ++ (b'0' + n % 10) ∷ []

-- the month and the day of a day of the year, counted from 0, by the lengths of the months
unfoldable pub month_day : ℕ → ℕ → List ℕ → ℕ × ℕ
month_day month day [] = (month, day + 1)
month_day month day (days ∷ rest) =
    let later = month_day (month + 1) (day - days) rest in
    if ltb day days then (month, day + 1) else later

month_lengths : Bool → List ℕ
month_lengths leap =
    31 ∷ (if leap then 29 else 28) ∷ 31 ∷ 30 ∷ 31 ∷ 30 ∷ 31 ∷ 31 ∷ 30 ∷ 31 ∷ 30 ∷ []

date_text : ℕ → ℕ × ℕ → Text
unfolding padded
date_text year (month, day) = padded 4 year ++ b'-' ∷ (padded 2 month ++ b'-' ∷ padded 2 day)

-- The date of a day of the proleptic Gregorian calendar, day 0 being 0001-01-01. The last day of a
-- cycle of 4 or of 400 years is the 366th of its year.
unfoldable pub date : ℕ → Text
unfolding date_text month_day month_lengths nat_eq
date day =
    let n400 = day / 146097 in
    let r400 = day % 146097 in
    let n100 = r400 / 36524 in
    let r100 = r400 % 36524 in
    let n4 = r100 / 1461 in
    let r4 = r100 % 1461 in
    let n1 = r4 / 365 in
    let r1 = r4 % 365 in
    let year = n400 * 400 + n100 * 100 + n4 * 4 + n1 + 1 in
    let leap = n1 == 3 && (not (n4 == 24) || n100 == 3) in
    if n1 == 4 || n100 == 4
    then date_text (year - 1) (12, 31)
    else date_text year (month_day 1 r1 (month_lengths leap))

unfoldable pub timestamp : ℕ → Text
unfolding date padded
timestamp instant =
    let micros = instant % 1000000 in
    let seconds = instant / 1000000 % 86400 in
    date (instant / 1000000 / 86400)
    ++ b'T'
      ∷ (padded 2 (seconds / 3600)
          ++ b':'
            ∷ (padded 2 (seconds / 60 % 60)
                ++ b':' ∷ (padded 2 (seconds % 60) ++ b'.' ∷ (padded 6 micros ++ b'Z' ∷ []))))
