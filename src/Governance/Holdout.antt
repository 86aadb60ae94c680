-- ===== src/Governance/Holdout.antt =====
-- hqa/holdout.py: the end of a backtest window before the reserved days. Dates are written `YYYY-MM-DD`.
use hermes_quant_agent.Prelude.{
  ℕ, ◌+◌, ◌-◌, ◌<◌, ◌≡◌, refl, arith, [], Bool, true, false, none, some, Text, text, leb,
}
use hermes_quant_agent.Prelude.Outcome.{Result, ok, err, ◌>>=◌, ◌>>◌, check, refuse}
use hermes_quant_agent.Prelude.Ensures.{Ensures, bind, done, checked, refused}
use hermes_quant_agent.Clock
use hermes_quant_agent.Dates.{parse_date}

-- `ValueError`, and the `OverflowError` of a date before the year 1
pub data HoldoutError : Type 0 where
  value_error overflow_error : HoldoutError

abbrev pub holdout_days : ℕ
holdout_days = 183

-- `_HOLDOUT_NOTE`
abbrev pub holdout_note : Text
holdout_note = text "HOLDOUT: last 183 days reserved; run --final ONCE before promotion (D-21)"

unfoldable pub day_of : Text → Result HoldoutError ℕ
day_of value = elim (parse_date value) [ none ↦ err value_error | some day ↦ ok day ]

unfoldable pub effective_backtest_end : Text → Text → Bool → Result HoldoutError (Text × Text)
effective_backtest_end start end true = ok (end, [])
effective_backtest_end start end false = do
  start_date ← day_of start
  end_date ← day_of end
  check (leb holdout_days end_date) overflow_error
  refuse (leb (end_date - holdout_days) start_date) value_error
  ok (Clock.date (end_date - holdout_days), holdout_note)

day_of-eq-ok : (value : Text) {day : ℕ} → day_of value ≡ ok day → parse_date value ≡ some day
unfolding day_of
day_of-eq-ok value h = ground (arith, h)

-- The window that a backtest keeps before the reserved days.
pub record Reserves (start end : Text) (result : Text × Text) : Type 0 where
  pub first : ℕ
  pub cut : ℕ
  pub first_known : parse_date start ≡ some first
  pub last_known : parse_date end ≡ some (cut + holdout_days)
  pub in_sample : first < cut
  pub cut_text : result.0 ≡ Clock.date cut

reserved :
    (start end : Text) (first last : ℕ)
    → parse_date start ≡ some first
    → parse_date end ≡ some last
    → leb holdout_days last ≡ true
    → leb (last - holdout_days) first ≡ false
    → Reserves start end (Clock.date (last - holdout_days), holdout_note)
reserved start end first last s e p q = record {
  first = first;
  cut = last - holdout_days;
  first_known = s;
  last_known =
      let same : last ≡ last - holdout_days + holdout_days = ground (arith, p) in rw same at e;
  in_sample = ground (arith, q);
  cut_text = refl;
}

day_of-ok : (value : Text) {day : ℕ} → parse_date value ≡ some day → day_of value ≡ ok day
unfolding day_of
day_of-ok value h = rw (h, day_of)

end-Reserves :
    (start end : Text) → Ensures (Reserves start end) (effective_backtest_end start end false)
unfolding effective_backtest_end
end-Reserves start end = bind (day_of start) _ λ first s. bind (day_of end) _ λ last e.
    checked _ _ _ λ p.
      refused _ _ _
        λ q. done (reserved start end first last (day_of-eq-ok start s) (day_of-eq-ok end e) p q)

end-ok :
    (start end : Text) (first last : ℕ)
    → parse_date start ≡ some first
    → parse_date end ≡ some last
    → first + holdout_days < last
    → effective_backtest_end start end false ≡ ok (Clock.date (last - holdout_days), holdout_note)
unfolding effective_backtest_end ◌>>=◌
end-ok start end first last s e h =
    let long : leb holdout_days last ≡ true = ground (arith, h) in
    let after : leb (last - holdout_days) first ≡ false = ground (arith, h) in
    rw (day_of-ok start s, day_of-ok end e, long, after)

-- For a run that is not final, effective_backtest_end returns an end only if it is the date 183
-- days before the given one and later than the start, and it returns it for every pair of dates
-- that are more than 183 days apart.
pub effective_backtest_end-Reserves :
    (start end : Text)
    → ((result : Text × Text)
        → effective_backtest_end start end false ≡ ok result
        → Reserves start end result)
      × ((first last : ℕ)
          → parse_date start ≡ some first
          → parse_date end ≡ some last
          → first + holdout_days < last
          → effective_backtest_end start end false
            ≡ ok (Clock.date (last - holdout_days), holdout_note))
effective_backtest_end-Reserves start end = ((end-Reserves start end).returns, end-ok start end)
