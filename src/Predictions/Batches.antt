-- ===== src/Predictions/Batches.antt =====
-- hqa/predictions.py: how much one call of `reconcile_due` does.
use hermes_quant_agent.Prelude.{
  ℕ, zero, suc, ◌≤◌, ◌≡◌, refl, sym, ap, ◌∙◌, arith, [], ◌∷◌, List, Bool, Option, some, none, Text,
  length, take,
}
use hermes_quant_agent.Prelude.Outcome.{Result, ok, err, >>=-eq-ok}
use hermes_quant_agent.Prelude.Ensures.{Ensures, bind, done, checked}
use hermes_quant_agent.Predictions.{LedgerError, LedgerEvent, Outside, PredictionState}
use hermes_quant_agent.Predictions.Values.{utc_timestamp, completed_session_cutoff}
use hermes_quant_agent.Predictions.Ledger.{open_status, list, keep}
use hermes_quant_agent.Predictions.Creation.{Ran}
use hermes_quant_agent.Predictions.Scoring.{Row}
use hermes_quant_agent.Predictions.Reconcile.{
  parse_cursor, due_of, is_after, score_one, add_row, score_then, score_all, Selection, Report,
  select_due, report_of, reconcile_selected, reconcile_due,
}

length-take-le {ℓ} : {A : Type ℓ} (n : ℕ) (xs : List A) → length (take n xs) ≤ n
unfolding take
length-take-le n [] = omega arith
length-take-le zero (x ∷ xs) = omega arith
length-take-le (suc n) (x ∷ xs) = omega (arith, length-take-le n xs)

length-take-le_list {ℓ} : {A : Type ℓ} (n : ℕ) (xs : List A) → length (take n xs) ≤ length xs
unfolding take
length-take-le_list n [] = omega arith
length-take-le_list zero (x ∷ xs) = omega arith
length-take-le_list (suc n) (x ∷ xs) = omega (arith, length-take-le_list n xs)

length-keep-le {ℓ} : {A : Type ℓ} (p : A → Bool) (xs : List A) → length (keep p xs) ≤ length xs
unfolding keep
length-keep-le p [] = omega arith
length-keep-le p (x ∷ xs) = ground (arith, length-keep-le p xs)

-- The sizes of a selection.
pub record Fits (limit : ℕ) (s : Selection) : Type 0 where
  pub small : limit ≤ 25
  pub limited : length s.selected ≤ limit
  pub due : length s.selected ≤ length s.due

module _ (outside : Outside) where
  select_due-Fits :
      (as_of : Text) (limit : ℕ) (cursor : Option Text) (file : Option (List LedgerEvent))
      → Ensures (Fits limit) (select_due outside as_of limit cursor file)
  unfolding select_due
  select_due-Fits as_of limit cursor file = checked _ _ _ λ range.
      bind (parse_cursor cursor) _ λ key _. bind (utc_timestamp as_of) _ λ now _.
        bind (completed_session_cutoff outside.market_day now) _ λ cutoff _.
          bind (list outside (some open_status) none file) _ λ rows _.
            let due = due_of cutoff rows in
            let candidates = keep (is_after key) due in
            done (record {
              small = ground (arith, range);
              limited = length-take-le limit candidates;
              due =
                  omega (
                    arith,
                    length-take-le_list limit candidates,
                    length-keep-le (is_after key) due,
                  );
            })

  score_then-length :
      (m : Result LedgerError Row) (file : Option (List LedgerEvent))
      (more : Option (List LedgerEvent) → Ran (List Row)) (n : ℕ)
      → ((rows : List Row) → (more file).outcome ≡ ok rows → length rows ≡ n)
      → (rows : List Row) → (score_then m file more).outcome ≡ ok rows
      → length rows ≡ suc n
  unfolding score_then add_row
  score_then-length (err e) file more n k rows h = cc
  score_then-length (ok row) file more n k rows h =
      let (later, found, same) = >>=-eq-ok (more file).outcome _ h in
      let added : row ∷ later ≡ rows = cc in ap length (sym added) ∙ ap suc (k later found)

  score_all-length :
      (as_of cutoff : Text) (states : List PredictionState) (file : Option (List LedgerEvent))
      (rows : List Row)
      → (score_all outside as_of cutoff states file).outcome ≡ ok rows
      → length rows ≡ length states
  unfolding score_all
  score_all-length as_of cutoff [] file rows h = let same : [] ≡ rows = cc in ap length (sym same)
  score_all-length as_of cutoff (state ∷ states) file rows h =
      let ran = score_one outside as_of cutoff state file in
      score_then-length ran.outcome ran.file (score_all outside as_of cutoff states) (length states)
        (score_all-length as_of cutoff states ran.file) rows h

  -- What a report counts.
  pub record Counts (limit : ℕ) (report : Report) : Type 0 where
    pub small : limit ≤ 25
    pub limited : report.processed_count ≤ limit
    pub due : report.processed_count ≤ report.due_count
    pub each : length report.results ≡ report.processed_count

  report_of-Counts :
      (limit : ℕ) (s : Selection) (file : Option (List LedgerEvent)) (rows : List Row)
      → Fits limit s
      → length rows ≡ length s.selected
      → Ensures (Counts limit) (report_of outside s file rows)
  unfolding report_of
  report_of-Counts limit s file rows f e =
      bind (list outside (some open_status) none file) _
        λ now _. done (record { small = f.small; limited = f.limited; due = f.due; each = e })

  selected-Counts :
      (limit : ℕ) (file : Option (List LedgerEvent)) (m : Result LedgerError Selection)
      → Ensures (Fits limit) m
      → (report : Report) → (reconcile_selected outside file m).outcome ≡ ok report
      → Counts limit report
  unfolding reconcile_selected
  selected-Counts limit file (err e) f report h = cc
  selected-Counts limit file (ok s) f report h =
      let ran = score_all outside s.as_of s.cutoff s.selected file in
      let (rows, scored, reported) = >>=-eq-ok ran.outcome (report_of outside s ran.file) h in
      (report_of-Counts limit s ran.file rows (f.returns s refl)
          (score_all-length s.as_of s.cutoff s.selected file rows scored)).returns
        report reported

  -- A report of reconcile_due has one result for each prediction that it processed, and those are
  -- at most as many as the limit, which is at most 25, and as the due ones.
  pub reconcile_due-Counts :
      (as_of : Text) (limit : ℕ) (cursor : Option Text) (file : Option (List LedgerEvent))
      {report : Report}
      → (reconcile_due outside as_of limit cursor file).outcome ≡ ok report
      → Counts limit report
  unfolding reconcile_due
  reconcile_due-Counts as_of limit cursor file {report} h =
      selected-Counts limit file (select_due outside as_of limit cursor file)
        (select_due-Fits as_of limit cursor file) report h
