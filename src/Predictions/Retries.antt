-- ===== src/Predictions/Retries.antt =====
-- hqa/predictions.py: `PredictionLedger.create`, called again.
use hermes_quant_agent.Prelude.{
  ◌≡◌, refl, ap, subst, arith, [], ◌∷◌, List, Bool, true, false, ◌||◌, some, none, Text, text_eq,
  ◌==◌, Option,
}
use hermes_quant_agent.Prelude.Dict.{Dict}
use hermes_quant_agent.Prelude.Outcome.{Result, ok, err, ◌>>=◌, >>=-ok}
use hermes_quant_agent.Prelude.Ensures.{Ensures}
use hermes_quant_agent.Predictions.{LedgerError, Value, LedgerEvent, Outside, PredictionState}
use hermes_quant_agent.Predictions.Intent.{Preview, preview}
use hermes_quant_agent.Predictions.Prices.{Prepared, prepare_normalized}
use hermes_quant_agent.Predictions.Ledger.{
  Reduced, reduce_from, empty_ledger, reduce, values, find_existing_request, created_before,
  insert_by, sorted_by, keep, since_of, read_states, list,
}
use hermes_quant_agent.Predictions.Creation.{
  Written, opened, kept, create_locked, create_prepared, create_unless_found, seen_request,
  create_previewed, create,
}
use hermes_quant_agent.Predictions.Consistent.{asks, Distinct, reduce-IsConsistent}
use hermes_quant_agent.Predictions.Appends.{IsKept, create_locked-IsKept}

abbrev asked : Text → List PredictionState → Bool
asked r [] = false
asked r (x ∷ xs) = x.created.request_id == r || asked r xs

module _ (le : PredictionState → PredictionState → Bool) where
  asked-insert :
      (r : Text) (x : PredictionState) (xs : List PredictionState)
      → asked r (insert_by le x xs) ≡ (x.created.request_id == r || asked r xs)
  unfolding insert_by
  asked-insert r x [] = refl
  asked-insert r x (y ∷ ys) = ground (arith, asked-insert r x ys)

  asked-sorted :
      (r : Text) (states : Dict Text PredictionState)
      → asked r (sorted_by le (values states)) ≡ asks r states
  unfolding sorted_by values asks
  asked-sorted r [] = refl
  asked-sorted r ((_, x) ∷ states) =
      ground (arith, asked-insert r x (sorted_by le (values states)), asked-sorted r states)

  find-insert :
      (r i : Text) (x : PredictionState) (xs : List PredictionState)
      → asked x.created.request_id xs ≡ false
      → find_existing_request r i (insert_by le x xs) ≡ find_existing_request r i (x ∷ xs)
  unfolding find_existing_request insert_by
  find-insert r i x [] h = refl
  find-insert r i x (y ∷ ys) h = ground (arith, find-insert r i x ys)

  find-sorted :
      (r i : Text) (states : Dict Text PredictionState)
      → Distinct states
      → find_existing_request r i (sorted_by le (values states))
        ≡ find_existing_request r i (values states)
  unfolding sorted_by values Distinct find_existing_request
  find-sorted r i [] d = refl
  find-sorted r i ((_, x) ∷ states) d = ground (
    arith,
    find-insert r i x (sorted_by le (values states)),
    asked-sorted x.created.request_id states,
    find-sorted r i states,
  )

keep-all {ℓ} : {A : Type ℓ} (xs : List A) → keep (λ _. true) xs ≡ xs
unfolding keep
keep-all [] = refl
keep-all (x ∷ xs) = ap (λ ys. x ∷ ys) (keep-all xs)

read-kept :
    (outside : Outside) (r i : Text) (events : List LedgerEvent) {ledger : Reduced}
    {x : PredictionState}
    → reduce outside events ≡ ok ledger
    → find_existing_request r i (values ledger.states) ≡ ok (some x)
    → read_states outside (some events) ≡ ok ledger.states
unfolding read_states reduce reduce_from empty_ledger values find_existing_request
read-kept outside r i [] {ledger} {x} h found =
    let start : empty_ledger ≡ ledger = cc in
    let none_yet : find_existing_request r i (values ledger.states) ≡ ok none =
      subst (λ (q : Reduced). find_existing_request r i (values q.states) ≡ ok none) start refl in
    cc
read-kept outside r i (event ∷ events) {ledger} h found =
    >>=-ok (reduce outside (event ∷ events)) (λ (after : Reduced). ok after.states) h refl

module _ (outside : Outside) (p : Preview) where
  -- The first search of a call finds what a readable file holds.
  seen-kept :
      (written : Written PredictionState)
      → IsKept outside p written
      → seen_request outside p (some written.events) ≡ ok (some written.result)
  unfolding seen_request list since_of ◌>>=◌
  seen-kept written k =
      rw
        (
          read-kept outside p.request_id p.intent_sha256 written.events {x = written.result}
              k.readable k.found,
          keep-all (sorted_by created_before (values k.ledger.states)),
          keep-all (sorted_by created_before (values k.ledger.states)),
          find-sorted created_before p.request_id p.intent_sha256 k.ledger.states
              (reduce-IsConsistent outside written.events k.readable).distinct,
        )
        k.found

  kept-known :
      (events : List LedgerEvent) (m : Result LedgerError (Written PredictionState))
      → Ensures (IsKept outside p) m
      → {x : PredictionState} → (kept events m).outcome ≡ ok x
      → seen_request outside p (kept events m).file ≡ ok (some x)
  unfolding kept
  kept-known events (err e) k h = cc
  kept-known events (ok written) k h = cc (seen-kept written (k.returns written refl))

  prepared-known :
      (file : Option (List LedgerEvent)) (m : Result LedgerError Prepared) {x : PredictionState}
      → (create_prepared outside p file m).outcome ≡ ok x
      → seen_request outside p (create_prepared outside p file m).file ≡ ok (some x)
  unfolding create_prepared
  prepared-known file (err e) h = cc
  prepared-known file (ok prepared) h =
      kept-known (opened file) (create_locked outside p prepared (opened file))
        (create_locked-IsKept outside p prepared (opened file)) h

  found-known :
      (now : Text) (file : Option (List LedgerEvent))
      (m : Result LedgerError (Option PredictionState))
      → seen_request outside p file ≡ m
      → {x : PredictionState} → (create_unless_found outside now p file m).outcome ≡ ok x
      → seen_request outside p (create_unless_found outside now p file m).file ≡ ok (some x)
  unfolding create_unless_found
  found-known now file (err e) s h = cc
  found-known now file (ok (some y)) s h = cc
  found-known now file (ok none) s h =
      prepared-known file (prepare_normalized outside now p.prediction_request) h

previewed-known :
    (outside : Outside) (now later : Text) (file : Option (List LedgerEvent))
    (m : Result LedgerError Preview) {x : PredictionState}
    → (create_previewed outside now file file m).outcome ≡ ok x
    → create_previewed outside later
        (create_previewed outside now file file m).file
        (create_previewed outside now file file m).file
        m
      ≡ record { outcome = ok x; file = (create_previewed outside now file file m).file }
unfolding create_previewed create_unless_found
previewed-known outside now later file (err e) h = cc
previewed-known outside now later file (ok p) {x} h =
    let again : seen_request outside p
          (create_unless_found outside now p file (seen_request outside p file)).file
        ≡ ok (some x) =
      found-known outside p now file (seen_request outside p file) refl {x = x} h in
    rw again

-- A call of create that returned a prediction, called again with the same request on the file that
-- the first call left, whatever the clock then shows, returns the same prediction and leaves the
-- file as it is.
pub create-retry :
    (outside : Outside) (now later : Text) (file : Option (List LedgerEvent))
    (request : Dict Text Value) {x : PredictionState}
    → (create outside now file file request).outcome ≡ ok x
    → create outside later
        (create outside now file file request).file
        (create outside now file file request).file
        request
      ≡ record { outcome = ok x; file = (create outside now file file request).file }
unfolding create
create-retry outside now later file request {x} h =
    previewed-known outside now later file (preview outside request) {x = x} h
