-- ===== src/Predictions/Appends.antt =====
-- hqa/predictions.py: what `create` and `_commit_score` append can be read back.
use hermes_quant_agent.Prelude.{
  same_text, ℕ, ◌+◌, ◌≤◌, ◌≡◌, refl, sym, ap, ◌∙◌, inl, inr, Option-cases, arith, [], ◌∷◌, ◌++◌,
  List, true, false, some, none, Text, text_eq, nat_eq, ◌==◌, Option, is_some,
}
use hermes_quant_agent.Prelude.Dict.{Dict, get, put}
use hermes_quant_agent.Prelude.Outcome.{Result, ok, err, ◌>>=◌, >>=-eq-ok, >>=-ok}
use hermes_quant_agent.Prelude.Ensures.{Ensures, bind, done, skip, checked}
use hermes_quant_agent.Predictions.{
  LedgerError, Created, LedgerEvent, prediction_created, Outside, PredictionState,
}
use hermes_quant_agent.Predictions.Values.{prediction_id, day_prefix}
use hermes_quant_agent.Predictions.Validation.{validate_envelope, validate_created_event}
use hermes_quant_agent.Predictions.Ledger.{
  Reduced, empty_ledger, as_corrupt, state_from_created, sequence_of, on_created, reduce_event,
  reduce_from, reduce, sequence_on, last_sequence, values, find_existing_request, next_id,
}
use hermes_quant_agent.Predictions.Intent.{Preview}
use hermes_quant_agent.Predictions.Prices.{Prepared}
use hermes_quant_agent.Predictions.Creation.{
  Written, create_locked, create_or_find, append_created, created_event,
}
use hermes_quant_agent.Predictions.Numbering.{IsNumber, prediction_id-IsNumber, render_id_injective}
use hermes_quant_agent.Predictions.Consistent.{
  asks, absent, IsConsistent, reduce-IsConsistent, sequence_on-le-last,
}

regroup :
    {A B C : Type 0} (m : Result LedgerError A) (f : A → Result LedgerError C)
    (g : A → Result LedgerError B) (h : B → Result LedgerError C)
    → ((a : A) → f a ≡ (g a >>= h))
    → (m >>= f) ≡ ((m >>= g) >>= h)
unfolding ◌>>=◌
regroup (ok a) f g h same = same a
regroup (err e) f g h same = refl

bind_ok : (m : Result LedgerError Reduced) → (m >>= λ after. ok after) ≡ m
unfolding ◌>>=◌
bind_ok (ok a) = refl
bind_ok (err e) = refl

ok_bind : (a : Reduced) (f : Reduced → Result LedgerError Reduced) → (ok a >>= f) ≡ f a
unfolding ◌>>=◌
ok_bind a f = refl

reduce_from-snoc :
    (outside : Outside) (event : LedgerEvent) (ledger : Reduced) (events : List LedgerEvent)
    → reduce_from outside ledger (events ++ event ∷ [])
      ≡ (reduce_from outside ledger events >>= λ after. reduce_event outside event after)
unfolding reduce_from
reduce_from-snoc outside event ledger [] =
    bind_ok (reduce_event outside event ledger) ∙ sym (ok_bind ledger (reduce_event outside event))
reduce_from-snoc outside event ledger (first ∷ events) =
    regroup (reduce_event outside first ledger) _ _ _
      λ after. reduce_from-snoc outside event after events

-- A file that is extended by an event that the states accept.
pub reduce-snoc :
    (outside : Outside) (event : LedgerEvent) (events : List LedgerEvent) {ledger after : Reduced}
    → reduce outside events ≡ ok ledger
    → reduce_event outside event ledger ≡ ok after
    → reduce outside (events ++ event ∷ []) ≡ ok after
unfolding reduce
reduce-snoc outside event events h k =
    reduce_from-snoc outside event empty_ledger events
    ∙ >>=-ok (reduce_from outside empty_ledger events) (reduce_event outside event) h k

find-none :
    (r i : Text) (states : Dict Text PredictionState)
    → find_existing_request r i (values states) ≡ ok none
    → asks r states ≡ false
unfolding find_existing_request values asks
find-none r i [] h = refl
find-none r i ((key, x) ∷ states) h = ground (arith, find-none r i states)

no_successor : (a b : ℕ) → a ≡ b + 1 → a ≤ b → false ≡ true
no_successor a b e h = absurd (omega arith)

envelope-id :
    (event : Created)
    → Ensures
        (λ _. (n : ℕ) × (prediction_id event.id ≡ ok (day_prefix event.created_at, n)))
        (validate_envelope event)
unfolding validate_envelope
envelope-id event = skip _ _ (
    skip _ _ (
      skip _ _ (
        skip _ _ (
          bind (prediction_id event.id) _ λ (day, n) h. checked _ _ _ λ same. record {
            returns = λ _ _. (n, h ∙ ap (λ d. ok (d, n)) (same_text day _ same));
          }))))

module _ (outside : Outside) (event : Created) (ledger : Reduced) (consistent : IsConsistent ledger)
    (numbered : event.id ≡ next_id ledger.states (day_prefix event.created_at)) where
  abbrev day : Text
  day = day_prefix event.created_at

  is_next : (n : ℕ) → prediction_id event.id ≡ ok (day, n) → n ≡ last_sequence day ledger.states + 1
  unfolding next_id IsNumber
  is_next n h =
      let facts = (prediction_id-IsNumber event.id).returns (day, n) h in
      render_id_injective day n _ (sym facts.0 ∙ numbered)

  is_fresh :
      (n : ℕ) → prediction_id event.id ≡ ok (day, n) → is_some (get event.id ledger.states) ≡ false
  unfolding IsNumber
  is_fresh n h = elim (Option-cases (get event.id ledger.states)) [
    | inl absent ↦ rw absent
    | inr (x, found) ↦
        let facts = (prediction_id-IsNumber event.id).returns (day, n) h in
        let below : sequence_on day event.id ≤ last_sequence day ledger.states =
          sequence_on-le-last day event.id ledger.states {x = x} found in
        absurd (omega (arith, facts.2, is_next n h))
  ]

  abbrev extended : ℕ → Reduced
  extended n = record {
    states = put event.id (state_from_created event) ledger.states;
    request_ids = put event.request_id event.id ledger.request_ids;
    day_sequences = put day n ledger.day_sequences;
  }

  continues :
      (n : ℕ)
      → prediction_id event.id ≡ ok (day, n)
      → (n == sequence_of day ledger.day_sequences + 1) ≡ true
  continues n h = ground (arith, is_next n h, consistent.sequences day)

  -- A validated event with the next id and a new request is accepted.
  pub on_created-ok :
      validate_created_event outside event ≡ ok tt
      → asks event.request_id ledger.states ≡ false
      → (n : ℕ) → prediction_id event.id ≡ ok (day, n)
      → on_created outside event ledger ≡ ok (extended n)
  unfolding on_created ◌>>=◌ as_corrupt
  on_created-ok valid unasked n h =
      rw (valid, is_fresh n h, h, continues n h, consistent.requests event.request_id, unasked)

find-put :
    (id : Text) (x : PredictionState) (states : Dict Text PredictionState)
    → get id states ≡ none
    → asks x.created.request_id states ≡ false
    → find_existing_request x.created.request_id x.created.intent_sha256 (values (put id x states))
      ≡ ok (some x)
unfolding find_existing_request values asks get put
find-put id x [] h a = ground arith
find-put id x ((key, y) ∷ states) h a = ground (arith, find-put id x states)

-- The file can be read, and a search for the request in it finds the state that was returned.
pub record IsKept (outside : Outside) (preview : Preview) (written : Written PredictionState)
    : Type 0 where
  pub ledger : Reduced
  pub readable : reduce outside written.events ≡ ok ledger
  pub found :
      find_existing_request preview.request_id preview.intent_sha256 (values ledger.states)
      ≡ ok (some written.result)

module _ (outside : Outside) (preview : Preview) (prepared : Prepared) (events : List LedgerEvent)
    (ledger : Reduced) (readable : reduce outside events ≡ ok ledger)
    (unasked : asks preview.request_id ledger.states ≡ false) where
  abbrev new_day : Text
  new_day = day_prefix prepared.created_at

  abbrev event : Created
  event = created_event (next_id ledger.states new_day) preview prepared

  created-IsKept :
      validate_created_event outside event ≡ ok tt
      → IsKept outside preview (record {
        result = state_from_created event;
        events = events ++ prediction_created event ∷ [];
      })
  unfolding created_event reduce_event state_from_created validate_created_event
  created-IsKept valid =
      let (_, enveloped, _) = >>=-eq-ok (validate_envelope event) _ valid in
      let (n, h) = (envelope-id event).returns _ enveloped in
      let consistent = reduce-IsConsistent outside events readable in
      let added = on_created-ok outside event ledger consistent refl valid unasked n h in
      record {
        ledger = extended outside event ledger consistent refl n;
        readable = reduce-snoc outside (prediction_created event) events readable added;
        found =
            find-put event.id (state_from_created event) ledger.states
              (absent event.id ledger.states (is_fresh outside event ledger consistent refl n h))
              unasked;
      }

create_or_find-IsKept :
    (outside : Outside) (preview : Preview) (prepared : Prepared) (events : List LedgerEvent)
    (ledger : Reduced)
    → reduce outside events ≡ ok ledger
    → (existing : Option PredictionState)
    → find_existing_request preview.request_id preview.intent_sha256 (values ledger.states)
      ≡ ok existing
    → Ensures
        (IsKept outside preview)
        (create_or_find outside preview prepared events ledger existing)
unfolding create_or_find append_created
create_or_find-IsKept outside preview prepared events ledger readable (some existing) found =
    done (record { ledger = ledger; readable = readable; found = found })
create_or_find-IsKept outside preview prepared events ledger readable none found =
    bind (validate_created_event outside _) _ λ _ valid. done (
      created-IsKept outside preview prepared events ledger readable
        (find-none preview.request_id preview.intent_sha256 ledger.states found) valid)

-- What create_locked returns stands in a file that reduce accepts, where a search for the request
-- and the intent finds the returned state.
pub create_locked-IsKept :
    (outside : Outside) (preview : Preview) (prepared : Prepared) (events : List LedgerEvent)
    → Ensures (IsKept outside preview) (create_locked outside preview prepared events)
unfolding create_locked
create_locked-IsKept outside preview prepared events =
    bind (reduce outside events) _ λ ledger readable.
      bind (find_existing_request preview.request_id preview.intent_sha256 (values ledger.states)) _
        (create_or_find-IsKept outside preview prepared events ledger readable)
