-- ===== src/Authority/AttemptLists.antt =====
-- Writing an attempt back into its task, and what that keeps of the list of attempts.
use hermes_quant_agent.Prelude.{
  ℕ, suc, List, [], ◌∷◌, ◌++◌, true, false, ◌≡◌, refl, arith, is_some, Text, text_eq, length, ◌+◌,
}
use hermes_quant_agent.Prelude.Outcome.{ok}
use hermes_quant_agent.Authority.Store.{Attempt, Task}
use hermes_quant_agent.Authority.Checks.{last, matching, only, find_attempt, replace}
use hermes_quant_agent.Authority.Invariant.{
  is_ended, OnlyLastOpen, NumberedFrom, OutcomesAgree, AllEnded,
}

only-eq-ok : (l : List Attempt) {x : Attempt} → only l ≡ ok x → l ≡ x ∷ []
unfolding only
only-eq-ok [] e = cc
only-eq-ok (a ∷ []) e = cc
only-eq-ok (a ∷ b ∷ l) e = cc

pub find_attempt-matching :
    (t : Task) (ref : Text) {x : Attempt}
    → find_attempt t ref ≡ ok x
    → matching ref t.attempts ≡ x ∷ []
unfolding find_attempt
find_attempt-matching t ref h = only-eq-ok (matching ref t.attempts) h

pub matching-ref :
    (ref : Text) (l : List Attempt) {x : Attempt} {rest : List Attempt}
    → matching ref l ≡ x ∷ rest
    → x.attempt_ref ≡ ref
unfolding matching
matching-ref ref [] h = cc
matching-ref ref (a ∷ l) {x} {rest} h = ground (arith, matching-ref ref l {x = x} {rest = rest})

-- What holds of every attempt holds of the one that was found.
pub matching-OutcomesAgree :
    (ref : Text) (l : List Attempt) {x : Attempt} {rest : List Attempt}
    → matching ref l ≡ x ∷ rest
    → OutcomesAgree l
    → is_some x.terminal_outcome ≡ is_ended x.state
unfolding matching
matching-OutcomesAgree ref [] m h = cc
matching-OutcomesAgree ref (a ∷ l) {x} {rest} m h =
    ground (arith, matching-OutcomesAgree ref l {x = x} {rest = rest})

pub matching-AllEnded :
    (ref : Text) (l : List Attempt) {x : Attempt} {rest : List Attempt}
    → matching ref l ≡ x ∷ rest
    → AllEnded l
    → is_ended x.state ≡ true
unfolding matching
matching-AllEnded ref [] m h = cc
matching-AllEnded ref (a ∷ l) {x} {rest} m h =
    ground (arith, matching-AllEnded ref l {x = x} {rest = rest})

module _ (y : Attempt) where
  pub replace_absent : (xs : List Attempt) → matching y.attempt_ref xs ≡ [] → replace y xs ≡ xs
  unfolding matching replace
  replace_absent [] h = refl
  replace_absent (a ∷ xs) h = ground (arith, replace_absent xs)

  -- An attempt that was open, or stays ended, goes back to where it was.
  pub replace-OnlyLastOpen :
      (xs : List Attempt) {x : Attempt}
      → matching y.attempt_ref xs ≡ x ∷ []
      → (is_ended x.state ≡ true → is_ended y.state ≡ true)
      → OnlyLastOpen xs
      → OnlyLastOpen (replace y xs)
  unfolding matching replace
  replace-OnlyLastOpen [] m e h = h
  replace-OnlyLastOpen (a ∷ []) m e h = tt
  replace-OnlyLastOpen (a ∷ b ∷ xs) {x} m e h =
      ground (arith, replace-OnlyLastOpen (b ∷ xs) {x = x}, replace_absent (b ∷ xs))

  pub replace-NumberedFrom :
      (n : ℕ) (xs : List Attempt) {x : Attempt}
      → matching y.attempt_ref xs ≡ x ∷ []
      → y.attempt_number ≡ x.attempt_number
      → NumberedFrom n xs
      → NumberedFrom n (replace y xs)
  unfolding matching replace
  replace-NumberedFrom n [] m e h = h
  replace-NumberedFrom n (a ∷ xs) {x} m e h =
      ground (arith, replace-NumberedFrom (suc n) xs {x = x}, replace_absent xs)

  pub replace-OutcomesAgree :
      (xs : List Attempt)
      → is_some y.terminal_outcome ≡ is_ended y.state
      → OutcomesAgree xs
      → OutcomesAgree (replace y xs)
  unfolding replace
  replace-OutcomesAgree [] e h = h
  replace-OutcomesAgree (a ∷ xs) e h = ground (arith, replace-OutcomesAgree xs e)

  -- When the open attempt ends, every attempt has ended.
  pub replace-AllEnded :
      (xs : List Attempt) {x : Attempt}
      → matching y.attempt_ref xs ≡ x ∷ []
      → is_ended x.state ≡ false
      → is_ended y.state ≡ true
      → OnlyLastOpen xs
      → AllEnded (replace y xs)
  unfolding matching replace
  replace-AllEnded [] m o e h = absurd h
  replace-AllEnded (a ∷ []) m o e h = ground arith
  replace-AllEnded (a ∷ b ∷ xs) {x} m o e h =
      ground (arith, replace-AllEnded (b ∷ xs) {x = x}, replace_absent (b ∷ xs))

  pub replace-AllEnded_keep :
      (xs : List Attempt) → is_ended y.state ≡ true → AllEnded xs → AllEnded (replace y xs)
  unfolding replace
  replace-AllEnded_keep [] e h = h
  replace-AllEnded_keep (a ∷ xs) e h = ground (arith, replace-AllEnded_keep xs e)

-- A new attempt goes to the end, once the last one has ended.
module _ (y : Attempt) where
  pub append-OnlyLastOpen :
      (xs : List Attempt) {x : Attempt}
      → last xs ≡ ok x
      → is_ended x.state ≡ true
      → OnlyLastOpen xs
      → OnlyLastOpen (xs ++ y ∷ [])
  unfolding last
  append-OnlyLastOpen [] l e h = absurd h
  append-OnlyLastOpen (a ∷ []) l e h = ground arith
  append-OnlyLastOpen (a ∷ b ∷ xs) {x} l e h = ground (arith, append-OnlyLastOpen (b ∷ xs) {x = x})

  pub append-NumberedFrom :
      (n : ℕ) (xs : List Attempt)
      → y.attempt_number ≡ n + length xs
      → NumberedFrom n xs
      → NumberedFrom n (xs ++ y ∷ [])
  append-NumberedFrom n [] e h = ground arith
  append-NumberedFrom n (a ∷ xs) e h = (h.0, append-NumberedFrom (suc n) xs (omega arith) h.1)

  pub append-OutcomesAgree :
      (xs : List Attempt)
      → is_some y.terminal_outcome ≡ is_ended y.state
      → OutcomesAgree xs
      → OutcomesAgree (xs ++ y ∷ [])
  append-OutcomesAgree [] e h = (e, tt)
  append-OutcomesAgree (a ∷ xs) e h = (h.0, append-OutcomesAgree xs e h.1)
