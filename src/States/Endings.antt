-- ===== src/States/Endings.antt =====
-- Every state of the table can be left for a final one.
use hermes_quant_agent.Prelude.{
  ℕ, zero, suc, [], ◌∷◌, List, Bool, true, false, not, ◌&&◌, ◌||◌, ◌≡◌, refl, inl, inr, arith,
  Option, Bool-cases, some, none, is_some, contains, Text, text_eq, ◌==◌,
}
use hermes_quant_agent.Prelude.Dict.{Dict, get}
use hermes_quant_agent.Prelude.Outcome.{ok, accepts, ◌>>=◌, >>=-eq-ok}
use hermes_quant_agent.States.{
  transitions, transitions_for, validate_state, successors, validate_entity_state,
  validate_transition,
}
use hermes_quant_agent.States.Laws.{Chain, here, step, IsFinal}

abbrev is_nil : List Text → Bool
is_nil [] = true
is_nil (x ∷ xs) = false

abbrev any : (Text → Bool) → List Text → Bool
any p [] = false
any p (x ∷ xs) = p x || any p xs

-- A final state is reached within so many transitions.
finishes : ℕ → Dict Text (List Text) → Text → Bool
finishes zero machine state = is_nil (successors state machine)
finishes (suc n) machine state =
    is_nil (successors state machine)
    || any (λ t. is_some (get t machine) && not (state == t) && finishes n machine t)
        (successors state machine)

all_keys {ℓ} : {V : Type ℓ} → (Text → V → Bool) → Dict Text V → Bool
all_keys p [] = true
all_keys p ((k, v) ∷ d) = p k v && all_keys p d

-- No machine has more than eight states.
every_state_finishes :
    all_keys (λ _ machine. all_keys (λ s _. finishes 8 machine s) machine) transitions ≡ true
unfolding all_keys finishes transitions successors get text_eq
every_state_finishes = refl

all_keys-get {ℓ} :
    {V : Type ℓ} (p : Text → V → Bool) (k : Text) (d : Dict Text V) {v : V}
    → all_keys p d ≡ true
    → get k d ≡ some v
    → p k v ≡ true
unfolding all_keys get
all_keys-get p k [] a h = cc
all_keys-get p k ((j, w) ∷ d) {v} a h = ground (arith, a, h, all_keys-get p k d {v = v})

any-elem :
    (p : Text → Bool) (xs : List Text)
    → any p xs ≡ true
    → (x : Text) × (contains x xs ≡ true) × (p x ≡ true)
any-elem p [] h = cc
any-elem p (y ∷ xs) h = elim (Bool-cases (p y)) [
  | inl holds ↦ (y, ground arith, holds)
  | inr fails ↦
      let (x, at, holds) = any-elem p xs (ground (arith, h, fails)) in
      (x, ground (arith, at), holds)
]

nil-eq : (xs : List Text) → is_nil xs ≡ true → xs ≡ []
nil-eq [] h = refl
nil-eq (x ∷ xs) h = cc

-- A final state that a chain reaches.
unfoldable pub Ends : Text → Text → Type 0
Ends kind state = (last : Text) × Chain kind state last × IsFinal kind last

module _ (kind : Text) (machine : Dict Text (List Text))
    (known : transitions_for kind ≡ ok machine) where
  ended : (state : Text) → is_nil (successors state machine) ≡ true → Ends kind state
  unfolding Ends
  ended state h = (state, here, (machine, known, nil-eq (successors state machine) h))

  accepted :
      (a b : Text)
      → is_some (get a machine) ≡ true
      → is_some (get b machine) ≡ true
      → (a == b) ≡ false
      → contains b (successors a machine) ≡ true
      → accepts (validate_transition kind a b) ≡ true
  unfolding validate_transition validate_state ◌>>=◌
  accepted a b p q r s = rw (known, p, q, r, s)

  three : (a b c : Bool) → (a && not b && c) ≡ true → (a ≡ true) × (b ≡ false) × (c ≡ true)
  three a b c h = ground arith

  -- A transition before a chain.
  before : (a b : Text) → accepts (validate_transition kind a b) ≡ true → Ends kind b → Ends kind a
  unfolding Ends
  before a b h (last, chain, final) = (last, step h chain, final)

  finishes-Ends :
      (n : ℕ) (state : Text)
      → is_some (get state machine) ≡ true
      → finishes n machine state ≡ true
      → Ends kind state
  unfolding finishes
  finishes-Ends zero state p h = ended state h
  finishes-Ends (suc n) state p h = elim (Bool-cases (is_nil (successors state machine))) [
    | inl last ↦ ended state last
    | inr more ↦
        let (next, at, good) =
          any-elem (λ t. is_some (get t machine) && not (state == t) && finishes n machine t)
            (successors state machine) (ground (arith, h, more)) in
        let (there, other, rest) =
          three (is_some (get next machine)) (state == next) (finishes n machine next) good in
        before state next (accepted state next p there other at) (finishes-Ends n next there rest)
  ]

transitions_for-eq-ok :
    (kind : Text) {machine : Dict Text (List Text)}
    → transitions_for kind ≡ ok machine
    → get kind transitions ≡ some machine
unfolding transitions_for
transitions_for-eq-ok kind h = ground (arith, h)

some_value : (o : Option (List Text)) → is_some o ≡ true → (v : List Text) × (o ≡ some v)
some_value none h = cc
some_value (some v) h = (v, refl)

-- From every state that validate_entity_state accepts for its kind, a chain of transitions that
-- validate_transition accepts leads to a final state of that kind.
pub validate_entity_state-Ends :
    (kind state : Text) → validate_entity_state kind state ≡ ok tt → Ends kind state
unfolding validate_entity_state validate_state
validate_entity_state-Ends kind state h =
    let (machine, known, valid) = >>=-eq-ok (transitions_for kind) _ h in
    let there : is_some (get state machine) ≡ true = ground (arith, valid) in
    let (next, found) = some_value (get state machine) there in
    let all_finish : all_keys (λ s _. finishes 8 machine s) machine ≡ true =
      all_keys-get (λ _ m. all_keys (λ s _. finishes 8 m s) m) kind transitions {v = machine}
        every_state_finishes (transitions_for-eq-ok kind known) in
    finishes-Ends kind machine known 8 state there
      (all_keys-get (λ s _. finishes 8 machine s) state machine {v = next} all_finish found)
