-- ===== src/Authority/Invariant.antt =====
-- What holds of every task of the projection (hqa/workflow_authority.py, `_reduce`).
use hermes_quant_agent.Prelude.{ℕ, suc, List, [], ◌∷◌, Bool, true, false, ◌≡◌, some, is_some}
use hermes_quant_agent.States.Machine.{
  TaskState, AttemptState, awaiting_formula_confirmation, ready, awaiting_domain_gate,
}
use hermes_quant_agent.Contract.Values.{completed}
use hermes_quant_agent.Authority.Checks.{gate1_complete, is_true}
use hermes_quant_agent.Authority.Store.{Attempt, Task}

abbrev pub is_ended : AttemptState → Bool
is_ended AttemptState.terminal = true
is_ended _ = false

abbrev pub is_closed : TaskState → Bool
is_closed TaskState.terminal = true
is_closed _ = false

-- The states that a task reaches only past the confirmation of its plan.
abbrev pub past_plan : TaskState → Bool
past_plan awaiting_formula_confirmation = true
past_plan ready = true
past_plan TaskState.running = true
past_plan awaiting_domain_gate = true
past_plan _ = false

-- The states that a task reaches only past the confirmation of its formula, if it requires one.
abbrev pub past_formula : TaskState → Bool
past_formula ready = true
past_formula TaskState.running = true
past_formula awaiting_domain_gate = true
past_formula _ = false

-- All attempts but the last have ended, and there is a last one.
abbrev pub OnlyLastOpen : List Attempt → Type 0
OnlyLastOpen [] = ⊥
OnlyLastOpen (x ∷ []) = Unit
OnlyLastOpen (x ∷ y ∷ rest) = (is_ended x.state ≡ true) × OnlyLastOpen (y ∷ rest)

-- The attempts are numbered from `n` on.
abbrev pub NumberedFrom : ℕ → List Attempt → Type 0
NumberedFrom n [] = Unit
NumberedFrom n (x ∷ rest) = (x.attempt_number ≡ n) × NumberedFrom (suc n) rest

-- An attempt has an outcome exactly when it has ended.
abbrev pub OutcomesAgree : List Attempt → Type 0
OutcomesAgree [] = Unit
OutcomesAgree (x ∷ rest) = (is_some x.terminal_outcome ≡ is_ended x.state) × OutcomesAgree rest

abbrev pub AllEnded : List Attempt → Type 0
AllEnded [] = Unit
AllEnded (x ∷ rest) = (is_ended x.state ≡ true) × AllEnded rest

-- What a task that ends as `completed` has behind it: a confirmed plan and, if the plan requires
-- it, a confirmed formula with its candidate.
abbrev pub HasEvidence : Task → Type 0
HasEvidence t =
    (is_some t.plan_version ≡ true)
    × (is_some t.plan_digest ≡ true)
    × (is_some t.plan_source_ref ≡ true)
    × (is_some t.plan_confirmation_note_digest ≡ true)
    × (is_true t.requires_formula_confirmation ≡ true → gate1_complete t ≡ true)

pub record IsSound (t : Task) : Type 0 where
  pub open_last : OnlyLastOpen t.attempts
  pub numbered : NumberedFrom 1 t.attempts
  pub outcomes : OutcomesAgree t.attempts
  pub outcome : is_some t.terminal_outcome ≡ is_closed t.state
  pub closed : is_closed t.state ≡ true → AllEnded t.attempts
  pub plan_confirmed : past_plan t.state ≡ true → is_some t.plan_confirmation_note_digest ≡ true
  pub formula_confirmed :
      past_formula t.state ≡ true
      → t.requires_formula_confirmation ≡ some true
      → (is_some t.gate1_ref ≡ true)
        × (is_some t.gate1_source_digest ≡ true)
        × (is_some t.gate1_note_digest ≡ true)
  pub completed_gates : t.terminal_outcome ≡ some completed → HasEvidence t
