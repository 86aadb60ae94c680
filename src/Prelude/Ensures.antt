-- ===== src/Prelude/Ensures.antt =====
-- Postconditions of code that may raise: `Ensures P m` says that what `m` returns satisfies `P`.
use mathlib.Core.Path.{◌≡◌, refl, subst}
use mathlib.Core.Bool.{Bool, true, false}
use hermes_quant_agent.Prelude.Tests.{if◌then◌else◌}
use hermes_quant_agent.Prelude.Outcome.{Result, ok, err, ◌>>=◌, ◌>>◌, Done, check, refuse}

pub record Ensures {ℓ κ μ} {E : Type μ} {A : Type ℓ} (P : A → Type κ) (m : Result E A)
    : Type (ℓ ⊔ κ ⊔ μ) where
  pub returns : (a : A) → m ≡ ok a → P a

module _ {ℓ κ μ ν} {E : Type μ} {A : Type ℓ} {B : Type ν} {P : B → Type κ} where
  bind_returns :
      (m : Result E A) (f : A → Result E B)
      → ((a : A) → m ≡ ok a → Ensures P (f a))
      → (b : B) → (m >>= f) ≡ ok b
      → P b
  unfolding ◌>>=◌
  bind_returns (ok a) f k b h = (k a refl).returns b h
  bind_returns (err e) f k b h = cc

  -- The rest may use what the first part returned.
  pub bind :
      (m : Result E A) (f : A → Result E B)
      → ((a : A) → m ≡ ok a → Ensures P (f a))
      → Ensures P (m >>= f)
  bind m f k = record { returns = bind_returns m f k }

module _ {μ} {E : Type μ} where
  check-true : (c : Bool) (e : E) (u : Done) → check c e ≡ ok u → c ≡ true
  check-true true e u h = refl
  check-true false e u h = cc

  refuse-false : (c : Bool) (e : E) (u : Done) → refuse c e ≡ ok u → c ≡ false
  refuse-false true e u h = cc
  refuse-false false e u h = refl

module _ {ℓ κ μ} {E : Type μ} {B : Type ℓ} {P : B → Type κ} where
  pub done : {b : B} → P b → Ensures {E = E} P (ok b)
  done {b} p = record { returns = λ a h. subst P (cc) p }

  pub fails : {e : E} → Ensures P (err e)
  fails = record { returns = λ a h. cc }

  pub skip : (m : Result E Done) (k : Result E B) → Ensures P k → Ensures P (m >> k)
  skip m k h = bind m (λ _. k) (λ _ _. h)

  pub checked :
      (c : Bool) (e : E) (k : Result E B) → (c ≡ true → Ensures P k) → Ensures P (check c e >> k)
  checked c e k h = bind (check c e) (λ _. k) (λ u p. h (check-true c e u p))

  pub refused :
      (c : Bool) (e : E) (k : Result E B) → (c ≡ false → Ensures P k) → Ensures P (refuse c e >> k)
  refused c e k h = bind (refuse c e) (λ _. k) (λ u p. h (refuse-false c e u p))

  pub branch :
      (c : Bool) (m n : Result E B)
      → (c ≡ true → Ensures P m)
      → (c ≡ false → Ensures P n)
      → Ensures P (if c then m else n)
  branch true m n p q = p refl
  branch false m n p q = q refl
