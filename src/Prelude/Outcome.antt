-- ===== src/Prelude/Outcome.antt =====
-- The result of code that may raise `WorkflowAuthorityError`, with its stable codes.
use mathlib.Core.Path.{◌≡◌, refl, ap, ◌∙◌}
use mathlib.Core.Bool.{Bool, true, false}

pub data Result {ℓ κ} (E : Type κ) (A : Type ℓ) : Type (ℓ ⊔ κ) where
  ok : A → Result E A
  err : E → Result E A

-- What code returns that only checks.
abbrev pub Done : Type 0
Done = Unit {0}

-- Whether the code returns.
abbrev pub accepts {ℓ κ} : {E : Type κ} {A : Type ℓ} → Result E A → Bool
accepts (ok a) = true
accepts (err e) = false

infixl 5 ◌>>=◌ ◌>>◌
-- Shut where a proof goes by the rules of `Ensures`, open where a case split is shorter.
unfoldable pub ◌>>=◌ {ℓ κ μ} :
    {E : Type μ} {A : Type ℓ} {B : Type κ} → Result E A → (A → Result E B) → Result E B
ok a >>= f = f a
err e >>= f = err e

abbrev pub ◌>>◌ {ℓ μ} : {E : Type μ} {B : Type ℓ} → Result E (Done) → Result E B → Result E B
m >> k = m >>= λ _. k

-- `if not b: raise e`
abbrev pub check {μ} : {E : Type μ} → Bool → E → Result E Done
check true e = ok tt
check false e = err e

-- `if b: raise e`
abbrev pub refuse {μ} : {E : Type μ} → Bool → E → Result E Done
refuse true e = err e
refuse false e = ok tt

module _ {ℓ κ μ} {E : Type μ} {A : Type ℓ} {B : Type κ} where
  -- Inversion of a successful bind.
  pub >>=-eq-ok :
      (m : Result E A) (f : A → Result E B) {b : B}
      → (m >>= f) ≡ ok b
      → (a : A) × (m ≡ ok a) × (f a ≡ ok b)
  unfolding ◌>>=◌
  >>=-eq-ok (ok a) f h = (a, refl, h)
  >>=-eq-ok (err e) f h = cc

  pub >>=-ok :
      (m : Result E A) (f : A → Result E B) {a : A} {r : Result E B}
      → m ≡ ok a
      → f a ≡ r
      → (m >>= f) ≡ r
  unfolding ◌>>=◌
  >>=-ok m f h k = ap (λ z. z >>= f) h ∙ k
