-- ===== src/Authority/Bindings.antt =====
-- `_bind_global` and `_require_global_binding`: each external reference is bound once.
use hermes_quant_agent.Prelude.{
  ◌≡◌, arith, none, some, Text, text_eq, option_eq, ◌==◌, if◌then◌else◌,
}
use hermes_quant_agent.Prelude.Dict.{get, put, get-put}
use hermes_quant_agent.Prelude.Outcome.{Done, ok, err, check}
use hermes_quant_agent.Authority.Errors.{Checked, workflow_binding_conflict}
use hermes_quant_agent.Authority.Store.{Namespace, Binding, Bindings, namespace_eq, binding_eq}

-- `bindings[namespace][external_ref] = binding`
unfoldable pub set_binding : Namespace → Text → Binding → Bindings → Bindings
set_binding namespace external_ref binding bindings n =
    if n == namespace then put external_ref binding (bindings namespace) else bindings n

unfoldable pub bind_global : Namespace → Text → Binding → Bindings → Checked Bindings
unfolding set_binding
bind_global namespace external_ref binding bindings = elim (get external_ref (bindings namespace)) [
  | none ↦ ok (set_binding namespace external_ref binding bindings)
  | some existing ↦ if existing == binding then ok bindings else err workflow_binding_conflict
]

unfoldable pub require_global_binding : Namespace → Text → Binding → Bindings → Checked Done
require_global_binding namespace external_ref binding bindings =
    check (get external_ref (bindings namespace) == some binding) workflow_binding_conflict

-- `a` holds every binding that `b` holds.
pub record Extends (a b : Bindings) : Type 0 where
  pub keeps :
      (n : Namespace) (ref : Text) (x : Binding) → get ref (b n) ≡ some x → get ref (a n) ≡ some x

pub Extends-refl : (b : Bindings) → Extends b b
Extends-refl b = record { keeps = λ n ref x h. h }

pub Extends-trans : {a b c : Bindings} → Extends a b → Extends b c → Extends a c
Extends-trans p q = record { keeps = λ n ref x h. p.keeps n ref x (q.keeps n ref x h) }

-- A successful binding keeps every old one, and the reference is bound to what was asked.
pub bind_global-Extends :
    (n : Namespace) (ref : Text) (x : Binding) (b : Bindings) {b' : Bindings}
    → bind_global n ref x b ≡ ok b'
    → Extends b' b
unfolding bind_global
bind_global-Extends n ref x b h = record {
  keeps = λ m r y k. ground (arith, get-put r ref x (b n));
}

pub get-bind_global :
    (n : Namespace) (ref : Text) (x : Binding) (b : Bindings) {b' : Bindings}
    → bind_global n ref x b ≡ ok b'
    → get ref (b' n) ≡ some x
unfolding bind_global
get-bind_global n ref x b h = ground (arith, get-put ref ref x (b n))
