-- ===== src/Patterns/Laws.antt =====
-- What the reference checks accept.
use hermes_quant_agent.Prelude.{ℕ, ◌≡◌, refl, Bool, true, ◌||◌, some, [], ◌∷◌, ◌++◌, arith, Text}
use hermes_quant_agent.Patterns.{
  is_alnum, is_one_of, all_chars, is_name, is_identifier, is_hex, safe_digest, strip_prefix,
  holds_of, safe_ref, safe_event_ref,
}

pub strip_prefix-append : (p s : Text) → strip_prefix p (p ++ s) ≡ some s
unfolding strip_prefix
strip_prefix-append [] s = refl
strip_prefix-append (c ∷ p) s = ground (arith, strip_prefix-append p s)

-- The only text whose rest after the prefix is `s` is the prefix followed by `s`.
pub strip_prefix-eq-some : (p v s : Text) → strip_prefix p v ≡ some s → v ≡ p ++ s
unfolding strip_prefix
strip_prefix-eq-some [] v s h = ground arith
strip_prefix-eq-some (c ∷ p) [] s h = cc
strip_prefix-eq-some (c ∷ p) (d ∷ v) s h = ground (arith, strip_prefix-eq-some p v s)

all_chars_mono :
    (p q : ℕ → Bool) (s : Text)
    → ((c : ℕ) → p c ≡ true → q c ≡ true)
    → all_chars p s ≡ true
    → all_chars q s ≡ true
unfolding all_chars
all_chars_mono p q [] h a = refl
all_chars_mono p q (c ∷ s) h a = ground (arith, h c, all_chars_mono p q s h)

hex-alnum : (c : ℕ) → is_hex c ≡ true → is_alnum c ≡ true
unfolding is_hex is_alnum
hex-alnum c h = ground arith

hex-name : (extra : Text) (c : ℕ) → is_hex c ≡ true → (is_alnum c || is_one_of extra c) ≡ true
hex-name extra c h = ground (arith, hex-alnum c h)

-- A digest is an identifier, so a reference made of a prefix and a digest is safe.
pub safe_digest-identifier : (s : Text) → safe_digest s ≡ true → is_identifier s ≡ true
unfolding safe_digest all_chars is_name is_identifier
safe_digest-identifier [] h = ground arith
safe_digest-identifier (c ∷ s) h = ground (
  arith,
  hex-alnum c,
  all_chars_mono is_hex (λ d. is_alnum d || is_one_of (b'.' ∷ b'_' ∷ b'-' ∷ []) d) s
      (hex-name (b'.' ∷ b'_' ∷ b'-' ∷ [])),
)

pub safe_ref-append :
    (prefix s : Text) → is_identifier s ≡ true → safe_ref (prefix ++ s) prefix ≡ true
unfolding safe_ref holds_of
safe_ref-append prefix s h = ground (arith, strip_prefix-append prefix s)

pub safe_event_ref-append :
    (s : Text)
    → safe_digest s ≡ true
    → safe_event_ref ((b'e' ∷ b'v' ∷ b'e' ∷ b'n' ∷ b't' ∷ b':' ∷ []) ++ s) ≡ true
unfolding safe_event_ref holds_of
safe_event_ref-append s h =
    ground (arith, strip_prefix-append (b'e' ∷ b'v' ∷ b'e' ∷ b'n' ∷ b't' ∷ b':' ∷ []) s)
