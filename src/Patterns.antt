-- ===== src/Patterns.antt =====
-- The regular expressions of hqa/workflow_contract.py, hqa/workflow_authority.py and
-- hqa/agent_workspace_states.py, and the checks of references and digests that use them. Each
-- `fullmatch` is a scan over the code points.
pub mod Laws
use hermes_quant_agent.Prelude.{
  ℕ, zero, suc, List, [], ◌∷◌, Bool, true, false, ◌&&◌, ◌||◌, Option, none, some, Text, ltb, leb,
  length, if◌then◌else◌,
}

-- `[A-Za-z0-9]`
unfoldable pub is_alnum : ℕ → Bool
is_alnum c = leb b'A' c && leb c b'Z' || leb b'a' c && leb c b'z' || leb b'0' c && leb c b'9'

-- `c in s` for one character
unfoldable pub is_one_of : List ℕ → ℕ → Bool
is_one_of [] c = false
is_one_of (d ∷ ds) c = leb d c && leb c d || is_one_of ds c

-- `p*\Z`
unfoldable pub all_chars : (ℕ → Bool) → Text → Bool
all_chars p [] = true
all_chars p (c ∷ s) = p c && all_chars p s

-- `[A-Za-z0-9][A-Za-z0-9<extra>]{0,<most>}\Z`
unfoldable pub is_name : Text → ℕ → Text → Bool
unfolding is_alnum is_one_of all_chars
is_name extra most [] = false
is_name extra most (c ∷ s) =
    is_alnum c && all_chars (λ d. is_alnum d || is_one_of extra d) s && leb (length s) most

-- `_IDENTIFIER_RE`: `[A-Za-z0-9][A-Za-z0-9._-]{0,127}\Z`
unfoldable pub is_identifier : Text → Bool
unfolding is_name
is_identifier = is_name (b'.' ∷ b'_' ∷ b'-' ∷ []) 127

-- `[0-9a-f]`
unfoldable pub is_hex : ℕ → Bool
is_hex c = leb b'0' c && leb c b'9' || leb b'a' c && leb c b'f'

-- `[0-9a-f]{n}\Z`
unfoldable pub is_hex_of_length : ℕ → Text → Bool
unfolding is_hex all_chars
is_hex_of_length n s = all_chars is_hex s && leb n (length s) && leb (length s) n

-- `_HEX64_RE`, which `_safe_digest` tests
unfoldable pub safe_digest : Text → Bool
unfolding is_hex_of_length
safe_digest = is_hex_of_length 64

-- `value[len(prefix):]` if `value.startswith(prefix)`
unfoldable pub strip_prefix : Text → Text → Option Text
strip_prefix [] s = some s
strip_prefix (p ∷ ps) [] = none
strip_prefix (p ∷ ps) (c ∷ s) = if leb p c && leb c p then strip_prefix ps s else none

unfoldable pub holds_of : (Text → Bool) → Option Text → Bool
holds_of p none = false
holds_of p (some s) = p s

-- `_safe_ref`
unfoldable pub safe_ref : Text → Text → Bool
unfolding is_identifier strip_prefix holds_of
safe_ref value prefix = holds_of is_identifier (strip_prefix prefix value)

-- `_safe_event_ref`
unfoldable pub safe_event_ref : Text → Bool
unfolding safe_digest strip_prefix holds_of
safe_event_ref value =
    holds_of safe_digest (strip_prefix (b'e' ∷ b'v' ∷ b'e' ∷ b'n' ∷ b't' ∷ b':' ∷ []) value)

-- `_validate_payload_ref`: `payload:sha256:` and 64 hexadecimal digits
unfoldable pub is_payload_ref : Text → Text → Bool
unfolding safe_digest strip_prefix holds_of
is_payload_ref prefix value = holds_of safe_digest (strip_prefix prefix value)
