-- ===== src/Examples/Hash.antt =====
-- A checksum that stands for SHA-256 in the examples: a digest of 64 hexadecimal digits.
use hermes_quant_agent.Prelude.{
  ℕ, ◌+◌, ◌/◌, ◌%◌, ◌<◌, [], ◌∷◌, true, ◌≡◌, arith, Text, text, ltb, if◌then◌else◌,
}
use hermes_quant_agent.Patterns.{safe_digest, is_hex_of_length, is_hex, all_chars}
use hermes_quant_agent.Authority.Digests.{Authority}

sum : Text → ℕ
sum [] = 0
sum (c ∷ s) = c + sum s

digit : ℕ → ℕ
digit n = if ltb n 10 then 48 + n else 87 + n

unfoldable pub checksum : Text → Text
unfolding sum digit
checksum s =
    digit (sum s / 16 % 16)
    ∷ digit (sum s % 16)
    ∷ text "00000000000000000000000000000000000000000000000000000000000000"

digit-hex : (n : ℕ) → n < 16 → is_hex (digit n) ≡ true
unfolding digit is_hex
digit-hex n h = ground arith

below_16 : (n : ℕ) → n % 16 < 16
below_16 n = omega arith

two_digits :
    (a b : ℕ)
    → is_hex a ≡ true
    → is_hex b ≡ true
    → safe_digest (a ∷ b ∷ text "00000000000000000000000000000000000000000000000000000000000000")
      ≡ true
unfolding safe_digest is_hex_of_length all_chars is_hex
two_digits a b h k = ground arith

pub checksum-safe : (s : Text) → safe_digest (checksum s) ≡ true
unfolding checksum
checksum-safe s =
    two_digits _ _ (digit-hex _ (below_16 (sum s / 16))) (digit-hex _ (below_16 (sum s)))

-- the owner of the examples
unfoldable pub owner : Authority
unfolding checksum
owner = record {
  owner_user_id = text "owner-1";
  digests = record { sha256 = checksum; sha256_hex = checksum-safe };
}
