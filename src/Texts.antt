-- ===== src/Texts.antt =====
-- Python's `str.strip`, `str.upper`, `str.encode` and `json.dumps(..., ensure_ascii=True)` on texts, as
-- hqa/predictions.py, hqa/trials.py and hqa/reviewlog.py use them.
use hermes_quant_agent.Prelude.{
  ℕ, ◌+◌, ◌-◌, ◌/◌, ◌%◌, [], ◌∷◌, ◌++◌, Bool, true, not, ◌&&◌, ◌||◌, Text, text, ltb, leb, nat_eq,
  ◌==◌, if◌then◌else◌,
}
use hermes_quant_agent.Json.{escape}

-- `str.isspace` of one character
unfoldable pub is_space : ℕ → Bool
is_space c =
    leb 9 c && leb c 13
    || leb 28 c && leb c 32
    || c == 133
    || c == 160
    || c == 5760
    || leb 8192 c && leb c 8202
    || c == 8232
    || c == 8233
    || c == 8239
    || c == 8287
    || c == 12288

unfoldable pub strip_left : Text → Text
unfolding is_space
strip_left [] = []
strip_left (c ∷ s) = let rest = strip_left s in if is_space c then rest else c ∷ s

-- A character before a text that is stripped on the right.
cons_unless_blank : ℕ → Text → Text
unfolding is_space
cons_unless_blank c [] = if is_space c then [] else c ∷ []
cons_unless_blank c (d ∷ s) = c ∷ d ∷ s

unfoldable pub strip_right : Text → Text
unfolding cons_unless_blank
strip_right [] = []
strip_right (c ∷ s) = cons_unless_blank c (strip_right s)

unfoldable pub strip : Text → Text
unfolding strip_left strip_right
strip s = strip_right (strip_left s)

-- `str.upper` of one character, for every character whose upper case has an ASCII letter; another
-- one stands for itself, since the ticker that is read from the result refuses it either way.
unfoldable pub upper_char : ℕ → Text
upper_char c =
    if leb b'a' c && leb c b'z'
    then (c - 32) ∷ []
    else if c == 223
    then text "SS"
    else if c == 305
    then text "I"
    else if c == 383
    then text "S"
    else if c == 64256
    then text "FF"
    else if c == 64257
    then text "FI"
    else if c == 64258
    then text "FL"
    else if c == 64259
    then text "FFI"
    else if c == 64260
    then text "FFL"
    else if c == 64261 || c == 64262
    then text "ST"
    else c ∷ []

unfoldable pub upper : Text → Text
unfolding upper_char
upper [] = []
upper (c ∷ s) = upper_char c ++ upper s

-- `encode("utf-8", errors="strict")` does not raise: no surrogate occurs.
unfoldable pub is_unicode : Text → Bool
is_unicode [] = true
is_unicode (c ∷ s) = not (leb 55296 c && leb c 57343) && is_unicode s

hex_digit : ℕ → ℕ
hex_digit n = if ltb n 10 then b'0' + n else b'a' + (n - 10)

-- `\uXXXX`
unicode_escape : ℕ → Text
unfolding hex_digit
unicode_escape c =
    92
    ∷ b'u'
    ∷ hex_digit (c / 4096)
    ∷ hex_digit (c / 256 % 16)
    ∷ hex_digit (c / 16 % 16)
    ∷ hex_digit (c % 16)
    ∷ []

unfoldable pub ascii_escape : ℕ → Text
unfolding unicode_escape escape
ascii_escape c =
    if ltb c 127
    then escape c
    else if ltb c 65536
    then unicode_escape c
    else unicode_escape (55296 + (c - 65536) / 1024) ++ unicode_escape (56320 + (c - 65536) % 1024)

ascii_escape_all : Text → Text
unfolding ascii_escape
ascii_escape_all [] = []
ascii_escape_all (c ∷ s) = ascii_escape c ++ ascii_escape_all s

-- a text as `json.dumps` writes it with `ensure_ascii=True`
unfoldable pub ascii_quote : Text → Text
unfolding ascii_escape_all
ascii_quote s = b'"' ∷ (ascii_escape_all s ++ b'"' ∷ [])
