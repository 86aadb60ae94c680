-- ===== src/Json.antt =====
-- `json.dumps(value, sort_keys=True, separators=(",", ":"), ensure_ascii=False)`, the canonical text
-- that hqa/workflow_authority.py (`_canonical_bytes`) and hqa/workflow_contract.py
-- (`canonical_command_digest`) hash. The documents hold no negative number and no float.
use hermes_quant_agent.Prelude.{
  ℕ, zero, suc, ◌+◌, ◌-◌, ◌/◌, ◌%◌, List, [], ◌∷◌, ◌++◌, Bool, true, false, Option, none, some,
  Text, text, ltb, nat_eq, ◌==◌, if◌then◌else◌,
}

mutual
  pub data Json : Type 0 where
    null : Json
    bool : Bool → Json
    num : ℕ → Json
    str : Text → Json
    arr : Items → Json
    obj : Fields → Json

  pub data Items : Type 0 where
    nil : Items
    cons : Json → Items → Items

  pub data Fields : Type 0 where
    end : Fields
    field : Text → Json → Fields → Fields

-- The digits of `n`, the fuel being at least their number.
unfoldable pub decimal_from : ℕ → ℕ → Text
decimal_from zero n = []
decimal_from (suc fuel) n =
    let rest = decimal_from fuel (n / 10) in
    if ltb n 10 then (b'0' + n) ∷ [] else rest ++ (b'0' + n % 10) ∷ []

unfoldable pub decimal : ℕ → Text
unfolding decimal_from
decimal n = decimal_from (n + 1) n

hex_digit : ℕ → ℕ
hex_digit n = if ltb n 10 then b'0' + n else b'a' + (n - 10)

-- How `json.dumps` writes a character: the short escapes, `\u00XX` for the other controls.
unfoldable pub escape : ℕ → Text
unfolding hex_digit nat_eq
escape c =
    if c == b'"'
    then text "\\\""
    else if c == 92
    then text "\\\\"
    else if c == 8
    then text "\\b"
    else if c == 9
    then text "\\t"
    else if c == 10
    then text "\\n"
    else if c == 12
    then text "\\f"
    else if c == 13
    then text "\\r"
    else if ltb c 32
    then text "\\u00" ++ hex_digit (c / 16) ∷ hex_digit (c % 16) ∷ []
    else c ∷ []

escape_all : Text → Text
unfolding escape
escape_all [] = []
escape_all (c ∷ s) = escape c ++ escape_all s

unfoldable pub quote : Text → Text
unfolding escape_all
quote s = b'"' ∷ (escape_all s ++ b'"' ∷ [])

-- The order of Python's `str`: by code points.
unfoldable pub text_le : Text → Text → Bool
text_le [] t = true
text_le (c ∷ s) [] = false
text_le (c ∷ s) (d ∷ t) = if ltb c d then true else if ltb d c then false else text_le s t

insert_member : Text × Text → List (Text × Text) → List (Text × Text)
insert_member m [] = m ∷ []
insert_member m (n ∷ ms) =
    let rest = insert_member m ms in if text_le m.0 n.0 then m ∷ n ∷ ms else n ∷ rest

-- `sort_keys=True`
unfoldable pub sort_members : List (Text × Text) → List (Text × Text)
unfolding insert_member text_le
sort_members [] = []
sort_members (m ∷ ms) = insert_member m (sort_members ms)

unfoldable pub join_comma : List Text → Text
join_comma [] = []
join_comma (s ∷ []) = s
join_comma (s ∷ t ∷ rest) = s ++ b',' ∷ join_comma (t ∷ rest)

unfoldable pub members : List (Text × Text) → List Text
unfolding quote
members [] = []
members ((key, value) ∷ rest) = (quote key ++ b':' ∷ value) ∷ members rest

unfoldable mutual
  unfolding decimal quote sort_members join_comma members

  pub canonical_text : Json → Text
  canonical_text null = text "null"
  canonical_text (bool true) = text "true"
  canonical_text (bool false) = text "false"
  canonical_text (num n) = decimal n
  canonical_text (str s) = quote s
  canonical_text (arr items) = b'[' ∷ (join_comma (canonical_items items) ++ b']' ∷ [])
  canonical_text (obj fields) =
      b'{' ∷ (join_comma (members (sort_members (canonical_fields fields))) ++ b'}' ∷ [])

  pub canonical_items : Items → List Text
  canonical_items nil = []
  canonical_items (cons v items) = canonical_text v ∷ canonical_items items

  pub canonical_fields : Fields → List (Text × Text)
  canonical_fields end = []
  canonical_fields (field key v fields) = (key, canonical_text v) ∷ canonical_fields fields

-- The value of an optional text.
unfoldable pub optional_str : Option Text → Json
optional_str none = null
optional_str (some s) = str s

unfoldable pub optional_num : Option ℕ → Json
optional_num none = null
optional_num (some n) = num n

unfoldable pub optional_bool : Option Bool → Json
optional_bool none = null
optional_bool (some b) = bool b
