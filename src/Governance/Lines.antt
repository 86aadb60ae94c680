-- ===== src/Governance/Lines.antt =====
-- The lines of a text, as Python's text files and `str.splitlines` read them: both readers pass over blank
-- lines, so the two characters of `\r\n` may end two lines here.
use hermes_quant_agent.Prelude.{
  ℕ, ◌≡◌, refl, ap, ◌∙◌, arith, List, [], ◌∷◌, ◌++◌, Bool, true, false, not, ◌&&◌, ◌||◌, Option,
  none, some, Text, leb, nat_eq, ◌==◌, if◌then◌else◌,
}
use hermes_quant_agent.Patterns.{all_chars}

-- The text of a file, `none` where there is no file.
unfoldable pub contents : Option Text → Text
contents none = []
contents (some s) = s

-- A character before the first line.
abbrev pub onto : ℕ → List Text → List Text
onto c [] = (c ∷ []) ∷ []
onto c (line ∷ lines) = (c ∷ line) ∷ lines

-- The lines that the separators end; the last need not be ended.
unfoldable pub split_lines : (ℕ → Bool) → Text → List Text
split_lines ends [] = []
split_lines ends (c ∷ s) =
    let rest = split_lines ends s in if ends c then [] ∷ rest else onto c rest

-- The universal newlines of a text file.
unfoldable pub is_newline : ℕ → Bool
is_newline c = c == 10 || c == 13

-- The separators of `str.splitlines`.
unfoldable pub is_separator : ℕ → Bool
is_separator c = leb 10 c && leb c 13 || leb 28 c && leb c 30 || c == 133 || c == 8232 || c == 8233

-- No line is open at the end.
unfoldable pub is_ended : (ℕ → Bool) → Text → Bool
is_ended ends [] = true
is_ended ends (c ∷ []) = ends c
is_ended ends (c ∷ d ∷ s) = is_ended ends (d ∷ s)

-- The text is in one line.
unfoldable pub in_one_line : (ℕ → Bool) → Text → Bool
unfolding all_chars
in_one_line ends s = all_chars (λ c. not (ends c)) s

module _ (ends : ℕ → Bool) where
  onto-cons : (c : ℕ) (rest : List Text) → (l : Text) × (ls : List Text) × (onto c rest ≡ l ∷ ls)
  onto-cons c [] = (c ∷ [], [], refl)
  onto-cons c (line ∷ lines) = (c ∷ line, lines, refl)

  first_line :
      (b : Bool) (c : ℕ) (rest : List Text)
      → (l : Text) × (ls : List Text) × ((if b then [] ∷ rest else onto c rest) ≡ l ∷ ls)
  first_line true c rest = ([], rest, refl)
  first_line false c rest = onto-cons c rest

  split_lines-cons :
      (c : ℕ) (s : Text) → (l : Text) × (ls : List Text) × (split_lines ends (c ∷ s) ≡ l ∷ ls)
  unfolding split_lines
  split_lines-cons c s = first_line (ends c) c (split_lines ends s)

  onto-append :
      (c : ℕ) (xs ys : List Text)
      → ((l : Text) × (ls : List Text) × (xs ≡ l ∷ ls))
      → onto c (xs ++ ys) ≡ onto c xs ++ ys
  onto-append c [] ys (l, ls, e) = cc
  onto-append c (x ∷ xs) ys e = refl

  open_line :
      (b : Bool) (c : ℕ) (xs ys : List Text)
      → ((l : Text) × (ls : List Text) × (xs ≡ l ∷ ls))
      → (if b then [] ∷ (xs ++ ys) else onto c (xs ++ ys))
        ≡ (if b then [] ∷ xs else onto c xs) ++ ys
  open_line true c xs ys e = refl
  open_line false c xs ys e = onto-append c xs ys e

  -- After an ended text, another one's lines follow.
  pub split_lines-append :
      (s t : Text)
      → is_ended ends s ≡ true
      → split_lines ends (s ++ t) ≡ split_lines ends s ++ split_lines ends t
  unfolding split_lines is_ended
  split_lines-append [] t h = refl
  split_lines-append (c ∷ []) t h = rw h
  split_lines-append (c ∷ d ∷ s) t h =
      ap (λ (ls : List Text). if ends c then [] ∷ ls else onto c ls)
        (split_lines-append (d ∷ s) t h)
      ∙ open_line (ends c) c (split_lines ends (d ∷ s)) (split_lines ends t) (split_lines-cons d s)

  -- A text in one line, with the character that ends it.
  pub split_lines-line :
      (s : Text) (c : ℕ)
      → in_one_line ends s ≡ true
      → ends c ≡ true
      → split_lines ends (s ++ c ∷ []) ≡ s ∷ []
  unfolding split_lines in_one_line all_chars
  split_lines-line [] c h e = rw e
  split_lines-line (d ∷ s) c h e = ground (arith, h, split_lines-line s c (ground (arith, h)) e)

  is_ended-append : (s : Text) (c : ℕ) → ends c ≡ true → is_ended ends (s ++ c ∷ []) ≡ true
  unfolding is_ended
  is_ended-append [] c e = e
  is_ended-append (d ∷ []) c e = e
  is_ended-append (d ∷ x ∷ s) c e = is_ended-append (x ∷ s) c e

  -- An ended line ends any text that it is appended to.
  pub is_ended-line :
      (r s : Text) (c : ℕ) → ends c ≡ true → is_ended ends (r ++ (s ++ c ∷ [])) ≡ true
  unfolding is_ended
  is_ended-line [] s c e = is_ended-append s c e
  is_ended-line (x ∷ []) s c e = is_ended-append (x ∷ s) c e
  is_ended-line (x ∷ y ∷ r) s c e = is_ended-line (y ∷ r) s c e

pub newline-ends : is_newline b'\n' ≡ true
unfolding is_newline
newline-ends = ground arith

pub newline-separates : is_separator b'\n' ≡ true
unfolding is_separator
newline-separates = ground arith
