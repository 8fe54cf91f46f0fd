-- ===== src/Lint/Strings.antt =====
-- `CleansedLines._CollapseStrings`: the loop over the quotes of a line.
pub mod Collapse
pub mod Contents
use simpledb.Prelude.{
  ℕ, zero, suc, ◌+◌, ◌-◌, ◌≤◌, ◌==◌, leb, Bool, true, false, not, ◌&&◌, ◌||◌, List, [], ◌∷◌, ◌++◌,
  Option, none, some, if◌then◌else◌, length, take, drop, arith,
}
use simpledb.Prelude.Text.{Text, codes, find, is_space, is_word, lstrip, starts_with}
use simpledb.Prelude.Bytes.{◌>>=◌}
use simpledb.Lint.Cleanse.{remove_from, escape_length, is_hex_digit}

-- The text behind a prefix.
unfoldable pub behind : Text → Text → Option Text
unfolding starts_with
behind prefix s = if starts_with prefix s then some (drop (length prefix) s) else none

abbrev is_closing : ℕ → Bool
is_closing c = c == b'>' || c == b'"'

abbrev some_closing : Text → Bool
some_closing [] = false
some_closing (c ∷ s) = is_closing c || some_closing s

-- The name of the file in quotes or angles.
abbrev quoted_name : Text → Bool
quoted_name [] = false
quoted_name (c ∷ s) = (c == b'<' || c == b'"') && some_closing s

-- `_RE_PATTERN_INCLUDE` matches.
unfoldable pub is_include : Text → Bool
unfolding behind lstrip
is_include line = elim (behind (codes "#") (lstrip line)) [
  | none ↦ false
  | some s ↦ elim (behind (codes "include") (lstrip s)) [
    | none ↦ false
    | some name ↦ quoted_name (lstrip name)
  ]
]

abbrev is_quote : ℕ → Bool
is_quote c = c == b'"' || c == 39

-- A line cut at its first quote: what is in front, the quote, and what is behind.
pub record Cut : Type 0 where
  pub head : Text
  pub quote : ℕ
  pub tail : Text

unfoldable pub cut_at_quote : Text → Option Cut
cut_at_quote [] = none
cut_at_quote (c ∷ s) =
    if is_quote c
    then some (record { head = []; quote = c; tail = s })
    else (elim (cut_at_quote s) [
      | none ↦ none
      | some cut ↦ some (record { head = c ∷ cut.head; quote = cut.quote; tail = cut.tail })
    ])

abbrev all_hex : Text → Bool
all_hex [] = true
all_hex (c ∷ s) = is_hex_digit c && all_hex s

abbrev after_base : Text → Bool
after_base [] = true
after_base (c ∷ s) =
    (c == b'b' || c == b'B' || c == b'x' || c == b'X' || is_hex_digit c) && all_hex s

-- `(?:0[bBxX]?|[1-9])[0-9a-fA-F]*$`
abbrev is_number : Text → Bool
is_number [] = false
is_number (c ∷ s) = (c == b'0' && after_base s) || (leb b'1' c && leb c b'9' && all_hex s)

-- The search for a number up to the end, behind a word boundary.
unfoldable pub ends_in_number : Bool → Text → Bool
unfolding is_word
ends_in_number in_word [] = false
ends_in_number in_word (c ∷ s) = (not in_word && is_number (c ∷ s)) || ends_in_number (is_word c) s

abbrev pub word_first : Text → Bool
unfolding is_word
word_first [] = false
word_first (c ∷ s) = is_word c

-- `(?:'?[0-9a-zA-Z_])*`: how far the rest of a number with separators goes.
unfoldable pub literal_length : Text → ℕ
unfolding is_word word_first
literal_length [] = 0
literal_length (c ∷ s) =
    if is_word c || (c == 39 && word_first s) then suc (literal_length s) else 0

abbrev pub without_separators : Text → Text
without_separators [] = []
without_separators (c ∷ s) = if c == 39 then without_separators s else c ∷ without_separators s

-- What one turn of the loop appends to `collapsed`, and what is left for the next turn.
pub data Turn : Type 0 where
  breaks : Text → Turn
  goes_on : Text → Text → Turn

-- A string or a character with its quotes.
unfoldable pub collapse_quoted : Text → Cut → Turn
unfolding find
collapse_quoted elided cut = elim (find (cut.quote ∷ []) cut.tail) [
  | none ↦ breaks elided
  | some second_quote ↦
      goes_on (cut.head ++ (cut.quote ∷ cut.quote ∷ [])) (drop (second_quote + 1) cut.tail)
]

unfoldable pub collapse_separators : Cut → Turn
unfolding literal_length
collapse_separators cut =
    let text = 39 ∷ cut.tail in
    let size = literal_length text in
    goes_on (cut.head ++ without_separators (take size text)) (drop size text)

unfoldable pub collapse_turn : Text → Turn
unfolding cut_at_quote collapse_quoted collapse_separators ends_in_number
collapse_turn elided = elim (cut_at_quote elided) [
  | none ↦ breaks elided
  | some cut ↦
      if not (cut.quote == b'"') && ends_in_number false cut.head
      then collapse_separators cut
      else collapse_quoted elided cut
]

-- `none`: out of fuel.
unfoldable pub collapse_loop : ℕ → Text → Text → Option Text
unfolding collapse_turn
collapse_loop zero collapsed elided = none
collapse_loop (suc fuel) collapsed elided = elim (collapse_turn elided) [
  | breaks text ↦ some (collapsed ++ text)
  | goes_on text rest ↦ collapse_loop fuel (collapsed ++ text) rest
]

unfoldable pub collapse_strings : Text → Option Text
unfolding is_include remove_from escape_length collapse_loop
collapse_strings elided =
    let line = remove_from escape_length 0 elided in
    if is_include elided then some elided else collapse_loop (suc (length line)) [] line
