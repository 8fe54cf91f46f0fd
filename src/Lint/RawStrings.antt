-- ===== src/Lint/RawStrings.antt =====
-- `CleanseRawStrings`: raw strings, also over several lines, become empty strings.
pub mod Lines
use simpledb.Prelude.{
  ℕ, zero, suc, ◌+◌, ◌==◌, Bool, true, false, not, ◌&&◌, ◌||◌, List, [], ◌∷◌, ◌++◌, Option, none,
  some, if◌then◌else◌, length, take, drop, arith,
}
use simpledb.Prelude.Text.{Text, codes, find, is_space, is_word, starts_with}
use simpledb.Lint.Cleanse.{span}
use simpledb.Lint.Strings.{behind}

-- The line with a raw string cut out: what is in front of it, its delimiter, and what is behind the
-- parenthesis that opens it.
pub record RawStart : Type 0 where
  pub head : Text
  pub delimiter : Text
  pub text : Text

unfoldable is_delimiter_char : ℕ → Bool
unfolding is_space
is_delimiter_char c = not (is_space c || c == 92 || c == b'(' || c == b')')

-- `([^\s\\()]*)\((.*)$` behind the quote.
unfoldable opened : Text → Option RawStart
unfolding is_delimiter_char
opened [] = none
opened (c ∷ s) =
    if c == b'('
    then some (record { head = []; delimiter = []; text = s })
    else if is_delimiter_char c
    then (elim (opened s) [
      | none ↦ none
      | some start ↦ some (record { head = []; delimiter = c ∷ start.delimiter; text = start.text })
    ])
    else none

-- `(?:R|u8R|uR|UR|LR)"`: what is behind the quote.
unfoldable prefixed : List Text → Text → Option Text
unfolding behind
prefixed [] s = none
prefixed (prefix ∷ prefixes) s = elim (behind prefix s) [
  | some rest ↦ some rest
  | none ↦ prefixed prefixes s
]

abbrev raw_prefixes : List Text
raw_prefixes = codes "R\"" ∷ codes "u8R\"" ∷ codes "uR\"" ∷ codes "UR\"" ∷ codes "LR\"" ∷ []

unfoldable raw_here : Text → Option RawStart
unfolding prefixed opened
raw_here s = elim (prefixed raw_prefixes s) [ none ↦ none | some rest ↦ opened rest ]

-- The same start, in a line with a character more in front.
abbrev pub behind_char : ℕ → Option RawStart → Option RawStart
behind_char c none = none
behind_char c (some start) =
    some (record { head = c ∷ start.head; delimiter = start.delimiter; text = start.text })

-- The first match of the pattern; `in_word` tells that the character before is one of `\w`.
unfoldable pub find_raw_start : Bool → Text → Option RawStart
unfolding raw_here is_word
find_raw_start in_word [] = none
find_raw_start in_word (c ∷ s) =
    let later = behind_char c (find_raw_start (is_word c) s) in
    let here = if in_word then none else raw_here (c ∷ s) in
    elim here [ some start ↦ some start | none ↦ later ]

-- `^([^'"]|'(\\.|[^'])*'|"(\\.|[^"])*")*//`: whether a `//` can be read outside of all quotes. The
-- pattern may read a text in several ways, so the readings are followed together: those that are
-- outside, in single and in double quotes. `escaped` tells that the character before is a backslash.
unfoldable pub in_line_comment : Bool → Bool → Bool → Bool → Text → Bool
unfolding starts_with
in_line_comment outside single double escaped [] = false
in_line_comment outside single double escaped (c ∷ s) =
    let is_single = c == 39 in
    let is_double = c == b'"' in
    (outside && starts_with (codes "//") (c ∷ s))
    || in_line_comment
        ((outside && not is_single && not is_double)
          || (single && is_single)
          || (double && is_double))
        ((outside && is_single) || (single && (not is_single || escaped)))
        ((outside && is_double) || (double && (not is_double || escaped))) (c == 92) s

-- `''` with double quotes.
abbrev pub empty_string : Text
empty_string = b'"' ∷ b'"' ∷ []

-- The delimiter that ends the raw string.
abbrev pub closing : Text → Text
closing delimiter = b')' ∷ (delimiter ++ (b'"' ∷ []))

-- What is left of a line, and the delimiter of the raw string that is open behind it.
pub record Cleansed : Type 0 where
  pub line : Text
  pub delimiter : Option Text

-- The loop over the raw strings that begin in a line. `none`: out of fuel.
unfoldable pub begin_loop : ℕ → Text → Option Cleansed
unfolding find_raw_start in_line_comment find
begin_loop zero line = none
begin_loop (suc fuel) line = elim (find_raw_start false line) [
  | none ↦ some (record { line = line; delimiter = none })
  | some start ↦
      if in_line_comment true false false false start.head
      then some (record { line = line; delimiter = none })
      else (elim (find (closing start.delimiter) start.text) [
        | some end ↦ begin_loop fuel (
            start.head
            ++ (empty_string ++ drop (end + length (closing start.delimiter)) start.text))
        | none ↦ some (record {
          line = start.head ++ empty_string;
          delimiter = some (closing start.delimiter);
        })
      ])
]

unfoldable pub begin_strings : Text → Option Cleansed
unfolding begin_loop
begin_strings line = begin_loop (suc (length line)) line

-- One turn of the loop over the lines. The line that holds the delimiter is not blank, so that its
-- leading space is all the space in front.
unfoldable pub cleanse_line : Option Text → Text → Option Cleansed
unfolding find is_space begin_strings
cleanse_line none line = begin_strings line
cleanse_line (some delimiter) line = elim (find delimiter line) [
  | some end ↦
      begin_strings
        (take (span is_space line) line ++ (empty_string ++ drop (end + length delimiter) line))
  | none ↦ some (record { line = empty_string; delimiter = some delimiter })
]

unfoldable pub cleanse_lines : Option Text → List Text → Option (List Text)
unfolding cleanse_line
cleanse_lines delimiter [] = some []
cleanse_lines delimiter (line ∷ raw_lines) = elim (cleanse_line delimiter line) [
  | none ↦ none
  | some cleansed ↦ elim (cleanse_lines cleansed.delimiter raw_lines) [
    | none ↦ none
    | some rest ↦ some (cleansed.line ∷ rest)
  ]
]

unfoldable pub cleanse_raw_strings : List Text → Option (List Text)
unfolding cleanse_lines
cleanse_raw_strings raw_lines = cleanse_lines none raw_lines
