-- ===== src/Lint/Functions/Lines.antt =====
-- `CheckForFunctionLengths`: what one line of a file does to the state.
use simpledb.Prelude.{
  ℕ, Bool, true, false, not, ◌&&◌, ◌||◌, List, [], ◌∷◌, ◌++◌, Option, none, some, ◌==◌, leb,
  if◌then◌else◌, drop, get_elem?,
}
use simpledb.Prelude.Bytes.{◌>>=◌}
use simpledb.Prelude.Text.{Text, codes, text_eq, starts_with, is_space, is_word, lstrip}
use simpledb.Lint.FileChecks.{has_char, is_blank_line}
use simpledb.Lint.Functions.{FunctionState, LongFunction, begin, count_line, check, end}
use mathlib.Core.List.{reverse}

-- What the check reports: a long function, or that a function at this line has no body.
pub data LengthReport : Type 0 where
  long_function : LongFunction → LengthReport
  no_body : ℕ → LengthReport

-- `(\w|::|\*|\&|\s)*\(`: the text up to the bracket, for a pattern that goes on so; the flag is
-- true between two colons.
unfoldable pub declarator : Bool → Text → Option Text
unfolding is_word is_space
declarator colon [] = none
declarator true (c ∷ s) =
    let rest = declarator false s in
    if c == b':' then elim rest [ none ↦ none | some t ↦ some (c ∷ t) ] else none
declarator false (c ∷ s) =
    let rest = declarator false s in
    let paired = declarator true s in
    if c == b'('
    then some []
    else if c == b':'
    then elim paired [ none ↦ none | some t ↦ some (c ∷ t) ]
    else if is_word c || c == b'*' || c == b'&' || is_space c
    then elim rest [ none ↦ none | some t ↦ some (c ∷ t) ]
    else none

-- `(\w(\w|::|\*|\&|\s)*)\(` at the start of a line.
unfoldable pub match_declaration : Text → Option Text
unfolding declarator is_word
match_declaration [] = none
match_declaration (c ∷ s) =
    if is_word c then elim (declarator false s) [ none ↦ none | some t ↦ some (c ∷ t) ] else none

-- The last word of a text, with the word read so far and the last one that has ended.
last_word_onto : Text → Text → Text → Text
unfolding is_space text_eq
last_word_onto last word [] = if text_eq word [] then last else word
last_word_onto last word (c ∷ s) =
    let ended = last_word_onto (if text_eq word [] then last else word) [] s in
    let more = last_word_onto last (word ++ c ∷ []) s in if is_space c then ended else more

-- `[A-Z_]+$`
is_upper_case : Text → Bool
is_upper_case [] = true
is_upper_case (c ∷ s) = ((leb b'A' c && leb c b'Z') || c == b'_') && is_upper_case s

unfoldable pub starts_function : Text → Bool
unfolding match_declaration last_word_onto is_upper_case text_eq
starts_function line = elim (match_declaration line) [
  | none ↦ false
  | some declaration ↦
      let function_name = last_word_onto [] [] declaration in
      text_eq function_name (codes "TEST")
      || text_eq function_name (codes "TEST_F")
      || not (is_upper_case function_name)
]

-- `((\w|:)*)\(`: the characters right before the first bracket, with those read so far.
unfoldable pub name_before_bracket : Text → Text → Text
unfolding is_word
name_before_bracket read [] = []
name_before_bracket read (c ∷ s) =
    let more = name_before_bracket (read ++ c ∷ []) s in
    let again = name_before_bracket [] s in
    if c == b'(' then read else (if is_word c || c == b':' then more else again)

from_char : ℕ → Text → Text
from_char b [] = []
from_char b (c ∷ s) = let rest = from_char b s in if c == b then c ∷ s else rest

-- `(\(.*\))`: from the first opening bracket to the last closing one; empty without a match.
unfoldable pub parameters : Text → Text
unfolding from_char
parameters joined_line = reverse (from_char b')' (reverse (from_char b'(' joined_line)))

unfoldable pub tracked_name : Text → Text → Text
unfolding name_before_bracket parameters starts_with
tracked_name line joined_line =
    let function = name_before_bracket [] line in
    if starts_with (codes "TEST") function
    then function ++ parameters joined_line
    else function ++ codes "()"

-- The loop over the lines from the one that may start a function on.
unfoldable pub find_body :
    Text → ℕ → Text → List Text → FunctionState → FunctionState × List LengthReport
unfolding has_char lstrip tracked_name begin
find_body line linenum joined_line [] st = (st, no_body linenum ∷ [])
find_body line linenum joined_line (start_line ∷ lines) st =
    let joined = joined_line ++ 32 ∷ lstrip start_line in
    let rest = find_body line linenum joined lines st in
    if has_char b';' start_line || has_char b'}' start_line
    then (st, [])
    else if has_char b'{' start_line
    then (begin (tracked_name line joined) st, [])
    else rest

-- `^\}\s*$`
unfoldable pub ends_function : Text → Bool
unfolding is_blank_line
ends_function [] = false
ends_function (c ∷ s) = c == b'}' && is_blank_line s

checked : Option LongFunction → List LengthReport
checked none = []
checked (some f) = long_function f ∷ []

-- The check for the line `linenum`; `none` where there is no such line.
unfoldable pub check_for_function_lengths :
    ℕ → List Text → ℕ → FunctionState → Option (FunctionState × List LengthReport)
unfolding check checked end count_line
check_for_function_lengths verbose_level lines linenum st = do
  line ← get_elem? lines linenum
  some (
      if starts_function line
      then find_body line linenum [] (drop linenum lines) st
      else if ends_function line
      then (end st, checked (check verbose_level linenum st))
      else if not (is_blank_line line)
      then (count_line st, [])
      else (st, []))
