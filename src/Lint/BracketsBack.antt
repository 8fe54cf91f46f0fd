-- ===== src/Lint/BracketsBack.antt =====
-- The matching of brackets towards the front: `FindStartOfExpressionInLine` and
-- `ReverseCloseExpression`. `before` is what stands before the place in the line, nearest first,
-- so that the place is its length; `after` is what stands behind the place.
pub mod Balanced
use simpledb.Prelude.{
  ℕ, zero, suc, ◌+◌, ◌-◌, Bool, true, false, not, ◌&&◌, ◌||◌, List, [], ◌∷◌, ◌++◌, Option, none,
  some, ◌==◌, if◌then◌else◌, length, get_elem?, take, drop,
}
use simpledb.Prelude.Bytes.{◌>>=◌}
use simpledb.Prelude.Text.{Text, is_space}
use simpledb.Lint.Brackets.{
  Scan, closed, failed, unclosed, Expression, is_open, is_close, fits, previous_is,
  ends_in_operator,
}

-- The loop goes on, past a number of characters, or returns.
pub data Back : Type 0 where
  back : ℕ → List ℕ → Back
  halt : Scan → Back

-- `while stack and stack[-1] == '>': stack.pop()`
unfoldable pub drop_right_angles : List ℕ → List ℕ
drop_right_angles [] = []
drop_right_angles (t ∷ st) = let rest = drop_right_angles st in if t == b'>' then rest else t ∷ st

first_is_space : Text → Bool
unfolding is_space
first_is_space [] = false
first_is_space (c ∷ _) = is_space c

equals_then_space : Text → Bool
equals_then_space [] = false
equals_then_space (c ∷ s) = c == b'=' && first_is_space s

-- The three exceptions for a `>`: "->", ">=" and "operator>".
unfoldable pub is_operator_end : Text → Text → Bool
unfolding first_is_space equals_then_space previous_is ends_in_operator
is_operator_end [] after = false
is_operator_end (b ∷ before) after =
    b == b'-'
    || (first_is_space (b ∷ before) && equals_then_space after)
    || ends_in_operator (b ∷ before)

emptied : Scan → List ℕ → Back
emptied result [] = halt result
emptied result (t ∷ st) = back 0 (t ∷ st)

open_angle : ℕ → List ℕ → Back
open_angle i [] = back 0 []
open_angle i (t ∷ st) = if t == b'>' then emptied (closed i) st else back 0 (t ∷ st)

-- The branch of `(`, `[` and `{`, on a stack without pending `>`.
open_bracket : ℕ → ℕ → List ℕ → Back
unfolding fits
open_bracket i c [] = halt failed
open_bracket i c (t ∷ st) = if fits c t then emptied (closed i) st else halt failed

-- One round of the loop of `FindStartOfExpressionInLine`.
unfoldable pub back_char : Text → Text → ℕ → List ℕ → Back
unfolding is_operator_end previous_is emptied open_angle open_bracket is_open is_close
back_char before after c stack =
    if is_close c
    then back 0 (c ∷ stack)
    else if c == b'>'
    then (if is_operator_end before after then back 1 stack else back 0 (b'>' ∷ stack))
    else if c == b'<'
    then (if previous_is b'<' before then back 1 stack else open_angle (length before) stack)
    else if is_open c
    then open_bracket (length before) c (drop_right_angles stack)
    else if c == b';'
    then emptied failed (drop_right_angles stack)
    else back 0 stack

unfoldable pub scan_back : ℕ → Text → Text → List ℕ → Scan
scan_back skip [] after stack = unclosed stack
scan_back (suc skip) (c ∷ before) after stack = scan_back skip before (c ∷ after) stack
scan_back zero (c ∷ before) after stack = elim (back_char before after c stack) [
  | back skip stack' ↦ scan_back skip before (c ∷ after) stack'
  | halt result ↦ result
]

-- The text in front of others, in reverse.
unfoldable pub reversed_onto : Text → Text → Text
reversed_onto [] before = before
reversed_onto (c ∷ s) before = reversed_onto s (c ∷ before)

-- `FindStartOfExpressionInLine` from a place inside the line.
unfoldable pub find_start_of_expression_in_line : Text → ℕ → List ℕ → Scan
unfolding scan_back reversed_onto
find_start_of_expression_in_line line endpos stack =
    scan_back 0 (reversed_onto (take (endpos + 1) line) []) (drop (endpos + 1) line) stack

-- The loop of `ReverseCloseExpression` over the lines above, the nearest first, of which there
-- are `linenum`.
unfoldable pub open_in_lines : Text → ℕ → List Text → Scan → Expression
open_in_lines line linenum above (closed n) = record {
  line = line;
  linenum = linenum;
  pos = some n;
}
open_in_lines line linenum above failed = record { line = line; linenum = 0; pos = none }
open_in_lines line linenum above (unclosed []) = record { line = line; linenum = 0; pos = none }
open_in_lines line linenum [] (unclosed (t ∷ st)) = record { line = line; linenum = 0; pos = none }
open_in_lines line linenum (next ∷ above) (unclosed (t ∷ st)) =
    open_in_lines next (linenum - 1) above (scan_back 0 (reversed_onto next []) [] (t ∷ st))

lines_above : List Text → List Text → List Text
lines_above [] above = above
lines_above (line ∷ lines) above = lines_above lines (line ∷ above)

-- `ReverseCloseExpression` over the elided lines. `none` is an index that is out of range.
unfoldable pub reverse_close_expression : List Text → ℕ → ℕ → Option Expression
unfolding is_close lines_above
reverse_close_expression elided linenum pos = do
  line ← get_elem? elided linenum
  c ← get_elem? line pos
  some (
      if is_close c || c == b'>'
      then open_in_lines line linenum (lines_above (take linenum elided) [])
          (find_start_of_expression_in_line line pos [])
      else record { line = line; linenum = 0; pos = none })
