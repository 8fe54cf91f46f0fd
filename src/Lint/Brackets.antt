-- ===== src/Lint/Brackets.antt =====
-- The matching of brackets: `FindEndOfExpressionInLine` and `CloseExpression`. The stack holds
-- the open brackets, the innermost first. `before` is what stands before the place in the line,
-- nearest first.
pub mod Balanced
pub mod Ends
use simpledb.Prelude.{
  ℕ, zero, suc, ◌+◌, ◌-◌, Bool, true, false, not, ◌&&◌, ◌||◌, List, [], ◌∷◌, ◌++◌, Option, none,
  some, ltb, leb, ◌==◌, if◌then◌else◌, length, get_elem?, take, drop,
}
use simpledb.Prelude.Bytes.{◌>>=◌}
use simpledb.Prelude.Text.{Text, codes, starts_with, lstrip}
use simpledb.Lint.Suppressions.{at_word_end}
use mathlib.Core.List.{reverse}

-- `(i + 1, None)`, `(-1, None)` and `(-1, stack)`.
pub data Scan : Type 0 where
  closed : ℕ → Scan
  failed : Scan
  unclosed : List ℕ → Scan

-- What one character does: the loop goes on with a stack, or returns.
pub data Move : Type 0 where
  go : List ℕ → Move
  stop : Scan → Move

-- `char in '([{'`
unfoldable pub is_open : ℕ → Bool
is_open c = c == b'(' || c == b'[' || c == b'{'

-- `char in ')]}'`
unfoldable pub is_close : ℕ → Bool
is_close c = c == b')' || c == b']' || c == b'}'

unfoldable pub fits : ℕ → ℕ → Bool
fits o c = (o == b'(' && c == b')') || (o == b'[' && c == b']') || (o == b'{' && c == b'}')

-- `while stack and stack[-1] == '<': stack.pop()`
unfoldable pub drop_angles : List ℕ → List ℕ
drop_angles [] = []
drop_angles (t ∷ st) = let rest = drop_angles st in if t == b'<' then rest else t ∷ st

-- `Search(r'\boperator\s*$', ...)` on the text whose reverse this is.
unfoldable pub ends_in_operator : List ℕ → Bool
unfolding starts_with lstrip at_word_end
ends_in_operator before =
    let r = lstrip before in starts_with (codes "rotarepo") r && at_word_end (drop 8 r)

unfoldable pub previous_is : ℕ → List ℕ → Bool
previous_is c [] = false
previous_is c (b ∷ _) = b == c

popped : Scan → List ℕ → Move
popped result [] = stop result
popped result (t ∷ st) = go (t ∷ st)

-- The branch of a second `<`.
left_shift : List ℕ → Move
left_shift [] = go []
left_shift (t ∷ st) = if t == b'<' then popped failed st else go (t ∷ st)

-- The branch of `)`, `]` and `}`, on a stack without pending `<`.
close_bracket : ℕ → ℕ → List ℕ → Move
close_bracket i c [] = stop failed
close_bracket i c (t ∷ st) = if fits t c then popped (closed (i + 1)) st else stop failed

close_angle : ℕ → List ℕ → Move
close_angle i [] = go []
close_angle i (t ∷ st) = if t == b'<' then popped (closed (i + 1)) st else go (t ∷ st)

after_prefix : List ℕ → List ℕ
after_prefix [] = []
after_prefix (_ ∷ before) = before

-- One round of the loop of `FindEndOfExpressionInLine`.
unfoldable pub scan_char : ℕ → List ℕ → ℕ → List ℕ → Move
unfolding is_open is_close fits previous_is popped left_shift close_bracket close_angle after_prefix
scan_char i before c stack =
    if is_open c
    then go (c ∷ stack)
    else if c == b'<'
    then (if previous_is b'<' before
        then left_shift stack
        else (if ends_in_operator before then go stack else go (b'<' ∷ stack)))
    else if is_close c
    then close_bracket i c (drop_angles stack)
    else if c == b'>'
    then (if previous_is b'-' before || (ltb 0 i && ends_in_operator (after_prefix before))
        then go stack
        else close_angle i stack)
    else if c == b';'
    then popped failed (drop_angles stack)
    else go stack

unfoldable pub scan_line : ℕ → List ℕ → Text → List ℕ → Scan
scan_line i before [] stack = unclosed stack
scan_line i before (c ∷ s) stack = elim (scan_char i before c stack) [
  | go stack' ↦ scan_line (i + 1) (c ∷ before) s stack'
  | stop result ↦ result
]

-- `FindEndOfExpressionInLine`
unfoldable pub find_end_of_expression_in_line : Text → ℕ → List ℕ → Scan
find_end_of_expression_in_line line startpos stack =
    scan_line startpos (reverse (take startpos line)) (drop startpos line) stack

-- The end that was found, `none` for -1, with its line's number and text.
pub record Expression : Type 0 where
  pub line : Text
  pub linenum : ℕ
  pub pos : Option ℕ

-- The loop of `CloseExpression` over the lines that are left.
unfoldable pub close_in_lines : Text → ℕ → List Text → ℕ → Scan → Expression
close_in_lines line linenum rest num_lines (closed n) = record {
  line = line;
  linenum = linenum;
  pos = some n;
}
close_in_lines line linenum rest num_lines failed = record {
  line = line;
  linenum = num_lines;
  pos = none;
}
close_in_lines line linenum rest num_lines (unclosed []) = record {
  line = line;
  linenum = num_lines;
  pos = none;
}
close_in_lines line linenum [] num_lines (unclosed (t ∷ st)) = record {
  line = line;
  linenum = num_lines;
  pos = none;
}
close_in_lines line linenum (next ∷ rest) num_lines (unclosed (t ∷ st)) =
    close_in_lines next (linenum + 1) rest num_lines
      (find_end_of_expression_in_line next 0 (t ∷ st))

-- `line[pos] in '({[<'` and not `Match(r'<[<=]', line[pos:])`
unfoldable pub opens : Text → Bool
unfolding is_open
opens [] = false
opens (c ∷ []) = is_open c || c == b'<'
opens (c ∷ d ∷ s) = is_open c || (c == b'<' && not (d == b'<' || d == b'='))

-- `CloseExpression` over the elided lines. `none` is an index that is out of range.
unfoldable pub close_expression : List Text → ℕ → ℕ → Option Expression
close_expression elided linenum pos = do
  line ← get_elem? elided linenum
  _ ← get_elem? line pos
  some (
      if opens (drop pos line)
      then close_in_lines line linenum (drop (linenum + 1) elided) (length elided)
          (find_end_of_expression_in_line line pos [])
      else record { line = line; linenum = length elided; pos = none })
