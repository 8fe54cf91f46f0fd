-- ===== src/Lint/Classes.antt =====
-- `_ClassInfo`: the constructor, which looks for the end of the class, and the checks at the begin
-- and at the end of the block. In the pattern of `CheckEnd` the name of the class stands for itself.
pub mod LastLine
use simpledb.Prelude.{
  ℕ, suc, ◌+◌, ◌-◌, Bool, true, false, not, ◌&&◌, ◌||◌, List, [], ◌∷◌, ◌++◌, Option, none, some,
  ◌==◌, if◌then◌else◌, get_elem?, take, drop,
}
use simpledb.Prelude.Bytes.{◌>>=◌}
use simpledb.Prelude.Int.{ℤ, pos, ◌+ℤ◌, ◌-ℤ◌, int_eq}
use simpledb.Prelude.Text.{Text, codes, text_eq, starts_with, is_word}
use simpledb.Lint.FileChecks.{Call, get_indent_level, is_blank_line}
use simpledb.Lint.Namespaces.{class_info}
use simpledb.Lint.Nesting.{OpenBlock, open_block}
use mathlib.Core.List.{reverse}

-- `line.count(c)`
unfoldable pub count : ℕ → Text → ℕ
count c [] = 0
count c (d ∷ line) = (if c == d then 1 else 0) + count c line

-- The loop of the constructor over the lines from `i` on.
unfoldable pub last_line_from : ℕ → ℤ → List Text → ℕ
unfolding count ◌+ℤ◌ ◌-ℤ◌ int_eq
last_line_from i depth [] = 0
last_line_from i depth (line ∷ rest) =
    let depth' = depth +ℤ (pos (count b'{' line) -ℤ pos (count b'}' line)) in
    let later = last_line_from (suc i) depth' rest in if int_eq depth' (pos 0) then i else later

pub record ClassInfo : Type 0 where
  pub block : OpenBlock
  pub is_derived : Bool
  pub access : Text
  pub is_struct : Bool
  pub class_indent : ℕ
  pub last_line : ℕ

-- `_ClassInfo.__init__`; `none` is an index that is out of range.
unfoldable pub init : Text → Text → List Text → List Text → ℕ → Option ClassInfo
unfolding last_line_from open_block text_eq get_indent_level
init name class_or_struct raw_lines elided linenum = do
  raw ← get_elem? raw_lines linenum
  let is_struct = text_eq class_or_struct (codes "struct")
  some (record {
    block = open_block class_info name linenum false;
    is_derived = false;
    access = if is_struct then codes "public" else codes "private";
    is_struct = is_struct;
    class_indent = get_indent_level raw;
    last_line = last_line_from linenum (pos 0) (drop linenum elided);
  })

-- The pattern `($|[^:])`.
no_colon : Text → Bool
no_colon [] = true
no_colon (c ∷ line) = not (c == b':')

-- The pattern `(^|[^:]):($|[^:])`, behind a colon or not.
unfoldable pub has_bare_colon : Bool → Text → Bool
unfolding no_colon
has_bare_colon behind_colon [] = false
has_bare_colon behind_colon (c ∷ line) =
    (c == b':' && not behind_colon && no_colon line) || has_bare_colon (c == b':') line

unfoldable pub check_begin : List Text → ℕ → ClassInfo → Option ClassInfo
unfolding has_bare_colon
check_begin elided linenum info = do
  line ← get_elem? elided linenum
  some (if has_bare_colon false line then record info { is_derived = true } else info)

disallow_copy : Text
disallow_copy = codes "DISALLOW_COPY_AND_ASSIGN"

disallow_implicit : Text
disallow_implicit = codes "DISALLOW_IMPLICIT_CONSTRUCTORS"

-- The macro with the name of the class, at the start of the text.
macro_here : Text → Text → Option Text
macro_here name text =
    if starts_with (disallow_copy ++ b'(' ∷ name ++ b')' ∷ []) text
    then some disallow_copy
    else if starts_with (disallow_implicit ++ b'(' ∷ name ++ b')' ∷ []) text
    then some disallow_implicit
    else none

-- The search of `CheckEnd`, behind a word character or not.
unfoldable pub find_macro : Text → Bool → Text → Option Text
unfolding macro_here disallow_copy disallow_implicit is_word starts_with
find_macro name in_word [] = none
find_macro name in_word (c ∷ line) = elim (if in_word then none else macro_here name (c ∷ line)) [
  | some m ↦ some m
  | none ↦ find_macro name (is_word c) line
]

-- The loop of `CheckEnd` over the lines of the class, the last one first; `i` is its number.
unfoldable pub check_macros : Text → ℕ → Bool → List Text → List Call
unfolding find_macro is_blank_line
check_macros name i seen [] = []
check_macros name i seen (line ∷ rest) = elim (find_macro name false line) [
  | some m ↦
      if seen
      then record {
        linenum = pos i;
        category = codes "readability/constructors";
        confidence = 3;
        message = m ++ codes " should be the last thing in the class";
      }
        ∷ []
      else []
  | none ↦ check_macros name (i - 1) (seen || not (is_blank_line line)) rest
]

-- The pattern `^( *)\}`, behind `n` spaces.
unfoldable pub closing_indent : ℕ → Text → Option ℕ
closing_indent n [] = none
closing_indent n (c ∷ line) =
    let deeper = closing_indent (n + 1) line in
    if c == 32 then deeper else if c == b'}' then some n else none

check_closing : ClassInfo → ℕ → Option ℕ → List Call
check_closing info linenum none = []
check_closing info linenum (some n) =
    if n == info.class_indent
    then []
    else record {
      linenum = pos linenum;
      category = codes "whitespace/indent";
      confidence = 3;
      message =
          codes "Closing brace should be aligned with beginning of "
          ++ (if info.is_struct then codes "struct " else codes "class ")
          ++ info.block.name;
    }
      ∷ []

-- `_ClassInfo.CheckEnd`
unfoldable pub check_end : List Text → ℕ → ClassInfo → Option (List Call)
unfolding check_macros closing_indent check_closing
check_end elided linenum info = do
  line ← get_elem? elided linenum
  let first = suc info.block.starting_linenum
  let body = reverse (take (linenum - first) (drop first elided))
  some (
      check_macros info.block.name (linenum - 1) false body
      ++ check_closing info linenum (closing_indent 0 line))
