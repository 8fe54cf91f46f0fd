-- ===== src/Lint/FileChecks.antt =====
-- The checks of cpplint that look at a file as a whole, and the reading of blank lines and of
-- indentation. A check gives the calls of its error handler in their order.
pub mod Newline
pub mod Blank
pub mod BadCharacters
use simpledb.Prelude.{
  ℕ, zero, suc, ◌+◌, ◌-◌, ◌%◌, Bool, true, false, not, ◌&&◌, ◌||◌, List, [], ◌∷◌, ◌++◌, Option,
  none, some, ltb, leb, ◌==◌, if◌then◌else◌, length, get_elem?, take, drop,
}
use simpledb.Prelude.Bytes.{◌>>=◌}
use simpledb.Prelude.Int.{ℤ, pos, ◌-ℤ◌}
use simpledb.Prelude.Text.{Text, codes, starts_with, find, is_space, lower, replace}

-- One call of the error handler, but for the name of the file.
pub record Call : Type 0 where
  pub linenum : ℤ
  pub category : Text
  pub confidence : ℕ
  pub message : Text

-- `c in line`
unfoldable pub has_char : ℕ → Text → Bool
has_char c [] = false
has_char c (d ∷ line) = c == d || has_char c line

found : Option ℕ → Bool
found none = false
found (some _) = true

-- `re.search(r'Copyright', line, re.I)` on some of the lines.
unfoldable pub some_copyright : List Text → Bool
unfolding found find lower
some_copyright [] = false
some_copyright (line ∷ lines) =
    found (find (codes "copyright") (lower line)) || some_copyright lines

unfoldable pub check_for_copyright : List Text → List Call
check_for_copyright lines =
    if some_copyright (drop 1 (take 11 lines))
    then []
    else record {
      linenum = pos 0;
      category = codes "legal/copyright";
      confidence = 5;
      message =
          codes
            "No copyright message found.  You should have a line: \"Copyright [year] <Copyright Owner>\"";
    }
      ∷ []

-- The pattern `^( *)\S`, behind `n` spaces.
unfoldable pub indent_from : ℕ → Text → ℕ
unfolding is_space
indent_from n [] = 0
indent_from n (c ∷ line) =
    let deeper = indent_from (n + 1) line in
    if c == 32 then deeper else (if is_space c then 0 else n)

unfoldable pub get_indent_level : Text → ℕ
get_indent_level line = indent_from 0 line

bad_utf8 : ℕ → Call
bad_utf8 linenum = record {
  linenum = pos linenum;
  category = codes "readability/utf8";
  confidence = 5;
  message = codes "Line contains invalid UTF-8 (or Unicode replacement character).";
}

bad_nul : ℕ → Call
bad_nul linenum = record {
  linenum = pos linenum;
  category = codes "readability/nul";
  confidence = 5;
  message = codes "Line contains NUL byte.";
}

-- One round of the loop of `CheckForBadCharacters`.
unfoldable pub bad_characters : ℕ → Text → List Call
unfolding has_char bad_utf8 bad_nul
bad_characters linenum line =
    (if has_char 65533 line then bad_utf8 linenum ∷ [] else [])
    ++ (if has_char 0 line then bad_nul linenum ∷ [] else [])

unfoldable pub bad_characters_from : ℕ → List Text → List Call
bad_characters_from linenum [] = []
bad_characters_from linenum (line ∷ lines) =
    bad_characters linenum line ++ bad_characters_from (linenum + 1) lines

unfoldable pub check_for_bad_characters : List Text → List Call
check_for_bad_characters lines = bad_characters_from 0 lines

-- `lines[-2]`, on two lines at least.
unfoldable pub last_but_one : List Text → Text
last_but_one [] = []
last_but_one (a ∷ []) = []
last_but_one (a ∷ b ∷ []) = a
last_but_one (a ∷ b ∷ c ∷ lines) = last_but_one (b ∷ c ∷ lines)

non_empty : Text → Bool
non_empty [] = false
non_empty (_ ∷ _) = true

no_newline : List Text → Call
no_newline lines = record {
  linenum = pos (length lines) -ℤ pos 2;
  category = codes "whitespace/ending_newline";
  confidence = 5;
  message = codes "Could not find a newline character at the end of the file.";
}

unfoldable pub check_for_newline_at_eof : List Text → List Call
unfolding last_but_one non_empty no_newline ◌-ℤ◌
check_for_newline_at_eof lines =
    if ltb (length lines) 3 || non_empty (last_but_one lines) then no_newline lines ∷ [] else []

-- `s.count(sub)`: `skip` characters of an occurrence are still to be passed over.
unfoldable pub count_from : Text → ℕ → Text → ℕ
unfolding starts_with
count_from sub skip [] = 0
count_from sub (suc skip) (c ∷ s) = count_from sub skip s
count_from sub zero (c ∷ s) =
    let behind = count_from sub (length sub - 1) s in
    let later = count_from sub zero s in if starts_with sub (c ∷ s) then behind + 1 else later

unfoldable pub count : Text → Text → ℕ
count sub s = count_from sub 0 s

multi_line_comment : ℕ → Call
multi_line_comment linenum = record {
  linenum = pos linenum;
  category = codes "readability/multiline_comment";
  confidence = 5;
  message =
      codes
        "Complex multi-line /*...*/-style comment found. Lint may give bogus warnings.  Consider replacing these with //-style comments, with #if 0...#endif, or with more clearly structured multi-line comments.";
}

multi_line_string : ℕ → Call
multi_line_string linenum = record {
  linenum = pos linenum;
  category = codes "readability/multiline_string";
  confidence = 5;
  message =
      codes
        "Multi-line string (\"...\") found.  This lint script doesn't do well with such strings, and may give bogus warnings.  Use C++11 raw strings or concatenation instead.";
}

-- `CheckForMultilineCommentsAndStrings` on an elided line. An escaped quote is counted among the
-- quotes too, so that the difference of the counts is never below zero.
unfoldable pub check_for_multi_line : ℕ → Text → List Call
unfolding replace count multi_line_comment multi_line_string
check_for_multi_line linenum elided_line =
    let line = replace (codes "\\\\") [] elided_line in
    (if ltb (count (codes "*/") line) (count (codes "/*") line)
      then multi_line_comment linenum ∷ []
      else [])
    ++ (if (count (codes "\"") line - count (codes "\\\"") line) % 2 == 1
        then multi_line_string linenum ∷ []
        else [])

unfoldable pub is_blank_line : Text → Bool
unfolding is_space
is_blank_line [] = true
is_blank_line (c ∷ line) = is_space c && is_blank_line line

-- The loop of `GetPreviousNonBlankLine` downwards from `linenum`: `some none` is `('', -1)`, and
-- `none` an index that is out of range.
unfoldable pub get_previous_non_blank_line : List Text → ℕ → Option (Option (Text × ℕ))
get_previous_non_blank_line elided zero = some none
get_previous_non_blank_line elided (suc linenum) = do
  prevline ← get_elem? elided linenum
  let above = get_previous_non_blank_line elided linenum
  if not (is_blank_line prevline) then some (some (prevline, linenum)) else above
