-- ===== src/Lint/Cleanse.antt =====
-- The patterns that cleanse a line, and `CleanseComments`. A line is free of line breaks. A pattern
-- is the length of its match at the front of a text, 0 for none: no pattern here matches nothing.
use simpledb.Prelude.{
  ℕ, zero, suc, ◌+◌, ◌==◌, leb, Bool, false, not, ◌&&◌, ◌||◌, [], ◌∷◌, none, some, if◌then◌else◌,
  length, take, drop,
}
use simpledb.Prelude.Text.{Text, codes, find, is_space, is_word, rstrip, starts_with}
use simpledb.Lint.Tokens.{is_cpp_string}

-- `pattern.sub('', s)`: `skip` characters of a match are still to be passed over.
unfoldable pub remove_from : (Text → ℕ) → ℕ → Text → Text
remove_from match_length skip [] = []
remove_from match_length (suc skip) (c ∷ s) = remove_from match_length skip s
remove_from match_length zero (c ∷ s) = elim (match_length (c ∷ s)) [
  | zero ↦ c ∷ remove_from match_length zero s
  | suc more ↦ remove_from match_length more s
]

abbrev pub is_digit : ℕ → Bool
is_digit c = leb b'0' c && leb c b'9'

abbrev pub is_hex_digit : ℕ → Bool
is_hex_digit c = is_digit c || (leb b'a' c && leb c b'f') || (leb b'A' c && leb c b'F')

-- How many characters at the front pass the test.
abbrev pub span : (ℕ → Bool) → Text → ℕ
span test [] = 0
span test (c ∷ s) = if test c then suc (span test s) else 0

abbrev is_one_escape : ℕ → Bool
is_one_escape c =
    c == b'a'
    || c == b'b'
    || c == b'f'
    || c == b'n'
    || c == b'r'
    || c == b't'
    || c == b'v'
    || c == b'?'
    || c == b'"'
    || c == 92
    || c == 39

-- The part of `_RE_PATTERN_CLEANSE_LINE_ESCAPES` behind the backslash.
unfoldable escape_body : Text → ℕ
escape_body [] = 0
escape_body (c ∷ s) =
    if is_one_escape c
    then 1
    else if is_digit c
    then suc (span is_digit s)
    else if c == b'x'
    then (elim (span is_hex_digit s) [ zero ↦ 0 | suc n ↦ suc (suc n) ])
    else 0

-- `_RE_PATTERN_CLEANSE_LINE_ESCAPES`
unfoldable pub escape_length : Text → ℕ
unfolding escape_body
escape_length [] = 0
escape_length (c ∷ s) =
    if c == 92 then (elim (escape_body s) [ zero ↦ 0 | suc n ↦ suc (suc n) ]) else 0

-- `_RE_PATTERN_C_COMMENTS`: from `/*` up to the first `*/` behind it.
unfoldable pub comment_length : Text → ℕ
unfolding starts_with find
comment_length s =
    if starts_with (codes "/*") s
    then (elim (find (codes "*/") (drop 2 s)) [ none ↦ 0 | some n ↦ n + 4 ])
    else 0

abbrev front_is : (ℕ → Bool) → Text → Bool
front_is test [] = false
front_is test (c ∷ s) = test c

-- What the four alternatives of `_RE_PATTERN_CLEANSE_LINE_C_COMMENTS` match, when `spaces` spaces
-- and a comment of `size` characters stand in front of `rest`.
unfoldable comment_alternatives : ℕ → ℕ → Text → ℕ
unfolding is_space is_word
comment_alternatives spaces size rest =
    let behind = span is_space rest in
    if behind == length rest then spaces + size + behind else elim spaces [
      | zero ↦ size + behind
      | suc n ↦ if front_is (λ c. not (is_word c)) rest then suc n + size else 0
    ]

-- `_RE_PATTERN_CLEANSE_LINE_C_COMMENTS`
unfoldable pub spaced_comment_length : Text → ℕ
unfolding is_space comment_length comment_alternatives
spaced_comment_length s =
    let spaces = span is_space s in
    elim (comment_length (drop spaces s)) [
      | zero ↦ 0
      | suc n ↦ comment_alternatives spaces (suc n) (drop (spaces + suc n) s)
    ]

-- The line up to a `//` that is no part of a string.
unfoldable pub without_line_comment : Text → Text
unfolding find is_cpp_string rstrip
without_line_comment line = elim (find (codes "//") line) [
  | none ↦ line
  | some commentpos ↦
      if not (is_cpp_string (take commentpos line)) then rstrip (take commentpos line) else line
]

unfoldable pub cleanse_comments : Text → Text
unfolding remove_from spaced_comment_length without_line_comment
cleanse_comments line = remove_from spaced_comment_length 0 (without_line_comment line)
