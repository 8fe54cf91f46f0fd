-- ===== src/Lint/CleansedLines.antt =====
-- `CleansedLines`: four copies of the lines of a file.
pub mod Lengths
use simpledb.Prelude.{ℕ, List, [], ◌∷◌, Option, none, some, length}
use simpledb.Prelude.Bytes.{◌>>=◌}
use simpledb.Prelude.Text.{Text}
use simpledb.Lint.Cleanse.{cleanse_comments}
use simpledb.Lint.RawStrings.{cleanse_raw_strings}
use simpledb.Lint.Strings.{collapse_strings}

pub record CleansedLines : Type 0 where
  pub elided : List Text
  pub lines : List Text
  pub raw_lines : List Text
  pub num_lines : ℕ
  pub lines_without_raw_strings : List Text

-- The loop that fills `lines`.
unfoldable pub without_comments : List Text → List Text
unfolding cleanse_comments
without_comments [] = []
without_comments (line ∷ rest) = cleanse_comments line ∷ without_comments rest

-- The same loop, where it fills `elided`.
unfoldable pub elided_lines : List Text → Option (List Text)
unfolding cleanse_comments collapse_strings
elided_lines [] = some []
elided_lines (line ∷ rest) = do
  elided ← collapse_strings line
  more ← elided_lines rest
  some (cleanse_comments elided ∷ more)

-- `CleansedLines.__init__`
unfoldable pub init : List Text → Option CleansedLines
unfolding cleanse_raw_strings without_comments elided_lines
init raw = do
  without ← cleanse_raw_strings raw
  elided ← elided_lines without
  some (record {
    elided = elided;
    lines = without_comments without;
    raw_lines = raw;
    num_lines = length raw;
    lines_without_raw_strings = without;
  })

-- `NumLines`
abbrev pub number_of_lines : CleansedLines → ℕ
number_of_lines clean_lines = clean_lines.num_lines
