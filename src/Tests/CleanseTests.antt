-- ===== src/Tests/CleanseTests.antt =====
-- Lines with strings, raw strings and comments.
use simpledb.Prelude.{◌≡◌, refl, List, [], ◌∷◌, some}
use simpledb.Prelude.Text.{Text, codes}
use simpledb.Lint.Cleanse
use simpledb.Lint.Cleanse.{cleanse_comments}
use simpledb.Lint.CleansedLines
use simpledb.Lint.CleansedLines.{CleansedLines}
use simpledb.Lint.CleansedLines.Lengths.{AreShorter, IsAligned, init-IsAligned}
use simpledb.Lint.FileChecks
use simpledb.Lint.RawStrings.{cleanse_raw_strings}
use simpledb.Lint.Strings
use simpledb.Lint.Strings.{collapse_strings}
use simpledb.Lint.Strings.Contents.{with_string, collapse_strings-contents}
use simpledb.Lint.Tokens.{is_cpp_string}

program : Unit {0}
unfolding collapse_strings cleanse_comments cleanse_raw_strings Cleanse.remove_from
    Cleanse.escape_length Strings.collapse_loop Strings.is_include Cleanse.spaced_comment_length
    is_cpp_string
program = tt

-- Escapes go first, then the strings; a separator in a number is no quote.
collapse : collapse_strings (codes "f(\"a\\\"b\", 'c', 1'000);") ≡ some (codes "f(\"\", '', 1000);")
unfolding program
collapse = refl

comments : cleanse_comments (codes "a /* b */ + 1 /* c */ // d") ≡ codes "a + 1"
unfolding program FileChecks.count_from
comments = refl

-- Only the first `//` is looked at: behind one in a string, a comment stays.
comment_behind_string : cleanse_comments (codes "a = \"//\"; // d") ≡ codes "a = \"//\"; // d"
unfolding program FileChecks.count_from
comment_behind_string = refl

raw : List Text
raw = codes "s = R\"(one" ∷ codes "two" ∷ codes "  three)\";" ∷ []

-- The raw string over three lines.
raw_strings :
    cleanse_raw_strings raw ≡ some (codes "s = \"\"" ∷ codes "\"\"" ∷ codes "  \"\";" ∷ [])
unfolding program raw
raw_strings = refl

init-IsAligned_example :
    (clean_lines : CleansedLines) × (CleansedLines.init raw ≡ some clean_lines)
    × (clean_lines.raw_lines ≡ raw)
    × IsAligned clean_lines
    × AreShorter clean_lines.elided clean_lines.lines_without_raw_strings
init-IsAligned_example = init-IsAligned raw

collapse_strings-contents_example :
    collapse_strings (with_string (codes "f(") (codes "a//b") (codes ");"))
    ≡ collapse_strings (with_string (codes "f(") [] (codes ");"))
unfolding program
collapse_strings-contents_example =
    collapse_strings-contents (codes "f(") (codes "a//b") [] (codes ");") (refl, (refl, tt))
      (refl, (refl, (refl, (refl, tt)))) tt
      (refl, (refl, (refl, (refl, (refl, (refl, (refl, (refl, (refl, (refl, tt))))))))))
      (refl, (refl, (refl, (refl, (refl, (refl, tt)))))) refl refl
