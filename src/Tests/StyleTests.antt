-- ===== src/Tests/StyleTests.antt =====
-- The style checker's checks of whole files on small inputs.
use simpledb.Prelude.{
  ◌*◌, ◌^◌, ◌≤◌, ◌<◌, ◌≡◌, refl, true, false, List, [], ◌∷◌, none, some, arith, drop, length,
  if◌then◌else◌, ◌==◌,
}
use simpledb.Prelude.Text.{Text, codes, text_eq}
use simpledb.Lint.Brackets.Balanced.{empty, plain}
use simpledb.Lint.Brackets.{closed, is_open, is_close, fits}
use simpledb.Lint.BracketsBack.Balanced.{find_start-Balanced}
use simpledb.Lint.BracketsBack.{find_start_of_expression_in_line}
use simpledb.Lint.Classify.{classify_include, drop_common_suffixes}
use simpledb.Lint.Comments.Passes.{one_pass, remove_multi_line_comments_lem}
use simpledb.Lint.Comments.{remove_multi_line_comments}
use simpledb.Lint.Extensions.{Extensions}
use simpledb.Lint.FileChecks.{
  check_for_bad_characters, check_for_newline_at_eof, get_previous_non_blank_line, has_char,
}
use simpledb.Lint.Classify
use simpledb.Lint.Comments
use simpledb.Lint.Functions
use simpledb.Lint.Functions.Lengths.{count_lines, check-count_lines}
use simpledb.Lint.Functions.{LongFunction, base_trigger}
use simpledb.Lint.FileChecks
use simpledb.Lint.Tokens.{find_tokens, is_cpp_string}
use simpledb.Lint.Functions.Lines
use simpledb.Prelude.Bytes.{◌>>=◌}

program : Unit {0}
unfolding Comments.starts_comment Comments.ends_comment is_open is_close fits
    Classify.drop_common_suffixes
program = tt

abbrev commented : List Text
commented = codes "int a;" ∷ codes "/* one" ∷ codes "two */" ∷ codes "int b;" ∷ []

remove_multi_line_comments_lem_example :
    remove_multi_line_comments commented ≡ some (one_pass false commented, none)
unfolding program
remove_multi_line_comments_lem_example = remove_multi_line_comments_lem commented refl

-- "f(a)" with its closing bracket at 3, in front of ";".
find_start-Balanced_example : find_start_of_expression_in_line (codes "f(a);") 3 [] ≡ closed 1
unfolding program
find_start-Balanced_example =
    find_start-Balanced (codes "f") b'(' b')' (codes ";") refl (plain b'a' refl empty)

check-count_lines_example :
    (501 ≤ base_trigger (codes "Scan") * 2 ^ 1
      → Functions.check 1 7 (count_lines 501 (Functions.begin (codes "Scan") Functions.init))
        ≡ none)
    × (base_trigger (codes "Scan") * 2 ^ 1 < 501
        → (r : LongFunction) × (Functions.check 1 7
              (count_lines 501 (Functions.begin (codes "Scan") Functions.init))
            ≡ some r)
          × (r.function ≡ codes "Scan")
          × (r.lines ≡ 501)
          × (1 ≤ r.error_level)
          × (r.error_level ≤ 5))
check-count_lines_example = check-count_lines 1 7 501 (codes "Scan") Functions.init (omega arith)

abbrev no_options : Extensions
no_options = record { hpp_headers = []; valid_extensions = [] }

-- A path with no directory, and the text in front of the first dot.
abbrev in_no_directory : Text → Text × Text
in_no_directory path = ([], path)

abbrev stem : Text → Text
stem [] = []
stem (c ∷ s) = let rest = stem s in if c == b'.' then [] else c ∷ rest

abbrev at_dot : Text → Text × Text
at_dot path = (stem path, drop (length (stem path)) path)

abbrev as_it_is : Text → Text
as_it_is path = path

-- The guard is defined under another name.
abbrev misspelt : List Text
misspelt = codes "#ifndef A_H_" ∷ codes "#define B_H_" ∷ codes "#endif  // A_H_" ∷ []

-- The operators in a condition.
two_tokens :
    find_tokens 0 (codes "if (not a and b)")
    ≡ (codes "not", codes "!") ∷ (codes "and", codes "&&") ∷ []
unfolding find_tokens
two_tokens = refl

-- A string is open, and a quote in it does not close it.
open_string : is_cpp_string (codes "f(\"a\\\"b") ≡ true
unfolding is_cpp_string FileChecks.count_from
open_string = refl

-- A comment without an end is reported for the line where it starts.
open_comment :
    remove_multi_line_comments (codes "int a;" ∷ codes "/* one" ∷ [])
    ≡ some (codes "int a;" ∷ codes "/* one" ∷ [], some 2)
unfolding program remove_multi_line_comments Comments.remove_loop Comments.lines_before
open_comment = refl

abbrev three_lines : List Text
three_lines = codes "int Scan::Next() {" ∷ codes "  return 0;" ∷ codes "}" ∷ []

-- Three lines of a function are counted, and its name is kept.
counted_lines :
    (Lines.check_for_function_lengths 1 three_lines 0 Functions.init >>= λ a.
    Lines.check_for_function_lengths 1 three_lines 1 a.0 >>= λ b.
    Lines.check_for_function_lengths 1 three_lines 2 b.0)
    ≡ some (
      record {
        in_a_function = false;
        lines_in_function = 1;
        current_function = codes "Scan::Next()";
      },
      [],
    )
unfolding program Lines.check_for_function_lengths Lines.starts_function Lines.match_declaration
    Lines.declarator Lines.find_body Lines.tracked_name Lines.name_before_bracket
    Lines.ends_function Functions.init Functions.begin Functions.check Functions.end
    Functions.count_line Functions.base_trigger FileChecks.has_char FileChecks.is_blank_line text_eq
counted_lines = refl
