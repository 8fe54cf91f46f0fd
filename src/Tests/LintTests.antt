-- ===== src/Tests/LintTests.antt =====
-- The style checker on small inputs.
use simpledb.Prelude.{◌≡◌, refl, true, false, not, ◌&&◌, ◌||◌, [], ◌∷◌, some, leb}
use simpledb.Prelude.Text.{codes, text_eq, text_mem, starts_with}
use simpledb.Lint.Brackets.Balanced.{empty, plain, nest, find_end-Balanced}
use simpledb.Lint.Brackets.{closed, find_end_of_expression_in_line, is_open, is_close, fits}
use simpledb.Lint.Categories.{error_categories, default_filters}
use simpledb.Lint.Includes
use simpledb.Lint.Includes.{HeaderType, other_header}
use simpledb.Lint.Report.Counts.{IsCounted, error-IsCounted}
use simpledb.Lint.Report.Filters.{should_print_error_lem, last_says, value_or}
use simpledb.Lint.Report.{should_print_error, error, filter_step, filter_loop, emit}
use simpledb.Lint.State
use simpledb.Lint.State.{Message, CppLintState, all_signed}
use simpledb.Lint.Suppressions.Exact.{covers, parse_nolint_exact}
use simpledb.Lint.Suppressions.{
  nolint_search, parse_nolint, is_error_suppressed_by_nolint, reset_nolint_suppressions,
  line_suppressed, inside_group,
}

-- "(a[b])"
find_end-Balanced_example : find_end_of_expression_in_line (codes "(a[b])") 0 [] ≡ closed 6
unfolding is_open is_close fits
find_end-Balanced_example =
    find_end-Balanced b'(' b')' [] refl refl
      (plain b'a' refl (nest b'[' b']' refl refl (plain b'b' refl empty) empty))

parse_nolint_exact_example :
    is_error_suppressed_by_nolint
      (codes "build/class")
      7
      (parse_nolint (codes "x; // NOLINT(build/class)") 7 reset_nolint_suppressions).0
    ≡ (is_error_suppressed_by_nolint (codes "build/class") 7 reset_nolint_suppressions
        || covers
            (codes "build/class")
            7
            (nolint_search false (codes "x; // NOLINT(build/class)"))
            7)
parse_nolint_exact_example =
    parse_nolint_exact (codes "x; // NOLINT(build/class)") (codes "build/class") 7 7
      reset_nolint_suppressions

nolint_covers :
    covers (codes "build/class") 7 (nolint_search false (codes "x; // NOLINT(build/class)")) 7
    ≡ true
unfolding nolint_search inside_group text_eq text_mem error_categories
nolint_covers = refl

should_print_error_lem_example :
    should_print_error (codes "build/class") 3 7 reset_nolint_suppressions State.init
    ≡ some (
        not (is_error_suppressed_by_nolint (codes "build/class") 7 reset_nolint_suppressions)
        && (leb State.init.verbose_level 3
            && not (value_or (last_says (codes "build/class") State.init.filters) false)))
unfolding all_signed State.init default_filters
should_print_error_lem_example =
    should_print_error_lem (codes "build/class") 3 7 reset_nolint_suppressions State.init refl

abbrev tab : Message
tab = record {
  filename = codes "a.h";
  linenum = 3;
  category = codes "whitespace/tab";
  confidence = 5;
  message = codes "Tab";
}

-- Counting by the part of a category in front of the slash.
abbrev by_part : CppLintState
by_part = State.set_counting_style (codes "toplevel") State.init

abbrev after_tab : CppLintState
after_tab = record by_part {
  error_count = 1;
  errors_by_category = (codes "whitespace", 1) ∷ [];
  written = (codes "emacs", tab) ∷ [];
}

by_part-IsCounted : IsCounted by_part
unfolding State.init State.set_counting_style
by_part-IsCounted = record { printed = refl; by_category = λ _. refl }

tab_printed : error tab reset_nolint_suppressions by_part ≡ some after_tab
unfolding error should_print_error is_error_suppressed_by_nolint line_suppressed State.init
    filter_loop filter_step starts_with text_eq text_mem default_filters emit
    State.increment_error_count State.set_counting_style State.counts_categories State.bump
    State.top_level
tab_printed = refl

error-IsCounted_example : IsCounted after_tab
error-IsCounted_example =
    error-IsCounted tab reset_nolint_suppressions by_part by_part-IsCounted tab_printed
