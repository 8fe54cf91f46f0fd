-- ===== src/Lint/Report.antt =====
-- `_ShouldPrintError` and `Error`.
pub mod Filters
pub mod Counts
use simpledb.Prelude.{
  ℕ, zero, suc, ◌+◌, Bool, true, false, not, ◌&&◌, ◌||◌, List, [], ◌∷◌, ◌++◌, Option, none, some,
  ltb, ◌==◌, if◌then◌else◌, drop, length,
}
use simpledb.Prelude.Bytes.{◌>>=◌}
use simpledb.Prelude.Text.{Text, codes, text_eq, text_mem, starts_with}
use simpledb.Lint.State.{Message, CppLintState, increment_error_count, add_junit_failure}
use simpledb.Lint.Suppressions.{Suppressions, is_error_suppressed_by_nolint, parse_nolint}

-- One round of the loop over the filters. `none` is the failed assertion.
unfoldable pub filter_step : Text → Bool → Text → Option Bool
unfolding starts_with
filter_step category is_filtered [] = none
filter_step category is_filtered (sign ∷ name) =
    if sign == b'-'
    then some (if starts_with name category then true else is_filtered)
    else (if sign == b'+'
        then some (if starts_with name category then false else is_filtered)
        else none)

unfoldable pub filter_loop : Text → Bool → List Text → Option Bool
filter_loop category is_filtered [] = some is_filtered
filter_loop category is_filtered (one_filter ∷ rest) = do
  next ← filter_step category is_filtered one_filter
  filter_loop category next rest

-- `_ShouldPrintError`
unfoldable pub should_print_error : Text → ℕ → ℕ → Suppressions → CppLintState → Option Bool
should_print_error category confidence linenum sup st =
    if is_error_suppressed_by_nolint category linenum sup
    then some false
    else (if ltb confidence st.verbose_level
        then some false
        else (do is_filtered ← filter_loop category false st.filters; some (not is_filtered)))

-- The part of `Error` that writes the message.
unfoldable pub emit : Message → CppLintState → CppLintState
unfolding add_junit_failure
emit m st =
    if text_eq st.output_format (codes "junit")
    then add_junit_failure m st
    else record st { written = st.written ++ (st.output_format, m) ∷ [] }

-- `Error`
unfoldable pub error : Message → Suppressions → CppLintState → Option CppLintState
error m sup st = do
  printed ← should_print_error m.category m.confidence m.linenum sup st
  some (if printed then emit m (increment_error_count m.category st) else st)

nolint_message : Text → ℕ → Text → Message
nolint_message filename linenum category = record {
  filename = filename;
  linenum = linenum;
  category = codes "readability/nolint";
  confidence = 5;
  message = codes "Unknown NOLINT error category: " ++ category;
}

report_unknown : Text → ℕ → Suppressions → Option Text → CppLintState → Option CppLintState
report_unknown filename linenum sup none st = some st
report_unknown filename linenum sup (some category) st =
    error (nolint_message filename linenum category) sup st

-- `ParseNolintSuppressions` with `Error` as its handler.
unfoldable pub parse_nolint_suppressions :
    Text → Text → ℕ → Suppressions → CppLintState → Option (Suppressions × CppLintState)
unfolding report_unknown nolint_message
parse_nolint_suppressions filename raw_line linenum sup st = do
  let (sup', unknown) = parse_nolint raw_line linenum sup
  st' ← report_unknown filename linenum sup' unknown st
  some (sup', st')
