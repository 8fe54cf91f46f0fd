-- ===== src/Lint/State.antt =====
-- `_CppLintState` and the functions around the one instance of it. What is printed is kept as a
-- list; the layout of the messages as XML is not modelled.
use simpledb.Prelude.{
  ℕ, ◌+◌, Bool, true, false, ◌&&◌, ◌||◌, List, [], ◌∷◌, ◌++◌, ◌==◌, if◌then◌else◌,
}
use simpledb.Prelude.Text.{Text, codes, text_eq, text_mem, starts_with, strip, split}
use simpledb.Lint.Categories.{default_filters}

-- What one call of `Error` writes.
pub record Message : Type 0 where
  pub filename : Text
  pub linenum : ℕ
  pub category : Text
  pub confidence : ℕ
  pub message : Text

pub record CppLintState : Type 0 where
  pub verbose_level : ℕ
  pub error_count : ℕ
  pub filters : List Text
  pub filters_backup : List Text
  pub counting : Text
  pub errors_by_category : List (Text × ℕ)
  pub quiet : Bool
  pub output_format : Text
  pub junit_errors : List Text
  pub junit_failures : List Message
  -- the messages on the standard error output, with the format that lays them out
  pub written : List (Text × Message)

-- `__init__`
unfoldable pub init : CppLintState
init = record {
  verbose_level = 1;
  error_count = 0;
  filters = default_filters;
  filters_backup = default_filters;
  counting = codes "total";
  errors_by_category = [];
  quiet = false;
  output_format = codes "emacs";
  junit_errors = [];
  junit_failures = [];
  written = [];
}

unfoldable pub set_output_format : Text → CppLintState → CppLintState
set_output_format output_format st = record st { output_format = output_format }

unfoldable pub set_quiet : Bool → CppLintState → CppLintState × Bool
set_quiet quiet st = (record st { quiet = quiet }, st.quiet)

unfoldable pub set_verbose_level : ℕ → CppLintState → CppLintState × ℕ
set_verbose_level level st = (record st { verbose_level = level }, st.verbose_level)

unfoldable pub set_counting_style : Text → CppLintState → CppLintState
set_counting_style counting_style st = record st { counting = counting_style }

-- The first loop of `AddFilters`.
unfoldable pub append_filters : List Text → List Text → List Text
unfolding strip
append_filters [] filters = filters
append_filters (filt ∷ rest) filters =
    let clean_filt = strip filt in
    append_filters rest (if text_eq clean_filt [] then filters else filters ++ clean_filt ∷ [])

-- The second loop of `AddFilters`: every filter starts with a sign.
unfoldable pub all_signed : List Text → Bool
unfolding starts_with
all_signed [] = true
all_signed (filt ∷ rest) =
    (starts_with (codes "+") filt || starts_with (codes "-") filt) && all_signed rest

-- `AddFilters`; the flag is false where it raises a ValueError, which it does behind the change.
unfoldable pub add_filters : Text → CppLintState → CppLintState × Bool
unfolding split
add_filters filters st =
    let added = append_filters (split b',' filters) st.filters in
    (record st { filters = added }, all_signed added)

-- `SetFilters`
unfoldable pub set_filters : Text → CppLintState → CppLintState × Bool
set_filters filters st = add_filters filters (record st { filters = default_filters })

unfoldable pub backup_filters : CppLintState → CppLintState
backup_filters st = record st { filters_backup = st.filters }

unfoldable pub restore_filters : CppLintState → CppLintState
restore_filters st = record st { filters = st.filters_backup }

unfoldable pub reset_error_counts : CppLintState → CppLintState
reset_error_counts st = record st { error_count = 0; errors_by_category = [] }

-- `self.errors_by_category[category] += 1`, from 0 for a category that is not there.
unfoldable pub bump : Text → List (Text × ℕ) → List (Text × ℕ)
bump category [] = (category, 1) ∷ []
bump category ((c, n) ∷ m) = if text_eq c category then (c, n + 1) ∷ m else (c, n) ∷ bump category m

-- `category.split('/')[0]`
unfoldable pub top_level : Text → Text
top_level [] = []
top_level (c ∷ s) = let rest = top_level s in if c == b'/' then [] else c ∷ rest

-- The `if` of `IncrementErrorCount`.
unfoldable pub counts_categories : Text → Bool
counts_categories counting = text_mem counting (codes "toplevel" ∷ codes "detailed" ∷ [])

unfoldable pub increment_error_count : Text → CppLintState → CppLintState
increment_error_count category st =
    let counted = if text_eq st.counting (codes "detailed") then category else top_level category in
    record st {
      error_count = st.error_count + 1;
      errors_by_category =
          if counts_categories st.counting
          then bump counted st.errors_by_category
          else st.errors_by_category;
    }

-- `AddJUnitFailure`
unfoldable pub add_junit_failure : Message → CppLintState → CppLintState
add_junit_failure m st = record st { junit_failures = st.junit_failures ++ m ∷ [] }
