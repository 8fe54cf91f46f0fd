-- ===== src/Lint/Report/Filters.antt =====
-- The filters: the last one that fits a category decides.
use simpledb.Prelude.{
  ℕ, ◌≡◌, refl, Bool, true, false, not, ◌&&◌, ◌||◌, List, [], ◌∷◌, Option, none, some, leb, ◌==◌,
  if◌then◌else◌, arith,
}
use simpledb.Prelude.Text.{Text, codes, starts_with}
use simpledb.Lint.State.{CppLintState, all_signed}
use simpledb.Lint.Report.{filter_step, filter_loop, should_print_error}
use simpledb.Lint.Suppressions.{Suppressions, is_error_suppressed_by_nolint}

-- What a filter says of the category, if it fits: whether errors are held back.
abbrev pub says : Text → Text → Option Bool
says category [] = none
says category (sign ∷ name) = if starts_with name category then some (sign == b'-') else none

-- What the last filter that fits says.
abbrev pub last_says : Text → List Text → Option Bool
last_says category [] = none
last_says category (f ∷ fs) = elim (last_says category fs) [
  | some v ↦ some v
  | none ↦ says category f
]

abbrev pub value_or : Option Bool → Bool → Bool
value_or none d = d
value_or (some v) d = v

filter_step_signed :
    (category f : Text) (held : Bool)
    → (starts_with (codes "+") f || starts_with (codes "-") f) ≡ true
    → filter_step category held f ≡ some (value_or (says category f) held)
unfolding filter_step
filter_step_signed category [] held h = cc
filter_step_signed category (sign ∷ name) held h = ground arith

pub filter_loop-last_says :
    (category : Text) (held : Bool) (filters : List Text)
    → all_signed filters ≡ true
    → filter_loop category held filters ≡ some (value_or (last_says category filters) held)
unfolding filter_loop all_signed
filter_loop-last_says category held [] h = refl
filter_loop-last_says category held (f ∷ fs) h = ground (
  arith,
  filter_step_signed category f held,
  filter_loop-last_says category (value_or (says category f) held) fs,
)

-- With signed filters the decision never runs into the assertion: an error is printed exactly
-- when its line does not suppress it, its confidence reaches the verbosity, and the last filter
-- that fits its category, if there is one, does not hold it back.
pub should_print_error_lem :
    (category : Text) (confidence linenum : ℕ) (sup : Suppressions) (st : CppLintState)
    → all_signed st.filters ≡ true
    → should_print_error category confidence linenum sup st
      ≡ some (
          not (is_error_suppressed_by_nolint category linenum sup)
          && (leb st.verbose_level confidence
              && not (value_or (last_says category st.filters) false)))
unfolding should_print_error
should_print_error_lem category confidence linenum sup st h =
    ground (arith, filter_loop-last_says category false st.filters h)
