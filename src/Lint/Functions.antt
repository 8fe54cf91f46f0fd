-- ===== src/Lint/Functions.antt =====
-- `_FunctionState`: the length of the function that is read.
pub mod Lengths
pub mod Lines
use simpledb.Prelude.{
  ℕ, suc, ◌+◌, ◌*◌, ◌^◌, Bool, true, false, not, ◌||◌, List, Option, none, some, ltb, leb,
  if◌then◌else◌,
}
use simpledb.Prelude.Text.{Text, codes, starts_with}

pub record FunctionState : Type 0 where
  pub in_a_function : Bool
  pub lines_in_function : ℕ
  pub current_function : Text

-- What `Check` hands to the error handler, but for the names of the file and of the category.
pub record LongFunction : Type 0 where
  pub linenum : ℕ
  pub error_level : ℕ
  pub function : Text
  pub lines : ℕ
  pub trigger : ℕ

unfoldable pub init : FunctionState
init = record { in_a_function = false; lines_in_function = 0; current_function = codes "" }

unfoldable pub begin : Text → FunctionState → FunctionState
begin function_name st = record {
  in_a_function = true;
  lines_in_function = 0;
  current_function = function_name;
}

unfoldable pub count_line : FunctionState → FunctionState
count_line st =
    if st.in_a_function then record st { lines_in_function = st.lines_in_function + 1 } else st

abbrev pub normal_trigger : ℕ
normal_trigger = 250

abbrev pub test_trigger : ℕ
test_trigger = 400

unfoldable pub base_trigger : Text → ℕ
unfolding starts_with
base_trigger function =
    if starts_with (codes "TEST") function || starts_with (codes "Test") function
    then test_trigger
    else normal_trigger

-- The logarithm of `lines / base` to the base 2, rounded down, and at most 5.
unfoldable pub level : ℕ → ℕ → ℕ
level lines base =
    if leb (base * 32) lines
    then 5
    else if leb (base * 16) lines
    then 4
    else if leb (base * 8) lines
    then 3
    else if leb (base * 4) lines
    then 2
    else if leb (base * 2) lines
    then 1
    else 0

too_long : FunctionState → ℕ → ℕ → ℕ → Option LongFunction
unfolding level
too_long st linenum base trigger =
    if ltb trigger st.lines_in_function
    then some (record {
      linenum = linenum;
      error_level = level st.lines_in_function base;
      function = st.current_function;
      lines = st.lines_in_function;
      trigger = trigger;
    })
    else none

-- `Check` at a verbosity.
unfoldable pub check : ℕ → ℕ → FunctionState → Option LongFunction
unfolding too_long
check verbose_level linenum st =
    let base = base_trigger st.current_function in
    if not st.in_a_function then none else too_long st linenum base (base * 2 ^ verbose_level)

unfoldable pub end : FunctionState → FunctionState
end st = record st { in_a_function = false }
