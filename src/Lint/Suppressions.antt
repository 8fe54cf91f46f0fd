-- ===== src/Lint/Suppressions.antt =====
-- The NOLINT comments and the directives for a whole file. The two tables of the source,
-- `_error_suppressions` and `_global_error_suppressions`, are sets of entries here; the regular
-- expressions are written out as functions.
pub mod Groups
pub mod Exact
use simpledb.Prelude.{
  ℕ, zero, suc, ◌+◌, Bool, true, false, not, ◌&&◌, ◌||◌, List, [], ◌∷◌, ◌++◌, Option, none, some,
  ◌==◌, if◌then◌else◌, drop, length,
}
use simpledb.Prelude.Text.{Text, codes, text_eq, text_mem, starts_with, find, is_word}
use simpledb.Lint.Categories.{
  error_categories, legacy_error_categories, default_c_suppressed_categories,
  default_kernel_suppressed_categories,
}

-- `none` suppresses every category on the line.
pub record Suppression : Type 0 where
  pub category : Option Text
  pub line : ℕ

pub record Suppressions : Type 0 where
  pub lines : List Suppression
  pub global : List Text

-- `ResetNolintSuppressions`
abbrev pub reset_nolint_suppressions : Suppressions
reset_nolint_suppressions = record { lines = []; global = [] }

-- `\b` in front of a character that is not of a word, or at the end.
unfoldable pub at_word_end : Text → Bool
unfolding is_word
at_word_end [] = true
at_word_end (c ∷ _) = not (is_word c)

-- The text up to and with the first `)`, for `[^)]+\)`; the flag is whether a character stands
-- before it.
unfoldable pub up_to_close : Bool → Text → Option Text
up_to_close some_char [] = none
up_to_close some_char (c ∷ s) =
    let rest = up_to_close true s in
    if c == b')'
    then (if some_char then some (c ∷ []) else none)
    else elim rest [ none ↦ none | some t ↦ some (c ∷ t) ]

-- `(\([^)]+\))?`
unfoldable pub category_group : Text → Option Text
unfolding up_to_close
category_group [] = none
category_group (c ∷ s) =
    if c == b'(' then elim (up_to_close false s) [ none ↦ none | some t ↦ some (c ∷ t) ] else none

-- What the pattern `\bNOLINT(NEXTLINE)?\b(\([^)]+\))?` has found.
pub record NolintMatch : Type 0 where
  pub next_line : Bool
  pub category : Option Text

-- The pattern behind "NOLINT".
unfoldable pub nolint_tail : Text → Option NolintMatch
unfolding at_word_end category_group starts_with
nolint_tail s =
    let after = drop 8 s in
    if starts_with (codes "NEXTLINE") s && at_word_end after
    then some (record { next_line = true; category = category_group after })
    else (if at_word_end s
        then some (record { next_line = false; category = category_group s })
        else none)

-- The pattern at this place; the flag is whether a word stands right before it.
unfoldable pub nolint_here : Bool → Text → Option NolintMatch
unfolding nolint_tail
nolint_here in_word s =
    if not in_word && starts_with (codes "NOLINT") s then nolint_tail (drop 6 s) else none

-- `Search` for the pattern: the first place where it fits.
unfoldable pub nolint_search : Bool → Text → Option NolintMatch
unfolding nolint_here is_word
nolint_search in_word [] = nolint_here in_word []
nolint_search in_word (c ∷ s) =
    let later = nolint_search (is_word c) s in
    elim (nolint_here in_word (c ∷ s)) [ some m ↦ some m | none ↦ later ]

unfoldable pub drop_last : Text → Text
drop_last [] = []
drop_last (c ∷ []) = []
drop_last (c ∷ d ∷ t) = c ∷ drop_last (d ∷ t)

-- `category[1:-1]`
unfoldable pub inside_group : Text → Text
unfolding drop_last
inside_group [] = []
inside_group (_ ∷ s) = drop_last s

-- `_error_suppressions.setdefault(category, set()).add(line)`
abbrev pub add_suppression : Option Text → ℕ → Suppressions → Suppressions
add_suppression category line sup = record sup {
  lines = record { category = category; line = line } ∷ sup.lines;
}

-- A group other than `(*)`, with the category that is to be reported as unknown.
unfoldable pub suppress_category : Text → ℕ → Suppressions → Suppressions × Option Text
unfolding text_mem
suppress_category category line sup =
    if text_mem category error_categories
    then (add_suppression (some category) line sup, none)
    else (if not (text_mem category legacy_error_categories)
        then (sup, some category)
        else (sup, none))

suppress_group : Option Text → ℕ → Suppressions → Suppressions × Option Text
suppress_group none line sup = (add_suppression none line sup, none)
suppress_group (some group) line sup =
    if text_eq group (codes "(*)")
    then (add_suppression none line sup, none)
    else suppress_category (inside_group group) line sup

-- The line that a comment on line `linenum` is about.
abbrev pub suppressed_line : NolintMatch → ℕ → ℕ
suppressed_line m linenum = if m.next_line then linenum + 1 else linenum

suppress_match : Option NolintMatch → ℕ → Suppressions → Suppressions × Option Text
suppress_match none linenum sup = (sup, none)
suppress_match (some m) linenum sup = suppress_group m.category (suppressed_line m linenum) sup

-- `ParseNolintSuppressions`, with the category that it reports as unknown.
unfoldable pub parse_nolint : Text → ℕ → Suppressions → Suppressions × Option Text
unfolding suppress_match suppress_group
parse_nolint raw_line linenum sup = suppress_match (nolint_search false raw_line) linenum sup

-- A place with no word right before it where the rest starts with one of two texts.
unfoldable pub directive_search : (Text → Bool) → Bool → Text → Bool
unfolding is_word
directive_search fits in_word [] = not in_word && fits []
directive_search fits in_word (c ∷ s) =
    (not in_word && fits (c ∷ s)) || directive_search fits (is_word c) s

is_found : Option ℕ → Bool
is_found none = false
is_found (some _) = true

-- `LINT_C_FILE|vim?:\s*.*(\s*|:)filetype=c(\s*|:|$)`
unfoldable pub c_file_here : Text → Bool
unfolding starts_with find is_found
c_file_here s =
    starts_with (codes "LINT_C_FILE") s
    || (starts_with (codes "vi:") s && is_found (find (codes "filetype=c") (drop 3 s)))
    || (starts_with (codes "vim:") s && is_found (find (codes "filetype=c") (drop 4 s)))

unfoldable pub kernel_file_here : Text → Bool
unfolding starts_with
kernel_file_here s = starts_with (codes "LINT_KERNEL_FILE") s

-- `ProcessGlobalSuppresions`
unfoldable pub process_global_suppressions : List Text → Suppressions → Suppressions
unfolding directive_search c_file_here kernel_file_here
process_global_suppressions [] sup = sup
process_global_suppressions (line ∷ lines) sup =
    let c_file = directive_search c_file_here false line in
    let kernel_file = directive_search kernel_file_here false line in
    let first = if c_file then default_c_suppressed_categories ++ sup.global else sup.global in
    let second = if kernel_file then default_kernel_suppressed_categories ++ first else first in
    process_global_suppressions lines (record sup { global = second })

unfoldable pub matches : Option Text → Option Text → Bool
unfolding text_eq
matches none none = true
matches (some a) (some b) = text_eq a b
matches _ _ = false

-- `line in _error_suppressions.get(category, set())`
unfoldable pub line_suppressed : Option Text → ℕ → List Suppression → Bool
unfolding matches
line_suppressed category line [] = false
line_suppressed category line (e ∷ es) =
    (matches e.category category && e.line == line) || line_suppressed category line es

-- `IsErrorSuppressedByNolint`
unfoldable pub is_error_suppressed_by_nolint : Text → ℕ → Suppressions → Bool
is_error_suppressed_by_nolint category linenum sup =
    text_mem category sup.global
    || line_suppressed (some category) linenum sup.lines
    || line_suppressed none linenum sup.lines
