-- ===== src/Lint/Suppressions/Exact.antt =====
-- What a NOLINT comment suppresses, and that it suppresses nothing else.
use simpledb.Prelude.{
  ℕ, suc, not, ◌≡◌, Bool, true, false, ◌&&◌, ◌||◌, Option, none, some, ◌==◌, arith, Bool-cases, inl,
  inr,
}
use simpledb.Prelude.Text.{Text, codes, text_eq, text_eq_iff, text_mem, text_eq_self}
use simpledb.Lint.Categories.{error_categories}
use simpledb.Lint.Suppressions.Groups.{
  IsGroup, HasGroup, parenthesised, nolint_search-HasGroup, inside_group_lem,
}
use simpledb.Lint.Suppressions.{
  Suppressions, NolintMatch, nolint_search, inside_group, suppressed_line, suppress_category,
  suppress_group, suppress_match, parse_nolint, matches, line_suppressed,
  is_error_suppressed_by_nolint, add_suppression,
}

-- The comment is for all categories, or for this one, which is a known one.
abbrev pub names_category : Text → Option Text → Bool
names_category category none = true
names_category category (some group) =
    text_eq group (codes "(*)")
    || (text_eq group (parenthesised category) && text_mem category error_categories)

-- What the comment that the pattern finds on line `linenum` is about: NOLINT about this line, and
-- NOLINTNEXTLINE about the next one.
abbrev pub covers : Text → ℕ → Option NolintMatch → ℕ → Bool
covers category line none linenum = false
covers category line (some m) linenum =
    names_category category m.category
    && ((not m.next_line && line == linenum) || (m.next_line && line == suc linenum))

add-exact_all :
    (at line : ℕ) (category : Text) (sup : Suppressions)
    → is_error_suppressed_by_nolint category line (add_suppression none at sup)
      ≡ (is_error_suppressed_by_nolint category line sup || at == line)
unfolding is_error_suppressed_by_nolint line_suppressed
add-exact_all at line category sup = ground arith

add-exact :
    (named : Text) (at line : ℕ) (category : Text) (sup : Suppressions)
    → is_error_suppressed_by_nolint category line (add_suppression (some named) at sup)
      ≡ (is_error_suppressed_by_nolint category line sup || (at == line && text_eq named category))
unfolding is_error_suppressed_by_nolint line_suppressed matches
add-exact named at line category sup = ground arith

suppress_category-exact :
    (named : Text) (at line : ℕ) (category : Text) (sup : Suppressions)
    → is_error_suppressed_by_nolint category line (suppress_category named at sup).0 ≡ (
        is_error_suppressed_by_nolint category line sup
        || (at == line && (text_eq named category && text_mem category error_categories)))
unfolding suppress_category
suppress_category-exact named at line category sup = elim (Bool-cases (text_eq named category)) [
  | inl same ↦
      rw (← (text_eq_iff named category).0 same)
        (ground (arith, add-exact named at line named sup, text_eq_self named))
  | inr other ↦ ground (arith, add-exact named at line category sup)
]

group-exact :
    (group : Option Text) (at line : ℕ) (category : Text) (sup : Suppressions)
    → IsGroup group
    → is_error_suppressed_by_nolint category line (suppress_group group at sup).0 ≡ (
        is_error_suppressed_by_nolint category line sup
        || (at == line && names_category category group))
unfolding suppress_group
group-exact none at line category sup h = ground (arith, add-exact_all at line category sup)
group-exact (some group) at line category sup h = ground (
  arith,
  add-exact_all at line category sup,
  suppress_category-exact (inside_group group) at line category sup,
  inside_group_lem group category h,
)

match-exact :
    (m : Option NolintMatch) (linenum line : ℕ) (category : Text) (sup : Suppressions)
    → HasGroup m
    → is_error_suppressed_by_nolint category line (suppress_match m linenum sup).0
      ≡ (is_error_suppressed_by_nolint category line sup || covers category line m linenum)
unfolding suppress_match
match-exact none linenum line category sup h = ground arith
match-exact (some m) linenum line category sup h =
    ground (arith, group-exact m.category (suppressed_line m linenum) line category sup h)

-- After a line was parsed, an error is suppressed exactly when it was before, or when the pattern
-- finds a NOLINT comment on the line that is about the line of the error (NOLINTNEXTLINE about the
-- next line, NOLINT about its own) and has no category, the category `(*)`, or the category of the
-- error in parentheses, which is a known one.
pub parse_nolint_exact :
    (raw_line category : Text) (linenum line : ℕ) (sup : Suppressions)
    → is_error_suppressed_by_nolint category line (parse_nolint raw_line linenum sup).0 ≡ (
        is_error_suppressed_by_nolint category line sup
        || covers category line (nolint_search false raw_line) linenum)
unfolding parse_nolint
parse_nolint_exact raw_line category linenum line sup =
    match-exact (nolint_search false raw_line) linenum line category sup
      (nolint_search-HasGroup false raw_line)
