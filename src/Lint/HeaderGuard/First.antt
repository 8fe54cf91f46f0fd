-- ===== src/Lint/HeaderGuard/First.antt =====
-- The loop over the lines keeps the first `#ifndef` and the first `#define`.
use simpledb.Prelude.{
  ℕ, ◌+◌, ◌≡◌, refl, true, false, not, ◌||◌, List, [], ◌∷◌, arith, if◌then◌else◌, ap, ◌∙◌, sym,
}
use simpledb.Prelude.Text.{Text, codes, text_eq, text_eq_iff}
use simpledb.Lint.HeaderGuard.{
  Guard, no_guard, argument, see_line, see_lines, is_exempt, is_missing, missing_guard,
  check_for_header_guard,
}

abbrev or_next : Text → Text → Text
or_next first next = if text_eq first [] then next else first

-- The argument of the first line with the directive that has one, or the empty text.
abbrev pub first_argument : Text → List Text → Text
first_argument directive [] = []
first_argument directive (line ∷ lines) =
    let next = first_argument directive lines in
    if text_eq (argument directive line) [] then next else argument directive line

see_line-ifndef :
    (n : ℕ) (line : Text) (g : Guard)
    → (see_line n line g).ifndef ≡ or_next g.ifndef (argument (codes "#ifndef") line)
unfolding see_line
see_line-ifndef n line g =
    ground (arith, text_eq_iff g.ifndef [], text_eq_iff (argument (codes "#ifndef") line) [])

see_line-define :
    (n : ℕ) (line : Text) (g : Guard)
    → (see_line n line g).define ≡ or_next g.define (argument (codes "#define") line)
unfolding see_line
see_line-define n line g =
    ground (arith, text_eq_iff g.define [], text_eq_iff (argument (codes "#define") line) [])

or_next-or_next : (a b c : Text) → or_next (or_next a b) c ≡ or_next a (or_next b c)
or_next-or_next a b c = ground arith

or_next-empty : (a : Text) → or_next a [] ≡ a
or_next-empty a = ground (arith, text_eq_iff a [])

see_lines-ifndef :
    (n : ℕ) (lines : List Text) (g : Guard)
    → (see_lines n lines g).ifndef ≡ or_next g.ifndef (first_argument (codes "#ifndef") lines)
unfolding see_lines
see_lines-ifndef n [] g = sym (or_next-empty g.ifndef)
see_lines-ifndef n (line ∷ lines) g =
    let rest = first_argument (codes "#ifndef") lines in
    see_lines-ifndef (n + 1) lines (see_line n line g)
    ∙ ap (λ a. or_next a rest) (see_line-ifndef n line g)
    ∙ or_next-or_next g.ifndef (argument (codes "#ifndef") line) rest

see_lines-define :
    (n : ℕ) (lines : List Text) (g : Guard)
    → (see_lines n lines g).define ≡ or_next g.define (first_argument (codes "#define") lines)
unfolding see_lines
see_lines-define n [] g = sym (or_next-empty g.define)
see_lines-define n (line ∷ lines) g =
    let rest = first_argument (codes "#define") lines in
    see_lines-define (n + 1) lines (see_line n line g)
    ∙ ap (λ a. or_next a rest) (see_line-define n line g)
    ∙ or_next-or_next g.define (argument (codes "#define") line) rest

-- In a file that is not exempt the guard counts as missing, and nothing else is reported,
-- when its first `#ifndef` and its first `#define` do not both have an argument, the same one.
pub check_for_header_guard-missing :
    (cppvar : Text) (raw_lines : List Text)
    → is_exempt raw_lines ≡ false
    → text_eq (first_argument (codes "#ifndef") raw_lines) []
        || text_eq (first_argument (codes "#define") raw_lines) []
        || not (
            text_eq
              (first_argument (codes "#ifndef") raw_lines)
              (first_argument (codes "#define") raw_lines))
      ≡ true
    → check_for_header_guard cppvar raw_lines ≡ missing_guard cppvar ∷ []
unfolding check_for_header_guard is_missing text_eq
check_for_header_guard-missing cppvar raw_lines h missing =
    rw (h, see_lines-ifndef 0 raw_lines no_guard, see_lines-define 0 raw_lines no_guard, missing)
      refl
