-- ===== src/Lint/CleansedLines/Lengths.antt =====
-- The four copies of `CleansedLines` have the same length.
use mathlib.Core.List.{reverse, reverse-cons}
use simpledb.Lint.Strings.Collapse.{length-remove_from}
use simpledb.Lint.Tokens.{is_cpp_string}
use simpledb.Prelude.{
  arith, ◌≤◌, take, Bool-cases, Option-cases, inl, inr, length-append, length-take, ◌≡◌, refl, ap,
  ◌∙◌, suc, List, [], ◌∷◌, some, length,
}
use simpledb.Prelude.Text.{Text, codes, find, is_space, lstrip, rstrip}
use simpledb.Lint.Cleanse.{cleanse_comments, without_line_comment, spaced_comment_length}
use simpledb.Lint.RawStrings.Lines.{cleanse_raw_strings_lem}
use simpledb.Lint.Strings.Collapse.{collapse_strings_lem}
use simpledb.Lint.CleansedLines
use simpledb.Lint.CleansedLines.{CleansedLines, without_comments, elided_lines}

length-without_comments : (lines : List Text) → length (without_comments lines) ≡ length lines
unfolding without_comments
length-without_comments [] = refl
length-without_comments (_ ∷ lines) = ap suc (length-without_comments lines)

length-reverse : (s : Text) → length (reverse s) ≡ length s
length-reverse [] = refl
length-reverse (c ∷ s) =
    ap length (reverse-cons c s)
    ∙ omega (arith, length-append (reverse s) (c ∷ []), length-reverse s)

pub length-lstrip : (s : Text) → length (lstrip s) ≤ length s
unfolding lstrip
length-lstrip [] = omega arith
length-lstrip (c ∷ s) = elim (Bool-cases (is_space c)) [
  | inl h ↦ rw (lstrip, h) (omega (arith, length-lstrip s))
  | inr h ↦ rw (lstrip, h) (omega arith)
]

length-rstrip : (s : Text) → length (rstrip s) ≤ length s
unfolding rstrip
length-rstrip s =
    omega (arith, length-reverse (lstrip (reverse s)), length-lstrip (reverse s), length-reverse s)

length-without_line_comment : (line : Text) → length (without_line_comment line) ≤ length line
unfolding without_line_comment
length-without_line_comment line = elim (Option-cases (find (codes "//") line)) [
  | inl e ↦ rw (without_line_comment, e) (omega arith)
  | inr (n, e) ↦ elim (Bool-cases (is_cpp_string (take n line))) [
    | inl h ↦ rw (without_line_comment, e, h) (omega arith)
    | inr h ↦
        rw (without_line_comment, e, h)
          (omega (arith, length-rstrip (take n line), length-take n line))
  ]
]

length-cleanse_comments : (line : Text) → length (cleanse_comments line) ≤ length line
unfolding cleanse_comments
length-cleanse_comments line = omega (
  arith,
  length-remove_from spaced_comment_length 0 (without_line_comment line),
  length-without_line_comment line,
)

-- Line by line, the first lines are no longer than the second ones.
abbrev pub AreShorter : List Text → List Text → Type 0
AreShorter [] [] = Unit
AreShorter [] (_ ∷ _) = ⊥
AreShorter (_ ∷ _) [] = ⊥
AreShorter (line ∷ lines) (other ∷ others) = (length line ≤ length other) × AreShorter lines others

elided_lines-ends :
    (lines : List Text)
    → (elided : List Text) × (elided_lines lines ≡ some elided)
      × (length elided ≡ length lines)
      × AreShorter elided lines
unfolding elided_lines
elided_lines-ends [] = ([], refl, refl, tt)
elided_lines-ends (line ∷ lines) =
    let (first, e, shorter) = collapse_strings_lem line in
    let (rest, e', same, all) = elided_lines-ends lines in
    (
      cleanse_comments first ∷ rest,
      rw (elided_lines, e, e') refl,
      ap suc same,
      (omega (arith, shorter, length-cleanse_comments first), all),
    )

-- All lists have as many lines as `NumLines` says.
pub IsAligned : CleansedLines → Type 0
IsAligned clean_lines =
    (length clean_lines.elided ≡ clean_lines.num_lines)
    × (length clean_lines.lines ≡ clean_lines.num_lines)
    × (length clean_lines.raw_lines ≡ clean_lines.num_lines)
    × (length clean_lines.lines_without_raw_strings ≡ clean_lines.num_lines)

-- For the lines of every file the four copies are made: the loops over raw strings and over quotes
-- end. Each copy has as many lines as the file, and no elided line is longer than the line that it
-- comes from.
pub init-IsAligned :
    (raw : List Text)
    → (clean_lines : CleansedLines) × (CleansedLines.init raw ≡ some clean_lines)
      × (clean_lines.raw_lines ≡ raw)
      × IsAligned clean_lines
      × AreShorter clean_lines.elided clean_lines.lines_without_raw_strings
unfolding CleansedLines.init IsAligned
init-IsAligned raw =
    let (without, e, same) = cleanse_raw_strings_lem raw in
    let (elided, e', same', shorter) = elided_lines-ends without in
    (
      record {
        elided = elided;
        lines = without_comments without;
        raw_lines = raw;
        num_lines = length raw;
        lines_without_raw_strings = without;
      },
      rw (CleansedLines.init, e, e') refl,
      refl,
      (same' ∙ same, length-without_comments without ∙ same, refl, same),
      shorter,
    )
