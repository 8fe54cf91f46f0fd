-- ===== src/Lint/Brackets/Balanced.antt =====
-- Balanced text is skipped, and its bracket is found.
use mathlib.Core.List.{append_assoc}
use simpledb.Prelude.{
  ℕ, ◌+◌, ◌≡◌, ◌∙◌, ap, Bool, true, not, ◌||◌, List, [], ◌∷◌, ◌++◌, arith, ◌==◌, length,
  length-append,
}
use simpledb.Prelude.Text.{Text}
use simpledb.Lint.Brackets.{
  closed, is_open, is_close, fits, scan_char, scan_line, drop_angles,
  find_end_of_expression_in_line,
}

-- A character with no part in the matching.
abbrev pub is_plain : ℕ → Bool
is_plain c = not (is_open c || is_close c || c == b'<' || c == b'>' || c == b';')

-- Text whose round, square and curly brackets match, without angles and semicolons.
pub data Balanced : Text → Type 0 where
  empty : Balanced []
  plain : {s : Text} (c : ℕ) → is_plain c ≡ true → Balanced s → Balanced (c ∷ s)
  nest :
      {b s : Text} (o c : ℕ)
      → is_open o ≡ true
      → fits o c ≡ true
      → Balanced b
      → Balanced s
      → Balanced (o ∷ (b ++ c ∷ s))

scan-plain :
    (i : ℕ) (before : List ℕ) (c : ℕ) (s : Text) (stack : List ℕ)
    → is_plain c ≡ true
    → scan_line i before (c ∷ s) stack ≡ scan_line (i + 1) (c ∷ before) s stack
unfolding scan_line scan_char
scan-plain i before c s stack h = ground arith

scan-open :
    (i : ℕ) (before : List ℕ) (c : ℕ) (s : Text) (stack : List ℕ)
    → is_open c ≡ true
    → scan_line i before (c ∷ s) stack ≡ scan_line (i + 1) (c ∷ before) s (c ∷ stack)
unfolding scan_line scan_char
scan-open i before c s stack h = ground arith

scan-close :
    (i : ℕ) (before : List ℕ) (o c t : ℕ) (s : Text) (stack : List ℕ)
    → fits o c ≡ true
    → scan_line i before (c ∷ s) (o ∷ t ∷ stack) ≡ scan_line (i + 1) (c ∷ before) s (t ∷ stack)
unfolding scan_line scan_char fits drop_angles
scan-close i before o c t s stack h = ground arith

scan-last :
    (i : ℕ) (before : List ℕ) (o c : ℕ) (s : Text)
    → fits o c ≡ true
    → scan_line i before (c ∷ s) (o ∷ []) ≡ closed (i + 1)
unfolding scan_line scan_char fits drop_angles
scan-last i before o c s h = ground arith

-- The scan passes over balanced text, whatever stands around it, with an open bracket on the
-- stack.
scan-Balanced :
    {b : Text} (i : ℕ) (before : List ℕ) (t : ℕ) (stack : List ℕ) (rest : Text)
    → Balanced b
    → (before' : List ℕ) × (scan_line i before (b ++ rest) (t ∷ stack)
        ≡ scan_line (i + length b) before' rest (t ∷ stack))
scan-Balanced i before t stack rest empty =
    (before, ap (λ n. scan_line n before rest (t ∷ stack)) (omega arith))
scan-Balanced i before t stack rest (plain {s} c h b) =
    let (before', e) = scan-Balanced (i + 1) (c ∷ before) t stack rest b in
    (
      before',
      scan-plain i before c (s ++ rest) (t ∷ stack) h
          ∙ e
          ∙ ap (λ n. scan_line n before' rest (t ∷ stack)) (omega arith),
    )
scan-Balanced i before t stack rest (nest {b} {s} o c h k inner outer) =
    let (before1, e1) = scan-Balanced (i + 1) (o ∷ before) o (t ∷ stack) (c ∷ (s ++ rest)) inner in
    let (before2, e2) = scan-Balanced (i + 1 + length b + 1) (c ∷ before1) t stack rest outer in
    (
      before2,
      rw (append_assoc b (c ∷ s) rest) (
          scan-open i before o (b ++ c ∷ (s ++ rest)) (t ∷ stack) h
          ∙ e1
          ∙ scan-close (i + 1 + length b) before1 o c t (s ++ rest) stack k
          ∙ e2
          ∙ ap (λ n. scan_line n before2 rest (t ∷ stack))
              (omega (arith, length-append b (c ∷ s)))),
    )

-- On a line that starts with a bracket around balanced text, the position found is right behind
-- the bracket that closes it, whatever follows.
pub find_end-Balanced :
    {b : Text} (o c : ℕ) (rest : Text)
    → is_open o ≡ true
    → fits o c ≡ true
    → Balanced b
    → find_end_of_expression_in_line (o ∷ (b ++ c ∷ rest)) 0 [] ≡ closed (length b + 2)
unfolding find_end_of_expression_in_line
find_end-Balanced {b} o c rest h k inner =
    let (before, e) = scan-Balanced 1 (o ∷ []) o [] (c ∷ rest) inner in
    scan-open 0 [] o (b ++ c ∷ rest) [] h
    ∙ e
    ∙ scan-last (1 + length b) before o c rest k
    ∙ ap closed (omega arith)
