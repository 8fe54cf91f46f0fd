-- ===== src/Lint/FileChecks/Newline.antt =====
-- `CheckForNewlineAtEOF` on the lines that `ProcessFile` and `ProcessFileData` make of a text.
use simpledb.Prelude.{
  ℕ, ◌≡◌, refl, ◌∙◌, ap, ◌↔◌, Bool, true, not, [], ◌∷◌, ◌++◌, arith, length, ◌==◌, length-append,
  Bool-cases, inl, inr,
}
use simpledb.Prelude.Text.{Text, split, split_onto, split_onto-cons}
use simpledb.Lint.FileChecks.{check_for_newline_at_eof, last_but_one, non_empty, suc}

-- The text is empty, or its last character is a newline.
abbrev pub is_complete : Text → Bool
is_complete [] = true
is_complete (c ∷ []) = c == 10
is_complete (c ∷ d ∷ text) = is_complete (d ∷ text)

is_complete_onto : Text → Text → Bool
is_complete_onto field [] = not (non_empty field)
is_complete_onto field (c ∷ text) = is_complete (c ∷ text)

non_empty-append : (field : Text) (c : ℕ) → non_empty (field ++ c ∷ []) ≡ true
unfolding non_empty
non_empty-append [] c = refl
non_empty-append (_ ∷ _) c = refl

last_but_one-cons :
    (a b : Text) (field text marker : Text)
    → last_but_one (a ∷ b ∷ (split_onto 10 field text ++ marker ∷ []))
      ≡ last_but_one (b ∷ (split_onto 10 field text ++ marker ∷ []))
unfolding last_but_one
last_but_one-cons a b field text marker =
    let (first, rest, e) = split_onto-cons 10 field text in rw e refl

last_line :
    (a field text marker : Text)
    → non_empty (last_but_one (a ∷ (split_onto 10 field text ++ marker ∷ [])))
      ≡ not (is_complete_onto field text)
unfolding split_onto last_but_one is_complete_onto non_empty
last_line a field [] marker = ground arith
last_line a field (c ∷ []) marker = ground (arith, non_empty-append field c)
last_line a field (c ∷ d ∷ text) marker = elim (Bool-cases (c == 10)) [
  | inl e ↦ rw e (
      ap non_empty (last_but_one-cons a field [] (d ∷ text) marker)
      ∙ last_line field [] (d ∷ text) marker)
  | inr e ↦ rw e (last_line a (field ++ c ∷ []) (d ∷ text) marker)
]

complete_onto : (text : Text) → is_complete_onto [] text ≡ is_complete text
unfolding is_complete_onto non_empty
complete_onto [] = refl
complete_onto (_ ∷ _) = refl

-- On the lines of a text between the two marker lines there is no report exactly when the text is
-- empty or ends in a newline.
pub check_for_newline_at_eof_lem :
    (first text last : Text)
    → (check_for_newline_at_eof (first ∷ (split 10 text ++ last ∷ [])) ≡ [])
      ↔ (is_complete text ≡ true)
unfolding check_for_newline_at_eof split is_complete_onto
check_for_newline_at_eof_lem first text last =
    let (l, rest, e) = split_onto-cons 10 [] text in
    let long : length (split_onto 10 [] text) ≡ suc (length rest) = ap length e in
    let size = length-append (split_onto 10 [] text) (last ∷ []) in
    let empty = last_line first [] text last in
    (
      λ none_reported. ground (arith, empty, complete_onto text),
      λ complete. ground (arith, empty, complete_onto text, long, size),
    )
