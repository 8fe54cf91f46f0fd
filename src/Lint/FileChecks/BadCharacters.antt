-- ===== src/Lint/FileChecks/BadCharacters.antt =====
-- `CheckForBadCharacters` reports every line with a bad character, at its number.
use simpledb.Prelude.{
  ℕ, zero, suc, ◌+◌, ◌≡◌, refl, ◌∙◌, ap, Bool, false, ◌&&◌, ◌||◌, List, [], ◌∷◌, ◌++◌, Option, none,
  some, arith, get_elem?, ◌==◌, ◌<◌,
}
use simpledb.Prelude.Int.{pos, int_eq}
use simpledb.Prelude.Text.{Text, codes, text_eq}
use simpledb.Lint.FileChecks.{
  Call, has_char, bad_characters, bad_characters_from, check_for_bad_characters,
}

-- Some call of the category is for the line.
abbrev pub is_reported : Text → ℕ → List Call → Bool
is_reported category n [] = false
is_reported category n (call ∷ calls) =
    (text_eq call.category category && int_eq call.linenum (pos n)) || is_reported category n calls

-- The line is in the file and holds the character.
abbrev pub is_in_line : ℕ → Option Text → Bool
is_in_line c none = false
is_in_line c (some line) = has_char c line

is_reported-append :
    (category : Text) (n : ℕ) (xs ys : List Call)
    → is_reported category n (xs ++ ys) ≡ (is_reported category n xs || is_reported category n ys)
is_reported-append category n [] ys = refl
is_reported-append category n (call ∷ xs) ys = ground (arith, is_reported-append category n xs ys)

reported_nul :
    (n m : ℕ) (line : Text)
    → is_reported (codes "readability/nul") n (bad_characters m line) ≡ (m == n && has_char 0 line)
unfolding bad_characters text_eq int_eq
reported_nul n m line = ground arith

reported_utf8 :
    (n m : ℕ) (line : Text)
    → is_reported (codes "readability/utf8") n (bad_characters m line)
      ≡ (m == n && has_char 65533 line)
unfolding bad_characters text_eq int_eq
reported_utf8 n m line = ground arith

module _ (category : Text) (c : ℕ)
    (one : (n m : ℕ) (line : Text)
      → is_reported category n (bad_characters m line) ≡ (m == n && has_char c line)) where
  early :
      (n m : ℕ) (lines : List Text)
      → n < m
      → is_reported category n (bad_characters_from m lines) ≡ false
  unfolding bad_characters_from
  early n m [] lt = refl
  early n m (line ∷ lines) lt = ground (
    arith,
    is_reported-append category n (bad_characters m line) (bad_characters_from (m + 1) lines),
    one n m line,
    early n (m + 1) lines (omega arith),
  )

  reported :
      (i m : ℕ) (lines : List Text)
      → is_reported category (m + i) (bad_characters_from m lines)
        ≡ is_in_line c (get_elem? lines i)
  unfolding bad_characters_from
  reported i m [] = refl
  reported zero m (line ∷ lines) = ground (
    arith,
    is_reported-append category (m + zero) (bad_characters m line)
        (bad_characters_from (m + 1) lines),
    one (m + zero) m line,
    early (m + zero) (m + 1) lines (omega arith),
  )
  reported (suc i) m (line ∷ lines) =
      let later : is_reported category (m + suc i) (bad_characters_from (m + 1) lines)
          ≡ is_in_line c (get_elem? lines i) =
        ap (λ k. is_reported category k (bad_characters_from (m + 1) lines)) (omega arith)
        ∙ reported i (m + 1) lines in
      ground (
        arith,
        is_reported-append category (m + suc i) (bad_characters m line)
            (bad_characters_from (m + 1) lines),
        one (m + suc i) m line,
        later,
      )

  from_first :
      (n : ℕ) (lines : List Text)
      → is_reported category n (bad_characters_from 0 lines) ≡ is_in_line c (get_elem? lines n)
  from_first n lines =
      ap (λ k. is_reported category k (bad_characters_from 0 lines)) (omega arith)
      ∙ reported n 0 lines

-- A NUL byte is reported for a line exactly when the file has that line and the line holds one,
-- and likewise the replacement character U+FFFD.
pub check_for_bad_characters_lem :
    (lines : List Text) (n : ℕ)
    → (is_reported (codes "readability/nul") n (check_for_bad_characters lines)
        ≡ is_in_line 0 (get_elem? lines n))
      × (is_reported (codes "readability/utf8") n (check_for_bad_characters lines)
          ≡ is_in_line 65533 (get_elem? lines n))
unfolding check_for_bad_characters
check_for_bad_characters_lem lines n = (
  from_first (codes "readability/nul") 0 reported_nul n lines,
  from_first (codes "readability/utf8") 65533 reported_utf8 n lines,
)
