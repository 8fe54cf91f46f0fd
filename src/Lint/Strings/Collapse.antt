-- ===== src/Lint/Strings/Collapse.antt =====
-- The loop of `_CollapseStrings` ends, on a line that is no longer.
use simpledb.Prelude.{
  ℕ, zero, suc, ◌+◌, ◌≤◌, ◌<◌, ◌≡◌, refl, ap, subst, ◌∙◌, ◌==◌, Bool, true, false, not, ◌&&◌, [],
  ◌∷◌, ◌++◌, ◌⊎◌, none, some, length, take, drop, arith, Bool-cases, Option-cases, inl, inr,
  length-append, length-drop,
}
use simpledb.Prelude.Text.{Text, find, find_from, starts_with}
use simpledb.Lint.Cleanse.{remove_from, escape_length}
use simpledb.Lint.Strings.{
  Cut, is_quote, Turn, breaks, goes_on, cut_at_quote, ends_in_number, is_include,
  without_separators, literal_length, collapse_quoted, collapse_separators, collapse_turn,
  collapse_loop, collapse_strings,
}

ℕ-cases : (n : ℕ) → (n ≡ 0) ⊎ ((m : ℕ) × (n ≡ suc m))
ℕ-cases zero = inl refl
ℕ-cases (suc m) = inr (m, refl)

pub length-remove_from :
    (match_length : Text → ℕ) (skip : ℕ) (s : Text)
    → length (remove_from match_length skip s) ≤ length s
unfolding remove_from
length-remove_from match_length skip [] = omega arith
length-remove_from match_length (suc skip) (c ∷ s) =
    omega (arith, length-remove_from match_length skip s)
length-remove_from match_length zero (c ∷ s) = elim (ℕ-cases (match_length (c ∷ s))) [
  | inl e ↦ rw (e, length) (omega (arith, length-remove_from match_length zero s))
  | inr (more, e) ↦ rw (e, length) (omega (arith, length-remove_from match_length more s))
]

cut_at_quote-cases :
    (s : Text)
    → (cut_at_quote s ≡ none)
      ⊎ ((cut : Cut) × (cut_at_quote s ≡ some cut) × (s ≡ cut.head ++ (cut.quote ∷ cut.tail)))
unfolding cut_at_quote
cut_at_quote-cases [] = inl refl
cut_at_quote-cases (c ∷ s) = elim (Bool-cases (is_quote c)) [
  | inl h ↦ inr (record { head = []; quote = c; tail = s }, rw h refl, refl)
  | inr h ↦ elim (cut_at_quote-cases s) [
    | inl e ↦ inl (rw (h, e) refl)
    | inr (cut, e, p) ↦ inr (
      record { head = c ∷ cut.head; quote = cut.quote; tail = cut.tail },
      rw (h, e) refl,
      ap (◌∷◌ c) p,
    )
  ]
]

length-without_separators : (s : Text) → length (without_separators s) ≤ length s
length-without_separators [] = omega arith
length-without_separators (c ∷ s) = ground (arith, length-without_separators s)

length-separated :
    (n : ℕ) (s : Text) → length (without_separators (take n s)) + length (drop n s) ≤ length s
length-separated zero s = omega arith
length-separated (suc n) [] = omega arith
length-separated (suc n) (c ∷ s) = ground (arith, length-separated n s)

pub find-nonempty : (c : ℕ) (sub s : Text) (n : ℕ) → find (c ∷ sub) s ≡ some n → 0 < length s
unfolding find find_from starts_with
find-nonempty c sub [] n e = cc
find-nonempty c sub (_ ∷ _) n e = omega arith

ends_in_number-nonempty :
    (in_word : Bool) (s : Text) → ends_in_number in_word s ≡ true → 0 < length s
unfolding ends_in_number
ends_in_number-nonempty in_word [] e = cc
ends_in_number-nonempty in_word (_ ∷ _) e = omega arith

-- The text and the rest together are no longer than what the turn started with, and the rest is
-- shorter.
Shrinks : Text → Turn → Type 0
Shrinks elided (breaks text) = length text ≤ length elided
Shrinks elided (goes_on text rest) =
    (length text + length rest ≤ length elided) × (length rest < length elided)

module _ (elided : Text) (cut : Cut) (whole : elided ≡ cut.head ++ (cut.quote ∷ cut.tail)) where
  length-whole : length elided ≡ length cut.head + suc (length cut.tail)
  length-whole = ap length whole ∙ length-append cut.head (cut.quote ∷ cut.tail)

  collapse_quoted-Shrinks : Shrinks elided (collapse_quoted elided cut)
  unfolding Shrinks collapse_quoted
  collapse_quoted-Shrinks = elim (Option-cases (find (cut.quote ∷ []) cut.tail)) [
    | inl e ↦ rw (e, Shrinks) (omega arith)
    | inr (n, e) ↦
        let tail = find-nonempty cut.quote [] cut.tail n e in
        let rest = length-drop (n + 1) cut.tail in
        let kept = length-append cut.head (cut.quote ∷ cut.quote ∷ []) in
        rw (e, Shrinks)
          (omega (arith, length-whole, kept, rest, tail), omega (arith, length-whole, rest, tail))
  ]

  collapse_separators-Shrinks :
      ends_in_number false cut.head ≡ true → Shrinks elided (collapse_separators cut)
  unfolding Shrinks collapse_separators
  collapse_separators-Shrinks h =
      let text = 39 ∷ cut.tail in
      let size = literal_length text in
      let left = length-drop size text in
      let kept = length-separated size text in
      let front = ends_in_number-nonempty false cut.head h in
      (
        omega (
          arith,
          length-whole,
          kept,
          length-append cut.head (without_separators (take size text)),
        ),
        omega (arith, length-whole, left, front),
      )

collapse_turn-Shrinks : (elided : Text) → Shrinks elided (collapse_turn elided)
unfolding Shrinks collapse_turn
collapse_turn-Shrinks elided = elim (cut_at_quote-cases elided) [
  | inl h ↦ rw (h, Shrinks) (omega arith)
  | inr (cut, h, whole) ↦
      elim (Bool-cases (not (cut.quote == b'"') && ends_in_number false cut.head)) [
        | inl e ↦ rw (h, e, Shrinks) (collapse_separators-Shrinks elided cut whole (ground arith))
        | inr e ↦ rw (h, e, Shrinks) (collapse_quoted-Shrinks elided cut whole)
      ]
]

pub Turn-cases :
    (turn : Turn)
    → ((text : Text) × (turn ≡ breaks text))
      ⊎ ((text : Text) × (rest : Text) × (turn ≡ goes_on text rest))
Turn-cases (breaks text) = inl (text, refl)
Turn-cases (goes_on text rest) = inr (text, rest, refl)

pub collapse_loop-ends :
    (fuel : ℕ) (collapsed elided : Text)
    → length elided < fuel
    → (line : Text) × (collapse_loop fuel collapsed elided ≡ some line)
      × (length line ≤ length collapsed + length elided)
unfolding Shrinks collapse_loop
collapse_loop-ends zero collapsed elided h = absurd (omega arith)
collapse_loop-ends (suc fuel) collapsed elided h =
    let shrinks = collapse_turn-Shrinks elided in
    elim (Turn-cases (collapse_turn elided)) [
      | inl (text, e) ↦
          let short : Shrinks elided (breaks text) = subst (Shrinks elided) e shrinks in
          (
            collapsed ++ text,
            rw (collapse_loop, e) refl,
            omega (arith, short, length-append collapsed text),
          )
      | inr (text, rest, e) ↦
          let (short, less) : Shrinks elided (goes_on text rest) =
            subst (Shrinks elided) e shrinks in
          let (line, ends, bound) =
            collapse_loop-ends fuel (collapsed ++ text) rest (omega (arith, less)) in
          (
            line,
            rw (collapse_loop, e) ends,
            omega (arith, short, bound, length-append collapsed text),
          )
    ]

-- `_CollapseStrings` ends, on every line, with a line that is no longer.
pub collapse_strings_lem :
    (elided : Text)
    → (line : Text) × (collapse_strings elided ≡ some line) × (length line ≤ length elided)
unfolding collapse_strings
collapse_strings_lem elided = elim (Bool-cases (is_include elided)) [
  | inl h ↦ (elided, rw h refl, omega arith)
  | inr h ↦
      let cleansed = remove_from escape_length 0 elided in
      let (line, e, shorter) =
        collapse_loop-ends (suc (length cleansed)) [] cleansed (omega arith) in
      (line, rw h e, omega (arith, shorter, length-remove_from escape_length 0 elided))
]
