-- ===== src/Lint/Strings/Contents.antt =====
-- What stands inside of a string does not change the collapsed line.
use simpledb.Prelude.{
  ℕ, zero, suc, ◌+◌, ◌≤◌, ◌<◌, ◌≡◌, refl, sym, ap, ◌∙◌, ◌==◌, Bool, true, false, [], ◌∷◌, ◌++◌,
  some, length, drop, arith, inl, inr, length-append,
}
use simpledb.Prelude.Text.{Text, find, find_from, starts_with}
use simpledb.Lint.Cleanse.{remove_from, escape_length}
use simpledb.Lint.Strings.{
  is_quote, goes_on, cut_at_quote, is_include, collapse_quoted, collapse_turn, collapse_loop,
  collapse_strings,
}
use simpledb.Lint.Strings.Collapse.{Turn-cases, collapse_loop-ends}

-- No character of the text passes the test.
abbrev pub NoneOf : (ℕ → Bool) → Text → Type 0
NoneOf test [] = Unit
NoneOf test (c ∷ s) = (test c ≡ false) × NoneOf test s

NoneOf-append :
    (test : ℕ → Bool) (s t : Text) → NoneOf test s → NoneOf test t → NoneOf test (s ++ t)
NoneOf-append test [] t p q = q
NoneOf-append test (c ∷ s) t (h, p) q = (h, NoneOf-append test s t p q)

remove_from-plain : (s : Text) → NoneOf (λ c. c == 92) s → remove_from escape_length 0 s ≡ s
unfolding remove_from escape_length
remove_from-plain [] h = refl
remove_from-plain (c ∷ s) (h, rest) =
    rw (remove_from, escape_length, h) (ap (◌∷◌ c) (remove_from-plain s rest))

cut_at_quote-plain :
    (head tail : Text) (quote : ℕ)
    → NoneOf is_quote head
    → is_quote quote ≡ true
    → cut_at_quote (head ++ (quote ∷ tail))
      ≡ some (record { head = head; quote = quote; tail = tail })
unfolding cut_at_quote
cut_at_quote-plain [] tail quote h q = rw q refl
cut_at_quote-plain (c ∷ head) tail quote (h, hs) q =
    rw (h, cut_at_quote-plain head tail quote hs q) refl

find-plain :
    (i : ℕ) (body tail : Text) (quote : ℕ)
    → NoneOf (λ c. quote == c) body
    → find_from i (quote ∷ []) (body ++ (quote ∷ tail)) ≡ some (i + length body)
unfolding find_from starts_with
find-plain i [] tail quote h = ground arith
find-plain i (c ∷ body) tail quote (h, hs) =
    rw h (find-plain (i + 1) body tail quote hs ∙ ap some (omega arith))

drop-plain :
    (body tail : Text) (quote : ℕ) → drop (suc (length body)) (body ++ (quote ∷ tail)) ≡ tail
drop-plain [] tail quote = refl
drop-plain (c ∷ body) tail quote = drop-plain body tail quote

-- More fuel gives the same line.
collapse_loop-more :
    (fuel more : ℕ) (collapsed elided line : Text)
    → fuel ≤ more
    → collapse_loop fuel collapsed elided ≡ some line
    → collapse_loop more collapsed elided ≡ some line
unfolding collapse_loop
collapse_loop-more zero more collapsed elided line h e = cc
collapse_loop-more (suc fuel) zero collapsed elided line h e = absurd (omega arith)
collapse_loop-more (suc fuel) (suc more) collapsed elided line h e =
    elim (Turn-cases (collapse_turn elided)) [
      | inl (text, t) ↦ rw (collapse_loop, t) (rw (collapse_loop, t) at e)
      | inr (text, rest, t) ↦
          rw (collapse_loop, t)
            (collapse_loop-more fuel more (collapsed ++ text) rest line (omega arith)
              (rw (collapse_loop, t) at e))
    ]

collapse_loop-step :
    (fuel : ℕ) (collapsed elided text rest : Text)
    → collapse_turn elided ≡ goes_on text rest
    → collapse_loop (suc fuel) collapsed elided ≡ collapse_loop fuel (collapsed ++ text) rest
unfolding collapse_loop
collapse_loop-step fuel collapsed elided text rest t = rw (collapse_loop, t) refl

-- A line with a string in it.
abbrev pub with_string : Text → Text → Text → Text
with_string head body tail = head ++ (b'"' ∷ (body ++ (b'"' ∷ tail)))

module _ (head body tail : Text) (no_quote : NoneOf is_quote head)
    (no_end : NoneOf (λ c. b'"' == c) body) where
  collapse_turn-string :
      collapse_turn (with_string head body tail) ≡ goes_on (head ++ (b'"' ∷ b'"' ∷ [])) tail
  unfolding collapse_turn collapse_quoted find
  collapse_turn-string =
      let size : 0 + length body + 1 ≡ suc (length body) = omega arith in
      rw
        (
          collapse_turn,
          cut_at_quote-plain head (body ++ (b'"' ∷ tail)) b'"' no_quote refl,
          collapse_quoted,
          find,
          find-plain 0 body tail b'"' no_end,
        )
        (ap (goes_on (head ++ (b'"' ∷ b'"' ∷ [])))
          (ap (λ n. drop n (body ++ (b'"' ∷ tail))) size ∙ drop-plain body tail b'"'))

  length-with_string : length tail < length (with_string head body tail)
  length-with_string =
      omega (
        arith,
        length-append head (b'"' ∷ (body ++ (b'"' ∷ tail))),
        length-append body (b'"' ∷ tail),
      )

  collapse_strings-string :
      (line : Text)
      → NoneOf (λ c. c == 92) (with_string head body tail)
      → is_include (with_string head body tail) ≡ false
      → collapse_loop (suc (length tail)) (head ++ (b'"' ∷ b'"' ∷ [])) tail ≡ some line
      → collapse_strings (with_string head body tail) ≡ some line
  unfolding collapse_strings
  collapse_strings-string line plain other e =
      let whole = with_string head body tail in
      let same = remove_from-plain whole plain in
      let loop : collapse_strings whole ≡ collapse_loop (suc (length whole)) [] whole =
        rw (collapse_strings, other, same) refl in
      loop
      ∙ collapse_loop-step (length whole) [] whole (head ++ (b'"' ∷ b'"' ∷ [])) tail
          collapse_turn-string
      ∙ collapse_loop-more (suc (length tail)) (length whole) (head ++ (b'"' ∷ b'"' ∷ [])) tail line
          length-with_string e

-- Two lines without a backslash that are no includes, and differ only inside of their first string,
-- collapse to the same line.
pub collapse_strings-contents :
    (head body body' tail : Text)
    → NoneOf is_quote head
    → NoneOf (λ c. b'"' == c) body
    → NoneOf (λ c. b'"' == c) body'
    → NoneOf (λ c. c == 92) (with_string head body tail)
    → NoneOf (λ c. c == 92) (with_string head body' tail)
    → is_include (with_string head body tail) ≡ false
    → is_include (with_string head body' tail) ≡ false
    → collapse_strings (with_string head body tail) ≡ collapse_strings (with_string head body' tail)
collapse_strings-contents head body body' tail q b b' p p' i i' =
    let (line, e, _) =
      collapse_loop-ends (suc (length tail)) (head ++ (b'"' ∷ b'"' ∷ [])) tail (omega arith) in
    collapse_strings-string head body tail q b line p i e
    ∙ sym (collapse_strings-string head body' tail q b' line p' i' e)
