-- ===== src/Lint/BracketsBack/Balanced.antt =====
-- Towards the front, too, balanced text is skipped, and its bracket is found.
use simpledb.Prelude.{
  ℕ, ◌+◌, ◌≡◌, refl, sym, ◌∙◌, ap, true, List, [], ◌∷◌, ◌++◌, arith, length, take, drop,
  length-append,
}
use simpledb.Prelude.Text.{Text}
use mathlib.Core.List.{append_assoc}
use simpledb.Lint.Brackets.{closed, fits}
use simpledb.Lint.Brackets.Balanced.{Balanced, empty, plain, nest, is_plain}
use simpledb.Lint.BracketsBack.{
  back_char, scan_back, drop_right_angles, reversed_onto, find_start_of_expression_in_line,
}

back-plain :
    (before after : Text) (c : ℕ) (stack : List ℕ)
    → is_plain c ≡ true
    → scan_back 0 (c ∷ before) after stack ≡ scan_back 0 before (c ∷ after) stack
unfolding scan_back back_char
back-plain before after c stack h = ground arith

back-close :
    (before after : Text) (o c : ℕ) (stack : List ℕ)
    → fits o c ≡ true
    → scan_back 0 (c ∷ before) after stack ≡ scan_back 0 before (c ∷ after) (c ∷ stack)
unfolding scan_back back_char fits
back-close before after o c stack h = ground arith

back-open :
    (before after : Text) (o c t : ℕ) (stack : List ℕ)
    → fits o c ≡ true
    → scan_back 0 (o ∷ before) after (c ∷ t ∷ stack) ≡ scan_back 0 before (o ∷ after) (t ∷ stack)
unfolding scan_back back_char fits drop_right_angles
back-open before after o c t stack h = ground arith

back-last :
    (before after : Text) (o c : ℕ)
    → fits o c ≡ true
    → scan_back 0 (o ∷ before) after (c ∷ []) ≡ closed (length before)
unfolding scan_back back_char fits drop_right_angles
back-last before after o c h = ground arith

reversed_onto-append :
    (s t before : Text) → reversed_onto (s ++ t) before ≡ reversed_onto t (reversed_onto s before)
unfolding reversed_onto
reversed_onto-append [] t before = refl
reversed_onto-append (c ∷ s) t before = reversed_onto-append s t (c ∷ before)

length-reversed_onto :
    (s before : Text) → length (reversed_onto s before) ≡ length s + length before
unfolding reversed_onto
length-reversed_onto [] before = omega arith
length-reversed_onto (c ∷ s) before = omega (arith, length-reversed_onto s (c ∷ before))

-- The scan passes over balanced text, with a bracket on the stack.
back-Balanced :
    {b : Text} (before after : Text) (t : ℕ) (stack : List ℕ)
    → Balanced b
    → scan_back 0 (reversed_onto b before) after (t ∷ stack)
      ≡ scan_back 0 before (b ++ after) (t ∷ stack)
unfolding reversed_onto
back-Balanced before after t stack empty = refl
back-Balanced before after t stack (plain {s} c h b) =
    back-Balanced (c ∷ before) after t stack b ∙ back-plain before (s ++ after) c (t ∷ stack) h
back-Balanced before after t stack (nest {b} {s} o c h k inner outer) =
    ap (λ r. scan_back 0 r after (t ∷ stack)) (reversed_onto-append b (c ∷ s) (o ∷ before))
    ∙ back-Balanced (c ∷ reversed_onto b (o ∷ before)) after t stack outer
    ∙ back-close (reversed_onto b (o ∷ before)) (s ++ after) o c (t ∷ stack) k
    ∙ back-Balanced (o ∷ before) (c ∷ (s ++ after)) c (t ∷ stack) inner
    ∙ back-open before (b ++ c ∷ (s ++ after)) o c t stack k
    ∙ ap (λ r. scan_back 0 before (o ∷ r) (t ∷ stack)) (sym (append_assoc b (c ∷ s) after))

take-append : (s t : Text) → take (length s) (s ++ t) ≡ s
take-append [] [] = refl
take-append [] (_ ∷ _) = refl
take-append (c ∷ s) t = ap (λ r. c ∷ r) (take-append s t)

-- From the bracket that closes balanced text, the place found is the one of the bracket that
-- opens it, whatever stands in front of it and behind.
pub find_start-Balanced :
    {b : Text} (front : Text) (o c : ℕ) (rest : Text)
    → fits o c ≡ true
    → Balanced b
    → find_start_of_expression_in_line
        ((front ++ o ∷ (b ++ c ∷ [])) ++ rest)
        (length front + length b + 1)
        []
      ≡ closed (length front)
unfolding find_start_of_expression_in_line reversed_onto
find_start-Balanced {b} front o c rest k inner =
    let line = front ++ o ∷ (b ++ c ∷ []) in
    let after = drop (length front + length b + 1 + 1) (line ++ rest) in
    let up_to : take (length front + length b + 1 + 1) (line ++ rest) ≡ line =
      ap (λ n. take n (line ++ rest))
        (omega (arith, length-append front (o ∷ (b ++ c ∷ [])), length-append b (c ∷ [])))
      ∙ take-append line rest in
    ap (λ s. scan_back 0 (reversed_onto s []) after []) up_to
    ∙ ap (λ s. scan_back 0 s after [])
        (reversed_onto-append front (o ∷ (b ++ c ∷ [])) []
          ∙ reversed_onto-append b (c ∷ []) (o ∷ reversed_onto front []))
    ∙ back-close (reversed_onto b (o ∷ reversed_onto front [])) after o c [] k
    ∙ back-Balanced (o ∷ reversed_onto front []) (c ∷ after) c [] inner
    ∙ back-last (reversed_onto front []) (b ++ c ∷ after) o c k
    ∙ ap closed (length-reversed_onto front [] ∙ omega arith)
