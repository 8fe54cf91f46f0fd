-- ===== src/Lint/TextInside.antt =====
-- `_GetTextInside`. The search for the pattern is a parameter: it gives the end of the match.
pub mod Nested
use simpledb.Prelude.{
  ℕ, zero, suc, List, [], ◌∷◌, Option, none, some, ◌==◌, if◌then◌else◌, get_elem?, drop,
}
use simpledb.Prelude.Bytes.{◌>>=◌}
use simpledb.Prelude.Text.{Text}
use simpledb.Lint.Brackets.{is_close}

-- `matching_punctuation`
unfoldable pub closing_of : ℕ → Option ℕ
closing_of c =
    if c == b'('
    then some b')'
    else if c == b'{'
    then some b'}'
    else if c == b'['
    then some b']'
    else none

-- The loop over the text: `top` is the closing punctuation on top of the stack, `below` are those
-- under it. The result is the text up to the closing that empties the stack.
unfoldable pub text_up_to : ℕ → List ℕ → Text → Option Text
unfolding closing_of is_close
text_up_to top below [] = none
text_up_to top below (c ∷ text) =
    let closed : Option Text = elim below [
      | [] ↦ some []
      | t ∷ ts ↦ (text_up_to t ts text >>= λ r. some (c ∷ r))
    ] in
    let inner : Option Text = elim (closing_of c) [
      | none ↦ (text_up_to top below text >>= λ r. some (c ∷ r))
      | some d ↦ (text_up_to d (top ∷ below) text >>= λ r. some (c ∷ r))
    ] in
    if c == top then closed else if is_close c then none else inner

-- `none` is a failed assertion on the pattern, `some none` is `None`.
start_inside : Option ℕ → Text → Option (Option Text)
start_inside none text = some none
start_inside (some zero) text = none
start_inside (some (suc n)) text = do
  c ← get_elem? text n
  d ← closing_of c
  some (text_up_to d [] (drop (suc n) text))

unfoldable pub get_text_inside : (Text → Option ℕ) → Text → Option (Option Text)
unfolding start_inside text_up_to
get_text_inside search_start text = start_inside (search_start text) text
