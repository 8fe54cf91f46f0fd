-- ===== src/Lint/Nesting/Braces.antt =====
-- Matched braces leave the stack of blocks as it was.
use mathlib.Core.List.{append_assoc, append-nil}
use simpledb.Prelude.{
  ℕ, ◌≡◌, refl, ap, sym, ◌∙◌, ◌==◌, true, false, [], ◌∷◌, ◌++◌, arith, Bool-cases, inl, inr,
}
use simpledb.Prelude.Text.{Text}
use simpledb.Lint.Nesting.{Stack, has_seen_open_brace, open_block}
use simpledb.Lint.Nesting.Tokens.{open_brace, pop, is_token, consume_token, consume_braces}

-- Text whose braces match; semicolons and parentheses may stand anywhere.
pub data Braces : Text → Type 0 where
  empty : Braces []
  other : {s : Text} (c : ℕ) → c == b'{' ≡ false → c == b'}' ≡ false → Braces s → Braces (c ∷ s)
  nest : {b s : Text} → Braces b → Braces s → Braces (b'{' ∷ (b ++ b'}' ∷ s))

-- The innermost block has its brace: the new one lies on it, and has its brace too.
open_brace-push :
    (linenum : ℕ) (line : Text) (stack : Stack)
    → has_seen_open_brace stack ≡ true
    → (pop (open_brace linenum line stack) ≡ stack)
      × (has_seen_open_brace (open_brace linenum line stack) ≡ true)
unfolding open_brace open_block
open_brace-push linenum line [] h = ground arith
open_brace-push linenum line (top ∷ below) h = rw h (ground arith)

separator :
    (linenum : ℕ) (line : Text) (c : ℕ) (stack : Stack)
    → is_token c ≡ true
    → c == b'{' ≡ false
    → c == b'}' ≡ false
    → has_seen_open_brace stack ≡ true
    → consume_token linenum line c stack ≡ stack
unfolding consume_token
separator linenum line c stack t p q h = rw (consume_token, p, h) (ground arith)

-- Text is passed over: the loop goes on behind it, with the same stack.
Passes : ℕ → Text → Text → Text → Stack → Type 0
Passes linenum line b rest stack =
    (line' : Text) × (consume_braces linenum line (b ++ rest) stack
      ≡ consume_braces linenum line' rest stack)

passes :
    {b : Text} (linenum : ℕ) (line rest : Text) (stack : Stack)
    → Braces b
    → has_seen_open_brace stack ≡ true
    → Passes linenum line b rest stack
unfolding Passes consume_braces consume_token
passes linenum line rest stack empty h = (line, refl)
passes linenum line rest stack (other {s} c p q v) h = elim (Bool-cases (is_token c)) [
  | inl t ↦
      let (line', e) = passes linenum (s ++ rest) rest stack v h in
      (line', rw (t, separator linenum line c stack t p q h) e)
  | inr t ↦ let (line', e) = passes linenum line rest stack v h in (line', rw t e)
]
passes linenum line rest stack (nest {b} {s} v w) h =
    let pushed = open_brace linenum line stack in
    let (popped, seen) = open_brace-push linenum line stack h in
    let whole = (b ++ (b'}' ∷ s)) ++ rest in
    let (line1, e1) = passes linenum whole (b'}' ∷ (s ++ rest)) pushed v seen in
    let (line2, e2) = passes linenum (s ++ rest) rest stack w h in
    (
      line2,
      ap (λ t. consume_braces linenum whole t pushed) (append_assoc b (b'}' ∷ s) rest)
          ∙ e1
          ∙ ap (consume_braces linenum (s ++ rest) (s ++ rest)) popped
          ∙ e2,
    )

-- A line whose braces match leaves the stack as it was, when the innermost block has had its brace:
-- whatever blocks the line opens, it closes, and its semicolons and parentheses close none.
pub consume_braces-Braces :
    {b : Text} (linenum : ℕ) (line : Text) (stack : Stack)
    → Braces b
    → has_seen_open_brace stack ≡ true
    → consume_braces linenum line b stack ≡ stack
unfolding Passes consume_braces
consume_braces-Braces {b} linenum line stack v h =
    let (line', e) = passes linenum line [] stack v h in
    ap (λ t. consume_braces linenum line t stack) (sym (append-nil b)) ∙ e
