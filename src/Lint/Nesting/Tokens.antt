-- ===== src/Lint/Nesting/Tokens.antt =====
-- What `NestingState.Update` does with the parentheses and the braces of a line.
use simpledb.Prelude.{
  ℕ, suc, ◌==◌, Bool, true, false, not, ◌&&◌, ◌||◌, List, [], ◌∷◌, Option, none, some,
  if◌then◌else◌,
}
use simpledb.Prelude.Int.{ℤ, pos, int_eq, ◌+ℤ◌, sub_ℕ}
use simpledb.Prelude.Text.{Text, codes, is_space, lstrip}
use simpledb.Lint.Namespaces.{block_info, extern_c_info}
use simpledb.Lint.Nesting.{
  Asm, no_asm, inside_asm, end_asm, block_asm, Stack, open_block, has_seen_open_brace,
}
use simpledb.Lint.Strings.{behind}

abbrev count_char : ℕ → Text → ℕ
count_char c [] = 0
count_char c (d ∷ s) = if d == c then suc (count_char c s) else count_char c s

abbrev opens_asm : Text → Bool
opens_asm [] = false
opens_asm (c ∷ _) = c == b'{' || c == b'('

abbrev starts_in_space : Text → Bool
unfolding is_space
starts_in_space [] = false
starts_in_space (c ∷ _) = is_space c

-- One of the words, and then what the test says of the rest.
unfoldable any_word : List Text → (Text → Bool) → Text → Bool
unfolding behind
any_word [] test s = false
any_word (word ∷ words) test s =
    (elim (behind word s) [ none ↦ false | some rest ↦ test rest ]) || any_word words test s

-- `_MATCH_ASM`
unfoldable pub match_asm : Text → Bool
unfolding lstrip any_word starts_in_space
match_asm line =
    any_word (codes "asm" ∷ codes "_asm" ∷ codes "__asm" ∷ codes "__asm__" ∷ [])
      (λ rest.
        opens_asm (lstrip rest)
        || (starts_in_space rest
            && any_word (codes "volatile" ∷ codes "__volatile__" ∷ [])
                (λ more. opens_asm (lstrip more)) (lstrip rest)))
      (lstrip line)

-- The next state of inline assembly, from the change of the depth and the open parentheses.
unfoldable pub next_asm : Text → ℤ → ℤ → Asm → Asm
unfolding int_eq match_asm
next_asm line change depth no_asm =
    if not (int_eq change (pos 0)) && int_eq depth (pos 1) && match_asm line
    then inside_asm
    else no_asm
next_asm line change depth end_asm =
    if not (int_eq change (pos 0)) && int_eq depth (pos 1) && match_asm line
    then inside_asm
    else no_asm
next_asm line change depth inside_asm = if int_eq depth (pos 0) then end_asm else inside_asm
next_asm line change depth block_asm = block_asm

-- The count of the parentheses in `Update`.
unfoldable pub update_parentheses : Text → Stack → Stack
unfolding next_asm ◌+ℤ◌
update_parentheses line [] = []
update_parentheses line (top ∷ below) =
    let depth_change = sub_ℕ (count_char b'(' line) (count_char b')' line) in
    let depth = top.open_parentheses +ℤ depth_change in
    record top {
      open_parentheses = depth;
      inline_asm = next_asm line depth_change depth top.inline_asm;
    }
    ∷ below

abbrev up_to_quote : Text → Option Text
up_to_quote [] = none
up_to_quote (c ∷ s) = if c == b'"' then some s else up_to_quote s

-- `^extern\s*"[^"]*"\s*\{`
unfoldable pub match_extern : Text → Bool
unfolding behind lstrip
match_extern line = elim (behind (codes "extern") line) [
  | none ↦ false
  | some s ↦ elim (behind (codes "\"") (lstrip s)) [
    | none ↦ false
    | some body ↦ elim (up_to_quote body) [
      | none ↦ false
      | some rest ↦ elim (lstrip rest) [ [] ↦ false | c ∷ _ ↦ c == b'{' ]
    ]
  ]
]

-- `{`: it belongs to the innermost block, or opens a new one.
unfoldable pub open_brace : ℕ → Text → Stack → Stack
unfolding match_extern match_asm open_block
open_brace linenum line [] =
    (if match_extern line
      then open_block extern_c_info [] linenum true
      else record (open_block block_info [] linenum true) {
        inline_asm = if match_asm line then block_asm else no_asm;
      })
    ∷ []
open_brace linenum line (top ∷ below) =
    if not top.seen_open_brace
    then record top { seen_open_brace = true } ∷ below
    else (if match_extern line
        then open_block extern_c_info [] linenum true
        else record (open_block block_info [] linenum true) {
          inline_asm = if match_asm line then block_asm else no_asm;
        })
      ∷ top
      ∷ below

abbrev pub pop : Stack → Stack
pop [] = []
pop (_ ∷ below) = below

abbrev pub is_token : ℕ → Bool
is_token c = c == b'{' || c == b';' || c == b')' || c == b'}'

-- One turn of the loop over the braces, on the token and the line from the last token on.
unfoldable pub consume_token : ℕ → Text → ℕ → Stack → Stack
unfolding open_brace
consume_token linenum line token stack =
    if token == b'{'
    then open_brace linenum line stack
    else if token == b';' || token == b')'
    then (if not (has_seen_open_brace stack) then pop stack else stack)
    else pop stack

-- The loop, with the characters of `line` that are still to be looked at.
unfoldable pub consume_braces : ℕ → Text → Text → Stack → Stack
unfolding consume_token
consume_braces linenum line [] stack = stack
consume_braces linenum line (c ∷ s) stack =
    if is_token c
    then consume_braces linenum s s (consume_token linenum line c stack)
    else consume_braces linenum line s stack
