-- ===== src/Lint/TemplateArguments.antt =====
-- `NestingState.InTemplateArgumentList`, over the elided lines.
pub mod Turns
use simpledb.Prelude.{
  ℕ, zero, suc, ◌+◌, ◌-◌, Bool, true, false, ◌||◌, List, [], ◌∷◌, Option, none, some, ◌==◌, leb,
  if◌then◌else◌, get_elem?, drop, length,
}
use simpledb.Prelude.Bytes.{◌>>=◌}
use simpledb.Prelude.Text.{Text}
use simpledb.Lint.Brackets.{Expression, close_expression}

-- `{`, `}` and `;`
unfoldable pub ends_declaration : ℕ → Bool
ends_declaration c = c == b'{' || c == b'}' || c == b';'

-- `>`, `=`, `[`, `]` and `.`
unfoldable pub shows_template : ℕ → Bool
shows_template c = c == b'>' || c == b'=' || c == b'[' || c == b']' || c == b'.'

unfoldable pub is_special : ℕ → Bool
unfolding ends_declaration shows_template
is_special c = ends_declaration c || shows_template c || c == b'<'

-- The pattern `^[^{};=\[\]\.<>]*(.)`: the group, and the length of the match. Without a special
-- character the group is the last one.
unfoldable pub match_token : Text → Option (ℕ × ℕ)
unfolding is_special
match_token [] = none
match_token (c ∷ []) = some (c, 1)
match_token (c ∷ d ∷ s) =
    let later = match_token (d ∷ s) >>= λ m. some (m.0, suc m.1) in
    if is_special c then some (c, 1) else later

-- What one round of the loop does: it answers, or goes on at another place.
pub data Turn : Type 0 where
  answer : Bool → Turn
  go_on : ℕ → ℕ → Turn

after_expression : Expression → Option ℕ → Turn
after_expression e none = answer false
after_expression e (some end_pos) = go_on e.linenum end_pos

-- Behind a token that is not special, at its position.
unfoldable pub next_place : Text → ℕ → ℕ → Turn
next_place line linenum pos =
    if leb (length line) (suc pos) then go_on (suc linenum) 0 else go_on linenum (suc pos)

-- The token at `pos - 1`; `none` is an index that is out of range.
unfoldable pub see_token : List Text → Text → ℕ → ℕ → ℕ → Option Turn
unfolding ends_declaration shows_template after_expression next_place
see_token elided line linenum pos token =
    if ends_declaration token
    then some (answer false)
    else if shows_template token
    then some (answer true)
    else if token == b'<'
    then (close_expression elided linenum (pos - 1) >>= λ e. some (after_expression e e.pos))
    else some (next_place line linenum pos)

unfoldable pub turn : List Text → Text → ℕ → ℕ → Option Turn
unfolding match_token see_token
turn elided line linenum pos = elim (match_token (drop pos line)) [
  | none ↦ some (go_on (suc linenum) 0)
  | some (token, n) ↦ see_token elided line linenum (pos + n) token
]

-- The loop; `none` is a fault, or that the fuel runs out.
unfoldable pub in_template_from : ℕ → List Text → ℕ → ℕ → Option Bool
unfolding turn
in_template_from zero elided linenum pos = none
in_template_from (suc fuel) elided linenum pos = elim (get_elem? elided linenum) [
  | none ↦ some false
  | some line ↦
      (turn elided line linenum pos >>= λ t. elim t [
        | answer b ↦ some b
        | go_on linenum' pos' ↦ in_template_from fuel elided linenum' pos'
      ])
]

-- The characters of the lines, with an end for each line.
abbrev pub size : List Text → ℕ
size [] = 0
size (line ∷ lines) = suc (length line) + size lines

unfoldable pub in_template_argument_list : List Text → ℕ → ℕ → Option Bool
unfolding in_template_from
in_template_argument_list elided linenum pos =
    in_template_from (suc (size elided)) elided linenum pos
