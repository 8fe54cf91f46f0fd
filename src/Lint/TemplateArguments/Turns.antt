-- ===== src/Lint/TemplateArguments/Turns.antt =====
-- The loop of `InTemplateArgumentList` goes towards the end of the file.
use simpledb.Prelude.{
  length-drop, ℕ, zero, suc, ◌+◌, ◌-◌, ◌≤◌, ◌<◌, ◌≡◌, Bool, true, false, List, [], ◌∷◌, Option,
  none, some, ◌==◌, leb, refl, arith, get_elem?, drop, length, ap, Bool-cases, Option-cases, inl,
  inr,
}
use simpledb.Prelude.Text.{Text}
use simpledb.Lint.Brackets.{Expression, close_expression}
use simpledb.Lint.Brackets.Ends.{EndsBehind, close_expression-EndsBehind, close_expression-some}
use simpledb.Lint.TemplateArguments.{
  ends_declaration, shows_template, Turn, answer, go_on, match_token, see_token, turn,
  in_template_from, in_template_argument_list, size, next_place, after_expression,
}

-- What is left of the file behind a place.
abbrev pub left : List Text → ℕ → ℕ → ℕ
left lines linenum pos = size (drop linenum lines) - pos

match_token_bounds :
    (s : Text) (token n : ℕ) → match_token s ≡ some (token, n) → (0 < n) × (n ≤ length s)
unfolding match_token
match_token_bounds [] token n e = absurd (cc)
match_token_bounds (c ∷ []) token n e = ground arith
match_token_bounds (c ∷ d ∷ s) token n e = elim (Option-cases (match_token (d ∷ s))) [
  | inl missing ↦ ground arith
  | inr ((token', n'), found) ↦ ground (arith, match_token_bounds (d ∷ s) token' n' found)
]

-- A place inside of its line, or behind the last line.
abbrev pub IsPlace : List Text → ℕ → ℕ → Type 0
IsPlace elided linenum pos =
    (line : Text) → get_elem? elided linenum ≡ some line → pos ≤ length line

-- A round of the loop answers, or comes nearer to the end of the file.
data Goes (elided : List Text) (linenum pos : ℕ) (t : Turn) : Type 0 where
  answers : (b : Bool) → t ≡ answer b → Goes elided linenum pos t
  goes :
      (linenum' pos' : ℕ)
      → t ≡ go_on linenum' pos'
      → IsPlace elided linenum' pos'
      → left elided linenum' pos' < left elided linenum pos
      → Goes elided linenum pos t

size-drop-here :
    (l : List Text) (k : ℕ) {x : Text}
    → get_elem? l k ≡ some x
    → size (drop k l) ≡ suc (length x) + size (drop (suc k) l)
size-drop-here [] k e = absurd (cc)
size-drop-here (y ∷ l) zero {x} e = let same : length y ≡ length x = ap length (cc) in omega arith
size-drop-here (y ∷ l) (suc k) e = size-drop-here l k e

size-drop-le : (l : List Text) (j k : ℕ) → k ≤ j → size (drop j l) ≤ size (drop k l)
size-drop-le [] zero zero h = omega arith
size-drop-le [] zero (suc k) h = omega arith
size-drop-le [] (suc j) zero h = omega arith
size-drop-le [] (suc j) (suc k) h = omega arith
size-drop-le (y ∷ l) zero zero h = omega arith
size-drop-le (y ∷ l) zero (suc k) h = absurd (omega arith)
size-drop-le (y ∷ l) (suc j) zero h = omega (arith, size-drop-le l j zero)
size-drop-le (y ∷ l) (suc j) (suc k) h = size-drop-le l j k (omega arith)

module _ (elided : List Text) (linenum pos : ℕ) (line : Text)
    (at : get_elem? elided linenum ≡ some line) (inside : pos ≤ length line) where
  next_line-Goes : Goes elided linenum pos (go_on (suc linenum) 0)
  next_line-Goes =
      goes (suc linenum) 0 refl (λ l e. omega arith)
        (omega (arith, size-drop-here elided linenum at))

  same_line-Goes : (q : ℕ) → pos < q → q ≤ length line → Goes elided linenum pos (go_on linenum q)
  same_line-Goes q lo hi =
      goes linenum q refl (λ l e. let same : length l ≡ length line = ap length (cc) in omega arith)
        (omega (arith, size-drop-here elided linenum at))

  EndsBehind-Goes :
      (start linenum' q : ℕ)
      → pos ≤ start
      → EndsBehind elided linenum start line linenum' q
      → Goes elided linenum pos (go_on linenum' q)
  EndsBehind-Goes start linenum' q h (inl (same, lo, hi)) =
      rw same (same_line-Goes q (omega arith) hi)
  EndsBehind-Goes start linenum' q h (inr (later, line', at', hi)) =
      goes linenum' q refl
        (λ l e. let same : length l ≡ length line' = ap length (cc) in omega arith)
        (omega
          (arith, size-drop-here elided linenum at, size-drop-le elided linenum' (suc linenum)))

  next_place-Goes :
      (p : ℕ) → pos ≤ p → p ≤ length line → Goes elided linenum pos (next_place line linenum p)
  unfolding next_place
  next_place-Goes p lo hi = elim (Bool-cases (leb (length line) (suc p))) [
    | inl last ↦ rw last next_line-Goes
    | inr more ↦ rw more (same_line-Goes (suc p) (omega arith) (ground arith))
  ]

  after_expression-Goes :
      (start : ℕ) (ex : Expression)
      → pos ≤ start
      → close_expression elided linenum start ≡ some ex
      → (q : Option ℕ) → ex.pos ≡ q
      → Goes elided linenum pos (after_expression ex q)
  unfolding after_expression
  after_expression-Goes start ex h e none found = answers false refl
  after_expression-Goes start ex h e (some q) found =
      EndsBehind-Goes start ex.linenum q h
        (close_expression-EndsBehind elided linenum start q line at e found)

  see_token-Goes :
      (token n : ℕ)
      → 0 < n
      → pos + n ≤ length line
      → (t : Turn) × (see_token elided line linenum (pos + n) token ≡ some t)
        × Goes elided linenum pos t
  unfolding see_token
  see_token-Goes token n some_chars fits = elim (Bool-cases (ends_declaration token)) [
    | inl e ↦ (answer false, ground arith, answers false refl)
    | inr e ↦ elim (Bool-cases (shows_template token)) [
      | inl e' ↦ (answer true, ground arith, answers true refl)
      | inr e' ↦ elim (Bool-cases (token == b'<')) [
        | inl angle ↦
            let start = pos + n - 1 in
            let (ex, found) = close_expression-some elided linenum start line at (omega arith) in
            (
              after_expression ex ex.pos,
              ground arith,
              after_expression-Goes start ex (omega arith) found ex.pos refl,
            )
        | inr other ↦ (
          next_place line linenum (pos + n),
          ground arith,
          next_place-Goes (pos + n) (omega arith) fits,
        )
      ]
    ]
  ]

  turn-Goes : (t : Turn) × (turn elided line linenum pos ≡ some t) × Goes elided linenum pos t
  unfolding turn
  turn-Goes = elim (Option-cases (match_token (drop pos line))) [
    | inl missing ↦ (go_on (suc linenum) 0, rw (missing, turn) refl, next_line-Goes)
    | inr ((token, n), found) ↦
        let (some_chars, fits) = match_token_bounds (drop pos line) token n found in
        let (t, e, g) = see_token-Goes token n some_chars (omega (arith, length-drop pos line)) in
        (t, rw (found, turn) e, g)
  ]

in_template_from-some :
    (fuel : ℕ) (elided : List Text) (linenum pos : ℕ)
    → IsPlace elided linenum pos
    → left elided linenum pos < fuel
    → (b : Bool) × (in_template_from fuel elided linenum pos ≡ some b)
unfolding in_template_from
in_template_from-some zero elided linenum pos place enough = absurd (omega arith)
in_template_from-some (suc fuel) elided linenum pos place enough =
    elim (Option-cases (get_elem? elided linenum)) [
      | inl end ↦ (false, rw (end, in_template_from) refl)
      | inr (line, at) ↦
          let (t, e, g) = turn-Goes elided linenum pos line at (place line at) in
          elim g [
            | answers b same ↦ (b, ground arith)
            | goes linenum' pos' same place' nearer ↦
                let (b, e') =
                  in_template_from-some fuel elided linenum' pos' place' (omega arith) in
                (b, ground arith)
          ]
    ]

-- From every place inside of its line, the search for a template argument list ends with an
-- answer.
pub in_template_argument_list-some :
    (elided : List Text) (linenum pos : ℕ)
    → IsPlace elided linenum pos
    → (b : Bool) × (in_template_argument_list elided linenum pos ≡ some b)
unfolding in_template_argument_list
in_template_argument_list-some elided linenum pos place =
    in_template_from-some (suc (size elided)) elided linenum pos place
      (omega (arith, size-drop-le elided linenum 0))
