-- ===== src/Lint/Brackets/Ends.antt =====
-- Where `CloseExpression` can end: behind the place where it starts.
use simpledb.Prelude.{
  take, subst, ltb, ◌&&◌, ◌||◌, zero, Bool, true, false, ℕ, suc, ◌+◌, ◌≤◌, ◌<◌, ◌≡◌, ◌⊎◌, refl, ap,
  ◌∙◌, List, [], ◌∷◌, some, ◌==◌, if◌then◌else◌, arith, length, get_elem?, drop, length-drop,
  Bool-cases, Option-cases, inl, inr,
}
use mathlib.Core.List.{reverse}
use simpledb.Prelude.Text.{Text}
use simpledb.Lint.Brackets.{
  Expression, Scan, closed, failed, unclosed, Move, go, stop, scan_char, scan_line,
  find_end_of_expression_in_line, close_in_lines, close_expression, opens, popped, left_shift,
  close_bracket, close_angle, drop_angles, is_open, is_close, previous_is, ends_in_operator,
  after_prefix,
}

popped-closed : (k : Scan) (st : List ℕ) (n : ℕ) → popped k st ≡ stop (closed n) → k ≡ closed n
unfolding popped
popped-closed k [] n e = ground arith
popped-closed k (t ∷ st) n e = absurd (ground arith)

left_shift-closed : (st : List ℕ) (n : ℕ) → ¬ (left_shift st ≡ stop (closed n))
unfolding left_shift
left_shift-closed [] n e = ground arith
left_shift-closed (t ∷ st) n e = ground (arith, popped-closed failed st n)

close_bracket-closed :
    (i c : ℕ) (st : List ℕ) (n : ℕ) → close_bracket i c st ≡ stop (closed n) → n ≡ suc i
unfolding close_bracket
close_bracket-closed i c [] n e = absurd (ground arith)
close_bracket-closed i c (t ∷ st) n e = ground (arith, popped-closed (closed (i + 1)) st n)

close_angle-closed : (i : ℕ) (st : List ℕ) (n : ℕ) → close_angle i st ≡ stop (closed n) → n ≡ suc i
unfolding close_angle
close_angle-closed i [] n e = absurd (ground arith)
close_angle-closed i (t ∷ st) n e = ground (arith, popped-closed (closed (i + 1)) st n)

-- A move that stops with the end at `n` does so at `k`.
abbrev StopsAt : ℕ → ℕ → Move → Type 0
StopsAt n k m = m ≡ stop (closed n) → n ≡ k

if-StopsAt :
    (n k : ℕ) (b : Bool) {x y : Move}
    → StopsAt n k x
    → StopsAt n k y
    → StopsAt n k (if b then x else y)
if-StopsAt n k true hx hy = hx
if-StopsAt n k false hx hy = hy

go-StopsAt : (n k : ℕ) (st : List ℕ) → StopsAt n k (go st)
go-StopsAt n k st e = absurd (ground arith)

failed-StopsAt : (n k : ℕ) (st : List ℕ) → StopsAt n k (popped failed st)
failed-StopsAt n k st e = absurd (ground (arith, popped-closed failed st n))

scan_char-closed :
    (i : ℕ) (before : List ℕ) (c : ℕ) (stack : List ℕ) (n : ℕ)
    → StopsAt n (suc i) (scan_char i before c stack)
unfolding scan_char
scan_char-closed i before c stack n =
    let k = suc i in
    if-StopsAt n k (is_open c) (go-StopsAt n k (c ∷ stack)) (
      if-StopsAt n k (c == b'<')
        (if-StopsAt n k (previous_is b'<' before) (λ e. absurd (left_shift-closed stack n e))
          (if-StopsAt n k (ends_in_operator before) (go-StopsAt n k stack)
            (go-StopsAt n k (b'<' ∷ stack))))
        (if-StopsAt n k (is_close c) (close_bracket-closed i c (drop_angles stack) n) (
          if-StopsAt n k (c == b'>')
            (if-StopsAt n k
              (previous_is b'-' before || (ltb 0 i && ends_in_operator (after_prefix before)))
              (go-StopsAt n k stack) (close_angle-closed i stack n))
            (if-StopsAt n k (c == b';') (failed-StopsAt n k (drop_angles stack))
              (go-StopsAt n k stack)))))

-- A scan that finds the end finds it behind the character where it starts.
scan_line-lt :
    (i : ℕ) (before : List ℕ) (s : Text) (stack : List ℕ) (n : ℕ)
    → scan_line i before s stack ≡ closed n
    → (i < n) × (n ≤ i + length s)
unfolding scan_line
scan_line-lt i before [] stack n e = absurd (ground arith)
scan_line-lt i before (c ∷ s) stack n e =
    go_move (λ stack'. scan_line-lt (i + 1) (c ∷ before) s stack' n) (scan_char i before c stack)
      refl e
  where
    go_move :
        ((stack' : List ℕ)
          → scan_line (i + 1) (c ∷ before) s stack' ≡ closed n
          → (i + 1 < n) × (n ≤ i + 1 + length s))
        → (m : Move) → scan_char i before c stack ≡ m
        → elim m as (λ _. Scan) [
          | go stack' ↦ scan_line (i + 1) (c ∷ before) s stack'
          | stop result ↦ result
        ]
          ≡ closed n
        → (i < n) × (n ≤ i + suc (length s))
    go_move ih (go stack') e' e = let (a, b) = ih stack' e in (omega arith, omega arith)
    go_move ih (stop result) e' e =
        let same = scan_char-closed i before c stack n (e' ∙ ap stop e) in
        (omega arith, omega arith)

drop-cons {ℓ} :
    {A : Type ℓ} (k : ℕ) (l : List A) {x : A} {r : List A}
    → drop k l ≡ x ∷ r
    → (get_elem? l k ≡ some x) × (drop (suc k) l ≡ r)
drop-cons zero [] e = absurd (cc)
drop-cons zero (y ∷ l) e = (cc, cc)
drop-cons (suc k) [] e = absurd (cc)
drop-cons (suc k) (y ∷ l) e = drop-cons k l e

-- The end stands on the line where the search starts, behind the start, or on a later line.
abbrev pub EndsBehind : List Text → ℕ → ℕ → Text → ℕ → ℕ → Type 0
EndsBehind elided linenum start line linenum' q =
    ((linenum' ≡ linenum) × (start < q) × (q ≤ length line))
    ⊎ ((linenum < linenum')
        × (line' : Text) × (get_elem? elided linenum' ≡ some line')
        × (q ≤ length line'))

close_in_lines-EndsBehind :
    (elided : List Text) (num_lines start : ℕ) (line : Text) (linenum : ℕ) (rest : List Text)
    (scan : Scan) (q : ℕ)
    → drop (suc linenum) elided ≡ rest
    → ((n : ℕ) → scan ≡ closed n → (start < n) × (n ≤ length line))
    → (close_in_lines line linenum rest num_lines scan).pos ≡ some q
    → EndsBehind elided linenum start line
        (close_in_lines line linenum rest num_lines scan).linenum
        q
unfolding close_in_lines
close_in_lines-EndsBehind elided num start line linenum rest (closed n) q d bound e =
    let same : n ≡ q = cc in let (lo, hi) = bound n refl in inl (refl, omega arith, omega arith)
close_in_lines-EndsBehind elided num start line linenum rest failed q d bound e = absurd (cc)
close_in_lines-EndsBehind elided num start line linenum rest (unclosed []) q d bound e = absurd (cc)
close_in_lines-EndsBehind elided num start line linenum [] (unclosed (t ∷ st)) q d bound e =
    absurd (cc)
close_in_lines-EndsBehind elided num start line linenum (next ∷ rest) (unclosed (t ∷ st)) q d bound
      e =
    let (here, behind) = drop-cons (suc linenum) elided d in
    let one : linenum + 1 ≡ suc linenum = omega arith in
    elim (close_in_lines-EndsBehind elided num 0 next (linenum + 1) rest
      (find_end_of_expression_in_line next 0 (t ∷ st)) q (rw one behind)
      (λ n found.
        let (lo, hi) =
          scan_line-lt 0 [] next (t ∷ st) n (unfold find_end_of_expression_in_line in found) in
        (lo, omega arith))
      e) [
        | inl (same, lo, hi) ↦ inr (omega arith, next, rw same (rw one here), hi)
        | inr (later, line', at, hi) ↦ inr (omega arith, line', at, hi)
      ]

get_elem?-lt {ℓ} : {A : Type ℓ} (l : List A) (i : ℕ) {a : A} → get_elem? l i ≡ some a → i < length l
get_elem?-lt [] i e = absurd (cc)
get_elem?-lt (x ∷ l) zero e = omega arith
get_elem?-lt (x ∷ l) (suc i) e = omega (arith, get_elem?-lt l i e)

scan_bounds :
    (line : Text) (start c : ℕ)
    → get_elem? line start ≡ some c
    → (n : ℕ) → find_end_of_expression_in_line line start [] ≡ closed n
    → (start < n) × (n ≤ length line)
unfolding find_end_of_expression_in_line
scan_bounds line start c inside n e =
    let (lo, hi) = scan_line-lt start (reverse (take start line)) (drop start line) [] n e in
    (lo, omega (arith, get_elem?-lt line start inside, length-drop start line))

-- An expression that is closed ends behind its opening.
pub close_expression-EndsBehind :
    (elided : List Text) (linenum start q : ℕ) (line : Text) {ex : Expression}
    → get_elem? elided linenum ≡ some line
    → close_expression elided linenum start ≡ some ex
    → ex.pos ≡ some q
    → EndsBehind elided linenum start line ex.linenum q
unfolding close_expression
close_expression-EndsBehind elided linenum start q line {ex} at e found =
    elim (Option-cases (get_elem? line start)) [
      | inl missing ↦ absurd (ground arith)
      | inr (c, inside) ↦ elim (Bool-cases (opens (drop start line))) [
        | inl opened ↦
            let scan = find_end_of_expression_in_line line start [] in
            let found_end =
              close_in_lines line linenum (drop (linenum + 1) elided) (length elided) scan in
            let same : found_end ≡ ex = ground arith in
            subst (λ (x : Expression). EndsBehind elided linenum start line x.linenum q) same
              (close_in_lines-EndsBehind elided (length elided) start line linenum
                (drop (linenum + 1) elided) scan q
                (ap (λ (k : ℕ). drop k elided)
                  (let one : suc linenum ≡ linenum + 1 = omega arith in one))
                (scan_bounds line start c inside) (rw same found))
        | inr plain ↦ absurd (ground arith)
      ]
    ]

get_elem?-some {ℓ} :
    {A : Type ℓ} (l : List A) (i : ℕ) → i < length l → (a : A) × (get_elem? l i ≡ some a)
get_elem?-some [] i h = absurd (omega arith)
get_elem?-some (x ∷ l) zero h = (x, refl)
get_elem?-some (x ∷ l) (suc i) h = get_elem?-some l i (omega arith)

-- A search that starts inside of a line does not fault.
pub close_expression-some :
    (elided : List Text) (linenum start : ℕ) (line : Text)
    → get_elem? elided linenum ≡ some line
    → start < length line
    → (ex : Expression) × (close_expression elided linenum start ≡ some ex)
unfolding close_expression
close_expression-some elided linenum start line at inside =
    let (c, e) = get_elem?-some line start inside in
    elim (Option-cases (close_expression elided linenum start)) [
      | inl missing ↦ absurd (ground arith)
      | inr found ↦ found
    ]
