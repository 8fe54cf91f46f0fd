-- ===== src/Lint/Classes/LastLine.antt =====
-- Where `_ClassInfo.__init__` finds the end of the class.
use simpledb.Prelude.{
  subst, ℕ, zero, suc, ◌+◌, ◌<◌, ◌≡◌, ◌≢◌, List, [], ◌∷◌, some, ◌==◌, arith, refl, length, take,
  drop, Bool-cases, inl, inr, get_elem?, Option-cases,
}
use simpledb.Prelude.Int.{pos, sub_ℕ, ◌+ℤ◌, ◌-ℤ◌, int_eq}
use simpledb.Prelude.Text.{Text}
use simpledb.Lint.Classes.{count, last_line_from, ClassInfo, init}

-- How often `c` stands in the lines.
abbrev pub total : ℕ → List Text → ℕ
total c [] = 0
total c (line ∷ lines) = count c line + total c lines

-- As many braces have been closed as opened after `k + 1` lines.
abbrev pub Closes : ℕ → ℕ → List Text → ℕ → Type 0
Closes a b lines k = a + total b'{' (take (suc k) lines) ≡ b + total b'}' (take (suc k) lines)

-- What is noted for the lines from `start` on, when `a` braces were opened before them and `b`
-- were closed: the first line after which all are closed, or 0 when there is none.
pub data FindsEnd (a b start : ℕ) (lines : List Text) (r : ℕ) : Type 0 where
  ends :
      (k : ℕ)
      → r ≡ start + k
      → k < length lines
      → Closes a b lines k
      → ((j : ℕ) → j < k → ¬ Closes a b lines j)
      → FindsEnd a b start lines r
  open_end :
      r ≡ 0 → ((j : ℕ) → j < length lines → ¬ Closes a b lines j) → FindsEnd a b start lines r

depth_step : (a b x y : ℕ) → sub_ℕ a b +ℤ (pos x -ℤ pos y) ≡ sub_ℕ (a + x) (b + y)
unfolding ◌+ℤ◌ ◌-ℤ◌
depth_step a b x y = ground arith

sub-eq-zero : (a b : ℕ) → int_eq (sub_ℕ a b) (pos 0) ≡ (a == b)
unfolding int_eq
sub-eq-zero a b = ground arith

not-Closes-later :
    (a b : ℕ) (line : Text) (lines : List Text) (k : ℕ)
    → a + count b'{' line ≢ b + count b'}' line
    → ((j : ℕ) → j < k → ¬ Closes (a + count b'{' line) (b + count b'}' line) lines j)
    → (j : ℕ) → j < suc k
    → ¬ Closes a b (line ∷ lines) j
not-Closes-later a b line lines k here later zero h c = here (omega arith)
not-Closes-later a b line lines k here later (suc j) h c = later j (omega arith) (omega arith)

FindsEnd-later :
    (a b start : ℕ) (line : Text) (lines : List Text) (r : ℕ)
    → a + count b'{' line ≢ b + count b'}' line
    → FindsEnd (a + count b'{' line) (b + count b'}' line) (suc start) lines r
    → FindsEnd a b start (line ∷ lines) r
FindsEnd-later a b start line lines r here (ends k e h c before) =
    ends (suc k) (omega arith) (omega arith) (omega arith)
      (not-Closes-later a b line lines k here before)
FindsEnd-later a b start line lines r here (open_end e none_later) =
    open_end e (not-Closes-later a b line lines (length lines) here none_later)

last_line_from-FindsEnd :
    (a b start : ℕ) (lines : List Text)
    → FindsEnd a b start lines (last_line_from start (sub_ℕ a b) lines)
unfolding last_line_from
last_line_from-FindsEnd a b start [] = open_end refl (λ j h c. absurd (omega arith))
last_line_from-FindsEnd a b start (line ∷ lines) =
    let x = count b'{' line in
    let y = count b'}' line in
    rw (depth_step a b x y, sub-eq-zero (a + x) (b + y))
      (elim (Bool-cases (a + x == b + y)) [
        | inl same ↦
            rw same
              (ends 0 (omega arith) (omega arith) (ground arith) (λ j h c. absurd (omega arith)))
        | inr other ↦ rw other (
            FindsEnd-later a b start line lines _ (ground arith)
              (last_line_from-FindsEnd (a + x) (b + y) (suc start) lines))
      ])

-- The last line that the constructor of a class notes is the first one, from the line of the class
-- on, after which as many braces have been closed as opened; or 0 when there is none.
pub init-FindsEnd :
    (name class_or_struct : Text) (raw_lines elided : List Text) (linenum : ℕ) {info : ClassInfo}
    → init name class_or_struct raw_lines elided linenum ≡ some info
    → FindsEnd 0 0 linenum (drop linenum elided) info.last_line
unfolding init
init-FindsEnd name class_or_struct raw_lines elided linenum {info} e =
    elim (Option-cases (get_elem? raw_lines linenum)) [
      | inl missing ↦ absurd (ground arith)
      | inr (raw, found) ↦
          subst (FindsEnd 0 0 linenum (drop linenum elided)) (ground arith)
            (last_line_from-FindsEnd 0 0 linenum (drop linenum elided))
    ]
