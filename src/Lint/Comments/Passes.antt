-- ===== src/Lint/Comments/Passes.antt =====
-- The loop of `RemoveMultiLineComments` against one pass over the lines.
use simpledb.Prelude.{
  ℕ, zero, suc, ◌+◌, ◌≤◌, ◌<◌, ◌≡◌, refl, sym, ◌∙◌, ap, Bool, true, false, not, ◌||◌, List, [], ◌∷◌,
  ◌++◌, none, some, arith, length, drop, if◌then◌else◌, length-append, Bool-cases, inl, inr, ◌⊎◌,
}
use simpledb.Prelude.Text.{Text}
use mathlib.Core.List.{append_assoc}
use simpledb.Lint.Comments.{
  starts_comment, ends_comment, lines_before, find_next_start, find_next_end, dummy_comment,
  remove_range, remove_loop, remove_multi_line_comments,
}

-- One pass, with the flag that the line before it is inside of a comment: each line of a comment
-- becomes a dummy comment.
abbrev pub one_pass : Bool → List Text → List Text
one_pass inside [] = []
one_pass inside (line ∷ lines) =
    let within = one_pass (not (ends_comment line)) lines in
    let outside = one_pass false lines in
    if inside || starts_comment line then dummy_comment ∷ within else line ∷ outside

-- The lines end outside of a comment.
abbrev pub is_closed : Bool → List Text → Bool
is_closed inside [] = not inside
is_closed inside (line ∷ lines) =
    let within = is_closed (not (ends_comment line)) lines in
    let outside = is_closed false lines in if inside || starts_comment line then within else outside

abbrev dummies : List Text → List Text
dummies [] = []
dummies (_ ∷ lines) = dummy_comment ∷ dummies lines

length-dummies : (lines : List Text) → length (dummies lines) ≡ length lines
length-dummies [] = refl
length-dummies (_ ∷ lines) = omega (arith, length-dummies lines)

drop-onto : (front lines : List Text) → drop (length front) (front ++ lines) ≡ lines
drop-onto [] [] = refl
drop-onto [] (_ ∷ _) = refl
drop-onto (_ ∷ front) lines = drop-onto front lines

-- The lines up to the next comment over several lines; `after` is empty where there is none.
record Start (lines : List Text) : Type 0 where
  front : List Text
  after : List Text
  split : lines ≡ front ++ after
  before : lines_before starts_comment lines ≡ length front
  passed : one_pass false lines ≡ front ++ one_pass true after
  state : (after ≡ []) ⊎ (is_closed true after ≡ true)

start : (lines : List Text) → is_closed false lines ≡ true → Start lines
unfolding lines_before
start [] h = record {
  front = [];
  after = [];
  split = refl;
  before = refl;
  passed = refl;
  state = inl refl;
}
start (line ∷ lines) h = elim (Bool-cases (starts_comment line)) [
  | inl e ↦ record {
    front = [];
    after = line ∷ lines;
    split = refl;
    before = rw e refl;
    passed = rw e refl;
    state = inr (rw e at h);
  }
  | inr e ↦
      let s = start lines (rw e at h) in
      record {
        front = line ∷ s.front;
        after = s.after;
        split = ap (λ r. line ∷ r) s.split;
        before = rw e (omega (arith, s.before));
        passed = rw e (ap (λ r. line ∷ r) s.passed);
        state = s.state;
      }
]

-- The lines of the comment that is open.
record End (lines : List Text) : Type 0 where
  comment : List Text
  after : List Text
  split : lines ≡ comment ++ after
  before : lines_before ends_comment lines + 1 ≡ length comment
  passed : one_pass true lines ≡ dummies comment ++ one_pass false after
  state : is_closed false after ≡ true

end : (lines : List Text) → is_closed true lines ≡ true → End lines
unfolding lines_before
end [] h = cc
end (line ∷ lines) h = elim (Bool-cases (ends_comment line)) [
  | inl e ↦ record {
    comment = line ∷ [];
    after = lines;
    split = refl;
    before = rw e refl;
    passed = rw e refl;
    state = rw e at h;
  }
  | inr e ↦
      let s = end lines (rw e at h) in
      record {
        comment = line ∷ s.comment;
        after = s.after;
        split = ap (λ r. line ∷ r) s.split;
        before = rw e (omega (arith, s.before));
        passed = rw e (ap (λ r. dummy_comment ∷ r) s.passed);
        state = s.state;
      }
]

remove_range-lem :
    (front comment after : List Text) (last : ℕ)
    → last ≡ length front + length comment
    → remove_range (front ++ (comment ++ after)) (length front) last
      ≡ front ++ (dummies comment ++ after)
unfolding remove_range
remove_range-lem [] [] [] last e = refl
remove_range-lem [] [] (_ ∷ _) zero e = refl
remove_range-lem [] [] (_ ∷ _) (suc last) e = absurd (omega arith)
remove_range-lem [] (_ ∷ comment) after zero e = absurd (omega arith)
remove_range-lem [] (_ ∷ comment) after (suc last) e =
    ap (λ r. dummy_comment ∷ r) (remove_range-lem [] comment after last (omega arith))
remove_range-lem (line ∷ front) comment after zero e = absurd (omega arith)
remove_range-lem (line ∷ front) comment after (suc last) e =
    ap (λ r. line ∷ r) (remove_range-lem front comment after last (omega arith))

-- A round that finds a comment goes on behind it; one that finds none is the last.
module _ (fuel : ℕ) (lines : List Text) (lineix begin : ℕ)
    (first : find_next_start lines lineix ≡ begin) where
  step :
      (last : ℕ)
      → find_next_end lines begin ≡ last
      → lineix < length lines
      → begin < length lines
      → last < length lines
      → remove_loop (suc fuel) lines lineix
        ≡ remove_loop fuel (remove_range lines begin (last + 1)) (last + 1)
  unfolding remove_loop
  step last e l1 l2 l3 = rw (first, e) (ground arith)

  stop : length lines ≤ begin → remove_loop (suc fuel) lines lineix ≡ some (lines, none)
  unfolding remove_loop
  stop le = rw first (ground arith)

module _ (fuel : ℕ) (done front rest : List Text)
    (s : lines_before starts_comment (front ++ rest) ≡ length front) where
  begin-length : find_next_start (done ++ (front ++ rest)) (length done) ≡ length (done ++ front)
  unfolding find_next_start
  begin-length =
      ap (λ r. length done + lines_before starts_comment r) (drop-onto done (front ++ rest))
      ∙ ap (λ n. length done + n) s
      ∙ sym (length-append done front)

  behind : drop (length (done ++ front)) (done ++ (front ++ rest)) ≡ rest
  behind =
      ap (drop (length (done ++ front))) (sym (append_assoc done front rest))
      ∙ drop-onto (done ++ front) rest

-- One round, over the lines in front of a comment and the comment.
round :
    (fuel : ℕ) (done front comment after : List Text)
    → lines_before starts_comment (front ++ (comment ++ after)) ≡ length front
    → lines_before ends_comment (comment ++ after) + 1 ≡ length comment
    → remove_loop (suc fuel) (done ++ (front ++ (comment ++ after))) (length done)
      ≡ remove_loop fuel
          ((done ++ front) ++ (dummies comment ++ after))
          (length ((done ++ front) ++ dummies comment))
unfolding find_next_end
round fuel done front comment after s e =
    let lines = done ++ (front ++ (comment ++ after)) in
    let n = lines_before ends_comment (comment ++ after) in
    let last = length (done ++ front) + n in
    let size : length lines ≡ length done + (length front + (length comment + length after)) =
      omega (
        arith,
        length-append done (front ++ (comment ++ after)),
        length-append front (comment ++ after),
        length-append comment after,
      ) in
    let both = length-append done front in
    step fuel lines (length done) (length (done ++ front))
      (begin-length fuel done front (comment ++ after) s) last
      (ap (λ r. length (done ++ front) + lines_before ends_comment r)
        (behind fuel done front (comment ++ after) s))
      (omega arith) (omega arith) (omega arith)
    ∙ ap (λ r. remove_loop fuel (remove_range r (length (done ++ front)) (last + 1)) (last + 1))
        (sym (append_assoc done front (comment ++ after)))
    ∙ ap (λ r. remove_loop fuel r (last + 1))
        (remove_range-lem (done ++ front) comment after (last + 1) (omega arith))
    ∙ ap (λ k. remove_loop fuel ((done ++ front) ++ (dummies comment ++ after)) k)
        (omega (arith, length-append (done ++ front) (dummies comment), length-dummies comment))

last_round :
    (fuel : ℕ) (done front : List Text)
    → lines_before starts_comment (front ++ []) ≡ length front
    → remove_loop (suc fuel) (done ++ (front ++ [])) (length done)
      ≡ some (done ++ (front ++ []), none)
last_round fuel done front s =
    stop fuel (done ++ (front ++ [])) (length done) (length (done ++ front))
      (begin-length fuel done front [] s)
      (omega
        (arith, length-append done (front ++ []), length-append front [], length-append done front))

loop-one_pass :
    (fuel : ℕ) (done lines : List Text)
    → length lines < fuel
    → is_closed false lines ≡ true
    → remove_loop fuel (done ++ lines) (length done) ≡ some (done ++ one_pass false lines, none)
loop-one_pass zero done lines lt h = absurd (omega arith)
loop-one_pass (suc fuel) done lines lt h =
    let s = start lines h in
    elim s.state [
      | inl none_left ↦
          let e : lines ≡ s.front ++ [] = s.split ∙ ap (λ r. s.front ++ r) none_left in
          ap (λ r. remove_loop (suc fuel) (done ++ r) (length done)) e
          ∙ last_round fuel done s.front (ap (lines_before starts_comment) (sym e) ∙ s.before)
          ∙ ap (λ r. some (done ++ r, none))
              (sym (s.passed ∙ ap (λ r. s.front ++ one_pass true r) none_left))
      | inr opened ↦
          let t = end s.after opened in
          let e : lines ≡ s.front ++ (t.comment ++ t.after) =
            s.split ∙ ap (λ r. s.front ++ r) t.split in
          let done' = (done ++ s.front) ++ dummies t.comment in
          ap (λ r. remove_loop (suc fuel) (done ++ r) (length done)) e
          ∙ round fuel done s.front t.comment t.after
              (ap (lines_before starts_comment) (sym e) ∙ s.before)
              (ap (λ r. lines_before ends_comment r + 1) (sym t.split) ∙ t.before)
          ∙ ap (λ r. remove_loop fuel r (length done'))
              (sym (append_assoc (done ++ s.front) (dummies t.comment) t.after))
          ∙ loop-one_pass fuel done' t.after
              (omega (
                arith,
                ap length e,
                length-append s.front (t.comment ++ t.after),
                length-append t.comment t.after,
                t.before,
              ))
              t.state
          ∙ ap (λ r. some (r, none))
              (append_assoc (done ++ s.front) (dummies t.comment) (one_pass false t.after)
                ∙ append_assoc done s.front (dummies t.comment ++ one_pass false t.after)
                ∙ ap (λ r. done ++ r) (sym (s.passed ∙ ap (λ r. s.front ++ r) t.passed)))
    ]

-- On lines that do not end inside of a comment the loop ends without a report, and leaves what
-- one pass over the lines leaves.
pub remove_multi_line_comments_lem :
    (lines : List Text)
    → is_closed false lines ≡ true
    → remove_multi_line_comments lines ≡ some (one_pass false lines, none)
unfolding remove_multi_line_comments
remove_multi_line_comments_lem lines h = loop-one_pass (length lines + 1) [] lines (omega arith) h
