-- ===== src/Lint/Functions/Lengths.antt =====
-- A function is reported exactly when its lines exceed the trigger of the verbosity.
use simpledb.Prelude.{
  ℕ, zero, suc, ◌+◌, ◌*◌, ◌^◌, ◌≤◌, ◌<◌, ◌≡◌, refl, true, none, some, arith, ◌∙◌, ap,
}
use simpledb.Prelude.Text.{Text}
use simpledb.Lint.Functions.{
  FunctionState, LongFunction, begin, count_line, base_trigger, check, level,
}

-- A number of lines in the body.
abbrev pub count_lines : ℕ → FunctionState → FunctionState
count_lines zero st = st
count_lines (suc n) st = count_lines n (count_line st)

count_lines-begin :
    (n m : ℕ) (f : Text)
    → count_lines n (record { in_a_function = true; lines_in_function = m; current_function = f })
      ≡ record { in_a_function = true; lines_in_function = m + n; current_function = f }
unfolding count_line
count_lines-begin zero m f =
    ap (λ k. record { in_a_function = true; lines_in_function = k; current_function = f })
      (omega arith)
count_lines-begin (suc n) m f =
    count_lines-begin n (m + 1) f
    ∙ ap (λ k. record { in_a_function = true; lines_in_function = k; current_function = f })
        (omega arith)

level_bound :
    (v lines base : ℕ)
    → v ≤ 5
    → base * 2 ^ v < lines
    → (v ≤ level lines base) × (level lines base ≤ 5)
unfolding level
level_bound zero lines base h lt = ground arith
level_bound (suc zero) lines base h lt = ground arith
level_bound (suc (suc zero)) lines base h lt = ground arith
level_bound (suc (suc (suc zero))) lines base h lt = ground arith
level_bound (suc (suc (suc (suc zero)))) lines base h lt = ground arith
level_bound (suc (suc (suc (suc (suc zero))))) lines base h lt = ground arith
level_bound (suc (suc (suc (suc (suc (suc v)))))) lines base h lt = absurd (omega arith)

-- At a verbosity up to 5, a function of `n` lines is not reported while `n` is at most the
-- trigger; above it is reported with its name and its length, and with a confidence that is at
-- least the verbosity and at most 5.
pub check-count_lines :
    (v linenum n : ℕ) (f : Text) (st : FunctionState)
    → v ≤ 5
    → (n ≤ base_trigger f * 2 ^ v → check v linenum (count_lines n (begin f st)) ≡ none)
      × (base_trigger f * 2 ^ v < n
          → (r : LongFunction) × (check v linenum (count_lines n (begin f st)) ≡ some r)
            × (r.function ≡ f)
            × (r.lines ≡ n)
            × (v ≤ r.error_level)
            × (r.error_level ≤ 5))
unfolding check begin
check-count_lines v linenum n f st h = (
  λ short. rw (count_lines-begin n 0 f) (ground arith),
  λ long.
      let (low, high) = level_bound v n (base_trigger f) h long in
      (
        record {
          linenum = linenum;
          error_level = level n (base_trigger f);
          function = f;
          lines = n;
          trigger = base_trigger f * 2 ^ v;
        },
        rw (count_lines-begin n 0 f) (ground arith),
        refl,
        refl,
        low,
        high,
      ),
)
