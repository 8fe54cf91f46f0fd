-- ===== src/Lint/Report/Counts.antt =====
-- The counters agree with what was written.
use simpledb.Prelude.{
  ℕ, ◌+◌, ◌≡◌, subst, Bool, true, false, List, [], ◌∷◌, Option, none, some, if◌then◌else◌, arith,
  length, length-append,
}
use simpledb.Prelude.Bytes.{◌>>=◌}
use simpledb.Prelude.Text.{Text}
use simpledb.Lint.State.{
  Message, CppLintState, bump, counts_categories, increment_error_count, top_level,
}
use simpledb.Lint.Report.{emit, error, should_print_error}
use simpledb.Lint.Suppressions.{Suppressions}

abbrev pub sum_counts : List (Text × ℕ) → ℕ
sum_counts [] = 0
sum_counts ((_, n) ∷ m) = n + sum_counts m

pub record IsCounted (st : CppLintState) : Type 0 where
  pub printed : st.error_count ≡ length st.written + length st.junit_failures
  pub by_category :
      counts_categories st.counting ≡ true → sum_counts st.errors_by_category ≡ st.error_count

sum_counts-bump :
    (category : Text) (m : List (Text × ℕ)) → sum_counts (bump category m) ≡ sum_counts m + 1
unfolding bump
sum_counts-bump category [] = omega arith
sum_counts-bump category ((c, n) ∷ m) = ground (arith, sum_counts-bump category m)

printed-IsCounted :
    (m : Message) (st : CppLintState)
    → IsCounted st
    → IsCounted (emit m (increment_error_count m.category st))
unfolding emit increment_error_count
printed-IsCounted m st h = record {
  printed = ground (
    arith,
    h.printed,
    length-append st.written ((st.output_format, m) ∷ []),
    length-append st.junit_failures (m ∷ []),
  );
  by_category = λ e. ground (
    arith,
    h.by_category,
    sum_counts-bump m.category st.errors_by_category,
    sum_counts-bump (top_level m.category) st.errors_by_category,
  );
}

decided :
    (m : Message) (st : CppLintState) {st' : CppLintState} (printed : Option Bool)
    → IsCounted st
    → (printed >>= λ p. some (if p then emit m (increment_error_count m.category st) else st))
      ≡ some st'
    → IsCounted st'
decided m st none h e = cc
decided m st {st'} (some true) h e =
    let p : emit m (increment_error_count m.category st) ≡ st' = cc in
    subst IsCounted p (printed-IsCounted m st h)
decided m st {st'} (some false) h e = let p : st ≡ st' = cc in subst IsCounted p h

-- However an error comes out, printed or held back, the count of errors stays the number of
-- messages, and the counts by category, where they are kept, stay its parts.
pub error-IsCounted :
    (m : Message) (sup : Suppressions) (st : CppLintState) {st' : CppLintState}
    → IsCounted st
    → error m sup st ≡ some st'
    → IsCounted st'
unfolding error
error-IsCounted m sup st h e =
    decided m st (should_print_error m.category m.confidence m.linenum sup st) h e
