-- ===== src/Lint/Nesting/Conditions.antt =====
-- Behind a condition of the preprocessor the stack is that of its first branch.
use simpledb.Prelude.{
  Bool-cases, inl, inr, ◌≡◌, refl, ap, ◌∙◌, true, false, List, [], ◌∷◌, ◌++◌, none, some,
  if◌then◌else◌,
}
use simpledb.Prelude.Text.{Text}
use simpledb.Lint.Nesting.{
  Stack, PreprocessorInfo, NestingState, begins, otherwise, ends, directive, see_if, see_else,
  see_endif, update_preprocessor,
}

-- A line with what the rest of `Update` does to the stack on it.
pub record Line : Type 0 where
  pub text : Text
  pub effect : Stack → Stack

-- `Update`, line by line.
abbrev pub update_lines : List Line → NestingState → NestingState
update_lines [] state = state
update_lines (line ∷ rest) state =
    let next = update_preprocessor line.text state in
    update_lines rest (record next { stack = line.effect next.stack })

-- Lines whose conditions match: plain lines, and conditions with a first branch and others.
mutual
  pub data Region : Type 0 where
    nothing : Region
    plain : Line → Region → Region
    condition : Text → Region → Branches → Text → Region → Region

  pub data Branches : Type 0 where
    no_more : Branches
    branch : Text → Region → Branches → Branches

-- A line with a directive changes the stack by the directive alone.
abbrev pub only : Text → Line
only text = record { text = text; effect = λ stack. stack }

unfoldable mutual
  pub lines_of : Region → List Line
  lines_of nothing = []
  lines_of (plain line rest) = line ∷ lines_of rest
  lines_of (condition start first others end rest) =
      only start ∷ (lines_of first ++ (branch_lines others ++ (only end ∷ lines_of rest)))

  pub branch_lines : Branches → List Line
  branch_lines no_more = []
  branch_lines (branch text region others) = only text ∷ (lines_of region ++ branch_lines others)

-- The lines hold the directives that they stand for.
unfoldable mutual
  pub IsRegion : Region → Type 0
  IsRegion nothing = Unit
  IsRegion (plain line rest) = (directive line.text ≡ none) × IsRegion rest
  IsRegion (condition start first others end rest) =
      (directive start ≡ some begins)
      × IsRegion first
      × IsBranches others
      × (directive end ≡ some ends)
      × IsRegion rest

  pub IsBranches : Branches → Type 0
  IsBranches no_more = Unit
  IsBranches (branch text region others) =
      (directive text ≡ some otherwise) × IsRegion region × IsBranches others

-- What the plain lines do, in the first branches only.
abbrev pub first_branches : Region → Stack → Stack
first_branches nothing stack = stack
first_branches (plain line rest) stack = first_branches rest (line.effect stack)
first_branches (condition _ first _ _ rest) stack = first_branches rest (first_branches first stack)

update_lines-append :
    (first second : List Line) (state : NestingState)
    → update_lines (first ++ second) state ≡ update_lines second (update_lines first state)
update_lines-append [] second state = refl
update_lines-append (_ ∷ first) second state = update_lines-append first second _

-- The stack that `#endif` leaves.
kept : PreprocessorInfo → Stack → Stack
kept info stack = if info.seen_else then info.stack_before_else else stack

module _ (text : Text) (rest : List Line) (state : NestingState) where
  begins-step :
      directive text ≡ some begins
      → update_lines (only text ∷ rest) state ≡ update_lines rest (see_if state)
  unfolding update_preprocessor
  begins-step e = rw (update_preprocessor, e) refl

  otherwise-step :
      directive text ≡ some otherwise
      → update_lines (only text ∷ rest) state ≡ update_lines rest (see_else state)
  unfolding update_preprocessor
  otherwise-step e = rw (update_preprocessor, e) refl

  ends-step :
      (info : PreprocessorInfo) (below : List PreprocessorInfo)
      → directive text ≡ some ends
      → state.pp_stack ≡ info ∷ below
      → update_lines (only text ∷ rest) state
        ≡ update_lines rest (record { stack = kept info state.stack; pp_stack = below })
  unfolding update_preprocessor see_endif kept
  ends-step info below e top = rw (update_preprocessor, e, see_endif, top) refl

  plain-step :
      (effect : Stack → Stack)
      → directive text ≡ none
      → update_lines (record { text = text; effect = effect } ∷ rest) state
        ≡ update_lines rest (record state { stack = effect state.stack })
  unfolding update_preprocessor
  plain-step effect e = rw (update_preprocessor, e) refl

-- `#else` and `#elif` keep what `#endif` will leave.
see_else-kept :
    (state : NestingState) (info : PreprocessorInfo) (below : List PreprocessorInfo)
    → state.pp_stack ≡ info ∷ below
    → (info' : PreprocessorInfo) × ((see_else state).pp_stack ≡ info' ∷ below)
      × ((stack : Stack) → kept info' stack ≡ kept info state.stack)
unfolding see_else kept
see_else-kept state info below top = elim (Bool-cases info.seen_else) [
  | inl seen ↦ (info, rw (see_else, top, seen) refl, λ stack. rw seen refl)
  | inr new ↦ (
    record info { seen_else = true; stack_before_else = state.stack },
    rw (see_else, top, new) refl,
    λ stack. rw new refl,
  )
]

mutual
  unfolding lines_of IsRegion see_if kept

  update_lines-lines_of :
      (region : Region) (state : NestingState)
      → IsRegion region
      → update_lines (lines_of region) state
        ≡ record { stack = first_branches region state.stack; pp_stack = state.pp_stack }
  update_lines-lines_of nothing state h = refl
  update_lines-lines_of (plain line rest) state (h, hs) =
      plain-step line.text (lines_of rest) state line.effect h
      ∙ update_lines-lines_of rest (record state { stack = line.effect state.stack }) hs
  update_lines-lines_of (condition start first others end rest) state (h, h1, h2, h3, h4) =
      let entered = see_if state in
      let inside : Stack = first_branches first state.stack in
      let info : PreprocessorInfo = record {
        stack_before_if = state.stack;
        stack_before_else = [];
        seen_else = false;
      } in
      let before : NestingState = record { stack = inside; pp_stack = info ∷ state.pp_stack } in
      let tail = only end ∷ lines_of rest in
      let (info', top, same) =
        update_lines-branch_lines others before info state.pp_stack h2 refl in
      begins-step start (lines_of first ++ (branch_lines others ++ tail)) state h
      ∙ update_lines-append (lines_of first) (branch_lines others ++ tail) entered
      ∙ ap (update_lines (branch_lines others ++ tail)) (update_lines-lines_of first entered h1)
      ∙ update_lines-append (branch_lines others) tail before
      ∙ ends-step end (lines_of rest) (update_lines (branch_lines others) before) info'
          state.pp_stack h3 top
      ∙ ap
          (λ stack.
            update_lines (lines_of rest) (record { stack = stack; pp_stack = state.pp_stack }))
          same
      ∙ update_lines-lines_of rest (record { stack = inside; pp_stack = state.pp_stack }) h4

  update_lines-branch_lines :
      (others : Branches) (state : NestingState) (info : PreprocessorInfo)
      (below : List PreprocessorInfo)
      → IsBranches others
      → state.pp_stack ≡ info ∷ below
      → (info' : PreprocessorInfo) × ((update_lines (branch_lines others) state).pp_stack
          ≡ info' ∷ below)
        × (kept info' (update_lines (branch_lines others) state).stack ≡ kept info state.stack)
  update_lines-branch_lines no_more state info below h top = (info, top, refl)
  update_lines-branch_lines (branch text region others) state info below (h, h1, h2) top =
      let entered = see_else state in
      let (info', top', same) = see_else-kept state info below top in
      let behind : NestingState = record {
        stack = first_branches region entered.stack;
        pp_stack = entered.pp_stack;
      } in
      let whole : update_lines (only text ∷ (lines_of region ++ branch_lines others)) state
          ≡ update_lines (branch_lines others) behind =
        otherwise-step text (lines_of region ++ branch_lines others) state h
        ∙ update_lines-append (lines_of region) (branch_lines others) entered
        ∙ ap (update_lines (branch_lines others)) (update_lines-lines_of region entered h1) in
      let (info2, top2, same2) = update_lines-branch_lines others behind info' below h2 top' in
      (
        info2,
        ap (λ st. st.pp_stack) whole ∙ top2,
        ap (λ st. kept info2 st.stack) whole ∙ same2 ∙ same behind.stack,
      )

-- Lines whose conditions match leave the checkpoints as they were, and leave the stack that the
-- plain lines of the first branches leave: what stands behind an #else or an #elif counts for
-- nothing.
pub update_lines-IsRegion :
    (region : Region) (state : NestingState)
    → IsRegion region
    → update_lines (lines_of region) state
      ≡ record { stack = first_branches region state.stack; pp_stack = state.pp_stack }
update_lines-IsRegion = update_lines-lines_of
