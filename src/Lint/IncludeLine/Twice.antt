-- ===== src/Lint/IncludeLine/Twice.antt =====
-- A header that is included twice.
use simpledb.Prelude.{
  if◌then◌else◌, ℕ, ◌≡◌, Bool, true, List, [], ◌∷◌, ◌++◌, Option, none, some, refl, ap, sym, ◌∙◌,
  arith, get_elem?, Option-cases, inl, inr,
}
use simpledb.Prelude.Text.{Text, text_eq, text_eq_self}
use simpledb.Lint.Extensions.{Extensions, get_non_header_extensions}
use simpledb.Lint.Classify.{classify_include}
use simpledb.Lint.Includes.{
  HeaderType, c_sys_header, cpp_sys_header, likely_my_header, possible_my_header, other_header,
  IncludeState, find_header, find_in_section, check_next_include_order, set_last_header,
  is_in_alphabetical_order, line_before, canonicalize_alphabetical_order,
}
use simpledb.Lint.SameModule.{base_name}
use simpledb.Lint.IncludeLine.{
  IncludeCall, already_included, out_of_order, not_alphabetical, append_last, check_order,
  note_include, check_header, check_include_line, check_directory, is_noted, other_package,
  parse_include,
}

check_next_include_order-include_list :
    (kind : HeaderType) (st : IncludeState)
    → (check_next_include_order kind st).0.include_list ≡ st.include_list
unfolding check_next_include_order
check_next_include_order-include_list c_sys_header st = ground arith
check_next_include_order-include_list cpp_sys_header st = ground arith
check_next_include_order-include_list likely_my_header st = ground arith
check_next_include_order-include_list possible_my_header st = ground arith
check_next_include_order-include_list other_header st = ground arith

-- `FindHeader` on a list of sections.
found_in : Text → List (List (Text × ℕ)) → Option ℕ
unfolding find_header
found_in header ls =
    find_header header (record { include_list = ls; section = 0; last_header = [] })

find_in_section-append :
    (header : Text) (n : ℕ) (l : List (Text × ℕ))
    → find_in_section header l ≡ none
    → find_in_section header (l ++ (header, n) ∷ []) ≡ some n
unfolding find_in_section
find_in_section-append header n [] fresh = ground (arith, text_eq_self header)
find_in_section-append header n ((f, line) ∷ l) fresh =
    ground (arith, find_in_section-append header n l)

found_in-cons :
    (header : Text) (l : List (Text × ℕ)) (ls : List (List (Text × ℕ)))
    → find_in_section header l ≡ none
    → found_in header (l ∷ ls) ≡ found_in header ls
unfolding found_in
found_in-cons header l ls fresh = rw fresh refl

found_in-none :
    (header : Text) (l : List (Text × ℕ)) (ls : List (List (Text × ℕ)))
    → found_in header (l ∷ ls) ≡ none
    → (find_in_section header l ≡ none) × (found_in header ls ≡ none)
unfolding found_in
found_in-none header l ls fresh = elim (Option-cases (find_in_section header l)) [
  | inl here ↦ (here, sym (found_in-cons header l ls here) ∙ fresh)
  | inr (n, found) ↦ absurd (ground arith)
]

found_in-append_last :
    (header : Text) (n : ℕ) (l : List (Text × ℕ)) (ls : List (List (Text × ℕ)))
    → found_in header (l ∷ ls) ≡ none
    → (ls' : List (List (Text × ℕ))) × (append_last (header, n) (l ∷ ls) ≡ some ls')
      × (found_in header ls' ≡ some n)
unfolding found_in append_last
found_in-append_last header n l [] fresh =
    ((l ++ (header, n) ∷ []) ∷ [], refl, ground (arith, find_in_section-append header n l))
found_in-append_last header n l (m ∷ ls) fresh =
    let (here, later) = found_in-none header l (m ∷ ls) fresh in
    let (ls', e, found) = found_in-append_last header n m ls later in
    (l ∷ ls', rw e refl, found_in-cons header l ls' here ∙ found)

find_header-found_in :
    (header : Text) (st : IncludeState) → find_header header st ≡ found_in header st.include_list
unfolding found_in
find_header-found_in header st = refl

module _ (repository_name : Text → Text) (split_path : Text → Text × Text)
    (splitext : Text → Text × Text) (normpath : Text → Text) (s : Extensions) (filename : Text)
    (lines elided : List Text) (include : Text) where
  is_in_alphabetical_order-some :
      (n : ℕ) (before : Text) (canonical : Text) (st : IncludeState)
      → line_before elided n ≡ some before
      → (b : Bool) × (is_in_alphabetical_order elided n canonical st ≡ some b)
  unfolding is_in_alphabetical_order
  is_in_alphabetical_order-some n before canonical st at =
      elim (Option-cases (is_in_alphabetical_order elided n canonical st)) [
        | inl missing ↦ absurd (ground arith)
        | inr found ↦ found
      ]

  -- The checks of the order return, and leave the headers that are noted.
  check_order-some :
      (n : ℕ) (before : Text) (is_system : Bool) (st : IncludeState)
      → line_before elided n ≡ some before
      → (st' : IncludeState) × (calls : List IncludeCall) × (check_order repository_name split_path
            splitext normpath s filename elided n is_system include st
          ≡ some (st', calls))
        × (st'.include_list ≡ st.include_list)
  unfolding check_order set_last_header
  check_order-some n before is_system st at =
      let kind =
        classify_include split_path splitext normpath s (repository_name filename) include
          is_system in
      let canonical = canonicalize_alphabetical_order include in
      let st1 = (check_next_include_order kind st).0 in
      let (sorted, e) = is_in_alphabetical_order-some n before canonical st1 at in
      let message = (check_next_include_order kind st).1 in
      (
        set_last_header canonical st1,
        (if text_eq message []
              then []
              else out_of_order n message (base_name repository_name split_path splitext filename)
                ∷ [])
            ++ (if sorted then [] else not_alphabetical n include ∷ []),
        rw e refl,
        check_next_include_order-include_list kind st,
      )

  check_header-noted :
      (n : ℕ) (is_system : Bool) (st : IncludeState) (ls ls' : List (List (Text × ℕ)))
      (r : IncludeState × List IncludeCall)
      → st.include_list ≡ ls
      → find_header include st ≡ none
      → other_package repository_name split_path splitext normpath
          (get_non_header_extensions s)
          filename
          include
        ≡ none
      → is_noted repository_name split_path splitext normpath s filename include ≡ true
      → append_last (include, n) ls ≡ some ls'
      → check_order repository_name split_path splitext normpath s filename elided n is_system
          include
          (record st { include_list = ls' })
        ≡ some r
      → check_header repository_name split_path splitext normpath s filename elided n is_system
          include st
        ≡ some r
  unfolding check_header note_include
  check_header-noted n is_system st ls ls' r sections fresh own noted e e' =
      rw (fresh, check_header)
        (rw (own, check_header) (rw (noted, note_include) (rw (sections, e) e')))

  -- A header that is noted is found with its line afterwards.
  check_header-found :
      (n : ℕ) (before : Text) (is_system : Bool) (st : IncludeState) (l : List (Text × ℕ))
      (ls : List (List (Text × ℕ)))
      → st.include_list ≡ l ∷ ls
      → line_before elided n ≡ some before
      → find_header include st ≡ none
      → other_package repository_name split_path splitext normpath
          (get_non_header_extensions s)
          filename
          include
        ≡ none
      → is_noted repository_name split_path splitext normpath s filename include ≡ true
      → (st' : IncludeState) × (calls : List IncludeCall) × (check_header repository_name split_path
            splitext normpath s filename elided n is_system include st
          ≡ some (st', calls))
        × (find_header include st' ≡ some n)
  check_header-found n before is_system st l ls sections at fresh own noted =
      let (ls', e, found) =
        found_in-append_last include n l ls
          (ap (found_in include) (sym sections) ∙ sym (find_header-found_in include st) ∙ fresh) in
      let (st', calls, e', kept) =
        check_order-some n before is_system (record st { include_list = ls' }) at in
      (
        st',
        calls,
        check_header-noted n is_system st (l ∷ ls) ls' (st', calls) sections fresh own noted e e',
        find_header-found_in include st' ∙ ap (found_in include) kept ∙ found,
      )

  check_header-known :
      (n m : ℕ) (is_system : Bool) (st : IncludeState)
      → find_header include st ≡ some m
      → check_header repository_name split_path splitext normpath s filename elided n is_system
          include st
        ≡ some (st, already_included n include m ∷ [])
  unfolding check_header
  check_header-known n m is_system st found = rw (found, check_header) refl

  check_include_line-parsed :
      (n : ℕ) (is_system : Bool) (line : Text) (st : IncludeState)
      (r : IncludeState × List IncludeCall)
      → get_elem? lines n ≡ some line
      → parse_include line ≡ some (is_system, include)
      → check_header repository_name split_path splitext normpath s filename elided n is_system
          include st
        ≡ some r
      → check_include_line repository_name split_path splitext normpath s filename lines elided n st
        ≡ some (r.0, check_directory line n ++ r.1)
  unfolding check_include_line
  check_include_line-parsed n is_system line st r here parsed e = rw (here, parsed, e) refl

  -- A header that is noted on one line is known afterwards: the second line with it is reported
  -- with the first one, and leaves the state.
  pub check_include_line-check_include_line :
      (m n : ℕ) (before : Text) (b b' : Bool) (line line' : Text) (st : IncludeState)
      (l : List (Text × ℕ)) (ls : List (List (Text × ℕ)))
      → get_elem? lines m ≡ some line
      → parse_include line ≡ some (b, include)
      → get_elem? lines n ≡ some line'
      → parse_include line' ≡ some (b', include)
      → line_before elided m ≡ some before
      → st.include_list ≡ l ∷ ls
      → find_header include st ≡ none
      → other_package repository_name split_path splitext normpath
          (get_non_header_extensions s)
          filename
          include
        ≡ none
      → is_noted repository_name split_path splitext normpath s filename include ≡ true
      → (st' : IncludeState) × (calls : List IncludeCall) × (check_include_line repository_name
            split_path splitext normpath s filename lines elided m st
          ≡ some (st', calls))
        × (find_header include st' ≡ some m)
        × (check_include_line repository_name split_path splitext normpath s filename lines elided n
              st'
            ≡ some (st', check_directory line' n ++ already_included n include m ∷ []))
  check_include_line-check_include_line m n before b b' line line' st l ls here parsed there parsed'
        at sections fresh own noted =
      let (st', calls, e, found) =
        check_header-found m before b st l ls sections at fresh own noted in
      (
        st',
        check_directory line m ++ calls,
        check_include_line-parsed m b line st (st', calls) here parsed e,
        found,
        check_include_line-parsed n b' line' st' (st', already_included n include m ∷ []) there
            parsed' (check_header-known n m b' st' found),
      )
