-- ===== src/Lint/IncludeLine.antt =====
-- `CheckIncludeLine`. The functions of `os.path` are parameters, and so is `RepositoryName`, which
-- looks at the file system. The lines are those without comments, and the elided ones.
pub mod Twice
use simpledb.Prelude.{
  ℕ, zero, suc, ◌+◌, ◌-◌, Bool, true, false, not, ◌&&◌, ◌||◌, List, [], ◌∷◌, ◌++◌, Option, none,
  some, ◌==◌, ltb, leb, if◌then◌else◌, length, take, drop, get_elem?,
}
use simpledb.Prelude.Bytes.{◌>>=◌}
use simpledb.Prelude.Text.{Text, codes, text_eq, text_mem, starts_with, ends_with, find, lstrip}
use simpledb.Lint.FileChecks.{has_char}
use simpledb.Lint.Strings.{behind}
use simpledb.Lint.Extensions.{Extensions, get_header_extensions, get_non_header_extensions}
use simpledb.Lint.Includes.{
  IncludeState, find_header, check_next_include_order, canonicalize_alphabetical_order,
  is_in_alphabetical_order, set_last_header,
}
use simpledb.Lint.Classify.{classify_include}
use simpledb.Lint.SameModule.{base_name, extension}
use mathlib.Core.List.{reverse}

-- What `CheckIncludeLine` hands to the error handler, but for the texts of the messages.
pub data IncludeCall : Type 0 where
  needs_directory : ℕ → IncludeCall
  already_included : ℕ → Text → ℕ → IncludeCall
  of_other_package : ℕ → Text → IncludeCall
  out_of_order : ℕ → Text → Text → IncludeCall
  not_alphabetical : ℕ → Text → IncludeCall

-- The longest name of the pattern `([^/]+\.h)"`, behind the reverse of what has been read.
unfoldable pub longest_name : Text → Text → Option Text
unfolding starts_with
longest_name before [] = none
longest_name before (c ∷ text) =
    let later = longest_name (c ∷ before) text in
    let here =
      if c == b'"' && starts_with (codes "h.") before && ltb 2 (length before)
      then some (reverse before)
      else none in
    if c == b'/' then none else (elim later [ some name ↦ some name | none ↦ here ])

-- The pattern `#include\s*"([^/]+\.h)"` at the start of the line.
unfoldable pub plain_include : Text → Option Text
unfolding behind longest_name
plain_include line = do
  rest ← behind (codes "#include") line
  name ← behind (codes "\"") (lstrip rest)
  longest_name [] name

some_upper : Text → Bool
some_upper [] = false
some_upper (c ∷ s) = (leb b'A' c && leb c b'Z') || some_upper s

-- `_THIRD_PARTY_HEADERS_PATTERN`
unfoldable pub is_third_party : Text → Bool
unfolding some_upper ends_with has_char text_mem
is_third_party name =
    (ends_with (codes ".h") name
      && not (has_char b'/' name)
      && some_upper (take (length name - 2) name))
    || text_mem name (codes "lua.h" ∷ codes "lauxlib.h" ∷ codes "lualib.h" ∷ [])

-- `[^>"]*` with the closing character behind it.
name_up_to_closing : Text → Option Text
name_up_to_closing [] = none
name_up_to_closing (c ∷ s) =
    let rest = name_up_to_closing s >>= λ r. some (c ∷ r) in
    if c == b'>' || c == b'"' then some [] else rest

bracket_and_name : Text → Option (Bool × Text)
bracket_and_name [] = none
bracket_and_name (c ∷ s) =
    if c == b'<' || c == b'"'
    then (name_up_to_closing s >>= λ name. some (c == b'<', name))
    else none

-- `_RE_PATTERN_INCLUDE`: whether the bracket is `<`, and the name.
unfoldable pub parse_include : Text → Option (Bool × Text)
unfolding bracket_and_name name_up_to_closing behind
parse_include line = do
  hash ← behind (codes "#") (lstrip line)
  rest ← behind (codes "include") (lstrip hash)
  bracket_and_name (lstrip rest)

unfoldable pub check_directory : Text → ℕ → List IncludeCall
unfolding plain_include is_third_party
check_directory line linenum = elim (plain_include line) [
  | none ↦ []
  | some name ↦ if is_third_party name then [] else needs_directory linenum ∷ []
]

-- `self.include_list[-1].append(entry)`; `none` where there is no last section.
unfoldable pub append_last : Text × ℕ → List (List (Text × ℕ)) → Option (List (List (Text × ℕ)))
append_last entry [] = none
append_last entry (l ∷ []) = some ((l ++ entry ∷ []) ∷ [])
append_last entry (l ∷ m ∷ ls) = append_last entry (m ∷ ls) >>= λ r. some (l ∷ r)

-- `sub in s`
contains : Text → Text → Bool
contains sub s = elim (find sub s) [ none ↦ false | some _ ↦ true ]

module _ (repository_name : Text → Text) (split_path : Text → Text × Text)
    (splitext : Text → Text × Text) (normpath : Text → Text) where
  -- The extension for which the header is of another package.
  unfoldable pub other_package : List Text → Text → Text → Option Text
  unfolding ends_with text_eq
  other_package [] filename include = none
  other_package (ext ∷ exts) filename include =
      if ends_with (b'.' ∷ ext) include
        && not (text_eq (split_path (repository_name filename)).0 (split_path include).0)
      then some ext
      else other_package exts filename include

  -- A header with the name of the file and one of the extensions.
  unfoldable pub is_own_header : List Text → Text → Text → Bool
  unfolding contains extension
  is_own_header [] filename include = false
  is_own_header (ext ∷ exts) filename include =
      let base =
        take (length filename - length (extension repository_name split_path splitext filename))
          filename in
      let headername = repository_name (base ++ b'.' ∷ ext) in
      contains headername include
      || contains include headername
      || is_own_header exts filename include

  -- Whether the header is noted and checked further.
  unfoldable pub is_noted : Extensions → Text → Text → Bool
  unfolding is_own_header is_third_party
  is_noted s filename include =
      is_own_header (get_header_extensions s) filename include || not (is_third_party include)

  -- The checks of the order, with the state behind them.
  unfoldable pub check_order :
      Extensions
      → Text
      → List Text
      → ℕ
      → Bool
      → Text
      → IncludeState
      → Option (IncludeState × List IncludeCall)
  check_order s filename elided linenum is_system include st = do
    let kind =
        classify_include split_path splitext normpath s (repository_name filename) include is_system
    let (st1, message) = check_next_include_order kind st
    let order =
        if text_eq message []
        then []
        else out_of_order linenum message (base_name repository_name split_path splitext filename)
          ∷ []
    let canonical = canonicalize_alphabetical_order include
    sorted ← is_in_alphabetical_order elided linenum canonical st1
    some (
      set_last_header canonical st1,
      order ++ (if sorted then [] else not_alphabetical linenum include ∷ []),
    )

  -- A header that the line includes and that is neither known nor of another package.
  unfoldable pub note_include :
      Extensions
      → Text
      → List Text
      → ℕ
      → Bool
      → Text
      → IncludeState
      → Option (IncludeState × List IncludeCall)
  unfolding check_order append_last
  note_include s filename elided linenum is_system include st =
      if is_noted s filename include
      then (do
        sections ← append_last (include, linenum) st.include_list
        check_order s filename elided linenum is_system include
            (record st { include_list = sections }))
      else some (st, [])

  unfoldable pub check_header :
      Extensions
      → Text
      → List Text
      → ℕ
      → Bool
      → Text
      → IncludeState
      → Option (IncludeState × List IncludeCall)
  unfolding note_include
  check_header s filename elided linenum is_system include st = elim (find_header include st) [
    | some n ↦ some (st, already_included linenum include n ∷ [])
    | none ↦ elim (other_package (get_non_header_extensions s) filename include) [
      | some ext ↦ some (st, of_other_package linenum ext ∷ [])
      | none ↦ note_include s filename elided linenum is_system include st
    ]
  ]

  -- `CheckIncludeLine`; `none` is an index that is out of range.
  unfoldable pub check_include_line :
      Extensions
      → Text
      → List Text
      → List Text
      → ℕ
      → IncludeState
      → Option (IncludeState × List IncludeCall)
  unfolding check_header check_directory parse_include
  check_include_line s filename lines elided linenum st = do
    line ← get_elem? lines linenum
    (st', calls) ← elim (parse_include line) [
      | none ↦ some (st, [])
      | some (is_system, include) ↦ check_header s filename elided linenum is_system include st
    ]
    some (st', check_directory line linenum ++ calls)
