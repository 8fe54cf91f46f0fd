-- ===== src/Lint/Includes.antt =====
-- `_IncludeState`: the order of the #include lines of a file.
pub mod Order
use simpledb.Prelude.{
  ℕ, zero, suc, ◌+◌, Bool, true, false, not, ◌&&◌, ◌||◌, List, [], ◌∷◌, ◌++◌, Option, none, some,
  ltb, leb, ◌==◌, if◌then◌else◌, length, get_elem?, ◌-◌, drop,
}
use simpledb.Prelude.Bytes.{◌>>=◌}
use simpledb.Lint.Suppressions.{at_word_end}
use simpledb.Prelude.Text.{
  Text, codes, text_eq, text_mem, starts_with, lstrip, replace, lower, is_word,
}

-- The kinds of header, `_C_SYS_HEADER` and so on.
pub data HeaderType : Type 0 where
  c_sys_header cpp_sys_header likely_my_header possible_my_header other_header : HeaderType

-- The sections, which are compared as numbers.
abbrev pub initial_section : ℕ
initial_section = 0

abbrev pub my_h_section : ℕ
my_h_section = 1

abbrev pub c_section : ℕ
c_section = 2

abbrev pub cpp_section : ℕ
cpp_section = 3

abbrev pub other_h_section : ℕ
other_h_section = 4

pub record IncludeState : Type 0 where
  pub include_list : List (List (Text × ℕ))
  pub section : ℕ
  pub last_header : Text

-- `self.include_list[-1] = []`
unfoldable pub clear_last : List (List (Text × ℕ)) → List (List (Text × ℕ))
clear_last [] = []
clear_last (l ∷ []) = [] ∷ []
clear_last (l ∷ m ∷ ls) = l ∷ clear_last (m ∷ ls)

unfoldable pub reset_section : Text → IncludeState → IncludeState
reset_section directive st = record {
  include_list =
      if text_mem directive (codes "if" ∷ codes "ifdef" ∷ codes "ifndef" ∷ [])
      then st.include_list ++ [] ∷ []
      else (if text_mem directive (codes "else" ∷ codes "elif" ∷ [])
          then clear_last st.include_list
          else st.include_list);
  section = initial_section;
  last_header = [];
}

-- `__init__`
unfoldable pub init : IncludeState
unfolding reset_section
init =
    reset_section []
      (record { include_list = [] ∷ []; section = initial_section; last_header = [] })

unfoldable pub find_in_section : Text → List (Text × ℕ) → Option ℕ
find_in_section header [] = none
find_in_section header ((f, line) ∷ rest) =
    if text_eq f header then some line else find_in_section header rest

first_of_two : Option ℕ → Option ℕ → Option ℕ
first_of_two (some n) _ = some n
first_of_two none later = later

find_in_sections : Text → List (List (Text × ℕ)) → Option ℕ
find_in_sections header [] = none
find_in_sections header (l ∷ ls) =
    first_of_two (find_in_section header l) (find_in_sections header ls)

-- `FindHeader`, with `none` for -1.
unfoldable pub find_header : Text → IncludeState → Option ℕ
unfolding find_in_section find_in_sections first_of_two
find_header header st = find_in_sections header st.include_list

unfoldable pub set_last_header : Text → IncludeState → IncludeState
set_last_header header_path st = record st { last_header = header_path }

-- `CanonicalizeAlphabeticalOrder`
unfoldable pub canonicalize_alphabetical_order : Text → Text
canonicalize_alphabetical_order header_path =
    lower (replace (codes "-") (codes "_") (replace (codes "-inl.h") (codes ".h") header_path))

-- `<` of texts.
unfoldable pub text_lt : Text → Text → Bool
text_lt s [] = false
text_lt [] (b ∷ t) = true
text_lt (a ∷ s) (b ∷ t) = ltb a b || (a == b && text_lt s t)

-- `include\b`
include_word : Text → Bool
include_word s = starts_with (codes "include") s && at_word_end (drop 7 s)

include_line : Text → Bool
include_line [] = false
include_line (c ∷ s) = c == b'#' && include_word (lstrip s)

-- `^\s*#\s*include\b`
unfoldable pub matches_include : Text → Bool
unfolding include_line include_word
matches_include line = include_line (lstrip line)

-- `lines[linenum - 1]`: the last line for line 0.
unfoldable pub line_before : List Text → ℕ → Option Text
line_before lines zero = get_elem? lines (length lines - 1)
line_before lines (suc n) = get_elem? lines n

-- `IsInAlphabeticalOrder`, over the elided lines. `none` is an index that is out of range.
unfoldable pub is_in_alphabetical_order : List Text → ℕ → Text → IncludeState → Option Bool
is_in_alphabetical_order elided linenum header_path st =
    if text_lt header_path st.last_header
    then (do before ← line_before elided linenum; some (not (matches_include before)))
    else some true

-- `_TYPE_NAMES`
unfoldable pub type_name : HeaderType → Text
type_name c_sys_header = codes "C system header"
type_name cpp_sys_header = codes "C++ system header"
type_name likely_my_header = codes "header this file implements"
type_name possible_my_header = codes "header this file may implement"
type_name other_header = codes "other header"

-- `_SECTION_NAMES`
unfoldable pub section_name : ℕ → Text
section_name section =
    if section == initial_section
    then codes "... nothing. (This can't be an error.)"
    else (if section == my_h_section
        then codes "a header this file implements"
        else (if section == c_section
            then codes "C system header"
            else (if section == cpp_section
                then codes "C++ system header"
                else codes "other header")))

abbrev pub error_message : HeaderType → ℕ → Text
error_message header_type section =
    codes "Found " ++ (type_name header_type ++ (codes " after " ++ section_name section))

-- The section that a header moves to, or `none` where it is out of order.
unfoldable pub next_section : HeaderType → ℕ → Option ℕ
next_section c_sys_header section = if leb section c_section then some c_section else none
next_section cpp_sys_header section = if leb section cpp_section then some cpp_section else none
next_section likely_my_header section =
    some (if leb section my_h_section then my_h_section else other_h_section)
next_section possible_my_header section =
    some (if leb section my_h_section then my_h_section else other_h_section)
next_section other_header section = some other_h_section

moved : HeaderType → IncludeState → Option ℕ → IncludeState × Text
moved header_type st none = (record st { last_header = [] }, error_message header_type st.section)
moved header_type st (some section) = (
  record st {
    section = section;
    last_header = if st.section == section then st.last_header else [];
  },
  [],
)

-- `CheckNextIncludeOrder`: the new state, and the message, which is empty if all is well.
unfoldable pub check_next_include_order : HeaderType → IncludeState → IncludeState × Text
unfolding next_section moved
check_next_include_order header_type st = moved header_type st (next_section header_type st.section)
