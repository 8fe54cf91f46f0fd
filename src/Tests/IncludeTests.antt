-- ===== src/Tests/IncludeTests.antt =====
-- The style checker's checks of includes, names of files, classes and templates on small inputs.
use simpledb.Prelude.{
  subst, length, ◌≤◌, ℕ, suc, ◌≡◌, ◌≢◌, ◌↔◌, refl, Bool, true, false, not, ◌&&◌, ◌||◌, List, [],
  ◌∷◌, ◌++◌, Option, none, some, ◌==◌, if◌then◌else◌, arith, drop, get_elem?,
}
use simpledb.Prelude.Bytes.{◌>>=◌}
use simpledb.Prelude.Text.{Text, codes, text_eq, ends_with, find, starts_with, replace, text_mem}
use simpledb.Lint.Extensions
use simpledb.Lint.Extensions.{Extensions}
use simpledb.Lint.Includes
use simpledb.Lint.Includes.{IncludeState, find_header}
use simpledb.Lint.TextInside
use simpledb.Lint.TextInside.{get_text_inside}
use simpledb.Lint.TextInside.Nested.{IsNested, get_text_inside_iff}
use simpledb.Lint.IncludeLine
use simpledb.Lint.IncludeLine.{IncludeCall, already_included, check_include_line, check_directory}
use simpledb.Lint.IncludeLine.Twice.{check_include_line-check_include_line}
use simpledb.Lint.SameModule
use simpledb.Lint.SameModule.{
  files_belong_to_same_module, source_module, header_module, is_source_name, is_header_name,
}
use simpledb.Lint.Classes
use simpledb.Lint.Namespaces.{class_info}
use simpledb.Lint.Nesting.{open_block}
use simpledb.Lint.Classes.LastLine.{FindsEnd, init-FindsEnd}
use simpledb.Lint.TemplateArguments.{in_template_argument_list}
use simpledb.Lint.TemplateArguments.Turns.{in_template_argument_list-some}

-- `os.path.splitext` of names with one dot.
abbrev splitext : Text → Text × Text
splitext [] = ([], [])
splitext (c ∷ s) = if c == b'.' then ([], c ∷ s) else (c ∷ (splitext s).0, (splitext s).1)

abbrev split_at_slash : Text → Option (Text × Text)
split_at_slash [] = none
split_at_slash (c ∷ s) = elim (split_at_slash s) [
  | some (a, b) ↦ some (c ∷ a, b)
  | none ↦ if c == b'/' then some ([], s) else none
]

abbrev split_path : Text → Text × Text
split_path p = elim (split_at_slash p) [ none ↦ ([], p) | some r ↦ r ]

abbrev same : Text → Text
same p = p

abbrev default_extensions : Extensions
default_extensions = record { hpp_headers = []; valid_extensions = [] }

program : Unit {0}
unfolding simpledb.Prelude.Text.lstrip Extensions.get_all_extensions Includes.line_before
    Extensions.get_header_extensions Extensions.get_non_header_extensions
    Extensions.is_header_extension text_eq ends_with find starts_with replace text_mem
    SameModule.drop_end SameModule.lstrip_dots SameModule.find_suffix SameModule.without_suffix
    SameModule.without_dirs SameModule.without_inl SameModule.compare_modules SameModule.split_name
    SameModule.base_name SameModule.extension source_module header_module is_source_name
    is_header_name files_belong_to_same_module IncludeLine.parse_include IncludeLine.is_third_party
    IncludeLine.other_package IncludeLine.is_own_header IncludeLine.is_noted find_header
program = tt

-- The name of the call, and the parenthesis.
abbrev behind_printf : Text → Option ℕ
behind_printf text = if starts_with (codes "printf(") text then some 7 else none

get_text_inside_iff_example :
    (r : Option Text) × (get_text_inside behind_printf (codes "printf(a(), b(c()));") ≡ some r)
    × ((w : Text)
        → (r ≡ some w) ↔ (IsNested w × (rest : Text) × (codes "a(), b(c()));" ≡ w ++ b')' ∷ rest)))
unfolding starts_with TextInside.closing_of
get_text_inside_iff_example =
    get_text_inside_iff behind_printf (codes "printf(a(), b(c()));") 6 b'(' b')' refl refl refl

same_module_test :
    files_belong_to_same_module same split_path splitext default_extensions
      (codes "lib/base/info_test.cc")
      (codes "base/info.h")
    ≡ (true, codes "lib/")
unfolding program
same_module_test = refl

abbrev class_lines : List Text
class_lines = codes "class A {" ∷ codes " void f() {" ∷ codes " }" ∷ codes "};" ∷ []

abbrev class_a : Option Classes.ClassInfo
class_a = Classes.init (codes "A") (codes "class") class_lines class_lines 0

last_line_test : (class_a >>= λ info. some info.last_line) ≡ some 3
unfolding Classes.init
last_line_test = refl

abbrev class_a_info : Classes.ClassInfo
class_a_info = record {
  block = open_block class_info (codes "A") 0 false;
  is_derived = false;
  access = codes "private";
  is_struct = false;
  class_indent = 0;
  last_line = 3;
}

init-FindsEnd_example : FindsEnd 0 0 0 class_lines 3
unfolding Classes.init simpledb.Lint.FileChecks.indent_from
init-FindsEnd_example =
    init-FindsEnd (codes "A") (codes "class") class_lines class_lines 0 {info = class_a_info} refl

abbrev template_lines : List Text
template_lines = codes "template <class A" ∷ codes ", class B>" ∷ []

in_template_argument_list-some_example :
    (b : Bool) × (in_template_argument_list template_lines 0 17 ≡ some b)
in_template_argument_list-some_example =
    in_template_argument_list-some template_lines 0 17 (λ line e.
      let same : codes "template <class A" ≡ line = cc in
      subst (λ (l : Text). 17 ≤ length l) same (omega arith))

template_test : in_template_argument_list template_lines 0 17 ≡ some true
unfolding in_template_argument_list
template_test = refl

abbrev include_lines : List Text
include_lines = codes "#include \"base/a.h\"" ∷ codes "#include \"base/a.h\"  // again" ∷ []

abbrev no_includes : IncludeState
no_includes = record { include_list = [] ∷ []; section = 0; last_header = [] }

check_include_line-check_include_line_example :
    (st' : IncludeState) × (calls : List IncludeCall) × (check_include_line same split_path splitext
        same default_extensions
        (codes "base/b.cc")
        include_lines
        include_lines
        0
        no_includes
      ≡ some (st', calls))
    × (find_header (codes "base/a.h") st' ≡ some 0)
    × (check_include_line same split_path splitext same default_extensions
          (codes "base/b.cc")
          include_lines
          include_lines
          1
          st'
        ≡ some (
          st',
          check_directory (codes "#include \"base/a.h\"  // again") 1
              ++ already_included 1 (codes "base/a.h") 0 ∷ [],
        ))
unfolding program
check_include_line-check_include_line_example =
    check_include_line-check_include_line same split_path splitext same default_extensions
      (codes "base/b.cc") include_lines include_lines (codes "base/a.h") 0 1
      (codes "#include \"base/a.h\"  // again") false false (codes "#include \"base/a.h\"")
      (codes "#include \"base/a.h\"  // again") no_includes [] [] refl refl refl refl refl refl refl
      refl refl
