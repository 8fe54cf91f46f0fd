-- ===== src/Lint/Includes/Order.antt =====
-- The order of the sections.
use simpledb.Prelude.{ℕ, List, [], ◌∷◌, Bool, true, false, if◌then◌else◌, ◌||◌, ◌==◌, ltb}
use simpledb.Prelude.Text.{Text}
use simpledb.Lint.Includes.{
  HeaderType, c_sys_header, cpp_sys_header, likely_my_header, possible_my_header, other_header,
  IncludeState, check_next_include_order,
}

-- The headers of a run of #include lines, in order, and the messages.
unfoldable pub check_all : List HeaderType → IncludeState → IncludeState × List Text
check_all [] st = (st, [])
check_all (t ∷ ts) st =
    let (st', message) = check_next_include_order t st in
    let (st'', messages) = check_all ts st' in (st'', message ∷ messages)

-- Is there a C system header, a C++ system header, a header of the file itself?
abbrev pub has_c : List HeaderType → Bool
has_c [] = false
has_c (c_sys_header ∷ ts) = true
has_c (_ ∷ ts) = has_c ts

abbrev pub has_cpp : List HeaderType → Bool
has_cpp [] = false
has_cpp (cpp_sys_header ∷ ts) = true
has_cpp (_ ∷ ts) = has_cpp ts

abbrev pub has_my : List HeaderType → Bool
has_my [] = false
has_my (likely_my_header ∷ ts) = true
has_my (possible_my_header ∷ ts) = true
has_my (_ ∷ ts) = has_my ts

-- Is there an other header, or a header of the file itself behind a system header? The flag is
-- whether a system header was seen.
abbrev pub has_other : Bool → List HeaderType → Bool
has_other seen [] = false
has_other seen (other_header ∷ ts) = true
has_other seen (likely_my_header ∷ ts) = seen || has_other seen ts
has_other seen (possible_my_header ∷ ts) = seen || has_other seen ts
has_other seen (c_sys_header ∷ ts) = has_other true ts
has_other seen (cpp_sys_header ∷ ts) = has_other true ts

abbrev pub section_after : ℕ → List HeaderType → ℕ
section_after s ts =
    if s == 4 || has_other (ltb 1 s) ts
    then 4
    else (if s == 3 || has_cpp ts
        then 3
        else (if s == 2 || has_c ts then 2 else (if s == 1 || has_my ts then 1 else 0)))

-- Whether the header is out of order behind those of the list.
abbrev pub out_of_order : HeaderType → List HeaderType → Bool
out_of_order c_sys_header ts = has_cpp ts || has_other false ts
out_of_order cpp_sys_header ts = has_other false ts
out_of_order _ ts = false
