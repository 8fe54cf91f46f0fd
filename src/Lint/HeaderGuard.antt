-- ===== src/Lint/HeaderGuard.antt =====
-- `CheckForHeaderGuard` on the raw lines of a header, with the variable `cppvar` that
-- `GetHeaderGuardCPPVariable` gives; it ends in an underscore. The actions are the calls of the
-- error handler and of `ParseNolintSuppressions`, in their order.
pub mod First
use simpledb.Prelude.{
  ℕ, suc, ◌+◌, ◌-◌, Bool, true, false, not, ◌&&◌, ◌||◌, List, [], ◌∷◌, ◌++◌, Option, none, some,
  ◌==◌, if◌then◌else◌, length, take, drop,
}
use simpledb.Prelude.Int.{ℤ, pos}
use simpledb.Prelude.Text.{Text, codes, text_eq, starts_with, is_space, is_word, lstrip}
use simpledb.Lint.FileChecks.{Call}

pub data Action : Type 0 where
  report : Call → Action
  parse_nolint_on : ℕ → Action

-- `//\s*NOLINT\(build/header_guard\)` at this place.
nolint_guard_here : Text → Bool
unfolding starts_with lstrip
nolint_guard_here s =
    starts_with (codes "//") s
    && starts_with (codes "NOLINT(build/header_guard)") (lstrip (drop 2 s))

unfoldable pub has_nolint_guard : Text → Bool
unfolding nolint_guard_here
has_nolint_guard [] = false
has_nolint_guard (c ∷ s) = nolint_guard_here (c ∷ s) || has_nolint_guard s

starts_in_space : Text → Bool
unfolding is_space
starts_in_space [] = false
starts_in_space (c ∷ _) = is_space c

-- `^\s*#pragma\s+once`
unfoldable pub is_pragma_once : Text → Bool
unfolding starts_with lstrip starts_in_space
is_pragma_once line =
    let behind = drop 7 (lstrip line) in
    starts_with (codes "#pragma") (lstrip line)
    && starts_in_space behind
    && starts_with (codes "once") (lstrip behind)

-- One of the two loops that make the check return at once.
unfoldable pub is_exempt : List Text → Bool
is_exempt [] = false
is_exempt (line ∷ lines) = has_nolint_guard line || is_pragma_once line || is_exempt lines

-- `line.split()`, with the word read so far.
unfoldable pub words_onto : Text → Text → List Text
unfolding is_space
words_onto word [] = if text_eq word [] then [] else word ∷ []
words_onto word (c ∷ s) =
    let next = words_onto [] s in
    let more = words_onto (word ++ c ∷ []) s in
    if is_space c then (if text_eq word [] then next else word ∷ next) else more

second_of : Text → List Text → Text
unfolding text_eq
second_of directive [] = []
second_of directive (_ ∷ []) = []
second_of directive (first ∷ second ∷ _) = if text_eq first directive then second else []

-- The second word of a line whose first is the directive, and otherwise the empty text.
unfoldable pub argument : Text → Text → Text
unfolding words_onto second_of
argument directive line = second_of directive (words_onto [] line)

pub record Guard : Type 0 where
  pub ifndef : Text
  pub ifndef_linenum : ℕ
  pub define : Text
  pub endif : Text
  pub endif_linenum : ℕ

abbrev pub no_guard : Guard
no_guard = record { ifndef = []; ifndef_linenum = 0; define = []; endif = []; endif_linenum = 0 }

see_ifndef : ℕ → Text → Guard → Guard
see_ifndef linenum arg g =
    if text_eq g.ifndef [] && not (text_eq arg [])
    then record g { ifndef = arg; ifndef_linenum = linenum }
    else g

see_define : Text → Guard → Guard
see_define arg g =
    if text_eq g.define [] && not (text_eq arg []) then record g { define = arg } else g

see_endif : ℕ → Text → Guard → Guard
unfolding starts_with
see_endif linenum line g =
    if starts_with (codes "#endif") line
    then record g { endif = line; endif_linenum = linenum }
    else g

-- One round of the loop over the lines.
unfoldable pub see_line : ℕ → Text → Guard → Guard
unfolding see_ifndef see_define see_endif
see_line linenum line g = see_endif linenum line (
    see_define (argument (codes "#define") line)
      (see_ifndef linenum (argument (codes "#ifndef") line) g))

unfoldable pub see_lines : ℕ → List Text → Guard → Guard
see_lines linenum [] g = g
see_lines linenum (line ∷ lines) g = see_lines (linenum + 1) lines (see_line linenum line g)

guard_call : ℕ → ℕ → Text → Action
guard_call linenum confidence message = report (record {
  linenum = pos linenum;
  category = codes "build/header_guard";
  confidence = confidence;
  message = message;
})

after_underscore : Text → Option Bool
unfolding is_word
after_underscore [] = some true
after_underscore (c ∷ _) = if is_word c then none else some true

-- `(_)?\b` behind the variable, with the flag that the underscore is there.
line_end : Text → Option Bool
unfolding after_underscore is_word
line_end [] = some false
line_end (c ∷ s) =
    if c == b'_' then after_underscore s else (if is_word c then none else some false)

comment_end : Bool → Text → Option Bool
unfolding lstrip starts_with
comment_end underscore s = if starts_with (codes "*/") (lstrip s) then some underscore else none

-- `(_)?\s*\*/`
block_end : Text → Option Bool
unfolding comment_end
block_end [] = none
block_end (c ∷ s) = if c == b'_' then comment_end true s else comment_end false (c ∷ s)

-- `#endif`, the opening of a comment and the variable, each behind spaces but the first.
unfoldable pub endif_match : Text → (Text → Option Bool) → Text → Text → Option Bool
unfolding starts_with lstrip
endif_match opening ending cppvar endif =
    let comment = lstrip (drop 6 endif) in
    let name = lstrip (drop 2 comment) in
    if starts_with (codes "#endif") endif && starts_with opening comment && starts_with cppvar name
    then ending (drop (length cppvar) name)
    else none

-- A `//` outside of quotes; the quote that is open comes first.
unfoldable pub has_line_comment : Option ℕ → Text → Bool
unfolding starts_with
has_line_comment quote [] = false
has_line_comment (some q) (c ∷ s) =
    let closed = has_line_comment none s in
    let still = has_line_comment (some q) s in if c == q then closed else still
has_line_comment none (c ∷ s) =
    let quoted = has_line_comment (some c) s in
    let plain = has_line_comment none s in
    if starts_with (codes "//") (c ∷ s)
    then true
    else (if c == 34 || c == 39 then quoted else plain)

some_line_comment : List Text → Bool
unfolding has_line_comment
some_line_comment [] = false
some_line_comment (line ∷ lines) = has_line_comment none line || some_line_comment lines

message_of : Text → Text → Text → Text
message_of before cppvar behind =
    codes "#endif line should be \"#endif  " ++ before ++ cppvar ++ behind

-- What follows when the line of the `#endif` matches, with the flag for a second underscore.
matched : ℕ → Text → Bool → List Action
matched linenum message underscore = if underscore then guard_call linenum 0 message ∷ [] else []

-- The end of the check, for a line that has no `//` comment with the variable.
unfoldable pub check_block_comment : Text → List Text → Guard → List Action
unfolding some_line_comment message_of guard_call matched endif_match block_end
check_block_comment cppvar raw_lines g =
    let inner = drop 1 (take (length raw_lines - 1) raw_lines) in
    let wrong = guard_call g.endif_linenum 5 (message_of (codes "// ") cppvar (codes "\"")) ∷ [] in
    if some_line_comment inner
    then wrong
    else elim (endif_match (codes "/*") block_end cppvar g.endif) [
      | none ↦ wrong
      | some underscore ↦
          matched g.endif_linenum (message_of (codes "/* ") cppvar (codes " */\"")) underscore
    ]

unfoldable pub check_endif : Text → List Text → Guard → List Action
unfolding message_of matched line_end endif_match guard_call
check_endif cppvar raw_lines g =
    parse_nolint_on g.endif_linenum ∷ (elim (endif_match (codes "//") line_end cppvar g.endif) [
      | some underscore ↦
          matched g.endif_linenum (message_of (codes "// ") cppvar (codes "\"")) underscore
      | none ↦ check_block_comment cppvar raw_lines g
    ])

unfoldable pub check_style : Text → Guard → List Action
unfolding guard_call
check_style cppvar g =
    if text_eq g.ifndef cppvar
    then []
    else parse_nolint_on g.ifndef_linenum
      ∷ guard_call g.ifndef_linenum (if text_eq g.ifndef (cppvar ++ codes "_") then 0 else 5)
          (codes "#ifndef header guard has wrong style, please use: " ++ cppvar)
      ∷ []

unfoldable pub is_missing : Guard → Bool
unfolding text_eq
is_missing g = text_eq g.ifndef [] || text_eq g.define [] || not (text_eq g.ifndef g.define)

unfoldable pub missing_guard : Text → Action
unfolding guard_call
missing_guard cppvar =
    guard_call 0 5 (codes "No #ifndef header guard found, suggested CPP variable is: " ++ cppvar)

unfoldable pub check_for_header_guard : Text → List Text → List Action
check_for_header_guard cppvar raw_lines =
    let g = see_lines 0 raw_lines no_guard in
    if is_exempt raw_lines
    then []
    else if is_missing g
    then missing_guard cppvar ∷ []
    else check_style cppvar g ++ check_endif cppvar raw_lines g
