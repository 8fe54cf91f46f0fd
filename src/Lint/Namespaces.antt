-- ===== src/Lint/Namespaces.antt =====
-- The indentation inside of a namespace: the kinds of blocks, and the functions that decide
-- whether a line is checked. The innermost block comes first.
pub mod Direct
use simpledb.Prelude.{
  ℕ, zero, suc, Bool, true, false, not, ◌&&◌, ◌||◌, List, [], ◌∷◌, Option, none, some, ◌==◌,
  if◌then◌else◌, drop, get_elem?,
}
use simpledb.Prelude.Bytes.{◌>>=◌}
use simpledb.Prelude.Text.{Text, codes, starts_with, ends_with, is_space, is_word, lstrip}
use simpledb.Lint.FileChecks.{is_blank_line}

-- `_BlockInfo` and its subclasses.
pub data BlockKind : Type 0 where
  block_info : BlockKind
  extern_c_info : BlockKind
  class_info : BlockKind
  namespace_info : BlockKind

pub record Block : Type 0 where
  pub kind : BlockKind
  pub check_namespace_indentation : Bool

-- The constructors of the four classes set the flag.
unfoldable pub new_block : BlockKind → Block
new_block block_info = record { kind = block_info; check_namespace_indentation = false }
new_block extern_c_info = record { kind = extern_c_info; check_namespace_indentation = false }
new_block class_info = record { kind = class_info; check_namespace_indentation = true }
new_block namespace_info = record { kind = namespace_info; check_namespace_indentation = true }

-- `isinstance(block, _NamespaceInfo)`
abbrev pub is_namespace : BlockKind → Bool
is_namespace namespace_info = true
is_namespace block_info = false
is_namespace extern_c_info = false
is_namespace class_info = false

-- `IsBlockInNameSpace`
unfoldable pub is_block_in_namespace : List Block → Bool → Bool
is_block_in_namespace [] _ = false
is_block_in_namespace (top ∷ _) true = is_namespace top.kind
is_block_in_namespace (top ∷ []) false = false
is_block_in_namespace (top ∷ below ∷ _) false =
    top.check_namespace_indentation && is_namespace below.kind

-- `\w+;\s*$`, with the flag that a character of the word has come.
unfoldable pub ends_declaration : Bool → Text → Bool
unfolding is_word is_blank_line
ends_declaration some_char [] = false
ends_declaration some_char (c ∷ s) =
    let more = ends_declaration true s in
    if is_word c then more else some_char && c == b';' && is_blank_line s

starts_in_space : Text → Bool
unfolding is_space
starts_in_space [] = false
starts_in_space (c ∷ _) = is_space c

-- `class\s+\w+;\s*$` somewhere in the line.
unfoldable pub has_forward_class : Text → Bool
unfolding starts_with starts_in_space lstrip ends_declaration
has_forward_class [] = false
has_forward_class (c ∷ s) =
    let behind = drop 5 (c ∷ s) in
    (starts_with (codes "class") (c ∷ s)
      && starts_in_space behind
      && ends_declaration false (lstrip behind))
    || has_forward_class s

-- `IsForwardClassDeclaration`; `none` is an index that is out of range.
unfoldable pub is_forward_class_declaration : List Text → ℕ → Option Bool
unfolding has_forward_class
is_forward_class_declaration lines linenum = do
  line ← get_elem? lines linenum
  some (has_forward_class line)

-- The line before goes on on this one.
is_continued : List Text → ℕ → Option Bool
unfolding ends_with
is_continued lines zero = some false
is_continued lines (suc before) = do
  line ← get_elem? lines before
  some (ends_with (codes "\\") line)

-- `IsMacroDefinition`
unfoldable pub is_macro_definition : List Text → ℕ → Option Bool
unfolding starts_with is_continued
is_macro_definition lines linenum = do
  line ← get_elem? lines linenum
  if starts_with (codes "#define") line then some true else is_continued lines linenum

-- `ShouldCheckNamespaceIndentation`
unfoldable pub should_check_namespace_indentation : List Block → Bool → List Text → ℕ → Option Bool
should_check_namespace_indentation stack is_namespace_indent_item lines linenum = do
  is_forward_declaration ← is_forward_class_declaration lines linenum
  in_macro ← is_macro_definition lines linenum
  some (
      if not (is_namespace_indent_item || is_forward_declaration)
      then false
      else if in_macro
      then false
      else is_block_in_namespace stack is_forward_declaration)

-- `CheckItemIndentationInNamespace`: whether the line is reported.
unfoldable pub check_item_indentation : List Text → ℕ → Option Bool
unfolding starts_in_space
check_item_indentation lines linenum = do
  line ← get_elem? lines linenum
  some (starts_in_space line)
