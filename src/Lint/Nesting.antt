-- ===== src/Lint/Nesting.antt =====
-- `NestingState`: the stack of open blocks, the innermost first, and the checkpoints of the
-- preprocessor's conditions. Of `Update`, the conditions, the parentheses with inline assembly, and
-- the braces are modelled, the last two in Tokens; not the declarations of classes, nor the checks that
-- `CheckBegin` and `CheckEnd` make.
pub mod Conditions
pub mod Declarations
pub mod Tokens
pub mod Braces
use simpledb.Prelude.{
  ℕ, zero, suc, ◌+◌, ◌==◌, Bool, true, false, not, ◌&&◌, ◌||◌, List, [], ◌∷◌, ◌++◌, Option, none,
  some, if◌then◌else◌, take, map,
}
use simpledb.Prelude.Int.{ℤ, pos, int_eq, ◌+ℤ◌, sub_ℕ}
use simpledb.Prelude.Text.{Text, codes, text_mem, is_space, is_word, lstrip}
use simpledb.Lint.Cleanse.{span}
use simpledb.Lint.FileChecks.{Call}
use simpledb.Lint.Namespaces.{
  Block, BlockKind, block_info, extern_c_info, class_info, namespace_info, new_block,
}
use simpledb.Lint.Strings.{behind}

-- `_NO_ASM` and the other states.
pub data Asm : Type 0 where
  no_asm : Asm
  inside_asm : Asm
  end_asm : Asm
  block_asm : Asm

-- A block with the state of its parsing.
pub record OpenBlock : Type 0 where
  pub info : Block
  pub name : Text
  pub starting_linenum : ℕ
  pub seen_open_brace : Bool
  pub open_parentheses : ℤ
  pub inline_asm : Asm

-- `_BlockInfo.__init__`, for the four classes.
unfoldable pub open_block : BlockKind → Text → ℕ → Bool → OpenBlock
unfolding new_block
open_block kind name linenum seen = record {
  info = new_block kind;
  name = name;
  starting_linenum = linenum;
  seen_open_brace = seen;
  open_parentheses = pos 0;
  inline_asm = no_asm;
}

abbrev pub Stack : Type 0
Stack = List OpenBlock

-- `_PreprocessorInfo`
pub record PreprocessorInfo : Type 0 where
  pub stack_before_if : Stack
  pub stack_before_else : Stack
  pub seen_else : Bool

pub record NestingState : Type 0 where
  pub stack : Stack
  pub pp_stack : List PreprocessorInfo

-- `SeenOpenBrace`
abbrev pub has_seen_open_brace : Stack → Bool
has_seen_open_brace [] = true
has_seen_open_brace (top ∷ _) = top.seen_open_brace

-- Whether the innermost block is of a kind.
abbrev pub top_is : (BlockKind → Bool) → Stack → Bool
top_is test [] = false
top_is test (top ∷ _) = test top.info.kind

abbrev is_extern_c : BlockKind → Bool
is_extern_c block_info = false
is_extern_c extern_c_info = true
is_extern_c class_info = false
is_extern_c namespace_info = false

abbrev pub is_class : BlockKind → Bool
is_class block_info = false
is_class extern_c_info = false
is_class class_info = true
is_class namespace_info = false

abbrev pub is_namespace_kind : BlockKind → Bool
is_namespace_kind block_info = false
is_namespace_kind extern_c_info = false
is_namespace_kind class_info = false
is_namespace_kind namespace_info = true

abbrev pub in_namespace_body : Stack → Bool
in_namespace_body stack = top_is is_namespace_kind stack

abbrev pub in_extern_c : Stack → Bool
in_extern_c stack = top_is is_extern_c stack

abbrev pub in_class_declaration : Stack → Bool
in_class_declaration stack = top_is is_class stack

abbrev is_no_asm : Asm → Bool
is_no_asm no_asm = true
is_no_asm inside_asm = false
is_no_asm end_asm = false
is_no_asm block_asm = false

abbrev pub in_asm_block : Stack → Bool
in_asm_block [] = false
in_asm_block (top ∷ _) = not (is_no_asm top.inline_asm)

-- The directives that `UpdatePreprocessor` looks for.
pub data Directive : Type 0 where
  begins : Directive
  otherwise : Directive
  ends : Directive

directive_word : Text → Option Directive
unfolding text_mem
directive_word word =
    if text_mem word (codes "if" ∷ codes "ifdef" ∷ codes "ifndef" ∷ [])
    then some begins
    else if text_mem word (codes "else" ∷ codes "elif" ∷ [])
    then some otherwise
    else if text_mem word (codes "endif" ∷ [])
    then some ends
    else none

-- `^\s*#\s*(...)\b`
unfoldable pub directive : Text → Option Directive
unfolding behind lstrip is_word directive_word
directive line = elim (behind (codes "#") (lstrip line)) [
  | none ↦ none
  | some s ↦ let rest = lstrip s in directive_word (take (span is_word rest) rest)
]

unfoldable pub see_if : NestingState → NestingState
see_if state = record state {
  pp_stack =
      record { stack_before_if = state.stack; stack_before_else = []; seen_else = false }
      ∷ state.pp_stack;
}

unfoldable pub see_else : NestingState → NestingState
see_else state = elim state.pp_stack [
  | [] ↦ state
  | top ∷ below ↦ record {
    stack = top.stack_before_if;
    pp_stack =
        (if top.seen_else
          then top
          else record top { seen_else = true; stack_before_else = state.stack })
        ∷ below;
  }
]

unfoldable pub see_endif : NestingState → NestingState
see_endif state = elim state.pp_stack [
  | [] ↦ state
  | top ∷ below ↦ record {
    stack = if top.seen_else then top.stack_before_else else state.stack;
    pp_stack = below;
  }
]

-- `UpdatePreprocessor`
unfoldable pub update_preprocessor : Text → NestingState → NestingState
unfolding directive see_if see_else see_endif
update_preprocessor line state = elim (directive line) [
  | none ↦ state
  | some begins ↦ see_if state
  | some otherwise ↦ see_else state
  | some ends ↦ see_endif state
]

-- `InnermostClass`
abbrev pub innermost_class : Stack → Option OpenBlock
innermost_class [] = none
innermost_class (top ∷ below) = if is_class top.info.kind then some top else innermost_class below

abbrev incomplete : OpenBlock → List Call → List Call
incomplete block rest = elim block.info.kind [
  | class_info ↦
      record {
        linenum = pos block.starting_linenum;
        category = codes "build/class";
        confidence = 5;
        message = codes "Failed to find complete declaration of class " ++ block.name;
      }
      ∷ rest
  | namespace_info ↦
      record {
        linenum = pos block.starting_linenum;
        category = codes "build/namespaces";
        confidence = 5;
        message = codes "Failed to find complete declaration of namespace " ++ block.name;
      }
      ∷ rest
  | block_info ↦ rest
  | extern_c_info ↦ rest
]

-- `CheckCompletedBlocks`, onto the calls that follow: the outermost block is reported first.
unfoldable pub check_completed_blocks : Stack → List Call → List Call
check_completed_blocks [] calls = calls
check_completed_blocks (top ∷ below) calls = check_completed_blocks below (incomplete top calls)
