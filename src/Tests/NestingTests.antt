-- ===== src/Tests/NestingTests.antt =====
-- A condition with two branches, and lines with braces.
use simpledb.Prelude.{Option, none, some, List, map, true, ◌≡◌, refl, [], ◌∷◌, length}
use simpledb.Prelude.Text.{Text, codes, text_eq}
use simpledb.Lint.Nesting.Tokens
use simpledb.Lint.Nesting.{Stack, NestingState, update_preprocessor, open_block, directive}
use simpledb.Lint.Nesting.Tokens.{consume_braces}
use simpledb.Lint.Namespaces.{namespace_info}
use simpledb.Lint.Nesting.Conditions.{
  Line, Region, nothing, plain, condition, no_more, branch, update_lines, lines_of, IsRegion,
  first_branches, update_lines-IsRegion,
}
use simpledb.Lint.Nesting.Declarations.{consume_namespaces}
use simpledb.Lint.Nesting.Braces.{Braces, empty, other, nest, consume_braces-Braces}

abbrev code_line : Text → Line
code_line text = record { text = text; effect = consume_braces 1 text text }

abbrev region : Region
region =
    condition (codes "#ifdef A") (plain (code_line (codes "void f() {")) nothing)
      (branch (codes " # else") (plain (code_line (codes "void f(int) {")) nothing) no_more)
      (codes "#endif") (plain (code_line (codes "g();")) nothing)

abbrev fresh : NestingState
fresh = record { stack = []; pp_stack = [] }

program : Unit {0}
unfolding consume_braces update_preprocessor lines_of IsRegion text_eq directive open_block
    Tokens.open_brace
program = tt

region-IsRegion : IsRegion region
unfolding program
region-IsRegion = (refl, (refl, tt), (refl, (refl, tt), tt), refl, (refl, tt))

-- One block is open, not two.
one_block : length (update_lines (lines_of region) fresh).stack ≡ 1
unfolding program
one_block = refl

update_lines-IsRegion_example :
    update_lines (lines_of region) fresh
    ≡ record { stack = first_branches region []; pp_stack = [] }
update_lines-IsRegion_example = update_lines-IsRegion region fresh region-IsRegion

abbrev outer : Stack
unfolding open_block
outer = open_block namespace_info (codes "n") 0 true ∷ []

matched : Braces (codes "f{;}")
matched = other b'f' refl refl (nest (other b';' refl refl empty) empty)

consume_braces-Braces_example : consume_braces 3 (codes "f{;}") (codes "f{;}") outer ≡ outer
unfolding outer open_block
consume_braces-Braces_example = consume_braces-Braces 3 (codes "f{;}") outer matched refl

-- Two namespaces on a line: what is left of it, and the names of the open blocks.
abbrev left : Option (Text × Stack) → List Text
left none = []
left (some (line, stack)) = line ∷ map (λ b. b.name) stack

two_namespaces :
    left (consume_namespaces 40 0 (codes "namespace a { namespace b::c { x;") [])
    ≡ codes " x;" ∷ codes "b::c" ∷ codes "a" ∷ []
unfolding consume_namespaces open_block program
two_namespaces = refl
