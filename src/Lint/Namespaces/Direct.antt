-- ===== src/Lint/Namespaces/Direct.antt =====
-- Only items directly inside of a namespace are checked.
use simpledb.Prelude.{ℕ, ◌≡◌, refl, Bool, true, false, List, [], ◌∷◌, some, arith, map, ◌||◌, ◌&&◌}
use simpledb.Prelude.Text.{Text}
use simpledb.Lint.Namespaces.{
  BlockKind, namespace_info, block_info, extern_c_info, class_info, new_block, is_namespace,
  is_block_in_namespace, is_forward_class_declaration, is_macro_definition,
  should_check_namespace_indentation,
}

-- The innermost block, and for an item that has just opened one the block around it.
abbrev pub around : Bool → List BlockKind → Bool
around forward [] = false
around true (top ∷ _) = is_namespace top
around false (top ∷ []) = false
around false (class_info ∷ below ∷ _) = is_namespace below
around false (namespace_info ∷ below ∷ _) = is_namespace below
around false (block_info ∷ _ ∷ _) = false
around false (extern_c_info ∷ _ ∷ _) = false

is_block_in_namespace-around :
    (forward : Bool) (kinds : List BlockKind)
    → is_block_in_namespace (map new_block kinds) forward ≡ around forward kinds
unfolding is_block_in_namespace new_block
is_block_in_namespace-around forward [] = refl
is_block_in_namespace-around true (block_info ∷ _) = refl
is_block_in_namespace-around true (extern_c_info ∷ _) = refl
is_block_in_namespace-around true (class_info ∷ _) = refl
is_block_in_namespace-around true (namespace_info ∷ _) = refl
is_block_in_namespace-around false (top ∷ []) = refl
is_block_in_namespace-around false (block_info ∷ _ ∷ _) = refl
is_block_in_namespace-around false (extern_c_info ∷ _ ∷ _) = refl
is_block_in_namespace-around false (class_info ∷ block_info ∷ _) = refl
is_block_in_namespace-around false (class_info ∷ extern_c_info ∷ _) = refl
is_block_in_namespace-around false (class_info ∷ class_info ∷ _) = refl
is_block_in_namespace-around false (class_info ∷ namespace_info ∷ _) = refl
is_block_in_namespace-around false (namespace_info ∷ block_info ∷ _) = refl
is_block_in_namespace-around false (namespace_info ∷ extern_c_info ∷ _) = refl
is_block_in_namespace-around false (namespace_info ∷ class_info ∷ _) = refl
is_block_in_namespace-around false (namespace_info ∷ namespace_info ∷ _) = refl

-- On blocks as their constructors make them, a line outside of macros is checked exactly when it
-- is an item or a forward declaration and stands directly in a namespace: for a forward
-- declaration the innermost block is the namespace, and for an item, which has opened a class or
-- a namespace itself, the block around it.
pub should_check_namespace_indentation_lem :
    (kinds : List BlockKind) (item forward : Bool) (lines : List Text) (linenum : ℕ)
    → is_forward_class_declaration lines linenum ≡ some forward
    → is_macro_definition lines linenum ≡ some false
    → should_check_namespace_indentation (map new_block kinds) item lines linenum
      ≡ some ((item || forward) && around forward kinds)
unfolding should_check_namespace_indentation
should_check_namespace_indentation_lem kinds item forward lines linenum f m =
    rw (f, m, is_block_in_namespace-around forward kinds) (ground arith)
