-- ===== src/Lint/Classify.antt =====
-- `_ClassifyInclude` and `_DropCommonSuffixes`. The functions of `os.path` are parameters.
pub mod Own
use simpledb.Prelude.{
  ℕ, ◌-◌, Bool, true, false, not, ◌&&◌, ◌||◌, List, [], ◌∷◌, ◌++◌, Option, none, some, ltb, ◌==◌,
  if◌then◌else◌, length, get_elem?, take, map,
}
use simpledb.Prelude.Text.{Text, codes, text_eq, text_mem, ends_with, replace}
use simpledb.Lint.CppHeaders.{cpp_headers}
use simpledb.Lint.Extensions.{Extensions, get_header_extensions, get_non_header_extensions}
use simpledb.Lint.Includes.{
  HeaderType, c_sys_header, cpp_sys_header, likely_my_header, possible_my_header, other_header,
}

-- `_test_suffixes`, without the underscore in front.
abbrev pub test_suffixes : List Text
test_suffixes = codes "test" ∷ codes "regtest" ∷ codes "unittest" ∷ []

abbrev pub header_suffixes : List Text
header_suffixes = codes "inl" ∷ codes "imp" ∷ codes "internal" ∷ []

with_extensions : Text → List Text → List Text
with_extensions suffix [] = []
with_extensions suffix (ext ∷ exts) = (suffix ++ 46 ∷ ext) ∷ with_extensions suffix exts

suffix_products : List Text → List Text → List Text
suffix_products [] exts = []
suffix_products (suffix ∷ suffixes) exts =
    with_extensions suffix exts ++ suffix_products suffixes exts

unfoldable pub common_suffixes : Extensions → List Text
unfolding suffix_products with_extensions
common_suffixes s =
    suffix_products test_suffixes (get_non_header_extensions s)
    ++ suffix_products header_suffixes (get_header_extensions s)

is_separator : Option ℕ → Bool
is_separator none = false
is_separator (some c) = c == b'-' || c == b'_'

-- The test of the loop of `_DropCommonSuffixes`.
unfoldable pub has_suffix : Text → Text → Bool
unfolding ends_with is_separator
has_suffix filename suffix =
    ends_with suffix filename
    && ltb (length suffix) (length filename)
    && is_separator (get_elem? filename (length filename - length suffix - 1))

unfoldable pub drop_suffix : List Text → Text → Text → Text
drop_suffix [] filename without_extension = without_extension
drop_suffix (suffix ∷ suffixes) filename without_extension =
    if has_suffix filename suffix
    then take (length filename - length suffix - 1) filename
    else drop_suffix suffixes filename without_extension

-- `^[^-_.]+`
unfoldable pub first_component : Text → Text
first_component [] = []
first_component (c ∷ s) =
    let rest = first_component s in if c == b'-' || c == b'_' || c == b'.' then [] else c ∷ rest

-- Both components are there and the same.
unfoldable pub same_component : Text → Text → Bool
unfolding text_eq
same_component target include =
    not (text_eq (first_component target) [])
    && not (text_eq (first_component include) [])
    && text_eq (first_component target) (first_component include)

module _ (split_path : Text → Text × Text) (splitext : Text → Text × Text)
    (normpath : Text → Text) where
  unfoldable pub drop_common_suffixes : Extensions → Text → Text
  unfolding drop_suffix
  drop_common_suffixes s filename = drop_suffix (common_suffixes s) filename (splitext filename).0

  -- The extensions that are not those of a C system header.
  unfoldable pub is_system_include : Text → Bool → Bool
  unfolding text_mem
  is_system_include include is_system =
      is_system
      && not (text_mem (splitext include).1 (codes ".hpp" ∷ codes ".hxx" ∷ codes ".h++" ∷ []))

  -- The directory `public` beside the file's own one.
  unfoldable pub public_dir : Text → Text
  unfolding replace
  public_dir target_dir =
      replace (codes "\\") (codes "/") (normpath (target_dir ++ codes "/../public"))

  unfoldable pub classify_own : Text × Text → Text × Text → HeaderType
  unfolding same_component public_dir
  classify_own (target_dir, target_base) (include_dir, include_base) =
      if text_eq target_base include_base
        && (text_eq include_dir target_dir || text_eq include_dir (public_dir target_dir))
      then likely_my_header
      else if same_component target_base include_base
      then possible_my_header
      else other_header

  -- `_ClassifyInclude` for a file of that name in the repository.
  unfoldable pub classify_include : Extensions → Text → Text → Bool → HeaderType
  classify_include s repository_name include is_system =
      if is_system_include include is_system
      then (if text_mem include cpp_headers then cpp_sys_header else c_sys_header)
      else classify_own (split_path (drop_common_suffixes s repository_name))
          (split_path (drop_common_suffixes s include))
