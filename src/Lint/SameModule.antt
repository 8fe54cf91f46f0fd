-- ===== src/Lint/SameModule.antt =====
-- `FilesBelongToSameModule`, with the parts of `FileInfo` that it uses. `RepositoryName`, which
-- looks at the file system, and the functions of `os.path` are parameters.
use simpledb.Prelude.{
  ℕ, ◌-◌, Bool, true, false, List, [], ◌∷◌, Option, none, some, ◌==◌, if◌then◌else◌, length, take,
}
use simpledb.Prelude.Text.{Text, codes, text_mem, ends_with, replace}
use simpledb.Lint.Extensions.{Extensions, get_non_header_extensions, is_header_extension}
use simpledb.Lint.Classify.{test_suffixes}

-- `s[:-n]`, which is empty for 0.
unfoldable pub drop_end : ℕ → Text → Text
drop_end n s = if n == 0 then [] else take (length s - n) s

-- `s.lstrip('.')`
unfoldable pub lstrip_dots : Text → Text
lstrip_dots [] = []
lstrip_dots (c ∷ s) = let rest = lstrip_dots s in if c == b'.' then rest else c ∷ s

-- `Search(_TEST_FILE_SUFFIX, name)`: the suffix that is found.
unfoldable pub find_suffix : List Text → Text → Option Text
unfolding ends_with
find_suffix [] name = none
find_suffix (suffix ∷ suffixes) name =
    if ends_with (b'_' ∷ suffix) name then some (b'_' ∷ suffix) else find_suffix suffixes name

unfoldable pub without_suffix : Option Text → Text → Text
unfolding drop_end
without_suffix none filename = filename
without_suffix (some suffix) filename = drop_end (length suffix) filename

-- Both replacements of directories.
unfoldable pub without_dirs : Text → Text
unfolding replace
without_dirs filename =
    replace (codes "/internal/") (codes "/") (replace (codes "/public/") (codes "/") filename)

unfoldable pub without_inl : Text → Text
unfolding ends_with drop_end
without_inl filename =
    if ends_with (codes "-inl") filename
    then drop_end (length (codes "-inl")) filename
    else filename

-- The last step: whether the file of the header's module ends the other's, and what stands before.
unfoldable pub compare_modules : Text → Text → Bool × Text
unfolding ends_with drop_end
compare_modules cc h = if ends_with h cc then (true, drop_end (length h) cc) else (false, [])

module _ (repository_name : Text → Text) (split_path : Text → Text × Text)
    (splitext : Text → Text × Text) where
  -- `FileInfo.Split`
  unfoldable pub split_name : Text → Text × Text × Text
  split_name filename =
      let (project, rest) = split_path (repository_name filename) in
      let (root, ext) = splitext rest in (project, root, ext)

  unfoldable pub base_name : Text → Text
  unfolding split_name
  base_name filename = (split_name filename).1

  unfoldable pub extension : Text → Text
  unfolding split_name
  extension filename = (split_name filename).2

  -- What is compared of the file.
  unfoldable pub source_module : Text → Text
  unfolding without_dirs without_suffix find_suffix extension base_name
  source_module filename = without_dirs (
      without_suffix (find_suffix test_suffixes (base_name filename))
        (drop_end (length (extension filename)) filename))

  -- What is compared of the header.
  unfoldable pub header_module : Text → Text
  unfolding without_dirs without_inl extension
  header_module filename =
      without_dirs (without_inl (drop_end (length (extension filename)) filename))

  unfoldable pub is_source_name : Extensions → Text → Bool
  unfolding text_mem lstrip_dots
  is_source_name s filename =
      text_mem (lstrip_dots (extension filename)) (get_non_header_extensions s)

  unfoldable pub is_header_name : Extensions → Text → Bool
  unfolding lstrip_dots
  is_header_name s filename = is_header_extension (lstrip_dots (extension filename)) s

  unfoldable pub files_belong_to_same_module : Extensions → Text → Text → Bool × Text
  unfolding compare_modules source_module header_module is_source_name is_header_name
  files_belong_to_same_module s filename_cc filename_h =
      if is_source_name s filename_cc
      then (if is_header_name s filename_h
          then compare_modules (source_module filename_cc) (header_module filename_h)
          else (false, []))
      else (false, [])
