-- ===== src/Lint/Classify/Own.antt =====
-- The header of a file itself is recognized.
use simpledb.Prelude.{◌≡◌, refl, false}
use simpledb.Prelude.Text.{Text, text_eq_self}
use simpledb.Lint.Classify.{classify_include, classify_own, drop_common_suffixes, is_system_include}
use simpledb.Lint.Extensions.{Extensions}
use simpledb.Lint.Includes.{likely_my_header}

module _ (split_path : Text → Text × Text) (splitext : Text → Text × Text)
    (normpath : Text → Text) where
  own : (p : Text × Text) → classify_own split_path splitext normpath p p ≡ likely_my_header
  unfolding classify_own
  own (dir, base) = rw (text_eq_self base, text_eq_self dir) refl

  -- An include in quotes whose path is the path of the file, but for the extension and the common
  -- suffixes of both, is classified as the header that the file implements.
  pub classify_include-own :
      (s : Extensions) (repository_name include : Text)
      → drop_common_suffixes split_path splitext normpath s repository_name
        ≡ drop_common_suffixes split_path splitext normpath s include
      → classify_include split_path splitext normpath s repository_name include false
        ≡ likely_my_header
  unfolding classify_include is_system_include
  classify_include-own s repository_name include h =
      rw h (own (split_path (drop_common_suffixes split_path splitext normpath s include)))
