-- ===== src/Lint/Extensions.antt =====
-- The extensions of headers and of sources. A set of texts is a list of them, of which only the
-- members count.
pub mod Options
use simpledb.Prelude.{Bool, true, false, not, List, [], ◌∷◌, ◌++◌, if◌then◌else◌, map}
use simpledb.Prelude.Text.{Text, codes, text_mem, split, strip}
use simpledb.Lint.FileChecks.{has_char}

-- `_hpp_headers` and `_valid_extensions`
pub record Extensions : Type 0 where
  pub hpp_headers : List Text
  pub valid_extensions : List Text

-- `{h for h in extensions if 'h' in h}`
unfoldable pub with_h : List Text → List Text
unfolding has_char
with_h [] = []
with_h (h ∷ extensions) = let rest = with_h extensions in if has_char b'h' h then h ∷ rest else rest

unfoldable pub without : List Text → List Text → List Text
without others [] = []
without others (e ∷ extensions) =
    let rest = without others extensions in if text_mem e others then rest else e ∷ rest

-- `a or b` for sets.
unfoldable pub or_else : List Text → List Text → List Text
or_else [] others = others
or_else (e ∷ extensions) others = e ∷ extensions

abbrev pub default_headers : List Text
default_headers =
    codes "h" ∷ codes "hh" ∷ codes "hpp" ∷ codes "hxx" ∷ codes "h++" ∷ codes "cuh" ∷ []

abbrev pub default_sources : List Text
default_sources = codes "c" ∷ codes "cc" ∷ codes "cpp" ∷ codes "cxx" ∷ codes "c++" ∷ codes "cu" ∷ []

valid_headers : List Text → List Text
unfolding with_h
valid_headers [] = default_headers
valid_headers (e ∷ extensions) = with_h (e ∷ extensions)

unfoldable pub get_header_extensions : Extensions → List Text
unfolding or_else valid_headers
get_header_extensions s = or_else s.hpp_headers (valid_headers s.valid_extensions)

unfoldable pub is_header_extension : Text → Extensions → Bool
is_header_extension file_extension s = text_mem file_extension (get_header_extensions s)

unfoldable pub get_all_extensions : Extensions → List Text
unfolding or_else
get_all_extensions s = get_header_extensions s ++ or_else s.valid_extensions default_sources

unfoldable pub get_non_header_extensions : Extensions → List Text
unfolding without
get_non_header_extensions s = without (get_header_extensions s) (get_all_extensions s)

-- `_IsSourceExtension`
unfoldable pub is_source_extension : Text → Extensions → Bool
is_source_extension e s = text_mem e (get_non_header_extensions s)

unfoldable pub process_hpp_headers_option : Text → Extensions → Extensions
unfolding split strip
process_hpp_headers_option val s = record s { hpp_headers = map strip (split b',' val) }

unfoldable pub process_extensions_option : Text → Extensions → Extensions
unfolding split strip
process_extensions_option val s = record s { valid_extensions = map strip (split b',' val) }
