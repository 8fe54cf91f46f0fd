-- ===== src/Lint/Extensions/Options.antt =====
-- The options for the extensions decide what is a header and what is a source.
use simpledb.Prelude.{
  ◌≡◌, refl, ap, not, ◌&&◌, ◌||◌, List, [], ◌∷◌, ◌++◌, map, arith, Bool-cases, inl, inr,
}
use simpledb.Prelude.Text.{Text, text_mem, text_eq, text_eq_iff, split, split_onto-cons, strip}
use simpledb.Lint.FileChecks.{has_char}
use simpledb.Lint.Extensions.{
  Extensions, with_h, without, or_else, get_header_extensions, get_all_extensions,
  get_non_header_extensions, is_header_extension, is_source_extension, process_extensions_option,
}

text_mem-append :
    (e : Text) (xs ys : List Text) → text_mem e (xs ++ ys) ≡ (text_mem e xs || text_mem e ys)
unfolding text_mem
text_mem-append e [] ys = refl
text_mem-append e (x ∷ xs) ys = ground (arith, text_mem-append e xs ys)

text_mem-without :
    (e : Text) (others xs : List Text)
    → text_mem e (without others xs) ≡ (text_mem e xs && not (text_mem e others))
unfolding text_mem without
text_mem-without e others [] = refl
text_mem-without e others (x ∷ xs) = elim (Bool-cases (text_eq e x)) [
  | inl same ↦
      let p : e ≡ x = (text_eq_iff e x).0 same in
      let q : text_mem e others ≡ text_mem x others = ap (λ y. text_mem y others) p in
      ground (arith, text_mem-without e others xs)
  | inr other ↦ ground (arith, text_mem-without e others xs)
]

text_mem-with_h :
    (e : Text) (xs : List Text) → text_mem e (with_h xs) ≡ (text_mem e xs && has_char 104 e)
unfolding text_mem with_h
text_mem-with_h e [] = refl
text_mem-with_h e (x ∷ xs) = elim (Bool-cases (text_eq e x)) [
  | inl same ↦
      let p : e ≡ x = (text_eq_iff e x).0 same in
      let q : has_char 104 e ≡ has_char 104 x = ap (has_char 104) p in
      ground (arith, text_mem-with_h e xs)
  | inr other ↦ ground (arith, text_mem-with_h e xs)
]

listed :
    (x : Text) (xs : List Text) (e : Text) (s : Extensions)
    → s.hpp_headers ≡ []
    → (is_header_extension e (record s { valid_extensions = x ∷ xs })
        ≡ (text_mem e (x ∷ xs) && has_char 104 e))
      × (is_source_extension e (record s { valid_extensions = x ∷ xs })
          ≡ (text_mem e (x ∷ xs) && not (has_char 104 e)))
unfolding is_header_extension is_source_extension get_header_extensions get_all_extensions
    get_non_header_extensions or_else
listed x xs e s h = (
  rw h (text_mem-with_h e (x ∷ xs)),
  rw h (
      ground (
        arith,
        text_mem-without e (with_h (x ∷ xs)) (with_h (x ∷ xs) ++ x ∷ xs),
        text_mem-append e (with_h (x ∷ xs)) (x ∷ xs),
        text_mem-with_h e (x ∷ xs),
      )),
)

-- After the option `--extensions`, without one for the headers, a listed extension is one of a
-- header when it holds the letter h and one of a source when it does not, and no other extension
-- is one of either.
pub process_extensions_option_lem :
    (val e : Text) (s : Extensions)
    → s.hpp_headers ≡ []
    → (is_header_extension e (process_extensions_option val s)
        ≡ (text_mem e (map strip (split 44 val)) && has_char 104 e))
      × (is_source_extension e (process_extensions_option val s)
          ≡ (text_mem e (map strip (split 44 val)) && not (has_char 104 e)))
unfolding process_extensions_option split
process_extensions_option_lem val e s h =
    let (x, xs, p) = split_onto-cons 44 [] val in rw p (listed (strip x) (map strip xs) e s h)
