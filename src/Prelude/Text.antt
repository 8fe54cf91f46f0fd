-- ===== src/Prelude/Text.antt =====
-- Text as a list of character codes, with the string operations that the sources use.
use Prim.Native.Char.{code}
use Prim.Native.Nat.{ℕ, zero, suc, ◌+◌, ◌-◌}
use Prim.Native.String.{String}
use mathlib.Core.Bool.{Bool, true, false, ◌&&◌, ◌||◌}
use mathlib.Core.List.{List, [], ◌∷◌, ◌++◌, map, reverse}
use mathlib.Core.Logic.{◌↔◌, inl, inr}
use mathlib.Core.Option.{Option, none, some}
use mathlib.Core.Path.{◌≡◌, refl}
use native.Mathlib.Omega.{arith}
use simpledb.Prelude.Lists.{length, drop}
use simpledb.Prelude.Tests.{leb, ◌==◌, if◌then◌else◌, Bool-cases}

abbrev pub Text : Type 0
Text = List ℕ

abbrev pub codes : String → Text
codes String.[] = []
codes (String.◌∷◌ c s) = code c ∷ codes s

unfoldable pub text_eq : Text → Text → Bool
text_eq [] [] = true
text_eq (a ∷ s) (b ∷ t) = a == b && text_eq s t
text_eq _ _ = false

pub text_eq_iff : (s t : Text) → (text_eq s t ≡ true) ↔ (s ≡ t)
unfolding text_eq
text_eq_iff (a ∷ s) (b ∷ t) = ground (arith, text_eq_iff s t)
text_eq_iff _ _ = ground arith

pub text_eq_self : (s : Text) → text_eq s s ≡ true
text_eq_self s = (text_eq_iff s s).1 refl

-- `x in texts`
unfoldable pub text_mem : Text → List Text → Bool
unfolding text_eq
text_mem s [] = false
text_mem s (t ∷ ts) = text_eq s t || text_mem s ts

-- `s.startswith(prefix)`
unfoldable pub starts_with : Text → Text → Bool
starts_with [] s = true
starts_with (a ∷ p) [] = false
starts_with (a ∷ p) (b ∷ s) = a == b && starts_with p s

-- `s.endswith(suffix)`
unfoldable pub ends_with : Text → Text → Bool
unfolding text_eq
ends_with suffix s =
    leb (length suffix) (length s) && text_eq (drop (length s - length suffix) s) suffix

-- The offset of the first occurrence, counted from `i`.
unfoldable pub find_from : ℕ → Text → Text → Option ℕ
unfolding starts_with
find_from i sub [] = if starts_with sub [] then some i else none
find_from i sub (c ∷ s) = if starts_with sub (c ∷ s) then some i else find_from (i + 1) sub s

-- `s.find(sub)`, with `none` for -1.
unfoldable pub find : Text → Text → Option ℕ
unfolding find_from
find sub s = find_from 0 sub s

-- The white space of `str.strip` and of `\s`, for texts of ASCII characters.
unfoldable pub is_space : ℕ → Bool
is_space c = c == 32 || (leb 9 c && leb c 13) || (leb 28 c && leb c 31)

unfoldable pub lstrip : Text → Text
unfolding is_space
lstrip [] = []
lstrip (c ∷ s) = if is_space c then lstrip s else c ∷ s

unfoldable pub rstrip : Text → Text
unfolding lstrip
rstrip s = reverse (lstrip (reverse s))

unfoldable pub strip : Text → Text
unfolding rstrip
strip s = rstrip (lstrip s)

-- `\w`
unfoldable pub is_word : ℕ → Bool
is_word c =
    (leb b'a' c && leb c b'z')
    || (leb b'A' c && leb c b'Z')
    || (leb b'0' c && leb c b'9')
    || c == b'_'

-- `s.split(sep)` for a separator of one character, with the field read so far.
unfoldable pub split_onto : ℕ → Text → Text → List Text
split_onto sep field [] = field ∷ []
split_onto sep field (c ∷ s) =
    let rest = split_onto sep [] s in
    let more = split_onto sep (field ++ c ∷ []) s in if c == sep then field ∷ rest else more

pub split_onto-cons :
    (sep : ℕ) (field text : Text)
    → (first : Text) × (rest : List Text) × (split_onto sep field text ≡ first ∷ rest)
unfolding split_onto
split_onto-cons sep field [] = (field, [], refl)
split_onto-cons sep field (c ∷ text) = elim (Bool-cases (c == sep)) [
  | inl e ↦ (field, split_onto sep [] text, rw e refl)
  | inr e ↦
      let (first, rest, p) = split_onto-cons sep (field ++ c ∷ []) text in (first, rest, rw e p)
]

unfoldable pub split : ℕ → Text → List Text
unfolding split_onto
split sep s = split_onto sep [] s

-- `s.replace(old, new)`: `skip` characters of an occurrence are still to be passed over.
unfoldable pub replace_from : Text → Text → ℕ → Text → Text
unfolding starts_with
replace_from old new skip [] = []
replace_from old new (suc skip) (c ∷ s) = replace_from old new skip s
replace_from old new zero (c ∷ s) =
    let passed = replace_from old new (length old - 1) s in
    let kept = replace_from old new zero s in
    if starts_with old (c ∷ s) then new ++ passed else c ∷ kept

unfoldable pub replace : Text → Text → Text → Text
unfolding replace_from
replace old new s = replace_from old new 0 s

unfoldable pub lower_char : ℕ → ℕ
lower_char c = if leb b'A' c && leb c b'Z' then c + 32 else c

unfoldable pub lower : Text → Text
unfolding lower_char
lower s = map lower_char s
