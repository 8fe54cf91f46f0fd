-- ===== src/File/Page.antt =====
-- src/file/page.h and page.cpp: the bytes of a block. An `int` takes four bytes, the lowest
-- first, in two's complement. An access outside of the page, which is undefined in the source,
-- is `none`.
pub mod Laws
use simpledb.Prelude.{
  ℕ, ◌+◌, ◌-◌, ◌*◌, ◌/◌, ◌%◌, ◌^◌, ◌<◌, ◌≡◌, [], ◌∷◌, Option, none, some, arith, ltb, leb,
  if◌then◌else◌, length, replicate,
}
use simpledb.Prelude.Bytes.{Bytes, ◌>>=◌, read_at, write_at}
use simpledb.Prelude.Int.{ℤ, pos, negsuc}

abbrev pub Page : Type 0
Page = Bytes

-- `sizeof(int)`
abbrev pub int_size : ℕ
int_size = 4

-- `Page(int block_size)`: zeroed memory.
abbrev pub make : ℕ → Page
make block_size = replicate block_size 0

pattern_of : ℤ → ℕ
pattern_of (pos n) = n % 2 ^ 32
pattern_of (negsuc n) = 2 ^ 32 - 1 - n % 2 ^ 32

-- The bytes that `memcpy` takes from an `int`.
unfoldable pub encode_int : ℤ → Bytes
unfolding pattern_of
encode_int z =
    let u = pattern_of z in
    (u % 256) ∷ (u / 256 % 256) ∷ (u / 65536 % 256) ∷ (u / 16777216 % 256) ∷ []

word : Bytes → ℕ
word [] = 0
word (b ∷ bs) = b + 256 * word bs

-- The `int` that `memcpy` makes of four bytes.
unfoldable pub decode_int : Bytes → ℤ
unfolding word
decode_int bs = let u = word bs in if ltb u (2 ^ 31) then pos u else negsuc (2 ^ 32 - 1 - u)

abbrev pub IsInt : ℤ → Type 0
IsInt (pos n) = n < 2 ^ 31
IsInt (negsuc n) = n < 2 ^ 31

pub decode_int-encode_int : (z : ℤ) → IsInt z → decode_int (encode_int z) ≡ z
unfolding decode_int encode_int
decode_int-encode_int (pos n) h = ground arith
decode_int-encode_int (negsuc n) h = ground arith

unfoldable pub get_int : Page → ℕ → Option ℤ
get_int p offset =
    if leb (offset + int_size) (length p)
    then some (decode_int (read_at offset int_size p))
    else none

unfoldable pub set_int : Page → ℕ → ℤ → Option Page
set_int p offset num =
    if leb (offset + int_size) (length p) then some (write_at offset (encode_int num) p) else none

-- The blob of `length` bytes behind its length. A negative length is cast to a size that no
-- page has.
blob : Page → ℕ → ℤ → Option Bytes
blob p offset (negsuc n) = none
blob p offset (pos n) =
    if leb (offset + int_size + n) (length p) then some (read_at (offset + int_size) n p) else none

unfoldable pub get_bytes : Page → ℕ → Option Bytes
unfolding blob
get_bytes p offset = do len ← get_int p offset; blob p offset len

unfoldable pub set_bytes : Page → ℕ → Bytes → Option Page
set_bytes p offset bytes =
    if leb (offset + int_size + length bytes) (length p)
    then some
        (write_at (offset + int_size) bytes (write_at offset (encode_int (pos (length bytes))) p))
    else none

unfoldable pub get_string : Page → ℕ → Option Bytes
get_string p offset = get_bytes p offset

unfoldable pub set_string : Page → ℕ → Bytes → Option Page
set_string p offset s = set_bytes p offset s

-- `sizeof(CharSet)` is 1.
abbrev pub string_length : Bytes → ℕ
string_length s = int_size + length s * 1

abbrev pub contents : Page → Bytes
contents p = p
