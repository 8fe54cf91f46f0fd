-- ===== src/File/Page/Laws.antt =====
-- What is read from a page after a write: the value written, and what stood beside it.
use simpledb.Prelude.{
  leb, leb→le, ℕ, ◌+◌, ◌^◌, ◌≤◌, ◌<◌, ◌≡◌, refl, ◌∙◌, Option, none, some, arith, length, Bool-cases,
  Option-cases, inl, inr, ap, sym,
}
use simpledb.Prelude.Bytes.{
  length-read_at, Bytes, ◌>>=◌, read_at, write_at, length-write_at, read_at-write_at,
  read_at-write_at_before, read_at-write_at_after,
}
use simpledb.Prelude.Int.{ℤ, pos, negsuc}
use simpledb.File.Page.{
  Page, int_size, IsInt, encode_int, decode_int-encode_int, get_int, set_int, blob, get_bytes,
  set_bytes,
}

pub length-encode_int : (z : ℤ) → length (encode_int z) ≡ int_size
unfolding encode_int
length-encode_int z = refl

read_at-encode_int :
    (p : Page) (o : ℕ) (z : ℤ) → read_at o int_size (write_at o (encode_int z) p) ≡ encode_int z
read_at-encode_int p o z = rw (length-encode_int z) at (read_at-write_at o (encode_int z) p)

-- An `int` that was set inside of the page is read back, if it fits into 32 bits.
pub get_int-set_int :
    (p : Page) (o : ℕ) (z : ℤ) {q : Page} → IsInt z → set_int p o z ≡ some q → get_int q o ≡ some z
unfolding get_int set_int
get_int-set_int p o z h e = ground (
  arith,
  decode_int-encode_int z h,
  length-write_at o (encode_int z) p,
  length-encode_int z,
  read_at-encode_int p o z,
)

module _ (p : Page) (a : ℕ) (w : Bytes) (o : ℕ) (inside : a + length w ≤ length p) where
  get_int-write_at_after : a + length w ≤ o → get_int (write_at a w p) o ≡ get_int p o
  unfolding get_int
  get_int-write_at_after h =
      rw (length-write_at a w p inside, read_at-write_at_after o int_size a w p h inside)

  get_int-write_at_before : o + int_size ≤ a → get_int (write_at a w p) o ≡ get_int p o
  unfolding get_int
  get_int-write_at_before h = rw (
    length-write_at a w p inside,
    read_at-write_at_before o int_size a w p h (omega (arith, inside)),
  )

  blob-write_at_after : (n : ℤ) → a + length w ≤ o → blob (write_at a w p) o n ≡ blob p o n
  unfolding blob
  blob-write_at_after (pos n) h = rw (
    length-write_at a w p inside,
    read_at-write_at_after (o + int_size) n a w p (omega arith) inside,
  )
  blob-write_at_after (negsuc n) h = refl

  -- A write leaves the blobs behind it.
  pub get_bytes-write_at_after : a + length w ≤ o → get_bytes (write_at a w p) o ≡ get_bytes p o
  unfolding get_bytes
  get_bytes-write_at_after h = rw (get_int-write_at_after h) (go (get_int p o))
    where
      go : (i : Option ℤ) → (i >>= blob (write_at a w p) o) ≡ (i >>= blob p o)
      go none = refl
      go (some n) = blob-write_at_after n h

-- A blob that was set inside of the page is read back, if its length fits into an `int`; the
-- page keeps its size, and the blobs behind are left.
pub set_bytes_lem :
    (p : Page) (o : ℕ) (v : Bytes)
    → o + int_size + length v ≤ length p
    → length v < 2 ^ 31
    → (q : Page) × (set_bytes p o v ≡ some q)
      × (get_bytes q o ≡ some v)
      × (length q ≡ length p)
      × ((o' : ℕ) → o + int_size + length v ≤ o' → get_bytes q o' ≡ get_bytes p o')
unfolding set_bytes get_bytes
set_bytes_lem p o v h fits = (
  q,
  ground arith,
  rw (header) (rw (outer, read_at-write_at (o + int_size) v r) (ground arith)),
  outer,
  λ o' after.
      get_bytes-write_at_after r (o + int_size) v o' bound after
      ∙ get_bytes-write_at_after p o (encode_int n) o' (omega (arith, length-encode_int n))
          (omega (arith, length-encode_int n)),
)
  where
    n : ℤ
    n = pos (length v)

    r : Page
    r = write_at o (encode_int n) p

    q : Page
    q = write_at (o + int_size) v r

    inner : length r ≡ length p
    inner = length-write_at o (encode_int n) p (omega (arith, length-encode_int n))

    bound : o + int_size + length v ≤ length r
    bound = omega (arith, inner)

    outer : length q ≡ length p
    outer = length-write_at (o + int_size) v r bound ∙ inner

    header : get_int q o ≡ some n
    header =
        get_int-write_at_before r (o + int_size) v o bound (omega arith)
        ∙ get_int-set_int p o n fits (unfold set_int in ground arith)

set_bytes_bound :
    (p : Page) (o : ℕ) (v : Bytes) {q : Page}
    → set_bytes p o v ≡ some q
    → o + int_size + length v ≤ length p
unfolding set_bytes
set_bytes_bound p o v e = ground arith

-- A blob that was set is read back from the same offset, if its length fits into an `int`.
pub get_bytes-set_bytes :
    (p : Page) (o : ℕ) (v : Bytes) {q : Page}
    → length v < 2 ^ 31
    → set_bytes p o v ≡ some q
    → get_bytes q o ≡ some v
get_bytes-set_bytes p o v fits e =
    let (_, e', held, _, _) = set_bytes_lem p o v (set_bytes_bound p o v e) fits in cc (e, e', held)

-- An `int` set inside of the page keeps the page's size and the blobs behind it.
pub set_int_lem :
    (p : Page) (o : ℕ) (z : ℤ)
    → o + int_size ≤ length p
    → IsInt z
    → (q : Page) × (set_int p o z ≡ some q)
      × (get_int q o ≡ some z)
      × (length q ≡ length p)
      × ((o' : ℕ) → o + int_size ≤ o' → get_bytes q o' ≡ get_bytes p o')
unfolding set_int
set_int_lem p o z h fits = (
  write_at o (encode_int z) p,
  ground arith,
  get_int-set_int p o z fits (ground arith),
  length-write_at o (encode_int z) p (omega (arith, length-encode_int z)),
  λ o' after.
      get_bytes-write_at_after p o (encode_int z) o' (omega (arith, length-encode_int z))
        (omega (arith, length-encode_int z)),
)

pub get_bytes_bound :
    (p : Page) (o : ℕ) (v : Bytes) → get_bytes p o ≡ some v → o + int_size ≤ length p
unfolding get_bytes get_int
get_bytes_bound p o v e = ground arith

blob_lem :
    (p : Page) (o : ℕ) (z : ℤ) {v : Bytes}
    → blob p o z ≡ some v
    → (z ≡ pos (length v))
      × (o + int_size + length v ≤ length p)
      × (read_at (o + int_size) (length v) p ≡ v)
unfolding blob
blob_lem p o (negsuc n) e = cc
blob_lem p o (pos n) {v} e = elim (Bool-cases (leb (o + int_size + n) (length p))) [
  | inl inside ↦
      let same : read_at (o + int_size) n p ≡ v = ground arith in
      let size : length v ≡ n =
        ap length (sym same) ∙ length-read_at (o + int_size) n p (leb→le _ _ inside) in
      (rw size refl, ground arith, rw size same)
  | inr outside ↦ absurd (ground arith)
]

-- What a page holds when a blob is read from it, and the other way round.
pub get_bytes_lem :
    (p : Page) (o : ℕ) {v : Bytes}
    → get_bytes p o ≡ some v
    → (get_int p o ≡ some (pos (length v)))
      × (o + int_size + length v ≤ length p)
      × (read_at (o + int_size) (length v) p ≡ v)
unfolding get_bytes
get_bytes_lem p o e = elim (Option-cases (get_int p o)) [
  | inl failed ↦ absurd (ground arith)
  | inr (z, found) ↦
      let (size, inside, same) = blob_lem p o z (ground arith) in (rw (← size) found, inside, same)
]

pub get_bytes-some :
    (p : Page) (o : ℕ) (v : Bytes)
    → get_int p o ≡ some (pos (length v))
    → o + int_size + length v ≤ length p
    → read_at (o + int_size) (length v) p ≡ v
    → get_bytes p o ≡ some v
unfolding get_bytes blob
get_bytes-some p o v e h same = ground arith
