-- ===== src/Recovery/RoundTrip/Fields.antt =====
-- Pages that are filled from the front, and what is read of them.
use simpledb.Prelude.{
  take, ℕ, suc, zero, ◌+◌, ◌<◌, ◌^◌, ◌≡◌, refl, sym, ap, ◌∙◌, [], ◌∷◌, ◌++◌, some, arith, length,
  replicate, length-append, length-replicate,
}
use mathlib.Core.List.{append_assoc}
use simpledb.Prelude.Bytes.{Bytes, read_at, write_at}
use simpledb.Prelude.Int.{ℤ, pos}
use simpledb.File.Page.{
  int_size, IsInt, encode_int, decode_int-encode_int, get_int, set_int, get_bytes, set_bytes,
  get_string, set_string,
}
use simpledb.File.Page.Laws.{length-encode_int}

-- The bytes of a blob.
abbrev pub blob_bytes : Bytes → Bytes
blob_bytes v = encode_int (pos (length v)) ++ v

take-onto : (v b : Bytes) → take (length v) (v ++ b) ≡ v
take-onto [] [] = refl
take-onto [] (_ ∷ _) = refl
take-onto (x ∷ v) b = ap (◌∷◌ x) (take-onto v b)

read_at-append : (a v b : Bytes) → read_at (length a) (length v) (a ++ (v ++ b)) ≡ v
unfolding read_at
read_at-append [] [] [] = refl
read_at-append [] [] (_ ∷ _) = refl
read_at-append [] (x ∷ v) b = ap (◌∷◌ x) (take-onto v b)
read_at-append (x ∷ a) v b = read_at-append a v b

write_at-zeros :
    (v : Bytes) (n k : ℕ) → k ≡ length v + n → write_at 0 v (replicate k 0) ≡ v ++ replicate n 0
unfolding write_at
write_at-zeros [] n k e = ap (λ m. replicate m 0) (e ∙ omega arith)
write_at-zeros (x ∷ v) n zero e = absurd (omega arith)
write_at-zeros (x ∷ v) n (suc k) e = ap (◌∷◌ x) (write_at-zeros v n k (omega arith))

write_at-append :
    (a v : Bytes) (n k : ℕ)
    → k ≡ length v + n
    → write_at (length a) v (a ++ replicate k 0) ≡ a ++ (v ++ replicate n 0)
unfolding write_at
write_at-append [] v n k e = write_at-zeros v n k e
write_at-append (x ∷ a) v n k e = ap (◌∷◌ x) (write_at-append a v n k e)

-- A page that is filled from its front: `a`, and zeros behind.
module _ (a : Bytes) (o k n : ℕ) (at_end : o ≡ length a) where
  pub set_int-fill :
      (z : ℤ)
      → k ≡ int_size + n
      → set_int (a ++ replicate k 0) o z ≡ some ((a ++ encode_int z) ++ replicate n 0)
  unfolding set_int
  set_int-fill z e =
      rw (at_end, append_assoc a (encode_int z) (replicate n 0))
        (ground (
          arith,
          length-append a (replicate k 0),
          length-replicate {A = ℕ} k 0,
          write_at-append a (encode_int z) n k (omega (arith, length-encode_int z)),
        ))

  pub set_string-fill :
      (v : Bytes)
      → k ≡ int_size + length v + n
      → set_string (a ++ replicate k 0) o v ≡ some ((a ++ blob_bytes v) ++ replicate n 0)
  unfolding set_string set_bytes
  set_string-fill v e =
      let head = encode_int (pos (length v)) in
      let zeros = replicate (length v + n) 0 in
      let first : write_at o head (a ++ replicate k 0) ≡ (a ++ head) ++ zeros =
        ap (λ i. write_at i head (a ++ replicate k 0)) at_end
        ∙ write_at-append a head (length v + n) k
            (omega (arith, length-encode_int (pos (length v))))
        ∙ sym (append_assoc a head zeros) in
      let second : write_at (o + int_size) v ((a ++ head) ++ zeros)
          ≡ (a ++ head) ++ (v ++ replicate n 0) =
        ap (λ i. write_at i v ((a ++ head) ++ zeros))
          (omega (arith, at_end, length-append a head, length-encode_int (pos (length v))))
        ∙ write_at-append (a ++ head) v n (length v + n) refl in
      let third : (a ++ head) ++ (v ++ replicate n 0) ≡ (a ++ blob_bytes v) ++ replicate n 0 =
        simp append_assoc refl in
      rw (first, second, third)
        (ground (arith, at_end, length-append a (replicate k 0), length-replicate {A = ℕ} k 0))

-- What is read at a place where it stands.
module _ (page a b : Bytes) (o : ℕ) (at_place : o ≡ length a) where
  pub get_int-at : (z : ℤ) → page ≡ a ++ (encode_int z ++ b) → IsInt z → get_int page o ≡ some z
  unfolding get_int
  get_int-at z e h =
      rw (e, at_place)
        (ground (
          arith,
          length-append a (encode_int z ++ b),
          length-append (encode_int z) b,
          length-encode_int z,
          read_at-append a (encode_int z) b,
          decode_int-encode_int z h,
        ))

module _ (page a b : Bytes) (o : ℕ) (at_place : o ≡ length a) where
  pub get_string-at :
      (v : Bytes) → page ≡ a ++ (blob_bytes v ++ b) → length v < 2 ^ 31 → get_string page o ≡ some v
  unfolding get_string get_bytes
  get_string-at v e h =
      let head = encode_int (pos (length v)) in
      let size = length-encode_int (pos (length v)) in
      let len : get_int page o ≡ some (pos (length v)) =
        get_int-at page a (v ++ b) o at_place (pos (length v)) (e ∙ simp append_assoc refl) h in
      let body : read_at (o + int_size) (length v) page ≡ v =
        ap (λ i. read_at i (length v) page) (omega (arith, at_place, length-append a head, size))
        ∙ ap (read_at (length (a ++ head)) (length v)) (e ∙ simp append_assoc refl)
        ∙ read_at-append (a ++ head) v b in
      rw (len, body)
        (ground (
          arith,
          at_place,
          ap length e,
          length-append a (blob_bytes v ++ b),
          length-append (blob_bytes v) b,
          length-append head v,
          size,
        ))

pub length-blob_bytes : (v : Bytes) → length (blob_bytes v) ≡ int_size + length v
length-blob_bytes v =
    omega (arith, length-append (encode_int (pos (length v))) v, length-encode_int (pos (length v)))
