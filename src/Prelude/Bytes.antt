-- ===== src/Prelude/Bytes.antt =====
-- Byte arrays: reading and overwriting a range, and the fallible steps (`none` is a fault, such
-- as an access outside of an array).
use Prim.Native.Nat.{ℕ, zero, suc, ◌+◌, ◌≤◌}
use mathlib.Core.Path.{◌≡◌, refl, ap}
use mathlib.Core.List.{List, [], ◌∷◌}
use mathlib.Core.Option.{Option, none, some}
use native.Mathlib.Omega.{arith}
use simpledb.Prelude.Lists.{length, take, drop, length-take, length-drop}

abbrev pub Bytes : Type 0
Bytes = List ℕ

infixl 5 ◌>>=◌
abbrev pub ◌>>=◌ {ℓ κ} : {A : Type ℓ} {B : Type κ} → Option A → (A → Option B) → Option B
some a >>= f = f a
none >>= f = none

-- The `n` bytes from `offset` on, fewer at the end of the array.
unfoldable pub read_at : ℕ → ℕ → Bytes → Bytes
read_at offset n b = take n (drop offset b)

-- The array with `v` written from `offset` on. Past the end the array grows, as a file does,
-- and a gap is filled by zeros.
unfoldable pub write_at : ℕ → Bytes → Bytes → Bytes
write_at zero [] b = b
write_at zero (v ∷ vs) [] = v ∷ write_at zero vs []
write_at zero (v ∷ vs) (x ∷ xs) = v ∷ write_at zero vs xs
write_at (suc o) vs [] = 0 ∷ write_at o vs []
write_at (suc o) vs (x ∷ xs) = x ∷ write_at o vs xs

pub length-read_at : (o n : ℕ) (b : Bytes) → o + n ≤ length b → length (read_at o n b) ≡ n
unfolding read_at
length-read_at o n b h = omega (arith, length-take n (drop o b), length-drop o b)

pub length-write_at :
    (o : ℕ) (v b : Bytes) → o + length v ≤ length b → length (write_at o v b) ≡ length b
unfolding write_at
length-write_at zero [] b h = refl
length-write_at zero (v ∷ vs) [] h = absurd (omega arith)
length-write_at zero (v ∷ vs) (x ∷ xs) h = ap suc (length-write_at zero vs xs (omega arith))
length-write_at (suc o) vs [] h = absurd (omega arith)
length-write_at (suc o) vs (x ∷ xs) h = ap suc (length-write_at o vs xs (omega arith))

-- A write that starts inside of the array leaves what ends before it, and what was written is
-- read back.
pub read_at-write_at : (o : ℕ) (v b : Bytes) → read_at o (length v) (write_at o v b) ≡ v
unfolding read_at write_at
read_at-write_at zero [] b = refl
read_at-write_at zero (v ∷ vs) [] = ap (◌∷◌ v) (read_at-write_at zero vs [])
read_at-write_at zero (v ∷ vs) (x ∷ xs) = ap (◌∷◌ v) (read_at-write_at zero vs xs)
read_at-write_at (suc o) vs [] = read_at-write_at o vs []
read_at-write_at (suc o) vs (x ∷ xs) = read_at-write_at o vs xs

-- A range that ends before a write is not changed by it.
pub read_at-write_at_before :
    (o n p : ℕ) (v b : Bytes)
    → o + n ≤ p
    → o + n ≤ length b
    → read_at o n (write_at p v b) ≡ read_at o n b
unfolding read_at write_at
read_at-write_at_before zero zero p v b h k = refl
read_at-write_at_before zero (suc n) zero v b h k = absurd (omega arith)
read_at-write_at_before zero (suc n) (suc p) v [] h k = absurd (omega arith)
read_at-write_at_before zero (suc n) (suc p) v (x ∷ xs) h k =
    ap (◌∷◌ x) (read_at-write_at_before zero n p v xs (omega arith) (omega arith))
read_at-write_at_before (suc o) n zero v b h k = absurd (omega arith)
read_at-write_at_before (suc o) n (suc p) v [] h k = absurd (omega arith)
read_at-write_at_before (suc o) n (suc p) v (x ∷ xs) h k =
    read_at-write_at_before o n p v xs (omega arith) (omega arith)

-- A range that starts behind a write inside of the array is not changed by it.
pub read_at-write_at_after :
    (o n p : ℕ) (v b : Bytes)
    → p + length v ≤ o
    → p + length v ≤ length b
    → read_at o n (write_at p v b) ≡ read_at o n b
unfolding read_at write_at
read_at-write_at_after o n zero [] b h k = refl
read_at-write_at_after zero n zero (v ∷ vs) b h k = absurd (omega arith)
read_at-write_at_after (suc o) n zero (v ∷ vs) [] h k = absurd (omega arith)
read_at-write_at_after (suc o) n zero (v ∷ vs) (x ∷ xs) h k =
    read_at-write_at_after o n zero vs xs (omega arith) (omega arith)
read_at-write_at_after zero n (suc p) vs b h k = absurd (omega arith)
read_at-write_at_after (suc o) n (suc p) vs [] h k = absurd (omega arith)
read_at-write_at_after (suc o) n (suc p) vs (x ∷ xs) h k =
    read_at-write_at_after o n p vs xs (omega arith) (omega arith)

pub length-write_at_end :
    (o : ℕ) (v b : Bytes) → length b ≡ o → length (write_at o v b) ≡ length b + length v
unfolding write_at
length-write_at_end zero [] [] h = omega arith
length-write_at_end zero (v ∷ vs) [] h = omega (arith, length-write_at_end zero vs [] refl)
length-write_at_end zero vs (x ∷ xs) h = absurd (omega arith)
length-write_at_end (suc o) vs [] h = absurd (omega arith)
length-write_at_end (suc o) vs (x ∷ xs) h = omega (arith, length-write_at_end o vs xs (omega arith))
