-- ===== src/File/Manager/Blocks.antt =====
-- A file as a sequence of blocks: what the operations do to a file that is a whole number of
-- blocks long.
use simpledb.Prelude.{
  ℕ, suc, ◌+◌, ◌*◌, ◌/◌, ◌≤◌, ◌<◌, ◌≡◌, ◌≢◌, refl, sym, ap, ◌∙◌, [], none, some, arith, length,
  replicate, length-replicate, dec_lt,
}
use simpledb.Prelude.Bytes.{
  Bytes, read_at, write_at, length-read_at, length-write_at, read_at-write_at,
  read_at-write_at_before, read_at-write_at_after, length-write_at_end,
}
use simpledb.Prelude.Text.{text_eq_self}
use simpledb.Prelude.Int.{pos}
use simpledb.File.Block.{FileName, BlockId}
use simpledb.File.Page.{Page}
use simpledb.File.Manager.{FileManager, set_file, read, write, file_length, append}

-- The file is `n` blocks long.
pub record IsSized (fm : FileManager) (f : FileName) (n : ℕ) : Type 0 where
  pub bytes : Bytes
  pub there : fm.files f ≡ some bytes
  pub sized : length bytes ≡ n * fm.block_size
  pub positive : 0 < fm.block_size

abbrev pub block_at : FileName → ℕ → BlockId
block_at f n = record { filename = f; block_num = pos n }

-- Block `k` of the file holds `page`.
abbrev pub Holds : FileManager → FileName → ℕ → Page → Type 0
Holds fm f k page = read fm (block_at f k) fm.block_size ≡ some (fm, page)

pub mul-block : (k n s : ℕ) → k < n → k * s + s ≤ n * s
mul-block k n s h = grind arith

mul-div-block : (n s : ℕ) → 0 < s → n * s / s ≡ n
mul-div-block n s h = grind arith

module _ {fm : FileManager} {f : FileName} {n : ℕ} (v : IsSized fm f n) where
  abbrev size : ℕ
  size = fm.block_size

  pub file_length-IsSized : file_length fm f ≡ (fm, n)
  unfolding file_length
  file_length-IsSized = rw v.there (ground (arith, mul-div-block n size v.positive, v.sized))

  -- A block inside of the file is read as its part of the bytes.
  read-IsSized : (k : ℕ) → k < n → Holds fm f k (read_at (k * size) size v.bytes)
  unfolding read
  read-IsSized k h =
      rw v.there
        (ground (arith, mul-block k n size h, v.sized, length-read_at (k * size) size v.bytes))

  write-IsSized :
      (k : ℕ) (page : Page)
      → write fm (block_at f k) page ≡ some (set_file fm f (write_at (k * size) page v.bytes))
  unfolding write
  write-IsSized k page = rw v.there refl

  Holds-read_at :
      (k : ℕ) (page : Page) → k < n → Holds fm f k page → page ≡ read_at (k * size) size v.bytes
  Holds-read_at k page h held = ground (arith, read-IsSized k h)

-- The file after its bytes were replaced.
module _ (fm : FileManager) (f : FileName) (b : Bytes) (n : ℕ)
    (sized : length b ≡ n * fm.block_size) (positive : 0 < fm.block_size) where
  abbrev put-IsSized : IsSized (set_file fm f b) f n
  put-IsSized = record {
    bytes = b;
    there = rw (text_eq_self f);
    sized = sized;
    positive = positive;
  }

  put-Holds :
      (k : ℕ) (page : Page)
      → k < n
      → read_at (k * fm.block_size) fm.block_size b ≡ page
      → Holds (set_file fm f b) f k page
  put-Holds k page h e = rw (← e) (read-IsSized put-IsSized k h)

-- What a write and an extension leave of a file.
pub record Written (fm fm' : FileManager) (f : FileName) (n n' k : ℕ) (page : Page) : Type 0 where
  pub sized : IsSized fm' f n'
  pub same_size : fm'.block_size ≡ fm.block_size
  pub written : Holds fm' f k page
  pub kept : (j : ℕ) (q : Page) → j < n → j ≢ k → Holds fm f j q → Holds fm' f j q

-- Replacing the bytes from block `k` on by a page, inside of the file or at its end.
splice-Written :
    (fm : FileManager) (f : FileName) (n n' k : ℕ) (page : Page) (v : IsSized fm f n)
    → k < n'
    → n ≤ n'
    → length page ≡ fm.block_size
    → length (write_at (k * fm.block_size) page v.bytes) ≡ n' * fm.block_size
    → ((j : ℕ)
        → j < n
        → j ≢ k
        → read_at (j * fm.block_size) fm.block_size (write_at (k * fm.block_size) page v.bytes)
          ≡ read_at (j * fm.block_size) fm.block_size v.bytes)
    → Written fm (set_file fm f (write_at (k * fm.block_size) page v.bytes)) f n n' k page
splice-Written fm f n n' k page v h up e sized same = record {
  sized = put-IsSized fm f b n' sized v.positive;
  same_size = refl;
  written =
      put-Holds fm f b n' sized v.positive k page h
        (rw e at (read_at-write_at (k * s) page v.bytes));
  kept = λ j q jn jk held.
      put-Holds fm f b n' sized v.positive j q (omega arith)
        (same j jn jk ∙ sym (Holds-read_at v j q jn held));
}
  where
    s : ℕ
    s = fm.block_size

    b : Bytes
    b = write_at (k * s) page v.bytes

-- A page written over a block of the file changes that block alone.
pub write-Written :
    {fm : FileManager} {f : FileName} {n : ℕ} (v : IsSized fm f n) (k : ℕ) (page : Page)
    → k < n
    → length page ≡ fm.block_size
    → (fm' : FileManager) × (write fm (block_at f k) page ≡ some fm') × Written fm fm' f n n k page
write-Written {fm} {f} {n} v k page h e = (
  set_file fm f (write_at (k * s) page v.bytes),
  write-IsSized v k page,
  splice-Written fm f n n k page v h (omega arith) e
      (length-write_at (k * s) page v.bytes (omega (arith, inside, v.sized)) ∙ v.sized)
      (λ j jn jk. other j jk (dec_lt j k)),
)
  where
    s : ℕ
    s = fm.block_size

    inside : k * s + s ≤ n * s
    inside = mul-block k n s h

    other :
        (j : ℕ)
        → j ≢ k
        → Dec (j < k)
        → read_at (j * s) s (write_at (k * s) page v.bytes) ≡ read_at (j * s) s v.bytes
    other j jk (yes p) =
        read_at-write_at_before (j * s) s (k * s) page v.bytes (mul-block j k s p)
          (omega (arith, inside, v.sized, mul-block j k s p))
    other j jk (no p) =
        read_at-write_at_after (j * s) s (k * s) page v.bytes
          (omega (arith, mul-block k j s (omega arith))) (omega (arith, inside, v.sized))

-- An extension adds one block of zeros, and the file manager reports its id.
pub append-Written :
    {fm : FileManager} {f : FileName} {n : ℕ} (v : IsSized fm f n)
    → (fm' : FileManager) × (append fm f ≡ (fm', block_at f n))
      × Written fm fm' f n (suc n) n (replicate fm.block_size 0)
unfolding append
append-Written {fm} {f} {n} v = (
  set_file fm f (write_at (n * s) zeros v.bytes),
  rw (v.there, v.sized, mul-div-block n s v.positive, v.there) refl,
  splice-Written fm f n (suc n) n zeros v (omega arith) (omega arith) (length-replicate {A = ℕ} s 0)
      (length-write_at_end (n * s) zeros v.bytes v.sized
        ∙ omega (arith, v.sized, length-replicate {A = ℕ} s 0))
      (λ j jn jk.
        read_at-write_at_before (j * s) s (n * s) zeros v.bytes (mul-block j n s jn)
          (omega (arith, v.sized, mul-block j n s jn))),
)
  where
    s : ℕ
    s = fm.block_size

    zeros : Page
    zeros = replicate s 0

-- A file that is not there is created without a block.
pub file_length_absent :
    (fm : FileManager) (f : FileName)
    → fm.files f ≡ none
    → 0 < fm.block_size
    → (fm' : FileManager) × (file_length fm f ≡ (fm', 0))
      × IsSized fm' f 0
      × (fm'.block_size ≡ fm.block_size)
unfolding file_length
file_length_absent fm f e h = (
  set_file fm f [],
  rw e (ap (λ n. (set_file fm f [], n)) (div-zero fm.block_size)),
  put-IsSized fm f [] 0 (omega arith) h,
  refl,
)
  where
    div-zero : (n : ℕ) → 0 / n ≡ 0
    div-zero n = omega arith
