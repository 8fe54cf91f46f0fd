-- ===== src/Log/Records.antt =====
-- What a log page and a log file hold: the records, newest first.
use mathlib.Core.List.{flatten}
use simpledb.Prelude.{
  ℕ, suc, ◌+◌, ◌≤◌, ◌<◌, ◌^◌, ◌≡◌, ◌∙◌, List, [], ◌∷◌, ◌++◌, some, arith, length,
}
use simpledb.Prelude.Bytes.{Bytes}
use simpledb.Prelude.Int.{pos}
use simpledb.File.Block.{FileName}
use simpledb.File.Manager.Blocks.{IsSized, Holds, Written, block_at}
use simpledb.File.Manager.{FileManager}
use simpledb.File.Page.{Page, int_size, get_int, get_bytes}
use simpledb.Log.{LogManager}

-- The records stand one behind the other from `offset` to the end of the page.
abbrev pub Chunk : Page → ℕ → List Bytes → Type 0
Chunk p offset [] = offset ≡ length p
Chunk p offset (r ∷ rs) =
    (get_bytes p offset ≡ some r) × Chunk p (offset + (int_size + length r)) rs

-- A log page of `size` bytes that holds these records behind its boundary.
pub record IsLogPage (size : ℕ) (p : Page) (records : List Bytes) : Type 0 where
  pub boundary : ℕ
  pub is_size : length p ≡ size
  pub stored : get_int p 0 ≡ some (pos boundary)
  pub lower : int_size ≤ boundary
  pub upper : boundary ≤ size
  pub chunk : Chunk p boundary records

-- The blocks below the current one, the last of them first. None is without a record.
abbrev pub Below : FileManager → FileName → ℕ → List (List Bytes) → Type 0
Below fm f size [] = Unit {0}
Below fm f size (c ∷ cs) =
    (p : Page) × Holds fm f (length cs) p × IsLogPage size p c × (0 < length c) × Below fm f size cs

-- The file and the page of the log manager together hold `records`, newest first.
pub record LogHolds (fm : FileManager) (l : LogManager) (records : List Bytes) : Type 0 where
  pub current : List Bytes
  pub older : List (List Bytes)
  pub all : records ≡ current ++ flatten older
  pub sized : IsSized fm l.log_file (suc (length older))
  pub block : l.current_block ≡ block_at l.log_file (length older)
  pub page : IsLogPage fm.block_size l.log_page current
  pub below : Below fm l.log_file fm.block_size older
  pub small : fm.block_size < 2 ^ 31

pub Chunk-kept :
    (p q : Page) (low o : ℕ) (rs : List Bytes)
    → length q ≡ length p
    → ((o' : ℕ) → low ≤ o' → get_bytes q o' ≡ get_bytes p o')
    → low ≤ o
    → Chunk p o rs
    → Chunk q o rs
Chunk-kept p q low o [] e same h c = omega arith
Chunk-kept p q low o (r ∷ rs) e same h c =
    (same o h ∙ c.0, Chunk-kept p q low (o + (int_size + length r)) rs e same (omega arith) c.1)

-- Blocks below a write are left.
pub Below-kept :
    {fm fm' : FileManager} {f : FileName} {n n' k : ℕ} {page : Page} (size : ℕ)
    (cs : List (List Bytes))
    → Written fm fm' f n n' k page
    → length cs ≤ k
    → length cs ≤ n
    → Below fm f size cs
    → Below fm' f size cs
Below-kept size [] w h h' b = tt
Below-kept size (c ∷ cs) w h h' (p, held, page, ne, b) = (
  p,
  w.kept (length cs) p (omega arith) (omega arith) held,
  page,
  ne,
  Below-kept size cs w (omega arith) (omega arith) b,
)
