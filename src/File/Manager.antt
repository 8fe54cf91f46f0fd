-- ===== src/File/Manager.antt =====
-- src/file/file_manager.h and file_manager.cpp. The directory is a function from names to the
-- bytes of a file, if it is there. A `runtime_error` is `none`; the operating system's own
-- failures are not modelled, so the one case left is a block number below zero, at which the
-- seek fails. `open_files_` caches handles and is not seen here.
pub mod Blocks
use simpledb.Prelude.{
  ℕ, zero, suc, ◌+◌, ◌*◌, ◌/◌, ◌≡◌, refl, Bool, true, false, List, [], ◌∷◌, Option, none, some,
  ◌==◌, ltb, if◌then◌else◌, ◌&&◌, length, replicate,
}
use simpledb.Prelude.Bytes.{Bytes, ◌>>=◌, read_at, write_at}
use simpledb.Prelude.Text.{text_eq, starts_with}
use simpledb.Prelude.Int.{ℤ, pos, negsuc}
use simpledb.File.Block.{FileName, BlockId}
use simpledb.File.Page.{Page}

pub record FileManager : Type 0 where
  pub files : FileName → Option Bytes
  pub block_size : ℕ
  pub is_new : Bool

-- "temp"
abbrev pub temp_prefix : FileName
temp_prefix = b't' ∷ b'e' ∷ b'm' ∷ b'p' ∷ []

-- The constructor, on the directory as it is found, with whether it exists.
unfoldable pub init : (FileName → Option Bytes) → Bool → ℕ → FileManager
unfolding starts_with
init directory exists block_size = record {
  files = λ f. if starts_with temp_prefix f then none else directory f;
  block_size = block_size;
  is_new = if exists then false else true;
}

abbrev pub set_file : FileManager → FileName → Bytes → FileManager
set_file fm f b = record fm { files = λ g. if text_eq f g then some b else fm.files g }

opened : FileManager → FileName → Option Bytes → FileManager × Bytes
opened fm f none = (set_file fm f [], [])
opened fm f (some b) = (fm, b)

-- The bytes of a file, which is created if it is not there.
unfoldable pub get_file : FileManager → FileName → FileManager × Bytes
unfolding opened
get_file fm f = opened fm f (fm.files f)

-- What `read` leaves in a page of `n` bytes: zeros, if the file ends before.
unfoldable pub read_page : ℕ → ℕ → Bytes → Page
read_page n offset b =
    let bytes = read_at offset n b in if ltb (length bytes) n then replicate n 0 else bytes

read_block : FileManager → FileName → ℤ → ℕ → Option (FileManager × Page)
read_block fm f (negsuc n) size = none
read_block fm f (pos n) size =
    let (fm', b) = get_file fm f in some (fm', read_page size (n * fm.block_size) b)

-- `Read` into a page of `size` bytes.
unfoldable pub read : FileManager → BlockId → ℕ → Option (FileManager × Page)
unfolding read_block get_file read_page
read fm block size = read_block fm block.filename block.block_num size

write_block : FileManager → FileName → ℤ → Page → Option FileManager
write_block fm f (negsuc n) page = none
write_block fm f (pos n) page =
    let (fm', b) = get_file fm f in some (set_file fm' f (write_at (n * fm.block_size) page b))

unfoldable pub write : FileManager → BlockId → Page → Option FileManager
unfolding write_block get_file
write fm block page = write_block fm block.filename block.block_num page

-- The number of whole blocks of a file.
unfoldable pub file_length : FileManager → FileName → FileManager × ℕ
unfolding get_file
file_length fm f = let (fm', b) = get_file fm f in (fm', length b / fm.block_size)

-- A block of zeros at the end of a file.
unfoldable pub append : FileManager → FileName → FileManager × BlockId
unfolding file_length
append fm f =
    let (fm', n) = file_length fm f in
    let (fm'', b) = get_file fm' f in
    (
      set_file fm'' f (write_at (n * fm.block_size) (replicate fm.block_size 0) b),
      record { filename = f; block_num = pos n },
    )
