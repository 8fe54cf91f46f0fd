-- ===== src/File/Block.antt =====
-- src/file/block_id.h and block_id.cpp.
use simpledb.Prelude.{◌≡◌, ◌↔◌, Bool, not, ◌&&◌, true, arith}
use simpledb.Prelude.Bytes.{Bytes}
use simpledb.Prelude.Text.{text_eq, text_eq_iff}
use simpledb.Prelude.Int.{ℤ, int_eq, int_eq_iff}

-- A file's name, as its characters' codes.
abbrev pub FileName : Type 0
FileName = Bytes

pub record BlockId : Type 0 where
  pub filename : FileName
  pub block_num : ℤ

-- `operator==`
unfoldable pub block_eq : BlockId → BlockId → Bool
block_eq a b = text_eq a.filename b.filename && int_eq a.block_num b.block_num

pub equals : BlockId → BlockId → Bool
equals a b = block_eq a b

-- `operator!=`
pub block_ne : BlockId → BlockId → Bool
block_ne a b = not (block_eq a b)

-- Two block ids are equal by `==` exactly when they name the same block of the same file.
pub block_eq_iff : (a b : BlockId) → (block_eq a b ≡ true) ↔ (a ≡ b)
unfolding block_eq
block_eq_iff a b =
    ground (arith, text_eq_iff a.filename b.filename, int_eq_iff a.block_num b.block_num)
