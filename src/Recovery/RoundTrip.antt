-- ===== src/Recovery/RoundTrip.antt =====
-- A record that is written is read back.
mod Fields
use simpledb.Prelude.{
  take, ℕ, suc, zero, ◌+◌, ◌<◌, ◌^◌, ◌≡◌, refl, sym, ap, ◌∙◌, [], ◌∷◌, ◌++◌, some, arith, length,
  replicate, length-append, length-replicate,
}
use mathlib.Core.List.{append_assoc}
use simpledb.Prelude.Bytes.{Bytes, read_at, write_at}
use simpledb.Prelude.Int.{ℤ, pos}
use simpledb.File.Block.{BlockId}
use simpledb.File.Page
use simpledb.File.Page.{
  Page, int_size, IsInt, encode_int, decode_int, decode_int-encode_int, get_int, set_int, get_bytes,
  set_bytes, get_string, set_string, string_length,
}
use simpledb.File.Page.Laws.{length-encode_int}
use simpledb.Recovery
use simpledb.Recovery.{
  val_pos, change_header, read_change, txn_bytes, start_type, commit_type, rollback_type,
  set_int_type, set_string_type, LogRecord, checkpoint, start, commit, rollback, set_int_record,
  set_string_record, record_bytes, create_log_record,
}
use simpledb.Recovery.RoundTrip.Fields.{
  blob_bytes, set_int-fill, set_string-fill, get_int-at, get_string-at, length-blob_bytes,
}

-- What all changes start with, up to the old value: the type and the transaction, the name of the
-- file, the number of the block, and the offset.
module _ (type t : ℤ) (block : BlockId) (offset : ℤ) where
  abbrev front : Bytes
  front = encode_int type ++ encode_int t

  abbrev front_file : Bytes
  front_file = front ++ blob_bytes block.filename

  abbrev front_block : Bytes
  front_block = front_file ++ encode_int block.block_num

  abbrev header : Bytes
  header = front_block ++ encode_int offset

  length-front : length front ≡ int_size + int_size
  length-front = omega (
    arith,
    length-append (encode_int type) (encode_int t),
    length-encode_int type,
    length-encode_int t,
  )

  length-front_file : length front_file ≡ int_size + int_size + string_length block.filename
  length-front_file = omega (
    arith,
    length-append front (blob_bytes block.filename),
    length-front,
    length-blob_bytes block.filename,
  )

  length-front_block :
      length front_block ≡ int_size + int_size + string_length block.filename + int_size
  length-front_block = omega (
    arith,
    length-append front_file (encode_int block.block_num),
    length-front_file,
    length-encode_int block.block_num,
  )

  length-header : length header ≡ val_pos block
  length-header = omega (
    arith,
    length-append front_block (encode_int offset),
    length-front_block,
    length-encode_int offset,
  )

  change_header-header :
      (n k : ℕ)
      → k ≡ val_pos block + n
      → change_header type t block offset (Page.make k) ≡ some (header ++ replicate n 0)
  unfolding change_header
  change_header-header n k e =
      let n4 = int_size + n in
      let n3 = int_size + n4 in
      let n2 = int_size + length block.filename + n3 in
      let n1 = int_size + n2 in
      rw
        (
          set_int-fill [] 0 k n1 refl type (omega (arith, e)),
          set_int-fill (encode_int type) int_size n1 n2 (sym (length-encode_int type)) t refl,
          set_string-fill front (int_size + int_size) n2 n3 (sym length-front) block.filename refl,
          set_int-fill front_file (int_size + int_size + string_length block.filename) n3 n4
              (sym length-front_file) block.block_num refl,
          set_int-fill front_block (int_size + int_size + string_length block.filename + int_size)
              n4 n (sym length-front_block) offset refl,
        )
        refl

  module _ (tail : Bytes) (txn_fits : IsInt t) (name_fits : length block.filename < 2 ^ 31)
      (number_fits : IsInt block.block_num) (offset_fits : IsInt offset) where
    read_change-header :
        read_change (header ++ tail)
        ≡ some (record { txn_id = t; block = block; offset = offset; value_at = val_pos block })
    unfolding read_change
    read_change-header =
        let page = header ++ tail in
        rw
          (
            get_string-at page front (encode_int block.block_num ++ (encode_int offset ++ tail))
                (int_size + int_size) (sym length-front) block.filename (simp append_assoc refl)
                name_fits,
            get_int-at page (encode_int type)
                (blob_bytes block.filename
                  ++ (encode_int block.block_num ++ (encode_int offset ++ tail)))
                int_size (sym (length-encode_int type)) t (simp append_assoc refl) txn_fits,
            get_int-at page front_file (encode_int offset ++ tail)
                (int_size + int_size + string_length block.filename) (sym length-front_file)
                block.block_num (simp append_assoc refl) number_fits,
            get_int-at page front_block tail
                (int_size + int_size + string_length block.filename + int_size)
                (sym length-front_block) offset (simp append_assoc refl) offset_fits,
          )
          refl

-- The numbers and the lengths of the record fit into an `int`.
abbrev pub IsRecord : LogRecord → Type 0
IsRecord checkpoint = Unit {0}
IsRecord (start t) = IsInt t
IsRecord (commit t) = IsInt t
IsRecord (rollback t) = IsInt t
IsRecord (set_int_record t block offset val) =
    IsInt t × (length block.filename < 2 ^ 31) × IsInt block.block_num × IsInt offset × IsInt val
IsRecord (set_string_record t block offset val) =
    IsInt t
    × (length block.filename < 2 ^ 31)
    × IsInt block.block_num
    × IsInt offset
    × (length val < 2 ^ 31)

txn_bytes-front : (type t : ℤ) → txn_bytes type t ≡ some ((encode_int type ++ encode_int t) ++ [])
unfolding txn_bytes
txn_bytes-front type t =
    rw
      (
        set_int-fill [] 0 8 4 refl type refl,
        set_int-fill (encode_int type) int_size 4 0 (sym (length-encode_int type)) t refl,
      )
      refl

module _ (type t : ℤ) (tail : Bytes) where
  type_read : IsInt type → get_int ((encode_int type ++ encode_int t) ++ tail) 0 ≡ some type
  type_read h = get_int-at _ [] (encode_int t ++ tail) 0 refl type (simp append_assoc refl) h

  txn_read : IsInt t → get_int ((encode_int type ++ encode_int t) ++ tail) int_size ≡ some t
  txn_read h =
      get_int-at _ (encode_int type) tail int_size (sym (length-encode_int type)) t
        (simp append_assoc refl) h

-- The type stands at the front of a change too.
header_type :
    (type t : ℤ) (block : BlockId) (offset : ℤ) (tail : Bytes)
    → IsInt type
    → get_int (header type t block offset ++ tail) 0 ≡ some type
header_type type t block offset tail h =
    get_int-at _ []
      (encode_int t
        ++ (blob_bytes block.filename
            ++ (encode_int block.block_num ++ (encode_int offset ++ tail))))
      0 refl type (simp append_assoc refl) h

-- The bytes of a change of an integer.
pub int_change : ℤ → BlockId → ℤ → ℤ → Bytes
int_change t block offset val = header set_int_type t block offset ++ (encode_int val ++ [])

pub record_bytes-int_change :
    (t : ℤ) (block : BlockId) (offset val : ℤ)
    → record_bytes (set_int_record t block offset val) ≡ some (int_change t block offset val)
unfolding record_bytes int_change
record_bytes-int_change t block offset val =
    rw
      (
        change_header-header set_int_type t block offset int_size _ refl,
        set_int-fill (header set_int_type t block offset) (val_pos block) int_size 0
            (sym (length-header set_int_type t block offset)) val refl,
      )
      (simp append_assoc refl)

pub length-int_change :
    (t : ℤ) (block : BlockId) (offset val : ℤ)
    → length (int_change t block offset val) ≡ val_pos block + int_size
unfolding int_change
length-int_change t block offset val = omega (
  arith,
  length-append (header set_int_type t block offset) (encode_int val ++ []),
  length-append (encode_int val) [],
  length-encode_int val,
  length-header set_int_type t block offset,
)

pub create_log_record-int_change :
    (t : ℤ) (block : BlockId) (offset val : ℤ)
    → IsRecord (set_int_record t block offset val)
    → create_log_record (int_change t block offset val) ≡ some (set_int_record t block offset val)
unfolding create_log_record int_change
create_log_record-int_change t block offset val (t_fits, name, number, off, fits) =
    rw
      (
        header_type set_int_type t block offset (encode_int val ++ []) (omega arith),
        read_change-header set_int_type t block offset (encode_int val ++ []) t_fits name number
            off,
        get_int-at _ (header set_int_type t block offset) [] (val_pos block)
            (sym (length-header set_int_type t block offset)) val refl fits,
      )
      refl

-- Each record whose numbers fit into an `int` can be written, and what is written is read as the
-- same record.
pub create_log_record-record_bytes :
    (r : LogRecord)
    → IsRecord r
    → (bytes : Bytes) × (record_bytes r ≡ some bytes) × (create_log_record bytes ≡ some r)
unfolding record_bytes create_log_record Recovery.checkpoint_bytes
create_log_record-record_bytes checkpoint h = (
  _,
  set_int-fill [] 0 4 0 refl Recovery.checkpoint_type refl,
  rw (get_int-at _ [] [] 0 refl Recovery.checkpoint_type refl (omega arith)) refl,
)
create_log_record-record_bytes (start t) h = (
  _,
  txn_bytes-front start_type t,
  rw (type_read start_type t [] (omega arith), txn_read start_type t [] h) refl,
)
create_log_record-record_bytes (commit t) h = (
  _,
  txn_bytes-front commit_type t,
  rw (type_read commit_type t [] (omega arith), txn_read commit_type t [] h) refl,
)
create_log_record-record_bytes (rollback t) h = (
  _,
  txn_bytes-front rollback_type t,
  rw (type_read rollback_type t [] (omega arith), txn_read rollback_type t [] h) refl,
)
create_log_record-record_bytes (set_int_record t block offset val) h = (
  int_change t block offset val,
  record_bytes-int_change t block offset val,
  create_log_record-int_change t block offset val h,
)
create_log_record-record_bytes (set_string_record t block offset val)
      (t_fits, name, number, off, fits) =
    (
      header set_string_type t block offset ++ (blob_bytes val ++ []),
      rw
          (
            change_header-header set_string_type t block offset (string_length val) _ refl,
            set_string-fill (header set_string_type t block offset) (val_pos block)
                (string_length val) 0 (sym (length-header set_string_type t block offset)) val
                (omega arith),
          )
          (simp append_assoc refl),
      rw
          (
            header_type set_string_type t block offset (blob_bytes val ++ []) (omega arith),
            read_change-header set_string_type t block offset (blob_bytes val ++ []) t_fits name
                number off,
            get_string-at _ (header set_string_type t block offset) [] (val_pos block)
                (sym (length-header set_string_type t block offset)) val refl fits,
          )
          refl,
    )
