-- ===== src/ImapStream/Buffer.antt =====
-- `Buffer` of src/imap_stream.rs. A block is the list of its bytes. Lengths are unbounded numbers
-- here; those of the source are `usize`.
pub mod Capacity
use async_imap.Base.{
  ℕ, zero, suc, ◌+◌, ◌-◌, ◌*◌, ◌%◌, max, ◌≡◌, refl, ap, [], ◌∷◌, ◌++◌, ◌||◌, ltb, ◌==◌, length,
  take, drop, if◌then◌else◌,
}
use async_imap.Base.Text.{Bytes, codes}
use async_imap.Error.{IoError, IoKind, IoMessage, IoResult, ok, err}

pub record Buffer : Type 0 where
  pub block : Bytes
  pub offset : ℕ

abbrev pub block_size : ℕ
block_size = 1024 * 4

abbrev pub max_capacity : ℕ
max_capacity = 512 * 1024 * 1024

-- `BytesMut::zeroed`.
unfoldable pub zeroed : ℕ → Bytes
zeroed zero = []
zeroed (suc n) = 0 ∷ zeroed n

pub length-zeroed : (n : ℕ) → length (zeroed n) ≡ n
unfolding zeroed
length-zeroed zero = refl
length-zeroed (suc n) = ap suc (length-zeroed n)

unfoldable pub new : Buffer
new = record { block = zeroed block_size; offset = 0 }

unfoldable pub used : Buffer → ℕ
used b = b.offset

unfoldable pub free_as_mut_slice : Buffer → Bytes
free_as_mut_slice b = drop b.offset b.block

-- What a reader does with the slice: it writes `bytes` at its start.
unfoldable pub fill : Bytes → Buffer → Buffer
fill bytes b = record b {
  block = take b.offset b.block ++ (bytes ++ drop (b.offset + length bytes) b.block);
}

unfoldable pub extend_used : ℕ → Buffer → Buffer
extend_used num_bytes b =
    let offset = b.offset + num_bytes in
    record b { offset = if ltb (length b.block) offset then length b.block else offset }

-- `match size % BLOCK_SIZE { 0 => size, n => size + (BLOCK_SIZE - n) }`
abbrev pub round_up : ℕ → ℕ
round_up size = let n = size % block_size in if n == 0 then size else size + (block_size - n)

abbrev too_large : IoError
too_large = record {
  kind = IoKind.other;
  message = IoMessage.text (codes "incoming data too large");
}

unfoldable pub grow : ℕ → Buffer → IoResult (Unit {0}) × Buffer
grow num_bytes b =
    let new_size = round_up (length b.block + num_bytes) in
    if ltb max_capacity new_size
    then (err too_large, b)
    else (ok tt, record b { block = b.block ++ zeroed (new_size - length b.block) })

unfoldable pub ensure_capacity : ℕ → Buffer → IoResult (Unit {0}) × Buffer
unfolding grow
ensure_capacity required b =
    let free_bytes = length b.block - b.offset in
    let extra_bytes_needed = required - length b.block in
    if free_bytes == 0 || ltb 0 extra_bytes_needed
    then grow (max block_size extra_bytes_needed) b
    else (ok tt, b)

-- The block, and the buffer with a fresh one in its place.
unfoldable pub take_block : Buffer → Bytes × Buffer
take_block b = (b.block, record b { block = zeroed block_size })

-- `match size % BLOCK_SIZE { 0 => size + BLOCK_SIZE, n => size + (BLOCK_SIZE - n) }`
abbrev pub reset_size : ℕ → ℕ
reset_size size = size + (block_size - size % block_size)

unfoldable pub reset_with_data : Bytes → Buffer → Buffer
reset_with_data bytes b = record {
  block = bytes ++ zeroed (reset_size (length bytes) - length bytes);
  offset = length bytes;
}

unfoldable pub return_block : Bytes → Buffer → Buffer
return_block block b = record b { block = block }
