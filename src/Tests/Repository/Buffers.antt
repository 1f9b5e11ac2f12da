-- ===== src/Tests/Repository/Buffers.antt =====
-- The tests of `Buffer` in src/imap_stream.rs.
use async_imap.Base.{ℕ, arith, ◌+◌, ◌-◌, ◌*◌, ◌≡◌, refl, [], length, take, replicate}
use async_imap.Base.Text.{Bytes, codes}
use async_imap.Error.{IoError, IoResult, ok, err}
use async_imap.ImapStream.Buffer
use async_imap.ImapStream.Buffer.{block_size, max_capacity}

abbrev test_buffer_empty : Buffer.Buffer
test_buffer_empty = Buffer.new

test_buffer_empty_passes :
    (Buffer.used test_buffer_empty ≡ 0)
    × (length (Buffer.free_as_mut_slice test_buffer_empty) ≡ block_size)
    × (length (Buffer.free_as_mut_slice test_buffer_empty) ≡ length test_buffer_empty.block)
unfolding Buffer.used Buffer.new Buffer.free_as_mut_slice Buffer.zeroed
test_buffer_empty_passes = (refl, refl, refl)

abbrev test_buffer_extend_use : Buffer.Buffer × Buffer.Buffer
test_buffer_extend_use =
    let some_used = Buffer.extend_used 3 Buffer.new in
    (some_used, Buffer.extend_used block_size some_used)

test_buffer_extend_use_passes :
    (Buffer.used test_buffer_extend_use.0 ≡ 3)
    × (length (Buffer.free_as_mut_slice test_buffer_extend_use.0) ≡ block_size - 3)
    × (Buffer.used test_buffer_extend_use.1 ≡ block_size)
    × (test_buffer_extend_use.1.offset ≡ block_size)
    × (length test_buffer_extend_use.1.block ≡ test_buffer_extend_use.1.offset)
    × (length (Buffer.free_as_mut_slice test_buffer_extend_use.1) ≡ 0)
unfolding Buffer.used Buffer.new Buffer.free_as_mut_slice Buffer.zeroed Buffer.extend_used
test_buffer_extend_use_passes = (refl, refl, refl, refl, refl, refl)

abbrev test_buffer_write_read : Buffer.Buffer
test_buffer_write_read = Buffer.extend_used 5 (Buffer.fill (codes "hello") Buffer.new)

test_buffer_write_read_passes :
    (take (Buffer.used test_buffer_write_read) test_buffer_write_read.block ≡ codes "hello")
    × (length (Buffer.free_as_mut_slice test_buffer_write_read)
        ≡ length test_buffer_write_read.block - test_buffer_write_read.offset)
unfolding Buffer.used Buffer.extend_used Buffer.fill Buffer.new Buffer.zeroed
    Buffer.free_as_mut_slice
test_buffer_write_read_passes = (refl, refl)

abbrev Grown : Type 0
Grown = IoResult (Unit {0}) × Buffer.Buffer

abbrev test_buffer_grow : Grown × (Grown × Grown)
test_buffer_grow =
    let once = Buffer.grow 1 Buffer.new in
    let twice = Buffer.grow (block_size + 1) once.1 in
    (once, (twice, Buffer.grow max_capacity twice.1))

test_buffer_grow_passes :
    (length Buffer.new.block ≡ block_size)
    × (test_buffer_grow.0.0 ≡ ok tt)
    × (length test_buffer_grow.0.1.block ≡ 2 * block_size)
    × (test_buffer_grow.1.0.0 ≡ ok tt)
    × (length test_buffer_grow.1.0.1.block ≡ 4 * block_size)
    × ((e : IoError) × (test_buffer_grow.1.1.0 ≡ err e))
unfolding Buffer.new Buffer.zeroed Buffer.grow
test_buffer_grow_passes = (refl, refl, refl, refl, refl, (_, refl))

-- The buffer as each `ensure_capacity` of the test finds it and leaves it.
abbrev test_buffer_ensure_capacity : Buffer.Buffer × (Grown × (Buffer.Buffer × (Grown × Grown)))
test_buffer_ensure_capacity =
    let initial = Buffer.extend_used (block_size - 1) Buffer.new in
    let same = Buffer.ensure_capacity 0 initial in
    let full = Buffer.extend_used 1 same.1 in
    let grown = Buffer.ensure_capacity 0 full in
    let asked = Buffer.ensure_capacity (3 * block_size - 6) (Buffer.extend_used 5 grown.1) in
    (initial, (same, (full, (grown, asked))))

-- The free bytes of a buffer, and its capacity.
abbrev sizes : Buffer.Buffer → ℕ × ℕ
sizes buf = (length (Buffer.free_as_mut_slice buf), length buf.block)

test_buffer_ensure_capacity_passes :
    (sizes test_buffer_ensure_capacity.0 ≡ (1, block_size))
    × (test_buffer_ensure_capacity.1.0.0 ≡ ok tt)
    × (sizes test_buffer_ensure_capacity.1.0.1 ≡ (1, block_size))
    × (sizes test_buffer_ensure_capacity.1.1.0 ≡ (0, block_size))
    × (test_buffer_ensure_capacity.1.1.1.0.0 ≡ ok tt)
    × (sizes test_buffer_ensure_capacity.1.1.1.0.1 ≡ (block_size, 2 * block_size))
    × (test_buffer_ensure_capacity.1.1.1.1.0 ≡ ok tt)
    × (sizes test_buffer_ensure_capacity.1.1.1.1.1 ≡ (2 * block_size - 5, 3 * block_size))
unfolding Buffer.new Buffer.zeroed Buffer.extend_used Buffer.free_as_mut_slice
    Buffer.ensure_capacity
test_buffer_ensure_capacity_passes = (refl, refl, refl, refl, refl, refl, refl, refl)

abbrev test_buffer_take_and_return_block : (Bytes × Buffer.Buffer) × Buffer.Buffer
test_buffer_take_and_return_block =
    let taken = Buffer.take_block (Buffer.grow 1 Buffer.new).1 in
    (taken, Buffer.return_block taken.0 taken.1)

test_buffer_take_and_return_block_passes :
    (length test_buffer_take_and_return_block.0.0 ≡ 2 * block_size)
    × ¬ (length test_buffer_take_and_return_block.0.1.block ≡ 2 * block_size)
    × (length test_buffer_take_and_return_block.1.block ≡ 2 * block_size)
unfolding Buffer.new Buffer.zeroed Buffer.grow Buffer.take_block Buffer.return_block
test_buffer_take_and_return_block_passes = (refl, λ e. omega arith, refl)

abbrev test_buffer_reset_with_data : Buffer.Buffer × Buffer.Buffer
test_buffer_reset_with_data = (
  Buffer.reset_with_data (replicate (2 * block_size) b'a') Buffer.new,
  Buffer.reset_with_data [] Buffer.new,
)

test_buffer_reset_with_data_passes :
    (length test_buffer_reset_with_data.0.block ≡ 3 * block_size)
    × (length (Buffer.free_as_mut_slice test_buffer_reset_with_data.0) ≡ block_size)
    × (length test_buffer_reset_with_data.1.block ≡ block_size)
unfolding Buffer.reset_with_data Buffer.zeroed Buffer.free_as_mut_slice Buffer.new
test_buffer_reset_with_data_passes = (refl, refl, refl)
