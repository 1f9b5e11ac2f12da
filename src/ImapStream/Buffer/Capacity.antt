-- ===== src/ImapStream/Buffer/Capacity.antt =====
-- The room in a `Buffer`, and what its operations keep (src/imap_stream.rs).
use async_imap.Base.{
  ℕ, ◌+◌, ◌-◌, ◌%◌, ◌≤◌, ◌<◌, max, ◌≡◌, refl, [], ◌++◌, ◌||◌, false, inl, inr, Bool-cases, ltb,
  ◌==◌, length, take, drop, length-append, append_assoc, length-take_le, length-drop,
  take-append_le, take-append_exact, arith,
}
use async_imap.Base.Text.{Bytes}
use async_imap.Error.{IoResult, ok, err}
use async_imap.ImapStream.Buffer.{
  Buffer, block_size, max_capacity, zeroed, length-zeroed, new, free_as_mut_slice, fill,
  extend_used, round_up, grow, ensure_capacity, reset_size, reset_with_data,
}

-- The bytes that the buffer holds.
abbrev pub data_of : Buffer → Bytes
data_of b = take b.offset b.block

-- The block is a whole number of pieces of `block_size`, one at least, and holds the bytes used.
pub record IsValid (b : Buffer) : Type 0 where
  pub within : b.offset ≤ length b.block
  pub whole : length b.block % block_size ≡ 0
  pub some_piece : block_size ≤ length b.block
  pub capped : length b.block ≤ max_capacity

pub new-IsValid : IsValid new
unfolding new
new-IsValid = omega (arith, length-zeroed block_size)

pub new-empty : data_of new ≡ []
unfolding new
new-empty = refl

-- What `ensure_capacity` and `grow` promise: a block that is larger, or an error and no change.
abbrev pub Ensured : ℕ → Buffer → IoResult (Unit {0}) × Buffer → Type 0
Ensured required b (ok _, b') =
    IsValid b'
    × (b'.offset ≡ b.offset)
    × (data_of b' ≡ data_of b)
    × (b'.offset < length b'.block)
    × (required ≤ length b'.block)
Ensured required b (err e, b') =
    (b' ≡ b) × (max_capacity < max (length b.block + block_size) required)

round_up_bounds :
    (size : ℕ)
    → (size ≤ round_up size)
      × (round_up size < size + block_size)
      × (round_up size % block_size ≡ 0)
round_up_bounds size = ground arith

enlarged :
    (b : Buffer) (size : ℕ)
    → IsValid b
    → length b.block < size
    → size % block_size ≡ 0
    → size ≤ max_capacity
    → (required : ℕ) → required ≤ size
    → Ensured required b (ok tt, record b { block = b.block ++ zeroed (size - length b.block) })
enlarged b size v more whole fits required asked = (
  omega (arith, longer, v.within, v.some_piece),
  refl,
  take-append_le b.offset b.block _ v.within,
  omega (arith, longer, v.within),
  omega (arith, longer),
)
  where
    longer : length (b.block ++ zeroed (size - length b.block)) ≡ size
    longer = omega (
      arith,
      length-append b.block (zeroed (size - length b.block)),
      length-zeroed (size - length b.block),
    )

grow-Ensured :
    (b : Buffer) (required : ℕ)
    → IsValid b
    → Ensured required b (grow (max block_size (required - length b.block)) b)
unfolding grow
grow-Ensured b required v =
    let size = length b.block + max block_size (required - length b.block) in
    let (above, near, whole) = round_up_bounds size in
    elim (Bool-cases (ltb max_capacity (round_up size))) [
      | inl big ↦ rw big (refl, ground arith)
      | inr fits ↦
          rw fits
            (enlarged b (round_up size) v (omega arith) whole (ground arith) required (omega arith))
    ]

-- On a valid buffer: after `ensure_capacity` has succeeded there is at least one byte free, the
-- block is as long as was asked for, and the bytes used and the invariant are kept. It fails only
-- where a block of the needed length would pass the maximum, and then changes nothing.
pub ensure_capacity-Ensured :
    (b : Buffer) (required : ℕ) → IsValid b → Ensured required b (ensure_capacity required b)
unfolding ensure_capacity
ensure_capacity-Ensured b required v =
    elim (Bool-cases (length b.block - b.offset == 0 || ltb 0 (required - length b.block))) [
      | inl short ↦ rw short (grow-Ensured b required v)
      | inr enough ↦ rw enough (v, refl, refl, ground (arith, v.within), ground arith)
    ]

take_at : (n : ℕ) (xs ys : Bytes) → length xs ≡ n → take n (xs ++ ys) ≡ xs
take_at n xs ys e = rw (← e) (take-append_exact xs ys)

take_fill :
    (n : ℕ) (block bytes : Bytes)
    → n + length bytes ≤ length block
    → take (n + length bytes) (take n block ++ (bytes ++ drop (n + length bytes) block))
      ≡ take n block ++ bytes
take_fill n block bytes h =
    rw (← append_assoc (take n block) bytes (drop (n + length bytes) block)) (
      take_at (n + length bytes) (take n block ++ bytes) _
        (omega (arith, length-append (take n block) bytes, length-take_le n block)))

length_fill :
    (n : ℕ) (block bytes : Bytes)
    → n + length bytes ≤ length block
    → length (take n block ++ (bytes ++ drop (n + length bytes) block)) ≡ length block
length_fill n block bytes h = omega (
  arith,
  length-append (take n block) (bytes ++ drop (n + length bytes) block),
  length-append bytes (drop (n + length bytes) block),
  length-take_le n block,
  length-drop (n + length bytes) block,
)

-- On a valid buffer, a read of at most as many bytes as are free puts them behind the bytes used, and
-- keeps the length of the block and the invariant.
pub extend_used-fill :
    (b : Buffer) (bytes : Bytes)
    → IsValid b
    → length bytes ≤ length (free_as_mut_slice b)
    → let b' = extend_used (length bytes) (fill bytes b) in
      IsValid b'
      × (b'.offset ≡ b.offset + length bytes)
      × (length b'.block ≡ length b.block)
      × (data_of b' ≡ data_of b ++ bytes)
unfolding free_as_mut_slice fill extend_used
extend_used-fill b bytes v h =
    let fits : b.offset + length bytes ≤ length b.block =
      omega (arith, length-drop b.offset b.block, v.within) in
    let size = length_fill b.offset b.block bytes fits in
    let filled = take b.offset b.block ++ (bytes ++ drop (b.offset + length bytes) b.block) in
    let kept : ltb (length filled) (b.offset + length bytes) ≡ false = ground (arith, size) in
    rw kept (omega (arith, size), refl, size, take_fill b.offset b.block bytes fits)

-- A reset with less than the maximum leaves exactly the data given, a valid buffer, and at least one
-- byte free.
pub reset_with_data-IsValid :
    (b : Buffer) (bytes : Bytes)
    → length bytes < max_capacity
    → let b' = reset_with_data bytes b in
      IsValid b' × (b'.offset < length b'.block) × (data_of b' ≡ bytes)
unfolding reset_with_data
reset_with_data-IsValid b bytes h =
    let long : length (bytes ++ zeroed (reset_size (length bytes) - length bytes))
        ≡ reset_size (length bytes) =
      omega (
        arith,
        length-append bytes (zeroed (reset_size (length bytes) - length bytes)),
        length-zeroed (reset_size (length bytes) - length bytes),
      ) in
    (omega (arith, long), omega (arith, long), take-append_exact bytes _)
