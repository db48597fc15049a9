-- ===== src/Plan/Blocks.antt =====
-- The byte ranges of the blocks: inside the object, and apart as long as the object has room.
use native.Mathlib.Nat.{mod-lt, mod-eq_of_lt}
use miniosv_apps.Prelude.{
  ℕ, ◌+◌, ◌-◌, ◌*◌, ◌%◌, ◌^◌, ◌≤◌, ◌<◌, ◌≡◌, ap, ◌∙◌, false, arith, ◌==◌, u64,
}
use miniosv_apps.Plan.{block_start, block_end, range_bytes}

-- A range that ends inside the object: its last byte and its size.
module _ (object size start : ℕ) (big : object < 2 ^ 64) (some_bytes : 0 < size)
    (inside : start + size ≤ object) where
  pub block_end_lem : block_end size start ≡ start + size - 1
  unfolding block_end
  block_end_lem = omega arith

  pub range_bytes_lem : range_bytes start (block_end size start) ≡ size
  unfolding range_bytes
  range_bytes_lem = omega (arith, block_end_lem)

remainder_lt : (n m : ℕ) → 0 < m → n % m < m
remainder_lt n m h = mod-lt n h

block_start-mod :
    (object size block : ℕ)
    → object < 2 ^ 64
    → 0 < size
    → size ≤ object
    → block_start object size block ≡ u64 (block * size) % (object - size + 1)
unfolding block_start
block_start-mod object size block big some_bytes fits =
    let stride : u64 (object - size + 1) ≡ object - size + 1 = omega arith in
    let several : (object - size + 1 == 0) ≡ false = ground arith in rw (stride, several)

block_start-le :
    (object size block : ℕ)
    → object < 2 ^ 64
    → 0 < size
    → size ≤ object
    → block_start object size block + size ≤ object
block_start-le object size block big some_bytes fits =
    let below = remainder_lt (u64 (block * size)) (object - size + 1) (omega arith) in
    omega (arith, block_start-mod object size block big some_bytes fits, below)

-- Where the size of an object is a `u64` and that of a block is nonzero and no larger, every block
-- is asked for as a range inside the object, of the block's size.
pub block-inside :
    (object size block : ℕ)
    → object < 2 ^ 64
    → 0 < size
    → size ≤ object
    → let start = block_start object size block in
      (block_end size start < object)
      × (block_end size start + 1 ≡ start + size)
      × (range_bytes start (block_end size start) ≡ size)
block-inside object size block big some_bytes fits =
    let start = block_start object size block in
    let room = block_start-le object size block big some_bytes fits in
    let last = block_end_lem object size start big some_bytes room in
    (
      omega (arith, last),
      omega (arith, last),
      range_bytes_lem object size start big some_bytes room,
    )

-- In an object whose size is a `u64`, blocks of a nonzero size are laid out consecutively, as far as
-- the object reaches.
pub block_start-consecutive :
    (object size block : ℕ)
    → object < 2 ^ 64
    → 0 < size
    → block * size + size ≤ object
    → block_start object size block ≡ block * size
block_start-consecutive object size block big some_bytes reaches =
    let exact : u64 (block * size) ≡ block * size = omega arith in
    block_start-mod object size block big some_bytes (omega arith)
    ∙ ap (λ t. t % (object - size + 1)) exact
    ∙ mod-eq_of_lt (omega arith)

mul-suc_le : (size a b : ℕ) → a < b → a * size + size ≤ b * size
mul-suc_le size a b h = grind arith

-- In an object whose size is a `u64`, two blocks of a nonzero size that the object reaches have
-- ranges apart: the first ends before the second begins.
pub blocks-apart :
    (object size a b : ℕ)
    → object < 2 ^ 64
    → 0 < size
    → a < b
    → b * size + size ≤ object
    → block_end size (block_start object size a) < block_start object size b
blocks-apart object size a b big some_bytes h reaches =
    let step = mul-suc_le size a b h in
    let first = block_start-consecutive object size a big some_bytes (omega (arith, step)) in
    let second = block_start-consecutive object size b big some_bytes reaches in
    let last = block_end_lem object size (a * size) big some_bytes (omega (arith, step)) in
    omega (arith, ap (block_end size) first, second, last, step)
