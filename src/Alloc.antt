-- ===== src/Alloc.antt =====
-- `ShimAllocator` in bench/smoltcp-s3/src/lib.rs, lines 41-86: the allocator of the program, which
-- keeps the pointer that malloc gave just below a block that is aligned beyond 16 bytes.
pub mod Store
pub mod Align
pub mod Placed
pub mod Moved
mod Tests
use miniosv_apps.Prelude.{ℕ, ◌+◌, ◌-◌, ◌%◌, ◌^◌, min, bit_and, leb, ◌==◌, if◌then◌else◌, u64}
use Store.{Memory, store_bytes, load_bytes, store_ptr, load_ptr}

-- `core::alloc::Layout`
pub record Layout : Type 0 where
  pub size : ℕ
  pub align : ℕ

-- `shim_malloc`, `shim_free` and `shim_realloc`, with what they make of the memory; 0 is the null
-- pointer.
pub record Shim : Type 0 where
  pub malloc : Memory → ℕ → ℕ × Memory
  pub free : Memory → ℕ → Memory
  pub realloc : Memory → ℕ → ℕ → ℕ × Memory

-- `a - b` of a `usize`
abbrev pub sub : ℕ → ℕ → ℕ
sub a b = u64 (a + (2 ^ 64 - b))

-- `!a` of a `usize`
abbrev pub not_bits : ℕ → ℕ
not_bits a = 2 ^ 64 - 1 - a

-- `aligned`
unfoldable pub align_up : ℕ → ℕ → ℕ
align_up addr align = bit_and (sub (u64 (addr + align)) 1) (not_bits (sub align 1))

-- What becomes of malloc's answer where the block is aligned beyond 16 bytes.
abbrev pub over_aligned : Layout → ℕ × Memory → ℕ × Memory
over_aligned l (raw, m) =
    if raw == 0
    then (raw, m)
    else (let aligned = align_up (u64 (raw + 8)) l.align in
        (aligned, store_ptr m (sub aligned 8) raw))

unfoldable pub alloc : Shim → Layout → Memory → ℕ × Memory
alloc s l m =
    if leb l.align 16
    then s.malloc m l.size
    else (let extra = u64 (l.align + 8) in over_aligned l (s.malloc m (u64 (l.size + extra))))

unfoldable pub dealloc : Shim → ℕ → Layout → Memory → Memory
dealloc s ptr l m = if leb l.align 16 then s.free m ptr else s.free m (load_ptr m (sub ptr 8))

unfoldable pub realloc : Shim → ℕ → Layout → ℕ → Memory → ℕ × Memory
realloc s ptr l new_size m =
    if leb l.align 16
    then s.realloc m ptr new_size
    else (let (new_ptr, m') = alloc s (record { size = new_size; align = l.align }) m in
        if new_ptr == 0
        then (new_ptr, m')
        else (let copy = min l.size new_size in
            let m'' = store_bytes m' new_ptr (load_bytes copy m' ptr) in
            (new_ptr, dealloc s ptr l m'')))
