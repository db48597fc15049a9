-- ===== src/Alloc/Moved.antt =====
-- `ShimAllocator::realloc` of a block that is aligned beyond 16 bytes (lines 74-86 of
-- bench/smoltcp-s3/src/lib.rs).
use miniosv_apps.Prelude.{ℕ, ◌+◌, ◌≤◌, ◌≡◌, ◌⊎◌, ◌==◌, if◌then◌else◌, min, Bytes}
use miniosv_apps.Alloc.Store.{Memory, SameBytes, store_bytes, load_bytes}
use miniosv_apps.Alloc.{Layout, Shim, dealloc, realloc}
use miniosv_apps.Alloc.Placed.{asked, IsPlaced, ChangedOnly}

abbrev pub resized : Layout → ℕ → Layout
resized l new_size = record { size = new_size; align = l.align }

-- Two ranges of addresses with none in common, each given by its start and its size.
abbrev pub Disjoint : ℕ → ℕ → ℕ → ℕ → Type 0
Disjoint a n b k = (a + n ≤ b) ⊎ (b + k ≤ a)

-- The result of `realloc` for the block of `l` at `ptr`, inside malloc's at `raw`. Either malloc
-- gives null: then so does `realloc`, and nothing is freed. Or there is a new block, which begins with
-- the bytes of the old one, as many as both have; and malloc's old block is freed.
abbrev pub Moved : Shim → Layout → ℕ → ℕ → ℕ → Memory → Type 0
Moved s l raw ptr n m =
    let r = s.malloc m (asked (resized l n)) in
    ((r.0 ≡ 0) × (realloc s ptr l n m ≡ r))
    ⊎ ((ptr' : ℕ) × (m' : Memory) × (realloc s ptr l n m ≡ (ptr', s.free m' raw))
        × IsPlaced s (resized l n) r.0 ptr' m'
        × (load_bytes (min l.size n) m' ptr' ≡ load_bytes (min l.size n) m ptr))

-- The end of `realloc`, behind the call of `alloc`.
abbrev moved : Shim → Layout → ℕ → ℕ → ℕ × Memory → ℕ × Memory
moved s l ptr n (new_ptr, m) =
    if new_ptr == 0
    then (new_ptr, m)
    else (new_ptr, dealloc s ptr l (store_bytes m new_ptr (load_bytes (min l.size n) m ptr)))

module _ (s : Shim) (l : Layout) (n : ℕ) (raw ptr : ℕ) (m : Memory) (old : IsPlaced s l raw ptr m)
    (raw' : ℕ) (m₁ : Memory) (apart : Disjoint raw (asked l) raw' (asked (resized l n)))
    (kept : SameBytes raw (raw + asked l) m m₁) (ptr' : ℕ) (m₂ : Memory)
    (new : IsPlaced s (resized l n) raw' ptr' m₂) (changed : ChangedOnly raw' ptr' m₁ m₂) where
  bytes : Bytes
  bytes = load_bytes (min l.size n) m₂ ptr

  copied : Memory
  copied = store_bytes m₂ ptr' bytes
