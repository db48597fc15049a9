-- ===== src/Alloc/Store.antt =====
-- Memory as a function from addresses to bytes, with the stores and loads of bytes and of pointers
-- that `ShimAllocator` in bench/smoltcp-s3/src/lib.rs (lines 45-87) makes through raw pointers.
use miniosv_apps.Prelude.{
  ℕ, zero, suc, ◌+◌, ◌*◌, ◌/◌, ◌%◌, ◌^◌, ◌≤◌, ◌<◌, ◌≡◌, ◌⊎◌, inl, inr, refl, ap, sym, ap₂, ◌∙◌, [],
  ◌∷◌, arith, ◌==◌, if◌then◌else◌, length, Bytes,
}

abbrev pub Memory : Type 0
Memory = ℕ → ℕ

abbrev pub store_byte : Memory → ℕ → ℕ → Memory
store_byte m at b q = if q == at then b else m q

unfoldable pub store_bytes : Memory → ℕ → Bytes → Memory
store_bytes m at [] = m
store_bytes m at (b ∷ bs) = store_byte (store_bytes m (at + 1) bs) at b

unfoldable pub load_bytes : ℕ → Memory → ℕ → Bytes
load_bytes zero m at = []
load_bytes (suc n) m at = m at ∷ load_bytes n m (at + 1)

-- A number of `n` bytes, the lowest first.
unfoldable pub le_bytes : ℕ → ℕ → Bytes
le_bytes zero v = []
le_bytes (suc n) v = v % 256 ∷ le_bytes n (v / 256)

unfoldable pub of_le_bytes : Bytes → ℕ
of_le_bytes [] = 0
of_le_bytes (b ∷ bs) = b + 256 * of_le_bytes bs

-- `*(at as *mut *mut u8) = p` and `*(at as *mut *mut u8)`; a pointer has eight bytes.
unfoldable pub store_ptr : Memory → ℕ → ℕ → Memory
store_ptr m at p = store_bytes m at (le_bytes 8 p)

unfoldable pub load_ptr : Memory → ℕ → ℕ
load_ptr m at = of_le_bytes (load_bytes 8 m at)

-- Two memories with the same bytes from `from` up to `to`.
abbrev pub SameBytes : ℕ → ℕ → Memory → Memory → Type 0
SameBytes from to m m' = (q : ℕ) → from ≤ q → q < to → m' q ≡ m q

length-le_bytes : (n v : ℕ) → length (le_bytes n v) ≡ n
unfolding le_bytes
length-le_bytes zero v = refl
length-le_bytes (suc n) v = ap suc (length-le_bytes n (v / 256))

pub load_bytes-SameBytes :
    (n : ℕ) (m m' : Memory) (at : ℕ)
    → SameBytes at (at + n) m m'
    → load_bytes n m' at ≡ load_bytes n m at
unfolding load_bytes
load_bytes-SameBytes zero m m' at same = refl
load_bytes-SameBytes (suc n) m m' at same =
    ap₂ ◌∷◌ (same at (omega arith) (omega arith))
      (load_bytes-SameBytes n m m' (at + 1) (λ q h k. same q (omega arith) (omega arith)))

-- A store leaves the bytes outside alone.
pub store_bytes-outside :
    (bs : Bytes) (m : Memory) (at q : ℕ)
    → (q < at) ⊎ (at + length bs ≤ q)
    → store_bytes m at bs q ≡ m q
unfolding store_bytes
store_bytes-outside [] m at q out = refl
store_bytes-outside (b ∷ bs) m at q (inl below) =
    ground (arith, store_bytes-outside bs m (at + 1) q (inl (omega arith)))
store_bytes-outside (b ∷ bs) m at q (inr above) =
    ground (arith, store_bytes-outside bs m (at + 1) q (inr (omega arith)))

store_byte_other : (m : Memory) (at b q : ℕ) → at < q → store_byte m at b q ≡ m q
store_byte_other m at b q h = ground arith

store_byte_self : (m : Memory) (at b : ℕ) → store_byte m at b at ≡ b
store_byte_self m at b = ground arith

-- What was stored is loaded.
pub load_bytes-store_bytes :
    (bs : Bytes) (m : Memory) (at : ℕ) → load_bytes (length bs) (store_bytes m at bs) at ≡ bs
unfolding load_bytes store_bytes
load_bytes-store_bytes [] m at = refl
load_bytes-store_bytes (b ∷ bs) m at = ap₂ ◌∷◌ (store_byte_self (store_bytes m (at + 1) bs) at b) (
    load_bytes-SameBytes (length bs) (store_bytes m (at + 1) bs)
      (store_byte (store_bytes m (at + 1) bs) at b) (at + 1)
      (λ q h k. store_byte_other (store_bytes m (at + 1) bs) at b q (omega arith))
    ∙ load_bytes-store_bytes bs m (at + 1))

of_le_bytes-le_bytes : (n v : ℕ) → v < 256 ^ n → of_le_bytes (le_bytes n v) ≡ v
unfolding of_le_bytes le_bytes
of_le_bytes-le_bytes zero v h = omega arith
of_le_bytes-le_bytes (suc n) v h = omega (arith, of_le_bytes-le_bytes n (v / 256))

pub load_ptr-store_ptr : (m : Memory) (at p : ℕ) → p < 2 ^ 64 → load_ptr (store_ptr m at p) at ≡ p
unfolding load_ptr store_ptr
load_ptr-store_ptr m at p h =
    ap of_le_bytes (
      ap (λ n. load_bytes n (store_bytes m at (le_bytes 8 p)) at) (sym (length-le_bytes 8 p))
      ∙ load_bytes-store_bytes (le_bytes 8 p) m at)
    ∙ of_le_bytes-le_bytes 8 p (omega arith)

pub store_ptr-outside :
    (m : Memory) (at p q : ℕ) → (q < at) ⊎ (at + 8 ≤ q) → store_ptr m at p q ≡ m q
unfolding store_ptr
store_ptr-outside m at p q (inl below) = store_bytes-outside (le_bytes 8 p) m at q (inl below)
store_ptr-outside m at p q (inr above) =
    store_bytes-outside (le_bytes 8 p) m at q (inr (omega (arith, length-le_bytes 8 p)))

pub load_ptr-SameBytes :
    (m m' : Memory) (at : ℕ) → SameBytes at (at + 8) m m' → load_ptr m' at ≡ load_ptr m at
unfolding load_ptr
load_ptr-SameBytes m m' at same = ap of_le_bytes (load_bytes-SameBytes 8 m m' at same)

pub length-load_bytes : (n : ℕ) (m : Memory) (at : ℕ) → length (load_bytes n m at) ≡ n
unfolding load_bytes
length-load_bytes zero m at = refl
length-load_bytes (suc n) m at = ap suc (length-load_bytes n m (at + 1))
