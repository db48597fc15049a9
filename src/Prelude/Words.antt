-- ===== src/Prelude/Words.antt =====
-- Casts to the machine widths, shifts and big-endian bytes, as Rust's release build computes them.
use Prim.Native.Nat.{ℕ, ◌*◌, ◌/◌, ◌%◌, ◌^◌}
use mathlib.Core.List.{List, [], ◌∷◌}

abbrev pub u8 : ℕ → ℕ
u8 n = n % 2 ^ 8

abbrev pub u16 : ℕ → ℕ
u16 n = n % 2 ^ 16

abbrev pub u32 : ℕ → ℕ
u32 n = n % 2 ^ 32

abbrev pub u64 : ℕ → ℕ
u64 n = n % 2 ^ 64

-- `x >> k`; `x << k` is cut to its width by one of the casts above.
infixl 75 ◌<<<◌ ◌>>>◌
abbrev pub ◌>>>◌ : ℕ → ℕ → ℕ
x >>> k = x / 2 ^ k

abbrev pub ◌<<<◌ : ℕ → ℕ → ℕ
x <<< k = x * 2 ^ k

-- A byte string.
abbrev pub Bytes : Type 0
Bytes = List ℕ

-- `u16::to_be_bytes`
abbrev pub be_bytes16 : ℕ → Bytes
be_bytes16 n = n / 256 % 256 ∷ n % 256 ∷ []
