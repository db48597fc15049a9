-- ===== src/Prelude/Bits.antt =====
-- Laws of the native bit operations, from the recursion on binary digits that they stand for.
use Prim.Native.Nat.{
  ℕ, zero, suc, ◌+◌, ◌-◌, ◌*◌, ◌/◌, ◌%◌, ◌^◌, ◌≤◌, ◌<◌, min, max, bit_and, bit_or, bit_xor, digits,
  bitwise, differ, bit_and-bitwise, bit_or-bitwise, bit_xor-bitwise,
}
use mathlib.Core.Path.{◌≡◌, refl, sym, ap, ◌∙◌}
use mathlib.Core.Logic.{◌≢◌}
use native.Mathlib.Nat.{
  pow-suc, one-le-pow, div-div-eq-div-mul, div-add-mod, mul-add-mod_self_left, mod-eq_of_lt, mod-lt,
}
use native.Mathlib.Omega.{arith}

-- `bitwise` runs on fuel. A number is fuel enough for its own digits, so that more changes nothing.
module _ (ends : ℕ → ℕ) (op : ℕ → ℕ → ℕ) where
  one_more : (fuel x y : ℕ) → x ≤ fuel → digits ends op (suc fuel) x y ≡ digits ends op fuel x y
  one_more zero zero y h = refl
  one_more (suc fuel) zero y h = refl
  one_more (suc fuel) (suc x) y h =
      ap (λ t. t * 2 + op (suc x % 2) (y % 2)) (one_more fuel (suc x / 2) (y / 2) (omega arith))
  one_more zero (suc x) y h = absurd (omega arith)

  spare_fuel :
      (spare fuel x y : ℕ) → x ≤ fuel → digits ends op (spare + fuel) x y ≡ digits ends op fuel x y
  spare_fuel zero fuel x y h =
      let e : 0 + fuel ≡ fuel = omega arith in ap (λ t. digits ends op t x y) e
  spare_fuel (suc spare) fuel x y h =
      let e : suc spare + fuel ≡ suc (spare + fuel) = omega arith in
      ap (λ t. digits ends op t x y) e
      ∙ one_more (spare + fuel) x y (omega arith)
      ∙ spare_fuel spare fuel x y h

  lowest_digit :
      (x y : ℕ)
      → bitwise ends op (suc x) y ≡ op (suc x % 2) (y % 2) + 2 * bitwise ends op (suc x / 2) (y / 2)
  lowest_digit x y =
      let half = suc x / 2 in
      let e : x ≡ (x - half) + half = omega arith in
      let fuel : digits ends op x half (y / 2) ≡ bitwise ends op half (y / 2) =
        ap (λ t. digits ends op t half (y / 2)) e
        ∙ spare_fuel (x - half) half half (y / 2) (omega arith) in
      omega (arith, fuel)

-- The lowest digit of each operation.
pub bit_or_step : (x y : ℕ) → bit_or x y ≡ max (x % 2) (y % 2) + 2 * bit_or (x / 2) (y / 2)
bit_or_step (suc x) y = simp bit_or-bitwise (lowest_digit (λ n. n) max x y)
bit_or_step zero y = simp bit_or-bitwise (omega arith)

pub bit_and_step : (x y : ℕ) → bit_and x y ≡ min (x % 2) (y % 2) + 2 * bit_and (x / 2) (y / 2)
bit_and_step (suc x) y = simp bit_and-bitwise (lowest_digit (λ n. 0) min x y)
bit_and_step zero y = simp bit_and-bitwise (omega arith)

differ_digits : (x y : ℕ) → x < 2 → y < 2 → differ x y ≡ (x + y) % 2
differ_digits zero zero p q = refl
differ_digits zero (suc zero) p q = refl
differ_digits zero (suc (suc y)) p q = absurd (omega arith)
differ_digits (suc zero) zero p q = refl
differ_digits (suc zero) (suc zero) p q = refl
differ_digits (suc zero) (suc (suc y)) p q = absurd (omega arith)
differ_digits (suc (suc x)) y p q = absurd (omega arith)

pub bit_xor_step : (x y : ℕ) → bit_xor x y ≡ (x % 2 + y % 2) % 2 + 2 * bit_xor (x / 2) (y / 2)
bit_xor_step (suc x) y =
    let one = differ_digits (suc x % 2) (y % 2) (omega arith) (omega arith) in
    simp bit_xor-bitwise (omega (arith, lowest_digit (λ n. n) differ x y, one))
bit_xor_step zero y = simp bit_xor-bitwise (omega arith)

-- Bit `i` of a number.
abbrev pub bit : ℕ → ℕ → ℕ
bit n zero = n % 2
bit n (suc i) = bit (n / 2) i

pub bit-lt : (n i : ℕ) → bit n i < 2
bit-lt n zero = omega arith
bit-lt n (suc i) = bit-lt (n / 2) i

pub bit-and : (a b i : ℕ) → bit (bit_and a b) i ≡ min (bit a i) (bit b i)
bit-and a b zero = omega (arith, bit_and_step a b)
bit-and a b (suc i) =
    ap (λ t. bit t i) (omega (arith, bit_and_step a b)) ∙ bit-and (a / 2) (b / 2) i

pub bit-or : (a b i : ℕ) → bit (bit_or a b) i ≡ max (bit a i) (bit b i)
bit-or a b zero = omega (arith, bit_or_step a b)
bit-or a b (suc i) = ap (λ t. bit t i) (omega (arith, bit_or_step a b)) ∙ bit-or (a / 2) (b / 2) i

pub bit-xor : (a b i : ℕ) → bit (bit_xor a b) i ≡ (bit a i + bit b i) % 2
bit-xor a b zero = omega (arith, bit_xor_step a b)
bit-xor a b (suc i) =
    ap (λ t. bit t i) (omega (arith, bit_xor_step a b)) ∙ bit-xor (a / 2) (b / 2) i

pub bit-zero : (i : ℕ) → bit 0 i ≡ 0
bit-zero zero = refl
bit-zero (suc i) = bit-zero i

-- Two numbers with the same bits are one number.
bit_ext_fuel : (n a b : ℕ) → a ≤ n → b ≤ n → ((i : ℕ) → bit a i ≡ bit b i) → a ≡ b
bit_ext_fuel zero a b p q h = omega arith
bit_ext_fuel (suc n) a b p q h =
    let low : a % 2 ≡ b % 2 = h 0 in
    let high : a / 2 ≡ b / 2 =
      bit_ext_fuel n (a / 2) (b / 2) (omega arith) (omega arith) (λ i. h (suc i)) in
    omega arith

pub bit_ext : (a b : ℕ) → ((i : ℕ) → bit a i ≡ bit b i) → a ≡ b
bit_ext a b h = bit_ext_fuel (a + b) a b (omega arith) (omega arith) h

pub xor_comm : (a b : ℕ) → bit_xor a b ≡ bit_xor b a
xor_comm a b =
    bit_ext (bit_xor a b) (bit_xor b a) (λ i. omega (arith, bit-xor a b i, bit-xor b a i))

pub xor_assoc : (a b c : ℕ) → bit_xor (bit_xor a b) c ≡ bit_xor a (bit_xor b c)
xor_assoc a b c = bit_ext (bit_xor (bit_xor a b) c) (bit_xor a (bit_xor b c)) (λ i.
    omega
      (arith, bit-xor (bit_xor a b) c i, bit-xor a b i, bit-xor a (bit_xor b c) i, bit-xor b c i))

pub xor-zero : (a : ℕ) → bit_xor a 0 ≡ a
xor-zero a = bit_ext (bit_xor a 0) a (λ i. omega (arith, bit-xor a 0 i, bit-zero i, bit-lt a i))

pub zero-xor : (a : ℕ) → bit_xor 0 a ≡ a
zero-xor a = xor_comm 0 a ∙ xor-zero a

pub xor_self : (a : ℕ) → bit_xor a a ≡ 0
xor_self a = bit_ext (bit_xor a a) 0 (λ i. omega (arith, bit-xor a a i, bit-zero i, bit-lt a i))

pub or-zero : (a : ℕ) → bit_or a 0 ≡ a
or-zero a = bit_ext (bit_or a 0) a (λ i. omega (arith, bit-or a 0 i, bit-zero i, bit-lt a i))

pub and-zero : (a : ℕ) → bit_and a 0 ≡ 0
and-zero a = bit_ext (bit_and a 0) 0 (λ i. omega (arith, bit-and a 0 i, bit-zero i, bit-lt a i))

half-pow : (k : ℕ) → 2 ^ suc k / 2 ≡ 2 ^ k
half-pow k = omega (arith, pow-suc 2 k)

-- A mask of one bit reads that bit.
pub and-pow : (k x : ℕ) → bit_and x (2 ^ k) ≡ bit x k * 2 ^ k
and-pow zero x = omega (arith, bit_and_step x 1, and-zero (x / 2))
and-pow (suc k) x = omega (
  arith,
  bit_and_step x (2 ^ suc k),
  pow-suc 2 k,
  ap (bit_and (x / 2)) (half-pow k),
  and-pow k (x / 2),
  ap (λ (t : ℕ). bit (x / 2) k * t) (pow-suc 2 k),
)

pub bit-pow_self : (k : ℕ) → bit (2 ^ k) k ≡ 1
bit-pow_self zero = refl
bit-pow_self (suc k) = ap (λ t. bit t k) (omega (arith, pow-suc 2 k)) ∙ bit-pow_self k

pub bit-pow_ne : (k i : ℕ) → k ≢ i → bit (2 ^ k) i ≡ 0
bit-pow_ne zero zero h = absurd (h refl)
bit-pow_ne zero (suc i) h = bit-zero i
bit-pow_ne (suc k) zero h = omega (arith, pow-suc 2 k)
bit-pow_ne (suc k) (suc i) h =
    ap (λ t. bit t i) (omega (arith, pow-suc 2 k)) ∙ bit-pow_ne k i (λ e. h (ap suc e))

pub bit-div : (k x : ℕ) → bit x k ≡ x / 2 ^ k % 2
bit-div zero x = omega arith
bit-div (suc k) x =
    bit-div k (x / 2)
    ∙ ap (λ t. t % 2)
        (div-div-eq-div-mul x 2 (2 ^ k) ∙ ap (λ t. x / t) (omega (arith, pow-suc 2 k)))

half-mask : (k : ℕ) → (2 ^ suc k - 1) / 2 ≡ 2 ^ k - 1
half-mask k = omega (arith, pow-suc 2 k, one-le-pow k 2 (omega arith))

mod-double : (a m : ℕ) → 1 ≤ m → a % (m * 2) ≡ a / 2 % m * 2 + a % 2
mod-double a m h =
    let q = a / 2 / m in
    let c = a / 2 % m * 2 + a % 2 in
    ap (λ t. t % (m * 2)) (omega (arith, div-add-mod (a / 2) m))
    ∙ mul-add-mod_self_left (m * 2) q c
    ∙ mod-eq_of_lt (omega (arith, mod-lt (a / 2) {m = m} h))

-- A mask of the low `k` bits is a remainder.
pub and-mask : (k a : ℕ) → bit_and a (2 ^ k - 1) ≡ a % 2 ^ k
and-mask zero a = omega (arith, and-zero a)
and-mask (suc k) a = omega (
  arith,
  bit_and_step a (2 ^ suc k - 1),
  pow-suc 2 k,
  one-le-pow k 2 (omega arith),
  ap (bit_and (a / 2)) (half-mask k),
  and-mask k (a / 2),
  ap (λ (t : ℕ). a % t) (pow-suc 2 k),
  mod-double a (2 ^ k) (one-le-pow k 2 (omega arith)),
)

-- A mask of the `j` bits from `k` on takes the remainder away.
pub and-high : (k j a : ℕ) → a < 2 ^ j * 2 ^ k → bit_and a (2 ^ j * 2 ^ k - 2 ^ k) ≡ a - a % 2 ^ k
and-high zero j a h =
    let e : 2 ^ j * 2 ^ 0 - 2 ^ 0 ≡ 2 ^ j - 1 = omega arith in
    let small : a % 2 ^ j ≡ a = mod-eq_of_lt (omega arith) in
    omega (arith, ap (bit_and a) e, and-mask j a, small)
and-high (suc k) j a h =
    let p = 2 ^ j * 2 ^ k in
    let q = 2 ^ k in
    let e : 2 ^ j * 2 ^ suc k ≡ p * 2 = omega (arith, ap (λ (t : ℕ). 2 ^ j * t) (pow-suc 2 k)) in
    let mask : 2 ^ j * 2 ^ suc k - 2 ^ suc k ≡ p * 2 - q * 2 = omega (arith, e, pow-suc 2 k) in
    let half : (p * 2 - q * 2) / 2 ≡ p - q = omega arith in
    let rest : a % 2 ^ suc k ≡ a % (q * 2) = ap (λ (t : ℕ). a % t) (omega (arith, pow-suc 2 k)) in
    omega (
      arith,
      ap (bit_and a) mask,
      bit_and_step a (p * 2 - q * 2),
      ap (bit_and (a / 2)) half,
      and-high k j (a / 2) (omega (arith, e)),
      rest,
      mod-double a q (one-le-pow k 2 (omega arith)),
    )

pub xor-lt : (k a b : ℕ) → a < 2 ^ k → b < 2 ^ k → bit_xor a b < 2 ^ k
xor-lt zero a b p q =
    let ea : a ≡ 0 = omega arith in
    let eb : b ≡ 0 = omega arith in rw (ea, eb) (omega (arith, xor-zero 0))
xor-lt (suc k) a b p q = omega (
  arith,
  bit_xor_step a b,
  pow-suc 2 k,
  xor-lt k (a / 2) (b / 2) (omega (arith, pow-suc 2 k)) (omega (arith, pow-suc 2 k)),
)

-- A remainder by `2 ^ k` keeps the bits below `k`.
pub bit-mod : (k a i : ℕ) → i < k → bit (a % 2 ^ k) i ≡ bit a i
bit-mod zero a i h = absurd (omega arith)
bit-mod (suc k) a zero h = omega (
  arith,
  ap (λ (t : ℕ). a % t) (pow-suc 2 k),
  mod-double a (2 ^ k) (one-le-pow k 2 (omega arith)),
)
bit-mod (suc k) a (suc i) h =
    ap (λ t. bit t i)
      (omega (
        arith,
        ap (λ (t : ℕ). a % t) (pow-suc 2 k),
        mod-double a (2 ^ k) (one-le-pow k 2 (omega arith)),
      ))
    ∙ bit-mod k (a / 2) i (omega arith)

pub and-one : (a : ℕ) → bit_and a 1 ≡ a % 2
and-one a = and-mask 1 a

-- `(byte >> b) & 1`
pub and-shift_one : (byte b : ℕ) → bit_and (byte / 2 ^ b) 1 ≡ bit byte b
and-shift_one byte b = and-one (byte / 2 ^ b) ∙ sym (bit-div b byte)

-- The bits of two numbers packed side by side.
pub bit_low_byte : (a b k : ℕ) → k < 8 → b < 256 → bit (a * 256 + b) k ≡ bit b k
bit_low_byte a b k h hb = sym (bit-mod 8 (a * 256 + b) k h) ∙ ap (λ t. bit t k) (omega arith)

pub bit_high_byte : (a b k : ℕ) → b < 256 → bit (a * 256 + b) (8 + k) ≡ bit a k
bit_high_byte a b k hb =
    let shift : 8 + k ≡ suc (suc (suc (suc (suc (suc (suc (suc k))))))) = omega arith in
    ap (bit (a * 256 + b)) shift ∙ ap (λ t. bit t k) (omega arith)

-- Two numbers packed side by side by `|`.
pub or-packed : (k x y : ℕ) → y < 2 ^ k → bit_or (x * 2 ^ k) y ≡ x * 2 ^ k + y
or-packed zero x y h = let e : y ≡ 0 = omega arith in rw e (omega (arith, or-zero (x * 2 ^ 0)))
or-packed (suc k) x y h =
    let p = x * 2 ^ k in
    let e : x * 2 ^ suc k ≡ p * 2 = omega (arith, ap (λ (t : ℕ). x * t) (pow-suc 2 k)) in
    let half : p * 2 / 2 ≡ p = omega arith in
    rw e (
      omega (
        arith,
        bit_or_step (p * 2) y,
        ap (λ t. bit_or t (y / 2)) half,
        or-packed k x (y / 2) (omega (arith, pow-suc 2 k)),
      ))
