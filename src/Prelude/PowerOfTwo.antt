-- ===== src/Prelude/PowerOfTwo.antt =====
-- The test `n & (n - 1) == 0` for a power of two.
use Prim.Native.Nat.{ℕ, zero, suc, ◌-◌, ◌/◌, ◌%◌, ◌^◌, ◌≤◌, ◌<◌, bit_and}
use mathlib.Core.Path.{◌≡◌, ap, ◌∙◌}
use native.Mathlib.Decide.{ℕ_discrete}
use native.Mathlib.Nat.{pow-suc, mod_self}
use native.Mathlib.Omega.{arith}
use miniosv_apps.Prelude.Bits.{bit_and_step, bit_ext, bit-and, and-mask}

and_self : (a : ℕ) → bit_and a a ≡ a
and_self a = bit_ext (bit_and a a) a (λ i. omega (arith, bit-and a a i))

power_fuel : (f n : ℕ) → n ≤ f → 0 < n → bit_and n (n - 1) ≡ 0 → (k : ℕ) × (n ≡ 2 ^ k)
power_fuel zero n h p e = absurd (omega arith)
power_fuel (suc f) n h p e = elim (ℕ_discrete (n % 2) 0) [
  | yes even ↦
      let low : (n - 1) / 2 ≡ n / 2 - 1 = omega arith in
      let half : bit_and (n / 2) (n / 2 - 1) ≡ 0 =
        omega (arith, bit_and_step n (n - 1), ap (bit_and (n / 2)) low) in
      let (k, q) = power_fuel f (n / 2) (omega arith) (omega arith) half in
      (suc k, omega (arith, pow-suc 2 k, q))
  | no odd ↦
      let low : (n - 1) / 2 ≡ n / 2 = omega arith in
      let none : n / 2 ≡ 0 =
        omega (arith, bit_and_step n (n - 1), ap (bit_and (n / 2)) low, and_self (n / 2)) in
      (0, omega arith)
]

pub power_of_and : (n : ℕ) → 0 < n → bit_and n (n - 1) ≡ 0 → (k : ℕ) × (n ≡ 2 ^ k)
power_of_and n p e = power_fuel n n (omega arith) p e

pub and_of_power : (k : ℕ) → bit_and (2 ^ k) (2 ^ k - 1) ≡ 0
and_of_power k = and-mask k (2 ^ k) ∙ mod_self (2 ^ k)
