-- ===== src/Alloc/Align.antt =====
-- Rounding an address up to a multiple of a power of two, as `ShimAllocator::alloc` does (line 56 of
-- bench/smoltcp-s3/src/lib.rs).
use miniosv_apps.Prelude.{
  ℕ, zero, suc, ◌+◌, ◌-◌, ◌*◌, ◌/◌, ◌%◌, ◌^◌, ◌≤◌, ◌<◌, ◌≡◌, sym, ap, ◌∙◌, arith, bit_and,
}
use miniosv_apps.Prelude.Bits.{and-high}
use native.Mathlib.Nat.{pow-suc, one-le-pow, mod-lt, div-add-mod, mul-mod_right}
use miniosv_apps.Alloc.{align_up, sub, not_bits}

pow-add : (j k : ℕ) → 2 ^ (j + k) ≡ 2 ^ j * 2 ^ k
pow-add zero k = let e : 0 + k ≡ k = omega arith in omega (arith, ap (λ n. 2 ^ n) e)
pow-add (suc j) k =
    let e : suc j + k ≡ suc (j + k) = omega arith in
    omega (
      arith,
      ap (λ n. 2 ^ n) e,
      pow-suc 2 (j + k),
      ap (λ (t : ℕ). t * 2) (pow-add j k),
      ap (λ (t : ℕ). t * 2 ^ k) (pow-suc 2 j),
    )

full_width : (k : ℕ) → k ≤ 64 → 2 ^ (64 - k) * 2 ^ k ≡ 2 ^ 64
full_width k h =
    let e : 64 - k + k ≡ 64 = omega arith in sym (pow-add (64 - k) k) ∙ ap (λ n. 2 ^ n) e

pub pow-positive : (k : ℕ) → 1 ≤ 2 ^ k
pow-positive k = one-le-pow k 2 (omega arith)

-- The least multiple of the alignment that is not below the address.
abbrev pub IsRoundedUp : ℕ → ℕ → ℕ → Type 0
IsRoundedUp addr align r = (r % align ≡ 0) × (addr ≤ r) × (r < addr + align)

align_up-sub :
    (k addr : ℕ)
    → k ≤ 64
    → addr + 2 ^ k ≤ 2 ^ 64
    → align_up addr (2 ^ k) ≡ (addr + 2 ^ k - 1) - (addr + 2 ^ k - 1) % 2 ^ k
unfolding align_up
align_up-sub k addr h room =
    let positive = pow-positive k in
    let width = full_width k h in
    let last : sub ((addr + 2 ^ k) % 2 ^ 64) 1 ≡ addr + 2 ^ k - 1 = omega arith in
    let mask : not_bits (sub (2 ^ k) 1) ≡ 2 ^ (64 - k) * 2 ^ k - 2 ^ k = omega (arith, width) in
    ap (λ t. bit_and t (not_bits (sub (2 ^ k) 1))) last
    ∙ ap (bit_and (addr + 2 ^ k - 1)) mask
    ∙ and-high k (64 - k) (addr + 2 ^ k - 1) (omega arith)

pub align_up-IsRoundedUp :
    (k addr : ℕ) → k ≤ 64 → addr + 2 ^ k ≤ 2 ^ 64 → IsRoundedUp addr (2 ^ k) (align_up addr (2 ^ k))
align_up-IsRoundedUp k addr h room =
    let positive = pow-positive k in
    let x = addr + 2 ^ k - 1 in
    let e = align_up-sub k addr h room in
    let rest = mod-lt x positive in
    let multiple : align_up addr (2 ^ k) ≡ 2 ^ k * (x / 2 ^ k) =
      omega (arith, e, div-add-mod x (2 ^ k)) in
    (ap (λ t. t % 2 ^ k) multiple ∙ mul-mod_right (2 ^ k) (x / 2 ^ k), omega arith, omega arith)
