-- ===== src/Rss/Stride.antt =====
-- The stride of `worker_thread`: every `stride`-th of the owned ports is taken.
use native.Mathlib.Decide.{ℕ_discrete, dec_lt}
use native.Mathlib.Nat.{
  zero-add, add-zero, div-add-mod, mul-add-div, add-div_right, div-eq_of_lt, mod-lt, mul-div-le,
  le-div_iff_mul-le,
}
use miniosv_apps.Prelude.{
  ℕ, zero, suc, ◌+◌, ◌-◌, ◌*◌, ◌/◌, ◌%◌, ◌≤◌, ◌<◌, ◌≡◌, ◌≢◌, ap, ◌∙◌, min, max, arith, ◌==◌,
  if◌then◌else◌,
}

-- The multiples of `stride` among the `n` numbers from `seen` on.
unfoldable pub multiples : ℕ → ℕ → ℕ → ℕ
multiples stride zero seen = 0
multiples stride (suc n) seen =
    (if seen % stride == 0 then 1 else 0) + multiples stride n (seen + 1)

ceiling : ℕ → ℕ → ℕ
ceiling x s = (x + s - 1) / s

ceiling-form : (x s : ℕ) → 0 < s → ceiling x s ≡ x / s + (x % s + s - 1) / s
unfolding ceiling
ceiling-form x s h =
    let split : x + s - 1 ≡ s * (x / s) + (x % s + s - 1) = omega (arith, div-add-mod x s) in
    ap (λ t. t / s) split ∙ mul-add-div h (x / s) (x % s + s - 1)

ceiling-suc-form : (x s : ℕ) → 0 < s → ceiling (x + 1) s ≡ x / s + 1
unfolding ceiling
ceiling-suc-form x s h =
    let split : x + 1 + s - 1 ≡ s * (x / s) + (x % s + s) = omega (arith, div-add-mod x s) in
    ap (λ t. t / s) split
    ∙ mul-add-div h (x / s) (x % s + s)
    ∙ omega (arith, add-div_right (x % s) h, div-eq_of_lt (mod-lt x h))

regroup : (r s : ℕ) → r ≢ 0 → r + s - 1 ≡ r - 1 + s
regroup r s h = omega arith

ceiling-suc : (x s : ℕ) → 0 < s → ceiling (x + 1) s ≡ (if x % s == 0 then 1 else 0) + ceiling x s
ceiling-suc x s h = elim (ℕ_discrete (x % s) 0) [
  | yes e ↦
      let low : (x % s + s - 1) / s ≡ 0 = div-eq_of_lt (omega (arith, e)) in
      ground (arith, ceiling-suc-form x s h, ceiling-form x s h, e, low)
  | no ne ↦
      let r = x % s - 1 in
      let high : (x % s + s - 1) / s ≡ 1 =
        ap (λ t. t / s) (regroup (x % s) s ne)
        ∙ add-div_right r h
        ∙ omega (arith, div-eq_of_lt {n = r} {m = s} (omega (arith, mod-lt x h))) in
      ground (arith, ceiling-suc-form x s h, ceiling-form x s h, high)
]

ceiling-multiples : (s n x : ℕ) → 0 < s → multiples s n x + ceiling x s ≡ ceiling (x + n) s
unfolding multiples
ceiling-multiples s zero x h = rw (add-zero x) (omega arith)
ceiling-multiples s (suc n) x h =
    let e : x + 1 + n ≡ x + suc n = omega arith in
    omega (arith, ceiling-suc x s h, ceiling-multiples s n (x + 1) h, ap (λ t. ceiling t s) e)

ceiling-zero : (s : ℕ) → 0 < s → ceiling 0 s ≡ 0
unfolding ceiling
ceiling-zero s h = div-eq_of_lt (omega arith)

ceiling-bounds : (x s : ℕ) → 0 < s → (x ≤ s * ceiling x s) × (s * ceiling x s < x + s)
unfolding ceiling
ceiling-bounds x s h = (
  omega (arith, div-add-mod (x + s - 1) s, mod-lt (x + s - 1) h),
  omega (arith, div-add-mod (x + s - 1) s, mod-lt (x + s - 1) h),
)

multiples-ceiling : (s n : ℕ) → 0 < s → multiples s n 0 ≡ ceiling n s
multiples-ceiling s n h =
    omega (arith, ceiling-multiples s n 0 h, ceiling-zero s h, ap (λ t. ceiling t s) (zero-add n))

mul-lt_mul : (s c d : ℕ) → c < d → s * c + s ≤ s * d
mul-lt_mul s c d h = grind arith

-- A stride of `max(1, total / limit)` takes `limit` of `total` ports, or all if there are fewer.
pub stride_lem :
    (total limit : ℕ)
    → 0 < limit
    → min limit (multiples (max 1 (total / limit)) total 0) ≡ min limit total
stride_lem total limit h = elim (dec_lt total limit) [
  | yes few ↦
      let one : max 1 (total / limit) ≡ 1 = omega (arith, div-eq_of_lt few) in
      let all : multiples 1 total 0 ≡ total =
        omega
          (arith, multiples-ceiling 1 total (omega arith), ceiling-bounds total 1 (omega arith)) in
      rw (one, all)
  | no many ↦
      let s = max 1 (total / limit) in
      let pos : 0 < s = omega arith in
      let c = ceiling total s in
      let whole = mul-div-le total limit in
      let q : 1 ≤ total / limit =
        (le-div_iff_mul-le {k = limit} {x = 1} {y = total} h).1 (omega arith) in
      let e : s ≡ total / limit = omega arith in
      let fits : s * limit ≤ total = rw e (omega arith) in
      let enough : limit ≤ c = elim (dec_lt c limit) [
        | yes low ↦ absurd (omega (arith, ceiling-bounds total s pos, mul-lt_mul s c limit low))
        | no high ↦ omega arith
      ] in
      omega (arith, multiples-ceiling s total pos)
]
