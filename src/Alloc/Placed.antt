-- ===== src/Alloc/Placed.antt =====
-- Where `ShimAllocator::alloc` places a block, and what `dealloc` gives back (lines 46-72 of
-- bench/smoltcp-s3/src/lib.rs).
use miniosv_apps.Prelude.{
  ℕ, zero, suc, ◌+◌, ◌-◌, ◌%◌, ◌^◌, ◌≤◌, ◌<◌, ◌≡◌, ◌≢◌, ◌⊎◌, inl, inr, refl, sym, subst, ap, ◌∙◌,
  Bool, true, false, arith, Bool-cases, leb, leb→le, ◌==◌, if◌then◌else◌, u64,
}
use native.Mathlib.Decide.{dec_le, ℕ_discrete}
use native.Mathlib.Nat.{pow-suc, pow-le-pow_right}
use miniosv_apps.Alloc.Store.{
  Memory, SameBytes, store_ptr, load_ptr, store_ptr-outside, load_ptr-SameBytes, load_ptr-store_ptr,
}
use miniosv_apps.Alloc.{Layout, Shim, sub, over_aligned, align_up, alloc, dealloc}
use miniosv_apps.Alloc.Align.{pow-positive, IsRoundedUp, align_up-IsRoundedUp}

-- What the type `Layout` promises.
abbrev pub IsLayout : Layout → Type 0
IsLayout l = (k : ℕ) × (l.align ≡ 2 ^ k) × (l.size + l.align ≤ 2 ^ 63)

-- The bytes that malloc is asked for.
abbrev pub asked : Layout → ℕ
asked l = if leb l.align 16 then l.size else l.size + (l.align + 8)

-- A block that malloc may return: aligned to 16 bytes, and inside the addresses.
abbrev pub IsBlock : ℕ → ℕ → Type 0
IsBlock raw size = (raw % 16 ≡ 0) × (raw + size ≤ 2 ^ 64)

-- The block of a layout at `ptr`, within the bytes that malloc gave at `raw`: those below `ptr` lead
-- `dealloc` back to `raw`, whatever the block's own bytes have become.
abbrev pub IsPlaced : Shim → Layout → ℕ → ℕ → Memory → Type 0
IsPlaced s l raw ptr m =
    (ptr % l.align ≡ 0)
    × (raw ≤ ptr)
    × (ptr + l.size ≤ raw + asked l)
    × ((later : Memory) → SameBytes raw ptr m later → dealloc s ptr l later ≡ s.free later raw)

-- Nothing but the bytes from `from` up to `to` has changed.
abbrev pub ChangedOnly : ℕ → ℕ → Memory → Memory → Type 0
ChangedOnly from to m m' = (q : ℕ) → (q < from) ⊎ (to ≤ q) → m' q ≡ m q

exponent_le : (k : ℕ) → 2 ^ k ≤ 2 ^ 63 → k ≤ 63
exponent_le k h = elim (dec_le k 63) [
  | yes p ↦ p
  | no p ↦
      let big = pow-le-pow_right {n = 2} (omega arith) {i = 64} {j = k} (omega arith) in
      absurd (omega arith)
]

small_multiple : (k raw : ℕ) → 2 ^ k ≤ 16 → raw % 16 ≡ 0 → raw % 2 ^ k ≡ 0
small_multiple zero raw h e = omega arith
small_multiple (suc zero) raw h e = omega arith
small_multiple (suc (suc zero)) raw h e = omega arith
small_multiple (suc (suc (suc zero))) raw h e = omega arith
small_multiple (suc (suc (suc (suc zero)))) raw h e = omega arith
small_multiple (suc (suc (suc (suc (suc k))))) raw h e =
    let p = pow-positive k in
    absurd (
      omega (
        arith,
        pow-suc 2 k,
        pow-suc 2 (suc k),
        pow-suc 2 (suc (suc k)),
        pow-suc 2 (suc (suc (suc k))),
        pow-suc 2 (suc (suc (suc (suc k)))),
      ))

-- The end of `alloc`, for either alignment.
abbrev placed : Layout → ℕ × Memory → ℕ × Memory
placed l r = if leb l.align 16 then r else over_aligned l r

alloc-placed :
    (s : Shim) (l : Layout) (m : Memory)
    → IsLayout l
    → alloc s l m ≡ placed l (s.malloc m (asked l))
unfolding alloc
alloc-placed s l m (k, power, room) = elim (Bool-cases (leb l.align 16)) [
  | inl small ↦ rw small
  | inr wide ↦
      let size : u64 (l.size + u64 (l.align + 8)) ≡ l.size + (l.align + 8) = omega arith in
      rw wide (ap (λ n. over_aligned l (s.malloc m n)) size)
]

abbrev aligned : Layout → ℕ → ℕ
aligned l raw = align_up (raw + 8) l.align

-- `alloc` from malloc's answer `r` to its own answer `r'`: null where that is null, and else a block.
abbrev pub Granted : Shim → Layout → ℕ × Memory → ℕ × Memory → Type 0
Granted s l r r' =
    ((r.0 ≡ 0) × (r' ≡ r))
    ⊎ ((r.0 ≢ 0) × IsPlaced s l r.0 r'.0 r'.1 × ChangedOnly r.0 r'.0 r.1 r'.1)

module _ (s : Shim) (l : Layout) (m : Memory) (raw k : ℕ) (power : l.align ≡ 2 ^ k)
    (room : l.size + l.align ≤ 2 ^ 63) (within : raw + (l.size + (l.align + 8)) ≤ 2 ^ 64) where
  aligned-IsRoundedUp : IsRoundedUp (raw + 8) l.align (aligned l raw)
  aligned-IsRoundedUp =
      subst (λ t. IsRoundedUp (raw + 8) t (align_up (raw + 8) t)) (sym power)
        (align_up-IsRoundedUp k (raw + 8) (omega (arith, exponent_le k (omega arith)))
          (omega arith))

  dealloc-aligned :
      leb l.align 16 ≡ false
      → (later : Memory) → SameBytes raw (aligned l raw) (store_ptr m (aligned l raw - 8) raw) later
      → dealloc s (aligned l raw) l later ≡ s.free later raw
  unfolding dealloc
  dealloc-aligned wide later same =
      let (multiple, above, below) = aligned-IsRoundedUp in
      let slot : sub (aligned l raw) 8 ≡ aligned l raw - 8 = omega arith in
      rw wide (
        ap (λ a. s.free later (load_ptr later a)) slot
        ∙ ap (s.free later) (
            load_ptr-SameBytes (store_ptr m (aligned l raw - 8) raw) later (aligned l raw - 8)
              (λ q h h'. same q (omega arith) (omega arith))
            ∙ load_ptr-store_ptr m (aligned l raw - 8) raw (omega arith)))

  wide-Granted : leb l.align 16 ≡ false → raw ≢ 0 → Granted s l (raw, m) (over_aligned l (raw, m))
  wide-Granted wide some =
      let (multiple, above, below) = aligned-IsRoundedUp in
      let no : (raw == 0) ≡ false = ground arith in
      let start : u64 (raw + 8) ≡ raw + 8 = omega arith in
      let slot : sub (aligned l raw) 8 ≡ aligned l raw - 8 = omega arith in
      let result : over_aligned l (raw, m) ≡ (aligned l raw, store_ptr m (aligned l raw - 8) raw) =
        rw no (
          ap (λ a. (align_up a l.align, store_ptr m (sub (align_up a l.align) 8) raw)) start
          ∙ ap (λ at. (aligned l raw, store_ptr m at raw)) slot) in
      subst (Granted s l (raw, m)) (sym result) (
        inr (
          some,
          (multiple, omega arith, rw wide (omega arith), dealloc-aligned wide),
          λ q out.
              store_ptr-outside m (aligned l raw - 8) raw q
                (elim out [ inl low ↦ inl (omega arith) | inr high ↦ inr (omega arith) ]),
        ))

small-Granted :
    (s : Shim) (l : Layout) (raw k : ℕ) (m : Memory)
    → leb l.align 16 ≡ true
    → l.align ≡ 2 ^ k
    → IsBlock raw (asked l)
    → raw ≢ 0
    → Granted s l (raw, m) (raw, m)
unfolding dealloc
small-Granted s l raw k m small power (even, within) some = inr (
  some,
  (
    subst (λ t. raw % t ≡ 0) (sym power)
        (small_multiple k raw (omega (arith, leb→le l.align 16 small)) even),
    omega arith,
    rw small (omega arith),
    λ later same. rw small refl,
  ),
  λ q out. refl,
)

placed-Granted :
    (s : Shim) (l : Layout) (r : ℕ × Memory)
    → IsLayout l
    → IsBlock r.0 (asked l)
    → Granted s l r (placed l r)
placed-Granted s l (raw, m) (k, power, room) (even, within) = elim (ℕ_discrete raw 0) [
  | yes null ↦ inl (null, ground arith)
  | no some ↦
      let pick = λ (wide : Bool). if wide then (raw, m) else over_aligned l (raw, m) in
      elim (Bool-cases (leb l.align 16)) [
        | inl small ↦
            subst (Granted s l (raw, m)) (sym (ap pick small))
              (small-Granted s l raw k m small power (even, within) some)
        | inr wide ↦
            subst (Granted s l (raw, m)) (sym (ap pick wide))
              (wide-Granted s l m raw k power room (rw wide at within) wide some)
      ]
]

-- Where malloc's answer is null or a block of the size asked for: `alloc` is null exactly where that
-- is null, and else gives a block of the layout's alignment and size inside malloc's, having
-- changed nothing but bytes in front of it; and as long as those bytes keep their values,
-- `dealloc` frees the pointer that malloc gave.
pub alloc-Granted :
    (s : Shim) (l : Layout) (m : Memory)
    → IsLayout l
    → IsBlock (s.malloc m (asked l)).0 (asked l)
    → Granted s l (s.malloc m (asked l)) (alloc s l m)
alloc-Granted s l m valid block =
    subst (Granted s l (s.malloc m (asked l))) (sym (alloc-placed s l m valid))
      (placed-Granted s l (s.malloc m (asked l)) valid block)

pub Granted-IsPlaced :
    (s : Shim) (l : Layout) (r r' : ℕ × Memory)
    → Granted s l r r'
    → r.0 ≢ 0
    → IsPlaced s l r.0 r'.0 r'.1
Granted-IsPlaced s l r r' (inl (null, e)) some = absurd (some null)
Granted-IsPlaced s l r r' (inr (more, place, changed)) some = place
