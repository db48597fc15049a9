-- ===== src/Rss/Owned.antt =====
-- The bitmap of `build_owned_ports`, read back by `owns_port`.
use native.Mathlib.Decide.{ℕ_discrete}
use native.Mathlib.Nat.{pow-le-pow_right, one-le-pow, mod-eq_of_lt}
use miniosv_apps.Prelude.{
  ℕ, zero, suc, ◌+◌, ◌-◌, ◌*◌, ◌/◌, ◌%◌, ◌^◌, ◌≤◌, ◌<◌, ◌≡◌, ◌≢◌, refl, sym, ap, ◌∙◌, ◌↔◌, inl, inr,
  bit_or, Bool, true, false, not, ◌&&◌, arith, Bool-cases, ltb, leb, ◌==◌, ==_iff, if◌then◌else◌,
  length, get_or, set, u8, u16, u32, ◌<<<◌, Bytes, length-set, get_or-set_self, get_or-set_ne,
}
use miniosv_apps.Prelude.Bits.{bit, bit-lt, bit-or, and-pow, bit-pow_self, bit-pow_ne}
use miniosv_apps.Rss.{mark, build_from, owns_port, eph_base, eph_len}

-- Bit `i` of the bitmap.
abbrev pub port_bit : Bytes → ℕ → ℕ
port_bit bitmap i = bit (get_or bitmap (i / 8) 0) (i % 8)

-- `1 << (i % 8)` is not cut off.
u8-shift : (i : ℕ) → u8 (1 <<< (i % 8)) ≡ 2 ^ (i % 8)
u8-shift i = omega (
  arith,
  mod-eq_of_lt {n = 1 * 2 ^ (i % 8)} {m = 2 ^ 8}
      (omega (arith, pow-le-pow_right {n = 2} (omega arith) {i = i % 8} {j = 7} (omega arith))),
)

length-mark : (bitmap : Bytes) (i : ℕ) → length (mark bitmap i) ≡ length bitmap
unfolding mark
length-mark bitmap i = length-set bitmap (i / 8) _

mark_self : (bitmap : Bytes) (i : ℕ) → i < 8 * length bitmap → port_bit (mark bitmap i) i ≡ 1
unfolding mark
mark_self bitmap i h =
    let old = get_or bitmap (i / 8) 0 in
    let mask = u8 (1 <<< (i % 8)) in
    let set_bit = ap (λ t. bit t (i % 8)) (u8-shift i) ∙ bit-pow_self (i % 8) in
    ap (λ t. bit t (i % 8)) (get_or-set_self bitmap (i / 8) (bit_or old mask) 0 (omega arith))
    ∙ omega (arith, bit-or old mask (i % 8), bit-lt old (i % 8), set_bit)

mark_ne :
    (bitmap : Bytes) (i j : ℕ)
    → i < 8 * length bitmap
    → i ≢ j
    → port_bit (mark bitmap i) j ≡ port_bit bitmap j
unfolding mark
mark_ne bitmap i j h ne = elim (ℕ_discrete (i / 8) (j / 8)) [
  | yes same ↦
      let old = get_or bitmap (i / 8) 0 in
      let mask = u8 (1 <<< (i % 8)) in
      let clear = ap (λ t. bit t (j % 8)) (u8-shift i) ∙ bit-pow_ne (i % 8) (j % 8) (omega arith) in
      ap (λ t. bit (get_or (set bitmap (i / 8) (bit_or old mask)) t 0) (j % 8)) (sym same)
      ∙ ap (λ t. bit t (j % 8)) (get_or-set_self bitmap (i / 8) (bit_or old mask) 0 (omega arith))
      ∙ omega (arith, bit-or old mask (j % 8), clear)
      ∙ ap (λ t. bit (get_or bitmap t 0) (j % 8)) same
  | no other ↦ ap (λ t. bit t (j % 8)) (get_or-set_ne bitmap (i / 8) (j / 8) _ 0 other)
]

-- Marking a port sets its bit and no other.
port_bit-mark :
    (bitmap : Bytes) (i j : ℕ)
    → i < 8 * length bitmap
    → port_bit (mark bitmap i) j ≡ (if i == j then 1 else port_bit bitmap j)
port_bit-mark bitmap i j h = elim (Bool-cases (i == j)) [
  | inl e ↦ rw e (ap (port_bit (mark bitmap i)) (sym ((==_iff i j).0 e)) ∙ mark_self bitmap i h)
  | inr e ↦ rw e (mark_ne bitmap i j h (λ q. ground arith))
]

flag : (b m : ℕ) → b < 2 → 1 ≤ m → (not (b * m == 0) ≡ true) ↔ (b ≡ 1)
flag zero m h p = ground arith
flag (suc zero) m h p = ground arith
flag (suc (suc b)) m h p = absurd (omega arith)

-- A port of the dynamic range is owned where its bit is set.
pub owns_port-port_bit :
    (bitmap : Bytes) (i : ℕ) → (owns_port bitmap (eph_base + i) ≡ true) ↔ (port_bit bitmap i ≡ 1)
unfolding owns_port
owns_port-port_bit bitmap i =
    let above : ltb (eph_base + i) eph_base ≡ false = ground arith in
    let back : eph_base + i - eph_base ≡ i = omega arith in
    let mask = and-pow (i % 8) (get_or bitmap (i / 8) 0) in
    let low = bit-lt (get_or bitmap (i / 8) 0) (i % 8) in
    let pos = one-le-pow (i % 8) 2 (omega arith) in
    rw (above, back, u8-shift i, mask)
      (flag (bit (get_or bitmap (i / 8) 0) (i % 8)) (2 ^ (i % 8)) low pos)

-- `EPH_BASE + i as u16` does not wrap.
pub u16-port : (i : ℕ) → i < eph_len → u16 (eph_base + u16 i) ≡ eph_base + i
u16-port i h = omega arith

pub build_from-suc :
    (queue : ℕ → ℕ) (queue_id left i : ℕ) (bitmap : Bytes) (count : ℕ)
    → i < eph_len
    → build_from queue queue_id (suc left) i bitmap count
      ≡ build_from queue queue_id left
          (i + 1)
          (if queue (eph_base + i) == queue_id then mark bitmap i else bitmap)
          (if queue (eph_base + i) == queue_id then u32 (count + 1) else count)
unfolding build_from
build_from-suc queue queue_id left i bitmap count h =
    ap
      (λ p.
        build_from queue queue_id left (i + 1)
          (if queue p == queue_id then mark bitmap i else bitmap)
          (if queue p == queue_id then u32 (count + 1) else count))
      (u16-port i h)

port_bit-round :
    (queue : ℕ → ℕ) (queue_id i : ℕ) (bitmap : Bytes) (j : ℕ)
    → i < 8 * length bitmap
    → port_bit (if queue (eph_base + i) == queue_id then mark bitmap i else bitmap) j
      ≡ (if i == j && (queue (eph_base + j) == queue_id) then 1 else port_bit bitmap j)
port_bit-round queue queue_id i bitmap j h = elim (ℕ_discrete i j) [
  | yes e ↦ rw (sym e) (ground (arith, mark_self bitmap i h))
  | no ne ↦ ground (arith, mark_ne bitmap i j h ne)
]

length-round :
    (hit : Bool) (bitmap : Bytes) (i : ℕ)
    → length (if hit then mark bitmap i else bitmap) ≡ length bitmap
length-round true bitmap i = length-mark bitmap i
length-round false bitmap i = refl

-- What `build_owned_ports` leaves in the bitmap, bit by bit: those of the rounds that were made
-- are set where the port's queue is the worker's, the others are as before.
pub port_bit-build_from :
    (queue : ℕ → ℕ) (queue_id left i : ℕ) (bitmap : Bytes) (count j : ℕ)
    → i + left ≤ 8 * length bitmap
    → i + left ≤ eph_len
    → port_bit (build_from queue queue_id left i bitmap count).0 j ≡ (
        if leb i j && (ltb j (i + left) && (queue (eph_base + j) == queue_id))
        then 1
        else port_bit bitmap j)
port_bit-build_from queue queue_id zero i bitmap count j h k = unfold build_from in ground arith
port_bit-build_from queue queue_id (suc left) i bitmap count j h k =
    let hit = queue (eph_base + i) == queue_id in
    let bitmap' = if hit then mark bitmap i else bitmap in
    let long = length-round hit bitmap i in
    let later =
      port_bit-build_from queue queue_id left (i + 1) bitmap'
        (if hit then u32 (count + 1) else count) j (omega (arith, long)) (omega arith) in
    ap (λ t. port_bit t.0 j) (build_from-suc queue queue_id left i bitmap count (omega arith))
    ∙ later
    ∙ ground (arith, port_bit-round queue queue_id i bitmap j (omega arith))

-- The number of hits among `left` ports from index `i` on.
unfoldable pub hits : (ℕ → Bool) → ℕ → ℕ → ℕ
hits test zero i = 0
hits test (suc left) i = (if test i then 1 else 0) + hits test left (i + 1)

pub count-build_from :
    (queue : ℕ → ℕ) (queue_id left i : ℕ) (bitmap : Bytes) (count : ℕ)
    → count + left < 2 ^ 32
    → i + left ≤ eph_len
    → (build_from queue queue_id left i bitmap count).1
      ≡ count + hits (λ i. queue (eph_base + i) == queue_id) left i
unfolding hits
count-build_from queue queue_id zero i bitmap count h k = unfold build_from in omega arith
count-build_from queue queue_id (suc left) i bitmap count h k =
    let hit = queue (eph_base + i) == queue_id in
    let bitmap' = if hit then mark bitmap i else bitmap in
    ap (λ t. t.1) (build_from-suc queue queue_id left i bitmap count (omega arith))
    ∙ elim (Bool-cases hit) [
      | inl e ↦ rw e (
          count-build_from queue queue_id left (i + 1) (mark bitmap i) (u32 (count + 1))
            (omega arith) (omega arith)
          ∙ omega arith)
      | inr e ↦ rw e (
          count-build_from queue queue_id left (i + 1) bitmap count (omega arith) (omega arith)
          ∙ omega arith)
    ]
