-- ===== src/Device/Filter.antt =====
-- What the filter of a worker lets through, by the queue that the frame's port is steered to.
use miniosv_apps.Prelude.{
  ℕ, zero, suc, ◌+◌, ◌-◌, ◌*◌, ◌^◌, ◌<◌, ◌≡◌, ap, ◌∙◌, ◌↔◌, inl, inr, bit_and, bit_or, ◌/◌, ◌%◌,
  Bool, true, false, ◌&&◌, ◌||◌, not, some, [], ◌∷◌, arith, Bool-cases, Bool-eq_of_iff, subst, ltb,
  leb, ◌==◌, ==_iff, if◌then◌else◌, length, u16, u64, Bytes,
}
use miniosv_apps.Prelude.Bits.{or-packed, bit_and_step, and-zero}
use miniosv_apps.Config.{Env}
use miniosv_apps.Rss.{RssState, queue_for_local_port, owns_port, eph_base, eph_len}
use miniosv_apps.Rss.BitString.{AreBytes}
use miniosv_apps.Rss.Steering.{owned_bitmap, owns_port-owned_bitmap}
use miniosv_apps.Device.{byte, l4_offset, dst_port, accept}

-- Where the TCP header lies by the wire format: behind the 14 bytes of Ethernet, and as many words of
-- four bytes as the low half of the first byte of the IPv4 header says.
abbrev pub tcp_header : Bytes → ℕ
tcp_header bytes = 14 + byte bytes 14 % 16 * 4

-- The destination port, the third and fourth byte of the TCP header, the higher one first.
abbrev pub port_to : Bytes → ℕ
port_to bytes = byte bytes (tcp_header bytes + 2) * 256 + byte bytes (tcp_header bytes + 3)

-- A frame long enough for the three headers, of IPv4 and TCP, that holds the ports.
abbrev pub is_tcp : Bytes → Bool
is_tcp bytes =
    leb 54 (length bytes)
    && byte bytes 12 == 8
    && byte bytes 13 == 0
    && byte bytes 23 == 6
    && leb (tcp_header bytes + 4) (length bytes)

and-15 : (x : ℕ) → bit_and x 15 ≡ x % 16
and-15 x = omega (
  arith,
  bit_and_step x 15,
  bit_and_step (x / 2) 7,
  bit_and_step (x / 2 / 2) 3,
  bit_and_step (x / 2 / 2 / 2) 1,
  and-zero (x / 2 / 2 / 2 / 2),
)

l4_offset-tcp_header : (bytes : Bytes) → l4_offset bytes ≡ tcp_header bytes
unfolding l4_offset
l4_offset-tcp_header bytes = ap (λ n. 14 + n * 4) (and-15 (byte bytes 14))

byte-lt : (bytes : Bytes) (i : ℕ) → AreBytes bytes → byte bytes i < 256
byte-lt [] i h = omega arith
byte-lt (x ∷ xs) zero (h, hs) = h
byte-lt (x ∷ xs) (suc i) (h, hs) = byte-lt xs i hs

-- The port is read from two bytes in wire order.
dst_port-value :
    (bytes : Bytes)
    → AreBytes bytes
    → let l4 = l4_offset bytes in dst_port bytes ≡ byte bytes (l4 + 2) * 2 ^ 8 + byte bytes (l4 + 3)
unfolding dst_port
dst_port-value bytes h =
    let x = byte bytes (l4_offset bytes + 2) in
    let y = byte bytes (l4_offset bytes + 3) in
    let exact : u16 (x * 2 ^ 8) ≡ x * 2 ^ 8 =
      omega (arith, byte-lt bytes (l4_offset bytes + 2) h) in
    ap (λ t. bit_or t y) exact
    ∙ or-packed 8 x y (omega (arith, byte-lt bytes (l4_offset bytes + 3) h))

dst_port-lt : (bytes : Bytes) → AreBytes bytes → dst_port bytes < 2 ^ 16
dst_port-lt bytes h =
    let l4 = l4_offset bytes in
    omega (arith, dst_port-value bytes h, byte-lt bytes (l4 + 2) h, byte-lt bytes (l4 + 3) h)

-- Every frame but a TCP frame to a port that the bitmap does not own passes.
accept-is_tcp :
    (bitmap bytes : Bytes) (misrouted : ℕ)
    → accept (some bitmap) misrouted bytes ≡ (
        if is_tcp bytes && not (owns_port bitmap (dst_port bytes))
        then (false, u64 (misrouted + 1))
        else (true, misrouted))
unfolding accept
accept-is_tcp bitmap bytes misrouted = let e = l4_offset-tcp_header bytes in ground (arith, e)

dst_port-port_to : (bytes : Bytes) → AreBytes bytes → dst_port bytes ≡ port_to bytes
dst_port-port_to bytes h =
    dst_port-value bytes h
    ∙ ap (λ l4. byte bytes (l4 + 2) * 256 + byte bytes (l4 + 3)) (l4_offset-tcp_header bytes)

-- The bitmap of a worker owns a port below the dynamic range, and within it a port that is steered
-- to the worker's queue.
owns_port-dst_port :
    (env : Env) (st : RssState) (our_ip : Bytes) (queue_id port : ℕ)
    → port < 2 ^ 16
    → owns_port (owned_bitmap env st our_ip queue_id) port
      ≡ (ltb port eph_base || queue_for_local_port env st our_ip port == queue_id)
owns_port-dst_port env st our_ip queue_id port h = elim (Bool-cases (ltb port eph_base)) [
  | inl low ↦ rw low (unfold owns_port in rw low)
  | inr high ↦
      let back : eph_base + (port - eph_base) ≡ port = ground arith in
      let inside : port - eph_base < eph_len = ground arith in
      let iff = owns_port-owned_bitmap env st our_ip queue_id (port - eph_base) inside in
      rw high (
        subst
          (λ p.
            owns_port (owned_bitmap env st our_ip queue_id) p
            ≡ (queue_for_local_port env st our_ip p == queue_id))
          back (Bool-eq_of_iff _ _ (steered (port - eph_base) iff)))
]
  where
    steered :
        (i : ℕ)
        → (owns_port (owned_bitmap env st our_ip queue_id) (eph_base + i) ≡ true)
          ↔ (queue_for_local_port env st our_ip (eph_base + i) ≡ queue_id)
        → (owns_port (owned_bitmap env st our_ip queue_id) (eph_base + i) ≡ true)
          ↔ ((queue_for_local_port env st our_ip (eph_base + i) == queue_id) ≡ true)
    steered i (to, from) =
        let (a, b) = ==_iff (queue_for_local_port env st our_ip (eph_base + i)) queue_id in
        (λ o. b (to o), λ e. from (a e))

-- With the bitmap of its own queue, a worker drops a frame of bytes, and counts it as misrouted,
-- exactly where it is a TCP frame to a port of the dynamic range whose traffic is steered to another
-- queue, the port read where the wire format has it; every other frame passes and is not counted.
pub accept-owned_bitmap :
    (env : Env) (st : RssState) (our_ip : Bytes) (queue_id misrouted : ℕ) (bytes : Bytes)
    → AreBytes bytes
    → let port = port_to bytes in
      accept (some (owned_bitmap env st our_ip queue_id)) misrouted bytes ≡ (
        if is_tcp bytes
          && not (ltb port eph_base || queue_for_local_port env st our_ip port == queue_id)
        then (false, u64 (misrouted + 1))
        else (true, misrouted))
accept-owned_bitmap env st our_ip queue_id misrouted bytes h =
    let bitmap = owned_bitmap env st our_ip queue_id in
    let same = dst_port-port_to bytes h in
    let small = subst (λ p. p < 2 ^ 16) same (dst_port-lt bytes h) in
    accept-is_tcp bitmap bytes misrouted
    ∙ ap (λ b. if is_tcp bytes && not b then (false, u64 (misrouted + 1)) else (true, misrouted))
        (ap (owns_port bitmap) same
          ∙ owns_port-dst_port env st our_ip queue_id (port_to bytes) small)
