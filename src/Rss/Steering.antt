-- ===== src/Rss/Steering.antt =====
-- Which ports a worker owns: those whose return traffic lands on its queue.
use native.Mathlib.Nat.{zero-add}
use miniosv_apps.Prelude.{
  ℕ, ◌+◌, ◌/◌, ◌%◌, ◌<◌, ◌≡◌, ap, ◌∙◌, ◌↔◌, true, arith, ◌==◌, if◌then◌else◌, length, replicate,
  Bytes, length-replicate, get_or-replicate,
}
use miniosv_apps.Prelude.Bits.{bit, bit-zero}
use miniosv_apps.Config.{Env}
use miniosv_apps.Rss.{
  RssState, queue_for_local_port, build_owned_ports, owns_port, eph_base, eph_len,
  owned_bitmap_bytes,
}
use miniosv_apps.Rss.Owned.{
  port_bit, owns_port-port_bit, port_bit-build_from, count-build_from, hits,
}

-- The bitmap that `worker_thread` allocates: `vec![0u8; OWNED_BITMAP_BYTES]`.
unfoldable pub fresh_bitmap : Bytes
fresh_bitmap = replicate owned_bitmap_bytes 0

-- The worker's bitmap, and its `owned_count`.
unfoldable pub owned_bitmap : Env → RssState → Bytes → ℕ → Bytes
owned_bitmap env st our_ip queue_id = (build_owned_ports env st our_ip queue_id fresh_bitmap).0

unfoldable pub owned_count : Env → RssState → Bytes → ℕ → ℕ
owned_count env st our_ip queue_id = (build_owned_ports env st our_ip queue_id fresh_bitmap).1

length-fresh : length fresh_bitmap ≡ owned_bitmap_bytes
unfolding fresh_bitmap
length-fresh = length-replicate {A = ℕ} owned_bitmap_bytes 0

port_bit-fresh : (j : ℕ) → port_bit fresh_bitmap j ≡ 0
unfolding fresh_bitmap
port_bit-fresh j =
    ap (λ t. bit t (j % 8)) (get_or-replicate owned_bitmap_bytes (j / 8) 0) ∙ bit-zero (j % 8)

port_bit-owned_bitmap :
    (env : Env) (st : RssState) (our_ip : Bytes) (queue_id i : ℕ)
    → i < eph_len
    → port_bit (owned_bitmap env st our_ip queue_id) i
      ≡ (if queue_for_local_port env st our_ip (eph_base + i) == queue_id then 1 else 0)
unfolding owned_bitmap build_owned_ports
port_bit-owned_bitmap env st our_ip queue_id i h =
    port_bit-build_from (queue_for_local_port env st our_ip) queue_id eph_len 0 fresh_bitmap 0 i
      (omega (arith, length-fresh)) (omega arith)
    ∙ ground (arith, port_bit-fresh i)

-- For every port of the dynamic range, the bitmap that a worker builds owns the port exactly when
-- return traffic to the port is steered to the worker's queue.
pub owns_port-owned_bitmap :
    (env : Env) (st : RssState) (our_ip : Bytes) (queue_id i : ℕ)
    → i < eph_len
    → (owns_port (owned_bitmap env st our_ip queue_id) (eph_base + i) ≡ true)
      ↔ (queue_for_local_port env st our_ip (eph_base + i) ≡ queue_id)
owns_port-owned_bitmap env st our_ip queue_id i h =
    let (read, back) = owns_port-port_bit (owned_bitmap env st our_ip queue_id) i in
    let written = port_bit-owned_bitmap env st our_ip queue_id i h in
    (λ o. ground (arith, read o, written), λ e. back (ground (arith, written)))

-- `owned_count` is the number of ports of the dynamic range whose return traffic is steered to the
-- worker's queue.
pub owned_count-hits :
    (env : Env) (st : RssState) (our_ip : Bytes) (queue_id : ℕ)
    → owned_count env st our_ip queue_id
      ≡ hits (λ i. queue_for_local_port env st our_ip (eph_base + i) == queue_id) eph_len 0
unfolding owned_count build_owned_ports
owned_count-hits env st our_ip queue_id =
    count-build_from (queue_for_local_port env st our_ip) queue_id eph_len 0 fresh_bitmap 0
      (omega arith) (omega arith)
    ∙ zero-add _
