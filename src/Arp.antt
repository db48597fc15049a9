-- ===== src/Arp.antt =====
-- The ARP helpers of bench/smoltcp-s3/src/lib.rs, lines 773-813, by which the program learns and seeds
-- the gateway's hardware address. `[u8; 6]` and `[u8; 4]` are lists; the theorems have their lengths.
pub mod Parse
mod Tests
use miniosv_apps.Prelude.{
  ℕ, ◌+◌, Bool, true, false, ◌||◌, not, Option, none, some, List, [], ◌∷◌, ◌++◌, ltb, if◌then◌else◌,
  length, take, drop, replicate, Bytes, be_bytes16,
}
use miniosv_apps.Config.{bytes_eq}

-- `f[at..at + src.len()].copy_from_slice(&src)`
abbrev pub copy_at : ℕ → Bytes → Bytes → Bytes
copy_at at src f = take at f ++ (src ++ drop (at + length src) f)

-- `&f[at..at + n]`, inside the array
abbrev pub slice : ℕ → ℕ → Bytes → Bytes
slice at n f = take n (drop at f)

unfoldable pub arp_frame : Bytes → Bytes → ℕ → Bytes → Bytes → Bytes → Bytes
arp_frame dst_mac src_mac op sender_ip target_mac target_ip =
    let f₀ = copy_at 0 dst_mac (replicate 42 0) in
    let f₁ = copy_at 6 src_mac f₀ in
    let f₂ = copy_at 12 (8 ∷ 6 ∷ []) f₁ in
    let f₃ = copy_at 14 (0 ∷ 1 ∷ []) f₂ in
    let f₄ = copy_at 16 (8 ∷ 0 ∷ []) f₃ in
    let f₅ = copy_at 18 (6 ∷ []) f₄ in
    let f₆ = copy_at 19 (4 ∷ []) f₅ in
    let f₇ = copy_at 20 (be_bytes16 op) f₆ in
    let f₈ = copy_at 22 src_mac f₇ in
    let f₉ = copy_at 28 sender_ip f₈ in copy_at 38 target_ip (copy_at 32 target_mac f₉)

unfoldable pub build_arp_request : Bytes → Bytes → Bytes → Bytes
build_arp_request our_mac our_ip target_ip =
    arp_frame (replicate 6 255) our_mac 1 our_ip (replicate 6 0) target_ip

unfoldable pub build_arp_reply : Bytes → Bytes → Bytes → Bytes → Bytes
build_arp_reply sender_mac sender_ip target_mac target_ip =
    arp_frame target_mac sender_mac 2 sender_ip target_mac target_ip

unfoldable pub parse_arp_reply_from : Bytes → Bytes → Option Bytes
unfolding bytes_eq
parse_arp_reply_from frame expected_ip =
    if ltb (length frame) 42
      || not (bytes_eq (slice 12 2 frame) (8 ∷ 6 ∷ []))
      || not (bytes_eq (slice 20 2 frame) (0 ∷ 2 ∷ []))
    then none
    else if not (bytes_eq (slice 28 4 frame) expected_ip)
    then none
    else some (slice 22 6 frame)
