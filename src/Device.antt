-- ===== src/Device.antt =====
-- `DpdkDevice::receive` in bench/smoltcp-s3/src/lib.rs, lines 615-641 and 698-757: which frames a
-- worker hands to its stack, and which it counts as misrouted and drops.
pub mod Filter
pub mod Queue
pub mod Receive
pub mod Tokens
pub mod Serve
pub mod Sent
mod Tests
use miniosv_apps.Prelude.{
  ℕ, zero, suc, ◌+◌, ◌*◌, ◌%◌, ◌^◌, bit_and, bit_or, Bool, true, false, ◌&&◌, ◌||◌, not, Option,
  none, some, List, [], ◌∷◌, ltb, ◌==◌, if◌then◌else◌, length, get_or, ◌++◌, drop, u16, u64, ◌<<<◌,
  Bytes,
}
use miniosv_apps.Rss.{owns_port}

-- `bytes[at]`; every index below lies in the frame where it is read.
abbrev pub byte : Bytes → ℕ → ℕ
byte bytes at = get_or bytes at 0

-- `l4`, the place of the TCP header
unfoldable pub l4_offset : Bytes → ℕ
l4_offset bytes = 14 + bit_and (byte bytes 14) 15 * 4

unfoldable pub dst_port : Bytes → ℕ
dst_port bytes =
    let l4 = l4_offset bytes in bit_or (u16 (byte bytes (l4 + 2) <<< 8)) (byte bytes (l4 + 3))

-- `owned`: the null pointer owns every port.
abbrev pub is_owned : Option Bytes → ℕ → Bool
is_owned none port = true
is_owned (some bitmap) port = owns_port bitmap port

-- `ok`, and MISROUTED_DROPS behind it.
unfoldable pub accept : Option Bytes → ℕ → Bytes → Bool × ℕ
accept owned_ports misrouted bytes =
    if ltb (length bytes) 54
    then (true, misrouted)
    else if not (byte bytes 12 == 8 && byte bytes 13 == 0)
    then (true, misrouted)
    else if not (byte bytes 23 == 6) || ltb (length bytes) (l4_offset bytes + 4)
    then (true, misrouted)
    else (let owned = is_owned owned_ports (dst_port bytes) in
        (owned, if not owned then u64 (misrouted + 1) else misrouted))

-- What one entry of the three prefetch arrays holds: the mbuf's handle, and its data with their
-- length.
pub record Packet : Type 0 where
  pub handle : ℕ
  pub frame : Bytes

abbrev pub no_packet : Packet
no_packet = record { handle = 0; frame = [] }

-- `DpdkDevice`, without the queue's number and the pool.
pub record DpdkDevice : Type 0 where
  pub pending_synth : Option Bytes
  pub owned_ports : Option Bytes
  pub rx_pref : List Packet
  pub rx_pref_pos : ℕ
  pub rx_pref_len : ℕ

pub data DpdkRxToken : Type 0 where
  mbuf : Packet → DpdkRxToken
  synth : Bytes → DpdkRxToken

-- What lies outside: the bursts that the calls of `shim_mbuf_rx_burst_n` will return (none once the
-- list has ended), the handles freed, in order, and MISROUTED_DROPS.
pub record Shim : Type 0 where
  pub bursts : List (List Packet)
  pub freed : List ℕ
  pub misrouted : ℕ

-- A burst fills the first entries of the arrays.
unfoldable pub burst_into : DpdkDevice → Shim → List (List Packet) → Bool × DpdkDevice × Shim
burst_into d w [] = (false, d, w)
burst_into d w ([] ∷ later) = (false, d, record w { bursts = later })
burst_into d w ((p ∷ ps) ∷ later) = (
  true,
  record d {
    rx_pref = (p ∷ ps) ++ drop (length (p ∷ ps)) d.rx_pref;
    rx_pref_pos = 0;
    rx_pref_len = length (p ∷ ps);
  },
  record w { bursts = later },
)

unfoldable pub refill : DpdkDevice → Shim → Bool × DpdkDevice × Shim
refill d w = if d.rx_pref_pos == d.rx_pref_len then burst_into d w w.bursts else (true, d, w)

-- The loop of `receive`; `none` where the fuel runs out.
unfoldable pub receive_from :
    ℕ → DpdkDevice → Shim → Option (Option DpdkRxToken × DpdkDevice × Shim)
receive_from zero d w = none
receive_from (suc fuel) d w =
    let (got, d', w') = refill d w in
    let p = get_or d'.rx_pref d'.rx_pref_pos no_packet in
    let (ok, misrouted) = accept d'.owned_ports w'.misrouted p.frame in
    let d'' = record d' { rx_pref_pos = d'.rx_pref_pos + 1 } in
    let more =
      receive_from fuel d''
        (record w' { misrouted = misrouted; freed = w'.freed ++ (p.handle ∷ []) }) in
    if not got
    then some (none, d', w')
    else if ok
    then some (some (mbuf p), d'', record w' { misrouted = misrouted })
    else more

unfoldable pub receive : ℕ → DpdkDevice → Shim → Option (Option DpdkRxToken × DpdkDevice × Shim)
receive fuel d w = elim d.pending_synth [
  | none ↦ receive_from fuel d w
  | some buf ↦ some (some (synth buf), record d { pending_synth = none }, w)
]
