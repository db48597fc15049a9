-- ===== src/Network.antt =====
-- How bench/smoltcp-s3/src/lib.rs learns its network: `MonoClock` (lines 860-867), `dhcp_acquire`
-- (870-908) and `learn_network` (1394-1462). What the DHCP socket says, round by round, and what the
-- shim answers are arguments; a round without an event or a packet is `none`. What the loop tells the
-- interface about its lease is left out: the interface is dropped behind it.
pub mod Found
mod Tests
use miniosv_apps.Prelude.{
  ℕ, zero, suc, ◌+◌, ◌-◌, ◌/◌, Option, none, some, List, [], ◌∷◌, ◌++◌, ltb, if◌then◌else◌, length,
  take, replicate, min, u16, u64, Bytes,
}
use miniosv_apps.Arp.{build_arp_request, parse_arp_reply_from}
use miniosv_apps.Device.{Packet, no_packet, DpdkDevice}
use miniosv_apps.Device.Tokens.{TxBuffer, TxCall}

pub record MonoClock : Type 0 where
  pub epoch_ns : ℕ

-- At the time `now`, in nanoseconds.
unfoldable pub elapsed_ns : MonoClock → ℕ → ℕ
elapsed_ns clk now = now - clk.epoch_ns

unfoldable pub elapsed_ms : MonoClock → ℕ → ℕ
elapsed_ms clk now = elapsed_ns clk now / 1000000

abbrev pub iter_budget : ℕ
iter_budget = 20000000000

pub data DhcpEvent : Type 0 where
  configured : (address : Bytes) → (prefix_len : ℕ) → (router : Option Bytes) → DhcpEvent
  deconfigured : DhcpEvent

-- What `dhcp_acquire` returns.
pub record Lease : Type 0 where
  pub address : Bytes
  pub prefix_len : ℕ
  pub router : Bytes

abbrev pub router_or_zero : Option Bytes → Bytes
router_or_zero none = replicate 4 0
router_or_zero (some r) = r

abbrev pub lease : Bytes → ℕ → Option Bytes → Lease
lease address prefix_len router = record {
  address = address;
  prefix_len = prefix_len;
  router = router_or_zero router;
}

-- The end of a round: the loop gives up with `given_up` once `iter` is beyond its budget.
abbrev pub count_round {ℓ} : {A : Type ℓ} → ℕ → ℕ → A → Option A → Option A
count_round budget iter given_up rest = if ltb budget iter then some given_up else rest

-- The loop of `dhcp_acquire`, for the rounds that the socket plays; `none` where it has not ended
-- behind them.
unfoldable pub dhcp_from : ℕ → List (Option DhcpEvent) → ℕ → Option (Option Lease)
dhcp_from budget [] iter = none
dhcp_from budget (some (configured address prefix_len router) ∷ more) iter =
    some (some (lease address prefix_len router))
dhcp_from budget (some deconfigured ∷ more) iter =
    count_round budget (u64 (iter + 1)) none (dhcp_from budget more (u64 (iter + 1)))
dhcp_from budget (none ∷ more) iter =
    count_round budget (u64 (iter + 1)) none (dhcp_from budget more (u64 (iter + 1)))

abbrev pub dhcp_acquire : List (Option DhcpEvent) → Option (Option Lease)
dhcp_acquire events = dhcp_from (iter_budget / 10) events 0

-- The request that `learn_network` sends from an mbuf.
unfoldable pub arp_call : Bytes → Lease → TxBuffer → TxCall
arp_call mac l b =
    let req = build_arp_request mac l.address l.router in
    let n = min (length req) (length b.room) in
    record { handle = b.handle; len = u16 n; frame = take n req }

-- `if let Some(hw)`, which returns.
abbrev pub answer_or :
    Option Bytes → List ℕ → Option (Option Bytes × List ℕ) → Option (Option Bytes × List ℕ)
answer_or none freed later = later
answer_or (some hw) freed later = some (some hw, freed)

-- The loop of `learn_network` that waits for the gateway's answer, and the handles that it frees.
unfoldable pub arp_from :
    ℕ → Bytes → List (Option Packet) → ℕ → List ℕ → Option (Option Bytes × List ℕ)
arp_from budget gw [] iter freed = none
arp_from budget gw (none ∷ more) iter freed =
    count_round budget (u64 (iter + 1)) (none, freed)
      (arp_from budget gw more (u64 (iter + 1)) freed)
arp_from budget gw (some p ∷ more) iter freed =
    let freed' = freed ++ (p.handle ∷ []) in
    let rest = arp_from budget gw more (u64 (iter + 1)) freed' in
    answer_or (parse_arp_reply_from p.frame gw) freed'
      (count_round budget (u64 (iter + 1)) (none, freed') rest)

-- What `learn_network` returns, and the calls of the shim that it made.
pub record Network : Type 0 where
  pub ip : Bytes
  pub prefix_len : ℕ
  pub gateway_ip : Bytes
  pub gateway_mac : Bytes

pub record Learnt : Type 0 where
  pub network : Option Network
  pub calls : List TxCall
  pub freed : List ℕ

abbrev pub network_of : Lease → Option Bytes → Option Network
network_of l none = none
network_of l (some hw) =
    some (record {
      ip = l.address;
      prefix_len = l.prefix_len;
      gateway_ip = l.router;
      gateway_mac = hw;
    })

abbrev pub learnt : Lease → List TxCall → Option (Option Bytes × List ℕ) → Option Learnt
learnt l calls none = none
learnt l calls (some (hw, freed)) =
    some (record { network = network_of l hw; calls = calls; freed = freed })

abbrev pub nothing_learnt : Learnt
nothing_learnt = record { network = none; calls = []; freed = [] }

-- `learn_network` behind the lease: `none` stands for a pool that is exhausted.
unfoldable pub ask_gateway :
    ℕ → Bytes → Option TxBuffer → List (Option Packet) → Lease → Option Learnt
ask_gateway budget mac none polls l = some nothing_learnt
ask_gateway budget mac (some b) polls l =
    learnt l (arp_call mac l b ∷ []) (arp_from budget l.router polls 0 [])

abbrev pub with_lease : (Lease → Option Learnt) → Option (Option Lease) → Option Learnt
with_lease ask none = none
with_lease ask (some none) = some nothing_learnt
with_lease ask (some (some l)) = ask l

-- `learn_network`, with the budgets of its two loops.
unfoldable pub learn_within :
    ℕ → ℕ → Bytes → List (Option DhcpEvent) → Option TxBuffer → List (Option Packet) → Option Learnt
learn_within dhcp_budget arp_budget mac events buffer polls =
    with_lease (ask_gateway arp_budget mac buffer polls) (dhcp_from dhcp_budget events 0)

abbrev pub learn_network :
    Bytes → List (Option DhcpEvent) → Option TxBuffer → List (Option Packet) → Option Learnt
learn_network = learn_within (iter_budget / 10) (iter_budget / 20)

-- The device that `learn_network` makes, which accepts every packet.
abbrev pub dhcp_device : DpdkDevice
dhcp_device = record {
  pending_synth = none;
  owned_ports = none;
  rx_pref = replicate 32 no_packet;
  rx_pref_pos = 0;
  rx_pref_len = 0;
}
