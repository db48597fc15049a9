-- ===== src/Main/Seeded.antt =====
-- The first frame that each worker's stack is given (lines 1227-1237 and 1520-1537 of
-- bench/smoltcp-s3/src/lib.rs), from the network that `learn_network` has found.
use miniosv_apps.Prelude.{
  ℕ, ◌+◌, ◌≤◌, ◌≡◌, refl, ap, subst, ◌∙◌, inl, inr, Option, none, some, List, [], ◌∷◌, ◌++◌, arith,
  Bool-cases, ltb, length, drop, length-take, length-drop, u64, Bytes,
}
use miniosv_apps.Config.{Env}
use miniosv_apps.Rss.{RssState}
use miniosv_apps.Arp.{slice, parse_arp_reply_from}
use miniosv_apps.Device.{Packet, DpdkRxToken, synth, DpdkDevice, Shim, receive}
use miniosv_apps.Device.Tokens.{TxBuffer, TxCall}
use miniosv_apps.Network.{
  DhcpEvent, Lease, Network, Learnt, learnt, count_round, dhcp_from, arp_call, arp_from, answer_or,
  ask_gateway, with_lease, learn_within,
}
use miniosv_apps.Thread.{worker_device}
use miniosv_apps.Thread.Seeded.{IsAddressed, worker_device-IsSeeded}
use miniosv_apps.Main.{worker_ctx}

-- One of the packets that queue 0 brought is the gateway's answer with this hardware address.
abbrev pub IsAnswered : Bytes → Bytes → List (Option Packet) → Type 0
IsAnswered gw hw polls =
    (before : List (Option Packet)) × (p : Packet) × (after : List (Option Packet)) × (polls
      ≡ before ++ (some p ∷ after))
    × (parse_arp_reply_from p.frame gw ≡ some hw)

IsAnswered-later :
    (gw hw : Bytes) (q : Option Packet) (polls : List (Option Packet))
    → IsAnswered gw hw polls
    → IsAnswered gw hw (q ∷ polls)
IsAnswered-later gw hw q polls (before, p, after, e, f) =
    (q ∷ before, p, after, ap (λ t. q ∷ t) e, f)

count_round-found :
    (budget n : ℕ) (freed : List ℕ) (rest : Option (Option Bytes × List ℕ)) (hw : Bytes)
    (freed' : List ℕ)
    → count_round budget n (none, freed) rest ≡ some (some hw, freed')
    → rest ≡ some (some hw, freed')
count_round-found budget n freed rest hw freed' e = elim (Bool-cases (ltb budget n)) [
  | inl over ↦ absurd (ends (rw over at e))
  | inr inside ↦ rw inside at e
]
  where
    ends :
        ◌≡◌ {A = Option (Option Bytes × List ℕ)} (some (none, freed)) (some (some hw, freed')) → ⊥
    ends q = cc

arp_from-IsAnswered :
    (budget : ℕ) (gw hw : Bytes) (polls : List (Option Packet)) (iter : ℕ) (freed freed' : List ℕ)
    → arp_from budget gw polls iter freed ≡ some (some hw, freed')
    → IsAnswered gw hw polls
unfolding arp_from
arp_from-IsAnswered budget gw hw [] iter freed freed' e = cc
arp_from-IsAnswered budget gw hw (none ∷ more) iter freed freed' e =
    IsAnswered-later gw hw none more (
      arp_from-IsAnswered budget gw hw more (u64 (iter + 1)) freed freed'
        (count_round-found budget (u64 (iter + 1)) freed _ hw freed' e))
arp_from-IsAnswered budget gw hw (some p ∷ more) iter freed freed' e =
    by_answer (parse_arp_reply_from p.frame gw) refl e
      (arp_from-IsAnswered budget gw hw more (u64 (iter + 1)) (freed ++ (p.handle ∷ [])) freed')
  where
    by_answer :
        (o : Option Bytes) {rest : Option (Option Bytes × List ℕ)}
        → parse_arp_reply_from p.frame gw ≡ o
        → answer_or o
            (freed ++ (p.handle ∷ []))
            (count_round budget (u64 (iter + 1)) (none, freed ++ (p.handle ∷ [])) rest)
          ≡ some (some hw, freed')
        → (rest ≡ some (some hw, freed') → IsAnswered gw hw more)
        → IsAnswered gw hw (some p ∷ more)
    by_answer none {rest} q e later = IsAnswered-later gw hw (some p) more (
        later
          (count_round-found budget (u64 (iter + 1)) (freed ++ (p.handle ∷ [])) rest hw freed' e))
    by_answer (some hw') q e later =
        let same : hw' ≡ hw = cc in ([], p, more, refl, q ∙ ap some same)

-- The network that a search has learnt names the hardware address that came.
learnt-IsAnswered :
    (budget : ℕ) (polls : List (Option Packet)) (l : Lease) (calls : List TxCall) (log : Learnt)
    (net : Network) (o : Option (Option Bytes × List ℕ))
    → arp_from budget l.router polls 0 [] ≡ o
    → learnt l calls o ≡ some log
    → log.network ≡ some net
    → IsAnswered net.gateway_ip net.gateway_mac polls
learnt-IsAnswered budget polls l calls log net none e f n = cc
learnt-IsAnswered budget polls l calls log net (some (none, freed)) e f n = cc
learnt-IsAnswered budget polls l calls log net (some (some hw, freed)) e f n =
    let found : some (record {
      ip = l.address;
      prefix_len = l.prefix_len;
      gateway_ip = l.router;
      gateway_mac = hw;
    })
        ≡ some net =
      cc in
    let gw : l.router ≡ net.gateway_ip = cc in
    let same : hw ≡ net.gateway_mac = cc in
    subst (λ g. IsAnswered g net.gateway_mac polls) gw
      (subst (λ h. IsAnswered l.router h polls) same
        (arp_from-IsAnswered budget l.router hw polls 0 [] freed e))

ask_gateway-IsAnswered :
    (budget : ℕ) (mac : Bytes) (buffer : Option TxBuffer) (polls : List (Option Packet)) (l : Lease)
    (log : Learnt) (net : Network)
    → ask_gateway budget mac buffer polls l ≡ some log
    → log.network ≡ some net
    → IsAnswered net.gateway_ip net.gateway_mac polls
unfolding ask_gateway
ask_gateway-IsAnswered budget mac none polls l log net e n = cc
ask_gateway-IsAnswered budget mac (some b) polls l log net e n =
    learnt-IsAnswered budget polls l (arp_call mac l b ∷ []) log net _ refl e n

learn_within-IsAnswered :
    (dhcp_budget arp_budget : ℕ) (mac : Bytes) (events : List (Option DhcpEvent))
    (buffer : Option TxBuffer) (polls : List (Option Packet)) (log : Learnt) (net : Network)
    → learn_within dhcp_budget arp_budget mac events buffer polls ≡ some log
    → log.network ≡ some net
    → IsAnswered net.gateway_ip net.gateway_mac polls
unfolding learn_within
learn_within-IsAnswered dhcp_budget arp_budget mac events buffer polls log net e n =
    by_lease (dhcp_from dhcp_budget events 0) e
  where
    by_lease :
        (o : Option (Option Lease))
        → with_lease (ask_gateway arp_budget mac buffer polls) o ≡ some log
        → IsAnswered net.gateway_ip net.gateway_mac polls
    by_lease none e = cc
    by_lease (some none) e = cc
    by_lease (some (some l)) e = ask_gateway-IsAnswered arp_budget mac buffer polls l log net e n

-- A hardware address that the parser takes has six bytes.
length-parse_arp_reply_from :
    (frame gw hw : Bytes) → parse_arp_reply_from frame gw ≡ some hw → length hw ≡ 6
unfolding parse_arp_reply_from
length-parse_arp_reply_from frame gw hw e =
    let size : 42 ≤ length frame = ground arith in
    let taken : slice 22 6 frame ≡ hw = ground arith in
    omega (arith, ap length taken, length-take 6 (drop 22 frame), length-drop 22 frame)

-- The first frame that a stack gets, whatever the card brings: what it says of the gateway is what the
-- gateway's own answer said that queue 0 had brought. No mbuf is freed for it, and it comes once.
abbrev pub IsSeededBy :
    Network → List (Option Packet) → Shim → Option (Option DpdkRxToken × DpdkDevice × Shim) → Type 0
IsSeededBy net polls w o =
    (frame : Bytes) × (d : DpdkDevice) × (before : List (Option Packet)) × (p : Packet)
    × (after : List (Option Packet)) × (o ≡ some (some (synth frame), d, w))
    × (d.pending_synth ≡ none)
    × (polls ≡ before ++ (some p ∷ after))
    × (parse_arp_reply_from p.frame net.gateway_ip ≡ some net.gateway_mac)
    × (parse_arp_reply_from frame net.gateway_ip ≡ some net.gateway_mac)

-- Where `learn_network` has found a network, whatever its budgets, and the card's address has six bytes
-- and those of the lease have four: the stack of every worker that `osv_app_main` makes for it first
-- receives a frame that the worker made up itself, from which the parser takes the hardware address
-- that it takes from the gateway's own answer, a packet that queue 0 had brought.
pub worker_ctx-IsSeededBy :
    (dhcp_budget arp_budget : ℕ) (mac : Bytes) (events : List (Option DhcpEvent))
    (buffer : Option TxBuffer) (polls : List (Option Packet)) (log : Learnt) (net : Network)
    (env : Env) (st : RssState) (pools : List ℕ) (i fuel : ℕ) (w : Shim)
    → learn_within dhcp_budget arp_budget mac events buffer polls ≡ some log
    → log.network ≡ some net
    → length mac ≡ 6
    → length net.ip ≡ 4
    → length net.gateway_ip ≡ 4
    → IsSeededBy net polls w
        (receive fuel (worker_device env st (worker_ctx env pools mac net i)) w)
unfolding worker_ctx
worker_ctx-IsSeededBy dhcp_budget arp_budget mac events buffer polls log net env st pools i fuel w e
      n six four four' =
    let (before, p, after, whole, answer) =
      learn_within-IsAnswered dhcp_budget arp_budget mac events buffer polls log net e n in
    let hw = length-parse_arp_reply_from p.frame net.gateway_ip net.gateway_mac answer in
    let sizes : IsAddressed (worker_ctx env pools mac net i) = record {
      mac = six;
      ip = four;
      gateway_ip = four';
      gateway_mac = hw;
    } in
    let (frame, d, first, seeded, once) =
      worker_device-IsSeeded env st (worker_ctx env pools mac net i) fuel w sizes in
    (frame, d, before, p, after, first, once, whole, answer, seeded)
