-- ===== src/Network/Found.antt =====
-- What `learn_network` finds (lines 870-908 and 1394-1462 of bench/smoltcp-s3/src/lib.rs): the first
-- lease, and the first answer of its gateway, that come within the budgets.
use miniosv_apps.Prelude.{
  ℕ, zero, suc, ◌+◌, ◌^◌, ◌<◌, ◌≡◌, refl, sym, ap, ◌∙◌, inl, inr, true, false, Option, none, some,
  List, [], ◌∷◌, ◌++◌, append-nil, append_assoc, arith, Option-cases, ltb, length, take, u64, Bytes,
}
use miniosv_apps.Arp.{parse_arp_reply_from}
use miniosv_apps.Device.{Packet}
use miniosv_apps.Device.Tokens.{TxBuffer}
use miniosv_apps.Network.{
  DhcpEvent, configured, deconfigured, Lease, lease, count_round, dhcp_from, arp_call, arp_from,
  network_of, Learnt, learnt, nothing_learnt, ask_gateway, with_lease, learn_within,
}

-- The first lease of some rounds.
abbrev pub first_lease : List (Option DhcpEvent) → Option Lease
first_lease [] = none
first_lease (some (configured a n r) ∷ more) = some (lease a n r)
first_lease (some deconfigured ∷ more) = first_lease more
first_lease (none ∷ more) = first_lease more

abbrev pub or_later : Option Bytes → Option Bytes → Option Bytes
or_later none later = later
or_later (some hw) later = some hw

abbrev pub unless : Option Bytes → List ℕ → List ℕ
unless none later = later
unless (some hw) later = []

-- The first answer of the gateway, and the packets up to it.
abbrev pub first_answer : Bytes → List (Option Packet) → Option Bytes
first_answer gw [] = none
first_answer gw (none ∷ more) = first_answer gw more
first_answer gw (some p ∷ more) = or_later (parse_arp_reply_from p.frame gw) (first_answer gw more)

abbrev pub handles_until : Bytes → List (Option Packet) → List ℕ
handles_until gw [] = []
handles_until gw (none ∷ more) = handles_until gw more
handles_until gw (some p ∷ more) =
    p.handle ∷ unless (parse_arp_reply_from p.frame gw) (handles_until gw more)

-- A round that is counted: the loop ends with it exactly where it was the last of the budget.
count_round-last :
    {A : Type 0} (budget iter : ℕ) (end : A) (rest : Option A)
    → budget ≡ iter
    → budget + 1 < 2 ^ 64
    → count_round budget (u64 (iter + 1)) end rest ≡ some end
count_round-last budget iter end rest h small =
    let e : ltb budget (u64 (iter + 1)) ≡ true = ground arith in rw e

count_round-more :
    {A : Type 0} (budget iter : ℕ) (end : A) (rest : Option A)
    → iter < budget
    → budget + 1 < 2 ^ 64
    → count_round budget (u64 (iter + 1)) end rest ≡ rest
count_round-more budget iter end rest h small =
    let e : ltb budget (u64 (iter + 1)) ≡ false = ground arith in rw e

dhcp_from-first :
    (budget left : ℕ) (events : List (Option DhcpEvent)) (iter : ℕ)
    → iter + left ≡ budget
    → budget + 1 < 2 ^ 64
    → left < length events
    → dhcp_from budget events iter ≡ some (first_lease (take (suc left) events))
unfolding dhcp_from
dhcp_from-first budget left [] iter e small enough = absurd (omega arith)
dhcp_from-first budget left (some (configured a n r) ∷ more) iter e small enough = refl
dhcp_from-first budget zero (some deconfigured ∷ more) iter e small enough =
    count_round-last budget iter none (dhcp_from budget more (u64 (iter + 1))) (omega arith) small
dhcp_from-first budget (suc left) (some deconfigured ∷ more) iter e small enough =
    count_round-more budget iter none (dhcp_from budget more (u64 (iter + 1))) (omega arith) small
    ∙ dhcp_from-first budget left more (u64 (iter + 1)) (omega arith) small (omega arith)
dhcp_from-first budget zero (none ∷ more) iter e small enough =
    count_round-last budget iter none (dhcp_from budget more (u64 (iter + 1))) (omega arith) small
dhcp_from-first budget (suc left) (none ∷ more) iter e small enough =
    count_round-more budget iter none (dhcp_from budget more (u64 (iter + 1))) (omega arith) small
    ∙ dhcp_from-first budget left more (u64 (iter + 1)) (omega arith) small (omega arith)

abbrev Answered : ℕ → Bytes → List (Option Packet) → ℕ → ℕ → List ℕ → Type 0
Answered budget gw polls iter left freed =
    arp_from budget gw polls iter freed
    ≡ some
        (first_answer gw (take (suc left) polls), freed ++ handles_until gw (take (suc left) polls))

-- A packet that is no answer, before the rest.
arp_from-other :
    (budget left : ℕ) (gw : Bytes) (p : Packet) (more : List (Option Packet)) (iter : ℕ)
    (freed : List ℕ)
    → parse_arp_reply_from p.frame gw ≡ none
    → count_round budget
        (u64 (iter + 1))
        (none, freed ++ (p.handle ∷ []))
        (arp_from budget gw more (u64 (iter + 1)) (freed ++ (p.handle ∷ [])))
      ≡ some (
        first_answer gw (take left more),
        (freed ++ (p.handle ∷ [])) ++ handles_until gw (take left more),
      )
    → Answered budget gw (some p ∷ more) iter left freed
unfolding arp_from
arp_from-other budget left gw p more iter freed other later = rw other (
    later
    ∙ ap (λ t. some (first_answer gw (take left more), t))
        (append_assoc freed (p.handle ∷ []) (handles_until gw (take left more))))

arp_from-first :
    (budget left : ℕ) (gw : Bytes) (polls : List (Option Packet)) (iter : ℕ) (freed : List ℕ)
    → iter + left ≡ budget
    → budget + 1 < 2 ^ 64
    → left < length polls
    → Answered budget gw polls iter left freed
unfolding arp_from
arp_from-first budget left gw [] iter freed e small enough = absurd (omega arith)
arp_from-first budget zero gw (none ∷ more) iter freed e small enough =
    count_round-last budget iter (none, freed) (arp_from budget gw more (u64 (iter + 1)) freed)
      (omega arith) small
    ∙ ap (λ t. some (none, t)) (sym (append-nil freed))
arp_from-first budget (suc left) gw (none ∷ more) iter freed e small enough =
    count_round-more budget iter (none, freed) (arp_from budget gw more (u64 (iter + 1)) freed)
      (omega arith) small
    ∙ arp_from-first budget left gw more (u64 (iter + 1)) freed (omega arith) small (omega arith)
arp_from-first budget zero gw (some p ∷ more) iter freed e small enough =
    let freed' = freed ++ (p.handle ∷ []) in
    elim (Option-cases (parse_arp_reply_from p.frame gw)) [
      | inl other ↦ arp_from-other budget 0 gw p more iter freed other (
          count_round-last budget iter (none, freed')
            (arp_from budget gw more (u64 (iter + 1)) freed') (omega arith) small
          ∙ ap (λ t. some (none, t)) (sym (append-nil freed')))
      | inr (hw, found) ↦ rw found
    ]
arp_from-first budget (suc left) gw (some p ∷ more) iter freed e small enough =
    let freed' = freed ++ (p.handle ∷ []) in
    elim (Option-cases (parse_arp_reply_from p.frame gw)) [
      | inl other ↦ arp_from-other budget (suc left) gw p more iter freed other (
          count_round-more budget iter (none, freed')
            (arp_from budget gw more (u64 (iter + 1)) freed') (omega arith) small
          ∙ arp_from-first budget left gw more (u64 (iter + 1)) freed' (omega arith) small
              (omega arith))
      | inr (hw, found) ↦ rw found
    ]

-- What `learn_network` makes of the rounds of its two budgets: those of DHCP, and those of the card.
abbrev pub found : Bytes → Option TxBuffer → List (Option Packet) → Option Lease → Learnt
found mac buffer polls none = nothing_learnt
found mac none polls (some l) = nothing_learnt
found mac (some b) polls (some l) = record {
  network = network_of l (first_answer l.router polls);
  calls = arp_call mac l b ∷ [];
  freed = handles_until l.router polls;
}

with_lease-found :
    (arp_budget : ℕ) (mac : Bytes) (buffer : Option TxBuffer) (polls : List (Option Packet))
    (o : Option Lease)
    → arp_budget + 1 < 2 ^ 64
    → arp_budget < length polls
    → with_lease (ask_gateway arp_budget mac buffer polls) (some o)
      ≡ some (found mac buffer (take (suc arp_budget) polls) o)
unfolding ask_gateway
with_lease-found arp_budget mac buffer polls none small enough = refl
with_lease-found arp_budget mac none polls (some l) small enough = refl
with_lease-found arp_budget mac (some b) polls (some l) small enough =
    ap (learnt l (arp_call mac l b ∷ []))
      (arp_from-first arp_budget arp_budget l.router polls 0 [] (omega arith) small enough)

-- Where more rounds are played than each loop has in its budget, and the budgets are below 2 ^ 64 - 1,
-- `learn_network` ends. It takes the first lease that comes within the first budget and one round more;
-- with it and an mbuf it sends one ARP request, and takes the first answer of the gateway that the
-- card brings within the second budget and one round more; of the packets up to that one, or of all
-- where there is none, it frees the handles, once each and in order. Without a lease or an mbuf it
-- learns nothing, and sends and frees nothing.
pub learn_within-found :
    (dhcp_budget arp_budget : ℕ) (mac : Bytes) (events : List (Option DhcpEvent))
    (buffer : Option TxBuffer) (polls : List (Option Packet))
    → dhcp_budget + 1 < 2 ^ 64
    → arp_budget + 1 < 2 ^ 64
    → dhcp_budget < length events
    → arp_budget < length polls
    → learn_within dhcp_budget arp_budget mac events buffer polls
      ≡ some (
          found mac buffer
            (take (suc arp_budget) polls)
            (first_lease (take (suc dhcp_budget) events)))
unfolding learn_within
learn_within-found dhcp_budget arp_budget mac events buffer polls small small' enough enough' =
    ap (with_lease (ask_gateway arp_budget mac buffer polls))
      (dhcp_from-first dhcp_budget dhcp_budget events 0 (omega arith) small enough)
    ∙ with_lease-found arp_budget mac buffer polls (first_lease (take (suc dhcp_budget) events))
        small' enough'
