-- ===== src/Network/Tests.antt =====
-- A lease in the third round, and a gateway that answers behind another packet.
use miniosv_apps.Prelude.{
  ◌≡◌, refl, Option, none, some, List, [], ◌∷◌, arith, take, replicate, Bytes,
}
use miniosv_apps.Config.{bytes_eq}
use miniosv_apps.Arp.{arp_frame, build_arp_request, build_arp_reply, parse_arp_reply_from}
use miniosv_apps.Device.{Packet}
use miniosv_apps.Device.Tokens.{TxBuffer, TxCall}
use miniosv_apps.Network.{
  elapsed_ns, elapsed_ms, DhcpEvent, configured, deconfigured, dhcp_from, arp_call, arp_from,
  ask_gateway, learn_within,
}
use miniosv_apps.Network.Found.{first_lease, found, learn_within-found}

ms : elapsed_ms (record { epoch_ns = 5000000 }) 12000000 ≡ 7
unfolding elapsed_ms elapsed_ns
ms = refl

-- A clock that has run backwards stands at 0.
backwards : elapsed_ns (record { epoch_ns = 50 }) 20 ≡ 0
unfolding elapsed_ns
backwards = refl

abbrev our_mac : Bytes
our_mac = replicate 6 2

abbrev gateway_mac : Bytes
gateway_mac = replicate 6 9

abbrev our_ip : Bytes
our_ip = 10 ∷ 0 ∷ 0 ∷ 7 ∷ []

abbrev gateway_ip : Bytes
gateway_ip = 10 ∷ 0 ∷ 0 ∷ 1 ∷ []

abbrev events : List (Option DhcpEvent)
events = none ∷ some deconfigured ∷ some (configured our_ip 24 (some gateway_ip)) ∷ []

abbrev polls : List (Option Packet)
polls =
    none
    ∷ some (record { handle = 3; frame = replicate 60 1 })
    ∷ some (record { handle = 4; frame = build_arp_reply gateway_mac gateway_ip our_mac our_ip })
    ∷ none
    ∷ []

abbrev room : TxBuffer
room = record { handle = 8; room = replicate 64 0 }

abbrev request : TxCall
request = record { handle = 8; len = 42; frame = build_arp_request our_mac our_ip gateway_ip }

learns :
    learn_within 2 2 our_mac events (some room) polls
    ≡ some (record {
      network = some (record {
        ip = our_ip;
        prefix_len = 24;
        gateway_ip = gateway_ip;
        gateway_mac = gateway_mac;
      });
      calls = request ∷ [];
      freed = 3 ∷ 4 ∷ [];
    })
unfolding learn_within dhcp_from ask_gateway arp_call arp_from arp_frame build_arp_request
    build_arp_reply parse_arp_reply_from bytes_eq
learns = refl

-- With a budget of one round more, the third round is beyond it.
gives_up :
    learn_within 1 2 our_mac events (some room) polls
    ≡ some (record { network = none; calls = []; freed = [] })
unfolding learn_within dhcp_from
gives_up = refl

learn_within-found_example :
    learn_within 2 2 our_mac events (some room) polls
    ≡ some (found our_mac (some room) (take 3 polls) (first_lease (take 3 events)))
learn_within-found_example =
    learn_within-found 2 2 our_mac events (some room) polls (omega arith) (omega arith)
      (omega arith) (omega arith)
