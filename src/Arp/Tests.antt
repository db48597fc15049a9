-- ===== src/Arp/Tests.antt =====
-- The gateway's reply and our request, parsed.
use miniosv_apps.Prelude.{◌≡◌, refl, none, some, [], ◌∷◌, arith, length, Bytes}
use miniosv_apps.Config.{bytes_eq}
use miniosv_apps.Arp.{arp_frame, parse_arp_reply_from, build_arp_request}
use miniosv_apps.Arp.Parse.{parse_arp_reply_from-arp_frame}

abbrev gateway_mac : Bytes
gateway_mac = 2 ∷ 11 ∷ 22 ∷ 33 ∷ 44 ∷ 55 ∷ []

abbrev our_mac : Bytes
our_mac = 2 ∷ 1 ∷ 2 ∷ 3 ∷ 4 ∷ 5 ∷ []

abbrev gateway_ip : Bytes
gateway_ip = 10 ∷ 0 ∷ 0 ∷ 1 ∷ []

abbrev our_ip : Bytes
our_ip = 10 ∷ 0 ∷ 0 ∷ 9 ∷ []

lengths : length (build_arp_request our_mac our_ip gateway_ip) ≡ 42
unfolding build_arp_request arp_frame
lengths = refl

request_ignored : parse_arp_reply_from (build_arp_request our_mac our_ip gateway_ip) our_ip ≡ none
unfolding parse_arp_reply_from build_arp_request arp_frame bytes_eq
request_ignored = refl

parse_arp_reply_from-arp_frame_example :
    parse_arp_reply_from (arp_frame our_mac gateway_mac 2 gateway_ip our_mac our_ip) gateway_ip
    ≡ some gateway_mac
unfolding bytes_eq
parse_arp_reply_from-arp_frame_example =
    parse_arp_reply_from-arp_frame our_mac gateway_mac 2 gateway_ip our_mac our_ip gateway_ip
      (refl, refl, refl) (refl, refl) (omega arith)
