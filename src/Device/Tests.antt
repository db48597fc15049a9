-- ===== src/Device/Tests.antt =====
-- Frames through the filter of a worker.
use miniosv_apps.Prelude.{
  ℕ, Bool, ◌%◌, drop, ◌+◌, ◌≡◌, refl, true, false, ◌&&◌, ◌||◌, not, Option, none, some, List, [],
  ◌∷◌, ◌++◌, arith, ltb, ◌==◌, if◌then◌else◌, replicate, u64, Bytes,
}
use miniosv_apps.Config.{Env}
use miniosv_apps.Rss.{RssState, queue_for_local_port, owns_port, eph_base}
use miniosv_apps.Rss.BitString.{AreBytes}
use miniosv_apps.Rss.Steering.{owned_bitmap}
use miniosv_apps.Device.{
  l4_offset, dst_port, accept, Packet, no_packet, DpdkDevice, Shim, DpdkRxToken, mbuf, burst_into,
  refill, receive_from, receive,
}
use miniosv_apps.Device.Queue.{waiting}
use miniosv_apps.Device.Tokens.{TxBuffer, TxState, consume_rx, drop_rx, consume_tx}
use miniosv_apps.Device.Serve.{Served, serve, Serves, serve-Serves}
use miniosv_apps.Device.Sent.{Send, send_all, offers, lost, refusals, send_all-offers}
use miniosv_apps.Device.Receive.{Delivers, receive_from-Delivers}
use miniosv_apps.Device.Filter.{is_tcp, port_to, accept-owned_bitmap}

-- A TCP frame of 54 bytes to port 49154 of address 10.0.0.9.
abbrev frame : Bytes
frame =
    replicate 12 2
    ++ (8
        ∷ 0
        ∷ 69
        ∷ 0
        ∷ 0
        ∷ 40
        ∷ 0
        ∷ 0
        ∷ 0
        ∷ 0
        ∷ 64
        ∷ 6
        ∷ 0
        ∷ 0
        ∷ 1
        ∷ 2
        ∷ 3
        ∷ 4
        ∷ 10
        ∷ 0
        ∷ 0
        ∷ 9
        ∷ 0
        ∷ 80
        ∷ 192
        ∷ 2
        ∷ replicate 16 0)

dst_port-frame : dst_port frame ≡ 49154
unfolding dst_port l4_offset
dst_port-frame = refl

-- A bitmap that owns port 49154 passes the frame, and one that does not drops and counts it.
accepts :
    (accept (some (4 ∷ [])) 0 frame ≡ (true, 0))
    × (accept (some (2 ∷ [])) 0 frame ≡ (false, 1))
    × (accept none 0 frame ≡ (true, 0))
    × (accept (some (2 ∷ [])) 0 (8 ∷ 0 ∷ []) ≡ (true, 0))
unfolding accept dst_port l4_offset owns_port
accepts = (refl, refl, refl, refl)

abbrev env : Env
env = record {
  workers = none;
  conns = none;
  bucket_size = none;
  block_size = none;
  scheme = none;
  tls_stub = none;
  target_ip = some (b'1' ∷ b'.' ∷ b'2' ∷ b'.' ∷ b'3' ∷ b'.' ∷ b'4' ∷ []);
}

abbrev device : RssState
device = record {
  key = replicate 40 7;
  key_len = 40;
  reta = 0 ∷ 1 ∷ [];
  reta_len = 2;
  single_queue = false;
}

frame-AreBytes : AreBytes frame
frame-AreBytes = search arith

accept-owned_bitmap_example :
    accept (some (owned_bitmap env device (10 ∷ 0 ∷ 0 ∷ 9 ∷ []) 1)) 5 frame ≡ (
      if is_tcp frame
        && not (
            ltb (port_to frame) eph_base
            || queue_for_local_port env device (10 ∷ 0 ∷ 0 ∷ 9 ∷ []) (port_to frame) == 1)
      then (false, u64 (5 + 1))
      else (true, 5))
accept-owned_bitmap_example =
    accept-owned_bitmap env device (10 ∷ 0 ∷ 0 ∷ 9 ∷ []) 1 5 frame frame-AreBytes

-- A burst of two: the frame to a port that the bitmap does not own, and one that is too short for TCP.
abbrev idle : DpdkDevice
idle = record {
  pending_synth = none;
  owned_ports = some (2 ∷ []);
  rx_pref = replicate 32 no_packet;
  rx_pref_pos = 0;
  rx_pref_len = 0;
}

abbrev short_packet : Packet
short_packet = record { handle = 8; frame = 1 ∷ [] }

abbrev shim : Shim
shim = record {
  bursts = (record { handle = 7; frame = frame } ∷ short_packet ∷ []) ∷ [];
  freed = [];
  misrouted = 0;
}

abbrev token_and_freed :
    Option (Option DpdkRxToken × DpdkDevice × Shim) → Option (Option DpdkRxToken × List ℕ × ℕ)
token_and_freed none = none
token_and_freed (some (t, _, w)) = some (t, w.freed, w.misrouted)

receives : token_and_freed (receive 3 idle shim) ≡ some (some (mbuf short_packet), 7 ∷ [], 1)
unfolding receive receive_from refill burst_into accept dst_port l4_offset owns_port
receives = refl

receive_from-Delivers_example : Delivers (receive_from 3 idle shim) idle shim (waiting idle shim)
receive_from-Delivers_example =
    receive_from-Delivers 3 idle shim (omega arith, omega arith) (omega arith)

-- The stack consumes the token with an even number.
abbrev even : ℕ → Bool
even k = k % 2 == 0

abbrev seen_and_freed : Served → Option (List Bytes × List ℕ × ℕ)
seen_and_freed none = none
seen_and_freed (some (seen, _, w)) = some (seen, w.freed, w.misrouted)

serves : seen_and_freed (serve 3 3 even 0 idle shim) ≡ some ((1 ∷ []) ∷ [], 7 ∷ 8 ∷ [], 1)
unfolding serve consume_rx drop_rx receive receive_from refill burst_into accept dst_port l4_offset
    owns_port
serves = refl

serve-Serves_example : Serves even 0 idle shim (waiting idle shim) (serve 3 3 even 0 idle shim)
serve-Serves_example =
    serve-Serves 3 3 even 0 idle shim (omega arith, omega arith) refl (omega arith) (omega arith)

-- Three frames: one whole, one for which there is no mbuf, one that the card refuses.
abbrev buffer : ℕ → TxBuffer
buffer n = record { handle = n; room = replicate 4 0 }

abbrev sends : List Send
sends =
    record { buffer = some (buffer 5); refused = false; len = 2; write = (λ room. 9 ∷ drop 1 room) }
    ∷ record { buffer = none; refused = false; len = 2; write = (λ room. room) }
    ∷ record { buffer = some (buffer 6); refused = true; len = 4; write = (λ room. room) }
    ∷ []

abbrev tx_state : TxState
tx_state = record { calls = []; alloc_fail = 3; burst_fail = 0 }

sent :
    (send_all sends tx_state).calls
    ≡ record { handle = 5; len = 2; frame = 9 ∷ 0 ∷ [] }
      ∷ record { handle = 6; len = 4; frame = replicate 4 0 }
      ∷ []
unfolding send_all consume_tx
sent = refl

send_all-offers_example :
    ((send_all sends tx_state).calls ≡ [] ++ offers sends)
    × ((send_all sends tx_state).alloc_fail ≡ 3 + lost sends)
    × ((send_all sends tx_state).burst_fail ≡ 0 + refusals sends)
send_all-offers_example =
    send_all-offers sends tx_state
      ((omega arith, omega arith), (tt, ((omega arith, omega arith), tt))) (omega arith)
      (omega arith)
