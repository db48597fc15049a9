-- ===== src/Conn/Tests.antt =====
-- Steps of a connection with a short request, and the theorems at them.
use miniosv_apps.Prelude.{
  ◌^◌, ◌<◌, ◌≡◌, refl, arith, true, false, none, some, List, [], ◌∷◌, ◌++◌, if◌then◌else◌,
}
use miniosv_apps.Http.{
  fresh_tally, codes, count_body, count_header, count_byte, count_status, next_hdr_state,
  note_status,
}
use miniosv_apps.Http.HeaderEnd.{body_of}
use miniosv_apps.Http.Counting.{body_length}
use miniosv_apps.Conn.{
  syn_sent, established, close_wait, tls_error, read_traffic, encode_tls_data, write_traffic,
  TlsAnswer, Answers, Conn, Counters, settle, syn_timed_out, give_up, queue_request, taken,
  drain_socket, stub_count, plain_count, read_records, handle, pump, finish, exchange, work,
  conn_step,
}
use miniosv_apps.Conn.Step.{conn_step-fixed}
use miniosv_apps.Conn.Kept.{fixed_of}
use miniosv_apps.Conn.Settled.{CountedOnce, conn_step-CountedOnce}
use miniosv_apps.Conn.Plain.{sent_by, tally_of, received_by}
use miniosv_apps.Conn.Life.{live, new_life, IsNew, live_plain, live_closed}

abbrev fresh : Conn
fresh = record {
  has_tls = false;
  incoming = [];
  outgoing = [];
  request = codes "GET";
  request_queued = false;
  handshake_done = false;
  tally = fresh_tally;
  done = false;
  connect_start_ms = 10;
  queue_id = 1;
  src_port = 49152;
  expected = 2;
  closed_cleanly = false;
  attempts = 1;
  settled = false;
  start_ms = 10;
}

abbrev counters : Counters
counters = record {
  conns_established = 0;
  conns_failed = 0;
  syn_retries = 0;
  setup_ms_total = 0;
  http = record { bad_status = 0; first_bad_status = 0 };
}

-- No SYN-ACK yet; the request goes out in two parts; the response comes in two parts; the close.
abbrev quiet : Answers
quiet = record {
  now_ms = 20;
  state = syn_sent;
  may_send = false;
  can_send = false;
  send_slice = none;
  recvs = [];
  tls = [];
  state_after = syn_sent;
  can_recv_after = false;
}

abbrev asked : Answers
asked = record quiet {
  state = established;
  may_send = true;
  can_send = true;
  send_slice = some 2;
  state_after = established;
}

abbrev answered : Answers
answered = record asked {
  send_slice = some 1;
  recvs = some (codes "HTTP/1.1 206 P\r\n") ∷ some (codes "\r\na") ∷ [];
}

abbrev closing_now : Answers
closing_now = record asked { recvs = some (codes "b") ∷ []; state_after = close_wait }

abbrev steps : List (Answers × Counters)
steps = (quiet, counters) ∷ (asked, counters) ∷ (answered, counters) ∷ (closing_now, counters) ∷ []

-- A SYN that is not answered within the five seconds.
abbrev too_late : Answers
too_late = record quiet { now_ms = 5011 }

times_out :
    let ((c, g), (_, ended)) = conn_step true false too_late fresh counters in
    (c.done ≡ true) × (g.conns_failed ≡ 1) × (g.setup_ms_total ≡ 5001) × (ended ≡ true)
unfolding conn_step settle syn_timed_out give_up
times_out = (refl, refl, refl, refl)

lives :
    let l = live true false steps (new_life fresh) in
    (l.sent ≡ codes "GET") × (l.conn.closed_cleanly ≡ true) × (l.conn.tally.bytes ≡ 2)
unfolding live sent_by conn_step settle syn_timed_out work exchange queue_request taken drain_socket
    stub_count plain_count finish count_body count_header count_byte count_status next_hdr_state
    note_status
lives = (refl, refl, refl)

-- With TLS: what rustls encodes waits to be sent, and the first record that can be written is the
-- request; an error ends the loop.
abbrev secure : Conn
secure = record fresh { has_tls = true }

abbrev tls_answers : List TlsAnswer
tls_answers =
    record { discard = 0; state = encode_tls_data (some (codes "hello")) }
    ∷ record { discard = 0; state = write_traffic (some (codes "[GET]")) }
    ∷ record { discard = 0; state = read_traffic (some (codes "HTTP/1.1 206\r\n\r\nab") ∷ []) }
    ∷ record { discard = 0; state = tls_error }
    ∷ record { discard = 0; state = encode_tls_data (some (codes "no")) }
    ∷ []

pumps :
    let (c, g) = pump secure counters.http tls_answers in
    (c.outgoing ≡ codes "hello[GET]")
    × (c.done ≡ true)
    × (c.tally.bytes ≡ 2)
    × (c.request_queued ≡ true)
unfolding pump handle read_records count_body count_header count_byte count_status next_hdr_state
    note_status
pumps = (refl, refl, refl, refl)

fresh-IsNew : IsNew fresh
fresh-IsNew = (refl, refl, refl, refl, refl, refl)

live_plain_example :
    let l = live true false steps (new_life fresh) in
    (l.sent ++ l.conn.outgoing ≡ (if l.conn.request_queued then codes "GET" else []))
    × (l.conn.tally ≡ tally_of l.received)
live_plain_example = live_plain steps fresh fresh-IsNew

live_small : body_length (body_of (live true false steps (new_life fresh)).received) < 2 ^ 64
unfolding live received_by conn_step settle syn_timed_out work exchange queue_request taken
    drain_socket stub_count plain_count finish count_body count_header count_byte count_status
    next_hdr_state note_status
live_small = omega arith

live_closed_example :
    let l = live true false steps (new_life fresh) in
    (l.sent ≡ codes "GET") × (l.conn.tally.bytes ≡ body_length (body_of l.received))
live_closed_example = live_closed steps fresh fresh-IsNew lives.1 live_small

conn_step-fixed_example : fixed_of (conn_step true false asked fresh counters).0.0 ≡ fixed_of fresh
conn_step-fixed_example = conn_step-fixed true false asked fresh counters

conn_step-CountedOnce_example :
    let (c', g') = (conn_step true false asked fresh counters).0 in CountedOnce fresh counters c' g'
conn_step-CountedOnce_example =
    conn_step-CountedOnce true false asked fresh counters (omega arith) (omega arith)
