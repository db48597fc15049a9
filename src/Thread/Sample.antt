-- ===== src/Thread/Sample.antt =====
-- A small run for the tests: one worker on the only queue, with one connection without TLS that
-- fetches four bytes.
use miniosv_apps.Prelude.{
  ℕ, suc, ◌+◌, ◌≤◌, ◌≡◌, refl, ap, ◌∙◌, arith, Bool, true, false, Option, none, some, List, [], ◌∷◌,
  ◌==◌, length, decimal, replicate, Bytes,
}
use miniosv_apps.Config.{
  Env, conns_per_worker, object_size, block_size, plain_http, stub_tls_after_handshake,
}
use miniosv_apps.Rss.{RssState, predict_queue, queue_for_local_port, eph_base}
use miniosv_apps.Rss.Owned.{hits}
use miniosv_apps.Rss.Chosen.{worker_ports, length-worker_ports}
use miniosv_apps.Http.{
  codes, count_body, count_header, count_byte, count_status, next_hdr_state, note_status, write_all,
  request_pieces, build_range_request,
}
use miniosv_apps.Plan.{request, block_start, block_end, range_bytes, open_from, open_conns}
use miniosv_apps.Conn.{
  established, close_wait, Answers, Conn, Counters, settle, syn_timed_out, queue_request, taken,
  drain_socket, stub_count, plain_count, finish, exchange, work, conn_step,
}
use miniosv_apps.Worker.{new_conn, step_all, run_rounds}
use miniosv_apps.Thread.{WorkerCtx, WorkerAnswers, start_conns, poll_conns, worker_thread}

abbrev pub env : Env
env = record {
  workers = some (codes "1");
  conns = some (codes "1");
  bucket_size = some (codes "8");
  block_size = some (codes "4");
  scheme = some (codes "http");
  tls_stub = none;
  target_ip = some (codes "1.2.3.4");
}

abbrev pub steering : RssState
steering = record {
  key = replicate 64 0;
  key_len = 0;
  reta = replicate 512 0;
  reta_len = 0;
  single_queue = true;
}

abbrev pub our_ip : Bytes
our_ip = 10 ∷ 0 ∷ 0 ∷ 7 ∷ []

abbrev pub ctx : WorkerCtx
ctx = record {
  queue_id = 0;
  pool = 1000;
  mac = replicate 6 2;
  ip = our_ip;
  prefix_len = 24;
  gateway_ip = 10 ∷ 0 ∷ 0 ∷ 1 ∷ [];
  gateway_mac = replicate 6 9;
  first_block = 0;
}

-- The request goes out whole, and the response comes with the close.
abbrev answer : Answers
answer = record {
  now_ms = 20;
  state = established;
  may_send = true;
  can_send = true;
  send_slice = some 106;
  recvs = some (codes "HTTP/1.1 206 P\r\n\r\nabcd") ∷ [];
  tls = [];
  state_after = close_wait;
  can_recv_after = false;
}

abbrev pub counters : Counters
counters = record {
  conns_established = 0;
  conns_failed = 0;
  syn_retries = 0;
  setup_ms_total = 0;
  http = record { bad_status = 0; first_bad_status = 0 };
}

abbrev pub answers : WorkerAnswers
answers = record {
  server_name = true;
  connect = λ i. true;
  session = λ i. true;
  clock = λ k. (10, 11);
  rounds = (λ i. answer) ∷ [];
  counters = counters;
}

abbrev pub host : Bytes
host = codes "h"

-- Every port is steered to the only queue, so there is one to dial from.
first-hits : (test : ℕ → Bool) (left i : ℕ) → test i ≡ true → 1 ≤ hits test (suc left) i
unfolding hits
first-hits test left i h = rw h (omega arith)

only_queue : (queue_for_local_port env steering our_ip (eph_base + 0) == 0) ≡ true
unfolding queue_for_local_port predict_queue
only_queue = refl

one_port : length (worker_ports env steering our_ip 0 1) ≡ 1
one_port =
    let test = λ (i : ℕ). queue_for_local_port env steering our_ip (eph_base + i) == 0 in
    omega (
      arith,
      length-worker_ports env steering our_ip 0 1 (omega arith),
      first-hits test 16383 0 only_queue,
    )

-- The connection as the worker's loop ends.
abbrev pub fetched : ℕ → Conn
fetched port = record {
  has_tls = false;
  incoming = [];
  outgoing = [];
  request = build_range_request host 384 0 3;
  request_queued = true;
  handshake_done = true;
  tally = record { bytes = 4; headers_done = true; hdr_state = 4; status = 206; status_pos = 12 };
  done = true;
  connect_start_ms = 10;
  queue_id = 0;
  src_port = port;
  expected = 4;
  closed_cleanly = true;
  attempts = 1;
  settled = true;
  start_ms = 11;
}

-- The worker behind the choice of its ports.
behind_ports : List ℕ → Option (List Conn)
behind_ports ports =
    poll_conns env ctx answers (open_conns env host answers.connect answers.session 0 ports 0)

fetches : (port : ℕ) → behind_ports (port ∷ []) ≡ some (fetched port ∷ [])
unfolding behind_ports poll_conns open_conns open_from conns_per_worker object_size block_size
    plain_http stub_tls_after_handshake request block_start block_end range_bytes
    build_range_request request_pieces write_all decimal start_conns new_conn run_rounds step_all
    conn_step settle syn_timed_out work exchange queue_request taken drain_socket stub_count
    plain_count finish count_body count_header count_byte count_status next_hdr_state note_status
fetches port = refl

ports_shape : (ports : List ℕ) → length ports ≡ 1 → (p : ℕ) × (ports ≡ p ∷ [])
ports_shape [] h = absurd (omega arith)
ports_shape (p ∷ []) h = (p, refl)
ports_shape (p ∷ q ∷ ports) h = absurd (omega arith)

conns_one : conns_per_worker env ≡ 1
unfolding conns_per_worker
conns_one = refl

worker_thread-behind :
    worker_thread env steering host 0 ctx answers
    ≡ behind_ports (worker_ports env steering our_ip 0 (conns_per_worker env))
unfolding worker_thread behind_ports
worker_thread-behind = refl

pub sample_port : ℕ
sample_port = (ports_shape (worker_ports env steering our_ip 0 1) one_port).0

-- The ports that the worker dials from.
pub sample_ports : worker_ports env steering our_ip 0 (conns_per_worker env) ≡ sample_port ∷ []
unfolding sample_port
sample_ports =
    ap (worker_ports env steering our_ip 0) conns_one
    ∙ (ports_shape (worker_ports env steering our_ip 0 1) one_port).1

pub worker_fetches : worker_thread env steering host 0 ctx answers ≡ some (fetched sample_port ∷ [])
worker_fetches = worker_thread-behind ∙ ap behind_ports sample_ports ∙ fetches sample_port
