-- ===== src/Thread.antt =====
-- A whole worker of bench/smoltcp-s3/src/lib.rs: `WorkerCtx` (lines 1191-1209) and `worker_thread`
-- (1213-1391), from its device to the connections at the end of its loop. What rustls and smoltcp
-- answer to a worker is the record `WorkerAnswers`.
pub mod Seeded
pub mod Opened
pub mod Fetched
pub mod Sample
mod Tests
use miniosv_apps.Prelude.{
  ℕ, ◌+◌, Bool, not, Option, none, some, List, [], ◌∷◌, if◌then◌else◌, replicate, Bytes,
}
use miniosv_apps.Config.{Env, conns_per_worker, plain_http, stub_tls_after_handshake}
use miniosv_apps.Rss.{RssState}
use miniosv_apps.Rss.Steering.{owned_bitmap}
use miniosv_apps.Rss.Chosen.{worker_ports}
use miniosv_apps.Arp.{build_arp_reply}
use miniosv_apps.Device.{no_packet, DpdkDevice}
use miniosv_apps.Start.{rx_burst}
use miniosv_apps.Plan.{Request, open_conns}
use miniosv_apps.Conn.{Answers, Conn, Counters}
use miniosv_apps.Worker.{new_conn, run_rounds, conns_of}

-- `WorkerCtx`, without the counters that the worker stores at its end.
pub record WorkerCtx : Type 0 where
  pub queue_id : ℕ
  pub pool : ℕ
  pub mac : Bytes
  pub ip : Bytes
  pub prefix_len : ℕ
  pub gateway_ip : Bytes
  pub gateway_mac : Bytes
  pub first_block : ℕ

-- Whether `ServerName::try_from` takes the host; what `connect` and rustls answer for connection `i`;
-- the two times read for the connection at place `k` of the vector; the rounds of the loop; and
-- the counters as the worker finds them, to which no other worker adds.
pub record WorkerAnswers : Type 0 where
  pub server_name : Bool
  pub connect : ℕ → Bool
  pub session : ℕ → Bool
  pub clock : ℕ → ℕ × ℕ
  pub rounds : List (ℕ → Answers)
  pub counters : Counters

-- The worker's device: its first frame is an answer of the gateway that the worker makes up itself.
unfoldable pub worker_device : Env → RssState → WorkerCtx → DpdkDevice
worker_device env st ctx = record {
  pending_synth = some (build_arp_reply ctx.gateway_mac ctx.gateway_ip ctx.mac ctx.ip);
  owned_ports = some (owned_bitmap env st ctx.ip ctx.queue_id);
  rx_pref = replicate rx_burst no_packet;
  rx_pref_pos = 0;
  rx_pref_len = 0;
}

-- The connections that are pushed, the first at place `k`.
unfoldable pub start_conns : Bool → ℕ → (ℕ → ℕ × ℕ) → ℕ → List Request → List Conn
start_conns plain queue_id clock k [] = []
start_conns plain queue_id clock k (r ∷ rs) =
    let (connect_start_ms, start_ms) = clock k in
    new_conn plain queue_id connect_start_ms start_ms r
    ∷ start_conns plain queue_id clock (k + 1) rs

-- The worker behind the opening; where rustls refuses a session, it returns and stores nothing.
unfoldable pub poll_conns :
    Env → WorkerCtx → WorkerAnswers → Option (List Request) → Option (List Conn)
poll_conns env ctx a none = some []
poll_conns env ctx a (some rs) = conns_of (
    run_rounds (plain_http env) (stub_tls_after_handshake env) a.rounds
      (start_conns (plain_http env) ctx.queue_id a.clock 0 rs) a.counters)

-- The connections that the worker's account is about, none where it has returned early; `none` where
-- its loop has not ended behind the rounds. `fault` is FAULT_ABANDON_CONNS.
unfoldable pub worker_thread :
    Env → RssState → Bytes → ℕ → WorkerCtx → WorkerAnswers → Option (List Conn)
worker_thread env st host fault ctx a =
    let my_ports = worker_ports env st ctx.ip ctx.queue_id (conns_per_worker env) in
    if not a.server_name
    then some []
    else poll_conns env ctx a
        (open_conns env host a.connect a.session ctx.first_block my_ports fault)
