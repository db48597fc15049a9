-- ===== src/Main.antt =====
-- `osv_app_main` in bench/smoltcp-s3/src/lib.rs, lines 1468-1659, from its guards over the start of
-- the device, the steering, the network and the workers to the verdict. What the machine and the
-- libraries answer is the record `Machine`; the lines that are only printed are left out.
pub mod Stages
pub mod Complete
pub mod Seeded
pub mod Threads
mod Tests
use miniosv_apps.Prelude.{
  ℕ, zero, suc, ◌+◌, Bool, true, false, not, Option, none, some, List, [], ◌∷◌, map, if◌then◌else◌,
  get_or, replicate, u16, Bytes,
}
use miniosv_apps.Config.{
  Env, bytes_eq, zero_address, target_ip, n_workers_req, conns_per_worker, stub_tls_after_handshake,
}
use miniosv_apps.Rss.{RssState, ShimReply, load_rss_config}
use miniosv_apps.Start.{Nic, probe_and_open}
use miniosv_apps.Device.{Packet}
use miniosv_apps.Device.Tokens.{TxBuffer}
use miniosv_apps.Network.{DhcpEvent, Network, Learnt, learn_network}
use miniosv_apps.Plan.{is_configured, clamp_workers, first_block}
use miniosv_apps.Report.{Verdict, verdict}
use miniosv_apps.Conn.{Conn}
use miniosv_apps.Worker.{stored, join}
use miniosv_apps.Thread.{WorkerCtx, WorkerAnswers, worker_thread}

-- The statics RSS_KEY, RSS_RETA and SINGLE_QUEUE as the program starts.
abbrev pub initial_rss : RssState
initial_rss = record {
  key = replicate 64 0;
  key_len = 0;
  reta = replicate 512 0;
  reta_len = 0;
  single_queue = false;
}

-- The answers of a run: the device's maxima, what the shim says to `probe_and_open` and
-- `load_rss_config`, the rounds of `learn_network`, the answers to worker `i`, and MISROUTED_DROPS when
-- the workers have ended. `fault` is FAULT_ABANDON_CONNS.
pub record Machine : Type 0 where
  pub max_rx : ℕ
  pub max_tx : ℕ
  pub nic : Nic
  pub key : ShimReply
  pub reta : ShimReply
  pub events : List (Option DhcpEvent)
  pub buffer : Option TxBuffer
  pub polls : List (Option Packet)
  pub worker : ℕ → WorkerAnswers
  pub misrouted : ℕ
  pub host : Bytes
  pub fault : ℕ

-- How a run ends: at one of the failures that end in `exit`, or with its verdict; `waiting` where a
-- loop has not ended behind the rounds that are played.
pub data Ending : Type 0 where
  not_configured : Ending
  no_nic : Ending
  no_steering : Ending
  no_network : Ending
  waiting : Ending
  reported : Verdict → Ending

-- The `WorkerCtx` of worker `i`.
unfoldable pub worker_ctx : Env → List ℕ → Bytes → Network → ℕ → WorkerCtx
worker_ctx env pools mac net i = record {
  queue_id = u16 i;
  pool = get_or pools i 0;
  mac = mac;
  ip = net.ip;
  prefix_len = net.prefix_len;
  gateway_ip = net.gateway_ip;
  gateway_mac = net.gateway_mac;
  first_block = first_block (conns_per_worker env) i;
}

-- The workers, `left` of them from number `i` on, each of which is joined.
unfoldable pub run_workers :
    Env → RssState → Machine → (ℕ → WorkerCtx) → ℕ → ℕ → Option (List (List Conn))
run_workers env st m ctx zero i = some []
run_workers env st m ctx (suc left) i =
    join (worker_thread env st m.host m.fault (ctx i) (m.worker i))
      (run_workers env st m ctx left (i + 1))

unfoldable pub report : Env → Machine → Option (List (List Conn)) → Ending
report env m none = waiting
report env m (some workers) =
    reported (
      verdict (stub_tls_after_handshake env) (conns_per_worker env) m.misrouted
        (map stored workers))

unfoldable pub with_network :
    Env → Machine → ℕ → RssState → List ℕ → Bytes → Option Network → Ending
with_network env m n st pools mac none = no_network
with_network env m n st pools mac (some net) =
    report env m (run_workers env st m (worker_ctx env pools mac net) n 0)

unfoldable pub when_learnt : Env → Machine → ℕ → RssState → List ℕ → Bytes → Option Learnt → Ending
when_learnt env m n st pools mac none = waiting
when_learnt env m n st pools mac (some l) = with_network env m n st pools mac l.network

unfoldable pub with_steering : Env → Machine → ℕ → List ℕ → Bytes → RssState × Bool → Ending
with_steering env m n pools mac (st, false) = no_steering
with_steering env m n pools mac (st, true) =
    when_learnt env m n st pools mac (learn_network mac m.events m.buffer m.polls)

unfoldable pub with_nic : Env → Machine → ℕ → Option (List ℕ × Bytes) → Ending
with_nic env m n none = no_nic
with_nic env m n (some (pools, mac)) =
    with_steering env m n pools mac (load_rss_config initial_rss n m.key m.reta)

unfoldable pub osv_app_main : Env → Machine → Ending
unfolding bytes_eq
osv_app_main env m =
    let n = clamp_workers (n_workers_req env) m.max_rx m.max_tx in
    if bytes_eq (target_ip env) zero_address
    then not_configured
    else if not (is_configured env)
    then not_configured
    else with_nic env m n (probe_and_open m.nic n).0
