-- ===== src/Main/Tests.antt =====
-- The small run of Thread/Sample, from the start of the program to its verdict.
use miniosv_apps.Prelude.{
  ◌<◌, ◌*◌, ◌^◌, ◌≡◌, refl, ap, ◌∙◌, arith, false, none, some, [], ◌∷◌, replicate,
}
use miniosv_apps.Prelude.Int.{pos}
use miniosv_apps.Config.{
  bytes_eq, target_ip, n_workers_req, conns_per_worker, object_size, block_size,
  stub_tls_after_handshake, plain_http,
}
use miniosv_apps.Rss.{load_rss_config}
use miniosv_apps.Arp.{arp_frame, build_arp_request, build_arp_reply, parse_arp_reply_from}
use miniosv_apps.Start.{create_pools, setup_queues, start_queues, open_device, probe_and_open}
use miniosv_apps.Device.{Shim, receive}
use miniosv_apps.Network.{
  configured, dhcp_from, arp_call, arp_from, ask_gateway, learn_within, Network, Learnt,
}
use miniosv_apps.Plan.{is_configured, clamp_workers, first_block}
use miniosv_apps.Report.{
  verdict, add_outcome, account_from, add_account, totals_from, planned_conns, ranges_ok, covered,
  bytes_ok, complete_bytes,
}
use miniosv_apps.Conn.{Conn}
use miniosv_apps.Worker.{stored}
use miniosv_apps.Thread.{worker_device, worker_thread}
use miniosv_apps.Thread.Sample.{
  env, steering, ctx, answers, host, our_ip, fetched, sample_port, worker_fetches,
}
use miniosv_apps.Main.{
  Machine, no_nic, reported, worker_ctx, join, run_workers, report, with_network, when_learnt,
  with_steering, with_nic, osv_app_main,
}
use miniosv_apps.Main.Stages.{clamped, Went}
use miniosv_apps.Main.Seeded.{IsSeededBy, worker_ctx-IsSeededBy}
use miniosv_apps.Main.Complete.{FetchesAll, osv_app_main-FetchesAll}

abbrev pub machine : Machine
machine = record {
  max_rx = 4;
  max_tx = 8;
  nic = record {
    pool_for = λ q. 1000;
    configured = pos 0;
    rx_desc = 4096;
    tx_desc = 1024;
    rx_ready = λ q. pos 0;
    tx_ready = λ q. pos 0;
    started = pos 0;
    mac = ctx.mac;
  };
  key = record { rc = pos 0; filled = [] };
  reta = record { rc = pos 0; filled = [] };
  events = none ∷ some (configured our_ip 24 (some ctx.gateway_ip)) ∷ [];
  buffer = some (record { handle = 8; room = replicate 64 0 });
  polls =
      some (record {
        handle = 4;
        frame = build_arp_reply ctx.gateway_mac ctx.gateway_ip ctx.mac our_ip;
      })
      ∷ [];
  worker = λ i. answers;
  misrouted = 0;
  host = host;
  fault = 0;
}

abbrev closed : Conn
closed = fetched sample_port

the_verdict : verdict false 1 0 (stored (closed ∷ []) ∷ []) ≡ complete_bytes 4
unfolding verdict account_from add_outcome totals_from add_account planned_conns ranges_ok covered
    bytes_ok
the_verdict = refl

joined :
    osv_app_main env machine
    ≡ report env machine (join (worker_thread env steering host 0 ctx answers) (some []))
unfolding osv_app_main target_ip is_configured n_workers_req conns_per_worker object_size block_size
    clamp_workers with_nic probe_and_open open_device create_pools setup_queues start_queues
    with_steering load_rss_config when_learnt learn_within dhcp_from ask_gateway arp_from arp_frame
    build_arp_reply parse_arp_reply_from bytes_eq with_network run_workers worker_ctx first_block
joined = refl

judged :
    report env machine (some ((closed ∷ []) ∷ []))
    ≡ reported (verdict false 1 0 (stored (closed ∷ []) ∷ []))
unfolding report conns_per_worker stub_tls_after_handshake plain_http
judged = refl

completes : osv_app_main env machine ≡ reported (complete_bytes 4)
completes =
    joined
    ∙ ap (λ o. report env machine (join o (some []))) worker_fetches
    ∙ judged
    ∙ ap reported the_verdict

fails_early :
    osv_app_main env (record machine { nic = record (machine.nic) { pool_for = λ q. 0 } }) ≡ no_nic
unfolding osv_app_main target_ip is_configured n_workers_req conns_per_worker object_size block_size
    clamp_workers with_nic probe_and_open open_device create_pools bytes_eq
fails_early = refl

few : clamped env machine * conns_per_worker env < 2 ^ 64
unfolding clamp_workers n_workers_req conns_per_worker
few = omega arith

osv_app_main-FetchesAll_example :
    (w : Went env machine (complete_bytes 4)) × FetchesAll env machine (complete_bytes 4) w
osv_app_main-FetchesAll_example =
    osv_app_main-FetchesAll env machine (complete_bytes 4) few completes refl

-- The network that the run learns, and what it sends and frees for it.
abbrev net : Network
net = record {
  ip = our_ip;
  prefix_len = 24;
  gateway_ip = ctx.gateway_ip;
  gateway_mac = ctx.gateway_mac;
}

abbrev log : Learnt
log = record {
  network = some net;
  calls =
      record { handle = 8; len = 42; frame = build_arp_request ctx.mac our_ip ctx.gateway_ip } ∷ [];
  freed = 4 ∷ [];
}

learns : learn_within 2 2 ctx.mac machine.events machine.buffer machine.polls ≡ some log
unfolding learn_within dhcp_from ask_gateway arp_call arp_from arp_frame build_arp_request
    build_arp_reply parse_arp_reply_from bytes_eq
learns = refl

abbrev idle : Shim
idle = record { bursts = []; freed = []; misrouted = 0 }

worker_ctx-IsSeededBy_example :
    IsSeededBy net machine.polls idle
      (receive 1 (worker_device env steering (worker_ctx env (1000 ∷ []) ctx.mac net 0)) idle)
worker_ctx-IsSeededBy_example =
    worker_ctx-IsSeededBy 2 2 ctx.mac machine.events machine.buffer machine.polls log net env
      steering (1000 ∷ []) 0 1 idle learns refl refl refl refl
