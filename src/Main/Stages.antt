-- ===== src/Main/Stages.antt =====
-- What a run that ends with a verdict has gone through (lines 1468-1659 of
-- bench/smoltcp-s3/src/lib.rs).
use miniosv_apps.Prelude.{
  ℕ, ◌≡◌, refl, Bool, true, false, not, Option, none, some, List, map, if◌then◌else◌, Bytes,
}
use miniosv_apps.Config.{
  Env, bytes_eq, zero_address, target_ip, n_workers_req, conns_per_worker, stub_tls_after_handshake,
}
use miniosv_apps.Rss.{RssState, load_rss_config}
use miniosv_apps.Start.{probe_and_open}
use miniosv_apps.Network.{Network, Learnt, learn_network}
use miniosv_apps.Plan.{is_configured, clamp_workers}
use miniosv_apps.Report.{Verdict, verdict}
use miniosv_apps.Conn.{Conn}
use miniosv_apps.Worker.{stored}
use miniosv_apps.Main.{
  initial_rss, Machine, Ending, not_configured, reported, worker_ctx, run_workers, report,
  with_network, when_learnt, with_steering, with_nic, osv_app_main,
}

abbrev pub clamped : Env → Machine → ℕ
clamped env m = clamp_workers (n_workers_req env) m.max_rx m.max_tx

-- All that a verdict rests on: a build that is configured, a card that started, its steering, a
-- network, and workers that have all ended.
pub record Went (env : Env) (m : Machine) (v : Verdict) : Type 0 where
  pub is_ready : is_configured env ≡ true
  pub pools : List ℕ
  pub mac : Bytes
  pub opened : (probe_and_open m.nic (clamped env m)).0 ≡ some (pools, mac)
  pub st : RssState
  pub steered : load_rss_config initial_rss (clamped env m) m.key m.reta ≡ (st, true)
  pub net : Network
  pub log : Learnt
  pub learnt : learn_network mac m.events m.buffer m.polls ≡ some log
  pub network : log.network ≡ some net
  pub workers : List (List Conn)
  pub ran : run_workers env st m (worker_ctx env pools mac net) (clamped env m) 0 ≡ some workers
  pub judged :
      v
      ≡ verdict
          (stub_tls_after_handshake env)
          (conns_per_worker env)
          m.misrouted
          (map stored workers)

module _ (env : Env) (m : Machine) (v : Verdict) where
  report-reported :
      (o : Option (List (List Conn)))
      → report env m o ≡ reported v
      → (ws : List (List Conn)) × (o ≡ some ws)
        × (v
            ≡ verdict
                (stub_tls_after_handshake env)
                (conns_per_worker env)
                m.misrouted
                (map stored ws))
  unfolding report
  report-reported none e = cc
  report-reported (some ws) e = (ws, refl, cc)

  with_network-reported :
      (n : ℕ) (st : RssState) (pools : List ℕ) (mac : Bytes) (o : Option Network)
      → with_network env m n st pools mac o ≡ reported v
      → (net : Network) × (o ≡ some net)
        × (report env m (run_workers env st m (worker_ctx env pools mac net) n 0) ≡ reported v)
  unfolding with_network
  with_network-reported n st pools mac none e = cc
  with_network-reported n st pools mac (some net) e = (net, refl, e)

  when_learnt-reported :
      (n : ℕ) (st : RssState) (pools : List ℕ) (mac : Bytes) (o : Option Learnt)
      → when_learnt env m n st pools mac o ≡ reported v
      → (l : Learnt) × (o ≡ some l) × (with_network env m n st pools mac l.network ≡ reported v)
  unfolding when_learnt
  when_learnt-reported n st pools mac none e = cc
  when_learnt-reported n st pools mac (some l) e = (l, refl, e)

  with_steering-reported :
      (n : ℕ) (pools : List ℕ) (mac : Bytes) (r : RssState × Bool)
      → with_steering env m n pools mac r ≡ reported v
      → (st : RssState) × (r ≡ (st, true))
        × (when_learnt env m n st pools mac (learn_network mac m.events m.buffer m.polls)
            ≡ reported v)
  unfolding with_steering
  with_steering-reported n pools mac (st, false) e = cc
  with_steering-reported n pools mac (st, true) e = (st, refl, e)

  with_nic-reported :
      (n : ℕ) (o : Option (List ℕ × Bytes))
      → with_nic env m n o ≡ reported v
      → (pools : List ℕ) × (mac : Bytes) × (o ≡ some (pools, mac))
        × (with_steering env m n pools mac (load_rss_config initial_rss n m.key m.reta)
            ≡ reported v)
  unfolding with_nic
  with_nic-reported n none e = cc
  with_nic-reported n (some (pools, mac)) e = (pools, mac, refl, e)

  guards :
      (zero_ip ready : Bool) (rest : Ending)
      → (if zero_ip then not_configured else (if not ready then not_configured else rest))
        ≡ reported v
      → (ready ≡ true) × (rest ≡ reported v)
  guards true ready rest e = cc
  guards false false rest e = cc
  guards false true rest e = (refl, e)

  pub osv_app_main-Went : osv_app_main env m ≡ reported v → Went env m v
  unfolding osv_app_main
  osv_app_main-Went e =
      let n = clamped env m in
      let (ready, e₁) =
        guards (bytes_eq (target_ip env) zero_address) (is_configured env)
          (with_nic env m n (probe_and_open m.nic n).0) e in
      let (pools, mac, opened, e₂) = with_nic-reported n (probe_and_open m.nic n).0 e₁ in
      let (st, steered, e₃) =
        with_steering-reported n pools mac (load_rss_config initial_rss n m.key m.reta) e₂ in
      let (l, learnt, e₄) =
        when_learnt-reported n st pools mac (learn_network mac m.events m.buffer m.polls) e₃ in
      let (net, network, e₅) = with_network-reported n st pools mac l.network e₄ in
      let (ws, ran, judged) =
        report-reported (run_workers env st m (worker_ctx env pools mac net) n 0) e₅ in
      record {
        is_ready = ready;
        pools = pools;
        mac = mac;
        opened = opened;
        st = st;
        steered = steered;
        net = net;
        log = l;
        learnt = learnt;
        network = network;
        workers = ws;
        ran = ran;
        judged = judged;
      }
