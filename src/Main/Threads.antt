-- ===== src/Main/Threads.antt =====
-- The workers of `osv_app_main` at once (lines 1518-1545 of bench/smoltcp-s3/src/lib.rs): they are started
-- one by one and joined, and run their loops on shared counters in between.
mod Tests
use miniosv_apps.Prelude.{
  ℕ, zero, suc, ◌+◌, ◌≤◌, ◌≡◌, refl, sym, ap, ap₂, subst, ◌∙◌, ◌⊎◌, inl, inr, Bool, true, false,
  not, Option, none, some, List, [], ◌∷◌, Bool-cases, if◌then◌else◌, Bytes,
}
use miniosv_apps.Config.{Env, conns_per_worker, plain_http, stub_tls_after_handshake}
use miniosv_apps.Rss.{RssState}
use miniosv_apps.Rss.Chosen.{worker_ports}
use miniosv_apps.Plan.{Request, open_conns}
use miniosv_apps.Conn.{Conn, Counters}
use miniosv_apps.Worker.{run_rounds, conns_of, join}
use miniosv_apps.Worker.Shared.{Turn, ended, begin, Reach}
use miniosv_apps.Worker.Alone.{alone, alone-begin, run_rounds-unread}
use miniosv_apps.Worker.Rest.{moves_total, CanMove, all_ended, one_by_one, Rests, reach-Rests}
use miniosv_apps.Thread.{WorkerCtx, WorkerAnswers, start_conns, poll_conns, worker_thread}
use miniosv_apps.Main.{Machine, run_workers}

-- A worker behind the opening: before its loop, or returned early.
abbrev pub opened_turn : Env → WorkerCtx → WorkerAnswers → Option (List Request) → Turn
opened_turn env ctx a none = ended []
opened_turn env ctx a (some rs) =
    begin a.rounds (start_conns (plain_http env) ctx.queue_id a.clock 0 rs)

-- The worker where it comes to its loop.
unfoldable pub worker_turn : Env → RssState → Bytes → ℕ → WorkerCtx → WorkerAnswers → Turn
worker_turn env st host fault ctx a =
    let my_ports = worker_ports env st ctx.ip ctx.queue_id (conns_per_worker env) in
    if not a.server_name
    then ended []
    else opened_turn env ctx a
        (open_conns env host a.connect a.session ctx.first_block my_ports fault)

-- All workers, `left` of them from number `i` on.
unfoldable pub worker_turns : Env → RssState → Machine → (ℕ → WorkerCtx) → ℕ → ℕ → List Turn
worker_turns env st m ctx zero i = []
worker_turns env st m ctx (suc left) i =
    worker_turn env st m.host m.fault (ctx i) (m.worker i) ∷ worker_turns env st m ctx left (i + 1)

module _ (env : Env) (g : Counters) where
  abbrev plain : Bool
  plain = plain_http env

  abbrev stub : Bool
  stub = stub_tls_after_handshake env

  poll_conns-alone :
      (ctx : WorkerCtx) (a : WorkerAnswers) (o : Option (List Request))
      → poll_conns env ctx a o ≡ conns_of (alone plain stub (opened_turn env ctx a o) g)
  unfolding poll_conns
  poll_conns-alone ctx a none = refl
  poll_conns-alone ctx a (some rs) =
      let cs = start_conns plain ctx.queue_id a.clock 0 rs in
      run_rounds-unread plain stub a.rounds cs a.counters g
      ∙ sym (ap conns_of (alone-begin plain stub cs a.rounds g))

  worker_thread-alone :
      (st : RssState) (host : Bytes) (fault : ℕ) (ctx : WorkerCtx) (a : WorkerAnswers)
      → worker_thread env st host fault ctx a
        ≡ conns_of (alone plain stub (worker_turn env st host fault ctx a) g)
  unfolding worker_thread worker_turn
  worker_thread-alone st host fault ctx a = elim (Bool-cases (not a.server_name)) [
    | inl e ↦ simp e refl
    | inr e ↦ simp e (poll_conns-alone ctx a _)
  ]

  run_workers-one_by_one :
      (st : RssState) (m : Machine) (ctx : ℕ → WorkerCtx) (left i : ℕ)
      → one_by_one plain stub g (worker_turns env st m ctx left i) ≡ run_workers env st m ctx left i
  unfolding run_workers worker_turns
  run_workers-one_by_one st m ctx zero i = refl
  run_workers-one_by_one st m ctx (suc left) i =
      ap₂ join (sym (worker_thread-alone st m.host m.fault (ctx i) (m.worker i)))
        (run_workers-one_by_one st m ctx left (i + 1))

-- In whatever order the moves of the workers come, all workers together make no more moves than there are
-- connections and rounds for. In each state that they reach some worker can move, or what they have
-- ended with is the result of running one worker after the other: the same connections of each, or
-- none in both, where the answers of a worker have run out before its loop ended.
pub any_order-run_workers :
    (env : Env) (st : RssState) (m : Machine) (ctx : ℕ → WorkerCtx) (n : ℕ) (g₀ : Counters) (k : ℕ)
    (ts : List Turn) (g : Counters)
    → Reach
        (plain_http env)
        (stub_tls_after_handshake env)
        (worker_turns env st m ctx n 0)
        g₀
        k
        ts
        g
    → (k + moves_total ts ≤ moves_total (worker_turns env st m ctx n 0))
      × (CanMove (plain_http env) (stub_tls_after_handshake env) ts g
          ⊎ (all_ended ts ≡ run_workers env st m ctx n 0))
any_order-run_workers env st m ctx n g₀ k ts g r =
    let start = worker_turns env st m ctx n 0 in
    let (bound, end) =
      reach-Rests (plain_http env) (stub_tls_after_handshake env) start g₀ g₀ k ts g r in
    (
      bound,
      elim end [
        | inl more ↦ inl more
        | inr e ↦ inr (e ∙ run_workers-one_by_one env g₀ st m ctx n 0)
      ],
    )
