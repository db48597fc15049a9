-- ===== src/Main/Complete.antt =====
-- What a run that is reported complete has fetched, over all of its stages (lines 1468-1659 of
-- bench/smoltcp-s3/src/lib.rs).
use miniosv_apps.Prelude.{
  ℕ, zero, suc, ◌+◌, ◌*◌, ◌^◌, ◌<◌, ◌≡◌, refl, sym, subst, ap, ap₂, ◌∙◌, arith, true, Option, none,
  some, List, [], ◌∷◌, ◌++◌, length, u16, u64, Bytes,
}
use miniosv_apps.Config.{Env, conns_per_worker, plain_http, stub_tls_after_handshake}
use miniosv_apps.Rss.{RssState}
use miniosv_apps.Rss.Chosen.{worker_ports}
use miniosv_apps.Plan.{is_configured, first_block}
use miniosv_apps.Report.{Verdict}
use miniosv_apps.Report.Complete.{is_complete, BytesMatch}
use miniosv_apps.Conn.{Conn}
use miniosv_apps.Worker.Rounds.{AllConns, IsSound}
use miniosv_apps.Worker.Complete.{
  AllWorkers, FewConns, AllClosed, sum_workers, bytes_of, expected_of, verdict-AllClosed,
}
use miniosv_apps.Worker.Carried.{AllCarried}
use miniosv_apps.Thread.{WorkerCtx, worker_thread}
use miniosv_apps.Thread.Opened.{block_text, block_texts}
use miniosv_apps.Thread.Fetched.{requests, sources, IsFetched, worker_thread-IsFetched}
use miniosv_apps.Main.{Machine, reported, worker_ctx, join, run_workers, osv_app_main}
use miniosv_apps.Main.Stages.{clamped, Went, osv_app_main-Went}

-- The requests of all connections of all workers, in order.
abbrev pub all_requests : List (List Conn) → List Bytes
all_requests [] = []
all_requests (cs ∷ rest) = requests cs ++ all_requests rest

-- Something holds of each worker, the first of number `i`.
abbrev pub EachWorker : (ℕ → List Conn → Type 0) → ℕ → List (List Conn) → Type 0
EachWorker P i [] = Unit {0}
EachWorker P i (cs ∷ rest) = P i cs × EachWorker P (i + 1) rest

block_texts-append :
    (env : Env) (host : Bytes) (a b s : ℕ)
    → block_texts env host (a + b) s ≡ block_texts env host a s ++ block_texts env host b (s + a)
block_texts-append env host zero b s =
    let e : 0 + b ≡ b = omega arith in
    let e' : s ≡ s + 0 = omega arith in ap₂ (block_texts env host) e e'
block_texts-append env host (suc a) b s =
    let e : suc a + b ≡ suc (a + b) = omega arith in
    let e' : s + 1 + a ≡ s + suc a = omega arith in
    ap (λ n. block_texts env host n s) e
    ∙ ap (◌∷◌ (block_text env host s)) (
        block_texts-append env host a b (s + 1)
        ∙ ap (λ t. block_texts env host a (s + 1) ++ block_texts env host b t) e')

first_block_lem : (conns i : ℕ) → i * conns < 2 ^ 64 → first_block conns i ≡ i * conns
unfolding first_block
first_block_lem conns i h = omega arith

several_conns : (env : Env) → is_configured env ≡ true → 0 < conns_per_worker env
unfolding is_configured
several_conns env h = ground arith

join-some :
    (a : Option (List Conn)) (b : Option (List (List Conn))) (ws : List (List Conn))
    → join a b ≡ some ws
    → (cs : List Conn) × (rest : List (List Conn)) × (a ≡ some cs)
      × (b ≡ some rest)
      × (cs ∷ rest ≡ ws)
join-some none b ws e = cc
join-some (some cs) none ws e = cc
join-some (some cs) (some rest) ws e = (cs, rest, refl, refl, cc)

module _ (env : Env) (st : RssState) (m : Machine) (ctx : ℕ → WorkerCtx)
    (first : (i : ℕ) → (ctx i).first_block ≡ first_block (conns_per_worker env) i)
    (several : 0 < conns_per_worker env) where
  abbrev conns : ℕ
  conns = conns_per_worker env

  abbrev AllFetched : ℕ → List (List Conn) → Type 0
  AllFetched i ws = EachWorker (λ k cs. IsFetched env st m.host (ctx k) (m.worker k).rounds cs) i ws

  run_workers-AllFetched :
      (left i : ℕ) (ws : List (List Conn))
      → (i + left) * conns < 2 ^ 64
      → run_workers env st m ctx left i ≡ some ws
      → (length ws ≡ left) × AllFetched i ws
  unfolding run_workers
  run_workers-AllFetched zero i ws small e =
      let none_left : [] ≡ ws = cc in
      subst (λ t. (length t ≡ 0) × AllFetched i t) none_left (refl, tt)
  run_workers-AllFetched (suc left) i ws small e =
      let (cs, rest, one, others, whole) =
        join-some (worker_thread env st m.host m.fault (ctx i) (m.worker i))
          (run_workers env st m ctx left (i + 1)) ws e in
      let start = first i ∙ first_block_lem (conns_per_worker env) i (omega arith) in
      let fetched =
        worker_thread-IsFetched env st m.host m.fault (ctx i) (m.worker i) several
          (omega (arith, start)) cs one in
      let (count, later) = run_workers-AllFetched left (i + 1) rest (omega arith) others in
      subst (λ t. (length t ≡ suc left) × AllFetched i t) whole (ap suc count, (fetched, later))

  AllFetched-FewConns :
      (i : ℕ) (ws : List (List Conn)) → AllFetched i ws → AllWorkers (FewConns conns) ws
  AllFetched-FewConns i [] h = tt
  AllFetched-FewConns i (cs ∷ rest) (h, hs) = (h.0, AllFetched-FewConns (i + 1) rest hs)

  AllFetched-IsSound :
      (i : ℕ) (ws : List (List Conn)) → AllFetched i ws → AllWorkers (AllConns IsSound) ws
  AllFetched-IsSound i [] h = tt
  AllFetched-IsSound i (cs ∷ rest) (h, hs) = (h.2, AllFetched-IsSound (i + 1) rest hs)

  AllFetched-AllCarried :
      (i : ℕ) (ws : List (List Conn))
      → AllFetched i ws
      → EachWorker
          (λ k cs.
            AllCarried (plain_http env) (stub_tls_after_handshake env) (m.worker k).rounds 0 cs)
          i
          ws
  AllFetched-AllCarried i [] h = tt
  AllFetched-AllCarried i (cs ∷ rest) (h, hs) = (h.3, AllFetched-AllCarried (i + 1) rest hs)

  -- Workers with all their connections: their requests, and their ports.
  all_requests-blocks :
      (i : ℕ) (ws : List (List Conn))
      → (i + length ws) * conns < 2 ^ 64
      → AllFetched i ws
      → AllWorkers (AllClosed conns) ws
      → all_requests ws ≡ block_texts env m.host (length ws * conns) (i * conns)
  all_requests-blocks i [] small h k =
      let e : 0 * conns_per_worker env ≡ 0 = omega arith in
      ap (λ n. block_texts env m.host n (i * conns_per_worker env)) (sym e)
  all_requests-blocks i (cs ∷ rest) small (h, hs) (k, ks) =
      let c = conns_per_worker env in
      let (texts, ports) = h.4 k.0 in
      let start = first i ∙ first_block_lem c i (omega arith) in
      let next : (i + 1) * c ≡ i * c + c = omega arith in
      let total : c + length rest * c ≡ suc (length rest) * c = omega arith in
      ap₂ ◌++◌ (texts ∙ ap (block_texts env m.host c) start) (
        all_requests-blocks (i + 1) rest (omega arith) hs ks
        ∙ ap (block_texts env m.host (length rest * c)) next)
      ∙ sym (block_texts-append env m.host c (length rest * c) (i * c))
      ∙ ap (λ n. block_texts env m.host n (i * c)) total

  AllFetched-sources :
      (i : ℕ) (ws : List (List Conn))
      → AllFetched i ws
      → AllWorkers (AllClosed conns) ws
      → EachWorker (λ k cs. sources cs ≡ worker_ports env st (ctx k).ip (ctx k).queue_id conns) i ws
  AllFetched-sources i [] h k = tt
  AllFetched-sources i (cs ∷ rest) (h, hs) (k, ks) =
      ((h.4 k.0).1, AllFetched-sources (i + 1) rest hs ks)

-- What a complete run has done, over the stages that it went through.
abbrev pub FetchesAll : (env : Env) (m : Machine) (v : Verdict) → Went env m v → Type 0
FetchesAll env m v w =
    (length w.workers ≡ clamped env m)
    × (all_requests w.workers ≡ block_texts env m.host (clamped env m * conns_per_worker env) 0)
    × EachWorker
        (λ i cs. sources cs ≡ worker_ports env w.st w.net.ip (u16 i) (conns_per_worker env)) 0
        w.workers
    × AllWorkers (AllClosed (conns_per_worker env)) w.workers
    × AllWorkers (AllConns IsSound) w.workers
    × EachWorker
        (λ i cs.
          AllCarried (plain_http env) (stub_tls_after_handshake env) (m.worker i).rounds 0 cs)
        0 w.workers
    × BytesMatch (stub_tls_after_handshake env) (u64 (sum_workers bytes_of w.workers))
        (u64 (sum_workers expected_of w.workers))
    × (m.misrouted ≡ 0)

Went-FetchesAll :
    (env : Env) (m : Machine) (v : Verdict) (w : Went env m v)
    → clamped env m * conns_per_worker env < 2 ^ 64
    → is_complete v ≡ true
    → FetchesAll env m v w
unfolding worker_ctx
Went-FetchesAll env m v w small done =
    let ctx = worker_ctx env w.pools w.mac w.net in
    let n = clamped env m in
    let several = several_conns env w.is_ready in
    let start : 0 * conns_per_worker env ≡ 0 = omega arith in
    let (count, fetched) =
      run_workers-AllFetched env w.st m ctx (λ i. refl) several n 0 w.workers (omega arith) w.ran in
    let number = ap (λ (k : ℕ). k * conns_per_worker env) count in
    let few = AllFetched-FewConns env w.st m ctx (λ i. refl) several 0 w.workers fetched in
    let (closed, _, bytes, lost) =
      (verdict-AllClosed (stub_tls_after_handshake env) (conns_per_worker env) m.misrouted w.workers
          few (omega (arith, number))).0
        (subst (λ t. is_complete t ≡ true) w.judged done) in
    (
      count,
      all_requests-blocks env w.st m ctx (λ i. refl) several 0 w.workers (omega (arith, number))
            fetched closed
          ∙ ap₂ (block_texts env m.host) number start,
      AllFetched-sources env w.st m ctx (λ i. refl) several 0 w.workers fetched closed,
      closed,
      AllFetched-IsSound env w.st m ctx (λ i. refl) several 0 w.workers fetched,
      AllFetched-AllCarried env w.st m ctx (λ i. refl) several 0 w.workers fetched,
      bytes,
      lost,
    )

-- Where the connections planned are a `u64`: a run that ends in the report that it is complete has
-- gone through every stage. Its workers are as many as the card allows of those asked for; the
-- requests of their connections, worker by worker, ask for the blocks 0, 1, 2 and so on, each once,
-- as many as were planned; each worker has dialled from the ports that it chose under the steering
-- that was read from the card. Every connection closed cleanly, with its request queued and nothing
-- left to send; without TLS the bytes that it sent are exactly its request, and its count is the
-- number of bytes behind the first CRLFCRLF of all that its socket has handed over in the rounds
-- played, unless that is no `usize`. The counts of all connections match the bytes that they expect
-- (their sums, modulo 2 ^ 64; at least as many under the stub), and no packet came to a wrong queue.
pub osv_app_main-FetchesAll :
    (env : Env) (m : Machine) (v : Verdict)
    → clamped env m * conns_per_worker env < 2 ^ 64
    → osv_app_main env m ≡ reported v
    → is_complete v ≡ true
    → (w : Went env m v) × FetchesAll env m v w
osv_app_main-FetchesAll env m v small e done =
    let w = osv_app_main-Went env m v e in (w, Went-FetchesAll env m v w small done)
