-- ===== src/Thread/Fetched.antt =====
-- What is left of a worker's connections when `worker_thread` ends (lines 1300-1380 of
-- bench/smoltcp-s3/src/lib.rs).
use miniosv_apps.Prelude.{
  ℕ, suc, ◌+◌, ◌^◌, ◌≤◌, ◌<◌, ◌≡◌, refl, sym, subst, ap, ◌∙◌, arith, Bool, true, false, not, Option,
  none, some, List, [], ◌∷◌, map, if◌then◌else◌, length, Bytes,
}
use miniosv_apps.Config.{Env, conns_per_worker, plain_http, stub_tls_after_handshake}
use miniosv_apps.Rss.{RssState}
use miniosv_apps.Rss.Chosen.{worker_ports, length-worker_ports}
use miniosv_apps.Plan.{Request, open_conns}
use miniosv_apps.Conn.{Answers, Conn, Counters}
use miniosv_apps.Conn.Life.{IsNew}
use miniosv_apps.Conn.Kept.{Fixed, fixed_of}
use miniosv_apps.Worker.{conns_of, new_conn, run_rounds}
use miniosv_apps.Worker.Rounds.{AllConns, IsSound, IsDone}
use miniosv_apps.Worker.Carried.{AllCarried, EndsCarried, run_rounds-EndsCarried}
use miniosv_apps.Thread.{WorkerCtx, WorkerAnswers, start_conns, poll_conns, worker_thread}
use miniosv_apps.Thread.Opened.{block_texts, open_conns-AreBlocks}

abbrev pub requests : List Conn → List Bytes
requests cs = map (λ (c : Conn). c.request) cs

abbrev pub sources : List Conn → List ℕ
sources cs = map (λ (c : Conn). c.src_port) cs

-- The connections ask for the blocks from `first` on, one each, from the worker's own ports.
abbrev pub IsFetch : Env → RssState → Bytes → WorkerCtx → List Conn → Type 0
IsFetch env st host ctx cs =
    (requests cs ≡ block_texts env host (conns_per_worker env) ctx.first_block)
    × (sources cs ≡ worker_ports env st ctx.ip ctx.queue_id (conns_per_worker env))

-- A worker that has ended, with the rounds of its loop: no more connections than asked for, each done,
-- with its bytes accounted for; and where they are as many as asked for, they are its blocks.
abbrev pub IsFetched : Env → RssState → Bytes → WorkerCtx → List (ℕ → Answers) → List Conn → Type 0
IsFetched env st host ctx rounds cs =
    (length cs ≤ conns_per_worker env)
    × AllConns IsDone cs
    × AllConns IsSound cs
    × AllCarried (plain_http env) (stub_tls_after_handshake env) rounds 0 cs
    × (length cs ≡ conns_per_worker env → IsFetch env st host ctx cs)

module _ (plain : Bool) (queue_id : ℕ) (clock : ℕ → ℕ × ℕ) where
  requests-start_conns :
      (k : ℕ) (rs : List Request)
      → requests (start_conns plain queue_id clock k rs) ≡ map (λ (r : Request). r.text) rs
  unfolding start_conns new_conn
  requests-start_conns k [] = refl
  requests-start_conns k (r ∷ rs) = ap (◌∷◌ r.text) (requests-start_conns (k + 1) rs)

  sources-start_conns :
      (k : ℕ) (rs : List Request)
      → sources (start_conns plain queue_id clock k rs) ≡ map (λ (r : Request). r.src_port) rs
  unfolding start_conns new_conn
  sources-start_conns k [] = refl
  sources-start_conns k (r ∷ rs) = ap (◌∷◌ r.src_port) (sources-start_conns (k + 1) rs)

  length-start_conns :
      (k : ℕ) (rs : List Request) → length (start_conns plain queue_id clock k rs) ≡ length rs
  unfolding start_conns
  length-start_conns k [] = refl
  length-start_conns k (r ∷ rs) = ap suc (length-start_conns (k + 1) rs)

  start_conns-IsNew :
      (k : ℕ) (rs : List Request) → AllConns IsNew (start_conns plain queue_id clock k rs)
  unfolding start_conns new_conn
  start_conns-IsNew k [] = tt
  start_conns-IsNew k (r ∷ rs) =
      ((refl, refl, refl, refl, refl, refl), start_conns-IsNew (k + 1) rs)

-- What two lists of connections of the same identities have in common.
requests-fixed : (cs : List Conn) → map (λ (f : Fixed). f.request) (map fixed_of cs) ≡ requests cs
requests-fixed [] = refl
requests-fixed (c ∷ cs) = ap (◌∷◌ c.request) (requests-fixed cs)

sources-fixed : (cs : List Conn) → map (λ (f : Fixed). f.src_port) (map fixed_of cs) ≡ sources cs
sources-fixed [] = refl
sources-fixed (c ∷ cs) = ap (◌∷◌ c.src_port) (sources-fixed cs)

length-fixed : (cs : List Conn) → length (map fixed_of cs) ≡ length cs
length-fixed [] = refl
length-fixed (c ∷ cs) = ap suc (length-fixed cs)

some_injective : {A : Type 0} (a b : A) → some a ≡ some b → a ≡ b
some_injective a b e = cc

conns_of-some :
    (o : Option (List Conn × Counters)) (cs : List Conn)
    → conns_of o ≡ some cs
    → (g : Counters) × (o ≡ some (cs, g))
conns_of-some none cs e = cc
conns_of-some (some (cs', g)) cs e = (g, ap (λ t. some (t, g)) (some_injective cs' cs e))

-- A worker that returned early.
none-IsFetched :
    (env : Env) (st : RssState) (host : Bytes) (ctx : WorkerCtx) (rounds : List (ℕ → Answers))
    (cs : List Conn)
    → 0 < conns_per_worker env
    → [] ≡ cs
    → IsFetched env st host ctx rounds cs
none-IsFetched env st host ctx rounds cs several e =
    subst (IsFetched env st host ctx rounds) e
      (omega arith, tt, tt, tt, λ full. absurd (omega arith))

module _ (env : Env) (st : RssState) (host : Bytes) (fault : ℕ) (ctx : WorkerCtx)
    (a : WorkerAnswers) (several : 0 < conns_per_worker env)
    (small : ctx.first_block + conns_per_worker env ≤ 2 ^ 64) (cs : List Conn) where
  ports : List ℕ
  ports = worker_ports env st ctx.ip ctx.queue_id (conns_per_worker env)

  poll_conns-IsFetched :
      (rs : List Request)
      → open_conns env host a.connect a.session ctx.first_block ports fault ≡ some rs
      → poll_conns env ctx a (some rs) ≡ some cs
      → IsFetched env st host ctx a.rounds cs
  unfolding poll_conns ports
  poll_conns-IsFetched rs opened ended =
      let plain = plain_http env in
      let cs₀ = start_conns plain ctx.queue_id a.clock 0 rs in
      let stub = stub_tls_after_handshake env in
      let (g, e) = conns_of-some (run_rounds plain stub a.rounds cs₀ a.counters) cs ended in
      let (same, done, sound, carried) = subst (EndsCarried plain stub a.rounds cs₀) e (
        run_rounds-EndsCarried plain stub a.rounds cs₀ a.counters
          (start_conns-IsNew plain ctx.queue_id a.clock 0 rs)) in
      let (few, all) =
        open_conns-AreBlocks env host ctx.first_block ports a.connect a.session fault rs small
          opened in
      let count : length cs ≡ length rs =
        sym (length-fixed cs)
        ∙ ap length same
        ∙ length-fixed cs₀
        ∙ length-start_conns plain ctx.queue_id a.clock 0 rs in
      let bounded = length-worker_ports env st ctx.ip ctx.queue_id (conns_per_worker env) several in
      (
        omega (arith, count),
        done,
        sound,
        carried,
        λ full.
            let (texts, from) = all (omega (arith, count)) (omega (arith, bounded)) in
            (
              sym (requests-fixed cs)
                  ∙ ap (map (λ (f : Fixed). f.request)) same
                  ∙ requests-fixed cs₀
                  ∙ requests-start_conns plain ctx.queue_id a.clock 0 rs
                  ∙ texts,
              sym (sources-fixed cs)
                  ∙ ap (map (λ (f : Fixed). f.src_port)) same
                  ∙ sources-fixed cs₀
                  ∙ sources-start_conns plain ctx.queue_id a.clock 0 rs
                  ∙ from,
            ),
      )

  poll_any-IsFetched :
      (o : Option (List Request))
      → open_conns env host a.connect a.session ctx.first_block ports fault ≡ o
      → poll_conns env ctx a o ≡ some cs
      → IsFetched env st host ctx a.rounds cs
  unfolding poll_conns
  poll_any-IsFetched none opened ended =
      none-IsFetched env st host ctx a.rounds cs several (some_injective [] cs ended)
  poll_any-IsFetched (some rs) opened ended = poll_conns-IsFetched rs opened ended

  by_name :
      (known : Bool) (polled : Option (List Conn))
      → (polled ≡ some cs → IsFetched env st host ctx a.rounds cs)
      → (if not known then some [] else polled) ≡ some cs
      → IsFetched env st host ctx a.rounds cs
  by_name true polled rest ended = rest ended
  by_name false polled rest ended =
      none-IsFetched env st host ctx a.rounds cs several (some_injective [] cs ended)

  -- Where a worker has connections to open, and its blocks have numbers below 2 ^ 64, and it ends: it
  -- has no more connections than it was asked for, and each is done. One that counts as cleanly
  -- closed has queued its request and has nothing left to send; and without TLS the bytes that it
  -- sent are exactly its request, and its count is the number of bytes behind the first CRLFCRLF of
  -- all that its socket has handed over in the rounds played, unless that is no `usize`. Where it
  -- has as many connections as it was asked for, they ask for its blocks, one each and in order,
  -- from the ports that it has chosen.
  pub worker_thread-IsFetched :
      worker_thread env st host fault ctx a ≡ some cs → IsFetched env st host ctx a.rounds cs
  unfolding worker_thread ports
  worker_thread-IsFetched ended =
      let opened = open_conns env host a.connect a.session ctx.first_block ports fault in
      by_name a.server_name (poll_conns env ctx a opened) (poll_any-IsFetched opened refl) ended
