-- ===== src/Worker.antt =====
-- A worker behind the opening of its connections: the loop of `worker_thread` in
-- bench/smoltcp-s3/src/lib.rs and the accounts that it stores (lines 1333-1380).
pub mod Rounds
pub mod Carried
pub mod Ends
pub mod Complete
pub mod Shared
pub mod Alone
pub mod Interleaved
pub mod Rest
mod Tests
use miniosv_apps.Prelude.{
  ℕ, suc, ◌+◌, Bool, true, false, ◌&&◌, not, Option, none, some, List, [], ◌∷◌, map, if◌then◌else◌,
  length,
}
use miniosv_apps.Http.{fresh_tally}
use miniosv_apps.Plan.{Request}
use miniosv_apps.Report.{Outcome, Account, no_account, account}
use miniosv_apps.Conn.{Answers, Conn, Counters, conn_step}

-- `conns.push(Conn { ... })`; the clock is read twice.
unfoldable pub new_conn : Bool → ℕ → ℕ → ℕ → Request → Conn
new_conn plain queue_id connect_start_ms start_ms r = record {
  has_tls = not plain;
  incoming = [];
  outgoing = [];
  request = r.text;
  request_queued = false;
  handshake_done = false;
  tally = fresh_tally;
  done = false;
  connect_start_ms = connect_start_ms;
  queue_id = queue_id;
  src_port = r.src_port;
  expected = r.expected;
  closed_cleanly = false;
  attempts = 1;
  settled = false;
  start_ms = start_ms;
}

-- One step of each connection, the first of index `i`, with the answers of the round, and `all_done`.
unfoldable pub step_all :
    Bool → Bool → (ℕ → Answers) → ℕ → List Conn → Counters → (List Conn × Counters) × Bool
step_all plain stub round i [] g = (([], g), true)
step_all plain stub round i (c ∷ cs) g =
    let ((c', g'), (_, d)) = conn_step plain stub (round i) c g in
    let ((cs', g''), all_done) = step_all plain stub round (i + 1) cs g' in
    ((c' ∷ cs', g''), d && all_done)

-- The loop, for the rounds that the environment plays; `none` where it has not ended behind them.
unfoldable pub run_rounds :
    Bool → Bool → List (ℕ → Answers) → List Conn → Counters → Option (List Conn × Counters)
run_rounds plain stub [] cs g = none
run_rounds plain stub (round ∷ more) cs g =
    let ((cs', g'), all_done) = step_all plain stub round 0 cs g in
    let rest = run_rounds plain stub more cs' g' in if all_done then some (cs', g') else rest

-- Without the counters.
abbrev pub conns_of : Option (List Conn × Counters) → Option (List Conn)
conns_of none = none
conns_of (some (cs, g)) = some cs

-- The connections of a worker and of those after it.
abbrev pub join : Option (List Conn) → Option (List (List Conn)) → Option (List (List Conn))
join none later = none
join (some cs) none = none
join (some cs) (some ws) = some (cs ∷ ws)

abbrev pub outcome : Conn → Outcome
outcome c = record {
  bytes_received = c.tally.bytes;
  expected = c.expected;
  closed_cleanly = c.closed_cleanly;
}

-- What the worker stores in its `WorkerCtx`.
abbrev pub stored : List Conn → Account
stored cs = account (map outcome cs)
