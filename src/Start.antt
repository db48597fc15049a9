-- ===== src/Start.antt =====
-- The start of the device in bench/smoltcp-s3/src/lib.rs: `PktPool` and `probe_and_open`, lines
-- 227-307. The calls of the shim are a log; what they answer is the record `Nic`.
pub mod Pools
pub mod Opened
mod Tests
use miniosv_apps.Prelude.{
  ℕ, zero, suc, ◌+◌, ◌*◌, Bool, true, false, Option, none, some, List, [], ◌∷◌, ◌++◌, ◌==◌,
  if◌then◌else◌, get_or, decimal, Bytes,
}
use miniosv_apps.Prelude.Int.{ℤ, pos, negsuc}
use miniosv_apps.Http.{BufWriter, write_all, codes}

abbrev pub data_room_size : ℕ
data_room_size = 1536

abbrev pub desc_num : ℕ
desc_num = 4096

abbrev pub cache : ℕ
cache = 64

abbrev pub rx_burst : ℕ
rx_burst = 32

-- `per_queue_size`
abbrev pub per_queue_size : ℕ
per_queue_size = desc_num * 2 + cache + rx_burst + 512

-- A call of the shim, with its arguments; `create` with the pool that it returned, 0 for null.
pub data Call : Type 0 where
  create : (name : Bytes) → (n cache_size priv_size room raw : ℕ) → Call
  destroy : (pool : ℕ) → Call
  configure : (rx_queues tx_queues : ℕ) → Call
  adjust : (rx_desc tx_desc : ℕ) → Call
  rx_setup : (queue desc pool : ℕ) → Call
  tx_setup : (queue desc : ℕ) → Call
  start : Call
  macaddr : Call

-- What the shim answers: the pool for a queue, the codes, the numbers of descriptors that are
-- granted, and the card's address.
pub record Nic : Type 0 where
  pub pool_for : ℕ → ℕ
  pub configured : ℤ
  pub rx_desc : ℕ
  pub tx_desc : ℕ
  pub rx_ready : ℕ → ℤ
  pub tx_ready : ℕ → ℤ
  pub started : ℤ
  pub mac : Bytes

abbrev pub is_zero : ℤ → Bool
is_zero (pos n) = n == 0
is_zero (negsuc n) = false

-- `PktPool::drop`, for each pool of the vector in order.
unfoldable pub drop_pools : List ℕ → List Call
drop_pools [] = []
drop_pools (p ∷ ps) = if p == 0 then drop_pools ps else destroy p ∷ drop_pools ps

-- The name of a pool, in a buffer of 32 bytes.
unfoldable pub pool_name : ℕ → Bytes
pool_name q =
    (write_all (record { size = 32; written = [] })
      (codes "bench-pool-" ∷ decimal q ∷ (0 ∷ []) ∷ [])).written

-- The loop that makes the pools, with `left` queues to go from `q`; where one is null those before
-- it are dropped.
unfoldable pub create_pools : Nic → ℕ → ℕ → List ℕ → List Call → Option (List ℕ) × List Call
create_pools nic zero q pools log = (some pools, log)
create_pools nic (suc left) q pools log =
    let raw = nic.pool_for q in
    let log' = log ++ (create (pool_name q) per_queue_size cache 0 data_room_size raw ∷ []) in
    let rest = create_pools nic left (q + 1) (pools ++ (raw ∷ [])) log' in
    if raw == 0 then (none, log' ++ drop_pools pools) else rest

-- The loop that sets up the queues.
unfoldable pub setup_queues : Nic → List ℕ → ℕ → ℕ → List Call → Bool × List Call
setup_queues nic pools zero q log = (true, log)
setup_queues nic pools (suc left) q log =
    let log' = log ++ (rx_setup q nic.rx_desc (get_or pools q 0) ∷ []) in
    let log'' = log' ++ (tx_setup q nic.tx_desc ∷ []) in
    let rest = setup_queues nic pools left (q + 1) log'' in
    if is_zero (nic.rx_ready q)
    then (if is_zero (nic.tx_ready q) then rest else (false, log''))
    else (false, log')

-- The rest of `probe_and_open`, behind the pools, which are dropped at each `return None`.
unfoldable pub start_queues :
    Nic → ℕ → List ℕ → Bool × List Call → Option (List ℕ × Bytes) × List Call
start_queues nic n pools (false, log) = (none, log ++ drop_pools pools)
start_queues nic n pools (true, log) =
    let log' = log ++ (start ∷ []) in
    if is_zero nic.started
    then (some (pools, nic.mac), log' ++ (macaddr ∷ []))
    else (none, log' ++ drop_pools pools)

unfoldable pub open_device :
    Nic → ℕ → Option (List ℕ) × List Call → Option (List ℕ × Bytes) × List Call
open_device nic n (none, log) = (none, log)
open_device nic n (some pools, log) =
    let log' = log ++ (configure n n ∷ []) in
    let log'' = log' ++ (adjust desc_num desc_num ∷ []) in
    if is_zero nic.configured
    then start_queues nic n pools (setup_queues nic pools n 0 log'')
    else (none, log' ++ drop_pools pools)

unfoldable pub probe_and_open : Nic → ℕ → Option (List ℕ × Bytes) × List Call
probe_and_open nic n_queues = open_device nic n_queues (create_pools nic n_queues 0 [] [])
