-- ===== src/Plan.antt =====
-- The plan of a run in bench/smoltcp-s3/src/lib.rs: the guards and the clamp of `osv_app_main` (lines
-- 1476-1496), the blocks of its workers (1519-1539), and the connections that `worker_thread` opens
-- (1300-1356). The constants of the build come from `Config`; what `connect` and rustls answer for
-- connection `i` are arguments.
pub mod Blocks
pub mod Opened
mod Tests
use miniosv_apps.Prelude.{
  ℕ, zero, suc, ◌+◌, ◌-◌, ◌*◌, ◌%◌, ◌^◌, min, Bool, true, false, not, ◌&&◌, ◌||◌, Option, none,
  some, List, [], ◌∷◌, ◌==◌, if◌then◌else◌, length, get_or, map, u64, Bytes,
}
use miniosv_apps.Config.{Env, n_workers_req, conns_per_worker, object_size, block_size, plain_http}
use miniosv_apps.Http.{build_range_request}

-- `main` goes on only where none of the four is zero.
unfoldable pub is_configured : Env → Bool
is_configured env = not (
    object_size env == 0
    || block_size env == 0
    || conns_per_worker env == 0
    || n_workers_req env == 0)

-- The workers that a device with these maxima gets.
unfoldable pub clamp_workers : ℕ → ℕ → ℕ → ℕ
clamp_workers requested max_rx max_tx =
    let dev_max = min max_rx max_tx in if dev_max == 0 then requested else min requested dev_max

-- `first_block` of worker `i`
unfoldable pub first_block : ℕ → ℕ → ℕ
first_block conns i = u64 (i * conns)

-- `start`, `end` and `expected` of a block; `u64` wraps.
unfoldable pub block_start : ℕ → ℕ → ℕ → ℕ
block_start object size block =
    let stride = u64 (object - size + 1) in if stride == 0 then 0 else u64 (block * size) % stride

unfoldable pub block_end : ℕ → ℕ → ℕ
block_end size start = u64 (u64 (start + size) + (2 ^ 64 - 1))

unfoldable pub range_bytes : ℕ → ℕ → ℕ
range_bytes start end_inclusive = u64 (u64 (end_inclusive + (2 ^ 64 - start)) + 1)

-- What a new connection is asked for.
pub record Request : Type 0 where
  pub src_port : ℕ
  pub start : ℕ
  pub end_inclusive : ℕ
  pub text : Bytes
  pub expected : ℕ

unfoldable pub request : Env → Bytes → ℕ → ℕ → Request
request env host block src_port =
    let start = block_start (object_size env) (block_size env) block in
    let end_inclusive = block_end (block_size env) start in
    record {
      src_port = src_port;
      start = start;
      end_inclusive = end_inclusive;
      text = build_range_request host 384 start end_inclusive;
      expected = range_bytes start end_inclusive;
    }

-- `conns.push`, unless the worker ends later.
abbrev pub prepend : Request → Option (List Request) → Option (List Request)
prepend r none = none
prepend r (some rs) = some (r ∷ rs)

-- The loop over the connections, with `left` to go from `i`: a socket that refuses is passed over, and
-- a session that rustls refuses ends the worker.
unfoldable pub open_from :
    Env → Bytes → (ℕ → Bool) → (ℕ → Bool) → ℕ → List ℕ → ℕ → ℕ → Option (List Request)
open_from env host connect session first ports zero i = some []
open_from env host connect session first ports (suc left) i =
    let rest = open_from env host connect session first ports left (i + 1) in
    if not (connect i)
    then rest
    else if plain_http env || session i
    then prepend (request env host (u64 (first + i)) (get_or ports i 0)) rest
    else none

-- `fault` is FAULT_ABANDON_CONNS, which is 0 but in a test of the completeness check.
unfoldable pub open_conns :
    Env → Bytes → (ℕ → Bool) → (ℕ → Bool) → ℕ → List ℕ → ℕ → Option (List Request)
open_conns env host connect session first ports fault =
    open_from env host connect session first ports
      (min (conns_per_worker env) (length ports) - fault) 0
