-- ===== src/Config.antt =====
-- The compile-time configuration of bench/smoltcp-s3/src/lib.rs (lines 310-435, 820-835): the
-- parsers of the `BENCH_*` and `AWS_*` variables and the constants made of them.
-- The functions are `const fn`s of a crate that is built in release mode, so `u64` products wrap.
pub mod Size
pub mod Address
pub mod Accepted
mod Tests
use miniosv_apps.Prelude.{
  ℕ, ◌+◌, ◌-◌, ◌*◌, ◌%◌, ◌^◌, ◌≡◌, Bool, true, false, ◌&&◌, ◌||◌, not, Option, none, some, List, [],
  ◌∷◌, ltb, leb, ◌==◌, if◌then◌else◌, set, u8, u16, u32, u64, Bytes, is_digit,
}

-- `Option<&str>`, the value of `option_env!`; a text is its bytes.
abbrev pub Var : Type 0
Var = Option Bytes

-- The multiplier of a suffix letter; `none` is the branch that returns the default.
unfoldable pub suffix_mult : ℕ → Option ℕ
suffix_mult c =
    if c == b'K' || c == b'k'
    then some 1024
    else if c == b'M' || c == b'm'
    then some (1024 * 1024)
    else if c == b'G' || c == b'g'
    then some (1024 * 1024 * 1024)
    else if c == b'T' || c == b't'
    then some (1024 * 1024 * 1024 * 1024)
    else if c == b'B' || c == b'b' || c == b'i' || c == b'I'
    then some 1
    else none

-- The loop of `parse_size`, from value `v` on.
unfoldable pub parse_size_from : ℕ → ℕ → Bytes → ℕ
unfolding suffix_mult
parse_size_from default v [] = v
parse_size_from default v (c ∷ cs) =
    if is_digit c
    then parse_size_from default (u64 (u64 (v * 10) + (c - b'0'))) cs
    else elim (suffix_mult c) [ none ↦ default | some mult ↦ u64 (v * mult) ]

unfoldable pub parse_size : Var → ℕ → ℕ
unfolding parse_size_from
parse_size none default = default
parse_size (some []) default = default
parse_size (some (c ∷ cs)) default = parse_size_from default 0 (c ∷ cs)

pub parse_bool : Var → Bool → Bool
parse_bool none default = default
parse_bool (some []) default = default
parse_bool (some (c ∷ cs)) default =
    if c == b'1' || c == b't' || c == b'T' || c == b'y' || c == b'Y'
    then true
    else if c == b'0' || c == b'f' || c == b'F' || c == b'n' || c == b'N'
    then false
    else default

-- `bytes_eq`: unequal lengths differ, else byte by byte.
unfoldable pub bytes_eq : Bytes → Bytes → Bool
bytes_eq [] [] = true
bytes_eq [] (y ∷ ys) = false
bytes_eq (x ∷ xs) [] = false
bytes_eq (x ∷ xs) (y ∷ ys) = if x == y then bytes_eq xs ys else false

abbrev pub http_text : Bytes
http_text = b'h' ∷ b't' ∷ b't' ∷ b'p' ∷ []

abbrev pub https_text : Bytes
https_text = b'h' ∷ b't' ∷ b't' ∷ b'p' ∷ b's' ∷ []

pub is_http : Var → Bool
unfolding bytes_eq
is_http none = false
is_http (some b) = bytes_eq b http_text

pub scheme_ok : Var → Bool
unfolding bytes_eq
scheme_ok none = true
scheme_ok (some []) = true
scheme_ok (some (c ∷ cs)) = bytes_eq (c ∷ cs) http_text || bytes_eq (c ∷ cs) https_text

abbrev pub zero_address : Bytes
zero_address = 0 ∷ 0 ∷ 0 ∷ 0 ∷ []

-- The loop of `parse_ipv4` and the lines after it: `out`, `oct`, `acc` and `seen` are its variables.
pub parse_ipv4_from : Bytes → ℕ → ℕ → Bool → Bytes → Bytes
parse_ipv4_from out oct acc seen [] =
    if not seen || not (oct == 3) then zero_address else set out 3 (u8 acc)
parse_ipv4_from out oct acc seen (c ∷ cs) =
    let acc' = u32 (u32 (acc * 10) + (c - b'0')) in
    let digit = parse_ipv4_from out oct acc' true cs in
    let dot = parse_ipv4_from (set out oct (u8 acc)) (oct + 1) 0 false cs in
    if is_digit c
    then (if ltb 255 acc' then zero_address else digit)
    else if c == b'.'
    then (if not seen || leb 3 oct then zero_address else dot)
    else zero_address

pub parse_ipv4 : Var → Bytes
unfolding parse_ipv4_from
parse_ipv4 none = zero_address
parse_ipv4 (some b) = parse_ipv4_from zero_address 0 0 false b

-- The variables that the build reads.
pub record Env : Type 0 where
  pub workers : Var
  pub conns : Var
  pub bucket_size : Var
  pub block_size : Var
  pub scheme : Var
  pub tls_stub : Var
  pub target_ip : Var

-- `N_WORKERS_REQ`, `CONNS_PER_WORKER`, `OBJECT_SIZE`, `BLOCK_SIZE`
unfoldable pub n_workers_req : Env → ℕ
unfolding parse_size
n_workers_req env = u16 (parse_size env.workers 8)

unfoldable pub conns_per_worker : Env → ℕ
unfolding parse_size
conns_per_worker env = parse_size env.conns 24

unfoldable pub object_size : Env → ℕ
unfolding parse_size
object_size env = parse_size env.bucket_size (10 * 1024 * 1024 * 1024)

unfoldable pub block_size : Env → ℕ
unfolding parse_size
block_size env = parse_size env.block_size (64 * 1024 * 1024)

-- `PLAIN_HTTP`, `STUB_TLS_AFTER_HANDSHAKE`, `TARGET_IP`, `TARGET_PORT`
unfoldable pub plain_http : Env → Bool
unfolding is_http
plain_http env = is_http env.scheme

unfoldable pub stub_tls_after_handshake : Env → Bool
unfolding parse_bool plain_http
stub_tls_after_handshake env = parse_bool env.tls_stub false && not (plain_http env)

unfoldable pub target_ip : Env → Bytes
unfolding parse_ipv4
target_ip env = parse_ipv4 env.target_ip

unfoldable pub target_port : Env → ℕ
unfolding plain_http
target_port env = if plain_http env then 80 else 443

-- The two compile-time assertions: a build exists only where both hold.
unfoldable pub builds : Env → Bool
unfolding scheme_ok target_ip bytes_eq
builds env = scheme_ok env.scheme && not (bytes_eq (target_ip env) zero_address)
