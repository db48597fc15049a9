-- ===== src/Rss.antt =====
-- The RSS steering model of bench/smoltcp-s3/src/lib.rs, lines 462-603, and the choice of source
-- ports in `worker_thread`, lines 1276-1293. The `static mut` configuration is the record `RssState`.
pub mod BitString
pub mod Hash
pub mod Steering
pub mod Owned
pub mod Stride
pub mod Chosen
pub mod Loading
mod Tests
use miniosv_apps.Prelude.{
  ℕ, zero, suc, ◌+◌, ◌-◌, ◌*◌, ◌/◌, ◌%◌, ◌^◌, ◌≡◌, bit_and, bit_or, bit_xor, Bool, true, false, not,
  Option, none, some, List, [], ◌∷◌, ◌++◌, ltb, leb, ◌==◌, if◌then◌else◌, length, get_or, set, take,
  drop, max, u8, u16, u32, ◌<<<◌, ◌>>>◌, Bytes, be_bytes16,
}
use miniosv_apps.Prelude.Int.{ℤ, pos, pos_part, leb_ℤ}
use miniosv_apps.Config.{Env, target_ip, target_port}

-- `RSS_KEY`, `RSS_KEY_LEN`, `RSS_RETA`, `RSS_RETA_LEN`, `SINGLE_QUEUE`
pub record RssState : Type 0 where
  pub key : Bytes
  pub key_len : ℕ
  pub reta : List ℕ
  pub reta_len : ℕ
  pub single_queue : Bool

-- The local variables of `toeplitz`.
pub record Window : Type 0 where
  pub result : ℕ
  pub w : ℕ
  pub next_bit : ℕ

-- Bit `next_bit` of the key, and 0 past its end. The index lies in the key where it is read.
pub key_bit : Bytes → ℕ → ℕ
key_bit key next_bit =
    if ltb next_bit (length key * 8)
    then bit_and (get_or key (next_bit / 8) 0 >>> (7 - next_bit % 8)) 1
    else 0

-- One round of the inner loop, at bit `b` of `byte`.
pub toeplitz_bit : Bytes → ℕ → ℕ → Window → Window
unfolding key_bit
toeplitz_bit key byte b s = record {
  result = if bit_and (byte >>> b) 1 == 1 then bit_xor s.result s.w else s.result;
  w = bit_or (u32 (s.w <<< 1)) (key_bit key s.next_bit);
  next_bit = s.next_bit + 1;
}

-- `for b in (0..8).rev()`, with `b` rounds left.
pub toeplitz_byte : Bytes → ℕ → ℕ → Window → Window
unfolding toeplitz_bit
toeplitz_byte key byte zero s = s
toeplitz_byte key byte (suc b) s = toeplitz_byte key byte b (toeplitz_bit key byte b s)

pub toeplitz_bytes : Bytes → Bytes → Window → Window
unfolding toeplitz_byte
toeplitz_bytes key [] s = s
toeplitz_bytes key (byte ∷ rest) s = toeplitz_bytes key rest (toeplitz_byte key byte 8 s)

-- `u32::from_be_bytes` of the first four bytes
abbrev pub first_window : Bytes → ℕ
first_window key =
    get_or key 0 0 * 2 ^ 24 + get_or key 1 0 * 2 ^ 16 + get_or key 2 0 * 2 ^ 8 + get_or key 3 0

unfoldable pub toeplitz : Bytes → Bytes → ℕ
unfolding toeplitz_bytes
toeplitz key input =
    if ltb (length key) 4
    then 0
    else (toeplitz_bytes key input
        (record { result = 0; w = first_window key; next_bit = 32 })).result

-- (An index past the 512 entries of the table would panic.)
unfoldable pub predict_queue : RssState → Bytes → ℕ
predict_queue st tuple =
    if st.single_queue
    then 0
    else if st.key_len == 0
    then 2 ^ 16 - 1
    else if st.reta_len == 0
    then 2 ^ 16 - 1
    else get_or st.reta (bit_and (toeplitz (take st.key_len st.key) tuple) (st.reta_len - 1)) 0

unfoldable pub queue_for_local_port : Env → RssState → Bytes → ℕ → ℕ
queue_for_local_port env st our_ip local_port =
    predict_queue st
      (target_ip env ++ (our_ip ++ (be_bytes16 (target_port env) ++ be_bytes16 local_port)))

abbrev pub eph_base : ℕ
eph_base = 49152

abbrev pub eph_len : ℕ
eph_len = 16384

abbrev pub owned_bitmap_bytes : ℕ
owned_bitmap_bytes = eph_len / 8

-- `bitmap[i / 8] |= 1 << (i % 8)`
pub mark : Bytes → ℕ → Bytes
mark bitmap i = set bitmap (i / 8) (bit_or (get_or bitmap (i / 8) 0) (u8 (1 <<< (i % 8))))

-- The loop of `build_owned_ports`, with `left` rounds to go from index `i`; `queue` is
-- `queue_for_local_port our_ip`.
unfoldable pub build_from : (ℕ → ℕ) → ℕ → ℕ → ℕ → Bytes → ℕ → Bytes × ℕ
unfolding mark
build_from queue queue_id zero i bitmap count = (bitmap, count)
build_from queue queue_id (suc left) i bitmap count =
    let port = u16 (eph_base + u16 i) in
    let hit = queue port == queue_id in
    build_from queue queue_id left (i + 1) (if hit then mark bitmap i else bitmap)
      (if hit then u32 (count + 1) else count)

-- The bitmap and the count.
unfoldable pub build_owned_ports : Env → RssState → Bytes → ℕ → Bytes → Bytes × ℕ
build_owned_ports env st our_ip queue_id bitmap =
    build_from (queue_for_local_port env st our_ip) queue_id eph_len 0 bitmap 0

unfoldable pub owns_port : Bytes → ℕ → Bool
owns_port bitmap port =
    if ltb port eph_base
    then true
    else (let i = port - eph_base in
        not (bit_and (get_or bitmap (i / 8) 0) (u8 (1 <<< (i % 8))) == 0))

-- The loop of `worker_thread` that collects `my_ports`; `limit` is CONNS_PER_WORKER.
unfoldable pub pick_from : Bytes → ℕ → ℕ → ℕ → ℕ → ℕ → List ℕ → List ℕ
unfolding owns_port
pick_from bitmap limit stride zero i seen ports = ports
pick_from bitmap limit stride (suc left) i seen ports =
    let port = u16 (eph_base + u16 i) in
    let more =
      pick_from bitmap limit stride left (i + 1) (if owns_port bitmap port then seen + 1 else seen)
        (if owns_port bitmap port
          then (if seen % stride == 0 then ports ++ (port ∷ []) else ports)
          else ports) in
    if length ports == limit then ports else more

-- `my_ports`, for the bitmap and the count of `build_owned_ports`. (`/` by 0 panics in Rust; `main`
-- refuses a CONNS_PER_WORKER of 0.)
unfoldable pub pick_ports : Bytes → ℕ → ℕ → List ℕ
pick_ports bitmap owned_count limit =
    pick_from bitmap limit (max 1 (owned_count / limit)) eph_len 0 0 []

-- What `shim_rss_hash_key` and `shim_rss_reta` return: a code, and the array that they filled.
pub record ShimReply : Type 0 where
  pub rc : ℤ
  pub filled : List ℕ

-- `dst[..n].copy_from_slice(&src[..n])`
abbrev pub copy_prefix {ℓ} : {A : Type ℓ} → ℕ → List A → List A → List A
copy_prefix n src dst = take n src ++ drop n dst

-- The tail of `load_rss_config`, behind the key.
unfoldable pub load_reta : RssState → ShimReply → RssState × Bool
load_reta st reply =
    if leb_ℤ reply.rc (pos 0)
    then (st, false)
    else (let n = pos_part reply.rc in
        if not (bit_and n (n - 1) == 0)
        then (st, false)
        else (record st { reta = copy_prefix n reply.filled st.reta; reta_len = n }, true))

-- `load_rss_config`: the new configuration, and whether it can be used.
unfoldable pub load_rss_config : RssState → ℕ → ShimReply → ShimReply → RssState × Bool
load_rss_config st n_queues key_reply reta_reply =
    if n_queues == 1
    then (record st { single_queue = true }, true)
    else if leb_ℤ key_reply.rc (pos 0)
    then (st, false)
    else (let n = pos_part key_reply.rc in
        load_reta (record st { key = copy_prefix n key_reply.filled st.key; key_len = n })
          reta_reply)
