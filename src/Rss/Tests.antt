-- ===== src/Rss/Tests.antt =====
-- Runs of the steering model, and its theorems on one configuration of a device.
use miniosv_apps.Prelude.{
  ℕ, ◌+◌, ◌%◌, ◌<◌, ◌≡◌, refl, ◌↔◌, true, false, none, some, [], ◌∷◌, arith, min, get_or, length,
  replicate, take, Bytes, ◌==◌,
}
use miniosv_apps.Prelude.Ascending.{Ascending, shares}
use miniosv_apps.Prelude.Bits.{bit}
use miniosv_apps.Prelude.Int.{pos, negsuc, pos_part}
use miniosv_apps.Config.{Env}
use miniosv_apps.Rss.{
  RssState, key_bit, toeplitz_bit, toeplitz_byte, toeplitz_bytes, toeplitz, predict_queue,
  queue_for_local_port, eph_base, eph_len, owns_port, pick_from, ShimReply, load_reta,
  load_rss_config,
}
use miniosv_apps.Rss.BitString.{bits_of}
use miniosv_apps.Rss.Hash.{row_product, toeplitz-row_product}
use miniosv_apps.Rss.Owned.{hits}
use miniosv_apps.Rss.Steering.{owned_bitmap, owns_port-owned_bitmap}
use miniosv_apps.Rss.Chosen.{
  worker_ports, IsSteered, worker_ports-IsSteered, length-worker_ports, worker_ports_disjoint,
}
use miniosv_apps.Rss.Loading.{IsPower, load_rss_config_accepts, predict_queue-load_rss_config}

-- The key and the first IPv4 input of the verification suite that the RSS documentation gives.
abbrev suite_key : Bytes
suite_key =
    109 ∷ 90 ∷ 86 ∷ 218 ∷ 37 ∷ 91 ∷ 14 ∷ 194 ∷ 65 ∷ 103 ∷ 37 ∷ 61 ∷ 67 ∷ 163 ∷ 143 ∷ 176 ∷ 208 ∷ 202
    ∷ 43 ∷ 203 ∷ 174 ∷ 123 ∷ 48 ∷ 180 ∷ 119 ∷ 203 ∷ 45 ∷ 163 ∷ 128 ∷ 48 ∷ 242 ∷ 12 ∷ 106 ∷ 66 ∷ 183
    ∷ 59 ∷ 190 ∷ 172 ∷ 1 ∷ 250 ∷ []

abbrev suite_input : Bytes
suite_input = 66 ∷ 9 ∷ 149 ∷ 187 ∷ 161 ∷ 142 ∷ 100 ∷ 80 ∷ 10 ∷ 234 ∷ 6 ∷ 230 ∷ []

-- 0x51ccc178
toeplitz-suite_input : toeplitz suite_key suite_input ≡ 1372373368
unfolding toeplitz toeplitz_bytes toeplitz_byte toeplitz_bit key_bit
toeplitz-suite_input = refl

abbrev short_key : Bytes
short_key = 109 ∷ 90 ∷ 86 ∷ 218 ∷ 37 ∷ []

toeplitz-row_product_example :
    bit (toeplitz short_key (161 ∷ 7 ∷ [])) 28
    ≡ row_product (bits_of short_key) 3 (bits_of (161 ∷ 7 ∷ [])) % 2
toeplitz-row_product_example =
    toeplitz-row_product short_key (161 ∷ 7 ∷ []) 3 (omega arith) (omega arith) (omega arith)

-- A device with two queues: a key of 40 bytes and a table of two entries.
abbrev unset : RssState
unset = record {
  key = replicate 64 0;
  key_len = 0;
  reta = replicate 512 0;
  reta_len = 0;
  single_queue = false;
}

abbrev key_reply : ShimReply
key_reply = record { rc = pos 40; filled = suite_key }

abbrev reta_reply : ShimReply
reta_reply = record { rc = pos 2; filled = 0 ∷ 1 ∷ [] }

loads : (load_rss_config unset 2 key_reply reta_reply).1 ≡ true
unfolding load_rss_config load_reta
loads = refl

refuses_three :
    (load_rss_config unset 2 key_reply (record { rc = pos 3; filled = 0 ∷ 1 ∷ 0 ∷ [] })).1 ≡ false
unfolding load_rss_config load_reta
refuses_three = refl

refuses_no_key :
    (load_rss_config unset 2 (record { rc = negsuc 0; filled = [] }) reta_reply).1 ≡ false
unfolding load_rss_config load_reta
refuses_no_key = refl

load_rss_config_accepts_example :
    ((load_rss_config unset 2 key_reply reta_reply).1 ≡ true)
    ↔ ((0 < pos_part key_reply.rc) × ((k : ℕ) × IsPower reta_reply k))
load_rss_config_accepts_example = load_rss_config_accepts unset 2 key_reply reta_reply (omega arith)

predict_queue-load_rss_config_example :
    (predict_queue (load_rss_config unset 2 key_reply reta_reply).0 suite_input
      ≡ get_or reta_reply.filled (toeplitz (take 40 suite_key) suite_input % 2) 0)
    × (toeplitz (take 40 suite_key) suite_input % 2 < 2)
predict_queue-load_rss_config_example =
    predict_queue-load_rss_config unset 2 key_reply reta_reply suite_input (omega arith) refl
      (omega arith) (omega arith) loads

-- A build of the program, and its device.
abbrev env : Env
env = record {
  workers = none;
  conns = none;
  bucket_size = none;
  block_size = none;
  scheme = none;
  tls_stub = none;
  target_ip = some (b'1' ∷ b'.' ∷ b'2' ∷ b'.' ∷ b'3' ∷ b'.' ∷ b'4' ∷ []);
}

abbrev device : RssState
device = record unset { key = suite_key; key_len = 40; reta = 0 ∷ 1 ∷ []; reta_len = 2 }

abbrev our_ip : Bytes
our_ip = 172 ∷ 31 ∷ 0 ∷ 9 ∷ []

owns_port-owned_bitmap_example :
    (owns_port (owned_bitmap env device our_ip 1) (eph_base + 5) ≡ true)
    ↔ (queue_for_local_port env device our_ip (eph_base + 5) ≡ 1)
owns_port-owned_bitmap_example = owns_port-owned_bitmap env device our_ip 1 5 (omega arith)

worker_ports-IsSteered_example :
    Ascending
      (IsSteered env device our_ip 1)
      eph_base
      (eph_base + eph_len)
      (worker_ports env device our_ip 1 24)
worker_ports-IsSteered_example = worker_ports-IsSteered env device our_ip 1 24

length-worker_ports_example :
    length (worker_ports env device our_ip 1 24)
    ≡ min 24 (hits (λ i. queue_for_local_port env device our_ip (eph_base + i) == 1) eph_len 0)
length-worker_ports_example = length-worker_ports env device our_ip 1 24 (omega arith)

worker_ports_disjoint_example :
    shares (worker_ports env device our_ip 0 24) (worker_ports env device our_ip 1 24) ≡ false
worker_ports_disjoint_example = worker_ports_disjoint env device our_ip 0 1 24 (omega arith)

-- Ports 49153 and 49155 are owned; every one of them, and every second.
picks :
    (pick_from (10 ∷ []) 24 1 8 0 0 [] ≡ 49153 ∷ 49155 ∷ [])
    × (pick_from (10 ∷ []) 24 2 8 0 0 [] ≡ 49153 ∷ [])
    × (pick_from (10 ∷ []) 1 1 8 0 0 [] ≡ 49153 ∷ [])
unfolding pick_from owns_port
picks = (refl, refl, refl)
