-- ===== src/Http.antt =====
-- The HTTP side of bench/smoltcp-s3/src/lib.rs: `count_body` (lines 992-1031), which reads the
-- response, and `BufWriter` and `build_range_request` (lines 100-126, 836-856), which write the request.
pub mod HeaderEnd
pub mod Counting
pub mod Status
pub mod Request
mod Tests
use Prim.Native.Char.{code}
use Prim.Native.String.{String}
use miniosv_apps.Prelude.{
  ℕ, zero, suc, ◌+◌, ◌-◌, ◌*◌, ◌%◌, ◌^◌, min, Bool, true, false, not, ◌&&◌, List, [], ◌∷◌, ◌++◌,
  ltb, leb, ◌==◌, if◌then◌else◌, length, take, u16, u64, Bytes, is_digit, decimal,
}

-- The fields of a connection that `count_body` is lent.
pub record Tally : Type 0 where
  pub bytes : ℕ
  pub headers_done : Bool
  pub hdr_state : ℕ
  pub status : ℕ
  pub status_pos : ℕ

-- A connection before its first byte.
abbrev pub fresh_tally : Tally
fresh_tally = record { bytes = 0; headers_done = false; hdr_state = 0; status = 0; status_pos = 0 }

-- The atomics `BAD_STATUS` and `FIRST_BAD_STATUS`.
pub record StatusCounters : Type 0 where
  pub bad_status : ℕ
  pub first_bad_status : ℕ

-- The `match (*hdr_state, b)`.
unfoldable pub next_hdr_state : ℕ → ℕ → ℕ
next_hdr_state s b =
    if s == 0 && b == b'\r'
    then 1
    else if s == 1 && b == b'\n'
    then 2
    else if s == 2 && b == b'\r'
    then 3
    else if s == 3 && b == b'\n'
    then 4
    else if b == b'\r'
    then 1
    else 0

-- The status digits: `status_pos` stops at 12, so its `u8` does not wrap.
unfoldable pub count_status : Tally → ℕ → Tally
count_status t b =
    if ltb t.status_pos 12
    then record t {
      status =
          if leb 9 t.status_pos && is_digit b
          then u16 (u16 (t.status * 10) + (b - b'0'))
          else t.status;
      status_pos = t.status_pos + 1;
    }
    else t

-- The body of the loop up to the test for the end of the header.
unfoldable pub count_byte : Tally → ℕ → Tally
count_byte t b =
    let t' = count_status t b in record t' { hdr_state = next_hdr_state t'.hdr_state b }

-- `fetch_add`, and `compare_exchange(0, status)`
unfoldable pub note_status : StatusCounters → ℕ → StatusCounters
note_status g status = if status == 206 then g else record {
  bad_status = u64 (g.bad_status + 1);
  first_bad_status = if g.first_bad_status == 0 then status else g.first_bad_status;
}

-- The loop over the bytes of a record.
unfoldable pub count_header : Tally → StatusCounters → Bytes → Tally × StatusCounters
count_header t g [] = (t, g)
count_header t g (b ∷ rest) =
    let t' = count_byte t b in
    let done : Tally × StatusCounters = (
      record t' { headers_done = true; bytes = u64 (t'.bytes + length rest) },
      note_status g t'.status,
    ) in
    let more = count_header t' g rest in if t'.hdr_state == 4 then done else more

unfoldable pub count_body : Tally → StatusCounters → Bytes → Tally × StatusCounters
count_body t g input =
    if t.headers_done
    then (record t { bytes = u64 (t.bytes + length input) }, g)
    else count_header t g input

-- The records of a connection, one call each.
unfoldable pub count_records : Tally → StatusCounters → List Bytes → Tally × StatusCounters
count_records t g [] = (t, g)
count_records t g (r ∷ rs) = let (t', g') = count_body t g r in count_records t' g' rs

-- `BufWriter`: the size of the buffer, and the bytes written so far (`used` is their number).
pub record BufWriter : Type 0 where
  pub size : ℕ
  pub written : Bytes

-- `write_str` keeps what fits and drops the rest.
unfoldable pub write_str : BufWriter → Bytes → BufWriter
write_str w s = record w {
  written = w.written ++ take (min (length s) (w.size - length w.written)) s;
}

-- `write!` makes one call for each piece of the format.
unfoldable pub write_all : BufWriter → List Bytes → BufWriter
unfolding write_str
write_all w [] = w
write_all w (s ∷ ss) = write_all (write_str w s) ss

-- The code points of a text; every literal below is ASCII.
abbrev pub codes : String → Bytes
codes String.[] = []
codes (String.◌∷◌ c s) = code c ∷ codes s

-- `TARGET_PATH`, and `TARGET_HOST` for the values of AWS_BUCKET and AWS_REGION.
abbrev pub target_path : Bytes
target_path = codes "/blob.bin"

unfoldable pub target_host : Bytes → Bytes → Bytes
target_host bucket region = bucket ++ (codes ".s3." ++ (region ++ codes ".amazonaws.com"))

-- The pieces of the request's format.
unfoldable pub request_pieces : Bytes → ℕ → ℕ → List Bytes
request_pieces host start end_inclusive =
    codes "GET "
    ∷ target_path
    ∷ codes " HTTP/1.1\r\nHost: "
    ∷ host
    ∷ codes "\r\nUser-Agent: minidpdk-smoltcp/0.1\r\nRange: bytes="
    ∷ decimal start
    ∷ codes "-"
    ∷ decimal end_inclusive
    ∷ codes "\r\nConnection: close\r\n\r\n"
    ∷ []

-- The bytes of the buffer up to the returned `used`; the buffer has `size` bytes.
unfoldable pub build_range_request : Bytes → ℕ → ℕ → ℕ → Bytes
build_range_request host size start end_inclusive =
    (write_all (record { size = size; written = [] })
      (request_pieces host start end_inclusive)).written
