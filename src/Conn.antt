-- ===== src/Conn.antt =====
-- One step of a connection: `conn_step` of bench/smoltcp-s3/src/lib.rs (lines 940-990, 1033-1181).
-- What the socket, rustls and the clock answer during the step is the record `Answers`.
pub mod Kept
pub mod Step
pub mod Settled
pub mod Unread
pub mod Plain
pub mod Life
mod Tests
use miniosv_apps.Prelude.{
  ℕ, zero, suc, ◌+◌, ◌-◌, ◌*◌, ◌%◌, ◌^◌, Bool, true, false, ◌&&◌, ◌||◌, not, Option, none, some,
  List, [], ◌∷◌, ◌++◌, ltb, ◌==◌, if◌then◌else◌, length, take, drop, replicate, u64, Bytes,
}
use miniosv_apps.Http.{Tally, StatusCounters, count_body}

-- `tcp::State`
pub data TcpState : Type 0 where
  closed listen syn_sent syn_received established fin_wait1 fin_wait2 close_wait closing last_ack
        time_wait :
      TcpState

abbrev pub is_established : TcpState → Bool
is_established established = true
is_established _ = false

abbrev pub is_syn_sent : TcpState → Bool
is_syn_sent syn_sent = true
is_syn_sent _ = false

-- The `matches!` at the end of the step.
abbrev pub is_ended : TcpState → Bool
is_ended closed = true
is_ended close_wait = true
is_ended time_wait = true
is_ended _ = false

-- What `process_tls_records` asks for, and what the call that follows returns: the results of
-- `next_record` in order, of `encode`, of `encrypt` (`none` is an error).
pub data TlsState : Type 0 where
  tls_error : TlsState
  read_traffic : List (Option Bytes) → TlsState
  encode_tls_data : Option Bytes → TlsState
  transmit_tls_data : TlsState
  write_traffic : Option Bytes → TlsState
  other_state : TlsState

-- `UnbufferedStatus`
pub record TlsAnswer : Type 0 where
  pub discard : ℕ
  pub state : TlsState

-- The answers that one step reads, each at the place where the code asks. A list of `recv` ends where
-- `can_recv` is false, and one of rustls where it makes no more progress.
pub record Answers : Type 0 where
  pub now_ms : ℕ
  pub state : TcpState
  pub may_send : Bool
  pub can_send : Bool
  pub send_slice : Option ℕ
  pub recvs : List (Option Bytes)
  pub tls : List TlsAnswer
  pub state_after : TcpState
  pub can_recv_after : Bool

-- `Conn`, with the fields of `count_body` as the record `Tally` and of `tls` whether there is one.
pub record Conn : Type 0 where
  pub has_tls : Bool
  pub incoming : Bytes
  pub outgoing : Bytes
  pub request : Bytes
  pub request_queued : Bool
  pub handshake_done : Bool
  pub tally : Tally
  pub done : Bool
  pub connect_start_ms : ℕ
  pub queue_id : ℕ
  pub src_port : ℕ
  pub expected : ℕ
  pub closed_cleanly : Bool
  pub attempts : ℕ
  pub settled : Bool
  pub start_ms : ℕ

-- CONNS_ESTABLISHED, CONNS_FAILED, SYN_RETRIES, SETUP_MS_TOTAL, and those of `count_body`
pub record Counters : Type 0 where
  pub conns_established : ℕ
  pub conns_failed : ℕ
  pub syn_retries : ℕ
  pub setup_ms_total : ℕ
  pub http : StatusCounters

abbrev pub syn_timeout_ms : ℕ
syn_timeout_ms = 5000

abbrev pub tls_buf_cap : ℕ
tls_buf_cap = 256 * 1024

abbrev pub is_empty : Bytes → Bool
is_empty [] = true
is_empty (_ ∷ _) = false

-- The first branch: the connection has left SynSent for Established.
unfoldable pub settle : Answers → Conn → Counters → Conn × Counters
settle a c g =
    if not c.settled && is_established a.state
    then (
      record c { settled = true },
      record g {
        syn_retries = u64 (g.syn_retries + (c.attempts - 1));
        setup_ms_total = u64 (g.setup_ms_total + (a.now_ms - c.start_ms));
        conns_established = u64 (g.conns_established + 1);
      },
    )
    else (c, g)

unfoldable pub syn_timed_out : Answers → Conn → Bool
syn_timed_out a c = is_syn_sent a.state && ltb syn_timeout_ms (a.now_ms - c.connect_start_ms)

-- The branch of the timeout.
unfoldable pub give_up : Answers → Conn → Counters → Conn × Counters
give_up a c g =
    if not c.settled
    then (
      record c { settled = true; done = true },
      record g {
        conns_failed = u64 (g.conns_failed + 1);
        setup_ms_total = u64 (g.setup_ms_total + (a.now_ms - c.start_ms));
      },
    )
    else (record c { done = true }, g)

-- Without TLS the request goes out as soon as the socket may send.
unfoldable pub queue_request : Bool → Answers → Conn → Conn
queue_request plain a c =
    if plain && not c.request_queued && a.may_send
    then record c {
      outgoing = c.outgoing ++ c.request;
      request_queued = true;
      handshake_done = true;
    }
    else c

-- How many bytes `send_slice` takes, where it is called.
unfoldable pub taken : Answers → Conn → ℕ
taken a c =
    if not (is_empty c.outgoing) && a.can_send
    then elim a.send_slice [ none ↦ 0 | some n ↦ n ]
    else 0

-- The loop over `recv`.
unfoldable pub drain_socket : Bytes → List (Option Bytes) → Bytes
drain_socket incoming [] = incoming
drain_socket incoming (none ∷ more) = incoming
drain_socket incoming (some [] ∷ more) = incoming
drain_socket incoming (some (b ∷ bs) ∷ more) = drain_socket (incoming ++ (b ∷ bs)) more

-- The stub counts ciphertext and throws it away.
unfoldable pub stub_count : Bool → Conn → Conn
stub_count stub c =
    if stub && c.handshake_done && c.request_queued
    then record c {
      tally = record c.tally { bytes = u64 (c.tally.bytes + length c.incoming) };
      incoming = [];
    }
    else c

unfoldable pub plain_count : Bool → Conn → StatusCounters → Conn × StatusCounters
plain_count plain c g =
    let (t, g') = count_body c.tally g c.incoming in
    if plain && not (is_empty c.incoming)
    then (record c { tally = t; incoming = [] }, g')
    else (c, g)

-- How the body of the TLS loop ends: by `break`, or at the end with `progress` false or true.
pub data Flow : Type 0 where
  broke idle progressed : Flow

-- The loop over `next_record`.
unfoldable pub read_records : Conn → StatusCounters → List (Option Bytes) → Conn × StatusCounters
read_records c g [] = (c, g)
read_records c g (none ∷ more) = (record c { done = true }, g)
read_records c g (some payload ∷ more) =
    let (t, g') = count_body c.tally g payload in read_records (record c { tally = t }) g' more

-- `Vec::resize` with zeros
abbrev pub resize : ℕ → Bytes → Bytes
resize n xs = take n xs ++ replicate (n - length xs) 0

-- The `match st`. A failing `encode` or `encrypt` leaves the zeros behind that the buffer was given.
unfoldable pub handle : Conn → StatusCounters → TlsState → Conn × StatusCounters × Flow
handle c g tls_error = (record c { done = true }, g, broke)
handle c g (read_traffic records) = let (c', g') = read_records c g records in (c', g', progressed)
handle c g (encode_tls_data none) =
    (record c { outgoing = resize tls_buf_cap c.outgoing; done = true }, g, broke)
handle c g (encode_tls_data (some bytes)) =
    (record c { outgoing = c.outgoing ++ bytes }, g, progressed)
handle c g transmit_tls_data = (c, g, progressed)
handle c g (write_traffic encrypted) =
    if c.request_queued then (record c { handshake_done = true }, g, idle) else elim encrypted [
      | none ↦ (
        record c {
          handshake_done = true;
          outgoing = resize (length c.outgoing + length c.request + 128) c.outgoing;
          done = true;
        },
        g,
        broke,
      )
      | some bytes ↦ (
        record c { handshake_done = true; outgoing = c.outgoing ++ bytes; request_queued = true },
        g,
        progressed,
      )
    ]
handle c g other_state = (c, g, idle)

-- `conn.incoming.drain(..discard)`
abbrev pub discarded : ℕ → Conn → Conn
discarded n c = record c { incoming = drop n c.incoming }

-- `while progress`, where there is a TLS session.
unfoldable pub pump : Conn → StatusCounters → List TlsAnswer → Conn × StatusCounters
pump c g [] = (c, g)
pump c g (a ∷ more) =
    let (c', g', flow) = handle c g a.state in
    let rest = pump (discarded a.discard c') g' more in
    elim flow as (λ _. Conn × StatusCounters) [
      | broke ↦ (c', g')
      | idle ↦ (discarded a.discard c', g')
      | progressed ↦ rest
    ]

-- The end of the step.
unfoldable pub finish : Answers → Conn → Conn
finish a c =
    if c.handshake_done
      && c.request_queued
      && is_ended a.state_after
      && is_empty c.outgoing
      && not a.can_recv_after
    then record c { closed_cleanly = true; done = true }
    else c

-- What comes behind the timeout, up to the TLS loop, and the bytes that the socket took.
unfoldable pub exchange :
    Bool → Bool → Answers → Conn → StatusCounters → (Conn × StatusCounters) × Bytes
exchange plain stub a c g =
    let c₁ = queue_request plain a c in
    let n = taken a c₁ in
    let c₂ = record c₁ {
      outgoing = drop n c₁.outgoing;
      incoming = drain_socket c₁.incoming a.recvs;
    } in
    (plain_count plain (stub_count stub c₂) g, take n c₁.outgoing)

-- The same with the TLS loop.
unfoldable pub work :
    Bool → Bool → Answers → Conn → StatusCounters → (Conn × StatusCounters) × Bytes
work plain stub a c g =
    let ((c', g'), sent) = exchange plain stub a c g in
    (if not plain && c'.has_tls then pump c' g' a.tls else (c', g'), sent)

-- `plain` is PLAIN_HTTP, `stub` is STUB_TLS_AFTER_HANDSHAKE. The result is the connection, the
-- counters, the bytes that went out, and what the code returns.
unfoldable pub conn_step :
    Bool → Bool → Answers → Conn → Counters → (Conn × Counters) × (Bytes × Bool)
conn_step plain stub a c g =
    if c.done
    then ((c, g), ([], true))
    else (let (c₁, g₁) = settle a c g in
        if syn_timed_out a c₁
        then (give_up a c₁ g₁, ([], true))
        else (let ((c₂, h₂), sent) = work plain stub a c₁ g₁.http in
            let c₃ = finish a c₂ in ((c₃, record g₁ { http = h₂ }), (sent, c₃.done))))
