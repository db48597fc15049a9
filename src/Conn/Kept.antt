-- ===== src/Conn/Kept.antt =====
-- What a step keeps of a connection, part by part.
use miniosv_apps.Prelude.{
  ℕ, ◌+◌, ◌≡◌, refl, ◌∙◌, inl, inr, Bool, true, false, ◌&&◌, ◌||◌, not, Option, none, some, List,
  [], ◌∷◌, ◌++◌, Bool-cases, if◌then◌else◌, length, Bytes,
}
use miniosv_apps.Http.{Tally, StatusCounters, count_body}
use miniosv_apps.Conn.{
  TlsState, tls_error, read_traffic, encode_tls_data, transmit_tls_data, write_traffic, other_state,
  TlsAnswer, Answers, Conn, Counters, settle, syn_timed_out, give_up, queue_request, drain_socket,
  stub_count, plain_count, resize, Flow, broke, idle, progressed, read_records, handle, discarded,
  pump, exchange, work,
}

-- What identifies a connection, and what only the end of a step may change.
pub record Fixed : Type 0 where
  pub request : Bytes
  pub expected : ℕ
  pub src_port : ℕ
  pub queue_id : ℕ
  pub attempts : ℕ
  pub has_tls : Bool
  pub connect_start_ms : ℕ
  pub start_ms : ℕ

abbrev pub fixed_of : Conn → Fixed
fixed_of c = record {
  request = c.request;
  expected = c.expected;
  src_port = c.src_port;
  queue_id = c.queue_id;
  attempts = c.attempts;
  has_tls = c.has_tls;
  connect_start_ms = c.connect_start_ms;
  start_ms = c.start_ms;
}

-- If the first flag is set, so is the second.
abbrev pub grows : Bool → Bool → Bool
grows a b = not a || b

-- What the parts of a step keep before its end: the identity, whether it is settled and closed; and
-- no other flag is taken back.
pub record Keeps (c c' : Conn) : Type 0 where
  pub fixed : fixed_of c' ≡ fixed_of c
  pub settled : c'.settled ≡ c.settled
  pub closed_cleanly : c'.closed_cleanly ≡ c.closed_cleanly
  pub done : grows c.done c'.done ≡ true
  pub request_queued : grows c.request_queued c'.request_queued ≡ true
  pub handshake_done : grows c.handshake_done c'.handshake_done ≡ true

pub grows_refl : (a : Bool) → grows a a ≡ true
grows_refl true = refl
grows_refl false = refl

pub grows_trans : (a b c : Bool) → grows a b ≡ true → grows b c ≡ true → grows a c ≡ true
grows_trans false b c p q = refl
grows_trans true true c p q = q
grows_trans true false c p q = cc

pub grows-true : (a : Bool) → grows a true ≡ true
grows-true true = refl
grows-true false = refl

pub Keeps-refl : (c : Conn) → Keeps c c
Keeps-refl c = record {
  fixed = refl;
  settled = refl;
  closed_cleanly = refl;
  done = grows_refl c.done;
  request_queued = grows_refl c.request_queued;
  handshake_done = grows_refl c.handshake_done;
}

pub Keeps-trans : {a b c : Conn} → Keeps a b → Keeps b c → Keeps a c
Keeps-trans {a} {b} {c} k l = record {
  fixed = l.fixed ∙ k.fixed;
  settled = l.settled ∙ k.settled;
  closed_cleanly = l.closed_cleanly ∙ k.closed_cleanly;
  done = grows_trans a.done b.done c.done k.done l.done;
  request_queued =
      grows_trans a.request_queued b.request_queued c.request_queued k.request_queued
        l.request_queued;
  handshake_done =
      grows_trans a.handshake_done b.handshake_done c.handshake_done k.handshake_done
        l.handshake_done;
}

-- Only buffers and the tally change, and `done` may be set.
abbrev with_data : Conn → Tally → Bytes → Bytes → Conn
with_data c t incoming outgoing = record c { tally = t; incoming = incoming; outgoing = outgoing }

Keeps-data :
    (c : Conn) (t : Tally) (incoming outgoing : Bytes) → Keeps c (with_data c t incoming outgoing)
Keeps-data c t incoming outgoing = record {
  fixed = refl;
  settled = refl;
  closed_cleanly = refl;
  done = grows_refl c.done;
  request_queued = grows_refl c.request_queued;
  handshake_done = grows_refl c.handshake_done;
}

Keeps-done : (c : Conn) → Keeps c (record c { done = true })
Keeps-done c = record {
  fixed = refl;
  settled = refl;
  closed_cleanly = refl;
  done = grows-true c.done;
  request_queued = grows_refl c.request_queued;
  handshake_done = grows_refl c.handshake_done;
}

Keeps-handshake : (c : Conn) → Keeps c (record c { handshake_done = true })
Keeps-handshake c = record {
  fixed = refl;
  settled = refl;
  closed_cleanly = refl;
  done = grows_refl c.done;
  request_queued = grows_refl c.request_queued;
  handshake_done = grows-true c.handshake_done;
}

Keeps-queued : (c : Conn) → Keeps c (record c { handshake_done = true; request_queued = true })
Keeps-queued c = record {
  fixed = refl;
  settled = refl;
  closed_cleanly = refl;
  done = grows_refl c.done;
  request_queued = grows-true c.request_queued;
  handshake_done = grows-true c.handshake_done;
}

pub queue_request-Keeps :
    (plain : Bool) (a : Answers) (c : Conn) → Keeps c (queue_request plain a c)
unfolding queue_request
queue_request-Keeps plain a c = elim (Bool-cases (plain && not c.request_queued && a.may_send)) [
  | inl e ↦ rw e (
      Keeps-trans (Keeps-data c c.tally c.incoming (c.outgoing ++ c.request))
        (Keeps-queued (with_data c c.tally c.incoming (c.outgoing ++ c.request))))
  | inr e ↦ rw e (Keeps-refl c)
]

pub stub_count-Keeps : (stub : Bool) (c : Conn) → Keeps c (stub_count stub c)
unfolding stub_count
stub_count-Keeps stub c = elim (Bool-cases (stub && c.handshake_done && c.request_queued)) [
  | inl e ↦ rw e (Keeps-data c _ [] c.outgoing)
  | inr e ↦ rw e (Keeps-refl c)
]

pub plain_count-Keeps :
    (plain : Bool) (c : Conn) (g : StatusCounters) → Keeps c (plain_count plain c g).0
unfolding plain_count
plain_count-Keeps plain c g =
    elim (Bool-cases (plain && not (miniosv_apps.Conn.is_empty c.incoming))) [
      | inl e ↦ rw e (Keeps-data c _ [] c.outgoing)
      | inr e ↦ rw e (Keeps-refl c)
    ]

read_records-Keeps :
    (records : List (Option Bytes)) (c : Conn) (g : StatusCounters)
    → Keeps c (read_records c g records).0
unfolding read_records
read_records-Keeps [] c g = Keeps-refl c
read_records-Keeps (none ∷ more) c g = Keeps-done c
read_records-Keeps (some payload ∷ more) c g =
    let (t, g') = count_body c.tally g payload in
    Keeps-trans (Keeps-data c t c.incoming c.outgoing)
      (read_records-Keeps more (record c { tally = t }) g')

either_way : {A : Type 0} (P : A → Type 0) (b : Bool) (x y : A) → P x → P y → P (if b then x else y)
either_way P true x y p q = p
either_way P false x y p q = q

handle-Keeps : (st : TlsState) (c : Conn) (g : StatusCounters) → Keeps c (handle c g st).0
unfolding handle
handle-Keeps tls_error c g = Keeps-done c
handle-Keeps (read_traffic records) c g = read_records-Keeps records c g
handle-Keeps (encode_tls_data none) c g =
    Keeps-trans (Keeps-data c c.tally c.incoming _) (Keeps-done (with_data c c.tally c.incoming _))
handle-Keeps (encode_tls_data (some bytes)) c g = Keeps-data c c.tally c.incoming _
handle-Keeps transmit_tls_data c g = Keeps-refl c
handle-Keeps (write_traffic none) c g =
    let c' = record c { handshake_done = true } in
    let kept =
      Keeps-data c' c.tally c.incoming
        (resize (length c.outgoing + length c.request + 128) c.outgoing) in
    either_way (λ (r : Conn × StatusCounters × Flow). Keeps c r.0) c.request_queued _ _
      (Keeps-handshake c) (Keeps-trans (Keeps-handshake c) (Keeps-trans kept (Keeps-done _)))
handle-Keeps (write_traffic (some bytes)) c g =
    either_way (λ (r : Conn × StatusCounters × Flow). Keeps c r.0) c.request_queued _ _
      (Keeps-handshake c)
      (Keeps-trans (Keeps-data c c.tally c.incoming (c.outgoing ++ bytes)) (Keeps-queued _))
handle-Keeps other_state c g = Keeps-refl c

by_flow :
    {c : Conn} (x y z : Conn × StatusCounters) (flow : Flow)
    → Keeps c x.0
    → Keeps c y.0
    → Keeps c z.0
    → Keeps c
        (elim flow as (λ _. Conn × StatusCounters) [ broke ↦ x | idle ↦ y | progressed ↦ z ]).0
by_flow x y z broke p q r = p
by_flow x y z idle p q r = q
by_flow x y z progressed p q r = r

discarded-Keeps : (n : ℕ) (c : Conn) → Keeps c (discarded n c)
discarded-Keeps n c = Keeps-data c c.tally _ c.outgoing

pub pump-Keeps :
    (answers : List TlsAnswer) (c : Conn) (g : StatusCounters) → Keeps c (pump c g answers).0
unfolding pump
pump-Keeps [] c g = Keeps-refl c
pump-Keeps (a ∷ more) c g =
    let (c', g', flow) = handle c g a.state in
    let one = handle-Keeps a.state c g in
    let two = Keeps-trans one (discarded-Keeps a.discard c') in
    by_flow _ _ _ flow one two (Keeps-trans two (pump-Keeps more (discarded a.discard c') g'))

pub exchange-Keeps :
    (plain stub : Bool) (a : Answers) (c : Conn) (g : StatusCounters)
    → Keeps c (exchange plain stub a c g).0.0
unfolding exchange
exchange-Keeps plain stub a c g =
    let c₁ = queue_request plain a c in
    let moved = Keeps-data c₁ c₁.tally _ _ in
    Keeps-trans (queue_request-Keeps plain a c) (
      Keeps-trans moved (
        Keeps-trans (stub_count-Keeps stub (with_data c₁ c₁.tally _ _))
          (plain_count-Keeps plain _ g)))

pub work-Keeps :
    (plain stub : Bool) (a : Answers) (c : Conn) (g : StatusCounters)
    → Keeps c (work plain stub a c g).0.0
unfolding work
work-Keeps plain stub a c g =
    let ((c', g'), sent) = exchange plain stub a c g in
    let kept = exchange-Keeps plain stub a c g in
    either_way (λ (r : Conn × StatusCounters). Keeps c r.0) (not plain && c'.has_tls) _ _
      (Keeps-trans kept (pump-Keeps a.tls c' g')) kept
