-- ===== src/Conn/Plain.antt =====
-- A connection without TLS, over all its steps: what it sends, and what it counts.
use miniosv_apps.Prelude.{
  ℕ, zero, suc, Bool, ◌≡◌, refl, sym, ap, ◌∙◌, inl, inr, arith, true, false, ◌&&◌, not, ◌==◌,
  Option, none, some, List, [], ◌∷◌, ◌++◌, append-nil, append_assoc, take, drop, take-drop, ap₂,
  Bool-cases, if◌then◌else◌, Bytes,
}
use miniosv_apps.Http.{Tally, fresh_tally, StatusCounters, count_body, count_byte, count_header}
use miniosv_apps.Http.Counting.{count_body-append}
use miniosv_apps.Conn.{
  Answers, Conn, Counters, is_empty, is_established, is_ended, settle, syn_timed_out, give_up,
  queue_request, taken, drain_socket, stub_count, plain_count, finish, exchange,
}

-- The tally does not depend on the counters.
count_header-tally :
    (xs : Bytes) (t : Tally) (g g' : StatusCounters)
    → (count_header t g xs).0 ≡ (count_header t g' xs).0
unfolding count_header
count_header-tally [] t g g' = refl
count_header-tally (b ∷ xs) t g g' =
    let more = count_header-tally xs (count_byte t b) g g' in
    elim (Bool-cases ((count_byte t b).hdr_state == 4)) [
      | inl e ↦ simp e refl
      | inr e ↦ simp e more
    ]

count_body-tally :
    (xs : Bytes) (t : Tally) (g g' : StatusCounters)
    → (count_body t g xs).0 ≡ (count_body t g' xs).0
unfolding count_body
count_body-tally xs t g g' = elim (Bool-cases t.headers_done) [
  | inl e ↦ simp e refl
  | inr e ↦ simp e (count_header-tally xs t g g')
]

abbrev pub no_status : StatusCounters
no_status = record { bad_status = 0; first_bad_status = 0 }

-- A new connection's tally behind the bytes of `xs`.
abbrev pub tally_of : Bytes → Tally
tally_of xs = (count_body fresh_tally no_status xs).0

-- What a connection without TLS queues to be sent: its request, once.
abbrev pub queued : Conn → Bytes
queued c = if c.request_queued then c.request else []

-- The state of a connection that has sent and received these bytes.
abbrev pub IsPlain : Bytes → Bytes → Conn → Type 0
IsPlain sent received c =
    (c.incoming ≡ [])
    × (sent ++ c.outgoing ≡ queued c)
    × (c.handshake_done ≡ c.request_queued)
    × (c.tally ≡ tally_of received)

-- The bytes that the calls of `recv` hand over, one after the other, up to the first that hands over
-- none or fails.
abbrev pub handed : List (Option Bytes) → Bytes
handed [] = []
handed (none ∷ more) = []
handed (some [] ∷ more) = []
handed (some (b ∷ bs) ∷ more) = (b ∷ bs) ++ handed more

drain_socket-handed :
    (recvs : List (Option Bytes)) (incoming : Bytes)
    → drain_socket incoming recvs ≡ incoming ++ handed recvs
unfolding drain_socket
drain_socket-handed [] incoming = sym (append-nil incoming)
drain_socket-handed (none ∷ more) incoming = sym (append-nil incoming)
drain_socket-handed (some [] ∷ more) incoming = sym (append-nil incoming)
drain_socket-handed (some (b ∷ bs) ∷ more) incoming =
    drain_socket-handed more (incoming ++ (b ∷ bs)) ∙ append_assoc incoming (b ∷ bs) (handed more)

-- How many bytes the socket takes of what it is offered: as many as `send_slice` answers, none where
-- that fails or the socket cannot send.
abbrev pub accepted : Answers → ℕ
accepted a = if a.can_send then elim a.send_slice [ none ↦ 0 | some n ↦ n ] else 0

-- The bytes that the socket takes during a step, the first of those that wait to be sent.
unfoldable pub sent_by : Bool → Answers → Conn → Counters → Bytes
sent_by plain a c g =
    if c.done
    then []
    else if syn_timed_out a (settle a c g).0
    then []
    else take (accepted a) (queue_request plain a (settle a c g).0).outgoing

pub taken-accepted :
    (a : Answers) (c : Conn) → take (taken a c) c.outgoing ≡ take (accepted a) c.outgoing
unfolding taken
taken-accepted a c = by_queue c.outgoing
  where
    take-nil : (n : ℕ) → take {A = ℕ} n [] ≡ []
    take-nil zero = refl
    take-nil (suc n) = refl

    by_queue :
        (xs : Bytes)
        → take
            (if not (is_empty xs) && a.can_send
              then elim a.send_slice [ none ↦ 0 | some n ↦ n ]
              else 0)
            xs
          ≡ take (accepted a) xs
    by_queue [] = sym (take-nil (accepted a))
    by_queue (x ∷ xs) = refl

-- The bytes that the socket hands over during a step.
unfoldable pub received_by : Answers → Conn → Counters → Bytes
received_by a c g =
    if c.done then [] else if syn_timed_out a (settle a c g).0 then [] else handed a.recvs

pub settle-IsPlain :
    (a : Answers) (c : Conn) (g : Counters) (sent received : Bytes)
    → IsPlain sent received c
    → IsPlain sent received (settle a c g).0
unfolding settle
settle-IsPlain a c g sent received p = elim (Bool-cases (not c.settled && is_established a.state)) [
  | inl e ↦ simp e p
  | inr e ↦ simp e p
]

pub give_up-IsPlain :
    (a : Answers) (c : Conn) (g : Counters) (sent received : Bytes)
    → IsPlain sent received c
    → IsPlain sent received (give_up a c g).0
unfolding give_up
give_up-IsPlain a c g sent received p = elim (Bool-cases (not c.settled)) [
  | inl e ↦ simp e p
  | inr e ↦ simp e p
]

pub finish-IsPlain :
    (a : Answers) (c : Conn) (sent received : Bytes)
    → IsPlain sent received c
    → IsPlain sent received (finish a c)
unfolding finish
finish-IsPlain a c sent received p =
    elim (Bool-cases (
      c.handshake_done
      && c.request_queued
      && is_ended a.state_after
      && is_empty c.outgoing
      && not a.can_recv_after)) [ inl e ↦ simp e p | inr e ↦ simp e p ]

queue_request-IsPlain :
    (a : Answers) (c : Conn) (sent received : Bytes)
    → IsPlain sent received c
    → IsPlain sent received (queue_request true a c)
unfolding queue_request
queue_request-IsPlain a c sent received (none_in, out, hs, tally) =
    elim (Bool-cases (not c.request_queued && a.may_send)) [
      | inl e ↦
          let fresh : c.request_queued ≡ false = ground (arith, e) in
          let unsent : sent ++ c.outgoing ≡ [] =
            out ∙ ap (λ b. if b then c.request else []) fresh in
          simp e (
            none_in,
            sym (append_assoc sent c.outgoing c.request) ∙ ap (λ t. t ++ c.request) unsent,
            refl,
            tally,
          )
      | inr e ↦ simp e (none_in, out, hs, tally)
    ]

-- Behind the sending and the receiving, with the bytes received not yet counted.
drained : Answers → Conn → Conn
drained a c = record c {
  outgoing = drop (taken a c) c.outgoing;
  incoming = drain_socket c.incoming a.recvs;
}

plain_count-tally :
    (c : Conn) (g : StatusCounters) (received : Bytes)
    → c.tally ≡ tally_of received
    → (plain_count true c g).0.tally ≡ tally_of (received ++ c.incoming)
unfolding plain_count
plain_count-tally c g received h = by_input c.incoming
  where
    by_input :
        (xs : Bytes)
        → (plain_count true (record c { incoming = xs }) g).0.tally ≡ tally_of (received ++ xs)
    by_input [] = h ∙ ap tally_of (sym (append-nil received))
    by_input (x ∷ xs) =
        ap (λ t. (count_body t g (x ∷ xs)).0) h
        ∙ count_body-tally (x ∷ xs) (tally_of received) g
            (count_body fresh_tally no_status received).1
        ∙ ap (λ r. r.0) (count_body-append received (x ∷ xs) fresh_tally no_status)

plain_count-others :
    (c : Conn) (g : StatusCounters)
    → let c' = (plain_count true c g).0 in
      (c'.incoming ≡ [])
      × (c'.outgoing ≡ c.outgoing)
      × (c'.request_queued ≡ c.request_queued)
      × (c'.request ≡ c.request)
      × (c'.handshake_done ≡ c.handshake_done)
unfolding plain_count
plain_count-others c g = by_input c.incoming
  where
    by_input :
        (xs : Bytes)
        → let c' = (plain_count true (record c { incoming = xs }) g).0 in
          (c'.incoming ≡ [])
          × (c'.outgoing ≡ c.outgoing)
          × (c'.request_queued ≡ c.request_queued)
          × (c'.request ≡ c.request)
          × (c'.handshake_done ≡ c.handshake_done)
    by_input [] = (refl, refl, refl, refl, refl)
    by_input (x ∷ xs) = (refl, refl, refl, refl, refl)

pub exchange-IsPlain :
    (a : Answers) (c : Conn) (g : StatusCounters) (sent received : Bytes)
    → IsPlain sent received c
    → let ((c', _), out) = exchange true false a c g in
      IsPlain (sent ++ out) (received ++ handed a.recvs) c'
unfolding exchange stub_count drained
exchange-IsPlain a c g sent received p =
    let c₁ = queue_request true a c in
    let n = taken a c₁ in
    let (none_in, out, hs, tally) = queue_request-IsPlain a c sent received p in
    let c₂ = drained a c₁ in
    let (cleared, kept, asked, text, ready) = plain_count-others c₂ g in
    (
      cleared,
      ap (λ t. (sent ++ take n c₁.outgoing) ++ t) kept
          ∙ append_assoc sent (take n c₁.outgoing) (drop n c₁.outgoing)
          ∙ ap (λ t. sent ++ t) (take-drop n c₁.outgoing)
          ∙ out
          ∙ ap₂ (λ b r. if b then r else []) (sym asked) (sym text),
      ready ∙ hs ∙ sym asked,
      plain_count-tally c₂ g received tally
          ∙ ap (λ t. tally_of (received ++ t))
              (drain_socket-handed a.recvs c₁.incoming ∙ ap (λ t. t ++ handed a.recvs) none_in),
    )
