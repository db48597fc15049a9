-- ===== src/Conn/Unread.antt =====
-- conn_step (lines 1036-1182) under different values of the counters that the workers share.
use miniosv_apps.Prelude.{
  ◌≡◌, refl, ap, ◌∙◌, arith, Bool, true, false, ◌&&◌, not, ◌==◌, Option, none, some, List, [], ◌∷◌,
  if◌then◌else◌, Bytes,
}
use miniosv_apps.Http.{Tally, StatusCounters, count_byte, count_header, count_body}
use miniosv_apps.Conn.{
  TlsState, tls_error, read_traffic, encode_tls_data, transmit_tls_data, write_traffic, other_state,
  TlsAnswer, Answers, Conn, Counters, is_empty, settle, syn_timed_out, give_up, plain_count, Flow,
  broke, idle, progressed, read_records, handle, discarded, pump, finish, exchange, work, conn_step,
}

-- Two tests of one condition agree under `f` where their branches do.
pub alike :
    {A B : Type 0} (f : A → B) (b : Bool) (x y x' y' : A)
    → f x ≡ f x'
    → f y ≡ f y'
    → f (if b then x else y) ≡ f (if b then x' else y')
alike f true x y x' y' p q = p
alike f false x y x' y' p q = q

-- A result without the counters.
abbrev pub seen : {A B C : Type 0} → (A × B) × C → A × C
seen r = (r.0.0, r.1)

count_header-unread :
    (t : Tally) (g g' : StatusCounters) (input : Bytes)
    → (count_header t g input).0 ≡ (count_header t g' input).0
unfolding count_header
count_header-unread t g g' [] = refl
count_header-unread t g g' (b ∷ rest) =
    alike (λ (r : Tally × StatusCounters). r.0) ((count_byte t b).hdr_state == 4) _ _ _ _ refl
      (count_header-unread (count_byte t b) g g' rest)

count_body-unread :
    (t : Tally) (g g' : StatusCounters) (input : Bytes)
    → (count_body t g input).0 ≡ (count_body t g' input).0
unfolding count_body
count_body-unread t g g' input =
    alike (λ (r : Tally × StatusCounters). r.0) t.headers_done _ _ _ _ refl
      (count_header-unread t g g' input)

plain_count-unread :
    (plain : Bool) (c : Conn) (g g' : StatusCounters)
    → (plain_count plain c g).0 ≡ (plain_count plain c g').0
unfolding plain_count
plain_count-unread plain c g g' =
    alike (λ (r : Conn × StatusCounters). r.0) (plain && not (is_empty c.incoming)) _ _ _ _
      (ap (λ t. record c { tally = t; incoming = [] }) (count_body-unread c.tally g g' c.incoming))
      refl

read_records-unread :
    (records : List (Option Bytes)) (c : Conn) (g g' : StatusCounters)
    → (read_records c g records).0 ≡ (read_records c g' records).0
unfolding read_records
read_records-unread [] c g g' = refl
read_records-unread (none ∷ more) c g g' = refl
read_records-unread (some payload ∷ more) c g g' =
    let (t, h) = count_body c.tally g payload in
    let (t', h') = count_body c.tally g' payload in
    ap (λ u. (read_records (record c { tally = u }) h more).0)
      (count_body-unread c.tally g g' payload)
    ∙ read_records-unread more (record c { tally = t' }) h h'

abbrev flow_of : Conn × StatusCounters × Flow → Conn × Flow
flow_of r = (r.0, r.2)

handle-unread :
    (st : TlsState) (c : Conn) (g g' : StatusCounters)
    → flow_of (handle c g st) ≡ flow_of (handle c g' st)
unfolding handle
handle-unread tls_error c g g' = refl
handle-unread (read_traffic records) c g g' =
    ap (λ c'. (c', progressed)) (read_records-unread records c g g')
handle-unread (encode_tls_data none) c g g' = refl
handle-unread (encode_tls_data (some bytes)) c g g' = refl
handle-unread transmit_tls_data c g g' = refl
handle-unread (write_traffic none) c g g' = alike flow_of c.request_queued _ _ _ _ refl refl
handle-unread (write_traffic (some bytes)) c g g' = alike flow_of c.request_queued _ _ _ _ refl refl
handle-unread other_state c g g' = refl

by_flow :
    (x y z x' y' z' : Conn × StatusCounters) (flow : Flow)
    → x.0 ≡ x'.0
    → y.0 ≡ y'.0
    → z.0 ≡ z'.0
    → (elim flow as (λ _. Conn × StatusCounters) [ broke ↦ x | idle ↦ y | progressed ↦ z ]).0
      ≡ (elim flow as (λ _. Conn × StatusCounters) [ broke ↦ x' | idle ↦ y' | progressed ↦ z' ]).0
by_flow x y z x' y' z' broke p q r = p
by_flow x y z x' y' z' idle p q r = q
by_flow x y z x' y' z' progressed p q r = r

pump-unread :
    (answers : List TlsAnswer) (c : Conn) (g g' : StatusCounters)
    → (pump c g answers).0 ≡ (pump c g' answers).0
unfolding pump
pump-unread [] c g g' = refl
pump-unread (a ∷ more) c g g' =
    let (c₁, h, flow) = handle c g a.state in
    let (c₂, h', flow') = handle c g' a.state in
    let same = handle-unread a.state c g g' in
    ap
      (λ (r : Conn × Flow).
        (elim r.1 as (λ _. Conn × StatusCounters) [
          | broke ↦ (r.0, h)
          | idle ↦ (discarded a.discard r.0, h)
          | progressed ↦ pump (discarded a.discard r.0) h more
        ]).0)
      same
    ∙ by_flow _ _ _ _ _ _ flow' refl refl (pump-unread more (discarded a.discard c₂) h h')

exchange-unread :
    (plain stub : Bool) (a : Answers) (c : Conn) (g g' : StatusCounters)
    → seen (exchange plain stub a c g) ≡ seen (exchange plain stub a c g')
unfolding exchange
exchange-unread plain stub a c g g' =
    ap (λ c'. (c', (exchange plain stub a c g).1)) (plain_count-unread plain _ g g')

work-unread :
    (plain stub : Bool) (a : Answers) (c : Conn) (g g' : StatusCounters)
    → seen (work plain stub a c g) ≡ seen (work plain stub a c g')
unfolding work
work-unread plain stub a c g g' =
    let ((c₁, h), sent) = exchange plain stub a c g in
    let ((c₂, h'), sent') = exchange plain stub a c g' in
    let same = exchange-unread plain stub a c g g' in
    ap
      (λ (r : Conn × Bytes).
        seen ((if not plain && r.0.has_tls then pump r.0 h a.tls else (r.0, h)), r.1))
      same
    ∙ ap (λ c'. (c', sent'))
        (alike (λ (r : Conn × StatusCounters). r.0) (not plain && c₂.has_tls) _ _ _ _
          (pump-unread a.tls c₂ h h') refl)

settle-unread : (a : Answers) (c : Conn) (g g' : Counters) → (settle a c g).0 ≡ (settle a c g').0
unfolding settle
settle-unread a c g g' = ground arith

give_up-unread : (a : Answers) (c : Conn) (g g' : Counters) → (give_up a c g).0 ≡ (give_up a c g').0
unfolding give_up
give_up-unread a c g g' = alike (λ (r : Conn × Counters). r.0) (not c.settled) _ _ _ _ refl refl

-- Whatever the counters are: the connection, the bytes that went out, and what the step returns.
pub conn_step-unread :
    (plain stub : Bool) (a : Answers) (c : Conn) (g g' : Counters)
    → seen (conn_step plain stub a c g) ≡ seen (conn_step plain stub a c g')
unfolding conn_step
conn_step-unread plain stub a c g g' =
    let (c₁, g₁) = settle a c g in
    let (c₂, g₂) = settle a c g' in
    alike seen c.done _ _ _ _ refl (
      ap (λ x. seen (rest x g₁)) (settle-unread a c g g')
      ∙ alike seen (syn_timed_out a c₂) _ _ _ _
          (ap (λ x. (x, ([], true))) (give_up-unread a c₂ g₁ g₂))
          (ap (λ (r : Conn × Bytes). (finish a r.0, (r.1, (finish a r.0).done)))
            (work-unread plain stub a c₂ g₁.http g₂.http)))
  where
    rest : Conn → Counters → (Conn × Counters) × (Bytes × Bool)
    rest x h =
        if syn_timed_out a x
        then (give_up a x h, ([], true))
        else (let ((y, k), sent) = work plain stub a x h.http in
            let z = finish a y in ((z, record h { http = k }), (sent, z.done)))
