-- ===== src/Conn/Life.antt =====
-- A connection from its opening on, step after step.
use miniosv_apps.Prelude.{
  ◌^◌, ◌<◌, ◌≡◌, refl, sym, ap, subst, ◌∙◌, arith, Bool, true, false, List, [], ◌∷◌, ◌++◌,
  append-nil, if◌then◌else◌, Bytes,
}
use miniosv_apps.Http.{Tally, fresh_tally, count_body, count_header, count_records}
use miniosv_apps.Http.HeaderEnd.{body_of}
use miniosv_apps.Http.Counting.{body_length, count_records-body_of}
use miniosv_apps.Conn.{
  Answers, Conn, Counters, is_empty, settle, queue_request, exchange, work, conn_step,
}
use miniosv_apps.Conn.Kept.{Fixed, fixed_of}
use miniosv_apps.Conn.Step.{by_branch, is_sound, conn_step_sound, conn_step-fixed}
use miniosv_apps.Conn.Plain.{
  no_status, tally_of, IsPlain, received_by, sent_by, taken-accepted, settle-IsPlain,
  give_up-IsPlain, finish-IsPlain, exchange-IsPlain,
}

-- What goes out in a step is what the socket takes.
conn_step-sent_by :
    (plain stub : Bool) (a : Answers) (c : Conn) (g : Counters)
    → (conn_step plain stub a c g).1.0 ≡ sent_by plain a c g
unfolding sent_by work exchange
conn_step-sent_by plain stub a c g =
    by_branch plain stub a c g (λ r. r.1.0 ≡ sent_by plain a c g) (λ e. simp e refl)
      (λ e t. simp (e, t) refl)
      (λ e t. simp (e, t) (taken-accepted a (queue_request plain a (settle a c g).0)))

-- A step without TLS, with what went out.
conn_step-IsPlain_out :
    (a : Answers) (c : Conn) (g : Counters) (sent received : Bytes)
    → IsPlain sent received c
    → let ((c', _), (out, _)) = conn_step true false a c g in
      IsPlain (sent ++ out) (received ++ received_by a c g) c'
unfolding received_by work
conn_step-IsPlain_out a c g sent received p =
    let (c₁, g₁) = settle a c g in
    let first = settle-IsPlain a c g sent received p in
    by_branch true false a c g (λ r. IsPlain (sent ++ r.1.0) (received ++ received_by a c g) r.0.0)
      (λ e. simp (e, append-nil sent, append-nil received) p)
      (λ e t.
        simp (e, t, append-nil sent, append-nil received)
          (give_up-IsPlain a c₁ g₁ sent received first))
      (λ e t.
        simp (e, t) (finish-IsPlain a _ _ _ (exchange-IsPlain a c₁ g₁.http sent received first)))

-- A step without TLS.
pub conn_step-IsPlain :
    (a : Answers) (c : Conn) (g : Counters) (sent received : Bytes)
    → IsPlain sent received c
    → IsPlain
        (sent ++ sent_by true a c g)
        (received ++ received_by a c g)
        (conn_step true false a c g).0.0
conn_step-IsPlain a c g sent received p =
    let (c', g') = (conn_step true false a c g).0 in
    subst (λ out. IsPlain (sent ++ out) (received ++ received_by a c g) c')
      (conn_step-sent_by true false a c g) (conn_step-IsPlain_out a c g sent received p)

-- A connection with the bytes that its socket has taken from it and handed over to it.
pub record Life : Type 0 where
  pub conn : Conn
  pub sent : Bytes
  pub received : Bytes

-- Its steps, each with the answers that it reads and the counters as it finds them.
unfoldable pub live : Bool → Bool → List (Answers × Counters) → Life → Life
live plain stub [] l = l
live plain stub ((a, g) ∷ more) l = live plain stub more (record {
  conn = (conn_step plain stub a l.conn g).0.0;
  sent = l.sent ++ sent_by plain a l.conn g;
  received = l.received ++ received_by a l.conn g;
})

abbrev pub new_life : Conn → Life
new_life c = record { conn = c; sent = []; received = [] }

live-IsPlain :
    (steps : List (Answers × Counters)) (l : Life)
    → IsPlain l.sent l.received l.conn
    → let l' = live true false steps l in IsPlain l'.sent l'.received l'.conn
unfolding live
live-IsPlain [] l p = p
live-IsPlain ((a, g) ∷ more) l p =
    live-IsPlain more _ (conn_step-IsPlain a l.conn g l.sent l.received p)

live_sound :
    (plain stub : Bool) (steps : List (Answers × Counters)) (l : Life)
    → is_sound l.conn ≡ true
    → is_sound (live plain stub steps l).conn ≡ true
unfolding live
live_sound plain stub [] l s = s
live_sound plain stub ((a, g) ∷ more) l s =
    live_sound plain stub more _ (conn_step_sound plain stub a l.conn g s)

pub live-fixed :
    (plain stub : Bool) (steps : List (Answers × Counters)) (l : Life)
    → fixed_of (live plain stub steps l).conn ≡ fixed_of l.conn
unfolding live
live-fixed plain stub [] l = refl
live-fixed plain stub ((a, g) ∷ more) l =
    live-fixed plain stub more _ ∙ conn_step-fixed plain stub a l.conn g

-- What becomes of the connection does not depend on what is noted of its bytes.
pub live-conn :
    (plain stub : Bool) (steps : List (Answers × Counters)) (l l' : Life)
    → l.conn ≡ l'.conn
    → (live plain stub steps l).conn ≡ (live plain stub steps l').conn
unfolding live
live-conn plain stub [] l l' e = e
live-conn plain stub ((a, g) ∷ more) l l' e =
    live-conn plain stub more _ _ (ap (λ c. (conn_step plain stub a c g).0.0) e)

-- A connection that worker_thread has just opened.
abbrev pub IsNew : Conn → Type 0
IsNew c =
    (c.incoming ≡ [])
    × (c.outgoing ≡ [])
    × (c.request_queued ≡ false)
    × (c.handshake_done ≡ false)
    × (c.tally ≡ fresh_tally)
    × (c.closed_cleanly ≡ false)

fresh_tally-tally_of : fresh_tally ≡ tally_of []
unfolding count_body count_header
fresh_tally-tally_of = refl

tally_of-body_of :
    (xs : Bytes)
    → body_length (body_of xs) < 2 ^ 64
    → (tally_of xs).bytes ≡ body_length (body_of xs)
unfolding count_records
tally_of-body_of xs h =
    let e = append-nil xs in
    subst (λ t. (tally_of xs).bytes ≡ body_length (body_of t)) e
      (count_records-body_of (xs ∷ []) no_status
        (subst (λ t. body_length (body_of t) < 2 ^ 64) (sym e) h)).1

IsNew-IsPlain : (c : Conn) → IsNew c → IsPlain [] [] c
IsNew-IsPlain c (none_in, none_out, unasked, no_hs, fresh, _) = (
  none_in,
  none_out ∙ ap (λ b. if b then c.request else []) (sym unasked),
  no_hs ∙ sym unasked,
  fresh ∙ fresh_tally-tally_of,
)

-- Whatever the socket answers, a connection without TLS: what its socket has at any time taken,
-- followed by what still waits to be sent, is its request once if that has been queued, and else
-- nothing; and its tally is that of one look at all the bytes that the socket has handed over, one
-- piece after the other.
pub live_plain :
    (steps : List (Answers × Counters)) (c : Conn)
    → IsNew c
    → let l = live true false steps (new_life c) in
      (l.sent ++ l.conn.outgoing ≡ (if l.conn.request_queued then c.request else []))
      × (l.conn.tally ≡ tally_of l.received)
live_plain steps c new =
    let l = live true false steps (new_life c) in
    let (_, out, _, tally) = live-IsPlain steps (new_life c) (IsNew-IsPlain c new) in
    let text = ap (λ (f : Fixed). f.request) (live-fixed true false steps (new_life c)) in
    (out ∙ ap (λ r. if l.conn.request_queued then r else []) text, tally)

closed_flags :
    (c : Conn)
    → is_sound c ≡ true
    → c.closed_cleanly ≡ true
    → (c.request_queued ≡ true) × (is_empty c.outgoing ≡ true)
closed_flags c s e = ground arith

is_empty-nil : (xs : Bytes) → is_empty xs ≡ true → xs ≡ []
is_empty-nil [] h = refl
is_empty-nil (x ∷ xs) h = cc

pub live_sent :
    (steps : List (Answers × Counters)) (c : Conn)
    → IsNew c
    → let l = live true false steps (new_life c) in
      l.conn.closed_cleanly ≡ true → l.sent ≡ c.request
live_sent steps c new closed =
    let l = live true false steps (new_life c) in
    let (out, _) = live_plain steps c new in
    let sound : is_sound (new_life c).conn ≡ true = ground (arith, new) in
    let (asked, none_left) =
      closed_flags l.conn (live_sound true false steps (new_life c) sound) closed in
    sym (append-nil l.sent)
    ∙ ap (λ t. l.sent ++ t) (sym (is_empty-nil l.conn.outgoing none_left))
    ∙ out
    ∙ ap (λ b. if b then c.request else []) asked

pub live_counted :
    (steps : List (Answers × Counters)) (c : Conn)
    → IsNew c
    → let l = live true false steps (new_life c) in
      body_length (body_of l.received) < 2 ^ 64
      → l.conn.tally.bytes ≡ body_length (body_of l.received)
live_counted steps c new small =
    let l = live true false steps (new_life c) in
    ap (λ (t : Tally). t.bytes) (live_plain steps c new).1 ∙ tally_of-body_of l.received small

-- A connection without TLS that counts as cleanly closed has sent exactly its request, and has
-- counted exactly the bytes behind the first CRLFCRLF of all that its socket has handed over, one
-- piece after the other, where their number is a `usize`.
pub live_closed :
    (steps : List (Answers × Counters)) (c : Conn)
    → IsNew c
    → let l = live true false steps (new_life c) in
      l.conn.closed_cleanly ≡ true
      → body_length (body_of l.received) < 2 ^ 64
      → (l.sent ≡ c.request) × (l.conn.tally.bytes ≡ body_length (body_of l.received))
live_closed steps c new closed small =
    (live_sent steps c new closed, live_counted steps c new small)
