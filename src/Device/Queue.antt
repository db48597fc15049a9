-- ===== src/Device/Queue.antt =====
-- The queue of packets that the prefetch buffer of a `DpdkDevice` (lines 626-633) and the bursts to
-- come stand for, and what the filter of `receive` makes of it.
use miniosv_apps.Prelude.{
  ℕ, zero, suc, ◌+◌, ◌-◌, ◌≤◌, ◌<◌, ◌≡◌, ap, ◌∙◌, Option, none, some, List, [], ◌∷◌, ◌++◌, arith,
  if◌then◌else◌, length, length-append, get_or, take, drop, Bytes,
}
use miniosv_apps.Device.{Packet, no_packet, DpdkDevice, Shim, DpdkRxToken, mbuf, accept}

-- The packets between two places of the prefetch buffer.
abbrev pub window : ℕ → ℕ → List Packet → List Packet
window from to pref = take (to - from) (drop from pref)

-- The first packet of the window is the one that the code reads.
window-cons :
    (pref : List Packet) (from to : ℕ)
    → from < to
    → to ≤ length pref
    → window from to pref ≡ get_or pref from no_packet ∷ window (from + 1) to pref
window-cons [] from to h k = absurd (omega arith)
window-cons (x ∷ xs) zero (suc to) h k =
    let e : suc to - 0 ≡ suc to = omega arith in
    let e' : to ≡ suc to - (0 + 1) = omega arith in
    ap (λ t. take t (x ∷ xs)) e ∙ ap (λ t. x ∷ take t xs) e'
window-cons (x ∷ xs) zero zero h k = absurd (omega arith)
window-cons (x ∷ xs) (suc from) (suc to) h k =
    let e : suc to - suc from ≡ to - from = omega arith in
    let e' : to - (from + 1) ≡ suc to - (suc from + 1) = omega arith in
    let s : suc (from + 1) ≡ suc from + 1 = omega arith in
    ap (λ t. take t (drop from xs)) e
    ∙ window-cons xs from to (omega arith) (omega arith)
    ∙ ap (λ t. get_or xs from no_packet ∷ take t (drop (from + 1) xs)) e'
    ∙ ap (λ t. get_or xs from no_packet ∷ take (suc to - (suc from + 1)) (drop t (x ∷ xs))) s
window-cons (x ∷ xs) (suc from) zero h k = absurd (omega arith)

window_empty : (pref : List Packet) (n : ℕ) → window n n pref ≡ []
window_empty pref n = let e : n - n ≡ 0 = omega arith in ap (λ t. take t (drop n pref)) e

-- The packets that the next calls bring, up to a call that brings none.
abbrev pub arrived : List (List Packet) → List Packet
arrived [] = []
arrived ([] ∷ later) = []
arrived ((p ∷ ps) ∷ later) = (p ∷ ps) ++ arrived later

-- The queue.
abbrev pub waiting : DpdkDevice → Shim → List Packet
waiting d w = window d.rx_pref_pos d.rx_pref_len d.rx_pref ++ arrived w.bursts

-- The places lie in the buffer.
abbrev pub IsValid : DpdkDevice → Type 0
IsValid d = (d.rx_pref_pos ≤ d.rx_pref_len) × (d.rx_pref_len ≤ length d.rx_pref)

-- What is to become of a queue: the first packet that passes the filter, the handles before it, the
-- packets behind it, and the counter.
pub record Passed : Type 0 where
  pub token : Option Packet
  pub dropped : List ℕ
  pub rest : List Packet
  pub counted : ℕ

abbrev pub pass : Option Bytes → ℕ → List Packet → Passed
pass owned misrouted [] = record { token = none; dropped = []; rest = []; counted = misrouted }
pass owned misrouted (p ∷ ps) =
    let (ok, counted) = accept owned misrouted p.frame in
    let later = pass owned counted ps in
    if ok
    then record { token = some p; dropped = []; rest = ps; counted = counted }
    else record later { dropped = p.handle ∷ later.dropped }

-- The frames that pass the filter, and the counter behind a whole queue.
abbrev pub frames : Option Bytes → List Packet → List Bytes
frames owned [] = []
frames owned (p ∷ ps) =
    if (accept owned 0 p.frame).0 then p.frame ∷ frames owned ps else frames owned ps

abbrev pub count_all : Option Bytes → ℕ → List Packet → ℕ
count_all owned misrouted [] = misrouted
count_all owned misrouted (p ∷ ps) = count_all owned (accept owned misrouted p.frame).1 ps

abbrev pub handles : List Packet → List ℕ
handles [] = []
handles (p ∷ ps) = p.handle ∷ handles ps

abbrev pub token_of : Option Packet → Option DpdkRxToken
token_of none = none
token_of (some p) = some (mbuf p)

-- Behind a packet that passed, the queue is the rest.
abbrev pub RestIs : Option Packet → List Packet → List Packet → Type 0
RestIs none rest queue = Unit {0}
RestIs (some p) rest queue = queue ≡ rest

-- The device behind the packet that it reads next.
abbrev pub next : DpdkDevice → DpdkDevice
next d = record d { rx_pref_pos = d.rx_pref_pos + 1 }

abbrev pub here : DpdkDevice → Packet
here d = get_or d.rx_pref d.rx_pref_pos no_packet

pub waiting-next :
    (d : DpdkDevice) (w : Shim)
    → IsValid d
    → d.rx_pref_pos < d.rx_pref_len
    → waiting d w ≡ here d ∷ waiting (next d) w
waiting-next d w valid h =
    ap (λ t. t ++ arrived w.bursts) (window-cons d.rx_pref d.rx_pref_pos d.rx_pref_len h valid.1)

pub waiting_empty :
    (d : DpdkDevice) (w : Shim) → d.rx_pref_pos ≡ d.rx_pref_len → waiting d w ≡ arrived w.bursts
waiting_empty d w e =
    ap (λ n. window n d.rx_pref_len d.rx_pref ++ arrived w.bursts) e
    ∙ ap (λ t. t ++ arrived w.bursts) (window_empty d.rx_pref d.rx_pref_len)

pub take-append : (xs ys : List Packet) → take (length xs - 0) (xs ++ ys) ≡ xs
take-append [] ys = let e : 0 - 0 ≡ 0 = omega arith in ap (λ t. take t ys) e
take-append (x ∷ xs) ys =
    let e : suc (length xs) - 0 ≡ suc (length xs - 0) = omega arith in
    ap (λ t. take t (x ∷ (xs ++ ys))) e ∙ ap (◌∷◌ x) (take-append xs ys)

-- The device behind a burst.
abbrev pub filled : DpdkDevice → Packet → List Packet → DpdkDevice
filled d p ps = record d {
  rx_pref = (p ∷ ps) ++ drop (length (p ∷ ps)) d.rx_pref;
  rx_pref_pos = 0;
  rx_pref_len = length (p ∷ ps);
}

pub filled-IsValid : (d : DpdkDevice) (p : Packet) (ps : List Packet) → IsValid (filled d p ps)
filled-IsValid d p ps =
    (omega arith, omega (arith, length-append (p ∷ ps) (drop (length (p ∷ ps)) d.rx_pref)))
