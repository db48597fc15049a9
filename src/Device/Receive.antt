-- ===== src/Device/Receive.antt =====
-- The prefetch loop of `DpdkDevice::receive` (lines 698-757), against the queue of packets that the
-- prefetch buffer and the bursts to come stand for.
use miniosv_apps.Prelude.{
  ℕ, zero, suc, ◌+◌, ◌<◌, ◌≡◌, refl, sym, ap, subst, ◌∙◌, inl, inr, true, false, Option, some, List,
  [], ◌∷◌, ◌++◌, append-nil, append_assoc, arith, Bool-cases, ==_iff, ◌==◌, if◌then◌else◌, length,
  get_or, drop,
}
use miniosv_apps.Device.{
  Packet, no_packet, DpdkDevice, Shim, DpdkRxToken, mbuf, accept, burst_into, refill, receive_from,
}
use miniosv_apps.Device.Queue.{
  arrived, pass, token_of, RestIs, waiting, IsValid, next, here, filled, filled-IsValid,
  waiting-next, waiting_empty, take-append,
}

-- A device keeps its bitmap and its fabricated frame.
abbrev pub SameUser : DpdkDevice → DpdkDevice → Type 0
SameUser d d' = (d'.owned_ports ≡ d.owned_ports) × (d'.pending_synth ≡ d.pending_synth)

-- The result of the loop, from device `d` and shim `w` with the queue `q`.
abbrev pub Delivers :
    Option (Option DpdkRxToken × DpdkDevice × Shim) → DpdkDevice → Shim → List Packet → Type 0
Delivers o d w q =
    let r = pass d.owned_ports w.misrouted q in
    (d' : DpdkDevice) × (w' : Shim) × (o ≡ some (token_of r.token, d', w'))
    × (w'.freed ≡ w.freed ++ r.dropped)
    × (w'.misrouted ≡ r.counted)
    × RestIs r.token r.rest (waiting d' w')
    × IsValid d'
    × SameUser d d'

-- The loop behind the refill.
abbrev body : ℕ → DpdkDevice → Shim → Option (Option DpdkRxToken × DpdkDevice × Shim)
body fuel d w =
    let p = get_or d.rx_pref d.rx_pref_pos no_packet in
    let (ok, misrouted) = accept d.owned_ports w.misrouted p.frame in
    let d' = record d { rx_pref_pos = d.rx_pref_pos + 1 } in
    if ok
    then some (some (mbuf p), d', record w { misrouted = misrouted })
    else receive_from fuel d'
        (record w { misrouted = misrouted; freed = w.freed ++ (p.handle ∷ []) })

receive_from-body :
    (fuel : ℕ) (d : DpdkDevice) (w : Shim) (d' : DpdkDevice) (w' : Shim)
    → refill d w ≡ (true, d', w')
    → receive_from (suc fuel) d w ≡ body fuel d' w'
unfolding receive_from
receive_from-body fuel d w d' w' e = rw e

abbrev drop_packet : DpdkDevice → Shim → Shim
drop_packet d w = record w {
  misrouted = (accept d.owned_ports w.misrouted (here d).frame).1;
  freed = w.freed ++ ((here d).handle ∷ []);
}

body-Delivers :
    (fuel : ℕ) (d : DpdkDevice) (w : Shim)
    → IsValid (next d)
    → Delivers
        (receive_from fuel (next d) (drop_packet d w))
        (next d)
        (drop_packet d w)
        (waiting (next d) w)
    → Delivers (body fuel d w) d w (here d ∷ waiting (next d) w)
body-Delivers fuel d w valid later =
    elim (Bool-cases (accept d.owned_ports w.misrouted (here d).frame).0) [
      | inl ok ↦ rw ok (
        next d,
        record w { misrouted = (accept d.owned_ports w.misrouted (here d).frame).1 },
        refl,
        sym (append-nil w.freed),
        refl,
        refl,
        valid,
        (refl, refl),
      )
      | inr bad ↦ rw bad (
          let (d', w', result, freed, counted, rest, valid', user) = later in
          (
            d',
            w',
            result,
            freed ∙ append_assoc w.freed ((here d).handle ∷ []) _,
            counted,
            rest,
            valid',
            user,
          ))
    ]

abbrev Loop : ℕ → Type 0
Loop fuel =
    (d : DpdkDevice) (w : Shim)
    → IsValid d
    → length (waiting d w) < fuel
    → Delivers (receive_from fuel d w) d w (waiting d w)

-- The loop behind the refill, where a packet is there.
body-waiting :
    (fuel : ℕ) (d : DpdkDevice) (w : Shim)
    → Loop fuel
    → IsValid d
    → d.rx_pref_pos < d.rx_pref_len
    → length (waiting d w) < suc fuel
    → Delivers (body fuel d w) d w (waiting d w)
body-waiting fuel d w loop valid h enough =
    let e = waiting-next d w valid h in
    let valid' : IsValid (next d) = (omega arith, valid.1) in
    subst (Delivers (body fuel d w) d w) (sym e) (
      body-Delivers fuel d w valid'
        (loop (next d) (drop_packet d w) valid' (omega (arith, ap length e, enough))))

refill_empty :
    (d : DpdkDevice) (w : Shim)
    → (d.rx_pref_pos == d.rx_pref_len) ≡ true
    → refill d w ≡ burst_into d w w.bursts
unfolding refill
refill_empty d w h = rw h

refill_full :
    (d : DpdkDevice) (w : Shim)
    → (d.rx_pref_pos == d.rx_pref_len) ≡ false
    → refill d w ≡ (true, d, w)
unfolding refill
refill_full d w h = rw h

-- The loop where no burst comes.
none-Delivers :
    (fuel : ℕ) (d : DpdkDevice) (w w' : Shim)
    → IsValid d
    → refill d w ≡ (false, d, w')
    → w'.freed ≡ w.freed
    → w'.misrouted ≡ w.misrouted
    → Delivers (receive_from (suc fuel) d w) d w []
unfolding receive_from
none-Delivers fuel d w w' valid e f m =
    rw e (d, w', refl, f ∙ sym (append-nil w.freed), m, tt, valid, (refl, refl))

burst-Delivers :
    (fuel : ℕ) (d : DpdkDevice) (w : Shim) (bursts : List (List Packet))
    → Loop fuel
    → IsValid d
    → refill d w ≡ burst_into d w bursts
    → length (arrived bursts) < suc fuel
    → Delivers (receive_from (suc fuel) d w) d w (arrived bursts)
unfolding burst_into
burst-Delivers fuel d w [] loop valid e enough = none-Delivers fuel d w w valid e refl refl
burst-Delivers fuel d w ([] ∷ later) loop valid e enough =
    none-Delivers fuel d w (record w { bursts = later }) valid e refl refl
burst-Delivers fuel d w ((p ∷ ps) ∷ later) loop valid e enough =
    let d' = filled d p ps in
    let w' : Shim = record w { bursts = later } in
    let queue : waiting d' w' ≡ (p ∷ ps) ++ arrived later =
      ap (λ t. t ++ arrived later) (take-append (p ∷ ps) (drop (length (p ∷ ps)) d.rx_pref)) in
    subst (λ o. Delivers o d w ((p ∷ ps) ++ arrived later))
      (sym (receive_from-body fuel d w d' w' e))
      (subst (Delivers (body fuel d' w') d' w') queue (
        body-waiting fuel d' w' loop (filled-IsValid d p ps) (omega arith)
          (omega (arith, ap length queue, enough))))

step-Delivers : (fuel : ℕ) → Loop fuel → Loop (suc fuel)
step-Delivers fuel loop d w valid enough = elim (Bool-cases (d.rx_pref_pos == d.rx_pref_len)) [
  | inl all ↦
      let queue = waiting_empty d w ((==_iff d.rx_pref_pos d.rx_pref_len).0 all) in
      subst (Delivers (receive_from (suc fuel) d w) d w) (sym queue) (
        burst-Delivers fuel d w w.bursts loop valid (refill_empty d w all)
          (omega (arith, ap length queue, enough)))
  | inr more ↦
      let e = receive_from-body fuel d w d w (refill_full d w more) in
      let below : d.rx_pref_pos < d.rx_pref_len = ground (arith, valid) in
      subst (λ o. Delivers o d w (waiting d w)) (sym e)
        (body-waiting fuel d w loop valid below enough)
]

-- With more fuel than packets in the queue, the loop ends. From a device whose places lie in its
-- buffer it hands on the first packet of the queue that passes the filter, or none; it frees the
-- handles of the packets before it, once each and in order, and counts them as the filter does; the
-- rest of the queue stays, and the places lie in the buffer again.
pub receive_from-Delivers :
    (fuel : ℕ) (d : DpdkDevice) (w : Shim)
    → IsValid d
    → length (waiting d w) < fuel
    → Delivers (receive_from fuel d w) d w (waiting d w)
receive_from-Delivers zero d w valid enough = absurd (omega arith)
receive_from-Delivers (suc fuel) d w valid enough =
    step-Delivers fuel (receive_from-Delivers fuel) d w valid enough
