-- ===== src/Device/Serve.antt =====
-- A stack that takes tokens of `DpdkDevice::receive` until none is left, and consumes or drops each
-- (lines 647-668 and 698-757).
use miniosv_apps.Prelude.{
  ℕ, zero, suc, ◌+◌, ◌<◌, ◌≡◌, refl, sym, ap, subst, ◌∙◌, arith, Bool, inl, inr, true, false,
  Option, none, some, List, [], ◌∷◌, ◌++◌, append_assoc, Bool-cases, if◌then◌else◌, length, Bytes,
}
use miniosv_apps.Device.{
  Packet, DpdkDevice, Shim, DpdkRxToken, mbuf, synth, accept, receive_from, receive,
}
use miniosv_apps.Device.Queue.{
  Passed, pass, frames, count_all, handles, token_of, RestIs, waiting, IsValid,
}
use miniosv_apps.Device.Receive.{receive_from-Delivers}
use miniosv_apps.Device.Tokens.{consume_rx, drop_rx}

-- The stack looks at the frame of token `k` where `uses k`, and else drops the token.
abbrev pub use_token : Bool → DpdkRxToken → Shim → List Bytes × Shim
use_token true token w = consume_rx token (λ b. b ∷ []) w
use_token false token w = ([], drop_rx token w)

-- The frames that a stack saw, the device and the shim, once there is no token; `none` where the
-- rounds or the fuel of a call run out.
abbrev pub Served : Type 0
Served = Option (List Bytes × DpdkDevice × Shim)

abbrev pub prepend : List Bytes → Served → Served
prepend seen none = none
prepend seen (some (more, d, w)) = some (seen ++ more, d, w)

abbrev pub served :
    Bool → (DpdkDevice → Shim → Served) → Option (Option DpdkRxToken × DpdkDevice × Shim) → Served
served looks later none = none
served looks later (some (none, d, w)) = some ([], d, w)
served looks later (some (some token, d, w)) =
    let (seen, w') = use_token looks token w in prepend seen (later d w')

unfoldable pub serve : ℕ → ℕ → (ℕ → Bool) → ℕ → DpdkDevice → Shim → Served
serve zero fuel uses k d w = none
serve (suc rounds) fuel uses k d w =
    served (uses k) (serve rounds fuel uses (k + 1)) (receive fuel d w)

-- The frames that it uses of a list of frames.
abbrev pub looked : (ℕ → Bool) → ℕ → List Bytes → List Bytes
looked uses k [] = []
looked uses k (b ∷ bs) = (if uses k then b ∷ [] else []) ++ looked uses (k + 1) bs

-- A queue up to its first packet that passes.
pub data Split (owned : Option Bytes) (mis : ℕ) (q : List Packet) (r : Passed) : Type 0 where
  nothing :
      r.token ≡ none
      → handles q ≡ r.dropped
      → frames owned q ≡ []
      → count_all owned mis q ≡ r.counted
      → Split owned mis q r
  first :
      (p : Packet)
      → r.token ≡ some p
      → handles q ≡ r.dropped ++ (p.handle ∷ handles r.rest)
      → frames owned q ≡ p.frame ∷ frames owned r.rest
      → count_all owned mis q ≡ count_all owned r.counted r.rest
      → length r.rest < length q
      → Split owned mis q r

accept_any :
    (owned : Option Bytes) (m n : ℕ) (b : Bytes) → (accept owned m b).0 ≡ (accept owned n b).0
unfolding accept
accept_any owned m n b = ground arith

-- A packet that is dropped, before a queue that is split.
Split-drop :
    (owned : Option Bytes) (mis : ℕ) (p : Packet) (ps : List Packet)
    → (accept owned mis p.frame).0 ≡ false
    → Split owned (accept owned mis p.frame).1 ps (pass owned (accept owned mis p.frame).1 ps)
    → Split owned mis (p ∷ ps) (pass owned mis (p ∷ ps))
Split-drop owned mis p ps bad later =
    let bad' = accept_any owned 0 mis p.frame ∙ bad in
    elim later [
      | nothing e hs fs c ↦ simp bad (nothing e (ap (◌∷◌ p.handle) hs) (simp bad' fs) c)
      | first q e hs fs c less ↦
          simp bad (first q e (ap (◌∷◌ p.handle) hs) (simp bad' fs) c (omega (arith, less)))
    ]

pass-Split :
    (owned : Option Bytes) (mis : ℕ) (q : List Packet) → Split owned mis q (pass owned mis q)
pass-Split owned mis [] = nothing refl refl refl refl
pass-Split owned mis (p ∷ ps) = elim (Bool-cases (accept owned mis p.frame).0) [
  | inl ok ↦
      simp ok
        (first p refl refl (simp (accept_any owned 0 mis p.frame ∙ ok) refl) refl (omega arith))
  | inr bad ↦ Split-drop owned mis p ps bad (pass-Split owned (accept owned mis p.frame).1 ps)
]

-- The end of a run in which the queue `q` was served from token `k` on.
abbrev pub Serves :
    (ℕ → Bool)
    → ℕ
    → DpdkDevice
    → Shim
    → List Packet
    → Option (List Bytes × DpdkDevice × Shim)
    → Type 0
Serves uses k d w q o =
    (d' : DpdkDevice) × (w' : Shim) × (o ≡ some (looked uses k (frames d.owned_ports q), d', w'))
    × (w'.freed ≡ w.freed ++ handles q)
    × (w'.misrouted ≡ count_all d.owned_ports w.misrouted q)

receive_idle :
    (fuel : ℕ) (d : DpdkDevice) (w : Shim)
    → d.pending_synth ≡ none
    → receive fuel d w ≡ receive_from fuel d w
unfolding receive
receive_idle fuel d w idle =
    ap
      (λ (o : Option Bytes). elim o as (λ _. Option (Option DpdkRxToken × DpdkDevice × Shim)) [
        | none ↦ receive_from fuel d w
        | some buf ↦ some (some (synth buf), record d { pending_synth = none }, w)
      ])
      idle

use_token-mbuf :
    (looks : Bool) (p : Packet) (w : Shim)
    → use_token looks (mbuf p) w
      ≡ ((if looks then p.frame ∷ [] else []), record w { freed = w.freed ++ (p.handle ∷ []) })
unfolding consume_rx drop_rx
use_token-mbuf true p w = refl
use_token-mbuf false p w = refl

-- A queue is served where its first token is used and what is behind it is served.
served-Serves :
    (uses : ℕ → Bool) (k : ℕ) (d d' : DpdkDevice) (w w' : Shim) (q : List Packet) (r : Passed)
    (p : Packet) (later : DpdkDevice → Shim → Served)
    → d'.owned_ports ≡ d.owned_ports
    → w'.freed ≡ w.freed ++ r.dropped
    → w'.misrouted ≡ r.counted
    → handles q ≡ r.dropped ++ (p.handle ∷ handles r.rest)
    → frames d.owned_ports q ≡ p.frame ∷ frames d.owned_ports r.rest
    → count_all d.owned_ports w.misrouted q ≡ count_all d.owned_ports r.counted r.rest
    → let w'' : Shim = record w' { freed = w'.freed ++ (p.handle ∷ []) } in
      Serves uses (k + 1) d' w'' r.rest (later d' w'')
      → Serves uses k d w q (served (uses k) later (some (some (mbuf p), d', w')))
served-Serves uses k d d' w w' q r p later same freed counted hs fs c
      (d'', w₃, result, freed', counted') =
    (
      d'',
      w₃,
      ap (λ t. prepend t.0 (later d' t.1)) (use_token-mbuf (uses k) p w')
          ∙ ap (prepend (if uses k then p.frame ∷ [] else [])) result
          ∙ ap
              (λ o. some (
                (if uses k then p.frame ∷ [] else []) ++ looked uses (k + 1) (frames o r.rest),
                d'',
                w₃,
              ))
              same
          ∙ ap (λ t. some (looked uses k t, d'', w₃)) (sym fs),
      freed'
          ∙ append_assoc w'.freed (p.handle ∷ []) (handles r.rest)
          ∙ ap (λ t. t ++ (p.handle ∷ handles r.rest)) freed
          ∙ append_assoc w.freed r.dropped (p.handle ∷ handles r.rest)
          ∙ ap (λ t. w.freed ++ t) (sym hs),
      counted'
          ∙ ap (λ o. count_all o w'.misrouted r.rest) same
          ∙ ap (λ m. count_all d.owned_ports m r.rest) counted
          ∙ sym c,
    )

-- A stack takes tokens from a device whose places lie in its buffer and that has no fabricated
-- frame, and consumes or drops each as it likes. With more rounds and fuel than packets in the queue
-- it comes to the end: it saw the frames that pass the filter and that it consumed, in order; the
-- handle of every packet of the queue was freed once, in order; and the counter counted each packet
-- that the filter counts.
pub serve-Serves :
    (rounds fuel : ℕ) (uses : ℕ → Bool) (k : ℕ) (d : DpdkDevice) (w : Shim)
    → IsValid d
    → d.pending_synth ≡ none
    → length (waiting d w) < rounds
    → length (waiting d w) < fuel
    → Serves uses k d w (waiting d w) (serve rounds fuel uses k d w)
unfolding serve
serve-Serves zero fuel uses k d w valid idle enough fuelled = absurd (omega arith)
serve-Serves (suc rounds) fuel uses k d w valid idle enough fuelled =
    let later = serve rounds fuel uses (k + 1) in
    let q = waiting d w in
    let r = pass d.owned_ports w.misrouted q in
    let (d', w', result, freed, counted, rest, valid', (owned, synths)) =
      receive_from-Delivers fuel d w valid fuelled in
    let received = receive_idle fuel d w idle ∙ result in
    elim (pass-Split d.owned_ports w.misrouted q) [
      | nothing e hs fs c ↦
          let step =
            ap (served (uses k) later) (received ∙ ap (λ t. some (token_of t, d', w')) e) in
          (
            d',
            w',
            step ∙ ap (λ t. some (looked uses k t, d', w')) (sym fs),
            freed ∙ ap (λ t. w.freed ++ t) (sym hs),
            counted ∙ sym c,
          )
      | first p e hs fs c less ↦
          let step =
            ap (served (uses k) later) (received ∙ ap (λ t. some (token_of t, d', w')) e) in
          let w'' : Shim = record w' { freed = w'.freed ++ (p.handle ∷ []) } in
          let queue : waiting d' w'' ≡ r.rest =
            subst (λ t. RestIs t r.rest (waiting d' w')) e rest in
          let n = ap length queue in
          subst (Serves uses k d w q) (sym step) (
            served-Serves uses k d d' w w' q r p later owned freed counted hs fs c (
              subst (λ t. Serves uses (k + 1) d' w'' t (later d' w'')) queue
                (serve-Serves rounds fuel uses (k + 1) d' w'' valid' (synths ∙ idle)
                  (omega (arith, n, less, enough)) (omega (arith, n, less, fuelled)))))
    ]
