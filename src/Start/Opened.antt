-- ===== src/Start/Opened.antt =====
-- What `probe_and_open` has set up where it succeeds, and what becomes of the pools (lines 276-306 of
-- bench/smoltcp-s3/src/lib.rs).
use miniosv_apps.Prelude.{
  ℕ, zero, suc, ◌+◌, ◌≡◌, inl, inr, refl, sym, subst, ap, ap₂, ◌∙◌, Bool, true, false, Option, none,
  some, List, [], ◌∷◌, ◌++◌, append-nil, append_assoc, Bool-cases, if◌then◌else◌, get_or, Bytes,
}
use miniosv_apps.Start.{
  desc_num, Call, configure, adjust, rx_setup, tx_setup, start, macaddr, Nic, is_zero, drop_pools,
  create_pools, setup_queues, start_queues, open_device, probe_and_open,
}
use miniosv_apps.Start.Pools.{
  freed, made, NonNull, Holds, Holds-append, Holds-drop_pools, pools_from, create_calls, Created,
  create_pools-Created,
}

-- The calls that set up `left` queues from `q` on, and their success.
abbrev pub queue_calls : Nic → List ℕ → ℕ → ℕ → List Call
queue_calls nic pools zero q = []
queue_calls nic pools (suc left) q =
    rx_setup q nic.rx_desc (get_or pools q 0)
    ∷ tx_setup q nic.tx_desc
    ∷ queue_calls nic pools left (q + 1)

abbrev pub AllReady : Nic → ℕ → ℕ → Type 0
AllReady nic zero q = Unit {0}
AllReady nic (suc left) q =
    (is_zero (nic.rx_ready q) ≡ true)
    × (is_zero (nic.tx_ready q) ≡ true)
    × AllReady nic left (q + 1)

abbrev SetUp : Nic → List ℕ → ℕ → ℕ → List Call → Bool × List Call → Type 0
SetUp nic pools left q log (false, log') = Holds pools log'
SetUp nic pools left q log (true, log') =
    Holds pools log' × AllReady nic left q × (log' ≡ log ++ queue_calls nic pools left q)

SetUp-more :
    (nic : Nic) (pools : List ℕ) (left q : ℕ) (log : List Call) (r : Bool × List Call)
    → is_zero (nic.rx_ready q) ≡ true
    → is_zero (nic.tx_ready q) ≡ true
    → SetUp nic pools left
        (q + 1)
        ((log ++ (rx_setup q nic.rx_desc (get_or pools q 0) ∷ [])) ++ (tx_setup q nic.tx_desc ∷ []))
        r
    → SetUp nic pools (suc left) q log r
SetUp-more nic pools left q log (false, log') rx tx holds = holds
SetUp-more nic pools left q log (true, log') rx tx (holds, ready, l) = (
  holds,
  (rx, tx, ready),
  l
      ∙ append_assoc (log ++ (rx_setup q nic.rx_desc (get_or pools q 0) ∷ []))
          (tx_setup q nic.tx_desc ∷ []) (queue_calls nic pools left (q + 1))
      ∙ append_assoc log (rx_setup q nic.rx_desc (get_or pools q 0) ∷ [])
          (tx_setup q nic.tx_desc ∷ queue_calls nic pools left (q + 1)),
)

setup_queues-SetUp :
    (nic : Nic) (pools : List ℕ) (left q : ℕ) (log : List Call)
    → Holds pools log
    → SetUp nic pools left q log (setup_queues nic pools left q log)
unfolding setup_queues
setup_queues-SetUp nic pools zero q log holds = (holds, tt, sym (append-nil log))
setup_queues-SetUp nic pools (suc left) q log holds =
    let rx = rx_setup q nic.rx_desc (get_or pools q 0) ∷ [] in
    let tx = tx_setup q nic.tx_desc ∷ [] in
    let holds' = Holds-append pools log rx refl refl holds in
    let holds'' = Holds-append pools (log ++ rx) tx refl refl holds' in
    elim (Bool-cases (is_zero (nic.rx_ready q))) [
      | inl h ↦ elim (Bool-cases (is_zero (nic.tx_ready q))) [
        | inl k ↦
            simp (h, k)
              (SetUp-more nic pools left q log _ h k
                (setup_queues-SetUp nic pools left (q + 1) ((log ++ rx) ++ tx) holds''))
        | inr k ↦ simp (h, k) holds''
      ]
      | inr h ↦ simp h holds'
    ]

-- The calls of a start that succeeds.
abbrev pub all_calls : Nic → ℕ → List Call
all_calls nic n =
    create_calls nic n 0
    ++ (configure n n ∷ adjust desc_num desc_num ∷ queue_calls nic (pools_from nic n 0) n 0
        ++ (start ∷ macaddr ∷ []))

-- The end of `probe_and_open` for `n` queues.
abbrev pub Opens : Nic → ℕ → Option (List ℕ × Bytes) × List Call → Type 0
Opens nic n (none, log) = freed log ≡ made log
Opens nic n (some (pools, mac), log) =
    (freed log ≡ [])
    × (made log ≡ pools)
    × NonNull pools
    × (pools ≡ pools_from nic n 0)
    × (mac ≡ nic.mac)
    × (log ≡ all_calls nic n)
    × (is_zero nic.configured ≡ true)
    × AllReady nic n 0
    × (is_zero nic.started ≡ true)

regroup : (a b c d e : List Call) → (((a ++ b) ++ c) ++ d) ++ e ≡ a ++ (b ++ (c ++ (d ++ e)))
regroup a b c d e = simp append_assoc

start_queues-Opens :
    (nic : Nic) (n : ℕ) (pools : List ℕ) (log : List Call) (r : Bool × List Call)
    → pools ≡ pools_from nic n 0
    → is_zero nic.configured ≡ true
    → log ≡ create_calls nic n 0 ++ (configure n n ∷ adjust desc_num desc_num ∷ [])
    → SetUp nic pools n 0 log r
    → Opens nic n (start_queues nic n pools r)
unfolding start_queues
start_queues-Opens nic n pools log (false, log') p c l holds = Holds-drop_pools pools log' holds
start_queues-Opens nic n pools log (true, log') p c l (holds, ready, l') =
    let holds' = Holds-append pools log' (start ∷ []) refl refl holds in
    elim (Bool-cases (is_zero nic.started)) [
      | inl h ↦
          let (fs, ms, there) =
            Holds-append pools (log' ++ (start ∷ [])) (macaddr ∷ []) refl refl holds' in
          let whole =
            ap (λ t. (t ++ (start ∷ [])) ++ (macaddr ∷ []))
              (l' ∙ ap₂ (λ t ps. t ++ queue_calls nic ps n 0) l p)
            ∙ regroup (create_calls nic n 0) (configure n n ∷ adjust desc_num desc_num ∷ [])
                (queue_calls nic (pools_from nic n 0) n 0) (start ∷ []) (macaddr ∷ []) in
          simp h (fs, ms, there, p, refl, whole, c, ready, refl)
      | inr h ↦ simp h (Holds-drop_pools pools (log' ++ (start ∷ [])) holds')
    ]

open_device-Opens :
    (nic : Nic) (n : ℕ) (r : Option (List ℕ) × List Call)
    → Created nic n 0 [] [] r
    → Opens nic n (open_device nic n r)
unfolding open_device
open_device-Opens nic n (none, log) h = h
open_device-Opens nic n (some pools, log) (holds, p, l) =
    let first = configure n n ∷ [] in
    let second = adjust desc_num desc_num ∷ [] in
    let holds' = Holds-append pools log first refl refl holds in
    let holds'' = Holds-append pools (log ++ first) second refl refl holds' in
    let pick = λ (b : Bool).
      if b
      then start_queues nic n pools (setup_queues nic pools n 0 ((log ++ first) ++ second))
      else (none, (log ++ first) ++ drop_pools pools) in
    elim (Bool-cases (is_zero nic.configured)) [
      | inl h ↦
          let before =
            ap (λ t. (t ++ first) ++ second) l ∙ append_assoc (create_calls nic n 0) first second in
          subst (λ b. Opens nic n (pick b)) (sym h)
            (start_queues-Opens nic n pools ((log ++ first) ++ second) _ p h before
              (setup_queues-SetUp nic pools n 0 ((log ++ first) ++ second) holds''))
      | inr h ↦
          subst (λ b. Opens nic n (pick b)) (sym h) (Holds-drop_pools pools (log ++ first) holds')
    ]

-- Where `probe_and_open` gives up, every pool that it made has been freed, once and in order. Where it
-- succeeds it has freed none, and hands on the pools that it made, one for each queue, none null; its
-- calls then are: the pools, the card's configuration, for each queue its receive side with its own
-- pool and its transmit side, each with the descriptors granted, and the start; and every one of
-- them succeeded.
pub probe_and_open-Opens : (nic : Nic) (n : ℕ) → Opens nic n (probe_and_open nic n)
unfolding probe_and_open
probe_and_open-Opens nic n =
    open_device-Opens nic n (create_pools nic n 0 [] [])
      (create_pools-Created nic n 0 [] [] (refl, refl, tt))
