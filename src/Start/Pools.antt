-- ===== src/Start/Pools.antt =====
-- The pools that `probe_and_open` makes and drops (lines 227-235 and 263-274 of
-- bench/smoltcp-s3/src/lib.rs).
use miniosv_apps.Prelude.{
  ℕ, zero, suc, ◌+◌, ◌≡◌, ◌≢◌, inl, inr, refl, sym, ap, ap₂, ◌∙◌, false, Option, none, some, List,
  [], ◌∷◌, ◌++◌, append-nil, append_assoc, arith, Bool-cases, ◌==◌, if◌then◌else◌, Bytes,
}
use miniosv_apps.Start.{
  per_queue_size, cache, data_room_size, Call, create, destroy, configure, adjust, rx_setup,
  tx_setup, start, macaddr, Nic, drop_pools, pool_name, create_pools,
}

-- The pools that calls freed, and those that they made.
abbrev pub freed : List Call → List ℕ
freed [] = []
freed (destroy p ∷ cs) = p ∷ freed cs
freed (_ ∷ cs) = freed cs

abbrev pub made : List Call → List ℕ
made [] = []
made (create name n size priv room raw ∷ cs) = (if raw == 0 then made cs else raw ∷ made cs)
made (_ ∷ cs) = made cs

-- The pools that the caller gets.
abbrev pub kept : Option (List ℕ × Bytes) → List ℕ
kept none = []
kept (some (pools, mac)) = pools

freed-append : (xs ys : List Call) → freed (xs ++ ys) ≡ freed xs ++ freed ys
freed-append [] ys = refl
freed-append (destroy p ∷ xs) ys = ap (◌∷◌ p) (freed-append xs ys)
freed-append (create a b c d e f ∷ xs) ys = freed-append xs ys
freed-append (configure a b ∷ xs) ys = freed-append xs ys
freed-append (adjust a b ∷ xs) ys = freed-append xs ys
freed-append (rx_setup a b c ∷ xs) ys = freed-append xs ys
freed-append (tx_setup a b ∷ xs) ys = freed-append xs ys
freed-append (start ∷ xs) ys = freed-append xs ys
freed-append (macaddr ∷ xs) ys = freed-append xs ys

made-append : (xs ys : List Call) → made (xs ++ ys) ≡ made xs ++ made ys
made-append [] ys = refl
made-append (create a b c d e raw ∷ xs) ys = ground (arith, made-append xs ys)
made-append (destroy p ∷ xs) ys = made-append xs ys
made-append (configure a b ∷ xs) ys = made-append xs ys
made-append (adjust a b ∷ xs) ys = made-append xs ys
made-append (rx_setup a b c ∷ xs) ys = made-append xs ys
made-append (tx_setup a b ∷ xs) ys = made-append xs ys
made-append (start ∷ xs) ys = made-append xs ys
made-append (macaddr ∷ xs) ys = made-append xs ys

abbrev pub NonNull : List ℕ → Type 0
NonNull [] = Unit {0}
NonNull (p ∷ ps) = (p ≢ 0) × NonNull ps

NonNull-append : (ps qs : List ℕ) → NonNull ps → NonNull qs → NonNull (ps ++ qs)
NonNull-append [] qs h k = k
NonNull-append (p ∷ ps) qs (h, hs) k = (h, NonNull-append ps qs hs k)

freed-drop_pools : (ps : List ℕ) → NonNull ps → freed (drop_pools ps) ≡ ps
unfolding drop_pools
freed-drop_pools [] h = refl
freed-drop_pools (p ∷ ps) (h, hs) =
    let e : (p == 0) ≡ false = ground arith in rw e (ap (◌∷◌ p) (freed-drop_pools ps hs))

made-drop_pools : (ps : List ℕ) → made (drop_pools ps) ≡ []
unfolding drop_pools
made-drop_pools [] = refl
made-drop_pools (p ∷ ps) = ground (arith, made-drop_pools ps)

-- The calls so far made the pools, and freed none.
abbrev pub Holds : List ℕ → List Call → Type 0
Holds pools log = (freed log ≡ []) × (made log ≡ pools) × NonNull pools

pub Holds-append :
    (pools : List ℕ) (log calls : List Call)
    → freed calls ≡ []
    → made calls ≡ []
    → Holds pools log
    → Holds pools (log ++ calls)
Holds-append pools log calls f m (fs, ms, there) = (
  freed-append log calls ∙ ap₂ ◌++◌ fs f,
  made-append log calls ∙ ap₂ ◌++◌ ms m ∙ append-nil pools,
  there,
)

-- Where the pools are dropped, all that were made have been freed, in order.
pub Holds-drop_pools :
    (pools : List ℕ) (log : List Call)
    → Holds pools log
    → freed (log ++ drop_pools pools) ≡ made (log ++ drop_pools pools)
Holds-drop_pools pools log (fs, ms, there) =
    freed-append log (drop_pools pools)
    ∙ ap₂ ◌++◌ fs (freed-drop_pools pools there)
    ∙ sym (
        made-append log (drop_pools pools) ∙ ap₂ ◌++◌ ms (made-drop_pools pools) ∙ append-nil pools)

-- The pools for `left` queues from `q` on, and the calls that make them.
abbrev pub pools_from : Nic → ℕ → ℕ → List ℕ
pools_from nic zero q = []
pools_from nic (suc left) q = nic.pool_for q ∷ pools_from nic left (q + 1)

abbrev pub create_call : Nic → ℕ → Call
create_call nic q = create (pool_name q) per_queue_size cache 0 data_room_size (nic.pool_for q)

abbrev pub create_calls : Nic → ℕ → ℕ → List Call
create_calls nic zero q = []
create_calls nic (suc left) q = create_call nic q ∷ create_calls nic left (q + 1)

abbrev pub Created : Nic → ℕ → ℕ → List ℕ → List Call → Option (List ℕ) × List Call → Type 0
Created nic left q pools log (none, log') = freed log' ≡ made log'
Created nic left q pools log (some pools', log') =
    Holds pools' log'
    × (pools' ≡ pools ++ pools_from nic left q)
    × (log' ≡ log ++ create_calls nic left q)

Created-more :
    (nic : Nic) (left q : ℕ) (pools : List ℕ) (log : List Call) (r : Option (List ℕ) × List Call)
    → Created nic left (q + 1) (pools ++ (nic.pool_for q ∷ [])) (log ++ (create_call nic q ∷ [])) r
    → Created nic (suc left) q pools log r
Created-more nic left q pools log (none, log') h = h
Created-more nic left q pools log (some pools', log') (holds, p, l) = (
  holds,
  p ∙ append_assoc pools (nic.pool_for q ∷ []) (pools_from nic left (q + 1)),
  l ∙ append_assoc log (create_call nic q ∷ []) (create_calls nic left (q + 1)),
)

made-create :
    (nic : Nic) (q : ℕ) (there : (nic.pool_for q == 0) ≡ false)
    → made (create_call nic q ∷ []) ≡ nic.pool_for q ∷ []
made-create nic q there = rw there

pub create_pools-Created :
    (nic : Nic) (left q : ℕ) (pools : List ℕ) (log : List Call)
    → Holds pools log
    → Created nic left q pools log (create_pools nic left q pools log)
unfolding create_pools
create_pools-Created nic zero q pools log holds =
    (holds, sym (append-nil pools), sym (append-nil log))
create_pools-Created nic (suc left) q pools log holds =
    let log' = log ++ (create_call nic q ∷ []) in
    let (fs, ms, nonnull) = holds in
    elim (Bool-cases (nic.pool_for q == 0)) [
      | inl null ↦ simp null (
          Holds-drop_pools pools log'
            (Holds-append pools log (create_call nic q ∷ []) refl (rw null) holds))
      | inr more ↦
          let holds' : Holds (pools ++ (nic.pool_for q ∷ [])) log' = (
            freed-append log (create_call nic q ∷ []) ∙ ap₂ ◌++◌ fs refl,
            made-append log (create_call nic q ∷ []) ∙ ap₂ ◌++◌ ms (made-create nic q more),
            NonNull-append pools (nic.pool_for q ∷ []) nonnull (ground arith, tt),
          ) in
          simp more (
            Created-more nic left q pools log _
              (create_pools-Created nic left (q + 1) (pools ++ (nic.pool_for q ∷ [])) log' holds'))
    ]
