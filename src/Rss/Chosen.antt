-- ===== src/Rss/Chosen.antt =====
-- The source ports that a worker dials from: the loop over `my_ports` in `worker_thread`.
use native.Mathlib.Nat.{zero-add}
use miniosv_apps.Prelude.{
  ℕ, zero, suc, ◌+◌, ◌-◌, ◌/◌, ◌%◌, ◌≤◌, ◌<◌, ◌≡◌, ◌≢◌, refl, sym, ap, ◌∙◌, ◌↔◌, inl, inr, min, max,
  Bool, true, false, List, [], ◌∷◌, ◌++◌, arith, Bool-cases, Bool-eq_of_iff, ◌==◌, ==_iff,
  if◌then◌else◌, length, length-append, Bytes, subst,
}
use miniosv_apps.Config.{Env}
use miniosv_apps.Rss.{
  RssState, queue_for_local_port, owns_port, pick_from, pick_ports, eph_base, eph_len,
}
use miniosv_apps.Rss.Owned.{hits, u16-port}
use miniosv_apps.Rss.Steering.{owned_bitmap, owned_count, owns_port-owned_bitmap, owned_count-hits}
use miniosv_apps.Prelude.Ascending.{
  Ascending, Ascending-widen, Ascending-concat, Ascending-map, shares, shares-Ascending,
}
use miniosv_apps.Rss.Stride.{multiples, stride_lem}

abbrev next_seen : Bytes → ℕ → ℕ → ℕ
next_seen bitmap i seen = if owns_port bitmap (eph_base + i) then seen + 1 else seen

abbrev next_ports : Bytes → ℕ → ℕ → ℕ → List ℕ → List ℕ
next_ports bitmap stride i seen ports =
    if owns_port bitmap (eph_base + i)
    then (if seen % stride == 0 then ports ++ ((eph_base + i) ∷ []) else ports)
    else ports

abbrev next_pick : Bytes → ℕ → ℕ → ℕ → ℕ → ℕ → List ℕ → List ℕ
next_pick bitmap limit stride left i seen ports =
    pick_from bitmap limit stride left (i + 1) (next_seen bitmap i seen)
      (next_ports bitmap stride i seen ports)

-- One round of the loop, with the port's number written out.
pick_from-suc :
    (bitmap : Bytes) (limit stride left i seen : ℕ) (ports : List ℕ)
    → i < eph_len
    → (length ports == limit) ≡ false
    → pick_from bitmap limit stride (suc left) i seen ports
      ≡ pick_from bitmap limit stride left
          (i + 1)
          (next_seen bitmap i seen)
          (next_ports bitmap stride i seen ports)
unfolding pick_from
pick_from-suc bitmap limit stride left i seen ports h more = rw more (
    ap
      (λ p.
        pick_from bitmap limit stride left (i + 1) (if owns_port bitmap p then seen + 1 else seen) (
          if owns_port bitmap p
          then (if seen % stride == 0 then ports ++ (p ∷ []) else ports)
          else ports))
      (u16-port i h))

pick_from_full :
    (bitmap : Bytes) (limit stride left i seen : ℕ) (ports : List ℕ)
    → (length ports == limit) ≡ true
    → pick_from bitmap limit stride left i seen ports ≡ ports
unfolding pick_from
pick_from_full bitmap limit stride zero i seen ports h = refl
pick_from_full bitmap limit stride (suc left) i seen ports h = rw h

abbrev Owned : Bytes → ℕ → Type 0
Owned bitmap p = owns_port bitmap p ≡ true

round-Ascending :
    (bitmap : Bytes) (stride i seen : ℕ) (ports : List ℕ)
    → Ascending (Owned bitmap) eph_base (eph_base + i) ports
    → Ascending (Owned bitmap) eph_base (eph_base + (i + 1)) (next_ports bitmap stride i seen ports)
round-Ascending bitmap stride i seen ports a =
    let P = Owned bitmap in
    let x = eph_base + i in
    let kept =
      Ascending-widen P eph_base (eph_base + i) (eph_base + (i + 1)) ports (omega arith) a in
    elim (Bool-cases (owns_port bitmap x)) [
      | inl own ↦ elim (Bool-cases (seen % stride == 0)) [
        | inl take ↦
            rw (own, take)
              (let e : suc x ≡ eph_base + (i + 1) = omega arith in
                subst (λ t. Ascending P eph_base t (ports ++ (x ∷ []))) e
                  (Ascending-concat P eph_base x x ports (omega arith) own a))
        | inr skip ↦ rw (own, skip) kept
      ]
      | inr other ↦ rw other kept
    ]

pick_from-Ascending :
    (bitmap : Bytes) (limit stride left i seen : ℕ) (ports : List ℕ)
    → i + left ≤ eph_len
    → Ascending (Owned bitmap) eph_base (eph_base + i) ports
    → Ascending
        (Owned bitmap)
        eph_base
        (eph_base + (i + left))
        (pick_from bitmap limit stride left i seen ports)
pick_from-Ascending bitmap limit stride zero i seen ports h a =
    unfold pick_from in
    Ascending-widen (Owned bitmap) eph_base (eph_base + i) (eph_base + (i + 0)) ports (omega arith)
      a
pick_from-Ascending bitmap limit stride (suc left) i seen ports h a =
    elim (Bool-cases (length ports == limit)) [
      | inl full ↦ rw (pick_from_full bitmap limit stride (suc left) i seen ports full) (
          Ascending-widen (Owned bitmap) eph_base (eph_base + i) (eph_base + (i + suc left)) ports
            (omega arith) a)
      | inr more ↦ rw (pick_from-suc bitmap limit stride left i seen ports (omega arith) more) (
          Ascending-widen (Owned bitmap) eph_base (eph_base + (i + 1 + left))
            (eph_base + (i + suc left)) (next_pick bitmap limit stride left i seen ports)
            (omega arith)
            (pick_from-Ascending bitmap limit stride left (i + 1) (next_seen bitmap i seen)
              (next_ports bitmap stride i seen ports) (omega arith)
              (round-Ascending bitmap stride i seen ports a)))
    ]

-- What one round adds to the list and takes from the ports to come.
round-multiples :
    (bitmap : Bytes) (stride i seen h : ℕ) (ports : List ℕ)
    → length (next_ports bitmap stride i seen ports) + multiples stride h (next_seen bitmap i seen)
      ≡ length ports
        + multiples stride ((if owns_port bitmap (eph_base + i) then 1 else 0) + h) seen
round-multiples bitmap stride i seen h ports = elim (Bool-cases (owns_port bitmap (eph_base + i))) [
  | inl own ↦
      let e : 1 + h ≡ suc h = omega arith in
      let added = length-append ports ((eph_base + i) ∷ []) in
      rw (own, e) (unfold multiples in ground (arith, added))
  | inr other ↦ let e : 0 + h ≡ h = omega arith in rw (other, e)
]

length-next_ports :
    (bitmap : Bytes) (stride i seen : ℕ) (ports : List ℕ)
    → length (next_ports bitmap stride i seen ports) ≤ length ports + 1
length-next_ports bitmap stride i seen ports =
    ground (arith, length-append ports ((eph_base + i) ∷ []))

-- The loop takes every `stride`-th owned port until it has `limit` of them.
length-pick_from :
    (bitmap : Bytes) (limit stride left i seen : ℕ) (ports : List ℕ)
    → i + left ≤ eph_len
    → length ports ≤ limit
    → length (pick_from bitmap limit stride left i seen ports)
      ≡ min limit (
          length ports + multiples stride (hits (λ i. owns_port bitmap (eph_base + i)) left i) seen)
length-pick_from bitmap limit stride zero i seen ports h k =
    unfold pick_from hits multiples in omega arith
length-pick_from bitmap limit stride (suc left) i seen ports h k =
    elim (Bool-cases (length ports == limit)) [
      | inl full ↦
          rw (pick_from_full bitmap limit stride (suc left) i seen ports full) (ground arith)
      | inr more ↦
          let rest = hits (λ i. owns_port bitmap (eph_base + i)) left (i + 1) in
          let short : length ports + 1 ≤ limit = ground arith in
          ap length (pick_from-suc bitmap limit stride left i seen ports (omega arith) more)
          ∙ length-pick_from bitmap limit stride left (i + 1) (next_seen bitmap i seen)
              (next_ports bitmap stride i seen ports) (omega arith)
              (omega (arith, length-next_ports bitmap stride i seen ports))
          ∙ unfold hits in ap (min limit) (round-multiples bitmap stride i seen rest ports)
    ]

-- The ports that a worker dials from.
unfoldable pub worker_ports : Env → RssState → Bytes → ℕ → ℕ → List ℕ
worker_ports env st our_ip queue_id limit =
    pick_ports (owned_bitmap env st our_ip queue_id) (owned_count env st our_ip queue_id) limit

abbrev pub IsSteered : Env → RssState → Bytes → ℕ → ℕ → Type 0
IsSteered env st our_ip queue_id port = queue_for_local_port env st our_ip port ≡ queue_id

steered :
    (env : Env) (st : RssState) (our_ip : Bytes) (queue_id p : ℕ)
    → eph_base ≤ p
    → p < eph_base + eph_len
    → owns_port (owned_bitmap env st our_ip queue_id) p ≡ true
    → IsSteered env st our_ip queue_id p
steered env st our_ip queue_id p lo hi own =
    let e : eph_base + (p - eph_base) ≡ p = omega arith in
    subst (IsSteered env st our_ip queue_id) e (
      (owns_port-owned_bitmap env st our_ip queue_id (p - eph_base) (omega arith)).0
        (subst (Owned (owned_bitmap env st our_ip queue_id)) (sym e) own))

-- The ports that a worker dials from are distinct, in ascending order, all in the dynamic range,
-- and return traffic to each is steered to the worker's queue.
pub worker_ports-IsSteered :
    (env : Env) (st : RssState) (our_ip : Bytes) (queue_id limit : ℕ)
    → Ascending
        (IsSteered env st our_ip queue_id)
        eph_base
        (eph_base + eph_len)
        (worker_ports env st our_ip queue_id limit)
unfolding worker_ports pick_ports
worker_ports-IsSteered env st our_ip queue_id limit =
    let bitmap = owned_bitmap env st our_ip queue_id in
    let stride = max 1 (owned_count env st our_ip queue_id / limit) in
    Ascending-map (Owned bitmap) (IsSteered env st our_ip queue_id) eph_base (eph_base + eph_len)
      (pick_from bitmap limit stride eph_len 0 0 [])
      (λ p lo hi own. steered env st our_ip queue_id p lo hi own)
      (pick_from-Ascending bitmap limit stride eph_len 0 0 [] (omega arith) (omega arith))

hits_ext :
    (f g : ℕ → Bool) (left i : ℕ)
    → ((j : ℕ) → j < i + left → f j ≡ g j)
    → hits f left i ≡ hits g left i
unfolding hits
hits_ext f g zero i h = refl
hits_ext f g (suc left) i h =
    rw (h i (omega arith))
      (ap (λ t. (if g i then 1 else 0) + t) (hits_ext f g left (i + 1) (λ j k. h j (omega arith))))

hits-owned :
    (env : Env) (st : RssState) (our_ip : Bytes) (queue_id : ℕ)
    → hits (λ i. owns_port (owned_bitmap env st our_ip queue_id) (eph_base + i)) eph_len 0
      ≡ owned_count env st our_ip queue_id
hits-owned env st our_ip queue_id =
    hits_ext (λ i. owns_port (owned_bitmap env st our_ip queue_id) (eph_base + i))
      (λ i. queue_for_local_port env st our_ip (eph_base + i) == queue_id) eph_len 0
      (λ j k. Bool-eq_of_iff _ _ (owned_iff j (rw (zero-add eph_len) at k)))
    ∙ sym (owned_count-hits env st our_ip queue_id)
  where
    owned_iff :
        (j : ℕ)
        → j < eph_len
        → (owns_port (owned_bitmap env st our_ip queue_id) (eph_base + j) ≡ true)
          ↔ ((queue_for_local_port env st our_ip (eph_base + j) == queue_id) ≡ true)
    owned_iff j k =
        let (to, from) = owns_port-owned_bitmap env st our_ip queue_id j k in
        let (a, b) = ==_iff (queue_for_local_port env st our_ip (eph_base + j)) queue_id in
        (λ o. b (to o), λ e. from (a e))

-- A worker dials from as many ports as it was asked for, or from all that are steered to its queue
-- where those are fewer.
pub length-worker_ports :
    (env : Env) (st : RssState) (our_ip : Bytes) (queue_id limit : ℕ)
    → 0 < limit
    → length (worker_ports env st our_ip queue_id limit)
      ≡ min limit
          (hits (λ i. queue_for_local_port env st our_ip (eph_base + i) == queue_id) eph_len 0)
unfolding worker_ports pick_ports
length-worker_ports env st our_ip queue_id limit h =
    let bitmap = owned_bitmap env st our_ip queue_id in
    let count = owned_count env st our_ip queue_id in
    let stride = max 1 (count / limit) in
    let picked =
      length-pick_from bitmap limit stride eph_len 0 0 [] (omega arith) (omega arith)
      ∙ ap (min limit) (zero-add _) in
    let owned = hits-owned env st our_ip queue_id in
    picked
    ∙ ap (λ t. min limit (multiples stride t 0)) owned
    ∙ stride_lem count limit h
    ∙ ap (min limit) (owned_count-hits env st our_ip queue_id)

-- No port is dialled from by the workers of two queues.
pub worker_ports_disjoint :
    (env : Env) (st : RssState) (our_ip : Bytes) (q q' limit : ℕ)
    → q ≢ q'
    → shares (worker_ports env st our_ip q limit) (worker_ports env st our_ip q' limit) ≡ false
worker_ports_disjoint env st our_ip q q' limit ne =
    shares-Ascending (IsSteered env st our_ip q) (IsSteered env st our_ip q') eph_base eph_base
      (eph_base + eph_len) (worker_ports env st our_ip q limit)
      (worker_ports env st our_ip q' limit)
      (λ x y px qy e. ne (sym px ∙ ap (queue_for_local_port env st our_ip) (sym e) ∙ qy))
      (worker_ports-IsSteered env st our_ip q limit) (worker_ports-IsSteered env st our_ip q' limit)
