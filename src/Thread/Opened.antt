-- ===== src/Thread/Opened.antt =====
-- The connections of a worker that has opened all that it was asked for (lines 1300-1356 of
-- bench/smoltcp-s3/src/lib.rs): which blocks they ask for, and from which ports.
use miniosv_apps.Prelude.{
  ℕ, zero, suc, ◌+◌, ◌-◌, ◌^◌, ◌≤◌, ◌<◌, ◌≡◌, refl, subst, ap, ap₂, ◌∙◌, inl, inr, arith, Bool,
  ◌||◌, Option, none, some, List, [], ◌∷◌, map, Bool-cases, length, get_or, min, take, ◌%◌, u64,
  Bytes,
}
use miniosv_apps.Config.{Env, conns_per_worker, object_size, block_size, plain_http}
use miniosv_apps.Http.Request.{build_range_request-take}
use miniosv_apps.Plan.{Request, request, prepend, block_start, block_end, open_from, open_conns}
use miniosv_apps.Plan.Opened.{range_request, pieces-range_request}

-- The text that asks for a block, from its first byte to the last of as many as a block has, as far as
-- the buffer of 384 bytes holds it; and the texts of `n` blocks from `b` on.
abbrev pub block_text : Env → Bytes → ℕ → Bytes
block_text env host b =
    let start = block_start (object_size env) (block_size env) b in
    take 384 (range_request host start ((start + block_size env + (2 ^ 64 - 1)) % 2 ^ 64))

abbrev pub block_texts : Env → Bytes → ℕ → ℕ → List Bytes
block_texts env host zero b = []
block_texts env host (suc n) b = block_text env host b ∷ block_texts env host n (b + 1)

-- The entries of a list from place `i` on.
abbrev pub entries : List ℕ → ℕ → ℕ → List ℕ
entries xs zero i = []
entries xs (suc n) i = get_or xs i 0 ∷ entries xs n (i + 1)

entries_shift : (x : ℕ) (xs : List ℕ) (n i : ℕ) → entries (x ∷ xs) n (suc i) ≡ entries xs n i
entries_shift x xs zero i = refl
entries_shift x xs (suc n) i =
    let e : suc i + 1 ≡ suc (i + 1) = omega arith in
    ap (◌∷◌ (get_or xs i 0)) (ap (entries (x ∷ xs) n) e ∙ entries_shift x xs n (i + 1))

pub entries_all : (xs : List ℕ) → entries xs (length xs) 0 ≡ xs
entries_all [] = refl
entries_all (x ∷ xs) =
    let e : 0 + 1 ≡ 1 = omega arith in
    ap (◌∷◌ x)
      (ap (entries (x ∷ xs) (length xs)) e ∙ entries_shift x xs (length xs) 0 ∙ entries_all xs)

-- What a list of requests is where it has as many as there were rounds.
abbrev pub AreBlocks : Env → Bytes → ℕ → List ℕ → ℕ → ℕ → List Request → Type 0
AreBlocks env host first ports left i rs =
    (map (λ (r : Request). r.text) rs ≡ block_texts env host left (first + i))
    × (map (λ (r : Request). r.src_port) rs ≡ entries ports left i)

abbrev pub Rounds : Env → Bytes → ℕ → List ℕ → ℕ → ℕ → Option (List Request) → Type 0
Rounds env host first ports left i none = Unit {0}
Rounds env host first ports left i (some rs) =
    (length rs ≤ left) × (length rs ≡ left → AreBlocks env host first ports left i rs)

block_end-last : (size start : ℕ) → block_end size start ≡ (start + size + (2 ^ 64 - 1)) % 2 ^ 64
unfolding block_end
block_end-last size start = omega arith

request-block_text :
    (env : Env) (host : Bytes) (b port : ℕ) → (request env host b port).text ≡ block_text env host b
unfolding request
request-block_text env host b port =
    let start = block_start (object_size env) (block_size env) b in
    let last = block_end (block_size env) start in
    (build_range_request-take host 384 start last).0
    ∙ ap (take 384) (
        pieces-range_request host start last
        ∙ ap (range_request host start) (block_end-last (block_size env) start))

module _ (env : Env) (host : Bytes) (first : ℕ) (ports : List ℕ) where
  -- A round that opens nothing.
  Rounds-skip :
      (left i : ℕ) (o : Option (List Request))
      → Rounds env host first ports left (i + 1) o
      → Rounds env host first ports (suc left) i o
  Rounds-skip left i none h = tt
  Rounds-skip left i (some rs) (few, all) = (omega arith, λ e. absurd (omega arith))

  Rounds-prepend :
      (left i : ℕ) (o : Option (List Request))
      → first + i < 2 ^ 64
      → Rounds env host first ports left (i + 1) o
      → Rounds env host first ports
          (suc left)
          i
          (prepend (request env host (u64 (first + i)) (get_or ports i 0)) o)
  Rounds-prepend left i none small h = tt
  Rounds-prepend left i (some rs) small (few, all) = (
    omega arith,
    λ e.
        let (texts, sources) = all (omega arith) in
        let block : u64 (first + i) ≡ first + i = omega arith in
        let next : first + (i + 1) ≡ first + i + 1 = omega arith in
        (
          ap₂ ◌∷◌
              (request-block_text env host (u64 (first + i)) (get_or ports i 0)
                ∙ ap (block_text env host) block)
              (texts ∙ ap (block_texts env host left) next),
          unfold request in ap (◌∷◌ (get_or ports i 0)) sources,
        ),
  )

  open_from-Rounds :
      (connect session : ℕ → Bool) (left i : ℕ)
      → first + i + left ≤ 2 ^ 64
      → Rounds env host first ports left i (open_from env host connect session first ports left i)
  unfolding open_from
  open_from-Rounds connect session zero i small = (omega arith, λ e. (refl, refl))
  open_from-Rounds connect session (suc left) i small =
      let later = open_from-Rounds connect session left (i + 1) (omega arith) in
      elim (Bool-cases (connect i)) [
        | inl c ↦ elim (Bool-cases (plain_http env || session i)) [
          | inl s ↦ rw (c, s) (Rounds-prepend left i _ (omega arith) later)
          | inr s ↦ rw (c, s) tt
        ]
        | inr c ↦ rw c (Rounds-skip left i _ later)
      ]

  -- The connections that a worker opens, as many as it was asked for.
  pub open_conns-AreBlocks :
      (connect session : ℕ → Bool) (fault : ℕ) (rs : List Request)
      → first + conns_per_worker env ≤ 2 ^ 64
      → open_conns env host connect session first ports fault ≡ some rs
      → (length rs ≤ conns_per_worker env)
        × (length rs ≡ conns_per_worker env
            → length ports ≤ conns_per_worker env
            → (map (λ (r : Request). r.text) rs ≡ block_texts env host (conns_per_worker env) first)
              × (map (λ (r : Request). r.src_port) rs ≡ ports))
  unfolding open_conns
  open_conns-AreBlocks connect session fault rs small e =
      let left = min (conns_per_worker env) (length ports) - fault in
      let (few, all) =
        subst (Rounds env host first ports left 0) e
          (open_from-Rounds connect session left 0 (omega arith)) in
      (
        omega arith,
        λ full bounded.
            let whole : left ≡ conns_per_worker env = omega arith in
            let every : left ≡ length ports = omega arith in
            let start : first + 0 ≡ first = omega arith in
            let (texts, sources) = all (omega arith) in
            (
              texts ∙ ap₂ (block_texts env host) whole start,
              sources ∙ ap (λ n. entries ports n 0) every ∙ entries_all ports,
            ),
      )
