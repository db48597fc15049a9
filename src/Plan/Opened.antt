-- ===== src/Plan/Opened.antt =====
-- What the connections that a worker opens ask for.
use miniosv_apps.Prelude.{
  ℕ, zero, suc, ◌+◌, ◌-◌, ◌^◌, ◌≤◌, ◌<◌, ◌≡◌, refl, ap, ◌∙◌, ◌++◌, take, decimal, inl, inr, min,
  Bool, ◌||◌, Option, none, some, List, [], ◌∷◌, arith, Bool-cases, length, get_or, u64, Bytes,
}
use miniosv_apps.Config.{Env, conns_per_worker, object_size, block_size, plain_http}
use miniosv_apps.Http.{codes, request_pieces}
use miniosv_apps.Http.Counting.{stream}
use miniosv_apps.Http.Request.{build_range_request-take}
use miniosv_apps.Plan.{block_start, block_end, Request, request, prepend, open_from, open_conns}
use miniosv_apps.Plan.Blocks.{block-inside}

-- The text that asks for a range of bytes, the first and the last of them in decimal digits.
abbrev pub range_request : Bytes → ℕ → ℕ → Bytes
range_request host first last =
    codes "GET /blob.bin HTTP/1.1\r\nHost: "
    ++ (host
        ++ (codes "\r\nUser-Agent: minidpdk-smoltcp/0.1\r\nRange: bytes="
            ++ (decimal first
                ++ (codes "-" ++ (decimal last ++ codes "\r\nConnection: close\r\n\r\n")))))

-- A request for one block inside the object, with the text that asks for that block, as far as the
-- buffer of 384 bytes holds it.
abbrev pub IsBlock : Env → Bytes → Request → Type 0
IsBlock env host r =
    (r.end_inclusive < object_size env)
    × (r.end_inclusive + 1 ≡ r.start + block_size env)
    × (r.expected ≡ block_size env)
    × (r.text ≡ take 384 (range_request host r.start (r.start + block_size env - 1)))

abbrev pub AllBlocks : Env → Bytes → List Request → Type 0
AllBlocks env host [] = Unit {0}
AllBlocks env host (r ∷ rs) = IsBlock env host r × AllBlocks env host rs

abbrev pub BlocksIf : Env → Bytes → Option (List Request) → Type 0
BlocksIf env host none = Unit {0}
BlocksIf env host (some rs) = AllBlocks env host rs

-- The pieces of the request, put together.
pub pieces-range_request :
    (host : Bytes) (first last : ℕ)
    → stream (request_pieces host first last) ≡ range_request host first last
unfolding request_pieces
pieces-range_request host first last = refl

module _ (env : Env) (host : Bytes) (first : ℕ) (ports : List ℕ) (big : object_size env < 2 ^ 64)
    (some_bytes : 0 < block_size env) (fits : block_size env ≤ object_size env) where
  request-IsBlock : (block port : ℕ) → IsBlock env host (request env host block port)
  unfolding request
  request-IsBlock block port =
      let start = block_start (object_size env) (block_size env) block in
      let (below, full, size) =
        block-inside (object_size env) (block_size env) block big some_bytes fits in
      let last : block_end (block_size env) start ≡ start + block_size env - 1 =
        omega (arith, full) in
      (
        below,
        full,
        size,
        (build_range_request-take host 384 start (block_end (block_size env) start)).0
            ∙ ap (take 384) (
                pieces-range_request host start (block_end (block_size env) start)
                ∙ ap (range_request host start) last),
      )

  BlocksIf-cons :
      (r : Request) (rest : Option (List Request))
      → IsBlock env host r
      → BlocksIf env host rest
      → BlocksIf env host (prepend r rest)
  BlocksIf-cons r none b bs = tt
  BlocksIf-cons r (some rs) b bs = (b, bs)

  open_from-AllBlocks :
      (connect session : ℕ → Bool) (left i : ℕ)
      → BlocksIf env host (open_from env host connect session first ports left i)
  unfolding open_from
  open_from-AllBlocks connect session zero i = tt
  open_from-AllBlocks connect session (suc left) i =
      let later = open_from-AllBlocks connect session left (i + 1) in
      elim (Bool-cases (connect i)) [
        | inl c ↦ elim (Bool-cases (plain_http env || session i)) [
          | inl s ↦
              rw (c, s)
                (BlocksIf-cons _ _ (request-IsBlock (u64 (first + i)) (get_or ports i 0)) later)
          | inr s ↦ rw (c, s) tt
        ]
        | inr c ↦ rw c later
      ]

  -- Where the object's size is a `u64`, and a block is nonzero and fits the object, every connection
  -- that a worker opens asks for one block inside the object, in the text of its request, as far as
  -- the buffer of 384 bytes holds it, and expects the size of a block.
  pub open_conns-AllBlocks :
      (connect session : ℕ → Bool) (fault : ℕ)
      → BlocksIf env host (open_conns env host connect session first ports fault)
  unfolding open_conns
  open_conns-AllBlocks connect session fault =
      open_from-AllBlocks connect session (min (conns_per_worker env) (length ports) - fault) 0

-- The number of connections, 0 for a worker that ended.
abbrev pub opened : Option (List Request) → ℕ
opened none = 0
opened (some rs) = length rs

opened-map :
    (r : Request) (rest : Option (List Request)) → opened (prepend r rest) ≤ 1 + opened rest
opened-map r none = omega arith
opened-map r (some rs) = omega arith

module _ (env : Env) (host : Bytes) (connect session : ℕ → Bool) (first : ℕ) (ports : List ℕ) where
  opened-le : (left i : ℕ) → opened (open_from env host connect session first ports left i) ≤ left
  unfolding open_from
  opened-le zero i = omega arith
  opened-le (suc left) i =
      let later = opened-le left (i + 1) in
      elim (Bool-cases (connect i)) [
        | inl c ↦ elim (Bool-cases (plain_http env || session i)) [
          | inl s ↦
              let more =
                opened-map (request env host (u64 (first + i)) (get_or ports i 0))
                  (open_from env host connect session first ports left (i + 1)) in
              rw (c, s) (omega (arith, more, later))
          | inr s ↦ rw (c, s) (omega arith)
        ]
        | inr c ↦ rw c (omega (arith, later))
      ]

  -- A worker opens at most as many connections as it was asked for and has ports for, less those
  -- that the test knob leaves out.
  pub opened-open_conns :
      (fault : ℕ)
      → opened (open_conns env host connect session first ports fault)
        ≤ min (conns_per_worker env) (length ports) - fault
  unfolding open_conns
  opened-open_conns fault = opened-le (min (conns_per_worker env) (length ports) - fault) 0
