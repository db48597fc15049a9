-- ===== src/Device/Sent.antt =====
-- Several frames that a stack sends through `DpdkTxToken` (lines 670-692), one after the other.
use miniosv_apps.Prelude.{
  ℕ, ◌+◌, ◌≤◌, ◌<◌, ◌^◌, ◌≡◌, sym, ap, ◌∙◌, arith, Bool, true, false, Option, none, some, List, [],
  ◌∷◌, ◌++◌, append-nil, append_assoc, if◌then◌else◌, length, take, u64, u16, min, Bytes,
}
use miniosv_apps.Device.Tokens.{TxBuffer, TxCall, TxState, consume_tx}

-- A frame of the stack: its length and how it is written; and what the shim answers to it.
pub record Send : Type 0 where
  pub buffer : Option TxBuffer
  pub refused : Bool
  pub len : ℕ
  pub write : Bytes → Bytes

abbrev pub send : Send → TxState → TxState
send x s = (consume_tx x.buffer x.refused x.len (λ room. (room, x.write room)) s).1

unfoldable pub send_all : List Send → TxState → TxState
send_all [] s = s
send_all (x ∷ xs) s = send_all xs (send x s)

-- The calls of `shim_mbuf_tx` that hand the frames whole to the card.
abbrev pub offer : Send → Option TxBuffer → List TxCall
offer x none = []
offer x (some b) =
    record { handle = b.handle; len = x.len; frame = x.write (take x.len b.room) } ∷ []

abbrev pub offers : List Send → List TxCall
offers [] = []
offers (x ∷ xs) = offer x x.buffer ++ offers xs

-- A frame that its mbuf has room for, of a length that is a `u16`.
abbrev pub HasRoom : ℕ → Option TxBuffer → Type 0
HasRoom len none = Unit {0}
HasRoom len (some b) = (len ≤ length b.room) × (len < 2 ^ 16)

abbrev pub AllFit : List Send → Type 0
AllFit [] = Unit {0}
AllFit (x ∷ xs) = HasRoom x.len x.buffer × AllFit xs

-- The frames without an mbuf, and those with one that the card refuses.
abbrev pub without : Option TxBuffer → ℕ
without none = 1
without (some b) = 0

abbrev pub refusal : Bool → Option TxBuffer → ℕ
refusal refused none = 0
refusal refused (some b) = if refused then 1 else 0

abbrev pub lost : List Send → ℕ
lost [] = 0
lost (x ∷ xs) = without x.buffer + lost xs

abbrev pub refusals : List Send → ℕ
refusals [] = 0
refusals (x ∷ xs) = refusal x.refused x.buffer + refusals xs

u64_small : (n : ℕ) → n < 2 ^ 64 → u64 n ≡ n
u64_small n h = omega (arith)

consume_tx_fits :
    (b : Option TxBuffer) (refused : Bool) (len : ℕ) (write : Bytes → Bytes) (s : TxState)
    → HasRoom len b
    → s.alloc_fail + 1 < 2 ^ 64
    → s.burst_fail + 1 < 2 ^ 64
    → let s' = (consume_tx b refused len (λ room. (room, write room)) s).1 in
      (s'.calls
        ≡ s.calls ++ offer (record { buffer = b; refused = refused; len = len; write = write }) b)
      × (s'.alloc_fail ≡ s.alloc_fail + without b)
      × (s'.burst_fail ≡ s.burst_fail + refusal refused b)
unfolding consume_tx
consume_tx_fits none refused len write s fit h k =
    (sym (append-nil s.calls), omega arith, omega arith)
consume_tx_fits (some b) refused len write s fit h k =
    let e : min len (length b.room) ≡ len = omega (arith, fit) in
    let e' : u16 (min len (length b.room)) ≡ len = omega (arith, e, fit) in
    (
      ap
            (λ n.
              s.calls
              ++ (record {
                handle = b.handle;
                len = n;
                frame = write (take (min len (length b.room)) b.room);
              }
                  ∷ []))
            e'
          ∙ ap
              (λ n.
                s.calls
                ++ (record { handle = b.handle; len = len; frame = write (take n b.room) } ∷ []))
              e,
      omega arith,
      by_refusal refused,
    )
  where
    by_refusal :
        (refused : Bool)
        → (if refused then u64 (s.burst_fail + 1) else s.burst_fail)
          ≡ s.burst_fail + (if refused then 1 else 0)
    by_refusal true = omega arith
    by_refusal false = omega arith

-- As long as the counters have room, and every frame fits the mbuf that it is given and a `u16`:
-- each frame with an mbuf is handed to the card once, whole and in order; TX_ALLOC_FAIL counts each
-- frame without one, and TX_BURST_FAIL each frame that the card refuses.
pub send_all-offers :
    (xs : List Send) (s : TxState)
    → AllFit xs
    → s.alloc_fail + length xs < 2 ^ 64
    → s.burst_fail + length xs < 2 ^ 64
    → ((send_all xs s).calls ≡ s.calls ++ offers xs)
      × ((send_all xs s).alloc_fail ≡ s.alloc_fail + lost xs)
      × ((send_all xs s).burst_fail ≡ s.burst_fail + refusals xs)
unfolding send_all
send_all-offers [] s fit h k = (sym (append-nil s.calls), omega arith, omega arith)
send_all-offers (x ∷ xs) s (fit, fits) h k =
    let (calls, none_left, refused) =
      consume_tx_fits x.buffer x.refused x.len x.write s fit (omega arith) (omega arith) in
    let small : (without x.buffer ≤ 1) × (refusal x.refused x.buffer ≤ 1) =
      at_most_one x.refused x.buffer in
    let (calls', none_left', refused') =
      send_all-offers xs (send x s) fits (omega (arith, none_left, small))
        (omega (arith, refused, small)) in
    (
      calls' ∙ ap (λ t. t ++ offers xs) calls ∙ append_assoc s.calls (offer x x.buffer) (offers xs),
      omega (arith, none_left, none_left'),
      omega (arith, refused, refused'),
    )
  where
    at_most_one : (r : Bool) (b : Option TxBuffer) → (without b ≤ 1) × (refusal r b ≤ 1)
    at_most_one r none = (omega arith, omega arith)
    at_most_one true (some b) = (omega arith, omega arith)
    at_most_one false (some b) = (omega arith, omega arith)
