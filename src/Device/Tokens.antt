-- ===== src/Device/Tokens.antt =====
-- The tokens of `DpdkDevice`: consume and drop of `DpdkRxToken`, consume of `DpdkTxToken` and
-- `transmit` (lines 613, 643-692 and 759-761).
use miniosv_apps.Prelude.{
  ℕ, ◌+◌, Bool, Option, none, some, List, [], ◌∷◌, ◌++◌, if◌then◌else◌, length, take, replicate,
  u16, u64, min, Bytes,
}
use miniosv_apps.Device.{DpdkRxToken, mbuf, synth, Shim}

abbrev pub mtu : ℕ
mtu = 1514

-- `f` is what the stack does with the frame.
unfoldable pub consume_rx : {A : Type 0} → DpdkRxToken → (Bytes → A) → Shim → A × Shim
consume_rx (mbuf p) f w = (f p.frame, record w { freed = w.freed ++ (p.handle ∷ []) })
consume_rx (synth buf) f w = (f buf, w)

unfoldable pub drop_rx : DpdkRxToken → Shim → Shim
drop_rx (mbuf p) w = record w { freed = w.freed ++ (p.handle ∷ []) }
drop_rx (synth buf) w = w

-- What `shim_mbuf_alloc_tx` gives: the mbuf's handle and the `cap` bytes of its data.
pub record TxBuffer : Type 0 where
  pub handle : ℕ
  pub room : Bytes

-- A call of `shim_mbuf_tx`: the handle, the length, and the bytes that the data begin with.
pub record TxCall : Type 0 where
  pub handle : ℕ
  pub len : ℕ
  pub frame : Bytes

-- The calls of `shim_mbuf_tx` so far, TX_ALLOC_FAIL and TX_BURST_FAIL
pub record TxState : Type 0 where
  pub calls : List TxCall
  pub alloc_fail : ℕ
  pub burst_fail : ℕ

-- `f` is what the stack does with the slice that it is lent, and the bytes it leaves there. The
-- answers of the shim are arguments: the mbuf, none where the pool is exhausted, and whether the
-- burst refuses it.
unfoldable pub consume_tx :
    {A : Type 0} → Option TxBuffer → Bool → ℕ → (Bytes → A × Bytes) → TxState → A × TxState
consume_tx none refused len f s =
    ((f (replicate (min len mtu) 0)).0, record s { alloc_fail = u64 (s.alloc_fail + 1) })
consume_tx (some b) refused len f s =
    let n = min len (length b.room) in
    let (r, frame) = f (take n b.room) in
    (
      r,
      record s {
        calls = s.calls ++ (record { handle = b.handle; len = u16 n; frame = frame } ∷ []);
        burst_fail = if refused then u64 (s.burst_fail + 1) else s.burst_fail;
      },
    )
