-- ===== src/Console.antt =====
-- The console of bench/smoltcp-s3/src/lib.rs: the line that `print_line` forms and hands to `write`
-- (lines 128-160), and in `Lock` the lock around it. What `write` answers is an argument.
pub mod Whole
pub mod Lock
pub mod Lines
mod Tests
use miniosv_apps.Prelude.{
  ℕ, zero, suc, ◌-◌, Bool, true, false, Option, none, some, List, [], ◌∷◌, ◌++◌, ◌==◌,
  if◌then◌else◌, length, take, drop, Bytes,
}
use miniosv_apps.Prelude.Int.{ℤ, pos, pos_part, leb_ℤ}
use miniosv_apps.Http.{BufWriter, write_all}

abbrev pub line_max : ℕ
line_max = 256

-- `buf[..used]` when it is handed on: the text of the pieces, cut to leave room, and the newline.
unfoldable pub line : List Bytes → Bytes
line pieces =
    let w = write_all (record { size = line_max; written = [] }) pieces in
    let used = length w.written in
    take (if used == line_max then used - 1 else used) w.written ++ (b'\n' ∷ [])

-- What came out, and more behind it.
abbrev pub put_before : Bytes → Option Bytes → Option Bytes
put_before out none = none
put_before out (some more) = some (out ++ more)

-- The loop around `write`, for the bytes from `off` on: the bytes that came out, and `none` where the
-- fuel runs out. `answer` is what `write` returns for a count.
unfoldable pub write_rest : (ℕ → ℤ) → ℕ → Bytes → Option Bytes
write_rest answer fuel [] = some []
write_rest answer zero (c ∷ cs) = none
write_rest answer (suc fuel) (c ∷ cs) =
    let n = answer (length (c ∷ cs)) in
    let more = write_rest answer fuel (drop (pos_part n) (c ∷ cs)) in
    if leb_ℤ n (pos 0) then some [] else put_before (take (pos_part n) (c ∷ cs)) more

-- A byte is written in each round, so the length of the line is fuel enough.
unfoldable pub print_line : (ℕ → ℤ) → List Bytes → Option Bytes
print_line answer pieces = write_rest answer (length (line pieces)) (line pieces)
