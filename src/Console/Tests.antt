-- ===== src/Console/Tests.antt =====
-- A line that `write` takes byte by byte.
use miniosv_apps.Prelude.{true, false, ℕ, ◌≡◌, refl, some, List, [], ◌∷◌, ◌++◌, arith, take, Bytes}
use miniosv_apps.Prelude.Int.{ℤ, pos, negsuc}
use miniosv_apps.Http.{write_str, write_all}
use miniosv_apps.Http.Counting.{stream}
use miniosv_apps.Console.{line, write_rest, print_line}
use miniosv_apps.Console.Lock.{
  outside, formed, writing, form, acquire, put, System, update, pick, Reach, here, later,
}
use miniosv_apps.Console.Lines.{one_inside, Displays, shows_lines}
use miniosv_apps.Console.Whole.{TakesSome, print_line_whole}

abbrev one_byte : ℕ → ℤ
one_byte k = pos 1

abbrev fails : ℕ → ℤ
fails k = negsuc 0

abbrev pieces : List Bytes
pieces = (b'a' ∷ b'b' ∷ []) ∷ (b'c' ∷ []) ∷ []

prints :
    (print_line one_byte pieces ≡ some (b'a' ∷ b'b' ∷ b'c' ∷ b'\n' ∷ []))
    × (print_line fails pieces ≡ some [])
unfolding print_line line write_rest write_all write_str
prints = (refl, refl)

one_byte-TakesSome : TakesSome one_byte
one_byte-TakesSome k h = (1, refl, omega arith, omega arith)

print_line_whole_example :
    print_line one_byte pieces ≡ some (take 255 (stream pieces) ++ (b'\n' ∷ []))
print_line_whole_example = print_line_whole one_byte pieces one_byte-TakesSome

abbrev one : List Bytes
one = (b'a' ∷ []) ∷ []

abbrev ab : Bytes
ab = b'a' ∷ b'\n' ∷ []

-- Two threads with a line each: the second takes the lock and is half through its line, and the first
-- spins.
abbrev half_way : System
half_way = record {
  shared = record { print_lock = true; shown = b'a' ∷ [] };
  pc =
      update (update (update (update (λ _. outside) 0 (formed [])) 1 (formed one)) 1 (writing ab)) 1
        (writing (b'\n' ∷ []));
}

half_way-Reach : Reach false half_way (one ∷ [])
unfolding line write_all write_str
half_way-Reach =
    later
      (later (later (later here (pick 0 (form []))) (pick 1 (form one))) (pick 1 (acquire refl)))
      (pick 1 (put 1 (omega arith) (omega arith)))

one_inside_example : ◌≡◌ {A = ℕ} 1 1
one_inside_example = one_inside half_way-Reach 1 1 refl refl

shows_lines_example : Displays false (one ∷ []) half_way.shared
shows_lines_example = shows_lines half_way-Reach
