-- ===== src/Console/Whole.antt =====
-- A line comes out whole, whatever parts `write` takes it in.
use miniosv_apps.Prelude.{
  ℕ, zero, suc, ◌-◌, ◌≤◌, ◌<◌, ◌≡◌, refl, sym, ap, ◌∙◌, inl, inr, false, some, List, [], ◌∷◌, ◌++◌,
  arith, Bool-cases, ==_iff, ◌==◌, if◌then◌else◌, length, take, take-all, length-take, drop,
  take-drop, length-drop, Bytes,
}
use miniosv_apps.Prelude.Int.{ℤ, pos, leb_ℤ}
use miniosv_apps.Http.Counting.{stream}
use miniosv_apps.Http.Request.{write_all-take}
use miniosv_apps.Console.{line_max, line, write_rest, print_line}

take-take : (m n : ℕ) (xs : Bytes) → m ≤ n → take m (take n xs) ≡ take m xs
take-take zero n xs h = refl
take-take (suc m) zero xs h = absurd (omega arith)
take-take (suc m) (suc n) [] h = refl
take-take (suc m) (suc n) (x ∷ xs) h = ap (◌∷◌ x) (take-take m n xs (omega arith))

line-take : (pieces : List Bytes) → line pieces ≡ take 255 (stream pieces) ++ (b'\n' ∷ [])
unfolding line
line-take pieces =
    let text = stream pieces in
    let cut = write_all-take pieces line_max [] (omega arith) in
    ap (λ b. take (if length b == line_max then length b - 1 else length b) b ++ (b'\n' ∷ [])) cut
    ∙ ap (λ b. b ++ (b'\n' ∷ []))
        (elim (Bool-cases (length (take 256 text) == 256)) [
          | inl all ↦
              let e : length (take 256 text) ≡ 256 = (==_iff (length (take 256 text)) 256).0 all in
              let less : length (take 256 text) - 1 ≡ 255 = omega (arith, e) in
              rw (all, less) (take-take 255 256 text (omega arith))
          | inr some_room ↦
              let long = length-take 256 text in
              let short : length text ≤ 255 = ground (arith, long) in
              rw some_room (
                take-all (length (take 256 text)) (take 256 text) (omega arith)
                ∙ take-all 256 text (omega arith)
                ∙ sym (take-all 255 text (omega arith)))
        ])

-- What `write` answers where it does not fail: it took some of the bytes, and no more than there were.
abbrev pub TakesSome : (ℕ → ℤ) → Type 0
TakesSome answer = (k : ℕ) → 0 < k → (n : ℕ) × (answer k ≡ pos n) × (0 < n) × (n ≤ k)

write_rest_all :
    (answer : ℕ → ℤ) (fuel : ℕ) (rest : Bytes)
    → TakesSome answer
    → length rest ≤ fuel
    → write_rest answer fuel rest ≡ some rest
unfolding write_rest
write_rest_all answer fuel [] takes h = refl
write_rest_all answer zero (c ∷ cs) takes h = absurd (omega arith)
write_rest_all answer (suc fuel) (c ∷ cs) takes h =
    let (n, e, low, high) = takes (length (c ∷ cs)) (omega arith) in
    let positive : leb_ℤ (pos n) (pos 0) ≡ false = ground arith in
    let later =
      write_rest_all answer fuel (drop n (c ∷ cs)) takes (omega (arith, length-drop n (c ∷ cs))) in
    rw (e, positive, later) (ap some (take-drop n (c ∷ cs)))

-- Where `write` does not fail, the loop of `print_line` ends, and what came out is the first 255
-- bytes of the text and a newline, whatever parts `write` took them in.
pub print_line_whole :
    (answer : ℕ → ℤ) (pieces : List Bytes)
    → TakesSome answer
    → print_line answer pieces ≡ some (take 255 (stream pieces) ++ (b'\n' ∷ []))
unfolding print_line
print_line_whole answer pieces takes =
    write_rest_all answer (length (line pieces)) (line pieces) takes (omega arith)
    ∙ ap some (line-take pieces)
