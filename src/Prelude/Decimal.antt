-- ===== src/Prelude/Decimal.antt =====
-- Decimal notation: the number that a text of digits stands for, and the text that `{}` prints.
use Prim.Native.Nat.{ℕ, zero, suc, ◌+◌, ◌-◌, ◌*◌, ◌/◌, ◌%◌, ◌≤◌, ◌<◌}
use mathlib.Core.Path.{◌≡◌, refl, sym, ap, ◌∙◌}
use mathlib.Core.Logic.{inl, inr}
use mathlib.Core.Bool.{Bool, true, ◌&&◌}
use mathlib.Core.List.{[], ◌∷◌, ◌++◌, append-nil, append_assoc}
use native.Mathlib.Omega.{arith}
use miniosv_apps.Prelude.Tests.{leb, ltb, if◌then◌else◌, Bool-cases}
use miniosv_apps.Prelude.Words.{Bytes}

abbrev pub is_digit : ℕ → Bool
is_digit c = leb b'0' c && leb c b'9'

abbrev pub AllDigits : Bytes → Type 0
AllDigits [] = Unit {0}
AllDigits (c ∷ cs) = (is_digit c ≡ true) × AllDigits cs

-- The digits of `cs` read behind the number `acc`.
abbrev pub value : ℕ → Bytes → ℕ
value acc [] = acc
value acc (c ∷ cs) = value (acc * 10 + (c - b'0')) cs

pub le-value : (acc : ℕ) (cs : Bytes) → acc ≤ value acc cs
le-value acc [] = omega arith
le-value acc (c ∷ cs) = omega (arith, le-value (acc * 10 + (c - b'0')) cs)

pub value-append : (acc : ℕ) (cs ds : Bytes) → value acc (cs ++ ds) ≡ value (value acc cs) ds
value-append acc [] ds = refl
value-append acc (c ∷ cs) ds = value-append (acc * 10 + (c - b'0')) cs ds

pub AllDigits-append : (cs ds : Bytes) → AllDigits cs → AllDigits ds → AllDigits (cs ++ ds)
AllDigits-append [] ds p q = q
AllDigits-append (c ∷ cs) ds p q = (p.0, AllDigits-append cs ds p.1 q)

-- The digits of `n` in front of `out`, with fuel for their number.
pub decimal_onto : ℕ → ℕ → Bytes → Bytes
decimal_onto zero n out = out
decimal_onto (suc f) n out =
    let shorter = decimal_onto f (n / 10) ((b'0' + n % 10) ∷ out) in
    if ltb n 10 then (b'0' + n) ∷ out else shorter

-- The text that the format `{}` prints of a number.
unfoldable pub decimal : ℕ → Bytes
unfolding decimal_onto
decimal n = decimal_onto (suc n) n []

decimal_onto-digits :
    (f n : ℕ) (out : Bytes)
    → n < f
    → (c : ℕ) × (cs : Bytes) × (decimal_onto f n out ≡ c ∷ (cs ++ out))
      × AllDigits (c ∷ cs)
      × (value 0 (c ∷ cs) ≡ n)
unfolding decimal_onto
decimal_onto-digits zero n out h = absurd (omega arith)
decimal_onto-digits (suc f) n out h = elim (Bool-cases (ltb n 10)) [
  | inl small ↦ (b'0' + n, [], rw small, (ground arith, tt), omega arith)
  | inr large ↦
      let d = b'0' + n % 10 in
      let (c, cs, e, ds, v) = decimal_onto-digits f (n / 10) (d ∷ out) (ground arith) in
      (
        c,
        cs ++ (d ∷ []),
        rw large (e ∙ ap (λ t. c ∷ t) (sym (append_assoc cs (d ∷ []) out))),
        (ds.0, AllDigits-append cs (d ∷ []) ds.1 (ground arith, tt)),
        value-append 0 (c ∷ cs) (d ∷ []) ∙ omega (arith, v),
      )
]

-- A printed number is a non-empty text of digits that stands for it.
pub decimal-digits :
    (n : ℕ)
    → (c : ℕ) × (cs : Bytes) × (decimal n ≡ c ∷ cs) × AllDigits (c ∷ cs) × (value 0 (c ∷ cs) ≡ n)
unfolding decimal
decimal-digits n =
    let (c, cs, e, ds, v) = decimal_onto-digits (suc n) n [] (omega arith) in
    (c, cs, e ∙ ap (λ t. c ∷ t) (append-nil cs), ds, v)
