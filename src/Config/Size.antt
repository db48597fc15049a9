-- ===== src/Config/Size.antt =====
-- Decimal sizes: what `parse_size` reads.
use miniosv_apps.Prelude.{
  ℕ, ◌+◌, ◌-◌, ◌*◌, ◌^◌, ◌<◌, ◌≡◌, refl, sym, ap, ◌∙◌, false, none, some, [], ◌∷◌, ◌++◌, append-nil,
  arith, u64, Bytes, is_digit, AllDigits, value, le-value, decimal, decimal-digits,
}
use miniosv_apps.Config.{suffix_mult, parse_size_from, parse_size}

-- Digits whose value fits 64 bits are read exactly, whatever follows them.
parse_size_from-digits :
    (d v : ℕ) (cs rest : Bytes)
    → AllDigits cs
    → value v cs < 2 ^ 64
    → parse_size_from d v (cs ++ rest) ≡ parse_size_from d (value v cs) rest
unfolding parse_size_from
parse_size_from-digits d v [] rest ds h = refl
parse_size_from-digits d v (c ∷ cs) rest ds h =
    let fits : v * 10 + (c - b'0') < 2 ^ 64 = omega (arith, le-value (v * 10 + (c - b'0')) cs) in
    let exact : u64 (u64 (v * 10) + (c - b'0')) ≡ v * 10 + (c - b'0') = omega arith in
    rw (ds.0, exact) (parse_size_from-digits d (v * 10 + (c - b'0')) cs rest ds.1 h)

-- What `parse_size` returns for `digits` followed by `rest`: the number, times the multiplier of
-- the letter behind it; letters after that one are not looked at.
abbrev pub scaled : ℕ → ℕ → Bytes → ℕ
scaled default n [] = n
scaled default n (c ∷ rest) = elim (suffix_mult c) [ none ↦ default | some mult ↦ u64 (n * mult) ]

-- A text that begins with a non-empty run of digits below 2 ^ 64 and then ends, or goes on with a
-- byte that is no digit, gives the number, scaled by the suffix letter (modulo 2 ^ 64), or the
-- default where that byte is no suffix letter.
pub parse_size-scaled :
    (default : ℕ) (c : ℕ) (cs rest : Bytes)
    → AllDigits (c ∷ cs)
    → value 0 (c ∷ cs) < 2 ^ 64
    → ((r : ℕ) (rs : Bytes) → rest ≡ r ∷ rs → is_digit r ≡ false)
    → parse_size (some (c ∷ (cs ++ rest))) default ≡ scaled default (value 0 (c ∷ cs)) rest
unfolding parse_size
parse_size-scaled default c cs rest ds h ends =
    parse_size_from-digits default 0 (c ∷ cs) rest ds h ∙ at_end rest ends
  where
    at_end :
        (rest : Bytes)
        → ((r : ℕ) (rs : Bytes) → rest ≡ r ∷ rs → is_digit r ≡ false)
        → parse_size_from default (value 0 (c ∷ cs)) rest ≡ scaled default (value 0 (c ∷ cs)) rest
    at_end [] e = refl
    at_end (r ∷ rs) e = rw (e r rs refl)

-- Every 64-bit number is read back from the text that `{}` prints of it.
pub parse_size-decimal : (n default : ℕ) → n < 2 ^ 64 → parse_size (some (decimal n)) default ≡ n
parse_size-decimal n default h =
    let (c, cs, e, ds, v) = decimal-digits n in
    rw e (
      ap (λ t. parse_size (some (c ∷ t)) default) (sym (append-nil cs))
      ∙ parse_size-scaled default c cs [] ds (omega (arith, v)) (λ r rs q. cc)
      ∙ v)
