-- ===== src/Config/Address.antt =====
-- Dotted quads: what `parse_ipv4` reads.
use miniosv_apps.Prelude.{
  ℕ, ◌+◌, ◌-◌, ◌*◌, ◌≤◌, ◌<◌, ◌≡◌, refl, sym, ap, ◌∙◌, true, false, some, [], ◌∷◌, ◌++◌, append-nil,
  arith, leb, ltb, set, u8, u32, Bytes, AllDigits, value, le-value, decimal, decimal-digits,
}
use miniosv_apps.Config.{zero_address, parse_ipv4_from, parse_ipv4}

-- A non-empty text of digits.
abbrev pub IsNumber : Bytes → Type 0
IsNumber [] = ⊥
IsNumber (c ∷ cs) = AllDigits (c ∷ cs)

-- Four texts joined by dots.
abbrev pub dotted : Bytes → Bytes → Bytes → Bytes → Bytes
dotted a b c d = a ++ (b'.' ∷ (b ++ (b'.' ∷ (c ++ (b'.' ∷ d)))))

-- A run of digits with a value of at most 255 is read into `acc`.
parse_ipv4_from-digits :
    (out : Bytes) (oct acc : ℕ) (cs rest : Bytes)
    → AllDigits cs
    → value acc cs ≤ 255
    → parse_ipv4_from out oct acc true (cs ++ rest)
      ≡ parse_ipv4_from out oct (value acc cs) true rest
unfolding parse_ipv4_from
parse_ipv4_from-digits out oct acc [] rest ds h = refl
parse_ipv4_from-digits out oct acc (c ∷ cs) rest ds h =
    let small : acc * 10 + (c - b'0') ≤ 255 = omega (arith, le-value (acc * 10 + (c - b'0')) cs) in
    let exact : u32 (u32 (acc * 10) + (c - b'0')) ≡ acc * 10 + (c - b'0') = omega arith in
    let fits : ltb 255 (acc * 10 + (c - b'0')) ≡ false = ground arith in
    rw (ds.0, exact, fits) (parse_ipv4_from-digits out oct (acc * 10 + (c - b'0')) cs rest ds.1 h)

-- The same for a whole number at the start of an octet.
parse_ipv4_from-number :
    (out : Bytes) (oct : ℕ) (cs rest : Bytes)
    → IsNumber cs
    → value 0 cs ≤ 255
    → parse_ipv4_from out oct 0 false (cs ++ rest) ≡ parse_ipv4_from out oct (value 0 cs) true rest
unfolding parse_ipv4_from
parse_ipv4_from-number out oct [] rest n h = absurd n
parse_ipv4_from-number out oct (c ∷ cs) rest n h =
    let small : 0 * 10 + (c - b'0') ≤ 255 = omega (arith, le-value (0 * 10 + (c - b'0')) cs) in
    let exact : u32 (u32 (0 * 10) + (c - b'0')) ≡ 0 * 10 + (c - b'0') = omega arith in
    let fits : ltb 255 (0 * 10 + (c - b'0')) ≡ false = ground arith in
    rw (n.0, exact, fits) (parse_ipv4_from-digits out oct (0 * 10 + (c - b'0')) cs rest n.1 h)

-- A dot behind a digit stores the octet, below three dots.
parse_ipv4_from_dot :
    (out : Bytes) (oct acc : ℕ) (rest : Bytes)
    → oct < 3
    → acc ≤ 255
    → parse_ipv4_from out oct acc true (b'.' ∷ rest)
      ≡ parse_ipv4_from (set out oct acc) (oct + 1) 0 false rest
unfolding parse_ipv4_from
parse_ipv4_from_dot out oct acc rest h small =
    let below : leb 3 oct ≡ false = ground arith in
    let exact : u8 acc ≡ acc = omega arith in rw (below, exact)

pub u8_small : (n : ℕ) → n ≤ 255 → u8 n ≡ n
u8_small n h = omega arith

-- Four numbers of at most 255, leading zeros allowed, joined by dots, are read as their values.
pub parse_ipv4-dotted :
    (a b c d : Bytes)
    → IsNumber a × IsNumber b × IsNumber c × IsNumber d
    → (value 0 a ≤ 255) × (value 0 b ≤ 255) × (value 0 c ≤ 255) × (value 0 d ≤ 255)
    → parse_ipv4 (some (dotted a b c d)) ≡ value 0 a ∷ value 0 b ∷ value 0 c ∷ value 0 d ∷ []
unfolding parse_ipv4
parse_ipv4-dotted a b c d (na, nb, nc, nd) (ha, hb, hc, hd) =
    let o₁ = set zero_address 0 (value 0 a) in
    let o₂ = set o₁ 1 (value 0 b) in
    let o₃ = set o₂ 2 (value 0 c) in
    let cd = c ++ (b'.' ∷ d) in
    let bcd = b ++ (b'.' ∷ cd) in
    parse_ipv4_from-number zero_address 0 a (b'.' ∷ bcd) na ha
    ∙ parse_ipv4_from_dot zero_address 0 (value 0 a) bcd (omega arith) ha
    ∙ parse_ipv4_from-number o₁ 1 b (b'.' ∷ cd) nb hb
    ∙ parse_ipv4_from_dot o₁ 1 (value 0 b) cd (omega arith) hb
    ∙ parse_ipv4_from-number o₂ 2 c (b'.' ∷ d) nc hc
    ∙ parse_ipv4_from_dot o₂ 2 (value 0 c) d (omega arith) hc
    ∙ ap (parse_ipv4_from o₃ 3 0 false) (sym (append-nil d))
    ∙ parse_ipv4_from-number o₃ 3 d [] nd hd
    ∙ ap (λ t. value 0 a ∷ value 0 b ∷ value 0 c ∷ t ∷ []) (u8_small (value 0 d) hd)

decimal-IsNumber : (n : ℕ) → IsNumber (decimal n) × (value 0 (decimal n) ≡ n)
decimal-IsNumber n = let (c, cs, e, ds, v) = decimal-digits n in rw e (ds, v)

-- An address prints, octet by octet with `{}` and dots between, to a text that is read back.
pub parse_ipv4-decimal :
    (a b c d : ℕ)
    → (a ≤ 255) × (b ≤ 255) × (c ≤ 255) × (d ≤ 255)
    → parse_ipv4 (some (dotted (decimal a) (decimal b) (decimal c) (decimal d)))
      ≡ a ∷ b ∷ c ∷ d ∷ []
parse_ipv4-decimal a b c d (ha, hb, hc, hd) =
    let (na, va) = decimal-IsNumber a in
    let (nb, vb) = decimal-IsNumber b in
    let (nc, vc) = decimal-IsNumber c in
    let (nd, vd) = decimal-IsNumber d in
    parse_ipv4-dotted (decimal a) (decimal b) (decimal c) (decimal d) (na, nb, nc, nd)
      (rw va ha, rw vb hb, rw vc hc, rw vd hd)
    ∙ rw (va, vb, vc, vd)
