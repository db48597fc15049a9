-- ===== src/Config/Accepted.antt =====
-- What `parse_ipv4` accepts: field by field, from the start of an octet.
use miniosv_apps.Prelude.{
  ℕ, ◌+◌, ◌-◌, ◌*◌, ◌≤◌, ◌<◌, ◌≡◌, ◌≢◌, refl, sym, ap, subst, ◌∙◌, ◌⊎◌, inl, inr, Bool, true, false,
  some, [], ◌∷◌, ◌++◌, append-nil, arith, Bool-cases, ==_iff, leb, ltb, ◌==◌, set, u32, Bytes,
  is_digit, AllDigits, value,
}
use miniosv_apps.Config.{zero_address, parse_ipv4_from, parse_ipv4}
use miniosv_apps.Config.Address.{IsNumber, dotted, u8_small}

-- How a field of the text ends: at the end of the text behind three dots, or at a dot.
data FieldEnd (out : Bytes) (oct : ℕ) (v : ℕ) (result : Bytes) : Bytes → Type 0 where
  last : oct ≡ 3 → result ≡ set out 3 v → FieldEnd out oct v result []
  dot :
      {rest : Bytes}
      → oct < 3
      → result ≡ parse_ipv4_from (set out oct v) (oct + 1) 0 false rest
      → FieldEnd out oct v result (b'.' ∷ rest)

-- A field in which the parser does not give up: digits, and then its end.
record Field (out : Bytes) (oct acc : ℕ) (seen : Bool) (s result : Bytes) : Type 0 where
  digits : Bytes
  rest : Bytes
  splits : s ≡ digits ++ rest
  all_digits : AllDigits digits
  nonempty : (seen ≡ true) ⊎ IsNumber digits
  small : value acc digits ≤ 255
  ends : FieldEnd out oct (value acc digits) result rest

Field-cons :
    {out : Bytes} {oct acc : ℕ} {seen : Bool} (c : ℕ) {cs result : Bytes}
    → is_digit c ≡ true
    → Field out oct (acc * 10 + (c - b'0')) true cs result
    → Field out oct acc seen (c ∷ cs) result
Field-cons c h f = record {
  digits = c ∷ f.digits;
  rest = f.rest;
  splits = ap (◌∷◌ c) f.splits;
  all_digits = (h, f.all_digits);
  nonempty = inr (h, f.all_digits);
  small = f.small;
  ends = f.ends;
}

Field-end :
    (out : Bytes) (oct acc : ℕ) (seen : Bool)
    → acc ≤ 255
    → parse_ipv4_from out oct acc seen [] ≢ zero_address
    → Field out oct acc seen [] (parse_ipv4_from out oct acc seen [])
unfolding parse_ipv4_from
Field-end out oct acc seen small h = elim (Bool-cases seen) [
  | inl s ↦ elim (Bool-cases (oct == 3)) [
    | inl e ↦ record {
      digits = [];
      rest = [];
      splits = refl;
      all_digits = tt;
      nonempty = inl s;
      small = small;
      ends = last ((==_iff oct 3).0 e) (rw (s, e) (ap (set out 3) (u8_small acc small)));
    }
    | inr e ↦ absurd (h (rw (s, e)))
  ]
  | inr s ↦ absurd (h (rw s))
]

Field-dot :
    (out : Bytes) (oct acc : ℕ) (seen : Bool) (cs : Bytes)
    → acc ≤ 255
    → parse_ipv4_from out oct acc seen (b'.' ∷ cs) ≢ zero_address
    → Field out oct acc seen (b'.' ∷ cs) (parse_ipv4_from out oct acc seen (b'.' ∷ cs))
unfolding parse_ipv4_from
Field-dot out oct acc seen cs small h = elim (Bool-cases seen) [
  | inl s ↦ elim (Bool-cases (leb 3 oct)) [
    | inl e ↦ absurd (h (rw (s, e)))
    | inr e ↦ record {
      digits = [];
      rest = b'.' ∷ cs;
      splits = refl;
      all_digits = tt;
      nonempty = inl s;
      small = small;
      ends = dot (ground arith) (rw (s, e, u8_small acc small));
    }
  ]
  | inr s ↦ absurd (h (rw s))
]

parse_ipv4_from-Field :
    (s : Bytes) (out : Bytes) (oct acc : ℕ) (seen : Bool)
    → acc ≤ 255
    → parse_ipv4_from out oct acc seen s ≢ zero_address
    → Field out oct acc seen s (parse_ipv4_from out oct acc seen s)
unfolding parse_ipv4_from
parse_ipv4_from-Field [] out oct acc seen small h = Field-end out oct acc seen small h
parse_ipv4_from-Field (c ∷ cs) out oct acc seen small h = elim (Bool-cases (is_digit c)) [
  | inl d ↦
      let n = acc * 10 + (c - b'0') in
      let exact : u32 (u32 (acc * 10) + (c - b'0')) ≡ n = ground arith in
      elim (Bool-cases (ltb 255 n)) [
        | inl big ↦ absurd (h (rw (d, exact, big)))
        | inr fits ↦
            rw (d, exact, fits)
              (Field-cons c d (
                parse_ipv4_from-Field cs out oct n true (ground arith)
                  (λ e. h (rw (d, exact, fits) e))))
      ]
  | inr d ↦ elim (Bool-cases (c == b'.')) [
    | inl e ↦
        let p : b'.' ≡ c = sym ((==_iff c b'.').0 e) in
        subst (λ x. Field out oct acc seen (x ∷ cs) (parse_ipv4_from out oct acc seen (x ∷ cs))) p
          (Field-dot out oct acc seen cs small
            (λ q. h (subst (λ x. parse_ipv4_from out oct acc seen (x ∷ cs) ≡ zero_address) p q)))
    | inr e ↦ absurd (h (rw (d, e)))
  ]
]

-- The start of an octet in front of a dot, and the last octet.
record Octet (out : Bytes) (oct : ℕ) (s result : Bytes) : Type 0 where
  number : Bytes
  is_number : IsNumber number
  small : value 0 number ≤ 255
  rest : Bytes
  splits : s ≡ number ++ (b'.' ∷ rest)
  goes_on : result ≡ parse_ipv4_from (set out oct (value 0 number)) (oct + 1) 0 false rest

IsNumber-of : (digits : Bytes) → (◌≡◌ {A = Bool} false true) ⊎ IsNumber digits → IsNumber digits
IsNumber-of digits (inl e) = cc
IsNumber-of digits (inr n) = n

Octet_lem :
    (out : Bytes) (oct : ℕ) (s result : Bytes)
    → oct < 3
    → Field out oct 0 false s result
    → Octet out oct s result
Octet_lem out oct s result h f = go f.rest f.splits f.ends
  where
    go :
        (rest : Bytes)
        → s ≡ f.digits ++ rest
        → FieldEnd out oct (value 0 f.digits) result rest
        → Octet out oct s result
    go [] e (last is_last _) = absurd (omega arith)
    go (_ ∷ rest) e (dot _ r) = record {
      number = f.digits;
      is_number = IsNumber-of f.digits f.nonempty;
      small = f.small;
      rest = rest;
      splits = e;
      goes_on = r;
    }

last_octet :
    (out : Bytes) (s result : Bytes)
    → Field out 3 0 false s result
    → IsNumber s × (value 0 s ≤ 255) × (result ≡ set out 3 (value 0 s))
last_octet out s result f = go f.rest f.splits f.ends
  where
    go :
        (rest : Bytes)
        → s ≡ f.digits ++ rest
        → FieldEnd out 3 (value 0 f.digits) result rest
        → IsNumber s × (value 0 s ≤ 255) × (result ≡ set out 3 (value 0 s))
    go [] e (last _ r) =
        let e' : s ≡ f.digits = e ∙ append-nil f.digits in
        rw e' (IsNumber-of f.digits f.nonempty, f.small, r)
    go (_ ∷ rest) e (dot below _) = absurd (omega arith)

Octet-at :
    (out : Bytes) (oct : ℕ) (s : Bytes)
    → oct < 3
    → parse_ipv4_from out oct 0 false s ≢ zero_address
    → Octet out oct s (parse_ipv4_from out oct 0 false s)
Octet-at out oct s h ne =
    Octet_lem out oct s _ h (parse_ipv4_from-Field s out oct 0 false (omega arith) ne)

-- A text that `parse_ipv4` does not refuse is four numbers of at most 255, joined by dots, and the
-- address is made of their values.
pub parse_ipv4_sound :
    (s : Bytes)
    → parse_ipv4 (some s) ≢ zero_address
    → (a : Bytes) × (b : Bytes) × (c : Bytes) × (d : Bytes) × (s ≡ dotted a b c d)
      × (IsNumber a × IsNumber b × IsNumber c × IsNumber d)
      × ((value 0 a ≤ 255) × (value 0 b ≤ 255) × (value 0 c ≤ 255) × (value 0 d ≤ 255))
      × (parse_ipv4 (some s) ≡ value 0 a ∷ value 0 b ∷ value 0 c ∷ value 0 d ∷ [])
unfolding parse_ipv4
parse_ipv4_sound s ne =
    let a = Octet-at zero_address 0 s (omega arith) ne in
    let o₁ = set zero_address 0 (value 0 a.number) in
    let ne₁ = λ (e : parse_ipv4_from o₁ 1 0 false a.rest ≡ zero_address). ne (a.goes_on ∙ e) in
    let b = Octet-at o₁ 1 a.rest (omega arith) ne₁ in
    let o₂ = set o₁ 1 (value 0 b.number) in
    let ne₂ = λ (e : parse_ipv4_from o₂ 2 0 false b.rest ≡ zero_address). ne₁ (b.goes_on ∙ e) in
    let c = Octet-at o₂ 2 b.rest (omega arith) ne₂ in
    let o₃ = set o₂ 2 (value 0 c.number) in
    let ne₃ = λ (e : parse_ipv4_from o₃ 3 0 false c.rest ≡ zero_address). ne₂ (c.goes_on ∙ e) in
    let (nd, hd, rd) =
      last_octet o₃ c.rest _ (parse_ipv4_from-Field c.rest o₃ 3 0 false (omega arith) ne₃) in
    (
      a.number,
      b.number,
      c.number,
      c.rest,
      a.splits
          ∙ ap (λ t. a.number ++ (b'.' ∷ t)) (b.splits ∙ ap (λ t. b.number ++ (b'.' ∷ t)) c.splits),
      (a.is_number, b.is_number, c.is_number, nd),
      (a.small, b.small, c.small, hd),
      a.goes_on ∙ b.goes_on ∙ c.goes_on ∙ rd,
    )
