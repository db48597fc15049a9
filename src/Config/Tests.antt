-- ===== src/Config/Tests.antt =====
-- Runs of the parsers of the build's variables, and the theorems at such inputs.
use miniosv_apps.Prelude.{
  ℕ, ◌*◌, ◌^◌, ◌≤◌, ◌≡◌, ◌≢◌, refl, sym, ◌∙◌, ap, subst, true, false, none, some, [], ◌∷◌, ◌++◌,
  arith, get_or, Bytes, is_digit, value, decimal,
}
use miniosv_apps.Config.{
  suffix_mult, parse_size_from, parse_size, parse_bool, parse_ipv4_from, parse_ipv4, zero_address,
  bytes_eq, is_http, scheme_ok,
}
use miniosv_apps.Config.Address.{IsNumber, dotted, parse_ipv4-decimal}
use miniosv_apps.Config.Accepted.{parse_ipv4_sound}
use miniosv_apps.Config.Size.{scaled, parse_size-scaled}

abbrev ten : Bytes
ten = b'1' ∷ b'0' ∷ []

abbrev one : Bytes
one = b'1' ∷ []

-- "10G", "10Gxyz", "10iG" and "G"
sizes :
    (parse_size (some (ten ++ (b'G' ∷ []))) 7 ≡ 10 * 2 ^ 30)
    × (parse_size (some (ten ++ (b'G' ∷ b'x' ∷ []))) 7 ≡ 10 * 2 ^ 30)
    × (parse_size (some (ten ++ (b'i' ∷ b'G' ∷ []))) 7 ≡ 10)
    × (parse_size (some (b'x' ∷ [])) 7 ≡ 7)
    × (parse_size none 7 ≡ 7)
unfolding parse_size parse_size_from suffix_mult
sizes = (refl, refl, refl, refl, refl)

flags :
    (parse_bool (some (b'y' ∷ b'e' ∷ [])) false ≡ true)
    × (parse_bool (some (b'F' ∷ [])) true ≡ false)
unfolding parse_bool
flags = (refl, refl)

schemes :
    (is_http (some (b'h' ∷ b't' ∷ b't' ∷ b'p' ∷ [])) ≡ true)
    × (scheme_ok (some (b'f' ∷ [])) ≡ false)
unfolding is_http scheme_ok bytes_eq
schemes = (refl, refl)

abbrev address : Bytes
address = dotted ten one ten one

address-parses : parse_ipv4 (some address) ≡ 10 ∷ 1 ∷ 10 ∷ 1 ∷ []
unfolding parse_ipv4 parse_ipv4_from
address-parses = refl

-- "10.1.10.256"
refused : parse_ipv4 (some (dotted ten one ten (b'2' ∷ b'5' ∷ b'6' ∷ []))) ≡ zero_address
unfolding parse_ipv4 parse_ipv4_from
refused = refl

address_accepted : parse_ipv4 (some address) ≢ zero_address
address_accepted e =
    let first : get_or (10 ∷ 1 ∷ 10 ∷ 1 ∷ []) 0 0 ≡ get_or zero_address 0 0 =
      ap (λ t. get_or t 0 0) (sym address-parses ∙ e) in
    absurd (omega arith)

parse_ipv4_sound_example :
    (a : Bytes) × (b : Bytes) × (c : Bytes) × (d : Bytes) × (address ≡ dotted a b c d)
    × (IsNumber a × IsNumber b × IsNumber c × IsNumber d)
    × ((value 0 a ≤ 255) × (value 0 b ≤ 255) × (value 0 c ≤ 255) × (value 0 d ≤ 255))
    × (parse_ipv4 (some address) ≡ value 0 a ∷ value 0 b ∷ value 0 c ∷ value 0 d ∷ [])
parse_ipv4_sound_example = parse_ipv4_sound address address_accepted

ten-IsNumber : IsNumber ten
ten-IsNumber = (refl, (refl, tt))

one-IsNumber : IsNumber one
one-IsNumber = (refl, tt)

parse_ipv4-decimal_example :
    parse_ipv4 (some (dotted (decimal 192) (decimal 168) (decimal 0) (decimal 17)))
    ≡ 192 ∷ 168 ∷ 0 ∷ 17 ∷ []
parse_ipv4-decimal_example =
    parse_ipv4-decimal 192 168 0 17 (omega arith, omega arith, omega arith, omega arith)

mega_ends : (r : ℕ) (rs : Bytes) → (b'M' ∷ []) ≡ r ∷ rs → is_digit r ≡ false
mega_ends r rs e = let first : b'M' ≡ r = cc in subst (λ t. is_digit t ≡ false) first refl

parse_size-scaled_example :
    parse_size (some (b'1' ∷ ((b'0' ∷ []) ++ (b'M' ∷ [])))) 7 ≡ scaled 7 10 (b'M' ∷ [])
parse_size-scaled_example =
    parse_size-scaled 7 b'1' (b'0' ∷ []) (b'M' ∷ []) ten-IsNumber (omega arith) mega_ends
