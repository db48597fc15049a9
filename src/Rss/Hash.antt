-- ===== src/Rss/Hash.antt =====
-- `toeplitz` against the matrix product that names it.
use miniosv_apps.Prelude.{
  ℕ, zero, suc, ◌+◌, ◌-◌, ◌*◌, ◌/◌, ◌%◌, ◌≤◌, ◌<◌, ◌≡◌, refl, sym, ap, ◌∙◌, ◌⊎◌, inl, inr, bit_or,
  bit_xor, false, List, [], ◌∷◌, ◌++◌, arith, ltb, ◌==◌, if◌then◌else◌, length, get_or, u32, Bytes,
}
use miniosv_apps.Prelude.Bits.{bit, bit-lt, bit-zero, bit-or, bit-xor, bit-mod, and-shift_one}
use miniosv_apps.Rss.{
  Window, key_bit, toeplitz_bit, toeplitz_byte, toeplitz_bytes, first_window, toeplitz,
}
use miniosv_apps.Rss.BitString.{
  bits_below, bits_of, AreBytes, HoldsBits, key_bit-lt, key_bit-bits_of, first_window-HoldsBits,
}

-- Row `j` of the Toeplitz matrix of a key, times a column of bits: the entry in column `i` is bit
-- `i + j` of the key, and 0 past its end.
abbrev pub row_product : List ℕ → ℕ → List ℕ → ℕ
row_product key j [] = 0
row_product key j (d ∷ ds) = d * get_or key j 0 + row_product key (j + 1) ds

-- The loops as one loop over the bits of the input.
step : Bytes → ℕ → Window → Window
step key d s = record {
  result = if d == 1 then bit_xor s.result s.w else s.result;
  w = bit_or (u32 (s.w * 2)) (key_bit key s.next_bit);
  next_bit = s.next_bit + 1;
}

feed : Bytes → List ℕ → Window → Window
feed key [] s = s
feed key (d ∷ ds) s = feed key ds (step key d s)

feed-append :
    (key : Bytes) (ds es : List ℕ) (s : Window)
    → feed key (ds ++ es) s ≡ feed key es (feed key ds s)
unfolding feed
feed-append key [] es s = refl
feed-append key (d ∷ ds) es s = feed-append key ds es (step key d s)

toeplitz_bit-step :
    (key : Bytes) (byte b : ℕ) (s : Window) → toeplitz_bit key byte b s ≡ step key (bit byte b) s
unfolding toeplitz_bit step
toeplitz_bit-step key byte b s = rw (and-shift_one byte b)

toeplitz_byte-feed :
    (key : Bytes) (byte b : ℕ) (s : Window)
    → toeplitz_byte key byte b s ≡ feed key (bits_below byte b) s
unfolding toeplitz_byte feed
toeplitz_byte-feed key byte zero s = refl
toeplitz_byte-feed key byte (suc b) s =
    rw (toeplitz_bit-step key byte b s) (toeplitz_byte-feed key byte b (step key (bit byte b) s))

toeplitz_bytes-feed :
    (key input : Bytes) (s : Window) → toeplitz_bytes key input s ≡ feed key (bits_of input) s
unfolding toeplitz_bytes feed
toeplitz_bytes-feed key [] s = refl
toeplitz_bytes-feed key (byte ∷ rest) s =
    ap (toeplitz_bytes key rest) (toeplitz_byte-feed key byte 8 s)
    ∙ toeplitz_bytes-feed key rest (feed key (bits_below byte 8) s)
    ∙ sym (feed-append key (bits_below byte 8) (bits_of rest) s)

arrange : (i : ℕ) → i + 1 + (31 - 0) ≡ 32 + i
arrange i = omega arith

HoldsBits-next :
    (key : Bytes) (i w : ℕ)
    → HoldsBits key i w
    → HoldsBits key (i + 1) (bit_or (u32 (w * 2)) (key_bit key (32 + i)))
HoldsBits-next key i w h zero p =
    let e : key_bit key (i + 1 + (31 - 0)) ≡ key_bit key (32 + i) = ap (key_bit key) (arrange i) in
    omega (arith, e, bit-or (u32 (w * 2)) (key_bit key (32 + i)) 0, key_bit-lt key (32 + i))
HoldsBits-next key i w h (suc k) p =
    let new = key_bit key (32 + i) in
    let small : new / 2 ≡ 0 = omega (arith, key_bit-lt key (32 + i)) in
    let none : bit new (suc k) ≡ 0 = ap (λ t. bit t k) small ∙ bit-zero k in
    let shifted : bit (w * 2) (suc k) ≡ bit w k =
      let half : w * 2 / 2 ≡ w = omega arith in ap (λ t. bit t k) half in
    let e : key_bit key (i + (31 - k)) ≡ key_bit key (i + 1 + (31 - suc k)) =
      let same : i + (31 - k) ≡ i + 1 + (31 - suc k) = omega arith in ap (key_bit key) same in
    omega (
      arith,
      bit-or (u32 (w * 2)) new (suc k),
      none,
      bit-mod 32 (w * 2) (suc k) p,
      shifted,
      h k (omega arith),
      e,
    )

bit_test : (d : ℕ) → d < 2 → (d ≡ 0) ⊎ (d ≡ 1)
bit_test d h = omega arith

abbrev AllBits : List ℕ → Type 0
AllBits [] = Unit {0}
AllBits (d ∷ ds) = (d < 2) × AllBits ds

step_result :
    (key : Bytes) (d : ℕ) (s : Window) (k : ℕ)
    → d < 2
    → bit (step key d s).result k ≡ (bit s.result k + d * bit s.w k) % 2
unfolding step
step_result key d s k h = elim (bit_test d h) [
  | inl e ↦ rw e (omega (arith, bit-lt s.result k))
  | inr e ↦ rw e (bit-xor s.result s.w k ∙ omega arith)
]

-- Feeding bits adds their product with the rows to each bit of the result.
feed-row_product :
    (key : Bytes) (ds : List ℕ) (s : Window) (i : ℕ)
    → AllBits ds
    → s.next_bit ≡ 32 + i
    → HoldsBits key i s.w
    → (k : ℕ) → k < 32
    → bit (feed key ds s).result k
      ≡ (bit s.result k + row_product (bits_of key) (i + (31 - k)) ds) % 2
unfolding feed
feed-row_product key [] s i b n h k p = omega (arith, bit-lt s.result k)
feed-row_product key (d ∷ ds) s i b n h k p =
    let holds : HoldsBits key (i + 1) (step key d s).w =
      unfold step in rw n (HoldsBits-next key i s.w h) in
    let at : (step key d s).next_bit ≡ 32 + (i + 1) = unfold step in omega arith in
    let later = feed-row_product key ds (step key d s) (i + 1) b.1 at holds k p in
    let shift : i + 1 + (31 - k) ≡ i + (31 - k) + 1 = omega arith in
    let row = ap (λ t. row_product (bits_of key) t ds) shift in
    let here = h k p ∙ key_bit-bits_of key (i + (31 - k)) in
    omega (arith, later, row, step_result key d s k b.0, ap (λ (t : ℕ). d * t) here)

AllBits-append : (xs ys : List ℕ) → AllBits xs → AllBits ys → AllBits (xs ++ ys)
AllBits-append [] ys p q = q
AllBits-append (x ∷ xs) ys p q = (p.0, AllBits-append xs ys p.1 q)

bits_below-AllBits : (byte b : ℕ) → AllBits (bits_below byte b)
bits_below-AllBits byte zero = tt
bits_below-AllBits byte (suc b) = (bit-lt byte b, bits_below-AllBits byte b)

bits_of-AllBits : (bytes : Bytes) → AllBits (bits_of bytes)
bits_of-AllBits [] = tt
bits_of-AllBits (x ∷ xs) =
    AllBits-append (bits_below x 8) (bits_of xs) (bits_below-AllBits x 8) (bits_of-AllBits xs)

-- For a key of at least four bytes, bit `31 - j` of the hash is the product of row `j` of the
-- Toeplitz matrix of the key with the bits of the input, modulo 2.
pub toeplitz-row_product :
    (key input : Bytes) (j : ℕ)
    → AreBytes key
    → 4 ≤ length key
    → j < 32
    → bit (toeplitz key input) (31 - j) ≡ row_product (bits_of key) j (bits_of input) % 2
unfolding toeplitz
toeplitz-row_product [] input j h n p = absurd (omega arith)
toeplitz-row_product (a ∷ []) input j h n p = absurd (omega arith)
toeplitz-row_product (a ∷ b ∷ []) input j h n p = absurd (omega arith)
toeplitz-row_product (a ∷ b ∷ c ∷ []) input j h n p = absurd (omega arith)
toeplitz-row_product (a ∷ b ∷ c ∷ d ∷ rest) input j h n p =
    let key = a ∷ b ∷ c ∷ d ∷ rest in
    let long : ltb (length key) 4 ≡ false = ground arith in
    let start : Window = record { result = 0; w = first_window key; next_bit = 32 } in
    let product =
      feed-row_product key (bits_of input) start 0 (bits_of-AllBits input) refl
        (first_window-HoldsBits a b c d rest h) (31 - j) (omega arith) in
    let loops = ap (λ (t : Window). bit t.result (31 - j)) (toeplitz_bytes-feed key input start) in
    let place : 0 + (31 - (31 - j)) ≡ j = omega arith in
    let row = ap (λ t. row_product (bits_of key) t (bits_of input)) place in
    rw long (loops ∙ product ∙ omega (arith, row, bit-zero (31 - j)))
