-- ===== src/Rss/BitString.antt =====
-- The key of `toeplitz` as a string of bits, and the 32 of them that the first window holds.
use miniosv_apps.Prelude.{
  ℕ, zero, suc, ◌+◌, ◌-◌, ◌*◌, ◌/◌, ◌%◌, ◌<◌, ◌≡◌, sym, ap, ◌∙◌, true, false, List, [], ◌∷◌, ◌++◌,
  arith, ltb, length, get_or, Bytes,
}
use miniosv_apps.Prelude.Bits.{bit, bit-lt, bit_low_byte, bit_high_byte, and-shift_one}
use native.Mathlib.Decide.{dec_lt}
use miniosv_apps.Rss.{key_bit, first_window}

-- The lowest `b` bits of a byte, the highest of them first.
abbrev pub bits_below : ℕ → ℕ → List ℕ
bits_below byte zero = []
bits_below byte (suc b) = bit byte b ∷ bits_below byte b

-- A byte string as bits, in wire order.
abbrev pub bits_of : Bytes → List ℕ
bits_of [] = []
bits_of (byte ∷ rest) = bits_below byte 8 ++ bits_of rest

abbrev pub AreBytes : Bytes → Type 0
AreBytes [] = Unit {0}
AreBytes (b ∷ bs) = (b < 256) × AreBytes bs

-- `key_bit` reads the bit string of the key.
pub key_bit-lt : (key : Bytes) (i : ℕ) → key_bit key i < 2
unfolding key_bit
key_bit-lt key i =
    let lt = bit-lt (get_or key (i / 8) 0) (7 - i % 8) in
    let e = and-shift_one (get_or key (i / 8) 0) (7 - i % 8) in ground (arith, lt, e)

pub get_or-bits_below :
    (byte b i : ℕ) (rest : List ℕ)
    → i < b
    → get_or (bits_below byte b ++ rest) i 0 ≡ bit byte (b - 1 - i)
get_or-bits_below byte zero i rest h = absurd (omega arith)
get_or-bits_below byte (suc b) zero rest h =
    let e : b ≡ suc b - 1 - 0 = omega arith in ap (bit byte) e
get_or-bits_below byte (suc b) (suc i) rest h =
    get_or-bits_below byte b i rest (omega arith)
    ∙ (let e : b - 1 - i ≡ suc b - 1 - suc i = omega arith in ap (bit byte) e)

key_bit_head : (x : ℕ) (xs : Bytes) (i : ℕ) → i < 8 → key_bit (x ∷ xs) i ≡ bit x (8 - 1 - i)
unfolding key_bit
key_bit_head x xs i h =
    let inside : ltb i (suc (length xs) * 8) ≡ true = ground arith in
    let byte : i / 8 ≡ 0 = omega arith in
    let place : i % 8 ≡ i = omega arith in rw (inside, byte, place) (and-shift_one x (7 - i))

key_bit_tail : (x : ℕ) (xs : Bytes) (i : ℕ) → key_bit (x ∷ xs) (8 + i) ≡ key_bit xs i
unfolding key_bit
key_bit_tail x xs i =
    let same : ltb (8 + i) (suc (length xs) * 8) ≡ ltb i (length xs * 8) = ground arith in
    let byte : (8 + i) / 8 ≡ suc (i / 8) = omega arith in
    let place : (8 + i) % 8 ≡ i % 8 = omega arith in rw (same, byte, place)

key_bit-nil : (i : ℕ) → key_bit [] i ≡ 0
unfolding key_bit
key_bit-nil i = let past : ltb i 0 ≡ false = ground arith in rw past

get_or_tail :
    (x : ℕ) (rest : List ℕ) (i : ℕ) → get_or (bits_below x 8 ++ rest) (8 + i) 0 ≡ get_or rest i 0
get_or_tail x rest i =
    let shift : 8 + i ≡ suc (suc (suc (suc (suc (suc (suc (suc i))))))) = omega arith in
    ap (λ t. get_or (bits_below x 8 ++ rest) t 0) shift

pub key_bit-bits_of : (key : Bytes) (i : ℕ) → key_bit key i ≡ get_or (bits_of key) i 0
key_bit-bits_of [] i = key_bit-nil i
key_bit-bits_of (x ∷ xs) i = elim (dec_lt i 8) [
  | yes h ↦ key_bit_head x xs i h ∙ sym (get_or-bits_below x 8 i (bits_of xs) h)
  | no h ↦
      let back : i ≡ 8 + (i - 8) = omega arith in
      ap (key_bit (x ∷ xs)) back
      ∙ key_bit_tail x xs (i - 8)
      ∙ key_bit-bits_of xs (i - 8)
      ∙ sym (ap (λ t. get_or (bits_of (x ∷ xs)) t 0) back ∙ get_or_tail x (bits_of xs) (i - 8))
]

-- `w` holds the 32 key bits from `i` on, the first of them highest.
abbrev pub HoldsBits : Bytes → ℕ → ℕ → Type 0
HoldsBits key i w = (k : ℕ) → k < 32 → bit w k ≡ key_bit key (i + (31 - k))

key_bit_low : (x : ℕ) (xs : Bytes) (m : ℕ) → m < 8 → key_bit (x ∷ xs) (7 - m) ≡ bit x m
key_bit_low x xs m h =
    let e : 8 - 1 - (7 - m) ≡ m = omega arith in
    key_bit_head x xs (7 - m) (omega arith) ∙ ap (bit x) e

-- The place of a byte's bits moves by 8 behind one more byte.
key_bit_second :
    (x : ℕ) (xs : Bytes) (place y m : ℕ)
    → m < 8
    → ((n : ℕ) → n < 8 → key_bit xs (place + (7 - n)) ≡ bit y n)
    → key_bit (x ∷ xs) (place + 8 + (7 - m)) ≡ bit y m
key_bit_second x xs place y m h inner =
    let e : place + 8 + (7 - m) ≡ 8 + (place + (7 - m)) = omega arith in
    ap (key_bit (x ∷ xs)) e ∙ key_bit_tail x xs (place + (7 - m)) ∙ inner m h

key_bit_first : (x : ℕ) (xs : Bytes) (m : ℕ) → m < 8 → key_bit (x ∷ xs) (0 + (7 - m)) ≡ bit x m
key_bit_first x xs m h =
    let e : 0 + (7 - m) ≡ 7 - m = omega arith in ap (key_bit (x ∷ xs)) e ∙ key_bit_low x xs m h

-- `y` is the number that the bytes in front of `x` make, `k` a bit counted from the end of `x`.
byte_step :
    (y x place : ℕ) (key : Bytes) (k : ℕ)
    → x < 256
    → ((m : ℕ) → m < 8 → key_bit key (place + 8 + (7 - m)) ≡ bit x m)
    → ((m : ℕ) → m < place + 8 → bit y m ≡ key_bit key (place + 7 - m))
    → k < place + 16
    → bit (y * 256 + x) k ≡ key_bit key (place + 15 - k)
byte_step y x place key k hx here before h = elim (dec_lt k 8) [
  | yes low ↦
      let e : place + 8 + (7 - k) ≡ place + 15 - k = omega arith in
      bit_low_byte y x k low hx ∙ sym (here k low) ∙ ap (key_bit key) e
  | no high ↦
      let back : k ≡ 8 + (k - 8) = omega arith in
      let e : place + 7 - (k - 8) ≡ place + 15 - k = omega arith in
      ap (bit (y * 256 + x)) back
      ∙ bit_high_byte y x (k - 8) hx
      ∙ before (k - 8) (omega arith)
      ∙ ap (key_bit key) e
]

-- The four bytes read big-endian hold the first 32 key bits.
pub first_window-HoldsBits :
    (a b c d : ℕ) (key : Bytes)
    → AreBytes (a ∷ b ∷ c ∷ d ∷ key)
    → HoldsBits (a ∷ b ∷ c ∷ d ∷ key) 0 (first_window (a ∷ b ∷ c ∷ d ∷ key))
first_window-HoldsBits a b c d key h k p =
    let whole = a ∷ b ∷ c ∷ d ∷ key in
    let at_a = λ (m : ℕ) (q : m < 0 + 8). sym (key_bit_low a (b ∷ c ∷ d ∷ key) m q) in
    let at_b = λ (m : ℕ) (q : m < 8).
      key_bit_second a (b ∷ c ∷ d ∷ key) 0 b m q (key_bit_first b (c ∷ d ∷ key)) in
    let at_c = λ (m : ℕ) (q : m < 8).
      key_bit_second a (b ∷ c ∷ d ∷ key) 8 c m q
        (λ m q. key_bit_second b (c ∷ d ∷ key) 0 c m q (key_bit_first c (d ∷ key))) in
    let at_d = λ (m : ℕ) (q : m < 8). key_bit_second a (b ∷ c ∷ d ∷ key) 16 d m q (λ m q.
      key_bit_second b (c ∷ d ∷ key) 8 d m q
        (λ m q. key_bit_second c (d ∷ key) 0 d m q (key_bit_first d key))) in
    let two = λ (m : ℕ) (q : m < 8 + 8). byte_step a b 0 whole m h.1.0 at_b at_a q in
    let three =
      λ (m : ℕ) (q : m < 16 + 8). byte_step (a * 256 + b) c 8 whole m h.1.1.0 at_c two q in
    let horner : first_window whole ≡ ((a * 256 + b) * 256 + c) * 256 + d = omega arith in
    ap (λ t. bit t k) horner
    ∙ byte_step ((a * 256 + b) * 256 + c) d 16 whole k h.1.1.1.0 at_d three p
    ∙ (let e : 31 - k ≡ 0 + (31 - k) = omega arith in ap (key_bit whole) e)
