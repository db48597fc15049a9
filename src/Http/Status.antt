-- ===== src/Http/Status.antt =====
-- The status code that `count_body` reads, and what it notes of it.
use miniosv_apps.Prelude.{
  ℕ, ◌+◌, ◌-◌, ◌*◌, ◌≤◌, ◌<◌, ◌≡◌, refl, ap, ap₂, ◌∙◌, inl, inr, Bool, true, false, ◌&&◌, not, u64,
  Option, none, some, List, [], ◌∷◌, ◌++◌, arith, Bool-cases, ◌==◌, if◌then◌else◌, length, Bytes,
  is_digit, AllDigits, value,
}
use miniosv_apps.Http.{
  Tally, fresh_tally, StatusCounters, count_status, count_byte, note_status, count_header,
  count_records,
}
use miniosv_apps.Http.HeaderEnd.{body_of, scan, scan-body_of}
use miniosv_apps.Http.Counting.{
  stream, is_some, count_header-scan, count_header_ends, count_header_goes_on, count_byte_lem,
  count_body_inside, count_records-stream, finished,
}

-- The loop over bytes that hold no end of the header.
abbrev read_bytes : Tally → Bytes → Tally
read_bytes t [] = t
read_bytes t (b ∷ bs) = read_bytes (count_byte t b) bs

count_header-read_bytes :
    (pre rest : Bytes) (t : Tally) (g : StatusCounters)
    → scan t.hdr_state pre ≡ none
    → count_header t g (pre ++ rest) ≡ count_header (read_bytes t pre) g rest
count_header-read_bytes [] rest t g h = refl
count_header-read_bytes (b ∷ pre) rest t g h =
    let state = (count_byte_lem t b).2 in
    elim (Bool-cases ((count_byte t b).hdr_state == 4)) [
      | inl e ↦ let e' = rw state at e in absurd (found (rw e' at h))
      | inr e ↦
          let e' = rw state at e in
          count_header_goes_on b (pre ++ rest) t g e
          ∙ count_header-read_bytes pre rest (count_byte t b) g (rw state (rw e' at h))
    ]
  where
    found : ◌≡◌ {A = Option Bytes} (some pre) none → ⊥
    found q = cc

byte_early :
    (t : Tally) (b : ℕ)
    → t.status_pos < 9
    → ((count_byte t b).status ≡ t.status) × ((count_byte t b).status_pos ≡ t.status_pos + 1)
unfolding count_byte count_status
byte_early t b h = ground arith

-- Before place 9 nothing is read of the status.
read_bytes_early :
    (pre : Bytes) (t : Tally)
    → t.status_pos + length pre ≤ 9
    → ((read_bytes t pre).status ≡ t.status)
      × ((read_bytes t pre).status_pos ≡ t.status_pos + length pre)
read_bytes_early [] t h = (refl, omega arith)
read_bytes_early (b ∷ pre) t h =
    let early = byte_early t b (omega arith) in
    let later = read_bytes_early pre (count_byte t b) (omega (arith, early)) in
    (later.0 ∙ early.0, omega (arith, later, early))

byte_digit :
    (t : Tally) (b : ℕ)
    → 9 ≤ t.status_pos
    → t.status_pos < 12
    → is_digit b ≡ true
    → t.status ≤ 99
    → ((count_byte t b).status ≡ t.status * 10 + (b - b'0'))
      × ((count_byte t b).status_pos ≡ t.status_pos + 1)
unfolding count_byte count_status
byte_digit t b lo hi d small = ground arith

byte_late :
    (t : Tally) (b : ℕ)
    → 12 ≤ t.status_pos
    → ((count_byte t b).status ≡ t.status) × ((count_byte t b).status_pos ≡ t.status_pos)
unfolding count_byte count_status
byte_late t b h = ground arith

-- Behind place 12 the status stays.
count_header_late :
    (xs : Bytes) (t : Tally) (g : StatusCounters)
    → 12 ≤ t.status_pos
    → (count_header t g xs).0.status ≡ t.status
count_header_late [] t g h = unfold count_header in refl
count_header_late (b ∷ xs) t g h =
    let late = byte_late t b h in
    elim (Bool-cases ((count_byte t b).hdr_state == 4)) [
      | inl e ↦ ap (λ p. p.0.status) (count_header_ends b xs t g e) ∙ (unfold finished in late.0)
      | inr e ↦
          ap (λ p. p.0.status) (count_header_goes_on b xs t g e)
          ∙ count_header_late xs (count_byte t b) g (omega (arith, late))
          ∙ late.0
    ]

-- What the counters become once the header has ended.
abbrev noted : Bool → StatusCounters → ℕ → StatusCounters
noted ended g status = if ended then note_status g status else g

count_header-noted :
    (xs : Bytes) (t : Tally) (g : StatusCounters)
    → t.headers_done ≡ false
    → let (t', g') = count_header t g xs in g' ≡ noted t'.headers_done g t'.status
count_header-noted [] t g h = unfold count_header in rw h
count_header-noted (b ∷ xs) t g h = elim (Bool-cases ((count_byte t b).hdr_state == 4)) [
  | inl e ↦ rw (count_header_ends b xs t g e) (unfold finished in refl)
  | inr e ↦
      rw (count_header_goes_on b xs t g e)
        (count_header-noted xs (count_byte t b) g ((count_byte_lem t b).1 ∙ h))
]

digit-le : (c : ℕ) → is_digit c ≡ true → c - b'0' ≤ 9
digit-le c h = ground arith

three_digits :
    (t : Tally) (a b c : ℕ)
    → t.status ≡ 0
    → t.status_pos ≡ 9
    → AllDigits (a ∷ b ∷ c ∷ [])
    → ((read_bytes t (a ∷ b ∷ c ∷ [])).status ≡ value 0 (a ∷ b ∷ c ∷ []))
      × ((read_bytes t (a ∷ b ∷ c ∷ [])).status_pos ≡ 12)
three_digits t a b c s p (da, (db, (dc, _))) =
    let t₁ = count_byte t a in
    let one = byte_digit t a (omega arith) (omega arith) da (omega arith) in
    let two =
      byte_digit t₁ b (omega (arith, one)) (omega (arith, one)) db
        (omega (arith, one, digit-le a da)) in
    let three =
      byte_digit (count_byte t₁ b) c (omega (arith, one, two)) (omega (arith, one, two)) dc
        (omega (arith, one, two, digit-le a da, digit-le b db)) in
    (omega (arith, one, two, three), omega (arith, one, two, three))

read_bytes-append :
    (xs ys : Bytes) (t : Tally) → read_bytes t (xs ++ ys) ≡ read_bytes (read_bytes t xs) ys
read_bytes-append [] ys t = refl
read_bytes-append (x ∷ xs) ys t = read_bytes-append xs ys (count_byte t x)

-- A status other than 206 is one more, and the first of them is kept; 206 leaves the counters alone.
noted-lem :
    (ended : Bool) (g : StatusCounters) (status : ℕ)
    → let g' = noted ended g status in
      let is_bad = ended && not (status == 206) in
      (g'.bad_status ≡ (if is_bad then u64 (g.bad_status + 1) else g.bad_status))
      × (g'.first_bad_status
          ≡ (if is_bad && g.first_bad_status == 0 then status else g.first_bad_status))
unfolding note_status
noted-lem ended g status = ground arith

-- On a new connection whose stream begins with nine bytes and then three digits, with no CRLFCRLF
-- within them, the status read is the number of the three digits, however the stream is cut. Once the
-- header has ended with a status other than 206, BAD_STATUS is one more, and FIRST_BAD_STATUS is the
-- status where it was 0; before that, and with 206, both are left alone.
pub count_records-status :
    (rs : List Bytes) (g : StatusCounters) (pre : Bytes) (a b c : ℕ) (rest : Bytes)
    → stream rs ≡ (pre ++ (a ∷ b ∷ c ∷ [])) ++ rest
    → length pre ≡ 9
    → AllDigits (a ∷ b ∷ c ∷ [])
    → body_of (pre ++ (a ∷ b ∷ c ∷ [])) ≡ none
    → let (t', g') = count_records fresh_tally g rs in
      (t'.status ≡ value 0 (a ∷ b ∷ c ∷ []))
      × (g'.bad_status ≡ (
          if is_some (body_of (stream rs)) && not (value 0 (a ∷ b ∷ c ∷ []) == 206)
          then u64 (g.bad_status + 1)
          else g.bad_status))
      × (g'.first_bad_status ≡ (
          if is_some (body_of (stream rs))
            && not (value 0 (a ∷ b ∷ c ∷ []) == 206)
            && g.first_bad_status == 0
          then value 0 (a ∷ b ∷ c ∷ [])
          else g.first_bad_status))
count_records-status rs g pre a b c rest e n ds open_header =
    let abc = a ∷ b ∷ c ∷ [] in
    let all = stream rs in
    let whole =
      count_records-stream rs fresh_tally g (omega arith)
      ∙ count_body_inside all fresh_tally g refl in
    let early = read_bytes_early pre fresh_tally (omega arith) in
    let code = three_digits (read_bytes fresh_tally pre) a b c early.0 (omega (arith, early)) ds in
    let here = read_bytes fresh_tally (pre ++ abc) in
    let at = read_bytes-append pre abc fresh_tally in
    let head =
      ap (count_header fresh_tally g) e
      ∙ count_header-read_bytes (pre ++ abc) rest fresh_tally g
          (scan-body_of (pre ++ abc) ∙ open_header) in
    let status : (count_header fresh_tally g all).0.status ≡ value 0 abc =
      ap (λ p. p.0.status) head
      ∙ count_header_late rest here g (omega (arith, ap (λ (t : Tally). t.status_pos) at, code))
      ∙ ap (λ (t : Tally). t.status) at
      ∙ code.0 in
    let ended =
      (count_header-scan all fresh_tally g refl (omega arith)).0 ∙ ap is_some (scan-body_of all) in
    let counters =
      ap (λ p. p.1) whole
      ∙ count_header-noted all fresh_tally g refl
      ∙ ap₂ (λ d n. noted d g n) ended status in
    let (more, first) = noted-lem (is_some (body_of all)) g (value 0 abc) in
    (
      ap (λ p. p.0.status) whole ∙ status,
      ap (λ (k : StatusCounters). k.bad_status) counters ∙ more,
      ap (λ (k : StatusCounters). k.first_bad_status) counters ∙ first,
    )
