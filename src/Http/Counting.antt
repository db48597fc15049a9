-- ===== src/Http/Counting.antt =====
-- What `count_body` counts: the bytes behind the header, however the stream is cut into records.
use miniosv_apps.Prelude.{
  ℕ, ◌+◌, ◌^◌, ◌<◌, ◌≡◌, refl, sym, ap, ◌∙◌, inl, inr, Bool, true, false, Option, none, some, List,
  [], ◌∷◌, ◌++◌, arith, Bool-cases, ◌==◌, if◌then◌else◌, length, length-append, u64, Bytes,
}
use miniosv_apps.Http.{
  Tally, fresh_tally, StatusCounters, next_hdr_state, count_status, count_byte, note_status,
  count_header, count_body, count_records,
}
use miniosv_apps.Http.HeaderEnd.{body_of, scan, scan-body_of}

-- The stream that a list of records carries.
abbrev pub stream : List Bytes → Bytes
stream [] = []
stream (r ∷ rs) = r ++ stream rs

-- A record in which the header ends at byte `b`, and one in which it does not.
unfoldable pub finished : Tally → StatusCounters → Bytes → Tally × StatusCounters
finished t g rest =
    (record t { headers_done = true; bytes = u64 (t.bytes + length rest) }, note_status g t.status)

module _ (b : ℕ) (rest : Bytes) (t : Tally) (g : StatusCounters) where
  pub count_header_ends :
      ((count_byte t b).hdr_state == 4) ≡ true
      → count_header t g (b ∷ rest) ≡ finished (count_byte t b) g rest
  unfolding count_header finished
  count_header_ends e = rw e

  pub count_header_goes_on :
      ((count_byte t b).hdr_state == 4) ≡ false
      → count_header t g (b ∷ rest) ≡ count_header (count_byte t b) g rest
  unfolding count_header
  count_header_goes_on e = rw e

pub count_byte_lem :
    (t : Tally) (b : ℕ)
    → ((count_byte t b).bytes ≡ t.bytes)
      × ((count_byte t b).headers_done ≡ t.headers_done)
      × ((count_byte t b).hdr_state ≡ next_hdr_state t.hdr_state b)
unfolding count_byte count_status
count_byte_lem t b = ground arith

count_body-finished :
    (t : Tally) (g : StatusCounters) (xs ys : Bytes)
    → (let (t', g') = finished t g xs in count_body t' g' ys) ≡ finished t g (xs ++ ys)
unfolding count_body finished
count_body-finished t g xs ys =
    let e : u64 (u64 (t.bytes + length xs) + length ys) ≡ u64 (t.bytes + length (xs ++ ys)) =
      omega (arith, length-append xs ys) in
    ap (λ n. (record t { headers_done = true; bytes = n }, note_status g t.status)) e

pub count_header-append :
    (xs ys : Bytes) (t : Tally) (g : StatusCounters)
    → t.headers_done ≡ false
    → (let (t', g') = count_header t g xs in count_body t' g' ys) ≡ count_header t g (xs ++ ys)
count_header-append [] ys t g h = unfold count_header count_body in rw h
count_header-append (b ∷ xs) ys t g h = elim (Bool-cases ((count_byte t b).hdr_state == 4)) [
  | inl e ↦
      ap (λ p. count_body p.0 p.1 ys) (count_header_ends b xs t g e)
      ∙ count_body-finished (count_byte t b) g xs ys
      ∙ sym (count_header_ends b (xs ++ ys) t g e)
  | inr e ↦
      ap (λ p. count_body p.0 p.1 ys) (count_header_goes_on b xs t g e)
      ∙ count_header-append xs ys (count_byte t b) g ((count_byte_lem t b).1 ∙ h)
      ∙ sym (count_header_goes_on b (xs ++ ys) t g e)
]

module _ (xs : Bytes) (t : Tally) (g : StatusCounters) where
  count_body_behind :
      t.headers_done ≡ true
      → count_body t g xs ≡ (record t { bytes = u64 (t.bytes + length xs) }, g)
  unfolding count_body
  count_body_behind h =
      let counted : Tally × StatusCounters = (record t { bytes = u64 (t.bytes + length xs) }, g) in
      ap (λ c. if c then counted else count_header t g xs) h

  pub count_body_inside : t.headers_done ≡ false → count_body t g xs ≡ count_header t g xs
  unfolding count_body
  count_body_inside h =
      let counted : Tally × StatusCounters = (record t { bytes = u64 (t.bytes + length xs) }, g) in
      ap (λ c. if c then counted else count_header t g xs) h

-- Two records are counted as the one that they make together.
pub count_body-append :
    (xs ys : Bytes) (t : Tally) (g : StatusCounters)
    → (let (t', g') = count_body t g xs in count_body t' g' ys) ≡ count_body t g (xs ++ ys)
count_body-append xs ys t g = elim (Bool-cases t.headers_done) [
  | inl h ↦
      let e : u64 (u64 (t.bytes + length xs) + length ys) ≡ u64 (t.bytes + length (xs ++ ys)) =
        omega (arith, length-append xs ys) in
      ap (λ p. count_body p.0 p.1 ys) (count_body_behind xs t g h)
      ∙ count_body_behind ys (record t { bytes = u64 (t.bytes + length xs) }) g h
      ∙ ap (λ n. (record t { bytes = n }, g)) e
      ∙ sym (count_body_behind (xs ++ ys) t g h)
  | inr h ↦
      ap (λ p. count_body p.0 p.1 ys) (count_body_inside xs t g h)
      ∙ count_header-append xs ys t g h
      ∙ sym (count_body_inside (xs ++ ys) t g h)
]

count_body-nil : (t : Tally) (g : StatusCounters) → t.bytes < 2 ^ 64 → count_body t g [] ≡ (t, g)
count_body-nil t g h = elim (Bool-cases t.headers_done) [
  | inl d ↦
      let e : u64 (t.bytes + 0) ≡ t.bytes = omega arith in
      count_body_behind [] t g d ∙ ap (λ n. (record t { bytes = n }, g)) e
  | inr d ↦ count_body_inside [] t g d ∙ (unfold count_header in refl)
]

count_header-lt :
    (xs : Bytes) (t : Tally) (g : StatusCounters)
    → t.bytes < 2 ^ 64
    → (count_header t g xs).0.bytes < 2 ^ 64
count_header-lt [] t g h = unfold count_header in h
count_header-lt (b ∷ xs) t g h = elim (Bool-cases ((count_byte t b).hdr_state == 4)) [
  | inl e ↦ rw (count_header_ends b xs t g e) (unfold finished in omega arith)
  | inr e ↦
      rw (count_header_goes_on b xs t g e)
        (count_header-lt xs (count_byte t b) g (omega (arith, count_byte_lem t b)))
]

count_body-lt :
    (xs : Bytes) (t : Tally) (g : StatusCounters)
    → t.bytes < 2 ^ 64
    → (count_body t g xs).0.bytes < 2 ^ 64
count_body-lt xs t g h = elim (Bool-cases t.headers_done) [
  | inl d ↦ rw (count_body_behind xs t g d) (omega arith)
  | inr d ↦ rw (count_body_inside xs t g d) (count_header-lt xs t g h)
]

-- However the stream is cut into records, the count and the counters are those of the whole stream
-- in one record, if the bytes counted before are a `usize`.
pub count_records-stream :
    (rs : List Bytes) (t : Tally) (g : StatusCounters)
    → t.bytes < 2 ^ 64
    → count_records t g rs ≡ count_body t g (stream rs)
unfolding count_records
count_records-stream [] t g h = sym (count_body-nil t g h)
count_records-stream (r ∷ rs) t g h =
    let (t', g') = count_body t g r in
    count_records-stream rs t' g' (count_body-lt r t g h) ∙ count_body-append r (stream rs) t g

-- The header's end and the bytes behind it, by the states of the code.
abbrev pub is_some : Option Bytes → Bool
is_some none = false
is_some (some _) = true

abbrev pub body_length : Option Bytes → ℕ
body_length none = 0
body_length (some body) = length body

abbrev Counts : Tally → Option Bytes → Tally → Type 0
Counts t found t' =
    (t'.headers_done ≡ is_some found) × (t'.bytes ≡ u64 (t.bytes + body_length found))

pub count_header-scan :
    (xs : Bytes) (t : Tally) (g : StatusCounters)
    → t.headers_done ≡ false
    → t.bytes < 2 ^ 64
    → Counts t (scan t.hdr_state xs) (count_header t g xs).0
count_header-scan [] t g h k = unfold count_header in (h, omega arith)
count_header-scan (b ∷ xs) t g h k =
    let (same, flag, state) = count_byte_lem t b in
    elim (Bool-cases ((count_byte t b).hdr_state == 4)) [
      | inl e ↦
          rw (count_header_ends b xs t g e, sym state, e)
            (unfold finished in (refl, ap (λ n. u64 (n + length xs)) same))
      | inr e ↦
          rw (count_header_goes_on b xs t g e, sym state, e)
            (let (d, n) =
                count_header-scan xs (count_byte t b) g (flag ∙ h) (omega (arith, same)) in
              let found = scan (count_byte t b).hdr_state xs in
              (d, n ∙ ap (λ m. u64 (m + body_length found)) same))
    ]

-- On a new connection, however its stream is cut into records, the header is taken to have ended
-- exactly when CRLFCRLF occurs in the stream, and the count is then the number of bytes behind its
-- first occurrence, if that number is a `usize`, and else 0.
pub count_records-body_of :
    (rs : List Bytes) (g : StatusCounters)
    → body_length (body_of (stream rs)) < 2 ^ 64
    → let t = (count_records fresh_tally g rs).0 in
      (t.headers_done ≡ is_some (body_of (stream rs)))
      × (t.bytes ≡ body_length (body_of (stream rs)))
count_records-body_of rs g h =
    let all = stream rs in
    let whole =
      count_records-stream rs fresh_tally g (omega arith)
      ∙ count_body_inside all fresh_tally g refl in
    let (d, n) = count_header-scan all fresh_tally g refl (omega arith) in
    let found = scan-body_of all in
    (
      ap (λ p. p.0.headers_done) whole ∙ d ∙ ap is_some found,
      ap (λ p. p.0.bytes) whole ∙ n ∙ omega (arith, ap body_length found),
    )
