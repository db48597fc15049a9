-- ===== src/Http/Request.antt =====
-- The request that `build_range_request` writes, and where its buffer cuts it off.
use miniosv_apps.Prelude.{
  ℕ, zero, suc, ◌-◌, ◌≤◌, ◌≡◌, refl, sym, ap, ◌∙◌, ◌↔◌, min, List, [], ◌∷◌, ◌++◌, arith, length,
  take, take-all, length-take, append-nil, append_assoc, Bytes,
}
use miniosv_apps.Http.{write_str, write_all, request_pieces, build_range_request}
use miniosv_apps.Http.Counting.{stream}

take-min : (n : ℕ) (ys : Bytes) → take (min (length ys) n) ys ≡ take n ys
take-min zero [] = ap (λ k. take {A = ℕ} k []) min-zero
  where
    min-zero : min 0 0 ≡ 0
    min-zero = omega arith
take-min zero (y ∷ ys) =
    let e : min (suc (length ys)) 0 ≡ 0 = omega arith in ap (λ k. take k (y ∷ ys)) e
take-min (suc n) [] = let e : min 0 (suc n) ≡ 0 = omega arith in ap (λ k. take {A = ℕ} k []) e
take-min (suc n) (y ∷ ys) =
    let e : min (suc (length ys)) (suc n) ≡ suc (min (length ys) n) = omega arith in
    ap (λ k. take k (y ∷ ys)) e ∙ ap (◌∷◌ y) (take-min n ys)

take-append_room :
    (n : ℕ) (xs ys : Bytes) → length xs ≤ n → xs ++ take (n - length xs) ys ≡ take n (xs ++ ys)
take-append_room n [] ys h = let e : n - 0 ≡ n = omega arith in ap (λ k. take k ys) e
take-append_room zero (x ∷ xs) ys h = absurd (omega arith)
take-append_room (suc n) (x ∷ xs) ys h =
    let e : suc n - suc (length xs) ≡ n - length xs = omega arith in
    ap (λ k. x ∷ (xs ++ take k ys)) e ∙ ap (◌∷◌ x) (take-append_room n xs ys (omega arith))

take-take_append : (n : ℕ) (xs ys : Bytes) → take n (take n xs ++ ys) ≡ take n (xs ++ ys)
take-take_append zero xs ys = refl
take-take_append (suc n) [] ys = refl
take-take_append (suc n) (x ∷ xs) ys = ap (◌∷◌ x) (take-take_append n xs ys)

-- What `write!` leaves in a buffer: the first bytes of all the pieces, as many as fit.
pub write_all-take :
    (ss : List Bytes) (size : ℕ) (out : Bytes)
    → length out ≤ size
    → (write_all (record { size = size; written = out }) ss).written ≡ take size (out ++ stream ss)
unfolding write_all write_str
write_all-take [] size out h =
    sym (take-all size (out ++ []) (rw (append-nil out) h) ∙ append-nil out)
write_all-take (s ∷ ss) size out h =
    let out' = out ++ take (min (length s) (size - length out)) s in
    let kept : out' ≡ take size (out ++ s) =
      ap (λ t. out ++ t) (take-min (size - length out) s) ∙ take-append_room size out s h in
    let fits : length out' ≤ size = omega (arith, ap length kept, length-take size (out ++ s)) in
    write_all-take ss size out' fits
    ∙ ap (λ t. take size (t ++ stream ss)) kept
    ∙ take-take_append size (out ++ s) (stream ss)
    ∙ ap (take size) (append_assoc out s (stream ss))

-- The request in the buffer is the whole text of its pieces exactly when they fit the buffer; if
-- they do not, it is their first bytes and fills the buffer.
pub build_range_request-take :
    (host : Bytes) (size start end_inclusive : ℕ)
    → let text = stream (request_pieces host start end_inclusive) in
      (build_range_request host size start end_inclusive ≡ take size text)
      × (length (build_range_request host size start end_inclusive) ≡ min size (length text))
      × ((build_range_request host size start end_inclusive ≡ text) ↔ (length text ≤ size))
unfolding build_range_request
build_range_request-take host size start end_inclusive =
    let pieces = request_pieces host start end_inclusive in
    let text = stream pieces in
    let cut = write_all-take pieces size [] (omega arith) in
    let long = length-take size text in
    (
      cut,
      ap length cut ∙ long,
      (λ e. omega (arith, ap length cut, long, ap length e), λ h. cut ∙ take-all size text h),
    )
