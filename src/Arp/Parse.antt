-- ===== src/Arp/Parse.antt =====
-- What `parse_arp_reply_from` makes of the frames that `arp_frame` builds.
use miniosv_apps.Prelude.{
  ℕ, ◌^◌, ◌<◌, ◌≡◌, refl, ap, Bool, true, false, ◌&&◌, not, Option, none, some, [], ◌∷◌, arith,
  ◌==◌, if◌then◌else◌, length, Bytes, be_bytes16,
}
use miniosv_apps.Config.{bytes_eq}
use miniosv_apps.Arp.{arp_frame, parse_arp_reply_from}

-- Lists of four and of six bytes, entry by entry.
four : (m : Bytes) → length m ≡ 4 → (a : ℕ) × (b : ℕ) × (c : ℕ) × (d : ℕ) × (m ≡ a ∷ b ∷ c ∷ d ∷ [])
four [] h = absurd (omega arith)
four (a ∷ []) h = absurd (omega arith)
four (a ∷ b ∷ []) h = absurd (omega arith)
four (a ∷ b ∷ c ∷ []) h = absurd (omega arith)
four (a ∷ b ∷ c ∷ d ∷ []) h = (a, b, c, d, refl)
four (a ∷ b ∷ c ∷ d ∷ e ∷ m) h = absurd (omega arith)

six :
    (m : Bytes)
    → length m ≡ 6
    → (a : ℕ) × (b : ℕ) × (c : ℕ) × (d : ℕ) × (e : ℕ) × (f : ℕ) × (m ≡ a ∷ b ∷ c ∷ d ∷ e ∷ f ∷ [])
six [] h = absurd (omega arith)
six (a ∷ []) h = absurd (omega arith)
six (a ∷ b ∷ m) h =
    let (c, d, e, f, q) = four m (omega arith) in (a, b, c, d, e, f, ap (λ t. a ∷ b ∷ t) q)

-- The reply code, as two bytes.
is_reply : (op : ℕ) → op < 2 ^ 16 → bytes_eq (be_bytes16 op) (0 ∷ 2 ∷ []) ≡ (op == 2)
unfolding bytes_eq
is_reply op h = ground arith

-- From a frame that the program builds, with addresses of six and four bytes, the parser takes the
-- sender's hardware address where the frame is a reply and its sender has the expected address, and
-- takes nothing else.
pub parse_arp_reply_from-arp_frame :
    (dst_mac src_mac : Bytes) (op : ℕ) (sender_ip target_mac target_ip expected_ip : Bytes)
    → (length dst_mac ≡ 6) × (length src_mac ≡ 6) × (length target_mac ≡ 6)
    → (length sender_ip ≡ 4) × (length target_ip ≡ 4)
    → op < 2 ^ 16
    → parse_arp_reply_from (arp_frame dst_mac src_mac op sender_ip target_mac target_ip) expected_ip
      ≡ (if (op == 2) && bytes_eq sender_ip expected_ip then some src_mac else none)
unfolding parse_arp_reply_from arp_frame
parse_arp_reply_from-arp_frame dst_mac src_mac op sender_ip target_mac target_ip expected_ip
      (hd, hs, ht) (ks, kt) small =
    let (d₀, d₁, d₂, d₃, d₄, d₅, ed) = six dst_mac hd in
    let (s₀, s₁, s₂, s₃, s₄, s₅, es) = six src_mac hs in
    let (t₀, t₁, t₂, t₃, t₄, t₅, et) = six target_mac ht in
    let (i₀, i₁, i₂, i₃, ei) = four sender_ip ks in
    let (j₀, j₁, j₂, j₃, ej) = four target_ip kt in
    rw (ed, es, et, ei, ej, is_reply op small)
      (choose (op == 2) (bytes_eq (i₀ ∷ i₁ ∷ i₂ ∷ i₃ ∷ []) expected_ip)
        (some (s₀ ∷ s₁ ∷ s₂ ∷ s₃ ∷ s₄ ∷ s₅ ∷ [])))
  where
    choose :
        (a b : Bool) (r : Option Bytes)
        → (if not a then none else (if not b then none else r)) ≡ (if a && b then r else none)
    choose true true r = refl
    choose true false r = refl
    choose false b r = refl
