-- ===== src/Http/HeaderEnd.antt =====
-- The four states of `hdr_state` find the first CRLFCRLF of the stream, wherever records break it.
use miniosv_apps.Prelude.{
  ℕ, zero, suc, ◌≡◌, refl, Bool, true, false, Option, none, some, [], ◌∷◌, ◌++◌, arith, ◌==◌,
  if◌then◌else◌, Bytes,
}
use miniosv_apps.Http.{next_hdr_state}

abbrev pub starts_with : Bytes → Bytes → Bool
starts_with [] xs = true
starts_with (p ∷ ps) [] = false
starts_with (p ∷ ps) (x ∷ xs) = if x == p then starts_with ps xs else false

abbrev pub crlf_crlf : Bytes
crlf_crlf = b'\r' ∷ b'\n' ∷ b'\r' ∷ b'\n' ∷ []

abbrev pub drop_four : Bytes → Bytes
drop_four (a ∷ b ∷ c ∷ d ∷ rest) = rest
drop_four _ = []

-- What follows the first CRLFCRLF of a text, `none` where there is none.
abbrev pub body_of : Bytes → Option Bytes
body_of [] = none
body_of (c ∷ cs) = if starts_with crlf_crlf (c ∷ cs) then some (drop_four (c ∷ cs)) else body_of cs

-- The same by the states of the code.
abbrev pub scan : ℕ → Bytes → Option Bytes
scan s [] = none
scan s (c ∷ cs) =
    let more = scan (next_hdr_state s c) cs in if next_hdr_state s c == 4 then some cs else more

-- The part of CRLFCRLF that a state stands for.
abbrev seen : ℕ → Bytes
seen zero = []
seen (suc zero) = b'\r' ∷ []
seen (suc (suc zero)) = b'\r' ∷ b'\n' ∷ []
seen _ = b'\r' ∷ b'\n' ∷ b'\r' ∷ []

abbrev Agrees : ℕ → Bytes → Type 0
Agrees s cs = scan s cs ≡ body_of (seen s ++ cs)

Agrees-none : (c : ℕ) (cs : Bytes) → Agrees 0 cs → Agrees 1 cs → Agrees 0 (c ∷ cs)
unfolding next_hdr_state
Agrees-none c cs h₀ h₁ = ground arith

Agrees-cr : (c : ℕ) (cs : Bytes) → Agrees 0 cs → Agrees 1 cs → Agrees 2 cs → Agrees 1 (c ∷ cs)
unfolding next_hdr_state
Agrees-cr c cs h₀ h₁ h₂ = ground arith

Agrees-crlf : (c : ℕ) (cs : Bytes) → Agrees 0 cs → Agrees 3 cs → Agrees 2 (c ∷ cs)
unfolding next_hdr_state
Agrees-crlf c cs h₀ h₃ = ground arith

Agrees-crlf_cr : (c : ℕ) (cs : Bytes) → Agrees 0 cs → Agrees 1 cs → Agrees 3 (c ∷ cs)
unfolding next_hdr_state
Agrees-crlf_cr c cs h₀ h₁ = ground arith

agrees : (cs : Bytes) → Agrees 0 cs × Agrees 1 cs × Agrees 2 cs × Agrees 3 cs
agrees [] = (refl, refl, refl, refl)
agrees (c ∷ cs) =
    let (h₀, h₁, h₂, h₃) = agrees cs in
    (
      Agrees-none c cs h₀ h₁,
      Agrees-cr c cs h₀ h₁ h₂,
      Agrees-crlf c cs h₀ h₃,
      Agrees-crlf_cr c cs h₀ h₁,
    )

-- From the first state the code finds what follows the first CRLFCRLF.
pub scan-body_of : (cs : Bytes) → scan 0 cs ≡ body_of cs
scan-body_of cs = (agrees cs).0
