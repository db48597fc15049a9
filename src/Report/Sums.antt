-- ===== src/Report/Sums.antt =====
-- The totals of accounts as sums, and when sums of bounded counts reach their bound.
use miniosv_apps.Prelude.{
  ℕ, suc, ◌+◌, ◌*◌, ◌^◌, ◌≤◌, ◌<◌, ◌≡◌, ◌∙◌, List, [], ◌∷◌, arith, length, u64,
}
use miniosv_apps.Report.{Account, no_account, add_account, totals_from, totals}

abbrev pub sum : (Account → ℕ) → List Account → ℕ
sum f [] = 0
sum f (a ∷ rest) = f a + sum f rest

abbrev Fits : Account → Type 0
Fits t =
    (t.bytes_received < 2 ^ 64)
    × (t.bytes_expected < 2 ^ 64)
    × (t.conns_total < 2 ^ 64)
    × (t.conns_clean < 2 ^ 64)

abbrev Sums : Account → List Account → Account → Type 0
Sums t accounts t' =
    (t'.bytes_received ≡ u64 (t.bytes_received + sum (λ (a : Account). a.bytes_received) accounts))
    × (t'.bytes_expected
        ≡ u64 (t.bytes_expected + sum (λ (a : Account). a.bytes_expected) accounts))
    × (t'.conns_total ≡ u64 (t.conns_total + sum (λ (a : Account). a.conns_total) accounts))
    × (t'.conns_clean ≡ u64 (t.conns_clean + sum (λ (a : Account). a.conns_clean) accounts))

add_account-Fits : (t a : Account) → Fits (add_account t a)
unfolding add_account
add_account-Fits t a = (omega arith, omega arith, omega arith, omega arith)

u64-add : (x y s : ℕ) → u64 (u64 (x + y) + s) ≡ u64 (x + (y + s))
u64-add x y s = omega arith

totals_from-Sums :
    (accounts : List Account) (t : Account) → Fits t → Sums t accounts (totals_from t accounts)
unfolding totals_from add_account
totals_from-Sums [] t (h₀, h₁, h₂, h₃) = (omega arith, omega arith, omega arith, omega arith)
totals_from-Sums (a ∷ accounts) t h =
    let (s₀, s₁, s₂, s₃) = totals_from-Sums accounts (add_account t a) (add_account-Fits t a) in
    (
      s₀
          ∙ u64-add t.bytes_received a.bytes_received
              (sum (λ (a : Account). a.bytes_received) accounts),
      s₁
          ∙ u64-add t.bytes_expected a.bytes_expected
              (sum (λ (a : Account). a.bytes_expected) accounts),
      s₂ ∙ u64-add t.conns_total a.conns_total (sum (λ (a : Account). a.conns_total) accounts),
      s₃ ∙ u64-add t.conns_clean a.conns_clean (sum (λ (a : Account). a.conns_clean) accounts),
    )

-- The totals are the sums, modulo 2 ^ 64.
pub totals-Sums : (accounts : List Account) → Sums no_account accounts (totals accounts)
totals-Sums accounts =
    totals_from-Sums accounts no_account (omega arith, omega arith, omega arith, omega arith)

-- A worker that opened at most `conns` connections, of which some closed cleanly.
abbrev pub IsWithin : ℕ → Account → Type 0
IsWithin conns a = (a.conns_clean ≤ a.conns_total) × (a.conns_total ≤ conns)

-- A worker that opened `conns` connections, which all closed cleanly.
abbrev pub IsFull : ℕ → Account → Type 0
IsFull conns a = (a.conns_clean ≡ conns) × (a.conns_total ≡ conns)

abbrev pub AllAccounts : (Account → Type 0) → List Account → Type 0
AllAccounts P [] = Unit {0}
AllAccounts P (a ∷ accounts) = P a × AllAccounts P accounts

suc-times : (n conns : ℕ) → suc n * conns ≡ conns + n * conns
suc-times n conns = grind arith

pub sum-le :
    (conns : ℕ) (accounts : List Account)
    → AllAccounts (IsWithin conns) accounts
    → (sum (λ (a : Account). a.conns_clean) accounts
        ≤ sum (λ (a : Account). a.conns_total) accounts)
      × (sum (λ (a : Account). a.conns_total) accounts ≤ length accounts * conns)
sum-le conns [] w = (omega arith, omega arith)
sum-le conns (a ∷ accounts) (w, ws) =
    let (low, high) = sum-le conns accounts ws in
    (omega (arith, w, low), omega (arith, w, high, suc-times (length accounts) conns))

-- The sum of the clean connections reaches its bound only where every worker does.
pub sum-IsFull :
    (conns : ℕ) (accounts : List Account)
    → AllAccounts (IsWithin conns) accounts
    → sum (λ (a : Account). a.conns_clean) accounts ≡ length accounts * conns
    → AllAccounts (IsFull conns) accounts
sum-IsFull conns [] w e = tt
sum-IsFull conns (a ∷ accounts) (w, ws) e =
    let (low, high) = sum-le conns accounts ws in
    let times = suc-times (length accounts) conns in
    (
      (omega (arith, w, low, high, e, times), omega (arith, w, low, high, e, times)),
      sum-IsFull conns accounts ws (omega (arith, w, low, high, e, times)),
    )

pub IsFull-sum :
    (conns : ℕ) (accounts : List Account)
    → AllAccounts (IsFull conns) accounts
    → (sum (λ (a : Account). a.conns_clean) accounts ≡ length accounts * conns)
      × (sum (λ (a : Account). a.conns_total) accounts ≡ length accounts * conns)
IsFull-sum conns [] f = (omega arith, omega arith)
IsFull-sum conns (a ∷ accounts) (f, fs) =
    let (clean, total) = IsFull-sum conns accounts fs in
    let times = suc-times (length accounts) conns in
    (omega (arith, f, clean, times), omega (arith, f, total, times))
