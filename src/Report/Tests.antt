-- ===== src/Report/Tests.antt =====
-- Accounts of two workers with two connections each.
use miniosv_apps.Prelude.{ℕ, ◌*◌, ◌<◌, ◌≡◌, refl, ◌↔◌, true, false, [], ◌∷◌, arith, length}
use miniosv_apps.Report.{
  Outcome, Account, add_outcome, account_from, account, add_account, totals_from, planned_conns,
  ranges_ok, covered, bytes_ok, complete_blocks, complete_bytes, incomplete, verdict,
}
use miniosv_apps.Report.Sums.{IsFull, AllAccounts}
use miniosv_apps.Report.Complete.{is_complete, BytesMatch, verdict-is_complete}

abbrev clean : Outcome
clean = record { bytes_received = 64; expected = 64; closed_cleanly = true }

abbrev full : Account
full = record { bytes_received = 128; bytes_expected = 128; conns_total = 2; conns_clean = 2 }

abbrev short : Account
short = record { bytes_received = 64; bytes_expected = 64; conns_total = 1; conns_clean = 1 }

account-clean : account (clean ∷ clean ∷ []) ≡ full
unfolding account_from add_outcome
account-clean = refl

verdicts :
    (verdict false 2 0 (full ∷ full ∷ []) ≡ complete_bytes 256)
    × (verdict true 2 0 (full ∷ full ∷ []) ≡ complete_blocks 4)
    × (verdict false 2 0 (full ∷ short ∷ []) ≡ incomplete 0 1 0 false)
    × (verdict false 2 7 (full ∷ full ∷ []) ≡ incomplete 0 0 0 false)
unfolding verdict totals_from add_account planned_conns ranges_ok covered bytes_ok
verdicts = (refl, refl, refl, refl)

verdict-is_complete_example : (is_complete (verdict false 2 0 (full ∷ full ∷ [])) ≡ true) ↔ (
    AllAccounts (IsFull 2) (full ∷ full ∷ [])
    × (0 < length (full ∷ full ∷ []) * 2)
    × BytesMatch false 256 256
    × ◌≡◌ {A = ℕ} 0 0)
verdict-is_complete_example =
    verdict-is_complete false 2 0 (full ∷ full ∷ [])
      ((omega arith, omega arith), ((omega arith, omega arith), tt)) (omega arith)
