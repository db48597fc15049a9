-- ===== src/Report/Complete.antt =====
-- When the run is reported complete.
use mathlib.Core.Bool.{false≢true}
use miniosv_apps.Prelude.{
  ℕ, ◌*◌, ◌^◌, ◌≤◌, ◌<◌, ◌≡◌, refl, sym, subst, u64, ◌∙◌, ◌↔◌, inl, inr, Bool, true, false, ◌&&◌,
  List, [], ◌∷◌, ◌++◌, arith, Bool-cases, ◌==◌, ==_iff, if◌then◌else◌, length,
}
use miniosv_apps.Report.{
  Account, totals, planned_conns, ranges_ok, covered, bytes_ok, Verdict, complete_blocks,
  complete_bytes, incomplete, verdict,
}
use miniosv_apps.Report.Sums.{
  sum, totals-Sums, IsWithin, IsFull, AllAccounts, sum-le, sum-IsFull, IsFull-sum,
}

-- The verdict is one of the two lines that begin with COMPLETE.
abbrev pub is_complete : Verdict → Bool
is_complete (complete_blocks n) = true
is_complete (complete_bytes n) = true
is_complete (incomplete a b c d) = false

-- As many bytes have come as were asked for; under the stub at least as many.
abbrev pub BytesMatch : Bool → ℕ → ℕ → Type 0
BytesMatch true received expected = expected ≤ received
BytesMatch false received expected = received ≡ expected

bytes_ok-BytesMatch :
    (stub : Bool) (t : Account)
    → (bytes_ok stub t ≡ true) ↔ BytesMatch stub t.bytes_received t.bytes_expected
unfolding bytes_ok
bytes_ok-BytesMatch true t = ground arith
bytes_ok-BytesMatch false t = ==_iff t.bytes_received t.bytes_expected

-- The test of `verdict`, as propositions.
test_iff :
    (stub : Bool) (t : Account) (planned misrouted : ℕ)
    → ((ranges_ok t && covered t planned && bytes_ok stub t && (misrouted == 0)) ≡ true) ↔ (
        (t.conns_clean ≡ t.conns_total)
        × (0 < t.conns_total)
        × (t.conns_total ≡ planned)
        × BytesMatch stub t.bytes_received t.bytes_expected
        × (misrouted ≡ 0))
unfolding ranges_ok covered
test_iff stub t planned misrouted =
    let (to, from) = bytes_ok-BytesMatch stub t in
    let bytes = bytes_ok stub t in
    elim (Bool-cases bytes) [
      | inl ok ↦ (
        λ h. (ground arith, ground arith, ground arith, to ok, ground arith),
        λ (a, b, c, d, e). ground (arith, ok),
      )
      | inr bad ↦
          (λ h. absurd (ground arith), λ (a, b, c, d, e). absurd (false≢true (sym bad ∙ from d)))
    ]

is_complete-verdict :
    (stub : Bool) (conns misrouted : ℕ) (accounts : List Account)
    → let t = totals accounts in
      is_complete (verdict stub conns misrouted accounts) ≡ (
        ranges_ok t
        && covered t (planned_conns (length accounts) conns)
        && bytes_ok stub t
        && (misrouted == 0))
unfolding verdict
is_complete-verdict stub conns misrouted accounts =
    let t = totals accounts in
    let test =
      ranges_ok t
      && covered t (planned_conns (length accounts) conns)
      && bytes_ok stub t
      && (misrouted == 0) in
    choose test stub _ _ _ _ _ _
  where
    choose :
        (test stub : Bool) (n m a b c : ℕ) (over : Bool)
        → is_complete (
            if test
            then (if stub then complete_blocks n else complete_bytes m)
            else incomplete a b c over)
          ≡ test
    choose true true n m a b c over = refl
    choose true false n m a b c over = refl
    choose false stub n m a b c over = refl

-- The totals of the connections, where none of the counts is out of bounds.
totals-within :
    (conns : ℕ) (accounts : List Account)
    → AllAccounts (IsWithin conns) accounts
    → length accounts * conns < 2 ^ 64
    → ((totals accounts).conns_total ≡ sum (λ (a : Account). a.conns_total) accounts)
      × ((totals accounts).conns_clean ≡ sum (λ (a : Account). a.conns_clean) accounts)
totals-within conns accounts within small =
    let (_, _, total, clean) = totals-Sums accounts in
    let (low, high) = sum-le conns accounts within in
    (omega (arith, total, low, high), omega (arith, clean, low, high))

pub BytesMatch-iff :
    (stub : Bool) {r r' e e' : ℕ} → r ≡ r' → e ≡ e' → BytesMatch stub r e ↔ BytesMatch stub r' e'
BytesMatch-iff stub {r} {r'} {e} {e'} p q = (
  λ h. subst (λ x. BytesMatch stub r' x) q (subst (λ x. BytesMatch stub x e) p h),
  λ h. subst (λ x. BytesMatch stub r x) (sym q) (subst (λ x. BytesMatch stub x e') (sym p) h),
)

-- The totals of the bytes are the sums over all accounts, modulo 2 ^ 64.
BytesMatch-totals :
    (stub : Bool) (accounts : List Account)
    → BytesMatch stub (totals accounts).bytes_received (totals accounts).bytes_expected
      ↔ BytesMatch stub
          (u64 (sum (λ (a : Account). a.bytes_received) accounts))
          (u64 (sum (λ (a : Account). a.bytes_expected) accounts))
BytesMatch-totals stub accounts =
    let (received, expected, _, _) = totals-Sums accounts in
    let x = sum (λ (a : Account). a.bytes_received) accounts in
    let y = sum (λ (a : Account). a.bytes_expected) accounts in
    let r : (totals accounts).bytes_received ≡ u64 x = omega (arith, received) in
    let e : (totals accounts).bytes_expected ≡ u64 y = omega (arith, expected) in
    BytesMatch-iff stub r e

planned_lem : (n conns : ℕ) → n * conns < 2 ^ 64 → planned_conns n conns ≡ n * conns
unfolding planned_conns
planned_lem n conns h = omega arith

-- Where no worker reports more than `conns` connections or more clean ones than connections, and
-- the connections planned are a `u64`, the run is reported complete exactly when there were
-- connections to open, every worker opened all of its `conns` and closed all of them cleanly, the
-- bytes received by all match the bytes expected by all (their sums, modulo 2 ^ 64; at least as many
-- under the stub), and no packet came to a wrong queue.
pub verdict-is_complete :
    (stub : Bool) (conns misrouted : ℕ) (accounts : List Account)
    → AllAccounts (IsWithin conns) accounts
    → length accounts * conns < 2 ^ 64
    → (is_complete (verdict stub conns misrouted accounts) ≡ true) ↔ (
        AllAccounts (IsFull conns) accounts
        × (0 < length accounts * conns)
        × BytesMatch stub
            (u64 (sum (λ (a : Account). a.bytes_received) accounts))
            (u64 (sum (λ (a : Account). a.bytes_expected) accounts))
        × (misrouted ≡ 0))
verdict-is_complete stub conns misrouted accounts within small =
    let planned = planned_lem (length accounts) conns small in
    let (total, clean) = totals-within conns accounts within small in
    let same = is_complete-verdict stub conns misrouted accounts in
    let (matching, unmatching) = BytesMatch-totals stub accounts in
    let (to, from) =
      test_iff stub (totals accounts) (planned_conns (length accounts) conns) misrouted in
    (
      λ h.
          let (closed, some_conns, all_opened, bytes, none_lost) = to (sym same ∙ h) in
          (
            sum-IsFull conns accounts within (omega (arith, closed, all_opened, planned, clean)),
            omega (arith, some_conns, all_opened, planned),
            matching bytes,
            none_lost,
          ),
      λ (full, some_conns, bytes, none_lost).
          let (sum_clean, sum_total) = IsFull-sum conns accounts full in
          same
          ∙ from (
            omega (arith, total, clean, sum_clean, sum_total),
            omega (arith, total, sum_total),
            omega (arith, total, sum_total, planned),
            unmatching bytes,
            none_lost,
          ),
    )

-- Under the same bounds on the counts, a run in which some worker opened fewer than `conns`
-- connections is not reported complete, whatever the others did.
pub verdict_abandoned :
    (stub : Bool) (conns misrouted : ℕ) (a : Account) (before after : List Account)
    → AllAccounts (IsWithin conns) (before ++ (a ∷ after))
    → length (before ++ (a ∷ after)) * conns < 2 ^ 64
    → a.conns_total < conns
    → is_complete (verdict stub conns misrouted (before ++ (a ∷ after))) ≡ false
verdict_abandoned stub conns misrouted a before after within small short =
    let accounts = before ++ (a ∷ after) in
    elim (Bool-cases (is_complete (verdict stub conns misrouted accounts))) [
      | inl reported ↦
          let full =
            ((verdict-is_complete stub conns misrouted accounts within small).0 reported).0 in
          absurd (omega (arith, at_middle conns a before after full, short))
      | inr not_reported ↦ not_reported
    ]
  where
    at_middle :
        (conns : ℕ) (a : Account) (before after : List Account)
        → AllAccounts (IsFull conns) (before ++ (a ∷ after))
        → a.conns_total ≡ conns
    at_middle conns a [] after (f, fs) = f.1
    at_middle conns a (b ∷ before) after (f, fs) = at_middle conns a before after fs
