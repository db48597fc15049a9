-- ===== src/Report.antt =====
-- The accounts of a run in bench/smoltcp-s3/src/lib.rs: what a worker stores (lines 1374-1380), their
-- sums in `osv_app_main` (1548-1561), and the verdict that it prints (1570-1577, 1636-1655).
pub mod Sums
pub mod Complete
mod Tests
use miniosv_apps.Prelude.{
  ℕ, zero, suc, ◌+◌, ◌-◌, ◌*◌, ◌%◌, ◌^◌, Bool, true, false, ◌&&◌, List, [], ◌∷◌, ltb, leb, ◌==◌,
  if◌then◌else◌, length, u64,
}

-- A connection at the end of its worker.
pub record Outcome : Type 0 where
  pub bytes_received : ℕ
  pub expected : ℕ
  pub closed_cleanly : Bool

-- The counters of a `WorkerCtx`, and the totals of `osv_app_main`.
pub record Account : Type 0 where
  pub bytes_received : ℕ
  pub bytes_expected : ℕ
  pub conns_total : ℕ
  pub conns_clean : ℕ

abbrev pub no_account : Account
no_account = record { bytes_received = 0; bytes_expected = 0; conns_total = 0; conns_clean = 0 }

-- The sums and counts over a worker's connections, in the order of the vector.
unfoldable pub add_outcome : Account → Outcome → Account
add_outcome a c = record {
  bytes_received = u64 (a.bytes_received + c.bytes_received);
  bytes_expected = u64 (a.bytes_expected + c.expected);
  conns_total = a.conns_total + 1;
  conns_clean = if c.closed_cleanly then a.conns_clean + 1 else a.conns_clean;
}

unfoldable pub account_from : Account → List Outcome → Account
account_from a [] = a
account_from a (c ∷ cs) = account_from (add_outcome a c) cs

abbrev pub account : List Outcome → Account
account cs = account_from no_account cs

unfoldable pub add_account : Account → Account → Account
add_account t a = record {
  bytes_received = u64 (t.bytes_received + a.bytes_received);
  bytes_expected = u64 (t.bytes_expected + a.bytes_expected);
  conns_total = u64 (t.conns_total + a.conns_total);
  conns_clean = u64 (t.conns_clean + a.conns_clean);
}

unfoldable pub totals_from : Account → List Account → Account
totals_from t [] = t
totals_from t (a ∷ rest) = totals_from (add_account t a) rest

abbrev pub totals : List Account → Account
totals accounts = totals_from no_account accounts

-- `planned_conns`
unfoldable pub planned_conns : ℕ → ℕ → ℕ
planned_conns n_workers conns = u64 (n_workers * conns)

-- `ranges_ok`, `covered` and `bytes_ok`
unfoldable pub ranges_ok : Account → Bool
ranges_ok t = (t.conns_clean == t.conns_total) && ltb 0 t.conns_total

unfoldable pub covered : Account → ℕ → Bool
covered t planned = t.conns_total == planned

unfoldable pub bytes_ok : Bool → Account → Bool
bytes_ok stub t =
    if stub then leb t.bytes_expected t.bytes_received else t.bytes_received == t.bytes_expected

-- The line that ends the run, with the numbers in it.
pub data Verdict : Type 0 where
  complete_blocks : ℕ → Verdict
  complete_bytes : ℕ → Verdict
  incomplete : (abandoned unrequested bytes : ℕ) → (over : Bool) → Verdict

unfoldable pub verdict : Bool → ℕ → ℕ → List Account → Verdict
verdict stub conns misrouted accounts =
    let t = totals accounts in
    let planned = planned_conns (length accounts) conns in
    if ranges_ok t && covered t planned && bytes_ok stub t && (misrouted == 0)
    then (if stub then complete_blocks t.conns_total else complete_bytes t.bytes_received)
    else incomplete (u64 (t.conns_total + (2 ^ 64 - t.conns_clean))) (planned - t.conns_total)
        (if ltb t.bytes_expected t.bytes_received
          then t.bytes_received - t.bytes_expected
          else t.bytes_expected - t.bytes_received)
        (ltb t.bytes_expected t.bytes_received)
