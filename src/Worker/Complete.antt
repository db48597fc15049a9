-- ===== src/Worker/Complete.antt =====
-- What a run that is reported complete says of every connection of every worker.
use miniosv_apps.Prelude.{
  ℕ, ◌+◌, ◌*◌, ◌^◌, ◌≤◌, ◌<◌, ◌≡◌, refl, ap, ◌∙◌, ◌↔◌, arith, Bool, true, false, List, [], ◌∷◌, map,
  if◌then◌else◌, length, u64,
}
use miniosv_apps.Report.{Account, no_account, add_outcome, account_from, verdict}
use miniosv_apps.Report.Sums.{sum, IsWithin, IsFull, AllAccounts}
use miniosv_apps.Report.Complete.{is_complete, BytesMatch, BytesMatch-iff, verdict-is_complete}
use miniosv_apps.Conn.{Conn}
use miniosv_apps.Conn.Settled.{one_if}
use miniosv_apps.Worker.{outcome, stored}
use miniosv_apps.Worker.Rounds.{AllConns}

abbrev pub IsClosed : Conn → Type 0
IsClosed c = c.closed_cleanly ≡ true

abbrev clean_count : List Conn → ℕ
clean_count [] = 0
clean_count (c ∷ cs) = one_if c.closed_cleanly + clean_count cs

account_from-counts :
    (cs : List Conn) (a : Account)
    → let a' = account_from a (map outcome cs) in
      (a'.conns_total ≡ a.conns_total + length cs)
      × (a'.conns_clean ≡ a.conns_clean + clean_count cs)
unfolding account_from add_outcome
account_from-counts [] a = (omega arith, omega arith)
account_from-counts (c ∷ cs) a =
    let (total, clean) = account_from-counts cs (add_outcome a (outcome c)) in
    (omega (arith, total), clean ∙ one_more c.closed_cleanly a.conns_clean (clean_count cs))
  where
    one_more : (b : Bool) (m n : ℕ) → (if b then m + 1 else m) + n ≡ m + (one_if b + n)
    one_more true m n = omega arith
    one_more false m n = omega arith

clean_count-le : (cs : List Conn) → clean_count cs ≤ length cs
clean_count-le [] = omega arith
clean_count-le (c ∷ cs) = ground (arith, clean_count-le cs)

clean_count-IsClosed : (cs : List Conn) → clean_count cs ≡ length cs → AllConns IsClosed cs
clean_count-IsClosed [] h = tt
clean_count-IsClosed (c ∷ cs) h =
    let few = clean_count-le cs in
    (ground (arith, few), clean_count-IsClosed cs (ground (arith, few)))

IsClosed-clean_count : (cs : List Conn) → AllConns IsClosed cs → clean_count cs ≡ length cs
IsClosed-clean_count [] h = refl
IsClosed-clean_count (c ∷ cs) (h, hs) = let e = IsClosed-clean_count cs hs in ground arith

stored-counts :
    (cs : List Conn)
    → ((stored cs).conns_total ≡ length cs) × ((stored cs).conns_clean ≡ clean_count cs)
stored-counts cs =
    let (total, clean) = account_from-counts cs no_account in
    (omega (arith, total), omega (arith, clean))

-- The connections of all workers, a list for each.
abbrev pub AllWorkers : (List Conn → Type 0) → List (List Conn) → Type 0
AllWorkers P [] = Unit {0}
AllWorkers P (cs ∷ rest) = P cs × AllWorkers P rest

abbrev pub FewConns : ℕ → List Conn → Type 0
FewConns conns cs = length cs ≤ conns

-- A worker that opened all of its connections, each closed cleanly.
abbrev pub AllClosed : ℕ → List Conn → Type 0
AllClosed conns cs = (length cs ≡ conns) × AllConns IsClosed cs

FewConns-IsWithin :
    (conns : ℕ) (workers : List (List Conn))
    → AllWorkers (FewConns conns) workers
    → AllAccounts (IsWithin conns) (map stored workers)
FewConns-IsWithin conns [] h = tt
FewConns-IsWithin conns (cs ∷ rest) (h, hs) =
    let (total, clean) = stored-counts cs in
    (
      (omega (arith, total, clean, clean_count-le cs), omega (arith, total, h)),
      FewConns-IsWithin conns rest hs,
    )

IsFull-AllClosed :
    (conns : ℕ) (workers : List (List Conn))
    → AllAccounts (IsFull conns) (map stored workers) ↔ AllWorkers (AllClosed conns) workers
IsFull-AllClosed conns [] = (λ h. tt, λ h. tt)
IsFull-AllClosed conns (cs ∷ rest) =
    let (total, clean) = stored-counts cs in
    let (to, from) = IsFull-AllClosed conns rest in
    (
      λ (h, hs). (
        (omega (arith, total, h), clean_count-IsClosed cs (omega (arith, total, clean, h))),
        to hs,
      ),
      λ (h, hs). (
        (omega (arith, clean, h, IsClosed-clean_count cs h.1), omega (arith, total, h)),
        from hs,
      ),
    )

-- The sum of a number over the connections of all workers.
abbrev pub sum_conns : (Conn → ℕ) → List Conn → ℕ
sum_conns f [] = 0
sum_conns f (c ∷ cs) = f c + sum_conns f cs

abbrev pub sum_workers : (Conn → ℕ) → List (List Conn) → ℕ
sum_workers f [] = 0
sum_workers f (cs ∷ rest) = sum_conns f cs + sum_workers f rest

abbrev pub bytes_of : Conn → ℕ
bytes_of c = c.tally.bytes

abbrev pub expected_of : Conn → ℕ
expected_of c = c.expected

account_from-bytes :
    (cs : List Conn) (a : Account)
    → a.bytes_received < 2 ^ 64
    → a.bytes_expected < 2 ^ 64
    → let a' = account_from a (map outcome cs) in
      (a'.bytes_received ≡ u64 (a.bytes_received + sum_conns bytes_of cs))
      × (a'.bytes_expected ≡ u64 (a.bytes_expected + sum_conns expected_of cs))
unfolding account_from add_outcome
account_from-bytes [] a h k = (omega arith, omega arith)
account_from-bytes (c ∷ cs) a h k =
    let (received, expected) =
      account_from-bytes cs (add_outcome a (outcome c)) (omega arith) (omega arith) in
    (omega (arith, received), omega (arith, expected))

stored-bytes :
    (workers : List (List Conn))
    → (u64 (sum (λ (a : Account). a.bytes_received) (map stored workers))
        ≡ u64 (sum_workers bytes_of workers))
      × (u64 (sum (λ (a : Account). a.bytes_expected) (map stored workers))
          ≡ u64 (sum_workers expected_of workers))
stored-bytes [] = (refl, refl)
stored-bytes (cs ∷ rest) =
    let (received, expected) = account_from-bytes cs no_account (omega arith) (omega arith) in
    let (more_received, more_expected) = stored-bytes rest in
    (omega (arith, received, more_received), omega (arith, expected, more_expected))

length-map : (workers : List (List Conn)) → length (map stored workers) ≡ length workers
length-map [] = refl
length-map (cs ∷ rest) = omega (arith, length-map rest)

-- Where no worker has more than `conns` connections and the connections planned are a `u64`, a run is
-- reported complete exactly when there were connections to open, every worker has all of its
-- `conns` and each of them closed cleanly, the bytes that all connections have counted match
-- the bytes that all of them expect (their sums, modulo 2 ^ 64; at least as many under the stub),
-- and no packet came to a wrong queue.
pub verdict-AllClosed :
    (stub : Bool) (conns misrouted : ℕ) (workers : List (List Conn))
    → AllWorkers (FewConns conns) workers
    → length workers * conns < 2 ^ 64
    → (is_complete (verdict stub conns misrouted (map stored workers)) ≡ true) ↔ (
        AllWorkers (AllClosed conns) workers
        × (0 < length workers * conns)
        × BytesMatch stub
            (u64 (sum_workers bytes_of workers))
            (u64 (sum_workers expected_of workers))
        × (misrouted ≡ 0))
verdict-AllClosed stub conns misrouted workers few small =
    let n = length-map workers in
    let times = ap (λ (t : ℕ). t * conns) n in
    let (to, from) =
      verdict-is_complete stub conns misrouted (map stored workers)
        (FewConns-IsWithin conns workers few) (omega (arith, times, small)) in
    let (received, expected) = stored-bytes workers in
    let (matching, unmatching) = BytesMatch-iff stub received expected in
    let (full_to, full_from) = IsFull-AllClosed conns workers in
    (
      λ h.
          let (full, some_conns, bytes, lost) = to h in
          (full_to full, omega (arith, times, some_conns), matching bytes, lost),
      λ (all, some_conns, bytes, lost).
          from (full_from all, omega (arith, times, some_conns), unmatching bytes, lost),
    )
