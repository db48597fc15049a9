-- ===== src/Worker/Shared.antt =====
-- The workers at once: each runs the loop of `worker_thread` over its own connections (lines
-- 1333-1352), and all of them add to the same counters. A move is the step of one connection of one
-- worker, or the test of `all_done` at the end of a round; a step adds to each counter at most by
-- single atomic additions.
use miniosv_apps.Prelude.{
  ℕ, ◌+◌, ◌≡◌, Bool, true, ◌&&◌, Option, none, some, List, [], ◌∷◌, ◌++◌, if◌then◌else◌,
}
use miniosv_apps.Conn.{Answers, Conn, Counters, conn_step}

-- Where a worker stands: in a round, with the connections that it has stepped, `all_done`, the number
-- and the list of those that it has not, and the answers of this round and of those to come; or
-- behind its loop.
pub data Turn : Type 0 where
  working :
      (before : List Conn) (all_done : Bool) (i : ℕ) (after : List Conn)
      (rounds : List (ℕ → Answers))
      → Turn
  ended : (cs : List Conn) → Turn

-- A worker before its loop.
abbrev pub begin : List (ℕ → Answers) → List Conn → Turn
begin rounds cs = working [] true 0 cs rounds

-- `if all_done { break; }`
abbrev pub round_end : Bool → List Conn → List (ℕ → Answers) → Turn
round_end all_done cs more = if all_done then ended cs else begin more cs

-- The next move of a worker; `none` where it has ended, or no more answers are played.
unfoldable pub turn : Bool → Bool → Turn → Counters → Option (Turn × Counters)
turn plain stub (ended cs) g = none
turn plain stub (working before d i after []) g = none
turn plain stub (working before d i [] (round ∷ more)) g = some (round_end d before more, g)
turn plain stub (working before d i (c ∷ cs) (round ∷ more)) g =
    let ((c', g'), (_, e)) = conn_step plain stub (round i) c g in
    some (working (before ++ (c' ∷ [])) (d && e) (i + 1) cs (round ∷ more), g')

-- One of the workers moves.
pub data Moves (plain stub : Bool) : List Turn → Counters → List Turn → Counters → Type 0 where
  this :
      {t t' : Turn} {ts : List Turn} {g g' : Counters}
      → turn plain stub t g ≡ some (t', g')
      → Moves plain stub (t ∷ ts) g (t' ∷ ts) g'
  other :
      {t : Turn} {ts ts' : List Turn} {g g' : Counters}
      → Moves plain stub ts g ts' g'
      → Moves plain stub (t ∷ ts) g (t ∷ ts') g'

-- What workers can come to in a number of moves, in whatever order they make them.
pub data Reach (plain stub : Bool) (ts₀ : List Turn) (g₀ : Counters)
    : ℕ → List Turn → Counters → Type 0 where
  at_start : Reach plain stub ts₀ g₀ 0 ts₀ g₀
  later :
      {n : ℕ} {ts ts' : List Turn} {g g' : Counters}
      → Reach plain stub ts₀ g₀ n ts g
      → Moves plain stub ts g ts' g'
      → Reach plain stub ts₀ g₀ (n + 1) ts' g'
