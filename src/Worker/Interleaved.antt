-- ===== src/Worker/Interleaved.antt =====
-- CONNS_ESTABLISHED and CONNS_FAILED under workers that share them, in any order of their moves.
use miniosv_apps.Prelude.{
  ℕ, ◌+◌, ◌^◌, ◌<◌, ◌≤◌, ◌≡◌, refl, sym, ap, subst, ◌∙◌, arith, Bool, true, false, Option, none,
  some, List, [], ◌∷◌, ◌++◌, append-nil, append_assoc, length,
}
use miniosv_apps.Conn.{Conn, Counters, conn_step}
use miniosv_apps.Conn.Settled.{one_if, conn_step-CountedOnce}
use miniosv_apps.Worker.Rounds.{settled_count, settled_count-le}
use miniosv_apps.Worker.Shared.{
  Turn, working, ended, turn, Moves, this, other, Reach, at_start, later,
}

-- The connections of a worker, in their order.
abbrev pub conns_in : Turn → List Conn
conns_in (working before d i after rounds) = before ++ after
conns_in (ended cs) = cs

abbrev pub settled_total : List Turn → ℕ
settled_total [] = 0
settled_total (t ∷ ts) = settled_count (conns_in t) + settled_total ts

abbrev pub conns_total : List Turn → ℕ
conns_total [] = 0
conns_total (t ∷ ts) = length (conns_in t) + conns_total ts

-- The counters have room for the connections that are not settled yet.
abbrev pub HasRoom : List Turn → Counters → Type 0
HasRoom ts g = g.conns_established + g.conns_failed + conns_total ts + 1 < 2 ^ 64 + settled_total ts

settled_total-le : (ts : List Turn) → settled_total ts ≤ conns_total ts
settled_total-le [] = omega arith
settled_total-le (t ∷ ts) = omega (arith, settled_total-le ts, settled_count-le (conns_in t))

-- What a connection adds to the counters it adds to the settled connections, wherever it stands.
settled_count-middle :
    (before : List Conn) (c : Conn) (cs : List Conn)
    → (settled_count (before ++ (c ∷ cs)) ≡ one_if c.settled + settled_count (before ++ cs))
      × (length (before ++ (c ∷ cs)) ≡ 1 + length (before ++ cs))
settled_count-middle [] c cs = (refl, omega arith)
settled_count-middle (b ∷ before) c cs =
    let (e, f) = settled_count-middle before c cs in (omega (arith, e), omega (arith, f))

abbrev Counts : Turn → Counters → Turn → Counters → Type 0
Counts t g t' g' =
    (g'.conns_established + g'.conns_failed + settled_count (conns_in t)
      ≡ g.conns_established + g.conns_failed + settled_count (conns_in t'))
    × (length (conns_in t') ≡ length (conns_in t))

abbrev CountsMove : Turn → Counters → Option (Turn × Counters) → Type 0
CountsMove t g none = Unit {0}
CountsMove t g (some (t', g')) = Counts t g t' g'

turn-Counts :
    (plain stub : Bool) (t : Turn) (g : Counters)
    → g.conns_established + 1 < 2 ^ 64
    → g.conns_failed + 1 < 2 ^ 64
    → CountsMove t g (turn plain stub t g)
unfolding turn
turn-Counts plain stub (ended cs) g h k = tt
turn-Counts plain stub (working before d i after []) g h k = tt
turn-Counts plain stub (working before true i [] (round ∷ more)) g h k =
    let e = ap settled_count (append-nil before) in
    (omega (arith, e), ap length (sym (append-nil before)))
turn-Counts plain stub (working before false i [] (round ∷ more)) g h k =
    let e = ap settled_count (append-nil before) in
    (omega (arith, e), ap length (sym (append-nil before)))
turn-Counts plain stub (working before d i (c ∷ cs) (round ∷ more)) g h k =
    let (c', g') = (conn_step plain stub (round i) c g).0 in
    let one = (conn_step-CountedOnce plain stub (round i) c g h k).0 in
    let (e, f) = settled_count-middle before c cs in
    let (e', f') = settled_count-middle before c' cs in
    let same = append_assoc before (c' ∷ []) cs in
    (omega (arith, one, e, e', ap settled_count same), ap length same ∙ f' ∙ sym f)

-- The counters have grown by as many connections as are settled now and were not before.
abbrev pub CountsShared : List Turn → Counters → List Turn → Counters → Type 0
CountsShared ts₀ g₀ ts g =
    (g.conns_established + g.conns_failed + settled_total ts₀
      ≡ g₀.conns_established + g₀.conns_failed + settled_total ts)
    × (conns_total ts ≡ conns_total ts₀)

Moves-CountsShared :
    {plain stub : Bool} {ts ts' : List Turn} {g g' : Counters}
    → Moves plain stub ts g ts' g'
    → g.conns_established + 1 < 2 ^ 64
    → g.conns_failed + 1 < 2 ^ 64
    → CountsShared ts g ts' g'
Moves-CountsShared {plain = plain} {stub = stub} (this {t = t} {g = g} e) h k =
    let (a, b) = subst (CountsMove t g) e (turn-Counts plain stub t g h k) in
    (omega (arith, a), omega (arith, b))
Moves-CountsShared (other m) h k =
    let (a, b) = Moves-CountsShared m h k in (omega (arith, a), omega (arith, b))

-- Where the counters have room: in every state that workers on shared counters can reach, in whatever
-- order they move, CONNS_ESTABLISHED and CONNS_FAILED together have grown by exactly the number of
-- connections that the workers have settled, and no connection is lost.
pub reach-CountsShared :
    (plain stub : Bool) (ts₀ : List Turn) (g₀ : Counters) (n : ℕ) (ts : List Turn) (g : Counters)
    → HasRoom ts₀ g₀
    → Reach plain stub ts₀ g₀ n ts g
    → CountsShared ts₀ g₀ ts g
reach-CountsShared plain stub ts₀ g₀ n ts g room at_start = (refl, refl)
reach-CountsShared plain stub ts₀ g₀ n ts g room (later {n = n₁} {ts = ts₁} {g = g₁} r m) =
    let (e, same) = reach-CountsShared plain stub ts₀ g₀ n₁ ts₁ g₁ room r in
    let few = settled_total-le ts₁ in
    let (e', same') =
      Moves-CountsShared m (omega (arith, e, same, few, room))
        (omega (arith, e, same, few, room)) in
    (omega (arith, e, e'), same' ∙ same)
