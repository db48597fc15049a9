-- ===== src/Worker/Rest.antt =====
-- How many moves workers on shared counters can make, and what there is when none can move (lines
-- 1359-1372).
use miniosv_apps.Prelude.{
  ℕ, ◌+◌, ◌≤◌, ◌≡◌, refl, ◌⊎◌, inl, inr, ap, ap₂, subst, ◌∙◌, arith, Bool, true, false, Option,
  none, some, List, [], ◌∷◌, ◌++◌, append-nil, length,
}
use miniosv_apps.Conn.{Answers, Conn, Counters, conn_step}
use miniosv_apps.Worker.{conns_of, join}
use miniosv_apps.Worker.Alone.{alone, AsAlone, Reach-AsAlone}
use miniosv_apps.Worker.Shared.{
  Turn, working, ended, begin, turn, Moves, this, other, Reach, at_start, later,
}

-- The moves of whole rounds, with so many connections.
abbrev pub rounds_cost : ℕ → List (ℕ → Answers) → ℕ
rounds_cost n [] = 0
rounds_cost n (round ∷ more) = n + 1 + rounds_cost n more

-- How many moves a worker can make at most.
abbrev pub moves_left : Turn → ℕ
moves_left (ended cs) = 0
moves_left (working before d i after []) = 0
moves_left (working before d i after (round ∷ more)) =
    length after + 1 + rounds_cost (length (before ++ after)) more

abbrev pub moves_total : List Turn → ℕ
moves_total [] = 0
moves_total (t ∷ ts) = moves_left t + moves_total ts

moves_left-begin :
    (cs : List Conn) (rounds : List (ℕ → Answers))
    → moves_left (begin rounds cs) ≡ rounds_cost (length cs) rounds
moves_left-begin cs [] = refl
moves_left-begin cs (round ∷ more) = refl

abbrev Spends : Turn → Option (Turn × Counters) → Type 0
Spends t none = Unit {0}
Spends t (some (t', g')) = moves_left t' + 1 ≤ moves_left t

turn-Spends : (plain stub : Bool) (t : Turn) (g : Counters) → Spends t (turn plain stub t g)
unfolding turn
turn-Spends plain stub (ended cs) g = tt
turn-Spends plain stub (working before d i after []) g = tt
turn-Spends plain stub (working before true i [] (round ∷ more)) g = omega arith
turn-Spends plain stub (working before false i [] (round ∷ more)) g =
    let e = moves_left-begin before more in
    let f = ap (λ cs. rounds_cost (length cs) more) (append-nil before) in omega (arith, e, f)
turn-Spends plain stub (working before d i (c ∷ cs) (round ∷ more)) g =
    let c' = (conn_step plain stub (round i) c g).0.0 in
    let e = ap (λ n. rounds_cost n more) (length-middle before c c' cs) in omega (arith, e)
  where
    length-middle :
        (before : List Conn) (c c' : Conn) (cs : List Conn)
        → length ((before ++ (c' ∷ [])) ++ cs) ≡ length (before ++ (c ∷ cs))
    length-middle [] c c' cs = refl
    length-middle (b ∷ before) c c' cs = omega (arith, length-middle before c c' cs)

Moves-spends :
    {plain stub : Bool} {ts ts' : List Turn} {g g' : Counters}
    → Moves plain stub ts g ts' g'
    → moves_total ts' + 1 ≤ moves_total ts
Moves-spends {plain = plain} {stub = stub} (this {t = t} {g = g} e) =
    let less = subst (Spends t) e (turn-Spends plain stub t g) in omega (arith, less)
Moves-spends (other m) = omega (arith, Moves-spends m)

Reach-spends :
    {plain stub : Bool} {ts₀ : List Turn} {g₀ : Counters} {n : ℕ} {ts : List Turn} {g : Counters}
    → Reach plain stub ts₀ g₀ n ts g
    → n + moves_total ts ≤ moves_total ts₀
Reach-spends at_start = omega arith
Reach-spends (later r m) = omega (arith, Reach-spends r, Moves-spends m)

-- Some worker can move.
abbrev pub CanMove : Bool → Bool → List Turn → Counters → Type 0
CanMove plain stub ts g = (ts' : List Turn) × (g' : Counters) × Moves plain stub ts g ts' g'

abbrev pub ended_conns : Turn → Option (List Conn)
ended_conns (ended cs) = some cs
ended_conns (working before d i after rounds) = none

-- The connections of all workers, where every one of them has ended.
abbrev pub all_ended : List Turn → Option (List (List Conn))
all_ended [] = some []
all_ended (t ∷ ts) = join (ended_conns t) (all_ended ts)

-- The workers one after the other, each with the same counters.
abbrev pub one_by_one : Bool → Bool → Counters → List Turn → Option (List (List Conn))
one_by_one plain stub g [] = some []
one_by_one plain stub g (t ∷ ts) =
    join (conns_of (alone plain stub t g)) (one_by_one plain stub g ts)

turn-none :
    (plain stub : Bool) (t : Turn) (g h : Counters)
    → turn plain stub t g ≡ none
    → ended_conns t ≡ conns_of (alone plain stub t h)
unfolding turn
turn-none plain stub (ended cs) g h e = refl
turn-none plain stub (working before d i after []) g h e = refl
turn-none plain stub (working before d i [] (round ∷ more)) g h e = cc
turn-none plain stub (working before d i (c ∷ cs) (round ∷ more)) g h e = cc

-- Workers that go on as they would alone can move, or have all ended as one after the other.
move_or_rest :
    (plain stub : Bool) (g h : Counters) (ts₀ ts : List Turn)
    → AsAlone plain stub h ts₀ ts
    → CanMove plain stub ts g ⊎ (all_ended ts ≡ one_by_one plain stub h ts₀)
move_or_rest plain stub g h [] [] a = inr refl
move_or_rest plain stub g h [] (t ∷ ts) a = absurd a
move_or_rest plain stub g h (s ∷ ss) [] a = absurd a
move_or_rest plain stub g h (s ∷ ss) (t ∷ ts) (a, others) =
    by_turn (turn plain stub t g) refl (move_or_rest plain stub g h ss ts others)
  where
    by_turn :
        (o : Option (Turn × Counters))
        → turn plain stub t g ≡ o
        → CanMove plain stub ts g ⊎ (all_ended ts ≡ one_by_one plain stub h ss)
        → CanMove plain stub (t ∷ ts) g ⊎ (all_ended (t ∷ ts) ≡ one_by_one plain stub h (s ∷ ss))
    by_turn (some (t', g')) e rest = inl (t' ∷ ts, g', this e)
    by_turn none e (inl (ts', g', m)) = inl (t ∷ ts', g', other m)
    by_turn none e (inr same) = inr (ap₂ join (turn-none plain stub t g h e ∙ a) same)

-- What is true of workers behind so many moves.
abbrev pub Rests : Bool → Bool → List Turn → Counters → ℕ → List Turn → Counters → Type 0
Rests plain stub ts₀ h n ts g =
    (n + moves_total ts ≤ moves_total ts₀)
    × (CanMove plain stub ts g ⊎ (all_ended ts ≡ one_by_one plain stub h ts₀))

-- In whatever order workers on shared counters move, all of them together make no more moves than there
-- are connections and rounds for; and where none of them can move any more, they have ended exactly
-- as they end one after the other, each of them with whatever counters.
pub reach-Rests :
    (plain stub : Bool) (ts₀ : List Turn) (g₀ h : Counters) (n : ℕ) (ts : List Turn) (g : Counters)
    → Reach plain stub ts₀ g₀ n ts g
    → Rests plain stub ts₀ h n ts g
reach-Rests plain stub ts₀ g₀ h n ts g r =
    (Reach-spends r, move_or_rest plain stub g h ts₀ ts (Reach-AsAlone h r))
