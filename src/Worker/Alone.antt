-- ===== src/Worker/Alone.antt =====
-- Workers that share their counters, compared with each of them alone (lines 1359-1372).
use miniosv_apps.Prelude.{
  ℕ, ◌+◌, ◌≡◌, refl, sym, ap, ap₂, subst, ◌∙◌, arith, Bool, true, false, ◌&&◌, Option, none, some,
  List, [], ◌∷◌, ◌++◌, append-nil, append_assoc, if◌then◌else◌,
}
use miniosv_apps.Conn.{Answers, Conn, Counters, conn_step}
use miniosv_apps.Conn.Unread.{alike, seen, conn_step-unread}
use miniosv_apps.Worker.{step_all, run_rounds, conns_of}
use miniosv_apps.Worker.Shared.{
  Turn, working, ended, begin, turn, Moves, this, other, Reach, at_start, later,
}

step_all-unread :
    (plain stub : Bool) (round : ℕ → Answers) (i : ℕ) (cs : List Conn) (g g' : Counters)
    → seen (step_all plain stub round i cs g) ≡ seen (step_all plain stub round i cs g')
unfolding step_all
step_all-unread plain stub round i [] g g' = refl
step_all-unread plain stub round i (c ∷ cs) g g' =
    let ((c₁, g₁), (_, d₁)) = conn_step plain stub (round i) c g in
    let ((c₂, g₂), (_, d₂)) = conn_step plain stub (round i) c g' in
    ap (λ r. let s = step_all plain stub round (i + 1) cs g₁ in (r.0 ∷ s.0.0, r.1.1 && s.1))
      (conn_step-unread plain stub (round i) c g g')
    ∙ ap (λ s. (c₂ ∷ s.0, d₂ && s.1)) (step_all-unread plain stub round (i + 1) cs g₁ g₂)

pub run_rounds-unread :
    (plain stub : Bool) (rounds : List (ℕ → Answers)) (cs : List Conn) (g g' : Counters)
    → conns_of (run_rounds plain stub rounds cs g) ≡ conns_of (run_rounds plain stub rounds cs g')
unfolding run_rounds
run_rounds-unread plain stub [] cs g g' = refl
run_rounds-unread plain stub (round ∷ more) cs g g' =
    let ((cs₁, g₁), _) = step_all plain stub round 0 cs g in
    let ((cs₂, g₂), d₂) = step_all plain stub round 0 cs g' in
    ap (λ s. conns_of (if s.1 then some (s.0, g₁) else run_rounds plain stub more s.0 g₁))
      (step_all-unread plain stub round 0 cs g g')
    ∙ alike conns_of d₂ _ _ _ _ refl (run_rounds-unread plain stub more cs₂ g₁ g₂)

-- How a worker goes on from where it stands, if the others stand still.
abbrev pub alone : Bool → Bool → Turn → Counters → Option (List Conn × Counters)
alone plain stub (ended cs) g = some (cs, g)
alone plain stub (working before d i after []) g = none
alone plain stub (working before d i after (round ∷ more)) g =
    let ((after', g'), d') = step_all plain stub round i after g in
    let rest = run_rounds plain stub more (before ++ after') g' in
    if d && d' then some (before ++ after', g') else rest

alone-unread :
    (plain stub : Bool) (t : Turn) (g g' : Counters)
    → conns_of (alone plain stub t g) ≡ conns_of (alone plain stub t g')
alone-unread plain stub (ended cs) g g' = refl
alone-unread plain stub (working before d i after []) g g' = refl
alone-unread plain stub (working before d i after (round ∷ more)) g g' =
    let ((cs₁, g₁), _) = step_all plain stub round i after g in
    let ((cs₂, g₂), d₂) = step_all plain stub round i after g' in
    ap
      (λ s. conns_of (
        if d && s.1
        then some (before ++ s.0, g₁)
        else run_rounds plain stub more (before ++ s.0) g₁))
      (step_all-unread plain stub round i after g g')
    ∙ alike conns_of (d && d₂) _ _ _ _ refl
        (run_rounds-unread plain stub more (before ++ cs₂) g₁ g₂)

pub alone-begin :
    (plain stub : Bool) (cs : List Conn) (rounds : List (ℕ → Answers)) (g : Counters)
    → alone plain stub (begin rounds cs) g ≡ run_rounds plain stub rounds cs g
unfolding run_rounds
alone-begin plain stub cs [] g = refl
alone-begin plain stub cs (round ∷ more) g = refl

-- A move is a part of what the worker would do alone.
abbrev GoesOn : Bool → Bool → Turn → Counters → Option (Turn × Counters) → Type 0
GoesOn plain stub t g none = Unit {0}
GoesOn plain stub t g (some (t', g')) = alone plain stub t' g' ≡ alone plain stub t g

and_assoc : (a b c : Bool) → ((a && b) && c) ≡ (a && (b && c))
and_assoc a b c = ground arith

turn-GoesOn :
    (plain stub : Bool) (t : Turn) (g : Counters) → GoesOn plain stub t g (turn plain stub t g)
unfolding turn step_all
turn-GoesOn plain stub (ended cs) g = tt
turn-GoesOn plain stub (working before d i after []) g = tt
turn-GoesOn plain stub (working before true i [] (round ∷ more)) g =
    ap (λ cs. some (cs, g)) (sym (append-nil before))
turn-GoesOn plain stub (working before false i [] (round ∷ more)) g =
    alone-begin plain stub before more g
    ∙ ap (λ cs. run_rounds plain stub more cs g) (sym (append-nil before))
turn-GoesOn plain stub (working before d i (c ∷ cs) (round ∷ more)) g =
    let ((c', g₁), (_, e)) = conn_step plain stub (round i) c g in
    let ((cs', g₂), e') = step_all plain stub round (i + 1) cs g₁ in
    ap₂ (λ b xs. if b then some (xs, g₂) else run_rounds plain stub more xs g₂) (and_assoc d e e')
      (append_assoc before (c' ∷ []) cs')

-- Each worker goes on to end with the connections that it would have ended with alone.
abbrev pub AsAlone : Bool → Bool → Counters → List Turn → List Turn → Type 0
AsAlone plain stub g [] [] = Unit {0}
AsAlone plain stub g (s ∷ ss) (t ∷ ts) =
    (conns_of (alone plain stub t g) ≡ conns_of (alone plain stub s g)) × AsAlone plain stub g ss ts
AsAlone plain stub g _ _ = ⊥

AsAlone-refl : (plain stub : Bool) (g : Counters) (ts : List Turn) → AsAlone plain stub g ts ts
AsAlone-refl plain stub g [] = tt
AsAlone-refl plain stub g (t ∷ ts) = (refl, AsAlone-refl plain stub g ts)

Moves-AsAlone :
    {plain stub : Bool} {ts ts' : List Turn} {g g' : Counters} (h : Counters) (ts₀ : List Turn)
    → Moves plain stub ts g ts' g'
    → AsAlone plain stub h ts₀ ts
    → AsAlone plain stub h ts₀ ts'
Moves-AsAlone h [] (this e) a = absurd a
Moves-AsAlone h [] (other m) a = absurd a
Moves-AsAlone {plain = plain} {stub = stub} h (s ∷ ss) (this {t = t} {t' = t'} {g = g} {g' = g'} e)
      (a, rest) =
    (
      alone-unread plain stub t' h g'
          ∙ ap conns_of (subst (GoesOn plain stub t g) e (turn-GoesOn plain stub t g))
          ∙ alone-unread plain stub t g h
          ∙ a,
      rest,
    )
Moves-AsAlone h (s ∷ ss) (other m) (a, rest) = (a, Moves-AsAlone h ss m rest)

-- In whatever order the workers move.
pub Reach-AsAlone :
    {plain stub : Bool} {ts₀ : List Turn} {g₀ : Counters} (h : Counters) {n : ℕ} {ts : List Turn}
    {g : Counters}
    → Reach plain stub ts₀ g₀ n ts g
    → AsAlone plain stub h ts₀ ts
Reach-AsAlone {plain = plain} {stub = stub} {ts₀ = ts₀} h at_start = AsAlone-refl plain stub h ts₀
Reach-AsAlone {ts₀ = ts₀} h (later r m) = Moves-AsAlone h ts₀ m (Reach-AsAlone h r)
