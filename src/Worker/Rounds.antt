-- ===== src/Worker/Rounds.antt =====
-- What holds of the connections of a worker behind any number of rounds.
use miniosv_apps.Prelude.{
  ℕ, ◌+◌, ◌^◌, ◌≤◌, ◌<◌, ◌≡◌, refl, sym, ap₂, ◌∙◌, inl, inr, arith, Bool, true, ◌&&◌, Option, none,
  some, List, [], ◌∷◌, map, Bool-cases, length,
}
use miniosv_apps.Conn.{Answers, Conn, Counters, conn_step}
use miniosv_apps.Conn.Kept.{fixed_of, grows, grows_refl}
use miniosv_apps.Conn.Step.{is_sound, conn_step_sound, conn_step-fixed, conn_step-done}
use miniosv_apps.Conn.Settled.{one_if, conn_step-CountedOnce}
use miniosv_apps.Worker.{step_all, run_rounds}

abbrev pub AllConns : (Conn → Type 0) → List Conn → Type 0
AllConns P [] = Unit {0}
AllConns P (c ∷ cs) = P c × AllConns P cs

abbrev pub IsSound : Conn → Type 0
IsSound c = is_sound c ≡ true

abbrev pub IsDone : Conn → Type 0
IsDone c = c.done ≡ true

-- The connections that count as established or failed.
abbrev pub settled_count : List Conn → ℕ
settled_count [] = 0
settled_count (c ∷ cs) = one_if c.settled + settled_count cs

module _ (plain stub : Bool) (round : ℕ → Answers) where
  step_all-IsSound :
      (i : ℕ) (cs : List Conn) (g : Counters)
      → AllConns IsSound cs
      → AllConns IsSound (step_all plain stub round i cs g).0.0
  unfolding step_all
  step_all-IsSound i [] g s = tt
  step_all-IsSound i (c ∷ cs) g (s, ss) = (
    conn_step_sound plain stub (round i) c g s,
    step_all-IsSound (i + 1) cs (conn_step plain stub (round i) c g).0.1 ss,
  )

  step_all-fixed :
      (i : ℕ) (cs : List Conn) (g : Counters)
      → map fixed_of (step_all plain stub round i cs g).0.0 ≡ map fixed_of cs
  unfolding step_all
  step_all-fixed i [] g = refl
  step_all-fixed i (c ∷ cs) g =
      ap₂ (λ x xs. x ∷ xs) (conn_step-fixed plain stub (round i) c g)
        (step_all-fixed (i + 1) cs (conn_step plain stub (round i) c g).0.1)

  -- `all_done` is what it says.
  step_all-IsDone :
      (i : ℕ) (cs : List Conn) (g : Counters)
      → let ((cs', _), all_done) = step_all plain stub round i cs g in
        all_done ≡ true → AllConns IsDone cs'
  unfolding step_all
  step_all-IsDone i [] g h = tt
  step_all-IsDone i (c ∷ cs) g h =
      let ((c', g'), (_, d)) = conn_step plain stub (round i) c g in
      let both = both_true d (step_all plain stub round (i + 1) cs g').1 h in
      (sym (conn_step-done plain stub (round i) c g) ∙ both.0, step_all-IsDone (i + 1) cs g' both.1)
    where
      both_true : (a b : Bool) → (a && b) ≡ true → (a ≡ true) × (b ≡ true)
      both_true a b e = ground arith

-- `cs` before the loop, and what it ends with.
abbrev pub EndsWell : List Conn → Option (List Conn × Counters) → Type 0
EndsWell cs none = Unit {0}
EndsWell cs (some (cs', g')) =
    (map fixed_of cs' ≡ map fixed_of cs) × AllConns IsDone cs' × AllConns IsSound cs'

-- The loop of a worker ends only where every connection is done. Its connections are then those that
-- it began with, in order, and each of them counts as cleanly closed only with its request queued and
-- nothing left to send, if that held before.
pub run_rounds-EndsWell :
    (plain stub : Bool) (rounds : List (ℕ → Answers)) (cs : List Conn) (g : Counters)
    → AllConns IsSound cs
    → EndsWell cs (run_rounds plain stub rounds cs g)
unfolding run_rounds
run_rounds-EndsWell plain stub [] cs g s = tt
run_rounds-EndsWell plain stub (round ∷ more) cs g s =
    let ((cs', g'), all_done) = step_all plain stub round 0 cs g in
    let same = step_all-fixed plain stub round 0 cs g in
    let sound = step_all-IsSound plain stub round 0 cs g s in
    elim (Bool-cases all_done) [
      | inl e ↦ simp e (same, step_all-IsDone plain stub round 0 cs g e, sound)
      | inr e ↦ simp e (
          EndsWell-trans cs cs' (run_rounds plain stub more cs' g') same
            (run_rounds-EndsWell plain stub more cs' g' sound))
    ]
  where
    EndsWell-trans :
        (cs cs' : List Conn) (o : Option (List Conn × Counters))
        → map fixed_of cs' ≡ map fixed_of cs
        → EndsWell cs' o
        → EndsWell cs o
    EndsWell-trans cs cs' none e h = tt
    EndsWell-trans cs cs' (some (cs'', g'')) e (same, ended, sound) = (same ∙ e, ended, sound)

pub settled_count-le : (cs : List Conn) → settled_count cs ≤ length cs
settled_count-le [] = omega arith
settled_count-le (c ∷ cs) = ground (arith, settled_count-le cs)

-- The counters have room for the connections that are not settled yet.
abbrev pub HasRoom : List Conn → Counters → Type 0
HasRoom cs g = g.conns_established + g.conns_failed + length cs + 1 < 2 ^ 64 + settled_count cs

abbrev pub Counted : List Conn → Counters → List Conn → Counters → Type 0
Counted cs g cs' g' =
    (g'.conns_established + g'.conns_failed + settled_count cs
      ≡ g.conns_established + g.conns_failed + settled_count cs')
    × (length cs' ≡ length cs)

one_if-grows : (a b : Bool) → grows a b ≡ true → (one_if a ≤ one_if b) × (one_if b ≤ 1)
one_if-grows a b h = ground arith

step_all-Counted :
    (plain stub : Bool) (round : ℕ → Answers) (i : ℕ) (cs : List Conn) (g : Counters)
    → HasRoom cs g
    → let (cs', g') = (step_all plain stub round i cs g).0 in Counted cs g cs' g'
unfolding step_all
step_all-Counted plain stub round i [] g room = (refl, refl)
step_all-Counted plain stub round i (c ∷ cs) g room =
    let (c', g') = (conn_step plain stub (round i) c g).0 in
    let few = settled_count-le cs in
    let bit = one_if-grows c.settled c.settled (grows_refl c.settled) in
    let one =
      conn_step-CountedOnce plain stub (round i) c g (omega (arith, room, few, bit))
        (omega (arith, room, few, bit)) in
    let bits = one_if-grows c.settled c'.settled one.3 in
    let (rest, same) =
      step_all-Counted plain stub round (i + 1) cs g' (omega (arith, one, room, few, bits)) in
    (omega (arith, one, rest), omega (arith, same))

abbrev CountsRight : List Conn → Counters → Option (List Conn × Counters) → Type 0
CountsRight cs g none = Unit {0}
CountsRight cs g (some (cs', g')) = Counted cs g cs' g'

Counted-trans :
    (cs : List Conn) (g : Counters) (cs' : List Conn) (g' : Counters)
    (o : Option (List Conn × Counters))
    → Counted cs g cs' g'
    → CountsRight cs' g' o
    → CountsRight cs g o
Counted-trans cs g cs' g' none a b = tt
Counted-trans cs g cs' g' (some (cs'', g'')) a b = (omega (arith, a, b), b.1 ∙ a.1)

-- Where the counters have room, CONNS_ESTABLISHED and CONNS_FAILED together grow over the loop of a
-- worker by exactly the number of its connections that it has settled, each counted once.
run_rounds-CountsRight :
    (plain stub : Bool) (rounds : List (ℕ → Answers)) (cs : List Conn) (g : Counters)
    → HasRoom cs g
    → CountsRight cs g (run_rounds plain stub rounds cs g)
unfolding run_rounds
run_rounds-CountsRight plain stub [] cs g room = tt
run_rounds-CountsRight plain stub (round ∷ more) cs g room =
    let ((cs', g'), all_done) = step_all plain stub round 0 cs g in
    let counted = step_all-Counted plain stub round 0 cs g room in
    elim (Bool-cases all_done) [
      | inl e ↦ simp e counted
      | inr e ↦ simp e (
          Counted-trans cs g cs' g' (run_rounds plain stub more cs' g') counted
            (run_rounds-CountsRight plain stub more cs' g' (omega (arith, counted, room))))
    ]
