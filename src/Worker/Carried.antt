-- ===== src/Worker/Carried.antt =====
-- What the connections of a worker have sent and received when its loop ends (lines 1359-1372), with
-- the answers that each of them got round by round.
use miniosv_apps.Prelude.{
  ℕ, ◌+◌, ◌^◌, ◌≤◌, ◌≡◌, refl, sym, ap, ap₂, subst, ◌∙◌, ◌⊎◌, inl, inr, arith, Bool, true, false,
  Option, none, some, List, [], ◌∷◌, ◌++◌, map, Bool-cases, ltb,
}
use miniosv_apps.Http.HeaderEnd.{body_of}
use miniosv_apps.Http.Counting.{body_length}
use miniosv_apps.Conn.{Answers, Conn, Counters, conn_step}
use miniosv_apps.Conn.Kept.{Fixed, fixed_of}
use miniosv_apps.Conn.Life.{
  Life, live, new_life, live-conn, live-fixed, live_sent, live_counted, IsNew,
}
use miniosv_apps.Worker.{step_all, run_rounds}
use miniosv_apps.Worker.Rounds.{AllConns, IsSound, IsDone, EndsWell, run_rounds-EndsWell}

-- The answers for the connection of index `i`, round by round.
abbrev pub column : ℕ → List (ℕ → Answers) → List Answers
column i rounds = map (λ (r : ℕ → Answers). r i) rounds

abbrev pub answers_of : List (Answers × Counters) → List Answers
answers_of steps = map (λ (s : Answers × Counters). s.0) steps

-- The connection `c` has become `c'` by steps with these answers.
abbrev Lived : Bool → Bool → List Answers → Conn → Conn → Type 0
Lived plain stub answers c c' =
    (steps : List (Answers × Counters)) × (answers_of steps ≡ answers)
    × ((live plain stub steps (new_life c)).conn ≡ c')

abbrev AllLived : Bool → Bool → List (ℕ → Answers) → ℕ → List Conn → List Conn → Type 0
AllLived plain stub played i [] [] = Unit {0}
AllLived plain stub played i (c ∷ cs) (c' ∷ cs') =
    Lived plain stub (column i played) c c' × AllLived plain stub played (i + 1) cs cs'
AllLived plain stub played i _ _ = ⊥

module _ (plain stub : Bool) where
  step_all-AllLived :
      (round : ℕ → Answers) (i : ℕ) (cs : List Conn) (g : Counters)
      → AllLived plain stub (round ∷ []) i cs (step_all plain stub round i cs g).0.0
  unfolding step_all live
  step_all-AllLived round i [] g = tt
  step_all-AllLived round i (c ∷ cs) g = (
    ((round i, g) ∷ [], refl, refl),
    step_all-AllLived round (i + 1) cs (conn_step plain stub (round i) c g).0.1,
  )

  live-append :
      (one two : List (Answers × Counters)) (l : Life)
      → live plain stub (one ++ two) l ≡ live plain stub two (live plain stub one l)
  unfolding live
  live-append [] two l = refl
  live-append ((a, g) ∷ one) two l = live-append one two _

  map-append : {A B : Type 0} (f : A → B) (xs ys : List A) → map f (xs ++ ys) ≡ map f xs ++ map f ys
  map-append f [] ys = refl
  map-append f (x ∷ xs) ys = ap (λ t. f x ∷ t) (map-append f xs ys)

  Lived-trans :
      (one_as two_as : List Answers) (c c' c'' : Conn)
      → Lived plain stub one_as c c'
      → Lived plain stub two_as c' c''
      → Lived plain stub (one_as ++ two_as) c c''
  Lived-trans one_as two_as c c' c'' (one, e, f) (two, e', f') = (
    one ++ two,
    map-append (λ (s : Answers × Counters). s.0) one two ∙ ap₂ ◌++◌ e e',
    ap (λ (l : Life). l.conn) (live-append one two (new_life c))
        ∙ live-conn plain stub two (live plain stub one (new_life c)) (new_life c') f
        ∙ f',
  )

  AllLived-trans :
      (one two : List (ℕ → Answers)) (i : ℕ) (cs cs' cs'' : List Conn)
      → AllLived plain stub one i cs cs'
      → AllLived plain stub two i cs' cs''
      → AllLived plain stub (one ++ two) i cs cs''
  AllLived-trans one two i [] [] [] p q = tt
  AllLived-trans one two i [] [] (c'' ∷ cs'') p q = absurd q
  AllLived-trans one two i [] (c' ∷ cs') cs'' p q = absurd p
  AllLived-trans one two i (c ∷ cs) [] cs'' p q = absurd p
  AllLived-trans one two i (c ∷ cs) (c' ∷ cs') [] p q = absurd q
  AllLived-trans one two i (c ∷ cs) (c' ∷ cs') (c'' ∷ cs'') (p, ps) (q, qs) = (
    subst (λ answers. Lived plain stub answers c c'')
        (sym (map-append (λ (r : ℕ → Answers). r i) one two))
        (Lived-trans (column i one) (column i two) c c' c'' p q),
    AllLived-trans one two (i + 1) cs cs' cs'' ps qs,
  )

  -- The rounds that are played before the loop ends.
  abbrev Played : List (ℕ → Answers) → List Conn → Option (List Conn × Counters) → Type 0
  Played rounds cs none = Unit {0}
  Played rounds cs (some (cs', g')) =
      (played : List (ℕ → Answers)) × (later : List (ℕ → Answers)) × (rounds ≡ played ++ later)
      × AllLived plain stub played 0 cs cs'

  Played-later :
      (round : ℕ → Answers) (more : List (ℕ → Answers)) (cs cs' : List Conn)
      (o : Option (List Conn × Counters))
      → AllLived plain stub (round ∷ []) 0 cs cs'
      → Played more cs' o
      → Played (round ∷ more) cs o
  Played-later round more cs cs' none one rest = tt
  Played-later round more cs cs' (some (cs'', g'')) one (played, later, e, rest) = (
    round ∷ played,
    later,
    ap (λ t. round ∷ t) e,
    AllLived-trans (round ∷ []) played 0 cs cs' cs'' one rest,
  )

  run_rounds-Played :
      (rounds : List (ℕ → Answers)) (cs : List Conn) (g : Counters)
      → Played rounds cs (run_rounds plain stub rounds cs g)
  unfolding run_rounds
  run_rounds-Played [] cs g = tt
  run_rounds-Played (round ∷ more) cs g =
      let ((cs', g'), all_done) = step_all plain stub round 0 cs g in
      let one = step_all-AllLived round 0 cs g in
      elim (Bool-cases all_done) [
        | inl e ↦ simp e (round ∷ [], more, refl, one)
        | inr e ↦ simp e (
            Played-later round more cs cs' (run_rounds plain stub more cs' g') one
              (run_rounds-Played more cs' g'))
      ]

-- What the bytes of a connection come to. Without TLS (`plain`, no stub): where it counts as cleanly
-- closed, the bytes that went out are exactly its request; and its count is the number of bytes
-- behind the first CRLFCRLF of all that its socket has handed over, unless that is no `usize`.
abbrev pub Accounted : Bool → Bool → Life → Type 0
Accounted true false l =
    ((l.conn.closed_cleanly ≡ false) ⊎ (l.sent ≡ l.conn.request))
    × ((2 ^ 64 ≤ body_length (body_of l.received))
        ⊎ (l.conn.tally.bytes ≡ body_length (body_of l.received)))
Accounted plain stub l = Unit {0}

live-Accounted :
    (plain stub : Bool) (steps : List (Answers × Counters)) (c : Conn)
    → IsNew c
    → Accounted plain stub (live plain stub steps (new_life c))
live-Accounted true true steps c new = tt
live-Accounted false stub steps c new = tt
live-Accounted true false steps c new =
    let l = live true false steps (new_life c) in
    let text = ap (λ (f : Fixed). f.request) (live-fixed true false steps (new_life c)) in
    (
      elim (Bool-cases l.conn.closed_cleanly) [
        | inl closed ↦ inr (live_sent steps c new closed ∙ sym text)
        | inr not_closed ↦ inl not_closed
      ],
      elim (Bool-cases (ltb (body_length (body_of l.received)) (2 ^ 64))) [
        | inl small ↦ inr (live_counted steps c new (ground arith))
        | inr big ↦ inl (ground arith)
      ],
    )

-- The connection of index `i` at the end of a loop over these rounds: it was new, and took a step in
-- each of the rounds that were played, with its own answers of the round.
abbrev pub Carried : Bool → Bool → List (ℕ → Answers) → ℕ → Conn → Type 0
Carried plain stub rounds i c' =
    (c : Conn) × (played : List (ℕ → Answers)) × (later : List (ℕ → Answers)) × (steps : List
      (Answers × Counters))
    × IsNew c
    × (rounds ≡ played ++ later)
    × (answers_of steps ≡ column i played)
    × ((live plain stub steps (new_life c)).conn ≡ c')
    × Accounted plain stub (live plain stub steps (new_life c))

abbrev pub AllCarried : Bool → Bool → List (ℕ → Answers) → ℕ → List Conn → Type 0
AllCarried plain stub rounds i [] = Unit {0}
AllCarried plain stub rounds i (c ∷ cs) =
    Carried plain stub rounds i c × AllCarried plain stub rounds (i + 1) cs

AllLived-AllCarried :
    (plain stub : Bool) (rounds played later : List (ℕ → Answers)) (i : ℕ) (cs cs' : List Conn)
    → AllConns IsNew cs
    → rounds ≡ played ++ later
    → AllLived plain stub played i cs cs'
    → AllCarried plain stub rounds i cs'
AllLived-AllCarried plain stub rounds played later i [] [] new e p = tt
AllLived-AllCarried plain stub rounds played later i [] (c' ∷ cs') new e p = absurd p
AllLived-AllCarried plain stub rounds played later i (c ∷ cs) [] new e p = absurd p
AllLived-AllCarried plain stub rounds played later i (c ∷ cs) (c' ∷ cs') (new, news) e
      ((steps, f, g), ps) =
    (
      (c, played, later, steps, new, e, f, g, live-Accounted plain stub steps c new),
      AllLived-AllCarried plain stub rounds played later (i + 1) cs cs' news e ps,
    )

IsNew-IsSound : (cs : List Conn) → AllConns IsNew cs → AllConns IsSound cs
IsNew-IsSound [] h = tt
IsNew-IsSound (c ∷ cs) (h, hs) = (ground (arith, h), IsNew-IsSound cs hs)

-- `cs` before the loop, and what it ends with.
abbrev pub EndsCarried :
    Bool → Bool → List (ℕ → Answers) → List Conn → Option (List Conn × Counters) → Type 0
EndsCarried plain stub rounds cs none = Unit {0}
EndsCarried plain stub rounds cs (some (cs', g')) =
    (map fixed_of cs' ≡ map fixed_of cs)
    × AllConns IsDone cs'
    × AllConns IsSound cs'
    × AllCarried plain stub rounds 0 cs'

join_ends :
    (plain stub : Bool) (rounds : List (ℕ → Answers)) (cs : List Conn)
    (o : Option (List Conn × Counters))
    → AllConns IsNew cs
    → EndsWell cs o
    → Played plain stub rounds cs o
    → EndsCarried plain stub rounds cs o
join_ends plain stub rounds cs none new a b = tt
join_ends plain stub rounds cs (some (cs', g')) new (same, done, sound) (played, later, e, lived) =
    (same, done, sound, AllLived-AllCarried plain stub rounds played later 0 cs cs' new e lived)

-- The loop of a worker over connections that have just been opened ends only where every connection
-- is done. Its connections are then those that it began with, in order, and each has taken one step
-- with its own answers in every round played. One that counts as cleanly closed has queued its
-- request and has nothing left to send; and without TLS the bytes that it sent are exactly its
-- request, and its count is the number of bytes behind the first CRLFCRLF of all that its socket has
-- handed over, unless that is no `usize`.
pub run_rounds-EndsCarried :
    (plain stub : Bool) (rounds : List (ℕ → Answers)) (cs : List Conn) (g : Counters)
    → AllConns IsNew cs
    → EndsCarried plain stub rounds cs (run_rounds plain stub rounds cs g)
run_rounds-EndsCarried plain stub rounds cs g new =
    join_ends plain stub rounds cs (run_rounds plain stub rounds cs g) new
      (run_rounds-EndsWell plain stub rounds cs g (IsNew-IsSound cs new))
      (run_rounds-Played plain stub rounds cs g)
