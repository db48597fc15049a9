-- ===== src/Worker/Ends.antt =====
-- When the loop of a worker ends.
use miniosv_apps.Prelude.{
  ℕ, ◌+◌, ◌≤◌, ◌<◌, ◌≡◌, refl, ap, inl, inr, arith, Bool, true, false, Option, none, some, List, [],
  ◌∷◌, ◌++◌, Bool-cases,
}
use miniosv_apps.Conn.{
  Answers, Conn, Counters, is_syn_sent, syn_timeout_ms, settle, syn_timed_out, conn_step,
}
use miniosv_apps.Conn.Kept.{Fixed}
use miniosv_apps.Conn.Step.{conn_step-fixed, conn_step_over, conn_step_timeout}
use miniosv_apps.Worker.{step_all, run_rounds}
use miniosv_apps.Worker.Rounds.{AllConns}

-- The connection was started by then.
abbrev pub StartedBy : ℕ → Conn → Type 0
StartedBy t c = c.connect_start_ms ≤ t

-- A round in which no SYN has been answered, more than the timeout after `t`.
abbrev pub IsSilent : ℕ → (ℕ → Answers) → Type 0
IsSilent t round =
    (i : ℕ) → (is_syn_sent (round i).state ≡ true) × (t + syn_timeout_ms < (round i).now_ms)

abbrev pub has_ended : Option (List Conn × Counters) → Bool
has_ended none = false
has_ended (some _) = true

late :
    (a : Answers) (c : Conn) (g : Counters) (t : ℕ)
    → is_syn_sent a.state ≡ true
    → t + syn_timeout_ms < a.now_ms
    → c.connect_start_ms ≤ t
    → syn_timed_out a (settle a c g).0 ≡ true
unfolding syn_timed_out settle
late a c g t s h k = ground arith

gave_up :
    (plain stub : Bool) (a : Answers) (c : Conn) (g : Counters) (t : ℕ)
    → is_syn_sent a.state ≡ true
    → t + syn_timeout_ms < a.now_ms
    → c.connect_start_ms ≤ t
    → (conn_step plain stub a c g).1.1 ≡ true
gave_up plain stub a c g t s h k = elim (Bool-cases c.done) [
  | inl e ↦ ap (λ r. r.1.1) (conn_step_over plain stub a c g e)
  | inr e ↦ ap (λ r. r.1.1) (conn_step_timeout plain stub a c g e (late a c g t s h k))
]

module _ (plain stub : Bool) (t : ℕ) where
  step_all_silent :
      (round : ℕ → Answers) (i : ℕ) (cs : List Conn) (g : Counters)
      → IsSilent t round
      → AllConns (StartedBy t) cs
      → (step_all plain stub round i cs g).1 ≡ true
  unfolding step_all
  step_all_silent round i [] g silent started = refl
  step_all_silent round i (c ∷ cs) g silent (k, ks) =
      let (s, h) = silent i in
      let one = gave_up plain stub (round i) c g t s h k in
      let rest =
        step_all_silent round (i + 1) cs (conn_step plain stub (round i) c g).0.1 silent ks in
      simp (one, rest) refl

  step_all-StartedBy :
      (round : ℕ → Answers) (i : ℕ) (cs : List Conn) (g : Counters)
      → AllConns (StartedBy t) cs
      → AllConns (StartedBy t) (step_all plain stub round i cs g).0.0
  unfolding step_all
  step_all-StartedBy round i [] g started = tt
  step_all-StartedBy round i (c ∷ cs) g (k, ks) =
      let same =
        ap (λ (f : Fixed). f.connect_start_ms) (conn_step-fixed plain stub (round i) c g) in
      (
        omega (arith, same, k),
        step_all-StartedBy round (i + 1) cs (conn_step plain stub (round i) c g).0.1 ks,
      )

  -- A worker whose peer answers no SYN does not wait for ever: its loop has ended at the latest in
  -- the first round that begins more than the timeout after its connections were started, whatever
  -- the rounds before it brought.
  pub run_rounds_silent :
      (before : List (ℕ → Answers)) (round : ℕ → Answers) (after : List (ℕ → Answers))
      (cs : List Conn) (g : Counters)
      → IsSilent t round
      → AllConns (StartedBy t) cs
      → has_ended (run_rounds plain stub (before ++ (round ∷ after)) cs g) ≡ true
  unfolding run_rounds
  run_rounds_silent [] round after cs g silent started =
      simp (step_all_silent round 0 cs g silent started) refl
  run_rounds_silent (r ∷ before) round after cs g silent started =
      let ((cs', g'), all_done) = step_all plain stub r 0 cs g in
      elim (Bool-cases all_done) [
        | inl e ↦ simp e refl
        | inr e ↦ simp e (
            run_rounds_silent before round after cs' g' silent
              (step_all-StartedBy r 0 cs g started))
      ]
