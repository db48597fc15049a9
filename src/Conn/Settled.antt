-- ===== src/Conn/Settled.antt =====
-- CONNS_ESTABLISHED and CONNS_FAILED in a step of a connection (lines 1036-1182).
use miniosv_apps.Prelude.{ℕ, ◌+◌, ◌^◌, ◌≤◌, ◌<◌, ◌≡◌, refl, ap, ◌∙◌, arith, Bool, true, false}
use miniosv_apps.Conn.{Answers, Conn, Counters, settle, give_up, finish, work, conn_step}
use miniosv_apps.Conn.Kept.{work-Keeps, grows, grows_refl, grows_trans}
use miniosv_apps.Conn.Step.{by_branch}

abbrev pub one_if : Bool → ℕ
one_if true = 1
one_if false = 0

-- What is added to the two counters is what is added to the settled connections.
abbrev pub CountedOnce : Conn → Counters → Conn → Counters → Type 0
CountedOnce c g c' g' =
    (g'.conns_established + g'.conns_failed + one_if c.settled
      ≡ g.conns_established + g.conns_failed + one_if c'.settled)
    × (g.conns_established ≤ g'.conns_established)
    × (g.conns_failed ≤ g'.conns_failed)
    × (grows c.settled c'.settled ≡ true)

settle_counted :
    (a : Answers) (c : Conn) (g : Counters)
    → g.conns_established + 1 < 2 ^ 64
    → CountedOnce c g (settle a c g).0 (settle a c g).1
unfolding settle
settle_counted a c g h = ground arith

give_up_counted :
    (a : Answers) (c : Conn) (g : Counters)
    → g.conns_failed + 1 < 2 ^ 64
    → CountedOnce c g (give_up a c g).0 (give_up a c g).1
unfolding give_up
give_up_counted a c g h = ground arith

settle_failed :
    (a : Answers) (c : Conn) (g : Counters) → (settle a c g).1.conns_failed ≡ g.conns_failed
unfolding settle
settle_failed a c g = ground arith

finish_settled : (a : Answers) (c : Conn) → (finish a c).settled ≡ c.settled
unfolding finish
finish_settled a c = ground arith

counted_trans :
    (c : Conn) (g : Counters) (c₁ : Conn) (g₁ : Counters) (c₂ : Conn) (g₂ : Counters)
    → CountedOnce c g c₁ g₁
    → CountedOnce c₁ g₁ c₂ g₂
    → CountedOnce c g c₂ g₂
counted_trans c g c₁ g₁ c₂ g₂ (p, q, r, s) (p', q', r', s') =
    (omega arith, omega arith, omega arith, grows_trans c.settled c₁.settled c₂.settled s s')

-- As long as the counters have room, a step counts its connection at most once, as established or
-- as failed, exactly where it settles it; it never takes that back.
pub conn_step-CountedOnce :
    (plain stub : Bool) (a : Answers) (c : Conn) (g : Counters)
    → g.conns_established + 1 < 2 ^ 64
    → g.conns_failed + 1 < 2 ^ 64
    → let (c', g') = (conn_step plain stub a c g).0 in CountedOnce c g c' g'
conn_step-CountedOnce plain stub a c g h k =
    let (c₁, g₁) = settle a c g in
    let first = settle_counted a c g h in
    let failed = settle_failed a c g in
    by_branch plain stub a c g (λ r. CountedOnce c g r.0.0 r.0.1)
      (λ e. (refl, omega arith, omega arith, grows_refl c.settled))
      (λ e t.
        counted_trans c g c₁ g₁ (give_up a c₁ g₁).0 (give_up a c₁ g₁).1 first
          (give_up_counted a c₁ g₁ (omega (arith, failed))))
      (λ e t.
        let (c₂, h₂) = (work plain stub a c₁ g₁.http).0 in
        let same : (finish a c₂).settled ≡ c₁.settled =
          finish_settled a c₂ ∙ (work-Keeps plain stub a c₁ g₁.http).settled in
        (
          omega (arith, first, ap one_if same),
          first.1,
          first.2,
          ap (grows c.settled) same ∙ first.3,
        ))
