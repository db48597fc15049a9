-- ===== src/Conn/Step.antt =====
-- The branches of a step, and what its end promises.
use miniosv_apps.Prelude.{
  ◌≡◌, refl, sym, subst, ◌∙◌, inl, inr, arith, Bool, true, false, ◌&&◌, ◌||◌, not, [], Bool-cases,
  Bytes,
}
use miniosv_apps.Conn.{
  Answers, Conn, Counters, is_empty, is_ended, settle, syn_timed_out, give_up, finish, work,
  conn_step,
}
use miniosv_apps.Conn.Kept.{work-Keeps, grows, fixed_of}

give_up-done : (a : Answers) (c : Conn) (g : Counters) → (give_up a c g).0.done ≡ true
unfolding give_up
give_up-done a c g = ground arith

module _ (plain stub : Bool) (a : Answers) (c : Conn) (g : Counters) where
  pub conn_step_over : c.done ≡ true → conn_step plain stub a c g ≡ ((c, g), ([], true))
  unfolding conn_step
  conn_step_over e = simp e refl

  pub conn_step_timeout :
      c.done ≡ false
      → let (c₁, g₁) = settle a c g in
        syn_timed_out a c₁ ≡ true → conn_step plain stub a c g ≡ (give_up a c₁ g₁, ([], true))
  unfolding conn_step
  conn_step_timeout e t = simp (e, t) refl

  pub conn_step_works :
      c.done ≡ false
      → let (c₁, g₁) = settle a c g in
        let ((c₂, h₂), sent) = work plain stub a c₁ g₁.http in
        syn_timed_out a c₁ ≡ false
        → conn_step plain stub a c g
          ≡ ((finish a c₂, record g₁ { http = h₂ }), (sent, (finish a c₂).done))
  unfolding conn_step
  conn_step_works e t = simp (e, t) refl

  -- To show something of a step, show it of each branch.
  pub by_branch :
      let (c₁, g₁) = settle a c g in
      let ((c₂, h₂), sent) = work plain stub a c₁ g₁.http in
      (P : (Conn × Counters) × (Bytes × Bool) → Type 0)
      → (c.done ≡ true → P ((c, g), ([], true)))
      → (c.done ≡ false → syn_timed_out a c₁ ≡ true → P (give_up a c₁ g₁, ([], true)))
      → (c.done ≡ false
          → syn_timed_out a c₁ ≡ false
          → P ((finish a c₂, record g₁ { http = h₂ }), (sent, (finish a c₂).done)))
      → P (conn_step plain stub a c g)
  by_branch P p q r = elim (Bool-cases c.done) [
    | inl e ↦ subst P (sym (conn_step_over e)) (p e)
    | inr e ↦ elim (Bool-cases (syn_timed_out a (settle a c g).0)) [
      | inl t ↦ subst P (sym (conn_step_timeout e t)) (q e t)
      | inr t ↦ subst P (sym (conn_step_works e t)) (r e t)
    ]
  ]

  -- What the code returns is whether the connection is done.
  pub conn_step-done : let ((c', _), (_, ended)) = conn_step plain stub a c g in ended ≡ c'.done
  conn_step-done =
      by_branch (λ r. r.1.1 ≡ r.0.0.done) (λ e. sym e) (λ e t. sym (give_up-done a _ _))
        (λ e t. refl)

-- A connection counts as cleanly closed only where it is done, its request went out to the last
-- byte, and no more than that is waiting to be sent.
abbrev pub is_sound : Conn → Bool
is_sound c =
    not c.closed_cleanly || (c.done && c.handshake_done && c.request_queued && is_empty c.outgoing)

settle-lem :
    (a : Answers) (c : Conn) (g : Counters)
    → let c' = (settle a c g).0 in
      (c'.closed_cleanly ≡ c.closed_cleanly)
      × (c'.done ≡ c.done)
      × (fixed_of c' ≡ fixed_of c)
      × (grows c.settled c'.settled ≡ true)
unfolding settle
settle-lem a c g = ground arith

give_up_sound :
    (a : Answers) (c : Conn) (g : Counters)
    → c.closed_cleanly ≡ false
    → is_sound (give_up a c g).0 ≡ true
unfolding give_up
give_up_sound a c g h = ground arith

finish_sound : (a : Answers) (c : Conn) → c.closed_cleanly ≡ false → is_sound (finish a c) ≡ true
unfolding finish
finish_sound a c h = ground arith

not_closed : (c : Conn) → is_sound c ≡ true → c.done ≡ false → c.closed_cleanly ≡ false
not_closed c s e = ground arith

-- Every step keeps that.
pub conn_step_sound :
    (plain stub : Bool) (a : Answers) (c : Conn) (g : Counters)
    → is_sound c ≡ true
    → is_sound (conn_step plain stub a c g).0.0 ≡ true
conn_step_sound plain stub a c g s =
    let (closed, _, _, _) = settle-lem a c g in
    by_branch plain stub a c g (λ r. is_sound r.0.0 ≡ true) (λ e. s)
      (λ e t. give_up_sound a _ _ (closed ∙ not_closed c s e))
      (λ e t.
        finish_sound a _ ((work-Keeps plain stub a _ _).closed_cleanly ∙ closed ∙ not_closed c s e))

give_up-fixed : (a : Answers) (c : Conn) (g : Counters) → fixed_of (give_up a c g).0 ≡ fixed_of c
unfolding give_up
give_up-fixed a c g = elim (Bool-cases (not c.settled)) [
  | inl e ↦ simp e refl
  | inr e ↦ simp e refl
]

finish-fixed : (a : Answers) (c : Conn) → fixed_of (finish a c) ≡ fixed_of c
unfolding finish
finish-fixed a c =
    elim (Bool-cases (
      c.handshake_done
      && c.request_queued
      && is_ended a.state_after
      && is_empty c.outgoing
      && not a.can_recv_after)) [ inl e ↦ simp e refl | inr e ↦ simp e refl ]

-- No step changes what identifies a connection, its request and what it expects among that.
pub conn_step-fixed :
    (plain stub : Bool) (a : Answers) (c : Conn) (g : Counters)
    → fixed_of (conn_step plain stub a c g).0.0 ≡ fixed_of c
conn_step-fixed plain stub a c g =
    let (_, _, same, _) = settle-lem a c g in
    by_branch plain stub a c g (λ r. fixed_of r.0.0 ≡ fixed_of c) (λ e. refl)
      (λ e t. give_up-fixed a _ _ ∙ same)
      (λ e t. finish-fixed a _ ∙ (work-Keeps plain stub a _ _).fixed ∙ same)
