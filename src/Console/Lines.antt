-- ===== src/Console/Lines.antt =====
-- The lock keeps lines apart: the invariant of every reachable state.
use mathlib.Core.Bool.{false≢true}
use miniosv_apps.Prelude.{
  ℕ, ◌≡◌, ◌≢◌, refl, sym, ap, subst, ◌∙◌, arith, Bool, true, false, List, [], ◌∷◌, ◌++◌, append-nil,
  append_assoc, Bool-cases, ◌⊎◌, inl, inr, take, drop, take-drop, Bytes,
}
use miniosv_apps.Http.Counting.{stream}
use miniosv_apps.Console.{line}
use miniosv_apps.Console.Lock.{
  Pc, outside, formed, writing, leaving, Shared, Move, form, spin, acquire, put, fail, written,
  release, System, update, pick, start, Reach, here, later, is_inside, AllShown, AllShown-snoc,
  stream-snoc, Holds, Inv, free, held, update_same, update_other, Holds-is_inside, update-inside,
}

abbrev at : Shared → (ℕ → Pc) → System
at m pc = record { shared = m; pc = pc }

module _ (may_fail : Bool) (m : Shared) (pc : ℕ → Pc) (i : ℕ) (calls : List (List Bytes)) where
  -- A thread that stays outside the lock.
  stays_outside :
      (p' : Pc)
      → is_inside (pc i) ≡ false
      → is_inside p' ≡ false
      → Inv may_fail (at m pc) calls
      → Inv may_fail (at m (update pc i p')) calls
  stays_outside p' o o' (free finished all unlocked shown none_in) =
      free finished all unlocked shown (λ j. ground (arith, none_in j))
  stays_outside p' o o' (held ended pieces finished owner begun all locked holds unique) =
      let other : i ≢ owner = λ e. absurd (
        false≢true (
          sym o
          ∙ ap (λ t. is_inside (pc t)) e
          ∙ Holds-is_inside may_fail pieces finished m.shown (pc owner) holds)) in
      held ended pieces finished owner begun all locked
        (subst (Holds may_fail pieces finished m.shown) (sym (update_other pc i p' owner other))
          holds)
        (λ j h. unique j (ground (arith, h)))

  -- The state of the lock, as the thread that holds it sees it.
  abbrev Mine : Pc → Type 0
  Mine p =
      (ended : List (List Bytes)) × (pieces : List Bytes) × (finished : List Bytes) × (calls
        ≡ ended ++ (pieces ∷ []))
      × AllShown may_fail ended finished
      × (m.print_lock ≡ true)
      × Holds may_fail pieces finished m.shown p
      × ((j : ℕ) → is_inside (pc j) ≡ true → j ≡ i)

  mine : (p : Pc) → pc i ≡ p → is_inside p ≡ true → Inv may_fail (at m pc) calls → Mine p
  mine p e h (free finished all unlocked shown none_in) =
      absurd (false≢true (sym (none_in i) ∙ ap is_inside e ∙ h))
  mine p e h (held ended pieces finished owner begun all locked holds unique) =
      let me : i ≡ owner = unique i (ap is_inside e ∙ h) in
      (
        ended,
        pieces,
        finished,
        begun,
        all,
        locked,
        subst (Holds may_fail pieces finished m.shown) (ap pc (sym me) ∙ e) holds,
        λ j k. unique j k ∙ sym me,
      )

  only_me :
      (p' : Pc)
      → ((j : ℕ) → is_inside (pc j) ≡ true → j ≡ i)
      → (j : ℕ) → is_inside (update pc i p' j) ≡ true
      → j ≡ i
  only_me p' unique j h = elim (update-inside pc i p' j h) [
    | inl e ↦ sym e
    | inr old ↦ unique j old
  ]

  -- The thread goes on with the lock.
  keeps_lock :
      (m' : Shared) (p' : Pc) (calls' ended : List (List Bytes)) (pieces : List Bytes)
      (finished : List Bytes)
      → calls' ≡ ended ++ (pieces ∷ [])
      → AllShown may_fail ended finished
      → m'.print_lock ≡ true
      → Holds may_fail pieces finished m'.shown p'
      → ((j : ℕ) → is_inside (pc j) ≡ true → j ≡ i)
      → Inv may_fail (at m' (update pc i p')) calls'
  keeps_lock m' p' calls' ended pieces finished begun all locked holds unique =
      held ended pieces finished i begun all locked
        (subst (Holds may_fail pieces finished m'.shown) (sym (update_same pc i p')) holds)
        (only_me p' unique)

  same_calls : {s : System} → Inv may_fail s calls → Inv may_fail s (calls ++ [])
  same_calls {s} inv = subst (Inv may_fail s) (sym (append-nil calls)) inv

  Move-Inv :
      {p p' : Pc} {m' : Shared} {more : List (List Bytes)}
      → Move may_fail m p m' p' more
      → pc i ≡ p
      → Inv may_fail (at m pc) calls
      → Inv may_fail (at m' (update pc i p')) (calls ++ more)
  Move-Inv (form pieces) e inv =
      same_calls (stays_outside (formed pieces) (ap is_inside e) refl inv)
  Move-Inv (spin {pieces}) e inv =
      same_calls (stays_outside (formed pieces) (ap is_inside e) refl inv)
  Move-Inv (acquire {pieces} unlocked) e (free finished all _ shown none_in) =
      keeps_lock (record m { print_lock = true }) (writing (line pieces)) (calls ++ (pieces ∷ []))
        calls pieces finished refl all refl ([], shown ∙ sym (append-nil (stream finished)), refl)
        (λ j h. absurd (false≢true (sym (none_in j) ∙ h)))
  Move-Inv (acquire {pieces} unlocked) e (held _ _ finished owner begun all locked holds unique) =
      absurd (false≢true (sym unlocked ∙ locked))
  Move-Inv (put {rest} n some_bytes fits) e inv =
      let (ended, pieces, finished, begun, all, locked, (part, shown, whole), unique) =
        mine (writing rest) e refl inv in
      same_calls (
        keeps_lock (record m { shown = m.shown ++ take n rest }) (writing (drop n rest)) calls ended
          pieces finished begun all locked
          (
            part ++ take n rest,
            ap (λ t. t ++ take n rest) shown ∙ append_assoc (stream finished) part (take n rest),
            append_assoc part (take n rest) (drop n rest)
                ∙ ap (λ t. part ++ t) (take-drop n rest)
                ∙ whole,
          )
          unique)
  Move-Inv (fail {rest} allowed) e inv =
      let (ended, pieces, finished, begun, all, locked, (part, shown, whole), unique) =
        mine (writing rest) e refl inv in
      same_calls (
        keeps_lock m leaving calls ended pieces finished begun all locked
          (part, shown, (rest, whole, inl allowed)) unique)
  Move-Inv written e inv =
      let (ended, pieces, finished, begun, all, locked, (part, shown, whole), unique) =
        mine (writing []) e refl inv in
      same_calls (
        keeps_lock m leaving calls ended pieces finished begun all locked
          (part, shown, ([], whole, inr refl)) unique)
  Move-Inv release e inv =
      let (ended, pieces, finished, begun, all, locked, (part, shown, text), unique) =
        mine leaving e refl inv in
      let ended_all =
        subst (λ cs. AllShown may_fail cs (finished ++ (part ∷ []))) (sym begun)
          (AllShown-snoc may_fail ended pieces finished part all text) in
      same_calls (
        free (finished ++ (part ∷ [])) ended_all refl (shown ∙ sym (stream-snoc finished part))
          (λ j. elim (Bool-cases (is_inside (update pc i outside j))) [
            | inl h ↦
                let me = only_me outside unique j h in
                absurd (
                  false≢true (
                    sym (ap is_inside (update_same pc i outside))
                    ∙ ap (λ t. is_inside (update pc i outside t)) (sym me)
                    ∙ h))
            | inr h ↦ h
          ]))

start-Inv : (may_fail : Bool) → Inv may_fail start []
start-Inv may_fail = free [] tt refl refl (λ i. refl)

Reach-Inv :
    {may_fail : Bool} {s : System} {calls : List (List Bytes)}
    → Reach may_fail s calls
    → Inv may_fail s calls
Reach-Inv {may_fail} here = start-Inv may_fail
Reach-Inv {may_fail} (later {s} {calls = calls} r (pick i mv)) =
    Move-Inv may_fail s.shared s.pc i calls mv refl (Reach-Inv r)

-- In every state that threads in `print_line` can reach, in whatever order they move, at most one
-- of them is between taking the lock and giving it back.
pub one_inside :
    {may_fail : Bool} {s : System} {calls : List (List Bytes)}
    → Reach may_fail s calls
    → (i j : ℕ) → is_inside (s.pc i) ≡ true
    → is_inside (s.pc j) ≡ true
    → i ≡ j
one_inside r i j in_i in_j = elim (Reach-Inv r) [
  | free finished all unlocked shown none_in ↦ absurd (false≢true (sym (none_in i) ∙ in_i))
  | held ended pieces finished owner begun all locked holds unique ↦
      unique i in_i ∙ sym (unique j in_j)
]

-- What is shown when these calls have begun to write: where the lock is free, the text of each of
-- them, one after the other; and else those of all but the last, and behind them the first bytes of
-- the line of the last.
abbrev pub Displays : Bool → List (List Bytes) → Shared → Type 0
Displays may_fail calls m =
    ((texts : List Bytes) × (m.print_lock ≡ false)
      × AllShown may_fail calls texts
      × (m.shown ≡ stream texts))
    ⊎ ((ended : List (List Bytes)) × (pieces : List Bytes) × (texts : List Bytes) × (part : Bytes)
        × (rest : Bytes) × (m.print_lock ≡ true)
        × (calls ≡ ended ++ (pieces ∷ []))
        × AllShown may_fail ended texts
        × (m.shown ≡ stream texts ++ part)
        × (part ++ rest ≡ line pieces))

-- What the console shows, in every state that threads in `print_line` can reach: the lines of the
-- calls that have taken the lock, in that order and one behind the other. Where the lock is free each
-- of them is there; where it is taken, each but the last, and of the line of the last the first
-- bytes. A line is whole unless `write` may fail, and else its first bytes.
pub shows_lines :
    {may_fail : Bool} {s : System} {calls : List (List Bytes)}
    → Reach may_fail s calls
    → Displays may_fail calls s.shared
shows_lines {may_fail} {s} {calls} r = elim (Reach-Inv r) [
  | free finished all unlocked shown none_in ↦ inl (finished, unlocked, all, shown)
  | held ended pieces finished owner begun all locked holds unique ↦
      inr (by_owner ended pieces finished begun all locked (s.pc owner) holds)
]
  where
    by_owner :
        (ended : List (List Bytes)) (pieces : List Bytes) (finished : List Bytes)
        → calls ≡ ended ++ (pieces ∷ [])
        → AllShown may_fail ended finished
        → s.shared.print_lock ≡ true
        → (p : Pc) → Holds may_fail pieces finished s.shared.shown p
        → (ended : List (List Bytes)) × (pieces : List Bytes) × (texts : List Bytes)
          × (part : Bytes) × (rest : Bytes) × (s.shared.print_lock ≡ true)
          × (calls ≡ ended ++ (pieces ∷ []))
          × AllShown may_fail ended texts
          × (s.shared.shown ≡ stream texts ++ part)
          × (part ++ rest ≡ line pieces)
    by_owner ended pieces finished begun all locked outside h = absurd h
    by_owner ended pieces finished begun all locked (formed _) h = absurd h
    by_owner ended pieces finished begun all locked (writing rest) (part, shown, whole) =
        (ended, pieces, finished, part, rest, locked, begun, all, shown, whole)
    by_owner ended pieces finished begun all locked leaving (part, shown, (rest, whole, _)) =
        (ended, pieces, finished, part, rest, locked, begun, all, shown, whole)
