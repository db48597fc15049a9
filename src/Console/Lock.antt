-- ===== src/Console/Lock.antt =====
-- PRINT_LOCK: several threads in `print_line` at once (lines 144-160), a shared access at a time.
use miniosv_apps.Prelude.{
  ℕ, ◌≤◌, ◌<◌, ◌≡◌, ◌≢◌, refl, sym, ap, ◌∙◌, arith, Bool, true, false, List, [], ◌∷◌, ◌++◌,
  append-nil, append_assoc, ◌==◌, ◌⊎◌, if◌then◌else◌, length, take, drop, Bytes,
}
use miniosv_apps.Http.Counting.{stream}
use miniosv_apps.Console.{line}

-- Where a thread stands: outside; with its line formed, before the compare-exchange; with the rest of
-- the line to be written; before the lock is given back.
pub data Pc : Type 0 where
  outside : Pc
  formed : (pieces : List Bytes) → Pc
  writing : (rest : Bytes) → Pc
  leaving : Pc

-- The lock, and what the console shows.
pub record Shared : Type 0 where
  pub print_lock : Bool
  pub shown : Bytes

-- One step of one thread. A weak compare-exchange may fail although the lock is free. `write` takes
-- some of the bytes, or fails where it may, which ends the line. The list holds the pieces of the call
-- that begins to write, where one does.
pub data Move (may_fail : Bool) (m : Shared) : Pc → Shared → Pc → List (List Bytes) → Type 0 where
  form : (pieces : List Bytes) → Move may_fail m outside m (formed pieces) []
  spin : {pieces : List Bytes} → Move may_fail m (formed pieces) m (formed pieces) []
  acquire :
      {pieces : List Bytes}
      → m.print_lock ≡ false
      → Move may_fail m
          (formed pieces)
          (record m { print_lock = true })
          (writing (line pieces))
          (pieces ∷ [])
  put :
      {rest : Bytes} (n : ℕ)
      → 0 < n
      → n ≤ length rest
      → Move may_fail m
          (writing rest)
          (record m { shown = m.shown ++ take n rest })
          (writing (drop n rest))
          []
  fail : {rest : Bytes} → may_fail ≡ true → Move may_fail m (writing rest) m leaving []
  written : Move may_fail m (writing []) m leaving []
  release : Move may_fail m leaving (record m { print_lock = false }) outside []

pub record System : Type 0 where
  pub shared : Shared
  pub pc : ℕ → Pc

abbrev pub update : (ℕ → Pc) → ℕ → Pc → ℕ → Pc
update pc i p j = if i == j then p else pc j

pub data Step (may_fail : Bool) (s : System) : System → List (List Bytes) → Type 0 where
  pick :
      (i : ℕ) {m : Shared} {p : Pc} {calls : List (List Bytes)}
      → Move may_fail s.shared (s.pc i) m p calls
      → Step may_fail s (record { shared = m; pc = update s.pc i p }) calls

-- Before the first line.
abbrev pub start : System
start = record { shared = record { print_lock = false; shown = [] }; pc = λ _. outside }

-- The states that can be reached, with the pieces of the calls that have begun to write, in order.
pub data Reach (may_fail : Bool) : System → List (List Bytes) → Type 0 where
  here : Reach may_fail start []
  later :
      {s t : System} {calls more : List (List Bytes)}
      → Reach may_fail s calls
      → Step may_fail s t more
      → Reach may_fail t (calls ++ more)

-- Between the compare-exchange and the store.
abbrev pub is_inside : Pc → Bool
is_inside (writing _) = true
is_inside leaving = true
is_inside _ = false

-- What the call of `print_line` with these pieces shows: its line, or where `write` may fail the first
-- bytes of it.
abbrev pub IsShown : Bool → List Bytes → Bytes → Type 0
IsShown may_fail pieces text =
    (rest : Bytes) × (text ++ rest ≡ line pieces) × ((may_fail ≡ true) ⊎ (rest ≡ []))

-- The texts of calls, one each and in order.
abbrev pub AllShown : Bool → List (List Bytes) → List Bytes → Type 0
AllShown may_fail [] [] = Unit {0}
AllShown may_fail (c ∷ cs) (l ∷ ls) = IsShown may_fail c l × AllShown may_fail cs ls
AllShown may_fail _ _ = ⊥

pub AllShown-snoc :
    (may_fail : Bool) (cs : List (List Bytes)) (c : List Bytes) (ls : List Bytes) (l : Bytes)
    → AllShown may_fail cs ls
    → IsShown may_fail c l
    → AllShown may_fail (cs ++ (c ∷ [])) (ls ++ (l ∷ []))
AllShown-snoc may_fail [] c [] l h k = (k, tt)
AllShown-snoc may_fail [] c (x ∷ ls) l h k = absurd h
AllShown-snoc may_fail (d ∷ cs) c [] l h k = absurd h
AllShown-snoc may_fail (d ∷ cs) c (x ∷ ls) l (h, hs) k = (h, AllShown-snoc may_fail cs c ls l hs k)

pub stream-snoc : (ls : List Bytes) (l : Bytes) → stream (ls ++ (l ∷ [])) ≡ stream ls ++ l
stream-snoc [] l = append-nil l
stream-snoc (x ∷ ls) l = ap (λ t. x ++ t) (stream-snoc ls l) ∙ sym (append_assoc x (stream ls) l)

-- The thread with the lock, in the call with these pieces, and what is shown, when these texts are
-- finished.
abbrev pub Holds : Bool → List Bytes → List Bytes → Bytes → Pc → Type 0
Holds may_fail pieces finished shown (writing rest) =
    (part : Bytes) × (shown ≡ stream finished ++ part) × (part ++ rest ≡ line pieces)
Holds may_fail pieces finished shown leaving =
    (part : Bytes) × (shown ≡ stream finished ++ part) × IsShown may_fail pieces part
Holds may_fail pieces finished shown _ = ⊥

pub data Inv (may_fail : Bool) (s : System) (calls : List (List Bytes)) : Type 0 where
  free :
      (finished : List Bytes)
      → AllShown may_fail calls finished
      → s.shared.print_lock ≡ false
      → s.shared.shown ≡ stream finished
      → ((i : ℕ) → is_inside (s.pc i) ≡ false)
      → Inv may_fail s calls
  held :
      (ended : List (List Bytes)) (pieces : List Bytes) (finished : List Bytes) (owner : ℕ)
      → calls ≡ ended ++ (pieces ∷ [])
      → AllShown may_fail ended finished
      → s.shared.print_lock ≡ true
      → Holds may_fail pieces finished s.shared.shown (s.pc owner)
      → ((i : ℕ) → is_inside (s.pc i) ≡ true → i ≡ owner)
      → Inv may_fail s calls

pub update_same : (pc : ℕ → Pc) (i : ℕ) (p : Pc) → update pc i p i ≡ p
update_same pc i p = let e : (i == i) ≡ true = ground arith in rw e

pub update_other : (pc : ℕ → Pc) (i : ℕ) (p : Pc) (j : ℕ) → i ≢ j → update pc i p j ≡ pc j
update_other pc i p j h = let e : (i == j) ≡ false = ground arith in rw e

pub Holds-is_inside :
    (may_fail : Bool) (pieces : List Bytes) (finished : List Bytes) (shown : Bytes) (p : Pc)
    → Holds may_fail pieces finished shown p
    → is_inside p ≡ true
Holds-is_inside may_fail pieces finished shown (writing rest) h = refl
Holds-is_inside may_fail pieces finished shown leaving h = refl
Holds-is_inside may_fail pieces finished shown outside h = absurd h
Holds-is_inside may_fail pieces finished shown (formed _) h = absurd h

pub update-inside :
    (pc : ℕ → Pc) (i : ℕ) (p : Pc) (j : ℕ)
    → is_inside (update pc i p j) ≡ true
    → (i ≡ j) ⊎ (is_inside (pc j) ≡ true)
update-inside pc i p j h = ground arith
