-- ===== src/Prelude/Ascending.antt =====
-- Lists that ascend strictly within bounds, with a property of every entry.
use Prim.Native.Nat.{ℕ, suc, ◌≤◌, ◌<◌}
use mathlib.Core.Path.{◌≡◌, refl}
use mathlib.Core.Logic.{◌≢◌, inl, inr}
use mathlib.Core.Bool.{Bool, true, false}
use mathlib.Core.List.{List, [], ◌∷◌, ◌++◌}
use native.Mathlib.Omega.{arith}
use miniosv_apps.Prelude.Tests.{◌==◌, ==_iff, if◌then◌else◌, Bool-cases}

-- The list ascends strictly from `lo` on, below `hi`, and `P` holds of each entry.
abbrev pub Ascending : (ℕ → Type 0) → ℕ → ℕ → List ℕ → Type 0
Ascending P lo hi [] = lo ≤ hi
Ascending P lo hi (p ∷ ps) = (lo ≤ p) × P p × Ascending P (suc p) hi ps

pub Ascending-widen :
    (P : ℕ → Type 0) (lo hi hi' : ℕ) (ps : List ℕ)
    → hi ≤ hi'
    → Ascending P lo hi ps
    → Ascending P lo hi' ps
Ascending-widen P lo hi hi' [] h a = omega arith
Ascending-widen P lo hi hi' (p ∷ ps) h a = (a.0, a.1, Ascending-widen P (suc p) hi hi' ps h a.2)

pub Ascending-concat :
    (P : ℕ → Type 0) (lo hi x : ℕ) (ps : List ℕ)
    → hi ≤ x
    → P x
    → Ascending P lo hi ps
    → Ascending P lo (suc x) (ps ++ (x ∷ []))
Ascending-concat P lo hi x [] h px a = (omega arith, px, omega arith)
Ascending-concat P lo hi x (p ∷ ps) h px a = (a.0, a.1, Ascending-concat P (suc p) hi x ps h px a.2)

Ascending-le : (P : ℕ → Type 0) (lo hi : ℕ) (ps : List ℕ) → Ascending P lo hi ps → lo ≤ hi
Ascending-le P lo hi [] a = a
Ascending-le P lo hi (p ∷ ps) a = omega (arith, Ascending-le P (suc p) hi ps a.2)

pub Ascending-map :
    (P Q : ℕ → Type 0) (lo hi : ℕ) (ps : List ℕ)
    → ((p : ℕ) → lo ≤ p → p < hi → P p → Q p)
    → Ascending P lo hi ps
    → Ascending Q lo hi ps
Ascending-map P Q lo hi [] f a = a
Ascending-map P Q lo hi (p ∷ ps) f a =
    let below = Ascending-le P (suc p) hi ps a.2 in
    (
      a.0,
      f p a.0 (omega (arith, below)) a.1,
      Ascending-map P Q (suc p) hi ps (λ q l. f q (omega (arith, a.0))) a.2,
    )

abbrev pub contains : ℕ → List ℕ → Bool
contains p [] = false
contains p (x ∷ xs) = if x == p then true else contains p xs

-- Whether two lists have an entry in common.
abbrev pub shares : List ℕ → List ℕ → Bool
shares [] ys = false
shares (x ∷ xs) ys = if contains x ys then true else shares xs ys

contains-Ascending :
    (P : ℕ → Type 0) (lo hi p : ℕ) (xs : List ℕ)
    → ((x : ℕ) → P x → x ≢ p)
    → Ascending P lo hi xs
    → contains p xs ≡ false
contains-Ascending P lo hi p [] apart a = refl
contains-Ascending P lo hi p (x ∷ xs) apart (_, px, a) = elim (Bool-cases (x == p)) [
  | inl e ↦ absurd (apart x px ((==_iff x p).0 e))
  | inr e ↦ rw e (contains-Ascending P (suc x) hi p xs apart a)
]

-- Lists whose entries have properties that exclude each other share no entry.
pub shares-Ascending :
    (P Q : ℕ → Type 0) (lo lo' hi : ℕ) (xs ys : List ℕ)
    → ((x y : ℕ) → P x → Q y → y ≢ x)
    → Ascending P lo hi xs
    → Ascending Q lo' hi ys
    → shares xs ys ≡ false
shares-Ascending P Q lo lo' hi [] ys apart a b = refl
shares-Ascending P Q lo lo' hi (x ∷ xs) ys apart (_, px, a) b =
    rw (contains-Ascending Q lo' hi x ys (λ y qy. apart x y px qy) b)
      (shares-Ascending P Q (suc x) lo' hi xs ys apart a b)
