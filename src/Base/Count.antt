-- ===== src/Base/Count.antt =====
-- How often an item stands in a list, and lists up to their order.
use Prim.Native.Nat.{ℕ, ◌+◌}
use mathlib.Core.Path.{◌≡◌}
use mathlib.Core.List.{List, [], ◌∷◌, ◌++◌}
use mathlib.Core.Quot
use mathlib.Core.Quot.{Quot, Quot-set}
use native.Mathlib.Omega.{arith}
use libp2p_experiment.Base.Equality.{Eq, ◌==◌, if◌then◌else◌}

module _ {A : Type 0} ⦃e : Eq A⦄ where
  abbrev pub count : A → List A → ℕ
  count x [] = 0
  count x (y ∷ ys) = (if x == y then 1 else 0) + count x ys

  pub count-append : (x : A) (ys zs : List A) → count x (ys ++ zs) ≡ count x ys + count x zs
  count-append x [] zs = omega arith
  count-append x (y ∷ ys) zs = omega (arith, count-append x ys zs)

  -- The same items, each as often.
  abbrev pub SameItems : List A → List A → Type 0
  SameItems xs ys = (a : A) → count a xs ≡ count a ys

-- A list of which the order is forgotten.
abbrev pub Bag : (A : Type 0) → ⦃e : Eq A⦄ → Type 0
Bag A = Quot {α = List A} SameItems

module _ {A : Type 0} ⦃e : Eq A⦄ where
  pub SameItems-cons : (x : A) (ys zs : List A) → SameItems ys zs → SameItems (x ∷ ys) (x ∷ zs)
  SameItems-cons x ys zs h a = omega (arith, h a)

  -- One more item.
  unfoldable pub put_in : A → Bag A → Bag A
  put_in x =
      Quot.lift Quot-set (λ ys. Quot.mk (x ∷ ys)) (λ ys zs h. Quot.sound (SameItems-cons x ys zs h))
