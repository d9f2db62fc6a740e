-- ===== src/Common/Counting.antt =====
-- Sums of a weight over a list.
use Prim.Native.Nat.{ℕ, zero, suc, ◌+◌, ◌<◌}
use mathlib.Core.Path.{◌≡◌, refl, ap}
use mathlib.Core.List.{List, [], ◌∷◌, ◌++◌}
use native.Mathlib.Omega.{arith}
use mutty.Common.Arrays.{length, get_or, set, replicate}

module _ {ℓ} {A : Type ℓ} where
  abbrev pub tally : (A → ℕ) → List A → ℕ
  tally f [] = 0
  tally f (x ∷ xs) = f x + tally f xs

  -- A write, with what stood there before.
  pub tally-set :
      (f : A → ℕ) (xs : List A) (i : ℕ) (d old new : A)
      → i < length xs
      → get_or xs i d ≡ old
      → tally f (set xs i new) + f old ≡ tally f xs + f new
  tally-set f [] i d old new h e = absurd (omega arith)
  tally-set f (x ∷ xs) zero d old new h e = omega (arith, ap f e)
  tally-set f (x ∷ xs) (suc i) d old new h e =
      omega (arith, tally-set f xs i d old new (omega (arith, h)) e)

  pub tally-append : (f : A → ℕ) (xs ys : List A) → tally f (xs ++ ys) ≡ tally f xs + tally f ys
  tally-append f [] ys = omega arith
  tally-append f (x ∷ xs) ys = omega (arith, tally-append f xs ys)

  pub tally-replicate : (f : A → ℕ) (n : ℕ) (x : A) → f x ≡ 0 → tally f (replicate n x) ≡ 0
  tally-replicate f zero x e = refl
  tally-replicate f (suc n) x e = omega (arith, e, tally-replicate f n x e)
