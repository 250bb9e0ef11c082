-- ===== src/Prelude/Sums.antt =====
-- Sums of lists of numbers.
use Prim.Native.Nat.{ℕ, ◌+◌}
use mathlib.Core.Path.{◌≡◌, refl, ap, sym, ◌∙◌}
use mathlib.Core.List.{List, [], ◌∷◌, ◌++◌, Perm, foldr}
use mathlib.Core.List.Perm
use native.Mathlib.Omega.{arith}

unfoldable pub sum : List ℕ → ℕ
sum [] = 0
sum (x ∷ xs) = x + sum xs

pub sum-append : (xs ys : List ℕ) → sum (xs ++ ys) ≡ sum xs + sum ys
unfolding sum
sum-append [] ys = omega arith
sum-append (x ∷ xs) ys = omega (arith, sum-append xs ys)

sum-eq-foldr : (xs : List ℕ) → foldr ◌+◌ 0 xs ≡ sum xs
unfolding sum
sum-eq-foldr [] = refl
sum-eq-foldr (x ∷ xs) = ap (λ s. x + s) (sum-eq-foldr xs)

-- The order of the summands does not matter.
pub sum-perm : {xs ys : List ℕ} → Perm xs ys → sum xs ≡ sum ys
sum-perm {xs} {ys} p =
    sym (sum-eq-foldr xs) ∙ Perm.foldr-eq (hlevel) ◌+◌ (λ a b c. omega arith) p 0 ∙ sum-eq-foldr ys
