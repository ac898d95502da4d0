-- ===== src/Common/Count.antt =====
-- How often a number occurs in a list, and how many elements are below a bound: a list without
-- repetitions has at most n elements below n.
use Prim.Native.Nat.{ℕ, zero, suc, ◌+◌, ◌-◌, ◌≤◌, ◌<◌}
use mathlib.Core.Path.{◌≡◌, refl, subst}
use mathlib.Core.List.{List, [], ◌∷◌, ◌++◌}
use native.Mathlib.Omega.{arith}
use polymalys.Common.Tests.{ltb, ◌==◌, if◌then◌else◌}
use polymalys.Common.Lists.{length, All}

unfoldable pub occ : ℕ → List ℕ → ℕ
occ d [] = 0
occ d (x ∷ xs) = if x == d then suc (occ d xs) else occ d xs

unfoldable pub below : ℕ → List ℕ → ℕ
below n [] = 0
below n (x ∷ xs) = if ltb x n then suc (below n xs) else below n xs

-- no number occurs twice
abbrev pub IsUnique : List ℕ → Type 0
IsUnique xs = (d : ℕ) → occ d xs ≤ 1

pub below_suc : (n : ℕ) (xs : List ℕ) → below (suc n) xs ≡ below n xs + occ n xs
unfolding below occ
below_suc n [] = refl
below_suc n (x ∷ xs) = ground (arith, below_suc n xs)

pub below_zero : (xs : List ℕ) → below 0 xs ≡ 0
unfolding below
below_zero [] = refl
below_zero (x ∷ xs) = ground (arith, below_zero xs)

-- the elements between two bounds
pub below_gap : (k n m : ℕ) (xs : List ℕ) → m ≡ n + k → IsUnique xs → below m xs ≤ below n xs + k
below_gap zero n m xs e h =
    subst (λ t. below t xs ≤ below n xs + 0) (let p : n ≡ m = omega arith in p) (omega arith)
below_gap (suc k) n m xs e h =
    let p : suc (n + k) ≡ m = omega arith in
    subst (λ t. below t xs ≤ below n xs + suc k) p
      (omega (arith, below_gap k n (n + k) xs refl h, below_suc (n + k) xs, h (n + k)))

pub below-le : (n : ℕ) (xs : List ℕ) → IsUnique xs → below n xs ≤ n
below-le n xs h = omega (arith, below_gap n 0 n xs (omega arith) h, below_zero xs)

pub below_bounded : (n : ℕ) (xs : List ℕ) → All (λ x. x < n) xs → below n xs ≡ length xs
unfolding below
below_bounded n [] h = refl
below_bounded n (x ∷ xs) h = ground (arith, below_bounded n xs)

-- an element that is missing makes room for one more
pub below_step :
    (d n : ℕ) (xs : List ℕ) → IsUnique xs → occ d xs ≡ 0 → d < n → below n xs + d < below d xs + n
below_step d n xs h m l =
    omega (arith, below_gap (n - suc d) (suc d) n xs (omega arith) h, below_suc d xs)

pub occ-append : (d : ℕ) (xs ys : List ℕ) → occ d (xs ++ ys) ≡ occ d xs + occ d ys
unfolding occ
occ-append d [] ys = omega arith
occ-append d (x ∷ xs) ys = ground (arith, occ-append d xs ys)

-- a list without repetitions below a bound is no longer than the bound
pub length_le_bound : (n : ℕ) (xs : List ℕ) → IsUnique xs → All (λ x. x < n) xs → length xs ≤ n
length_le_bound n xs h a = omega (arith, below_bounded n xs a, below-le n xs h)

-- what holds of each element that occurs holds of all
pub All-occ : (P : ℕ → Type 0) (xs : List ℕ) → ((x : ℕ) → 1 ≤ occ x xs → P x) → All P xs
unfolding occ
All-occ P [] h = tt
All-occ P (x ∷ xs) h = (h x (ground arith), All-occ P xs (λ y l. h y (ground arith)))
