-- ===== src/Common/Int.antt =====
-- Signed integers over the native numbers: the model of C `int` values and of GMP coefficients
-- (`coef_t`), which are unbounded. `negsuc n` is -(n + 1).
use Prim.Native.Nat.{ℕ, zero, suc, ◌+◌, ◌-◌, ◌*◌, ◌/◌, ◌%◌, ◌≤◌}
use mathlib.Core.Path.{◌≡◌, refl, ap, ◌∙◌}
use mathlib.Core.Logic.{◌↔◌, ◌⊎◌}
use mathlib.Core.Bool.{Bool, true, ◌&&◌}
use native.Mathlib.Decide.{ℕ_discrete}
use native.Mathlib.Omega.{arith}
use polymalys.Common.Tests.{leb, ◌==◌, if◌then◌else◌}

pub data ℤ : Type 0 where
  pos : ℕ → ℤ
  negsuc : ℕ → ℤ

unfoldable pub ℤ_discrete : Discrete ℤ
ℤ_discrete = hlevel ℕ_discrete

abbrev pub pos_part : ℤ → ℕ
pos_part (pos n) = n
pos_part (negsuc n) = 0

abbrev pub neg_part : ℤ → ℕ
neg_part (pos n) = 0
neg_part (negsuc n) = suc n

abbrev pub nat_abs : ℤ → ℕ
nat_abs (pos n) = n
nat_abs (negsuc n) = suc n

-- a - b, as an integer.
abbrev pub sub_ℕ : ℕ → ℕ → ℤ
sub_ℕ a b = if leb b a then pos (a - b) else negsuc (b - a - 1)

abbrev pub neg_ℤ : ℤ → ℤ
neg_ℤ (pos zero) = pos zero
neg_ℤ (pos (suc n)) = negsuc n
neg_ℤ (negsuc n) = pos (suc n)

infixl 65 ◌+ℤ◌ ◌-ℤ◌
infixl 70 ◌*ℤ◌
infix 50 ◌≤ℤ◌
unfoldable pub ◌+ℤ◌ : ℤ → ℤ → ℤ
a +ℤ b = sub_ℕ (pos_part a + pos_part b) (neg_part a + neg_part b)

unfoldable pub ◌-ℤ◌ : ℤ → ℤ → ℤ
a -ℤ b = sub_ℕ (pos_part a + neg_part b) (neg_part a + pos_part b)

unfoldable pub ◌*ℤ◌ : ℤ → ℤ → ℤ
pos m *ℤ pos n = pos (m * n)
pos m *ℤ negsuc n = neg_ℤ (pos (m * suc n))
negsuc m *ℤ pos n = neg_ℤ (pos (suc m * n))
negsuc m *ℤ negsuc n = pos (suc m * suc n)

-- C division: the quotient rounds towards zero, and the remainder has the dividend's sign.
unfoldable pub tdiv : ℤ → ℤ → ℤ
tdiv (pos m) (pos n) = pos (m / n)
tdiv (pos m) (negsuc n) = neg_ℤ (pos (m / suc n))
tdiv (negsuc m) (pos n) = neg_ℤ (pos (suc m / n))
tdiv (negsuc m) (negsuc n) = pos (suc m / suc n)

unfoldable pub tmod : ℤ → ℤ → ℤ
tmod (pos m) b = pos (m % nat_abs b)
tmod (negsuc m) b = neg_ℤ (pos (suc m % nat_abs b))

abbrev pub ◌≤ℤ◌ : ℤ → ℤ → Type 0
a ≤ℤ b = pos_part a + neg_part b ≤ pos_part b + neg_part a

abbrev pub leb_ℤ : ℤ → ℤ → Bool
leb_ℤ a b = leb (pos_part a + neg_part b) (pos_part b + neg_part a)

abbrev pub eqb_ℤ : ℤ → ℤ → Bool
eqb_ℤ a b = (pos_part a == pos_part b) && (neg_part a == neg_part b)

pub eqb_ℤ_iff : (a b : ℤ) → (eqb_ℤ a b ≡ true) ↔ (a ≡ b)
eqb_ℤ_iff a b = ground arith

-- With one lemma for each operation `omega` works with the operations shut.
pub +ℤ_parts :
    (a b : ℤ)
    → pos_part (a +ℤ b) + neg_part a + neg_part b ≡ neg_part (a +ℤ b) + pos_part a + pos_part b
unfolding ◌+ℤ◌
+ℤ_parts a b = ground arith

pub -ℤ_parts :
    (a b : ℤ)
    → pos_part (a -ℤ b) + neg_part a + pos_part b ≡ neg_part (a -ℤ b) + pos_part a + neg_part b
unfolding ◌-ℤ◌
-ℤ_parts a b = ground arith

pub eq_of_parts : (a b : ℤ) → pos_part a + neg_part b ≡ pos_part b + neg_part a → a ≡ b
eq_of_parts a b h = ground arith

pub ruleset int_laws = (arith, +ℤ_parts, -ℤ_parts, eq_of_parts)

pub pos_part-*ℤ : (a b : ℤ) → pos_part (a *ℤ b) ≡ pos_part a * pos_part b + neg_part a * neg_part b
unfolding ◌*ℤ◌
pos_part-*ℤ a b = ground arith

pub neg_part-*ℤ : (a b : ℤ) → neg_part (a *ℤ b) ≡ pos_part a * neg_part b + neg_part a * pos_part b
unfolding ◌*ℤ◌
neg_part-*ℤ a b = ground arith

pub ruleset mul_laws = (pos_part-*ℤ, neg_part-*ℤ)

pub +ℤ_comm : (a b : ℤ) → a +ℤ b ≡ b +ℤ a
+ℤ_comm a b = omega int_laws

pub +ℤ_assoc : (a b c : ℤ) → a +ℤ b +ℤ c ≡ a +ℤ (b +ℤ c)
+ℤ_assoc a b c = omega int_laws

pub +ℤ_interchange : (a b c d : ℤ) → (a +ℤ b) +ℤ (c +ℤ d) ≡ (a +ℤ c) +ℤ (b +ℤ d)
+ℤ_interchange a b c d = omega int_laws

pub +ℤ-zero : (a : ℤ) → a +ℤ pos 0 ≡ a
+ℤ-zero a = omega int_laws

pub zero-+ℤ : (a : ℤ) → pos 0 +ℤ a ≡ a
zero-+ℤ a = omega int_laws

pub *ℤ_comm : (a b : ℤ) → a *ℤ b ≡ b *ℤ a
*ℤ_comm a b = eq_of_parts _ _ (simp mul_laws (omega arith))

pub *ℤ_assoc : (a b c : ℤ) → a *ℤ b *ℤ c ≡ a *ℤ (b *ℤ c)
*ℤ_assoc a b c = eq_of_parts _ _ (simp mul_laws (omega arith))

pub +ℤ-*ℤ : (a b c : ℤ) → (a +ℤ b) *ℤ c ≡ a *ℤ c +ℤ b *ℤ c
+ℤ-*ℤ a b c = eq_of_parts _ _ (
    simp mul_laws (
      omega (
        arith,
        simp mul_laws at (+ℤ_parts (a *ℤ c) (b *ℤ c)),
        ap (λ (t : ℕ). t * pos_part c) (+ℤ_parts a b),
        ap (λ (t : ℕ). t * neg_part c) (+ℤ_parts a b),
      )))

pub *ℤ-+ℤ : (a b c : ℤ) → a *ℤ (b +ℤ c) ≡ a *ℤ b +ℤ a *ℤ c
*ℤ-+ℤ a b c = simp (*ℤ_comm a (b +ℤ c), +ℤ-*ℤ b c a, *ℤ_comm b a, *ℤ_comm c a)

pub zero-*ℤ : (a : ℤ) → pos 0 *ℤ a ≡ pos 0
zero-*ℤ a = eq_of_parts _ _ (simp mul_laws (omega arith))

pub *ℤ-zero : (a : ℤ) → a *ℤ pos 0 ≡ pos 0
*ℤ-zero a = eq_of_parts _ _ (simp mul_laws (omega arith))

pub one-*ℤ : (a : ℤ) → pos 1 *ℤ a ≡ a
one-*ℤ a = eq_of_parts _ _ (simp mul_laws (omega arith))

pub minus_one-*ℤ : (a b : ℤ) → a +ℤ negsuc 0 *ℤ b ≡ a -ℤ b
minus_one-*ℤ a b = eq_of_parts _ _ (
    omega (
      arith,
      +ℤ_parts a (negsuc 0 *ℤ b),
      -ℤ_parts a b,
      pos_part-*ℤ (negsuc 0) b,
      neg_part-*ℤ (negsuc 0) b,
    ))

pub ≤ℤ_total : (a b : ℤ) → (a ≤ℤ b) ⊎ (b ≤ℤ a)
≤ℤ_total a b = omega arith

mixed_signs : pos 3 -ℤ pos 10 *ℤ negsuc 1 ≡ pos 23
unfolding ◌-ℤ◌ ◌*ℤ◌
mixed_signs = refl

pub -ℤ-*ℤ : (a b c : ℤ) → (a -ℤ b) *ℤ c ≡ a *ℤ c -ℤ b *ℤ c
-ℤ-*ℤ a b c = eq_of_parts _ _ (
    simp mul_laws (
      omega (
        arith,
        simp mul_laws at (-ℤ_parts (a *ℤ c) (b *ℤ c)),
        ap (λ (t : ℕ). t * pos_part c) (-ℤ_parts a b),
        ap (λ (t : ℕ). t * neg_part c) (-ℤ_parts a b),
      )))

pub *ℤ--ℤ : (a b c : ℤ) → a *ℤ (b -ℤ c) ≡ a *ℤ b -ℤ a *ℤ c
*ℤ--ℤ a b c = simp (*ℤ_comm a (b -ℤ c), -ℤ-*ℤ b c a, *ℤ_comm b a, *ℤ_comm c a)

pub *ℤ-one : (a : ℤ) → a *ℤ pos 1 ≡ a
*ℤ-one a = *ℤ_comm a (pos 1) ∙ one-*ℤ a

pub nat_abs-tmod : (a b : ℤ) → nat_abs (tmod a b) ≡ nat_abs a % nat_abs b
unfolding tmod
nat_abs-tmod (pos m) b = refl
nat_abs-tmod (negsuc m) b = ground arith

pub nat_abs_zero : (a : ℤ) → nat_abs a ≡ 0 → a ≡ pos 0
nat_abs_zero a h = ground arith

neg-*ℤ-negsuc : (q n : ℕ) → neg_ℤ (pos q) *ℤ negsuc n ≡ pos (q * suc n)
unfolding ◌*ℤ◌
neg-*ℤ-negsuc zero n = ground arith
neg-*ℤ-negsuc (suc q) n = refl

neg-*ℤ-pos : (q n : ℕ) → neg_ℤ (pos q) *ℤ pos n ≡ neg_ℤ (pos (q * n))
unfolding ◌*ℤ◌
neg-*ℤ-pos zero n = ground arith
neg-*ℤ-pos (suc q) n = refl

pos-sub : (m k : ℕ) → k ≤ m → pos m -ℤ pos k ≡ pos (m - k)
unfolding ◌-ℤ◌
pos-sub m k h = ground arith

neg-sub : (m k : ℕ) → k ≤ suc m → negsuc m -ℤ neg_ℤ (pos k) ≡ neg_ℤ (pos (suc m - k))
unfolding ◌-ℤ◌
neg-sub m zero h = ground arith
neg-sub m (suc k) h = ground arith

-- `a == (a / b) * b + a % b`, for every sign
pub tdiv-tmod : (a b : ℤ) → a -ℤ tdiv a b *ℤ b ≡ tmod a b
unfolding tdiv tmod
tdiv-tmod (pos m) (pos n) =
    unfold ◌*ℤ◌ in (pos-sub m (m / n * n) (omega arith) ∙ ap pos (omega arith))
tdiv-tmod (pos m) (negsuc n) =
    rw (neg-*ℤ-negsuc (m / suc n) n)
      (pos-sub m (m / suc n * suc n) (omega arith) ∙ ap pos (omega arith))
tdiv-tmod (negsuc m) (pos n) =
    rw (neg-*ℤ-pos (suc m / n) n)
      (neg-sub m (suc m / n * n) (omega arith) ∙ ap (λ (t : ℕ). neg_ℤ (pos t)) (omega arith))
tdiv-tmod (negsuc m) (negsuc n) =
    unfold ◌*ℤ◌ in
    (neg-sub m (suc m / suc n * suc n) (omega arith) ∙ ap (λ (t : ℕ). neg_ℤ (pos t)) (omega arith))
