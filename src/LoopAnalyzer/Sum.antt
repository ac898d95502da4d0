-- ===== src/LoopAnalyzer/Sum.antt =====
-- The sums that a linear constraint over the loop's variable and the parameters stands for.
use polymalys.Common.{
  ℕ, ◌<◌, zero, suc, ap₂, Bool, true, false, some, [], ◌∷◌, ◌≡◌, refl, ap, subst, ◌∙◌,
  if◌then◌else◌, ◌==◌, arith, All, Bool-cases, inl, inr,
}
use polymalys.Common.Int.{
  pos_part, neg_part, pos_part-*ℤ, neg_part-*ℤ, ℤ, pos, negsuc, neg_ℤ, ◌+ℤ◌, ◌-ℤ◌, ◌*ℤ◌, +ℤ_assoc,
  int_laws,
}
use polymalys.Common.StdMap.{StdMap, find, IsMap}
use polymalys.Linear.Value.{Valuation, sum_coefs}

-- the terms of the parameters; guid 0 is the variable that counts the iterations
unfoldable pub sum_params : Valuation → StdMap ℤ → ℤ
sum_params ρ [] = pos 0
sum_params ρ ((g, c) ∷ m) = if g == 0 then sum_params ρ m else c *ℤ ρ g +ℤ sum_params ρ m

pub regroup :
    (a t s : ℤ) (b : Bool) → (if b then a else a +ℤ t) +ℤ s ≡ a +ℤ (if b then s else t +ℤ s)
regroup a t s true = refl
regroup a t s false = +ℤ_assoc a t s

sum_params_above :
    (ρ : Valuation) (m : StdMap ℤ) → All (λ (f : ℕ × ℤ). 0 < f.0) m → sum_coefs ρ m ≡ sum_params ρ m
unfolding sum_coefs sum_params
sum_params_above ρ [] a = refl
sum_params_above ρ ((g, c) ∷ m) a = ground (arith, sum_params_above ρ m)

left_comm : (a b c : ℤ) → a +ℤ (b +ℤ c) ≡ b +ℤ (a +ℤ c)
left_comm a b c = omega int_laws

-- a sum over the parameters and the loop's variable
pub value_split :
    (ρ : Valuation) (m : StdMap ℤ) (c : ℤ)
    → IsMap m
    → find 0 m ≡ some c
    → sum_coefs ρ m ≡ c *ℤ ρ 0 +ℤ sum_params ρ m
unfolding find sum_coefs sum_params
value_split ρ [] c h e = absurd (ground (arith, e))
value_split ρ ((g, d) ∷ m) c h e = elim (Bool-cases (g == 0)) [
  | inl z ↦
      let zero_key : g ≡ 0 = ground arith in
      let same : d ≡ c = ground (arith, e) in
      rw z (
        ap₂ (λ x y. x +ℤ y) (ap₂ (λ x k. x *ℤ ρ k) same zero_key)
          (sum_params_above ρ m (subst (λ k. All (λ (f : ℕ × ℤ). k < f.0) m) zero_key h.0)))
  | inr z ↦ rw z (
      ap (λ x. d *ℤ ρ g +ℤ x) (value_split ρ m c h.1 (ground (arith, e)))
      ∙ left_comm (d *ℤ ρ g) (c *ℤ ρ 0) (sum_params ρ m))
]

pos_part-neg_ℤ : (d : ℤ) → (pos_part (neg_ℤ d) ≡ neg_part d) × (neg_part (neg_ℤ d) ≡ pos_part d)
pos_part-neg_ℤ (pos zero) = (refl, refl)
pos_part-neg_ℤ (pos (suc n)) = (refl, refl)
pos_part-neg_ℤ (negsuc n) = (refl, refl)

-- a product with the negated factor
pub neg_ℤ-*ℤ :
    (d r : ℤ)
    → (pos_part (neg_ℤ d *ℤ r) ≡ neg_part (d *ℤ r)) × (neg_part (neg_ℤ d *ℤ r) ≡ pos_part (d *ℤ r))
neg_ℤ-*ℤ d r =
    let (p, n) = pos_part-neg_ℤ d in
    (
      rw (pos_part-*ℤ (neg_ℤ d) r, neg_part-*ℤ d r, p, n) (omega arith),
      rw (neg_part-*ℤ (neg_ℤ d) r, pos_part-*ℤ d r, p, n) (omega arith),
    )

pub move_over :
    (x s c y : ℤ)
    → (pos_part y ≡ neg_part x) × (neg_part y ≡ pos_part x)
    → x +ℤ s +ℤ c ≡ pos 0 +ℤ s +ℤ c -ℤ y
move_over x s c y h = omega int_laws
