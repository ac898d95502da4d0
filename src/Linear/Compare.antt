-- ===== src/Linear/Compare.antt =====
-- The constraint-building operators of poly_PolyWrap.cpp say what their names say.
use polymalys.Common.{◌≡◌, arith, ◌↔◌, sym, ◌∙◌, ap}
use polymalys.Common.Int.{
  ℤ, pos, ◌+ℤ◌, ◌-ℤ◌, ◌≤ℤ◌, pos_part, neg_part, int_laws, -ℤ_parts, zero-+ℤ, one-*ℤ,
}
use polymalys.Linear.{
  WVar, WLinExpr, WCons, CType, cons_eq, cons_ge, of_cst, of_var, ◌+ₗ◌, cons_equal, cons_at_least,
  cons_at_most, cons_below, cons_above,
}
use polymalys.Linear.Value.{Valuation, value, sum_coefs, IsExpr, value-+ₗ, value--ₗ, +ₗ-IsExpr}

-- A valuation satisfies `0 = expr` or `0 ≤ expr`.
abbrev SatType : CType → ℤ → Type 0
SatType cons_eq v = v ≡ pos 0
SatType cons_ge v = pos 0 ≤ℤ v

abbrev pub Sat : Valuation → WCons → Type 0
Sat ρ c = SatType c.ctype (value ρ c.expr)

pub value-of_cst : (ρ : Valuation) (c : ℤ) → value ρ (of_cst c) ≡ c
unfolding value sum_coefs of_cst
value-of_cst ρ c = zero-+ℤ c

pub value-of_var : (ρ : Valuation) (v : WVar) → value ρ (of_var v) ≡ ρ v
unfolding value sum_coefs of_var
value-of_var ρ v = rw (one-*ℤ (ρ v)) (twice_zero (ρ v))
  where
    twice_zero : (a : ℤ) → a +ℤ pos 0 +ℤ pos 0 ≡ a
    twice_zero a = omega int_laws

difference_zero : (x y d : ℤ) → d ≡ x -ℤ y → (d ≡ pos 0) ↔ (x ≡ y)
difference_zero x y d e = (
  λ z. omega (int_laws, -ℤ_parts x y, ap pos_part (sym e ∙ z), ap neg_part (sym e ∙ z)),
  λ z. e ∙ rw z (omega int_laws),
)

difference_nonneg : (x y d : ℤ) → d ≡ x -ℤ y → (pos 0 ≤ℤ d) ↔ (y ≤ℤ x)
difference_nonneg x y d e =
    rw e (λ h. omega (arith, -ℤ_parts x y), λ h. omega (arith, -ℤ_parts x y))

module _ (ρ : Valuation) (a b : WLinExpr) (h : IsExpr a) (k : IsExpr b) where
  pub Sat-equal : Sat ρ (cons_equal a b) ↔ (value ρ a ≡ value ρ b)
  unfolding cons_equal
  Sat-equal = difference_zero (value ρ a) (value ρ b) _ (value--ₗ ρ a b h k)

  pub Sat-at_least : Sat ρ (cons_at_least a b) ↔ (value ρ b ≤ℤ value ρ a)
  unfolding cons_at_least
  Sat-at_least = difference_nonneg (value ρ a) (value ρ b) _ (value--ₗ ρ a b h k)

pub of_cst-IsExpr : (c : ℤ) → IsExpr (of_cst c)
unfolding of_cst
of_cst-IsExpr c = tt

pub of_var-IsExpr : (v : WVar) → IsExpr (of_var v)
unfolding of_var
of_var-IsExpr v = (tt, tt)

value-plus_one :
    (ρ : Valuation) (a : WLinExpr) → IsExpr a → value ρ (a +ₗ of_cst (pos 1)) ≡ value ρ a +ℤ pos 1
value-plus_one ρ a h = rw (value-+ₗ ρ a (of_cst (pos 1)) h (of_cst-IsExpr _), value-of_cst)

-- What each comparison of two expressions says about their values.
pub record Comparisons (ρ : Valuation) (a b : WLinExpr) : Type 0 where
  pub equal : Sat ρ (cons_equal a b) ↔ (value ρ a ≡ value ρ b)
  pub at_least : Sat ρ (cons_at_least a b) ↔ (value ρ b ≤ℤ value ρ a)
  pub at_most : Sat ρ (cons_at_most a b) ↔ (value ρ a ≤ℤ value ρ b)
  pub below : Sat ρ (cons_below a b) ↔ (value ρ a +ℤ pos 1 ≤ℤ value ρ b)
  pub above : Sat ρ (cons_above a b) ↔ (value ρ b +ℤ pos 1 ≤ℤ value ρ a)

-- For expressions over ordered maps, a valuation satisfies the constraint built by `==`, `>=`,
-- `<=`, `<` and `>` exactly when the values of the two sides compare so; the strict ones compare
-- with 1 added to the smaller side.
pub Sat-Comparisons : (ρ : Valuation) (a b : WLinExpr) → IsExpr a → IsExpr b → Comparisons ρ a b
unfolding cons_at_most cons_below cons_above
Sat-Comparisons ρ a b h k = record {
  equal = Sat-equal ρ a b h k;
  at_least = Sat-at_least ρ a b h k;
  at_most = Sat-at_least ρ b a k h;
  below = rw (value-plus_one ρ a h) at (Sat-at_least ρ b (a +ₗ of_cst (pos 1)) k (+ₗ-IsExpr a _));
  above = rw (value-plus_one ρ b k) at (Sat-at_least ρ a (b +ₗ of_cst (pos 1)) h (+ₗ-IsExpr b _));
}
