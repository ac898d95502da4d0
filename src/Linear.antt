-- ===== src/Linear.antt =====
-- Linear expressions and constraints: WVar, WLinExpr and WCons of include/PolyWrap.h, with the
-- operators of poly_PolyWrap.cpp. `coefs` is the `std::map<guid_t, coef_t>`, and a coefficient is
-- an integer of any size.
pub mod Value
pub mod Compare
pub mod Fresh
use polymalys.Common.{ℕ, Bool, Option, [], ◌∷◌, if◌then◌else◌, none, some, ◌≡◌, refl}
use polymalys.Common.Int.{ℤ, pos, negsuc, ◌+ℤ◌, ◌*ℤ◌, eqb_ℤ}
use polymalys.Common.StdMap.{StdMap, find, put, has}

-- A variable is its guid.
abbrev pub WVar : Type 0
WVar = ℕ

pub record WLinExpr : Type 0 where
  pub coefs : StdMap ℤ
  pub cst : ℤ

pub data CType : Type 0 where
  cons_eq cons_ge : CType

pub record WCons : Type 0 where
  pub ctype : CType
  pub expr : WLinExpr

-- WLinExpr(const coef_t c)
unfoldable pub of_cst : ℤ → WLinExpr
of_cst c = record { coefs = []; cst = c }

-- WLinExpr(const WVar &v)
unfoldable pub of_var : WVar → WLinExpr
of_var v = record { coefs = (v, pos 1) ∷ []; cst = pos 0 }

-- `none` is the exception of `std::map::at`
unfoldable pub coefficient : WLinExpr → WVar → Option ℤ
coefficient e v = find v e.coefs

unfoldable pub has_var : WLinExpr → WVar → Bool
has_var e v = has v e.coefs

-- `v += b.coefs.at(it->first)` where `b` has the variable
plus_other : StdMap ℤ → ℕ → ℤ → ℤ
plus_other b g c = elim (find g b) [ some d ↦ c +ℤ d | none ↦ c ]

-- the first loop of operator+: the variables of `a`, zero sums left out
add_left : StdMap ℤ → StdMap ℤ → StdMap ℤ → StdMap ℤ
unfolding plus_other
add_left b [] res = res
add_left b ((g, c) ∷ a) res =
    let v = plus_other b g c in add_left b a (if eqb_ℤ v (pos 0) then res else put g v res)

-- its second loop: the variables of `b` alone
add_right : StdMap ℤ → StdMap ℤ → StdMap ℤ → StdMap ℤ
add_right a [] res = res
add_right a ((g, c) ∷ b) res = add_right a b (if has g a then res else put g c res)

infixl 65 ◌+ₗ◌ ◌-ₗ◌
infixl 70 ◌*ₗ◌
unfoldable pub ◌+ₗ◌ : WLinExpr → WLinExpr → WLinExpr
unfolding add_left add_right
a +ₗ b = record {
  coefs = add_right a.coefs b.coefs (add_left b.coefs a.coefs []);
  cst = a.cst +ℤ b.cst;
}

-- the loop of operator*
scale : StdMap ℤ → ℤ → StdMap ℤ → StdMap ℤ
scale [] b res = res
scale ((g, c) ∷ a) b res = scale a b (put g (c *ℤ b) res)

unfoldable pub ◌*ₗ◌ : WLinExpr → ℤ → WLinExpr
unfolding scale
a *ₗ b =
    if eqb_ℤ b (pos 0)
    then record { coefs = []; cst = pos 0 }
    else record { coefs = scale a.coefs b []; cst = a.cst *ℤ b }

unfoldable pub ◌-ₗ◌ : WLinExpr → WLinExpr → WLinExpr
a -ₗ b = a +ₗ b *ₗ negsuc 0

-- `a == b`, `a >= b`, `a <= b`, `a < b` and `a > b` build constraints.
unfoldable pub cons_equal : WLinExpr → WLinExpr → WCons
cons_equal a b = record { ctype = cons_eq; expr = a -ₗ b }

unfoldable pub cons_at_least : WLinExpr → WLinExpr → WCons
cons_at_least a b = record { ctype = cons_ge; expr = a -ₗ b }

unfoldable pub cons_at_most : WLinExpr → WLinExpr → WCons
unfolding cons_at_least
cons_at_most a b = cons_at_least b a

unfoldable pub cons_below : WLinExpr → WLinExpr → WCons
unfolding cons_at_most of_cst
cons_below a b = cons_at_most (a +ₗ of_cst (pos 1)) b

unfoldable pub cons_above : WLinExpr → WLinExpr → WCons
unfolding cons_at_least of_cst
cons_above a b = cons_at_least a (b +ₗ of_cst (pos 1))

-- 2x + 3 - (x + y), with guids 0 and 1
sample :
    of_var 0 *ₗ pos 2 +ₗ of_cst (pos 3) -ₗ (of_var 0 +ₗ of_var 1)
    ≡ record { coefs = (0, pos 1) ∷ (1, negsuc 0) ∷ []; cst = pos 3 }
unfolding of_var of_cst ◌+ₗ◌ ◌*ₗ◌ ◌-ₗ◌ find has put plus_other ◌+ℤ◌ ◌*ℤ◌
sample = refl
