-- ===== src/PplDomain/Delta.antt =====
-- What the analysis reads out of the constraints of a polyhedron: WPoly::back_translate of
-- poly_PolyWrap.cpp, and delta, mustSupseteq and shouldFold of poly_PPLDomain.cpp, which compare the
-- addresses of arrays. PPL's constraint systems are not part of the repository and enter as an
-- argument.
use polymalys.Common.{
  ℕ, zero, suc, ◌-◌, ◌%◌, ◌^◌, Bool, true, false, not, ◌&&◌, ◌||◌, Option, none, some, List, [],
  ◌∷◌, if◌then◌else◌, ◌==◌,
}
use polymalys.Common.Int.{ℤ, pos, negsuc, neg_ℤ, eqb_ℤ, leb_ℤ, tdiv, tmod}
use polymalys.Common.StdMap.{StdMap, find, put}
use polymalys.Linear.{
  WVar, WLinExpr, WCons, cons_eq, cons_ge, of_var, of_cst, coefficient, cons_equal, cons_at_least,
  cons_at_most, ◌+ₗ◌, ◌-ₗ◌, ◌*ₗ◌,
}
use polymalys.Ppl.{Ppl}
use polymalys.WPoly.{WPoly, add_constraint, must_hold, filter_lambda}
use polymalys.WPoly.Combine.{combine}
use polymalys.Ident.{no_step}
use polymalys.PplDomain.{PplDomain}
use polymalys.PplDomain.Memory.{both_hold}
use polymalys.PplDomain.SemInst.{to_int32}

-- STEP_BOT
abbrev pub step_bot : ℤ
step_bot = pos 0

-- a PPL::Constraint: is_equality, the coefficient of a dimension and inhomogeneous_term
pub record Row : Type 0 where
  pub is_equality : Bool
  pub coef : ℕ → ℤ
  pub term : ℤ

-- what else is asked of PPL: minimized_constraints, the equality of polyhedra, and get_si of a number
pub record Solver (P : Ppl) : Type 0 where
  pub minimized : P.Poly → List Row
  pub same_poly : P.Poly → P.Poly → Bool
  pub get_si : ℤ → ℤ

-- the conversion of a `long` to `int`
unfoldable pub to_int : ℤ → ℤ
unfolding to_int32
to_int (pos n) = to_int32 (n % 2 ^ 32)
to_int (negsuc n) = to_int32 (2 ^ 32 - 1 - n % 2 ^ 32)

-- invMap
unfoldable pub inv_map : StdMap ℕ → StdMap ℕ → StdMap ℕ
inv_map [] res = res
inv_map ((g, d) ∷ m) res = inv_map m (put d g res)

-- the loop of back_translate from dimension `i` on; `none` is the exception of `inv.at`
unfoldable pub back_terms : StdMap ℕ → Row → ℕ → ℕ → WLinExpr → Option WLinExpr
unfolding of_var ◌+ₗ◌ ◌*ₗ◌
back_terms inv r zero i e = some e
back_terms inv r (suc n) i e =
    let skip = back_terms inv r n (suc i) e in
    if eqb_ℤ (r.coef i) (pos 0) then skip else elim (find i inv) [
      | none ↦ none
      | some g ↦ back_terms inv r n (suc i) (e +ₗ of_var g *ₗ r.coef i)
    ]

-- `c.has_var(v)` and then `c.coefficient(v)`, which is taken as 0 where the variable is missing
unfoldable pub coef_of : WCons → WVar → ℤ
unfolding coefficient
coef_of c v = elim (coefficient c.expr v) [ none ↦ pos 0 | some k ↦ k ]

unfoldable pub equality : WCons → Bool
equality c = elim c.ctype [ cons_eq ↦ true | cons_ge ↦ false ]

-- an equation with the coefficients of the two addresses
unfoldable pub relates : WCons → WVar → WVar → Bool
unfolding equality coef_of
relates c v1 v2 =
    equality c && (not (eqb_ℤ (coef_of c v1) (pos 0)) && not (eqb_ℤ (coef_of c v2) (pos 0)))

-- the two tests in the loop of delta
unfoldable pub strided : WCons → WVar → WVar → WVar → ℤ → Bool
unfolding relates coef_of
strided c v v1 v2 step =
    relates c v1 v2
    && (not (eqb_ℤ (coef_of c v) (pos 0))
        && (eqb_ℤ (tdiv (coef_of c v) (coef_of c v1)) step
            && eqb_ℤ (tdiv (coef_of c v) (coef_of c v2)) (neg_ℤ step)))

unfoldable pub apart : WCons → WVar → WVar → WVar → Bool
unfolding relates coef_of
apart c v v1 v2 =
    relates c v1 v2
    && (eqb_ℤ (coef_of c v) (pos 0) && eqb_ℤ (tdiv (coef_of c v2) (coef_of c v1)) (negsuc 0))

module _ (P : Ppl) (solver : Solver P) where
  -- `le == 0` or `le >= 0`
  unfoldable pub back_translate : WPoly P → Row → Option WCons
  unfolding inv_map back_terms of_cst cons_equal cons_at_least ◌+ₗ◌
  back_translate w r =
      elim (back_terms (inv_map w.adapter []) r (P.space_dimension w.poly) 0 (of_cst (pos 0))) [
        | none ↦ none
        | some e ↦ some (
            if r.is_equality
            then cons_equal (e +ₗ of_cst r.term) (of_cst (pos 0))
            else cons_at_least (e +ₗ of_cst r.term) (of_cst (pos 0)))
      ]

  -- the inner loop of delta: the distance, if a constraint tells it
  unfoldable pub delta_rows : WPoly P → WVar → WVar → WVar → ℤ → List Row → Option (Option ℤ)
  unfolding back_translate strided apart coef_of to_int
  delta_rows w v v1 v2 step [] = some none
  delta_rows w v v1 v2 step (r ∷ rs) =
      let rest = delta_rows w v v1 v2 step rs in
      elim (back_translate w r) [
        | none ↦ none
        | some c ↦
            let term = solver.get_si c.expr.cst in
            if strided c v v1 v2 step
            then some (some (to_int term))
            else if apart c v v1 v2
            then some (
                some (
                  to_int
                    (if leb_ℤ (solver.get_si (coef_of c v2)) (negsuc 0) then term else neg_ℤ term)))
            else rest
      ]

  -- the outer loop, over the variables of the polyhedron
  unfoldable pub delta_vars : WPoly P → WVar → WVar → ℤ → StdMap ℕ → Option (Option ℤ)
  unfolding delta_rows filter_lambda
  delta_vars w v1 v2 step [] = some none
  delta_vars w v1 v2 step ((v, dim) ∷ m) =
      let rest = delta_vars w v1 v2 step m in
      if v == v1 || v == v2
      then rest
      else elim (filter_lambda P (λ g. g == v || (g == v1 || g == v2)) w) [
        | none ↦ none
        | some temp ↦ elim (delta_rows temp v v1 v2 step (solver.minimized temp.poly)) [
          | none ↦ none
          | some none ↦ rest
          | some (some d) ↦ some (some d)
        ]
      ]

  -- delta; -1 where the distance is not known
  unfoldable pub delta : PplDomain P → WVar → WVar → ℤ → Option ℤ
  unfolding delta_vars
  delta s v1 v2 step =
      let found = delta_vars s.poly v1 v2 step s.poly.adapter in
      if eqb_ℤ step (pos 1) then some (pos 0) else elim found [
        | none ↦ none
        | some none ↦ some (negsuc 0)
        | some (some d) ↦ some (if eqb_ℤ d (negsuc 0) || eqb_ℤ step (pos 0) then d else tmod d step)
      ]

  -- WPoly::equals
  unfoldable pub equals : WPoly P → WPoly P → Option Bool
  unfolding combine
  equals w src = elim (combine P src w true) [
    | none ↦ none
    | some (a, b) ↦ some (solver.same_poly a.poly b.poly)
  ]

  -- mustSupseteq; `none` is also the case that is not implemented
  unfoldable pub must_supseteq : PplDomain P → WVar → ℤ → WVar → WVar → ℤ → WLinExpr → Option Bool
  unfolding add_constraint equals must_hold both_hold delta cons_equal cons_at_most cons_at_least
      of_var of_cst ◌+ₗ◌ ◌-ₗ◌ ◌*ₗ◌
  must_supseteq s b1 s1 n1 b2 s2 n2 =
      if eqb_ℤ s1 no_step
      then if eqb_ℤ s2 no_step
        then equals
            (add_constraint P (cons_equal n2 (of_cst (pos 1))) (
              add_constraint P (cons_equal (of_var n1) (of_cst (pos 1)))
                (add_constraint P (cons_equal (of_var b1) (of_var b2)) s.poly)))
            s.poly
        else some false
      else if eqb_ℤ s2 no_step
      then both_hold (must_hold P (cons_at_most (of_var b1) (of_var b2)) s.poly) (
          both_hold
            (must_hold P
              (cons_at_least (of_var b1 +ₗ (of_var n1 -ₗ of_cst (pos 1)) *ₗ s1)
                (of_var b2 +ₗ (n2 -ₗ of_cst (pos 1)) *ₗ s2))
              s.poly)
            (elim (delta s b1 b2 s1) [ none ↦ none | some d ↦ some (eqb_ℤ d (pos 0)) ]))
      else none
