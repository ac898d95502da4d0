-- ===== src/WPoly/Questions.antt =====
-- Questions to a WPoly that PPL answers: whether a constraint must or cannot hold, and bounds.
use polymalys.Common.{
  true, some, ◌≡◌, refl, sym, ◌∙◌, [], ◌∷◌, some-injective, ap, subst, ◌↔◌, bind_some,
}
use polymalys.Common.Int.{ℤ, pos, ◌+ℤ◌, ◌*ℤ◌, ◌≤ℤ◌, +ℤ-zero, +ℤ_assoc, zero-+ℤ}
use polymalys.Common.StdMap.{StdMap, find}
use polymalys.Linear.{WLinExpr, WCons}
use polymalys.Linear.Value.{Valuation, value, sum_coefs}
use polymalys.Linear.Compare.{Sat}
use polymalys.Ppl.{Ppl, Point}
use polymalys.WPoly.Adapter.{Agree, Models}
use polymalys.WPoly.Constraints.{constraint_of-Satisfies}
use polymalys.WPoly.{
  WPoly, to_ppl_const_terms, to_ppl_const, constraint_of, translate_cons_const, must_hold,
  cannot_hold, maximize, minimize,
}

module _ (P : Ppl) where
  to_ppl_const_terms-value :
      (m : StdMap ℤ) (w : WPoly P) (e r : P.Linear) (ρ : Valuation) (x : Point)
      → to_ppl_const_terms P m w e ≡ some r
      → Agree ρ w.adapter x
      → P.lin_value x r ≡ P.lin_value x e +ℤ sum_coefs ρ m
  unfolding to_ppl_const_terms sum_coefs
  to_ppl_const_terms-value [] w e r ρ x h a =
      ap (P.lin_value x) (sym (some-injective e r h)) ∙ sym (+ℤ-zero _)
  to_ppl_const_terms-value ((g, c) ∷ m) w e r ρ x h a =
      let (d, f, k) =
        bind_some (find g w.adapter) (λ d. to_ppl_const_terms P m w (P.lin_add_term e c d)) r h in
      to_ppl_const_terms-value m w (P.lin_add_term e c d) r ρ x k a
      ∙ rw (P.lin_add_term_value x e c d, a g d f) (+ℤ_assoc _ _ _)

  -- an expression over tracked variables has the same value at a point that agrees on them
  to_ppl_const-value :
      (l : WLinExpr) (w : WPoly P) (r : P.Linear) (ρ : Valuation) (x : Point)
      → to_ppl_const P l w ≡ some r
      → Agree ρ w.adapter x
      → P.lin_value x r ≡ value ρ l
  unfolding to_ppl_const value
  to_ppl_const-value l w r ρ x h a =
      let (e, f, k) =
        bind_some (to_ppl_const_terms P l.coefs w P.lin_zero) (λ e. some (P.lin_add_cst e l.cst)) r
          h in
      ap (P.lin_value x) (sym (some-injective _ r k))
      ∙ P.lin_add_cst_value x e l.cst
      ∙ rw
          (
            to_ppl_const_terms-value l.coefs w P.lin_zero e ρ x f a,
            P.lin_zero_value x,
            zero-+ℤ (sum_coefs ρ l.coefs),
          )
          refl

  translate_cons_const-Satisfies :
      (c : WCons) (w : WPoly P) (r : P.Constraint) (ρ : Valuation) (x : Point)
      → translate_cons_const P c w ≡ some r
      → Agree ρ w.adapter x
      → P.Satisfies x r ↔ Sat ρ c
  unfolding translate_cons_const
  translate_cons_const-Satisfies c w r ρ x h a =
      let (e, f, k) =
        bind_some (to_ppl_const P c.expr w) (λ e. some (constraint_of P c.ctype e)) r h in
      subst (λ q. P.Satisfies x q ↔ Sat ρ c) (some-injective _ r k)
        (constraint_of-Satisfies P c.ctype c.expr e x ρ (to_ppl_const-value c.expr w e ρ x f a))

  -- A constraint that must hold does so in every described valuation.
  pub must_hold-Sat :
      (c : WCons) (w : WPoly P) (ρ : Valuation)
      → Models P w ρ
      → must_hold P c w ≡ some true
      → Sat ρ c
  unfolding must_hold
  must_hold-Sat c w ρ (x, p, a) h =
      let (r, f, k) =
        bind_some (translate_cons_const P c w) (λ q. some (P.is_included w.poly q)) true h in
      (translate_cons_const-Satisfies c w r ρ x f a).0
        (P.is_included_sound w.poly r x (some-injective _ true k) p)

  -- A constraint that cannot hold is satisfied by no described valuation.
  pub cannot_hold-Sat :
      (c : WCons) (w : WPoly P) (ρ : Valuation)
      → Models P w ρ
      → cannot_hold P c w ≡ some true
      → ¬ Sat ρ c
  unfolding cannot_hold
  cannot_hold-Sat c w ρ (x, p, a) h s =
      let (r, f, k) =
        bind_some (translate_cons_const P c w) (λ q. some (P.is_disjoint w.poly q)) true h in
      P.is_disjoint_sound w.poly r x (some-injective _ true k) p
        ((translate_cons_const-Satisfies c w r ρ x f a).1 s)

  -- The bound that `maximize` returns holds in every described valuation, with the denominator,
  -- which is positive, multiplied out.
  pub maximize-bound :
      (l : WLinExpr) (w : WPoly P) (n d : ℤ) (ρ : Valuation)
      → Models P w ρ
      → maximize P l w ≡ some (n, d)
      → (pos 1 ≤ℤ d) × (d *ℤ value ρ l ≤ℤ n)
  unfolding maximize
  maximize-bound l w n d ρ (x, p, a) h =
      let (e, f, k) = bind_some (to_ppl_const P l w) (P.maximize w.poly) (n, d) h in
      subst (λ v. (pos 1 ≤ℤ d) × (d *ℤ v ≤ℤ n)) (to_ppl_const-value l w e ρ x f a)
        (P.maximize_sound w.poly e n d x k p)

  -- the same of `minimize`
  pub minimize-bound :
      (l : WLinExpr) (w : WPoly P) (n d : ℤ) (ρ : Valuation)
      → Models P w ρ
      → minimize P l w ≡ some (n, d)
      → (pos 1 ≤ℤ d) × (n ≤ℤ d *ℤ value ρ l)
  unfolding minimize
  minimize-bound l w n d ρ (x, p, a) h =
      let (e, f, k) = bind_some (to_ppl_const P l w) (P.minimize w.poly) (n, d) h in
      subst (λ v. (pos 1 ≤ℤ d) × (n ≤ℤ d *ℤ v)) (to_ppl_const-value l w e ρ x f a)
        (P.minimize_sound w.poly e n d x k p)
