-- ===== src/PplManager/Start.antt =====
-- The initial state of a task describes exactly the starts with a stack in its place.
use polymalys.Common.{All, sym, subst, ℕ, suc, some, List, [], ◌∷◌, ◌≡◌, refl, ◌↔◌, arith}
use polymalys.Common.Int.{ℤ, pos, ◌≤ℤ◌}
use polymalys.Linear.{WVar, WCons, of_var, of_cst, cons_equal, cons_at_least, cons_at_most}
use polymalys.Linear.Value.{Valuation}
use polymalys.Linear.Compare.{
  Sat, Sat-equal, Sat-at_least, of_var-IsExpr, of_cst-IsExpr, value-of_var, value-of_cst,
}
use polymalys.Ppl.{Ppl}
use polymalys.Ident.{Ident, ident, id_reg, id_special, no_step}
use polymalys.Mapping.{find1}
use polymalys.WPoly.Adapter.{Models}
use polymalys.PplDomain.{PplDomain, top, get_var}
use polymalys.PplDomain.Loops.{do_new_constraint}
use polymalys.PplDomain.LoopFacts.{IsDomain, do_new_constraint-IsDomain, do_new_constraint-Models}
use polymalys.PplDomain.LoopExit.{top-IsDomain, top-Models, top_no_var}
use polymalys.PplManager.{
  stack_top, stack_limit, start_idents, PplManager, constrain_start, fresh_manager, manager_of,
}
use polymalys.PplManager.Vars.{Distinct, count_from, count_after, Unbound, new_vars_lem}

module _ (P : Ppl) where
  -- a valid state and what it describes
  record Describes (d : PplDomain P) (Q : Valuation → Type 0) : Type 0 where
    valid : IsDomain P d
    models : (ρ : Valuation) → Models P d.poly ρ ↔ Q ρ

  constrained :
      (d : PplDomain P) (c : WCons) (Q R : Valuation → Type 0)
      → ((ρ : Valuation) → Sat ρ c ↔ R ρ)
      → Describes d Q
      → Describes (do_new_constraint P c d) (λ ρ. Q ρ × R ρ)
  constrained d c Q R s h = record {
    valid = do_new_constraint-IsDomain P c d h.valid;
    models = λ ρ.
        let m = do_new_constraint-Models P c d ρ h.valid in
        (
          λ x. ((h.models ρ).0 (m.0 x).0, (s ρ).0 (m.0 x).1),
          λ x. m.1 ((h.models ρ).1 x.0, (s ρ).1 x.1),
        );
  }

  Sat-vars_equal :
      (a b : WVar) (ρ : Valuation) → Sat ρ (cons_equal (of_var a) (of_var b)) ↔ (ρ a ≡ ρ b)
  Sat-vars_equal a b ρ =
      rw (value-of_var ρ a, value-of_var ρ b) at
        (Sat-equal ρ (of_var a) (of_var b) (of_var-IsExpr a) (of_var-IsExpr b))

  Sat-var_at_least :
      (a : WVar) (k : ℤ) (ρ : Valuation) → Sat ρ (cons_at_least (of_var a) (of_cst k)) ↔ (k ≤ℤ ρ a)
  Sat-var_at_least a k ρ =
      rw (value-of_var ρ a, value-of_cst ρ k) at
        (Sat-at_least ρ (of_var a) (of_cst k) (of_var-IsExpr a) (of_cst-IsExpr k))

  Sat-var_at_most :
      (a : WVar) (k : ℤ) (ρ : Valuation) → Sat ρ (cons_at_most (of_var a) (of_cst k)) ↔ (ρ a ≤ℤ k)
  unfolding cons_at_most
  Sat-var_at_most a k ρ =
      rw (value-of_var ρ a, value-of_cst ρ k) at
        (Sat-at_least ρ (of_cst k) (of_var a) (of_cst-IsExpr k) (of_var-IsExpr a))

  -- The registers sp, fp and lr have their start values, and the stack and frame pointers lie between
  -- STACK_TOP and STACK_TOP + 0x1000000.
  abbrev pub AtStart : (sp fp lr ssp sfp slr : WVar) → Valuation → Type 0
  AtStart sp fp lr ssp sfp slr ρ =
      ((((((ρ ssp ≡ ρ sp) × (ρ sfp ≡ ρ fp)) × (ρ slr ≡ ρ lr)) × (stack_top ≤ℤ ρ ssp))
          × (stack_top ≤ℤ ρ sfp))
        × (ρ ssp ≤ℤ stack_limit))
      × (ρ sfp ≤ℤ stack_limit)

  constrain_start-Describes :
      (sp fp lr ssp sfp slr : WVar) (d : PplDomain P)
      → IsDomain P d
      → ((ρ : Valuation) → Models P d.poly ρ)
      → Describes
          (constrain_start P (sp ∷ fp ∷ lr ∷ ssp ∷ sfp ∷ slr ∷ []) d)
          (AtStart sp fp lr ssp sfp slr)
  unfolding constrain_start
  constrain_start-Describes sp fp lr ssp sfp slr d v m =
      let c1 = cons_equal (of_var ssp) (of_var sp) in
      let d1 = do_new_constraint P c1 d in
      let h1 : Describes d1 (λ ρ. ρ ssp ≡ ρ sp) = record {
        valid = do_new_constraint-IsDomain P c1 d v;
        models = λ ρ.
            let n = do_new_constraint-Models P c1 d ρ v in
            (
              λ x. (Sat-vars_equal ssp sp ρ).0 (n.0 x).1,
              λ x. n.1 (m ρ, (Sat-vars_equal ssp sp ρ).1 x),
            );
      } in
      constrained _ (cons_at_most (of_var sfp) (of_cst stack_limit)) _ _
        (Sat-var_at_most sfp stack_limit)
        (constrained _ (cons_at_most (of_var ssp) (of_cst stack_limit)) _ _
          (Sat-var_at_most ssp stack_limit)
          (constrained _ (cons_at_least (of_var sfp) (of_cst stack_top)) _ _
            (Sat-var_at_least sfp stack_top)
            (constrained _ (cons_at_least (of_var ssp) (of_cst stack_top)) _ _
              (Sat-var_at_least ssp stack_top)
              (constrained _ (cons_equal (of_var slr) (of_var lr)) _ _ (Sat-vars_equal slr lr) (
                constrained _ (cons_equal (of_var sfp) (of_var fp)) _ _ (Sat-vars_equal sfp fp)
                  h1)))))

  constrain_start-idmap :
      (vs : List WVar) (d : PplDomain P) → (constrain_start P vs d).idmap ≡ d.idmap
  unfolding constrain_start do_new_constraint
  constrain_start-idmap [] d = refl
  constrain_start-idmap (a ∷ []) d = refl
  constrain_start-idmap (a ∷ b ∷ []) d = refl
  constrain_start-idmap (a ∷ b ∷ c ∷ []) d = refl
  constrain_start-idmap (a ∷ b ∷ c ∷ e ∷ []) d = refl
  constrain_start-idmap (a ∷ b ∷ c ∷ e ∷ f ∷ []) d = refl
  constrain_start-idmap (a ∷ b ∷ c ∷ e ∷ f ∷ k ∷ []) d = refl
  constrain_start-idmap (a ∷ b ∷ c ∷ e ∷ f ∷ k ∷ l ∷ vs) d = refl

  -- The registers 13 (sp), 11 (fp) and 14 (lr) and the special identifiers of their start values are
  -- bound to the six variables from `g` on.
  abbrev pub BindsStart : PplDomain P → ℕ → Type 0
  BindsStart d g =
      (find1 d.idmap (ident (pos 13) id_reg) ≡ some (record { g = g; s = no_step }))
      × (find1 d.idmap (ident (pos 11) id_reg) ≡ some (record { g = suc g; s = no_step }))
      × (find1 d.idmap (ident (pos 14) id_reg) ≡ some (record { g = suc (suc g); s = no_step }))
      × (find1 d.idmap (ident (pos 0) id_special)
          ≡ some (record { g = suc (suc (suc g)); s = no_step }))
      × (find1 d.idmap (ident (pos 1) id_special)
          ≡ some (record { g = suc (suc (suc (suc g))); s = no_step }))
      × (find1 d.idmap (ident (pos 2) id_special)
          ≡ some (record { g = suc (suc (suc (suc (suc g)))); s = no_step }))

  start-Distinct : Distinct start_idents
  start-Distinct = ground arith

  top-Unbound : (is : List Ident) → All (Unbound P (top P)) is
  unfolding get_var
  top-Unbound [] = tt
  top-Unbound (i ∷ is) = (top_no_var P i, top-Unbound is)

  -- The initial state of a task: the manager is built from any value of the counter of guids, its
  -- state is valid and binds the registers 13 (sp), 11 (fp) and 14 (lr) and the special identifiers of
  -- their start values to the six variables from the counter on, and it describes exactly the valuations in
  -- which the registers have their start values and the stack and frame pointers lie in the stack.
  pub fresh_manager-AtStart :
      (g : ℕ)
      → (m : PplManager P) × (fresh_manager P g ≡ some (count_after g start_idents, m))
        × IsDomain P m.init
        × BindsStart m.init g
        × ((ρ : Valuation)
            → Models P (PplDomain.poly m.init) ρ
              ↔ AtStart g
                  (suc g)
                  (suc (suc g))
                  (suc (suc (suc g)))
                  (suc (suc (suc (suc g))))
                  (suc (suc (suc (suc (suc g)))))
                  ρ)
  unfolding fresh_manager manager_of
  fresh_manager-AtStart g =
      let (d, e, v, p, b, k) =
        new_vars_lem P start_idents g (top P) (top-IsDomain P)
          (refl, (refl, (refl, (refl, (refl, (refl, tt)))))) start-Distinct
          (top-Unbound start_idents) in
      let s =
        constrain_start-Describes g (suc g) (suc (suc g)) (suc (suc (suc g)))
          (suc (suc (suc (suc g)))) (suc (suc (suc (suc (suc g))))) d v
          (λ ρ. subst (λ q. Models P q ρ) (sym p) (top-Models P ρ)) in
      (
        manager_of P (constrain_start P (count_from g start_idents) d),
        ground (arith, e),
        s.valid,
        subst (λ t. BindsStart (record d { idmap = t }) g)
            (sym (constrain_start-idmap (count_from g start_idents) d))
            (b.0, b.1.0, b.1.1.0, b.1.1.1.0, b.1.1.1.1.0, b.1.1.1.1.1.0),
        s.models,
      )
