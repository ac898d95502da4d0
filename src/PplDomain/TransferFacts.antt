-- ===== src/PplDomain/TransferFacts.antt =====
-- What the constraint of a semantic instruction says about the values of its operands.
use polymalys.Common.{
  none, some, ◌≡◌, refl, sym, ◌∙◌, Option-cases, inl, inr, some-injective, arith, ap, subst,
  bind_some, if_some, if◌then◌else◌, not, ◌&&◌,
}
use polymalys.Common.Int.{
  ℤ, pos, ◌+ℤ◌, ◌-ℤ◌, ◌*ℤ◌, ◌≤ℤ◌, eqb_ℤ, eqb_ℤ_iff, eq_of_parts, *ℤ_comm, *ℤ_assoc,
}
use polymalys.Linear.{WVar, WLinExpr, of_var, cons_equal, ◌+ₗ◌, ◌-ₗ◌, ◌*ₗ◌}
use polymalys.Linear.Value.{
  Valuation, value, IsExpr, value-+ₗ, value-*ₗ, value--ₗ, +ₗ-IsExpr, *ₗ-IsExpr, -ₗ-IsExpr,
}
use polymalys.Linear.Compare.{Sat-equal, of_var-IsExpr, value-of_var}
use polymalys.Ppl.{Ppl}
use polymalys.WPoly.Adapter.{Models}
use polymalys.WPoly.Questions.{maximize-bound, minimize-bound}
use polymalys.PplDomain.{PplDomain, get_constant, upper, lower}
use polymalys.PplDomain.Loops.{do_new_constraint}
use polymalys.PplDomain.LoopFacts.{IsDomain, do_new_constraint-IsDomain, do_new_constraint-Models}
use polymalys.PplDomain.Transfer.{Opcode, add, sub, cmp, cmpu, mul, product, do_binary_op}

≤ℤ_antisymm : (a b : ℤ) → a ≤ℤ b → b ≤ℤ a → a ≡ b
≤ℤ_antisymm a b h k = eq_of_parts a b (ground (arith, h, k))

module _ (P : Ppl) where
  -- `getConstant` returns a fraction that is the value of the variable in every described valuation.
  pub get_constant-value :
      (d : PplDomain P) (v : WVar) (n den : ℤ) (ρ : Valuation)
      → Models P d.poly ρ
      → get_constant P d v ≡ some (n, den)
      → (pos 1 ≤ℤ den) × (den *ℤ ρ v ≡ n)
  unfolding get_constant upper lower
  get_constant-value d v n den ρ m h =
      let (sup, f, k) =
        bind_some (upper P d v)
          (λ sup. elim (lower P d v) [
            | none ↦ none
            | some inf ↦
                if eqb_ℤ sup.1 inf.1 && (eqb_ℤ sup.0 inf.0 && not (eqb_ℤ sup.1 (pos 0)))
                then some (sup.0, sup.1)
                else none
          ])
          (n, den) h in
      let (inf, g, l) =
        bind_some (lower P d v)
          (λ inf.
            if eqb_ℤ sup.1 inf.1 && (eqb_ℤ sup.0 inf.0 && not (eqb_ℤ sup.1 (pos 0)))
            then some (sup.0, sup.1)
            else none)
          (n, den) k in
      let (test, same) =
        if_some (eqb_ℤ sup.1 inf.1 && (eqb_ℤ sup.0 inf.0 && not (eqb_ℤ sup.1 (pos 0))))
          (sup.0, sup.1) (n, den) l in
      let pair = some-injective _ _ same in
      let den_eq = (eqb_ℤ_iff sup.1 inf.1).0 (ground (arith, test)) in
      let num_eq = (eqb_ℤ_iff sup.0 inf.0).0 (ground (arith, test)) in
      let above = maximize-bound P (of_var v) d.poly sup.0 sup.1 ρ m f in
      let below = minimize-bound P (of_var v) d.poly inf.0 inf.1 ρ m g in
      let x = value ρ (of_var v) in
      subst (λ r. (pos 1 ≤ℤ r.1) × (r.1 *ℤ ρ v ≡ r.0)) pair
        (
          above.0,
          subst (λ y. sup.1 *ℤ y ≡ sup.0) (value-of_var ρ v)
              (≤ℤ_antisymm (sup.1 *ℤ x) sup.0 above.1 (
                subst (λ q. q ≤ℤ sup.1 *ℤ x) (sym num_eq)
                  (subst (λ q. inf.0 ≤ℤ q *ℤ x) (sym den_eq) below.1))),
        )

  -- the result that an instruction computes from its operands, on unbounded integers
  unfoldable pub IsResult : Opcode → ℤ → ℤ → ℤ → Type 0
  IsResult add r a b = r ≡ a +ℤ b
  IsResult sub r a b = r ≡ a -ℤ b
  IsResult cmp r a b = r ≡ a -ℤ b
  IsResult cmpu r a b = r ≡ a -ℤ b
  IsResult mul r a b = r ≡ a *ℤ b
  IsResult _ r a b = ⊥

  -- a constraint that a described valuation satisfies keeps it
  abbrev Kept : PplDomain P → Valuation → Type 0
  Kept r ρ = IsDomain P r × Models P r.poly ρ

  constrained-Kept :
      (d : PplDomain P) (a b : WLinExpr) (ρ : Valuation)
      → IsExpr a
      → IsExpr b
      → IsDomain P d
      → Models P d.poly ρ
      → value ρ a ≡ value ρ b
      → Kept (do_new_constraint P (cons_equal a b) d) ρ
  constrained-Kept d a b ρ ea eb h m e = (
    do_new_constraint-IsDomain P (cons_equal a b) d h,
    (do_new_constraint-Models P (cons_equal a b) d ρ h).1 (m, (Sat-equal ρ a b ea eb).1 e),
  )

  value-scaled : (v : WVar) (n : ℤ) (ρ : Valuation) → value ρ (of_var v *ₗ n) ≡ ρ v *ℤ n
  value-scaled v n ρ =
      value-*ₗ ρ (of_var v) n (of_var-IsExpr v) ∙ ap (λ x. x *ℤ n) (value-of_var ρ v)

  scaled-Kept :
      (d : PplDomain P) (v w : WVar) (n den : ℤ) (ρ : Valuation)
      → IsDomain P d
      → Models P d.poly ρ
      → ρ v *ℤ den ≡ ρ w *ℤ n
      → Kept (do_new_constraint P (cons_equal (of_var v *ₗ den) (of_var w *ₗ n)) d) ρ
  scaled-Kept d v w n den ρ h m e =
      constrained-Kept d (of_var v *ₗ den) (of_var w *ₗ n) ρ (*ₗ-IsExpr (of_var v) den)
        (*ₗ-IsExpr (of_var w) n) h m (value-scaled v den ρ ∙ e ∙ sym (value-scaled w n ρ))

  product-Kept :
      (d : PplDomain P) (v v1 v2 : WVar) (ρ : Valuation)
      → IsDomain P d
      → Models P d.poly ρ
      → ρ v ≡ ρ v1 *ℤ ρ v2
      → Kept (product P d v v1 v2) ρ
  unfolding product
  product-Kept d v v1 v2 ρ h m e = elim (Option-cases (get_constant P d v1)) [
    | inr ((n, den), f) ↦
        let (_, g) = get_constant-value d v1 n den ρ m f in
        rw (product, f)
          (scaled-Kept d v v2 n den ρ h m
            (ap (λ x. x *ℤ den) e ∙ outer (ρ v1) (ρ v2) den ∙ ap (λ x. ρ v2 *ℤ x) g))
    | inl f ↦ elim (Option-cases (get_constant P d v2)) [
      | inr ((n, den), k) ↦
          let (_, g) = get_constant-value d v2 n den ρ m k in
          rw (product, f, k)
            (scaled-Kept d v v1 n den ρ h m (
              ap (λ x. x *ℤ den) e
              ∙ *ℤ_assoc (ρ v1) (ρ v2) den
              ∙ ap (λ x. ρ v1 *ℤ x) (*ℤ_comm (ρ v2) den ∙ g)))
      | inl k ↦ rw (product, f, k) (h, m)
    ]
  ]
    where
      outer : (a b c : ℤ) → a *ℤ b *ℤ c ≡ b *ℤ (c *ℤ a)
      outer a b c = ap (λ x. x *ℤ c) (*ℤ_comm a b) ∙ *ℤ_assoc b a c ∙ ap (λ x. b *ℤ x) (*ℤ_comm a c)

  two_vars :
      (v v1 v2 : WVar) (ρ : Valuation)
      → (value ρ (of_var v1 +ₗ of_var v2) ≡ ρ v1 +ℤ ρ v2)
        × (value ρ (of_var v1 -ₗ of_var v2) ≡ ρ v1 -ℤ ρ v2)
  two_vars v v1 v2 ρ = (
    rw
        (
          value-+ₗ ρ (of_var v1) (of_var v2) (of_var-IsExpr v1) (of_var-IsExpr v2),
          value-of_var ρ v1,
          value-of_var ρ v2,
        )
        refl,
    rw
        (
          value--ₗ ρ (of_var v1) (of_var v2) (of_var-IsExpr v1) (of_var-IsExpr v2),
          value-of_var ρ v1,
          value-of_var ρ v2,
        )
        refl,
  )

  sum-Kept :
      (d : PplDomain P) (v v1 v2 : WVar) (ρ : Valuation)
      → IsDomain P d
      → Models P d.poly ρ
      → ρ v ≡ ρ v1 +ℤ ρ v2
      → Kept (do_new_constraint P (cons_equal (of_var v) (of_var v1 +ₗ of_var v2)) d) ρ
  sum-Kept d v v1 v2 ρ h m e =
      constrained-Kept d (of_var v) (of_var v1 +ₗ of_var v2) ρ (of_var-IsExpr v)
        (+ₗ-IsExpr (of_var v1) (of_var v2)) h m (value-of_var ρ v ∙ e ∙ sym (two_vars v v1 v2 ρ).0)

  difference-Kept :
      (d : PplDomain P) (v v1 v2 : WVar) (ρ : Valuation)
      → IsDomain P d
      → Models P d.poly ρ
      → ρ v ≡ ρ v1 -ℤ ρ v2
      → Kept (do_new_constraint P (cons_equal (of_var v) (of_var v1 -ₗ of_var v2)) d) ρ
  difference-Kept d v v1 v2 ρ h m e =
      constrained-Kept d (of_var v) (of_var v1 -ₗ of_var v2) ρ (of_var-IsExpr v)
        (-ₗ-IsExpr (of_var v1) (of_var v2)) h m (value-of_var ρ v ∙ e ∙ sym (two_vars v v1 v2 ρ).1)

  returned :
      {r : PplDomain P} {ρ : Valuation}
      → Kept r ρ
      → (s : PplDomain P) × (some r ≡ some s) × IsDomain P s × Models P s.poly ρ
  returned {r} k = (r, refl, k.0, k.1)

  -- The transfer of ADD, SUB, CMP, CMPU and MUL loses no execution: it succeeds, and a described
  -- valuation in which the result is what the instruction computes on unbounded integers is still
  -- described.
  pub do_binary_op-Models :
      (op : Opcode) (d : PplDomain P) (v v1 v2 : WVar) (ρ : Valuation)
      → IsDomain P d
      → Models P d.poly ρ
      → IsResult op (ρ v) (ρ v1) (ρ v2)
      → (r : PplDomain P) × (do_binary_op P op d v v1 v2 ≡ some r)
        × IsDomain P r
        × Models P r.poly ρ
  unfolding do_binary_op IsResult
  do_binary_op-Models add d v v1 v2 ρ h m e = returned (sum-Kept d v v1 v2 ρ h m e)
  do_binary_op-Models sub d v v1 v2 ρ h m e = returned (difference-Kept d v v1 v2 ρ h m e)
  do_binary_op-Models cmp d v v1 v2 ρ h m e = returned (difference-Kept d v v1 v2 ρ h m e)
  do_binary_op-Models cmpu d v v1 v2 ρ h m e = returned (difference-Kept d v v1 v2 ρ h m e)
  do_binary_op-Models mul d v v1 v2 ρ h m e = returned (product-Kept d v v1 v2 ρ h m e)
  do_binary_op-Models _ d v v1 v2 ρ h m e = absurd e
