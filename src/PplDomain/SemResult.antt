-- ===== src/PplDomain/SemResult.antt =====
-- What the binary operations of onSemInst do to the described values of the registers.
use polymalys.Common.{
  ℕ, suc, ◌<◌, false, some, ◌≡◌, refl, sym, ap, ◌∙◌, subst, ◌==◌, ==_iff, arith, Option-cases, inl,
  inr, some-injective,
}
use polymalys.Common.Int.{ℤ}
use polymalys.Linear.{◌+ₗ◌, ◌-ₗ◌, WVar, WLinExpr, WCons, ◌*ₗ◌, of_var, cons_equal}
use polymalys.Linear.Value.{Valuation}
use polymalys.Linear.Fresh.{*ₗ-Uses, +ₗ-Uses, Uses, of_var-Uses, -ₗ-Uses}
use polymalys.Ppl.{Ppl}
use polymalys.WPoly.Adapter.{Models}
use polymalys.WPoly.Fresh.{TracksBelow, add_constraint-TracksBelow}
use polymalys.Ident.{IdVal}
use polymalys.PplDomain.{PplDomain, get_constant, get_var}
use polymalys.PplDomain.Loops.{do_new_constraint}
use polymalys.PplDomain.LoopFacts.{IsDomain}
use polymalys.Mapping.{find1}
use polymalys.PplDomain.SemInst.{set_result, Counted, register}
use polymalys.PplDomain.Transfer.{Opcode, add, sub, cmp, cmpu, mul, other, product, do_binary_op}
use polymalys.PplDomain.TransferFacts.{IsResult, do_binary_op-Models}
use polymalys.PplDomain.SemFacts.{
  Registers, IsCounted, Describes, with_value, var_new-IsRenewed, renewed-Models, renewed-registers,
  renewed-IsCounted, renewed-IsKept, Writes,
}

module _ (P : Ppl) where
  -- what a constraint over variables below the counter leaves
  record IsConstrained (n : ℕ) (r r' : PplDomain P) : Type 0 where
    idmap : r'.idmap ≡ r.idmap
    compare : r'.compare_reg ≡ r.compare_reg
    tracked : TracksBelow P n r.poly → TracksBelow P n r'.poly

  constraint-IsConstrained :
      (n : ℕ) (r : PplDomain P) (c : WCons)
      → Uses n c.expr
      → IsConstrained n r (do_new_constraint P c r)
  unfolding do_new_constraint
  constraint-IsConstrained n r c u = record {
    idmap = refl;
    compare = refl;
    tracked = add_constraint-TracksBelow P n c r.poly u;
  }

  product-IsConstrained :
      (n : ℕ) (r : PplDomain P) (v v1 v2 : WVar)
      → v < n
      → v1 < n
      → v2 < n
      → IsConstrained n r (product P r v v1 v2)
  unfolding product cons_equal
  product-IsConstrained n r v v1 v2 l l1 l2 = elim (Option-cases (get_constant P r v1)) [
    | inr ((k, den), e) ↦
        rw (product, e)
          (constraint-IsConstrained n r (cons_equal (of_var v *ₗ den) (of_var v2 *ₗ k)) (
            -ₗ-Uses n (of_var v *ₗ den) (of_var v2 *ₗ k)
              (*ₗ-Uses n (of_var v) den (of_var-Uses n v l))
              (*ₗ-Uses n (of_var v2) k (of_var-Uses n v2 l2))))
    | inl e ↦ elim (Option-cases (get_constant P r v2)) [
      | inr ((k, den), f) ↦
          rw (product, e, f)
            (constraint-IsConstrained n r (cons_equal (of_var v *ₗ den) (of_var v1 *ₗ k)) (
              -ₗ-Uses n (of_var v *ₗ den) (of_var v1 *ₗ k)
                (*ₗ-Uses n (of_var v) den (of_var-Uses n v l))
                (*ₗ-Uses n (of_var v1) k (of_var-Uses n v1 l1))))
      | inl f ↦ rw (product, e, f) (record { idmap = refl; compare = refl; tracked = λ h. h })
    ]
  ]

  linear-IsConstrained :
      (n : ℕ) (r : PplDomain P) (v : WVar) (e : WLinExpr)
      → v < n
      → Uses n e
      → IsConstrained n r (do_new_constraint P (cons_equal (of_var v) e) r)
  unfolding cons_equal
  linear-IsConstrained n r v e l u =
      constraint-IsConstrained n r (cons_equal (of_var v) e)
        (-ₗ-Uses n (of_var v) e (of_var-Uses n v l) u)

  difference-IsConstrained :
      (n : ℕ) (r : PplDomain P) (v v1 v2 : WVar)
      → v < n
      → v1 < n
      → v2 < n
      → IsConstrained n r (do_new_constraint P (cons_equal (of_var v) (of_var v1 -ₗ of_var v2)) r)
  difference-IsConstrained n r v v1 v2 l l1 l2 =
      linear-IsConstrained n r v (of_var v1 -ₗ of_var v2) l
        (-ₗ-Uses n (of_var v1) (of_var v2) (of_var-Uses n v1 l1) (of_var-Uses n v2 l2))

  -- what an operation on unbounded integers may leave; the bitwise ones may leave anything
  abbrev pub Computes : Opcode → ℤ → ℤ → ℤ → Type 0
  Computes other r a b = Unit
  Computes add r a b = IsResult P add r a b
  Computes sub r a b = IsResult P sub r a b
  Computes cmp r a b = IsResult P cmp r a b
  Computes cmpu r a b = IsResult P cmpu r a b
  Computes mul r a b = IsResult P mul r a b
  Computes _ r a b = ⊥

  -- the transfer of an operation, with what it leaves alone
  computed :
      (op : Opcode) (n : ℕ) (r : PplDomain P) (v v1 v2 : WVar) (ρ : Valuation)
      → v < n
      → v1 < n
      → v2 < n
      → IsDomain P r
      → Models P r.poly ρ
      → Computes op (ρ v) (ρ v1) (ρ v2)
      → (r' : PplDomain P) × (do_binary_op P op r v v1 v2 ≡ some r')
        × IsDomain P r'
        × Models P r'.poly ρ
        × IsConstrained n r r'
  unfolding do_binary_op
  computed other n r v v1 v2 ρ l l1 l2 h m c =
      (r, refl, h, m, record { idmap = refl; compare = refl; tracked = λ t. t })
  computed add n r v v1 v2 ρ l l1 l2 h m c =
      let (r', e, x, y) = do_binary_op-Models P add r v v1 v2 ρ h m c in
      (
        r',
        e,
        x,
        y,
        subst (IsConstrained n r) (some-injective _ r' e) (
            linear-IsConstrained n r v (of_var v1 +ₗ of_var v2) l
              (+ₗ-Uses n (of_var v1) (of_var v2) (of_var-Uses n v1 l1) (of_var-Uses n v2 l2))),
      )
  computed sub n r v v1 v2 ρ l l1 l2 h m c =
      let (r', e, x, y) = do_binary_op-Models P sub r v v1 v2 ρ h m c in
      (
        r',
        e,
        x,
        y,
        subst (IsConstrained n r) (some-injective _ r' e)
            (difference-IsConstrained n r v v1 v2 l l1 l2),
      )
  computed cmp n r v v1 v2 ρ l l1 l2 h m c =
      let (r', e, x, y) = do_binary_op-Models P cmp r v v1 v2 ρ h m c in
      (
        r',
        e,
        x,
        y,
        subst (IsConstrained n r) (some-injective _ r' e)
            (difference-IsConstrained n r v v1 v2 l l1 l2),
      )
  computed cmpu n r v v1 v2 ρ l l1 l2 h m c =
      let (r', e, x, y) = do_binary_op-Models P cmpu r v v1 v2 ρ h m c in
      (
        r',
        e,
        x,
        y,
        subst (IsConstrained n r) (some-injective _ r' e)
            (difference-IsConstrained n r v v1 v2 l l1 l2),
      )
  computed mul n r v v1 v2 ρ l l1 l2 h m c =
      let (r', e, x, y) = do_binary_op-Models P mul r v v1 v2 ρ h m c in
      (
        r',
        e,
        x,
        y,
        subst (IsConstrained n r) (some-injective _ r' e)
            (product-IsConstrained n r v v1 v2 l l1 l2),
      )
  computed _ n r v v1 v2 ρ l l1 l2 h m c = absurd c

  pub set_result-Writes :
      (op : Opcode) (st : Counted P) (d a b : ℤ) (va vb : IdVal) (σ : Registers) (x : ℤ)
      → IsCounted P st
      → Describes P st.1 σ
      → get_var P st.1 (register a) ≡ some va
      → get_var P st.1 (register b) ≡ some vb
      → Computes op x (σ a) (σ b)
      → (st' : Counted P) × (set_result P op st d a b ≡ some st') × Writes P st d x σ st'
  unfolding set_result get_var
  set_result-Writes op (guid, s) d a b va vb σ x h (ρ, m, regs) fa fb c =
      let (r, f, v) = var_new-IsRenewed P guid s d h.valid in
      let below_a = h.bound (register a) va fa in
      let below_b = h.bound (register b) vb fb in
      let old_a : with_value P ρ guid x va.g ≡ σ a = old guid va.g x ρ below_a ∙ regs a va fa in
      let old_b : with_value P ρ guid x vb.g ≡ σ b = old guid vb.g x ρ below_b ∙ regs b vb fb in
      let here : with_value P ρ guid x guid ≡ x = rw ((==_iff guid guid).1 refl) refl in
      let c' : Computes op (with_value P ρ guid x guid) (with_value P ρ guid x va.g)
          (with_value P ρ guid x vb.g) =
        rw (here, old_a, old_b) c in
      let (r', e, valid, models, kept) =
        computed op (suc guid) r guid va.g vb.g (with_value P ρ guid x) (omega arith)
          (omega (arith, below_a)) (omega (arith, below_b)) v.valid
          (renewed-Models P guid s r d h v ρ x m) c' in
      let renewed = renewed-IsKept P guid s r d h v in
      let counted = renewed-IsCounted P guid s r d h v in
      (
        (suc guid, r'),
        rw (set_result, fa, fb, f, e) refl,
        (
          record {
            valid = valid;
            tracked = kept.tracked counted.tracked;
            bound = λ i w q. counted.bound i w (ap (λ t. find1 t i) (sym kept.idmap) ∙ q);
          },
          (
            with_value P ρ guid x,
            models,
            λ k w q.
                renewed-registers P guid s r d h v ρ σ x regs k w
                  (ap (λ t. find1 t (register k)) (sym kept.idmap) ∙ q),
          ),
          record {
            compare = kept.compare ∙ renewed.compare;
            known = λ k q.
                (let (w, f) = renewed.known k q in
                  (w, ap (λ t. find1 t (register k)) kept.idmap ∙ f));
          },
        ),
      )
    where
      old : (n g : ℕ) (y : ℤ) (τ : Valuation) → g < n → with_value P τ n y g ≡ τ g
      old n g y τ l = let other : (n == g) ≡ false = ground (arith, l) in rw other refl
