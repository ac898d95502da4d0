-- ===== src/PplDomain/SemFacts.antt =====
-- The transfer of register instructions loses no execution.
use polymalys.Common.{
  ℕ, suc, ◌<◌, true, false, none, some, [], ◌∷◌, ◌++◌, ◌≡◌, ◌≢◌, refl, sym, ap, subst,
  if◌then◌else◌, ◌==◌, ==_iff, arith, Bool-cases, Option-cases, inl, inr, ◌⊎◌,
}
use polymalys.Common.Int.{ℤ, eqb_ℤ, eqb_ℤ_iff}
use polymalys.Common.StdMap.{StdMap, find}
use polymalys.Linear.{WLinExpr, cons_equal}
use polymalys.Linear.Value.{Valuation, value, sum_coefs}
use polymalys.Linear.Fresh.{IsBelow, Uses, -ₗ-Uses}
use polymalys.Ppl.{Ppl}
use polymalys.WPoly.Adapter.{Models}
use polymalys.WPoly.Fresh.{TracksBelow, add_constraint-TracksBelow, Models-fresh}
use polymalys.Ident.{Ident, IdVal, no_step}
use polymalys.Mapping.{find1, add}
use polymalys.Mapping.Inverse.{add-IsMapping, Added}
use polymalys.PplDomain.{PplDomain, get_var, var_new, step_fits}
use polymalys.PplDomain.Loops.{do_new_constraint}
use polymalys.PplDomain.LoopFacts.{IsDomain, counter, do_new_constraint-IsDomain}
use polymalys.PplDomain.SemInst.{Counted, register}

-- the values of the registers
abbrev pub Registers : Type 0
Registers = ℤ → ℤ

module _ (P : Ppl) where
  -- The guids of the state lie below the counter.
  pub record IsCounted (st : Counted P) : Type 0 where
    pub valid : IsDomain P st.1
    pub tracked : TracksBelow P st.0 st.1.poly
    pub bound : (i : Ident) (v : IdVal) → get_var P st.1 i ≡ some v → v.g < st.0

  -- The state describes values of the registers: of some described valuation, the registers that the
  -- state knows have the values of their variables.
  abbrev pub Describes : PplDomain P → Registers → Type 0
  Describes s σ =
      (ρ : Valuation) × Models P s.poly ρ
      × ((r : ℤ) (v : IdVal) → get_var P s (register r) ≡ some v → ρ v.g ≡ σ r)

  -- a valuation with one value changed
  abbrev pub with_value : Valuation → ℕ → ℤ → Valuation
  with_value ρ g x h = if g == h then x else ρ h

  abbrev pub write : Registers → ℤ → ℤ → Registers
  write σ d x r = if eqb_ℤ d r then x else σ r

  -- what `varNew` of a register leaves
  pub record IsRenewed (guid : ℕ) (s : PplDomain P) (d : ℤ) (r : PplDomain P) : Type 0 where
    pub valid : IsDomain P r
    pub poly : r.poly ≡ s.poly
    pub compare : r.compare_reg ≡ s.compare_reg
    pub defined : get_var P r (register d) ≡ some (counter guid)
    pub kept :
        (i : Ident) (w : IdVal)
        → register d ≢ i
        → counter guid ≢ w
        → get_var P s i ≡ some w
        → get_var P r i ≡ some w
    pub bindings :
        (i : Ident) (v : IdVal)
        → get_var P r i ≡ some v
        → ((register d ≡ i) × (counter guid ≡ v)) ⊎ ((register d ≢ i) × (get_var P s i ≡ some v))

  pub var_new-IsRenewed :
      (guid : ℕ) (s : PplDomain P) (d : ℤ)
      → IsDomain P s
      → (r : PplDomain P) × (var_new P s guid (register d) no_step true ≡ some (guid, suc guid, r))
        × IsRenewed guid s d r
  unfolding var_new step_fits get_var
  var_new-IsRenewed guid s d h =
      let (valid, bound) = add-IsMapping s.idmap (register d) (counter guid) h.idmap in
      let r : PplDomain P = record s { idmap = add s.idmap (register d) (counter guid) } in
      elim (Option-cases (find1 s.idmap (register d))) [
        | inl e ↦ (
          r,
          rw (var_new, e) refl,
          record {
            valid = record { poly = h.poly; idmap = valid };
            poly = refl;
            compare = refl;
            defined = (bound (register d) (counter guid)).1 (inl (refl, refl));
            kept = λ i w n u q. (bound i w).1 (inr (n, (u, q)));
            bindings = λ i v q. kept ((bound i v).0 q);
          },
        )
        | inr (old, e) ↦ (
          record r { victims = s.victims ++ old.g ∷ [] },
          rw (var_new, e) refl,
          record {
            valid = record { poly = h.poly; idmap = valid };
            poly = refl;
            compare = refl;
            defined = (bound (register d) (counter guid)).1 (inl (refl, refl));
            kept = λ i w n u q. (bound i w).1 (inr (n, (u, q)));
            bindings = λ i v q. kept ((bound i v).0 q);
          },
        )
      ]
    where
      kept :
          {i : Ident} {v : IdVal}
          → Added s.idmap (register d) (counter guid) i v
          → ((register d ≡ i) × (counter guid ≡ v))
            ⊎ ((register d ≢ i) × (find1 s.idmap i ≡ some v))
      kept (inl x) = inl x
      kept (inr (n, x)) = inr (n, x.1)

  sum_coefs-fresh :
      (ρ : Valuation) (n : ℕ) (x : ℤ) (m : StdMap ℤ)
      → IsBelow n m
      → sum_coefs (with_value ρ n x) m ≡ sum_coefs ρ m
  unfolding sum_coefs
  sum_coefs-fresh ρ n x [] h = refl
  sum_coefs-fresh ρ n x ((g, c) ∷ m) h =
      let other : (n == g) ≡ false = ground (arith, h.0) in
      rw (other, sum_coefs-fresh ρ n x m h.1) refl

  pub value-fresh :
      (ρ : Valuation) (n : ℕ) (x : ℤ) (e : WLinExpr)
      → Uses n e
      → value (with_value ρ n x) e ≡ value ρ e
  unfolding value
  value-fresh ρ n x e h = rw (sum_coefs-fresh ρ n x e.coefs h) refl

  module _ (guid : ℕ) (s r : PplDomain P) (d : ℤ) (h : IsCounted (guid, s))
      (v : IsRenewed guid s d r) where
    free : find guid s.poly.adapter ≡ none
    free = elim (Option-cases (find guid s.poly.adapter)) [
      | inl e ↦ e
      | inr (c, e) ↦ absurd (omega (arith, h.tracked guid c e))
    ]

    pub renewed-bound : (i : Ident) (w : IdVal) → get_var P r i ≡ some w → w.g < suc guid
    renewed-bound i w e = elim (v.bindings i w e) [
      | inl (x, y) ↦ subst (λ (q : IdVal). q.g < suc guid) y (omega arith)
      | inr (x, y) ↦ omega (arith, h.bound i w y)
    ]

    pub renewed-Models :
        (ρ : Valuation) (x : ℤ) → Models P s.poly ρ → Models P r.poly (with_value ρ guid x)
    renewed-Models ρ x m =
        subst (λ w. Models P w (with_value ρ guid x)) (sym v.poly)
          (Models-fresh P s.poly guid ρ (with_value ρ guid x) free (λ k e. rw e refl) m)

    pub renewed-registers :
        (ρ : Valuation) (σ : Registers) (x : ℤ)
        → ((k : ℤ) (w : IdVal) → get_var P s (register k) ≡ some w → ρ w.g ≡ σ k)
        → (k : ℤ) (w : IdVal) → get_var P r (register k) ≡ some w
        → with_value ρ guid x w.g ≡ write σ d x k
    renewed-registers ρ σ x m k w e = elim (v.bindings (register k) w e) [
      | inl (a, b) ↦
          let same : d ≡ k = ap (λ (i : Ident). i.id) a in
          let here : guid ≡ w.g = ap (λ (q : IdVal). q.g) b in
          rw ((==_iff guid w.g).1 here, (eqb_ℤ_iff d k).1 same) refl
      | inr (a, b) ↦ elim (Bool-cases (eqb_ℤ d k)) [
        | inl q ↦ absurd (a (ap register ((eqb_ℤ_iff d k).0 q)))
        | inr q ↦
            let other : (guid == w.g) ≡ false = ground (arith, h.bound (register k) w b) in
            rw (other, q) (m k w b)
      ]
    ]

  abbrev pub Knows : PplDomain P → ℤ → Type 0
  Knows s k = (v : IdVal) × (get_var P s (register k) ≡ some v)

  -- what the write of register `d` leaves alone
  pub record IsKept (d : ℤ) (s s' : PplDomain P) : Type 0 where
    pub compare : s'.compare_reg ≡ s.compare_reg
    pub known : (k : ℤ) → (d ≡ k) ⊎ Knows s k → Knows s' k

  -- what an instruction that writes `x` to register `d` must do
  abbrev pub Writes : Counted P → ℤ → ℤ → Registers → Counted P → Type 0
  Writes st d x σ st' = IsCounted st' × Describes st'.1 (write σ d x) × IsKept d st.1 st'.1

  pub renewed-IsKept :
      (guid : ℕ) (s r : PplDomain P) (d : ℤ)
      → IsCounted (guid, s)
      → IsRenewed guid s d r
      → IsKept d s r
  renewed-IsKept guid s r d h v = record {
    compare = v.compare;
    known = λ k e. elim (Bool-cases (eqb_ℤ d k)) [
      | inl q ↦ here k ((eqb_ℤ_iff d k).0 q)
      | inr q ↦ elim e [
        | inl x ↦ here k x
        | inr (w, f) ↦ (
          w,
          v.kept (register k) w (λ x. other k q (ap (λ (i : Ident). i.id) x))
              (λ x. omega (arith, h.bound (register k) w f, ap (λ (q : IdVal). q.g) x)) f,
        )
      ]
    ];
  }
    where
      here : (k : ℤ) → d ≡ k → Knows r k
      here k x =
          (counter guid, subst (λ z. get_var P r (register z) ≡ some (counter guid)) x v.defined)

      other : (k : ℤ) → eqb_ℤ d k ≡ false → d ≢ k
      other k q x = grind (arith, q, (eqb_ℤ_iff d k).1 x)

  pub constrained-IsCounted :
      (guid : ℕ) (r : PplDomain P) (a b : WLinExpr)
      → IsCounted (guid, r)
      → Uses guid a
      → Uses guid b
      → IsCounted (guid, do_new_constraint P (cons_equal a b) r)
  unfolding do_new_constraint get_var cons_equal
  constrained-IsCounted guid r a b h ua ub = record {
    valid = do_new_constraint-IsDomain P (cons_equal a b) r h.valid;
    tracked =
        add_constraint-TracksBelow P guid (cons_equal a b) r.poly (-ₗ-Uses guid a b ua ub)
          h.tracked;
    bound = h.bound;
  }

  pub renewed-IsCounted :
      (guid : ℕ) (s r : PplDomain P) (d : ℤ)
      → IsCounted (guid, s)
      → IsRenewed guid s d r
      → IsCounted (suc guid, r)
  renewed-IsCounted guid s r d h v = record {
    valid = v.valid;
    tracked = λ g c e.
        let old : g < guid = h.tracked g c (subst (λ w. find g w.adapter ≡ some c) v.poly e) in
        omega (arith, old);
    bound = renewed-bound guid s r d h v;
  }
