-- ===== src/PplDomain/SemWrites.antt =====
-- What the instructions that write a register do to the described values of the registers.
use polymalys.Common.{ℕ, suc, some, ◌≡◌, refl, sym, ◌∙◌, subst, ==_iff, arith}
use polymalys.Common.Int.{ℤ}
use polymalys.Linear.{WLinExpr, of_var, of_cst, cons_equal}
use polymalys.Linear.Value.{value, IsExpr}
use polymalys.Linear.Compare.{Sat-equal, of_var-IsExpr, of_cst-IsExpr, value-of_var, value-of_cst}
use polymalys.Linear.Fresh.{Uses, of_var-Uses, of_cst-Uses, IsBelow-mono}
use polymalys.Ppl.{Ppl}
use polymalys.Ident.{IdVal}
use polymalys.PplDomain.{get_var}
use polymalys.PplDomain.Loops.{do_new_constraint}
use polymalys.PplDomain.LoopFacts.{do_new_constraint-Models}
use polymalys.PplDomain.SemInst.{Counted, register, to_int32, set_value, set_constant, set_register}
use polymalys.PplDomain.SemFacts.{
  Registers, IsCounted, Describes, with_value, write, var_new-IsRenewed, value-fresh,
  renewed-Models, renewed-registers, renewed-IsCounted, constrained-IsCounted, renewed-IsKept,
  Writes,
}

module _ (P : Ppl) where
  set_value-Writes :
      (st : Counted P) (d : ℤ) (e : WLinExpr) (σ : Registers)
      → IsCounted P st
      → Uses st.0 e
      → IsExpr e
      → (m : Describes P st.1 σ)
      → (st' : Counted P) × (set_value P st d e ≡ some st') × Writes P st d (value m.0 e) σ st'
  unfolding set_value do_new_constraint get_var
  set_value-Writes (guid, s) d e σ h u x (ρ, m, regs) =
      let (r, f, v) = var_new-IsRenewed P guid s d h.valid in
      let kept = renewed-IsKept P guid s r d h v in
      let ρ' = with_value P ρ guid (value ρ e) in
      let uses = IsBelow-mono guid (suc guid) e.coefs (omega arith) u in
      let equal : value ρ' (of_var guid) ≡ value ρ' e =
        value-of_var ρ' guid
        ∙ (rw ((==_iff guid guid).1 refl) (sym (value-fresh P ρ guid (value ρ e) e u))) in
      (
        (suc guid, do_new_constraint P (cons_equal (of_var guid) e) r),
        rw (set_value, f) refl,
        (
          constrained-IsCounted P (suc guid) r (of_var guid) e (renewed-IsCounted P guid s r d h v)
              (of_var-Uses (suc guid) guid (omega arith)) uses,
          (
            ρ',
            (do_new_constraint-Models P (cons_equal (of_var guid) e) r ρ' v.valid).1 (
              renewed-Models P guid s r d h v ρ (value ρ e) m,
              (Sat-equal ρ' (of_var guid) e (of_var-IsExpr guid) x).1 equal,
            ),
            renewed-registers P guid s r d h v ρ σ (value ρ e) regs,
          ),
          record { compare = kept.compare; known = kept.known },
        ),
      )

  pub set_constant-Writes :
      (st : Counted P) (d : ℤ) (c : ℕ) (σ : Registers)
      → IsCounted P st
      → Describes P st.1 σ
      → (st' : Counted P) × (set_constant P st d c ≡ some st') × Writes P st d (to_int32 c) σ st'
  unfolding set_constant
  set_constant-Writes st d c σ h m =
      let (st', e, (i, m', k)) =
        set_value-Writes st d (of_cst (to_int32 c)) σ h (of_cst-Uses st.0 (to_int32 c))
          (of_cst-IsExpr (to_int32 c)) m in
      (
        st',
        e,
        (i, subst (λ x. Describes P st'.1 (write P σ d x)) (value-of_cst m.0 (to_int32 c)) m', k),
      )

  pub set_register-Writes :
      (st : Counted P) (d a : ℤ) (v : IdVal) (σ : Registers)
      → IsCounted P st
      → Describes P st.1 σ
      → get_var P st.1 (register a) ≡ some v
      → (st' : Counted P) × (set_register P st d a ≡ some st') × Writes P st d (σ a) σ st'
  unfolding set_register
  set_register-Writes st d a v σ h m f =
      let (st', e, (i, m', k)) =
        set_value-Writes st d (of_var v.g) σ h (of_var-Uses st.0 v.g (h.bound (register a) v f))
          (of_var-IsExpr v.g) m in
      (
        st',
        rw (set_register, f) e,
        (
          i,
          subst (λ x. Describes P st'.1 (write P σ d x)) (value-of_var m.0 v.g ∙ m.2 a v f) m',
          k,
        ),
      )
