-- ===== src/PplDomain/SemRun.antt =====
-- A sequence of register instructions: the analysis of onSemInst follows every run of a machine whose
-- registers hold unbounded integers, as the constraints of the source do.
use polymalys.Common.{
  Bool, true, false, not, ◌&&◌, ◌||◌, some, List, [], ◌∷◌, ◌≡◌, refl, sym, ap, ◌∙◌, subst, inl, inr,
  Bool-cases, arith,
}
use polymalys.Common.Int.{ℤ, eqb_ℤ, eqb_ℤ_iff}
use polymalys.Ppl.{Ppl}
use polymalys.Ident.{Ident, same_type, id_invalid}
use polymalys.PplDomain.{PplDomain, has_filter}
use polymalys.PplDomain.SemInst.{Counted, to_int32}
use polymalys.PplDomain.Delta.{Solver}
use polymalys.PplDomain.Load.{Memory}
use polymalys.PplDomain.OnSemInst.{
  SemInst, nop, trap, cont, branch, seti, set_to, binary, transfer, on_sem_inst, on_sem_insts,
}
use polymalys.PplDomain.SemFacts.{Registers, IsCounted, Describes, write, Knows, Writes}
use polymalys.PplDomain.SemWrites.{set_constant-Writes, set_register-Writes}
use polymalys.PplDomain.SemResult.{Computes, set_result-Writes}

-- which registers are defined before an instruction, and after it
abbrev pub Known : Type 0
Known = ℤ → Bool

unfoldable pub reads_known : SemInst → Known → Bool
reads_known (set_to d a) known = known a
reads_known (binary op d a b) known = known a && known b
reads_known _ known = true

unfoldable pub known_after : SemInst → Known → Known
known_after (seti d c) known k = eqb_ℤ d k || known k
known_after (set_to d a) known k = eqb_ℤ d k || known k
known_after (binary op d a b) known k = eqb_ℤ d k || known k
known_after _ known k = known k

unfoldable pub all_reads_known : List SemInst → Known → Bool
unfolding reads_known known_after
all_reads_known [] known = true
all_reads_known (i ∷ is) known = reads_known i known && all_reads_known is (known_after i known)

both : {a b : Bool} → (a && b) ≡ true → (a ≡ true) × (b ≡ true)
both {a = true} e = (refl, e)
both {a = false} e = absurd (ground (arith, e))

unfoldable pub all_known_after : List SemInst → Known → Known
unfolding known_after
all_known_after [] known = known
all_known_after (i ∷ is) known = all_known_after is (known_after i known)

module _ (P : Ppl) where
  -- the steps of the machine; there is none of an instruction that is no register instruction
  abbrev pub Step : SemInst → Registers → Registers → Type 0
  Step nop σ τ = τ ≡ σ
  Step trap σ τ = τ ≡ σ
  Step cont σ τ = τ ≡ σ
  Step branch σ τ = τ ≡ σ
  Step (seti d c) σ τ = τ ≡ write P σ d (to_int32 c)
  Step (set_to d a) σ τ = τ ≡ write P σ d (σ a)
  Step (binary op d a b) σ τ = (x : ℤ) × Computes P op x (σ a) (σ b) × (τ ≡ write P σ d x)
  Step _ σ τ = ⊥

  abbrev pub Steps : List SemInst → Registers → Registers → Type 0
  Steps [] σ τ = τ ≡ σ
  Steps (i ∷ is) σ τ = (υ : Registers) × Step i σ υ × Steps is υ τ

  -- a state that describes the values of the registers and knows at least some of them
  pub record IsAt (known : Known) (σ : Registers) (st : Counted P) : Type 0 where
    pub counted : IsCounted P st
    pub describes : Describes P st.1 σ
    pub unfiltered : has_filter P st.1 ≡ false
    pub knows : (k : ℤ) → known k ≡ true → Knows P st.1 k

  unfiltered-kept :
      (s s' : PplDomain P)
      → s'.compare_reg ≡ s.compare_reg
      → has_filter P s ≡ false
      → has_filter P s' ≡ false
  unfolding has_filter
  unfiltered-kept s s' e h = ap (λ (i : Ident). not (same_type i.type id_invalid)) e ∙ h

  written-IsAt :
      (known : Known) (σ : Registers) (st st' : Counted P) (d x : ℤ)
      → IsAt known σ st
      → Writes P st d x σ st'
      → IsAt (λ k. eqb_ℤ d k || known k) (write P σ d x) st'
  written-IsAt known σ st st' d x h (counted, describes, kept) = record {
    counted = counted;
    describes = describes;
    unfiltered = unfiltered-kept st.1 st'.1 kept.compare h.unfiltered;
    knows = λ k e. kept.known k (elim (Bool-cases (eqb_ℤ d k)) [
      | inl q ↦ inl ((eqb_ℤ_iff d k).0 q)
      | inr q ↦ inr (h.knows k (rw q at e))
    ]);
  }

  module _ (solver : Solver P) (memory : Memory) where
    transfer-IsAt :
        (i : SemInst) (known : Known) (σ τ : Registers) (st : Counted P)
        → IsAt known σ st
        → reads_known i known ≡ true
        → Step i σ τ
        → (st' : Counted P) × (transfer P solver memory i st ≡ some st')
          × IsAt (known_after i known) τ st'
    unfolding transfer reads_known known_after
    transfer-IsAt nop known σ τ st h r e = (st, refl, subst (λ υ. IsAt known υ st) (sym e) h)
    transfer-IsAt trap known σ τ st h r e = (st, refl, subst (λ υ. IsAt known υ st) (sym e) h)
    transfer-IsAt cont known σ τ st h r e = (st, refl, subst (λ υ. IsAt known υ st) (sym e) h)
    transfer-IsAt branch known σ τ st h r e = (st, refl, subst (λ υ. IsAt known υ st) (sym e) h)
    transfer-IsAt (seti d c) known σ τ st h r e =
        let (st', f, w) = set_constant-Writes P st d c σ h.counted h.describes in
        (
          st',
          f,
          subst (λ υ. IsAt (known_after (seti d c) known) υ st') (sym e)
              (written-IsAt known σ st st' d (to_int32 c) h w),
        )
    transfer-IsAt (set_to d a) known σ τ st h r e =
        let (v, g) = h.knows a r in
        let (st', f, w) = set_register-Writes P st d a v σ h.counted h.describes g in
        (
          st',
          f,
          subst (λ υ. IsAt (known_after (set_to d a) known) υ st') (sym e)
              (written-IsAt known σ st st' d (σ a) h w),
        )
    transfer-IsAt (binary op d a b) known σ τ st h r (x, c, e) =
        let (va, ga) = h.knows a (both r).0 in
        let (vb, gb) = h.knows b (both r).1 in
        let (st', f, w) = set_result-Writes P op st d a b va vb σ x h.counted h.describes ga gb c in
        (
          st',
          f,
          subst (λ υ. IsAt (known_after (binary op d a b) known) υ st') (sym e)
              (written-IsAt known σ st st' d x h w),
        )
    transfer-IsAt _ known σ τ st h r e = absurd e

    on_sem_inst-IsAt :
        (i : SemInst) (known : Known) (σ τ : Registers) (st : Counted P)
        → IsAt known σ st
        → reads_known i known ≡ true
        → Step i σ τ
        → (st' : Counted P) × (on_sem_inst P solver memory i st ≡ some st')
          × IsAt (known_after i known) τ st'
    unfolding on_sem_inst
    on_sem_inst-IsAt i known σ τ st h r e =
        let (st', f, a) = transfer-IsAt i known σ τ st h r e in
        (st', rw (on_sem_inst, h.unfiltered) f, a)

    -- Where no instruction reads an undefined register, the analysis of a sequence of register
    -- instructions succeeds. After it the state is valid, knows the registers that it knew and those
    -- that were written, and describes the values that any run of the machine ends with, from values
    -- that the state described before. The integers are unbounded, and no step is given to SCRATCH,
    -- STORE, LOAD, NOT, IF, SETP, the shifts and MULH.
    pub on_sem_insts-IsAt :
        (is : List SemInst) (known : Known) (σ τ : Registers) (st : Counted P)
        → IsAt known σ st
        → all_reads_known is known ≡ true
        → Steps is σ τ
        → (st' : Counted P) × (on_sem_insts P solver memory is st ≡ some st')
          × IsAt (all_known_after is known) τ st'
    unfolding on_sem_insts all_reads_known all_known_after
    on_sem_insts-IsAt [] known σ τ st h r e = (st, refl, subst (λ υ. IsAt known υ st) (sym e) h)
    on_sem_insts-IsAt (i ∷ is) known σ τ st h r (υ, e, es) =
        let (now, later) =
          both {a = reads_known i known} {b = all_reads_known is (known_after i known)} r in
        let (st1, f, a) = on_sem_inst-IsAt i known σ υ st h now e in
        let (st2, g, at) = on_sem_insts-IsAt is (known_after i known) υ τ st1 a later es in
        (st2, rw (on_sem_insts, f) g, at)
