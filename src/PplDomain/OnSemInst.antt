-- ===== src/PplDomain/OnSemInst.antt =====
-- onSemInst of poly_PPLDomain.cpp: the switch on the semantic instruction. doIntegerWrap, which ends
-- it, does nothing.
use polymalys.Common.{
  ℕ, Bool, true, false, not, ◌&&◌, Option, none, some, List, [], ◌∷◌, if◌then◌else◌,
}
use polymalys.Common.Int.{ℤ}
use polymalys.Ppl.{Ppl}
use polymalys.PplDomain.{Cond, has_filter}
use polymalys.PplDomain.SemInst.{
  Counted, set_constant, set_register, set_result, scratch, set_filter,
}
use polymalys.PplDomain.Transfer.{Opcode}
use polymalys.PplDomain.Delta.{Solver}
use polymalys.PplDomain.Load.{Memory, load}
use polymalys.PplDomain.StoreNew.{store}

-- sem::inst, with the operands that the switch reads; `binary` stands for the twelve opcodes of
-- _doBinaryOp, and an opcode that the switch does not name for an assertion that fails
pub data SemInst : Type 0 where
  nop : SemInst
  trap : SemInst
  cont : SemInst
  branch : SemInst
  scratches : ℤ → SemInst
  setp : ℤ → ℕ → SemInst
  seti : ℤ → ℕ → SemInst
  set_to : ℤ → ℤ → SemInst
  binary : Opcode → ℤ → ℤ → ℤ → SemInst
  stores : ℤ → ℤ → SemInst
  loads : ℤ → ℤ → SemInst
  not_of : ℤ → ℤ → SemInst
  if_cond : ℤ → Cond → ℕ → SemInst
  invalid_inst : SemInst

unfoldable pub is_branch : SemInst → Bool
is_branch branch = true
is_branch _ = false

module _ (P : Ppl) (solver : Solver P) (memory : Memory) where
  unfoldable pub transfer : SemInst → Counted P → Option (Counted P)
  unfolding scratch set_constant set_register set_result set_filter load store
  transfer nop st = some st
  transfer trap st = some st
  transfer cont st = some st
  transfer branch st = some st
  transfer (scratches d) st = scratch P st d
  transfer (setp d c) st = some st
  transfer (seti d c) st = set_constant P st d c
  transfer (set_to d a) st = set_register P st d a
  transfer (binary op d a b) st = set_result P op st d a b
  transfer (stores d a) st = store P solver st d a
  transfer (loads d a) st = load P solver memory st d a
  transfer (not_of d a) st = some st
  transfer (if_cond r c jump) st = set_filter P st r c jump
  transfer invalid_inst st = none

  -- after an IF that set the filter, only the branch may follow
  unfoldable pub on_sem_inst : SemInst → Counted P → Option (Counted P)
  unfolding has_filter transfer
  on_sem_inst i st = if has_filter P st.1 && not (is_branch i) then none else transfer i st

  -- the semantic instructions of one machine instruction
  unfoldable pub on_sem_insts : List SemInst → Counted P → Option (Counted P)
  unfolding on_sem_inst
  on_sem_insts [] st = some st
  on_sem_insts (i ∷ is) st = elim (on_sem_inst i st) [
    | none ↦ none
    | some st' ↦ on_sem_insts is st'
  ]
