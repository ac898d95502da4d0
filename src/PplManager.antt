-- ===== src/PplManager.antt =====
-- PPLManager of poly_PPLManager.cpp and include/PPLManager.h: the states that an analysis of a task
-- starts from. `none` stands for a failed assertion of varNew.
pub mod Vars
pub mod Start
use polymalys.Common.{ℕ, suc, false, Option, none, some, List, [], ◌∷◌}
use polymalys.Common.Int.{ℤ, pos, negsuc}
use polymalys.Linear.{WVar, of_var, of_cst, cons_equal, cons_at_least, cons_at_most}
use polymalys.Ppl.{Ppl}
use polymalys.Ident.{Ident, ident, id_reg, id_special, no_step}
use polymalys.PplDomain.{PplDomain, bottom, top, var_new}
use polymalys.PplDomain.Loops.{do_new_constraint}

-- STACK_TOP, and STACK_TOP + 0x1000000
abbrev pub stack_top : ℤ
stack_top = negsuc 1610612735

abbrev pub stack_limit : ℤ
stack_limit = negsuc 1593835519

-- the registers sp, fp and lr, and their values at the start: ID_START_SP, ID_START_FP, ID_START_LR
abbrev pub start_idents : List Ident
start_idents =
    ident (pos 13) id_reg
    ∷ ident (pos 11) id_reg
    ∷ ident (pos 14) id_reg
    ∷ ident (pos 0) id_special
    ∷ ident (pos 1) id_special
    ∷ ident (pos 2) id_special
    ∷ []

module _ (P : Ppl) where
  pub record PplManager : Type 0 where
    pub init : PplDomain P
    pub bot : PplDomain P
    pub top : PplDomain P

  -- PPLManager(t &, const PropList &, WorkSpace *)
  unfoldable pub manager_of : PplDomain P → PplManager
  unfolding bottom top
  manager_of d = record { init = d; bot = bottom P; top = top P }

  -- calls of varNew, one after the other: the variables, the counter and the state
  unfoldable pub new_vars : List Ident → ℕ → PplDomain P → Option (List WVar × ℕ × PplDomain P)
  unfolding var_new
  new_vars [] guid d = some ([], guid, d)
  new_vars (i ∷ is) guid d = elim (var_new P d guid i no_step false) [
    | none ↦ none
    | some (v, guid', d') ↦ elim (new_vars is guid' d') [
      | none ↦ none
      | some (vs, guid'', d'') ↦ some (v ∷ vs, guid'', d'')
    ]
  ]

  unfoldable pub constrain_start : List WVar → PplDomain P → PplDomain P
  unfolding do_new_constraint cons_equal cons_at_least cons_at_most of_var of_cst
  constrain_start (sp ∷ fp ∷ lr ∷ ssp ∷ sfp ∷ slr ∷ []) d =
      let d1 = do_new_constraint P (cons_equal (of_var ssp) (of_var sp)) d in
      let d2 = do_new_constraint P (cons_equal (of_var sfp) (of_var fp)) d1 in
      let d3 = do_new_constraint P (cons_equal (of_var slr) (of_var lr)) d2 in
      let d4 = do_new_constraint P (cons_at_least (of_var ssp) (of_cst stack_top)) d3 in
      let d5 = do_new_constraint P (cons_at_least (of_var sfp) (of_cst stack_top)) d4 in
      let d6 = do_new_constraint P (cons_at_most (of_var ssp) (of_cst stack_limit)) d5 in
      do_new_constraint P (cons_at_most (of_var sfp) (of_cst stack_limit)) d6
  constrain_start vs d = d

  -- PPLManager(const PropList &, WorkSpace *), with the counter of guids
  unfoldable pub fresh_manager : ℕ → Option (ℕ × PplManager)
  unfolding new_vars constrain_start manager_of top
  fresh_manager guid = elim (new_vars start_idents guid (top P)) [
    | none ↦ none
    | some (vs, guid', d) ↦ some (guid', manager_of (constrain_start vs d))
  ]
