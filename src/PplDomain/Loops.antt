-- ===== src/PplDomain/Loops.antt =====
-- onLoopEntry, onLoopIter and onLoopExit of poly_PPLDomain.cpp: the counter of a loop is the
-- variable of its identifier, replaced at every iteration.
use polymalys.Common.{ℕ, zero, suc, true, Option, none, some, if◌then◌else◌}
use polymalys.Common.Int.{ℤ, pos, leb_ℤ}
use polymalys.Linear.{WCons, of_var, of_cst, cons_equal, cons_at_most, ◌+ₗ◌}
use polymalys.Ppl.{Ppl}
use polymalys.WPoly.{add_constraint, is_empty}
use polymalys.Ident.{Ident, id_loop, ident, no_step}
use polymalys.PplDomain.{PplDomain, bottom, get_var, var_new, var_kill}

abbrev pub loop_ident : ℤ → Ident
loop_ident loop = ident loop id_loop

module _ (P : Ppl) where
  -- doNewConstraint
  unfoldable pub do_new_constraint : WCons → PplDomain P → PplDomain P
  unfolding add_constraint
  do_new_constraint c d = record d { poly = add_constraint P c d.poly }

  -- the counter of guids and the state afterwards
  unfoldable pub on_loop_entry : PplDomain P → ℕ → ℤ → Option (ℕ × PplDomain P)
  unfolding var_new do_new_constraint cons_equal of_var of_cst
  on_loop_entry d guid loop = elim (var_new P d guid (loop_ident loop) no_step true) [
    | none ↦ none
    | some (v, guid', s) ↦
        some (guid', do_new_constraint (cons_equal (of_var v) (of_cst (pos 0))) s)
  ]

  unfoldable pub on_loop_iter : PplDomain P → ℕ → ℤ → Option (ℕ × PplDomain P)
  unfolding get_var var_new do_new_constraint cons_equal of_var of_cst ◌+ₗ◌
  on_loop_iter d guid loop = elim (get_var P d (loop_ident loop)) [
    | none ↦ none
    | some old ↦ elim (var_new P d guid (loop_ident loop) no_step true) [
      | none ↦ none
      | some (v, guid', s) ↦
          some (guid', do_new_constraint (cons_equal (of_var v) (of_var old.g +ₗ of_cst (pos 1))) s)
    ]
  ]

  -- the bound is used where it is not negative
  unfoldable pub limit_counter : ℕ → ℤ → PplDomain P → PplDomain P
  unfolding do_new_constraint cons_at_most of_var of_cst
  limit_counter v bound d =
      if leb_ℤ (pos 0) bound
      then do_new_constraint (cons_at_most (of_var v) (of_cst bound)) d
      else d

  unfoldable pub on_loop_exit : PplDomain P → ℤ → ℤ → Option (PplDomain P)
  unfolding get_var limit_counter var_kill is_empty bottom
  on_loop_exit d loop bound = elim (get_var P d (loop_ident loop)) [
    | none ↦ none
    | some v ↦ elim (var_kill P (limit_counter v.g bound d) (record { g = v.g; s = no_step })) [
      | none ↦ none
      | some s ↦ some (if is_empty P s.poly then bottom P else s)
    ]
  ]

  -- entering a loop and going round it `n` times
  unfoldable pub after_rounds : PplDomain P → ℕ → ℤ → ℕ → Option (ℕ × PplDomain P)
  unfolding on_loop_entry on_loop_iter
  after_rounds d guid loop zero = on_loop_entry d guid loop
  after_rounds d guid loop (suc n) = elim (after_rounds d guid loop n) [
    | none ↦ none
    | some (guid', s) ↦ on_loop_iter s guid' loop
  ]
