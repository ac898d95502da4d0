-- ===== src/PplDomain/Branch.antt =====
-- The filtering part of onBranch in poly_PPLDomain.cpp: the edge of a conditional branch keeps the
-- states in which the compared difference has the right sign. The export of the conditions that is
-- between the filter and the end of onBranch changes no state and is left out.
use polymalys.Common.{Bool, Option, none, some, if◌then◌else◌}
use polymalys.Common.Int.{pos, negsuc}
use polymalys.Linear.{WVar, of_var, of_cst, cons_equal, cons_at_least, cons_at_most}
use polymalys.Ppl.{Ppl}
use polymalys.WPoly.{add_constraint}
use polymalys.WPoly.Combine.{poly_hull_assign}
use polymalys.Ident.{invalid}
use polymalys.PplDomain.{
  PplDomain, Cond, no_cond, eq, lt, le, ge, gt, any_cond, ne, ult, ule, uge, ugt, bottom, is_bottom,
  has_filter, get_var, var_kill_ident,
}
use polymalys.PplDomain.Loops.{do_new_constraint}

module _ (P : Ppl) where
  -- NE: the hull of the states below and above
  unfoldable pub filter_ne : PplDomain P → WVar → Option (PplDomain P)
  unfolding add_constraint poly_hull_assign cons_at_least cons_at_most of_var of_cst
  filter_ne d v =
      elim (poly_hull_assign P
        (add_constraint P (cons_at_most (of_var v) (of_cst (negsuc 0))) d.poly)
        (add_constraint P (cons_at_least (of_var v) (of_cst (pos 1))) d.poly)) [
          | none ↦ none
          | some w ↦ some (record d { poly = w })
        ]

  -- the switch on the condition, with the variable of compare_reg
  unfoldable pub filter : Cond → PplDomain P → WVar → Option (PplDomain P)
  unfolding filter_ne do_new_constraint cons_equal cons_at_least cons_at_most of_var of_cst
  filter ne d v = filter_ne d v
  filter eq d v = some (do_new_constraint P (cons_equal (of_var v) (of_cst (pos 0))) d)
  filter ge d v = some (do_new_constraint P (cons_at_least (of_var v) (of_cst (pos 0))) d)
  filter uge d v = some (do_new_constraint P (cons_at_least (of_var v) (of_cst (pos 0))) d)
  filter gt d v = some (do_new_constraint P (cons_at_least (of_var v) (of_cst (pos 1))) d)
  filter ugt d v = some (do_new_constraint P (cons_at_least (of_var v) (of_cst (pos 1))) d)
  filter le d v = some (do_new_constraint P (cons_at_most (of_var v) (of_cst (pos 0))) d)
  filter ule d v = some (do_new_constraint P (cons_at_most (of_var v) (of_cst (pos 0))) d)
  filter lt d v = some (do_new_constraint P (cons_at_most (of_var v) (of_cst (negsuc 0))) d)
  filter ult d v = some (do_new_constraint P (cons_at_most (of_var v) (of_cst (negsuc 0))) d)
  filter no_cond d v = some d
  filter any_cond d v = some d

  -- the end of onBranch
  unfoldable pub forget_compare : PplDomain P → Option (PplDomain P)
  unfolding var_kill_ident is_bottom bottom
  forget_compare d = elim (var_kill_ident P d d.compare_reg) [
    | none ↦ none
    | some r ↦
        let r' : PplDomain P = record r { compare_reg = invalid } in
        some (if is_bottom P r' then bottom P else r')
  ]

  -- onBranch; `invert` is sem::invert
  unfoldable pub on_branch : (Cond → Cond) → Bool → PplDomain P → Option (PplDomain P)
  unfolding is_bottom bottom has_filter get_var filter forget_compare
  on_branch invert taken d =
      let op = if taken then d.compare_op else invert d.compare_op in
      if is_bottom P d
      then some (bottom P)
      else if has_filter P d
      then elim (get_var P d d.compare_reg) [
        | none ↦ none
        | some v ↦ elim (filter op d v.g) [ none ↦ none | some r ↦ forget_compare r ]
      ]
      else none
