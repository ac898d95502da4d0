-- ===== src/PplDomain/Replace.antt =====
-- Replacement of memory variables, entry of a function, and the tests of stack and segments in
-- poly_PPLDomain.cpp. A segment of the program file has an address, a size and a flag for writing.
use polymalys.Common.{
  ℕ, zero, suc, Bool, true, false, not, Option, none, some, List, [], ◌∷◌, if◌then◌else◌, ◌==◌,
}
use polymalys.Common.Int.{ℤ, pos, negsuc, ◌+ℤ◌}
use polymalys.Linear.{
  WVar, WCons, of_var, of_cst, cons_equal, cons_at_least, cons_below, cons_above, ◌-ₗ◌,
}
use polymalys.Ppl.{Ppl}
use polymalys.WPoly.{must_hold, unconstrain, map_vars}
use polymalys.WPoly.Combine.{intersection_assign}
use polymalys.Ident.{
  Ident, IdVal, ident, id_reg, id_mem_val, id_mem_val_plus, id_mem_val_minus, id_special, no_step,
}
use polymalys.MyHTable.{count}
use polymalys.Mapping.{find2}
use polymalys.PplDomain.{
  PplDomain, has_ident, get_var, get_var_or_new, var_new, var_kill, var_create_ptr, var_create_clp,
}
use polymalys.PplDomain.Loops.{do_new_constraint}
use polymalys.PplDomain.Memory.{new_equal, both_hold, stack_pointer, start_sp}

pub record Segment : Type 0 where
  pub address : ℤ
  pub seg_size : ℤ
  pub writable : Bool

-- the results of segmentChecking
pub data Verdict : Type 0 where
  case_safe : Verdict
  case_unsafe : Verdict
  case_unknown : Verdict

-- STACK_TOP - STACK_SIZE
abbrev pub stack_end : ℤ
stack_end = negsuc 1879048191

-- `a || b`, where a false `a` has `b` evaluated
unfoldable pub either_holds : Option Bool → Option Bool → Option Bool
either_holds none b = none
either_holds (some true) b = some true
either_holds (some false) b = b

module _ (P : Ppl) where
  -- the variable of a new address, equal to that of the old one
  unfoldable pub new_address : PplDomain P → ℕ → Ident → IdVal → Option (WVar × ℕ × PplDomain P)
  unfolding var_new do_new_constraint cons_equal of_var
  new_address d guid i address = elim (var_new P d guid i address.s false) [
    | none ↦ none
    | some (v, guid', r) ↦
        some (v, guid', do_new_constraint P (cons_equal (of_var address.g) (of_var v)) r)
  ]

  unfoldable pub kill_both : PplDomain P → IdVal → IdVal → Option (PplDomain P)
  unfolding var_kill
  kill_both d a b = elim (var_kill P d a) [ none ↦ none | some r ↦ var_kill P r b ]

  -- the creation of variables in memReplace
  unfoldable pub replace_pointer : PplDomain P → ℕ → IdVal → WVar → Option (WVar × ℕ × PplDomain P)
  unfolding var_create_ptr new_address new_equal of_var
  replace_pointer d guid address value_source =
      let (id_address, id_value, d1) = var_create_ptr P d in
      elim (new_address d1 guid id_address address) [
        | none ↦ none
        | some (v, g1, d2) ↦ elim (new_equal P d2 g1 id_value no_step (of_var value_source)) [
          | none ↦ none
          | some (w, g2, d3) ↦ some (v, g2, d3)
        ]
      ]

  -- memReplace
  unfoldable pub mem_replace : PplDomain P → ℕ → IdVal → WVar → Option (WVar × ℕ × PplDomain P)
  unfolding find2 get_var replace_pointer kill_both
  mem_replace d guid address value_source = elim (find2 d.idmap address) [
    | none ↦ none
    | some old ↦ elim (get_var P d (ident old.id id_mem_val)) [
      | none ↦ none
      | some value ↦ elim (replace_pointer d guid address value_source) [
        | none ↦ none
        | some (v, guid', r) ↦ elim (kill_both r (record { g = value.g; s = no_step }) address) [
          | none ↦ none
          | some r' ↦ some (v, guid', r')
        ]
      ]
    ]
  ]

  -- the creation of variables in memTabReplace
  unfoldable pub replace_array :
      PplDomain P → ℕ → IdVal → WVar → WVar → Option (WVar × ℕ × PplDomain P)
  unfolding var_create_clp new_address new_equal of_var
  replace_array d guid address value_source count =
      let (id_address, id_value, id_count, d1) = var_create_clp P d in
      elim (new_address d1 guid id_address address) [
        | none ↦ none
        | some (v, g1, d2) ↦ elim (new_equal P d2 g1 id_value no_step (of_var value_source)) [
          | none ↦ none
          | some (w, g2, d3) ↦ elim (new_equal P d3 g2 id_count no_step (of_var count)) [
            | none ↦ none
            | some (c, g3, d4) ↦ some (v, g3, d4)
          ]
        ]
      ]

  -- the last test of memTabReplace: the old value, or the two values of an avatar, are killed
  unfoldable pub kill_values : PplDomain P → ℤ → Option (PplDomain P)
  unfolding get_var var_kill kill_both
  kill_values d i = elim (get_var P d (ident i id_mem_val)) [
    | some v ↦ var_kill P d (record { g = v.g; s = no_step })
    | none ↦ elim (get_var P d (ident i id_mem_val_plus)) [
      | none ↦ none
      | some plus ↦ elim (get_var P d (ident i id_mem_val_minus)) [
        | none ↦ none
        | some minus ↦
            kill_both d (record { g = plus.g; s = no_step }) (record { g = minus.g; s = no_step })
      ]
    ]
  ]

  -- memTabReplace; the number of the old address is read before its pair is dropped
  unfoldable pub mem_tab_replace :
      PplDomain P → ℕ → IdVal → WVar → WVar → Option (WVar × ℕ × PplDomain P)
  unfolding find2 replace_array kill_both kill_values
  mem_tab_replace d guid address value_source count = elim (find2 d.idmap address) [
    | none ↦ none
    | some old ↦ elim (replace_array d guid address value_source count) [
      | none ↦ none
      | some (v, guid', r) ↦ elim (kill_both r address (record { g = count; s = no_step })) [
        | none ↦ none
        | some r1 ↦ elim (kill_values r1 old.id) [ none ↦ none | some r2 ↦ some (v, guid', r2) ]
      ]
    ]
  ]

  -- the loop of doEnterFunction: the first depth that has no saved LR; `none` is no fuel
  unfoldable pub free_depth : ℕ → PplDomain P → ℕ → Option ℕ
  unfolding has_ident
  free_depth zero d depth = none
  free_depth (suc fuel) d depth =
      let rest = free_depth fuel d (suc depth) in
      if has_ident P d (ident (pos depth) id_special) then rest else some depth

  -- doEnterFunction: the value of LR is saved
  unfoldable pub do_enter_function : PplDomain P → ℕ → Option (ℕ × PplDomain P)
  unfolding free_depth count var_new get_var_or_new do_new_constraint cons_equal of_var
  do_enter_function d guid = elim (free_depth (suc (count d.idmap.id2guid)) d 2) [
    | none ↦ none
    | some depth ↦ elim (var_new P d guid (ident (pos depth) id_special) no_step true) [
      | none ↦ none
      | some (saved, g1, d1) ↦ elim (get_var_or_new P d1 g1 (ident (pos 14) id_reg)) [
        | none ↦ none
        | some (lr, g2, d2) ↦
            some (g2, do_new_constraint P (cons_equal (of_var saved) (of_var lr)) d2)
      ]
    ]
  ]

  -- `relation_with(c).implies(is_included())` on the polyhedron of a const state
  abbrev pub holds : PplDomain P → WCons → Option Bool
  holds d c = must_hold P c d.poly

  -- mayBeInStack
  unfoldable pub may_be_in_stack : PplDomain P → WVar → Option Bool
  unfolding get_var must_hold cons_below cons_at_least cons_above of_var of_cst ◌-ₗ◌ both_hold
      either_holds
  may_be_in_stack d v = elim (get_var P d stack_pointer) [
    | none ↦ none
    | some sp ↦ elim (get_var P d start_sp) [
      | none ↦ none
      | some ssp ↦
          elim (either_holds
            (both_hold (holds d (cons_below (of_var v) (of_var sp.g -ₗ of_cst (pos 4))))
              (holds d (cons_at_least (of_var v) (of_cst stack_end))))
            (holds d (cons_above (of_var v) (of_var ssp.g)))) [
              | none ↦ none
              | some outside ↦ some (not outside)
            ]
    ]
  ]

  -- mustBeInSegment
  unfoldable pub must_be_in_segment : PplDomain P → WVar → Segment → Option Bool
  unfolding must_hold cons_at_least cons_below of_var of_cst both_hold
  must_be_in_segment d v seg =
      both_hold (holds d (cons_at_least (of_var v) (of_cst seg.address)))
        (holds d (cons_below (of_var v) (of_cst (seg.address +ℤ seg.seg_size))))

  -- segmentChecking, from the end of the segment before
  unfoldable pub segment_checking : PplDomain P → WVar → ℤ → List Segment → Option Verdict
  unfolding must_hold cons_above cons_below of_var of_cst both_hold must_be_in_segment
  segment_checking d v end_address [] = some case_unknown
  segment_checking d v end_address (seg ∷ segs) =
      let rest = segment_checking d v (seg.address +ℤ seg.seg_size) segs in
      elim (both_hold (holds d (cons_above (of_var v) (of_cst end_address)))
        (holds d (cons_below (of_var v) (of_cst seg.address)))) [
          | none ↦ none
          | some true ↦ some case_unsafe
          | some false ↦ elim (must_be_in_segment d v seg) [
            | none ↦ none
            | some true ↦ some (if seg.writable then case_safe else case_unsafe)
            | some false ↦ rest
          ]
        ]

  -- doScratch
  unfoldable pub do_scratch : PplDomain P → Ident → Option (PplDomain P)
  unfolding get_var unconstrain
  do_scratch d i = elim (get_var P d i) [
    | none ↦ some d
    | some v ↦ elim (unconstrain P v.g d.poly) [
      | none ↦ none
      | some w ↦ some (record d { poly = w })
    ]
  ]

  -- the lambda of doAvExpand
  unfoldable pub exchange_both : ℕ → ℕ → ℕ → ℕ → ℕ → Option ℕ
  exchange_both splus sminus vplus vminus i = some (
      if i == splus
      then vplus
      else if i == vplus
      then splus
      else if i == vminus
      then sminus
      else if i == sminus
      then vminus
      else i)

  -- doAvExpand
  unfoldable pub do_av_expand : PplDomain P → WVar → WVar → WVar → WVar → Option (PplDomain P)
  unfolding map_vars exchange_both intersection_assign
  do_av_expand d splus sminus vplus vminus =
      elim (map_vars P (exchange_both splus sminus vplus vminus) d.poly) [
        | none ↦ none
        | some tmp ↦ elim (intersection_assign P d.poly tmp) [
          | none ↦ none
          | some w ↦ some (record d { poly = w })
        ]
      ]
