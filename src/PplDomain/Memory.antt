-- ===== src/PplDomain/Memory.antt =====
-- Memory variables of a PPLDomain: the creation of pointers and arrays, the stack tests, folding and
-- expansion, and the clean-ups of poly_PPLDomain.cpp that go through the identifiers.
use polymalys.Common.{
  ℕ, Bool, true, false, not, ◌&&◌, Option, none, some, List, [], ◌∷◌, if◌then◌else◌, ◌==◌,
}
use polymalys.Common.Int.{ℤ, pos, eqb_ℤ, leb_ℤ}
use polymalys.Linear.{WVar, WLinExpr, of_var, of_cst, cons_equal, cons_below, cons_above, ◌-ₗ◌}
use polymalys.Ppl.{Ppl}
use polymalys.WPoly.{add_constraint, must_hold, map_vars}
use polymalys.WPoly.Combine.{intersection_assign, poly_hull_assign}
use polymalys.Ident.{
  Ident, IdVal, ident, id_reg, id_mem_addr, id_mem_val, id_mem_count, id_mem_val_plus,
  id_mem_val_minus, id_special, same_type, no_step, ident_equals,
}
use polymalys.MyHTable.{Chain, entries}
use polymalys.PplDomain.{
  PplDomain, has_ident, get_var, var_new, kill_all, var_create_ptr, var_create_clp,
}
use polymalys.PplDomain.Loops.{do_new_constraint}

-- `relation_with(c).implies(is_included())`; `none` is the exception
unfoldable pub both_hold : Option Bool → Option Bool → Option Bool
both_hold none b = none
both_hold (some false) b = some false
both_hold (some true) b = b

abbrev pub stack_pointer : Ident
stack_pointer = ident (pos 13) id_reg

abbrev pub start_sp : Ident
start_sp = ident (pos 0) id_special

module _ (P : Ppl) where
  -- `v = varNew(ident, step, false, ...)` and the constraint `v == value`
  unfoldable pub new_equal :
      PplDomain P → ℕ → Ident → ℤ → WLinExpr → Option (WVar × ℕ × PplDomain P)
  unfolding var_new do_new_constraint cons_equal of_var
  new_equal d guid i step value = elim (var_new P d guid i step false) [
    | none ↦ none
    | some (v, guid', r) ↦ some (v, guid', do_new_constraint P (cons_equal (of_var v) value) r)
  ]

  -- memSingleCreate: the variable of the address
  unfoldable pub mem_single_create :
      PplDomain P → ℕ → WLinExpr → WLinExpr → Option (WVar × ℕ × PplDomain P)
  unfolding var_create_ptr new_equal
  mem_single_create d guid address value_source =
      let (id_address, id_value, d1) = var_create_ptr P d in
      elim (new_equal d1 guid id_address (pos 0) address) [
        | none ↦ none
        | some (v, guid', d2) ↦ elim (new_equal d2 guid' id_value no_step value_source) [
          | none ↦ none
          | some (w, guid'', d3) ↦ some (v, guid'', d3)
        ]
      ]

  -- the value of a new array, which may be left open
  unfoldable pub new_value :
      Bool → PplDomain P → ℕ → Ident → WLinExpr → Option (WVar × ℕ × PplDomain P)
  unfolding var_new new_equal
  new_value unconstrained d guid i value =
      if unconstrained then var_new P d guid i no_step false else new_equal d guid i no_step value

  -- memTabCreate
  unfoldable pub mem_tab_create :
      PplDomain P → ℕ → WLinExpr → WLinExpr → ℤ → WLinExpr → Bool → Option (WVar × ℕ × PplDomain P)
  unfolding var_create_clp new_equal new_value
  mem_tab_create d guid address value_source step count unconstrained =
      let (id_address, id_value, id_count, d1) = var_create_clp P d in
      elim (new_equal d1 guid id_address step address) [
        | none ↦ none
        | some (v, g1, d2) ↦ elim (new_value unconstrained d2 g1 id_value value_source) [
          | none ↦ none
          | some (w, g2, d3) ↦ elim (new_equal d3 g2 id_count no_step count) [
            | none ↦ none
            | some (c, g3, d4) ↦ some (v, g3, d4)
          ]
        ]
      ]

  -- isInStack
  unfoldable pub is_in_stack : PplDomain P → WVar → Option Bool
  unfolding get_var must_hold cons_above cons_below of_var of_cst ◌-ₗ◌ both_hold
  is_in_stack d v = elim (get_var P d stack_pointer) [
    | none ↦ none
    | some sp ↦ elim (get_var P d start_sp) [
      | none ↦ none
      | some ssp ↦
          both_hold (must_hold P (cons_above (of_var v) (of_var sp.g -ₗ of_cst (pos 5))) d.poly)
            (must_hold P (cons_below (of_var v) (of_var ssp.g)) d.poly)
    ]
  ]

  -- doFold
  unfoldable pub do_fold : PplDomain P → WVar → WVar → WVar → Option (PplDomain P)
  unfolding add_constraint poly_hull_assign cons_equal of_var
  do_fold d s v1 v2 =
      elim (poly_hull_assign P (add_constraint P (cons_equal (of_var s) (of_var v1)) d.poly)
        (add_constraint P (cons_equal (of_var s) (of_var v2)) d.poly)) [
          | none ↦ none
          | some w ↦ some (record d { poly = w })
        ]

  -- the lambda of doExpand
  unfoldable pub exchange : ℕ → ℕ → ℕ → Option ℕ
  exchange s v i = some (if i == s then v else if i == v then s else i)

  -- doExpand
  unfoldable pub do_expand : PplDomain P → WVar → WVar → Option (PplDomain P)
  unfolding map_vars exchange intersection_assign
  do_expand d s v1 = elim (map_vars P (exchange s v1) d.poly) [
    | none ↦ none
    | some tmp ↦ elim (intersection_assign P d.poly tmp) [
      | none ↦ none
      | some w ↦ some (record d { poly = w })
    ]
  ]

  -- the loop of doRemoveAllAvatars: the identifiers of arrays that have no single value
  unfoldable pub avatars : PplDomain P → Chain Ident IdVal → List Ident
  unfolding same_type has_ident
  avatars d [] = []
  avatars d ((i, v) ∷ c) =
      let rest = avatars d c in
      if same_type i.type id_mem_addr && not (has_ident P d (ident i.id id_mem_val))
      then i
        ∷ ident i.id id_mem_val_plus
        ∷ ident i.id id_mem_val_minus
        ∷ ident i.id id_mem_count
        ∷ rest
      else rest

  unfoldable pub do_remove_all_avatars : PplDomain P → Option (PplDomain P)
  unfolding entries avatars kill_all
  do_remove_all_avatars d = kill_all P d (avatars d (entries d.idmap.id2guid))

  -- the test of doKillRegisters: a register that `bv` does not hold, other than the compared one,
  -- R0, SP and LR; `size` and `bit` are those of `bv`
  unfoldable pub dies : ℤ → (ℤ → Bool) → PplDomain P → Ident → IdVal → Bool
  unfolding same_type ident_equals
  dies size bit d i v =
      eqb_ℤ v.s no_step
      && same_type i.type id_reg
      && leb_ℤ (pos 0) i.id
      && not (leb_ℤ size i.id)
      && not (bit i.id)
      && not (ident_equals i d.compare_reg)
      && not (eqb_ℤ i.id (pos 13))
      && not (eqb_ℤ i.id (pos 14))
      && not (eqb_ℤ i.id (pos 0))

  unfoldable pub dead_registers : ℤ → (ℤ → Bool) → PplDomain P → Chain Ident IdVal → List Ident
  unfolding dies
  dead_registers size bit d [] = []
  dead_registers size bit d ((i, v) ∷ c) =
      let rest = dead_registers size bit d c in if dies size bit d i v then i ∷ rest else rest

  unfoldable pub do_kill_registers : ℤ → (ℤ → Bool) → PplDomain P → Option (PplDomain P)
  unfolding entries dead_registers kill_all
  do_kill_registers size bit d = kill_all P d (dead_registers size bit d (entries d.idmap.id2guid))
