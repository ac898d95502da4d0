-- ===== src/PplDomain/Leave.antt =====
-- The exit of a function (doLeaveFunction), the remapping of identifiers (doMapIdents) and two more
-- questions and creations of poly_PPLDomain.cpp.
use polymalys.Common.{
  ℕ, suc, ◌-◌, Bool, true, false, not, ◌&&◌, Option, none, some, List, [], ◌∷◌, ◌++◌, if◌then◌else◌,
}
use polymalys.Common.Int.{ℤ, pos, eqb_ℤ}
use polymalys.Linear.{
  WVar, of_var, of_cst, cons_at_least, cons_at_most, cons_below, ◌+ₗ◌, ◌-ₗ◌, ◌*ₗ◌,
}
use polymalys.Ppl.{Ppl}
use polymalys.WPoly.{must_hold, must_hold_mut, is_tracked}
use polymalys.Ident.{
  Ident, IdVal, ident, id_reg, id_mem_addr, id_mem_val, id_mem_count, id_mem_val_plus,
  id_mem_val_minus, id_special, same_type,
}
use polymalys.MyHTable.{Chain, entries, count}
use polymalys.Mapping.{Mapping, empty_mapping, add}
use polymalys.PplDomain.{
  PplDomain, has_ident, get_var, var_kill_ident, kill_all, must_alias, may_alias,
}
use polymalys.PplDomain.Memory.{stack_pointer}
use polymalys.PplDomain.Replace.{free_depth, stack_end}

module _ (P : Ppl) where
  -- varCreateAvClp
  unfoldable pub var_create_av_clp : PplDomain P → Ident × Ident × Ident × Ident × PplDomain P
  var_create_av_clp d = (
    ident (pos d.mem_ref) id_mem_addr,
    ident (pos d.mem_ref) id_mem_val_plus,
    ident (pos d.mem_ref) id_mem_val_minus,
    ident (pos d.mem_ref) id_mem_count,
    record d { mem_ref = suc d.mem_ref },
  )

  -- `!a && !b`, where a true `a` leaves `b` alone
  unfoldable pub neither : Option Bool → Option Bool → Option Bool
  neither none b = none
  neither (some true) b = some false
  neither (some false) none = none
  neither (some false) (some b) = some (not b)

  -- mayRange
  unfoldable pub may_range : PplDomain P → WVar → WVar → WVar → ℤ → Option Bool
  unfolding is_tracked may_alias must_hold cons_at_least cons_at_most of_var of_cst neither ◌+ₗ◌
      ◌-ₗ◌ ◌*ₗ◌
  may_range d base number target step =
      if is_tracked P d.poly base && (is_tracked P d.poly target && is_tracked P d.poly number)
      then if eqb_ℤ step (pos 0)
        then may_alias P d base target
        else neither
            (must_hold P (cons_at_least (of_var base -ₗ of_cst (pos 1)) (of_var target)) d.poly)
            (must_hold P (cons_at_most (of_var base +ₗ of_var number *ₗ step) (of_var target))
              d.poly)
      else some false

  -- the loop of doMapIdents
  unfoldable pub map_idents : (ℕ → Option ℕ) → Chain Ident IdVal → Mapping → Mapping
  unfolding add
  map_idents f [] m = m
  map_idents f ((i, v) ∷ c) m = elim (f v.g) [
    | none ↦ map_idents f c m
    | some g ↦ map_idents f c (add m i (record { g = g; s = v.s }))
  ]

  unfoldable pub do_map_idents : (ℕ → Option ℕ) → PplDomain P → PplDomain P
  unfolding entries map_idents empty_mapping
  do_map_idents f d = record d { idmap = map_idents f (entries d.idmap.id2guid) empty_mapping }

  -- the test of a stack variable that is out of scope; the state is not const, so that the
  -- variables of the questions become tracked
  unfoldable pub below_stack : PplDomain P → WVar → WVar → Bool × PplDomain P
  unfolding must_hold_mut cons_below cons_at_least of_var of_cst
  below_stack d v sp =
      let (below, w) = must_hold_mut P (cons_below (of_var v) (of_var sp)) d.poly in
      let (above, w') = must_hold_mut P (cons_at_least (of_var v) (of_cst stack_end)) w in
      if below then (above, record d { poly = w' }) else (false, record d { poly = w })

  -- the identifiers that go with the address `i`
  unfoldable pub parts_of : PplDomain P → ℤ → List Ident
  unfolding has_ident
  parts_of d i =
      ident i id_mem_addr
      ∷ ((if has_ident P d (ident i id_mem_val)
            then ident i id_mem_val ∷ []
            else ident i id_mem_val_plus ∷ ident i id_mem_val_minus ∷ [])
          ++ (if has_ident P d (ident i id_mem_count) then ident i id_mem_count ∷ [] else []))

  -- the loop of doLeaveFunction
  unfoldable pub out_of_scope : PplDomain P → Chain Ident IdVal → Option (List Ident × PplDomain P)
  unfolding same_type get_var below_stack parts_of
  out_of_scope d [] = some ([], d)
  out_of_scope d ((i, v) ∷ c) = elim (same_type i.type id_mem_addr) [
    | false ↦ out_of_scope d c
    | true ↦ elim (get_var P d stack_pointer) [
      | none ↦ none
      | some sp ↦
          let (out, d') = below_stack d v.g sp.g in
          elim (out_of_scope d' c) [
            | none ↦ none
            | some (victims, r) ↦ some (if out then parts_of d i.id ++ victims else victims, r)
          ]
    ]
  ]

  unfoldable pub drop_scope : PplDomain P → Option (PplDomain P)
  unfolding entries out_of_scope kill_all
  drop_scope d = elim (out_of_scope d (entries d.idmap.id2guid)) [
    | none ↦ none
    | some (victims, r) ↦ kill_all P r victims
  ]

  -- doLeaveFunction: whether the return address is safe, and the state
  unfoldable pub do_leave_function : PplDomain P → Option (Bool × PplDomain P)
  unfolding free_depth count get_var must_alias var_kill_ident drop_scope
  do_leave_function d = elim (free_depth P (suc (count d.idmap.id2guid)) d 2) [
    | none ↦ none
    | some depth ↦ elim (get_var P d (ident (pos (depth - 1)) id_special)) [
      | none ↦ none
      | some saved ↦ elim (get_var P d (ident (pos 14) id_reg)) [
        | none ↦ none
        | some lr ↦ elim (var_kill_ident P d (ident (pos (depth - 1)) id_special)) [
          | none ↦ none
          | some d1 ↦ elim (drop_scope d1) [
            | none ↦ none
            | some r ↦ some (must_alias P d saved.g lr.g (pos 0), r)
          ]
        ]
      ]
    ]
  ]
