-- ===== src/PplDomain/StoreNew.antt =====
-- The end of the STORE case of onSemInst in poly_PPLDomain.cpp, with shouldFold: a new location, which
-- is folded into an array that it continues, and the whole case. _isArrayStore always answers true.
use polymalys.Common.{
  ◌/◌, ◌-◌, Bool, true, false, not, ◌&&◌, ◌||◌, Option, none, some, [], ◌∷◌, if◌then◌else◌, ◌==◌,
}
use polymalys.Common.Int.{ℤ, pos, eqb_ℤ, leb_ℤ, tdiv}
use polymalys.Linear.{WVar, of_var, of_cst, cons_equal, cons_above, ◌+ₗ◌, ◌-ₗ◌, ◌*ₗ◌}
use polymalys.Ppl.{Ppl}
use polymalys.Ident.{
  Ident, IdVal, ident, id_mem_addr, id_mem_count, id_mem_val, id_mem_val_plus, id_mem_val_minus,
  same_type, ident_equals,
}
use polymalys.MyHTable.{Chain, entries}
use polymalys.WPoly.{add_constraint, must_hold, must_hold_mut, maximize}
use polymalys.WPoly.Combine.{poly_hull_assign}
use polymalys.PplDomain.{
  PplDomain, has_ident, get_var, get_var_or_new, get_constant, get_ui, kill_all, do_finalize_update,
}
use polymalys.PplDomain.Loops.{do_new_constraint}
use polymalys.PplDomain.Memory.{mem_tab_create, do_fold}
use polymalys.PplDomain.Replace.{mem_tab_replace}
use polymalys.PplDomain.SemInst.{Counted, register}
use polymalys.PplDomain.Delta.{Solver, step_bot, to_int}
use polymalys.PplDomain.Store.{aliases, merge_all}

module _ (P : Ppl) (solver : Solver P) where
  -- shouldFold, which may make the polyhedron track the variables
  unfoldable pub should_fold : PplDomain P → WVar → ℤ → WVar → WVar → Bool × PplDomain P
  unfolding must_hold_mut cons_equal of_var of_cst ◌+ₗ◌ ◌*ₗ◌
  should_fold s base step count new_var =
      let (straight, w) =
        must_hold_mut P (cons_equal (of_var base +ₗ of_var count *ₗ step) (of_var new_var))
          s.poly in
      let (reverse, w') =
        must_hold_mut P (cons_equal (of_var new_var +ₗ of_cst step) (of_var base)) w in
      (straight || reverse, record s { poly = w' })

  -- the step of an array of one element, guessed from the greatest distance
  unfoldable pub guess_step : PplDomain P → WVar → WVar → ℤ → ℤ
  unfolding maximize of_var ◌-ₗ◌ to_int
  guess_step s new_addr tab_addr step =
      if eqb_ℤ step step_bot
      then elim (maximize P (of_var new_addr -ₗ of_var tab_addr) s.poly) [
        | none ↦ step
        | some (n, den) ↦
            let guess = to_int (tdiv (solver.get_si n) (solver.get_si den)) in
            if not (eqb_ℤ n (pos 0)) && (not (eqb_ℤ den (pos 0)) && leb_ℤ (pos 1) guess)
            then guess
            else step
      ]
      else step

  -- the folding of the new location `new_ref` into the array `old`, whose address is `tab_addr`
  unfoldable pub fold_array : Counted P → ℤ → Ident → WVar → ℤ → WVar → Option (Counted P)
  unfolding get_var mem_tab_create do_new_constraint do_fold add_constraint poly_hull_assign
      kill_all do_finalize_update cons_equal cons_above of_var of_cst ◌+ₗ◌
  fold_array (guid, s) new_ref old tab_addr step count =
      elim (get_var P s (ident new_ref id_mem_val)) [
        | none ↦ none
        | some new_val ↦ elim (get_var P s (ident old.id id_mem_val_plus)) [
          | none ↦ none
          | some plus ↦ elim (get_var P s (ident old.id id_mem_val_minus)) [
            | none ↦ none
            | some minus ↦
                elim (mem_tab_create P s guid (of_var tab_addr) (of_cst (pos 0)) step
                  (of_var count +ₗ of_cst (pos 1)) true) [
                    | none ↦ none
                    | some (v, g, s1) ↦
                        elim (get_var P s1 (ident (pos (s1.mem_ref - 1)) id_mem_val)) [
                          | none ↦ none
                          | some folded ↦
                              let s2 =
                                do_new_constraint P (cons_equal (of_var plus.g) (of_var minus.g))
                                  s1 in
                              elim (do_fold P s2 folded.g new_val.g plus.g) [
                                | none ↦ none
                                | some s3 ↦
                                    let empty_case =
                                      add_constraint P (cons_equal (of_var count) (of_cst (pos 0)))
                                        (add_constraint P
                                          (cons_equal (of_var folded.g) (of_var new_val.g))
                                          s1.poly) in
                                    let filled =
                                      add_constraint P (cons_above (of_var count) (of_cst (pos 0)))
                                        s3.poly in
                                    elim (poly_hull_assign P filled empty_case) [
                                      | none ↦ none
                                      | some w ↦
                                          elim (kill_all P (record s3 { poly = w })
                                            (old
                                              ∷ ident old.id id_mem_count
                                              ∷ ident old.id id_mem_val_plus
                                              ∷ ident old.id id_mem_val_minus
                                              ∷ ident new_ref id_mem_addr
                                              ∷ ident new_ref id_mem_val
                                              ∷ ident new_ref id_mem_count
                                              ∷ [])) [
                                                | none ↦ none
                                                | some s4 ↦ elim (do_finalize_update P s4) [
                                                  | none ↦ none
                                                  | some s5 ↦ some (g, s5)
                                                ]
                                              ]
                                    ]
                              ]
                        ]
                  ]
          ]
        ]
      ]

  -- the search for an array that the new location continues
  unfoldable pub fold_into : ℤ → WVar → Chain Ident IdVal → Counted P → Option (Counted P)
  unfolding same_type ident_equals get_var has_ident guess_step should_fold fold_array
  fold_into new_ref new_addr [] st = some st
  fold_into new_ref new_addr ((i, v) ∷ c) (guid, s) =
      let rest = fold_into new_ref new_addr c (guid, s) in
      if not (same_type i.type id_mem_addr)
      then rest
      else if ident_equals i (ident new_ref id_mem_addr)
      then some (guid, s)
      else elim (get_var P s i) [
        | none ↦ none
        | some tab ↦ elim (get_var P s (ident i.id id_mem_count)) [
          | none ↦ none
          | some count ↦
              let step = guess_step s new_addr tab.g tab.s in
              let (fold, s') = should_fold s tab.g step count.g new_addr in
              if eqb_ℤ step step_bot
              then rest
              else if fold && has_ident P s' (ident i.id id_mem_val_plus)
              then fold_array (guid, s') new_ref i tab.g step count.g
              else fold_into new_ref new_addr c (guid, s')
        ]
      ]

  -- CREATE
  unfoldable pub store_new : Counted P → WVar → WVar → Option (Counted P)
  unfolding mem_tab_create get_var entries fold_into of_var of_cst
  store_new (guid, s) address value =
      elim (mem_tab_create P s guid (of_var address) (of_var value) step_bot (of_cst (pos 1))
        false) [
          | none ↦ none
          | some (v, g, r) ↦
              let new_ref = pos (r.mem_ref - 1) in
              elim (get_var P r (ident new_ref id_mem_addr)) [
                | none ↦ none
                | some new_addr ↦ fold_into new_ref new_addr.g (entries r.idmap.id2guid) (g, r)
              ]
        ]

  -- STRONG UPDATE
  unfoldable pub store_strong : PplDomain P → Counted P → Ident → WVar → Option (Counted P)
  unfolding get_var mem_tab_replace
  store_strong before (guid, s) i value = elim (get_var P s i) [
    | none ↦ none
    | some equiv ↦
        if leb_ℤ (pos 0) equiv.s
        then elim (get_var P before (ident i.id id_mem_count)) [
          | none ↦ none
          | some count ↦ elim (mem_tab_replace P s guid equiv value count.g) [
            | none ↦ none
            | some (v, g, r) ↦ some (g, r)
          ]
        ]
        else none
  ]

  unfoldable pub store_at : PplDomain P → Counted P → WVar → WVar → Option (Counted P)
  unfolding entries aliases merge_all store_new store_strong
  store_at before (guid, s) address value =
      elim (aliases P solver before s address (entries s.idmap.id2guid) (none, [])) [
        | none ↦ none
        | some (equiv, overlaps) ↦ elim (merge_all P solver overlaps value (guid, s)) [
          | none ↦ none
          | some st ↦ elim equiv [
            | some i ↦ store_strong before st i value
            | none ↦ store_new st address value
          ]
        ]
      ]

  -- STORE: MEM(a) <- d. A store to 0x42 is a command of the debugger, and one to 0x43 an assertion that
  -- the value is 0.
  unfoldable pub store : Counted P → ℤ → ℤ → Option (Counted P)
  unfolding get_var get_var_or_new get_constant get_ui must_hold cons_equal of_var of_cst store_at
  store (guid, s) d a = elim (get_var_or_new P s guid (register a)) [
    | none ↦ none
    | some (address, g1, s1) ↦ elim (get_var_or_new P s1 g1 (register d)) [
      | none ↦ none
      | some (value, g2, s2) ↦ elim (get_var P s (register a)) [
        | none ↦ none
        | some v ↦ elim (get_constant P s v.g) [
          | none ↦ store_at s (g2, s2) address value
          | some (n, den) ↦
              let where_to = get_ui n / get_ui den in
              if where_to == 0x42
              then some (g2, s2)
              else if where_to == 0x43
              then elim (must_hold P (cons_equal (of_var value) (of_cst (pos 0))) s.poly) [
                | none ↦ none
                | some true ↦ some (g2, s2)
                | some false ↦ none
              ]
              else store_at s (g2, s2) address value
        ]
      ]
    ]
  ]
