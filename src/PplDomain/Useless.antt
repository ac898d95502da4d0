-- ===== src/PplDomain/Useless.antt =====
-- doRemoveUselessAvatars of poly_PPLDomain.cpp: an array that surely has an element gets a single
-- value again, and one that surely has none is dropped.
use polymalys.Common.{not, ◌&&◌, Option, none, some, List, [], ◌∷◌, ◌++◌, if◌then◌else◌}
use polymalys.Common.Int.{pos}
use polymalys.Linear.{of_var, of_cst, cons_equal, cons_above}
use polymalys.Ppl.{Ppl}
use polymalys.WPoly.{must_hold_mut}
use polymalys.Ident.{
  Ident, IdVal, ident, id_mem_addr, id_mem_count, id_mem_val, id_mem_val_plus, id_mem_val_minus,
  same_type, no_step,
}
use polymalys.MyHTable.{Chain, entries}
use polymalys.Mapping.{add, del1}
use polymalys.PplDomain.{PplDomain, has_ident, get_var, kill_all}
use polymalys.PplDomain.Loops.{do_new_constraint}

module _ (P : Ppl) where
  -- the two values of an array that has an element are one
  unfoldable pub join_values : PplDomain P → Ident → Option (PplDomain P)
  unfolding get_var do_new_constraint cons_equal of_var add del1
  join_values d i = elim (get_var P d (ident i.id id_mem_val_plus)) [
    | none ↦ none
    | some plus ↦ elim (get_var P d (ident i.id id_mem_val_minus)) [
      | none ↦ none
      | some minus ↦
          let r = do_new_constraint P (cons_equal (of_var plus.g) (of_var minus.g)) d in
          elim (del1 r.idmap (ident i.id id_mem_val_plus)) [
            | none ↦ none
            | some m ↦ some (record r {
              idmap = add m (ident i.id id_mem_val) (record { g = plus.g; s = no_step });
            })
          ]
    ]
  ]

  -- one array without a single value: the state, and what will be dropped
  unfoldable pub useless : PplDomain P → Ident → Option (PplDomain P × List Ident)
  unfolding get_var must_hold_mut cons_above cons_equal of_var of_cst join_values
  useless d i = elim (get_var P d (ident i.id id_mem_count)) [
    | none ↦ none
    | some count ↦
        let (filled, w) = must_hold_mut P (cons_above (of_var count.g) (of_cst (pos 0))) d.poly in
        let d1 : PplDomain P = record d { poly = w } in
        if filled
        then elim (join_values d1 i) [
          | none ↦ none
          | some r ↦ some (r, ident i.id id_mem_val_minus ∷ [])
        ]
        else (let (empty, w') = must_hold_mut P (cons_equal (of_var count.g) (of_cst (pos 0))) w in
            let d2 : PplDomain P = record d1 { poly = w' } in
            let dropped =
              i
              ∷ ident i.id id_mem_val_plus
              ∷ ident i.id id_mem_val_minus
              ∷ ident i.id id_mem_count
              ∷ [] in
            some (if empty then (d2, dropped) else (d2, [])))
  ]

  -- the loop over the identifiers, which collects `toKill`
  unfoldable pub useless_avatars :
      Chain Ident IdVal → PplDomain P × List Ident → Option (PplDomain P × List Ident)
  unfolding same_type has_ident useless
  useless_avatars [] st = some st
  useless_avatars ((i, v) ∷ c) (d, kills) =
      if same_type i.type id_mem_addr && not (has_ident P d (ident i.id id_mem_val))
      then elim (useless d i) [
        | none ↦ none
        | some (r, more) ↦ useless_avatars c (r, kills ++ more)
      ]
      else useless_avatars c (d, kills)

  unfoldable pub do_remove_useless_avatars : PplDomain P → Option (PplDomain P)
  unfolding entries useless_avatars kill_all
  do_remove_useless_avatars d = elim (useless_avatars (entries d.idmap.id2guid) (d, [])) [
    | none ↦ none
    | some (r, kills) ↦ kill_all P r kills
  ]
