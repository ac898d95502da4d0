-- ===== src/PplDomain/Store.antt =====
-- The STORE case of onSemInst in poly_PPLDomain.cpp, with memMerge: the locations that
-- may be at the address are merged with the value, the one that is at it is replaced, or a new one is
-- made (StoreNew). `none` is a failed assertion, an exception or `abort`.
use polymalys.Common.{
  ℕ, ◌-◌, true, false, not, ◌&&◌, Option, none, some, List, [], ◌∷◌, ◌++◌, if◌then◌else◌, ◌==◌,
}
use polymalys.Common.Int.{ℤ, pos, eqb_ℤ, leb_ℤ}
use polymalys.Linear.{WVar, of_var, cons_equal, cons_at_least, cons_at_most}
use polymalys.Ppl.{Ppl}
use polymalys.Ident.{
  Ident, IdVal, ident, id_mem_addr, id_mem_count, id_mem_val, id_mem_val_plus, id_mem_val_minus,
  same_type, no_step,
}
use polymalys.MyHTable.{Chain}
use polymalys.Mapping.{find2, mapping_equals}
use polymalys.WPoly.Combine.{poly_hull_assign}
use polymalys.PplDomain.{PplDomain, get_var, var_new, must_alias, kill_all, do_finalize_update}
use polymalys.PplDomain.Loops.{do_new_constraint}
use polymalys.PplDomain.Replace.{mem_tab_replace}
use polymalys.PplDomain.Leave.{var_create_av_clp, may_range}
use polymalys.PplDomain.SemInst.{Counted}
use polymalys.PplDomain.Delta.{Solver, delta}

module _ (P : Ppl) (solver : Solver P) where
  -- the part of memMerge for a location with one value: it is replaced in a copy too, with the same
  -- guids
  unfoldable pub merge_value : Counted P → IdVal → WVar → WVar → WVar → Option (Counted P)
  unfolding mem_tab_replace mapping_equals poly_hull_assign
  merge_value (guid, s) base new_val old_val count =
      elim (mem_tab_replace P s guid base new_val count) [
        | none ↦ none
        | some (v1, g1, temp) ↦ elim (mem_tab_replace P s (g1 - 3) base old_val count) [
          | none ↦ none
          | some (v2, g2, r) ↦
              if mapping_equals r.idmap temp.idmap && v1 == v2
              then elim (poly_hull_assign P r.poly temp.poly) [
                | none ↦ none
                | some w ↦ some (g2, record r { poly = w })
              ]
              else none
        ]
      ]

  abbrev plain : Ident → ℤ → PplDomain P → ℕ → Option (WVar × ℕ × PplDomain P)
  plain i step s guid = var_new P s guid i step false

  abbrev equate : WVar → WVar → PplDomain P → PplDomain P
  equate a b = do_new_constraint P (cons_equal (of_var a) (of_var b))

  -- the four variables of the new avatar, with their constraints in the state and in its copy
  unfoldable pub merge_pair :
      PplDomain P × PplDomain P
      → ℕ
      → IdVal
      → WVar
      → WVar × WVar × WVar
      → Option (ℕ × (PplDomain P × PplDomain P))
  unfolding var_create_av_clp var_new do_new_constraint cons_equal cons_at_least cons_at_most of_var
  merge_pair (s, temp) guid base new_val (plus, minus, count) =
      let (id_base, id_plus, id_minus, id_count, s0) = var_create_av_clp P s in
      elim (plain id_base base.s s0 guid) [
        | none ↦ none
        | some (v, g1, s1) ↦ elim (plain id_plus no_step (equate v base.g s1) g1) [
          | none ↦ none
          | some (p, g2, s2) ↦
              let s2' = do_new_constraint P (cons_at_least (of_var p) (of_var new_val)) s2 in
              elim (plain id_minus no_step s2' g2) [
                | none ↦ none
                | some (m, g3, s3) ↦
                    let s3' = do_new_constraint P (cons_at_most (of_var m) (of_var new_val)) s3 in
                    elim (plain id_count no_step s3' g3) [
                      | none ↦ none
                      | some (c, g4, s4) ↦ some (
                        g4,
                        (
                          equate c count s4,
                          equate c count (equate m minus (equate p plus (equate v base.g temp))),
                        ),
                      )
                    ]
              ]
        ]
      ]

  -- the part of memMerge for an avatar
  unfoldable pub merge_avatar :
      Counted P → Ident → IdVal → WVar → WVar × WVar × WVar → Option (Counted P)
  unfolding merge_pair poly_hull_assign kill_all do_finalize_update
  merge_avatar (guid, s) old_base base new_val old =
      elim (merge_pair (s, s) guid base new_val old) [
        | none ↦ none
        | some (g, (r, temp)) ↦ elim (poly_hull_assign P r.poly temp.poly) [
          | none ↦ none
          | some w ↦
              elim (kill_all P (record r { poly = w })
                (ident old_base.id id_mem_val_plus
                  ∷ ident old_base.id id_mem_val_minus
                  ∷ old_base
                  ∷ ident old_base.id id_mem_count
                  ∷ [])) [
                    | none ↦ none
                    | some r1 ↦ elim (do_finalize_update P r1) [
                      | none ↦ none
                      | some r2 ↦ some (g, r2)
                    ]
                  ]
        ]
      ]

  -- memMerge
  unfoldable pub mem_merge : Counted P → IdVal → WVar → Option (Counted P)
  unfolding find2 get_var merge_value merge_avatar
  mem_merge (guid, s) base new_val = elim (find2 s.idmap base) [
    | none ↦ none
    | some old ↦ elim (get_var P s (ident old.id id_mem_count)) [
      | none ↦ none
      | some count ↦ elim (get_var P s (ident old.id id_mem_val)) [
        | some value ↦ merge_value (guid, s) base new_val value.g count.g
        | none ↦ elim (get_var P s (ident old.id id_mem_val_plus)) [
          | none ↦ none
          | some plus ↦ elim (get_var P s (ident old.id id_mem_val_minus)) [
            | none ↦ none
            | some minus ↦ merge_avatar (guid, s) old base new_val (plus.g, minus.g, count.g)
          ]
        ]
      ]
    ]
  ]

  unfoldable pub merge_all : List Ident → WVar → Counted P → Option (Counted P)
  unfolding get_var mem_merge
  merge_all [] new_val st = some st
  merge_all (i ∷ is) new_val st = elim (get_var P st.1 i) [
    | none ↦ none
    | some v ↦
        if leb_ℤ (pos 0) v.s
        then elim (mem_merge st v new_val) [ none ↦ none | some st' ↦ merge_all is new_val st' ]
        else none
  ]

  -- the locations that the address may or must be at: one that is at it, and the others
  unfoldable pub aliases :
      PplDomain P
      → PplDomain P
      → WVar
      → Chain Ident IdVal
      → Option Ident × List Ident
      → Option (Option Ident × List Ident)
  unfolding same_type must_alias get_var may_range delta
  aliases before s address [] found = some found
  aliases before s address ((i, v) ∷ c) (equiv, overlaps) =
      let rest = aliases before s address c (equiv, overlaps) in
      let with_this = aliases before s address c (equiv, overlaps ++ i ∷ []) in
      if not (same_type i.type id_mem_addr)
      then rest
      else if must_alias P s v.g address (pos 0) && eqb_ℤ v.s (pos 0)
      then elim equiv [ none ↦ aliases before s address c (some i, overlaps) | some j ↦ none ]
      else elim (get_var P before (ident i.id id_mem_count)) [
        | none ↦ none
        | some count ↦ elim (may_range P s v.g count.g address v.s) [
          | none ↦ none
          | some false ↦ rest
          | some true ↦ elim (delta P solver before v.g address v.s) [
            | none ↦ none
            | some d ↦ if leb_ℤ d (pos 0) then with_this else rest
          ]
        ]
      ]
