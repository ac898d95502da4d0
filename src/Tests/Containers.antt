-- ===== src/Tests/Containers.antt =====
-- The hash table and the mapping on small inputs.
use polymalys.Common.{ℕ, ◌==◌, ==_iff, none, some, ◌≡◌, refl, arith, ◌↔◌, ◌≢◌, inl}
use polymalys.Common.Int.{pos}
use polymalys.Ident.{Ident, IdVal, ident, id_reg, no_step, ident_key, idval_key}
use polymalys.MyHTable.{HashKey, MyHTable, make_table, get, put, remove, put_all, copy}
use polymalys.MyHTable.Lookup.{IsTable, get-put, put-IsTable, get-remove}
use polymalys.MyHTable.Copy.{override, make_table-IsTable, put_all-IsTable-get, get-copy}
use polymalys.Mapping.{Mapping, empty_mapping, add, del2, find1, find2}
use polymalys.Mapping.Inverse.{
  IsMapping, Added, add-IsMapping, del2-IsMapping, empty_mapping-IsMapping,
}

instance number_key : HashKey ℕ
number_key = record { hash = λ n. n; equals = ◌==◌; equals_iff = ==_iff }

-- 1 and 4 share a chain
abbrev two_bound : MyHTable ℕ ℕ
two_bound = put (put (make_table 3) 1 10) 4 40

two_bound-IsTable : IsTable two_bound
two_bound-IsTable =
    put-IsTable (put (make_table 3) 1 10) 4 40
      (put-IsTable (make_table 3) 1 10 (make_table-IsTable 3 (omega arith)))

two_bound_run : get two_bound 1 ≡ some 10
unfolding get put make_table number_key
two_bound_run = refl

get-put_example : get (put two_bound 1 11) 4 ≡ get two_bound 4
unfolding get number_key
get-put_example = get-put two_bound 1 11 4 two_bound-IsTable

get-remove_example : get (remove two_bound 1) 1 ≡ none
unfolding number_key
get-remove_example = get-remove two_bound 1 1 two_bound-IsTable

put_all-IsTable-get_example :
    IsTable (put_all (put two_bound 7 70) two_bound)
    × ((q : ℕ)
        → get (put_all (put two_bound 7 70) two_bound) q
          ≡ override (get two_bound q) (get (put two_bound 7 70) q))
put_all-IsTable-get_example =
    put_all-IsTable-get (put two_bound 7 70) two_bound
      (put-IsTable two_bound 7 70 two_bound-IsTable) two_bound-IsTable

get-copy_example : get (copy two_bound 5) 4 ≡ get two_bound 4
get-copy_example = get-copy two_bound 5 4 two_bound-IsTable (omega arith)

abbrev r0 : Ident
r0 = ident (pos 0) id_reg

abbrev r1 : Ident
r1 = ident (pos 1) id_reg

abbrev v5 : IdVal
v5 = record { g = 5; s = no_step }

abbrev v6 : IdVal
v6 = record { g = 6; s = no_step }

abbrev r0_bound : Mapping
r0_bound = add empty_mapping r0 v5

r0_bound-IsMapping : IsMapping r0_bound
r0_bound-IsMapping = (add-IsMapping empty_mapping r0 v5 empty_mapping-IsMapping).0

r0_bound_found : find2 r0_bound v5 ≡ some r0
unfolding find1 find2
r0_bound_found =
    (r0_bound-IsMapping.inverse r0 v5).0
      (((add-IsMapping empty_mapping r0 v5 empty_mapping-IsMapping).1 r0 v5).1 (inl (refl, refl)))

add-IsMapping_example :
    IsMapping (add r0_bound r1 v5)
    × ((j : Ident) (w : IdVal) → (find1 (add r0_bound r1 v5) j ≡ some w) ↔ Added r0_bound r1 v5 j w)
add-IsMapping_example = add-IsMapping r0_bound r1 v5 r0_bound-IsMapping

del2-IsMapping_example :
    (r : Mapping) × (del2 r0_bound v5 ≡ some r)
    × IsMapping r
    × ((j : Ident) (w : IdVal) → (find1 r j ≡ some w) ↔ ((v5 ≢ w) × (find1 r0_bound j ≡ some w)))
del2-IsMapping_example = del2-IsMapping r0_bound v5 r0 r0_bound-IsMapping r0_bound_found
