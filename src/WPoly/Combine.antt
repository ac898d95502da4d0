-- ===== src/WPoly/Combine.antt =====
-- Two WPolys brought to the same variables in the same dimensions (WPoly::combine of
-- poly_PolyWrap.cpp), and the operations of include/PolyWrap.h that start with it. `none` stands for
-- the `abort()` in map_with_dim.
use polymalys.Common.{
  ℕ, ◌+◌, Bool, true, false, Option, none, some, List, [], ◌∷◌, ◌++◌, if◌then◌else◌, ltb,
}
use polymalys.Common.StdMap.{StdMap, find, put, has}
use polymalys.Ppl.{Ppl, PartialMap}
use polymalys.WPoly.{WPoly, eliminator, map_with_dim}

-- the loop that computes `_max_co`
unfoldable pub max_codomain : StdMap ℕ → ℕ → ℕ
max_codomain [] m = m
max_codomain ((i, j) ∷ r) m = max_codomain r (if ltb m j then j else m)

-- MapHash: `has_empty_codomain` is false, even of the empty map
unfoldable pub map_hash : StdMap ℕ → PartialMap
unfolding max_codomain
map_hash remap = record { maps = λ i. find i remap; codomain_size = max_codomain remap 0 + 1 }

-- one of the two first loops of combine: the variables of `from` that `to` does not have are added
-- to `to`, or their dimensions listed
abbrev pub Missing : Type 0
Missing = StdMap ℕ × ℕ × ℕ × List ℕ

unfoldable pub add_missing : Bool → StdMap ℕ → StdMap ℕ × ℕ × ℕ × List ℕ → Missing
add_missing keep [] r = r
add_missing keep ((g, d) ∷ m) (to, next, added, victims) = add_missing keep m (
    if has g to
    then (to, next, added, victims)
    else if keep
    then (put g next to, next + 1, added + 1, victims)
    else (to, next, added, victims ++ d ∷ []))

-- the last loop of combine: `srcmap[src.adapter[g]] = d`, where a missing key gets the value 0
unfoldable pub source_map : StdMap ℕ → StdMap ℕ → StdMap ℕ → StdMap ℕ × StdMap ℕ
source_map [] src_adapter srcmap = (src_adapter, srcmap)
source_map ((g, d) ∷ m) src_adapter srcmap = elim (find g src_adapter) [
  | some j ↦ source_map m src_adapter (put j d srcmap)
  | none ↦ source_map m (put g 0 src_adapter) (put 0 d srcmap)
]

module _ (P : Ppl) where
  unfoldable pub match_maps : WPoly P → WPoly P → Option (WPoly P × WPoly P)
  unfolding source_map map_hash map_with_dim
  match_maps w src =
      let (src_adapter, srcmap) = source_map w.adapter src.adapter [] in
      elim (map_with_dim P (map_hash srcmap) (record src { adapter = src_adapter })) [
        | none ↦ none
        | some s ↦ some (w, s)
      ]

  unfoldable pub drop_victims : List ℕ → List ℕ → WPoly P → WPoly P → Option (WPoly P × WPoly P)
  unfolding map_with_dim eliminator
  drop_victims victim1 victim2 w src = elim (map_with_dim P (eliminator P victim1 w.poly) w) [
    | none ↦ none
    | some w' ↦ elim (map_with_dim P (eliminator P victim2 src.poly) src) [
      | none ↦ none
      | some src' ↦ some (w', src')
    ]
  ]

  -- combine(src, keep): the two operands afterwards
  unfoldable pub combine : WPoly P → WPoly P → Bool → Option (WPoly P × WPoly P)
  unfolding add_missing match_maps drop_victims
  combine w src keep =
      let (src_adapter, src_next, src_add, victim1) =
        add_missing keep w.adapter (src.adapter, src.next, 0, []) in
      let (adapter, next, added, victim2) =
        add_missing keep src_adapter (w.adapter, w.next, 0, []) in
      let w1 : WPoly P = record {
        adapter = adapter;
        next = next;
        poly = P.add_space_dimensions_and_embed w.poly added;
      } in
      let src1 : WPoly P = record {
        adapter = src_adapter;
        next = src_next;
        poly = P.add_space_dimensions_and_embed src.poly src_add;
      } in
      if keep
      then match_maps w1 src1
      else elim (drop_victims victim1 victim2 w1 src1) [ none ↦ none | some r ↦ match_maps r.0 r.1 ]

  unfoldable pub intersection_assign : WPoly P → WPoly P → Option (WPoly P)
  unfolding combine
  intersection_assign w src = elim (combine w src true) [
    | none ↦ none
    | some r ↦ some (record r.0 { poly = P.intersection_assign r.0.poly r.1.poly })
  ]

  unfoldable pub poly_hull_assign : WPoly P → WPoly P → Option (WPoly P)
  unfolding combine
  poly_hull_assign w src = elim (combine w src false) [
    | none ↦ none
    | some r ↦ some (record r.0 { poly = P.poly_hull_assign r.0.poly r.1.poly })
  ]
