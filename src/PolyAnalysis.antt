-- ===== src/PolyAnalysis.antt =====
-- poly_PolyAnalysis.cpp: the order in which the blocks of a CFG are processed (PseudoTopoOrder), and
-- the loop context in which conditions are recorded. OTAWA gives the graph, which is a parameter.
-- The MyHTables and the BitVector of the order enter as what their methods make of them: maps, and a
-- function from bits to values. `none` stands for a failed assertion, or for fuel that ran out.
pub mod Block
pub mod Context
pub mod Header
pub mod HeaderBounds
pub mod OrderFacts
pub mod Numbered
pub mod Topological
use polymalys.Common.{
  ℕ, zero, suc, ◌+◌, Bool, true, false, not, ◌&&◌, ◌||◌, Option, none, some, List, [], ◌∷◌,
  if◌then◌else◌, ◌==◌, ltb,
}
use polymalys.Common.StdMap.{StdMap, find, put, has}

-- A control flow graph: the indices of its blocks, the sources of the edges into a block and the
-- sinks of the edges out of it, each with its mark BACK_EDGE, and the marks LOOP_HEADER and
-- ENCLOSING_LOOP_HEADER of the blocks.
pub record Cfg : Type 0 where
  pub blocks : List ℕ
  pub predecessors : ℕ → List (ℕ × Bool)
  pub successors : ℕ → List (ℕ × Bool)
  pub loop_header : ℕ → Bool
  pub enclosing_loop_header : ℕ → Option ℕ

-- the members of PseudoTopoOrder
pub record PseudoTopoOrder : Type 0 where
  pub loop_order : StdMap ℕ
  pub block_order : StdMap ℕ
  pub belongs_to_loop : StdMap ℕ
  pub visited : ℕ → Bool
  pub current : ℕ

abbrev pub no_order : PseudoTopoOrder
no_order = record {
  loop_order = [];
  block_order = [];
  belongs_to_loop = [];
  visited = λ b. false;
  current = 0;
}

-- the condition of the loop of _topoLoopHelper; `none` is the outermost level, -1
unfoldable pub directly_in : Cfg → Option ℕ → ℕ → Bool
directly_in g current_loop b = g.loop_header b && elim current_loop [
  | none ↦ elim (g.enclosing_loop_header b) [ none ↦ true | some h ↦ false ]
  | some l ↦ elim (g.enclosing_loop_header b) [ none ↦ false | some h ↦ h == l ]
]

unfoldable pub number_loop : Option ℕ → PseudoTopoOrder → PseudoTopoOrder
number_loop none o = o
number_loop (some l) o = record o {
  loop_order = put l o.current o.loop_order;
  current = o.current + 1;
}

-- a loop over blocks whose body may fail
unfoldable pub for_blocks :
    (ℕ → PseudoTopoOrder → Option PseudoTopoOrder)
    → List ℕ
    → PseudoTopoOrder
    → Option PseudoTopoOrder
for_blocks body [] o = some o
for_blocks body (b ∷ bs) o = elim (body b o) [ none ↦ none | some o' ↦ for_blocks body bs o' ]

-- _topoLoopHelper; the fuel bounds the depth of the nest of loops
unfoldable pub topo_loop_helper : ℕ → Cfg → Option ℕ → PseudoTopoOrder → Option PseudoTopoOrder
unfolding directly_in number_loop for_blocks
topo_loop_helper zero g current_loop o = none
topo_loop_helper (suc f) g current_loop o =
    elim (for_blocks
      (λ b o. elim (directly_in g current_loop b) [
        | true ↦ topo_loop_helper f g (some b) o
        | false ↦ some o
      ])
      g.blocks o) [ none ↦ none | some o' ↦ some (number_loop current_loop o') ]

-- the end of _topoNodeHelper
unfoldable pub number_block : Cfg → ℕ → PseudoTopoOrder → PseudoTopoOrder
number_block g b o = record o {
  belongs_to_loop =
      if g.loop_header b then put b b o.belongs_to_loop else elim (g.enclosing_loop_header b) [
        | none ↦ o.belongs_to_loop
        | some h ↦ put b h o.belongs_to_loop
      ];
  block_order = put b o.current o.block_order;
  current = o.current + 1;
  visited = λ c. if c == b then true else o.visited c;
}

-- its loop over the edges into the block
unfoldable pub for_sources :
    (ℕ → PseudoTopoOrder → Option PseudoTopoOrder)
    → List (ℕ × Bool)
    → PseudoTopoOrder
    → Option PseudoTopoOrder
for_sources visit [] o = some o
for_sources visit ((u, true) ∷ es) o = for_sources visit es o
for_sources visit ((u, false) ∷ es) o = elim (visit u o) [
  | none ↦ none
  | some o' ↦ for_sources visit es o'
]

-- _topoNodeHelper; the fuel bounds the length of a path without back edges
unfoldable pub topo_node_helper : ℕ → Cfg → ℕ → PseudoTopoOrder → Option PseudoTopoOrder
unfolding number_block for_sources
topo_node_helper zero g b o = none
topo_node_helper (suc f) g b o = elim (o.visited b) [
  | true ↦ some o
  | false ↦ elim (for_sources (topo_node_helper f g) (g.predecessors b) o) [
    | none ↦ none
    | some o' ↦ some (number_block g b o')
  ]
]

-- `hasNonBackEdges`
unfoldable pub has_non_back_edges : List (ℕ × Bool) → Bool
has_non_back_edges [] = false
has_non_back_edges ((s, back) ∷ es) = not back || has_non_back_edges es

-- the second loop of _getPseudoTopo
unfoldable pub number_blocks : ℕ → Cfg → PseudoTopoOrder → Option PseudoTopoOrder
unfolding for_blocks has_non_back_edges topo_node_helper
number_blocks f g o =
    for_blocks
      (λ b o. elim (has_non_back_edges (g.successors b)) [
        | true ↦ some o
        | false ↦ topo_node_helper f g b o
      ])
      g.blocks o

-- _getPseudoTopo
unfoldable pub get_pseudo_topo : ℕ → Cfg → Option PseudoTopoOrder
unfolding topo_loop_helper number_blocks
get_pseudo_topo f g = elim (topo_loop_helper f g none no_order) [
  | none ↦ none
  | some o ↦ number_blocks f g (record o { current = 0 })
]

-- the comparison of the loops in isBefore, which compares a loop's number with itself
unfoldable pub loops_before : PseudoTopoOrder → ℕ → Option (Option Bool)
loops_before o b1 = elim (find b1 o.belongs_to_loop) [
  | none ↦ none
  | some loop_id ↦ elim (find loop_id o.loop_order) [
    | none ↦ none
    | some n ↦ some (if ltb n n then some true else if ltb n n then some false else none)
  ]
]

unfoldable pub blocks_before : PseudoTopoOrder → ℕ → ℕ → Option Bool
blocks_before o b1 b2 = elim (find b1 o.block_order) [
  | none ↦ none
  | some m ↦ elim (find b2 o.block_order) [ none ↦ none | some n ↦ some (ltb m n) ]
]

-- isBefore
unfoldable pub is_before : PseudoTopoOrder → ℕ → ℕ → Option Bool
unfolding loops_before blocks_before
is_before o b1 b2 =
    let in1 = has b1 o.belongs_to_loop in
    let in2 = has b2 o.belongs_to_loop in
    if in1 && not in2
    then some true
    else if not in1 && in2
    then some false
    else if in1
    then elim (loops_before o b1) [
      | none ↦ none
      | some (some r) ↦ some r
      | some none ↦ blocks_before o b1 b2
    ]
    else blocks_before o b1 b2
