-- ===== src/Tests/Order.antt =====
-- The order of the blocks of a small loop, loop contexts, and the start of a task.
use polymalys.Common.{
  ℕ, zero, suc, ◌==◌, ◌≤◌, ◌&&◌, ◌||◌, not, ltb, Bool, true, false, Option, none, some, List, [],
  ◌∷◌, ◌≡◌, ◌↔◌, refl, arith, inl, if◌then◌else◌,
}
use polymalys.Common.Count.{occ}
use polymalys.Common.Int.{pos, negsuc}
use polymalys.Common.StdMap.{find, has}
use polymalys.Ppl.Syntactic.{syntactic}
use polymalys.Linear.Value.{Valuation}
use polymalys.WPoly.Adapter.{Models}
use polymalys.PplDomain.{PplDomain}
use polymalys.PplDomain.LoopFacts.{IsDomain}
use polymalys.PplManager.{PplManager, fresh_manager, start_idents}
use polymalys.PplManager.Vars.{count_after}
use polymalys.PplManager.Start.{AtStart, BindsStart, fresh_manager-AtStart}
use polymalys.PolyAnalysis.{
  Cfg, PseudoTopoOrder, directly_in, has_non_back_edges, get_pseudo_topo, is_before,
}
use polymalys.PolyAnalysis.Numbered.{Source, Numbered, IsNumbering}
use polymalys.PolyAnalysis.Topological.{IsReducible, get_pseudo_topo-IsNumbering}
use polymalys.PolyAnalysis.OrderFacts.{is_before_lem}
use polymalys.PolyAnalysis.Context.{
  LoopContext, call_loop, call_loop-overflow, leave_loop, visits, leave_loop-visits,
}

fresh_manager-AtStart_example :
    (m : PplManager syntactic) × (fresh_manager syntactic 0 ≡ some (count_after 0 start_idents, m))
    × IsDomain syntactic m.init
    × BindsStart syntactic m.init 0
    × ((ρ : Valuation)
        → Models syntactic (PplDomain.poly m.init) ρ ↔ AtStart syntactic 0 1 2 3 4 5 ρ)
fresh_manager-AtStart_example = fresh_manager-AtStart syntactic 0

-- entry 0, header 1, body 2, exit 3; the edge from 2 to 1 is a back edge
abbrev into : ℕ → List (ℕ × Bool)
into b =
    if b == 1
    then (0, false) ∷ (2, true) ∷ []
    else if b == 2
    then (1, false) ∷ []
    else if b == 3
    then (1, false) ∷ []
    else []

abbrev out_of : ℕ → List (ℕ × Bool)
out_of b =
    if b == 0
    then (1, false) ∷ []
    else if b == 1
    then (2, false) ∷ (3, false) ∷ []
    else if b == 2
    then (1, true) ∷ []
    else []

abbrev one_loop : Cfg
one_loop = record {
  blocks = 0 ∷ 1 ∷ 2 ∷ 3 ∷ [];
  predecessors = into;
  successors = out_of;
  loop_header = λ b. b == 1;
  enclosing_loop_header = λ b. if b == 2 then some 1 else none;
}

abbrev depth : ℕ → ℕ
depth b = if b == 0 then 0 else if b == 1 then 1 else 2

forward_one_loop :
    (b : ℕ)
    → 1 ≤ occ b one_loop.blocks
    → has_non_back_edges (one_loop.successors b) ≡ true
    → (w : ℕ) × (1 ≤ occ w one_loop.blocks) × Source b (one_loop.predecessors w)
unfolding occ has_non_back_edges
forward_one_loop zero m h = (1, omega arith, inl (refl, refl))
forward_one_loop (suc zero) m h = (3, omega arith, inl (refl, refl))
forward_one_loop (suc (suc b)) m h = absurd (ground (arith, m, h))

one_loop-IsReducible : IsReducible one_loop 4
unfolding directly_in has_non_back_edges occ
one_loop-IsReducible = record {
  rank = depth;
  rank_falls = λ u b s. ground (arith, s);
  rank_bound = λ b. ground arith;
  height = λ b. 0;
  height_falls = λ l b d. absurd (ground (arith, d));
  height_bound = λ b. omega arith;
  forward = λ b m h. forward_one_loop b m h;
}

get_pseudo_topo-IsNumbering_example :
    (o : PseudoTopoOrder) × (get_pseudo_topo 4 one_loop ≡ some o)
    × IsNumbering one_loop o
    × ((b : ℕ) → 1 ≤ occ b (0 ∷ 1 ∷ 2 ∷ 3 ∷ []) → Numbered o b)
get_pseudo_topo-IsNumbering_example = get_pseudo_topo-IsNumbering one_loop one_loop-IsReducible

-- blocks 1 and 2 are in the loop
abbrev small_order : PseudoTopoOrder
small_order = record {
  loop_order = (1, 0) ∷ [];
  block_order = (0, 0) ∷ (1, 1) ∷ (2, 2) ∷ (3, 3) ∷ [];
  belongs_to_loop = (1, 1) ∷ (2, 1) ∷ [];
  visited = λ b. true;
  current = 4;
}

abbrev lookup : ℕ → List (ℕ × ℕ) → Option ℕ
lookup k [] = none
lookup k ((j, v) ∷ m) = if j == k then some v else lookup k m

small_find : (k v : ℕ) (m : List (ℕ × ℕ)) → lookup k m ≡ some v → find k m ≡ some v
unfolding find
small_find k v [] e = e
small_find k v ((j, w) ∷ m) e = ground (arith, e, small_find k v m)

before_12 : is_before small_order 1 2 ≡ some true
unfolding is_before find has
before_12 = refl

before_20 : is_before small_order 2 0 ≡ some true
unfolding is_before find has
before_20 = refl

is_before_lem_example :
    is_before small_order 2 3
    ≡ some (
        (has 2 small_order.belongs_to_loop && not (has 3 small_order.belongs_to_loop))
        || ((has 2 small_order.belongs_to_loop || not (has 3 small_order.belongs_to_loop))
            && ltb 2 3))
is_before_lem_example =
    is_before_lem small_order 2 3 1 0 2 3 (small_find 2 2 small_order.block_order refl)
      (small_find 3 3 small_order.block_order refl)
      (λ e. (
        small_find 2 1 small_order.belongs_to_loop refl,
        small_find 1 0 small_order.loop_order refl,
      ))

call_loop-overflow_example : call_loop (pos 3000) 1 ≡ none
call_loop-overflow_example = call_loop-overflow 3000 1 (omega arith)

abbrev outer : LoopContext
outer = record { current_loop = pos 4; previous_loop = (4, negsuc 0) ∷ []; instances = [] }

leave_loop-visits_example : (leave_loop (7 ∷ []) (visits 7 2 outer)).current_loop ≡ pos 4
leave_loop-visits_example = leave_loop-visits 7 2 [] outer (λ e. ground (arith, e))
