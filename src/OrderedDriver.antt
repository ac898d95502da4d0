-- ===== src/OrderedDriver.antt =====
-- OrderedDriver of include/OrderedDriver.h: a work list of the abstract interpretation that is kept in order. The graph,
-- the order, the domain and the store are template parameters, and so arguments here.
pub mod Worklist
pub mod Follows
pub mod Waiting
pub mod Ends
use polymalys.Common.{
  ℕ, zero, suc, Bool, true, false, not, Option, none, some, List, [], ◌∷◌, ◌++◌, if◌then◌else◌,
  ◌==◌, length, reverse,
}

-- `_order`, where it is not null: `isBefore`
abbrev pub Order : Type 0 → Type 0
Order V = Option (V → V → Bool)

-- the graph: the numbers of the vertices, the sinks of the edges that leave a vertex, and its ends
pub record Graph (V : Type 0) : Type 0 where
  pub index : V → ℕ
  pub sinks : V → List V
  pub entry : V
  pub exit : V

-- wl_vertices, wl_set, cur and end
pub record Driver (V : Type 0) : Type 0 where
  pub vertices : List V
  pub bits : ℕ → Bool
  pub cur : V
  pub ended : Bool

module _ {V : Type 0} where
  -- the search for the place and the insertion in `push`
  unfoldable pub insert_ordered : (V → V → Bool) → V → List V → List V
  insert_ordered before v [] = v ∷ []
  insert_ordered before v (x ∷ xs) =
      if before v x then x ∷ insert_ordered before v xs else v ∷ x ∷ xs

  unfoldable pub place : Order V → V → List V → List V
  unfolding insert_ordered
  place none v xs = xs ++ v ∷ []
  place (some before) v xs = insert_ordered before v xs

  -- `pop` of a vector: its last element and the rest
  unfoldable pub pop_last : List V → Option (V × List V)
  pop_last [] = none
  pop_last (x ∷ xs) = elim (pop_last xs) [ none ↦ some (x, []) | some (y, ys) ↦ some (y, x ∷ ys) ]

module _ {V : Type 0} (graph : Graph V) where
  unfoldable pub contains : Driver V → V → Bool
  contains d v = d.bits (graph.index v)

  unfoldable pub push : Order V → Driver V → V → Driver V
  unfolding contains place
  push order d v = if contains d v then d else record d {
    vertices = place order v d.vertices;
    bits = λ i. if graph.index v == i then true else d.bits i;
  }

  unfoldable pub pop : Driver V → Option (V × Driver V)
  unfolding pop_last
  pop d = elim (pop_last d.vertices) [
    | none ↦ none
    | some (v, vs) ↦
        some (
          v,
          record d { vertices = vs; bits = λ i. if graph.index v == i then false else d.bits i },
        )
  ]

  -- the loop of `next`; `none` means that the fuel ran out
  unfoldable pub next_loop : ℕ → Driver V → Option (Driver V)
  unfolding pop
  next_loop zero d = elim (pop d) [ none ↦ some (record d { ended = true }) | some r ↦ none ]
  next_loop (suc fuel) d = elim (pop d) [
    | none ↦ some (record d { ended = true })
    | some (v, d') ↦
        if graph.index v == graph.index graph.exit
        then next_loop fuel (record d' { cur = v })
        else some (record d' { cur = v })
  ]

  -- every round takes one vertex away
  unfoldable pub next : Driver V → Option (Driver V)
  unfolding next_loop
  next d = next_loop (length d.vertices) d

  unfoldable pub push_all : Order V → Driver V → List V → Driver V
  unfolding push
  push_all order d [] = d
  push_all order d (v ∷ vs) = push_all order (push order d v) vs

  -- the constructor: the successors of the entry are to do
  unfoldable pub start : Order V → Option (Driver V)
  unfolding push_all next
  start order = next (
      push_all order (record { vertices = []; bits = λ i. false; cur = graph.entry; ended = false })
        (graph.sinks graph.entry))

  -- changeAll: the sinks of a vertex that are not waiting are to do, and so are theirs; `todo` is a
  -- stack with its top first, and `none` is fuel that ran out
  unfoldable pub push_sinks : Order V → List V → Driver V × List V → Driver V × List V
  unfolding contains push
  push_sinks order [] st = st
  push_sinks order (v ∷ vs) (d, todo) =
      push_sinks order vs (if contains d v then (d, todo) else (push order d v, v ∷ todo))

  unfoldable pub collect : ℕ → Order V → List V → Driver V → Option (Driver V)
  unfolding push_sinks
  collect fuel order [] d = some d
  collect zero order (v ∷ todo) d = none
  collect (suc fuel) order (v ∷ todo) d =
      let (d', todo') = push_sinks order (graph.sinks v) (d, todo) in collect fuel order todo' d'

  -- the list is emptied, but not the bit set
  unfoldable pub change_all : ℕ → Order V → Driver V → Option (Driver V)
  unfolding collect next
  change_all fuel order d =
      elim (collect fuel order (graph.entry ∷ []) (record d { vertices = [] })) [
        | none ↦ none
        | some r ↦ next (record r { vertices = reverse r.vertices })
      ]

  -- check(edge, s): a state that differs from the stored one is stored, and the sink is to do
  unfoldable pub check {ℓ κ} :
      {E : Type ℓ} {T : Type κ}
      → (E → V)
      → (T → T → Bool)
      → (E → T → (E → T) → E → T)
      → Order V
      → (E → T) × Driver V
      → E
      → T
      → (E → T) × Driver V
  unfolding push
  check sink_of equals set order (store, d) e s =
      if equals s (store e) then (store, d) else (set e s store, push order d (sink_of e))

-- input(vertex): the join over the edges that enter
unfoldable pub input {ℓ κ} : {E : Type ℓ} {T : Type κ} → (T → T → T) → (E → T) → T → List E → T
input join store s [] = s
input join store s (e ∷ es) = input join store (join s (store e)) es
