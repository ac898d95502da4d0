-- ===== src/PolyAnalysis/Block.antt =====
-- The basic blocks of processBB in poly_PolyAnalysis.cpp: the update for the machine instructions of a
-- block, and the states that its edges get. A machine instruction is its semantic instructions. The
-- loops of the CFG, its dominance and the live registers come from OTAWA and enter as arguments. The
-- mark LOOP_RESET of the block after a loop is left out.
use polymalys.Common.{
  ℕ, ◌+◌, ◌++◌, Bool, true, false, not, ◌&&◌, ◌||◌, Option, none, some, List, [], ◌∷◌,
  if◌then◌else◌, ◌==◌, length,
}
use polymalys.Common.Int.{ℤ, pos, leb_ℤ}
use polymalys.Linear.{of_var, of_cst, cons_equal}
use polymalys.Ppl.{Ppl}
use polymalys.WPoly.{must_hold_mut}
use polymalys.Ident.{
  Ident, IdVal, ident, id_mem_addr, id_mem_count, id_mem_val, id_reg, id_special, id_loop,
  same_type,
}
use polymalys.MyHTable.{Chain, entries}
use polymalys.PplDomain.{
  PplDomain, Cond, has_filter, has_ident, get_var, is_bottom, get_bound, do_kill_temporaries,
  do_finalize_update,
}
use polymalys.PplDomain.SemInst.{Counted}
use polymalys.PplDomain.Delta.{Solver, to_int}
use polymalys.PplDomain.Load.{Memory}
use polymalys.PplDomain.OnSemInst.{SemInst, on_sem_insts}
use polymalys.PplDomain.Loops.{on_loop_entry, on_loop_iter, on_loop_exit}
use polymalys.PplDomain.Memory.{do_kill_registers, do_remove_all_avatars}
use polymalys.PplDomain.Useless.{do_remove_useless_avatars}
use polymalys.PplDomain.Branch.{on_branch}

-- what is asked of an edge: whether it is taken, whether its sink is the header of a loop and the
-- source is in that loop, the number of the sink, and the header of the loop that it leaves
pub record FlowEdge : Type 0 where
  pub is_taken : Bool
  pub to_header : Bool
  pub is_back : Bool
  pub sink : ℕ
  pub exits : Option ℕ

unfoldable pub is_exit : FlowEdge → Bool
is_exit e = elim e.exits [ none ↦ false | some loop ↦ true ]

module _ (P : Ppl) where
  -- how many identifiers an identifier of listMemoryVariables stands for
  unfoldable pub weight : PplDomain P → Ident → Option (ℕ × PplDomain P)
  unfolding same_type get_var has_ident must_hold_mut cons_equal of_var of_cst
  weight d i =
      if same_type i.type id_mem_addr
      then elim (get_var P d (ident i.id id_mem_count)) [
        | none ↦ none
        | some count ↦
            if has_ident P d (ident i.id id_mem_val)
            then (let (single, w) =
                  must_hold_mut P (cons_equal (of_var count.g) (of_cst (pos 1))) d.poly in
                some (3, record d { poly = w }))
            else some (4, d)
      ]
      else if same_type i.type id_reg || same_type i.type id_special || same_type i.type id_loop
      then some (1, d)
      else some (0, d)

  unfoldable pub weights : Chain Ident IdVal → ℕ → PplDomain P → Option (ℕ × PplDomain P)
  unfolding weight
  weights [] n d = some (n, d)
  weights ((i, v) ∷ c) n d = elim (weight d i) [ none ↦ none | some (k, r) ↦ weights c (n + k) r ]

  -- listMemoryVariables; it stops the analysis where an identifier is of no array
  unfoldable pub list_memory_variables : PplDomain P → Option (PplDomain P)
  unfolding do_remove_useless_avatars do_finalize_update entries weights
  list_memory_variables d = elim (do_remove_useless_avatars P d) [
    | none ↦ none
    | some d1 ↦ elim (do_finalize_update P d1) [
      | none ↦ none
      | some d2 ↦ elim (weights (entries d2.idmap.id2guid) 0 d2) [
        | none ↦ none
        | some (n, d3) ↦ if n == length (entries d2.idmap.id2guid) then some d3 else none
      ]
    ]
  ]

  module _ (solver : Solver P) (memory : Memory) where
    -- the machine instructions of a block, each with its clean-up
    unfoldable pub update_insts : List (List SemInst) → Counted P → Option (Counted P)
    unfolding on_sem_insts do_kill_temporaries do_finalize_update
    update_insts [] st = some st
    update_insts (is ∷ insts) st = elim (on_sem_insts P solver memory is st) [
      | none ↦ none
      | some (guid, s) ↦ elim (do_kill_temporaries P s) [
        | none ↦ none
        | some s1 ↦ elim (do_finalize_update P s1) [
          | none ↦ none
          | some s2 ↦ update_insts insts (guid, s2)
        ]
      ]
    ]

    -- a basic block; `size` and `bit` are the registers that are live at its end
    unfoldable pub update_block :
        ℤ → (ℤ → Bool) → List (List SemInst) → Counted P → Option (Counted P)
    unfolding update_insts do_kill_registers do_remove_useless_avatars do_finalize_update
        list_memory_variables
    update_block size bit insts st = elim (update_insts insts st) [
      | none ↦ none
      | some (guid, s) ↦ elim (do_kill_registers P size bit s) [
        | none ↦ none
        | some s1 ↦ elim (do_remove_useless_avatars P s1) [
          | none ↦ none
          | some s2 ↦ elim (do_finalize_update P s2) [
            | none ↦ none
            | some s3 ↦ elim (list_memory_variables s3) [ none ↦ none | some s4 ↦ some (guid, s4) ]
          ]
        ]
      ]
    ]

  -- the condition of the branch; `some none` is a state that is bottom, whose edge is not checked
  unfoldable pub filter_edge :
      (Cond → Cond) → FlowEdge → PplDomain P → Option (Option (PplDomain P))
  unfolding has_filter on_branch is_bottom
  filter_edge invert e s =
      if has_filter P s
      then elim (on_branch P invert e.is_taken s) [
        | none ↦ none
        | some r ↦ some (if is_bottom P r then none else some r)
      ]
      else some (some s)

  -- the counter of the loop that the edge enters or goes round
  unfoldable pub count_edge : FlowEdge → Counted P → Option (Counted P)
  unfolding on_loop_entry on_loop_iter
  count_edge e (guid, s) =
      if e.to_header
      then if e.is_back
        then on_loop_iter P s guid (pos e.sink)
        else on_loop_entry P s guid (pos e.sink)
      else some (guid, s)

  -- the bound of the loop that the edge leaves
  unfoldable pub leave_edge : FlowEdge → PplDomain P → Option (Option (PplDomain P))
  unfolding to_int get_bound do_remove_useless_avatars do_remove_all_avatars on_loop_exit is_bottom
  leave_edge e s = elim e.exits [
    | none ↦ some (some s)
    | some loop ↦
        let bound = to_int (get_bound P s loop) in
        elim (do_remove_useless_avatars P s) [
          | none ↦ none
          | some s1 ↦ elim (do_remove_all_avatars P s1) [
            | none ↦ none
            | some s2 ↦
                if leb_ℤ (pos 0) bound
                then elim (on_loop_exit P s2 (pos loop) bound) [
                  | none ↦ none
                  | some r ↦ some (if is_bottom P r then none else some r)
                ]
                else some (some s2)
          ]
        ]
  ]

  -- the state that an edge is checked with, if any, and the counter of guids
  unfoldable pub edge_state :
      (Cond → Cond) → FlowEdge → Counted P → Option (ℕ × Option (PplDomain P))
  unfolding is_exit has_filter filter_edge count_edge leave_edge do_finalize_update
  edge_state invert e (guid, s) =
      if not e.to_header && (not (is_exit e) && not (has_filter P s))
      then some (guid, some s)
      else elim (filter_edge invert e s) [
        | none ↦ none
        | some none ↦ some (guid, none)
        | some (some s1) ↦ elim (count_edge e (guid, s1)) [
          | none ↦ none
          | some (guid', s2) ↦ elim (leave_edge e s2) [
            | none ↦ none
            | some none ↦ some (guid', none)
            | some (some s3) ↦ elim (do_finalize_update P s3) [
              | none ↦ none
              | some s4 ↦ some (guid', some s4)
            ]
          ]
        ]
      ]

  -- the calls of `ana.check` in one pass over the edges that leave the block
  unfoldable pub check_pass :
      (Cond → Cond) → Bool → List FlowEdge → Counted P → Option (ℕ × List (FlowEdge × PplDomain P))
  unfolding is_exit edge_state
  check_pass invert do_exit [] (guid, s) = some (guid, [])
  check_pass invert do_exit (e ∷ es) (guid, s) =
      let rest = check_pass invert do_exit es in
      elim (if (is_exit e && not do_exit) || (not (is_exit e) && do_exit)
        then edge_state invert e (guid, s)
        else some (guid, none)) [
          | none ↦ none
          | some (guid', r) ↦ elim (rest (guid', s)) [
            | none ↦ none
            | some (guid'', calls) ↦
                some (guid'', elim r [ none ↦ calls | some t ↦ (e, t) ∷ calls ])
          ]
        ]

  -- the edges that leave a loop come first, as the tests of the two passes have it
  unfoldable pub check_edges :
      (Cond → Cond) → List FlowEdge → Counted P → Option (ℕ × List (FlowEdge × PplDomain P))
  unfolding check_pass
  check_edges invert es (guid, s) = elim (check_pass invert false es (guid, s)) [
    | none ↦ none
    | some (guid', leaving) ↦ elim (check_pass invert true es (guid', s)) [
      | none ↦ none
      | some (guid'', inside) ↦ some (guid'', leaving ++ inside)
    ]
  ]
