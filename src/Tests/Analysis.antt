-- ===== src/Tests/Analysis.antt =====
-- Abstract states on the small polyhedra library of Ppl/Syntactic.
use polymalys.Common.{
  ℕ, ◌<◌, Option, none, false, Bool, List, [], ◌∷◌, true, some, ◌≡◌, ◌≢◌, refl, ◌↔◌, inl, sym, ◌∙◌,
  arith, ℕ_discrete,
}
use polymalys.Common.Int.{ℤ, ℤ_discrete, pos, ◌+ℤ◌, ◌-ℤ◌, ◌*ℤ◌, ◌≤ℤ◌}
use polymalys.Linear.{
  WCons, of_var, of_cst, cons_equal, ◌-ₗ◌, ◌+ₗ◌, ◌*ₗ◌, cons_at_least, cons_at_most,
}
use polymalys.Linear.Value.{Valuation, value}
use polymalys.Linear.Compare.{
  Sat, Comparisons, Sat-Comparisons, of_var-IsExpr, of_cst-IsExpr, value-of_var, value-of_cst,
}
use polymalys.Ppl.Syntactic.{syntactic}
use polymalys.Common.StdMap.{find, put, has}
use polymalys.Ppl.Syntactic.Sets.{Con-discrete}
use polymalys.WPoly.{new, add_constraint, must_hold, maximize, minimize}
use polymalys.WPoly.Fresh.{TracksBelow}
use polymalys.WPoly.Adapter.{IsWPoly, Models}
use polymalys.WPoly.Constraints.{add_constraint-Models}
use polymalys.WPoly.Questions.{must_hold-Sat, maximize-bound}
use polymalys.Mapping.{add}
use polymalys.Mapping.Inverse.{add-IsMapping}
use polymalys.PplDomain.{PplDomain, lt, ne, top, get_var, get_constant}
use polymalys.WPoly.{to_ppl_const, to_ppl_const_terms, translate_const}
use polymalys.PolyAnalysis.Header.{
  HeaderState, Merges, header_bound, entry_and_back, process_headers,
}
use polymalys.PolyAnalysis.HeaderBounds.{Bounds, IsGreatest, process_headers-IsGreatest}
use polymalys.PplDomain.{unreachable, unbounded, get_loop_bound, is_bottom, bottom, upper}
use polymalys.Mapping.{find1}
use polymalys.PplDomain.Loops.{loop_ident, do_new_constraint, on_loop_exit, after_rounds}
use polymalys.PplDomain.LoopFacts.{
  IsDomain, counter, do_new_constraint-IsDomain, do_new_constraint-Models, after_rounds-counter,
}
use polymalys.PplDomain.LoopExit.{Left, top-IsDomain, top-Models, top_no_var, on_loop_exit-Left}
use polymalys.PplDomain.Transfer.{mul, do_binary_op}
use polymalys.PplDomain.Branch.{filter}
use polymalys.PplDomain.BranchFacts.{Filtered, filter-Filtered}
use polymalys.Ident.{ident, id_mem_addr, id_mem_val, no_step}
use polymalys.PplDomain.Memory.{mem_single_create}
use polymalys.PplDomain.MemoryFacts.{mem_single_create-Models}
use polymalys.PplDomain.TransferFacts.{IsResult, get_constant-value, do_binary_op-Models}

abbrev State : Type 0
State = PplDomain syntactic

-- the counter of loop 7 is variable 0, with value 0
abbrev zero_counter : WCons
zero_counter = cons_equal (of_var 0) (of_cst (pos 0))

abbrev bound_loop : State
bound_loop = record (top syntactic) {
  idmap = add (PplDomain.idmap (top syntactic)) (loop_ident (pos 7)) (counter 0);
}

abbrev entered : State
entered = do_new_constraint syntactic zero_counter bound_loop

bound_loop-IsDomain : IsDomain syntactic bound_loop
bound_loop-IsDomain = record {
  poly = (top-IsDomain syntactic).poly;
  idmap =
      (add-IsMapping (PplDomain.idmap (top syntactic)) (loop_ident (pos 7)) (counter 0)
        (top-IsDomain syntactic).idmap).0;
}

entered-IsDomain : IsDomain syntactic entered
entered-IsDomain = do_new_constraint-IsDomain syntactic zero_counter bound_loop bound_loop-IsDomain

entered_found : get_var syntactic entered (loop_ident (pos 7)) ≡ some (counter 0)
unfolding get_var do_new_constraint
entered_found =
    ((add-IsMapping (PplDomain.idmap (top syntactic)) (loop_ident (pos 7)) (counter 0)
          (top-IsDomain syntactic).idmap).1
        (loop_ident (pos 7)) (counter 0)).1
      (inl (refl, refl))

-- every variable is 0
abbrev zeros : Valuation
zeros g = pos 0

entered-Models : Models syntactic entered.poly zeros
entered-Models =
    (do_new_constraint-Models syntactic zero_counter bound_loop zeros bound_loop-IsDomain).1
      (top-Models syntactic zeros, zero_counter-Sat)
  where
    zero_counter-Sat : Sat zeros zero_counter
    zero_counter-Sat =
        (Sat-Comparisons zeros (of_var 0) (of_cst (pos 0)) (of_var-IsExpr 0)
            (of_cst-IsExpr (pos 0))).equal.1
          (value-of_var zeros 0 ∙ sym (value-of_cst zeros (pos 0)))

top-TracksBelow : TracksBelow syntactic 0 (PplDomain.poly (top syntactic))
unfolding top new find
top-TracksBelow g c e = absurd (ground (arith, e))

after_rounds-counter_example :
    (r : State) × (after_rounds syntactic (top syntactic) 0 (pos 7) 3 ≡ some (4, r))
    × IsDomain syntactic r
    × (get_var syntactic r (loop_ident (pos 7)) ≡ some (counter 3))
    × TracksBelow syntactic 4 r.poly
    × ((ρ : Valuation)
        → Models syntactic r.poly ρ
        → Models syntactic (PplDomain.poly (top syntactic)) ρ × (ρ 3 ≡ pos 3))
    × ((ρ : Valuation)
        → Models syntactic (PplDomain.poly (top syntactic)) ρ
        → (σ : Valuation) × Models syntactic r.poly σ
          × (σ 3 ≡ pos 3)
          × ((g : ℕ) → g < 0 → σ g ≡ ρ g))
after_rounds-counter_example =
    after_rounds-counter syntactic (top syntactic) 0 (pos 7) 3 (top-IsDomain syntactic)
      top-TracksBelow

on_loop_exit-Left_example :
    (r : State) × (on_loop_exit syntactic entered (pos 7) (pos 10) ≡ some r)
    × Left syntactic entered (pos 7) 0 (pos 10) r
on_loop_exit-Left_example =
    on_loop_exit-Left syntactic entered (pos 7) (pos 10) 0 entered-IsDomain entered_found

add_constraint-Models_example :
    IsWPoly syntactic
      (add_constraint syntactic (cons_equal (of_var 1) (of_cst (pos 4))) entered.poly)
    × ((ρ : Valuation)
        → Models syntactic
            (add_constraint syntactic (cons_equal (of_var 1) (of_cst (pos 4))) entered.poly)
            ρ
          ↔ (Models syntactic entered.poly ρ × Sat ρ (cons_equal (of_var 1) (of_cst (pos 4)))))
add_constraint-Models_example =
    add_constraint-Models syntactic (cons_equal (of_var 1) (of_cst (pos 4))) entered.poly
      entered-IsDomain.poly

-- variable 0 between 0 and 0
abbrev low : WCons
low = cons_at_least (of_var 0) (of_cst (pos 0))

abbrev high : WCons
high = cons_at_most (of_var 0) (of_cst (pos 0))

abbrev pinned : State
pinned = do_new_constraint syntactic high (do_new_constraint syntactic low entered)

pinned-IsDomain : IsDomain syntactic pinned
pinned-IsDomain =
    do_new_constraint-IsDomain syntactic high (do_new_constraint syntactic low entered)
      (do_new_constraint-IsDomain syntactic low entered entered-IsDomain)

zeros_compare : Comparisons zeros (of_var 0) (of_cst (pos 0))
zeros_compare =
    Sat-Comparisons zeros (of_var 0) (of_cst (pos 0)) (of_var-IsExpr 0) (of_cst-IsExpr (pos 0))

pinned-Models : Models syntactic pinned.poly zeros
pinned-Models =
    (do_new_constraint-Models syntactic high (do_new_constraint syntactic low entered) zeros
        (do_new_constraint-IsDomain syntactic low entered entered-IsDomain)).1
      (
        (do_new_constraint-Models syntactic low entered zeros entered-IsDomain).1
            (entered-Models, zeros_compare.at_least.1 below),
        zeros_compare.at_most.1 above,
      )
  where
    below : value zeros (of_cst (pos 0)) ≤ℤ value zeros (of_var 0)
    below = rw (value-of_var zeros 0, value-of_cst zeros (pos 0)) (omega arith)

    above : value zeros (of_var 0) ≤ℤ value zeros (of_cst (pos 0))
    above = rw (value-of_var zeros 0, value-of_cst zeros (pos 0)) (omega arith)

pinned_maximum : maximize syntactic (of_var 0) pinned.poly ≡ some (pos 0, pos 1)
unfolding maximize do_new_constraint syntactic top of_var cons_equal cons_at_least cons_at_most
    of_cst ◌-ₗ◌ ◌+ₗ◌ ◌*ₗ◌ find put has ◌+ℤ◌ ◌-ℤ◌ ◌*ℤ◌ Con-discrete ℤ_discrete ℕ_discrete new
pinned_maximum = refl

pinned_minimum : minimize syntactic (of_var 0) pinned.poly ≡ some (pos 0, pos 1)
unfolding minimize do_new_constraint syntactic top of_var cons_equal cons_at_least cons_at_most
    of_cst ◌-ₗ◌ ◌+ₗ◌ ◌*ₗ◌ find put has ◌+ℤ◌ ◌-ℤ◌ ◌*ℤ◌ Con-discrete ℤ_discrete ℕ_discrete new
pinned_minimum = refl

pinned_constant : get_constant syntactic pinned 0 ≡ some (pos 0, pos 1)
unfolding get_constant do_new_constraint syntactic top of_var cons_equal cons_at_least cons_at_most
    of_cst ◌-ₗ◌ ◌+ₗ◌ ◌*ₗ◌ find put has ◌+ℤ◌ ◌-ℤ◌ ◌*ℤ◌ Con-discrete ℤ_discrete ℕ_discrete new
pinned_constant = refl

low_holds : must_hold syntactic low pinned.poly ≡ some true
unfolding must_hold do_new_constraint syntactic top of_var cons_equal cons_at_least cons_at_most
    of_cst ◌-ₗ◌ ◌+ₗ◌ ◌*ₗ◌ find put has ◌+ℤ◌ ◌-ℤ◌ ◌*ℤ◌ Con-discrete ℤ_discrete ℕ_discrete new
low_holds = refl

must_hold-Sat_example : Sat zeros low
must_hold-Sat_example = must_hold-Sat syntactic low pinned.poly zeros pinned-Models low_holds

maximize-bound_example : (pos 1 ≤ℤ pos 1) × (pos 1 *ℤ value zeros (of_var 0) ≤ℤ pos 0)
maximize-bound_example =
    maximize-bound syntactic (of_var 0) pinned.poly (pos 0) (pos 1) zeros pinned-Models
      pinned_maximum

get_constant-value_example : (pos 1 ≤ℤ pos 1) × (pos 1 *ℤ zeros 0 ≡ pos 0)
get_constant-value_example =
    get_constant-value syntactic pinned 0 (pos 0) (pos 1) zeros pinned-Models pinned_constant

do_binary_op-Models_example :
    (r : State) × (do_binary_op syntactic mul pinned 2 0 1 ≡ some r)
    × IsDomain syntactic r
    × Models syntactic r.poly zeros
unfolding IsResult ◌*ℤ◌
do_binary_op-Models_example =
    do_binary_op-Models syntactic mul pinned 2 0 1 zeros pinned-IsDomain pinned-Models refl

filter-Filtered_example :
    (r : State) × (filter syntactic lt pinned 0 ≡ some r) × Filtered syntactic lt pinned 0 r
filter-Filtered_example = filter-Filtered syntactic lt pinned 0 less pinned-IsDomain
  where
    -- LT is not NE
    less : lt ≢ ne
    less e = ground (arith, e)

mem_single_create-Models_example :
    (r : State) × (mem_single_create syntactic (top syntactic) 9 (of_var 5) (of_cst (pos 7))
      ≡ some (9, 11, r))
    × IsDomain syntactic r
    × (get_var syntactic r (ident (pos 0) id_mem_addr) ≡ some (record { g = 9; s = pos 0 }))
    × (get_var syntactic r (ident (pos 0) id_mem_val) ≡ some (record { g = 10; s = no_step }))
    × ((ρ : Valuation)
        → Models syntactic r.poly ρ ↔ (
            Models syntactic (PplDomain.poly (top syntactic)) ρ
            × (ρ 9 ≡ value ρ (of_var 5))
            × (ρ 10 ≡ value ρ (of_cst (pos 7)))))
unfolding top
mem_single_create-Models_example =
    mem_single_create-Models syntactic (top syntactic) 9 (of_var 5) (of_cst (pos 7))
      (top-IsDomain syntactic) (of_var-IsExpr 5) (of_cst-IsExpr (pos 7))
      (top_no_var syntactic (ident (pos 0) id_mem_addr))
      (top_no_var syntactic (ident (pos 0) id_mem_val))

-- a header whose back edges bring nothing first, and then a counter without a bound
abbrev last_wins : Merges syntactic
last_wins = record { join = λ a b. b; widening = λ a b c. a; equals = λ a b. false }

abbrev visits : List (List (Bool × State))
visits = ((false, entered) ∷ []) ∷ ((true, bound_loop) ∷ []) ∷ []

abbrev found_bounds : List ℤ
found_bounds = unreachable ∷ unbounded ∷ []

bound_loop_found : find1 bound_loop.idmap (loop_ident (pos 7)) ≡ some (counter 0)
unfolding find1
bound_loop_found =
    ((add-IsMapping (PplDomain.idmap (top syntactic)) (loop_ident (pos 7)) (counter 0)
          (top-IsDomain syntactic).idmap).1
        (loop_ident (pos 7)) (counter 0)).1
      (inl (refl, refl))

no_bound : get_loop_bound syntactic bound_loop (pos 7) ≡ some unbounded
unfolding get_loop_bound is_bottom top syntactic upper maximize new to_ppl_const to_ppl_const_terms
    translate_const find of_var
no_bound = rw (get_loop_bound, bound_loop_found) refl

visits-Bounds : Bounds syntactic last_wins 7 visits found_bounds
unfolding header_bound entry_and_back get_loop_bound is_bottom bottom
visits-Bounds = (refl, (no_bound, tt))

process_headers-IsGreatest_example :
    (hs : Option (HeaderState syntactic)) × (m : ℤ) × (process_headers syntactic last_wins
        unreachable 7 visits
        (none, unreachable)
      ≡ some (hs, m))
    × IsGreatest m (unreachable ∷ found_bounds)
process_headers-IsGreatest_example =
    process_headers-IsGreatest syntactic last_wins unreachable 7 visits found_bounds none
      unreachable visits-Bounds ((omega arith, omega arith), ((omega arith, omega arith), tt))
