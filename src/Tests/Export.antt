-- ===== src/Tests/Export.antt =====
-- Loop bounds and branch conditions written for small constraints.
use polymalys.Common.{ℕ, ◌==◌, ==_iff, true, false, some, [], ◌∷◌, ◌≡◌, ◌≢◌, refl, arith, map, List}
use polymalys.Common.Int.{ℤ, pos, negsuc, ◌+ℤ◌}
use polymalys.Common.Count.{occ}
use polymalys.Common.StdMap.{StdMap, find, put, has}
use polymalys.Linear.{WCons, cons_ge}
use polymalys.Linear.Value.{Valuation}
use polymalys.MyHTable.{HashKey, MyHTable, make_table, get, add, put as put_key}
use polymalys.LoopAnalyzer
use polymalys.LoopAnalyzer.{LoopBound, Text, mentions_both, constraint_text, param_id}
use polymalys.LoopAnalyzer.Written.{IsQuotient, constraint_text-read}
use polymalys.BranchConditionner.{
  Conditional, constraints_text, record_conditional, export_ordered_constraints,
}
use polymalys.BranchConditionner.Reader.{read_text}
use polymalys.BranchConditionner.Written.{IsWritable, relation_of, constraints_text-read}
use polymalys.BranchConditionner.Exported.{
  Event, run, skeleton, expected_lines, export_ordered_constraints-run,
}
use polymalys.BranchConditionner.Arguments.{get_param_id, get_param_id-find}

instance number_hash : HashKey ℕ
number_hash = record { hash = λ n. n; equals = ◌==◌; equals_iff = ==_iff }

-- 0 <= - v0 + 2 v1 + 3
abbrev bounded_by_param : WCons
bounded_by_param = record {
  ctype = cons_ge;
  expr = record { coefs = (0, negsuc 0) ∷ (1, pos 2) ∷ []; cst = pos 3 };
}

-- variable 1 stands for parameter 1
abbrev params : MyHTable ℕ ℤ
params = put_key (make_table 3) 1 (negsuc 1)

abbrev fours : Valuation
fours g = pos 4

abbrev four_params : ℤ → ℤ
four_params i = pos 4

-- 2 * b:1 + 3
abbrev bound_text : Text
bound_text =
    LoopAnalyzer.number (pos 2)
    ∷ LoopAnalyzer.times
    ∷ LoopAnalyzer.param (pos 1)
    ∷ LoopAnalyzer.plus
    ∷ LoopAnalyzer.number (pos 3)
    ∷ []

bound_text_written : constraint_text params bounded_by_param ≡ some (some bound_text)
unfolding constraint_text put_key make_table add get number_hash ◌+ℤ◌
bound_text_written = refl

both_mentioned : mentions_both bounded_by_param.expr.coefs false false ≡ true
unfolding mentions_both
both_mentioned = refl

constraint_text-read_example : IsQuotient params fours four_params bounded_by_param bound_text
constraint_text-read_example =
    constraint_text-read params fours four_params bounded_by_param bound_text (λ g i e. refl)
      ((omega arith, tt), (tt, tt)) (λ e. ground (arith, e), (λ e. ground (arith, e), tt))
      both_mentioned bound_text_written

abbrev stored : LoopBound
stored = record { linear = true; static_bound = pos 0; linear_bound = bound_text }

bounded_by_param-IsWritable : IsWritable (0 ∷ 1 ∷ []) bounded_by_param
unfolding find occ
bounded_by_param-IsWritable = record {
  sorted = ((omega arith, tt), (tt, tt));
  short_coefs = (omega arith, (omega arith, tt));
  short_cst = omega arith;
  listed = λ g k e. ground (arith, e);
}

constraints_text-read_example :
    read_text fours (constraints_text (0 ∷ 1 ∷ []) (bounded_by_param ∷ []) [])
    ≡ some (map (relation_of fours) (bounded_by_param ∷ []))
constraints_text-read_example =
    constraints_text-read fours (0 ∷ 1 ∷ []) bounded_by_param [] (bounded_by_param-IsWritable, tt)

abbrev skipped : Conditional
skipped = record { block = 3; taken = false; conditions = [] }

abbrev visits_of_loop : List Event
visits_of_loop = (pos 5, skipped) ∷ (negsuc 0, skipped) ∷ (pos 5, skipped) ∷ []

export_ordered_constraints-run_example :
    export_ordered_constraints (run visits_of_loop)
    ≡ some (expected_lines visits_of_loop (skeleton visits_of_loop))
export_ordered_constraints-run_example = export_ordered_constraints-run visits_of_loop

-- the lines are those of the loop's last visit and of the conditional outside
export_ordered_run : export_ordered_constraints (run visits_of_loop) ≡ some (skipped ∷ skipped ∷ [])
unfolding export_ordered_constraints run find put has record_conditional
export_ordered_run = refl

get_param_id-find_example :
    (get_param_id ((0, 8) ∷ (1, 9) ∷ []) 9 ≡ pos 1 → find {V = ℕ} 1 ((0, 8) ∷ (1, 9) ∷ []) ≡ some 9)
    × (get_param_id ((0, 8) ∷ (1, 9) ∷ []) 9 ≡ negsuc 0
        → find {V = ℕ} 1 ((0, 8) ∷ (1, 9) ∷ []) ≢ some 9)
get_param_id-find_example =
    get_param_id-find ((0, 8) ∷ (1, 9) ∷ []) 9 1 ((omega arith, tt), (tt, tt))
