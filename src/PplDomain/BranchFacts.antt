-- ===== src/PplDomain/BranchFacts.antt =====
-- What the filter of a branch keeps.
use polymalys.Common.{some, ◌≡◌, ◌≢◌, refl, ◌↔◌}
use polymalys.Common.Int.{ℤ, pos, negsuc, ◌≤ℤ◌}
use polymalys.Linear.{WVar, WCons, of_var, of_cst, cons_equal, cons_at_least, cons_at_most}
use polymalys.Linear.Value.{Valuation}
use polymalys.Linear.Compare.{
  Sat, Sat-Comparisons, of_cst-IsExpr, of_var-IsExpr, value-of_cst, value-of_var,
}
use polymalys.Ppl.{Ppl}
use polymalys.WPoly.Adapter.{Models}
use polymalys.PplDomain.{
  PplDomain, Cond, no_cond, eq, lt, le, ge, gt, any_cond, ne, ult, ule, uge, ugt,
}
use polymalys.PplDomain.Loops.{do_new_constraint}
use polymalys.PplDomain.LoopFacts.{IsDomain, do_new_constraint-IsDomain, do_new_constraint-Models}
use polymalys.PplDomain.Branch.{filter}

-- what a condition says of the difference of the compared values
unfoldable pub Holds : Cond → ℤ → Type 0
Holds no_cond x = Unit
Holds any_cond x = Unit
Holds eq x = x ≡ pos 0
Holds ne x = x ≢ pos 0
Holds lt x = x ≤ℤ negsuc 0
Holds ult x = x ≤ℤ negsuc 0
Holds le x = x ≤ℤ pos 0
Holds ule x = x ≤ℤ pos 0
Holds ge x = pos 0 ≤ℤ x
Holds uge x = pos 0 ≤ℤ x
Holds gt x = pos 1 ≤ℤ x
Holds ugt x = pos 1 ≤ℤ x

module _ (P : Ppl) where
  -- what the filter returns
  pub record Filtered (op : Cond) (d : PplDomain P) (v : WVar) (r : PplDomain P) : Type 0 where
    pub valid : IsDomain P r
    pub models : (ρ : Valuation) → Models P r.poly ρ ↔ (Models P d.poly ρ × Holds op (ρ v))

  Filtered-constraint :
      (op : Cond) (d : PplDomain P) (v : WVar) (c : WCons)
      → IsDomain P d
      → ((ρ : Valuation) → Sat ρ c ↔ Holds op (ρ v))
      → Filtered op d v (do_new_constraint P c d)
  Filtered-constraint op d v c h s = record {
    valid = do_new_constraint-IsDomain P c d h;
    models = λ ρ.
        let m = do_new_constraint-Models P c d ρ h in
        (λ x. let (y, z) = m.0 x in (y, (s ρ).0 z), λ (y, z). m.1 (y, (s ρ).1 z));
  }

  pub compared :
      (v : WVar) (k : ℤ) (ρ : Valuation)
      → (Sat ρ (cons_equal (of_var v) (of_cst k)) ↔ (ρ v ≡ k))
        × (Sat ρ (cons_at_least (of_var v) (of_cst k)) ↔ (k ≤ℤ ρ v))
        × (Sat ρ (cons_at_most (of_var v) (of_cst k)) ↔ (ρ v ≤ℤ k))
  compared v k ρ =
      let c = Sat-Comparisons ρ (of_var v) (of_cst k) (of_var-IsExpr v) (of_cst-IsExpr k) in
      (
        rw (value-of_var ρ v, value-of_cst ρ k) at c.equal,
        rw (value-of_var ρ v, value-of_cst ρ k) at c.at_least,
        rw (value-of_var ρ v, value-of_cst ρ k) at c.at_most,
      )

  -- For every condition but NE, the filter succeeds, and describes the valuations that were described
  -- and in which the difference of the compared values has the sign that the condition asks for.
  pub filter-Filtered :
      (op : Cond) (d : PplDomain P) (v : WVar)
      → op ≢ ne
      → IsDomain P d
      → (r : PplDomain P) × (filter P op d v ≡ some r) × Filtered op d v r
  unfolding filter Holds
  filter-Filtered ne d v n h = absurd (n refl)
  filter-Filtered no_cond d v n h =
      (d, refl, record { valid = h; models = λ ρ. (λ x. (x, tt), λ x. x.0) })
  filter-Filtered any_cond d v n h =
      (d, refl, record { valid = h; models = λ ρ. (λ x. (x, tt), λ x. x.0) })
  filter-Filtered eq d v n h = (
    _,
    refl,
    Filtered-constraint eq d v (cons_equal (of_var v) (of_cst (pos 0))) h
        (λ ρ. (compared v (pos 0) ρ).0),
  )
  filter-Filtered lt d v n h = (
    _,
    refl,
    Filtered-constraint lt d v (cons_at_most (of_var v) (of_cst (negsuc 0))) h
        (λ ρ. (compared v (negsuc 0) ρ).2),
  )
  filter-Filtered ult d v n h = (
    _,
    refl,
    Filtered-constraint ult d v (cons_at_most (of_var v) (of_cst (negsuc 0))) h
        (λ ρ. (compared v (negsuc 0) ρ).2),
  )
  filter-Filtered le d v n h = (
    _,
    refl,
    Filtered-constraint le d v (cons_at_most (of_var v) (of_cst (pos 0))) h
        (λ ρ. (compared v (pos 0) ρ).2),
  )
  filter-Filtered ule d v n h = (
    _,
    refl,
    Filtered-constraint ule d v (cons_at_most (of_var v) (of_cst (pos 0))) h
        (λ ρ. (compared v (pos 0) ρ).2),
  )
  filter-Filtered ge d v n h = (
    _,
    refl,
    Filtered-constraint ge d v (cons_at_least (of_var v) (of_cst (pos 0))) h
        (λ ρ. (compared v (pos 0) ρ).1),
  )
  filter-Filtered uge d v n h = (
    _,
    refl,
    Filtered-constraint uge d v (cons_at_least (of_var v) (of_cst (pos 0))) h
        (λ ρ. (compared v (pos 0) ρ).1),
  )
  filter-Filtered gt d v n h = (
    _,
    refl,
    Filtered-constraint gt d v (cons_at_least (of_var v) (of_cst (pos 1))) h
        (λ ρ. (compared v (pos 1) ρ).1),
  )
  filter-Filtered ugt d v n h = (
    _,
    refl,
    Filtered-constraint ugt d v (cons_at_least (of_var v) (of_cst (pos 1))) h
        (λ ρ. (compared v (pos 1) ρ).1),
  )
