-- ===== src/PplDomain/NotEqual.antt =====
-- The filter of a branch on NE: the hull of what lies below and what lies above.
use polymalys.Common.{ℕ, zero, suc, some, ◌≡◌, refl, ◌⊎◌, inl, inr, arith}
use polymalys.Common.StdMap.{find}
use polymalys.Common.Int.{ℤ, pos, negsuc, ◌≤ℤ◌}
use polymalys.Linear.{WVar, of_var, of_cst, cons_at_least, cons_at_most}
use polymalys.Linear.Value.{Valuation}
use polymalys.Ppl.{Ppl}
use polymalys.WPoly.{WPoly, add_constraint}
use polymalys.WPoly.Adapter.{Models}
use polymalys.WPoly.Combine.{poly_hull_assign}
use polymalys.WPoly.Constraints.{add_constraint-Models, add_constraint-find}
use polymalys.WPoly.Matching.Hull.{IsJoin, poly_hull_assign-IsJoin}
use polymalys.PplDomain.{PplDomain, ne}
use polymalys.PplDomain.LoopFacts.{IsDomain}
use polymalys.PplDomain.Branch.{filter, filter_ne}
use polymalys.PplDomain.BranchFacts.{Holds, compared}

Holds-ne : (x : ℤ) → Holds ne x → (x ≤ℤ negsuc 0) ⊎ (pos 1 ≤ℤ x)
unfolding Holds
Holds-ne (pos zero) h = absurd (h refl)
Holds-ne (pos (suc n)) h = inr (omega arith)
Holds-ne (negsuc n) h = inl (omega arith)

module _ (P : Ppl) (d : PplDomain P) (v : WVar) (c : ℕ) (h : IsDomain P d)
    (tracked : find v d.poly.adapter ≡ some c) where
  abbrev lower : WPoly P
  lower = add_constraint P (cons_at_most (of_var v) (of_cst (negsuc 0))) d.poly

  abbrev upper : WPoly P
  upper = add_constraint P (cons_at_least (of_var v) (of_cst (pos 1))) d.poly

  sides : (r : WPoly P) × (poly_hull_assign P lower upper ≡ some r) × IsJoin P lower upper r
  sides =
      let low = cons_at_most (of_var v) (of_cst (negsuc 0)) in
      let high = cons_at_least (of_var v) (of_cst (pos 1)) in
      poly_hull_assign-IsJoin P lower upper (add_constraint-Models P low d.poly h.poly).0
        (add_constraint-Models P high d.poly h.poly).0 v c c
        (add_constraint-find P low d.poly v c h.poly tracked)
        (add_constraint-find P high d.poly v c h.poly tracked)

  side : (ρ : Valuation) → Models P d.poly ρ → Holds ne (ρ v) → Models P lower ρ ⊎ Models P upper ρ
  side ρ x n =
      let low = cons_at_most (of_var v) (of_cst (negsuc 0)) in
      let high = cons_at_least (of_var v) (of_cst (pos 1)) in
      elim (Holds-ne (ρ v) n) [
        | inl l ↦ inl (
            ((add_constraint-Models P low d.poly h.poly).1 ρ).1
              (x, ((compared P v (negsuc 0) ρ).2).1 l))
        | inr l ↦ inr (
            ((add_constraint-Models P high d.poly h.poly).1 ρ).1
              (x, ((compared P v (pos 1) ρ).1).1 l))
      ]

  -- On NE the filter of a tracked variable succeeds, keeps the invariant, and loses no described
  -- valuation in which the compared values differ.
  pub filter_ne-Models :
      (r : PplDomain P) × (filter P ne d v ≡ some r)
      × IsDomain P r
      × ((ρ : Valuation) → Models P d.poly ρ → Holds ne (ρ v) → Models P r.poly ρ)
  unfolding filter filter_ne
  filter_ne-Models =
      let (w, e, j) = sides in
      (
        record d { poly = w },
        rw (filter_ne, e) refl,
        record { poly = j.valid; idmap = h.idmap },
        λ ρ x n. j.models ρ (side ρ x n),
      )
