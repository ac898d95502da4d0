-- ===== src/LoopAnalyzer/Stored.antt =====
-- What computeLinearBound stores for a loop.
use polymalys.Common.{ℕ, false, some, ◌≡◌, ◌≢◌, ◌⊎◌}
use polymalys.Common.Int.{ℤ, pos, ◌*ℤ◌, ◌≤ℤ◌}
use polymalys.Common.StdMap.{StdMap, find}
use polymalys.Linear.{WCons, cons_eq}
use polymalys.Linear.Value.{Valuation, IsExpr}
use polymalys.Linear.Compare.{Sat}
use polymalys.MyHTable.{HashKey, MyHTable}
use polymalys.LoopAnalyzer.{Text}
use polymalys.LoopAnalyzer.Reader.{start, read}
use polymalys.LoopAnalyzer.Written.{Linked, IsNonzero}

-- what is asked of the constraints of a projected polyhedron: sorted terms, none of them zero
abbrev pub IsWritable : WCons → Type 0
IsWritable c = IsExpr c.expr × IsNonzero c.expr.coefs

-- The constraint bounds v0 from above: it is an equality, or the coefficient of v0 is not positive.
abbrev pub IsUpper : WCons → Type 0
IsUpper c = (c.ctype ≡ cons_eq) ⊎ ((d : ℤ) → find 0 c.expr.coefs ≡ some d → d ≤ℤ pos 0)

module _ ⦃key : HashKey ℕ⦄ (mapping : MyHTable ℕ ℤ) (ρ : Valuation) (σ : ℤ → ℤ)
    (link : Linked mapping ρ σ) where
  -- A text reads as a quotient of n and k that is at least the number v0 of iterations: either k is
  -- positive and k * v0 is at most n, or k is not 0 and k * v0 is n.
  abbrev pub IsBoundText : Text → Type 0
  IsBoundText text =
      (n : ℤ) × (k : ℤ) × (read σ false start (pos 0) text ≡ some (n, k))
      × (((pos 1 ≤ℤ k) × (k *ℤ ρ 0 ≤ℤ n)) ⊎ ((k ≢ pos 0) × (k *ℤ ρ 0 ≡ n)))

  abbrev Good : WCons → Type 0
  Good c = IsWritable c × (Sat ρ c × IsUpper c)
