-- ===== src/Tests/Numbers.antt =====
-- Linear expressions and the Euclidean algorithm on small inputs.
use polymalys.Common.{[], ◌∷◌, some, ◌≡◌, ◌≢◌, arith}
use polymalys.Common.Int.{ℤ, pos, negsuc}
use polymalys.Linear.{WLinExpr}
use polymalys.Linear.Value.{Valuation}
use polymalys.Linear.Compare.{Comparisons, Sat-Comparisons}
use polymalys.Euclid.{euclid}
use polymalys.Euclid.Correct.{IsEuclid, euclid-IsEuclid}

-- 2 v1 - v3 + 5, and v3 + 1
abbrev mixed : WLinExpr
mixed = record { coefs = (1, pos 2) ∷ (3, negsuc 0) ∷ []; cst = pos 5 }

abbrev shifted : WLinExpr
shifted = record { coefs = (3, pos 1) ∷ []; cst = pos 1 }

abbrev sevens : Valuation
sevens g = pos 7

Sat-Comparisons_example : Comparisons sevens mixed shifted
Sat-Comparisons_example =
    Sat-Comparisons sevens mixed shifted ((omega arith, tt), (tt, tt)) (tt, tt)

euclid-IsEuclid_example :
    (g : ℤ) × (inverse : ℤ) × (euclid (pos 12) (pos 8) ≡ some (g, inverse))
    × IsEuclid (pos 12) (pos 8) g inverse
euclid-IsEuclid_example = euclid-IsEuclid (pos 12) (pos 8) twelve
  where
    twelve : pos 12 ≢ pos 0
    twelve e = ground (arith, e)
