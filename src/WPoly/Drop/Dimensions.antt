-- ===== src/WPoly/Drop/Dimensions.antt =====
-- The Eliminator of include/PolyWrap.h: it numbers the dimensions that stay without gaps.
use polymalys.Common.{
  ℕ, ◌+◌, ◌-◌, ◌<◌, none, some, List, [], ◌∷◌, ◌≡◌, if◌then◌else◌, ◌==◌, length, All, arith,
}
use polymalys.Common.Count.{occ, below, IsUnique, below_step, below-le, below_bounded}
use polymalys.Ppl.{Ppl, PartialMap}
use polymalys.WPoly.{victims_below, eliminator}

-- What the domain `i < n` of a map of dimensions must satisfy for every point to have an image.
pub record IsRenaming (f : PartialMap) (n : ℕ) : Type 0 where
  pub injective : (i k j : ℕ) → i < n → k < n → f.maps i ≡ some j → f.maps k ≡ some j → i ≡ k
  pub bounded : (i j : ℕ) → i < n → f.maps i ≡ some j → j < f.codomain_size

module _ (P : Ppl) where
  victims_below_lem :
      (vs : List ℕ) (i k : ℕ)
      → victims_below P vs i k ≡ (if occ i vs == 0 then some (k + below i vs) else none)
  unfolding victims_below occ below
  victims_below_lem [] i k = ground arith
  victims_below_lem (v ∷ vs) i k =
      ground (arith, victims_below_lem vs i (k + 1), victims_below_lem vs i k)

  pub eliminator-maps :
      (vs : List ℕ) (p : P.Poly) (i : ℕ)
      → (eliminator P vs p).maps i ≡ (if occ i vs == 0 then some (i - below i vs) else none)
  unfolding eliminator
  eliminator-maps vs p i = ground (arith, victims_below_lem vs i 0)

  -- a dimension that stays is not a victim
  pub eliminator-maps_inv :
      (vs : List ℕ) (p : P.Poly) (i j : ℕ)
      → (eliminator P vs p).maps i ≡ some j
      → (occ i vs ≡ 0) × (j ≡ i - below i vs)
  eliminator-maps_inv vs p i j h = ground (arith, eliminator-maps vs p i)

  module _ (vs : List ℕ) (p : P.Poly) (u : IsUnique vs)
      (b : All (λ v. v < P.space_dimension p) vs) where
    eliminator_mono : (i k : ℕ) → i < k → occ i vs ≡ 0 → i - below i vs < k - below k vs
    eliminator_mono i k l e =
        omega (arith, below_step i k vs u e l, below-le i vs u, below-le k vs u)

    eliminator_bound :
        (i : ℕ)
        → i < P.space_dimension p
        → occ i vs ≡ 0
        → i - below i vs < P.space_dimension p - length vs
    eliminator_bound i l e = omega (
      arith,
      eliminator_mono i (P.space_dimension p) l e,
      below_bounded (P.space_dimension p) vs b,
    )

    pub eliminator-IsRenaming : IsRenaming (eliminator P vs p) (P.space_dimension p)
    unfolding eliminator
    eliminator-IsRenaming = record {
      injective = λ i k j li lk ei ek. ground (
        arith,
        eliminator-maps_inv vs p i j,
        eliminator-maps_inv vs p k j,
        eliminator_mono i k,
        eliminator_mono k i,
      );
      bounded = λ i j l e. ground (arith, eliminator-maps_inv vs p i j e, eliminator_bound i l);
    }
