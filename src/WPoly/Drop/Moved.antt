-- ===== src/WPoly/Drop/Moved.antt =====
-- map_with_dim of include/PolyWrap.h: the adapter and the polyhedron are renumbered together.
use polymalys.Common.{
  ℕ, zero, suc, ◌+◌, ◌≤◌, ◌<◌, Option, none, some, List, [], ◌∷◌, ◌≡◌, refl, if◌then◌else◌, ◌==◌,
  length, All, arith, Option-cases, Bool-cases, inl, inr, ◌∙◌, sym, subst,
}
use polymalys.Common.Int.{pos}
use polymalys.Common.Count.{occ, IsUnique}
use polymalys.Common.StdMap.{StdMap, find, IsMap, find_above}
use polymalys.Linear.Value.{Valuation}
use polymalys.Ppl.{Ppl, Point, PartialMap}
use polymalys.WPoly.Adapter.{IsWPoly, Models}
use polymalys.WPoly.Drop.Dimensions.{IsRenaming}
use polymalys.WPoly.{WPoly, map_adapter_dim, map_with_dim}

-- the dimensions of an adapter
unfoldable pub dims : StdMap ℕ → List ℕ
dims [] = []
dims ((g, d) ∷ m) = d ∷ dims m

-- a dimension of an adapter belongs to a variable
pub dims_owner :
    (d : ℕ) (m : StdMap ℕ) → IsMap m → 1 ≤ occ d (dims m) → (g : ℕ) × (find g m ≡ some d)
unfolding dims occ find
dims_owner d [] h l = absurd (omega arith)
dims_owner d ((g, c) ∷ m) h l = elim (Bool-cases (c == d)) [
  | inl e ↦ (g, ground arith)
  | inr e ↦ let (k, f) = dims_owner d m h.1 (ground arith) in (k, ground (arith, find_above g m))
]

pub occ-dims : (g d : ℕ) (m : StdMap ℕ) → find g m ≡ some d → 1 ≤ occ d (dims m)
unfolding dims occ find
occ-dims g d [] e = absurd (ground (arith, e))
occ-dims g d ((k, c) ∷ m) e = ground (arith, occ-dims g d m)

dims_absent :
    (d : ℕ) (m : StdMap ℕ) → IsMap m → ((g : ℕ) → ¬ (find g m ≡ some d)) → occ d (dims m) ≡ 0
dims_absent d m h n = elim (Bool-cases (occ d (dims m) == 0)) [
  | inl e ↦ ground arith
  | inr e ↦ let (g, f) = dims_owner d m h (ground arith) in absurd (n g f)
]

-- distinct variables have distinct dimensions
abbrev pub Distinct : StdMap ℕ → Type 0
Distinct m = (g h d : ℕ) → find g m ≡ some d → find h m ≡ some d → g ≡ h

module _ (g c : ℕ) (m : StdMap ℕ) (h : IsMap ((g, c) ∷ m)) (i : Distinct ((g, c) ∷ m)) where
  find_later : (k d : ℕ) → find k m ≡ some d → find k ((g, c) ∷ m) ≡ some d
  unfolding find
  find_later k d e = ground (arith, find_above g m)

  Distinct-tail : Distinct m
  Distinct-tail a b d e f = i a b d (find_later a d e) (find_later b d f)

  Distinct-head : (k : ℕ) → ¬ (find k m ≡ some c)
  unfolding find
  Distinct-head k e = ground (arith, i g k c, find_later k c e, find_above g m h.0)

pub dims-IsUnique : (m : StdMap ℕ) → IsMap m → Distinct m → IsUnique (dims m)
unfolding dims occ
dims-IsUnique [] h i d = omega arith
dims-IsUnique ((g, c) ∷ m) h i d = ground (
  arith,
  dims-IsUnique m h.1 (Distinct-tail g c m h i) d,
  dims_absent c m h.1 (Distinct-head g c m h i),
)

-- the new dimension of a variable
abbrev pub image : PartialMap → Option ℕ → Option ℕ
image f none = none
image f (some d) = f.maps d

-- how many variables lose their dimension
unfoldable pub unmapped : PartialMap → StdMap ℕ → ℕ
unmapped f [] = 0
unmapped f ((g, d) ∷ m) = elim (f.maps d) [ none ↦ suc (unmapped f m) | some j ↦ unmapped f m ]

module _ (P : Ppl) (f : PartialMap) where
  All-map_adapter_dim :
      (k : ℕ) (m : StdMap ℕ)
      → All (λ (e : ℕ × ℕ). k < e.0) m
      → All (λ (e : ℕ × ℕ). k < e.0) (map_adapter_dim P f m)
  unfolding map_adapter_dim
  All-map_adapter_dim k [] h = tt
  All-map_adapter_dim k ((g, d) ∷ m) h = ground (arith, All-map_adapter_dim k m)

  pub map_adapter_dim-IsMap : (m : StdMap ℕ) → IsMap m → IsMap (map_adapter_dim P f m)
  unfolding map_adapter_dim
  map_adapter_dim-IsMap [] h = tt
  map_adapter_dim-IsMap ((g, d) ∷ m) h =
      ground (arith, map_adapter_dim-IsMap m, All-map_adapter_dim g m)

  pub find-map_adapter_dim :
      (g : ℕ) (m : StdMap ℕ) → IsMap m → find g (map_adapter_dim P f m) ≡ image f (find g m)
  unfolding map_adapter_dim find
  find-map_adapter_dim g [] h = refl
  find-map_adapter_dim g ((k, d) ∷ m) h = ground (arith, find-map_adapter_dim g m, find_above k m)

  -- where a variable's new dimension comes from
  pub map_adapter_dim_inv :
      (g j : ℕ) (m : StdMap ℕ)
      → IsMap m
      → find g (map_adapter_dim P f m) ≡ some j
      → (i : ℕ) × (find g m ≡ some i) × (f.maps i ≡ some j)
  map_adapter_dim_inv g j m h e = elim (Option-cases (find g m)) [
    | inl o ↦ absurd (ground (arith, find-map_adapter_dim g m h))
    | inr (i, o) ↦ (i, o, ground (arith, find-map_adapter_dim g m h))
  ]

  pub length-map_adapter_dim :
      (m : StdMap ℕ) → length (map_adapter_dim P f m) + unmapped f m ≡ length m
  unfolding map_adapter_dim unmapped
  length-map_adapter_dim [] = omega arith
  length-map_adapter_dim ((g, d) ∷ m) = ground (arith, length-map_adapter_dim m)

-- the coordinate of a point that dimension `j` of its image has
pick : PartialMap → Point → ℕ → Point
pick f x zero j = pos 0
pick f x (suc i) j = elim (f.maps i) [
  | none ↦ pick f x i j
  | some l ↦ if l == j then x i else pick f x i j
]

module _ (f : PartialMap) (x : Point) where
  pick_lem : (k n i j : ℕ) → IsRenaming f n → k ≤ n → i < k → f.maps i ≡ some j → pick f x k j ≡ x i
  unfolding pick
  pick_lem zero n i j r l b e = absurd (omega arith)
  pick_lem (suc k) n i j r l b e = elim (Bool-cases (k == i)) [
    | inl s ↦ let p : k ≡ i = ground arith in subst (λ t. pick f x (suc k) j ≡ x t) p (ground arith)
    | inr s ↦ ground (
      arith,
      pick_lem k n i j r (omega arith) (ground arith) e,
      r.injective i k j (omega arith) (omega arith) e,
    )
  ]

-- the result of map_with_dim, if it does not abort
module _ (P : Ppl) (f : PartialMap) (w : WPoly P) where
  unfoldable pub moved : WPoly P
  moved = record {
    adapter = map_adapter_dim P f w.adapter;
    next = f.codomain_size;
    poly = P.map_space_dimensions w.poly f;
  }

  pub map_with_dim-moved : 0 < P.space_dimension w.poly → map_with_dim P f w ≡ some moved
  unfolding map_with_dim moved
  map_with_dim-moved h = rw (P.map_dimension w.poly f h) (ground arith)

  pub moved-Models :
      IsMap w.adapter
      → ((g d : ℕ) → find g w.adapter ≡ some d → d < P.space_dimension w.poly)
      → IsRenaming f (P.space_dimension w.poly)
      → (ρ : Valuation) → Models P w ρ
      → Models P moved ρ
  unfolding moved
  moved-Models h b r ρ (x, c, a) =
      let n = P.space_dimension w.poly in
      (
        pick f x n,
        P.map_contains w.poly f x (pick f x n) c
            (λ i j l e. pick_lem f x n n i j r (omega arith) l e),
        λ g d e.
            let (i, o, m) = map_adapter_dim_inv P f g d w.adapter h e in
            pick_lem f x n n i d r (omega arith) (b g i o) m ∙ a g i o,
      )

  pub moved-IsWPoly :
      IsMap w.adapter
      → Distinct w.adapter
      → ((g d : ℕ) → find g w.adapter ≡ some d → d < P.space_dimension w.poly)
      → IsRenaming f (P.space_dimension w.poly)
      → 0 < P.space_dimension w.poly
      → length w.adapter ≡ f.codomain_size + unmapped f w.adapter
      → IsWPoly P moved
  unfolding moved
  moved-IsWPoly h i b r some_dim l = record {
    adapter = record {
      ordered = map_adapter_dim-IsMap P f w.adapter h;
      bounded = λ g d e.
          let (c, o, m) = map_adapter_dim_inv P f g d w.adapter h e in r.bounded c d (b g c o) m;
      distinct = λ g k d e e'.
          let (c, o, m) = map_adapter_dim_inv P f g d w.adapter h e in
          let (c', o', m') = map_adapter_dim_inv P f k d w.adapter h e' in
          let same : c ≡ c' = r.injective c c' d (b g c o) (b k c' o') m m' in
          i g k c o (subst (λ t. find k w.adapter ≡ some t) (sym same) o');
      full = omega (arith, length-map_adapter_dim P f w.adapter);
      room = rw (P.map_dimension w.poly f some_dim) (omega arith);
    };
    dimension = P.map_dimension w.poly f some_dim;
  }
