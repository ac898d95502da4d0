-- ===== src/Ppl.antt =====
-- The Parma Polyhedra Library, as far as include/PolyWrap.h calls it. It is not part of the
-- repository, so it enters as a parameter: its types, the methods that are called, and what its
-- manual says of them on points with integer coordinates.
pub mod Syntactic
use polymalys.Common.{
  ℕ, Bool, true, false, Option, none, some, List, ◌≡◌, ◌+◌, ◌*◌, ◌≤◌, ◌<◌, All, ◌⊎◌, ◌↔◌,
  if◌then◌else◌,
}
use polymalys.Common.Int.{ℤ, pos, ◌+ℤ◌, ◌*ℤ◌, ◌≤ℤ◌}

-- A point gives a coordinate to every dimension.
abbrev pub Point : Type 0
Point = ℕ → ℤ

-- The object that `map_space_dimensions` takes: `maps(i, j)`, with what `max_in_codomain` and
-- `has_empty_codomain` say about the range: its size is one above the greatest image, or 0.
pub record PartialMap : Type 0 where
  pub maps : ℕ → Option ℕ
  pub codomain_size : ℕ

pub record Ppl : Type 1 where
  -- Linear_Expression
  pub Linear : Type 0
  pub lin_zero : Linear
  pub lin_add_term : Linear → ℤ → ℕ → Linear
  pub lin_add_cst : Linear → ℤ → Linear
  pub lin_dimension : Linear → ℕ
  pub lin_value : Point → Linear → ℤ
  -- Constraint: `e == 0` and `e >= 0`
  pub Constraint : Type 0
  pub is_zero : Linear → Constraint
  pub is_nonneg : Linear → Constraint
  pub Satisfies : Point → Constraint → Type 0
  pub con_dimension : Constraint → ℕ
  -- C_Polyhedron
  pub Poly : Type 0
  pub empty : Poly
  pub universe : Poly
  pub space_dimension : Poly → ℕ
  pub Contains : Poly → Point → Type 0
  pub is_empty : Poly → Bool
  pub add_space_dimensions_and_embed : Poly → ℕ → Poly
  pub add_constraint : Poly → Constraint → Poly
  pub intersection_assign : Poly → Poly → Poly
  pub poly_hull_assign : Poly → Poly → Poly
  pub map_space_dimensions : Poly → PartialMap → Poly
  -- the answers of `relation_with` that the program asks for
  pub is_included : Poly → Constraint → Bool
  pub is_disjoint : Poly → Constraint → Bool
  -- numerator and denominator of the bound, or `none` where there is none
  pub maximize : Poly → Linear → Option (ℤ × ℤ)
  pub minimize : Poly → Linear → Option (ℤ × ℤ)
  -- linear expressions
  pub lin_zero_value : (x : Point) → lin_value x lin_zero ≡ pos 0
  pub lin_add_term_value :
      (x : Point) (e : Linear) (c : ℤ) (d : ℕ)
      → lin_value x (lin_add_term e c d) ≡ lin_value x e +ℤ c *ℤ x d
  pub lin_add_cst_value :
      (x : Point) (e : Linear) (c : ℤ) → lin_value x (lin_add_cst e c) ≡ lin_value x e +ℤ c
  pub lin_zero_dimension : lin_dimension lin_zero ≡ 0
  pub lin_add_term_dimension :
      (e : Linear) (c : ℤ) (d n : ℕ)
      → lin_dimension e ≤ n
      → d < n
      → lin_dimension (lin_add_term e c d) ≤ n
  pub lin_add_cst_dimension :
      (e : Linear) (c : ℤ) → lin_dimension (lin_add_cst e c) ≡ lin_dimension e
  -- constraints
  pub is_zero_iff : (x : Point) (e : Linear) → Satisfies x (is_zero e) ↔ (lin_value x e ≡ pos 0)
  pub is_nonneg_iff :
      (x : Point) (e : Linear) → Satisfies x (is_nonneg e) ↔ (pos 0 ≤ℤ lin_value x e)
  pub is_zero_dimension : (e : Linear) → con_dimension (is_zero e) ≡ lin_dimension e
  pub is_nonneg_dimension : (e : Linear) → con_dimension (is_nonneg e) ≡ lin_dimension e
  -- polyhedra
  pub Contains_local :
      (p : Poly) (x y : Point)
      → ((d : ℕ) → d < space_dimension p → x d ≡ y d)
      → Contains p x
      → Contains p y
  pub universe_contains : (x : Point) → Contains universe x
  pub empty_contains : (x : Point) → ¬ Contains empty x
  pub universe_dimension : space_dimension universe ≡ 0
  pub empty_dimension : space_dimension empty ≡ 0
  pub is_empty_sound : (p : Poly) (x : Point) → is_empty p ≡ true → ¬ Contains p x
  pub embed_contains :
      (p : Poly) (n : ℕ) (x : Point)
      → Contains (add_space_dimensions_and_embed p n) x ↔ Contains p x
  pub embed_dimension :
      (p : Poly) (n : ℕ)
      → space_dimension (add_space_dimensions_and_embed p n) ≡ space_dimension p + n
  pub add_constraint_contains :
      (p : Poly) (c : Constraint) (x : Point)
      → con_dimension c ≤ space_dimension p
      → Contains (add_constraint p c) x ↔ (Contains p x × Satisfies x c)
  pub add_constraint_dimension :
      (p : Poly) (c : Constraint) → space_dimension (add_constraint p c) ≡ space_dimension p
  pub hull_contains :
      (p q : Poly) (x : Point)
      → space_dimension p ≡ space_dimension q
      → Contains p x ⊎ Contains q x
      → Contains (poly_hull_assign p q) x
  pub hull_dimension :
      (p q : Poly)
      → space_dimension p ≡ space_dimension q
      → space_dimension (poly_hull_assign p q) ≡ space_dimension p
  pub intersection_dimension :
      (p q : Poly)
      → space_dimension p ≡ space_dimension q
      → space_dimension (intersection_assign p q) ≡ space_dimension p
  pub intersection_contains :
      (p q : Poly) (x : Point)
      → space_dimension p ≡ space_dimension q
      → Contains (intersection_assign p q) x ↔ (Contains p x × Contains q x)
  pub map_contains :
      (p : Poly) (f : PartialMap) (x y : Point)
      → Contains p x
      → ((i j : ℕ) → i < space_dimension p → f.maps i ≡ some j → y j ≡ x i)
      → Contains (map_space_dimensions p f) y
  -- a map of all dimensions loses no constraint
  pub map_contains_back :
      (p : Poly) (f : PartialMap) (x y : Point)
      → ((i : ℕ)
          → i < space_dimension p
          → (j : ℕ) × (f.maps i ≡ some j) × (j < f.codomain_size) × (y j ≡ x i))
      → Contains (map_space_dimensions p f) y
      → Contains p x
  pub map_dimension :
      (p : Poly) (f : PartialMap)
      → 0 < space_dimension p
      → space_dimension (map_space_dimensions p f) ≡ f.codomain_size
  pub is_included_sound :
      (p : Poly) (c : Constraint) (x : Point)
      → is_included p c ≡ true
      → Contains p x
      → Satisfies x c
  pub is_disjoint_sound :
      (p : Poly) (c : Constraint) (x : Point)
      → is_disjoint p c ≡ true
      → Contains p x
      → ¬ Satisfies x c
  pub maximize_sound :
      (p : Poly) (e : Linear) (n d : ℤ) (x : Point)
      → maximize p e ≡ some (n, d)
      → Contains p x
      → (pos 1 ≤ℤ d) × (d *ℤ lin_value x e ≤ℤ n)
  pub minimize_sound :
      (p : Poly) (e : Linear) (n d : ℤ) (x : Point)
      → minimize p e ≡ some (n, d)
      → Contains p x
      → (pos 1 ≤ℤ d) × (n ≤ℤ d *ℤ lin_value x e)
