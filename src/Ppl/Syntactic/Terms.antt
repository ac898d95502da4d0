-- ===== src/Ppl/Syntactic/Terms.antt =====
-- Constraints as lists of terms: the data of the concrete polyhedra library.
use polymalys.Common.{
  ℕ, suc, Bool, true, false, List, [], ◌∷◌, ◌≡◌, refl, ◌≤◌, ◌<◌, All, inl, inr, ◌↔◌, if◌then◌else◌,
  leb, ltb, arith, Bool-cases, ap₂, subst,
}
use polymalys.Common.Int.{ℤ, pos, ◌+ℤ◌, ◌*ℤ◌, ◌≤ℤ◌}
use polymalys.Ppl.{Point}

-- The terms in the order of their addition, newest first, and the inhomogeneous term.

pub record Lin : Type 0 where
  pub terms : List (ℤ × ℕ)
  pub cst : ℤ

pub record Con : Type 0 where
  pub equality : Bool
  pub lin : Lin

pub record Poly : Type 0 where
  pub dimension : ℕ
  pub cons : List Con

abbrev pub terms_value : Point → List (ℤ × ℕ) → ℤ
terms_value x [] = pos 0
terms_value x ((c, d) ∷ t) = terms_value x t +ℤ c *ℤ x d

abbrev pub terms_dimension : List (ℤ × ℕ) → ℕ
terms_dimension [] = 0
terms_dimension ((c, d) ∷ t) = if ltb d (terms_dimension t) then terms_dimension t else suc d

abbrev pub lin_value : Point → Lin → ℤ
lin_value x e = terms_value x e.terms +ℤ e.cst

abbrev pub HoldsType : Bool → ℤ → Type 0
HoldsType true v = v ≡ pos 0
HoldsType false v = pos 0 ≤ℤ v

abbrev pub Holds : Point → Con → Type 0
Holds x c = HoldsType c.equality (lin_value x c.lin)

abbrev pub con_dimension : Con → ℕ
con_dimension c = terms_dimension c.lin.terms

abbrev pub Active : ℕ → Point → List Con → Type 0
Active n x cs = All (λ (c : Con). leb (con_dimension c) n ≡ true → Holds x c) cs

pub terms_value_local :
    (x y : Point) (t : List (ℤ × ℕ)) (n : ℕ)
    → ((d : ℕ) → d < n → x d ≡ y d)
    → terms_dimension t ≤ n
    → terms_value x t ≡ terms_value y t
terms_value_local x y [] n h k = refl
terms_value_local x y ((c, d) ∷ t) n h k =
    ap₂ (λ u v. u +ℤ c *ℤ v) (terms_value_local x y t n h (ground arith)) (h d (ground arith))

pub Holds-local :
    (x y : Point) (c : Con) (n : ℕ)
    → ((d : ℕ) → d < n → x d ≡ y d)
    → con_dimension c ≤ n
    → Holds x c
    → Holds y c
Holds-local x y c n h k p =
    subst (λ v. HoldsType c.equality (v +ℤ c.lin.cst)) (terms_value_local x y c.lin.terms n h k) p

pub Active-local :
    (x y : Point) (cs : List Con) (n : ℕ)
    → ((d : ℕ) → d < n → x d ≡ y d)
    → Active n x cs
    → Active n y cs
Active-local x y [] n h a = tt
Active-local x y (c ∷ cs) n h a =
    (λ f. Holds-local x y c n h (ground arith) (a.0 f), Active-local x y cs n h a.1)

-- the constraints that fit `n` dimensions
unfoldable pub fitting : ℕ → List Con → List Con
fitting n [] = []
fitting n (c ∷ cs) = if leb (con_dimension c) n then c ∷ fitting n cs else fitting n cs

pub Active-fitting :
    (n m : ℕ) (x : Point) (cs : List Con) → n ≤ m → Active m x (fitting n cs) ↔ Active n x cs
unfolding fitting
Active-fitting n m x [] h = (λ _. tt, λ _. tt)
Active-fitting n m x (c ∷ cs) h = elim (Bool-cases (leb (con_dimension c) n)) [
  | inl e ↦ rw e (
    λ a. (λ _. a.0 (ground arith), (Active-fitting n m x cs h).0 a.1),
    λ a. (λ _. a.0 refl, (Active-fitting n m x cs h).1 a.1),
  )
  | inr e ↦ rw e (
    λ a. (λ f. absurd (ground arith), (Active-fitting n m x cs h).0 a),
    λ a. (Active-fitting n m x cs h).1 a.1,
  )
]
