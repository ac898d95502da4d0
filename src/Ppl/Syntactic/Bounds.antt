-- ===== src/Ppl/Syntactic/Bounds.antt =====
-- Bounds and contradictions that single constraints of the concrete polyhedra library state.
use polymalys.Common.{
  Option-cases, some-injective, ℕ, zero, suc, Bool, true, false, Option, none, some, List, [], ◌∷◌,
  ◌≡◌, refl, ◌<◌, inl, inr, if◌then◌else◌, leb, ltb, arith, ap, Bool-cases, sym, subst,
}
use polymalys.Common.Int.{
  mul_laws, ◌-ℤ◌, ℤ, pos, negsuc, ◌+ℤ◌, ◌*ℤ◌, ◌≤ℤ◌, zero-+ℤ, int_laws, one-*ℤ,
}
use polymalys.Ppl.{Point}
-- The terms in the order of their addition, newest first, and the inhomogeneous term.
use polymalys.Ppl.Syntactic.Terms.{
  Lin, Con, Poly, terms_value, terms_dimension, lin_value, HoldsType, Holds, con_dimension, Active,
}
use polymalys.Ppl.Syntactic.Sets.{Con-discrete}

-- a bound that one constraint states: `0 ≤ -v + k`, or `0 ≤ v + k`
unfoldable pub bound_of : ℤ → ℕ → List Con → Option ℤ
bound_of s v [] = none
bound_of s v (c ∷ cs) =
    elim (Con-discrete c
      (record { equality = false; lin = record { terms = (s, v) ∷ []; cst = c.lin.cst } })) [
        | yes _ ↦ some c.lin.cst
        | no _ ↦ bound_of s v cs
      ]

pub Active-bound_of :
    (s : ℤ) (v n : ℕ) (k : ℤ) (x : Point) (cs : List Con)
    → v < n
    → bound_of s v cs ≡ some k
    → Active n x cs
    → pos 0 ≤ℤ s *ℤ x v +ℤ k
unfolding bound_of
Active-bound_of s v n k x [] h e a = cc
Active-bound_of s v n k x (c ∷ cs) h e a =
    elim (Con-discrete c
          (record { equality = false; lin = record { terms = (s, v) ∷ []; cst = c.lin.cst } }))
        as (λ w.
          (elim w [ yes _ ↦ some c.lin.cst | no _ ↦ bound_of s v cs ]) ≡ some k
          → pos 0 ≤ℤ s *ℤ x v +ℤ k) [
            | yes q ↦ λ g.
                subst (λ t. pos 0 ≤ℤ s *ℤ x v +ℤ t) (some-injective c.lin.cst k g)
                  (subst (λ t. pos 0 ≤ℤ t +ℤ c.lin.cst) (zero-+ℤ (s *ℤ x v))
                    (subst (λ w. leb (con_dimension w) n ≡ true → Holds x w) q a.0 (ground arith)))
            | no q ↦ λ g. Active-bound_of s v n k x cs h g a.1
          ]
      e

-- `0 ≤ -(k + 1)`
unfoldable pub is_false : Bool → List (ℤ × ℕ) → ℤ → Bool
is_false false [] (negsuc k) = true
is_false _ _ _ = false

pub is_false_sound :
    (b : Bool) (t : List (ℤ × ℕ)) (k : ℤ) (x : Point)
    → is_false b t k ≡ true
    → (terms_dimension t ≡ 0) × ¬ HoldsType b (terms_value x t +ℤ k)
unfolding is_false
is_false_sound false [] (negsuc k) x e =
    (refl, λ h. subst (λ v. ¬ (pos 0 ≤ℤ v)) (sym (zero-+ℤ (negsuc k))) (λ h. omega arith) h)
is_false_sound false [] (pos k) x e = cc
is_false_sound false (c ∷ t) k x e = cc
is_false_sound true t k x e = cc

unfoldable pub impossible : List Con → Bool
unfolding is_false
impossible [] = false
impossible (c ∷ cs) = if is_false c.equality c.lin.terms c.lin.cst then true else impossible cs

pub impossible_sound : (n : ℕ) (x : Point) (cs : List Con) → impossible cs ≡ true → ¬ Active n x cs
unfolding impossible
impossible_sound n x [] e a = cc
impossible_sound n x (c ∷ cs) e a = elim (Bool-cases (is_false c.equality c.lin.terms c.lin.cst)) [
  | inl f ↦
      let s = is_false_sound c.equality c.lin.terms c.lin.cst x f in
      s.1 (a.0 (rw s.0 (ground arith)))
  | inr f ↦ impossible_sound n x cs (rw (f, impossible) at e) a.1
]

-- the variable of `1 * v`
unfoldable pub variable_of : List (ℤ × ℕ) → Option ℕ
variable_of ((pos (suc zero), v) ∷ []) = some v
variable_of _ = none

pub variable_of_value :
    (t : List (ℤ × ℕ)) (v : ℕ) (x : Point) → variable_of t ≡ some v → terms_value x t ≡ x v
unfolding variable_of
variable_of_value ((pos (suc zero), w) ∷ []) v x e =
    rw (one-*ℤ (x w), zero-+ℤ (x w)) (ap x (some-injective w v e))
variable_of_value [] v x e = cc
variable_of_value ((pos zero, w) ∷ t) v x e = cc
variable_of_value ((pos (suc (suc n)), w) ∷ t) v x e = cc
variable_of_value ((negsuc n, w) ∷ t) v x e = cc
variable_of_value ((pos (suc zero), w) ∷ c ∷ t) v x e = cc

-- the constant of the constraint that bounds the variable of `e`
unfoldable pub stated : ℤ → Poly → Lin → Option ℤ
stated s p e = elim (variable_of e.terms) [
  | none ↦ none
  | some v ↦ if ltb v p.dimension then bound_of s v p.cons else none
]

pub stated_sound :
    (s : ℤ) (p : Poly) (e : Lin) (k : ℤ) (x : Point)
    → stated s p e ≡ some k
    → Active p.dimension x p.cons
    → pos 0 ≤ℤ s *ℤ terms_value x e.terms +ℤ k
unfolding stated
stated_sound s p e k x h a = elim (Option-cases (variable_of e.terms)) [
  | inl q ↦ cc (rw (q, stated) at h)
  | inr (v, q) ↦ elim (Bool-cases (ltb v p.dimension)) [
    | inr f ↦ cc (rw (q, f, stated) at h)
    | inl f ↦
        subst (λ t. pos 0 ≤ℤ s *ℤ t +ℤ k) (sym (variable_of_value e.terms v x q))
          (Active-bound_of s v p.dimension k x p.cons (ground arith) (rw (q, f, stated) at h) a)
  ]
]

unfoldable pub maximum : Poly → Lin → Option (ℤ × ℤ)
maximum p e = elim (stated (negsuc 0) p e) [ none ↦ none | some k ↦ some (k +ℤ e.cst, pos 1) ]

unfoldable pub minimum : Poly → Lin → Option (ℤ × ℤ)
minimum p e = elim (stated (pos 1) p e) [ none ↦ none | some k ↦ some (e.cst -ℤ k, pos 1) ]

pub upper : (v k c : ℤ) → pos 0 ≤ℤ negsuc 0 *ℤ v +ℤ k → v +ℤ c ≤ℤ k +ℤ c
upper v k c h = omega (int_laws, mul_laws)

pub lower : (v k c : ℤ) → pos 0 ≤ℤ pos 1 *ℤ v +ℤ k → c -ℤ k ≤ℤ v +ℤ c
lower v k c h = omega (int_laws, mul_laws)

pub maximum_sound :
    (p : Poly) (e : Lin) (n d : ℤ) (x : Point)
    → maximum p e ≡ some (n, d)
    → Active p.dimension x p.cons
    → (pos 1 ≤ℤ d) × (d *ℤ lin_value x e ≤ℤ n)
unfolding maximum
maximum_sound p e n d x h a = elim (Option-cases (stated (negsuc 0) p e)) [
  | inl q ↦ cc (rw (q, maximum) at h)
  | inr (k, q) ↦
      subst (λ (r : ℤ × ℤ). (pos 1 ≤ℤ r.1) × (r.1 *ℤ lin_value x e ≤ℤ r.0))
        (some-injective (k +ℤ e.cst, pos 1) (n, d) (rw (q, maximum) at h))
        (
          omega arith,
          rw (one-*ℤ (lin_value x e))
              (upper (terms_value x e.terms) k e.cst (stated_sound (negsuc 0) p e k x q a)),
        )
]

pub minimum_sound :
    (p : Poly) (e : Lin) (n d : ℤ) (x : Point)
    → minimum p e ≡ some (n, d)
    → Active p.dimension x p.cons
    → (pos 1 ≤ℤ d) × (n ≤ℤ d *ℤ lin_value x e)
unfolding minimum
minimum_sound p e n d x h a = elim (Option-cases (stated (pos 1) p e)) [
  | inl q ↦ cc (rw (q, minimum) at h)
  | inr (k, q) ↦
      subst (λ (r : ℤ × ℤ). (pos 1 ≤ℤ r.1) × (r.0 ≤ℤ r.1 *ℤ lin_value x e))
        (some-injective (e.cst -ℤ k, pos 1) (n, d) (rw (q, minimum) at h))
        (
          omega arith,
          rw (one-*ℤ (lin_value x e))
              (lower (terms_value x e.terms) k e.cst (stated_sound (pos 1) p e k x q a)),
        )
]
