-- ===== src/Ppl/Syntactic.antt =====
-- A small concrete polyhedra library that meets the assumptions of `Ppl`: a polyhedron is its list
-- of constraints, and what cannot be read off that list is answered by "unknown". The tests run on it.
mod Terms
pub mod Sets
mod Bounds
use polymalys.Common.{
  ℕ_discrete, Option-cases, some-injective, ℕ, zero, suc, Bool, true, false, Option, none, some,
  List, [], ◌∷◌, ◌++◌, ◌≡◌, refl, ◌+◌, ◌*◌, ◌≤◌, ◌<◌, All, ◌⊎◌, inl, inr, ◌↔◌, if◌then◌else◌, ◌&&◌,
  ◌||◌, leb, ltb, ◌==◌, not, arith, ap, Bool-cases, ap₂, sym, ◌∙◌, subst,
}
use polymalys.Common.Int.{
  mul_laws, ◌-ℤ◌, ℤ, pos, negsuc, ◌+ℤ◌, ◌*ℤ◌, ◌≤ℤ◌, leb_ℤ, eqb_ℤ, neg_ℤ, +ℤ-zero, zero-+ℤ, int_laws,
  ℤ_discrete, eqb_ℤ_iff, *ℤ_comm, +ℤ_assoc, +ℤ_comm, one-*ℤ,
}
use polymalys.Ppl.{Point, PartialMap, Ppl}
-- The terms in the order of their addition, newest first, and the inhomogeneous term.
use polymalys.Ppl.Syntactic.Terms.{
  Lin, Con, Poly, terms_value, terms_dimension, lin_value, HoldsType, Holds, con_dimension, Active,
  terms_value_local, Holds-local, Active-local, fitting, Active-fitting,
}
use polymalys.Ppl.Syntactic.Sets.{
  Con-discrete, member, Active-member, common, Active-common, Active-append, rename, renamed,
  rename_value, Active-renamed, Active-renamed_back,
}
use polymalys.Ppl.Syntactic.Bounds.{
  bound_of, Active-bound_of, is_false, is_false_sound, impossible, impossible_sound, variable_of,
  variable_of_value, stated, stated_sound, maximum, minimum, upper, lower, maximum_sound,
  minimum_sound,
}

unfoldable pub contradiction : Con
contradiction = record { equality = false; lin = record { terms = []; cst = negsuc 0 } }

unfoldable pub hull : Poly → Poly → Poly
hull p q = record { dimension = p.dimension; cons = common p.cons q.cons }

unfoldable pub project : Poly → PartialMap → Poly
project p f = record { dimension = f.codomain_size; cons = renamed p.dimension f.maps p.cons }

unfoldable pub included : Poly → Con → Bool
included p c = leb (con_dimension c) p.dimension && member c p.cons

pub included_sound :
    (p : Poly) (c : Con) (x : Point) → included p c ≡ true → Active p.dimension x p.cons → Holds x c
unfolding included
included_sound p c x e a = Active-member p.dimension x c p.cons (ground arith) a (ground arith)

pub Active-add :
    (n : ℕ) (x : Point) (c : Con) (cs : List Con)
    → con_dimension c ≤ n
    → Active n x (c ∷ cs) ↔ (Active n x cs × Holds x c)
Active-add n x c cs h = (λ a. (a.1, a.0 (ground arith)), λ a. (λ _. a.1, a.0))

pub empty_sound : (x : Point) → ¬ Active 0 x (contradiction ∷ [])
unfolding contradiction
empty_sound x a = absurd (omega (int_laws, a.0 refl))

pub term_dimension :
    (t : List (ℤ × ℕ)) (c : ℤ) (d n : ℕ)
    → terms_dimension t ≤ n
    → d < n
    → terms_dimension ((c, d) ∷ t) ≤ n
term_dimension t c d n h k = ground arith

pub swap_cst : (v c t : ℤ) → v +ℤ t +ℤ c ≡ v +ℤ c +ℤ t
swap_cst v c t = omega int_laws

pub program : Unit {0}
unfolding fitting member common rename renamed bound_of variable_of stated maximum minimum is_false
    impossible contradiction hull project included
program = tt

unfoldable pub syntactic : Ppl
unfolding program
syntactic = record {
  Linear = Lin;
  lin_zero = record { terms = []; cst = pos 0 };
  lin_add_term = λ e c d. record e { terms = (c, d) ∷ e.terms };
  lin_add_cst = λ e c. record e { cst = e.cst +ℤ c };
  lin_dimension = λ e. terms_dimension e.terms;
  lin_value = lin_value;
  Constraint = Con;
  is_zero = λ e. record { equality = true; lin = e };
  is_nonneg = λ e. record { equality = false; lin = e };
  Satisfies = Holds;
  con_dimension = con_dimension;
  Poly = Poly;
  empty = record { dimension = 0; cons = contradiction ∷ [] };
  universe = record { dimension = 0; cons = [] };
  space_dimension = λ p. p.dimension;
  Contains = λ p x. Active p.dimension x p.cons;
  is_empty = λ p. impossible p.cons;
  add_space_dimensions_and_embed =
      λ p n. record { dimension = p.dimension + n; cons = fitting p.dimension p.cons };
  add_constraint = λ p c. record p { cons = c ∷ p.cons };
  intersection_assign = λ p q. record p { cons = p.cons ++ q.cons };
  poly_hull_assign = hull;
  map_space_dimensions = project;
  is_included = included;
  is_disjoint = λ p c. false;
  maximize = maximum;
  minimize = minimum;
  lin_zero_value = λ x. zero-+ℤ (pos 0);
  lin_add_term_value = λ x e c d. swap_cst (terms_value x e.terms) e.cst (c *ℤ x d);
  lin_add_cst_value = λ x e c. sym (+ℤ_assoc (terms_value x e.terms) e.cst c);
  lin_zero_dimension = refl;
  lin_add_term_dimension = λ e c d n h k. term_dimension e.terms c d n h k;
  lin_add_cst_dimension = λ e c. refl;
  is_zero_iff = λ x e. (λ h. h, λ h. h);
  is_nonneg_iff = λ x e. (λ h. h, λ h. h);
  is_zero_dimension = λ e. refl;
  is_nonneg_dimension = λ e. refl;
  Contains_local = λ p x y h a. Active-local x y p.cons p.dimension h a;
  universe_contains = λ x. tt;
  empty_contains = empty_sound;
  universe_dimension = refl;
  empty_dimension = refl;
  is_empty_sound = λ p x e. impossible_sound p.dimension x p.cons e;
  embed_contains = λ p n x. Active-fitting p.dimension (p.dimension + n) x p.cons (omega arith);
  embed_dimension = λ p n. refl;
  add_constraint_contains = λ p c x h. Active-add p.dimension x c p.cons h;
  add_constraint_dimension = λ p c. refl;
  hull_contains = λ p q x e h.
      Active-common p.dimension x p.cons q.cons
        (elim h [ inl a ↦ inl a | inr a ↦ inr (subst (λ n. Active n x q.cons) (sym e) a) ]);
  hull_dimension = λ p q e. refl;
  intersection_dimension = λ p q e. refl;
  intersection_contains = λ p q x e.
      let split = Active-append p.dimension x p.cons q.cons in
      (
        λ a. ((split.0 a).0, subst (λ n. Active n x q.cons) e (split.0 a).1),
        λ a. split.1 (a.0, subst (λ n. Active n x q.cons) (sym e) a.1),
      );
  map_contains = λ p f x y a h. Active-renamed f.maps p.dimension f.codomain_size x y h p.cons a;
  map_contains_back =
      λ p f x y h a. Active-renamed_back f.maps p.dimension f.codomain_size x y h p.cons a;
  map_dimension = λ p f h. refl;
  is_included_sound = included_sound;
  is_disjoint_sound = λ p c x e a. cc;
  maximize_sound = maximum_sound;
  minimize_sound = minimum_sound;
}
