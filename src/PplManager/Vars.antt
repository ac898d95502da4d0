-- ===== src/PplManager/Vars.antt =====
-- The calls of varNew in the constructor of PPLManager, poly_PPLManager.cpp: the identifiers get the
-- next guids, one after the other.
use mathlib.Core.Option.{none-ne-some}
use polymalys.Common.{
  ap, ◌<◌, Option-cases, inl, inr, All, ◌≢◌, sym, ◌∙◌, true, false, ℕ, suc, none, some, List, [],
  ◌∷◌, ◌≡◌, refl, arith,
}
use polymalys.Ppl.{Ppl}
use polymalys.Ident.{Ident, IdVal, no_step}
use polymalys.Mapping.{add, find1}
use polymalys.Mapping.Inverse.{add-IsMapping}
use polymalys.PplDomain.{PplDomain, var_new, step_fits}
use polymalys.PplDomain.LoopFacts.{IsDomain}
use polymalys.PplManager.{new_vars}

-- No identifier occurs twice.
abbrev pub Distinct : List Ident → Type 0
Distinct [] = Unit
Distinct (i ∷ is) = All (λ j. i ≢ j) is × Distinct is

-- the guids that are given out
abbrev pub count_from : ℕ → List Ident → List ℕ
count_from g [] = []
count_from g (i ∷ is) = g ∷ count_from (suc g) is

abbrev pub count_after : ℕ → List Ident → ℕ
count_after g [] = g
count_after g (i ∷ is) = count_after (suc g) is

All-swap : (i : Ident) (is : List Ident) → All (λ j. i ≢ j) is → All (λ j. j ≢ i) is
All-swap i [] h = tt
All-swap i (j ∷ is) h = (λ e. h.0 (sym e), All-swap i is h.1)

module _ (P : Ppl) where
  abbrev pub Unbound : PplDomain P → Ident → Type 0
  Unbound d i = find1 d.idmap i ≡ none

  module _ (d : PplDomain P) (h : IsDomain P d) (g : ℕ) (i : Ident) where
    bound : PplDomain P
    bound = record d { idmap = add d.idmap i (record { g = g; s = no_step }) }

    bound-IsDomain : IsDomain P bound
    unfolding bound
    bound-IsDomain = record {
      poly = h.poly;
      idmap = (add-IsMapping d.idmap i (record { g = g; s = no_step }) h.idmap).0;
    }

    bound-Unbound : (j : Ident) → i ≢ j → Unbound d j → Unbound bound j
    unfolding bound find1
    bound-Unbound j n u = elim (Option-cases (find1 bound.idmap j)) [
      | inl e ↦ e
      | inr (w, e) ↦
          elim (((add-IsMapping d.idmap i (record { g = g; s = no_step }) h.idmap).1 j w).0 e) [
            | inl (same, q) ↦ absurd (n same)
            | inr (other, (q, k)) ↦ absurd (none-ne-some w (sym u ∙ k))
          ]
    ]

    var_new-bound :
        step_fits P i no_step ≡ true
        → Unbound d i
        → var_new P d g i no_step false ≡ some (g, suc g, bound)
    unfolding var_new bound
    var_new-bound f u = rw (f, u) refl

    bound-kept :
        (j : Ident) (w : IdVal)
        → i ≢ j
        → w.g < g
        → find1 d.idmap j ≡ some w
        → find1 bound.idmap j ≡ some w
    unfolding bound find1
    bound-kept j w n l e =
        let v : IdVal = record { g = g; s = no_step } in
        ((add-IsMapping d.idmap i v h.idmap).1 j w).1
          (inr (n, (λ q. absurd (omega (arith, l, ap IdVal.g q)), e)))

    bound_self : find1 bound.idmap i ≡ some (record { g = g; s = no_step })
    unfolding bound find1
    bound_self =
        let v : IdVal = record { g = g; s = no_step } in
        ((add-IsMapping d.idmap i v h.idmap).1 i v).1 (inl (refl, refl))

  All-Unbound :
      (d : PplDomain P) (h : IsDomain P d) (g : ℕ) (i : Ident) (is : List Ident)
      → All (λ j. i ≢ j) is
      → All (Unbound d) is
      → All (Unbound (bound d h g i)) is
  All-Unbound d h g i [] n u = tt
  All-Unbound d h g i (j ∷ is) n u =
      (bound-Unbound d h g i j n.0 u.0, All-Unbound d h g i is n.1 u.1)

  -- the identifiers are bound to the guids from `g` on
  abbrev pub BindsFrom : PplDomain P → ℕ → List Ident → Type 0
  BindsFrom d g [] = Unit
  BindsFrom d g (i ∷ is) =
      (find1 d.idmap i ≡ some (record { g = g; s = no_step })) × BindsFrom d (suc g) is

  -- new variables take the next guids, keep the older bindings of other identifiers, and leave the
  -- polyhedron as it is
  pub new_vars_lem :
      (is : List Ident) (g : ℕ) (d : PplDomain P)
      → IsDomain P d
      → All (λ i. step_fits P i no_step ≡ true) is
      → Distinct is
      → All (Unbound d) is
      → (d' : PplDomain P) × (new_vars P is g d ≡ some (count_from g is, count_after g is, d'))
        × IsDomain P d'
        × (d'.poly ≡ d.poly)
        × BindsFrom d' g is
        × ((j : Ident) (w : IdVal)
            → All (λ i. i ≢ j) is
            → w.g < g
            → find1 d.idmap j ≡ some w
            → find1 d'.idmap j ≡ some w)
  unfolding new_vars bound
  new_vars_lem [] g d h f n u = (d, refl, h, refl, tt, λ j w o l e. e)
  new_vars_lem (i ∷ is) g d h f n u =
      let (d', e, v, p, b, k) =
        new_vars_lem is (suc g) (bound d h g i) (bound-IsDomain d h g i) f.1 n.1
          (All-Unbound d h g i is n.0 u.1) in
      (
        d',
        ground (arith, e, var_new-bound d h g i f.0 u.0),
        v,
        p,
        (
          k i (record { g = g; s = no_step }) (All-swap i is n.0) (omega arith)
              (bound_self d h g i),
          b,
        ),
        λ j w o l x. k j w o.1 (omega (arith, l)) (bound-kept d h g i j w o.0 l x),
      )
