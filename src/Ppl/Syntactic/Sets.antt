-- ===== src/Ppl/Syntactic/Sets.antt =====
-- Sets of constraints of the concrete polyhedra library: membership, common part, renaming.
use polymalys.Common.{
  ℕ_discrete, Option-cases, some-injective, ℕ, Bool, true, false, Option, none, some, List, [], ◌∷◌,
  ◌++◌, ◌≡◌, ◌≤◌, ◌<◌, ◌⊎◌, inl, inr, ◌↔◌, if◌then◌else◌, leb, arith, Bool-cases, ap₂, sym, subst,
  refl,
}
use polymalys.Common.Int.{ℤ, ◌+ℤ◌, ◌*ℤ◌, ℤ_discrete}
use polymalys.Ppl.{Point}
-- The terms in the order of their addition, newest first, and the inhomogeneous term.
use polymalys.Ppl.Syntactic.Terms.{
  Con, terms_value, terms_dimension, HoldsType, Holds, con_dimension, Active,
}

unfoldable pub Con-discrete : Discrete Con
Con-discrete = hlevel (ℕ_discrete, ℤ_discrete)

unfoldable pub member : Con → List Con → Bool
member c [] = false
member c (d ∷ cs) = elim (Con-discrete c d) [ yes _ ↦ true | no _ ↦ member c cs ]

pub Active-member :
    (n : ℕ) (x : Point) (c : Con) (cs : List Con)
    → member c cs ≡ true
    → Active n x cs
    → leb (con_dimension c) n ≡ true
    → Holds x c
unfolding member
Active-member n x c [] e a f = cc
Active-member n x c (d ∷ cs) e a f =
    elim (Con-discrete c d)
        as (λ w. (elim w [ yes _ ↦ true | no _ ↦ member c cs ]) ≡ true → Holds x c) [
          | yes q ↦
              λ _. subst (Holds x) (sym q) (a.0 (subst (λ w. leb (con_dimension w) n ≡ true) q f))
          | no q ↦ λ g. Active-member n x c cs g a.1 f
        ]
      e

-- the constraints of the first list that the second has too
unfoldable pub common : List Con → List Con → List Con
common [] ds = []
common (c ∷ cs) ds = if member c ds then c ∷ common cs ds else common cs ds

pub Active-common :
    (n : ℕ) (x : Point) (cs ds : List Con)
    → Active n x cs ⊎ Active n x ds
    → Active n x (common cs ds)
unfolding common
Active-common n x [] ds h = tt
Active-common n x (c ∷ cs) ds h = elim (Bool-cases (member c ds)) [
  | inl e ↦ rw e (elim h [
    | inl a ↦ (a.0, Active-common n x cs ds (inl a.1))
    | inr a ↦ (Active-member n x c ds e a, Active-common n x cs ds (inr a))
  ])
  | inr e ↦ rw e (Active-common n x cs ds (elim h [ inl a ↦ inl a.1 | inr a ↦ inr a ]))
]

pub Active-append :
    (n : ℕ) (x : Point) (cs ds : List Con) → Active n x (cs ++ ds) ↔ (Active n x cs × Active n x ds)
Active-append n x [] ds = (λ a. (tt, a), λ a. a.1)
Active-append n x (c ∷ cs) ds =
    let ih = Active-append n x cs ds in
    (λ a. ((a.0, (ih.0 a.1).0), (ih.0 a.1).1), λ a. (a.0.0, ih.1 (a.0.1, a.1)))

unfoldable pub rename : (ℕ → Option ℕ) → List (ℤ × ℕ) → Option (List (ℤ × ℕ))
rename f [] = some []
rename f ((c, d) ∷ t) = elim (f d) [
  | none ↦ none
  | some j ↦ elim (rename f t) [ none ↦ none | some u ↦ some ((c, j) ∷ u) ]
]

unfoldable pub renamed : ℕ → (ℕ → Option ℕ) → List Con → List Con
unfolding rename
renamed n f [] = []
renamed n f (c ∷ cs) = elim (rename f c.lin.terms) [
  | none ↦ renamed n f cs
  | some t ↦
      if leb (con_dimension c) n
      then record { equality = c.equality; lin = record { terms = t; cst = c.lin.cst } }
        ∷ renamed n f cs
      else renamed n f cs
]

pub rename_value :
    (f : ℕ → Option ℕ) (n : ℕ) (x y : Point)
    → ((i j : ℕ) → i < n → f i ≡ some j → y j ≡ x i)
    → (t u : List (ℤ × ℕ)) → terms_dimension t ≤ n
    → rename f t ≡ some u
    → terms_value y u ≡ terms_value x t
unfolding rename
rename_value f n x y h [] u k e = ground arith
rename_value f n x y h ((c, d) ∷ t) u k e = elim (Option-cases (f d)) [
  | inl q ↦ cc (rw (q, rename) at e)
  | inr (j, q) ↦ elim (Option-cases (rename f t)) [
    | inl r ↦ cc (rw (q, r, rename) at e)
    | inr (v, r) ↦
        subst (λ w. terms_value y w ≡ terms_value x ((c, d) ∷ t))
          (some-injective ((c, j) ∷ v) u (rw (q, r, rename) at e))
          (ap₂ (λ s z. s +ℤ c *ℤ z) (rename_value f n x y h t v (ground arith) r)
            (h d j (ground arith) q))
  ]
]

pub Active-renamed :
    (f : ℕ → Option ℕ) (n m : ℕ) (x y : Point)
    → ((i j : ℕ) → i < n → f i ≡ some j → y j ≡ x i)
    → (cs : List Con) → Active n x cs
    → Active m y (renamed n f cs)
unfolding renamed
Active-renamed f n m x y h [] a = tt
Active-renamed f n m x y h (c ∷ cs) a =
    let rest = Active-renamed f n m x y h cs a.1 in
    elim (Option-cases (rename f c.lin.terms)) [
      | inl e ↦ rw (e, renamed) rest
      | inr (t, e) ↦ elim (Bool-cases (leb (con_dimension c) n)) [
        | inr k ↦ rw (e, k, renamed) rest
        | inl k ↦
            rw (e, k, renamed)
              (
                λ _.
                    subst (λ v. HoldsType c.equality (v +ℤ c.lin.cst))
                      (sym (rename_value f n x y h c.lin.terms t (ground arith) e)) (a.0 k),
                rest,
              )
      ]
    ]

abbrev pub Total : (ℕ → Option ℕ) → ℕ → ℕ → Point → Point → Type 0
Total f n m x y = (i : ℕ) → i < n → (j : ℕ) × (f i ≡ some j) × (j < m) × (y j ≡ x i)

rename-Total :
    (f : ℕ → Option ℕ) (n m : ℕ) (x y : Point)
    → Total f n m x y
    → (t : List (ℤ × ℕ)) → terms_dimension t ≤ n
    → (u : List (ℤ × ℕ)) × (rename f t ≡ some u)
      × (terms_dimension u ≤ m)
      × (terms_value y u ≡ terms_value x t)
unfolding rename
rename-Total f n m x y h [] k = ([], refl, omega arith, refl)
rename-Total f n m x y h ((c, d) ∷ t) k =
    let (j, e, l, q) = h d (ground arith) in
    let (u, r, b, v) = rename-Total f n m x y h t (ground arith) in
    ((c, j) ∷ u, rw (e, r, rename) refl, ground (arith, b, l), ap₂ (λ s z. s +ℤ c *ℤ z) v q)

pub Active-renamed_back :
    (f : ℕ → Option ℕ) (n m : ℕ) (x y : Point)
    → Total f n m x y
    → (cs : List Con) → Active m y (renamed n f cs)
    → Active n x cs
unfolding renamed
Active-renamed_back f n m x y h [] a = tt
Active-renamed_back f n m x y h (c ∷ cs) a = elim (Bool-cases (leb (con_dimension c) n)) [
  | inl k ↦
      let (t, e, b, v) = rename-Total f n m x y h c.lin.terms (ground (arith, k)) in
      let a' = rw (e, k, renamed) at a in
      (
        λ _. subst (λ w. HoldsType c.equality (w +ℤ c.lin.cst)) v (a'.0 (ground (arith, b))),
        Active-renamed_back f n m x y h cs a'.1,
      )
  | inr k ↦ (
    λ q. cc,
    Active-renamed_back f n m x y h cs (elim (Option-cases (rename f c.lin.terms)) [
      | inl e ↦ rw (e, renamed) at a
      | inr (t, e) ↦ rw (e, k, renamed) at a
    ]),
  )
]
