-- ===== src/Linear/Value.antt =====
-- What a linear expression is worth when its variables have values, and that the operators of
-- poly_PolyWrap.cpp compute sums and products of these values.
use polymalys.Common.{
  ℕ, false, [], ◌∷◌, if◌then◌else◌, none, some, ◌≡◌, refl, arith, ◌<◌, All, ap, sym, ◌∙◌,
}
use polymalys.Common.Int.{
  ℤ, pos, negsuc, ◌+ℤ◌, ◌-ℤ◌, ◌*ℤ◌, eqb_ℤ_iff, +ℤ_assoc, +ℤ_comm, +ℤ_interchange, +ℤ-zero, zero-+ℤ,
  +ℤ-*ℤ, *ℤ_assoc, *ℤ_comm, *ℤ-zero, zero-*ℤ, minus_one-*ℤ, int_laws,
}
use polymalys.Common.StdMap.{
  StdMap, find, put, has, IsMap, find-put, put-IsMap, find_above, find-has,
}
use polymalys.Linear.{WLinExpr, add_left, add_right, plus_other, scale, ◌+ₗ◌, ◌*ₗ◌, ◌-ₗ◌}

-- A value for every variable.
abbrev pub Valuation : Type 0
Valuation = ℕ → ℤ

unfoldable pub sum_coefs : Valuation → StdMap ℤ → ℤ
sum_coefs ρ [] = pos 0
sum_coefs ρ ((g, c) ∷ m) = c *ℤ ρ g +ℤ sum_coefs ρ m

unfoldable pub value : Valuation → WLinExpr → ℤ
unfolding sum_coefs
value ρ e = sum_coefs ρ e.coefs +ℤ e.cst

abbrev pub IsExpr : WLinExpr → Type 0
IsExpr e = IsMap e.coefs

-- The keys of `m` are not in `res`.
abbrev Fresh : StdMap ℤ → StdMap ℤ → Type 0
Fresh res m = All (λ (e : ℕ × ℤ). find e.0 res ≡ none) m

Fresh-put :
    (k : ℕ) (v : ℤ) (res m : StdMap ℤ)
    → All (λ (e : ℕ × ℤ). k < e.0) m
    → Fresh res m
    → Fresh (put k v res) m
Fresh-put k v res [] above f = tt
Fresh-put k v res ((j, w) ∷ m) above f =
    (ground (arith, find-put k j v res), Fresh-put k v res m above.1 f.1)

-- The keys of `b` that `a` lacks are not in `res`.
abbrev Unseen : StdMap ℤ → StdMap ℤ → StdMap ℤ → Type 0
Unseen a res b = All (λ (e : ℕ × ℤ). has e.0 a ≡ false → find e.0 res ≡ none) b

Unseen-put :
    (a : StdMap ℤ) (k : ℕ) (v : ℤ) (res b : StdMap ℤ)
    → All (λ (e : ℕ × ℤ). k < e.0) b
    → Unseen a res b
    → Unseen a (put k v res) b
Unseen-put a k v res [] above f = tt
Unseen-put a k v res ((j, w) ∷ b) above f =
    (λ e. ground (arith, f.0 e, find-put k j v res), Unseen-put a k v res b above.1 f.1)

left_comm : (a b c : ℤ) → a +ℤ (b +ℤ c) ≡ b +ℤ (a +ℤ c)
left_comm a b c = omega int_laws

regroup : (x o p r : ℤ) → (x +ℤ o) +ℤ p +ℤ r ≡ x +ℤ (p +ℤ (r +ℤ o))
regroup x o p r = omega int_laws

swap_last : (a b c : ℤ) → a *ℤ b *ℤ c ≡ a *ℤ c *ℤ b
swap_last a b c = *ℤ_assoc a b c ∙ ap (◌*ℤ◌ a) (*ℤ_comm b c) ∙ sym (*ℤ_assoc a c b)

shift : (x r s : ℤ) → (x +ℤ r) +ℤ s ≡ r +ℤ (x +ℤ s)
shift x r s = omega int_laws

module _ (ρ : Valuation) where
  sum_coefs-put :
      (k : ℕ) (v : ℤ) (m : StdMap ℤ)
      → find k m ≡ none
      → sum_coefs ρ (put k v m) ≡ v *ℤ ρ k +ℤ sum_coefs ρ m
  unfolding sum_coefs put find
  sum_coefs-put k v [] h = refl
  sum_coefs-put k v ((j, w) ∷ m) h =
      ground (arith, sum_coefs-put k v m, left_comm (v *ℤ ρ k) (w *ℤ ρ j) (sum_coefs ρ m))

  -- the sum of the first loop over `a`
  sum_plus : StdMap ℤ → StdMap ℤ → ℤ
  sum_plus b [] = pos 0
  sum_plus b ((g, c) ∷ a) = plus_other b g c *ℤ ρ g +ℤ sum_plus b a

  -- the sum of the second loop over `b`
  sum_rest : StdMap ℤ → StdMap ℤ → ℤ
  sum_rest a [] = pos 0
  sum_rest a ((g, c) ∷ b) = (if has g a then pos 0 else c *ℤ ρ g) +ℤ sum_rest a b

  sum_coefs-add_left :
      (b a res : StdMap ℤ)
      → IsMap a
      → Fresh res a
      → sum_coefs ρ (add_left b a res) ≡ sum_coefs ρ res +ℤ sum_plus b a
  unfolding add_left sum_plus
  sum_coefs-add_left b [] res h f = sym (+ℤ-zero _)
  sum_coefs-add_left b ((g, c) ∷ a) res h f = ground (
    arith,
    eqb_ℤ_iff (plus_other b g c) (pos 0),
    zero-*ℤ (ρ g),
    zero-+ℤ (sum_plus b a),
    sum_coefs-add_left b a res h.1 f.1,
    sum_coefs-add_left b a (put g (plus_other b g c) res) h.1
        (Fresh-put g (plus_other b g c) res a h.0 f.1),
    sum_coefs-put g (plus_other b g c) res f.0,
    shift (plus_other b g c *ℤ ρ g) (sum_coefs ρ res) (sum_plus b a),
  )

  sum_coefs-add_right :
      (a b res : StdMap ℤ)
      → IsMap b
      → Unseen a res b
      → sum_coefs ρ (add_right a b res) ≡ sum_coefs ρ res +ℤ sum_rest a b
  unfolding add_right sum_rest
  sum_coefs-add_right a [] res h f = sym (+ℤ-zero _)
  sum_coefs-add_right a ((g, c) ∷ b) res h f = ground (
    arith,
    zero-+ℤ (sum_rest a b),
    sum_coefs-add_right a b res h.1 f.1,
    sum_coefs-add_right a b (put g c res) h.1 (Unseen-put a g c res b h.0 f.1),
    sum_coefs-put g c res,
    f.0,
    shift (c *ℤ ρ g) (sum_coefs ρ res) (sum_rest a b),
  )

  other : StdMap ℤ → ℕ → ℤ
  other b g = elim (find g b) [ some d ↦ d | none ↦ pos 0 ]

  sum_rest-cons :
      (a b : StdMap ℤ) (g : ℕ) (c : ℤ)
      → IsMap b
      → find g a ≡ none
      → sum_rest ((g, c) ∷ a) b +ℤ other b g *ℤ ρ g ≡ sum_rest a b
  unfolding sum_rest has find other
  sum_rest-cons a [] g c h f = rw (zero-*ℤ (ρ g)) (omega int_laws)
  sum_rest-cons a ((j, d) ∷ b) g c h f = ground (
    arith,
    sum_rest-cons a b g c h.1 f,
    find_above j b h.0,
    find-has g a f,
    zero-+ℤ (sum_rest ((g, c) ∷ a) b),
    zero-*ℤ (ρ g),
    +ℤ-zero (sum_rest ((g, c) ∷ a) b),
    +ℤ_comm (sum_rest a b) (d *ℤ ρ g),
    +ℤ_assoc (if has j a then pos 0 else d *ℤ ρ j) (sum_rest ((g, c) ∷ a) b) (other b g *ℤ ρ g),
  )

  plus_other-*ℤ :
      (b : StdMap ℤ) (g : ℕ) (c : ℤ) → plus_other b g c *ℤ ρ g ≡ c *ℤ ρ g +ℤ other b g *ℤ ρ g
  unfolding plus_other other
  plus_other-*ℤ b g c = ground (arith, +ℤ-zero (c *ℤ ρ g), zero-*ℤ (ρ g), +ℤ-*ℤ c (other b g) (ρ g))

  sum_rest_nil : (b : StdMap ℤ) → sum_rest [] b ≡ sum_coefs ρ b
  unfolding sum_rest sum_coefs has
  sum_rest_nil [] = refl
  sum_rest_nil ((g, c) ∷ b) = rw (sum_rest_nil b)

  sum_plus-sum_rest :
      (a b : StdMap ℤ)
      → IsMap a
      → IsMap b
      → sum_plus b a +ℤ sum_rest a b ≡ sum_coefs ρ a +ℤ sum_coefs ρ b
  unfolding sum_plus sum_coefs
  sum_plus-sum_rest [] b h k = rw (sum_rest_nil b)
  sum_plus-sum_rest ((g, c) ∷ a) b h k = ground (
    arith,
    plus_other-*ℤ b g c,
    sum_plus-sum_rest a b h.1 k,
    sum_rest-cons a b g c k (find_above g a h.0),
    regroup (c *ℤ ρ g) (other b g *ℤ ρ g) (sum_plus b a) (sum_rest ((g, c) ∷ a) b),
    +ℤ_assoc (c *ℤ ρ g) (sum_coefs ρ a) (sum_coefs ρ b),
  )

  sum_coefs-scale :
      (a : StdMap ℤ) (b : ℤ) (res : StdMap ℤ)
      → IsMap a
      → Fresh res a
      → sum_coefs ρ (scale a b res) ≡ sum_coefs ρ res +ℤ sum_coefs ρ a *ℤ b
  unfolding scale sum_coefs
  sum_coefs-scale [] b res h f = ground (arith, zero-*ℤ b, +ℤ-zero (sum_coefs ρ res))
  sum_coefs-scale ((g, c) ∷ a) b res h f = ground (
    arith,
    sum_coefs-scale a b (put g (c *ℤ b) res) h.1 (Fresh-put g (c *ℤ b) res a h.0 f.1),
    sum_coefs-put g (c *ℤ b) res f.0,
    shift (c *ℤ b *ℤ ρ g) (sum_coefs ρ res) (sum_coefs ρ a *ℤ b),
    +ℤ-*ℤ (c *ℤ ρ g) (sum_coefs ρ a) b,
    swap_last c b (ρ g),
  )

Fresh-nil : (m : StdMap ℤ) → Fresh [] m
unfolding find
Fresh-nil [] = tt
Fresh-nil (e ∷ m) = (refl, Fresh-nil m)

find-add_left :
    (g : ℕ) (b a res : StdMap ℤ)
    → has g a ≡ false
    → find g res ≡ none
    → find g (add_left b a res) ≡ none
unfolding add_left has
find-add_left g b [] res h f = f
find-add_left g b ((j, c) ∷ a) res h f = ground (
  arith,
  find-add_left g b a res,
  find-add_left g b a (put j (plus_other b j c) res),
  find-put j g (plus_other b j c) res,
)

Unseen-add_left : (b a m : StdMap ℤ) → Unseen a (add_left b a []) m
unfolding find
Unseen-add_left b a [] = tt
Unseen-add_left b a ((j, c) ∷ m) = (λ h. find-add_left j b a [] h refl, Unseen-add_left b a m)

add_left-IsMap : (b a res : StdMap ℤ) → IsMap res → IsMap (add_left b a res)
unfolding add_left
add_left-IsMap b [] res h = h
add_left-IsMap b ((g, c) ∷ a) res h = ground (
  arith,
  add_left-IsMap b a res,
  add_left-IsMap b a (put g (plus_other b g c) res),
  put-IsMap g (plus_other b g c) res,
)

add_right-IsMap : (a b res : StdMap ℤ) → IsMap res → IsMap (add_right a b res)
unfolding add_right
add_right-IsMap a [] res h = h
add_right-IsMap a ((g, c) ∷ b) res h =
    ground (arith, add_right-IsMap a b res, add_right-IsMap a b (put g c res), put-IsMap g c res)

scale-IsMap : (a : StdMap ℤ) (b : ℤ) (res : StdMap ℤ) → IsMap res → IsMap (scale a b res)
unfolding scale
scale-IsMap [] b res h = h
scale-IsMap ((g, c) ∷ a) b res h = scale-IsMap a b (put g (c *ℤ b) res) (put-IsMap g _ res h)

pub +ₗ-IsExpr : (a b : WLinExpr) → IsExpr (a +ₗ b)
unfolding ◌+ₗ◌
+ₗ-IsExpr a b = add_right-IsMap a.coefs b.coefs _ (add_left-IsMap b.coefs a.coefs [] tt)

pub *ₗ-IsExpr : (a : WLinExpr) (b : ℤ) → IsExpr (a *ₗ b)
unfolding ◌*ₗ◌
*ₗ-IsExpr a b = ground (arith, scale-IsMap a.coefs b [] tt)

-- The sum of two expressions is worth the sum of their values, at every valuation.
pub value-+ₗ :
    (ρ : Valuation) (a b : WLinExpr)
    → IsExpr a
    → IsExpr b
    → value ρ (a +ₗ b) ≡ value ρ a +ℤ value ρ b
unfolding value ◌+ₗ◌ sum_coefs
value-+ₗ ρ a b h k = ground (
  arith,
  sum_coefs-add_right ρ a.coefs b.coefs (add_left b.coefs a.coefs []) k
      (Unseen-add_left b.coefs a.coefs b.coefs),
  sum_coefs-add_left ρ b.coefs a.coefs [] h (Fresh-nil a.coefs),
  zero-+ℤ (sum_plus ρ b.coefs a.coefs),
  sum_plus-sum_rest ρ a.coefs b.coefs h k,
  +ℤ_interchange (sum_coefs ρ a.coefs) (sum_coefs ρ b.coefs) a.cst b.cst,
)

-- The product of an expression with a coefficient is worth its value times the coefficient.
pub value-*ₗ : (ρ : Valuation) (a : WLinExpr) (b : ℤ) → IsExpr a → value ρ (a *ₗ b) ≡ value ρ a *ℤ b
unfolding value ◌*ₗ◌ sum_coefs
value-*ₗ ρ a b h = ground (
  arith,
  eqb_ℤ_iff b (pos 0),
  sum_coefs-scale ρ a.coefs b [] h (Fresh-nil a.coefs),
  zero-+ℤ (sum_coefs ρ a.coefs *ℤ b),
  *ℤ-zero (sum_coefs ρ a.coefs +ℤ a.cst),
  +ℤ-*ℤ (sum_coefs ρ a.coefs) a.cst b,
  zero-+ℤ (pos 0),
)

pub -ₗ-IsExpr : (a b : WLinExpr) → IsExpr (a -ₗ b)
unfolding ◌-ₗ◌
-ₗ-IsExpr a b = +ₗ-IsExpr a _

-- The difference of two expressions is worth the difference of their values.
pub value--ₗ :
    (ρ : Valuation) (a b : WLinExpr)
    → IsExpr a
    → IsExpr b
    → value ρ (a -ₗ b) ≡ value ρ a -ℤ value ρ b
unfolding ◌-ₗ◌
value--ₗ ρ a b h k =
    value-+ₗ ρ a (b *ₗ negsuc 0) h (*ₗ-IsExpr b (negsuc 0))
    ∙ rw (value-*ₗ ρ b (negsuc 0) k, *ℤ_comm (value ρ b) (negsuc 0))
        (minus_one-*ℤ (value ρ a) (value ρ b))
