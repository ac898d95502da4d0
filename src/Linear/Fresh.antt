-- ===== src/Linear/Fresh.antt =====
-- The variables of an expression lie below the counter of guids, and a constraint makes a WPoly track
-- no others: a new guid stays free.
use polymalys.Common.{ℕ, ◌<◌, ◌≤◌, [], ◌∷◌, All, All-map, arith, Bool-cases, inl, inr}
use polymalys.Common.Int.{ℤ, pos, negsuc, eqb_ℤ, ◌*ℤ◌}
use polymalys.Common.StdMap.{StdMap, put, has}
use polymalys.Linear.{
  WLinExpr, of_var, of_cst, ◌+ₗ◌, ◌*ₗ◌, ◌-ₗ◌, plus_other, add_left, add_right, scale,
}

abbrev pub IsBelow {ℓ} : {V : Type ℓ} → ℕ → StdMap V → Type 0
IsBelow n m = All (λ e. e.0 < n) m

-- the variables of an expression
abbrev pub Uses : ℕ → WLinExpr → Type 0
Uses n e = IsBelow n e.coefs

put-IsBelow {ℓ} :
    {V : Type ℓ} (n k : ℕ) (v : V) (m : StdMap V) → k < n → IsBelow n m → IsBelow n (put k v m)
unfolding put
put-IsBelow n k v [] l h = (l, tt)
put-IsBelow n k v ((j, w) ∷ m) l h = ground (arith, put-IsBelow n k v m)

pub IsBelow-mono {ℓ} : {V : Type ℓ} (n k : ℕ) (m : StdMap V) → n ≤ k → IsBelow n m → IsBelow k m
IsBelow-mono n k m l h = All-map m (λ e q. omega (arith, l)) h

add_left-IsBelow :
    (n : ℕ) (b a res : StdMap ℤ) → IsBelow n a → IsBelow n res → IsBelow n (add_left b a res)
unfolding add_left
add_left-IsBelow n b [] res h k = k
add_left-IsBelow n b ((g, c) ∷ a) res h k = elim (Bool-cases (eqb_ℤ (plus_other b g c) (pos 0))) [
  | inl e ↦ rw (add_left, e) (add_left-IsBelow n b a res h.1 k)
  | inr e ↦
      rw (add_left, e)
        (add_left-IsBelow n b a (put g (plus_other b g c) res) h.1
          (put-IsBelow n g (plus_other b g c) res h.0 k))
]

add_right-IsBelow :
    (n : ℕ) (a b res : StdMap ℤ) → IsBelow n b → IsBelow n res → IsBelow n (add_right a b res)
unfolding add_right
add_right-IsBelow n a [] res h k = k
add_right-IsBelow n a ((g, c) ∷ b) res h k = elim (Bool-cases (has g a)) [
  | inl e ↦ rw (add_right, e) (add_right-IsBelow n a b res h.1 k)
  | inr e ↦
      rw (add_right, e) (add_right-IsBelow n a b (put g c res) h.1 (put-IsBelow n g c res h.0 k))
]

scale-IsBelow :
    (n : ℕ) (a : StdMap ℤ) (b : ℤ) (res : StdMap ℤ)
    → IsBelow n a
    → IsBelow n res
    → IsBelow n (scale a b res)
unfolding scale
scale-IsBelow n [] b res h k = k
scale-IsBelow n ((g, c) ∷ a) b res h k =
    scale-IsBelow n a b (put g (c *ℤ b) res) h.1 (put-IsBelow n g (c *ℤ b) res h.0 k)

pub of_var-Uses : (n v : ℕ) → v < n → Uses n (of_var v)
unfolding of_var
of_var-Uses n v l = (l, tt)

pub of_cst-Uses : (n : ℕ) (c : ℤ) → Uses n (of_cst c)
unfolding of_cst
of_cst-Uses n c = tt

pub +ₗ-Uses : (n : ℕ) (a b : WLinExpr) → Uses n a → Uses n b → Uses n (a +ₗ b)
unfolding ◌+ₗ◌
+ₗ-Uses n a b h k =
    add_right-IsBelow n a.coefs b.coefs (add_left b.coefs a.coefs []) k
      (add_left-IsBelow n b.coefs a.coefs [] h tt)

pub *ₗ-Uses : (n : ℕ) (a : WLinExpr) (b : ℤ) → Uses n a → Uses n (a *ₗ b)
unfolding ◌*ₗ◌
*ₗ-Uses n a b h = elim (Bool-cases (eqb_ℤ b (pos 0))) [
  | inl e ↦ rw (◌*ₗ◌, e) tt
  | inr e ↦ rw (◌*ₗ◌, e) (scale-IsBelow n a.coefs b [] h tt)
]

pub -ₗ-Uses : (n : ℕ) (a b : WLinExpr) → Uses n a → Uses n b → Uses n (a -ₗ b)
unfolding ◌-ₗ◌
-ₗ-Uses n a b h k = +ₗ-Uses n a (b *ₗ negsuc 0) h (*ₗ-Uses n b (negsuc 0) k)
