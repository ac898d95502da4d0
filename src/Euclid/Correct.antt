-- ===== src/Euclid/Correct.antt =====
-- That PPLDomain::_euclid ends and returns a greatest common divisor with a Bézout coefficient.
use polymalys.Common.{
  ap₂, subst, some-injective, ℕ, zero, suc, some, false, ◌≡◌, ◌≤◌, ◌<◌, ◌≢◌, arith, refl, sym, ◌∙◌,
  ap, Bool-cases, inl, inr,
}
use polymalys.Common.Int.{
  ℤ, pos, nat_abs, ◌+ℤ◌, ◌-ℤ◌, ◌*ℤ◌, tdiv, tmod, eqb_ℤ, eqb_ℤ_iff, tdiv-tmod, nat_abs-tmod,
  nat_abs_zero, *ℤ-+ℤ, *ℤ--ℤ, *ℤ_assoc, *ℤ_comm, *ℤ-one, *ℤ-zero, int_laws,
}
use polymalys.Euclid.{Rounds, euclid_round, euclid_loop, euclid_start, euclid}

abbrev pub Divides : ℤ → ℤ → Type 0
Divides d x = (k : ℤ) × (x ≡ d *ℤ k)

round_falls : (r : Rounds) → r.rest ≢ pos 0 → nat_abs (euclid_round r).rest < nat_abs r.rest
unfolding euclid_round
round_falls r h =
    rw (tdiv-tmod r.old_rest r.rest, nat_abs-tmod r.old_rest r.rest)
      (ground (arith, nat_abs_zero r.rest))

euclid_loop_ends :
    (fuel : ℕ) (r : Rounds) → nat_abs r.rest ≤ fuel → (s : Rounds) × (euclid_loop fuel r ≡ some s)
unfolding euclid_loop
euclid_loop_ends zero r h = (r, ground (arith, eqb_ℤ_iff r.rest (pos 0), nat_abs_zero r.rest))
euclid_loop_ends (suc fuel) r h = elim (Bool-cases (eqb_ℤ r.rest (pos 0))) [
  | inl e ↦ (r, rw (e, euclid_loop))
  | inr e ↦
      let (s, q) =
        euclid_loop_ends fuel (euclid_round r)
          (ground (arith, round_falls r, eqb_ℤ_iff r.rest (pos 0))) in
      (s, rw (e, euclid_loop) q)
]

swap_first : (x y z : ℤ) → x *ℤ (y *ℤ z) ≡ y *ℤ (x *ℤ z)
swap_first x y z = sym (*ℤ_assoc x y z) ∙ ap (λ t. t *ℤ z) (*ℤ_comm x y) ∙ *ℤ_assoc y x z

combine :
    (a b k u l v q : ℤ)
    → (a *ℤ k +ℤ b *ℤ u) -ℤ q *ℤ (a *ℤ l +ℤ b *ℤ v) ≡ a *ℤ (k -ℤ q *ℤ l) +ℤ b *ℤ (u -ℤ q *ℤ v)
combine a b k u l v q =
    rw
      (
        *ℤ-+ℤ q (a *ℤ l) (b *ℤ v),
        *ℤ--ℤ a k (q *ℤ l),
        *ℤ--ℤ b u (q *ℤ v),
        swap_first q a l,
        swap_first q b v,
      )
      (omega int_laws)

back : (x q y : ℤ) → x ≡ q *ℤ y +ℤ (x -ℤ q *ℤ y)
back x q y = omega int_laws

combine_at :
    (a b k u l v q x y : ℤ)
    → x ≡ a *ℤ k +ℤ b *ℤ u
    → y ≡ a *ℤ l +ℤ b *ℤ v
    → x -ℤ q *ℤ y ≡ a *ℤ (k -ℤ q *ℤ l) +ℤ b *ℤ (u -ℤ q *ℤ v)
combine_at a b k u l v q x y e f = rw (e, f) (combine a b k u l v q)

Divides_back : (d x q y : ℤ) → Divides d y → Divides d (x -ℤ q *ℤ y) → Divides d x
Divides_back d x q y (m, e) (n, f) = (
  q *ℤ m +ℤ n,
  back x q y ∙ ap₂ (λ s t. q *ℤ s +ℤ t) e f ∙ rw (*ℤ-+ℤ d (q *ℤ m) n, swap_first q d m),
)

-- The result of `euclid`: `g` is a common divisor of `a` and `b` that every common divisor divides,
-- `inverse * b` is `g` up to a multiple of `a`, and `inverse` is smaller than `a`.
pub record IsEuclid (a b g inverse : ℤ) : Type 0 where
  pub common : Divides g a × Divides g b
  pub greatest : (d : ℤ) → Divides d a → Divides d b → Divides d g
  pub bezout : (k : ℤ) × (g ≡ a *ℤ k +ℤ b *ℤ inverse)
  pub reduced : a ≢ pos 0 → nat_abs inverse < nat_abs a

Divides_combination : (d a b k u : ℤ) → Divides d a → Divides d b → Divides d (a *ℤ k +ℤ b *ℤ u)
Divides_combination d a b k u (m, e) (n, f) = (
  m *ℤ k +ℤ n *ℤ u,
  ap₂ (λ s t. s *ℤ k +ℤ t *ℤ u) e f
      ∙ rw (*ℤ-+ℤ d (m *ℤ k) (n *ℤ u), ← *ℤ_assoc d m k, ← *ℤ_assoc d n u),
)

Divides_self : (d : ℤ) → Divides d d
Divides_self d = (pos 1, sym (*ℤ-one d))

ended :
    (P : Rounds → Type 0) (r s : Rounds)
    → some r ≡ some s
    → P r
    → r.rest ≡ pos 0
    → P s × (s.rest ≡ pos 0)
ended P r s e p z = let q = some-injective r s e in (subst P q p, subst (λ t. t.rest ≡ pos 0) q z)

start_fuel : (a b : ℤ) → nat_abs (euclid_start a b).rest ≤ nat_abs b
unfolding euclid_start
start_fuel a b = omega arith

rotate : (a b t : ℤ) → a *ℤ (b *ℤ t) ≡ b *ℤ (t *ℤ a)
rotate a b t = swap_first a b t ∙ ap (◌*ℤ◌ b) (*ℤ_comm a t)

-- Replacing the coefficient of `b` by its remainder modulo `a` changes that of `a` alone.
reduce : (a b k u g : ℤ) → g ≡ a *ℤ k +ℤ b *ℤ u → (l : ℤ) × (g ≡ a *ℤ l +ℤ b *ℤ tmod u a)
reduce a b k u g e = (
  k +ℤ b *ℤ tdiv u a,
  e
      ∙ rw
          (
            ← tdiv-tmod u a,
            *ℤ-+ℤ a k (b *ℤ tdiv u a),
            *ℤ--ℤ b u (tdiv u a *ℤ a),
            rotate a b (tdiv u a),
          )
          (omega int_laws),
)

module _ (a b : ℤ) where
  -- Both remainders are combinations of `a` and `b`, and their divisors divide `a` and `b`.
  record Inv (r : Rounds) : Type 0 where
    old : (k : ℤ) × (r.old_rest ≡ a *ℤ k +ℤ b *ℤ r.old_bezout)
    new : (k : ℤ) × (r.rest ≡ a *ℤ k +ℤ b *ℤ r.bezout)
    into : (d : ℤ) → Divides d r.old_rest → Divides d r.rest → Divides d a × Divides d b

  Inv-start : Inv (euclid_start a b)
  unfolding euclid_start
  Inv-start = record {
    old = (pos 1, rw (*ℤ-one a, *ℤ-zero b) (omega int_laws));
    new = (pos 0, rw (*ℤ-one b, *ℤ-zero a) (omega int_laws));
    into = λ d h k. (h, k);
  }

  Inv-round : (r : Rounds) → Inv r → Inv (euclid_round r)
  unfolding euclid_round
  Inv-round r i =
      let q = tdiv r.old_rest r.rest in
      record {
        old = i.new;
        new = (
          i.old.0 -ℤ q *ℤ i.new.0,
          combine_at a b i.old.0 r.old_bezout i.new.0 r.bezout q r.old_rest r.rest i.old.1 i.new.1,
        );
        into = λ d h k. i.into d (Divides_back d r.old_rest q r.rest h k) h;
      }

  Inv-loop :
      (fuel : ℕ) (r s : Rounds) → euclid_loop fuel r ≡ some s → Inv r → Inv s × (s.rest ≡ pos 0)
  unfolding euclid_loop
  Inv-loop zero r s e i = elim (Bool-cases (eqb_ℤ r.rest (pos 0))) [
    | inl t ↦ ended Inv r s (rw (t, euclid_loop) at e) i ((eqb_ℤ_iff r.rest (pos 0)).0 t)
    | inr t ↦ cc (rw (t, euclid_loop) at e)
  ]
  Inv-loop (suc fuel) r s e i = elim (Bool-cases (eqb_ℤ r.rest (pos 0))) [
    | inl t ↦ ended Inv r s (rw (t, euclid_loop) at e) i ((eqb_ℤ_iff r.rest (pos 0)).0 t)
    | inr t ↦ Inv-loop fuel (euclid_round r) s (rw (t, euclid_loop) at e) (Inv-round r i)
  ]

not_zero : (a : ℤ) → a ≢ pos 0 → eqb_ℤ a (pos 0) ≡ false
not_zero a n = elim (Bool-cases (eqb_ℤ a (pos 0))) [
  | inl e ↦ absurd (n ((eqb_ℤ_iff a (pos 0)).0 e))
  | inr e ↦ e
]

-- For all integers `a`, which is not 0, and `b` the loop ends, and the two results are a greatest common divisor
-- of `a` and `b` and the coefficient of `b` in it, reduced modulo `a`.
pub euclid-IsEuclid :
    (a b : ℤ)
    → a ≢ pos 0
    → (g : ℤ) × (inverse : ℤ) × (euclid a b ≡ some (g, inverse)) × IsEuclid a b g inverse
unfolding euclid
euclid-IsEuclid a b nonzero =
    let (s, e) = euclid_loop_ends (nat_abs b) (euclid_start a b) (start_fuel a b) in
    let (i, z) = Inv-loop a b (nat_abs b) (euclid_start a b) s e (Inv-start a b) in
    (
      s.old_rest,
      tmod s.old_bezout a,
      rw (e, euclid, not_zero a nonzero) refl,
      record {
        common = i.into s.old_rest (Divides_self s.old_rest) (pos 0, z ∙ sym (*ℤ-zero _));
        greatest = λ d h k. subst (Divides d) (sym i.old.1) (Divides_combination d a b _ _ h k);
        bezout = reduce a b i.old.0 s.old_bezout s.old_rest i.old.1;
        reduced = λ n. rw (nat_abs-tmod s.old_bezout a) (ground (arith, nat_abs_zero a));
      },
    )
