-- ===== src/WPoly/Adapter.antt =====
-- The adapter of a WPoly: what `translate` and `toPPL` do to it, and the points of the polyhedron
-- that stand for a valuation of the variables.
use polymalys.Common.{
  ℕ, ◌+◌, ◌≤◌, ◌<◌, none, some, [], ◌∷◌, ◌≡◌, refl, if◌then◌else◌, ◌==◌, arith, Option-cases, inl,
  inr, ◌∙◌, sym, length,
}
use polymalys.Common.Int.{ℤ, ◌+ℤ◌, +ℤ-zero, +ℤ_assoc, zero-+ℤ}
use polymalys.Common.StdMap.{StdMap, find, put, IsMap, find-put, put-IsMap, length-put}
use polymalys.Linear.{WLinExpr}
use polymalys.Linear.Value.{Valuation, value, sum_coefs}
use polymalys.Ppl.{Ppl, Point}
use polymalys.WPoly.{WPoly, translate, to_ppl_terms, to_ppl}

-- The point has the value of each tracked variable at its dimension.
abbrev pub Agree : Valuation → StdMap ℕ → Point → Type 0
Agree ρ m x = (g d : ℕ) → find g m ≡ some d → x d ≡ ρ g

module _ (P : Ppl) where
  -- The dimensions of the tracked variables are distinct, and are all that were given out.
  pub record IsAdapter (w : WPoly P) : Type 0 where
    pub ordered : IsMap w.adapter
    pub bounded : (g d : ℕ) → find g w.adapter ≡ some d → d < w.next
    pub distinct : (g h d : ℕ) → find g w.adapter ≡ some d → find h w.adapter ≡ some d → g ≡ h
    pub full : length w.adapter ≡ w.next
    pub room : P.space_dimension w.poly ≤ w.next

  -- The invariant of a WPoly between its methods: no dimension waits for room.
  pub record IsWPoly (w : WPoly P) : Type 0 where
    pub adapter : IsAdapter w
    pub dimension : P.space_dimension w.poly ≡ w.next

  -- The valuations that a WPoly describes.
  abbrev pub Models : WPoly P → Valuation → Type 0
  Models w ρ = (x : Point) × P.Contains w.poly x × Agree ρ w.adapter x

  -- `w'` tracks what `w` tracks, at the same dimensions, and perhaps more.
  pub record Extends (w w' : WPoly P) : Type 0 where
    pub adapter : IsAdapter w'
    pub poly : w'.poly ≡ w.poly
    pub grows : w.next ≤ w'.next
    pub keeps : (h d : ℕ) → find h w.adapter ≡ some d → find h w'.adapter ≡ some d
    pub points :
        (ρ : Valuation) (x : Point)
        → Agree ρ w.adapter x
        → (y : Point) × ((d : ℕ) → d < w.next → x d ≡ y d) × Agree ρ w'.adapter y

  pub Extends-refl : (w : WPoly P) → IsAdapter w → Extends w w
  Extends-refl w a = record {
    adapter = a;
    poly = refl;
    grows = omega arith;
    keeps = λ h d e. e;
    points = λ ρ x g. (x, λ d l. refl, g);
  }

  pub Extends-trans : (u v w : WPoly P) → Extends u v → Extends v w → Extends u w
  Extends-trans u v w a b = record {
    adapter = b.adapter;
    poly = b.poly ∙ a.poly;
    grows = omega arith;
    keeps = λ h d e. b.keeps h d (a.keeps h d e);
    points = λ ρ x g.
        let (y, same, agree) = a.points ρ x g in
        let (z, same', agree') = b.points ρ y agree in
        (z, λ d l. same d l ∙ same' d (omega arith), agree');
  }

  module _ (w : WPoly P) (a : IsAdapter w) (g : ℕ) (fresh : find g w.adapter ≡ none) where
    unfoldable pub added : WPoly P
    added = record w { adapter = put g w.next w.adapter; next = w.next + 1 }

    added-IsAdapter : IsAdapter added
    unfolding added
    added-IsAdapter = record {
      ordered = put-IsMap g w.next w.adapter a.ordered;
      bounded = λ h d e. ground (arith, find-put g h w.next w.adapter, a.bounded h d);
      distinct = λ h k d e f. ground (
        arith,
        find-put g h w.next w.adapter,
        find-put g k w.next w.adapter,
        a.distinct h k d,
        a.bounded h d,
        a.bounded k d,
      );
      full = omega (arith, a.full, length-put g w.next w.adapter fresh);
      room = omega (arith, a.room);
    }

    pub added-Extends : Extends w added
    unfolding added
    added-Extends = record {
      adapter = added-IsAdapter;
      poly = refl;
      grows = omega arith;
      keeps = λ h d e. ground (arith, find-put g h w.next w.adapter);
      points = λ ρ x agree. (
        λ d. if d == w.next then ρ g else x d,
        λ d l. ground arith,
        λ h d e. ground (arith, find-put g h w.next w.adapter, agree h d, a.bounded h d),
      );
    }

  -- what `translate` returns
  record Translated (w : WPoly P) (g : ℕ) (r : ℕ × WPoly P) : Type 0 where
    extends : Extends w r.1
    found : find g r.1.adapter ≡ some r.0

  translate-Translated : (w : WPoly P) (g : ℕ) → IsAdapter w → Translated w g (translate P w g)
  unfolding translate added
  translate-Translated w g a = elim (Option-cases (find g w.adapter)) [
    | inl e ↦
        rw (e, translate)
          (record {
            extends = added-Extends w a g e;
            found = ground (arith, find-put g g w.next w.adapter);
          })
    | inr (d, e) ↦ rw (e, translate) (record { extends = Extends-refl w a; found = e })
  ]

  -- what the loop of `toPPL` returns
  record Built (m : StdMap ℤ) (w : WPoly P) (e : P.Linear) (r : P.Linear × WPoly P) : Type 0 where
    extends : Extends w r.1
    amount :
        (ρ : Valuation) (x : Point)
        → Agree ρ r.1.adapter x
        → P.lin_value x r.0 ≡ P.lin_value x e +ℤ sum_coefs ρ m
    fits : P.lin_dimension e ≤ w.next → P.lin_dimension r.0 ≤ r.1.next

  to_ppl_terms-Built :
      (m : StdMap ℤ) (w : WPoly P) (e : P.Linear) → IsAdapter w → Built m w e (to_ppl_terms P m w e)
  unfolding to_ppl_terms sum_coefs
  to_ppl_terms-Built [] w e a = record {
    extends = Extends-refl w a;
    amount = λ ρ x g. sym (+ℤ-zero _);
    fits = λ l. l;
  }
  to_ppl_terms-Built ((g, c) ∷ m) w e a =
      let t = translate-Translated w g a in
      let r = translate P w g in
      let b = to_ppl_terms-Built m r.1 (P.lin_add_term e c r.0) t.extends.adapter in
      record {
        extends = Extends-trans w r.1 _ t.extends b.extends;
        amount = λ ρ x agree.
            b.amount ρ x agree
            ∙ rw (P.lin_add_term_value x e c r.0, agree g r.0 (b.extends.keeps g r.0 t.found))
                (+ℤ_assoc _ _ _);
        fits = λ l. b.fits (
            P.lin_add_term_dimension e c r.0 r.1.next (omega (arith, t.extends.grows))
              (t.extends.adapter.bounded g r.0 t.found));
      }

  -- what `toPPL` returns: an expression of the same value over the dimensions of the new adapter
  pub record IsToPpl (l : WLinExpr) (w : WPoly P) (r : P.Linear × WPoly P) : Type 0 where
    pub extends : Extends w r.1
    pub amount : (ρ : Valuation) (x : Point) → Agree ρ r.1.adapter x → P.lin_value x r.0 ≡ value ρ l
    pub fits : P.lin_dimension r.0 ≤ r.1.next

  pub to_ppl-IsToPpl : (l : WLinExpr) (w : WPoly P) → IsAdapter w → IsToPpl l w (to_ppl P l w)
  unfolding to_ppl value
  to_ppl-IsToPpl l w a =
      let b = to_ppl_terms-Built l.coefs w P.lin_zero a in
      record {
        extends = b.extends;
        amount = λ ρ x agree.
            P.lin_add_cst_value x _ l.cst
            ∙ rw (b.amount ρ x agree, P.lin_zero_value x, zero-+ℤ (sum_coefs ρ l.coefs));
        fits = rw (P.lin_add_cst_dimension _ l.cst) (b.fits (omega (arith, P.lin_zero_dimension)));
      }
