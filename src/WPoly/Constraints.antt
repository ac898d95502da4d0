-- ===== src/WPoly/Constraints.antt =====
-- Constraints added to a WPoly.
use polymalys.Common.{
  ℕ, ◌-◌, ◌≤◌, some, ◌≡◌, refl, ltb, arith, Bool-cases, inl, inr, ◌∙◌, sym, subst, ◌↔◌,
}
use polymalys.Common.Int.{pos, ◌≤ℤ◌}
use polymalys.Common.StdMap.{find}
use polymalys.Linear.{WLinExpr, WCons, CType, cons_eq, cons_ge}
use polymalys.Linear.Value.{Valuation, value}
use polymalys.Linear.Compare.{Sat}
use polymalys.Ppl.{Ppl, Point}
use polymalys.WPoly.Adapter.{Agree, IsAdapter, IsWPoly, Models, IsToPpl, to_ppl-IsToPpl}
use polymalys.WPoly.{WPoly, to_ppl, constraint_of, embed_new, translate_cons, add_constraint}

module _ (P : Ppl) where
  pub constraint_of-Satisfies :
      (t : CType) (l : WLinExpr) (e : P.Linear) (x : Point) (ρ : Valuation)
      → P.lin_value x e ≡ value ρ l
      → P.Satisfies x (constraint_of P t e) ↔ Sat ρ (record { ctype = t; expr = l })
  unfolding constraint_of
  constraint_of-Satisfies cons_eq l e x ρ h =
      subst (λ v. P.Satisfies x (P.is_zero e) ↔ (v ≡ pos 0)) h (P.is_zero_iff x e)
  constraint_of-Satisfies cons_ge l e x ρ h =
      subst (λ v. P.Satisfies x (P.is_nonneg e) ↔ (pos 0 ≤ℤ v)) h (P.is_nonneg_iff x e)

  constraint_of-dimension :
      (t : CType) (e : P.Linear) → P.con_dimension (constraint_of P t e) ≡ P.lin_dimension e
  unfolding constraint_of
  constraint_of-dimension cons_eq e = P.is_zero_dimension e
  constraint_of-dimension cons_ge e = P.is_nonneg_dimension e

  -- what `embed_new` returns
  record Embedded (w r : WPoly P) : Type 0 where
    valid : IsWPoly P r
    contains : (x : Point) → P.Contains r.poly x ↔ P.Contains w.poly x
    adapter : r.adapter ≡ w.adapter
    next : r.next ≡ w.next

  embed_new-Embedded : (w : WPoly P) → IsAdapter P w → Embedded w (embed_new P w)
  unfolding embed_new
  embed_new-Embedded w a = elim (Bool-cases (ltb (P.space_dimension w.poly) w.next)) [
    | inl e ↦
        let n = w.next - P.space_dimension w.poly in
        rw e (record {
          valid = record {
            adapter = record {
              ordered = a.ordered;
              bounded = a.bounded;
              distinct = a.distinct;
              full = a.full;
              room = rw (P.embed_dimension w.poly n) (ground (arith, a.room));
            };
            dimension = rw (P.embed_dimension w.poly n) (ground (arith, a.room));
          };
          contains = λ x. P.embed_contains w.poly n x;
          adapter = refl;
          next = refl;
        })
    | inr e ↦ rw e (record {
      valid = record { adapter = a; dimension = ground (arith, a.room) };
      contains = λ x. (λ h. h, λ h. h);
      adapter = refl;
      next = refl;
    })
  ]

  -- what `translate_cons` returns
  record IsTranslated (c : WCons) (w : WPoly P) (r : P.Constraint × WPoly P) : Type 0 where
    valid : IsWPoly P r.1
    keeps : (ρ : Valuation) → Models P r.1 ρ ↔ Models P w ρ
    tracks : (g d : ℕ) → find g w.adapter ≡ some d → find g r.1.adapter ≡ some d
    fits : P.con_dimension r.0 ≤ P.space_dimension r.1.poly
    means : (ρ : Valuation) (x : Point) → Agree ρ r.1.adapter x → P.Satisfies x r.0 ↔ Sat ρ c

  -- a described valuation has a point that agrees with it on the new variables too
  Models-extended :
      (l : WLinExpr) (w : WPoly P) (v : IsWPoly P w) (r : P.Linear × WPoly P)
      → IsToPpl P l w r
      → Embedded r.1 (embed_new P r.1)
      → (ρ : Valuation) → Models P w ρ
      → Models P (embed_new P r.1) ρ
  Models-extended l w v r t m ρ h =
      let (y, same, agree) = t.extends.points ρ h.0 h.2 in
      (
        y,
        (m.contains y).1 (
            subst (λ q. P.Contains q y) (sym t.extends.poly)
              (P.Contains_local w.poly h.0 y (λ d l. same d (omega (arith, v.dimension))) h.1)),
        subst (λ a. Agree ρ a y) (sym m.adapter) agree,
      )

  translate_cons-IsTranslated :
      (c : WCons) (w : WPoly P) → IsWPoly P w → IsTranslated c w (translate_cons P c w)
  unfolding translate_cons
  translate_cons-IsTranslated c w v =
      let t = to_ppl-IsToPpl P c.expr w v.adapter in
      let (e, w') = to_ppl P c.expr w in
      let m = embed_new-Embedded w' t.extends.adapter in
      record {
        valid = m.valid;
        keeps = λ ρ. (
          λ h. (
            h.0,
            subst (λ q. P.Contains q h.0) t.extends.poly ((m.contains h.0).0 h.1),
            λ g d f.
                h.2 g d (subst (λ a. find g a ≡ some d) (sym m.adapter) (t.extends.keeps g d f)),
          ),
          Models-extended c.expr w v (e, w') t m ρ,
        );
        tracks = λ g d f. subst (λ a. find g a ≡ some d) (sym m.adapter) (t.extends.keeps g d f);
        fits = omega (arith, constraint_of-dimension c.ctype e, t.fits, m.next, m.valid.dimension);
        means = λ ρ x g.
            constraint_of-Satisfies c.ctype c.expr e x ρ
              (t.amount ρ x (subst (λ a. Agree ρ a x) m.adapter g));
      }

  -- what was tracked stays tracked, at its dimension
  pub add_constraint-find :
      (c : WCons) (w : WPoly P) (g d : ℕ)
      → IsWPoly P w
      → find g w.adapter ≡ some d
      → find g (add_constraint P c w).adapter ≡ some d
  unfolding add_constraint
  add_constraint-find c w g d v = (translate_cons-IsTranslated c w v).tracks g d

  -- `add_constraint` keeps the invariant, and the valuations that the result describes are those
  -- that were described and satisfy the constraint, whether or not its variables were tracked.
  pub add_constraint-Models :
      (c : WCons) (w : WPoly P)
      → IsWPoly P w
      → IsWPoly P (add_constraint P c w)
        × ((ρ : Valuation) → Models P (add_constraint P c w) ρ ↔ (Models P w ρ × Sat ρ c))
  unfolding add_constraint
  add_constraint-Models c w v =
      let t = translate_cons-IsTranslated c w v in
      let (pc, w') = translate_cons P c w in
      let dim = P.add_constraint_dimension w'.poly pc in
      let exact = λ (x : Point). P.add_constraint_contains w'.poly pc x t.fits in
      let a = t.valid.adapter in
      (
        record {
          adapter = record {
            ordered = a.ordered;
            bounded = a.bounded;
            distinct = a.distinct;
            full = a.full;
            room = rw dim a.room;
          };
          dimension = dim ∙ t.valid.dimension;
        },
        λ ρ. (
          λ h.
              let both = (exact h.0).0 h.1 in
              ((t.keeps ρ).0 (h.0, both.0, h.2), (t.means ρ h.0 h.2).0 both.1),
          λ h.
              let there = (t.keeps ρ).1 h.0 in
              (there.0, (exact there.0).1 (there.1, (t.means ρ there.0 there.2).1 h.1), there.2),
        ),
      )
