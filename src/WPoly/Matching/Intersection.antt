-- ===== src/WPoly/Matching/Intersection.antt =====
-- intersection_assign of include/PolyWrap.h, with combine(src, true) of poly_PolyWrap.cpp.
use polymalys.Common.{
  ℕ, ◌+◌, ◌<◌, true, some, [], ◌≡◌, refl, sym, ap, ◌∙◌, ◌⊎◌, ◌↔◌, arith, inl, inr, Bool-cases, ◌==◌,
  length,
}
use polymalys.Common.StdMap.{find}
use polymalys.Linear.Value.{Valuation}
use polymalys.Ppl.{Ppl}
use polymalys.WPoly.{WPoly}
use polymalys.WPoly.Adapter.{IsWPoly, Models}
use polymalys.WPoly.Combine.{add_missing, Missing, match_maps, combine, intersection_assign}
use polymalys.WPoly.Matching.Missing.{
  IsCompleted, with_missing, add_missing-IsCompleted, embedded, embedded-IsWPoly, embedded-Models,
  embedded-Models_back,
}
use polymalys.WPoly.Matching.Result.{every_dimension, IsMatched, match_maps-IsMatched}

-- What `r` must be to hold the valuations of both `w` and `src`, and no other: it tracks the variables that one of
-- them tracks, at the dimensions of `w` where it has any.
pub record IsMeet (P : Ppl) (w src r : WPoly P) : Type 0 where
  pub valid : IsWPoly P r
  pub keeps : (g d : ℕ) → find g w.adapter ≡ some d → find g r.adapter ≡ some d
  pub gains : (g d : ℕ) → find g src.adapter ≡ some d → (j : ℕ) × (find g r.adapter ≡ some j)
  pub origin :
      (g j : ℕ)
      → find g r.adapter ≡ some j
      → ((c : ℕ) × (find g w.adapter ≡ some c)) ⊎ ((c : ℕ) × (find g src.adapter ≡ some c))
  pub models : (ρ : Valuation) → Models P r ρ ↔ (Models P w ρ × Models P src ρ)

module _ (P : Ppl) (w src : WPoly P) (a : IsWPoly P w) (b : IsWPoly P src)
    (l : 0 < w.next + src.next) where
  -- the missing variables of each operand
  abbrev src_full : Missing
  src_full = add_missing true w.adapter (src.adapter, src.next, 0, [])

  abbrev w_full : Missing
  w_full = add_missing true src_full.0 (w.adapter, w.next, 0, [])

  src-IsCompleted : IsCompleted P src w.adapter 0 src_full
  src-IsCompleted = add_missing-IsCompleted P w.adapter src 0 [] b.adapter

  w-IsCompleted : IsCompleted P w src_full.0 0 w_full
  w-IsCompleted = add_missing-IsCompleted P src_full.0 w 0 [] a.adapter

  abbrev wide_w : WPoly P
  wide_w = embedded P w (with_missing P w w_full) w_full.2 a w-IsCompleted.extends

  abbrev wide_src : WPoly P
  wide_src = embedded P src (with_missing P src src_full) src_full.2 b src-IsCompleted.extends

  wide_w-IsWPoly : IsWPoly P wide_w
  wide_w-IsWPoly =
      embedded-IsWPoly P w (with_missing P w w_full) w_full.2 a w-IsCompleted.extends
        (omega (arith, w-IsCompleted.count))

  wide_src-IsWPoly : IsWPoly P wide_src
  wide_src-IsWPoly =
      embedded-IsWPoly P src (with_missing P src src_full) src_full.2 b src-IsCompleted.extends
        (omega (arith, src-IsCompleted.count))

  wide_both :
      (g d : ℕ) → find g wide_w.adapter ≡ some d → (j : ℕ) × (find g wide_src.adapter ≡ some j)
  unfolding embedded
  wide_both g d e = elim (w-IsCompleted.origin g d e) [
    | inl (c, f) ↦ src-IsCompleted.tracks g c f
    | inr x ↦ x
  ]

  wide_back :
      (g j : ℕ) → find g wide_src.adapter ≡ some j → (d : ℕ) × (find g wide_w.adapter ≡ some d)
  unfolding embedded
  wide_back g j e = w-IsCompleted.tracks g j e

  wide_w_positive : 0 < wide_w.next
  unfolding embedded
  wide_w_positive = elim (Bool-cases (w.next == 0)) [
    | inl e ↦
        let (g, f) = every_dimension P src b.adapter 0 (ground (arith, l)) in
        let (j, q) = w-IsCompleted.tracks g 0 (src-IsCompleted.extends.keeps g 0 f) in
        omega (arith, w-IsCompleted.extends.adapter.bounded g j q)
    | inr e ↦ ground (arith, w-IsCompleted.extends.grows)
  ]

  abbrev meet : WPoly P → WPoly P
  meet s = record wide_w { poly = P.intersection_assign wide_w.poly s.poly }

  module _ (s : WPoly P) (m : IsMatched P wide_w wide_src s) where
    same_dimension : P.space_dimension wide_w.poly ≡ P.space_dimension s.poly
    same_dimension =
        wide_w-IsWPoly.dimension
        ∙ sym wide_w-IsWPoly.adapter.full
        ∙ sym (ap length m.adapter)
        ∙ m.valid.adapter.full
        ∙ sym m.valid.dimension

    meet-IsWPoly : IsWPoly P (meet s)
    meet-IsWPoly =
        let v = wide_w-IsWPoly in
        let dim = P.intersection_dimension wide_w.poly s.poly same_dimension in
        record {
          adapter = record {
            ordered = v.adapter.ordered;
            bounded = v.adapter.bounded;
            distinct = v.adapter.distinct;
            full = v.adapter.full;
            room = omega (arith, dim, v.dimension);
          };
          dimension = omega (arith, dim, v.dimension);
        }

    meet-Models : (ρ : Valuation) → Models P w ρ → Models P src ρ → Models P (meet s) ρ
    meet-Models ρ x y =
        let (p, c, agree) =
          embedded-Models P w (with_missing P w w_full) w_full.2 a w-IsCompleted.extends ρ x in
        let (q, c', agree') = m.models ρ (
          embedded-Models P src (with_missing P src src_full) src_full.2 b src-IsCompleted.extends ρ
            y) in
        (
          p,
          (P.intersection_contains wide_w.poly s.poly p same_dimension).1 (
            c,
            P.Contains_local s.poly q p
                (λ d k.
                  let (g, e) =
                    every_dimension P s m.valid.adapter d (omega (arith, m.valid.dimension, k)) in
                  agree' g d e ∙ sym (agree g d (ap (find g) (sym m.adapter) ∙ e)))
                c',
          ),
          agree,
        )

    meet-Models_back : (ρ : Valuation) → Models P (meet s) ρ → Models P w ρ × Models P src ρ
    meet-Models_back ρ (p, c, agree) =
        let (cw, cs) = (P.intersection_contains wide_w.poly s.poly p same_dimension).0 c in
        (
          embedded-Models_back P w (with_missing P w w_full) w_full.2 a w-IsCompleted.extends ρ
              (p, cw, agree),
          embedded-Models_back P src (with_missing P src src_full) src_full.2 b
              src-IsCompleted.extends ρ
              (m.models_back ρ (p, cs, λ g d e. agree g d (ap (find g) (sym m.adapter) ∙ e))),
        )

    meet_result :
        match_maps P wide_w wide_src ≡ some (wide_w, s)
        → intersection_assign P w src ≡ some (meet s)
    unfolding intersection_assign combine embedded
    meet_result e = rw (intersection_assign, combine, e) refl

    meet-IsMeet : IsMeet P w src (meet s)
    unfolding embedded
    meet-IsMeet = record {
      valid = meet-IsWPoly;
      keeps = w-IsCompleted.extends.keeps;
      gains = λ g d e. w-IsCompleted.tracks g d (src-IsCompleted.extends.keeps g d e);
      origin = λ g j e. elim (w-IsCompleted.origin g j e) [
        | inl x ↦ inl x
        | inr (c, f) ↦ elim (src-IsCompleted.origin g c f) [ inl x ↦ inr x | inr x ↦ inl x ]
      ];
      models = λ ρ. (meet-Models_back ρ, λ x. meet-Models ρ x.0 x.1);
    }

  -- `intersection_assign` of two valid WPolys that do not both track no variable does not abort. The
  -- result is valid, tracks the variables that one of them tracks and no other, those of the first
  -- at its dimensions, and describes the valuations that both describe, and no other.
  pub intersection_assign-IsMeet :
      (r : WPoly P) × (intersection_assign P w src ≡ some r) × IsMeet P w src r
  intersection_assign-IsMeet =
      let (s, e, m) =
        match_maps-IsMatched P wide_w wide_src wide_w-IsWPoly wide_src-IsWPoly wide_w_positive
          wide_both wide_back in
      (meet s, meet_result s m e, meet-IsMeet s m)
