-- ===== src/WPoly/Matching/Hull.antt =====
-- poly_hull_assign of include/PolyWrap.h, with combine(src, false) of poly_PolyWrap.cpp.
use polymalys.Common.{
  ℕ, ◌<◌, false, Option, none, some, [], ◌≡◌, refl, sym, ap, ◌∙◌, ◌⊎◌, arith, length, inl, inr,
}
use polymalys.Common.StdMap.{find}
use polymalys.Linear.Value.{Valuation}
use polymalys.Ppl.{Ppl}
use polymalys.WPoly.{WPoly}
use polymalys.WPoly.Adapter.{IsWPoly, Models}
use polymalys.WPoly.Combine.{
  add_missing, Missing, match_maps, drop_victims, combine, poly_hull_assign,
}
use polymalys.WPoly.Drop.Filter.{dropped}
use polymalys.WPoly.Drop.Victims.{victims_dropped}
use polymalys.WPoly.Drop.Moved.{moved}
use polymalys.WPoly.Matching.Missing.{embedded}
use polymalys.WPoly.Matching.Result.{IsMatched, match_maps-IsMatched}
use polymalys.WPoly.Matching.Shared.{
  among, plain, shared, add_missing-dropped, plain-IsWPoly, plain_positive, shared-IsRestricted,
  shared_origin, shared_keeps, shared-Models,
}

-- What `r` must be to hold the valuations of `w` and of `src`: it tracks the variables that both
-- track.
pub record IsJoin (P : Ppl) (w src r : WPoly P) : Type 0 where
  pub valid : IsWPoly P r
  pub keeps :
      (g c d : ℕ)
      → find g w.adapter ≡ some c
      → find g src.adapter ≡ some d
      → (j : ℕ) × (find g r.adapter ≡ some j)
  pub origin :
      (g j : ℕ)
      → find g r.adapter ≡ some j
      → ((c : ℕ) × (find g w.adapter ≡ some c)) × ((d : ℕ) × (find g src.adapter ≡ some d))
  pub models : (ρ : Valuation) → Models P w ρ ⊎ Models P src ρ → Models P r ρ

module _ (P : Ppl) (w src : WPoly P) (a : IsWPoly P w) (b : IsWPoly P src) (g : ℕ) (c d : ℕ)
    (in_w : find g w.adapter ≡ some c) (in_src : find g src.adapter ≡ some d) where
  w_positive : 0 < w.next
  w_positive = omega (arith, a.adapter.bounded g c in_w)

  src_positive : 0 < src.next
  src_positive = omega (arith, b.adapter.bounded g d in_src)

  abbrev narrow_w : WPoly P
  narrow_w = shared P w a src.adapter w_positive

  abbrev narrow_src : WPoly P
  narrow_src = shared P src b w.adapter src_positive

  narrow_w-IsWPoly : IsWPoly P narrow_w
  narrow_w-IsWPoly = (shared-IsRestricted P w a src.adapter w_positive).valid

  narrow_src-IsWPoly : IsWPoly P narrow_src
  narrow_src-IsWPoly = (shared-IsRestricted P src b w.adapter src_positive).valid

  narrow_positive : 0 < narrow_w.next
  narrow_positive =
      let (j, e) = shared_keeps P w a src.adapter w_positive g c d in_w in_src in
      omega (arith, narrow_w-IsWPoly.adapter.bounded g j e)

  narrow_both :
      (h j : ℕ) → find h narrow_w.adapter ≡ some j → (i : ℕ) × (find h narrow_src.adapter ≡ some i)
  narrow_both h j e =
      let ((i, x), (k, y)) = shared_origin P w a src.adapter w_positive h j e in
      shared_keeps P src b w.adapter src_positive h k i y x

  narrow_back :
      (h j : ℕ) → find h narrow_src.adapter ≡ some j → (i : ℕ) × (find h narrow_w.adapter ≡ some i)
  narrow_back h j e =
      let ((i, x), (k, y)) = shared_origin P src b w.adapter src_positive h j e in
      shared_keeps P w a src.adapter w_positive h k i y x

  drop_result :
      drop_victims P
        (dropped (among src.adapter) w.adapter)
        (dropped (among w.adapter) src.adapter)
        (plain P w a)
        (plain P src b)
      ≡ some (narrow_w, narrow_src)
  unfolding drop_victims embedded dropped moved
  drop_result =
      let e =
        victims_dropped P (among src.adapter) (plain P w a) (plain-IsWPoly P w a)
          (plain_positive P w a src.adapter w_positive) in
      let f =
        victims_dropped P (among w.adapter) (plain P src b) (plain-IsWPoly P src b)
          (plain_positive P src b w.adapter src_positive) in
      rw (drop_victims, embedded, e, f) refl

  abbrev join : WPoly P → WPoly P
  join s = record narrow_w { poly = P.poly_hull_assign narrow_w.poly s.poly }

  -- the end of `combine`, by what its two first loops leave
  abbrev finish : Missing → Missing → Option (WPoly P × WPoly P)
  finish t u =
      elim (drop_victims P t.3 u.3
        (record { adapter = u.0; next = u.1; poly = P.add_space_dimensions_and_embed w.poly u.2 })
        (record {
          adapter = t.0;
          next = t.1;
          poly = P.add_space_dimensions_and_embed src.poly t.2;
        })) [ none ↦ none | some r ↦ match_maps P r.0 r.1 ]

  combine-finish : combine P w src false ≡ (
      let t = add_missing false w.adapter (src.adapter, src.next, 0, []) in
      finish t (add_missing false t.0 (w.adapter, w.next, 0, [])))
  unfolding combine
  combine-finish = refl

  combine-dropped :
      combine P w src false
      ≡ finish
          (src.adapter, src.next, 0, dropped (among src.adapter) w.adapter)
          (w.adapter, w.next, 0, dropped (among w.adapter) src.adapter)
  combine-dropped =
      combine-finish
      ∙ ap (λ t. finish t (add_missing false t.0 (w.adapter, w.next, 0, [])))
          (add_missing-dropped w.adapter src.adapter src.next 0 [])
      ∙ ap (finish (src.adapter, src.next, 0, dropped (among src.adapter) w.adapter))
          (add_missing-dropped src.adapter w.adapter w.next 0 [])

  join_combine :
      (s : WPoly P)
      → match_maps P narrow_w narrow_src ≡ some (narrow_w, s)
      → combine P w src false ≡ some (narrow_w, s)
  unfolding embedded
  join_combine s e =
      combine-dropped
      ∙ ap
          (λ (o : Option (WPoly P × WPoly P)). elim o [
            | none ↦ none
            | some r ↦ match_maps P r.0 r.1
          ])
          drop_result
      ∙ e

  join_result :
      (s : WPoly P)
      → match_maps P narrow_w narrow_src ≡ some (narrow_w, s)
      → poly_hull_assign P w src ≡ some (join s)
  unfolding poly_hull_assign
  join_result s e = rw (poly_hull_assign, join_combine s e) refl

  module _ (s : WPoly P) (m : IsMatched P narrow_w narrow_src s) where
    same_dimension : P.space_dimension narrow_w.poly ≡ P.space_dimension s.poly
    same_dimension =
        narrow_w-IsWPoly.dimension
        ∙ sym narrow_w-IsWPoly.adapter.full
        ∙ sym (ap length m.adapter)
        ∙ m.valid.adapter.full
        ∙ sym m.valid.dimension

    join-IsWPoly : IsWPoly P (join s)
    join-IsWPoly =
        let v = narrow_w-IsWPoly in
        let dim = P.hull_dimension narrow_w.poly s.poly same_dimension in
        record {
          adapter = record {
            ordered = v.adapter.ordered;
            bounded = v.adapter.bounded;
            distinct = v.adapter.distinct;
            full = v.adapter.full;
            room = omega (arith, dim, v.dimension);
          };
          dimension = omega (arith, dim, v.dimension);
        }

    join-Models : (ρ : Valuation) → Models P w ρ ⊎ Models P src ρ → Models P (join s) ρ
    join-Models ρ (inl x) =
        let (p, z, agree) = shared-Models P w a src.adapter w_positive ρ x in
        (p, P.hull_contains narrow_w.poly s.poly p same_dimension (inl z), agree)
    join-Models ρ (inr x) =
        let (p, z, agree) = m.models ρ (shared-Models P src b w.adapter src_positive ρ x) in
        (
          p,
          P.hull_contains narrow_w.poly s.poly p same_dimension (inr z),
          λ h j e. agree h j (ap (find h) m.adapter ∙ e),
        )

    join-IsJoin : IsJoin P w src (join s)
    join-IsJoin = record {
      valid = join-IsWPoly;
      keeps = λ h i j x y. shared_keeps P w a src.adapter w_positive h i j x y;
      origin = λ h j e. shared_origin P w a src.adapter w_positive h j e;
      models = join-Models;
    }

  -- `poly_hull_assign` of two valid WPolys that track a common variable does not abort. The result is
  -- valid, tracks the variables that both track and no other, and describes every valuation that
  -- one of them describes.
  pub poly_hull_assign-IsJoin :
      (r : WPoly P) × (poly_hull_assign P w src ≡ some r) × IsJoin P w src r
  poly_hull_assign-IsJoin =
      let (s, e, m) =
        match_maps-IsMatched P narrow_w narrow_src narrow_w-IsWPoly narrow_src-IsWPoly
          narrow_positive narrow_both narrow_back in
      (join s, join_result s e, join-IsJoin s m)
