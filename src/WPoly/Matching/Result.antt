-- ===== src/WPoly/Matching/Result.antt =====
-- The end of WPoly::combine of poly_PolyWrap.cpp: with the same variables in both operands, the
-- second one gets the dimensions of the first one.
use polymalys.Common.{
  ℕ, ◌-◌, ◌<◌, some, [], ◌∷◌, ◌≡◌, refl, sym, ap, subst, ◌∙◌, length, arith, Option-cases, inl, inr,
  some-injective, none,
}
use polymalys.Common.Count.{below_bounded, below_step, below-le, All-occ}
use polymalys.Common.StdMap.{StdMap, find, IsMap, map_ext}
use polymalys.Linear.Value.{Valuation}
use polymalys.Ppl.{Ppl, Point}
use polymalys.Common.Int.{pos}
use polymalys.WPoly.{WPoly, map_adapter_dim}
use polymalys.WPoly.Adapter.{IsAdapter, IsWPoly, Models}
use polymalys.WPoly.Combine.{map_hash, source_map, match_maps}
use polymalys.WPoly.Drop.Dimensions.{IsRenaming}
use polymalys.WPoly.Drop.Moved.{
  dims, dims_owner, dims-IsUnique, image, find-map_adapter_dim, map_adapter_dim-IsMap, moved,
  map_with_dim-moved, moved-Models,
}
use polymalys.WPoly.Matching.{
  max_codomain-find, max_codomain_bound, source_map-IsMatching, IsMatching,
}

length-dims : (m : StdMap ℕ) → length (dims m) ≡ length m
unfolding dims
length-dims [] = refl
length-dims ((g, d) ∷ m) = ground (arith, length-dims m)

module _ (P : Ppl) (w : WPoly P) (a : IsAdapter P w) where
  -- every dimension that was given out belongs to a variable
  pub every_dimension : (d : ℕ) → d < w.next → (g : ℕ) × (find g w.adapter ≡ some d)
  every_dimension d l =
      let unique = dims-IsUnique w.adapter a.ordered a.distinct in
      let all_below =
        All-occ (λ c. c < w.next) (dims w.adapter)
          (λ c o. let (g, e) = dims_owner c w.adapter a.ordered o in a.bounded g c e) in
      dims_owner d w.adapter a.ordered (
        ground (
          arith,
          below_bounded w.next (dims w.adapter) all_below,
          length-dims w.adapter,
          a.full,
          below_step d w.next (dims w.adapter) unique,
          below-le d (dims w.adapter) unique,
          l,
        ))

-- What brings `src` to the dimensions of `w`: the result is valid, has the adapter of `w`, and
-- describes what `src` does.
pub record IsMatched (P : Ppl) (w src s : WPoly P) : Type 0 where
  pub valid : IsWPoly P s
  pub adapter : s.adapter ≡ w.adapter
  pub models : (ρ : Valuation) → Models P src ρ → Models P s ρ
  pub models_back : (ρ : Valuation) → Models P s ρ → Models P src ρ

module _ (P : Ppl) (w src : WPoly P) (a : IsWPoly P w) (b : IsWPoly P src) (l : 0 < w.next)
    (both : (g d : ℕ) → find g w.adapter ≡ some d → (j : ℕ) × (find g src.adapter ≡ some j))
    (back : (g j : ℕ) → find g src.adapter ≡ some j → (d : ℕ) × (find g w.adapter ≡ some d)) where
  abbrev remap : StdMap ℕ
  remap = (source_map w.adapter src.adapter []).1

  matching :
      IsMatching w.adapter src.adapter a.adapter.distinct b.adapter.distinct
        (source_map w.adapter src.adapter [])
  matching =
      source_map-IsMatching w.adapter src.adapter a.adapter.distinct b.adapter.distinct
        a.adapter.ordered both

  remap-IsRenaming : (n : ℕ) → IsRenaming (map_hash remap) n
  unfolding map_hash
  remap-IsRenaming n = record {
    injective = λ i k j li lk ei ek.
        let (g, gi, gw) = matching.sound i j ei in
        let (h, hk, hw) = matching.sound k j ek in
        let same : g ≡ h = a.adapter.distinct g h j gw hw in
        some-injective i k (sym gi ∙ ap (λ v. find v src.adapter) same ∙ hk);
    bounded = λ i j q e. omega (arith, max_codomain-find remap 0 i j e);
  }

  remap-codomain : (map_hash remap).codomain_size ≡ w.next
  unfolding map_hash
  remap-codomain =
      let (g, e) = every_dimension P w a.adapter (w.next - 1) (omega (arith, l)) in
      let (j, f) = both g (w.next - 1) e in
      omega (
        arith,
        l,
        max_codomain-find remap 0 j (w.next - 1) (matching.complete g j (w.next - 1) e f),
        max_codomain_bound remap 0 (w.next - 1) matching.ordered (omega arith) (λ i d q.
            let (h, x, y) = matching.sound i d q in omega (arith, a.adapter.bounded h d y, l)),
      )

  matched_dimension : (g : ℕ) → image (map_hash remap) (find g src.adapter) ≡ find g w.adapter
  unfolding map_hash
  matched_dimension g = elim (Option-cases (find g w.adapter)) [
    | inl o ↦ elim (Option-cases (find g src.adapter)) [
      | inl q ↦ ap (image (map_hash remap)) q ∙ sym o
      | inr (j, q) ↦ let (d, e) = back g j q in absurd (ground (arith, o, e))
    ]
    | inr (d, o) ↦
        let (j, q) = both g d o in
        ap (image (map_hash remap)) q ∙ matching.complete g j d o q ∙ sym o
  ]

  src_dimension : 0 < P.space_dimension src.poly
  src_dimension =
      let (g, e) = every_dimension P w a.adapter (w.next - 1) (omega (arith, l)) in
      let (j, f) = both g (w.next - 1) e in omega (arith, b.adapter.bounded g j f, b.dimension)

  matched : WPoly P
  matched = moved P (map_hash remap) src

  matched-adapter : matched.adapter ≡ w.adapter
  unfolding matched moved
  matched-adapter =
      map_ext (map_adapter_dim P (map_hash remap) src.adapter) w.adapter
        (map_adapter_dim-IsMap P (map_hash remap) src.adapter b.adapter.ordered) a.adapter.ordered
        (λ g.
          find-map_adapter_dim P (map_hash remap) g src.adapter b.adapter.ordered
          ∙ matched_dimension g)

  matched-IsWPoly : IsWPoly P matched
  unfolding matched moved
  matched-IsWPoly =
      let dim = P.map_dimension src.poly (map_hash remap) src_dimension in
      record {
        adapter = record {
          ordered = subst IsMap (sym matched-adapter) a.adapter.ordered;
          bounded = λ g d e. omega (
            arith,
            remap-codomain,
            a.adapter.bounded g d (ap (find g) (sym matched-adapter) ∙ e),
          );
          distinct = λ g h d e f.
              a.adapter.distinct g h d (ap (find g) (sym matched-adapter) ∙ e)
                (ap (find h) (sym matched-adapter) ∙ f);
          full = ap length matched-adapter ∙ a.adapter.full ∙ sym remap-codomain;
          room = omega (arith, dim);
        };
        dimension = dim;
      }

  matched-Models : (ρ : Valuation) → Models P src ρ → Models P matched ρ
  unfolding matched
  matched-Models =
      moved-Models P (map_hash remap) src b.adapter.ordered
        (λ g d e. omega (arith, b.dimension, b.adapter.bounded g d e))
        (remap-IsRenaming (P.space_dimension src.poly))

  -- the point of `src` for a point of the result
  source_point : Point → Point
  source_point y i = elim (find i remap) [ none ↦ pos 0 | some j ↦ y j ]

  source_point_lem : (y : Point) (i j : ℕ) → find i remap ≡ some j → y j ≡ source_point y i
  unfolding source_point
  source_point_lem y i j e = rw (source_point, e) refl

  matched-Models_back : (ρ : Valuation) → Models P matched ρ → Models P src ρ
  unfolding matched moved map_hash
  matched-Models_back ρ (y, c, agree) = (
    source_point y,
    P.map_contains_back src.poly (map_hash remap) (source_point y) y
        (λ i k.
          let (g, f) = every_dimension P src b.adapter i (omega (arith, b.dimension, k)) in
          let (d, e) = back g i f in
          let q = matching.complete g i d e f in
          (d, q, omega (arith, remap-codomain, a.adapter.bounded g d e), source_point_lem y i d q))
        c,
    λ g i f.
        let (d, e) = back g i f in
        sym (source_point_lem y i d (matching.complete g i d e f))
        ∙ agree g d (ap (find g) matched-adapter ∙ e),
  )

  matched_result : match_maps P w src ≡ some (w, matched)
  unfolding match_maps matched
  matched_result =
      rw (match_maps, matching.adapter, map_with_dim-moved P (map_hash remap) src src_dimension)
        refl

  -- The last part of `combine` does not abort on valid operands that track the same variables, at
  -- least one. It leaves the first operand as it is and gives the second one the adapter of the
  -- first one; the second one stays valid and describes what it did, no more and no less.
  pub match_maps-IsMatched :
      (s : WPoly P) × (match_maps P w src ≡ some (w, s)) × IsMatched P w src s
  match_maps-IsMatched = (
    matched,
    matched_result,
    record {
      valid = matched-IsWPoly;
      adapter = matched-adapter;
      models = matched-Models;
      models_back = matched-Models_back;
    },
  )
