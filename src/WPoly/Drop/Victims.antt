-- ===== src/WPoly/Drop/Victims.antt =====
-- map_with_dim of include/PolyWrap.h with an Eliminator, called on the whole adapter as
-- WPoly::combine of poly_PolyWrap.cpp does it: the variables of the dropped dimensions go.
use polymalys.Common.{
  ℕ, ◌≤◌, ◌<◌, Bool, none, some, [], ◌∷◌, ◌≡◌, refl, ap, ◌∙◌, arith, Bool-cases, inl, inr,
}
use polymalys.Common.Count.{occ}
use polymalys.Common.StdMap.{StdMap}
use polymalys.Ppl.{Ppl, PartialMap}
use polymalys.WPoly.{WPoly, eliminator, map_adapter_dim, map_with_dim}
use polymalys.WPoly.Adapter.{IsWPoly}
use polymalys.WPoly.Drop.Dimensions.{eliminator-maps}
use polymalys.WPoly.Drop.Moved.{moved, map_with_dim-moved}
use polymalys.WPoly.Drop.Filter.{kept, dropped, restricted, drop}

module _ (P : Ppl) (keep : ℕ → Bool) where
  map_adapter_dim-kept :
      (f : PartialMap) (m : StdMap ℕ)
      → ((d : ℕ) → 1 ≤ occ d (dropped keep m) → f.maps d ≡ none)
      → map_adapter_dim P f m ≡ map_adapter_dim P f (kept keep m)
  unfolding map_adapter_dim kept dropped occ
  map_adapter_dim-kept f [] h = refl
  map_adapter_dim-kept f ((g, d) ∷ m) h =
      let rest = map_adapter_dim-kept f m (λ c l. h c (ground arith)) in
      elim (Bool-cases (keep g)) [
        | inl e ↦ ground (arith, rest)
        | inr e ↦ ground (arith, rest, h d (ground arith))
      ]

  module _ (w : WPoly P) (i : IsWPoly P w) (some_var : 0 < w.next) where
    dropped-maps :
        (d : ℕ)
        → 1 ≤ occ d (dropped keep w.adapter)
        → (eliminator P (dropped keep w.adapter) w.poly).maps d ≡ none
    dropped-maps d l = ground (arith, eliminator-maps P (dropped keep w.adapter) w.poly d, l)

    -- the same as `filter_lambda`, which forgets the variables first
    pub victims_dropped :
        map_with_dim P (eliminator P (dropped keep w.adapter) w.poly) w
        ≡ some (restricted keep P w i some_var)
    unfolding moved
    victims_dropped =
        map_with_dim-moved P (drop keep P w i some_var) w (omega (arith, i.dimension))
        ∙ ap (λ m. some (record (restricted keep P w i some_var) { adapter = m }))
            (map_adapter_dim-kept (drop keep P w i some_var) w.adapter dropped-maps)
