-- ===== src/WPoly/Drop/Unconstrain.antt =====
-- unconstrain of include/PolyWrap.h: a variable is forgotten.
use polymalys.Common.{
  ℕ, ◌+◌, ◌<◌, none, some, [], ◌∷◌, ◌≡◌, ◌≢◌, refl, length, arith, Option-cases, inl, inr, sym,
  subst, ◌∙◌,
}
use polymalys.Common.Count.{occ}
use polymalys.Common.StdMap.{StdMap, find}
use polymalys.Linear.Value.{Valuation}
use polymalys.Ppl.{Ppl}
use polymalys.WPoly.Adapter.{IsWPoly, Models}
use polymalys.WPoly.Drop.Dimensions.{IsRenaming, eliminator-maps, eliminator-IsRenaming}
use polymalys.WPoly.Drop.Moved.{
  dims, occ-dims, dims-IsUnique, unmapped, moved, map_with_dim-moved, moved-Models, moved-IsWPoly,
  find-map_adapter_dim,
}
use polymalys.WPoly.{WPoly, map_with_dim, eliminator, unconstrain}

module _ (P : Ppl) where
  unmapped_one :
      (d : ℕ) (p : P.Poly) (m : StdMap ℕ) → unmapped (eliminator P (d ∷ []) p) m ≡ occ d (dims m)
  unfolding unmapped occ dims
  unmapped_one d p [] = refl
  unmapped_one d p ((g, c) ∷ m) = ground (arith, eliminator-maps P (d ∷ []) p c, unmapped_one d p m)

  -- what `unconstrain` leaves: a valid WPoly that does not track the variable, and that describes
  -- every valuation that differs from a described one in that variable alone
  pub record IsForgotten (v : ℕ) (w w' : WPoly P) : Type 0 where
    pub valid : IsWPoly P w'
    pub gone : find v w'.adapter ≡ none
    pub models : (ρ ρ' : Valuation) → Models P w ρ → ((g : ℕ) → g ≢ v → ρ' g ≡ ρ g) → Models P w' ρ'

  module _ (v d : ℕ) (w : WPoly P) (i : IsWPoly P w) (t : find v w.adapter ≡ some d) where
    forgotten : WPoly P
    forgotten = moved P (eliminator P (d ∷ []) w.poly) w

    in_range : (g c : ℕ) → find g w.adapter ≡ some c → c < P.space_dimension w.poly
    in_range g c e = omega (arith, i.adapter.bounded g c e, i.dimension)

    renaming : IsRenaming (eliminator P (d ∷ []) w.poly) (P.space_dimension w.poly)
    unfolding occ
    renaming = eliminator-IsRenaming P (d ∷ []) w.poly (λ c. ground arith) (in_range v d t, tt)

    forgotten-gone : find v forgotten.adapter ≡ none
    unfolding forgotten moved occ
    forgotten-gone = ground (
      arith,
      find-map_adapter_dim P (eliminator P (d ∷ []) w.poly) v w.adapter i.adapter.ordered,
      eliminator-maps P (d ∷ []) w.poly d,
    )

    forgotten-length :
        length w.adapter
        ≡ (eliminator P (d ∷ []) w.poly).codomain_size
          + unmapped (eliminator P (d ∷ []) w.poly) w.adapter
    unfolding eliminator
    forgotten-length = omega (
      arith,
      unmapped_one d w.poly w.adapter,
      occ-dims v d w.adapter t,
      dims-IsUnique w.adapter i.adapter.ordered i.adapter.distinct d,
      i.adapter.full,
      i.dimension,
      in_range v d t,
    )

    forgotten_result : map_with_dim P (eliminator P (d ∷ []) w.poly) w ≡ some forgotten
    unfolding forgotten
    forgotten_result =
        map_with_dim-moved P (eliminator P (d ∷ []) w.poly) w (omega (arith, in_range v d t))

    forgotten-IsForgotten : IsForgotten v w forgotten
    unfolding forgotten
    forgotten-IsForgotten = record {
      valid =
          moved-IsWPoly P (eliminator P (d ∷ []) w.poly) w i.adapter.ordered i.adapter.distinct
            in_range renaming (omega (arith, in_range v d t)) forgotten-length;
      gone = forgotten-gone;
      models = λ ρ ρ' h e.
          let (y, c, a) =
            moved-Models P (eliminator P (d ∷ []) w.poly) w i.adapter.ordered in_range renaming ρ
              h in
          (
            y,
            c,
            λ g j f.
                a g j f
                ∙ sym (
                    e g (λ s.
                      cc (subst (λ k. find k forgotten.adapter ≡ some j) s f, forgotten-gone))),
          );
    }

  -- `unconstrain` of a valid WPoly does not abort. The result is valid and does not track the
  -- variable, and it describes every valuation that differs from a described one in that variable
  -- alone.
  pub unconstrain-IsForgotten :
      (v : ℕ) (w : WPoly P)
      → IsWPoly P w
      → (w' : WPoly P) × (unconstrain P v w ≡ some w') × IsForgotten v w w'
  unfolding unconstrain
  unconstrain-IsForgotten v w i = elim (Option-cases (find v w.adapter)) [
    | inl e ↦ (
      w,
      rw e (ground (arith, i.adapter.full, i.dimension)),
      record {
        valid = i;
        gone = e;
        models = λ ρ ρ' h s. (
          h.0,
          h.1,
          λ g d f. h.2 g d f ∙ sym (s g (λ k. cc (subst (λ k. find k w.adapter ≡ some d) k f, e))),
        );
      },
    )
    | inr (d, e) ↦ (
      forgotten v d w i e,
      rw e (ground (arith, forgotten_result v d w i e, i.adapter.full, i.dimension)),
      forgotten-IsForgotten v d w i e,
    )
  ]
